-- ===== src/Plugins/Viewer.antt =====
-- plugins/client_viewer/client_viewer.cpp: the window that shows the client's picture, and what it sends. The
-- clock is given. Arguments below it reads the command line. Products of coordinates do not overflow.
pub mod Clicks
pub mod Arguments
pub mod Shown
use protocol_design.Prelude.{
  ℕ, suc, ◌+◌, ◌-◌, ◌*◌, ◌/◌, ◌^◌, List, [], ◌∷◌, Bool, true, false, not, ◌&&◌, Option, none, some,
  if◌then◌else◌, ◌==◌, ltb, u32,
}
use protocol_design.Prelude.Int.{ℤ, pos, negsuc, is_positive, of_u32, less, magnitude}
use protocol_design.Common.Rect.{UiRect, RectOps}
use protocol_design.Common.InputEvent.{
  GkcConstants, UiMessageMouse, UiMessageKeyboard, InputEventType, mouse_move, mouse_left_down,
  mouse_left_up, mouse_right_down, mouse_right_up, mouse_scroll, key_down, key_up,
  pack_mouse_input_event, pack_keyboard_input_event,
}
use protocol_design.Client.Renderer.{PixelRenderer, Colors, reset, blit_scaled_to_fit}
use protocol_design.Client.Runtime.{Client, send_input_event, stop, start}

pub record ViewerOptions : Type 0 where
  pub gateway_host : List ℕ
  pub gateway_port : ℕ
  pub app_name : List ℕ
  pub offline : Bool
  pub canvas_width : ℕ
  pub canvas_height : ℕ
  pub display_scale : ℕ

-- "127.0.0.1" and "demo_app".
abbrev pub default_options : ViewerOptions
default_options = record {
  gateway_host = b'1' ∷ b'2' ∷ b'7' ∷ b'.' ∷ b'0' ∷ b'.' ∷ b'0' ∷ b'.' ∷ b'1' ∷ [];
  gateway_port = 19000;
  app_name = b'd' ∷ b'e' ∷ b'm' ∷ b'o' ∷ b'_' ∷ b'a' ∷ b'p' ∷ b'p' ∷ [];
  offline = true;
  canvas_width = 32;
  canvas_height = 16;
  display_scale = 10;
}

-- An argument, with the number that `std::stoi` reads from its value.
pub data Arg : Type 0 where
  host_arg app_arg : List ℕ → Arg
  port_arg width_arg height_arg scale_arg : ℤ → Arg
  offline_arg other_arg : Arg

-- A round of the loop over the arguments.
unfoldable pub read_arg : Arg → ViewerOptions → ViewerOptions
read_arg (host_arg value) out = record out { gateway_host = value; offline = false }
read_arg (port_arg port) out = record out {
  gateway_port =
      if is_positive port && not (less (pos 65535) port) then magnitude port else out.gateway_port;
  offline = false;
}
read_arg (app_arg value) out = record out { app_name = value }
read_arg offline_arg out = record out { offline = true }
read_arg (width_arg v) out = record out {
  canvas_width = if is_positive v then magnitude v else out.canvas_width;
}
read_arg (height_arg v) out = record out {
  canvas_height = if is_positive v then magnitude v else out.canvas_height;
}
read_arg (scale_arg v) out = record out {
  display_scale = if is_positive v then magnitude v else out.display_scale;
}
read_arg other_arg out = out

-- x * canvas / display, which is rounded towards zero, as the pattern of an `int`.
abbrev scaled : ℕ → ℕ → ℤ → ℕ
scaled canvas display (pos n) = n * canvas / display
scaled canvas display (negsuc n) = u32 (2 ^ 32 - suc n * canvas / display)

unfoldable pub logical : ℕ → ℕ → ℕ → ℕ
logical canvas display x = if ltb 0 display then scaled canvas display (of_u32 x) else 0

unfoldable pub mouse_event_type : GkcConstants → UiMessageMouse → InputEventType
mouse_event_type gkc m =
    if m.event == gkc.event_down && m.button == gkc.button_left
    then mouse_left_down
    else if m.event == gkc.event_up && m.button == gkc.button_left
    then mouse_left_up
    else if m.event == gkc.event_down && m.button == gkc.button_right
    then mouse_right_down
    else if m.event == gkc.event_up && m.button == gkc.button_right
    then mouse_right_up
    else if m.event == gkc.event_wheel
    then mouse_scroll
    else mouse_move

pub record Viewer : Type 0 where
  pub renderer : PixelRenderer
  pub runtime : Client
  pub canvas_width : ℕ
  pub canvas_height : ℕ
  pub display_width : ℕ
  pub display_height : ℕ
  pub draw_count : ℕ

-- `Start`, if the window can be created.
unfoldable pub start_viewer : Colors → ViewerOptions → Viewer → Viewer
unfolding reset start
start_viewer colors options v =
    let renderer =
      reset (pos options.canvas_width) (pos options.canvas_height) colors.blue v.renderer in
    record {
      renderer = renderer;
      runtime =
          if not options.offline
          then (start options.app_name true (some renderer) true v.runtime).1
          else v.runtime;
      canvas_width = options.canvas_width;
      canvas_height = options.canvas_height;
      display_width = options.canvas_width * options.display_scale;
      display_height = options.canvas_height * options.display_scale;
      draw_count = v.draw_count;
    }

unfoldable pub draw_viewer : RectOps → List ℕ → ℕ → ℕ → UiRect → Viewer → List ℕ × Viewer
unfolding blit_scaled_to_fit
draw_viewer ops buf width height paint v = (
  blit_scaled_to_fit ops buf width height paint v.renderer,
  record v { draw_count = v.draw_count + 1 },
)

-- The point of the picture that an event of the mouse is for.
unfoldable pub mouse_position : UiMessageMouse → Viewer → ℕ × ℕ
unfolding logical
mouse_position m v =
    (logical v.canvas_width v.display_width m.x, logical v.canvas_height v.display_height m.y)

-- The event is sent, unless packing it writes past its end.
abbrev send_packed : Option (List ℕ) → Viewer → Option Viewer
send_packed none v = none
send_packed (some body) v = some (record v { runtime = (send_input_event body v.runtime).1 })

module _ (little : Bool) (gkc : GkcConstants) (timestamp_us : ℕ) where
  unfoldable pub mouse_on_viewer : UiMessageMouse → Viewer → Option Viewer
  unfolding mouse_event_type mouse_position pack_mouse_input_event
  mouse_on_viewer m v =
      let (x, y) = mouse_position m v in
      send_packed (pack_mouse_input_event little (mouse_event_type gkc m) x y timestamp_us) v

  unfoldable pub keyboard_on_viewer : UiMessageKeyboard → Viewer → Option Viewer
  unfolding pack_keyboard_input_event
  keyboard_on_viewer kb v =
      send_packed
        (pack_keyboard_input_event little (if kb.down == 0 then key_up else key_down) kb.key
          timestamp_us)
        v

unfoldable pub close_viewer : Viewer → Viewer
unfolding stop
close_viewer v = record v { runtime = stop v.runtime }
