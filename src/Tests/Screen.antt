-- ===== src/Tests/Screen.antt =====
-- The theorems on the host of a plugin, and on the frames that it sends to the client, at concrete inputs.
use protocol_design.Prelude.{
  ℕ, suc, ◌+◌, ◌-◌, ◌*◌, ◌^◌, ◌≡◌, refl, List, [], ◌∷◌, true, false, not, ◌&&◌, some, get_or, set,
  arith, All,
}
use protocol_design.Prelude.Int.{pos, less, magnitude}
use protocol_design.Common.Rect.{RectOps, IsRectOps, rect}
use protocol_design.Common.InputEvent.{no_mouse, no_keyboard, and_then}
use protocol_design.Apphost.PixelCapture.{pack_pixel_data_rect}
use protocol_design.Apphost.UiHost.{
  State, Plugin, finished, call, WindowRuntime, damage, quit, start, mouse_input, keyboard_input,
  drain_input, push_input, on_window_damage, run_loop, loop_round, waits, goes_on,
  set_pixel_data_sink, on_host_post_work,
}
use protocol_design.Apphost.UiHost.Calls.{drains}
use protocol_design.Plugins.Demo.{DemoColors, DemoWindow, fresh_window, demo}
use protocol_design.Plugins.Demo.Painting.{demo-DrawsPixels}
use protocol_design.Tests.Bodies.{gkc}
use protocol_design.Apphost.UiHost.Schedule.{
  Reach, begins, later, pushes, posts, loops, IsValid, Reach-IsValid, Reach-waits,
}
use protocol_design.Apphost.UiHost.Termination.{
  IsQuietPlugin, quiet_finished, quiet_call, HasEnded, alone, run_loop-ends,
}
use protocol_design.Apphost.UiHost.Mirror.{
  DrawsPixels, KeepsOutside-whole, IsMirrored, Updates, on_window_damage-Updates,
}
use protocol_design.Client.Renderer.{PixelRenderer, Colors, ok, ApplyResult, apply_pixel_data_body}
use protocol_design.Client.Renderer.Rows.{IsQuad, IsPixel}
use protocol_design.Client.Renderer.Frames.{IsFrame, apply_pixel_data_body-pack_pixel_data_rect}

abbrev pub colors : Colors
colors = record {
  quad = λ r g b a. a * 2 ^ 24 + r * 2 ^ 16 + g * 2 ^ 8 + b;
  black = 4278190080;
  blue = 4278190335;
  cyan = 4278255615;
  yellow = 4294967040;
  green = 4278222848;
}

colors-IsQuad : IsQuad colors
colors-IsQuad r g b a = refl

abbrev pub rect_ops : RectOps
rect_ops = record {
  is_empty = λ q. not (less q.l q.r && less q.t q.b);
  width = λ q. pos (magnitude q.r - magnitude q.l);
  height = λ q. pos (magnitude q.b - magnitude q.t);
}

pub rect_ops-IsRectOps : IsRectOps rect_ops
rect_ops-IsRectOps = record {
  empty_ok = λ q. refl;
  width_ok = λ l r t b e. refl;
  height_ok = λ t b l r e. refl;
}

-- Three columns and two rows, of which the last two columns are sent.
abbrev picture : PixelRenderer
picture = record { width = 3; height = 2; last_frame_seq = 0; pixels = 0 ∷ 0 ∷ 0 ∷ 0 ∷ 0 ∷ 0 ∷ [] }

picture-IsFrame : IsFrame picture 1 1 0 3 2
picture-IsFrame = record {
  ordered_x = omega arith;
  ordered_y = omega arith;
  fits_x = omega arith;
  fits_y = omega arith;
  width_ok = omega arith;
  height_ok = omega arith;
  seq_ok = omega arith;
  fresh = omega arith;
  size_ok = omega arith;
  backed = refl;
}

abbrev buffer : List ℕ
buffer = 1 ∷ 2 ∷ 3 ∷ 4 ∷ 5 ∷ 6 ∷ []

buffer-IsPixel : All IsPixel buffer
buffer-IsPixel =
    (omega arith, (omega arith, (omega arith, (omega arith, (omega arith, (omega arith, tt))))))

frame_example :
    and_then {B = ApplyResult × (ℕ × ℕ)} (pack_pixel_data_rect true buffer 3 1 0 3 2 1) (λ body.
      let r = apply_pixel_data_body rect_ops colors body picture in
      some (r.0, (r.1.last_frame_seq, get_or r.1.pixels (1 * 3 + 2) 0)))
    ≡ some (ok, (1, 6))
frame_example =
    apply_pixel_data_body-pack_pixel_data_rect true rect_ops rect_ops-IsRectOps colors colors-IsQuad
      buffer 3 buffer-IsPixel picture 1 1 0 3 2 picture-IsFrame 2 1 (omega arith)

-- A plugin that paints the first pixel of what it is asked to paint, and counts its input.
abbrev painter : Plugin ℕ
painter = record {
  on_draw = λ pixels w h q p. (set pixels (magnitude q.t * w + magnitude q.l) 7, p);
  on_mouse = λ m p. call (damage (rect 0 0 1 1)) (suc p) (λ p'. finished p');
  on_keyboard = λ kb p. call quit (suc p) (λ p'. finished p');
  on_work = λ n p. finished p;
  on_close = λ p. call quit p (λ p'. finished p');
}

painter-IsQuiet : IsQuietPlugin painter
painter-IsQuiet = record {
  quiet_mouse = λ m p.
      quiet_call (damage (rect 0 0 1 1)) (suc p) (λ p'. finished p') refl (λ q. quiet_finished q);
  quiet_keyboard = λ kb p. quiet_call quit (suc p) (λ p'. finished p') refl (λ q. quiet_finished q);
  quiet_work = λ n p. quiet_finished p;
}

abbrev window : WindowRuntime
window = record {
  id = 64;
  width = 3;
  height = 2;
  pixels = 0 ∷ 0 ∷ 0 ∷ 0 ∷ 0 ∷ 0 ∷ [];
  has_handler = true;
  destroyed = false;
}

abbrev shown : State ℕ
shown = record (start 0) { window = some window; has_sink = true }

-- The demo, which has not drawn yet, and its full repaint.
abbrev demo_colors : DemoColors
demo_colors = record { red = 1; green = 2; blue = 3; cyan = 4; yellow = 5 }

abbrev demo_shown : State DemoWindow
demo_shown = record (start (fresh_window demo_colors)) { window = some window; has_sink = true }

shown-IsMirrored : IsMirrored demo_shown window picture
shown-IsMirrored = record {
  window_ok = refl;
  alive = refl;
  handled = refl;
  sends = refl;
  same_width = refl;
  same_height = refl;
  width_ok = omega arith;
  height_ok = omega arith;
  area_ok = omega arith;
  backed = refl;
  same_seq = refl;
  pixels_ok =
      (omega arith, (omega arith, (omega arith, (omega arith, (omega arith, (omega arith, tt))))));
  agrees = λ x y hx hy. refl;
}

demo_draws : DrawsPixels (demo demo_colors gkc) demo_shown.plugin
demo_draws = demo-DrawsPixels demo_colors gkc demo_shown.plugin (record {
  red_ok = omega arith;
  green_ok = omega arith;
  blue_ok = omega arith;
  bg_ok = omega arith;
  small_ok = omega arith;
})

damage_example :
    Updates rect_ops colors demo_shown picture
      (on_window_damage true (demo demo_colors gkc) (rect 0 0 32 16) demo_shown)
damage_example =
    on_window_damage-Updates true (demo demo_colors gkc) rect_ops rect_ops-IsRectOps colors
      colors-IsQuad demo_shown demo_draws window picture shown-IsMirrored (omega arith)
      (rect 0 0 32 16) refl refl
      (KeepsOutside-whole (demo demo_colors gkc) demo_shown.plugin window)

-- A mouse event and a key wait; the handler of the key asks to quit.
abbrev busy : State ℕ
busy = record shown {
  post_queue = drain_input ∷ [];
  input_queue = mouse_input no_mouse ∷ keyboard_input no_keyboard ∷ [];
  input_work_pending = true;
}

busy-IsValid : IsValid (alone true painter painter-IsQuiet busy)
unfolding drains
busy-IsValid = record { counted = refl; covered = λ e. absurd (cc e) }

run_loop_example :
    HasEnded true painter painter-IsQuiet (run_loop true painter 4 busy)
    × ((run_loop true painter 4 busy).1.input_queue ≡ [])
run_loop_example = run_loop-ends true painter painter-IsQuiet 4 busy busy-IsValid (omega arith)

run_loop_returns : (run_loop true painter 4 busy).0 ≡ true
unfolding run_loop
run_loop_returns = refl

-- The reader pushes a mouse event and posts the drain, and the main thread takes and dispatches it.
abbrev after_push : State ℕ
after_push = record (start 0) {
  has_sink = true;
  input_queue = mouse_input no_mouse ∷ [];
  input_work_pending = true;
}

abbrev after_post : State ℕ
after_post = record after_push { post_queue = drain_input ∷ [] }

abbrev after_drain : State ℕ
after_drain = record (start 0) { has_sink = true; local = mouse_input no_mouse ∷ [] }

abbrev after_dispatch : State ℕ
after_dispatch = record (start 0) { has_sink = true }

taken : loop_round true painter after_post ≡ goes_on after_drain
unfolding loop_round
taken = refl

done : loop_round true painter after_drain ≡ goes_on after_dispatch
unfolding loop_round
done = refl

idle : loop_round true painter after_dispatch ≡ waits
unfolding loop_round
idle = refl

pushed :
    Reach true painter 0
      (mouse_input no_mouse ∷ [])
      []
      (record { host = after_push; owes_post = true })
unfolding push_input set_pixel_data_sink
pushed =
    later (mouse_input no_mouse ∷ []) [] _ begins (pushes (mouse_input no_mouse) after_dispatch)

posted :
    Reach true painter 0
      (mouse_input no_mouse ∷ [])
      []
      (record { host = after_post; owes_post = false })
unfolding on_host_post_work
posted = later [] [] _ pushed (posts after_push)

drained :
    Reach true painter 0
      (mouse_input no_mouse ∷ [])
      []
      (record { host = after_drain; owes_post = false })
drained = later [] [] _ posted (loops after_post after_drain false taken)

delivered :
    Reach true painter 0
      (mouse_input no_mouse ∷ [])
      (mouse_input no_mouse ∷ [])
      (record { host = after_dispatch; owes_post = false })
delivered =
    later [] (mouse_input no_mouse ∷ []) _ drained (loops after_drain after_dispatch false done)

Reach-IsValid_example : IsValid (record { host = after_post; owes_post = false })
Reach-IsValid_example = Reach-IsValid true painter 0 posted

Reach-waits_example : mouse_input no_mouse ∷ [] ≡ mouse_input no_mouse ∷ []
Reach-waits_example = Reach-waits true painter 0 delivered refl idle
