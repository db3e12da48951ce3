-- ===== src/Plugins/Demo.antt =====
-- plugins/demo_app/demo_app.cpp: a window of two colours, as a plugin of the host. The colours and the
-- constants of GKC are parameters.
pub mod Painting
use protocol_design.Prelude.{
  ℕ, zero, suc, ◌+◌, ◌*◌, List, Bool, not, ◌&&◌, ◌||◌, if◌then◌else◌, ◌==◌, leb, ltb, set,
}
use protocol_design.Prelude.Int.{pos, less, of_u32}
use protocol_design.Common.Rect.{rect}
use protocol_design.Common.InputEvent.{GkcConstants, UiMessageMouse, UiMessageKeyboard}
use protocol_design.Apphost.UiHost.{Plugin, Script, finished, call, damage, quit}

abbrev pub window_width : ℕ
window_width = 32

abbrev pub window_height : ℕ
window_height = 16

abbrev pub small_left : ℕ
small_left = 8

abbrev pub small_top : ℕ
small_top = 4

abbrev pub small_right : ℕ
small_right = 16

abbrev pub small_bottom : ℕ
small_bottom = 12

-- COLOR_QUAD_RED and the others.
pub record DemoColors : Type 0 where
  pub red : ℕ
  pub green : ℕ
  pub blue : ℕ
  pub cyan : ℕ
  pub yellow : ℕ

pub record DemoWindow : Type 0 where
  pub draw_count : ℕ
  pub bg_color : ℕ
  pub small_color : ℕ

abbrev pub in_small : ℕ → ℕ → Bool
in_small x y = (leb small_left x && ltb x small_right) && (leb small_top y && ltb y small_bottom)

-- The columns of row `y` from `x` on, and the rows from `y` on, `n` of which are left.
unfoldable pub draw_columns : ℕ → ℕ → ℕ → ℕ → ℕ → ℕ → List ℕ → List ℕ
draw_columns zero x y width bg small buf = buf
draw_columns (suc n) x y width bg small buf =
    draw_columns n (x + 1) y width bg small
      (set buf (y * width + x) (if in_small x y then small else bg))

unfoldable pub draw_lines : ℕ → ℕ → ℕ → ℕ → ℕ → List ℕ → List ℕ
unfolding draw_columns
draw_lines zero y width bg small buf = buf
draw_lines (suc n) y width bg small buf =
    draw_lines n (y + 1) width bg small (draw_columns width 0 y width bg small buf)

module _ (colors : DemoColors) where
  abbrev pub fresh_window : DemoWindow
  fresh_window = record { draw_count = 0; bg_color = colors.blue; small_color = colors.green }

  -- What is drawn depends on how often it was drawn before.
  unfoldable pub do_draw : List ℕ → ℕ → ℕ → DemoWindow → List ℕ × DemoWindow
  unfolding draw_lines
  do_draw buf width height w =
      let count = w.draw_count + 1 in
      let bg = if leb count 2 then colors.blue else w.bg_color in
      let small =
        if count == 1 then colors.red else if count == 2 then colors.green else w.small_color in
      (
        draw_lines height 0 width bg small buf,
        record w {
          draw_count = count;
          small_color = if count == 2 then colors.green else w.small_color;
        },
      )

  module _ (gkc : GkcConstants) where
    -- A coordinate of a message is the pattern of an `int`.
    unfoldable pub do_mouse : UiMessageMouse → DemoWindow → Script DemoWindow
    do_mouse m w =
        let x = of_u32 m.x in
        let y = of_u32 m.y in
        if not (m.event == gkc.event_down)
        then finished w
        else if not (m.button == gkc.button_left)
        then finished w
        else if less x (pos small_left) || not (less x (pos small_right))
        then finished w
        else if less y (pos small_top) || not (less y (pos small_bottom))
        then finished w
        else call (damage (rect small_left small_top small_right small_bottom))
            (record w {
              small_color = if w.small_color == colors.green then colors.yellow else colors.green;
            })
            (λ p. finished p)

    unfoldable pub do_keyboard : UiMessageKeyboard → DemoWindow → Script DemoWindow
    do_keyboard kb w =
        if not (kb.down == 1)
        then finished w
        else if not (kb.key == 0x70)
        then finished w
        else call (damage (rect 0 0 window_width window_height))
            (record w { bg_color = if w.bg_color == colors.blue then colors.cyan else colors.blue })
            (λ p. finished p)

    abbrev pub demo : Plugin DemoWindow
    demo = record {
      on_draw = λ pixels width height paint w. do_draw pixels width height w;
      on_mouse = do_mouse;
      on_keyboard = do_keyboard;
      on_work = λ n w. finished w;
      on_close = λ w. call quit w (λ p. finished p);
    }
