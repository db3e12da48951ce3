-- ===== src/Plugins/Demo/Painting.antt =====
-- What plugins/demo_app/demo_app.cpp draws, as a plugin of the host.
use protocol_design.Prelude.{
  ℕ, zero, suc, ◌+◌, ◌*◌, List, [], ◌∷◌, Bool, true, false, if◌then◌else◌, ◌==◌, leb, set, All,
}
use protocol_design.Client.Renderer.Rows.{IsPixel}
use protocol_design.Apphost.UiHost.Mirror.{DrawsPixels}
use protocol_design.Plugins.Demo.{
  DemoColors, DemoWindow, in_small, draw_columns, draw_lines, do_draw, demo,
}
use protocol_design.Common.InputEvent.{GkcConstants}

pub record ArePixels (colors : DemoColors) (w : DemoWindow) : Type 0 where
  pub red_ok : IsPixel colors.red
  pub green_ok : IsPixel colors.green
  pub blue_ok : IsPixel colors.blue
  pub bg_ok : IsPixel w.bg_color
  pub small_ok : IsPixel w.small_color

if-IsPixel : (b : Bool) (x y : ℕ) → IsPixel x → IsPixel y → IsPixel (if b then x else y)
if-IsPixel true x y v w = v
if-IsPixel false x y v w = w

set-IsPixel : (xs : List ℕ) (i v : ℕ) → IsPixel v → All IsPixel xs → All IsPixel (set xs i v)
set-IsPixel [] i v h a = tt
set-IsPixel (x ∷ xs) zero v h a = (h, a.1)
set-IsPixel (x ∷ xs) (suc i) v h a = (a.0, set-IsPixel xs i v h a.1)

module _ (width bg small : ℕ) (bg_ok : IsPixel bg) (small_ok : IsPixel small) where
  draw_columns-IsPixel :
      (n x y : ℕ) (buf : List ℕ)
      → All IsPixel buf
      → All IsPixel (draw_columns n x y width bg small buf)
  unfolding draw_columns
  draw_columns-IsPixel zero x y buf a = a
  draw_columns-IsPixel (suc n) x y buf a =
      let color = if in_small x y then small else bg in
      draw_columns-IsPixel n (x + 1) y (set buf (y * width + x) color) (
        set-IsPixel buf (y * width + x) color (if-IsPixel (in_small x y) small bg small_ok bg_ok) a)

  draw_lines-IsPixel :
      (n y : ℕ) (buf : List ℕ) → All IsPixel buf → All IsPixel (draw_lines n y width bg small buf)
  unfolding draw_lines
  draw_lines-IsPixel zero y buf a = a
  draw_lines-IsPixel (suc n) y buf a =
      draw_lines-IsPixel n (y + 1) (draw_columns width 0 y width bg small buf)
        (draw_columns-IsPixel width 0 y buf a)

pub demo-DrawsPixels :
    (colors : DemoColors) (gkc : GkcConstants) (w : DemoWindow)
    → ArePixels colors w
    → DrawsPixels (demo colors gkc) w
unfolding do_draw
demo-DrawsPixels colors gkc w v pixels width height q a =
    let count = w.draw_count + 1 in
    draw_lines-IsPixel width _ _ (if-IsPixel (leb count 2) _ _ v.blue_ok v.bg_ok)
      (if-IsPixel (count == 1) _ _ v.red_ok (if-IsPixel (count == 2) _ _ v.green_ok v.small_ok))
      height 0 pixels a
