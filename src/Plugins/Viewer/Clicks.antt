-- ===== src/Plugins/Viewer/Clicks.antt =====
-- What a click in the window of plugins/client_viewer/client_viewer.cpp addresses.
use protocol_design.Prelude.{ℕ, ◌+◌, ◌*◌, ◌^◌, ◌<◌, ◌≡◌, List, get_or}
use protocol_design.Common.Rect.{RectOps, rect}
use protocol_design.Common.InputEvent.{UiMessageMouse}
use protocol_design.Plugins.Viewer.{Viewer, draw_viewer, mouse_position}

-- The window has a pixel, its coordinates are of 31 bits, and the picture has the canvas's size.
pub record IsShown (v : Viewer) : Type 0 where
  pub wide : v.display_width < 2 ^ 31
  pub high : v.display_height < 2 ^ 31
  pub picture_width : v.renderer.width ≡ v.canvas_width
  pub picture_height : v.renderer.height ≡ v.canvas_height
  pub canvas_wide : 0 < v.canvas_width
  pub canvas_high : 0 < v.canvas_height

module _ (ops : RectOps) where
  -- The point that DoMouse takes is in the picture, and the window, drawn whole, shows its pixel where the mouse
  -- is.
  pub record Addresses (v : Viewer) (buf : List ℕ) (m : UiMessageMouse) : Type 0 where
    pub shows :
        let (x, y) = mouse_position m v in
        let whole = rect 0 0 v.display_width v.display_height in
        get_or
          (draw_viewer ops buf v.display_width v.display_height whole v).0
          (m.y * v.display_width + m.x)
          0
        ≡ get_or v.renderer.pixels (y * v.renderer.width + x) 0
    pub in_width : (mouse_position m v).0 < v.renderer.width
    pub in_height : (mouse_position m v).1 < v.renderer.height
