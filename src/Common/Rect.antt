-- ===== src/Common/Rect.antt =====
-- GKC::UiRect, which the sources build with Set and read with L, T, R and B. What its methods
-- IsEmpty, Width and Height answer is a parameter, `RectOps`, with what the sources rely on as its laws.
use protocol_design.Prelude.{ℕ, ◌-◌, ◌≡◌, Bool, not, ◌&&◌, ltb}
use protocol_design.Prelude.Int.{ℤ, pos, less}

pub record UiRect : Type 0 where
  pub l : ℤ
  pub t : ℤ
  pub r : ℤ
  pub b : ℤ

pub record RectOps : Type 0 where
  pub is_empty : UiRect → Bool
  pub width : UiRect → ℤ
  pub height : UiRect → ℤ

-- A rectangle is empty unless it has a pixel, and its sides are the differences of its corners.
pub record IsRectOps (ops : RectOps) : Type 0 where
  pub empty_ok : (q : UiRect) → ops.is_empty q ≡ not (less q.l q.r && less q.t q.b)
  pub width_ok :
      (l r : ℕ) (t b : ℤ)
      → ltb r l ≡ Bool.false
      → ops.width (record { l = pos l; t = t; r = pos r; b = b }) ≡ pos (r - l)
  pub height_ok :
      (t b : ℕ) (l r : ℤ)
      → ltb b t ≡ Bool.false
      → ops.height (record { l = l; t = pos t; r = r; b = pos b }) ≡ pos (b - t)

abbrev pub rect : ℕ → ℕ → ℕ → ℕ → UiRect
rect left top right bottom = record { l = pos left; t = pos top; r = pos right; b = pos bottom }
