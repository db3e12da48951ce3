-- ===== src/Client/Renderer/Scaling.antt =====
-- What `blit_scaled_to_fit` in src/client/pixel_renderer.cpp shows in a window.
use protocol_design.Prelude.{
  ℕ, zero, suc, ◌+◌, ◌-◌, ◌*◌, ◌/◌, ◌≤◌, ◌<◌, ◌≡◌, inl, inr, refl, ap, ◌∙◌, List, false, ◌&&◌, ◌||◌,
  if◌then◌else◌, ◌==◌, ltb, leb, length, get_or, set, arith, Bool-cases, get_or-set, length-set,
}
use Prim.Native.Nat.{min}
use native.Mathlib.Nat.{
  div-lt_iff_lt-mul, min-eq_right, mul-lt-mul_of_pos_right, zero-add, mul_comm,
}
use protocol_design.Common.Rect.{RectOps, IsRectOps, rect}
use protocol_design.Client.Renderer.{PixelRenderer, scale_row, scale_rows, blit_scaled_to_fit}
use protocol_design.Client.Renderer.Painting.{in_row, row_before}

module _ (p : PixelRenderer) (width : ℕ) where
  -- The pixel of the picture's row that column `x` of the window shows.
  abbrev pub shade : ℕ → ℕ → ℕ
  shade src_y x = get_or p.pixels (src_y * p.width + min (p.width - 1) (x * p.width / width)) 0

  length-scale_row :
      (n x y src_y : ℕ) (dst : List ℕ) → length (scale_row n x y width src_y p dst) ≡ length dst
  unfolding scale_row
  length-scale_row zero x y src_y dst = refl
  length-scale_row (suc n) x y src_y dst =
      length-scale_row n (x + 1) y src_y (set dst (y * width + x) (shade src_y x))
      ∙ length-set dst (y * width + x) (shade src_y x)

  get_or-scale_row :
      (n x y src_y : ℕ) (dst : List ℕ) (j : ℕ)
      → y * width + x + n ≤ length dst
      → get_or (scale_row n x y width src_y p dst) j 0 ≡ (
          if leb (y * width + x) j && ltb j (y * width + x + n)
          then shade src_y (j - y * width)
          else get_or dst j 0)
  unfolding scale_row
  get_or-scale_row zero x y src_y dst j fits = ground arith
  get_or-scale_row (suc n) x y src_y dst j fits =
      let at = y * width + x in
      let first = set dst at (shade src_y x) in
      let next : y * width + (x + 1) ≡ at + 1 = omega arith in
      let rest =
        get_or-scale_row n (x + 1) y src_y first j
          (omega (arith, length-set dst at (shade src_y x))) in
      let one = get_or-set dst at j (shade src_y x) 0 (omega arith) in
      elim (Bool-cases (at == j)) [
        | inl here ↦
            let same : at ≡ j = ground (arith, here) in
            let column : j - y * width ≡ x = omega (arith, same) in
            rw (rest, one, column, next) (ground (arith, here))
        | inr other ↦ rw (rest, one, next) (ground (arith, other))
      ]

  one_row :
      (row src_y left w : ℕ) (dst : List ℕ) (x y : ℕ)
      → x < width
      → left + w ≤ width
      → row * width + width ≤ length dst
      → get_or (scale_row w left row width src_y p dst) (y * width + x) 0 ≡ (
          if row == y && (leb left x && ltb x (left + w))
          then shade src_y x
          else get_or dst (y * width + x) 0)
  one_row row src_y left w dst x y hx hw room =
      rw
        (
          get_or-scale_row w left row src_y dst (y * width + x) (omega arith),
          in_row y row x left w width hx hw,
        )
        (elim (Bool-cases (row == y && (leb left x && ltb x (left + w)))) [
          | inl inside ↦
              let same : row ≡ y = ground (arith, inside) in
              let column : (y * width + x) - row * width ≡ x = rw same (omega arith) in
              rw (inside, column) refl
          | inr outside ↦ rw outside refl
        ])

  get_or-scale_rows :
      (n row height left w : ℕ) (dst : List ℕ) (x y : ℕ)
      → x < width
      → left + w ≤ width
      → (row + n) * width ≤ length dst
      → get_or (scale_rows n row left w width height p dst) (y * width + x) 0 ≡ (
          if (leb row y && ltb y (row + n)) && (leb left x && ltb x (left + w))
          then shade (min (p.height - 1) (y * p.height / height)) x
          else get_or dst (y * width + x) 0)
  unfolding scale_rows
  get_or-scale_rows zero row height left w dst x y hx hw hn = ground arith
  get_or-scale_rows (suc n) row height left w dst x y hx hw hn =
      let src_y = min (p.height - 1) (row * p.height / height) in
      let first = scale_row w left row width src_y p dst in
      let len = length-scale_row w left row src_y dst in
      let room : row * width + width ≤ length dst =
        omega (arith, row_before row (row + suc n) width (omega arith)) in
      let shift : row + 1 + n ≡ row + suc n = omega arith in
      let enough : (row + 1 + n) * width ≤ length first = rw (len, shift) hn in
      rw
        (
          get_or-scale_rows n (row + 1) height left w first x y hx hw enough,
          one_row row src_y left w dst x y hx hw room,
        )
        (elim (Bool-cases (row == y)) [
          | inl here ↦
              let same : row ≡ y = ground (arith, here) in
              let shown : shade src_y x ≡ shade (min (p.height - 1) (y * p.height / height)) x =
                ap (λ r. shade (min (p.height - 1) (r * p.height / height)) x) same in
              ground (arith, here, shown)
          | inr other ↦ ground (arith, other)
        ])

-- A column of the window shows one of the picture.
pub div-lt : (x width picture : ℕ) → x < width → 0 < picture → x * picture / width < picture
div-lt x width picture hx hp =
    let scaled : x * picture < picture * width =
      rw (mul_comm picture width) (mul-lt-mul_of_pos_right hx hp) in
    let positive : 0 < width = omega (arith, hx) in (div-lt_iff_lt-mul positive).1 scaled

in_picture :
    (x width picture : ℕ)
    → x < width
    → 0 < picture
    → min (picture - 1) (x * picture / width) ≡ x * picture / width
in_picture x width picture hx hp = min-eq_right (omega (arith, div-lt x width picture hx hp))

-- A window of any size shows all of the picture: the pixel at (x, y) is the one at (x, y) in
-- proportion.
pub get_or-blit_scaled_to_fit :
    (ops : RectOps) (laws : IsRectOps ops) (p : PixelRenderer) (dst : List ℕ) (width height x y : ℕ)
    → x < width
    → y < height
    → height * width ≤ length dst
    → 0 < p.width
    → 0 < p.height
    → get_or (blit_scaled_to_fit ops dst width height (rect 0 0 width height) p) (y * width + x) 0
      ≡ get_or p.pixels (y * p.height / height * p.width + x * p.width / width) 0
unfolding blit_scaled_to_fit
get_or-blit_scaled_to_fit ops laws p dst width height x y hx hy room hw hh =
    let has_pixels : ops.is_empty (rect 0 0 width height) ≡ false =
      laws.empty_ok (rect 0 0 width height) ∙ ground arith in
    let no_width : ltb width width ≡ false = ground arith in
    let no_height : ltb height height ≡ false = ground arith in
    let drawn : (width == 0 || height == 0) ≡ false = ground arith in
    let all_columns : width - 0 ≡ width = omega arith in
    let all_rows : height - 0 ≡ height = omega arith in
    let column : min (p.width - 1) (x * p.width / width) ≡ x * p.width / width =
      in_picture x width p.width hx hw in
    let row : min (p.height - 1) (y * p.height / height) ≡ y * p.height / height =
      in_picture y height p.height hy hh in
    rw (no_width, no_height, drawn, has_pixels, all_columns, all_rows)
      (rw
        (
          get_or-scale_rows p width height 0 height 0 width dst x y hx (omega arith)
              (rw (zero-add height) room),
          row,
          column,
        )
        (ground arith))
