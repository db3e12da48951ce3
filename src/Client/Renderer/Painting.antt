-- ===== src/Client/Renderer/Painting.antt =====
-- What the dirty rectangles of src/client/pixel_renderer.cpp paint.
use protocol_design.Prelude.{
  ℕ, zero, suc, ◌+◌, ◌-◌, ◌*◌, ◌≤◌, ◌<◌, ◌≡◌, inl, inr, refl, ◌∙◌, List, true, ◌&&◌, if◌then◌else◌,
  ◌==◌, ltb, leb, length, get_or, set, arith, Bool-cases, get_or-set, length-set,
}
use native.Mathlib.Nat.{mul-le-mul_right, add-mul}
use protocol_design.Client.Renderer.{copy_row, copy_rows}

pub length-copy_row :
    (n from at : ℕ) (source dst : List ℕ) → length (copy_row n from at source dst) ≡ length dst
unfolding copy_row
length-copy_row zero from at source dst = refl
length-copy_row (suc n) from at source dst =
    length-copy_row n (from + 1) (at + 1) source (set dst at (get_or source from 0))
    ∙ length-set dst at (get_or source from 0)

-- A row that fits is copied, and nothing else is changed.
pub get_or-copy_row :
    (n from at : ℕ) (source dst : List ℕ) (j : ℕ)
    → at + n ≤ length dst
    → get_or (copy_row n from at source dst) j 0
      ≡ (if leb at j && ltb j (at + n) then get_or source (from + (j - at)) 0 else get_or dst j 0)
unfolding copy_row
get_or-copy_row zero from at source dst j fits = ground arith
get_or-copy_row (suc n) from at source dst j fits =
    let first = set dst at (get_or source from 0) in
    let rest =
      get_or-copy_row n (from + 1) (at + 1) source first j
        (omega (arith, length-set dst at (get_or source from 0))) in
    let one = get_or-set dst at j (get_or source from 0) 0 (omega arith) in
    elim (Bool-cases (at == j)) [
      | inl here ↦
          let same : at ≡ j = ground (arith, here) in
          let none_off : from + (j - at) ≡ from = omega (arith, same) in
          rw (rest, one, none_off) (ground (arith, here))
      | inr other ↦
          let shift : leb (at + 1) j ≡ true → (from + 1) + (j - (at + 1)) ≡ from + (j - at) =
            λ h. ground (arith, h) in
          rw (rest, one)
            (elim (Bool-cases (leb (at + 1) j)) [
              | inl after ↦ rw (after, shift after) (ground (arith, after, other))
              | inr before ↦ rw before (ground (arith, before, other))
            ])
    ]

-- An index of one row is none of another: `y * width + x` lies in a part of row `row` only if `y` is `row`.
pub row_before : (y row width : ℕ) → y < row → y * width + width ≤ row * width
row_before y row width h =
    omega (arith, mul-le-mul_right {m = y + 1} {n = row} width (omega arith), add-mul y 1 width)

pub in_row :
    (y row x left w width : ℕ)
    → x < width
    → left + w ≤ width
    → (leb (row * width + left) (y * width + x) && ltb (y * width + x) (row * width + left + w))
      ≡ (row == y && (leb left x && ltb x (left + w)))
in_row y row x left w width hx hw = elim (Bool-cases (ltb y row)) [
  | inl above ↦ ground (arith, above, row_before y row width)
  | inr not_above ↦ elim (Bool-cases (ltb row y)) [
    | inl below ↦ ground (arith, below, row_before row y width)
    | inr not_below ↦
        let same : row ≡ y = ground (arith, not_above, not_below) in rw same (ground arith)
  ]
]

one_row :
    (row from_stride width left w : ℕ) (source dst : List ℕ) (x y : ℕ)
    → x < width
    → left + w ≤ width
    → row * width + width ≤ length dst
    → get_or
        (copy_row w (row * from_stride + left) (row * width + left) source dst)
        (y * width + x)
        0
      ≡ (if row == y && (leb left x && ltb x (left + w))
          then get_or source (y * from_stride + x) 0
          else get_or dst (y * width + x) 0)
one_row row stride width left w source dst x y hx hw room =
    rw
      (
        get_or-copy_row w (row * stride + left) (row * width + left) source dst (y * width + x)
            (omega arith),
        in_row y row x left w width hx hw,
      )
      (elim (Bool-cases (row == y && (leb left x && ltb x (left + w)))) [
        | inl inside ↦
            let same : row ≡ y = ground (arith, inside) in
            let right_of : leb left x ≡ true = ground (arith, inside) in
            let place : row * stride + left + ((y * width + x) - (row * width + left))
                ≡ y * stride + x =
              rw same (ground (arith, right_of)) in
            rw (inside, place) refl
        | inr outside ↦ rw outside refl
      ])

-- A rectangle that fits is copied to its place, and nothing else is changed.
pub get_or-copy_rows :
    (n row from_stride width left w : ℕ) (source dst : List ℕ) (x y : ℕ)
    → x < width
    → left + w ≤ width
    → (row + n) * width ≤ length dst
    → get_or (copy_rows n row from_stride width left w source dst) (y * width + x) 0 ≡ (
        if (leb row y && ltb y (row + n)) && (leb left x && ltb x (left + w))
        then get_or source (y * from_stride + x) 0
        else get_or dst (y * width + x) 0)
unfolding copy_rows
get_or-copy_rows zero row stride width left w source dst x y hx hw hn = ground arith
get_or-copy_rows (suc n) row stride width left w source dst x y hx hw hn =
    let first = copy_row w (row * stride + left) (row * width + left) source dst in
    let len = length-copy_row w (row * stride + left) (row * width + left) source dst in
    let room : row * width + width ≤ length dst =
      omega (arith, row_before row (row + suc n) width (omega arith)) in
    let shift : row + 1 + n ≡ row + suc n = omega arith in
    let enough : (row + 1 + n) * width ≤ length first = rw (len, shift) hn in
    rw
      (
        get_or-copy_rows n (row + 1) stride width left w source first x y hx hw enough,
        one_row row stride width left w source dst x y hx hw room,
      )
      (ground arith)

pub length-copy_rows :
    (n row from_stride width left w : ℕ) (source dst : List ℕ)
    → length (copy_rows n row from_stride width left w source dst) ≡ length dst
unfolding copy_rows
length-copy_rows zero row from_stride width left w source dst = refl
length-copy_rows (suc n) row from_stride width left w source dst =
    length-copy_rows n (row + 1) from_stride width left w source
      (copy_row w (row * from_stride + left) (row * width + left) source dst)
    ∙ length-copy_row w (row * from_stride + left) (row * width + left) source dst
