-- ===== src/Plugins/Drawing/Numbers.antt =====
-- The numbers that plugins/app_2048/app_2048.cpp draws.
use protocol_design.Prelude.{
  ℕ, zero, suc, ◌+◌, ◌-◌, ◌*◌, ◌/◌, ◌^◌, ◌<◌, ◌≡◌, refl, ap, ◌∙◌, List, [], ◌∷◌, if◌then◌else◌,
  ◌==◌, length, arith, Bool-cases, inl, inr,
}
use native.Mathlib.Nat.{pow-suc}
use protocol_design.Prelude.Int.{ℤ}
use protocol_design.Plugins.Drawing.{
  digits_of, number_digits, draw_digits, draw_number, backwards, count_digits, number_width,
  glyph_w, glyph_spacing,
}

-- The number whose digits are given, the lowest first.
abbrev pub decimal : List ℕ → ℕ
decimal [] = 0
decimal (d ∷ ds) = d + 10 * decimal ds

decimal-digits_of : (n value : ℕ) → value < 10 ^ n → decimal (digits_of n value) ≡ value
unfolding digits_of
decimal-digits_of zero value h = omega arith
decimal-digits_of (suc n) value h = elim (Bool-cases (value == 0)) [
  | inl none ↦ rw none (ground (arith, none))
  | inr some ↦
      let step : 10 ^ suc n ≡ 10 ^ n * 10 = pow-suc 10 n in
      let smaller : value / 10 < 10 ^ n = omega (arith, h, step) in
      rw (some, decimal-digits_of n (value / 10) smaller) (omega arith)
]

length-digits_of : (n value : ℕ) → length (digits_of n value) ≡ count_digits n value
unfolding digits_of count_digits
length-digits_of zero value = refl
length-digits_of (suc n) value = ground (arith, length-digits_of n (value / 10))

length-backwards : (ds done : List ℕ) → length (backwards ds done) ≡ length ds + length done
length-backwards [] done = omega arith
length-backwards (d ∷ ds) done = omega (arith, length-backwards ds (d ∷ done))

-- The width that a row of `n` digits takes.
abbrev width_of : ℕ → ℕ
width_of n = n * glyph_w + (n - 1) * glyph_spacing

draw_digits-width :
    (d : ℕ) (ds : List ℕ) (stride : ℕ) (x : ℤ) (y fg w : ℕ) (buf : List ℕ)
    → (draw_digits (d ∷ ds) stride x y fg (w, buf)).0 ≡ w + width_of (length (d ∷ ds))
unfolding draw_digits
draw_digits-width d [] stride x y fg w buf = refl
draw_digits-width d (e ∷ ds) stride x y fg w buf =
    draw_digits-width e ds stride x y fg (w + glyph_w + glyph_spacing) _ ∙ omega arith

draw_all-width :
    (ds : List ℕ) (stride : ℕ) (x : ℤ) (y fg : ℕ) (buf : List ℕ)
    → (draw_digits ds stride x y fg (0, buf)).0 ≡ width_of (length ds)
unfolding draw_digits
draw_all-width [] stride x y fg buf = refl
draw_all-width (d ∷ ds) stride x y fg buf = draw_digits-width d ds stride x y fg 0 buf ∙ omega arith

decimal-number_digits : (value : ℕ) → value < 2 ^ 32 → decimal (number_digits value) ≡ value
unfolding number_digits
decimal-number_digits value h = elim (Bool-cases (value == 0)) [
  | inl none ↦ rw none (ground (arith, none))
  | inr some ↦ rw some (decimal-digits_of 10 value (omega (arith, h)))
]

length-number_digits :
    (value : ℕ) → length (number_digits value) ≡ (if value == 0 then 1 else count_digits 10 value)
unfolding number_digits
length-number_digits value = elim (Bool-cases (value == 0)) [
  | inl none ↦ rw none refl
  | inr some ↦ rw some (length-digits_of 10 value)
]

-- The digits of a 32-bit number are those of its decimal notation, and `number_width` is the width that
-- `draw_number` takes for them.
pub draw_number-width :
    (stride : ℕ) (x : ℤ) (y value fg : ℕ) (buf : List ℕ)
    → value < 2 ^ 32
    → (decimal (number_digits value) ≡ value)
      × ((draw_number stride x y value fg buf).0 ≡ number_width value)
unfolding draw_number number_width
draw_number-width stride x y value fg buf h =
    let digits = number_digits value in
    let count : length (backwards digits []) ≡ (if value == 0 then 1 else count_digits 10 value) =
      length-backwards digits [] ∙ omega (arith, length-number_digits value) in
    (
      decimal-number_digits value h,
      draw_all-width (backwards digits []) stride x y fg buf ∙ ap width_of count,
    )
