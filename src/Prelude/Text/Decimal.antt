-- ===== src/Prelude/Text/Decimal.antt =====
-- Decimal numbers: what is printed is read back.
use protocol_design.Prelude.Tests.{◌==◌, ltb, Bool-cases}
use protocol_design.Prelude.Int.{pos, negsuc}
use protocol_design.Prelude.Text.{
  digits, to_string, to_string_int, is_space, skip_spaces, digit_value, read_digits, read_in,
  read_prefixed, read_signed, strtoul, strtol, with_sign, number, as_unsigned, as_long,
}
use Prim.Native.Nat.{ℕ, zero, suc, ◌+◌, ◌*◌, ◌/◌, ◌%◌, ◌^◌, ◌<◌, ◌≤◌}
use mathlib.Core.Path.{◌≡◌, refl, sym, ap, ◌∙◌}
use mathlib.Core.Logic.{inl, inr}
use mathlib.Core.Bool.{Bool, true, false, ◌||◌}
use mathlib.Core.List.{List, [], ◌∷◌}
use mathlib.Core.Option.{some}
use native.Mathlib.Omega.{arith}
use native.Mathlib.Nat.{pow-suc}

read_digit :
    (acc d : ℕ) (s : List ℕ)
    → d < 10
    → read_digits 10 acc ((b'0' + d) ∷ s) ≡ read_digits 10 (acc * 10 + d) s
unfolding read_digits
read_digit acc d s h =
    let value : digit_value (b'0' + d) ≡ d = ground arith in rw value (ground arith)

read_digits-digits :
    (n v : ℕ) (out : List ℕ) → v < 10 ^ n → read_digits 10 0 (digits n v out) ≡ read_digits 10 v out
unfolding digits
read_digits-digits zero v out h = ap (λ w. read_digits 10 w out) (omega (arith, h))
read_digits-digits (suc n) v out h = elim (Bool-cases (ltb v 10)) [
  | inl one ↦
      rw one
        (read_digit 0 v out (ground (arith, one)) ∙ ap (λ w. read_digits 10 w out) (omega arith))
  | inr more ↦
      let step : 10 ^ suc n ≡ 10 ^ n * 10 = pow-suc 10 n in
      rw more (
        read_digits-digits n (v / 10) ((b'0' + v % 10) ∷ out) (omega (arith, h, step))
        ∙ read_digit (v / 10) (v % 10) out (omega arith)
        ∙ ap (λ w. read_digits 10 w out) (omega arith))
]

-- The first digit of a number that is not 0.
first_digit :
    (n v : ℕ) (out : List ℕ)
    → 0 < v
    → v < 10 ^ n
    → (d : ℕ) × (rest : List ℕ) × (digits n v out ≡ (b'0' + d) ∷ rest) × (0 < d) × (d < 10)
unfolding digits
first_digit zero v out p h = absurd (omega (arith, h))
first_digit (suc n) v out p h = elim (Bool-cases (ltb v 10)) [
  | inl one ↦ (v, out, rw one refl, p, ground (arith, one))
  | inr more ↦
      let step : 10 ^ suc n ≡ 10 ^ n * 10 = pow-suc 10 n in
      let big : 10 ≤ v = ground (arith, more) in
      let (d, rest, e, lo, hi) =
        first_digit n (v / 10) ((b'0' + v % 10) ∷ out) (omega (arith, big))
          (omega (arith, h, step)) in
      (d, rest, rw more e, lo, hi)
]

read_prefixed-decimal :
    (d : ℕ) (rest : List ℕ)
    → 0 < d
    → d < 10
    → read_prefixed ((b'0' + d) ∷ rest) ≡ some (read_digits 10 0 ((b'0' + d) ∷ rest))
unfolding read_prefixed read_in
read_prefixed-decimal d [] lo hi =
    let value : ltb (digit_value (b'0' + d)) 10 ≡ true = ground arith in rw value refl
read_prefixed-decimal d (x ∷ rest) lo hi =
    let value : ltb (digit_value (b'0' + d)) 10 ≡ true = ground arith in
    let nonzero : (b'0' + d == b'0') ≡ false = ground arith in rw (nonzero, value) refl

read_in-decimal :
    (d : ℕ) (rest : List ℕ)
    → d < 10
    → read_in 10 ((b'0' + d) ∷ rest) ≡ some (read_digits 10 0 ((b'0' + d) ∷ rest))
unfolding read_in
read_in-decimal d rest hi =
    let value : ltb (digit_value (b'0' + d)) 10 ≡ true = ground arith in rw value refl

read_digits-nil : (v : ℕ) → read_digits 10 v [] ≡ (v, [])
unfolding read_digits
read_digits-nil v = refl

-- A minus, or none, and a number that does not start with 0.
read_signed-decimal :
    (prefixed : Bool) (d : ℕ) (rest : List ℕ)
    → 0 < d
    → d < 10
    → let number = read_digits 10 0 ((b'0' + d) ∷ rest) in
      (read_signed prefixed ((b'0' + d) ∷ rest) ≡ some (false, number.0, number.1))
      × (read_signed prefixed (b'-' ∷ (b'0' + d) ∷ rest) ≡ some (true, number.0, number.1))
unfolding read_signed
read_signed-decimal true d rest lo hi =
    let plain : (b'0' + d == b'-' || b'0' + d == b'+') ≡ false = ground arith in
    let minus : (b'0' + d == b'-') ≡ false = ground arith in
    (
      rw (plain, minus) (ap (with_sign false) (read_prefixed-decimal d rest lo hi)),
      ap (with_sign true) (read_prefixed-decimal d rest lo hi),
    )
read_signed-decimal false d rest lo hi =
    let plain : (b'0' + d == b'-' || b'0' + d == b'+') ≡ false = ground arith in
    let minus : (b'0' + d == b'-') ≡ false = ground arith in
    (
      rw (plain, minus) (ap (with_sign false) (read_in-decimal d rest hi)),
      ap (with_sign true) (read_in-decimal d rest hi),
    )

skip_digit : (d : ℕ) (rest : List ℕ) → d < 10 → skip_spaces ((b'0' + d) ∷ rest) ≡ (b'0' + d) ∷ rest
unfolding skip_spaces
skip_digit d rest hi = let no_space : is_space (b'0' + d) ≡ false = ground arith in rw no_space refl

skip_minus : (s : List ℕ) → skip_spaces (b'-' ∷ s) ≡ b'-' ∷ s
unfolding skip_spaces
skip_minus s = refl

-- A number that is not 0, printed with a minus or with none.
read_printed :
    (prefixed : Bool) (v : ℕ)
    → 0 < v
    → v < 10 ^ 20
    → (read_signed prefixed (skip_spaces (to_string v)) ≡ some (false, v, []))
      × (read_signed prefixed (skip_spaces (b'-' ∷ to_string v)) ≡ some (true, v, []))
unfolding to_string
read_printed prefixed v lo hi =
    let (d, rest, e, d_lo, d_hi) = first_digit 20 v [] lo hi in
    let whole : read_digits 10 0 ((b'0' + d) ∷ rest) ≡ (v, []) =
      ap (read_digits 10 0) (sym e) ∙ read_digits-digits 20 v [] hi ∙ read_digits-nil v in
    let (plain, minus) = read_signed-decimal prefixed d rest d_lo d_hi in
    let same : to_string v ≡ (b'0' + d) ∷ rest = e in
    (
      ap (λ s. read_signed prefixed (skip_spaces s)) same
          ∙ ap (read_signed prefixed) (skip_digit d rest d_hi)
          ∙ plain
          ∙ ap (λ z. some (false, z.0, z.1)) whole,
      ap (λ s. read_signed prefixed (skip_spaces (b'-' ∷ s))) same
          ∙ ap (read_signed prefixed) (skip_minus _)
          ∙ minus
          ∙ ap (λ z. some (true, z.0, z.1)) whole,
    )

zero_printed : to_string 0 ≡ b'0' ∷ []
unfolding to_string digits
zero_printed = refl

zero_read : strtoul (b'0' ∷ []) ≡ some (0, [])
unfolding strtoul read_digits
zero_read = refl

zero_read_int : (prefixed : Bool) → strtol prefixed (b'0' ∷ []) ≡ some (pos 0, [])
unfolding strtol read_digits
zero_read_int true = refl
zero_read_int false = refl

strtoul_lem : (s : List ℕ) → strtoul s ≡ number as_unsigned (read_signed true (skip_spaces s))
unfolding strtoul
strtoul_lem s = refl

strtol_lem :
    (prefixed : Bool) (s : List ℕ)
    → strtol prefixed s ≡ number as_long (read_signed prefixed (skip_spaces s))
unfolding strtol
strtol_lem prefixed s = refl

pub strtoul-to_string : (v : ℕ) → v < 2 ^ 64 → strtoul (to_string v) ≡ some (v, [])
strtoul-to_string zero h = ap strtoul zero_printed ∙ zero_read
strtoul-to_string (suc v) h =
    strtoul_lem (to_string (suc v))
    ∙ ap (number as_unsigned) (read_printed true (suc v) (omega arith) (omega (arith, h))).0
    ∙ ap (λ (n : ℕ). some (n, [])) (ground (arith, h))

strtol-to_string :
    (prefixed : Bool) (v : ℕ) → v < 2 ^ 31 → strtol prefixed (to_string v) ≡ some (pos v, [])
strtol-to_string prefixed zero h = ap (strtol prefixed) zero_printed ∙ zero_read_int prefixed
strtol-to_string prefixed (suc v) h =
    strtol_lem prefixed (to_string (suc v))
    ∙ ap (number as_long) (read_printed prefixed (suc v) (omega arith) (omega (arith, h))).0
    ∙ ap (λ n. some (pos n, [])) (ground (arith, h))

-- An `int` that is printed comes back.
pub strtol-to_string_int :
    (prefixed : Bool) (v : ℕ)
    → v < 2 ^ 31
    → (strtol prefixed (to_string_int (pos v)) ≡ some (pos v, []))
      × (strtol prefixed (to_string_int (negsuc v)) ≡ some (negsuc v, []))
unfolding to_string_int
strtol-to_string_int prefixed v h = (
  strtol-to_string prefixed v h,
  strtol_lem prefixed (b'-' ∷ to_string (suc v))
      ∙ ap (number as_long) (read_printed prefixed (suc v) (omega arith) (omega (arith, h))).1
      ∙ ap (λ n. some (negsuc n, [])) (ground (arith, h)),
)
