-- ===== src/Prelude/Bits.antt =====
-- `|` of disjoint fields and `&` with a shifted mask, as arithmetic. The native operations stand
-- for a recursion on binary digits; the first part drops its fuel.
use Prim.Native.Nat.{
  ℕ, zero, suc, ◌+◌, ◌*◌, ◌/◌, ◌%◌, ◌^◌, ◌≤◌, ◌<◌, min, max, bit_and, bit_or, digits, bitwise,
  bit_and-bitwise, bit_or-bitwise,
}
use mathlib.Core.Path.{◌≡◌, refl, ap, ap₂, ◌∙◌}
use native.Mathlib.Nat.{pow-suc}
use native.Mathlib.Omega.{arith}

module _ (z : ℕ → ℕ) (f : ℕ → ℕ → ℕ) where
  -- More fuel than digits changes nothing.
  enough_digits : (j k a b : ℕ) → a ≤ j → a ≤ k → digits z f j a b ≡ digits z f k a b
  enough_digits zero zero a b p q = refl
  enough_digits zero (suc k) zero b p q = refl
  enough_digits (suc j) zero zero b p q = refl
  enough_digits (suc j) (suc k) zero b p q = refl
  enough_digits zero (suc k) (suc a) b p q = absurd (omega arith)
  enough_digits (suc j) zero (suc a) b p q = absurd (omega arith)
  enough_digits (suc j) (suc k) (suc a) b p q =
      rw (enough_digits j k (suc a / 2) (b / 2) (omega arith) (omega arith))

  digit_step :
      (a b : ℕ)
      → bitwise z f (suc a) b ≡ bitwise z f (suc a / 2) (b / 2) * 2 + f (suc a % 2) (b % 2)
  digit_step a b =
      omega (arith, enough_digits a (suc a / 2) (suc a / 2) (b / 2) (omega arith) (omega arith))

or_step : (a b : ℕ) → bit_or a b ≡ bit_or (a / 2) (b / 2) * 2 + max (a % 2) (b % 2)
or_step zero b = simp bit_or-bitwise (omega arith)
or_step (suc a) b = simp bit_or-bitwise (digit_step (λ y. y) max a b)

and_step : (a b : ℕ) → bit_and a b ≡ bit_and (a / 2) (b / 2) * 2 + min (a % 2) (b % 2)
and_step zero b = simp bit_and-bitwise (omega arith)
and_step (suc a) b = simp bit_and-bitwise (digit_step (λ y. 0) min a b)

bit_or-zero_below : (n a : ℕ) → a ≤ n → bit_or a 0 ≡ a
bit_or-zero_below n zero h = refl
bit_or-zero_below zero (suc a) h = absurd (omega arith)
bit_or-zero_below (suc n) (suc a) h =
    omega (arith, or_step (suc a) 0, bit_or-zero_below n (suc a / 2) (omega arith))

bit_and-zero_below : (n a : ℕ) → a ≤ n → bit_and a 0 ≡ 0
bit_and-zero_below n zero h = refl
bit_and-zero_below zero (suc a) h = absurd (omega arith)
bit_and-zero_below (suc n) (suc a) h =
    omega (arith, and_step (suc a) 0, bit_and-zero_below n (suc a / 2) (omega arith))

double : (q k : ℕ) → q * 2 ^ suc k ≡ 2 * (q * 2 ^ k)
double q k = omega (arith, ap (λ (t : ℕ). q * t) (pow-suc 2 k))

-- `(q << k) | r` is a sum when `r` has at most `k` bits.
pub or_disjoint : (k q r : ℕ) → r < 2 ^ k → bit_or (q * 2 ^ k) r ≡ q * 2 ^ k + r
or_disjoint zero q r h = ground (arith, bit_or-zero_below q q (omega arith))
or_disjoint (suc k) q r h =
    ground (arith, or_step (q * 2 ^ suc k) r, double q k, pow-suc 2 k, or_disjoint k q (r / 2))

-- The same with the shifted field on the right.
pub or_disjoint_right : (k q r : ℕ) → r < 2 ^ k → bit_or r (q * 2 ^ k) ≡ q * 2 ^ k + r
or_disjoint_right zero q zero h = omega (arith, bit_or-bitwise 0 (q * 1))
or_disjoint_right zero q (suc r) h = absurd (omega arith)
or_disjoint_right (suc k) q r h =
    ground
      (arith, or_step r (q * 2 ^ suc k), double q k, pow-suc 2 k, or_disjoint_right k q (r / 2))

-- A mask whose low `k` bits are clear sees the bits above them only.
pub and_shifted :
    (k hi lo m : ℕ) → lo < 2 ^ k → bit_and (hi * 2 ^ k + lo) (m * 2 ^ k) ≡ bit_and hi m * 2 ^ k
and_shifted zero hi lo m h =
    let e : hi * 2 ^ 0 + lo ≡ hi = omega arith in
    let f : m * 2 ^ 0 ≡ m = omega arith in rw (e, f) (omega arith)
and_shifted (suc k) hi lo m h = ground (
  arith,
  and_step (hi * 2 ^ suc k + lo) (m * 2 ^ suc k),
  double hi k,
  double m k,
  double (bit_and hi m) k,
  pow-suc 2 k,
  and_shifted k hi (lo / 2) m,
)

and_odd_mask : (a m : ℕ) → bit_and a (m * 2 + 1) ≡ bit_and (a / 2) m * 2 + a % 2
and_odd_mask a m =
    and_step a (m * 2 + 1)
    ∙ ap₂ ◌+◌ (ap (λ (t : ℕ). bit_and (a / 2) t * 2) (omega arith)) (omega arith)

and_four_ones : (a m : ℕ) → bit_and a (m * 16 + 15) ≡ bit_and (a / 16) m * 16 + a % 16
and_four_ones a m = ground (
  arith,
  and_odd_mask a (m * 8 + 7),
  and_odd_mask (a / 2) (m * 4 + 3),
  and_odd_mask (a / 2 / 2) (m * 2 + 1),
  and_odd_mask (a / 2 / 2 / 2) m,
)

-- `x & 0xFF` is the lowest byte.
pub and_byte : (a : ℕ) → bit_and a 255 ≡ a % 256
and_byte a = omega (
  arith,
  and_four_ones a 15,
  and_four_ones (a / 16) 0,
  bit_and-zero_below (a / 16 / 16) (a / 16 / 16) (omega arith),
)
