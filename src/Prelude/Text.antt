-- ===== src/Prelude/Text.antt =====
-- Text and numbers as the C and C++ libraries write and read them. A text is the list of its bytes, and
-- ends where the list ends.
pub mod Decimal
use Prim.Native.Char.{code}
use Prim.Native.String.{String}
use Prim.Native.Nat.{ℕ, zero, suc, ◌+◌, ◌-◌, ◌*◌, ◌/◌, ◌%◌, ◌^◌}
use mathlib.Core.Bool.{Bool, true, false, ◌&&◌, ◌||◌, not}
use mathlib.Core.List.{List, [], ◌∷◌}
use mathlib.Core.Option.{Option, none, some}
use protocol_design.Prelude.Tests.{◌==◌, ltb, leb, if◌then◌else◌}
use protocol_design.Prelude.Int.{ℤ, pos, negsuc, of_u32}

-- The bytes of a text in ASCII.
abbrev pub codes : String → List ℕ
codes String.[] = []
codes (String.◌∷◌ c s) = code c ∷ codes s

-- The rest of a text that starts with the prefix.
abbrev pub strip : List ℕ → List ℕ → Option (List ℕ)
strip [] s = some s
strip (c ∷ prefix) [] = none
strip (c ∷ prefix) (d ∷ s) = if c == d then strip prefix s else none

-- What a pointer to the bytes reads: all before the first 0.
unfoldable pub c_str : List ℕ → List ℕ
c_str [] = []
c_str (c ∷ s) = let rest = c_str s in if c == 0 then [] else c ∷ rest

-- std::to_string of a number of at most twenty digits, which is what 64 bits hold.
unfoldable pub digits : ℕ → ℕ → List ℕ → List ℕ
digits zero v out = out
digits (suc n) v out =
    let rest = digits n (v / 10) ((b'0' + v % 10) ∷ out) in
    if ltb v 10 then (b'0' + v) ∷ out else rest

unfoldable pub to_string : ℕ → List ℕ
to_string v = digits 20 v []

unfoldable pub to_string_int : ℤ → List ℕ
to_string_int (pos n) = to_string n
to_string_int (negsuc n) = b'-' ∷ to_string (suc n)

abbrev pub is_space : ℕ → Bool
is_space c = c == 32 || leb 9 c && leb c 13

unfoldable pub skip_spaces : List ℕ → List ℕ
skip_spaces [] = []
skip_spaces (c ∷ s) = let rest = skip_spaces s in if is_space c then rest else c ∷ s

-- The value of a digit in bases up to 36; 99 is none.
abbrev pub digit_value : ℕ → ℕ
digit_value c =
    if leb b'0' c && leb c b'9'
    then c - b'0'
    else if leb b'a' c && leb c b'z'
    then c - b'a' + 10
    else if leb b'A' c && leb c b'Z'
    then c - b'A' + 10
    else 99

-- The digits at the front, after `acc`, and what comes behind them.
unfoldable pub read_digits : ℕ → ℕ → List ℕ → ℕ × List ℕ
read_digits base acc [] = (acc, [])
read_digits base acc (c ∷ s) =
    let rest = read_digits base (acc * base + digit_value c) s in
    if ltb (digit_value c) base then rest else (acc, c ∷ s)

-- A number in the given base, unless there is no digit.
unfoldable pub read_in : ℕ → List ℕ → Option (ℕ × List ℕ)
unfolding read_digits
read_in base [] = none
read_in base (c ∷ s) = if ltb (digit_value c) base then some (read_digits base 0 (c ∷ s)) else none

-- `0x` counts as a prefix only before a digit: otherwise the 0 is the number.
abbrev read_hex : List ℕ → List ℕ → Option (ℕ × List ℕ)
read_hex s from_x = elim (read_in 16 s) [ none ↦ some (0, from_x) | some found ↦ some found ]

unfoldable pub read_prefixed : List ℕ → Option (ℕ × List ℕ)
unfolding read_in
read_prefixed [] = none
read_prefixed (c ∷ []) = read_in 10 (c ∷ [])
read_prefixed (c ∷ x ∷ s) =
    if not (c == b'0')
    then read_in 10 (c ∷ x ∷ s)
    else if x == b'x' || x == b'X'
    then read_hex s (x ∷ s)
    else read_in 8 (c ∷ x ∷ s)

abbrev pub with_sign : Bool → Option (ℕ × List ℕ) → Option (Bool × ℕ × List ℕ)
with_sign minus none = none
with_sign minus (some (v, end)) = some (minus, v, end)

-- What strtoul and strtol read: whether there is a minus, the number, and where they end.
unfoldable pub read_signed : Bool → List ℕ → Option (Bool × ℕ × List ℕ)
unfolding read_prefixed read_in
read_signed prefixed [] = none
read_signed prefixed (c ∷ s) =
    let number = if c == b'-' || c == b'+' then s else c ∷ s in
    with_sign (c == b'-') (if prefixed then read_prefixed number else read_in 10 number)

abbrev pub as_unsigned : Bool → ℕ → ℕ
as_unsigned minus v =
    if leb (2 ^ 64) v then 2 ^ 64 - 1 else if minus then (2 ^ 64 - v) % 2 ^ 64 else v

-- A `long` of 64 bits is cut off at its ends.
abbrev pub as_long : Bool → ℕ → ℤ
as_long minus zero = pos 0
as_long true (suc v) = negsuc (if ltb v (2 ^ 63) then v else 2 ^ 63 - 1)
as_long false (suc v) = pos (if ltb v (2 ^ 63 - 1) then suc v else 2 ^ 63 - 1)

abbrev pub number {ℓ} :
    {A : Type ℓ} → (Bool → ℕ → A) → Option (Bool × ℕ × List ℕ) → Option (A × List ℕ)
number f none = none
number f (some (minus, v, end)) = some (f minus v, end)

-- strtoul with base 0, on 64 bits. `none` is a text without a number.
unfoldable pub strtoul : List ℕ → Option (ℕ × List ℕ)
unfolding read_signed skip_spaces
strtoul s = number as_unsigned (read_signed true (skip_spaces s))

-- strtol with base 10, or 0 if `prefixed`.
unfoldable pub strtol : Bool → List ℕ → Option (ℤ × List ℕ)
unfolding read_signed skip_spaces
strtol prefixed s = number as_long (read_signed prefixed (skip_spaces s))

-- static_cast<int> of a `long`.
abbrev pub int_of_long : ℤ → ℤ
int_of_long (pos n) = of_u32 (n % 2 ^ 32)
int_of_long (negsuc n) = of_u32 (2 ^ 32 - 1 - n % 2 ^ 32)
