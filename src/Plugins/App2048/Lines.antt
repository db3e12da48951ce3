-- ===== src/Plugins/App2048/Lines.antt =====
-- What `compress_line` in plugins/app_2048/app_2048_logic.cpp does to a line.
use protocol_design.Prelude.{
  if◌then◌else◌, ℕ, zero, suc, ◌+◌, ◌-◌, ◌^◌, ◌<◌, ◌≤◌, ◌≡◌, refl, List, [], ◌∷◌, ◌++◌, Bool, not,
  ◌&&◌, ◌||◌, ◌==◌, length, replicate, arith, Bool-cases, inl, inr, length-append, length-replicate,
}
use protocol_design.Plugins.App2048.{pack, merge, compress_line, same_line, board_size}

-- What the tiles weigh together.
abbrev pub total : (ℕ → ℕ) → List ℕ → ℕ
total weight [] = 0
total weight (v ∷ line) = weight v + total weight line

abbrev pub sum : List ℕ → ℕ
sum line = total (λ v. v) line

-- The number of empty cells.
abbrev pub zeros : List ℕ → ℕ
zeros line = total (λ v. if v == 0 then 1 else 0) line

pub total-append :
    (weight : ℕ → ℕ) (xs ys : List ℕ) → total weight (xs ++ ys) ≡ total weight xs + total weight ys
total-append weight [] ys = omega arith
total-append weight (x ∷ xs) ys = omega (arith, total-append weight xs ys)

sum-zeros : (n : ℕ) → sum (replicate n 0) ≡ 0
sum-zeros zero = refl
sum-zeros (suc n) = omega (arith, sum-zeros n)

sum-pack : (line : List ℕ) → sum (pack line) ≡ sum line
unfolding pack
sum-pack [] = refl
sum-pack (v ∷ line) = ground (arith, sum-pack line)

sum-merge : (line : List ℕ) → sum line < 2 ^ 32 → sum (merge line).tiles ≡ sum line
unfolding merge
sum-merge [] h = refl
sum-merge (a ∷ []) h = refl
sum-merge (a ∷ b ∷ rest) h = elim (Bool-cases (a == b)) [
  | inl same ↦ rw same (ground (arith, same, sum-merge rest (omega arith)))
  | inr other ↦ rw other (omega (arith, sum-merge (b ∷ rest) (omega arith)))
]

pub length-pack : (line : List ℕ) → length (pack line) ≤ length line
unfolding pack
length-pack [] = omega arith
length-pack (v ∷ line) = ground (arith, length-pack line)

pub length-merge : (line : List ℕ) → length (merge line).tiles ≤ length line
unfolding merge
length-merge [] = omega arith
length-merge (a ∷ []) = omega arith
length-merge (a ∷ b ∷ rest) = elim (Bool-cases (a == b)) [
  | inl same ↦ rw same (omega (arith, length-merge rest))
  | inr other ↦ rw other (omega (arith, length-merge (b ∷ rest)))
]

-- A line of four keeps its length.
pub length-compress_line : (line : List ℕ) → length line ≡ 4 → length (compress_line line).tiles ≡ 4
unfolding compress_line
length-compress_line line four =
    let m = merge (pack line) in
    let pad = board_size - length m.tiles in
    omega (
      arith,
      length-append m.tiles (replicate pad 0),
      length-replicate {A = ℕ} pad 0,
      length-merge (pack line),
      length-pack line,
      four,
    )

-- A line keeps its sum, if that fits 32 bits.
pub compress_line-sum :
    (line : List ℕ) → sum line < 2 ^ 32 → sum (compress_line line).tiles ≡ sum line
unfolding compress_line
compress_line-sum line fits =
    let m = merge (pack line) in
    let pad = board_size - length m.tiles in
    omega (
      arith,
      total-append (λ v. v) m.tiles (replicate pad 0),
      sum-zeros pad,
      sum-merge (pack line) (omega (arith, sum-pack line)),
      sum-pack line,
    )

-- The line has a gap, or two equal tiles side by side.
abbrev pub can_compress : ℕ → ℕ → ℕ → ℕ → Bool
can_compress a b c d =
    a == 0 && not (b == 0 && c == 0 && d == 0)
    || b == 0 && not (c == 0 && d == 0)
    || c == 0 && not (d == 0)
    || not (a == 0) && a == b
    || not (b == 0) && b == c
    || not (c == 0) && c == d

-- A line of tiles below 2 ^ 31 is changed exactly when it has a gap before a tile, or two equal tiles
-- side by side.
pub compress_line-changes :
    (a b c d : ℕ)
    → a < 2 ^ 31
    → b < 2 ^ 31
    → c < 2 ^ 31
    → d < 2 ^ 31
    → not (same_line (compress_line (a ∷ b ∷ c ∷ d ∷ [])).tiles (a ∷ b ∷ c ∷ d ∷ []))
      ≡ can_compress a b c d
unfolding compress_line merge pack
compress_line-changes a b c d ha hb hc hd = ground arith
