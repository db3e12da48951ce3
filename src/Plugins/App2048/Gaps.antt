-- ===== src/Plugins/App2048/Gaps.antt =====
-- The empty cells of the board in plugins/app_2048/app_2048_logic.cpp: a move that changes the board leaves one.
use protocol_design.Prelude.{
  ℕ, zero, suc, ◌+◌, ◌-◌, ◌<◌, ◌≤◌, ◌≡◌, ◌⊎◌, inl, inr, refl, sym, ap, subst, ◌∙◌, List, [], ◌∷◌,
  ◌++◌, append-nil, true, false, not, if◌then◌else◌, ◌==◌, length, replicate, arith, Bool-cases,
}
use protocol_design.Plugins.App2048.{
  Direction, Progress, pack, merge, compress_line, same_line, move_line, move_lines, read_line,
  fill_indices, empties_from,
}
use protocol_design.Plugins.App2048.Lines.{zeros, total-append, length-merge, length-compress_line}
use protocol_design.Plugins.App2048.Conserved.{
  AreApart, fill_indices-AreApart, total-write_line, length-write_line,
}

zeros-pack : (line : List ℕ) → zeros line + length (pack line) ≡ length line
unfolding pack
zeros-pack [] = refl
zeros-pack (v ∷ line) = ground (arith, zeros-pack line)

zeros-replicate : (n : ℕ) → zeros (replicate n 0) ≡ n
zeros-replicate zero = refl
zeros-replicate (suc n) = omega (arith, zeros-replicate n)

pack_whole : (line : List ℕ) → zeros line ≡ 0 → pack line ≡ line
unfolding pack
pack_whole [] h = refl
pack_whole (v ∷ line) h = ground (arith, h, pack_whole line)

-- Merging that shortens nothing merges nothing.
merge_whole : (line : List ℕ) → length line ≤ length (merge line).tiles → (merge line).tiles ≡ line
unfolding merge
merge_whole [] h = refl
merge_whole (a ∷ []) h = refl
merge_whole (a ∷ b ∷ rest) h = elim (Bool-cases (a == b)) [
  | inl same ↦ absurd (ground (arith, h, same, length-merge rest))
  | inr other ↦
      let h' : length (b ∷ rest) ≤ length (merge (b ∷ rest)).tiles = ground (arith, h, other) in
      rw other (ap (λ l. a ∷ l) (merge_whole (b ∷ rest) h'))
]

length_compress :
    (line : List ℕ) → length line ≡ 4 → length (merge (pack line)).tiles + zeros line ≤ 4
length_compress line four = omega (arith, length-merge (pack line), zeros-pack line, four)

zeros-compress_line :
    (line : List ℕ)
    → zeros (compress_line line).tiles
      ≡ zeros (merge (pack line)).tiles + (4 - length (merge (pack line)).tiles)
unfolding compress_line
zeros-compress_line line =
    let m = merge (pack line) in
    total-append (λ v. if v == 0 then 1 else 0) m.tiles (replicate (4 - length m.tiles) 0)
    ∙ omega (arith, zeros-replicate (4 - length m.tiles))

compress_whole :
    (line : List ℕ)
    → length line ≡ 4
    → zeros (compress_line line).tiles ≡ 0
    → (compress_line line).tiles ≡ line
unfolding compress_line
compress_whole line four h =
    let m = merge (pack line) in
    let lengths = length_compress line four in
    let none_left = zeros-compress_line line in
    let full : length m.tiles ≡ 4 = omega (arith, h, none_left, lengths) in
    let packed = pack_whole line (omega (arith, lengths, full)) in
    let merged = merge_whole (pack line) (omega (arith, full, zeros-pack line, four)) in
    let no_pad : 4 - length m.tiles ≡ 0 = omega (arith, full) in
    ap (λ n. m.tiles ++ replicate n 0) no_pad ∙ append-nil m.tiles ∙ merged ∙ packed

same_line_self : (line : List ℕ) → same_line line line ≡ true
same_line_self [] = refl
same_line_self (v ∷ line) = ground (arith, same_line_self line)

-- A line that changes has an empty cell afterwards.
compress_gap :
    (line : List ℕ)
    → length line ≡ 4
    → not (same_line (compress_line line).tiles line) ≡ true
    → 0 < zeros (compress_line line).tiles
compress_gap line four moved = elim (Bool-cases (zeros (compress_line line).tiles == 0)) [
  | inl none_left ↦
      let whole = compress_whole line four (ground (arith, none_left)) in
      let same : same_line (compress_line line).tiles line ≡ true =
        ap (λ l. same_line l line) whole ∙ same_line_self line in
      absurd (ground (arith, moved, same))
  | inr some_left ↦ ground (arith, some_left)
]

record IsGapped (p : Progress) : Type 0 where
  sixteen : length p.tiles ≡ 16
  gap : (p.changed ≡ false) ⊎ (0 < zeros p.tiles)

abbrev is_gap : ℕ → ℕ
is_gap v = if v == 0 then 1 else 0

-- A line has no more empty cells than the board.
line_gaps :
    (d : Direction) (n : ℕ) (tiles : List ℕ)
    → AreApart (length tiles) (fill_indices d n)
    → zeros (read_line tiles (fill_indices d n)) ≤ zeros tiles
line_gaps d n tiles apart =
    omega (arith, total-write_line is_gap (fill_indices d n) (1 ∷ 1 ∷ 1 ∷ 1 ∷ []) tiles apart refl)

move_line-IsGapped :
    (d : Direction) (n : ℕ) (p : Progress) → n < 4 → IsGapped p → IsGapped (move_line d n p)
unfolding move_line
move_line-IsGapped d n p l4 v =
    let indices = fill_indices d n in
    let before = read_line p.tiles indices in
    let after = (compress_line before).tiles in
    let apart = subst (λ m. AreApart m indices) (sym v.sixteen) (fill_indices-AreApart d n l4) in
    elim (Bool-cases (not (same_line after before))) [
      | inl moved ↦ record {
        sixteen = rw moved (length-write_line indices after p.tiles ∙ v.sixteen);
        gap = rw moved (
            inr (
              omega (
                arith,
                total-write_line is_gap indices after p.tiles apart
                    (length-compress_line before refl),
                compress_gap before refl moved,
                line_gaps d n p.tiles apart,
              )));
      }
      | inr still ↦ record {
        sixteen = rw still v.sixteen;
        gap = rw still (elim v.gap [ inl h ↦ inl (rw h refl) | inr h ↦ inr h ]);
      }
    ]

-- If the loop of `move` changes a board of 16 tiles, it leaves an empty cell.
pub move_lines-gap :
    (d : Direction) (p : Progress)
    → length p.tiles ≡ 16
    → p.changed ≡ false
    → ((move_lines d p).changed ≡ false) ⊎ (0 < zeros (move_lines d p).tiles)
move_lines-gap d p sixteen fresh =
    let step = λ (n : ℕ) (q : Progress) (l4 : n < 4). move_line-IsGapped d n q l4 in
    let start : IsGapped p = record { sixteen = sixteen; gap = inl fresh } in
    let done =
      step 3 _ (omega arith)
        (step 2 _ (omega arith) (step 1 _ (omega arith) (step 0 p (omega arith) start))) in
    done.gap

-- There is an empty cell for each zero.
pub length-empties_from : (k : ℕ) (tiles : List ℕ) → length (empties_from k tiles) ≡ zeros tiles
unfolding empties_from
length-empties_from k [] = refl
length-empties_from k (v ∷ tiles) = ground (arith, length-empties_from (k + 1) tiles)
