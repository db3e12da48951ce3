-- ===== src/Plugins/App2048/Conserved.antt =====
-- What the loop of `move` in plugins/app_2048/app_2048_logic.cpp does to the sum of the board.
use protocol_design.Prelude.{
  ℕ, zero, suc, ◌+◌, ◌^◌, ◌<◌, ◌≤◌, ◌≡◌, ◌≢◌, refl, sym, List, [], ◌∷◌, not, length, subst, ap, ◌∙◌,
  get_or, set, arith, All, Bool-cases, inl, inr, length-set, get_or-set,
}
use protocol_design.Plugins.App2048.{
  Direction, left, right, up, down, Progress, move_line, move_lines, compress_line, same_line,
  read_line, write_line, fill_indices,
}
use protocol_design.Plugins.App2048.Lines.{total, sum, length-compress_line, compress_line-sum}

pub total-set :
    (weight : ℕ → ℕ) (tiles : List ℕ) (i v : ℕ)
    → i < length tiles
    → total weight (set tiles i v) + weight (get_or tiles i 0) ≡ total weight tiles + weight v
total-set weight [] i v h = absurd (omega arith)
total-set weight (t ∷ tiles) zero v h = omega arith
total-set weight (t ∷ tiles) (suc i) v h =
    omega (arith, total-set weight tiles i v (omega (arith, h)))

-- The indices are on the board, and no two are the same.
abbrev pub AreApart : ℕ → List ℕ → Type 0
AreApart n [] = Unit
AreApart n (i ∷ indices) = (i < n) × (All (λ j. i ≢ j) indices × AreApart n indices)

pub fill_indices-AreApart : (d : Direction) (n : ℕ) → n < 4 → AreApart 16 (fill_indices d n)
fill_indices-AreApart left n h = omega arith
fill_indices-AreApart right n h = omega arith
fill_indices-AreApart up n h = omega arith
fill_indices-AreApart down n h = omega arith

read_line-set :
    (tiles indices : List ℕ) (i v : ℕ)
    → i < length tiles
    → All (λ j. i ≢ j) indices
    → read_line (set tiles i v) indices ≡ read_line tiles indices
read_line-set tiles [] i v h apart = refl
read_line-set tiles (j ∷ indices) i v h apart =
    rw (get_or-set tiles i j v 0 h, read_line-set tiles indices i v h apart.1)
      (ground (arith, apart.0))

pub length-write_line :
    (indices values tiles : List ℕ) → length (write_line indices values tiles) ≡ length tiles
unfolding write_line
length-write_line [] values tiles = refl
length-write_line (i ∷ indices) [] tiles = refl
length-write_line (i ∷ indices) (v ∷ values) tiles =
    rw (length-write_line indices values (set tiles i v)) (length-set tiles i v)

pub total-write_line :
    (weight : ℕ → ℕ) (indices values tiles : List ℕ)
    → AreApart (length tiles) indices
    → length values ≡ length indices
    → total weight (write_line indices values tiles) + total weight (read_line tiles indices)
      ≡ total weight tiles + total weight values
unfolding write_line
total-write_line weight [] [] tiles apart h = refl
total-write_line weight [] (v ∷ values) tiles apart h = absurd (omega (arith, h))
total-write_line weight (i ∷ indices) [] tiles apart h = absurd (omega (arith, h))
total-write_line weight (i ∷ indices) (v ∷ values) tiles (inside, (others, apart)) h = omega (
  arith,
  total-write_line weight indices values (set tiles i v)
      (subst (λ n. AreApart n indices) (sym (length-set tiles i v)) apart) (omega (arith, h)),
  ap (total weight) (read_line-set tiles indices i v inside others),
  total-set weight tiles i v inside,
)

record IsKept (total : ℕ) (p : Progress) : Type 0 where
  sixteen : length p.tiles ≡ 16
  same_sum : sum p.tiles ≡ total

line_fits :
    (d : Direction) (n : ℕ) (tiles : List ℕ)
    → n < 4
    → length tiles ≡ 16
    → sum (read_line tiles (fill_indices d n)) ≤ sum tiles
line_fits d n tiles l4 e = omega (
  arith,
  total-write_line (λ v. v) (fill_indices d n) (0 ∷ 0 ∷ 0 ∷ 0 ∷ []) tiles
      (subst (λ m. AreApart m (fill_indices d n)) (sym e) (fill_indices-AreApart d n l4)) refl,
)

move_line-IsKept :
    (total : ℕ) (d : Direction) (n : ℕ) (p : Progress)
    → total < 2 ^ 32
    → n < 4
    → IsKept total p
    → IsKept total (move_line d n p)
unfolding move_line
move_line-IsKept total d n p fits l4 kept =
    let indices = fill_indices d n in
    let before = read_line p.tiles indices in
    let after = (compress_line before).tiles in
    let apart = subst (λ m. AreApart m indices) (sym kept.sixteen) (fill_indices-AreApart d n l4) in
    let four = length-compress_line before refl in
    let same =
      compress_line-sum before
        (omega (arith, line_fits d n p.tiles l4 kept.sixteen, kept.same_sum)) in
    elim (Bool-cases (not (same_line after before))) [
      | inl moved ↦ record {
        sixteen = rw moved (length-write_line indices after p.tiles ∙ kept.sixteen);
        same_sum = rw moved (
            omega (
              arith,
              total-write_line (λ v. v) indices after p.tiles apart four,
              same,
              kept.same_sum,
            ));
      }
      | inr still ↦ record { sixteen = rw still kept.sixteen; same_sum = rw still kept.same_sum }
    ]

-- Whatever the direction, the loop of `move` keeps the 16 tiles of the board and, if it fits 32 bits, their sum.
pub move_lines-sum :
    (d : Direction) (p : Progress)
    → length p.tiles ≡ 16
    → sum p.tiles < 2 ^ 32
    → (length (move_lines d p).tiles ≡ 16) × (sum (move_lines d p).tiles ≡ sum p.tiles)
move_lines-sum d p sixteen fits =
    let step =
      λ (n : ℕ) (q : Progress) (l4 : n < 4). move_line-IsKept (sum p.tiles) d n q fits l4 in
    let start : IsKept (sum p.tiles) p = record { sixteen = sixteen; same_sum = refl } in
    let done =
      step 3 _ (omega arith)
        (step 2 _ (omega arith) (step 1 _ (omega arith) (step 0 p (omega arith) start))) in
    (done.sixteen, done.same_sum)
