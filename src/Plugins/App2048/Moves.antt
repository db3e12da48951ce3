-- ===== src/Plugins/App2048/Moves.antt =====
-- Moves in plugins/app_2048/app_2048_logic.cpp and the test for the end of the game.
use protocol_design.Prelude.{
  ℕ, zero, suc, ◌+◌, ◌^◌, ◌<◌, ◌≡◌, ◌≢◌, refl, sym, ◌∙◌, List, [], ◌∷◌, Bool, false, not, ◌==◌,
  length, get_or, arith, All, All-get_or,
}
use protocol_design.Plugins.App2048.{
  Direction, left, right, up, down, Progress, move_line, move_lines, compress_line, same_line,
  read_line, fill_indices, any_move_possible, any, has_equal_neighbour, index_of,
}
use protocol_design.Plugins.App2048.Lines.{compress_line-changes}

-- A board without an empty cell and without equal neighbours.
pub record IsStuck (tiles : List ℕ) : Type 0 where
  pub full : (i : ℕ) → i < 16 → get_or tiles i 0 ≢ 0
  pub across :
      (x y : ℕ)
      → x < 3
      → y < 4
      → get_or tiles (index_of (x + 1) y) 0 ≢ get_or tiles (index_of x y) 0
  pub along :
      (x y : ℕ)
      → x < 4
      → y < 3
      → get_or tiles (index_of x (y + 1)) 0 ≢ get_or tiles (index_of x y) 0

any-full :
    (tiles : List ℕ) (i : ℕ)
    → any (λ v. v == 0) tiles ≡ false
    → i < length tiles
    → get_or tiles i 0 ≢ 0
any-full [] i h l = absurd (omega arith)
any-full (v ∷ tiles) zero h l = ground arith
any-full (v ∷ tiles) (suc i) h l = any-full tiles i (ground arith) (omega arith)

any-false :
    (test : ℕ → Bool) (i : ℕ) → any test (0 ∷ 1 ∷ 2 ∷ 3 ∷ []) ≡ false → i < 4 → test i ≡ false
any-false test zero h l = ground arith
any-false test (suc zero) h l = ground arith
any-false test (suc (suc zero)) h l = ground arith
any-false test (suc (suc (suc zero))) h l = ground arith
any-false test (suc (suc (suc (suc i)))) h l = absurd (omega arith)

any_move_possible-IsStuck :
    (tiles : List ℕ) → length tiles ≡ 16 → any_move_possible tiles ≡ false → IsStuck tiles
unfolding any_move_possible
any_move_possible-IsStuck tiles l h =
    let rows : any (λ y. any (has_equal_neighbour tiles y) (0 ∷ 1 ∷ 2 ∷ 3 ∷ []))
          (0 ∷ 1 ∷ 2 ∷ 3 ∷ [])
        ≡ false =
      ground arith in
    let apart = λ (x y : ℕ) (lx : x < 4) (ly : y < 4).
      any-false (has_equal_neighbour tiles y) x
        (any-false (λ z. any (has_equal_neighbour tiles z) (0 ∷ 1 ∷ 2 ∷ 3 ∷ [])) y rows ly) lx in
    record {
      full = λ i li. any-full tiles i (ground arith) (omega (arith, l));
      across = λ x y lx ly. ground (arith, apart x y (omega arith) ly);
      along = λ x y lx ly. ground (arith, apart x y lx (omega arith));
    }

module _ (tiles : List ℕ) (l : length tiles ≡ 16) (small : All (λ v. v < 2 ^ 31) tiles)
    (v : IsStuck tiles) where
  cells_still :
      (i j k m : ℕ)
      → i < 16
      → j < 16
      → k < 16
      → m < 16
      → get_or tiles i 0 ≢ get_or tiles j 0
      → get_or tiles j 0 ≢ get_or tiles k 0
      → get_or tiles k 0 ≢ get_or tiles m 0
      → let line = get_or tiles i 0 ∷ get_or tiles j 0 ∷ get_or tiles k 0 ∷ get_or tiles m 0 ∷ [] in
        not (same_line (compress_line line).tiles line) ≡ false
  cells_still i j k m li lj lk lm ij jk km =
      let fits = λ (n : ℕ). All-get_or (λ z. z < 2 ^ 31) tiles n 0 small (omega arith) in
      compress_line-changes (get_or tiles i 0) (get_or tiles j 0) (get_or tiles k 0)
        (get_or tiles m 0) (fits i) (fits j) (fits k) (fits m)
      ∙ ground (arith, v.full i li, v.full j lj, v.full k lk, v.full m lm)

  line_still :
      (d : Direction) (n : ℕ)
      → n < 4
      → let line = read_line tiles (fill_indices d n) in
        not (same_line (compress_line line).tiles line) ≡ false
  line_still left n l4 =
      cells_still (index_of 0 n) (index_of 1 n) (index_of 2 n) (index_of 3 n) (omega arith)
        (omega arith) (omega arith) (omega arith) (λ e. v.across 0 n (omega arith) l4 (sym e))
        (λ e. v.across 1 n (omega arith) l4 (sym e)) (λ e. v.across 2 n (omega arith) l4 (sym e))
  line_still right n l4 =
      cells_still (index_of 3 n) (index_of 2 n) (index_of 1 n) (index_of 0 n) (omega arith)
        (omega arith) (omega arith) (omega arith) (v.across 2 n (omega arith) l4)
        (v.across 1 n (omega arith) l4) (v.across 0 n (omega arith) l4)
  line_still up n l4 =
      cells_still (index_of n 0) (index_of n 1) (index_of n 2) (index_of n 3) (omega arith)
        (omega arith) (omega arith) (omega arith) (λ e. v.along n 0 l4 (omega arith) (sym e))
        (λ e. v.along n 1 l4 (omega arith) (sym e)) (λ e. v.along n 2 l4 (omega arith) (sym e))
  line_still down n l4 =
      cells_still (index_of n 3) (index_of n 2) (index_of n 1) (index_of n 0) (omega arith)
        (omega arith) (omega arith) (omega arith) (v.along n 2 l4 (omega arith))
        (v.along n 1 l4 (omega arith)) (v.along n 0 l4 (omega arith))

  -- The loop's variables say that nothing has happened yet.
  record IsStill (p : Progress) : Type 0 where
    same_tiles : p.tiles ≡ tiles
    not_changed : p.changed ≡ false

  move_line-IsStill :
      (d : Direction) (n : ℕ) (p : Progress) → n < 4 → IsStill p → IsStill (move_line d n p)
  unfolding move_line
  move_line-IsStill d n p l4 still =
      let e = line_still d n l4 in
      record {
        same_tiles = rw (still.same_tiles, e) refl;
        not_changed = rw (still.same_tiles, still.not_changed, e) refl;
      }

-- On a board of 16 tiles below 2 ^ 31 on which `any_move_possible` is false, the loop of `move`
-- changes nothing, whatever the direction.
pub move_lines_still :
    (tiles : List ℕ) (d : Direction) (p : Progress)
    → length tiles ≡ 16
    → All (λ v. v < 2 ^ 31) tiles
    → any_move_possible tiles ≡ false
    → p.tiles ≡ tiles
    → p.changed ≡ false
    → ((move_lines d p).tiles ≡ tiles) × ((move_lines d p).changed ≡ false)
move_lines_still tiles d p l small h e f =
    let v = any_move_possible-IsStuck tiles l h in
    let step = move_line-IsStill tiles l small v d in
    let start : IsStill tiles l small v p = record { same_tiles = e; not_changed = f } in
    let done =
      step 3 _ (omega arith)
        (step 2 _ (omega arith) (step 1 _ (omega arith) (step 0 p (omega arith) start))) in
    (done.same_tiles, done.not_changed)
