-- ===== src/Plugins/App2048/Spawning.antt =====
-- What a whole `move` in plugins/app_2048/app_2048_logic.cpp does to the sum of the board, with the tile that
-- it spawns.
use protocol_design.Prelude.{
  ◌⊎◌, ℕ, zero, suc, ◌+◌, ◌-◌, ◌^◌, ◌<◌, ◌≤◌, ◌≡◌, refl, sym, List, [], ◌∷◌, Bool, true, false, not,
  ◌==◌, length, ap, ◌∙◌, get_or, set, arith, Bool-cases, inl, inr, replicate, length-set,
  if◌then◌else◌, u32,
}
use protocol_design.Plugins.App2048.{
  Direction, Generator, Board, GameState, playing, game_over, cell_count, Progress, move,
  move_lines, after_change, spawn_random_tile, empties_from, any_move_possible,
}
use protocol_design.Plugins.App2048.Lines.{sum}
use protocol_design.Plugins.App2048.Lines.{zeros}
use protocol_design.Plugins.App2048.Gaps.{move_lines-gap, length-empties_from}
use protocol_design.Plugins.App2048.Conserved.{total-set, move_lines-sum}

abbrev IsEmptyCell : ℕ → List ℕ → ℕ → Type 0
IsEmptyCell k tiles i = (m : ℕ) × ((i ≡ k + m) × ((m < length tiles) × (get_or tiles m 0 ≡ 0)))

first_or_later :
    (k v : ℕ) (tiles : List ℕ) (j : ℕ)
    → v ≡ 0
    → ((i : ℕ)
        → i < length (empties_from (k + 1) tiles)
        → IsEmptyCell (k + 1) tiles (get_or (empties_from (k + 1) tiles) i 0))
    → empties_from k (v ∷ tiles) ≡ k ∷ empties_from (k + 1) tiles
    → j < suc (length (empties_from (k + 1) tiles))
    → IsEmptyCell k (v ∷ tiles) (get_or (empties_from k (v ∷ tiles)) j 0)
first_or_later k v tiles zero gap later e h =
    (0, (ap (λ l. get_or l 0 0) e ∙ omega arith, (omega arith, gap)))
first_or_later k v tiles (suc j) gap later e h =
    let (m, (at, (inside, empty))) = later j (omega (arith, h)) in
    (suc m, (ap (λ l. get_or l (suc j) 0) e ∙ omega (arith, at), (omega (arith, inside), empty)))

-- Each entry of `empties_from` is the index of an empty cell.
empties_from-empty :
    (k : ℕ) (tiles : List ℕ) (j : ℕ)
    → j < length (empties_from k tiles)
    → IsEmptyCell k tiles (get_or (empties_from k tiles) j 0)
unfolding empties_from
empties_from-empty k [] j h = absurd (omega arith)
empties_from-empty k (v ∷ tiles) j h = elim (Bool-cases (v == 0)) [
  | inl gap ↦
      let e : empties_from k (v ∷ tiles) ≡ k ∷ empties_from (k + 1) tiles = rw gap refl in
      first_or_later k v tiles j (ground (arith, gap)) (λ i l. empties_from-empty (k + 1) tiles i l)
        e (omega (arith, h, ap length e))
  | inr full ↦
      let e : empties_from k (v ∷ tiles) ≡ empties_from (k + 1) tiles = rw full refl in
      let (m, (at, (inside, empty))) =
        empties_from-empty (k + 1) tiles j (omega (arith, h, ap length e)) in
      (suc m, (ap (λ l. get_or l j 0) e ∙ omega (arith, at), (omega (arith, inside), empty)))
]

List-cases : (xs : List ℕ) → (xs ≡ []) ⊎ ((x : ℕ) × ((rest : List ℕ) × (xs ≡ x ∷ rest)))
List-cases [] = inl refl
List-cases (x ∷ rest) = inr (x, (rest, refl))

state-cases : (s : GameState) → (s ≡ playing) ⊎ (s ≡ game_over)
state-cases playing = inl refl
state-cases game_over = inr refl

-- As many cells, and a sum that is larger by one new tile, if the board was changed.
pub record IsGrown (changed : Bool) (before after : List ℕ) : Type 0 where
  pub added : ℕ
  pub kind : (added ≡ 2) ⊎ (added ≡ 4)
  pub same_length : length after ≡ length before
  pub grown : sum after ≡ sum before + (if changed then added else 0)

module _ (g : Generator) (fair : (n : ℕ) (rng : g.Rng) → (g.draw n rng).0 ≤ n) where
  -- Where a cell is empty, a 2 or a 4 is added.
  spawn_random_tile-IsGrown :
      (b : Board g) → 0 < zeros b.tiles → IsGrown true b.tiles (spawn_random_tile g b).tiles
  unfolding spawn_random_tile
  spawn_random_tile-IsGrown b room = elim (List-cases (empties_from 0 b.tiles)) [
    | inl e ↦ absurd (omega (arith, room, length-empties_from 0 b.tiles, ap length e))
    | inr (i, (rest, e)) ↦
        let pick = (g.draw (length (i ∷ rest) - 1) b.rng).0 in
        let roll = (g.draw 9 (g.draw (length (i ∷ rest) - 1) b.rng).1).0 in
        let v : ℕ = if roll == 0 then 4 else 2 in
        let (m, (at, (inside, empty))) =
          empties_from-empty 0 b.tiles pick
            (omega (arith, fair (length (i ∷ rest) - 1) b.rng, ap length e)) in
        let cell : get_or (i ∷ rest) pick 0 ≡ m =
          sym (ap (λ l. get_or l pick 0) e) ∙ at ∙ omega arith in
        let drawn : (spawn_random_tile g b).tiles ≡ set b.tiles (get_or (i ∷ rest) pick 0) v =
          rw (e, spawn_random_tile) refl in
        let run = drawn ∙ ap (λ k. set b.tiles k v) cell in
        record {
          added = v;
          kind = elim (Bool-cases (roll == 0)) [
            | inl four ↦ inr (rw four refl)
            | inr two ↦ inl (rw two refl)
          ];
          same_length = ap length run ∙ length-set b.tiles m v;
          grown = ap sum run ∙ omega (arith, total-set (λ x. x) b.tiles m v inside, empty);
        }
  ]

  after_change-tiles :
      (delta : ℕ) (b : Board g)
      → (after_change g delta b).tiles
        ≡ (spawn_random_tile g (record b { score = u32 (b.score + delta) })).tiles
  unfolding after_change
  after_change-tiles delta b =
      let spawned = spawn_random_tile g (record b { score = u32 (b.score + delta) }) in
      elim (Bool-cases (not (any_move_possible spawned.tiles))) [
        | inl over ↦ rw over refl
        | inr on ↦ rw on refl
      ]

  -- On a board of 16 tiles whose sum fits 32 bits, a move in any direction keeps the number of tiles,
  -- and their sum but for the tile that is spawned: if the move says that it changed the board, the
  -- sum grows by 2 or by 4, and otherwise it stays. The random generator draws no
  -- number above the bound that it is given.
  pub move-IsGrown :
      (d : Direction) (b : Board g)
      → length b.tiles ≡ 16
      → sum b.tiles < 2 ^ 32
      → IsGrown (move g d b).0.changed b.tiles (move g d b).1.tiles
  unfolding move
  move-IsGrown d b sixteen fits = elim (state-cases b.state) [
    | inl on ↦
        let start : Progress = record {
          tiles = b.tiles;
          merged = replicate cell_count false;
          changed = false;
          merged_any = false;
          score_delta = 0;
        } in
        let p = move_lines d start in
        let (cells, same) = move_lines-sum d start sixteen fits in
        elim (Bool-cases p.changed) [
          | inl changed ↦
              let moved : Board g = record b {
                tiles = p.tiles;
                merged = p.merged;
                state = playing;
              } in
              let room : 0 < zeros p.tiles = elim (move_lines-gap d start sixteen refl) [
                | inl still ↦ absurd (ground (arith, still, changed))
                | inr gap ↦ gap
              ] in
              let new =
                spawn_random_tile-IsGrown (record moved { score = u32 (b.score + p.score_delta) })
                  room in
              let run : (move g d b).1.tiles
                  ≡ (spawn_random_tile g
                      (record moved { score = u32 (b.score + p.score_delta) })).tiles =
                rw (on, changed) (after_change-tiles p.score_delta moved) in
              let flag : (move g d b).0.changed ≡ true = rw (on, changed) refl in
              record {
                added = new.added;
                kind = new.kind;
                same_length = ap length run ∙ omega (arith, new.same_length, cells, sixteen);
                grown = rw flag (ap sum run ∙ omega (arith, new.grown, same));
              }
          | inr still ↦
              let run : (move g d b).1.tiles ≡ p.tiles = rw (on, still) refl in
              let flag : (move g d b).0.changed ≡ false = rw (on, still) refl in
              record {
                added = 2;
                kind = inl refl;
                same_length = ap length run ∙ omega (arith, cells, sixteen);
                grown = rw flag (ap sum run ∙ omega (arith, same));
              }
        ]
    | inr over ↦
        let run : (move g d b).1.tiles ≡ b.tiles = rw over refl in
        let flag : (move g d b).0.changed ≡ false = rw over refl in
        record {
          added = 2;
          kind = inl refl;
          same_length = ap length run;
          grown = rw flag (ap sum run ∙ omega arith);
        }
  ]
