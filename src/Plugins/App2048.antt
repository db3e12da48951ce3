-- ===== src/Plugins/App2048.antt =====
-- plugins/app_2048/app_2048_logic.h and app_2048_logic.cpp: the board of the game, which needs neither
-- drawing nor the network. An array is the list of its entries. The generator of the C++ library is a
-- parameter: a draw from 0 to n and the generator after it.
pub mod Lines
pub mod Moves
pub mod Conserved
pub mod Gaps
pub mod Spawning
use protocol_design.Prelude.{
  ℕ, zero, suc, ◌+◌, ◌-◌, ◌*◌, ◌<◌, ◌≤◌, List, [], ◌∷◌, ◌++◌, map, Bool, true, false, not, ◌&&◌,
  ◌||◌, if◌then◌else◌, ◌==◌, ltb, length, get_or, set, replicate, u32,
}

abbrev pub board_size : ℕ
board_size = 4

abbrev pub cell_count : ℕ
cell_count = 16

pub data Direction : Type 0 where
  left right up down : Direction

pub data GameState : Type 0 where
  playing game_over : GameState

pub record MoveResult : Type 0 where
  pub changed : Bool
  pub merged : Bool
  pub score_delta : ℕ

abbrev pub no_move : MoveResult
no_move = record { changed = false; merged = false; score_delta = 0 }

-- std::mt19937_64 with std::uniform_int_distribution.
pub record Generator : Type 1 where
  pub Rng : Type 0
  pub seeded : ℕ → Rng
  pub draw : ℕ → Rng → ℕ × Rng

abbrev pub index_of : ℕ → ℕ → ℕ
index_of x y = y * board_size + x

-- The entries of a line that are not 0, in order.
unfoldable pub pack : List ℕ → List ℕ
pack [] = []
pack (v ∷ line) = let rest = pack line in if v == 0 then rest else v ∷ rest

-- What the merging loop of `compress_line` writes: tiles, which of them are merged, and the score.
pub record Merged : Type 0 where
  pub tiles : List ℕ
  pub flags : List Bool
  pub score : ℕ

abbrev pub keep : ℕ → Merged → Merged
keep a m = record { tiles = a ∷ m.tiles; flags = false ∷ m.flags; score = m.score }

abbrev pub join : ℕ → Merged → Merged
join a m = record {
  tiles = u32 (a * 2) ∷ m.tiles;
  flags = true ∷ m.flags;
  score = u32 (u32 (a * 2) + m.score);
}

unfoldable pub merge : List ℕ → Merged
merge [] = record { tiles = []; flags = []; score = 0 }
merge (a ∷ []) = record { tiles = a ∷ []; flags = false ∷ []; score = 0 }
merge (a ∷ b ∷ rest) =
    let joined = merge rest in
    let kept = merge (b ∷ rest) in if a == b then join a joined else keep a kept

unfoldable pub compress_line : List ℕ → Merged
compress_line line =
    let m = merge (pack line) in
    record {
      tiles = m.tiles ++ replicate (board_size - length m.tiles) 0;
      flags = m.flags ++ replicate (board_size - length m.flags) false;
      score = m.score;
    }

-- fill_indices
abbrev pub cell : Direction → ℕ → ℕ → ℕ
cell left line_no k = index_of k line_no
cell right line_no k = index_of (board_size - 1 - k) line_no
cell up line_no k = index_of line_no k
cell down line_no k = index_of line_no (board_size - 1 - k)

abbrev pub fill_indices : Direction → ℕ → List ℕ
fill_indices d line_no = map (cell d line_no) (0 ∷ 1 ∷ 2 ∷ 3 ∷ [])

abbrev pub read_line : List ℕ → List ℕ → List ℕ
read_line tiles indices = map (λ i. get_or tiles i 0) indices

unfoldable pub write_line : List ℕ → List ℕ → List ℕ → List ℕ
write_line [] values tiles = tiles
write_line (i ∷ indices) [] tiles = tiles
write_line (i ∷ indices) (v ∷ values) tiles = write_line indices values (set tiles i v)

-- Marks the cells whose flag is set.
unfoldable pub mark_line : List ℕ → List Bool → List Bool → List Bool
mark_line [] flags merged = merged
mark_line (i ∷ indices) [] merged = merged
mark_line (i ∷ indices) (f ∷ flags) merged =
    mark_line indices flags (if f then set merged i true else merged)

abbrev pub same_line : List ℕ → List ℕ → Bool
same_line [] [] = true
same_line [] (b ∷ ys) = false
same_line (a ∷ xs) [] = false
same_line (a ∷ xs) (b ∷ ys) = a == b && same_line xs ys

-- The local variables of `move` and the arrays that it changes.
pub record Progress : Type 0 where
  pub tiles : List ℕ
  pub merged : List Bool
  pub changed : Bool
  pub merged_any : Bool
  pub score_delta : ℕ

-- One round of the loop over the lines.
unfoldable pub move_line : Direction → ℕ → Progress → Progress
unfolding compress_line write_line mark_line
move_line d line_no p =
    let indices = fill_indices d line_no in
    let before = read_line p.tiles indices in
    let line = compress_line before in
    let moved = not (same_line line.tiles before) in
    record {
      tiles = if moved then write_line indices line.tiles p.tiles else p.tiles;
      merged = if moved then mark_line indices line.flags p.merged else p.merged;
      changed = p.changed || moved;
      merged_any = p.merged_any || ltb 0 line.score;
      score_delta = if ltb 0 line.score then u32 (p.score_delta + line.score) else p.score_delta;
    }

abbrev pub move_lines : Direction → Progress → Progress
move_lines d p = move_line d 3 (move_line d 2 (move_line d 1 (move_line d 0 p)))

unfoldable pub empties_from : ℕ → List ℕ → List ℕ
empties_from i [] = []
empties_from i (v ∷ tiles) =
    let rest = empties_from (i + 1) tiles in if v == 0 then i ∷ rest else rest

-- The value at x and y equals the one to the right or the one below.
abbrev pub has_equal_neighbour : List ℕ → ℕ → ℕ → Bool
has_equal_neighbour tiles y x =
    let v = get_or tiles (index_of x y) 0 in
    ltb (x + 1) board_size && get_or tiles (index_of (x + 1) y) 0 == v
    || ltb (y + 1) board_size && get_or tiles (index_of x (y + 1)) 0 == v

abbrev pub any : (ℕ → Bool) → List ℕ → Bool
any test [] = false
any test (x ∷ xs) = test x || any test xs

unfoldable pub any_move_possible : List ℕ → Bool
any_move_possible tiles =
    any (λ v. v == 0) tiles
    || any (λ y. any (has_equal_neighbour tiles y) (0 ∷ 1 ∷ 2 ∷ 3 ∷ [])) (0 ∷ 1 ∷ 2 ∷ 3 ∷ [])

module _ (g : Generator) where
  pub record Board : Type 0 where
    pub tiles : List ℕ
    pub merged : List Bool
    pub score : ℕ
    pub state : GameState
    pub rng : g.Rng

  unfoldable pub new_board : ℕ → Board
  new_board seed = record {
    tiles = replicate cell_count 0;
    merged = replicate cell_count false;
    score = 0;
    state = playing;
    rng = g.seeded seed;
  }

  abbrev pub at : ℕ → ℕ → Board → ℕ
  at x y b = get_or b.tiles (index_of x y) 0

  abbrev pub merged_this_turn : ℕ → ℕ → Board → Bool
  merged_this_turn x y b = get_or b.merged (index_of x y) false

  unfoldable pub empty_cell_count : Board → ℕ
  unfolding empties_from
  empty_cell_count b = length (empties_from 0 b.tiles)

  unfoldable pub spawn_random_tile : Board → Board
  spawn_random_tile b = elim (empties_from 0 b.tiles) [
    | [] ↦ b
    | i ∷ empties ↦
        let (pick, rng₁) = g.draw (length (i ∷ empties) - 1) b.rng in
        let (roll, rng₂) = g.draw 9 rng₁ in
        record b {
          tiles = set b.tiles (get_or (i ∷ empties) pick 0) (if roll == 0 then 4 else 2);
          rng = rng₂;
        }
  ]

  unfoldable pub reset : ℕ → Board → Board
  unfolding spawn_random_tile
  reset seed b = spawn_random_tile (
      spawn_random_tile (record {
        tiles = replicate cell_count 0;
        merged = replicate cell_count false;
        score = 0;
        state = playing;
        rng = g.seeded seed;
      }))

  -- The end of `move`, for a board that it changed.
  unfoldable pub after_change : ℕ → Board → Board
  unfolding any_move_possible spawn_random_tile
  after_change score_delta b =
      let b₁ = spawn_random_tile (record b { score = u32 (b.score + score_delta) }) in
      if not (any_move_possible b₁.tiles) then record b₁ { state = game_over } else b₁

  unfoldable pub move : Direction → Board → MoveResult × Board
  unfolding after_change move_line
  move d b = elim b.state [
    | game_over ↦ (no_move, b)
    | playing ↦
        let p = move_lines d (record {
          tiles = b.tiles;
          merged = replicate cell_count false;
          changed = false;
          merged_any = false;
          score_delta = 0;
        }) in
        let b₁ = record b { tiles = p.tiles; merged = p.merged } in
        (
          record { changed = p.changed; merged = p.merged_any; score_delta = p.score_delta },
          (if p.changed then after_change p.score_delta b₁ else b₁),
        )
  ]

  unfoldable pub set_for_test : List ℕ → ℕ → Board → Board
  set_for_test tiles seed b = record {
    tiles = tiles;
    merged = replicate cell_count false;
    score = b.score;
    state = if any_move_possible tiles then playing else game_over;
    rng = g.seeded seed;
  }
