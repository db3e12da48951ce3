-- ===== src/Tests/Bodies.antt =====
-- The theorems on input events, byte orders and the 2048 board at concrete inputs.
use protocol_design.Prelude.{ℕ, ◌≡◌, refl, List, [], ◌∷◌, true, false, none, some, replicate, arith}
use protocol_design.Common.InputEvent.{
  GkcConstants, out_of_bounds, parsed, keyboard_kind, no_keyboard, no_mouse, is_mouse_event,
  is_keyboard_event, pack_mouse_input_event, pack_keyboard_input_event, parse_input_event_body,
  key_down,
}
use protocol_design.Common.InputEvent.Mouse.{
  pack_mouse_input_event-overruns, parse_input_event_body-mouse,
}
use protocol_design.Common.InputEvent.Keyboard.{packed, parse-pack_keyboard_input_event}
use protocol_design.Plugins.App2048.{
  Progress, left, down, merge, pack, compress_line, write_line, mark_line, any_move_possible,
  move_line, move_lines,
}

abbrev pub gkc : GkcConstants
gkc = record {
  event_move = 0;
  event_down = 1;
  event_up = 2;
  event_wheel = 3;
  button_none = 0;
  button_left = 1;
  button_right = 2;
  state_left = 1;
  state_right = 2;
}

pack_mouse_example : pack_mouse_input_event true 2 10 20 1000 ≡ none
pack_mouse_example = pack_mouse_input_event-overruns true 2 10 20 1000

parse_mouse_example : parse_input_event_body true gkc (1 ∷ replicate 12 0) ≡ out_of_bounds
unfolding is_mouse_event
parse_mouse_example = parse_input_event_body-mouse true gkc 1 (replicate 12 0) refl

keyboard_example :
    (pack_keyboard_input_event true key_down 65 1000 ≡ some (packed key_down 65 1000))
    × (parse_input_event_body false gkc (packed key_down 65 1000)
        ≡ parsed (record {
          kind = keyboard_kind;
          mouse = no_mouse;
          keyboard = record no_keyboard { key = 65; down = 1 };
          event_type = key_down;
          timestamp_us = 1000;
        }))
unfolding is_keyboard_event
keyboard_example =
    parse-pack_keyboard_input_event true false gkc key_down 65 1000 refl (omega arith) (omega arith)

compress_run : (compress_line (2 ∷ 0 ∷ 2 ∷ 4 ∷ [])).tiles ≡ 4 ∷ 4 ∷ 0 ∷ 0 ∷ []
unfolding compress_line merge pack
compress_run = refl

abbrev checkers : List ℕ
checkers = 2 ∷ 4 ∷ 2 ∷ 4 ∷ 4 ∷ 2 ∷ 4 ∷ 2 ∷ 2 ∷ 4 ∷ 2 ∷ 4 ∷ 4 ∷ 2 ∷ 4 ∷ 2 ∷ []

checkers_over : any_move_possible checkers ≡ false
unfolding any_move_possible
checkers_over = refl

abbrev start_of : List ℕ → Progress
start_of tiles = record {
  tiles = tiles;
  merged = replicate 16 false;
  changed = false;
  merged_any = false;
  score_delta = 0;
}

-- An empty board counts as one on which a move is possible, but no direction changes it.
empty_board_possible : any_move_possible (replicate 16 0) ≡ true
unfolding any_move_possible
empty_board_possible = refl

empty_board_left : (move_lines left (start_of (replicate 16 0))).changed ≡ false
unfolding move_line compress_line merge pack write_line mark_line
empty_board_left = refl

empty_board_down : (move_lines down (start_of (replicate 16 0))).changed ≡ false
unfolding move_line compress_line merge pack write_line mark_line
empty_board_down = refl
