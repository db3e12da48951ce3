-- ===== src/Plugins/Game.antt =====
-- plugins/app_2048/app_2048.cpp: the window of the 2048 game, as a plugin of the host. The colours are a
-- parameter: COLOR_QUAD_MAKE of red, green, blue and alpha, and the three named ones that the tiles use.
-- `rng_` gives the seeds of new games; it is a parameter too, and so are its first seeds.
pub mod Keys
use protocol_design.Prelude.{
  ℕ, zero, suc, ◌+◌, ◌-◌, ◌*◌, ◌/◌, ◌^◌, List, [], ◌∷◌, Bool, true, false, not, if◌then◌else◌, ◌==◌,
  leb,
}
use protocol_design.Prelude.Int.{ℤ, pos, difference}
use protocol_design.Common.Rect.{UiRect, rect}
use protocol_design.Common.InputEvent.{UiMessageMouse, UiMessageKeyboard}
use protocol_design.Apphost.UiHost.{Plugin, Script, finished, call, damage, quit}
use protocol_design.Plugins.App2048.{
  Generator, Board, MoveResult, Direction, left, right, up, down, GameState, game_over, playing, at,
  merged_this_turn, move, reset, board_size,
}
use protocol_design.Plugins.Drawing.{canvas_h, glyph_h, fill_rect, draw_number, number_width}

abbrev pub canvas_w : ℕ
canvas_w = 160

abbrev header_h : ℕ
header_h = 24

abbrev board_origin_x : ℕ
board_origin_x = 8

abbrev board_origin_y : ℕ
board_origin_y = 28

abbrev tile_pitch : ℕ
tile_pitch = 36

abbrev tile_inset : ℕ
tile_inset = 2

abbrev status_y : ℕ
status_y = 180

abbrev status_h : ℕ
status_h = 20

pub record Palette : Type 0 where
  pub quad : ℕ → ℕ → ℕ → ℕ → ℕ
  pub orange : ℕ
  pub hot_pink : ℕ
  pub purple : ℕ

pub record TilePalette : Type 0 where
  pub fill : ℕ
  pub merge_fill : ℕ
  pub text : ℕ

-- (32 - text_w) / 2, which is rounded towards zero, to the right of `start`.
abbrev centred : ℕ → ℕ → ℕ → ℤ
centred start room text_w =
    if leb text_w room
    then pos (start + (room - text_w) / 2)
    else difference start ((text_w - room) / 2)

module _ (colors : Palette) where
  abbrev opaque : ℕ → ℕ → ℕ → ℕ
  opaque r g b = colors.quad r g b 255

  abbrev text_dark : ℕ
  text_dark = opaque 30 30 30

  abbrev text_light : ℕ
  text_light = opaque 245 245 245

  unfoldable pub palette_for : ℕ → TilePalette
  palette_for value =
      if value == 2
      then record { fill = opaque 238 228 218; merge_fill = opaque 255 255 130; text = text_dark }
      else if value == 4
      then record { fill = opaque 237 224 200; merge_fill = opaque 255 240 100; text = text_dark }
      else if value == 8
      then record { fill = opaque 242 177 121; merge_fill = colors.orange; text = text_light }
      else if value == 16
      then record { fill = opaque 245 149 99; merge_fill = colors.orange; text = text_light }
      else if value == 32
      then record { fill = opaque 246 124 95; merge_fill = colors.orange; text = text_light }
      else if value == 64
      then record { fill = opaque 246 94 59; merge_fill = colors.hot_pink; text = text_light }
      else if value == 128
      then record { fill = opaque 237 207 114; merge_fill = colors.hot_pink; text = text_light }
      else if value == 256
      then record { fill = opaque 237 204 97; merge_fill = colors.hot_pink; text = text_light }
      else if value == 512
      then record { fill = opaque 237 200 80; merge_fill = colors.purple; text = text_light }
      else if value == 1024
      then record { fill = opaque 237 197 63; merge_fill = colors.purple; text = text_light }
      else record { fill = opaque 237 194 46; merge_fill = colors.purple; text = text_light }

  module _ (g : Generator) where
    -- `next_seed` draws from `rng_`.
    pub record Window : Type 0 where
      pub board : Board g
      pub rng : g.Rng

    -- The score has at most ten digits, so that its picture fits.
    unfoldable pub draw_header : Window → ℕ → List ℕ → List ℕ
    unfolding draw_number number_width
    draw_header w stride buf =
        let row = (header_h - glyph_h) / 2 in
        let logo = (draw_number stride (pos 4) row 2048 (opaque 255 200 80) buf).1 in
        let score_x = pos (canvas_w - 4 - number_width w.board.score) in
        (draw_number stride score_x row w.board.score (opaque 245 245 245) logo).1

    unfoldable pub draw_cell : Window → ℕ → ℕ → ℕ → List ℕ → List ℕ
    unfolding fill_rect draw_number number_width palette_for
    draw_cell w stride bx by buf =
        let tile_left = board_origin_x + bx * tile_pitch + tile_inset in
        let tile_top = board_origin_y + by * tile_pitch + tile_inset in
        let tile_right = board_origin_x + bx * tile_pitch + tile_pitch - tile_inset in
        let tile_bottom = board_origin_y + by * tile_pitch + tile_pitch - tile_inset in
        let value = at g bx by w.board in
        if value == 0
        then fill_rect stride tile_left tile_top tile_right tile_bottom (opaque 80 90 100) buf
        else let pal = palette_for value in
          let filled =
            fill_rect stride tile_left tile_top tile_right tile_bottom
              (if merged_this_turn g bx by w.board then pal.merge_fill else pal.fill) buf in
          let text_x = centred tile_left (tile_right - tile_left) (number_width value) in
          let text_y = tile_top + (tile_bottom - tile_top - glyph_h) / 2 in
          (draw_number stride text_x text_y value pal.text filled).1

    -- The cells of a row, `n` of which are left, and the rows.
    unfoldable pub draw_row : ℕ → Window → ℕ → ℕ → List ℕ → List ℕ
    unfolding draw_cell
    draw_row zero w stride by buf = buf
    draw_row (suc n) w stride by buf =
        draw_row n w stride by (draw_cell w stride (board_size - suc n) by buf)

    unfoldable pub draw_rows : ℕ → Window → ℕ → List ℕ → List ℕ
    unfolding draw_row
    draw_rows zero w stride buf = buf
    draw_rows (suc n) w stride buf =
        draw_rows n w stride (draw_row board_size w stride (board_size - suc n) buf)

    unfoldable pub draw_board : Window → ℕ → List ℕ → List ℕ
    unfolding draw_rows fill_rect
    draw_board w stride buf =
        let size = tile_pitch * board_size in
        draw_rows board_size w stride (
          fill_rect stride (board_origin_x - 1) (board_origin_y - 1) (board_origin_x + size + 1)
            (board_origin_y + size + 1) (opaque 60 68 78) buf)

    unfoldable pub draw_status : Window → ℕ → List ℕ → List ℕ
    unfolding fill_rect
    draw_status w stride buf = elim w.board.state [
      | playing ↦ buf
      | game_over ↦
          fill_rect stride 4 status_y (canvas_w - 4) (status_y + status_h) (opaque 200 40 40) buf
    ]

    unfoldable pub do_draw : List ℕ → ℕ → Window → List ℕ
    unfolding draw_header draw_board draw_status fill_rect
    do_draw buf stride w = draw_status w stride (
        draw_board w stride
          (draw_header w stride (fill_rect stride 0 0 canvas_w canvas_h (opaque 28 36 44) buf)))

    -- The rectangle that the window repaints.
    abbrev pub full_window : UiRect
    full_window = rect 0 0 canvas_w canvas_h

    -- A move, and the repainting if it has changed the board.
    unfoldable pub try_move : Direction → Window → Bool × Window
    try_move d w =
        let (result, board) = move g d w.board in (result.changed, record w { board = board })

    -- The seed is a number of 64 bits.
    unfoldable pub restart : Window → Bool × Window
    restart w =
        let (seed, rng) = g.draw (2 ^ 64 - 1) w.rng in
        (true, record { board = reset g seed w.board; rng = rng })

    -- Whether the board is to be repainted, and the window after the key.
    unfoldable pub press : ℕ → Window → Bool × Window
    unfolding try_move restart
    press key w =
        if key == 0x25
        then try_move left w
        else if key == 0x26
        then try_move up w
        else if key == 0x27
        then try_move right w
        else if key == 0x28
        then try_move down w
        else if key == 0x71
        then restart w
        else (false, w)

    unfoldable pub do_keyboard : UiMessageKeyboard → Window → Script Window
    unfolding press
    do_keyboard kb w =
        let (changed, pressed) = press kb.key w in
        if not (kb.down == 1)
        then finished w
        else if changed
        then call (damage full_window) pressed (λ p. finished p)
        else finished pressed

    -- The base class ignores the mouse; the window posts no work.
    abbrev pub game : Plugin Window
    game = record {
      on_draw = λ pixels width height paint w. (do_draw pixels width w, w);
      on_mouse = λ m w. finished w;
      on_keyboard = do_keyboard;
      on_work = λ n w. finished w;
      on_close = λ w. call quit w (λ p. finished p);
    }
