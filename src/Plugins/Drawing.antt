-- ===== src/Plugins/Drawing.antt =====
-- The pixel helpers of plugins/app_2048/app_2048.cpp. The picture is a list of numbers, row by row; the
-- coordinates that cannot be negative are natural numbers.
pub mod Numbers
use protocol_design.Prelude.{
  ℕ, zero, suc, ◌+◌, ◌-◌, ◌*◌, ◌/◌, ◌%◌, ◌^◌, List, [], ◌∷◌, ◌++◌, Bool, true, false, not, ◌&&◌,
  ◌||◌, if◌then◌else◌, ◌==◌, leb, ltb, length, get_or, set,
}
use Prim.Native.Nat.{min}
use protocol_design.Prelude.Int.{ℤ, pos, negsuc, plus}
use protocol_design.Client.Renderer.{fill_rows}

abbrev pub canvas_h : ℕ
canvas_h = 200

abbrev pub glyph_w : ℕ
glyph_w = 5

abbrev pub glyph_h : ℕ
glyph_h = 7

abbrev pub glyph_spacing : ℕ
glyph_spacing = 1

abbrev digit_glyphs : List (List ℕ)
digit_glyphs =
    (0b01110 ∷ 0b10001 ∷ 0b10011 ∷ 0b10101 ∷ 0b11001 ∷ 0b10001 ∷ 0b01110 ∷ [])
    ∷ (0b00100 ∷ 0b01100 ∷ 0b00100 ∷ 0b00100 ∷ 0b00100 ∷ 0b00100 ∷ 0b01110 ∷ [])
    ∷ (0b01110 ∷ 0b10001 ∷ 0b00001 ∷ 0b00010 ∷ 0b00100 ∷ 0b01000 ∷ 0b11111 ∷ [])
    ∷ (0b11110 ∷ 0b00001 ∷ 0b00001 ∷ 0b01110 ∷ 0b00001 ∷ 0b00001 ∷ 0b11110 ∷ [])
    ∷ (0b00010 ∷ 0b00110 ∷ 0b01010 ∷ 0b10010 ∷ 0b11111 ∷ 0b00010 ∷ 0b00010 ∷ [])
    ∷ (0b11111 ∷ 0b10000 ∷ 0b11110 ∷ 0b00001 ∷ 0b00001 ∷ 0b10001 ∷ 0b01110 ∷ [])
    ∷ (0b00110 ∷ 0b01000 ∷ 0b10000 ∷ 0b11110 ∷ 0b10001 ∷ 0b10001 ∷ 0b01110 ∷ [])
    ∷ (0b11111 ∷ 0b00001 ∷ 0b00010 ∷ 0b00100 ∷ 0b01000 ∷ 0b01000 ∷ 0b01000 ∷ [])
    ∷ (0b01110 ∷ 0b10001 ∷ 0b10001 ∷ 0b01110 ∷ 0b10001 ∷ 0b10001 ∷ 0b01110 ∷ [])
    ∷ (0b01110 ∷ 0b10001 ∷ 0b10001 ∷ 0b01111 ∷ 0b00001 ∷ 0b00010 ∷ 0b01100 ∷ [])
    ∷ []

-- A pixel outside the canvas is not drawn; no caller has a negative row.
unfoldable pub put_pixel : ℕ → ℤ → ℕ → ℕ → List ℕ → List ℕ
put_pixel stride (negsuc x) y c buf = buf
put_pixel stride (pos x) y c buf =
    if leb stride x || leb canvas_h y then buf else set buf (y * stride + x) c

unfoldable pub fill_rect : ℕ → ℕ → ℕ → ℕ → ℕ → ℕ → List ℕ → List ℕ
unfolding fill_rows
fill_rect stride left top right bottom c buf =
    fill_rows (min bottom canvas_h - top) top stride left (min right stride - left) c buf

-- The columns of a row of a glyph, `n` of which are left.
unfoldable pub draw_bits : ℕ → ℕ → ℕ → ℤ → ℕ → ℕ → List ℕ → List ℕ
unfolding put_pixel
draw_bits zero bits stride x y fg buf = buf
draw_bits (suc n) bits stride x y fg buf =
    draw_bits n bits stride (plus x 1) y fg
      (if bits / 2 ^ n % 2 == 1 then put_pixel stride x y fg buf else buf)

unfoldable pub draw_glyph : List ℕ → ℕ → ℤ → ℕ → ℕ → List ℕ → List ℕ
unfolding draw_bits
draw_glyph [] stride x y fg buf = buf
draw_glyph (bits ∷ rows) stride x y fg buf =
    draw_glyph rows stride x (y + 1) fg (draw_bits glyph_w bits stride x y fg buf)

unfoldable pub draw_digit : ℕ → ℤ → ℕ → ℕ → ℕ → List ℕ → List ℕ
unfolding draw_glyph
draw_digit stride x y digit fg buf =
    if ltb 9 digit then buf else draw_glyph (get_or digit_glyphs digit []) stride x y fg buf

-- The array `digits` of `draw_number` has room for `n` more.
unfoldable pub digits_of : ℕ → ℕ → List ℕ
digits_of zero value = []
digits_of (suc n) value =
    let rest = digits_of n (value / 10) in if value == 0 then [] else value % 10 ∷ rest

unfoldable pub number_digits : ℕ → List ℕ
number_digits value = if value == 0 then 0 ∷ [] else digits_of 10 value

-- The last of the digits is drawn first: what it leaves of the picture, and the width so far.
unfoldable pub draw_digits : List ℕ → ℕ → ℤ → ℕ → ℕ → ℕ × List ℕ → ℕ × List ℕ
unfolding draw_digit
draw_digits [] stride x y fg drawn = drawn
draw_digits (digit ∷ []) stride x y fg drawn =
    let (w, buf) = drawn in (w + glyph_w, draw_digit stride (plus x w) y digit fg buf)
draw_digits (digit ∷ d ∷ digits) stride x y fg drawn =
    let (w, buf) = drawn in
    draw_digits (d ∷ digits) stride x y fg
      (w + glyph_w + glyph_spacing, draw_digit stride (plus x w) y digit fg buf)

abbrev pub backwards : List ℕ → List ℕ → List ℕ
backwards [] done = done
backwards (d ∷ ds) done = backwards ds (d ∷ done)

unfoldable pub draw_number : ℕ → ℤ → ℕ → ℕ → ℕ → List ℕ → ℕ × List ℕ
draw_number stride x y value fg buf =
    draw_digits (backwards (number_digits value) []) stride x y fg (0, buf)

-- The loop of `number_width`: a 32-bit number has at most ten digits, which is the fuel given.
unfoldable pub count_digits : ℕ → ℕ → ℕ
count_digits zero value = 0
count_digits (suc n) value =
    let rest = count_digits n (value / 10) in if value == 0 then 0 else suc rest

unfoldable pub number_width : ℕ → ℕ
number_width value =
    let n = if value == 0 then 1 else count_digits 10 value in n * glyph_w + (n - 1) * glyph_spacing
