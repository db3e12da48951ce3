-- ===== src/Client/Renderer.antt =====
-- src/client/pixel_renderer.h and pixel_renderer.cpp: the picture of the client. A method locks the
-- mutex for its whole body, so that it is one step. The pixels are one list, row by row; a
-- `color_quad` is its 32-bit number.
pub mod Painting
pub mod Rows
pub mod Frames
pub mod Scaling
use protocol_design.Prelude.{
  ℕ, zero, suc, ◌+◌, ◌-◌, ◌*◌, ◌/◌, ◌^◌, List, [], ◌∷◌, ◌++◌, Bool, true, false, not, ◌&&◌, ◌||◌,
  Option, none, some, if◌then◌else◌, ◌==◌, ltb, length, take, drop, get_or, set, replicate, bit_or,
  u32, u64, ◌<<<◌,
}
use Prim.Native.Nat.{min}
use protocol_design.Prelude.Int.{ℤ, pos, negsuc, less, of_u32, magnitude, smaller, larger}
use protocol_design.Common.Rect.{UiRect, RectOps}

pub data ApplyResult : Type 0 where
  ok stale_frame bad_rect bad_length : ApplyResult

pub record PixelRenderer : Type 0 where
  pub width : ℕ
  pub height : ℕ
  pub last_frame_seq : ℕ
  pub pixels : List ℕ

abbrev pub pixel_data_header_size : ℕ
pixel_data_header_size = 24

-- The colours of GKC that the renderer uses, and COLOR_QUAD_MAKE of red, green, blue and alpha.
pub record Colors : Type 0 where
  pub quad : ℕ → ℕ → ℕ → ℕ → ℕ
  pub black : ℕ
  pub blue : ℕ
  pub cyan : ℕ
  pub yellow : ℕ
  pub green : ℕ

unfoldable pub read_be32_from : List ℕ → ℕ → ℕ
read_be32_from body at =
    bit_or
      (bit_or (bit_or (u32 (get_or body at 0 <<< 24)) (u32 (get_or body (at + 1) 0 <<< 16)))
        (u32 (get_or body (at + 2) 0 <<< 8)))
      (get_or body (at + 3) 0)

abbrev pub at_least_one : ℤ → ℕ
at_least_one v = if less v (pos 1) then 1 else magnitude v

unfoldable pub reset : ℤ → ℤ → ℕ → PixelRenderer → PixelRenderer
reset width height fill p =
    let w = at_least_one width in
    let h = at_least_one height in
    record { width = w; height = h; last_frame_seq = 0; pixels = replicate (w * h) fill }

module _ (ops : RectOps) (colors : Colors) where
  unfoldable pub argb_to_color_quad : List ℕ → ℕ
  argb_to_color_quad src =
      colors.quad (get_or src 1 0) (get_or src 2 0) (get_or src 3 0) (get_or src 0 0)

  -- `n` pixels of a row, the first to `at`.
  unfoldable pub paint_row : ℕ → ℕ → List ℕ → List ℕ → List ℕ
  unfolding argb_to_color_quad
  paint_row zero at src pixels = pixels
  paint_row (suc n) at src pixels =
      paint_row n (at + 1) (drop 4 src) (set pixels at (argb_to_color_quad src))

  -- `n` rows of `w` pixels, the first to row `y` from column `left`.
  unfoldable pub paint_rows : ℕ → ℕ → ℕ → ℕ → ℕ → List ℕ → List ℕ → List ℕ
  unfolding paint_row
  paint_rows zero y stride left w src pixels = pixels
  paint_rows (suc n) y stride left w src pixels =
      paint_rows n (y + 1) stride left w (drop (w * 4) src)
        (paint_row w (y * stride + left) src pixels)

  -- The pointers are not null: the one caller hands on the body of a packet, and stops at a null one.
  unfoldable pub apply_dirty_rect :
      ℕ → UiRect → List ℕ → PixelRenderer → ApplyResult × PixelRenderer
  unfolding paint_rows
  apply_dirty_rect frame_seq q pixels p =
      if ltb frame_seq p.last_frame_seq
      then (stale_frame, p)
      else if less q.l (pos 0)
          || less q.t (pos 0)
          || less (pos p.width) q.r
          || less (pos p.height) q.b
          || ops.is_empty q
      then (bad_rect, p)
      else let w = magnitude (ops.width q) in
        let h = magnitude (ops.height q) in
        if not (length pixels == u64 (w * h * 4)) then (bad_length, p) else (
          ok,
          record p {
            last_frame_seq = frame_seq;
            pixels =
                paint_rows (magnitude q.b - magnitude q.t) (magnitude q.t) p.width (magnitude q.l) w
                  pixels p.pixels;
          },
        )

  unfoldable pub apply_pixel_data_body : List ℕ → PixelRenderer → ApplyResult × PixelRenderer
  unfolding apply_dirty_rect read_be32_from
  apply_pixel_data_body body p =
      if ltb (length body) pixel_data_header_size
      then (bad_length, p)
      else let q : UiRect = record {
        l = of_u32 (read_be32_from body 4);
        t = of_u32 (read_be32_from body 8);
        r = of_u32 (read_be32_from body 12);
        b = of_u32 (read_be32_from body 16);
      } in
        if not (read_be32_from body 20 == length body - pixel_data_header_size)
        then (bad_length, p)
        else apply_dirty_rect (read_be32_from body 0) q (drop pixel_data_header_size body) p

-- clip_rect, before its test for emptiness.
abbrev pub clip_rect : UiRect → ℕ → ℕ → UiRect
clip_rect q width height = record {
  l = larger (pos 0) q.l;
  t = larger (pos 0) q.t;
  r = smaller (pos width) q.r;
  b = smaller (pos height) q.b;
}

-- memcpy of `n` pixels.
unfoldable pub copy_row : ℕ → ℕ → ℕ → List ℕ → List ℕ → List ℕ
copy_row zero from at source dst = dst
copy_row (suc n) from at source dst =
    copy_row n (from + 1) (at + 1) source (set dst at (get_or source from 0))

-- `n` rows from row `y` on, `w` pixels from column `left` of both pictures.
unfoldable pub copy_rows : ℕ → ℕ → ℕ → ℕ → ℕ → ℕ → List ℕ → List ℕ → List ℕ
unfolding copy_row
copy_rows zero y from_stride to_stride left w source dst = dst
copy_rows (suc n) y from_stride to_stride left w source dst =
    copy_rows n (y + 1) from_stride to_stride left w source
      (copy_row w (y * from_stride + left) (y * to_stride + left) source dst)

-- The inner loop of `blit_scaled_to_fit`: `n` columns of row `y`, from column `x` on.
unfoldable pub scale_row : ℕ → ℕ → ℕ → ℕ → ℕ → PixelRenderer → List ℕ → List ℕ
scale_row zero x y dst_width src_y p dst = dst
scale_row (suc n) x y dst_width src_y p dst =
    let src_x = min (p.width - 1) (x * p.width / dst_width) in
    scale_row n (x + 1) y dst_width src_y p
      (set dst (y * dst_width + x) (get_or p.pixels (src_y * p.width + src_x) 0))

unfoldable pub scale_rows : ℕ → ℕ → ℕ → ℕ → ℕ → ℕ → PixelRenderer → List ℕ → List ℕ
unfolding scale_row
scale_rows zero y left w dst_width dst_height p dst = dst
scale_rows (suc n) y left w dst_width dst_height p dst =
    scale_rows n (y + 1) left w dst_width dst_height p
      (scale_row w left y dst_width (min (p.height - 1) (y * p.height / dst_height)) p dst)

unfoldable pub fill_row : ℕ → ℕ → ℕ → List ℕ → List ℕ
fill_row zero at color pixels = pixels
fill_row (suc n) at color pixels = fill_row n (at + 1) color (set pixels at color)

unfoldable pub fill_rows : ℕ → ℕ → ℕ → ℕ → ℕ → ℕ → List ℕ → List ℕ
unfolding fill_row
fill_rows zero y stride left w color pixels = pixels
fill_rows (suc n) y stride left w color pixels =
    fill_rows n (y + 1) stride left w color (fill_row w (y * stride + left) color pixels)

module _ (ops : RectOps) where
  unfoldable pub blit : List ℕ → ℕ → ℕ → UiRect → PixelRenderer → List ℕ
  unfolding copy_rows
  blit dst dst_width dst_height paint p =
      let clipped = clip_rect paint (min p.width dst_width) (min p.height dst_height) in
      if dst_width == 0 || dst_height == 0 || ops.is_empty clipped
      then dst
      else copy_rows (magnitude clipped.b - magnitude clipped.t) (magnitude clipped.t) p.width
          dst_width (magnitude clipped.l) (magnitude (ops.width clipped)) p.pixels dst

  unfoldable pub blit_scaled_to_fit : List ℕ → ℕ → ℕ → UiRect → PixelRenderer → List ℕ
  unfolding scale_rows
  blit_scaled_to_fit dst dst_width dst_height paint p =
      let clipped = clip_rect paint dst_width dst_height in
      if dst_width == 0 || dst_height == 0 || ops.is_empty clipped
      then dst
      else scale_rows (magnitude clipped.b - magnitude clipped.t) (magnitude clipped.t)
          (magnitude clipped.l) (magnitude clipped.r - magnitude clipped.l) dst_width dst_height p
          dst

module _ (colors : Colors) where
  abbrev pub default_renderer : PixelRenderer
  default_renderer = record {
    width = 32;
    height = 16;
    last_frame_seq = 0;
    pixels = replicate (32 * 16) colors.blue;
  }

  unfoldable pub paint_demo : Bool → Bool → PixelRenderer → PixelRenderer
  unfolding fill_rows
  paint_demo yellow_rect cyan_background p =
      let bg = if cyan_background then colors.cyan else colors.blue in
      let left = min 8 p.width in
      let top = min 4 p.height in
      record p {
        last_frame_seq = u32 (p.last_frame_seq + 1);
        pixels =
            fill_rows (min 12 p.height - top) top p.width left (min 16 p.width - left)
              (if yellow_rect then colors.yellow else colors.green)
              (replicate (length p.pixels) bg);
      }
