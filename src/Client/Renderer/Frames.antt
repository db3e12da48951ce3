-- ===== src/Client/Renderer/Frames.antt =====
-- A frame on its way from src/apphost/pixel_capture.cpp to src/client/pixel_renderer.cpp.
use protocol_design.Prelude.{
  ℕ, ◌+◌, ◌-◌, ◌*◌, ◌^◌, ◌≤◌, ◌<◌, ◌≡◌, refl, sym, ap, ◌∙◌, List, [], Bool, false, ◌&&◌, some,
  if◌then◌else◌, ltb, leb, length, get_or, arith, All, append-nil, u32, u64,
}
use native.Mathlib.Nat.{mul_assoc, mul_comm, mul_left_comm, mul-le-mul_right}
use protocol_design.Common.InputEvent.{and_then}
use protocol_design.Prelude.Int.{pos}
use protocol_design.Common.Rect.{RectOps, IsRectOps, rect}
use protocol_design.Apphost.PixelCapture.{pack_rows, pack_pixel_data_rect}
use protocol_design.Client.Renderer.{
  PixelRenderer, Colors, ApplyResult, ok, paint_rows, copy_rows, apply_dirty_rect,
  apply_pixel_data_body,
}
use protocol_design.Client.Renderer.Painting.{get_or-copy_rows}
use protocol_design.Client.Renderer.Rows.{
  IsQuad, IsPixel, wire32-digits, length-pack_rows, paint_rows-pack_rows, fields, apply_fields,
}

-- A rectangle of the client's picture, as 31-bit coordinates of a frame that fits a packet.
pub record IsFrame (p : PixelRenderer) (seq left top right bottom : ℕ) : Type 0 where
  pub ordered_x : left < right
  pub ordered_y : top < bottom
  pub fits_x : right ≤ p.width
  pub fits_y : bottom ≤ p.height
  pub width_ok : p.width < 2 ^ 31
  pub height_ok : p.height < 2 ^ 31
  pub seq_ok : seq < 2 ^ 32
  pub fresh : p.last_frame_seq ≤ seq
  pub size_ok : (right - left) * (bottom - top) * 4 < 2 ^ 32
  pub backed : length p.pixels ≡ p.width * p.height

module _ (little : Bool) (ops : RectOps) (laws : IsRectOps ops) (colors : Colors)
    (quad : IsQuad colors) (buffer : List ℕ) (stride : ℕ) (v : All IsPixel buffer)
    (p : PixelRenderer) (seq left top right bottom : ℕ)
    (f : IsFrame p seq left top right bottom) where
  abbrev w : ℕ
  w = right - left

  abbrev h : ℕ
  h = bottom - top

  rows : List ℕ
  rows = pack_rows little h top stride left w buffer

  length-rows : length rows ≡ w * h * 4
  unfolding rows
  length-rows =
      length-pack_rows little h top stride left w buffer v
      ∙ mul_left_comm h w 4
      ∙ sym (mul_assoc w h 4)

  packed :
      pack_pixel_data_rect little buffer stride left top right bottom seq
      ≡ some (fields seq left top right bottom (w * h * 4) rows)
  unfolding pack_pixel_data_rect rows
  packed =
      let size : u32 (w * h * 4) ≡ w * h * 4 = omega (arith, f.size_ok) in
      rw
        (
          size,
          wire32-digits little seq f.seq_ok,
          wire32-digits little left (omega (arith, f.ordered_x, f.fits_x, f.width_ok)),
          wire32-digits little top (omega (arith, f.ordered_y, f.fits_y, f.height_ok)),
          wire32-digits little right (omega (arith, f.fits_x, f.width_ok)),
          wire32-digits little bottom (omega (arith, f.fits_y, f.height_ok)),
          wire32-digits little (w * h * 4) (omega (arith, f.size_ok)),
        )
        (ground arith)

  painted : apply_dirty_rect ops colors seq (rect left top right bottom) rows p ≡ (
    ok,
    record p {
      last_frame_seq = seq;
      pixels = copy_rows h top stride p.width left w buffer p.pixels;
    },
  )
  unfolding apply_dirty_rect rows
  painted =
      let same : paint_rows ops colors h top p.width left w rows p.pixels
          ≡ copy_rows h top stride p.width left w buffer p.pixels =
        ap (λ z. paint_rows ops colors h top p.width left w z p.pixels) (sym (append-nil rows))
        ∙ paint_rows-pack_rows little colors quad ops h top stride p.width left w buffer [] p.pixels
            v in
      let wide : ops.width (rect left top right bottom) ≡ pos (right - left) =
        laws.width_ok left right (pos top) (pos bottom) (ground (arith, f.ordered_x)) in
      let high : ops.height (rect left top right bottom) ≡ pos (bottom - top) =
        laws.height_ok top bottom (pos left) (pos right) (ground (arith, f.ordered_y)) in
      let has_pixels : ops.is_empty (rect left top right bottom) ≡ false =
        laws.empty_ok (rect left top right bottom) ∙ ground (arith, f.ordered_x, f.ordered_y) in
      let size : u64 (w * h * 4) ≡ w * h * 4 = omega (arith, f.size_ok) in
      let whole : length rows ≡ w * h * 4 = length-rows in
      rw (wide, high, has_pixels, size, whole, same) (ground (arith, f.fresh, f.fits_x, f.fits_y))

  applied :
      apply_pixel_data_body ops colors (fields seq left top right bottom (w * h * 4) rows) p ≡ (
        ok,
        record p {
          last_frame_seq = seq;
          pixels = copy_rows h top stride p.width left w buffer p.pixels;
        },
      )
  applied =
      apply_fields seq left top right bottom (w * h * 4) rows f.seq_ok
        (omega (arith, f.ordered_x, f.fits_x, f.width_ok))
        (omega (arith, f.ordered_y, f.fits_y, f.height_ok)) (omega (arith, f.fits_x, f.width_ok))
        (omega (arith, f.fits_y, f.height_ok)) (omega (arith, f.size_ok)) ops colors p length-rows
      ∙ painted

  -- The body that is packed, and what it paints.
  pub frame :
      (body : List ℕ) × ((pack_pixel_data_rect little buffer stride left top right bottom seq
          ≡ some body)
        × (apply_pixel_data_body ops colors body p ≡ (
          ok,
          record p {
            last_frame_seq = seq;
            pixels =
                copy_rows (bottom - top) top stride p.width left (right - left) buffer p.pixels;
          },
        )))
  frame = (fields seq left top right bottom (w * h * 4) rows, (packed, applied))

  pub room : (top + (bottom - top)) * p.width ≤ length p.pixels
  room = omega (
    arith,
    f.backed,
    mul_comm p.width p.height,
    mul-le-mul_right {m = top + h} {n = p.height} p.width (omega (arith, f.ordered_y, f.fits_y)),
  )

  -- A dirty rectangle that the application host packs is accepted by the client's renderer: the sequence
  -- number of the frame is stored, every pixel in the rectangle becomes the one of the host's buffer,
  -- and no other pixel changes. The rectangle has a pixel and lies in the client's picture, the
  -- frame is not older than the last one and fits the 32-bit length field.
  pub apply_pixel_data_body-pack_pixel_data_rect :
      (x y : ℕ)
      → x < p.width
      → and_then {B = ApplyResult × (ℕ × ℕ)}
          (pack_pixel_data_rect little buffer stride left top right bottom seq)
          (λ body.
            let r = apply_pixel_data_body ops colors body p in
            some (r.0, (r.1.last_frame_seq, get_or r.1.pixels (y * p.width + x) 0)))
        ≡ some (
          ok,
          (
            seq,
            if (leb top y && ltb y bottom) && (leb left x && ltb x right)
                then get_or buffer (y * stride + x) 0
                else get_or p.pixels (y * p.width + x) 0,
          ),
        )
  apply_pixel_data_body-pack_pixel_data_rect x y hx =
      let cols : left + w ≡ right = omega (arith, f.ordered_x) in
      let lines : top + h ≡ bottom = omega (arith, f.ordered_y) in
      rw
        (
          packed,
          applied,
          get_or-copy_rows h top stride p.width left w buffer p.pixels x y hx
              (omega (arith, f.ordered_x, f.fits_x)) room,
          cols,
          lines,
        )
        refl
