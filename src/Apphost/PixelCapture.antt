-- ===== src/Apphost/PixelCapture.antt =====
-- src/apphost/pixel_capture.cpp: rectangles of a pixel buffer, as bytes. The coordinates are those of
-- a rectangle that the caller has clipped: they are not negative, and right and bottom are not less
-- than left and top. A write past the end of the body is `none`.
use protocol_design.Prelude.{
  ℕ, zero, suc, ◌+◌, ◌-◌, ◌*◌, List, [], ◌++◌, Bool, Option, none, some, if◌then◌else◌, ltb, take,
  drop, get_or, u32,
}
use protocol_design.Common.ByteOrder.{be32, native32}

-- The rows of `capture_rect`, from the one at `row` on.
unfoldable pub capture_rows : ℕ → List ℕ → ℕ → ℕ → ℕ → ℕ → List ℕ
capture_rows zero pixels stride left y w = []
capture_rows (suc n) pixels stride left y w =
    take (w * 4) (drop ((y * stride + left) * 4) pixels)
    ++ capture_rows n pixels stride left (y + 1) w

unfoldable pub capture_rect : List ℕ → ℕ → ℕ → ℕ → ℕ → ℕ → List ℕ
unfolding capture_rows
capture_rect pixels stride left top right bottom =
    capture_rows (bottom - top) pixels stride left top (right - left)

-- `little` is the byte order of the host.
module _ (little : Bool) where
  abbrev pub wire32 : ℕ → List ℕ
  wire32 v = native32 little (be32 little v)

  -- `n` pixels of a row, the first at `from` in the buffer.
  unfoldable pub pack_row : ℕ → ℕ → List ℕ → List ℕ
  pack_row zero from buffer = []
  pack_row (suc n) from buffer = wire32 (get_or buffer from 0) ++ pack_row n (from + 1) buffer

  unfoldable pub pack_rows : ℕ → ℕ → ℕ → ℕ → ℕ → List ℕ → List ℕ
  unfolding pack_row
  pack_rows zero y stride left w buffer = []
  pack_rows (suc n) y stride left w buffer =
      pack_row w (y * stride + left) buffer ++ pack_rows n (y + 1) stride left w buffer

  unfoldable pub pack_pixel_data_rect : List ℕ → ℕ → ℕ → ℕ → ℕ → ℕ → ℕ → Option (List ℕ)
  unfolding pack_rows
  pack_pixel_data_rect buffer stride left top right bottom frame_seq =
      let w = right - left in
      let h = bottom - top in
      let data_len = u32 (w * h * 4) in
      if ltb data_len (w * h * 4)
      then none
      else some (
          wire32 frame_seq
          ++ (wire32 left
              ++ (wire32 top
                  ++ (wire32 right
                      ++ (wire32 bottom
                          ++ (wire32 data_len ++ pack_rows h top stride left w buffer))))))
