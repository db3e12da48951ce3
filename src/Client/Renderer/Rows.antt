-- ===== src/Client/Renderer/Rows.antt =====
-- The pixels and the fields of a frame, as src/apphost/pixel_capture.cpp writes them and as
-- src/client/pixel_renderer.cpp reads them.
use protocol_design.Prelude.{
  ℕ, zero, suc, ◌+◌, ◌*◌, ◌^◌, ◌<◌, ◌≡◌, refl, sym, ap, ◌∙◌, List, [], ◌∷◌, ◌++◌, Bool, length,
  get_or, set, arith, All, All-get_or, append_assoc, length-append, drop-append_self,
}
use native.Mathlib.Nat.{suc-mul}
use protocol_design.Prelude.Int.{pos, of_u32}
use protocol_design.Protocol.Wire.{join4}
use protocol_design.Common.ByteOrder.{digit}
use protocol_design.Common.ByteOrder.Swaps.{native32-be32}
use protocol_design.Common.Rect.{RectOps, rect}
use protocol_design.Apphost.PixelCapture.{wire32, pack_row, pack_rows}
use protocol_design.Client.Renderer.{
  PixelRenderer, Colors, read_be32_from, argb_to_color_quad, paint_row, paint_rows, copy_row,
  copy_rows, apply_dirty_rect, apply_pixel_data_body,
}

-- COLOR_QUAD_MAKE puts alpha, red, green and blue into one number, most significant first.
abbrev pub IsQuad : Colors → Type 0
IsQuad colors = (r g b a : ℕ) → colors.quad r g b a ≡ a * 2 ^ 24 + r * 2 ^ 16 + g * 2 ^ 8 + b

abbrev pub IsPixel : ℕ → Type 0
IsPixel v = v < 2 ^ 32

digits-sum :
    (v : ℕ)
    → v < 2 ^ 32
    → digit 3 v * 2 ^ 24 + digit 2 v * 2 ^ 16 + digit 1 v * 2 ^ 8 + digit 0 v ≡ v
digits-sum v h = omega arith

module _ (little : Bool) where
  pub wire32-digits :
      (v : ℕ) → v < 2 ^ 32 → wire32 little v ≡ digit 3 v ∷ digit 2 v ∷ digit 1 v ∷ digit 0 v ∷ []
  wire32-digits v h = native32-be32 little v h

  pub length-wire32 : (v : ℕ) → v < 2 ^ 32 → length (wire32 little v) ≡ 4
  length-wire32 v h = ap length (wire32-digits v h)

  length-pack_row :
      (n from : ℕ) (buffer : List ℕ)
      → All IsPixel buffer
      → length (pack_row little n from buffer) ≡ n * 4
  unfolding pack_row
  length-pack_row zero from buffer v = refl
  length-pack_row (suc n) from buffer v =
      let fits = All-get_or IsPixel buffer from 0 v (omega arith) in
      omega (
        arith,
        length-append (wire32 little (get_or buffer from 0)) (pack_row little n (from + 1) buffer),
        length-wire32 (get_or buffer from 0) fits,
        length-pack_row n (from + 1) buffer v,
      )

  pub length-pack_rows :
      (n y stride left w : ℕ) (buffer : List ℕ)
      → All IsPixel buffer
      → length (pack_rows little n y stride left w buffer) ≡ n * (w * 4)
  unfolding pack_rows
  length-pack_rows zero y stride left w buffer v = omega arith
  length-pack_rows (suc n) y stride left w buffer v =
      let row = pack_row little w (y * stride + left) buffer in
      omega (
        arith,
        length-append row (pack_rows little n (y + 1) stride left w buffer),
        length-pack_row w (y * stride + left) buffer v,
        length-pack_rows n (y + 1) stride left w buffer v,
        suc-mul n (w * 4),
      )

  module _ (colors : Colors) (quad : IsQuad colors) (ops : RectOps) where
    paint_row-pack_row :
        (n from at : ℕ) (buffer rest pixels : List ℕ)
        → All IsPixel buffer
        → paint_row ops colors n at (pack_row little n from buffer ++ rest) pixels
          ≡ copy_row n from at buffer pixels
    unfolding paint_row pack_row copy_row argb_to_color_quad
    paint_row-pack_row zero from at buffer rest pixels v = refl
    paint_row-pack_row (suc n) from at buffer rest pixels v =
        let q = get_or buffer from 0 in
        let fits = All-get_or IsPixel buffer from 0 v (omega arith) in
        rw
          (
            wire32-digits q fits,
            quad (digit 2 q) (digit 1 q) (digit 0 q) (digit 3 q),
            digits-sum q fits,
          )
          (paint_row-pack_row n (from + 1) (at + 1) buffer rest (set pixels at q) v)

    pub paint_rows-pack_rows :
        (n y from_stride to_stride left w : ℕ) (buffer rest pixels : List ℕ)
        → All IsPixel buffer
        → paint_rows ops colors n y to_stride left w
            (pack_rows little n y from_stride left w buffer ++ rest)
            pixels
          ≡ copy_rows n y from_stride to_stride left w buffer pixels
    unfolding paint_rows pack_rows copy_rows
    paint_rows-pack_rows zero y from_stride to_stride left w buffer rest pixels v = refl
    paint_rows-pack_rows (suc n) y from_stride to_stride left w buffer rest pixels v =
        let row = pack_row little w (y * from_stride + left) buffer in
        let later = pack_rows little n (y + 1) from_stride left w buffer in
        rw
          (
            append_assoc row later rest,
            paint_row-pack_row w (y * from_stride + left) (y * to_stride + left) buffer
                (later ++ rest) pixels v,
            drop-append_self (w * 4) row (later ++ rest)
                (sym (length-pack_row w (y * from_stride + left) buffer v)),
          )
          (paint_rows-pack_rows n (y + 1) from_stride to_stride left w buffer rest
            (copy_row w (y * from_stride + left) (y * to_stride + left) buffer pixels) v)

-- The 24 bytes of fields before the pixels.
abbrev pub digits4 : ℕ → List ℕ → List ℕ
digits4 v rest = digit 3 v ∷ digit 2 v ∷ digit 1 v ∷ digit 0 v ∷ rest

abbrev pub fields : ℕ → ℕ → ℕ → ℕ → ℕ → ℕ → List ℕ → List ℕ
fields seq l t r b len rest =
    digits4 seq (digits4 l (digits4 t (digits4 r (digits4 b (digits4 len rest)))))

read_be32_from-digits4 :
    (v : ℕ) (rest : List ℕ) → v < 2 ^ 32 → read_be32_from (digits4 v rest) 0 ≡ v
unfolding read_be32_from
read_be32_from-digits4 v rest h =
    join4 (digit 3 v) (digit 2 v) (digit 1 v) (digit 0 v) (omega arith) (omega arith) (omega arith)
      (omega arith)
    ∙ omega arith

module _ (seq l t r b len : ℕ) (rest : List ℕ) (hs : seq < 2 ^ 32) (hl : l < 2 ^ 31)
    (ht : t < 2 ^ 31) (hr : r < 2 ^ 31) (hb : b < 2 ^ 31) (hn : len < 2 ^ 32) where
  abbrev body : List ℕ
  body = fields seq l t r b len rest

  read_seq : read_be32_from body 0 ≡ seq
  unfolding read_be32_from
  read_seq = read_be32_from-digits4 seq [] hs

  read_left : read_be32_from body 4 ≡ l
  unfolding read_be32_from
  read_left = read_be32_from-digits4 l [] (omega arith)

  read_top : read_be32_from body 8 ≡ t
  unfolding read_be32_from
  read_top = read_be32_from-digits4 t [] (omega arith)

  read_right : read_be32_from body 12 ≡ r
  unfolding read_be32_from
  read_right = read_be32_from-digits4 r [] (omega arith)

  read_bottom : read_be32_from body 16 ≡ b
  unfolding read_be32_from
  read_bottom = read_be32_from-digits4 b [] (omega arith)

  read_len : read_be32_from body 20 ≡ len
  unfolding read_be32_from
  read_len = read_be32_from-digits4 len [] hn

  pub apply_fields :
      (ops : RectOps) (colors : Colors) (p : PixelRenderer)
      → length rest ≡ len
      → apply_pixel_data_body ops colors body p
        ≡ apply_dirty_rect ops colors seq (rect l t r b) rest p
  unfolding apply_pixel_data_body
  apply_fields ops colors p e =
      let of : (v : ℕ) → v < 2 ^ 31 → of_u32 v ≡ pos v = λ v h. ground (arith, h) in
      rw
        (
          read_seq,
          read_left,
          read_top,
          read_right,
          read_bottom,
          read_len,
          of l hl,
          of t ht,
          of r hr,
          of b hb,
        )
        (ground (arith, e))
