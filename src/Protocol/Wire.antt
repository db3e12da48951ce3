-- ===== src/Protocol/Wire.antt =====
-- The header's wire form (src/protocol/protocol.cpp) in arithmetic, and its round trips.
use protocol_design.Prelude.{
  ℕ, zero, suc, ◌+◌, ◌*◌, ◌/◌, ◌%◌, ◌^◌, ◌≤◌, ◌<◌, ◌≡◌, refl, ◌∙◌, List, [], ◌∷◌, ◌++◌, arith,
  bit_and, bit_or, length, take, drop, All-get_or, get_or, get_or-append_left, All, IsByte,
}
use protocol_design.Prelude.Bits.{and_byte, or_disjoint}
use protocol_design.Protocol.{Header, serialize_header, deserialize_header, be16_at, be32_at}

and_byte-lt : (a : ℕ) → bit_and a 255 < 256
and_byte-lt a = omega (arith, and_byte a)

-- Four bytes joined by shifts and `|` are a number in base 256.
pub join4 :
    (a b c d : ℕ)
    → a < 256
    → b < 256
    → c < 256
    → d < 256
    → bit_or (bit_or (bit_or (a * 2 ^ 24 % 2 ^ 32) (b * 2 ^ 16 % 2 ^ 32)) (c * 2 ^ 8 % 2 ^ 32)) d
      ≡ a * 16777216 + b * 65536 + c * 256 + d
join4 a b c d ha hb hc hd = ground (
  arith,
  or_disjoint 24 a (b * 65536),
  or_disjoint 16 (a * 256 + b) (c * 256),
  or_disjoint 8 (a * 65536 + b * 256 + c) d,
)

pub join2 : (a b : ℕ) → a < 256 → b < 256 → bit_or (a * 2 ^ 8) b % 2 ^ 16 ≡ a * 256 + b
join2 a b ha hb = ground (arith, or_disjoint 8 a b)

-- A word taken apart by shifts and masks, and put together again.
pub split4_join4 :
    (v : ℕ)
    → v < 2 ^ 32
    → bit_or
        (bit_or
          (bit_or
            (bit_and (v / 2 ^ 24) 255 * 2 ^ 24 % 2 ^ 32)
            (bit_and (v / 2 ^ 16) 255 * 2 ^ 16 % 2 ^ 32))
          (bit_and (v / 2 ^ 8) 255 * 2 ^ 8 % 2 ^ 32))
        (bit_and v 255)
      ≡ v
split4_join4 v h =
    rw (and_byte (v / 2 ^ 24), and_byte (v / 2 ^ 16), and_byte (v / 2 ^ 8), and_byte v)
      (join4 _ _ _ _ (omega arith) (omega arith) (omega arith) (omega arith) ∙ omega arith)

pub split2_join2 :
    (v : ℕ) → v < 2 ^ 16 → bit_or (bit_and (v / 2 ^ 8) 255 * 2 ^ 8) (bit_and v 255) % 2 ^ 16 ≡ v
split2_join2 v h =
    rw (and_byte (v / 2 ^ 8), and_byte v) (join2 _ _ (omega arith) (omega arith) ∙ omega arith)

-- The ranges of the C++ fields.
pub record IsHeader (h : Header) : Type 0 where
  pub magic_fits : h.magic < 2 ^ 16
  pub session_id_fits : h.session_id < 2 ^ 32
  pub cmd_type_fits : h.cmd_type < 2 ^ 8
  pub body_length_fits : h.body_length < 2 ^ 32
  pub reserved_fits : h.reserved < 2 ^ 16

pub length-serialize_header : (h : Header) → length (serialize_header h) ≡ 13
unfolding serialize_header
length-serialize_header h = refl

pub serialize_header-bytes : (h : Header) → All IsByte (serialize_header h)
unfolding serialize_header
serialize_header-bytes h = omega (arith, and_byte-lt)

-- Reading a header, whose fields fit their widths, from the bytes that `serialize_header` wrote
-- gives it back, whatever follows.
pub deserialize-serialize :
    (h : Header) (rest : List ℕ) → IsHeader h → deserialize_header (serialize_header h ++ rest) ≡ h
unfolding serialize_header deserialize_header
deserialize-serialize h rest v = λ i. record {
  magic = split2_join2 h.magic v.magic_fits i;
  session_id = split4_join4 h.session_id v.session_id_fits i;
  cmd_type = cmd i;
  body_length = split4_join4 h.body_length v.body_length_fits i;
  reserved = split2_join2 h.reserved v.reserved_fits i;
}
  where
    cmd : h.cmd_type % 2 ^ 8 ≡ h.cmd_type
    cmd = omega arith

-- The header read depends on the first 13 bytes only.
pub deserialize-append :
    (s t : List ℕ) → 13 ≤ length s → deserialize_header (s ++ t) ≡ deserialize_header s
unfolding deserialize_header
deserialize-append s t h =
    rw
      (
        at 0 (omega arith),
        at 1 (omega arith),
        at 2 (omega arith),
        at 3 (omega arith),
        at 4 (omega arith),
        at 5 (omega arith),
        at 6 (omega arith),
        at 7 (omega arith),
        at 8 (omega arith),
        at 9 (omega arith),
        at 10 (omega arith),
        at 11 (omega arith),
        at 12 (omega arith),
      )
      refl
  where
    at : (i : ℕ) → i < 13 → get_or (s ++ t) i 0 ≡ get_or s i 0
    at i p = get_or-append_left s t i 0 (omega arith)

be32_at-lt : (s : List ℕ) (i : ℕ) → All IsByte s → be32_at s i < 2 ^ 32
unfolding be32_at
be32_at-lt s i b =
    rw (join4 _ _ _ _ (at i) (at (i + 1)) (at (i + 2)) (at (i + 3)))
      (omega (arith, at i, at (i + 1), at (i + 2), at (i + 3)))
  where
    at : (j : ℕ) → get_or s j 0 < 256
    at j = All-get_or IsByte s j 0 b (omega arith)

-- What `deserialize_header` reads from bytes is in the ranges of the C++ fields.
pub deserialize-IsHeader : (s : List ℕ) → All IsByte s → IsHeader (deserialize_header s)
unfolding deserialize_header
deserialize-IsHeader s b = record {
  magic_fits = omega arith;
  session_id_fits = be32_at-lt s 2 b;
  cmd_type_fits = All-get_or IsByte s 6 0 b (omega arith);
  body_length_fits = be32_at-lt s 7 b;
  reserved_fits = omega arith;
}

-- The bytes of a joined word are its parts.
join4_split4 :
    (a b c d : ℕ)
    → a < 256
    → b < 256
    → c < 256
    → d < 256
    → let v =
        bit_or
          (bit_or (bit_or (a * 2 ^ 24 % 2 ^ 32) (b * 2 ^ 16 % 2 ^ 32)) (c * 2 ^ 8 % 2 ^ 32))
          d in
      (bit_and (v / 2 ^ 24) 255 ≡ a)
      × (bit_and (v / 2 ^ 16) 255 ≡ b)
      × (bit_and (v / 2 ^ 8) 255 ≡ c)
      × (bit_and v 255 ≡ d)
join4_split4 a b c d ha hb hc hd = rw (join4 a b c d ha hb hc hd) (omega (arith, and_byte))

join2_split2 :
    (a b : ℕ)
    → a < 256
    → b < 256
    → let v = bit_or (a * 2 ^ 8) b % 2 ^ 16 in (bit_and (v / 2 ^ 8) 255 ≡ a) × (bit_and v 255 ≡ b)
join2_split2 a b ha hb = rw (join2 a b ha hb) (omega (arith, and_byte))

take_next :
    (n i : ℕ) (s : List ℕ)
    → i < length s
    → take (suc n) (drop i s) ≡ get_or s i 0 ∷ take n (drop (suc i) s)
take_next n i [] h = absurd (omega arith)
take_next n zero (x ∷ s) h = refl
take_next n (suc i) (x ∷ s) h = take_next n i s (omega arith)

first_13 :
    (s : List ℕ)
    → 13 ≤ length s
    → take 13 s
      ≡ get_or s 0 0
        ∷ get_or s 1 0
        ∷ get_or s 2 0
        ∷ get_or s 3 0
        ∷ get_or s 4 0
        ∷ get_or s 5 0
        ∷ get_or s 6 0
        ∷ get_or s 7 0
        ∷ get_or s 8 0
        ∷ get_or s 9 0
        ∷ get_or s 10 0
        ∷ get_or s 11 0
        ∷ get_or s 12 0
        ∷ []
first_13 s h =
    rw
      (
        take_next 12 0 s (omega arith),
        take_next 11 1 s (omega arith),
        take_next 10 2 s (omega arith),
        take_next 9 3 s (omega arith),
        take_next 8 4 s (omega arith),
        take_next 7 5 s (omega arith),
        take_next 6 6 s (omega arith),
        take_next 5 7 s (omega arith),
        take_next 4 8 s (omega arith),
        take_next 3 9 s (omega arith),
        take_next 2 10 s (omega arith),
        take_next 1 11 s (omega arith),
        take_next 0 12 s (omega arith),
      )
      refl

-- Writing a header that was read from 13 bytes or more gives back the first 13.
pub serialize-deserialize :
    (s : List ℕ)
    → 13 ≤ length s
    → All IsByte s
    → serialize_header (deserialize_header s) ≡ take 13 s
unfolding serialize_header deserialize_header be16_at be32_at
serialize-deserialize s h b =
    let id = join4_split4 _ _ _ _ (at 2) (at 3) (at 4) (at 5) in
    let len = join4_split4 _ _ _ _ (at 7) (at 8) (at 9) (at 10) in
    let magic = join2_split2 _ _ (at 0) (at 1) in
    let reserved = join2_split2 _ _ (at 11) (at 12) in
    let cmd : get_or s 6 0 % 2 ^ 8 ≡ get_or s 6 0 = omega (arith, at 6) in
    rw
      (
        first_13 s h,
        magic.0,
        magic.1,
        id.0,
        id.1,
        id.2,
        id.3,
        cmd,
        len.0,
        len.1,
        len.2,
        len.3,
        reserved.0,
        reserved.1,
      )
      refl
  where
    at : (j : ℕ) → get_or s j 0 < 256
    at j = All-get_or IsByte s j 0 b (omega arith)
