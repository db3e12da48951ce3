-- ===== src/Common/ByteOrder.antt =====
-- src/common/byte_order.h: the byte swaps as the macros write them, and a host's memory. `little`
-- is PROTOCOL_LITTLE_ENDIAN.
pub mod Swaps
use protocol_design.Prelude.{
  ℕ, ◌+◌, ◌*◌, ◌/◌, ◌%◌, ◌^◌, List, [], ◌∷◌, Bool, true, false, if◌then◌else◌, get_or, bit_and,
  bit_or, u16, u32, u64, ◌>>>◌, ◌<<<◌,
}

unfoldable pub bswap16 : ℕ → ℕ
bswap16 x = u16 (bit_or (u16 x >>> 8) (u16 x <<< 8))

unfoldable pub bswap32 : ℕ → ℕ
bswap32 x = u32 (
    bit_or
      (bit_or (bit_or (bit_and (u32 x) 0xff000000 >>> 24) (bit_and (u32 x) 0x00ff0000 >>> 8))
        (u32 (bit_and (u32 x) 0x0000ff00 <<< 8)))
      (u32 (bit_and (u32 x) 0x000000ff <<< 24)))

unfoldable pub bswap64 : ℕ → ℕ
bswap64 x = u64 (
    bit_or
      (bit_or
        (bit_or
          (bit_or
            (bit_or
              (bit_or
                (bit_or (bit_and (u64 x) 0xff00000000000000 >>> 56)
                  (bit_and (u64 x) 0x00ff000000000000 >>> 40))
                (bit_and (u64 x) 0x0000ff0000000000 >>> 24))
              (bit_and (u64 x) 0x000000ff00000000 >>> 8))
            (u64 (bit_and (u64 x) 0x00000000ff000000 <<< 8)))
          (u64 (bit_and (u64 x) 0x0000000000ff0000 <<< 24)))
        (u64 (bit_and (u64 x) 0x000000000000ff00 <<< 40)))
      (u64 (bit_and (u64 x) 0x00000000000000ff <<< 56)))

unfoldable pub be16 : Bool → ℕ → ℕ
be16 little x = if little then bswap16 x else u16 x

unfoldable pub be32 : Bool → ℕ → ℕ
be32 little x = if little then bswap32 x else u32 x

unfoldable pub be64 : Bool → ℕ → ℕ
be64 little x = if little then bswap64 x else u64 x

-- The byte of weight 256 ^ k.
abbrev pub digit : ℕ → ℕ → ℕ
digit k v = v / 2 ^ (8 * k) % 256

-- The bytes of an integer in the host's memory.
abbrev pub native16 : Bool → ℕ → List ℕ
native16 little v = if little then digit 0 v ∷ digit 1 v ∷ [] else digit 1 v ∷ digit 0 v ∷ []

abbrev pub native32 : Bool → ℕ → List ℕ
native32 little v =
    if little
    then digit 0 v ∷ digit 1 v ∷ digit 2 v ∷ digit 3 v ∷ []
    else digit 3 v ∷ digit 2 v ∷ digit 1 v ∷ digit 0 v ∷ []

abbrev pub native64 : Bool → ℕ → List ℕ
native64 little v =
    if little
    then digit 0 v
      ∷ digit 1 v
      ∷ digit 2 v
      ∷ digit 3 v
      ∷ digit 4 v
      ∷ digit 5 v
      ∷ digit 6 v
      ∷ digit 7 v
      ∷ []
    else digit 7 v
      ∷ digit 6 v
      ∷ digit 5 v
      ∷ digit 4 v
      ∷ digit 3 v
      ∷ digit 2 v
      ∷ digit 1 v
      ∷ digit 0 v
      ∷ []
