-- ===== src/Common/ByteOrder/Swaps.antt =====
-- What the swaps of src/common/byte_order.h do to the bytes of a number, on every host.
use protocol_design.Prelude.{
  ℕ, ◌+◌, ◌*◌, ◌/◌, ◌%◌, ◌^◌, ◌<◌, ◌≡◌, sym, ap, ◌∙◌, [], ◌∷◌, Bool, true, false, if◌then◌else◌,
  bit_and, u16, u32, u64, arith,
}
use protocol_design.Prelude.Bits.{and_byte, and_shifted, or_disjoint_right}
use protocol_design.Common.ByteOrder.{
  bswap16, bswap32, bswap64, be16, be32, be64, digit, native16, native32, native64,
}

-- One byte of a word, cut out by its mask.
masked :
    (k : ℕ) (x : ℕ)
    → x / 2 ^ k * 2 ^ k + x % 2 ^ k ≡ x
    → x % 2 ^ k < 2 ^ k
    → bit_and x (255 * 2 ^ k) ≡ x / 2 ^ k % 256 * 2 ^ k
masked k x e l =
    ap (λ z. bit_and z (255 * 2 ^ k)) (sym e)
    ∙ and_shifted k (x / 2 ^ k) (x % 2 ^ k) 255 l
    ∙ ap (λ z. z * 2 ^ k) (and_byte (x / 2 ^ k))

bswap16-digits : (x : ℕ) → x < 2 ^ 16 → bswap16 x ≡ digit 0 x * 2 ^ 8 + digit 1 x
unfolding bswap16
bswap16-digits x h = rw cast (ground (arith, or_disjoint_right 8 x (x / 2 ^ 8) (omega arith)))
  where
    cast : u16 x ≡ x
    cast = omega arith

bswap32-digits :
    (x : ℕ)
    → x < 2 ^ 32
    → bswap32 x ≡ digit 0 x * 2 ^ 24 + digit 1 x * 2 ^ 16 + digit 2 x * 2 ^ 8 + digit 3 x
unfolding bswap32
bswap32-digits x h =
    rw
      (
        cast,
        masked 24 x (omega arith) (omega arith),
        masked 16 x (omega arith) (omega arith),
        masked 8 x (omega arith) (omega arith),
        masked 0 x (omega arith) (omega arith),
      )
      (ground (
        arith,
        or_disjoint_right 8 (digit 2 x) (digit 3 x) (omega arith),
        or_disjoint_right 16 (digit 1 x) (digit 2 x * 2 ^ 8 + digit 3 x) (omega arith),
        or_disjoint_right 24 (digit 0 x) (digit 1 x * 2 ^ 16 + (digit 2 x * 2 ^ 8 + digit 3 x))
            (omega arith),
      ))
  where
    cast : u32 x ≡ x
    cast = omega arith

bswap64-digits :
    (x : ℕ)
    → x < 2 ^ 64
    → bswap64 x
      ≡ digit 0 x * 2 ^ 56
        + digit 1 x * 2 ^ 48
        + digit 2 x * 2 ^ 40
        + digit 3 x * 2 ^ 32
        + digit 4 x * 2 ^ 24
        + digit 5 x * 2 ^ 16
        + digit 6 x * 2 ^ 8
        + digit 7 x
unfolding bswap64
bswap64-digits x h =
    rw
      (
        cast,
        masked 56 x (omega arith) (omega arith),
        masked 48 x (omega arith) (omega arith),
        masked 40 x (omega arith) (omega arith),
        masked 32 x (omega arith) (omega arith),
        masked 24 x (omega arith) (omega arith),
        masked 16 x (omega arith) (omega arith),
        masked 8 x (omega arith) (omega arith),
        masked 0 x (omega arith) (omega arith),
      )
      (ground (
        arith,
        or_disjoint_right 8 (digit 6 x) (digit 7 x) (omega arith),
        or_disjoint_right 16 (digit 5 x) (digit 6 x * 2 ^ 8 + digit 7 x) (omega arith),
        or_disjoint_right 24 (digit 4 x) (digit 5 x * 2 ^ 16 + (digit 6 x * 2 ^ 8 + digit 7 x))
            (omega arith),
        or_disjoint_right 32 (digit 3 x)
            (digit 4 x * 2 ^ 24 + (digit 5 x * 2 ^ 16 + (digit 6 x * 2 ^ 8 + digit 7 x)))
            (omega arith),
        or_disjoint_right 40 (digit 2 x)
            (digit 3 x * 2 ^ 32
              + (digit 4 x * 2 ^ 24 + (digit 5 x * 2 ^ 16 + (digit 6 x * 2 ^ 8 + digit 7 x))))
            (omega arith),
        or_disjoint_right 48 (digit 1 x)
            (digit 2 x * 2 ^ 40
              + (digit 3 x * 2 ^ 32
                  + (digit 4 x * 2 ^ 24 + (digit 5 x * 2 ^ 16 + (digit 6 x * 2 ^ 8 + digit 7 x)))))
            (omega arith),
        or_disjoint_right 56 (digit 0 x)
            (digit 1 x * 2 ^ 48
              + (digit 2 x * 2 ^ 40
                  + (digit 3 x * 2 ^ 32
                      + (digit 4 x * 2 ^ 24
                          + (digit 5 x * 2 ^ 16 + (digit 6 x * 2 ^ 8 + digit 7 x))))))
            (omega arith),
      ))
  where
    cast : u64 x ≡ x
    cast = omega arith

-- The same for 16 bits.
pub native16-be16 :
    (little : Bool) (x : ℕ)
    → x < 2 ^ 16
    → native16 little (be16 little x) ≡ digit 1 x ∷ digit 0 x ∷ []
unfolding be16
native16-be16 true x h = rw (bswap16-digits x h) (ground arith)
native16-be16 false x h = ground arith

-- A number of 32 bits that is stored by way of `BE32` is most significant byte first on hosts of
-- either byte order.
pub native32-be32 :
    (little : Bool) (x : ℕ)
    → x < 2 ^ 32
    → native32 little (be32 little x) ≡ digit 3 x ∷ digit 2 x ∷ digit 1 x ∷ digit 0 x ∷ []
unfolding be32
native32-be32 true x h = rw (bswap32-digits x h) (ground arith)
native32-be32 false x h = ground arith

-- A number of 64 bits that is stored by way of `BE64` is most significant byte first on hosts of
-- either byte order.
pub native64-be64 :
    (little : Bool) (x : ℕ)
    → x < 2 ^ 64
    → native64 little (be64 little x)
      ≡ digit 7 x
        ∷ digit 6 x
        ∷ digit 5 x
        ∷ digit 4 x
        ∷ digit 3 x
        ∷ digit 2 x
        ∷ digit 1 x
        ∷ digit 0 x
        ∷ []
unfolding be64
native64-be64 true x h = rw (bswap64-digits x h) (ground arith)
native64-be64 false x h = ground arith

-- And what is read by way of them is what was stored.
pub be16-value :
    (little : Bool) (x : ℕ)
    → x < 2 ^ 16
    → be16 little (if little then digit 1 x + digit 0 x * 2 ^ 8 else digit 1 x * 2 ^ 8 + digit 0 x)
      ≡ x
unfolding be16
be16-value true x h = bswap16-digits _ (omega arith) ∙ omega arith
be16-value false x h = omega arith

pub be64-value :
    (little : Bool) (x : ℕ)
    → x < 2 ^ 64
    → be64 little (
        if little
        then digit 7 x
          + digit 6 x * 2 ^ 8
          + digit 5 x * 2 ^ 16
          + digit 4 x * 2 ^ 24
          + digit 3 x * 2 ^ 32
          + digit 2 x * 2 ^ 40
          + digit 1 x * 2 ^ 48
          + digit 0 x * 2 ^ 56
        else digit 7 x * 2 ^ 56
          + digit 6 x * 2 ^ 48
          + digit 5 x * 2 ^ 40
          + digit 4 x * 2 ^ 32
          + digit 3 x * 2 ^ 24
          + digit 2 x * 2 ^ 16
          + digit 1 x * 2 ^ 8
          + digit 0 x)
      ≡ x
unfolding be64
be64-value true x h = bswap64-digits _ (omega arith) ∙ omega arith
be64-value false x h = omega arith
