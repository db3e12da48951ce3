-- ===== src/Gateway/Chunking.antt =====
-- How `push_chunked` in src/gateway/gateway.cpp cuts data for the 4000-byte buffer of IoPool.
use mathlib.Core.List.{flatten}
use Prim.Native.Nat.{min}
use protocol_design.Prelude.{
  ℕ, zero, suc, ◌+◌, ◌-◌, ◌≤◌, ◌<◌, ◌≡◌, refl, sym, ap, ◌∙◌, inl, inr, List, [], ◌∷◌, ◌++◌, length,
  drop, ltb, leb, arith, All, All-append, Bool-cases, append-nil, append_assoc, length-take,
  length-drop, take-append-drop, drop-drop, drop_all,
}
use protocol_design.Gateway.Packets.{push_chunked, push_from, io_pool_max_chunk, slice}

-- What fits the buffer, and is not empty.
abbrev pub IsChunk : List ℕ → Type 0
IsChunk c = (0 < length c) × (length c ≤ io_pool_max_chunk)

flatten-append : (q r : List (List ℕ)) → flatten (q ++ r) ≡ flatten q ++ flatten r
unfolding flatten
flatten-append [] r = refl
flatten-append (c ∷ q) r = rw (flatten-append q r) (sym (append_assoc c (flatten q) (flatten r)))

flatten-snoc : (q : List (List ℕ)) (c : List ℕ) → flatten (q ++ c ∷ []) ≡ flatten q ++ c
unfolding flatten
flatten-snoc q c = flatten-append q (c ∷ []) ∙ ap (◌++◌ (flatten q)) (append-nil c)

module _ (bytes : List ℕ) where
  push_from-flatten :
      (fuel off : ℕ) (q : List (List ℕ))
      → length bytes - off < fuel
      → flatten (push_from fuel bytes off q) ≡ flatten q ++ drop off bytes
  unfolding push_from
  push_from-flatten zero off q h = absurd (omega arith)
  push_from-flatten (suc fuel) off q h = elim (Bool-cases (ltb off (length bytes))) [
    | inl more ↦
        let n = min io_pool_max_chunk (length bytes - off) in
        rw more (
          push_from-flatten fuel (off + n) (q ++ slice bytes off n ∷ []) (ground arith)
          ∙ rw (flatten-snoc q (slice bytes off n), append_assoc, ← drop-drop off n bytes)
              (ap (◌++◌ (flatten q)) (take-append-drop n (drop off bytes))))
    | inr done ↦ rw (done, drop_all off bytes (ground arith)) (sym (append-nil (flatten q)))
  ]

  push_from-IsChunk :
      (fuel off : ℕ) (q : List (List ℕ)) → All IsChunk q → All IsChunk (push_from fuel bytes off q)
  unfolding push_from
  push_from-IsChunk zero off q v = v
  push_from-IsChunk (suc fuel) off q v = elim (Bool-cases (ltb off (length bytes))) [
    | inl more ↦
        let n = min io_pool_max_chunk (length bytes - off) in
        rw more (
          push_from-IsChunk fuel (off + n) (q ++ slice bytes off n ∷ []) (
            All-append IsChunk q (slice bytes off n ∷ []) v
              (ground (arith, length-take n (drop off bytes), length-drop off bytes))))
    | inr done ↦ rw done v
  ]

-- The bytes queued after `push_chunked` are those that were queued before and then the data.
pub flatten-push_chunked :
    (q : List (List ℕ)) (bytes : List ℕ) → flatten (push_chunked q bytes) ≡ flatten q ++ bytes
unfolding push_chunked
flatten-push_chunked q [] = sym (append-nil (flatten q))
flatten-push_chunked q (b ∷ bytes) =
    elim (Bool-cases (leb (length (b ∷ bytes)) io_pool_max_chunk)) [
      | inl small ↦ rw small (flatten-snoc q (b ∷ bytes))
      | inr big ↦ rw big (push_from-flatten (b ∷ bytes) (length (b ∷ bytes) + 1) 0 q (omega arith))
    ]

-- A queue of chunks of 1 to 4000 bytes stays one after `push_chunked`.
pub push_chunked-IsChunk :
    (q : List (List ℕ)) (bytes : List ℕ) → All IsChunk q → All IsChunk (push_chunked q bytes)
unfolding push_chunked
push_chunked-IsChunk q [] v = v
push_chunked-IsChunk q (b ∷ bytes) v =
    elim (Bool-cases (leb (length (b ∷ bytes)) io_pool_max_chunk)) [
      | inl small ↦ rw small (All-append IsChunk q ((b ∷ bytes) ∷ []) v (ground arith))
      | inr big ↦ rw big (push_from-IsChunk (b ∷ bytes) (length (b ∷ bytes) + 1) 0 q v)
    ]
