-- ===== src/Protocol/Parser/Feed.antt =====
-- `MessageParser::feed` and `reset` (src/protocol/message_parser.cpp): new bytes go to the end of the
-- stream, and the buffer stays in proportion to what is unread.
use protocol_design.Prelude.{
  Bool-cases, ℕ, ◌+◌, ◌/◌, ◌*◌, ◌≤◌, ◌≡◌, ◌≢◌, refl, sym, ap, ◌∙◌, ◌⊎◌, inl, inr, List, ◌++◌, Bool,
  ◌&&◌, length, ltb, if◌then◌else◌, arith, append_assoc, length-append, length-drop,
  drop-append_left, All, IsByte, All-append, All-drop,
}
use protocol_design.Protocol.{serialize_header}
use protocol_design.Protocol.Parser.{
  MessageParser, State, wait_header, wait_body, poisoned, readable, feed, append_bytes, compact,
}
use protocol_design.Protocol.Parser.Stream.{live, dead}
use protocol_design.Protocol.Parser.Refine.{unread, view, view_at, IsParser}
use protocol_design.Protocol.Parser.Calls.{append_stream}

abbrev compacts : MessageParser → Bool
compacts p = ltb (length p.buf / 2) p.read_pos && ltb 0 p.read_pos

abbrev compacted : MessageParser → MessageParser
compacted p = if compacts p then compact p else p

module _ (p : MessageParser) (v : IsParser p) where
  compacted-unread : unread (compacted p) ≡ unread p
  unfolding compact
  compacted-unread = elim (Bool-cases (compacts p)) [ inl c ↦ rw c | inr c ↦ rw c ]

  compacted-state : (compacted p).state ≡ p.state
  unfolding compact
  compacted-state = elim (Bool-cases (compacts p)) [ inl c ↦ rw c | inr c ↦ rw c ]

  compacted-pending : (compacted p).pending_header ≡ p.pending_header
  unfolding compact
  compacted-pending = elim (Bool-cases (compacts p)) [ inl c ↦ rw c | inr c ↦ rw c ]

  compacted-IsParser : IsParser (compacted p)
  unfolding compact
  compacted-IsParser = elim (Bool-cases (compacts p)) [
    | inl c ↦ rw c (record {
      in_buffer = omega arith;
      bytes = All-drop IsByte p.read_pos p.buf v.bytes;
      pending_ok = v.pending_ok;
    })
    | inr c ↦ rw c v
  ]

  compacted-length : length (compacted p).buf ≤ 2 * readable p + 1
  unfolding compact
  compacted-length = elim (Bool-cases (compacts p)) [
    | inl c ↦ rw c (omega (arith, length-drop p.read_pos p.buf))
    | inr c ↦ rw c (ground (arith, v.in_buffer))
  ]

  feed-live : (t : List ℕ) → p.state ≢ poisoned → feed p t ≡ append_bytes (compacted p) t
  unfolding feed
  feed-live t n = ground arith

  feed-poisoned : (t : List ℕ) → p.state ≡ poisoned → feed p t ≡ p
  unfolding feed
  feed-poisoned t w = ground arith

append_bytes-IsParser :
    (q : MessageParser) (t : List ℕ) → IsParser q → All IsByte t → IsParser (append_bytes q t)
unfolding append_bytes
append_bytes-IsParser q t v b = record {
  in_buffer = omega (arith, length-append q.buf t, v.in_buffer);
  bytes = All-append IsByte q.buf t v.bytes b;
  pending_ok = v.pending_ok;
}

append_bytes-view :
    (q : MessageParser) (t : List ℕ)
    → IsParser q
    → view (append_bytes q t) ≡ append_stream (view q) t
unfolding append_bytes
append_bytes-view q t v = rw (drop-append_left q.read_pos q.buf t v.in_buffer) (at q.state)
  where
    at :
        (st : State)
        → view_at st q.pending_header (unread q ++ t)
          ≡ append_stream (view_at st q.pending_header (unread q)) t
    at wait_header = refl
    at wait_body = ap live (sym (append_assoc (serialize_header q.pending_header) (unread q) t))
    at poisoned = refl

module _ (p : MessageParser) (t : List ℕ) (v : IsParser p) where
  compacted-view : view (compacted p) ≡ view p
  compacted-view = rw (compacted-state p v, compacted-pending p v, compacted-unread p v)

  Poisoned-cases : (p.state ≡ poisoned) ⊎ (p.state ≢ poisoned)
  Poisoned-cases = ground arith

  -- On a parser that keeps its invariant, the bytes fed go to the end of the stream, and are
  -- dropped if it is dead.
  pub feed-view : view (feed p t) ≡ append_stream (view p) t
  feed-view = elim Poisoned-cases [
    | inl w ↦
        let e : view p ≡ dead = ap (λ z. view_at z p.pending_header (unread p)) w in
        rw (feed-poisoned p v t w, e) refl
    | inr n ↦ rw (feed-live p v t n) (
        append_bytes-view (compacted p) t (compacted-IsParser p v)
        ∙ ap (λ s. append_stream s t) compacted-view)
  ]

  pub feed-IsParser : All IsByte t → IsParser (feed p t)
  feed-IsParser b = elim Poisoned-cases [
    | inl w ↦ rw (feed-poisoned p v t w) v
    | inr n ↦
        rw (feed-live p v t n) (append_bytes-IsParser (compacted p) t (compacted-IsParser p v) b)
  ]

  -- The buffer after `feed`, on a parser that keeps its invariant and is not poisoned, holds at
  -- most one byte more than twice what was unread, and the new bytes.
  pub feed-length : p.state ≢ poisoned → length (feed p t).buf ≤ 2 * readable p + 1 + length t
  unfolding append_bytes
  feed-length n =
      rw (feed-live p v t n)
        (omega (arith, length-append (compacted p).buf t, compacted-length p v))
