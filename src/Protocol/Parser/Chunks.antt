-- ===== src/Protocol/Parser/Chunks.antt =====
-- Streams that reach the receivers of src/common/message_handler.cpp and src/gateway/gateway.cpp
-- in several pieces.
use mathlib.Core.List.{flatten}
use protocol_design.Prelude.{
  ℕ, ◌≡◌, refl, sym, ap, subst, ◌∙◌, List, [], ◌∷◌, ◌++◌, append-nil, append_assoc, All, IsByte,
  All-append,
}
use protocol_design.Protocol.{Packet}
use protocol_design.Protocol.Wire.{serialize_header-bytes}
use protocol_design.Protocol.{serialize_header}
use protocol_design.Protocol.Parser.{MessageParser, empty}
use protocol_design.Protocol.Parser.Stream.{Stream, live, dead, Frames, encode_all}
use protocol_design.Protocol.Parser.Framing.{
  Frames-exist, Frames-append, Frames-append_dead, Frames-encode_all, IsPacket,
}
use protocol_design.Protocol.Parser.Refine.{view, IsParser, empty-IsParser}
use protocol_design.Protocol.Parser.Receive.{
  receive, receive_all, Leaves, handle_all, handle_all-append, receive-Frames, receive-dead,
}

module _ {ℓ} {S : Type ℓ} (handle : Packet → S → S) where
  -- The same handler state, and the same rest of the stream.
  abbrev pub SameOutcome : S × MessageParser → S × MessageParser → Type ℓ
  SameOutcome a b = (a.0 ≡ b.0) × (view a.1 ≡ view b.1)

  Leaves-same :
      {a b : S × MessageParser} {s t : S} {e : Stream}
      → Leaves a s e
      → Leaves b t e
      → s ≡ t
      → SameOutcome a b
  Leaves-same l m q = (l.handled ∙ q ∙ sym m.handled, l.rest ∙ sym m.rest)

  module _ (p : MessageParser) (xs ys : List ℕ) (s : S) (v : IsParser p) (bx : All IsByte xs)
      (by : All IsByte ys) where
    first : S × MessageParser
    first = receive handle p xs s

    both_bytes : All IsByte (xs ++ ys)
    both_bytes = All-append IsByte xs ys bx by

    two_pieces :
        (t : List ℕ) (ks : List Packet) (e : Stream)
        → view p ≡ live t
        → Frames (t ++ xs) ks e
        → Leaves first (handle_all handle s ks) e
        → SameOutcome (receive handle first.1 ys first.0) (receive handle p (xs ++ ys) s)
    two_pieces t ks (live r) w fs l =
        let (js, e, gs) = Frames-exist (r ++ ys) in
        let whole : Frames (t ++ (xs ++ ys)) (ks ++ js) e =
          subst (λ z. Frames z (ks ++ js) e) (append_assoc t xs ys) (Frames-append ys fs gs) in
        Leaves-same (receive-Frames handle first.1 r ys first.0 l.valid by l.rest gs)
          (receive-Frames handle p t (xs ++ ys) s v both_bytes w whole)
          (ap (λ z. handle_all handle z js) l.handled ∙ sym (handle_all-append handle s ks js))
    two_pieces t ks dead w fs l =
        let whole : Frames (t ++ (xs ++ ys)) ks dead =
          subst (λ z. Frames z ks dead) (append_assoc t xs ys) (Frames-append_dead ys fs) in
        Leaves-same (receive-dead handle first.1 ys first.0 l.valid by l.rest)
          (receive-Frames handle p t (xs ++ ys) s v both_bytes w whole) l.handled

    receive-append_at :
        (e : Stream)
        → view p ≡ e
        → SameOutcome (receive handle first.1 ys first.0) (receive handle p (xs ++ ys) s)
    unfolding first
    receive-append_at (live t) w =
        let (ks, e, fs) = Frames-exist (t ++ xs) in
        two_pieces t ks e w fs (receive-Frames handle p t xs s v bx w fs)
    receive-append_at dead w =
        let l = receive-dead handle p xs s v bx w in
        Leaves-same (receive-dead handle first.1 ys first.0 l.valid by l.rest)
          (receive-dead handle p (xs ++ ys) s v both_bytes w) l.handled

  -- To a parser that keeps its invariant, bytes that arrive in one piece or in two are the same,
  -- whether they are valid packets or not: the handler is left in the same state, and so is the
  -- rest of the stream that the parser keeps.
  pub receive-append :
      (p : MessageParser) (xs ys : List ℕ) (s : S)
      → IsParser p
      → All IsByte xs
      → All IsByte ys
      → SameOutcome
          (receive handle (receive handle p xs s).1 ys (receive handle p xs s).0)
          (receive handle p (xs ++ ys) s)
  unfolding first
  receive-append p xs ys s v bx by = receive-append_at p xs ys s v bx by (view p) refl

  receive-IsParser_at :
      (p : MessageParser) (bytes : List ℕ) (s : S) (e : Stream)
      → IsParser p
      → All IsByte bytes
      → view p ≡ e
      → IsParser (receive handle p bytes s).1
  receive-IsParser_at p bytes s (live t) v b w =
      let (ks, e, fs) = Frames-exist (t ++ bytes) in
      (receive-Frames handle p t bytes s v b w fs).valid
  receive-IsParser_at p bytes s dead v b w = (receive-dead handle p bytes s v b w).valid

  -- The class invariant is kept.
  pub receive-IsParser :
      (p : MessageParser) (bytes : List ℕ) (s : S)
      → IsParser p
      → All IsByte bytes
      → IsParser (receive handle p bytes s).1
  receive-IsParser p bytes s v b = receive-IsParser_at p bytes s (view p) v b refl

  -- Any number of pieces, at least one.
  pub receive_all-flatten :
      (p : MessageParser) (c : List ℕ) (cs : List (List ℕ)) (s : S)
      → IsParser p
      → All IsByte c
      → All (All IsByte) cs
      → SameOutcome (receive_all handle p (c ∷ cs) s) (receive handle p (c ++ flatten cs) s)
  unfolding receive_all flatten
  receive_all-flatten p c [] s v bc bs = rw (append-nil c) (refl, refl)
  receive_all-flatten p c (d ∷ cs) s v bc bs =
      let q = receive handle p c s in
      let vq = receive-IsParser p c s v bc in
      let later = receive_all-flatten q.1 d cs q.0 vq bs.0 bs.1 in
      let joined = receive-append p c (d ++ flatten cs) s v bc (flatten_bytes d cs bs.0 bs.1) in
      (later.0 ∙ joined.0, later.1 ∙ joined.1)
    where
      flatten_bytes :
          (d : List ℕ) (cs : List (List ℕ))
          → All IsByte d
          → All (All IsByte) cs
          → All IsByte (d ++ flatten cs)
      flatten_bytes d [] bd bs = All-append IsByte d [] bd tt
      flatten_bytes d (e ∷ cs) bd bs =
          All-append IsByte d (e ++ flatten cs) bd (flatten_bytes e cs bs.0 bs.1)

  encode_all_bytes :
      (ks : List Packet) → All (λ k. All IsByte k.body) ks → All IsByte (encode_all ks)
  encode_all_bytes [] b = tt
  encode_all_bytes (k ∷ ks) b =
      All-append IsByte (serialize_header k.header ++ k.body) (encode_all ks)
        (All-append IsByte (serialize_header k.header) k.body (serialize_header-bytes k.header) b.0)
        (encode_all_bytes ks b.1)

  -- Valid packets with bodies of bytes, whose wire forms are joined and cut into one or more pieces
  -- in any way, are handled one by one, in order, by a receiver that starts afresh, and no byte is
  -- left over.
  pub delivery :
      (ks : List Packet) (c : List ℕ) (cs : List (List ℕ)) (s : S)
      → All IsPacket ks
      → All (λ k. All IsByte k.body) ks
      → All IsByte c
      → All (All IsByte) cs
      → c ++ flatten cs ≡ encode_all ks
      → ((receive_all handle empty (c ∷ cs) s).0 ≡ handle_all handle s ks)
        × (view (receive_all handle empty (c ∷ cs) s).1 ≡ live [])
  delivery ks c cs s v bk bc bs e =
      let pieces = receive_all-flatten empty c cs s empty-IsParser bc bs in
      let whole =
        receive-Frames handle empty [] (encode_all ks) s empty-IsParser (encode_all_bytes ks bk)
          refl (Frames-encode_all ks v) in
      let same : receive handle empty (c ++ flatten cs) s ≡ receive handle empty (encode_all ks) s =
        ap (λ bytes. receive handle empty bytes s) e in
      (
        pieces.0 ∙ ap (λ r. r.0) same ∙ whole.handled,
        pieces.1 ∙ ap (λ (r : S × MessageParser). view r.1) same ∙ whole.rest,
      )
