-- ===== src/Protocol/Parser/Calls.antt =====
-- Each call of the parser (src/protocol/message_parser.cpp) on the stream that it stands for.
use protocol_design.Prelude.{
  ℕ, ◌≡◌, refl, sym, ap, subst, drop-append_self, ◌∙◌, ◌⊎◌, inl, inr, List, ◌++◌, arith,
  length-append,
}
use protocol_design.Protocol.{Packet, serialize_header}
use protocol_design.Protocol.Wire.{deserialize-serialize, length-serialize_header}
use protocol_design.Protocol.Parser.{
  MessageParser, State, wait_header, wait_body, poisoned, error, next_packet, read_header,
  read_body,
}
use protocol_design.Protocol.Parser.Stream.{frame, frame_body, Stream, live, dead}
use protocol_design.Protocol.Parser.Framing.{frame_parts}
use protocol_design.Protocol.Parser.Refine.{
  unread, view, view_at, IsParser, IsAccepted, PendingOk, Gives, read_header-Gives, read_body-Gives,
  read_header-IsParser, read_body-IsParser,
}

module _ (p : MessageParser) (out : Packet) where
  next_packet-poisoned :
      p.state ≡ poisoned → next_packet p out ≡ record { result = error; out = out; parser = p }
  unfolding next_packet
  next_packet-poisoned w = ground arith

  next_packet-header : p.state ≡ wait_header → next_packet p out ≡ read_header p out
  unfolding next_packet
  next_packet-header w = ground arith

  next_packet-body : p.state ≡ wait_body → next_packet p out ≡ read_body p out
  unfolding next_packet
  next_packet-body w = ground arith

pub State-cases : (s : State) → (s ≡ wait_header) ⊎ ((s ≡ wait_body) ⊎ (s ≡ poisoned))
State-cases wait_header = inl refl
State-cases wait_body = inr (inl refl)
State-cases poisoned = inr (inr refl)

pub live-injective : {s t : List ℕ} → live s ≡ live t → s ≡ t
live-injective e = cc

module _ (p : MessageParser) (out : Packet) (v : IsParser p) where
  pending : p.state ≡ wait_body → IsAccepted p.pending_header
  pending w = subst (λ st. PendingOk st p.pending_header) w v.pending_ok

  view_in : (st : State) → p.state ≡ st → view p ≡ view_at st p.pending_header (unread p)
  view_in st w = ap (λ z. view_at z p.pending_header (unread p)) w

  frame_pending :
      (s : List ℕ)
      → IsAccepted p.pending_header
      → serialize_header p.pending_header ++ unread p ≡ s
      → frame s ≡ frame_body p.pending_header (unread p)
  frame_pending s a e =
      let head = serialize_header p.pending_header in
      rw (← e) (
        frame_parts (head ++ unread p)
          (omega (arith, length-append head (unread p), length-serialize_header p.pending_header))
          (deserialize-serialize p.pending_header (unread p) a.header_ok)
          (drop-append_self 13 head (unread p) (sym (length-serialize_header p.pending_header))))

  -- On the live stream of a parser that keeps its invariant, `next_packet` returns OK and the first
  -- packet, INCOMPLETE and an untouched stream if the packet is not all there, or ERROR and a dead
  -- stream on a violation.
  pub next_packet-Gives : (s : List ℕ) → view p ≡ live s → Gives (frame s) s out (next_packet p out)
  next_packet-Gives s e = elim (State-cases p.state) [
    | inl w ↦
        let eq : unread p ≡ s = live-injective (sym (view_in wait_header w) ∙ e) in
        rw (next_packet-header p out w, ← eq) (read_header-Gives p out v w)
    | inr (inl w) ↦
        let eq : serialize_header p.pending_header ++ unread p ≡ s =
          live-injective (sym (view_in wait_body w) ∙ e) in
        rw (next_packet-body p out w, frame_pending s (pending w) eq)
          (read_body-Gives p out s w eq (pending w))
    | inr (inr w) ↦ absurd (no_dead (sym (view_in poisoned w) ∙ e))
  ]
    where
      no_dead : dead ≡ live s → ⊥
      no_dead q = cc

  -- A dead stream stays dead: `next_packet` returns ERROR and changes nothing.
  pub next_packet-dead :
      view p ≡ dead → next_packet p out ≡ record { result = error; out = out; parser = p }
  next_packet-dead e = elim (State-cases p.state) [
    | inl w ↦ absurd (no_live _ (sym (view_in wait_header w) ∙ e))
    | inr (inl w) ↦ absurd (no_live _ (sym (view_in wait_body w) ∙ e))
    | inr (inr w) ↦ next_packet-poisoned p out w
  ]
    where
      no_live : (s : List ℕ) → live s ≡ dead → ⊥
      no_live s q = cc

  pub next_packet-IsParser : IsParser (next_packet p out).parser
  next_packet-IsParser = elim (State-cases p.state) [
    | inl w ↦ rw (next_packet-header p out w) (read_header-IsParser p out v)
    | inr (inl w) ↦ rw (next_packet-body p out w) (read_body-IsParser p out v w)
    | inr (inr w) ↦ rw (next_packet-poisoned p out w) v
  ]

abbrev pub append_stream : Stream → List ℕ → Stream
append_stream (live s) t = live (s ++ t)
append_stream dead t = dead
