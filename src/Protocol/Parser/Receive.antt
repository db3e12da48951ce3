-- ===== src/Protocol/Parser/Receive.antt =====
-- The loop that every receiver runs: feed the bytes, then handle packets until `next_packet` does
-- not return OK (MessageHandler::feed in src/common/message_handler.cpp, on_client_received and
-- on_apphost_received in src/gateway/gateway.cpp, ClientRuntime::run in src/client/client.cpp).
use protocol_design.Prelude.{
  ℕ, zero, suc, ◌+◌, ◌<◌, ◌≡◌, refl, ap, subst, ◌∙◌, List, [], ◌∷◌, ◌++◌, length, arith,
  length-append, length-drop, All, IsByte,
}
use protocol_design.Protocol.{Packet, serialize_header}
use protocol_design.Protocol.Wire.{length-serialize_header}
use protocol_design.Protocol.Parser.{
  MessageParser, Next, State, wait_header, wait_body, poisoned, ok, incomplete, error, feed,
  next_packet, no_packet,
}
use protocol_design.Protocol.Parser.Stream.{Stream, live, dead, Frames, stalled, broken, next}
use protocol_design.Protocol.Parser.Framing.{frame-shrinks}
use protocol_design.Protocol.Parser.Refine.{view, view_at, unread, IsParser, Gives}
use protocol_design.Protocol.Parser.Calls.{
  live-injective, append_stream, next_packet-Gives, next_packet-dead, next_packet-IsParser,
}
use protocol_design.Protocol.Parser.Feed.{feed-view, feed-IsParser}

-- A stream of n bytes holds at most n packets, and a pending header stands for 13 bytes that
-- have left the buffer.
abbrev pub fuel_for : MessageParser → ℕ
fuel_for p = suc (length p.buf + 13)

view_fits : (p : MessageParser) (t : List ℕ) → view p ≡ live t → length t < fuel_for p
view_fits p t w = at p.state w
  where
    at : (st : State) → view_at st p.pending_header (unread p) ≡ live t → length t < fuel_for p
    at wait_header e = omega (arith, ap length (live-injective e), length-drop p.read_pos p.buf)
    at wait_body e = omega (
      arith,
      ap length (live-injective e),
      length-append (serialize_header p.pending_header) (unread p),
      length-serialize_header p.pending_header,
      length-drop p.read_pos p.buf,
    )
    at poisoned e = cc

-- What a loop over the stream leaves behind: the state of its handler and the rest of the stream.
pub record Leaves {ℓ} {S : Type ℓ} (r : S × MessageParser) (s : S) (e : Stream) : Type ℓ where
  pub handled : r.0 ≡ s
  pub rest : view r.1 ≡ e
  pub valid : IsParser r.1

Leaves-stop {ℓ} :
    {S : Type ℓ} {r : S × MessageParser} {s : S} {e : Stream} (p : MessageParser)
    → r ≡ (s, p)
    → view p ≡ e
    → IsParser p
    → Leaves r s e
Leaves-stop p q w v = rw q (record { handled = refl; rest = w; valid = v })

module _ {ℓ} {S : Type ℓ} (handle : Packet → S → S) where
  -- `while (parser.next_packet(pkt) == OK) handle(pkt);`, with fuel.
  unfoldable pub each_packet : ℕ → MessageParser → Packet → S → S × MessageParser
  each_packet zero p pkt s = (s, p)
  each_packet (suc n) p pkt s =
      let r = next_packet p pkt in
      elim r.result [
        | ok ↦ each_packet n r.parser r.out (handle r.out s)
        | incomplete ↦ (s, r.parser)
        | error ↦ (s, r.parser)
      ]

  unfoldable pub receive : MessageParser → List ℕ → S → S × MessageParser
  unfolding each_packet
  receive p bytes s = let p' = feed p bytes in each_packet (fuel_for p') p' no_packet s

  each_packet-ok :
      (n : ℕ) (p : MessageParser) (pkt : Packet) (s : S)
      → (next_packet p pkt).result ≡ ok
      → each_packet (suc n) p pkt s
        ≡ each_packet n
            (next_packet p pkt).parser
            (next_packet p pkt).out
            (handle (next_packet p pkt).out s)
  unfolding each_packet
  each_packet-ok n p pkt s e = rw (e, each_packet) refl

  each_packet-incomplete :
      (n : ℕ) (p : MessageParser) (pkt : Packet) (s : S)
      → (next_packet p pkt).result ≡ incomplete
      → each_packet (suc n) p pkt s ≡ (s, (next_packet p pkt).parser)
  unfolding each_packet
  each_packet-incomplete n p pkt s e = rw (e, each_packet) refl

  each_packet-error :
      (n : ℕ) (p : MessageParser) (pkt : Packet) (s : S)
      → (next_packet p pkt).result ≡ error
      → each_packet (suc n) p pkt s ≡ (s, (next_packet p pkt).parser)
  unfolding each_packet
  each_packet-error n p pkt s e = rw (e, each_packet) refl

  -- The packets handled in order.
  abbrev pub handle_all : S → List Packet → S
  handle_all s [] = s
  handle_all s (k ∷ ks) = handle_all (handle k s) ks

  pub handle_all-append :
      (s : S) (ks js : List Packet) → handle_all s (ks ++ js) ≡ handle_all (handle_all s ks) js
  handle_all-append s [] js = refl
  handle_all-append s (k ∷ ks) js = handle_all-append (handle k s) ks js

  each_packet-Frames :
      {t : List ℕ} {ks : List Packet} {e : Stream}
      → Frames t ks e
      → (n : ℕ) (p : MessageParser) (pkt : Packet) (s : S) → IsParser p
      → view p ≡ live t
      → length t < n
      → Leaves (each_packet n p pkt s) (handle_all s ks) e
  each_packet-Frames fs zero p pkt s v w l = absurd (omega arith)
  each_packet-Frames (stalled t q) (suc n) p pkt s v w l =
      let g = subst (λ f. Gives f t pkt (next_packet p pkt)) q (next_packet-Gives p pkt v t w) in
      Leaves-stop (next_packet p pkt).parser (each_packet-incomplete n p pkt s g.0) g.2
        (next_packet-IsParser p pkt v)
  each_packet-Frames (broken t q) (suc n) p pkt s v w l =
      let g = subst (λ f. Gives f t pkt (next_packet p pkt)) q (next_packet-Gives p pkt v t w) in
      Leaves-stop (next_packet p pkt).parser (each_packet-error n p pkt s g.0) g.2
        (next_packet-IsParser p pkt v)
  each_packet-Frames (next {s = t} {rest = r} {k = k} {ks = ks} q fs) (suc n) p pkt s v w l =
      let g = subst (λ f. Gives f t pkt (next_packet p pkt)) q (next_packet-Gives p pkt v t w) in
      rw (each_packet-ok n p pkt s g.0, g.1)
        (each_packet-Frames fs n (next_packet p pkt).parser k (handle k s)
          (next_packet-IsParser p pkt v) g.2 (omega (arith, frame-shrinks t q)))

  -- Bytes that arrive on a live stream: the handler sees the packets that they complete, in order,
  -- and the parser keeps what is left.
  pub receive-Frames :
      (p : MessageParser) (t bytes : List ℕ) (s : S) {ks : List Packet} {e : Stream}
      → IsParser p
      → All IsByte bytes
      → view p ≡ live t
      → Frames (t ++ bytes) ks e
      → Leaves (receive p bytes s) (handle_all s ks) e
  unfolding receive
  receive-Frames p t bytes s v b w fs =
      let w' : view (feed p bytes) ≡ live (t ++ bytes) =
        feed-view p bytes v ∙ ap (λ z. append_stream z bytes) w in
      each_packet-Frames fs (fuel_for (feed p bytes)) (feed p bytes) no_packet s
        (feed-IsParser p bytes v b) w' (view_fits (feed p bytes) (t ++ bytes) w')

  -- Bytes that arrive on a dead stream change nothing.
  pub receive-dead :
      (p : MessageParser) (bytes : List ℕ) (s : S)
      → IsParser p
      → All IsByte bytes
      → view p ≡ dead
      → Leaves (receive p bytes s) s dead
  unfolding receive
  receive-dead p bytes s v b w =
      let w' : view (feed p bytes) ≡ dead =
        feed-view p bytes v ∙ ap (λ z. append_stream z bytes) w in
      let e = next_packet-dead (feed p bytes) no_packet (feed-IsParser p bytes v b) w' in
      Leaves-stop (feed p bytes)
        (each_packet-error (length (feed p bytes).buf + 13) (feed p bytes) no_packet s
            (ap (λ n. n.result) e)
          ∙ ap (λ (n : Next). (s, n.parser)) e)
        w' (feed-IsParser p bytes v b)

  -- The pieces of a stream, in the order in which they arrive.
  unfoldable pub receive_all : MessageParser → List (List ℕ) → S → S × MessageParser
  receive_all p [] s = (s, p)
  receive_all p (c ∷ cs) s = receive_all (receive p c s).1 cs (receive p c s).0
