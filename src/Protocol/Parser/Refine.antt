-- ===== src/Protocol/Parser/Refine.antt =====
-- The relation of src/protocol/message_parser.cpp to the stream specification: a parser is seen as
-- the bytes of the stream that it has not yet given out.
use protocol_design.Prelude.{
  Bool-cases, ℕ, ◌+◌, ◌≤◌, ◌≡◌, refl, sym, ap, ◌∙◌, inl, inr, List, ◌++◌, true, false, not, length,
  take, drop, ltb, ◌==◌, if◌then◌else◌, arith, length-drop, drop-drop, take-append-drop, All,
  IsByte, All-drop,
}
use protocol_design.Protocol.{
  Header, Packet, protocol_magic, max_body_length, serialize_header, deserialize_header,
}
use protocol_design.Protocol.Wire.{IsHeader, serialize-deserialize, deserialize-IsHeader}
use protocol_design.Protocol.Parser.{
  MessageParser, Next, State, wait_header, wait_body, poisoned, ok, incomplete, error, empty,
  readable, read_header, read_body,
}
use protocol_design.Protocol.Parser.Stream.{
  Frame, need_more, violation, packet, frame, frame_body, Stream, live, dead,
}

abbrev pub unread : MessageParser → List ℕ
unread p = drop p.read_pos p.buf

abbrev pub view_at : State → Header → List ℕ → Stream
view_at wait_header h u = live u
view_at wait_body h u = live (serialize_header h ++ u)
view_at poisoned h u = dead

-- A header that was read and is waiting for its body counts as not yet given out.
abbrev pub view : MessageParser → Stream
view p = view_at p.state p.pending_header (unread p)

-- A header that was accepted.
pub record IsAccepted (h : Header) : Type 0 where
  pub header_ok : IsHeader h
  pub magic_ok : h.magic ≡ protocol_magic
  pub size_ok : h.body_length ≤ max_body_length

abbrev pub PendingOk : State → Header → Type 0
PendingOk wait_body h = IsAccepted h
PendingOk wait_header h = Unit
PendingOk poisoned h = Unit

-- The class invariant.
pub record IsParser (p : MessageParser) : Type 0 where
  pub in_buffer : p.read_pos ≤ length p.buf
  pub bytes : All IsByte p.buf
  pub pending_ok : PendingOk p.state p.pending_header

pub empty-IsParser : IsParser empty
empty-IsParser = record { in_buffer = omega arith; bytes = tt; pending_ok = tt }

-- What a call gives for each first frame of the stream.
abbrev pub Gives : Frame → List ℕ → Packet → Next → Type 0
Gives need_more s out n = (n.result ≡ incomplete) × (n.out ≡ out) × (view n.parser ≡ live s)
Gives violation s out n = (n.result ≡ error) × (n.out ≡ out) × (view n.parser ≡ dead)
Gives (packet k rest) s out n = (n.result ≡ ok) × (n.out ≡ k) × (view n.parser ≡ live rest)

frame_body-accepted :
    (h : Header) (r : List ℕ)
    → IsAccepted h
    → frame_body h r ≡ (
        if ltb (length r) h.body_length
        then need_more
        else packet (record { header = h; body = take h.body_length r }) (drop h.body_length r))
unfolding frame_body
frame_body-accepted h r v = ground arith

module _ (p : MessageParser) (out : Packet) where
  -- The second half of the call, for the stream that starts with the pending header.
  pub read_body-Gives :
      (s : List ℕ)
      → p.state ≡ wait_body
      → serialize_header p.pending_header ++ unread p ≡ s
      → IsAccepted p.pending_header
      → Gives (frame_body p.pending_header (unread p)) s out (read_body p out)
  unfolding read_body
  read_body-Gives s w e v =
      rw (frame_body-accepted p.pending_header (unread p) v, length-drop p.read_pos p.buf)
        (elim (Bool-cases (ltb (readable p) p.pending_header.body_length)) [
          | inl short ↦
              rw short (refl, refl, ap (λ st. view_at st p.pending_header (unread p)) w ∙ ap live e)
          | inr full ↦
              rw full (
                refl,
                refl,
                ap live (sym (drop-drop p.read_pos p.pending_header.body_length p.buf)),
              )
        ])

  pub read_body-IsParser : IsParser p → p.state ≡ wait_body → IsParser (read_body p out).parser
  unfolding read_body
  read_body-IsParser v w = elim (Bool-cases (ltb (readable p) p.pending_header.body_length)) [
    | inl short ↦ rw short v
    | inr full ↦
        rw full
          (record { in_buffer = ground (arith, v.in_buffer); bytes = v.bytes; pending_ok = tt })
  ]

frame_body-bad_magic :
    (h : Header) (r : List ℕ) → not (h.magic == protocol_magic) ≡ true → frame_body h r ≡ violation
unfolding frame_body
frame_body-bad_magic h r e = rw e

frame_body-too_long :
    (h : Header) (r : List ℕ)
    → not (h.magic == protocol_magic) ≡ false
    → ltb max_body_length h.body_length ≡ true
    → frame_body h r ≡ violation
unfolding frame_body
frame_body-too_long h r e f = rw (e, f)

module _ (p : MessageParser) (out : Packet) (v : IsParser p) where
  h : Header
  h = deserialize_header (unread p)

  after_header : MessageParser
  after_header = record p { pending_header = h; read_pos = p.read_pos + 13; state = wait_body }

  accepted :
      not (h.magic == protocol_magic) ≡ false
      → ltb max_body_length h.body_length ≡ false
      → IsAccepted h
  unfolding h
  accepted e f = record {
    header_ok = deserialize-IsHeader (unread p) (All-drop IsByte p.read_pos p.buf v.bytes);
    magic_ok = ground arith;
    size_ok = ground arith;
  }

  unread-after_header : drop 13 (unread p) ≡ unread after_header
  unfolding after_header
  unread-after_header = drop-drop p.read_pos 13 p.buf

  -- The pending header and the bytes after it are the stream that they were read from.
  reassembled : 13 ≤ length (unread p) → serialize_header h ++ unread after_header ≡ unread p
  unfolding h
  reassembled l =
      rw
        (
          ← unread-after_header,
          serialize-deserialize (unread p) l (All-drop IsByte p.read_pos p.buf v.bytes),
        )
        (take-append-drop 13 (unread p))

  full_header-Gives :
      13 ≤ length (unread p)
      → not (h.magic == protocol_magic) ≡ false
      → ltb max_body_length h.body_length ≡ false
      → Gives (frame_body h (drop 13 (unread p))) (unread p) out (read_body after_header out)
  unfolding after_header
  full_header-Gives l e f =
      rw unread-after_header
        (read_body-Gives after_header out (unread p) refl (reassembled l) (accepted e f))

  pub read_header-Gives :
      p.state ≡ wait_header → Gives (frame (unread p)) (unread p) out (read_header p out)
  unfolding read_header frame h after_header
  read_header-Gives w = rw (length-drop p.read_pos p.buf) (elim (Bool-cases (ltb (readable p) 13)) [
    | inl short ↦ rw short (refl, refl, ap (λ st. view_at st p.pending_header (unread p)) w)
    | inr long ↦ elim (Bool-cases (not (h.magic == protocol_magic))) [
      | inl bad ↦ rw (long, bad, frame_body-bad_magic h _ bad) (refl, refl, refl)
      | inr good ↦ elim (Bool-cases (ltb max_body_length h.body_length)) [
        | inl big ↦ rw (long, good, big, frame_body-too_long h _ good big) (refl, refl, refl)
        | inr fits ↦
            rw (long, good, fits)
              (full_header-Gives (ground (arith, length-drop p.read_pos p.buf)) good fits)
      ]
    ]
  ])

  pub read_header-IsParser : IsParser (read_header p out).parser
  unfolding read_header h after_header
  read_header-IsParser = elim (Bool-cases (ltb (readable p) 13)) [
    | inl short ↦ rw short v
    | inr long ↦ elim (Bool-cases (not (h.magic == protocol_magic))) [
      | inl bad ↦
          rw (long, bad) (record { in_buffer = inside long; bytes = v.bytes; pending_ok = tt })
      | inr good ↦ elim (Bool-cases (ltb max_body_length h.body_length)) [
        | inl big ↦
            rw (long, good, big)
              (record { in_buffer = inside long; bytes = v.bytes; pending_ok = tt })
        | inr fits ↦
            rw (long, good, fits)
              (read_body-IsParser after_header out
                (record {
                  in_buffer = inside long;
                  bytes = v.bytes;
                  pending_ok = accepted good fits;
                })
                refl)
      ]
    ]
  ]
    where
      inside : ltb (readable p) 13 ≡ false → p.read_pos + 13 ≤ length p.buf
      inside l = ground (arith, v.in_buffer)
