-- ===== src/Protocol/Parser/Stream.antt =====
-- What a byte stream says, without a parser's state: the specification that
-- src/protocol/message_parser.cpp implements.
use protocol_design.Prelude.{
  ℕ, ◌≡◌, List, [], ◌∷◌, ◌++◌, not, length, take, drop, ltb, ◌==◌, if◌then◌else◌,
}
use protocol_design.Protocol.{
  Header, Packet, protocol_magic, header_size, max_body_length, serialize_header,
  deserialize_header,
}

-- The first frame of a stream: none yet, a protocol violation, or a packet and what follows it.
pub data Frame : Type 0 where
  need_more violation : Frame
  packet : Packet → List ℕ → Frame

unfoldable pub frame_body : Header → List ℕ → Frame
frame_body h rest =
    if not (h.magic == protocol_magic)
    then violation
    else if ltb max_body_length h.body_length
    then violation
    else if ltb (length rest) h.body_length
    then need_more
    else packet (record { header = h; body = take h.body_length rest }) (drop h.body_length rest)

unfoldable pub frame : List ℕ → Frame
frame s =
    if ltb (length s) header_size
    then need_more
    else frame_body (deserialize_header s) (drop header_size s)

-- What is left of a stream: bytes that more may follow, or nothing that can be read.
pub data Stream : Type 0 where
  live : List ℕ → Stream
  dead : Stream

-- `Frames s ks e`: the packets of `s` are `ks`, in order, and `e` is left.
pub data Frames : List ℕ → List Packet → Stream → Type 0 where
  stalled : (s : List ℕ) → frame s ≡ need_more → Frames s [] (live s)
  broken : (s : List ℕ) → frame s ≡ violation → Frames s [] dead
  next :
      {s rest : List ℕ} {k : Packet} {ks : List Packet} {e : Stream}
      → frame s ≡ packet k rest
      → Frames rest ks e
      → Frames s (k ∷ ks) e

-- The wire form of a packet.
abbrev pub encode : Packet → List ℕ
encode k = serialize_header k.header ++ k.body

abbrev pub encode_all : List Packet → List ℕ
encode_all [] = []
encode_all (k ∷ ks) = encode k ++ encode_all ks
