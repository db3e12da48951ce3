-- ===== src/Tests/Wire.antt =====
-- The theorems on packets and streams at concrete packets.
use mathlib.Core.List.{flatten}
use protocol_design.Prelude.{ℕ, ◌≡◌, refl, List, [], ◌∷◌, ◌++◌, take, drop, arith}
use protocol_design.Protocol.{
  Header, Packet, heartbeat, input_event, serialize_header, deserialize_header,
}
use protocol_design.Protocol.Wire.{IsHeader, deserialize-serialize}
use protocol_design.Protocol.Parser.{empty, feed, next_packet, read_header, read_body, no_packet}
use protocol_design.Protocol.Parser.Stream.{frame, live, encode, encode_all}
use protocol_design.Protocol.Parser.Framing.{IsPacket}
use protocol_design.Protocol.Parser.Refine.{view, empty-IsParser, Gives}
use protocol_design.Protocol.Parser.Calls.{next_packet-Gives}
use protocol_design.Protocol.Parser.Feed.{feed-view, feed-IsParser}
use protocol_design.Protocol.Parser.Receive.{receive, receive_all, each_packet}
use protocol_design.Protocol.Parser.Chunks.{SameOutcome, receive-append, delivery}

-- A heartbeat and an event with three bytes of body, for session 258.
abbrev beat : Header
beat = record {
  magic = 0xbeef;
  session_id = 258;
  cmd_type = heartbeat;
  body_length = 0;
  reserved = 0;
}

abbrev event : Header
event = record {
  magic = 0xbeef;
  session_id = 258;
  cmd_type = input_event;
  body_length = 3;
  reserved = 0;
}

abbrev pub beat_packet : Packet
beat_packet = record { header = beat; body = [] }

abbrev event_packet : Packet
event_packet = record { header = event; body = 1 ∷ 2 ∷ 3 ∷ [] }

abbrev pub beat_bytes : List ℕ
beat_bytes = 0xbe ∷ 0xef ∷ 0 ∷ 0 ∷ 1 ∷ 2 ∷ 1 ∷ 0 ∷ 0 ∷ 0 ∷ 0 ∷ 0 ∷ 0 ∷ []

abbrev pub event_bytes : List ℕ
event_bytes = 0xbe ∷ 0xef ∷ 0 ∷ 0 ∷ 1 ∷ 2 ∷ 0x20 ∷ 0 ∷ 0 ∷ 0 ∷ 3 ∷ 0 ∷ 0 ∷ 1 ∷ 2 ∷ 3 ∷ []

beat_wire : serialize_header beat ≡ beat_bytes
unfolding serialize_header
beat_wire = refl

event_wire : encode event_packet ≡ event_bytes
unfolding serialize_header
event_wire = refl

beat-IsHeader : IsHeader beat
beat-IsHeader = record {
  magic_fits = omega arith;
  session_id_fits = omega arith;
  cmd_type_fits = omega arith;
  body_length_fits = omega arith;
  reserved_fits = omega arith;
}

event-IsHeader : IsHeader event
event-IsHeader = record {
  magic_fits = omega arith;
  session_id_fits = omega arith;
  cmd_type_fits = omega arith;
  body_length_fits = omega arith;
  reserved_fits = omega arith;
}

pub beat-IsPacket : IsPacket beat_packet
beat-IsPacket = record {
  header_ok = beat-IsHeader;
  magic_ok = refl;
  length_ok = refl;
  size_ok = omega arith;
}

event-IsPacket : IsPacket event_packet
event-IsPacket = record {
  header_ok = event-IsHeader;
  magic_ok = refl;
  length_ok = refl;
  size_ok = omega arith;
}

deserialize-serialize_example : deserialize_header (serialize_header beat ++ 7 ∷ []) ≡ beat
deserialize-serialize_example = deserialize-serialize beat (7 ∷ []) beat-IsHeader

next_packet-Gives_example :
    Gives
      (frame (beat_bytes ++ event_bytes))
      (beat_bytes ++ event_bytes)
      no_packet
      (next_packet (feed empty (beat_bytes ++ event_bytes)) no_packet)
next_packet-Gives_example =
    next_packet-Gives (feed empty (beat_bytes ++ event_bytes)) no_packet
      (feed-IsParser empty (beat_bytes ++ event_bytes) empty-IsParser (omega arith))
      (beat_bytes ++ event_bytes) (feed-view empty (beat_bytes ++ event_bytes) empty-IsParser)

-- The types of the packets handled, newest first.
abbrev pub note : Packet → List ℕ → List ℕ
note k seen = k.header.cmd_type ∷ seen

handled_types : (receive note empty (beat_bytes ++ event_bytes) []).0 ≡ input_event ∷ heartbeat ∷ []
unfolding receive each_packet next_packet read_header read_body feed deserialize_header
handled_types = refl

receive-append_example :
    SameOutcome note
      (receive note
        (receive note empty (take 5 beat_bytes) []).1
        (drop 5 beat_bytes ++ event_bytes)
        (receive note empty (take 5 beat_bytes) []).0)
      (receive note empty (beat_bytes ++ event_bytes) [])
receive-append_example =
    receive-append note empty (take 5 beat_bytes) (drop 5 beat_bytes ++ event_bytes) []
      empty-IsParser (omega arith) (omega arith)

abbrev pieces : List (List ℕ)
pieces = (drop 5 beat_bytes ++ take 9 event_bytes) ∷ drop 9 event_bytes ∷ []

pieces_joined : take 5 beat_bytes ++ flatten pieces ≡ encode_all (beat_packet ∷ event_packet ∷ [])
unfolding flatten serialize_header
pieces_joined = refl

delivery_example :
    ((receive_all note empty (take 5 beat_bytes ∷ pieces) []).0 ≡ input_event ∷ heartbeat ∷ [])
    × (view (receive_all note empty (take 5 beat_bytes ∷ pieces) []).1 ≡ live [])
delivery_example =
    delivery note (beat_packet ∷ event_packet ∷ []) (take 5 beat_bytes) pieces []
      (beat-IsPacket, (event-IsPacket, tt)) (omega arith) (omega arith) (omega arith) pieces_joined
