-- ===== src/Protocol/Parser.antt =====
-- src/protocol/message_parser.h and message_parser.cpp: packets out of a byte stream that arrives
-- in pieces. An out parameter is an argument that comes back in the result.
pub mod Stream
pub mod Framing
pub mod Refine
pub mod Feed
pub mod Calls
pub mod Receive
pub mod Keeping
pub mod Chunks
use protocol_design.Prelude.{
  ℕ, zero, suc, ◌+◌, ◌-◌, ◌/◌, List, [], ◌∷◌, ◌++◌, Bool, not, ◌&&◌, length, take, drop, ltb, ◌==◌,
  if◌then◌else◌,
}
use protocol_design.Protocol.{
  Header, Packet, zero_header, protocol_magic, header_size, max_body_length, deserialize_header,
}

pub data ParseResult : Type 0 where
  ok incomplete error : ParseResult

pub data State : Type 0 where
  wait_header wait_body poisoned : State

pub record MessageParser : Type 0 where
  pub buf : List ℕ
  pub read_pos : ℕ
  pub state : State
  pub pending_header : Header

abbrev pub empty : MessageParser
empty = record { buf = []; read_pos = 0; state = wait_header; pending_header = zero_header }

abbrev pub no_packet : Packet
no_packet = record { header = zero_header; body = [] }

abbrev pub readable : MessageParser → ℕ
readable p = length p.buf - p.read_pos

unfoldable pub compact : MessageParser → MessageParser
compact p = record p { buf = drop p.read_pos p.buf; read_pos = 0 }

append_bytes : MessageParser → List ℕ → MessageParser
append_bytes p bytes = record p { buf = p.buf ++ bytes }

unfoldable pub feed : MessageParser → List ℕ → MessageParser
unfolding compact append_bytes
feed p bytes = elim p.state [
  | poisoned ↦ p
  | _ ↦
      append_bytes (if ltb (length p.buf / 2) p.read_pos && ltb 0 p.read_pos then compact p else p)
        bytes
]

-- The result of `next_packet`: what it returns, its out parameter, and the parser after it.
pub record Next : Type 0 where
  pub result : ParseResult
  pub out : Packet
  pub parser : MessageParser

-- The second half of `next_packet`, in state WAIT_BODY.
unfoldable pub read_body : MessageParser → Packet → Next
read_body p out =
    if ltb (readable p) p.pending_header.body_length
    then record { result = incomplete; out = out; parser = p }
    else record {
      result = ok;
      out = record {
        header = p.pending_header;
        body = take p.pending_header.body_length (drop p.read_pos p.buf);
      };
      parser = record p {
        read_pos = p.read_pos + p.pending_header.body_length;
        state = wait_header;
      };
    }

-- The first half, in state WAIT_HEADER, which falls through to the second.
unfoldable pub read_header : MessageParser → Packet → Next
read_header p out =
    if ltb (readable p) header_size
    then record { result = incomplete; out = out; parser = p }
    else let h = deserialize_header (drop p.read_pos p.buf) in
      let p' = record p { pending_header = h; read_pos = p.read_pos + header_size } in
      if not (h.magic == protocol_magic)
      then record { result = error; out = out; parser = record p' { state = poisoned } }
      else if ltb max_body_length h.body_length
      then record { result = error; out = out; parser = record p' { state = poisoned } }
      else read_body (record p' { state = wait_body }) out

unfoldable pub next_packet : MessageParser → Packet → Next
next_packet p out = elim p.state [
  | poisoned ↦ record { result = error; out = out; parser = p }
  | wait_header ↦ read_header p out
  | wait_body ↦ read_body p out
]

unfoldable pub reset : MessageParser → MessageParser
reset p = record { buf = []; read_pos = 0; state = wait_header; pending_header = zero_header }
