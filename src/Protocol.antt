-- ===== src/Protocol.antt =====
-- src/protocol/protocol.h and protocol.cpp: the 13-byte packet header and its wire form.
-- A `uint8_t` buffer is a list of bytes. A C++ enum value read from the wire may be any byte, so a
-- command type is its byte.
pub mod Wire
pub mod Parser
use protocol_design.Prelude.{
  ℕ, ◌+◌, ◌*◌, ◌/◌, ◌^◌, List, [], ◌∷◌, ◌++◌, bit_and, bit_or, get_or, length, u8, u16, u32, ◌>>>◌,
  ◌<<<◌,
}

abbrev pub CmdType : Type 0
CmdType = ℕ

abbrev pub heartbeat : CmdType
heartbeat = 0x01

abbrev pub spawn_app : CmdType
spawn_app = 0x02

abbrev pub session_ack : CmdType
session_ack = 0x03

abbrev pub apphost_ready : CmdType
apphost_ready = 0x04

abbrev pub pixel_data : CmdType
pixel_data = 0x10

abbrev pub input_event : CmdType
input_event = 0x20

abbrev pub close_session : CmdType
close_session = 0xfe

abbrev pub error_resp : CmdType
error_resp = 0xff

pub record Header : Type 0 where
  pub magic : ℕ
  pub session_id : ℕ
  pub cmd_type : CmdType
  pub body_length : ℕ
  pub reserved : ℕ

abbrev pub zero_header : Header
zero_header = record { magic = 0; session_id = 0; cmd_type = 0; body_length = 0; reserved = 0 }

abbrev pub protocol_magic : ℕ
protocol_magic = 0xbeef

abbrev pub header_size : ℕ
header_size = 13

abbrev pub max_body_length : ℕ
max_body_length = 64 * 1024 * 1024

pub record Packet : Type 0 where
  pub header : Header
  pub body : List ℕ

-- What `serialize_header` writes to the 13 bytes at `buf`.
unfoldable pub serialize_header : Header → List ℕ
serialize_header h =
    bit_and (h.magic >>> 8) 0xff
    ∷ bit_and h.magic 0xff
    ∷ bit_and (h.session_id >>> 24) 0xff
    ∷ bit_and (h.session_id >>> 16) 0xff
    ∷ bit_and (h.session_id >>> 8) 0xff
    ∷ bit_and h.session_id 0xff
    ∷ u8 h.cmd_type
    ∷ bit_and (h.body_length >>> 24) 0xff
    ∷ bit_and (h.body_length >>> 16) 0xff
    ∷ bit_and (h.body_length >>> 8) 0xff
    ∷ bit_and h.body_length 0xff
    ∷ bit_and (h.reserved >>> 8) 0xff
    ∷ bit_and h.reserved 0xff
    ∷ []

-- Two and four bytes from index `i`, most significant first.
be16_at : List ℕ → ℕ → ℕ
be16_at buf i = u16 (bit_or (get_or buf i 0 <<< 8) (get_or buf (i + 1) 0))

be32_at : List ℕ → ℕ → ℕ
be32_at buf i =
    bit_or
      (bit_or (bit_or (u32 (get_or buf i 0 <<< 24)) (u32 (get_or buf (i + 1) 0 <<< 16)))
        (u32 (get_or buf (i + 2) 0 <<< 8)))
      (get_or buf (i + 3) 0)

-- Reads the first 13 bytes of `buf`.
unfoldable pub deserialize_header : List ℕ → Header
unfolding be16_at be32_at
deserialize_header buf = record {
  magic = be16_at buf 0;
  session_id = be32_at buf 2;
  cmd_type = get_or buf 6 0;
  body_length = be32_at buf 7;
  reserved = be16_at buf 11;
}
