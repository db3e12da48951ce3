-- ===== src/Client/Requests.antt =====
-- The request bodies and packets that src/client/client.cpp builds.
use protocol_design.Prelude.{ℕ, List, [], ◌∷◌, ◌++◌, bit_and, length, u8, u32, ◌>>>◌}
use protocol_design.Protocol.{CmdType, protocol_magic, serialize_header}

-- What `write_be32` writes at `p`.
unfoldable pub write_be32 : ℕ → List ℕ
write_be32 v =
    u8 (bit_and (v >>> 24) 0xff)
    ∷ u8 (bit_and (v >>> 16) 0xff)
    ∷ u8 (bit_and (v >>> 8) 0xff)
    ∷ u8 (bit_and v 0xff)
    ∷ []

unfoldable pub pack_spawn_app_body : List ℕ → List ℕ
unfolding write_be32
pack_spawn_app_body app_name = write_be32 (u32 (length app_name)) ++ app_name

-- The bytes that `send_packet` hands to the socket.
unfoldable pub wire_packet : CmdType → ℕ → List ℕ → List ℕ
wire_packet cmd session_id body =
    serialize_header (record {
      magic = protocol_magic;
      session_id = session_id;
      cmd_type = cmd;
      body_length = u32 (length body);
      reserved = 0;
    })
    ++ body
