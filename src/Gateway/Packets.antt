-- ===== src/Gateway/Packets.antt =====
-- The helpers at the top of src/gateway/gateway.cpp: chunking for the send buffer, packets out of
-- headers and bodies, and the body of SPAWN_APP. A `std::string` is the list of its bytes.
use protocol_design.Prelude.{
  ℕ, zero, suc, ◌+◌, ◌-◌, List, [], ◌∷◌, ◌++◌, Bool, true, false, not, ◌&&◌, ◌||◌, Option, none,
  some, length, get_or, take, drop, leb, ltb, ◌==◌, if◌then◌else◌, bit_or, u32, ◌<<<◌,
}
use Prim.Native.Nat.{min}
use protocol_design.Protocol.{
  Packet, CmdType, zero_header, protocol_magic, error_resp, serialize_header,
}

-- The size of IoPool's send buffer.
abbrev pub io_pool_max_chunk : ℕ
io_pool_max_chunk = 4000

-- data[off .. off + n)
abbrev pub slice : List ℕ → ℕ → ℕ → List ℕ
slice bytes off n = take n (drop off bytes)

-- The loop of `push_chunked`, with fuel.
unfoldable pub push_from : ℕ → List ℕ → ℕ → List (List ℕ) → List (List ℕ)
push_from zero bytes off q = q
push_from (suc fuel) bytes off q =
    let n = min io_pool_max_chunk (length bytes - off) in
    let rest = push_from fuel bytes (off + n) (q ++ slice bytes off n ∷ []) in
    if ltb off (length bytes) then rest else q

-- The head of the list is the front of the queue.
unfoldable pub push_chunked : List (List ℕ) → List ℕ → List (List ℕ)
push_chunked q [] = q
push_chunked q (b ∷ bytes) =
    if leb (length (b ∷ bytes)) io_pool_max_chunk
    then q ++ (b ∷ bytes) ∷ []
    else push_from (length (b ∷ bytes) + 1) (b ∷ bytes) 0 q

unfoldable pub serialize_packet : Packet → List ℕ
serialize_packet pkt =
    serialize_header (record (pkt.header) { body_length = u32 (length pkt.body) }) ++ pkt.body

unfoldable pub make_packet : CmdType → ℕ → List ℕ
make_packet cmd session_id = serialize_header (record zero_header {
  magic = protocol_magic;
  session_id = session_id;
  cmd_type = cmd;
  body_length = 0;
})

unfoldable pub make_error : ℕ → List ℕ
make_error session_id = make_packet error_resp session_id

unfoldable pub read_be32 : List ℕ → ℕ → Option ℕ
read_be32 body offset =
    if ltb (length body) (offset + 4)
    then none
    else some (
        bit_or
          (bit_or
            (bit_or (u32 (get_or body offset 0 <<< 24)) (u32 (get_or body (offset + 1) 0 <<< 16)))
            (u32 (get_or body (offset + 2) 0 <<< 8)))
          (get_or body (offset + 3) 0))

-- std::isalnum in the C locale.
abbrev pub isalnum : ℕ → Bool
isalnum c = leb b'0' c && leb c b'9' || leb b'A' c && leb c b'Z' || leb b'a' c && leb c b'z'

-- name.find("..") != npos
unfoldable pub has_dot_dot : List ℕ → Bool
has_dot_dot [] = false
has_dot_dot (a ∷ []) = false
has_dot_dot (a ∷ b ∷ name) = a == b'.' && b == b'.' || has_dot_dot (b ∷ name)

-- The loop of `is_valid_app_name` over the characters.
unfoldable pub valid_chars : List ℕ → Bool
valid_chars [] = true
valid_chars (ch ∷ name) =
    let rest = valid_chars name in
    if ch == b'/' || ch == b'\\'
    then false
    else if not (isalnum ch || ch == b'_' || ch == b'-' || ch == b'.')
    then false
    else rest

unfoldable pub is_valid_app_name : List ℕ → Bool
unfolding has_dot_dot valid_chars
is_valid_app_name name =
    if length name == 0 || ltb 255 (length name)
    then false
    else if has_dot_dot name
    then false
    else valid_chars name

unfoldable pub parse_spawn_app_name : Packet → Option (List ℕ)
unfolding is_valid_app_name read_be32
parse_spawn_app_name pkt = elim (read_be32 pkt.body 0) [
  | none ↦ none
  | some len ↦
      if len == 0 || ltb 255 len || not (length pkt.body == 4 + len)
      then none
      else let name = take len (drop 4 pkt.body) in
        if not (is_valid_app_name name) then none else some name
]
