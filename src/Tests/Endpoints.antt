-- ===== src/Tests/Endpoints.antt =====
-- The theorems on the client, the AppHost and the plugins at concrete inputs.
use mathlib.Core.List.{flatten}
use protocol_design.Plugins.Viewer.{Viewer}
use protocol_design.Prelude.{
  ℕ, suc, ◌≡◌, ◌≢◌, refl, List, [], ◌∷◌, ◌++◌, map, true, false, none, some, take, drop, replicate,
  arith,
}
use protocol_design.Prelude.Assoc.{lookup}
use protocol_design.Prelude.Int.{pos, negsuc}
use protocol_design.Common.InputEvent.{
  UiMessageMouse, out_of_bounds, no_mouse, key_down, no_keyboard, parse_input_event_body,
  is_mouse_event, is_keyboard_event, read_be16_at, read_be64_at, fill_keyboard_message,
}
use protocol_design.Common.ByteOrder.{be16, bswap16}
use protocol_design.Common.InputEvent.Keyboard.{packed}
use protocol_design.Common.Sending.{IsFront, send_all, send_all-IsFront, send_all_ends}
use protocol_design.Protocol.{
  Header, Packet, session_ack, input_event, close_session, serialize_header,
}
use protocol_design.Protocol.Parser.{empty}
use protocol_design.Protocol.Parser.Stream.{encode_all}
use protocol_design.Protocol.Parser.Framing.{IsPacket}
use protocol_design.Protocol.Parser.Receive.{handle_all}
use protocol_design.Client.Runtime.{Client, no_failure, handle_packet, run_rounds}
use protocol_design.Client.Runtime.Receiving.{piece, run_rounds-delivery}
use protocol_design.Apphost.UiHost.{start, State, WindowRuntime, keyboard_input, dispatch_input}
use protocol_design.Apphost.Process.{AppHost, handlers, reader_loop}
use protocol_design.Apphost.Process.Handing.{Hands, all_events}
use protocol_design.Apphost.Process.Reading.{arrives, reader_loop-delivery}
use protocol_design.Plugins.App2048.Spawning.{IsGrown, move-IsGrown}
use protocol_design.Plugins.App2048.{
  Generator, left, playing, move, move_line, compress_line, merge, pack,
}
use protocol_design.Plugins.Game.{Palette, Window, press, game}
use protocol_design.Plugins.Game.Keys.{IsPlaying, dispatch_input-Follows, Follows, moves}
use protocol_design.Tests.Screen.{colors, rect_ops}
use protocol_design.Tests.Bodies.{gkc}

send_all_example : IsFront (send_all (pos 2 ∷ negsuc 0 ∷ []) (1 ∷ 2 ∷ 3 ∷ [])) (1 ∷ 2 ∷ 3 ∷ [])
send_all_example = send_all-IsFront (pos 2 ∷ negsuc 0 ∷ []) (1 ∷ 2 ∷ 3 ∷ [])

send_all_ends_example :
    let r = send_all (pos 2 ∷ pos 1 ∷ pos 9 ∷ []) (1 ∷ 2 ∷ 3 ∷ []) in
    (r.all_sent ≡ true) × (r.bytes ≡ 1 ∷ 2 ∷ 3 ∷ [])
send_all_ends_example =
    send_all_ends (pos 2 ∷ pos 1 ∷ pos 9 ∷ []) (1 ∷ 2 ∷ 3 ∷ []) (omega arith)
      (refl, (refl, (refl, tt)))

-- An acknowledgement of session 5, a key and the end of the session.
abbrev header_of : ℕ → ℕ → Header
header_of cmd len = record {
  magic = 0xbeef;
  session_id = 5;
  cmd_type = cmd;
  body_length = len;
  reserved = 0;
}

abbrev ack_packet : Packet
ack_packet = record { header = header_of session_ack 0; body = [] }

abbrev key_packet : Packet
key_packet = record { header = header_of input_event 11; body = packed key_down 65 1000 }

abbrev end_packet : Packet
end_packet = record { header = header_of close_session 0; body = [] }

ack-IsPacket : IsPacket ack_packet
ack-IsPacket = record {
  header_ok = record {
    magic_fits = omega arith;
    session_id_fits = omega arith;
    cmd_type_fits = omega arith;
    body_length_fits = omega arith;
    reserved_fits = omega arith;
  };
  magic_ok = refl;
  length_ok = refl;
  size_ok = omega arith;
}

key-IsPacket : IsPacket key_packet
key-IsPacket = record {
  header_ok = record {
    magic_fits = omega arith;
    session_id_fits = omega arith;
    cmd_type_fits = omega arith;
    body_length_fits = omega arith;
    reserved_fits = omega arith;
  };
  magic_ok = refl;
  length_ok = refl;
  size_ok = omega arith;
}

end-IsPacket : IsPacket end_packet
end-IsPacket = record {
  header_ok = record {
    magic_fits = omega arith;
    session_id_fits = omega arith;
    cmd_type_fits = omega arith;
    body_length_fits = omega arith;
    reserved_fits = omega arith;
  };
  magic_ok = refl;
  length_ok = refl;
  size_ok = omega arith;
}

abbrev ack_bytes : List ℕ
ack_bytes = 0xbe ∷ 0xef ∷ 0 ∷ 0 ∷ 0 ∷ 5 ∷ 3 ∷ 0 ∷ 0 ∷ 0 ∷ 0 ∷ 0 ∷ 0 ∷ []

ack_wire : take 4 ack_bytes ++ flatten (drop 4 ack_bytes ∷ []) ≡ encode_all (ack_packet ∷ [])
unfolding flatten serialize_header
ack_wire = refl

abbrev client : Client
client = record {
  app_name = [];
  renderer = none;
  has_callback = true;
  repaints = 0;
  stop_requested = false;
  connected = true;
  session_id = 0;
  last_error = no_failure;
  has_socket = true;
  wire = [];
  answers = [];
}

client_example :
    ((run_rounds rect_ops colors
        (map piece (take 4 ack_bytes ∷ drop 4 ack_bytes ∷ []))
        client
        empty).0
      ≡ handle_all (handle_packet rect_ops colors) client (ack_packet ∷ []))
    × ((run_rounds rect_ops colors
          (map piece (take 4 ack_bytes ∷ drop 4 ack_bytes ∷ []))
          client
          empty).0.session_id
        ≡ 5)
client_example =
    run_rounds-delivery rect_ops colors (ack_packet ∷ []) (take 4 ack_bytes) (drop 4 ack_bytes ∷ [])
      client (ack-IsPacket, tt) (omega arith) (omega arith) (omega arith) ack_wire

abbrev key_bytes : List ℕ
key_bytes =
    0xbe ∷ 0xef ∷ 0 ∷ 0 ∷ 0 ∷ 5 ∷ 0x20 ∷ 0 ∷ 0 ∷ 0 ∷ 11 ∷ 0 ∷ 0 ∷ 0x10 ∷ 0 ∷ 65 ∷ 0 ∷ 0 ∷ 0 ∷ 0 ∷ 0
    ∷ 0 ∷ 3 ∷ 232 ∷ []

abbrev end_bytes : List ℕ
end_bytes = 0xbe ∷ 0xef ∷ 0 ∷ 0 ∷ 0 ∷ 5 ∷ 0xfe ∷ 0 ∷ 0 ∷ 0 ∷ 0 ∷ 0 ∷ 0 ∷ []

stream_wire :
    take 20 key_bytes ++ flatten ((drop 20 key_bytes ++ end_bytes) ∷ [])
    ≡ encode_all (key_packet ∷ end_packet ∷ [])
unfolding flatten serialize_header
stream_wire = refl

abbrev apphost : AppHost ℕ
apphost = record {
  has_sock = true;
  session_id = 5;
  host = start 0;
  wire = [];
  answers = [];
  is_undefined = false;
}

events_run :
    all_events true gkc (key_packet ∷ end_packet ∷ [])
    ≡ keyboard_input (record no_keyboard { key = 65; down = 1 }) ∷ []
unfolding parse_input_event_body is_mouse_event is_keyboard_event read_be16_at read_be64_at
    fill_keyboard_message be16 bswap16
events_run = refl

key_readable : parse_input_event_body true gkc key_packet.body ≢ out_of_bounds
unfolding parse_input_event_body is_mouse_event is_keyboard_event read_be16_at read_be64_at
    fill_keyboard_message be16 bswap16
key_readable e = cc e

apphost_example :
    let b =
      (reader_loop true gkc
        (map arrives (take 20 key_bytes ∷ (drop 20 key_bytes ++ end_bytes) ∷ []))
        (handlers true gkc)
        apphost).0 in
    Hands apphost b (all_events true gkc (key_packet ∷ end_packet ∷ [])) true
    × (b.is_undefined ≡ false)
apphost_example =
    reader_loop-delivery true gkc (key_packet ∷ end_packet ∷ []) (take 20 key_bytes)
      ((drop 20 key_bytes ++ end_bytes) ∷ []) apphost (key-IsPacket, (end-IsPacket, tt))
      (omega arith) ((λ e. key_readable), ((λ e. absurd (cc e)), tt)) (omega arith) (omega arith)
      stream_wire

-- A generator that counts, and a board with two tiles on its first line.
abbrev counting : Generator
counting = record { Rng = ℕ; seeded = λ seed. seed; draw = λ n r. (0, suc r) }

abbrev palette : Palette
palette = record { quad = λ r g b a. r; orange = 1; hot_pink = 2; purple = 3 }

abbrev two_tiles : Window palette counting
two_tiles = record {
  board = record {
    tiles = 2 ∷ 0 ∷ 2 ∷ replicate 13 0;
    merged = replicate 16 false;
    score = 0;
    state = playing;
    rng = 0;
  };
  rng = 0;
}

abbrev game_window : WindowRuntime
game_window = record {
  id = 64;
  width = 160;
  height = 200;
  pixels = [];
  has_handler = true;
  destroyed = false;
}

abbrev game_host : State (Window palette counting)
game_host = record (start two_tiles) { window = some game_window; has_sink = true }

game_host-IsPlaying : IsPlaying game_host game_window
game_host-IsPlaying = record {
  window_ok = refl;
  alive = refl;
  handled = refl;
  sends = refl;
  width_ok = refl;
  height_ok = refl;
}

left_key_example : Follows palette counting (moves left) game_host (
    dispatch_input true
      (game palette counting)
      (keyboard_input (record no_keyboard { key = 0x25; down = 1 }))
      game_host)
unfolding lookup
left_key_example =
    dispatch_input-Follows true palette counting (record no_keyboard { key = 0x25; down = 1 })
      game_host game_window game_host-IsPlaying

left_key_changes : (press palette counting 0x25 two_tiles).0 ≡ true
unfolding press move move_line compress_line merge pack
left_key_changes = refl

move-IsGrown_example :
    IsGrown
      (move counting left two_tiles.board).0.changed
      two_tiles.board.tiles
      (move counting left two_tiles.board).1.tiles
move-IsGrown_example =
    move-IsGrown counting (λ n rng. omega arith) left two_tiles.board refl (omega arith)

-- A picture of two pixels in a window of four columns and two rows.
abbrev pub small_viewer : Viewer
small_viewer = record {
  renderer = record { width = 2; height = 1; last_frame_seq = 0; pixels = 10 ∷ 20 ∷ [] };
  runtime = client;
  canvas_width = 2;
  canvas_height = 1;
  display_width = 4;
  display_height = 2;
  draw_count = 0;
}

abbrev corner : UiMessageMouse
corner = record no_mouse { x = 3; y = 1 }
