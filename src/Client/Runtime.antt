-- ===== src/Client/Runtime.antt =====
-- ClientRuntime of src/client/client.h and client.cpp. What the operating system answers is given: the
-- addresses of the gateway with what `socket` and `connect` do for each, the answers of `send`, and for
-- each round of the loop in `run` what the clock and `recv` say. The parser is kept beside the state.
pub mod Receiving
use protocol_design.Prelude.{
  ℕ, suc, ◌+◌, List, [], ◌∷◌, ◌++◌, Bool, true, false, not, ◌&&◌, ◌||◌, Option, none, some,
  if◌then◌else◌, ◌==◌,
}
use protocol_design.Prelude.Int.{ℤ}
use protocol_design.Common.Rect.{RectOps}
use protocol_design.Common.Sending.{send_all}
use protocol_design.Protocol.{
  Packet, CmdType, heartbeat, spawn_app, session_ack, pixel_data, input_event, error_resp,
}
use protocol_design.Protocol.Parser.{MessageParser}
use protocol_design.Protocol.Parser.Receive.{receive}
use protocol_design.Client.Requests.{pack_spawn_app_body, wire_packet}
use protocol_design.Client.Renderer.{
  PixelRenderer, Colors, ApplyResult, ok, stale_frame, bad_rect, bad_length, apply_pixel_data_body,
}

-- The texts of `last_error_`.
pub data Failure : Type 0 where
  no_failure lookup_failed connect_failed send_failed error_returned : Failure

-- `wire` is what `send` has taken.
pub record Client : Type 0 where
  pub app_name : List ℕ
  pub renderer : Option PixelRenderer
  pub has_callback : Bool
  pub repaints : ℕ
  pub stop_requested : Bool
  pub connected : Bool
  pub session_id : ℕ
  pub last_error : Failure
  pub has_socket : Bool
  pub wire : List ℕ
  pub answers : List ℤ

pub data Recv : Type 0 where
  timed_out ended : Recv
  got : List ℕ → Recv

-- A round of the loop: whether `stop` has been called, whether a heartbeat is due, and `recv`.
pub record Round : Type 0 where
  pub stopped : Bool
  pub due : Bool
  pub recv : Recv

abbrev pub is_ok : ApplyResult → Bool
is_ok ok = true
is_ok stale_frame = false
is_ok bad_rect = false
is_ok bad_length = false

unfoldable pub set_error : Failure → Client → Client
set_error e c = record c { last_error = e }

unfoldable pub close_socket : Client → Client
close_socket c = record c { has_socket = false }

unfoldable pub send_packet : CmdType → ℕ → List ℕ → Client → Bool × Client
unfolding set_error
send_packet cmd session_id body c =
    if not c.connected
    then (false, c)
    else let r = send_all c.answers (wire_packet cmd session_id body) in
      let sent = record c { wire = c.wire ++ r.bytes; answers = r.answers } in
      if not r.all_sent then (false, set_error send_failed sent) else (true, sent)

unfoldable pub send_spawn_app : Client → Bool × Client
unfolding send_packet
send_spawn_app c = send_packet spawn_app 0 (pack_spawn_app_body c.app_name) c

unfoldable pub send_input_event : List ℕ → Client → Bool × Client
unfolding send_packet
send_input_event body c =
    if c.session_id == 0 || not c.connected
    then (false, c)
    else send_packet input_event c.session_id body c

-- The loop over the addresses, each with whether there is a socket and whether it connects.
unfoldable pub connects : List (Bool × Bool) → Bool
connects [] = false
connects ((has_socket, connected) ∷ addresses) =
    let rest = connects addresses in if has_socket && connected then true else rest

-- getaddrinfo fails, or gives addresses.
unfoldable pub open_socket : Option (List (Bool × Bool)) → Client → Bool × Client
unfolding set_error connects
open_socket none c = (false, set_error lookup_failed c)
open_socket (some addresses) c =
    if connects addresses
    then (true, record c { has_socket = true })
    else (false, set_error connect_failed c)

unfoldable pub stop : Client → Client
unfolding close_socket
stop c = record (close_socket (record c { stop_requested = true })) { connected = false }

-- `start` up to its thread, and whether it starts one.
unfoldable pub start : List ℕ → Bool → Option PixelRenderer → Bool → Client → Bool × Client
unfolding stop set_error
start app_name connect_gateway renderer has_callback c = (
  connect_gateway,
  set_error no_failure (record (stop c) {
    app_name = app_name;
    renderer = renderer;
    has_callback = has_callback;
    stop_requested = false;
    session_id = 0;
    connected = false;
  }),
)

-- The end of `run`.
unfoldable pub closed : Client → Client
unfolding close_socket
closed c = record (close_socket c) { connected = false }

module _ (ops : RectOps) (colors : Colors) where
  unfoldable pub handle_packet : Packet → Client → Client
  unfolding apply_pixel_data_body set_error
  handle_packet packet c =
      let cmd = packet.header.cmd_type in
      if cmd == session_ack
      then record c { session_id = packet.header.session_id }
      else if cmd == pixel_data
      then elim c.renderer [
        | none ↦ c
        | some p ↦
            let (result, painted) = apply_pixel_data_body ops colors packet.body p in
            record c {
              renderer = some painted;
              repaints = if is_ok result && c.has_callback then suc c.repaints else c.repaints;
            }
      ]
      else if cmd == error_resp
      then set_error error_returned c
      else c

  -- The heartbeat of a round.
  unfoldable pub keep_alive : Bool → Client → Client
  unfolding send_packet
  keep_alive due c =
      if not (c.session_id == 0) && due then (send_packet heartbeat c.session_id [] c).1 else c

  -- The loop of `run`: with no round left it is still running.
  unfoldable pub run_rounds : List Round → Client → MessageParser → Client × MessageParser
  unfolding keep_alive closed
  run_rounds [] c p = (c, p)
  run_rounds (r ∷ rounds) c p = elim r.stopped [
    | true ↦ (closed c, p)
    | false ↦ elim r.recv [
      | timed_out ↦ run_rounds rounds (keep_alive r.due c) p
      | ended ↦ (closed (keep_alive r.due c), p)
      | got bytes ↦
          let (handled, p') = receive handle_packet p bytes (keep_alive r.due c) in
          run_rounds rounds handled p'
    ]
  ]

  unfoldable pub run :
      Option (List (Bool × Bool)) → List Round → Client → MessageParser → Client × MessageParser
  unfolding open_socket send_spawn_app run_rounds
  run addresses rounds c p =
      let (is_open, opened) = open_socket addresses c in
      if not is_open
      then (opened, p)
      else let (spawned, asked) = send_spawn_app (record opened { connected = true }) in
        if not spawned then (closed asked, p) else run_rounds rounds asked p
