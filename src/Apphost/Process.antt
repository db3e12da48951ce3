-- ===== src/Apphost/Process.antt =====
-- AppHost::Impl of src/apphost/apphost.cpp: the process that hosts a plugin and talks to the gateway. What
-- the operating system answers is given, and so is what the plugin comes to, as a change of the
-- host and a result: the model does not look into the program of a plugin.
pub mod Handing
pub mod Reading
use protocol_design.Prelude.{
  ℕ, zero, suc, ◌+◌, List, [], ◌∷◌, ◌++◌, Bool, true, false, not, ◌&&◌, ◌||◌, Option, none, some,
  if◌then◌else◌, ◌==◌, length, u32,
}
use protocol_design.Prelude.Int.{ℤ, pos, negsuc}
use protocol_design.Common.Sending.{send_all}
use protocol_design.Common.InputEvent.{
  GkcConstants, Parsed, out_of_bounds, rejected, parsed, ParsedInputEvent, mouse_kind,
  keyboard_kind, parse_input_event_body,
}
use protocol_design.Common.MessageHandler.{MessageHandler, HandlerFn, init, register_handler, feed}
use protocol_design.Protocol.{
  Header, Packet, CmdType, heartbeat, apphost_ready, pixel_data, input_event, close_session,
  protocol_magic, serialize_header,
}
use protocol_design.Apphost.UiHost.{
  State, InputEvent, mouse_input, keyboard_input, post_input, request_quit, set_pixel_data_sink,
  start,
}

-- A round of the reader: whether the AppHost is shutting down, and what `recv` gives, which is nothing at
-- the end of the connection.
pub record Read : Type 0 where
  pub shutting_down : Bool
  pub recv : Option (List ℕ)

-- `wire` is what `send` has taken, and `is_undefined` is set by a read past the end of a packet. What the
-- sink gets are the frames of `host`, and it sends each by `send_pixel_data`.
pub record AppHost (P : Type 0) : Type 0 where
  pub has_sock : Bool
  pub session_id : ℕ
  pub host : State P
  pub wire : List ℕ
  pub answers : List ℤ
  pub is_undefined : Bool

-- An attempt of `connect_to_gateway`: whether there is a socket, and whether it connects.
unfoldable pub connect_attempts : ℕ → List (Bool × Bool) → Bool
connect_attempts zero attempts = false
connect_attempts (suc n) [] = false
connect_attempts (suc n) ((has_socket, connected) ∷ attempts) =
    let later = connect_attempts n attempts in
    if not has_socket then false else if connected then true else later

abbrev pub max_attempts : ℕ
max_attempts = 5

module _ {P : Type 0} where
  unfoldable pub send_packet : CmdType → List ℕ → AppHost P → Bool × AppHost P
  send_packet cmd body a =
      let header : Header = record {
        magic = protocol_magic;
        session_id = a.session_id;
        cmd_type = cmd;
        body_length = u32 (length body);
        reserved = 0;
      } in
      let r = send_all a.answers (serialize_header header ++ body) in
      if not a.has_sock
      then (false, a)
      else (r.all_sent, record a { wire = a.wire ++ r.bytes; answers = r.answers })

  abbrev pub send_apphost_ready : AppHost P → Bool × AppHost P
  send_apphost_ready a = send_packet apphost_ready [] a

  abbrev pub send_heartbeat : AppHost P → Bool × AppHost P
  send_heartbeat a = send_packet heartbeat [] a

  abbrev pub send_pixel_data : List ℕ → AppHost P → Bool × AppHost P
  send_pixel_data body a = send_packet pixel_data body a

  abbrev pub on_host : (State P → State P) → AppHost P → AppHost P
  on_host f a = record a { host = f a.host }

  -- The handlers that `run` registers.
  unfoldable pub on_heartbeat : HandlerFn (AppHost P)
  unfolding send_packet
  on_heartbeat pkt a = (send_heartbeat a).1

  unfoldable pub on_close_session : HandlerFn (AppHost P)
  unfolding request_quit
  on_close_session pkt a = on_host request_quit a

  -- After a read past the end of a body what the source does is undefined; here the event is dropped and the
  -- flag set. The reader is the one thread that posts input, so that both parts of posting are one step here.
  unfoldable pub on_parsed : Parsed → AppHost P → AppHost P
  unfolding post_input
  on_parsed out_of_bounds a = record a { is_undefined = true }
  on_parsed rejected a = a
  on_parsed (parsed ev) a = elim ev.kind [
    | mouse_kind ↦ on_host (post_input (mouse_input ev.mouse)) a
    | keyboard_kind ↦ on_host (post_input (keyboard_input ev.keyboard)) a
  ]

  -- `little` is the byte order of the host.
  module _ (little : Bool) (gkc : GkcConstants) where
    unfoldable pub on_input_event : HandlerFn (AppHost P)
    unfolding parse_input_event_body on_parsed
    on_input_event pkt a = on_parsed (parse_input_event_body little gkc pkt.body) a

    unfoldable pub handlers : MessageHandler (AppHost P)
    unfolding register_handler
    handlers = register_handler input_event on_input_event (
        register_handler close_session on_close_session
          (register_handler heartbeat on_heartbeat init))

    unfoldable pub reader_loop :
        List Read → MessageHandler (AppHost P) → AppHost P → AppHost P × MessageHandler (AppHost P)
    unfolding feed request_quit
    reader_loop [] h a = (a, h)
    reader_loop (r ∷ reads) h a = elim r.shutting_down [
      | true ↦ (a, h)
      | false ↦ elim r.recv [
        | none ↦ (on_host request_quit a, h)
        | some bytes ↦ let (a', h') = feed h bytes a in reader_loop reads h' a'
      ]
    ]

    -- `run`, with the attempts to connect, whether the plugin opens, and what its `run` comes to while the
    -- reader is at work: the result and the AppHost that it leaves. Then the reader sees
    -- that the AppHost is shutting down.
    unfoldable pub run :
        ℕ → List (Bool × Bool) → Bool → (AppHost P → ℤ × AppHost P) → AppHost P → ℤ × AppHost P
    unfolding connect_attempts send_packet set_pixel_data_sink
    run session_id attempts opens plugin_run a =
        let named = record a { session_id = session_id } in
        if not (connect_attempts max_attempts attempts)
        then (negsuc 0, record named { has_sock = false })
        else let (is_ready, ready) = send_apphost_ready (record named { has_sock = true }) in
          if not is_ready
          then (negsuc 1, record ready { has_sock = false })
          else let wired = on_host set_pixel_data_sink ready in
            if not opens
            then (negsuc 2, record wired { has_sock = false })
            else let (rc, left) = plugin_run wired in (rc, record left { has_sock = false })
