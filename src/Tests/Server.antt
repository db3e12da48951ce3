-- ===== src/Tests/Server.antt =====
-- The theorems on the gateway's queues, handlers and monitor at concrete states.
use mathlib.Core.List.{flatten}
use protocol_design.Prelude.{◌≡◌, refl, [], ◌∷◌, ◌++◌, true, false, none, some, arith}
use protocol_design.Prelude.Assoc.{lookup, nat_eq}
use protocol_design.Prelude.Int.{negsuc}
use protocol_design.Protocol.{serialize_header, heartbeat}
use protocol_design.Protocol.Parser.{empty}
use protocol_design.Protocol.Parser.Stream.{live}
use protocol_design.Protocol.Parser.Refine.{view}
use protocol_design.Protocol.Parser.Receive.{receive_all}
use protocol_design.Gateway.Packets.{make_packet, push_chunked, serialize_packet}
use protocol_design.Gateway.Sessions
use protocol_design.Gateway.Sessions.{
  SessionTable, find_by_pid, transition_to_closing, snapshot_sessions, remove_session,
}
use protocol_design.Gateway.Sessions.Removal.{IsGone}
use protocol_design.Gateway.Server.{
  Connection, Connections, Io, client_side, fresh_connection, at_node, find_locked, update_node,
  first_with_its_id, try_send, enqueue, drain, with_queue,
}
use protocol_design.Gateway.Server.Streams.{
  traffic, sent_to, queued, enqueue-traffic, drain-traffic,
}
use protocol_design.Gateway.Server.Bounds.{IsBounded, enqueue-IsBounded}
use protocol_design.Gateway.Server.Delivery.{Run, accepted, packet_enqueued, Run-delivery}
use protocol_design.Gateway.Server.State.{Server, with_sessions}
use protocol_design.Gateway.Server.Handlers.{handle_client_packet, handle_apphost_packet}
use protocol_design.Gateway.Server.Monitor.{
  fail_won, fail_session, monitor_round, check_exits, check_timeouts, judge, apply_verdict,
}
use protocol_design.Gateway.Server.Invariant.{IsValid}
use protocol_design.Gateway.Server.Cleanup.{fail_session-IsGone, fail_session_single}
use protocol_design.Protocol.{Packet, close_session, zero_header, input_event, pixel_data}
use protocol_design.Gateway.Sessions.{find, find_apphost, find_client}
use protocol_design.Gateway.Server.Routing.{
  handle_client_packet-traffic, handle_apphost_packet-traffic,
}
use protocol_design.Gateway.Server.Events.{recv_timeout, on_client_event}
use protocol_design.Gateway.Server.Release.{on_client_event-loss}
use protocol_design.Gateway.Server.Timeouts.{session}
use protocol_design.Gateway.Server.Health.{IsInTime, monitor_round-healthy}
use protocol_design.Tests.Wire.{beat_packet, beat-IsPacket, beat_bytes, note}
use protocol_design.Tests.Sessions.{
  created, created-IsSound, bound, bound-IsSound, bound_route, closing_run,
}

-- Handle 7 at node 3, and an IoPool that gives one buffer.
abbrev pub client : Connection
client = fresh_connection 3 7 1

abbrev pub clients : Connections
clients = client ∷ []

abbrev pub one_buffer : Io
one_buffer = record { begins = record { raw = true; cancelled = false } ∷ []; effects = [] }

client_there : at_node 3 clients ≡ some client
unfolding at_node
client_there = refl

enqueue-traffic_example :
    traffic 7 (enqueue 3 (1 ∷ 2 ∷ []) clients one_buffer)
    ≡ traffic 7 (clients, one_buffer) ++ 1 ∷ 2 ∷ []
enqueue-traffic_example =
    enqueue-traffic 3 clients one_buffer client (tt, tt) client_there (1 ∷ 2 ∷ []) 7

abbrev waiting : Connection
waiting = with_queue ((1 ∷ 2 ∷ []) ∷ (3 ∷ []) ∷ []) client

waiting_there : at_node 3 (waiting ∷ []) ≡ some waiting
unfolding at_node
waiting_there = refl

drain-traffic_example :
    traffic 7 (drain client_side 3 1 (waiting ∷ []) one_buffer)
    ≡ traffic 7 (waiting ∷ [], one_buffer)
drain-traffic_example =
    drain-traffic 3 (waiting ∷ []) one_buffer waiting (tt, tt) waiting_there client_side 1 7

waiting-IsBounded : IsBounded (waiting ∷ [], one_buffer)
waiting-IsBounded = record { queues = (omega arith, tt); sends = tt }

enqueue-IsBounded_example : IsBounded (enqueue 3 (4 ∷ []) (waiting ∷ []) one_buffer)
enqueue-IsBounded_example = enqueue-IsBounded 3 (4 ∷ []) (waiting ∷ []) one_buffer waiting-IsBounded

-- A heartbeat goes out at once.
abbrev after_beat : Connections × Io
after_beat = enqueue 3 (serialize_packet beat_packet) clients one_buffer

nothing_yet : traffic 7 (clients, one_buffer) ≡ []
unfolding find_locked flatten
nothing_yet = refl

beat-Run : Run 3 7 after_beat (beat_packet ∷ [])
unfolding at_node
beat-Run =
    packet_enqueued beat_packet
      (accepted clients one_buffer (record { distinct = (tt, tt); place = refl }) nothing_yet)
      beat-IsPacket tt

all_sent : queued 7 after_beat.0 ≡ []
unfolding enqueue first_with_its_id at_node find_locked try_send update_node serialize_packet
    push_chunked flatten serialize_header
all_sent = refl

beat_sent : beat_bytes ++ flatten [] ≡ sent_to 7 after_beat.1.effects
unfolding enqueue first_with_its_id at_node find_locked try_send update_node serialize_packet
    push_chunked flatten serialize_header
beat_sent = refl

Run-delivery_example :
    ((receive_all note empty (beat_bytes ∷ []) []).0 ≡ heartbeat ∷ [])
    × (view (receive_all note empty (beat_bytes ∷ []) []).1 ≡ live [])
Run-delivery_example =
    Run-delivery note [] beat_bytes [] beat-Run all_sent (omega arith) tt beat_sent

-- A gateway that serves session 1, 40 milliseconds after it was created.
abbrev pub server : SessionTable → Server
server t = record {
  config = record {
    public_port = 9000;
    apphost_bind_host = [];
    apphost_internal_port = 9001;
    apphost_bin = [];
    auto_spawn_apphost = true;
    spawn_timeout_ms = 100;
    client_timeout_ms = 1000;
    apphost_timeout_ms = 1000;
    app_allowlist = λ _. none;
  };
  clients = clients;
  apphosts = fresh_connection 4 9 1 ∷ [];
  next_client_generation = 1;
  next_apphost_generation = 1;
  sessions = t;
  io = one_buffer;
  files = record { executable = λ _. true; readable = λ _. true };
  spawns = [];
  now = 50;
  running = true;
  client_listen_id = 0;
  apphost_listen_id = 0;
}

server-IsValid : IsValid (server created)
server-IsValid = record {
  table = created-IsSound;
  clients_named = (omega arith, tt);
  apphosts_named = (omega arith, tt);
}

fail_session_example : IsGone 1 bound (fail_session 1 true (server bound)).sessions
fail_session_example =
    fail_session-IsGone 1 true (server bound) (bound_route, negsuc 0) bound-IsSound closing_run

fail_session_single_example :
    let during = with_sessions (transition_to_closing 1 bound).1 (server bound) in
    let ended = fail_won 1 true bound_route (negsuc 0) during in
    (fail_session 1 false during ≡ during) × (fail_session 1 false ended ≡ ended)
fail_session_single_example =
    fail_session_single 1 true false (server bound) (bound_route, negsuc 0) bound-IsSound
      closing_run

still_there :
    session 1 (monitor_round [] (server created))
    ≡ some (Sessions.new_session 1 7 (b'a' ∷ []) [] 10 100)
unfolding monitor_round check_exits check_timeouts judge apply_verdict snapshot_sessions lookup
still_there = refl

monitor_healthy_example :
    (session 1 (server created) ≡ some (Sessions.new_session 1 7 (b'a' ∷ []) [] 10 100))
    × IsInTime (server created) (Sessions.new_session 1 7 (b'a' ∷ []) [] 10 100)
monitor_healthy_example =
    monitor_round-healthy [] (server created) 1 (Sessions.new_session 1 7 (b'a' ∷ []) [] 10 100)
      created-IsSound still_there

-- An event of client 7 for session 1, which is bound to AppHost 9, and a frame back.
abbrev event : Packet
event = record {
  header = record zero_header { session_id = 1; cmd_type = input_event };
  body = 1 ∷ 2 ∷ 3 ∷ [];
}

abbrev frame_back : Packet
frame_back = record {
  header = record zero_header { session_id = 1; cmd_type = pixel_data };
  body = 5 ∷ [];
}

bound_to : find_apphost 1 bound ≡ 9
unfolding find_apphost find lookup
bound_to = refl

owned_by : find_client 1 bound ≡ 7
unfolding find_client find lookup
owned_by = refl

host_there :
    (at_node 4 (server bound).apphosts ≡ some (fresh_connection 4 9 1))
    × (find_locked 9 (server bound).apphosts ≡ some (fresh_connection 4 9 1))
unfolding at_node find_locked
host_there = (refl, refl)

client_found : find_locked 7 clients ≡ some client
unfolding find_locked
client_found = refl

client_packet-traffic_example :
    let s = server bound in
    let s' = handle_client_packet 3 event s in
    (traffic 9 (s'.apphosts, s'.io) ≡ traffic 9 (s.apphosts, s.io) ++ serialize_packet event)
    × (s'.clients ≡ s.clients)
client_packet-traffic_example =
    handle_client_packet-traffic 3 event (server bound) client (fresh_connection 4 9 1) 9 9
      client_there (omega arith) (omega arith) (omega arith) bound_to (omega arith) (tt, tt)
      host_there.1

apphost_packet-traffic_example :
    let s = server bound in
    let s' = handle_apphost_packet 4 frame_back s in
    (traffic 7 (s'.clients, s'.io) ≡ traffic 7 (s.clients, s.io) ++ serialize_packet frame_back)
    × (s'.apphosts ≡ s.apphosts)
apphost_packet-traffic_example =
    handle_apphost_packet-traffic 4 frame_back (server bound) (fresh_connection 4 9 1) client 7 7
      host_there.0 (omega arith) (omega arith) (omega arith) owned_by (omega arith) (tt, tt)
      client_found

-- The client of session 1 is lost, which AppHost 9 is told.
abbrev in_session : Connection
in_session = record client { session_id = 1 }

abbrev served : Server
served = record (server bound) { clients = in_session ∷ [] }

served_there : at_node 3 served.clients ≡ some in_session
unfolding at_node
served_there = refl

loss_example :
    let s' = on_client_event 3 recv_timeout served in
    (at_node 3 s'.clients ≡ none)
    × (IsGone 1 served.sessions s'.sessions
        × (traffic 9 (s'.apphosts, s'.io)
            ≡ traffic 9 (served.apphosts, served.io) ++ make_packet close_session 1))
loss_example =
    on_client_event-loss 3 served in_session (fresh_connection 4 9 1) 1 9 bound-IsSound refl
      (omega arith) (omega arith) (tt, tt) (tt, tt) recv_timeout refl served_there bound_to
      host_there.1 9
