-- ===== src/Gateway/Server/Preserved.antt =====
-- The invariant of the gateway over the steps that the handlers of src/gateway/gateway.cpp share.
use protocol_design.Prelude.{
  ℕ, ◌+◌, ◌^◌, ◌<◌, ◌≢◌, refl, List, Bool, true, false, not, Option, if◌then◌else◌, ◌==◌,
  Option-cases, inl, inr,
}
use protocol_design.Prelude.Int.{ℤ, is_positive}
use protocol_design.Protocol.{close_session}
use protocol_design.Gateway.Packets.{make_packet, make_error}
use protocol_design.Gateway.Sessions
use protocol_design.Gateway.Sessions.{SessionTable, create_spawning_session, create_for_client}
use protocol_design.Gateway.Sessions.Soundness.{
  IsSound, create_spawning_session-IsSound, remove_session-IsSound, set_apphost_pid-IsSound,
}
use protocol_design.Gateway.Server.{Connection, terminate}
use protocol_design.Gateway.Server.State.{Server, AppEntry}
use protocol_design.Gateway.Server.Handlers.{
  terminate_if_running, set_client_session, next_spawn, spawn_session, close_routed, pid_or_none,
}
use protocol_design.Gateway.Server.Invariant.{
  IsValid, update_node-named, with_sessions-IsValid, emit-IsValid, enqueue_client-IsValid,
  send_to_client-IsValid, send_to_apphost-IsValid,
}

-- The next session id is not the last one of 32 bits.
abbrev pub HasRoom : Server → Type 0
HasRoom s = s.sessions.next_session_id + 1 < 2 ^ 32

-- A step that is taken or not.
pub if-IsValid :
    {a b : Server} (test : Bool) → IsValid a → IsValid b → IsValid (if test then a else b)
if-IsValid true v w = v
if-IsValid false v w = w

pub terminate-IsValid : {s : Server} (pid : ℤ) → IsValid s → IsValid (terminate_if_running pid s)
terminate-IsValid pid v = if-IsValid (is_positive pid) (emit-IsValid v (terminate pid)) v

pub set_client_session-IsValid :
    {s : Server} (n id : ℕ) → IsValid s → IsValid (set_client_session n id s)
set_client_session-IsValid {s} n id v = record {
  table = v.table;
  clients_named =
      update_node-named n (λ c. record c { session_id = id }) s.clients (λ c. refl) v.clients_named;
  apphosts_named = v.apphosts_named;
}

spawns-IsValid :
    {s : Server} (ps : List (Option ℤ)) → IsValid s → IsValid (record s { spawns = ps })
spawns-IsValid ps v = record {
  table = v.table;
  clients_named = v.clients_named;
  apphosts_named = v.apphosts_named;
}

pub spawn_session-IsValid :
    (conn : Connection) (name : List ℕ) (app : AppEntry) (s : Server)
    → conn.id ≢ 0
    → HasRoom s
    → IsValid s
    → IsValid (spawn_session conn name app s)
unfolding spawn_session
spawn_session-IsValid conn name app s named room v =
    let r =
      create_spawning_session conn.id name app.plugin_path s.now s.config.spawn_timeout_ms
        s.sessions in
    let made : IsSound r.1 =
      create_spawning_session-IsSound conn.id name app.plugin_path s.now s.config.spawn_timeout_ms
        s.sessions named room v.table in
    let forked =
      emit-IsValid
        (spawns-IsValid (next_spawn s.spawns).1
          (set_client_session-IsValid conn.node r.0 (with_sessions-IsValid v made)))
        _ in
    elim (Option-cases (next_spawn s.spawns).0) [
      | inl e ↦
          rw (e, spawn_session)
            (enqueue_client-IsValid
              (set_client_session-IsValid conn.node 0
                (with_sessions-IsValid forked (remove_session-IsSound r.1 r.0 made)))
              conn.node (make_error r.0))
      | inr (p, e) ↦
          rw (e, spawn_session)
            (with_sessions-IsValid forked (set_apphost_pid-IsSound r.1 r.0 made p))
    ]

pub close_routed-IsValid : (id : ℕ) (s : Server) → IsValid s → IsValid (close_routed id s)
unfolding close_routed
close_routed-IsValid id s v =
    let route = Sessions.find id s.sessions in
    let removed = with_sessions-IsValid v (remove_session-IsSound s.sessions id v.table) in
    let told =
      if-IsValid (not (route.client_conn == 0))
        (send_to_client-IsValid removed route.client_conn (make_packet close_session id)) removed in
    let both =
      if-IsValid (not (route.apphost_conn == 0))
        (send_to_apphost-IsValid told route.apphost_conn (make_packet close_session id)) told in
    terminate-IsValid (pid_or_none (Sessions.get_pid id s.sessions)) both
