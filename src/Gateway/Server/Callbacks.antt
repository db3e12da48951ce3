-- ===== src/Gateway/Server/Callbacks.antt =====
-- The invariant of the gateway over the handlers of single packets in src/gateway/gateway.cpp.
use protocol_design.Prelude.{
  ℕ, ◌≡◌, ◌≢◌, refl, [], not, ◌||◌, none, some, if◌then◌else◌, ◌==◌, arith, Option-cases, inl, inr,
}
use protocol_design.Protocol.{
  Packet, heartbeat, spawn_app, session_ack, apphost_ready, close_session,
}
use protocol_design.Gateway.Packets.{
  serialize_packet, make_packet, make_error, parse_spawn_app_name,
}
use protocol_design.Gateway.Sessions
use protocol_design.Prelude.Assoc.{lookup, nat_eq}
use protocol_design.Gateway.Sessions.{
  SessionTable, mark_client_seen, mark_apphost_seen, create_spawning_session, create_for_client,
}
use protocol_design.Gateway.Sessions.Soundness.{
  create_spawning_session-IsSound, bind_apphost-IsSound, mark_client_seen-IsSound,
  mark_apphost_seen-IsSound,
}
use protocol_design.Gateway.Server.{Connection, at_node, find_locked, update_node}
use protocol_design.Gateway.Server.State.{Server, with_sessions}
use protocol_design.Gateway.Server.Handlers.{
  handle_spawn_app, handle_apphost_ready, forward_to_apphost, forward_to_client,
  handle_client_packet, handle_apphost_packet,
}
use protocol_design.Gateway.Server.Invariant.{
  IsValid, update_node-named, at_node-named, with_sessions-IsValid, enqueue_client-IsValid,
  enqueue_apphost-IsValid, send_to_client-IsValid, send_to_apphost-IsValid,
}
use protocol_design.Gateway.Server.Preserved.{
  HasRoom, if-IsValid, set_client_session-IsValid, spawn_session-IsValid, close_routed-IsValid,
}

handle_spawn_app-IsValid :
    (conn : Connection) (pkt : Packet) (s : Server)
    → conn.id ≢ 0
    → HasRoom s
    → IsValid s
    → IsValid (handle_spawn_app conn pkt s)
unfolding handle_spawn_app create_for_client
handle_spawn_app-IsValid conn pkt s named room v =
    let refused = enqueue_client-IsValid v conn.node (make_error 0) in
    if-IsValid
      (not (conn.session_id == 0) || Sessions.has_active_or_spawning_for_client conn.id s.sessions)
      (enqueue_client-IsValid v conn.node (make_error conn.session_id))
      (if-IsValid (not s.config.auto_spawn_apphost)
        (enqueue_client-IsValid
          (set_client_session-IsValid conn.node (create_for_client conn.id s.now s.sessions).0 (
            with_sessions-IsValid v (
              create_spawning_session-IsSound conn.id [] [] s.now 0 s.sessions named room v.table)))
          conn.node (make_packet session_ack (create_for_client conn.id s.now s.sessions).0))
        (elim (Option-cases (parse_spawn_app_name pkt)) [
          | inl e ↦ rw e refused
          | inr (name, e) ↦ elim (Option-cases (s.config.app_allowlist name)) [
            | inl f ↦ rw (e, f) refused
            | inr (app, f) ↦
                rw (e, f)
                  (if-IsValid _ refused (spawn_session-IsValid conn name app s named room v))
          ]
        ]))

handle_apphost_ready-IsValid :
    (conn : Connection) (id : ℕ) (s : Server)
    → conn.id ≢ 0
    → IsValid s
    → IsValid (handle_apphost_ready conn id s)
unfolding handle_apphost_ready
handle_apphost_ready-IsValid conn id s named v =
    let bound = bind_apphost-IsSound s.sessions id v.table conn.id s.now named in
    let route = Sessions.find id (Sessions.bind_apphost id conn.id s.now s.sessions).1 in
    let tied : IsValid (record s {
      sessions = (Sessions.bind_apphost id conn.id s.now s.sessions).1;
      apphosts =
          update_node conn.node (λ c. record c { session_id = id; peer_conn = route.client_conn })
            s.apphosts;
      clients = elim (find_locked route.client_conn s.clients) [
        | none ↦ s.clients
        | some client ↦ update_node client.node (λ c. record c { peer_conn = conn.id }) s.clients
      ];
    }) =
      record {
        table = bound;
        clients_named = elim (Option-cases (find_locked route.client_conn s.clients)) [
          | inl e ↦ rw e v.clients_named
          | inr (c, e) ↦ rw e (update_node-named c.node _ s.clients (λ d. refl) v.clients_named)
        ];
        apphosts_named = update_node-named conn.node _ s.apphosts (λ d. refl) v.apphosts_named;
      } in
    if-IsValid _ (with_sessions-IsValid v bound) (
      if-IsValid _ tied
        (send_to_client-IsValid tied route.client_conn (make_packet session_ack id)))

forward_to_apphost-IsValid :
    (pkt : Packet) (s : Server) → IsValid s → IsValid (forward_to_apphost pkt s)
unfolding forward_to_apphost
forward_to_apphost-IsValid pkt s v =
    if-IsValid _ (send_to_apphost-IsValid v _ (serialize_packet pkt)) v

forward_to_client-IsValid :
    (pkt : Packet) (s : Server) → IsValid s → IsValid (forward_to_client pkt s)
unfolding forward_to_client
forward_to_client-IsValid pkt s v =
    if-IsValid _ (send_to_client-IsValid v _ (serialize_packet pkt)) v

mark_client_seen-next :
    (id now : ℕ) (t : SessionTable)
    → (mark_client_seen id now t).1.next_session_id ≡ t.next_session_id
unfolding mark_client_seen
mark_client_seen-next id now t = elim (Option-cases (lookup id t.by_session)) [
  | inl e ↦ rw (e, mark_client_seen) refl
  | inr (rt, e) ↦ rw (e, mark_client_seen) refl
]

-- The first statement of the loop: the session of the connection was seen.
seen_client : Connection → Server → Server
seen_client conn s =
    if not (conn.session_id == 0)
    then with_sessions (mark_client_seen conn.session_id s.now s.sessions).1 s
    else s

seen_client-HasRoom : (conn : Connection) (s : Server) → HasRoom s → HasRoom (seen_client conn s)
unfolding seen_client
seen_client-HasRoom conn s room =
    ground (arith, mark_client_seen-next conn.session_id s.now s.sessions)

-- Whatever packet a client sends, its handler keeps the invariant of the gateway (a sound session
-- table, and no active connection with the handle 0), while the next session id is not the last one
-- of 32 bits.
pub handle_client_packet-IsValid :
    (n : ℕ) (pkt : Packet) (s : Server)
    → HasRoom s
    → IsValid s
    → IsValid (handle_client_packet n pkt s)
unfolding handle_client_packet seen_client
handle_client_packet-IsValid n pkt s room v = elim (Option-cases (at_node n s.clients)) [
  | inl e ↦ rw (e, handle_client_packet) v
  | inr (conn, e) ↦
      let s₁ = seen_client conn s in
      let seen : IsValid s₁ =
        if-IsValid (not (conn.session_id == 0))
          (with_sessions-IsValid v
            (mark_client_seen-IsSound s.sessions conn.session_id v.table s.now))
          v in
      rw (e, handle_client_packet)
        (if-IsValid (pkt.header.cmd_type == spawn_app)
          (handle_spawn_app-IsValid conn pkt s₁ (at_node-named n s.clients v.clients_named e)
            (seen_client-HasRoom conn s room) seen)
          (if-IsValid (pkt.header.cmd_type == heartbeat)
            (enqueue_client-IsValid seen n (make_packet heartbeat pkt.header.session_id))
            (if-IsValid (pkt.header.cmd_type == close_session)
              (close_routed-IsValid pkt.header.session_id s₁ seen)
              (forward_to_apphost-IsValid pkt s₁ seen))))
]

-- Whatever packet an AppHost sends, its handler keeps the invariant of the gateway.
pub handle_apphost_packet-IsValid :
    (n : ℕ) (pkt : Packet) (s : Server) → IsValid s → IsValid (handle_apphost_packet n pkt s)
unfolding handle_apphost_packet
handle_apphost_packet-IsValid n pkt s v = elim (Option-cases (at_node n s.apphosts)) [
  | inl e ↦ rw (e, handle_apphost_packet) v
  | inr (conn, e) ↦
      let id = pkt.header.session_id in
      let seen =
        if-IsValid (not (id == 0))
          (with_sessions-IsValid v (mark_apphost_seen-IsSound s.sessions id v.table s.now)) v in
      rw (e, handle_apphost_packet)
        (if-IsValid (pkt.header.cmd_type == apphost_ready)
          (handle_apphost_ready-IsValid conn id _ (at_node-named n s.apphosts v.apphosts_named e)
            seen)
          (if-IsValid (pkt.header.cmd_type == heartbeat)
            (enqueue_apphost-IsValid seen n (make_packet heartbeat id))
            (if-IsValid (pkt.header.cmd_type == close_session) (close_routed-IsValid id _ seen)
              (forward_to_client-IsValid pkt _ seen))))
]
