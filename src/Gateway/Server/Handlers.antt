-- ===== src/Gateway/Server/Handlers.antt =====
-- The callbacks of src/gateway/gateway.cpp: accepting, receiving and losing connections, and what each
-- packet makes the gateway do. The clock is read as one value throughout a callback.
use protocol_design.Prelude.{
  ℕ, ◌+◌, List, [], ◌∷◌, Bool, not, ◌||◌, Option, none, some, length, if◌then◌else◌, ◌==◌, u64,
}
use protocol_design.Prelude.Int.{ℤ, is_positive}
use protocol_design.Protocol.{
  Packet, heartbeat, spawn_app, session_ack, apphost_ready, close_session,
}
use protocol_design.Protocol.Parser.Receive.{receive}
use protocol_design.Gateway.Packets.{
  serialize_packet, make_packet, make_error, parse_spawn_app_name,
}
use protocol_design.Gateway.Sessions
use protocol_design.Gateway.Sessions.{SessionTable}
use protocol_design.Gateway.Server.{
  Connection, terminate, spawn, at_node, find_locked, update_node, unlink, fresh_connection,
}
use protocol_design.Gateway.Server.State.{
  Server, AppEntry, with_sessions, emit, enqueue_client, enqueue_apphost, send_to_client,
  send_to_apphost,
}

-- terminate() sends a signal to a positive pid only.
abbrev pub terminate_if_running : ℤ → Server → Server
terminate_if_running pid s = if is_positive pid then emit (terminate pid) s else s

unfoldable pub release_client : ℕ → Server → Server
release_client n s = elim (at_node n s.clients) [
  | none ↦ s
  | some c ↦
      let s₁ = record s { clients = unlink n s.clients } in
      if not (c.session_id == 0)
      then (let peer = Sessions.find_apphost c.session_id s.sessions in
          let s₂ = with_sessions (Sessions.remove_session c.session_id s.sessions) s₁ in
          if not (peer == 0)
          then send_to_apphost peer (make_packet close_session c.session_id) s₂
          else s₂)
      else with_sessions (Sessions.remove_by_client c.id s.sessions).1 s₁
]

unfoldable pub release_apphost : ℕ → Server → Server
release_apphost n s = elim (at_node n s.apphosts) [
  | none ↦ s
  | some c ↦
      let s₁ = record s { apphosts = unlink n s.apphosts } in
      if not (c.session_id == 0)
      then (let peer = Sessions.find_client c.session_id s.sessions in
          let s₂ = with_sessions (Sessions.remove_session c.session_id s.sessions) s₁ in
          if not (peer == 0)
          then send_to_client peer (make_packet close_session c.session_id) s₂
          else s₂)
      else with_sessions (Sessions.remove_by_apphost c.id s.sessions).1 s₁
]

-- The node is the one that the free list gives, if it has one; `cancelled` is SetHandleFunc's answer.
unfoldable pub on_client_listen_event : Option ℕ → ℕ → Bool → Server → Server
unfolding release_client
on_client_listen_event none id cancelled s = s
on_client_listen_event (some n) id cancelled s =
    let generation = u64 (s.next_client_generation + 1) in
    let s₁ = record s {
      clients = fresh_connection n id generation ∷ s.clients;
      next_client_generation = generation;
    } in
    if cancelled then release_client n s₁ else s₁

unfoldable pub on_apphost_listen_event : Option ℕ → ℕ → Bool → Server → Server
unfolding release_apphost
on_apphost_listen_event none id cancelled s = s
on_apphost_listen_event (some n) id cancelled s =
    let generation = u64 (s.next_apphost_generation + 1) in
    let s₁ = record s {
      apphosts = fresh_connection n id generation ∷ s.apphosts;
      next_apphost_generation = generation;
    } in
    if cancelled then release_apphost n s₁ else s₁

abbrev pub next_spawn : List (Option ℤ) → Option ℤ × List (Option ℤ)
next_spawn [] = (none, [])
next_spawn (p ∷ ps) = (p, ps)

-- conn->session_id_ = session_id
abbrev pub set_client_session : ℕ → ℕ → Server → Server
set_client_session n session_id s = record s {
  clients = update_node n (λ c. record c { session_id = session_id }) s.clients;
}

-- handle_spawn_app after the checks: the session is created, and the AppHost process started.
unfoldable pub spawn_session : Connection → List ℕ → AppEntry → Server → Server
spawn_session conn app_name app s =
    let (session_id, t) =
      Sessions.create_spawning_session conn.id app_name app.plugin_path s.now
        s.config.spawn_timeout_ms s.sessions in
    let (pid, ps) = next_spawn s.spawns in
    let s₁ =
      emit
        (spawn (record {
          session_id = session_id;
          apphost_bin = s.config.apphost_bin;
          gateway_host = s.config.apphost_bind_host;
          gateway_port = s.config.apphost_internal_port;
          plugin_path = app.plugin_path;
          width = app.width;
          height = app.height;
        }))
        (record (set_client_session conn.node session_id (with_sessions t s)) { spawns = ps }) in
    elim pid [
      | none ↦
          enqueue_client conn.node (make_error session_id) (
            set_client_session conn.node 0
              (with_sessions (Sessions.remove_session session_id t) s₁))
      | some p ↦ with_sessions (Sessions.set_apphost_pid session_id p t).1 s₁
    ]

unfoldable pub handle_spawn_app : Connection → Packet → Server → Server
unfolding spawn_session
handle_spawn_app conn pkt s =
    if not (conn.session_id == 0) || Sessions.has_active_or_spawning_for_client conn.id s.sessions
    then enqueue_client conn.node (make_error conn.session_id) s
    else if not s.config.auto_spawn_apphost
    then (let (session_id, t) = Sessions.create_for_client conn.id s.now s.sessions in
        enqueue_client conn.node (make_packet session_ack session_id)
          (set_client_session conn.node session_id (with_sessions t s)))
    else elim (parse_spawn_app_name pkt) [
      | none ↦ enqueue_client conn.node (make_error 0) s
      | some app_name ↦ elim (s.config.app_allowlist app_name) [
        | none ↦ enqueue_client conn.node (make_error 0) s
        | some app ↦
            if length s.config.apphost_bin == 0
              || not (s.files.executable s.config.apphost_bin)
              || not (s.files.readable app.plugin_path)
            then enqueue_client conn.node (make_error 0) s
            else spawn_session conn app_name app s
      ]
    ]

unfoldable pub handle_apphost_ready : Connection → ℕ → Server → Server
handle_apphost_ready conn session_id s =
    let (bound, t) = Sessions.bind_apphost session_id conn.id s.now s.sessions in
    if not bound
    then with_sessions t s
    else let route = Sessions.find session_id t in
      let s₁ = record s {
        sessions = t;
        apphosts =
            update_node conn.node
              (λ c. record c { session_id = session_id; peer_conn = route.client_conn }) s.apphosts;
        clients = elim (find_locked route.client_conn s.clients) [
          | none ↦ s.clients
          | some client ↦ update_node client.node (λ c. record c { peer_conn = conn.id }) s.clients
        ];
      } in
      if not s.config.auto_spawn_apphost || route.client_conn == 0
      then s₁
      else send_to_client route.client_conn (make_packet session_ack session_id) s₁

unfoldable pub forward_to_apphost : Packet → Server → Server
forward_to_apphost pkt s =
    let target = Sessions.find_apphost pkt.header.session_id s.sessions in
    if not (target == 0) then send_to_apphost target (serialize_packet pkt) s else s

unfoldable pub forward_to_client : Packet → Server → Server
forward_to_client pkt s =
    let target = Sessions.find_client pkt.header.session_id s.sessions in
    if not (target == 0) then send_to_client target (serialize_packet pkt) s else s

abbrev pub pid_or_none : Option ℤ → ℤ
pid_or_none none = ℤ.negsuc 0
pid_or_none (some pid) = pid

-- Gateway::Impl::close_session.
unfoldable pub close_routed : ℕ → Server → Server
close_routed session_id s =
    let route = Sessions.find session_id s.sessions in
    let pid = pid_or_none (Sessions.get_pid session_id s.sessions) in
    let s₁ = with_sessions (Sessions.remove_session session_id s.sessions) s in
    let s₂ =
      if not (route.client_conn == 0)
      then send_to_client route.client_conn (make_packet close_session session_id) s₁
      else s₁ in
    let s₃ =
      if not (route.apphost_conn == 0)
      then send_to_apphost route.apphost_conn (make_packet close_session session_id) s₂
      else s₂ in
    terminate_if_running pid s₃

-- One round of the loop in `on_client_received`, for the connection at node `n`.
unfoldable pub handle_client_packet : ℕ → Packet → Server → Server
unfolding handle_spawn_app forward_to_apphost close_routed
handle_client_packet n pkt s = elim (at_node n s.clients) [
  | none ↦ s
  | some conn ↦
      let s₁ =
        if not (conn.session_id == 0)
        then with_sessions (Sessions.mark_client_seen conn.session_id s.now s.sessions).1 s
        else s in
      if pkt.header.cmd_type == spawn_app
      then handle_spawn_app conn pkt s₁
      else if pkt.header.cmd_type == heartbeat
      then enqueue_client n (make_packet heartbeat pkt.header.session_id) s₁
      else if pkt.header.cmd_type == close_session
      then close_routed pkt.header.session_id s₁
      else forward_to_apphost pkt s₁
]

unfoldable pub handle_apphost_packet : ℕ → Packet → Server → Server
unfolding handle_apphost_ready forward_to_client close_routed
handle_apphost_packet n pkt s = elim (at_node n s.apphosts) [
  | none ↦ s
  | some conn ↦
      let s₁ =
        if not (pkt.header.session_id == 0)
        then with_sessions (Sessions.mark_apphost_seen pkt.header.session_id s.now s.sessions).1 s
        else s in
      if pkt.header.cmd_type == apphost_ready
      then handle_apphost_ready conn pkt.header.session_id s₁
      else if pkt.header.cmd_type == heartbeat
      then enqueue_apphost n (make_packet heartbeat pkt.header.session_id) s₁
      else if pkt.header.cmd_type == close_session
      then close_routed pkt.header.session_id s₁
      else forward_to_client pkt s₁
]

-- The parser is a field of the connection that no handler touches: the loop runs on it apart from
-- the server, and what is left of it is stored.
unfoldable pub on_client_received : ℕ → List ℕ → Server → Server
unfolding handle_client_packet
on_client_received n bytes s = elim (at_node n s.clients) [
  | none ↦ s
  | some conn ↦
      let (s', parser') = receive (handle_client_packet n) conn.parser bytes s in
      record s' { clients = update_node n (λ c. record c { parser = parser' }) s'.clients }
]

unfoldable pub on_apphost_received : ℕ → List ℕ → Server → Server
unfolding handle_apphost_packet
on_apphost_received n bytes s = elim (at_node n s.apphosts) [
  | none ↦ s
  | some conn ↦
      let (s', parser') = receive (handle_apphost_packet n) conn.parser bytes s in
      record s' { apphosts = update_node n (λ c. record c { parser = parser' }) s'.apphosts }
]
