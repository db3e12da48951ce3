-- ===== src/Gateway/Server/Steps.antt =====
-- The invariant of the gateway over what src/gateway/gateway.cpp does when connections come and go and
-- when their queues are drained.
use protocol_design.Prelude.{
  ℕ, ◌+◌, u64, ◌≢◌, refl, sym, ap, subst, ◌∷◌, Bool, not, ◌||◌, Option, none, some, ◌==◌, All,
  Option-cases, Bool-cases, inl, inr,
}
use protocol_design.Prelude.Assoc.{lookup, nat_eq}
use protocol_design.Protocol.{close_session}
use protocol_design.Gateway.Packets.{make_packet}
use protocol_design.Gateway.Sessions
use protocol_design.Gateway.Sessions.{
  SessionTable, SessionSnapshot, Route, remove_by_client, remove_by_apphost, remove_session,
  transition_to_closing, snapshot_sessions,
}
use protocol_design.Gateway.Sessions.Soundness.{IsSound, remove_session-IsSound}
use protocol_design.Gateway.Sessions.Removal.{remove_by_client_lem, remove_by_apphost_lem}
use protocol_design.Gateway.Server.{
  Connections, Io, Side, at_node, unlink, fresh_connection, drain, first_with_its_id, is_empty,
}
use protocol_design.Gateway.Server.State.{Server}
use protocol_design.Gateway.Server.Handlers.{
  release_client, release_apphost, on_client_listen_event, on_apphost_listen_event,
}
use protocol_design.Gateway.Server.Invariant.{
  HasHandle, IsValid, update_node-named, unlink-named, with_sessions-IsValid,
  send_to_client-IsValid, send_to_apphost-IsValid,
}
use protocol_design.Gateway.Server.Preserved.{if-IsValid}

remove_by_client-IsSound :
    (conn : ℕ) (t : SessionTable) → IsSound t → IsSound (remove_by_client conn t).1
unfolding remove_by_client
remove_by_client-IsSound conn t v = elim (Option-cases (lookup conn t.by_client)) [
  | inl e ↦ rw (e, remove_by_client) v
  | inr (id, e) ↦
      subst IsSound (sym (ap (λ r. r.1) (remove_by_client_lem t conn id v e)))
        (remove_session-IsSound t id v)
]

remove_by_apphost-IsSound :
    (conn : ℕ) (t : SessionTable) → IsSound t → IsSound (remove_by_apphost conn t).1
unfolding remove_by_apphost
remove_by_apphost-IsSound conn t v = elim (Option-cases (lookup conn t.by_apphost)) [
  | inl e ↦ rw (e, remove_by_apphost) v
  | inr (id, e) ↦
      subst IsSound (sym (ap (λ r. r.1) (remove_by_apphost_lem t conn id v e)))
        (remove_session-IsSound t id v)
]

pub with_clients-IsValid :
    {s : Server} (cs : Connections)
    → IsValid s
    → All HasHandle cs
    → IsValid (record s { clients = cs })
with_clients-IsValid cs v named = record {
  table = v.table;
  clients_named = named;
  apphosts_named = v.apphosts_named;
}

pub with_apphosts-IsValid :
    {s : Server} (cs : Connections)
    → IsValid s
    → All HasHandle cs
    → IsValid (record s { apphosts = cs })
with_apphosts-IsValid cs v named = record {
  table = v.table;
  clients_named = v.clients_named;
  apphosts_named = named;
}

pub release_client-IsValid : (n : ℕ) (s : Server) → IsValid s → IsValid (release_client n s)
unfolding release_client
release_client-IsValid n s v = elim (Option-cases (at_node n s.clients)) [
  | inl e ↦ rw (e, release_client) v
  | inr (c, e) ↦
      let gone =
        with_clients-IsValid {s = s} (unlink n s.clients) v
          (unlink-named n s.clients v.clients_named) in
      let closed =
        with_sessions-IsValid gone (remove_session-IsSound s.sessions c.session_id v.table) in
      rw (e, release_client)
        (if-IsValid (not (c.session_id == 0))
          (if-IsValid (not (Sessions.find_apphost c.session_id s.sessions == 0))
            (send_to_apphost-IsValid closed (Sessions.find_apphost c.session_id s.sessions)
              (make_packet close_session c.session_id))
            closed)
          (with_sessions-IsValid gone (remove_by_client-IsSound c.id s.sessions v.table)))
]

pub release_apphost-IsValid : (n : ℕ) (s : Server) → IsValid s → IsValid (release_apphost n s)
unfolding release_apphost
release_apphost-IsValid n s v = elim (Option-cases (at_node n s.apphosts)) [
  | inl e ↦ rw (e, release_apphost) v
  | inr (c, e) ↦
      let gone =
        with_apphosts-IsValid {s = s} (unlink n s.apphosts) v
          (unlink-named n s.apphosts v.apphosts_named) in
      let closed =
        with_sessions-IsValid gone (remove_session-IsSound s.sessions c.session_id v.table) in
      rw (e, release_apphost)
        (if-IsValid (not (c.session_id == 0))
          (if-IsValid (not (Sessions.find_client c.session_id s.sessions == 0))
            (send_to_client-IsValid closed (Sessions.find_client c.session_id s.sessions)
              (make_packet close_session c.session_id))
            closed)
          (with_sessions-IsValid gone (remove_by_apphost-IsSound c.id s.sessions v.table)))
]

pub accepts_client-IsValid :
    (node : Option ℕ) (id : ℕ) (cancelled : Bool) (s : Server)
    → id ≢ 0
    → IsValid s
    → IsValid (on_client_listen_event node id cancelled s)
unfolding on_client_listen_event
accepts_client-IsValid none id cancelled s h v = v
accepts_client-IsValid (some n) id cancelled s h v =
    let added : IsValid (record s {
      clients = fresh_connection n id (u64 (s.next_client_generation + 1)) ∷ s.clients;
      next_client_generation = u64 (s.next_client_generation + 1);
    }) =
      record {
        table = v.table;
        clients_named = (h, v.clients_named);
        apphosts_named = v.apphosts_named;
      } in
    if-IsValid cancelled (release_client-IsValid n _ added) added

pub accepts_apphost-IsValid :
    (node : Option ℕ) (id : ℕ) (cancelled : Bool) (s : Server)
    → id ≢ 0
    → IsValid s
    → IsValid (on_apphost_listen_event node id cancelled s)
unfolding on_apphost_listen_event
accepts_apphost-IsValid none id cancelled s h v = v
accepts_apphost-IsValid (some n) id cancelled s h v =
    let added : IsValid (record s {
      apphosts = fresh_connection n id (u64 (s.next_apphost_generation + 1)) ∷ s.apphosts;
      next_apphost_generation = u64 (s.next_apphost_generation + 1);
    }) =
      record {
        table = v.table;
        clients_named = v.clients_named;
        apphosts_named = (h, v.apphosts_named);
      } in
    if-IsValid cancelled (release_apphost-IsValid n _ added) added

pub drain-named :
    (side : Side) (n generation : ℕ) (cs : Connections) (io : Io)
    → All HasHandle cs
    → All HasHandle (drain side n generation cs io).0
unfolding drain
drain-named side n generation cs io v = elim (Option-cases (first_with_its_id n cs)) [
  | inl e ↦ rw (e, drain) v
  | inr (c, e) ↦
      rw (e, drain)
        (elim (Bool-cases (not (c.generation == generation) || is_empty c.send_queue)) [
          | inl idle ↦ rw idle v
          | inr busy ↦ rw busy (update_node-named n _ cs (λ d. refl) v)
        ])
]
