-- ===== src/Gateway/Server/Routing.antt =====
-- What the gateway passes on (src/gateway/gateway.cpp: forward_to_apphost and the loop of
-- on_client_received).
use protocol_design.Prelude.{
  ℕ, ◌≡◌, ◌≢◌, refl, ◌∙◌, List, [], ◌∷◌, ◌++◌, true, false, not, some, if◌then◌else◌, ◌==◌, arith,
  All, Option-cases, Bool-cases, inl, inr,
}
use protocol_design.Prelude.Assoc.{lookup, nat_eq, lookup-insert}
use protocol_design.Protocol.{Packet, spawn_app, apphost_ready, heartbeat, close_session}
use protocol_design.Gateway.Packets.{serialize_packet}
use protocol_design.Gateway.Sessions.{
  SessionTable, find_apphost, find_client, find, mark_client_seen, mark_apphost_seen,
}
use protocol_design.Gateway.Server.{Connection, Connections, Io, at_node, find_locked, send_to}
use protocol_design.Gateway.Server.Streams.{traffic, Distinct, enqueue-traffic}
use protocol_design.Gateway.Server.State.{Server, with_sessions, send_to_apphost, send_to_client}
use protocol_design.Gateway.Server.Handlers.{
  forward_to_apphost, forward_to_client, handle_client_packet, handle_apphost_packet,
}

apart-find_locked :
    (c d : Connection) (id : ℕ) (cs : Connections)
    → All (λ e. (c.id ≢ e.id) × (c.node ≢ e.node)) cs
    → find_locked id cs ≡ some d
    → (c.node ≢ d.node) × (d.id ≡ id)
unfolding find_locked
apart-find_locked c d id [] a e = cc
apart-find_locked c d id (b ∷ cs) a e = ground (arith, apart-find_locked c d id cs a.1)

-- The connection with a handle is the one at its node.
at_node-find_locked :
    (id : ℕ) (cs : Connections) (c : Connection)
    → Distinct cs
    → find_locked id cs ≡ some c
    → (at_node c.node cs ≡ some c) × (c.id ≡ id)
unfolding at_node find_locked
at_node-find_locked id [] c v e = cc
at_node-find_locked id (d ∷ cs) c v e = elim (Bool-cases (d.id == id)) [
  | inl hit ↦ ground (arith, hit, e)
  | inr miss ↦
      let rest : find_locked id cs ≡ some c = ground (arith, miss, e) in
      ground (arith, apart-find_locked d c id cs v.0 rest, at_node-find_locked id cs c v.1 rest)
]

pub send_to-traffic :
    (id : ℕ) (bytes : List ℕ) (cs : Connections) (io : Io) (c : Connection) (j : ℕ)
    → Distinct cs
    → find_locked id cs ≡ some c
    → traffic j (send_to id bytes cs io)
      ≡ (if id == j then traffic j (cs, io) ++ bytes else traffic j (cs, io))
unfolding send_to
send_to-traffic id bytes cs io c j v e =
    let (there, same) = at_node-find_locked id cs c v e in
    rw (e, send_to, enqueue-traffic c.node cs io c v there bytes j, same) refl

find_apphost-mark_client_seen :
    (id seen now : ℕ) (t : SessionTable)
    → find_apphost id (mark_client_seen seen now t).1 ≡ find_apphost id t
unfolding find_apphost find mark_client_seen
find_apphost-mark_client_seen id seen now t = elim (Option-cases (lookup seen t.by_session)) [
  | inl e ↦ rw (e, mark_client_seen) refl
  | inr (rt, e) ↦
      rw (e, mark_client_seen)
        (ground
          (arith, e, lookup-insert seen id (record rt { last_client_seen = now }) t.by_session))
]

forward_to_apphost-traffic :
    (pkt : Packet) (s : Server) (target : ℕ) (host : Connection) (j : ℕ)
    → find_apphost pkt.header.session_id s.sessions ≡ target
    → target ≢ 0
    → Distinct s.apphosts
    → find_locked target s.apphosts ≡ some host
    → let s' = forward_to_apphost pkt s in
      (traffic j (s'.apphosts, s'.io) ≡ (
        if target == j
        then traffic j (s.apphosts, s.io) ++ serialize_packet pkt
        else traffic j (s.apphosts, s.io)))
      × (s'.clients ≡ s.clients)
unfolding forward_to_apphost send_to_apphost
forward_to_apphost-traffic pkt s target host j r nz v e =
    let real : not (target == 0) ≡ true = ground (arith, nz) in
    rw (r, real) (send_to-traffic target (serialize_packet pkt) s.apphosts s.io host j v e, refl)

-- A packet from a client that is none of SPAWN_APP, HEARTBEAT and CLOSE_SESSION goes, as it came, to
-- the end of the stream of the AppHost that the session named in its header is bound to, whichever client
-- sent it, if that AppHost is connected and no two AppHosts share a handle or a node; it goes to no
-- other AppHost and nothing is said to a client.
pub handle_client_packet-traffic :
    (n : ℕ) (pkt : Packet) (s : Server) (conn host : Connection) (target j : ℕ)
    → at_node n s.clients ≡ some conn
    → pkt.header.cmd_type ≢ spawn_app
    → pkt.header.cmd_type ≢ heartbeat
    → pkt.header.cmd_type ≢ close_session
    → find_apphost pkt.header.session_id s.sessions ≡ target
    → target ≢ 0
    → Distinct s.apphosts
    → find_locked target s.apphosts ≡ some host
    → let s' = handle_client_packet n pkt s in
      (traffic j (s'.apphosts, s'.io) ≡ (
        if target == j
        then traffic j (s.apphosts, s.io) ++ serialize_packet pkt
        else traffic j (s.apphosts, s.io)))
      × (s'.clients ≡ s.clients)
unfolding handle_client_packet
handle_client_packet-traffic n pkt s conn host target j c not_spawn not_beat not_close r nz v e =
    let a : (pkt.header.cmd_type == spawn_app) ≡ false = ground (arith, not_spawn) in
    let b : (pkt.header.cmd_type == heartbeat) ≡ false = ground (arith, not_beat) in
    let d : (pkt.header.cmd_type == close_session) ≡ false = ground (arith, not_close) in
    let seen = (mark_client_seen conn.session_id s.now s.sessions).1 in
    let route : find_apphost pkt.header.session_id seen ≡ target =
      find_apphost-mark_client_seen pkt.header.session_id conn.session_id s.now s.sessions ∙ r in
    rw (c, handle_client_packet, a, b, d)
      (elim (Bool-cases (not (conn.session_id == 0))) [
        | inl has ↦
            rw has
              (forward_to_apphost-traffic pkt (with_sessions seen s) target host j route nz v e)
        | inr none_yet ↦ rw none_yet (forward_to_apphost-traffic pkt s target host j r nz v e)
      ])

find_client-mark_apphost_seen :
    (id seen now : ℕ) (t : SessionTable)
    → find_client id (mark_apphost_seen seen now t).1 ≡ find_client id t
unfolding find_client find mark_apphost_seen
find_client-mark_apphost_seen id seen now t = elim (Option-cases (lookup seen t.by_session)) [
  | inl e ↦ rw (e, mark_apphost_seen) refl
  | inr (rt, e) ↦
      rw (e, mark_apphost_seen)
        (ground
          (arith, e, lookup-insert seen id (record rt { last_apphost_seen = now }) t.by_session))
]

forward_to_client-traffic :
    (pkt : Packet) (s : Server) (target : ℕ) (client : Connection) (j : ℕ)
    → find_client pkt.header.session_id s.sessions ≡ target
    → target ≢ 0
    → Distinct s.clients
    → find_locked target s.clients ≡ some client
    → let s' = forward_to_client pkt s in
      (traffic j (s'.clients, s'.io) ≡ (
        if target == j
        then traffic j (s.clients, s.io) ++ serialize_packet pkt
        else traffic j (s.clients, s.io)))
      × (s'.apphosts ≡ s.apphosts)
unfolding forward_to_client send_to_client
forward_to_client-traffic pkt s target client j r nz v e =
    let real : not (target == 0) ≡ true = ground (arith, nz) in
    rw (r, real) (send_to-traffic target (serialize_packet pkt) s.clients s.io client j v e, refl)

-- A packet from an AppHost that is none of APPHOST_READY, HEARTBEAT and CLOSE_SESSION goes, as it
-- came, to the end of the stream of the client that the session named in its header belongs to, whichever
-- AppHost sent it, if that client is connected and no two clients share a handle or a node; it goes
-- to no other client and nothing is said to an AppHost.
pub handle_apphost_packet-traffic :
    (n : ℕ) (pkt : Packet) (s : Server) (conn client : Connection) (target j : ℕ)
    → at_node n s.apphosts ≡ some conn
    → pkt.header.cmd_type ≢ apphost_ready
    → pkt.header.cmd_type ≢ heartbeat
    → pkt.header.cmd_type ≢ close_session
    → find_client pkt.header.session_id s.sessions ≡ target
    → target ≢ 0
    → Distinct s.clients
    → find_locked target s.clients ≡ some client
    → let s' = handle_apphost_packet n pkt s in
      (traffic j (s'.clients, s'.io) ≡ (
        if target == j
        then traffic j (s.clients, s.io) ++ serialize_packet pkt
        else traffic j (s.clients, s.io)))
      × (s'.apphosts ≡ s.apphosts)
unfolding handle_apphost_packet
handle_apphost_packet-traffic n pkt s conn client target j c not_ready not_beat not_close r nz v e =
    let a : (pkt.header.cmd_type == apphost_ready) ≡ false = ground (arith, not_ready) in
    let b : (pkt.header.cmd_type == heartbeat) ≡ false = ground (arith, not_beat) in
    let d : (pkt.header.cmd_type == close_session) ≡ false = ground (arith, not_close) in
    let id = pkt.header.session_id in
    let seen = (mark_apphost_seen id s.now s.sessions).1 in
    let route : find_client id seen ≡ target =
      find_client-mark_apphost_seen id id s.now s.sessions ∙ r in
    rw (c, handle_apphost_packet, a, b, d)
      (elim (Bool-cases (not (id == 0))) [
        | inl has ↦
            rw has
              (forward_to_client-traffic pkt (with_sessions seen s) target client j route nz v e)
        | inr zero_id ↦ rw zero_id (forward_to_client-traffic pkt s target client j r nz v e)
      ])
