-- ===== src/Gateway/Server/Release.antt =====
-- What on_client_event of src/gateway/gateway.cpp does when a connection is lost.
use protocol_design.Prelude.{
  ℕ, ◌≡◌, ◌≢◌, refl, subst, [], ◌∷◌, ◌++◌, Bool, true, false, not, none, some, if◌then◌else◌, ◌==◌,
  arith, All, Bool-cases, inl, inr,
}
use protocol_design.Protocol.{close_session}
use protocol_design.Gateway.Packets.{make_packet}
use protocol_design.Gateway.Sessions.{find_apphost}
use protocol_design.Gateway.Sessions.Soundness.{IsSound}
use protocol_design.Gateway.Sessions.Removal.{IsGone, remove_session-IsGone}
use protocol_design.Gateway.Server.{Connection, Connections, at_node, find_locked, unlink}
use protocol_design.Gateway.Server.Streams.{traffic, Distinct}
use protocol_design.Gateway.Server.Routing.{send_to-traffic}
use protocol_design.Gateway.Server.State.{Server, send_to_apphost}
use protocol_design.Gateway.Server.Handlers.{release_client}
use protocol_design.Gateway.Server.Events.{
  IoEvent, received, sent, recv_error, recv_timeout, before_close, other, on_client_event,
}

-- The events after which a connection is of no more use.
abbrev pub is_loss : IoEvent → Bool
is_loss (received bytes) = false
is_loss sent = false
is_loss recv_error = true
is_loss recv_timeout = true
is_loss before_close = true
is_loss other = false

apart-at_node :
    (c : Connection) (cs : Connections)
    → All (λ e. (c.id ≢ e.id) × (c.node ≢ e.node)) cs
    → at_node c.node cs ≡ none
unfolding at_node
apart-at_node c [] a = refl
apart-at_node c (d ∷ cs) a = ground (arith, a.0.1, apart-at_node c cs a.1)

at_node-unlink : (n : ℕ) (cs : Connections) → Distinct cs → at_node n (unlink n cs) ≡ none
unfolding at_node unlink
at_node-unlink n [] v = refl
at_node-unlink n (c ∷ cs) v = elim (Bool-cases (c.node == n)) [
  | inl hit ↦
      let same : c.node ≡ n = ground (arith, hit) in
      rw hit (subst (λ m. at_node m cs ≡ none) same (apart-at_node c cs v.0))
  | inr miss ↦ rw (miss, miss) (at_node-unlink n cs v.1)
]

module _ (n : ℕ) (s : Server) (c peer : Connection) (id target : ℕ) (sound : IsSound s.sessions)
    (named : c.session_id ≡ id) (bound : id ≢ 0) (real : target ≢ 0)
    (apart_clients : Distinct s.clients) (apart_apphosts : Distinct s.apphosts) where
  release_client_lem :
      at_node n s.clients ≡ some c
      → find_apphost id s.sessions ≡ target
      → find_locked target s.apphosts ≡ some peer
      → (j : ℕ)
      → let s' = release_client n s in
        (at_node n s'.clients ≡ none)
        × (IsGone id s.sessions s'.sessions
            × (traffic j (s'.apphosts, s'.io) ≡ (
                if target == j
                then traffic j (s.apphosts, s.io) ++ make_packet close_session id
                else traffic j (s.apphosts, s.io))))
  unfolding release_client send_to_apphost
  release_client_lem there route active j =
      let has : not (id == 0) ≡ true = ground (arith, bound) in
      let reached : not (target == 0) ≡ true = ground (arith, real) in
      rw (there, release_client, named, has, route, reached)
        (
          at_node-unlink n s.clients apart_clients,
          (
            remove_session-IsGone s.sessions id sound,
            send_to-traffic target (make_packet close_session id) s.apphosts s.io peer j
                apart_apphosts active,
          ),
        )

  -- When IoPool reports a receive error, a receive timeout or the coming close of an active client
  -- connection whose session is bound to a connected AppHost, the connection is no longer active,
  -- the session is gone from the table and its indexes, the other sessions are as they were, that
  -- AppHost gets CLOSE_SESSION at the end of its stream, and no other AppHost gets anything. The
  -- table is sound, and no two connections of a side share a handle or a node.
  pub on_client_event-loss :
      (event : IoEvent)
      → is_loss event ≡ true
      → at_node n s.clients ≡ some c
      → find_apphost id s.sessions ≡ target
      → find_locked target s.apphosts ≡ some peer
      → (j : ℕ)
      → let s' = on_client_event n event s in
        (at_node n s'.clients ≡ none)
        × (IsGone id s.sessions s'.sessions
            × (traffic j (s'.apphosts, s'.io) ≡ (
                if target == j
                then traffic j (s.apphosts, s.io) ++ make_packet close_session id
                else traffic j (s.apphosts, s.io))))
  unfolding on_client_event
  on_client_event-loss (received bytes) loss there route active j = absurd (cc loss)
  on_client_event-loss sent loss there route active j = absurd (cc loss)
  on_client_event-loss recv_error loss there route active j =
      release_client_lem there route active j
  on_client_event-loss recv_timeout loss there route active j =
      release_client_lem there route active j
  on_client_event-loss before_close loss there route active j =
      release_client_lem there route active j
  on_client_event-loss other loss there route active j = absurd (cc loss)
