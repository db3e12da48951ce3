-- ===== src/Gateway/Server/Invariant.antt =====
-- The invariant of the gateway (src/gateway/gateway.cpp) over its callbacks: its session table is
-- sound and no active connection has the handle 0, which stands for none.
use protocol_design.Prelude.{
  ℕ, ◌≡◌, ◌≢◌, refl, sym, subst, ◌∙◌, List, [], ◌∷◌, not, ◌||◌, some, ◌==◌, arith, All,
  Option-cases, Bool-cases, inl, inr,
}
use protocol_design.Gateway.Packets.{push_chunked}
use protocol_design.Gateway.Sessions.{SessionTable}
use protocol_design.Gateway.Sessions.Soundness.{IsSound}
use protocol_design.Gateway.Server.{
  Connection, Connections, Io, Effect, at_node, find_locked, update_node, unlink, first_with_its_id,
  enqueue, send_to, is_empty,
}
use protocol_design.Gateway.Server.State.{
  Server, with_sessions, emit, enqueue_client, enqueue_apphost, send_to_client, send_to_apphost,
}

abbrev pub HasHandle : Connection → Type 0
HasHandle c = c.id ≢ 0

pub record IsValid (s : Server) : Type 0 where
  pub table : IsSound s.sessions
  pub clients_named : All HasHandle s.clients
  pub apphosts_named : All HasHandle s.apphosts

pub update_node-named :
    (n : ℕ) (f : Connection → Connection) (cs : Connections)
    → ((c : Connection) → (f c).id ≡ c.id)
    → All HasHandle cs
    → All HasHandle (update_node n f cs)
unfolding update_node
update_node-named n f [] e v = tt
update_node-named n f (c ∷ cs) e v = elim (Bool-cases (c.node == n)) [
  | inl hit ↦ rw hit ((λ q. v.0 (sym (e c) ∙ q)), update_node-named n f cs e v.1)
  | inr miss ↦ rw miss (v.0, update_node-named n f cs e v.1)
]

pub unlink-named : (n : ℕ) (cs : Connections) → All HasHandle cs → All HasHandle (unlink n cs)
unfolding unlink
unlink-named n [] v = tt
unlink-named n (c ∷ cs) v = elim (Bool-cases (c.node == n)) [
  | inl hit ↦ rw hit v.1
  | inr miss ↦ rw miss (v.0, unlink-named n cs v.1)
]

pub at_node-named :
    (n : ℕ) (cs : Connections) {c : Connection}
    → All HasHandle cs
    → at_node n cs ≡ some c
    → c.id ≢ 0
unfolding at_node
at_node-named n [] v e = cc
at_node-named n (d ∷ cs) {c} v e = elim (Bool-cases (d.node == n)) [
  | inl hit ↦ let same : d ≡ c = ground (arith, hit) in subst HasHandle same v.0
  | inr miss ↦ at_node-named n cs {c = c} v.1 (ground (arith, miss))
]

pub enqueue-named :
    (n : ℕ) (bytes : List ℕ) (cs : Connections) (io : Io)
    → All HasHandle cs
    → All HasHandle (enqueue n bytes cs io).0
unfolding enqueue
enqueue-named n bytes cs io v = elim (Option-cases (first_with_its_id n cs)) [
  | inl e ↦ rw (e, enqueue) v
  | inr (c, e) ↦
      let q = push_chunked c.send_queue bytes in
      rw (e, enqueue)
        (elim (Bool-cases (not (is_empty c.send_queue) || is_empty q)) [
          | inl later ↦ rw later (update_node-named n _ cs (λ d. refl) v)
          | inr at_once ↦ rw at_once (update_node-named n _ cs (λ d. refl) v)
        ])
]

pub send_to-named :
    (id : ℕ) (bytes : List ℕ) (cs : Connections) (io : Io)
    → All HasHandle cs
    → All HasHandle (send_to id bytes cs io).0
unfolding send_to
send_to-named id bytes cs io v = elim (Option-cases (find_locked id cs)) [
  | inl e ↦ rw (e, send_to) v
  | inr (c, e) ↦ rw (e, send_to) (enqueue-named c.node bytes cs io v)
]

module _ {s : Server} (v : IsValid s) where
  pub with_sessions-IsValid : {t : SessionTable} → IsSound t → IsValid (with_sessions t s)
  with_sessions-IsValid w = record {
    table = w;
    clients_named = v.clients_named;
    apphosts_named = v.apphosts_named;
  }

  pub emit-IsValid : (e : Effect) → IsValid (emit e s)
  emit-IsValid e = record {
    table = v.table;
    clients_named = v.clients_named;
    apphosts_named = v.apphosts_named;
  }

  pub enqueue_client-IsValid : (n : ℕ) (bytes : List ℕ) → IsValid (enqueue_client n bytes s)
  unfolding enqueue_client
  enqueue_client-IsValid n bytes = record {
    table = v.table;
    clients_named = enqueue-named n bytes s.clients s.io v.clients_named;
    apphosts_named = v.apphosts_named;
  }

  pub enqueue_apphost-IsValid : (n : ℕ) (bytes : List ℕ) → IsValid (enqueue_apphost n bytes s)
  unfolding enqueue_apphost
  enqueue_apphost-IsValid n bytes = record {
    table = v.table;
    clients_named = v.clients_named;
    apphosts_named = enqueue-named n bytes s.apphosts s.io v.apphosts_named;
  }

  pub send_to_client-IsValid : (id : ℕ) (bytes : List ℕ) → IsValid (send_to_client id bytes s)
  unfolding send_to_client
  send_to_client-IsValid id bytes = record {
    table = v.table;
    clients_named = send_to-named id bytes s.clients s.io v.clients_named;
    apphosts_named = v.apphosts_named;
  }

  pub send_to_apphost-IsValid : (id : ℕ) (bytes : List ℕ) → IsValid (send_to_apphost id bytes s)
  unfolding send_to_apphost
  send_to_apphost-IsValid id bytes = record {
    table = v.table;
    clients_named = v.clients_named;
    apphosts_named = send_to-named id bytes s.apphosts s.io v.apphosts_named;
  }
