-- ===== src/Gateway/Server/Connected.antt =====
-- A connection of src/gateway/gateway.cpp that stays in its list while the queues change.
use protocol_design.Prelude.{
  ℕ, ◌≡◌, ◌≢◌, refl, sym, ◌∙◌, List, [], ◌∷◌, not, ◌||◌, Option, none, some, ◌==◌, arith, All,
  Option-cases, Bool-cases, inl, inr,
}
use protocol_design.Gateway.Packets.{push_chunked}
use protocol_design.Gateway.Server.{
  Connection, Connections, Io, Side, at_node, update_node, first_with_its_id, enqueue, drain,
  with_queue, is_empty,
}
use protocol_design.Gateway.Server.Streams.{
  traffic, Distinct, first_with_its_id-at_node, at_node-same_id, enqueue-traffic, drain-traffic,
}

abbrev pub handle_at : ℕ → Connections → Option ℕ
handle_at n cs = elim (at_node n cs) [ none ↦ none | some c ↦ some c.id ]

-- The connection with handle `id` stays at node `n` of a list without duplicates.
pub record IsConnected (n id : ℕ) (cs : Connections) : Type 0 where
  pub distinct : Distinct cs
  pub place : handle_at n cs ≡ some id

apart-update_node :
    (m : ℕ) (q : List (List ℕ)) (c : Connection) (cs : Connections)
    → All (λ d. (c.id ≢ d.id) × (c.node ≢ d.node)) cs
    → All (λ d. (c.id ≢ d.id) × (c.node ≢ d.node)) (update_node m (with_queue q) cs)
unfolding update_node
apart-update_node m q c [] v = tt
apart-update_node m q c (d ∷ cs) v = elim (Bool-cases (d.node == m)) [
  | inl hit ↦ rw hit (v.0, apart-update_node m q c cs v.1)
  | inr miss ↦ rw miss (v.0, apart-update_node m q c cs v.1)
]

update_node-Distinct :
    (m : ℕ) (q : List (List ℕ)) (cs : Connections)
    → Distinct cs
    → Distinct (update_node m (with_queue q) cs)
unfolding update_node
update_node-Distinct m q [] v = tt
update_node-Distinct m q (c ∷ cs) v =
    let rest = update_node-Distinct m q cs v.1 in
    let apart = apart-update_node m q c cs v.0 in
    elim (Bool-cases (c.node == m)) [
      | inl hit ↦ rw hit (apart, rest)
      | inr miss ↦ rw miss (apart, rest)
    ]

place-update_node :
    (n m : ℕ) (q : List (List ℕ)) (cs : Connections)
    → handle_at n (update_node m (with_queue q) cs) ≡ handle_at n cs
unfolding update_node at_node
place-update_node n m q [] = refl
place-update_node n m q (c ∷ cs) = elim (Bool-cases (c.node == m)) [
  | inl hit ↦ ground (arith, hit, place-update_node n m q cs)
  | inr miss ↦ ground (arith, miss, place-update_node n m q cs)
]

update_node-IsConnected :
    {n id : ℕ} (m : ℕ) (q : List (List ℕ)) {cs : Connections}
    → IsConnected n id cs
    → IsConnected n id (update_node m (with_queue q) cs)
update_node-IsConnected {n} m q {cs} v = record {
  distinct = update_node-Distinct m q cs v.distinct;
  place = place-update_node n m q cs ∙ v.place;
}

pub enqueue-IsConnected :
    {n id : ℕ} (m : ℕ) (bytes : List ℕ) (cs : Connections) (io : Io)
    → IsConnected n id cs
    → IsConnected n id (enqueue m bytes cs io).0
unfolding enqueue
enqueue-IsConnected m bytes cs io v = elim (Option-cases (first_with_its_id m cs)) [
  | inl e ↦ rw (e, enqueue) v
  | inr (c, e) ↦
      let q = push_chunked c.send_queue bytes in
      rw (e, enqueue)
        (elim (Bool-cases (not (is_empty c.send_queue) || is_empty q)) [
          | inl later ↦ rw later (update_node-IsConnected m q v)
          | inr at_once ↦ rw at_once (update_node-IsConnected m _ v)
        ])
]

pub drain-IsConnected :
    {n id : ℕ} (side : Side) (m generation : ℕ) (cs : Connections) (io : Io)
    → IsConnected n id cs
    → IsConnected n id (drain side m generation cs io).0
unfolding drain
drain-IsConnected side m generation cs io v = elim (Option-cases (first_with_its_id m cs)) [
  | inl e ↦ rw (e, drain) v
  | inr (c, e) ↦
      rw (e, drain)
        (elim (Bool-cases (not (c.generation == generation) || is_empty c.send_queue)) [
          | inl idle ↦ rw idle v
          | inr waits ↦ rw waits (update_node-IsConnected m _ v)
        ])
]

-- The connection that `IsConnected` is about.
pub connection :
    {n id : ℕ} {cs : Connections}
    → IsConnected n id cs
    → (c : Connection) × (at_node n cs ≡ some c) × (c.id ≡ id)
connection {n} {id} {cs} v = elim (Option-cases (at_node n cs)) [
  | inl e ↦ absurd (ground (arith, e, v.place))
  | inr (c, e) ↦ (c, e, ground (arith, e, v.place))
]

-- An enqueue for an unknown or another connection, and any drain, leave the stream.
pub other_enqueue-traffic :
    {n id : ℕ} (m : ℕ) (bytes : List ℕ) (cs : Connections) (io : Io)
    → IsConnected n id cs
    → m ≢ n
    → traffic id (enqueue m bytes cs io) ≡ traffic id (cs, io)
unfolding enqueue
other_enqueue-traffic {n} {id} m bytes cs io v ne = elim (Option-cases (at_node m cs)) [
  | inl e ↦ rw (first_with_its_id-at_node m cs v.distinct ∙ e, enqueue) refl
  | inr (d, e) ↦
      let (c, at, same) = connection v in
      let differs : d.id ≢ id =
        λ q. ne (at_node-same_id m n cs d c v.distinct e at (q ∙ sym same)) in
      rw (enqueue-traffic m cs io d v.distinct e bytes id) (ground (arith, differs))
]

pub any_drain-traffic :
    (side : Side) (m generation id : ℕ) (cs : Connections) (io : Io)
    → Distinct cs
    → traffic id (drain side m generation cs io) ≡ traffic id (cs, io)
unfolding drain
any_drain-traffic side m generation id cs io v = elim (Option-cases (at_node m cs)) [
  | inl e ↦ rw (first_with_its_id-at_node m cs v ∙ e, drain) refl
  | inr (d, e) ↦ drain-traffic m cs io d v e side generation id
]
