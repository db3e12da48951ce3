-- ===== src/Gateway/Server/Streams.antt =====
-- The bytes of each connection (src/gateway/gateway.cpp: enqueue_client, drain_client_queue and their
-- AppHost twins): what was handed to IoPool and what still waits, in order.
use mathlib.Core.List.{flatten}
use protocol_design.Prelude.{
  ℕ, ◌≡◌, ◌≢◌, refl, sym, ap, ◌∙◌, List, [], ◌∷◌, ◌++◌, Bool, true, false, not, ◌&&◌, ◌||◌, none,
  some, if◌then◌else◌, ◌==◌, ==_iff, arith, All, Option-cases, Bool-cases, inl, inr, append-nil,
  append_assoc,
}
use protocol_design.Gateway.Packets.{push_chunked}
use protocol_design.Gateway.Chunking.{flatten-push_chunked}
use protocol_design.Gateway.Server.{
  Connection, Connections, Io, Effect, send, disable, terminate, spawn, schedule_drain,
  disable_io_pool, Side, next_begin, find_locked, at_node, update_node, first_with_its_id, try_send,
  enqueue, drain, with_queue, is_empty,
}

-- The bytes that were handed to IoPool for a handle.
abbrev pub sent_to : ℕ → List Effect → List ℕ
sent_to id [] = []
sent_to id (send j bytes ∷ es) = if j == id then bytes ++ sent_to id es else sent_to id es
sent_to id (disable j ∷ es) = sent_to id es
sent_to id (terminate p ∷ es) = sent_to id es
sent_to id (spawn l ∷ es) = sent_to id es
sent_to id (schedule_drain side n g ∷ es) = sent_to id es
sent_to id (disable_io_pool ∷ es) = sent_to id es

-- The bytes that wait in the queue of a handle's connection.
abbrev pub queued : ℕ → Connections → List ℕ
queued id cs = elim (find_locked id cs) [ none ↦ [] | some c ↦ flatten c.send_queue ]

abbrev pub traffic : ℕ → Connections × Io → List ℕ
traffic id (cs, io) = sent_to id io.effects ++ queued id cs

-- No two active connections share a handle or a node.
abbrev pub Distinct : Connections → Type 0
Distinct [] = Unit {0}
Distinct (c ∷ cs) = All (λ d. (c.id ≢ d.id) × (c.node ≢ d.node)) cs × Distinct cs

sent_to-append :
    (id : ℕ) (es ds : List Effect) → sent_to id (es ++ ds) ≡ sent_to id es ++ sent_to id ds
sent_to-append id [] ds = refl
sent_to-append id (send j bytes ∷ es) ds =
    ground (arith, sent_to-append id es ds, append_assoc bytes (sent_to id es) (sent_to id ds))
sent_to-append id (disable j ∷ es) ds = sent_to-append id es ds
sent_to-append id (terminate p ∷ es) ds = sent_to-append id es ds
sent_to-append id (spawn l ∷ es) ds = sent_to-append id es ds
sent_to-append id (schedule_drain side n g ∷ es) ds = sent_to-append id es ds
sent_to-append id (disable_io_pool ∷ es) ds = sent_to-append id es ds

not_other :
    (c d : Connection) (cs : Connections) (n : ℕ)
    → All (λ e. (c.id ≢ e.id) × (c.node ≢ e.node)) cs
    → at_node n cs ≡ some d
    → (c.id ≢ d.id) × (c.node ≢ n) × (d.node ≡ n)
unfolding at_node
not_other c d [] n a q = cc
not_other c d (e ∷ cs) n a q = ground (arith, not_other c d cs n a.1)

pub find_locked-at_node :
    (n : ℕ) (cs : Connections) {c : Connection}
    → Distinct cs
    → at_node n cs ≡ some c
    → find_locked c.id cs ≡ some c
unfolding find_locked at_node
find_locked-at_node n [] v q = cc
find_locked-at_node n (e ∷ cs) {c} v q =
    ground (arith, not_other e c cs n v.0, find_locked-at_node n cs {c = c} v.1)

pub node-at_node : (n : ℕ) (cs : Connections) {c : Connection} → at_node n cs ≡ some c → c.node ≡ n
unfolding at_node
node-at_node n [] q = cc
node-at_node n (e ∷ cs) {c} q = ground (arith, node-at_node n cs {c = c})

-- On such a list a pointer to an active connection is the first with its handle.
pub first_with_its_id-at_node :
    (n : ℕ) (cs : Connections) → Distinct cs → first_with_its_id n cs ≡ at_node n cs
unfolding first_with_its_id
first_with_its_id-at_node n cs v = elim (Option-cases (at_node n cs)) [
  | inl e ↦ ground arith
  | inr (c, e) ↦ ground (arith, find_locked-at_node n cs v e, node-at_node n cs e)
]

-- Two nodes of such a list do not share a handle.
pub at_node-same_id :
    (m n : ℕ) (cs : Connections) (d c : Connection)
    → Distinct cs
    → at_node m cs ≡ some d
    → at_node n cs ≡ some c
    → d.id ≡ c.id
    → m ≡ n
at_node-same_id m n cs d c v e f same =
    let found = find_locked-at_node m cs {c = d} v e in
    let also = find_locked-at_node n cs {c = c} v f in
    let one : d ≡ c = ground (arith, found, also, same) in
    sym (node-at_node m cs {c = d} e) ∙ ap (λ z. z.node) one ∙ node-at_node n cs {c = c} f

update_node_absent :
    (f : Connection → Connection) (d : Connection) (n : ℕ) (cs : Connections)
    → All (λ e. (d.id ≢ e.id) × (d.node ≢ e.node)) cs
    → d.node ≡ n
    → update_node n f cs ≡ cs
unfolding update_node
update_node_absent f d n [] a e = refl
update_node_absent f d n (c ∷ cs) a e = ground (arith, update_node_absent f d n cs a.1 e)

-- What `find_locked` finds when one queue is replaced.
find_locked-update_node :
    (n id : ℕ) (q : List (List ℕ)) (cs : Connections) (c : Connection)
    → Distinct cs
    → at_node n cs ≡ some c
    → find_locked id (update_node n (with_queue q) cs)
      ≡ (if c.id == id then some (with_queue q c) else find_locked id cs)
unfolding find_locked at_node update_node
find_locked-update_node n id q [] c v e = cc
find_locked-update_node n id q (d ∷ cs) c v e = elim (Bool-cases (d.node == n)) [
  | inl hit ↦
      let same : d ≡ c = ground (arith, hit, e) in
      rw (hit, update_node_absent (with_queue q) d n cs v.0 (ground arith)) (ground (arith, same))
  | inr miss ↦
      let rest : at_node n cs ≡ some c = ground (arith, miss, e) in
      rw (miss, find_locked-update_node n id q cs c v.1 rest)
        (ground (arith, not_other d c cs n v.0 rest))
]

queued-update_node :
    (n id : ℕ) (q : List (List ℕ)) (cs : Connections) (c : Connection)
    → Distinct cs
    → at_node n cs ≡ some c
    → queued id (update_node n (with_queue q) cs) ≡ (if c.id == id then flatten q else queued id cs)
queued-update_node n id q cs c v e = ground (arith, find_locked-update_node n id q cs c v e)

queued-at_node :
    (n : ℕ) (cs : Connections) (c : Connection)
    → Distinct cs
    → at_node n cs ≡ some c
    → queued c.id cs ≡ flatten c.send_queue
queued-at_node n cs c v e = ground (arith, find_locked-at_node n cs {c = c} v e)

-- A send moves a chunk from the queue to IoPool, or nothing.
try_send-traffic :
    (id j : ℕ) (q : List (List ℕ)) (io : Io)
    → let r = try_send id q io in
      (sent_to id r.2.effects ++ flatten r.1 ≡ sent_to id io.effects ++ flatten q)
      × (id ≢ j → sent_to j r.2.effects ≡ sent_to j io.effects)
unfolding try_send flatten
try_send-traffic id j [] io = (refl, λ _. refl)
try_send-traffic id j (chunk ∷ q) io =
    let b = (next_begin io.begins).0 in
    elim (Bool-cases (b.raw && not b.cancelled)) [
      | inl given ↦
          rw
            (
              given,
              sent_to-append id io.effects (send id chunk ∷ []),
              sent_to-append j io.effects (send id chunk ∷ []),
              (==_iff id id).1 refl,
            )
            (
              rw append-nil (append_assoc (sent_to id io.effects) chunk (flatten q)),
              λ ne. ground (arith, append-nil (sent_to j io.effects)),
            )
      | inr kept ↦ rw kept (refl, λ _. refl)
    ]

module _ (n : ℕ) (cs : Connections) (io : Io) (c : Connection) (v : Distinct cs)
    (e : at_node n cs ≡ some c) where
  pointer : first_with_its_id n cs ≡ some c
  pointer = first_with_its_id-at_node n cs v ∙ e

  -- A queue that is sent from holds, with what was sent, the bytes that it held.
  sent_queue-traffic :
      (j : ℕ) (q : List (List ℕ))
      → let r = try_send c.id q io in
        sent_to j r.2.effects ++ queued j (update_node n (with_queue r.1) cs)
        ≡ (if c.id == j then sent_to j io.effects ++ flatten q else traffic j (cs, io))
  sent_queue-traffic j q =
      rw (queued-update_node n j (try_send c.id q io).1 cs c v e) (elim (Bool-cases (c.id == j)) [
        | inl mine ↦
            let same : c.id ≡ j = ground (arith, mine) in
            rw (mine, ← same) (try_send-traffic c.id j q io).0
        | inr other ↦
            let different : c.id ≢ j = ground (arith, other) in
            rw (other, (try_send-traffic c.id j q io).1 different) refl
      ])

  kept_queue-traffic :
      (j : ℕ) (q : List (List ℕ))
      → traffic j (update_node n (with_queue q) cs, io)
        ≡ (if c.id == j then sent_to j io.effects ++ flatten q else traffic j (cs, io))
  kept_queue-traffic j q = rw (queued-update_node n j q cs c v e) (ground arith)

  queue_after :
      (j : ℕ) (bytes : List ℕ)
      → (if c.id == j
          then sent_to j io.effects ++ flatten (push_chunked c.send_queue bytes)
          else traffic j (cs, io))
        ≡ (if c.id == j then traffic j (cs, io) ++ bytes else traffic j (cs, io))
  queue_after j bytes = elim (Bool-cases (c.id == j)) [
    | inl mine ↦
        let same : c.id ≡ j = ground (arith, mine) in
        rw (mine, ← same, queued-at_node n cs c v e, flatten-push_chunked c.send_queue bytes)
          (sym (append_assoc (sent_to c.id io.effects) (flatten c.send_queue) bytes))
    | inr other ↦ rw other refl
  ]

  queue_before :
      (j : ℕ)
      → (if c.id == j then sent_to j io.effects ++ flatten c.send_queue else traffic j (cs, io))
        ≡ traffic j (cs, io)
  queue_before j = elim (Bool-cases (c.id == j)) [
    | inl mine ↦
        let same : c.id ≡ j = ground (arith, mine) in
        rw (mine, ← same, queued-at_node n cs c v e) refl
    | inr other ↦ rw other refl
  ]

  -- Enqueueing for an active connection, in a list where no two share a handle or a node, adds the
  -- bytes at the end of the stream of its handle, and to no other stream: what was handed to IoPool
  -- followed by what waits is what it was, followed by the new bytes.
  pub enqueue-traffic :
      (bytes : List ℕ) (j : ℕ)
      → traffic j (enqueue n bytes cs io)
        ≡ (if c.id == j then traffic j (cs, io) ++ bytes else traffic j (cs, io))
  unfolding enqueue
  enqueue-traffic bytes j =
      let q = push_chunked c.send_queue bytes in
      rw (pointer, enqueue)
        (elim (Bool-cases (not (is_empty c.send_queue) || is_empty q)) [
          | inl later ↦ rw later (kept_queue-traffic j q ∙ queue_after j bytes)
          | inr at_once ↦ rw at_once (sent_queue-traffic j q ∙ queue_after j bytes)
        ])

  scheduled-traffic :
      (side : Side) (generation j : ℕ) (retry : Bool) (io' : Io)
      → sent_to j
          (if retry
            then record io' { effects = io'.effects ++ schedule_drain side n generation ∷ [] }
            else io').effects
        ≡ sent_to j io'.effects
  scheduled-traffic side generation j true io' =
      sent_to-append j io'.effects (schedule_drain side n generation ∷ []) ∙ append-nil _
  scheduled-traffic side generation j false io' = refl

  -- Draining an active connection, in a list where no two share a handle or a node, changes no
  -- stream: bytes only move from the queue to IoPool, in order.
  pub drain-traffic :
      (side : Side) (generation j : ℕ)
      → traffic j (drain side n generation cs io) ≡ traffic j (cs, io)
  unfolding drain
  drain-traffic side generation j =
      rw (pointer, drain)
        (elim (Bool-cases (not (c.generation == generation) || is_empty c.send_queue)) [
          | inl idle ↦ rw idle refl
          | inr waits ↦
              let r = try_send c.id c.send_queue io in
              rw (waits, scheduled-traffic side generation j r.0 r.2)
                (sent_queue-traffic j c.send_queue ∙ queue_before j)
        ])
