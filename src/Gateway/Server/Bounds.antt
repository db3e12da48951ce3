-- ===== src/Gateway/Server/Bounds.antt =====
-- The chunks of src/gateway/gateway.cpp and the size of the send buffer of IoPool
-- (kIoPoolMaxChunk).
use protocol_design.Prelude.{
  ℕ, ◌≡◌, subst, List, [], ◌∷◌, ◌++◌, Bool, not, ◌&&◌, ◌||◌, some, if◌then◌else◌, ◌==◌, arith, All,
  All-append, Option-cases, Bool-cases, inl, inr, true, false,
}
use protocol_design.Gateway.Packets.{push_chunked}
use protocol_design.Gateway.Chunking.{push_chunked-IsChunk, IsChunk}
use protocol_design.Gateway.Server.{
  Connection, Connections, Io, Effect, send, disable, terminate, spawn, schedule_drain,
  disable_io_pool, Side, next_begin, find_locked, at_node, update_node, first_with_its_id, try_send,
  enqueue, send_to, drain, with_queue, is_empty,
}

-- What a call of BeginInput copied fits its buffer.
abbrev pub FitsBuffer : Effect → Type 0
FitsBuffer (send id bytes) = IsChunk bytes
FitsBuffer (disable j) = Unit {0}
FitsBuffer (terminate p) = Unit {0}
FitsBuffer (spawn l) = Unit {0}
FitsBuffer (schedule_drain side n g) = Unit {0}
FitsBuffer disable_io_pool = Unit {0}

abbrev pub QueueFits : Connection → Type 0
QueueFits c = All IsChunk c.send_queue

-- Every chunk that waits or was sent is not empty and has at most 4000 bytes.
pub record IsBounded (r : Connections × Io) : Type 0 where
  pub queues : All QueueFits r.0
  pub sends : All FitsBuffer r.1.effects

update_node-QueueFits :
    (n : ℕ) (q : List (List ℕ)) (cs : Connections)
    → All IsChunk q
    → All QueueFits cs
    → All QueueFits (update_node n (with_queue q) cs)
unfolding update_node
update_node-QueueFits n q [] f v = tt
update_node-QueueFits n q (c ∷ cs) f v = elim (Bool-cases (c.node == n)) [
  | inl hit ↦ rw hit (f, update_node-QueueFits n q cs f v.1)
  | inr miss ↦ rw miss (v.0, update_node-QueueFits n q cs f v.1)
]

find_locked-QueueFits :
    (id : ℕ) (cs : Connections) {c : Connection}
    → All QueueFits cs
    → find_locked id cs ≡ some c
    → QueueFits c
unfolding find_locked
find_locked-QueueFits id [] v e = cc
find_locked-QueueFits id (d ∷ cs) {c} v e = elim (Bool-cases (d.id == id)) [
  | inl hit ↦ let same : d ≡ c = ground (arith, hit) in subst QueueFits same v.0
  | inr miss ↦ find_locked-QueueFits id cs {c = c} v.1 (ground (arith, miss))
]

at_node-QueueFits :
    (n : ℕ) (cs : Connections) {c : Connection}
    → All QueueFits cs
    → at_node n cs ≡ some c
    → QueueFits c
unfolding at_node
at_node-QueueFits n [] v e = cc
at_node-QueueFits n (d ∷ cs) {c} v e = elim (Bool-cases (d.node == n)) [
  | inl hit ↦ let same : d ≡ c = ground (arith, hit) in subst QueueFits same v.0
  | inr miss ↦ at_node-QueueFits n cs {c = c} v.1 (ground (arith, miss))
]

first_with_its_id-QueueFits :
    (n : ℕ) (cs : Connections) {c : Connection}
    → All QueueFits cs
    → first_with_its_id n cs ≡ some c
    → QueueFits c
unfolding first_with_its_id
first_with_its_id-QueueFits n cs {c} v e = at_node-QueueFits n cs {c = c} v (ground arith)

-- The queue that is left and the effects after one try.
try_send-FitsBuffer :
    (id : ℕ) (q : List (List ℕ)) (io : Io)
    → All IsChunk q
    → All FitsBuffer io.effects
    → All IsChunk (try_send id q io).1 × All FitsBuffer (try_send id q io).2.effects
unfolding try_send
try_send-FitsBuffer id [] io f v = (tt, v)
try_send-FitsBuffer id (chunk ∷ q) io f v =
    let b = (next_begin io.begins).0 in
    elim (Bool-cases (b.raw && not b.cancelled)) [
      | inl given ↦
          rw given (f.1, All-append FitsBuffer io.effects (send id chunk ∷ []) v (f.0, tt))
      | inr kept ↦ rw kept (f, v)
    ]

-- If every chunk that waits or was sent has 1 to 4000 bytes, so it is after anything is enqueued.
pub enqueue-IsBounded :
    (n : ℕ) (bytes : List ℕ) (cs : Connections) (io : Io)
    → IsBounded (cs, io)
    → IsBounded (enqueue n bytes cs io)
unfolding enqueue
enqueue-IsBounded n bytes cs io v = elim (Option-cases (first_with_its_id n cs)) [
  | inl e ↦ rw (e, enqueue) v
  | inr (c, e) ↦
      let q = push_chunked c.send_queue bytes in
      let f =
        push_chunked-IsChunk c.send_queue bytes (first_with_its_id-QueueFits n cs v.queues e) in
      rw (e, enqueue)
        (elim (Bool-cases (not (is_empty c.send_queue) || is_empty q)) [
          | inl later ↦
              rw later
                (record { queues = update_node-QueueFits n q cs f v.queues; sends = v.sends })
          | inr at_once ↦
              let (left, sent) = try_send-FitsBuffer c.id q io f v.sends in
              rw at_once
                (record { queues = update_node-QueueFits n _ cs left v.queues; sends = sent })
        ])
]

pub send_to-IsBounded :
    (id : ℕ) (bytes : List ℕ) (cs : Connections) (io : Io)
    → IsBounded (cs, io)
    → IsBounded (send_to id bytes cs io)
unfolding send_to
send_to-IsBounded id bytes cs io v = elim (Option-cases (find_locked id cs)) [
  | inl e ↦ rw (e, send_to) v
  | inr (c, e) ↦ rw (e, send_to) (enqueue-IsBounded c.node bytes cs io v)
]

-- If every chunk that waits or was sent has 1 to 4000 bytes, so it is after a drain.
pub drain-IsBounded :
    (side : Side) (n generation : ℕ) (cs : Connections) (io : Io)
    → IsBounded (cs, io)
    → IsBounded (drain side n generation cs io)
unfolding drain
drain-IsBounded side n generation cs io v = elim (Option-cases (first_with_its_id n cs)) [
  | inl e ↦ rw (e, drain) v
  | inr (c, e) ↦
      rw (e, drain)
        (elim (Bool-cases (not (c.generation == generation) || is_empty c.send_queue)) [
          | inl idle ↦ rw idle v
          | inr waits ↦
              let (left, sent) =
                try_send-FitsBuffer c.id c.send_queue io
                  (first_with_its_id-QueueFits n cs v.queues e) v.sends in
              rw waits (record {
                queues = update_node-QueueFits n _ cs left v.queues;
                sends = scheduled (try_send c.id c.send_queue io).0 _ sent;
              })
        ])
]
  where
    scheduled :
        (retry : Bool) (io' : Io)
        → All FitsBuffer io'.effects
        → All FitsBuffer
            (if retry
              then record io' { effects = io'.effects ++ schedule_drain side n generation ∷ [] }
              else io').effects
    scheduled true io' w =
        All-append FitsBuffer io'.effects (schedule_drain side n generation ∷ []) w (tt, tt)
    scheduled false io' w = w
