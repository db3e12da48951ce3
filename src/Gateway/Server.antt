-- ===== src/Gateway/Server.antt =====
-- src/gateway/gateway.cpp, struct Gateway::Impl: connections, send queues and the calls into IoPool.
-- A callback runs from start to end under the locks that it takes, so that it is one step of the
-- state. IoPool and the operating system are the environment: `begins` holds what the coming calls of
-- BeginInput answer, `spawns` what the coming forks answer, and `effects` lists what was asked of
-- them, oldest first. A pointer to a connection is the address of its node in the free list.
pub mod Streams
pub mod Connected
pub mod Bounds
pub mod Delivery
pub mod State
pub mod Handlers
pub mod Monitor
pub mod Invariant
pub mod Cleanup
pub mod Timeouts
pub mod Health
pub mod Preserved
pub mod Callbacks
pub mod Routing
pub mod Steps
pub mod Launching
pub mod Endings
pub mod Reachable
pub mod Start
pub mod Events
pub mod Release
use protocol_design.Prelude.{
  ℕ, zero, suc, ◌+◌, List, [], ◌∷◌, ◌++◌, Bool, true, false, not, ◌&&◌, ◌||◌, Option, none, some,
  if◌then◌else◌, ◌==◌, u64,
}
use protocol_design.Prelude.Int.{ℤ}
use protocol_design.Protocol.Parser.{MessageParser}
use protocol_design.Protocol.Parser
use protocol_design.Gateway.Packets.{push_chunked}
use protocol_design.Gateway.Sessions.{SessionTable}
use protocol_design.Gateway.Sessions

-- ClientSession and AppHostSession, which have the same fields: `peer_conn` is `apphost_conn_` in the
-- one and `client_conn_` in the other.
pub record Connection : Type 0 where
  pub node : ℕ
  pub id : ℕ
  pub generation : ℕ
  pub parser : MessageParser
  pub session_id : ℕ
  pub peer_conn : ℕ
  pub send_queue : List (List ℕ)

pub data Side : Type 0 where
  client_side apphost_side : Side

-- process_manager.h: what a new AppHost process is told.
pub record AppHostLaunchConfig : Type 0 where
  pub session_id : ℕ
  pub apphost_bin : List ℕ
  pub gateway_host : List ℕ
  pub gateway_port : ℕ
  pub plugin_path : List ℕ
  pub width : ℤ
  pub height : ℤ

-- What the server asks of IoPool and of the operating system.
pub data Effect : Type 0 where
  send : ℕ → List ℕ → Effect
  disable : ℕ → Effect
  terminate : ℤ → Effect
  spawn : AppHostLaunchConfig → Effect
  schedule_drain : Side → ℕ → ℕ → Effect
  disable_io_pool : Effect

-- BeginInput's answer: whether it gave a buffer, and its out parameter `cancelled`.
pub record Begin : Type 0 where
  pub raw : Bool
  pub cancelled : Bool

-- An IoPool that has nothing more to say is busy.
abbrev pub busy : Begin
busy = record { raw = false; cancelled = false }

pub record Io : Type 0 where
  pub begins : List Begin
  pub effects : List Effect

abbrev pub next_begin : List Begin → Begin × List Begin
next_begin [] = (busy, [])
next_begin (b ∷ bs) = (b, bs)

-- The linked list of active connections, newest first.
abbrev pub Connections : Type 0
Connections = List Connection

-- find_client_locked and find_apphost_locked.
unfoldable pub find_locked : ℕ → Connections → Option Connection
find_locked id [] = none
find_locked id (c ∷ cs) = if c.id == id then some c else find_locked id cs

-- The connection that a pointer names, if it is active.
unfoldable pub at_node : ℕ → Connections → Option Connection
at_node n [] = none
at_node n (c ∷ cs) = if c.node == n then some c else at_node n cs

unfoldable pub update_node : ℕ → (Connection → Connection) → Connections → Connections
update_node n f [] = []
update_node n f (c ∷ cs) = (if c.node == n then f c else c) ∷ update_node n f cs

unfoldable pub unlink : ℕ → Connections → Connections
unlink n [] = []
unlink n (c ∷ cs) = let rest = unlink n cs in if c.node == n then cs else c ∷ rest

abbrev pub is_empty : List (List ℕ) → Bool
is_empty [] = true
is_empty (c ∷ q) = false

-- One call of BeginInput for the head of the queue: where it gives a buffer the chunk is copied,
-- popped and handed over by EndInput. The Boolean says whether to try again: BeginInput gave no
-- buffer, and the connection is not cancelled.
unfoldable pub try_send : ℕ → List (List ℕ) → Io → Bool × List (List ℕ) × Io
try_send id [] io = (false, [], io)
try_send id (chunk ∷ rest) io =
    let (b, bs) = next_begin io.begins in
    if b.raw && not b.cancelled
    then (false, rest, record io { begins = bs; effects = io.effects ++ send id chunk ∷ [] })
    else (not b.cancelled, chunk ∷ rest, record io { begins = bs })

-- `conn == find_locked(conn->id_)`, for a pointer that may be stale.
unfoldable pub first_with_its_id : ℕ → Connections → Option Connection
first_with_its_id n cs = elim (at_node n cs) [
  | none ↦ none
  | some c ↦ elim (find_locked c.id cs) [
    | none ↦ none
    | some d ↦ if d.node == n then some c else none
  ]
]

abbrev pub with_queue : List (List ℕ) → Connection → Connection
with_queue q c = record c { send_queue = q }

-- enqueue_client and enqueue_apphost.
unfoldable pub enqueue : ℕ → List ℕ → Connections → Io → Connections × Io
unfolding try_send
enqueue n bytes cs io = elim (first_with_its_id n cs) [
  | none ↦ (cs, io)
  | some c ↦
      let q = push_chunked c.send_queue bytes in
      if not (is_empty c.send_queue) || is_empty q
      then (update_node n (with_queue q) cs, io)
      else let (_, q', io') = try_send c.id q io in (update_node n (with_queue q') cs, io')
]

-- send_to_client and send_to_apphost.
unfoldable pub send_to : ℕ → List ℕ → Connections → Io → Connections × Io
unfolding enqueue
send_to id bytes cs io = elim (find_locked id cs) [
  | none ↦ (cs, io)
  | some c ↦ enqueue c.node bytes cs io
]

-- drain_client_queue and drain_apphost_queue: a refused chunk is tried again later, unless the
-- connection is cancelled.
unfoldable pub drain : Side → ℕ → ℕ → Connections → Io → Connections × Io
unfolding try_send
drain side n generation cs io = elim (first_with_its_id n cs) [
  | none ↦ (cs, io)
  | some c ↦
      if not (c.generation == generation) || is_empty c.send_queue
      then (cs, io)
      else let (retry, q', io') = try_send c.id c.send_queue io in
        (
          update_node n (with_queue q') cs,
          (if retry
              then record io' { effects = io'.effects ++ schedule_drain side n generation ∷ [] }
              else io'),
        )
]

-- client_generation and apphost_generation.
unfoldable pub generation_of : ℕ → Connections → ℕ
generation_of n cs = elim (first_with_its_id n cs) [ none ↦ 0 | some c ↦ c.generation ]

-- on_client_sent and on_apphost_sent.
unfoldable pub on_sent : Side → ℕ → Connections → Io → Io
unfolding generation_of
on_sent side n cs io =
    let generation = generation_of n cs in
    if not (generation == 0)
    then record io { effects = io.effects ++ schedule_drain side n generation ∷ [] }
    else io

-- A connection as `alloc_client` and `alloc_apphost` set it up in a node.
abbrev pub fresh_connection : ℕ → ℕ → ℕ → Connection
fresh_connection n id generation = record {
  node = n;
  id = id;
  generation = generation;
  parser = Parser.empty;
  session_id = 0;
  peer_conn = 0;
  send_queue = [];
}
