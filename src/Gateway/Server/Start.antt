-- ===== src/Gateway/Server/Start.antt =====
-- The gateway of src/gateway/gateway.cpp from its construction to its destruction: its fields at first,
-- `start`, the shorter `start` and ~Gateway. What IoPool answers is given.
use protocol_design.Prelude.{
  ℕ, zero, suc, ◌≡◌, refl, List, [], ◌∷◌, ◌++◌, Bool, true, false, ◌||◌, Option, arith,
  if◌then◌else◌, ◌==◌, Bool-cases, inl, inr,
}
use protocol_design.Prelude.Assoc.{nat_eq}
use protocol_design.Prelude.Int.{ℤ}
use protocol_design.Gateway.Options.{default_settings}
use protocol_design.Gateway.Sessions
use protocol_design.Gateway.Sessions.{snapshot_sessions}
use protocol_design.Gateway.Sessions.Soundness.{empty-IsSound}
use protocol_design.Gateway.Server.{Begin, Effect, disable, disable_io_pool}
use protocol_design.Gateway.Server.State.{Server, Config, FileAccess, emit}
use protocol_design.Gateway.Server.Monitor.{fail_all, stop}
use protocol_design.Gateway.Server.Invariant.{IsValid}
use protocol_design.Gateway.Server.Endings.{stop-IsValid}
use protocol_design.Gateway.Server.Preserved.{if-IsValid}

-- StartListen's answer: a handle, 0 for none, and its out parameter `cancelled`.
pub record Listen : Type 0 where
  pub id : ℕ
  pub cancelled : Bool

-- The fields as the constructor leaves them, in the environment that is given.
unfoldable pub fresh_server : FileAccess → List Begin → List (Option ℤ) → ℕ → Server
fresh_server files begins spawns now = record {
  config = default_settings.config;
  clients = [];
  apphosts = [];
  next_client_generation = 0;
  next_apphost_generation = 0;
  sessions = Sessions.empty;
  io = record { begins = begins; effects = [] };
  files = files;
  spawns = spawns;
  now = now;
  running = false;
  client_listen_id = 0;
  apphost_listen_id = 0;
}

abbrev pub not_listening : Listen → Bool
not_listening l = l.id == 0 || l.cancelled

abbrev pub listening : Config → ℕ → ℕ → Server → Server
listening config client_listen_id apphost_listen_id s = record s {
  config = config;
  client_listen_id = client_listen_id;
  apphost_listen_id = apphost_listen_id;
  running = true;
}

-- `start`, where `no_pool` says that _IoPool_Fetch gave none. The result comes first.
unfoldable pub start : Bool → Listen → Listen → Config → Server → Bool × Server
start no_pool client apphost config s =
    let s₁ = record s { config = config } in
    if no_pool
    then (false, s₁)
    else let s₂ = record s₁ { client_listen_id = client.id } in
      if not_listening client
      then (false, emit disable_io_pool s₂)
      else let s₃ = record s₂ { apphost_listen_id = apphost.id } in
        if not_listening apphost
        then (
          false,
          emit disable_io_pool
              (record (emit (disable s₃.client_listen_id) s₃) { client_listen_id = 0 }),
        )
        else (true, listening config client.id apphost.id s)

-- `start` with the two ports only.
unfoldable pub start_ports : Bool → Listen → Listen → ℕ → ℕ → Server → Bool × Server
unfolding start
start_ports no_pool client apphost public_port apphost_internal_port s =
    start no_pool client apphost
      (record (default_settings.config) {
        public_port = public_port;
        apphost_internal_port = apphost_internal_port;
        auto_spawn_apphost = false;
      })
      s

-- ~Gateway.
unfoldable pub destroy : Server → Server
unfolding stop
destroy s = if s.running then stop s else s

-- The listeners that stay open until someone closes them.
abbrev pub open_listeners : Listen → Listen → List Effect
open_listeners client apphost =
    if not_listening client
    then []
    else disable client.id ∷ (if not_listening apphost then [] else disable apphost.id ∷ [])

-- What a gateway that is started and then destroyed has asked of IoPool.
abbrev pub shutdown : Bool → Listen → Listen → List Effect
shutdown true client apphost = []
shutdown false client apphost = open_listeners client apphost ++ disable_io_pool ∷ []

pub fresh_server-IsValid :
    (files : FileAccess) (begins : List Begin) (spawns : List (Option ℤ)) (now : ℕ)
    → IsValid (fresh_server files begins spawns now)
unfolding fresh_server
fresh_server-IsValid files begins spawns now = record {
  table = empty-IsSound;
  clients_named = tt;
  apphosts_named = tt;
}

is_handle : (n : ℕ) → (suc n == 0) ≡ false
is_handle n = ground arith

stop-listening :
    (config : Config) (s : Server) (i j : ℕ)
    → snapshot_sessions s.sessions ≡ []
    → let t = stop (listening config (suc i) (suc j) s) in
      (t.io.effects
        ≡ ((s.io.effects ++ disable (suc i) ∷ []) ++ disable (suc j) ∷ []) ++ disable_io_pool ∷ [])
      × (t.running ≡ false)
unfolding stop fail_all
stop-listening config s i j none_there =
    rw none_there (rw (is_handle i) (rw (is_handle j) (refl, refl)))

-- However its listeners are answered, a fresh gateway that is started and destroyed gives back what it got and
-- keeps nothing: it closes each listener that was opened, once, and then IoPool, if there is one,
-- asks for nothing else, and is not running.
pub destroy-start :
    (files : FileAccess) (begins : List Begin) (spawns : List (Option ℤ)) (now : ℕ) (no_pool : Bool)
    (client apphost : Listen) (config : Config)
    → let s =
        destroy (start no_pool client apphost config (fresh_server files begins spawns now)).1 in
      (s.io.effects ≡ shutdown no_pool client apphost) × (s.running ≡ false)
unfolding destroy start fresh_server stop fail_all Sessions.snapshot_sessions
destroy-start files begins spawns now true client apphost config = (refl, refl)
destroy-start files begins spawns now false client apphost config =
    answered client.id client.cancelled apphost.id apphost.cancelled
  where
    answered :
        (i : ℕ) (x : Bool) (j : ℕ) (y : Bool)
        → let client : Listen = record { id = i; cancelled = x } in
          let apphost : Listen = record { id = j; cancelled = y } in
          let s : Server =
            destroy (start false client apphost config (fresh_server files begins spawns now)).1 in
          (s.io.effects ≡ shutdown false client apphost) × (s.running ≡ false)
    answered zero x j y = (refl, refl)
    answered (suc i) true j y = rw (is_handle i) (refl, refl)
    answered (suc i) false zero y = rw (is_handle i) (refl, refl)
    answered (suc i) false (suc j) true = rw (is_handle i, is_handle j) (refl, refl)
    answered (suc i) false (suc j) false =
        rw (is_handle i, is_handle j)
          (stop-listening config (fresh_server files begins spawns now) i j refl)

pub start-IsValid :
    (no_pool : Bool) (client apphost : Listen) (config : Config) (s : Server)
    → IsValid s
    → IsValid (start no_pool client apphost config s).1
unfolding start
start-IsValid true client apphost config s v = record {
  table = v.table;
  clients_named = v.clients_named;
  apphosts_named = v.apphosts_named;
}
start-IsValid false client apphost config s v = elim (Bool-cases (not_listening client)) [
  | inl shut ↦ rw shut (record {
    table = v.table;
    clients_named = v.clients_named;
    apphosts_named = v.apphosts_named;
  })
  | inr ok ↦ elim (Bool-cases (not_listening apphost)) [
    | inl shut ↦
        rw (ok, shut)
          (record {
            table = v.table;
            clients_named = v.clients_named;
            apphosts_named = v.apphosts_named;
          })
    | inr ok' ↦
        rw (ok, ok')
          (record {
            table = v.table;
            clients_named = v.clients_named;
            apphosts_named = v.apphosts_named;
          })
  ]
]

pub destroy-IsValid : (s : Server) → IsValid s → IsValid (destroy s)
unfolding destroy
destroy-IsValid s v = if-IsValid s.running (stop-IsValid s v) v
