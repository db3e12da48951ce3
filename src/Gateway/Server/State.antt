-- ===== src/Gateway/Server/State.antt =====
-- The fields of Gateway::Impl and Gateway::Config (src/gateway/gateway.cpp, gateway.h), and the
-- sends of Gateway/Server.antt on them.
use protocol_design.Prelude.{ℕ, List, [], ◌∷◌, ◌++◌, Bool, Option}
use protocol_design.Prelude.Int.{ℤ}
use protocol_design.Gateway.Sessions.{SessionTable}
use protocol_design.Gateway.Server.{
  Connections, Io, Effect, client_side, apphost_side, enqueue, send_to, drain, on_sent,
}

pub record AppEntry : Type 0 where
  pub plugin_path : List ℕ
  pub width : ℤ
  pub height : ℤ

-- The allowlist is the `find` of its map. A timeout is an `int` in the source, and not negative here, as all
-- that the program sets are; the clock counts in milliseconds.
pub record Config : Type 0 where
  pub public_port : ℕ
  pub apphost_bind_host : List ℕ
  pub apphost_internal_port : ℕ
  pub apphost_bin : List ℕ
  pub auto_spawn_apphost : Bool
  pub spawn_timeout_ms : ℕ
  pub client_timeout_ms : ℕ
  pub apphost_timeout_ms : ℕ
  pub app_allowlist : List ℕ → Option AppEntry

-- What `access` says of a path, for X_OK and for R_OK.
pub record FileAccess : Type 0 where
  pub executable : List ℕ → Bool
  pub readable : List ℕ → Bool

-- `spawns` are the answers of the coming calls of spawn_apphost, `now` is the steady clock.
pub record Server : Type 0 where
  pub config : Config
  pub clients : Connections
  pub apphosts : Connections
  pub next_client_generation : ℕ
  pub next_apphost_generation : ℕ
  pub sessions : SessionTable
  pub io : Io
  pub files : FileAccess
  pub spawns : List (Option ℤ)
  pub now : ℕ
  pub running : Bool
  pub client_listen_id : ℕ
  pub apphost_listen_id : ℕ

abbrev pub with_sessions : SessionTable → Server → Server
with_sessions t s = record s { sessions = t }

abbrev pub with_clients : Connections × Io → Server → Server
with_clients (cs, io) s = record s { clients = cs; io = io }

abbrev pub with_apphosts : Connections × Io → Server → Server
with_apphosts (cs, io) s = record s { apphosts = cs; io = io }

abbrev pub emit : Effect → Server → Server
emit e s = record s { io = record (s.io) { effects = s.io.effects ++ e ∷ [] } }

unfoldable pub enqueue_client : ℕ → List ℕ → Server → Server
enqueue_client n bytes s = with_clients (enqueue n bytes s.clients s.io) s

unfoldable pub enqueue_apphost : ℕ → List ℕ → Server → Server
enqueue_apphost n bytes s = with_apphosts (enqueue n bytes s.apphosts s.io) s

unfoldable pub send_to_client : ℕ → List ℕ → Server → Server
send_to_client id bytes s = with_clients (send_to id bytes s.clients s.io) s

unfoldable pub send_to_apphost : ℕ → List ℕ → Server → Server
send_to_apphost id bytes s = with_apphosts (send_to id bytes s.apphosts s.io) s

unfoldable pub drain_client_queue : ℕ → ℕ → Server → Server
drain_client_queue n generation s = with_clients (drain client_side n generation s.clients s.io) s

unfoldable pub drain_apphost_queue : ℕ → ℕ → Server → Server
drain_apphost_queue n generation s =
    with_apphosts (drain apphost_side n generation s.apphosts s.io) s

unfoldable pub on_client_sent : ℕ → Server → Server
on_client_sent n s = record s { io = on_sent client_side n s.clients s.io }

unfoldable pub on_apphost_sent : ℕ → Server → Server
on_apphost_sent n s = record s { io = on_sent apphost_side n s.apphosts s.io }
