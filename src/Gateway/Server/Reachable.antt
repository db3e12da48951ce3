-- ===== src/Gateway/Server/Reachable.antt =====
-- The gateway of src/gateway/gateway.cpp as a state machine: its callbacks and its threads take steps in
-- any order. A packet that `receive` gives to a handler is a step of its own, and so is storing the
-- parser that is left.
use protocol_design.Prelude.{ℕ, ◌≤◌, ◌≢◌, refl, List, Bool, Option}
use protocol_design.Prelude.Assoc.{nat_eq}
use protocol_design.Prelude.Int.{ℤ}
use protocol_design.Protocol.{Packet}
use protocol_design.Protocol.Parser.{MessageParser}
use protocol_design.Gateway.Server.{update_node}
use protocol_design.Gateway.Server.State.{
  Server, Config, drain_client_queue, drain_apphost_queue, on_client_sent, on_apphost_sent,
}
use protocol_design.Gateway.Server.Handlers.{
  release_client, release_apphost, on_client_listen_event, on_apphost_listen_event,
  handle_client_packet, handle_apphost_packet,
}
use protocol_design.Gateway.Server.Monitor.{monitor_round, stop}
use protocol_design.Gateway.Server.Invariant.{IsValid, update_node-named}
use protocol_design.Gateway.Server.Preserved.{HasRoom}
use protocol_design.Gateway.Server.Callbacks.{
  handle_client_packet-IsValid, handle_apphost_packet-IsValid,
}
use protocol_design.Gateway.Server.Steps.{
  release_client-IsValid, release_apphost-IsValid, accepts_client-IsValid, accepts_apphost-IsValid,
  drain-named, with_clients-IsValid, with_apphosts-IsValid,
}
use protocol_design.Gateway.Server.Start.{Listen, start, start-IsValid}
use protocol_design.Gateway.Server.Endings.{monitor_round-IsValid, stop-IsValid}

-- Time does not run backwards. What else a step relies on is `IsRegular`.
pub data Step : Server → Server → Type 0 where
  accepts_client :
      (s : Server) (node : Option ℕ) (id : ℕ) (cancelled : Bool)
      → Step s (on_client_listen_event node id cancelled s)
  accepts_apphost :
      (s : Server) (node : Option ℕ) (id : ℕ) (cancelled : Bool)
      → Step s (on_apphost_listen_event node id cancelled s)
  handles_client : (s : Server) (n : ℕ) (pkt : Packet) → Step s (handle_client_packet n pkt s)
  handles_apphost : (s : Server) (n : ℕ) (pkt : Packet) → Step s (handle_apphost_packet n pkt s)
  stores_client :
      (s : Server) (n : ℕ) (parser : MessageParser)
      → Step s (record s { clients = update_node n (λ c. record c { parser = parser }) s.clients })
  stores_apphost :
      (s : Server) (n : ℕ) (parser : MessageParser)
      → Step s
          (record s { apphosts = update_node n (λ c. record c { parser = parser }) s.apphosts })
  loses_client : (s : Server) (n : ℕ) → Step s (release_client n s)
  loses_apphost : (s : Server) (n : ℕ) → Step s (release_apphost n s)
  sent_client : (s : Server) (n : ℕ) → Step s (on_client_sent n s)
  sent_apphost : (s : Server) (n : ℕ) → Step s (on_apphost_sent n s)
  drains_client : (s : Server) (n generation : ℕ) → Step s (drain_client_queue n generation s)
  drains_apphost : (s : Server) (n generation : ℕ) → Step s (drain_apphost_queue n generation s)
  monitors : (s : Server) (exited : List ℤ) → Step s (monitor_round exited s)
  ticks : (s : Server) (now : ℕ) → s.now ≤ now → Step s (record s { now = now })
  starts :
      (s : Server) (no_pool : Bool) (client apphost : Listen) (config : Config)
      → Step s (start no_pool client apphost config s).1
  stops : (s : Server) → Step s (stop s)

pub data Runs (s : Server) : Server → Type 0 where
  here : Runs s s
  later : {t : Server} (u : Server) → Runs s t → Step t u → Runs s u

-- A handle that IoPool gives to a connection is not 0, and a packet of a client is handled while the
-- next session id is not the last one of 32 bits.
abbrev pub IsRegular : {s t : Server} → Step s t → Type 0
IsRegular (accepts_client s _ id _) = id ≢ 0
IsRegular (accepts_apphost s _ id _) = id ≢ 0
IsRegular (handles_client s n pkt) = HasRoom s
IsRegular _ = Unit

abbrev pub AllRegular : {s t : Server} → Runs s t → Type 0
AllRegular here = Unit
AllRegular (later u r step) = AllRegular r × IsRegular step

Step-IsValid : {s t : Server} → IsValid s → (step : Step s t) → IsRegular step → IsValid t
unfolding drain_client_queue drain_apphost_queue on_client_sent on_apphost_sent
Step-IsValid v (accepts_client s spot id cancelled) h =
    accepts_client-IsValid spot id cancelled s h v
Step-IsValid v (accepts_apphost s spot id cancelled) h =
    accepts_apphost-IsValid spot id cancelled s h v
Step-IsValid v (handles_client s n pkt) room = handle_client_packet-IsValid n pkt s room v
Step-IsValid v (handles_apphost s n pkt) _ = handle_apphost_packet-IsValid n pkt s v
Step-IsValid v (stores_client s n parser) _ =
    with_clients-IsValid _ v (
      update_node-named n (λ c. record c { parser = parser }) s.clients (λ c. refl) v.clients_named)
Step-IsValid v (stores_apphost s n parser) _ = with_apphosts-IsValid _ v (
    update_node-named n (λ c. record c { parser = parser }) s.apphosts (λ c. refl) v.apphosts_named)
Step-IsValid v (loses_client s n) _ = release_client-IsValid n s v
Step-IsValid v (loses_apphost s n) _ = release_apphost-IsValid n s v
Step-IsValid v (sent_client s n) _ = record {
  table = v.table;
  clients_named = v.clients_named;
  apphosts_named = v.apphosts_named;
}
Step-IsValid v (sent_apphost s n) _ = record {
  table = v.table;
  clients_named = v.clients_named;
  apphosts_named = v.apphosts_named;
}
Step-IsValid v (drains_client s n generation) _ = record {
  table = v.table;
  clients_named = drain-named _ n generation s.clients s.io v.clients_named;
  apphosts_named = v.apphosts_named;
}
Step-IsValid v (drains_apphost s n generation) _ = record {
  table = v.table;
  clients_named = v.clients_named;
  apphosts_named = drain-named _ n generation s.apphosts s.io v.apphosts_named;
}
Step-IsValid v (monitors s exited) _ = monitor_round-IsValid exited s v
Step-IsValid v (ticks s now _) _ = record {
  table = v.table;
  clients_named = v.clients_named;
  apphosts_named = v.apphosts_named;
}
Step-IsValid v (starts s no_pool client apphost config) _ =
    start-IsValid no_pool client apphost config s v
Step-IsValid v (stops s) _ = stop-IsValid s v

-- Whatever connections come and go, whatever is received, sent and drained, and whenever the monitor runs or
-- the gateway is started or stopped, in any order: from a state that keeps the invariant of the gateway, only
-- such states are reached, as long as no connection gets the handle 0 and a packet of a client is
-- handled while the next session id is not the last one of 32 bits.
pub Runs-IsValid : {s t : Server} → IsValid s → (r : Runs s t) → AllRegular r → IsValid t
Runs-IsValid v here _ = v
Runs-IsValid v (later u r step) (before, now) = Step-IsValid (Runs-IsValid v r before) step now
