-- ===== src/Gateway/Server/Events.antt =====
-- on_client_event and on_apphost_event of src/gateway/gateway.cpp, which IoPool calls for a connection,
-- as sequences of the steps of Reachable.
use protocol_design.Prelude.{ℕ, List, Option-cases, inl, inr}
use protocol_design.Protocol.Parser.Receive.{receive}
use protocol_design.Protocol.Parser.Keeping.{receive-keeps}
use protocol_design.Gateway.Server.{at_node}
use protocol_design.Gateway.Server.State.{Server, on_client_sent, on_apphost_sent}
use protocol_design.Gateway.Server.Handlers.{
  release_client, release_apphost, handle_client_packet, handle_apphost_packet, on_client_received,
  on_apphost_received,
}
use protocol_design.Gateway.Server.Reachable.{
  Runs, here, later, handles_client, handles_apphost, stores_client, stores_apphost, loses_client,
  loses_apphost, sent_client, sent_apphost,
}

-- The `type` of an event, with the bytes of IO_TYPE_RECEIVED.
pub data IoEvent : Type 0 where
  received : List ℕ → IoEvent
  sent recv_error recv_timeout before_close other : IoEvent

unfoldable pub on_client_event : ℕ → IoEvent → Server → Server
unfolding on_client_received release_client on_client_sent
on_client_event n (received bytes) s = on_client_received n bytes s
on_client_event n sent s = on_client_sent n s
on_client_event n recv_error s = release_client n s
on_client_event n recv_timeout s = release_client n s
on_client_event n before_close s = release_client n s
on_client_event n other s = s

unfoldable pub on_apphost_event : ℕ → IoEvent → Server → Server
unfolding on_apphost_received release_apphost on_apphost_sent
on_apphost_event n (received bytes) s = on_apphost_received n bytes s
on_apphost_event n sent s = on_apphost_sent n s
on_apphost_event n recv_error s = release_apphost n s
on_apphost_event n recv_timeout s = release_apphost n s
on_apphost_event n before_close s = release_apphost n s
on_apphost_event n other s = s

on_client_received-Runs :
    (n : ℕ) (bytes : List ℕ) (s : Server) → Runs s (on_client_received n bytes s)
unfolding on_client_received
on_client_received-Runs n bytes s = elim (Option-cases (at_node n s.clients)) [
  | inl e ↦ rw (e, on_client_received) here
  | inr (conn, e) ↦
      rw (e, on_client_received)
        (later _
          (receive-keeps (handle_client_packet n) (Runs s)
            (λ pkt t r. later _ r (handles_client t n pkt)) conn.parser bytes s here)
          (stores_client _ n (receive (handle_client_packet n) conn.parser bytes s).1))
]

on_apphost_received-Runs :
    (n : ℕ) (bytes : List ℕ) (s : Server) → Runs s (on_apphost_received n bytes s)
unfolding on_apphost_received
on_apphost_received-Runs n bytes s = elim (Option-cases (at_node n s.apphosts)) [
  | inl e ↦ rw (e, on_apphost_received) here
  | inr (conn, e) ↦
      rw (e, on_apphost_received)
        (later _
          (receive-keeps (handle_apphost_packet n) (Runs s)
            (λ pkt t r. later _ r (handles_apphost t n pkt)) conn.parser bytes s here)
          (stores_apphost _ n (receive (handle_apphost_packet n) conn.parser bytes s).1))
]

-- Whatever IoPool reports for a connection of either side, received bytes included, its callback takes the
-- gateway through a sequence of the steps that `Runs` is made of.
pub on_event-Runs :
    (n : ℕ) (event : IoEvent) (s : Server)
    → Runs s (on_client_event n event s) × Runs s (on_apphost_event n event s)
unfolding on_client_event on_apphost_event
on_event-Runs n (received bytes) s =
    (on_client_received-Runs n bytes s, on_apphost_received-Runs n bytes s)
on_event-Runs n sent s = (later _ here (sent_client s n), later _ here (sent_apphost s n))
on_event-Runs n recv_error s = (later _ here (loses_client s n), later _ here (loses_apphost s n))
on_event-Runs n recv_timeout s = (later _ here (loses_client s n), later _ here (loses_apphost s n))
on_event-Runs n before_close s = (later _ here (loses_client s n), later _ here (loses_apphost s n))
on_event-Runs n other s = (here, here)
