-- ===== src/Gateway/Server/Delivery.antt =====
-- From a packet that the gateway enqueues (src/gateway/gateway.cpp) to the handler of the peer that
-- parses the stream (src/common/message_handler.cpp): any interleaving of enqueues and drains.
use mathlib.Core.List.{flatten}
use protocol_design.Prelude.{
  ℕ, ◌≡◌, ◌≢◌, refl, sym, ap, ◌∙◌, List, [], ◌∷◌, ◌++◌, true, ◌==◌, arith, All, All-append, IsByte,
  append-nil, append_assoc, length, u32,
}
use protocol_design.Protocol.{Packet}
use protocol_design.Protocol.Parser.{empty}
use protocol_design.Protocol.Parser.Stream.{live, encode, encode_all}
use protocol_design.Protocol.Parser.Framing.{IsPacket}
use protocol_design.Protocol.Parser.Refine.{view}
use protocol_design.Protocol.Parser.Receive.{receive_all, handle_all}
use protocol_design.Protocol.Parser.Chunks.{delivery}
use protocol_design.Gateway.Packets.{serialize_packet}
use protocol_design.Gateway.Server.{Connections, Io, Begin, Side, enqueue, drain}
use protocol_design.Gateway.Server.Connected.{
  IsConnected, connection, enqueue-IsConnected, drain-IsConnected, other_enqueue-traffic,
  any_drain-traffic,
}
use protocol_design.Gateway.Server.Streams.{traffic, sent_to, queued, enqueue-traffic}

-- A packet goes out in the wire form that its header promises.
pub serialize_packet-encode : (k : Packet) → IsPacket k → serialize_packet k ≡ encode k
unfolding serialize_packet
serialize_packet-encode k v =
    let e : u32 (length k.body) ≡ k.header.body_length = ground (arith, v.length_ok, v.size_ok) in
    rw e refl

-- What can happen on one side of the gateway while a connection is served, from a connection that
-- carried nothing yet: packets are enqueued for it, anything is enqueued for others, the write thread
-- drains any queue, and IoPool changes its answers. The packets are those enqueued for it, in order.
pub data Run (n id : ℕ) : Connections × Io → List Packet → Type 0 where
  accepted :
      (cs : Connections) (io : Io)
      → IsConnected n id cs
      → traffic id (cs, io) ≡ []
      → Run n id (cs, io) []
  packet_enqueued :
      {cs : Connections} {io : Io} {ks : List Packet} (k : Packet)
      → Run n id (cs, io) ks
      → IsPacket k
      → All IsByte k.body
      → Run n id (enqueue n (serialize_packet k) cs io) (ks ++ k ∷ [])
  other_enqueued :
      {cs : Connections} {io : Io} {ks : List Packet} (m : ℕ) (bytes : List ℕ)
      → Run n id (cs, io) ks
      → m ≢ n
      → Run n id (enqueue m bytes cs io) ks
  drained :
      {cs : Connections} {io : Io} {ks : List Packet} (side : Side) (m generation : ℕ)
      → Run n id (cs, io) ks
      → Run n id (drain side m generation cs io) ks
  answers_changed :
      {cs : Connections} {io : Io} {ks : List Packet} (begins : List Begin)
      → Run n id (cs, io) ks
      → Run n id (cs, record io { begins = begins }) ks

-- What holds throughout a run.
pub record Carries (n id : ℕ) (r : Connections × Io) (ks : List Packet) : Type 0 where
  pub connected : IsConnected n id r.0
  pub stream : traffic id r ≡ encode_all ks
  pub packets : All IsPacket ks
  pub bodies : All (λ (k : Packet). All IsByte k.body) ks

encode_all-append : (ks js : List Packet) → encode_all (ks ++ js) ≡ encode_all ks ++ encode_all js
encode_all-append [] js = refl
encode_all-append (k ∷ ks) js =
    rw (encode_all-append ks js) (sym (append_assoc (encode k) (encode_all ks) (encode_all js)))

packet_enqueue-traffic :
    {n id : ℕ} (k : Packet) (ks : List Packet) (cs : Connections) (io : Io)
    → IsConnected n id cs
    → IsPacket k
    → traffic id (cs, io) ≡ encode_all ks
    → traffic id (enqueue n (serialize_packet k) cs io) ≡ encode_all (ks ++ k ∷ [])
packet_enqueue-traffic {n} {id} k ks cs io v ok e =
    let (c, at, same) = connection v in
    let mine : (c.id == id) ≡ true = ground (arith, same) in
    rw
      (
        enqueue-traffic n cs io c v.distinct at (serialize_packet k) id,
        mine,
        e,
        serialize_packet-encode k ok,
        encode_all-append ks (k ∷ []),
        append-nil (encode k),
      )
      refl

-- Throughout a run, the stream of the connection is the wire form of its packets, in order.
pub Run-Carries :
    {n id : ℕ} {r : Connections × Io} {ks : List Packet} → Run n id r ks → Carries n id r ks
Run-Carries (accepted cs io v e) = record { connected = v; stream = e; packets = tt; bodies = tt }
Run-Carries {n} {id} (packet_enqueued {cs} {io} {ks} k run ok bytes) =
    let before = Run-Carries run in
    record {
      connected = enqueue-IsConnected n (serialize_packet k) cs io before.connected;
      stream = packet_enqueue-traffic k ks cs io before.connected ok before.stream;
      packets = All-append IsPacket ks (k ∷ []) before.packets (ok, tt);
      bodies = All-append (λ (j : Packet). All IsByte j.body) ks (k ∷ []) before.bodies (bytes, tt);
    }
Run-Carries (other_enqueued {cs} {io} m bytes run ne) =
    let before = Run-Carries run in
    record {
      connected = enqueue-IsConnected m bytes cs io before.connected;
      stream = other_enqueue-traffic m bytes cs io before.connected ne ∙ before.stream;
      packets = before.packets;
      bodies = before.bodies;
    }
Run-Carries {n} {id} (drained {cs} {io} side m generation run) =
    let before = Run-Carries run in
    record {
      connected = drain-IsConnected side m generation cs io before.connected;
      stream =
          any_drain-traffic side m generation id cs io before.connected.distinct ∙ before.stream;
      packets = before.packets;
      bodies = before.bodies;
    }
Run-Carries (answers_changed begins run) =
    let before = Run-Carries run in
    record {
      connected = before.connected;
      stream = before.stream;
      packets = before.packets;
      bodies = before.bodies;
    }

-- After a run that leaves the queue of the connection empty, a peer that gets the sent bytes in one
-- or more pieces, cut in any way, has handled the packets that were enqueued for it, each once and
-- in order, and waits with an empty buffer.
pub Run-delivery {ℓ} :
    {S : Type ℓ} (handle : Packet → S → S) (s : S) {n id : ℕ} {r : Connections × Io}
    {ks : List Packet} (c : List ℕ) (cs : List (List ℕ))
    → Run n id r ks
    → queued id r.0 ≡ []
    → All IsByte c
    → All (All IsByte) cs
    → c ++ flatten cs ≡ sent_to id r.1.effects
    → ((receive_all handle empty (c ∷ cs) s).0 ≡ handle_all handle s ks)
      × (view (receive_all handle empty (c ∷ cs) s).1 ≡ live [])
Run-delivery handle s {n} {id} {r} {ks} c cs run idle bc bs e =
    let carries = Run-Carries run in
    let all_sent : sent_to id r.1.effects ≡ traffic id r =
      sym (append-nil (sent_to id r.1.effects))
      ∙ ap (λ z. sent_to id r.1.effects ++ z) (sym idle) in
    delivery handle ks c cs s carries.packets carries.bodies bc bs (e ∙ all_sent ∙ carries.stream)
