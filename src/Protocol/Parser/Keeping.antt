-- ===== src/Protocol/Parser/Keeping.antt =====
-- What every packet's handler keeps, a receiver's loop keeps (Protocol/Parser/Receive).
use protocol_design.Prelude.{ℕ, zero, suc, List, ◌≡◌, refl}
use protocol_design.Protocol.{Packet}
use protocol_design.Protocol.Parser.{
  MessageParser, ParseResult, ok, incomplete, error, next_packet, feed,
}
use protocol_design.Protocol.Parser.Receive.{each_packet, receive, fuel_for}

module _ {ℓ ℓ'} {S : Type ℓ} (handle : Packet → S → S) (R : S → Type ℓ')
    (keeps : (pkt : Packet) (s : S) → R s → R (handle pkt s)) where
  each_packet-keeps :
      (n : ℕ) (p : MessageParser) (pkt : Packet) (s : S) → R s → R (each_packet handle n p pkt s).0
  unfolding each_packet
  each_packet-keeps zero p pkt s r = r
  each_packet-keeps (suc n) p pkt s r =
      let step = next_packet p pkt in
      at _ refl (each_packet-keeps n step.parser step.out (handle step.out s) (keeps step.out s r))
    where
      at :
          (x : ParseResult)
          → (next_packet p pkt).result ≡ x
          → (let step = next_packet p pkt in
              R (each_packet handle n step.parser step.out (handle step.out s)).0)
          → R (each_packet handle (suc n) p pkt s).0
      at ok e rest = rw (e, each_packet) rest
      at incomplete e rest = rw (e, each_packet) r
      at error e rest = rw (e, each_packet) r

  pub receive-keeps :
      (p : MessageParser) (bytes : List ℕ) (s : S) → R s → R (receive handle p bytes s).0
  unfolding receive
  receive-keeps p bytes s r = each_packet-keeps (fuel_for (feed p bytes)) (feed p bytes) _ s r
