-- ===== src/Common/MessageHandler.antt =====
-- src/common/message_handler.h and message_handler.cpp. A handler is a function on the state that
-- it may change, which the parser and the handler table are no part of.
use protocol_design.Prelude.{ℕ, ◌≡◌, List, [], none, some, arith, if◌then◌else◌, ◌==◌}
use protocol_design.Prelude.Assoc.{lookup, insert, lookup-insert, nat_eq}
use protocol_design.Protocol.{Packet, CmdType}
use protocol_design.Protocol.Parser.{MessageParser, empty}
use protocol_design.Protocol.Parser.Receive.{receive}

abbrev pub HandlerFn {ℓ} : Type ℓ → Type ℓ
HandlerFn S = Packet → S → S

pub record MessageHandler {ℓ} (S : Type ℓ) : Type ℓ where
  pub parser : MessageParser
  pub handlers : List (ℕ × HandlerFn S)

abbrev pub init {ℓ} : {S : Type ℓ} → MessageHandler S
init = record { parser = empty; handlers = [] }

module _ {ℓ} {S : Type ℓ} where
  unfoldable pub register_handler : CmdType → HandlerFn S → MessageHandler S → MessageHandler S
  register_handler cmd fn h = record h { handlers = insert cmd fn h.handlers }

  -- One round of the loop in `feed`.
  unfoldable pub dispatch : List (ℕ × HandlerFn S) → HandlerFn S
  dispatch handlers pkt s = elim (lookup pkt.header.cmd_type handlers) [
    | none ↦ s
    | some fn ↦ fn pkt s
  ]

  unfoldable pub feed : MessageHandler S → List ℕ → S → S × MessageHandler S
  feed h bytes s =
      let (s', p) = receive (dispatch h.handlers) h.parser bytes s in (s', record h { parser = p })

  unfoldable pub reset : MessageHandler S → MessageHandler S
  reset h = record h { parser = empty }

  -- A registered handler gets the packets of its type, in place of an earlier one; the packets of
  -- every other type go where they went before.
  pub dispatch-register_handler :
      (cmd : CmdType) (fn : HandlerFn S) (h : MessageHandler S) (pkt : Packet) (s : S)
      → dispatch (register_handler cmd fn h).handlers pkt s
        ≡ (if cmd == pkt.header.cmd_type then fn pkt s else dispatch h.handlers pkt s)
  unfolding dispatch register_handler
  dispatch-register_handler cmd fn h pkt s =
      ground (arith, lookup-insert cmd pkt.header.cmd_type fn h.handlers)
