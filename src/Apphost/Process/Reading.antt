-- ===== src/Apphost/Process/Reading.antt =====
-- What the reader of src/apphost/apphost.cpp hands to the host of the plugin.
use mathlib.Core.List.{flatten}
use protocol_design.Prelude.{
  ℕ, ◌≡◌, refl, sym, ◌∙◌, List, [], ◌∷◌, ◌++◌, map, Bool, false, some, All, IsByte, subst,
}
use protocol_design.Common.InputEvent.{GkcConstants}
use protocol_design.Common.MessageHandler.{MessageHandler, dispatch, feed}
use protocol_design.Protocol.{Packet}
use protocol_design.Protocol.Parser.Stream.{encode_all}
use protocol_design.Protocol.Parser.Framing.{IsPacket}
use protocol_design.Protocol.Parser.Receive.{receive, receive_all}
use protocol_design.Protocol.Parser.Chunks.{delivery}
use protocol_design.Apphost.Process.{AppHost, Read, handlers, reader_loop}
use protocol_design.Apphost.Process.Handing.{
  Hands, IsReadable, all_events, any_close, handle_all-Hands, handle_all-defined,
}

abbrev pub arrives : List ℕ → Read
arrives bytes = record { shutting_down = false; recv = some bytes }

module _ {P : Type 0} (little : Bool) (gkc : GkcConstants) where
  reader_loop-arrives :
      (cs : List (List ℕ)) (h : MessageHandler (AppHost P)) (a : AppHost P)
      → (reader_loop little gkc (map arrives cs) h a).0
        ≡ (receive_all (dispatch h.handlers) h.parser cs a).0
  unfolding reader_loop receive_all feed
  reader_loop-arrives [] h a = refl
  reader_loop-arrives (bytes ∷ cs) h a =
      let r = receive (dispatch h.handlers) h.parser bytes a in
      reader_loop-arrives cs (record h { parser = r.1 }) r.0

  -- From valid packets with bodies of bytes, joined and cut into one or more pieces in any way, the reader
  -- puts the input of every INPUT_EVENT that parses into the queue of the host, in order, asks
  -- the host to quit exactly if one of them is CLOSE_SESSION, and reads nothing past its end,
  -- while the AppHost is not shutting down, and if no INPUT_EVENT has a body that is read past
  -- its end, as one of a mouse with 13 bytes is.
  pub reader_loop-delivery :
      (ks : List Packet) (bytes : List ℕ) (cs : List (List ℕ)) (a : AppHost P)
      → All IsPacket ks
      → All (λ k. All IsByte k.body) ks
      → All (IsReadable little gkc) ks
      → All IsByte bytes
      → All (All IsByte) cs
      → bytes ++ flatten cs ≡ encode_all ks
      → let b = (reader_loop little gkc (map arrives (bytes ∷ cs)) (handlers little gkc) a).0 in
        Hands a b (all_events little gkc ks) (any_close ks) × (b.is_undefined ≡ a.is_undefined)
  unfolding handlers
  reader_loop-delivery ks bytes cs a v bk readable bc bs e =
      let handled = sym (
        reader_loop-arrives (bytes ∷ cs) (handlers little gkc) a
        ∙ (delivery (dispatch (handlers little gkc).handlers) ks bytes cs a v bk bc bs e).0) in
      (
        subst (λ z. Hands a z (all_events little gkc ks) (any_close ks)) handled
            (handle_all-Hands little gkc ks a),
        subst (λ z. z.is_undefined ≡ a.is_undefined) handled
            (handle_all-defined little gkc ks a readable),
      )
