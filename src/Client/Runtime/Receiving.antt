-- ===== src/Client/Runtime/Receiving.antt =====
-- What ClientRuntime of src/client/client.cpp does with a stream of packets.
use mathlib.Core.List.{flatten}
use protocol_design.Prelude.{
  ℕ, ◌≡◌, refl, ap, ◌∙◌, List, [], ◌∷◌, ◌++◌, map, false, if◌then◌else◌, ◌==◌, arith, All, IsByte,
  Option-cases, inl, inr,
}
use protocol_design.Common.Rect.{RectOps}
use protocol_design.Protocol.{Packet, session_ack}
use protocol_design.Protocol.Parser.{MessageParser, empty}
use protocol_design.Protocol.Parser.Stream.{encode_all}
use protocol_design.Protocol.Parser.Framing.{IsPacket}
use protocol_design.Protocol.Parser.Receive.{receive, receive_all, handle_all}
use protocol_design.Protocol.Parser.Chunks.{delivery}
use protocol_design.Client.Renderer.{Colors}
use protocol_design.Client.Runtime.{Client, Round, got, keep_alive, handle_packet, run_rounds}

-- A round in which bytes arrive, and nothing else happens.
abbrev pub piece : List ℕ → Round
piece bytes = record { stopped = false; due = false; recv = got bytes }

-- The session of the last SESSION_ACK among the packets, or `id`.
abbrev pub last_session : ℕ → List Packet → ℕ
last_session id [] = id
last_session id (k ∷ ks) =
    last_session (if k.header.cmd_type == session_ack then k.header.session_id else id) ks

module _ (ops : RectOps) (colors : Colors) where
  keep_alive-not_due : (c : Client) → keep_alive ops colors false c ≡ c
  unfolding keep_alive
  keep_alive-not_due c = ground arith

  run_rounds-piece :
      (cs : List (List ℕ)) (c : Client) (p : MessageParser)
      → run_rounds ops colors (map piece cs) c p ≡ receive_all (handle_packet ops colors) p cs c
  unfolding run_rounds receive_all
  run_rounds-piece [] c p = refl
  run_rounds-piece (bytes ∷ cs) c p = rw (keep_alive-not_due c) (
      run_rounds-piece cs (receive (handle_packet ops colors) p bytes c).0
        (receive (handle_packet ops colors) p bytes c).1)

  handle_packet-session :
      (k : Packet) (c : Client)
      → (handle_packet ops colors k c).session_id
        ≡ (if k.header.cmd_type == session_ack then k.header.session_id else c.session_id)
  unfolding handle_packet
  handle_packet-session k c = elim (Option-cases c.renderer) [
    | inl e ↦ rw (handle_packet, e) (ground arith)
    | inr (p, e) ↦ rw (handle_packet, e) (ground arith)
  ]

  handle_all-session :
      (ks : List Packet) (c : Client)
      → (handle_all (handle_packet ops colors) c ks).session_id ≡ last_session c.session_id ks
  handle_all-session [] c = refl
  handle_all-session (k ∷ ks) c =
      handle_all-session ks (handle_packet ops colors k c)
      ∙ ap (λ id. last_session id ks) (handle_packet-session k c)

  -- A client whose rounds bring valid packets with bodies of bytes, joined and cut into one or more pieces
  -- in any way, while it is not stopped and owes no heartbeat, has handled them one by one, in
  -- order; its session is then that of the last SESSION_ACK.
  pub run_rounds-delivery :
      (ks : List Packet) (bytes : List ℕ) (cs : List (List ℕ)) (c : Client)
      → All IsPacket ks
      → All (λ k. All IsByte k.body) ks
      → All IsByte bytes
      → All (All IsByte) cs
      → bytes ++ flatten cs ≡ encode_all ks
      → ((run_rounds ops colors (map piece (bytes ∷ cs)) c empty).0
          ≡ handle_all (handle_packet ops colors) c ks)
        × ((run_rounds ops colors (map piece (bytes ∷ cs)) c empty).0.session_id
            ≡ last_session c.session_id ks)
  run_rounds-delivery ks bytes cs c v bk bc bs e =
      let all : (run_rounds ops colors (map piece (bytes ∷ cs)) c empty).0
          ≡ handle_all (handle_packet ops colors) c ks =
        ap (λ r. r.0) (run_rounds-piece (bytes ∷ cs) c empty)
        ∙ (delivery (handle_packet ops colors) ks bytes cs c v bk bc bs e).0 in
      (all, ap (λ z. z.session_id) all ∙ handle_all-session ks c)
