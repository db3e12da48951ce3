-- ===== src/Apphost/Process/Handing.antt =====
-- What the handlers of src/apphost/apphost.cpp make of packets.
use protocol_design.Prelude.{
  ◌≡◌, ◌≢◌, refl, sym, ap, ◌∙◌, List, [], ◌∷◌, ◌++◌, Bool, true, false, ◌||◌, if◌then◌else◌, ◌==◌,
  arith, All, subst, Bool-cases, inl, inr, append-nil, append_assoc,
}
use protocol_design.Common.InputEvent.{
  GkcConstants, Kind, UiMessageMouse, UiMessageKeyboard, Parsed, out_of_bounds, rejected, parsed,
  mouse_kind, keyboard_kind, parse_input_event_body,
}
use protocol_design.Common.MessageHandler.{
  init, dispatch, register_handler, dispatch-register_handler,
}
use protocol_design.Prelude.Assoc.{lookup}
use protocol_design.Protocol.{Packet, heartbeat, input_event, close_session}
use protocol_design.Protocol.Parser.Receive.{handle_all}
use protocol_design.Apphost.UiHost.{
  InputEvent, mouse_input, keyboard_input, post_input, push_input, on_host_post_work, request_quit,
}
use protocol_design.Apphost.Process.{
  AppHost, handlers, on_input_event, on_close_session, on_heartbeat, on_parsed, send_packet,
}

-- The input that the body of a packet stands for.
abbrev pub events_of : Parsed → List InputEvent
events_of out_of_bounds = []
events_of rejected = []
events_of (parsed ev) = elim ev.kind [
  | mouse_kind ↦ mouse_input ev.mouse ∷ []
  | keyboard_kind ↦ keyboard_input ev.keyboard ∷ []
]

abbrev pub is_close : Packet → Bool
is_close k = k.header.cmd_type == close_session

abbrev pub any_close : List Packet → Bool
any_close [] = false
any_close (k ∷ ks) = is_close k || any_close ks

module _ (little : Bool) (gkc : GkcConstants) where
  -- The input that packets stand for, in order.
  abbrev pub packet_events : Packet → List InputEvent
  packet_events k =
      if k.header.cmd_type == input_event
      then events_of (parse_input_event_body little gkc k.body)
      else []

  abbrev pub all_events : List Packet → List InputEvent
  all_events [] = []
  all_events (k ∷ ks) = packet_events k ++ all_events ks

  -- An INPUT_EVENT is read within its body. One of a mouse with 13 bytes is not.
  abbrev pub IsReadable : Packet → Type 0
  IsReadable k =
      (k.header.cmd_type == input_event) ≡ true
      → parse_input_event_body little gkc k.body ≢ out_of_bounds

-- The events are put behind those that wait, and a request to quit is set if the session closes.
abbrev pub Hands : {P : Type 0} → AppHost P → AppHost P → List InputEvent → Bool → Type 0
Hands a b events closes =
    (b.host.input_queue ≡ a.host.input_queue ++ events)
    × (b.host.quit_flag ≡ (a.host.quit_flag || closes))

or_false : (b : Bool) → b ≡ (b || false)
or_false b = ground arith

or_true : (b : Bool) → true ≡ (b || true)
or_true b = ground arith

module _ {P : Type 0} (a : AppHost P) where
  Hands-nothing : Hands a a [] false
  Hands-nothing = (sym (append-nil a.host.input_queue), or_false a.host.quit_flag)

  Hands-as :
      (b : AppHost P) {events events' : List InputEvent} {closes closes' : Bool}
      → events ≡ events'
      → closes ≡ closes'
      → Hands a b events closes
      → Hands a b events' closes'
  Hands-as b e c h =
      (h.0 ∙ ap (λ z. a.host.input_queue ++ z) e, h.1 ∙ ap (λ z. a.host.quit_flag || z) c)

  Hands-if :
      (t : Bool) (b c : AppHost P) (events : List InputEvent) (closes : Bool)
      → (t ≡ true → Hands a b events closes)
      → (t ≡ false → Hands a c events closes)
      → Hands a (if t then b else c) events closes
  Hands-if true b c events closes k h = k refl
  Hands-if false b c events closes k h = h refl

  post_input-Hands :
      (ev : InputEvent) → Hands a (record a { host = post_input ev a.host }) (ev ∷ []) false
  unfolding post_input push_input on_host_post_work
  post_input-Hands ev = (ground arith, ground arith)

  on_event-Hands :
      (kind : Kind) (m : UiMessageMouse) (kb : UiMessageKeyboard)
      → Hands a
          (elim kind as (λ _. AppHost P) [
            | mouse_kind ↦ record a { host = post_input (mouse_input m) a.host }
            | keyboard_kind ↦ record a { host = post_input (keyboard_input kb) a.host }
          ])
          (elim kind as (λ _. List InputEvent) [
            | mouse_kind ↦ mouse_input m ∷ []
            | keyboard_kind ↦ keyboard_input kb ∷ []
          ])
          false
  on_event-Hands mouse_kind m kb = post_input-Hands (mouse_input m)
  on_event-Hands keyboard_kind m kb = post_input-Hands (keyboard_input kb)

  on_parsed-Hands : (d : Parsed) → Hands a (on_parsed d a) (events_of d) false
  unfolding on_parsed
  on_parsed-Hands out_of_bounds = (sym (append-nil a.host.input_queue), or_false a.host.quit_flag)
  on_parsed-Hands rejected = Hands-nothing
  on_parsed-Hands (parsed ev) = on_event-Hands ev.kind ev.mouse ev.keyboard

  on_heartbeat-Hands : (k : Packet) → Hands a (on_heartbeat k a) [] false
  unfolding on_heartbeat send_packet
  on_heartbeat-Hands k = ground (arith, Hands-nothing)

module _ {P : Type 0} (little : Bool) (gkc : GkcConstants) where
  -- What the table of handlers makes of a packet.
  dispatch-handlers :
      (k : Packet) (a : AppHost P)
      → dispatch (handlers little gkc).handlers k a ≡ (
          if input_event == k.header.cmd_type
          then on_input_event little gkc k a
          else if close_session == k.header.cmd_type
          then on_close_session k a
          else if heartbeat == k.header.cmd_type
          then on_heartbeat k a
          else a)
  unfolding handlers dispatch lookup
  dispatch-handlers k a =
      let one = register_handler heartbeat on_heartbeat init in
      let two = register_handler close_session on_close_session one in
      rw
        (
          dispatch-register_handler input_event (on_input_event little gkc) two k a,
          dispatch-register_handler close_session on_close_session one k a,
          dispatch-register_handler heartbeat on_heartbeat init k a,
        )
        refl

  dispatch-Hands :
      (k : Packet) (a : AppHost P)
      → Hands a
          (dispatch (handlers little gkc).handlers k a)
          (packet_events little gkc k)
          (is_close k)
  unfolding on_input_event on_close_session request_quit
  dispatch-Hands k a =
      let events = events_of (parse_input_event_body little gkc k.body) in
      let none_of : (k.header.cmd_type == input_event) ≡ false → [] ≡ packet_events little gkc k =
        λ e. ap (λ t. if t then events else []) (sym e) in
      subst (λ z. Hands a z (packet_events little gkc k) (is_close k)) (sym (dispatch-handlers k a))
        (Hands-if a (input_event == k.header.cmd_type) _ _ _ _
          (λ e.
            let it : (k.header.cmd_type == input_event) ≡ true = ground (arith, e) in
            Hands-as a (on_input_event little gkc k a) (ap (λ t. if t then events else []) (sym it))
              (ground (arith, e)) (on_parsed-Hands a (parse_input_event_body little gkc k.body)))
          (λ e.
            Hands-if a (close_session == k.header.cmd_type) _ _ _ _
              (λ c.
                Hands-as a (on_close_session k a) (none_of (ground (arith, e))) (ground (arith, c))
                  (sym (append-nil a.host.input_queue), or_true a.host.quit_flag))
              (λ c.
                Hands-if a (heartbeat == k.header.cmd_type) _ _ _ _
                  (λ b.
                    Hands-as a (on_heartbeat k a) (none_of (ground (arith, e))) (ground (arith, c))
                      (on_heartbeat-Hands a k))
                  (λ b.
                    Hands-as a a (none_of (ground (arith, e))) (ground (arith, c))
                      (Hands-nothing a)))))

  pub handle_all-Hands :
      (ks : List Packet) (a : AppHost P)
      → Hands a
          (handle_all (dispatch (handlers little gkc).handlers) a ks)
          (all_events little gkc ks)
          (any_close ks)
  handle_all-Hands [] a = (sym (append-nil a.host.input_queue), ground arith)
  handle_all-Hands (k ∷ ks) a =
      let one = dispatch-Hands k a in
      let rest = handle_all-Hands ks (dispatch (handlers little gkc).handlers k a) in
      (
        rest.0
            ∙ ap (λ z. z ++ all_events little gkc ks) one.0
            ∙ append_assoc a.host.input_queue (packet_events little gkc k)
                (all_events little gkc ks),
        rest.1 ∙ ap (λ z. z || any_close ks) one.1 ∙ ground arith,
      )

  on_parsed-defined :
      (d : Parsed) (a : AppHost P)
      → d ≢ out_of_bounds
      → (on_parsed d a).is_undefined ≡ a.is_undefined
  unfolding on_parsed
  on_parsed-defined out_of_bounds a h = absurd (h refl)
  on_parsed-defined rejected a h = refl
  on_parsed-defined (parsed ev) a h = kind_defined ev.kind ev.mouse ev.keyboard
    where
      kind_defined :
          (kind : Kind) (m : UiMessageMouse) (kb : UiMessageKeyboard)
          → (elim kind as (λ _. AppHost P) [
            | mouse_kind ↦ record a { host = post_input (mouse_input m) a.host }
            | keyboard_kind ↦ record a { host = post_input (keyboard_input kb) a.host }
          ]).is_undefined
            ≡ a.is_undefined
      kind_defined mouse_kind m kb = refl
      kind_defined keyboard_kind m kb = refl

  dispatch-defined :
      (k : Packet) (a : AppHost P)
      → IsReadable little gkc k
      → (dispatch (handlers little gkc).handlers k a).is_undefined ≡ a.is_undefined
  unfolding on_input_event on_close_session on_heartbeat send_packet
  dispatch-defined k a readable =
      ap (λ z. z.is_undefined) (dispatch-handlers k a)
      ∙ elim (Bool-cases (input_event == k.header.cmd_type)) [
        | inl e ↦ rw e (
            on_parsed-defined (parse_input_event_body little gkc k.body) a
              (readable (ground (arith, e))))
        | inr e ↦ rw e (ground arith)
      ]

  pub handle_all-defined :
      (ks : List Packet) (a : AppHost P)
      → All (IsReadable little gkc) ks
      → (handle_all (dispatch (handlers little gkc).handlers) a ks).is_undefined ≡ a.is_undefined
  handle_all-defined [] a v = refl
  handle_all-defined (k ∷ ks) a v =
      handle_all-defined ks (dispatch (handlers little gkc).handlers k a) v.1
      ∙ dispatch-defined k a v.0
