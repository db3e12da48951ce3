-- ===== src/Apphost/UiHost/Handed.antt =====
-- What the loop of src/apphost/ui_host_impl.cpp hands to the handlers of the plugin, seen by a plugin that
-- keeps a record of its input.
use protocol_design.Prelude.{
  ℕ, ◌≡◌, ◌≢◌, refl, sym, ap, ◌∙◌, List, [], ◌∷◌, ◌++◌, Bool, true, false, Option, none, some,
  if◌then◌else◌, append-nil, take,
}
use protocol_design.Prelude.Int.{magnitude}
use protocol_design.Common.Rect.{UiRect}
use protocol_design.Common.InputEvent.{UiMessageMouse, UiMessageKeyboard}
use protocol_design.Apphost.UiHost.{
  State, Plugin, Script, finished, call, Call, WindowRuntime, with_window, clip, create_toplevel,
  set_message_handler, show_window, damage, destroy, post_work, quit, Work, null_work, drain_input,
  plugin_work, InputEvent, mouse_input, keyboard_input, dispatch_draw_and_send, on_window_show,
  on_window_damage, on_host_destroy, on_host_create_toplevel, on_window_set_message_handler,
  on_host_post_work, request_quit, push_input, do_call, run_script, is_listening, dispatch_input,
  exec, take_input, set_pixel_data_sink,
}
use protocol_design.Apphost.UiHost.Schedule.{
  Sys, Step, pushes, posts, quits, runs, loops, Reach, begins, later, dispatched, executed,
  progress, Reach-in_order,
}

-- A script of a plugin whose record is `l`, when the plugin is called and whenever it goes on.
pub data Leaves {P : Type 0} (seen : P → List InputEvent) (l : List InputEvent)
    : Script P → Type 0 where
  leaves_finished : (p : P) → seen p ≡ l → Leaves seen l (finished p)
  leaves_call :
      (c : Call) (p : P) (next : P → Script P)
      → seen p ≡ l
      → ((q : P) → seen q ≡ l → Leaves seen l (next q))
      → Leaves seen l (call c p next)

-- A plugin that puts each event that its handlers get behind its record `seen`, and nothing else.
pub record IsRecording {P : Type 0} (plugin : Plugin P) (seen : P → List InputEvent) : Type 0 where
  pub records_mouse :
      (m : UiMessageMouse) (p : P)
      → Leaves seen (seen p ++ mouse_input m ∷ []) (plugin.on_mouse m p)
  pub records_keyboard :
      (kb : UiMessageKeyboard) (p : P)
      → Leaves seen (seen p ++ keyboard_input kb ∷ []) (plugin.on_keyboard kb p)
  pub keeps_work : (n : ℕ) (p : P) → Leaves seen (seen p) (plugin.on_work n p)
  pub keeps_draw :
      (pixels : List ℕ) (w h : ℕ) (q : UiRect) (p : P)
      → seen (plugin.on_draw pixels w h q p).1 ≡ seen p

module _ {P : Type 0} (little : Bool) (plugin : Plugin P) (seen : P → List InputEvent)
    (recording : IsRecording plugin seen) where
  abbrev record_of : State P → List InputEvent
  record_of s = seen s.plugin

  with_window-record :
      (l : List InputEvent) (t : State P) (o : Option WindowRuntime) (f : WindowRuntime → State P)
      → record_of t ≡ l
      → ((w : WindowRuntime) → record_of (f w) ≡ l)
      → record_of (with_window o t f) ≡ l
  with_window-record l t none f k h = k
  with_window-record l t (some w) f k h = h w

  created-record :
      (s : State P) (o : Option WindowRuntime) (created : ℕ × State P)
      → record_of created.1 ≡ record_of s
      → record_of (with_window {A = ℕ × State P} o created (λ w. (0, s))).1 ≡ record_of s
  created-record s none created k = k
  created-record s (some w) created k = refl

  if-record :
      (l : List InputEvent) (b : Bool) (s t : State P)
      → record_of s ≡ l
      → record_of t ≡ l
      → record_of (if b then s else t) ≡ l
  if-record l true s t k h = k
  if-record l false s t k h = h

  draw-record :
      (l t r b : ℕ) (s : State P)
      → record_of (dispatch_draw_and_send little plugin l t r b s) ≡ record_of s
  unfolding dispatch_draw_and_send
  draw-record l t r b s = with_window-record (record_of s) s s.window _ refl (λ w.
      let drawn = recording.keeps_draw w.pixels w.width w.height _ s.plugin in
      if-record (record_of s) _ _ _ refl (if-record (record_of s) _ _ _ drawn drawn))

  do_call-record : (c : Call) (s : State P) → record_of (do_call little plugin c s) ≡ record_of s
  unfolding do_call on_window_show on_window_damage on_host_destroy on_host_create_toplevel
      on_window_set_message_handler request_quit on_host_post_work
  do_call-record (create_toplevel a w h) s = created-record s s.window _ refl
  do_call-record set_message_handler s =
      with_window-record (record_of s) s s.window _ refl (λ w. refl)
  do_call-record (show_window true) s =
      with_window-record (record_of s) s s.window _ refl (λ w. draw-record 0 0 w.width w.height s)
  do_call-record (show_window false) s = refl
  do_call-record (damage q) s = with_window-record (record_of s) s s.window _ refl (λ w.
      let c = clip w q in
      if-record (record_of s) _ _ _ refl
        (draw-record (magnitude c.l) (magnitude c.t) (magnitude c.r) (magnitude c.b) s))
  do_call-record (destroy id) s =
      with_window-record (record_of s) s s.window _ refl
        (λ w. if-record (record_of s) _ _ _ refl refl)
  do_call-record (post_work n) s = refl
  do_call-record quit s = refl

  run_script-record :
      {l : List InputEvent} {sc : Script P}
      → Leaves seen l sc
      → (s : State P) → record_of (run_script little plugin sc s) ≡ l
  unfolding run_script
  run_script-record (leaves_finished p e) s = e
  run_script-record (leaves_call c p next e rest) s =
      let called = do_call little plugin c (record s { plugin = p }) in
      run_script-record (rest called.plugin (do_call-record c (record s { plugin = p }) ∙ e)) called

  dispatch_input-record :
      (ev : InputEvent) (s : State P)
      → is_listening little plugin s ≡ true
      → record_of (dispatch_input little plugin ev s) ≡ record_of s ++ ev ∷ []
  unfolding dispatch_input
  dispatch_input-record (mouse_input m) s e =
      rw e (run_script-record (recording.records_mouse m s.plugin) s)
  dispatch_input-record (keyboard_input kb) s e =
      rw e (run_script-record (recording.records_keyboard kb s.plugin) s)

  exec-record : (work : Work) (s : State P) → record_of (exec little plugin work s) ≡ record_of s
  unfolding exec take_input
  exec-record null_work s = refl
  exec-record drain_input s = refl
  exec-record (plugin_work n) s = run_script-record (recording.keeps_work n s.plugin) s

  -- In a step that dispatches an event a window takes messages, and what the main thread runs by itself
  -- records nothing.
  abbrev pub IsHeard :
      {s t : Sys P} {ins outs : List InputEvent} → Step little plugin s ins outs t → Type 0
  IsHeard (loops s s' owes e) = s.local ≢ [] → is_listening little plugin s ≡ true
  IsHeard (runs script s owes) = Leaves seen (seen s.plugin) script
  IsHeard _ = Unit

  abbrev pub AllHeard :
      {p : P} {ins outs : List InputEvent} {s : Sys P} → Reach little plugin p ins outs s → Type 0
  AllHeard begins = Unit
  AllHeard (later new_ins new_outs t r step) = AllHeard r × IsHeard step

  Step-record :
      {s t : Sys P} {ins outs : List InputEvent} (step : Step little plugin s ins outs t)
      → IsHeard step
      → record_of t.host ≡ record_of s.host ++ outs
  unfolding push_input on_host_post_work request_quit
  Step-record (pushes ev s) _ = sym (append-nil _)
  Step-record (posts s) _ = sym (append-nil _)
  Step-record (quits s owes) _ = sym (append-nil _)
  Step-record (runs script s owes) h = run_script-record h s ∙ sym (append-nil _)
  Step-record (loops s s' owes e) h = elim (progress little plugin s s' e) [
    | dispatched ev rest l same ↦
        let listens = h (λ none_left. cc (l, none_left)) in
        rw (same, l) (dispatch_input-record ev (record s { local = rest }) listens)
    | executed work rest l q same ↦ rw same (
        exec-record work (record s { post_queue = rest })
        ∙ sym (append-nil (record_of s))
        ∙ ap (λ z. record_of s ++ take 1 z) (sym l))
  ]

  Reach-record :
      (p : P) {ins outs : List InputEvent} {s : Sys P} (r : Reach little plugin p ins outs s)
      → AllHeard r
      → seen p ≡ []
      → record_of s.host ≡ outs
  unfolding set_pixel_data_sink
  Reach-record p begins _ e = e
  Reach-record p (later new_ins new_outs t r step) (before, now) e =
      Step-record step now ∙ ap (λ z. z ++ new_outs) (Reach-record p r before e)

  -- Input reaches the plugin in the order in which it was posted, each event once: what was posted is
  -- what the handlers of a plugin that records its input have got, and then what the host still
  -- holds. The plugin starts with an empty record, a window takes messages whenever an event is
  -- dispatched, and what the main thread runs by itself records nothing.
  pub Reach-handed :
      (p : P) {ins outs : List InputEvent} {s : Sys P} (r : Reach little plugin p ins outs s)
      → AllHeard r
      → seen p ≡ []
      → ins ≡ seen s.host.plugin ++ (s.host.local ++ s.host.input_queue)
  Reach-handed p {s = s} r heard e =
      Reach-in_order little plugin p r
      ∙ ap (λ z. z ++ (s.host.local ++ s.host.input_queue)) (sym (Reach-record p r heard e))
