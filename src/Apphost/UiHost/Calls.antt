-- ===== src/Apphost/UiHost/Calls.antt =====
-- What the calls of a plugin leave as it is, in src/apphost/ui_host_impl.cpp.
use protocol_design.Common.Rect.{rect}
use protocol_design.Prelude.{
  ℕ, suc, ◌+◌, length, length-append, arith, ◌≡◌, refl, ap, ◌∙◌, List, [], ◌∷◌, ◌++◌, Bool, true,
  false, not, ◌||◌, Option, none, some, if◌then◌else◌, ◌==◌,
}
use protocol_design.Prelude.Int.{magnitude, less}
use protocol_design.Apphost.UiHost.{
  WindowRuntime, with_window, clip, State, Plugin, Script, finished, call, Call, Work, null_work,
  drain_input, plugin_work, create_toplevel, set_message_handler, show_window, damage, destroy,
  post_work, quit, InputEvent, mouse_input, keyboard_input, dispatch_draw_and_send, on_window_show,
  on_window_damage, on_host_destroy, on_host_create_toplevel, on_window_set_message_handler,
  on_host_post_work, request_quit, do_call, run_script, dispatch_input, is_listening,
}

-- How many drains of the input queue wait.
unfoldable pub drains : List Work → ℕ
drains [] = 0
drains (null_work ∷ works) = drains works
drains (drain_input ∷ works) = suc (drains works)
drains (plugin_work n ∷ works) = drains works

pub drains-plugin_work :
    (works : List Work) (n : ℕ) → drains (works ++ (plugin_work n ∷ [])) ≡ drains works
unfolding drains
drains-plugin_work [] n = refl
drains-plugin_work (null_work ∷ works) n = drains-plugin_work works n
drains-plugin_work (drain_input ∷ works) n = ap suc (drains-plugin_work works n)
drains-plugin_work (plugin_work m ∷ works) n = drains-plugin_work works n

pub drains-drain_input :
    (works : List Work) → drains (works ++ (drain_input ∷ [])) ≡ suc (drains works)
unfolding drains
drains-drain_input [] = refl
drains-drain_input (null_work ∷ works) = drains-drain_input works
drains-drain_input (drain_input ∷ works) = ap suc (drains-drain_input works)
drains-drain_input (plugin_work m ∷ works) = drains-drain_input works

pub with_window-some :
    {P : Type 0} {o : Option WindowRuntime} {w : WindowRuntime} (t : State P)
    (f : WindowRuntime → State P)
    → o ≡ some w
    → with_window o t f ≡ f w
with_window-some t f e = ap (λ o. with_window o t f) e

pub if-false : {P : Type 0} (c : Bool) (s t : State P) → c ≡ false → (if c then s else t) ≡ t
if-false c s t e = ap (λ c. if c then s else t) e

module _ {P : Type 0} where
  -- The input is as it was, and a request to quit stays.
  pub record Keeps (s s' : State P) : Type 0 where
    pub input_queue_kept : s'.input_queue ≡ s.input_queue
    pub pending_kept : s'.input_work_pending ≡ s.input_work_pending
    pub local_kept : s'.local ≡ s.local
    pub drains_kept : drains s'.post_queue ≡ drains s.post_queue
    pub quit_kept : s.quit_flag ≡ true → s'.quit_flag ≡ true

  pub Keeps-refl : (s : State P) → Keeps s s
  Keeps-refl s = record {
    input_queue_kept = refl;
    pending_kept = refl;
    local_kept = refl;
    drains_kept = refl;
    quit_kept = λ q. q;
  }

  pub Keeps-trans : {s t u : State P} → Keeps s t → Keeps t u → Keeps s u
  Keeps-trans a b = record {
    input_queue_kept = b.input_queue_kept ∙ a.input_queue_kept;
    pending_kept = b.pending_kept ∙ a.pending_kept;
    local_kept = b.local_kept ∙ a.local_kept;
    drains_kept = b.drains_kept ∙ a.drains_kept;
    quit_kept = λ q. b.quit_kept (a.quit_kept q);
  }

  -- A record that differs in other fields only.
  Keeps-same :
      {s : State P} (p : P) (o : Option WindowRuntime) (seq : ℕ) (frames : List (Option (List ℕ)))
      → Keeps s (record s { plugin = p; window = o; frame_seq = seq; frames = frames })
  Keeps-same {s = s} p o seq frames = record {
    input_queue_kept = refl;
    pending_kept = refl;
    local_kept = refl;
    drains_kept = refl;
    quit_kept = λ q. q;
  }

  Keeps-with_window :
      {s t : State P} (o : Option WindowRuntime) (f : WindowRuntime → State P)
      → Keeps s t
      → ((w : WindowRuntime) → Keeps s (f w))
      → Keeps s (with_window o t f)
  Keeps-with_window none f k h = k
  Keeps-with_window (some w) f k h = h w

  Keeps-created :
      {s t : State P} (o : Option WindowRuntime) (created : ℕ × State P)
      → Keeps s created.1
      → Keeps s t
      → Keeps s (with_window {A = ℕ × State P} o created (λ w. (0, t))).1
  Keeps-created none created k h = k
  Keeps-created (some w) created k h = h

  Keeps-if : {s t u : State P} (c : Bool) → Keeps s t → Keeps s u → Keeps s (if c then t else u)
  Keeps-if true k h = k
  Keeps-if false k h = h

  module _ (little : Bool) (plugin : Plugin P) where
    dispatch_draw_and_send-Keeps :
        (l t r b : ℕ) (s : State P) → Keeps s (dispatch_draw_and_send little plugin l t r b s)
    unfolding dispatch_draw_and_send
    dispatch_draw_and_send-Keeps l t r b s = Keeps-with_window s.window _ (Keeps-refl s) (λ w.
        Keeps-if (w.destroyed || not w.has_handler) (Keeps-refl s)
          (Keeps-if (not s.has_sink) (Keeps-same {s = s} _ _ _ _) (Keeps-same {s = s} _ _ _ _)))

    pub do_call-Keeps : (c : Call) (s : State P) → Keeps s (do_call little plugin c s)
    unfolding do_call on_window_show on_window_damage on_host_destroy on_host_create_toplevel
        on_window_set_message_handler on_host_post_work request_quit
    do_call-Keeps (create_toplevel a w h) s =
        Keeps-created s.window _ (Keeps-same {s = s} _ _ _ _) (Keeps-refl s)
    do_call-Keeps set_message_handler s =
        Keeps-with_window s.window _ (Keeps-refl s) (λ w. Keeps-same {s = s} _ _ _ _)
    do_call-Keeps (show_window shown) s = Keeps-if (not shown) (Keeps-refl s) (
        Keeps-with_window s.window _ (Keeps-refl s)
          (λ w. dispatch_draw_and_send-Keeps 0 0 w.width w.height s))
    do_call-Keeps (damage q) s = Keeps-with_window s.window _ (Keeps-refl s) (λ w.
        let c = clip w q in
        Keeps-if (not (less c.l c.r) || not (less c.t c.b)) (Keeps-refl s) (
          dispatch_draw_and_send-Keeps (magnitude c.l) (magnitude c.t) (magnitude c.r)
            (magnitude c.b) s))
    do_call-Keeps (destroy id) s =
        Keeps-with_window s.window _ (Keeps-refl s)
          (λ w. Keeps-if (w.id == id) (Keeps-same {s = s} _ _ _ _) (Keeps-refl s))
    do_call-Keeps (post_work n) s = record {
      input_queue_kept = refl;
      pending_kept = refl;
      local_kept = refl;
      drains_kept = drains-plugin_work s.post_queue n;
      quit_kept = λ q. q;
    }
    do_call-Keeps quit s = record {
      input_queue_kept = refl;
      pending_kept = refl;
      local_kept = refl;
      drains_kept = refl;
      quit_kept = λ q. refl;
    }

    pub run_script-Keeps : (sc : Script P) (s : State P) → Keeps s (run_script little plugin sc s)
    unfolding run_script
    run_script-Keeps (finished p) s = Keeps-same {s = s} _ _ _ _
    run_script-Keeps (call c p next) s =
        let before : State P = record s { plugin = p } in
        let called = do_call little plugin c before in
        Keeps-trans (Keeps-same {s = s} p s.window s.frame_seq s.frames)
          (Keeps-trans (do_call-Keeps c before) (run_script-Keeps (next called.plugin) called))

    pub dispatch_input-Keeps :
        (ev : InputEvent) (s : State P) → Keeps s (dispatch_input little plugin ev s)
    unfolding dispatch_input
    dispatch_input-Keeps (mouse_input m) s =
        Keeps-if (is_listening little plugin s) (run_script-Keeps (plugin.on_mouse m s.plugin) s)
          (Keeps-refl s)
    dispatch_input-Keeps (keyboard_input kb) s =
        Keeps-if (is_listening little plugin s)
          (run_script-Keeps (plugin.on_keyboard kb s.plugin) s) (Keeps-refl s)

    -- A window that listens and a sink get the frame that is drawn.
    pub dispatch_draw_and_send-frame :
        (l t r b : ℕ) (s : State P) (w : WindowRuntime)
        → s.window ≡ some w
        → w.destroyed ≡ false
        → w.has_handler ≡ true
        → s.has_sink ≡ true
        → let u = dispatch_draw_and_send little plugin l t r b s in
          (length u.frames ≡ length s.frames + 1)
          × (u.plugin ≡ (plugin.on_draw w.pixels w.width w.height (rect l t r b) s.plugin).1)
    unfolding dispatch_draw_and_send
    dispatch_draw_and_send-frame l t r b s w shown alive handled sends =
        let sent =
          with_window-some s _ shown
          ∙ if-false (w.destroyed || not w.has_handler) s _ (ground (arith, alive, handled))
          ∙ if-false (not s.has_sink) _ _ (ap not sends) in
        (ap (λ u. length u.frames) sent ∙ length-append s.frames _, ap (λ u. u.plugin) sent)
