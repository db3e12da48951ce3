-- ===== src/Apphost/UiHost/Termination.antt =====
-- How `on_host_loop` of src/apphost/ui_host_impl.cpp comes to an end. The loop runs on fuel here.
use protocol_design.Prelude.{
  ℕ, zero, suc, ◌+◌, ◌<◌, ◌≡◌, refl, ap, ◌∙◌, List, [], ◌∷◌, Bool, true, false, Option, none, some,
  length, arith, inl, inr, ◌⊎◌,
}
use protocol_design.Prelude.Int.{magnitude}
use protocol_design.Apphost.UiHost.{
  State, Plugin, Script, finished, call, Call, WindowRuntime, with_window, clip, create_toplevel,
  set_message_handler, show_window, damage, destroy, post_work, quit, Round, waits, returned,
  goes_on, Work, null_work, drain_input, plugin_work, InputEvent, mouse_input, keyboard_input,
  dispatch_draw_and_send, on_window_show, on_window_damage, on_host_destroy,
  on_host_create_toplevel, on_window_set_message_handler, request_quit, do_call, run_script,
  dispatch_input, exec, take_input, round_of, loop_round, run_loop,
}
use protocol_design.Apphost.UiHost.Calls.{drains, run_script-Keeps, dispatch_input-Keeps}
use protocol_design.Apphost.UiHost.Schedule.{
  Sys, IsValid, loops, Step-IsValid, dispatched, executed, progress,
}

abbrev posts : Call → Bool
posts (create_toplevel a w h) = false
posts set_message_handler = false
posts (show_window shown) = false
posts (damage q) = false
posts (destroy id) = false
posts (post_work n) = true
posts quit = false

-- A script that posts no work, whatever the calls leave.
pub data IsQuiet {P : Type 0} : Script P → Type 0 where
  quiet_finished : (p : P) → IsQuiet (finished p)
  quiet_call :
      (c : Call) (p : P) (next : P → Script P)
      → posts c ≡ false
      → ((q : P) → IsQuiet (next q))
      → IsQuiet (call c p next)

pub record IsQuietPlugin {P : Type 0} (plugin : Plugin P) : Type 0 where
  pub quiet_mouse : (m : _) (p : P) → IsQuiet (plugin.on_mouse m p)
  pub quiet_keyboard : (kb : _) (p : P) → IsQuiet (plugin.on_keyboard kb p)
  pub quiet_work : (n : ℕ) (p : P) → IsQuiet (plugin.on_work n p)

-- What a loop has left to do.
abbrev pub work_left : {P : Type 0} → State P → ℕ
work_left s = length s.local + length s.input_queue + length s.post_queue

module _ {P : Type 0} (little : Bool) (plugin : Plugin P) where
  -- A property of the work that waits, which every call that posts nothing keeps.
  with_window-post_queue :
      (s t : State P) (o : Option WindowRuntime) (f : WindowRuntime → State P)
      → t.post_queue ≡ s.post_queue
      → ((w : WindowRuntime) → (f w).post_queue ≡ s.post_queue)
      → (with_window o t f).post_queue ≡ s.post_queue
  with_window-post_queue s t none f k h = k
  with_window-post_queue s t (some w) f k h = h w

  created-post_queue :
      (s : State P) (o : Option WindowRuntime) (created : ℕ × State P)
      → created.1.post_queue ≡ s.post_queue
      → (with_window {A = ℕ × State P} o created (λ w. (0, s))).1.post_queue ≡ s.post_queue
  created-post_queue s none created k = k
  created-post_queue s (some w) created k = refl

  draw-post_queue :
      (l t r b : ℕ) (s : State P)
      → (dispatch_draw_and_send little plugin l t r b s).post_queue ≡ s.post_queue
  unfolding dispatch_draw_and_send
  draw-post_queue l t r b s = with_window-post_queue s s s.window _ refl (λ w. ground arith)

  do_call-post_queue :
      (c : Call) (s : State P)
      → posts c ≡ false
      → (do_call little plugin c s).post_queue ≡ s.post_queue
  unfolding do_call on_window_show on_window_damage on_host_destroy on_host_create_toplevel
      on_window_set_message_handler request_quit
  do_call-post_queue (create_toplevel a w h) s e = created-post_queue s s.window _ refl
  do_call-post_queue set_message_handler s e =
      with_window-post_queue s s s.window _ refl (λ w. refl)
  do_call-post_queue (show_window true) s e =
      with_window-post_queue s s s.window _ refl (λ w. draw-post_queue 0 0 w.width w.height s)
  do_call-post_queue (show_window false) s e = refl
  do_call-post_queue (damage q) s e = with_window-post_queue s s s.window _ refl (λ w.
      let c = clip w q in
      ground
        (arith, draw-post_queue (magnitude c.l) (magnitude c.t) (magnitude c.r) (magnitude c.b) s))
  do_call-post_queue (destroy id) s e =
      with_window-post_queue s s s.window _ refl (λ w. ground arith)
  do_call-post_queue (post_work n) s e = ground (arith, e)
  do_call-post_queue quit s e = refl

  run_script-post_queue :
      {sc : Script P}
      → IsQuiet sc
      → (s : State P) → (run_script little plugin sc s).post_queue ≡ s.post_queue
  unfolding run_script
  run_script-post_queue (quiet_finished p) s = refl
  run_script-post_queue (quiet_call c p next e quiet) s =
      let before : State P = record s { plugin = p } in
      let called = do_call little plugin c before in
      run_script-post_queue (quiet called.plugin) called ∙ do_call-post_queue c before e

  module _ (quiet : IsQuietPlugin plugin) where
    dispatch_input-post_queue :
        (ev : InputEvent) (s : State P)
        → (dispatch_input little plugin ev s).post_queue ≡ s.post_queue
    unfolding dispatch_input
    dispatch_input-post_queue (mouse_input m) s =
        ground (arith, run_script-post_queue (quiet.quiet_mouse m s.plugin) s)
    dispatch_input-post_queue (keyboard_input kb) s =
        ground (arith, run_script-post_queue (quiet.quiet_keyboard kb s.plugin) s)

    exec-work_left :
        (work : Work) (rest : List Work) (s : State P)
        → s.local ≡ []
        → s.post_queue ≡ work ∷ rest
        → suc (work_left (exec little plugin work (record s { post_queue = rest }))) ≡ work_left s
    unfolding exec take_input
    exec-work_left null_work rest s l q = omega (arith, ap length q)
    exec-work_left drain_input rest s l q = omega (arith, ap length q, ap length l)
    exec-work_left (plugin_work n) rest s l q =
        let quiet_script = quiet.quiet_work n s.plugin in
        let before : State P = record s { post_queue = rest } in
        let keeps = run_script-Keeps little plugin (plugin.on_work n s.plugin) before in
        omega (
          arith,
          ap length q,
          ap length keeps.local_kept,
          ap length keeps.input_queue_kept,
          ap length (run_script-post_queue quiet_script before),
        )

    loop_round-work_left :
        (s t : State P) → loop_round little plugin s ≡ goes_on t → suc (work_left t) ≡ work_left s
    loop_round-work_left s t e = elim (progress little plugin s t e) [
      | dispatched ev rest l same ↦
          let before : State P = record s { local = rest } in
          let keeps = dispatch_input-Keeps little plugin ev before in
          rw same (
            omega (
              arith,
              ap length l,
              ap length keeps.local_kept,
              ap length keeps.input_queue_kept,
              ap length (dispatch_input-post_queue ev before),
            ))
      | executed work rest l q same ↦ rw same (exec-work_left work rest s l q)
    ]

    -- A loop that has ended: it has returned exactly if it is asked to quit, and no event that it holds and no work
    -- is left.
    abbrev pub HasEnded : Bool × State P → Type 0
    HasEnded r = (r.0 ≡ r.1.quit_flag) × ((r.1.local ≡ []) × (r.1.post_queue ≡ []))

    waits-HasEnded :
        (events : List InputEvent) (works : List Work) (s : State P)
        → s.local ≡ events
        → s.post_queue ≡ works
        → round_of little plugin events works s ≡ waits
        → HasEnded (false, s)
    unfolding round_of
    waits-HasEnded (ev ∷ rest) works s l q e = ground (arith, e)
    waits-HasEnded [] (work ∷ rest) s l q e = ground (arith, e)
    waits-HasEnded [] [] s l q e = (ground (arith, e), (l, q))

    returned-HasEnded :
        (events : List InputEvent) (works : List Work) (s : State P)
        → s.local ≡ events
        → s.post_queue ≡ works
        → round_of little plugin events works s ≡ returned
        → HasEnded (true, s)
    unfolding round_of
    returned-HasEnded (ev ∷ rest) works s l q e = ground (arith, e)
    returned-HasEnded [] (work ∷ rest) s l q e = ground (arith, e)
    returned-HasEnded [] [] s l q e = (ground (arith, e), (l, q))

    Round-cases : (r : Round P) → (r ≡ waits) ⊎ ((r ≡ returned) ⊎ ((t : State P) × (r ≡ goes_on t)))
    Round-cases waits = inl refl
    Round-cases returned = inr (inl refl)
    Round-cases (goes_on t) = inr (inr (t, refl))

    run_loop_ended :
        (fuel : ℕ) (s : State P) → work_left s < fuel → HasEnded (run_loop little plugin fuel s)
    unfolding run_loop loop_round
    run_loop_ended zero s h = ground (arith, h)
    run_loop_ended (suc fuel) s h = elim (Round-cases (loop_round little plugin s)) [
      | inl e ↦ rw (e, run_loop) (waits-HasEnded s.local s.post_queue s refl refl e)
      | inr (inl e) ↦ rw (e, run_loop) (returned-HasEnded s.local s.post_queue s refl refl e)
      | inr (inr (t, e)) ↦
          rw (e, run_loop) (run_loop_ended fuel t (omega (arith, loop_round-work_left s t e)))
    ]

    -- The main thread alone: the reader owes no drain.
    abbrev pub alone : State P → Sys P
    alone s = record { host = s; owes_post = false }

    run_loop-IsValid :
        (fuel : ℕ) (s : State P)
        → IsValid (alone s)
        → IsValid (alone (run_loop little plugin fuel s).1)
    unfolding run_loop
    run_loop-IsValid zero s v = v
    run_loop-IsValid (suc fuel) s v = elim (Round-cases (loop_round little plugin s)) [
      | inl e ↦ rw (e, run_loop) v
      | inr (inl e) ↦ rw (e, run_loop) v
      | inr (inr (t, e)) ↦
          rw (e, run_loop)
            (run_loop-IsValid fuel t (Step-IsValid little plugin v (loops s t false e)))
    ]

    -- With no work that waits, a valid host has no input that waits.
    no_input : (s : State P) → IsValid (alone s) → s.post_queue ≡ [] → s.input_queue ≡ []
    unfolding drains
    no_input s v e = v.covered (ground (arith, v.counted, ap drains e))

    -- The loop comes to an end, if no handler posts work, and if at most one drain is posted, and
    -- one is whenever input waits: after as many rounds as there are events and posted works, and
    -- one more, no event and no work is left, and it has returned if a request to quit is set, or
    -- else waits.
    pub run_loop-ends :
        (fuel : ℕ) (s : State P)
        → IsValid (alone s)
        → work_left s < fuel
        → let r = run_loop little plugin fuel s in HasEnded r × (r.1.input_queue ≡ [])
    run_loop-ends fuel s v h =
        let ended = run_loop_ended fuel s h in
        (ended, no_input (run_loop little plugin fuel s).1 (run_loop-IsValid fuel s v) ended.1.1)
