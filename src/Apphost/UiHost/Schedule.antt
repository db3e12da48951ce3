-- ===== src/Apphost/UiHost/Schedule.antt =====
-- The threads of src/apphost/ui_host_impl.cpp: the main one, which runs the plugin and `on_host_loop`,
-- and the reader, which posts input. A step is one critical section, or what the main thread does
-- between two of them.
use protocol_design.Prelude.{
  suc, ◌+◌, ◌≡◌, refl, sym, ap, ap₂, subst, ◌∙◌, List, [], ◌∷◌, ◌++◌, Bool, true, false,
  if◌then◌else◌, take, arith, append_assoc, append-nil,
}
use protocol_design.Apphost.UiHost.{
  State, Plugin, Script, Round, waits, returned, goes_on, Work, null_work, drain_input, plugin_work,
  InputEvent, push_input, on_host_post_work, request_quit, run_script, dispatch_input, exec,
  take_input, round_of, loop_round, start, set_pixel_data_sink,
}
use protocol_design.Apphost.UiHost.Calls.{
  drains, drains-drain_input, Keeps, run_script-Keeps, dispatch_input-Keeps,
}

-- The host, and whether the reader has pushed an event and must still post the drain.
pub record Sys (P : Type 0) : Type 0 where
  pub host : State P
  pub owes_post : Bool

module _ {P : Type 0} (little : Bool) (plugin : Plugin P) where
  -- A step, with the events that the reader pushes and the main thread dispatches in it.
  pub data Step : Sys P → List InputEvent → List InputEvent → Sys P → Type 0 where
    pushes :
        (ev : InputEvent) (s : State P)
        → Step
            (record { host = s; owes_post = false })
            (ev ∷ [])
            []
            (record { host = (push_input ev s).1; owes_post = (push_input ev s).0 })
    posts :
        (s : State P)
        → Step
            (record { host = s; owes_post = true })
            []
            []
            (record { host = on_host_post_work drain_input s; owes_post = false })
    quits :
        (s : State P) (owes : Bool)
        → Step
            (record { host = s; owes_post = owes })
            []
            []
            (record { host = request_quit s; owes_post = owes })
    runs :
        (script : Script P) (s : State P) (owes : Bool)
        → Step
            (record { host = s; owes_post = owes })
            []
            []
            (record { host = run_script little plugin script s; owes_post = owes })
    loops :
        (s s' : State P) (owes : Bool)
        → loop_round little plugin s ≡ goes_on s'
        → Step
            (record { host = s; owes_post = owes })
            []
            (take 1 s.local)
            (record { host = s'; owes_post = owes })

  pub data Reach (p : P) : List InputEvent → List InputEvent → Sys P → Type 0 where
    begins : Reach p [] [] (record { host = set_pixel_data_sink (start p); owes_post = false })
    later :
        {ins outs : List InputEvent} {s : Sys P} (new_ins new_outs : List InputEvent) (t : Sys P)
        → Reach p ins outs s
        → Step s new_ins new_outs t
        → Reach p (ins ++ new_ins) (outs ++ new_outs) t

-- At most one drain waits or is about to be posted, and one does whenever input waits.
pub record IsValid {P : Type 0} (s : Sys P) : Type 0 where
  pub counted :
      drains s.host.post_queue + (if s.owes_post then 1 else 0)
      ≡ (if s.host.input_work_pending then 1 else 0)
  pub covered : s.host.input_work_pending ≡ false → s.host.input_queue ≡ []

module _ {P : Type 0} (little : Bool) (plugin : Plugin P) where
  kept :
      {s t : State P} (owes : Bool)
      → IsValid (record { host = s; owes_post = owes })
      → Keeps s t
      → IsValid (record { host = t; owes_post = owes })
  kept owes v k = record {
    counted =
        ap₂ (λ a b. a + b) k.drains_kept refl
        ∙ v.counted
        ∙ ap (λ b. if b then 1 else 0) (sym k.pending_kept);
    covered = λ e. k.input_queue_kept ∙ v.covered (sym k.pending_kept ∙ e);
  }

  -- What a round that goes on has done.
  pub data Progress (s t : State P) : Type 0 where
    dispatched :
        (ev : InputEvent) (rest : List InputEvent)
        → s.local ≡ ev ∷ rest
        → t ≡ dispatch_input little plugin ev (record s { local = rest })
        → Progress s t
    executed :
        (work : Work) (rest : List Work)
        → s.local ≡ []
        → s.post_queue ≡ work ∷ rest
        → t ≡ exec little plugin work (record s { post_queue = rest })
        → Progress s t

  going : State P → Round P → State P
  going s waits = s
  going s returned = s
  going s (goes_on t) = t

  stops : Round P → Bool
  stops waits = true
  stops returned = true
  stops (goes_on t) = false

  progress_of :
      (events : List InputEvent) (works : List Work) (s t : State P)
      → s.local ≡ events
      → s.post_queue ≡ works
      → round_of little plugin events works s ≡ goes_on t
      → Progress s t
  unfolding going stops round_of
  progress_of (ev ∷ rest) works s t l q e = dispatched ev rest l (sym (ap (going s) e))
  progress_of [] (work ∷ rest) s t l q e = executed work rest l q (sym (ap (going s) e))
  progress_of [] [] s t l q e = ground (arith, e)

  pub progress : (s t : State P) → loop_round little plugin s ≡ goes_on t → Progress s t
  unfolding loop_round
  progress s t e = progress_of s.local s.post_queue s t refl refl e

  exec-IsValid :
      (work : Work) (rest : List Work) (s : State P) (owes : Bool)
      → s.post_queue ≡ work ∷ rest
      → IsValid (record { host = s; owes_post = owes })
      → IsValid (record {
        host = exec little plugin work (record s { post_queue = rest });
        owes_post = owes;
      })
  unfolding exec drains take_input
  exec-IsValid null_work rest s owes e v =
      let one : drains s.post_queue ≡ drains rest = ap drains e in
      record { counted = omega (arith, one, v.counted); covered = v.covered }
  exec-IsValid drain_input rest s owes e v =
      let one : drains s.post_queue ≡ suc (drains rest) = ap drains e in
      record { counted = ground (arith, one, v.counted); covered = λ _. refl }
  exec-IsValid (plugin_work n) rest s owes e v =
      let one : drains s.post_queue ≡ drains rest = ap drains e in
      kept owes (record { counted = omega (arith, one, v.counted); covered = v.covered })
        (run_script-Keeps little plugin (plugin.on_work n s.plugin)
          (record s { post_queue = rest }))

  pub Step-IsValid :
      {s t : Sys P} {ins outs : List InputEvent}
      → IsValid s
      → Step little plugin s ins outs t
      → IsValid t
  unfolding push_input on_host_post_work request_quit
  Step-IsValid v (pushes ev s) = record {
    counted = ground (arith, v.counted);
    covered = λ e. ground (arith, e);
  }
  Step-IsValid v (posts s) = record {
    counted = omega (arith, v.counted, drains-drain_input s.post_queue);
    covered = v.covered;
  }
  Step-IsValid v (quits s owes) = record { counted = v.counted; covered = v.covered }
  Step-IsValid v (runs script s owes) = kept owes v (run_script-Keeps little plugin script s)
  Step-IsValid v (loops s s' owes e) = elim (progress s s' e) [
    | dispatched ev rest l same ↦
        subst (λ t. IsValid (record { host = t; owes_post = owes })) (sym same)
          (kept owes (record { counted = v.counted; covered = v.covered })
            (dispatch_input-Keeps little plugin ev (record s { local = rest })))
    | executed work rest l q same ↦
        subst (λ t. IsValid (record { host = t; owes_post = owes })) (sym same)
          (exec-IsValid work rest s owes q v)
  ]

  begins-IsValid :
      (p : P) → IsValid (record { host = set_pixel_data_sink (start p); owes_post = false })
  unfolding set_pixel_data_sink drains
  begins-IsValid p = record { counted = refl; covered = λ _. refl }

  -- Whatever the threads do and the plugin calls, at most one drain of the input queue is posted or
  -- about to be, and one is whenever input waits.
  pub Reach-IsValid :
      (p : P) {ins outs : List InputEvent} {s : Sys P}
      → Reach little plugin p ins outs s
      → IsValid s
  Reach-IsValid p begins = begins-IsValid p
  Reach-IsValid p (later new_ins new_outs t r step) = Step-IsValid (Reach-IsValid p r) step

  -- The events that the host holds.
  abbrev held : Sys P → List InputEvent
  held s = s.host.local ++ s.host.input_queue

  held-Keeps :
      {s t : State P} (owes : Bool)
      → Keeps s t
      → held (record { host = t; owes_post = owes }) ≡ held (record { host = s; owes_post = owes })
  held-Keeps owes k = ap₂ (λ a b. a ++ b) k.local_kept k.input_queue_kept

  exec-held :
      (work : Work) (rest : List Work) (s : State P)
      → s.local ≡ []
      → (exec little plugin work (record s { post_queue = rest })).local
          ++ (exec little plugin work (record s { post_queue = rest })).input_queue
        ≡ s.local ++ s.input_queue
  unfolding exec take_input
  exec-held null_work rest s l = refl
  exec-held drain_input rest s l = append-nil s.input_queue ∙ ap (λ z. z ++ s.input_queue) (sym l)
  exec-held (plugin_work n) rest s l =
      held-Keeps false (
        run_script-Keeps little plugin (plugin.on_work n s.plugin) (record s { post_queue = rest }))

  Step-held :
      {s t : Sys P} {ins outs : List InputEvent}
      → Step little plugin s ins outs t
      → held s ++ ins ≡ outs ++ held t
  unfolding push_input on_host_post_work request_quit
  Step-held (pushes ev s) = append_assoc s.local s.input_queue (ev ∷ [])
  Step-held (posts s) = append-nil _
  Step-held (quits s owes) = append-nil _
  Step-held (runs script s owes) =
      append-nil _ ∙ sym (held-Keeps owes (run_script-Keeps little plugin script s))
  Step-held (loops s s' owes e) = elim (progress s s' e) [
    | dispatched ev rest l same ↦
        let keeps = dispatch_input-Keeps little plugin ev (record s { local = rest }) in
        rw (l, same, keeps.local_kept, keeps.input_queue_kept) (append-nil _)
    | executed work rest l q same ↦
        rw (same, exec-held work rest s l)
          (append-nil (s.local ++ s.input_queue)
            ∙ ap (λ z. take 1 z ++ (s.local ++ s.input_queue)) (sym l))
  ]

  -- What was posted is what the steps take out to dispatch, in order, and then what the host still holds.
  pub Reach-in_order :
      (p : P) {ins outs : List InputEvent} {s : Sys P}
      → Reach little plugin p ins outs s
      → ins ≡ outs ++ (s.host.local ++ s.host.input_queue)
  unfolding set_pixel_data_sink
  Reach-in_order p begins = refl
  Reach-in_order p (later {ins = ins} {outs = outs} {s = s} new_ins new_outs t r step) =
      ap (λ z. z ++ new_ins) (Reach-in_order p r)
      ∙ append_assoc outs (held s) new_ins
      ∙ ap (λ z. outs ++ z) (Step-held step)
      ∙ sym (append_assoc outs new_outs (held t))

  -- A loop that waits holds nothing and has no work.
  waits_of :
      (events : List InputEvent) (works : List Work) (s : State P)
      → round_of little plugin events works s ≡ waits
      → (events ≡ []) × (works ≡ [])
  unfolding round_of
  waits_of (ev ∷ rest) works s e = ground (arith, e)
  waits_of [] (work ∷ rest) s e = ground (arith, e)
  waits_of [] [] s e = (refl, refl)

  -- A host whose loop waits, while the reader owes it no drain, has dispatched all input.
  pub Reach-waits :
      (p : P) {ins outs : List InputEvent} {s : Sys P}
      → Reach little plugin p ins outs s
      → s.owes_post ≡ false
      → loop_round little plugin s.host ≡ waits
      → ins ≡ outs
  unfolding loop_round drains
  Reach-waits p {outs = outs} {s = s} r owes w =
      let (no_local, no_work) = waits_of s.host.local s.host.post_queue s.host w in
      let v = Reach-IsValid p r in
      let idle : s.host.input_work_pending ≡ false =
        ground (arith, v.counted, owes, ap drains no_work) in
      Reach-in_order p r
      ∙ ap (λ z. outs ++ z) (ap₂ (λ a b. a ++ b) no_local (v.covered idle))
      ∙ append-nil outs
