-- ===== src/Gateway/Sessions/Closing.antt =====
-- Starting the cleanup of a session (src/gateway/session_manager.cpp), once, twice, and with an
-- AppHost that binds meanwhile.
use protocol_design.Prelude.{
  ℕ, ◌≡◌, ◌≢◌, refl, sym, ap, subst, ◌∙◌, true, false, none, some, arith, Option-cases, Bool-cases,
  inl, inr,
}
use protocol_design.Prelude.Assoc.{lookup, nat_eq, lookup-insert}
use protocol_design.Prelude.Int.{ℤ, int_eq}
use protocol_design.Gateway.Sessions.{
  SessionRuntime, SessionTable, Route, route_from, store, active, closing, cannot_close,
  transition_to_closing, bind_apphost,
}

abbrev pub closed : SessionRuntime → SessionRuntime
closed rt = record rt { state = closing }

module _ (id : ℕ) (t : SessionTable) (rt : SessionRuntime)
    (q : lookup id t.by_session ≡ some rt) where
  transition-refused : cannot_close rt.state ≡ true → transition_to_closing id t ≡ (none, t)
  unfolding transition_to_closing
  transition-refused d = rw (q, transition_to_closing, d) refl

  pub transition-won :
      cannot_close rt.state ≡ false
      → transition_to_closing id t
        ≡ (some (route_from (closed rt), rt.apphost_pid), store id (closed rt) t)
  unfolding transition_to_closing
  transition-won d = rw (q, transition_to_closing, d) refl

-- A call that returns false changes nothing.
pub transition-lost :
    (id : ℕ) (t : SessionTable)
    → (transition_to_closing id t).0 ≡ none
    → transition_to_closing id t ≡ (none, t)
unfolding transition_to_closing
transition-lost id t h = elim (Option-cases (lookup id t.by_session)) [
  | inl e ↦ rw (e, transition_to_closing) refl
  | inr (rt, e) ↦ elim (Bool-cases (cannot_close rt.state)) [
    | inl d ↦ transition-refused id t rt e d
    | inr d ↦ absurd (ground arith)
  ]
]

pub transition-others :
    (id j : ℕ) (t : SessionTable)
    → j ≢ id
    → lookup j (transition_to_closing id t).1.by_session ≡ lookup j t.by_session
unfolding transition_to_closing
transition-others id j t n = elim (Option-cases (lookup id t.by_session)) [
  | inl e ↦ rw (e, transition_to_closing) refl
  | inr (rt, e) ↦ ground (arith, lookup-insert id j (closed rt) t.by_session)
]

-- After a call that starts the cleanup of a session, the next call for it returns false and changes
-- nothing.
pub transition_to_closing_once :
    (id : ℕ) (t : SessionTable) (won : Route × ℤ)
    → (transition_to_closing id t).0 ≡ some won
    → transition_to_closing id (transition_to_closing id t).1
      ≡ (none, (transition_to_closing id t).1)
unfolding transition_to_closing
transition_to_closing_once id t won h = elim (Option-cases (lookup id t.by_session)) [
  | inl e ↦ absurd (ground arith)
  | inr (rt, e) ↦ elim (Bool-cases (cannot_close rt.state)) [
    | inl d ↦ absurd (ground arith)
    | inr d ↦
        let after = ap (λ r. r.1) (transition-won id t rt e d) in
        subst (λ u. transition_to_closing id u ≡ (none, u)) (sym after)
          (transition-refused id (store id (closed rt) t) (closed rt)
            (lookup-insert id id (closed rt) t.by_session ∙ ground arith) refl)
  ]
]

-- A session whose cleanup has begun is made active again by `bind_apphost`, and its cleanup can then
-- be started a second time.
pub bind_apphost-closing :
    (id conn now : ℕ) (t : SessionTable) (rt : SessionRuntime)
    → lookup id t.by_session ≡ some rt
    → rt.state ≡ closing
    → ((bind_apphost id conn now t).0 ≡ true)
      × ((transition_to_closing id (bind_apphost id conn now t).1).0
          ≡ some (record { client_conn = rt.client_conn; apphost_conn = conn }, rt.apphost_pid))
unfolding bind_apphost transition_to_closing
bind_apphost-closing id conn now t rt q c =
    let rt' = record rt { apphost_conn = conn; state = active; last_apphost_seen = now } in
    ground (arith, lookup-insert id id rt' t.by_session)
