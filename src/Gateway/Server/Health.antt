-- ===== src/Gateway/Server/Health.antt =====
-- The sessions that a round of `monitor_loop` in src/gateway/gateway.cpp leaves.
use protocol_design.Prelude.{
  ℕ, ◌+◌, ◌≤◌, ◌≡◌, refl, sym, ap, subst, ◌∙◌, List, [], ◌∷◌, ◌⊎◌, some, ◌==◌, arith, Bool-cases,
  inl, inr, map,
}
use protocol_design.Prelude.Assoc.{lookup, nat_eq}
use protocol_design.Prelude.Int.{ℤ}
use protocol_design.Gateway.Sessions.{
  SessionRuntime, SessionSnapshot, snapshot_from, snapshot_sessions, spawning, active,
}
use protocol_design.Gateway.Sessions.Soundness.{IsSound}
use protocol_design.Gateway.Server.State.{Server}
use protocol_design.Gateway.Server.Monitor.{
  Verdict, healthy, fail, judge, apply_verdict, check_timeouts, check_exits, monitor_round,
}
use protocol_design.Gateway.Server.Timeouts.{
  session, verdict, Shrinks, apply_verdict-Shrinks, check_timeouts-Shrinks, check_exits-Shrinks,
  failing-gone,
}

-- The checks judge the sessions by the time and the timeouts that they started with.
verdict-Shrinks : {a b : Server} (rt : SessionRuntime) → Shrinks a b → verdict b rt ≡ verdict a rt
verdict-Shrinks rt u = rw (u.same_now, u.same_config) refl

checked-healthy :
    (id : ℕ) (rt : SessionRuntime) (s : Server) (d : Verdict)
    → IsSound s.sessions
    → verdict s rt ≡ d
    → session id (apply_verdict id d s) ≡ some rt
    → verdict s rt ≡ healthy
unfolding apply_verdict
checked-healthy id rt s healthy v e q = e
checked-healthy id rt s (fail notify) v e q =
    let before = (apply_verdict-Shrinks id (fail notify) s v).kept id rt q in
    absurd (ground (arith, failing-gone id rt s v before e, q))

abbrev Among : SessionSnapshot → List SessionSnapshot → Type 0
Among x [] = ⊥
Among x (y ∷ ys) = (y ≡ x) ⊎ Among x ys

snapshot-Among :
    (id : ℕ) (rt : SessionRuntime) (m : List (ℕ × SessionRuntime))
    → lookup id m ≡ some rt
    → Among (snapshot_from rt) (map (λ item. snapshot_from item.1) m)
unfolding lookup
snapshot-Among id rt [] e = cc
snapshot-Among id rt ((j, other) ∷ m) e = elim (Bool-cases (j == id)) [
  | inl hit ↦ let same : other ≡ rt = ground (arith, hit, e) in inl (ap snapshot_from same)
  | inr miss ↦ inr (snapshot-Among id rt m (ground (arith, miss, e)))
]

module _ (id : ℕ) (rt : SessionRuntime) (own : rt.session_id ≡ id) where
  check_timeouts-healthy :
      (snaps : List SessionSnapshot) (s : Server)
      → IsSound s.sessions
      → Among (snapshot_from rt) snaps
      → session id (check_timeouts snaps s) ≡ some rt
      → verdict s rt ≡ healthy
  unfolding check_timeouts
  check_timeouts-healthy [] s v m q = absurd m
  check_timeouts-healthy (snap ∷ snaps) s v (inl e) q =
      let d = judge s.now s.config.client_timeout_ms s.config.apphost_timeout_ms snap in
      let one = apply_verdict-Shrinks snap.session_id d s v in
      let later = check_timeouts-Shrinks snaps (apply_verdict snap.session_id d s) one.sound in
      let here : session id (apply_verdict id d s) ≡ some rt =
        subst (λ j. session id (apply_verdict j d s) ≡ some rt) (ap (λ z. z.session_id) e ∙ own)
          (later.kept id rt q) in
      let judged : verdict s rt ≡ d =
        ap (judge s.now s.config.client_timeout_ms s.config.apphost_timeout_ms) (sym e) in
      checked-healthy id rt s d v judged here
  check_timeouts-healthy (snap ∷ snaps) s v (inr m) q =
      let d = judge s.now s.config.client_timeout_ms s.config.apphost_timeout_ms snap in
      let one = apply_verdict-Shrinks snap.session_id d s v in
      sym (verdict-Shrinks rt one)
      ∙ check_timeouts-healthy snaps (apply_verdict snap.session_id d s) one.sound m q

-- A session that is not past its spawn deadline while it starts, and neither side of which has been
-- silent for longer than its timeout while it is active.
pub record IsInTime (s : Server) (rt : SessionRuntime) : Type 0 where
  pub starts_in_time : rt.state ≡ spawning → s.now ≤ rt.spawn_deadline
  pub client_heard : rt.state ≡ active → s.now ≤ rt.last_client_seen + s.config.client_timeout_ms
  pub apphost_heard : rt.state ≡ active → s.now ≤ rt.last_apphost_seen + s.config.apphost_timeout_ms

healthy-IsInTime : (s : Server) (rt : SessionRuntime) → verdict s rt ≡ healthy → IsInTime s rt
unfolding judge
healthy-IsInTime s rt h = record {
  starts_in_time = λ e. ground (arith, h, e);
  client_heard = λ e. ground (arith, h, e);
  apphost_heard = λ e. ground (arith, h, e);
}

-- On a sound table, every session that a round of the monitor leaves was there before as it is now,
-- and is in time: not past its spawn deadline while it starts, and with neither side silent for
-- longer than its timeout while it is active.
pub monitor_round-healthy :
    (exited : List ℤ) (s : Server) (id : ℕ) (rt : SessionRuntime)
    → IsSound s.sessions
    → session id (monitor_round exited s) ≡ some rt
    → (session id s ≡ some rt) × IsInTime s rt
unfolding monitor_round snapshot_sessions
monitor_round-healthy exited s id rt v q =
    let s₁ = check_exits exited s in
    let exits = check_exits-Shrinks exited s v in
    let checks = check_timeouts-Shrinks (snapshot_sessions s₁.sessions) s₁ exits.sound in
    let listed = checks.kept id rt q in
    (
      exits.kept id rt listed,
      healthy-IsInTime s rt (
          sym (verdict-Shrinks rt exits)
          ∙ check_timeouts-healthy id rt (exits.sound.own_id id rt listed)
              (snapshot_sessions s₁.sessions) s₁ exits.sound
              (snapshot-Among id rt s₁.sessions.by_session listed) q),
    )

-- A round of the monitor keeps the invariant of the session table.
pub monitor_round-IsSound :
    (exited : List ℤ) (s : Server) → IsSound s.sessions → IsSound (monitor_round exited s).sessions
unfolding monitor_round
monitor_round-IsSound exited s v =
    let s₁ = check_exits exited s in
    (check_timeouts-Shrinks (snapshot_sessions s₁.sessions) s₁
      (check_exits-Shrinks exited s v).sound).sound
