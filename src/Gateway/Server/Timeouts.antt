-- ===== src/Gateway/Server/Timeouts.antt =====
-- The timeout checks of `monitor_loop` in src/gateway/gateway.cpp.
use protocol_design.Prelude.{
  ℕ, ◌≡◌, refl, ap, ◌∙◌, List, [], ◌∷◌, Bool, true, false, not, Option, none, some, ◌==◌, arith,
  Option-cases, Bool-cases, inl, inr,
}
use protocol_design.Prelude.Assoc.{lookup, nat_eq}
use protocol_design.Prelude.Int.{ℤ}
use protocol_design.Gateway.Sessions.{
  SessionTable, SessionRuntime, SessionSnapshot, Route, snapshot_from, snapshot_sessions,
  transition_to_closing, cannot_close, remove_session, closing,
}
use protocol_design.Gateway.Sessions
use protocol_design.Gateway.Sessions.Soundness.{
  IsSound, transition_to_closing-IsSound, remove_session-IsSound,
}
use protocol_design.Gateway.Sessions.Closing.{transition-won}
use protocol_design.Gateway.Server.State.{Server, with_sessions, send_to_client}
use protocol_design.Gateway.Server.Monitor.{
  fail_session, fail_won, Verdict, healthy, fail, judge, apply_verdict, check_timeouts, check_exits,
}
use protocol_design.Gateway.Server.Cleanup.{
  fail_session-lost, fail_session-won, fail_session-IsGone,
}

abbrev pub session : ℕ → Server → Option SessionRuntime
session id s = lookup id s.sessions.by_session

-- The checks only take sessions away: what is left was there before, as it was.
pub record Shrinks (before after : Server) : Type 0 where
  pub kept :
      (id : ℕ) (rt : SessionRuntime) → session id after ≡ some rt → session id before ≡ some rt
  pub sound : IsSound after.sessions
  pub same_now : after.now ≡ before.now
  pub same_config : after.config ≡ before.config

Shrinks-refl : (s : Server) → IsSound s.sessions → Shrinks s s
Shrinks-refl s v = record { kept = λ id rt e. e; sound = v; same_now = refl; same_config = refl }

Shrinks-trans : {a b c : Server} → Shrinks a b → Shrinks b c → Shrinks a c
Shrinks-trans u v = record {
  kept = λ id rt e. u.kept id rt (v.kept id rt e);
  sound = v.sound;
  same_now = v.same_now ∙ u.same_now;
  same_config = v.same_config ∙ u.same_config;
}

fail_won-settings :
    (id : ℕ) (notify : Bool) (route : Route) (pid : ℤ) (s : Server)
    → let s' = fail_won id notify route pid s in (s'.now ≡ s.now) × (s'.config ≡ s.config)
unfolding fail_won send_to_client
fail_won-settings id notify route pid s = (ground arith, ground arith)

fail_session-settings :
    (id : ℕ) (notify : Bool) (s : Server)
    → let s' = fail_session id notify s in (s'.now ≡ s.now) × (s'.config ≡ s.config)
unfolding fail_session
fail_session-settings id notify s = elim (Option-cases (transition_to_closing id s.sessions).0) [
  | inl q ↦ rw (q, fail_session) (refl, refl)
  | inr (won, q) ↦
      rw (q, fail_session)
        (fail_won-settings id notify won.0 won.1
          (with_sessions (transition_to_closing id s.sessions).1 s))
]

pub fail_session-Shrinks :
    (id : ℕ) (notify : Bool) (s : Server)
    → IsSound s.sessions
    → Shrinks s (fail_session id notify s)
fail_session-Shrinks id notify s v = elim (Option-cases (transition_to_closing id s.sessions).0) [
  | inl q ↦ rw (fail_session-lost id notify s q) (Shrinks-refl s v)
  | inr (won, q) ↦
      let gone = fail_session-IsGone id notify s won v q in
      record {
        kept = λ j rt e. ground (arith, gone.no_session, gone.others_kept j, e);
        sound = rw (fail_session-won id notify s won q) (
            remove_session-IsSound (transition_to_closing id s.sessions).1 id
              (transition_to_closing-IsSound s.sessions id v));
        same_now = (fail_session-settings id notify s).0;
        same_config = (fail_session-settings id notify s).1;
      }
]

-- The verdict that the checks reach on a session at a server's time and with its timeouts.
abbrev pub verdict : Server → SessionRuntime → Verdict
verdict s rt = judge s.now s.config.client_timeout_ms s.config.apphost_timeout_ms (snapshot_from rt)

pub apply_verdict-Shrinks :
    (id : ℕ) (d : Verdict) (s : Server) → IsSound s.sessions → Shrinks s (apply_verdict id d s)
unfolding apply_verdict
apply_verdict-Shrinks id healthy s v = Shrinks-refl s v
apply_verdict-Shrinks id (fail notify) s v = fail_session-Shrinks id notify s v

pub check_timeouts-Shrinks :
    (snaps : List SessionSnapshot) (s : Server)
    → IsSound s.sessions
    → Shrinks s (check_timeouts snaps s)
unfolding check_timeouts
check_timeouts-Shrinks [] s v = Shrinks-refl s v
check_timeouts-Shrinks (snap ∷ snaps) s v =
    let one =
      apply_verdict-Shrinks snap.session_id
        (judge s.now s.config.client_timeout_ms s.config.apphost_timeout_ms snap) s v in
    Shrinks-trans one (check_timeouts-Shrinks snaps _ one.sound)

pub check_exits-Shrinks :
    (pids : List ℤ) (s : Server) → IsSound s.sessions → Shrinks s (check_exits pids s)
unfolding check_exits
check_exits-Shrinks [] s v = Shrinks-refl s v
check_exits-Shrinks (pid ∷ pids) s v =
    let id = Sessions.find_by_pid pid s.sessions in
    elim (Bool-cases (not (id == 0))) [
      | inl found ↦
          let one = fail_session-Shrinks id true s v in
          rw found (Shrinks-trans one (check_exits-Shrinks pids _ one.sound))
      | inr unknown ↦ rw unknown (check_exits-Shrinks pids s v)
    ]

-- A session that is to fail can still be closed, so that it is gone after the check.
pub failing-open :
    (now client_timeout apphost_timeout : ℕ) (rt : SessionRuntime) {notify : Bool}
    → judge now client_timeout apphost_timeout (snapshot_from rt) ≡ fail notify
    → cannot_close rt.state ≡ false
unfolding judge
failing-open now ct at rt e = by_state rt.state refl
  where
    by_state : (st : Sessions.SessionState) → rt.state ≡ st → cannot_close rt.state ≡ false
    by_state Sessions.spawning q = rw q refl
    by_state Sessions.active q = rw q refl
    by_state Sessions.closing q = absurd (ground (arith, e, q))
    by_state Sessions.dead q = absurd (ground (arith, e, q))

pub failing-gone :
    (id : ℕ) (rt : SessionRuntime) (s : Server) {notify : Bool}
    → IsSound s.sessions
    → session id s ≡ some rt
    → verdict s rt ≡ fail notify
    → session id (fail_session id notify s) ≡ none
failing-gone id rt s {notify} v e d =
    let open_still =
      failing-open s.now s.config.client_timeout_ms s.config.apphost_timeout_ms rt d in
    (fail_session-IsGone id notify s _ v
      (ap (λ r. r.0) (transition-won id s.sessions rt e open_still))).no_session
