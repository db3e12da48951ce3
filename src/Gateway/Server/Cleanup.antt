-- ===== src/Gateway/Server/Cleanup.antt =====
-- How the gateway ends a session (src/gateway/gateway.cpp: close_session, fail_session, stop).
use protocol_design.Prelude.{
  ℕ, ◌≡◌, refl, sym, ap, subst, ◌∙◌, Bool, Option, none, some, arith, Option-cases, inl, inr,
}
use protocol_design.Prelude.Assoc.{lookup, nat_eq}
use protocol_design.Prelude.Int.{ℤ}
use protocol_design.Gateway.Sessions.{SessionTable, Route, transition_to_closing, remove_session}
use protocol_design.Gateway.Sessions.Soundness.{IsSound, transition_to_closing-IsSound}
use protocol_design.Gateway.Sessions.Removal.{IsGone, remove_session-IsGone}
use protocol_design.Gateway.Sessions.Closing.{
  transition-lost, transition-others, transition_to_closing_once,
}
use protocol_design.Gateway.Server.State.{Server, with_sessions, send_to_client, send_to_apphost}
use protocol_design.Gateway.Server.Handlers.{close_routed}
use protocol_design.Gateway.Server.Monitor.{fail_won, fail_session}

-- What is said to the peers and to the process does not touch the table.
close_routed-sessions :
    (id : ℕ) (s : Server) → (close_routed id s).sessions ≡ remove_session id s.sessions
unfolding close_routed send_to_client send_to_apphost
close_routed-sessions id s = ground arith

-- On a sound table, closing a session takes it out of the table and its indexes, and leaves the
-- other sessions as they were.
pub close_routed-IsGone :
    (id : ℕ) (s : Server) → IsSound s.sessions → IsGone id s.sessions (close_routed id s).sessions
close_routed-IsGone id s v =
    subst (IsGone id s.sessions) (sym (close_routed-sessions id s))
      (remove_session-IsGone s.sessions id v)

fail_won-sessions :
    (id : ℕ) (notify : Bool) (route : Route) (pid : ℤ) (s : Server)
    → (fail_won id notify route pid s).sessions ≡ remove_session id s.sessions
unfolding fail_won send_to_client
fail_won-sessions id notify route pid s = ground arith

-- A call that does not win the session changes nothing.
pub fail_session-lost :
    (id : ℕ) (notify : Bool) (s : Server)
    → (transition_to_closing id s.sessions).0 ≡ none
    → fail_session id notify s ≡ s
unfolding fail_session
fail_session-lost id notify s q =
    rw (q, fail_session)
      (ap (λ (r : Option (Route × ℤ) × SessionTable). with_sessions r.1 s)
        (transition-lost id s.sessions q))

fail_session-goes_on :
    (id : ℕ) (notify : Bool) (s : Server) (won : Route × ℤ)
    → (transition_to_closing id s.sessions).0 ≡ some won
    → fail_session id notify s
      ≡ fail_won id notify won.0 won.1 (with_sessions (transition_to_closing id s.sessions).1 s)
unfolding fail_session
fail_session-goes_on id notify s won q = rw (q, fail_session) refl

pub fail_session-won :
    (id : ℕ) (notify : Bool) (s : Server) (won : Route × ℤ)
    → (transition_to_closing id s.sessions).0 ≡ some won
    → (fail_session id notify s).sessions
      ≡ remove_session id (transition_to_closing id s.sessions).1
unfolding fail_session
fail_session-won id notify s won q =
    rw (q, fail_session)
      (fail_won-sessions id notify won.0 won.1
        (with_sessions (transition_to_closing id s.sessions).1 s))

-- On a sound table, a call that wins the session takes it out of the table and its indexes, and
-- leaves the other sessions as they were.
pub fail_session-IsGone :
    (id : ℕ) (notify : Bool) (s : Server) (won : Route × ℤ)
    → IsSound s.sessions
    → (transition_to_closing id s.sessions).0 ≡ some won
    → IsGone id s.sessions (fail_session id notify s).sessions
fail_session-IsGone id notify s won v q =
    let t = (transition_to_closing id s.sessions).1 in
    let gone = remove_session-IsGone t id (transition_to_closing-IsSound s.sessions id v) in
    rw (fail_session-won id notify s won q) (record {
      no_session = gone.no_session;
      no_route_left = gone.no_route_left;
      not_by_client = gone.not_by_client;
      not_by_apphost = gone.not_by_apphost;
      not_by_pid = gone.not_by_pid;
      others_kept = λ j n. gone.others_kept j n ∙ transition-others id j s.sessions n;
    })

transition-absent :
    (id : ℕ) (t : SessionTable)
    → lookup id t.by_session ≡ none
    → (transition_to_closing id t).0 ≡ none
unfolding transition_to_closing
transition-absent id t e = rw (e, transition_to_closing) refl

-- On a sound table, failing a session twice is failing it once: the second call changes nothing and
-- asks for nothing.
pub fail_session_once :
    (id : ℕ) (notify again : Bool) (s : Server)
    → IsSound s.sessions
    → fail_session id again (fail_session id notify s) ≡ fail_session id notify s
fail_session_once id notify again s v =
    elim (Option-cases (transition_to_closing id s.sessions).0) [
      | inl q ↦ rw (fail_session-lost id notify s q) (fail_session-lost id again s q)
      | inr (won, q) ↦ fail_session-lost id again (fail_session id notify s) (
          transition-absent id (fail_session id notify s).sessions
            (fail_session-IsGone id notify s won v q).no_session)
    ]

-- On a sound table, a session is cleaned up once: after a call has moved it to CLOSING, another
-- call for it changes nothing and asks for nothing, both before the first call goes on to end the
-- session and after that, if nothing else is done meanwhile.
pub fail_session_single :
    (id : ℕ) (notify again : Bool) (s : Server) (won : Route × ℤ)
    → IsSound s.sessions
    → (transition_to_closing id s.sessions).0 ≡ some won
    → let during = with_sessions (transition_to_closing id s.sessions).1 s in
      let ended = fail_won id notify won.0 won.1 during in
      (fail_session id again during ≡ during) × (fail_session id again ended ≡ ended)
fail_session_single id notify again s won v q =
    let during = with_sessions (transition_to_closing id s.sessions).1 s in
    let ended = fail_won id notify won.0 won.1 during in
    let whole = fail_session-goes_on id notify s won q in
    (
      fail_session-lost id again during
          (ap (λ r. r.0) (transition_to_closing_once id s.sessions won q)),
      subst (λ u. fail_session id again u ≡ u) whole (fail_session_once id notify again s v),
    )
