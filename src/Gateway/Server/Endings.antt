-- ===== src/Gateway/Server/Endings.antt =====
-- The invariant of the gateway over the monitor and the shutdown of src/gateway/gateway.cpp.
use protocol_design.Prelude.{
  ℕ, List, [], ◌∷◌, Bool, true, false, not, ◌||◌, if◌then◌else◌, ◌==◌, Option-cases, inl, inr,
}
use protocol_design.Prelude.Assoc.{nat_eq}
use protocol_design.Prelude.Int.{ℤ}
use protocol_design.Gateway.Packets.{make_error}
use protocol_design.Gateway.Sessions
use protocol_design.Gateway.Sessions.{
  SessionTable, SessionSnapshot, Route, remove_by_client, remove_by_apphost, remove_session,
  transition_to_closing, snapshot_sessions,
}
use protocol_design.Gateway.Sessions.Soundness.{
  remove_session-IsSound, transition_to_closing-IsSound,
}
use protocol_design.Gateway.Server.{disable, disable_io_pool}
use protocol_design.Gateway.Server.State.{Server, emit}
use protocol_design.Gateway.Server.Monitor.{
  fail_session, fail_won, Verdict, healthy, fail, apply_verdict, check_timeouts, check_exits,
  monitor_round, fail_all, stop,
}
use protocol_design.Gateway.Server.Invariant.{
  IsValid, with_sessions-IsValid, emit-IsValid, send_to_client-IsValid,
}
use protocol_design.Gateway.Server.Preserved.{if-IsValid, terminate-IsValid}

fail_won-IsValid :
    (id : ℕ) (notify : Bool) (route : Route) (pid : ℤ) (s : Server)
    → IsValid s
    → IsValid (fail_won id notify route pid s)
unfolding fail_won
fail_won-IsValid id notify route pid s v =
    let told =
      if-IsValid (not notify || route.client_conn == 0) v
        (send_to_client-IsValid v route.client_conn (make_error id)) in
    let hushed =
      if-IsValid (not (route.apphost_conn == 0)) (emit-IsValid told (disable route.apphost_conn))
        told in
    let silent =
      if-IsValid (not (route.client_conn == 0)) (emit-IsValid hushed (disable route.client_conn))
        hushed in
    let ended = terminate-IsValid pid silent in
    with_sessions-IsValid ended (remove_session-IsSound _ id ended.table)

fail_session-IsValid :
    (id : ℕ) (notify : Bool) (s : Server) → IsValid s → IsValid (fail_session id notify s)
unfolding fail_session
fail_session-IsValid id notify s v =
    let closing = with_sessions-IsValid v (transition_to_closing-IsSound s.sessions id v.table) in
    elim (Option-cases (transition_to_closing id s.sessions).0) [
      | inl e ↦ rw (e, fail_session) closing
      | inr ((route, pid), e) ↦
          rw (e, fail_session) (fail_won-IsValid id notify route pid _ closing)
    ]

apply_verdict-IsValid :
    (id : ℕ) (d : Verdict) (s : Server) → IsValid s → IsValid (apply_verdict id d s)
unfolding apply_verdict
apply_verdict-IsValid id healthy s v = v
apply_verdict-IsValid id (fail notify) s v = fail_session-IsValid id notify s v

check_timeouts-IsValid :
    (snaps : List SessionSnapshot) (s : Server) → IsValid s → IsValid (check_timeouts snaps s)
unfolding check_timeouts
check_timeouts-IsValid [] s v = v
check_timeouts-IsValid (snap ∷ snaps) s v =
    check_timeouts-IsValid snaps _ (apply_verdict-IsValid snap.session_id _ s v)

check_exits-IsValid : (pids : List ℤ) (s : Server) → IsValid s → IsValid (check_exits pids s)
unfolding check_exits
check_exits-IsValid [] s v = v
check_exits-IsValid (pid ∷ pids) s v =
    let id = Sessions.find_by_pid pid s.sessions in
    check_exits-IsValid pids _ (if-IsValid (not (id == 0)) (fail_session-IsValid id true s v) v)

pub monitor_round-IsValid :
    (exited : List ℤ) (s : Server) → IsValid s → IsValid (monitor_round exited s)
unfolding monitor_round
monitor_round-IsValid exited s v =
    check_timeouts-IsValid (snapshot_sessions (check_exits exited s).sessions)
      (check_exits exited s) (check_exits-IsValid exited s v)

fail_all-IsValid :
    (snaps : List SessionSnapshot) (s : Server) → IsValid s → IsValid (fail_all snaps s)
unfolding fail_all
fail_all-IsValid [] s v = v
fail_all-IsValid (snap ∷ snaps) s v =
    fail_all-IsValid snaps _ (fail_session-IsValid snap.session_id false s v)

-- A listener is closed, unless it is closed already.
unlistened_client :
    (s : Server)
    → IsValid s
    → IsValid (
        if not (s.client_listen_id == 0)
        then record (emit (disable s.client_listen_id) s) { client_listen_id = 0 }
        else s)
unlistened_client s v =
    if-IsValid (not (s.client_listen_id == 0))
      (record {
        table = v.table;
        clients_named = v.clients_named;
        apphosts_named = v.apphosts_named;
      })
      v

unlistened_apphost :
    (s : Server)
    → IsValid s
    → IsValid (
        if not (s.apphost_listen_id == 0)
        then record (emit (disable s.apphost_listen_id) s) { apphost_listen_id = 0 }
        else s)
unlistened_apphost s v =
    if-IsValid (not (s.apphost_listen_id == 0))
      (record {
        table = v.table;
        clients_named = v.clients_named;
        apphosts_named = v.apphosts_named;
      })
      v

emptied :
    {s : Server}
    → IsValid s
    → IsValid (record (emit disable_io_pool s) { clients = []; apphosts = [] })
emptied v = record { table = v.table; clients_named = tt; apphosts_named = tt }

not_running : {s : Server} → IsValid s → IsValid (record s { running = false })
not_running v = record {
  table = v.table;
  clients_named = v.clients_named;
  apphosts_named = v.apphosts_named;
}

pub stop-IsValid : (s : Server) → IsValid s → IsValid (stop s)
unfolding stop
stop-IsValid s v =
    let failed =
      fail_all-IsValid (snapshot_sessions s.sessions) (record s { running = false })
        (not_running v) in
    if-IsValid (not s.running) v (emptied (unlistened_apphost _ (unlistened_client _ failed)))
