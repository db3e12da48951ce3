-- ===== src/Gateway/Server/Monitor.antt =====
-- The monitor thread and the shutdown of src/gateway/gateway.cpp: sessions fail when their AppHost
-- exits, does not report in time, or when either side is silent for too long.
use protocol_design.Prelude.{
  ℕ, ◌+◌, List, [], ◌∷◌, Bool, true, false, not, ◌||◌, none, some, if◌then◌else◌, ◌==◌, ltb,
}
use protocol_design.Prelude.Int.{ℤ}
use protocol_design.Gateway.Packets.{make_error}
use protocol_design.Gateway.Sessions
use protocol_design.Gateway.Sessions.{
  SessionTable, SessionSnapshot, SessionState, Route, spawning, active, closing, dead,
}
use protocol_design.Gateway.Server.{disable, disable_io_pool}
use protocol_design.Gateway.Server.State.{Server, with_sessions, emit, send_to_client}
use protocol_design.Gateway.Server.Handlers.{terminate_if_running}

-- The cleanup of `fail_session`, once it has won the session.
unfoldable pub fail_won : ℕ → Bool → Route → ℤ → Server → Server
fail_won session_id notify_client_error route pid s =
    let s₁ =
      if not notify_client_error || route.client_conn == 0
      then s
      else send_to_client route.client_conn (make_error session_id) s in
    let s₂ = if not (route.apphost_conn == 0) then emit (disable route.apphost_conn) s₁ else s₁ in
    let s₃ = if not (route.client_conn == 0) then emit (disable route.client_conn) s₂ else s₂ in
    let s₄ = terminate_if_running pid s₃ in
    with_sessions (Sessions.remove_session session_id s₄.sessions) s₄

unfoldable pub fail_session : ℕ → Bool → Server → Server
unfolding fail_won
fail_session session_id notify_client_error s =
    let (won, t) = Sessions.transition_to_closing session_id s.sessions in
    elim won [
      | none ↦ with_sessions t s
      | some (route, pid) ↦ fail_won session_id notify_client_error route pid (with_sessions t s)
    ]

-- What the timeout checks say of a snapshot: leave it, or fail it with or without telling the client.
pub data Verdict : Type 0 where
  healthy : Verdict
  fail : Bool → Verdict

-- A difference of time points is signed: a time that is later than `now` is not long ago.
unfoldable pub judge : ℕ → ℕ → ℕ → SessionSnapshot → Verdict
judge now client_timeout apphost_timeout snap = elim snap.state [
  | spawning ↦ if ltb snap.spawn_deadline now then fail true else healthy
  | active ↦
      if ltb (snap.last_client_seen + client_timeout) now
      then fail false
      else if ltb (snap.last_apphost_seen + apphost_timeout) now
      then fail true
      else healthy
  | closing ↦ healthy
  | dead ↦ healthy
]

unfoldable pub apply_verdict : ℕ → Verdict → Server → Server
apply_verdict session_id healthy s = s
apply_verdict session_id (fail notify) s = fail_session session_id notify s

unfoldable pub check_timeouts : List SessionSnapshot → Server → Server
unfolding judge apply_verdict
check_timeouts [] s = s
check_timeouts (snap ∷ snaps) s = check_timeouts snaps (
    apply_verdict snap.session_id
      (judge s.now s.config.client_timeout_ms s.config.apphost_timeout_ms snap) s)

-- The exits that `reap_exited` found.
unfoldable pub check_exits : List ℤ → Server → Server
check_exits [] s = s
check_exits (pid ∷ pids) s =
    let session_id = Sessions.find_by_pid pid s.sessions in
    check_exits pids (if not (session_id == 0) then fail_session session_id true s else s)

-- One round of `monitor_loop` after its sleep.
unfoldable pub monitor_round : List ℤ → Server → Server
unfolding check_exits check_timeouts
monitor_round exited s =
    let s₁ = check_exits exited s in check_timeouts (Sessions.snapshot_sessions s₁.sessions) s₁

unfoldable pub fail_all : List SessionSnapshot → Server → Server
fail_all [] s = s
fail_all (snap ∷ snaps) s = fail_all snaps (fail_session snap.session_id false s)

-- `stop`, up to the joins and waits on threads that do not touch this state.
unfoldable pub stop : Server → Server
unfolding fail_all
stop s =
    if not s.running
    then s
    else let s₁ = fail_all (Sessions.snapshot_sessions s.sessions) (record s { running = false }) in
      let s₂ =
        if not (s₁.client_listen_id == 0)
        then record (emit (disable s₁.client_listen_id) s₁) { client_listen_id = 0 }
        else s₁ in
      let s₃ =
        if not (s₂.apphost_listen_id == 0)
        then record (emit (disable s₂.apphost_listen_id) s₂) { apphost_listen_id = 0 }
        else s₂ in
      record (emit disable_io_pool s₃) { clients = []; apphosts = [] }
