-- ===== src/Gateway/Process.antt =====
-- src/gateway/process_manager.h and process_manager.cpp: how an AppHost is started, told to end and
-- waited for. What fork, execv, kill and waitpid answer is given.
use protocol_design.Prelude.{
  ℕ, List, [], ◌∷◌, ◌++◌, map, Bool, true, false, Option, none, some, if◌then◌else◌,
}
use protocol_design.Prelude.Int.{ℤ, pos, negsuc, is_positive}
use protocol_design.Prelude.Text.{codes, c_str, to_string, to_string_int}
use protocol_design.Gateway.Server.{AppHostLaunchConfig}

-- What `fork` answers.
pub data Fork : Type 0 where
  fork_failed in_child : Fork
  in_parent : ℤ → Fork

-- The command line of the child, the program first. The pointers are to C strings.
unfoldable pub arguments : AppHostLaunchConfig → List (List ℕ)
arguments cfg = map c_str (
    cfg.apphost_bin
    ∷ (codes "--session-id=" ++ to_string cfg.session_id)
    ∷ (codes "--gateway-host=" ++ cfg.gateway_host)
    ∷ (codes "--gateway-port=" ++ to_string cfg.gateway_port)
    ∷ (codes "--plugin=" ++ cfg.plugin_path)
    ∷ (codes "--width=" ++ to_string_int cfg.width)
    ∷ (codes "--height=" ++ to_string_int cfg.height)
    ∷ [])

-- `spawn_apphost` returns with the pid that it stores, or the process runs another program or ends.
pub data Outcome : Type 0 where
  returns : Bool → Option ℤ → Outcome
  becomes : List ℕ → List (List ℕ) → Outcome
  exits : ℕ → Outcome

-- `replaced` says that execv succeeds. `out` is not null.
unfoldable pub spawn_apphost : Fork → Bool → AppHostLaunchConfig → Outcome
unfolding arguments
spawn_apphost fork_failed replaced cfg = returns false none
spawn_apphost in_child replaced cfg =
    if replaced then becomes (c_str cfg.apphost_bin) (arguments cfg) else exits 127
spawn_apphost (in_parent pid) replaced cfg = returns true (some pid)

pub data Signal : Type 0 where
  sigterm sigkill : Signal

-- The result, and the signal that is sent. `delivered` is whether `kill` answers 0.
abbrev pub signal_process : Signal → Bool → ℤ → Bool × List (ℤ × Signal)
signal_process signal delivered pid =
    if is_positive pid then (delivered, (pid, signal) ∷ []) else (false, [])

unfoldable pub terminate : Bool → ℤ → Bool × List (ℤ × Signal)
terminate delivered pid = signal_process sigterm delivered pid

unfoldable pub kill_force : Bool → ℤ → Bool × List (ℤ × Signal)
kill_force delivered pid = signal_process sigkill delivered pid

pub record ExitedProcess : Type 0 where
  pub pid : ℤ
  pub status : ℕ
  pub exited : Bool
  pub exit_code : ℤ
  pub signaled : Bool
  pub signal : ℕ

-- WIFEXITED, WEXITSTATUS, WIFSIGNALED and WTERMSIG.
pub record WaitMacros : Type 0 where
  pub if_exited : ℕ → Bool
  pub exit_status : ℕ → ℕ
  pub if_signaled : ℕ → Bool
  pub term_signal : ℕ → ℕ

module _ (w : WaitMacros) where
  unfoldable pub make_exited : ℤ → ℕ → ExitedProcess
  make_exited pid status = record {
    pid = pid;
    status = status;
    exited = w.if_exited status;
    exit_code = if w.if_exited status then pos (w.exit_status status) else negsuc 0;
    signaled = w.if_signaled status;
    signal = if w.if_signaled status then w.term_signal status else 0;
  }

  -- The answers of the coming calls of waitpid; when they end, no other child has exited. What is left
  -- of them is for later calls.
  unfoldable pub reap_exited : List (ℤ × ℕ) → List ExitedProcess × List (ℤ × ℕ)
  unfolding make_exited
  reap_exited [] = ([], [])
  reap_exited ((pid, status) ∷ answers) =
      let (reaped, left) = reap_exited answers in
      if is_positive pid then (make_exited pid status ∷ reaped, left) else ([], answers)
