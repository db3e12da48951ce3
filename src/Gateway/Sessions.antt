-- ===== src/Gateway/Sessions.antt =====
-- src/gateway/session_manager.h and session_manager.cpp. Each method locks the table's mutex for its
-- whole body, so that it is one step: a function from a table to its result and the table after it.
-- Times are numbers; a call that reads the clock takes the time as an argument.
pub mod Soundness
pub mod Removal
pub mod Closing
use protocol_design.Prelude.{
  ℕ, zero, suc, ◌+◌, List, [], ◌∷◌, Bool, true, false, not, ◌&&◌, ◌||◌, Option, none, some, map,
  if◌then◌else◌, ◌==◌, u32,
}
use protocol_design.Prelude.Assoc.{lookup, insert, erase, nat_eq}
use protocol_design.Prelude.Int.{ℤ, pos, negsuc, int_eq, is_positive}

pub data SessionState : Type 0 where
  spawning active closing dead : SessionState

pub record SessionRuntime : Type 0 where
  pub session_id : ℕ
  pub state : SessionState
  pub client_conn : ℕ
  pub apphost_conn : ℕ
  pub apphost_pid : ℤ
  pub app_name : List ℕ
  pub plugin_path : List ℕ
  pub created_at : ℕ
  pub spawn_deadline : ℕ
  pub last_client_seen : ℕ
  pub last_apphost_seen : ℕ

pub record SessionSnapshot : Type 0 where
  pub session_id : ℕ
  pub state : SessionState
  pub client_conn : ℕ
  pub apphost_conn : ℕ
  pub apphost_pid : ℤ
  pub spawn_deadline : ℕ
  pub last_client_seen : ℕ
  pub last_apphost_seen : ℕ

pub record Route : Type 0 where
  pub client_conn : ℕ
  pub apphost_conn : ℕ

abbrev pub no_route : Route
no_route = record { client_conn = 0; apphost_conn = 0 }

pub record SessionTable : Type 0 where
  pub next_session_id : ℕ
  pub by_session : List (ℕ × SessionRuntime)
  pub by_client : List (ℕ × ℕ)
  pub by_apphost : List (ℕ × ℕ)
  pub by_pid : List (ℤ × ℕ)

abbrev pub empty : SessionTable
empty = record {
  next_session_id = 1;
  by_session = [];
  by_client = [];
  by_apphost = [];
  by_pid = [];
}

abbrev pub route_from : SessionRuntime → Route
route_from rt = record { client_conn = rt.client_conn; apphost_conn = rt.apphost_conn }

abbrev pub snapshot_from : SessionRuntime → SessionSnapshot
snapshot_from rt = record {
  session_id = rt.session_id;
  state = rt.state;
  client_conn = rt.client_conn;
  apphost_conn = rt.apphost_conn;
  apphost_pid = rt.apphost_pid;
  spawn_deadline = rt.spawn_deadline;
  last_client_seen = rt.last_client_seen;
  last_apphost_seen = rt.last_apphost_seen;
}

-- session_iter->second = rt, for a session that is in the table.
abbrev pub store : ℕ → SessionRuntime → SessionTable → SessionTable
store session_id rt t = record t { by_session = insert session_id rt t.by_session }

-- The runtime that `create_spawning_session` fills in.
abbrev pub new_session : ℕ → ℕ → List ℕ → List ℕ → ℕ → ℕ → SessionRuntime
new_session session_id client_conn app_name plugin_path now spawn_timeout = record {
  session_id = session_id;
  state = spawning;
  client_conn = client_conn;
  apphost_conn = 0;
  apphost_pid = negsuc 0;
  app_name = app_name;
  plugin_path = plugin_path;
  created_at = now;
  spawn_deadline = now + spawn_timeout;
  last_client_seen = now;
  last_apphost_seen = now;
}

unfoldable pub create_spawning_session :
    ℕ → List ℕ → List ℕ → ℕ → ℕ → SessionTable → ℕ × SessionTable
create_spawning_session client_conn app_name plugin_path now spawn_timeout t =
    let session_id = t.next_session_id in
    let rt = new_session session_id client_conn app_name plugin_path now spawn_timeout in
    (
      session_id,
      record t {
        next_session_id = u32 (t.next_session_id + 1);
        by_session = insert session_id rt t.by_session;
        by_client = insert client_conn session_id t.by_client;
      },
    )

unfoldable pub create_for_client : ℕ → ℕ → SessionTable → ℕ × SessionTable
create_for_client client_conn now t = create_spawning_session client_conn [] [] now 0 t

unfoldable pub set_apphost_pid : ℕ → ℤ → SessionTable → Bool × SessionTable
set_apphost_pid session_id pid t = elim (lookup session_id t.by_session) [
  | none ↦ (false, t)
  | some rt ↦
      let cleared =
        if is_positive rt.apphost_pid then erase rt.apphost_pid t.by_pid else t.by_pid in
      (
        true,
        record (store session_id (record rt { apphost_pid = pid }) t) {
          by_pid = if is_positive pid then insert pid session_id cleared else cleared;
        },
      )
]

abbrev pub is_dead : SessionState → Bool
is_dead dead = true
is_dead _ = false

unfoldable pub bind_apphost : ℕ → ℕ → ℕ → SessionTable → Bool × SessionTable
bind_apphost session_id apphost_conn now t = elim (lookup session_id t.by_session) [
  | none ↦ (false, t)
  | some rt ↦
      if is_dead rt.state
      then (false, t)
      else let cleared =
          if not (rt.apphost_conn == 0) then erase rt.apphost_conn t.by_apphost else t.by_apphost in
        (
          true,
          record (store session_id
              (record rt { apphost_conn = apphost_conn; state = active; last_apphost_seen = now })
              t) { by_apphost = insert apphost_conn session_id cleared },
        )
]

unfoldable pub find : ℕ → SessionTable → Route
find session_id t = elim (lookup session_id t.by_session) [
  | none ↦ no_route
  | some rt ↦ route_from rt
]

unfoldable pub find_apphost : ℕ → SessionTable → ℕ
unfolding find
find_apphost session_id t = (find session_id t).apphost_conn

unfoldable pub find_client : ℕ → SessionTable → ℕ
unfolding find
find_client session_id t = (find session_id t).client_conn

unfoldable pub find_by_pid : ℤ → SessionTable → ℕ
find_by_pid pid t = elim (lookup pid t.by_pid) [ none ↦ 0 | some session_id ↦ session_id ]

abbrev pub is_active_or_spawning : SessionState → Bool
is_active_or_spawning spawning = true
is_active_or_spawning active = true
is_active_or_spawning closing = false
is_active_or_spawning dead = false

unfoldable pub has_active_or_spawning_for_client : ℕ → SessionTable → Bool
has_active_or_spawning_for_client client_conn t = elim (lookup client_conn t.by_client) [
  | none ↦ false
  | some session_id ↦ elim (lookup session_id t.by_session) [
    | none ↦ false
    | some rt ↦ is_active_or_spawning rt.state
  ]
]

unfoldable pub mark_client_seen : ℕ → ℕ → SessionTable → Bool × SessionTable
mark_client_seen session_id now t = elim (lookup session_id t.by_session) [
  | none ↦ (false, t)
  | some rt ↦ (true, store session_id (record rt { last_client_seen = now }) t)
]

unfoldable pub mark_apphost_seen : ℕ → ℕ → SessionTable → Bool × SessionTable
mark_apphost_seen session_id now t = elim (lookup session_id t.by_session) [
  | none ↦ (false, t)
  | some rt ↦ (true, store session_id (record rt { last_apphost_seen = now }) t)
]

unfoldable pub snapshot_sessions : SessionTable → List SessionSnapshot
snapshot_sessions t = map (λ item. snapshot_from item.1) t.by_session

abbrev pub cannot_close : SessionState → Bool
cannot_close spawning = false
cannot_close active = false
cannot_close closing = true
cannot_close dead = true

-- `none` is the result false, which leaves both out parameters alone.
unfoldable pub transition_to_closing : ℕ → SessionTable → Option (Route × ℤ) × SessionTable
transition_to_closing session_id t = elim (lookup session_id t.by_session) [
  | none ↦ (none, t)
  | some rt ↦ if cannot_close rt.state then (none, t) else (
    some (route_from (record rt { state = closing }), rt.apphost_pid),
    store session_id (record rt { state = closing }) t,
  )
]

unfoldable pub get_pid : ℕ → SessionTable → Option ℤ
get_pid session_id t = elim (lookup session_id t.by_session) [
  | none ↦ none
  | some rt ↦ some rt.apphost_pid
]

-- The erasures that the three removals share: an index entry goes with the handle that it is for.
abbrev pub without_client : SessionRuntime → SessionTable → List (ℕ × ℕ)
without_client rt t =
    if not (rt.client_conn == 0) then erase rt.client_conn t.by_client else t.by_client

abbrev pub without_apphost : SessionRuntime → SessionTable → List (ℕ × ℕ)
without_apphost rt t =
    if not (rt.apphost_conn == 0) then erase rt.apphost_conn t.by_apphost else t.by_apphost

abbrev pub without_pid : SessionRuntime → SessionTable → List (ℤ × ℕ)
without_pid rt t = if is_positive rt.apphost_pid then erase rt.apphost_pid t.by_pid else t.by_pid

unfoldable pub remove_session : ℕ → SessionTable → SessionTable
remove_session session_id t = elim (lookup session_id t.by_session) [
  | none ↦ t
  | some rt ↦ record t {
    by_client = without_client rt t;
    by_apphost = without_apphost rt t;
    by_pid = without_pid rt t;
    by_session = erase session_id t.by_session;
  }
]

unfoldable pub remove_by_client : ℕ → SessionTable → ℕ × SessionTable
remove_by_client client_conn t = elim (lookup client_conn t.by_client) [
  | none ↦ (0, t)
  | some session_id ↦
      let t' : SessionTable = elim (lookup session_id t.by_session) [
        | none ↦ t
        | some rt ↦ record t {
          by_apphost = without_apphost rt t;
          by_pid = without_pid rt t;
          by_session = erase session_id t.by_session;
        }
      ] in
      (session_id, record t' { by_client = erase client_conn t'.by_client })
]

unfoldable pub remove_by_apphost : ℕ → SessionTable → ℕ × SessionTable
remove_by_apphost apphost_conn t = elim (lookup apphost_conn t.by_apphost) [
  | none ↦ (0, t)
  | some session_id ↦
      let t' : SessionTable = elim (lookup session_id t.by_session) [
        | none ↦ t
        | some rt ↦ record t {
          by_client = without_client rt t;
          by_pid = without_pid rt t;
          by_session = erase session_id t.by_session;
        }
      ] in
      (session_id, record t' { by_apphost = erase apphost_conn t'.by_apphost })
]
