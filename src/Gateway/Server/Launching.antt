-- ===== src/Gateway/Server/Launching.antt =====
-- handle_spawn_app of src/gateway/gateway.cpp together with the process that it starts
-- (src/gateway/process_manager.cpp, src/apphost/main.cpp).
use protocol_design.Prelude.{
  ℕ, ◌^◌, ◌<◌, ◌≡◌, refl, ◌∙◌, List, [], ◌∷◌, ◌++◌, true, Option, some, arith,
}
use protocol_design.Prelude.Assoc.{lookup, insert, lookup-insert, nat_eq}
use protocol_design.Prelude.Int.{ℤ, pos, is_positive, int_eq}
use protocol_design.Gateway.Sessions
use protocol_design.Gateway.Server.{Connection, spawn, AppHostLaunchConfig}
use protocol_design.Gateway.Server.State.{Server, AppEntry}
use protocol_design.Gateway.Server.Handlers.{spawn_session}
use protocol_design.Gateway.Process.{arguments}
use protocol_design.Apphost.Options.{configure}
use protocol_design.Apphost.Options.Launch.{IsInt, IsCString, configure-arguments}

-- What a gateway and an entry of its allowlist must be like for a launch.
pub record CanLaunch (app : AppEntry) (s : Server) : Type 0 where
  pub session_ok : s.sessions.next_session_id < 2 ^ 32
  pub port_given : 0 < s.config.apphost_internal_port
  pub port_ok : s.config.apphost_internal_port < 2 ^ 16
  pub host_ok : IsCString s.config.apphost_bind_host
  pub plugin_ok : IsCString app.plugin_path
  pub width_ok : IsInt app.width
  pub height_ok : IsInt app.height

find_by_pid-set_apphost_pid :
    (t : Sessions.SessionTable) (conn : ℕ) (name path : List ℕ) (now timeout pid : ℕ)
    → 0 < pid
    → let created = (Sessions.create_spawning_session conn name path now timeout t).1 in
      Sessions.find_by_pid
        (pos pid)
        (Sessions.set_apphost_pid t.next_session_id (pos pid) created).1
      ≡ t.next_session_id
unfolding Sessions.find_by_pid Sessions.set_apphost_pid Sessions.create_spawning_session
find_by_pid-set_apphost_pid t conn name path now timeout pid h =
    let rt = Sessions.new_session t.next_session_id conn name path now timeout in
    let there : lookup t.next_session_id (insert t.next_session_id rt t.by_session) ≡ some rt =
      lookup-insert t.next_session_id t.next_session_id rt t.by_session ∙ ground arith in
    let positive : is_positive (pos pid) ≡ true = ground (arith, h) in
    let found : lookup (pos pid) (insert (pos pid) t.next_session_id t.by_pid)
        ≡ some t.next_session_id =
      lookup-insert (pos pid) (pos pid) t.next_session_id t.by_pid ∙ ground arith in
    rw (Sessions.set_apphost_pid, there, positive) (rw (Sessions.find_by_pid, found) refl)

-- What a launch leaves: one more thing is asked of the environment, a command line that the AppHost
-- reads as the gateway's address, the new session, and the plugin and size of the entry; and the
-- session table knows that session by the pid.
pub record Launched (conn : Connection) (app_name : List ℕ) (app : AppEntry) (s : Server) (pid : ℕ)
    : Type 0 where
  pub launch : AppHostLaunchConfig
  pub asked : (spawn_session conn app_name app s).io.effects ≡ s.io.effects ++ spawn launch ∷ []
  pub understood :
      configure (arguments launch)
      ≡ some (record {
        gateway_host = s.config.apphost_bind_host;
        gateway_port = s.config.apphost_internal_port;
        session_id = s.sessions.next_session_id;
        plugin_path = app.plugin_path;
        width = app.width;
        height = app.height;
      })
  pub known :
      Sessions.find_by_pid (pos pid) (spawn_session conn app_name app s).sessions
      ≡ s.sessions.next_session_id

-- When the fork of handle_spawn_app succeeds, all that is added to what is asked of the environment is a
-- launch whose command line the AppHost reads as the gateway's address, the new session, and the
-- plugin and size of the allowlist's entry; and the session table knows that session by the pid. The
-- gateway's port is not 0 and the numbers fit their C++ types, the host and the plugin's path contain
-- no 0 byte, and the pid is positive.
pub spawn_session-Launched :
    (conn : Connection) (app_name : List ℕ) (app : AppEntry) (s : Server) (pid : ℕ)
    (pids : List (Option ℤ))
    → CanLaunch app s
    → s.spawns ≡ some (pos pid) ∷ pids
    → 0 < pid
    → Launched conn app_name app s pid
unfolding spawn_session Sessions.create_spawning_session
spawn_session-Launched conn app_name app s pid pids v answered positive =
    let cfg : AppHostLaunchConfig = record {
      session_id = s.sessions.next_session_id;
      apphost_bin = s.config.apphost_bin;
      gateway_host = s.config.apphost_bind_host;
      gateway_port = s.config.apphost_internal_port;
      plugin_path = app.plugin_path;
      width = app.width;
      height = app.height;
    } in
    record {
      launch = cfg;
      asked = rw answered refl;
      understood = configure-arguments cfg (record {
        session_ok = v.session_ok;
        port_given = v.port_given;
        port_ok = v.port_ok;
        host_ok = v.host_ok;
        plugin_ok = v.plugin_ok;
        width_ok = v.width_ok;
        height_ok = v.height_ok;
      });
      known = rw answered (
          find_by_pid-set_apphost_pid s.sessions conn.id app_name app.plugin_path s.now
            s.config.spawn_timeout_ms pid positive);
    }
