-- ===== src/Tests/Launch.antt =====
-- Command lines, from the gateway's own to the one that it gives an AppHost, at concrete inputs.
use protocol_design.Prelude.{ℕ, ◌≡◌, refl, List, [], ◌∷◌, true, none, some, if◌then◌else◌, arith}
use protocol_design.Prelude.Int.{pos, negsuc}
use protocol_design.Prelude.Text.{codes, strtoul, strtol, to_string, digits, read_digits}
use protocol_design.Gateway.Server.{AppHostLaunchConfig}
use protocol_design.Gateway.Server.State.{Server, Config}
use protocol_design.Gateway.Sessions.{empty}
use protocol_design.Gateway.Server.{fresh_connection}
use protocol_design.Gateway.Server.State.{AppEntry}
use protocol_design.Gateway.Server.Launching.{CanLaunch, Launched, spawn_session-Launched}
use protocol_design.Tests.Server.{server}
use protocol_design.Gateway.Process.{arguments}
use protocol_design.Gateway.Options
use protocol_design.Gateway.Options.{same_text, new_entry}
use protocol_design.Gateway.Options.Accepted.{IsUsable, configure-IsUsable}
use protocol_design.Apphost.Options.{configure}
use protocol_design.Apphost.Options.Launch.{IsLaunch, configure-arguments}

abbrev launch : AppHostLaunchConfig
launch = record {
  session_id = 7;
  apphost_bin = codes "/bin/apphost";
  gateway_host = codes "127.0.0.1";
  gateway_port = 19001;
  plugin_path = codes "/lib/demo.so";
  width = pos 800;
  height = negsuc 0;
}

launch-IsLaunch : IsLaunch launch
launch-IsLaunch = record {
  session_ok = omega arith;
  port_given = omega arith;
  port_ok = omega arith;
  host_ok = omega arith;
  plugin_ok = omega arith;
  width_ok = omega arith;
  height_ok = omega arith;
}

configure-arguments_example :
    configure (arguments launch)
    ≡ some (record {
      gateway_host = codes "127.0.0.1";
      gateway_port = 19001;
      session_id = 7;
      plugin_path = codes "/lib/demo.so";
      width = pos 800;
      height = negsuc 0;
    })
configure-arguments_example = configure-arguments launch launch-IsLaunch

printed : to_string 19001 ≡ codes "19001"
unfolding to_string digits
printed = refl

hexadecimal : strtoul (codes " 0x1Fz") ≡ some (31, codes "z")
unfolding strtoul read_digits
hexadecimal = refl

no_octal : strtol true (codes "-08") ≡ some (pos 0, codes "8")
unfolding strtol read_digits
no_octal = refl

largest : strtoul (codes "18446744073709551616") ≡ some (18446744073709551615, [])
unfolding strtoul read_digits
largest = refl

abbrev command_line : List (List ℕ)
command_line =
    codes "gateway"
    ∷ codes "--public-port"
    ∷ codes "8080"
    ∷ codes "--apphost-bin=/bin/apphost"
    ∷ codes "--app=demo=/lib/demo.so"
    ∷ []

abbrev started : Config
started = record {
  public_port = 8080;
  apphost_bind_host = codes "127.0.0.1";
  apphost_internal_port = 19001;
  apphost_bin = codes "/bin/apphost";
  auto_spawn_apphost = true;
  spawn_timeout_ms = 5000;
  client_timeout_ms = 90000;
  apphost_timeout_ms = 90000;
  app_allowlist =
      λ key. if same_text (codes "demo") key then some (new_entry (codes "/lib/demo.so")) else none;
}

command_line_read : Options.configure command_line ≡ some started
unfolding Options.configure Options.read_options Options.read_option Options.value_of
    Options.app_option Options.read_app Options.parse_port_arg strtol read_digits
command_line_read = refl

configure-IsUsable_example : IsUsable started
configure-IsUsable_example = configure-IsUsable command_line started command_line_read

-- A port that does not fit is refused.
large_port : Options.configure (codes "gateway" ∷ codes "--public-port=65536" ∷ []) ≡ none
unfolding Options.configure Options.read_options Options.read_option Options.value_of
    Options.parse_port_arg strtol read_digits
large_port = refl

-- A fork that answers 42.
abbrev forking : Server
forking = record (server empty) { config = started; spawns = some (pos 42) ∷ [] }

abbrev demo : AppEntry
demo = new_entry (codes "/lib/demo.so")

forking-CanLaunch : CanLaunch demo forking
forking-CanLaunch = record {
  session_ok = omega arith;
  port_given = omega arith;
  port_ok = omega arith;
  host_ok = omega arith;
  plugin_ok = omega arith;
  width_ok = omega arith;
  height_ok = omega arith;
}

spawn_session_example : Launched (fresh_connection 3 7 1) (codes "demo") demo forking 42
spawn_session_example =
    spawn_session-Launched (fresh_connection 3 7 1) (codes "demo") demo forking 42 []
      forking-CanLaunch refl (omega arith)
