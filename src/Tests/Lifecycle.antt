-- ===== src/Tests/Lifecycle.antt =====
-- The gateway from its start to its end, at concrete answers of IoPool, and the start of the viewer.
use Prim.Native.Nat.{◌^◌}
use protocol_design.Prelude.{ℕ, ◌≡◌, ◌<◌, refl, List, [], ◌∷◌, true, false, none, some, arith}
use protocol_design.Prelude.Text.{codes, c_str, strtol}
use protocol_design.Gateway.Options.{default_settings}
use protocol_design.Gateway.Server.{disable, disable_io_pool}
use protocol_design.Gateway.Server.State.{Server, FileAccess}
use protocol_design.Gateway.Server.Handlers.{on_client_listen_event}
use protocol_design.Gateway.Server.Monitor.{monitor_round, stop}
use protocol_design.Gateway.Server.Invariant.{IsValid}
use protocol_design.Gateway.Server.Start.{
  Listen, fresh_server, start, destroy, fresh_server-IsValid, destroy-start,
}
use protocol_design.Gateway.Server.Reachable.{
  here, later, starts, accepts_client, monitors, stops, Runs-IsValid,
}
use protocol_design.Plugins.Viewer.{ViewerOptions, default_options, read_arg, start_viewer}
use protocol_design.Plugins.Viewer.Arguments.{
  words, tokens, stoi, first_match, read_tokens, parse_options,
}
use protocol_design.Plugins.Viewer.Clicks.{IsShown}
use protocol_design.Plugins.Viewer.Shown.{start_viewer-IsShown}
use protocol_design.Tests.Screen.{colors}
use protocol_design.Tests.Endpoints.{small_viewer}

abbrev all_files : FileAccess
all_files = record { executable = λ _. true; readable = λ _. true }

abbrev fresh : Server
fresh = fresh_server all_files [] [] 0

abbrev handle_five : Listen
handle_five = record { id = 5; cancelled = false }

abbrev handle_six : Listen
handle_six = record { id = 6; cancelled = false }

abbrev started : Server
started = (start false handle_five handle_six default_settings.config fresh).1

abbrev joined : Server
joined = on_client_listen_event (some 3) 7 false started

Runs-IsValid_example : IsValid (stop (monitor_round [] joined))
Runs-IsValid_example =
    Runs-IsValid (fresh_server-IsValid all_files [] [] 0)
      (later _
        (later _
          (later _
            (later _ here (starts fresh false handle_five handle_six default_settings.config))
            (accepts_client started (some 3) 7 false))
          (monitors joined []))
        (stops (monitor_round [] joined)))
      ((((tt, tt), λ e. omega arith), tt), tt)

destroy-start_example :
    ((destroy started).io.effects ≡ disable 5 ∷ disable 6 ∷ disable_io_pool ∷ [])
    × ((destroy started).running ≡ false)
destroy-start_example =
    destroy-start all_files [] [] 0 false handle_five handle_six default_settings.config

abbrev viewer_args : List (List ℕ)
viewer_args =
    codes "--app=game  --canvas-width=160"
    ∷ codes "--canvas-height=200"
    ∷ codes "--display-scale=4"
    ∷ codes "--gateway-port=70000"
    ∷ []

abbrev viewer_options : ViewerOptions
viewer_options = record (default_options) {
  app_name = codes "game";
  offline = false;
  canvas_width = 160;
  canvas_height = 200;
  display_scale = 4;
}

args_parsed : parse_options viewer_args ≡ some viewer_options
unfolding parse_options tokens words read_tokens first_match stoi c_str strtol read_arg
args_parsed = refl

number_missing : parse_options (codes "--canvas-width=wide" ∷ []) ≡ none
unfolding parse_options tokens words read_tokens first_match stoi c_str strtol read_arg
number_missing = refl

start_viewer-IsShown_example :
    (0 < viewer_options.gateway_port)
    × (viewer_options.gateway_port < 2 ^ 16)
    × IsShown (start_viewer colors viewer_options small_viewer)
    × (0 < (start_viewer colors viewer_options small_viewer).display_width)
    × (0 < (start_viewer colors viewer_options small_viewer).display_height)
start_viewer-IsShown_example =
    start_viewer-IsShown viewer_args viewer_options colors small_viewer args_parsed (omega arith)
      (omega arith)
