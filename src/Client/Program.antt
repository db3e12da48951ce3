-- ===== src/Client/Program.antt =====
-- src/client/main.cpp: the client's main program, which is the loader of its plugin. The plugin and
-- the desktop are given.
use protocol_design.Prelude.{ℕ, List, [], ◌∷◌, Bool, not, none, some, if◌then◌else◌, drop}
use protocol_design.Prelude.Int.{ℤ, pos}
use protocol_design.Prelude.Text.{codes, strip}
use protocol_design.Common.Dl.{Loading}
use protocol_design.Client.PluginLoader.{
  ClientPluginLoader, fresh_loader, open_plugin, run_plugin, close,
}

abbrev pub default_plugin_path : List ℕ
default_plugin_path = codes "libclient_viewer.so"

-- The last `--plugin=` counts.
unfoldable pub plugin_path_of : List (List ℕ) → List ℕ → List ℕ
plugin_path_of [] path = path
plugin_path_of (arg ∷ args) path =
    plugin_path_of args (elim (strip (codes "--plugin=") arg) [ none ↦ path | some value ↦ value ])

-- The result, and the loader after its destructor. All arguments behind the program go to the plugin.
unfoldable pub ui_main :
    Bool → (List ℕ → Loading) → (List (List ℕ) → ℤ) → List (List ℕ) → ℤ × ClientPluginLoader
unfolding plugin_path_of open_plugin run_plugin close
ui_main initialized linker plugin argv =
    if not initialized
    then (pos 101, fresh_loader)
    else let forwarded = drop 1 argv in
      let (opens, l) =
        open_plugin (linker (plugin_path_of forwarded default_plugin_path)) fresh_loader in
      if not opens then (pos 102, close l) else (run_plugin plugin forwarded l, close l)
