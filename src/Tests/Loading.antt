-- ===== src/Tests/Loading.antt =====
-- The plugin loaders and the client's main program at concrete inputs.
use protocol_design.Prelude.{
  ℕ, ◌≡◌, refl, length, List, [], ◌∷◌, true, none, some, if◌then◌else◌, ◌==◌,
}
use protocol_design.Prelude.Int.{pos}
use protocol_design.Prelude.Text.{codes}
use protocol_design.Common.Dl.{Loading, held}
use protocol_design.Client.PluginLoader.{fresh_loader, close}
use protocol_design.Client.PluginLoader.Lifetime.{opened, close-opened}
use protocol_design.Client.Program.{ui_main}
use protocol_design.Apphost.PluginLoader

abbrev found : ℕ → Loading
found handle = record { handle = handle; open_error = none; symbol = 900; symbol_error = none }

-- A library without the entry point.
abbrev unnamed : Loading
unnamed = record (found 8) { symbol = 0; symbol_error = some (codes "undefined symbol") }

abbrev attempts : List Loading
attempts = found 7 ∷ unnamed ∷ found 7 ∷ found 9 ∷ []

close-opened_example :
    let l = opened attempts fresh_loader in
    (held l.actions ≡ some (if l.handle == 0 then [] else l.handle ∷ []))
    × (held (close l).actions ≡ some [])
    × ((close l).entry ≡ 0)
close-opened_example = close-opened attempts

-- The AppHost's loader forgets a library that it holds when it opens another.
forgotten :
    held
      (PluginLoader.destroy
        (PluginLoader.open_plugin
          (found 9)
          (PluginLoader.open_plugin (found 7) PluginLoader.fresh_loader).1).1).actions
    ≡ some (7 ∷ [])
unfolding PluginLoader.destroy PluginLoader.open_plugin
forgotten = refl

-- The number of arguments that reach the plugin, which is the one that is named last.
client_runs :
    (ui_main true
      (λ path. if length path == 1 then found 7 else unnamed)
      (λ args. pos (length args))
      (codes "client" ∷ codes "--plugin=abc" ∷ codes "--offline" ∷ codes "--plugin=x" ∷ [])).0
    ≡ pos 3
unfolding ui_main
client_runs = refl
