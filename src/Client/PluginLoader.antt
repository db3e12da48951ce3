-- ===== src/Client/PluginLoader.antt =====
-- src/client/plugin_loader.h and plugin_loader.cpp, on Linux: the loader of the client's plugin.
pub mod Lifetime
use protocol_design.Prelude.{
  ℕ, List, [], ◌∷◌, Bool, true, false, Option, none, some, if◌then◌else◌, ◌==◌,
}
use protocol_design.Prelude.Int.{ℤ, negsuc}
use protocol_design.Prelude.Text.{codes}
use protocol_design.Common.Dl.{Loading, Action, loads, unloads}

-- `actions` is what has been asked of the linker, the latest first.
pub record ClientPluginLoader : Type 0 where
  pub handle : ℕ
  pub entry : ℕ
  pub last_error : List ℕ
  pub actions : List Action

abbrev pub fresh_loader : ClientPluginLoader
fresh_loader = record { handle = 0; entry = 0; last_error = []; actions = [] }

-- Also the destructor.
unfoldable pub close : ClientPluginLoader → ClientPluginLoader
close l =
    if l.handle == 0
    then l
    else record l { handle = 0; entry = 0; actions = unloads l.handle ∷ l.actions }

abbrev pub error_text : Option (List ℕ) → List ℕ
error_text none = codes "dlopen failed"
error_text (some err) = err

unfoldable pub open_plugin : Loading → ClientPluginLoader → Bool × ClientPluginLoader
open_plugin dl l =
    let closed = record (close l) { last_error = [] } in
    if dl.handle == 0
    then (false, record closed { last_error = error_text dl.open_error })
    else elim dl.symbol_error [
      | some err ↦ (
        false,
        record closed {
          last_error = err;
          actions = unloads dl.handle ∷ loads dl.handle ∷ closed.actions;
        },
      )
      | none ↦ (
        true,
        record closed {
          handle = dl.handle;
          entry = dl.symbol;
          actions = loads dl.handle ∷ closed.actions;
        },
      )
    ]

-- The plugin is what a call of its entry point answers to the arguments.
unfoldable pub run_plugin : (List (List ℕ) → ℤ) → List (List ℕ) → ClientPluginLoader → ℤ
run_plugin plugin args l = if l.entry == 0 then negsuc 0 else plugin args
