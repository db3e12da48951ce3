-- ===== src/Apphost/PluginLoader.antt =====
-- src/apphost/plugin_loader.h and plugin_loader.cpp: the loader of an AppHost's plugin.
pub mod Once
use protocol_design.Prelude.{
  ℕ, List, [], ◌∷◌, Bool, true, false, Option, none, some, if◌then◌else◌, ◌==◌,
}
use protocol_design.Prelude.Int.{ℤ, negsuc}
use protocol_design.Prelude.Text.{codes}
use protocol_design.Common.Dl.{Loading, Action, loads, unloads}

-- `actions` is what has been asked of the linker, the latest first.
pub record PluginLoader : Type 0 where
  pub handle : ℕ
  pub entry : ℕ
  pub last_error : List ℕ
  pub actions : List Action

abbrev pub fresh_loader : PluginLoader
fresh_loader = record { handle = 0; entry = 0; last_error = []; actions = [] }

-- The destructor.
unfoldable pub destroy : PluginLoader → PluginLoader
destroy l =
    if l.handle == 0
    then l
    else record l { handle = 0; entry = 0; actions = unloads l.handle ∷ l.actions }

-- What was open before stays open: its handle is overwritten.
unfoldable pub open_plugin : Loading → PluginLoader → Bool × PluginLoader
open_plugin dl l =
    if dl.handle == 0
    then (
      false,
      record l {
        last_error = elim dl.open_error [ none ↦ codes "dlopen failed" | some err ↦ err ];
      },
    )
    else elim dl.symbol_error [
      | some err ↦ (
        false,
        record l { last_error = err; actions = unloads dl.handle ∷ loads dl.handle ∷ l.actions },
      )
      | none ↦ (
        true,
        record {
          handle = dl.handle;
          entry = dl.symbol;
          last_error = [];
          actions = loads dl.handle ∷ l.actions;
        },
      )
    ]

-- The plugin is what a call of its entry point answers; it gets no arguments.
unfoldable pub run_plugin : (List (List ℕ) → ℤ) → PluginLoader → ℤ
run_plugin plugin l = if l.entry == 0 then negsuc 0 else plugin []
