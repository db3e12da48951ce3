-- ===== src/Apphost/PluginLoader/Once.antt =====
-- What the loader of src/apphost/plugin_loader.cpp holds of the dynamic linker.
use protocol_design.Prelude.{◌≡◌, refl, [], ◌∷◌, some, ◌==◌, Bool-cases, Option-cases, inl, inr}
use protocol_design.Common.Dl.{Loading, loads, held, held-unloads}
use protocol_design.Apphost.PluginLoader.{fresh_loader, destroy, open_plugin}

-- One plugin, whether it opens or not, leaves nothing of itself in the process.
pub destroy-open_plugin :
    (dl : Loading) → held (destroy (open_plugin dl fresh_loader).1).actions ≡ some []
unfolding destroy open_plugin
destroy-open_plugin dl = elim (Bool-cases (dl.handle == 0)) [
  | inl failed ↦ rw failed refl
  | inr got ↦ elim (Option-cases dl.symbol_error) [
    | inl found ↦ rw (got, found) (rw got (held-unloads dl.handle (loads dl.handle ∷ []) refl))
    | inr (err, missing) ↦ rw (got, missing) (held-unloads dl.handle (loads dl.handle ∷ []) refl)
  ]
]
