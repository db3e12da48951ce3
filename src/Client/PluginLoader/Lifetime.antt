-- ===== src/Client/PluginLoader/Lifetime.antt =====
-- What the loader of src/client/plugin_loader.cpp holds of the dynamic linker.
use protocol_design.Prelude.{
  ◌≡◌, refl, List, [], ◌∷◌, some, if◌then◌else◌, ◌==◌, arith, Bool-cases, Option-cases, inl, inr,
}
use protocol_design.Common.Dl.{Loading, loads, held, held-loads, held-unloads}
use protocol_design.Client.PluginLoader.{ClientPluginLoader, fresh_loader, close, open_plugin}

-- The loader holds its handle once, and nothing else.
record IsOwner (l : ClientPluginLoader) : Type 0 where
  owns : held l.actions ≡ some (if l.handle == 0 then [] else l.handle ∷ [])
  no_entry : (if l.handle == 0 then l.entry else 0) ≡ 0

close-nothing :
    (l : ClientPluginLoader)
    → IsOwner l
    → (held (close l).actions ≡ some []) × ((close l).handle ≡ 0) × ((close l).entry ≡ 0)
unfolding close
close-nothing l v = elim (Bool-cases (l.handle == 0)) [
  | inl none_held ↦
      let owned : held l.actions ≡ some [] = ground (arith, none_held, v.owns) in
      rw none_held (owned, ground (arith, none_held), ground (arith, none_held, v.no_entry))
  | inr some_held ↦
      let owned : held l.actions ≡ some (l.handle ∷ []) = ground (arith, some_held, v.owns) in
      rw some_held (held-unloads l.handle l.actions owned, refl, refl)
]

open_plugin-IsOwner :
    (dl : Loading) (l : ClientPluginLoader) → IsOwner l → IsOwner (open_plugin dl l).1
unfolding open_plugin
open_plugin-IsOwner dl l v =
    let (actions, handle, entry) = close-nothing l v in
    elim (Bool-cases (dl.handle == 0)) [
      | inl failed ↦
          rw failed
            (record { owns = rw (actions, handle) refl; no_entry = rw (entry, handle) refl })
      | inr got ↦ elim (Option-cases dl.symbol_error) [
        | inl found ↦
            rw (got, found)
              (record {
                owns = rw got (held-loads dl.handle (close l).actions actions);
                no_entry = rw got refl;
              })
        | inr (err, missing) ↦
            rw (got, missing)
              (record {
                owns = rw handle (
                    held-unloads dl.handle (loads dl.handle ∷ (close l).actions)
                      (held-loads dl.handle (close l).actions actions));
                no_entry = rw (entry, handle) refl;
              })
      ]
    ]

-- Plugins opened one after the other by one loader.
abbrev pub opened : List Loading → ClientPluginLoader → ClientPluginLoader
opened [] l = l
opened (dl ∷ dls) l = opened dls (open_plugin dl l).1

opened-IsOwner : (dls : List Loading) (l : ClientPluginLoader) → IsOwner l → IsOwner (opened dls l)
opened-IsOwner [] l v = v
opened-IsOwner (dl ∷ dls) l v = opened-IsOwner dls (open_plugin dl l).1 (open_plugin-IsOwner dl l v)

-- However many plugins a loader opens one after the other, and whichever of them fail: it never gives back
-- a library that it does not hold, it holds the library of its handle alone, and once it is destroyed
-- it holds none and has no entry point left to run.
pub close-opened :
    (dls : List Loading)
    → let l = opened dls fresh_loader in
      (held l.actions ≡ some (if l.handle == 0 then [] else l.handle ∷ []))
      × (held (close l).actions ≡ some [])
      × ((close l).entry ≡ 0)
close-opened dls =
    let fresh : IsOwner fresh_loader = record { owns = refl; no_entry = refl } in
    let v = opened-IsOwner dls fresh_loader fresh in
    let (actions, handle, entry) = close-nothing (opened dls fresh_loader) v in
    (v.owns, actions, entry)
