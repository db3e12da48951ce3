-- ===== src/Common/Dl.antt =====
-- The dynamic linker, as the plugin loaders of src/apphost/plugin_loader.cpp and
-- src/client/plugin_loader.cpp see it on Linux: what dlopen, dlsym and dlerror answer is given, and what
-- is asked of it is a list. A null pointer is 0.
use protocol_design.Prelude.{
  ℕ, ◌≡◌, refl, arith, List, [], ◌∷◌, Option, none, some, if◌then◌else◌, ◌==◌,
}

-- The answers while one plugin is opened. dlerror is asked after a failed dlopen, and after dlsym.
pub record Loading : Type 0 where
  pub handle : ℕ
  pub open_error : Option (List ℕ)
  pub symbol : ℕ
  pub symbol_error : Option (List ℕ)

-- dlopen with the handle that it gave, and dlclose.
pub data Action : Type 0 where
  loads unloads : ℕ → Action

abbrev pub without : ℕ → List ℕ → Option (List ℕ)
without h [] = none
without h (k ∷ handles) =
    if h == k
    then some handles
    else elim (without h handles) [ none ↦ none | some rest ↦ some (k ∷ rest) ]

-- The handles that are held after these actions, of which the first is the latest; `none` if one was
-- given back that was not held.
abbrev pub held : List Action → Option (List ℕ)
held [] = some []
held (loads h ∷ actions) = elim (held actions) [ none ↦ none | some handles ↦ some (h ∷ handles) ]
held (unloads h ∷ actions) = elim (held actions) [ none ↦ none | some handles ↦ without h handles ]

-- A library that is loaded while none is held, and one that is given back at once.
pub held-loads :
    (h : ℕ) (actions : List Action)
    → held actions ≡ some []
    → held (loads h ∷ actions) ≡ some (h ∷ [])
held-loads h actions e = rw (held, e) refl

pub held-unloads :
    (h : ℕ) (actions : List Action)
    → held actions ≡ some (h ∷ [])
    → held (unloads h ∷ actions) ≡ some []
held-unloads h actions e = rw (held, e) (ground arith)
