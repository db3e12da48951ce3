-- ===== src/Gateway/Options/Accepted.antt =====
-- What the configurations are like that src/gateway/main.cpp starts a gateway with.
use protocol_design.Prelude.{
  ℕ, ◌<◌, ◌≡◌, ◌⊎◌, inl, inr, refl, subst, List, [], ◌∷◌, Bool, true, false, ◌||◌, Option, none,
  some, ◌==◌, length, drop, arith, Bool-cases, Option-cases,
}
use protocol_design.Prelude.Text.{codes, strip}
use protocol_design.Gateway.Server.State.{Config, AppEntry}
use protocol_design.Gateway.Options.{
  Settings, default_settings, parse_port_arg, same_text, value_of, split_spec, set_public_port,
  set_internal_port, set_bin, set_app, new_entry, read_app, app_option, read_option, read_options,
  is_refused, configure,
}

-- Every application of the allowlist has a name and a plugin.
abbrev pub AreNamed : (List ℕ → Option AppEntry) → Type 0
AreNamed apps =
    (key : List ℕ) (e : AppEntry)
    → apps key ≡ some e
    → (0 < length key) × (0 < length e.plugin_path)

abbrev pub HasApp : (List ℕ → Option AppEntry) → Type 0
HasApp apps = (key : List ℕ) × (e : AppEntry) × (apps key ≡ some e)

record IsRead (o : Settings) : Type 0 where
  public_ok : o.config.public_port < 65536
  internal_ok : o.config.apphost_internal_port < 65536
  named : AreNamed o.config.app_allowlist
  listed : (o.any_app ≡ false) ⊎ HasApp o.config.app_allowlist

parse_port_arg-lt : (v : List ℕ) → parse_port_arg v < 65536
unfolding parse_port_arg
parse_port_arg-lt v = ground arith

strip-nil : (a b : List ℕ) → strip a b ≡ some [] → a ≡ b
strip-nil [] b h = ground arith
strip-nil (c ∷ a) [] h = ground arith
strip-nil (c ∷ a) (d ∷ b) h = ground (arith, h, strip-nil a b)

same_text-eq : (a b : List ℕ) → same_text a b ≡ true → a ≡ b
same_text-eq a b h = ground (arith, h, strip-nil a b)

strip_self : (a : List ℕ) → strip a a ≡ some []
strip_self [] = refl
strip_self (c ∷ a) = ground (arith, strip_self a)

same_text_self : (a : List ℕ) → same_text a a ≡ true
same_text_self a = rw (same_text, strip_self a) refl

set_app-IsRead :
    (name path : List ℕ) (o : Settings)
    → 0 < length name
    → 0 < length path
    → IsRead o
    → IsRead (set_app name path o)
set_app-IsRead name path o hn hp v = record {
  public_ok = v.public_ok;
  internal_ok = v.internal_ok;
  named = λ key e h. elim (Bool-cases (same_text name key)) [
    | inl here ↦
        let found : some (new_entry path) ≡ some e = rw here at h in
        let same : new_entry path ≡ e = cc in (rw (← same_text-eq name key here) hn, rw (← same) hp)
    | inr other ↦ v.named key e (rw other at h)
  ];
  listed = inr (name, new_entry path, rw (same_text_self name) refl);
}

read_app-IsRead :
    (spec : List ℕ) (o o' : Settings) → IsRead o → read_app spec o ≡ some o' → IsRead o'
unfolding read_app
read_app-IsRead spec o o' v h = elim (Option-cases (split_spec spec)) [
  | inl e ↦ let h' : none ≡ some o' = rw (e, read_app) at h in cc
  | inr ((name, path), e) ↦ elim (Bool-cases (length name == 0 || length path == 0)) [
    | inl empty ↦ let h' : none ≡ some o' = rw (e, read_app, empty) at h in cc
    | inr full ↦
        let h' : some (set_app name path o) ≡ some o' = rw (e, read_app, full) at h in
        let same : set_app name path o ≡ o' = cc in
        subst IsRead same
          (set_app-IsRead name path o (ground (arith, full)) (ground (arith, full)) v)
  ]
]

with_config-IsRead :
    {o : Settings} (c : Config)
    → IsRead o
    → c.public_port < 65536
    → c.apphost_internal_port < 65536
    → c.app_allowlist ≡ o.config.app_allowlist
    → IsRead (record o { config = c })
with_config-IsRead c v p q same = record {
  public_ok = p;
  internal_ok = q;
  named = rw same v.named;
  listed = rw same v.listed;
}

same_settings :
    (s o' : Settings) (u used : Bool)
    → ◌≡◌ {A = Option (Settings × Bool)} (some (s, u)) (some (o', used))
    → IsRead s
    → IsRead o'
same_settings s o' u used h v = let same : s ≡ o' = cc in subst IsRead same v

app_option-IsRead :
    (a : List ℕ) (o o' : Settings) (used : Bool)
    → IsRead o
    → app_option a o ≡ some (o', used)
    → IsRead o'
unfolding app_option
app_option-IsRead a o o' used v h = elim (Option-cases (strip (codes "--app=") a)) [
  | inl e ↦
      let h' : ◌≡◌ {A = Option (Settings × Bool)} none (some (o', used)) =
        rw (e, app_option) at h in
      cc
  | inr (spec, e) ↦ elim (Option-cases (read_app spec o)) [
    | inl f ↦
        let h' : ◌≡◌ {A = Option (Settings × Bool)} none (some (o', used)) =
          rw (e, f, app_option) at h in
        cc
    | inr (s, f) ↦
        same_settings s o' false used (rw (e, f, app_option) at h) (read_app-IsRead spec o s v f)
  ]
]

-- A round of the loop keeps the settings well formed.
read_option-IsRead :
    (a : List ℕ) (next : Option (List ℕ)) (o o' : Settings) (used : Bool)
    → IsRead o
    → read_option a next o ≡ some (o', used)
    → IsRead o'
unfolding read_option
read_option-IsRead a next o o' used v h =
    elim (Option-cases (value_of (codes "--public-port") a next)) [
      | inr ((value, u), e) ↦
          same_settings (set_public_port value o) o' u used (rw (e, read_option) at h)
            (with_config-IsRead {o = o} _ v (parse_port_arg-lt value) v.internal_ok refl)
      | inl e ↦ elim (Option-cases (value_of (codes "--apphost-internal-port") a next)) [
        | inr ((value, u), f) ↦
            same_settings (set_internal_port value o) o' u used (rw (e, f, read_option) at h)
              (with_config-IsRead {o = o} _ v v.public_ok (parse_port_arg-lt value) refl)
        | inl f ↦ elim (Option-cases (value_of (codes "--apphost-bin") a next)) [
          | inr ((value, u), g) ↦
              same_settings (set_bin value o) o' u used (rw (e, f, g, read_option) at h)
                (with_config-IsRead {o = o} _ v v.public_ok v.internal_ok refl)
          | inl g ↦ app_option-IsRead a o o' used v (rw (e, f, g, read_option) at h)
        ]
      ]
    ]

read_options-IsRead :
    (args : List (List ℕ)) (o o' : Settings) → IsRead o → read_options args o ≡ some o' → IsRead o'
unfolding read_options
read_options-IsRead [] o o' v h = let same : o ≡ o' = cc in subst IsRead same v
read_options-IsRead (a ∷ []) o o' v h = elim (Option-cases (read_option a none o)) [
  | inl e ↦ let h' : none ≡ some o' = rw (e, read_options) at h in cc
  | inr ((s, u), e) ↦
      let h' : some s ≡ some o' = rw (e, read_options) at h in
      let same : s ≡ o' = cc in subst IsRead same (read_option-IsRead a none o s u v e)
]
read_options-IsRead (a ∷ next ∷ args) o o' v h = elim (Option-cases (read_option a (some next) o)) [
  | inl e ↦ let h' : none ≡ some o' = rw (e, read_options) at h in cc
  | inr ((s, true), e) ↦
      read_options-IsRead args s o' (read_option-IsRead a (some next) o s true v e)
        (rw (e, read_options) at h)
  | inr ((s, false), e) ↦
      read_options-IsRead (next ∷ args) s o' (read_option-IsRead a (some next) o s false v e)
        (rw (e, read_options) at h)
]

default-IsRead : IsRead default_settings
default-IsRead = record {
  public_ok = omega arith;
  internal_ok = omega arith;
  named = λ key e h. absurd (ground (arith, h));
  listed = inl refl;
}

-- What a gateway is started with.
pub record IsUsable (c : Config) : Type 0 where
  pub public_given : 0 < c.public_port
  pub public_ok : c.public_port < 65536
  pub internal_given : 0 < c.apphost_internal_port
  pub internal_ok : c.apphost_internal_port < 65536
  pub named : AreNamed c.app_allowlist
  pub listed : (c.auto_spawn_apphost ≡ false) ⊎ HasApp c.app_allowlist

-- A command line that is accepted gives both ports of 1 to 65535, a name and a plugin to each
-- application, and, if AppHosts are to be started, at least one application.
pub configure-IsUsable : (argv : List (List ℕ)) (c : Config) → configure argv ≡ some c → IsUsable c
unfolding configure
configure-IsUsable argv c h = elim (Option-cases (read_options (drop 1 argv) default_settings)) [
  | inl e ↦ let h' : none ≡ some c = rw (e, configure) at h in cc
  | inr (o, e) ↦
      let v = read_options-IsRead (drop 1 argv) default_settings o default-IsRead e in
      elim (Bool-cases (is_refused o)) [
        | inl refused ↦ let h' : none ≡ some c = rw (e, configure, refused) at h in cc
        | inr kept ↦
            let h' : some o.config ≡ some c = rw (e, configure, kept) at h in
            let same : o.config ≡ c = cc in
            subst IsUsable same (record {
              public_given = ground (arith, kept);
              public_ok = v.public_ok;
              internal_given = ground (arith, kept);
              internal_ok = v.internal_ok;
              named = v.named;
              listed = elim v.listed [
                | inl nothing ↦ inl (ground (arith, kept, nothing))
                | inr app ↦ inr app
              ];
            })
      ]
]
