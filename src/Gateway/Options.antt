-- ===== src/Gateway/Options.antt =====
-- src/gateway/main.cpp: the command line of the gateway. The defaults are those of gateway.h.
pub mod Accepted
use protocol_design.Prelude.{
  ℕ, ◌+◌, ◌-◌, List, [], ◌∷◌, ◌++◌, Bool, true, false, not, ◌&&◌, ◌||◌, Option, none, some, ltb,
  ◌==◌, if◌then◌else◌, length, drop,
}
use protocol_design.Prelude.Int.{ℤ, pos, negsuc, is_positive, less, magnitude}
use protocol_design.Prelude.Text.{codes, strip, strtol}
use protocol_design.Gateway.Server.State.{Config, AppEntry}

-- The configuration as far as it has been read, and whether its allowlist has an entry.
pub record Settings : Type 0 where
  pub config : Config
  pub any_app : Bool

abbrev pub default_settings : Settings
default_settings = record {
  config = record {
    public_port = 19000;
    apphost_bind_host = codes "127.0.0.1";
    apphost_internal_port = 19001;
    apphost_bin = [];
    auto_spawn_apphost = false;
    spawn_timeout_ms = 5000;
    client_timeout_ms = 90000;
    apphost_timeout_ms = 90000;
    app_allowlist = λ _. none;
  };
  any_app = false;
}

-- 0 is a text that is no port.
unfoldable pub parse_port_arg : List ℕ → ℕ
parse_port_arg value = elim (strtol false value) [
  | some (v, []) ↦ if not (is_positive v) || not (less v (pos 65536)) then 0 else magnitude v
  | _ ↦ 0
]

abbrev pub same_text : List ℕ → List ℕ → Bool
same_text a b = elim (strip a b) [ some [] ↦ true | _ ↦ false ]

-- The value of an option, behind its `=` or as the next argument, and whether that one is used up.
unfoldable pub value_of : List ℕ → List ℕ → Option (List ℕ) → Option (List ℕ × Bool)
value_of name a next = elim (strip (name ++ b'=' ∷ []) a) [
  | some v ↦ some (v, false)
  | none ↦
      if not (same_text name a) then none else elim next [ none ↦ none | some v ↦ some (v, true) ]
]

-- What is before the first `=` and behind it.
unfoldable pub split_spec : List ℕ → Option (List ℕ × List ℕ)
split_spec [] = none
split_spec (c ∷ s) =
    let later = split_spec s in
    if c == b'='
    then some ([], s)
    else elim later [ none ↦ none | some (name, path) ↦ some (c ∷ name, path) ]

abbrev pub set_public_port : List ℕ → Settings → Settings
set_public_port v o = record o { config = record (o.config) { public_port = parse_port_arg v } }

abbrev pub set_internal_port : List ℕ → Settings → Settings
set_internal_port v o = record o {
  config = record (o.config) { apphost_internal_port = parse_port_arg v };
}

abbrev pub set_bin : List ℕ → Settings → Settings
set_bin v o = record o { config = record (o.config) { apphost_bin = v; auto_spawn_apphost = true } }

abbrev pub new_entry : List ℕ → AppEntry
new_entry path = record { plugin_path = path; width = pos 800; height = pos 600 }

-- The entry of an application, in place of an older one of its name.
abbrev pub set_app : List ℕ → List ℕ → Settings → Settings
set_app name path o = record {
  config = record (o.config) {
    app_allowlist =
        λ key. if same_text name key then some (new_entry path) else o.config.app_allowlist key;
  };
  any_app = true;
}

unfoldable pub read_app : List ℕ → Settings → Option Settings
unfolding split_spec
read_app spec o = elim (split_spec spec) [
  | none ↦ none
  | some (name, path) ↦
      if length name == 0 || length path == 0 then none else some (set_app name path o)
]

unfoldable pub app_option : List ℕ → Settings → Option (Settings × Bool)
app_option a o = elim (strip (codes "--app=") a) [
  | none ↦ none
  | some spec ↦ elim (read_app spec o) [ none ↦ none | some o' ↦ some (o', false) ]
]

-- A round of the loop: `none` is an error, else whether the next argument was used up.
unfoldable pub read_option : List ℕ → Option (List ℕ) → Settings → Option (Settings × Bool)
read_option a next o = elim (value_of (codes "--public-port") a next) [
  | some (v, used) ↦ some (set_public_port v o, used)
  | none ↦ elim (value_of (codes "--apphost-internal-port") a next) [
    | some (v, used) ↦ some (set_internal_port v o, used)
    | none ↦ elim (value_of (codes "--apphost-bin") a next) [
      | some (v, used) ↦ some (set_bin v o, used)
      | none ↦ app_option a o
    ]
  ]
]

unfoldable pub read_options : List (List ℕ) → Settings → Option Settings
read_options [] o = some o
read_options (a ∷ []) o = elim (read_option a none o) [ none ↦ none | some (o', used) ↦ some o' ]
read_options (a ∷ next ∷ args) o = elim (read_option a (some next) o) [
  | none ↦ none
  | some (o', used) ↦ elim used [
    | true ↦ read_options args o'
    | false ↦ read_options (next ∷ args) o'
  ]
]

abbrev pub is_refused : Settings → Bool
is_refused o =
    o.config.public_port == 0
    || o.config.apphost_internal_port == 0
    || o.config.auto_spawn_apphost && not o.any_app

-- What `main` starts the gateway with; `none` is an error message and exit code 1.
unfoldable pub configure : List (List ℕ) → Option Config
configure argv = elim (read_options (drop 1 argv) default_settings) [
  | none ↦ none
  | some o ↦ if is_refused o then none else some o.config
]
