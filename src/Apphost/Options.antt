-- ===== src/Apphost/Options.antt =====
-- src/apphost/main.cpp: the command line of an AppHost.
pub mod Launch
use protocol_design.Prelude.{
  ℕ, ◌+◌, ◌-◌, List, drop, [], ◌∷◌, ◌++◌, Bool, true, false, not, ◌||◌, Option, none, some, ltb,
  ◌==◌, if◌then◌else◌, u32,
}
use protocol_design.Prelude.Int.{ℤ, pos, negsuc}
use protocol_design.Prelude.Text.{codes, strip, strtoul, strtol, int_of_long}

pub record AppHostConfig : Type 0 where
  pub gateway_host : List ℕ
  pub gateway_port : ℕ
  pub session_id : ℕ
  pub plugin_path : List ℕ
  pub width : ℤ
  pub height : ℤ

-- The value behind `name=`, or the argument after one that is `name`. The program is not among `args`.
unfoldable pub find_arg : List ℕ → List (List ℕ) → Option (List ℕ)
find_arg name [] = none
find_arg name (a ∷ args) =
    let later = find_arg name args in
    elim (strip (name ++ b'=' ∷ []) a) [
      | some value ↦ some value
      | none ↦ elim (strip name a) [
        | some [] ↦ elim args [ [] ↦ later | next ∷ rest ↦ some next ]
        | _ ↦ later
      ]
    ]

unfoldable pub parse_u32 : List ℕ → Option ℕ
unfolding strtoul
parse_u32 s = elim (strtoul s) [ some (v, []) ↦ some (u32 v) | _ ↦ none ]

unfoldable pub parse_int : List ℕ → Option ℤ
unfolding strtol
parse_int s = elim (strtol true s) [ some (v, []) ↦ some (int_of_long v) | _ ↦ none ]

-- A size that is not given or is no number has its default.
unfoldable pub size_or : ℤ → Option (List ℕ) → ℤ
unfolding parse_int
size_or default none = default
size_or default (some s) = elim (parse_int s) [ none ↦ default | some v ↦ v ]

infixl 5 ◌>>=◌ ◌>>◌
abbrev ◌>>=◌ {ℓ κ} : {A : Type ℓ} {B : Type κ} → Option A → (A → Option B) → Option B
none >>= f = none
some a >>= f = f a

abbrev ◌>>◌ {ℓ} : {B : Type ℓ} → Option (Unit {0}) → Option B → Option B
m >> k = m >>= λ _. k

abbrev guard : Bool → Option (Unit {0})
guard true = some tt
guard false = none

-- What `main` runs the AppHost with, from the arguments behind the program; `none` is the usage
-- message.
unfoldable pub read_args : List (List ℕ) → Option AppHostConfig
read_args args = do
  host ← find_arg (codes "--gateway-host") args
  port_s ← find_arg (codes "--gateway-port") args
  sess_s ← find_arg (codes "--session-id") args
  plugin ← find_arg (codes "--plugin") args
  port ← parse_u32 port_s
  guard (not (port == 0 || ltb 65535 port))
  session_id ← parse_u32 sess_s
  some (record {
    gateway_host = host;
    gateway_port = port;
    session_id = session_id;
    plugin_path = plugin;
    width = size_or (pos 800) (find_arg (codes "--width") args);
    height = size_or (pos 600) (find_arg (codes "--height") args);
  })

unfoldable pub configure : List (List ℕ) → Option AppHostConfig
configure argv = read_args (drop 1 argv)

-- A result below 0 is a failure to start, and becomes an exit code of its own.
abbrev exit_code : ℤ → ℤ
exit_code (pos rc) = pos rc
exit_code (negsuc n) = pos (n + 11)

-- `main`, with what AppHost::run answers.
unfoldable pub main : (AppHostConfig → ℤ) → List (List ℕ) → ℤ
main run argv = elim (configure argv) [ none ↦ pos 1 | some cfg ↦ exit_code (run cfg) ]
