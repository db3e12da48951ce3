-- ===== src/Plugins/Viewer/Arguments.antt =====
-- parse_options of plugins/client_viewer/client_viewer.cpp on the text of the command line, and the window
-- that it starts. `std::stoi` throws where it reads no `int`, and nothing catches that.
use Prim.Native.Nat.{◌^◌}
use protocol_design.Prelude.{
  ℕ, ◌++◌, false, List, [], ◌∷◌, Bool, true, Option, none, some, if◌then◌else◌, ltb,
}
use protocol_design.Prelude.Int.{ℤ, pos, negsuc}
use protocol_design.Prelude.Text.{codes, strip, c_str, is_space, strtol}
use protocol_design.Plugins.Viewer.{
  ViewerOptions, default_options, Arg, host_arg, app_arg, port_arg, width_arg, height_arg,
  scale_arg, offline_arg, other_arg, read_arg,
}

abbrev is_end : List ℕ → Bool
is_end [] = true
is_end (c ∷ s) = is_space c

abbrev onto_first : ℕ → List (List ℕ) → List (List ℕ)
onto_first c [] = (c ∷ []) ∷ []
onto_first c (word ∷ words) = (c ∷ word) ∷ words

-- `while (parts >> token)`: the words between white space.
unfoldable pub words : List ℕ → List (List ℕ)
words [] = []
words (c ∷ s) =
    let rest = words s in
    if is_space c then rest else if is_end s then (c ∷ []) ∷ rest else onto_first c rest

unfoldable pub tokens : List (List ℕ) → List (List ℕ)
unfolding words
tokens [] = []
tokens (arg ∷ args) = words arg ++ tokens args

abbrev fits_int : ℤ → Bool
fits_int (pos n) = ltb n (2 ^ 31)
fits_int (negsuc n) = ltb n (2 ^ 31)

-- std::stoi; `none` is an exception.
unfoldable pub stoi : List ℕ → Option ℤ
stoi s = elim (strtol false (c_str s)) [
  | none ↦ none
  | some (v, end) ↦ if fits_int v then some v else none
]

abbrev number_arg : (ℤ → Arg) → List ℕ → Option Arg
number_arg arg value = elim (stoi value) [ none ↦ none | some v ↦ some (arg v) ]

-- No other option starts with `--offline`.
abbrev whole : List ℕ → Arg
whole [] = offline_arg
whole (c ∷ s) = other_arg

-- The options in the order in which they are tried, and what is made of the rest of the argument.
abbrev pub option_table : List (List ℕ × (List ℕ → Option Arg))
option_table =
    (codes "--gateway-host=", λ value. some (host_arg value))
    ∷ (codes "--gateway-port=", number_arg port_arg)
    ∷ (codes "--app=", λ value. some (app_arg value))
    ∷ (codes "--offline", λ value. some (whole value))
    ∷ (codes "--canvas-width=", number_arg width_arg)
    ∷ (codes "--canvas-height=", number_arg height_arg)
    ∷ (codes "--display-scale=", number_arg scale_arg)
    ∷ []

unfoldable pub first_match : List (List ℕ × (List ℕ → Option Arg)) → List ℕ → Option Arg
first_match [] arg = some other_arg
first_match ((prefix, read) ∷ options) arg = elim (strip prefix arg) [
  | none ↦ first_match options arg
  | some value ↦ read value
]

-- The loop over the arguments.
unfoldable pub read_tokens : List (List ℕ) → ViewerOptions → Option ViewerOptions
unfolding first_match read_arg
read_tokens [] out = some out
read_tokens (arg ∷ args) out = elim (first_match option_table arg) [
  | none ↦ none
  | some a ↦ read_tokens args (read_arg a out)
]

unfoldable pub parse_options : List (List ℕ) → Option ViewerOptions
unfolding tokens read_tokens
parse_options args = read_tokens (tokens args) default_options
