-- ===== src/Plugins/Viewer/Shown.antt =====
-- What parse_options of plugins/client_viewer/client_viewer.cpp accepts, and the window that Start makes
-- of it.
use native.Mathlib.Nat.{mul-pos}
use Prim.Native.Nat.{◌^◌}
use protocol_design.Prelude.{
  ℕ, zero, suc, ◌<◌, ◌*◌, false, ◌≡◌, List, [], ◌∷◌, Bool, not, ◌&&◌, none, some, arith,
  if◌then◌else◌, Option-cases, inl, inr, subst,
}
use protocol_design.Prelude.Int.{ℤ, pos, negsuc, is_positive, less, magnitude}
use protocol_design.Client.Renderer.{Colors, reset, at_least_one}
use protocol_design.Plugins.Viewer.{
  ViewerOptions, default_options, Arg, host_arg, app_arg, port_arg, width_arg, height_arg,
  scale_arg, offline_arg, other_arg, read_arg, Viewer, start_viewer,
}
use protocol_design.Plugins.Viewer.Arguments.{
  option_table, first_match, tokens, read_tokens, parse_options,
}
use protocol_design.Plugins.Viewer.Clicks.{IsShown}

pub record IsUsable (o : ViewerOptions) : Type 0 where
  pub port_low : 0 < o.gateway_port
  pub port_high : o.gateway_port < 2 ^ 16
  pub wide : 0 < o.canvas_width
  pub high : 0 < o.canvas_height
  pub scaled : 0 < o.display_scale

-- A value is taken only if it is positive.
taken : (v : ℤ) (n : ℕ) → 0 < n → 0 < (if is_positive v then magnitude v else n)
taken (pos zero) n h = h
taken (pos (suc m)) n h = omega arith
taken (negsuc m) n h = h

taken_port :
    (v : ℤ) (n : ℕ)
    → 0 < n
    → n < 2 ^ 16
    → let port = if is_positive v && not (less (pos 65535) v) then magnitude v else n in
      (0 < port) × (port < 2 ^ 16)
taken_port (pos zero) n h h' = (h, h')
taken_port (pos (suc m)) n h h' = ground arith
taken_port (negsuc m) n h h' = (h, h')

module _ {o : ViewerOptions} (u : IsUsable o) where
  abbrev with_port :
      (n : ℕ) → (0 < n) × (n < 2 ^ 16) → IsUsable (record o { gateway_port = n; offline = false })
  with_port n fits = record {
    port_low = fits.0;
    port_high = fits.1;
    wide = u.wide;
    high = u.high;
    scaled = u.scaled;
  }

  abbrev with_sizes :
      (w h scale : ℕ)
      → 0 < w
      → 0 < h
      → 0 < scale
      → (host name : List ℕ) (offline : Bool)
      → IsUsable (record {
        gateway_host = host;
        gateway_port = o.gateway_port;
        app_name = name;
        offline = offline;
        canvas_width = w;
        canvas_height = h;
        display_scale = scale;
      })
  with_sizes w h scale pw ph ps host name offline = record {
    port_low = u.port_low;
    port_high = u.port_high;
    wide = pw;
    high = ph;
    scaled = ps;
  }

read_arg-IsUsable : (a : Arg) (o : ViewerOptions) → IsUsable o → IsUsable (read_arg a o)
unfolding read_arg
read_arg-IsUsable (port_arg v) o u =
    with_port u _ (taken_port v o.gateway_port u.port_low u.port_high)
read_arg-IsUsable (width_arg v) o u =
    with_sizes u _ _ _ (taken v o.canvas_width u.wide) u.high u.scaled _ _ _
read_arg-IsUsable (height_arg v) o u =
    with_sizes u _ _ _ u.wide (taken v o.canvas_height u.high) u.scaled _ _ _
read_arg-IsUsable (scale_arg v) o u =
    with_sizes u _ _ _ u.wide u.high (taken v o.display_scale u.scaled) _ _ _
read_arg-IsUsable (host_arg value) o u = with_sizes u _ _ _ u.wide u.high u.scaled _ _ _
read_arg-IsUsable (app_arg value) o u = with_sizes u _ _ _ u.wide u.high u.scaled _ _ _
read_arg-IsUsable offline_arg o u = with_sizes u _ _ _ u.wide u.high u.scaled _ _ _
read_arg-IsUsable other_arg o u = u

read_tokens-IsUsable :
    (args : List (List ℕ)) (out : ViewerOptions) {o : ViewerOptions}
    → IsUsable out
    → read_tokens args out ≡ some o
    → IsUsable o
unfolding read_tokens
read_tokens-IsUsable [] out {o} u e = let same : out ≡ o = cc e in subst IsUsable same u
read_tokens-IsUsable (arg ∷ args) out {o} u e = elim (Option-cases (first_match option_table arg)) [
  | inl threw ↦ absurd (cc (threw, e))
  | inr (a, found) ↦
      read_tokens-IsUsable args (read_arg a out) {o = o} (read_arg-IsUsable a out u) (
        subst (λ x. elim x [ none ↦ none | some b ↦ read_tokens args (read_arg b out) ] ≡ some o)
          found e)
]

pub parse_options-IsUsable :
    (args : List (List ℕ)) {o : ViewerOptions} → parse_options args ≡ some o → IsUsable o
unfolding parse_options
parse_options-IsUsable args e =
    read_tokens-IsUsable (tokens args) default_options
      (record {
        port_low = omega arith;
        port_high = omega arith;
        wide = omega arith;
        high = omega arith;
        scaled = omega arith;
      })
      e

at_least_one-pos : (n : ℕ) → 0 < n → at_least_one (pos n) ≡ n
at_least_one-pos n h = ground arith

-- Options that a command line gives, for a window whose two sides fit 31 bits, have a port of 1 to 65535, and
-- the window that is started with them shows a picture of the size of the canvas, and has a pixel.
pub start_viewer-IsShown :
    (args : List (List ℕ)) (o : ViewerOptions) (colors : Colors) (v : Viewer)
    → parse_options args ≡ some o
    → o.canvas_width * o.display_scale < 2 ^ 31
    → o.canvas_height * o.display_scale < 2 ^ 31
    → (0 < o.gateway_port)
      × (o.gateway_port < 2 ^ 16)
      × IsShown (start_viewer colors o v)
      × (0 < (start_viewer colors o v).display_width)
      × (0 < (start_viewer colors o v).display_height)
unfolding start_viewer reset
start_viewer-IsShown args o colors v e fits_wide fits_high =
    let u = parse_options-IsUsable args e in
    (
      u.port_low,
      u.port_high,
      record {
        wide = fits_wide;
        high = fits_high;
        picture_width = at_least_one-pos o.canvas_width u.wide;
        picture_height = at_least_one-pos o.canvas_height u.high;
        canvas_wide = u.wide;
        canvas_high = u.high;
      },
      mul-pos u.wide u.scaled,
      mul-pos u.high u.scaled,
    )
