-- ===== src/Apphost/Options/Launch.antt =====
-- The command line that src/gateway/process_manager.cpp gives a child, as src/apphost/main.cpp reads it.
use protocol_design.Prelude.{
  ℕ, zero, suc, ◌+◌, ◌/◌, ◌%◌, ltb, ◌||◌, Bool-cases, inl, inr, drop, ◌^◌, ◌<◌, ◌≡◌, ◌≢◌, refl, ap,
  ◌∙◌, List, [], ◌∷◌, ◌++◌, true, false, some, arith, All, ◌==◌,
}
use protocol_design.Prelude.Int.{ℤ, pos, negsuc}
use protocol_design.Prelude.Text.{codes, c_str, digits, to_string, to_string_int}
use protocol_design.Prelude.Text.Decimal.{strtoul-to_string, strtol-to_string_int}
use protocol_design.Gateway.Server.{AppHostLaunchConfig}
use protocol_design.Gateway.Process.{arguments}
use protocol_design.Apphost.Options.{find_arg, parse_u32, parse_int, size_or, read_args, configure}

-- A C++ `int` of 32 bits.
abbrev pub IsInt : ℤ → Type 0
IsInt (pos n) = n < 2 ^ 31
IsInt (negsuc n) = n < 2 ^ 31

-- A text without a 0, which a C string can hold.
abbrev pub IsCString : List ℕ → Type 0
IsCString s = All (λ c. c ≢ 0) s

pub record IsLaunch (cfg : AppHostLaunchConfig) : Type 0 where
  pub session_ok : cfg.session_id < 2 ^ 32
  pub port_given : 0 < cfg.gateway_port
  pub port_ok : cfg.gateway_port < 2 ^ 16
  pub host_ok : IsCString cfg.gateway_host
  pub plugin_ok : IsCString cfg.plugin_path
  pub width_ok : IsInt cfg.width
  pub height_ok : IsInt cfg.height

c_str-IsCString : (s : List ℕ) → IsCString s → c_str s ≡ s
unfolding c_str
c_str-IsCString [] h = refl
c_str-IsCString (c ∷ s) h = ground (arith, c_str-IsCString s h.1, h.0)

parse_u32-to_string : (v : ℕ) → v < 2 ^ 32 → parse_u32 (to_string v) ≡ some v
unfolding parse_u32
parse_u32-to_string v h =
    rw (parse_u32, strtoul-to_string v (omega (arith, h))) (ap some (omega (arith, h)))

parse_int-to_string_int : (v : ℤ) → IsInt v → parse_int (to_string_int v) ≡ some v
unfolding parse_int
parse_int-to_string_int (pos v) h =
    rw (parse_int, (strtol-to_string_int true v h).0) (ap some (ground (arith, h)))
parse_int-to_string_int (negsuc v) h =
    rw (parse_int, (strtol-to_string_int true v h).1) (ap some (ground (arith, h)))

digits-IsCString : (n v : ℕ) (out : List ℕ) → IsCString out → IsCString (digits n v out)
unfolding digits
digits-IsCString zero v out h = h
digits-IsCString (suc n) v out h = elim (Bool-cases (ltb v 10)) [
  | inl one ↦ rw one ((omega arith), h)
  | inr more ↦ rw more (digits-IsCString n (v / 10) ((b'0' + v % 10) ∷ out) ((omega arith), h))
]

to_string-IsCString : (v : ℕ) → IsCString (to_string v)
unfolding to_string
to_string-IsCString v = digits-IsCString 20 v [] tt

to_string_int-IsCString : (v : ℤ) → IsCString (to_string_int v)
unfolding to_string_int
to_string_int-IsCString (pos v) = to_string-IsCString v
to_string_int-IsCString (negsuc v) = ((omega arith), to_string-IsCString (suc v))

-- The arguments as the child gets them.
abbrev passed : AppHostLaunchConfig → List (List ℕ)
passed cfg =
    (codes "--session-id=" ++ to_string cfg.session_id)
    ∷ (codes "--gateway-host=" ++ cfg.gateway_host)
    ∷ (codes "--gateway-port=" ++ to_string cfg.gateway_port)
    ∷ (codes "--plugin=" ++ cfg.plugin_path)
    ∷ (codes "--width=" ++ to_string_int cfg.width)
    ∷ (codes "--height=" ++ to_string_int cfg.height)
    ∷ []

arguments-passed : (cfg : AppHostLaunchConfig) → IsLaunch cfg → drop 1 (arguments cfg) ≡ passed cfg
unfolding arguments c_str
arguments-passed cfg v =
    let id = c_str-IsCString _ (to_string-IsCString cfg.session_id) in
    let host = c_str-IsCString _ v.host_ok in
    let port = c_str-IsCString _ (to_string-IsCString cfg.gateway_port) in
    let plugin = c_str-IsCString _ v.plugin_ok in
    let width = c_str-IsCString _ (to_string_int-IsCString cfg.width) in
    let height = c_str-IsCString _ (to_string_int-IsCString cfg.height) in
    rw (id, host, port, plugin, width, height) refl

found :
    (session host port plugin width height : List ℕ)
    → let args =
        (codes "--session-id=" ++ session)
        ∷ (codes "--gateway-host=" ++ host)
        ∷ (codes "--gateway-port=" ++ port)
        ∷ (codes "--plugin=" ++ plugin)
        ∷ (codes "--width=" ++ width)
        ∷ (codes "--height=" ++ height)
        ∷ [] in
      (find_arg (codes "--session-id") args ≡ some session)
      × (find_arg (codes "--gateway-host") args ≡ some host)
      × (find_arg (codes "--gateway-port") args ≡ some port)
      × (find_arg (codes "--plugin") args ≡ some plugin)
      × (find_arg (codes "--width") args ≡ some width)
      × (find_arg (codes "--height") args ≡ some height)
unfolding find_arg
found session host port plugin width height = (refl, refl, refl, refl, refl, refl)

size_or-given : (default v : ℤ) → IsInt v → size_or default (some (to_string_int v)) ≡ v
unfolding size_or
size_or-given default v h = rw (size_or, parse_int-to_string_int v h) refl

configure_lem : (argv : List (List ℕ)) → configure argv ≡ read_args (drop 1 argv)
unfolding configure
configure_lem argv = refl

-- Whatever the gateway starts an AppHost with, the AppHost reads back from its command line: the same
-- session, address, plugin and size. The numbers fit their C++ types, the port is not 0, and neither
-- the host nor the plugin's path contains a 0 byte.
pub configure-arguments :
    (cfg : AppHostLaunchConfig)
    → IsLaunch cfg
    → configure (arguments cfg)
      ≡ some (record {
        gateway_host = cfg.gateway_host;
        gateway_port = cfg.gateway_port;
        session_id = cfg.session_id;
        plugin_path = cfg.plugin_path;
        width = cfg.width;
        height = cfg.height;
      })
unfolding read_args
configure-arguments cfg v =
    let (id, host, port, plugin, width, height) =
      found (to_string cfg.session_id) cfg.gateway_host (to_string cfg.gateway_port) cfg.plugin_path
        (to_string_int cfg.width) (to_string_int cfg.height) in
    let same = arguments-passed cfg v in
    let port_read = parse_u32-to_string cfg.gateway_port (omega (arith, v.port_ok)) in
    let id_read = parse_u32-to_string cfg.session_id v.session_ok in
    let in_range : (cfg.gateway_port == 0 || ltb 65535 cfg.gateway_port) ≡ false =
      ground (arith, v.port_given, v.port_ok) in
    let width_read : size_or (pos 800) (some (to_string_int cfg.width)) ≡ cfg.width =
      size_or-given (pos 800) cfg.width v.width_ok in
    let height_read : size_or (pos 600) (some (to_string_int cfg.height)) ≡ cfg.height =
      size_or-given (pos 600) cfg.height v.height_ok in
    configure_lem (arguments cfg)
    ∙ ap read_args same
    ∙ rw
        (
          read_args, host, port, id, plugin, width, height, port_read, in_range, id_read,
          width_read, height_read,
        )
        refl
