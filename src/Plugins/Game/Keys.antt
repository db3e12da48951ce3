-- ===== src/Plugins/Game/Keys.antt =====
-- The keys of the 2048 game, plugins/app_2048/app_2048.cpp, under the host of src/apphost/ui_host_impl.cpp.
use protocol_design.Prelude.{
  ℕ, ◌+◌, ◌-◌, ◌^◌, List, [], ◌∷◌, none, ◌≡◌, refl, ap, ◌∙◌, Bool, true, false, not, ◌&&◌, ◌||◌,
  some, if◌then◌else◌, ◌==◌, length, arith, Bool-cases, inl, inr,
}
use protocol_design.Common.InputEvent.{UiMessageKeyboard}
use protocol_design.Apphost.UiHost.{
  State, WindowRuntime, keyboard_input, dispatch_input, run_script, do_call, on_window_damage,
}
use protocol_design.Apphost.UiHost.{with_window, clip, is_listening}
use protocol_design.Apphost.UiHost.Calls.{with_window-some, if-false, dispatch_draw_and_send-frame}
use protocol_design.Prelude.Int.{less, magnitude}
use protocol_design.Plugins.App2048.{Generator, Direction, left, right, up, down, move, reset}
use protocol_design.Prelude.Assoc.{lookup, nat_eq}
use protocol_design.Plugins.Game.{
  Palette, Window, canvas_w, press, try_move, restart, do_keyboard, game, full_window,
}
use protocol_design.Plugins.Drawing.{canvas_h}

-- A host with the window of the game, which shows what it draws.
pub record IsPlaying {P : Type 0} (s : State P) (w : WindowRuntime) : Type 0 where
  pub window_ok : s.window ≡ some w
  pub alive : w.destroyed ≡ false
  pub handled : w.has_handler ≡ true
  pub sends : s.has_sink ≡ true
  pub width_ok : w.width ≡ canvas_w
  pub height_ok : w.height ≡ canvas_h

-- What a key asks of the game.
pub data Command : Type 0 where
  moves : Direction → Command
  starts_over : Command
  nothing : Command

abbrev pub key_commands : List (ℕ × Command)
key_commands =
    (37, moves left)
    ∷ (38, moves up)
    ∷ (39, moves right)
    ∷ (40, moves down)
    ∷ (113, starts_over)
    ∷ []

abbrev pub command_of : Bool → ℕ → Command
command_of false key = nothing
command_of true key = elim (lookup key key_commands) [ none ↦ nothing | some c ↦ c ]

-- What a command makes of the game and of what is sent.
abbrev pub Follows :
    (colors : Palette) (g : Generator)
    → Command
    → State (Window colors g)
    → State (Window colors g)
    → Type 0
Follows colors g (moves d) s t =
    (t.plugin.board ≡ (move g d s.plugin.board).1)
    × ((t.plugin.rng ≡ s.plugin.rng)
        × (length t.frames
            ≡ length s.frames + (if (move g d s.plugin.board).0.changed then 1 else 0)))
Follows colors g starts_over s t =
    let drawn = g.draw (2 ^ 64 - 1) s.plugin.rng in
    (t.plugin.board ≡ reset g drawn.0 s.plugin.board)
    × ((t.plugin.rng ≡ drawn.1) × (length t.frames ≡ length s.frames + 1))
Follows colors g nothing s t = (t.plugin ≡ s.plugin) × (length t.frames ≡ length s.frames)

run_command :
    (colors : Palette) (g : Generator) → Command → Window colors g → Bool × Window colors g
unfolding try_move restart
run_command colors g (moves d) w = try_move colors g d w
run_command colors g starts_over w = restart colors g w
run_command colors g nothing w = (false, w)

press-run_command :
    (colors : Palette) (g : Generator) (key : ℕ) (w : Window colors g)
    → press colors g key w ≡ run_command colors g (command_of true key) w
unfolding press lookup run_command
press-run_command colors g key w = ground arith

add_zero : (n : ℕ) → n + 0 ≡ n
add_zero n = omega arith

run_command-Follows :
    (colors : Palette) (g : Generator) (c : Command) (s t : State (Window colors g))
    → let r = run_command colors g c s.plugin in
      length t.frames ≡ length s.frames + (if r.0 then 1 else 0)
      → t.plugin ≡ r.1
      → Follows colors g c s t
unfolding run_command try_move restart
run_command-Follows colors g (moves d) s t f p = (ap (λ w. w.board) p, (ap (λ w. w.rng) p, f))
run_command-Follows colors g starts_over s t f p = (ap (λ w. w.board) p, (ap (λ w. w.rng) p, f))
run_command-Follows colors g nothing s t f p = (p, omega (arith, f))

module _ (little : Bool) (colors : Palette) (g : Generator) (kb : UiMessageKeyboard)
    (s : State (Window colors g)) (w : WindowRuntime) (v : IsPlaying s w) where
  -- Whether the key is one that the game repaints for.
  abbrev repaints : Bool
  repaints = kb.down == 1 && (press colors g kb.key s.plugin).0

  repaint :
      (p : Window colors g)
      → let t =
          on_window_damage little
            (game colors g)
            (full_window colors g)
            (record s { plugin = p }) in
        (length t.frames ≡ length s.frames + 1) × (t.plugin ≡ p)
  unfolding on_window_damage
  repaint p =
      let before : State (Window colors g) = record s { plugin = p } in
      let c = clip w (full_window colors g) in
      let inside : (not (less c.l c.r) || not (less c.t c.b)) ≡ false =
        ground (arith, v.width_ok, v.height_ok) in
      let damaged =
        with_window-some before _ v.window_ok
        ∙ if-false (not (less c.l c.r) || not (less c.t c.b)) before _ inside in
      let drawn =
        dispatch_draw_and_send-frame little (game colors g) (magnitude c.l) (magnitude c.t)
          (magnitude c.r) (magnitude c.b) before w v.window_ok v.alive v.handled v.sends in
      (ap (λ u. length u.frames) damaged ∙ drawn.0, ap (λ u. u.plugin) damaged ∙ drawn.1)

  listens : is_listening little (game colors g) s ≡ true
  listens =
      ap (λ o. with_window o false (λ x. not x.destroyed && x.has_handler)) v.window_ok
      ∙ ground (arith, v.alive, v.handled)

  keyed :
      let t = run_script little (game colors g) (do_keyboard colors g kb s.plugin) s in
      (length t.frames ≡ length s.frames + (if repaints then 1 else 0))
      × (t.plugin ≡ (if kb.down == 1 then (press colors g kb.key s.plugin).1 else s.plugin))
  unfolding run_script do_call do_keyboard
  keyed = elim (Bool-cases (kb.down == 1)) [
    | inr released ↦ rw released (omega arith, refl)
    | inl pressed ↦ elim (Bool-cases (press colors g kb.key s.plugin).0) [
      | inr same ↦ rw (pressed, same) (omega arith, refl)
      | inl changed ↦ rw (pressed, changed) (repaint (press colors g kb.key s.plugin).1)
    ]
  ]

  heard :
      let t = dispatch_input little (game colors g) (keyboard_input kb) s in
      (length t.frames ≡ length s.frames + (if repaints then 1 else 0))
      × (t.plugin ≡ (if kb.down == 1 then (press colors g kb.key s.plugin).1 else s.plugin))
  unfolding dispatch_input
  heard =
      let same =
        ap
          (λ c.
            if c then run_script little (game colors g) (do_keyboard colors g kb s.plugin) s else s)
          listens in
      (ap (λ u. length u.frames) same ∙ keyed.0, ap (λ u. u.plugin) same ∙ keyed.1)

  -- A key reaches the game. The arrow keys 37 to 40, pressed, move the tiles left, up, right and down, and send a
  -- frame if that changes the board; F2, pressed, starts a new game from a new seed and sends a
  -- frame; any other key, and a key that is not pressed, changes nothing and sends none. The
  -- host has the window of the game, alive, with its handler and of its size, and a sink.
  pub dispatch_input-Follows :
      Follows colors g
        (command_of (kb.down == 1) kb.key)
        s
        (dispatch_input little (game colors g) (keyboard_input kb) s)
  dispatch_input-Follows =
      let t = dispatch_input little (game colors g) (keyboard_input kb) s in
      elim (Bool-cases (kb.down == 1)) [
        | inr released ↦ rw released (
          heard.1 ∙ ap (λ b. if b then (press colors g kb.key s.plugin).1 else s.plugin) released,
          heard.0
              ∙ ap
                  (λ b.
                    length s.frames + (if b && (press colors g kb.key s.plugin).0 then 1 else 0))
                  released
              ∙ add_zero (length s.frames),
        )
        | inl pressed ↦
            let as_command = press-run_command colors g kb.key s.plugin in
            rw pressed (
              run_command-Follows colors g (command_of true kb.key) s t
                (heard.0
                  ∙ ap
                      (λ b.
                        length s.frames
                        + (if b && (press colors g kb.key s.plugin).0 then 1 else 0))
                      pressed
                  ∙ ap (λ r. length s.frames + (if r.0 then 1 else 0)) as_command)
                (heard.1
                  ∙ ap (λ b. if b then (press colors g kb.key s.plugin).1 else s.plugin) pressed
                  ∙ ap (λ r. r.1) as_command))
      ]
