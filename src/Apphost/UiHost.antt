-- ===== src/Apphost/UiHost.antt =====
-- src/apphost/ui_host_impl.cpp: the host of the one window of a plugin. The plugin is a parameter: its
-- state, how it draws, and what its other handlers do, as a script of the calls that they make. A
-- handler of UI_MESSAGE_DRAW makes no calls. A method that holds the mutex for its whole body is one
-- step; `post_mouse_input` and `post_keyboard_input` hold it twice, and are split there.
pub mod Calls
pub mod Schedule
pub mod Handed
pub mod Termination
pub mod Mirror
use protocol_design.Prelude.{
  ℕ, zero, suc, ◌+◌, ◌*◌, List, [], ◌∷◌, ◌++◌, Bool, true, false, not, ◌&&◌, ◌||◌, Option, none,
  some, if◌then◌else◌, ◌==◌, replicate, u32,
}
use protocol_design.Prelude.Int.{ℤ, pos, less, magnitude, smaller, larger}
use protocol_design.Common.Rect.{UiRect, rect}
use protocol_design.Common.InputEvent.{UiMessageMouse, UiMessageKeyboard}
use protocol_design.Apphost.PixelCapture.{pack_pixel_data_rect}

-- A message handler is there, or is null.
pub record WindowRuntime : Type 0 where
  pub id : ℕ
  pub width : ℕ
  pub height : ℕ
  pub pixels : List ℕ
  pub has_handler : Bool
  pub destroyed : Bool

-- WorkProc: a null one, `drain_input_work_static`, and those of the plugin by a number.
pub data Work : Type 0 where
  null_work drain_input : Work
  plugin_work : ℕ → Work

pub data InputEvent : Type 0 where
  mouse_input : UiMessageMouse → InputEvent
  keyboard_input : UiMessageKeyboard → InputEvent

-- The calls of IUiHost and IUiToplevel that change something. An address is the one that
-- `make_unique` gives.
pub data Call : Type 0 where
  create_toplevel : (address width height : ℕ) → Call
  set_message_handler : Call
  show_window : Bool → Call
  damage : UiRect → Call
  destroy : ℕ → Call
  post_work : ℕ → Call
  quit : Call

-- What a handler does: it ends with a state of the plugin, or makes a call and goes on with the state
-- that the call leaves.
pub data Script (P : Type 0) : Type 0 where
  finished : P → Script P
  call : Call → P → (P → Script P) → Script P

pub record Plugin (P : Type 0) : Type 0 where
  pub on_draw : List ℕ → ℕ → ℕ → UiRect → P → List ℕ × P
  pub on_mouse : UiMessageMouse → P → Script P
  pub on_keyboard : UiMessageKeyboard → P → Script P
  pub on_work : ℕ → P → Script P
  pub on_close : P → Script P

-- UiHostImpl::State, with the state of the plugin, the bodies given to the sink (`none` for one that
-- is written past its end), and the local queue of `drain_input_queue_on_main_thread`.
pub record State (P : Type 0) : Type 0 where
  pub plugin : P
  pub window : Option WindowRuntime
  pub quit_flag : Bool
  pub post_queue : List Work
  pub input_queue : List InputEvent
  pub input_work_pending : Bool
  pub has_sink : Bool
  pub frame_seq : ℕ
  pub frames : List (Option (List ℕ))
  pub local : List InputEvent

pub data Round (P : Type 0) : Type 0 where
  waits returned : Round P
  goes_on : State P → Round P

abbrev pub start : {P : Type 0} → P → State P
start p = record {
  plugin = p;
  window = none;
  quit_flag = false;
  post_queue = [];
  input_queue = [];
  input_work_pending = false;
  has_sink = false;
  frame_seq = 0;
  frames = [];
  local = [];
}

-- The calls of a window are those of the one that the host has: with the id of one that is gone
-- they are undefined, and here they do nothing.
abbrev pub with_window {ℓ} : {A : Type ℓ} → Option WindowRuntime → A → (WindowRuntime → A) → A
with_window none otherwise f = otherwise
with_window (some w) otherwise f = f w

-- The corners of a damaged rectangle, cut down to the window.
abbrev pub clip : WindowRuntime → UiRect → UiRect
clip w q = record {
  l = larger q.l (pos 0);
  t = larger q.t (pos 0);
  r = smaller q.r (pos w.width);
  b = smaller q.b (pos w.height);
}

module _ {P : Type 0} where
  unfoldable pub set_pixel_data_sink : State P → State P
  set_pixel_data_sink s = record s { has_sink = true }

  -- on_host_quit
  unfoldable pub request_quit : State P → State P
  request_quit s = record s { quit_flag = true }

  unfoldable pub on_host_post_work : Work → State P → State P
  on_host_post_work work s = record s { post_queue = s.post_queue ++ (work ∷ []) }

  -- The first critical section of `post_mouse_input` and `post_keyboard_input`, and whether to post.
  unfoldable pub push_input : InputEvent → State P → Bool × State P
  push_input ev s = (
    not s.input_work_pending,
    record s { input_queue = s.input_queue ++ (ev ∷ []); input_work_pending = true },
  )

  unfoldable pub post_input : InputEvent → State P → State P
  unfolding push_input on_host_post_work
  post_input ev s =
      let (should_post, pushed) = push_input ev s in
      if should_post then on_host_post_work drain_input pushed else pushed

  unfoldable pub on_host_create_toplevel : ℕ → ℕ → ℕ → State P → ℕ × State P
  on_host_create_toplevel address width height s =
      let w : WindowRuntime = record {
        id = address;
        width = width;
        height = height;
        pixels = replicate (width * height) 0;
        has_handler = false;
        destroyed = false;
      } in
      with_window s.window (address, record s { window = some w }) (λ w. (0, s))

  unfoldable pub on_host_destroy : ℕ → State P → State P
  on_host_destroy id s =
      with_window s.window s (λ w. if w.id == id then record s { window = none } else s)

  unfoldable pub on_window_set_message_handler : State P → State P
  on_window_set_message_handler s =
      with_window s.window s (λ w. record s { window = some (record w { has_handler = true }) })

  abbrev pub on_window_get_size : State P → Option (ℕ × ℕ)
  on_window_get_size s = with_window s.window none (λ w. some (w.width, w.height))

  -- The critical section of `drain_input_queue_on_main_thread`: it swaps the queues.
  unfoldable pub take_input : State P → State P
  take_input s = record s { local = s.input_queue; input_queue = []; input_work_pending = false }

  -- `little` is the byte order of the host.
  module _ (little : Bool) (plugin : Plugin P) where
    unfoldable pub dispatch_draw_and_send : ℕ → ℕ → ℕ → ℕ → State P → State P
    dispatch_draw_and_send left top right bottom s = with_window s.window s (λ w.
        if w.destroyed || not w.has_handler
        then s
        else let (pixels, p) =
            plugin.on_draw w.pixels w.width w.height (rect left top right bottom) s.plugin in
          let drawn = record s { plugin = p; window = some (record w { pixels = pixels }) } in
          if not s.has_sink
          then drawn
          else let seq = u32 (s.frame_seq + 1) in
            record drawn {
              frame_seq = seq;
              frames =
                  s.frames
                  ++ (pack_pixel_data_rect little pixels w.width left top right bottom seq ∷ []);
            })

    unfoldable pub on_window_show : Bool → State P → State P
    unfolding dispatch_draw_and_send
    on_window_show shown s =
        if not shown
        then s
        else with_window s.window s (λ w. dispatch_draw_and_send 0 0 w.width w.height s)

    unfoldable pub on_window_damage : UiRect → State P → State P
    unfolding dispatch_draw_and_send
    on_window_damage q s = with_window s.window s (λ w.
        let c = clip w q in
        if not (less c.l c.r) || not (less c.t c.b)
        then s
        else dispatch_draw_and_send (magnitude c.l) (magnitude c.t) (magnitude c.r) (magnitude c.b)
            s)

    unfoldable pub do_call : Call → State P → State P
    unfolding on_host_create_toplevel on_host_destroy on_window_show on_window_damage request_quit
        on_window_set_message_handler on_host_post_work
    do_call (create_toplevel address width height) s =
        (on_host_create_toplevel address width height s).1
    do_call set_message_handler s = on_window_set_message_handler s
    do_call (show_window shown) s = on_window_show shown s
    do_call (damage q) s = on_window_damage q s
    do_call (destroy id) s = on_host_destroy id s
    do_call (post_work work) s = on_host_post_work (plugin_work work) s
    do_call quit s = request_quit s

    unfoldable pub run_script : Script P → State P → State P
    unfolding do_call
    run_script (finished p) s = record s { plugin = p }
    run_script (call c p next) s =
        let called = do_call c (record s { plugin = p }) in run_script (next called.plugin) called

    unfoldable pub on_window_set_close : State P → State P
    unfolding run_script
    on_window_set_close s =
        with_window s.window s
          (λ w. if w.has_handler then run_script (plugin.on_close s.plugin) s else s)

    -- Whether a window takes messages.
    abbrev pub is_listening : State P → Bool
    is_listening s = with_window s.window false (λ w. not w.destroyed && w.has_handler)

    -- dispatch_mouse and dispatch_keyboard
    unfoldable pub dispatch_input : InputEvent → State P → State P
    unfolding run_script
    dispatch_input (mouse_input m) s =
        if is_listening s then run_script (plugin.on_mouse m s.plugin) s else s
    dispatch_input (keyboard_input kb) s =
        if is_listening s then run_script (plugin.on_keyboard kb s.plugin) s else s

    -- item.work.Exec(item.data)
    unfoldable pub exec : Work → State P → State P
    unfolding run_script take_input
    exec null_work s = s
    exec drain_input s = take_input s
    exec (plugin_work work) s = run_script (plugin.on_work work s.plugin) s

    unfoldable pub round_of : List InputEvent → List Work → State P → Round P
    unfolding dispatch_input exec
    round_of (ev ∷ rest) works s = goes_on (dispatch_input ev (record s { local = rest }))
    round_of [] (work ∷ rest) s = goes_on (exec work (record s { post_queue = rest }))
    round_of [] [] s = if s.quit_flag then returned else waits

    -- A round of `on_host_loop`: the main thread goes on with an event that it holds, or with the first
    -- posted work; with none it returns, or waits to be notified.
    unfoldable pub loop_round : State P → Round P
    unfolding round_of
    loop_round s = round_of s.local s.post_queue s

    -- The loop, for `fuel` rounds, until it returns or waits.
    unfoldable pub run_loop : ℕ → State P → Bool × State P
    unfolding loop_round
    run_loop zero s = (false, s)
    run_loop (suc fuel) s = elim (loop_round s) [
      | waits ↦ (false, s)
      | returned ↦ (true, s)
      | goes_on s' ↦ run_loop fuel s'
    ]
