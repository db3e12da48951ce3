-- ===== src/Tests/Handed.antt =====
-- An event on its way from the reader to the handler of a plugin.
use protocol_design.Prelude.{true, false, ◌≡◌, refl, List, [], ◌∷◌, ◌++◌}
use protocol_design.Common.Rect.{rect}
use protocol_design.Common.InputEvent.{no_mouse}
use protocol_design.Apphost.UiHost.{
  State, Plugin, Script, finished, call, create_toplevel, set_message_handler, damage, InputEvent,
  mouse_input, keyboard_input, start, set_pixel_data_sink, drain_input, push_input,
  on_host_post_work, run_script, do_call, on_host_create_toplevel, on_window_set_message_handler,
  loop_round, goes_on, dispatch_input, take_input,
}
use protocol_design.Apphost.UiHost.Schedule.{begins, later, pushes, posts, runs, loops}
use protocol_design.Apphost.UiHost.Handed.{
  IsRecording, Leaves, leaves_finished, leaves_call, Reach-handed,
}

-- A plugin that repaints a pixel for each event of the mouse, and keeps its input.
abbrev recorder : Plugin (List InputEvent)
recorder = record {
  on_draw = λ pixels w h q p. (pixels, p);
  on_mouse = λ m p. call (damage (rect 0 0 1 1)) (p ++ mouse_input m ∷ []) (λ p'. finished p');
  on_keyboard = λ kb p. finished (p ++ keyboard_input kb ∷ []);
  on_work = λ n p. finished p;
  on_close = λ p. finished p;
}

abbrev itself : List InputEvent → List InputEvent
itself p = p

recorder-IsRecording : IsRecording recorder itself
recorder-IsRecording = record {
  records_mouse = λ m p. leaves_call _ _ _ refl (λ q e. leaves_finished q e);
  records_keyboard = λ kb p. leaves_finished _ refl;
  keeps_work = λ n p. leaves_finished p refl;
  keeps_draw = λ pixels w h q p. refl;
}

-- The window is created with its handler.
abbrev opening : Script (List InputEvent)
opening = call (create_toplevel 64 2 1) [] (λ p. call set_message_handler p (λ p'. finished p'))

opening-Leaves : Leaves itself [] opening
opening-Leaves =
    leaves_call _ _ _ refl (λ p e. leaves_call _ _ _ e (λ p' e'. leaves_finished p' e'))

abbrev begun : State (List InputEvent)
begun = set_pixel_data_sink (start [])

abbrev opened : State (List InputEvent)
opened = run_script true recorder opening begun

abbrev pushed : State (List InputEvent)
pushed = (push_input (mouse_input no_mouse) opened).1

abbrev posted : State (List InputEvent)
posted = on_host_post_work drain_input pushed

abbrev taken : State (List InputEvent)
taken = take_input (record posted { post_queue = [] })

abbrev given : State (List InputEvent)
given = dispatch_input true recorder (mouse_input no_mouse) (record taken { local = [] })

takes : loop_round true recorder posted ≡ goes_on taken
unfolding loop_round run_script do_call on_host_create_toplevel on_window_set_message_handler
    push_input on_host_post_work set_pixel_data_sink take_input
takes = refl

gives : loop_round true recorder taken ≡ goes_on given
unfolding loop_round run_script do_call on_host_create_toplevel on_window_set_message_handler
    push_input on_host_post_work set_pixel_data_sink take_input dispatch_input
gives = refl

Reach-handed_example :
    mouse_input no_mouse ∷ [] ≡ itself given.plugin ++ (given.local ++ given.input_queue)
unfolding run_script do_call on_host_create_toplevel on_window_set_message_handler push_input
    on_host_post_work set_pixel_data_sink take_input
Reach-handed_example =
    Reach-handed true recorder itself recorder-IsRecording []
      (later _ _ _
        (later _ _ _
          (later _ _ _
            (later _ _ _ (later _ _ _ begins (runs opening begun false))
              (pushes (mouse_input no_mouse) opened))
            (posts pushed))
          (loops posted taken false takes))
        (loops taken given false gives))
      (((((tt, opening-Leaves), tt), tt), λ h. absurd (h refl)), λ h. refl) refl

given_run : given.plugin ≡ mouse_input no_mouse ∷ []
unfolding run_script do_call on_host_create_toplevel on_window_set_message_handler push_input
    on_host_post_work set_pixel_data_sink take_input dispatch_input
given_run = refl
