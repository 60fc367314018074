-- ===== src/Tui/Sound/Sessions.antt =====
-- A session: from the start of the interface, over all the frames, keys and mouse events that follow.
use v2ray_subscription_manag.Prelude.{
  ℕ, ◌≢◌, if◌then◌else◌, Bool, true, false, not, ◌&&◌, String, List, [], ◌∷◌, Option,
}
use Prim.Native.Char.{code}
use v2ray_subscription_manag.Config.{AppConfig}
use v2ray_subscription_manag.Tui.{
  toggle_selected, save_file, InputMode, no_input, command, name_input, url_input, priority_input,
  reset_confirm, clean_cache_confirm, new_subscription_input, config_value,
}
use v2ray_subscription_manag.Tui.Input.{
  KeyCode, esc, enter, backspace, delete, up, down, other_key, char_key, handle_input_key,
}
use v2ray_subscription_manag.Tui.Actions.{
  EventResult, go_on, quit, panicked, failed, Session, set_tui,
}
use v2ray_subscription_manag.Tui.Events.{
  Key, Host, Deletion, deleted, not_deleted, thread_panicked, Command, quit_command, empty_command,
  unknown_command, action_command, NormalChar, quit_char, up_char, down_char, edit_char,
  command_char, toggle_char, save_char, plain_char, normal_char, execute, is_char, go_back,
  is_back_shortcut, run_command, handle_command_key, cleared_session, handle_clean_cache_key,
  handle_normal_char, handle_normal_key, handle_mode, handle_key, Event, frame, key_event,
  mouse_event, go_on_with, handle_event, handle_events,
}
use v2ray_subscription_manag.Tui.Sound.{IsSound}
use v2ray_subscription_manag.Tui.Sound.Editing.{start_input-IsSound, handle_input_key-IsSound}
use v2ray_subscription_manag.Tui.Sound.Pointing.{
  move_up-IsSound, move_down-IsSound, edit_selected_subscription-IsSound, go_back-IsSound,
  handle_mouse-IsSound, draw-IsSound,
}
use v2ray_subscription_manag.Tui.Sound.Keys.{
  IsSoundSession, Keeps, go_on-ne-panicked, run_action-Keeps, activate_view-Keeps,
}

quit-ne-panicked : quit ≢ panicked
quit-ne-panicked e = cc e

failed-ne-panicked : (error : String) → failed error ≢ panicked
failed-ne-panicked error e = cc e

module _ {Address : Type 0} where
  if-Keeps :
      (b : Bool) (r q : Session Address × EventResult)
      → Keeps r
      → Keeps q
      → Keeps (if b then r else q)
  if-Keeps true r q hr hq = hr
  if-Keeps false r q hr hq = hq

  go_on_with-Keeps :
      (r later : Session Address × EventResult) → Keeps r → Keeps later → Keeps (go_on_with r later)
  go_on_with-Keeps (w, go_on) later h k = k
  go_on_with-Keeps (w, quit) later h k = h
  go_on_with-Keeps (w, panicked) later h k = h
  go_on_with-Keeps (w, failed error) later h k = h

module _ {Address : Type 0} (parse_address : String → Option Address)
    (print_address : Address → String) (port_of : Address → ℕ) (generated : String)
    (defaults : AppConfig Address) where
  module _ (host : Host Address) (w : Session Address) (h : IsSoundSession w) where
    execute-Keeps :
        (c : Command) (text : String)
        → Keeps (execute parse_address print_address port_of generated defaults host w c text)
    unfolding execute
    execute-Keeps quit_command text = (h, quit-ne-panicked)
    execute-Keeps (action_command action) text = run_action-Keeps host w h action
    execute-Keeps empty_command text = (h, go_on-ne-panicked)
    execute-Keeps unknown_command text = (h, go_on-ne-panicked)

  module _ (host : Host Address) (w : Session Address) (h : IsSoundSession w) where
    run_command-Keeps :
        Keeps (run_command parse_address print_address port_of generated defaults host w)
    unfolding run_command
    run_command-Keeps = execute-Keeps host _ (h.0, h.1, h.2, tt) _ _

    handle_command_key-Keeps :
        (key : KeyCode)
        → Keeps
            (handle_command_key parse_address print_address port_of generated defaults host w key)
    unfolding handle_command_key
    handle_command_key-Keeps esc = ((h.0, h.1, h.2, tt), go_on-ne-panicked)
    handle_command_key-Keeps enter = run_command-Keeps
    handle_command_key-Keeps backspace = (h, go_on-ne-panicked)
    handle_command_key-Keeps (char_key c) = (h, go_on-ne-panicked)
    handle_command_key-Keeps delete = (h, go_on-ne-panicked)
    handle_command_key-Keeps up = (h, go_on-ne-panicked)
    handle_command_key-Keeps down = (h, go_on-ne-panicked)
    handle_command_key-Keeps other_key = (h, go_on-ne-panicked)

    cleared_session-Keeps :
        (deletion : Deletion)
        → Keeps
            (cleared_session parse_address print_address port_of generated defaults host w deletion)
    cleared_session-Keeps deleted = ((h.0, h.1, h.2, tt), go_on-ne-panicked)
    cleared_session-Keeps (not_deleted error) = ((h.0, h.1, h.2, tt), go_on-ne-panicked)
    cleared_session-Keeps thread_panicked = (h, failed-ne-panicked _)

    handle_clean_cache_key-Keeps :
        (key : KeyCode)
        → Keeps (
            handle_clean_cache_key parse_address print_address port_of generated defaults host w
              key)
    unfolding handle_clean_cache_key
    handle_clean_cache_key-Keeps esc = ((h.0, h.1, h.2, tt), go_on-ne-panicked)
    handle_clean_cache_key-Keeps enter =
        if-Keeps _ _ _ (cleared_session-Keeps host.delete_all) (h, go_on-ne-panicked)
    handle_clean_cache_key-Keeps backspace = (h, go_on-ne-panicked)
    handle_clean_cache_key-Keeps (char_key c) = (h, go_on-ne-panicked)
    handle_clean_cache_key-Keeps delete = (h, go_on-ne-panicked)
    handle_clean_cache_key-Keeps up = (h, go_on-ne-panicked)
    handle_clean_cache_key-Keeps down = (h, go_on-ne-panicked)
    handle_clean_cache_key-Keeps other_key = (h, go_on-ne-panicked)

    handle_normal_char-Keeps :
        (c : NormalChar)
        → Keeps (handle_normal_char parse_address print_address port_of generated defaults host w c)
    unfolding handle_normal_char
    handle_normal_char-Keeps quit_char = (h, quit-ne-panicked)
    handle_normal_char-Keeps up_char = (move_up-IsSound w.file w.tui h, go_on-ne-panicked)
    handle_normal_char-Keeps down_char = (move_down-IsSound w.file w.tui h, go_on-ne-panicked)
    handle_normal_char-Keeps edit_char =
        (edit_selected_subscription-IsSound w.file w.tui h, go_on-ne-panicked)
    handle_normal_char-Keeps command_char =
        (start_input-IsSound w.file w.tui h command "" tt, go_on-ne-panicked)
    handle_normal_char-Keeps toggle_char = run_action-Keeps host w h toggle_selected
    handle_normal_char-Keeps save_char = run_action-Keeps host w h save_file
    handle_normal_char-Keeps plain_char = (h, go_on-ne-panicked)

    handle_normal_key-Keeps :
        (key : KeyCode)
        → Keeps
            (handle_normal_key parse_address print_address port_of generated defaults host w key)
    unfolding handle_normal_key
    handle_normal_key-Keeps esc = (go_back-IsSound w.file w.tui h, go_on-ne-panicked)
    handle_normal_key-Keeps enter =
        activate_view-Keeps parse_address print_address port_of generated defaults host w h
          w.tui.view
    handle_normal_key-Keeps up = (move_up-IsSound w.file w.tui h, go_on-ne-panicked)
    handle_normal_key-Keeps down = (move_down-IsSound w.file w.tui h, go_on-ne-panicked)
    handle_normal_key-Keeps (char_key c) = handle_normal_char-Keeps (normal_char (code c))
    handle_normal_key-Keeps backspace = (h, go_on-ne-panicked)
    handle_normal_key-Keeps delete = (h, go_on-ne-panicked)
    handle_normal_key-Keeps other_key = (h, go_on-ne-panicked)

    typed :
        (key : KeyCode)
        → IsSound w.file (handle_input_key parse_address print_address generated defaults w.tui key)
    typed = handle_input_key-IsSound w.file w.tui h parse_address print_address generated defaults

    handle_mode-Keeps :
        (mode : InputMode) (key : KeyCode)
        → Keeps (handle_mode parse_address print_address port_of generated defaults host w mode key)
    unfolding handle_mode
    handle_mode-Keeps command key = handle_command_key-Keeps key
    handle_mode-Keeps clean_cache_confirm key = handle_clean_cache_key-Keeps key
    handle_mode-Keeps no_input key = handle_normal_key-Keeps key
    handle_mode-Keeps (new_subscription_input step) key = (typed key, go_on-ne-panicked)
    handle_mode-Keeps name_input key = (typed key, go_on-ne-panicked)
    handle_mode-Keeps url_input key = (typed key, go_on-ne-panicked)
    handle_mode-Keeps priority_input key = (typed key, go_on-ne-panicked)
    handle_mode-Keeps reset_confirm key = (typed key, go_on-ne-panicked)
    handle_mode-Keeps (config_value setting) key = (typed key, go_on-ne-panicked)

    handle_key-Keeps :
        (key : Key)
        → Keeps (handle_key parse_address print_address port_of generated defaults host w key)
    unfolding handle_key
    handle_key-Keeps key =
        let modal =
          handle_mode parse_address print_address port_of generated defaults host w w.tui.input_mode
            key.key_code in
        let unquit = if is_back_shortcut key then (set_tui w (go_back w.tui), go_on) else modal in
        let pressed = if key.control && is_char key.key_code 99 then (w, quit) else unquit in
        if-Keeps (not key.is_press) (w, go_on) pressed (h, go_on-ne-panicked)
          (if-Keeps (key.control && is_char key.key_code 99) (w, quit) unquit (h, quit-ne-panicked)
            (if-Keeps (is_back_shortcut key) (set_tui w (go_back w.tui), go_on) modal
              (go_back-IsSound w.file w.tui h, go_on-ne-panicked)
              (handle_mode-Keeps w.tui.input_mode key.key_code)))

  handle_event-Keeps :
      (w : Session Address) (event : Event Address)
      → IsSoundSession w
      → Keeps (handle_event parse_address print_address port_of generated defaults w event)
  unfolding handle_event
  handle_event-Keeps w (frame layout) h = (draw-IsSound w.file layout w.tui h, go_on-ne-panicked)
  handle_event-Keeps w (key_event host key) h = handle_key-Keeps host w h key
  handle_event-Keeps w (mouse_event mouse) h =
      (handle_mouse-IsSound w.file w.tui h mouse, go_on-ne-panicked)

  -- What is left of the events when one of them does not go on is not handled.
  pub handle_events-Keeps :
      (w : Session Address) (events : List (Event Address))
      → IsSoundSession w
      → Keeps (handle_events parse_address print_address port_of generated defaults w events)
  unfolding handle_events
  handle_events-Keeps w [] h = (h, go_on-ne-panicked)
  handle_events-Keeps w (event ∷ events) h =
      let next = handle_event parse_address print_address port_of generated defaults w event in
      let (sound, fine) = handle_event-Keeps w event h in
      go_on_with-Keeps next _ (sound, fine) (handle_events-Keeps next.0 events sound)
