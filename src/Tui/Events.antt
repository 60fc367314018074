-- ===== src/Tui/Events.antt =====
-- The keys and the main menu, of tui/events.rs, and the frames and events of drain_events, of
-- tui.rs. What the host answers to a key is an argument: whether the file can be written, the
-- configuration of the server is locked, the firewall and the database answer, and the clock.
mod Moves
mod Menu
unfoldable pub use Moves.*
unfoldable pub use Menu.*
use Prim.Native.Char.{code}
use v2ray_subscription_manag.Prelude.{
  ℕ, ◌+◌, ◌-◌, ◌%◌, Bool, true, false, not, ◌&&◌, ◌||◌, String, List, [], ◌∷◌, Option, none, some,
  length, get_elem?, ◌==◌, min_of, saturating_add, u64_max, if◌then◌else◌, str_append, str_eq,
}
use v2ray_subscription_manag.Prelude.Decimal.{decimal}
use v2ray_subscription_manag.Text.{trim, is_one_of, is_empty_text, to_ascii_lowercase, starts_with}
use v2ray_subscription_manag.Config.{AppConfig}
use v2ray_subscription_manag.Config.Validate.{Checked, ok, err}
use v2ray_subscription_manag.Config.Editor.{ConfigKey, reset_defaults, value}
use v2ray_subscription_manag.Tui.{
  MenuView, main_menu, subscription_menu, new_subscription_menu, subscription_action_menu,
  configuration_menu, log_menu, MainItem, open_config_item, sharing_item, proxy_item,
  subscriptions_item, clean_cache_item, configurations_item, logs_item, SubscriptionAction,
  edit_name_row, edit_url_row, edit_priority_row, toggle_row, delete_row, back_row, Action, add_new,
  toggle_selected, delete_selected, edit_name, edit_url, edit_priority, save_file, InputMode,
  no_input, command, reset_confirm, clean_cache_confirm, config_value, TuiState, main_items,
  subscription_actions, config_keys,
}
use v2ray_subscription_manag.Tui.Input.{
  KeyCode, esc, enter, backspace, delete, up, down, char_key, start_input, pop_char, push_char,
  handle_input_key,
}
use v2ray_subscription_manag.Tui.Actions.{
  EventResult, go_on, quit, panicked, failed, Session, runtime_of, enabled_word, set_tui, saved,
  persistable_config, run_action,
}
use v2ray_subscription_manag.Tui.Mouse.{MouseEvent, handle_mouse, is_subscription_view}
use v2ray_subscription_manag.Tui.Screen.{Layout, draw}

-- The arms of run_command's match on the typed command, and of handle_normal_key's on a character.
pub data Command : Type 0 where
  quit_command empty_command unknown_command : Command
  action_command : Action → Command

unfoldable pub command_of : String → Command
command_of text =
    if is_one_of ("q" ∷ "quit" ∷ []) text
    then quit_command
    else if is_one_of ("a" ∷ "add" ∷ []) text
    then action_command add_new
    else if is_one_of ("n" ∷ "name" ∷ []) text
    then action_command edit_name
    else if is_one_of ("u" ∷ "url" ∷ []) text
    then action_command edit_url
    else if is_one_of ("p" ∷ "priority" ∷ []) text
    then action_command edit_priority
    else if is_one_of ("t" ∷ "toggle" ∷ []) text
    then action_command toggle_selected
    else if is_one_of ("d" ∷ "delete" ∷ []) text
    then action_command delete_selected
    else if is_one_of ("w" ∷ "save" ∷ []) text
    then action_command save_file
    else if is_empty_text text
    then empty_command
    else unknown_command

pub data NormalChar : Type 0 where
  quit_char up_char down_char edit_char command_char toggle_char save_char plain_char : NormalChar

unfoldable pub normal_char : ℕ → NormalChar
normal_char c =
    if c == 113
    then quit_char
    else if c == 107
    then up_char
    else if c == 106
    then down_char
    else if (c == 101) || (c == 69)
    then edit_char
    else if c == 58
    then command_char
    else if c == 32
    then toggle_char
    else if c == 115
    then save_char
    else plain_char

module _ {Address : Type 0} (parse_address : String → Option Address)
    (print_address : Address → String) (port_of : Address → ℕ) (generated : String)
    (defaults : AppConfig Address) (host : Host Address) where
  unfoldable pub execute : Session Address → Command → String → Session Address × EventResult
  execute w quit_command text = (w, quit)
  execute w (action_command action) text = run_action host.save_error host.config_path w action
  execute w empty_command text = (set_tui w (record w.tui { status = "Command cancelled" }), go_on)
  execute w unknown_command text = (
    set_tui w (record w.tui { status = str_append "Unknown command: :" (to_ascii_lowercase text) }),
    go_on,
  )

  unfoldable pub run_command : Session Address → Session Address × EventResult
  run_command w =
      execute (set_tui w (record w.tui { input = ""; input_mode = no_input }))
        (command_of (trim w.tui.input)) (trim w.tui.input)

  unfoldable pub handle_command_key : Session Address → KeyCode → Session Address × EventResult
  handle_command_key w esc = (set_tui w (cancel_command w.tui), go_on)
  handle_command_key w enter = run_command w
  handle_command_key w backspace = (set_tui w (pop_char w.tui), go_on)
  handle_command_key w (char_key c) = (set_tui w (push_char w.tui c), go_on)
  handle_command_key w _ = (w, go_on)

  -- A panic of the thread is an error of the handler, which leaves the input as it is.
  abbrev pub cleared_session : Session Address → Deletion → Session Address × EventResult
  cleared_session w deleted = (
    record w {
      cleared = w.cleared + 1;
      tui = record w.tui {
        status = "Clean cache finished: database cleared";
        input = "";
        input_mode = no_input;
      };
    },
    go_on,
  )
  cleared_session w (not_deleted error) = (
    set_tui w (record w.tui {
      status = str_append "Clean cache failed: " error;
      input = "";
      input_mode = no_input;
    }),
    go_on,
  )
  cleared_session w thread_panicked = (w, failed "database thread panicked")

  unfoldable pub handle_clean_cache_key : Session Address → KeyCode → Session Address × EventResult
  handle_clean_cache_key w esc = (
    set_tui w
        (record w.tui { input = ""; input_mode = no_input; status = "Clean cache cancelled" }),
    go_on,
  )
  handle_clean_cache_key w enter =
      if str_eq (trim w.tui.input) "DELETE"
      then cleared_session w host.delete_all
      else (set_tui w (record w.tui { status = "Type DELETE to clean cache" }), go_on)
  handle_clean_cache_key w backspace = (set_tui w (pop_char w.tui), go_on)
  handle_clean_cache_key w (char_key c) = (set_tui w (push_char w.tui c), go_on)
  handle_clean_cache_key w _ = (w, go_on)

  unfoldable pub handle_normal_char : Session Address → NormalChar → Session Address × EventResult
  handle_normal_char w quit_char = (w, quit)
  handle_normal_char w up_char = (set_tui w (move_up w.tui), go_on)
  handle_normal_char w down_char = (set_tui w (move_down w.tui), go_on)
  handle_normal_char w edit_char = (set_tui w (edit_selected_subscription w.tui), go_on)
  handle_normal_char w command_char = (set_tui w (start_input w.tui command ""), go_on)
  handle_normal_char w toggle_char = run_action host.save_error host.config_path w toggle_selected
  handle_normal_char w save_char = run_action host.save_error host.config_path w save_file
  handle_normal_char w plain_char = (w, go_on)

  unfoldable pub handle_normal_key : Session Address → KeyCode → Session Address × EventResult
  handle_normal_key w esc = (set_tui w (go_back w.tui), go_on)
  handle_normal_key w enter =
      activate_view parse_address print_address port_of generated defaults host w w.tui.view
  handle_normal_key w up = (set_tui w (move_up w.tui), go_on)
  handle_normal_key w down = (set_tui w (move_down w.tui), go_on)
  handle_normal_key w (char_key c) = handle_normal_char w (normal_char (code c))
  handle_normal_key w _ = (w, go_on)

  unfoldable pub handle_mode : Session Address → InputMode → KeyCode → Session Address × EventResult
  handle_mode w command key_code = handle_command_key w key_code
  handle_mode w clean_cache_confirm key_code = handle_clean_cache_key w key_code
  handle_mode w no_input key_code = handle_normal_key w key_code
  handle_mode w _ key_code = (
    set_tui w (handle_input_key parse_address print_address generated defaults w.tui key_code),
    go_on,
  )

  unfoldable pub handle_key : Session Address → Key → Session Address × EventResult
  handle_key w key =
      if not key.is_press
      then (w, go_on)
      else if key.control && is_char key.key_code 99
      then (w, quit)
      else if is_back_shortcut key
      then (set_tui w (go_back w.tui), go_on)
      else handle_mode w w.tui.input_mode key.key_code

-- The later events count if the event goes on.
abbrev pub go_on_with {ℓ} : {A : Type ℓ} → A × EventResult → A × EventResult → A × EventResult
go_on_with (w, go_on) later = later
go_on_with (w, result) later = (w, result)

-- What happens to the interface: a frame is drawn, a key is pressed or the mouse is used.
pub data Event (Address : Type 0) : Type 0 where
  frame : Layout → Event Address
  key_event : Host Address → Key → Event Address
  mouse_event : MouseEvent → Event Address

module _ {Address : Type 0} (parse_address : String → Option Address)
    (print_address : Address → String) (port_of : Address → ℕ) (generated : String)
    (defaults : AppConfig Address) where
  unfoldable pub handle_event : Session Address → Event Address → Session Address × EventResult
  handle_event w (frame layout) = (set_tui w (draw layout w.tui), go_on)
  handle_event w (key_event host key) =
      handle_key parse_address print_address port_of generated defaults host w key
  handle_event w (mouse_event mouse) = (set_tui w (handle_mouse w.tui mouse), go_on)

  -- The events until one does not go on.
  unfoldable pub handle_events :
      Session Address → List (Event Address) → Session Address × EventResult
  handle_events w [] = (w, go_on)
  handle_events w (event ∷ events) =
      let later = handle_events (handle_event w event).0 events in
      go_on_with (handle_event w event) later
