-- ===== src/Tui/Events/Moves.antt =====
-- What a key may ask of the host, the moves within and between the menus, and the switches that are
-- saved at once, of tui/events.rs.
use Prim.Native.Char.{code}
use v2ray_subscription_manag.Prelude.{
  ℕ, ◌+◌, ◌-◌, ◌%◌, Bool, true, false, not, ◌&&◌, ◌||◌, String, Option, none, length, ◌==◌, min_of,
  saturating_add, u64_max, if◌then◌else◌, str_append,
}
use v2ray_subscription_manag.Prelude.Decimal.{decimal}
use v2ray_subscription_manag.Config.{AppConfig}
use v2ray_subscription_manag.Config.Validate.{Checked, ok, err}
use v2ray_subscription_manag.Config.Editor.{ConfigKey, reset_defaults}
use v2ray_subscription_manag.Tui.{
  main_menu, subscription_menu, new_subscription_menu, subscription_action_menu, configuration_menu,
  log_menu, no_input, TuiState, main_items, subscription_actions, config_keys,
}
use v2ray_subscription_manag.Tui.Input.{KeyCode, backspace, delete, char_key}
use v2ray_subscription_manag.Tui.Actions.{
  EventResult, Session, runtime_of, enabled_word, set_tui, saved, persistable_config,
}
use v2ray_subscription_manag.Tui.Mouse.{is_subscription_view}

pub record Key : Type 0 where
  pub is_press : Bool
  pub control : Bool
  pub key_code : KeyCode

-- How the thread ends that deletes all of the database.
pub data Deletion : Type 0 where
  deleted : Deletion
  not_deleted : String → Deletion
  thread_panicked : Deletion

pub record Host (Address : Type 0) : Type 0 where
  pub save_error : AppConfig Address → Option String
  pub config_path : String
  pub config_locked : Bool
  pub firewall : Bool → ℕ → Checked String
  pub open_config : String
  pub delete_all : Deletion
  pub millis : ℕ

abbrev pub is_char : KeyCode → ℕ → Bool
is_char (char_key c) n = code c == n
is_char _ n = false

abbrev pub is_back_key : KeyCode → Bool
is_back_key backspace = true
is_back_key delete = true
is_back_key (char_key c) = (code c == 104) || (code c == 72)
is_back_key _ = false

unfoldable pub is_back_shortcut : Key → Bool
is_back_shortcut key = key.control && is_back_key key.key_code

unfoldable pub reset_code_of : ℕ → String
reset_code_of millis = decimal (millis % 9000 + 1000)

abbrev pub is_reset : ConfigKey → Bool
is_reset reset_defaults = true
is_reset _ = false

abbrev pub firewall_status : String → Bool → Checked String → String
firewall_status what enabled (ok message) = message
firewall_status what enabled (err error) =
    str_append what
      (str_append (enabled_word enabled) (str_append "; firewall not changed: " error))

module _ {Address : Type 0} where
  unfoldable pub move_up : TuiState Address → TuiState Address
  move_up s = elim s.view [
    | main_menu ↦ record s { selected_main = s.selected_main - 1 }
    | subscription_menu ↦ record s { selected_subscription = s.selected_subscription - 1 }
    | new_subscription_menu ↦ s
    | subscription_action_menu ↦ record s { selected_action = s.selected_action - 1 }
    | configuration_menu ↦ record s { selected_config = s.selected_config - 1 }
    | log_menu ↦ record s { selected_log = saturating_add u64_max s.selected_log 1 }
  ]

  unfoldable pub move_down : TuiState Address → TuiState Address
  move_down s = elim s.view [
    | main_menu ↦ record s { selected_main = min_of (s.selected_main + 1) (length main_items - 1) }
    | subscription_menu ↦ record s {
      selected_subscription =
          min_of (s.selected_subscription + 1) (length s.editable.subscriptions);
    }
    | new_subscription_menu ↦ s
    | subscription_action_menu ↦ record s {
      selected_action = min_of (s.selected_action + 1) (length subscription_actions - 1);
    }
    | configuration_menu ↦ record s {
      selected_config = min_of (s.selected_config + 1) (length config_keys - 1);
    }
    | log_menu ↦ record s { selected_log = s.selected_log - 1 }
  ]

  unfoldable pub go_back : TuiState Address → TuiState Address
  go_back s = elim s.view [
    | new_subscription_menu ↦ record s {
      view = subscription_menu;
      input_mode = no_input;
      input = "";
      new_subscription = none;
    }
    | subscription_action_menu ↦ record s { view = subscription_menu }
    | _ ↦ record s { view = main_menu }
  ]

  unfoldable pub edit_selected_subscription : TuiState Address → TuiState Address
  edit_selected_subscription s =
      if not (is_subscription_view s.view)
      then s
      else if s.selected_subscription == 0
      then record s { status = "Press Enter to add a new subscription" }
      else record s { view = subscription_action_menu }

  abbrev pub cancel_command : TuiState Address → TuiState Address
  cancel_command s = record s { input = ""; input_mode = no_input; status = "Command cancelled" }

  -- Three states: disabled, enabled (local), enabled (LAN).
  unfoldable pub cycle_proxy : AppConfig Address → AppConfig Address
  cycle_proxy c =
      if not c.proxy.enabled
      then record c { proxy = record c.proxy { enabled = true; discoverable = false } }
      else if not c.proxy.discoverable
      then record c { proxy = record c.proxy { discoverable = true } }
      else record c { proxy = record c.proxy { enabled = false; discoverable = false } }

  unfoldable pub toggle_sharing : AppConfig Address → AppConfig Address
  toggle_sharing c = record c { sharing = record c.sharing { enabled = not c.sharing.enabled } }

  unfoldable pub update_live_runtime_config : Bool → Session Address → Session Address
  update_live_runtime_config locked w =
      if locked
      then set_tui w (record w.tui {
        status = "Config saved; live server update is waiting for config reload";
      })
      else record w { runtime = runtime_of w.tui.editable }

  -- What follows the saving of a switch: the server is told and the firewall follows.
  unfoldable pub apply_live : Host Address → String → Bool → ℕ → Session Address → Session Address
  apply_live host what enabled port w =
      let live = update_live_runtime_config host.config_locked w in
      set_tui live (record live.tui {
        dirty = false;
        status = firewall_status what enabled (host.firewall enabled port);
      })

  unfoldable pub switch_and_save :
      Host Address
      → Session Address
      → AppConfig Address
      → String
      → Bool
      → ℕ
      → Session Address × EventResult
  switch_and_save host w config what enabled port =
      saved (set_tui w (record w.tui { editable = config; dirty = true }))
        (apply_live host what enabled port) (host.save_error (persistable_config config))
