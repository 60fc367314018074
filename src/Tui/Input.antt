-- ===== src/Tui/Input.antt =====
-- The text that is typed into the interface, of tui/input_handlers.rs. The configuration of the
-- first run, which is parsed from a template, and what the settings menu needs are arguments.
use Prim.Native.Char.{Char}
use v2ray_subscription_manag.Prelude.{
  Bool, true, false, String, [], ◌∷◌, ◌++◌, Option, none, some, length, u32_max, if◌then◌else◌,
  str_append, str_eq, unwrap_or,
}
use v2ray_subscription_manag.Prelude.Decimal.{decimal}
use v2ray_subscription_manag.Text.{trim, is_one_of, is_empty_text, parse_unsigned}
use v2ray_subscription_manag.Config.{AppConfig, SubscriptionSource}
use v2ray_subscription_manag.Config.Validate.{ok, err}
use v2ray_subscription_manag.Config.Editor.{ConfigKey, drop_last, guide, apply}
use v2ray_subscription_manag.Tui.{
  subscription_menu, new_subscription_menu, NewSubscriptionStep, url_step, name_step, priority_step,
  enabled_step, InputMode, no_input, command, name_input, url_input, priority_input, reset_confirm,
  clean_cache_confirm, new_subscription_input, config_value, SubscriptionDraft, MenuView, TuiState,
  change_at, selected_subscription_index, set_subscriptions, next_subscription_priority,
}

-- The keys that the interface tells apart.
pub data KeyCode : Type 0 where
  esc enter backspace delete up down other_key : KeyCode
  char_key : Char → KeyCode

abbrev pub is_new_subscription_view : MenuView → Bool
is_new_subscription_view new_subscription_menu = true
is_new_subscription_view _ = false

abbrev pub new_subscription_guide : NewSubscriptionStep → String
new_subscription_guide url_step = "Step 1/4: enter the subscription URL"
new_subscription_guide name_step = "Step 2/4: enter a display name"
new_subscription_guide priority_step = "Step 3/4: enter priority as a number"
new_subscription_guide enabled_step = "Step 4/4: enable now? yes/no"

unfoldable pub parse_bool : String → Option Bool
parse_bool value =
    if is_one_of ("1" ∷ "true" ∷ "yes" ∷ "y" ∷ "on" ∷ "enabled" ∷ []) (trim value)
    then some true
    else if is_one_of ("0" ∷ "false" ∷ "no" ∷ "n" ∷ "off" ∷ "disabled" ∷ []) (trim value)
    then some false
    else none

abbrev pub mode_status : InputMode → Option String → String
mode_status command code = "Command mode; type add/name/url/priority/toggle/delete/save/q"
mode_status (new_subscription_input step) code = new_subscription_guide step
mode_status (config_value key) code = str_append (guide key) "; Enter applies, Esc cancels"
mode_status reset_confirm code =
    str_append "Type " (str_append (unwrap_or code "code") " to reset non-subscription settings")
mode_status clean_cache_confirm code = "Type DELETE to clean cached subscription snapshots"
mode_status _ code = "Edit mode; Enter applies, Esc cancels"

abbrev pub source_of_draft : SubscriptionDraft → Bool → SubscriptionSource
source_of_draft draft enabled = record {
  name = draft.name;
  url = draft.url;
  enabled = enabled;
  priority = draft.priority;
}

module _ {Address : Type 0} where
  unfoldable pub start_input : TuiState Address → InputMode → String → TuiState Address
  start_input s mode value = record s {
    input_mode = mode;
    input = value;
    status = mode_status mode s.reset_code;
  }

  unfoldable pub start_new_subscription : TuiState Address → TuiState Address
  start_new_subscription s =
      start_input
        (record s {
          view = new_subscription_menu;
          new_subscription = some (record {
            name = "";
            url = "";
            priority = next_subscription_priority s;
            enabled = true;
          });
        })
        (new_subscription_input url_step) ""

  abbrev pub finish_edit : TuiState Address → String → TuiState Address
  finish_edit s message = record s { input_mode = no_input; input = ""; status = message }

  -- The selected subscription, changed, if one is selected.
  unfoldable pub change_selected :
      TuiState Address → (SubscriptionSource → SubscriptionSource) → String → TuiState Address
  change_selected s f message = elim (selected_subscription_index s) [
    | none ↦ s
    | some i ↦
        finish_edit
          (record (set_subscriptions s (change_at f i s.editable.subscriptions)) { dirty = true })
          message
  ]

  unfoldable pub commit_name : TuiState Address → TuiState Address
  commit_name s =
      if is_empty_text (trim s.input)
      then record s { status = "Name cannot be empty" }
      else change_selected s (λ source. record source { name = trim s.input }) "Name updated"

  unfoldable pub commit_url : TuiState Address → TuiState Address
  commit_url s =
      if is_empty_text (trim s.input)
      then record s { status = "URL cannot be empty" }
      else change_selected s (λ source. record source { url = trim s.input }) "URL updated"

  unfoldable pub commit_priority : TuiState Address → TuiState Address
  commit_priority s = elim (parse_unsigned u32_max (trim s.input)) [
    | none ↦ record s { status = "Priority must be a number" }
    | some n ↦ change_selected s (λ source. record source { priority = n }) "Priority updated"
  ]

  unfoldable pub commit_new_url : TuiState Address → TuiState Address
  commit_new_url s =
      if is_empty_text (trim s.input)
      then record s { status = "URL cannot be empty" }
      else elim s.new_subscription [
        | none ↦ s
        | some draft ↦
            start_input (record s { new_subscription = some (record draft { url = trim s.input }) })
              (new_subscription_input name_step) ""
      ]

  unfoldable pub commit_new_name : TuiState Address → TuiState Address
  commit_new_name s =
      if is_empty_text (trim s.input)
      then record s { status = "Name cannot be empty" }
      else elim s.new_subscription [
        | none ↦ s
        | some draft ↦
            start_input
              (record s { new_subscription = some (record draft { name = trim s.input }) })
              (new_subscription_input priority_step) (decimal draft.priority)
      ]

  unfoldable pub commit_new_priority : TuiState Address → TuiState Address
  commit_new_priority s = elim (parse_unsigned u32_max (trim s.input)) [
    | none ↦ record s { status = "Priority must be a number" }
    | some n ↦ elim s.new_subscription [
      | none ↦ s
      | some draft ↦
          start_input (record s { new_subscription = some (record draft { priority = n }) })
            (new_subscription_input enabled_step) (if draft.enabled then "yes" else "no")
    ]
  ]

  unfoldable pub add_draft : TuiState Address → SubscriptionDraft → Bool → TuiState Address
  add_draft s draft enabled =
      let sources = s.editable.subscriptions ++ source_of_draft draft enabled ∷ [] in
      finish_edit
        (record (set_subscriptions s sources) {
          new_subscription = none;
          selected_subscription = length sources;
          view = subscription_menu;
          dirty = true;
        })
        "Subscription added"

  unfoldable pub commit_new_enabled : TuiState Address → TuiState Address
  commit_new_enabled s = elim (parse_bool (trim s.input)) [
    | none ↦ record s { status = "Enabled must be yes/no, true/false, on/off, or 1/0" }
    | some enabled ↦ elim s.new_subscription [
      | none ↦ record s { status = "New subscription draft is missing" }
      | some draft ↦ add_draft s draft enabled
    ]
  ]

  abbrev pub commit_new_subscription_step :
      TuiState Address → NewSubscriptionStep → TuiState Address
  commit_new_subscription_step s url_step = commit_new_url s
  commit_new_subscription_step s name_step = commit_new_name s
  commit_new_subscription_step s priority_step = commit_new_priority s
  commit_new_subscription_step s enabled_step = commit_new_enabled s

  abbrev pub cancel_edit : TuiState Address → TuiState Address
  cancel_edit s = record s {
    input_mode = no_input;
    view = if is_new_subscription_view s.view then subscription_menu else s.view;
    new_subscription = if is_new_subscription_view s.view then none else s.new_subscription;
    reset_code = none;
    input = "";
    status = "Edit cancelled";
  }

  -- The typed text, without its last character and with one more.
  abbrev pub pop_char : TuiState Address → TuiState Address
  pop_char s = record s { input = drop_last s.input }

  abbrev pub push_char : TuiState Address → Char → TuiState Address
  push_char s c = record s { input = str_append s.input (String.◌∷◌ c "") }

module _ {Address : Type 0} (parse_address : String → Option Address)
    (print_address : Address → String) (generated : String) (defaults : AppConfig Address) where
  unfoldable pub commit_config : TuiState Address → ConfigKey → TuiState Address
  commit_config s key = elim (apply parse_address print_address generated s.editable key s.input) [
    | ok config ↦ finish_edit (record s { editable = config; dirty = true }) "Configuration updated"
    | err error ↦ record s { status = error }
  ]

  unfoldable pub commit_reset : TuiState Address → TuiState Address
  commit_reset s =
      if str_eq (trim s.input) (unwrap_or s.reset_code "")
      then finish_edit
          (record s {
            editable = record defaults { subscriptions = s.editable.subscriptions };
            reset_code = none;
            dirty = true;
          })
          "Defaults restored; subscriptions kept"
      else record s { status = "Reset code did not match" }

  unfoldable pub commit_input : TuiState Address → InputMode → TuiState Address
  commit_input s (new_subscription_input step) = commit_new_subscription_step s step
  commit_input s name_input = commit_name s
  commit_input s url_input = commit_url s
  commit_input s priority_input = commit_priority s
  commit_input s (config_value key) = commit_config s key
  commit_input s reset_confirm = commit_reset s
  commit_input s _ = s

  unfoldable pub handle_input_key : TuiState Address → KeyCode → TuiState Address
  handle_input_key s esc = cancel_edit s
  handle_input_key s enter = commit_input s s.input_mode
  handle_input_key s backspace = pop_char s
  handle_input_key s (char_key c) = push_char s c
  handle_input_key s _ = s
