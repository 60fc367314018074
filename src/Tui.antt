-- ===== src/Tui.antt =====
-- The state of the terminal interface: TuiState and its methods, of tui/state.rs, and the lists of
-- menu rows, of constants.rs. The time of the start is left out, which only the clock on the screen
-- reads.
pub mod Input
pub mod Actions
pub mod Mouse
pub mod Screen
pub mod Events
pub mod Sound
pub mod Started
pub mod Wizard
pub mod Rows
use v2ray_subscription_manag.Prelude.{
  ℕ, zero, suc, ◌+◌, ◌-◌, Bool, true, false, String, List, [], ◌∷◌, Option, none, some, length,
  get_elem?, min_of, max_of, saturating_add, u64_max, u32_max, ◌==◌, if◌then◌else◌,
}
use v2ray_subscription_manag.Config.{AppConfig, SubscriptionSource}
use v2ray_subscription_manag.Config.Editor.{
  ConfigKey, bind, top_n, refresh_seconds, encoded_subscription, prioritize_stability,
  return_configs_asap, scan_all_configs, fetch_timeout, fetch_concurrency, max_subscription_bytes,
  use_cache_only, emergency_config, probe_mode, sing_box_path, connect_timeout, active_timeout,
  startup_timeout, probe_concurrency, probe_batch_size, probe_process_concurrency, test_url,
  accepted_statuses, download_url, download_limit, clean_offline_days, token_required, token,
  proxy_enabled, proxy_port, proxy_discoverable, proxy_health_check_url,
  proxy_health_check_interval, reset_defaults,
}

pub data MenuView : Type 0 where
  main_menu subscription_menu new_subscription_menu subscription_action_menu configuration_menu
        log_menu :
      MenuView

pub data MainItem : Type 0 where
  open_config_item sharing_item proxy_item subscriptions_item clean_cache_item configurations_item
        logs_item :
      MainItem

pub data SubscriptionAction : Type 0 where
  edit_name_row edit_url_row edit_priority_row toggle_row delete_row back_row : SubscriptionAction

pub data Action : Type 0 where
  add_new toggle_selected delete_selected edit_name edit_url edit_priority save_file : Action

pub data NewSubscriptionStep : Type 0 where
  url_step name_step priority_step enabled_step : NewSubscriptionStep

pub data InputMode : Type 0 where
  no_input command name_input url_input priority_input reset_confirm clean_cache_confirm : InputMode
  new_subscription_input : NewSubscriptionStep → InputMode
  config_value : ConfigKey → InputMode

pub record SubscriptionDraft : Type 0 where
  pub name : String
  pub url : String
  pub priority : ℕ
  pub enabled : Bool

pub record Rect : Type 0 where
  pub x : ℕ
  pub y : ℕ
  pub width : ℕ
  pub height : ℕ

pub record HitMap : Type 0 where
  pub main_rows : List (ℕ × Rect)
  pub subscription_rows : List (ℕ × Rect)
  pub config_rows : List (ℕ × Rect)
  pub logs_area : Option Rect
  pub found_area : Option Rect
  pub live_logs_area : Option Rect

pub record ScrollState : Type 0 where
  pub logs : ℕ
  pub found : ℕ

pub record TuiState (Address : Type 0) : Type 0 where
  pub editable : AppConfig Address
  pub active_bind : Address
  pub view : MenuView
  pub selected_main : ℕ
  pub selected_subscription : ℕ
  pub selected_action : ℕ
  pub selected_config : ℕ
  pub selected_log : ℕ
  pub input_mode : InputMode
  pub input : String
  pub new_subscription : Option SubscriptionDraft
  pub reset_code : Option String
  pub status : String
  pub dirty : Bool
  pub hits : HitMap
  pub scroll : ScrollState

abbrev pub main_items : List MainItem
main_items =
    open_config_item ∷ sharing_item ∷ proxy_item ∷ subscriptions_item ∷ clean_cache_item
    ∷ configurations_item ∷ logs_item ∷ []

abbrev pub subscription_actions : List SubscriptionAction
subscription_actions =
    edit_name_row ∷ edit_url_row ∷ edit_priority_row ∷ toggle_row ∷ delete_row ∷ back_row ∷ []

abbrev pub config_keys : List ConfigKey
config_keys =
    bind ∷ top_n ∷ refresh_seconds ∷ encoded_subscription ∷ prioritize_stability
    ∷ return_configs_asap ∷ scan_all_configs ∷ fetch_timeout ∷ fetch_concurrency
    ∷ max_subscription_bytes ∷ use_cache_only ∷ emergency_config ∷ probe_mode ∷ sing_box_path
    ∷ connect_timeout ∷ active_timeout ∷ startup_timeout ∷ probe_concurrency ∷ probe_batch_size
    ∷ probe_process_concurrency ∷ test_url ∷ accepted_statuses ∷ download_url ∷ download_limit
    ∷ clean_offline_days ∷ token_required ∷ token ∷ proxy_enabled ∷ proxy_port ∷ proxy_discoverable
    ∷ proxy_health_check_url ∷ proxy_health_check_interval ∷ reset_defaults ∷ []

abbrev pub no_hits : HitMap
no_hits = record {
  main_rows = [];
  subscription_rows = [];
  config_rows = [];
  logs_area = none;
  found_area = none;
  live_logs_area = none;
}

-- The greatest of the priorities, if there are sources.
abbrev pub max_priority : List SubscriptionSource → Option ℕ
max_priority [] = none
max_priority (source ∷ sources) = elim (max_priority sources) [
  | none ↦ some source.priority
  | some priority ↦ some (max_of source.priority priority)
]

abbrev pub priority_after : Option ℕ → ℕ
priority_after none = 1
priority_after (some priority) = saturating_add u32_max priority 1

-- A list with the element at an index changed, and a list without it.
abbrev pub change_at {ℓ} : {A : Type ℓ} → (A → A) → ℕ → List A → List A
change_at f i [] = []
change_at f zero (x ∷ xs) = f x ∷ xs
change_at f (suc i) (x ∷ xs) = x ∷ change_at f i xs

abbrev pub without_at {ℓ} : {A : Type ℓ} → ℕ → List A → List A
without_at i [] = []
without_at zero (x ∷ xs) = xs
without_at (suc i) (x ∷ xs) = x ∷ without_at i xs

-- The index that a row of the subscription menu stands for: the first row adds a subscription.
abbrev pub index_of_row : ℕ → List SubscriptionSource → Option ℕ
index_of_row zero sources = none
index_of_row (suc i) sources = elim (get_elem? sources i) [ none ↦ none | some source ↦ some i ]

module _ {Address : Type 0} where
  unfoldable pub new_state : AppConfig Address → TuiState Address
  new_state config = record {
    editable = config;
    active_bind = config.bind;
    view = main_menu;
    selected_main = 0;
    selected_subscription = 0;
    selected_action = 0;
    selected_config = 0;
    selected_log = 0;
    input_mode = no_input;
    input = "";
    new_subscription = none;
    reset_code = none;
    status = "Ready";
    dirty = false;
    hits = no_hits;
    scroll = record { logs = 0; found = 0 };
  }

  unfoldable pub selected_subscription_index : TuiState Address → Option ℕ
  selected_subscription_index s = index_of_row s.selected_subscription s.editable.subscriptions

  unfoldable pub selected_subscription_ref : TuiState Address → Option SubscriptionSource
  selected_subscription_ref s = elim (selected_subscription_index s) [
    | none ↦ none
    | some i ↦ get_elem? s.editable.subscriptions i
  ]

  abbrev pub set_subscriptions : TuiState Address → List SubscriptionSource → TuiState Address
  set_subscriptions s sources = record s {
    editable = record s.editable { subscriptions = sources };
  }

  unfoldable pub clamp_selection : TuiState Address → TuiState Address
  clamp_selection s = record s {
    selected_subscription =
        if length s.editable.subscriptions == 0
        then 0
        else min_of s.selected_subscription (length s.editable.subscriptions);
  }

  unfoldable pub next_subscription_priority : TuiState Address → ℕ
  next_subscription_priority s = priority_after (max_priority s.editable.subscriptions)
