-- ===== src/Tui/Actions.antt =====
-- What the menus do to the subscriptions, and saving: tui/action_handlers.rs, save_config of
-- tui/util.rs and the view of the configuration that the server reads, of main.rs. Whether the file
-- can be written is an argument; what is in it is kept as a configuration.
use v2ray_subscription_manag.Prelude.{
  ℕ, Bool, true, false, not, String, List, Option, none, some, length, get_elem?, count_where, ◌==◌,
  if◌then◌else◌, str_append,
}
use v2ray_subscription_manag.Prelude.Decimal.{decimal}
use v2ray_subscription_manag.Text.{trim, is_empty_text}
use v2ray_subscription_manag.Config.{AppConfig, SubscriptionSource}
use v2ray_subscription_manag.Config.Editor.{text_of_mode}
use v2ray_subscription_manag.Tui.{
  Action, add_new, toggle_selected, delete_selected, edit_name, edit_url, edit_priority, save_file,
  name_input, url_input, priority_input, TuiState, change_at, without_at,
  selected_subscription_index, selected_subscription_ref, set_subscriptions, clamp_selection,
}
use v2ray_subscription_manag.Tui.Input.{start_input, start_new_subscription}

pub record RuntimeConfig (Address : Type 0) : Type 0 where
  pub bind : Address
  pub top_n : ℕ
  pub refresh_seconds : ℕ
  pub encoded_subscription : Bool
  pub prioritize_stability : Bool
  pub return_configs_asap : Bool
  pub scan_all_configs : Bool
  pub fetch_timeout_ms : ℕ
  pub fetch_concurrency : ℕ
  pub max_subscription_bytes : ℕ
  pub sharing_enabled : Bool
  pub require_token : Bool
  pub token : String
  pub probe_mode : String
  pub speedtest_enabled : Bool
  pub probe_concurrency : ℕ
  pub probe_batch_size : Option ℕ
  pub active_timeout_ms : ℕ
  pub startup_timeout_ms : ℕ
  pub test_url : String
  pub accepted_statuses : List ℕ
  pub download_bytes_limit : ℕ
  pub subscription_count : ℕ
  pub enabled_subscription_count : ℕ
  pub proxy_enabled : Bool
  pub proxy_port : ℕ
  pub proxy_discoverable : Bool

-- How a key ends: the interface goes on or quits, an error is passed on, or the program panics.
pub data EventResult : Type 0 where
  go_on quit panicked : EventResult
  failed : String → EventResult

-- The interface with what it writes to: the file, the configuration that the server reads, and how
-- often the database was cleared.
pub record Session (Address : Type 0) : Type 0 where
  pub tui : TuiState Address
  pub file : AppConfig Address
  pub runtime : RuntimeConfig Address
  pub cleared : ℕ

abbrev pub has_text : Option String → Bool
has_text none = false
has_text (some s) = not (is_empty_text (trim s))

abbrev pub enabled_word : Bool → String
enabled_word true = "enabled"
enabled_word false = "disabled"

abbrev pub switched : SubscriptionSource → SubscriptionSource
switched source = record source { enabled = not source.enabled }

abbrev pub switched_message : Option SubscriptionSource → String → String
switched_message none status = status
switched_message (some source) status =
    str_append source.name (str_append " is now " (enabled_word (not source.enabled)))

abbrev pub deleted_message : Option SubscriptionSource → String
deleted_message none = "Deleted "
deleted_message (some source) = str_append "Deleted " source.name

module _ {Address : Type 0} where
  unfoldable pub runtime_of : AppConfig Address → RuntimeConfig Address
  runtime_of c = record {
    bind = c.bind;
    top_n = c.top_n;
    refresh_seconds = c.refresh_seconds;
    encoded_subscription = c.encoded_subscription;
    prioritize_stability = c.prioritize_stability;
    return_configs_asap = c.return_configs_asap;
    scan_all_configs = c.scan_all_configs;
    fetch_timeout_ms = c.fetch_timeout_ms;
    fetch_concurrency = c.fetch_concurrency;
    max_subscription_bytes = c.max_subscription_bytes;
    sharing_enabled = c.sharing.enabled;
    require_token = c.sharing.require_token;
    token = c.sharing.token;
    probe_mode = text_of_mode c.probe.mode;
    speedtest_enabled = has_text c.probe.download_url;
    probe_concurrency = c.probe.concurrency;
    probe_batch_size = c.probe.batch_size;
    active_timeout_ms = c.probe.active_timeout_ms;
    startup_timeout_ms = c.probe.startup_timeout_ms;
    test_url = c.probe.test_url;
    accepted_statuses = c.probe.accepted_statuses;
    download_bytes_limit = c.probe.download_bytes_limit;
    subscription_count = length c.subscriptions;
    enabled_subscription_count =
        count_where (λ (source : SubscriptionSource). source.enabled) c.subscriptions;
    proxy_enabled = c.proxy.enabled;
    proxy_port = c.proxy.port;
    proxy_discoverable = c.proxy.discoverable;
  }

  unfoldable pub persistable_config : AppConfig Address → AppConfig Address
  persistable_config c =
      if c.probe.sing_box_path_auto
      then record c { probe = record c.probe { sing_box_path = ""; sing_box_path_auto = false } }
      else c

  unfoldable pub selected_value : TuiState Address → (SubscriptionSource → String) → String
  selected_value s f = elim (selected_subscription_ref s) [ none ↦ "" | some source ↦ f source ]

  unfoldable pub toggle_subscription : TuiState Address → TuiState Address
  toggle_subscription s = elim (selected_subscription_index s) [
    | none ↦ s
    | some i ↦ record (set_subscriptions s (change_at switched i s.editable.subscriptions)) {
      dirty = true;
      status = switched_message (get_elem? s.editable.subscriptions i) s.status;
    }
  ]

  unfoldable pub delete_subscription : TuiState Address → TuiState Address
  delete_subscription s =
      if length s.editable.subscriptions == 0
      then record s { status = "No subscription to delete" }
      else elim (selected_subscription_index s) [
        | none ↦ record s { status = "No subscription selected" }
        | some i ↦
            record (clamp_selection (set_subscriptions s (without_at i s.editable.subscriptions))) {
              dirty = true;
              status = deleted_message (get_elem? s.editable.subscriptions i);
            }
      ]

  abbrev pub set_tui : Session Address → TuiState Address → Session Address
  set_tui w s = record w { tui = s }

  -- `save_config(path, &state.editable)?` with its error, if there is one, and what follows it.
  abbrev pub saved :
      Session Address
      → (Session Address → Session Address)
      → Option String
      → Session Address × EventResult
  saved w next (some error) = (w, failed error)
  saved w next none = (next (record w { file = persistable_config w.tui.editable }), go_on)

  abbrev pub mark_saved : String → Session Address → Session Address
  mark_saved path w = set_tui w (record w.tui { dirty = false; status = str_append "Saved " path })

module _ {Address : Type 0} (save_error : AppConfig Address → Option String) (path : String) where
  unfoldable pub save_now : Session Address → Session Address × EventResult
  save_now w = saved w (mark_saved path) (save_error (persistable_config w.tui.editable))

  unfoldable pub run_action : Session Address → Action → Session Address × EventResult
  run_action w add_new = (set_tui w (start_new_subscription w.tui), go_on)
  run_action w edit_name = (
    set_tui w (start_input w.tui name_input (selected_value w.tui (λ source. source.name))),
    go_on,
  )
  run_action w edit_url =
      (set_tui w (start_input w.tui url_input (selected_value w.tui (λ source. source.url))), go_on)
  run_action w edit_priority = (
    set_tui w (
        start_input w.tui priority_input
          (selected_value w.tui (λ source. decimal source.priority))),
    go_on,
  )
  run_action w toggle_selected = (set_tui w (toggle_subscription w.tui), go_on)
  run_action w delete_selected = (set_tui w (delete_subscription w.tui), go_on)
  run_action w save_file = save_now w
