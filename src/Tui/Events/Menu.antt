-- ===== src/Tui/Events/Menu.antt =====
-- What Enter does in each menu, of tui/events.rs.
use v2ray_subscription_manag.Prelude.{ℕ, String, Option, none, some, get_elem?, ◌==◌, if◌then◌else◌}
use v2ray_subscription_manag.Text.{starts_with}
use v2ray_subscription_manag.Config.{AppConfig}
use v2ray_subscription_manag.Config.Editor.{ConfigKey, value}
use v2ray_subscription_manag.Tui.{
  MenuView, main_menu, subscription_menu, new_subscription_menu, subscription_action_menu,
  configuration_menu, log_menu, MainItem, open_config_item, sharing_item, proxy_item,
  subscriptions_item, clean_cache_item, configurations_item, logs_item, SubscriptionAction,
  edit_name_row, edit_url_row, edit_priority_row, toggle_row, delete_row, back_row, add_new,
  toggle_selected, delete_selected, edit_name, edit_url, edit_priority, reset_confirm,
  clean_cache_confirm, config_value, main_items, subscription_actions, config_keys,
}
use v2ray_subscription_manag.Tui.Input.{start_input}
use v2ray_subscription_manag.Tui.Actions.{
  EventResult, go_on, panicked, Session, set_tui, run_action,
}
use v2ray_subscription_manag.Tui.Events.Moves.{
  Host, reset_code_of, is_reset, cycle_proxy, toggle_sharing, switch_and_save,
}

module _ {Address : Type 0} (parse_address : String → Option Address)
    (print_address : Address → String) (port_of : Address → ℕ) (generated : String)
    (defaults : AppConfig Address) (host : Host Address) where
  unfoldable pub activate_main : Session Address → Option MainItem → Session Address × EventResult
  activate_main w none = (w, panicked)
  activate_main w (some open_config_item) = (
    set_tui w (record w.tui {
      status =
          if starts_with "Edit config manually:" host.open_config then host.open_config else "";
    }),
    go_on,
  )
  activate_main w (some sharing_item) =
      let config = toggle_sharing w.tui.editable in
      switch_and_save host w config "Sharing " config.sharing.enabled (port_of config.bind)
  activate_main w (some proxy_item) =
      let config = cycle_proxy w.tui.editable in
      switch_and_save host w config "Proxy discoverable " config.proxy.discoverable
        config.proxy.port
  activate_main w (some subscriptions_item) =
      (set_tui w (record w.tui { view = subscription_menu }), go_on)
  activate_main w (some clean_cache_item) =
      (set_tui w (start_input w.tui clean_cache_confirm ""), go_on)
  activate_main w (some configurations_item) =
      (set_tui w (record w.tui { view = configuration_menu }), go_on)
  activate_main w (some logs_item) =
      (set_tui w (record w.tui { view = log_menu; selected_log = 0 }), go_on)

  -- The menu of a subscription is left after a deletion that does not fail.
  unfoldable pub activate_subscription_action :
      Session Address → Option SubscriptionAction → Session Address × EventResult
  activate_subscription_action w none = (w, panicked)
  activate_subscription_action w (some edit_name_row) =
      run_action host.save_error host.config_path w edit_name
  activate_subscription_action w (some edit_url_row) =
      run_action host.save_error host.config_path w edit_url
  activate_subscription_action w (some edit_priority_row) =
      run_action host.save_error host.config_path w edit_priority
  activate_subscription_action w (some toggle_row) =
      run_action host.save_error host.config_path w toggle_selected
  activate_subscription_action w (some delete_row) =
      let v = (run_action host.save_error host.config_path w delete_selected).0 in
      (set_tui v (record v.tui { view = subscription_menu }), go_on)
  activate_subscription_action w (some back_row) =
      (set_tui w (record w.tui { view = subscription_menu }), go_on)

  unfoldable pub activate_config :
      Session Address → Option ConfigKey → Session Address × EventResult
  activate_config w none = (w, panicked)
  activate_config w (some key) =
      if is_reset key
      then (
        set_tui w (
            start_input (record w.tui { reset_code = some (reset_code_of host.millis) })
              reset_confirm ""),
        go_on,
      )
      else (
        set_tui w (
            start_input w.tui (config_value key)
              (value parse_address print_address generated w.tui.editable key)),
        go_on,
      )

  unfoldable pub activate_view : Session Address → MenuView → Session Address × EventResult
  activate_view w main_menu = activate_main w (get_elem? main_items w.tui.selected_main)
  activate_view w subscription_menu =
      run_action host.save_error host.config_path w
        (if w.tui.selected_subscription == 0 then add_new else toggle_selected)
  activate_view w new_subscription_menu = (w, go_on)
  activate_view w log_menu = (w, go_on)
  activate_view w subscription_action_menu =
      activate_subscription_action w (get_elem? subscription_actions w.tui.selected_action)
  activate_view w configuration_menu =
      activate_config w (get_elem? config_keys w.tui.selected_config)
