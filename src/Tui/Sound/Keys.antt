-- ===== src/Tui/Sound/Keys.antt =====
-- What a key does to a session: it stays sound, and nothing panics.
use v2ray_subscription_manag.Prelude.{
  ℕ, zero, suc, ◌<◌, ◌≡◌, ◌≢◌, inl, inr, refl, sym, subst, Bool, true, String, List, [], ◌∷◌,
  Option, none, some, All, length, get_elem?, arith, Bool-cases,
}
use v2ray_subscription_manag.Config.{AppConfig}
use v2ray_subscription_manag.Config.Valid.{IsNamed}
use v2ray_subscription_manag.Config.Editor.{ConfigKey}
use v2ray_subscription_manag.Tui.{
  MenuView, main_menu, subscription_menu, new_subscription_menu, subscription_action_menu,
  configuration_menu, log_menu, MainItem, open_config_item, sharing_item, proxy_item,
  subscriptions_item, clean_cache_item, configurations_item, logs_item, SubscriptionAction,
  edit_name_row, edit_url_row, edit_priority_row, toggle_row, delete_row, back_row, Action, add_new,
  toggle_selected, delete_selected, edit_name, edit_url, edit_priority, save_file, reset_confirm,
  clean_cache_confirm, config_value, main_items, subscription_actions, config_keys,
}
use v2ray_subscription_manag.Tui.Actions.{
  EventResult, go_on, panicked, Session, persistable_config, saved, set_tui, mark_saved, save_now,
  run_action,
}
use v2ray_subscription_manag.Tui.Events.{
  Host, is_reset, reset_code_of, cycle_proxy, toggle_sharing, update_live_runtime_config,
  switch_and_save, apply_live, activate_main, activate_subscription_action, activate_config,
  activate_view,
}
use v2ray_subscription_manag.Tui.Sound.{IsSound}
use v2ray_subscription_manag.Tui.Sound.Editing.{
  start_input-IsSound, start_new_subscription-IsSound, toggle_subscription-IsSound,
  delete_subscription-IsSound,
}

get_elem?-ne-none {ℓ} : {A : Type ℓ} (xs : List A) (i : ℕ) → i < length xs → get_elem? xs i ≢ none
get_elem?-ne-none [] i h = absurd (omega arith)
get_elem?-ne-none (x ∷ xs) zero h = λ e. cc e
get_elem?-ne-none (x ∷ xs) (suc i) h = get_elem?-ne-none xs i (omega arith)

pub go_on-ne-panicked : go_on ≢ panicked
go_on-ne-panicked e = cc e

module _ {Address : Type 0} where
  abbrev pub IsSoundSession : Session Address → Type 0
  IsSoundSession w = IsSound w.file w.tui

  abbrev pub IsSaved : Session Address → Type 0
  IsSaved w = w.file ≡ persistable_config w.tui.editable

  abbrev pub Keeps : Session Address × EventResult → Type 0
  Keeps r = IsSoundSession r.0 × (r.1 ≢ panicked)

  cycle_proxy-subscriptions :
      (c : AppConfig Address) → (cycle_proxy c).subscriptions ≡ c.subscriptions
  unfolding cycle_proxy
  cycle_proxy-subscriptions c = ground arith

  saved-Keeps :
      (w : Session Address) (next : Session Address → Session Address) (o : Option String)
      → IsSoundSession w
      → IsSoundSession (next (record w { file = persistable_config w.tui.editable }))
      → Keeps (saved w next o)
  saved-Keeps w next none h k = (k, go_on-ne-panicked)
  saved-Keeps w next (some error) h k = (h, λ e. cc e)

  toggle_sharing-subscriptions :
      (c : AppConfig Address) → (toggle_sharing c).subscriptions ≡ c.subscriptions
  unfolding toggle_sharing
  toggle_sharing-subscriptions c = refl

  module _ (host : Host Address) (w : Session Address) (h : IsSoundSession w) where
    save_now-Keeps : Keeps (save_now host.save_error host.config_path w)
    unfolding save_now
    save_now-Keeps = saved-Keeps w (mark_saved host.config_path) _ h (h.0, inr refl, h.2, h.3)

    apply_live-IsSound :
        (what : String) (enabled : Bool) (port : ℕ) (v : Session Address)
        → IsSaved v
        → IsSoundSession v
        → IsSoundSession (apply_live host what enabled port v)
    unfolding apply_live update_live_runtime_config
    apply_live-IsSound what enabled port v same k = elim (Bool-cases host.config_locked) [
      | inl e ↦ rw (update_live_runtime_config, e) (k.0, inr same, k.2, k.3)
      | inr e ↦ rw (update_live_runtime_config, e) (k.0, inr same, k.2, k.3)
    ]

    switch_and_save-Keeps :
        (config : AppConfig Address) (what : String) (enabled : Bool) (port : ℕ)
        → config.subscriptions ≡ w.tui.editable.subscriptions
        → Keeps (switch_and_save host w config what enabled port)
    unfolding switch_and_save
    switch_and_save-Keeps config what enabled port same =
        let named = subst (All IsNamed) (sym same) h.2 in
        saved-Keeps (set_tui w (record w.tui { editable = config; dirty = true }))
          (apply_live host what enabled port) _ (h.0, inl refl, named, h.3)
          (apply_live-IsSound what enabled port _ refl (h.0, inr refl, named, h.3))

    pub run_action-Keeps :
        (action : Action) → Keeps (run_action host.save_error host.config_path w action)
    unfolding run_action
    run_action-Keeps add_new = (start_new_subscription-IsSound w.file w.tui h, go_on-ne-panicked)
    run_action-Keeps edit_name = (start_input-IsSound w.file w.tui h _ _ tt, go_on-ne-panicked)
    run_action-Keeps edit_url = (start_input-IsSound w.file w.tui h _ _ tt, go_on-ne-panicked)
    run_action-Keeps edit_priority = (start_input-IsSound w.file w.tui h _ _ tt, go_on-ne-panicked)
    run_action-Keeps toggle_selected =
        (toggle_subscription-IsSound w.file w.tui h, go_on-ne-panicked)
    run_action-Keeps delete_selected =
        (delete_subscription-IsSound w.file w.tui h, go_on-ne-panicked)
    run_action-Keeps save_file = save_now-Keeps

  module _ (parse_address : String → Option Address) (print_address : Address → String)
      (port_of : Address → ℕ) (generated : String) (defaults : AppConfig Address)
      (host : Host Address) (w : Session Address) (h : IsSoundSession w) where
    activate_main-Keeps :
        (item : Option MainItem)
        → item ≢ none
        → Keeps (activate_main parse_address print_address port_of generated defaults host w item)
    unfolding activate_main
    activate_main-Keeps none k = absurd (k refl)
    activate_main-Keeps (some open_config_item) k = (h, go_on-ne-panicked)
    activate_main-Keeps (some sharing_item) k =
        switch_and_save-Keeps host w h _ _ _ _ (toggle_sharing-subscriptions w.tui.editable)
    activate_main-Keeps (some proxy_item) k =
        switch_and_save-Keeps host w h _ _ _ _ (cycle_proxy-subscriptions w.tui.editable)
    activate_main-Keeps (some subscriptions_item) k = (h, go_on-ne-panicked)
    activate_main-Keeps (some clean_cache_item) k =
        (start_input-IsSound w.file w.tui h clean_cache_confirm "" tt, go_on-ne-panicked)
    activate_main-Keeps (some configurations_item) k = (h, go_on-ne-panicked)
    activate_main-Keeps (some logs_item) k = (h, go_on-ne-panicked)

    activate_subscription_action-Keeps :
        (action : Option SubscriptionAction)
        → action ≢ none
        → Keeps (
            activate_subscription_action parse_address print_address port_of generated defaults host
              w action)
    unfolding activate_subscription_action
    activate_subscription_action-Keeps none k = absurd (k refl)
    activate_subscription_action-Keeps (some edit_name_row) k = run_action-Keeps host w h edit_name
    activate_subscription_action-Keeps (some edit_url_row) k = run_action-Keeps host w h edit_url
    activate_subscription_action-Keeps (some edit_priority_row) k =
        run_action-Keeps host w h edit_priority
    activate_subscription_action-Keeps (some toggle_row) k =
        run_action-Keeps host w h toggle_selected
    activate_subscription_action-Keeps (some delete_row) k =
        ((run_action-Keeps host w h delete_selected).0, go_on-ne-panicked)
    activate_subscription_action-Keeps (some back_row) k = (h, go_on-ne-panicked)

    activate_config-Keeps :
        (key : Option ConfigKey)
        → key ≢ none
        → Keeps (activate_config parse_address print_address port_of generated defaults host w key)
    unfolding activate_config
    activate_config-Keeps none k = absurd (k refl)
    activate_config-Keeps (some key) k = elim (Bool-cases (is_reset key)) [
      | inl e ↦
          rw (activate_config, e)
            (
              start_input-IsSound w.file
                  (record w.tui { reset_code = some (reset_code_of host.millis) }) h reset_confirm
                  "" tt,
              go_on-ne-panicked,
            )
      | inr e ↦
          rw (activate_config, e)
            (start_input-IsSound w.file w.tui h (config_value key) _ tt, go_on-ne-panicked)
    ]

    pub activate_view-Keeps :
        (view : MenuView)
        → Keeps (activate_view parse_address print_address port_of generated defaults host w view)
    unfolding activate_view
    activate_view-Keeps main_menu =
        activate_main-Keeps _ (get_elem?-ne-none main_items w.tui.selected_main h.0.0)
    activate_view-Keeps subscription_menu = run_action-Keeps host w h _
    activate_view-Keeps new_subscription_menu = (h, go_on-ne-panicked)
    activate_view-Keeps subscription_action_menu =
        activate_subscription_action-Keeps _
          (get_elem?-ne-none subscription_actions w.tui.selected_action h.0.1)
    activate_view-Keeps configuration_menu =
        activate_config-Keeps _ (get_elem?-ne-none config_keys w.tui.selected_config h.0.2)
    activate_view-Keeps log_menu = (h, go_on-ne-panicked)
