-- ===== src/Tui/Sound/Editing.antt =====
-- Typing and the actions on subscriptions keep the interface sound.
use v2ray_subscription_manag.Prelude.{
  inl, inr, refl, sym, subst, String, Option, All, All-append, Bool-cases, Option-cases, u32_max,
  length, ◌==◌, str_eq, unwrap_or,
}
use v2ray_subscription_manag.Text.{trim, is_empty_text, parse_unsigned}
use v2ray_subscription_manag.Config.{AppConfig, SubscriptionSource}
use v2ray_subscription_manag.Config.Valid.{IsNamed}
use v2ray_subscription_manag.Config.Editor.{ConfigKey, apply}
use v2ray_subscription_manag.Config.Editor.Texts.{Checked-cases}
use v2ray_subscription_manag.Config.Editor.Subscriptions.{apply-subscriptions}
use v2ray_subscription_manag.Tui.{
  name_step, url_step, priority_step, enabled_step, InputMode, new_subscription_input, no_input,
  command, name_input, url_input, priority_input, reset_confirm, clean_cache_confirm, config_value,
  TuiState, selected_subscription_index, clamp_selection,
}
use v2ray_subscription_manag.Tui.Input.{
  start_input, start_new_subscription, change_selected, commit_name, commit_url, commit_priority,
  commit_new_url, commit_new_name, commit_new_priority, add_draft, commit_new_enabled, parse_bool,
  cancel_edit, commit_config, commit_reset, commit_input, handle_input_key, KeyCode, esc, enter,
  backspace, delete, up, down, other_key, char_key,
}
use v2ray_subscription_manag.Tui.Actions.{toggle_subscription, delete_subscription}
use v2ray_subscription_manag.Tui.Sound.{IsSound, FitsDraft, HasUrl, HasUrlAndName}
use v2ray_subscription_manag.Tui.Sound.Texts.{trim-full, All-change_at, All-without_at}

module _ {Address : Type 0} (file : AppConfig Address) (s : TuiState Address)
    (h : IsSound file s) where
  pub start_input-IsSound :
      (mode : InputMode) (value : String)
      → FitsDraft mode s.new_subscription
      → IsSound file (start_input s mode value)
  unfolding start_input
  start_input-IsSound mode value fits = (h.0, h.1, h.2, fits)

  pub start_new_subscription-IsSound : IsSound file (start_new_subscription s)
  unfolding start_input start_new_subscription
  start_new_subscription-IsSound = (h.0, h.1, h.2, tt)

  change_selected-IsSound :
      (f : SubscriptionSource → SubscriptionSource) (message : String)
      → ((x : SubscriptionSource) → IsNamed x → IsNamed (f x))
      → IsSound file (change_selected s f message)
  unfolding change_selected
  change_selected-IsSound f message k = elim (Option-cases (selected_subscription_index s)) [
    | inl e ↦ rw (change_selected, e) h
    | inr (i, e) ↦
        rw (change_selected, e)
          (h.0, inl refl, All-change_at f i s.editable.subscriptions k h.2, tt)
  ]

  pub commit_name-IsSound : IsSound file (commit_name s)
  unfolding commit_name
  commit_name-IsSound = elim (Bool-cases (is_empty_text (trim s.input))) [
    | inl e ↦ rw (commit_name, e) h
    | inr e ↦ rw (commit_name, e) (change_selected-IsSound _ _ (λ x n. (trim-full s.input e, n.1)))
  ]

  pub commit_url-IsSound : IsSound file (commit_url s)
  unfolding commit_url
  commit_url-IsSound = elim (Bool-cases (is_empty_text (trim s.input))) [
    | inl e ↦ rw (commit_url, e) h
    | inr e ↦ rw (commit_url, e) (change_selected-IsSound _ _ (λ x n. (n.0, trim-full s.input e)))
  ]

  pub commit_priority-IsSound : IsSound file (commit_priority s)
  unfolding commit_priority
  commit_priority-IsSound = elim (Option-cases (parse_unsigned u32_max (trim s.input))) [
    | inl e ↦ rw (commit_priority, e) h
    | inr (n, e) ↦ rw (commit_priority, e) (change_selected-IsSound _ _ (λ x named. named))
  ]

  pub commit_new_url-IsSound : IsSound file (commit_new_url s)
  unfolding commit_new_url start_input
  commit_new_url-IsSound = elim (Bool-cases (is_empty_text (trim s.input))) [
    | inl e ↦ rw (commit_new_url, e) h
    | inr e ↦ elim (Option-cases s.new_subscription) [
      | inl n ↦ rw (commit_new_url, e, n) h
      | inr (d, n) ↦ rw (commit_new_url, e, n) (h.0, h.1, h.2, trim-full s.input e)
    ]
  ]

  pub commit_new_name-IsSound : HasUrl s.new_subscription → IsSound file (commit_new_name s)
  unfolding commit_new_name start_input
  commit_new_name-IsSound fits = elim (Bool-cases (is_empty_text (trim s.input))) [
    | inl e ↦ rw (commit_new_name, e) h
    | inr e ↦ elim (Option-cases s.new_subscription) [
      | inl n ↦ rw (commit_new_name, e, n) h
      | inr (d, n) ↦
          rw (commit_new_name, e, n) (h.0, h.1, h.2, (trim-full s.input e, subst HasUrl n fits))
    ]
  ]

  pub commit_new_priority-IsSound :
      HasUrlAndName s.new_subscription → IsSound file (commit_new_priority s)
  unfolding commit_new_priority start_input
  commit_new_priority-IsSound fits = elim (Option-cases (parse_unsigned u32_max (trim s.input))) [
    | inl e ↦ rw (commit_new_priority, e) h
    | inr (k, e) ↦ elim (Option-cases s.new_subscription) [
      | inl n ↦ rw (commit_new_priority, e, n) h
      | inr (d, n) ↦ rw (commit_new_priority, e, n) (h.0, h.1, h.2, subst HasUrlAndName n fits)
    ]
  ]

  pub commit_new_enabled-IsSound :
      HasUrlAndName s.new_subscription → IsSound file (commit_new_enabled s)
  unfolding commit_new_enabled add_draft
  commit_new_enabled-IsSound fits = elim (Option-cases (parse_bool (trim s.input))) [
    | inl e ↦ rw (commit_new_enabled, e) h
    | inr (b, e) ↦ elim (Option-cases s.new_subscription) [
      | inl n ↦ rw (commit_new_enabled, e, n) h
      | inr (d, n) ↦
          rw (commit_new_enabled, e, n)
            (h.0, inl refl, All-append IsNamed _ _ h.2 (subst HasUrlAndName n fits, tt), tt)
    ]
  ]

  pub toggle_subscription-IsSound : IsSound file (toggle_subscription s)
  unfolding toggle_subscription
  toggle_subscription-IsSound = elim (Option-cases (selected_subscription_index s)) [
    | inl e ↦ rw (toggle_subscription, e) h
    | inr (i, e) ↦
        rw (toggle_subscription, e)
          (h.0, inl refl, All-change_at _ i s.editable.subscriptions (λ x named. named) h.2, h.3)
  ]

  pub delete_subscription-IsSound : IsSound file (delete_subscription s)
  unfolding delete_subscription clamp_selection
  delete_subscription-IsSound = elim (Bool-cases (length s.editable.subscriptions == 0)) [
    | inl e ↦ rw (delete_subscription, e) h
    | inr e ↦ elim (Option-cases (selected_subscription_index s)) [
      | inl n ↦ rw (delete_subscription, e, n) h
      | inr (i, n) ↦
          rw (delete_subscription, e, n)
            (h.0, inl refl, All-without_at i s.editable.subscriptions h.2, h.3)
    ]
  ]

  pub cancel_edit-IsSound : IsSound file (cancel_edit s)
  cancel_edit-IsSound = (h.0, h.1, h.2, tt)

  module _ (parse_address : String → Option Address) (print_address : Address → String)
      (generated : String) (defaults : AppConfig Address) where
    pub commit_config-IsSound :
        (key : ConfigKey)
        → IsSound file (commit_config parse_address print_address generated defaults s key)
    unfolding commit_config
    commit_config-IsSound key =
        elim (Checked-cases (apply parse_address print_address generated s.editable key s.input)) [
          | inl (d, e) ↦
              rw (commit_config, e)
                (
                  h.0,
                  inl refl,
                  subst (All IsNamed)
                      (sym (
                        apply-subscriptions parse_address print_address generated s.editable key
                          s.input d e))
                      h.2,
                  tt,
                )
          | inr (error, e) ↦ rw (commit_config, e) h
        ]

    pub commit_reset-IsSound :
        IsSound file (commit_reset parse_address print_address generated defaults s)
    unfolding commit_reset
    commit_reset-IsSound = elim (Bool-cases (str_eq (trim s.input) (unwrap_or s.reset_code ""))) [
      | inl e ↦ rw (commit_reset, e) (h.0, inl refl, h.2, tt)
      | inr e ↦ rw (commit_reset, e) h
    ]

    pub commit_input-IsSound :
        (mode : InputMode)
        → FitsDraft mode s.new_subscription
        → IsSound file (commit_input parse_address print_address generated defaults s mode)
    unfolding commit_input
    commit_input-IsSound (new_subscription_input url_step) fits = commit_new_url-IsSound
    commit_input-IsSound (new_subscription_input name_step) fits = commit_new_name-IsSound fits
    commit_input-IsSound (new_subscription_input priority_step) fits =
        commit_new_priority-IsSound fits
    commit_input-IsSound (new_subscription_input enabled_step) fits =
        commit_new_enabled-IsSound fits
    commit_input-IsSound name_input fits = commit_name-IsSound
    commit_input-IsSound url_input fits = commit_url-IsSound
    commit_input-IsSound priority_input fits = commit_priority-IsSound
    commit_input-IsSound (config_value key) fits = commit_config-IsSound key
    commit_input-IsSound reset_confirm fits = commit_reset-IsSound
    commit_input-IsSound no_input fits = h
    commit_input-IsSound command fits = h
    commit_input-IsSound clean_cache_confirm fits = h

    pub handle_input_key-IsSound :
        (key : KeyCode)
        → IsSound file (handle_input_key parse_address print_address generated defaults s key)
    unfolding handle_input_key
    handle_input_key-IsSound esc = cancel_edit-IsSound
    handle_input_key-IsSound enter = commit_input-IsSound s.input_mode h.3
    handle_input_key-IsSound backspace = h
    handle_input_key-IsSound (char_key c) = h
    handle_input_key-IsSound delete = h
    handle_input_key-IsSound up = h
    handle_input_key-IsSound down = h
    handle_input_key-IsSound other_key = h
