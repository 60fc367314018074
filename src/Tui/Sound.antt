-- ===== src/Tui/Sound.antt =====
-- What holds of the interface between two events.
pub mod Texts
pub mod Editing
pub mod Pointing
pub mod Keys
pub mod Sessions
use v2ray_subscription_manag.Prelude.{
  ℕ, ◌<◌, ◌≡◌, ◌≢◌, ◌⊎◌, inl, inr, refl, Bool, true, false, String, List, [], ◌∷◌, Option, none,
  some, length, get_elem?, All, arith,
}
use v2ray_subscription_manag.Text.{trim}
use v2ray_subscription_manag.Config.{AppConfig}
use v2ray_subscription_manag.Config.Valid.{IsNamed}
use v2ray_subscription_manag.Tui.{
  name_step, priority_step, enabled_step, url_step, InputMode, no_input, command, name_input,
  url_input, priority_input, reset_confirm, clean_cache_confirm, new_subscription_input,
  config_value, SubscriptionDraft, Rect, TuiState, main_items, subscription_actions, config_keys,
}
use v2ray_subscription_manag.Tui.Actions.{persistable_config}

abbrev pub IsRow : ℕ → ℕ × Rect → Type 0
IsRow total row = row.0 < total

-- What the steps of the wizard have asked for is in the draft.
abbrev pub HasUrl : Option SubscriptionDraft → Type 0
HasUrl none = Unit
HasUrl (some draft) = trim draft.url ≢ ""

abbrev pub HasUrlAndName : Option SubscriptionDraft → Type 0
HasUrlAndName none = Unit
HasUrlAndName (some draft) = (trim draft.name ≢ "") × (trim draft.url ≢ "")

abbrev pub FitsDraft : InputMode → Option SubscriptionDraft → Type 0
FitsDraft (new_subscription_input name_step) draft = HasUrl draft
FitsDraft (new_subscription_input priority_step) draft = HasUrlAndName draft
FitsDraft (new_subscription_input enabled_step) draft = HasUrlAndName draft
FitsDraft _ draft = Unit

abbrev pub IsInRange : ℕ → ℕ → ℕ → List (ℕ × Rect) → List (ℕ × Rect) → Type 0
IsInRange main action config main_rows config_rows =
    (main < length main_items)
    × (action < length subscription_actions)
    × (config < length config_keys)
    × All (IsRow (length main_items)) main_rows
    × All (IsRow (length config_keys)) config_rows

module _ {Address : Type 0} where
  abbrev pub IsWritten : Bool → AppConfig Address → AppConfig Address → Type 0
  IsWritten dirty file editable = (dirty ≡ true) ⊎ (file ≡ persistable_config editable)

  abbrev pub IsSound : AppConfig Address → TuiState Address → Type 0
  IsSound file s =
      IsInRange s.selected_main s.selected_action s.selected_config s.hits.main_rows
        s.hits.config_rows
      × IsWritten s.dirty file s.editable
      × All IsNamed s.editable.subscriptions
      × FitsDraft s.input_mode s.new_subscription
