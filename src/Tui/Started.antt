-- ===== src/Tui/Started.antt =====
-- What holds of the interface however it is used.
use v2ray_subscription_manag.Prelude.{
  ℕ, ◌<◌, ◌≡◌, ◌≢◌, ◌⊎◌, inr, refl, true, String, List, Option, All, length, arith,
}
use v2ray_subscription_manag.Config.{AppConfig}
use v2ray_subscription_manag.Config.Valid.{IsNamed}
use v2ray_subscription_manag.Tui.{new_state, main_items, subscription_actions, config_keys}
use v2ray_subscription_manag.Tui.Actions.{Session, panicked, persistable_config, runtime_of}
use v2ray_subscription_manag.Tui.Events.{Event, handle_events}
use v2ray_subscription_manag.Tui.Sound.Keys.{IsSoundSession}
use v2ray_subscription_manag.Tui.Sound.Sessions.{handle_events-Keeps}

module _ {Address : Type 0} where
  -- The program starts the interface with the configuration it has read.
  abbrev pub started_session : AppConfig Address → Session Address
  started_session config = record {
    tui = new_state config;
    file = persistable_config config;
    runtime = runtime_of config;
    cleared = 0;
  }

  started-IsSound :
      (config : AppConfig Address)
      → All IsNamed config.subscriptions
      → IsSoundSession (started_session config)
  unfolding new_state
  started-IsSound config named =
      ((omega arith, omega arith, omega arith, tt, tt), inr refl, named, tt)

module _ {Address : Type 0} (parse_address : String → Option Address)
    (print_address : Address → String) (port_of : Address → ℕ) (generated : String)
    (defaults : AppConfig Address) where
  -- Whatever frames, keys and mouse events follow the start, with subscriptions that all have a name
  -- and an address: nothing panics, the selected rows of the main menu, of the actions of a
  -- subscription and of the settings exist, which is not said of the selected subscription, the file
  -- holds the configuration that is edited unless that is marked as changed, and the subscriptions
  -- all have a name and an address.
  pub handle_events-started :
      (config : AppConfig Address) (events : List (Event Address))
      → All IsNamed config.subscriptions
      → (let (w, result) =
            handle_events parse_address print_address port_of generated defaults
              (started_session config)
              events in
          (result ≢ panicked)
          × (w.tui.selected_main < length main_items)
          × (w.tui.selected_action < length subscription_actions)
          × (w.tui.selected_config < length config_keys)
          × ((w.tui.dirty ≡ true) ⊎ (w.file ≡ persistable_config w.tui.editable))
          × All IsNamed w.tui.editable.subscriptions)
  handle_events-started config events named =
      let (sound, fine) =
        handle_events-Keeps parse_address print_address port_of generated defaults
          (started_session config) events (started-IsSound config named) in
      (fine, sound.0.0, sound.0.1, sound.0.2, sound.1, sound.2)
