-- ===== src/Tests/Menus.antt =====
-- Examples of the terminal interface.
use v2ray_subscription_manag.Prelude.{
  ◌+◌, ◌≤◌, arith, ◌<◌, ◌≡◌, ◌≢◌, ◌⊎◌, Bool, true, false, List, [], ◌∷◌, ◌++◌, none, All, length,
}
use v2ray_subscription_manag.Text.{trim}
use v2ray_subscription_manag.Config.Valid.{IsNamed}
use v2ray_subscription_manag.Config.Validate.{ok}
use v2ray_subscription_manag.Tui.{
  subscription_menu, no_input, main_items, subscription_actions, config_keys, new_state,
}
use v2ray_subscription_manag.Tui.Input.{enter, down, char_key, esc}
use v2ray_subscription_manag.Tui.Actions.{go_on, panicked, persistable_config}
use v2ray_subscription_manag.Tui.Mouse.{left_down, left_click}
use v2ray_subscription_manag.Tui.Screen.{Layout, draw, scroll_offset, visible_row_count}
use v2ray_subscription_manag.Tui.Events.{Host, deleted, Event, frame, mouse_event, handle_events}
use v2ray_subscription_manag.Tui.Started.{started_session, handle_events-started}
use v2ray_subscription_manag.Tui.Wizard.{
  IsAfter, press, at_first_row, wizard_keys, wizard_source, wizard_lem,
}
use v2ray_subscription_manag.Tui.Rows.{line_of, subscriptions_shown, first_row, draw-left_click}
use v2ray_subscription_manag.Tests.Settings.{parse_address, print_address, port_of, settings}

abbrev willing : Host Bool
willing = record {
  save_error = λ config. none;
  config_path = "config.yaml";
  config_locked = false;
  firewall = λ enabled port. ok "Firewall changed";
  open_config = "";
  delete_all = deleted;
  millis = 9123;
}

abbrev screen : Layout
screen = record {
  logs = record { x = 0; y = 0; width = 80; height = 5 };
  found = record { x = 0; y = 5; width = 80; height = 5 };
  menu = record { x = 0; y = 10; width = 80; height = 12 };
  log_lines = 0;
  found_rows = 3;
  live_log_lines = 0;
}

-- The menu is drawn, its last row is clicked and entered, the next row is asked for, and the
-- interface goes back and saves.
abbrev some_events : List (Event Bool)
some_events =
    frame screen
    ∷ mouse_event (record { kind = left_down; column = 4; row = 18 })
    ∷ press parse_address print_address port_of "t0ken" settings willing down
    ∷ press parse_address print_address port_of "t0ken" settings willing enter
    ∷ press parse_address print_address port_of "t0ken" settings willing esc
    ∷ press parse_address print_address port_of "t0ken" settings willing (char_key "s")
    ∷ []

settings-IsNamed : All IsNamed settings.subscriptions
unfolding trim
settings-IsNamed = ((λ e. cc e, λ e. cc e), tt)

handle_events-started_example :
    let (w, result) =
      handle_events parse_address print_address port_of "t0ken" settings
        (started_session settings)
        some_events in
    (result ≢ panicked)
    × (w.tui.selected_main < length main_items)
    × (w.tui.selected_action < length subscription_actions)
    × (w.tui.selected_config < length config_keys)
    × ((w.tui.dirty ≡ true) ⊎ (w.file ≡ persistable_config w.tui.editable))
    × All IsNamed w.tui.editable.subscriptions
handle_events-started_example =
    handle_events-started parse_address print_address port_of "t0ken" settings settings some_events
      settings-IsNamed

b_is_full : trim "b" ≢ ""
unfolding trim
b_is_full e = cc e

b_is_text : trim " b " ≢ ""
unfolding trim
b_is_text e = cc e

wizard_lem_example :
    let w = started_session settings in
    let source =
      wizard_source parse_address print_address port_of "t0ken" settings willing w "b" " b " in
    let (v, result) =
      handle_events parse_address print_address port_of "t0ken" settings
        (at_first_row parse_address print_address port_of "t0ken" settings willing w)
        (wizard_keys parse_address print_address port_of "t0ken" settings willing "b" " b ") in
    (result ≡ go_on)
    × (v.tui.editable.subscriptions ≡ w.tui.editable.subscriptions ++ source ∷ [])
    × (v.tui.selected_subscription ≡ length v.tui.editable.subscriptions)
    × (v.tui.view ≡ subscription_menu)
    × (v.tui.input_mode ≡ no_input)
    × (v.tui.dirty ≡ true)
    × All (IsAfter source.priority) w.tui.editable.subscriptions
wizard_lem_example =
    wizard_lem parse_address print_address port_of "t0ken" settings willing
      (started_session settings) "b" " b " b_is_full b_is_text

draw-left_click_example :
    let s = (started_session settings).tui in
    (first_row s screen.menu ≤ s.selected_subscription)
    × (s.selected_subscription < first_row s screen.menu + visible_row_count screen.menu)
    × ((left_click
          (draw screen (subscriptions_shown s))
          4
          (line_of screen.menu (first_row s screen.menu) 1)).selected_subscription
        ≡ 1)
unfolding scroll_offset visible_row_count new_state
draw-left_click_example =
    draw-left_click (started_session settings).tui screen 4 1
      (omega arith, omega arith, omega arith, omega arith) (omega arith, omega arith) (omega arith)
      (omega arith) (omega arith) (omega arith) (omega arith)
