-- ===== src/Tui/Wizard.antt =====
-- The wizard that adds a subscription, from its first key to its last.
use text.Mathlib.TextLemmas.{
  nil-append, cons-append, append-nil as text_append-nil, append_assoc as text_append_assoc,
}
use v2ray_subscription_manag.Prelude.{
  ℕ, ◌≤◌, ◌<◌, ◌≡◌, ◌≢◌, ◌⊎◌, inl, inr, refl, ◌∙◌, ap, sym, true, false, String, List, [], ◌∷◌,
  ◌++◌, Option, some, All, Option-cases, length, u32_max, arith, str_append,
}
use v2ray_subscription_manag.Prelude.Decimal.{decimal}
use v2ray_subscription_manag.Text.{trim, is_one_of}
use v2ray_subscription_manag.Text.Numbers.{trim-decimal, parse_unsigned-decimal}
use v2ray_subscription_manag.Config.{AppConfig, SubscriptionSource}
use v2ray_subscription_manag.Config.Valid.{of_text}
use v2ray_subscription_manag.Tui.{
  subscription_menu, new_subscription_menu, NewSubscriptionStep, url_step, name_step, priority_step,
  enabled_step, no_input, new_subscription_input, SubscriptionDraft, TuiState,
  next_subscription_priority, max_priority, priority_after,
}
use v2ray_subscription_manag.Tui.Input.{
  KeyCode, enter, char_key, new_subscription_guide, start_input, start_new_subscription,
  commit_new_url, commit_new_name, commit_new_priority, commit_new_enabled, parse_bool, add_draft,
  commit_input, handle_input_key,
}
use v2ray_subscription_manag.Tui.Actions.{Session, EventResult, go_on, set_tui, run_action}
use v2ray_subscription_manag.Tui.Events.{
  Host, Event, key_event, is_back_shortcut, handle_mode, handle_key, handle_normal_key,
  activate_view, handle_event, handle_events,
}

next_subscription_priority-bound :
    {Address : Type 0} (s : TuiState Address) → next_subscription_priority s ≤ u32_max
unfolding next_subscription_priority
next_subscription_priority-bound s = ground arith

-- A priority after that of a source, or the greatest there is.
abbrev pub IsAfter : ℕ → SubscriptionSource → Type 0
IsAfter priority source = (source.priority < priority) ⊎ (priority ≡ u32_max)

max_priority-IsAfter :
    (priority : ℕ) (sources : List SubscriptionSource)
    → priority_after (max_priority sources) ≤ priority
    → priority ≤ u32_max
    → All (IsAfter priority) sources
max_priority-IsAfter priority [] h bound = tt
max_priority-IsAfter priority (source ∷ sources) h bound =
    let (now, more) : (IsAfter priority source)
        × (priority_after (max_priority sources) ≤ priority) =
      elim (Option-cases (max_priority sources)) [
        | inl e ↦ (ground arith)
        | inr (m, e) ↦ (ground arith)
      ] in
    (now, max_priority-IsAfter priority sources more bound)

next_subscription_priority-IsAfter :
    {Address : Type 0} (s : TuiState Address)
    → All (IsAfter (next_subscription_priority s)) s.editable.subscriptions
unfolding next_subscription_priority
next_subscription_priority-IsAfter s =
    max_priority-IsAfter _ s.editable.subscriptions (omega arith)
      (next_subscription_priority-bound s)

module _ {Address : Type 0} (parse_address : String → Option Address)
    (print_address : Address → String) (port_of : Address → ℕ) (generated : String)
    (defaults : AppConfig Address) (host : Host Address) where
  abbrev pub press : KeyCode → Event Address
  press k = key_event host (record { is_press = true; control = false; key_code = k })

  abbrev pub typing : String → List (Event Address) → List (Event Address)
  typing String.[] events = events
  typing (String.◌∷◌ c s) events = press (char_key c) ∷ typing s events

  -- The first row of the subscription menu is selected.
  abbrev pub at_first_row : Session Address → Session Address
  at_first_row w =
      set_tui w (record w.tui {
        view = subscription_menu;
        selected_subscription = 0;
        input_mode = no_input;
      })

  -- The wizard asks for something, and some text is there.
  abbrev asking :
      Session Address → SubscriptionDraft → NewSubscriptionStep → String → Session Address
  asking w d step text = set_tui w (record w.tui {
    view = new_subscription_menu;
    selected_subscription = 0;
    new_subscription = some d;
    input_mode = new_subscription_input step;
    input = text;
    status = new_subscription_guide step;
  })

  abbrev play : Session Address → List (Event Address) → Session Address × EventResult
  play = handle_events parse_address print_address port_of generated defaults

  play-typing :
      (w : Session Address) (d : SubscriptionDraft) (step : NewSubscriptionStep) (text s : String)
      (events : List (Event Address))
      → play (asking w d step text) (typing s events)
        ≡ play (asking w d step (str_append text s)) events
  unfolding handle_events handle_event handle_key is_back_shortcut handle_mode handle_input_key
  play-typing w d step text String.[] events =
      ap (λ (t : String). play (asking w d step t) events) (sym (text_append-nil text))
  play-typing w d step text (String.◌∷◌ c s) events =
      play-typing w d step (str_append text (String.◌∷◌ c "")) s events
      ∙ ap (λ (t : String). play (asking w d step t) events)
          (text_append_assoc text (String.◌∷◌ c "") s
            ∙ ap (str_append text)
                (cons-append c "" s ∙ ap (λ (t : String). String.◌∷◌ c t) (nil-append s)))

  play-start :
      (w : Session Address) (events : List (Event Address))
      → play (at_first_row w) (press enter ∷ events)
        ≡ play
            (asking w
              (record {
                name = "";
                url = "";
                priority = next_subscription_priority w.tui;
                enabled = true;
              })
              url_step
              "")
            events
  unfolding handle_events handle_event handle_key is_back_shortcut handle_mode handle_normal_key
      activate_view run_action start_new_subscription start_input next_subscription_priority
  play-start w events = refl

  play-url :
      (w : Session Address) (d : SubscriptionDraft) (text : String) (events : List (Event Address))
      → trim text ≢ ""
      → play (asking w d url_step text) (press enter ∷ events)
        ≡ play (asking w (record d { url = trim text }) name_step "") events
  unfolding handle_events handle_event handle_key is_back_shortcut handle_mode handle_input_key
      commit_input commit_new_url start_input
  play-url w d text events h = rw (commit_new_url, of_text (trim text) h) refl

  play-name :
      (w : Session Address) (d : SubscriptionDraft) (text : String) (events : List (Event Address))
      → trim text ≢ ""
      → play (asking w d name_step text) (press enter ∷ events)
        ≡ play (asking w (record d { name = trim text }) priority_step (decimal d.priority)) events
  unfolding handle_events handle_event handle_key is_back_shortcut handle_mode handle_input_key
      commit_input commit_new_name start_input
  play-name w d text events h = rw (commit_new_name, of_text (trim text) h) refl

  play-priority :
      (w : Session Address) (d : SubscriptionDraft) (events : List (Event Address))
      → d.priority ≤ u32_max
      → d.enabled ≡ true
      → play (asking w d priority_step (decimal d.priority)) (press enter ∷ events)
        ≡ play (asking w d enabled_step "yes") events
  unfolding handle_events handle_event handle_key is_back_shortcut handle_mode handle_input_key
      commit_input commit_new_priority start_input
  play-priority w d events h on =
      rw
        (
          commit_new_priority,
          trim-decimal d.priority,
          parse_unsigned-decimal u32_max d.priority h (omega arith),
          on,
        )
        refl

  -- The subscription is added and selected.
  abbrev adding : Session Address → SubscriptionDraft → Session Address
  adding w d = set_tui w (add_draft (asking w d enabled_step "yes").tui d true)

  yes_lem : parse_bool (trim "yes") ≡ some true
  unfolding parse_bool trim is_one_of
  yes_lem = refl

  play-enabled :
      (w : Session Address) (d : SubscriptionDraft)
      → play (asking w d enabled_step "yes") (press enter ∷ []) ≡ (adding w d, go_on)
  unfolding handle_events handle_event handle_key is_back_shortcut handle_mode handle_input_key
      commit_input commit_new_enabled
  play-enabled w d = rw (commit_new_enabled, yes_lem) refl

  abbrev pub wizard_keys : String → String → List (Event Address)
  wizard_keys url name =
      press enter
      ∷ typing url (press enter ∷ typing name (press enter ∷ press enter ∷ press enter ∷ []))

  abbrev pub wizard_source : Session Address → String → String → SubscriptionSource
  wizard_source w url name = record {
    name = trim name;
    url = trim url;
    enabled = true;
    priority = next_subscription_priority w.tui;
  }

  play-wizard :
      (w : Session Address) (url name : String)
      → trim url ≢ ""
      → trim name ≢ ""
      → play (at_first_row w) (wizard_keys url name) ≡ (
        adding w (record {
          name = trim name;
          url = trim url;
          priority = next_subscription_priority w.tui;
          enabled = true;
        }),
        go_on,
      )
  play-wizard w url name hu hn =
      let priority = next_subscription_priority w.tui in
      let d₀ : SubscriptionDraft = record {
        name = "";
        url = "";
        priority = priority;
        enabled = true;
      } in
      let d₁ : SubscriptionDraft = record d₀ { url = trim url } in
      let d₂ : SubscriptionDraft = record d₁ { name = trim name } in
      let last = press enter ∷ press enter ∷ [] in
      let after_url = press enter ∷ typing name (press enter ∷ last) in
      play-start w _
      ∙ play-typing w d₀ url_step "" url after_url
      ∙ ap (λ (t : String). play (asking w d₀ url_step t) after_url) (nil-append url)
      ∙ play-url w d₀ url _ hu
      ∙ play-typing w d₁ name_step "" name (press enter ∷ last)
      ∙ ap (λ (t : String). play (asking w d₁ name_step t) (press enter ∷ last)) (nil-append name)
      ∙ play-name w d₁ name _ hn
      ∙ play-priority w d₂ _ (next_subscription_priority-bound w.tui) refl
      ∙ play-enabled w d₂

  -- Enter on the first row of the subscription menu, the text of an address, Enter, the text of a
  -- name and three times Enter, with texts that are not blank: the subscription is added at the end,
  -- with the trimmed texts and the next priority, enabled and selected, nothing asks for input any
  -- more, and the configuration is marked as changed. The next priority comes after those of all the
  -- sources before, unless it is the greatest there is.
  pub wizard_lem :
      (w : Session Address) (url name : String)
      → trim url ≢ ""
      → trim name ≢ ""
      → (let (v, result) =
            handle_events parse_address print_address port_of generated defaults
              (at_first_row w)
              (wizard_keys url name) in
          (result ≡ go_on)
          × (v.tui.editable.subscriptions
              ≡ w.tui.editable.subscriptions ++ wizard_source w url name ∷ [])
          × (v.tui.selected_subscription ≡ length v.tui.editable.subscriptions)
          × (v.tui.view ≡ subscription_menu)
          × (v.tui.input_mode ≡ no_input)
          × (v.tui.dirty ≡ true)
          × All (IsAfter (wizard_source w url name).priority) w.tui.editable.subscriptions)
  unfolding add_draft
  wizard_lem w url name hu hn =
      rw (play-wizard w url name hu hn)
        (refl, refl, refl, refl, refl, refl, next_subscription_priority-IsAfter w.tui)
