-- ===== src/Tui/Mouse.antt =====
-- The mouse, of tui/events.rs: the rows it selects and what it scrolls.
use v2ray_subscription_manag.Prelude.{
  ℕ, ◌+◌, ◌-◌, ◌%◌, ◌^◌, Bool, true, false, ◌&&◌, List, [], ◌∷◌, Option, none, some, length, any,
  leb, ltb, min_of, saturating_add, u64_max, if◌then◌else◌, str_append,
}
use v2ray_subscription_manag.Prelude.Decimal.{decimal}
use v2ray_subscription_manag.Tui.{
  MenuView, subscription_menu, configuration_menu, log_menu, Rect, TuiState, config_keys,
}

pub data MouseKind : Type 0 where
  left_down scroll_up_kind scroll_down_kind other_kind : MouseKind

pub record MouseEvent : Type 0 where
  pub kind : MouseKind
  pub column : ℕ
  pub row : ℕ

-- The coordinates are `u16`.
unfoldable pub area_contains : Rect → ℕ → ℕ → Bool
area_contains area x y =
    leb area.x x
    && ltb x ((area.x + area.width) % 2 ^ 16)
    && leb area.y y
    && ltb y ((area.y + area.height) % 2 ^ 16)

abbrev pub is_over : Option Rect → ℕ → ℕ → Bool
is_over none x y = false
is_over (some area) x y = area_contains area x y

-- The first row under the mouse.
abbrev pub row_under : List (ℕ × Rect) → ℕ → ℕ → Option ℕ
row_under [] x y = none
row_under ((i, area) ∷ rows) x y =
    let later = row_under rows x y in if area_contains area x y then some i else later

abbrev pub is_over_row : List (ℕ × Rect) → ℕ → ℕ → Bool
is_over_row rows x y = any (λ (row : ℕ × Rect). area_contains row.1 x y) rows

abbrev pub is_log_view : MenuView → Bool
is_log_view log_menu = true
is_log_view _ = false

abbrev pub is_subscription_view : MenuView → Bool
is_subscription_view subscription_menu = true
is_subscription_view _ = false

abbrev pub is_configuration_view : MenuView → Bool
is_configuration_view configuration_menu = true
is_configuration_view _ = false

module _ {Address : Type 0} where
  unfoldable pub scroll_up : TuiState Address → ℕ → ℕ → TuiState Address
  scroll_up s x y =
      if is_over s.hits.logs_area x y
      then record s { scroll = record s.scroll { logs = saturating_add u64_max s.scroll.logs 1 } }
      else if is_over s.hits.found_area x y
      then record s { scroll = record s.scroll { found = s.scroll.found - 1 } }
      else if is_over s.hits.live_logs_area x y && is_log_view s.view
      then record s { selected_log = saturating_add u64_max s.selected_log 1 }
      else if is_subscription_view s.view && is_over_row s.hits.subscription_rows x y
      then record s { selected_subscription = s.selected_subscription - 1 }
      else if is_configuration_view s.view && is_over_row s.hits.config_rows x y
      then record s { selected_config = s.selected_config - 1 }
      else s

  unfoldable pub scroll_down : TuiState Address → ℕ → ℕ → TuiState Address
  scroll_down s x y =
      if is_over s.hits.logs_area x y
      then record s { scroll = record s.scroll { logs = s.scroll.logs - 1 } }
      else if is_over s.hits.found_area x y
      then record s { scroll = record s.scroll { found = saturating_add u64_max s.scroll.found 1 } }
      else if is_over s.hits.live_logs_area x y && is_log_view s.view
      then record s { selected_log = s.selected_log - 1 }
      else if is_subscription_view s.view && is_over_row s.hits.subscription_rows x y
      then record s {
        selected_subscription =
            min_of (s.selected_subscription + 1) (length s.editable.subscriptions);
      }
      else if is_configuration_view s.view && is_over_row s.hits.config_rows x y
      then record s { selected_config = min_of (s.selected_config + 1) (length config_keys - 1) }
      else s

  unfoldable pub left_click : TuiState Address → ℕ → ℕ → TuiState Address
  left_click s x y = elim (row_under s.hits.main_rows x y) [
    | some i ↦ record s {
      selected_main = i;
      status = str_append "Selected menu row " (decimal (i + 1));
    }
    | none ↦ elim (row_under s.hits.subscription_rows x y) [
      | some i ↦ record s {
        selected_subscription = i;
        status = str_append "Selected row " (decimal (i + 1));
      }
      | none ↦ elim (row_under s.hits.config_rows x y) [
        | some i ↦ record s {
          selected_config = i;
          status = str_append "Selected config row " (decimal (i + 1));
        }
        | none ↦ s
      ]
    ]
  ]

  abbrev pub mouse_at : TuiState Address → MouseKind → ℕ → ℕ → TuiState Address
  mouse_at s left_down x y = left_click s x y
  mouse_at s scroll_up_kind x y = scroll_up s x y
  mouse_at s scroll_down_kind x y = scroll_down s x y
  mouse_at s other_kind x y = s

  unfoldable pub handle_mouse : TuiState Address → MouseEvent → TuiState Address
  handle_mouse s mouse = mouse_at s mouse.kind mouse.column mouse.row
