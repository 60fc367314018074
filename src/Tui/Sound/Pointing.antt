-- ===== src/Tui/Sound/Pointing.antt =====
-- The mouse, the arrows and drawing keep the selections in range.
use v2ray_subscription_manag.Prelude.{
  ℕ, zero, suc, ◌+◌, ◌-◌, ◌<◌, ◌≤◌, ◌≡◌, inl, inr, List, [], ◌∷◌, some, All, length, leb, arith,
  Bool-cases, Option-cases,
}
use v2ray_subscription_manag.Config.{AppConfig}
use v2ray_subscription_manag.Tui.{
  MenuView, main_menu, subscription_menu, new_subscription_menu, subscription_action_menu,
  configuration_menu, log_menu, Rect, TuiState, main_items, config_keys,
}
use v2ray_subscription_manag.Tui.Mouse.{
  MouseKind, left_down, scroll_up_kind, scroll_down_kind, other_kind, MouseEvent, row_under,
  scroll_up, scroll_down, left_click, mouse_at, handle_mouse,
}
use v2ray_subscription_manag.Tui.Screen.{
  Layout, rows_from, row_hits_with_offset, draw_main, draw_subscriptions, draw_configurations,
  draw_logs, draw_menu, draw,
}
use v2ray_subscription_manag.Tui.Events.{move_up, move_down, go_back, edit_selected_subscription}
use v2ray_subscription_manag.Tui.Sound.{IsRow, IsSound}

row_under-IsRow :
    (total : ℕ) (rows : List (ℕ × Rect)) (x y i : ℕ)
    → All (IsRow total) rows
    → row_under rows x y ≡ some i
    → i < total
row_under-IsRow total [] x y i h e = absurd (cc e)
row_under-IsRow total ((j, area) ∷ rows) x y i (hj, h) e =
    ground (arith, row_under-IsRow total rows x y i h)

rows_from-IsRow :
    (area : Rect) (offset index left total : ℕ)
    → index + left ≤ total
    → All (IsRow total) (rows_from area offset index left)
unfolding rows_from
rows_from-IsRow area offset index zero total h = tt
rows_from-IsRow area offset index (suc left) total h =
    ground (arith, rows_from-IsRow area offset (index + 1) left total)

rows_from-nil :
    (area : Rect) (offset index left total : ℕ)
    → left ≡ 0
    → All (IsRow total) (rows_from area offset index left)
unfolding rows_from
rows_from-nil area offset index zero total h = tt
rows_from-nil area offset index (suc left) total h = absurd (omega arith)

row_hits_with_offset-IsRow :
    (area : Rect) (count offset : ℕ) → All (IsRow count) (row_hits_with_offset area count offset)
unfolding row_hits_with_offset
row_hits_with_offset-IsRow area count offset = elim (Bool-cases (leb offset count)) [
  | inl e ↦ rows_from-IsRow area offset offset (count - offset) count (ground arith)
  | inr e ↦ rows_from-nil area offset offset (count - offset) count (ground arith)
]

module _ {Address : Type 0} (file : AppConfig Address) (s : TuiState Address)
    (h : IsSound file s) where
  left_click-IsSound : (x y : ℕ) → IsSound file (left_click s x y)
  unfolding left_click
  left_click-IsSound x y = elim (Option-cases (row_under s.hits.main_rows x y)) [
    | inr (i, e) ↦
        rw (left_click, e)
          (
            (
              row_under-IsRow (length main_items) s.hits.main_rows x y i h.0.3 e,
              h.0.1,
              h.0.2,
              h.0.3,
              h.0.4,
            ),
            h.1,
            h.2,
            h.3,
          )
    | inl e ↦ elim (Option-cases (row_under s.hits.subscription_rows x y)) [
      | inr (i, k) ↦ rw (left_click, e, k) h
      | inl k ↦ elim (Option-cases (row_under s.hits.config_rows x y)) [
        | inr (i, l) ↦
            rw (left_click, e, k, l)
              (
                (
                  h.0.0,
                  h.0.1,
                  row_under-IsRow (length config_keys) s.hits.config_rows x y i h.0.4 l,
                  h.0.3,
                  h.0.4,
                ),
                h.1,
                h.2,
                h.3,
              )
        | inl l ↦ rw (left_click, e, k, l) h
      ]
    ]
  ]

  scroll_up-IsSound : (x y : ℕ) → IsSound file (scroll_up s x y)
  unfolding scroll_up
  scroll_up-IsSound x y = ground arith

  scroll_down-IsSound : (x y : ℕ) → IsSound file (scroll_down s x y)
  unfolding scroll_down
  scroll_down-IsSound x y = ground arith

  pub move_up-IsSound : IsSound file (move_up s)
  unfolding move_up
  move_up-IsSound = ground arith

  pub move_down-IsSound : IsSound file (move_down s)
  unfolding move_down
  move_down-IsSound = ground arith

  pub edit_selected_subscription-IsSound : IsSound file (edit_selected_subscription s)
  unfolding edit_selected_subscription
  edit_selected_subscription-IsSound = ground arith

  pub go_back-IsSound : IsSound file (go_back s)
  unfolding go_back
  go_back-IsSound = ground arith

  mouse_at-IsSound : (kind : MouseKind) (x y : ℕ) → IsSound file (mouse_at s kind x y)
  mouse_at-IsSound left_down x y = left_click-IsSound x y
  mouse_at-IsSound scroll_up_kind x y = scroll_up-IsSound x y
  mouse_at-IsSound scroll_down_kind x y = scroll_down-IsSound x y
  mouse_at-IsSound other_kind x y = h

  pub handle_mouse-IsSound : (mouse : MouseEvent) → IsSound file (handle_mouse s mouse)
  unfolding handle_mouse
  handle_mouse-IsSound mouse = mouse_at-IsSound mouse.kind mouse.column mouse.row

  draw_main-IsSound : (area : Rect) → IsSound file (draw_main area s)
  unfolding draw_main
  draw_main-IsSound area = (
    (h.0.0, h.0.1, h.0.2, row_hits_with_offset-IsRow area (length main_items) _, h.0.4),
    h.1,
    h.2,
    h.3,
  )

  draw_configurations-IsSound : (area : Rect) → IsSound file (draw_configurations area s)
  unfolding draw_configurations
  draw_configurations-IsSound area = (
    (h.0.0, h.0.1, h.0.2, h.0.3, row_hits_with_offset-IsRow area (length config_keys) _),
    h.1,
    h.2,
    h.3,
  )

  draw_menu-IsSound : (layout : Layout) (view : MenuView) → IsSound file (draw_menu layout s view)
  unfolding draw_menu draw_subscriptions draw_logs
  draw_menu-IsSound layout main_menu = draw_main-IsSound layout.menu
  draw_menu-IsSound layout subscription_menu = h
  draw_menu-IsSound layout new_subscription_menu = h
  draw_menu-IsSound layout subscription_action_menu = h
  draw_menu-IsSound layout configuration_menu = draw_configurations-IsSound layout.menu
  draw_menu-IsSound layout log_menu = h

module _ {Address : Type 0} (file : AppConfig Address) where
  pub draw-IsSound :
      (layout : Layout) (s : TuiState Address) → IsSound file s → IsSound file (draw layout s)
  unfolding draw
  draw-IsSound layout s h =
      draw_menu-IsSound file _ ((h.0.0, h.0.1, h.0.2, tt, tt), h.1, h.2, h.3) layout s.view
