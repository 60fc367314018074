-- ===== src/Progress/Live.antt =====
-- The configs that the terminal and the server show while a refresh runs.
use v2ray_subscription_manag.Prelude.{
  ℕ, suc, ◌+◌, ◌-◌, ◌≤◌, ◌≡◌, refl, ap, sym, ◌∙◌, true, false, String, List, [], ◌∷◌, ◌++◌, map,
  append-nil, append_assoc, arith, contains, eq_iff, eq_refl, Distinct, All, take, take-nil,
  take-append, length, length-append, leb, ◌==◌, Bool-cases, inl, inr,
}
use v2ray_subscription_manag.Model.{RankedConfig, RuntimeState}
use v2ray_subscription_manag.Rank.{number_from}
use v2ray_subscription_manag.Rank.Laws.{key_of, IsNumbered, number_from-IsNumbered}
use v2ray_subscription_manag.Stability.Laws.{uncounted}
use v2ray_subscription_manag.Stop.{working_unseen}
use v2ray_subscription_manag.Progress.{
  apply_snapshot_stability_counts, retain_working, append_new, append_asap_working_configs,
}

retain_working-working_unseen :
    (items : List RankedConfig) (seen : List String)
    → (retain_working items seen).0 ≡ working_unseen seen items
unfolding retain_working working_unseen
retain_working-working_unseen [] seen = refl
retain_working-working_unseen (x ∷ items) seen = ground (
  arith,
  retain_working-working_unseen items seen,
  retain_working-working_unseen items (x.dedup_key ∷ seen),
)

working_unseen-append :
    (items later : List RankedConfig) (seen : List String)
    → working_unseen seen (items ++ later)
      ≡ working_unseen seen items ++ working_unseen (retain_working items seen).1 later
unfolding retain_working working_unseen
working_unseen-append [] later seen = refl
working_unseen-append (x ∷ items) later seen = ground (
  arith,
  working_unseen-append items later seen,
  working_unseen-append items later (x.dedup_key ∷ seen),
)

append_new-working_unseen :
    (top_n : ℕ) (configs shown : List RankedConfig) (seen : List String)
    → append_new top_n configs shown seen
      ≡ shown ++ take (top_n - length shown) (working_unseen seen configs)
unfolding append_new working_unseen
append_new-working_unseen top_n [] shown seen =
    rw (take-nil (top_n - length shown)) (sym (append-nil shown))
append_new-working_unseen top_n (x ∷ configs) shown seen = elim (Bool-cases x.reachable) [
  | inr dead ↦ rw dead (append_new-working_unseen top_n configs shown seen)
  | inl alive ↦ elim (Bool-cases (leb top_n (length shown))) [
    | inl full ↦
        let z : top_n - length shown ≡ 0 = ground arith in
        rw (alive, full, z) (sym (append-nil shown))
    | inr room ↦ elim (Bool-cases (contains seen x.dedup_key)) [
      | inl old ↦ rw (alive, room, old) (append_new-working_unseen top_n configs shown seen)
      | inr new ↦
          let z : top_n - length shown ≡ suc (top_n - length (shown ++ x ∷ [])) =
            ground (arith, length-append shown (x ∷ [])) in
          simp (alive, room, new, z)
            (append_new-working_unseen top_n configs (shown ++ x ∷ []) (x.dedup_key ∷ seen)
              ∙ append_assoc shown (x ∷ []) _)
    ]
  ]
]

take-take : (n : ℕ) (xs : List RankedConfig) → take n (take n xs) ≡ take n xs
take-take ℕ.zero xs = refl
take-take (suc n) [] = refl
take-take (suc n) (x ∷ xs) = ap (◌∷◌ x) (take-take n xs)

take-append-take :
    (n : ℕ) (xs ys : List RankedConfig) → take n (xs ++ take (n - length xs) ys) ≡ take n (xs ++ ys)
take-append-take n xs ys =
    take-append n xs (take (n - length xs) ys)
    ∙ ap (λ l. take n xs ++ l) (take-take (n - length xs) ys)
    ∙ sym (take-append n xs ys)

-- The first working config of each key, of those shown and then of the new ones.
abbrev pub live_list : RuntimeState → List RankedConfig → List RankedConfig
live_list state configs = working_unseen [] (state.ranked ++ configs)

shown_lem :
    (state : RuntimeState) (configs : List RankedConfig) (top_n : ℕ)
    → let (kept, seen) = retain_working state.ranked [] in
      take top_n (append_new top_n configs kept seen) ≡ take top_n (live_list state configs)
shown_lem state configs top_n =
    let kept = (retain_working state.ranked []).0 in
    let seen = (retain_working state.ranked []).1 in
    ap (take top_n) (append_new-working_unseen top_n configs kept seen)
    ∙ take-append-take top_n kept (working_unseen seen configs)
    ∙ ap (λ l. take top_n (l ++ working_unseen seen configs))
        (retain_working-working_unseen state.ranked [])
    ∙ ap (take top_n) (sym (working_unseen-append state.ranked configs []))

working_unseen_fresh :
    (seen : List String) (items : List RankedConfig) (k : String)
    → contains seen k ≡ true
    → contains (map key_of (working_unseen seen items)) k ≡ false
unfolding working_unseen contains
working_unseen_fresh seen [] k h = refl
working_unseen_fresh seen (x ∷ items) k h = ground (
  arith,
  eq_iff x.dedup_key k,
  working_unseen_fresh seen items k,
  working_unseen_fresh (x.dedup_key ∷ seen) items k,
)

pub working_unseen-Distinct :
    (seen : List String) (items : List RankedConfig)
    → Distinct (map key_of (working_unseen seen items))
unfolding working_unseen contains
working_unseen-Distinct seen [] = tt
working_unseen-Distinct seen (x ∷ items) = ground (
  arith,
  eq_refl x.dedup_key,
  working_unseen-Distinct seen items,
  working_unseen-Distinct (x.dedup_key ∷ seen) items,
  working_unseen_fresh (x.dedup_key ∷ seen) items x.dedup_key,
)

pub working_unseen_work :
    (seen : List String) (items : List RankedConfig)
    → All (λ (x : RankedConfig). x.reachable ≡ true) (working_unseen seen items)
unfolding working_unseen
working_unseen_work seen [] = tt
working_unseen_work seen (x ∷ items) =
    ground (arith, working_unseen_work seen items, working_unseen_work (x.dedup_key ∷ seen) items)

uncounted-apply_snapshot :
    (items : List RankedConfig) (counts : List (String × ℕ)) (previous : List String)
    → map uncounted (apply_snapshot_stability_counts items counts previous) ≡ map uncounted items
unfolding apply_snapshot_stability_counts
uncounted-apply_snapshot [] counts previous = refl
uncounted-apply_snapshot (x ∷ items) counts previous =
    ap (◌∷◌ (uncounted x)) (uncounted-apply_snapshot items counts previous)

uncounted-number_from :
    (n : ℕ) (items : List RankedConfig) → map uncounted (number_from n items) ≡ map uncounted items
unfolding number_from
uncounted-number_from n [] = refl
uncounted-number_from n (x ∷ items) = ap (◌∷◌ (uncounted x)) (uncounted-number_from (n + 1) items)

-- With a positive `top_n` the state shows, in the order in which they were found, the first
-- `top_n` of the working configs with keys of their own, those that were shown before in front,
-- numbered from 1; nothing else of the state changes.
pub append_asap_working_configs_lem :
    (state : RuntimeState) (configs : List RankedConfig) (top_n : ℕ) (previous : List String)
    → 1 ≤ top_n
    → let state' = append_asap_working_configs state configs top_n previous in
      (map uncounted state'.ranked ≡ map uncounted (take top_n (live_list state configs)))
      × IsNumbered state'.ranked
      × (record state' { ranked = [] } ≡ record state { ranked = [] })
unfolding append_asap_working_configs
append_asap_working_configs_lem state configs top_n previous h =
    let shown = take top_n (
      append_new top_n configs (retain_working state.ranked []).0
        (retain_working state.ranked []).1) in
    let counted = apply_snapshot_stability_counts shown state.stable_working_counts previous in
    let positive : top_n == 0 ≡ false = ground arith in
    (
      simp positive (
          uncounted-number_from 0 counted
          ∙ uncounted-apply_snapshot shown state.stable_working_counts previous
          ∙ ap (map uncounted) (shown_lem state configs top_n)),
      simp positive (number_from-IsNumbered counted),
      simp positive,
    )
