-- ===== src/Stop/Reason.antt =====
-- When probe_stop_reason gives a reason to stop.
use v2ray_subscription_manag.Prelude.{
  is_some, ℕ, zero, suc, ◌+◌, ◌-◌, ◌/◌, ◌≤◌, ◌<◌, ◌≡◌, ◌⊎◌, ◌↔◌, inl, inr, Bool, true, false, not,
  ◌&&◌, ◌||◌, String, List, [], ◌∷◌, arith, length, count_where, leb, ◌==◌, min_of, contains,
  eq_iff, Bool-cases,
}
use v2ray_subscription_manag.Model.{RankedConfig, ProbeStopPolicy}
use v2ray_subscription_manag.Stop.{
  ProbeStopState, is_previous, stable_reachable_count, publish_half, stability_reason,
  probe_stop_reason,
}

-- At least so many of the results satisfy a predicate, at different places.
abbrev pub AtLeast : (RankedConfig → Type 0) → ℕ → List RankedConfig → Type 0
AtLeast P zero ranked = Unit
AtLeast P (suc n) [] = ⊥
AtLeast P (suc n) (item ∷ ranked) = (P item × AtLeast P n ranked) ⊎ AtLeast P (suc n) ranked

abbrev pub IsReachable : RankedConfig → Type 0
IsReachable item = item.reachable ≡ true

abbrev pub IsOneOf : List String → String → Type 0
IsOneOf [] key = ⊥
IsOneOf (k ∷ ks) key = (k ≡ key) ⊎ IsOneOf ks key

-- The config works and was one of the best of the previous run.
abbrev pub IsConfirmed : List String → RankedConfig → Type 0
IsConfirmed keys item = IsReachable item × IsOneOf keys item.dedup_key

contains_iff : (keys : List String) (key : String) → (contains keys key ≡ true) ↔ IsOneOf keys key
unfolding contains
contains_iff [] key = ground arith
contains_iff (k ∷ keys) key = ground (arith, eq_iff k key, contains_iff keys key)

module _ (f : RankedConfig → Bool) (P : RankedConfig → Type 0)
    (tests : (item : RankedConfig) → (f item ≡ true) ↔ P item) where
  AtLeast-count_where :
      (n : ℕ) (ranked : List RankedConfig) → n ≤ count_where f ranked → AtLeast P n ranked
  AtLeast-count_where zero ranked h = tt
  AtLeast-count_where (suc n) [] h = absurd (omega arith)
  AtLeast-count_where (suc n) (item ∷ ranked) h = elim (Bool-cases (f item)) [
    | inl e ↦ inl ((tests item).0 e, AtLeast-count_where n ranked (ground arith))
    | inr e ↦ inr (AtLeast-count_where (suc n) ranked (ground arith))
  ]

  count_where-AtLeast :
      (n : ℕ) (ranked : List RankedConfig) → AtLeast P n ranked → n ≤ count_where f ranked
  count_where-AtLeast zero ranked h = omega arith
  count_where-AtLeast (suc n) [] h = absurd h
  count_where-AtLeast (suc n) (item ∷ ranked) (inl (p, h)) =
      rw ((tests item).1 p) (omega (arith, count_where-AtLeast n ranked h))
  count_where-AtLeast (suc n) (item ∷ ranked) (inr h) =
      ground (arith, count_where-AtLeast (suc n) ranked h)

reachable_tests : (item : RankedConfig) → (item.reachable ≡ true) ↔ IsReachable item
reachable_tests item = (λ e. e, λ e. e)

IsConfirmed-tests :
    (policy : ProbeStopPolicy) (item : RankedConfig)
    → ((item.reachable && is_previous policy item) ≡ true)
      ↔ IsConfirmed policy.previous_working_keys item
IsConfirmed-tests policy item =
    ground (arith, contains_iff policy.previous_working_keys item.dedup_key)

-- Half of the wanted configs, or as many as there are keys of the previous run, are confirmed.
abbrev pub IsStable : ProbeStopPolicy → List RankedConfig → Type 0
IsStable policy ranked =
    ((n : ℕ) × (policy.top_n ≤ n + n) × AtLeast (IsConfirmed policy.previous_working_keys) n ranked)
    ⊎ AtLeast (IsConfirmed policy.previous_working_keys) (length policy.previous_working_keys)
        ranked

abbrev pub ShouldStop : ProbeStopPolicy → ProbeStopState → List RankedConfig → Type 0
ShouldStop policy state ranked =
    (policy.scan_all_configs ≡ false)
    × (0 < policy.top_n)
    × AtLeast IsReachable policy.top_n ranked
    × ((policy.prioritize_stability ≡ false)
        ⊎ (IsStable policy ranked ⊎ (state.stability_search_exhausted ≡ true)))

abbrev required : ProbeStopPolicy → ℕ
required policy = min_of (policy.top_n - policy.top_n / 2) (length policy.previous_working_keys)

IsStable-required :
    (policy : ProbeStopPolicy) (ranked : List RankedConfig)
    → required policy ≤ stable_reachable_count ranked policy
    → IsStable policy ranked
unfolding stable_reachable_count
IsStable-required policy ranked h =
    let half = policy.top_n - policy.top_n / 2 in
    let keys = length policy.previous_working_keys in
    let found =
      AtLeast-count_where (λ item. item.reachable && is_previous policy item)
        (IsConfirmed policy.previous_working_keys) (IsConfirmed-tests policy) in
    elim (Bool-cases (leb half keys)) [
      | inl e ↦ inl (half, omega arith, found half ranked (ground arith))
      | inr e ↦ inr (found keys ranked (ground arith))
    ]

required-IsStable :
    (policy : ProbeStopPolicy) (ranked : List RankedConfig)
    → IsStable policy ranked
    → required policy ≤ stable_reachable_count ranked policy
unfolding stable_reachable_count
required-IsStable policy ranked (inl (n, half, h)) =
    let counted =
      count_where-AtLeast (λ item. item.reachable && is_previous policy item)
        (IsConfirmed policy.previous_working_keys) (IsConfirmed-tests policy) n ranked h in
    ground arith
required-IsStable policy ranked (inr h) =
    let counted =
      count_where-AtLeast (λ item. item.reachable && is_previous policy item)
        (IsConfirmed policy.previous_working_keys) (IsConfirmed-tests policy)
        (length policy.previous_working_keys) ranked h in
    ground arith

-- The tests of the code.
reason_tests :
    (ranked : List RankedConfig) (policy : ProbeStopPolicy) (state : ProbeStopState)
    (listening : Bool)
    → is_some (probe_stop_reason ranked policy state listening).0
      ≡ not policy.scan_all_configs
        && not (policy.top_n == 0)
        && leb policy.top_n (count_where (λ (item : RankedConfig). item.reachable) ranked)
        && (not policy.prioritize_stability
            || leb (required policy) (stable_reachable_count ranked policy)
            || state.stability_search_exhausted)
unfolding probe_stop_reason publish_half stability_reason
reason_tests ranked policy state listening = ground arith

-- probe_stop_reason gives a reason exactly if not all configs are to be scanned, a positive number
-- `top_n` of configs is wanted and so many of the results work, and, if stability counts, either
-- half of that number, or as many as the keys of the previous run, work and have one of those keys,
-- or the search for those configs has finished.
pub probe_stop_reason_iff :
    (ranked : List RankedConfig) (policy : ProbeStopPolicy) (state : ProbeStopState)
    (listening : Bool)
    → (is_some (probe_stop_reason ranked policy state listening).0 ≡ true)
      ↔ ShouldStop policy state ranked
probe_stop_reason_iff ranked policy state listening =
    let tests = reason_tests ranked policy state listening in
    let counted = λ (item : RankedConfig). item.reachable in
    let enough = AtLeast-count_where counted IsReachable reachable_tests policy.top_n ranked in
    let back = count_where-AtLeast counted IsReachable reachable_tests policy.top_n ranked in
    ground (arith, enough, back, IsStable-required policy ranked, required-IsStable policy ranked)
