-- ===== src/Stability.antt =====
-- How often a config worked in a row: apply_stability_ranking of main.rs, and the choice of the
-- keys that a refresh saves for the next one (in refresh_once).
pub mod Laws
use v2ray_subscription_manag.Prelude.{
  ℕ, Bool, String, List, [], ◌∷◌, ◌++◌, map, Option, contains, lookup, insert, retain_keys, take,
  keep, saturating_add, u32_max, unwrap_or, if◌then◌else◌,
}
use v2ray_subscription_manag.Prelude.Sort.{sort_by}
use v2ray_subscription_manag.Model.{RankedConfig}
use v2ray_subscription_manag.Rank.{compare_stability_ranked, number_from}

-- One round of the loop over the results: the item with its count, and the counts.
unfoldable pub count_item : RankedConfig → List (String × ℕ) → RankedConfig × List (String × ℕ)
count_item item counts =
    let old = unwrap_or (lookup item.dedup_key counts) 0 in
    let count = saturating_add u32_max old 1 in
    if item.reachable
    then (record item { stability_count = count }, insert item.dedup_key count counts)
    else (record item { stability_count = old }, counts)

unfoldable pub count_items :
    List RankedConfig → List (String × ℕ) → List RankedConfig × List (String × ℕ)
unfolding count_item
count_items [] counts = ([], counts)
count_items (item ∷ rest) counts =
    let (item', counts') = count_item item counts in
    let (rest', final) = count_items rest counts' in (item' ∷ rest', final)

-- The `retain` before the loop: counts of configs that are not among the results are dropped.
unfoldable pub known_counts : List RankedConfig → List (String × ℕ) → List (String × ℕ)
known_counts ranked counts =
    let ranked_keys = map (λ (item : RankedConfig). item.dedup_key) ranked in
    retain_keys (contains ranked_keys) counts

unfoldable pub apply_stability_ranking :
    List RankedConfig → List (String × ℕ) → Bool → List RankedConfig × List (String × ℕ)
unfolding count_items known_counts number_from sort_by compare_stability_ranked
apply_stability_ranking ranked stable_working_counts prioritize_stability =
    let (counted, final) = count_items ranked (known_counts ranked stable_working_counts) in
    if prioritize_stability
    then (number_from 0 (sort_by compare_stability_ranked counted), final)
    else (counted, final)

-- The keys of the first `top_n` working results.
unfoldable pub stable_top_keys : ℕ → List RankedConfig → List String
stable_top_keys top_n ranked =
    map (λ (item : RankedConfig). item.dedup_key)
      (take top_n (keep (λ (item : RankedConfig). item.reachable) ranked))
