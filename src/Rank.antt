-- ===== src/Rank.antt =====
-- The orders in which results are shown (compare_ranked and rank_configs of probe.rs,
-- compare_stability_ranked, compare_ranked_snapshot and deduplicate_ranked_configs of main.rs).
pub mod Order
pub mod Before
pub mod Laws
use v2ray_subscription_manag.Prelude.{
  ℕ, ◌+◌, ◌≡◌, Bool, String, List, [], ◌∷◌, Option, none, some, Ordering, compare, unwrap_or,
  u128_max, contains, if◌then◌else◌,
}
use v2ray_subscription_manag.Prelude.Order.{◌then◌, compare_bool, compare_text}
use v2ray_subscription_manag.Prelude.Sort.{sort_by}
use v2ray_subscription_manag.Model.{F64, RankedConfig, partial_cmp}

-- `Option<f64>::partial_cmp`: `None` comes first.
unfoldable pub partial_cmp_option : Option F64 → Option F64 → Option Ordering
partial_cmp_option none none = some Ordering.eq
partial_cmp_option none (some y) = some Ordering.lt
partial_cmp_option (some x) none = some Ordering.gt
partial_cmp_option (some x) (some y) = partial_cmp x y

-- The download speeds, the faster first; `.unwrap_or(Ordering::Equal)`.
abbrev pub compare_download : RankedConfig → RankedConfig → Ordering
compare_download left right =
    unwrap_or (partial_cmp_option right.download_mbps left.download_mbps) Ordering.eq

abbrev pub compare_latency : RankedConfig → RankedConfig → Ordering
compare_latency left right =
    compare (unwrap_or left.latency_ms u128_max) (unwrap_or right.latency_ms u128_max)

unfoldable pub compare_ranked : RankedConfig → RankedConfig → Ordering
compare_ranked left right =
    compare_bool right.reachable left.reachable
    then compare_latency left right
    then compare_download left right
    then compare left.priority right.priority
    then compare_text left.protocol right.protocol
    then compare_text left.name right.name
    then compare_text left.uri right.uri

unfoldable pub compare_stability_ranked : RankedConfig → RankedConfig → Ordering
compare_stability_ranked left right =
    compare_bool right.reachable left.reachable
    then compare right.stability_count left.stability_count
    then compare_latency left right
    then compare_download left right
    then compare left.priority right.priority
    then compare_text left.protocol right.protocol
    then compare_text left.name right.name
    then compare_text left.uri right.uri

unfoldable pub compare_ranked_snapshot : RankedConfig → RankedConfig → Ordering
compare_ranked_snapshot left right =
    compare_bool right.reachable left.reachable
    then compare right.stability_count left.stability_count
    then compare_latency left right
    then compare_download left right
    then compare left.priority right.priority
    then compare_text left.protocol right.protocol
    then compare_text left.name right.name
    then compare_text left.uri right.uri

-- `for (index, item) in ranked.iter_mut().enumerate() { item.rank = index + 1; }`
unfoldable pub number_from : ℕ → List RankedConfig → List RankedConfig
number_from index [] = []
number_from index (item ∷ rest) = record item { rank = index + 1 } ∷ number_from (index + 1) rest

unfoldable pub rank_configs : List RankedConfig → List RankedConfig
unfolding number_from compare_ranked sort_by
rank_configs ranked = number_from 0 (sort_by compare_ranked ranked)

-- `ranked.retain(|item| seen_keys.insert(item.dedup_key.clone()))`
unfoldable pub retain_unseen : List String → List RankedConfig → List RankedConfig
retain_unseen seen [] = []
retain_unseen seen (item ∷ rest) =
    let kept = item ∷ retain_unseen (item.dedup_key ∷ seen) rest in
    let dropped = retain_unseen seen rest in if contains seen item.dedup_key then dropped else kept

unfoldable pub deduplicate_ranked_configs : List RankedConfig → List RankedConfig
unfolding retain_unseen number_from
deduplicate_ranked_configs ranked = number_from 0 (retain_unseen [] ranked)
