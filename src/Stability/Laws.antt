-- ===== src/Stability/Laws.antt =====
-- What apply_stability_ranking does to the counts and to the results.
use mathlib.Core.List.Perm
use v2ray_subscription_manag.Prelude.{
  ℕ, ◌+◌, ◌≡◌, refl, ap, Bool, true, false, String, List, [], ◌∷◌, map, Perm, Option, none, some,
  arith, str_eq, eq_iff, eq_refl, sym, subst, contains, lookup, lookup-insert, lookup-retain_keys,
  Distinct, All, saturating_add, u32_max, unwrap_or, if◌then◌else◌,
}
use v2ray_subscription_manag.Prelude.Sort.{sort_by, sort_by-perm, sort_by-IsSorted, sort_by-All}
use v2ray_subscription_manag.Model.{RankedConfig}
use v2ray_subscription_manag.Rank.{compare_stability_ranked, number_from}
use v2ray_subscription_manag.Rank.Order.{HasNumber, compare_stability_ranked-IsOrd}
use v2ray_subscription_manag.Rank.Before.{IsStablyBefore, InOrder, IsSorted-InStableOrder}
use v2ray_subscription_manag.Rank.Laws.{
  key_of, IsNumbered, number_from-IsNumbered, number_from-IsSorted, number_from-HasNumber,
}
use v2ray_subscription_manag.Stability.{
  count_item, count_items, known_counts, apply_stability_ranking,
}

-- Whether the result with a key works; `none` if there is none.
abbrev pub works : String → List RankedConfig → Option Bool
works k [] = none
works k (r ∷ rs) = if str_eq r.dedup_key k then some r.reachable else works k rs

-- The count of a key after a refresh, from the one before.
abbrev pub next_count : Option Bool → Option ℕ → Option ℕ
next_count none old = none
next_count (some true) old = some (saturating_add u32_max (unwrap_or old 0) 1)
next_count (some false) old = old

abbrev count_after : Option Bool → Option ℕ → Option ℕ
count_after none old = old
count_after (some b) old = next_count (some b) old

works_absent :
    (k : String) (rs : List RankedConfig) → contains (map key_of rs) k ≡ false → works k rs ≡ none
unfolding contains
works_absent k [] h = refl
works_absent k (r ∷ rs) h = ground (arith, works_absent k rs)

works_missing :
    (k : String) (rs : List RankedConfig) → works k rs ≡ none → contains (map key_of rs) k ≡ false
unfolding contains
works_missing k [] h = refl
works_missing k (r ∷ rs) h = ground (arith, works_missing k rs)

works_present :
    (k : String) (rs : List RankedConfig) (b : Bool)
    → works k rs ≡ some b
    → contains (map key_of rs) k ≡ true
unfolding contains
works_present k [] b h = ground arith
works_present k (r ∷ rs) b h = ground (arith, works_present k rs b)

lookup-count_items :
    (rs : List RankedConfig) (counts : List (String × ℕ)) (k : String)
    → Distinct (map key_of rs)
    → lookup k (count_items rs counts).1 ≡ count_after (works k rs) (lookup k counts)
unfolding count_items
lookup-count_items [] counts k d = refl
lookup-count_items (r ∷ rs) counts k d = ground (
  arith,
  eq_iff r.dedup_key k,
  works_absent r.dedup_key rs d.0,
  lookup-insert r.dedup_key k (saturating_add u32_max (unwrap_or (lookup r.dedup_key counts) 0) 1)
      counts,
  lookup-count_items rs (count_item r counts).1 k d.1,
)

-- The count of each key: one more for a working config, kept for one that failed, and dropped for
-- one that is not among the results.
lookup-final :
    (rs : List RankedConfig) (counts : List (String × ℕ)) (k : String)
    → Distinct (map key_of rs)
    → lookup k (count_items rs (known_counts rs counts)).1
      ≡ next_count (works k rs) (lookup k counts)
unfolding known_counts
lookup-final rs counts k d = ground (
  arith,
  lookup-count_items rs (known_counts rs counts) k d,
  lookup-retain_keys (contains (map key_of rs)) k counts,
  works_missing k rs,
  works_present k rs true,
  works_present k rs false,
)

-- The count that an item shows is the one in the map.
abbrev pub ShowsCount : List (String × ℕ) → RankedConfig → Type 0
ShowsCount counts r = r.stability_count ≡ unwrap_or (lookup r.dedup_key counts) 0

count_item-ShowsCount :
    (r : RankedConfig) (counts : List (String × ℕ))
    → ShowsCount (count_item r counts).1 (count_item r counts).0
      × ((count_item r counts).0.dedup_key ≡ r.dedup_key)
unfolding count_item
count_item-ShowsCount r counts = ground (
  arith,
  eq_refl r.dedup_key,
  lookup-insert r.dedup_key r.dedup_key
      (saturating_add u32_max (unwrap_or (lookup r.dedup_key counts) 0) 1) counts,
)

count_items-ShowsCount :
    (rs : List RankedConfig) (counts : List (String × ℕ))
    → Distinct (map key_of rs)
    → All (ShowsCount (count_items rs counts).1) (count_items rs counts).0
unfolding count_items
count_items-ShowsCount [] counts d = tt
count_items-ShowsCount (r ∷ rs) counts d =
    let (shown, key) = count_item-ShowsCount r counts in
    let later = lookup-count_items rs (count_item r counts).1 r.dedup_key d.1 in
    (
      ground (arith, shown, key, later, works_absent r.dedup_key rs d.0),
      count_items-ShowsCount rs (count_item r counts).1 d.1,
    )

-- A result without what the ranking sets.
abbrev pub uncounted : RankedConfig → RankedConfig
uncounted r = record r { rank = 0; stability_count = 0 }

uncounted-count_items :
    (rs : List RankedConfig) (counts : List (String × ℕ))
    → map uncounted (count_items rs counts).0 ≡ map uncounted rs
unfolding count_items count_item
uncounted-count_items [] counts = refl
uncounted-count_items (r ∷ rs) counts =
    ground (arith, uncounted-count_items rs (count_item r counts).1)

uncounted-number_from :
    (n : ℕ) (rs : List RankedConfig) → map uncounted (number_from n rs) ≡ map uncounted rs
unfolding number_from
uncounted-number_from n [] = refl
uncounted-number_from n (r ∷ rs) = ap (◌∷◌ (uncounted r)) (uncounted-number_from (n + 1) rs)

ShowsCount-number_from :
    (counts : List (String × ℕ)) (n : ℕ) (rs : List RankedConfig)
    → All (ShowsCount counts) rs
    → All (ShowsCount counts) (number_from n rs)
unfolding number_from
ShowsCount-number_from counts n [] h = tt
ShowsCount-number_from counts n (r ∷ rs) h = (h.0, ShowsCount-number_from counts (n + 1) rs h.1)

HasNumber-count_items :
    (rs : List RankedConfig) (counts : List (String × ℕ))
    → All HasNumber rs
    → All HasNumber (count_items rs counts).0
unfolding count_items count_item
HasNumber-count_items [] counts h = tt
HasNumber-count_items (r ∷ rs) counts h =
    (ground arith, HasNumber-count_items rs (count_item r counts).1 h.1)

-- After apply_stability_ranking of results with distinct keys, the map holds for each key: one
-- more than before (at most the greatest `u32`) if its config works, the count of before if its
-- config failed, and nothing if it is not among the results; and each result shows its count.
pub apply_stability_ranking_counts :
    (ranked : List RankedConfig) (counts : List (String × ℕ)) (prioritize : Bool)
    → Distinct (map key_of ranked)
    → let (ranked', counts') = apply_stability_ranking ranked counts prioritize in
      ((k : String) → lookup k counts' ≡ next_count (works k ranked) (lookup k counts))
      × All (ShowsCount counts') ranked'
unfolding apply_stability_ranking
apply_stability_ranking_counts ranked counts false d = (
  λ k. lookup-final ranked counts k d,
  count_items-ShowsCount ranked (known_counts ranked counts) d,
)
apply_stability_ranking_counts ranked counts true d =
    let (counted, final) = count_items ranked (known_counts ranked counts) in
    (
      λ k. lookup-final ranked counts k d,
      ShowsCount-number_from final 0 (sort_by compare_stability_ranked counted) (
          sort_by-All compare_stability_ranked (ShowsCount final) counted
            (count_items-ShowsCount ranked (known_counts ranked counts) d)),
    )

-- apply_stability_ranking changes nothing but the counts and the ranks of the results. With
-- prioritize_stability they are numbered from 1 and, if every download speed is a number, each is
-- before all later ones: the reachable results are before the others, and among those that are
-- reachable alike the order is by a greater count, then a lower latency (one that is missing counts
-- as the greatest), a higher speed, a lower priority value, protocol, name and uri. Without
-- prioritize_stability they stay in their order.
pub apply_stability_ranking_order :
    (ranked : List RankedConfig) (counts : List (String × ℕ))
    → All HasNumber ranked
    → Perm (map uncounted (apply_stability_ranking ranked counts true).0) (map uncounted ranked)
      × InOrder IsStablyBefore (apply_stability_ranking ranked counts true).0
      × IsNumbered (apply_stability_ranking ranked counts true).0
      × (map uncounted (apply_stability_ranking ranked counts false).0 ≡ map uncounted ranked)
unfolding apply_stability_ranking
apply_stability_ranking_order ranked counts h =
    let counted = (count_items ranked (known_counts ranked counts)).0 in
    let sorted = sort_by compare_stability_ranked counted in
    let same = uncounted-count_items ranked (known_counts ranked counts) in
    let numbers = HasNumber-count_items ranked (known_counts ranked counts) h in
    (
      subst (λ l. Perm l (map uncounted ranked)) (sym (uncounted-number_from 0 sorted))
          (subst (λ l. Perm (map uncounted sorted) l) same
            (Perm.map uncounted (sort_by-perm compare_stability_ranked counted))),
      IsSorted-InStableOrder (number_from 0 sorted)
          (number_from-HasNumber 0 sorted
            (sort_by-All compare_stability_ranked HasNumber counted numbers))
          (number_from-IsSorted compare_stability_ranked (λ a b i j. blind a b i j) 0 sorted
            (sort_by-IsSorted compare_stability_ranked-IsOrd counted numbers)),
      number_from-IsNumbered sorted,
      same,
    )
  where
    blind :
        (a b : RankedConfig) (i j : ℕ)
        → compare_stability_ranked (record a { rank = i }) (record b { rank = j })
          ≡ compare_stability_ranked a b
    blind a b i j = unfold compare_stability_ranked in refl
