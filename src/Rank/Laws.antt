-- ===== src/Rank/Laws.antt =====
-- What rank_configs and deduplicate_ranked_configs return.
use mathlib.Core.List.{Sublist}
use mathlib.Core.List.Sublist
use mathlib.Core.List.Perm
use v2ray_subscription_manag.Prelude.{
  ℕ, suc, ◌+◌, ◌≡◌, refl, ap, ◌∙◌, ◌≢◌, true, false, String, List, [], ◌∷◌, map, Perm, Option, none,
  some, Ordering, arith, str_eq, eq_iff, contains, Distinct, All, get_elem?, if◌then◌else◌, inl,
  inr, Bool-cases,
}
use v2ray_subscription_manag.Prelude.Sort.{
  sort_by, IsSorted, sort_by-perm, sort_by-IsSorted, sort_by-All,
}
use v2ray_subscription_manag.Model.{RankedConfig}
use v2ray_subscription_manag.Rank.{
  compare_ranked, number_from, rank_configs, retain_unseen, deduplicate_ranked_configs,
}
use v2ray_subscription_manag.Rank.Order.{HasNumber, compare_ranked-IsOrd}
use v2ray_subscription_manag.Rank.Before.{IsBefore, InOrder, IsSorted-InOrder}

-- A result without the rank that it is given.
abbrev pub unranked : RankedConfig → RankedConfig
unranked r = record r { rank = 0 }

abbrev pub key_of : RankedConfig → String
key_of r = r.dedup_key

-- Each item's rank is one more than its position.
abbrev pub IsNumbered : List RankedConfig → Type 0
IsNumbered rs = (i : ℕ) (r : RankedConfig) → get_elem? rs i ≡ some r → r.rank ≡ i + 1

pub unranked-number_from :
    (n : ℕ) (rs : List RankedConfig) → map unranked (number_from n rs) ≡ map unranked rs
unfolding number_from
unranked-number_from n [] = refl
unranked-number_from n (r ∷ rs) = ap (◌∷◌ (unranked r)) (unranked-number_from (n + 1) rs)

number_from_ranks :
    (n : ℕ) (rs : List RankedConfig) (i : ℕ) (r : RankedConfig)
    → get_elem? (number_from n rs) i ≡ some r
    → r.rank ≡ n + i + 1
unfolding number_from
number_from_ranks n [] i r h = cc
number_from_ranks n (x ∷ rs) ℕ.zero r h = ground arith
number_from_ranks n (x ∷ rs) (suc i) r h = omega (arith, number_from_ranks (n + 1) rs i r h)

pub number_from-IsNumbered : (rs : List RankedConfig) → IsNumbered (number_from 0 rs)
number_from-IsNumbered rs i r h = omega (arith, number_from_ranks 0 rs i r h)

module _ (cmp : RankedConfig → RankedConfig → Ordering)
    (blind : (a b : RankedConfig) (i j : ℕ)
      → cmp (record a { rank = i }) (record b { rank = j }) ≡ cmp a b) where
  number_from-All :
      (x : RankedConfig) (i n : ℕ) (rs : List RankedConfig)
      → All (λ y. cmp x y ≢ Ordering.gt) rs
      → All (λ y. cmp (record x { rank = i }) y ≢ Ordering.gt) (number_from n rs)
  unfolding number_from
  number_from-All x i n [] h = tt
  number_from-All x i n (r ∷ rs) h =
      (rw (blind x r i (n + 1)) h.0, number_from-All x i (n + 1) rs h.1)

  pub number_from-IsSorted :
      (n : ℕ) (rs : List RankedConfig) → IsSorted cmp rs → IsSorted cmp (number_from n rs)
  unfolding number_from
  number_from-IsSorted n [] s = tt
  number_from-IsSorted n (r ∷ rs) s =
      (number_from-All r (n + 1) (n + 1) rs s.0, number_from-IsSorted (n + 1) rs s.1)

perm_of_eq {ℓ} : {A : Type ℓ} {xs ys : List A} → xs ≡ ys → Perm xs ys
perm_of_eq {xs = xs} e = rw (← e) (Perm.refl xs)

pub number_from-HasNumber :
    (n : ℕ) (rs : List RankedConfig) → All HasNumber rs → All HasNumber (number_from n rs)
unfolding number_from
number_from-HasNumber n [] h = tt
number_from-HasNumber n (r ∷ rs) h = (h.0, number_from-HasNumber (n + 1) rs h.1)

-- rank_configs returns the results that it was given, with their ranks replaced and numbered from 1.
-- If every download speed is a number, each is before all later ones: the reachable results are
-- before the others, and among those that are reachable alike the order is by a lower latency (one
-- that is missing counts as the greatest), then a higher speed, then a lower priority value, then
-- protocol, name and uri.
pub rank_configs_lem :
    (ranked : List RankedConfig)
    → All HasNumber ranked
    → Perm (map unranked (rank_configs ranked)) (map unranked ranked)
      × InOrder IsBefore (rank_configs ranked)
      × IsNumbered (rank_configs ranked)
unfolding rank_configs
rank_configs_lem ranked h = (
  Perm.trans (perm_of_eq (unranked-number_from 0 (sort_by compare_ranked ranked)))
      (Perm.map unranked (sort_by-perm compare_ranked ranked)),
  IsSorted-InOrder (number_from 0 (sort_by compare_ranked ranked))
      (number_from-HasNumber 0 _ (sort_by-All compare_ranked HasNumber ranked h))
      (number_from-IsSorted compare_ranked compare_ranked_blind 0 (sort_by compare_ranked ranked)
        (sort_by-IsSorted compare_ranked-IsOrd ranked h)),
  number_from-IsNumbered (sort_by compare_ranked ranked),
)
  where
    compare_ranked_blind :
        (a b : RankedConfig) (i j : ℕ)
        → compare_ranked (record a { rank = i }) (record b { rank = j }) ≡ compare_ranked a b
    compare_ranked_blind a b i j = refl

-- The first item with a key.
abbrev pub first_with : String → List RankedConfig → Option RankedConfig
first_with k [] = none
first_with k (r ∷ rs) = if str_eq r.dedup_key k then some (unranked r) else first_with k rs

-- Keys that were seen are gone, and no key stands twice.
pub retain_unseen_fresh :
    (seen : List String) (rs : List RankedConfig) (k : String)
    → contains seen k ≡ true
    → contains (map key_of (retain_unseen seen rs)) k ≡ false
unfolding retain_unseen contains
retain_unseen_fresh seen [] k h = refl
retain_unseen_fresh seen (r ∷ rs) k h = ground (
  arith,
  eq_iff r.dedup_key k,
  retain_unseen_fresh seen rs k,
  retain_unseen_fresh (r.dedup_key ∷ seen) rs k,
)

pub retain_unseen-Distinct :
    (seen : List String) (rs : List RankedConfig) → Distinct (map key_of (retain_unseen seen rs))
unfolding retain_unseen contains
retain_unseen-Distinct seen [] = tt
retain_unseen-Distinct seen (r ∷ rs) = ground (
  arith,
  eq_iff r.dedup_key r.dedup_key,
  retain_unseen-Distinct seen rs,
  retain_unseen-Distinct (r.dedup_key ∷ seen) rs,
  retain_unseen_fresh (r.dedup_key ∷ seen) rs r.dedup_key,
)

first_with-retain_unseen :
    (seen : List String) (rs : List RankedConfig) (k : String)
    → contains seen k ≡ false
    → first_with k (retain_unseen seen rs) ≡ first_with k rs
unfolding retain_unseen contains
first_with-retain_unseen seen [] k h = refl
first_with-retain_unseen seen (r ∷ rs) k h = ground (
  arith,
  eq_iff r.dedup_key k,
  first_with-retain_unseen seen rs k,
  first_with-retain_unseen (r.dedup_key ∷ seen) rs k,
)

retain_unseen-sublist :
    (seen : List String) (rs : List RankedConfig)
    → Sublist (map unranked (retain_unseen seen rs)) (map unranked rs)
unfolding retain_unseen
retain_unseen-sublist seen [] = Sublist.refl []
retain_unseen-sublist seen (r ∷ rs) = elim (Bool-cases (contains seen r.dedup_key)) [
  | inl e ↦ rw e (Sublist.cons (unranked r) (retain_unseen-sublist seen rs))
  | inr e ↦ rw e (Sublist.cons-cons (unranked r) (retain_unseen-sublist (r.dedup_key ∷ seen) rs))
]

first_with-number_from :
    (k : String) (n : ℕ) (rs : List RankedConfig)
    → first_with k (number_from n rs) ≡ first_with k rs
unfolding number_from
first_with-number_from k n [] = refl
first_with-number_from k n (r ∷ rs) = ground (arith, first_with-number_from k (n + 1) rs)

pub keys-number_from :
    (n : ℕ) (rs : List RankedConfig) → map key_of (number_from n rs) ≡ map key_of rs
unfolding number_from
keys-number_from n [] = refl
keys-number_from n (r ∷ rs) = ap (◌∷◌ r.dedup_key) (keys-number_from (n + 1) rs)

-- deduplicate_ranked_configs keeps the first item of each key and no other, in the order of the
-- input, numbered from 1.
pub deduplicate_ranked_configs_lem :
    (ranked : List RankedConfig)
    → Distinct (map key_of (deduplicate_ranked_configs ranked))
      × ((k : String) → first_with k (deduplicate_ranked_configs ranked) ≡ first_with k ranked)
      × Sublist (map unranked (deduplicate_ranked_configs ranked)) (map unranked ranked)
      × IsNumbered (deduplicate_ranked_configs ranked)
unfolding deduplicate_ranked_configs contains
deduplicate_ranked_configs_lem ranked = (
  rw (keys-number_from 0 (retain_unseen [] ranked)) (retain_unseen-Distinct [] ranked),
  λ k.
      first_with-number_from k 0 (retain_unseen [] ranked)
      ∙ first_with-retain_unseen [] ranked k refl,
  rw (unranked-number_from 0 (retain_unseen [] ranked)) (retain_unseen-sublist [] ranked),
  number_from-IsNumbered (retain_unseen [] ranked),
)
