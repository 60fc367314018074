-- ===== src/Rank/Before.antt =====
-- What the comparators of results mean: which of two results is shown first, criterion by criterion.
use v2ray_subscription_manag.Prelude.{
  ℕ, ◌<◌, ◌≡◌, ◌≢◌, ◌⊎◌, inl, inr, refl, sym, Bool, true, false, String, List, [], ◌∷◌, Option,
  none, some, Ordering, compare, arith, unwrap_or, u128_max, All,
}
use v2ray_subscription_manag.Prelude.Order.{
  ◌then◌, compare_bool, compare_codes, compare_text, codes,
}
use v2ray_subscription_manag.Prelude.Sort.{IsSorted}
use v2ray_subscription_manag.Model.{F64, RankedConfig, order_key, partial_cmp}
use v2ray_subscription_manag.Rank.{
  partial_cmp_option, compare_download, compare_latency, compare_ranked, compare_stability_ranked,
}
use v2ray_subscription_manag.Rank.Order.{IsNumber, HasNumber}

-- One result is before another by the first criterion, or equal by it and before by the others.
abbrev pub First : Type 0 → Type 0 → Type 0 → Type 0
First before equal rest = before ⊎ (equal × rest)

-- A latency that is missing counts as the greatest one.
abbrev pub latency_of : RankedConfig → ℕ
latency_of r = unwrap_or r.latency_ms u128_max

-- A speed is before a lower one and before none.
abbrev pub IsFaster : Option F64 → Option F64 → Type 0
IsFaster none y = ⊥
IsFaster (some x) none = Unit
IsFaster (some x) (some y) = order_key y < order_key x

abbrev pub IsSameSpeed : Option F64 → Option F64 → Type 0
IsSameSpeed none none = Unit
IsSameSpeed none (some y) = ⊥
IsSameSpeed (some x) none = ⊥
IsSameSpeed (some x) (some y) = order_key x ≡ order_key y

-- Texts in the order of their code points, a prefix first.
abbrev pub IsLess : List ℕ → List ℕ → Type 0
IsLess [] [] = ⊥
IsLess [] (d ∷ t) = Unit
IsLess (c ∷ s) [] = ⊥
IsLess (c ∷ s) (d ∷ t) = First (c < d) (c ≡ d) (IsLess s t)

abbrev pub TextFirst : String → String → Type 0 → Type 0
TextFirst s t rest = First (IsLess (codes s) (codes t)) (codes s ≡ codes t) rest

-- Among results that are reachable alike: a lower latency, then a higher speed, then a lower priority
-- value, then the protocol, the name and the uri.
abbrev pub IsBetter : RankedConfig → RankedConfig → Type 0
IsBetter a b = First (latency_of a < latency_of b) (latency_of a ≡ latency_of b) (
    First (IsFaster a.download_mbps b.download_mbps) (IsSameSpeed a.download_mbps b.download_mbps) (
      First (a.priority < b.priority) (a.priority ≡ b.priority)
        (TextFirst a.protocol b.protocol (TextFirst a.name b.name (TextFirst a.uri b.uri Unit)))))

-- A reachable result is before one that is not.
abbrev pub IsBefore : RankedConfig → RankedConfig → Type 0
IsBefore a b =
    First ((a.reachable ≡ true) × (b.reachable ≡ false)) (a.reachable ≡ b.reachable) (IsBetter a b)

-- With stability, what was seen working more often comes first among them.
abbrev pub IsStablyBefore : RankedConfig → RankedConfig → Type 0
IsStablyBefore a b =
    First ((a.reachable ≡ true) × (b.reachable ≡ false)) (a.reachable ≡ b.reachable) (
      First (b.stability_count < a.stability_count) (a.stability_count ≡ b.stability_count)
        (IsBetter a b))

-- Each result is before all later ones.
abbrev pub InOrder : (RankedConfig → RankedConfig → Type 0) → List RankedConfig → Type 0
InOrder P [] = Unit
InOrder P (r ∷ rs) = All (P r) rs × InOrder P rs

then-First :
    (A B C : Type 0) (o rest : Ordering)
    → (o ≡ Ordering.lt → A)
    → (o ≡ Ordering.eq → B)
    → (rest ≢ Ordering.gt → C)
    → (o then rest) ≢ Ordering.gt
    → First A B C
then-First A B C Ordering.lt rest f g k h = inl (f refl)
then-First A B C Ordering.eq rest f g k h = inr (g refl, k h)
then-First A B C Ordering.gt rest f g k h = absurd (h refl)

compare-lt : (m n : ℕ) → compare m n ≡ Ordering.lt → m < n
compare-lt m n h = ground arith

compare-eq : (m n : ℕ) → compare m n ≡ Ordering.eq → m ≡ n
compare-eq m n h = ground arith

compare_bool-lt : (a b : Bool) → compare_bool b a ≡ Ordering.lt → (a ≡ true) × (b ≡ false)
compare_bool-lt a b h = ground arith

compare_bool-eq : (a b : Bool) → compare_bool b a ≡ Ordering.eq → a ≡ b
compare_bool-eq a b h = ground arith

codes-lt : (s t : List ℕ) → compare_codes s t ≡ Ordering.lt → IsLess s t
unfolding compare_codes
codes-lt [] [] h = absurd (cc h)
codes-lt [] (d ∷ t) h = tt
codes-lt (c ∷ s) [] h = absurd (cc h)
codes-lt (c ∷ s) (d ∷ t) h = ground (arith, codes-lt s t)

codes-eq : (s t : List ℕ) → compare_codes s t ≡ Ordering.eq → s ≡ t
unfolding compare_codes
codes-eq [] [] h = refl
codes-eq [] (d ∷ t) h = absurd (cc h)
codes-eq (c ∷ s) [] h = absurd (cc h)
codes-eq (c ∷ s) (d ∷ t) h = ground (arith, codes-eq s t)

text-First :
    (C : Type 0) (s t : String) (rest : Ordering)
    → (rest ≢ Ordering.gt → C)
    → (compare_text s t then rest) ≢ Ordering.gt
    → TextFirst s t C
unfolding compare_text
text-First C s t rest k h =
    then-First _ _ C (compare_codes (codes s) (codes t)) rest (codes-lt (codes s) (codes t))
      (codes-eq (codes s) (codes t)) k h

then-eq : (o : Ordering) → o ≢ Ordering.gt → (o then Ordering.eq) ≢ Ordering.gt
then-eq Ordering.lt h = h
then-eq Ordering.eq h = h
then-eq Ordering.gt h = h

speed-lt :
    (x y : Option F64) → unwrap_or (partial_cmp_option y x) Ordering.eq ≡ Ordering.lt → IsFaster x y
unfolding partial_cmp_option partial_cmp
speed-lt none none h = absurd (cc h)
speed-lt none (some y) h = absurd (cc h)
speed-lt (some x) none h = tt
speed-lt (some x) (some y) h = ground arith

speed-eq :
    (x y : Option F64)
    → IsNumber x
    → IsNumber y
    → unwrap_or (partial_cmp_option y x) Ordering.eq ≡ Ordering.eq
    → IsSameSpeed x y
unfolding partial_cmp_option partial_cmp
speed-eq none none p q h = tt
speed-eq none (some y) p q h = absurd (cc h)
speed-eq (some x) none p q h = absurd (cc h)
speed-eq (some x) (some y) p q h = ground arith

then-IsBetter :
    (a b : RankedConfig)
    → HasNumber a
    → HasNumber b
    → (compare_latency a b
        then compare_download a b
        then compare a.priority b.priority
        then compare_text a.protocol b.protocol
        then compare_text a.name b.name
        then compare_text a.uri b.uri)
      ≢ Ordering.gt
    → IsBetter a b
then-IsBetter a b p q = then-First _ _ _ (compare_latency a b) _ (compare-lt _ _) (compare-eq _ _) (
    then-First _ _ _ (compare_download a b) _ (speed-lt a.download_mbps b.download_mbps)
      (speed-eq a.download_mbps b.download_mbps p q)
      (then-First _ _ _ (compare a.priority b.priority) _ (compare-lt _ _) (compare-eq _ _) (
        text-First _ a.protocol b.protocol _ (
          text-First _ a.name b.name _ (λ h.
            text-First Unit a.uri b.uri Ordering.eq (λ k. tt)
              (then-eq (compare_text a.uri b.uri) h))))))

compare_ranked-IsBefore :
    (a b : RankedConfig)
    → HasNumber a
    → HasNumber b
    → compare_ranked a b ≢ Ordering.gt
    → IsBefore a b
unfolding compare_ranked
compare_ranked-IsBefore a b p q =
    then-First _ _ _ (compare_bool b.reachable a.reachable) _
      (compare_bool-lt a.reachable b.reachable) (compare_bool-eq a.reachable b.reachable)
      (then-IsBetter a b p q)

compare_stability_ranked-IsStablyBefore :
    (a b : RankedConfig)
    → HasNumber a
    → HasNumber b
    → compare_stability_ranked a b ≢ Ordering.gt
    → IsStablyBefore a b
unfolding compare_stability_ranked
compare_stability_ranked-IsStablyBefore a b p q =
    then-First _ _ _ (compare_bool b.reachable a.reachable) _
      (compare_bool-lt a.reachable b.reachable) (compare_bool-eq a.reachable b.reachable)
      (then-First _ _ _ (compare b.stability_count a.stability_count) _ (compare-lt _ _)
        (λ e. sym (compare-eq _ _ e)) (then-IsBetter a b p q))

module _ (cmp : RankedConfig → RankedConfig → Ordering) (P : RankedConfig → RankedConfig → Type 0)
    (means : (a b : RankedConfig) → HasNumber a → HasNumber b → cmp a b ≢ Ordering.gt → P a b) where
  All_of :
      (r : RankedConfig) (rs : List RankedConfig)
      → HasNumber r
      → All HasNumber rs
      → All (λ s. cmp r s ≢ Ordering.gt) rs
      → All (P r) rs
  All_of r [] p ps h = tt
  All_of r (s ∷ rs) p ps h = (means r s p ps.0 h.0, All_of r rs p ps.1 h.1)

  order_of : (rs : List RankedConfig) → All HasNumber rs → IsSorted cmp rs → InOrder P rs
  order_of [] ps s = tt
  order_of (r ∷ rs) ps s = (All_of r rs ps.0 ps.1 s.0, order_of rs ps.1 s.1)

pub IsSorted-InOrder :
    (rs : List RankedConfig) → All HasNumber rs → IsSorted compare_ranked rs → InOrder IsBefore rs
IsSorted-InOrder = order_of compare_ranked IsBefore compare_ranked-IsBefore

pub IsSorted-InStableOrder :
    (rs : List RankedConfig)
    → All HasNumber rs
    → IsSorted compare_stability_ranked rs
    → InOrder IsStablyBefore rs
IsSorted-InStableOrder =
    order_of compare_stability_ranked IsStablyBefore compare_stability_ranked-IsStablyBefore
