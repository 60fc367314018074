-- ===== src/Rank/Order.antt =====
-- The comparators of probe.rs and main.rs are total preorders where no download speed is a NaN.
use v2ray_subscription_manag.Prelude.{
  ◌≡◌, refl, false, Option, none, some, Ordering, compare, arith, unwrap_or, u128_max,
}
use v2ray_subscription_manag.Prelude.Order.{
  IsOrd, ◌then◌, reverse_ordering, compare_bool, compare_text, reverse-IsOrd, then-IsOrd, on-IsOrd,
  compare-IsOrd, compare_bool-IsOrd, compare_text-IsOrd,
}
use v2ray_subscription_manag.Model.{F64, RankedConfig, is_nan, partial_cmp}
use v2ray_subscription_manag.Rank.{
  partial_cmp_option, compare_download, compare_latency, compare_ranked, compare_stability_ranked,
  compare_ranked_snapshot,
}

abbrev pub IsNumber : Option F64 → Type 0
IsNumber none = Unit {0}
IsNumber (some x) = is_nan x ≡ false

-- The download speed is missing or a number.
abbrev pub HasNumber : RankedConfig → Type 0
HasNumber r = IsNumber r.download_mbps

abbrev compare_speed : Option F64 → Option F64 → Ordering
compare_speed x y = unwrap_or (partial_cmp_option x y) Ordering.eq

compare_speed_flip :
    (x y : Option F64)
    → IsNumber x
    → IsNumber y
    → compare_speed y x ≡ reverse_ordering (compare_speed x y)
unfolding partial_cmp_option partial_cmp
compare_speed_flip none none p q = refl
compare_speed_flip none (some y) p q = refl
compare_speed_flip (some x) none p q = refl
compare_speed_flip (some x) (some y) p q = ground arith

compare_speed_same :
    (x y z : Option F64)
    → IsNumber x
    → IsNumber y
    → IsNumber z
    → compare_speed x y ≡ Ordering.eq
    → compare_speed x z ≡ compare_speed y z
unfolding partial_cmp_option partial_cmp
compare_speed_same none none z p q r e = refl
compare_speed_same none (some y) z p q r e = ground arith
compare_speed_same (some x) none z p q r e = ground arith
compare_speed_same (some x) (some y) none p q r e = refl
compare_speed_same (some x) (some y) (some z) p q r e = ground arith

compare_speed_trans :
    (x y z : Option F64)
    → IsNumber x
    → IsNumber y
    → IsNumber z
    → compare_speed x y ≡ Ordering.lt
    → compare_speed y z ≡ Ordering.lt
    → compare_speed x z ≡ Ordering.lt
unfolding partial_cmp_option partial_cmp
compare_speed_trans none none z p q r h k = ground arith
compare_speed_trans none (some y) none p q r h k = ground arith
compare_speed_trans none (some y) (some z) p q r h k = refl
compare_speed_trans (some x) none z p q r h k = ground arith
compare_speed_trans (some x) (some y) none p q r h k = ground arith
compare_speed_trans (some x) (some y) (some z) p q r h k = ground arith

compare_speed-IsOrd : IsOrd IsNumber compare_speed
compare_speed-IsOrd = record {
  flip = compare_speed_flip;
  same = compare_speed_same;
  trans = compare_speed_trans;
}

compare_download-IsOrd : IsOrd HasNumber compare_download
compare_download-IsOrd = reverse-IsOrd (record {
  flip = λ a b. compare_speed_flip a.download_mbps b.download_mbps;
  same = λ a b c. compare_speed_same a.download_mbps b.download_mbps c.download_mbps;
  trans = λ a b c. compare_speed_trans a.download_mbps b.download_mbps c.download_mbps;
})

compare_latency-IsOrd : IsOrd HasNumber compare_latency
compare_latency-IsOrd = on-IsOrd HasNumber (λ r. unwrap_or r.latency_ms u128_max) compare-IsOrd

reachable-IsOrd : IsOrd HasNumber (λ (l r : RankedConfig). compare_bool r.reachable l.reachable)
reachable-IsOrd = reverse-IsOrd (on-IsOrd HasNumber (λ r. r.reachable) compare_bool-IsOrd)

abbrev compare_rest : RankedConfig → RankedConfig → Ordering
compare_rest left right =
    compare_latency left right
    then compare_download left right
    then compare left.priority right.priority
    then compare_text left.protocol right.protocol
    then compare_text left.name right.name
    then compare_text left.uri right.uri

compare_rest-IsOrd : IsOrd HasNumber compare_rest
compare_rest-IsOrd = then-IsOrd compare_latency-IsOrd (
    then-IsOrd compare_download-IsOrd (
      then-IsOrd (on-IsOrd HasNumber (λ r. r.priority) compare-IsOrd) (
        then-IsOrd (on-IsOrd HasNumber (λ r. r.protocol) compare_text-IsOrd) (
          then-IsOrd (on-IsOrd HasNumber (λ r. r.name) compare_text-IsOrd)
            (on-IsOrd HasNumber (λ r. r.uri) compare_text-IsOrd)))))

pub compare_ranked-IsOrd : IsOrd HasNumber compare_ranked
unfolding compare_ranked
compare_ranked-IsOrd = then-IsOrd reachable-IsOrd compare_rest-IsOrd

stability-IsOrd :
    IsOrd HasNumber (λ (l r : RankedConfig). compare r.stability_count l.stability_count)
stability-IsOrd = reverse-IsOrd (on-IsOrd HasNumber (λ r. r.stability_count) compare-IsOrd)

pub compare_stability_ranked-IsOrd : IsOrd HasNumber compare_stability_ranked
unfolding compare_stability_ranked
compare_stability_ranked-IsOrd =
    then-IsOrd reachable-IsOrd (then-IsOrd stability-IsOrd compare_rest-IsOrd)

pub compare_ranked_snapshot-IsOrd : IsOrd HasNumber compare_ranked_snapshot
unfolding compare_ranked_snapshot
compare_ranked_snapshot-IsOrd =
    then-IsOrd reachable-IsOrd (then-IsOrd stability-IsOrd compare_rest-IsOrd)
