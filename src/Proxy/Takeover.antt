-- ===== src/Proxy/Takeover.antt =====
-- Which config failover changes to, and when.
use mathlib.Core.List.{Mem, mem-cons, mem-cons_of_mem, mem-cons_self, not-mem-nil, Mem-prop}
use mathlib.Core.Logic.Or
use mathlib.Core.Bool.{Bool-set}
use v2ray_subscription_manag.Prelude.{
  ℕ, ◌+◌, ◌≤◌, ◌≡◌, refl, ◌∙◌, Bool, true, false, ◌⊎◌, inl, inr, List, [], ◌∷◌, Option, none, some,
  arith, length, keep, Bool-cases, contains, List-cases, subst, sym, ap,
}
use v2ray_subscription_manag.Model.{RankedConfig}
use v2ray_subscription_manag.Stop.{is_empty}
use v2ray_subscription_manag.Proxy.{
  PersistentProxy, ProxyState, World, emit_log, failover_cooldown, max_recently_failed_keys,
}
use v2ray_subscription_manag.Proxy.Failover.{
  is_other, is_fresh, cool_down, cool_down_after, clear_failed, failover,
}
use native.Mathlib.Nat.{le_trans}
use v2ray_subscription_manag.Proxy.Outcome.{later-HasTaken, HasTaken, IsTried, try_configs-IsTried}

mem_of_mem-keep {ℓ} :
    {A : Type ℓ} (f : A → Bool) (a : A) (xs : List A) → Mem a (keep f xs) → Mem a xs
mem_of_mem-keep f a [] m = m
mem_of_mem-keep f a (x ∷ xs) m = elim (Bool-cases (f x)) [
  | inl e ↦
      let m' : Mem a (x ∷ keep f xs) = rw e at m in
      Or.elim Mem-prop (mem-cons.0 m')
        (λ (same : a ≡ x). subst (λ y. Mem y (x ∷ xs)) (sym same) mem-cons_self)
        (λ more. mem-cons_of_mem x (mem_of_mem-keep f a xs more))
  | inr e ↦ let m' : Mem a (keep f xs) = rw e at m in mem-cons_of_mem x (mem_of_mem-keep f a xs m')
]

true_of_mem-keep {ℓ} :
    {A : Type ℓ} (f : A → Bool) (a : A) (xs : List A) → Mem a (keep f xs) → f a ≡ true
true_of_mem-keep f a [] m = absurd (not-mem-nil m)
true_of_mem-keep f a (x ∷ xs) m = elim (Bool-cases (f x)) [
  | inl e ↦
      let m' : Mem a (x ∷ keep f xs) = rw e at m in
      Or.elim (Bool-set _ _) (mem-cons.0 m') (λ same. ap f same ∙ e)
        (λ more. true_of_mem-keep f a xs more)
  | inr e ↦ let m' : Mem a (keep f xs) = rw e at m in true_of_mem-keep f a xs m'
]

-- The earliest time at which failover may change.
abbrev pub earliest : Option ℕ → ℕ → ℕ
earliest none now = now
earliest (some last) now = last + failover_cooldown

-- The last failover is not in the future.
abbrev pub IsPast : Option ℕ → ℕ → Type 0
IsPast none now = Unit
IsPast (some last) now = last ≤ now

cool_down-now :
    (last : Option ℕ) (p : PersistentProxy)
    → IsPast last p.now
    → earliest last p.now ≤ (cool_down_after last p).now
cool_down-now none p past = omega arith
cool_down-now (some last) p past = ground arith

cool_down-later : (last : Option ℕ) (p : PersistentProxy) → p.now ≤ (cool_down_after last p).now
cool_down-later none p = omega arith
cool_down-later (some last) p = ground arith

pub cool_down-state :
    (last : Option ℕ) (p : PersistentProxy) → (cool_down_after last p).state ≡ p.state
cool_down-state none p = refl
cool_down-state (some last) p = ground arith

-- How failover ends.
abbrev pub Ends : List RankedConfig → PersistentProxy → Bool → PersistentProxy → Type 0
Ends ranked p done q =
    ((done ≡ true)
      × (c : RankedConfig) × Mem c ranked
      × (is_other p.state c ≡ true)
      × ((contains p.state.failed_config_keys c.dedup_key ≡ false)
          ⊎ (keep (is_fresh p.state) ranked ≡ []))
      × HasTaken c p q
      × (earliest p.state.last_failover p.now ≤ q.now))
    ⊎ ((done ≡ false) × (q.state.running ≡ false))

fresh-other :
    (s : ProxyState) (c : RankedConfig)
    → is_fresh s c ≡ true
    → (is_other s c ≡ true) × (contains s.failed_config_keys c.dedup_key ≡ false)
fresh-other s c h = ground arith

-- The configs that are tried are some of the ranked ones.
tried-Ends :
    (ranked : List RankedConfig) (chosen : RankedConfig → Bool) (p r : PersistentProxy)
    (done : Bool) (q : PersistentProxy)
    → IsTried (keep chosen ranked) r done q
    → ((c : RankedConfig)
        → chosen c ≡ true
        → (is_other p.state c ≡ true)
          × ((contains p.state.failed_config_keys c.dedup_key ≡ false)
              ⊎ (keep (is_fresh p.state) ranked ≡ [])))
    → r.state.proxy_config ≡ p.state.proxy_config
    → p.now ≤ r.now
    → earliest p.state.last_failover p.now ≤ r.now
    → Ends ranked p done q
tried-Ends ranked chosen p r done q t why config later cooled = elim (Bool-cases done) [
  | inl e ↦
      let (c, found, taken) = t.took_over e in
      let (other, fresh) = why c (true_of_mem-keep chosen c ranked found) in
      inl (
        e,
        c,
        mem_of_mem-keep chosen c ranked found,
        other,
        fresh,
        later-HasTaken c p r q config later taken,
        le_trans cooled taken.later,
      )
  | inr e ↦ inr (e, t.gave_up e)
]

module _ (w : World) (listening : Bool) where
  -- Failover ends in one of two ways. Either it reports success: a config that works, is not the one
  -- shown before and, unless all such configs had failed recently, has not failed recently, now runs
  -- and is shown, with no failures counted; and ten seconds have passed since the last failover. Or
  -- it reports an error, and the proxy is marked as not running, which says nothing of its process.
  pub failover_lem :
      (ranked : List RankedConfig) (p : PersistentProxy)
      → length p.state.failed_config_keys ≤ max_recently_failed_keys
      → IsPast p.state.last_failover p.now
      → let (done, q) = failover w listening ranked p in Ends ranked p done q
  unfolding failover
  failover_lem ranked p h past =
      let last = p.state.last_failover in
      let same = cool_down-state last p in
      let config = ap (λ (s : ProxyState). s.proxy_config) same in
      let cooled = cool_down-now last p past in
      let later : p.now ≤ (cool_down p).now = cool_down-later last p in
      elim (List-cases (keep (is_fresh p.state) ranked)) [
        | inl e ↦
            let cleared =
              clear_failed (emit_log listening "proxy: blacklist cleared" (cool_down p)) in
            rw (failover, ap is_empty e)
              (tried-Ends ranked (is_other p.state) p cleared _ _
                (try_configs-IsTried w listening (keep (is_other p.state) ranked) cleared
                  (omega arith))
                (λ c other. (other, inr e)) config later cooled)
        | inr (c, cs, e) ↦
            rw (failover, ap is_empty e)
              (tried-Ends ranked (is_fresh p.state) p (cool_down p) _ _
                (try_configs-IsTried w listening (keep (is_fresh p.state) ranked) (cool_down p)
                  (rw same h))
                (λ c fresh. let (other, new) = fresh-other p.state c fresh in (other, inl new))
                config later cooled)
      ]
