-- ===== src/Stop/Snapshot.antt =====
-- What stability_snapshot selects.
use v2ray_subscription_manag.Prelude.{
  ℕ, suc, ◌+◌, ◌-◌, ◌≤◌, ◌<◌, ◌≡◌, refl, ap, sym, ◌∙◌, true, false, not, ◌&&◌, String, List, [],
  ◌∷◌, ◌++◌, map, append-nil, append_assoc, arith, contains, eq_iff, eq_refl, Distinct, All, keep,
  take, length, length-append, take_all, take-nil, take-append, length-take, leb→le, le→leb, ◌||◌,
  leb, Bool-cases, inl, inr,
}
use v2ray_subscription_manag.Prelude.Sort.{sort_by}
use v2ray_subscription_manag.Model.{RankedConfig, ProbeStopPolicy}
use v2ray_subscription_manag.Rank.{compare_ranked}
use v2ray_subscription_manag.Rank.Laws.{key_of}
use v2ray_subscription_manag.Stop.{is_previous, select_previous, select_others, stability_snapshot}

-- The working results in the order of compare_ranked.
abbrev pub working_sorted : List RankedConfig → List RankedConfig
working_sorted ranked =
    sort_by compare_ranked (keep (λ (item : RankedConfig). item.reachable) ranked)

module _ (policy : ProbeStopPolicy) where
  abbrev pub previous_first : List RankedConfig → List RankedConfig
  previous_first items =
      keep (is_previous policy) items ++ keep (λ item. not (is_previous policy item)) items

  -- Room for `n` more behind `selected`, filled from `items`.
  abbrev filled : ℕ → List RankedConfig → List RankedConfig → List RankedConfig
  filled limit selected items = selected ++ take (limit - length selected) items

  filled-cons :
      (limit : ℕ) (selected : List RankedConfig) (x : RankedConfig) (items : List RankedConfig)
      → length selected < limit
      → filled limit (selected ++ x ∷ []) items ≡ filled limit selected (x ∷ items)
  filled-cons limit selected x items h =
      let e : limit - length selected ≡ suc (limit - length (selected ++ x ∷ [])) =
        omega (arith, length-append selected (x ∷ [])) in
      rw (e, append_assoc)

  filled_full :
      (limit : ℕ) (selected items : List RankedConfig)
      → limit ≤ length selected
      → filled limit selected items ≡ selected
  filled_full limit selected items h =
      let e : limit - length selected ≡ 0 = omega arith in rw (e, append-nil)

  select_previous-filled :
      (limit : ℕ) (items selected : List RankedConfig) (used : List String)
      → (select_previous policy limit items selected used).0
        ≡ filled limit selected (keep (is_previous policy) items)
  unfolding select_previous
  select_previous-filled limit [] selected used =
      rw (take-nil (limit - length selected)) (sym (append-nil selected))
  select_previous-filled limit (x ∷ items) selected used =
      elim (Bool-cases (is_previous policy x)) [
        | inr e ↦ rw e (select_previous-filled limit items selected used)
        | inl e ↦ elim (Bool-cases (leb limit (length selected))) [
          | inl full ↦ rw (e, full) (sym (filled_full limit selected _ (leb→le _ _ full)))
          | inr room ↦
              rw (e, room)
                (select_previous-filled limit items (selected ++ x ∷ []) (x.dedup_key ∷ used)
                  ∙ filled-cons limit selected x (keep (is_previous policy) items) (ground arith))
        ]
      ]

  select_previous-used :
      (limit : ℕ) (items selected : List RankedConfig) (used : List String) (k : String)
      → length selected + length (keep (is_previous policy) items) < limit
      → contains (select_previous policy limit items selected used).1 k
        ≡ contains used k || contains (map key_of (keep (is_previous policy) items)) k
  unfolding select_previous contains
  select_previous-used limit [] selected used k h = ground arith
  select_previous-used limit (x ∷ items) selected used k h = ground (
    arith,
    length-append selected (x ∷ []),
    select_previous-used limit items selected used k,
    select_previous-used limit items (selected ++ x ∷ []) (x.dedup_key ∷ used) k,
  )

  -- The keys of the previous results among `items`.
  contains-previous :
      (items : List RankedConfig) (k : String)
      → contains (map key_of (keep (is_previous policy) items)) k
        ≡ contains policy.previous_working_keys k && contains (map key_of items) k
  unfolding contains
  contains-previous [] k = ground arith
  contains-previous (x ∷ items) k = ground (arith, eq_iff x.dedup_key k, contains-previous items k)

  select_others_full :
      (limit : ℕ) (items selected : List RankedConfig) (used : List String)
      → limit ≤ length selected
      → select_others limit items selected used ≡ selected
  unfolding select_others
  select_others_full limit [] selected used h = refl
  select_others_full limit (x ∷ items) selected used h = rw (le→leb limit (length selected) h)

  -- The used keys are the previous ones, as far as `items` go.
  abbrev Marks : List String → List RankedConfig → Type 0
  Marks used items =
      All (λ (x : RankedConfig). contains used x.dedup_key ≡ is_previous policy x) items

  Marks-cons :
      (k : String) (used : List String) (items : List RankedConfig)
      → contains (map key_of items) k ≡ false
      → Marks used items
      → Marks (k ∷ used) items
  unfolding contains
  Marks-cons k used [] h m = tt
  Marks-cons k used (x ∷ items) h m =
      ground (arith, eq_iff k x.dedup_key, eq_iff x.dedup_key k, Marks-cons k used items)

  select_others-filled :
      (limit : ℕ) (items selected : List RankedConfig) (used : List String)
      → Distinct (map key_of items)
      → Marks used items
      → select_others limit items selected used
        ≡ filled limit selected (keep (λ item. not (is_previous policy item)) items)
  unfolding select_others
  select_others-filled limit [] selected used d m =
      rw (take-nil (limit - length selected)) (sym (append-nil selected))
  select_others-filled limit (x ∷ items) selected used d m =
      elim (Bool-cases (leb limit (length selected))) [
        | inl full ↦ rw full (sym (filled_full limit selected _ (leb→le _ _ full)))
        | inr room ↦ elim (Bool-cases (is_previous policy x)) [
          | inl e ↦ rw (room, m.0, e) (select_others-filled limit items selected used d.1 m.1)
          | inr e ↦
              rw (room, m.0, e)
                (select_others-filled limit items (selected ++ x ∷ []) (x.dedup_key ∷ used) d.1
                    (Marks-cons x.dedup_key used items d.0 m.1)
                  ∙ filled-cons limit selected x _ (ground arith))
        ]
      ]

  -- Every item's key is among the keys.
  Marks-All :
      (used : List String) (all items : List RankedConfig)
      → ((k : String)
          → contains used k
            ≡ contains policy.previous_working_keys k && contains (map key_of all) k)
      → All (λ (x : RankedConfig). contains (map key_of all) x.dedup_key ≡ true) items
      → Marks used items
  Marks-All used all [] h i = tt
  Marks-All used all (x ∷ items) h i =
      (ground (arith, h x.dedup_key, i.0), Marks-All used all items h i.1)

  later_keys :
      (y : RankedConfig) (all items : List RankedConfig)
      → All (λ (x : RankedConfig). contains (map key_of all) x.dedup_key ≡ true) items
      → All (λ (x : RankedConfig). contains (map key_of (y ∷ all)) x.dedup_key ≡ true) items
  unfolding contains
  later_keys y all [] h = tt
  later_keys y all (x ∷ items) h = (ground arith, later_keys y all items h.1)

  own_keys :
      (items : List RankedConfig)
      → All (λ (x : RankedConfig). contains (map key_of items) x.dedup_key ≡ true) items
  unfolding contains
  own_keys [] = tt
  own_keys (x ∷ items) =
      (ground (arith, eq_refl x.dedup_key), later_keys x items items (own_keys items))

  module _ (limit : ℕ) (items : List RankedConfig) where
    abbrev chosen : List RankedConfig
    chosen = (select_previous policy limit items [] []).0

    abbrev marked : List String
    marked = (select_previous policy limit items [] []).1

    abbrev others : List RankedConfig
    others = keep (λ item. not (is_previous policy item)) items

    chosen_lem : chosen ≡ take limit (keep (is_previous policy) items)
    chosen_lem =
        let z : limit - 0 ≡ limit = omega arith in
        rw z at (select_previous-filled limit items [] [])

    selects_full :
        limit ≤ length (keep (is_previous policy) items)
        → select_others limit items chosen marked ≡ take limit (previous_first items)
    selects_full h =
        let p = keep (is_previous policy) items in
        let z : limit - length p ≡ 0 = omega arith in
        let n : limit ≤ length chosen =
          omega (arith, ap length chosen_lem, length-take limit p h) in
        select_others_full limit items chosen marked n
        ∙ chosen_lem
        ∙ sym (append-nil (take limit p))
        ∙ sym (rw z at (take-append limit p others))

    selects_room :
        length (keep (is_previous policy) items) < limit
        → Distinct (map key_of items)
        → select_others limit items chosen marked ≡ take limit (previous_first items)
    unfolding contains
    selects_room h d =
        let p = keep (is_previous policy) items in
        let c : chosen ≡ p = chosen_lem ∙ take_all limit p (omega arith) in
        let m : Marks marked items =
          Marks-All marked items items
            (λ k.
              select_previous-used limit items [] [] k (omega arith) ∙ contains-previous items k)
            (own_keys items) in
        select_others-filled limit items chosen marked d m
        ∙ ap (λ l. filled limit l others) c
        ∙ ap (λ l. l ++ take (limit - length p) others) (sym (take_all limit p (omega arith)))
        ∙ sym (take-append limit p others)

    selects :
        Distinct (map key_of items)
        → select_others limit items chosen marked ≡ take limit (previous_first items)
    selects d = elim (Bool-cases (leb limit (length (keep (is_previous policy) items)))) [
      | inl full ↦ selects_full (leb→le _ _ full)
      | inr room ↦ selects_room (ground arith) d
    ]

-- With stability on, and if no key stands twice among the working results, stability_snapshot
-- returns the first `limit` of the working results of the previous run followed by the others,
-- both in the order of compare_ranked.
pub stability_snapshot_lem :
    (ranked : List RankedConfig) (policy : ProbeStopPolicy) (limit : ℕ)
    → policy.prioritize_stability ≡ true
    → Distinct (map key_of (working_sorted ranked))
    → stability_snapshot ranked policy limit
      ≡ take limit (previous_first policy (working_sorted ranked))
unfolding stability_snapshot
stability_snapshot_lem ranked policy limit p d =
    rw p (selects policy limit (working_sorted ranked) d)
