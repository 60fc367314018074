-- ===== src/Waves/Order.antt =====
-- The outcomes of a wave in any order: their results, and how many of them stored a cancellation.
use mathlib.Core.List.{Permᴰ, perm_append_comm}
use mathlib.Core.List.Perm
use mathlib.Core.Logic.{∥∥₁_elim, ∥∥₁_prop}
use native.Mathlib.Nat.{ℕ_set}
use v2ray_subscription_manag.Prelude.{
  ℕ, suc, List, [], ◌∷◌, ◌++◌, map, ◌≡◌, refl, ◌∙◌, ap, ap₂, Perm, append_assoc, arith,
  if◌then◌else◌,
}
use v2ray_subscription_manag.Model.{Candidate}
use v2ray_subscription_manag.Prepare.{candidate_of}
use v2ray_subscription_manag.Prepare.Laws.{perm_of_eq}
use v2ray_subscription_manag.Batch.Fallback.{Fallback}

module _ {Outbound : Type 0} where
  abbrev results : ℕ × Fallback Outbound → List Candidate
  results outcome = map candidate_of outcome.1.ranked

  abbrev pub outcome_candidates : List (ℕ × Fallback Outbound) → List Candidate
  outcome_candidates [] = []
  outcome_candidates (outcome ∷ later) = results outcome ++ outcome_candidates later

  abbrev pub disturbed : List (ℕ × Fallback Outbound) → ℕ
  disturbed [] = 0
  disturbed (outcome ∷ later) =
      let rest = disturbed later in if outcome.1.shared.cancel then suc rest else rest

  candidates-Permᴰ :
      {xs ys : List (ℕ × Fallback Outbound)}
      → Permᴰ xs ys
      → Perm (outcome_candidates xs) (outcome_candidates ys)
  candidates-Permᴰ Permᴰ.nil = Perm.refl []
  candidates-Permᴰ (Permᴰ.cons e p) = Perm.append (perm_of_eq (ap results e)) (candidates-Permᴰ p)
  candidates-Permᴰ (Permᴰ.swap {a} {b} {a'} {b'} {l} e f) =
      let here : Perm (results a ++ results b) (results a' ++ results b') =
        Perm.trans (perm_append_comm (results a) (results b))
          (Perm.append (perm_of_eq (ap results f)) (perm_of_eq (ap results e))) in
      rw
        (
          ← append_assoc (results a) (results b) (outcome_candidates l),
          ← append_assoc (results a') (results b') (outcome_candidates l),
        )
        (Perm.append_right (outcome_candidates l) here)
  candidates-Permᴰ (Permᴰ.trans p q) = Perm.trans (candidates-Permᴰ p) (candidates-Permᴰ q)

  abbrev tally : ℕ × Fallback Outbound → ℕ → ℕ
  tally outcome n = if outcome.1.shared.cancel then suc n else n

  tally_swap : (a b : ℕ × Fallback Outbound) → (n : ℕ) → tally a (tally b n) ≡ tally b (tally a n)
  tally_swap a b n = ground arith

  disturbed-Permᴰ :
      {xs ys : List (ℕ × Fallback Outbound)} → Permᴰ xs ys → disturbed xs ≡ disturbed ys
  disturbed-Permᴰ Permᴰ.nil = refl
  disturbed-Permᴰ (Permᴰ.cons e p) = ap₂ tally e (disturbed-Permᴰ p)
  disturbed-Permᴰ (Permᴰ.swap {a} {b} {a'} {b'} {l} e f) =
      tally_swap a b (disturbed l) ∙ ap₂ (λ x y. tally x (tally y (disturbed l))) f e
  disturbed-Permᴰ (Permᴰ.trans p q) = disturbed-Permᴰ p ∙ disturbed-Permᴰ q

  pub outcome_candidates-perm :
      {xs ys : List (ℕ × Fallback Outbound)}
      → Perm xs ys
      → Perm (outcome_candidates xs) (outcome_candidates ys)
  outcome_candidates-perm p = ∥∥₁_elim p ∥∥₁_prop candidates-Permᴰ

  pub disturbed-perm :
      {xs ys : List (ℕ × Fallback Outbound)} → Perm xs ys → disturbed xs ≡ disturbed ys
  disturbed-perm p = ∥∥₁_elim p (ℕ_set _ _) disturbed-Permᴰ
