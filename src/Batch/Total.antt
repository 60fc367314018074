-- ===== src/Batch/Total.antt =====
-- The retries end: a split halves a batch, and a rejected entry leaves it.
use v2ray_subscription_manag.Prelude.{
  ℕ, zero, suc, ◌+◌, ◌*◌, ◌-◌, ◌/◌, ◌≤◌, ◌<◌, Bool, true, false, ◌||◌, String, List, [], ◌∷◌,
  Option, some, ◌≡◌, refl, ◌∙◌, ap, subst, Perm, length, length-perm, take, drop, length-take,
  length-drop, ltb, arith, List-cases, inl, inr, Bool-cases, if◌then◌else◌,
}
use v2ray_subscription_manag.Model.{RankedConfig, ProbeStopPolicy}
use v2ray_subscription_manag.Stop.{is_empty}
use v2ray_subscription_manag.Stop.Prepared.{PreparedActiveCandidate}
use v2ray_subscription_manag.Batch.{
  Attempt, Startup, failed, not_ready, ready, BatchResult, BatchState, ok, retryable, unrecoverable,
  invalid_entry, probe_active_batch,
}
use v2ray_subscription_manag.Batch.Outcomes.{IsOutcome, IsRun, probe_active_batch-IsOutcome}
use v2ray_subscription_manag.Batch.Fallback.{
  Fallback, start, handle, give_up, split, reject, check_stop, iterate, retry,
  probe_active_batch_with_fallback,
}

module _ {Outbound : Type 0} where
  -- How many attempts a batch may take, splits and rejections included.
  abbrev pub weight : List (PreparedActiveCandidate Outbound) → ℕ
  weight [] = 1
  weight (entry ∷ entries) = 2 * length entries + 1

  abbrev pub weights : List (List (PreparedActiveCandidate Outbound)) → ℕ
  weights [] = 0
  weights (batch ∷ rest) = weight batch + weights rest

  weight-bound :
      (batch : List (PreparedActiveCandidate Outbound))
      → 1 ≤ length batch
      → weight batch + 1 ≡ 2 * length batch
  weight-bound [] some_entry = omega arith
  weight-bound (entry ∷ entries) some_entry = omega arith

  weight-positive : (batch : List (PreparedActiveCandidate Outbound)) → 1 ≤ weight batch
  weight-positive [] = omega arith
  weight-positive (entry ∷ entries) = omega arith

  pub start-weights :
      (batch : List (PreparedActiveCandidate Outbound))
      → weights (batch ∷ []) < 2 * length batch + 2
  start-weights [] = omega arith
  start-weights (entry ∷ entries) = omega arith

  weight-split :
      (batch : List (PreparedActiveCandidate Outbound))
      → 2 ≤ length batch
      → weight (take (length batch / 2) batch) + weight (drop (length batch / 2) batch)
        < weight batch
  weight-split batch two =
      let half = length batch / 2 in
      let left : length (take half batch) ≡ half = length-take half batch (omega arith) in
      let right : length (drop half batch) ≡ length batch - half = length-drop half batch in
      omega (
        arith,
        left,
        right,
        weight-bound (take half batch) (omega (arith, left)),
        weight-bound (drop half batch) (omega (arith, right)),
        weight-bound batch (omega arith),
      )

  weight-reject :
      (entries : List (PreparedActiveCandidate Outbound))
      → (batch : List (PreparedActiveCandidate Outbound)) → (bad : PreparedActiveCandidate Outbound)
      → (rest : List (List (PreparedActiveCandidate Outbound))) → Perm (bad ∷ entries) batch
      → weights (if is_empty entries then rest else entries ∷ rest) < weight batch + weights rest
  weight-reject [] [] bad rest same = omega (arith, length-perm same)
  weight-reject [] (e ∷ batch) bad rest same = omega (arith, length-perm same)
  weight-reject (entry ∷ entries) [] bad rest same = omega (arith, length-perm same)
  weight-reject (entry ∷ entries) (e ∷ batch) bad rest same = omega (arith, length-perm same)

module _ {Outbound : Type 0} (country : String → Option String) (concurrency : ℕ)
    (policy : ProbeStopPolicy) (listening : Bool) (batch_index : ℕ) where
  handle-weights :
      (batch : List (PreparedActiveCandidate Outbound))
      → (result : BatchResult Outbound) → (s : Fallback Outbound)
      → IsOutcome (λ ranked. Unit) batch result
      → weights (handle country concurrency policy listening batch_index result s).pending
        < weight batch + weights s.pending
  unfolding handle give_up split reject IsOutcome
  handle-weights [] (ok ranked) s outcome = omega arith
  handle-weights (entry ∷ entries) (ok ranked) s outcome = omega arith
  handle-weights batch (retryable entries error) s outcome = rw (outcome) go
    where
      go :
          weights
            (if ltb 1 (length batch)
              then split country concurrency policy listening batch_index batch s
              else give_up country concurrency policy listening batch_index batch error s).pending
          < weight batch + weights s.pending
      go = elim (Bool-cases (ltb 1 (length batch))) [
        | inl two ↦ rw (two) (omega (arith, weight-split batch (ground (arith, two))))
        | inr one ↦ rw (one) (omega (arith, weight-positive batch))
      ]
  handle-weights batch (unrecoverable entries error) s outcome =
      omega (arith, weight-positive batch)
  handle-weights batch (invalid_entry entries bad error) s outcome =
      weight-reject entries batch bad s.pending outcome

  module _ (previous_ranked : List RankedConfig)
      (attempts : ℕ → List (PreparedActiveCandidate Outbound) → Attempt Outbound) where
    abbrev pub run :
        ℕ → List (PreparedActiveCandidate Outbound) → Fallback Outbound → Bool × Fallback Outbound
    run k batch s =
        iterate country concurrency policy listening batch_index previous_ranked (attempts k batch)
          batch s

    abbrev pub is_cancelled : ℕ → List (PreparedActiveCandidate Outbound) → Fallback Outbound → Bool
    is_cancelled k batch s = (attempts k batch).cancelled_before || s.shared.cancel

    attempt-IsOutcome :
        (k : ℕ)
        → (batch : List (PreparedActiveCandidate Outbound)) → (s : Fallback Outbound)
        → IsOutcome
            (λ ranked. Unit)
            batch
            (probe_active_batch country concurrency policy listening batch_index batch
              previous_ranked s.ranked
              (attempts k batch)
              s.shared).0
    attempt-IsOutcome k batch s =
        probe_active_batch-IsOutcome country concurrency policy listening batch_index
          previous_ranked s.ranked (λ ranked. Unit) batch (attempts k batch) s.shared (λ e. tt)
          (λ e. tt) (any_run (attempts k batch).startup _)
      where
        any_run :
            (startup : Startup Outbound)
            → (s' : BatchState)
            → IsRun country concurrency policy listening batch_index previous_ranked s.ranked
                (λ ranked. Unit)
                batch
                startup
                s'
        any_run (failed error) s' = tt
        any_run (not_ready error index) s' = tt
        any_run (ready c arrivals) s' = tt

    iterate-weights :
        (k : ℕ)
        → (batch : List (PreparedActiveCandidate Outbound)) → (s : Fallback Outbound)
        → weights (run k batch s).1.pending < weight batch + weights s.pending
    unfolding iterate check_stop
    iterate-weights k batch s = handle-weights batch _ _ (attempt-IsOutcome k batch s)

    -- What the loop keeps, it has at the end, and the loop ends.
    module _ (IsKept : Fallback Outbound → Type 0) (IsEnd : Fallback Outbound → Type 0)
        (finish : (s : Fallback Outbound) → IsKept s → s.pending ≡ [] → IsEnd s)
        (cancelled : (k : ℕ)
          → (s : Fallback Outbound) → (batch : List (PreparedActiveCandidate Outbound))
          → IsKept (record s { pending = batch ∷ s.pending })
          → is_cancelled k batch s ≡ true
          → IsEnd s)
        (next : (k : ℕ)
          → (s : Fallback Outbound) → (batch : List (PreparedActiveCandidate Outbound))
          → IsKept (record s { pending = batch ∷ s.pending })
          → is_cancelled k batch s ≡ false
          → ((run k batch s).0 ≡ true → IsEnd (run k batch s).1)
            × ((run k batch s).0 ≡ false → IsKept (run k batch s).1)) where
      pub retry-ends :
          (fuel k : ℕ)
          → (s : Fallback Outbound) → weights s.pending < fuel
          → IsKept s
          → (final : Fallback Outbound) × (retry country concurrency policy listening batch_index
                previous_ranked attempts fuel k s
              ≡ some final)
            × IsEnd final
      unfolding retry
      retry-ends zero k s enough kept = ground arith
      retry-ends (suc fuel) k s enough kept = elim (List-cases s.pending) [
        | inl none_left ↦ (s, rw (none_left) refl, finish s kept none_left)
        | inr (batch, pending, top) ↦
            let s' : Fallback Outbound = record s { pending = pending } in
            let kept' = subst (λ p. IsKept (record s { pending = p })) top kept in
            elim (Bool-cases (is_cancelled k batch s')) [
              | inl now ↦ (s', rw (top, retry, now) refl, cancelled k s' batch kept' now)
              | inr running ↦ elim (Bool-cases (run k batch s').0) [
                | inl stop ↦ (
                  (run k batch s').1,
                  simp (top, retry, running, stop),
                  (next k s' batch kept' running).0 stop,
                )
                | inr more ↦
                    let (final, result, end) =
                      retry-ends fuel (suc k) (run k batch s').1
                        (omega (arith, iterate-weights k batch s', ap weights top))
                        ((next k s' batch kept' running).1 more) in
                    let again : retry country concurrency policy listening batch_index
                          previous_ranked attempts (suc fuel) k s
                        ≡ retry country concurrency policy listening batch_index previous_ranked
                            attempts fuel (suc k) (run k batch s').1 =
                      simp (top, retry, running, more) in
                    (final, again ∙ result, end)
              ]
            ]
      ]

    -- Whatever the attempts do, the retries of a batch end within the fuel that the model gives.
    pub probe_active_batch_with_fallback-total :
        (batch : List (PreparedActiveCandidate Outbound))
        → (s : BatchState)
        → (final : Fallback Outbound) × (probe_active_batch_with_fallback country concurrency policy
              listening batch_index previous_ranked attempts batch s
            ≡ some final)
    unfolding probe_active_batch_with_fallback
    probe_active_batch_with_fallback-total batch s =
        let (final, result, end) =
          retry-ends (λ s. Unit) (λ s. Unit) (λ s kept e. tt) (λ k s b kept e. tt)
            (λ k s b kept e. ((λ stop. tt), λ more. tt)) (2 * length batch + 2) 0 (start batch s)
            (start-weights batch) tt in
        (final, result)
