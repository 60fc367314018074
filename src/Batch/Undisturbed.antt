-- ===== src/Batch/Undisturbed.antt =====
-- An attempt that nothing disturbs: every entry of the batch that it starts gets a result.
use v2ray_subscription_manag.Prelude.{
  All, length-map, length-append, length-perm, ℕ, suc, ◌+◌, Bool, true, false, ◌||◌, String, List,
  [], ◌∷◌, map, Option, none, some, ◌≡◌, refl, ◌∙◌, ap, sym, Perm, length, arith, inl, inr,
  Option-cases,
}
use v2ray_subscription_manag.Model.{RankedConfig, ProbeStopPolicy}
use v2ray_subscription_manag.Stop.{probe_stop_reason_with_batch}
use v2ray_subscription_manag.Stop.Prepared.{PreparedActiveCandidate, candidate_count}
use v2ray_subscription_manag.Prepare.{failed_configs}
use v2ray_subscription_manag.Batch.{
  Attempt, Arrival, Startup, failed, not_ready, ready, BatchState, ProbeResult, ok, err,
  ranked_configs_for_active_result, remove_at, start_batch, take_results, collect,
  probe_active_batch,
}
use v2ray_subscription_manag.Batch.Within.{Within-perm}
use v2ray_subscription_manag.Batch.Outcomes.{
  IsOutcome, IsRun, started, probe_active_batch-IsOutcome,
}
use v2ray_subscription_manag.Batch.Fallback.{all_failed}
use v2ray_subscription_manag.Batch.Candidates.{entry_of, IsPossible}

module _ {Outbound : Type 0} where
  -- An attempt in which nobody else cancels and every probe of a batch that was started finishes.
  abbrev pub IsFinished : List (PreparedActiveCandidate Outbound) → Startup Outbound → Type 0
  IsFinished batch (failed error) = Unit
  IsFinished batch (not_ready error index) = Unit
  IsFinished batch (ready cancelled arrivals) =
      (cancelled ≡ false)
      × All (λ (a : Arrival Outbound). a.cancelled ≡ false) arrivals
      × Perm (map entry_of arrivals) batch

  abbrev pub IsUndisturbed : List (PreparedActiveCandidate Outbound) → Attempt Outbound → Type 0
  IsUndisturbed batch attempt =
      (attempt.cancelled_before ≡ false)
      × (attempt.cancelled_at_start ≡ false)
      × IsFinished batch attempt.startup

  pub finished-IsPossible :
      (batch : List (PreparedActiveCandidate Outbound))
      → (startup : Startup Outbound) → IsFinished batch startup
      → IsPossible batch startup
  finished-IsPossible batch (failed error) finished = tt
  finished-IsPossible batch (not_ready error index) finished = tt
  finished-IsPossible batch (ready cancelled arrivals) (_, _, all) = Within-perm all

  length-results :
      (country : String → Option String)
      → (entry : PreparedActiveCandidate Outbound) → (result : ProbeResult)
      → length (ranked_configs_for_active_result country entry result) ≡ 1
  unfolding ranked_configs_for_active_result failed_configs
  length-results country entry (ok active) = omega arith
  length-results country entry (err error) = omega arith

  pub length-all_failed :
      (entries : List (PreparedActiveCandidate Outbound))
      → (error : String) → length (all_failed entries error) ≡ length entries
  unfolding all_failed failed_configs
  length-all_failed [] error = omega arith
  length-all_failed (entry ∷ entries) error = omega (arith, length-all_failed entries error)

  abbrev pub total : List (List (PreparedActiveCandidate Outbound)) → ℕ
  total [] = 0
  total (batch ∷ rest) = length batch + total rest

module _ {Outbound : Type 0} (country : String → Option String) (concurrency : ℕ)
    (policy : ProbeStopPolicy) (listening : Bool) (batch_index : ℕ)
    (scan : policy.scan_all_configs ≡ true) where
  module _ (previous_ranked current : List RankedConfig) (total_entries total_candidates : ℕ) where
    take_results-scan :
        (a : Arrival Outbound)
        → (completed : ℕ) → (ranked : List RankedConfig) → (s : BatchState)
        → (take_results country concurrency policy listening batch_index previous_ranked current
            total_entries total_candidates a completed ranked s).0
          ≡ none
    unfolding take_results probe_stop_reason_with_batch
    take_results-scan a completed ranked s = simp (scan)

    length-take_results :
        (a : Arrival Outbound)
        → (completed : ℕ) → (ranked : List RankedConfig) → (s : BatchState)
        → length
            (take_results country concurrency policy listening batch_index previous_ranked current
              total_entries total_candidates a completed ranked s).1
          ≡ length ranked + 1
    unfolding take_results
    length-take_results a completed ranked s = omega (
      arith,
      length-append ranked (ranked_configs_for_active_result country a.entry a.result),
      length-results country a.entry a.result,
    )

    cancel-take_results :
        (a : Arrival Outbound)
        → (completed : ℕ) → (ranked : List RankedConfig) → (s : BatchState)
        → (take_results country concurrency policy listening batch_index previous_ranked current
            total_entries total_candidates a completed ranked s).2.cancel
          ≡ s.cancel
    unfolding take_results
    cancel-take_results a completed ranked s = refl

    collect-All :
        (arrivals : List (Arrival Outbound))
        → (completed : ℕ) → (ranked : List RankedConfig) → (s : BatchState)
        → All (λ (a : Arrival Outbound). a.cancelled ≡ false) arrivals
        → s.cancel ≡ false
        → (length
              (collect country concurrency policy listening batch_index previous_ranked current
                total_entries total_candidates arrivals completed ranked s).0
            ≡ length ranked + length arrivals)
          × ((collect country concurrency policy listening batch_index previous_ranked current
                total_entries total_candidates arrivals completed ranked s).1.cancel
              ≡ false)
    unfolding collect
    collect-All [] completed ranked s calm running = (omega arith, running)
    collect-All (a ∷ later) completed ranked s (now, calm) running =
        let (reason, ranked', s') =
          take_results country concurrency policy listening batch_index previous_ranked current
            total_entries total_candidates a (suc completed) ranked s in
        let (all, still) =
          collect-All later (suc completed) ranked' s' calm
            (cancel-take_results a (suc completed) ranked s ∙ running) in
        rw (now, running, take_results-scan a (suc completed) ranked s)
          (omega (arith, all, length-take_results a (suc completed) ranked s), still)

  module _ (previous_ranked : List RankedConfig) where
    finished-IsRun :
        (current : List RankedConfig)
        → (batch : List (PreparedActiveCandidate Outbound)) → (startup : Startup Outbound)
        → (s : BatchState) → IsFinished batch startup
        → s.cancel ≡ false
        → IsRun country concurrency policy listening batch_index previous_ranked current
            (λ ranked. length ranked ≡ length batch)
            batch
            startup
            s
    finished-IsRun current batch (failed error) s finished running = tt
    finished-IsRun current batch (not_ready error index) s finished running = tt
    finished-IsRun current batch (ready cancelled arrivals) s (now, calm, all) running =
        let (counted, still) =
          collect-All previous_ranked current (length batch) (candidate_count batch) arrivals 0 [] s
            calm running in
        let full : length
              (collect country concurrency policy listening batch_index previous_ranked current
                (length batch) (candidate_count batch) arrivals 0 [] s).0
            ≡ length batch =
          omega (arith, counted, length-perm all, length-map entry_of arrivals) in
        simp (now, running) full

    start_batch-cancel :
        (current : List RankedConfig)
        → (batch : List (PreparedActiveCandidate Outbound)) → (startup : Startup Outbound)
        → (s : BatchState) → IsFinished batch startup
        → s.cancel ≡ false
        → (start_batch country concurrency policy listening batch_index batch previous_ranked
            current startup s).1.cancel
          ≡ false
    unfolding start_batch
    start_batch-cancel current batch (failed error) s finished running = running
    start_batch-cancel current batch (not_ready error none) s finished running = running
    start_batch-cancel current batch (not_ready error (some i)) s finished running =
        elim (Option-cases (remove_at i batch)) [
          | inl missing ↦ rw (start_batch, missing) running
          | inr ((bad, rest), found) ↦ rw (start_batch, found) running
        ]
    start_batch-cancel current batch (ready cancelled arrivals) s (now, calm, all) running =
        simp (now, running)
          (collect-All previous_ranked current (length batch) (candidate_count batch) arrivals 0 []
            s calm running).1

    pub probe_active_batch-cancel :
        (current : List RankedConfig)
        → (batch : List (PreparedActiveCandidate Outbound)) → (attempt : Attempt Outbound)
        → (s : BatchState) → IsUndisturbed batch attempt
        → s.cancel ≡ false
        → (probe_active_batch country concurrency policy listening batch_index batch previous_ranked
            current attempt s).1.cancel
          ≡ false
    unfolding probe_active_batch
    probe_active_batch-cancel current [] attempt s undisturbed running = running
    probe_active_batch-cancel current (entry ∷ entries) attempt s (before, now, finished) running =
        let open_still : (attempt.cancelled_at_start || s.cancel) ≡ false = simp (now, running) in
        rw (open_still) (
          start_batch-cancel current (entry ∷ entries) attempt.startup
            (started country concurrency policy listening batch_index previous_ranked current
              (λ r. Unit) (entry ∷ entries) s)
            finished running)

    abbrev pub IsFull : List (PreparedActiveCandidate Outbound) → List RankedConfig → Type 0
    IsFull batch ranked = length ranked ≡ length batch

    pub probe_active_batch-IsFull :
        (current : List RankedConfig)
        → (batch : List (PreparedActiveCandidate Outbound)) → (attempt : Attempt Outbound)
        → (s : BatchState) → IsUndisturbed batch attempt
        → s.cancel ≡ false
        → IsOutcome
            (IsFull batch)
            batch
            (probe_active_batch country concurrency policy listening batch_index batch
              previous_ranked current attempt s).0
    probe_active_batch-IsFull current batch attempt s (before, now, finished) running =
        let open_still : (attempt.cancelled_at_start || s.cancel) ≡ false = simp (now, running) in
        probe_active_batch-IsOutcome country concurrency policy listening batch_index
          previous_ranked current (IsFull batch) batch attempt s (λ e. sym (ap length e))
          (λ e. ground (arith, open_still, e))
          (finished-IsRun current batch attempt.startup _ finished running)
