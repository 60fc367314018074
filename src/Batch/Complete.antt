-- ===== src/Batch/Complete.antt =====
-- A batch that nothing stops: every entry gets a result.
use v2ray_subscription_manag.Prelude.{
  length-map, unwrap_or, length-append, length-perm, length-take, length-drop, ℕ, ◌+◌, ◌*◌, ◌/◌,
  Bool, true, false, String, List, [], ◌∷◌, ◌++◌, map, Option, some, ◌≡◌, refl, ◌∙◌, ap, sym, subst,
  Perm, length, take, drop, ltb, arith, inl, inr, Bool-cases, if◌then◌else◌,
}
use v2ray_subscription_manag.Model.{RankedConfig, ProbeStopPolicy}
use v2ray_subscription_manag.Stop.{is_empty, probe_stop_reason}
use v2ray_subscription_manag.Stop.Prepared.{PreparedActiveCandidate}
use v2ray_subscription_manag.Prepare.{candidate_of, failed_configs}
use v2ray_subscription_manag.Batch.{
  Attempt, BatchResult, BatchState, ok, retryable, unrecoverable, invalid_entry, probe_active_batch,
}
use v2ray_subscription_manag.Batch.Within.{Within, Within-full}
use v2ray_subscription_manag.Batch.Outcomes.{IsOutcome}
use v2ray_subscription_manag.Batch.Fallback.{
  Fallback, start, all_failed, handle, give_up, split, reject, check_stop, iterate,
  probe_active_batch_with_fallback,
}
use v2ray_subscription_manag.Batch.Total.{run, is_cancelled, retry-ends, start-weights}
use v2ray_subscription_manag.Batch.Candidates.{primary, primaries}
use v2ray_subscription_manag.Batch.Accounts.{probe_active_batch_with_fallback_accounts}
use v2ray_subscription_manag.Batch.Undisturbed.{
  IsUndisturbed, finished-IsPossible, length-all_failed, total, probe_active_batch-IsFull,
  probe_active_batch-cancel,
}

module _ {Outbound : Type 0} (country : String → Option String) (concurrency : ℕ)
    (policy : ProbeStopPolicy) (listening : Bool) (batch_index : ℕ)
    (scan : policy.scan_all_configs ≡ true) where
  length-waiting_reject :
      (entries : List (PreparedActiveCandidate Outbound))
      → (pending : List (List (PreparedActiveCandidate Outbound)))
      → total (if is_empty entries then pending else entries ∷ pending)
        ≡ length entries + total pending
  length-waiting_reject [] pending = omega arith
  length-waiting_reject (entry ∷ entries) pending = omega arith

  give_up-total :
      (batch : List (PreparedActiveCandidate Outbound))
      → (error : String) → (s : Fallback Outbound)
      → length (s.ranked ++ all_failed batch error) + total s.pending
        ≡ length s.ranked + (length batch + total s.pending)
  give_up-total batch error s =
      omega (arith, length-append s.ranked (all_failed batch error), length-all_failed batch error)

  handle-total :
      (batch : List (PreparedActiveCandidate Outbound))
      → (result : BatchResult Outbound) → (s : Fallback Outbound)
      → IsOutcome (λ ranked. length ranked ≡ length batch) batch result
      → (length (handle country concurrency policy listening batch_index result s).ranked
            + total (handle country concurrency policy listening batch_index result s).pending
          ≡ length s.ranked + (length batch + total s.pending))
        × ((handle country concurrency policy listening batch_index result s).shared.cancel
            ≡ s.shared.cancel)
  unfolding handle give_up split reject IsOutcome failed_configs
  handle-total batch (ok ranked) s outcome =
      (omega (arith, outcome, length-append s.ranked ranked), refl)
  handle-total batch (retryable entries error) s outcome =
      rw (outcome) (elim (Bool-cases (ltb 1 (length batch))) [
        | inl two ↦ simp (two) (split-total, refl)
        | inr one ↦ simp (one) (give_up-total batch error s, refl)
      ])
    where
      split-total :
          length s.ranked
            + (length (take (length batch / 2) batch)
                + (length (drop (length batch / 2) batch) + total s.pending))
          ≡ length s.ranked + (length batch + total s.pending)
      split-total = omega (
        arith,
        length-take (length batch / 2) batch (omega arith),
        length-drop (length batch / 2) batch,
      )
  handle-total batch (unrecoverable entries error) s outcome =
      rw (outcome) (give_up-total batch error s, refl)
  handle-total batch (invalid_entry entries bad error) s outcome = (
    omega (
      arith,
      length-perm outcome,
      length-append s.ranked (failed_configs bad "active_http" error),
      length-waiting_reject entries s.pending,
    ),
    refl,
  )

  module _ (previous_ranked : List RankedConfig)
      (attempts : ℕ → List (PreparedActiveCandidate Outbound) → Attempt Outbound)
      (undisturbed : (k : ℕ)
        → (batch : List (PreparedActiveCandidate Outbound))
        → IsUndisturbed batch (attempts k batch)) where
    abbrev IsKept : ℕ → Fallback Outbound → Type 0
    IsKept n s = (length s.ranked + total s.pending ≡ n) × (s.shared.cancel ≡ false)

    check_stop-scan :
        (s : Fallback Outbound)
        → (check_stop country concurrency policy listening batch_index previous_ranked s).0 ≡ false
    unfolding check_stop probe_stop_reason
    check_stop-scan s = simp (scan)

    check_stop-cancel :
        (s : Fallback Outbound)
        → (check_stop country concurrency policy listening batch_index previous_ranked
            s).1.shared.cancel
          ≡ s.shared.cancel
    unfolding check_stop probe_stop_reason
    check_stop-cancel s = simp (scan)

    run-IsKept :
        (n k : ℕ)
        → (batch : List (PreparedActiveCandidate Outbound)) → (s : Fallback Outbound)
        → IsKept n (record s { pending = batch ∷ s.pending })
        → ((run country concurrency policy listening batch_index previous_ranked attempts k batch
              s).0
            ≡ false)
          × IsKept n
              (run country concurrency policy listening batch_index previous_ranked attempts k batch
                s).1
    unfolding iterate
    run-IsKept n k batch s (counted, running) =
        let attempt = attempts k batch in
        let (result, shared') =
          probe_active_batch country concurrency policy listening batch_index batch previous_ranked
            s.ranked attempt s.shared in
        let s' : Fallback Outbound =
          handle country concurrency policy listening batch_index result
            (record s { shared = shared' }) in
        let (handled, shared) =
          handle-total batch result (record s { shared = shared' })
            (probe_active_batch-IsFull country concurrency policy listening batch_index scan
              previous_ranked s.ranked batch attempt s.shared (undisturbed k batch) running) in
        let calm =
          probe_active_batch-cancel country concurrency policy listening batch_index scan
            previous_ranked s.ranked batch attempt s.shared (undisturbed k batch) running in
        (check_stop-scan s', (handled ∙ counted, check_stop-cancel s' ∙ (shared ∙ calm)))

    uncancelled :
        (k : ℕ)
        → (batch : List (PreparedActiveCandidate Outbound)) → (s : Fallback Outbound)
        → s.shared.cancel ≡ false
        → is_cancelled country concurrency policy listening batch_index previous_ranked attempts k
            batch s
          ≡ false
    uncancelled k batch s running = simp ((undisturbed k batch).0, running)

    retries_fill :
        (batch : List (PreparedActiveCandidate Outbound))
        → (s : BatchState) → s.cancel ≡ false
        → (final : Fallback Outbound) × (probe_active_batch_with_fallback country concurrency policy
              listening batch_index previous_ranked attempts batch s
            ≡ some final)
          × (length final.ranked ≡ length batch)
          × (final.shared.cancel ≡ false)
    unfolding probe_active_batch_with_fallback
    retries_fill batch s running =
        let (final, result, end) =
          retry-ends country concurrency policy listening batch_index previous_ranked attempts
            (IsKept (length batch))
            (λ s. (length s.ranked ≡ length batch) × (s.shared.cancel ≡ false))
            (λ s kept e. (omega (arith, kept.0, ap total e), kept.1))
            (λ k s b kept now. ground (arith, uncancelled k b s kept.1, now))
            (λ k s b kept now.
              let (still, kept') = run-IsKept (length batch) k b s kept in
              ((λ stop. ground (arith, still, stop)), λ more. kept'))
            (2 * length batch + 2) 0 (start batch s) (start-weights batch) (omega arith, running) in
        (final, result, end.0, end.1)

    -- With `scan_all_configs`, and when nobody cancels and each probe of a batch that was started
    -- finishes: however the starts of sing-box fail, the retries end with exactly one result for
    -- each entry of the batch, and store no cancellation.
    pub probe_active_batch_with_fallback_complete :
        (batch : List (PreparedActiveCandidate Outbound))
        → (s : BatchState) → s.cancel ≡ false
        → (final : Fallback Outbound) × (probe_active_batch_with_fallback country concurrency policy
              listening batch_index previous_ranked attempts batch s
            ≡ some final)
          × Perm (map candidate_of final.ranked) (primaries batch)
          × (final.shared.cancel ≡ false)
    probe_active_batch_with_fallback_complete batch s running =
        let (final, result, full, calm) = retries_fill batch s running in
        let (final', result', within) =
          probe_active_batch_with_fallback_accounts country concurrency policy listening batch_index
            previous_ranked attempts
            (λ k b. finished-IsPossible b (attempts k b).startup (undisturbed k b).2) batch s in
        let same : final' ≡ final = ap (λ o. unwrap_or o final) (sym result' ∙ result) in
        (
          final,
          result,
          Within-full
              (subst (λ f. Within (map candidate_of f.ranked) (primaries batch)) same within)
              (omega (arith, full, length-map candidate_of final.ranked, length-map primary batch)),
          calm,
        )
