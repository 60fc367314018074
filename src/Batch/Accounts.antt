-- ===== src/Batch/Accounts.antt =====
-- The results of a batch and its retries are its entries', each entry's at most once.
use v2ray_subscription_manag.Prelude.{
  ℕ, suc, ◌+◌, ◌*◌, ◌/◌, Bool, ◌||◌, String, List, [], ◌∷◌, ◌++◌, map, Option, some, ◌≡◌, refl, ap,
  sym, length, take, drop, take-append-drop, map-append, append_assoc, append-nil, ltb, inl, inr,
  Bool-cases, Option-cases, if◌then◌else◌,
}
use mathlib.Core.List.Perm
use v2ray_subscription_manag.Model.{Candidate, RankedConfig, ProbeStopPolicy}
use v2ray_subscription_manag.Stop.{is_empty}
use v2ray_subscription_manag.Stop.Prepared.{PreparedActiveCandidate, candidate_count}
use v2ray_subscription_manag.Prepare.{candidate_of, failed_config, failed_configs}
use v2ray_subscription_manag.Batch.{
  Attempt, Arrival, Startup, failed, not_ready, ready, BatchResult, BatchState, ok, retryable,
  unrecoverable, invalid_entry, ranked_configs_for_active_result, take_results, collect,
}
use v2ray_subscription_manag.Batch.Within.{
  Within, Within-perm, Within-eq, Within-trans, Within-left, Within-right, Within-map, Within-drop,
}
use v2ray_subscription_manag.Batch.Outcomes.{IsOutcome, IsRun, probe_active_batch-IsOutcome}
use v2ray_subscription_manag.Batch.Fallback.{
  Fallback, start, all_failed, handle, give_up, split, reject, check_stop, iterate,
  probe_active_batch_with_fallback,
}
use v2ray_subscription_manag.Batch.Total.{run, retry-ends, start-weights}
use v2ray_subscription_manag.Batch.Candidates.{
  primary, primaries, waiting, arrived, IsPossible, all_failed-candidates, result-candidates,
  arrived-map,
}

waiting_reject :
    {Outbound : Type 0}
    → (entries : List (PreparedActiveCandidate Outbound))
    → (pending : List (List (PreparedActiveCandidate Outbound)))
    → waiting (if is_empty entries then pending else entries ∷ pending)
      ≡ primaries entries ++ waiting pending
waiting_reject [] pending = refl
waiting_reject (entry ∷ entries) pending = refl

waiting_split :
    {Outbound : Type 0}
    → (n : ℕ) → (entries : List (PreparedActiveCandidate Outbound))
    → (pending : List (List (PreparedActiveCandidate Outbound)))
    → waiting (take n entries ∷ drop n entries ∷ pending) ≡ primaries entries ++ waiting pending
waiting_split n entries pending =
    rw
      (
        ← append_assoc (primaries (take n entries)) (primaries (drop n entries)) (waiting pending),
        ← map-append primary (take n entries) (drop n entries),
        take-append-drop n entries,
      )
      refl

module _ {Outbound : Type 0} (country : String → Option String) (concurrency : ℕ)
    (policy : ProbeStopPolicy) (listening : Bool) (batch_index : ℕ) where
  abbrev IsResultOf : List (PreparedActiveCandidate Outbound) → List RankedConfig → Type 0
  IsResultOf batch ranked = Within (map candidate_of ranked) (primaries batch)

  module _ (previous_ranked current : List RankedConfig) (total_entries total_candidates : ℕ) where
    results_of :
        (a : Arrival Outbound)
        → (completed : ℕ) → (ranked : List RankedConfig) → (s : BatchState)
        → map candidate_of
            (take_results country concurrency policy listening batch_index previous_ranked current
              total_entries total_candidates a completed ranked s).1
          ≡ map candidate_of ranked ++ a.entry.candidate ∷ []
    unfolding take_results
    results_of a completed ranked s =
        rw
          (
            map-append candidate_of ranked
                (ranked_configs_for_active_result country a.entry a.result),
            result-candidates country a.entry a.result,
          )
          refl

    collect-Within :
        (arrivals : List (Arrival Outbound))
        → (completed : ℕ) → (ranked : List RankedConfig) → (s : BatchState)
        → Within
            (map candidate_of
              (collect country concurrency policy listening batch_index previous_ranked current
                total_entries total_candidates arrivals completed ranked s).0)
            (map candidate_of ranked ++ arrived arrivals)
    unfolding collect
    collect-Within [] completed ranked s = Within-eq (sym (append-nil _))
    collect-Within (a ∷ later) completed ranked s =
        let (reason, ranked', s') =
          take_results country concurrency policy listening batch_index previous_ranked current
            total_entries total_candidates a (suc completed) ranked s in
        let e : map candidate_of ranked' ++ arrived later
            ≡ map candidate_of ranked ++ arrived (a ∷ later) =
          rw
            (
              results_of a (suc completed) ranked s,
              append_assoc (map candidate_of ranked) (a.entry.candidate ∷ []) (arrived later),
            )
            refl in
        let more = Within-trans (collect-Within later (suc completed) ranked' s') (Within-eq e) in
        elim (Bool-cases (a.cancelled || s.cancel)) [
          | inl now ↦ rw (now) (record { missing = arrived (a ∷ later); complete = Perm.refl _ })
          | inr running ↦ elim (Option-cases reason) [
            | inl none_yet ↦ rw (running, none_yet) more
            | inr (text, stop) ↦
                rw (running, stop)
                  (record { missing = arrived later; complete = rw (e) (Perm.refl _) })
          ]
        ]

  -- What is left of a batch after an attempt is in what was there.
  abbrev left_over : Fallback Outbound → List Candidate
  left_over s = map candidate_of s.ranked ++ waiting s.pending

  give_up-candidates :
      (batch : List (PreparedActiveCandidate Outbound))
      → (error : String) → (s : Fallback Outbound)
      → left_over (give_up country concurrency policy listening batch_index batch error s)
        ≡ map candidate_of s.ranked ++ (primaries batch ++ waiting s.pending)
  unfolding give_up
  give_up-candidates batch error s =
      rw
        (
          map-append candidate_of s.ranked (all_failed batch error),
          all_failed-candidates batch error,
        )
        (append_assoc (map candidate_of s.ranked) (primaries batch) (waiting s.pending))

  split-candidates :
      (batch : List (PreparedActiveCandidate Outbound))
      → (s : Fallback Outbound)
      → left_over (split country concurrency policy listening batch_index batch s)
        ≡ map candidate_of s.ranked ++ (primaries batch ++ waiting s.pending)
  unfolding split
  split-candidates batch s =
      ap (λ rest. map candidate_of s.ranked ++ rest)
        (waiting_split (length batch / 2) batch s.pending)

  handle-Within :
      (batch : List (PreparedActiveCandidate Outbound))
      → (result : BatchResult Outbound) → (s : Fallback Outbound)
      → IsOutcome (IsResultOf batch) batch result
      → Within
          (left_over (handle country concurrency policy listening batch_index result s))
          (map candidate_of s.ranked ++ (primaries batch ++ waiting s.pending))
  unfolding handle reject IsOutcome failed_configs failed_config candidate_of
  handle-Within batch (ok ranked) s outcome =
      rw
        (
          map-append candidate_of s.ranked ranked,
          append_assoc (map candidate_of s.ranked) (map candidate_of ranked) (waiting s.pending),
        )
        (Within-left (map candidate_of s.ranked) (Within-right (waiting s.pending) outcome))
  handle-Within batch (retryable entries error) s outcome =
      rw (outcome) (elim (Bool-cases (ltb 1 (length batch))) [
        | inl two ↦ rw (two) (Within-eq (split-candidates batch s))
        | inr one ↦ rw (one) (Within-eq (give_up-candidates batch error s))
      ])
  handle-Within batch (unrecoverable entries error) s outcome =
      rw (outcome) (Within-eq (give_up-candidates batch error s))
  handle-Within batch (invalid_entry entries bad error) s outcome =
      rw
        (
          map-append candidate_of s.ranked (failed_configs bad "active_http" error),
          waiting_reject entries s.pending,
          append_assoc (map candidate_of s.ranked) (bad.candidate ∷ [])
              (primaries entries ++ waiting s.pending),
        )
        (Within-left (map candidate_of s.ranked)
          (Within-right (waiting s.pending) (Within-perm (Perm.map primary outcome))))

  possible-IsRun :
      (previous_ranked current : List RankedConfig)
      → (batch : List (PreparedActiveCandidate Outbound)) → (startup : Startup Outbound)
      → (s : BatchState) → IsPossible batch startup
      → IsRun country concurrency policy listening batch_index previous_ranked current
          (IsResultOf batch)
          batch
          startup
          s
  possible-IsRun previous_ranked current batch (failed error) s possible = tt
  possible-IsRun previous_ranked current batch (not_ready error index) s possible = tt
  possible-IsRun previous_ranked current batch (ready cancelled arrivals) s possible =
      let entries : Within (arrived arrivals) (primaries batch) =
        rw (arrived-map arrivals) (Within-map primary possible) in
      elim (Bool-cases (cancelled || s.cancel)) [
        | inl now ↦ rw (now) (record { missing = primaries batch; complete = Perm.refl _ })
        | inr running ↦ rw (running) (
            Within-trans
              (collect-Within previous_ranked current (length batch) (candidate_count batch)
                arrivals 0 [] s)
              entries)
      ]

  module _ (previous_ranked : List RankedConfig)
      (attempts : ℕ → List (PreparedActiveCandidate Outbound) → Attempt Outbound)
      (possible : (k : ℕ)
        → (batch : List (PreparedActiveCandidate Outbound))
        → IsPossible batch (attempts k batch).startup) where
    run-Within :
        (k : ℕ)
        → (batch : List (PreparedActiveCandidate Outbound)) → (s : Fallback Outbound)
        → Within
            (left_over
              (run country concurrency policy listening batch_index previous_ranked attempts k batch
                s).1)
            (map candidate_of s.ranked ++ (primaries batch ++ waiting s.pending))
    unfolding iterate check_stop
    run-Within k batch s = handle-Within batch _ _ (
        probe_active_batch-IsOutcome country concurrency policy listening batch_index
          previous_ranked s.ranked (IsResultOf batch) batch (attempts k batch) s.shared
          (λ e. record { missing = primaries batch; complete = Perm.refl _ })
          (λ e. record { missing = primaries batch; complete = Perm.refl _ })
          (possible-IsRun previous_ranked s.ranked batch (attempts k batch).startup _
            (possible k batch)))

    -- Retries, splits, rejected entries and early stops included: a batch ends, and its results are
    -- those of its entries, each entry's at most once, if only entries of a batch that was started
    -- get a result from it, each at most one.
    pub probe_active_batch_with_fallback_accounts :
        (batch : List (PreparedActiveCandidate Outbound))
        → (s : BatchState)
        → (final : Fallback Outbound) × (probe_active_batch_with_fallback country concurrency policy
              listening batch_index previous_ranked attempts batch s
            ≡ some final)
          × Within (map candidate_of final.ranked) (primaries batch)
    unfolding probe_active_batch_with_fallback
    probe_active_batch_with_fallback_accounts batch s =
        retry-ends country concurrency policy listening batch_index previous_ranked attempts
          (λ s. Within (left_over s) (primaries batch))
          (λ s. Within (map candidate_of s.ranked) (primaries batch))
          (λ s kept e. Within-drop (map candidate_of s.ranked) (waiting s.pending) kept)
          (λ k s b kept e.
            Within-drop (map candidate_of s.ranked) (primaries b ++ waiting s.pending) kept)
          (λ k s b kept e.
            let later = Within-trans (run-Within k b s) kept in
            ((λ stop. Within-drop _ _ later), λ more. later))
          (2 * length batch + 2) 0 (start batch s) (start-weights batch)
          (Within-eq (append-nil (primaries batch)))
