-- ===== src/Batch/Outcomes.antt =====
-- What an attempt on a batch returns: the entries that a failure hands back are the batch's.
use v2ray_subscription_manag.Prelude.{
  ℕ, zero, suc, Bool, true, ◌||◌, String, List, [], ◌∷◌, Option, none, some, ◌≡◌, refl, Perm,
  length, arith, Option-cases, inl, inr, Bool-cases, if◌then◌else◌,
}
use mathlib.Core.List.Perm
use v2ray_subscription_manag.Model.{RankedConfig, ProbeStopPolicy, live_log}
use v2ray_subscription_manag.Stop.Prepared.{PreparedActiveCandidate, candidate_count}
use v2ray_subscription_manag.Stop.{send}
use v2ray_subscription_manag.Batch.{
  Attempt, Startup, BatchResult, BatchState, ok, retryable, unrecoverable, invalid_entry, failed,
  not_ready, ready, remove_at, collect, start_batch, probe_active_batch, emit, start_message,
}

module _ {ℓ} {A : Type ℓ} where
  pub remove_at-perm :
      (index : ℕ)
      → (xs : List A) → {y : A} → {rest : List A} → remove_at index xs ≡ some (y, rest)
      → Perm (y ∷ rest) xs
  unfolding remove_at
  remove_at-perm index [] removed = ground arith
  remove_at-perm zero (x ∷ xs) {y} {rest} removed = ground (arith, Perm.refl (x ∷ xs))
  remove_at-perm (suc index) (x ∷ xs) {y} {rest} removed =
      elim (Option-cases (remove_at index xs)) [
        | inl missing ↦ ground (arith, missing)
        | inr ((z, rest'), found) ↦
            let deeper : Perm (x ∷ z ∷ rest') (x ∷ xs) =
              Perm.cons x (remove_at-perm index xs found) in
            let here : Perm (z ∷ x ∷ rest') (x ∷ xs) = Perm.trans (Perm.swap x z rest') deeper in
            ground (arith, found, here)
      ]

module _ {Outbound : Type 0} (IsResult : List RankedConfig → Type 0) where
  unfoldable pub IsOutcome : List (PreparedActiveCandidate Outbound) → BatchResult Outbound → Type 0
  IsOutcome batch (ok ranked) = IsResult ranked
  IsOutcome batch (retryable entries error) = entries ≡ batch
  IsOutcome batch (unrecoverable entries error) = entries ≡ batch
  IsOutcome batch (invalid_entry entries bad error) = Perm (bad ∷ entries) batch

module _ {Outbound : Type 0} (country : String → Option String) (concurrency : ℕ)
    (policy : ProbeStopPolicy) (listening : Bool) (batch_index : ℕ)
    (previous_ranked : List RankedConfig) (current : List RankedConfig)
    (IsResult : List RankedConfig → Type 0) where
  -- The results of a batch whose proxies came up have the property.
  abbrev pub IsRun :
      List (PreparedActiveCandidate Outbound) → Startup Outbound → BatchState → Type 0
  IsRun batch (failed error) s = Unit
  IsRun batch (not_ready error index) s = Unit
  IsRun batch (ready cancelled arrivals) s = IsResult (
      if cancelled || s.cancel
      then []
      else (collect country concurrency policy listening batch_index previous_ranked current
          (length batch) (candidate_count batch) arrivals 0 [] s).0)

  start_batch-IsOutcome :
      (batch : List (PreparedActiveCandidate Outbound))
      → (startup : Startup Outbound) → (s : BatchState) → IsRun batch startup s
      → IsOutcome IsResult batch
          (start_batch country concurrency policy listening batch_index batch previous_ranked
            current startup s).0
  unfolding start_batch IsOutcome
  start_batch-IsOutcome batch (failed error) s run = refl
  start_batch-IsOutcome batch (not_ready error none) s run = refl
  start_batch-IsOutcome batch (not_ready error (some i)) s run =
      elim (Option-cases (remove_at i batch)) [
        | inl missing ↦ rw (start_batch, missing) refl
        | inr ((bad, rest), found) ↦ rw (start_batch, found) (remove_at-perm i batch found)
      ]
  start_batch-IsOutcome batch (ready cancelled arrivals) s run = ground (arith, run)

  -- The message of the start does not change what the attempt finds.
  abbrev pub started : List (PreparedActiveCandidate Outbound) → BatchState → BatchState
  started batch s =
      emit s (send listening (live_log (start_message batch_index (candidate_count batch))))

  pub probe_active_batch-IsOutcome :
      (batch : List (PreparedActiveCandidate Outbound))
      → (attempt : Attempt Outbound) → (s : BatchState) → (batch ≡ [] → IsResult [])
      → ((attempt.cancelled_at_start || s.cancel) ≡ true → IsResult [])
      → IsRun batch attempt.startup (started batch s)
      → IsOutcome IsResult batch
          (probe_active_batch country concurrency policy listening batch_index batch previous_ranked
            current attempt s).0
  unfolding probe_active_batch IsOutcome
  probe_active_batch-IsOutcome [] attempt s empty stopped run = empty refl
  probe_active_batch-IsOutcome (entry ∷ entries) attempt s empty stopped run =
      elim (Bool-cases (attempt.cancelled_at_start || s.cancel)) [
        | inl now ↦ rw (now) (stopped now)
        | inr running ↦
            let result =
              start_batch-IsOutcome (entry ∷ entries) attempt.startup (started (entry ∷ entries) s)
                run in
            rw (running) result
      ]
