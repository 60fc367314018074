-- ===== src/Batch/Fallback.antt =====
-- The retries of a batch: probe_active_batch_with_fallback of probe.rs.
use v2ray_subscription_manag.Prelude.{
  is_some, ℕ, zero, suc, ◌+◌, ◌*◌, ◌/◌, Bool, true, false, ◌||◌, String, List, [], ◌∷◌, ◌++◌,
  Option, none, some, length, take, drop, ltb, saturating_add, u64_max, if◌then◌else◌, str_append,
}
use v2ray_subscription_manag.Prelude.Decimal.{decimal}
use v2ray_subscription_manag.Model.{RankedConfig, ProbeStopPolicy, live_log}
use v2ray_subscription_manag.Stop.Prepared.{PreparedActiveCandidate, entry_size, candidate_count}
use v2ray_subscription_manag.Stop.{send, probe_stop_reason, is_empty}
use v2ray_subscription_manag.Sizer.{BatchProbeStats}
use v2ray_subscription_manag.Prepare.{failed_configs}
use v2ray_subscription_manag.Batch.{
  Attempt, BatchResult, BatchState, ok, retryable, unrecoverable, invalid_entry, emit,
  send_probe_delta, batch_text, probe_active_batch,
}

-- The local variables of the loop, and what an attempt changes. The top of the stack of the
-- batches that wait is the first of the list.
pub record Fallback (Outbound : Type 0) : Type 0 where
  pub pending : List (List (PreparedActiveCandidate Outbound))
  pub ranked : List RankedConfig
  pub stats : BatchProbeStats
  pub shared : BatchState

abbrev pub rejected_message : ℕ → ℕ → String
rejected_message batch_index remaining = batch_text batch_index (
    str_append "sing-box rejected one generated test config; retrying "
      (str_append (decimal remaining) " remaining definitions"))

abbrev pub split_message : ℕ → ℕ → String
split_message batch_index entries = batch_text batch_index (
    str_append "could not start cleanly; splitting "
      (str_append (decimal entries) " server definitions and retrying"))

abbrev pub failed_message : ℕ → String → String
failed_message batch_index error = batch_text batch_index (str_append "probe failed: " error)

-- `BatchProbeStats::default()`
abbrev pub no_stats : BatchProbeStats
no_stats = record { started_cleanly = false; produced = 0; splits = 0; failed_candidates = 0 }

module _ {Outbound : Type 0} where
  -- `flat_map` of failed_configs over entries.
  unfoldable pub all_failed : List (PreparedActiveCandidate Outbound) → String → List RankedConfig
  unfolding failed_configs
  all_failed [] error = []
  all_failed (entry ∷ entries) error =
      failed_configs entry "active_http" error ++ all_failed entries error

  -- `fallback.pending = vec![batch]` and the empty results.
  abbrev pub start : List (PreparedActiveCandidate Outbound) → BatchState → Fallback Outbound
  start batch s = record { pending = batch ∷ []; ranked = []; stats = no_stats; shared = s }

module _ {Outbound : Type 0} (country : String → Option String) (concurrency : ℕ)
    (policy : ProbeStopPolicy) (listening : Bool) (batch_index : ℕ) where
  -- No entry can be blamed and no split helps: every entry failed.
  unfoldable pub give_up :
      List (PreparedActiveCandidate Outbound) → String → Fallback Outbound → Fallback Outbound
  unfolding all_failed candidate_count
  give_up entries error s =
      let failed_count = candidate_count entries in
      record s {
        stats = record s.stats {
          failed_candidates = saturating_add u64_max s.stats.failed_candidates failed_count;
        };
        ranked = s.ranked ++ all_failed entries error;
        shared = emit s.shared (
            send listening (live_log (failed_message batch_index error))
            ++ send_probe_delta listening failed_count 0);
      }

  unfoldable pub split :
      List (PreparedActiveCandidate Outbound) → Fallback Outbound → Fallback Outbound
  split entries s =
      let half = length entries / 2 in
      record s {
        pending = take half entries ∷ drop half entries ∷ s.pending;
        stats = record s.stats { splits = saturating_add u64_max s.stats.splits 1 };
        shared =
            emit s.shared (send listening (live_log (split_message batch_index (length entries))));
      }

  -- One entry is rejected, and the others are tried again.
  unfoldable pub reject :
      List (PreparedActiveCandidate Outbound)
      → PreparedActiveCandidate Outbound
      → String
      → Fallback Outbound
      → Fallback Outbound
  unfolding failed_configs
  reject entries bad error s = record s {
    pending = if is_empty entries then s.pending else entries ∷ s.pending;
    stats = record s.stats {
      failed_candidates = saturating_add u64_max s.stats.failed_candidates (entry_size bad);
    };
    ranked = s.ranked ++ failed_configs bad "active_http" error;
    shared = emit s.shared (
        send listening (live_log (rejected_message batch_index (length entries)))
        ++ send_probe_delta listening (entry_size bad) 0);
  }

  -- The match on what the attempt returned.
  unfoldable pub handle : BatchResult Outbound → Fallback Outbound → Fallback Outbound
  unfolding give_up split reject
  handle (ok batch_ranked) s = record s {
    stats = record s.stats {
      started_cleanly = true;
      produced = saturating_add u64_max s.stats.produced (length batch_ranked);
    };
    ranked = s.ranked ++ batch_ranked;
  }
  handle (retryable entries error) s =
      if ltb 1 (length entries) then split entries s else give_up entries error s
  handle (unrecoverable entries error) s = give_up entries error s
  handle (invalid_entry entries bad error) s = reject entries bad error s

  -- The test at the end of an iteration, which stores the cancel flag.
  unfoldable pub check_stop : List RankedConfig → Fallback Outbound → Bool × Fallback Outbound
  unfolding probe_stop_reason
  check_stop previous_ranked s =
      let (reason, stop_state', events) =
        probe_stop_reason (previous_ranked ++ s.ranked) policy s.shared.stop_state listening in
      let stopped = is_some reason in
      (
        stopped,
        record s {
          shared = record {
            stop_state = stop_state';
            cancel = stopped || s.shared.cancel;
            events = s.shared.events ++ events;
          };
        },
      )

  -- One iteration on the batch that was popped, `pending` holding the others.
  unfoldable pub iterate :
      List RankedConfig
      → Attempt Outbound
      → List (PreparedActiveCandidate Outbound)
      → Fallback Outbound
      → Bool × Fallback Outbound
  unfolding probe_active_batch handle check_stop
  iterate previous_ranked attempt batch s =
      let (result, shared') =
        probe_active_batch country concurrency policy listening batch_index batch previous_ranked
          s.ranked attempt s.shared in
      check_stop previous_ranked (handle result (record s { shared = shared' }))

  -- The loop: `attempts k batch` is what happens in its k-th attempt, on that batch.
  unfoldable pub retry :
      List RankedConfig
      → (ℕ → List (PreparedActiveCandidate Outbound) → Attempt Outbound)
      → ℕ
      → ℕ
      → Fallback Outbound
      → Option (Fallback Outbound)
  unfolding iterate
  retry previous_ranked attempts zero k s = none
  retry previous_ranked attempts (suc fuel) k s = elim s.pending [
    | [] ↦ some s
    | batch ∷ pending ↦ elim ((attempts k batch).cancelled_before || s.shared.cancel) [
      | true ↦ some (record s { pending = pending })
      | false ↦
          let (stopped, s') =
            iterate previous_ranked (attempts k batch) batch (record s { pending = pending }) in
          elim stopped [ true ↦ some s' | false ↦ retry previous_ranked attempts fuel (suc k) s' ]
    ]
  ]

  -- The results, the counters and the shared state.
  unfoldable pub probe_active_batch_with_fallback :
      List RankedConfig
      → (ℕ → List (PreparedActiveCandidate Outbound) → Attempt Outbound)
      → List (PreparedActiveCandidate Outbound)
      → BatchState
      → Option (Fallback Outbound)
  unfolding retry
  probe_active_batch_with_fallback previous_ranked attempts batch s =
      retry previous_ranked attempts (2 * length batch + 2) 0 (start batch s)
