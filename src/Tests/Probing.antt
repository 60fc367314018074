-- ===== src/Tests/Probing.antt =====
-- The schedule, the preparation, the stop conditions and the sizes of the batches on the samples.
use v2ray_subscription_manag.Prelude.{
  is_some, ℕ, suc, ◌*◌, ◌<◌, ◌↔◌, ◌≤◌, true, false, String, List, [], ◌∷◌, none, some, ◌≡◌, refl,
  Perm, Distinct, contains, length, min_of, take, str_eq, if◌then◌else◌,
}
use v2ray_subscription_manag.Model.{Candidate}
use v2ray_subscription_manag.Schedule.{schedule_active_candidates}
use v2ray_subscription_manag.Schedule.Fair.{IsScheduled, is_wanted, schedule_active_candidates_lem}
use v2ray_subscription_manag.Prepare.{
  Conversion, ok, err, ActivePreparation, prepare_active_candidates,
}
use v2ray_subscription_manag.Prepare.Laws.{accounted, members}
use v2ray_subscription_manag.Prepare.Dedup.{keys, prepare_active_candidates_lem}
use v2ray_subscription_manag.Stop.Prepared.{PreparedActiveCandidate}
use v2ray_subscription_manag.Stop.{
  ProbeStopState, probe_stop_reason, initial_stop_state, previous_working_entry_count,
  stability_snapshot, stable_reachable_count,
}
use v2ray_subscription_manag.Stop.Policy.{StopSettings, probe_stop_policy}
use v2ray_subscription_manag.Stop.Reason.{ShouldStop, probe_stop_reason_iff}
use v2ray_subscription_manag.Stop.Snapshot.{previous_first, working_sorted, stability_snapshot_lem}
use v2ray_subscription_manag.Sizer.{
  new, next_len, BatchProbeStats, active_probe_http_concurrency, active_probe_process_concurrency,
  tcp_prefilter_concurrency, batch_max_size,
}
use v2ray_subscription_manag.Sizer.Bounds.{
  observe_all, next_len_bounds, IsLeast, active_probe_http_concurrency-IsLeast,
}
use v2ray_subscription_manag.Tests.{candidate, candidates, results, policy}

program : Unit {0}
unfolding schedule_active_candidates prepare_active_candidates probe_stop_reason stability_snapshot
    stable_reachable_count probe_stop_policy initial_stop_state previous_working_entry_count
    active_probe_http_concurrency active_probe_process_concurrency tcp_prefilter_concurrency
    next_len new contains
program = tt

-- The previous run's "a3" comes first, and the sources take turns.
scheduled :
    schedule_active_candidates candidates policy
    ≡ some (candidate "a" "a3" ∷ candidate "b" "b1" ∷ candidate "a" "a1" ∷ candidate "a" "a2" ∷ [])
unfolding program
scheduled = refl

schedule_active_candidates_lem_example :
    (out : List Candidate) × (schedule_active_candidates candidates policy ≡ some out)
    × IsScheduled candidates (is_wanted policy) out
schedule_active_candidates_lem_example = schedule_active_candidates_lem candidates policy

-- A share link's outbound is its text; "a2" does not convert, and "a3" and "b1" have one outbound.
abbrev pub convert : String → Conversion String
convert uri =
    if str_eq uri "a2" then err "unsupported" else ok (if str_eq uri "b1" then "a3" else uri)

abbrev pub key_of_outbound : String → String
key_of_outbound outbound = outbound

prepare_active_candidates_lem_example :
    (p : ActivePreparation String) × (prepare_active_candidates convert key_of_outbound 2 candidates
        policy
      ≡ some p)
    × Perm (accounted p.prepared p.ranked) candidates
    × Distinct (keys key_of_outbound p.prepared)
    × (p.prepared_candidates ≡ length (members p.prepared))
prepare_active_candidates_lem_example =
    prepare_active_candidates_lem key_of_outbound convert 2 candidates policy

abbrev fresh : ProbeStopState
fresh = record {
  half_snapshot_sent = false;
  stability_search_exhausted = false;
  remaining_previous_working = 1;
}

-- Two of two working configs are found, one of them of the previous run.
probe_stop_reason_iff_example :
    (is_some (probe_stop_reason results policy fresh true).0 ≡ true)
    ↔ ShouldStop policy fresh results
probe_stop_reason_iff_example = probe_stop_reason_iff results policy fresh true

stops : is_some (probe_stop_reason results policy fresh true).0 ≡ true
unfolding program
stops = refl

-- "x" is of the previous run and precedes the faster "z".
stability_snapshot_lem_example :
    stability_snapshot results policy 2 ≡ take 2 (previous_first policy (working_sorted results))
unfolding program
stability_snapshot_lem_example = stability_snapshot_lem results policy 2 refl (refl, (refl, tt))

abbrev entry : String → PreparedActiveCandidate String
entry key = record { candidate = candidate "a" key; aliases = []; outbound = key }

abbrev settings : StopSettings
settings = record {
  scan_all_configs = false;
  top_n = 2;
  prioritize_stability = true;
  return_configs_asap = false;
}

-- The key "gone" has no candidate any more.
gone_is_dropped :
    (probe_stop_policy settings ("gone" ∷ "a3" ∷ []) candidates).previous_working_keys ≡ "a3" ∷ []
unfolding program
gone_is_dropped = refl

abbrev clean_run : BatchProbeStats
clean_run = record { started_cleanly = true; produced = 64; splits = 0; failed_candidates = 0 }

next_len_bounds_example :
    let n = next_len (observe_all (new 4 none) (clean_run ∷ [])) 1000 in
    (n ≤ batch_max_size) × (n ≤ 1000) × (min_of 1 1000 ≤ n)
next_len_bounds_example = next_len_bounds 4 none (clean_run ∷ []) 1000

active_probe_http_concurrency-IsLeast_example :
    (root : ℕ) × (root * root ≤ 64)
    × (64 < suc root * suc root)
    × IsLeast (active_probe_http_concurrency 8 64) 128 64 (root * 8)
active_probe_http_concurrency-IsLeast_example = active_probe_http_concurrency-IsLeast 8 64
