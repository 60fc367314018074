-- ===== src/Batch.antt =====
-- One batch of an active probe: probe_active_batch and probe_active_batch_with_fallback of probe.rs.
-- What the operating system, the sing-box process and the network do in an attempt is an argument:
-- an `Attempt` says where the attempt ends, what the reads of the shared cancel flag see beside
-- what this batch stores in it, and in what order which probe results arrive.
pub mod Within
pub mod Outcomes
pub mod Fallback
pub mod Total
pub mod Candidates
pub mod Accounts
pub mod Undisturbed
pub mod Complete
use v2ray_subscription_manag.Prelude.{
  ℕ, zero, suc, ◌+◌, ◌-◌, ◌%◌, Bool, true, false, not, ◌&&◌, ◌||◌, String, List, [], ◌∷◌, ◌++◌, map,
  Option, none, some, length, take, drop, count_where, get_elem?, leb, ltb, ◌==◌, min_of,
  if◌then◌else◌, str_append,
}
use v2ray_subscription_manag.Prelude.Decimal.{decimal}
use v2ray_subscription_manag.Model.{
  Candidate, RankedConfig, ProbeStopPolicy, ProgressEvent, live_log, probe_delta, F64,
}
use v2ray_subscription_manag.Stop.Prepared.{PreparedActiveCandidate, entry_size, candidate_count}
use v2ray_subscription_manag.Stop.{
  ProbeStopState, send, probe_stop_reason, probe_stop_reason_with_batch, send_asap_configs,
}
use v2ray_subscription_manag.Sizer.{active_probe_http_concurrency}
use v2ray_subscription_manag.Prepare.{failed_config, failed_configs}

pub record ActiveProbeSuccess : Type 0 where
  pub latency_ms : ℕ
  pub http_status : ℕ
  pub download_mbps : Option F64
  pub download_bytes : Option ℕ

-- `Result<ActiveProbeSuccess>`, with the error's text.
pub data ProbeResult : Type 0 where
  ok : ActiveProbeSuccess → ProbeResult
  err : String → ProbeResult

-- `country` is resolve_endpoint_country: name resolution and the GeoIP database.
unfoldable pub successful_config :
    (String → Option String) → Candidate → ActiveProbeSuccess → RankedConfig
successful_config country candidate active = record {
  rank = 0;
  stability_count = 0;
  id = candidate.id;
  dedup_key = candidate.dedup_key;
  source = candidate.source;
  priority = candidate.priority;
  protocol = candidate.protocol;
  name = candidate.name;
  endpoint = candidate.endpoint;
  uri = candidate.uri;
  reachable = true;
  validation = "active_http";
  latency_ms = some active.latency_ms;
  http_status = some active.http_status;
  download_mbps = active.download_mbps;
  download_bytes = active.download_bytes;
  error = none;
  country_code = country candidate.endpoint.host;
}

module _ {Outbound : Type 0} where
  unfoldable pub ranked_configs_for_active_result :
      (String → Option String) → PreparedActiveCandidate Outbound → ProbeResult → List RankedConfig
  unfolding successful_config failed_configs
  ranked_configs_for_active_result country entry (ok active) =
      successful_config country entry.candidate active ∷ []
  ranked_configs_for_active_result country entry (err error) =
      failed_configs entry "active_http" error

-- A probe result that arrives: the entry, its result, and whether the cancel flag is seen set.
pub record Arrival (Outbound : Type 0) : Type 0 where
  pub entry : PreparedActiveCandidate Outbound
  pub result : ProbeResult
  pub cancelled : Bool

-- How the start of sing-box went: no ports, no config file or no process (`failed`); the proxies
-- did not come up, with the index that sing_box_failed_outbound_index reads from the process's
-- output (`not_ready`); or they did.
pub data Startup (Outbound : Type 0) : Type 0 where
  failed : String → Startup Outbound
  not_ready : String → Option ℕ → Startup Outbound
  ready : Bool → List (Arrival Outbound) → Startup Outbound

pub record Attempt (Outbound : Type 0) : Type 0 where
  pub cancelled_before : Bool
  pub cancelled_at_start : Bool
  pub startup : Startup Outbound

pub data BatchResult (Outbound : Type 0) : Type 0 where
  ok : List RankedConfig → BatchResult Outbound
  retryable : List (PreparedActiveCandidate Outbound) → String → BatchResult Outbound
  unrecoverable : List (PreparedActiveCandidate Outbound) → String → BatchResult Outbound
  invalid_entry :
      List (PreparedActiveCandidate Outbound)
      → PreparedActiveCandidate Outbound
      → String
      → BatchResult Outbound

-- The variables that an attempt changes: the stop state, whether this batch stored the cancel
-- flag, and the events that were sent.
pub record BatchState : Type 0 where
  pub stop_state : ProbeStopState
  pub cancel : Bool
  pub events : List ProgressEvent

-- `send_probe_delta`, which sends nothing when nothing was tested.
abbrev pub send_probe_delta : Bool → ℕ → ℕ → List ProgressEvent
send_probe_delta listening tested working =
    if listening && ltb 0 tested then probe_delta tested working ∷ [] else []

abbrev pub emit : BatchState → List ProgressEvent → BatchState
emit s events = record s { events = s.events ++ events }

abbrev pub is_reachable : RankedConfig → Bool
is_reachable item = item.reachable

-- `Vec::remove`: the entry at an index, and the entries without it.
unfoldable pub remove_at {ℓ} : {A : Type ℓ} → ℕ → List A → Option (A × List A)
remove_at index [] = none
remove_at zero (x ∷ xs) = some (x, xs)
remove_at (suc index) (x ∷ xs) = elim (remove_at index xs) [
  | none ↦ none
  | some (y, rest) ↦ some (y, x ∷ rest)
]

abbrev pub batch_text : ℕ → String → String
batch_text batch_index text =
    str_append "Batch " (str_append (decimal batch_index) (str_append ": " text))

abbrev pub start_message : ℕ → ℕ → String
start_message batch_index candidates =
    batch_text batch_index
      (str_append "starting sing-box test for " (str_append (decimal candidates) " configs"))

abbrev pub not_ready_message : ℕ → String → String
not_ready_message batch_index error =
    batch_text batch_index (str_append "sing-box test process was not ready: " error)

abbrev pub checked_message : ℕ → List RankedConfig → ℕ → String
checked_message batch_index ranked total_candidates = batch_text batch_index (
    str_append (decimal (length ranked)) (
      str_append "/" (
        str_append (decimal total_candidates) (
          str_append " configs checked, "
            (str_append (decimal (count_where is_reachable ranked)) " working")))))

module _ {Outbound : Type 0} (country : String → Option String) (concurrency : ℕ)
    (policy : ProbeStopPolicy) (listening : Bool) (batch_index : ℕ) where
  -- What the loop does with the results of one entry: whether to stop, the results, the events.
  unfoldable pub take_results :
      List RankedConfig
      → List RankedConfig
      → ℕ
      → ℕ
      → Arrival Outbound
      → ℕ
      → List RankedConfig
      → BatchState
      → Option String × List RankedConfig × BatchState
  unfolding ranked_configs_for_active_result probe_stop_reason_with_batch send_asap_configs
      active_probe_http_concurrency
  take_results previous_ranked current total_entries total_candidates arrival completed ranked s =
      let results = ranked_configs_for_active_result country arrival.entry arrival.result in
      let ranked' = ranked ++ results in
      let interval =
        min_of (active_probe_http_concurrency concurrency total_entries) total_entries in
      let checked =
        if completed == total_entries || completed % interval == 0
        then send listening (live_log (checked_message batch_index ranked' total_candidates))
        else [] in
      let (reason, stop_state', events) =
        probe_stop_reason_with_batch previous_ranked current ranked' policy s.stop_state
          listening in
      (
        reason,
        ranked',
        record s {
          stop_state = stop_state';
          events =
              s.events
              ++ send_probe_delta listening (length results) (count_where is_reachable results)
              ++ send_asap_configs listening ranked' policy
              ++ checked
              ++ events;
        },
      )

  -- The loop over the results as they arrive, of `total_entries` entries.
  unfoldable pub collect :
      List RankedConfig
      → List RankedConfig
      → ℕ
      → ℕ
      → List (Arrival Outbound)
      → ℕ
      → List RankedConfig
      → BatchState
      → List RankedConfig × BatchState
  unfolding take_results
  collect previous_ranked current total_entries total_candidates [] completed ranked s = (ranked, s)
  collect previous_ranked current total_entries total_candidates (arrival ∷ later) completed ranked
        s =
      let (reason, ranked', s') =
        take_results previous_ranked current total_entries total_candidates arrival (suc completed)
          ranked s in
      let more =
        collect previous_ranked current total_entries total_candidates later (suc completed) ranked'
          s' in
      if arrival.cancelled || s.cancel then (ranked, s) else elim reason [
        | none ↦ more
        | some text ↦ (ranked', emit (record s' { cancel = true }) (send listening (live_log text)))
      ]

  -- The result of an attempt, once the message of its start is sent.
  unfoldable pub start_batch :
      List (PreparedActiveCandidate Outbound)
      → List RankedConfig
      → List RankedConfig
      → Startup Outbound
      → BatchState
      → BatchResult Outbound × BatchState
  unfolding collect remove_at candidate_count
  start_batch entries previous_ranked current (failed error) s = (unrecoverable entries error, s)
  start_batch entries previous_ranked current (not_ready error index) s =
      let retry : BatchResult Outbound × BatchState = (
        retryable entries error,
        emit s (send listening (live_log (not_ready_message batch_index error))),
      ) in
      elim index [
        | none ↦ retry
        | some i ↦ elim (remove_at i entries) [
          | none ↦ retry
          | some (bad, remaining) ↦ (invalid_entry remaining bad error, s)
        ]
      ]
  start_batch entries previous_ranked current (ready cancelled arrivals) s =
      let (ranked, s') =
        collect previous_ranked current (length entries) (candidate_count entries) arrivals 0 []
          s in
      if cancelled || s.cancel then (ok [], s) else (ok ranked, s')

  unfoldable pub probe_active_batch :
      List (PreparedActiveCandidate Outbound)
      → List RankedConfig
      → List RankedConfig
      → Attempt Outbound
      → BatchState
      → BatchResult Outbound × BatchState
  unfolding start_batch
  probe_active_batch [] previous_ranked current attempt s = (ok [], s)
  probe_active_batch (entry ∷ entries) previous_ranked current attempt s =
      let started = emit s (
        send listening
          (live_log (start_message batch_index (candidate_count (entry ∷ entries))))) in
      if attempt.cancelled_at_start || s.cancel
      then (ok [], s)
      else start_batch (entry ∷ entries) previous_ranked current attempt.startup started
