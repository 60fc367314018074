-- ===== src/Stop.antt =====
-- When an active probe may stop early: ProbeStopState and the functions about it of probe.rs, and
-- probe_stop_policy of main.rs. A function that sends progress events returns the list of them;
-- `listening` says whether there is a receiver (`progress` is `Some`).
pub mod Prepared
pub mod Policy
pub mod Reason
pub mod Snapshot
use v2ray_subscription_manag.Prelude.{
  ℕ, ◌+◌, ◌-◌, ◌/◌, Bool, true, false, not, ◌&&◌, ◌||◌, String, List, [], ◌∷◌, ◌++◌, map, Option,
  none, some, contains, length, take, keep, any, count_where, min_of, leb, ltb, ◌==◌, if◌then◌else◌,
  str_append,
}
use v2ray_subscription_manag.Prelude.Decimal.{decimal}
use v2ray_subscription_manag.Prelude.Sort.{sort_by}
use v2ray_subscription_manag.Model.{
  Candidate, RankedConfig, ProbeStopPolicy, ProgressEvent, live_log, ranked_snapshot,
  working_configs_found,
}
use v2ray_subscription_manag.Rank.{compare_ranked}
use Prepared.{PreparedActiveCandidate, candidate_count}

pub record ProbeStopState : Type 0 where
  pub half_snapshot_sent : Bool
  pub stability_search_exhausted : Bool
  pub remaining_previous_working : ℕ

-- `HashSet::is_empty`
abbrev pub is_empty {ℓ} : {A : Type ℓ} → List A → Bool
is_empty [] = true
is_empty (x ∷ xs) = false

-- `progress.send(event)` for a receiver that may be missing.
abbrev pub send : Bool → ProgressEvent → List ProgressEvent
send listening event = if listening then event ∷ [] else []

abbrev pub is_previous : ProbeStopPolicy → RankedConfig → Bool
is_previous policy item = contains policy.previous_working_keys item.dedup_key

module _ {Outbound : Type 0} where
  unfoldable pub entry_has_previous_working_uri :
      PreparedActiveCandidate Outbound → ProbeStopPolicy → Bool
  entry_has_previous_working_uri entry policy =
      contains policy.previous_working_keys entry.candidate.dedup_key
      || any (λ (alias : Candidate). contains policy.previous_working_keys alias.dedup_key)
          entry.aliases

  unfoldable pub previous_working_entry_count :
      List (PreparedActiveCandidate Outbound) → ProbeStopPolicy → ℕ
  unfolding entry_has_previous_working_uri
  previous_working_entry_count entries policy =
      count_where (λ entry. entry_has_previous_working_uri entry policy) entries

  -- `ProbeStopState::new`
  unfoldable pub initial_stop_state :
      List (PreparedActiveCandidate Outbound) → ProbeStopPolicy → ProbeStopState
  unfolding previous_working_entry_count
  initial_stop_state prepared policy =
      let remaining =
        if policy.scan_all_configs || not policy.prioritize_stability
        then 0
        else previous_working_entry_count prepared policy in
      record {
        half_snapshot_sent = false;
        stability_search_exhausted = not (is_empty policy.previous_working_keys) && remaining == 0;
        remaining_previous_working = remaining;
      }

-- The two loops of stability_snapshot: the configs of the previous run, then the others, while
-- fewer than `limit` are selected. `used_uris` holds the keys that were taken.
unfoldable pub select_previous :
    ProbeStopPolicy
    → ℕ
    → List RankedConfig
    → List RankedConfig
    → List String
    → List RankedConfig × List String
select_previous policy limit [] selected used = (selected, used)
select_previous policy limit (item ∷ rest) selected used =
    let taken = select_previous policy limit rest (selected ++ item ∷ []) (item.dedup_key ∷ used) in
    let skipped = select_previous policy limit rest selected used in
    if not (is_previous policy item)
    then skipped
    else if leb limit (length selected)
    then (selected, used)
    else taken

unfoldable pub select_others :
    ℕ → List RankedConfig → List RankedConfig → List String → List RankedConfig
select_others limit [] selected used = selected
select_others limit (item ∷ rest) selected used =
    let taken = select_others limit rest (selected ++ item ∷ []) (item.dedup_key ∷ used) in
    let skipped = select_others limit rest selected used in
    if leb limit (length selected)
    then selected
    else if contains used item.dedup_key
    then skipped
    else taken

unfoldable pub stability_snapshot : List RankedConfig → ProbeStopPolicy → ℕ → List RankedConfig
unfolding select_previous select_others sort_by compare_ranked
stability_snapshot ranked policy limit =
    let working = sort_by compare_ranked (keep (λ (item : RankedConfig). item.reachable) ranked) in
    if not policy.prioritize_stability
    then take limit working
    else (let (selected, used) = select_previous policy limit working [] [] in
        select_others limit working selected used)

unfoldable pub stable_reachable_count : List RankedConfig → ProbeStopPolicy → ℕ
stable_reachable_count ranked policy =
    count_where (λ (item : RankedConfig). item.reachable && is_previous policy item) ranked

-- The texts of the messages.
abbrev pub found_reason : ℕ → ℕ → String
found_reason reachable top_n = str_append "Early stop: found " (
    str_append (decimal reachable)
      (str_append "/" (str_append (decimal top_n) " working configs with active sing-box checks")))

abbrev pub publish_message : ℕ → String
publish_message first_half =
    str_append "Early publish: found first " (str_append (decimal first_half) " working configs")

abbrev pub kept_reason : ℕ → ℕ → ℕ → ℕ → String
kept_reason reachable top_n found required = str_append "Early stop: found " (
    str_append (decimal reachable) (
      str_append "/" (
        str_append (decimal top_n) (
          str_append " working configs, including " (
            str_append (decimal found) (
              str_append "/"
                (str_append (decimal required) " kept from the previous run's saved top-N")))))))

abbrev pub exhausted_reason : ℕ → String
exhausted_reason top_n =
    str_append "Early stop: previous-run top-N stability search finished; filling "
      (str_append (decimal top_n) " configs by active HTTP results")

-- The last part of probe_stop_reason, for `top_n` working results or more.
unfoldable pub stability_reason :
    List RankedConfig → ProbeStopPolicy → ProbeStopState → ℕ → Option String
unfolding stable_reachable_count
stability_reason ranked policy state reachable =
    let found_previous = stable_reachable_count ranked policy in
    let required_previous =
      min_of (policy.top_n - policy.top_n / 2) (length policy.previous_working_keys) in
    if leb required_previous found_previous
    then some (kept_reason reachable policy.top_n found_previous required_previous)
    else if state.stability_search_exhausted
    then some (exhausted_reason policy.top_n)
    else none

-- The early publication of the first half: the state and the events.
unfoldable pub publish_half :
    List RankedConfig
    → ProbeStopPolicy
    → ProbeStopState
    → Bool
    → ℕ
    → ProbeStopState × List ProgressEvent
unfolding stability_snapshot
publish_half ranked policy state listening reachable =
    let first_half = policy.top_n / 2 in
    if not policy.return_configs_asap
      && ltb 0 first_half
      && leb first_half reachable
      && not state.half_snapshot_sent
    then (
      record state { half_snapshot_sent = true },
      send listening (ranked_snapshot (stability_snapshot ranked policy first_half))
          ++ send listening (live_log (publish_message first_half)),
    )
    else (state, [])

unfoldable pub probe_stop_reason :
    List RankedConfig
    → ProbeStopPolicy
    → ProbeStopState
    → Bool
    → Option String × ProbeStopState × List ProgressEvent
unfolding publish_half stability_reason
probe_stop_reason ranked policy state listening =
    let reachable = count_where (λ (item : RankedConfig). item.reachable) ranked in
    if policy.scan_all_configs || policy.top_n == 0
    then (none, state, [])
    else if not policy.prioritize_stability
    then (
      (if leb policy.top_n reachable then some (found_reason reachable policy.top_n) else none),
      state,
      [],
    )
    else (let (state', events) = publish_half ranked policy state listening reachable in
        (
          (if ltb reachable policy.top_n
              then none
              else stability_reason ranked policy state' reachable),
          state',
          events,
        ))

unfoldable pub probe_stop_reason_with_batch :
    List RankedConfig
    → List RankedConfig
    → List RankedConfig
    → ProbeStopPolicy
    → ProbeStopState
    → Bool
    → Option String × ProbeStopState × List ProgressEvent
unfolding probe_stop_reason
probe_stop_reason_with_batch previous_ranked current_batch_ranked ranked policy state listening =
    if policy.scan_all_configs
    then (none, state, [])
    else probe_stop_reason (previous_ranked ++ current_batch_ranked ++ ranked) policy state
        listening

unfoldable pub update_stability_search_after_batch :
    ℕ → ProbeStopPolicy → ProbeStopState → ProbeStopState
update_stability_search_after_batch tested_previous_working policy state =
    let remaining = state.remaining_previous_working - tested_previous_working in
    if policy.scan_all_configs
      || not policy.prioritize_stability
      || state.stability_search_exhausted
    then state
    else record state {
      remaining_previous_working = remaining;
      stability_search_exhausted = not (is_empty policy.previous_working_keys) && remaining == 0;
    }

-- The keys of send_asap_configs: a `filter` whose test inserts into a set of keys that were seen.
unfoldable pub working_unseen : List String → List RankedConfig → List RankedConfig
working_unseen seen [] = []
working_unseen seen (item ∷ rest) =
    let taken = item ∷ working_unseen (item.dedup_key ∷ seen) rest in
    let skipped = working_unseen seen rest in
    if item.reachable && not (contains seen item.dedup_key) then taken else skipped

unfoldable pub send_asap_configs : Bool → List RankedConfig → ProbeStopPolicy → List ProgressEvent
unfolding working_unseen
send_asap_configs listening ranked policy =
    let working = working_unseen [] ranked in
    if not policy.return_configs_asap || is_empty working
    then []
    else send listening (working_configs_found working policy.top_n)
