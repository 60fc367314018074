-- ===== src/Progress.antt =====
-- What progress events do to the runtime state that the terminal and the server show:
-- push_tui_progress and the functions about it of main.rs. `now` is the text of the clock that
-- timestamped_log puts before a message.
pub mod Logs
pub mod Live
use v2ray_subscription_manag.Prelude.{
  ℕ, ◌+◌, ◌-◌, ◌/◌, ◌%◌, Bool, true, false, not, ◌&&◌, ◌||◌, String, List, [], ◌∷◌, ◌++◌, map,
  Option, none, some, contains, lookup, length, take, drop, count_where, min_of, leb, ltb, ◌==◌,
  saturating_add, u32_max, u64_max, unwrap_or, if◌then◌else◌, str_append,
}
use v2ray_subscription_manag.Prelude.Decimal.{decimal}
use v2ray_subscription_manag.Prelude.Sort.{sort_by}
use v2ray_subscription_manag.Model.{
  RankedConfig, RuntimeState, ProgressEvent, live_log, probe_delta, ranked_snapshot,
  working_configs_found, fetched_delta,
}
use v2ray_subscription_manag.Rank.{compare_ranked_snapshot, number_from}

abbrev pub max_tui_logs : ℕ
max_tui_logs = 512

-- `logs.push(message)`, and `drain` of what is too much at the front.
unfoldable pub push_log : List String → String → List String
push_log logs message =
    let logs' = logs ++ message ∷ [] in
    if ltb max_tui_logs (length logs') then drop (length logs' - max_tui_logs) logs' else logs'

unfoldable pub push_runtime_log : RuntimeState → String → RuntimeState
unfolding push_log
push_runtime_log state message = record state { logs = push_log state.logs message }

unfoldable pub push_live_log : RuntimeState → String → RuntimeState
unfolding push_log
push_live_log state message = record state { live_logs = push_log state.live_logs message }

abbrev pub timestamped_log : String → String → String
timestamped_log now message = str_append now (str_append " " message)

unfoldable pub snapshot_count : List (String × ℕ) → List String → RankedConfig → ℕ
snapshot_count counts previous_top_n item =
    let saved = unwrap_or (lookup item.dedup_key counts) 0 in
    if item.reachable && contains previous_top_n item.dedup_key
    then saturating_add u32_max saved 1
    else if item.reachable
    then 1
    else saved

unfoldable pub apply_snapshot_stability_counts :
    List RankedConfig → List (String × ℕ) → List String → List RankedConfig
unfolding snapshot_count
apply_snapshot_stability_counts ranked counts previous_top_n =
    map
      (λ (item : RankedConfig). record item {
        stability_count = snapshot_count counts previous_top_n item;
      })
      ranked

unfoldable pub apply_snapshot_ranks : List RankedConfig → List RankedConfig
unfolding sort_by compare_ranked_snapshot number_from
apply_snapshot_ranks ranked = number_from 0 (sort_by compare_ranked_snapshot ranked)

-- `retain(|item| item.reachable && seen_keys.insert(..))`: the items that stay, and the keys.
unfoldable pub retain_working : List RankedConfig → List String → List RankedConfig × List String
retain_working [] seen = ([], seen)
retain_working (item ∷ rest) seen =
    let taken = retain_working rest (item.dedup_key ∷ seen) in
    let skipped = retain_working rest seen in
    if item.reachable && not (contains seen item.dedup_key)
    then (item ∷ taken.0, taken.1)
    else skipped

-- The loop over the new configs, while fewer than `top_n` are shown.
unfoldable pub append_new :
    ℕ → List RankedConfig → List RankedConfig → List String → List RankedConfig
append_new top_n [] shown seen = shown
append_new top_n (item ∷ rest) shown seen =
    let taken = append_new top_n rest (shown ++ item ∷ []) (item.dedup_key ∷ seen) in
    let skipped = append_new top_n rest shown seen in
    if not item.reachable
    then skipped
    else if leb top_n (length shown)
    then shown
    else if contains seen item.dedup_key
    then skipped
    else taken

unfoldable pub append_asap_working_configs :
    RuntimeState → List RankedConfig → ℕ → List String → RuntimeState
unfolding retain_working append_new apply_snapshot_stability_counts number_from
append_asap_working_configs state configs top_n previous_top_n =
    let (kept, seen) = retain_working state.ranked [] in
    let shown = take top_n (append_new top_n configs kept seen) in
    if top_n == 0 then state else record state {
      ranked =
          number_from 0
            (apply_snapshot_stability_counts shown state.stable_working_counts previous_top_n);
    }

unfoldable pub push_tui_progress :
    String → RuntimeState → ProgressEvent → List String → RuntimeState
unfolding push_live_log apply_snapshot_stability_counts apply_snapshot_ranks
    append_asap_working_configs
push_tui_progress now state (live_log message) previous_top_n =
    push_live_log state (timestamped_log now message)
push_tui_progress now state (probe_delta tested working) previous_top_n = record state {
  tested_candidates = saturating_add u64_max state.tested_candidates tested;
  reachable_candidates = saturating_add u64_max state.reachable_candidates working;
}
push_tui_progress now state (ranked_snapshot ranked) previous_top_n = record state {
  ranked =
      apply_snapshot_ranks
        (apply_snapshot_stability_counts ranked state.stable_working_counts previous_top_n);
}
push_tui_progress now state (working_configs_found configs top_n) previous_top_n =
    append_asap_working_configs state configs top_n previous_top_n
push_tui_progress now state (fetched_delta count) previous_top_n = record state {
  total_candidates = count;
}

-- `now` is a timestamp and `instant` the monotonic clock.
unfoldable pub mark_refresh_pending : String → ℕ → RuntimeState → RuntimeState
mark_refresh_pending now instant state = record state {
  refreshing = true;
  refresh_started_at = some now;
  refresh_started_instant = some instant;
  refresh_finished_at = none;
  refresh_finished_instant = none;
}

unfoldable pub record_refresh_error : String → ℕ → RuntimeState → String → RuntimeState
unfolding push_runtime_log
record_refresh_error now instant state error =
    push_runtime_log
      (record state {
        last_error = some error;
        refreshing = false;
        refresh_finished_at = some now;
        refresh_finished_instant = some instant;
        total_candidates = 0;
        tested_candidates = 0;
        reachable_candidates = 0;
        fetch_errors = error ∷ [];
      })
      (str_append "refresh error: " error)

unfoldable pub add_fetch_bytes : RuntimeState → ℕ → RuntimeState
add_fetch_bytes state bytes =
    if bytes == 0
    then state
    else record state { fetch_bytes = saturating_add u64_max state.fetch_bytes bytes }

unfoldable pub millis_to_seconds : ℕ → ℕ
millis_to_seconds ms = min_of (ms / 1000) u64_max

unfoldable pub format_duration_short : ℕ → String
unfolding millis_to_seconds decimal
format_duration_short ms =
    let seconds = millis_to_seconds ms in
    if ltb seconds 60
    then str_append (decimal seconds) "s"
    else str_append (decimal (seconds / 60))
        (str_append "m " (str_append (decimal (seconds % 60)) "s"))
