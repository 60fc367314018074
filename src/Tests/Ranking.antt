-- ===== src/Tests/Ranking.antt =====
-- Ranking, the counts of stability and the progress of a refresh on the samples.
use v2ray_subscription_manag.Prelude.{
  ℕ, ◌-◌, ◌≤◌, true, false, String, List, [], ◌∷◌, map, none, ◌≡◌, refl, Perm, Distinct, lookup,
  length, take, drop, All, arith, contains,
}
use mathlib.Core.List.{Sublist}
use v2ray_subscription_manag.Model.{RankedConfig, RuntimeState}
use v2ray_subscription_manag.Rank.{rank_configs, deduplicate_ranked_configs}
use v2ray_subscription_manag.Rank.Laws.{
  unranked, key_of, first_with, IsNumbered, rank_configs_lem, deduplicate_ranked_configs_lem,
}
use v2ray_subscription_manag.Stability.{apply_stability_ranking}
use v2ray_subscription_manag.Stability.Laws.{
  works, next_count, ShowsCount, uncounted, apply_stability_ranking_counts,
  apply_stability_ranking_order,
}
use v2ray_subscription_manag.Rank.Before.{IsBefore, IsStablyBefore, InOrder}
use v2ray_subscription_manag.Progress.{max_tui_logs, append_asap_working_configs}
use v2ray_subscription_manag.Progress.Live.{live_list, append_asap_working_configs_lem}
use v2ray_subscription_manag.Progress.Logs.{push_logs, push_logs_lem}
use v2ray_subscription_manag.Tests.{result, results}

rank_configs_lem_example :
    Perm (map unranked (rank_configs results)) (map unranked results)
    × InOrder IsBefore (rank_configs results)
    × IsNumbered (rank_configs results)
rank_configs_lem_example = rank_configs_lem results (tt, (tt, (tt, tt)))

abbrev repeated : List RankedConfig
repeated = result "x" true 90 ∷ result "z" true 20 ∷ result "x" true 5 ∷ []

deduplicate_ranked_configs_lem_example :
    Distinct (map key_of (deduplicate_ranked_configs repeated))
    × ((k : String) → first_with k (deduplicate_ranked_configs repeated) ≡ first_with k repeated)
    × Sublist (map unranked (deduplicate_ranked_configs repeated)) (map unranked repeated)
    × IsNumbered (deduplicate_ranked_configs repeated)
deduplicate_ranked_configs_lem_example = deduplicate_ranked_configs_lem repeated

abbrev counts_before : List (String × ℕ)
counts_before = ("x", 3) ∷ ("y", 2) ∷ ("gone", 7) ∷ []

apply_stability_ranking_counts_example :
    let (ranked', counts') = apply_stability_ranking results counts_before true in
    ((k : String) → lookup k counts' ≡ next_count (works k results) (lookup k counts_before))
    × All (ShowsCount counts') ranked'
unfolding contains
apply_stability_ranking_counts_example =
    apply_stability_ranking_counts results counts_before true (refl, (refl, (refl, tt)))

apply_stability_ranking_order_example :
    Perm
      (map uncounted (apply_stability_ranking results counts_before true).0)
      (map uncounted results)
    × InOrder IsStablyBefore (apply_stability_ranking results counts_before true).0
    × IsNumbered (apply_stability_ranking results counts_before true).0
    × (map uncounted (apply_stability_ranking results counts_before false).0
        ≡ map uncounted results)
apply_stability_ranking_order_example =
    apply_stability_ranking_order results counts_before (tt, (tt, (tt, tt)))

abbrev pub idle : RuntimeState
idle = record {
  last_refresh = none;
  last_error = none;
  logs = [];
  live_logs = [];
  refresh_started_at = none;
  refresh_finished_at = none;
  refresh_started_instant = none;
  refresh_finished_instant = none;
  refresh_duration_ms = none;
  refreshing = true;
  total_candidates = 3;
  tested_candidates = 0;
  reachable_candidates = 0;
  fetch_bytes = 0;
  speedtest_bytes = 0;
  fetch_errors = [];
  ranked = result "x" true 90 ∷ [];
  stable_working_counts = [];
  proxy_active_config = none;
  proxy_running = false;
  proxy_port = none;
  proxy_discoverable = false;
}

append_asap_working_configs_lem_example :
    let state' = append_asap_working_configs idle results 2 [] in
    (map uncounted state'.ranked ≡ map uncounted (take 2 (live_list idle results)))
    × IsNumbered state'.ranked
    × (record state' { ranked = [] } ≡ record idle { ranked = [] })
append_asap_working_configs_lem_example =
    append_asap_working_configs_lem idle results 2 [] (omega arith)

abbrev messages : List String
messages = "one" ∷ "two" ∷ []

push_logs_lem_example :
    (push_logs [] messages ≡ drop (length messages - max_tui_logs) messages)
    × (length (push_logs [] messages) ≤ max_tui_logs)
push_logs_lem_example = push_logs_lem messages
