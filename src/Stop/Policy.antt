-- ===== src/Stop/Policy.antt =====
-- probe_stop_policy of main.rs, and how the search for the configs of the previous run ends
-- (ProbeStopState::new and update_stability_search_after_batch of probe.rs).
use v2ray_subscription_manag.Prelude.{
  ℕ, ◌≡◌, Bool, not, ◌&&◌, String, List, [], ◌∷◌, ◌++◌, map, none, contains, keep, ◌==◌,
}
use v2ray_subscription_manag.Model.{Candidate, ProbeStopPolicy}
use v2ray_subscription_manag.Stop.Prepared.{PreparedActiveCandidate}
use v2ray_subscription_manag.Stop.{
  ProbeStopState, is_empty, previous_working_entry_count, update_stability_search_after_batch,
}

-- The settings of AppConfig that the policy takes over.
pub record StopSettings : Type 0 where
  pub scan_all_configs : Bool
  pub top_n : ℕ
  pub prioritize_stability : Bool
  pub return_configs_asap : Bool

unfoldable pub probe_stop_policy : StopSettings → List String → List Candidate → ProbeStopPolicy
probe_stop_policy config previous_top_n candidates =
    let current_keys = map (λ (candidate : Candidate). candidate.dedup_key) candidates in
    record {
      scan_all_configs = config.scan_all_configs;
      top_n = config.top_n;
      prioritize_stability = config.prioritize_stability;
      return_configs_asap = config.return_configs_asap;
      previous_working_keys = keep (contains current_keys) previous_top_n;
      cancel_flag = none;
    }

module _ {Outbound : Type 0} where
  -- The state after the batches of `tested`, of which `waiting` are left to test.
  pub record Searching (policy : ProbeStopPolicy) (state : ProbeStopState)
      (waiting : List (PreparedActiveCandidate Outbound)) : Type 0 where
    pub left : state.remaining_previous_working ≡ previous_working_entry_count waiting policy
    pub done :
        state.stability_search_exhausted
        ≡ not (is_empty policy.previous_working_keys) && state.remaining_previous_working == 0

  -- The updates after each batch of a run.
  abbrev pub after_batches :
      ProbeStopPolicy
      → List (List (PreparedActiveCandidate Outbound))
      → ProbeStopState
      → ProbeStopState
  after_batches policy [] state = state
  after_batches policy (batch ∷ batches) state =
      after_batches policy batches (
        update_stability_search_after_batch (previous_working_entry_count batch policy) policy
          state)

  abbrev pub concat :
      List (List (PreparedActiveCandidate Outbound))
      → List (PreparedActiveCandidate Outbound)
      → List (PreparedActiveCandidate Outbound)
  concat [] rest = rest
  concat (batch ∷ batches) rest = batch ++ concat batches rest
