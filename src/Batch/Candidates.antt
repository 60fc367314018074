-- ===== src/Batch/Candidates.antt =====
-- The candidates of the entries and of their results.
use v2ray_subscription_manag.Prelude.{String, List, [], ◌∷◌, ◌++◌, map, Option, ◌≡◌, refl, ap}
use v2ray_subscription_manag.Model.{Candidate}
use v2ray_subscription_manag.Stop.Prepared.{PreparedActiveCandidate}
use v2ray_subscription_manag.Prepare.{candidate_of, failed_config, failed_configs}
use v2ray_subscription_manag.Batch.{
  Arrival, Startup, failed, not_ready, ready, ProbeResult, ok, err, successful_config,
  ranked_configs_for_active_result,
}
use v2ray_subscription_manag.Batch.Within.{Within}
use v2ray_subscription_manag.Batch.Fallback.{all_failed}

module _ {Outbound : Type 0} where
  abbrev pub primary : PreparedActiveCandidate Outbound → Candidate
  primary entry = entry.candidate

  abbrev pub primaries : List (PreparedActiveCandidate Outbound) → List Candidate
  primaries batch = map primary batch

  abbrev pub waiting : List (List (PreparedActiveCandidate Outbound)) → List Candidate
  waiting [] = []
  waiting (batch ∷ rest) = primaries batch ++ waiting rest

  abbrev pub arrived : List (Arrival Outbound) → List Candidate
  arrived [] = []
  arrived (arrival ∷ later) = arrival.entry.candidate ∷ arrived later

  abbrev pub entry_of : Arrival Outbound → PreparedActiveCandidate Outbound
  entry_of arrival = arrival.entry

  -- What can happen in an attempt: only entries of the batch get a result, each at most once.
  abbrev pub IsPossible : List (PreparedActiveCandidate Outbound) → Startup Outbound → Type 0
  IsPossible batch (failed error) = Unit
  IsPossible batch (not_ready error index) = Unit
  IsPossible batch (ready cancelled arrivals) = Within (map entry_of arrivals) batch

  pub all_failed-candidates :
      (entries : List (PreparedActiveCandidate Outbound))
      → (error : String) → map candidate_of (all_failed entries error) ≡ primaries entries
  unfolding all_failed failed_configs failed_config candidate_of
  all_failed-candidates [] error = refl
  all_failed-candidates (entry ∷ entries) error =
      ap (λ rest. entry.candidate ∷ rest) (all_failed-candidates entries error)

  pub result-candidates :
      (country : String → Option String)
      → (entry : PreparedActiveCandidate Outbound) → (result : ProbeResult)
      → map candidate_of (ranked_configs_for_active_result country entry result)
        ≡ entry.candidate ∷ []
  unfolding ranked_configs_for_active_result successful_config failed_configs failed_config
      candidate_of
  result-candidates country entry (ok active) = refl
  result-candidates country entry (err error) = refl

  pub arrived-map :
      (arrivals : List (Arrival Outbound)) → arrived arrivals ≡ primaries (map entry_of arrivals)
  arrived-map [] = refl
  arrived-map (a ∷ later) = ap (λ rest. a.entry.candidate ∷ rest) (arrived-map later)
