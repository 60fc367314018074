-- ===== src/Prepare.antt =====
-- What is tested: prepare_active_candidates, failed_config and failed_configs of probe.rs. The JSON
-- values of serde_json (`Outbound`), their hash (`outbound_key`, normalized_outbound_key over the
-- standard library's hasher) and the conversion of a share link (`to_outbound`, for
-- sing_box_outbound_from_share_link) are arguments. An index out of range is a panic, `none`.
pub mod Laws
pub mod Dedup
use v2ray_subscription_manag.Prelude.{
  ℕ, zero, suc, ◌+◌, ◌/◌, Bool, true, false, String, List, [], ◌∷◌, ◌++◌, map, Option, none, some,
  lookup, insert, length, take, drop, max_of, if◌then◌else◌,
}
use v2ray_subscription_manag.Model.{Candidate, RankedConfig, ProbeStopPolicy}
use v2ray_subscription_manag.Stop.Prepared.{PreparedActiveCandidate, candidate_count}
use v2ray_subscription_manag.Schedule.{schedule_active_candidates}

pub data Conversion (Outbound : Type 0) : Type 0 where
  ok : Outbound → Conversion Outbound
  err : String → Conversion Outbound

pub record ActivePreparation (Outbound : Type 0) : Type 0 where
  pub prepared : List (PreparedActiveCandidate Outbound)
  pub ranked : List RankedConfig
  pub prepared_candidates : ℕ

unfoldable pub failed_config : Candidate → String → String → RankedConfig
failed_config candidate validation error = record {
  rank = 0;
  stability_count = 0;
  id = candidate.id;
  dedup_key = candidate.dedup_key;
  source = candidate.source;
  priority = candidate.priority;
  protocol = candidate.protocol;
  name = candidate.name;
  endpoint = candidate.endpoint;
  uri = candidate.uri;
  reachable = false;
  validation = validation;
  latency_ms = none;
  http_status = none;
  download_mbps = none;
  download_bytes = none;
  error = some error;
  country_code = none;
}

-- The candidate of a result, as candidates_from_ranked builds it.
unfoldable pub candidate_of : RankedConfig → Candidate
candidate_of r = record {
  id = r.id;
  dedup_key = r.dedup_key;
  source = r.source;
  priority = r.priority;
  protocol = r.protocol;
  name = r.name;
  endpoint = r.endpoint;
  uri = r.uri;
}

unfoldable pub candidates_from_ranked : List RankedConfig → List Candidate
unfolding candidate_of
candidates_from_ranked ranked = map candidate_of ranked

module _ {Outbound : Type 0} where
  unfoldable pub failed_configs :
      PreparedActiveCandidate Outbound → String → String → List RankedConfig
  unfolding failed_config
  failed_configs entry validation error = failed_config entry.candidate validation error ∷ []

  -- The loop of one thread over its chunk.
  unfoldable pub prepare_chunk :
      (String → Conversion Outbound)
      → List Candidate
      → List (PreparedActiveCandidate Outbound) × List RankedConfig
  unfolding failed_config
  prepare_chunk to_outbound [] = ([], [])
  prepare_chunk to_outbound (candidate ∷ rest) =
      let (prepared, ranked) = prepare_chunk to_outbound rest in
      elim (to_outbound candidate.uri) [
        | ok outbound ↦
            (record { candidate = candidate; aliases = []; outbound = outbound } ∷ prepared, ranked)
        | err error ↦ (prepared, failed_config candidate "active_http" error ∷ ranked)
      ]

  -- `scheduled.chunks(chunk_size)`, and the results of the threads in the order of the chunks.
  unfoldable pub prepare_chunks :
      (String → Conversion Outbound)
      → ℕ
      → ℕ
      → List Candidate
      → List (PreparedActiveCandidate Outbound) × List RankedConfig
  unfolding prepare_chunk
  prepare_chunks to_outbound zero chunk_size scheduled = ([], [])
  prepare_chunks to_outbound (suc fuel) chunk_size [] = ([], [])
  prepare_chunks to_outbound (suc fuel) chunk_size (candidate ∷ rest) =
      let (prepared, ranked) = prepare_chunk to_outbound (take chunk_size (candidate ∷ rest)) in
      let (prepared', ranked') =
        prepare_chunks to_outbound fuel chunk_size (drop chunk_size (candidate ∷ rest)) in
      (prepared ++ prepared', ranked ++ ranked')

  -- `deduped[index].aliases.push(entry.candidate)`
  unfoldable pub push_alias :
      ℕ
      → Candidate
      → List (PreparedActiveCandidate Outbound)
      → Option (List (PreparedActiveCandidate Outbound))
  push_alias index candidate [] = none
  push_alias zero candidate (entry ∷ entries) =
      some (record entry { aliases = entry.aliases ++ candidate ∷ [] } ∷ entries)
  push_alias (suc index) candidate (entry ∷ entries) = elim (push_alias index candidate entries) [
    | none ↦ none
    | some entries' ↦ some (entry ∷ entries')
  ]

  unfoldable pub deduplicate :
      (Outbound → String)
      → List (PreparedActiveCandidate Outbound)
      → List (PreparedActiveCandidate Outbound)
      → List (String × ℕ)
      → Option (List (PreparedActiveCandidate Outbound))
  unfolding push_alias lookup insert
  deduplicate outbound_key [] deduped seen_keys = some deduped
  deduplicate outbound_key (entry ∷ rest) deduped seen_keys =
      let key = outbound_key entry.outbound in
      elim (lookup key seen_keys) [
        | some index ↦ elim (push_alias index entry.candidate deduped) [
          | none ↦ none
          | some deduped' ↦ deduplicate outbound_key rest deduped' seen_keys
        ]
        | none ↦
            deduplicate outbound_key rest (deduped ++ entry ∷ [])
              (insert key (length deduped) seen_keys)
      ]

  -- `available` is what available_parallelism reports, 4 if it fails.
  unfoldable pub prepare_active_candidates :
      (String → Conversion Outbound)
      → (Outbound → String)
      → ℕ
      → List Candidate
      → ProbeStopPolicy
      → Option (ActivePreparation Outbound)
  unfolding prepare_chunks deduplicate candidate_count schedule_active_candidates
  prepare_active_candidates to_outbound outbound_key available candidates stop_policy =
      elim (schedule_active_candidates candidates stop_policy) [
        | none ↦ none
        | some scheduled ↦
            let chunk_size = max_of (length scheduled / max_of available 1) 1 in
            let (all_prepared, all_ranked) =
              prepare_chunks to_outbound (length scheduled) chunk_size scheduled in
            elim (deduplicate outbound_key all_prepared [] []) [
              | none ↦ none
              | some deduped ↦ some (record {
                prepared = deduped;
                ranked = all_ranked;
                prepared_candidates = candidate_count deduped;
              })
            ]
      ]
