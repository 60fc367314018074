-- ===== src/Waves/Reported.antt =====
-- From the candidates of a probe to its results.
use v2ray_subscription_manag.Prelude.{
  ℕ, List, [], ◌∷◌, ◌++◌, map, Option, none, some, Bool, true, false, String, ◌≡◌, Perm,
  append_assoc, perm_exchange,
}
use mathlib.Core.List.{perm_append_comm}
use mathlib.Core.List.Perm
use v2ray_subscription_manag.Model.{Candidate, ProbeStopPolicy}
use v2ray_subscription_manag.Stop.Prepared.{PreparedActiveCandidate}
use v2ray_subscription_manag.Prepare.{
  Conversion, ActivePreparation, candidate_of, prepare_active_candidates,
}
use v2ray_subscription_manag.Prepare.Laws.{members}
use v2ray_subscription_manag.Prepare.Dedup.{prepare_active_candidates_lem}
use v2ray_subscription_manag.Batch.Candidates.{primaries}
use v2ray_subscription_manag.Batch.Fallback.{Fallback}
use v2ray_subscription_manag.Batch.Undisturbed.{IsUndisturbed}
use v2ray_subscription_manag.Waves.{Surroundings, Waves, probe_active_batched}
use v2ray_subscription_manag.Waves.Complete.{probe_prepared_complete}

module _ {Outbound : Type 0} where
  abbrev pub all_aliases : List (PreparedActiveCandidate Outbound) → List Candidate
  all_aliases [] = []
  all_aliases (entry ∷ entries) = entry.aliases ++ all_aliases entries

  members-perm :
      (entries : List (PreparedActiveCandidate Outbound))
      → Perm (members entries) (primaries entries ++ all_aliases entries)
  members-perm [] = Perm.refl []
  members-perm (entry ∷ entries) =
      Perm.trans (Perm.append_left (entry.candidate ∷ entry.aliases) (members-perm entries)) (
        perm_exchange (entry.candidate ∷ []) entry.aliases (primaries entries)
          (all_aliases entries))

  module _ (country : String → Option String) (concurrency : ℕ) (policy : ProbeStopPolicy)
      (around : Surroundings Outbound) (scan : policy.scan_all_configs ≡ true)
      (no_flag : policy.cancel_flag ≡ none) (alone : (index : ℕ) → around.noticed index ≡ false)
      (reorders : (wave : ℕ)
        → (outcomes : List (ℕ × Fallback Outbound)) → Perm (around.order wave outcomes) outcomes)
      (undisturbed : (index k : ℕ)
        → (batch : List (PreparedActiveCandidate Outbound))
        → IsUndisturbed batch (around.attempts index k batch)) where
    -- With `scan_all_configs` and no outer cancel flag, and when nobody cancels and each probe of a
    -- batch that was started finishes: whatever the starts of sing-box do, and in whatever order the
    -- batches of a wave finish, the probe ends, and each candidate either has exactly one result or
    -- is an alias of a prepared entry.
    pub probe_active_batched_reports :
        (to_outbound : String → Conversion Outbound)
        → (outbound_key : Outbound → String) → (listening : Bool) → (threads available : ℕ)
        → (process_limit batch_size : Option ℕ) → (candidates : List Candidate)
        → (p : ActivePreparation Outbound) × (final : Waves Outbound) × (prepare_active_candidates
              to_outbound outbound_key threads candidates policy
            ≡ some p)
          × (probe_active_batched country concurrency policy listening around to_outbound
                outbound_key threads available process_limit batch_size candidates
              ≡ some final)
          × Perm (map candidate_of final.ranked ++ all_aliases p.prepared) candidates
    unfolding probe_active_batched
    probe_active_batched_reports to_outbound outbound_key listening threads available process_limit
          batch_size candidates =
        let (p, prepared, counted, distinct, size) =
          prepare_active_candidates_lem outbound_key to_outbound threads candidates policy in
        let (final, result, found) =
          probe_prepared_complete country concurrency policy listening around scan no_flag alone
            reorders undisturbed available process_limit batch_size p in
        let failed = map candidate_of p.ranked in
        let others = all_aliases p.prepared in
        let together : Perm ((failed ++ primaries p.prepared) ++ others) candidates =
          rw (append_assoc failed (primaries p.prepared) others) (
            Perm.trans (perm_append_comm failed (primaries p.prepared ++ others)) (
              Perm.trans (Perm.append_right failed (Perm.symm (members-perm p.prepared)))
                counted)) in
        (
          p,
          final,
          prepared,
          rw (probe_active_batched, prepared) result,
          Perm.trans (Perm.append_right others found) together,
        )
