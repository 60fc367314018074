-- ===== src/Waves/Complete.antt =====
-- A probe that nothing stops: the waves end, and every prepared entry gets a result.
use v2ray_subscription_manag.Prelude.{
  ℕ, zero, suc, ◌+◌, ◌≤◌, ◌<◌, Bool, true, false, ◌||◌, String, List, ◌++◌, map, Option, none, some,
  ◌≡◌, refl, ◌∙◌, ap, sym, subst, Perm, length, append_assoc, append-nil, arith, inl, inr,
  Bool-cases,
}
use mathlib.Core.List.Perm
use v2ray_subscription_manag.Model.{Candidate, ProbeStopPolicy}
use v2ray_subscription_manag.Stop.{is_empty}
use v2ray_subscription_manag.Stop.Prepared.{PreparedActiveCandidate}
use v2ray_subscription_manag.Sizer.{active_probe_process_concurrency}
use v2ray_subscription_manag.Sizer.Bounds.{IsValid, new-IsValid, concurrency_bounds}
use v2ray_subscription_manag.Prepare.{candidate_of, ActivePreparation}
use v2ray_subscription_manag.Prepare.Laws.{perm_of_eq}
use v2ray_subscription_manag.Batch.Fallback.{Fallback}
use v2ray_subscription_manag.Batch.Candidates.{primaries}
use v2ray_subscription_manag.Batch.Undisturbed.{IsUndisturbed}
use v2ray_subscription_manag.Waves.Order.{
  outcome_candidates, outcome_candidates-perm, disturbed-perm,
}
use v2ray_subscription_manag.Waves.{
  Surroundings, Waves, is_cancelled, take_wave, receive, close_wave, run_one_wave, run_waves,
  probe_prepared,
}
use v2ray_subscription_manag.Waves.Steps.{
  wave_candidates, empty_list, uncancelled, take_wave-IsTaken, take_wave-shorter, run_wave-all,
  receive-IsReceived, close_wave-scan,
}

module _ {Outbound : Type 0} where
  -- The results so far and the entries that wait are those of `all`.
  record IsOngoing (all : List Candidate) (s : Waves Outbound) : Type 0 where
    pub together : Perm (map candidate_of s.ranked ++ primaries s.prepared) all
    pub cancel : s.cancel ≡ false
    pub valid : IsValid s.sizer

module _ {Outbound : Type 0} (country : String → Option String) (concurrency : ℕ)
    (policy : ProbeStopPolicy) (listening : Bool) (around : Surroundings Outbound)
    (scan : policy.scan_all_configs ≡ true) (no_flag : policy.cancel_flag ≡ none) where
  module _ (alone : (index : ℕ) → around.noticed index ≡ false)
      (reorders : (wave : ℕ)
        → (outcomes : List (ℕ × Fallback Outbound)) → Perm (around.order wave outcomes) outcomes)
      (undisturbed : (index k : ℕ)
        → (batch : List (PreparedActiveCandidate Outbound))
        → IsUndisturbed batch (around.attempts index k batch)) where
    run_one_wave-IsOngoing :
        (n : ℕ)
        → (all : List Candidate) → (s : Waves Outbound) → 1 ≤ n
        → is_empty s.prepared ≡ false
        → IsOngoing all s
        → (s' : Waves Outbound) × (run_one_wave country concurrency policy listening around n s
            ≡ some (false, s'))
          × IsOngoing all s'
          × (length s'.prepared < length s.prepared)
    unfolding run_one_wave
    run_one_wave-IsOngoing n all s some_batch full ongoing =
        let (wave, working, s1) = take_wave country concurrency policy listening around n 0 s in
        let taken =
          take_wave-IsTaken country concurrency policy listening around scan no_flag n 0 s
            ongoing.cancel in
        let (outcomes, ran, every, calm) =
          run_wave-all country concurrency policy listening around scan no_flag undisturbed wave in
        let ordered = around.order s1.batch_index outcomes in
        let shuffled = reorders s1.batch_index outcomes in
        let s2 = receive country concurrency policy listening around ordered s1 in
        let got =
          receive-IsReceived country concurrency policy listening around scan no_flag alone ordered
            s1 (disturbed-perm shuffled ∙ calm) taken.cancel
            (subst IsValid (sym taken.sizer) ongoing.valid) in
        let closed =
          close_wave-scan country concurrency policy listening around scan no_flag (length s.ranked)
            working s2 in
        let results : Perm (outcome_candidates ordered) (wave_candidates wave) =
          Perm.trans (outcome_candidates-perm shuffled) every in
        let s3 =
          (close_wave country concurrency policy listening around (length s.ranked) working s2).1 in
        let found : map candidate_of s3.ranked
            ≡ map candidate_of s.ranked ++ outcome_candidates ordered =
          ap (map candidate_of) closed.1
          ∙ (got.all ∙ ap (λ r. map candidate_of r ++ outcome_candidates ordered) taken.ranked) in
        let left : s3.prepared ≡ s1.prepared = closed.2 ∙ got.prepared in
        let moved : Perm
            ((map candidate_of s.ranked ++ outcome_candidates ordered) ++ primaries s1.prepared)
            all =
          rw
            (append_assoc (map candidate_of s.ranked) (outcome_candidates ordered)
              (primaries s1.prepared))
            (Perm.trans
              (Perm.append_left (map candidate_of s.ranked) (
                Perm.trans (Perm.append_right (primaries s1.prepared) results)
                  (perm_of_eq taken.all)))
              ongoing.together) in
        let result : run_one_wave country concurrency policy listening around n s
            ≡ some (
                close_wave country concurrency policy listening around (length s.ranked) working
                  s2) =
          rw (run_one_wave, ran) refl in
        (
          s3,
          result ∙ ap (λ b. some (b, s3)) closed.0,
          record {
            together = rw (found, ap primaries left) moved;
            cancel = closed.3 ∙ got.cancel;
            valid = subst IsValid (sym closed.4) got.valid;
          },
          omega (
            arith,
            ap length left,
            take_wave-shorter country concurrency policy listening around scan no_flag n 0 s
                ongoing.cancel some_batch ongoing.valid full,
          ),
        )

    run_waves_complete :
        (fuel n : ℕ)
        → (all : List Candidate) → (s : Waves Outbound) → 1 ≤ n
        → length s.prepared < fuel
        → IsOngoing all s
        → (final : Waves Outbound) × (run_waves country concurrency policy listening around fuel n s
            ≡ some final)
          × Perm (map candidate_of final.ranked) all
    unfolding run_waves
    run_waves_complete zero n all s some_batch enough ongoing = ground arith
    run_waves_complete (suc fuel) n all s some_batch enough ongoing =
        let ticked : Waves Outbound = record s { moment = s.moment + 1 } in
        let ongoing' : IsOngoing all ticked = record {
          together = ongoing.together;
          cancel = ongoing.cancel;
          valid = ongoing.valid;
        } in
        elim (Bool-cases (is_empty s.prepared)) [
          | inl empty ↦ (
            s,
            rw (run_waves, empty) refl,
            rw⁻¹ (append-nil (map candidate_of s.ranked)) (
                subst (λ es. Perm (map candidate_of s.ranked ++ primaries es) all)
                  (empty_list s.prepared empty) ongoing.together),
          )
          | inr full ↦
              let (s', one, ongoing'', shorter) =
                run_one_wave-IsOngoing n all ticked some_batch full ongoing' in
              let (final, result, found) =
                run_waves_complete fuel n all s' some_batch (omega (arith, shorter)) ongoing'' in
              let open_still : (is_empty s.prepared
                    || is_cancelled country concurrency policy listening around s)
                  ≡ false =
                rw (full) (
                  uncancelled country concurrency policy listening around scan no_flag s
                    ongoing.cancel) in
              let again : run_waves country concurrency policy listening around (suc fuel) n s
                  ≡ run_waves country concurrency policy listening around fuel n s' =
                rw (run_waves, open_still, one) refl in
              (final, again ∙ result, found)
        ]

    -- The results are those of the preparation and one for each entry.
    pub probe_prepared_complete :
        (available : ℕ)
        → (process_limit batch_size : Option ℕ) → (p : ActivePreparation Outbound)
        → (final : Waves Outbound) × (probe_prepared country concurrency policy listening around
              available process_limit batch_size p
            ≡ some final)
          × Perm (map candidate_of final.ranked) (map candidate_of p.ranked ++ primaries p.prepared)
    unfolding probe_prepared
    probe_prepared_complete available process_limit batch_size p =
        run_waves_complete (length p.prepared + 2)
          (active_probe_process_concurrency available process_limit)
          (map candidate_of p.ranked ++ primaries p.prepared) _
          (concurrency_bounds 0 0 available process_limit).3 (omega arith)
          (record {
            together = Perm.refl _;
            cancel = refl;
            valid = new-IsValid concurrency batch_size;
          })
