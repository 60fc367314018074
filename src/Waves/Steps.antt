-- ===== src/Waves/Steps.antt =====
-- The steps of a wave that nothing disturbs: forming it, running its batches, receiving them.
use v2ray_subscription_manag.Prelude.{
  ℕ, zero, suc, ◌≤◌, ◌<◌, Bool, true, false, ◌||◌, String, List, [], ◌∷◌, ◌++◌, map, Option, none,
  some, ◌≡◌, refl, ◌∙◌, sym, subst, Perm, length, length-drop, drop, take-append-drop, map-append,
  append_assoc, append-nil, arith, inl, inr, Bool-cases, saturating_add, u64_max,
}
use mathlib.Core.List.Perm
use v2ray_subscription_manag.Model.{Candidate, RankedConfig, ProbeStopPolicy}
use v2ray_subscription_manag.Stop.{
  update_stability_search_after_batch, ProbeStopState, is_empty, probe_stop_reason,
  previous_working_entry_count,
}
use v2ray_subscription_manag.Stop.Prepared.{PreparedActiveCandidate}
use v2ray_subscription_manag.Sizer.{next_len}
use v2ray_subscription_manag.Sizer.Bounds.{IsValid, observe-IsValid}
use v2ray_subscription_manag.Prepare.{candidate_of}
use v2ray_subscription_manag.Batch.Fallback.{Fallback}
use v2ray_subscription_manag.Batch.Candidates.{primary, primaries}
use v2ray_subscription_manag.Batch.Undisturbed.{IsUndisturbed}
use v2ray_subscription_manag.Batch.Complete.{probe_active_batch_with_fallback_complete}
use v2ray_subscription_manag.Waves.Order.{outcome_candidates, disturbed}
use v2ray_subscription_manag.Waves.{
  Surroundings, Waves, flag_at, is_cancelled, next_batch, cut, take_wave, opened, run_wave,
  received, receive, close_wave,
}

module _ {Outbound : Type 0} where
  abbrev pub wave_candidates : List (ℕ × List (PreparedActiveCandidate Outbound)) → List Candidate
  wave_candidates [] = []
  wave_candidates ((index, batch) ∷ later) = primaries batch ++ wave_candidates later

  -- What forming a wave leaves, and that the wave has the rest.
  pub record IsTaken (s : Waves Outbound)
      (wave : List (ℕ × List (PreparedActiveCandidate Outbound))) (s' : Waves Outbound)
      : Type 0 where
    pub all : wave_candidates wave ++ primaries s'.prepared ≡ primaries s.prepared
    pub ranked : s'.ranked ≡ s.ranked
    pub cancel : s'.cancel ≡ false
    pub sizer : s'.sizer ≡ s.sizer
    pub shorter : length s'.prepared ≤ length s.prepared

  -- What receiving outcomes in which nothing was cancelled does.
  pub record IsReceived (outcomes : List (ℕ × Fallback Outbound)) (s s' : Waves Outbound)
      : Type 0 where
    pub all : map candidate_of s'.ranked ≡ map candidate_of s.ranked ++ outcome_candidates outcomes
    pub prepared : s'.prepared ≡ s.prepared
    pub cancel : s'.cancel ≡ false
    pub valid : IsValid s'.sizer

  pub not_empty :
      (es : List (PreparedActiveCandidate Outbound)) → is_empty es ≡ false → 1 ≤ length es
  not_empty [] full = ground arith
  not_empty (e ∷ es) full = omega arith

  pub empty_list : (es : List (PreparedActiveCandidate Outbound)) → is_empty es ≡ true → es ≡ []
  empty_list [] empty = refl
  empty_list (e ∷ es) empty = ground arith

module _ {Outbound : Type 0} (country : String → Option String) (concurrency : ℕ)
    (policy : ProbeStopPolicy) (listening : Bool) (around : Surroundings Outbound)
    (scan : policy.scan_all_configs ≡ true) (no_flag : policy.cancel_flag ≡ none) where
  pub uncancelled :
      (s : Waves Outbound)
      → s.cancel ≡ false
      → is_cancelled country concurrency policy listening around s ≡ false
  uncancelled s running = simp (running, flag_at, no_flag)

  joined :
      (s : Waves Outbound)
      → (later rest : List Candidate)
      → later ++ rest ≡ primaries (drop (next_len s.sizer (length s.prepared)) s.prepared)
      → (primaries (next_batch country concurrency policy listening around s) ++ later) ++ rest
        ≡ primaries s.prepared
  joined s later rest e =
      rw
        (
          append_assoc (primaries (next_batch country concurrency policy listening around s)) later
              rest,
          e,
          ← map-append primary (next_batch country concurrency policy listening around s)
              (drop (next_len s.sizer (length s.prepared)) s.prepared),
          take-append-drop (next_len s.sizer (length s.prepared)) s.prepared,
        )
        refl

  pub take_wave-IsTaken :
      (n working : ℕ)
      → (s : Waves Outbound) → s.cancel ≡ false
      → let (wave, working', s') =
          take_wave country concurrency policy listening around n working s in
        IsTaken s wave s'
  unfolding take_wave next_len
  take_wave-IsTaken zero working s running = record {
    all = refl;
    ranked = refl;
    cancel = running;
    sizer = refl;
    shorter = omega arith;
  }
  take_wave-IsTaken (suc n) working s running =
      let index = next_len s.sizer (length s.prepared) in
      let later =
        take_wave-IsTaken n
          (saturating_add u64_max working (
            previous_working_entry_count (next_batch country concurrency policy listening around s)
              policy))
          (cut country concurrency policy listening around s) running in
      elim (Bool-cases (is_empty s.prepared)) [
        | inl empty ↦ rw (empty) (record {
          all = refl;
          ranked = refl;
          cancel = running;
          sizer = refl;
          shorter = omega arith;
        })
        | inr full ↦
            rw (full, uncancelled s running)
              (record {
                all = joined s _ _ later.all;
                ranked = later.ranked;
                cancel = later.cancel;
                sizer = later.sizer;
                shorter = omega (arith, later.shorter, length-drop index s.prepared);
              })
      ]

  pub take_wave-shorter :
      (n working : ℕ)
      → (s : Waves Outbound) → s.cancel ≡ false
      → 1 ≤ n
      → IsValid s.sizer
      → is_empty s.prepared ≡ false
      → length (take_wave country concurrency policy listening around n working s).2.prepared
        < length s.prepared
  unfolding take_wave next_len
  take_wave-shorter zero working s running some_batch valid full = ground arith
  take_wave-shorter (suc n) working s running some_batch valid full =
      let index = next_len s.sizer (length s.prepared) in
      let later =
        take_wave-IsTaken n
          (saturating_add u64_max working (
            previous_working_entry_count (next_batch country concurrency policy listening around s)
              policy))
          (cut country concurrency policy listening around s) running in
      let one : 1 ≤ length s.prepared = not_empty s.prepared full in
      let cuts : 1 ≤ index = ground (arith, one, valid.positive) in
      rw (full, uncancelled s running)
        (omega (arith, later.shorter, length-drop index s.prepared, cuts, one))

  pub run_wave-all :
      ((index k : ℕ)
        → (batch : List (PreparedActiveCandidate Outbound))
        → IsUndisturbed batch (around.attempts index k batch))
      → (wave : List (ℕ × List (PreparedActiveCandidate Outbound)))
      → (outcomes : List (ℕ × Fallback Outbound)) × (run_wave country concurrency policy listening
            around wave
          ≡ some outcomes)
        × Perm (outcome_candidates outcomes) (wave_candidates wave)
        × (disturbed outcomes ≡ 0)
  unfolding run_wave
  run_wave-all undisturbed [] = ([], refl, Perm.refl [], refl)
  run_wave-all undisturbed ((index, batch) ∷ later) =
      let (outcome, result, all, calm) =
        probe_active_batch_with_fallback_complete country concurrency policy listening index scan []
          (around.attempts index) (undisturbed index) batch
          (opened country concurrency policy listening around batch) refl in
      let (outcomes, results, every, quiet) = run_wave-all undisturbed later in
      (
        (index, outcome) ∷ outcomes,
        rw (run_wave, result, results) refl,
        Perm.append all every,
        rw (calm) quiet,
      )

  probe_stop_reason-scan :
      (ranked : List RankedConfig)
      → (state : ProbeStopState)
      → probe_stop_reason ranked policy state listening ≡ (none, state, [])
  unfolding probe_stop_reason
  probe_stop_reason-scan ranked state = simp (scan)

  abbrev after : Fallback Outbound → Waves Outbound → Waves Outbound
  after outcome s =
      let s' = received country concurrency policy listening around outcome s in
      record s' { stop_state = s'.stop_state; events = s'.events ++ [] }

  receive-next :
      (index : ℕ)
      → (outcome : Fallback Outbound) → (later : List (ℕ × Fallback Outbound))
      → (s : Waves Outbound) → (s.cancel || outcome.shared.cancel || around.noticed index) ≡ false
      → receive country concurrency policy listening around ((index, outcome) ∷ later) s
        ≡ receive country concurrency policy listening around later (after outcome s)
  unfolding receive
  receive-next index outcome later s seen =
      simp (seen, probe_stop_reason-scan (s.ranked ++ outcome.ranked) s.stop_state)

  receive-nothing :
      (s : Waves Outbound) → receive country concurrency policy listening around [] s ≡ s
  unfolding receive
  receive-nothing s = refl

  pub receive-IsReceived :
      ((index : ℕ) → around.noticed index ≡ false)
      → (outcomes : List (ℕ × Fallback Outbound)) → (s : Waves Outbound) → disturbed outcomes ≡ 0
      → s.cancel ≡ false
      → IsValid s.sizer
      → IsReceived outcomes s (receive country concurrency policy listening around outcomes s)
  receive-IsReceived alone [] s calm running valid =
      subst (IsReceived [] s) (sym (receive-nothing s)) (record {
        all = sym (append-nil (map candidate_of s.ranked));
        prepared = refl;
        cancel = running;
        valid = valid;
      })
  receive-IsReceived alone ((index, outcome) ∷ later) s calm running valid =
      let quiet : outcome.shared.cancel ≡ false = ground (arith, calm) in
      let calm' : disturbed later ≡ 0 = ground (arith, calm, quiet) in
      let seen : (s.cancel || outcome.shared.cancel || around.noticed index) ≡ false =
        simp (running, quiet, alone index) in
      let more =
        receive-IsReceived alone later (after outcome s) calm' running
          (observe-IsValid s.sizer outcome.stats valid) in
      let e : map candidate_of (s.ranked ++ outcome.ranked) ++ outcome_candidates later
          ≡ map candidate_of s.ranked
            ++ (map candidate_of outcome.ranked ++ outcome_candidates later) =
        rw
          (
            map-append candidate_of s.ranked outcome.ranked,
            append_assoc (map candidate_of s.ranked) (map candidate_of outcome.ranked)
                (outcome_candidates later),
          )
          refl in
      subst (IsReceived ((index, outcome) ∷ later) s)
        (sym (receive-next index outcome later s seen))
        (record {
          all = more.all ∙ e;
          prepared = more.prepared;
          cancel = more.cancel;
          valid = more.valid;
        })

  pub close_wave-scan :
      (before working : ℕ)
      → (s : Waves Outbound)
      → let (stopped, s') =
          close_wave country concurrency policy listening around before working s in
        (stopped ≡ false)
        × (s'.ranked ≡ s.ranked)
        × (s'.prepared ≡ s.prepared)
        × (s'.cancel ≡ s.cancel)
        × (s'.sizer ≡ s.sizer)
  unfolding close_wave
  close_wave-scan before working s =
      let e =
        probe_stop_reason-scan s.ranked
          (update_stability_search_after_batch working policy s.stop_state) in
      (simp (e), refl, refl, simp (e), refl)
