-- ===== src/Waves/Total.antt =====
-- The waves end: each takes an entry, or sees the cancel flag set, which stays set.
use v2ray_subscription_manag.Prelude.{
  ℕ, zero, suc, ◌+◌, ◌≤◌, ◌<◌, Bool, true, false, ◌||◌, String, List, [], ◌∷◌, ◌++◌, Option, some,
  ◌≡◌, ◌⊎◌, refl, ◌∙◌, ap, sym, subst, length, length-drop, arith, inl, inr, Bool-cases,
  Option-cases, saturating_add, u64_max,
}
use v2ray_subscription_manag.Model.{Candidate, ProbeStopPolicy}
use v2ray_subscription_manag.Stop.{is_empty, probe_stop_reason, previous_working_entry_count}
use v2ray_subscription_manag.Stop.Prepared.{PreparedActiveCandidate}
use v2ray_subscription_manag.Sizer.{next_len, active_probe_process_concurrency}
use v2ray_subscription_manag.Sizer.Bounds.{
  IsValid, new-IsValid, observe-IsValid, concurrency_bounds,
}
use v2ray_subscription_manag.Prepare.{Conversion}
use v2ray_subscription_manag.Prepare.Dedup.{prepare_active_candidates_lem}
use v2ray_subscription_manag.Batch.Fallback.{Fallback}
use v2ray_subscription_manag.Batch.Total.{probe_active_batch_with_fallback-total}
use v2ray_subscription_manag.Waves.{
  Surroundings, Waves, flag_at, is_cancelled, next_batch, cut, opened, take_wave, run_wave,
  received, receive, close_wave, run_one_wave, run_waves, first, probe_prepared,
  probe_active_batched,
}
use v2ray_subscription_manag.Waves.Steps.{not_empty}

or_later : (b f g : Bool) → (b || f) ≡ true → (f ≡ true → g ≡ true) → (b || g) ≡ true
or_later true f g set stays = refl
or_later false f g set stays = stays set

or_kept : (b c f : Bool) → (b || f) ≡ true → (b ≡ true → c ≡ true) → (c || f) ≡ true
or_kept true c f set kept = rw (kept refl) refl
or_kept false true f set kept = refl
or_kept false false f set kept = set

or_right : (a b : Bool) → b ≡ true → (a || b) ≡ true
or_right true b set = refl
or_right false b set = set

or_false : (a b : Bool) → (a || b) ≡ false → (a ≡ false) × (b ≡ false)
or_false true b unset = ground (arith, unset)
or_false false b unset = (refl, unset)

module _ {Outbound : Type 0} where
  -- What receiving the outcomes of a wave leaves alone.
  record IsAfter (s s' : Waves Outbound) : Type 0 where
    pub prepared : s'.prepared ≡ s.prepared
    pub moment : s'.moment ≡ s.moment
    pub cancel : s.cancel ≡ true → s'.cancel ≡ true
    pub valid : IsValid s.sizer → IsValid s'.sizer

module _ {Outbound : Type 0} (country : String → Option String) (concurrency : ℕ)
    (policy : ProbeStopPolicy) (listening : Bool) (around : Surroundings Outbound) where
  receive-IsAfter :
      (outcomes : List (ℕ × Fallback Outbound))
      → (s : Waves Outbound)
      → IsAfter s (receive country concurrency policy listening around outcomes s)
  unfolding receive
  receive-IsAfter [] s = record { prepared = refl; moment = refl; cancel = λ c. c; valid = λ v. v }
  receive-IsAfter ((index, outcome) ∷ later) s =
      let s1 = received country concurrency policy listening around outcome s in
      let check = probe_stop_reason s1.ranked policy s1.stop_state listening in
      let valid = λ (v : IsValid s.sizer). observe-IsValid s.sizer outcome.stats v in
      let s2 : Waves Outbound = record s1 { stop_state = check.1; events = s1.events ++ check.2 } in
      let more = receive-IsAfter later s2 in
      elim (Bool-cases (s.cancel || outcome.shared.cancel || around.noticed index)) [
        | inl seen ↦
            rw (seen) (record { prepared = refl; moment = refl; cancel = λ c. refl; valid = valid })
        | inr unseen ↦ elim (Option-cases check.0) [
          | inl none_yet ↦
              rw (unseen, none_yet)
                (record {
                  prepared = more.prepared;
                  moment = more.moment;
                  cancel = more.cancel;
                  valid = λ v. more.valid (valid v);
                })
          | inr (text, stop) ↦
              rw (unseen, stop)
                (record { prepared = refl; moment = refl; cancel = λ c. refl; valid = valid })
        ]
      ]

  take_wave-shrinks :
      (n working : ℕ)
      → (s : Waves Outbound)
      → let s' = (take_wave country concurrency policy listening around n working s).2 in
        (length s'.prepared ≤ length s.prepared) × (s'.sizer ≡ s.sizer) × (s'.cancel ≡ s.cancel)
  unfolding take_wave
  take_wave-shrinks zero working s = (omega arith, refl, refl)
  take_wave-shrinks (suc n) working s =
      let later =
        take_wave-shrinks n
          (saturating_add u64_max working (
            previous_working_entry_count (next_batch country concurrency policy listening around s)
              policy))
          (cut country concurrency policy listening around s) in
      elim (Bool-cases
        (is_empty s.prepared || is_cancelled country concurrency policy listening around s)) [
          | inl stop ↦ rw (stop) (omega arith, refl, refl)
          | inr going ↦ rw (going) (
            omega (arith, later.0, length-drop (next_len s.sizer (length s.prepared)) s.prepared),
            later.1,
            later.2,
          )
        ]

  run_wave-total :
      (wave : List (ℕ × List (PreparedActiveCandidate Outbound)))
      → (outcomes : List (ℕ × Fallback Outbound)) × (run_wave country concurrency policy listening
            around wave
          ≡ some outcomes)
  unfolding run_wave
  run_wave-total [] = ([], refl)
  run_wave-total ((index, batch) ∷ later) =
      let (outcome, result) =
        probe_active_batch_with_fallback-total country concurrency policy listening index []
          (around.attempts index) batch
          (opened country concurrency policy listening around batch) in
      let (outcomes, results) = run_wave-total later in
      ((index, outcome) ∷ outcomes, rw (run_wave, result, results) refl)

  close_wave-IsAfter :
      (before working : ℕ)
      → (s : Waves Outbound)
      → IsAfter s (close_wave country concurrency policy listening around before working s).1
  unfolding close_wave
  close_wave-IsAfter before working s = record {
    prepared = refl;
    moment = refl;
    cancel = λ c. ground (arith, c);
    valid = λ v. v;
  }

  -- An entry is taken, or the flag was set.
  abbrev IsShorter : Waves Outbound → Waves Outbound → Type 0
  IsShorter s s' =
      (length s'.prepared < length s.prepared)
      ⊎ ((s'.prepared ≡ s.prepared)
          × (is_cancelled country concurrency policy listening around s' ≡ true))

  module _ (stays : (k : ℕ) → flag_at policy k ≡ true → flag_at policy (k + 1) ≡ true) where
    take_wave-IsShorter :
        (n working : ℕ)
        → (s : Waves Outbound) → 1 ≤ n
        → IsValid s.sizer
        → is_empty s.prepared ≡ false
        → IsShorter s (take_wave country concurrency policy listening around n working s).2
    unfolding take_wave next_len
    take_wave-IsShorter zero working s some_batch valid full = ground arith
    take_wave-IsShorter (suc n) working s some_batch valid full =
        elim (Bool-cases (is_cancelled country concurrency policy listening around s)) [
          | inl set ↦ rw (full, set) (inr (refl, or_later s.cancel _ _ set (stays s.moment)))
          | inr going ↦
              let later =
                take_wave-shrinks n
                  (saturating_add u64_max working (
                    previous_working_entry_count
                      (next_batch country concurrency policy listening around s) policy))
                  (cut country concurrency policy listening around s) in
              let one = not_empty s.prepared full in
              let index = next_len s.sizer (length s.prepared) in
              let cuts : 1 ≤ index = ground (arith, one, valid.positive) in
              rw (full, going)
                (inl (omega (arith, later.0, length-drop index s.prepared, cuts, one)))
        ]

    after-IsShorter : (s s1 s2 : Waves Outbound) → IsShorter s s1 → IsAfter s1 s2 → IsShorter s s2
    after-IsShorter s s1 s2 (inl shorter) after =
        inl (omega (arith, shorter, ap length after.prepared))
    after-IsShorter s s1 s2 (inr (same, set)) after = inr (
      after.prepared ∙ same,
      rw (after.moment) (or_kept s1.cancel s2.cancel (flag_at policy s1.moment) set after.cancel),
    )

    run_one_wave-ends :
        (n : ℕ)
        → (s : Waves Outbound) → 1 ≤ n
        → IsValid s.sizer
        → is_empty s.prepared ≡ false
        → (stopped : Bool) × (s' : Waves Outbound) × (run_one_wave country concurrency policy
              listening around n s
            ≡ some (stopped, s'))
          × IsShorter s s'
          × IsValid s'.sizer
    unfolding run_one_wave
    run_one_wave-ends n s some_batch valid full =
        let (wave, working, s1) = take_wave country concurrency policy listening around n 0 s in
        let (outcomes, ran) = run_wave-total wave in
        let ordered = around.order s1.batch_index outcomes in
        let s2 = receive country concurrency policy listening around ordered s1 in
        let closed =
          close_wave country concurrency policy listening around (length s.ranked) working s2 in
        let got = receive-IsAfter ordered s1 in
        let close = close_wave-IsAfter (length s.ranked) working s2 in
        let valid1 = subst IsValid (sym (take_wave-shrinks n 0 s).1) valid in
        (
          closed.0,
          closed.1,
          rw (run_one_wave, ran) refl,
          after-IsShorter s s2 closed.1
              (after-IsShorter s s1 s2 (take_wave-IsShorter n 0 s some_batch valid full) got) close,
          close.valid (got.valid valid1),
        )

    abbrev IsEnough : ℕ → Waves Outbound → Type 0
    IsEnough fuel s =
        (length s.prepared + 1 < fuel)
        ⊎ ((1 ≤ fuel) × (is_cancelled country concurrency policy listening around s ≡ true))

    less-IsEnough :
        (fuel : ℕ)
        → (s s' : Waves Outbound) → length s.prepared + 1 < suc fuel
        → IsShorter s s'
        → IsEnough fuel s'
    less-IsEnough fuel s s' enough (inl shorter) = inl (omega (arith, shorter))
    less-IsEnough fuel s s' enough (inr (same, set)) = inr (omega arith, set)

    run_waves-ends :
        (fuel n : ℕ)
        → (s : Waves Outbound) → 1 ≤ n
        → IsValid s.sizer
        → IsEnough fuel s
        → (final : Waves Outbound) × (run_waves country concurrency policy listening around fuel n s
            ≡ some final)
    unfolding run_waves
    run_waves-ends zero n s some_batch valid (inl enough) = ground arith
    run_waves-ends zero n s some_batch valid (inr (enough, set)) = ground arith
    run_waves-ends (suc fuel) n s some_batch valid (inr (enough, set)) =
        (s, rw (run_waves, or_right (is_empty s.prepared) _ set) refl)
    run_waves-ends (suc fuel) n s some_batch valid (inl enough) =
        let stop =
          is_empty s.prepared || is_cancelled country concurrency policy listening around s in
        let ticked : Waves Outbound = record s { moment = s.moment + 1 } in
        elim (Bool-cases stop) [
          | inl stops ↦ (s, rw (run_waves, stops) refl)
          | inr going ↦
              let full = (or_false (is_empty s.prepared) _ going).0 in
              let (stopped, s', one, shorter, valid') =
                run_one_wave-ends n ticked some_batch valid full in
              elim (Bool-cases stopped) [
                | inl yes_it_is ↦ (s', rw (run_waves, going, one, yes_it_is) refl)
                | inr goes_on ↦
                    let (final, result) =
                      run_waves-ends fuel n s' some_batch valid'
                        (less-IsEnough fuel ticked s' enough shorter) in
                    let again : run_waves country concurrency policy listening around (suc fuel) n s
                        ≡ run_waves country concurrency policy listening around fuel n s' =
                      rw (run_waves, going, one, goes_on) refl in
                    (final, again ∙ result)
              ]
        ]

    -- If the policy's cancel flag stays set once it is set: whatever the attempts of the batches do
    -- and whatever they see of each other, the waves of an active probe end within the fuel that the
    -- model gives, and nothing panics.
    pub probe_active_batched-total :
        (to_outbound : String → Conversion Outbound)
        → (outbound_key : Outbound → String) → (threads available : ℕ)
        → (process_limit batch_size : Option ℕ) → (candidates : List Candidate)
        → (final : Waves Outbound) × (probe_active_batched country concurrency policy listening
              around to_outbound outbound_key threads available process_limit batch_size candidates
            ≡ some final)
    unfolding probe_active_batched probe_prepared
    probe_active_batched-total to_outbound outbound_key threads available process_limit batch_size
          candidates =
        let (p, prepared, counted, distinct, size) =
          prepare_active_candidates_lem outbound_key to_outbound threads candidates policy in
        let (final, result) =
          run_waves-ends (length p.prepared + 2)
            (active_probe_process_concurrency available process_limit)
            (first country concurrency policy listening around batch_size p)
            (concurrency_bounds 0 0 available process_limit).3 (new-IsValid concurrency batch_size)
            (inl (omega arith)) in
        (final, rw (probe_active_batched, prepared) result)
