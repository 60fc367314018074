-- ===== src/Waves.antt =====
-- The waves of batches of an active probe: probe_active_batched of probe.rs, up to the speed tests.
-- A wave is a few batches that run side by side. What their tasks see of each other, and in which
-- order they finish, is an argument (`Surroundings`); the events of a batch are put where its
-- outcome is received, and those of a batch whose outcome is not received are left out.
pub mod Order
pub mod Steps
pub mod Complete
pub mod Reported
pub mod Total
use v2ray_subscription_manag.Prelude.{
  is_some, ℕ, zero, suc, ◌+◌, ◌-◌, Bool, true, false, ◌||◌, String, List, [], ◌∷◌, ◌++◌, Option,
  none, some, length, take, drop, if◌then◌else◌, str_append, saturating_add, u64_max,
}
use v2ray_subscription_manag.Prelude.Decimal.{decimal}
use v2ray_subscription_manag.Model.{
  Candidate, RankedConfig, ProbeStopPolicy, ProgressEvent, live_log,
}
use v2ray_subscription_manag.Stop.Prepared.{PreparedActiveCandidate, candidate_count}
use v2ray_subscription_manag.Stop.{
  ProbeStopState, is_empty, send, initial_stop_state, previous_working_entry_count,
  probe_stop_reason, update_stability_search_after_batch,
}
use v2ray_subscription_manag.Sizer.{
  ActiveBatchSizer, new, next_len, observe, active_probe_process_concurrency,
}
use v2ray_subscription_manag.Prepare.{ActivePreparation, Conversion, prepare_active_candidates}
use v2ray_subscription_manag.Batch.{Attempt, BatchState, batch_text, send_probe_delta}
use v2ray_subscription_manag.Batch.Fallback.{Fallback, probe_active_batch_with_fallback}

pub record Surroundings (Outbound : Type 0) : Type 0 where
  -- The attempts of a batch.
  pub attempts : ℕ → ℕ → List (PreparedActiveCandidate Outbound) → Attempt Outbound
  -- Whether another batch has stored the cancel flag when the outcome of a batch is received.
  pub noticed : ℕ → Bool
  -- The outcomes of a wave in the order in which its batches finish.
  pub order : ℕ → List (ℕ × Fallback Outbound) → List (ℕ × Fallback Outbound)
  -- The text of the time that a wave takes.
  pub wave_time : ℕ → String

-- The variables of the loop. `moment` counts the reads of the policy's cancel flag.
pub record Waves (Outbound : Type 0) : Type 0 where
  pub prepared : List (PreparedActiveCandidate Outbound)
  pub ranked : List RankedConfig
  pub sizer : ActiveBatchSizer
  pub stop_state : ProbeStopState
  pub cancel : Bool
  pub batch_index : ℕ
  pub moment : ℕ
  pub events : List ProgressEvent

abbrev pub prepared_message : ℕ → ℕ → ℕ → String
prepared_message definitions candidates skipped = str_append "Prepared active test: " (
    str_append (decimal definitions) (
      str_append " sing-box definitions represent " (
        str_append (decimal candidates) (
          str_append " loaded configs; "
            (str_append (decimal skipped) " unsupported configs skipped")))))

abbrev pub testing_message : ℕ → ℕ → ℕ → String
testing_message batch_index candidates definitions = batch_text batch_index (
    str_append "testing " (
      str_append (decimal candidates)
        (str_append " configs (" (str_append (decimal definitions) " sing-box definitions)"))))

abbrev pub wave_message : ℕ → String → String
wave_message checked time =
    str_append "Batch wave finished: "
      (str_append (decimal checked) (str_append " configs checked in " time))

-- The reason of a stop, as an event.
abbrev pub send_reason : Bool → Option String → List ProgressEvent
send_reason listening none = []
send_reason listening (some text) = send listening (live_log text)

-- A read of the policy's cancel flag.
abbrev pub flag_at : ProbeStopPolicy → ℕ → Bool
flag_at policy moment = elim policy.cancel_flag [ none ↦ false | some flag ↦ flag moment ]

module _ {Outbound : Type 0} (country : String → Option String) (concurrency : ℕ)
    (policy : ProbeStopPolicy) (listening : Bool) (around : Surroundings Outbound) where
  abbrev pub is_cancelled : Waves Outbound → Bool
  is_cancelled s = s.cancel || flag_at policy s.moment

  -- The batch that is cut off next.
  abbrev pub next_batch : Waves Outbound → List (PreparedActiveCandidate Outbound)
  next_batch s = take (next_len s.sizer (length s.prepared)) s.prepared

  abbrev pub cut : Waves Outbound → Waves Outbound
  cut s = record s {
    prepared = drop (next_len s.sizer (length s.prepared)) s.prepared;
    batch_index = s.batch_index + 1;
    moment = s.moment + 1;
    events =
        s.events
        ++ send listening (
            live_log (
              testing_message (s.batch_index + 1) (candidate_count (next_batch s))
                (length (next_batch s))));
  }

  -- The loop that forms a wave of at most `n` batches, and counts its entries of the previous run.
  unfoldable pub take_wave :
      ℕ
      → ℕ
      → Waves Outbound
      → List (ℕ × List (PreparedActiveCandidate Outbound)) × ℕ × Waves Outbound
  unfolding next_len candidate_count previous_working_entry_count
  take_wave zero working s = ([], working, s)
  take_wave (suc n) working s =
      let (wave, working', s') =
        take_wave n
          (saturating_add u64_max working (previous_working_entry_count (next_batch s) policy))
          (cut s) in
      if is_empty s.prepared || is_cancelled s
      then ([], working, record s { moment = s.moment + 1 })
      else ((s.batch_index + 1, next_batch s) ∷ wave, working', s')

  abbrev pub opened : List (PreparedActiveCandidate Outbound) → BatchState
  opened batch = record {
    stop_state = initial_stop_state batch policy;
    cancel = false;
    events = [];
  }

  -- Each batch of a wave with a stop state of its own. `none`: a batch that runs out of fuel.
  unfoldable pub run_wave :
      List (ℕ × List (PreparedActiveCandidate Outbound)) → Option (List (ℕ × Fallback Outbound))
  unfolding probe_active_batch_with_fallback initial_stop_state
  run_wave [] = some []
  run_wave ((index, batch) ∷ later) =
      elim (probe_active_batch_with_fallback country concurrency policy listening index []
        (around.attempts index) batch (opened batch)) [
          | none ↦ none
          | some outcome ↦ elim (run_wave later) [
            | none ↦ none
            | some outcomes ↦ some ((index, outcome) ∷ outcomes)
          ]
        ]

  abbrev pub received : Fallback Outbound → Waves Outbound → Waves Outbound
  received outcome s = record s {
    sizer = observe s.sizer outcome.stats;
    ranked = s.ranked ++ outcome.ranked;
    events = s.events ++ outcome.shared.events;
  }

  -- The loop over the outcomes.
  unfoldable pub receive : List (ℕ × Fallback Outbound) → Waves Outbound → Waves Outbound
  unfolding observe probe_stop_reason
  receive [] s = s
  receive ((index, outcome) ∷ later) s =
      let s' = received outcome s in
      let (reason, stop_state', events) =
        probe_stop_reason s'.ranked policy s'.stop_state listening in
      let s'' = record s' { stop_state = stop_state'; events = s'.events ++ events } in
      let more = receive later s'' in
      if s.cancel || outcome.shared.cancel || around.noticed index
      then record s' { cancel = true }
      else elim reason [
        | none ↦ more
        | some text ↦ record s'' {
          cancel = true;
          events = s''.events ++ send listening (live_log text);
        }
      ]

  -- The end of a wave: whether the probe stops.
  unfoldable pub close_wave : ℕ → ℕ → Waves Outbound → Bool × Waves Outbound
  unfolding update_stability_search_after_batch probe_stop_reason
  close_wave before working s =
      let (reason, stop_state', events) =
        probe_stop_reason s.ranked policy
          (update_stability_search_after_batch working policy s.stop_state) listening in
      (
        is_some reason,
        record s {
          stop_state = stop_state';
          cancel = is_some reason || s.cancel;
          events =
              s.events
              ++ send listening (
                  live_log
                    (wave_message (length s.ranked - before) (around.wave_time s.batch_index)))
              ++ events
              ++ send_reason listening reason;
        },
      )

  unfoldable pub run_one_wave : ℕ → Waves Outbound → Option (Bool × Waves Outbound)
  unfolding take_wave run_wave receive close_wave
  run_one_wave process_concurrency s =
      let (wave, working, s') = take_wave process_concurrency 0 s in
      elim (run_wave wave) [
        | none ↦ none
        | some outcomes ↦ some (
            close_wave (length s.ranked) working
              (receive (around.order s'.batch_index outcomes) s'))
      ]

  unfoldable pub run_waves : ℕ → ℕ → Waves Outbound → Option (Waves Outbound)
  unfolding run_one_wave
  run_waves zero process_concurrency s = none
  run_waves (suc fuel) process_concurrency s = elim (is_empty s.prepared || is_cancelled s) [
    | true ↦ some s
    | false ↦ elim (run_one_wave process_concurrency (record s { moment = s.moment + 1 })) [
      | none ↦ none
      | some (true, s') ↦ some s'
      | some (false, s') ↦ run_waves fuel process_concurrency s'
    ]
  ]

  -- The variables before the first wave.
  abbrev pub first : Option ℕ → ActivePreparation Outbound → Waves Outbound
  first batch_size p = record {
    prepared = p.prepared;
    ranked = p.ranked;
    sizer = new concurrency batch_size;
    stop_state = initial_stop_state p.prepared policy;
    cancel = false;
    batch_index = 0;
    moment = 0;
    events =
        send listening
          (live_log (prepared_message (length p.prepared) p.prepared_candidates (length p.ranked)))
        ++ send_probe_delta listening (length p.ranked) 0;
  }

  -- The probe of what was prepared. `available` is what available_parallelism reports, 1 if it fails.
  unfoldable pub probe_prepared :
      ℕ → Option ℕ → Option ℕ → ActivePreparation Outbound → Option (Waves Outbound)
  unfolding run_waves active_probe_process_concurrency initial_stop_state new
  probe_prepared available process_limit batch_size p =
      run_waves (length p.prepared + 2) (active_probe_process_concurrency available process_limit)
        (first batch_size p)

  -- `threads` is what available_parallelism reports to the preparation, 4 if it fails.
  unfoldable pub probe_active_batched :
      (String → Conversion Outbound)
      → (Outbound → String)
      → ℕ
      → ℕ
      → Option ℕ
      → Option ℕ
      → List Candidate
      → Option (Waves Outbound)
  unfolding prepare_active_candidates probe_prepared
  probe_active_batched to_outbound outbound_key threads available process_limit batch_size
        candidates =
      elim (prepare_active_candidates to_outbound outbound_key threads candidates policy) [
        | none ↦ none
        | some p ↦ probe_prepared available process_limit batch_size p
      ]
