-- ===== src/Prefilter/Reported.antt =====
-- The two stages together lose no candidate.
use v2ray_subscription_manag.Prelude.{
  ℕ, ◌+◌, Bool, true, false, not, String, List, [], ◌∷◌, ◌++◌, map, Option, none, some, ◌≡◌, refl,
  ap, sym, Perm, append_assoc, append-nil, map-append, perm_exchange, perm_middle, keep, min_of,
  inl, inr, Bool-cases, List-cases, subst,
}
use mathlib.Core.List.{perm_append_comm}
use mathlib.Core.List.Perm
use v2ray_subscription_manag.Model.{Candidate, RankedConfig, ProbeStopPolicy}
use v2ray_subscription_manag.Stop.{is_empty}
use v2ray_subscription_manag.Stop.Prepared.{PreparedActiveCandidate}
use v2ray_subscription_manag.Prepare.{
  Conversion, ActivePreparation, candidate_of, candidates_from_ranked, prepare_active_candidates,
}
use v2ray_subscription_manag.Prepare.Laws.{perm_of_eq}
use v2ray_subscription_manag.Batch.Fallback.{Fallback}
use v2ray_subscription_manag.Batch.Undisturbed.{IsUndisturbed}
use v2ray_subscription_manag.Waves.{Surroundings, Waves, flag_at}
use v2ray_subscription_manag.Waves.Reported.{all_aliases, probe_active_batched_reports}
use v2ray_subscription_manag.Prefilter.{
  Connection, connected, refused, timed_out, is_udp, tcp_testable, prefilter_timeout, probe_tcp,
  sweep, screen, later_reads, probe_active_with_tcp_prefilter,
}

abbrev pub target : Candidate × Connection → Candidate
target connect = connect.0

probe_tcp-candidate :
    (timeout : ℕ)
    → (c : Candidate) → (connection : Connection)
    → candidate_of (probe_tcp timeout c connection) ≡ c
unfolding probe_tcp candidate_of
probe_tcp-candidate timeout c (connected latency country) = refl
probe_tcp-candidate timeout c (refused error) = refl
probe_tcp-candidate timeout c timed_out = refl

keep-perm {ℓ} :
    {A : Type ℓ} (p : A → Bool) (xs : List A) → Perm (keep p xs ++ keep (λ x. not (p x)) xs) xs
keep-perm p [] = Perm.refl []
keep-perm p (x ∷ xs) = elim (Bool-cases (p x)) [
  | inl e ↦ rw (e) (Perm.cons x (keep-perm p xs))
  | inr e ↦ rw (e) (
      Perm.trans (perm_middle (keep p xs) (keep (λ y. not (p y)) xs))
        (Perm.cons x (keep-perm p xs)))
]

module _ (policy : ProbeStopPolicy) (no_flag : policy.cancel_flag ≡ none) (timeout : ℕ) where
  abbrev found : List RankedConfig → List RankedConfig → List Candidate
  found reachable dead = map candidate_of reachable ++ map candidate_of dead

  unset : (moment : ℕ) → flag_at policy moment ≡ false
  unset moment = simp (flag_at, no_flag)

  moved_found :
      (reachable dead : List RankedConfig)
      → (result : RankedConfig) → (later : List Candidate)
      → Perm
          (found (reachable ++ result ∷ []) dead ++ later)
          (found reachable dead ++ candidate_of result ∷ later)
  moved_found reachable dead result later =
      rw
        (
          map-append candidate_of reachable (result ∷ []),
          append_assoc (map candidate_of reachable ++ candidate_of result ∷ [])
              (map candidate_of dead) later,
        )
        (perm_exchange (map candidate_of reachable) (candidate_of result ∷ [])
          (map candidate_of dead) later)

  moved_dead :
      (reachable dead : List RankedConfig)
      → (result : RankedConfig) → (later : List Candidate)
      → found reachable (dead ++ result ∷ []) ++ later
        ≡ found reachable dead ++ candidate_of result ∷ later
  moved_dead reachable dead result later =
      rw
        (
          map-append candidate_of dead (result ∷ []),
          ← append_assoc (map candidate_of reachable) (map candidate_of dead)
              (candidate_of result ∷ []),
          append_assoc (found reachable dead) (candidate_of result ∷ []) later,
        )
        refl

  sweep-perm :
      (connects : List (Candidate × Connection))
      → (moment : ℕ) → (reachable dead : List RankedConfig)
      → let (reachable', dead', moment') = sweep policy timeout connects moment reachable dead in
        Perm (found reachable' dead') (found reachable dead ++ map target connects)
  unfolding sweep
  sweep-perm [] moment reachable dead = perm_of_eq (sym (append-nil (found reachable dead)))
  sweep-perm ((c, connection) ∷ later) moment reachable dead =
      let result = probe_tcp timeout c connection in
      let same = probe_tcp-candidate timeout c connection in
      elim (Bool-cases result.reachable) [
        | inl ok ↦
            let up = reachable ++ result ∷ [] in
            let all = map target later in
            simp (unset moment, ok)
              (Perm.trans (sweep-perm later (moment + 1) up dead) (
                subst (λ d. Perm (found up dead ++ all) (found reachable dead ++ d ∷ all)) same
                  (moved_found reachable dead result all)))
        | inr down ↦
            let more = dead ++ result ∷ [] in
            let all = map target later in
            simp (unset moment, down)
              (Perm.trans (sweep-perm later (moment + 1) reachable more) (
                subst (λ d. Perm (found reachable more ++ all) (found reachable dead ++ d ∷ all))
                  same (perm_of_eq (moved_dead reachable dead result all))))
      ]

module _ (policy : ProbeStopPolicy) (no_flag : policy.cancel_flag ≡ none)
    (connects : List Candidate → List (Candidate × Connection))
    (answered : (cs : List Candidate) → Perm (map target (connects cs)) cs) where
  screen-perm :
      (timeout : ℕ)
      → (listening : Bool) → (candidates : List Candidate)
      → let first_stage = screen policy timeout listening connects candidates in
        Perm (first_stage.active ++ map candidate_of first_stage.dead) candidates
  unfolding screen candidates_from_ranked
  screen-perm timeout listening candidates =
      let udp = keep is_udp candidates in
      let testable = tcp_testable candidates in
      let swept = sweep policy (min_of timeout prefilter_timeout) (connects testable) 0 [] [] in
      elim (List-cases testable) [
        | inl nothing ↦
            rw (ap is_empty nothing)
              (subst (λ cs. Perm (udp ++ cs) candidates) nothing (keep-perm is_udp candidates))
        | inr (c, rest, something) ↦
            rw
              (
                ap is_empty something,
                append_assoc udp (map candidate_of swept.0) (map candidate_of swept.1),
              )
              (Perm.trans
                (Perm.append_left udp (
                  Perm.trans
                    (sweep-perm policy no_flag (min_of timeout prefilter_timeout)
                      (connects testable) 0 [] [])
                    (answered testable)))
                (keep-perm is_udp candidates))
      ]

  module _ {Outbound : Type 0} (country : String → Option String) (concurrency : ℕ)
      (around : Surroundings Outbound) (scan : policy.scan_all_configs ≡ true)
      (alone : (index : ℕ) → around.noticed index ≡ false)
      (reorders : (wave : ℕ)
        → (outcomes : List (ℕ × Fallback Outbound)) → Perm (around.order wave outcomes) outcomes)
      (undisturbed : (index k : ℕ)
        → (batch : List (PreparedActiveCandidate Outbound))
        → IsUndisturbed batch (around.attempts index k batch)) where
    -- With `scan_all_configs` and no outer cancel flag, and when each connect of the TCP sweep is
    -- answered once, nobody cancels and each probe of a batch that was started finishes: the two
    -- stages end, and each candidate either has exactly one result, from the sweep or from the
    -- active probe, or is an alias of an entry that was prepared from what the sweep let through.
    pub probe_active_with_tcp_prefilter_reports :
        (to_outbound : String → Conversion Outbound)
        → (outbound_key : Outbound → String) → (listening : Bool) → (threads available : ℕ)
        → (process_limit batch_size : Option ℕ) → (connect_timeout_ms : ℕ)
        → (candidates : List Candidate)
        → let first_stage = screen policy connect_timeout_ms listening connects candidates in
          (p : ActivePreparation Outbound) × (final : Waves Outbound) × (prepare_active_candidates
              to_outbound outbound_key threads first_stage.active
              (later_reads first_stage.moment policy)
            ≡ some p)
          × (probe_active_with_tcp_prefilter country concurrency policy listening around to_outbound
                outbound_key threads available process_limit batch_size connect_timeout_ms connects
                candidates
              ≡ some final)
          × Perm (map candidate_of final.ranked ++ all_aliases p.prepared) candidates
    unfolding probe_active_with_tcp_prefilter
    probe_active_with_tcp_prefilter_reports to_outbound outbound_key listening threads available
          process_limit batch_size connect_timeout_ms candidates =
        let first_stage = screen policy connect_timeout_ms listening connects candidates in
        let policy' = later_reads first_stage.moment policy in
        let no_flag' : policy'.cancel_flag ≡ none = simp (no_flag) in
        let (p, w, prepared, probed, reported) =
          probe_active_batched_reports country concurrency policy' around scan no_flag' alone
            reorders undisturbed to_outbound outbound_key listening threads available process_limit
            batch_size first_stage.active in
        let final : Waves Outbound = record w {
          ranked = w.ranked ++ first_stage.dead;
          events = first_stage.events ++ w.events;
        } in
        let results = map candidate_of w.ranked in
        let dead = map candidate_of first_stage.dead in
        let others = all_aliases p.prepared in
        let regrouped : Perm ((results ++ dead) ++ others) ((results ++ others) ++ dead) =
          rw (append_assoc results dead others, append_assoc results others dead)
            (Perm.append_left results (perm_append_comm dead others)) in
        (
          p,
          final,
          prepared,
          rw (probe_active_with_tcp_prefilter, probed) refl,
          rw (map-append candidate_of w.ranked first_stage.dead) (
              Perm.trans regrouped (
                Perm.trans (Perm.append_right dead reported)
                  (screen-perm connect_timeout_ms listening candidates))),
        )
