-- ===== src/Tests/Reports.antt =====
-- A probe of the sample candidates in which each batch fails to start once.
use v2ray_subscription_manag.Prelude.{
  ℕ, ◌+◌, true, false, String, List, [], ◌∷◌, ◌++◌, map, none, some, ◌≡◌, refl, Perm, leb, arith,
  str_eq, if◌then◌else◌,
}
use mathlib.Core.List.Perm
use v2ray_subscription_manag.Text.{is_one_of, trim}
use v2ray_subscription_manag.Model.{Candidate, ProbeStopPolicy}
use v2ray_subscription_manag.Prepare.{ActivePreparation, candidate_of, prepare_active_candidates}
use v2ray_subscription_manag.Waves.{Surroundings, Waves, flag_at, probe_active_batched}
use v2ray_subscription_manag.Waves.Total.{probe_active_batched-total}
use v2ray_subscription_manag.Waves.Reported.{all_aliases, probe_active_batched_reports}
use v2ray_subscription_manag.Prefilter.{
  Connection, connected, timed_out, screen, later_reads, probe_active_with_tcp_prefilter,
}
use v2ray_subscription_manag.Prefilter.Reported.{target, probe_active_with_tcp_prefilter_reports}
use v2ray_subscription_manag.Tests.{candidate, candidates, policy}
use v2ray_subscription_manag.Tests.Probing.{convert, key_of_outbound}
use v2ray_subscription_manag.Tests.Batches.{attempts, attempts-IsUndisturbed, no_country, scan}

abbrev around : Surroundings String
around = record {
  attempts = λ index. attempts;
  noticed = λ index. false;
  order = λ wave outcomes. outcomes;
  wave_time = λ wave. "0s";
}

probe_active_batched_reports_example :
    (p : ActivePreparation String) × (final : Waves String) × (prepare_active_candidates convert
        key_of_outbound 4 candidates scan
      ≡ some p)
    × (probe_active_batched no_country 8 scan true around convert key_of_outbound 4 2 none none
          candidates
        ≡ some final)
    × Perm (map candidate_of final.ranked ++ all_aliases p.prepared) candidates
probe_active_batched_reports_example =
    probe_active_batched_reports no_country 8 scan around refl refl (λ index. refl)
      (λ wave outcomes. Perm.refl outcomes) (λ index. attempts-IsUndisturbed) convert
      key_of_outbound true 4 2 none none candidates

-- The deadline is seen from the third read on.
abbrev with_deadline : ProbeStopPolicy
with_deadline = record policy { cancel_flag = some (λ moment. leb 3 moment) }

deadline_stays : (k : ℕ) → flag_at with_deadline k ≡ true → flag_at with_deadline (k + 1) ≡ true
deadline_stays k set = ground (arith, set)

probe_active_batched-total_example :
    (final : Waves String) × (probe_active_batched no_country 8 with_deadline true around convert
        key_of_outbound 4 2 none
        (some 1)
        candidates
      ≡ some final)
probe_active_batched-total_example =
    probe_active_batched-total no_country 8 with_deadline true around deadline_stays convert
      key_of_outbound 4 2 none (some 1) candidates

-- The candidate "a1" speaks a protocol over UDP; "a2" cannot be reached.
abbrev mixed : List Candidate
mixed =
    record (candidate "a" "a1") { protocol = " Hysteria2 " }
    ∷ candidate "a" "a2"
    ∷ candidate "b" "b1"
    ∷ []

abbrev connect_to : Candidate → Candidate × Connection
connect_to c = (c, if str_eq c.id "a2" then timed_out else connected 40 none)

all_answered : (cs : List Candidate) → Perm (map target (map connect_to cs)) cs
all_answered [] = Perm.refl []
all_answered (c ∷ cs) = Perm.cons c (all_answered cs)

-- "a2" ends in the sweep, and the other two go on.
screened :
    map (λ (c : Candidate). c.id) (screen scan 1500 true (map connect_to) mixed).active
    ≡ "a1" ∷ "b1" ∷ []
unfolding screen is_one_of trim
screened = refl

probe_active_with_tcp_prefilter_reports_example :
    let first_stage = screen scan 1500 true (map connect_to) mixed in
    (p : ActivePreparation String) × (final : Waves String) × (prepare_active_candidates convert
        key_of_outbound 4 first_stage.active
        (later_reads first_stage.moment scan)
      ≡ some p)
    × (probe_active_with_tcp_prefilter no_country 8 scan true around convert key_of_outbound 4 2
          none none 1500
          (map connect_to)
          mixed
        ≡ some final)
    × Perm (map candidate_of final.ranked ++ all_aliases p.prepared) mixed
probe_active_with_tcp_prefilter_reports_example =
    probe_active_with_tcp_prefilter_reports scan refl (map connect_to) all_answered no_country 8
      around refl (λ index. refl) (λ wave outcomes. Perm.refl outcomes)
      (λ index. attempts-IsUndisturbed) convert key_of_outbound true 4 2 none none 1500 mixed
