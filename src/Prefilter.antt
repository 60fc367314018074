-- ===== src/Prefilter.antt =====
-- The TCP sweep before an active probe: probe_tcp, is_udp_protocol and
-- probe_active_with_tcp_prefilter of probe.rs. How a connect ends, and in which order the connects
-- finish, is an argument.
pub mod Reported
use v2ray_subscription_manag.Prelude.{
  ℕ, zero, suc, ◌+◌, Bool, true, false, not, ◌&&◌, ◌||◌, String, List, [], ◌∷◌, ◌++◌, map, Option,
  none, some, length, keep, any, leb, ltb, ◌==◌, min_of, if◌then◌else◌, str_append,
}
use v2ray_subscription_manag.Prelude.Order.{codes}
use v2ray_subscription_manag.Prelude.Decimal.{decimal}
use v2ray_subscription_manag.Text.{trim, is_one_of}
use v2ray_subscription_manag.Model.{
  Candidate, RankedConfig, ProbeStopPolicy, ProgressEvent, live_log,
}
use v2ray_subscription_manag.Stop.{is_empty, send}
use v2ray_subscription_manag.Prepare.{Conversion, candidates_from_ranked}
use v2ray_subscription_manag.Batch.{send_probe_delta}
use v2ray_subscription_manag.Waves.{Surroundings, Waves, flag_at, probe_active_batched}

unfoldable pub is_udp_protocol : String → Bool
is_udp_protocol protocol =
    is_one_of ("hysteria2" ∷ "hysteria" ∷ "hy2" ∷ "tuic" ∷ "wireguard" ∷ "wg" ∷ []) (trim protocol)

-- How a connect ends: with the latency in milliseconds and the country of the peer, with an error,
-- or at the timeout.
pub data Connection : Type 0 where
  connected : ℕ → Option String → Connection
  refused : String → Connection
  timed_out : Connection

-- The result of probe_tcp but for what the connect decides.
abbrev pub tcp_config : Candidate → Bool → Option ℕ → Option String → Option String → RankedConfig
tcp_config candidate reachable latency_ms error country_code = record {
  rank = 0;
  stability_count = 0;
  id = candidate.id;
  dedup_key = candidate.dedup_key;
  source = candidate.source;
  priority = candidate.priority;
  protocol = candidate.protocol;
  name = candidate.name;
  endpoint = candidate.endpoint;
  uri = candidate.uri;
  reachable = reachable;
  validation = "tcp_connect";
  latency_ms = latency_ms;
  http_status = none;
  download_mbps = none;
  download_bytes = none;
  error = error;
  country_code = country_code;
}

unfoldable pub probe_tcp : ℕ → Candidate → Connection → RankedConfig
probe_tcp timeout candidate (connected latency country) =
    tcp_config candidate true (some latency) none country
probe_tcp timeout candidate (refused error) = tcp_config candidate false none (some error) none
probe_tcp timeout candidate timed_out =
    tcp_config candidate false none
      (some (str_append "timed out after " (str_append (decimal timeout) " ms"))) none

-- The sweep over the results as they arrive: those that connected, those that did not, and how
-- often the cancel flag was read.
unfoldable pub sweep :
    ProbeStopPolicy
    → ℕ
    → List (Candidate × Connection)
    → ℕ
    → List RankedConfig
    → List RankedConfig
    → List RankedConfig × List RankedConfig × ℕ
unfolding probe_tcp
sweep policy timeout [] moment reachable dead = (reachable, dead, moment)
sweep policy timeout ((candidate, connection) ∷ later) moment reachable dead =
    let result = probe_tcp timeout candidate connection in
    let reachable' = if result.reachable then reachable ++ result ∷ [] else reachable in
    let dead' = if result.reachable then dead else dead ++ result ∷ [] in
    let more = sweep policy timeout later (moment + 1) reachable' dead' in
    if flag_at policy moment then (reachable', dead', moment + 1) else more

abbrev pub screening_message : ℕ → ℕ → String
screening_message screening udp = str_append "TCP pre-filter: screening " (
    str_append (decimal screening) (
      str_append " configs ("
        (str_append (decimal udp) " UDP-based configs skip straight to active test)")))

abbrev pub screened_message : ℕ → ℕ → ℕ → String
screened_message reachable udp dead = str_append "TCP pre-filter done: " (
    str_append (decimal reachable) (
      str_append " reachable + " (
        str_append (decimal udp) (
          str_append " UDP-based advance to active test; "
            (str_append (decimal dead) " dead endpoints skipped")))))

-- What the first stage hands on.
pub record Screening : Type 0 where
  pub active : List Candidate
  pub dead : List RankedConfig
  pub moment : ℕ
  pub events : List ProgressEvent

abbrev pub is_udp : Candidate → Bool
is_udp candidate = is_udp_protocol candidate.protocol

abbrev pub tcp_testable : List Candidate → List Candidate
tcp_testable candidates = keep (λ (candidate : Candidate). not (is_udp candidate)) candidates

abbrev pub prefilter_timeout : ℕ
prefilter_timeout = 3000

-- The first stage. `connects` are the connects of the candidates that are screened, in the order in
-- which they finish.
unfoldable pub screen :
    ProbeStopPolicy
    → ℕ
    → Bool
    → (List Candidate → List (Candidate × Connection))
    → List Candidate
    → Screening
unfolding sweep candidates_from_ranked is_udp_protocol
screen policy connect_timeout_ms listening connects candidates =
    let udp_bypass = keep is_udp candidates in
    let testable = tcp_testable candidates in
    let (reachable, dead, moment) =
      sweep policy (min_of connect_timeout_ms prefilter_timeout) (connects testable) 0 [] [] in
    if is_empty testable
    then record { active = udp_bypass; dead = []; moment = 0; events = [] }
    else record {
      active = udp_bypass ++ candidates_from_ranked reachable;
      dead = dead;
      moment = moment;
      events =
          send listening (live_log (screening_message (length testable) (length udp_bypass)))
          ++ send_probe_delta listening (length dead) 0
          ++ send listening
              (live_log (screened_message (length reachable) (length udp_bypass) (length dead)));
    }

-- The policy whose flag was already read `n` times.
abbrev pub later_reads : ℕ → ProbeStopPolicy → ProbeStopPolicy
later_reads n policy = record policy {
  cancel_flag = elim policy.cancel_flag [ none ↦ none | some flag ↦ some (λ k. flag (k + n)) ];
}

module _ {Outbound : Type 0} where
  unfoldable pub probe_active_with_tcp_prefilter :
      (String → Option String)
      → ℕ
      → ProbeStopPolicy
      → Bool
      → Surroundings Outbound
      → (String → Conversion Outbound)
      → (Outbound → String)
      → ℕ
      → ℕ
      → Option ℕ
      → Option ℕ
      → ℕ
      → (List Candidate → List (Candidate × Connection))
      → List Candidate
      → Option (Waves Outbound)
  unfolding screen probe_active_batched
  probe_active_with_tcp_prefilter country concurrency policy listening around to_outbound
        outbound_key threads available process_limit batch_size connect_timeout_ms connects
        candidates =
      let first_stage = screen policy connect_timeout_ms listening connects candidates in
      elim (probe_active_batched country concurrency (later_reads first_stage.moment policy)
        listening around to_outbound outbound_key threads available process_limit batch_size
        first_stage.active) [
          | none ↦ none
          | some w ↦ some (record w {
            ranked = w.ranked ++ first_stage.dead;
            events = first_stage.events ++ w.events;
          })
        ]
