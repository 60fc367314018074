-- ===== src/Tests.antt =====
-- The sample data that the tests and the examples run on.
pub mod Probing
pub mod Batches
pub mod Ranking
pub mod Reports
pub mod Proxying
pub mod Settings
pub mod Menus
pub mod Serving
use v2ray_subscription_manag.Prelude.{
  ℕ, zero, suc, Bool, true, false, String, List, [], ◌∷◌, Option, none, some,
}
use v2ray_subscription_manag.Model.{Candidate, RankedConfig, ProbeStopPolicy, F64}

-- A candidate of a source, with its key.
abbrev pub candidate : String → String → Candidate
candidate source key = record {
  id = key;
  dedup_key = key;
  source = source;
  priority = 1;
  protocol = "vless";
  name = key;
  endpoint = record { host = "example.com"; port = 443 };
  uri = key;
}

-- A result with its key, whether it works, and its latency.
abbrev pub result : String → Bool → ℕ → RankedConfig
result key reachable latency = record {
  rank = 0;
  stability_count = 0;
  id = key;
  dedup_key = key;
  source = "a";
  priority = 1;
  protocol = "vless";
  name = key;
  endpoint = record { host = "example.com"; port = 443 };
  uri = key;
  reachable = reachable;
  validation = "active_http";
  latency_ms = some latency;
  http_status = none;
  download_mbps = none;
  download_bytes = none;
  error = none;
  country_code = none;
}

-- Two sources, one of three candidates and one of a single candidate.
abbrev pub candidates : List Candidate
candidates = candidate "a" "a1" ∷ candidate "a" "a2" ∷ candidate "a" "a3" ∷ candidate "b" "b1" ∷ []

abbrev pub results : List RankedConfig
results = result "x" true 90 ∷ result "y" false 10 ∷ result "z" true 20 ∷ []

-- Stop at two working configs, the candidates "a3" and "x" having worked before.
abbrev pub policy : ProbeStopPolicy
policy = record {
  scan_all_configs = false;
  top_n = 2;
  prioritize_stability = true;
  return_configs_asap = false;
  previous_working_keys = "a3" ∷ "x" ∷ [];
  cancel_flag = none;
}
