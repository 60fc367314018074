-- ===== src/Model.antt =====
-- The data that the parts of the program share: model.rs, and the order of `f64` values, which the
-- standard library gives by their bits. Unsigned integers are numbers; a `u16`, `u32`, `u64`,
-- `usize` (64 bits) or `u128` is one below the power of two of its width. An `Instant` is a number.
use v2ray_subscription_manag.Prelude.{
  ℕ, ◌+◌, ◌-◌, ◌%◌, ◌^◌, Bool, ◌||◌, String, List, Option, none, some, Ordering, compare, ltb, leb,
  if◌then◌else◌,
}

pub record Endpoint : Type 0 where
  pub host : String
  pub port : ℕ

pub record Candidate : Type 0 where
  pub id : String
  pub dedup_key : String
  pub source : String
  pub priority : ℕ
  pub protocol : String
  pub name : String
  pub endpoint : Endpoint
  pub uri : String

-- An `f64` is its 64 bits.
pub record F64 : Type 0 where
  pub bits : ℕ

-- The exponent is all ones and the fraction is not zero.
unfoldable pub is_nan : F64 → Bool
is_nan x = ltb 0x7ff0_0000_0000_0000 (x.bits % 2 ^ 63)

-- A number that grows with the value of a float that is not a NaN; both zeros share one.
unfoldable pub order_key : F64 → ℕ
order_key x = if leb (2 ^ 63) x.bits then 2 ^ 63 - x.bits % 2 ^ 63 else 2 ^ 63 + x.bits

-- `f64::partial_cmp`
unfoldable pub partial_cmp : F64 → F64 → Option Ordering
unfolding is_nan order_key
partial_cmp x y = if is_nan x || is_nan y then none else some (compare (order_key x) (order_key y))

pub record RankedConfig : Type 0 where
  pub rank : ℕ
  pub stability_count : ℕ
  pub id : String
  pub dedup_key : String
  pub source : String
  pub priority : ℕ
  pub protocol : String
  pub name : String
  pub endpoint : Endpoint
  pub uri : String
  pub reachable : Bool
  pub validation : String
  pub latency_ms : Option ℕ
  pub http_status : Option ℕ
  pub download_mbps : Option F64
  pub download_bytes : Option ℕ
  pub error : Option String
  pub country_code : Option String

pub record RuntimeState : Type 0 where
  pub last_refresh : Option String
  pub last_error : Option String
  pub logs : List String
  pub live_logs : List String
  pub refresh_started_at : Option String
  pub refresh_finished_at : Option String
  pub refresh_started_instant : Option ℕ
  pub refresh_finished_instant : Option ℕ
  pub refresh_duration_ms : Option ℕ
  pub refreshing : Bool
  pub total_candidates : ℕ
  pub tested_candidates : ℕ
  pub reachable_candidates : ℕ
  pub fetch_bytes : ℕ
  pub speedtest_bytes : ℕ
  pub fetch_errors : List String
  pub ranked : List RankedConfig
  pub stable_working_counts : List (String × ℕ)
  pub proxy_active_config : Option String
  pub proxy_running : Bool
  pub proxy_port : Option ℕ
  pub proxy_discoverable : Bool

pub data ProgressEvent : Type 0 where
  live_log : String → ProgressEvent
  probe_delta : ℕ → ℕ → ProgressEvent
  ranked_snapshot : List RankedConfig → ProgressEvent
  working_configs_found : List RankedConfig → ℕ → ProgressEvent
  fetched_delta : ℕ → ProgressEvent

-- The cancel flag is shared with a task that may set it: what is read at each moment.
pub record ProbeStopPolicy : Type 0 where
  pub scan_all_configs : Bool
  pub top_n : ℕ
  pub prioritize_stability : Bool
  pub return_configs_asap : Bool
  pub previous_working_keys : List String
  pub cancel_flag : Option (ℕ → Bool)
