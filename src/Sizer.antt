-- ===== src/Sizer.antt =====
-- How many entries a batch has and how many tasks run at once: ActiveBatchSizer and the limits of
-- probe.rs. `available` is what available_parallelism of the standard library reports.
pub mod Bounds
use v2ray_subscription_manag.Prelude.{
  ℕ, zero, suc, ◌+◌, ◌*◌, ◌/◌, ◌≤◌, Bool, ◌&&◌, ◌||◌, Option, none, some, leb, ltb, min_of, max_of,
  clamp, saturating_mul, u64_max, unwrap_or, if◌then◌else◌,
}
use v2ray_subscription_manag.Model.{ProbeStopPolicy}

-- The constants of constants.rs.
abbrev pub batch_min_size : ℕ
batch_min_size = 32

abbrev pub batch_max_size : ℕ
batch_max_size = 128

abbrev pub batch_concurrency_multiplier : ℕ
batch_concurrency_multiplier = 16

abbrev pub http_max_concurrency : ℕ
http_max_concurrency = 128

abbrev pub process_max_concurrency : ℕ
process_max_concurrency = 4

abbrev pub prefilter_multiplier : ℕ
prefilter_multiplier = 8

abbrev pub prefilter_min : ℕ
prefilter_min = 256

abbrev pub prefilter_max : ℕ
prefilter_max = 512

pub record ActiveBatchSizer : Type 0 where
  pub current : ℕ
  pub min : ℕ
  pub max : ℕ

pub record BatchProbeStats : Type 0 where
  pub started_cleanly : Bool
  pub produced : ℕ
  pub splits : ℕ
  pub failed_candidates : ℕ

unfoldable pub active_probe_batch_size : ℕ → Option ℕ → ℕ
active_probe_batch_size concurrency configured = unwrap_or configured (
    clamp (saturating_mul u64_max concurrency batch_concurrency_multiplier) batch_min_size
      batch_max_size)

-- `ActiveBatchSizer::new`
unfoldable pub new : ℕ → Option ℕ → ActiveBatchSizer
unfolding active_probe_batch_size
new concurrency configured = record {
  current = max_of (min_of (active_probe_batch_size concurrency configured) batch_max_size) 1;
  min = clamp concurrency 1 batch_min_size;
  max = max_of batch_max_size 1;
}

unfoldable pub next_len : ActiveBatchSizer → ℕ → ℕ
next_len sizer remaining = min_of remaining sizer.current

unfoldable pub observe : ActiveBatchSizer → BatchProbeStats → ActiveBatchSizer
observe sizer stats =
    if ltb 0 stats.splits || ltb 0 stats.failed_candidates
    then record sizer { current = max_of (max_of (sizer.current / 2) sizer.min) 1 }
    else if stats.started_cleanly && leb sizer.current stats.produced
    then record sizer {
      current =
          max_of (max_of (min_of (saturating_mul u64_max sizer.current 2) sizer.max) sizer.min) 1;
    }
    else sizer

-- `usize::isqrt`: the greatest number whose square is at most `n`.
unfoldable pub isqrt_below : ℕ → ℕ → ℕ
isqrt_below zero n = 0
isqrt_below (suc k) n = let rest = isqrt_below k n in if leb (suc k * suc k) n then suc k else rest

-- No root of a number below 2 ^ 64 is greater; from `n` down the search meets it.
unfoldable pub isqrt : ℕ → ℕ
unfolding isqrt_below
isqrt n = isqrt_below n n

unfoldable pub active_probe_http_concurrency : ℕ → ℕ → ℕ
active_probe_http_concurrency configured batch_entries =
    let configured' = clamp configured 1 http_max_concurrency in
    let adaptive_limit =
      clamp (saturating_mul u64_max (isqrt (max_of batch_entries 1)) configured') 1
        http_max_concurrency in
    min_of adaptive_limit (max_of batch_entries 1)

unfoldable pub active_probe_process_concurrency : ℕ → Option ℕ → ℕ
active_probe_process_concurrency available configured =
    clamp (unwrap_or configured (clamp (available / 2) 1 process_max_concurrency)) 1
      process_max_concurrency

unfoldable pub tcp_prefilter_concurrency : ℕ → ℕ
tcp_prefilter_concurrency concurrency =
    clamp (saturating_mul u64_max concurrency prefilter_multiplier) prefilter_min prefilter_max

unfoldable pub speedtest_probe_limit : ℕ → ProbeStopPolicy → ℕ
speedtest_probe_limit reachable stop_policy =
    if stop_policy.scan_all_configs
    then min_of reachable (max_of stop_policy.top_n 1)
    else min_of reachable (max_of stop_policy.top_n 1)

unfoldable pub speedtest_probe_concurrency : ℕ → ℕ → ℕ
speedtest_probe_concurrency configured targets = min_of (clamp configured 1 4) (max_of targets 1)
