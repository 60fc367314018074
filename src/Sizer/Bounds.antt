-- ===== src/Sizer/Bounds.antt =====
-- The sizes stay in their ranges, and a batch is never empty while entries wait.
use v2ray_subscription_manag.Prelude.{
  ℕ, zero, suc, ◌*◌, ◌≤◌, ◌<◌, ◌≡◌, ◌⊎◌, inl, inr, refl, subst, List, [], ◌∷◌, Option, arith,
  min_of, max_of, clamp, u64_max,
}
use v2ray_subscription_manag.Sizer.{
  ActiveBatchSizer, BatchProbeStats, batch_min_size, batch_max_size, http_max_concurrency,
  process_max_concurrency, prefilter_min, prefilter_max, active_probe_batch_size, new, next_len,
  observe, isqrt_below, isqrt, active_probe_http_concurrency, active_probe_process_concurrency,
  tcp_prefilter_concurrency,
}

pub record IsValid (sizer : ActiveBatchSizer) : Type 0 where
  pub positive : 1 ≤ sizer.current
  pub bounded : sizer.current ≤ batch_max_size
  pub floor : (1 ≤ sizer.min) × (sizer.min ≤ batch_min_size)
  pub top : sizer.max ≡ batch_max_size

pub new-IsValid : (concurrency : ℕ) (configured : Option ℕ) → IsValid (new concurrency configured)
unfolding new active_probe_batch_size
new-IsValid concurrency configured = ground arith

pub observe-IsValid :
    (sizer : ActiveBatchSizer) (stats : BatchProbeStats)
    → IsValid sizer
    → IsValid (observe sizer stats)
unfolding observe
observe-IsValid sizer stats v = ground arith

-- The sizer after the batches of a run.
abbrev pub observe_all : ActiveBatchSizer → List BatchProbeStats → ActiveBatchSizer
observe_all sizer [] = sizer
observe_all sizer (stats ∷ later) = observe_all (observe sizer stats) later

observe_all-IsValid :
    (sizer : ActiveBatchSizer) (run : List BatchProbeStats)
    → IsValid sizer
    → IsValid (observe_all sizer run)
observe_all-IsValid sizer [] v = v
observe_all-IsValid sizer (stats ∷ later) v =
    observe_all-IsValid (observe sizer stats) later (observe-IsValid sizer stats v)

-- Whatever the settings and the outcomes of the batches before: the next batch has at most 128
-- entries, never more than are left, and at least one if any is left.
pub next_len_bounds :
    (concurrency : ℕ) (configured : Option ℕ) (run : List BatchProbeStats) (remaining : ℕ)
    → let n = next_len (observe_all (new concurrency configured) run) remaining in
      (n ≤ batch_max_size) × (n ≤ remaining) × (min_of 1 remaining ≤ n)
unfolding next_len
next_len_bounds concurrency configured run remaining =
    let v =
      observe_all-IsValid (new concurrency configured) run (new-IsValid concurrency configured) in
    (ground (arith, v.bounded), ground (arith, v.bounded), ground (arith, v.positive))

isqrt_below_lem :
    (k n : ℕ)
    → n < suc k * suc k
    → (isqrt_below k n * isqrt_below k n ≤ n) × (n < suc (isqrt_below k n) * suc (isqrt_below k n))
unfolding isqrt_below
isqrt_below_lem zero n h = omega arith
isqrt_below_lem (suc k) n h = ground (arith, isqrt_below_lem k n)

-- The integer root.
isqrt_lem : (n : ℕ) → (isqrt n * isqrt n ≤ n) × (n < suc (isqrt n) * suc (isqrt n))
unfolding isqrt
isqrt_lem n = isqrt_below_lem n n (omega arith)

-- The ranges of the limits on concurrent work: HTTP probes number from 1 to 128 and at most the entries of a
-- batch that is not empty, sing-box processes from 1 to 4, TCP connects from 256 to 512.
pub concurrency_bounds :
    (configured entries available : ℕ) (processes : Option ℕ)
    → (1 ≤ active_probe_http_concurrency configured entries)
      × (active_probe_http_concurrency configured entries ≤ http_max_concurrency)
      × (active_probe_http_concurrency configured entries ≤ max_of entries 1)
      × (1 ≤ active_probe_process_concurrency available processes)
      × (active_probe_process_concurrency available processes ≤ process_max_concurrency)
      × (prefilter_min ≤ tcp_prefilter_concurrency configured)
      × (tcp_prefilter_concurrency configured ≤ prefilter_max)
unfolding active_probe_http_concurrency active_probe_process_concurrency tcp_prefilter_concurrency
concurrency_bounds configured entries available processes = ground arith

-- The configured number, put into its range.
abbrev pub in_range : ℕ → ℕ
in_range configured = min_of (max_of configured 1) http_max_concurrency

-- A number is the least of three.
abbrev pub IsLeast : ℕ → ℕ → ℕ → ℕ → Type 0
IsLeast n a b c = (n ≤ a) × (n ≤ b) × (n ≤ c) × ((n ≡ a) ⊎ ((n ≡ b) ⊎ (n ≡ c)))

one_le_product : (m n : ℕ) → 1 ≤ m → 1 ≤ n → 1 ≤ m * n
one_le_product zero n h k = absurd (omega arith)
one_le_product (suc m) zero h k = absurd (omega arith)
one_le_product (suc m) (suc n) h k = omega arith

one_le_root : (n : ℕ) → 1 ≤ n → 1 ≤ isqrt n
one_le_root n h = elim (zero-cases (isqrt n)) [
  | inl e ↦ absurd (omega (arith, subst (λ (r : ℕ). n < suc r * suc r) e (isqrt_lem n).1))
  | inr k ↦ k
]
  where
    zero-cases : (m : ℕ) → (m ≡ 0) ⊎ (1 ≤ m)
    zero-cases zero = inl refl
    zero-cases (suc m) = inr (omega arith)

clamp-in_range : (configured : ℕ) → clamp configured 1 http_max_concurrency ≡ in_range configured
clamp-in_range configured = ground arith

one_le_in_range : (configured : ℕ) → 1 ≤ in_range configured
one_le_in_range configured = ground arith

one_le_max : (entries : ℕ) → 1 ≤ max_of entries 1
one_le_max entries = ground arith

IsLeast-clamp :
    (product entries : ℕ)
    → 1 ≤ product
    → 1 ≤ entries
    → IsLeast
        (min_of (clamp (min_of product u64_max) 1 http_max_concurrency) entries)
        http_max_concurrency
        entries
        product
IsLeast-clamp product entries h k = ground arith

-- As many probes run side by side as the least of 128, the entries of the batch and the product of
-- the configured number, put between 1 and 128, and the integer root of the entries: the number
-- whose square is at most the entries and whose successor's is greater. A batch without entries
-- counts as one of one entry.
pub active_probe_http_concurrency-IsLeast :
    (configured entries : ℕ)
    → (root : ℕ) × (root * root ≤ max_of entries 1)
      × (max_of entries 1 < suc root * suc root)
      × IsLeast
          (active_probe_http_concurrency configured entries)
          http_max_concurrency
          (max_of entries 1)
          (root * in_range configured)
unfolding active_probe_http_concurrency
active_probe_http_concurrency-IsLeast configured entries =
    let n = max_of entries 1 in
    let (below, above) = isqrt_lem n in
    let full = one_le_max entries in
    let product =
      one_le_product (isqrt n) (in_range configured) (one_le_root n full)
        (one_le_in_range configured) in
    (
      isqrt n,
      below,
      above,
      rw (active_probe_http_concurrency, clamp-in_range configured)
          (IsLeast-clamp (isqrt n * in_range configured) n product full),
    )
