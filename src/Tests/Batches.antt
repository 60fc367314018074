-- ===== src/Tests/Batches.antt =====
-- A batch whose first start fails: it is split, and both halves are tested.
use v2ray_subscription_manag.Prelude.{
  ℕ, zero, suc, true, false, String, List, [], ◌∷◌, map, Option, none, some, ◌≡◌, refl, ap, Perm,
  All,
}
use mathlib.Core.List.Perm
use v2ray_subscription_manag.Model.{ProbeStopPolicy}
use v2ray_subscription_manag.Stop.Prepared.{PreparedActiveCandidate}
use v2ray_subscription_manag.Prepare.{candidate_of}
use v2ray_subscription_manag.Batch.{Arrival, Attempt, Startup, BatchState, err, not_ready, ready}
use v2ray_subscription_manag.Batch.Within.{Within, Within-eq}
use v2ray_subscription_manag.Batch.Candidates.{primaries, entry_of, IsPossible}
use v2ray_subscription_manag.Batch.Fallback.{Fallback, probe_active_batch_with_fallback}
use v2ray_subscription_manag.Batch.Total.{probe_active_batch_with_fallback-total}
use v2ray_subscription_manag.Batch.Accounts.{probe_active_batch_with_fallback_accounts}
use v2ray_subscription_manag.Batch.Undisturbed.{IsUndisturbed}
use v2ray_subscription_manag.Batch.Complete.{probe_active_batch_with_fallback_complete}
use v2ray_subscription_manag.Tests.{candidate, policy}

abbrev entry : String → PreparedActiveCandidate String
entry key = record { candidate = candidate "a" key; aliases = []; outbound = key }

abbrev entries : List (PreparedActiveCandidate String)
entries = entry "one" ∷ entry "two" ∷ entry "three" ∷ []

abbrev pub arrive : PreparedActiveCandidate String → Arrival String
arrive e = record { entry = e; result = err "timeout"; cancelled = false }

-- The proxies of the first attempt do not come up; then every probe times out.
abbrev pub startup_of : ℕ → List (PreparedActiveCandidate String) → Startup String
startup_of zero batch = not_ready "no port" none
startup_of (suc k) batch = ready false (map arrive batch)

abbrev pub attempts : ℕ → List (PreparedActiveCandidate String) → Attempt String
attempts k batch = record {
  cancelled_before = false;
  cancelled_at_start = false;
  startup = startup_of k batch;
}

arrived_entries :
    (batch : List (PreparedActiveCandidate String)) → map entry_of (map arrive batch) ≡ batch
arrived_entries [] = refl
arrived_entries (e ∷ batch) = ap (λ rest. e ∷ rest) (arrived_entries batch)

attempts-IsPossible :
    (k : ℕ)
    → (batch : List (PreparedActiveCandidate String)) → IsPossible batch (attempts k batch).startup
attempts-IsPossible zero batch = tt
attempts-IsPossible (suc k) batch = Within-eq (arrived_entries batch)

All-open :
    (batch : List (PreparedActiveCandidate String))
    → All (λ (a : Arrival String). a.cancelled ≡ false) (map arrive batch)
All-open [] = tt
All-open (e ∷ batch) = (refl, All-open batch)

pub attempts-IsUndisturbed :
    (k : ℕ)
    → (batch : List (PreparedActiveCandidate String)) → IsUndisturbed batch (attempts k batch)
attempts-IsUndisturbed zero batch = (refl, refl, tt)
attempts-IsUndisturbed (suc k) batch =
    (refl, refl, (refl, All-open batch, rw (arrived_entries batch) (Perm.refl batch)))

abbrev pub no_country : String → Option String
no_country host = none

abbrev pub scan : ProbeStopPolicy
scan = record policy { scan_all_configs = true }

abbrev opened : BatchState
opened = record {
  stop_state = record {
    half_snapshot_sent = false;
    stability_search_exhausted = false;
    remaining_previous_working = 0;
  };
  cancel = false;
  events = [];
}

probe_active_batch_with_fallback-total_example :
    (final : Fallback String) × (probe_active_batch_with_fallback no_country 4 policy true 1 []
        attempts entries opened
      ≡ some final)
probe_active_batch_with_fallback-total_example =
    probe_active_batch_with_fallback-total no_country 4 policy true 1 [] attempts entries opened

probe_active_batch_with_fallback_accounts_example :
    (final : Fallback String) × (probe_active_batch_with_fallback no_country 4 policy true 1 []
        attempts entries opened
      ≡ some final)
    × Within (map candidate_of final.ranked) (primaries entries)
probe_active_batch_with_fallback_accounts_example =
    probe_active_batch_with_fallback_accounts no_country 4 policy true 1 [] attempts
      attempts-IsPossible entries opened

probe_active_batch_with_fallback_complete_example :
    (final : Fallback String) × (probe_active_batch_with_fallback no_country 4 scan true 1 []
        attempts entries opened
      ≡ some final)
    × Perm (map candidate_of final.ranked) (primaries entries)
    × (final.shared.cancel ≡ false)
probe_active_batch_with_fallback_complete_example =
    probe_active_batch_with_fallback_complete no_country 4 scan true 1 refl [] attempts
      attempts-IsUndisturbed entries opened refl
