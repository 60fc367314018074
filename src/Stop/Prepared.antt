-- ===== src/Stop/Prepared.antt =====
-- The entries of an active probe (PreparedActiveCandidate of probe.rs). `Outbound` is the JSON value
-- of serde_json that a share link is turned into.
use v2ray_subscription_manag.Prelude.{ℕ, ◌+◌, List, [], ◌∷◌, length}
use v2ray_subscription_manag.Model.{Candidate}

pub record PreparedActiveCandidate (Outbound : Type 0) : Type 0 where
  pub candidate : Candidate
  pub aliases : List Candidate
  pub outbound : Outbound

module _ {Outbound : Type 0} where
  -- `PreparedActiveCandidate::candidate_count`
  abbrev pub entry_size : PreparedActiveCandidate Outbound → ℕ
  entry_size entry = 1 + length entry.aliases

  unfoldable pub candidate_count : List (PreparedActiveCandidate Outbound) → ℕ
  candidate_count [] = 0
  candidate_count (entry ∷ entries) = entry_size entry + candidate_count entries
