-- ===== src/Schedule/Complete.antt =====
-- The rounds end, and take each candidate once and in order.
use mathlib.Core.List.Perm
use v2ray_subscription_manag.Prelude.{
  ℕ, zero, suc, ◌+◌, ◌≤◌, ◌≡◌, refl, sym, ◌∙◌, List, [], ◌∷◌, ◌++◌, Perm, append-nil, append_assoc,
  some, arith, All, keep, keep-append, length, length-append, length-perm, ltb, inl, inr,
  Bool-cases,
}
use v2ray_subscription_manag.Model.{Candidate}
use v2ray_subscription_manag.Schedule.{SourceCandidateQueue, QueueKey, round, rounds}
use v2ray_subscription_manag.Schedule.Queues.{of_source, Apart, contents, Owns}
use v2ray_subscription_manag.Schedule.Rounds.{
  line, line-round, keep-round, head-append-tail, round-perm, round_progress, contents_empty,
  round-Apart, round-Owns,
}

-- The loop with its invariant: the queues are apart and own what they hold, and the schedule and
-- the queues have all candidates.
pub record IsRunning (candidate_count fuel : ℕ) (qs : List SourceCandidateQueue)
    (scheduled : List Candidate) : Type 0 where
  pub apart : Apart qs
  pub owned : All Owns qs
  pub total : length scheduled + length (contents qs) ≡ candidate_count
  pub enough : length (contents qs) ≤ fuel

pub round-IsRunning :
    (n fuel : ℕ) (qs : List SourceCandidateQueue) (scheduled : List Candidate)
    → IsRunning n (suc fuel) qs scheduled
    → 1 ≤ length (contents qs)
    → IsRunning n fuel (round qs).0 (scheduled ++ (round qs).1)
round-IsRunning n fuel qs scheduled r h =
    let moved = length-perm (round-perm qs) in
    let sum = length-append (round qs).1 (contents (round qs).0) in
    let sum' = length-append scheduled (round qs).1 in
    record {
      apart = round-Apart qs r.apart;
      owned = round-Owns qs r.owned;
      total = omega (arith, moved, sum, sum', r.total);
      enough = omega (arith, moved, sum, r.enough, round_progress qs h);
    }

nil_of_length : (xs : List Candidate) → length xs ≡ 0 → xs ≡ []
nil_of_length [] h = refl
nil_of_length (x ∷ xs) h = absurd (omega arith)

-- All candidates are in `out`, each source in the order of its line.
pub record IsComplete (qs : List SourceCandidateQueue) (scheduled out : List Candidate)
    : Type 0 where
  pub all : Perm out (scheduled ++ contents qs)
  pub each : (k : QueueKey) → keep (of_source k) out ≡ keep (of_source k) scheduled ++ line k qs

finished :
    (qs : List SourceCandidateQueue) (scheduled : List Candidate)
    → length (contents qs) ≡ 0
    → IsComplete qs scheduled scheduled
finished qs scheduled h = record {
  all = rw (nil_of_length (contents qs) h, append-nil) (Perm.refl scheduled);
  each = λ k. rw (contents_empty k qs h) (sym (append-nil (keep (of_source k) scheduled)));
}

pub each-round :
    (k : QueueKey) (qs : List SourceCandidateQueue) (scheduled : List Candidate)
    → Apart qs
    → All Owns qs
    → keep (of_source k) (scheduled ++ (round qs).1) ++ line k (round qs).0
      ≡ keep (of_source k) scheduled ++ line k qs
each-round k qs scheduled a o = rw (
  keep-append (of_source k) scheduled (round qs).1,
  keep-round k qs a o,
  line-round k qs,
  append_assoc (keep (of_source k) scheduled),
  head-append-tail (line k qs),
)

unrolled :
    (qs : List SourceCandidateQueue) (scheduled out : List Candidate)
    → Apart qs
    → All Owns qs
    → IsComplete (round qs).0 (scheduled ++ (round qs).1) out
    → IsComplete qs scheduled out
unrolled qs scheduled out a o c = record {
  all = Perm.trans c.all (
      rw (append_assoc scheduled (round qs).1 (contents (round qs).0))
        (Perm.append_left scheduled (round-perm qs)));
  each = λ k. c.each k ∙ each-round k qs scheduled a o;
}

-- The loop ends within its fuel.
pub rounds_total :
    (fuel n : ℕ) (qs : List SourceCandidateQueue) (scheduled : List Candidate)
    → IsRunning n fuel qs scheduled
    → (out : List Candidate) × (rounds fuel n qs scheduled ≡ some out) × IsComplete qs scheduled out
unfolding rounds
rounds_total zero n qs scheduled r =
    (scheduled, ground (arith, r.total, r.enough), finished qs scheduled (omega (arith, r.enough)))
rounds_total (suc fuel) n qs scheduled r = elim (Bool-cases (ltb (length scheduled) n)) [
  | inr e ↦ (scheduled, rw e, finished qs scheduled (ground (arith, r.total)))
  | inl e ↦
      let (out, eq, done) =
        rounds_total fuel n (round qs).0 (scheduled ++ (round qs).1)
          (round-IsRunning n fuel qs scheduled r (ground (arith, r.total))) in
      (out, rw (e, rounds) eq, unrolled qs scheduled out r.apart r.owned done)
]

pub rounds_extends :
    (fuel n : ℕ) (qs : List SourceCandidateQueue) (scheduled out : List Candidate)
    → rounds fuel n qs scheduled ≡ some out
    → (rest : List Candidate) × (out ≡ scheduled ++ rest)
unfolding rounds
rounds_extends zero n qs scheduled out h = ([], ground (arith, append-nil scheduled))
rounds_extends (suc fuel) n qs scheduled out h = elim (Bool-cases (ltb (length scheduled) n)) [
  | inr e ↦ ([], ground (arith, append-nil scheduled))
  | inl e ↦
      let (rest, eq) =
        rounds_extends fuel n (round qs).0 (scheduled ++ (round qs).1) out (ground arith) in
      ((round qs).1 ++ rest, eq ∙ append_assoc scheduled (round qs).1 rest)
]
