-- ===== src/Schedule/Fair.antt =====
-- source_fair_candidates ends, loses no candidate, and serves the sources in turn.
use mathlib.Core.List.Perm
use v2ray_subscription_manag.Prelude.{
  ℕ, zero, suc, ◌+◌, ◌≤◌, ◌≡◌, refl, ap, sym, ◌∙◌, Bool, not, ◌&&◌, List, [], ◌∷◌, ◌++◌, Perm, some,
  arith, All, keep, keep-append, length, length-append, length-perm, leb, ltb, leb→le, inl, inr,
  Bool-cases, min_of, contains, subst, append-nil, ◌==◌,
}
use v2ray_subscription_manag.Prelude.Sort.{sort_by, sort_by-All}
use v2ray_subscription_manag.Model.{Candidate, ProbeStopPolicy}
use v2ray_subscription_manag.Stop.{is_empty}
use v2ray_subscription_manag.Schedule.{
  SourceCandidateQueue, QueueKey, compare_queues, round, rounds, source_fair_candidates,
  schedule_active_candidates,
}
use v2ray_subscription_manag.Schedule.Queues.{of_source, Apart, parts, contents, Owns}
use v2ray_subscription_manag.Schedule.Distribute.{split_source, distribute-IsFilled, empty-IsFilled}
use v2ray_subscription_manag.Schedule.Sorted.{sort_by-Apart, parts-sort_by, contents-sort_by}
use v2ray_subscription_manag.Schedule.Rounds.{line, head_of, keep-round}
use v2ray_subscription_manag.Schedule.Order.{
  IsAscending, IsQueued, sort_by-IsQueued, round-IsQueued, round-IsAscending,
}
use v2ray_subscription_manag.Schedule.Complete.{
  IsRunning, round-IsRunning, IsComplete, each-round, rounds_total, rounds_extends,
}

-- So many of the candidates of each source of `out` are in a part of it: `r`, or all of a shorter
-- one.
abbrev pub Served : ℕ → List Candidate → List Candidate → Type 0
Served r scheduled out =
    (k : QueueKey)
    → length (keep (of_source k) scheduled) ≡ min_of r (length (keep (of_source k) out))

-- A prefix of `out` has the first `j` candidates of each source, or all of a shorter one; what
-- follows it is the next candidate of each source that has one, by the priorities of the sources.
abbrev pub HasTurn : ℕ → List Candidate → Type 0
HasTurn j out =
    (before turn after : List Candidate) × (out ≡ before ++ turn ++ after)
    × Served j before out
    × Served (j + 1) (before ++ turn) out
    × IsAscending turn

length-head_of : (cs : List Candidate) → length (head_of cs) ≡ min_of 1 (length cs)
length-head_of [] = refl
length-head_of (c ∷ cs) = ground arith

-- Each source's candidates stand in `out` in the order of its line.
abbrev Each : List SourceCandidateQueue → List Candidate → List Candidate → Type 0
Each qs scheduled out =
    (k : QueueKey) → keep (of_source k) out ≡ keep (of_source k) scheduled ++ line k qs

Served-round :
    (r : ℕ) (qs : List SourceCandidateQueue) (scheduled out : List Candidate)
    → Apart qs
    → All Owns qs
    → Each qs scheduled out
    → Served r scheduled out
    → Served (r + 1) (scheduled ++ (round qs).1) out
Served-round r qs scheduled out a o c h k =
    let kept = keep (of_source k) scheduled in
    let now : length (keep (of_source k) (scheduled ++ (round qs).1))
        ≡ length kept + length (head_of (line k qs)) =
      ap length (keep-append (of_source k) scheduled (round qs).1)
      ∙ length-append kept (keep (of_source k) (round qs).1)
      ∙ ap (λ l. length kept + length l) (keep-round k qs a o) in
    let whole : length (keep (of_source k) out) ≡ length kept + length (line k qs) =
      ap length (c k) ∙ length-append kept (line k qs) in
    ground (arith, now, whole, h k, length-head_of (line k qs))

Served-all : (r j : ℕ) (out : List Candidate) → Served r out out → r ≤ j → HasTurn j out
Served-all r j out h le = (
  out,
  [],
  [],
  sym (append-nil (out ++ []) ∙ append-nil out),
  λ k. ground (arith, h k),
  λ k. rw (append-nil out) (ground (arith, h k)),
  tt,
)

-- The turns from the `r`th round on.
turns :
    (fuel n r j : ℕ) (qs : List SourceCandidateQueue) (scheduled out : List Candidate)
    → IsRunning n fuel qs scheduled
    → IsQueued qs
    → rounds fuel n qs scheduled ≡ some out
    → Each qs scheduled out
    → Served r scheduled out
    → r ≤ j
    → HasTurn j out
unfolding rounds
turns zero n r j qs scheduled out run queued eq c h le =
    let e : scheduled ≡ out = ground (arith, run.total, run.enough) in
    Served-all r j out (subst (λ s. Served r s out) e h) le
turns (suc fuel) n r j qs scheduled out run queued eq c h le =
    elim (Bool-cases (ltb (length scheduled) n)) [
      | inr done ↦
          let e : scheduled ≡ out = ground arith in
          Served-all r j out (subst (λ s. Served r s out) e h) le
      | inl more ↦
          let next = Served-round r qs scheduled out run.apart run.owned c h in
          let eq' : rounds fuel n (round qs).0 (scheduled ++ (round qs).1) ≡ some out =
            ground arith in
          elim (Bool-cases (leb j r)) [
            | inl now ↦
                let (rest, split) =
                  rounds_extends fuel n (round qs).0 (scheduled ++ (round qs).1) out eq' in
                let e : r ≡ j = ground arith in
                (
                  scheduled,
                  (round qs).1,
                  rest,
                  split,
                  subst (λ i. Served i scheduled out) e h,
                  subst (λ i. Served (i + 1) (scheduled ++ (round qs).1) out) e next,
                  round-IsAscending qs run.owned queued,
                )
            | inr later ↦
                turns fuel n (r + 1) j (round qs).0 (scheduled ++ (round qs).1) out
                  (round-IsRunning n fuel qs scheduled run (ground (arith, run.total)))
                  (round-IsQueued qs queued) eq'
                  (λ k. c k ∙ sym (each-round k qs scheduled run.apart run.owned)) next
                  (ground arith)
          ]
    ]

-- A schedule of all candidates and no other, in which each source has its preferred candidates
-- first and the others behind them, both in the order of the input, and the sources take turns.
pub record IsScheduled (candidates : List Candidate) (p : Candidate → Bool) (out : List Candidate)
    : Type 0 where
  pub all : Perm out candidates
  pub each :
      (k : QueueKey)
      → keep (of_source k) out ≡ (split_source p k candidates).0 ++ (split_source p k candidates).1
  pub fair : (j : ℕ) → HasTurn j out

short-IsScheduled :
    (candidates : List Candidate) (p : Candidate → Bool)
    → length candidates ≤ 1
    → IsScheduled candidates p candidates
short-IsScheduled [] p h = record {
  all = Perm.refl [];
  each = λ k. refl;
  fair = λ j. Served-all 0 j [] (λ k. ground arith) (omega arith);
}
short-IsScheduled (c ∷ []) p h = record {
  all = Perm.refl (c ∷ []);
  each = λ k. ground arith;
  fair = λ j. elim (Bool-cases (j == 0)) [
    | inl e ↦ ([], c ∷ [], [], refl, λ k. ground arith, λ k. ground arith, (tt, tt))
    | inr e ↦ Served-all 1 j (c ∷ []) (λ k. ground arith) (ground arith)
  ];
}
short-IsScheduled (c ∷ d ∷ cs) p h = absurd (omega arith)

module _ (candidates : List Candidate) (p : Candidate → Bool) where
  long-IsScheduled :
      (queues : List SourceCandidateQueue) (out : List Candidate)
      → Apart queues
      → All Owns queues
      → ((k : QueueKey) → parts k queues ≡ split_source p k candidates)
      → Perm (contents queues) candidates
      → rounds (length candidates) (length candidates) queues [] ≡ some out
      → IsComplete queues [] out
      → IsQueued queues
      → IsScheduled candidates p out
  long-IsScheduled queues out apart owned sorted_out all eq done queued = record {
    all = Perm.trans done.all all;
    each = λ k. done.each k ∙ ap (λ s. s.0 ++ s.1) (sorted_out k);
    fair = λ j.
        turns (length candidates) (length candidates) 0 j queues [] out
          (record {
            apart = apart;
            owned = owned;
            total = omega (arith, length-perm all);
            enough = omega (arith, length-perm all);
          })
          queued eq done.each (λ k. ground arith) (omega arith);
  }

pub source_fair_candidates_lem :
    (candidates : List Candidate) (p : Candidate → Bool)
    → (out : List Candidate) × (source_fair_candidates candidates p ≡ some out)
      × IsScheduled candidates p out
unfolding source_fair_candidates
source_fair_candidates_lem candidates p = elim (Bool-cases (leb (length candidates) 1)) [
  | inl short ↦ (candidates, rw short, short-IsScheduled candidates p (leb→le _ _ short))
  | inr long ↦
      let (d, filled, f) = distribute-IsFilled p 0 [] candidates _ (empty-IsFilled p) in
      let queues = sort_by compare_queues d.queues in
      let apart = sort_by-Apart compare_queues d.queues f.apart in
      let owned = sort_by-All compare_queues Owns d.queues f.owned in
      let all = Perm.trans (contents-sort_by compare_queues d.queues) f.all in
      let (out, eq, done) = rounds_total (length candidates) (length candidates) queues [] (record {
        apart = apart;
        owned = owned;
        total = omega (arith, length-perm all);
        enough = omega (arith, length-perm all);
      }) in
      (
        out,
        rw (long, filled, source_fair_candidates) eq,
        long-IsScheduled candidates p queues out apart owned
            (λ k. parts-sort_by compare_queues k d.queues f.apart ∙ f.sorted_out k) all eq done
            (sort_by-IsQueued d.queues),
      )
]

abbrev pub is_wanted : ProbeStopPolicy → Candidate → Bool
is_wanted policy candidate =
    (policy.prioritize_stability && not (is_empty policy.previous_working_keys))
    && contains policy.previous_working_keys candidate.dedup_key

-- schedule_active_candidates returns (it neither panics nor runs on) all candidates and no other;
-- each source has those of the previous run first, if stability counts, and otherwise keeps the
-- order of the input; and for every number j a prefix of the result has the first j candidates of
-- each source, or all of a shorter one, and is followed by the next candidate of each source that
-- has one, lower priority values first.
pub schedule_active_candidates_lem :
    (candidates : List Candidate) (policy : ProbeStopPolicy)
    → (out : List Candidate) × (schedule_active_candidates candidates policy ≡ some out)
      × IsScheduled candidates (is_wanted policy) out
unfolding schedule_active_candidates
schedule_active_candidates_lem candidates policy =
    let same : schedule_active_candidates candidates policy
        ≡ source_fair_candidates candidates (is_wanted policy) =
      unfold source_fair_candidates in ground arith in
    let (out, eq, fair) = source_fair_candidates_lem candidates (is_wanted policy) in
    (out, same ∙ eq, fair)
