-- ===== src/Schedule/Order.antt =====
-- In which order source_fair_candidates serves the sources: by their priority.
use v2ray_subscription_manag.Prelude.{
  ℕ, ◌≤◌, ◌≡◌, ◌≢◌, ap, true, List, [], ◌∷◌, ◌++◌, Option, none, some, Ordering, arith, All,
}
use v2ray_subscription_manag.Prelude.Order.{
  IsOrd, then-IsOrd, on-IsOrd, compare-IsOrd, compare_text-IsOrd,
}
use v2ray_subscription_manag.Prelude.Sort.{sort_by, IsSorted, sort_by-IsSorted}
use v2ray_subscription_manag.Model.{Candidate}
use v2ray_subscription_manag.Schedule.{
  SourceCandidateQueue, QueueKey, pop_front, compare_queues, round,
}
use v2ray_subscription_manag.Schedule.Queues.{same_key_iff, queue_key, source_of, of_source, Owns}
use v2ray_subscription_manag.Schedule.Rounds.{left, to_list, given_lem, given-Owns, round-cons}

-- Each candidate has at most the priority value of all later ones.
abbrev pub IsAscending : List Candidate → Type 0
IsAscending [] = Unit
IsAscending (c ∷ cs) = All (λ d. c.priority ≤ d.priority) cs × IsAscending cs

abbrev pub IsQueued : List SourceCandidateQueue → Type 0
IsQueued [] = Unit
IsQueued (q ∷ qs) = All (λ r. q.priority ≤ r.priority) qs × IsQueued qs

compare_queues-IsOrd : IsOrd (λ (q : SourceCandidateQueue). Unit {0}) compare_queues
unfolding compare_queues
compare_queues-IsOrd = then-IsOrd (on-IsOrd _ (λ q. q.priority) compare-IsOrd) (
    then-IsOrd (on-IsOrd _ (λ q. q.first_index) compare-IsOrd)
      (on-IsOrd _ (λ q. q.source) compare_text-IsOrd))

compare_queues-le :
    (q r : SourceCandidateQueue) → compare_queues q r ≢ Ordering.gt → q.priority ≤ r.priority
unfolding compare_queues
compare_queues-le q r h = ground arith

All-le :
    (q : SourceCandidateQueue) (qs : List SourceCandidateQueue)
    → All (λ r. compare_queues q r ≢ Ordering.gt) qs
    → All (λ r. q.priority ≤ r.priority) qs
All-le q [] h = tt
All-le q (r ∷ qs) h = (compare_queues-le q r h.0, All-le q qs h.1)

IsSorted-IsQueued : (qs : List SourceCandidateQueue) → IsSorted compare_queues qs → IsQueued qs
IsSorted-IsQueued [] h = tt
IsSorted-IsQueued (q ∷ qs) h = (All-le q qs h.0, IsSorted-IsQueued qs h.1)

All-unit : (qs : List SourceCandidateQueue) → All (λ q. Unit {0}) qs
All-unit [] = tt
All-unit (q ∷ qs) = (tt, All-unit qs)

pub sort_by-IsQueued : (qs : List SourceCandidateQueue) → IsQueued (sort_by compare_queues qs)
sort_by-IsQueued qs =
    IsSorted-IsQueued (sort_by compare_queues qs)
      (sort_by-IsSorted compare_queues-IsOrd qs (All-unit qs))

-- A round changes no priority.
left-priority : (q : SourceCandidateQueue) → (left q).priority ≡ q.priority
left-priority q = ap (λ k. k.priority) (given_lem q).2

left-All :
    (p : ℕ) (qs : List SourceCandidateQueue)
    → All (λ r. p ≤ r.priority) qs
    → All (λ r. p ≤ r.priority) (round qs).0
unfolding round
left-All p [] h = tt
left-All p (q ∷ qs) h = (rw (left-priority q) h.0, left-All p qs h.1)

pub round-IsQueued : (qs : List SourceCandidateQueue) → IsQueued qs → IsQueued (round qs).0
unfolding round
round-IsQueued [] h = tt
round-IsQueued (q ∷ qs) h =
    (rw (left-priority q) (left-All q.priority qs h.0), round-IsQueued qs h.1)

owned-priority : (k : QueueKey) (c : Candidate) → of_source k c ≡ true → c.priority ≡ k.priority
owned-priority k c h = ap (λ j. j.priority) ((same_key_iff (source_of c) k).0 h)

module _ (k : QueueKey) where
  prepend-All :
      (p : ℕ) (o : Option Candidate) (cs : List Candidate)
      → All (λ c. of_source k c ≡ true) (to_list o)
      → p ≤ k.priority
      → All (λ c. p ≤ c.priority) cs
      → All (λ c. p ≤ c.priority) (to_list o ++ cs)
  prepend-All p none cs own le h = h
  prepend-All p (some c) cs own le h = (rw (owned-priority k c own.0) le, h)

  prepend-IsAscending :
      (o : Option Candidate) (cs : List Candidate)
      → All (λ c. of_source k c ≡ true) (to_list o)
      → All (λ c. k.priority ≤ c.priority) cs
      → IsAscending cs
      → IsAscending (to_list o ++ cs)
  prepend-IsAscending none cs own h s = s
  prepend-IsAscending (some c) cs own h s = (rw (owned-priority k c own.0) h, s)

taken-All :
    (p : ℕ) (qs : List SourceCandidateQueue)
    → All Owns qs
    → All (λ r. p ≤ r.priority) qs
    → All (λ c. p ≤ c.priority) (round qs).1
taken-All p [] own h = unfold round in tt
taken-All p (q ∷ qs) own h = rw ((round-cons q qs).1) (
    prepend-All (queue_key q) p (pop_front q).0 (round qs).1 (given-Owns q own.0).1 h.0
      (taken-All p qs own.1 h.1))

-- What a round takes is in the order of the priorities.
pub round-IsAscending :
    (qs : List SourceCandidateQueue) → All Owns qs → IsQueued qs → IsAscending (round qs).1
round-IsAscending [] own h = unfold round in tt
round-IsAscending (q ∷ qs) own h = rw ((round-cons q qs).1) (
    prepend-IsAscending (queue_key q) (pop_front q).0 (round qs).1 (given-Owns q own.0).1
      (taken-All q.priority qs own.1 h.0) (round-IsAscending qs own.1 h.1))
