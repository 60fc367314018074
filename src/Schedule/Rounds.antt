-- ===== src/Schedule/Rounds.antt =====
-- The rounds of source_fair_candidates over the queues: what one takes from each source, and that
-- the loop ends with nothing left.
use mathlib.Core.List.Perm
use v2ray_subscription_manag.Prelude.{
  ◌≤◌, ◌≡◌, refl, ap, ap₂, ◌∙◌, true, false, List, [], ◌∷◌, ◌++◌, Perm, append-nil, Option, none,
  some, arith, All, keep, keep-append, length, length-append, perm_exchange, if◌then◌else◌,
}
use v2ray_subscription_manag.Model.{Candidate}
use v2ray_subscription_manag.Schedule.{
  SourceCandidateQueue, QueueKey, same_key, pop_lists, pop_front, round,
}
use v2ray_subscription_manag.Schedule.Queues.{
  same_key_iff, queue_key, of_source, has_queue, Apart, parts, contents, Owns,
}

-- The candidates of a source that wait, in the order in which they will be taken.
abbrev pub line : QueueKey → List SourceCandidateQueue → List Candidate
line k qs = (parts k qs).0 ++ (parts k qs).1

abbrev pub head_of : List Candidate → List Candidate
head_of [] = []
head_of (c ∷ cs) = c ∷ []

abbrev pub tail_of : List Candidate → List Candidate
tail_of [] = []
tail_of (c ∷ cs) = cs

abbrev pub to_list : Option Candidate → List Candidate
to_list none = []
to_list (some c) = c ∷ []

-- What one queue gives in a round.
pop_lists_lem :
    (q : SourceCandidateQueue) (p r : List Candidate)
    → let (c, q') = pop_lists q p r in
      (to_list c ≡ head_of (p ++ r))
      × (q'.preferred ++ q'.regular ≡ tail_of (p ++ r))
      × (queue_key q' ≡ queue_key q)
unfolding pop_lists
pop_lists_lem q (c ∷ p) r = (refl, refl, refl)
pop_lists_lem q [] (c ∷ r) = (refl, refl, refl)
pop_lists_lem q [] [] = (refl, refl, refl)

pop_lists-Owns :
    (q : SourceCandidateQueue) (p r : List Candidate)
    → All (λ c. of_source (queue_key q) c ≡ true) p
    → All (λ c. of_source (queue_key q) c ≡ true) r
    → let (c, q') = pop_lists q p r in
      Owns q' × All (λ c. of_source (queue_key q) c ≡ true) (to_list c)
unfolding pop_lists
pop_lists-Owns q (c ∷ p) r h k = ((h.1, k), (h.0, tt))
pop_lists-Owns q [] (c ∷ r) h k = ((tt, k.1), (k.0, tt))
pop_lists-Owns q [] [] h k = ((tt, tt), tt)

-- The candidates that a queue gives.
abbrev pub given : SourceCandidateQueue → List Candidate
given q = to_list (pop_front q).0

abbrev pub left : SourceCandidateQueue → SourceCandidateQueue
left q = (pop_front q).1

pub round-cons :
    (q : SourceCandidateQueue) (qs : List SourceCandidateQueue)
    → ((round (q ∷ qs)).0 ≡ left q ∷ (round qs).0) × ((round (q ∷ qs)).1 ≡ given q ++ (round qs).1)
unfolding round
round-cons q qs = ground arith

module _ (q : SourceCandidateQueue) where
  pub given_lem :
      (given q ≡ head_of (q.preferred ++ q.regular))
      × ((left q).preferred ++ (left q).regular ≡ tail_of (q.preferred ++ q.regular))
      × (queue_key (left q) ≡ queue_key q)
  unfolding pop_front
  given_lem = pop_lists_lem q q.preferred q.regular

  pub given-Owns : Owns q → Owns (left q) × All (λ c. of_source (queue_key q) c ≡ true) (given q)
  unfolding pop_front
  given-Owns h = pop_lists-Owns q q.preferred q.regular h.0 h.1

has_queue-round :
    (k : QueueKey) (qs : List SourceCandidateQueue) → has_queue k (round qs).0 ≡ has_queue k qs
unfolding round
has_queue-round k [] = refl
has_queue-round k (q ∷ qs) = ground (arith, (given_lem q).2, has_queue-round k qs)

pub round-Apart : (qs : List SourceCandidateQueue) → Apart qs → Apart (round qs).0
unfolding round
round-Apart [] h = tt
round-Apart (q ∷ qs) h = (
  ap (λ k. has_queue k (round qs).0) (given_lem q).2 ∙ has_queue-round (queue_key q) qs ∙ h.0,
  round-Apart qs h.1,
)

pub round-Owns : (qs : List SourceCandidateQueue) → All Owns qs → All Owns (round qs).0
unfolding round
round-Owns [] h = tt
round-Owns (q ∷ qs) h = ((given-Owns q h.0).0, round-Owns qs h.1)

pub line_missing :
    (k : QueueKey) (qs : List SourceCandidateQueue) → has_queue k qs ≡ false → line k qs ≡ []
line_missing k [] h = refl
line_missing k (q ∷ qs) h = ground (arith, line_missing k qs)

-- Each source gives the first of its line, and no other.
pub line-round :
    (k : QueueKey) (qs : List SourceCandidateQueue) → line k (round qs).0 ≡ tail_of (line k qs)
unfolding round
line-round k [] = refl
line-round k (q ∷ qs) = ground (arith, given_lem q, line-round k qs)

keep_owned :
    (k j : QueueKey) (cs : List Candidate)
    → All (λ c. of_source j c ≡ true) cs
    → keep (of_source k) cs ≡ (if same_key j k then cs else [])
keep_owned k j [] h = ground arith
keep_owned k j (c ∷ cs) h = ground (
  arith,
  same_key_iff (record { source = c.source; priority = c.priority }) j,
  keep_owned k j cs h.1,
)

pub keep-round :
    (k : QueueKey) (qs : List SourceCandidateQueue)
    → Apart qs
    → All Owns qs
    → keep (of_source k) (round qs).1 ≡ head_of (line k qs)
unfolding round
keep-round k [] a o = refl
keep-round k (q ∷ qs) a o = ground (
  arith,
  keep-append (of_source k) (given q) (round qs).1,
  keep_owned k (queue_key q) (given q) (given-Owns q o.0).1,
  (given_lem q).0,
  same_key_iff (queue_key q) k,
  line_missing k qs,
  keep-round k qs a.1 o.1,
  append-nil (head_of (q.preferred ++ q.regular)),
)

pub head-append-tail : (cs : List Candidate) → head_of cs ++ tail_of cs ≡ cs
head-append-tail [] = refl
head-append-tail (c ∷ cs) = refl

-- A round moves candidates from the queues to the schedule, and loses none.
pub round-perm :
    (qs : List SourceCandidateQueue) → Perm ((round qs).1 ++ contents (round qs).0) (contents qs)
round-perm [] = unfold round in Perm.refl []
round-perm (q ∷ qs) =
    let whole : given q ++ ((left q).preferred ++ (left q).regular) ≡ q.preferred ++ q.regular =
      ap₂ ◌++◌ (given_lem q).0 (given_lem q).1 ∙ head-append-tail (q.preferred ++ q.regular) in
    rw ((round-cons q qs).0, (round-cons q qs).1)
      (Perm.trans
        (perm_exchange (given q) (round qs).1 ((left q).preferred ++ (left q).regular)
          (contents (round qs).0))
        (rw whole (Perm.append_left (q.preferred ++ q.regular) (round-perm qs))))

-- While a candidate waits, a round takes one at least.
pub round_progress :
    (qs : List SourceCandidateQueue) → 1 ≤ length (contents qs) → 1 ≤ length (round qs).1
unfolding round
round_progress [] h = absurd (omega arith)
round_progress (q ∷ qs) h =
    ground (
      arith,
      given_lem q,
      length-append (q.preferred ++ q.regular) (contents qs),
      round_progress qs,
    )

pub contents_empty :
    (k : QueueKey) (qs : List SourceCandidateQueue) → length (contents qs) ≡ 0 → line k qs ≡ []
contents_empty k [] h = refl
contents_empty k (q ∷ qs) h =
    ground (arith, length-append (q.preferred ++ q.regular) (contents qs), contents_empty k qs)
