-- ===== src/Schedule/Queues.antt =====
-- The queues that source_fair_candidates fills: each source has one, with its candidates in the
-- order of the input, and no index is out of range.
use v2ray_subscription_manag.Prelude.{
  ℕ, zero, suc, ◌≡◌, refl, Bool, true, false, List, [], ◌∷◌, ◌++◌, Option, none, some, arith, All,
  length, eq_iff, if◌then◌else◌, ◌↔◌,
}
use v2ray_subscription_manag.Model.{Candidate}
use v2ray_subscription_manag.Schedule.{
  SourceCandidateQueue, QueueKey, same_key, push_queue, push_at,
}

pub same_key_iff : (a b : QueueKey) → (same_key a b ≡ true) ↔ (a ≡ b)
unfolding same_key
same_key_iff a b = ground (arith, eq_iff a.source b.source)

abbrev pub queue_key : SourceCandidateQueue → QueueKey
queue_key q = record { source = q.source; priority = q.priority }

abbrev pub source_of : Candidate → QueueKey
source_of c = record { source = c.source; priority = c.priority }

abbrev pub of_source : QueueKey → Candidate → Bool
of_source k c = same_key (source_of c) k

abbrev pub has_queue : QueueKey → List SourceCandidateQueue → Bool
has_queue k [] = false
has_queue k (q ∷ qs) = if same_key (queue_key q) k then true else has_queue k qs

-- No two queues have one key.
abbrev pub Apart : List SourceCandidateQueue → Type 0
Apart [] = Unit {0}
Apart (q ∷ qs) = (has_queue (queue_key q) qs ≡ false) × Apart qs

-- The preferred and the regular candidates of the first queue with a key.
abbrev pub parts : QueueKey → List SourceCandidateQueue → List Candidate × List Candidate
parts k [] = ([], [])
parts k (q ∷ qs) = if same_key (queue_key q) k then (q.preferred, q.regular) else parts k qs

abbrev pub position : QueueKey → List SourceCandidateQueue → Option ℕ
position k [] = none
position k (q ∷ qs) =
    if same_key (queue_key q) k
    then some 0
    else elim (position k qs) [ none ↦ none | some i ↦ some (suc i) ]

abbrev pub contents : List SourceCandidateQueue → List Candidate
contents [] = []
contents (q ∷ qs) = (q.preferred ++ q.regular) ++ contents qs

-- Each candidate waits in the queue of its source.
abbrev pub Owns : SourceCandidateQueue → Type 0
Owns q =
    All (λ c. of_source (queue_key q) c ≡ true) q.preferred
    × All (λ c. of_source (queue_key q) c ≡ true) q.regular

-- The push by key that the index stands for.
abbrev pub push_key : Bool → Candidate → List SourceCandidateQueue → List SourceCandidateQueue
push_key b c [] = []
push_key b c (q ∷ qs) =
    if same_key (queue_key q) (source_of c) then push_queue b c q ∷ qs else q ∷ push_key b c qs

pub push_at-push_key :
    (b : Bool) (c : Candidate) (i : ℕ) (qs : List SourceCandidateQueue)
    → position (source_of c) qs ≡ some i
    → push_at b c i qs ≡ some (push_key b c qs)
unfolding push_at
push_at-push_key b c i [] h = cc
push_at-push_key b c zero (q ∷ qs) h = ground arith
push_at-push_key b c (suc i) (q ∷ qs) h = ground (arith, push_at-push_key b c i qs)

pub push_at_end :
    (b : Bool) (c : Candidate) (qs : List SourceCandidateQueue) (q : SourceCandidateQueue)
    → push_at b c (length qs) (qs ++ q ∷ []) ≡ some (qs ++ push_queue b c q ∷ [])
unfolding push_at
push_at_end b c [] q = refl
push_at_end b c (x ∷ qs) q = ground (arith, push_at_end b c qs q)

pub position-push_key :
    (b : Bool) (c : Candidate) (k : QueueKey) (qs : List SourceCandidateQueue)
    → position k (push_key b c qs) ≡ position k qs
unfolding push_queue
position-push_key b c k [] = refl
position-push_key b c k (q ∷ qs) = ground (arith, position-push_key b c k qs)

pub has_queue-push_key :
    (b : Bool) (c : Candidate) (k : QueueKey) (qs : List SourceCandidateQueue)
    → has_queue k (push_key b c qs) ≡ has_queue k qs
unfolding push_queue
has_queue-push_key b c k [] = refl
has_queue-push_key b c k (q ∷ qs) = ground (arith, has_queue-push_key b c k qs)

pub push_key-Apart :
    (b : Bool) (c : Candidate) (qs : List SourceCandidateQueue) → Apart qs → Apart (push_key b c qs)
unfolding push_queue
push_key-Apart b c [] h = tt
push_key-Apart b c (q ∷ qs) h =
    ground (arith, push_key-Apart b c qs h.1, has_queue-push_key b c (queue_key q) qs)

-- One more candidate in the parts of its key.
abbrev pub with_pushed :
    Bool → Candidate → QueueKey → List Candidate × List Candidate → List Candidate × List Candidate
with_pushed b c k (p, r) =
    if of_source k c then if b then (p ++ c ∷ [], r) else (p, r ++ c ∷ []) else (p, r)

pub parts-push_key :
    (b : Bool) (c : Candidate) (k : QueueKey) (i : ℕ) (qs : List SourceCandidateQueue)
    → position (source_of c) qs ≡ some i
    → parts k (push_key b c qs) ≡ with_pushed b c k (parts k qs)
unfolding push_queue
parts-push_key b c k i [] h = cc
parts-push_key b c k zero (q ∷ qs) h = ground (
  arith,
  same_key_iff (queue_key q) (source_of c),
  same_key_iff (queue_key q) k,
  same_key_iff (source_of c) k,
)
parts-push_key b c k (suc i) (q ∷ qs) h = ground (
  arith,
  same_key_iff (queue_key q) (source_of c),
  same_key_iff (queue_key q) k,
  same_key_iff (source_of c) k,
  parts-push_key b c k i qs,
)
