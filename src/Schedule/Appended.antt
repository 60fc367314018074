-- ===== src/Schedule/Appended.antt =====
-- What one push does to the queues: their contents, owners and keys.
use mathlib.Core.List.Perm
use v2ray_subscription_manag.Prelude.{
  ℕ, zero, suc, ◌≡◌, refl, Bool, true, false, List, [], ◌∷◌, ◌++◌, Perm, perm_middle, append_assoc,
  none, some, arith, All, All-append, length, inl, inr, Bool-cases, if◌then◌else◌,
}
use v2ray_subscription_manag.Model.{Candidate}
use v2ray_subscription_manag.Schedule.{SourceCandidateQueue, QueueKey, same_key, push_queue}
use v2ray_subscription_manag.Schedule.Queues.{
  same_key_iff, queue_key, source_of, of_source, has_queue, Apart, parts, position, contents, Owns,
  push_key,
}

push_queue-perm :
    (b : Bool) (c : Candidate) (q : SourceCandidateQueue) (rest : List Candidate)
    → Perm
        (((push_queue b c q).preferred ++ (push_queue b c q).regular) ++ rest)
        (c ∷ ((q.preferred ++ q.regular) ++ rest))
unfolding push_queue
push_queue-perm true c q rest = simp append_assoc (perm_middle q.preferred (q.regular ++ rest))
push_queue-perm false c q rest = simp append_assoc (
    Perm.trans (Perm.append_left q.preferred (perm_middle q.regular rest))
      (perm_middle q.preferred (q.regular ++ rest)))

pub push_key-perm :
    (b : Bool) (c : Candidate) (i : ℕ) (qs : List SourceCandidateQueue)
    → position (source_of c) qs ≡ some i
    → Perm (contents (push_key b c qs)) (c ∷ contents qs)
push_key-perm b c i [] h = cc
push_key-perm b c zero (q ∷ qs) h = elim (Bool-cases (same_key (queue_key q) (source_of c))) [
  | inl e ↦ rw e (push_queue-perm b c q (contents qs))
  | inr e ↦ absurd (ground arith)
]
push_key-perm b c (suc i) (q ∷ qs) h = elim (Bool-cases (same_key (queue_key q) (source_of c))) [
  | inl e ↦ absurd (ground arith)
  | inr e ↦ rw e (
      Perm.trans
        (Perm.append_left (q.preferred ++ q.regular) (push_key-perm b c i qs (ground arith)))
        (perm_middle (q.preferred ++ q.regular) (contents qs)))
]

push_queue-Owns :
    (b : Bool) (c : Candidate) (q : SourceCandidateQueue)
    → same_key (queue_key q) (source_of c) ≡ true
    → Owns q
    → Owns (push_queue b c q)
unfolding push_queue
push_queue-Owns true c q e h = (
  All-append (λ d. of_source (queue_key q) d ≡ true) q.preferred (c ∷ []) h.0
      (
        ground (
          arith,
          same_key_iff (queue_key q) (source_of c),
          same_key_iff (source_of c) (queue_key q),
        ),
        tt,
      ),
  h.1,
)
push_queue-Owns false c q e h = (
  h.0,
  All-append (λ d. of_source (queue_key q) d ≡ true) q.regular (c ∷ []) h.1
      (
        ground (
          arith,
          same_key_iff (queue_key q) (source_of c),
          same_key_iff (source_of c) (queue_key q),
        ),
        tt,
      ),
)

pub push_key-Owns :
    (b : Bool) (c : Candidate) (qs : List SourceCandidateQueue)
    → All Owns qs
    → All Owns (push_key b c qs)
push_key-Owns b c [] h = tt
push_key-Owns b c (q ∷ qs) h = elim (Bool-cases (same_key (queue_key q) (source_of c))) [
  | inl e ↦ rw e (push_queue-Owns b c q e h.0, h.1)
  | inr e ↦ rw e (h.0, push_key-Owns b c qs h.1)
]

-- A new queue at the end.
has_queue-append :
    (k : QueueKey) (qs : List SourceCandidateQueue) (q : SourceCandidateQueue)
    → has_queue k (qs ++ q ∷ []) ≡ (if has_queue k qs then true else same_key (queue_key q) k)
has_queue-append k [] q = ground arith
has_queue-append k (x ∷ qs) q = ground (arith, has_queue-append k qs q)

pub append-Apart :
    (qs : List SourceCandidateQueue) (q : SourceCandidateQueue)
    → position (queue_key q) qs ≡ none
    → Apart qs
    → Apart (qs ++ q ∷ [])
append-Apart [] q p h = (refl, tt)
append-Apart (x ∷ qs) q p h = ground (
  arith,
  has_queue-append (queue_key x) qs q,
  same_key_iff (queue_key q) (queue_key x),
  same_key_iff (queue_key x) (queue_key q),
  append-Apart qs q,
)

pub position-append :
    (k : QueueKey) (qs : List SourceCandidateQueue) (q : SourceCandidateQueue)
    → position k (qs ++ q ∷ []) ≡ elim (position k qs) [
      | none ↦ if same_key (queue_key q) k then some (length qs) else none
      | some i ↦ some i
    ]
position-append k [] q = ground arith
position-append k (x ∷ qs) q = ground (arith, position-append k qs q)

pub parts-append :
    (k : QueueKey) (qs : List SourceCandidateQueue) (q : SourceCandidateQueue)
    → position (queue_key q) qs ≡ none
    → parts k (qs ++ q ∷ [])
      ≡ (if same_key (queue_key q) k then (q.preferred, q.regular) else parts k qs)
parts-append k [] q p = refl
parts-append k (x ∷ qs) q p = ground (
  arith,
  same_key_iff (queue_key x) k,
  same_key_iff (queue_key q) k,
  same_key_iff (queue_key x) (queue_key q),
  parts-append k qs q,
)

pub parts_missing :
    (k : QueueKey) (qs : List SourceCandidateQueue) → position k qs ≡ none → parts k qs ≡ ([], [])
parts_missing k [] p = refl
parts_missing k (q ∷ qs) p = ground (arith, parts_missing k qs)

pub contents-append :
    (qs rs : List SourceCandidateQueue) → contents (qs ++ rs) ≡ contents qs ++ contents rs
contents-append [] rs = refl
contents-append (q ∷ qs) rs = rw (contents-append qs rs, append_assoc (q.preferred ++ q.regular))
