-- ===== src/Schedule/Sorted.antt =====
-- Sorting the queues of source_fair_candidates changes none of their views.
use mathlib.Core.List.{perm_append_comm}
use mathlib.Core.List.Perm
use v2ray_subscription_manag.Prelude.{
  ◌≡◌, refl, ◌∙◌, List, [], ◌∷◌, ◌++◌, Perm, append_assoc, Ordering, arith, inl, inr, Bool-cases,
}
use v2ray_subscription_manag.Prelude.Sort.{insert_sorted, sort_by, is_gt}
use v2ray_subscription_manag.Schedule.{SourceCandidateQueue, QueueKey}
use v2ray_subscription_manag.Schedule.Queues.{
  same_key_iff, queue_key, has_queue, Apart, parts, contents,
}

module _ (cmp : SourceCandidateQueue → SourceCandidateQueue → Ordering) where
  has_queue-insert_sorted :
      (k : QueueKey) (q : SourceCandidateQueue) (qs : List SourceCandidateQueue)
      → has_queue k (insert_sorted cmp q qs) ≡ has_queue k (q ∷ qs)
  unfolding insert_sorted
  has_queue-insert_sorted k q [] = refl
  has_queue-insert_sorted k q (x ∷ qs) = ground (arith, has_queue-insert_sorted k q qs)

  insert_sorted-Apart :
      (q : SourceCandidateQueue) (qs : List SourceCandidateQueue)
      → Apart (q ∷ qs)
      → Apart (insert_sorted cmp q qs)
  unfolding insert_sorted
  insert_sorted-Apart q [] h = h
  insert_sorted-Apart q (x ∷ qs) h = ground (
    arith,
    has_queue-insert_sorted (queue_key x) q qs,
    same_key_iff (queue_key q) (queue_key x),
    same_key_iff (queue_key x) (queue_key q),
    insert_sorted-Apart q qs,
  )

  parts-insert_sorted :
      (k : QueueKey) (q : SourceCandidateQueue) (qs : List SourceCandidateQueue)
      → Apart (q ∷ qs)
      → parts k (insert_sorted cmp q qs) ≡ parts k (q ∷ qs)
  unfolding insert_sorted
  parts-insert_sorted k q [] h = refl
  parts-insert_sorted k q (x ∷ qs) h = ground (
    arith,
    same_key_iff (queue_key q) k,
    same_key_iff (queue_key x) k,
    same_key_iff (queue_key x) (queue_key q),
    parts-insert_sorted k q qs,
  )

  has_queue-sort_by :
      (k : QueueKey) (qs : List SourceCandidateQueue)
      → has_queue k (sort_by cmp qs) ≡ has_queue k qs
  unfolding sort_by
  has_queue-sort_by k [] = refl
  has_queue-sort_by k (q ∷ qs) =
      ground (arith, has_queue-insert_sorted k q (sort_by cmp qs), has_queue-sort_by k qs)

  pub sort_by-Apart : (qs : List SourceCandidateQueue) → Apart qs → Apart (sort_by cmp qs)
  unfolding sort_by
  sort_by-Apart [] h = tt
  sort_by-Apart (q ∷ qs) h =
      insert_sorted-Apart q (sort_by cmp qs)
        (has_queue-sort_by (queue_key q) qs ∙ h.0, sort_by-Apart qs h.1)

  pub parts-sort_by :
      (k : QueueKey) (qs : List SourceCandidateQueue)
      → Apart qs
      → parts k (sort_by cmp qs) ≡ parts k qs
  unfolding sort_by
  parts-sort_by k [] h = refl
  parts-sort_by k (q ∷ qs) h = ground (
    arith,
    parts-insert_sorted k q (sort_by cmp qs)
        (has_queue-sort_by (queue_key q) qs ∙ h.0, sort_by-Apart qs h.1),
    parts-sort_by k qs h.1,
  )

  contents-insert_sorted :
      (q : SourceCandidateQueue) (qs : List SourceCandidateQueue)
      → Perm (contents (insert_sorted cmp q qs)) (contents (q ∷ qs))
  unfolding insert_sorted
  contents-insert_sorted q [] = Perm.refl _
  contents-insert_sorted q (x ∷ qs) = elim (Bool-cases (is_gt (cmp q x))) [
    | inr e ↦ rw e (Perm.refl _)
    | inl e ↦
        let a = q.preferred ++ q.regular in
        let b = x.preferred ++ x.regular in
        rw e (
          Perm.trans (Perm.append_left b (contents-insert_sorted q qs)) (
            rw (← append_assoc b a (contents qs), ← append_assoc a b (contents qs))
              (Perm.append_right (contents qs) (perm_append_comm b a))))
  ]

  pub contents-sort_by :
      (qs : List SourceCandidateQueue) → Perm (contents (sort_by cmp qs)) (contents qs)
  unfolding sort_by
  contents-sort_by [] = Perm.refl _
  contents-sort_by (q ∷ qs) =
      Perm.trans (contents-insert_sorted q (sort_by cmp qs))
        (Perm.append_left (q.preferred ++ q.regular) (contents-sort_by qs))
