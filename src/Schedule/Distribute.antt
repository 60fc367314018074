-- ===== src/Schedule/Distribute.antt =====
-- The loop that fills the queues never panics, and what the queues hold after it.
use mathlib.Core.List.Perm
use v2ray_subscription_manag.Prelude.{
  ℕ, ◌+◌, ◌≡◌, refl, ap, sym, ◌∙◌, Bool, true, false, not, ◌&&◌, List, [], ◌∷◌, ◌++◌, Perm,
  perm_middle, append-nil, append_assoc, none, some, arith, All, All-append, keep, keep-append,
  length, Option-cases, inl, inr, Bool-cases, if◌then◌else◌,
}
use v2ray_subscription_manag.Model.{Candidate}
use v2ray_subscription_manag.Schedule.{
  SourceCandidateQueue, QueueKey, find_index, push_queue, Distribution, empty_queue, distribute,
}
use v2ray_subscription_manag.Schedule.Queues.{
  same_key_iff, queue_key, source_of, of_source, Apart, parts, position, contents, Owns, push_key,
  push_at-push_key, push_at_end, position-push_key, push_key-Apart, with_pushed, parts-push_key,
}
use v2ray_subscription_manag.Schedule.Appended.{
  push_key-perm, push_key-Owns, append-Apart, position-append, parts-append, parts_missing,
  contents-append,
}

-- The candidates of a source that are preferred, and those that are not.
abbrev pub split_source :
    (Candidate → Bool) → QueueKey → List Candidate → List Candidate × List Candidate
split_source p k cs =
    (keep (λ c. of_source k c && p c) cs, keep (λ c. of_source k c && not (p c)) cs)

-- The state of the loop after the candidates `seen`.
pub record IsFilled (p : Candidate → Bool) (seen : List Candidate) (d : Distribution) : Type 0 where
  pub indexed : (k : QueueKey) → find_index k d.queue_indexes ≡ position k d.queues
  pub apart : Apart d.queues
  pub owned : All Owns d.queues
  pub sorted_out : (k : QueueKey) → parts k d.queues ≡ split_source p k seen
  pub all : Perm (contents d.queues) seen

split_source-snoc :
    (p : Candidate → Bool) (k : QueueKey) (seen : List Candidate) (c : Candidate)
    → split_source p k (seen ++ c ∷ []) ≡ with_pushed (p c) c k (split_source p k seen)
split_source-snoc p k seen c = ground (
  arith,
  keep-append (λ c. of_source k c && p c) seen (c ∷ []),
  keep-append (λ c. of_source k c && not (p c)) seen (c ∷ []),
  append-nil (keep (λ c. of_source k c && p c) seen),
  append-nil (keep (λ c. of_source k c && not (p c)) seen),
)

perm_snoc :
    (c : Candidate) (xs seen : List Candidate) → Perm xs seen → Perm (c ∷ xs) (seen ++ c ∷ [])
perm_snoc c xs seen h =
    Perm.trans (Perm.cons c h) (Perm.symm (rw append-nil at (perm_middle {a = c} seen [])))

module _ (p : Candidate → Bool) (seen : List Candidate) (c : Candidate) (d : Distribution)
    (f : IsFilled p seen d) where
  -- The queue of the source is there.
  push_old :
      (i : ℕ)
      → position (source_of c) d.queues ≡ some i
      → IsFilled p (seen ++ c ∷ []) (record d { queues = push_key (p c) c d.queues })
  push_old i at = record {
    indexed = λ k. f.indexed k ∙ sym (position-push_key (p c) c k d.queues);
    apart = push_key-Apart (p c) c d.queues f.apart;
    owned = push_key-Owns (p c) c d.queues f.owned;
    sorted_out = λ k.
        parts-push_key (p c) c k i d.queues at
        ∙ ap (with_pushed (p c) c k) (f.sorted_out k)
        ∙ sym (split_source-snoc p k seen c);
    all =
        Perm.trans (push_key-perm (p c) c i d.queues at)
          (perm_snoc c (contents d.queues) seen f.all);
  }

  -- A queue for a new source, with its first candidate.
  module _ (q : SourceCandidateQueue) (same : queue_key q ≡ source_of c)
      (first : q.preferred ≡ (if p c then c ∷ [] else []))
      (other : q.regular ≡ (if p c then [] else c ∷ []))
      (at : position (source_of c) d.queues ≡ none) where
    fresh_absent : position (queue_key q) d.queues ≡ none
    fresh_absent = rw same at

    fresh_parts : (k : QueueKey) → parts k (d.queues ++ q ∷ []) ≡ split_source p k (seen ++ c ∷ [])
    fresh_parts k = ground (
      arith,
      same_key_iff (queue_key q) k,
      same_key_iff (source_of c) k,
      parts-append k d.queues q fresh_absent,
      parts_missing k d.queues,
      split_source-snoc p k seen c,
      f.sorted_out k,
    )

    fresh_perm : Perm (contents (d.queues ++ q ∷ [])) (seen ++ c ∷ [])
    fresh_perm =
        let e : (q.preferred ++ q.regular) ++ [] ≡ c ∷ [] =
          rw (first, other) (elim (Bool-cases (p c)) [ inl y ↦ rw y | inr n ↦ rw n ]) in
        rw (contents-append d.queues (q ∷ []), e) (Perm.append_right (c ∷ []) f.all)

    fresh-Owns : Owns q
    fresh-Owns = ground (arith, same_key_iff (source_of c) (queue_key q))

    push_new : IsFilled p (seen ++ c ∷ []) (record {
      queues = d.queues ++ q ∷ [];
      queue_indexes = (source_of c, length d.queues) ∷ d.queue_indexes;
    })
    unfolding find_index
    push_new = record {
      indexed = λ k. ground (
        arith,
        same_key_iff (queue_key q) k,
        same_key_iff (source_of c) k,
        f.indexed k,
        position-append k d.queues q,
      );
      apart = append-Apart d.queues q fresh_absent f.apart;
      owned = All-append Owns d.queues (q ∷ []) f.owned (fresh-Owns, tt);
      sorted_out = fresh_parts;
      all = fresh_perm;
    }

push_queue_fresh :
    (b : Bool) (c : Candidate) (index : ℕ)
    → let q = push_queue b c (empty_queue c index) in
      (queue_key q ≡ source_of c)
      × (q.preferred ≡ (if b then c ∷ [] else []))
      × (q.regular ≡ (if b then [] else c ∷ []))
unfolding push_queue
push_queue_fresh true c index = (refl, refl, refl)
push_queue_fresh false c index = (refl, refl, refl)

-- The loop hands every candidate to the queue of its source.
pub distribute-IsFilled :
    (p : Candidate → Bool) (index : ℕ) (seen rest : List Candidate) (d : Distribution)
    → IsFilled p seen d
    → (d' : Distribution) × (distribute p index rest d ≡ some d') × IsFilled p (seen ++ rest) d'
unfolding distribute
distribute-IsFilled p index seen [] d f = (d, refl, rw (append-nil seen) f)
distribute-IsFilled p index seen (c ∷ rest) d f =
    let further : seen ++ (c ∷ rest) ≡ (seen ++ c ∷ []) ++ rest =
      sym (append_assoc seen (c ∷ []) rest) in
    elim (Option-cases (position (source_of c) d.queues)) [
      | inr (i, at) ↦
          rw
            (
              further,
              f.indexed (source_of c),
              at,
              push_at-push_key (p c) c i d.queues at,
              distribute,
            )
            (distribute-IsFilled p (index + 1) (seen ++ c ∷ []) rest _ (push_old p seen c d f i at))
      | inl at ↦
          let (same, first, other) = push_queue_fresh (p c) c index in
          rw
            (
              further,
              f.indexed (source_of c),
              at,
              push_at_end (p c) c d.queues (empty_queue c index),
              distribute,
            )
            (distribute-IsFilled p (index + 1) (seen ++ c ∷ []) rest _ (
              push_new p seen c d f (push_queue (p c) c (empty_queue c index)) same first other at))
    ]

-- From nothing.
pub empty-IsFilled :
    (p : Candidate → Bool) → IsFilled p [] (record { queues = []; queue_indexes = [] })
unfolding find_index
empty-IsFilled p = record {
  indexed = λ k. refl;
  apart = tt;
  owned = tt;
  sorted_out = λ k. refl;
  all = Perm.refl [];
}
