-- ===== src/Prepare/Dedup.antt =====
-- Entries with one outbound are tested once: the loop over seen_keys of prepare_active_candidates.
use mathlib.Core.List.Perm
use v2ray_subscription_manag.Prelude.{
  is_some, ℕ, zero, suc, ◌/◌, ◌<◌, ◌≡◌, refl, ap, ◌∙◌, false, String, List, [], ◌∷◌, ◌++◌, map,
  Perm, perm_middle, append-nil, append_assoc, none, some, arith, lookup, insert, lookup-insert,
  eq_iff, contains, contains-append, Distinct, length, length-append, max_of, Option-cases, inl,
  inr, All,
}
use v2ray_subscription_manag.Model.{Candidate, ProbeStopPolicy}
use v2ray_subscription_manag.Stop.Prepared.{PreparedActiveCandidate, candidate_count}
use v2ray_subscription_manag.Schedule.Fair.{schedule_active_candidates_lem}
use v2ray_subscription_manag.Prepare.{
  Conversion, candidate_of, ActivePreparation, prepare_chunks, push_alias, deduplicate,
  prepare_active_candidates,
}
use v2ray_subscription_manag.Prepare.Laws.{
  members, accounted, members-append, length-members, IsFresh, prepare_chunks-perm,
  prepare_chunks-IsFresh, perm_of_eq,
}

module _ {Outbound : Type 0} (outbound_key : Outbound → String) where
  abbrev pub keys : List (PreparedActiveCandidate Outbound) → List String
  keys es = map (λ (e : PreparedActiveCandidate Outbound). outbound_key e.outbound) es

  push_alias_lem :
      (i : ℕ) (c : Candidate) (es : List (PreparedActiveCandidate Outbound))
      → i < length es
      → (es' : List (PreparedActiveCandidate Outbound)) × (push_alias i c es ≡ some es')
        × Perm (members es') (c ∷ members es)
        × (keys es' ≡ keys es)
        × (length es' ≡ length es)
  unfolding push_alias
  push_alias_lem i c [] h = absurd (omega arith)
  push_alias_lem zero c (e ∷ es) h = (
    record e { aliases = e.aliases ++ c ∷ [] } ∷ es,
    refl,
    rw (append_assoc e.aliases (c ∷ []) (members es))
        (perm_middle (e.candidate ∷ e.aliases) (members es)),
    refl,
    refl,
  )
  push_alias_lem (suc i) c (e ∷ es) h =
      let (es', eq, p, k, n) = push_alias_lem i c es (omega arith) in
      (
        e ∷ es',
        rw (eq, push_alias),
        Perm.trans (Perm.append_left (e.candidate ∷ e.aliases) p)
            (perm_middle (e.candidate ∷ e.aliases) (members es)),
        ap (◌∷◌ (outbound_key e.outbound)) k,
        ap suc n,
      )

  -- The map of keys leads to the entries, and holds the key of each.
  record IsIndexed (deduped : List (PreparedActiveCandidate Outbound)) (seen : List (String × ℕ))
      : Type 0 where
    range : (k : String) (i : ℕ) → lookup k seen ≡ some i → i < length deduped
    held : (k : String) → contains (keys deduped) k ≡ is_some (lookup k seen)
    distinct : Distinct (keys deduped)

  pushed-IsIndexed :
      (deduped deduped' : List (PreparedActiveCandidate Outbound)) (seen : List (String × ℕ))
      → keys deduped' ≡ keys deduped
      → length deduped' ≡ length deduped
      → IsIndexed deduped seen
      → IsIndexed deduped' seen
  pushed-IsIndexed deduped deduped' seen k n x = record {
    range = λ j i h. rw n (x.range j i h);
    held = λ j. ap (λ l. contains l j) k ∙ x.held j;
    distinct = rw k x.distinct;
  }

  Distinct-snoc :
      (ks : List String) (k : String)
      → contains ks k ≡ false
      → Distinct ks
      → Distinct (ks ++ k ∷ [])
  unfolding contains
  Distinct-snoc [] k h d = (refl, tt)
  Distinct-snoc (j ∷ ks) k h d =
      ground (arith, contains-append ks (k ∷ []) j, eq_iff j k, eq_iff k j, Distinct-snoc ks k)

  keys-snoc :
      (es : List (PreparedActiveCandidate Outbound)) (e : PreparedActiveCandidate Outbound)
      → keys (es ++ e ∷ []) ≡ keys es ++ outbound_key e.outbound ∷ []
  keys-snoc [] e = refl
  keys-snoc (x ∷ es) e = ap (◌∷◌ (outbound_key x.outbound)) (keys-snoc es e)

  added-IsIndexed :
      (deduped : List (PreparedActiveCandidate Outbound)) (seen : List (String × ℕ))
      (e : PreparedActiveCandidate Outbound)
      → lookup (outbound_key e.outbound) seen ≡ none
      → IsIndexed deduped seen
      → IsIndexed (deduped ++ e ∷ []) (insert (outbound_key e.outbound) (length deduped) seen)
  unfolding contains
  added-IsIndexed deduped seen e h x =
      let key = outbound_key e.outbound in
      let more = length-append deduped (e ∷ []) in
      record {
        range =
            λ j i g. ground (arith, more, lookup-insert key j (length deduped) seen, x.range j i);
        held = λ j. ground (
          arith,
          keys-snoc deduped e,
          contains-append (keys deduped) (key ∷ []) j,
          lookup-insert key j (length deduped) seen,
          x.held j,
        );
        distinct =
            rw (keys-snoc deduped e)
              (Distinct-snoc (keys deduped) key (x.held key ∙ ap is_some h) x.distinct);
      }

  deduplicate_lem :
      (rest deduped : List (PreparedActiveCandidate Outbound)) (seen : List (String × ℕ))
      → All IsFresh rest
      → IsIndexed deduped seen
      → (out : List (PreparedActiveCandidate Outbound)) × (deduplicate outbound_key rest deduped
            seen
          ≡ some out)
        × Perm (members out) (members deduped ++ members rest)
        × Distinct (keys out)
  unfolding deduplicate
  deduplicate_lem [] deduped seen f x =
      (deduped, refl, rw (append-nil (members deduped)) (Perm.refl _), x.distinct)
  deduplicate_lem (e ∷ rest) deduped seen f x =
      elim (Option-cases (lookup (outbound_key e.outbound) seen)) [
        | inr (i, h) ↦
            let (deduped', eq, p, k, n) =
              push_alias_lem i e.candidate deduped (x.range (outbound_key e.outbound) i h) in
            let (out, eq', p', d) =
              deduplicate_lem rest deduped' seen f.1
                (pushed-IsIndexed deduped deduped' seen k n x) in
            (
              out,
              rw (h, eq, deduplicate) eq',
              Perm.trans p' (
                  Perm.trans (Perm.append_right (members rest) p)
                    (rw f.0 (Perm.symm (perm_middle (members deduped) (members rest))))),
              d,
            )
        | inl h ↦
            let (out, eq', p', d) =
              deduplicate_lem rest (deduped ++ e ∷ [])
                (insert (outbound_key e.outbound) (length deduped) seen) f.1
                (added-IsIndexed deduped seen e h x) in
            (
              out,
              rw (h, deduplicate) eq',
              Perm.trans p' (
                  perm_of_eq (
                    ap (λ l. l ++ members rest) (members-append deduped (e ∷ []))
                    ∙ append_assoc (members deduped) (members (e ∷ [])) (members rest)
                    ∙ ap (λ l. members deduped ++ (l ++ members rest))
                        (append-nil (e.candidate ∷ e.aliases)))),
              d,
            )
      ]

  empty-IsIndexed : IsIndexed [] []
  unfolding lookup contains
  empty-IsIndexed = record { range = λ k i h. cc; held = λ k. refl; distinct = tt }

  -- prepare_active_candidates returns (no index is out of range). Every candidate is accounted for
  -- once: as the one that an entry tests, as an alias of an entry, or as a failed result; no two
  -- entries have one outbound key; and `prepared_candidates` counts the candidates of the entries.
  pub prepare_active_candidates_lem :
      (to_outbound : String → Conversion Outbound) (available : ℕ) (candidates : List Candidate)
      (policy : ProbeStopPolicy)
      → (p : ActivePreparation Outbound) × (prepare_active_candidates to_outbound outbound_key
            available candidates policy
          ≡ some p)
        × Perm (accounted p.prepared p.ranked) candidates
        × Distinct (keys p.prepared)
        × (p.prepared_candidates ≡ length (members p.prepared))
  unfolding prepare_active_candidates
  prepare_active_candidates_lem to_outbound available candidates policy =
      let (scheduled, eq, s) = schedule_active_candidates_lem candidates policy in
      let n = max_of (length scheduled / max_of available 1) 1 in
      let chunks = prepare_chunks to_outbound (length scheduled) n scheduled in
      let (out, eq', p, d) =
        deduplicate_lem chunks.0 [] []
          (prepare_chunks-IsFresh to_outbound (length scheduled) n scheduled) empty-IsIndexed in
      (
        record { prepared = out; ranked = chunks.1; prepared_candidates = candidate_count out },
        rw (eq, eq', prepare_active_candidates),
        Perm.trans (Perm.append_right (map candidate_of chunks.1) p) (
            Perm.trans
              (prepare_chunks-perm to_outbound (length scheduled) n scheduled (omega arith)
                (ground arith))
              s.all),
        d,
        length-members out,
      )
