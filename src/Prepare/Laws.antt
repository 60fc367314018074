-- ===== src/Prepare/Laws.antt =====
-- Preparation loses no candidate: each is tested, the alias of one that is, or reported as failed.
use mathlib.Core.List.Perm
use v2ray_subscription_manag.Prelude.{
  ℕ, zero, suc, ◌≤◌, ◌≡◌, refl, ap, String, List, [], ◌∷◌, ◌++◌, map, Perm, perm_middle,
  append_assoc, arith, length, length-append, length-drop, take, drop, take-append-drop, inl, inr,
  map-append, perm_exchange, All, All-append, ◌⊎◌,
}
use v2ray_subscription_manag.Model.{Candidate, RankedConfig}
use v2ray_subscription_manag.Stop.Prepared.{PreparedActiveCandidate, candidate_count}
use v2ray_subscription_manag.Prepare.{
  Conversion, ok, err, failed_config, candidate_of, prepare_chunk, prepare_chunks,
}

pub perm_of_eq {ℓ} : {A : Type ℓ} {xs ys : List A} → xs ≡ ys → Perm xs ys
perm_of_eq {xs = xs} e = rw (← e) (Perm.refl xs)

pub failed-candidate :
    (c : Candidate) (validation error : String)
    → candidate_of (failed_config c validation error) ≡ c
unfolding failed_config candidate_of
failed-candidate c validation error = refl

module _ {Outbound : Type 0} where
  -- The candidates that the entries stand for.
  abbrev pub members : List (PreparedActiveCandidate Outbound) → List Candidate
  members [] = []
  members (e ∷ es) = (e.candidate ∷ e.aliases) ++ members es

  abbrev pub accounted :
      List (PreparedActiveCandidate Outbound) → List RankedConfig → List Candidate
  accounted prepared ranked = members prepared ++ map candidate_of ranked

  pub members-append :
      (xs ys : List (PreparedActiveCandidate Outbound))
      → members (xs ++ ys) ≡ members xs ++ members ys
  members-append [] ys = refl
  members-append (x ∷ xs) ys =
      rw (members-append xs ys, append_assoc (x.candidate ∷ x.aliases) (members xs) (members ys))

  pub length-members :
      (es : List (PreparedActiveCandidate Outbound)) → candidate_count es ≡ length (members es)
  unfolding candidate_count
  length-members [] = refl
  length-members (e ∷ es) =
      omega (arith, length-members es, length-append (e.candidate ∷ e.aliases) (members es))

  abbrev pub IsFresh : PreparedActiveCandidate Outbound → Type 0
  IsFresh e = e.aliases ≡ []

  module _ (to_outbound : String → Conversion Outbound) where
    conversion-cases :
        (uri : String)
        → ((o : Outbound) × (to_outbound uri ≡ ok o)) ⊎ ((e : String) × (to_outbound uri ≡ err e))
    conversion-cases uri = go (to_outbound uri) refl
      where
        go :
            (r : Conversion Outbound)
            → to_outbound uri ≡ r
            → ((o : Outbound) × (to_outbound uri ≡ ok o))
              ⊎ ((e : String) × (to_outbound uri ≡ err e))
        go (ok o) h = inl (o, h)
        go (err e) h = inr (e, h)

    prepare_chunk-perm :
        (cs : List Candidate)
        → let (prepared, ranked) = prepare_chunk to_outbound cs in
          Perm (accounted prepared ranked) cs
    unfolding prepare_chunk
    prepare_chunk-perm [] = Perm.refl []
    prepare_chunk-perm (c ∷ cs) = elim (conversion-cases c.uri) [
      | inl (o, h) ↦ rw (h, prepare_chunk) (Perm.cons c (prepare_chunk-perm cs))
      | inr (e, h) ↦
          rw (h, prepare_chunk)
            (Perm.trans
              (perm_of_eq (
                ap
                  (λ d.
                    members (prepare_chunk to_outbound cs).0
                    ++ d ∷ map candidate_of (prepare_chunk to_outbound cs).1)
                  (failed-candidate c "active_http" e)))
              (Perm.trans
                (perm_middle (members (prepare_chunk to_outbound cs).0)
                  (map candidate_of (prepare_chunk to_outbound cs).1))
                (Perm.cons c (prepare_chunk-perm cs))))
    ]

    pub prepare_chunks-perm :
        (fuel n : ℕ) (cs : List Candidate)
        → length cs ≤ fuel
        → 1 ≤ n
        → let (prepared, ranked) = prepare_chunks to_outbound fuel n cs in
          Perm (accounted prepared ranked) cs
    unfolding prepare_chunks
    prepare_chunks-perm zero n [] h p = Perm.refl []
    prepare_chunks-perm zero n (c ∷ cs) h p = absurd (omega arith)
    prepare_chunks-perm (suc fuel) n [] h p = Perm.refl []
    prepare_chunks-perm (suc fuel) n (c ∷ cs) h p =
        let now = prepare_chunk to_outbound (take n (c ∷ cs)) in
        let later = prepare_chunks to_outbound fuel n (drop n (c ∷ cs)) in
        rw (members-append now.0 later.0, map-append candidate_of now.1 later.1)
          (Perm.trans
            (perm_exchange (members now.0) (members later.0) (map candidate_of now.1)
              (map candidate_of later.1))
            (Perm.trans
              (Perm.append (prepare_chunk-perm (take n (c ∷ cs))) (
                prepare_chunks-perm fuel n (drop n (c ∷ cs)) (omega (arith, length-drop n (c ∷ cs)))
                  p))
              (perm_of_eq (take-append-drop n (c ∷ cs)))))

    -- The entries have no alias yet.
    prepare_chunk-IsFresh : (cs : List Candidate) → All IsFresh (prepare_chunk to_outbound cs).0
    unfolding prepare_chunk
    prepare_chunk-IsFresh [] = tt
    prepare_chunk-IsFresh (c ∷ cs) = elim (conversion-cases c.uri) [
      | inl (o, h) ↦ rw (h, prepare_chunk) (refl, prepare_chunk-IsFresh cs)
      | inr (e, h) ↦ rw (h, prepare_chunk) (prepare_chunk-IsFresh cs)
    ]

    pub prepare_chunks-IsFresh :
        (fuel n : ℕ) (cs : List Candidate) → All IsFresh (prepare_chunks to_outbound fuel n cs).0
    unfolding prepare_chunks
    prepare_chunks-IsFresh zero n cs = tt
    prepare_chunks-IsFresh (suc fuel) n [] = tt
    prepare_chunks-IsFresh (suc fuel) n (c ∷ cs) =
        All-append IsFresh (prepare_chunk to_outbound (take n (c ∷ cs))).0 _
          (prepare_chunk-IsFresh (take n (c ∷ cs)))
          (prepare_chunks-IsFresh fuel n (drop n (c ∷ cs)))
