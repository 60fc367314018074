-- ===== src/Batch/Within.antt =====
-- A list within another: the elements of the other in some order, without some of them.
use v2ray_subscription_manag.Prelude.{
  List, [], ◌∷◌, ◌++◌, map, ◌≡◌, Perm, append-nil, append_assoc, perm_exchange, map-append, length,
  length-perm, length-append, arith,
}
use mathlib.Core.List.Perm

pub record Within {ℓ} {A : Type ℓ} (xs ys : List A) : Type ℓ where
  pub missing : List A
  pub complete : Perm (xs ++ missing) ys

module _ {ℓ} {A : Type ℓ} where
  pub Within-perm : {xs ys : List A} → Perm xs ys → Within xs ys
  Within-perm {xs} p = record { missing = []; complete = rw (append-nil xs) p }

  pub Within-eq : {xs ys : List A} → xs ≡ ys → Within xs ys
  Within-eq {xs} e = Within-perm (rw (← e) (Perm.refl xs))

  pub Within-trans : {xs ys zs : List A} → Within xs ys → Within ys zs → Within xs zs
  Within-trans {xs} p q = record {
    missing = p.missing ++ q.missing;
    complete =
        rw (← append_assoc xs p.missing q.missing)
          (Perm.trans (Perm.append_right q.missing p.complete) q.complete);
  }

  pub Within-append :
      {xs ys zs ws : List A} → Within xs ys → Within zs ws → Within (xs ++ zs) (ys ++ ws)
  Within-append {xs} {ys} {zs} {ws} p q = record {
    missing = p.missing ++ q.missing;
    complete =
        Perm.trans (perm_exchange xs zs p.missing q.missing) (Perm.append p.complete q.complete);
  }

  pub Within-left : (zs : List A) → {xs ys : List A} → Within xs ys → Within (zs ++ xs) (zs ++ ys)
  Within-left zs p = Within-append (Within-perm (Perm.refl zs)) p

  pub Within-right : (zs : List A) → {xs ys : List A} → Within xs ys → Within (xs ++ zs) (ys ++ zs)
  Within-right zs p = Within-append p (Within-perm (Perm.refl zs))

  pub Within-drop : (xs ys : List A) → {zs : List A} → Within (xs ++ ys) zs → Within xs zs
  Within-drop xs ys p = record {
    missing = ys ++ p.missing;
    complete = rw (← append_assoc xs ys p.missing) p.complete;
  }

  -- Of the same length, nothing is missing.
  pub Within-full : {xs ys : List A} → Within xs ys → length xs ≡ length ys → Perm xs ys
  Within-full {xs} {ys} p full = go p.missing p.complete
    where
      go : (missing : List A) → Perm (xs ++ missing) ys → Perm xs ys
      go [] q = rw⁻¹ (append-nil xs) q
      go (x ∷ missing) q = absurd (omega (arith, length-perm q, length-append xs (x ∷ missing)))

pub Within-map {ℓ κ} :
    {A : Type ℓ} {B : Type κ} (f : A → B) {xs ys : List A}
    → Within xs ys
    → Within (map f xs) (map f ys)
Within-map f {xs} p = record {
  missing = map f p.missing;
  complete = rw (← map-append f xs p.missing) (Perm.map f p.complete);
}
