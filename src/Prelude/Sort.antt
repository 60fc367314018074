-- ===== src/Prelude/Sort.antt =====
-- `slice::sort_by`, the standard library's stable sort, and what it promises for a comparator that
-- is a total preorder on the elements.
use Prim.Native.Nat.{Ordering}
use mathlib.Core.Path.{◌≡◌, refl}
use mathlib.Core.Bool.{Bool, true, false}
use mathlib.Core.Logic.{◌≢◌}
use mathlib.Core.List.{List, [], ◌∷◌, Perm}
use mathlib.Core.List.Perm
use native.Mathlib.Omega.{arith}
use v2ray_subscription_manag.Prelude.Lists.{All, keep}
use v2ray_subscription_manag.Prelude.Order.{IsOrd}
use v2ray_subscription_manag.Prelude.Tests.{if◌then◌else◌}

abbrev pub is_gt : Ordering → Bool
is_gt Ordering.gt = true
is_gt _ = false

abbrev pub is_eq : Ordering → Bool
is_eq Ordering.eq = true
is_eq _ = false

module _ {ℓ} {A : Type ℓ} (cmp : A → A → Ordering) where
  -- A new element goes before what it does not exceed.
  unfoldable pub insert_sorted : A → List A → List A
  insert_sorted x [] = x ∷ []
  insert_sorted x (y ∷ ys) = if is_gt (cmp x y) then y ∷ insert_sorted x ys else x ∷ y ∷ ys

  unfoldable pub sort_by : List A → List A
  unfolding insert_sorted
  sort_by [] = []
  sort_by (x ∷ xs) = insert_sorted x (sort_by xs)

  -- Each element is at most every later one.
  abbrev pub IsSorted : List A → Type ℓ
  IsSorted [] = Unit
  IsSorted (x ∷ xs) = All (λ y. cmp x y ≢ Ordering.gt) xs × IsSorted xs

  insert_sorted-perm : (x : A) (xs : List A) → Perm (insert_sorted x xs) (x ∷ xs)
  unfolding insert_sorted
  insert_sorted-perm x [] = Perm.refl _
  insert_sorted-perm x (y ∷ ys) =
      let rest = Perm.trans (Perm.cons y (insert_sorted-perm x ys)) (Perm.swap x y ys) in
      ground (arith, rest, Perm.refl (x ∷ y ∷ ys))

  pub sort_by-perm : (xs : List A) → Perm (sort_by xs) xs
  unfolding sort_by
  sort_by-perm [] = Perm.refl _
  sort_by-perm (x ∷ xs) =
      Perm.trans (insert_sorted-perm x (sort_by xs)) (Perm.cons x (sort_by-perm xs))

  insert_sorted-All {κ} :
      (P : A → Type κ) (x : A) (xs : List A) → P x → All P xs → All P (insert_sorted x xs)
  unfolding insert_sorted
  insert_sorted-All P x [] px h = (px, tt)
  insert_sorted-All P x (y ∷ ys) px h = ground (arith, insert_sorted-All P x ys px h.1)

  pub sort_by-All {κ} : (P : A → Type κ) (xs : List A) → All P xs → All P (sort_by xs)
  unfolding sort_by
  sort_by-All P [] h = tt
  sort_by-All P (x ∷ xs) h = insert_sorted-All P x (sort_by xs) h.0 (sort_by-All P xs h.1)

module _ {ℓ κ} {A : Type ℓ} {P : A → Type κ} {cmp : A → A → Ordering} (o : IsOrd P cmp) where
  le_trans :
      (a b c : A)
      → P a
      → P b
      → P c
      → cmp a b ≢ Ordering.gt
      → cmp b c ≢ Ordering.gt
      → cmp a c ≢ Ordering.gt
  le_trans a b c pa pb pc h k = ground (
    arith,
    o.same a b c pa pb pc,
    o.same b c a pb pc pa,
    o.flip a b pa pb,
    o.flip b c pb pc,
    o.flip a c pa pc,
    o.trans a b c pa pb pc,
  )

  below-All :
      (x y : A) (ys : List A)
      → P x
      → P y
      → All P ys
      → cmp x y ≢ Ordering.gt
      → All (λ z. cmp y z ≢ Ordering.gt) ys
      → All (λ z. cmp x z ≢ Ordering.gt) ys
  below-All x y [] px py ps h a = tt
  below-All x y (z ∷ zs) px py ps h a =
      (le_trans x y z px py ps.0 h a.0, below-All x y zs px py ps.1 h a.1)

  insert_sorted-IsSorted :
      (x : A) (xs : List A)
      → P x
      → All P xs
      → IsSorted cmp xs
      → IsSorted cmp (insert_sorted cmp x xs)
  unfolding insert_sorted
  insert_sorted-IsSorted x [] px ps s = (tt, tt)
  insert_sorted-IsSorted x (y ∷ ys) px ps s = ground (
    arith,
    o.flip x y px ps.0,
    below-All x y ys px ps.0 ps.1,
    insert_sorted-IsSorted x ys px ps.1 s.1,
    insert_sorted-All cmp (λ z. cmp y z ≢ Ordering.gt) x ys,
  )

  pub sort_by-IsSorted : (xs : List A) → All P xs → IsSorted cmp (sort_by cmp xs)
  unfolding sort_by
  sort_by-IsSorted [] ps = tt
  sort_by-IsSorted (x ∷ xs) ps =
      insert_sorted-IsSorted x (sort_by cmp xs) ps.0 (sort_by-All cmp P xs ps.1)
        (sort_by-IsSorted xs ps.1)

  insert_sorted-keep_eq :
      (e x : A) (xs : List A)
      → P e
      → P x
      → All P xs
      → keep (λ y. is_eq (cmp e y)) (insert_sorted cmp x xs) ≡ keep (λ y. is_eq (cmp e y)) (x ∷ xs)
  unfolding insert_sorted
  insert_sorted-keep_eq e x [] pe px ps = refl
  insert_sorted-keep_eq e x (y ∷ ys) pe px ps = ground (
    arith,
    insert_sorted-keep_eq e x ys pe px ps.1,
    o.same e x y pe px ps.0,
    o.same e y x pe ps.0 px,
    o.flip e x pe px,
  )

  -- Elements that compare equal stay in their order: the sort is stable.
  pub sort_by-keep_eq :
      (e : A) (xs : List A)
      → P e
      → All P xs
      → keep (λ y. is_eq (cmp e y)) (sort_by cmp xs) ≡ keep (λ y. is_eq (cmp e y)) xs
  unfolding sort_by
  sort_by-keep_eq e [] pe ps = refl
  sort_by-keep_eq e (x ∷ xs) pe ps = ground (
    arith,
    insert_sorted-keep_eq e x (sort_by cmp xs) pe ps.0 (sort_by-All cmp P xs ps.1),
    sort_by-keep_eq e xs pe ps.1,
  )
