-- ===== src/Prelude/Order.antt =====
-- Comparators, as the standard library's `Ord::cmp`, `reverse` and `then_with`, and the laws that
-- make one usable for sorting.
use Prim.Native.Nat.{ℕ, compare, Ordering}
use Prim.Native.Char.{code}
use Prim.Native.String.{String}
use mathlib.Core.Path.{◌≡◌, refl}
use mathlib.Core.Bool.{Bool, true, false}
use mathlib.Core.List.{List, [], ◌∷◌}
use native.Mathlib.Omega.{arith}

abbrev pub reverse_ordering : Ordering → Ordering
reverse_ordering Ordering.lt = Ordering.gt
reverse_ordering Ordering.eq = Ordering.eq
reverse_ordering Ordering.gt = Ordering.lt

-- `first.then_with(|| second)`
infixr 20 ◌then◌
abbrev pub ◌then◌ : Ordering → Ordering → Ordering
Ordering.lt then o = Ordering.lt
Ordering.eq then o = o
Ordering.gt then o = Ordering.gt

-- `bool::cmp`: `false` comes first.
abbrev pub compare_bool : Bool → Bool → Ordering
compare_bool false false = Ordering.eq
compare_bool false true = Ordering.lt
compare_bool true false = Ordering.gt
compare_bool true true = Ordering.eq

-- The code points of a text. Their order is that of the UTF-8 bytes.
abbrev pub codes : String → List ℕ
codes String.[] = []
codes (String.◌∷◌ c s) = code c ∷ codes s

unfoldable pub compare_codes : List ℕ → List ℕ → Ordering
compare_codes [] [] = Ordering.eq
compare_codes [] (d ∷ t) = Ordering.lt
compare_codes (c ∷ s) [] = Ordering.gt
compare_codes (c ∷ s) (d ∷ t) = compare c d then compare_codes s t

-- `str::cmp`
unfoldable pub compare_text : String → String → Ordering
compare_text s t = compare_codes (codes s) (codes t)

-- A comparator is a total preorder on the values that satisfy `P`.
pub record IsOrd {ℓ κ} {A : Type ℓ} (P : A → Type κ) (cmp : A → A → Ordering) : Type (ℓ ⊔ κ) where
  pub flip : (a b : A) → P a → P b → cmp b a ≡ reverse_ordering (cmp a b)
  pub same : (a b c : A) → P a → P b → P c → cmp a b ≡ Ordering.eq → cmp a c ≡ cmp b c
  pub trans :
      (a b c : A)
      → P a
      → P b
      → P c
      → cmp a b ≡ Ordering.lt
      → cmp b c ≡ Ordering.lt
      → cmp a c ≡ Ordering.lt

module _ {ℓ κ} {A : Type ℓ} {P : A → Type κ} where
  -- The same comparator read backwards.
  pub reverse-IsOrd : {cmp : A → A → Ordering} → IsOrd P cmp → IsOrd P (λ a b. cmp b a)
  reverse-IsOrd {cmp} o = record {
    flip = λ a b pa pb. o.flip b a pb pa;
    same = λ a b c pa pb pc e.
        ground (arith, o.flip b a pb pa, o.same a b c pa pb pc, o.flip c a pc pa, o.flip c b pc pb);
    trans = λ a b c pa pb pc h k. o.trans c b a pc pb pa k h;
  }

  pub then-IsOrd :
      {f g : A → A → Ordering} → IsOrd P f → IsOrd P g → IsOrd P (λ a b. f a b then g a b)
  then-IsOrd {f} {g} o q = record {
    flip = λ a b pa pb. ground (arith, o.flip a b pa pb, q.flip a b pa pb);
    same = λ a b c pa pb pc e. ground (arith, o.same a b c pa pb pc, q.same a b c pa pb pc);
    trans = λ a b c pa pb pc h k. ground (
      arith,
      o.same a b c pa pb pc,
      o.same b c a pb pc pa,
      o.flip a b pa pb,
      o.flip b c pb pc,
      o.flip a c pa pc,
      o.trans a b c pa pb pc,
      q.trans a b c pa pb pc,
    );
  }

-- A comparator on keys, read through a key function.
pub on-IsOrd {ℓ κ μ} :
    {A : Type ℓ} {B : Type κ} (P : A → Type μ) (f : A → B) {cmp : B → B → Ordering}
    → IsOrd (λ (b : B). Unit {0}) cmp
    → IsOrd P (λ a b. cmp (f a) (f b))
on-IsOrd P f o = record {
  flip = λ a b _ _. o.flip (f a) (f b) tt tt;
  same = λ a b c _ _ _. o.same (f a) (f b) (f c) tt tt tt;
  trans = λ a b c _ _ _. o.trans (f a) (f b) (f c) tt tt tt;
}

pub compare-IsOrd : IsOrd (λ (b : ℕ). Unit {0}) compare
compare-IsOrd = record {
  flip = λ a b _ _. ground arith;
  same = λ a b c _ _ _ e. ground arith;
  trans = λ a b c _ _ _ h k. ground arith;
}

pub compare_bool-IsOrd : IsOrd (λ (b : Bool). Unit {0}) compare_bool
compare_bool-IsOrd = record {
  flip = λ a b _ _. ground arith;
  same = λ a b c _ _ _ e. ground arith;
  trans = λ a b c _ _ _ h k. ground arith;
}

compare_codes_flip : (s t : List ℕ) → compare_codes t s ≡ reverse_ordering (compare_codes s t)
unfolding compare_codes
compare_codes_flip [] [] = refl
compare_codes_flip [] (d ∷ t) = refl
compare_codes_flip (c ∷ s) [] = refl
compare_codes_flip (c ∷ s) (d ∷ t) = ground (arith, compare_codes_flip s t)

compare_codes_eq : (s t : List ℕ) → compare_codes s t ≡ Ordering.eq → s ≡ t
unfolding compare_codes
compare_codes_eq [] [] h = refl
compare_codes_eq [] (d ∷ t) h = ground arith
compare_codes_eq (c ∷ s) [] h = ground arith
compare_codes_eq (c ∷ s) (d ∷ t) h = ground (arith, compare_codes_eq s t)

compare_codes_trans :
    (s t u : List ℕ)
    → compare_codes s t ≡ Ordering.lt
    → compare_codes t u ≡ Ordering.lt
    → compare_codes s u ≡ Ordering.lt
unfolding compare_codes
compare_codes_trans [] [] u h k = ground arith
compare_codes_trans [] (d ∷ t) [] h k = ground arith
compare_codes_trans [] (d ∷ t) (e ∷ u) h k = refl
compare_codes_trans (c ∷ s) [] u h k = ground arith
compare_codes_trans (c ∷ s) (d ∷ t) [] h k = ground arith
compare_codes_trans (c ∷ s) (d ∷ t) (e ∷ u) h k = ground (arith, compare_codes_trans s t u)

compare_codes-IsOrd : IsOrd (λ (s : List ℕ). Unit {0}) compare_codes
compare_codes-IsOrd = record {
  flip = λ s t _ _. compare_codes_flip s t;
  same = λ s t u _ _ _ e. cc (compare_codes_eq s t e);
  trans = λ s t u _ _ _. compare_codes_trans s t u;
}

pub compare_text-IsOrd : IsOrd (λ (s : String). Unit {0}) compare_text
unfolding compare_text
compare_text-IsOrd = on-IsOrd (λ s. Unit {0}) codes compare_codes-IsOrd
