-- ===== src/Prelude/Keys.antt =====
-- Sets and maps of texts (`HashSet<String>`, `HashMap<String, u32>`) as lists. Iteration order is
-- never observed by the code that is modelled.
use Prim.Native.String.{String}
use text.Mathlib.Text.{◌==◌ as str_eq}
use text.Mathlib.TextEquality.{eq_iff}
use mathlib.Core.Path.{◌≡◌, refl}
use mathlib.Core.Bool.{Bool, true, false}
use mathlib.Core.List.{List, [], ◌∷◌, ◌++◌}
use mathlib.Core.Option.{Option, none, some}
use native.Mathlib.Omega.{arith}
use v2ray_subscription_manag.Prelude.Tests.{if◌then◌else◌}

-- `set.contains(key)`
unfoldable pub contains : List String → String → Bool
contains [] k = false
contains (j ∷ js) k = if str_eq j k then true else contains js k

-- No text stands twice.
abbrev pub Distinct : List String → Type 0
Distinct [] = Unit {0}
Distinct (k ∷ ks) = (contains ks k ≡ false) × Distinct ks

module _ {ℓ} {V : Type ℓ} where
  -- `map.get(key)`
  unfoldable pub lookup : String → List (String × V) → Option V
  lookup key [] = none
  lookup key ((other, value) ∷ table) =
      let later = lookup key table in if str_eq other key then some value else later

  -- `map.retain(|key, _| p(key))`
  unfoldable pub retain_keys : (String → Bool) → List (String × V) → List (String × V)
  retain_keys p [] = []
  retain_keys p ((key, value) ∷ table) =
      let later = retain_keys p table in if p key then (key, value) ∷ later else later

  -- `map.insert(key, value)`
  unfoldable pub insert : String → V → List (String × V) → List (String × V)
  insert key value [] = (key, value) ∷ []
  insert key value ((other, old) ∷ table) =
      let later = insert key value table in
      if str_eq other key then (key, value) ∷ table else (other, old) ∷ later

  -- Reading after an insertion.
  pub lookup-insert :
      (key other : String)
      → (value : V) → (table : List (String × V))
      → lookup other (insert key value table)
        ≡ (if str_eq key other then some value else lookup other table)
  unfolding lookup insert
  lookup-insert key other value [] = refl
  lookup-insert key other value ((first, old) ∷ table) = ground (
    arith,
    eq_iff key other,
    eq_iff first key,
    eq_iff first other,
    lookup-insert key other value table,
  )

  pub lookup-retain_keys :
      (p : String → Bool) (j : String) (m : List (String × V))
      → lookup j (retain_keys p m) ≡ (if p j then lookup j m else none)
  unfolding lookup retain_keys
  lookup-retain_keys p j [] = ground arith
  lookup-retain_keys p j ((i, w) ∷ m) = ground (arith, eq_iff i j, lookup-retain_keys p j m)

pub contains-append :
    (xs ys : List String) (k : String)
    → contains (xs ++ ys) k ≡ (if contains xs k then true else contains ys k)
unfolding contains
contains-append [] ys k = refl
contains-append (x ∷ xs) ys k = ground (arith, contains-append xs ys k)
