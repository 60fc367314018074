-- ===== src/Prelude/Decimal.antt =====
-- Numbers in text, as `format!` writes them.
use Prim.Native.Nat.{ℕ, zero, suc, ◌+◌, ◌*◌, ◌/◌, ◌%◌, ◌^◌, ◌<◌}
use Prim.Native.String.{String}
use Prim.Native.Char.{Char}
use mathlib.Core.Path.{◌≡◌, refl}
use mathlib.Core.List.{List, [], ◌∷◌, ◌++◌}
use native.Mathlib.Nat.{pow-suc}
use native.Mathlib.Omega.{arith}
use v2ray_subscription_manag.Prelude.Tests.{ltb, ltb→lt, if◌then◌else◌, Bool-cases, unwrap_or}
use v2ray_subscription_manag.Prelude.Lists.{get_elem?, All, All-append}
use mathlib.Core.Logic.{◌≢◌, inl, inr}

-- The digits of a number, the most significant first.
digits_fuel : ℕ → ℕ → List ℕ
digits_fuel zero n = []
digits_fuel (suc fuel) n =
    let more = digits_fuel fuel (n / 10) ++ (n % 10) ∷ [] in if ltb n 10 then n ∷ [] else more

-- 39 digits hold a `u128`.
pub digits : ℕ → List ℕ
unfolding digits_fuel
digits n = digits_fuel 39 n

abbrev pub digit_chars : List Char
digit_chars = "0" ∷ "1" ∷ "2" ∷ "3" ∷ "4" ∷ "5" ∷ "6" ∷ "7" ∷ "8" ∷ "9" ∷ []

abbrev pub digit_char : ℕ → Char
digit_char d = unwrap_or (get_elem? digit_chars d) "?"

abbrev pub text_of_digits : List ℕ → String
text_of_digits [] = ""
text_of_digits (d ∷ ds) = String.◌∷◌ (digit_char d) (text_of_digits ds)

-- `n.to_string()`
unfoldable pub decimal : ℕ → String
unfolding digits
decimal n = text_of_digits (digits n)

abbrev pub read_from : ℕ → List ℕ → ℕ
read_from acc [] = acc
read_from acc (d ∷ ds) = read_from (acc * 10 + d) ds

read_from-append :
    (acc : ℕ) (ds : List ℕ) (d : ℕ) → read_from acc (ds ++ d ∷ []) ≡ read_from acc ds * 10 + d
read_from-append acc [] d = refl
read_from-append acc (e ∷ ds) d = read_from-append (acc * 10 + e) ds d

read_from-digits_fuel : (fuel n : ℕ) → n < 10 ^ fuel → read_from 0 (digits_fuel fuel n) ≡ n
unfolding digits_fuel
read_from-digits_fuel zero n h = omega arith
read_from-digits_fuel (suc fuel) n h =
    let p : 10 ^ suc fuel ≡ 10 ^ fuel * 10 = pow-suc 10 fuel in
    elim (Bool-cases (ltb n 10)) [
      | inl e ↦ rw e (omega arith)
      | inr e ↦ rw e (
          omega (
            arith,
            read_from-append 0 (digits_fuel fuel (n / 10)) (n % 10),
            read_from-digits_fuel fuel (n / 10) (omega arith),
          ))
    ]

-- The 39 digits are enough: what is written reads back as the number.
pub read_from-digits : (n : ℕ) → n < 10 ^ 39 → read_from 0 (digits n) ≡ n
unfolding digits
read_from-digits n h = read_from-digits_fuel 39 n h

abbrev pub IsDigit : ℕ → Type 0
IsDigit d = d < 10

digits_fuel-IsDigit : (fuel n : ℕ) → All IsDigit (digits_fuel fuel n)
unfolding digits_fuel
digits_fuel-IsDigit zero n = tt
digits_fuel-IsDigit (suc fuel) n = elim (Bool-cases (ltb n 10)) [
  | inl e ↦ rw (digits_fuel, e) (ltb→lt n 10 e, tt)
  | inr e ↦
      rw (digits_fuel, e)
        (All-append IsDigit (digits_fuel fuel (n / 10)) ((n % 10) ∷ [])
          (digits_fuel-IsDigit fuel (n / 10)) (omega arith, tt))
]

pub digits-IsDigit : (n : ℕ) → All IsDigit (digits n)
unfolding digits
digits-IsDigit n = digits_fuel-IsDigit 39 n

append-ne-nil : (ds : List ℕ) (d : ℕ) → ds ++ d ∷ [] ≢ []
append-ne-nil [] d = λ e. cc e
append-ne-nil (c ∷ ds) d = λ e. cc e

digits_fuel-ne-nil : (fuel n : ℕ) → digits_fuel (suc fuel) n ≢ []
unfolding digits_fuel
digits_fuel-ne-nil fuel n = elim (Bool-cases (ltb n 10)) [
  | inl e ↦ rw (digits_fuel, e) (λ f. cc f)
  | inr e ↦ rw (digits_fuel, e) (append-ne-nil (digits_fuel fuel (n / 10)) (n % 10))
]

pub digits-ne-nil : (n : ℕ) → digits n ≢ []
unfolding digits
digits-ne-nil n = digits_fuel-ne-nil 38 n

decimal_example : decimal 90417 ≡ "90417"
unfolding decimal
decimal_example = refl
