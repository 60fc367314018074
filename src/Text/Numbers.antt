-- ===== src/Text/Numbers.antt =====
-- Numbers that are written and read again.
use Prim.Native.Char.{Char, code}
use v2ray_subscription_manag.Prelude.{
  ℕ, zero, suc, ◌+◌, ◌-◌, ◌*◌, ◌^◌, ◌≤◌, ◌<◌, ◌≡◌, refl, ◌∙◌, true, String, List, [], ◌∷◌, some,
  arith, inl, inr, ap, subst, All, List-cases, sym,
}
use v2ray_subscription_manag.Prelude.Decimal.{
  IsDigit, digits, digits-IsDigit, digits-ne-nil, digit_char, text_of_digits, decimal, read_from,
  read_from-digits,
}
use v2ray_subscription_manag.Text.{trim, read_digits, parse_unsigned}
use v2ray_subscription_manag.Text.Trim.{is_solid, trim_of_solid}

pub digit_char-code : (d : ℕ) → d < 10 → code (digit_char d) ≡ 48 + d
digit_char-code zero h = refl
digit_char-code (suc zero) h = refl
digit_char-code (suc (suc zero)) h = refl
digit_char-code (suc (suc (suc zero))) h = refl
digit_char-code (suc (suc (suc (suc zero)))) h = refl
digit_char-code (suc (suc (suc (suc (suc zero))))) h = refl
digit_char-code (suc (suc (suc (suc (suc (suc zero)))))) h = refl
digit_char-code (suc (suc (suc (suc (suc (suc (suc zero))))))) h = refl
digit_char-code (suc (suc (suc (suc (suc (suc (suc (suc zero)))))))) h = refl
digit_char-code (suc (suc (suc (suc (suc (suc (suc (suc (suc zero))))))))) h = refl
digit_char-code (suc (suc (suc (suc (suc (suc (suc (suc (suc (suc n)))))))))) h =
    absurd (omega arith)

read_from-ge : (acc : ℕ) (ds : List ℕ) → acc ≤ read_from acc ds
read_from-ge acc [] = omega arith
read_from-ge acc (d ∷ ds) = omega (arith, read_from-ge (acc * 10 + d) ds)

read_digits-text :
    (max acc : ℕ) (ds : List ℕ)
    → All IsDigit ds
    → read_from acc ds ≤ max
    → read_digits max acc (text_of_digits ds) ≡ some (read_from acc ds)
unfolding read_digits
read_digits-text max acc [] all h = refl
read_digits-text max acc (d ∷ ds) (small, all) h =
    let e = digit_char-code d small in
    let ih = read_digits-text max (acc * 10 + d) ds all h in
    let ge = read_from-ge (acc * 10 + d) ds in
    let f : 48 + d - 48 ≡ d = omega arith in rw (read_digits, e, f) (ground (arith))

text_of_digits-solid : (ds : List ℕ) → All IsDigit ds → is_solid (text_of_digits ds) ≡ true
text_of_digits-solid [] all = refl
text_of_digits-solid (d ∷ ds) (small, all) =
    rw (digit_char-code d small) (ground (arith, text_of_digits-solid ds all))

pub decimal-solid : (n : ℕ) → is_solid (decimal n) ≡ true
unfolding decimal
decimal-solid n = text_of_digits-solid (digits n) (digits-IsDigit n)

pub trim-decimal : (n : ℕ) → trim (decimal n) ≡ decimal n
trim-decimal n = trim_of_solid (decimal n) (decimal-solid n)

-- A text that begins with a digit is read without a sign.
parse_unsigned-text :
    (max d : ℕ) (ds : List ℕ)
    → All IsDigit (d ∷ ds)
    → read_from 0 (d ∷ ds) ≤ max
    → parse_unsigned max (text_of_digits (d ∷ ds)) ≡ some (read_from 0 (d ∷ ds))
unfolding parse_unsigned
parse_unsigned-text max d ds all h =
    let e = digit_char-code d all.0 in ground (arith, e, read_digits-text max 0 (d ∷ ds) all h)

-- A number that is written is read again.
pub parse_unsigned-decimal :
    (max n : ℕ) → n ≤ max → max < 10 ^ 39 → parse_unsigned max (decimal n) ≡ some n
unfolding decimal
parse_unsigned-decimal max n h bound =
    let back : read_from 0 (digits n) ≡ n = read_from-digits n (omega arith) in
    elim (List-cases (digits n)) [
      | inl e ↦ absurd (digits-ne-nil n e)
      | inr (d, ds, e) ↦ rw e (
          parse_unsigned-text max d ds (rw e at (digits-IsDigit n))
            (subst (λ (xs : List ℕ). read_from 0 xs ≤ max) e (rw back h))
          ∙ ap some (ap (read_from 0) (sym e) ∙ back))
    ]

pub decimal-first :
    (n : ℕ)
    → (c : Char) × (s : String) × (decimal n ≡ String.◌∷◌ c s) × (48 ≤ code c) × (code c ≤ 57)
unfolding decimal
decimal-first n = elim (List-cases (digits n)) [
  | inl e ↦ absurd (digits-ne-nil n e)
  | inr (d, ds, e) ↦
      let small : All IsDigit (d ∷ ds) = rw e at (digits-IsDigit n) in
      let shown = digit_char-code d small.0 in
      (
        digit_char d,
        text_of_digits ds,
        ap text_of_digits e,
        omega (arith, shown),
        omega (arith, shown, small.0),
      )
]
