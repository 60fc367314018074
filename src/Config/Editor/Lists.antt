-- ===== src/Config/Editor/Lists.antt =====
-- A list of numbers that is written with commas and read again.
use Prim.Native.Char.{Char, code}
use text.Mathlib.TextLemmas.{nil-append, cons-append}
use v2ray_subscription_manag.Prelude.{
  ℕ, ◌≡◌, ◌≢◌, refl, ◌∙◌, ap, subst, Bool, true, false, not, ◌&&◌, String, List, [], ◌∷◌, map, inl,
  inr, any, Bool-cases, arith, ◌==◌, All, str_append,
}
use v2ray_subscription_manag.Prelude.Decimal.{
  IsDigit, digits, digits-IsDigit, text_of_digits, decimal,
}
use v2ray_subscription_manag.Text.{trim, split, push_front}
use v2ray_subscription_manag.Text.Trim.{is_solid, trim_of_solid}
use v2ray_subscription_manag.Text.Numbers.{digit_char-code, decimal-solid}
use v2ray_subscription_manag.Config.Validate.{ok, err, is_bad_status}
use v2ray_subscription_manag.Config.Editor.{number, parse_parts, statuses, join, join_from, u16_max}
use v2ray_subscription_manag.Config.Editor.Texts.{Checked-cases, number-decimal}

abbrev comma : Char
comma = ","

comma-append : (t : String) → str_append "," t ≡ String.◌∷◌ comma t
comma-append t = cons-append comma "" t ∙ ap (λ (s : String). String.◌∷◌ comma s) (nil-append t)

-- No character of a text is a comma.
abbrev lacks_comma : String → Bool
lacks_comma String.[] = true
lacks_comma (String.◌∷◌ c s) = not (code c == 44) && lacks_comma s

text_of_digits-lacks : (ds : List ℕ) → All IsDigit ds → lacks_comma (text_of_digits ds) ≡ true
text_of_digits-lacks [] all = refl
text_of_digits-lacks (d ∷ ds) (small, all) =
    rw (digit_char-code d small) (ground (arith, text_of_digits-lacks ds all))

decimal-lacks : (n : ℕ) → lacks_comma (decimal n) ≡ true
unfolding decimal
decimal-lacks n = text_of_digits-lacks (digits n) (digits-IsDigit n)

split-lacks : (s : String) → lacks_comma s ≡ true → split 44 s ≡ s ∷ []
unfolding split
split-lacks String.[] h = refl
split-lacks (String.◌∷◌ c s) h = ground (arith, split-lacks s)

split-comma :
    (s t : String)
    → lacks_comma s ≡ true
    → split 44 (str_append s (String.◌∷◌ comma t)) ≡ s ∷ split 44 t
unfolding split
split-comma String.[] t h = ap (split 44) (nil-append (String.◌∷◌ comma t))
split-comma (String.◌∷◌ c s) t h =
    ap (split 44) (cons-append c s (String.◌∷◌ comma t)) ∙ ground (arith, split-comma s t)

split-join :
    (n : ℕ) (ns : List ℕ)
    → split 44 (join_from (decimal n) (map decimal ns)) ≡ decimal n ∷ map decimal ns
split-join n [] = split-lacks (decimal n) (decimal-lacks n)
split-join n (m ∷ ns) =
    ap (λ (t : String). split 44 (str_append (decimal n) t))
      (comma-append (join_from (decimal m) (map decimal ns)))
    ∙ split-comma (decimal n) (join_from (decimal m) (map decimal ns)) (decimal-lacks n)
    ∙ ap (λ (parts : List String). decimal n ∷ parts) (split-join m ns)

solid-append :
    (s t : String) → is_solid s ≡ true → is_solid t ≡ true → is_solid (str_append s t) ≡ true
solid-append String.[] t h k = ap is_solid (nil-append t) ∙ k
solid-append (String.◌∷◌ c s) t h k =
    ap is_solid (cons-append c s t) ∙ ground (arith, solid-append s t)

join-solid : (n : ℕ) (ns : List ℕ) → is_solid (join_from (decimal n) (map decimal ns)) ≡ true
join-solid n [] = decimal-solid n
join-solid n (m ∷ ns) =
    solid-append (decimal n) _ (decimal-solid n)
      (ap is_solid (comma-append (join_from (decimal m) (map decimal ns))) ∙ join-solid m ns)

-- A number that is read again after it is written.
abbrev IsRead : ℕ → Type 0
IsRead n = number u16_max (trim (decimal n)) ≡ ok n

parse_parts-AreRead :
    (parts : List String) (ns : List ℕ) → parse_parts parts ≡ ok ns → All IsRead ns
unfolding parse_parts
parse_parts-AreRead [] ns h = subst (All IsRead) (inner h) tt
  where
    inner : {xs ys : List ℕ} → ok xs ≡ ok ys → xs ≡ ys
    inner e = cc e
parse_parts-AreRead (part ∷ parts) ns h = elim (Checked-cases (number u16_max (trim part))) [
  | inr (error, e) ↦ absurd (err-ne-ok (rw (parse_parts, e) at h))
  | inl (n, e) ↦ elim (Checked-cases (parse_parts parts)) [
    | inr (error, f) ↦ absurd (err-ne-ok (rw (parse_parts, e, f) at h))
    | inl (more, f) ↦
        subst (All IsRead) (inner (rw (parse_parts, e, f) at h))
          (number-decimal u16_max (trim part) n (omega arith) e, parse_parts-AreRead parts more f)
  ]
]
  where
    err-ne-ok : {error : String} {xs : List ℕ} → err error ≢ ok xs
    err-ne-ok e = cc e

    inner : {xs ys : List ℕ} → ok xs ≡ ok ys → xs ≡ ys
    inner e = cc e

read-parse : (ns : List ℕ) → All IsRead ns → parse_parts (map decimal ns) ≡ ok ns
unfolding parse_parts
read-parse [] all = refl
read-parse (n ∷ ns) (e, all) = rw (parse_parts, e, read-parse ns all) refl

push_front-ne-nil : (c : Char) (parts : List String) → push_front c parts ≢ []
push_front-ne-nil c [] e = cc e
push_front-ne-nil c (part ∷ parts) e = cc e

pub split-ne-nil : (s : String) → split 44 s ≢ []
unfolding split
split-ne-nil String.[] e = cc e
split-ne-nil (String.◌∷◌ c s) e = elim (Bool-cases (code c == 44)) [
  | inl f ↦ cons-ne-nil (rw (split, f) at e)
  | inr f ↦ push_front-ne-nil c (split 44 s) (rw (split, f) at e)
]
  where
    cons-ne-nil : {part : String} {parts : List String} → part ∷ parts ≢ []
    cons-ne-nil e = cc e

-- A part makes a number.
pub parse_parts-nil : (parts : List String) → parse_parts parts ≡ ok [] → parts ≡ []
unfolding parse_parts
parse_parts-nil [] h = refl
parse_parts-nil (part ∷ parts) h = ground arith

pub statuses-parts :
    (s : String) (ns : List ℕ)
    → statuses s ≡ ok ns
    → (parse_parts (split 44 s) ≡ ok ns) × (any is_bad_status ns ≡ false)
unfolding statuses
statuses-parts s ns h = ground arith

pub statuses-join :
    (s : String) (ns : List ℕ)
    → statuses s ≡ ok ns
    → statuses (trim (join (map decimal ns))) ≡ ok ns
unfolding statuses
statuses-join s [] h =
    absurd (split-ne-nil s (parse_parts-nil (split 44 s) (statuses-parts s [] h).0))
statuses-join s (n ∷ ns) h =
    let (parsed, good) = statuses-parts s (n ∷ ns) h in
    let all = parse_parts-AreRead (split 44 s) (n ∷ ns) parsed in
    let shown = join_from (decimal n) (map decimal ns) in
    let parts : split 44 (trim shown) ≡ map decimal (n ∷ ns) =
      ap (split 44) (trim_of_solid shown (join-solid n ns)) ∙ split-join n ns in
    rw (statuses, parts, read-parse (n ∷ ns) all, good) refl
