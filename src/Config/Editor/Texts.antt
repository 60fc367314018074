-- ===== src/Config/Editor/Texts.antt =====
-- A setting that was read is shown as a text that is read as the same setting.
use Prim.Native.Char.{Char, code}
use v2ray_subscription_manag.Prelude.{
  ℕ, ◌+◌, ◌-◌, ◌*◌, ◌≤◌, ◌<◌, ◌^◌, ◌≡◌, ◌≢◌, ◌⊎◌, refl, ◌∙◌, ap, Bool, true, false, String, List,
  [], ◌∷◌, Option, none, some, inl, inr, Bool-cases, Option-cases, arith, unwrap_or, u64_max,
}
use v2ray_subscription_manag.Prelude.Decimal.{decimal}
use v2ray_subscription_manag.Text.{
  trim, eq_ignore_ascii_case, is_one_of, read_digits, parse_unsigned,
}
use v2ray_subscription_manag.Text.Trim.{trim_idem}
use v2ray_subscription_manag.Text.Numbers.{trim-decimal, decimal-first, parse_unsigned-decimal}
use v2ray_subscription_manag.Config.{ProbeMode, active, tcp}
use v2ray_subscription_manag.Config.Validate.{Checked, ok, err}
use v2ray_subscription_manag.Config.Editor.{
  number, bool_value, positive, probe_mode_of, required, is_quoted, without_quotes, normalize_path,
  optional_string, optional, optional_positive, text_of_bool, text_of_mode, text_or_auto,
}

pub read_digits-le :
    (max value : ℕ) (s : String) (n : ℕ) → value ≤ max → read_digits max value s ≡ some n → n ≤ max
unfolding read_digits
read_digits-le max value String.[] n le h = ground arith
read_digits-le max value (String.◌∷◌ c s) n le h =
    ground (arith, read_digits-le max (value * 10 + (code c - 48)) s n)

pub parse_unsigned-le : (max : ℕ) (s : String) (n : ℕ) → parse_unsigned max s ≡ some n → n ≤ max
unfolding parse_unsigned
parse_unsigned-le max String.[] n h = absurd (cc h)
parse_unsigned-le max (String.◌∷◌ c s) n h =
    ground (arith, read_digits-le max 0 s n, read_digits-le max 0 (String.◌∷◌ c s) n)

-- What is written of a number that was read is read again.
parse-again :
    (max n : ℕ) (s : String)
    → max < 10 ^ 39
    → parse_unsigned max s ≡ some n
    → parse_unsigned max (trim (decimal n)) ≡ some n
parse-again max n s bound h =
    ap (parse_unsigned max) (trim-decimal n)
    ∙ parse_unsigned-decimal max n (parse_unsigned-le max s n h) bound

pub number-decimal :
    (max : ℕ) (s : String) (n : ℕ)
    → max < 10 ^ 39
    → number max s ≡ ok n
    → number max (trim (decimal n)) ≡ ok n
unfolding number
number-decimal max s n bound h = elim (Option-cases (parse_unsigned max s)) [
  | inl e ↦ absurd (cc (rw (number, e) at h))
  | inr (m, e) ↦
      let same : m ≡ n = cc (rw (number, e) at h) in
      rw (number, parse-again max n s bound (e ∙ ap some same)) refl
]

pub positive-decimal :
    (max : ℕ) (name s : String) (n : ℕ)
    → max < 10 ^ 39
    → positive max name s ≡ ok n
    → positive max name (trim (decimal n)) ≡ ok n
unfolding positive
positive-decimal max name s n bound h = ground (arith, parse-again max n s bound)

pub bool_value-text : (b : Bool) → bool_value (trim (text_of_bool b)) ≡ ok b
unfolding bool_value trim is_one_of
bool_value-text true = refl
bool_value-text false = refl

pub probe_mode-text : (m : ProbeMode) → probe_mode_of (trim (text_of_mode m)) ≡ ok m
unfolding probe_mode_of trim is_one_of
probe_mode-text active = refl
probe_mode-text tcp = refl

pub required-text :
    (name raw t : String) → required name (trim raw) ≡ ok t → required name (trim t) ≡ ok t
unfolding required
required-text name raw t h = ground (arith, trim_idem raw)

-- What is taken for a path is trimmed.
normalize_path-trim : (raw : String) → trim (normalize_path raw) ≡ normalize_path raw
unfolding normalize_path
normalize_path-trim raw = elim (Bool-cases (is_quoted (trim raw))) [
  | inl e ↦ rw (normalize_path, e) (trim_idem (without_quotes (trim raw)))
  | inr e ↦ rw (normalize_path, e) (trim_idem raw)
]

normalize_path_again :
    (raw : String)
    → is_quoted (normalize_path raw) ≡ false
    → normalize_path (trim (normalize_path raw)) ≡ normalize_path raw
unfolding normalize_path
normalize_path_again raw plain =
    let path = normalize_path raw in
    let t : trim path ≡ path = normalize_path-trim raw in
    ap normalize_path t ∙ rw (normalize_path, t, plain) refl

-- The empty text is no word.
empty_path : optional_string (trim "") ≡ ""
unfolding optional_string normalize_path eq_ignore_ascii_case trim
empty_path = refl

pub optional_string-text :
    (raw : String)
    → is_quoted (optional_string raw) ≡ false
    → optional_string (trim (optional_string raw)) ≡ optional_string raw
unfolding optional_string
optional_string-text raw plain =
    elim (Bool-cases (eq_ignore_ascii_case (normalize_path raw) "null")) [
      | inl e ↦ rw (optional_string, e) empty_path
      | inr e ↦
          let same : normalize_path (trim (normalize_path raw)) ≡ normalize_path raw =
            normalize_path_again raw (rw (optional_string, e) at plain) in
          rw (optional_string, e, same, e) refl
    ]

optional-none : optional (trim "") ≡ none
unfolding optional optional_string normalize_path eq_ignore_ascii_case is_one_of trim
optional-none = refl

optional-off : optional (trim "off") ≡ none
unfolding optional optional_string normalize_path eq_ignore_ascii_case is_one_of trim
optional-off = refl

-- Whatever text stands for no setting, a setting that was read is read again.
optional-again :
    (raw absent : String)
    → optional (trim absent) ≡ none
    → is_quoted (unwrap_or (optional raw) absent) ≡ false
    → optional (trim (unwrap_or (optional raw) absent)) ≡ optional raw
unfolding optional
optional-again raw absent away plain =
    elim (Bool-cases (is_one_of ("" ∷ "off" ∷ "none" ∷ []) (optional_string raw))) [
      | inl e ↦ rw (optional, e) away
      | inr e ↦ rw (optional, e, optional_string-text raw (rw (optional, e) at plain), e) refl
    ]

pub optional-text :
    (raw : String)
    → is_quoted (unwrap_or (optional raw) "") ≡ false
    → optional (trim (unwrap_or (optional raw) "")) ≡ optional raw
optional-text raw plain = optional-again raw "" optional-none plain

pub optional-text_or_off :
    (raw : String)
    → is_quoted (unwrap_or (optional raw) "off") ≡ false
    → optional (trim (unwrap_or (optional raw) "off")) ≡ optional raw
optional-text_or_off raw plain = optional-again raw "off" optional-off plain

abbrev auto_words : List String
auto_words = "" ∷ "auto" ∷ "off" ∷ "none" ∷ "null" ∷ []

digit-no_word :
    (c : Char) (s : String)
    → 48 ≤ code c
    → code c ≤ 57
    → is_one_of auto_words (String.◌∷◌ c s) ≡ false
unfolding is_one_of
digit-no_word c s low high = ground arith

decimal-no_word : (n : ℕ) → is_one_of auto_words (trim (decimal n)) ≡ false
decimal-no_word n =
    let (c, s, e, low, high) = decimal-first n in
    ap (is_one_of auto_words) (trim-decimal n ∙ e) ∙ digit-no_word c s low high

pub Checked-cases {ℓ} :
    {A : Type ℓ} (r : Checked A) → ((a : A) × (r ≡ ok a)) ⊎ ((e : String) × (r ≡ err e))
Checked-cases (ok a) = inl (a, refl)
Checked-cases (err e) = inr (e, refl)

-- A number that was read for an optional setting was read as a positive one.
pub positive_of_optional :
    (name s : String) (n : ℕ)
    → optional_positive name s ≡ ok (some n)
    → positive u64_max name s ≡ ok n
unfolding optional_positive
positive_of_optional name s n h = elim (Bool-cases (is_one_of auto_words s)) [
  | inl e ↦ absurd (some-ne-none (rw (optional_positive, e) at h))
  | inr e ↦ elim (Checked-cases (positive u64_max name s)) [
    | inl (m, f) ↦ f ∙ ap ok (inner (rw (optional_positive, e, f) at h))
    | inr (error, f) ↦ absurd (err-ne-ok (rw (optional_positive, e, f) at h))
  ]
]
  where
    some-ne-none : {m : ℕ} → ok none ≢ ok (some m)
    some-ne-none e = cc e

    err-ne-ok : {error : String} {o : Option ℕ} → err error ≢ ok o
    err-ne-ok e = cc e

    inner : {m k : ℕ} → ok (some m) ≡ ok (some k) → m ≡ k
    inner e = cc e

auto_text : (name : String) → optional_positive name (trim "auto") ≡ ok none
unfolding optional_positive is_one_of trim
auto_text name = refl

pub optional_positive-text :
    (name s : String) (o : Option ℕ)
    → optional_positive name s ≡ ok o
    → optional_positive name (trim (text_or_auto o)) ≡ ok o
unfolding optional_positive
optional_positive-text name s none h = auto_text name
optional_positive-text name s (some n) h =
    rw
      (
        optional_positive,
        decimal-no_word n,
        positive-decimal u64_max name s n (omega arith) (positive_of_optional name s n h),
      )
      refl
