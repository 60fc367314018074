-- ===== src/Config/Normal.antt =====
-- A configuration that was validated stays as it is.
use v2ray_subscription_manag.Prelude.{
  ℕ, ◌≡◌, ◌≢◌, subst, refl, ◌∙◌, ap, sym, false, String, List, [], ◌∷◌, Option, none, inl, inr,
  Bool-cases, unwrap_or,
}
use v2ray_subscription_manag.Config.Valid.{IsValid}
use v2ray_subscription_manag.Config.Accepts.{validate_decides}
use v2ray_subscription_manag.Text.{trim, eq_ignore_ascii_case, is_one_of}
use v2ray_subscription_manag.Text.Trim.{trim_idem}
use v2ray_subscription_manag.Config.{AppConfig}
use v2ray_subscription_manag.Config.Validate.{
  normalize_string_or_null, normalize_sharing_token, normalize_optional_string, normalize, ok, err,
  validate,
}

abbrev words_for_none : List String
words_for_none = "" ∷ "off" ∷ "none" ∷ []

empty_stays : normalize_string_or_null "" ≡ ""
unfolding normalize_string_or_null eq_ignore_ascii_case trim
empty_stays = refl

pub normalize_string_or_null_idem :
    (v : String)
    → normalize_string_or_null (normalize_string_or_null v) ≡ normalize_string_or_null v
unfolding normalize_string_or_null
normalize_string_or_null_idem v = elim (Bool-cases (eq_ignore_ascii_case (trim v) "null")) [
  | inl e ↦ rw (normalize_string_or_null, e) empty_stays
  | inr e ↦ rw (normalize_string_or_null, e, trim_idem v, e) refl
]

-- A token that is no text with a meaning of its own.
abbrev pub IsToken : String → Type 0
IsToken token =
    (normalize_string_or_null token ≡ token) × (eq_ignore_ascii_case token "true" ≡ false)

pub normalize_sharing_token-IsToken :
    (generated v : String) → IsToken generated → IsToken (normalize_sharing_token generated v)
unfolding normalize_sharing_token
normalize_sharing_token-IsToken generated v h =
    elim (Bool-cases (eq_ignore_ascii_case (normalize_string_or_null v) "true")) [
      | inl e ↦ rw (normalize_sharing_token, e) h
      | inr e ↦ rw (normalize_sharing_token, e) (normalize_string_or_null_idem v, e)
    ]

pub normalize_sharing_token_of_IsToken :
    (generated token : String) → IsToken token → normalize_sharing_token generated token ≡ token
unfolding normalize_sharing_token
normalize_sharing_token_of_IsToken generated token (same, plain) =
    rw (normalize_sharing_token, same, plain) refl

none_stays : normalize_optional_string none ≡ none
unfolding normalize_optional_string is_one_of
none_stays = rw (empty_stays) refl

pub normalize_optional_string_idem :
    (v : Option String)
    → normalize_optional_string (normalize_optional_string v) ≡ normalize_optional_string v
unfolding normalize_optional_string
normalize_optional_string_idem v =
    let normal = normalize_string_or_null (unwrap_or v "") in
    elim (Bool-cases (is_one_of words_for_none normal)) [
      | inl e ↦ rw (normalize_optional_string, e) none_stays
      | inr e ↦
          rw (normalize_optional_string, e, normalize_string_or_null_idem (unwrap_or v ""), e) refl
    ]

ok_injective {ℓ} : {A : Type ℓ} {a b : A} → ok a ≡ ok b → a ≡ b
ok_injective e = cc e

ok-ne-err {ℓ} : {A : Type ℓ} {a : A} {error : String} → ok a ≢ err error
ok-ne-err e = cc e

module _ {Address : Type 0} (port_of : Address → ℕ) where
  pub normalize_idem :
      (generated again : String) (c : AppConfig Address)
      → IsToken generated
      → normalize port_of again (normalize port_of generated c) ≡ normalize port_of generated c
  unfolding normalize
  normalize_idem generated again c token =
      rw
        (
          normalize_string_or_null_idem c.probe.sing_box_path,
          normalize_optional_string_idem c.probe.download_url,
          normalize_optional_string_idem c.emergency_config,
          normalize_sharing_token_of_IsToken again _
              (normalize_sharing_token-IsToken generated c.sharing.token token),
        )
        refl

  -- A configuration that validate returned is accepted unchanged when it is validated again, so a
  -- configuration that was loaded can be saved and loaded: no text is normalised twice, and no second
  -- token is generated. The token that was generated is none of the words with a meaning.
  pub validate-validate :
      (generated again : String) (c d : AppConfig Address)
      → IsToken generated
      → validate port_of generated c ≡ ok d
      → validate port_of again d ≡ ok d
  validate-validate generated again c d token h =
      let normal = normalize port_of generated c in
      let stays = normalize_idem generated again c token in
      elim (validate_decides port_of generated c) [
        | inl (accepted, valid) ↦
            let same : d ≡ normal = ok_injective (sym h ∙ accepted) in
            subst (λ (x : AppConfig Address). validate port_of again x ≡ ok x) (sym same)
              (elim (validate_decides port_of again normal) [
                | inl (accepted', valid') ↦ accepted' ∙ ap ok stays
                | inr (error, failed, invalid) ↦ absurd (
                    invalid
                      (subst (λ (x : AppConfig Address). IsValid port_of x) (sym stays) valid))
              ])
        | inr (error, failed, invalid) ↦ absurd (ok-ne-err (sym h ∙ failed))
      ]
