-- ===== src/Text/Trim.antt =====
-- What is trimmed stays as it is.
use Prim.Native.Char.{code}
use v2ray_subscription_manag.Prelude.{
  ◌≡◌, refl, ◌∙◌, Bool, true, not, ◌&&◌, String, arith, inl, inr, Bool-cases, ap, sym,
}
use v2ray_subscription_manag.Text.{is_whitespace, is_empty_text, trim_start, trim_end, trim}

-- The first character is no space.
abbrev pub starts : String → Bool
starts String.[] = true
starts (String.◌∷◌ c s) = not (is_whitespace (code c))

trim_start-starts : (s : String) → starts (trim_start s) ≡ true
unfolding trim_start
trim_start-starts String.[] = refl
trim_start-starts (String.◌∷◌ c s) = elim (Bool-cases (is_whitespace (code c))) [
  | inl e ↦ rw (trim_start, e) (trim_start-starts s)
  | inr e ↦ rw (trim_start, e, starts, e) refl
]

trim_start_of_starts : (s : String) → starts s ≡ true → trim_start s ≡ s
unfolding trim_start
trim_start_of_starts String.[] h = refl
trim_start_of_starts (String.◌∷◌ c s) h = elim (Bool-cases (is_whitespace (code c))) [
  | inl e ↦ absurd (cc (h, ap not e))
  | inr e ↦ rw (trim_start, e) refl
]

trim_end-starts : (s : String) → starts s ≡ true → starts (trim_end s) ≡ true
unfolding trim_end
trim_end-starts String.[] h = refl
trim_end-starts (String.◌∷◌ c s) h = elim (Bool-cases (is_whitespace (code c))) [
  | inl e ↦ absurd (cc (h, ap not e))
  | inr e ↦ rw (trim_end, e, starts, e) refl
]

trim_end_idem : (s : String) → trim_end (trim_end s) ≡ trim_end s
unfolding trim_end
trim_end_idem String.[] = refl
trim_end_idem (String.◌∷◌ c s) =
    elim (Bool-cases (is_whitespace (code c) && is_empty_text (trim_end s))) [
      | inl e ↦ rw (trim_end, e) refl
      | inr e ↦ rw (trim_end, e, trim_end_idem s, e) refl
    ]

pub trim_idem : (s : String) → trim (trim s) ≡ trim s
unfolding trim
trim_idem s =
    ap trim_end
      (trim_start_of_starts (trim s) (trim_end-starts (trim_start s) (trim_start-starts s)))
    ∙ trim_end_idem (trim_start s)

-- No character is a space.
abbrev pub is_solid : String → Bool
is_solid String.[] = true
is_solid (String.◌∷◌ c s) = not (is_whitespace (code c)) && is_solid s

solid-starts : (s : String) → is_solid s ≡ true → starts s ≡ true
solid-starts String.[] h = refl
solid-starts (String.◌∷◌ c s) h = ground arith

trim_end_of_solid : (s : String) → is_solid s ≡ true → trim_end s ≡ s
unfolding trim_end
trim_end_of_solid String.[] h = refl
trim_end_of_solid (String.◌∷◌ c s) h = elim (Bool-cases (is_whitespace (code c))) [
  | inl e ↦ absurd (cc (h, ap (λ (b : Bool). not b && is_solid s) e))
  | inr e ↦
      rw (trim_end, e)
        (ap (λ (t : String). String.◌∷◌ c t)
          (trim_end_of_solid s (sym (ap (λ (b : Bool). not b && is_solid s) e) ∙ h)))
]

pub trim_of_solid : (s : String) → is_solid s ≡ true → trim s ≡ s
unfolding trim
trim_of_solid s h = ap trim_end (trim_start_of_starts s (solid-starts s h)) ∙ trim_end_of_solid s h
