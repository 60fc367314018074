-- ===== src/Server/Guarded.antt =====
-- Who may read the results, and what a client makes of the text of a subscription.
use Prim.Native.Char.{Char, code}
use text.Mathlib.TextLemmas.{nil-append, cons-append, append_assoc as text_append_assoc}
use v2ray_subscription_manag.Prelude.{
  ◌≡◌, ◌≢◌, ◌⊎◌, ◌↔◌, inl, inr, refl, ◌∙◌, ap, subst, List-cases, Bool, true, false, not, ◌&&◌,
  String, List, [], ◌∷◌, ◌++◌, Option, none, some, All, ◌==◌, arith, str_append, eq_iff,
}
use v2ray_subscription_manag.Text.{is_empty_text, split}
use v2ray_subscription_manag.Config.Valid.{of_text}
use v2ray_subscription_manag.Model.{RuntimeState}
use v2ray_subscription_manag.Tui.Actions.{RuntimeConfig}
use v2ray_subscription_manag.Server.{
  ok_status, AuthFailure, into_response, is_token, authorize_request, join_lines, served_uris,
  subscription_body, subscription_response,
}

true-ne-false : true ≢ false
true-ne-false e = cc e

is_token_iff :
    (given : Option String) (token : String) → (is_token given token ≡ true) ↔ (given ≡ some token)
is_token_iff none token = ground arith
is_token_iff (some given) token = ground (arith, eq_iff given token)

module _ {Address : Type 0} where
  -- The own host may read, and others if sharing is on and they have the token that may be required.
  abbrev pub MayRead : RuntimeConfig Address → Bool → Option String → Type 0
  MayRead config local_request token =
      (local_request ≡ true)
      ⊎ ((config.sharing_enabled ≡ true)
          × ((config.require_token ≡ false) ⊎ (token ≡ some config.token)))

  -- A failure is not a success.
  authorize_request_lem :
      (config : RuntimeConfig Address) (local_request : Bool) (token : Option String)
      → ((authorize_request config local_request token ≡ none) × MayRead config local_request token)
        ⊎ ((f : AuthFailure) × (authorize_request config local_request token ≡ some f)
            × (f.status ≢ ok_status)
            × ¬ MayRead config local_request token)
  unfolding authorize_request
  authorize_request_lem config local_request token = ground (arith, is_token_iff token config.token)

  -- A request for the subscription is answered with success exactly if it may read; otherwise the
  -- answer has another status and is the same whatever the results are.
  pub subscription_response_decides :
      (base64 : String → String) (authorising : RuntimeConfig Address) (local_request : Bool)
      (token : Option String) (encoded : Bool) (runtime : RuntimeState)
      (config : RuntimeConfig Address)
      → (let answer = subscription_response base64 authorising local_request token encoded in
          (((answer runtime config).status ≡ ok_status) × MayRead authorising local_request token)
          ⊎ (((answer runtime config).status ≢ ok_status)
              × ¬ MayRead authorising local_request token
              × ((other : RuntimeState) (later : RuntimeConfig Address)
                  → answer other later ≡ answer runtime config)))
  unfolding subscription_response into_response
  subscription_response_decides base64 authorising local_request token encoded runtime config =
      elim (authorize_request_lem authorising local_request token) [
        | inl (e, may) ↦ inl (rw e refl, may)
        | inr (f, e, failed, refused) ↦ inr (rw e failed, refused, λ other later. rw e refl)
      ]

abbrev newline : Char
newline = "\n"

newline-append : (t : String) → str_append "\n" t ≡ String.◌∷◌ newline t
newline-append t =
    cons-append newline "" t ∙ ap (λ (s : String). String.◌∷◌ newline s) (nil-append t)

-- No character of a text is a line break.
abbrev pub is_line : String → Bool
is_line String.[] = true
is_line (String.◌∷◌ c s) = not (code c == 10) && is_line s

abbrev pub IsUri : String → Type 0
IsUri uri = (is_line uri ≡ true) × (uri ≢ "")

split-newline :
    (s t : String)
    → is_line s ≡ true
    → split 10 (str_append s (String.◌∷◌ newline t)) ≡ s ∷ split 10 t
unfolding split
split-newline String.[] t h = ap (split 10) (nil-append (String.◌∷◌ newline t))
split-newline (String.◌∷◌ c s) t h =
    ap (split 10) (cons-append c s (String.◌∷◌ newline t)) ∙ ground (arith, split-newline s t)

append-full : (s t : String) → s ≢ "" → is_empty_text (str_append s t) ≡ false
append-full String.[] t h = absurd (h refl)
append-full (String.◌∷◌ c s) t h = ap is_empty_text (cons-append c s t)

join_lines-full :
    (uri : String) (uris : List String) → uri ≢ "" → is_empty_text (join_lines (uri ∷ uris)) ≡ false
join_lines-full uri [] h = of_text uri h
join_lines-full uri (next ∷ uris) h = append-full uri _ h

split-lines :
    (uri : String) (uris : List String)
    → All IsUri (uri ∷ uris)
    → split 10 (str_append (join_lines (uri ∷ uris)) "\n") ≡ (uri ∷ uris) ++ "" ∷ []
unfolding split
split-lines uri [] h = split-newline uri "" h.0.0
split-lines uri (next ∷ uris) h =
    let later = join_lines (next ∷ uris) in
    ap (split 10) (
      text_append_assoc uri (str_append "\n" later) "\n"
      ∙ ap (str_append uri) (
          ap (λ (t : String). str_append t "\n") (newline-append later)
          ∙ cons-append newline later "\n"))
    ∙ split-newline uri (str_append later "\n") h.0.0
    ∙ ap (λ (parts : List String). uri ∷ parts) (split-lines next uris h.1)

-- The body that a client gets, split at line breaks, is the list of the served uris, with the text
-- after the last line break, which is empty, if none of them is empty or has a line break.
pub split-subscription_body :
    {Address : Type 0} (runtime : RuntimeState) (config : RuntimeConfig Address)
    → All IsUri (served_uris runtime config.top_n)
    → split 10 (subscription_body runtime config) ≡ served_uris runtime config.top_n ++ "" ∷ []
unfolding subscription_body split
split-subscription_body runtime config h = elim (List-cases (served_uris runtime config.top_n)) [
  | inl e ↦ rw (subscription_body, e) refl
  | inr (uri, uris, e) ↦
      let all = subst (All IsUri) e h in
      rw (subscription_body, e, join_lines-full uri uris all.0.1) (split-lines uri uris all)
]
