-- ===== src/Server.antt =====
-- The HTTP handlers that hand the results out, of server.rs. The address of a request counts by
-- whether it is the own host's; the base64 of a text, the Clash configuration of the links and what
-- the readings of the shared state give are arguments. The text of the results, which is JSON, is the
-- state itself here.
pub mod Guarded
use v2ray_subscription_manag.Prelude.{
  ℕ, Bool, true, false, not, ◌&&◌, ◌||◌, String, List, [], ◌∷◌, map, Option, none, some, any, take,
  keep, leb, if◌then◌else◌, str_append, str_eq,
}
use v2ray_subscription_manag.Text.{is_empty_text}
use v2ray_subscription_manag.Model.{RuntimeState, RankedConfig}
use v2ray_subscription_manag.Config.Validate.{Checked, ok, err}
use v2ray_subscription_manag.Tui.Actions.{RuntimeConfig}

-- 20 seconds
abbrev pub subscription_ready_wait : ℕ
subscription_ready_wait = 20000

pub data StatusCode : Type 0 where
  ok_status forbidden unauthorized internal_server_error : StatusCode

pub record AuthFailure : Type 0 where
  pub status : StatusCode
  pub message : String

pub data Body : Type 0 where
  text : String → Body
  json : RuntimeState → Body

pub record Response : Type 0 where
  pub status : StatusCode
  pub headers : List (String × String)
  pub body : Body

abbrev pub content_type : String → List (String × String)
content_type s = ("content-type", s) ∷ []

abbrev pub plain : List (String × String)
plain = content_type "text/plain; charset=utf-8"

-- No client or proxy keeps the answer.
abbrev pub no_store : String → List (String × String)
no_store s =
    ("content-type", s)
    ∷ ("cache-control", "no-store, no-cache, max-age=0")
    ∷ ("pragma", "no-cache")
    ∷ ("expires", "0")
    ∷ []

-- `AuthFailure::into_response`
unfoldable pub into_response : AuthFailure → Response
into_response f = record { status = f.status; headers = plain; body = text f.message }

abbrev pub is_token : Option String → String → Bool
is_token none token = false
is_token (some given) token = str_eq given token

abbrev pub join_lines : List String → String
join_lines [] = ""
join_lines (uri ∷ []) = uri
join_lines (uri ∷ next ∷ uris) = str_append uri (str_append "\n" (join_lines (next ∷ uris)))

-- The uris of the first reachable configs.
abbrev pub served_uris : RuntimeState → ℕ → List String
served_uris runtime top_n =
    map (λ (r : RankedConfig). r.uri)
      (take top_n (keep (λ (r : RankedConfig). r.reachable) runtime.ranked))

-- What a request gets that is not refused.
abbrev pub guarded : Option AuthFailure → Response → Response
guarded none response = response
guarded (some f) response = into_response f

abbrev pub clash_response : Checked String → Response
clash_response (ok yaml) = record {
  status = ok_status;
  headers = no_store "text/yaml; charset=utf-8";
  body = text yaml;
}
clash_response (err error) = record {
  status = internal_server_error;
  headers = plain;
  body = text (str_append "failed to generate clash config: " error);
}

module _ {Address : Type 0} where
  -- The failure, if the request is refused.
  unfoldable pub authorize_request :
      RuntimeConfig Address → Bool → Option String → Option AuthFailure
  authorize_request config local_request token =
      if local_request
      then none
      else if not config.sharing_enabled
      then some (record { status = forbidden; message = "LAN sharing is disabled\n" })
      else if config.require_token && not (is_token token config.token)
      then some (record { status = unauthorized; message = "missing or invalid token\n" })
      else none

  unfoldable pub subscription_body : RuntimeState → RuntimeConfig Address → String
  subscription_body runtime config =
      let body = join_lines (served_uris runtime config.top_n) in
      if is_empty_text body then body else str_append body "\n"

  unfoldable pub results_response :
      RuntimeConfig Address → Bool → Option String → RuntimeState → Response
  results_response config local_request token runtime =
      guarded (authorize_request config local_request token) (record {
        status = ok_status;
        headers = content_type "application/json";
        body = json runtime;
      })

  -- The configuration is read once to authorise the request and once for the answer.
  unfoldable pub subscription_response :
      (String → String)
      → RuntimeConfig Address
      → Bool
      → Option String
      → Bool
      → RuntimeState
      → RuntimeConfig Address
      → Response
  subscription_response base64 authorising local_request token encoded runtime config =
      let body = subscription_body runtime config in
      guarded (authorize_request authorising local_request token) (record {
        status = ok_status;
        headers = no_store "text/plain; charset=utf-8";
        body = text (if encoded then base64 body else body);
      })

  -- The configuration is read once more for whether the text is encoded.
  abbrev pub subscription :
      (String → String)
      → RuntimeConfig Address
      → RuntimeConfig Address
      → Bool
      → Option String
      → RuntimeState
      → RuntimeConfig Address
      → Response
  subscription base64 first authorising local_request token =
      subscription_response base64 authorising local_request token first.encoded_subscription

  abbrev pub subscription_txt :
      (String → String)
      → RuntimeConfig Address
      → Bool
      → Option String
      → RuntimeState
      → RuntimeConfig Address
      → Response
  subscription_txt base64 authorising local_request token =
      subscription_response base64 authorising local_request token false

  unfoldable pub mihomo_response :
      (List String → Checked String)
      → RuntimeConfig Address
      → Bool
      → Option String
      → RuntimeState
      → RuntimeConfig Address
      → Response
  mihomo_response generate authorising local_request token runtime config =
      guarded (authorize_request authorising local_request token)
        (clash_response (generate (served_uris runtime config.top_n)))

-- The reading that subscription_snapshot returns, of the readings of the state with the milliseconds
-- that have passed at each.
unfoldable pub subscription_snapshot : List (RuntimeState × ℕ) → Option RuntimeState
subscription_snapshot [] = none
subscription_snapshot ((runtime, elapsed) ∷ readings) =
    let later = subscription_snapshot readings in
    if not runtime.refreshing
      || any (λ (r : RankedConfig). r.reachable) runtime.ranked
      || leb subscription_ready_wait elapsed
    then some runtime
    else later
