-- ===== src/Config/Validate.antt =====
-- The normalisation and validation of a configuration: validate and what it uses, of config.rs. The
-- token that generate_token makes is an argument.
use v2ray_subscription_manag.Prelude.{
  ℕ, Bool, true, false, not, ◌&&◌, String, List, [], ◌∷◌, ◌++◌, Option, none, some, any, leb, ◌==◌,
  if◌then◌else◌, str_append, unwrap_or,
}
use v2ray_subscription_manag.Prelude.Decimal.{decimal}
use v2ray_subscription_manag.Text.{trim, eq_ignore_ascii_case, is_one_of, is_empty_text}
use v2ray_subscription_manag.Stop.{is_empty}
use v2ray_subscription_manag.Config.{
  AppConfig, ProbeConfig, ProbeMode, active, tcp, ProxyConfig, SubscriptionSource,
}

unfoldable pub normalize_string_or_null : String → String
normalize_string_or_null value =
    let trimmed = trim value in if eq_ignore_ascii_case trimmed "null" then "" else trimmed

unfoldable pub normalize_sharing_token : String → String → String
normalize_sharing_token generated value =
    let normal = normalize_string_or_null value in
    if eq_ignore_ascii_case normal "true" then generated else normal

unfoldable pub normalize_optional_string : Option String → Option String
normalize_optional_string value =
    let normal = normalize_string_or_null (unwrap_or value "") in
    if is_one_of ("" ∷ "off" ∷ "none" ∷ []) normal then none else some normal

abbrev pub is_active : ProbeMode → Bool
is_active active = true
is_active tcp = false

-- `batch_size == Some(0)`
abbrev pub is_some_zero : Option ℕ → Bool
is_some_zero none = false
is_some_zero (some n) = n == 0

abbrev pub is_bad_status : ℕ → Bool
is_bad_status status = not (leb 100 status && leb status 599)

-- What is asked of a subscription: a test that fails it, and the error.
abbrev pub subscription_checks : List SubscriptionSource → List (Bool × String)
subscription_checks [] = []
subscription_checks (s ∷ rest) =
    (is_empty_text (trim s.name), "subscription name cannot be empty")
    ∷ (
      is_empty_text (trim s.url),
      str_append "subscription '" (str_append s.name "' has an empty url"),
    )
    ∷ subscription_checks rest

-- The error of the first test that fails.
abbrev pub first_error : List (Bool × String) → Option String
first_error [] = none
first_error ((failed, error) ∷ checks) = if failed then some error else first_error checks

pub data Checked {ℓ} (A : Type ℓ) : Type ℓ where
  ok : A → Checked A
  err : String → Checked A

module _ {Address : Type 0} (port_of : Address → ℕ) (generated : String) where
  unfoldable pub normalize : AppConfig Address → AppConfig Address
  normalize c = record c {
    probe = record c.probe {
      sing_box_path = normalize_string_or_null c.probe.sing_box_path;
      download_url = normalize_optional_string c.probe.download_url;
    };
    emergency_config = normalize_optional_string c.emergency_config;
    sharing = record c.sharing { token = normalize_sharing_token generated c.sharing.token };
  }

  abbrev pub probe_checks : ProbeConfig → List (Bool × String)
  probe_checks p =
      (p.concurrency == 0, "probe.concurrency must be greater than 0")
      ∷ (is_some_zero p.batch_size, "probe.batch_size must be null or greater than 0")
      ∷ (
        is_some_zero p.process_concurrency,
        "probe.process_concurrency must be null or greater than 0",
      )
      ∷ (p.connect_timeout_ms == 0, "probe.connect_timeout_ms must be greater than 0")
      ∷ (p.active_timeout_ms == 0, "probe.active_timeout_ms must be greater than 0")
      ∷ (p.startup_timeout_ms == 0, "probe.startup_timeout_ms must be greater than 0")
      ∷ (
        is_active p.mode && is_empty_text (trim p.test_url),
        "probe.test_url cannot be empty when probe.mode is active",
      )
      ∷ (
        is_active p.mode && is_empty p.accepted_statuses,
        "probe.accepted_statuses cannot be empty when probe.mode is active",
      )
      ∷ (
        any is_bad_status p.accepted_statuses,
        "probe.accepted_statuses must contain valid HTTP status codes from 100 to 599",
      )
      ∷ (p.download_bytes_limit == 0, "probe.download_bytes_limit must be greater than 0")
      ∷ []

  abbrev pub port_error : ℕ → ℕ → String
  port_error port bind = str_append "proxy.port (" (
      str_append (decimal port)
        (str_append ") must not equal bind port (" (str_append (decimal bind) ")")))

  abbrev pub proxy_checks : ProxyConfig → ℕ → List (Bool × String)
  proxy_checks p bind =
      (p.enabled && p.port == 0, "proxy.port must be greater than 0")
      ∷ (p.enabled && p.port == bind, port_error p.port bind)
      ∷ (
        p.enabled && p.health_check_interval_seconds == 0,
        "proxy.health_check_interval_seconds must be greater than 0",
      )
      ∷ []

  abbrev pub sharing_checks : AppConfig Address → List (Bool × String)
  sharing_checks c =
      (
        c.sharing.require_token && is_empty_text c.sharing.token,
        "sharing.token must be a string or true when sharing.require_token is true",
      )
      ∷ proxy_checks c.proxy (port_of c.bind)

  abbrev pub later_checks : AppConfig Address → List (Bool × String)
  later_checks c =
      (c.clean_offlines_after_days == 0, "clean_offlines_after_days must be greater than 0")
      ∷ (subscription_checks c.subscriptions ++ sharing_checks c)

  abbrev pub checks : AppConfig Address → List (Bool × String)
  checks c =
      (c.top_n == 0, "top_n must be greater than 0")
      ∷ (c.fetch_concurrency == 0, "fetch_concurrency must be greater than 0")
      ∷ (c.max_subscription_bytes == 0, "max_subscription_bytes must be greater than 0")
      ∷ (probe_checks c.probe ++ later_checks c)

  unfoldable pub validate : AppConfig Address → Checked (AppConfig Address)
  unfolding normalize
  validate c = elim (first_error (checks (normalize c))) [
    | none ↦ ok (normalize c)
    | some e ↦ err e
  ]
