-- ===== src/Tests/Settings.antt =====
-- Examples of the configuration and its menu.
use v2ray_subscription_manag.Prelude.{
  ℕ, ◌≡◌, ◌⊎◌, inr, refl, Bool, true, false, String, [], ◌∷◌, Option, none, some, arith, str_eq,
  if◌then◌else◌,
}
use v2ray_subscription_manag.Prelude.Decimal.{decimal}
use v2ray_subscription_manag.Text.{
  trim, eq_ignore_ascii_case, is_one_of, parse_unsigned, read_digits, split,
}
use v2ray_subscription_manag.Config.{AppConfig, active}
use v2ray_subscription_manag.Config.Validate.{
  ok, err, normalize, normalize_string_or_null, normalize_optional_string, normalize_sharing_token,
  validate,
}
use v2ray_subscription_manag.Config.Valid.{IsValid}
use v2ray_subscription_manag.Config.Accepts.{validate_decides}
use v2ray_subscription_manag.Config.Normal.{IsToken, validate-validate}
use v2ray_subscription_manag.Config.Editor.{
  accepted_statuses, proxy_port, value, apply, statuses, parse_parts, number,
}
use v2ray_subscription_manag.Config.Editor.RoundTrip.{apply-value}
use v2ray_subscription_manag.Config.Editor.Keeps.{apply-IsValid, apply-ne-IsValid}
use v2ray_subscription_manag.Tests.Proxying.{enabled}

-- Two addresses, on all interfaces and on the own one.
abbrev pub parse_address : String → Option Bool
parse_address s =
    if str_eq s "0.0.0.0:27141"
    then some true
    else if str_eq s "127.0.0.1:27141"
    then some false
    else none

abbrev pub print_address : Bool → String
print_address true = "0.0.0.0:27141"
print_address false = "127.0.0.1:27141"

abbrev pub port_of : Bool → ℕ
port_of address = 27141

address_is_read : (a : Bool) → parse_address (trim (print_address a)) ≡ some a
unfolding trim
address_is_read true = refl
address_is_read false = refl

abbrev pub settings : AppConfig Bool
settings = record {
  bind = false;
  top_n = 10;
  refresh_seconds = 1800;
  encoded_subscription = true;
  prioritize_stability = true;
  return_configs_asap = true;
  scan_all_configs = false;
  fetch_timeout_ms = 15000;
  fetch_concurrency = 8;
  max_subscription_bytes = 8388608;
  use_cache_only = false;
  emergency_config = some " off ";
  clean_offlines_after_days = 7;
  probe = record {
    mode = active;
    sing_box_path = "NULL";
    connect_timeout_ms = 1500;
    active_timeout_ms = 8000;
    startup_timeout_ms = 5000;
    concurrency = 8;
    batch_size = none;
    process_concurrency = none;
    tcp_prefilter = true;
    test_url = "https://example.com";
    accepted_statuses = 204 ∷ [];
    download_url = none;
    download_bytes_limit = 1000000;
    sing_box_path_auto = false;
  };
  sharing = record { enabled = false; require_token = true; token = "True" };
  proxy = enabled;
  geoip_db_path = none;
  subscriptions =
      record { name = "a"; url = "https://a.example"; enabled = true; priority = 1 } ∷ [];
}

-- The settings without the texts that stand for nothing, and with a token.
abbrev loaded : AppConfig Bool
loaded = record settings {
  emergency_config = none;
  probe = record settings.probe { sing_box_path = "" };
  sharing = record settings.sharing { token = "t0ken" };
}

settings_load : validate port_of "t0ken" settings ≡ ok loaded
unfolding validate normalize normalize_string_or_null normalize_optional_string
    normalize_sharing_token trim eq_ignore_ascii_case is_one_of
settings_load = refl

sample_word : IsToken "t0ken"
unfolding normalize_string_or_null trim eq_ignore_ascii_case
sample_word = (refl, refl)

validate_decides_example :
    ((validate port_of "t0ken" settings ≡ ok (normalize port_of "t0ken" settings))
      × IsValid port_of (normalize port_of "t0ken" settings))
    ⊎ ((error : String) × (validate port_of "t0ken" settings ≡ err error)
        × ¬ IsValid port_of (normalize port_of "t0ken" settings))
validate_decides_example = validate_decides port_of "t0ken" settings

validate-validate_example : validate port_of "other" loaded ≡ ok loaded
validate-validate_example =
    validate-validate port_of "t0ken" "other" settings loaded sample_word settings_load

abbrev with_statuses : AppConfig Bool
with_statuses = record loaded { probe = record loaded.probe { accepted_statuses = 204 ∷ 200 ∷ [] } }

statuses_entered :
    apply parse_address print_address "t0ken" loaded accepted_statuses " 204, +200 "
    ≡ ok with_statuses
unfolding apply statuses parse_parts number trim split parse_unsigned read_digits
statuses_entered = refl

apply-value_example :
    apply parse_address print_address "t0ken" with_statuses accepted_statuses
      (value parse_address print_address "t0ken" with_statuses accepted_statuses)
    ≡ ok with_statuses
unfolding value decimal
apply-value_example =
    apply-value parse_address print_address "t0ken" address_is_read sample_word loaded with_statuses
      accepted_statuses " 204, +200 " refl statuses_entered

loaded-IsValid : IsValid port_of loaded
unfolding trim
loaded-IsValid = record {
  top_n = omega arith;
  fetch_concurrency = omega arith;
  max_bytes = omega arith;
  probe = record {
    concurrency = omega arith;
    batch_size = tt;
    process_concurrency = tt;
    connect_timeout = omega arith;
    active_timeout = omega arith;
    startup_timeout = omega arith;
    target = inr (λ e. cc e, λ e. cc e);
    statuses = omega arith;
    download_limit = omega arith;
  };
  clean_days = omega arith;
  subscriptions = ((λ e. cc e, λ e. cc e), tt);
  token = inr (λ e. cc e);
  proxy = inr (record {
    port = omega arith;
    apart = λ (e : enabled.port ≡ 27141). omega arith;
    interval = omega arith;
  });
}

apply-IsValid_example : IsValid port_of with_statuses
apply-IsValid_example =
    apply-IsValid port_of parse_address print_address "t0ken" loaded with_statuses accepted_statuses
      " 204, +200 " refl loaded-IsValid statuses_entered

apply-ne-IsValid_example :
    (d : AppConfig Bool) × (apply parse_address print_address "t0ken" loaded proxy_port
        (decimal (port_of loaded.bind))
      ≡ ok d)
    × ¬ IsValid port_of d
apply-ne-IsValid_example =
    apply-ne-IsValid port_of parse_address print_address "t0ken" loaded refl (omega arith)
      (omega arith)
