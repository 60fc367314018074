-- ===== src/Config/Editor/RoundTrip.antt =====
-- What was entered in the configuration menu can be shown and entered again.
use v2ray_subscription_manag.Prelude.{
  ◌≡◌, ◌≢◌, refl, ◌∙◌, ap, sym, subst, false, String, map, Option, some, arith, unwrap_or, u64_max,
  u32_max,
}
use v2ray_subscription_manag.Prelude.Decimal.{decimal}
use v2ray_subscription_manag.Text.{trim}
use v2ray_subscription_manag.Text.Trim.{trim_idem}
use v2ray_subscription_manag.Config.{AppConfig}
use v2ray_subscription_manag.Config.Validate.{
  Checked, ok, err, normalize_string_or_null, normalize_sharing_token,
}
use v2ray_subscription_manag.Config.Normal.{
  IsToken, normalize_sharing_token-IsToken, normalize_sharing_token_of_IsToken,
}
use v2ray_subscription_manag.Config.Editor.{
  ConfigKey, bind, top_n, refresh_seconds, encoded_subscription, prioritize_stability,
  return_configs_asap, scan_all_configs, fetch_timeout, fetch_concurrency, max_subscription_bytes,
  use_cache_only, emergency_config, probe_mode, sing_box_path, connect_timeout, active_timeout,
  startup_timeout, probe_concurrency, probe_batch_size, probe_process_concurrency, test_url,
  accepted_statuses, download_url, download_limit, clean_offline_days, token_required, token,
  proxy_enabled, proxy_port, proxy_discoverable, proxy_health_check_url,
  proxy_health_check_interval, reset_defaults, label, u16_max, number, bool_value, positive,
  probe_mode_of, required, statuses, optional_string, optional, optional_positive, is_quoted,
  text_of_bool, text_of_mode, text_or_auto, join, store, address, value, apply,
}
use v2ray_subscription_manag.Config.Editor.Texts.{
  number-decimal, positive-decimal, bool_value-text, probe_mode-text, required-text,
  optional_string-text, optional-text, optional-text_or_off, optional_positive-text,
}
use v2ray_subscription_manag.Config.Editor.Lists.{statuses-join}

ok_injective {ℓ} : {A : Type ℓ} {a b : A} → ok a ≡ ok b → a ≡ b
ok_injective e = cc e

err-ne-ok {ℓ} : {A : Type ℓ} {error : String} {a : A} → err error ≢ ok a
err-ne-ok e = cc e

-- A setting that is read again as it was stored changes nothing.
store-again {ℓ κ} :
    {A : Type ℓ} {C : Type κ} (r : Checked A) (f : A → C) (d : C) (again : C → Checked A)
    (g : C → A → C)
    → ((a : A) → r ≡ ok a → d ≡ f a → again (f a) ≡ ok a)
    → ((a : A) → g (f a) a ≡ f a)
    → store r f ≡ ok d
    → store (again d) (g d) ≡ ok d
store-again (ok a) f d again g back same h =
    let e = sym (ok_injective h) in
    subst (λ (x : _). store (again x) (g x) ≡ ok x) (sym e)
      (ap (λ (r : Checked _). store r (g (f a))) (back a refl e) ∙ ap ok (same a))
store-again (err error) f d again g back same h = absurd (err-ne-ok h)

optional_string-read :
    (raw a : String)
    → ok (optional_string raw) ≡ ok a
    → is_quoted a ≡ false
    → ok (optional_string (trim a)) ≡ ok a
optional_string-read raw a h plain =
    let e = ok_injective h in
    subst (λ (x : String). ok (optional_string (trim x)) ≡ ok x) e
      (ap ok (optional_string-text raw (ap is_quoted e ∙ plain)))

optional-read :
    (raw : String) (a : Option String)
    → ok (optional raw) ≡ ok a
    → is_quoted (unwrap_or a "") ≡ false
    → ok (optional (trim (unwrap_or a ""))) ≡ ok a
optional-read raw a h plain =
    let e = ok_injective h in
    subst (λ (x : Option String). ok (optional (trim (unwrap_or x ""))) ≡ ok x) e
      (ap ok (optional-text raw (ap (λ (x : Option String). is_quoted (unwrap_or x "")) e ∙ plain)))

optional-read_or_off :
    (raw : String) (a : Option String)
    → ok (optional raw) ≡ ok a
    → is_quoted (unwrap_or a "off") ≡ false
    → ok (optional (trim (unwrap_or a "off"))) ≡ ok a
optional-read_or_off raw a h plain =
    let e = ok_injective h in
    subst (λ (x : Option String). ok (optional (trim (unwrap_or x "off"))) ≡ ok x) e
      (ap ok (
        optional-text_or_off raw
          (ap (λ (x : Option String). is_quoted (unwrap_or x "off")) e ∙ plain)))

normalize_sharing_token-trim :
    (generated v : String)
    → normalize_sharing_token generated (trim v) ≡ normalize_sharing_token generated v
unfolding normalize_sharing_token normalize_string_or_null
normalize_sharing_token-trim generated v = rw (trim_idem v) refl

token-read :
    (generated raw a : String)
    → IsToken generated
    → ok (normalize_sharing_token generated raw) ≡ ok a
    → ok (normalize_sharing_token generated (trim a)) ≡ ok a
token-read generated raw a fine h =
    let e = ok_injective h in
    subst (λ (x : String). ok (normalize_sharing_token generated (trim x)) ≡ ok x) e
      (ap ok (
        normalize_sharing_token-trim generated (normalize_sharing_token generated raw)
        ∙ normalize_sharing_token_of_IsToken generated (normalize_sharing_token generated raw)
            (normalize_sharing_token-IsToken generated raw fine)))

module _ {Address : Type 0} (parse_address : String → Option Address)
    (print_address : Address → String) (generated : String)
    (reads : (a : Address) → parse_address (trim (print_address a)) ≡ some a)
    (token_fine : IsToken generated) where
  address-read :
      (a : Address) → address parse_address print_address generated (trim (print_address a)) ≡ ok a
  address-read a = rw (address, reads a) refl

  -- A text that is accepted for a setting leaves a configuration whose menu shows a text for that
  -- setting which is accepted again and changes nothing, for each of the settings. A socket address
  -- that is written is read again, the generated token is none of the words with a meaning, and the
  -- text that is shown is not in quotes, which would be taken off.
  pub apply-value :
      (c d : AppConfig Address) (key : ConfigKey) (raw : String)
      → is_quoted (value parse_address print_address generated d key) ≡ false
      → apply parse_address print_address generated c key raw ≡ ok d
      → apply parse_address print_address generated d key
          (value parse_address print_address generated d key)
        ≡ ok d
  unfolding apply value
  apply-value c d bind raw plain done =
      store-again (address parse_address print_address generated (trim raw))
        (λ x. record c { bind = x }) d
        (λ d. address parse_address print_address generated (trim (print_address d.bind)))
        (λ d x. record d { bind = x }) (λ a h e. address-read a) (λ a. refl) done
  apply-value c d top_n raw plain done =
      store-again (positive u64_max (label top_n) (trim raw)) (λ x. record c { top_n = x }) d
        (λ d. positive u64_max (label top_n) (trim (decimal d.top_n)))
        (λ d x. record d { top_n = x })
        (λ a h e. positive-decimal u64_max (label top_n) (trim raw) a (omega arith) h) (λ a. refl)
        done
  apply-value c d refresh_seconds raw plain done =
      store-again (number u64_max (trim raw)) (λ x. record c { refresh_seconds = x }) d
        (λ d. number u64_max (trim (decimal d.refresh_seconds)))
        (λ d x. record d { refresh_seconds = x })
        (λ a h e. number-decimal u64_max (trim raw) a (omega arith) h) (λ a. refl) done
  apply-value c d encoded_subscription raw plain done =
      store-again (bool_value (trim raw)) (λ x. record c { encoded_subscription = x }) d
        (λ d. bool_value (trim (text_of_bool d.encoded_subscription)))
        (λ d x. record d { encoded_subscription = x }) (λ a h e. bool_value-text a) (λ a. refl) done
  apply-value c d prioritize_stability raw plain done =
      store-again (bool_value (trim raw)) (λ x. record c { prioritize_stability = x }) d
        (λ d. bool_value (trim (text_of_bool d.prioritize_stability)))
        (λ d x. record d { prioritize_stability = x }) (λ a h e. bool_value-text a) (λ a. refl) done
  apply-value c d return_configs_asap raw plain done =
      store-again (bool_value (trim raw)) (λ x. record c { return_configs_asap = x }) d
        (λ d. bool_value (trim (text_of_bool d.return_configs_asap)))
        (λ d x. record d { return_configs_asap = x }) (λ a h e. bool_value-text a) (λ a. refl) done
  apply-value c d scan_all_configs raw plain done =
      store-again (bool_value (trim raw)) (λ x. record c { scan_all_configs = x }) d
        (λ d. bool_value (trim (text_of_bool d.scan_all_configs)))
        (λ d x. record d { scan_all_configs = x }) (λ a h e. bool_value-text a) (λ a. refl) done
  apply-value c d fetch_timeout raw plain done =
      store-again (positive u64_max (label fetch_timeout) (trim raw))
        (λ x. record c { fetch_timeout_ms = x }) d
        (λ d. positive u64_max (label fetch_timeout) (trim (decimal d.fetch_timeout_ms)))
        (λ d x. record d { fetch_timeout_ms = x })
        (λ a h e. positive-decimal u64_max (label fetch_timeout) (trim raw) a (omega arith) h)
        (λ a. refl) done
  apply-value c d fetch_concurrency raw plain done =
      store-again (positive u64_max (label fetch_concurrency) (trim raw))
        (λ x. record c { fetch_concurrency = x }) d
        (λ d. positive u64_max (label fetch_concurrency) (trim (decimal d.fetch_concurrency)))
        (λ d x. record d { fetch_concurrency = x })
        (λ a h e. positive-decimal u64_max (label fetch_concurrency) (trim raw) a (omega arith) h)
        (λ a. refl) done
  apply-value c d max_subscription_bytes raw plain done =
      store-again (positive u64_max (label max_subscription_bytes) (trim raw))
        (λ x. record c { max_subscription_bytes = x }) d
        (λ d.
          positive u64_max (label max_subscription_bytes) (trim (decimal d.max_subscription_bytes)))
        (λ d x. record d { max_subscription_bytes = x })
        (λ a h e.
          positive-decimal u64_max (label max_subscription_bytes) (trim raw) a (omega arith) h)
        (λ a. refl) done
  apply-value c d use_cache_only raw plain done =
      store-again (bool_value (trim raw)) (λ x. record c { use_cache_only = x }) d
        (λ d. bool_value (trim (text_of_bool d.use_cache_only)))
        (λ d x. record d { use_cache_only = x }) (λ a h e. bool_value-text a) (λ a. refl) done
  apply-value c d emergency_config raw plain done =
      store-again (ok (optional (trim raw))) (λ x. record c { emergency_config = x }) d
        (λ d. ok (optional (trim (unwrap_or d.emergency_config ""))))
        (λ d x. record d { emergency_config = x })
        (λ a h e. optional-read (trim raw) a h (
          subst
            (λ (x : AppConfig Address).
              is_quoted (value parse_address print_address generated x emergency_config) ≡ false)
            e plain))
        (λ a. refl) done
  apply-value c d probe_mode raw plain done =
      store-again (probe_mode_of (trim raw)) (λ x. record c { probe = record c.probe { mode = x } })
        d (λ d. probe_mode_of (trim (text_of_mode d.probe.mode)))
        (λ d x. record d { probe = record d.probe { mode = x } }) (λ a h e. probe_mode-text a)
        (λ a. refl) done
  apply-value c d sing_box_path raw plain done =
      store-again (ok (optional_string (trim raw)))
        (λ x. record c { probe = record c.probe { sing_box_path = x; sing_box_path_auto = false } })
        d (λ d. ok (optional_string (trim d.probe.sing_box_path)))
        (λ d x. record d {
          probe = record d.probe { sing_box_path = x; sing_box_path_auto = false };
        })
        (λ a h e. optional_string-read (trim raw) a h (
          subst
            (λ (x : AppConfig Address).
              is_quoted (value parse_address print_address generated x sing_box_path) ≡ false)
            e plain))
        (λ a. refl) done
  apply-value c d connect_timeout raw plain done =
      store-again (positive u64_max (label connect_timeout) (trim raw))
        (λ x. record c { probe = record c.probe { connect_timeout_ms = x } }) d
        (λ d. positive u64_max (label connect_timeout) (trim (decimal d.probe.connect_timeout_ms)))
        (λ d x. record d { probe = record d.probe { connect_timeout_ms = x } })
        (λ a h e. positive-decimal u64_max (label connect_timeout) (trim raw) a (omega arith) h)
        (λ a. refl) done
  apply-value c d active_timeout raw plain done =
      store-again (positive u64_max (label active_timeout) (trim raw))
        (λ x. record c { probe = record c.probe { active_timeout_ms = x } }) d
        (λ d. positive u64_max (label active_timeout) (trim (decimal d.probe.active_timeout_ms)))
        (λ d x. record d { probe = record d.probe { active_timeout_ms = x } })
        (λ a h e. positive-decimal u64_max (label active_timeout) (trim raw) a (omega arith) h)
        (λ a. refl) done
  apply-value c d startup_timeout raw plain done =
      store-again (positive u64_max (label startup_timeout) (trim raw))
        (λ x. record c { probe = record c.probe { startup_timeout_ms = x } }) d
        (λ d. positive u64_max (label startup_timeout) (trim (decimal d.probe.startup_timeout_ms)))
        (λ d x. record d { probe = record d.probe { startup_timeout_ms = x } })
        (λ a h e. positive-decimal u64_max (label startup_timeout) (trim raw) a (omega arith) h)
        (λ a. refl) done
  apply-value c d probe_concurrency raw plain done =
      store-again (positive u64_max (label probe_concurrency) (trim raw))
        (λ x. record c { probe = record c.probe { concurrency = x } }) d
        (λ d. positive u64_max (label probe_concurrency) (trim (decimal d.probe.concurrency)))
        (λ d x. record d { probe = record d.probe { concurrency = x } })
        (λ a h e. positive-decimal u64_max (label probe_concurrency) (trim raw) a (omega arith) h)
        (λ a. refl) done
  apply-value c d probe_batch_size raw plain done =
      store-again (optional_positive (label probe_batch_size) (trim raw))
        (λ x. record c { probe = record c.probe { batch_size = x } }) d
        (λ d. optional_positive (label probe_batch_size) (trim (text_or_auto d.probe.batch_size)))
        (λ d x. record d { probe = record d.probe { batch_size = x } })
        (λ a h e. optional_positive-text (label probe_batch_size) (trim raw) a h) (λ a. refl) done
  apply-value c d probe_process_concurrency raw plain done =
      store-again (optional_positive (label probe_process_concurrency) (trim raw))
        (λ x. record c { probe = record c.probe { process_concurrency = x } }) d
        (λ d.
          optional_positive (label probe_process_concurrency)
            (trim (text_or_auto d.probe.process_concurrency)))
        (λ d x. record d { probe = record d.probe { process_concurrency = x } })
        (λ a h e. optional_positive-text (label probe_process_concurrency) (trim raw) a h)
        (λ a. refl) done
  apply-value c d test_url raw plain done =
      store-again (required (label test_url) (trim raw))
        (λ x. record c { probe = record c.probe { test_url = x } }) d
        (λ d. required (label test_url) (trim d.probe.test_url))
        (λ d x. record d { probe = record d.probe { test_url = x } })
        (λ a h e. required-text (label test_url) raw a h) (λ a. refl) done
  apply-value c d accepted_statuses raw plain done =
      store-again (statuses (trim raw))
        (λ x. record c { probe = record c.probe { accepted_statuses = x } }) d
        (λ d. statuses (trim (join (map decimal d.probe.accepted_statuses))))
        (λ d x. record d { probe = record d.probe { accepted_statuses = x } })
        (λ a h e. statuses-join (trim raw) a h) (λ a. refl) done
  apply-value c d download_url raw plain done =
      store-again (ok (optional (trim raw)))
        (λ x. record c { probe = record c.probe { download_url = x } }) d
        (λ d. ok (optional (trim (unwrap_or d.probe.download_url "off"))))
        (λ d x. record d { probe = record d.probe { download_url = x } })
        (λ a h e. optional-read_or_off (trim raw) a h (
          subst
            (λ (x : AppConfig Address).
              is_quoted (value parse_address print_address generated x download_url) ≡ false)
            e plain))
        (λ a. refl) done
  apply-value c d download_limit raw plain done =
      store-again (positive u64_max (label download_limit) (trim raw))
        (λ x. record c { probe = record c.probe { download_bytes_limit = x } }) d
        (λ d. positive u64_max (label download_limit) (trim (decimal d.probe.download_bytes_limit)))
        (λ d x. record d { probe = record d.probe { download_bytes_limit = x } })
        (λ a h e. positive-decimal u64_max (label download_limit) (trim raw) a (omega arith) h)
        (λ a. refl) done
  apply-value c d clean_offline_days raw plain done =
      store-again (positive u32_max (label clean_offline_days) (trim raw))
        (λ x. record c { clean_offlines_after_days = x }) d
        (λ d.
          positive u32_max (label clean_offline_days) (trim (decimal d.clean_offlines_after_days)))
        (λ d x. record d { clean_offlines_after_days = x })
        (λ a h e. positive-decimal u32_max (label clean_offline_days) (trim raw) a (omega arith) h)
        (λ a. refl) done
  apply-value c d token_required raw plain done =
      store-again (bool_value (trim raw))
        (λ x. record c { sharing = record c.sharing { require_token = x } }) d
        (λ d. bool_value (trim (text_of_bool d.sharing.require_token)))
        (λ d x. record d { sharing = record d.sharing { require_token = x } })
        (λ a h e. bool_value-text a) (λ a. refl) done
  apply-value c d token raw plain done =
      store-again (ok (normalize_sharing_token generated (trim raw)))
        (λ x. record c { sharing = record c.sharing { token = x } }) d
        (λ d. ok (normalize_sharing_token generated (trim d.sharing.token)))
        (λ d x. record d { sharing = record d.sharing { token = x } })
        (λ a h e. token-read generated (trim raw) a token_fine h) (λ a. refl) done
  apply-value c d proxy_enabled raw plain done =
      store-again (bool_value (trim raw)) (λ x. record c { proxy = record c.proxy { enabled = x } })
        d (λ d. bool_value (trim (text_of_bool d.proxy.enabled)))
        (λ d x. record d { proxy = record d.proxy { enabled = x } }) (λ a h e. bool_value-text a)
        (λ a. refl) done
  apply-value c d proxy_port raw plain done =
      store-again (positive u16_max (label proxy_port) (trim raw))
        (λ x. record c { proxy = record c.proxy { port = x } }) d
        (λ d. positive u16_max (label proxy_port) (trim (decimal d.proxy.port)))
        (λ d x. record d { proxy = record d.proxy { port = x } })
        (λ a h e. positive-decimal u16_max (label proxy_port) (trim raw) a (omega arith) h)
        (λ a. refl) done
  apply-value c d proxy_discoverable raw plain done =
      store-again (bool_value (trim raw))
        (λ x. record c { proxy = record c.proxy { discoverable = x } }) d
        (λ d. bool_value (trim (text_of_bool d.proxy.discoverable)))
        (λ d x. record d { proxy = record d.proxy { discoverable = x } })
        (λ a h e. bool_value-text a) (λ a. refl) done
  apply-value c d proxy_health_check_url raw plain done =
      store-again (required (label proxy_health_check_url) (trim raw))
        (λ x. record c { proxy = record c.proxy { health_check_url = x } }) d
        (λ d. required (label proxy_health_check_url) (trim d.proxy.health_check_url))
        (λ d x. record d { proxy = record d.proxy { health_check_url = x } })
        (λ a h e. required-text (label proxy_health_check_url) raw a h) (λ a. refl) done
  apply-value c d proxy_health_check_interval raw plain done =
      store-again (positive u64_max (label proxy_health_check_interval) (trim raw))
        (λ x. record c { proxy = record c.proxy { health_check_interval_seconds = x } }) d
        (λ d.
          positive u64_max (label proxy_health_check_interval)
            (trim (decimal d.proxy.health_check_interval_seconds)))
        (λ d x. record d { proxy = record d.proxy { health_check_interval_seconds = x } })
        (λ a h e.
          positive-decimal u64_max (label proxy_health_check_interval) (trim raw) a (omega arith) h)
        (λ a. refl) done
  apply-value c d reset_defaults raw plain h = refl
