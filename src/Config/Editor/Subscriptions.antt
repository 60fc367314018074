-- ===== src/Config/Editor/Subscriptions.antt =====
-- The configuration menu leaves the subscriptions alone.
use v2ray_subscription_manag.Prelude.{◌≡◌, refl, String, Option}
use v2ray_subscription_manag.Config.{AppConfig}
use v2ray_subscription_manag.Config.Validate.{Checked, ok, err}
use v2ray_subscription_manag.Config.Editor.{
  ConfigKey, bind, top_n, refresh_seconds, encoded_subscription, prioritize_stability,
  return_configs_asap, scan_all_configs, fetch_timeout, fetch_concurrency, max_subscription_bytes,
  use_cache_only, emergency_config, probe_mode, sing_box_path, connect_timeout, active_timeout,
  startup_timeout, probe_concurrency, probe_batch_size, probe_process_concurrency, test_url,
  accepted_statuses, download_url, download_limit, clean_offline_days, token_required, token,
  proxy_enabled, proxy_port, proxy_discoverable, proxy_health_check_url,
  proxy_health_check_interval, reset_defaults, store, apply,
}

module _ {Address : Type 0} (parse_address : String → Option Address)
    (print_address : Address → String) (generated : String) (c : AppConfig Address) where
  ok-subscriptions :
      (e d : AppConfig Address)
      → e.subscriptions ≡ c.subscriptions
      → ok e ≡ ok d
      → d.subscriptions ≡ c.subscriptions
  ok-subscriptions e d k h = cc (k, h)

  store-subscriptions {ℓ} :
      {A : Type ℓ} (r : Checked A) (f : A → AppConfig Address) (d : AppConfig Address)
      → ((a : A) → (f a).subscriptions ≡ c.subscriptions)
      → store r f ≡ ok d
      → d.subscriptions ≡ c.subscriptions
  store-subscriptions (ok a) f d k h = cc (h, k a)
  store-subscriptions (err e) f d k h = absurd (cc h)

  pub apply-subscriptions :
      (key : ConfigKey) (raw : String) (d : AppConfig Address)
      → apply parse_address print_address generated c key raw ≡ ok d
      → d.subscriptions ≡ c.subscriptions
  unfolding apply
  apply-subscriptions bind raw d h = store-subscriptions _ _ d (λ a. refl) h
  apply-subscriptions top_n raw d h = store-subscriptions _ _ d (λ a. refl) h
  apply-subscriptions refresh_seconds raw d h = store-subscriptions _ _ d (λ a. refl) h
  apply-subscriptions encoded_subscription raw d h = store-subscriptions _ _ d (λ a. refl) h
  apply-subscriptions prioritize_stability raw d h = store-subscriptions _ _ d (λ a. refl) h
  apply-subscriptions return_configs_asap raw d h = store-subscriptions _ _ d (λ a. refl) h
  apply-subscriptions scan_all_configs raw d h = store-subscriptions _ _ d (λ a. refl) h
  apply-subscriptions fetch_timeout raw d h = store-subscriptions _ _ d (λ a. refl) h
  apply-subscriptions fetch_concurrency raw d h = store-subscriptions _ _ d (λ a. refl) h
  apply-subscriptions max_subscription_bytes raw d h = store-subscriptions _ _ d (λ a. refl) h
  apply-subscriptions use_cache_only raw d h = store-subscriptions _ _ d (λ a. refl) h
  apply-subscriptions emergency_config raw d h = ok-subscriptions _ d refl h
  apply-subscriptions probe_mode raw d h = store-subscriptions _ _ d (λ a. refl) h
  apply-subscriptions sing_box_path raw d h = ok-subscriptions _ d refl h
  apply-subscriptions connect_timeout raw d h = store-subscriptions _ _ d (λ a. refl) h
  apply-subscriptions active_timeout raw d h = store-subscriptions _ _ d (λ a. refl) h
  apply-subscriptions startup_timeout raw d h = store-subscriptions _ _ d (λ a. refl) h
  apply-subscriptions probe_concurrency raw d h = store-subscriptions _ _ d (λ a. refl) h
  apply-subscriptions probe_batch_size raw d h = store-subscriptions _ _ d (λ a. refl) h
  apply-subscriptions probe_process_concurrency raw d h = store-subscriptions _ _ d (λ a. refl) h
  apply-subscriptions test_url raw d h = store-subscriptions _ _ d (λ a. refl) h
  apply-subscriptions accepted_statuses raw d h = store-subscriptions _ _ d (λ a. refl) h
  apply-subscriptions download_url raw d h = ok-subscriptions _ d refl h
  apply-subscriptions download_limit raw d h = store-subscriptions _ _ d (λ a. refl) h
  apply-subscriptions clean_offline_days raw d h = store-subscriptions _ _ d (λ a. refl) h
  apply-subscriptions token_required raw d h = store-subscriptions _ _ d (λ a. refl) h
  apply-subscriptions token raw d h = ok-subscriptions _ d refl h
  apply-subscriptions proxy_enabled raw d h = store-subscriptions _ _ d (λ a. refl) h
  apply-subscriptions proxy_port raw d h = store-subscriptions _ _ d (λ a. refl) h
  apply-subscriptions proxy_discoverable raw d h = store-subscriptions _ _ d (λ a. refl) h
  apply-subscriptions proxy_health_check_url raw d h = store-subscriptions _ _ d (λ a. refl) h
  apply-subscriptions proxy_health_check_interval raw d h = store-subscriptions _ _ d (λ a. refl) h
  apply-subscriptions reset_defaults raw d h = cc h
