-- ===== src/Config/Editor/Keeps.antt =====
-- What the configuration menu checks, and what it does not.
use v2ray_subscription_manag.Prelude.{
  ℕ, ◌≤◌, ◌<◌, ◌≡◌, ◌≢◌, ◌⊎◌, refl, ◌∙◌, ap, sym, subst, Bool, true, false, String, List, [],
  Option, none, some, inl, inr, arith, All, u64_max, u32_max,
}
use v2ray_subscription_manag.Prelude.Decimal.{decimal}
use v2ray_subscription_manag.Text.{trim, is_empty_text, parse_unsigned, split}
use v2ray_subscription_manag.Text.Trim.{trim_idem}
use v2ray_subscription_manag.Text.Numbers.{trim-decimal, parse_unsigned-decimal}
use v2ray_subscription_manag.Config.{AppConfig, ProbeMode, tcp, ProxyConfig}
use v2ray_subscription_manag.Config.Validate.{Checked, ok, err}
use v2ray_subscription_manag.Config.Valid.{IsPositive, IsStatus, IsValidProxy, IsValid, statuses_of}
use v2ray_subscription_manag.Config.Editor.{
  ConfigKey, bind, top_n, refresh_seconds, encoded_subscription, prioritize_stability,
  return_configs_asap, scan_all_configs, fetch_timeout, fetch_concurrency, max_subscription_bytes,
  use_cache_only, emergency_config, probe_mode, sing_box_path, connect_timeout, active_timeout,
  startup_timeout, probe_concurrency, probe_batch_size, probe_process_concurrency, test_url,
  accepted_statuses, download_url, download_limit, clean_offline_days, token_required, token,
  proxy_enabled, proxy_port, proxy_discoverable, proxy_health_check_url,
  proxy_health_check_interval, reset_defaults, label, u16_max, number, bool_value, positive,
  required, statuses, optional_string, optional, optional_positive, parse_parts, store, apply,
}
use v2ray_subscription_manag.Config.Editor.Texts.{positive_of_optional}
use v2ray_subscription_manag.Config.Editor.Lists.{split-ne-nil, parse_parts-nil, statuses-parts}

store-ok {ℓ κ} :
    {A : Type ℓ} {C : Type κ} (r : Checked A) (f : A → C) (d : C)
    → store r f ≡ ok d
    → (a : A) × (r ≡ ok a) × (f a ≡ d)
store-ok (ok a) f d h = (a, refl, cc h)
store-ok (err e) f d h = absurd (err-ne-ok h)
  where
    err-ne-ok : {x : String} → err x ≢ ok d
    err-ne-ok e = cc e

positive_lem : (max : ℕ) (name s : String) (n : ℕ) → positive max name s ≡ ok n → 0 < n
unfolding positive
positive_lem max name s n h = ground arith

optional_positive_lem :
    (name s : String) (o : Option ℕ) → optional_positive name s ≡ ok o → IsPositive o
optional_positive_lem name s none h = tt
optional_positive_lem name s (some n) h =
    positive_lem u64_max name s n (positive_of_optional name s n h)

true-ne-false : true ≢ false
true-ne-false e = cc e

required_same : (name s t : String) → required name s ≡ ok t → (s ≡ t) × (is_empty_text s ≡ false)
unfolding required
required_same name s t h = ground arith

required_lem : (name raw t : String) → required name (trim raw) ≡ ok t → trim t ≢ ""
required_lem name raw t h e =
    let (same, full) = required_same name (trim raw) t h in
    true-ne-false
      (sym (ap is_empty_text (ap trim same ∙ e)) ∙ ap is_empty_text (trim_idem raw) ∙ full)

statuses_lem : (s : String) (ns : List ℕ) → statuses s ≡ ok ns → All IsStatus ns × (ns ≢ [])
statuses_lem s ns h =
    let (parsed, good) = statuses-parts s ns h in
    (
      statuses_of ns good,
      λ e.
          split-ne-nil s (
            parse_parts-nil _ (subst (λ (xs : List ℕ). parse_parts (split 44 s) ≡ ok xs) e parsed)),
    )

test_target :
    (m : ProbeMode) (url t : String) (ns : List ℕ)
    → (m ≡ tcp) ⊎ ((trim url ≢ "") × (ns ≢ []))
    → trim t ≢ ""
    → (m ≡ tcp) ⊎ ((trim t ≢ "") × (ns ≢ []))
test_target m url t ns (inl e) h = inl e
test_target m url t ns (inr (u, s)) h = inr (h, s)

status_target :
    (m : ProbeMode) (url : String) (ns xs : List ℕ)
    → (m ≡ tcp) ⊎ ((trim url ≢ "") × (ns ≢ []))
    → xs ≢ []
    → (m ≡ tcp) ⊎ ((trim url ≢ "") × (xs ≢ []))
status_target m url ns xs (inl e) h = inl e
status_target m url ns xs (inr (u, s)) h = inr (u, h)

-- The proxy with another setting that validity does not ask for.
proxy_as :
    {p q : ProxyConfig} {bind : ℕ}
    → (p.enabled ≡ false) ⊎ IsValidProxy p bind
    → q.enabled ≡ p.enabled
    → q.port ≡ p.port
    → (0 < p.health_check_interval_seconds → 0 < q.health_check_interval_seconds)
    → (q.enabled ≡ false) ⊎ IsValidProxy q bind
proxy_as (inl off) e f g = inl (e ∙ off)
proxy_as {p} {q} {bind} (inr w) e f g =
    inr (record { port = rw f w.port; apart = λ h. w.apart (sym f ∙ h); interval = g w.interval })

-- The settings whose validity does not depend on others.
abbrev pub is_checked : ConfigKey → Bool
is_checked bind = false
is_checked top_n = true
is_checked refresh_seconds = true
is_checked encoded_subscription = true
is_checked prioritize_stability = true
is_checked return_configs_asap = true
is_checked scan_all_configs = true
is_checked fetch_timeout = true
is_checked fetch_concurrency = true
is_checked max_subscription_bytes = true
is_checked use_cache_only = true
is_checked emergency_config = true
is_checked probe_mode = false
is_checked sing_box_path = true
is_checked connect_timeout = true
is_checked active_timeout = true
is_checked startup_timeout = true
is_checked probe_concurrency = true
is_checked probe_batch_size = true
is_checked probe_process_concurrency = true
is_checked test_url = true
is_checked accepted_statuses = true
is_checked download_url = true
is_checked download_limit = true
is_checked clean_offline_days = true
is_checked token_required = false
is_checked token = false
is_checked proxy_enabled = false
is_checked proxy_port = false
is_checked proxy_discoverable = true
is_checked proxy_health_check_url = true
is_checked proxy_health_check_interval = true
is_checked reset_defaults = true

module _ {Address : Type 0} (port_of : Address → ℕ) (parse_address : String → Option Address)
    (print_address : Address → String) (generated : String) where
  -- The menu refuses every text that would make a setting invalid on its own: for all settings but the
  -- address, the mode, the token, whether it is required, and whether and where the proxy listens, a
  -- valid configuration stays valid when a text is accepted.
  pub apply-IsValid :
      (c d : AppConfig Address) (key : ConfigKey) (raw : String)
      → is_checked key ≡ true
      → IsValid port_of c
      → apply parse_address print_address generated c key raw ≡ ok d
      → IsValid port_of d
  unfolding apply
  apply-IsValid c d bind raw checked v h = absurd (cc checked)
  apply-IsValid c d top_n raw checked v h =
      let (a, e, same) =
        store-ok (positive u64_max (label top_n) (trim raw)) (λ x. record c { top_n = x }) d h in
      subst (λ (x : AppConfig Address). IsValid port_of x) same
        (record {
          top_n = (positive_lem u64_max (label top_n) (trim raw) a e);
          fetch_concurrency = v.fetch_concurrency;
          max_bytes = v.max_bytes;
          probe = v.probe;
          clean_days = v.clean_days;
          subscriptions = v.subscriptions;
          token = v.token;
          proxy = v.proxy;
        })
  apply-IsValid c d refresh_seconds raw checked v h =
      let (a, e, same) =
        store-ok (number u64_max (trim raw)) (λ x. record c { refresh_seconds = x }) d h in
      subst (λ (x : AppConfig Address). IsValid port_of x) same
        (record {
          top_n = v.top_n;
          fetch_concurrency = v.fetch_concurrency;
          max_bytes = v.max_bytes;
          probe = v.probe;
          clean_days = v.clean_days;
          subscriptions = v.subscriptions;
          token = v.token;
          proxy = v.proxy;
        })
  apply-IsValid c d encoded_subscription raw checked v h =
      let (a, e, same) =
        store-ok (bool_value (trim raw)) (λ x. record c { encoded_subscription = x }) d h in
      subst (λ (x : AppConfig Address). IsValid port_of x) same
        (record {
          top_n = v.top_n;
          fetch_concurrency = v.fetch_concurrency;
          max_bytes = v.max_bytes;
          probe = v.probe;
          clean_days = v.clean_days;
          subscriptions = v.subscriptions;
          token = v.token;
          proxy = v.proxy;
        })
  apply-IsValid c d prioritize_stability raw checked v h =
      let (a, e, same) =
        store-ok (bool_value (trim raw)) (λ x. record c { prioritize_stability = x }) d h in
      subst (λ (x : AppConfig Address). IsValid port_of x) same
        (record {
          top_n = v.top_n;
          fetch_concurrency = v.fetch_concurrency;
          max_bytes = v.max_bytes;
          probe = v.probe;
          clean_days = v.clean_days;
          subscriptions = v.subscriptions;
          token = v.token;
          proxy = v.proxy;
        })
  apply-IsValid c d return_configs_asap raw checked v h =
      let (a, e, same) =
        store-ok (bool_value (trim raw)) (λ x. record c { return_configs_asap = x }) d h in
      subst (λ (x : AppConfig Address). IsValid port_of x) same
        (record {
          top_n = v.top_n;
          fetch_concurrency = v.fetch_concurrency;
          max_bytes = v.max_bytes;
          probe = v.probe;
          clean_days = v.clean_days;
          subscriptions = v.subscriptions;
          token = v.token;
          proxy = v.proxy;
        })
  apply-IsValid c d scan_all_configs raw checked v h =
      let (a, e, same) =
        store-ok (bool_value (trim raw)) (λ x. record c { scan_all_configs = x }) d h in
      subst (λ (x : AppConfig Address). IsValid port_of x) same
        (record {
          top_n = v.top_n;
          fetch_concurrency = v.fetch_concurrency;
          max_bytes = v.max_bytes;
          probe = v.probe;
          clean_days = v.clean_days;
          subscriptions = v.subscriptions;
          token = v.token;
          proxy = v.proxy;
        })
  apply-IsValid c d fetch_timeout raw checked v h =
      let (a, e, same) =
        store-ok (positive u64_max (label fetch_timeout) (trim raw))
          (λ x. record c { fetch_timeout_ms = x }) d h in
      subst (λ (x : AppConfig Address). IsValid port_of x) same
        (record {
          top_n = v.top_n;
          fetch_concurrency = v.fetch_concurrency;
          max_bytes = v.max_bytes;
          probe = v.probe;
          clean_days = v.clean_days;
          subscriptions = v.subscriptions;
          token = v.token;
          proxy = v.proxy;
        })
  apply-IsValid c d fetch_concurrency raw checked v h =
      let (a, e, same) =
        store-ok (positive u64_max (label fetch_concurrency) (trim raw))
          (λ x. record c { fetch_concurrency = x }) d h in
      subst (λ (x : AppConfig Address). IsValid port_of x) same
        (record {
          top_n = v.top_n;
          fetch_concurrency = (positive_lem u64_max (label fetch_concurrency) (trim raw) a e);
          max_bytes = v.max_bytes;
          probe = v.probe;
          clean_days = v.clean_days;
          subscriptions = v.subscriptions;
          token = v.token;
          proxy = v.proxy;
        })
  apply-IsValid c d max_subscription_bytes raw checked v h =
      let (a, e, same) =
        store-ok (positive u64_max (label max_subscription_bytes) (trim raw))
          (λ x. record c { max_subscription_bytes = x }) d h in
      subst (λ (x : AppConfig Address). IsValid port_of x) same
        (record {
          top_n = v.top_n;
          fetch_concurrency = v.fetch_concurrency;
          max_bytes = (positive_lem u64_max (label max_subscription_bytes) (trim raw) a e);
          probe = v.probe;
          clean_days = v.clean_days;
          subscriptions = v.subscriptions;
          token = v.token;
          proxy = v.proxy;
        })
  apply-IsValid c d use_cache_only raw checked v h =
      let (a, e, same) =
        store-ok (bool_value (trim raw)) (λ x. record c { use_cache_only = x }) d h in
      subst (λ (x : AppConfig Address). IsValid port_of x) same
        (record {
          top_n = v.top_n;
          fetch_concurrency = v.fetch_concurrency;
          max_bytes = v.max_bytes;
          probe = v.probe;
          clean_days = v.clean_days;
          subscriptions = v.subscriptions;
          token = v.token;
          proxy = v.proxy;
        })
  apply-IsValid c d emergency_config raw checked v h =
      let (a, e, same) =
        store-ok (ok (optional (trim raw))) (λ x. record c { emergency_config = x }) d h in
      subst (λ (x : AppConfig Address). IsValid port_of x) same
        (record {
          top_n = v.top_n;
          fetch_concurrency = v.fetch_concurrency;
          max_bytes = v.max_bytes;
          probe = v.probe;
          clean_days = v.clean_days;
          subscriptions = v.subscriptions;
          token = v.token;
          proxy = v.proxy;
        })
  apply-IsValid c d probe_mode raw checked v h = absurd (cc checked)
  apply-IsValid c d sing_box_path raw checked v h =
      let (a, e, same) =
        store-ok (ok (optional_string (trim raw)))
          (λ x. record c {
            probe = record c.probe { sing_box_path = x; sing_box_path_auto = false };
          })
          d h in
      subst (λ (x : AppConfig Address). IsValid port_of x) same
        (record {
          top_n = v.top_n;
          fetch_concurrency = v.fetch_concurrency;
          max_bytes = v.max_bytes;
          probe = record {
            concurrency = v.probe.concurrency;
            batch_size = v.probe.batch_size;
            process_concurrency = v.probe.process_concurrency;
            connect_timeout = v.probe.connect_timeout;
            active_timeout = v.probe.active_timeout;
            startup_timeout = v.probe.startup_timeout;
            target = v.probe.target;
            statuses = v.probe.statuses;
            download_limit = v.probe.download_limit;
          };
          clean_days = v.clean_days;
          subscriptions = v.subscriptions;
          token = v.token;
          proxy = v.proxy;
        })
  apply-IsValid c d connect_timeout raw checked v h =
      let (a, e, same) =
        store-ok (positive u64_max (label connect_timeout) (trim raw))
          (λ x. record c { probe = record c.probe { connect_timeout_ms = x } }) d h in
      subst (λ (x : AppConfig Address). IsValid port_of x) same
        (record {
          top_n = v.top_n;
          fetch_concurrency = v.fetch_concurrency;
          max_bytes = v.max_bytes;
          probe = record {
            concurrency = v.probe.concurrency;
            batch_size = v.probe.batch_size;
            process_concurrency = v.probe.process_concurrency;
            connect_timeout = (positive_lem u64_max (label connect_timeout) (trim raw) a e);
            active_timeout = v.probe.active_timeout;
            startup_timeout = v.probe.startup_timeout;
            target = v.probe.target;
            statuses = v.probe.statuses;
            download_limit = v.probe.download_limit;
          };
          clean_days = v.clean_days;
          subscriptions = v.subscriptions;
          token = v.token;
          proxy = v.proxy;
        })
  apply-IsValid c d active_timeout raw checked v h =
      let (a, e, same) =
        store-ok (positive u64_max (label active_timeout) (trim raw))
          (λ x. record c { probe = record c.probe { active_timeout_ms = x } }) d h in
      subst (λ (x : AppConfig Address). IsValid port_of x) same
        (record {
          top_n = v.top_n;
          fetch_concurrency = v.fetch_concurrency;
          max_bytes = v.max_bytes;
          probe = record {
            concurrency = v.probe.concurrency;
            batch_size = v.probe.batch_size;
            process_concurrency = v.probe.process_concurrency;
            connect_timeout = v.probe.connect_timeout;
            active_timeout = (positive_lem u64_max (label active_timeout) (trim raw) a e);
            startup_timeout = v.probe.startup_timeout;
            target = v.probe.target;
            statuses = v.probe.statuses;
            download_limit = v.probe.download_limit;
          };
          clean_days = v.clean_days;
          subscriptions = v.subscriptions;
          token = v.token;
          proxy = v.proxy;
        })
  apply-IsValid c d startup_timeout raw checked v h =
      let (a, e, same) =
        store-ok (positive u64_max (label startup_timeout) (trim raw))
          (λ x. record c { probe = record c.probe { startup_timeout_ms = x } }) d h in
      subst (λ (x : AppConfig Address). IsValid port_of x) same
        (record {
          top_n = v.top_n;
          fetch_concurrency = v.fetch_concurrency;
          max_bytes = v.max_bytes;
          probe = record {
            concurrency = v.probe.concurrency;
            batch_size = v.probe.batch_size;
            process_concurrency = v.probe.process_concurrency;
            connect_timeout = v.probe.connect_timeout;
            active_timeout = v.probe.active_timeout;
            startup_timeout = (positive_lem u64_max (label startup_timeout) (trim raw) a e);
            target = v.probe.target;
            statuses = v.probe.statuses;
            download_limit = v.probe.download_limit;
          };
          clean_days = v.clean_days;
          subscriptions = v.subscriptions;
          token = v.token;
          proxy = v.proxy;
        })
  apply-IsValid c d probe_concurrency raw checked v h =
      let (a, e, same) =
        store-ok (positive u64_max (label probe_concurrency) (trim raw))
          (λ x. record c { probe = record c.probe { concurrency = x } }) d h in
      subst (λ (x : AppConfig Address). IsValid port_of x) same
        (record {
          top_n = v.top_n;
          fetch_concurrency = v.fetch_concurrency;
          max_bytes = v.max_bytes;
          probe = record {
            concurrency = (positive_lem u64_max (label probe_concurrency) (trim raw) a e);
            batch_size = v.probe.batch_size;
            process_concurrency = v.probe.process_concurrency;
            connect_timeout = v.probe.connect_timeout;
            active_timeout = v.probe.active_timeout;
            startup_timeout = v.probe.startup_timeout;
            target = v.probe.target;
            statuses = v.probe.statuses;
            download_limit = v.probe.download_limit;
          };
          clean_days = v.clean_days;
          subscriptions = v.subscriptions;
          token = v.token;
          proxy = v.proxy;
        })
  apply-IsValid c d probe_batch_size raw checked v h =
      let (a, e, same) =
        store-ok (optional_positive (label probe_batch_size) (trim raw))
          (λ x. record c { probe = record c.probe { batch_size = x } }) d h in
      subst (λ (x : AppConfig Address). IsValid port_of x) same
        (record {
          top_n = v.top_n;
          fetch_concurrency = v.fetch_concurrency;
          max_bytes = v.max_bytes;
          probe = record {
            concurrency = v.probe.concurrency;
            batch_size = (optional_positive_lem (label probe_batch_size) (trim raw) a e);
            process_concurrency = v.probe.process_concurrency;
            connect_timeout = v.probe.connect_timeout;
            active_timeout = v.probe.active_timeout;
            startup_timeout = v.probe.startup_timeout;
            target = v.probe.target;
            statuses = v.probe.statuses;
            download_limit = v.probe.download_limit;
          };
          clean_days = v.clean_days;
          subscriptions = v.subscriptions;
          token = v.token;
          proxy = v.proxy;
        })
  apply-IsValid c d probe_process_concurrency raw checked v h =
      let (a, e, same) =
        store-ok (optional_positive (label probe_process_concurrency) (trim raw))
          (λ x. record c { probe = record c.probe { process_concurrency = x } }) d h in
      subst (λ (x : AppConfig Address). IsValid port_of x) same
        (record {
          top_n = v.top_n;
          fetch_concurrency = v.fetch_concurrency;
          max_bytes = v.max_bytes;
          probe = record {
            concurrency = v.probe.concurrency;
            batch_size = v.probe.batch_size;
            process_concurrency =
                (optional_positive_lem (label probe_process_concurrency) (trim raw) a e);
            connect_timeout = v.probe.connect_timeout;
            active_timeout = v.probe.active_timeout;
            startup_timeout = v.probe.startup_timeout;
            target = v.probe.target;
            statuses = v.probe.statuses;
            download_limit = v.probe.download_limit;
          };
          clean_days = v.clean_days;
          subscriptions = v.subscriptions;
          token = v.token;
          proxy = v.proxy;
        })
  apply-IsValid c d test_url raw checked v h =
      let (a, e, same) =
        store-ok (required (label test_url) (trim raw))
          (λ x. record c { probe = record c.probe { test_url = x } }) d h in
      subst (λ (x : AppConfig Address). IsValid port_of x) same
        (record {
          top_n = v.top_n;
          fetch_concurrency = v.fetch_concurrency;
          max_bytes = v.max_bytes;
          probe = record {
            concurrency = v.probe.concurrency;
            batch_size = v.probe.batch_size;
            process_concurrency = v.probe.process_concurrency;
            connect_timeout = v.probe.connect_timeout;
            active_timeout = v.probe.active_timeout;
            startup_timeout = v.probe.startup_timeout;
            target =
                test_target c.probe.mode c.probe.test_url a c.probe.accepted_statuses v.probe.target
                  (required_lem (label test_url) raw a e);
            statuses = v.probe.statuses;
            download_limit = v.probe.download_limit;
          };
          clean_days = v.clean_days;
          subscriptions = v.subscriptions;
          token = v.token;
          proxy = v.proxy;
        })
  apply-IsValid c d accepted_statuses raw checked v h =
      let (a, e, same) =
        store-ok (statuses (trim raw))
          (λ x. record c { probe = record c.probe { accepted_statuses = x } }) d h in
      subst (λ (x : AppConfig Address). IsValid port_of x) same
        (record {
          top_n = v.top_n;
          fetch_concurrency = v.fetch_concurrency;
          max_bytes = v.max_bytes;
          probe = record {
            concurrency = v.probe.concurrency;
            batch_size = v.probe.batch_size;
            process_concurrency = v.probe.process_concurrency;
            connect_timeout = v.probe.connect_timeout;
            active_timeout = v.probe.active_timeout;
            startup_timeout = v.probe.startup_timeout;
            target =
                status_target c.probe.mode c.probe.test_url c.probe.accepted_statuses a
                  v.probe.target (statuses_lem (trim raw) a e).1;
            statuses = (statuses_lem (trim raw) a e).0;
            download_limit = v.probe.download_limit;
          };
          clean_days = v.clean_days;
          subscriptions = v.subscriptions;
          token = v.token;
          proxy = v.proxy;
        })
  apply-IsValid c d download_url raw checked v h =
      let (a, e, same) =
        store-ok (ok (optional (trim raw)))
          (λ x. record c { probe = record c.probe { download_url = x } }) d h in
      subst (λ (x : AppConfig Address). IsValid port_of x) same
        (record {
          top_n = v.top_n;
          fetch_concurrency = v.fetch_concurrency;
          max_bytes = v.max_bytes;
          probe = record {
            concurrency = v.probe.concurrency;
            batch_size = v.probe.batch_size;
            process_concurrency = v.probe.process_concurrency;
            connect_timeout = v.probe.connect_timeout;
            active_timeout = v.probe.active_timeout;
            startup_timeout = v.probe.startup_timeout;
            target = v.probe.target;
            statuses = v.probe.statuses;
            download_limit = v.probe.download_limit;
          };
          clean_days = v.clean_days;
          subscriptions = v.subscriptions;
          token = v.token;
          proxy = v.proxy;
        })
  apply-IsValid c d download_limit raw checked v h =
      let (a, e, same) =
        store-ok (positive u64_max (label download_limit) (trim raw))
          (λ x. record c { probe = record c.probe { download_bytes_limit = x } }) d h in
      subst (λ (x : AppConfig Address). IsValid port_of x) same
        (record {
          top_n = v.top_n;
          fetch_concurrency = v.fetch_concurrency;
          max_bytes = v.max_bytes;
          probe = record {
            concurrency = v.probe.concurrency;
            batch_size = v.probe.batch_size;
            process_concurrency = v.probe.process_concurrency;
            connect_timeout = v.probe.connect_timeout;
            active_timeout = v.probe.active_timeout;
            startup_timeout = v.probe.startup_timeout;
            target = v.probe.target;
            statuses = v.probe.statuses;
            download_limit = (positive_lem u64_max (label download_limit) (trim raw) a e);
          };
          clean_days = v.clean_days;
          subscriptions = v.subscriptions;
          token = v.token;
          proxy = v.proxy;
        })
  apply-IsValid c d clean_offline_days raw checked v h =
      let (a, e, same) =
        store-ok (positive u32_max (label clean_offline_days) (trim raw))
          (λ x. record c { clean_offlines_after_days = x }) d h in
      subst (λ (x : AppConfig Address). IsValid port_of x) same
        (record {
          top_n = v.top_n;
          fetch_concurrency = v.fetch_concurrency;
          max_bytes = v.max_bytes;
          probe = v.probe;
          clean_days = (positive_lem u32_max (label clean_offline_days) (trim raw) a e);
          subscriptions = v.subscriptions;
          token = v.token;
          proxy = v.proxy;
        })
  apply-IsValid c d token_required raw checked v h = absurd (cc checked)
  apply-IsValid c d token raw checked v h = absurd (cc checked)
  apply-IsValid c d proxy_enabled raw checked v h = absurd (cc checked)
  apply-IsValid c d proxy_port raw checked v h = absurd (cc checked)
  apply-IsValid c d proxy_discoverable raw checked v h =
      let (a, e, same) =
        store-ok (bool_value (trim raw))
          (λ x. record c { proxy = record c.proxy { discoverable = x } }) d h in
      subst (λ (x : AppConfig Address). IsValid port_of x) same
        (record {
          top_n = v.top_n;
          fetch_concurrency = v.fetch_concurrency;
          max_bytes = v.max_bytes;
          probe = v.probe;
          clean_days = v.clean_days;
          subscriptions = v.subscriptions;
          token = v.token;
          proxy = proxy_as v.proxy refl refl (λ h. h);
        })
  apply-IsValid c d proxy_health_check_url raw checked v h =
      let (a, e, same) =
        store-ok (required (label proxy_health_check_url) (trim raw))
          (λ x. record c { proxy = record c.proxy { health_check_url = x } }) d h in
      subst (λ (x : AppConfig Address). IsValid port_of x) same
        (record {
          top_n = v.top_n;
          fetch_concurrency = v.fetch_concurrency;
          max_bytes = v.max_bytes;
          probe = v.probe;
          clean_days = v.clean_days;
          subscriptions = v.subscriptions;
          token = v.token;
          proxy = proxy_as v.proxy refl refl (λ h. h);
        })
  apply-IsValid c d proxy_health_check_interval raw checked v h =
      let (a, e, same) =
        store-ok (positive u64_max (label proxy_health_check_interval) (trim raw))
          (λ x. record c { proxy = record c.proxy { health_check_interval_seconds = x } }) d h in
      subst (λ (x : AppConfig Address). IsValid port_of x) same
        (record {
          top_n = v.top_n;
          fetch_concurrency = v.fetch_concurrency;
          max_bytes = v.max_bytes;
          probe = v.probe;
          clean_days = v.clean_days;
          subscriptions = v.subscriptions;
          token = v.token;
          proxy =
              proxy_as v.proxy refl refl
                (λ h. positive_lem u64_max (label proxy_health_check_interval) (trim raw) a e);
        })
  apply-IsValid c d reset_defaults raw checked v h =
      subst (λ (x : AppConfig Address). IsValid port_of x) (inner h) v
    where
      inner : ok c ≡ ok d → c ≡ d
      inner e = cc e

  positive-port :
      (name : String) (n : ℕ)
      → 0 < n
      → n ≤ u16_max
      → positive u16_max name (trim (decimal n)) ≡ ok n
  unfolding positive
  positive-port name n low high =
      let read =
        ap (parse_unsigned u16_max) (trim-decimal n)
        ∙ parse_unsigned-decimal u16_max n high (omega arith) in
      ground (arith, read)

  -- The menu lets an invalid configuration through: with the proxy enabled, the port of the program's
  -- own address is accepted as the port of the proxy, and the configuration that results is not valid,
  -- so that it is refused when it is loaded again.
  pub apply-ne-IsValid :
      (c : AppConfig Address)
      → c.proxy.enabled ≡ true
      → 0 < port_of c.bind
      → port_of c.bind ≤ u16_max
      → (d : AppConfig Address) × (apply parse_address print_address generated c proxy_port
            (decimal (port_of c.bind))
          ≡ ok d)
        × ¬ IsValid port_of d
  unfolding apply
  apply-ne-IsValid c on low high =
      let d : AppConfig Address = record c { proxy = record c.proxy { port = port_of c.bind } } in
      (
        d,
        rw (positive-port (label proxy_port) (port_of c.bind) low high) refl,
        λ v. elim v.proxy [ inl off ↦ true-ne-false (sym on ∙ off) | inr w ↦ w.apart refl ],
      )
