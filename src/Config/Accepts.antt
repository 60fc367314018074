-- ===== src/Config/Accepts.antt =====
-- validate accepts exactly the valid configurations.
use v2ray_subscription_manag.Prelude.{
  ℕ, ◌≡◌, ◌≢◌, ◌⊎◌, inl, inr, refl, ◌∙◌, sym, Bool, true, false, ◌&&◌, String, List, [], ◌∷◌, ◌++◌,
  none, some, arith, All, Bool-cases, Option-cases,
}
use v2ray_subscription_manag.Text.{is_empty_text}
use v2ray_subscription_manag.Config.{AppConfig, ProbeConfig, ProxyConfig, SubscriptionSource}
use v2ray_subscription_manag.Config.Validate.{
  subscription_checks, first_error, ok, err, normalize, probe_checks, proxy_checks, sharing_checks,
  later_checks, checks, validate,
}
use v2ray_subscription_manag.Config.Valid.{
  IsNamed, IsValidProbe, IsValidProxy, IsValid, Passes, Passes-none, none-Passes, positive_of,
  of_positive, some_zero_of, of_some_zero, text_of, of_text, statuses_of, of_statuses, target_of,
  of_target,
}

Passes-append : (xs ys : List (Bool × String)) → Passes (xs ++ ys) → Passes xs × Passes ys
Passes-append [] ys h = (tt, h)
Passes-append (x ∷ xs) ys (p, h) = let (a, b) = Passes-append xs ys h in ((p, a), b)

append-Passes : (xs ys : List (Bool × String)) → Passes xs → Passes ys → Passes (xs ++ ys)
append-Passes [] ys h k = k
append-Passes (x ∷ xs) ys (p, h) k = (p, append-Passes xs ys h k)

none-ne-some {ℓ} : {A : Type ℓ} {a : A} → none ≢ some a
none-ne-some e = cc e

module _ {Address : Type 0} (port_of : Address → ℕ) (generated : String) where
  probe-Passes : (p : ProbeConfig) → IsValidProbe p → Passes (probe_checks port_of generated p)
  probe-Passes p v =
      let (url, statuses) = of_target p.mode p.test_url p.accepted_statuses v.target in
      (
        of_positive _ v.concurrency,
        (
          of_some_zero _ v.batch_size,
          (
            of_some_zero _ v.process_concurrency,
            (
              of_positive _ v.connect_timeout,
              (
                of_positive _ v.active_timeout,
                (
                  of_positive _ v.startup_timeout,
                  (
                    url,
                    (statuses, (of_statuses _ v.statuses, (of_positive _ v.download_limit, tt))),
                  ),
                ),
              ),
            ),
          ),
        ),
      )

  Passes-probe : (p : ProbeConfig) → Passes (probe_checks port_of generated p) → IsValidProbe p
  Passes-probe p (a, (b, (c, (d, (e, (f, (g, (h, (i, (j, _)))))))))) = record {
    concurrency = positive_of _ a;
    batch_size = some_zero_of _ b;
    process_concurrency = some_zero_of _ c;
    connect_timeout = positive_of _ d;
    active_timeout = positive_of _ e;
    startup_timeout = positive_of _ f;
    target = target_of p.mode p.test_url p.accepted_statuses g h;
    statuses = statuses_of _ i;
    download_limit = positive_of _ j;
  }

  Passes-subscriptions :
      (ss : List SubscriptionSource) → Passes (subscription_checks ss) → All IsNamed ss
  Passes-subscriptions [] h = tt
  Passes-subscriptions (s ∷ ss) (name, (url, h)) =
      ((text_of _ name, text_of _ url), Passes-subscriptions ss h)

  subscriptions-Passes :
      (ss : List SubscriptionSource) → All IsNamed ss → Passes (subscription_checks ss)
  subscriptions-Passes [] h = tt
  subscriptions-Passes (s ∷ ss) ((name, url), h) =
      (of_text _ name, (of_text _ url, subscriptions-Passes ss h))

  Passes-proxy :
      (p : ProxyConfig) (bind : ℕ)
      → Passes (proxy_checks port_of generated p bind)
      → (p.enabled ≡ false) ⊎ IsValidProxy p bind
  Passes-proxy p bind (a, (b, (c, _))) = elim (Bool-cases p.enabled) [
    | inl e ↦ inr (record {
      port = ground (arith, e, a);
      apart = ground (arith, e, b);
      interval = ground (arith, e, c);
    })
    | inr e ↦ inl e
  ]

  proxy-Passes :
      (p : ProxyConfig) (bind : ℕ)
      → (p.enabled ≡ false) ⊎ IsValidProxy p bind
      → Passes (proxy_checks port_of generated p bind)
  proxy-Passes p bind h = ground arith

  Passes-token :
      (required : Bool) (token : String)
      → (required && is_empty_text token) ≡ false
      → (required ≡ false) ⊎ (token ≢ "")
  Passes-token true token h = inr (text_of token h)
  Passes-token false token h = inl refl

  token-Passes :
      (required : Bool) (token : String)
      → (required ≡ false) ⊎ (token ≢ "")
      → (required && is_empty_text token) ≡ false
  token-Passes false token h = refl
  token-Passes true token (inl e) = absurd (cc e)
  token-Passes true token (inr h) = of_text token h

  checks-IsValid : (c : AppConfig Address) → Passes (checks port_of generated c) → IsValid port_of c
  checks-IsValid c (top, (fetch, (bytes, rest))) =
      let (probe, (days, rest')) =
        Passes-append (probe_checks port_of generated c.probe) (later_checks port_of generated c)
          rest in
      let (subscriptions, (token, proxy)) =
        Passes-append (subscription_checks c.subscriptions) (sharing_checks port_of generated c)
          rest' in
      record {
        top_n = positive_of _ top;
        fetch_concurrency = positive_of _ fetch;
        max_bytes = positive_of _ bytes;
        probe = Passes-probe c.probe probe;
        clean_days = positive_of _ days;
        subscriptions = Passes-subscriptions c.subscriptions subscriptions;
        token = Passes-token c.sharing.require_token c.sharing.token token;
        proxy = Passes-proxy c.proxy (port_of c.bind) proxy;
      }

  IsValid-checks : (c : AppConfig Address) → IsValid port_of c → Passes (checks port_of generated c)
  IsValid-checks c v =
      let token = token-Passes c.sharing.require_token c.sharing.token v.token in
      let proxy = proxy-Passes c.proxy (port_of c.bind) v.proxy in
      let rest =
        append-Passes (subscription_checks c.subscriptions) (sharing_checks port_of generated c)
          (subscriptions-Passes c.subscriptions v.subscriptions) (token, proxy) in
      (
        of_positive _ v.top_n,
        (
          of_positive _ v.fetch_concurrency,
          (
            of_positive _ v.max_bytes,
            append-Passes (probe_checks port_of generated c.probe)
                (later_checks port_of generated c) (probe-Passes c.probe v.probe)
                (of_positive _ v.clean_days, rest),
          ),
        ),
      )

  -- validate normalises the texts of a configuration, and then decides whether it is valid: it returns
  -- the normalised configuration if that is valid, and an error if it is not.
  pub validate_decides :
      (c : AppConfig Address)
      → ((validate port_of generated c ≡ ok (normalize port_of generated c))
          × IsValid port_of (normalize port_of generated c))
        ⊎ ((error : String) × (validate port_of generated c ≡ err error)
            × ¬ IsValid port_of (normalize port_of generated c))
  unfolding validate
  validate_decides c =
      let normal = normalize port_of generated c in
      elim (Option-cases (first_error (checks port_of generated normal))) [
        | inl e ↦ inl (
          rw (validate, e) refl,
          checks-IsValid normal (Passes-none (checks port_of generated normal) e),
        )
        | inr (error, e) ↦ inr (
          error,
          rw (validate, e) refl,
          λ v.
              none-ne-some
                (sym (none-Passes (checks port_of generated normal) (IsValid-checks normal v)) ∙ e),
        )
      ]
