-- ===== src/Config/Valid.antt =====
-- Which configurations validate accepts.
use v2ray_subscription_manag.Prelude.{
  ℕ, ◌≤◌, ◌<◌, ◌≡◌, ◌≢◌, ◌⊎◌, inl, inr, refl, ap, Bool, false, ◌&&◌, String, List, [], ◌∷◌, Option,
  none, some, any, ◌==◌, arith, All,
}
use v2ray_subscription_manag.Text.{trim, is_empty_text}
use v2ray_subscription_manag.Stop.{is_empty}
use v2ray_subscription_manag.Config.{
  AppConfig, ProbeConfig, ProbeMode, active, tcp, ProxyConfig, SubscriptionSource,
}
use v2ray_subscription_manag.Config.Validate.{
  is_active, is_some_zero, is_bad_status, first_error, checks,
}

abbrev pub IsPositive : Option ℕ → Type 0
IsPositive none = Unit
IsPositive (some n) = 0 < n

abbrev pub IsStatus : ℕ → Type 0
IsStatus status = (100 ≤ status) × (status ≤ 599)

abbrev pub IsNamed : SubscriptionSource → Type 0
IsNamed s = (trim s.name ≢ "") × (trim s.url ≢ "")

pub record IsValidProbe (p : ProbeConfig) : Type 0 where
  pub concurrency : 0 < p.concurrency
  pub batch_size : IsPositive p.batch_size
  pub process_concurrency : IsPositive p.process_concurrency
  pub connect_timeout : 0 < p.connect_timeout_ms
  pub active_timeout : 0 < p.active_timeout_ms
  pub startup_timeout : 0 < p.startup_timeout_ms
  pub target : (p.mode ≡ tcp) ⊎ ((trim p.test_url ≢ "") × (p.accepted_statuses ≢ []))
  pub statuses : All IsStatus p.accepted_statuses
  pub download_limit : 0 < p.download_bytes_limit

pub record IsValidProxy (p : ProxyConfig) (bind : ℕ) : Type 0 where
  pub port : 0 < p.port
  pub apart : p.port ≢ bind
  pub interval : 0 < p.health_check_interval_seconds

module _ {Address : Type 0} (port_of : Address → ℕ) where
  pub record IsValid (c : AppConfig Address) : Type 0 where
    pub top_n : 0 < c.top_n
    pub fetch_concurrency : 0 < c.fetch_concurrency
    pub max_bytes : 0 < c.max_subscription_bytes
    pub probe : IsValidProbe c.probe
    pub clean_days : 0 < c.clean_offlines_after_days
    pub subscriptions : All IsNamed c.subscriptions
    pub token : (c.sharing.require_token ≡ false) ⊎ (c.sharing.token ≢ "")
    pub proxy : (c.proxy.enabled ≡ false) ⊎ IsValidProxy c.proxy (port_of c.bind)

abbrev pub Passes : List (Bool × String) → Type 0
Passes checks = All (λ check. check.0 ≡ false) checks

pub Passes-none : (checks : List (Bool × String)) → first_error checks ≡ none → Passes checks
Passes-none [] h = tt
Passes-none ((failed, e) ∷ checks) h = ground (arith, Passes-none checks)

pub none-Passes : (checks : List (Bool × String)) → Passes checks → first_error checks ≡ none
none-Passes [] h = refl
none-Passes ((failed, e) ∷ checks) (p, h) = ground (arith, none-Passes checks h)

-- Tests on the parts, and what they mean.
pub positive_of : (n : ℕ) → (n == 0) ≡ false → 0 < n
positive_of n h = ground arith

pub of_positive : (n : ℕ) → 0 < n → (n == 0) ≡ false
of_positive n h = ground arith

pub some_zero_of : (o : Option ℕ) → is_some_zero o ≡ false → IsPositive o
some_zero_of none h = tt
some_zero_of (some n) h = positive_of n h

pub of_some_zero : (o : Option ℕ) → IsPositive o → is_some_zero o ≡ false
of_some_zero none h = refl
of_some_zero (some n) h = of_positive n h

pub text_of : (s : String) → is_empty_text s ≡ false → s ≢ ""
text_of s h e = cc (h, ap is_empty_text e)

pub of_text : (s : String) → s ≢ "" → is_empty_text s ≡ false
of_text String.[] h = absurd (h refl)
of_text (String.◌∷◌ c s) h = refl

pub statuses_of : (xs : List ℕ) → any is_bad_status xs ≡ false → All IsStatus xs
statuses_of [] h = tt
statuses_of (x ∷ xs) h = ground (arith, statuses_of xs)

pub of_statuses : (xs : List ℕ) → All IsStatus xs → any is_bad_status xs ≡ false
of_statuses [] h = refl
of_statuses (x ∷ xs) h = ground (arith, of_statuses xs h.1)

pub target_of :
    (mode : ProbeMode) (url : String) (statuses : List ℕ)
    → (is_active mode && is_empty_text (trim url)) ≡ false
    → (is_active mode && is_empty statuses) ≡ false
    → (mode ≡ tcp) ⊎ ((trim url ≢ "") × (statuses ≢ []))
target_of active url statuses h k = inr (text_of (trim url) h, λ e. cc (k, ap is_empty e))
target_of tcp url statuses h k = inl refl

pub of_target :
    (mode : ProbeMode) (url : String) (statuses : List ℕ)
    → (mode ≡ tcp) ⊎ ((trim url ≢ "") × (statuses ≢ []))
    → ((is_active mode && is_empty_text (trim url)) ≡ false)
      × ((is_active mode && is_empty statuses) ≡ false)
of_target tcp url statuses h = (refl, refl)
of_target active url [] (inl e) = absurd (cc e)
of_target active url [] (inr (u, s)) = absurd (s refl)
of_target active url (x ∷ xs) (inl e) = absurd (cc e)
of_target active url (x ∷ xs) (inr (u, s)) = (of_text (trim url) u, refl)
