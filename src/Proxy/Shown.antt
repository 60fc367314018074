-- ===== src/Proxy/Shown.antt =====
-- A running proxy runs the config that it shows.
use v2ray_subscription_manag.Prelude.{
  ◌≤◌, ◌≡◌, refl, ◌∙◌, Bool, true, false, String, List, Option, none, some, arith, length, inl, inr,
  if◌then◌else◌, Option-cases,
}
use v2ray_subscription_manag.Model.{RankedConfig}
use v2ray_subscription_manag.Config.{ProxyConfig}
use v2ray_subscription_manag.Proxy.{
  ManagedProcess, PersistentProxy, World, is_process_alive, stop, start_with_config, health_check,
  switch_reason, switch_to, update, disable, switch_if_needed, switch_to_best, sync,
  first_reachable, listen_address, max_recently_failed_keys, emit_log,
}

pub record IsShown (p : PersistentProxy) : Type 0 where
  pub shown :
      p.state.running ≡ true
      → (m : ManagedProcess) × (p.process ≡ some m) × (p.state.active_config_uri ≡ some m.uri)
  pub bounded : length p.state.failed_config_keys ≤ max_recently_failed_keys

-- The process that a config is started as.
abbrev pub started_as : RankedConfig → ProxyConfig → ManagedProcess
started_as c config = record { uri = c.uri; port = config.port; listen = listen_address config }

abbrev pub process_of : RankedConfig → PersistentProxy → ManagedProcess
process_of c p = started_as c p.state.proxy_config

-- `q` shows what `p` shows and, if it runs, runs what `p` runs.
pub record IsKept (p q : PersistentProxy) : Type 0 where
  pub uri : q.state.active_config_uri ≡ p.state.active_config_uri
  pub keys : q.state.failed_config_keys ≡ p.state.failed_config_keys
  pub config : q.state.proxy_config ≡ p.state.proxy_config
  pub process : q.state.running ≡ true → (q.process ≡ p.process) × (p.state.running ≡ true)

pub IsKept-IsShown : {p q : PersistentProxy} → IsKept p q → IsShown p → IsShown q
IsKept-IsShown {p} {q} k s = record {
  shown =
      λ runs. let (m, e, u) = s.shown (k.process runs).1 in (m, (k.process runs).0 ∙ e, k.uri ∙ u);
  bounded = rw k.keys s.bounded;
}

module _ (w : World) where
  pub is_process_alive-IsKept : (p : PersistentProxy) → IsKept p (is_process_alive w p).1
  unfolding is_process_alive
  is_process_alive-IsKept p = ground arith

  pub health_check-IsKept : (p : PersistentProxy) → IsKept p (health_check w p).1
  unfolding health_check
  health_check-IsKept p = ground (arith, is_process_alive-IsKept p)

  pub switch_reason-IsKept :
      (best : RankedConfig) (p : PersistentProxy) → IsKept p (switch_reason w best p).1
  unfolding switch_reason
  switch_reason-IsKept best p = ground (arith, is_process_alive-IsKept p)

-- What is shown once a config has been started, and what is left if it has not.
module _ (w : World) (listening : Bool) where
  pub stop-IsKept : (p : PersistentProxy) → IsKept p (stop w listening p)
  unfolding stop
  stop-IsKept p = ground arith

  pub start_with_config_lem :
      (c : RankedConfig) (p : PersistentProxy)
      → let (error, q) = start_with_config w listening c p in
        (q.state.active_config_uri ≡ p.state.active_config_uri)
        × (q.state.failed_config_keys ≡ p.state.failed_config_keys)
        × (q.state.proxy_config ≡ p.state.proxy_config)
        × (q.state.running ≡ true → (error ≡ none) × (q.process ≡ some (process_of c p)))
        × (error ≡ none → q.state.running ≡ true)
  unfolding start_with_config stop
  start_with_config_lem c p = ground (arith)

  -- What a started config leaves.
  started-IsShown :
      (c : RankedConfig) (p q : PersistentProxy)
      → length p.state.failed_config_keys ≤ max_recently_failed_keys
      → q.state.failed_config_keys ≡ p.state.failed_config_keys
      → q.state.active_config_uri ≡ some c.uri
      → (q.state.running ≡ true → q.process ≡ some (process_of c p))
      → IsShown q
  started-IsShown c p q bounded keys uri process = record {
    shown = λ runs. (process_of c p, process runs, uri);
    bounded = rw keys bounded;
  }

  switch_to-IsShown :
      (why : String) (c : RankedConfig) (config : ProxyConfig) (p : PersistentProxy)
      → IsShown p
      → IsShown (switch_to w listening why c config p)
  unfolding switch_to
  switch_to-IsShown why c config p s =
      let (uri, keys, _, process, _) = start_with_config_lem c p in
      elim (Option-cases (start_with_config w listening c p).0) [
        | inl e ↦
            rw (switch_to, e)
              (record {
                shown = λ runs. (process_of c p, (process runs).1, refl);
                bounded = rw keys s.bounded;
              })
        | inr (error, e) ↦
            rw (switch_to, e)
              (record {
                shown = λ runs. absurd (cc ((process runs).0, e));
                bounded = rw keys s.bounded;
              })
      ]

  pub if-IsShown :
      (b : Bool) (p q : PersistentProxy) → IsShown p → IsShown q → IsShown (if b then p else q)
  if-IsShown true p q s t = s
  if-IsShown false p q s t = t

  pub emit_log-IsShown :
      (m : String) (p : PersistentProxy) → IsShown p → IsShown (emit_log listening m p)
  emit_log-IsShown m p s = record { shown = s.shown; bounded = s.bounded }

  pub stop-IsShown : (p : PersistentProxy) → IsShown p → IsShown (stop w listening p)
  stop-IsShown p s = IsKept-IsShown (stop-IsKept p) s

  disable-IsShown : (p : PersistentProxy) → IsShown p → IsShown (disable w listening p)
  unfolding disable
  disable-IsShown p s =
      let asked = IsKept-IsShown (is_process_alive-IsKept w p) s in
      let stopped = λ (q : PersistentProxy) (t : IsShown q).
        stop-IsShown (emit_log listening "proxy: disabled" q)
          (emit_log-IsShown "proxy: disabled" q t) in
      if-IsShown _ _ _ (stopped p s) (if-IsShown _ _ _ (stopped _ asked) asked)

  switch_if_needed-IsShown :
      (best : RankedConfig) (config : ProxyConfig) (p : PersistentProxy)
      → IsShown p
      → IsShown (switch_if_needed w listening best config p)
  unfolding switch_if_needed
  switch_if_needed-IsShown best config p s =
      let asked = IsKept-IsShown (switch_reason-IsKept w best p) s in
      elim (Option-cases (switch_reason w best p).0) [
        | inl e ↦ rw (switch_if_needed, e) asked
        | inr (why, e) ↦
            rw (switch_if_needed, e)
              (switch_to-IsShown why best config (switch_reason w best p).1 asked)
      ]

  switch_to_best-IsShown :
      (best : Option RankedConfig) (config : ProxyConfig) (p : PersistentProxy)
      → IsShown p
      → IsShown (switch_to_best w listening best config p)
  unfolding switch_to_best
  switch_to_best-IsShown none config p s = emit_log-IsShown _ p s
  switch_to_best-IsShown (some best) config p s = switch_if_needed-IsShown best config p s

  pub update-IsShown :
      (config : ProxyConfig) (ranked : List RankedConfig) (p : PersistentProxy)
      → IsShown p
      → IsShown (update w listening config ranked p)
  unfolding update
  update-IsShown config ranked p s =
      let synced : IsShown (sync config p) = record { shown = s.shown; bounded = omega arith } in
      if-IsShown _ _ _ (disable-IsShown (sync config p) synced)
        (switch_to_best-IsShown (first_reachable ranked) config (sync config p) synced)
