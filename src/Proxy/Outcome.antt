-- ===== src/Proxy/Outcome.antt =====
-- What failover leaves.
use v2ray_subscription_manag.Prelude.{
  ◌≤◌, ◌≡◌, refl, ◌∙◌, ap, Bool, true, false, List, [], ◌∷◌, some, arith, length, inl, inr,
  Bool-cases, length-append,
}
use native.Mathlib.Nat.{le_trans}
use v2ray_subscription_manag.Config.{ProxyConfig}
use mathlib.Core.List.{Mem, mem-cons_self, mem-cons_of_mem}
use v2ray_subscription_manag.Model.{RankedConfig}
use v2ray_subscription_manag.Proxy.{
  PersistentProxy, ProxyState, World, mark_failed, is_process_alive, stop, start_with_config,
  health_check, max_recently_failed_keys,
}
use v2ray_subscription_manag.Proxy.Failover.{try_config, try_configs}
use v2ray_subscription_manag.Proxy.Shown.{
  process_of, started_as, start_with_config_lem, health_check-IsKept,
}

-- The config that took over is the one that runs and is shown.
pub record HasTaken (c : RankedConfig) (p q : PersistentProxy) : Type 0 where
  pub running : q.state.running ≡ true
  pub process : q.process ≡ some (process_of c p)
  pub uri : q.state.active_config_uri ≡ some c.uri
  pub name : q.state.active_config_name ≡ some c.name
  pub failures : q.state.consecutive_failures ≡ 0
  pub time : q.state.last_failover ≡ some q.now
  pub later : p.now ≤ q.now

pub later-HasTaken :
    (c : RankedConfig) (p r q : PersistentProxy)
    → r.state.proxy_config ≡ p.state.proxy_config
    → p.now ≤ r.now
    → HasTaken c r q
    → HasTaken c p q
later-HasTaken c p r q config later h = record {
  running = h.running;
  process = h.process ∙ ap (λ (config : ProxyConfig). some (started_as c config)) config;
  uri = h.uri;
  name = h.name;
  failures = h.failures;
  time = h.time;
  later = le_trans later h.later;
}

-- What the configs leave that are tried from `p` on.
pub record IsTried (cs : List RankedConfig) (p : PersistentProxy) (done : Bool)
    (q : PersistentProxy) : Type 0 where
  pub keys : length q.state.failed_config_keys ≤ max_recently_failed_keys
  pub config : q.state.proxy_config ≡ p.state.proxy_config
  pub gave_up : done ≡ false → q.state.running ≡ false
  pub took_over : done ≡ true → (c : RankedConfig) × Mem c cs × HasTaken c p q

module _ (w : World) where
  pub is_process_alive_lem :
      (p : PersistentProxy)
      → let (lives, q) = is_process_alive w p in
        lives ≡ true → (q.process ≡ p.process) × (q.state ≡ p.state)
  unfolding is_process_alive
  is_process_alive_lem p h = ground arith

  -- A process that answers is the one that was asked.
  pub health_check_lem :
      (p : PersistentProxy)
      → let (ok, q) = health_check w p in
        ok ≡ true
        → (q.process ≡ p.process)
          × (q.state.running ≡ p.state.running)
          × (q.state.consecutive_failures ≡ 0)
  unfolding health_check
  health_check_lem p h = ground (arith, is_process_alive_lem p)

module _ (w : World) (listening : Bool) where
  pub try_config_lem :
      (c : RankedConfig) (p : PersistentProxy)
      → let (done, q) = try_config w listening c p in
        (q.state.failed_config_keys ≡ p.state.failed_config_keys)
        × (q.state.proxy_config ≡ p.state.proxy_config)
        × (q.state.active_config_uri ≡ p.state.active_config_uri)
        × (done ≡ true
            → (q.process ≡ some (process_of c p))
              × (q.state.running ≡ true)
              × (q.state.consecutive_failures ≡ 0))
  unfolding try_config
  try_config_lem c p =
      let (error, q) = start_with_config w listening c p in
      ground (
        arith,
        start_with_config_lem w listening c p,
        health_check_lem w q,
        health_check-IsKept w q,
      )

  -- What is known of the time.
  stop-now : (p : PersistentProxy) → p.now ≤ (stop w listening p).now
  unfolding stop
  stop-now p = ground arith

  start_with_config-now :
      (c : RankedConfig) (p : PersistentProxy) → p.now ≤ (start_with_config w listening c p).1.now
  unfolding start_with_config
  start_with_config-now c p = ground (arith, stop-now p)

  health_check-now : (p : PersistentProxy) → p.now ≤ (health_check w p).1.now
  unfolding health_check is_process_alive
  health_check-now p = ground arith

  try_config-now :
      (c : RankedConfig) (p : PersistentProxy) → p.now ≤ (try_config w listening c p).1.now
  unfolding try_config
  try_config-now c p =
      ground
        (arith, start_with_config-now c p, health_check-now (start_with_config w listening c p).1)

  marked-bounded :
      (c : RankedConfig) (s : ProxyState)
      → length s.failed_config_keys ≤ max_recently_failed_keys
      → length (mark_failed c s).failed_config_keys ≤ max_recently_failed_keys
  marked-bounded c s h = ground (arith, length-append s.failed_config_keys (c.dedup_key ∷ []))

  marked-config :
      (c : RankedConfig) (s : ProxyState) → (mark_failed c s).proxy_config ≡ s.proxy_config
  marked-config c s = ground arith

  IsTried-later :
      (c : RankedConfig) (cs : List RankedConfig) (p next : PersistentProxy) (done : Bool)
      (q : PersistentProxy)
      → next.state.proxy_config ≡ p.state.proxy_config
      → p.now ≤ next.now
      → IsTried cs next done q
      → IsTried (c ∷ cs) p done q
  IsTried-later c cs p next done q config later more = record {
    keys = more.keys;
    config = more.config ∙ config;
    gave_up = more.gave_up;
    took_over = λ e.
        let (d, found, h) = more.took_over e in
        (d, mem-cons_of_mem c found, later-HasTaken d p next q config later h);
  }

  pub try_configs-IsTried :
      (cs : List RankedConfig) (p : PersistentProxy)
      → length p.state.failed_config_keys ≤ max_recently_failed_keys
      → let (done, q) = try_configs w listening cs p in IsTried cs p done q
  unfolding try_configs
  try_configs-IsTried [] p h = record {
    keys = h;
    config = refl;
    gave_up = λ e. refl;
    took_over = λ e. absurd (cc e);
  }
  try_configs-IsTried (c ∷ cs) p h =
      let (done, tried) = try_config w listening c p in
      let (keys, config, uri, taken) = try_config_lem c p in
      let next : PersistentProxy = record tried { state = mark_failed c tried.state } in
      let later : p.now ≤ tried.now = try_config-now c p in
      let more = try_configs-IsTried cs next (marked-bounded c tried.state (rw keys h)) in
      elim (Bool-cases done) [
        | inl e ↦
            rw (try_configs, e)
              (record {
                keys = rw keys h;
                config = config;
                gave_up = λ f. absurd (cc f);
                took_over = λ t. (
                  c,
                  mem-cons_self,
                  record {
                    running = (taken e).1;
                    process = (taken e).0;
                    uri = refl;
                    name = refl;
                    failures = refl;
                    time = refl;
                    later = omega (arith, later);
                  },
                );
              })
        | inr e ↦
            rw (try_configs, e)
              (IsTried-later c cs p next _ _ (marked-config c tried.state ∙ config) later more)
      ]
