-- ===== src/Proxy/Refresh.antt =====
-- What a refresh makes of the proxy.
use v2ray_subscription_manag.Prelude.{
  ℕ, ◌≡◌, refl, ◌∙◌, ap, Bool, true, String, List, none, some, arith, inl, inr, Option-cases,
  eq_iff,
}
use v2ray_subscription_manag.Model.{RankedConfig}
use v2ray_subscription_manag.Config.{ProxyConfig}
use v2ray_subscription_manag.Proxy.{
  ManagedProcess, PersistentProxy, ProxyState, World, first_reachable, stop, start_with_config,
  switch_reason, switch_to, switch_if_needed, switch_to_best, update, sync,
}
use v2ray_subscription_manag.Proxy.Shown.{IsShown, process_of, start_with_config_lem}
use v2ray_subscription_manag.Proxy.Outcome.{is_process_alive_lem}

-- The proxy runs a config, and shows it.
pub record Runs (c : RankedConfig) (p : PersistentProxy) : Type 0 where
  pub running : p.state.running ≡ true
  pub process : (m : ManagedProcess) × (p.process ≡ some m) × (m.uri ≡ c.uri)
  pub uri : p.state.active_config_uri ≡ some c.uri

module _ (w : World) (listening : Bool) (starts : (moment : ℕ) → w.start moment ≡ none) where
  start_with_config-none :
      (c : RankedConfig) (p : PersistentProxy)
      → w.convert c.uri ≡ true
      → (start_with_config w listening c p).0 ≡ none
  unfolding start_with_config
  start_with_config-none c p converts = ground (arith, starts (stop w listening p).moment)

  switch_to-Runs :
      (why : String) (c : RankedConfig) (config : ProxyConfig) (p : PersistentProxy)
      → w.convert c.uri ≡ true
      → Runs c (switch_to w listening why c config p)
  unfolding switch_to
  switch_to-Runs why c config p converts =
      let ok = start_with_config-none c p converts in
      let (_, _, _, process, running) = start_with_config_lem w listening c p in
      rw (switch_to, ok)
        (record {
          running = running ok;
          process = (process_of c p, (process (running ok)).1, refl);
          uri = refl;
        })

  -- No switch: the best config is the one that runs.
  switch_reason-none :
      (best : RankedConfig) (p : PersistentProxy)
      → let (reason, q) = switch_reason w best p in
        reason ≡ none
        → (p.state.active_config_uri ≡ some best.uri)
          × (p.state.running ≡ true)
          × (q.process ≡ p.process)
          × (q.state ≡ p.state)
  unfolding switch_reason
  switch_reason-none best p h = elim (Option-cases p.state.active_config_uri) [
    | inl e ↦ ground arith
    | inr (uri, e) ↦ ground (arith, eq_iff uri best.uri, is_process_alive_lem w p)
  ]

  switch_if_needed-Runs :
      (best : RankedConfig) (config : ProxyConfig) (p : PersistentProxy)
      → IsShown p
      → w.convert best.uri ≡ true
      → Runs best (switch_if_needed w listening best config p)
  unfolding switch_if_needed
  switch_if_needed-Runs best config p s converts = elim (Option-cases (switch_reason w best p).0) [
    | inl e ↦
        let (uri, runs, process, state) = switch_reason-none best p e in
        let (m, kept, shown) = s.shown runs in
        rw (switch_if_needed, e)
          (record {
            running = ap (λ (s : ProxyState). s.running) state ∙ runs;
            process = (m, process ∙ kept, cc (shown, uri));
            uri = ap (λ (s : ProxyState). s.active_config_uri) state ∙ uri;
          })
    | inr (why, e) ↦
        rw (switch_if_needed, e)
          (switch_to-Runs why best config (switch_reason w best p).1 converts)
  ]

  -- A refresh with the proxy enabled and a reachable config: if its share link converts and starting
  -- a process succeeds, the proxy then runs the first reachable of the ranked configs and shows it.
  pub update-Runs :
      (config : ProxyConfig) (ranked : List RankedConfig) (best : RankedConfig)
      (p : PersistentProxy)
      → IsShown p
      → config.enabled ≡ true
      → first_reachable ranked ≡ some best
      → w.convert best.uri ≡ true
      → Runs best (update w listening config ranked p)
  unfolding update switch_to_best
  update-Runs config ranked best p s on found converts =
      let synced : IsShown (sync config p) = record { shown = s.shown; bounded = omega arith } in
      simp (on, found) (switch_if_needed-Runs best config (sync config p) synced converts)
