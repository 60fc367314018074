-- ===== src/Proxy/Failover.antt =====
-- PersistentProxy::failover, spawn_health_loop and what runs between them, of proxy.rs.
use v2ray_subscription_manag.Prelude.{
  is_some, ℕ, ◌+◌, ◌-◌, ◌*◌, Bool, true, false, not, ◌&&◌, String, List, [], ◌∷◌, Option, none,
  some, keep, ltb, ◌==◌, if◌then◌else◌, str_append, contains,
}
use v2ray_subscription_manag.Prelude.Decimal.{decimal}
use v2ray_subscription_manag.Model.{RankedConfig}
use v2ray_subscription_manag.Config.{ProxyConfig}
use v2ray_subscription_manag.Stop.{is_empty}
use v2ray_subscription_manag.Proxy.{
  PersistentProxy, ProxyState, World, is_text, emit_log, tick, mark_failed, show_config,
  port_message, failover_cooldown, max_consecutive_failures, start_with_config, health_check,
  update, shutdown, new_proxy,
}

-- The configs that failover tries: those that work and are not the current one, without those that
-- failed recently.
abbrev pub is_other : ProxyState → RankedConfig → Bool
is_other s c = c.reachable && not (is_text s.active_config_uri c.uri)

abbrev pub is_fresh : ProxyState → RankedConfig → Bool
is_fresh s c = is_other s c && not (contains s.failed_config_keys c.dedup_key)

-- `time::sleep`
abbrev pub sleep : ℕ → PersistentProxy → PersistentProxy
sleep duration p = record p { now = p.now + duration }

-- The rest of the cooldown after the last failover is waited for.
abbrev pub cool_down_after : Option ℕ → PersistentProxy → PersistentProxy
cool_down_after none p = p
cool_down_after (some last) p =
    let elapsed = p.now - last in
    if ltb elapsed failover_cooldown then sleep (failover_cooldown - elapsed) p else p

abbrev pub cool_down : PersistentProxy → PersistentProxy
cool_down p = cool_down_after p.state.last_failover p

abbrev pub clear_failed : PersistentProxy → PersistentProxy
clear_failed p = record p { state = record p.state { failed_config_keys = [] } }

-- What other tasks do while they hold the lock on the proxy.
pub data Task : Type 0 where
  refreshed : ProxyConfig → List RankedConfig → Task
  shut_down : Task

-- What other tasks do in a round of the health loop wherever it does not hold the lock: before it
-- reads the state, while it sleeps, and between a failed health check and what follows that; and the
-- ranked configs that the loop reads.
pub record Round : Type 0 where
  pub before : List Task
  pub asleep : List Task
  pub between : List Task
  pub ranked : List RankedConfig

module _ (w : World) (listening : Bool) where
  -- Failover has succeeded.
  abbrev pub succeed : RankedConfig → PersistentProxy → PersistentProxy
  succeed c p =
      let logged =
        emit_log listening (port_message "failover" c.name p.state.proxy_config.port) p in
      record (tick w logged) {
        state = record (show_config c logged.state) { last_failover = some (tick w logged).now };
      }

  abbrev pub exhausted : PersistentProxy → PersistentProxy
  exhausted p =
      emit_log listening "proxy: failover exhausted"
        (record p { state = record p.state { running = false } })

  -- One config is started and checked.
  unfoldable pub try_config : RankedConfig → PersistentProxy → Bool × PersistentProxy
  try_config c p =
      let (error, started) = start_with_config w listening c p in
      let (healthy, checked) = health_check w started in
      if is_some error then (false, started) else (healthy, checked)

  -- The configs in turn.
  unfoldable pub try_configs : List RankedConfig → PersistentProxy → Bool × PersistentProxy
  try_configs [] p = (false, exhausted p)
  try_configs (c ∷ cs) p =
      let (done, tried) = try_config c p in
      let more = try_configs cs (record tried { state = mark_failed c tried.state }) in
      if done then (true, succeed c tried) else more

  -- `true` is `Ok(())`.
  unfoldable pub failover : List RankedConfig → PersistentProxy → Bool × PersistentProxy
  failover ranked p =
      let fresh = keep (is_fresh p.state) ranked in
      let cooled = cool_down p in
      let cleared = clear_failed (emit_log listening "proxy: blacklist cleared" cooled) in
      if is_empty fresh
      then try_configs (keep (is_other p.state) ranked) cleared
      else try_configs fresh cooled

  abbrev pub run_task : Task → PersistentProxy → PersistentProxy
  run_task (refreshed config ranked) p = update w listening config ranked p
  run_task shut_down p = shutdown w listening p

  unfoldable pub run_tasks : List Task → PersistentProxy → PersistentProxy
  run_tasks [] p = p
  run_tasks (t ∷ ts) p = run_tasks ts (run_task t p)

  abbrev pub fail_message : ℕ → String
  fail_message next =
      str_append "proxy: health fail "
        (str_append (decimal next) (str_append "/" (decimal max_consecutive_failures)))

  -- After a failed health check. `failures` is what was read before the sleep.
  unfoldable pub on_unhealthy : ℕ → List RankedConfig → PersistentProxy → PersistentProxy
  on_unhealthy failures ranked p =
      let (done, tried) = failover ranked p in
      if ltb failures max_consecutive_failures
      then emit_log listening (fail_message (failures + 1)) p
      else if done
      then tried
      else emit_log listening "proxy: failover failed: proxy: all failover candidates exhausted"
          tried

  abbrev pub next_interval : ℕ → ℕ → ℕ
  next_interval last_interval interval =
      if not (interval == last_interval) && ltb 0 interval then interval else last_interval

  -- One round of the health loop: `last_interval` and the proxy. What is read of the state, whether it
  -- runs and its failures, is as it was before the sleep.
  unfoldable pub health_round : Round → ℕ × PersistentProxy → ℕ × PersistentProxy
  health_round round (last_interval, p) =
      let read = run_tasks round.before p in
      let interval =
        next_interval last_interval read.state.proxy_config.health_check_interval_seconds in
      let idle = run_tasks round.asleep (sleep 1000 read) in
      let woken = run_tasks round.asleep (sleep (interval * 1000) read) in
      let (ok, checked) = health_check w woken in
      let later = run_tasks round.between checked in
      let next =
        if interval == 0
        then idle
        else if not read.state.running
        then woken
        else if ok
        then checked
        else on_unhealthy read.state.consecutive_failures round.ranked later in
      (interval, next)

  -- The rounds of the loop from a new proxy.
  unfoldable pub health_rounds : List Round → ℕ × PersistentProxy → ℕ × PersistentProxy
  health_rounds [] l = l
  health_rounds (round ∷ rounds) l = health_rounds rounds (health_round round l)

  unfoldable pub spawn_health_loop : ProxyConfig → List Round → ℕ × PersistentProxy
  spawn_health_loop config rounds = health_rounds rounds (0, new_proxy config)
