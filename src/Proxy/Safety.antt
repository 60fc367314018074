-- ===== src/Proxy/Safety.antt =====
-- What holds of the proxy whatever other tasks do wherever its health loop does not hold the lock.
use v2ray_subscription_manag.Prelude.{
  ℕ, ◌*◌, ◌≤◌, ◌≡◌, ◌⊎◌, inl, inr, Bool, false, List, [], ◌∷◌, some, arith, length, Bool-cases,
  keep,
}
use v2ray_subscription_manag.Model.{RankedConfig}
use v2ray_subscription_manag.Stop.{is_empty}
use v2ray_subscription_manag.Config.{ProxyConfig}
use v2ray_subscription_manag.Proxy.{
  ManagedProcess, PersistentProxy, World, max_recently_failed_keys, new_proxy,
}
use v2ray_subscription_manag.Proxy.Failover.{
  Task, Round, refreshed, shut_down, try_configs, failover, run_task, run_tasks, on_unhealthy,
  health_round, health_rounds, spawn_health_loop, cool_down, is_fresh, sleep, next_interval,
}
use v2ray_subscription_manag.Proxy.Shown.{
  IsShown, IsKept-IsShown, process_of, update-IsShown, stop-IsShown, health_check-IsKept,
  if-IsShown, emit_log-IsShown,
}
use v2ray_subscription_manag.Proxy.Outcome.{IsTried, try_configs-IsTried}
use v2ray_subscription_manag.Proxy.Takeover.{cool_down-state}

tried-IsShown :
    (cs : List RankedConfig) (p : PersistentProxy) (done : Bool) (q : PersistentProxy)
    → IsTried cs p done q
    → IsShown q
tried-IsShown cs p done q t = record {
  shown = λ runs. elim (Bool-cases done) [
    | inl e ↦ let (c, found, h) = t.took_over e in (process_of c p, h.process, h.uri)
    | inr e ↦ absurd (cc (runs, t.gave_up e))
  ];
  bounded = t.keys;
}

module _ (w : World) (listening : Bool) where
  try_configs-IsShown :
      (cs : List RankedConfig) (p : PersistentProxy)
      → length p.state.failed_config_keys ≤ max_recently_failed_keys
      → IsShown (try_configs w listening cs p).1
  try_configs-IsShown cs p h = tried-IsShown cs p _ _ (try_configs-IsTried w listening cs p h)

  failover-IsShown :
      (ranked : List RankedConfig) (p : PersistentProxy)
      → IsShown p
      → IsShown (failover w listening ranked p).1
  unfolding failover
  failover-IsShown ranked p s =
      let h : length (cool_down p).state.failed_config_keys ≤ max_recently_failed_keys =
        rw (cool_down-state p.state.last_failover p) s.bounded in
      elim (Bool-cases (is_empty (keep (is_fresh p.state) ranked))) [
        | inl e ↦ rw (failover, e) (try_configs-IsShown _ _ (omega arith))
        | inr e ↦ rw (failover, e) (try_configs-IsShown _ _ h)
      ]

  run_task-IsShown :
      (t : Task) (p : PersistentProxy) → IsShown p → IsShown (run_task w listening t p)
  run_task-IsShown (refreshed config ranked) p s = update-IsShown w listening config ranked p s
  run_task-IsShown shut_down p s = stop-IsShown w listening p s

  run_tasks-IsShown :
      (ts : List Task) (p : PersistentProxy) → IsShown p → IsShown (run_tasks w listening ts p)
  unfolding run_tasks
  run_tasks-IsShown [] p s = s
  run_tasks-IsShown (t ∷ ts) p s = run_tasks-IsShown ts _ (run_task-IsShown t p s)

  on_unhealthy-IsShown :
      (failures : ℕ) (ranked : List RankedConfig) (p : PersistentProxy)
      → IsShown p
      → IsShown (on_unhealthy w listening failures ranked p)
  unfolding on_unhealthy
  on_unhealthy-IsShown failures ranked p s =
      let over = failover-IsShown ranked p s in
      if-IsShown w listening _ _ _ (emit_log-IsShown w listening _ p s)
        (if-IsShown w listening _ _ _ over (emit_log-IsShown w listening _ _ over))

  sleep-IsShown : (n : ℕ) (p : PersistentProxy) → IsShown p → IsShown (sleep n p)
  sleep-IsShown n p s = record { shown = s.shown; bounded = s.bounded }

  health_round-IsShown :
      (round : Round) (l : ℕ × PersistentProxy)
      → IsShown l.1
      → IsShown (health_round w listening round l).1
  unfolding health_round
  health_round-IsShown round (last, p) s =
      let choose = λ (b : Bool) (q r : PersistentProxy). if-IsShown w listening b q r in
      let read = run_tasks w listening round.before p in
      let known = run_tasks-IsShown round.before p s in
      let awake =
        λ (n : ℕ). run_tasks-IsShown round.asleep (sleep n read) (sleep-IsShown n read known) in
      let interval =
        next_interval w listening last read.state.proxy_config.health_check_interval_seconds in
      let woken = run_tasks w listening round.asleep (sleep (interval * 1000) read) in
      let checked = IsKept-IsShown (health_check-IsKept w woken) (awake (interval * 1000)) in
      choose _ _ _ (awake 1000) (
        choose _ _ _ (awake (interval * 1000)) (
          choose _ _ _ checked (
            on_unhealthy-IsShown read.state.consecutive_failures round.ranked _
              (run_tasks-IsShown round.between _ checked))))

  health_rounds-IsShown :
      (rounds : List Round) (l : ℕ × PersistentProxy)
      → IsShown l.1
      → IsShown (health_rounds w listening rounds l).1
  unfolding health_rounds
  health_rounds-IsShown [] l s = s
  health_rounds-IsShown (round ∷ rounds) l s =
      health_rounds-IsShown rounds _ (health_round-IsShown round l s)

  new_proxy-IsShown : (config : ProxyConfig) → IsShown (new_proxy config)
  unfolding new_proxy
  new_proxy-IsShown config = record { shown = λ runs. absurd (cc runs); bounded = omega arith }

  -- Whatever refreshes, changes of the configuration and shutdowns run wherever the health loop does
  -- not hold the lock (before it reads the state, while it sleeps, and between a failed health check
  -- and what follows that), and whatever the system and the network answer: a proxy that is marked as
  -- running has a process, which was started for the config that is shown as active, and at most 50
  -- configs are remembered as failed.
  pub spawn_health_loop-shows :
      (config : ProxyConfig) (rounds : List Round)
      → let (interval, p) = spawn_health_loop w listening config rounds in
        ((p.state.running ≡ false)
          ⊎ ((m : ManagedProcess) × (p.process ≡ some m)
              × (p.state.active_config_uri ≡ some m.uri)))
        × (length p.state.failed_config_keys ≤ 50)
  unfolding spawn_health_loop
  spawn_health_loop-shows config rounds =
      let s = health_rounds-IsShown rounds (0, new_proxy config) (new_proxy-IsShown config) in
      (
        elim (Bool-cases (spawn_health_loop w listening config rounds).1.state.running) [
          | inl e ↦ inr (s.shown e)
          | inr e ↦ inl e
        ],
        s.bounded,
      )
