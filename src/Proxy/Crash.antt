-- ===== src/Proxy/Crash.antt =====
-- A process that ends on its own.
use v2ray_subscription_manag.Prelude.{
  ℕ, ◌*◌, ◌<◌, ◌≡◌, Bool, true, false, List, [], ◌∷◌, map, none, some, arith,
}
use v2ray_subscription_manag.Model.{RankedConfig}
use v2ray_subscription_manag.Proxy.{
  ManagedProcess, PersistentProxy, World, exited, is_process_alive, health_check,
  max_consecutive_failures,
}
use v2ray_subscription_manag.Proxy.Failover.{
  Round, run_tasks, on_unhealthy, health_round, health_rounds, sleep, next_interval,
}

-- Rounds in which no other task runs.
abbrev pub quiet_round : List RankedConfig → Round
quiet_round ranked = record { before = []; asleep = []; between = []; ranked = ranked }

abbrev pub quiet : List (List RankedConfig) → List Round
quiet rounds = map quiet_round rounds

pub record IsDown (p : PersistentProxy) : Type 0 where
  pub running : p.state.running ≡ false
  pub process : p.process ≡ none

module _ (w : World) (listening : Bool) where
  round-IsDown :
      (ranked : List RankedConfig) (l : ℕ × PersistentProxy)
      → IsDown l.1
      → IsDown (health_round w listening (quiet_round ranked) l).1
  unfolding health_round run_tasks
  round-IsDown ranked (last, p) d = ground arith

  rounds-IsDown :
      (rounds : List (List RankedConfig)) (l : ℕ × PersistentProxy)
      → IsDown l.1
      → IsDown (health_rounds w listening (quiet rounds) l).1
  unfolding health_rounds
  rounds-IsDown [] l d = d
  rounds-IsDown (ranked ∷ rounds) l d = rounds-IsDown rounds _ (round-IsDown ranked l d)

  health_check-down :
      (p : PersistentProxy) (m : ManagedProcess)
      → w.wait p.moment ≡ exited
      → p.process ≡ some m
      → let (ok, q) = health_check w p in
        (ok ≡ false) × (q.process ≡ none) × (q.state.running ≡ false)
  unfolding health_check is_process_alive
  health_check-down p m ends process = ground arith

  first-IsDown :
      (last : ℕ) (p : PersistentProxy) (m : ManagedProcess) (ranked : List RankedConfig)
      → ((moment : ℕ) → w.wait moment ≡ exited)
      → p.state.running ≡ true
      → p.process ≡ some m
      → p.state.consecutive_failures < max_consecutive_failures
      → 0 < p.state.proxy_config.health_check_interval_seconds
      → IsDown (health_round w listening (quiet_round ranked) (last, p)).1
  unfolding health_round on_unhealthy run_tasks
  first-IsDown last p m ranked ends runs process few interval =
      let n = next_interval w listening last p.state.proxy_config.health_check_interval_seconds in
      let woken = sleep (n * 1000) p in
      let (ok, gone, stopped) = health_check-down woken m (ends p.moment) process in ground arith

  -- A proxy that is marked as running, with fewer than three failures counted, a positive interval and
  -- a process that has ended on its own, is neither marked as running nor has a process after the next
  -- round of the health loop, and after all later rounds: unless another task steps in, the loop does
  -- not fail over, whatever configs are ranked.
  pub health_rounds-IsDown :
      (last : ℕ) (p : PersistentProxy) (m : ManagedProcess) (ranked : List RankedConfig)
      (rounds : List (List RankedConfig))
      → ((moment : ℕ) → w.wait moment ≡ exited)
      → p.state.running ≡ true
      → p.process ≡ some m
      → p.state.consecutive_failures < max_consecutive_failures
      → 0 < p.state.proxy_config.health_check_interval_seconds
      → IsDown (health_rounds w listening (quiet (ranked ∷ rounds)) (last, p)).1
  unfolding health_rounds
  health_rounds-IsDown last p m ranked rounds ends runs process few interval =
      rounds-IsDown rounds _ (first-IsDown last p m ranked ends runs process few interval)
