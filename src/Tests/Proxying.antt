-- ===== src/Tests/Proxying.antt =====
-- Examples of the proxy.
use v2ray_subscription_manag.Prelude.{
  ◌≤◌, ◌≡◌, refl, ◌⊎◌, true, false, List, [], ◌∷◌, none, some, arith, length, contains,
}
use v2ray_subscription_manag.Model.{RankedConfig}
use v2ray_subscription_manag.Config.{ProxyConfig}
use v2ray_subscription_manag.Proxy.{
  ManagedProcess, PersistentProxy, World, alive, exited, new_proxy, update, start_with_config, stop,
  is_process_alive, health_check, is_healthy,
}
use v2ray_subscription_manag.Proxy.Failover.{
  Round, refreshed, failover, try_configs, try_config, spawn_health_loop, health_rounds,
}
use v2ray_subscription_manag.Proxy.Takeover.{Ends, failover_lem}
use v2ray_subscription_manag.Proxy.Exhausted.{IsLeft, failover-IsLeft}
use v2ray_subscription_manag.Proxy.Safety.{spawn_health_loop-shows}
use v2ray_subscription_manag.Proxy.Crash.{IsDown, quiet, health_rounds-IsDown}
use v2ray_subscription_manag.Proxy.Refresh.{Runs, update-Runs}
use v2ray_subscription_manag.Tests.{result}

abbrev pub enabled : ProxyConfig
enabled = record {
  enabled = true;
  port = 27910;
  discoverable = false;
  health_check_url = "https://cp.cloudflare.com";
  health_check_interval_seconds = 60;
}

-- The process lives, and everything answers.
abbrev healthy : World
healthy = record {
  wait = λ moment. alive;
  convert = λ uri. true;
  start = λ moment. none;
  client = λ moment. true;
  get = λ moment url. some 204;
  took = λ moment. 5;
}

-- The process ends on its own.
abbrev crashing : World
crashing = record healthy { wait = λ moment. exited }

abbrev choices : List RankedConfig
choices = result "a" false 10 ∷ result "b" true 20 ∷ result "c" true 30 ∷ []

abbrev up : PersistentProxy
up = record (new_proxy enabled) {
  state = record (new_proxy enabled).state { running = true; active_config_uri = some "b" };
  process = some (record { uri = "b"; port = 27910; listen = "127.0.0.1" });
}

-- "b" runs, so failover changes to "c".
changed : (failover healthy true choices up).1.state.active_config_uri ≡ some "c"
unfolding new_proxy failover try_configs try_config start_with_config stop health_check
    is_process_alive is_healthy contains
changed = refl

-- A refresh while the loop sleeps, and one after a health check.
abbrev sample_rounds : List Round
sample_rounds =
    record { before = []; asleep = refreshed enabled choices ∷ []; between = []; ranked = choices }
    ∷ record { before = []; asleep = []; between = refreshed enabled [] ∷ []; ranked = choices }
    ∷ []

spawn_health_loop-shows_example :
    let (interval, p) = spawn_health_loop healthy true enabled sample_rounds in
    ((p.state.running ≡ false)
      ⊎ ((m : ManagedProcess) × (p.process ≡ some m) × (p.state.active_config_uri ≡ some m.uri)))
    × (length p.state.failed_config_keys ≤ 50)
spawn_health_loop-shows_example = spawn_health_loop-shows healthy true enabled sample_rounds

failover_lem_example : let (done, q) = failover healthy true choices up in Ends choices up done q
unfolding new_proxy
failover_lem_example = failover_lem healthy true choices up (omega arith) tt

-- Nothing answers any more.
abbrev silent : World
silent = record healthy { get = λ moment url. none }

failover-IsLeft_example :
    let (done, q) = failover silent true choices up in
    (done ≡ false) × (q.state.running ≡ false) × IsLeft q
unfolding new_proxy
failover-IsLeft_example =
    failover-IsLeft silent true (λ uri. refl) (λ moment. refl) (λ moment. refl) (λ moment url. refl)
      choices up (λ e. cc e)

health_rounds-IsDown_example :
    IsDown (health_rounds crashing true (quiet (choices ∷ choices ∷ [])) (60, up)).1
unfolding new_proxy
health_rounds-IsDown_example =
    health_rounds-IsDown crashing true 60 up
      (record { uri = "b"; port = 27910; listen = "127.0.0.1" }) choices (choices ∷ [])
      (λ moment. refl) refl refl (omega arith) (omega arith)

update-Runs_example :
    Runs (result "b" true 20) (update healthy true enabled choices (new_proxy enabled))
unfolding new_proxy
update-Runs_example =
    update-Runs healthy true (λ moment. refl) enabled choices (result "b" true 20)
      (new_proxy enabled) (record { shown = λ runs. absurd (cc runs); bounded = omega arith }) refl
      refl refl
