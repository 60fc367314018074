-- ===== src/Proxy.antt =====
-- The persistent proxy: PersistentProxy and its health loop, of proxy.rs. What the operating
-- system, the network and the clock answer is an argument (`World`). The lock on the proxy makes
-- each operation atomic; other tasks run wherever the health loop does not hold it.
pub mod Failover
pub mod Shown
pub mod Outcome
pub mod Takeover
pub mod Exhausted
pub mod Safety
pub mod Crash
pub mod Refresh
use v2ray_subscription_manag.Prelude.{
  is_some, ℕ, zero, suc, ◌+◌, ◌-◌, ◌*◌, Bool, true, false, not, ◌&&◌, ◌||◌, String, List, [], ◌∷◌,
  ◌++◌, Option, none, some, length, keep, any, leb, ltb, ◌==◌, if◌then◌else◌, str_append, str_eq,
  contains, saturating_add, u32_max,
}
use v2ray_subscription_manag.Prelude.Decimal.{decimal}
use v2ray_subscription_manag.Model.{RankedConfig, ProgressEvent, live_log}
use v2ray_subscription_manag.Config.{ProxyConfig}
use v2ray_subscription_manag.Stop.{is_empty, send}

abbrev pub max_consecutive_failures : ℕ
max_consecutive_failures = 3

-- `PROXY_FAILOVER_COOLDOWN` in milliseconds.
abbrev pub failover_cooldown : ℕ
failover_cooldown = 10_000

abbrev pub max_recently_failed_keys : ℕ
max_recently_failed_keys = 50

-- The process, by what it was started with.
pub record ManagedProcess : Type 0 where
  pub uri : String
  pub port : ℕ
  pub listen : String

pub record ProxyState : Type 0 where
  pub active_config_uri : Option String
  pub active_config_name : Option String
  pub active_config_country : Option String
  pub running : Bool
  pub consecutive_failures : ℕ
  pub last_health_check : Option ℕ
  pub last_health_ok : Bool
  pub last_failover : Option ℕ
  pub failed_config_keys : List String
  pub proxy_config : ProxyConfig

-- `now` is the time in milliseconds, and `moment` counts what was asked of the surroundings.
pub record PersistentProxy : Type 0 where
  pub state : ProxyState
  pub process : Option ManagedProcess
  pub events : List ProgressEvent
  pub moment : ℕ
  pub now : ℕ

-- What `try_wait` answers.
pub data Wait : Type 0 where
  exited alive unknown : Wait

pub record World : Type 0 where
  pub wait : ℕ → Wait
  -- Whether sing_box_outbound_from_share_link converts a share link.
  pub convert : String → Bool
  -- The error of writing the configuration, starting the process or waiting for its port.
  pub start : ℕ → Option String
  -- Whether the client of a health check is built.
  pub client : ℕ → Bool
  -- The status of a response, if there is one.
  pub get : ℕ → String → Option ℕ
  -- How long a question takes.
  pub took : ℕ → ℕ

unfoldable pub new_proxy : ProxyConfig → PersistentProxy
new_proxy config = record {
  state = record {
    active_config_uri = none;
    active_config_name = none;
    active_config_country = none;
    running = false;
    consecutive_failures = 0;
    last_health_check = none;
    last_health_ok = false;
    last_failover = none;
    failed_config_keys = [];
    proxy_config = config;
  };
  process = none;
  events = [];
  moment = 0;
  now = 0;
}

-- `Some(text) == o`
abbrev pub is_text : Option String → String → Bool
is_text none text = false
is_text (some t) text = str_eq t text

abbrev pub first_reachable : List RankedConfig → Option RankedConfig
first_reachable [] = none
first_reachable (c ∷ cs) = if c.reachable then some c else first_reachable cs

abbrev pub is_success : ℕ → Bool
is_success status = leb 200 status && ltb status 300 || status == 204

abbrev pub answers : (String → Option ℕ) → String → Bool
answers get url = elim (get url) [ none ↦ false | some status ↦ is_success status ]

abbrev pub fallback_urls : List String
fallback_urls =
    "https://1.1.1.1" ∷ "https://cloudflare.com" ∷ "https://api.ipify.org?format=json"
    ∷ "https://httpbin.org/ip" ∷ []

-- The primary URL decides if it responds, and the others do if it does not.
unfoldable pub is_healthy : (String → Option ℕ) → String → Bool
is_healthy get url = elim (get url) [
  | some status ↦ is_success status
  | none ↦ any (answers get) fallback_urls
]

abbrev pub listen_address : ProxyConfig → String
listen_address config = if config.discoverable then "0.0.0.0" else "127.0.0.1"

-- A config that failed is remembered while there is room.
abbrev pub mark_failed : RankedConfig → ProxyState → ProxyState
mark_failed c s =
    if ltb (length s.failed_config_keys) max_recently_failed_keys
    then record s { failed_config_keys = s.failed_config_keys ++ c.dedup_key ∷ [] }
    else s

abbrev pub emit_log : Bool → String → PersistentProxy → PersistentProxy
emit_log listening message p = record p { events = p.events ++ send listening (live_log message) }

abbrev pub show_config : RankedConfig → ProxyState → ProxyState
show_config c s = record s {
  active_config_uri = some c.uri;
  active_config_name = some c.name;
  active_config_country = c.country_code;
  consecutive_failures = 0;
}

abbrev pub port_message : String → String → ℕ → String
port_message why name port = str_append "proxy: " (
    str_append why
      (str_append " → " (str_append name (str_append " (port " (str_append (decimal port) ")")))))

-- The configuration is stored, and configs that failed get another chance.
abbrev pub sync : ProxyConfig → PersistentProxy → PersistentProxy
sync config p = record p {
  state = record p.state { proxy_config = config; failed_config_keys = [] };
}

module _ (w : World) where
  -- One question has been asked.
  abbrev pub tick : PersistentProxy → PersistentProxy
  tick p = record p { moment = p.moment + 1; now = p.now + w.took p.moment }

  unfoldable pub is_process_alive : PersistentProxy → Bool × PersistentProxy
  is_process_alive p = elim p.process [
    | none ↦ (false, p)
    | some m ↦ elim (w.wait p.moment) [
      | exited ↦
          (false, record (tick p) { process = none; state = record p.state { running = false } })
      | alive ↦ (true, tick p)
      | unknown ↦ (false, tick p)
    ]
  ]

  unfoldable pub health_check : PersistentProxy → Bool × PersistentProxy
  health_check p =
      let (lives, q) = is_process_alive p in
      let ok = is_healthy (w.get q.moment) q.state.proxy_config.health_check_url in
      let checked = record (tick q) {
        state = record q.state {
          last_health_check = some (tick q).now;
          last_health_ok = ok;
          consecutive_failures =
              if ok then 0 else saturating_add u32_max q.state.consecutive_failures 1;
        };
      } in
      if not lives
      then (false, q)
      else if not (w.client q.moment)
      then (false, q)
      else (ok, checked)

  -- Why update switches, if it does.
  unfoldable pub switch_reason : RankedConfig → PersistentProxy → Option String × PersistentProxy
  switch_reason best p = elim p.state.active_config_uri [
    | none ↦ (some "starting", p)
    | some uri ↦
        let (lives, q) = is_process_alive p in
        if not (str_eq uri best.uri)
        then (some "new config", p)
        else if not p.state.running
        then (some "restarted", p)
        else if not lives
        then (some "restarted", q)
        else if leb max_consecutive_failures p.state.consecutive_failures
        then (some "failover", q)
        else (none, q)
  ]

module _ (w : World) (listening : Bool) where
  unfoldable pub stop : PersistentProxy → PersistentProxy
  stop p =
      let stopped =
        record (if is_some p.process then emit_log listening "proxy: stopped" (tick w p) else p) {
          process = none;
        } in
      record stopped { state = record stopped.state { running = false } }

  abbrev pub shutdown : PersistentProxy → PersistentProxy
  shutdown p = stop p

  -- The error, or `none`.
  unfoldable pub start_with_config :
      RankedConfig → PersistentProxy → Option String × PersistentProxy
  start_with_config config p =
      let q = stop p in
      let started = record (tick w q) {
        process = some (record {
          uri = config.uri;
          port = q.state.proxy_config.port;
          listen = listen_address q.state.proxy_config;
        });
        state = record q.state {
          running = true;
          consecutive_failures = 0;
          last_health_check = none;
          last_health_ok = false;
        };
      } in
      if not (w.convert config.uri)
      then (some "failed to convert config to sing-box outbound", q)
      else elim (w.start q.moment) [ some error ↦ (some error, tick w q) | none ↦ (none, started) ]

  unfoldable pub switch_to : String → RankedConfig → ProxyConfig → PersistentProxy → PersistentProxy
  switch_to reason best config p =
      let (error, started) = start_with_config best p in
      let logged = emit_log listening (port_message reason best.name config.port) started in
      elim error [
        | some e ↦ emit_log listening (str_append "proxy: failed → " e) started
        | none ↦ record logged { state = show_config best logged.state }
      ]

  -- The proxy is switched off in the configuration.
  unfoldable pub disable : PersistentProxy → PersistentProxy
  disable p =
      let (lives, asked) = is_process_alive w p in
      if p.state.running
      then stop (emit_log listening "proxy: disabled" p)
      else if lives
      then stop (emit_log listening "proxy: disabled" asked)
      else asked

  -- `best` is the config to run.
  unfoldable pub switch_if_needed : RankedConfig → ProxyConfig → PersistentProxy → PersistentProxy
  switch_if_needed best config p =
      let (reason, q) = switch_reason w best p in
      elim reason [ none ↦ q | some why ↦ switch_to why best config q ]

  -- The best of the ranked configs, if one is reachable.
  unfoldable pub switch_to_best :
      Option RankedConfig → ProxyConfig → PersistentProxy → PersistentProxy
  switch_to_best none config p = emit_log listening "proxy: no reachable configs" p
  switch_to_best (some best) config p = switch_if_needed best config p

  unfoldable pub update : ProxyConfig → List RankedConfig → PersistentProxy → PersistentProxy
  update config ranked p =
      let synced = sync config p in
      if not config.enabled
      then disable synced
      else switch_to_best (first_reachable ranked) config synced
