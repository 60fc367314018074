-- ===== src/Config.antt =====
-- The configuration: AppConfig and its parts, of config.rs. A `SocketAddr` is a parameter of the
-- code that uses it.
pub mod Validate
pub mod Valid
pub mod Accepts
pub mod Normal
pub mod Editor
use v2ray_subscription_manag.Prelude.{ℕ, Bool, String, List, Option}

pub data ProbeMode : Type 0 where
  active tcp : ProbeMode

pub record SubscriptionSource : Type 0 where
  pub name : String
  pub url : String
  pub enabled : Bool
  pub priority : ℕ

pub record ProbeConfig : Type 0 where
  pub mode : ProbeMode
  pub sing_box_path : String
  pub connect_timeout_ms : ℕ
  pub active_timeout_ms : ℕ
  pub startup_timeout_ms : ℕ
  pub concurrency : ℕ
  pub batch_size : Option ℕ
  pub process_concurrency : Option ℕ
  pub tcp_prefilter : Bool
  pub test_url : String
  pub accepted_statuses : List ℕ
  pub download_url : Option String
  pub download_bytes_limit : ℕ
  pub sing_box_path_auto : Bool

pub record SharingConfig : Type 0 where
  pub enabled : Bool
  pub require_token : Bool
  pub token : String

pub record ProxyConfig : Type 0 where
  pub enabled : Bool
  pub port : ℕ
  pub discoverable : Bool
  pub health_check_url : String
  pub health_check_interval_seconds : ℕ

pub record AppConfig (Address : Type 0) : Type 0 where
  pub bind : Address
  pub top_n : ℕ
  pub refresh_seconds : ℕ
  pub encoded_subscription : Bool
  pub prioritize_stability : Bool
  pub return_configs_asap : Bool
  pub scan_all_configs : Bool
  pub fetch_timeout_ms : ℕ
  pub fetch_concurrency : ℕ
  pub max_subscription_bytes : ℕ
  pub use_cache_only : Bool
  pub emergency_config : Option String
  pub clean_offlines_after_days : ℕ
  pub probe : ProbeConfig
  pub sharing : SharingConfig
  pub proxy : ProxyConfig
  pub geoip_db_path : Option String
  pub subscriptions : List SubscriptionSource
