-- ===== src/Config/Editor.antt =====
-- The configuration menu: what it shows of a setting and what it makes of the text that is entered,
-- of tui/config_editor.rs. How a socket address is read and written is an argument.
pub mod Texts
pub mod Lists
pub mod RoundTrip
pub mod Keeps
pub mod Subscriptions
use Prim.Native.Char.{Char, code}
use Prim.Native.String.{◌++◌ as str_append}
use v2ray_subscription_manag.Prelude.{
  ℕ, Bool, true, false, not, ◌&&◌, ◌||◌, String, List, [], ◌∷◌, map, Option, none, some, any, leb,
  ltb, ◌==◌, if◌then◌else◌, unwrap_or, u64_max, u32_max, ◌+◌, ◌-◌, ◌*◌,
}
use v2ray_subscription_manag.Prelude.Decimal.{decimal}
use v2ray_subscription_manag.Text.{
  trim, eq_ignore_ascii_case, is_one_of, is_empty_text, parse_unsigned, split,
}
use v2ray_subscription_manag.Config.{AppConfig, ProbeMode, active, tcp}
use v2ray_subscription_manag.Config.Validate.{
  Checked, ok, err, is_bad_status, normalize_sharing_token,
}

abbrev pub u16_max : ℕ
u16_max = 65535

pub data ConfigKey : Type 0 where
  bind top_n refresh_seconds encoded_subscription prioritize_stability return_configs_asap
        scan_all_configs fetch_timeout fetch_concurrency max_subscription_bytes use_cache_only
        emergency_config probe_mode sing_box_path connect_timeout active_timeout startup_timeout
        probe_concurrency probe_batch_size probe_process_concurrency test_url accepted_statuses
        download_url download_limit clean_offline_days token_required token proxy_enabled proxy_port
        proxy_discoverable proxy_health_check_url proxy_health_check_interval reset_defaults :
      ConfigKey

pub label : ConfigKey → String
label bind = "bind"
label top_n = "top_n"
label refresh_seconds = "refresh_seconds"
label encoded_subscription = "encoded_subscription"
label prioritize_stability = "prioritize_stability"
label return_configs_asap = "return_configs_asap"
label scan_all_configs = "scan_all_configs"
label fetch_timeout = "fetch_timeout_ms"
label fetch_concurrency = "fetch_concurrency"
label max_subscription_bytes = "max_subscription_bytes"
label use_cache_only = "use_cache_only"
label emergency_config = "emergency_config"
label probe_mode = "probe.mode"
label sing_box_path = "probe.sing_box_path"
label connect_timeout = "probe.connect_timeout_ms"
label active_timeout = "probe.active_timeout_ms"
label startup_timeout = "probe.startup_timeout_ms"
label probe_concurrency = "probe.concurrency"
label probe_batch_size = "probe.batch_size"
label probe_process_concurrency = "probe.process_concurrency"
label test_url = "probe.test_url"
label accepted_statuses = "probe.accepted_statuses"
label download_url = "probe.download_url"
label download_limit = "probe.download_bytes_limit"
label clean_offline_days = "clean_offlines_after_days"
label token_required = "sharing.require_token"
label token = "sharing.token"
label proxy_enabled = "proxy.enabled"
label proxy_port = "proxy.port"
label proxy_discoverable = "proxy.discoverable"
label proxy_health_check_url = "proxy.health_check_url"
label proxy_health_check_interval = "proxy.health_check_interval_seconds"
label reset_defaults = "reset to defaults"

pub guide : ConfigKey → String
guide bind = "host:port, e.g. 0.0.0.0:27141"
guide top_n = "positive number, e.g. 10"
guide refresh_seconds = "seconds between refreshes"
guide encoded_subscription = "true/false for base64 feed"
guide prioritize_stability = "true favors repeat working configs; false favors short wins"
guide return_configs_asap = "true publishes working configs immediately"
guide scan_all_configs = "true scans every config; false stops after enough working configs"
guide fetch_timeout = "fetch timeout in ms"
guide fetch_concurrency = "parallel fetch count"
guide max_subscription_bytes = "max bytes per subscription"
guide use_cache_only = "true uses cached subscriptions only"
guide emergency_config = "null or direct share link"
guide probe_mode = "active or tcp"
guide sing_box_path = "full path to sing-box executable"
guide connect_timeout = "connect timeout in ms"
guide active_timeout = "active probe timeout in ms"
guide startup_timeout = "sing-box startup timeout ms"
guide probe_concurrency = "parallel probe count"
guide probe_batch_size = "configs per sing-box process; auto/null"
guide probe_process_concurrency = "parallel sing-box processes; auto/null"
guide test_url = "URL used for active probe"
guide accepted_statuses = "HTTP codes, e.g. 204,200"
guide download_url = "speedtest URL or off/null"
guide download_limit = "speedtest byte limit"
guide clean_offline_days = "days before offline configs are removed"
guide token_required = "true/false for URL token"
guide token = "token text, empty allowed"
guide proxy_enabled = "true/false to enable persistent proxy"
guide proxy_port = "mixed SOCKS5/HTTP proxy port"
guide proxy_discoverable = "true binds 0.0.0.0 + firewall for LAN"
guide proxy_health_check_url = "URL tested through the proxy"
guide proxy_health_check_interval = "seconds between health checks"
guide reset_defaults = "type shown code to reset"

-- Why `str::parse` refuses digits.
abbrev pub digits_error : ℕ → ℕ → String → String
digits_error max value String.[] = ""
digits_error max value (String.◌∷◌ c s) =
    let next = value * 10 + (code c - 48) in
    let more = digits_error max next s in
    if not (leb 48 (code c) && leb (code c) 57)
    then "invalid digit found in string"
    else if ltb max next
    then "number too large to fit in target type"
    else more

-- The text of a `ParseIntError`.
abbrev pub unsigned_error : ℕ → String → String
unsigned_error max String.[] = "cannot parse integer from empty string"
unsigned_error max (String.◌∷◌ c s) =
    if code c == 43 && not (is_empty_text s)
    then digits_error max 0 s
    else digits_error max 0 (String.◌∷◌ c s)

-- `value.parse()?`
unfoldable pub number : ℕ → String → Checked ℕ
number max value = elim (parse_unsigned max value) [
  | none ↦ err (unsigned_error max value)
  | some n ↦ ok n
]

unfoldable pub bool_value : String → Checked Bool
bool_value value =
    if is_one_of ("true" ∷ "on" ∷ "yes" ∷ "1" ∷ []) value
    then ok true
    else if is_one_of ("false" ∷ "off" ∷ "no" ∷ "0" ∷ []) value
    then ok false
    else err "expected true/false"

unfoldable pub positive : ℕ → String → String → Checked ℕ
positive max name value = elim (parse_unsigned max value) [
  | none ↦ err (str_append name " must be a number")
  | some n ↦ if ltb 0 n then ok n else err (str_append name " must be greater than 0")
]

unfoldable pub probe_mode_of : String → Checked ProbeMode
probe_mode_of value =
    if is_one_of ("active" ∷ []) value
    then ok active
    else if is_one_of ("tcp" ∷ []) value
    then ok tcp
    else err "probe.mode must be active or tcp"

unfoldable pub required : String → String → Checked String
required name value =
    if is_empty_text value then err (str_append name " cannot be empty") else ok value

-- The parts as numbers, or the error of the first that is none.
unfoldable pub parse_parts : List String → Checked (List ℕ)
parse_parts [] = ok []
parse_parts (part ∷ parts) = elim (number u16_max (trim part)) [
  | err e ↦ err e
  | ok n ↦ elim (parse_parts parts) [ err e ↦ err e | ok ns ↦ ok (n ∷ ns) ]
]

unfoldable pub statuses : String → Checked (List ℕ)
statuses value = elim (parse_parts (split 44 value)) [
  | err e ↦ err e
  | ok parsed ↦
      if any is_bad_status parsed
      then err "accepted_statuses must be HTTP codes 100..599"
      else ok parsed
]

-- Whether a text ends with a character, and the text without its last character.
abbrev pub ends_with : ℕ → String → Bool
ends_with q String.[] = false
ends_with q (String.◌∷◌ c s) = if is_empty_text s then code c == q else ends_with q s

abbrev pub drop_last : String → String
drop_last String.[] = ""
drop_last (String.◌∷◌ c s) = if is_empty_text s then "" else String.◌∷◌ c (drop_last s)

-- A text of two characters or more between quotes of one kind.
abbrev pub is_quoted : String → Bool
is_quoted String.[] = false
is_quoted (String.◌∷◌ c s) = code c == 34 && ends_with 34 s || code c == 39 && ends_with 39 s

abbrev pub without_quotes : String → String
without_quotes String.[] = ""
without_quotes (String.◌∷◌ c s) = drop_last s

-- normalize_path of sing_box.rs
unfoldable pub normalize_path : String → String
normalize_path value =
    let trimmed = trim value in if is_quoted trimmed then trim (without_quotes trimmed) else trimmed

unfoldable pub optional_string : String → String
optional_string value =
    let path = normalize_path value in if eq_ignore_ascii_case path "null" then "" else path

unfoldable pub optional : String → Option String
optional value =
    let text = optional_string value in
    if is_one_of ("" ∷ "off" ∷ "none" ∷ []) text then none else some text

-- `positive(value, label).map(Some)`
unfoldable pub optional_positive : String → String → Checked (Option ℕ)
optional_positive name value =
    let parsed : Checked (Option ℕ) = elim (positive u64_max name value) [
      | err e ↦ err e
      | ok n ↦ ok (some n)
    ] in
    if is_one_of ("" ∷ "auto" ∷ "off" ∷ "none" ∷ "null" ∷ []) value then ok none else parsed

abbrev pub text_of_bool : Bool → String
text_of_bool true = "true"
text_of_bool false = "false"

abbrev pub text_of_mode : ProbeMode → String
text_of_mode active = "active"
text_of_mode tcp = "tcp"

abbrev pub text_or_auto : Option ℕ → String
text_or_auto none = "auto"
text_or_auto (some n) = decimal n

-- `join(",")`
abbrev pub join_from : String → List String → String
join_from part [] = part
join_from part (next ∷ parts) = str_append part (str_append "," (join_from next parts))

abbrev pub join : List String → String
join [] = ""
join (part ∷ parts) = join_from part parts

-- The setting that is entered, or the error.
abbrev pub store {ℓ κ} : {A : Type ℓ} {B : Type κ} → Checked A → (A → B) → Checked B
store (ok a) f = ok (f a)
store (err e) f = err e

module _ {Address : Type 0} (parse_address : String → Option Address)
    (print_address : Address → String) (generated : String) where
  -- `value.parse::<SocketAddr>()?`
  abbrev pub address : String → Checked Address
  address value = elim (parse_address value) [
    | none ↦ err "invalid socket address syntax"
    | some a ↦ ok a
  ]

  unfoldable pub value : AppConfig Address → ConfigKey → String
  value c bind = print_address c.bind
  value c top_n = decimal c.top_n
  value c refresh_seconds = decimal c.refresh_seconds
  value c encoded_subscription = text_of_bool c.encoded_subscription
  value c prioritize_stability = text_of_bool c.prioritize_stability
  value c return_configs_asap = text_of_bool c.return_configs_asap
  value c scan_all_configs = text_of_bool c.scan_all_configs
  value c fetch_timeout = decimal c.fetch_timeout_ms
  value c fetch_concurrency = decimal c.fetch_concurrency
  value c max_subscription_bytes = decimal c.max_subscription_bytes
  value c use_cache_only = text_of_bool c.use_cache_only
  value c emergency_config = unwrap_or c.emergency_config ""
  value c probe_mode = text_of_mode c.probe.mode
  value c sing_box_path = c.probe.sing_box_path
  value c connect_timeout = decimal c.probe.connect_timeout_ms
  value c active_timeout = decimal c.probe.active_timeout_ms
  value c startup_timeout = decimal c.probe.startup_timeout_ms
  value c probe_concurrency = decimal c.probe.concurrency
  value c probe_batch_size = text_or_auto c.probe.batch_size
  value c probe_process_concurrency = text_or_auto c.probe.process_concurrency
  value c test_url = c.probe.test_url
  value c accepted_statuses = join (map decimal c.probe.accepted_statuses)
  value c download_url = unwrap_or c.probe.download_url "off"
  value c download_limit = decimal c.probe.download_bytes_limit
  value c clean_offline_days = decimal c.clean_offlines_after_days
  value c token_required = text_of_bool c.sharing.require_token
  value c token = c.sharing.token
  value c proxy_enabled = text_of_bool c.proxy.enabled
  value c proxy_port = decimal c.proxy.port
  value c proxy_discoverable = text_of_bool c.proxy.discoverable
  value c proxy_health_check_url = c.proxy.health_check_url
  value c proxy_health_check_interval = decimal c.proxy.health_check_interval_seconds
  value c reset_defaults = "keeps subscriptions"

  unfoldable pub apply : AppConfig Address → ConfigKey → String → Checked (AppConfig Address)
  apply c bind raw = store (address (trim raw)) (λ x. record c { bind = x })
  apply c top_n raw =
      store (positive u64_max (label top_n) (trim raw)) (λ x. record c { top_n = x })
  apply c refresh_seconds raw =
      store (number u64_max (trim raw)) (λ x. record c { refresh_seconds = x })
  apply c encoded_subscription raw =
      store (bool_value (trim raw)) (λ x. record c { encoded_subscription = x })
  apply c prioritize_stability raw =
      store (bool_value (trim raw)) (λ x. record c { prioritize_stability = x })
  apply c return_configs_asap raw =
      store (bool_value (trim raw)) (λ x. record c { return_configs_asap = x })
  apply c scan_all_configs raw =
      store (bool_value (trim raw)) (λ x. record c { scan_all_configs = x })
  apply c fetch_timeout raw =
      store (positive u64_max (label fetch_timeout) (trim raw))
        (λ x. record c { fetch_timeout_ms = x })
  apply c fetch_concurrency raw =
      store (positive u64_max (label fetch_concurrency) (trim raw))
        (λ x. record c { fetch_concurrency = x })
  apply c max_subscription_bytes raw =
      store (positive u64_max (label max_subscription_bytes) (trim raw))
        (λ x. record c { max_subscription_bytes = x })
  apply c use_cache_only raw = store (bool_value (trim raw)) (λ x. record c { use_cache_only = x })
  apply c emergency_config raw =
      store (ok (optional (trim raw))) (λ x. record c { emergency_config = x })
  apply c probe_mode raw =
      store (probe_mode_of (trim raw)) (λ x. record c { probe = record c.probe { mode = x } })
  apply c sing_box_path raw =
      store (ok (optional_string (trim raw)))
        (λ x. record c { probe = record c.probe { sing_box_path = x; sing_box_path_auto = false } })
  apply c connect_timeout raw =
      store (positive u64_max (label connect_timeout) (trim raw))
        (λ x. record c { probe = record c.probe { connect_timeout_ms = x } })
  apply c active_timeout raw =
      store (positive u64_max (label active_timeout) (trim raw))
        (λ x. record c { probe = record c.probe { active_timeout_ms = x } })
  apply c startup_timeout raw =
      store (positive u64_max (label startup_timeout) (trim raw))
        (λ x. record c { probe = record c.probe { startup_timeout_ms = x } })
  apply c probe_concurrency raw =
      store (positive u64_max (label probe_concurrency) (trim raw))
        (λ x. record c { probe = record c.probe { concurrency = x } })
  apply c probe_batch_size raw =
      store (optional_positive (label probe_batch_size) (trim raw))
        (λ x. record c { probe = record c.probe { batch_size = x } })
  apply c probe_process_concurrency raw =
      store (optional_positive (label probe_process_concurrency) (trim raw))
        (λ x. record c { probe = record c.probe { process_concurrency = x } })
  apply c test_url raw =
      store (required (label test_url) (trim raw))
        (λ x. record c { probe = record c.probe { test_url = x } })
  apply c accepted_statuses raw =
      store (statuses (trim raw))
        (λ x. record c { probe = record c.probe { accepted_statuses = x } })
  apply c download_url raw =
      store (ok (optional (trim raw)))
        (λ x. record c { probe = record c.probe { download_url = x } })
  apply c download_limit raw =
      store (positive u64_max (label download_limit) (trim raw))
        (λ x. record c { probe = record c.probe { download_bytes_limit = x } })
  apply c clean_offline_days raw =
      store (positive u32_max (label clean_offline_days) (trim raw))
        (λ x. record c { clean_offlines_after_days = x })
  apply c token_required raw =
      store (bool_value (trim raw))
        (λ x. record c { sharing = record c.sharing { require_token = x } })
  apply c token raw =
      store (ok (normalize_sharing_token generated (trim raw)))
        (λ x. record c { sharing = record c.sharing { token = x } })
  apply c proxy_enabled raw =
      store (bool_value (trim raw)) (λ x. record c { proxy = record c.proxy { enabled = x } })
  apply c proxy_port raw =
      store (positive u16_max (label proxy_port) (trim raw))
        (λ x. record c { proxy = record c.proxy { port = x } })
  apply c proxy_discoverable raw =
      store (bool_value (trim raw)) (λ x. record c { proxy = record c.proxy { discoverable = x } })
  apply c proxy_health_check_url raw =
      store (required (label proxy_health_check_url) (trim raw))
        (λ x. record c { proxy = record c.proxy { health_check_url = x } })
  apply c proxy_health_check_interval raw =
      store (positive u64_max (label proxy_health_check_interval) (trim raw))
        (λ x. record c { proxy = record c.proxy { health_check_interval_seconds = x } })
  apply c reset_defaults raw = ok c
