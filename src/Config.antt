-- ===== src/Config.antt =====
-- internal/config/config.go: the configuration, its defaults and its validation. The outcome
-- of reading a file and decoding its YAML (gopkg.in/yaml.v3) is an argument of `load`.
pub mod Laws
pub mod Durations
pub mod Files
pub mod Errors
use open_flare.Prelude.{
  ℕ, ◌*◌, ◌^◌, Bool, true, false, not, ◌&&◌, List, [], ◌∷◌, Option, none, some, if◌then◌else◌, zero,
  suc, ◌⊎◌, inl, inr, is_nil,
}
use open_flare.Prelude.Int.{ℤ, pos, negsuc, ◌*ℤ◌, wrap64}
use open_flare.Text.{Bytes, codes, is_empty, str_eq}

-- `time.Duration` counts nanoseconds in an int64.
abbrev pub millisecond : ℤ
millisecond = pos 1000000

abbrev pub second : ℤ
second = pos 1000000000

unfoldable pub duration : ℤ → ℤ → ℤ
unfolding ◌*ℤ◌ wrap64
duration n unit = wrap64 (n *ℤ unit)

pub record ServerConfig : Type 0 where
  pub listen_addr : Bytes
  pub admin_listen_addr : Bytes
  pub read_timeout_ms : ℤ
  pub write_timeout_ms : ℤ
  pub idle_timeout_ms : ℤ
  pub max_header_bytes : ℤ
  pub graceful_shutdown_timeout_ms : ℤ

pub record UpstreamConfig : Type 0 where
  pub name : Bytes
  pub base_url : Bytes
  pub connect_timeout_ms : ℤ
  pub response_header_timeout_ms : ℤ
  pub max_idle_conns : ℤ
  pub max_idle_conns_per_host : ℤ

pub record SecurityConfig : Type 0 where
  pub trust_x_forwarded_for : Bool
  pub max_body_inspect_bytes : ℤ
  pub max_request_body_bytes : ℤ

pub record CacheConfig : Type 0 where
  pub enabled : Bool
  pub max_entries : ℤ
  pub max_bytes : ℤ
  pub default_ttl_seconds : ℤ
  pub respect_origin_cc : Bool
  pub bypass_on_cookie : Bool
  pub bypass_on_authorization : Bool
  pub never_store_on_set_cookie : Bool
  pub debug_headers : Bool

unfoldable pub default_ttl : CacheConfig → ℤ
unfolding duration
default_ttl c = duration c.default_ttl_seconds second

pub record AdminApiConfig : Type 0 where
  pub enabled : Bool
  pub auth_token : Bytes

pub record LoggingConfig : Type 0 where
  pub level : Bytes
  pub format : Bytes

pub record RoutingConfig : Type 0 where
  pub default_upstream : Bytes

-- The root.
pub record RootConfig : Type 0 where
  pub server : ServerConfig
  pub upstreams : List UpstreamConfig
  pub routing : RoutingConfig
  pub security : SecurityConfig
  pub cache : CacheConfig
  pub admin_api : AdminApiConfig
  pub logging : LoggingConfig

pub record WafCondition : Type 0 where
  pub path_regex : Bytes
  pub query_regex : Bytes
  pub body_regex : Bytes
  pub header_name : Bytes
  pub header_regex : Bytes
  pub ip_cidr : Bytes
  pub method : Bytes
  pub user_agent_regex : Bytes
  pub content_type : Bytes

pub record WafAction : Type 0 where
  pub kind : Bytes
  pub status_code : ℤ
  pub log : Bool

-- `match_any` is the field `Any` of the field `Match`.
pub record WafRule : Type 0 where
  pub id : Bytes
  pub enabled : Bool
  pub phase : Bytes
  pub description : Bytes
  pub match_any : List WafCondition
  pub action : WafAction

pub record WafConfig : Type 0 where
  pub mode : Bytes
  pub rules : List WafRule

pub record CacheRuleCache : Type 0 where
  pub eligible : Bool
  pub ttl_seconds : ℤ

unfoldable pub rule_ttl : CacheRuleCache → ℤ
unfolding duration
rule_ttl c = duration c.ttl_seconds second

pub record CacheRule : Type 0 where
  pub id : Bytes
  pub path_prefix : Bytes
  pub path_exact : Bytes
  pub path_regex : Bytes
  pub methods : List Bytes
  pub cache : CacheRuleCache

pub record RateLimitRule : Type 0 where
  pub id : Bytes
  pub key : Bytes
  pub path_prefix : Bytes
  pub rate : ℤ
  pub burst : ℤ
  pub enabled : Bool

pub record RateLimitExemptions : Type 0 where
  pub cidrs : List Bytes
  pub paths : List Bytes

pub record RateLimitConfig : Type 0 where
  pub rules : List RateLimitRule
  pub exemptions : RateLimitExemptions

-- A field left at its zero value takes the default.
abbrev pub int_or : ℤ → ℤ → ℤ
int_or (pos n) d = elim n [ zero ↦ d | suc k ↦ pos (suc k) ]
int_or (negsuc n) d = negsuc n

abbrev pub text_or : Bytes → Bytes → Bytes
text_or s d = if is_empty s then d else s

unfoldable pub apply_defaults : RootConfig → RootConfig
apply_defaults c = record c {
  server = record {
    listen_addr = text_or c.server.listen_addr (codes ":8080");
    admin_listen_addr = text_or c.server.admin_listen_addr (codes ":8081");
    read_timeout_ms = int_or c.server.read_timeout_ms (pos 5000);
    write_timeout_ms = int_or c.server.write_timeout_ms (pos 10000);
    idle_timeout_ms = int_or c.server.idle_timeout_ms (pos 60000);
    max_header_bytes = int_or c.server.max_header_bytes (pos (2 ^ 20));
    graceful_shutdown_timeout_ms = int_or c.server.graceful_shutdown_timeout_ms (pos 15000);
  };
  security = record c.security {
    max_body_inspect_bytes = int_or c.security.max_body_inspect_bytes (pos 65536);
    max_request_body_bytes = int_or c.security.max_request_body_bytes (pos (10 * 2 ^ 20));
  };
  cache = record c.cache {
    max_entries = int_or c.cache.max_entries (pos 5000);
    max_bytes = int_or c.cache.max_bytes (pos (256 * 2 ^ 20));
    default_ttl_seconds = int_or c.cache.default_ttl_seconds (pos 30);
  };
  logging = record {
    level = text_or c.logging.level (codes "info");
    format = text_or c.logging.format (codes "json");
  };
}

pub data ConfigError : Type 0 where
  no_upstreams : ConfigError
  no_default_upstream : ConfigError
  upstream_name_required : ConfigError
  base_url_required : Bytes → ConfigError
  default_upstream_not_found : Bytes → ConfigError
  auth_token_required : ConfigError
  read_failed : ConfigError
  parse_failed : ConfigError

-- The loop over the upstreams: an error stops it, otherwise it returns `found`.
unfoldable pub check_upstreams : Bytes → Bool → List UpstreamConfig → ConfigError ⊎ Bool
check_upstreams default found [] = inr found
check_upstreams default found (u ∷ us) =
    let rest = check_upstreams default (if str_eq u.name default then true else found) us in
    if is_empty u.name
    then inl upstream_name_required
    else if is_empty u.base_url
    then inl (base_url_required u.name)
    else rest

abbrev check_found : RootConfig → ConfigError ⊎ Bool → Option ConfigError
check_found c (inl e) = some e
check_found c (inr false) = some (default_upstream_not_found c.routing.default_upstream)
check_found c (inr true) =
    if c.admin_api.enabled && is_empty c.admin_api.auth_token
    then some auth_token_required
    else none

-- `none` is a nil error.
unfoldable pub validate : RootConfig → Option ConfigError
unfolding check_upstreams
validate c =
    if is_nil c.upstreams
    then some no_upstreams
    else if is_empty c.routing.default_upstream
    then some no_default_upstream
    else check_found c (check_upstreams c.routing.default_upstream false c.upstreams)

-- `Load`, with what reading and decoding the file gives.
unfoldable pub load : ConfigError ⊎ RootConfig → ConfigError ⊎ RootConfig
unfolding validate apply_defaults
load (inl e) = inl e
load (inr c) = elim (validate (apply_defaults c)) [ none ↦ inr (apply_defaults c) | some e ↦ inl e ]
