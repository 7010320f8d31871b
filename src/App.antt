-- ===== src/App.antt =====
-- internal/app/app.go, `Run`: the start of the program, and its end. The environment variables, the
-- files, their YAML, the parsing of a URL and what happens to the running servers are arguments.
pub mod Laws
pub mod Serving
pub mod Shutdown
use open_flare.Prelude.{
  Bool, true, false, List, [], ◌∷◌, Option, none, some, ◌⊎◌, inl, inr, if◌then◌else◌,
}
use open_flare.Prelude.Int.{ℤ, pos_part}
use open_flare.Text.{Bytes, codes, is_empty}
use open_flare.Config.{
  RootConfig, UpstreamConfig, CacheRule, ConfigError, WafConfig, RateLimitConfig,
}
use open_flare.Config.Durations.{graceful_shutdown_timeout}
use open_flare.Config.Files.{
  Yaml, CacheRulesConfig, load_config, load_waf_config, load_cache_rules_config,
  load_rate_limit_config,
}
use open_flare.Regexp.{RegexpEngine}
use open_flare.Net.{NetPackage}
use open_flare.RateLimit.{TokenBucket, new_limiter}
use open_flare.Cache.Backend.{new_memory_backend}
use open_flare.Cache.Policy.{new_policy}
use open_flare.Waf.{Engine, new_engine}
use open_flare.Proxy.Handler.{Handler}
use open_flare.Proxy.Setup.{SetupError, find_upstream, new_handler}
use open_flare.Server.{HttpServer, Transport, new_public_server, new_admin_server, new_transport}

-- `read_file` gives `none` for an error, `parse_url` for an error of `url.Parse`.
pub record Environment (U : Type 0) : Type 0 where
  pub getenv : Bytes → Bytes
  pub read_file : Bytes → Option Bytes
  pub yaml : Yaml
  pub parse_url : Bytes → Option U

pub data StartError : Type 0 where
  load_config_error : ConfigError → StartError
  init_waf_error : Bytes → StartError
  init_handler_error : SetupError → StartError

abbrev pub zero_upstream : UpstreamConfig
zero_upstream = record {
  name = [];
  base_url = [];
  connect_timeout_ms = ℤ.pos 0;
  response_header_timeout_ms = ℤ.pos 0;
  max_idle_conns = ℤ.pos 0;
  max_idle_conns_per_host = ℤ.pos 0;
}

-- The value of a variable, or a default where it is empty.
unfoldable pub env_or : (Bytes → Bytes) → Bytes → Bytes → Bytes
env_or getenv name default = if is_empty (getenv name) then default else getenv name

-- An error is logged, and the value is nil.
abbrev pub ok_or_nil {ℓ} : {A : Type ℓ} → ConfigError ⊎ A → Option A
ok_or_nil (inl e) = none
ok_or_nil (inr c) = some c

abbrev pub rules_of : Option CacheRulesConfig → List CacheRule
rules_of none = []
rules_of (some c) = c.rules

abbrev pub or_zero : Option UpstreamConfig → UpstreamConfig
or_zero none = zero_upstream
or_zero (some u) = u

module _ {U : Type 0} (env : Environment U) where
  unfoldable pub root_config : ConfigError ⊎ RootConfig
  unfolding env_or
  root_config = load_config env.yaml (
      env.read_file (env_or env.getenv (codes "OPENFLARE_CONFIG") (codes "configs/proxy.dev.yaml")))

  unfoldable pub waf_config : Option WafConfig
  unfolding env_or
  waf_config = ok_or_nil (
      load_waf_config env.yaml (
        env.read_file
          (env_or env.getenv (codes "OPENFLARE_WAF_RULES") (codes "configs/rules.waf.yaml"))))

  unfoldable pub cache_rules : List CacheRule
  unfolding env_or
  cache_rules = rules_of (
      ok_or_nil (
        load_cache_rules_config env.yaml (
          env.read_file (
            env_or env.getenv (codes "OPENFLARE_CACHE_RULES") (codes "configs/cache-rules.yaml")))))

  unfoldable pub rate_limit_config : Option RateLimitConfig
  unfolding env_or
  rate_limit_config = ok_or_nil (
      load_rate_limit_config env.yaml (
        env.read_file (
          env_or env.getenv (codes "OPENFLARE_RATE_LIMIT_RULES")
            (codes "configs/rate-limit.yaml"))))

module _ (rx : RegexpEngine) (net : NetPackage) (tb : TokenBucket) where
  -- What is started. The admin API works on the cache of the handler.
  pub record App (U : Type 0) : Type 0 where
    pub cfg : RootConfig
    pub proxy_handler : Handler rx net tb
    pub target_url : U
    pub transport : Transport
    pub admin_token : Bytes
    pub public_server : HttpServer
    pub admin_server : HttpServer
    pub waf_mode : Bytes

  -- Behind the loading of the configuration and the start of the firewall.
  unfoldable pub start_handler :
      {U : Type 0} → Environment U → RootConfig → Engine rx net → StartError ⊎ App U
  start_handler env cfg engine =
      elim (new_handler rx net tb env.parse_url cfg
        (new_memory_backend cfg.cache.max_entries cfg.cache.max_bytes)
        (new_policy rx cfg.cache (cache_rules env)) (some engine)
        (some (new_limiter tb (rate_limit_config env)))) [
          | inl e ↦ inl (init_handler_error e)
          | inr (handler, url) ↦ inr (record {
            cfg = cfg;
            proxy_handler = handler;
            target_url = url;
            transport =
                new_transport (or_zero (find_upstream cfg.routing.default_upstream cfg.upstreams));
            admin_token = cfg.admin_api.auth_token;
            public_server = new_public_server cfg.server;
            admin_server = new_admin_server cfg.server;
            waf_mode = engine.mode;
          })
        ]

  -- `Run` up to the start of the servers.
  unfoldable pub start_app : {U : Type 0} → Environment U → StartError ⊎ App U
  unfolding start_handler
  start_app env = elim (root_config env) [
    | inl e ↦ inl (load_config_error e)
    | inr cfg ↦
        elim (new_engine rx net (waf_config env) (pos_part cfg.security.max_body_inspect_bytes)) [
          | inl text ↦ inl (init_waf_error text)
          | inr engine ↦ start_handler env cfg engine
        ]
  ]

-- What `Run` waits for, and what it does then.
pub data Event : Type 0 where
  signalled : Event
  public_failed admin_failed : Bytes → Event

pub data Action : Type 0 where
  shutdown_public shutdown_admin : ℤ → Action

pub data RunError : Type 0 where
  public_server_error admin_server_error : Bytes → RunError

-- The error that `Run` returns, `none` for nil, and the shutdowns with their timeout.
unfoldable pub finish : RootConfig → Event → Option RunError × List Action
unfolding graceful_shutdown_timeout
finish cfg signalled =
    let timeout = graceful_shutdown_timeout cfg.server in
    (
      none,
      shutdown_public timeout ∷ (if cfg.admin_api.enabled then shutdown_admin timeout ∷ [] else []),
    )
finish cfg (public_failed e) = (some (public_server_error e), [])
finish cfg (admin_failed e) = (some (admin_server_error e), [])
