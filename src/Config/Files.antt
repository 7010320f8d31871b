-- ===== src/Config/Files.antt =====
-- internal/config/config.go: the loaders. What reading a file gives is an argument, and so is the
-- decoding of its YAML (gopkg.in/yaml.v3); `none` is an error of either.
use open_flare.Prelude.{List, Option, none, some, ◌⊎◌, inl, inr}
use open_flare.Text.{Bytes}
use open_flare.Config.{
  RootConfig, WafConfig, CacheRule, RateLimitConfig, ConfigError, read_failed, parse_failed, load,
}

pub record CacheRulesConfig : Type 0 where
  pub rules : List CacheRule

-- The decoding into each kind of configuration.
pub record Yaml : Type 0 where
  pub root : Bytes → Option RootConfig
  pub waf : Bytes → Option WafConfig
  pub cache_rules : Bytes → Option CacheRulesConfig
  pub rate_limit : Bytes → Option RateLimitConfig

-- What the four loaders do first.
unfoldable pub read_and_parse {ℓ} :
    {A : Type ℓ} → Option Bytes → (Bytes → Option A) → ConfigError ⊎ A
read_and_parse none unmarshal = inl read_failed
read_and_parse (some contents) unmarshal = elim (unmarshal contents) [
  | none ↦ inl parse_failed
  | some c ↦ inr c
]

unfoldable pub load_config : Yaml → Option Bytes → ConfigError ⊎ RootConfig
load_config yaml file = load (read_and_parse file yaml.root)

unfoldable pub load_waf_config : Yaml → Option Bytes → ConfigError ⊎ WafConfig
load_waf_config yaml file = read_and_parse file yaml.waf

unfoldable pub load_cache_rules_config : Yaml → Option Bytes → ConfigError ⊎ CacheRulesConfig
load_cache_rules_config yaml file = read_and_parse file yaml.cache_rules

unfoldable pub load_rate_limit_config : Yaml → Option Bytes → ConfigError ⊎ RateLimitConfig
load_rate_limit_config yaml file = read_and_parse file yaml.rate_limit
