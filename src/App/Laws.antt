-- ===== src/App/Laws.antt =====
-- internal/app/app.go: what a started program has, and why one does not start.
use open_flare.Prelude.{
  ◌≡◌, ◌≢◌, ◌⊎◌, inl, inr, refl, sym, ◌∙◌, ap, true, List, [], ◌∷◌, none, some, Bool-cases,
  Option-cases, ⊎-cases, if-true, if-false,
}
use mathlib.Core.List.{Memᴰ}
use open_flare.Prelude.Int.{pos_part}
use open_flare.Text.{Bytes, str_eq}
use open_flare.Text.Laws.{str_eq_iff}
use open_flare.Config.{RootConfig, UpstreamConfig, ConfigError}
use open_flare.Config.Files.{load_config}
use open_flare.Config.Laws.{IsUsable, IsComplete, load-IsUsable}
use open_flare.Regexp.{RegexpEngine}
use open_flare.Net.{NetPackage}
use open_flare.RateLimit.{TokenBucket, new_limiter}
use open_flare.Cache.Backend.{new_memory_backend}
use open_flare.Waf.{Engine, new_engine}
use open_flare.Proxy.Setup.{find_upstream, new_handler, invalid_url}
use open_flare.Server.{new_transport}
use open_flare.App.{
  Environment, StartError, load_config_error, init_waf_error, init_handler_error, root_config,
  waf_config, rate_limit_config, or_zero, App, start_handler, start_app,
}

-- A listed upstream is found, and what is found is listed.
find_upstream-IsListed :
    (d : Bytes) (u : UpstreamConfig) (us : List UpstreamConfig)
    → Memᴰ u us
    → u.name ≡ d
    → (v : UpstreamConfig) × (find_upstream d us ≡ some v) × Memᴰ v us × (v.name ≡ d)
unfolding find_upstream
find_upstream-IsListed d u [] m same = elim m [ ]
find_upstream-IsListed d u (x ∷ us) (Memᴰ.head e) same =
    let named : x.name ≡ d = ap (λ (y : UpstreamConfig). y.name) (sym e) ∙ same in
    (x, if-true (str_eq x.name d) _ _ ((str_eq_iff x.name d).1 named), Memᴰ.head refl, named)
find_upstream-IsListed d u (x ∷ us) (Memᴰ.tail m) same = elim (Bool-cases (str_eq x.name d)) [
  | inl p ↦ (x, if-true (str_eq x.name d) _ _ p, Memᴰ.head refl, (str_eq_iff x.name d).0 p)
  | inr p ↦
      let (v, found, listed, named) = find_upstream-IsListed d u us m same in
      (v, if-false (str_eq x.name d) _ _ p ∙ found, Memᴰ.tail listed, named)
]

module _ {U : Type 0} (env : Environment U) where
  root_config-IsUsable : (c : RootConfig) → root_config env ≡ inr c → IsUsable c × IsComplete c
  unfolding root_config load_config
  root_config-IsUsable c h = load-IsUsable _ c h

  -- The default upstream of the configuration, whose base URL is parsed.
  root_config-upstream :
      (c : RootConfig)
      → root_config env ≡ inr c
      → (u : UpstreamConfig) × (find_upstream c.routing.default_upstream c.upstreams ≡ some u)
        × Memᴰ u c.upstreams
        × (u.name ≡ c.routing.default_upstream)
  root_config-upstream c h =
      let (v, listed, named) = (root_config-IsUsable c h).0.default_listed in
      find_upstream-IsListed c.routing.default_upstream v c.upstreams listed named

  module _ (rx : RegexpEngine) (net : NetPackage) (tb : TokenBucket) where
    -- What was started: a usable and complete configuration, which the handler has too; a new cache
    -- with its limits; the transport and the URL of the default upstream, which is listed; a firewall
    -- and a rate limiter; and a token, if the admin API is enabled.
    pub record IsReady (app : App rx net tb U) : Type 0 where
      pub usable : IsUsable app.cfg
      pub complete : IsComplete app.cfg
      pub same_cfg : app.proxy_handler.cfg ≡ app.cfg
      pub cache :
          app.proxy_handler.cache_backend
          ≡ new_memory_backend app.cfg.cache.max_entries app.cfg.cache.max_bytes
      pub upstream : UpstreamConfig
      pub listed : Memᴰ upstream app.cfg.upstreams
      pub named : upstream.name ≡ app.cfg.routing.default_upstream
      pub transport : app.transport ≡ new_transport upstream
      pub target : env.parse_url upstream.base_url ≡ some app.target_url
      pub firewall : (e : Engine rx net) × (app.proxy_handler.waf_engine ≡ some e)
      pub limiter : app.proxy_handler.rate_limiter ≡ some (new_limiter tb (rate_limit_config env))
      pub token : app.cfg.admin_api.enabled ≡ true → app.admin_token ≢ []

    -- Why the program does not start.
    pub data Failure : StartError → Type 0 where
      unloaded : (e : ConfigError) → root_config env ≡ inl e → Failure (load_config_error e)
      uncompiled :
          (c : RootConfig) (text : Bytes)
          → root_config env ≡ inr c
          → new_engine rx net (waf_config env) (pos_part c.security.max_body_inspect_bytes)
            ≡ inl text
          → Failure (init_waf_error text)
      unparsed :
          (c : RootConfig) (u : UpstreamConfig)
          → root_config env ≡ inr c
          → Memᴰ u c.upstreams
          → u.name ≡ c.routing.default_upstream
          → env.parse_url u.base_url ≡ none
          → Failure (init_handler_error (invalid_url u.base_url))

    pub data Outcome : StartError ⊎ App rx net tb U → Type 0 where
      failure : (e : StartError) → Failure e → Outcome (inl e)
      success : (app : App rx net tb U) → IsReady app → Outcome (inr app)

    start_handler-Outcome :
        (c : RootConfig) (engine : Engine rx net)
        → root_config env ≡ inr c
        → Outcome (start_handler rx net tb env c engine)
    unfolding start_handler new_handler
    start_handler-Outcome c engine loaded =
        let (u, found, listed, named) = root_config-upstream c loaded in
        let (usable, complete) = root_config-IsUsable c loaded in
        elim (Option-cases (env.parse_url u.base_url)) [
          | inl p ↦
              rw (found, p, new_handler, start_handler)
                (failure _ (unparsed c u loaded listed named p))
          | inr (url, p) ↦
              rw (found, p, new_handler, start_handler)
                (success _ (record {
                  usable = usable;
                  complete = complete;
                  same_cfg = refl;
                  cache = refl;
                  upstream = u;
                  listed = listed;
                  named = named;
                  transport = ap (λ o. new_transport (or_zero o)) found;
                  target = p;
                  firewall = (engine, refl);
                  limiter = refl;
                  token = usable.guarded;
                }))
        ]

    -- The program starts with a usable and complete configuration, an empty cache with its limits, the
    -- default upstream, a firewall, a rate limiter and a token for an enabled admin API; or it fails,
    -- because the configuration cannot be loaded, an expression or an address of the firewall's rules
    -- does not compile, or the base URL of the default upstream does not parse. Nothing else fails: the
    -- default upstream is always found, and no file but that of the configuration has to exist.
    pub start_app-Outcome : Outcome (start_app rx net tb env)
    unfolding start_app
    start_app-Outcome = elim (⊎-cases (root_config env)) [
      | inl (e, p) ↦ rw (p, start_app) (failure _ (unloaded e p))
      | inr (c, p) ↦
          elim (⊎-cases
            (new_engine rx net (waf_config env) (pos_part c.security.max_body_inspect_bytes))) [
              | inl (text, q) ↦ rw (p, q, start_app) (failure _ (uncompiled c text p q))
              | inr (engine, q) ↦ rw (p, q, start_app) (start_handler-Outcome c engine p)
            ]
    ]
