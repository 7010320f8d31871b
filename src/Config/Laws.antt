-- ===== src/Config/Laws.antt =====
-- internal/config/config.go: what the validation and the defaults check and fill in.
use open_flare.Prelude.{
  ◌≡◌, ◌≢◌, refl, ◌⊎◌, inl, inr, Bool, true, false, List, [], ◌∷◌, none, arith, All, Bool-cases,
  Option-cases, if◌then◌else◌,
}
use mathlib.Core.List.{Memᴰ}
use open_flare.Prelude.Int.{ℤ, pos}
use open_flare.Text.{Bytes, str_eq}
use open_flare.Text.Laws.{str_eq_iff}
use open_flare.Config.{
  UpstreamConfig, RootConfig, check_upstreams, validate, apply_defaults, load, ConfigError,
}

abbrev pub IsListed : Bytes → List UpstreamConfig → Type 0
IsListed d us = (u : UpstreamConfig) × Memᴰ u us × (u.name ≡ d)

abbrev pub IsNamed : UpstreamConfig → Type 0
IsNamed u = (u.name ≢ []) × (u.base_url ≢ [])

-- Every upstream is named and has a base URL, the default upstream is one of them, and an enabled
-- admin API has a token.
pub record IsUsable (c : RootConfig) : Type 0 where
  pub named : All IsNamed c.upstreams
  pub default_listed : IsListed c.routing.default_upstream c.upstreams
  pub guarded : c.admin_api.enabled ≡ true → c.admin_api.auth_token ≢ []

-- One round of the loop that does not stop.
check_upstreams_step :
    (d : Bytes) (found : Bool) (u : UpstreamConfig) (us : List UpstreamConfig)
    → check_upstreams d found (u ∷ us) ≡ inr true
    → IsNamed u × (check_upstreams d (if str_eq u.name d then true else found) us ≡ inr true)
unfolding check_upstreams
check_upstreams_step d found u us h = ground arith

found_step :
    (d : Bytes) (found : Bool) (u : UpstreamConfig) (us : List UpstreamConfig)
    → ((if str_eq u.name d then true else found) ≡ true) ⊎ IsListed d us
    → (found ≡ true) ⊎ IsListed d (u ∷ us)
found_step d found u us (inl h) = elim (Bool-cases (str_eq u.name d)) [
  | inl same ↦ inr (u, Memᴰ.head refl, (str_eq_iff _ _).0 same)
  | inr other ↦ inl (ground arith)
]
found_step d found u us (inr (v, m, e)) = inr (v, Memᴰ.tail m, e)

check_upstreams_sound :
    (d : Bytes) (found : Bool) (us : List UpstreamConfig)
    → check_upstreams d found us ≡ inr true
    → All IsNamed us × ((found ≡ true) ⊎ IsListed d us)
unfolding check_upstreams
check_upstreams_sound d found [] h = (tt, ground arith)
check_upstreams_sound d found (u ∷ us) h =
    let (named, h') = check_upstreams_step d found u us h in
    let (rest, found') = check_upstreams_sound d (if str_eq u.name d then true else found) us h' in
    ((named, rest), found_step d found u us found')

validate_parts :
    (c : RootConfig)
    → validate c ≡ none
    → (check_upstreams c.routing.default_upstream false c.upstreams ≡ inr true)
      × (c.admin_api.enabled ≡ true → c.admin_api.auth_token ≢ [])
unfolding validate
validate_parts c h = ground arith

pub validate-IsUsable : (c : RootConfig) → validate c ≡ none → IsUsable c
validate-IsUsable c h =
    let (checked, guarded) = validate_parts c h in
    let (named, listed) =
      check_upstreams_sound c.routing.default_upstream false c.upstreams checked in
    record { named = named; default_listed = from_found listed; guarded = guarded }
  where
    from_found :
        ((false ≡ true) ⊎ IsListed c.routing.default_upstream c.upstreams)
        → IsListed c.routing.default_upstream c.upstreams
    from_found (inl e) = cc
    from_found (inr l) = l

-- A field that `load` leaves at zero would be one without a default.
abbrev pub IsNonzero : ℤ → Type 0
IsNonzero n = n ≢ pos 0

pub record IsComplete (c : RootConfig) : Type 0 where
  pub read_timeout : IsNonzero c.server.read_timeout_ms
  pub write_timeout : IsNonzero c.server.write_timeout_ms
  pub idle_timeout : IsNonzero c.server.idle_timeout_ms
  pub max_header : IsNonzero c.server.max_header_bytes
  pub shutdown_timeout : IsNonzero c.server.graceful_shutdown_timeout_ms
  pub max_inspect : IsNonzero c.security.max_body_inspect_bytes
  pub max_body : IsNonzero c.security.max_request_body_bytes
  pub max_entries : IsNonzero c.cache.max_entries
  pub max_bytes : IsNonzero c.cache.max_bytes
  pub ttl : IsNonzero c.cache.default_ttl_seconds
  pub addr : c.server.listen_addr ≢ []
  pub admin_addr : c.server.admin_listen_addr ≢ []
  pub level : c.logging.level ≢ []
  pub format : c.logging.format ≢ []

apply_defaults-IsComplete : (c : RootConfig) → IsComplete (apply_defaults c)
unfolding apply_defaults
apply_defaults-IsComplete c = ground arith

-- Loading succeeds only with a usable configuration: every upstream has a name and a base URL, the
-- default upstream is listed, an enabled admin API has a token, and no field that has a default is
-- left at zero or empty.
pub load-IsUsable :
    (file : ConfigError ⊎ RootConfig) (c : RootConfig)
    → load file ≡ inr c
    → IsUsable c × IsComplete c
unfolding load
load-IsUsable (inl e) c h = cc
load-IsUsable (inr c0) c h = elim (Option-cases (validate (apply_defaults c0))) [
  | inl fine ↦
      ground (arith, validate-IsUsable (apply_defaults c0) fine, apply_defaults-IsComplete c0)
  | inr (e, bad) ↦ absurd (ground arith)
]
