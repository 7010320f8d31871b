-- ===== src/Cache/Policy/Eligible.antt =====
-- internal/cache/policy.go: eligible requests and storable responses.
use open_flare.Prelude.{
  ℕ, ◌≤◌, ◌<◌, ◌≡◌, ◌↔◌, ◌⊎◌, inl, inr, refl, true, false, List, [], ◌∷◌, arith, Bool-cases,
}
use open_flare.Text.{codes, contains, str_eq, to_lower}
use open_flare.Text.Laws.{str_eq_iff}
use open_flare.Http.{Headers, header_get, Request}
use open_flare.Config.{CacheConfig}
use open_flare.Regexp.{RegexpEngine}
use open_flare.Cache.Policy.{
  CompiledCacheRule, Policy, match_rule, check_rules, is_request_cacheable, is_response_storable,
}

-- What a storable response is.
pub record IsStorable (cfg : CacheConfig) (status_code : ℕ) (headers : Headers) : Type 0 where
  pub least : 200 ≤ status_code
  pub below : status_code < 300
  pub no_store :
      contains (to_lower (header_get headers (codes "Cache-Control"))) (codes "no-store") ≡ false
  pub not_private :
      contains (to_lower (header_get headers (codes "Cache-Control"))) (codes "private") ≡ false
  pub no_cache :
      contains (to_lower (header_get headers (codes "Cache-Control"))) (codes "no-cache") ≡ false
  pub no_cookie :
      cfg.never_store_on_set_cookie ≡ true → header_get headers (codes "Set-Cookie") ≡ []

is_response_storable_sound :
    (cfg : CacheConfig) (status_code : ℕ) (headers : Headers)
    → (is_response_storable cfg status_code headers).0 ≡ true
    → IsStorable cfg status_code headers
unfolding is_response_storable
is_response_storable_sound cfg status_code headers h = ground arith

is_response_storable_complete :
    (cfg : CacheConfig) (status_code : ℕ) (headers : Headers)
    → IsStorable cfg status_code headers
    → (is_response_storable cfg status_code headers).0 ≡ true
unfolding is_response_storable
is_response_storable_complete cfg status_code headers s = ground arith

-- A response is storable exactly if its status is 2xx, its Cache-Control has none of no-store,
-- private and no-cache in any case, and, where the configuration says so, it sets no cookie.
pub is_response_storable_iff :
    (cfg : CacheConfig) (status_code : ℕ) (headers : Headers)
    → ((is_response_storable cfg status_code headers).0 ≡ true) ↔ IsStorable cfg status_code headers
is_response_storable_iff cfg status_code headers = (
  is_response_storable_sound cfg status_code headers,
  is_response_storable_complete cfg status_code headers,
)

module _ (rx : RegexpEngine) where
  -- The first rule that matches the request, if there is one, makes it eligible.
  pub data Allows (r : Request) : List (CompiledCacheRule rx) → Type 0 where
    no_rule : Allows r []
    eligible :
        {cr : CompiledCacheRule rx} {crs : List (CompiledCacheRule rx)}
        → match_rule rx cr r ≡ true
        → cr.rule.cache.eligible ≡ true
        → Allows r (cr ∷ crs)
    skipped :
        {cr : CompiledCacheRule rx} {crs : List (CompiledCacheRule rx)}
        → match_rule rx cr r ≡ false
        → Allows r crs
        → Allows r (cr ∷ crs)

  pub record IsCacheable (p : Policy rx) (r : Request) : Type 0 where
    pub method : (r.method ≡ codes "GET") ⊎ (r.method ≡ codes "HEAD")
    pub no_authorization :
        p.cfg.bypass_on_authorization ≡ true → header_get r.headers (codes "Authorization") ≡ []
    pub no_cookie : p.cfg.bypass_on_cookie ≡ true → header_get r.headers (codes "Cookie") ≡ []
    pub allowed : Allows r p.compiled

  check_rules_sound :
      (crs : List (CompiledCacheRule rx)) (r : Request)
      → (check_rules rx crs r).0 ≡ true
      → Allows r crs
  unfolding check_rules
  check_rules_sound [] r h = no_rule
  check_rules_sound (cr ∷ crs) r h = elim (Bool-cases (match_rule rx cr r)) [
    | inl m ↦ eligible m (ground arith)
    | inr m ↦ skipped m (check_rules_sound crs r (ground arith))
  ]

  check_rules_complete :
      (r : Request) {crs : List (CompiledCacheRule rx)}
      → Allows r crs
      → (check_rules rx crs r).0 ≡ true
  unfolding check_rules
  check_rules_complete r no_rule = refl
  check_rules_complete r (eligible m e) = ground arith
  check_rules_complete r (skipped m a) = ground (arith, check_rules_complete r a)

  is_request_cacheable_parts :
      (p : Policy rx) (r : Request)
      → (is_request_cacheable rx p r).0 ≡ true
      → ((str_eq r.method (codes "GET") ≡ true) ⊎ (str_eq r.method (codes "HEAD") ≡ true))
        × (p.cfg.bypass_on_authorization ≡ true → header_get r.headers (codes "Authorization") ≡ [])
        × (p.cfg.bypass_on_cookie ≡ true → header_get r.headers (codes "Cookie") ≡ [])
        × ((check_rules rx p.compiled r).0 ≡ true)
  unfolding is_request_cacheable
  is_request_cacheable_parts p r h = ground arith

  is_request_cacheable_sound :
      (p : Policy rx) (r : Request) → (is_request_cacheable rx p r).0 ≡ true → IsCacheable p r
  is_request_cacheable_sound p r h =
      let (m, a, c, rules) = is_request_cacheable_parts p r h in
      record {
        method =
            ground
              (arith, m, str_eq_iff r.method (codes "GET"), str_eq_iff r.method (codes "HEAD"));
        no_authorization = a;
        no_cookie = c;
        allowed = check_rules_sound p.compiled r rules;
      }

  is_request_cacheable_complete :
      (p : Policy rx) (r : Request) → IsCacheable p r → (is_request_cacheable rx p r).0 ≡ true
  unfolding is_request_cacheable
  is_request_cacheable_complete p r s = ground (
    arith,
    check_rules_complete r s.allowed,
    str_eq_iff r.method (codes "GET"),
    str_eq_iff r.method (codes "HEAD"),
  )

  -- A request is cacheable exactly if it is a GET or a HEAD, carries neither of the headers that the
  -- configuration bypasses on, and the first rule that matches it, if there is one, is eligible.
  pub is_request_cacheable_iff :
      (p : Policy rx) (r : Request) → ((is_request_cacheable rx p r).0 ≡ true) ↔ IsCacheable p r
  is_request_cacheable_iff p r = (is_request_cacheable_sound p r, is_request_cacheable_complete p r)
