-- ===== src/Cache/Policy.antt =====
-- internal/cache/policy.go: which requests may be answered from the cache, which responses may be
-- stored, and for how long. The `*http.Request` is the record of `Http`.
pub mod Directive
pub mod Eligible
pub mod Ttl
use open_flare.Prelude.{
  ℕ, ◌+◌, ◌-◌, Bool, true, false, not, ◌&&◌, ◌||◌, List, [], ◌∷◌, ◌++◌, Option, none, some, ltb,
  leb, ◌==◌, if◌then◌else◌, length, is_nil, any, take, drop,
}
use open_flare.Prelude.Int.{ℤ, pos, negsuc, ◌+ℤ◌, ◌*ℤ◌, wrap64, ltb_ℤ, leb_ℤ}
use open_flare.Text.{
  Bytes, codes, str_eq, is_empty, has_prefix, index, contains, index_where, to_lower, equal_fold,
}
use open_flare.Http.{Headers, header_get, Request}
use open_flare.Config.{CacheConfig, CacheRule, duration, second, default_ttl, rule_ttl}
use open_flare.Regexp.{RegexpEngine}

-- The loop over the digits in `parseCCDirective`; `seconds` is an int, which wraps around.
unfoldable pub read_seconds : ℤ → Bytes → ℤ
unfolding ◌+ℤ◌ ◌*ℤ◌ wrap64
read_seconds seconds [] = seconds
read_seconds seconds (c ∷ s) =
    if leb b'0' c && leb c b'9'
    then read_seconds (wrap64 (seconds *ℤ pos 10 +ℤ pos (c - b'0'))) s
    else seconds

-- `val[:end]`, up to the first comma or space.
unfoldable pub cut_value : Bytes → Bytes
unfolding index_where
cut_value val = elim (index_where (λ c. c == b',' || c == b' ') val) [
  | none ↦ val
  | some end ↦ take end val
]

unfoldable pub parse_cc_directive : Bytes → Bytes → ℤ
unfolding read_seconds cut_value to_lower index duration
parse_cc_directive cc directive = elim (index (to_lower cc) directive) [
  | none ↦ pos 0
  | some idx ↦
      let seconds =
        read_seconds (pos 0) (cut_value (drop (idx + length directive) (to_lower cc))) in
      if leb_ℤ seconds (pos 0) then pos 0 else duration seconds second
]

unfoldable pub parse_s_max_age : Bytes → ℤ
unfolding parse_cc_directive
parse_s_max_age cc = parse_cc_directive cc (codes "s-maxage=")

unfoldable pub parse_max_age : Bytes → ℤ
unfolding parse_cc_directive
parse_max_age cc = parse_cc_directive cc (codes "max-age=")

-- Why a request or a response is refused; the code's texts of the reasons.
pub data Reason : Type 0 where
  fine : Reason
  method_not_cacheable authorization_header cookie_header : Reason
  rule : Bytes → Reason
  non_2xx_status : Reason
  cache_control_no_store cache_control_private cache_control_no_cache : Reason
  set_cookie_header : Reason

unfoldable pub is_response_storable : CacheConfig → ℕ → Headers → Bool × Reason
is_response_storable cfg status_code headers =
    let cc = to_lower (header_get headers (codes "Cache-Control")) in
    if ltb status_code 200 || leb 300 status_code
    then (false, non_2xx_status)
    else if contains cc (codes "no-store")
    then (false, cache_control_no_store)
    else if contains cc (codes "private")
    then (false, cache_control_private)
    else if contains cc (codes "no-cache")
    then (false, cache_control_no_cache)
    else if cfg.never_store_on_set_cookie
        && not (is_empty (header_get headers (codes "Set-Cookie")))
    then (false, set_cookie_header)
    else (true, fine)

-- What the origin's `Cache-Control` gives, or the default.
unfoldable pub origin_ttl : CacheConfig → Bytes → ℤ
origin_ttl cfg cc =
    if cfg.respect_origin_cc
    then if ltb_ℤ (pos 0) (parse_s_max_age cc)
      then parse_s_max_age cc
      else if ltb_ℤ (pos 0) (parse_max_age cc)
      then parse_max_age cc
      else default_ttl cfg
    else default_ttl cfg

module _ (rx : RegexpEngine) where
  open rx use {Regex, compile, match_string}

  pub record CompiledCacheRule : Type 0 where
    pub rule : CacheRule
    pub path_regex : Option Regex

  pub record Policy : Type 0 where
    pub cfg : CacheConfig
    pub rules : List CacheRule
    pub compiled : List CompiledCacheRule

  -- A rule's expression that does not compile is dropped, as the code ignores the error.
  compile_rule : CacheRule → CompiledCacheRule
  compile_rule r = record {
    rule = r;
    path_regex = if is_empty r.path_regex then none else compile r.path_regex;
  }

  compile_rules : List CacheRule → List CompiledCacheRule
  compile_rules [] = []
  compile_rules (r ∷ rs) = compile_rule r ∷ compile_rules rs

  unfoldable pub new_policy : CacheConfig → List CacheRule → Policy
  unfolding compile_rules compile_rule
  new_policy cfg rules = record { cfg = cfg; rules = rules; compiled = compile_rules rules }

  unfoldable pub match_rule_path : CompiledCacheRule → Bytes → Bool
  unfolding str_eq has_prefix
  match_rule_path cr path =
      if not (is_empty cr.rule.path_exact)
      then str_eq path cr.rule.path_exact
      else if not (is_empty cr.rule.path_prefix)
      then has_prefix path cr.rule.path_prefix
      else elim cr.path_regex [ none ↦ false | some re ↦ match_string re path ]

  unfoldable pub match_rule_method : CompiledCacheRule → Bytes → Bool
  unfolding any equal_fold
  match_rule_method cr method =
      if is_nil cr.rule.methods then true else any (λ m. equal_fold m method) cr.rule.methods

  unfoldable pub match_rule : CompiledCacheRule → Request → Bool
  unfolding match_rule_path match_rule_method
  match_rule cr r = match_rule_path cr r.path && match_rule_method cr r.method

  -- The loop over the rules: the first rule that matches decides.
  unfoldable pub check_rules : List CompiledCacheRule → Request → Bool × Reason
  check_rules [] r = (true, fine)
  check_rules (cr ∷ crs) r =
      let later = check_rules crs r in
      if match_rule cr r
      then if cr.rule.cache.eligible then (true, fine) else (false, rule cr.rule.id)
      else later

  unfoldable pub is_request_cacheable : Policy → Request → Bool × Reason
  is_request_cacheable p r =
      if not (str_eq r.method (codes "GET")) && not (str_eq r.method (codes "HEAD"))
      then (false, method_not_cacheable)
      else if p.cfg.bypass_on_authorization
          && not (is_empty (header_get r.headers (codes "Authorization")))
      then (false, authorization_header)
      else if p.cfg.bypass_on_cookie && not (is_empty (header_get r.headers (codes "Cookie")))
      then (false, cookie_header)
      else check_rules p.compiled r

  -- The first rule that matches the path and has a positive number of seconds.
  unfoldable pub rule_for_ttl : List CompiledCacheRule → Bytes → Option CacheRule
  rule_for_ttl [] path = none
  rule_for_ttl (cr ∷ crs) path =
      let later = rule_for_ttl crs path in
      if match_rule_path cr path && ltb_ℤ (pos 0) cr.rule.cache.ttl_seconds
      then some cr.rule
      else later

  unfoldable pub determine_ttl : Policy → Bytes → Headers → ℤ
  determine_ttl p path headers = elim (rule_for_ttl p.compiled path) [
    | some r ↦ rule_ttl r.cache
    | none ↦ origin_ttl p.cfg (header_get headers (codes "Cache-Control"))
  ]
