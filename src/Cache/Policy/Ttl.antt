-- ===== src/Cache/Policy/Ttl.antt =====
-- The order of priority in the calculation of the TTL.
use open_flare.Prelude.{
  ◌≡◌, ◌⊎◌, inl, inr, Bool, true, false, ◌&&◌, List, [], ◌∷◌, Option, none, some, arith, Bool-cases,
}
use open_flare.Prelude.Int.{ℤ, pos, ltb_ℤ}
use mathlib.Core.Path.{subst}
use open_flare.Text.{Bytes, codes}
use open_flare.Http.{Headers, header_get}
use open_flare.Config.{CacheRule, rule_ttl, default_ttl}
use open_flare.Regexp.{RegexpEngine}
use open_flare.Cache.Policy.{
  CompiledCacheRule, Policy, match_rule_path, rule_for_ttl, origin_ttl, determine_ttl,
  parse_max_age, parse_s_max_age,
}

module _ (rx : RegexpEngine) where
  -- A rule that gives a TTL for the path, and the first such rule of a list.
  abbrev pub gives_ttl : Bytes → CompiledCacheRule rx → Bool
  gives_ttl path cr = match_rule_path rx cr path && ltb_ℤ (pos 0) cr.rule.cache.ttl_seconds

  pub data First (path : Bytes) : List (CompiledCacheRule rx) → Option CacheRule → Type 0 where
    no_rule : First path [] none
    this :
        {cr : CompiledCacheRule rx} {crs : List (CompiledCacheRule rx)}
        → gives_ttl path cr ≡ true
        → First path (cr ∷ crs) (some cr.rule)
    later :
        {cr : CompiledCacheRule rx} {crs : List (CompiledCacheRule rx)} {found : Option CacheRule}
        → gives_ttl path cr ≡ false
        → First path crs found
        → First path (cr ∷ crs) found

  -- The TTL by priority: a rule, `s-maxage`, `max-age`, the default.
  pub data IsTtl (p : Policy rx) (path : Bytes) (headers : Headers) : ℤ → Type 0 where
    by_rule :
        {r : CacheRule} → First path p.compiled (some r) → IsTtl p path headers (rule_ttl r.cache)
    by_s_max_age :
        First path p.compiled none
        → p.cfg.respect_origin_cc ≡ true
        → ltb_ℤ (pos 0) (parse_s_max_age (header_get headers (codes "Cache-Control"))) ≡ true
        → IsTtl p path headers (parse_s_max_age (header_get headers (codes "Cache-Control")))
    by_max_age :
        First path p.compiled none
        → p.cfg.respect_origin_cc ≡ true
        → ltb_ℤ (pos 0) (parse_s_max_age (header_get headers (codes "Cache-Control"))) ≡ false
        → ltb_ℤ (pos 0) (parse_max_age (header_get headers (codes "Cache-Control"))) ≡ true
        → IsTtl p path headers (parse_max_age (header_get headers (codes "Cache-Control")))
    by_default :
        First path p.compiled none
        → (p.cfg.respect_origin_cc ≡ false)
          ⊎ ((ltb_ℤ (pos 0) (parse_s_max_age (header_get headers (codes "Cache-Control"))) ≡ false)
              × (ltb_ℤ (pos 0) (parse_max_age (header_get headers (codes "Cache-Control")))
                  ≡ false))
        → IsTtl p path headers (default_ttl p.cfg)

  rule_for_ttl-First :
      (crs : List (CompiledCacheRule rx)) (path : Bytes) → First path crs (rule_for_ttl rx crs path)
  unfolding rule_for_ttl
  rule_for_ttl-First [] path = no_rule
  rule_for_ttl-First (cr ∷ crs) path = elim (Bool-cases (gives_ttl path cr)) [
    | inl h ↦ rw h (this h)
    | inr h ↦ rw h (later h (rule_for_ttl-First crs path))
  ]

  without_rule :
      (p : Policy rx) (path : Bytes) (headers : Headers)
      → First path p.compiled none
      → IsTtl p path headers (origin_ttl p.cfg (header_get headers (codes "Cache-Control")))
  unfolding origin_ttl
  without_rule p path headers f =
      let cc = header_get headers (codes "Cache-Control") in
      let by = λ (t : ℤ) (e : t ≡ origin_ttl p.cfg cc) (h : IsTtl p path headers t).
        subst (IsTtl p path headers) e h in
      elim (Bool-cases p.cfg.respect_origin_cc) [
        | inr off ↦ by (default_ttl p.cfg) (ground arith) (by_default f (inl off))
        | inl on ↦ elim (Bool-cases (ltb_ℤ (pos 0) (parse_s_max_age cc))) [
          | inl s ↦ by (parse_s_max_age cc) (ground arith) (by_s_max_age f on s)
          | inr s ↦ elim (Bool-cases (ltb_ℤ (pos 0) (parse_max_age cc))) [
            | inl m ↦ by (parse_max_age cc) (ground arith) (by_max_age f on s m)
            | inr m ↦ by (default_ttl p.cfg) (ground arith) (by_default f (inr (s, m)))
          ]
        ]
      ]

  ttl_from : Policy rx → Headers → Option CacheRule → ℤ
  ttl_from p headers (some r) = rule_ttl r.cache
  ttl_from p headers none = origin_ttl p.cfg (header_get headers (codes "Cache-Control"))

  with_rule :
      (p : Policy rx) (path : Bytes) (headers : Headers) (found : Option CacheRule)
      → First path p.compiled found
      → IsTtl p path headers (ttl_from p headers found)
  unfolding ttl_from
  with_rule p path headers none f = without_rule p path headers f
  with_rule p path headers (some r) f = by_rule f

  determine_ttl-from :
      (p : Policy rx) (path : Bytes) (headers : Headers)
      → ttl_from p headers (rule_for_ttl rx p.compiled path) ≡ determine_ttl rx p path headers
  unfolding ttl_from determine_ttl
  determine_ttl-from p path headers = ground arith

  -- The TTL follows the order of priority: the first rule that matches the path and has a positive
  -- number of seconds; a positive `s-maxage`, then a positive `max-age` of the origin, where the
  -- configuration respects them; the default in every other case, also for a `max-age` of zero.
  pub determine_ttl-IsTtl :
      (p : Policy rx) (path : Bytes) (headers : Headers)
      → IsTtl p path headers (determine_ttl rx p path headers)
  determine_ttl-IsTtl p path headers =
      subst (IsTtl p path headers) (determine_ttl-from p path headers) (
        with_rule p path headers (rule_for_ttl rx p.compiled path)
          (rule_for_ttl-First p.compiled path))
