-- ===== src/Observability/Counts.antt =====
-- internal/proxy/handler.go: how often the cache operations are counted among the calls of a request.
use open_flare.Prelude.{
  ℕ, suc, ◌+◌, ◌≡◌, refl, Bool, false, ◌&&◌, List, [], ◌∷◌, ◌++◌, Option, none, some, inl, inr,
  arith, if-split, if◌then◌else◌, Option-cases,
}
use open_flare.Text.{Bytes, codes, str_eq}
use open_flare.Http.{Request}
use open_flare.Config.{RootConfig, RateLimitRule}
use open_flare.Regexp.{RegexpEngine}
use open_flare.Net.{NetPackage}
use open_flare.RateLimit.{
  TokenBucket, Limiter, LimiterEntry, take_from, build_key, applies, is_exempt, extract_client_ip,
}
use open_flare.Cache.Backend.{Entry, MemoryBackend}
use open_flare.Waf.{Engine, CompiledRule, decide, match_conditions, extract_ip}
use open_flare.Proxy.Replies.{Origin}
use open_flare.Observability.{Call, inc, observe, set_gauge, new_metrics}
use open_flare.Observability.Emit.{
  evaluate_rules_calls, evaluate_calls, allow_rules_calls, allow_calls, fetch_calls, answer_calls,
}

-- The call counts a cache operation with this label.
abbrev pub is_operation : Bytes → Call → Bool
is_operation op (inc m (v ∷ [])) =
    str_eq m.name (codes "openflare_cache_operations_total") && str_eq v op
is_operation op (inc m []) = false
is_operation op (inc m (v ∷ w ∷ vs)) = false
is_operation op (observe m vs) = false
is_operation op (set_gauge m n) = false

unfoldable pub counted : Bytes → List Call → ℕ
unfolding str_eq
counted op [] = 0
counted op (c ∷ cs) = if is_operation op c then suc (counted op cs) else counted op cs

pub counted-append :
    (op : Bytes) (xs ys : List Call) → counted op (xs ++ ys) ≡ counted op xs + counted op ys
unfolding counted
counted-append op [] ys = omega arith
counted-append op (c ∷ xs) ys = ground (arith, counted-append op xs ys)

-- Calls that count no cache operation.
abbrev pub CountsNone : List Call → Type 0
CountsNone cs = (op : Bytes) → counted op cs ≡ 0

pub CountsNone-append : (xs ys : List Call) → CountsNone xs → CountsNone ys → CountsNone (xs ++ ys)
CountsNone-append xs ys h k op = omega (arith, counted-append op xs ys, h op, k op)

module _ (rx : RegexpEngine) (net : NetPackage) (tb : TokenBucket) where
  evaluate_rules_calls-CountsNone :
      (mode : Bytes) (limit : ℕ) (rules : List (CompiledRule rx net)) (r : Request) (body : Bytes)
      (ip : Option net.Ip)
      → CountsNone (evaluate_rules_calls new_metrics rx net tb mode limit rules r body ip)
  unfolding evaluate_rules_calls counted
  evaluate_rules_calls-CountsNone mode limit [] r body ip op = refl
  evaluate_rules_calls-CountsNone mode limit (rule ∷ rules) r body ip op =
      let later = evaluate_rules_calls-CountsNone mode limit rules r body ip op in
      let m = match_conditions rx net limit rule.conditions r body ip in
      if-split (λ cs. counted op cs ≡ 0) m.0 _ _
        (λ _. elim (Option-cases (decide mode rule.config m.1)) [
          | inl e ↦ rw e later
          | inr (d, e) ↦ rw e refl
        ])
        (λ _. later)

  pub evaluate_calls-CountsNone :
      (engine : Option (Engine rx net)) (r : Request) (body : Bytes)
      → CountsNone (evaluate_calls new_metrics rx net tb engine r body)
  unfolding evaluate_calls counted
  evaluate_calls-CountsNone none r body op = refl
  evaluate_calls-CountsNone (some e) r body op =
      evaluate_rules_calls-CountsNone e.mode e.max_body_inspect e.rules r body
        (extract_ip rx net r.remote_addr) op

  allow_rules_calls-CountsNone :
      (now : ℕ) (r : Request) (ip : Bytes) (rules : List RateLimitRule)
      (m : List (Bytes × LimiterEntry tb))
      → CountsNone (allow_rules_calls new_metrics rx net tb now r ip rules m)
  unfolding allow_rules_calls counted
  allow_rules_calls-CountsNone now r ip [] m op = refl
  allow_rules_calls-CountsNone now r ip (rule ∷ rules) m op =
      let t = take_from tb now (build_key rule r ip) rule m in
      let is_none : List Call → Type 0 = λ cs. counted op cs ≡ 0 in
      if-split is_none (applies rule r) _ _
        (λ _.
          if-split is_none t.0 _ _ (λ _. allow_rules_calls-CountsNone now r ip rules t.1 op)
            (λ _. refl))
        (λ _. allow_rules_calls-CountsNone now r ip rules m op)

  pub allow_calls-CountsNone :
      (now : ℕ) (l : Option (Limiter tb)) (r : Request)
      → CountsNone (allow_calls new_metrics rx net tb now l r)
  unfolding allow_calls counted
  allow_calls-CountsNone now none r op = refl
  allow_calls-CountsNone now (some l) r op =
      let ip = extract_client_ip net r.remote_addr in
      if-split (λ cs. counted op cs ≡ 0) (is_exempt net l.exemptions ip r.path) [] _ (λ _. refl)
        (λ _. allow_rules_calls-CountsNone now r ip l.rules l.limiters op)

  pub fetch_calls-CountsNone :
      (origin : Origin) (cfg : RootConfig) (r : Request)
      → CountsNone (fetch_calls new_metrics rx net tb origin cfg r)
  unfolding fetch_calls counted
  fetch_calls-CountsNone origin cfg r op = elim (Option-cases (origin.round_trip r)) [
    | inl e ↦ rw e refl
    | inr (resp, e) ↦ rw e refl
  ]

  pub answer_calls-CountsNone :
      (cfg : RootConfig) (x : Option (Option Entry × MemoryBackend))
      → CountsNone (answer_calls new_metrics rx net tb cfg x)
  unfolding answer_calls counted
  answer_calls-CountsNone cfg none op = refl
  answer_calls-CountsNone cfg (some (none, m)) op = refl
  answer_calls-CountsNone cfg (some (some e, m)) op = refl
