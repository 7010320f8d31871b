-- ===== src/Observability/Emit.antt =====
-- The metrics that the parts of the proxy record, in the order of the code: internal/proxy/handler.go,
-- internal/waf/engine.go, internal/ratelimit/limiter.go and internal/middleware/logging.go. The calls
-- of the error handler inside the reverse proxy are not seen here.
use open_flare.Prelude.{ℕ, List, [], ◌∷◌, ◌++◌, Option, none, some, inl, inr, if◌then◌else◌}
use open_flare.Prelude.Int.{ℤ}
use open_flare.Text.{Bytes, codes}
use open_flare.Http.{Request}
use open_flare.Config.{RootConfig, RateLimitRule}
use open_flare.Regexp.{RegexpEngine}
use open_flare.Net.{NetPackage}
use open_flare.Security.{set_forwarded_headers}
use open_flare.RateLimit.{
  TokenBucket, Limiter, LimiterEntry, take_from, build_key, applies, is_exempt, extract_client_ip,
}
use open_flare.Cache.Backend.{Entry, MemoryBackend, get, set, stats}
use open_flare.Cache.Policy.{Policy, is_response_storable}
use open_flare.Waf.{Engine, CompiledRule, decide, match_conditions, extract_ip}
use open_flare.Proxy.Handler.{
  Handler, request_key, is_bypassed, shared_fetch, inspect, normalize_request, waf_check,
  limit_check,
}
use open_flare.Proxy.Branches.{filled}
use open_flare.Proxy.Replies.{Origin, fetch_from_origin, is_built_in}
use open_flare.Observability.{Metrics, Call, inc, observe, set_gauge}

module _ (ms : Metrics) (rx : RegexpEngine) (net : NetPackage) (tb : TokenBucket) where
  -- The loop of `Evaluate`: each rule that matches, up to the first whose action is of a known kind.
  unfoldable pub evaluate_rules_calls :
      Bytes → ℕ → List (CompiledRule rx net) → Request → Bytes → Option net.Ip → List Call
  evaluate_rules_calls mode limit [] r body client_ip = []
  evaluate_rules_calls mode limit (rule ∷ rules) r body client_ip =
      let later = evaluate_rules_calls mode limit rules r body client_ip in
      let m = match_conditions rx net limit rule.conditions r body client_ip in
      if m.0
      then inc ms.waf_decisions (rule.config.id ∷ rule.config.action.kind ∷ [])
        ∷ elim (decide mode rule.config m.1) [ none ↦ later | some d ↦ [] ]
      else later

  unfoldable pub evaluate_calls : Option (Engine rx net) → Request → Bytes → List Call
  unfolding evaluate_rules_calls
  evaluate_calls none r body = []
  evaluate_calls (some e) r body =
      evaluate_rules_calls e.mode e.max_body_inspect e.rules r body
        (extract_ip rx net r.remote_addr)

  -- The loop of `Allow`: every rule that applies, up to the first that denies the request.
  unfoldable pub allow_rules_calls :
      ℕ → Request → Bytes → List RateLimitRule → List (Bytes × LimiterEntry tb) → List Call
  allow_rules_calls now r ip [] m = []
  allow_rules_calls now r ip (rule ∷ rules) m =
      let t = take_from tb now (build_key rule r ip) rule m in
      let passed_over = allow_rules_calls now r ip rules m in
      let allowed = allow_rules_calls now r ip rules t.1 in
      if applies rule r
      then if t.0
        then inc ms.rate_limit_total (rule.id ∷ codes "allow" ∷ []) ∷ allowed
        else inc ms.rate_limit_total (rule.id ∷ codes "deny" ∷ []) ∷ []
      else passed_over

  unfoldable pub allow_calls : ℕ → Option (Limiter tb) → Request → List Call
  unfolding allow_rules_calls
  allow_calls now none r = []
  allow_calls now (some l) r =
      let ip = extract_client_ip net r.remote_addr in
      let calls = allow_rules_calls now r ip l.rules l.limiters in
      if is_exempt net l.exemptions ip r.path then [] else calls

  abbrev operation : Bytes → Call
  operation op = inc ms.cache_operations (op ∷ [])

  abbrev upstream_error_call : RootConfig → Bytes → Call
  upstream_error_call cfg kind = inc ms.upstream_errors (cfg.routing.default_upstream ∷ kind ∷ [])

  -- `proxyToOrigin`, and the exchange of `fetchFromOrigin`.
  abbrev pub proxy_calls : RootConfig → List Call
  proxy_calls cfg = observe ms.upstream_duration (cfg.routing.default_upstream ∷ []) ∷ []

  unfoldable pub fetch_calls : Origin → RootConfig → Request → List Call
  fetch_calls origin cfg r =
      observe ms.upstream_duration (cfg.routing.default_upstream ∷ [])
      ∷ elim (origin.round_trip r) [
        | none ↦ upstream_error_call cfg (codes "roundtrip_error") ∷ []
        | some resp ↦ []
      ]

  -- The store decision; nothing is recorded if `Set` never returns.
  unfoldable pub store_calls : ℕ → Policy rx → Bytes → Request → Entry → MemoryBackend → List Call
  store_calls now policy key r e m =
      if (is_response_storable policy.cfg e.status_code e.headers).0
      then elim (set key (filled rx now policy key r e) m) [
        | none ↦ []
        | some m' ↦
            operation (codes "store")
            ∷ set_gauge ms.cache_size_bytes (stats m').size_bytes
            ∷ set_gauge ms.cache_entries (stats m').entries
            ∷ []
      ]
      else []

  unfoldable pub shared_fetch_calls :
      Origin → ℕ → RootConfig → Policy rx → Bytes → Request → MemoryBackend → List Call
  shared_fetch_calls origin now cfg policy key r m =
      let (m', found) = get now key m in
      elim found [
        | some e ↦ []
        | none ↦ fetch_calls origin cfg r ++ elim (fetch_from_origin origin cfg r) [
          | none ↦ []
          | some e ↦ store_calls now policy key r e m'
        ]
      ]

  -- The answer to a miss, by the result of the call.
  unfoldable pub answer_calls : RootConfig → Option (Option Entry × MemoryBackend) → List Call
  answer_calls cfg none = []
  answer_calls cfg (some (none, m)) = upstream_error_call cfg (codes "fetch_error") ∷ []
  answer_calls cfg (some (some e, m)) = []

  -- `handleWithCache`.
  unfoldable pub handle_with_cache_calls : Origin → ℕ → Request → Handler rx net tb → List Call
  handle_with_cache_calls origin now r h =
      let key = request_key r in
      let (m, found) = get now key h.cache_backend in
      if is_bypassed rx net tb h r
      then operation (codes "bypass") ∷ proxy_calls h.cfg
      else elim found [
        | some e ↦ operation (codes "hit") ∷ []
        | none ↦
            operation (codes "miss")
            ∷ (shared_fetch_calls origin now h.cfg h.cache_policy key r m
                ++ answer_calls h.cfg
                    (shared_fetch rx net tb origin now h.cfg h.cache_policy key r m))
      ]

  -- The stages behind the firewall.
  unfoldable pub limit_and_serve_calls : Origin → ℕ → Request → Handler rx net tb → List Call
  limit_and_serve_calls origin now r h =
      let (denied, limiter) = limit_check rx net tb now h.rate_limiter r in
      let h' : Handler rx net tb = record h { rate_limiter = limiter } in
      let forwarded = set_forwarded_headers net r h.cfg.security.trust_x_forwarded_for in
      allow_calls now h.rate_limiter r ++ elim denied [
        | some rule ↦ []
        | none ↦
            if h.cfg.cache.enabled
            then handle_with_cache_calls origin now forwarded h'
            else proxy_calls h.cfg
      ]

  -- `ServeHTTP`.
  unfoldable pub serve_http_calls : Origin → ℕ → Bytes → Request → Handler rx net tb → List Call
  serve_http_calls origin now request_id r h =
      let (body, rest) = inspect h.cfg r in
      let r' = normalize_request rest in
      if is_built_in r.path
      then []
      else evaluate_calls h.waf_engine r' body
        ++ elim (waf_check rx net tb request_id h.waf_engine r' body) [
          | inl reply ↦ []
          | inr passed ↦ limit_and_serve_calls origin now passed h
        ]

  -- `AccessLog`, behind the handler; `itoa` is strconv.Itoa.
  unfoldable pub access_calls : (ℤ → Bytes) → Request → ℤ → List Call
  access_calls itoa r status =
      inc ms.requests_total (r.method ∷ itoa status ∷ r.path ∷ [])
      ∷ observe ms.request_duration (r.method ∷ r.path ∷ [])
      ∷ []
