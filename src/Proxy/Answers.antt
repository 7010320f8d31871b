-- ===== src/Proxy/Answers.antt =====
-- internal/proxy/handler.go: the answer to a request, and the cache that it leaves.
use open_flare.Prelude.{
  ℕ, ◌≡◌, ◌⊎◌, refl, sym, Bool, true, false, [], Option, none, some, if◌then◌else◌, inl, inr,
  Bool-cases, Option-cases,
}
use mathlib.Core.Path.{subst}
use open_flare.Prelude.Int.{ℤ, pos, ltb_ℤ}
use open_flare.Text.{Bytes}
use open_flare.Http.{Request}
use open_flare.Config.{RootConfig, RateLimitRule}
use open_flare.Regexp.{RegexpEngine}
use open_flare.Net.{NetPackage}
use open_flare.Security.{set_forwarded_headers}
use open_flare.RateLimit.{TokenBucket}
use open_flare.Cache.Backend.{Entry, MemoryBackend, new_memory_backend, get, set}
use open_flare.Cache.Backend.Invariant.{IsValid}
use open_flare.Cache.Backend.Store.{set-IsStored}
use open_flare.Cache.Backend.Runs.{
  Reach, next, step_get, step_set, step_bypass, IsBounded, Reach-IsBounded,
}
use open_flare.Cache.Policy.{Policy, is_response_storable}
use open_flare.Proxy.Handler.{
  Handler, store_entry, shared_fetch, answer_miss, handle_with_cache, request_key, is_bypassed,
  limit_check, limit_and_serve, waf_check, inspect, normalize_request, serve_http,
}
use open_flare.Proxy.Replies.{Origin, Reply, fetch_from_origin, is_built_in, deny}
use open_flare.Proxy.Branches.{
  filled, store_entry-refused, store_entry-stored, shared_fetch-found, shared_fetch-failed,
  shared_fetch-fetched, handle_with_cache-bypass, handle_with_cache-hit, handle_with_cache-miss,
}

module _ (rx : RegexpEngine) (net : NetPackage) (tb : TokenBucket) (a b : ℤ)
    (room : ltb_ℤ (pos 0) a ≡ true) where
  -- A state of the cache that calls reach from a new one with the limits.
  abbrev pub IsReached : MemoryBackend → Type 0
  IsReached m = Reach (new_memory_backend a b) m

  -- The call returns, and leaves a state that calls reach.
  abbrev pub IsFetched : Option (Option Entry × MemoryBackend) → Type 0
  IsFetched x = (o : Option Entry) × (m : MemoryBackend) × (x ≡ some (o, m)) × IsReached m

  -- The request is answered, and the cache is left in a state that calls reach.
  abbrev pub IsAnswered : Option (Reply × Handler rx net tb) → Type 0
  IsAnswered x =
      (reply : Reply) × (h : Handler rx net tb) × (x ≡ some (reply, h)) × IsReached h.cache_backend

  pub set-IsReached :
      (k : Bytes) (e : Entry) (m : MemoryBackend)
      → IsReached m
      → (m' : MemoryBackend) × (set k e m ≡ some m') × IsReached m'
  set-IsReached k e m reach =
      let (valid, bounded) = Reach-IsBounded a b reach in
      let positive : ltb_ℤ (pos 0) m.max_entries ≡ true = rw bounded.entries_limit room in
      let (m', n, run, stored) = set-IsStored k e m valid positive in
      (m', run, next reach (step_set k e run))

  pub store_entry-IsFetched :
      (now : ℕ) (policy : Policy rx) (key : Bytes) (r : Request) (e : Entry) (m : MemoryBackend)
      → IsReached m
      → IsFetched (store_entry rx net tb now policy key r e m)
  store_entry-IsFetched now policy key r e m reach =
      elim (Bool-cases (is_response_storable policy.cfg e.status_code e.headers).0) [
        | inl storable ↦
            let (m', run, reach') = set-IsReached key (filled rx now policy key r e) m reach in
            (
              some (filled rx now policy key r e),
              m',
              store_entry-stored rx net tb now policy key r e m m' storable run,
              reach',
            )
        | inr unstorable ↦
            (some e, m, store_entry-refused rx net tb now policy key r e m unstorable, reach)
      ]

  module _ (origin : Origin) (now : ℕ) where
    shared_fetch-IsFetched :
        (cfg : RootConfig) (policy : Policy rx) (key : Bytes) (r : Request) (m : MemoryBackend)
        → IsReached m
        → IsFetched (shared_fetch rx net tb origin now cfg policy key r m)
    shared_fetch-IsFetched cfg policy key r m reach =
        let reach' : IsReached (get now key m).0 = next reach (step_get now key) in
        elim (Option-cases (get now key m).1) [
          | inr (e, p) ↦ (
            some e,
            (get now key m).0,
            shared_fetch-found rx net tb origin now cfg policy key r m e p,
            reach',
          )
          | inl p ↦ elim (Option-cases (fetch_from_origin origin cfg r)) [
            | inl q ↦ (
              none,
              (get now key m).0,
              shared_fetch-failed rx net tb origin now cfg policy key r m p q,
              reach',
            )
            | inr (e, q) ↦
                subst IsFetched
                  (sym (shared_fetch-fetched rx net tb origin now cfg policy key r m e p q))
                  (store_entry-IsFetched now policy key r e (get now key m).0 reach')
          ]
        ]

    answer_miss-IsAnswered :
        (request_id : Bytes) (h : Handler rx net tb) (x : Option (Option Entry × MemoryBackend))
        → IsFetched x
        → IsAnswered (answer_miss rx net tb request_id h x)
    unfolding answer_miss
    answer_miss-IsAnswered request_id h x (none, m, p, reach) = rw p (_, _, refl, reach)
    answer_miss-IsAnswered request_id h x (some e, m, p, reach) = rw p (_, _, refl, reach)

    handle_with_cache-IsAnswered :
        (request_id : Bytes) (r : Request) (h : Handler rx net tb)
        → IsReached h.cache_backend
        → IsAnswered (handle_with_cache rx net tb origin now request_id r h)
    handle_with_cache-IsAnswered request_id r h reach =
        let reach' : IsReached (get now (request_key r) h.cache_backend).0 =
          next reach (step_get now (request_key r)) in
        elim (Bool-cases (is_bypassed rx net tb h r)) [
          | inl p ↦ (
            _,
            _,
            handle_with_cache-bypass rx net tb origin now request_id r h p,
            next reach step_bypass,
          )
          | inr p ↦ elim (Option-cases (get now (request_key r) h.cache_backend).1) [
            | inr (e, q) ↦
                (_, _, handle_with_cache-hit rx net tb origin now request_id r h e p q, reach')
            | inl q ↦
                subst IsAnswered
                  (sym (handle_with_cache-miss rx net tb origin now request_id r h p q))
                  (answer_miss-IsAnswered request_id h _
                    (shared_fetch-IsFetched h.cfg h.cache_policy (request_key r) r _ reach'))
          ]
        ]

    IsAnswered-if :
        (p : Bool) (x y : Option (Reply × Handler rx net tb))
        → IsAnswered x
        → IsAnswered y
        → IsAnswered (if p then x else y)
    IsAnswered-if true x y hx hy = hx
    IsAnswered-if false x y hx hy = hy

    module _ (quote_json : Bytes → Bytes) (request_id : Bytes) where
      limit_and_serve-IsAnswered :
          (r : Request) (h : Handler rx net tb)
          → IsReached h.cache_backend
          → IsAnswered (limit_and_serve rx net tb origin quote_json now request_id r h)
      unfolding limit_and_serve
      limit_and_serve-IsAnswered r h reach =
          by_denial (limit_check rx net tb now h.rate_limiter r).0
        where
          h' : Handler rx net tb
          h' = record h { rate_limiter = (limit_check rx net tb now h.rate_limiter r).1 }

          r' : Request
          r' = set_forwarded_headers net r h.cfg.security.trust_x_forwarded_for

          by_denial :
              (denied : Option RateLimitRule)
              → IsAnswered (elim denied [
                | some rule ↦ some (deny quote_json rule.id, h')
                | none ↦
                    if h.cfg.cache.enabled
                    then handle_with_cache rx net tb origin now request_id r' h'
                    else some (origin.reverse_proxy [] r', h')
              ])
          by_denial (some rule) = (_, _, refl, reach)
          by_denial none =
              IsAnswered-if h.cfg.cache.enabled _ _
                (handle_with_cache-IsAnswered request_id r' h' reach) (_, _, refl, reach)

      serve_http-IsReached :
          (r : Request) (h : Handler rx net tb)
          → IsReached h.cache_backend
          → IsAnswered (serve_http rx net tb origin quote_json now request_id r h)
      unfolding serve_http
      serve_http-IsReached r h reach =
          IsAnswered-if (is_built_in r.path) _ _ (_, _, refl, reach)
            (by_verdict (
              waf_check rx net tb request_id h.waf_engine (normalize_request (inspect h.cfg r).1)
                (inspect h.cfg r).0))
        where
          by_verdict :
              (verdict : Reply ⊎ Request)
              → IsAnswered (elim verdict [
                | inl reply ↦ some (reply, h)
                | inr r' ↦ limit_and_serve rx net tb origin quote_json now request_id r' h
              ])
          by_verdict (inl reply) = (_, _, refl, reach)
          by_verdict (inr r') = limit_and_serve-IsAnswered r' h reach

      -- With a positive limit of entries every request is answered: `ServeHTTP` returns a reply. If the
      -- cache was in a state that calls reach from a new one, it is left in such a state, which is
      -- valid and keeps the limits.
      pub serve_http-IsAnswered :
          (r : Request) (h : Handler rx net tb)
          → Reach (new_memory_backend a b) h.cache_backend
          → (reply : Reply) × (h' : Handler rx net tb) × (serve_http rx net tb origin quote_json now
                request_id r h
              ≡ some (reply, h'))
            × Reach (new_memory_backend a b) h'.cache_backend
            × IsValid h'.cache_backend
            × IsBounded a b h'.cache_backend
      serve_http-IsAnswered r h reach =
          let (reply, h', run, reach') = serve_http-IsReached r h reach in
          let (valid, bounded) = Reach-IsBounded a b reach' in
          (reply, h', run, reach', valid, bounded)
