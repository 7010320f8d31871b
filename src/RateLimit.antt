-- ===== src/RateLimit.antt =====
-- internal/ratelimit/limiter.go. A method is one step, as its locks make it; the token bucket of
-- golang.org/x/time/rate is a parameter. Times are nanoseconds of the monotonic clock.
pub mod Buckets
use open_flare.Prelude.{
  ℕ, ◌+◌, ◌*◌, Bool, true, false, not, ◌&&◌, ◌||◌, List, [], ◌∷◌, ◌++◌, Option, none, some, ltb,
  if◌then◌else◌, any,
}
use open_flare.Prelude.Int.{ℤ}
use open_flare.Text.{Bytes, codes, str_eq, is_empty, has_prefix}
use open_flare.Http.{Request, header_get}
use open_flare.Config.{RateLimitRule, RateLimitExemptions, RateLimitConfig}
use open_flare.Net.{NetPackage}
use open_flare.Dict.{lookup, insert}

-- `rate.Limiter`: a new bucket for a rate and a burst, and the attempt to take a token at a time.
pub record TokenBucket : Type 1 where
  pub Bucket : Type 0
  pub new_bucket : ℤ → ℤ → Bucket
  pub take_token : ℕ → Bucket → Bool × Bucket

-- `cleanupInterval`, five minutes.
abbrev pub cleanup_interval : ℕ
cleanup_interval = 5 * 60 * 1000000000

-- The key of a rule for a request, by the kind of key.
unfoldable pub build_key : RateLimitRule → Request → Bytes → Bytes
build_key rule r client_ip =
    let by_ip = codes "rl:" ++ (rule.id ++ (codes ":ip:" ++ client_ip)) in
    let api_key = header_get r.headers (codes "X-API-Key") in
    if str_eq rule.key (codes "ip")
    then by_ip
    else if str_eq rule.key (codes "ip_path")
    then codes "rl:"
      ++ (rule.id ++ (codes ":ip_path:" ++ (client_ip ++ (codes ":" ++ rule.path_prefix))))
    else if str_eq rule.key (codes "api_key")
    then codes "rl:"
      ++ (rule.id
          ++ (codes ":api_key:" ++ (if is_empty api_key then codes "anonymous" else api_key)))
    else by_ip

-- The rule is looked at: it is enabled and its path prefix, if it has one, fits.
unfoldable pub applies : RateLimitRule → Request → Bool
applies rule r = rule.enabled && (is_empty rule.path_prefix || has_prefix r.path rule.path_prefix)

module _ (net : NetPackage) where
  open net use {Ip, IpNet, split_host_port, parse_ip, parse_cidr, ip_net_contains}

  unfoldable pub extract_client_ip : Bytes → Bytes
  extract_client_ip remote_addr = elim (split_host_port remote_addr) [
    | none ↦ remote_addr
    | some (host, port) ↦ host
  ]

  abbrev in_cidr : Ip → Bytes → Bool
  in_cidr ip cidr = elim (parse_cidr cidr) [ none ↦ false | some n ↦ ip_net_contains n ip ]

  unfoldable pub is_exempt : RateLimitExemptions → Bytes → Bytes → Bool
  unfolding any
  is_exempt exemptions client_ip path =
      if any (λ p. has_prefix path p) exemptions.paths
      then true
      else elim (parse_ip client_ip) [ none ↦ false | some ip ↦ any (in_cidr ip) exemptions.cidrs ]

module _ (tb : TokenBucket) where
  open tb use {Bucket, new_bucket, take_token}

  pub record LimiterEntry : Type 0 where
    pub limiter : Bucket
    pub last_seen : ℕ

  pub record Limiter : Type 0 where
    pub rules : List RateLimitRule
    pub exemptions : RateLimitExemptions
    pub limiters : List (Bytes × LimiterEntry)

  -- `NewLimiter`; `none` is a nil configuration.
  unfoldable pub new_limiter : Option RateLimitConfig → Limiter
  new_limiter none = record {
    rules = [];
    exemptions = record { cidrs = []; paths = [] };
    limiters = [];
  }
  new_limiter (some cfg) = record { rules = cfg.rules; exemptions = cfg.exemptions; limiters = [] }

  -- The bucket of `getLimiter`: that of the key, or a new one.
  unfoldable pub bucket_of : Bytes → RateLimitRule → List (Bytes × LimiterEntry) → Bucket
  bucket_of key rule m = elim (lookup key m) [
    | none ↦ new_bucket rule.rate rule.burst
    | some e ↦ e.limiter
  ]

  -- `getLimiter` and the `Allow` of the bucket that it returns, which the map refers to.
  unfoldable pub take_from :
      ℕ → Bytes → RateLimitRule → List (Bytes × LimiterEntry) → Bool × List (Bytes × LimiterEntry)
  take_from now key rule m =
      let (allowed, bucket) = take_token now (bucket_of key rule m) in
      (allowed, insert key (record { limiter = bucket; last_seen = now }) m)

  -- The loop over the rules in `Allow`: whether the request is allowed, and else the rule that
  -- denies it.
  unfoldable pub allow_rules :
      ℕ
      → Request
      → Bytes
      → List RateLimitRule
      → List (Bytes × LimiterEntry)
      → Option RateLimitRule × List (Bytes × LimiterEntry)
  allow_rules now r ip [] m = (none, m)
  allow_rules now r ip (rule ∷ rules) m =
      let t = take_from now (build_key rule r ip) rule m in
      let passed_over = allow_rules now r ip rules m in
      let allowed = allow_rules now r ip rules t.1 in
      if applies rule r then if t.0 then allowed else (some rule, t.1) else passed_over

  -- `Allow`; no rule means that the request is allowed.
  unfoldable pub allow : NetPackage → ℕ → Request → Limiter → Option RateLimitRule × Limiter
  allow net now r l =
      let ip = extract_client_ip net r.remote_addr in
      let (denied, m) = allow_rules now r ip l.rules l.limiters in
      if is_exempt net l.exemptions ip r.path
      then (none, l)
      else (denied, record l { limiters = m })

  -- One round of `cleanup`: the entries not seen since the threshold are deleted.
  cleanup_entries : ℕ → List (Bytes × LimiterEntry) → List (Bytes × LimiterEntry)
  cleanup_entries now [] = []
  cleanup_entries now ((k, e) ∷ m) =
      if ltb (e.last_seen + cleanup_interval) now
      then cleanup_entries now m
      else (k, e) ∷ cleanup_entries now m

  unfoldable pub cleanup : ℕ → Limiter → Limiter
  unfolding cleanup_entries
  cleanup now l = record l { limiters = cleanup_entries now l.limiters }
