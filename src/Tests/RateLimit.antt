-- ===== src/Tests/RateLimit.antt =====
-- Instances of the theorems on the rate limiter.
use open_flare.Prelude.{◌≡◌, ◌↔◌, ◌⊎◌, true, [], ◌∷◌, none, arith, All}
use open_flare.Prelude.Int.{pos}
use open_flare.Text.{codes, str_eq, index}
use open_flare.Http.{Request, header_get}
use open_flare.Config.{RateLimitRule}
use open_flare.Dict.{lookup}
use open_flare.RateLimit.{Limiter, allow, is_exempt, extract_client_ip, build_key}
use open_flare.RateLimit.Buckets.{IsApart, IsSeparate, IsFed, allow_iff, allow-other}
use open_flare.Tests.Samples.{counting, plain_net, get_request}

abbrev by_ip : RateLimitRule
by_ip = record {
  id = codes "r1";
  key = codes "ip";
  path_prefix = [];
  rate = pos 1;
  burst = pos 2;
  enabled = true;
}

abbrev by_api_key : RateLimitRule
by_api_key = record {
  id = codes "r2";
  key = codes "api_key";
  path_prefix = codes "/api";
  rate = pos 1;
  burst = pos 1;
  enabled = true;
}

abbrev request : Request
request = get_request (codes "/api/x") []

abbrev pub limiter : Limiter counting
limiter = record {
  rules = by_ip ∷ by_api_key ∷ [];
  exemptions = record { cidrs = []; paths = codes "/healthz" ∷ [] };
  limiters =
      (codes "rl:r1:ip:9", record { limiter = 1; last_seen = 7 })
      ∷ (codes "rl:r1:ip:8", record { limiter = 0; last_seen = 5 })
      ∷ [];
}

separate : IsSeparate request (codes "9") (by_ip ∷ by_api_key ∷ [])
unfolding IsSeparate IsApart build_key str_eq header_get
separate = ((λ _. ((λ _. ground arith), tt)), ((λ _. tt), tt))

allow_iff_example : ((allow counting plain_net 9 request limiter).0 ≡ none) ↔ (
    (is_exempt plain_net limiter.exemptions
        (extract_client_ip plain_net (codes "9:80"))
        (codes "/api/x")
      ≡ true)
    ⊎ All
        (IsFed counting 9 request (extract_client_ip plain_net (codes "9:80")) limiter.limiters)
        limiter.rules)
unfolding extract_client_ip index
allow_iff_example = allow_iff counting plain_net 9 request limiter separate

allow-other_example :
    lookup (codes "rl:r1:ip:8") (allow counting plain_net 9 request limiter).1.limiters
    ≡ lookup (codes "rl:r1:ip:8") limiter.limiters
unfolding extract_client_ip index IsApart build_key str_eq header_get
allow-other_example =
    allow-other counting plain_net 9 request limiter (codes "rl:r1:ip:8")
      ((λ _. ground arith), ((λ _. ground arith), tt))
