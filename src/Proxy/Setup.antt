-- ===== src/Proxy/Setup.antt =====
-- internal/proxy/handler.go, `NewHandler`. The parsing of a URL (net/url) is a parameter.
use open_flare.Prelude.{List, [], ◌∷◌, Option, none, some, ◌⊎◌, inl, inr, if◌then◌else◌}
use open_flare.Prelude.Int.{pos}
use open_flare.Text.{Bytes, codes, str_eq}
use open_flare.Http.{Headers, header_set}
use open_flare.Config.{RootConfig, UpstreamConfig}
use open_flare.Regexp.{RegexpEngine}
use open_flare.Net.{NetPackage}
use open_flare.RateLimit.{TokenBucket, Limiter}
use open_flare.Cache.Backend.{MemoryBackend}
use open_flare.Cache.Policy.{Policy}
use open_flare.Waf.{Engine}
use open_flare.Proxy.Handler.{Handler}
use open_flare.Proxy.Replies.{Reply}

-- The first upstream with the name.
unfoldable pub find_upstream : Bytes → List UpstreamConfig → Option UpstreamConfig
find_upstream name [] = none
find_upstream name (u ∷ us) = if str_eq u.name name then some u else find_upstream name us

-- The answer of the reverse proxy's `ErrorHandler`, with the headers that are set already.
unfoldable pub bad_gateway : Headers → Bytes → Reply
bad_gateway h request_id = record {
  status = pos 502;
  headers =
      header_set (header_set h (codes "Content-Type") (codes "application/json"))
        (codes "X-Request-ID") request_id;
  body = codes "{\"error\":\"bad gateway\",\"detail\":\"upstream unreachable\"}";
}

-- `http.ErrAbortHandler`, or the error of `url.Parse`.
pub data SetupError : Type 0 where
  err_abort_handler : SetupError
  invalid_url : Bytes → SetupError

module _ (rx : RegexpEngine) (net : NetPackage) (tb : TokenBucket) {U : Type 0}
    (parse : Bytes → Option U) where
  -- The handler, and the URL of the origin.
  unfoldable pub new_handler :
      RootConfig
      → MemoryBackend
      → Policy rx
      → Option (Engine rx net)
      → Option (Limiter tb)
      → SetupError ⊎ (Handler rx net tb × U)
  new_handler cfg m policy engine limiter =
      elim (find_upstream cfg.routing.default_upstream cfg.upstreams) [
        | none ↦ inl err_abort_handler
        | some u ↦ elim (parse u.base_url) [
          | none ↦ inl (invalid_url u.base_url)
          | some url ↦ inr (
            record {
              cfg = cfg;
              cache_backend = m;
              cache_policy = policy;
              waf_engine = engine;
              rate_limiter = limiter;
            },
            url,
          )
        ]
      ]
