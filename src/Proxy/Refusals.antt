-- ===== src/Proxy/Refusals.antt =====
-- internal/proxy/handler.go: requests that the firewall or the rate limiter refuses.
use open_flare.Http.{Request}
use open_flare.Regexp.{RegexpEngine}
use open_flare.Net.{NetPackage}
use open_flare.RateLimit.{TokenBucket}
use open_flare.Waf.{Engine, Decision, evaluate}
use open_flare.Proxy.Handler.{Handler, inspect, normalize_request}

module _ (rx : RegexpEngine) (net : NetPackage) (tb : TokenBucket) (h : Handler rx net tb)
    (r : Request) where
  -- What the firewall looks at: the request with its path and query normalized, and its body.
  abbrev pub inspected : Request
  inspected = normalize_request (inspect h.cfg r).1

  abbrev pub decision : Engine rx net → Decision
  decision engine = evaluate rx net engine inspected (inspect h.cfg r).0
