-- ===== src/Tests/Proxy.antt =====
-- Instances of the theorems on the forwarding headers and the request handler.
use open_flare.Prelude.{◌≡◌, refl, false, [], some}
use open_flare.Prelude.Int.{pos}
use open_flare.Text.{codes}
use open_flare.Http.{Request}
use open_flare.Cache.Backend.{Entry, new_memory_backend}
use open_flare.Cache.Backend.Invariant.{IsValid}
use open_flare.Cache.Backend.Runs.{Reach, IsBounded}
use open_flare.Proxy.Handler.{Handler, request_key, serve_http}
use open_flare.Proxy.Replies.{Origin, Reply}
use open_flare.Proxy.Branches.{filled}
use open_flare.Proxy.Answers.{serve_http-IsAnswered}
use open_flare.Proxy.Hits.{as_head}
use open_flare.Tests.Samples.{
  plain_regexp, plain_net, counting, get_request, two_entries, two_reached,
}
use open_flare.Tests.Policy.{policy}
use open_flare.Tests.Config.{file}
use open_flare.Tests.Waf.{shadow_engine}
use open_flare.Tests.RateLimit.{limiter}

-- An origin that answers every request in the same way.
abbrev pub origin : Origin
origin = record {
  round_trip = λ r. some (record { status_code = 200; headers = []; body = codes "hello" });
  reverse_proxy = λ h r. record { status = pos 200; headers = h; body = codes "hello" };
}

abbrev pub handler : Handler plain_regexp plain_net counting
handler = record {
  cfg = record file {
    security = record {
      trust_x_forwarded_for = false;
      max_body_inspect_bytes = pos 100;
      max_request_body_bytes = pos 4;
    };
  };
  cache_backend = two_entries;
  cache_policy = policy;
  waf_engine = some shadow_engine;
  rate_limiter = some limiter;
}

abbrev pub request : Request
request = get_request (codes "/static/x") []

serve_http-IsAnswered_example :
    (reply : Reply) × (h' : Handler plain_regexp plain_net counting) × (serve_http plain_regexp
        plain_net counting origin
        (λ s. s)
        20
        (codes "id")
        request
        handler
      ≡ some (reply, h'))
    × Reach (new_memory_backend (pos 2) (pos 100)) h'.cache_backend
    × IsValid h'.cache_backend
    × IsBounded (pos 2) (pos 100) h'.cache_backend
serve_http-IsAnswered_example =
    serve_http-IsAnswered plain_regexp plain_net counting (pos 2) (pos 100) refl origin 20 (λ s. s)
      (codes "id") request handler two_reached

-- The body of the answer, cut to the four bytes of the limit.
abbrev fetched : Entry
fetched = record {
  key = [];
  status_code = 200;
  headers = [];
  body = codes "hell";
  stored_at = 0;
  ttl = pos 0;
  size = 4;
}

abbrev stored : Entry
stored = filled plain_regexp 20 policy (request_key request) request fetched

abbrev head_stored : Entry
head_stored =
    filled plain_regexp 20 policy (request_key (as_head request)) (as_head request) fetched
