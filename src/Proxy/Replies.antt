-- ===== src/Proxy/Replies.antt =====
-- internal/proxy/handler.go: the exchange with the origin and the answers of the handler, and the
-- refusal of internal/ratelimit/limiter.go. The exchange (`http.RoundTripper`) and
-- `httputil.ReverseProxy` are parameters.
use open_flare.Prelude.{
  ℕ, Bool, ◌||◌, [], ◌∷◌, ◌++◌, Option, none, some, if◌then◌else◌, take, length,
}
use open_flare.Prelude.Int.{ℤ, pos, pos_part}
use open_flare.Text.{Bytes, codes, str_eq}
use open_flare.Http.{Headers, Request, header_add_all}
use open_flare.Config.{RootConfig}
use open_flare.Cache.Backend.{Entry}

-- What the client gets; the headers include those that are set before the body is written.
pub record Reply : Type 0 where
  pub status : ℤ
  pub headers : Headers
  pub body : Bytes

pub record Response : Type 0 where
  pub status_code : ℕ
  pub headers : Headers
  pub body : Bytes

-- The origin: `none` is an error of the exchange. The reverse proxy gets the headers that are set
-- already.
pub record Origin : Type 0 where
  pub round_trip : Request → Option Response
  pub reverse_proxy : Headers → Request → Reply

-- `fetchFromOrigin`: the body of the response is read up to the limit of the configuration.
unfoldable pub fetch_from_origin : Origin → RootConfig → Request → Option Entry
fetch_from_origin origin cfg r = elim (origin.round_trip r) [
  | none ↦ none
  | some resp ↦
      let body = take (pos_part cfg.security.max_request_body_bytes) resp.body in
      some (record {
        key = [];
        status_code = resp.status_code;
        headers = resp.headers;
        body = body;
        stored_at = 0;
        ttl = pos 0;
        size = length body;
      })
]

-- `setDebugHeaders`, before anything else is set.
unfoldable pub debug_headers : RootConfig → Bytes → Headers
debug_headers cfg status =
    if cfg.cache.debug_headers then (codes "X-Edge-Cache", status ∷ []) ∷ [] else []

-- `proxyToOrigin`: what is left of the body is read and put back, so it is passed on as it is.
abbrev pub proxy_to_origin : Origin → Headers → Request → Reply
proxy_to_origin origin h r = origin.reverse_proxy h r

-- `writeEntry`, with the headers that are set already.
unfoldable pub write_entry : Headers → Entry → Reply
write_entry h e = record {
  status = pos e.status_code;
  headers = header_add_all h e.headers;
  body = e.body;
}

abbrev pub serve_cached : RootConfig → Entry → Reply
serve_cached cfg e = write_entry (debug_headers cfg (codes "HIT")) e

-- The answer to a failed exchange, which `http.Error` writes as text with a line end.
unfoldable pub upstream_error : Bytes → Reply
upstream_error request_id = record {
  status = pos 502;
  headers =
      (codes "X-Request-ID", request_id ∷ [])
      ∷ (codes "Content-Type", codes "text/plain; charset=utf-8" ∷ [])
      ∷ (codes "X-Content-Type-Options", codes "nosniff" ∷ [])
      ∷ [];
  body = codes "{\"error\":\"upstream error\"}\n";
}

-- `HandleDeny`; `quote_json` is the encoding of a string by encoding/json.
unfoldable pub deny : (Bytes → Bytes) → Bytes → Reply
deny quote_json rule_id = record {
  status = pos 429;
  headers =
      (codes "Content-Type", codes "application/json" ∷ [])
      ∷ (codes "Retry-After", codes "1" ∷ [])
      ∷ [];
  body =
      codes "{\"error\":\"rate limit exceeded\",\"rule_id\":"
      ++ (quote_json rule_id ++ codes "}\n");
}

-- The built-in endpoints and their answers.
unfoldable pub is_built_in : Bytes → Bool
is_built_in path =
    str_eq path (codes "/healthz")
    || str_eq path (codes "/readyz")
    || str_eq path (codes "/metrics")

unfoldable pub built_in : Bytes → Reply
built_in path =
    if str_eq path (codes "/metrics")
    then record {
      status = pos 200;
      headers = (codes "Content-Type", codes "text/plain" ∷ []) ∷ [];
      body = codes "# metrics served via /metrics endpoint";
    }
    else record {
      status = pos 200;
      headers = (codes "Content-Type", codes "application/json" ∷ []) ∷ [];
      body = codes "{\"status\":\"ok\"}";
    }
