-- ===== src/Lib.antt =====
-- Verification of the OpenFlare edge proxy, the Go program under edge-proxy-poc/proxy.
--
-- The proxy stands before one origin. A request goes through the normalization of its path and query,
-- the request firewall, the rate limiter and the cache, whose policy says which requests may be
-- answered from it, which responses are stored and for how long. An admin API purges the cache.
--
-- Parts, from edge-proxy-poc/proxy/internal:
--   Cache.Backend: cache/cache.go. `MemoryBackend` is the record of the map, the list, the byte count
--     and the counters; get, set, delete, delete_by_prefix, delete_by_path, purge, stats and
--     increment_bypasses are Get, Set, Delete, DeleteByPrefix, DeleteByPath, Purge, Stats and
--     IncrementBypasses. A list element has an address, as the map refers to elements. Each method
--     holds the mutex, so it is one step. The children hold the invariant (Invariant, Preserve), the
--     eviction (Evict), Set (Store), the deletions (Bulk, Delete), Get (Lookup) and sequences of calls
--     (Runs). Spec is what the cache promises, a list of entries, and Refine compares the two; Contents
--     is about what the entries have in common.
--   Cache.Policy: cache/policy.go. Durations are int64 nanoseconds with their wrap-around.
--   Waf: waf/engine.go. new_engine, evaluate, get_block_status_code and read_body_for_inspection are
--     NewEngine, Evaluate, GetBlockStatusCode and ReadBodyForInspection.
--   RateLimit, Dict: ratelimit/limiter.go. allow, build_key, is_exempt and cleanup are Allow, buildKey,
--     isExempt and one round of cleanup; take_from is getLimiter and the Allow of its bucket.
--   Normalize, Url: normalize/normalize.go, and what it uses of net/url and path. path, query,
--     accept_encoding and cache_key are Path, Query, AcceptEncoding and CacheKey. Settings is what
--     ParseQuery reads, in its order, Gather the order in which Query writes it, Queries the text;
--     RoundTrips and Settled read that text again. Encodings is about AcceptEncoding, Key and Agreement
--     are about the key. Text.Sorted has the order of strings and the sort.
--   Config: config/config.go, the structs, applyDefaults, validate and Load; Durations has the accessors
--     of durations, Files the four loaders, Laws and Errors what the validation accepts and refuses.
--   Security: security/headers.go, SetForwardedHeaders.
--   Proxy: proxy/handler.go. serve_http is ServeHTTP, which runs inspect, normalize_request, waf_check,
--     limit_check, set_forwarded_headers and handle_with_cache; shared_fetch is the call that
--     handleWithCache gives to the singleflight group. One request is run to its end. `none` is a Set
--     that never returns. Branches has the branches as equations, Answers, Hits and Refusals the
--     theorems. Replies has the answers and the exchange with the origin, Setup is NewHandler.
--   Proxy.Threads: handleWithCache again, for any number of requests that interleave on one cache with
--     each other and with the calls of the admin API. A thread makes one call of the cache, of the origin
--     or of the singleflight group at a step, and the steps come in any order. Invariant is about the
--     entries, Flight about the group's calls, Finish and Progress about ends, Leak about sharing,
--     and Alone about a thread that no other disturbs.
--   Admin: admin/handler.go. serve_admin is ServeHTTP, which runs authenticate and the switch route; an
--     answer is a value of the type Answer.
--   Middleware: middleware/*.go. What a handler does is the list of its calls of the response writer;
--     recovery, access_log and with_request_id are Recovery, AccessLog and RequestID, and serve_chain is
--     the chain that server/server.go makes of them.
--   Server: server/server.go and upstream/transport.go, the settings and the routes.
--   App: app/app.go. start_app is Run up to the start of the servers, finish its end by a signal or a
--     failed server. Serving runs requests through what was started. Shutdown has the steps of Run, of the
--     goroutines of the servers and of the signal, with `shut_down` as net/http documents Shutdown; its
--     timeout is left out there.
--   Observability: observability/metrics.go. new_metrics is NewMetrics; Emit has the calls of the metrics
--     that each part makes, Labels compares them with the registration, Counts, Accounts, Served and Totals with
--     the counters of the cache, and Decisions compares the decision of the firewall, its log (Waf.Log)
--     and its metric.
--   Prelude, Text, Http: shared lists, integers, byte strings and requests.
--   Tests: runs on concrete inputs and instances of the theorems.
--
-- Parameters: a regular expression engine (Regexp.RegexpEngine), the addresses of package net
-- (Net.NetPackage), the token bucket of golang.org/x/time/rate (RateLimit.TokenBucket), the exchange
-- with the origin and the reverse proxy (Proxy.Replies.Origin), the JSON encoding of a string and
-- decoding of a body (Admin.Decoder), the decoding of YAML (Config.Files.Yaml), and the environment
-- variables, the files and the parsing of a URL (App.Environment). No law of them is assumed. The
-- singleflight group has one call for a key in flight at a time, as it documents.
--
-- Bounds: the eviction loop of Set has as much fuel as the list has elements and one more, which is
-- enough where the limit of entries is positive, since every round takes one element out. Sizes and
-- counters are natural numbers, times readings of a monotonic clock. The order of a Go map is not
-- determined; a header map is read in the order of its list. Letters are folded for ASCII only.
--
-- Not modelled: sockets and the multiplexer, which net/http has; the library of Prometheus; durations
-- and the times of logs; JSON; failing reads of a body, and a negative limit of inspected bytes.
pub mod Prelude
pub mod Text
pub mod Http
pub mod Config
pub mod Cache
pub mod Regexp
pub mod Url
pub mod Normalize
pub mod Net
pub mod Waf
pub mod Dict
pub mod RateLimit
pub mod Security
pub mod Proxy
pub mod Admin
pub mod Middleware
pub mod Server
pub mod App
pub mod Observability
pub mod Tests
