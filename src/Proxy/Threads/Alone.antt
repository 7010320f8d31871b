-- ===== src/Proxy/Threads/Alone.antt =====
-- internal/proxy/handler.go: a thread that no other disturbs does what `handleWithCache` does.
use open_flare.Prelude.{ℕ, ◌≡◌, false, Option, none, some}
use open_flare.Text.{Bytes, codes}
use open_flare.Http.{Request}
use open_flare.Regexp.{RegexpEngine}
use open_flare.Net.{NetPackage}
use open_flare.RateLimit.{TokenBucket}
use open_flare.Cache.Backend.{MemoryBackend, get}
use open_flare.Proxy.Handler.{Handler, handle_with_cache, request_key, is_bypassed}
use open_flare.Proxy.Replies.{
  Origin, Reply, debug_headers, write_entry, serve_cached, proxy_to_origin, upstream_error,
}
use open_flare.Proxy.Threads.{
  Thread, idle, looking, sharing, fetching, missed, hit, bypassed, System, move, lead, Reach,
}

module _ (rx : RegexpEngine) (net : NetPackage) (tb : TokenBucket) (h : Handler rx net tb)
    (origin : Origin) (request_id : Bytes) where
  -- What the client of a thread gets; `none` is a thread without an answer.
  unfoldable pub answer_of : Thread → Option Reply
  answer_of (hit r e) = some (serve_cached h.cfg e)
  answer_of (missed r (some e)) = some (write_entry (debug_headers h.cfg (codes "MISS")) e)
  answer_of (missed r none) = some (upstream_error request_id)
  answer_of (bypassed r) = some (proxy_to_origin origin (debug_headers h.cfg (codes "BYPASS")) r)
  answer_of _ = none

  -- Steps lead to a state in which the thread has this answer and the cache is this.
  pub record Gives (i : ℕ) (s : System) (reply : Reply) (m : MemoryBackend) : Type 0 where
    pub after : System
    pub run : Reach rx net tb h s after
    pub answer : answer_of (after.threads i) ≡ some reply
    pub cache : after.cache ≡ m

  -- The handler on the cache of a state.
  abbrev pub with_cache : MemoryBackend → Handler rx net tb
  with_cache m = record h { cache_backend = m }

  module _ (i now : ℕ) (r : Request) (s : System) (at : s.threads i ≡ idle)
      (free : s.leader (request_key r) ≡ none) (h' : Handler rx net tb) (reply : Reply)
      (answered : handle_with_cache rx net tb origin now request_id r (with_cache s.cache)
        ≡ some (reply, h')) where
    abbrev k : Bytes
    k = request_key r

    abbrev m₁ : MemoryBackend
    m₁ = (get now k s.cache).0

    abbrev m₂ : MemoryBackend
    m₂ = (get now k m₁).0

    module _ (kept : is_bypassed rx net tb h r ≡ false) where
      abbrev s₁ : System
      s₁ = move i (looking r) s.cache s

      module _ (absent : (get now k s.cache).1 ≡ none) where
        abbrev s₂ : System
        s₂ = move i (sharing r) m₁ s₁

        module _ (still : (get now k m₁).1 ≡ none) where
          abbrev s₃ : System
          s₃ = lead k (some i) (move i (fetching r) m₂ s₂)
