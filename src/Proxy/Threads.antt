-- ===== src/Proxy/Threads.antt =====
-- internal/proxy/handler.go: requests that `handleWithCache` serves at the same time on one cache. A
-- thread stands before its next call of the cache, of the origin or of the singleflight group; calls
-- of the cache are one step each, as its mutex makes them. The group (golang.org/x/sync/singleflight)
-- has one call for a key in flight, as it documents: a caller waits while there is one, and is handed
-- the result of a call for its key. Which callers are handed a result is left open otherwise.
pub mod Sound
pub mod Invariant
pub mod Flight
pub mod Finish
pub mod Progress
pub mod Leak
pub mod Alone
use open_flare.Prelude.{ℕ, ◌≡◌, Bool, true, false, List, Option, none, some, ◌==◌, if◌then◌else◌}
use open_flare.Prelude.Int.{ℤ}
use open_flare.Text.{Bytes, str_eq}
use open_flare.Http.{Request}
use open_flare.Regexp.{RegexpEngine}
use open_flare.Net.{NetPackage}
use open_flare.RateLimit.{TokenBucket}
use open_flare.Cache.Backend.{Entry, MemoryBackend, new_memory_backend, get, increment_bypasses}
use open_flare.Cache.Backend.Spec.{
  Call, call_delete, call_delete_by_prefix, call_delete_by_path, call_purge, Result,
}
use open_flare.Cache.Backend.Refine.{call}
use open_flare.Proxy.Handler.{Handler, store_entry, request_key, is_bypassed}
use open_flare.Proxy.Replies.{Origin, fetch_from_origin}

-- Where a thread is: without a request; before the first lookup; at the group; behind the second
-- lookup, before the exchange; behind the exchange, before the store decision; with the result of the
-- group's call, which is no entry where the exchange failed; or with an answer from the cache or
-- around it.
pub data Thread : Type 0 where
  idle : Thread
  looking sharing fetching : Request → Thread
  storing : Request → Entry → Thread
  missed : Request → Option Entry → Thread
  hit : Request → Entry → Thread
  bypassed : Request → Thread

-- The request that a thread serves, and whether its answer is known.
unfoldable pub request_of : Thread → Option Request
request_of idle = none
request_of (looking r) = some r
request_of (sharing r) = some r
request_of (fetching r) = some r
request_of (storing r e) = some r
request_of (missed r o) = some r
request_of (hit r e) = some r
request_of (bypassed r) = some r

unfoldable pub is_answered : Thread → Bool
is_answered (missed r o) = true
is_answered (hit r e) = true
is_answered (bypassed r) = true
is_answered _ = false

-- The key of the group's call that a thread runs.
unfoldable pub call_of : Thread → Option Bytes
call_of (fetching r) = some (request_key r)
call_of (storing r e) = some (request_key r)
call_of _ = none

-- `leader` is the thread that runs the group's call for a key.
pub record System : Type 0 where
  pub cache : MemoryBackend
  pub threads : ℕ → Thread
  pub leader : Bytes → Option ℕ

-- A new cache, and no requests.
unfoldable pub start : ℤ → ℤ → System
start a b = record { cache = new_memory_backend a b; threads = λ i. idle; leader = λ k. none }

-- One thread moves on, and the cache is left in a state.
unfoldable pub move : ℕ → Thread → MemoryBackend → System → System
move i t m s = record s { cache = m; threads = λ j. if j == i then t else s.threads j }

-- The call for a key begins or ends.
unfoldable pub lead : Bytes → Option ℕ → System → System
lead key o s = record s { leader = λ k. if str_eq k key then o else s.leader k }

-- The calls of the admin API.
pub data IsAdmin : Call → Type 0 where
  delete_key : (k : Bytes) → IsAdmin (call_delete k)
  delete_prefix : (p : Bytes) → IsAdmin (call_delete_by_prefix p)
  delete_path : (p : Bytes) → IsAdmin (call_delete_by_path p)
  purge_all : IsAdmin call_purge

module _ (rx : RegexpEngine) (net : NetPackage) (tb : TokenBucket) (h : Handler rx net tb) where
  -- One step of one thread, or of the admin API. `now` is the time that the step reads, and the origin
  -- may answer differently each time.
  pub data Step (s : System) : System → Type 0 where
    arrive :
        (i : ℕ) (r : Request)
        → s.threads i ≡ idle
        → is_bypassed rx net tb h r ≡ false
        → Step s (move i (looking r) s.cache s)
    bypass :
        (i : ℕ) (r : Request)
        → s.threads i ≡ idle
        → is_bypassed rx net tb h r ≡ true
        → Step s (move i (bypassed r) (increment_bypasses s.cache) s)
    first_hit :
        (i now : ℕ) (r : Request) (e : Entry)
        → s.threads i ≡ looking r
        → (get now (request_key r) s.cache).1 ≡ some e
        → Step s (move i (hit r e) (get now (request_key r) s.cache).0 s)
    first_miss :
        (i now : ℕ) (r : Request)
        → s.threads i ≡ looking r
        → (get now (request_key r) s.cache).1 ≡ none
        → Step s (move i (sharing r) (get now (request_key r) s.cache).0 s)
    second_hit :
        (i now : ℕ) (r : Request) (e : Entry)
        → s.threads i ≡ sharing r
        → s.leader (request_key r) ≡ none
        → (get now (request_key r) s.cache).1 ≡ some e
        → Step s (move i (missed r (some e)) (get now (request_key r) s.cache).0 s)
    second_miss :
        (i now : ℕ) (r : Request)
        → s.threads i ≡ sharing r
        → s.leader (request_key r) ≡ none
        → (get now (request_key r) s.cache).1 ≡ none
        → Step s (
            lead
              (request_key r)
              (some i)
              (move i (fetching r) (get now (request_key r) s.cache).0 s))
    fetch_failed :
        (i : ℕ) (r : Request) (origin : Origin)
        → s.threads i ≡ fetching r
        → fetch_from_origin origin h.cfg r ≡ none
        → Step s (lead (request_key r) none (move i (missed r none) s.cache s))
    fetched :
        (i : ℕ) (r : Request) (origin : Origin) (e : Entry)
        → s.threads i ≡ fetching r
        → fetch_from_origin origin h.cfg r ≡ some e
        → Step s (move i (storing r e) s.cache s)
    store :
        (i now : ℕ) (r : Request) (e : Entry) (o : Option Entry) (m : MemoryBackend)
        → s.threads i ≡ storing r e
        → store_entry rx net tb now h.cache_policy (request_key r) r e s.cache ≡ some (o, m)
        → Step s (lead (request_key r) none (move i (missed r o) m s))
    share :
        (i j : ℕ) (r r' : Request) (o : Option Entry)
        → s.threads i ≡ sharing r
        → s.threads j ≡ missed r' o
        → request_key r' ≡ request_key r
        → Step s (move i (missed r o) s.cache s)
    leave : (i : ℕ) → is_answered (s.threads i) ≡ true → Step s (move i idle s.cache s)
    admin :
        (c : Call) (res : Result) (m : MemoryBackend)
        → IsAdmin c
        → call c s.cache ≡ some (res, m)
        → Step s (record s { cache = m })

  pub data Reach (start : System) : System → Type 0 where
    here : Reach start start
    next : {s s' : System} → Reach start s → Step s s' → Reach start s'
