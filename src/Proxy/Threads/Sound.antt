-- ===== src/Proxy/Threads/Sound.antt =====
-- internal/proxy/handler.go: where an entry comes from, and what the calls of the cache make of it.
use open_flare.Prelude.{ℕ, ◌≡◌, ◌⊎◌, refl, true, false, Option, none, some, inl, inr, Bool-cases}
use mathlib.Core.Path.{subst}
use open_flare.Prelude.Int.{ℤ, pos, ltb_ℤ}
use open_flare.Text.{Bytes}
use open_flare.Http.{Request}
use open_flare.Regexp.{RegexpEngine}
use open_flare.Net.{NetPackage}
use open_flare.RateLimit.{TokenBucket}
use open_flare.Cache.Backend.{Entry, MemoryBackend, get, set}
use open_flare.Cache.Backend.Items.{view}
use open_flare.Cache.Backend.Spec.{
  Call, call_get, call_set, call_delete, call_delete_by_prefix, call_delete_by_path, call_purge,
  Result, done, found, respond,
}
use open_flare.Cache.Backend.Refine.{call}
use open_flare.Cache.Backend.Contents.{read-All, Holds, call-Holds}
use open_flare.Cache.Policy.{is_response_storable}
use open_flare.Proxy.Handler.{Handler, store_entry, request_key, is_bypassed}
use open_flare.Proxy.Replies.{Origin, fetch_from_origin}
use open_flare.Proxy.Branches.{filled, store_entry-refused, store_entry-stored}
use open_flare.Proxy.Answers.{set-IsReached}
use open_flare.Proxy.Threads.{
  Thread, idle, looking, sharing, fetching, storing, missed, hit, bypassed, IsAdmin, delete_key,
  delete_prefix, delete_path, purge_all,
}

module _ (rx : RegexpEngine) (net : NetPackage) (tb : TokenBucket) (h : Handler rx net tb) where
  -- An exchange for a request that is not bypassed and has the key gave the response.
  pub record IsExchanged (k : Bytes) (response : Entry) : Type 0 where
    pub request : Request
    pub origin : Origin
    pub unbypassed : is_bypassed rx net tb h request ≡ false
    pub same_key : request_key request ≡ k
    pub answered : fetch_from_origin origin h.cfg request ≡ some response

  -- The entry is a storable response of such an exchange, filled in.
  pub record IsGenuine (k : Bytes) (e : Entry) : Type 0 where
    pub response : Entry
    pub exchange : IsExchanged k response
    pub storable :
        (is_response_storable h.cache_policy.cfg response.status_code response.headers).0 ≡ true
    pub now : ℕ
    pub filled_in : e ≡ filled rx now h.cache_policy k exchange.request response

  -- What a thread holds is such an entry, or a response of such an exchange.
  abbrev pub IsSound : Thread → Type 0
  IsSound idle = Unit
  IsSound (looking r) = is_bypassed rx net tb h r ≡ false
  IsSound (sharing r) = is_bypassed rx net tb h r ≡ false
  IsSound (fetching r) = is_bypassed rx net tb h r ≡ false
  IsSound (storing r e) =
      (origin : Origin) × (is_bypassed rx net tb h r ≡ false)
      × (fetch_from_origin origin h.cfg r ≡ some e)
  IsSound (missed r none) = Unit
  IsSound (missed r (some e)) = IsGenuine (request_key r) e ⊎ IsExchanged (request_key r) e
  IsSound (hit r e) = IsGenuine (request_key r) e
  IsSound (bypassed r) = is_bypassed rx net tb h r ≡ true

  abbrev pub Genuine : Bytes × Entry → Type 0
  Genuine x = IsGenuine x.0 x.1

  module _ (a b : ℤ) (room : ltb_ℤ (pos 0) a ≡ true) where
    abbrev pub IsHeld : MemoryBackend → Type 0
    IsHeld m = Holds Genuine a b room m

    -- A lookup: the cache afterwards, and the entry that it gives.
    pub get-IsHeld :
        (now : ℕ) (k : Bytes) (m : MemoryBackend)
        → IsHeld m
        → IsHeld (get now k m).0 × ((e : Entry) → (get now k m).1 ≡ some e → IsGenuine k e)
    unfolding call respond
    get-IsHeld now k m held =
        let (held', result) =
          call-Holds Genuine a b room (call_get now k) m (found (get now k m).1) (get now k m).0
            held tt refl in
        (held', λ e p. (read-All Genuine now k (view m) held.entries).1 e (cc (result, p)))

    set-IsHeld :
        (k : Bytes) (e : Entry) (m m' : MemoryBackend)
        → IsHeld m
        → IsGenuine k e
        → set k e m ≡ some m'
        → IsHeld m'
    unfolding call
    set-IsHeld k e m m' held genuine run =
        (call-Holds Genuine a b room (call_set k e) m done m' held genuine (rw (run, call) refl)).0

    -- The store decision.
    pub store_entry-IsHeld :
        (now : ℕ) (r : Request) (e : Entry) (o : Option Entry) (m m' : MemoryBackend)
        → IsHeld m
        → IsSound (storing r e)
        → store_entry rx net tb now h.cache_policy (request_key r) r e m ≡ some (o, m')
        → IsHeld m' × IsSound (missed r o)
    store_entry-IsHeld now r e o m m' held (origin, unbypassed, answered) run =
        let k = request_key r in
        let exchange : IsExchanged k e = record {
          request = r;
          origin = origin;
          unbypassed = unbypassed;
          same_key = refl;
          answered = answered;
        } in
        elim (Bool-cases (is_response_storable h.cache_policy.cfg e.status_code e.headers).0) [
          | inl storable ↦
              let genuine : IsGenuine k (filled rx now h.cache_policy k r e) = record {
                response = e;
                exchange = exchange;
                storable = storable;
                now = now;
                filled_in = refl;
              } in
              let (m'', set_run, _) =
                set-IsReached rx net tb a b room k (filled rx now h.cache_policy k r e) m
                  held.reach in
              let stored =
                store_entry-stored rx net tb now h.cache_policy k r e m m'' storable set_run in
              let same_cache : m'' ≡ m' = cc (stored, run) in
              let same : some (filled rx now h.cache_policy k r e) ≡ o = cc (stored, run) in
              (
                subst IsHeld same_cache
                    (set-IsHeld k (filled rx now h.cache_policy k r e) m m'' held genuine set_run),
                subst (λ x. IsSound (missed r x)) same (inl genuine),
              )
          | inr unstorable ↦
              let refused = store_entry-refused rx net tb now h.cache_policy k r e m unstorable in
              let same_cache : m ≡ m' = cc (refused, run) in
              let same : some e ≡ o = cc (refused, run) in
              (subst IsHeld same_cache held, subst (λ x. IsSound (missed r x)) same (inr exchange))
        ]

    -- The answer of the group is sound for every request with the key.
    pub shared-IsSound :
        (r r' : Request) (o : Option Entry)
        → request_key r' ≡ request_key r
        → IsSound (missed r' o)
        → IsSound (missed r o)
    shared-IsSound r r' none same sound = tt
    shared-IsSound r r' (some e) same sound =
        subst (λ k. IsGenuine k e ⊎ IsExchanged k e) same sound

    pub call-IsHeld :
        (c : Call) (m m' : MemoryBackend) (res : Result)
        → IsAdmin c
        → IsHeld m
        → call c m ≡ some (res, m')
        → IsHeld m'
    call-IsHeld c m m' res (delete_key k) held run =
        (call-Holds Genuine a b room (call_delete k) m res m' held tt run).0
    call-IsHeld c m m' res (delete_prefix p) held run =
        (call-Holds Genuine a b room (call_delete_by_prefix p) m res m' held tt run).0
    call-IsHeld c m m' res (delete_path p) held run =
        (call-Holds Genuine a b room (call_delete_by_path p) m res m' held tt run).0
    call-IsHeld c m m' res purge_all held run =
        (call-Holds Genuine a b room call_purge m res m' held tt run).0
