-- ===== src/Observability/Served.antt =====
-- internal/proxy/handler.go: what handleWithCache counts against the counters of the cache.
use open_flare.Prelude.{
  ℕ, ◌+◌, ◌≡◌, refl, ◌∙◌, ap, true, false, List, [], ◌∷◌, ◌++◌, Option, none, some, inl, inr, arith,
  Option-cases, Bool-cases,
}
use open_flare.Prelude.Int.{ℤ, pos, ltb_ℤ}
use open_flare.Text.{Bytes, codes, str_eq}
use open_flare.Http.{Request}
use open_flare.Regexp.{RegexpEngine}
use open_flare.Net.{NetPackage}
use open_flare.RateLimit.{TokenBucket}
use open_flare.Cache.Backend.{Entry, MemoryBackend, get, increment_bypasses}
use open_flare.Cache.Backend.Lookup.{get-IsRead, hit_count, miss_count}
use open_flare.Cache.Backend.Runs.{next, step_get, step_bypass, Reach-IsBounded}
use open_flare.Proxy.Handler.{Handler, answer_miss, handle_with_cache, request_key, is_bypassed}
use open_flare.Proxy.Replies.{Origin, Reply}
use open_flare.Proxy.Branches.{
  handle_with_cache-bypass, handle_with_cache-hit, handle_with_cache-miss,
}
use open_flare.Proxy.Hits.{get-again}
use open_flare.Observability.{Call, inc, new_metrics}
use open_flare.Observability.Emit.{handle_with_cache_calls}
use open_flare.Observability.Branches.{
  handle_with_cache_calls-bypass, handle_with_cache_calls-hit, handle_with_cache_calls-miss,
}
use open_flare.Observability.Counts.{counted, counted-append, CountsNone, answer_calls-CountsNone}
use open_flare.Observability.Accounts.{IsAccounted, IsReached, shared_fetch-counted}

module _ (rx : RegexpEngine) (net : NetPackage) (tb : TokenBucket) (a b : ℤ)
    (room : ltb_ℤ (pos 0) a ≡ true) where
  module _ (origin : Origin) (now : ℕ) where
    -- The request is answered, the cache is left in a state that calls reach, and its counters agree
    -- with the calls.
    abbrev pub IsServed :
        Handler rx net tb → List Call → Option (Reply × Handler rx net tb) → Type 0
    IsServed h cs x =
        (reply : Reply) × (h' : Handler rx net tb) × (x ≡ some (reply, h'))
        × IsReached rx net tb a b room h'.cache_backend
        × IsAccounted h.cache_backend cs h'.cache_backend

    module _ (request_id : Bytes) (r : Request) (h : Handler rx net tb)
        (reach : IsReached rx net tb a b room h.cache_backend) where
      abbrev key : Bytes
      key = request_key r

      abbrev read : MemoryBackend
      read = (get now key h.cache_backend).0

      reach_read : IsReached rx net tb a b room read
      reach_read = next reach (step_get now key)

      bypass-IsServed :
          is_bypassed rx net tb h r ≡ true
          → IsServed h
              (handle_with_cache_calls new_metrics rx net tb origin now r h)
              (handle_with_cache rx net tb origin now request_id r h)
      unfolding counted str_eq new_metrics increment_bypasses
      bypass-IsServed p = (
        _,
        _,
        handle_with_cache-bypass rx net tb origin now request_id r h p,
        next reach step_bypass,
        rw (handle_with_cache_calls-bypass new_metrics rx net tb origin now r h p) (record {
          hits = omega arith;
          misses = omega arith;
          bypasses = omega arith;
          stores = omega arith;
        }),
      )

      hit-IsServed :
          (e : Entry)
          → is_bypassed rx net tb h r ≡ false
          → (get now key h.cache_backend).1 ≡ some e
          → IsServed h
              (handle_with_cache_calls new_metrics rx net tb origin now r h)
              (handle_with_cache rx net tb origin now request_id r h)
      unfolding counted str_eq new_metrics
      hit-IsServed e p q =
          let (valid, _) = Reach-IsBounded a b reach in
          let reading = get-IsRead now key h.cache_backend valid in
          (
            _,
            _,
            handle_with_cache-hit rx net tb origin now request_id r h e p q,
            reach_read,
            rw (handle_with_cache_calls-hit new_metrics rx net tb origin now r h e p q) (record {
              hits = omega (arith, reading.hits, ap hit_count q);
              misses = omega (arith, reading.misses, ap miss_count q);
              bypasses = omega (arith, reading.bypasses);
              stores = omega (arith, reading.stores);
            }),
          )

      answered :
          (o : Option Entry) (m' : MemoryBackend)
          → (reply : Reply) × (answer_miss rx net tb request_id h (some (o, m'))
              ≡ some (reply, record h { cache_backend = m' }))
      unfolding answer_miss
      answered none m' = (_, refl)
      answered (some e) m' = (_, refl)

      -- The two reads of a miss, and what the shared call counts.
      miss-IsAccounted :
          (q : (get now key h.cache_backend).1 ≡ none) (again : (get now key read).1 ≡ none)
          (xs ys : List Call) (m' : MemoryBackend)
          → CountsNone ys
          → IsAccounted (get now key read).0 xs m'
          → IsAccounted h.cache_backend
              (inc new_metrics.cache_operations (codes "miss" ∷ []) ∷ (xs ++ ys))
              m'
      unfolding counted str_eq new_metrics
      miss-IsAccounted q again xs ys m' quiet counts =
          let (valid, _) = Reach-IsBounded a b reach in
          let (valid_read, _) = Reach-IsBounded a b reach_read in
          let one = get-IsRead now key h.cache_backend valid in
          let two = get-IsRead now key read valid_read in
          let sum : (op : Bytes) → counted op (xs ++ ys) ≡ counted op xs + 0 =
            λ op. counted-append op xs ys ∙ ap (λ n. counted op xs + n) (quiet op) in
          record {
            hits = omega (
              arith,
              one.hits,
              two.hits,
              ap hit_count q,
              ap hit_count again,
              counts.hits,
              sum (codes "hit"),
            );
            misses = omega (
              arith,
              one.misses,
              two.misses,
              ap miss_count q,
              ap miss_count again,
              counts.misses,
              sum (codes "miss"),
            );
            bypasses =
                omega (arith, one.bypasses, two.bypasses, counts.bypasses, sum (codes "bypass"));
            stores = omega (arith, one.stores, two.stores, counts.stores, sum (codes "store"));
          }

      miss-IsServed :
          is_bypassed rx net tb h r ≡ false
          → (get now key h.cache_backend).1 ≡ none
          → IsServed h
              (handle_with_cache_calls new_metrics rx net tb origin now r h)
              (handle_with_cache rx net tb origin now request_id r h)
      miss-IsServed p q =
          let (valid, _) = Reach-IsBounded a b reach in
          let again = get-again now key h.cache_backend valid q in
          let (o, m', run, reached, counts) =
            shared_fetch-counted rx net tb a b room origin now h.cfg h.cache_policy key r read
              reach_read again in
          let (reply, answer) = answered o m' in
          (
            reply,
            record h { cache_backend = m' },
            handle_with_cache-miss rx net tb origin now request_id r h p q
                ∙ ap (answer_miss rx net tb request_id h) run
                ∙ answer,
            reached,
            rw (handle_with_cache_calls-miss new_metrics rx net tb origin now r h p q) (
                miss-IsAccounted q again _ _ m' (answer_calls-CountsNone rx net tb h.cfg _) counts),
          )

      pub handle_with_cache-IsServed :
          IsServed h
            (handle_with_cache_calls new_metrics rx net tb origin now r h)
            (handle_with_cache rx net tb origin now request_id r h)
      handle_with_cache-IsServed = elim (Bool-cases (is_bypassed rx net tb h r)) [
        | inl p ↦ bypass-IsServed p
        | inr p ↦ elim (Option-cases (get now key h.cache_backend).1) [
          | inr (e, q) ↦ hit-IsServed e p q
          | inl q ↦ miss-IsServed p q
        ]
      ]
