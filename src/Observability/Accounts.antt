-- ===== src/Observability/Accounts.antt =====
-- internal/proxy/handler.go: the metrics of the cache operations against the counters of the cache.
use open_flare.Prelude.{
  ℕ, ◌+◌, ◌*◌, ◌≡◌, refl, ◌∙◌, true, List, [], ◌++◌, Option, none, some, inl, inr, arith,
  Option-cases, Bool-cases,
}
use open_flare.Prelude.Int.{ℤ, pos, ltb_ℤ}
use open_flare.Text.{Bytes, codes, str_eq}
use open_flare.Http.{Request}
use open_flare.Config.{RootConfig}
use open_flare.Regexp.{RegexpEngine}
use open_flare.Net.{NetPackage}
use open_flare.RateLimit.{TokenBucket}
use open_flare.Cache.Backend.{Entry, MemoryBackend, new_memory_backend, get}
use open_flare.Cache.Backend.Store.{set-IsStored}
use open_flare.Cache.Backend.Runs.{Reach, next, step_get, step_set, Reach-IsBounded}
use open_flare.Cache.Policy.{Policy, is_response_storable}
use open_flare.Proxy.Handler.{store_entry, shared_fetch}
use open_flare.Proxy.Replies.{Origin, fetch_from_origin}
use open_flare.Proxy.Branches.{
  filled, store_entry-refused, store_entry-stored, shared_fetch-failed, shared_fetch-fetched,
}
use open_flare.Observability.{Call, new_metrics}
use open_flare.Observability.Emit.{store_calls, shared_fetch_calls}
use open_flare.Observability.Branches.{
  store_calls-refused, store_calls-stored, shared_fetch_calls-failed, shared_fetch_calls-fetched,
}
use open_flare.Observability.Counts.{counted, counted-append, CountsNone, fetch_calls-CountsNone}

-- The counters of the cache grow by what the calls count, the misses twice.
pub record IsAccounted (m : MemoryBackend) (cs : List Call) (m' : MemoryBackend) : Type 0 where
  pub hits : m'.hits ≡ m.hits + counted (codes "hit") cs
  pub misses : m'.misses ≡ m.misses + 2 * counted (codes "miss") cs
  pub bypasses : m'.bypasses ≡ m.bypasses + counted (codes "bypass") cs
  pub stores : m'.stores ≡ m.stores + counted (codes "store") cs

pub CountsNone-nil : CountsNone []
unfolding counted
CountsNone-nil op = refl

pub IsAccounted-none : (m : MemoryBackend) (cs : List Call) → CountsNone cs → IsAccounted m cs m
IsAccounted-none m cs h = record {
  hits = omega (arith, h (codes "hit"));
  misses = omega (arith, h (codes "miss"));
  bypasses = omega (arith, h (codes "bypass"));
  stores = omega (arith, h (codes "store"));
}

-- One stage behind another.
pub IsAccounted-trans :
    (m m' m'' : MemoryBackend) (xs ys : List Call)
    → IsAccounted m xs m'
    → IsAccounted m' ys m''
    → IsAccounted m (xs ++ ys) m''
IsAccounted-trans m m' m'' xs ys h k = record {
  hits = omega (arith, h.hits, k.hits, counted-append (codes "hit") xs ys);
  misses = omega (arith, h.misses, k.misses, counted-append (codes "miss") xs ys);
  bypasses = omega (arith, h.bypasses, k.bypasses, counted-append (codes "bypass") xs ys);
  stores = omega (arith, h.stores, k.stores, counted-append (codes "store") xs ys);
}

module _ (rx : RegexpEngine) (net : NetPackage) (tb : TokenBucket) (a b : ℤ)
    (room : ltb_ℤ (pos 0) a ≡ true) where
  abbrev pub IsReached : MemoryBackend → Type 0
  IsReached m = Reach (new_memory_backend a b) m

  -- The store is counted where it happens.
  store_entry-counted :
      (now : ℕ) (policy : Policy rx) (key : Bytes) (r : Request) (e : Entry) (m : MemoryBackend)
      → IsReached m
      → (o : Entry) × (m' : MemoryBackend) × (store_entry rx net tb now policy key r e m
          ≡ some (some o, m'))
        × IsReached m'
        × IsAccounted m (store_calls new_metrics rx net tb now policy key r e m) m'
  unfolding counted str_eq new_metrics
  store_entry-counted now policy key r e m reach =
      elim (Bool-cases (is_response_storable policy.cfg e.status_code e.headers).0) [
        | inr p ↦ (
          e,
          m,
          store_entry-refused rx net tb now policy key r e m p,
          reach,
          rw (store_calls-refused new_metrics rx net tb now policy key r e m p)
              (IsAccounted-none m [] CountsNone-nil),
        )
        | inl p ↦
            let (valid, bounded) = Reach-IsBounded a b reach in
            let entry = filled rx now policy key r e in
            let (m', n, run, stored) =
              set-IsStored key entry m valid (rw bounded.entries_limit room) in
            (
              entry,
              m',
              store_entry-stored rx net tb now policy key r e m m' p run,
              next reach (step_set key entry run),
              rw (store_calls-stored new_metrics rx net tb now policy key r e m m' p run) (record {
                hits = omega (arith, stored.hits);
                misses = omega (arith, stored.misses);
                bypasses = omega (arith, stored.bypasses);
                stores = omega (arith, stored.stores);
              }),
            )
      ]

  module _ (origin : Origin) (now : ℕ) where
    -- Behind a miss the shared call misses again, and may store.
    pub shared_fetch-counted :
        (cfg : RootConfig) (policy : Policy rx) (key : Bytes) (r : Request) (m : MemoryBackend)
        → IsReached m
        → (get now key m).1 ≡ none
        → (o : Option Entry) × (m' : MemoryBackend) × (shared_fetch rx net tb origin now cfg policy
              key r m
            ≡ some (o, m'))
          × IsReached m'
          × IsAccounted
              (get now key m).0
              (shared_fetch_calls new_metrics rx net tb origin now cfg policy key r m)
              m'
    shared_fetch-counted cfg policy key r m reach p =
        let reach' : IsReached (get now key m).0 = next reach (step_get now key) in
        let quiet = fetch_calls-CountsNone rx net tb origin cfg r in
        elim (Option-cases (fetch_from_origin origin cfg r)) [
          | inl q ↦ (
            none,
            (get now key m).0,
            shared_fetch-failed rx net tb origin now cfg policy key r m p q,
            reach',
            rw (shared_fetch_calls-failed new_metrics rx net tb origin now cfg policy key r m p q) (
                IsAccounted-trans _ _ _ _ [] (IsAccounted-none _ _ quiet)
                  (IsAccounted-none _ [] CountsNone-nil)),
          )
          | inr (e, q) ↦
              let (o, m', run, reached, counts) =
                store_entry-counted now policy key r e (get now key m).0 reach' in
              (
                some o,
                m',
                shared_fetch-fetched rx net tb origin now cfg policy key r m e p q ∙ run,
                reached,
                rw
                    (shared_fetch_calls-fetched new_metrics rx net tb origin now cfg policy key r m
                      e p q)
                    (IsAccounted-trans _ _ _ _ _ (IsAccounted-none _ _ quiet) counts),
              )
        ]
