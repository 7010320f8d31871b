-- ===== src/Admin/Purges.antt =====
-- internal/admin/handler.go: what the purges mean for the requests to the proxy.
use open_flare.Prelude.{
  ℕ, ◌≡◌, sym, ◌∙◌, ap, Bool, true, false, not, ◌&&◌, List, [], ◌∷◌, none, some, arith, filter,
  Bool-cases, inl, inr, if-true, if-false, if◌then◌else◌,
}
use mathlib.Core.Path.{subst}
use open_flare.Text.{Bytes, codes, str_eq, has_prefix}
use open_flare.Text.Laws.{str_eq_iff}
use open_flare.Http.{Request, header_get}
use open_flare.Cache.Backend.{
  Element, MemoryBackend, get, delete, delete_by_prefix, delete_by_path, contains_prefix, has_path,
}
use open_flare.Cache.Backend.Elements.{find}
use open_flare.Cache.Backend.Invariant.{IsValid}
use open_flare.Cache.Backend.Delete.{IsDeleted, delete_by-IsDeleted}
use open_flare.Cache.Backend.Lookup.{live, get-IsRead}
use open_flare.Normalize
use open_flare.Normalize.{cache_key}
use open_flare.Normalize.Key.{AreBarFree, cache_key-parts}
use open_flare.Proxy.Handler.{request_key}
use open_flare.Admin.{Decoder, Answer, purge_key, handle_cache_purge_prefix}

-- After a deletion by a test of keys a key that passes the test is gone, and any other is as it was.
find-filter :
    (p : Bytes → Bool) (k : Bytes) (l : List Element)
    → find k (filter (λ f. not (p f.key)) l) ≡ (if p k then none else find k l)
unfolding find filter
find-filter p k [] = elim (Bool-cases (p k)) [ inl q ↦ rw q | inr q ↦ rw q ]
find-filter p k (x ∷ l) = elim (Bool-cases (str_eq x.key k)) [
  | inl same ↦
      let e : p x.key ≡ p k = ap p ((str_eq_iff x.key k).0 same) in
      ground (arith, find-filter p k l, e, same)
  | inr other ↦ ground (arith, find-filter p k l, other)
]

-- Requests whose key parts hold no bar, after a purge of the paths with the property: those whose
-- normalized path has it find nothing, and all others find what they found before.
pub record IsPurged (gone : Bytes → Bool) (m m' : MemoryBackend) : Type 0 where
  pub missing :
      (now : ℕ) (r : Request)
      → AreBarFree r.method r.host r.path r.raw_query
      → gone (Normalize.path r.path) ≡ true
      → (get now (request_key r) m').1 ≡ none
  pub kept :
      (now : ℕ) (r : Request)
      → AreBarFree r.method r.host r.path r.raw_query
      → gone (Normalize.path r.path) ≡ false
      → (get now (request_key r) m').1 ≡ (get now (request_key r) m).1

IsDeleted-IsPurged :
    (p gone : Bytes → Bool) (m : MemoryBackend) (x : MemoryBackend × ℕ)
    → IsValid m
    → IsDeleted p m x
    → ((r : Request)
        → AreBarFree r.method r.host r.path r.raw_query
        → p (request_key r) ≡ gone (Normalize.path r.path))
    → IsPurged gone m x.0
IsDeleted-IsPurged p gone m x v d reads = record {
  missing = λ now r free is_gone.
      (get-IsRead now (request_key r) x.0 d.valid).result
      ∙ ap (live now) (found r ∙ if-true (p (request_key r)) _ _ (reads r free ∙ is_gone));
  kept = λ now r free stays.
      (get-IsRead now (request_key r) x.0 d.valid).result
      ∙ ap (live now) (found r ∙ if-false (p (request_key r)) _ _ (reads r free ∙ stays))
      ∙ sym (get-IsRead now (request_key r) m v).result;
}
  where
    found :
        (r : Request)
        → find (request_key r) x.0.evict_list
          ≡ (if p (request_key r) then none else find (request_key r) m.evict_list)
    found r = ap (find (request_key r)) d.list ∙ find-filter p (request_key r) m.evict_list

delete_failed : (k : Bytes) (m : MemoryBackend) → (delete k m).1 ≡ false → (delete k m).0 ≡ m
unfolding delete
delete_failed k m h = ground arith

purge_key_path :
    (path : Bytes) (m : MemoryBackend)
    → (delete path m).1 ≡ false
    → has_prefix path (codes "/") ≡ true
    → (purge_key path m).1 ≡ (delete_by_path path m).0
unfolding purge_key
purge_key_path path m absent slash =
    ap (λ (x : Answer × MemoryBackend). x.1)
      (if-true (not (delete path m).1 && has_prefix path (codes "/")) _ _
        (ground (arith, absent, slash)))
    ∙ ap (λ x. (delete_by_path path x).0) (delete_failed path m absent)

-- What the two purges of the admin API do for the clients of the proxy, on a valid cache. A purge of a
-- URL that begins with a slash, and is no key of the cache itself, takes every stored response away
-- whose request has this normalized path, whatever its host, query and encoding; a purge of a prefix
-- those whose normalized path begins with it. All other requests find what they found before. The key
-- parts of the requests hold no bar.
pub purges-ArePurged :
    (json : Decoder) (r : Request) (m : MemoryBackend) (text : Bytes)
    → IsValid m
    → ((delete text m).1 ≡ false
        → has_prefix text (codes "/") ≡ true
        → IsPurged (λ path. str_eq path text) m (purge_key text m).1)
      × (json.decode_prefix r.body ≡ some text
          → IsPurged (λ path. has_prefix path text) m (handle_cache_purge_prefix json r m).1)
unfolding request_key handle_cache_purge_prefix
purges-ArePurged json r m text v =
    let (by_prefix, by_path) = delete_by-IsDeleted text m v in
    (
      λ absent slash.
          subst (IsPurged (λ path. str_eq path text) m) (sym (purge_key_path text m absent slash)) (
            IsDeleted-IsPurged (λ k. has_path k text) (λ path. str_eq path text) m
              (delete_by_path text m) v by_path
              (λ q free.
                (cache_key-parts q.method q.host q.path q.raw_query
                  (header_get q.headers (codes "Accept-Encoding")) free text).2)),
      λ read.
          rw (read, handle_cache_purge_prefix)
            (IsDeleted-IsPurged (λ k. contains_prefix k text) (λ path. has_prefix path text) m
              (delete_by_prefix text m) v by_prefix
              (λ q free.
                (cache_key-parts q.method q.host q.path q.raw_query
                  (header_get q.headers (codes "Accept-Encoding")) free text).1)),
    )
