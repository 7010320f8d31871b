-- ===== src/Proxy/Hits.antt =====
-- internal/proxy/handler.go: requests after a response was stored for their key.
use open_flare.Prelude.{
  ℕ, ◌≡◌, refl, sym, ◌∙◌, ap, true, false, List, ◌∷◌, Option, none, some, arith, if◌then◌else◌, inl,
  inr, Bool-cases, Option-cases,
}
use open_flare.Prelude.Int.{ℤ, pos, ltb_ℤ}
use open_flare.Text.{Bytes, codes}
use open_flare.Text.Laws.{str_eq_refl}
use open_flare.Http.{Request}
use open_flare.Regexp.{RegexpEngine}
use open_flare.Net.{NetPackage}
use open_flare.RateLimit.{TokenBucket}
use open_flare.Cache.Backend.{Entry, Element, MemoryBackend, new_memory_backend, get, is_expired}
use open_flare.Cache.Backend.Elements.{find, without, find-without}
use open_flare.Cache.Backend.Invariant.{IsValid}
use open_flare.Cache.Backend.Preserve.{get-IsValid}
use open_flare.Cache.Backend.Runs.{Reach}
use open_flare.Cache.Backend.Lookup.{live, touched, get-IsRead}
use open_flare.Cache.Policy.{is_response_storable}
use open_flare.Proxy.Handler.{Handler, request_key, is_bypassed}
use open_flare.Proxy.Replies.{Origin, fetch_from_origin}
use open_flare.Proxy.Branches.{filled}

-- A list that gives no live element for a key still gives none after the read.
live-touched :
    (now : ℕ) (k : Bytes) (l : List Element)
    → live now (find k l) ≡ none
    → live now (find k (touched now k l)) ≡ none
live-touched now k l h = elim (Option-cases (find k l)) [
  | inl p ↦ read_of none p ∙ h
  | inr (e, p) ↦ elim (Bool-cases (is_expired now e.entry)) [
    | inl old ↦ read_of (some e) p ∙ gone e old
    | inr fresh ↦ absurd (ground (arith, sym (ap (live now) p) ∙ h))
  ]
]
  where
    read_of :
        (o : Option Element)
        → find k l ≡ o
        → live now (find k (touched now k l))
          ≡ live now (
              find k (elim o [
                | none ↦ l
                | some e ↦ if is_expired now e.entry then without k l else e ∷ without k l
              ]))
    read_of o p =
        ap
          (λ x. live now (
            find k (elim x [
              | none ↦ l
              | some e ↦ if is_expired now e.entry then without k l else e ∷ without k l
            ])))
          p

    gone :
        (e : Element)
        → is_expired now e.entry ≡ true
        → live now (find k (if is_expired now e.entry then without k l else e ∷ without k l)) ≡ none
    gone e old = rw (old, find-without k k l, str_eq_refl k) refl

pub get-again :
    (now : ℕ) (k : Bytes) (m : MemoryBackend)
    → IsValid m
    → (get now k m).1 ≡ none
    → (get now k (get now k m).0).1 ≡ none
get-again now k m v h =
    let first = get-IsRead now k m v in
    let second = get-IsRead now k (get now k m).0 (get-IsValid m v now k) in
    second.result
    ∙ ap (λ l. live now (find k l)) first.list
    ∙ live-touched now k m.evict_list (sym first.result ∙ h)

module _ (rx : RegexpEngine) (net : NetPackage) (tb : TokenBucket) where
  -- The request is not bypassed and misses the cache, and its exchange with the origin gives an entry,
  -- which is storable.
  pub record IsMiss (origin : Origin) (now : ℕ) (r : Request) (h : Handler rx net tb) (e : Entry)
      : Type 0 where
    pub unbypassed : is_bypassed rx net tb h r ≡ false
    pub missing : (get now (request_key r) h.cache_backend).1 ≡ none
    pub fetched : fetch_from_origin origin h.cfg r ≡ some e
    pub storable : (is_response_storable h.cache_policy.cfg e.status_code e.headers).0 ≡ true

  module _ (a b : ℤ) (room : ltb_ℤ (pos 0) a ≡ true) (origin : Origin) (now : ℕ)
      (request_id : Bytes) (r : Request) (h : Handler rx net tb) (e : Entry)
      (reach : Reach (new_memory_backend a b) h.cache_backend)
      (miss : IsMiss origin now r h e) where
    -- The cache after both lookups.
    abbrev looked_up : MemoryBackend
    looked_up = (get now (request_key r) (get now (request_key r) h.cache_backend).0).0

    abbrev stored_entry : Entry
    stored_entry = filled rx now h.cache_policy (request_key r) r e

abbrev pub as_head : Request → Request
as_head r = record r { method = codes "HEAD" }

abbrev pub as_get : Request → Request
as_get r = record r { method = codes "GET" }

module _ (rx : RegexpEngine) (net : NetPackage) (tb : TokenBucket) (a b : ℤ)
    (room : ltb_ℤ (pos 0) a ≡ true) (origin : Origin) (now : ℕ) (request_id : Bytes) (r : Request)
    (h : Handler rx net tb) (e : Entry) (reach : Reach (new_memory_backend a b) h.cache_backend)
    (miss : IsMiss rx net tb origin now (as_head r) h e) where
  abbrev pub head_entry : Entry
  head_entry = filled rx now h.cache_policy (request_key (as_head r)) (as_head r) e
