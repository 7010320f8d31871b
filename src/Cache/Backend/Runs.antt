-- ===== src/Cache/Backend/Runs.antt =====
-- Sequences of calls on one cache, in any order, as the request handlers and the admin API make
-- them under the mutex.
use open_flare.Prelude.{
  ℕ, suc, ◌+◌, ◌≤◌, ◌≡◌, refl, ◌∙◌, ap, Bool, true, not, ◌||◌, List, [], ◌∷◌, some, arith, length,
  take, filter, Option-cases, inl, inr, leb,
}
use open_flare.Prelude.Int.{ℤ, pos, leb_ℤ}
use open_flare.Text.{Bytes}
use open_flare.Cache.Backend.{
  Entry, Element, MemoryBackend, new_memory_backend, get, set, delete, delete_by_prefix,
  delete_by_path, purge, increment_bypasses, remove_all, remove_element, map_get, matching,
  contains_prefix, has_path,
}
use open_flare.Cache.Backend.Elements.{total, find, without, length-without, total-without}
use open_flare.Cache.Backend.Invariant.{
  IsValid, new_memory_backend-IsValid, map_get-find, remove_element-without,
}
use open_flare.Cache.Backend.Preserve.{
  get-IsValid, delete-IsValid, purge-IsValid, increment_bypasses-IsValid,
}
use open_flare.Cache.Backend.Evict.{fits}
use open_flare.Cache.Backend.Store.{IsStored}
use open_flare.Cache.Backend.Delete.{IsDeleted, delete_by-IsDeleted}
use open_flare.Cache.Backend.Lookup.{get-IsRead, touched, set-some}

-- One call of a method that changes the cache; a `Set` that does not return makes no step.
pub data Step (m : MemoryBackend) : MemoryBackend → Type 0 where
  step_get : (now : ℕ) (k : Bytes) → Step m (get now k m).0
  step_set : (k : Bytes) (entry : Entry) {m' : MemoryBackend} → set k entry m ≡ some m' → Step m m'
  step_delete : (k : Bytes) → Step m (delete k m).0
  step_delete_by_prefix : (prefix : Bytes) → Step m (delete_by_prefix prefix m).0
  step_delete_by_path : (path : Bytes) → Step m (delete_by_path path m).0
  step_purge : Step m (purge m).0
  step_bypass : Step m (increment_bypasses m)

pub data Reach (s : MemoryBackend) : MemoryBackend → Type 0 where
  here : Reach s s
  next : {m m' : MemoryBackend} → Reach s m → Step m m' → Reach s m'

-- The limits are those of the configuration. There are at most `max_entries` elements, and their
-- sizes add up to at most `max_bytes`, unless there is a single element.
pub record IsBounded (max_entries max_bytes : ℤ) (m : MemoryBackend) : Type 0 where
  pub entries_limit : m.max_entries ≡ max_entries
  pub bytes_limit : m.max_bytes ≡ max_bytes
  pub entries :
      (leb_ℤ (pos (length m.evict_list)) max_entries || leb (length m.evict_list) 0) ≡ true
  pub bytes : (leb_ℤ (pos m.size_bytes) max_bytes || leb (length m.evict_list) 1) ≡ true

-- No element more and the same limits.
record IsSmaller (m m' : MemoryBackend) : Type 0 where
  fewer : length m'.evict_list ≤ length m.evict_list
  lighter : total m'.evict_list ≤ total m.evict_list
  same_entries : m'.max_entries ≡ m.max_entries
  same_bytes : m'.max_bytes ≡ m.max_bytes

IsSmaller-IsBounded :
    (a b : ℤ) (m m' : MemoryBackend)
    → IsValid m
    → IsValid m'
    → IsSmaller m m'
    → IsBounded a b m
    → IsBounded a b m'
IsSmaller-IsBounded a b m m' v v' s h = record {
  entries_limit = s.same_entries ∙ h.entries_limit;
  bytes_limit = s.same_bytes ∙ h.bytes_limit;
  entries = ground (arith, s.fewer);
  bytes = ground (arith, s.fewer, s.lighter, v.sized, v'.sized);
}

-- An element that is taken out, and put in front again.
without-le :
    (k : Bytes) (l : List Element)
    → (length (without k l) ≤ length l) × (total (without k l) ≤ total l)
unfolding without filter total
without-le k [] = omega arith
without-le k (x ∷ l) = ground (arith, without-le k l)

filter-le :
    (p : Element → Bool) (l : List Element)
    → (length (filter p l) ≤ length l) × (total (filter p l) ≤ total l)
unfolding filter total
filter-le p [] = omega arith
filter-le p (x ∷ l) = ground (arith, filter-le p l)

touched-le :
    (now : ℕ) (k : Bytes) (m : MemoryBackend)
    → IsValid m
    → (length (touched now k m.evict_list) ≤ length m.evict_list)
      × (total (touched now k m.evict_list) ≤ total m.evict_list)
unfolding total
touched-le now k m v = elim (Option-cases (find k m.evict_list)) [
  | inl p ↦ rw (p, touched) (omega arith)
  | inr (e, p) ↦
      let a = length-without k m.evict_list e v.distinct p in
      let b = total-without k m.evict_list e v.distinct p in ground (arith, p, a, b)
]

get-limits :
    (now : ℕ) (k : Bytes) (m : MemoryBackend)
    → ((get now k m).0.max_entries ≡ m.max_entries) × ((get now k m).0.max_bytes ≡ m.max_bytes)
unfolding get remove_element
get-limits now k m = ground arith

remove_all-limits :
    (es : List Element) (n : ℕ) (m : MemoryBackend)
    → ((remove_all es n m).0.max_entries ≡ m.max_entries)
      × ((remove_all es n m).0.max_bytes ≡ m.max_bytes)
unfolding remove_all remove_element
remove_all-limits [] n m = (refl, refl)
remove_all-limits (e ∷ es) n m = remove_all-limits es (n + 1) (remove_element e m)

get-IsSmaller : (now : ℕ) (k : Bytes) (m : MemoryBackend) → IsValid m → IsSmaller m (get now k m).0
get-IsSmaller now k m v =
    let le = touched-le now k m v in
    let list = (get-IsRead now k m v).list in
    let limits = get-limits now k m in
    record {
      fewer = rw list le.0;
      lighter = rw list le.1;
      same_entries = limits.0;
      same_bytes = limits.1;
    }

delete-IsSmaller : (k : Bytes) (m : MemoryBackend) → IsValid m → IsSmaller m (delete k m).0
unfolding delete remove_element
delete-IsSmaller k m v = elim (Option-cases (map_get k m.items)) [
  | inl p ↦ rw (p, delete) (ground arith)
  | inr (e, p) ↦
      let gone = remove_element-without m v e (map_get-find m k e v p).2 in
      let le = without-le e.key m.evict_list in
      rw (p, delete)
        (record {
          fewer = rw gone le.0;
          lighter = rw gone le.1;
          same_entries = refl;
          same_bytes = refl;
        })
]

bulk-IsSmaller :
    (p : Bytes → Bool) (m : MemoryBackend) (es : List Element)
    → IsDeleted p m (remove_all es 0 m)
    → IsSmaller m (remove_all es 0 m).0
bulk-IsSmaller p m es d =
    let le = filter-le (λ f. not (p f.key)) m.evict_list in
    let limits = remove_all-limits es 0 m in
    record {
      fewer = rw d.list le.0;
      lighter = rw d.list le.1;
      same_entries = limits.0;
      same_bytes = limits.1;
    }

-- With room for one more, that one keeps the limits.
fits-bounds :
    (a b : ℤ) (size : ℕ) (l : List Element)
    → fits a b size l ≡ true
    → (leb_ℤ (pos (suc (length l))) a ≡ true)
      × ((leb_ℤ (pos (size + total l)) b || leb (suc (length l)) 1) ≡ true)
unfolding total
fits-bounds a b size [] h = ground arith
fits-bounds a b size (x ∷ l) h = ground arith

set-IsBounded :
    (a b : ℤ) (k : Bytes) (entry : Entry) (m m' : MemoryBackend) (n : ℕ)
    → IsStored k entry m m' n
    → IsBounded a b m
    → IsBounded a b m'
unfolding total
set-IsBounded a b k entry m m' n st h =
    let rest = take n (without k m.evict_list) in
    let (few, light) = fits-bounds m.max_entries m.max_bytes entry.size rest st.room in
    let size : m'.size_bytes ≡ entry.size + total rest = st.valid.sized ∙ ap total st.list in
    let len : length m'.evict_list ≡ suc (length rest) = ap length st.list in
    record {
      entries_limit = st.max_entries ∙ h.entries_limit;
      bytes_limit = st.max_bytes ∙ h.bytes_limit;
      entries = rw len (ground (arith, few, h.entries_limit));
      bytes = rw (len, size) (ground (arith, light, h.bytes_limit));
    }

Step-IsValid : {m m' : MemoryBackend} → Step m m' → IsValid m → IsValid m'
unfolding delete_by_prefix delete_by_path
Step-IsValid {m} (step_get now k) v = get-IsValid m v now k
Step-IsValid {m} (step_set k entry {m' = m'} p) v = (set-some k entry m m' v p).1.valid
Step-IsValid {m} (step_delete k) v = delete-IsValid m v k
Step-IsValid {m} (step_delete_by_prefix prefix) v = (delete_by-IsDeleted prefix m v).0.valid
Step-IsValid {m} (step_delete_by_path path) v = (delete_by-IsDeleted path m v).1.valid
Step-IsValid {m} step_purge v = purge-IsValid m v
Step-IsValid {m} step_bypass v = increment_bypasses-IsValid m v

Step-IsBounded :
    {m m' : MemoryBackend} (a b : ℤ) → Step m m' → IsValid m → IsBounded a b m → IsBounded a b m'
unfolding delete_by_prefix delete_by_path purge increment_bypasses total
Step-IsBounded {m} a b (step_get now k) v h =
    IsSmaller-IsBounded a b m (get now k m).0 v (get-IsValid m v now k) (get-IsSmaller now k m v) h
Step-IsBounded {m} a b (step_set k entry {m' = m'} p) v h =
    let (n, st) = set-some k entry m m' v p in set-IsBounded a b k entry m m' n st h
Step-IsBounded {m} a b (step_delete k) v h =
    IsSmaller-IsBounded a b m (delete k m).0 v (delete-IsValid m v k) (delete-IsSmaller k m v) h
Step-IsBounded {m} a b (step_delete_by_prefix prefix) v h =
    let d = (delete_by-IsDeleted prefix m v).0 in
    IsSmaller-IsBounded a b m (delete_by_prefix prefix m).0 v d.valid
      (bulk-IsSmaller _ m (matching (λ k. contains_prefix k prefix) m) d) h
Step-IsBounded {m} a b (step_delete_by_path path) v h =
    let d = (delete_by-IsDeleted path m v).1 in
    IsSmaller-IsBounded a b m (delete_by_path path m).0 v d.valid
      (bulk-IsSmaller _ m (matching (λ k. has_path k path) m) d) h
Step-IsBounded {m} a b step_purge v h =
    IsSmaller-IsBounded a b m (purge m).0 v (purge-IsValid m v) (ground arith) h
Step-IsBounded {m} a b step_bypass v h = record {
  entries_limit = h.entries_limit;
  bytes_limit = h.bytes_limit;
  entries = h.entries;
  bytes = h.bytes;
}

-- In every state that calls can reach from a new cache the map and the list hold the same elements,
-- `size_bytes` is the sum of their sizes, there are at most `max_entries` of them unless there is none,
-- and the sizes add up to at most `max_bytes`, unless there is at most one element.
pub Reach-IsBounded :
    (max_entries max_bytes : ℤ) {m : MemoryBackend}
    → Reach (new_memory_backend max_entries max_bytes) m
    → IsValid m × IsBounded max_entries max_bytes m
unfolding new_memory_backend
Reach-IsBounded a b here = (
  new_memory_backend-IsValid a b,
  record { entries_limit = refl; bytes_limit = refl; entries = ground arith; bytes = ground arith },
)
Reach-IsBounded a b (next r step) =
    let (v, h) = Reach-IsBounded a b r in (Step-IsValid step v, Step-IsBounded a b step v h)
