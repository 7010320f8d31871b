-- ===== src/Cache/Backend.antt =====
-- internal/cache/cache.go: `MemoryBackend`. The list is kept front first, and an element of it has
-- an identity, so that the map holds references to elements and `Remove` goes by reference. The
-- mutex makes each method one step. Sizes are lengths of bodies, hence natural numbers; a time is a
-- reading of the monotonic clock in nanoseconds.
pub mod Elements
pub mod Invariant
pub mod Preserve
pub mod Evict
pub mod Store
pub mod Bulk
pub mod Delete
pub mod Lookup
pub mod Runs
pub mod Spec
pub mod Items
pub mod Refine
pub mod Contents
use open_flare.Prelude.{
  ℕ, zero, suc, ◌+◌, ◌-◌, Bool, true, false, not, ◌&&◌, ◌||◌, List, [], ◌∷◌, ◌++◌, Option, none,
  some, map, ltb, leb, ◌==◌, if◌then◌else◌, length, get_elem?, filter,
}
use open_flare.Prelude.Int.{ℤ, pos, negsuc, ltb_ℤ, leb_ℤ}
use open_flare.Text.{Bytes, str_eq, has_prefix, split}
use open_flare.Http.{Headers}

pub record Entry : Type 0 where
  pub key : Bytes
  pub status_code : ℕ
  pub headers : Headers
  pub body : Bytes
  pub stored_at : ℕ
  pub ttl : ℤ
  pub size : ℕ

-- `time.Since(e.StoredAt) > e.TTL`, at the time `now`.
unfoldable pub is_expired : ℕ → Entry → Bool
is_expired now e = ltb_ℤ e.ttl (pos (now - e.stored_at))

-- A list element with its `lruItem`, which is never changed; `id` is the element's address.
pub record Element : Type 0 where
  pub id : ℕ
  pub key : Bytes
  pub entry : Entry

-- `next_id` is an address that no element has had yet.
pub record MemoryBackend : Type 0 where
  pub max_entries : ℤ
  pub max_bytes : ℤ
  pub items : List (Bytes × Element)
  pub evict_list : List Element
  pub next_id : ℕ
  pub size_bytes : ℕ
  pub hits : ℕ
  pub misses : ℕ
  pub bypasses : ℕ
  pub stores : ℕ
  pub evictions : ℕ

-- The Go map `items`: read, delete and assign.
unfoldable pub map_get : Bytes → List (Bytes × Element) → Option Element
map_get k [] = none
map_get k ((j, e) ∷ m) = if str_eq j k then some e else map_get k m

unfoldable pub map_delete : Bytes → List (Bytes × Element) → List (Bytes × Element)
map_delete k [] = []
map_delete k ((j, e) ∷ m) = if str_eq j k then map_delete k m else (j, e) ∷ map_delete k m

unfoldable pub map_set : Bytes → Element → List (Bytes × Element) → List (Bytes × Element)
unfolding map_delete
map_set k e m = (k, e) ∷ map_delete k m

-- `container/list`: `Remove`, `MoveToFront` and `Back`.
unfoldable pub list_remove : ℕ → List Element → List Element
list_remove id [] = []
list_remove id (e ∷ l) = if e.id == id then l else e ∷ list_remove id l

unfoldable pub move_to_front : Element → List Element → List Element
unfolding list_remove
move_to_front e l = e ∷ list_remove e.id l

unfoldable pub back : List Element → Option Element
back [] = none
back (e ∷ []) = some e
back (e ∷ f ∷ l) = back (f ∷ l)

unfoldable pub new_memory_backend : ℤ → ℤ → MemoryBackend
new_memory_backend max_entries max_bytes = record {
  max_entries = max_entries;
  max_bytes = max_bytes;
  items = [];
  evict_list = [];
  next_id = 0;
  size_bytes = 0;
  hits = 0;
  misses = 0;
  bypasses = 0;
  stores = 0;
  evictions = 0;
}

-- The subtraction stops at 0, as the code's test of a negative size does.
unfoldable pub remove_element : Element → MemoryBackend → MemoryBackend
unfolding map_delete list_remove
remove_element e m = record m {
  items = map_delete e.key m.items;
  evict_list = list_remove e.id m.evict_list;
  size_bytes = m.size_bytes - e.entry.size;
}

unfoldable pub evict_oldest : MemoryBackend → MemoryBackend
unfolding remove_element back
evict_oldest m = elim (back m.evict_list) [
  | none ↦ m
  | some e ↦ record (remove_element e m) { evictions = m.evictions + 1 }
]

unfoldable pub get : ℕ → Bytes → MemoryBackend → MemoryBackend × Option Entry
unfolding map_get is_expired remove_element move_to_front
get now key m = elim (map_get key m.items) [
  | none ↦ (record m { misses = m.misses + 1 }, none)
  | some e ↦
      if is_expired now e.entry
      then (record (remove_element e m) { misses = m.misses + 1 }, none)
      else (record m { evict_list = move_to_front e m.evict_list; hits = m.hits + 1 }, some e.entry)
]

-- The test of the eviction loop in `Set`.
unfoldable pub is_full : ℕ → MemoryBackend → Bool
is_full size m =
    leb_ℤ m.max_entries (pos (length m.evict_list))
    || (ltb_ℤ m.max_bytes (pos (m.size_bytes + size)) && ltb 0 (length m.evict_list))

-- The eviction loop. `none` means that the fuel ran out before the test failed.
unfoldable pub evict_loop : ℕ → ℕ → MemoryBackend → Option MemoryBackend
evict_loop zero size m = none
evict_loop (suc fuel) size m = elim (is_full size m) [
  | true ↦ evict_loop fuel size (evict_oldest m)
  | false ↦ some m
]

-- The removal of an entry that is already there under the key.
unfoldable pub drop_old : Bytes → MemoryBackend → MemoryBackend
unfolding map_get remove_element
drop_old key m = elim (map_get key m.items) [ none ↦ m | some e ↦ remove_element e m ]

-- What `Set` does when there is room.
unfoldable pub push_front : Bytes → Entry → MemoryBackend → MemoryBackend
unfolding map_set
push_front key entry m =
    let e : Element = record { id = m.next_id; key = key; entry = entry } in
    record m {
      items = map_set key e m.items;
      evict_list = e ∷ m.evict_list;
      next_id = m.next_id + 1;
      size_bytes = m.size_bytes + entry.size;
      stores = m.stores + 1;
    }

-- `Set`, with the fuel that the number of elements needs; `none` is a call that never returns.
unfoldable pub set : Bytes → Entry → MemoryBackend → Option MemoryBackend
unfolding drop_old evict_loop push_front
set key entry m =
    let m₁ = drop_old key m in
    elim (evict_loop (suc (length m₁.evict_list)) entry.size m₁) [
      | none ↦ none
      | some m₂ ↦ some (push_front key entry m₂)
    ]

unfoldable pub delete : Bytes → MemoryBackend → MemoryBackend × Bool
unfolding map_get remove_element
delete key m = elim (map_get key m.items) [
  | none ↦ (m, false)
  | some e ↦ (remove_element e m, true)
]

-- `splitCacheKey`.
unfoldable pub split_cache_key : Bytes → List Bytes
unfolding split
split_cache_key key = split key b'|'

-- `containsPrefix`; without a third part the test fails.
unfoldable pub contains_prefix : Bytes → Bytes → Bool
contains_prefix key prefix = elim (get_elem? (split_cache_key key) 2) [
  | none ↦ false
  | some path ↦ has_prefix path prefix
]

-- The test of `DeleteByPath`.
unfoldable pub has_path : Bytes → Bytes → Bool
has_path key path = elim (get_elem? (split_cache_key key) 2) [
  | none ↦ false
  | some p ↦ str_eq p path
]

-- The second loop of the two bulk deletions.
unfoldable pub remove_all : List Element → ℕ → MemoryBackend → MemoryBackend × ℕ
unfolding remove_element
remove_all [] count m = (m, count)
remove_all (e ∷ es) count m = remove_all es (count + 1) (remove_element e m)

-- The elements that the first loop of the bulk deletions collects from the map.
abbrev pub matching : (Bytes → Bool) → MemoryBackend → List Element
matching p m = filter (λ e. p e.key) (map (λ b. b.1) m.items)

unfoldable pub delete_by_prefix : Bytes → MemoryBackend → MemoryBackend × ℕ
unfolding contains_prefix remove_all
delete_by_prefix prefix m = remove_all (matching (λ k. contains_prefix k prefix) m) 0 m

unfoldable pub delete_by_path : Bytes → MemoryBackend → MemoryBackend × ℕ
unfolding has_path remove_all
delete_by_path path m = remove_all (matching (λ k. has_path k path) m) 0 m

unfoldable pub purge : MemoryBackend → MemoryBackend × ℕ
purge m = (record m { items = []; evict_list = []; size_bytes = 0 }, length m.evict_list)

unfoldable pub len : MemoryBackend → ℕ
len m = length m.evict_list

unfoldable pub increment_bypasses : MemoryBackend → MemoryBackend
increment_bypasses m = record m { bypasses = m.bypasses + 1 }

pub record Stats : Type 0 where
  pub entries : ℕ
  pub size_bytes : ℕ
  pub max_entries : ℤ
  pub max_bytes : ℤ
  pub hits : ℕ
  pub misses : ℕ
  pub bypasses : ℕ
  pub stores : ℕ
  pub evictions : ℕ

unfoldable pub stats : MemoryBackend → Stats
stats m = record {
  entries = length m.evict_list;
  size_bytes = m.size_bytes;
  max_entries = m.max_entries;
  max_bytes = m.max_bytes;
  hits = m.hits;
  misses = m.misses;
  bypasses = m.bypasses;
  stores = m.stores;
  evictions = m.evictions;
}
