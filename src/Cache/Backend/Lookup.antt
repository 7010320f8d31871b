-- ===== src/Cache/Backend/Lookup.antt =====
-- internal/cache/cache.go: what `Get` returns and what it changes, and reads after `Set`.
use open_flare.Prelude.{
  ℕ, zero, suc, ◌+◌, ◌≡◌, ◌≢◌, refl, sym, ◌∙◌, ap, true, false, List, [], ◌∷◌, Option, ◌⊎◌, none,
  some, arith, if◌then◌else◌, take, Bool-cases, Option-cases, inl, inr,
}
use mathlib.Core.Path.{subst}
use open_flare.Prelude.Int.{pos, ltb_ℤ}
use open_flare.Text.{Bytes}
use open_flare.Text.Laws.{str_eq_refl, str_eq_iff}
use open_flare.Cache.Backend.{
  Entry, Element, MemoryBackend, get, set, is_expired, map_get, remove_element, move_to_front,
}
use open_flare.Cache.Backend.Elements.{find, without, find-without, list_remove-without}
use open_flare.Cache.Backend.Invariant.{IsValid, map_get-find, remove_element-without}
use open_flare.Cache.Backend.Store.{IsStored, set-IsStored, set_stuck}

-- The entry of an element that has not expired.
abbrev pub live : ℕ → Option Element → Option Entry
live now none = none
live now (some e) = if is_expired now e.entry then none else some e.entry

-- The list after a read: a live element moves to the front, an expired one is gone.
abbrev pub touched : ℕ → Bytes → List Element → List Element
touched now k l = elim (find k l) [
  | none ↦ l
  | some e ↦ if is_expired now e.entry then without k l else e ∷ without k l
]

-- The branches of `Get`.
get_miss :
    (now : ℕ) (k : Bytes) (m : MemoryBackend)
    → map_get k m.items ≡ none
    → get now k m ≡ (record m { misses = m.misses + 1 }, none)
unfolding get
get_miss now k m p = rw (p, get)

get_expired :
    (now : ℕ) (k : Bytes) (m : MemoryBackend) (e : Element)
    → map_get k m.items ≡ some e
    → is_expired now e.entry ≡ true
    → get now k m ≡ (record (remove_element e m) { misses = m.misses + 1 }, none)
unfolding get
get_expired now k m e p q = rw (p, q, get)

get_live :
    (now : ℕ) (k : Bytes) (m : MemoryBackend) (e : Element)
    → map_get k m.items ≡ some e
    → is_expired now e.entry ≡ false
    → get now k m
      ≡ (record m { evict_list = move_to_front e m.evict_list; hits = m.hits + 1 }, some e.entry)
unfolding get
get_live now k m e p q = rw (p, q, get)

abbrev pub hit_count : Option Entry → ℕ
hit_count none = 0
hit_count (some e) = 1

abbrev pub miss_count : Option Entry → ℕ
miss_count none = 1
miss_count (some e) = 0

-- What a read gives and leaves.
pub record IsRead (now : ℕ) (k : Bytes) (m : MemoryBackend) (r : MemoryBackend × Option Entry)
    : Type 0 where
  pub result : r.1 ≡ live now (find k m.evict_list)
  pub list : r.0.evict_list ≡ touched now k m.evict_list
  pub hits : r.0.hits ≡ m.hits + hit_count r.1
  pub misses : r.0.misses ≡ m.misses + miss_count r.1
  pub evictions : r.0.evictions ≡ m.evictions
  pub bypasses : r.0.bypasses ≡ m.bypasses
  pub stores : r.0.stores ≡ m.stores

module _ (now : ℕ) (k : Bytes) (m : MemoryBackend) (v : IsValid m) where
  IsRead-miss : map_get k m.items ≡ none → IsRead now k m (record m { misses = m.misses + 1 }, none)
  IsRead-miss p =
      let absent : find k m.evict_list ≡ none = sym (v.agree k) ∙ p in
      record {
        result = rw absent;
        list = rw (absent, touched);
        hits = omega arith;
        misses = refl;
        evictions = refl;
        bypasses = refl;
        stores = refl;
      }

  IsRead-expired :
      (e : Element)
      → map_get k m.items ≡ some e
      → is_expired now e.entry ≡ true
      → IsRead now k m (record (remove_element e m) { misses = m.misses + 1 }, none)
  unfolding remove_element
  IsRead-expired e p old =
      let (found, at, here) = map_get-find m k e v p in
      let gone : (remove_element e m).evict_list ≡ without e.key m.evict_list =
        remove_element-without m v e here in
      record {
        result = rw (found, live, old);
        list = gone ∙ ap (λ j. without j m.evict_list) at ∙ sym (rw (found, touched, old));
        hits = omega arith;
        misses = refl;
        evictions = refl;
        bypasses = refl;
        stores = refl;
      }

  IsRead-live :
      (e : Element)
      → map_get k m.items ≡ some e
      → is_expired now e.entry ≡ false
      → IsRead now k m
          (record m { evict_list = move_to_front e m.evict_list; hits = m.hits + 1 }, some e.entry)
  unfolding move_to_front
  IsRead-live e p fine =
      let (found, at, here) = map_get-find m k e v p in
      let gone = list_remove-without e.key m.evict_list e v.distinct here in
      record {
        result = rw (found, live, fine);
        list =
            ap (◌∷◌ e) (gone ∙ ap (λ j. without j m.evict_list) at)
            ∙ sym (rw (found, touched, fine));
        hits = refl;
        misses = omega arith;
        evictions = refl;
        bypasses = refl;
        stores = refl;
      }

-- On a valid cache `Get` returns the entry of the key if the list has one that has not expired. A
-- hit moves its element to the front, an expired element is removed, and the order of all others
-- stays; the hit or the miss is counted, and an expiry is not counted as an eviction.
pub get-IsRead :
    (now : ℕ) (k : Bytes) (m : MemoryBackend) → IsValid m → IsRead now k m (get now k m)
get-IsRead now k m v = elim (Option-cases (map_get k m.items)) [
  | inl p ↦ rw (get_miss now k m p) (IsRead-miss now k m v p)
  | inr (e, p) ↦ elim (Bool-cases (is_expired now e.entry)) [
    | inl old ↦ rw (get_expired now k m e p old) (IsRead-expired now k m v e p old)
    | inr fine ↦ rw (get_live now k m e p fine) (IsRead-live now k m v e p fine)
  ]
]

-- A search in the elements that are kept finds what a search in all finds, or nothing.
find-take :
    (j : Bytes) (n : ℕ) (l : List Element) (e : Element)
    → find j (take n l) ≡ some e
    → find j l ≡ some e
unfolding find
find-take j zero l e p = absurd (ground arith)
find-take j (suc n) [] e p = absurd (ground arith)
find-take j (suc n) (x ∷ l) e p = ground (arith, find-take j n l e)

module _ (k : Bytes) (entry : Entry) (m m' : MemoryBackend) (n : ℕ)
    (st : IsStored k entry m m' n) where
  find_stored : (e : Element) × (find k m'.evict_list ≡ some e) × (e.entry ≡ entry)
  unfolding find
  find_stored =
      (record { id = m.next_id; key = k; entry = entry }, rw (st.list, find, str_eq_refl k), refl)

  find_kept : (j : Bytes) → j ≢ k → find j m'.evict_list ≡ find j (take n (without k m.evict_list))
  unfolding find
  find_kept j h = rw (st.list, find) (ground (arith, str_eq_iff k j))

  find_other :
      (j : Bytes)
      → j ≢ k
      → (find j m'.evict_list ≡ find j m.evict_list) ⊎ (find j m'.evict_list ≡ none)
  find_other j h = elim (Option-cases (find j m'.evict_list)) [
    | inl p ↦ inr p
    | inr (e, p) ↦
        let kept = find-take j n (without k m.evict_list) e (sym (find_kept j h) ∙ p) in
        inl (ground (arith, find-without j k m.evict_list, str_eq_iff k j))
  ]

-- A `Set` that returned was on a cache that may hold an entry.
pub set-some :
    (k : Bytes) (entry : Entry) (m m' : MemoryBackend)
    → IsValid m
    → set k entry m ≡ some m'
    → (n : ℕ) × IsStored k entry m m' n
set-some k entry m m' v p = elim (Bool-cases (ltb_ℤ (pos 0) m.max_entries)) [
  | inl may ↦
      let (m₂, n, run, st) = set-IsStored k entry m v may in
      let same : m₂ ≡ m' = ground (arith, sym run ∙ p) in
      (n, subst (λ x. IsStored k entry m x n) same st)
  | inr not_one ↦ absurd (ground (arith, (set_stuck k entry m 0 (ground arith)).1))
]

-- Reads after a `Set` that returned, on a valid cache: the key gives the entry just stored, until it
-- expires, and any other key gives what it gave before or, having been evicted, nothing.
pub get-set :
    (now : ℕ) (k j : Bytes) (entry : Entry) (m m' : MemoryBackend)
    → IsValid m
    → set k entry m ≡ some m'
    → ((get now k m').1 ≡ (if is_expired now entry then none else some entry))
      × (j ≢ k → ((get now j m').1 ≡ (get now j m).1) ⊎ ((get now j m').1 ≡ none))
get-set now k j entry m m' v p =
    let (n, st) = set-some k entry m m' v p in
    let (e, found, stored) = find_stored k entry m m' n st in
    (
      (get-IsRead now k m' st.valid).result ∙ ap (live now) found ∙ ground (arith, stored),
      λ h. other_read n st (find_other k entry m m' n st j h),
    )
  where
    other_read :
        (n : ℕ)
        → IsStored k entry m m' n
        → ((find j m'.evict_list ≡ find j m.evict_list) ⊎ (find j m'.evict_list ≡ none))
        → ((get now j m').1 ≡ (get now j m).1) ⊎ ((get now j m').1 ≡ none)
    other_read n st (inl same) = inl (
        (get-IsRead now j m' st.valid).result
        ∙ ap (live now) same
        ∙ sym (get-IsRead now j m v).result)
    other_read n st (inr gone) = inr ((get-IsRead now j m' st.valid).result ∙ ap (live now) gone)
