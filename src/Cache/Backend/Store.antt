-- ===== src/Cache/Backend/Store.antt =====
-- internal/cache/cache.go: what `Set` does.
use open_flare.Prelude.{
  ℕ, suc, ◌+◌, ◌<◌, ◌≤◌, ◌≡◌, ◌≢◌, sym, ◌∙◌, ap, true, false, ◌∷◌, none, some, arith, length, take,
  All-take,
}
use open_flare.Prelude.Int.{pos, ltb_ℤ, leb_ℤ}
use open_flare.Text.{Bytes}
use open_flare.Cache.Backend.{
  Entry, MemoryBackend, evict_loop, set, drop_old, push_front, remove_element,
}
use open_flare.Cache.Backend.Elements.{without, without-keys}
use open_flare.Cache.Backend.Invariant.{IsValid}
use open_flare.Cache.Backend.Preserve.{drop_old-IsValid, drop_old-without, push_front-IsValid}
use open_flare.Cache.Backend.Evict.{
  fits, IsFramed, IsEvicted, evict_loop-IsEvicted, evict_loop_stuck,
}

drop_old-IsFramed :
    (k : Bytes) (m : MemoryBackend)
    → IsFramed m (drop_old k m) × ((drop_old k m).evictions ≡ m.evictions)
unfolding drop_old remove_element
drop_old-IsFramed k m = ground arith

-- The cache after `Set`, over the elements with other keys: the new element is followed by the `n`
-- elements that were used last, which fit beside the entry; one more would not.
pub record IsStored (key : Bytes) (entry : Entry) (m m' : MemoryBackend) (n : ℕ) : Type 0 where
  pub valid : IsValid m'
  pub list :
      m'.evict_list
      ≡ record { id = m.next_id; key = key; entry = entry } ∷ take n (without key m.evict_list)
  pub within : n ≤ length (without key m.evict_list)
  pub room : fits m.max_entries m.max_bytes entry.size (take n (without key m.evict_list)) ≡ true
  pub needed :
      (k : ℕ)
      → n < k
      → k ≤ length (without key m.evict_list)
      → fits m.max_entries m.max_bytes entry.size (take k (without key m.evict_list)) ≡ false
  pub counted : m'.evictions + n ≡ m.evictions + length (without key m.evict_list)
  pub stores : m'.stores ≡ m.stores + 1
  pub max_entries : m'.max_entries ≡ m.max_entries
  pub max_bytes : m'.max_bytes ≡ m.max_bytes
  pub hits : m'.hits ≡ m.hits
  pub misses : m'.misses ≡ m.misses
  pub bypasses : m'.bypasses ≡ m.bypasses

module _ (key : Bytes) (entry : Entry) (m m₂ : MemoryBackend) (n : ℕ) (v : IsValid m)
    (ev : IsEvicted entry.size (drop_old key m) m₂ n) where
  frame : IsFramed m (drop_old key m) × ((drop_old key m).evictions ≡ m.evictions)
  frame = drop_old-IsFramed key m

  rest : (drop_old key m).evict_list ≡ without key m.evict_list
  rest = drop_old-without m v key

  kept : m₂.evict_list ≡ take n (without key m.evict_list)
  kept = ev.kept ∙ ap (take n) rest

  fits_rest :
      (k : ℕ)
      → fits m.max_entries m.max_bytes entry.size (take k (without key m.evict_list))
        ≡ fits
            (drop_old key m).max_entries
            (drop_old key m).max_bytes
            entry.size
            (take k (drop_old key m).evict_list)
  fits_rest k =
      sym (λ i. fits (frame.0.max_entries i) (frame.0.max_bytes i) entry.size (take k (rest i)))

  address : m₂.next_id ≡ m.next_id
  address = ev.framed.next_id ∙ frame.0.next_id

  push_front-IsStored : IsStored key entry m (push_front key entry m₂) n
  unfolding push_front
  push_front-IsStored = record {
    valid = push_front-IsValid m₂ ev.valid key entry (
        rw kept (
          All-take (λ f. f.key ≢ key) n (without key m.evict_list)
            (without-keys key m.evict_list)));
    list = λ i. record { id = address i; key = key; entry = entry } ∷ kept i;
    within = omega (arith, ev.within, ap length rest);
    room = fits_rest n ∙ ev.room;
    needed = λ k lt le. fits_rest k ∙ ev.needed k lt (omega (arith, ap length rest));
    counted = omega (arith, ev.counted, frame.1, ap length rest);
    stores = ground (arith, ev.framed.stores, frame.0.stores);
    max_entries = ev.framed.max_entries ∙ frame.0.max_entries;
    max_bytes = ev.framed.max_bytes ∙ frame.0.max_bytes;
    hits = ev.framed.hits ∙ frame.0.hits;
    misses = ev.framed.misses ∙ frame.0.misses;
    bypasses = ev.framed.bypasses ∙ frame.0.bypasses;
  }

set_lem :
    (key : Bytes) (entry : Entry) (m m₂ : MemoryBackend)
    → evict_loop (suc (length (drop_old key m).evict_list)) entry.size (drop_old key m) ≡ some m₂
    → set key entry m ≡ some (push_front key entry m₂)
unfolding set
set_lem key entry m m₂ h = rw (h, set)

-- On a valid cache that may hold an entry, `Set` returns. The new entry is in front; of the
-- elements with other keys exactly the most recently used ones stay, in order, as many as fit beside
-- the entry by number and by size; the invariant holds again, and the counters are right.
pub set-IsStored :
    (key : Bytes) (entry : Entry) (m : MemoryBackend)
    → IsValid m
    → ltb_ℤ (pos 0) m.max_entries ≡ true
    → (m' : MemoryBackend) × (n : ℕ) × (set key entry m ≡ some m') × IsStored key entry m m' n
set-IsStored key entry m v p =
    let (m₂, n, run, ev) =
      evict_loop-IsEvicted (suc (length (drop_old key m).evict_list)) entry.size (drop_old key m)
        (drop_old-IsValid m v key) (rw (drop_old-IsFramed key m).0.max_entries p) (omega arith) in
    (
      push_front key entry m₂,
      n,
      set_lem key entry m m₂ run,
      push_front-IsStored key entry m m₂ n v ev,
    )

set-none :
    (key : Bytes) (entry : Entry) (m : MemoryBackend)
    → evict_loop (suc (length (drop_old key m).evict_list)) entry.size (drop_old key m) ≡ none
    → set key entry m ≡ none
unfolding set
set-none key entry m h = rw (h, set)

-- With a limit of no entries, or a negative one, the eviction loop of `Set` does not end: whatever
-- the cache holds, no fuel is enough for it.
pub set_stuck :
    (key : Bytes) (entry : Entry) (m : MemoryBackend) (fuel : ℕ)
    → leb_ℤ m.max_entries (pos 0) ≡ true
    → (evict_loop fuel entry.size (drop_old key m) ≡ none) × (set key entry m ≡ none)
set_stuck key entry m fuel h =
    let h' : leb_ℤ (drop_old key m).max_entries (pos 0) ≡ true =
      rw (drop_old-IsFramed key m).0.max_entries h in
    (
      evict_loop_stuck fuel entry.size (drop_old key m) h',
      set-none key entry m (evict_loop_stuck _ entry.size (drop_old key m) h'),
    )
