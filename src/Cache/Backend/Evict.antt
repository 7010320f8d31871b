-- ===== src/Cache/Backend/Evict.antt =====
-- internal/cache/cache.go: the eviction loop of `Set`.
use open_flare.Prelude.{
  ℕ, zero, suc, ◌+◌, ◌-◌, ◌<◌, ◌≤◌, ◌≡◌, refl, sym, ◌∙◌, ap, Bool, true, false, not, ◌&&◌, ◌||◌,
  List, [], ◌∷◌, none, some, arith, length, is_nil, take, Bool-cases, Option-cases, inl, inr, ltb,
  length-take, take_of_length-le,
}
use open_flare.Prelude.Int.{ℤ, pos, ltb_ℤ, leb_ℤ}
use native.Mathlib.Decide.{dec_le}
use open_flare.Cache.Backend.{
  Element, MemoryBackend, evict_oldest, remove_element, is_full, evict_loop, back,
}
use open_flare.Cache.Backend.Elements.{total, without-back, back-find, back-none, take-take}
use open_flare.Cache.Backend.Invariant.{IsValid, remove_element-without}
use open_flare.Cache.Backend.Preserve.{evict_oldest-IsValid}

-- There is room for one more element of the size beside these.
abbrev pub fits : ℤ → ℤ → ℕ → List Element → Bool
fits max_entries max_bytes size l =
    ltb_ℤ (pos (length l)) max_entries && (leb_ℤ (pos (total l + size)) max_bytes || is_nil l)

full_or_fits :
    (a b : ℤ) (size : ℕ) (l : List Element)
    → (leb_ℤ a (pos (length l)) || (ltb_ℤ b (pos (total l + size)) && ltb 0 (length l)))
      ≡ not (fits a b size l)
full_or_fits a b size [] = ground arith
full_or_fits a b size (e ∷ l) = ground arith

is_full-fits :
    (size : ℕ) (m : MemoryBackend)
    → m.size_bytes ≡ total m.evict_list
    → is_full size m ≡ not (fits m.max_entries m.max_bytes size m.evict_list)
unfolding is_full
is_full-fits size m h = rw (h, is_full) (full_or_fits m.max_entries m.max_bytes size m.evict_list)

-- Without elements there is room, as soon as one entry is allowed.
full-ne-nil :
    (size : ℕ) (m : MemoryBackend)
    → ltb_ℤ (pos 0) m.max_entries ≡ true
    → is_full size m ≡ true
    → 0 < length m.evict_list
unfolding is_full
full-ne-nil size m p h = ground arith

-- One eviction keeps all elements but the last.
evict_oldest-take :
    (n : ℕ) (m : MemoryBackend)
    → IsValid m
    → length m.evict_list ≡ suc n
    → ((evict_oldest m).evict_list ≡ take n m.evict_list)
      × ((evict_oldest m).evictions ≡ m.evictions + 1)
unfolding evict_oldest
evict_oldest-take n m v h = elim (Option-cases (back m.evict_list)) [
  | inl p ↦ absurd (omega (arith, ap length (back-none m.evict_list p)))
  | inr (e, p) ↦
      rw (p, evict_oldest)
        (
          remove_element-without m v e (back-find m.evict_list e v.distinct p)
              ∙ without-back n m.evict_list e v.distinct h p,
          refl,
        )
]

-- What an eviction leaves alone.
pub record IsFramed (m m' : MemoryBackend) : Type 0 where
  pub max_entries : m'.max_entries ≡ m.max_entries
  pub max_bytes : m'.max_bytes ≡ m.max_bytes
  pub next_id : m'.next_id ≡ m.next_id
  pub hits : m'.hits ≡ m.hits
  pub misses : m'.misses ≡ m.misses
  pub bypasses : m'.bypasses ≡ m.bypasses
  pub stores : m'.stores ≡ m.stores

evict_oldest-IsFramed : (m : MemoryBackend) → IsFramed m (evict_oldest m)
unfolding evict_oldest remove_element
evict_oldest-IsFramed m = ground arith

-- `m'` is `m` with its `n` most recently used elements, the largest number that leaves room.
pub record IsEvicted (size : ℕ) (m m' : MemoryBackend) (n : ℕ) : Type 0 where
  pub valid : IsValid m'
  pub framed : IsFramed m m'
  pub kept : m'.evict_list ≡ take n m.evict_list
  pub within : n ≤ length m.evict_list
  pub room : fits m.max_entries m.max_bytes size (take n m.evict_list) ≡ true
  pub needed :
      (k : ℕ)
      → n < k
      → k ≤ length m.evict_list
      → fits m.max_entries m.max_bytes size (take k m.evict_list) ≡ false
  pub counted : m'.evictions + n ≡ m.evictions + length m.evict_list

-- No eviction at all.
evict_none :
    (size : ℕ) (m : MemoryBackend)
    → IsValid m
    → is_full size m ≡ false
    → IsEvicted size m m (length m.evict_list)
evict_none size m v h =
    let whole = take_of_length-le (length m.evict_list) m.evict_list (omega arith) in
    record {
      valid = v;
      framed = ground arith;
      kept = sym whole;
      within = omega arith;
      room = rw whole (ground (arith, is_full-fits size m v.sized));
      needed = λ k lt le. absurd (omega arith);
      counted = refl;
    }

-- One eviction, and then those that make the rest fit.
module _ (size q n : ℕ) (m m₁ m' : MemoryBackend) (v : IsValid m) (full : is_full size m ≡ true)
    (len : length m.evict_list ≡ suc q) (one : m₁.evict_list ≡ take q m.evict_list)
    (count : m₁.evictions ≡ m.evictions + 1) (frame : IsFramed m m₁)
    (more : IsEvicted size m₁ m' n) where
  n-le : n ≤ q
  n-le = omega (arith, more.within, ap length one, length-take q m.evict_list)

  shorter : (k : ℕ) → k ≤ q → take k m₁.evict_list ≡ take k m.evict_list
  shorter k h = ap (take k) one ∙ take-take k q m.evict_list h

  all_full : fits m.max_entries m.max_bytes size (take (suc q) m.evict_list) ≡ false
  all_full =
      rw (take_of_length-le (suc q) m.evict_list (omega arith))
        (ground (arith, is_full-fits size m v.sized, full))

  needed_longer :
      (k : ℕ)
      → n < k
      → k ≤ length m.evict_list
      → fits m.max_entries m.max_bytes size (take k m.evict_list) ≡ false
  needed_longer k lt le = elim (dec_le k q) [
    | yes h ↦
        rw (← shorter k h, ← frame.max_entries, ← frame.max_bytes)
          (more.needed k lt (omega (arith, ap length one, length-take q m.evict_list)))
    | no h ↦ let last : k ≡ suc q = omega arith in rw last all_full
  ]

  evict_more : IsEvicted size m m' n
  evict_more = record {
    valid = more.valid;
    framed = ground (arith, more.framed);
    kept = more.kept ∙ shorter n n-le;
    within = omega (arith, n-le);
    room = rw (← shorter n n-le, ← frame.max_entries, ← frame.max_bytes) more.room;
    needed = needed_longer;
    counted = omega (arith, more.counted, count, ap length one, length-take q m.evict_list);
  }

evict_loop_full :
    (fuel size : ℕ) (m : MemoryBackend)
    → is_full size m ≡ true
    → evict_loop (suc fuel) size m ≡ evict_loop fuel size (evict_oldest m)
unfolding evict_loop
evict_loop_full fuel size m h = rw (h, evict_loop)

evict_loop_room :
    (fuel size : ℕ) (m : MemoryBackend)
    → is_full size m ≡ false
    → evict_loop (suc fuel) size m ≡ some m
unfolding evict_loop
evict_loop_room fuel size m h = rw (h, evict_loop)

pub evict_loop-IsEvicted :
    (fuel size : ℕ) (m : MemoryBackend)
    → IsValid m
    → ltb_ℤ (pos 0) m.max_entries ≡ true
    → length m.evict_list < fuel
    → (m' : MemoryBackend) × (n : ℕ) × (evict_loop fuel size m ≡ some m') × IsEvicted size m m' n
evict_loop-IsEvicted zero size m v p h = absurd (omega arith)
evict_loop-IsEvicted (suc fuel) size m v p h = elim (Bool-cases (is_full size m)) [
  | inl full ↦
      let q = length m.evict_list - 1 in
      let len : length m.evict_list ≡ suc q = omega (arith, full-ne-nil size m p full) in
      let m₁ = evict_oldest m in
      let (one, count) = evict_oldest-take q m v len in
      let frame = evict_oldest-IsFramed m in
      let (m', n, run, more) =
        evict_loop-IsEvicted fuel size (evict_oldest m) (evict_oldest-IsValid m v)
          (rw frame.max_entries p) (omega (arith, ap length one, length-take q m.evict_list)) in
      (
        m',
        n,
        evict_loop_full fuel size m full ∙ run,
        evict_more size q n m m₁ m' v full len one count frame more,
      )
  | inr room ↦ (m, length m.evict_list, evict_loop_room fuel size m room, evict_none size m v room)
]

always_full :
    (size : ℕ) (m : MemoryBackend) → leb_ℤ m.max_entries (pos 0) ≡ true → is_full size m ≡ true
unfolding is_full
always_full size m h = ground arith

-- Without room for a single entry the loop never ends, whatever the fuel.
pub evict_loop_stuck :
    (fuel size : ℕ) (m : MemoryBackend)
    → leb_ℤ m.max_entries (pos 0) ≡ true
    → evict_loop fuel size m ≡ none
unfolding evict_loop
evict_loop_stuck zero size m h = refl
evict_loop_stuck (suc fuel) size m h =
    rw (always_full size m h, evict_loop)
      (evict_loop_stuck fuel size (evict_oldest m) (rw (evict_oldest-IsFramed m).max_entries h))
