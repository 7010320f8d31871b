-- ===== src/Cache/Backend/Preserve.antt =====
-- internal/cache/cache.go: the invariant under the methods but `Set` and the bulk deletions.
use open_flare.Prelude.{
  ℕ, ◌<◌, ◌≡◌, ◌≢◌, refl, sym, ◌∙◌, ap, List, [], ◌∷◌, none, some, arith, if◌then◌else◌, All,
  All-map, All-and, Bool-cases, Option-cases, inl, inr,
}
use open_flare.Text.{Bytes, str_eq}
use open_flare.Text.Laws.{str_eq_iff}
use open_flare.Cache.Backend.{
  Entry, Element, MemoryBackend, map_get, move_to_front, evict_oldest, get, drop_old, push_front,
  delete, purge, increment_bypasses, is_expired, back,
}
use open_flare.Cache.Backend.Elements.{
  find, total, map_get-map_set, find-All, list_remove-without, without, find-without, total-without,
  without-others, without_absent, without-All, without-AreDistinct, back-find,
}
use open_flare.Cache.Backend.Invariant.{
  IsValid, map_delete-IsMap, map_delete-keys, remove_element-without, remove_element-IsValid,
  map_get-find,
}

find-none-All : (k : Bytes) (l : List Element) → find k l ≡ none → All (λ f. f.key ≢ k) l
unfolding find
find-none-All k [] p = tt
find-none-All k (x ∷ l) p = elim (Bool-cases (str_eq x.key k)) [
  | inl same ↦ absurd (ground arith)
  | inr other ↦ (λ e. ground (arith, str_eq_iff x.key k), find-none-All k l (ground arith))
]

-- A counter or the order of the list is all that changes.
module _ (m : MemoryBackend) (v : IsValid m) where
  pub evict_oldest-IsValid : IsValid (evict_oldest m)
  unfolding evict_oldest
  evict_oldest-IsValid = elim (Option-cases (back m.evict_list)) [
    | inl p ↦ rw (p, evict_oldest) v
    | inr (e, p) ↦
        let w = remove_element-IsValid m v e (back-find m.evict_list e v.distinct p) in
        rw (p, evict_oldest)
          (record {
            distinct = w.distinct;
            fresh = w.fresh;
            agree = w.agree;
            keyed = w.keyed;
            sized = w.sized;
          })
  ]

  find_touched :
      (j : Bytes) (e : Element)
      → find e.key m.evict_list ≡ some e
      → find j m.evict_list
        ≡ (if str_eq e.key j then some e else find j (without e.key m.evict_list))
  find_touched j e here =
      ground (arith, find-without j e.key m.evict_list, str_eq_iff e.key j, here)

  move_to_front-IsValid :
      (k : Bytes) (e : Element) (hits : ℕ)
      → map_get k m.items ≡ some e
      → IsValid (record m { evict_list = move_to_front e m.evict_list; hits = hits })
  unfolding move_to_front find total
  move_to_front-IsValid k e hits p =
      let (_, at, here) = map_get-find m k e v p in
      let gone = list_remove-without e.key m.evict_list e v.distinct here in
      let sum = total-without e.key m.evict_list e v.distinct here in
      record {
        distinct = rw gone (
          without-others e.key m.evict_list e v.distinct here,
          without-AreDistinct e.key m.evict_list v.distinct,
        );
        fresh = rw gone (
          (find-All (λ f. f.id < m.next_id) e.key m.evict_list e v.fresh here).0,
          without-All (λ f. f.id < m.next_id) e.key m.evict_list v.fresh,
        );
        agree = λ j. v.agree j ∙ rw gone (find_touched j e here);
        keyed = v.keyed;
        sized = rw gone (omega (arith, v.sized, sum));
      }

  pub get-IsValid : (now : ℕ) (k : Bytes) → IsValid (get now k m).0
  unfolding get
  get-IsValid now k = elim (Option-cases (map_get k m.items)) [
    | inl p ↦
        rw (p, get)
          (record {
            distinct = v.distinct;
            fresh = v.fresh;
            agree = v.agree;
            keyed = v.keyed;
            sized = v.sized;
          })
    | inr (e, p) ↦ elim (Bool-cases (is_expired now e.entry)) [
      | inl old ↦
          let w = remove_element-IsValid m v e (map_get-find m k e v p).2 in
          rw (p, old, get)
            (record {
              distinct = w.distinct;
              fresh = w.fresh;
              agree = w.agree;
              keyed = w.keyed;
              sized = w.sized;
            })
      | inr live ↦ rw (p, live, get) (move_to_front-IsValid k e _ p)
    ]
  ]

  pub drop_old-IsValid : (k : Bytes) → IsValid (drop_old k m)
  unfolding drop_old
  drop_old-IsValid k = elim (Option-cases (map_get k m.items)) [
    | inl p ↦ rw (p, drop_old) v
    | inr (e, p) ↦ rw (p, drop_old) (remove_element-IsValid m v e (map_get-find m k e v p).2)
  ]

  pub drop_old-without : (k : Bytes) → (drop_old k m).evict_list ≡ without k m.evict_list
  unfolding drop_old
  drop_old-without k = elim (Option-cases (map_get k m.items)) [
    | inl p ↦
        rw (p, drop_old)
          (sym (without_absent k m.evict_list (find-none-All k m.evict_list (sym (v.agree k) ∙ p))))
    | inr (e, p) ↦
        let (_, at, here) = map_get-find m k e v p in
        rw (p, drop_old) (remove_element-without m v e here ∙ ap (λ j. without j m.evict_list) at)
  ]

  pub delete-IsValid : (k : Bytes) → IsValid (delete k m).0
  unfolding delete
  delete-IsValid k = elim (Option-cases (map_get k m.items)) [
    | inl p ↦ rw (p, delete) v
    | inr (e, p) ↦ rw (p, delete) (remove_element-IsValid m v e (map_get-find m k e v p).2)
  ]

  pub push_front-IsValid :
      (k : Bytes) (entry : Entry)
      → All (λ f. f.key ≢ k) m.evict_list
      → IsValid (push_front k entry m)
  unfolding push_front find total
  push_front-IsValid k entry h = record {
    distinct = (All-and (λ f lt ne. (λ q. omega arith, ne)) m.evict_list v.fresh h, v.distinct);
    fresh = (omega arith, All-map (λ f lt. omega arith) m.evict_list v.fresh);
    agree = λ j.
        let e : Element = record { id = m.next_id; key = k; entry = entry } in
        map_get-map_set j k e m.items ∙ ap (λ r. if str_eq k j then some e else r) (v.agree j);
    keyed = (refl, map_delete-keys k m.items, map_delete-IsMap k m.items v.keyed);
    sized = omega (arith, v.sized);
  }

  pub purge-IsValid : IsValid (purge m).0
  unfolding purge map_get find total
  purge-IsValid = record { distinct = tt; fresh = tt; agree = λ k. refl; keyed = tt; sized = refl }

  pub increment_bypasses-IsValid : IsValid (increment_bypasses m)
  unfolding increment_bypasses
  increment_bypasses-IsValid = record {
    distinct = v.distinct;
    fresh = v.fresh;
    agree = v.agree;
    keyed = v.keyed;
    sized = v.sized;
  }
