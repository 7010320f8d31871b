-- ===== src/Cache/Backend/Invariant.antt =====
-- The invariant of the cache: the map and the list hold the same elements, no key and no address
-- twice, and `size_bytes` is the sum of the sizes.
use open_flare.Prelude.{
  ◌<◌, ◌≡◌, ◌≢◌, refl, sym, ◌∙◌, ap, List, [], ◌∷◌, none, some, arith, if◌then◌else◌, All,
  Bool-cases, inl, inr,
}
use open_flare.Prelude.Int.{ℤ}
use open_flare.Text.{Bytes, str_eq}
use open_flare.Text.Laws.{str_eq_iff}
use open_flare.Cache.Backend.{
  Element, MemoryBackend, map_get, map_delete, remove_element, new_memory_backend,
}
use open_flare.Cache.Backend.Elements.{
  find, total, AreDistinct, map_get-map_delete, find-All, list_remove-without, without,
  find-without, total-without, without-All, without-AreDistinct,
}

-- A map whose keys are those of its elements, and differ.
abbrev pub IsMap : List (Bytes × Element) → Type 0
IsMap [] = Unit
IsMap ((k, e) ∷ m) = (e.key ≡ k) × All (λ b. b.0 ≢ k) m × IsMap m

pub record IsValid (m : MemoryBackend) : Type 0 where
  pub distinct : AreDistinct m.evict_list
  pub fresh : All (λ e. e.id < m.next_id) m.evict_list
  pub agree : (k : Bytes) → map_get k m.items ≡ find k m.evict_list
  pub keyed : IsMap m.items
  pub sized : m.size_bytes ≡ total m.evict_list

map_delete-All :
    (P : Bytes × Element → Type 0) (k : Bytes) (m : List (Bytes × Element))
    → All P m
    → All P (map_delete k m)
unfolding map_delete
map_delete-All P k [] h = tt
map_delete-All P k ((j, e) ∷ m) (p, h) = elim (Bool-cases (str_eq j k)) [
  | inl same ↦ rw same (map_delete-All P k m h)
  | inr other ↦ rw other (p, map_delete-All P k m h)
]

pub map_delete-IsMap : (k : Bytes) (m : List (Bytes × Element)) → IsMap m → IsMap (map_delete k m)
unfolding map_delete
map_delete-IsMap k [] h = tt
map_delete-IsMap k ((j, e) ∷ m) (p, q, h) = elim (Bool-cases (str_eq j k)) [
  | inl same ↦ rw same (map_delete-IsMap k m h)
  | inr other ↦ rw other (p, map_delete-All (λ b. b.0 ≢ j) k m q, map_delete-IsMap k m h)
]

pub map_delete-keys : (k : Bytes) (m : List (Bytes × Element)) → All (λ b. b.0 ≢ k) (map_delete k m)
unfolding map_delete
map_delete-keys k [] = tt
map_delete-keys k ((j, e) ∷ m) = elim (Bool-cases (str_eq j k)) [
  | inl same ↦ rw same (map_delete-keys k m)
  | inr other ↦ rw other (λ e'. ground (arith, str_eq_iff j k), map_delete-keys k m)
]

pub new_memory_backend-IsValid :
    (max_entries max_bytes : ℤ) → IsValid (new_memory_backend max_entries max_bytes)
unfolding new_memory_backend map_get find total
new_memory_backend-IsValid a b = record {
  distinct = tt;
  fresh = tt;
  agree = λ k. refl;
  keyed = tt;
  sized = refl;
}

module _ (m : MemoryBackend) (v : IsValid m) (e : Element)
    (here : find e.key m.evict_list ≡ some e) where
  pub remove_element-without : (remove_element e m).evict_list ≡ without e.key m.evict_list
  unfolding remove_element
  remove_element-without = list_remove-without e.key m.evict_list e v.distinct here

  pub remove_element-IsValid : IsValid (remove_element e m)
  unfolding remove_element
  remove_element-IsValid =
      let gone = list_remove-without e.key m.evict_list e v.distinct here in
      let sum = total-without e.key m.evict_list e v.distinct here in
      record {
        distinct = rw gone (without-AreDistinct e.key m.evict_list v.distinct);
        fresh = rw gone (without-All (λ f. f.id < m.next_id) e.key m.evict_list v.fresh);
        agree = λ k.
            map_get-map_delete k e.key m.items
            ∙ ap (λ r. if str_eq e.key k then none else r) (v.agree k)
            ∙ sym (find-without k e.key m.evict_list)
            ∙ ap (find k) (sym gone);
        keyed = map_delete-IsMap e.key m.items v.keyed;
        sized = rw gone (omega (arith, v.sized, sum));
      }

-- The element that the map gives for a key is in the list, and has that key.
pub map_get-find :
    (m : MemoryBackend) (k : Bytes) (e : Element)
    → IsValid m
    → map_get k m.items ≡ some e
    → (find k m.evict_list ≡ some e) × (e.key ≡ k) × (find e.key m.evict_list ≡ some e)
map_get-find m k e v p =
    let found : find k m.evict_list ≡ some e = sym (v.agree k) ∙ p in
    let at : e.key ≡ k = (find-All (λ f. f.id < m.next_id) k m.evict_list e v.fresh found).1 in
    (found, at, ap (λ j. find j m.evict_list) at ∙ found)
