-- ===== src/Cache/Backend/Bulk.antt =====
-- internal/cache/cache.go: the loops of the two bulk deletions.
use open_flare.Prelude.{
  ℕ, ◌+◌, ◌≡◌, ◌≢◌, refl, sym, ◌∙◌, ap, Bool, List, [], ◌∷◌, some, map, arith, length, filter, All,
  All-and, Bool-cases, inl, inr,
}
use open_flare.Text.{Bytes}
use open_flare.Text.Laws.{str_eq_refl, str_eq_iff}
use open_flare.Cache.Backend.{Element, MemoryBackend, remove_element, remove_all, matching, map_get}
use open_flare.Cache.Backend.Elements.{find, without, find-without, length-without}
use open_flare.Cache.Backend.Invariant.{
  IsMap, IsValid, remove_element-without, remove_element-IsValid,
}

-- The keys of some elements differ.
abbrev pub HasDistinctKeys : List Element → Type 0
HasDistinctKeys [] = Unit
HasDistinctKeys (e ∷ es) = All (λ f. f.key ≢ e.key) es × HasDistinctKeys es

-- The list without the keys of some elements.
unfoldable pub drop_keys : List Element → List Element → List Element
drop_keys [] l = l
drop_keys (e ∷ es) l = drop_keys es (without e.key l)

found_later :
    (e : Element) (es l : List Element)
    → All (λ f. f.key ≢ e.key) es
    → All (λ f. find f.key l ≡ some f) es
    → All (λ f. find f.key (without e.key l) ≡ some f) es
found_later e es l h k =
    All-and (λ f ne at. ground (arith, find-without f.key e.key l, str_eq_iff e.key f.key, ne, at))
      es h k

pub record IsRemoved (es : List Element) (count : ℕ) (m : MemoryBackend) (r : MemoryBackend × ℕ)
    : Type 0 where
  pub valid : IsValid r.0
  pub list : r.0.evict_list ≡ drop_keys es m.evict_list
  pub counted : r.1 + length r.0.evict_list ≡ count + length m.evict_list

pub remove_all-IsRemoved :
    (es : List Element) (count : ℕ) (m : MemoryBackend)
    → IsValid m
    → HasDistinctKeys es
    → All (λ e. find e.key m.evict_list ≡ some e) es
    → IsRemoved es count m (remove_all es count m)
unfolding remove_all drop_keys
remove_all-IsRemoved [] count m v d h = record { valid = v; list = refl; counted = refl }
remove_all-IsRemoved (e ∷ es) count m v (apart, d) (here, h) =
    let gone = remove_element-without m v e here in
    let later =
      remove_all-IsRemoved es (count + 1) (remove_element e m) (remove_element-IsValid m v e here) d
        (rw gone (found_later e es m.evict_list apart h)) in
    record {
      valid = later.valid;
      list = later.list ∙ ap (drop_keys es) gone;
      counted = omega (
        arith,
        later.counted,
        ap length gone,
        length-without e.key m.evict_list e v.distinct here,
      );
    }

-- The elements of the map, found by their keys.
map_get-values : (m : List (Bytes × Element)) → IsMap m → All (λ b. map_get b.0 m ≡ some b.1) m
unfolding map_get
map_get-values [] h = tt
map_get-values ((k, e) ∷ m) (at, apart, h) = (
  ground (arith, str_eq_refl k),
  All-and (λ b ne p. ground (arith, str_eq_iff k b.0, ne, p)) m apart (map_get-values m h),
)

abbrev pub selected : (Bytes → Bool) → List (Bytes × Element) → List Element
selected p m = filter (λ e. p e.key) (map (λ b. b.1) m)

selected-All :
    (Q : Element → Type 0) (p : Bytes → Bool) (m : List (Bytes × Element))
    → All (λ b. Q b.1) m
    → All Q (selected p m)
unfolding filter
selected-All Q p [] h = tt
selected-All Q p ((k, e) ∷ m) (q, h) = elim (Bool-cases (p e.key)) [
  | inl in_it ↦ rw in_it (q, selected-All Q p m h)
  | inr out ↦ rw out (selected-All Q p m h)
]

other_keys :
    (k : Bytes) (m : List (Bytes × Element))
    → IsMap m
    → All (λ b. b.0 ≢ k) m
    → All (λ b. b.1.key ≢ k) m
other_keys k [] h a = tt
other_keys k ((j, e) ∷ m) (at, _, h) (ne, a) = (rw at ne, other_keys k m h a)

pub selected-distinct :
    (p : Bytes → Bool) (m : List (Bytes × Element)) → IsMap m → HasDistinctKeys (selected p m)
unfolding filter
selected-distinct p [] h = tt
selected-distinct p ((k, e) ∷ m) (at, apart, h) = elim (Bool-cases (p e.key)) [
  | inl in_it ↦ rw in_it (
    selected-All (λ f. f.key ≢ e.key) p m (rw at (other_keys k m h apart)),
    selected-distinct p m h,
  )
  | inr out ↦ rw out (selected-distinct p m h)
]

keyed_values : (m : List (Bytes × Element)) → IsMap m → All (λ b. b.1.key ≡ b.0) m
keyed_values [] h = tt
keyed_values ((k, e) ∷ m) (at, _, h) = (at, keyed_values m h)

pub matching-found :
    (p : Bytes → Bool) (m : MemoryBackend)
    → IsValid m
    → All (λ e. find e.key m.evict_list ≡ some e) (matching p m)
matching-found p m v =
    selected-All (λ e. find e.key m.evict_list ≡ some e) p m.items
      (All-and (λ b at got. sym (v.agree b.1.key) ∙ ap (λ k. map_get k m.items) at ∙ got) m.items
        (keyed_values m.items v.keyed) (map_get-values m.items v.keyed))
