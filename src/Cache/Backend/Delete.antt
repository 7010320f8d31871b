-- ===== src/Cache/Backend/Delete.antt =====
-- internal/cache/cache.go: `DeleteByPrefix` and `DeleteByPath`.
use open_flare.Prelude.{
  ℕ, ◌+◌, ◌≡◌, refl, ◌∙◌, ap, Bool, true, false, not, ◌&&◌, List, [], ◌∷◌, some, arith, length,
  filter, any, All, All-map, All-and, Bool-cases, inl, inr,
}
use open_flare.Text.{Bytes, str_eq}
use open_flare.Text.Laws.{str_eq_refl, str_eq_iff}
use open_flare.Cache.Backend.{
  Element, MemoryBackend, remove_all, matching, contains_prefix, has_path, delete_by_prefix,
  delete_by_path, map_get,
}
use open_flare.Cache.Backend.Elements.{find, AreDistinct, without}
use open_flare.Cache.Backend.Invariant.{IsMap, IsValid}
use open_flare.Cache.Backend.Bulk.{
  drop_keys, selected, selected-distinct, matching-found, remove_all-IsRemoved,
}

filter-filter :
    (p q : Element → Bool) (l : List Element) → filter q (filter p l) ≡ filter (λ f. p f && q f) l
unfolding filter
filter-filter p q [] = refl
filter-filter p q (x ∷ l) = ground (arith, filter-filter p q l)

filter_agree :
    (p q : Element → Bool) (l : List Element) → All (λ f. p f ≡ q f) l → filter p l ≡ filter q l
unfolding filter
filter_agree p q [] h = refl
filter_agree p q (x ∷ l) (e, h) = ground (arith, filter_agree p q l h)

abbrev has_key : List Element → Element → Bool
has_key es f = any (λ e. str_eq f.key e.key) es

drop_keys-filter : (es l : List Element) → drop_keys es l ≡ filter (λ f. not (has_key es f)) l
unfolding drop_keys without filter any
drop_keys-filter [] [] = refl
drop_keys-filter [] (x ∷ l) = ap (◌∷◌ x) (drop_keys-filter [] l)
drop_keys-filter (e ∷ es) l =
    drop_keys-filter es (without e.key l)
    ∙ filter-filter (λ f. not (str_eq f.key e.key)) (λ f. not (has_key es f)) l
    ∙ filter_agree _ _ l (All_of l (λ f. ground arith))
  where
    All_of : {P : Element → Type 0} (l : List Element) → ((f : Element) → P f) → All P l
    All_of [] h = tt
    All_of (x ∷ l) h = (h x, All_of l h)

-- Each element is what its key finds.
found_self : (l : List Element) → AreDistinct l → All (λ f. find f.key l ≡ some f) l
unfolding find
found_self [] d = tt
found_self (x ∷ l) (h, d) = (
  ground (arith, str_eq_refl x.key),
  All-and (λ f o at. ground (arith, str_eq_iff x.key f.key, o.1, at)) l h (found_self l d),
)

-- A key that fails the test is on no selected element.
not_selected :
    (p : Bytes → Bool) (f : Element) (m : List (Bytes × Element))
    → p f.key ≡ false
    → has_key (selected p m) f ≡ false
unfolding filter any
not_selected p f [] h = refl
not_selected p f ((k, x) ∷ m) h = ground (arith, not_selected p f m h, str_eq_iff f.key x.key)

-- A key of the map that passes the test is on a selected element.
is_selected :
    (p : Bytes → Bool) (f e : Element) (m : List (Bytes × Element))
    → p f.key ≡ true
    → IsMap m
    → map_get f.key m ≡ some e
    → has_key (selected p m) f ≡ true
unfolding map_get filter any
is_selected p f e [] h k got = absurd (ground arith)
is_selected p f e ((k, x) ∷ m) h (at, apart, h') got =
    ground (arith, is_selected p f e m h h', str_eq_iff f.key x.key, str_eq_iff k f.key)

kept_iff :
    (p : Bytes → Bool) (m : MemoryBackend) (v : IsValid m) (f : Element)
    → find f.key m.evict_list ≡ some f
    → not (has_key (matching p m) f) ≡ not (p f.key)
kept_iff p m v f at = elim (Bool-cases (p f.key)) [
  | inl passes ↦ rw (is_selected p f f m.items passes v.keyed (v.agree f.key ∙ at), passes)
  | inr fails ↦ rw (not_selected p f m.items fails, fails)
]

-- What a bulk deletion with a test of keys leaves: the elements that fail it, in their order, and
-- the number of those deleted.
pub record IsDeleted (p : Bytes → Bool) (m : MemoryBackend) (r : MemoryBackend × ℕ) : Type 0 where
  pub valid : IsValid r.0
  pub list : r.0.evict_list ≡ filter (λ f. not (p f.key)) m.evict_list
  pub counted : r.1 + length r.0.evict_list ≡ length m.evict_list

remove_matching-IsDeleted :
    (p : Bytes → Bool) (m : MemoryBackend)
    → IsValid m
    → IsDeleted p m (remove_all (matching p m) 0 m)
remove_matching-IsDeleted p m v =
    let r =
      remove_all-IsRemoved (matching p m) 0 m v (selected-distinct p m.items v.keyed)
        (matching-found p m v) in
    record {
      valid = r.valid;
      list =
          r.list
          ∙ drop_keys-filter (matching p m) m.evict_list
          ∙ filter_agree _ _ m.evict_list
              (All-map (kept_iff p m v) m.evict_list (found_self m.evict_list v.distinct));
      counted = omega (arith, r.counted);
    }

-- Both bulk deletions, on a valid cache: `DeleteByPrefix` deletes the entries whose third key part
-- begins with the prefix and `DeleteByPath` those whose third key part is the path, and no others;
-- the rest keeps its order, the result counts the deleted ones and the cache stays valid.
pub delete_by-IsDeleted :
    (text : Bytes) (m : MemoryBackend)
    → IsValid m
    → IsDeleted (λ k. contains_prefix k text) m (delete_by_prefix text m)
      × IsDeleted (λ k. has_path k text) m (delete_by_path text m)
unfolding delete_by_prefix delete_by_path
delete_by-IsDeleted text m v = (
  remove_matching-IsDeleted (λ k. contains_prefix k text) m v,
  remove_matching-IsDeleted (λ k. has_path k text) m v,
)
