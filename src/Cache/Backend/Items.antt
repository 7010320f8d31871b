-- ===== src/Cache/Backend/Items.antt =====
-- The functions of the specification on the element list of internal/cache/cache.go.
use open_flare.Prelude.{
  ℕ, zero, suc, ◌<◌, ◌≤◌, ◌≡◌, refl, ◌∙◌, ap, Bool, true, false, not, List, [], ◌∷◌, none, some,
  map, arith, if-true, if-false, length, take, filter, Option-cases, inl, inr,
}
use native.Mathlib.Decide.{dec_le}
use open_flare.Text.Laws.{str_eq_iff}
use open_flare.Prelude.Int.{ℤ}
use open_flare.Text.{Bytes, str_eq}
use open_flare.Dict.{lookup}
use open_flare.Cache.Backend.{Entry, Element, MemoryBackend}
use open_flare.Cache.Backend.Elements.{find, total, without}
use open_flare.Cache.Backend.Evict.{fits}
use open_flare.Cache.Backend.Lookup.{live, touched}
use open_flare.Cache.Backend.Spec.{
  Lru, found, without_key, bytes_of, has_room, keep, read, write, has,
}

-- What the specification sees of an element, and of a cache.
abbrev pub item : Element → Bytes × Entry
item e = (e.key, e.entry)

unfoldable pub view : MemoryBackend → Lru
view m = map item m.evict_list

-- The functions of the specification read a list of elements as the code's do.
lookup-item :
    (k : Bytes) (l : List Element)
    → lookup k (map item l) ≡ elim (find k l) [ none ↦ none | some e ↦ some e.entry ]
unfolding lookup find
lookup-item k [] = refl
lookup-item k (x ∷ l) = ground (arith, lookup-item k l)

pub filter-item :
    (p : Bytes → Bool) (l : List Element)
    → filter (λ x. p x.0) (map item l) ≡ map item (filter (λ e. p e.key) l)
unfolding filter
filter-item p [] = refl
filter-item p (x ∷ l) = ground (arith, filter-item p l)

take-item : (n : ℕ) (l : List Element) → take n (map item l) ≡ map item (take n l)
take-item zero l = refl
take-item (suc n) [] = refl
take-item (suc n) (x ∷ l) = ap (◌∷◌ (item x)) (take-item n l)

pub length-item : (l : List Element) → length (map item l) ≡ length l
length-item [] = refl
length-item (x ∷ l) = ap suc (length-item l)

bytes_of-item : (l : List Element) → bytes_of (map item l) ≡ total l
unfolding bytes_of total
bytes_of-item [] = refl
bytes_of-item (x ∷ l) = omega (arith, bytes_of-item l)

has_room-item :
    (a b : ℤ) (size : ℕ) (l : List Element) → has_room a b size (map item l) ≡ fits a b size l
unfolding has_room
has_room-item a b size [] = ground (arith, bytes_of-item [])
has_room-item a b size (x ∷ l) = ground (arith, bytes_of-item (x ∷ l), length-item l)

-- The largest number of elements that fits is what the specification keeps.
module _ (a b : ℤ) (size n : ℕ) (l : List Element) (within : n ≤ length l)
    (room : fits a b size (take n l) ≡ true)
    (needed : (k : ℕ) → n < k → k ≤ length l → fits a b size (take k l) ≡ false) where
  pub keep-item :
      (j : ℕ) → n ≤ j → j ≤ length l → keep a b size j (map item l) ≡ map item (take n l)
  unfolding keep
  keep-item zero h k = let none_kept : n ≡ 0 = omega arith in rw none_kept refl
  keep-item (suc j) h k =
      let read : has_room a b size (take (suc j) (map item l)) ≡ fits a b size (take (suc j) l) =
        ap (has_room a b size) (take-item (suc j) l) ∙ has_room-item a b size (take (suc j) l) in
      elim (dec_le n j) [
        | yes le ↦
            if-false _ _ _ (read ∙ needed (suc j) (omega arith) k) ∙ keep-item j le (omega arith)
        | no gt ↦
            let all : suc j ≡ n = omega arith in
            if-true _ _ _ (read ∙ ap (λ i. fits a b size (take i l)) all ∙ room)
            ∙ take-item (suc j) l
            ∙ ap (λ i. map item (take i l)) all
      ]

find-key : (k : Bytes) (l : List Element) (e : Element) → find k l ≡ some e → e.key ≡ k
unfolding find
find-key k [] e h = absurd (ground arith)
find-key k (x ∷ l) e h = ground (arith, find-key k l e, str_eq_iff x.key k)

pub without-item :
    (k : Bytes) (l : List Element) → without_key k (map item l) ≡ map item (without k l)
unfolding without_key without
without-item k l = filter-item (λ j. not (str_eq j k)) l

pub read-item :
    (now : ℕ) (k : Bytes) (l : List Element)
    → read now k (map item l) ≡ (found (live now (find k l)), map item (touched now k l))
unfolding read
read-item now k l = elim (Option-cases (find k l)) [
  | inl p ↦ ground (arith, lookup-item k l)
  | inr (e, p) ↦ ground (arith, lookup-item k l, without-item k l, find-key k l e p)
]

pub write-item :
    (a b : ℤ) (k : Bytes) (e : Entry) (l : List Element)
    → write a b k e (map item l)
      ≡ (k, e) ∷ keep a b e.size (length (without k l)) (map item (without k l))
unfolding write
write-item a b k e l =
    ap (λ x. (k, e) ∷ keep a b e.size (length x) x) (without-item k l)
    ∙ ap (λ n. (k, e) ∷ keep a b e.size n (map item (without k l))) (length-item (without k l))

pub has-item :
    (k : Bytes) (l : List Element)
    → has k (map item l) ≡ elim (find k l) [ none ↦ false | some e ↦ true ]
unfolding has
has-item k l = ground (arith, lookup-item k l)
