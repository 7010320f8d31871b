-- ===== src/Normalize/Gather.antt =====
-- internal/normalize/normalize.go, Query: the keys of the map, and the settings that the loop over
-- the sorted keys and values writes.
use mathlib.Core.Logic.Or
use mathlib.Core.HLevel.{⊥_prop}
use mathlib.Core.List.{
  Mem, Mem-prop, Nodup, Perm, mem-cons_self, mem-cons_of_mem, not-mem-nil, perm_append_singleton,
  Nodup-cons, perm_ext_iff_of_Nodup, perm_middle, mem-append, mem-append_left, mem-append_right,
  Nodup-nil, eq-or-mem_of_mem-cons, mem-map_of_mem, append_assoc, append-nil, filter_map,
}
use mathlib.Core.List.Perm
use open_flare.Prelude.{
  ◌≡◌, ◌≢◌, ◌↔◌, ◌⊎◌, inl, inr, refl, sym, ap, ◌∙◌, false, List, [], ◌∷◌, ◌++◌, map, arith,
  Bool-cases,
}
use open_flare.Text.{Bytes, str_eq, sort}
use open_flare.Text.Laws.{str_eq_iff}
use open_flare.Text.Sorted.{sort-perm, sort-eq_of_perm}
use open_flare.Url.{add_value, Values}
use open_flare.Normalize.{values_of}
use open_flare.Normalize.Settings.{
  Setting, add_all, values, values-cons, values_of-add_value, holding,
}

abbrev pub keys : Values → List Bytes
keys m = map (λ b. b.0) m

-- A new key is put at the end; one that is there stays where it is.
keys-add_value :
    (k v : Bytes) (m : Values)
    → ((keys (add_value k v m) ≡ keys m) × Mem k (keys m))
      ⊎ ((keys (add_value k v m) ≡ keys m ++ k ∷ []) × (¬ Mem k (keys m)))
unfolding add_value
keys-add_value k v [] = inr (refl, not-mem-nil)
keys-add_value k v ((j, vs) ∷ m) = elim (Bool-cases (str_eq j k)) [
  | inl h ↦ let same : j ≡ k = (str_eq_iff j k).0 h in rw (h, same) (inl (refl, mem-cons_self))
  | inr h ↦
      let ne : k ≢ j = ground (arith, str_eq_iff j k) in
      rw h (elim (keys-add_value k v m) [
        | inl (e, here) ↦ inl (ap (◌∷◌ j) e, mem-cons_of_mem j here)
        | inr (e, absent) ↦
            inr (ap (◌∷◌ j) e, λ there. Or.elim ⊥_prop (eq-or-mem_of_mem-cons there) ne absent)
      ])
]

-- The key and the keys that were there, each once.
module _ (k v : Bytes) (m : Values) where
  keys-add_value-Nodup : Nodup (keys m) → Nodup (keys (add_value k v m))
  keys-add_value-Nodup h = elim (keys-add_value k v m) [
    | inl (e, _) ↦ rw e h
    | inr (e, absent) ↦
        rw e (Perm.nodup (Perm.symm (perm_append_singleton k (keys m))) (Nodup-cons.1 (absent, h)))
  ]

  keys-add_value-Mem : (a : Bytes) → Mem a (keys (add_value k v m)) ↔ Mem a (k ∷ keys m)
  keys-add_value-Mem a = elim (keys-add_value k v m) [
    | inl (e, here) ↦ rw e (
      mem-cons_of_mem k,
      λ there. Or.elim Mem-prop (eq-or-mem_of_mem-cons there) (λ same. rw same here) (λ old. old),
    )
    | inr (e, _) ↦ rw e (Perm.mem_iff (perm_append_singleton k (keys m)))
  ]

pub keys-add_all-Nodup :
    (l : List Setting) (m : Values) → Nodup (keys m) → Nodup (keys (add_all l m))
unfolding add_all
keys-add_all-Nodup [] m h = h
keys-add_all-Nodup ((k, v) ∷ l) m h =
    keys-add_all-Nodup l (add_value k v m) (keys-add_value-Nodup k v m h)

names : List Setting → List Bytes
names l = map (λ x. x.0) l

mem_append_congr :
    (a : Bytes) (xs ys zs : List Bytes)
    → (Mem a ys → Mem a zs)
    → Mem a (xs ++ ys)
    → Mem a (xs ++ zs)
mem_append_congr a xs ys zs f h =
    Or.elim Mem-prop (mem-append.0 h) (mem-append_left zs) (λ m. mem-append_right xs (f m))

keys-add_all-Mem :
    (l : List Setting) (m : Values) (a : Bytes)
    → Mem a (keys (add_all l m)) ↔ Mem a (names l ++ keys m)
unfolding add_all names
keys-add_all-Mem [] m a = (λ h. h, λ h. h)
keys-add_all-Mem ((k, v) ∷ l) m a =
    let (into, back) = keys-add_all-Mem l (add_value k v m) a in
    let (into_one, back_one) = keys-add_value-Mem k v m a in
    let middle = perm_middle {a = k} (names l) (keys m) in
    (
      λ h. (Perm.mem_iff middle).0 (mem_append_congr a (names l) _ _ into_one (into h)),
      λ h. back (mem_append_congr a (names l) _ _ back_one ((Perm.mem_iff middle).1 h)),
    )

pub values_of-add_all :
    (k : Bytes) (l : List Setting) (m : Values)
    → values_of k (add_all l m) ≡ values_of k m ++ values k l
unfolding add_all values
values_of-add_all k [] m = sym (append-nil (values_of k m))
values_of-add_all k ((j, v) ∷ l) m =
    values_of-add_all k l (add_value j v m) ∙ (elim (Bool-cases (str_eq j k)) [
      | inl h ↦
          rw (values_of-add_value k j v m, values-cons k (j, v) l, h)
            (append_assoc (values_of k m) (v ∷ []) (values k l))
      | inr h ↦ rw (values_of-add_value k j v m, values-cons k (j, v) l, h) refl
    ])

-- Rearranged settings have the same keys, and the same values under each key.
module _ (l r : List Setting) (p : Perm l r) where
  pub sorted_keys_of_perm : sort (keys (add_all l [])) ≡ sort (keys (add_all r []))
  unfolding names
  sorted_keys_of_perm =
      let names_perm = Perm.append_right (keys []) (Perm.map (λ x. x.0) p) in
      sort-eq_of_perm _ _ (
        (perm_ext_iff_of_Nodup (keys-add_all-Nodup l [] Nodup-nil)
            (keys-add_all-Nodup r [] Nodup-nil)).1
          λ a. (
            λ h.
                (keys-add_all-Mem r [] a).1
                  ((Perm.mem_iff names_perm).0 ((keys-add_all-Mem l [] a).0 h)),
            λ h.
                (keys-add_all-Mem l [] a).1
                  ((Perm.mem_iff names_perm).1 ((keys-add_all-Mem r [] a).0 h)),
          ))

  pub sorted_values_of_perm : (k : Bytes) → sort (values k l) ≡ sort (values k r)
  unfolding values
  sorted_values_of_perm k =
      sort-eq_of_perm (values k l) (values k r) (Perm.filter_map (holding k) p)

-- The settings of the keys, by key and by value.
unfoldable pub gathered : List Bytes → List Setting → List Setting
unfolding values sort
gathered [] l = []
gathered (k ∷ ks) l = map (λ v. (k, v)) (sort (values k l)) ++ gathered ks l

-- The order in which `Query` writes the settings.
unfoldable pub canonical : List Setting → List Setting
unfolding gathered sort add_all
canonical l = gathered (sort (keys (add_all l []))) l

gathered_of_perm : (ks : List Bytes) (l r : List Setting) → Perm l r → gathered ks l ≡ gathered ks r
unfolding gathered
gathered_of_perm [] l r p = refl
gathered_of_perm (k ∷ ks) l r p = rw (sorted_values_of_perm l r p k, gathered_of_perm ks l r p) refl

-- Rearranged settings are written alike.
pub canonical_of_perm : (l r : List Setting) → Perm l r → canonical l ≡ canonical r
unfolding canonical
canonical_of_perm l r p =
    rw (sorted_keys_of_perm l r p) (gathered_of_perm (sort (keys (add_all r []))) l r p)

gathered-nil : (ks : List Bytes) → gathered ks [] ≡ []
unfolding gathered values filter_map sort
gathered-nil [] = refl
gathered-nil (k ∷ ks) = gathered-nil ks

-- Keys that are not that of a setting are written without it.
gathered-absent :
    (ks : List Bytes) (x : Setting) (l : List Setting)
    → (¬ Mem x.0 ks)
    → gathered ks (x ∷ l) ≡ gathered ks l
unfolding gathered
gathered-absent [] x l h = refl
gathered-absent (k ∷ ks) x l h =
    let other : str_eq x.0 k ≡ false = elim (Bool-cases (str_eq x.0 k)) [
      | inl e ↦ absurd (h (rw ((str_eq_iff x.0 k).0 e) mem-cons_self))
      | inr e ↦ e
    ] in
    rw (values-cons k x l, other, gathered-absent ks x l (λ m. h (mem-cons_of_mem k m))) refl

sort-cons-perm : (v : Bytes) (vs : List Bytes) → Perm (sort (v ∷ vs)) (v ∷ sort vs)
sort-cons-perm v vs = Perm.trans (sort-perm (v ∷ vs)) (Perm.cons v (Perm.symm (sort-perm vs)))

-- A key that is there once is written with one setting more.
gathered-cons :
    (ks : List Bytes) (x : Setting) (l : List Setting)
    → Nodup ks
    → Mem x.0 ks
    → Perm (gathered ks (x ∷ l)) (x ∷ gathered ks l)
unfolding gathered
gathered-cons [] x l h m = absurd (not-mem-nil m)
gathered-cons (k ∷ ks) (j, v) l h m =
    let (absent, distinct) = Nodup-cons.0 h in
    elim (Bool-cases (str_eq j k)) [
      | inl e ↦
          let same : k ≡ j = sym ((str_eq_iff j k).0 e) in
          let more = Perm.map (λ w. (k, w)) (sort-cons-perm v (values k l)) in
          let rest = gathered-absent ks (j, v) l (λ there. absent (rw same there)) in
          rw (values-cons k (j, v) l, e, rest)
            (Perm.trans (Perm.append_right (gathered ks l) more)
              (Perm.cons' (ap (λ i. (i, v)) same) Perm.rfl))
      | inr e ↦
          let ne : j ≢ k = ground (arith, str_eq_iff j k) in
          let there =
            Or.elim Mem-prop (eq-or-mem_of_mem-cons m) (λ same. absurd (ne same)) (λ t. t) in
          let others = map (λ w. (k, w)) (sort (values k l)) in
          rw (values-cons k (j, v) l, e)
            (Perm.trans (Perm.append_left others (gathered-cons ks (j, v) l distinct there))
              (perm_middle others (gathered ks l)))
    ]

gathered-perm :
    (ks : List Bytes) (l : List Setting)
    → Nodup ks
    → ((x : Setting) → Mem x l → Mem x.0 ks)
    → Perm (gathered ks l) l
gathered-perm ks [] h k = rw gathered-nil Perm.nil
gathered-perm ks (x ∷ l) h k =
    Perm.trans (gathered-cons ks x l h (k x mem-cons_self))
      (Perm.cons x (gathered-perm ks l h (λ y m. k y (mem-cons_of_mem x m))))

-- What is written is a rearrangement of the settings.
pub canonical-perm : (l : List Setting) → Perm (canonical l) l
unfolding canonical names
canonical-perm l =
    let sorted = sort-perm (keys (add_all l [])) in
    gathered-perm (sort (keys (add_all l []))) l
      (Perm.nodup (Perm.symm sorted) (keys-add_all-Nodup l [] Nodup-nil))
      (λ x m.
        (Perm.mem_iff sorted).1
          ((keys-add_all-Mem l [] x.0).1 (mem-append_left [] (mem-map_of_mem (λ y. y.0) m))))
