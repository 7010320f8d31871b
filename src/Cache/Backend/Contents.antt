-- ===== src/Cache/Backend/Contents.antt =====
-- internal/cache/cache.go: a property of entries, under their keys, that calls of the cache keep.
use open_flare.Prelude.{
  ℕ, zero, suc, ◌≡◌, sym, Bool, true, not, [], ◌∷◌, none, some, arith, All, All-take, filter, inl,
  inr, if-split, Bool-cases, Option-cases, take,
}
use mathlib.Core.Path.{subst}
use open_flare.Prelude.Int.{ℤ, pos, ltb_ℤ}
use open_flare.Text.{Bytes, str_eq}
use open_flare.Text.Laws.{str_eq_iff}
use open_flare.Dict.{lookup}
use open_flare.Cache.Backend.{Entry, MemoryBackend, new_memory_backend, is_expired}
use open_flare.Cache.Backend.Runs.{Reach}
use open_flare.Cache.Backend.Items.{view}
use open_flare.Cache.Backend.Spec.{
  Lru, Call, call_get, call_set, call_delete, call_delete_by_prefix, call_delete_by_path,
  call_purge, call_bypass, call_len, Result, found, without_key, has_room, keep, read, write,
  delete_where, respond,
}
use open_flare.Cache.Backend.Refine.{call, call-IsRefined}

module _ (P : Bytes × Entry → Type 0) where
  -- What a call puts into the cache has the property.
  abbrev pub Supplies : Call → Type 0
  Supplies (call_set k e) = P (k, e)
  Supplies _ = Unit

  filter-All : (p : Bytes × Entry → Bool) (l : Lru) → All P l → All P (filter p l)
  unfolding filter
  filter-All p [] h = tt
  filter-All p (x ∷ l) (hx, h) =
      let rest = filter-All p l h in if-split (All P) (p x) _ _ (λ _. (hx, rest)) (λ _. rest)

  lookup-All : (k : Bytes) (l : Lru) (e : Entry) → All P l → lookup k l ≡ some e → P (k, e)
  unfolding lookup
  lookup-All k [] e h p = absurd (ground arith)
  lookup-All k ((j, e') ∷ l) e (hx, h) p = elim (Bool-cases (str_eq j k)) [
    | inl q ↦ subst P (ground (arith, str_eq_iff j k)) hx
    | inr q ↦ lookup-All k l e h (ground arith)
  ]

  keep-All : (a b : ℤ) (size n : ℕ) (l : Lru) → All P l → All P (keep a b size n l)
  unfolding keep
  keep-All a b size zero l h = tt
  keep-All a b size (suc n) l h =
      let shorter = keep-All a b size n l h in
      if-split (All P) (has_room a b size (take (suc n) l)) _ _ (λ _. All-take P (suc n) l h)
        (λ _. shorter)

  -- What a read gives, and what it leaves.
  pub read-All :
      (now : ℕ) (k : Bytes) (l : Lru)
      → All P l
      → All P (read now k l).1 × ((e : Entry) → (read now k l).0 ≡ found (some e) → P (k, e))
  unfolding read without_key
  read-All now k l h = elim (Option-cases (lookup k l)) [
    | inl p ↦ rw (p, read) (h, λ e q. absurd (ground arith))
    | inr (e, p) ↦
        let held = lookup-All k l e h p in
        let rest = filter-All (λ x. not (str_eq x.0 k)) l h in
        rw (p, read)
          (if-split
            (λ (x : Result × Lru). All P x.1 × ((e : Entry) → x.0 ≡ found (some e) → P (k, e)))
            (is_expired now e) (found none, without_key k l)
            (found (some e), (k, e) ∷ without_key k l) (λ _. (rest, λ e' q. absurd (ground arith)))
            (λ _. ((held, rest), λ e' q. subst (λ x. P (k, x)) (ground arith) held)))
  ]

  respond-All : (a b : ℤ) (c : Call) (l : Lru) → All P l → Supplies c → All P (respond a b c l).1
  unfolding respond write delete_where without_key
  respond-All a b (call_get now k) l h _ = (read-All now k l h).0
  respond-All a b (call_set k e) l h new =
      (new, keep-All a b e.size _ _ (filter-All (λ x. not (str_eq x.0 k)) l h))
  respond-All a b (call_delete k) l h _ = filter-All _ l h
  respond-All a b (call_delete_by_prefix p) l h _ = filter-All _ l h
  respond-All a b (call_delete_by_path p) l h _ = filter-All _ l h
  respond-All a b call_purge l h _ = tt
  respond-All a b call_bypass l h _ = h
  respond-All a b call_len l h _ = h

  module _ (a b : ℤ) (room : ltb_ℤ (pos 0) a ≡ true) where
    -- The cache is in a state that calls reach, and its entries have the property.
    pub record Holds (m : MemoryBackend) : Type 0 where
      pub reach : Reach (new_memory_backend a b) m
      pub entries : All P (view m)

    pub call-Holds :
        (c : Call) (m : MemoryBackend) (r : Result) (m' : MemoryBackend)
        → Holds m
        → Supplies c
        → call c m ≡ some (r, m')
        → Holds m' × (r ≡ (respond a b c (view m)).0)
    call-Holds c m r m' h new run =
        let ref = call-IsRefined a b room c m h.reach in
        let same : ref.after ≡ m' = cc (ref.run, run) in
        (
          record {
            reach = subst (Reach (new_memory_backend a b)) same ref.reach;
            entries =
                subst (λ x. All P (view x)) same
                  (subst (All P) (sym ref.same) (respond-All a b c (view m) h.entries new));
          },
          cc (ref.run, run),
        )
