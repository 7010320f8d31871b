-- ===== src/Cache/Backend/Refine.antt =====
-- internal/cache/cache.go implements the specification of `Spec`.
use open_flare.Prelude.{
  ℕ, ◌≡◌, refl, sym, ◌∙◌, ap, Bool, true, false, not, List, [], ◌∷◌, Option, none, some, map, arith,
  length, filter,
}
use open_flare.Prelude.Int.{ℤ, pos, ltb_ℤ}
use open_flare.Text.{Bytes}
use open_flare.Cache.Backend.{
  MemoryBackend, new_memory_backend, get, set, delete, delete_by_prefix, delete_by_path, purge,
  increment_bypasses, len, drop_old, contains_prefix, has_path,
}
use open_flare.Cache.Backend.Elements.{find, without}
use open_flare.Cache.Backend.Invariant.{IsValid}
use open_flare.Cache.Backend.Preserve.{drop_old-without}
use open_flare.Cache.Backend.Store.{set-IsStored}
use open_flare.Cache.Backend.Delete.{IsDeleted, delete_by-IsDeleted}
use open_flare.Cache.Backend.Lookup.{get-IsRead}
use open_flare.Cache.Backend.Runs.{
  Reach, here, next, step_get, step_set, step_delete, step_delete_by_prefix, step_delete_by_path,
  step_purge, step_bypass, Reach-IsBounded,
}
use open_flare.Cache.Backend.Items.{
  item, view, filter-item, length-item, keep-item, without-item, read-item, write-item, has-item,
}
use open_flare.Cache.Backend.Spec.{
  Lru, Call, call_get, call_set, call_delete, call_delete_by_prefix, call_delete_by_path,
  call_purge, call_bypass, call_len, Result, done, found, removed, counted, write, delete_where,
  respond, respond_all,
}

-- A call of the code; `none` is a call that never returns.
unfoldable pub call : Call → MemoryBackend → Option (Result × MemoryBackend)
call (call_get now k) m = some (found (get now k m).1, (get now k m).0)
call (call_set k e) m = elim (set k e m) [ none ↦ none | some m' ↦ some (done, m') ]
call (call_delete k) m = some (removed (delete k m).1, (delete k m).0)
call (call_delete_by_prefix p) m = some (counted (delete_by_prefix p m).1, (delete_by_prefix p m).0)
call (call_delete_by_path p) m = some (counted (delete_by_path p m).1, (delete_by_path p m).0)
call call_purge m = some (counted (purge m).1, (purge m).0)
call call_bypass m = some (done, increment_bypasses m)
call call_len m = some (counted (len m), m)

unfoldable pub call_all : List Call → MemoryBackend → Option (List Result)
call_all [] m = some []
call_all (c ∷ cs) m = elim (call c m) [
  | none ↦ none
  | some (r, m') ↦ elim (call_all cs m') [ none ↦ none | some rs ↦ some (r ∷ rs) ]
]

delete-find :
    (k : Bytes) (m : MemoryBackend)
    → IsValid m
    → ((delete k m).1 ≡ elim (find k m.evict_list) [ none ↦ false | some e ↦ true ])
      × ((delete k m).0 ≡ drop_old k m)
unfolding delete drop_old
delete-find k m v = ground (arith, v.agree k)

-- One call: it returns with the result of the specification, and its view is that of the
-- specification.
pub record IsRefined (a b : ℤ) (c : Call) (m : MemoryBackend) : Type 0 where
  pub after : MemoryBackend
  pub run : call c m ≡ some ((respond a b c (view m)).0, after)
  pub same : view after ≡ (respond a b c (view m)).1
  pub reach : Reach (new_memory_backend a b) after

module _ (a b : ℤ) (room : ltb_ℤ (pos 0) a ≡ true) where
  deleted-item :
      (p : Bytes → Bool) (m : MemoryBackend) (r : MemoryBackend × ℕ)
      → IsDeleted p m r
      → (counted r.1 ≡ (delete_where p (view m)).0) × (view r.0 ≡ (delete_where p (view m)).1)
  unfolding view delete_where
  deleted-item p m r d =
      let list = filter-item (λ j. not (p j)) m.evict_list in
      (
        ap counted (
            omega (
              arith,
              d.counted,
              ap length d.list,
              ap length list,
              length-item m.evict_list,
              length-item (filter (λ f. not (p f.key)) m.evict_list),
            )),
        ap (map item) d.list ∙ sym list,
      )

  pub call-IsRefined :
      (c : Call) (m : MemoryBackend) → Reach (new_memory_backend a b) m → IsRefined a b c m
  unfolding call respond view purge increment_bypasses len
  call-IsRefined (call_get now k) m h =
      let rd = get-IsRead now k m (Reach-IsBounded a b h).0 in
      let spec = read-item now k m.evict_list in
      record {
        after = (get now k m).0;
        run = λ i. some ((ap found rd.result ∙ sym (ap (λ x. x.0) spec)) i, (get now k m).0);
        same = ap (map item) rd.list ∙ sym (ap (λ x. x.1) spec);
        reach = next h (step_get now k);
      }
  call-IsRefined (call_set k e) m h =
      let (valid, bounded) = Reach-IsBounded a b h in
      let (m', n, run, st) = set-IsStored k e m valid (rw bounded.entries_limit room) in
      let kept =
        keep-item m.max_entries m.max_bytes e.size n (without k m.evict_list) st.within st.room
          st.needed (length (without k m.evict_list)) st.within (omega arith) in
      let list = write-item m.max_entries m.max_bytes k e m.evict_list in
      record {
        after = m';
        run = rw (run, call) refl;
        same = ap (map item) st.list ∙ ap (◌∷◌ (k, e)) (sym kept) ∙ sym list ∙ (λ i.
            write (bounded.entries_limit i) (bounded.bytes_limit i) k e (map item m.evict_list));
        reach = next h (step_set k e run);
      }
  call-IsRefined (call_delete k) m h =
      let v = (Reach-IsBounded a b h).0 in
      let (flag, dropped) = delete-find k m v in
      record {
        after = (delete k m).0;
        run = λ i. some (removed ((flag ∙ sym (has-item k m.evict_list)) i), (delete k m).0);
        same =
            ap (λ x. map item x.evict_list) dropped
            ∙ ap (map item) (drop_old-without m v k)
            ∙ sym (without-item k m.evict_list);
        reach = next h (step_delete k);
      }
  call-IsRefined (call_delete_by_prefix p) m h =
      let d = (delete_by-IsDeleted p m (Reach-IsBounded a b h).0).0 in
      let (number, list) = deleted-item (λ k. contains_prefix k p) m (delete_by_prefix p m) d in
      record {
        after = (delete_by_prefix p m).0;
        run = λ i. some (number i, (delete_by_prefix p m).0);
        same = list;
        reach = next h (step_delete_by_prefix p);
      }
  call-IsRefined (call_delete_by_path p) m h =
      let d = (delete_by-IsDeleted p m (Reach-IsBounded a b h).0).1 in
      let (number, list) = deleted-item (λ k. has_path k p) m (delete_by_path p m) d in
      record {
        after = (delete_by_path p m).0;
        run = λ i. some (number i, (delete_by_path p m).0);
        same = list;
        reach = next h (step_delete_by_path p);
      }
  call-IsRefined call_purge m h = record {
    after = (purge m).0;
    run = λ i. some (counted (sym (length-item m.evict_list) i), (purge m).0);
    same = refl;
    reach = next h step_purge;
  }
  call-IsRefined call_bypass m h = record {
    after = increment_bypasses m;
    run = refl;
    same = refl;
    reach = next h step_bypass;
  }
  call-IsRefined call_len m h = record {
    after = m;
    run = λ i. some (counted (sym (length-item m.evict_list) i), m);
    same = refl;
    reach = h;
  }

  call_all-respond :
      (cs : List Call) (m : MemoryBackend) (l : Lru)
      → view m ≡ l
      → Reach (new_memory_backend a b) m
      → call_all cs m ≡ some (respond_all a b cs l)
  unfolding call_all respond_all
  call_all-respond [] m l e h = refl
  call_all-respond (c ∷ cs) m l e h =
      let step = call-IsRefined c m h in
      let later =
        call_all-respond cs step.after (respond a b c l).1
          (step.same ∙ ap (λ x. (respond a b c x).1) e) step.reach in
      let run = step.run ∙ ap (λ x. some ((respond a b c x).0, step.after)) e in
      rw (run, call_all) (rw (later, call_all) refl)

-- Whatever calls are made, one after the other, on a new cache with a positive limit of entries, they
-- all return, and with the results of the specification: the map, the linked list and the byte count
-- together are a list of entries, most recently used first, that keeps the longest beginning that fits
-- beside a new entry.
pub call_all-new :
    (a b : ℤ) (cs : List Call)
    → ltb_ℤ (pos 0) a ≡ true
    → call_all cs (new_memory_backend a b) ≡ some (respond_all a b cs [])
unfolding view new_memory_backend
call_all-new a b cs room = call_all-respond a b room cs (new_memory_backend a b) [] refl here
