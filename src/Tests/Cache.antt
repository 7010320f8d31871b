-- ===== src/Tests/Cache.antt =====
-- Instances of the theorems on the cache.
use open_flare.Prelude.{ℕ, ◌≡◌, ◌≢◌, ◌⊎◌, refl, List, [], ◌∷◌, none, some, if◌then◌else◌}
use open_flare.Prelude.Int.{pos, negsuc}
use open_flare.Text.{codes}
use open_flare.Cache.Backend.{
  MemoryBackend, new_memory_backend, is_expired, get, set, evict_loop, drop_old, contains_prefix,
  has_path, delete_by_prefix, delete_by_path, push_front,
}
use open_flare.Cache.Backend.Invariant.{IsValid}
use open_flare.Cache.Backend.Store.{IsStored, set-IsStored, set_stuck}
use open_flare.Cache.Backend.Delete.{IsDeleted, delete_by-IsDeleted}
use open_flare.Cache.Backend.Lookup.{IsRead, get-IsRead, get-set}
use open_flare.Cache.Backend.Runs.{IsBounded, Reach-IsBounded}
use open_flare.Cache.Backend.Spec.{call_get, call_set, call_delete_by_path, Call, respond_all}
use open_flare.Cache.Backend.Refine.{call_all, call_all-new}
use open_flare.Tests.Samples.{
  key_a, key_b, entry_a, entry_b, one_entry, two_entries, two_stored, two_reached,
  one_entry-IsValid, two_entries-IsValid,
}

Reach-IsBounded_example : IsValid two_entries × IsBounded (pos 2) (pos 100) two_entries
Reach-IsBounded_example = Reach-IsBounded (pos 2) (pos 100) two_reached

set-IsStored_example :
    (m' : MemoryBackend) × (n : ℕ) × (set key_a entry_b two_entries ≡ some m')
    × IsStored key_a entry_b two_entries m' n
unfolding new_memory_backend push_front
set-IsStored_example = set-IsStored key_a entry_b two_entries two_entries-IsValid refl

set_stuck_example :
    (evict_loop 9 entry_a.size (drop_old key_a (new_memory_backend (negsuc 4) (pos 100))) ≡ none)
    × (set key_a entry_a (new_memory_backend (negsuc 4) (pos 100)) ≡ none)
unfolding new_memory_backend
set_stuck_example = set_stuck key_a entry_a (new_memory_backend (negsuc 4) (pos 100)) 9 refl

get-set_example :
    ((get 20 key_b two_entries).1 ≡ (if is_expired 20 entry_b then none else some entry_b))
    × (key_a ≢ key_b
        → ((get 20 key_a two_entries).1 ≡ (get 20 key_a one_entry).1)
          ⊎ ((get 20 key_a two_entries).1 ≡ none))
get-set_example = get-set 20 key_b key_a entry_b one_entry two_entries one_entry-IsValid two_stored

get-IsRead_example : IsRead 20 key_a two_entries (get 20 key_a two_entries)
get-IsRead_example = get-IsRead 20 key_a two_entries two_entries-IsValid

delete_by-IsDeleted_example :
    IsDeleted
      (λ k. contains_prefix k (codes "/a"))
      two_entries
      (delete_by_prefix (codes "/a") two_entries)
    × IsDeleted (λ k. has_path k (codes "/a")) two_entries (delete_by_path (codes "/a") two_entries)
delete_by-IsDeleted_example = delete_by-IsDeleted (codes "/a") two_entries two_entries-IsValid

-- A write, a read, a second write that must evict, and a read of what it evicted.
abbrev calls : List Call
calls =
    call_set key_a entry_a
    ∷ call_get 20 key_a
    ∷ call_set key_b entry_b
    ∷ call_get 20 key_a
    ∷ call_delete_by_path (codes "/b")
    ∷ []

call_all-new_example :
    call_all calls (new_memory_backend (pos 1) (pos 100))
    ≡ some (respond_all (pos 1) (pos 100) calls [])
call_all-new_example = call_all-new (pos 1) (pos 100) calls refl
