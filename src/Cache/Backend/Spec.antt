-- ===== src/Cache/Backend/Spec.antt =====
-- What internal/cache/cache.go promises, without its map, its addresses and its byte count: a list of
-- keys with their entries, most recently used first, under a limit of entries and one of bytes.
use open_flare.Prelude.{
  ℕ, zero, suc, ◌+◌, ◌-◌, Bool, true, false, not, ◌&&◌, ◌||◌, List, [], ◌∷◌, Option, none, some,
  if◌then◌else◌, length, take, filter, is_nil,
}
use open_flare.Prelude.Int.{ℤ, pos, ltb_ℤ, leb_ℤ}
use open_flare.Text.{Bytes, str_eq}
use open_flare.Dict.{lookup}
use open_flare.Cache.Backend.{Entry, is_expired, contains_prefix, has_path}

abbrev pub Lru : Type 0
Lru = List (Bytes × Entry)

-- The calls that the handlers make, and what they return.
pub data Call : Type 0 where
  call_get : ℕ → Bytes → Call
  call_set : Bytes → Entry → Call
  call_delete : Bytes → Call
  call_delete_by_prefix : Bytes → Call
  call_delete_by_path : Bytes → Call
  call_purge : Call
  call_bypass : Call
  call_len : Call

pub data Result : Type 0 where
  done : Result
  found : Option Entry → Result
  removed : Bool → Result
  counted : ℕ → Result

unfoldable pub without_key : Bytes → Lru → Lru
without_key k l = filter (λ x. not (str_eq x.0 k)) l

unfoldable pub bytes_of : Lru → ℕ
bytes_of [] = 0
bytes_of ((k, e) ∷ l) = e.size + bytes_of l

-- There is room for an entry of the size beside these.
unfoldable pub has_room : ℤ → ℤ → ℕ → Lru → Bool
unfolding bytes_of
has_room max_entries max_bytes size l =
    ltb_ℤ (pos (length l)) max_entries && (leb_ℤ (pos (bytes_of l + size)) max_bytes || is_nil l)

-- The longest beginning, of at most `n` entries, that leaves room.
unfoldable pub keep : ℤ → ℤ → ℕ → ℕ → Lru → Lru
keep max_entries max_bytes size zero l = []
keep max_entries max_bytes size (suc n) l =
    let shorter = keep max_entries max_bytes size n l in
    if has_room max_entries max_bytes size (take (suc n) l) then take (suc n) l else shorter

-- A read: a live entry moves to the front, an expired one goes.
unfoldable pub read : ℕ → Bytes → Lru → Result × Lru
read now k l = elim (lookup k l) [
  | none ↦ (found none, l)
  | some e ↦
      if is_expired now e
      then (found none, without_key k l)
      else (found (some e), (k, e) ∷ without_key k l)
]

unfoldable pub write : ℤ → ℤ → Bytes → Entry → Lru → Lru
write max_entries max_bytes k e l =
    (k, e) ∷ keep max_entries max_bytes e.size (length (without_key k l)) (without_key k l)

unfoldable pub has : Bytes → Lru → Bool
has k l = elim (lookup k l) [ none ↦ false | some e ↦ true ]

-- A bulk deletion with a test of keys, which counts what it deletes.
unfoldable pub delete_where : (Bytes → Bool) → Lru → Result × Lru
delete_where p l =
    let rest = filter (λ x. not (p x.0)) l in (counted (length l - length rest), rest)

unfoldable pub respond : ℤ → ℤ → Call → Lru → Result × Lru
unfolding read write has delete_where
respond a b (call_get now k) l = read now k l
respond a b (call_set k e) l = (done, write a b k e l)
respond a b (call_delete k) l = (removed (has k l), without_key k l)
respond a b (call_delete_by_prefix prefix) l = delete_where (λ k. contains_prefix k prefix) l
respond a b (call_delete_by_path path) l = delete_where (λ k. has_path k path) l
respond a b call_purge l = (counted (length l), [])
respond a b call_bypass l = (done, l)
respond a b call_len l = (counted (length l), l)

-- The results of some calls, one after the other.
unfoldable pub respond_all : ℤ → ℤ → List Call → Lru → List Result
unfolding respond
respond_all a b [] l = []
respond_all a b (c ∷ cs) l = let (r, l') = respond a b c l in r ∷ respond_all a b cs l'
