-- ===== src/Tests/Samples.antt =====
-- Concrete packages, caches and requests for the tests.
use open_flare.Prelude.{
  ℕ, zero, suc, ◌≡◌, refl, Bool, true, false, [], none, some, take, drop, length,
}
use open_flare.Prelude.Int.{pos, pos_part}
use open_flare.Text.{Bytes, codes, str_eq, contains, index}
use open_flare.Http.{Headers, Request}
use open_flare.Regexp.{RegexpEngine}
use open_flare.Net.{NetPackage}
use open_flare.RateLimit.{TokenBucket}
use open_flare.Cache.Backend.{Entry, MemoryBackend, new_memory_backend, push_front, is_full, set}
use open_flare.Cache.Backend.Invariant.{IsValid}
use open_flare.Cache.Backend.Runs.{Reach, here, next, step_set, Reach-IsBounded}

-- An expression is a text that must occur.
abbrev pub plain_regexp : RegexpEngine
plain_regexp = record { Regex = Bytes; compile = λ s. some s; match_string = λ re s. contains s re }

-- Addresses are texts, and a network holds the one address that it is written as.
abbrev pub plain_net : NetPackage
plain_net = record {
  Ip = Bytes;
  IpNet = Bytes;
  split_host_port =
      λ s. elim (index s (codes ":")) [ none ↦ none | some i ↦ some (take i s, drop (suc i) s) ];
  parse_ip = λ s. some s;
  parse_cidr = λ s. some s;
  ip_net_contains = λ n ip. str_eq n ip;
  ip_string = λ ip. ip;
}

abbrev take_one : ℕ → Bool × ℕ
take_one zero = (false, zero)
take_one (suc n) = (true, n)

-- A bucket of as many tokens as the burst, never filled again.
abbrev pub counting : TokenBucket
counting = record {
  Bucket = ℕ;
  new_bucket = λ rate burst. pos_part burst;
  take_token = λ now n. take_one n;
}

abbrev pub get_request : Bytes → Headers → Request
get_request path headers = record {
  method = codes "GET";
  path = path;
  raw_path = [];
  raw_query = [];
  host = codes "h";
  remote_addr = codes "9:80";
  headers = headers;
  body = some (codes "abcdef");
  content_length = pos 6;
  tls = false;
}

abbrev pub entry_of : Bytes → Bytes → Entry
entry_of key body = record {
  key = key;
  status_code = 200;
  headers = [];
  body = body;
  stored_at = 10;
  ttl = pos 100;
  size = length body;
}

abbrev pub key_a : Bytes
key_a = codes "GET|h|/a||identity"

abbrev pub key_b : Bytes
key_b = codes "GET|h|/b||identity"

abbrev pub entry_a : Entry
entry_a = entry_of key_a (codes "first")

abbrev pub entry_b : Entry
entry_b = entry_of key_b (codes "second")

abbrev pub empty_cache : MemoryBackend
empty_cache = new_memory_backend (pos 2) (pos 100)

abbrev pub one_entry : MemoryBackend
one_entry = push_front key_a entry_a empty_cache

abbrev pub two_entries : MemoryBackend
two_entries = push_front key_b entry_b one_entry

pub one_stored : set key_a entry_a empty_cache ≡ some one_entry
unfolding set new_memory_backend is_full
one_stored = refl

pub two_stored : set key_b entry_b one_entry ≡ some two_entries
unfolding set new_memory_backend is_full str_eq
two_stored = refl

pub two_reached : Reach empty_cache two_entries
two_reached =
    next (next here (step_set key_a entry_a one_stored)) (step_set key_b entry_b two_stored)

pub two_entries-IsValid : IsValid two_entries
two_entries-IsValid = (Reach-IsBounded (pos 2) (pos 100) two_reached).0

pub one_entry-IsValid : IsValid one_entry
one_entry-IsValid =
    (Reach-IsBounded (pos 2) (pos 100) (next here (step_set key_a entry_a one_stored))).0
