-- ===== src/Tests/Threads.antt =====
-- Instances of the theorems on requests that are served at the same time.
use open_flare.Prelude.{[], ◌∷◌, some}
use open_flare.Prelude.Int.{pos}
use open_flare.Text.{codes}
use open_flare.Http.{Request}
use open_flare.Cache.Backend.{Entry, MemoryBackend, get}
use open_flare.Proxy.Handler.{request_key}
use open_flare.Proxy.Replies.{Origin}
use open_flare.Proxy.Threads.{looking, sharing, fetching, System, start, move, lead, Reach}
use open_flare.Tests.Samples.{
  plain_regexp, plain_net, counting, get_request, empty_cache, two_entries,
}
use open_flare.Tests.Proxy.{handler, request}

abbrev other_request : Request
other_request = get_request (codes "/static/x") ((codes "User-Agent", codes "b" ∷ []) ∷ [])

-- An origin that sets a cookie in every answer.
abbrev cookie_origin : Origin
cookie_origin = record {
  round_trip = λ r. some (record {
    status_code = 200;
    headers = (codes "Set-Cookie", codes "session=1" ∷ []) ∷ [];
    body = codes "hi";
  });
  reverse_proxy = λ h r. record { status = pos 200; headers = h; body = codes "hi" };
}

abbrev cookie_entry : Entry
cookie_entry = record {
  key = [];
  status_code = 200;
  headers = (codes "Set-Cookie", codes "session=1" ∷ []) ∷ [];
  body = codes "hi";
  stored_at = 0;
  ttl = pos 0;
  size = 2;
}

abbrev begin : System
begin = start (pos 2) (pos 100)

abbrev IsReached : System → Type 0
IsReached s = Reach plain_regexp plain_net counting handler begin s

-- Both requests have missed the cache, and the first one is in its exchange with the origin.
abbrev looked_up : MemoryBackend
looked_up = (get 20 (request_key request) empty_cache).0

abbrev both_missed : System
both_missed = move 1 (sharing other_request) (get 20 (request_key other_request) looked_up).0 (
    move 1 (looking other_request) looked_up
      (move 0 (sharing request) looked_up (move 0 (looking request) empty_cache begin)))

abbrev waiting : System
waiting =
    lead (request_key request) (some 0)
      (move 0 (fetching request) (get 20 (request_key request) both_missed.cache).0 both_missed)

-- An idle state over the cache with two entries, and a request for the one of them.
abbrev holding : System
holding = record (start (pos 2) (pos 100)) { cache = two_entries }

abbrev request_b : Request
request_b = get_request (codes "/b") []
