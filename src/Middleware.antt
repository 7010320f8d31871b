-- ===== src/Middleware.antt =====
-- internal/middleware: the chain that the public server puts around the proxy. What a handler does is
-- the list of its calls of the response writer, and whether it panics behind them. The writer of
-- net/http sends the first final status with the headers of that moment.
pub mod Laws
pub mod Identifier
use open_flare.Prelude.{
  Bool, true, false, not, ◌&&◌, ◌||◌, List, [], ◌∷◌, ◌++◌, Option, none, some, if◌then◌else◌,
}
use open_flare.Prelude.Int.{ℤ, pos, leb_ℤ}
use open_flare.Text.{Bytes, codes}
use open_flare.Http.{Headers, Request, header_get, header_set, header_add_all}

-- `w.Header().Set`, `w.Header().Add` for all values of a map, `w.WriteHeader` and `w.Write`.
pub data WriterCall : Type 0 where
  set_header : Bytes → Bytes → WriterCall
  add_headers : Headers → WriterCall
  write_header : ℤ → WriterCall
  write : Bytes → WriterCall

-- The writer of net/http: the header map, what is sent of it, and the body.
pub record ResponseWriter : Type 0 where
  pub header : Headers
  pub sent : Option (ℤ × Headers)
  pub body : Bytes

-- `WriteHeader` panics on a status that has not three digits; one below 200, but for 101, is sent ahead
-- of the final one.
unfoldable pub is_valid : ℤ → Bool
is_valid n = leb_ℤ (pos 100) n && leb_ℤ n (pos 999)

unfoldable pub is_informational : ℤ → Bool
is_informational n =
    leb_ℤ (pos 100) n && leb_ℤ n (pos 199) && not (leb_ℤ (pos 101) n && leb_ℤ n (pos 101))

abbrev pub send : ℤ → ResponseWriter → ResponseWriter
send n w = elim w.sent [ none ↦ record w { sent = some (n, w.header) } | some s ↦ w ]

-- The writer behind a call, and whether the call panics.
unfoldable pub call_writer : WriterCall → ResponseWriter → ResponseWriter × Bool
call_writer (set_header k v) w = (record w { header = header_set w.header k v }, false)
call_writer (add_headers h) w = (record w { header = header_add_all w.header h }, false)
call_writer (write_header n) w = elim w.sent [
  | some s ↦ (w, false)
  | none ↦
      if not (is_valid n)
      then (w, true)
      else if is_informational n
      then (w, false)
      else (send n w, false)
]
call_writer (write b) w = let w' = send (pos 200) w in (record w' { body = w'.body ++ b }, false)

-- What the server sends when the handlers have returned.
unfoldable pub final_status : ResponseWriter → ℤ
final_status w = elim w.sent [ none ↦ pos 200 | some (n, h) ↦ n ]

unfoldable pub final_headers : ResponseWriter → Headers
final_headers w = elim w.sent [ none ↦ w.header | some (n, h) ↦ h ]

-- `statusWriter`.
pub record StatusWriter : Type 0 where
  pub response_writer : ResponseWriter
  pub status : ℤ
  pub written : Bool

abbrev note : ℤ → StatusWriter → StatusWriter
note n w = if w.written then w else record w { status = n; written = true }

-- The two methods of `statusWriter`; its header map is that of the writer that it wraps.
unfoldable pub call_status : WriterCall → StatusWriter → StatusWriter × Bool
unfolding call_writer
call_status (set_header k v) w =
    let (rw, panicked) = call_writer (set_header k v) w.response_writer in
    (record w { response_writer = rw }, panicked)
call_status (add_headers h) w =
    let (rw, panicked) = call_writer (add_headers h) w.response_writer in
    (record w { response_writer = rw }, panicked)
call_status (write_header n) w =
    let (rw, panicked) = call_writer (write_header n) w.response_writer in
    (record (note n w) { response_writer = rw }, panicked)
call_status (write b) w =
    let (rw, panicked) = call_writer (write b) w.response_writer in
    (record (note (pos 200) w) { response_writer = rw }, panicked)

-- Calls up to the first that panics.
unfoldable pub run_calls : List WriterCall → StatusWriter → StatusWriter × Bool
run_calls [] w = (w, false)
run_calls (c ∷ cs) w =
    let (w', panicked) = call_status c w in
    let rest = run_calls cs w' in if panicked then (w', true) else rest

-- What a handler does. The middleware shares the request with it: `left` is the request as the handler
-- leaves it, whose path and query it may have rewritten.
pub record Run : Type 0 where
  pub calls : List WriterCall
  pub panics : Bool
  pub left : Request

-- `http.Error` with the answer of `Recovery`.
abbrev pub error_calls : List WriterCall
error_calls =
    set_header (codes "Content-Type") (codes "text/plain; charset=utf-8")
    ∷ set_header (codes "X-Content-Type-Options") (codes "nosniff")
    ∷ write_header (pos 500)
    ∷ write (codes "{\"error\":\"internal server error\"}\n")
    ∷ []

unfoldable pub recovery : Run → StatusWriter → StatusWriter
recovery next w =
    let (w', panicked) = run_calls next.calls w in
    if panicked || next.panics then (run_calls error_calls w').0 else w'

-- The entry of the access log; its times are left out.
pub record AccessEntry : Type 0 where
  pub request_id : Bytes
  pub method : Bytes
  pub path : Bytes
  pub query : Bytes
  pub status : ℤ
  pub client_ip : Bytes
  pub user_agent : Bytes
  pub cache_status : Bytes

unfoldable pub access_log : Bytes → Run → ResponseWriter → ResponseWriter × AccessEntry
access_log id next w =
    let w' = recovery next (record { response_writer = w; status = pos 200; written = false }) in
    (
      w'.response_writer,
      record {
        request_id = id;
        method = next.left.method;
        path = next.left.path;
        query = next.left.raw_query;
        status = w'.status;
        client_ip = next.left.remote_addr;
        user_agent = header_get next.left.headers (codes "User-Agent");
        cache_status = header_get w'.response_writer.header (codes "X-Edge-Cache");
      },
    )

-- `GetRequestID`: the identifier of the context.
unfoldable pub get_request_id : Option Bytes → Bytes
get_request_id none = codes "unknown"
get_request_id (some id) = id

abbrev pub new_writer : ResponseWriter
new_writer = record { header = []; sent = none; body = [] }

-- `RequestID`, with a new identifier: it is put into the context and into the header.
unfoldable pub with_request_id {ℓ} : {A : Type ℓ} → Bytes → (Option Bytes → ResponseWriter → A) → A
unfolding call_writer
with_request_id id next =
    next (some id) (call_writer (set_header (codes "X-Request-ID") id) new_writer).0

-- The chain of the public server around a handler, which reads the context too.
unfoldable pub serve_chain :
    Bytes → Request → (Option Bytes → Request → Run) → ResponseWriter × AccessEntry
unfolding with_request_id
serve_chain id r next =
    with_request_id id (λ context w. access_log (get_request_id context) (next context r) w)
