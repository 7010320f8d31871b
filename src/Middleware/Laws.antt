-- ===== src/Middleware/Laws.antt =====
-- internal/middleware: what the log says of an answer, and what every answer carries.
use open_flare.Prelude.{
  ◌≡◌, refl, ◌∙◌, ap, Bool, true, false, List, [], ◌∷◌, Option, none, some, arith, All, Bool-cases,
  true-ne-false, if-split, if-true, if-false, Option-cases, inl, inr, if◌then◌else◌, ◌||◌,
}
use open_flare.Prelude.Int.{ℤ, pos}
use open_flare.Text.{Bytes}
use open_flare.Http.{Headers, Request}
use open_flare.Middleware.{
  WriterCall, set_header, add_headers, write_header, write, ResponseWriter, is_valid,
  is_informational, final_status, StatusWriter, call_status, run_calls, Run, error_calls, recovery,
  access_log, serve_chain,
}

-- The call writes no status, or one that is final.
abbrev pub IsFinal : WriterCall → Type 0
IsFinal (write_header n) = (is_valid n ≡ true) × (is_informational n ≡ false)
IsFinal _ = Unit

-- The status that is noted is the one that is sent.
abbrev IsNoted : Option (ℤ × Headers) → Bool → ℤ → Type 0
IsNoted none written status = (written ≡ false) × (status ≡ pos 200)
IsNoted (some (n, h)) written status = (written ≡ true) × (status ≡ n)

-- `Agrees` is a record, so that its index is found by unification.
record Agrees (w : StatusWriter) : Type 0 where
  noted : IsNoted w.response_writer.sent w.written w.status

module _ (header : Headers) (body : Bytes) (status : ℤ) (written : Bool) where
  abbrev state : Option (ℤ × Headers) → StatusWriter
  state sent = record {
    response_writer = record { header = header; sent = sent; body = body };
    status = status;
    written = written;
  }

  write_header-Agrees :
      (n : ℤ) (sent : Option (ℤ × Headers))
      → IsNoted sent written status
      → (is_valid n ≡ true) × (is_informational n ≡ false)
      → Agrees (call_status (write_header n) (state sent)).0
        × ((call_status (write_header n) (state sent)).1 ≡ false)
  unfolding call_status
  write_header-Agrees n none (p, q) (valid, final) =
      rw (valid, final, p) (record { noted = (refl, refl) }, refl)
  write_header-Agrees n (some (k, h)) (p, q) (valid, final) =
      rw p (record { noted = (refl, q) }, refl)

  write-Agrees :
      (b : Bytes) (sent : Option (ℤ × Headers))
      → IsNoted sent written status
      → Agrees (call_status (write b) (state sent)).0
        × ((call_status (write b) (state sent)).1 ≡ false)
  unfolding call_status
  write-Agrees b none (p, q) = rw p (record { noted = (refl, refl) }, refl)
  write-Agrees b (some (k, h)) (p, q) = rw p (record { noted = (refl, q) }, refl)

call_status-Agrees :
    (c : WriterCall) (w : StatusWriter)
    → IsFinal c
    → Agrees w
    → Agrees (call_status c w).0 × ((call_status c w).1 ≡ false)
unfolding call_status
call_status-Agrees (set_header k v) w f a = (record { noted = a.noted }, refl)
call_status-Agrees (add_headers h) w f a = (record { noted = a.noted }, refl)
call_status-Agrees (write_header n) w f a =
    write_header-Agrees w.response_writer.header w.response_writer.body w.status w.written n
      w.response_writer.sent a.noted f
call_status-Agrees (write b) w f a =
    write-Agrees w.response_writer.header w.response_writer.body w.status w.written b
      w.response_writer.sent a.noted

run_calls-Agrees :
    (cs : List WriterCall) (w : StatusWriter)
    → All IsFinal cs
    → Agrees w
    → Agrees (run_calls cs w).0 × ((run_calls cs w).1 ≡ false)
unfolding run_calls
run_calls-Agrees [] w f a = (a, refl)
run_calls-Agrees (c ∷ cs) w (f, fs) a =
    let (a', fine) = call_status-Agrees c w f a in
    let rest = run_calls-Agrees cs (call_status c w).0 fs a' in
    if-split (λ x. Agrees x.0 × (x.1 ≡ false)) (call_status c w).1 ((call_status c w).0, true)
      (run_calls cs (call_status c w).0) (λ p. absurd (true-ne-false p fine)) (λ _. rest)

error_calls-IsFinal : All IsFinal error_calls
unfolding is_valid is_informational
error_calls-IsFinal = (tt, (tt, ((refl, refl), (tt, tt))))

recovery-Agrees :
    (next : Run) (w : StatusWriter) → All IsFinal next.calls → Agrees w → Agrees (recovery next w)
unfolding recovery
recovery-Agrees next w f a =
    let (a', _) = run_calls-Agrees next.calls w f a in
    if-split Agrees ((run_calls next.calls w).1 || next.panics) _ _
      (λ _. (run_calls-Agrees error_calls (run_calls next.calls w).0 error_calls-IsFinal a').0)
      (λ _. a')

Agrees-status : (w : StatusWriter) → Agrees w → w.status ≡ final_status w.response_writer
unfolding final_status
Agrees-status w a = by_sent w.response_writer.sent a.noted
  where
    by_sent :
        (sent : Option (ℤ × Headers))
        → IsNoted sent w.written w.status
        → w.status ≡ elim sent [ none ↦ pos 200 | some (n, h) ↦ n ]
    by_sent none (p, q) = q
    by_sent (some (n, h)) (p, q) = q

-- The status that some calls send: that of the first `WriteHeader`, or 200 by a `Write` before it.
pub first_status : List WriterCall → Option ℤ
first_status [] = none
first_status (write_header n ∷ cs) = some n
first_status (write b ∷ cs) = some (pos 200)
first_status (set_header k v ∷ cs) = first_status cs
first_status (add_headers h ∷ cs) = first_status cs

abbrev or_else : Option ℤ → Option ℤ → Option ℤ
or_else none o = o
or_else (some n) o = some n

abbrev status_of : ResponseWriter → Option ℤ
status_of w = elim w.sent [ none ↦ none | some (n, h) ↦ some n ]

call_status-first_status :
    (c : WriterCall) (cs : List WriterCall) (w : StatusWriter)
    → IsFinal c
    → or_else (status_of (call_status c w).0.response_writer) (first_status cs)
      ≡ or_else (status_of w.response_writer) (first_status (c ∷ cs))
unfolding call_status first_status
call_status-first_status (set_header k v) cs w f = refl
call_status-first_status (add_headers h) cs w f = refl
call_status-first_status (write_header n) cs w f = elim (Option-cases w.response_writer.sent) [
  | inl p ↦ ground (arith, f, p)
  | inr (x, p) ↦ ground (arith, f, p)
]
call_status-first_status (write b) cs w f = elim (Option-cases w.response_writer.sent) [
  | inl p ↦ ground (arith, p)
  | inr (x, p) ↦ ground (arith, p)
]

run_calls_step :
    (c : WriterCall) (cs : List WriterCall) (w : StatusWriter)
    → (call_status c w).1 ≡ false
    → run_calls (c ∷ cs) w ≡ run_calls cs (call_status c w).0
unfolding run_calls
run_calls_step c cs w fine = if-false (call_status c w).1 _ _ fine

run_calls-first_status :
    (cs : List WriterCall) (w : StatusWriter)
    → All IsFinal cs
    → Agrees w
    → status_of (run_calls cs w).0.response_writer
      ≡ or_else (status_of w.response_writer) (first_status cs)
unfolding run_calls first_status
run_calls-first_status [] w f a = ground arith
run_calls-first_status (c ∷ cs) w (f, fs) a =
    let (a', fine) = call_status-Agrees c w f a in
    ap (λ x. status_of x.0.response_writer) (run_calls_step c cs w fine)
    ∙ run_calls-first_status cs (call_status c w).0 fs a'
    ∙ call_status-first_status c cs w f

-- The status of a handler that makes the calls: that of the first that sends one, otherwise 500 where
-- it panics and 200 where it returns.
unfoldable pub status_after : List WriterCall → Bool → ℤ
unfolding first_status
status_after cs panics = elim (first_status cs) [
  | some n ↦ n
  | none ↦ if panics then pos 500 else pos 200
]

final_status-of :
    (w : ResponseWriter) → final_status w ≡ elim (status_of w) [ none ↦ pos 200 | some n ↦ n ]
unfolding final_status
final_status-of w = elim (Option-cases w.sent) [
  | inl p ↦ ground (arith, p)
  | inr (x, p) ↦ ground (arith, p)
]

recovery-status_after :
    (next : Run) (w : StatusWriter)
    → All IsFinal next.calls
    → Agrees w
    → status_of w.response_writer ≡ none
    → final_status (recovery next w).response_writer ≡ status_after next.calls next.panics
unfolding recovery status_after first_status
recovery-status_after next w f a unsent =
    let (a', fine) = run_calls-Agrees next.calls w f a in
    let w' = (run_calls next.calls w).0 in
    let first = run_calls-first_status next.calls w f a in
    let last = run_calls-first_status error_calls w' error_calls-IsFinal a' in
    let test : ((run_calls next.calls w).1 || next.panics) ≡ next.panics = ground arith in
    elim (Bool-cases next.panics) [
      | inl p ↦
          ap (λ (x : StatusWriter). final_status x.response_writer) (if-true _ _ _ (test ∙ p))
          ∙ final_status-of _
          ∙ ground (arith, first, last, unsent, p)
      | inr p ↦
          ap (λ (x : StatusWriter). final_status x.response_writer) (if-false _ _ _ (test ∙ p))
          ∙ final_status-of _
          ∙ ground (arith, first, unsent, p)
    ]

-- The client gets, and the access log has, the status of the first `WriteHeader` of the handler, or
-- 200 if a `Write` comes first; where it sends nothing, 500 if it panics and 200 if it returns. The
-- handler writes only final statuses.
pub serve_chain-status :
    (id : Bytes) (r : Request) (next : Option Bytes → Request → Run)
    → All IsFinal (next (some id) r).calls
    → (final_status (serve_chain id r next).0
        ≡ status_after (next (some id) r).calls (next (some id) r).panics)
      × ((serve_chain id r next).1.status
          ≡ status_after (next (some id) r).calls (next (some id) r).panics)
unfolding serve_chain access_log
serve_chain-status id r next f =
    let start : Agrees _ = record { noted = (refl, refl) } in
    let same = recovery-status_after (next (some id) r) _ f start refl in
    (same, Agrees-status _ (recovery-Agrees (next (some id) r) _ f start) ∙ same)
