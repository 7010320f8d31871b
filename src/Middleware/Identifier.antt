-- ===== src/Middleware/Identifier.antt =====
-- internal/middleware/requestid.go: the identifier in the answers.
use open_flare.Prelude.{
  ◌≡◌, ◌≢◌, ◌⊎◌, inl, inr, refl, sym, ◌∙◌, Bool, true, false, List, [], ◌∷◌, Option, none, some,
  arith, All, Option-cases, if-split, if-false, if◌then◌else◌, ◌||◌, not,
}
use open_flare.Prelude.Int.{ℤ, pos}
use open_flare.Text.{Bytes, codes, equal_fold, to_lower, str_eq}
use open_flare.Http.{Headers, Request, header_get, header_set}
use open_flare.Http.Laws.{header_get-header_set, header_get-header_add_all}
use open_flare.Middleware.{
  WriterCall, set_header, add_headers, write_header, write, ResponseWriter, is_valid,
  is_informational, send, call_writer, final_status, final_headers, StatusWriter, call_status,
  run_calls, Run, error_calls, recovery, access_log, get_request_id, serve_chain,
}

abbrev pub id_header : Bytes
id_header = codes "X-Request-ID"

-- The call sets the header to nothing but the identifier.
abbrev pub Keeps : Bytes → WriterCall → Type 0
Keeps id (set_header k v) = (equal_fold k id_header ≡ false) ⊎ (v ≡ id)
Keeps id _ = Unit

module _ (id : Bytes) (given : id ≢ []) where
  abbrev IsSent : Option (ℤ × Headers) → Type 0
  IsSent none = Unit
  IsSent (some (n, h)) = header_get h id_header ≡ id

  record Carries (w : ResponseWriter) : Type 0 where
    held : header_get w.header id_header ≡ id
    sent : IsSent w.sent

  abbrev CarriesAfter : ResponseWriter × Bool → Type 0
  CarriesAfter x = Carries x.0

  send-Carries : (n : ℤ) (w : ResponseWriter) → Carries w → Carries (send n w)
  send-Carries n w c = by_sent w.sent c.sent
    where
      by_sent :
          (s : Option (ℤ × Headers))
          → IsSent s
          → Carries (elim s [ none ↦ record w { sent = some (n, w.header) } | some s ↦ w ])
      by_sent none h = record { held = c.held; sent = c.held }
      by_sent (some (k, hs)) h = c

  set-Carries :
      (k v : Bytes) (w : ResponseWriter)
      → Keeps id (set_header k v)
      → Carries w
      → Carries (record w { header = header_set w.header k v })
  set-Carries k v w (inl other) c = record {
    held =
        header_get-header_set w.header k id_header v
        ∙ if-false (equal_fold k id_header) v _ other
        ∙ c.held;
    sent = c.sent;
  }
  set-Carries k v w (inr same) c = record {
    held =
        header_get-header_set w.header k id_header v
        ∙ if-split (λ x. x ≡ id) (equal_fold k id_header) v _ (λ _. same) (λ _. c.held);
    sent = c.sent;
  }

  call_writer-Carries :
      (c : WriterCall) (w : ResponseWriter) → Keeps id c → Carries w → Carries (call_writer c w).0
  unfolding call_writer
  call_writer-Carries (set_header k v) w keep c = set-Carries k v w keep c
  call_writer-Carries (add_headers h) w keep c = record {
    held = header_get-header_add_all w.header h id_header (λ e. given (sym c.held ∙ e)) ∙ c.held;
    sent = c.sent;
  }
  call_writer-Carries (write_header n) w keep c = by_sent w.sent refl
    where
      by_sent :
          (s : Option (ℤ × Headers))
          → w.sent ≡ s
          → CarriesAfter (elim s [
            | some s ↦ (w, false)
            | none ↦
                if not (is_valid n)
                then (w, true)
                else if is_informational n
                then (w, false)
                else (send n w, false)
          ])
      by_sent (some s) p = c
      by_sent none p =
          if-split CarriesAfter (not (is_valid n)) _ _ (λ _. c)
            (λ _. if-split CarriesAfter (is_informational n) _ _ (λ _. c) (λ _. send-Carries n w c))
  call_writer-Carries (write b) w keep c =
      let c' = send-Carries (pos 200) w c in record { held = c'.held; sent = c'.sent }

  call_status-Carries :
      (c : WriterCall) (w : StatusWriter)
      → Keeps id c
      → Carries w.response_writer
      → Carries (call_status c w).0.response_writer
  unfolding call_status
  call_status-Carries (set_header k v) w = call_writer-Carries (set_header k v) w.response_writer
  call_status-Carries (add_headers h) w = call_writer-Carries (add_headers h) w.response_writer
  call_status-Carries (write_header n) w = call_writer-Carries (write_header n) w.response_writer
  call_status-Carries (write b) w = call_writer-Carries (write b) w.response_writer

  run_calls-Carries :
      (cs : List WriterCall) (w : StatusWriter)
      → All (Keeps id) cs
      → Carries w.response_writer
      → Carries (run_calls cs w).0.response_writer
  unfolding run_calls
  run_calls-Carries [] w keep c = c
  run_calls-Carries (x ∷ cs) w (keep, keeps) c =
      let c' = call_status-Carries x w keep c in
      let rest = run_calls-Carries cs (call_status x w).0 keeps c' in
      if-split (λ (y : StatusWriter × Bool). Carries y.0.response_writer) (call_status x w).1 _ _
        (λ _. c') (λ _. rest)

  error_calls-Keeps : All (Keeps id) error_calls
  unfolding equal_fold str_eq to_lower
  error_calls-Keeps = (inl refl, (inl refl, (tt, (tt, tt))))

  recovery-Carries :
      (next : Run) (w : StatusWriter)
      → All (Keeps id) next.calls
      → Carries w.response_writer
      → Carries (recovery next w).response_writer
  unfolding recovery
  recovery-Carries next w keep c =
      let c' = run_calls-Carries next.calls w keep c in
      if-split (λ (y : StatusWriter). Carries y.response_writer)
        ((run_calls next.calls w).1 || next.panics) _ _
        (λ _. run_calls-Carries error_calls (run_calls next.calls w).0 error_calls-Keeps c')
        (λ _. c')

  -- Every answer carries the identifier of its request in `X-Request-ID`, that of a handler that
  -- panics or answers nothing too, if the handler sets this header to nothing else. What it adds to the
  -- header, as from a stored response or from the origin, stands behind the identifier. The access log
  -- and the handler have the same identifier, which is not empty.
  pub serve_chain-identifier :
      (r : Request) (next : Option Bytes → Request → Run)
      → All (Keeps id) (next (some id) r).calls
      → (header_get (final_headers (serve_chain id r next).0) id_header ≡ id)
        × ((serve_chain id r next).1.request_id ≡ id)
  unfolding serve_chain access_log final_headers call_writer get_request_id header_get header_set
      equal_fold
  serve_chain-identifier r next keep = (
    by_sent _ (recovery-Carries (next (some id) r) _ keep (record { held = refl; sent = tt })),
    refl,
  )
    where
      by_sent : (w : ResponseWriter) → Carries w → header_get (final_headers w) id_header ≡ id
      by_sent w c = elim (Option-cases w.sent) [
        | inl p ↦ ground (arith, p, c.held)
        | inr (x, p) ↦ ground (arith, p, c.sent)
      ]

abbrev two_statuses : ℤ → ℤ → Request → Run
two_statuses n m r = record {
  calls = write_header n ∷ write_header m ∷ [];
  panics = false;
  left = r;
}

is_informational-is_valid : (n : ℤ) → is_informational n ≡ true → is_valid n ≡ true
unfolding is_informational is_valid
is_informational-is_valid n h = ground arith

-- A handler that sends an informational status before its final one, as the reverse proxy does for
-- those of the origin, has the informational one in the access log, while the client gets the final
-- one.
serve_chain-informational :
    (id : Bytes) (r : Request) (n m : ℤ)
    → is_informational n ≡ true
    → is_valid m ≡ true
    → is_informational m ≡ false
    → ((serve_chain id r (λ i x. two_statuses n m x)).1.status ≡ n)
      × (final_status (serve_chain id r (λ i x. two_statuses n m x)).0 ≡ m)
unfolding serve_chain access_log recovery run_calls call_status final_status
serve_chain-informational id r n m early valid final =
    let early_valid = is_informational-is_valid n early in
    rw (early_valid, early, valid, final) (refl, refl)
