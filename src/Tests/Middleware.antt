-- ===== src/Tests/Middleware.antt =====
-- Instances of the theorems on the middleware.
use open_flare.Prelude.{◌≡◌, refl, true, [], ◌∷◌, arith, inl}
use open_flare.Prelude.Int.{pos}
use open_flare.Text.{codes, equal_fold, str_eq, to_lower}
use open_flare.Http.{Request, header_get}
use open_flare.Middleware.{
  set_header, add_headers, write_header, write, is_valid, is_informational, final_status,
  final_headers, Run, serve_chain,
}
use open_flare.Middleware.Laws.{status_after, serve_chain-status}
use open_flare.Middleware.Identifier.{id_header, serve_chain-identifier}
use open_flare.Tests.Samples.{get_request}

abbrev request : Request
request = get_request (codes "/") []

-- A handler that adds the header of another answer, sends 404, and then panics.
abbrev late_panic : Run
late_panic = record {
  calls =
      set_header (codes "Content-Type") (codes "text/plain")
      ∷ add_headers ((codes "X-Request-ID", codes "other" ∷ []) ∷ [])
      ∷ write_header (pos 404)
      ∷ write (codes "gone")
      ∷ [];
  panics = true;
  left = request;
}

serve_chain-status_example :
    (final_status (serve_chain (codes "7") request (λ id r. late_panic)).0
      ≡ status_after late_panic.calls true)
    × ((serve_chain (codes "7") request (λ id r. late_panic)).1.status
        ≡ status_after late_panic.calls true)
unfolding is_valid is_informational
serve_chain-status_example =
    serve_chain-status (codes "7") request (λ id r. late_panic) (tt, (tt, ((refl, refl), (tt, tt))))

serve_chain-identifier_example :
    (header_get (final_headers (serve_chain (codes "7") request (λ id r. late_panic)).0) id_header
      ≡ codes "7")
    × ((serve_chain (codes "7") request (λ id r. late_panic)).1.request_id ≡ codes "7")
unfolding equal_fold str_eq to_lower
serve_chain-identifier_example =
    serve_chain-identifier (codes "7") (ground arith) request (λ id r. late_panic)
      (inl refl, (tt, (tt, (tt, tt))))
