-- ===== src/App/Serving.antt =====
-- internal/app/app.go: the started program serves requests.
use open_flare.Prelude.{
  ℕ, ◌≡◌, ◌≢◌, ◌⊎◌, inr, refl, sym, true, List, [], ◌∷◌, Option, none, some, arith, length,
}
use mathlib.Core.Path.{subst}
use open_flare.Prelude.Int.{ℤ, pos, ltb_ℤ, leb_ℤ}
use open_flare.Text.{Bytes}
use open_flare.Http.{Request}
use open_flare.Regexp.{RegexpEngine}
use open_flare.Net.{NetPackage}
use open_flare.RateLimit.{TokenBucket}
use open_flare.Cache.Backend.{MemoryBackend, new_memory_backend}
use open_flare.Cache.Backend.Runs.{Reach, here}
use open_flare.Proxy.Handler.{Handler, serve_http}
use open_flare.Proxy.Replies.{Origin, Reply}
use open_flare.Proxy.Answers.{serve_http-IsAnswered}
use open_flare.Admin.{Decoder, Answer, serve_admin}
use open_flare.Admin.Laws.{HasToken, serve_admin-HasToken}
use open_flare.App.{Environment, App, start_app}
use open_flare.App.Laws.{IsReady, Outcome, success, start_app-Outcome}

-- A request as it arrives: what the origin then does, the time, the new identifier.
pub record Arrival : Type 0 where
  pub origin : Origin
  pub now : ℕ
  pub request_id : Bytes
  pub request : Request

module _ (rx : RegexpEngine) (net : NetPackage) (tb : TokenBucket)
    (quote_json : Bytes → Bytes) where
  -- The answers to some requests, one after the other; `none` is a request that is never answered.
  unfoldable pub serve_all : List Arrival → Handler rx net tb → Option (List Reply)
  serve_all [] h = some []
  serve_all (a ∷ as') h =
      elim (serve_http rx net tb a.origin quote_json a.now a.request_id a.request h) [
        | none ↦ none
        | some (reply, h') ↦ elim (serve_all as' h') [
          | none ↦ none
          | some replies ↦ some (reply ∷ replies)
        ]
      ]

  serve_all-answered :
      (a b : ℤ)
      → ltb_ℤ (pos 0) a ≡ true
      → (as' : List Arrival) (h : Handler rx net tb)
      → Reach (new_memory_backend a b) h.cache_backend
      → (replies : List Reply) × (serve_all as' h ≡ some replies) × (length replies ≡ length as')
  unfolding serve_all
  serve_all-answered a b room [] h reach = ([], refl, refl)
  serve_all-answered a b room (x ∷ as') h reach =
      let (reply, h', run, reach', _, _) =
        serve_http-IsAnswered rx net tb a b room x.origin x.now quote_json x.request_id x.request h
          reach in
      let (replies, rest, same) = serve_all-answered a b room as' h' reach' in
      (reply ∷ replies, rw (run, serve_all) (rw (rest, serve_all) refl), omega (arith, same))

  module _ {U : Type 0} (env : Environment U) (app : App rx net tb U)
      (started : start_app rx net tb env ≡ inr app) where
    app-IsReady : IsReady env rx net tb app
    app-IsReady =
        let outcome : Outcome env rx net tb (inr app) =
          subst (Outcome env rx net tb) started (start_app-Outcome env rx net tb) in
        ready outcome
      where
        ready : Outcome env rx net tb (inr app) → IsReady env rx net tb app
        ready (success a r) = r

    positive : (n : ℤ) → n ≢ pos 0 → leb_ℤ (pos 0) n ≡ true → ltb_ℤ (pos 0) n ≡ true
    positive n nonzero h = ground arith

    -- A program that has started answers every request of every sequence of requests, whatever the
    -- origin does, if its configuration has no negative limit of cache entries. The admin API, if it is
    -- enabled, refuses every request that does not carry the token, alone or behind the word Bearer and
    -- a space, and such a request changes nothing in the cache.
    pub start_app-serves :
        leb_ℤ (pos 0) app.cfg.cache.max_entries ≡ true
        → ((arrivals : List Arrival)
            → (replies : List Reply) × (serve_all arrivals app.proxy_handler ≡ some replies)
              × (length replies ≡ length arrivals))
          × (app.cfg.admin_api.enabled ≡ true
              → (json : Decoder) (r : Request) (m : MemoryBackend)
              → HasToken app.admin_token r
                ⊎ (serve_admin app.admin_token json r m ≡ (Answer.unauthorized, m)))
    start_app-serves limit =
        let ready = app-IsReady in
        let c = app.cfg.cache in
        let start : Reach (new_memory_backend c.max_entries c.max_bytes)
            app.proxy_handler.cache_backend =
          subst (Reach (new_memory_backend c.max_entries c.max_bytes)) (sym ready.cache) here in
        (
          λ arrivals.
              serve_all-answered c.max_entries c.max_bytes
                (positive c.max_entries ready.complete.max_entries limit) arrivals app.proxy_handler
                start,
          λ enabled json r m. serve_admin-HasToken app.admin_token json r m (ready.token enabled),
        )
