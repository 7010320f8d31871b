-- ===== src/App/Shutdown/Sound.antt =====
-- internal/app/app.go: how Run ends, whatever the order of the steps.
use open_flare.Prelude.{
  ◌+◌, ◌≤◌, ◌≡◌, subst, refl, ap, Bool, true, false, ◌&&◌, List, [], ◌∷◌, ◌++◌, none, some, arith,
  All, All-append, All-map, length, length-append, if◌then◌else◌, if-split, &&-eq-true,
}
use open_flare.Config.{RootConfig}
use open_flare.App.{RunError, public_server_error, admin_server_error}
use open_flare.App.Shutdown.{
  ServerState, idle, listening, failed, stopping_admin, returned, RunState, shut_down, can_fail,
  shut_down_admin, Step, listen_public, listen_admin, fail_public, fail_admin, signal, take_signal,
  take_error, shut_public, shut_admin, Reach, begin, next,
}
use open_flare.App.Shutdown.Servers.{
  one_if, weight, admin_weight, is_closed, is_admin_closed, closed_in, IsReported, IsReturned,
  IsSound, start-IsSound, is_closed-shut_down, is_admin_closed-shut_down_admin, weight-shut_down,
  admin_weight-shut_down_admin, closed_in-public, closed_in-admin, IsReported-public,
  IsReported-admin, IsReported-shut, IsReported-shut_admin, IsReturned-map,
}

both-closed : {a b : Bool} → a ≡ true → b ≡ true → (a && b) ≡ true
both-closed h k = ground (arith, h, k)

module _ (cfg : RootConfig) (s : RunState) (h : IsSound cfg s) where
  -- The public server moves on while it may still fail.
  public-IsSound :
      (y : ServerState) (errors : List RunError)
      → can_fail s.public ≡ true
      → length errors + weight y ≤ length s.errors + 1
      → All (IsReported y s.admin) errors
      → IsSound cfg (record s { public = y; errors = errors })
  public-IsSound y errors open_ size reported = record {
    room = omega (arith, h.room, size, ap one_if open_);
    closed = closed_in-public s.phase s.public y s.admin open_ h.closed;
    reported = reported;
    outcome =
        IsReturned-map s.phase s.public y s.admin s.admin
          (IsReported-public s.public y s.admin open_) h.outcome;
    unhosted = h.unhosted;
  }

  admin-IsSound :
      (x y : ServerState) (errors : List RunError)
      → s.admin ≡ some x
      → can_fail x ≡ true
      → length errors + weight y ≤ length s.errors + 1
      → All (IsReported s.public (some y)) errors
      → IsSound cfg (record s { admin = some y; errors = errors })
  admin-IsSound x y errors at open_ size reported = record {
    room = omega (arith, h.room, size, ap admin_weight at, ap one_if open_);
    closed =
        closed_in-admin s.phase s.public x y open_
          (subst (λ a. closed_in s.phase s.public a ≡ true) at h.closed);
    reported = reported;
    outcome =
        IsReturned-map s.phase s.public s.public (some x) (some y)
          (IsReported-admin s.public x y open_) (subst (IsReturned s.phase s.public) at h.outcome);
    unhosted = λ e. absurd (ground (arith, h.unhosted e, at));
  }

  kept-IsReported :
      (y : ServerState) → can_fail s.public ≡ true → All (IsReported y s.admin) s.errors
  kept-IsReported y open_ = All-map (IsReported-public s.public y s.admin open_) s.errors h.reported

  kept_admin-IsReported :
      (x y : ServerState)
      → s.admin ≡ some x
      → can_fail x ≡ true
      → All (IsReported s.public (some y)) s.errors
  kept_admin-IsReported x y at open_ =
      All-map (IsReported-admin s.public x y open_) s.errors
        (subst (λ a. All (IsReported s.public a) s.errors) at h.reported)

  shut_public-IsSound : IsSound cfg (record s {
    public = shut_down s.public;
    phase = if cfg.admin_api.enabled then stopping_admin else returned none;
  })
  shut_public-IsSound = record {
    room = omega (arith, h.room, weight-shut_down s.public);
    closed =
        if-split (λ p. closed_in p (shut_down s.public) s.admin ≡ true) cfg.admin_api.enabled
          stopping_admin (returned none) (λ _. is_closed-shut_down s.public)
          (λ e. both-closed (is_closed-shut_down s.public) (ap is_admin_closed (h.unhosted e)));
    reported = All-map (IsReported-shut s.public s.admin) s.errors h.reported;
    outcome =
        if-split (λ p. IsReturned p (shut_down s.public) s.admin) cfg.admin_api.enabled
          stopping_admin (returned none) (λ _. tt) (λ _. tt);
    unhosted = h.unhosted;
  }

  shut_admin-IsSound :
      s.phase ≡ stopping_admin
      → IsSound cfg (record s { admin = shut_down_admin s.admin; phase = returned none })
  shut_admin-IsSound at = record {
    room = omega (arith, h.room, admin_weight-shut_down_admin s.admin);
    closed =
        both-closed (subst (λ p. closed_in p s.public s.admin ≡ true) at h.closed)
          (is_admin_closed-shut_down_admin s.admin);
    reported = All-map (IsReported-shut_admin s.public s.admin) s.errors h.reported;
    outcome = tt;
    unhosted = λ e. ap shut_down_admin (h.unhosted e);
  }

pushed :
    (P : RunError → Type 0) (errors : List RunError) (e : RunError)
    → All P errors
    → P e
    → All P (errors ++ e ∷ [])
pushed P errors e h p = All-append P errors (e ∷ []) h (p, tt)

Step-IsSound : (cfg : RootConfig) (s s' : RunState) → Step cfg s s' → IsSound cfg s → IsSound cfg s'
Step-IsSound cfg s _ (listen_public at) h =
    let open_ : can_fail s.public ≡ true = ap can_fail at in
    public-IsSound cfg s h listening s.errors open_ (omega arith)
      (kept-IsReported cfg s h listening open_)
Step-IsSound cfg s _ (listen_admin at) h =
    admin-IsSound cfg s h idle listening s.errors at refl (omega arith)
      (kept_admin-IsReported cfg s h idle listening at refl)
Step-IsSound cfg s _ (fail_public e open_) h =
    public-IsSound cfg s h (failed e) _ open_
      (omega (arith, length-append s.errors (public_server_error e ∷ [])))
      (pushed _ s.errors (public_server_error e) (kept-IsReported cfg s h (failed e) open_) refl)
Step-IsSound cfg s _ (fail_admin x e at open_) h =
    admin-IsSound cfg s h x (failed e) _ at open_
      (omega (arith, length-append s.errors (admin_server_error e ∷ [])))
      (pushed _ s.errors (admin_server_error e)
        (kept_admin-IsReported cfg s h x (failed e) at open_) refl)
Step-IsSound cfg s _ signal h = record {
  room = h.room;
  closed = h.closed;
  reported = h.reported;
  outcome = h.outcome;
  unhosted = h.unhosted;
}
Step-IsSound cfg s _ (take_signal at _) h = record {
  room = h.room;
  closed = refl;
  reported = h.reported;
  outcome = tt;
  unhosted = h.unhosted;
}
Step-IsSound cfg s _ (take_error e rest at head) h =
    let (first, others) = subst (All (IsReported s.public s.admin)) head h.reported in
    record {
      room = omega (arith, h.room, ap length head);
      closed = refl;
      reported = others;
      outcome = first;
      unhosted = h.unhosted;
    }
Step-IsSound cfg s _ (shut_public at) h = shut_public-IsSound cfg s h
Step-IsSound cfg s _ (shut_admin at) h = shut_admin-IsSound cfg s h at

Reach-IsSound : (cfg : RootConfig) (s : RunState) → Reach cfg s → IsSound cfg s
Reach-IsSound cfg _ begin = start-IsSound cfg
Reach-IsSound cfg s' (next {s = s} r t) = Step-IsSound cfg s s' t (Reach-IsSound cfg s r)

-- In whatever order the goroutines of the servers, the signals and `Run` take their steps: the channel
-- never holds more than two errors; where the admin API is not enabled its server is not started; if
-- `Run` has returned no error, no server is listening or about to listen; and if it has returned an
-- error, that is the error of a server that has failed.
pub Reach-IsShut :
    (cfg : RootConfig) (s : RunState)
    → Reach cfg s
    → (length s.errors ≤ 2)
      × (cfg.admin_api.enabled ≡ false → s.admin ≡ none)
      × (s.phase ≡ returned none → (is_closed s.public ≡ true) × (is_admin_closed s.admin ≡ true))
      × ((e : RunError) → s.phase ≡ returned (some e) → IsReported s.public s.admin e)
Reach-IsShut cfg s r =
    let h = Reach-IsSound cfg s r in
    (
      omega (arith, h.room),
      h.unhosted,
      λ at.
          &&-eq-true (is_closed s.public) (is_admin_closed s.admin)
            (subst (λ p. closed_in p s.public s.admin ≡ true) at h.closed),
      λ e at. subst (λ p. IsReturned p s.public s.admin) at h.outcome,
    )
