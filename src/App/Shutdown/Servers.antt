-- ===== src/App/Shutdown/Servers.antt =====
-- internal/app/app.go: what holds of the two servers and of the channel of errors while Run runs.
use open_flare.Prelude.{
  ℕ, ◌+◌, ◌≤◌, ◌≡◌, refl, ap, Bool, true, false, ◌&&◌, Option, none, some, arith, All, length,
  if-split, true-ne-false, &&-eq-true,
}
use open_flare.Text.{Bytes}
use open_flare.Config.{RootConfig}
use open_flare.App.{RunError, public_server_error, admin_server_error}
use open_flare.App.Shutdown.{
  ServerState, idle, listening, stopped, failed, Phase, waiting, stopping_public, stopping_admin,
  returned, RunState, start, shut_down, can_fail, shut_down_admin,
}

abbrev pub one_if : Bool → ℕ
one_if true = 1
one_if false = 0

-- The servers that may still put an error into the channel.
abbrev pub weight : ServerState → ℕ
weight x = one_if (can_fail x)

abbrev pub admin_weight : Option ServerState → ℕ
admin_weight none = 0
admin_weight (some x) = weight x

abbrev pub is_closed : ServerState → Bool
is_closed idle = false
is_closed listening = false
is_closed stopped = true
is_closed (failed e) = true

abbrev pub is_admin_closed : Option ServerState → Bool
is_admin_closed none = true
is_admin_closed (some x) = is_closed x

-- What is closed in a phase.
abbrev pub closed_in : Phase → ServerState → Option ServerState → Bool
closed_in waiting public admin = true
closed_in stopping_public public admin = true
closed_in stopping_admin public admin = is_closed public
closed_in (returned none) public admin = is_closed public && is_admin_closed admin
closed_in (returned (some e)) public admin = true

-- The error is that of a server that has failed.
abbrev pub IsReported : ServerState → Option ServerState → RunError → Type 0
IsReported public admin (public_server_error e) = public ≡ failed e
IsReported public admin (admin_server_error e) = admin ≡ some (failed e)

abbrev pub IsReturned : Phase → ServerState → Option ServerState → Type 0
IsReturned (returned (some e)) public admin = IsReported public admin e
IsReturned _ public admin = Unit

pub record IsSound (cfg : RootConfig) (s : RunState) : Type 0 where
  pub room : length s.errors + weight s.public + admin_weight s.admin ≤ 2
  pub closed : closed_in s.phase s.public s.admin ≡ true
  pub reported : All (IsReported s.public s.admin) s.errors
  pub outcome : IsReturned s.phase s.public s.admin
  pub unhosted : cfg.admin_api.enabled ≡ false → s.admin ≡ none

pub start-IsSound : (cfg : RootConfig) → IsSound cfg (start cfg)
unfolding start
start-IsSound cfg = record {
  room =
      if-split (λ x. 0 + weight idle + admin_weight x ≤ 2) cfg.admin_api.enabled (some idle) none
        (λ _. omega arith) (λ _. omega arith);
  closed = refl;
  reported = tt;
  outcome = tt;
  unhosted = λ e. rw e refl;
}

pub is_closed-can_fail : (x : ServerState) → can_fail x ≡ true → is_closed x ≡ false
is_closed-can_fail idle h = refl
is_closed-can_fail listening h = refl
is_closed-can_fail stopped h = absurd (ground arith)
is_closed-can_fail (failed e) h = absurd (ground arith)

pub is_closed-shut_down : (x : ServerState) → is_closed (shut_down x) ≡ true
is_closed-shut_down idle = refl
is_closed-shut_down listening = refl
is_closed-shut_down stopped = refl
is_closed-shut_down (failed e) = refl

pub is_admin_closed-shut_down_admin :
    (x : Option ServerState) → is_admin_closed (shut_down_admin x) ≡ true
is_admin_closed-shut_down_admin none = refl
is_admin_closed-shut_down_admin (some x) = is_closed-shut_down x

pub weight-shut_down : (x : ServerState) → weight (shut_down x) ≤ weight x
weight-shut_down idle = omega arith
weight-shut_down listening = omega arith
weight-shut_down stopped = omega arith
weight-shut_down (failed e) = omega arith

pub admin_weight-shut_down_admin :
    (x : Option ServerState) → admin_weight (shut_down_admin x) ≤ admin_weight x
admin_weight-shut_down_admin none = omega arith
admin_weight-shut_down_admin (some x) = weight-shut_down x

-- Where something is closed in a phase, a server that may fail is not what is closed.
pub closed_in-public :
    (phase : Phase) (x y : ServerState) (admin : Option ServerState)
    → can_fail x ≡ true
    → closed_in phase x admin ≡ true
    → closed_in phase y admin ≡ true
closed_in-public waiting x y admin h k = refl
closed_in-public stopping_public x y admin h k = refl
closed_in-public stopping_admin x y admin h k = absurd (true-ne-false k (is_closed-can_fail x h))
closed_in-public (returned none) x y admin h k =
    absurd (
      true-ne-false (&&-eq-true (is_closed x) (is_admin_closed admin) k).0 (is_closed-can_fail x h))
closed_in-public (returned (some e)) x y admin h k = refl

pub closed_in-admin :
    (phase : Phase) (public x y : ServerState)
    → can_fail x ≡ true
    → closed_in phase public (some x) ≡ true
    → closed_in phase public (some y) ≡ true
closed_in-admin waiting public x y h k = refl
closed_in-admin stopping_public public x y h k = refl
closed_in-admin stopping_admin public x y h k = k
closed_in-admin (returned none) public x y h k =
    absurd
      (true-ne-false (&&-eq-true (is_closed public) (is_closed x) k).1 (is_closed-can_fail x h))
closed_in-admin (returned (some e)) public x y h k = refl

failed-can_fail : (x : ServerState) (e : Bytes) → can_fail x ≡ true → x ≡ failed e → ⊥
failed-can_fail x e h k = true-ne-false h (ap can_fail k)

-- Reported errors stay those of failed servers.
pub IsReported-public :
    (x y : ServerState) (admin : Option ServerState)
    → can_fail x ≡ true
    → (e : RunError) → IsReported x admin e
    → IsReported y admin e
IsReported-public x y admin h (public_server_error e) k = absurd (failed-can_fail x e h k)
IsReported-public x y admin h (admin_server_error e) k = k

pub IsReported-admin :
    (public x y : ServerState)
    → can_fail x ≡ true
    → (e : RunError) → IsReported public (some x) e
    → IsReported public (some y) e
IsReported-admin public x y h (public_server_error e) k = k
IsReported-admin public x y h (admin_server_error e) k = absurd (failed-can_fail x e h (cc k))

pub IsReported-shut :
    (x : ServerState) (admin : Option ServerState) (e : RunError)
    → IsReported x admin e
    → IsReported (shut_down x) admin e
IsReported-shut x admin (public_server_error e) k = ap shut_down k
IsReported-shut x admin (admin_server_error e) k = k

pub IsReported-shut_admin :
    (x : ServerState) (admin : Option ServerState) (e : RunError)
    → IsReported x admin e
    → IsReported x (shut_down_admin admin) e
IsReported-shut_admin x admin (public_server_error e) k = k
IsReported-shut_admin x admin (admin_server_error e) k = ap shut_down_admin k

pub IsReturned-map :
    (phase : Phase) (x y : ServerState) (a b : Option ServerState)
    → ((e : RunError) → IsReported x a e → IsReported y b e)
    → IsReturned phase x a
    → IsReturned phase y b
IsReturned-map waiting x y a b f h = tt
IsReturned-map stopping_public x y a b f h = tt
IsReturned-map stopping_admin x y a b f h = tt
IsReturned-map (returned none) x y a b f h = tt
IsReturned-map (returned (some e)) x y a b f h = f e h
