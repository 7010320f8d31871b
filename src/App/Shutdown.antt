-- ===== src/App/Shutdown.antt =====
-- internal/app/app.go: the end of Run. Each server has a goroutine, which may fail; Run waits for a signal
-- or for an error in the channel, and after a signal shuts the servers down one after the other. The
-- timeout of a shutdown, whose error is only logged, is left out.
pub mod Sound
pub mod Servers
use open_flare.Prelude.{
  ℕ, ◌+◌, ◌≤◌, ◌≡◌, subst, ◌⊎◌, inl, inr, refl, ap, Bool, true, false, ◌&&◌, List, [], ◌∷◌, ◌++◌,
  Option, none, some, arith, All, All-append, All-map, length, length-append, if◌then◌else◌,
  if-split, true-ne-false, &&-eq-true,
}
use open_flare.Text.{Bytes}
use open_flare.Config.{RootConfig}
use open_flare.App.{RunError, public_server_error, admin_server_error}

-- A server and its goroutine; a failed one has put its error into the channel.
pub data ServerState : Type 0 where
  idle listening stopped : ServerState
  failed : Bytes → ServerState

pub data Phase : Type 0 where
  waiting stopping_public stopping_admin : Phase
  returned : Option RunError → Phase

-- `admin` is `none` if the admin server is not started, and `errors` is the channel `errCh`.
pub record RunState : Type 0 where
  pub public : ServerState
  pub admin : Option ServerState
  pub errors : List RunError
  pub signalled : Bool
  pub phase : Phase

unfoldable pub start : RootConfig → RunState
start cfg = record {
  public = idle;
  admin = if cfg.admin_api.enabled then some idle else none;
  errors = [];
  signalled = false;
  phase = waiting;
}

-- `Shutdown`: a server that has not failed is stopped, also one that is not listening yet.
abbrev pub shut_down : ServerState → ServerState
shut_down idle = stopped
shut_down listening = stopped
shut_down stopped = stopped
shut_down (failed e) = failed e

-- `ListenAndServe` may end with an error as long as the server is neither stopped nor has failed.
abbrev pub can_fail : ServerState → Bool
can_fail idle = true
can_fail listening = true
can_fail stopped = false
can_fail (failed e) = false

abbrev pub shut_down_admin : Option ServerState → Option ServerState
shut_down_admin none = none
shut_down_admin (some x) = some (shut_down x)

-- The steps of `Run` and of its goroutines, and the arrival of a signal.
pub data Step (cfg : RootConfig) (s : RunState) : RunState → Type 0 where
  listen_public : s.public ≡ idle → Step cfg s (record s { public = listening })
  listen_admin : s.admin ≡ some idle → Step cfg s (record s { admin = some listening })
  fail_public :
      (e : Bytes)
      → can_fail s.public ≡ true
      → Step cfg s (record s { public = failed e; errors = s.errors ++ public_server_error e ∷ [] })
  fail_admin :
      (x : ServerState) (e : Bytes)
      → s.admin ≡ some x
      → can_fail x ≡ true
      → Step cfg s
          (record s { admin = some (failed e); errors = s.errors ++ admin_server_error e ∷ [] })
  signal : Step cfg s (record s { signalled = true })
  take_signal :
      s.phase ≡ waiting → s.signalled ≡ true → Step cfg s (record s { phase = stopping_public })
  take_error :
      (e : RunError) (rest : List RunError)
      → s.phase ≡ waiting
      → s.errors ≡ e ∷ rest
      → Step cfg s (record s { errors = rest; phase = returned (some e) })
  shut_public :
      s.phase ≡ stopping_public
      → Step cfg s (record s {
        public = shut_down s.public;
        phase = if cfg.admin_api.enabled then stopping_admin else returned none;
      })
  shut_admin :
      s.phase ≡ stopping_admin
      → Step cfg s (record s { admin = shut_down_admin s.admin; phase = returned none })

pub data Reach (cfg : RootConfig) : RunState → Type 0 where
  begin : Reach cfg (start cfg)
  next : {s s' : RunState} → Reach cfg s → Step cfg s s' → Reach cfg s'
