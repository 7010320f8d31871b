-- ===== src/Proxy/Threads/Progress.antt =====
-- internal/proxy/handler.go: a thread gets to an answer, by its own steps and those of the call that
-- it waits for.
use open_flare.Prelude.{ℕ, ◌≡◌, true}
use open_flare.Prelude.Int.{ℤ, pos, ltb_ℤ}
use open_flare.Regexp.{RegexpEngine}
use open_flare.Net.{NetPackage}
use open_flare.RateLimit.{TokenBucket}
use open_flare.Cache.Backend.{MemoryBackend, new_memory_backend}
use open_flare.Cache.Backend.Runs
use open_flare.Proxy.Handler.{Handler}
use open_flare.Proxy.Replies.{Origin}
use open_flare.Proxy.Threads.{Reach}

module _ (rx : RegexpEngine) (net : NetPackage) (tb : TokenBucket) (h : Handler rx net tb) where
  module _ (a b : ℤ) (room : ltb_ℤ (pos 0) a ≡ true) (origin : Origin) (now : ℕ) where
    abbrev IsReached : MemoryBackend → Type 0
    IsReached m = Runs.Reach (new_memory_backend a b) m
