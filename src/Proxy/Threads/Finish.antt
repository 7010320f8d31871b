-- ===== src/Proxy/Threads/Finish.antt =====
-- internal/proxy/handler.go: runs of the threads that end with an answer, and how they are put
-- together.
use open_flare.Prelude.{
  ℕ, ◌≡◌, ◌≢◌, refl, ◌∙◌, ap, true, false, Option, some, ◌==◌, if-true, if-false, ==_iff,
}
use open_flare.Http.{Request}
use open_flare.Regexp.{RegexpEngine}
use open_flare.Net.{NetPackage}
use open_flare.RateLimit.{TokenBucket}
use open_flare.Cache.Backend.{Entry, MemoryBackend}
use open_flare.Proxy.Handler.{Handler, request_key}
use open_flare.Proxy.Threads.{
  Thread, missed, System, move, request_of, is_answered, Step, Reach, here, next,
}

pub threads-move :
    (i : ℕ) (t : Thread) (m : MemoryBackend) (s : System) → (move i t m s).threads i ≡ t
unfolding move
threads-move i t m s = if-true (i == i) _ _ ((==_iff i i).1 refl)

pub threads-move_other :
    (i j : ℕ) (t : Thread) (m : MemoryBackend) (s : System)
    → (j == i) ≡ false
    → (move i t m s).threads j ≡ s.threads j
unfolding move
threads-move_other i j t m s other = if-false (j == i) _ _ other

module _ (rx : RegexpEngine) (net : NetPackage) (tb : TokenBucket) (h : Handler rx net tb) where
  pub Reach-first :
      {s s' s'' : System}
      → Step rx net tb h s s'
      → Reach rx net tb h s' s''
      → Reach rx net tb h s s''
  Reach-first step here = next here step
  Reach-first step (next run last) = next (Reach-first step run) last

  -- Steps lead to a state in which the thread has an answer to the request. The other threads are where
  -- they were, but for one that runs a call for the key of the request.
  pub record Finishes (i : ℕ) (r : Request) (s : System) : Type 0 where
    pub after : System
    pub run : Reach rx net tb h s after
    pub request : request_of (after.threads i) ≡ some r
    pub answered : is_answered (after.threads i) ≡ true
    pub others :
        (j : ℕ)
        → (j == i) ≡ false
        → s.leader (request_key r) ≢ some j
        → after.threads j ≡ s.threads j

  -- Steps lead to the end of the call that the thread runs, and move no other thread.
  pub record Completes (i : ℕ) (r : Request) (s : System) : Type 0 where
    pub after : System
    pub run : Reach rx net tb h s after
    pub result : Option Entry
    pub at : after.threads i ≡ missed r result
    pub others : (j : ℕ) → (j == i) ≡ false → after.threads j ≡ s.threads j

  pub Finishes-here :
      (i : ℕ) (r : Request) (t : Thread) (s : System)
      → s.threads i ≡ t
      → request_of t ≡ some r
      → is_answered t ≡ true
      → Finishes i r s
  Finishes-here i r t s at request answered = record {
    after = s;
    run = here;
    request = rw at request;
    answered = rw at answered;
    others = λ j _ _. refl;
  }

  pub Finishes-first :
      (i : ℕ) (r : Request) (t : Thread) (m : MemoryBackend) (s : System)
      → Step rx net tb h s (move i t m s)
      → Finishes i r (move i t m s)
      → Finishes i r s
  unfolding move
  Finishes-first i r t m s step f = record {
    after = f.after;
    run = Reach-first step f.run;
    request = f.request;
    answered = f.answered;
    others = λ j other free. f.others j other free ∙ threads-move_other i j t m s other;
  }

  -- A step to the place of an answer.
  pub Finishes-step :
      (i : ℕ) (r : Request) (t : Thread) (m : MemoryBackend) (s : System)
      → Step rx net tb h s (move i t m s)
      → request_of t ≡ some r
      → is_answered t ≡ true
      → Finishes i r s
  Finishes-step i r t m s step request answered =
      Finishes-first i r t m s step
        (Finishes-here i r t (move i t m s) (threads-move i t m s) request answered)

  pub Completes-Finishes : (i : ℕ) (r : Request) (s : System) → Completes i r s → Finishes i r s
  unfolding request_of is_answered
  Completes-Finishes i r s c = record {
    after = c.after;
    run = c.run;
    request = ap request_of c.at;
    answered = ap is_answered c.at;
    others = λ j other free. c.others j other;
  }
