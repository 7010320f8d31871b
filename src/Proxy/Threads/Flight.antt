-- ===== src/Proxy/Threads/Flight.antt =====
-- internal/proxy/handler.go: the calls of the singleflight group, which run the exchanges with the
-- origin.
use open_flare.Prelude.{
  ℕ, ◌≡◌, ◌↔◌, refl, sym, ◌∙◌, ap, Bool, true, false, none, some, ◌==◌, inl, inr, arith, Bool-cases,
  ==_iff, if-true, if-false, if◌then◌else◌,
}
use open_flare.Prelude.Int.{ℤ}
use open_flare.Text.{Bytes}
use open_flare.Text.Laws.{str_eq_iff}
use open_flare.Regexp.{RegexpEngine}
use open_flare.Net.{NetPackage}
use open_flare.RateLimit.{TokenBucket}
use open_flare.Cache.Backend.{MemoryBackend}
use open_flare.Proxy.Handler.{Handler, request_key}
use open_flare.Proxy.Threads.{
  Thread, idle, looking, sharing, fetching, storing, missed, hit, bypassed, System, start, move,
  lead, call_of, is_answered, Step, arrive, bypass, first_hit, first_miss, second_hit, second_miss,
  fetch_failed, fetched, store, share, leave, admin, Reach, here, next,
}

-- The leader of a key is the thread that runs its call.
pub record IsLed (s : System) : Type 0 where
  pub led : (k : Bytes) (j : ℕ) → (s.leader k ≡ some j) ↔ (call_of (s.threads j) ≡ some k)

-- A thread that goes on outside a call, or within one.
move-IsLed :
    (i : ℕ) (t : Thread) (m : MemoryBackend) (s : System)
    → IsLed s
    → call_of t ≡ call_of (s.threads i)
    → IsLed (move i t m s)
unfolding move
move-IsLed i t m s v same = record {
  led = λ k j. elim (Bool-cases (j == i)) [
    | inl p ↦
        let e : j ≡ i = (==_iff j i).0 p in
        let at : call_of (if j == i then t else s.threads j) ≡ call_of (s.threads j) =
          ap call_of (if-true _ _ _ p) ∙ same ∙ ap (λ l. call_of (s.threads l)) (sym e) in
        rw at (v.led k j)
    | inr p ↦ rw (if-false (j == i) t (s.threads j) p) (v.led k j)
  ];
}

call_of-if :
    (b : Bool) (t u : Thread) → call_of (if b then t else u) ≡ (if b then call_of t else call_of u)
call_of-if true t u = refl
call_of-if false t u = refl

module _ (i : ℕ) (t : Thread) (m : MemoryBackend) (s : System) (key : Bytes) (v : IsLed s) where
  -- A call begins where none is in flight.
  begin-IsLed :
      s.leader key ≡ none
      → call_of (s.threads i) ≡ none
      → call_of t ≡ some key
      → IsLed (lead key (some i) (move i t m s))
  unfolding lead move
  begin-IsLed free at new = record {
    led = λ k j.
        let split = call_of-if (j == i) t (s.threads j) in
        let same : (j == i) ≡ true → s.threads j ≡ s.threads i =
          λ p. ap s.threads ((==_iff j i).0 p) in
        rw split (
          λ p. ground (
            arith,
            (v.led k j).0,
            (v.led k j).1,
            str_eq_iff k key,
            ==_iff j i,
            free,
            at,
            new,
            same,
          ),
          λ p. ground (
            arith,
            (v.led k j).0,
            (v.led k j).1,
            str_eq_iff k key,
            ==_iff j i,
            free,
            at,
            new,
            same,
          ),
        );
  }

  -- A call ends.
  end-IsLed :
      call_of (s.threads i) ≡ some key → call_of t ≡ none → IsLed (lead key none (move i t m s))
  unfolding lead move
  end-IsLed at new = record {
    led = λ k j.
        let split = call_of-if (j == i) t (s.threads j) in
        let own = (v.led key i).1 at in
        let same : (j == i) ≡ true → s.threads j ≡ s.threads i =
          λ p. ap s.threads ((==_iff j i).0 p) in
        rw split (
          λ p. ground (
            arith,
            (v.led k j).0,
            (v.led k j).1,
            str_eq_iff k key,
            ==_iff j i,
            own,
            at,
            new,
            same,
          ),
          λ p. ground (
            arith,
            (v.led k j).0,
            (v.led k j).1,
            str_eq_iff k key,
            ==_iff j i,
            own,
            at,
            new,
            same,
          ),
        );
  }

call_of-answered : (t : Thread) → is_answered t ≡ true → call_of t ≡ none
unfolding call_of is_answered
call_of-answered idle h = refl
call_of-answered (looking r) h = refl
call_of-answered (sharing r) h = refl
call_of-answered (fetching r) h = absurd (ground arith)
call_of-answered (storing r e) h = absurd (ground arith)
call_of-answered (missed r o) h = refl
call_of-answered (hit r e) h = refl
call_of-answered (bypassed r) h = refl

module _ (rx : RegexpEngine) (net : NetPackage) (tb : TokenBucket) (h : Handler rx net tb) where
  pub Step-IsLed : {s s' : System} → Step rx net tb h s s' → IsLed s → IsLed s'
  unfolding call_of
  Step-IsLed {s} (arrive i r p q) v = move-IsLed i _ _ s v (sym (ap call_of p))
  Step-IsLed {s} (bypass i r p q) v = move-IsLed i _ _ s v (sym (ap call_of p))
  Step-IsLed {s} (first_hit i now r e p q) v = move-IsLed i _ _ s v (sym (ap call_of p))
  Step-IsLed {s} (first_miss i now r p q) v = move-IsLed i _ _ s v (sym (ap call_of p))
  Step-IsLed {s} (second_hit i now r e p free q) v = move-IsLed i _ _ s v (sym (ap call_of p))
  Step-IsLed {s} (second_miss i now r p free q) v =
      begin-IsLed i (fetching r) _ s (request_key r) v free (ap call_of p) refl
  Step-IsLed {s} (fetch_failed i r origin p q) v =
      end-IsLed i (missed r none) _ s (request_key r) v (ap call_of p) refl
  Step-IsLed {s} (fetched i r origin e p q) v =
      move-IsLed i (storing r e) _ s v (sym (ap call_of p))
  Step-IsLed {s} (store i now r e o m p q) v =
      end-IsLed i (missed r o) _ s (request_key r) v (ap call_of p) refl
  Step-IsLed {s} (share i j r r' o p q same) v = move-IsLed i _ _ s v (sym (ap call_of p))
  Step-IsLed {s} (leave i p) v = move-IsLed i idle _ s v (sym (call_of-answered (s.threads i) p))
  Step-IsLed {s} (admin c res m p q) v = record { led = v.led }

  module _ (a b : ℤ) where
    pub Reach-IsLed : {s : System} → Reach rx net tb h (start a b) s → IsLed s
    unfolding start call_of
    Reach-IsLed here = record {
      led = λ k j. (λ p. absurd (ground arith), λ p. absurd (ground arith));
    }
    Reach-IsLed (next run step) = Step-IsLed step (Reach-IsLed run)
