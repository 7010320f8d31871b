-- ===== src/Proxy/Threads/Invariant.antt =====
-- internal/proxy/handler.go: where the entries come from that threads get, and that the cache holds.
use open_flare.Prelude.{ℕ, ◌≡◌, refl, true, Option, none, some, ◌==◌, inl, if-split}
use mathlib.Core.Path.{subst}
use open_flare.Prelude.Int.{ℤ, pos, ltb_ℤ}
use open_flare.Text.{Bytes}
use open_flare.Regexp.{RegexpEngine}
use open_flare.Net.{NetPackage}
use open_flare.RateLimit.{TokenBucket}
use open_flare.Cache.Backend.{MemoryBackend, new_memory_backend}
use open_flare.Cache.Backend.Runs
use open_flare.Cache.Backend.Items.{view}
use open_flare.Cache.Backend.Spec.{call_bypass, done}
use open_flare.Cache.Backend.Refine.{call}
use open_flare.Cache.Backend.Contents.{call-Holds}
use open_flare.Proxy.Handler.{Handler, request_key}
use open_flare.Proxy.Threads.{
  Thread, idle, fetching, storing, missed, hit, System, start, move, lead, Step, arrive, bypass,
  first_hit, first_miss, second_hit, second_miss, fetch_failed, fetched, store, share, leave, admin,
  Reach, here, next,
}
use open_flare.Proxy.Threads.Sound.{
  IsSound, Genuine, IsHeld, get-IsHeld, store_entry-IsHeld, shared-IsSound, call-IsHeld,
}

module _ (rx : RegexpEngine) (net : NetPackage) (tb : TokenBucket) (h : Handler rx net tb) where
  module _ (a b : ℤ) (room : ltb_ℤ (pos 0) a ≡ true) where
    pub record IsInvariant (s : System) : Type 0 where
      pub held : IsHeld rx net tb h a b room s.cache
      pub sound : (i : ℕ) → IsSound rx net tb h (s.threads i)

    -- One thread goes on to a sound place, and the cache to a state that holds what it should.
    move-IsInvariant :
        (i : ℕ) (t : Thread) (m : MemoryBackend) (s : System)
        → IsInvariant s
        → IsHeld rx net tb h a b room m
        → IsSound rx net tb h t
        → IsInvariant (move i t m s)
    unfolding move
    move-IsInvariant i t m s v held sound = record {
      held = held;
      sound = λ j. if-split (IsSound rx net tb h) (j == i) _ _ (λ _. sound) (λ _. v.sound j);
    }

    lead-IsInvariant :
        (k : Bytes) (o : Option ℕ) (s : System) → IsInvariant s → IsInvariant (lead k o s)
    unfolding lead
    lead-IsInvariant k o s v = record { held = v.held; sound = v.sound }

    Step-IsInvariant : {s s' : System} → Step rx net tb h s s' → IsInvariant s → IsInvariant s'
    unfolding call
    Step-IsInvariant {s} (arrive i r p q) v = move-IsInvariant i _ _ s v v.held q
    Step-IsInvariant {s} (bypass i r p q) v =
        move-IsInvariant i _ _ s v
          (call-Holds (Genuine rx net tb h) a b room call_bypass s.cache done _ v.held tt refl).0 q
    Step-IsInvariant {s} (first_hit i now r e p q) v =
        let (held, genuine) = get-IsHeld rx net tb h a b room now (request_key r) s.cache v.held in
        move-IsInvariant i (hit r e) _ s v held (genuine e q)
    Step-IsInvariant {s} (first_miss i now r p q) v =
        move-IsInvariant i _ _ s v
          (get-IsHeld rx net tb h a b room now (request_key r) s.cache v.held).0
          (subst (IsSound rx net tb h) p (v.sound i))
    Step-IsInvariant {s} (second_hit i now r e p free q) v =
        let (held, genuine) = get-IsHeld rx net tb h a b room now (request_key r) s.cache v.held in
        move-IsInvariant i (missed r (some e)) _ s v held (inl (genuine e q))
    Step-IsInvariant {s} (second_miss i now r p free q) v = lead-IsInvariant _ _ _ (
        move-IsInvariant i (fetching r) _ s v
          (get-IsHeld rx net tb h a b room now (request_key r) s.cache v.held).0
          (subst (IsSound rx net tb h) p (v.sound i)))
    Step-IsInvariant {s} (fetch_failed i r origin p q) v =
        lead-IsInvariant _ _ _ (move-IsInvariant i (missed r none) _ s v v.held tt)
    Step-IsInvariant {s} (fetched i r origin e p q) v =
        move-IsInvariant i (storing r e) _ s v v.held
          (origin, subst (IsSound rx net tb h) p (v.sound i), q)
    Step-IsInvariant {s} (store i now r e o m p q) v =
        let (held, sound) =
          store_entry-IsHeld rx net tb h a b room now r e o s.cache m v.held
            (subst (IsSound rx net tb h) p (v.sound i)) q in
        lead-IsInvariant _ _ _ (move-IsInvariant i (missed r o) _ s v held sound)
    Step-IsInvariant {s} (share i j r r' o p q same) v =
        move-IsInvariant i (missed r o) _ s v v.held (
          shared-IsSound rx net tb h a b room r r' o same
            (subst (IsSound rx net tb h) q (v.sound j)))
    Step-IsInvariant {s} (leave i _) v = move-IsInvariant i idle _ s v v.held tt
    Step-IsInvariant {s} (admin c res m p q) v = record {
      held = call-IsHeld rx net tb h a b room c s.cache m res p v.held q;
      sound = v.sound;
    }

    pub Reach-IsInvariant : {s : System} → Reach rx net tb h (start a b) s → IsInvariant s
    unfolding start view new_memory_backend
    Reach-IsInvariant here = record {
      held = record { reach = Runs.here; entries = tt };
      sound = λ i. tt;
    }
    Reach-IsInvariant (next run step) = Step-IsInvariant step (Reach-IsInvariant run)
