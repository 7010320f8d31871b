-- ===== src/Waf/Body.antt =====
-- internal/waf/engine.go: the body that the WAF sees, and what is left for the handlers behind it.
use open_flare.Prelude.{
  ℕ, zero, suc, ◌≤◌, ◌≡◌, ◌↔◌, refl, sym, ◌∙◌, ap, [], ◌∷◌, some, arith, ltb, if◌then◌else◌, take,
  length, take_of_length-le, length-take, Bool-cases, inl, inr,
}
use open_flare.Text.{Bytes}
use open_flare.Http.{Request}
use open_flare.Waf.{read_body_for_inspection}

take-take-suc : (n : ℕ) (s : Bytes) → take n (take (suc n) s) ≡ take n s
take-take-suc zero s = refl
take-take-suc (suc n) [] = refl
take-take-suc (suc n) (c ∷ s) = ap (◌∷◌ c) (take-take-suc n s)

-- The WAF sees the first `max_bytes` bytes of the body, and the body that is left for the origin is
-- its first `max_bytes` + 1 bytes.
inspected_body :
    (r : Request) (stream : Bytes) (max_bytes : ℕ)
    → r.body ≡ some stream
    → ((read_body_for_inspection r max_bytes).0 ≡ take max_bytes stream)
      × ((read_body_for_inspection r max_bytes).1.body ≡ some (take (suc max_bytes) stream))
unfolding read_body_for_inspection
inspected_body r stream max_bytes h = rw (h, read_body_for_inspection) (seen, refl)
  where
    seen :
        (if ltb max_bytes (length (take (suc max_bytes) stream))
          then take max_bytes (take (suc max_bytes) stream)
          else take (suc max_bytes) stream)
        ≡ take max_bytes stream
    seen = elim (Bool-cases (ltb max_bytes (length (take (suc max_bytes) stream)))) [
      | inl long ↦ rw long (take-take-suc max_bytes stream)
      | inr short ↦ rw short (
          sym (take_of_length-le max_bytes (take (suc max_bytes) stream) (ground arith))
          ∙ take-take-suc max_bytes stream)
    ]

take_whole : (n : ℕ) (s : Bytes) → take n s ≡ s → length s ≤ n
take_whole n s h = omega (arith, length-take n s, ap length h)

-- The WAF sees the first `max_bytes` bytes of a body. The handlers behind it are left with the whole
-- body exactly if it is at most one byte longer than that; a longer body is cut.
pub read_body_for_inspection_iff :
    (r : Request) (stream : Bytes) (max_bytes : ℕ)
    → r.body ≡ some stream
    → ((read_body_for_inspection r max_bytes).0 ≡ take max_bytes stream)
      × (((read_body_for_inspection r max_bytes).1.body ≡ some stream)
          ↔ (length stream ≤ suc max_bytes))
read_body_for_inspection_iff r stream max_bytes h =
    let (seen, left) = inspected_body r stream max_bytes h in
    (
      seen,
      (
        λ e. take_whole (suc max_bytes) stream (ground (arith, sym left ∙ e)),
        λ le. left ∙ ap some (take_of_length-le (suc max_bytes) stream le),
      ),
    )
