-- ===== src/RateLimit/Buckets.antt =====
-- internal/ratelimit/limiter.go: what a request and a cleanup do to the buckets.
use open_flare.Prelude.{
  ℕ, ◌+◌, ◌≤◌, ◌≡◌, ◌≢◌, refl, sym, ◌∙◌, ap, true, List, [], ◌∷◌, Option, none, some, ◌↔◌, arith,
  ltb, if-true, if-false, if-split, true-ne-false, All, All-and, Bool-cases, inl, inr, ◌⊎◌,
}
use open_flare.Text.{Bytes, str_eq}
use open_flare.Text.Laws.{str_eq_iff}
use open_flare.Http.{Request}
use open_flare.Config.{RateLimitRule}
use open_flare.Net.{NetPackage}
use open_flare.Dict.{lookup, lookup-insert}
use open_flare.RateLimit.{
  TokenBucket, LimiterEntry, Limiter, build_key, applies, bucket_of, take_from, allow_rules, allow,
  is_exempt, extract_client_ip, cleanup, cleanup_entries, cleanup_interval,
}

-- The rule does not apply to the request, or its key for the request is another one.
unfoldable pub IsApart : Request → Bytes → Bytes → RateLimitRule → Type 0
IsApart r ip j rule = applies rule r ≡ true → build_key rule r ip ≢ j

-- Rules that apply to the request have different keys for it.
unfoldable pub IsSeparate : Request → Bytes → List RateLimitRule → Type 0
IsSeparate r ip [] = Unit
IsSeparate r ip (rule ∷ rules) =
    (applies rule r ≡ true → All (IsApart r ip (build_key rule r ip)) rules) × IsSeparate r ip rules

module _ (tb : TokenBucket) where
  take_from-other :
      (now : ℕ) (key j : Bytes) (rule : RateLimitRule) (m : List (Bytes × LimiterEntry tb))
      → key ≢ j
      → lookup j (take_from tb now key rule m).1 ≡ lookup j m
  unfolding take_from
  take_from-other now key j rule m h = elim (Bool-cases (str_eq key j)) [
    | inl same ↦ absurd (h ((str_eq_iff key j).0 same))
    | inr other ↦ lookup-insert key j _ m ∙ if-false _ _ _ other
  ]

  allow_rules-other :
      (now : ℕ) (r : Request) (ip j : Bytes) (rules : List RateLimitRule)
      (m : List (Bytes × LimiterEntry tb))
      → All (IsApart r ip j) rules
      → lookup j (allow_rules tb now r ip rules m).1 ≡ lookup j m
  unfolding allow_rules IsApart
  allow_rules-other now r ip j [] m h = refl
  allow_rules-other now r ip j (rule ∷ rules) m (apart, h) =
      let t = take_from tb now (build_key rule r ip) rule m in
      let passed = allow_rules-other now r ip j rules m h in
      let taken = allow_rules-other now r ip j rules t.1 h in
      let P : Option RateLimitRule × List (Bytes × LimiterEntry tb) → Type 0 =
        λ z. lookup j z.1 ≡ lookup j m in
      if-split P (applies rule r) _ _
        (λ on.
          let other = take_from-other now (build_key rule r ip) j rule m (apart on) in
          if-split P t.0 _ _ (λ _. taken ∙ other) (λ _. other))
        (λ _. passed)

  -- The rule does not apply, or its bucket has a token.
  unfoldable pub IsFed :
      ℕ → Request → Bytes → List (Bytes × LimiterEntry tb) → RateLimitRule → Type 0
  IsFed now r ip m rule =
      applies rule r ≡ true
      → (tb.take_token now (bucket_of tb (build_key rule r ip) rule m)).0 ≡ true

  bucket_of-other :
      (now : ℕ) (key j : Bytes) (rule other : RateLimitRule) (m : List (Bytes × LimiterEntry tb))
      → key ≢ j
      → bucket_of tb j other (take_from tb now key rule m).1 ≡ bucket_of tb j other m
  unfolding bucket_of
  bucket_of-other now key j rule other m h =
      ap (λ o. elim o [ none ↦ tb.new_bucket other.rate other.burst | some e ↦ e.limiter ])
        (take_from-other now key j rule m h)

  IsFed-other :
      (now : ℕ) (r : Request) (ip : Bytes) (rule other : RateLimitRule)
      (m : List (Bytes × LimiterEntry tb))
      → IsApart r ip (build_key rule r ip) other
      → IsFed now r ip (take_from tb now (build_key rule r ip) rule m).1 other
        ↔ IsFed now r ip m other
  unfolding IsFed IsApart
  IsFed-other now r ip rule other m apart =
      let same = λ (on : applies other r ≡ true).
        ap (λ b. (tb.take_token now b).0)
          (bucket_of-other now (build_key rule r ip) (build_key other r ip) rule other m
            (λ e. apart on (sym e))) in
      ((λ f on. sym (same on) ∙ f on), (λ f on. same on ∙ f on))

  All-IsFed-other :
      (now : ℕ) (r : Request) (ip : Bytes) (rule : RateLimitRule) (rules : List RateLimitRule)
      (m : List (Bytes × LimiterEntry tb))
      → All (IsApart r ip (build_key rule r ip)) rules
      → All (IsFed now r ip (take_from tb now (build_key rule r ip) rule m).1) rules
        ↔ All (IsFed now r ip m) rules
  All-IsFed-other now r ip rule rules m apart = (
    All-and (λ x a. (IsFed-other now r ip rule x m a).0) rules apart,
    All-and (λ x a. (IsFed-other now r ip rule x m a).1) rules apart,
  )

  allow_rules-none_iff :
      (now : ℕ) (r : Request) (ip : Bytes) (rules : List RateLimitRule)
      (m : List (Bytes × LimiterEntry tb))
      → IsSeparate r ip rules
      → ((allow_rules tb now r ip rules m).0 ≡ none) ↔ All (IsFed now r ip m) rules
  unfolding allow_rules take_from IsSeparate IsFed
  allow_rules-none_iff now r ip [] m h = ((λ _. tt), (λ _. refl))
  allow_rules-none_iff now r ip (rule ∷ rules) m (apart, h) =
      let key = build_key rule r ip in
      let t = take_from tb now key rule m in
      let passed = allow_rules-none_iff now r ip rules m h in
      let taken = allow_rules-none_iff now r ip rules t.1 h in
      let P : Option RateLimitRule × List (Bytes × LimiterEntry tb) → Type 0 =
        λ z. (z.0 ≡ none) ↔ All (IsFed now r ip m) (rule ∷ rules) in
      if-split P (applies rule r) _ _
        (λ on.
          let move = All-IsFed-other now r ip rule rules m (apart on) in
          if-split P t.0 _ _
            (λ fed. ((λ e. ((λ _. fed), move.0 (taken.0 e))), (λ (_, f). taken.1 (move.1 f))))
            (λ unfed.
              ((λ e. absurd (ground arith)), (λ (f, _). absurd (true-ne-false (f on) unfed)))))
        (λ off.
          ((λ e. ((λ on. absurd (true-ne-false on off)), passed.0 e)), (λ (_, f). passed.1 f)))

module _ (tb : TokenBucket) where
  -- The entry is seen no longer ago than the interval.
  unfoldable pub IsRecent : ℕ → Bytes × LimiterEntry tb → Type 0
  IsRecent now (k, e) = now ≤ e.last_seen + cleanup_interval

  cleanup_entries-IsRecent :
      (now : ℕ) (m : List (Bytes × LimiterEntry tb)) → All (IsRecent now) (cleanup_entries tb now m)
  unfolding cleanup_entries IsRecent
  cleanup_entries-IsRecent now [] = tt
  cleanup_entries-IsRecent now ((k, e) ∷ m) =
      let rest = cleanup_entries-IsRecent now m in
      if-split (All (IsRecent now)) (ltb (e.last_seen + cleanup_interval) now) _ _ (λ _. rest)
        (λ h. (ground arith, rest))

  cleanup_entries-lookup :
      (now : ℕ) (k : Bytes) (e : LimiterEntry tb) (m : List (Bytes × LimiterEntry tb))
      → lookup k m ≡ some e
      → now ≤ e.last_seen + cleanup_interval
      → lookup k (cleanup_entries tb now m) ≡ some e
  unfolding cleanup_entries lookup
  cleanup_entries-lookup now k e [] h recent = absurd (ground arith)
  cleanup_entries-lookup now k e ((j, f) ∷ m) h recent =
      let P : List (Bytes × LimiterEntry tb) → Type 0 = λ z. lookup k z ≡ some e in
      let rest = cleanup_entries-lookup now k e m in
      elim (Bool-cases (str_eq j k)) [
        | inl same ↦
            let found : some f ≡ some e = sym (if-true _ _ _ same) ∙ h in
            let seen : f.last_seen ≡ e.last_seen =
              ap (λ (o : Option (LimiterEntry tb)). elim o [ none ↦ 0 | some x ↦ x.last_seen ])
                found in
            if-split P (ltb (f.last_seen + cleanup_interval) now) _ _ (λ old. absurd (ground arith))
              (λ _. if-true _ _ _ same ∙ found)
        | inr other ↦
            let found = rest (sym (if-false _ _ _ other) ∙ h) recent in
            if-split P (ltb (f.last_seen + cleanup_interval) now) _ _ (λ _. found)
              (λ _. if-false _ _ _ other ∙ found)
      ]

  -- After a round of cleanup every entry was seen within the interval, and a key whose entry was
  -- seen within the interval still has it.
  pub cleanup-IsSwept :
      (now : ℕ) (l : Limiter tb)
      → All (IsRecent now) (cleanup tb now l).limiters
        × ((k : Bytes) (e : LimiterEntry tb)
            → lookup k l.limiters ≡ some e
            → now ≤ e.last_seen + cleanup_interval
            → lookup k (cleanup tb now l).limiters ≡ some e)
  unfolding cleanup
  cleanup-IsSwept now l =
      (cleanup_entries-IsRecent now l.limiters, λ k e. cleanup_entries-lookup now k e l.limiters)

module _ (tb : TokenBucket) (net : NetPackage) (now : ℕ) (r : Request) (l : Limiter tb) where
  -- If the rules that apply to a request have different keys for it, the request is allowed
  -- exactly if its client or path is exempt or the bucket of every rule that applies has a token.
  pub allow_iff :
      IsSeparate r (extract_client_ip net r.remote_addr) l.rules
      → ((allow tb net now r l).0 ≡ none) ↔ (
          (is_exempt net l.exemptions (extract_client_ip net r.remote_addr) r.path ≡ true)
          ⊎ All (IsFed tb now r (extract_client_ip net r.remote_addr) l.limiters) l.rules)
  unfolding allow
  allow_iff h =
      let ip = extract_client_ip net r.remote_addr in
      let judged = allow_rules-none_iff tb now r ip l.rules l.limiters h in
      let P : Option RateLimitRule × Limiter tb → Type 0 = λ z. (z.0 ≡ none) ↔ (
        (is_exempt net l.exemptions ip r.path ≡ true)
        ⊎ All (IsFed tb now r ip l.limiters) l.rules) in
      if-split P (is_exempt net l.exemptions ip r.path) _ _ (λ e. ((λ _. inl e), (λ _. refl)))
        (λ e. (
          (λ n. inr (judged.0 n)),
          (λ s. elim s [ inl t ↦ absurd (true-ne-false t e) | inr f ↦ judged.1 f ]),
        ))

  -- A request changes no bucket but those that its applying rules have for it: the entry of a key
  -- that none of them has is as before.
  pub allow-other :
      (j : Bytes)
      → All (IsApart r (extract_client_ip net r.remote_addr) j) l.rules
      → lookup j (allow tb net now r l).1.limiters ≡ lookup j l.limiters
  unfolding allow
  allow-other j h =
      let ip = extract_client_ip net r.remote_addr in
      let P : Option RateLimitRule × Limiter tb → Type 0 =
        λ z. lookup j z.1.limiters ≡ lookup j l.limiters in
      if-split P (is_exempt net l.exemptions ip r.path) _ _ (λ _. refl)
        (λ _. allow_rules-other tb now r ip j l.rules l.limiters h)
