-- ===== src/Config/Errors.antt =====
-- internal/config/config.go: which configurations the validation refuses, and with what error.
use open_flare.Prelude.{
  ◌≡◌, ◌≢◌, ◌↔◌, ◌⊎◌, refl, sym, ◌∙◌, inl, inr, Bool, true, false, ◌&&◌, List, [], ◌∷◌, Option,
  none, some, arith, All, Bool-cases, Option-cases, if-split, true-ne-false, &&-eq-true,
  if◌then◌else◌, is_nil,
}
use mathlib.Core.List.{Memᴰ}
use mathlib.Core.Path.{subst}
use open_flare.Text.{Bytes, str_eq, is_empty}
use open_flare.Text.Laws.{str_eq_iff}
use open_flare.Config.{
  UpstreamConfig, RootConfig, check_upstreams, check_found, validate, ConfigError, no_upstreams,
  no_default_upstream, upstream_name_required, base_url_required, default_upstream_not_found,
  auth_token_required, read_failed, parse_failed,
}
use open_flare.Config.Laws.{IsListed, IsNamed, IsUsable, validate-IsUsable}

-- What an error says of the configuration.
abbrev pub Explains : RootConfig → ConfigError → Type 0
Explains c no_upstreams = c.upstreams ≡ []
Explains c no_default_upstream = c.routing.default_upstream ≡ []
Explains c upstream_name_required = (u : UpstreamConfig) × Memᴰ u c.upstreams × (u.name ≡ [])
Explains c (base_url_required n) =
    (u : UpstreamConfig) × Memᴰ u c.upstreams × (u.name ≡ n) × (n ≢ []) × (u.base_url ≡ [])
Explains c (default_upstream_not_found d) =
    (d ≡ c.routing.default_upstream) × All (λ u. IsNamed u × (u.name ≢ d)) c.upstreams
Explains c auth_token_required =
    IsListed c.routing.default_upstream c.upstreams
    × (c.admin_api.enabled ≡ true)
    × (c.admin_api.auth_token ≡ [])
Explains c read_failed = ⊥
Explains c parse_failed = ⊥

-- What the loop over the upstreams says.
abbrev LoopExplains : Bytes → Bool → List UpstreamConfig → ConfigError ⊎ Bool → Type 0
LoopExplains d found us (inl upstream_name_required) =
    (u : UpstreamConfig) × Memᴰ u us × (u.name ≡ [])
LoopExplains d found us (inl (base_url_required n)) =
    (u : UpstreamConfig) × Memᴰ u us × (u.name ≡ n) × (n ≢ []) × (u.base_url ≡ [])
LoopExplains d found us (inl _) = ⊥
LoopExplains d found us (inr true) = (found ≡ true) ⊎ IsListed d us
LoopExplains d found us (inr false) = (found ≡ false) × All (λ u. IsNamed u × (u.name ≢ d)) us

LoopExplains-tail :
    (d : Bytes) (found : Bool) (u : UpstreamConfig) (us : List UpstreamConfig)
    → IsNamed u
    → (x : ConfigError ⊎ Bool) → LoopExplains d (if str_eq u.name d then true else found) us x
    → LoopExplains d found (u ∷ us) x
LoopExplains-tail d found u us named (inl upstream_name_required) (v, m, e) = (v, Memᴰ.tail m, e)
LoopExplains-tail d found u us named (inl (base_url_required n)) (v, m, e, f, g) =
    (v, Memᴰ.tail m, e, f, g)
LoopExplains-tail d found u us named (inl no_upstreams) h = absurd h
LoopExplains-tail d found u us named (inl no_default_upstream) h = absurd h
LoopExplains-tail d found u us named (inl (default_upstream_not_found _)) h = absurd h
LoopExplains-tail d found u us named (inl auth_token_required) h = absurd h
LoopExplains-tail d found u us named (inl read_failed) h = absurd h
LoopExplains-tail d found u us named (inl parse_failed) h = absurd h
LoopExplains-tail d found u us named (inr true) (inr (v, m, e)) = inr (v, Memᴰ.tail m, e)
LoopExplains-tail d found u us named (inr true) (inl h) = elim (Bool-cases (str_eq u.name d)) [
  | inl same ↦ inr (u, Memᴰ.head refl, (str_eq_iff _ _).0 same)
  | inr other ↦ inl (ground arith)
]
LoopExplains-tail d found u us named (inr false) (h, all) =
    let other : str_eq u.name d ≡ false = ground arith in
    let still : found ≡ false = ground arith in
    (still, ((named, λ e. ground (arith, str_eq_iff u.name d, e)), all))

is_empty_iff : (s : Bytes) → (is_empty s ≡ true) ↔ (s ≡ [])
is_empty_iff s = ground arith

check_upstreams-LoopExplains :
    (d : Bytes) (found : Bool) (us : List UpstreamConfig)
    → LoopExplains d found us (check_upstreams d found us)
unfolding check_upstreams
check_upstreams-LoopExplains d true [] = inl refl
check_upstreams-LoopExplains d false [] = (refl, tt)
check_upstreams-LoopExplains d found (u ∷ us) =
    let rest = check_upstreams-LoopExplains d (if str_eq u.name d then true else found) us in
    if-split (LoopExplains d found (u ∷ us)) (is_empty u.name) _ _
      (λ p. (u, Memᴰ.head refl, (is_empty_iff u.name).0 p))
      (λ p.
        let named : u.name ≢ [] = λ e. true-ne-false ((is_empty_iff u.name).1 e) p in
        if-split (LoopExplains d found (u ∷ us)) (is_empty u.base_url) _ _
          (λ q. (u, Memᴰ.head refl, refl, named, (is_empty_iff u.base_url).0 q))
          (λ q.
            let based : u.base_url ≢ [] = λ e. true-ne-false ((is_empty_iff u.base_url).1 e) q in
            LoopExplains-tail d found u us (named, based) _ rest))

abbrev Refuses : RootConfig → Option ConfigError → Type 0
Refuses c none = Unit
Refuses c (some e) = Explains c e

check_found-Refuses :
    (c : RootConfig) (x : ConfigError ⊎ Bool)
    → LoopExplains c.routing.default_upstream false c.upstreams x
    → Refuses c (check_found c x)
check_found-Refuses c (inl upstream_name_required) h = h
check_found-Refuses c (inl (base_url_required n)) h = h
check_found-Refuses c (inl no_upstreams) h = absurd h
check_found-Refuses c (inl no_default_upstream) h = absurd h
check_found-Refuses c (inl (default_upstream_not_found _)) h = absurd h
check_found-Refuses c (inl auth_token_required) h = absurd h
check_found-Refuses c (inl read_failed) h = absurd h
check_found-Refuses c (inl parse_failed) h = absurd h
check_found-Refuses c (inr false) (_, all) = (refl, all)
check_found-Refuses c (inr true) (inl h) = absurd (ground arith)
check_found-Refuses c (inr true) (inr listed) =
    if-split (Refuses c) (c.admin_api.enabled && is_empty c.admin_api.auth_token) _ _
      (λ p.
        let (enabled, empty) = &&-eq-true c.admin_api.enabled (is_empty c.admin_api.auth_token) p in
        (listed, enabled, (is_empty_iff c.admin_api.auth_token).0 empty))
      (λ _. tt)

is_nil-eq_nil {ℓ} : {A : Type ℓ} (l : List A) → is_nil l ≡ true → l ≡ []
is_nil-eq_nil [] h = refl
is_nil-eq_nil (x ∷ l) h = absurd (ground arith)

validate-Refuses : (c : RootConfig) → Refuses c (validate c)
unfolding validate
validate-Refuses c =
    if-split (Refuses c) (is_nil c.upstreams) _ _ (λ p. is_nil-eq_nil c.upstreams p)
      (λ _.
        if-split (Refuses c) (is_empty c.routing.default_upstream) _ _
          (λ p. (is_empty_iff c.routing.default_upstream).0 p)
          (λ _.
            check_found-Refuses c _
              (check_upstreams-LoopExplains c.routing.default_upstream false c.upstreams)))

validate-Explains : (c : RootConfig) (e : ConfigError) → validate c ≡ some e → Explains c e
validate-Explains c e h = subst (Refuses c) h (validate-Refuses c)

All-Memᴰ {ℓ κ} : {A : Type ℓ} (P : A → Type κ) (x : A) (l : List A) → All P l → Memᴰ x l → P x
All-Memᴰ P x [] h m = elim m [ ]
All-Memᴰ P x (y ∷ l) (p, h) (Memᴰ.head e) = subst P (sym e) p
All-Memᴰ P x (y ∷ l) (p, h) (Memᴰ.tail m) = All-Memᴰ P x l h m

-- No error is true of a usable configuration.
IsUsable-Explains : (c : RootConfig) (e : ConfigError) → IsUsable c → Explains c e → ⊥
IsUsable-Explains c no_upstreams u h =
    let (v, m, _) = u.default_listed in elim (subst (Memᴰ v) h m) [ ]
IsUsable-Explains c no_default_upstream u h =
    let (v, m, same) = u.default_listed in (All-Memᴰ IsNamed v c.upstreams u.named m).0 (same ∙ h)
IsUsable-Explains c upstream_name_required u (v, m, h) =
    (All-Memᴰ IsNamed v c.upstreams u.named m).0 h
IsUsable-Explains c (base_url_required n) u (v, m, _, _, h) =
    (All-Memᴰ IsNamed v c.upstreams u.named m).1 h
IsUsable-Explains c (default_upstream_not_found d) u (same, all) =
    let (v, m, listed) = u.default_listed in
    (All-Memᴰ (λ x. IsNamed x × (x.name ≢ d)) v c.upstreams all m).1 (listed ∙ sym same)
IsUsable-Explains c auth_token_required u (_, enabled, empty) = u.guarded enabled empty
IsUsable-Explains c read_failed u h = h
IsUsable-Explains c parse_failed u h = h

-- The validation accepts exactly the usable configurations: those where every upstream has a name and
-- a base URL, the default upstream is one of them, and an enabled admin API has a token. An error is
-- true of the configuration: there is no upstream; the name of the default upstream is empty; an
-- upstream has no name; the named upstream has no base URL; every upstream is named and has a base
-- URL, but none is the default upstream; or the default upstream is listed, and the enabled admin API
-- has no token.
pub validate_iff :
    (c : RootConfig)
    → ((validate c ≡ none) ↔ IsUsable c) × ((e : ConfigError) → validate c ≡ some e → Explains c e)
validate_iff c = (
  (
    validate-IsUsable c,
    λ u. elim (Option-cases (validate c)) [
      | inl fine ↦ fine
      | inr (e, refused) ↦ absurd (IsUsable-Explains c e u (validate-Explains c e refused))
    ],
  ),
  validate-Explains c,
)
