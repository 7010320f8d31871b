-- ===== src/Normalize/Paths.antt =====
-- internal/normalize/normalize.go: the shape of a normalized path.
use mathlib.Core.List.{reverse}
use open_flare.Prelude.{
  ◌≡◌, ◌≢◌, ◌⊎◌, inl, inr, refl, ◌∙◌, ap, true, false, List, [], ◌∷◌, ◌++◌, arith, All, All-reverse,
  Bool-cases, if◌then◌else◌,
}
use open_flare.Text.{Bytes, codes, split, join, has_prefix, is_empty}
use open_flare.Text.Parts.{Lacks, split-Lacks}
use open_flare.Text.Laws.{str_eq_iff, has_prefix_iff}
use open_flare.Url.{clean, resolve, resolve_all, climb}
use open_flare.Normalize.{path, with_slashes, decode_path}

abbrev LacksSlash : Bytes → Type 0
LacksSlash = Lacks b'/'

-- A path element that is neither empty nor a dot element, and holds no slash.
abbrev pub IsPlain : Bytes → Type 0
IsPlain s = (s ≢ []) × (s ≢ codes ".") × (s ≢ codes "..") × LacksSlash s

-- A rooted path resolves to plain elements: its stack never holds a parent element.
resolve-IsPlain :
    (stack : List Bytes) (part : Bytes)
    → All IsPlain stack
    → LacksSlash part
    → All IsPlain (resolve true stack part)
unfolding resolve climb
resolve-IsPlain [] part h k =
    ground (arith, str_eq_iff part (codes "."), str_eq_iff part (codes ".."))
resolve-IsPlain (top ∷ stack) part h k =
    ground (
      arith,
      str_eq_iff part (codes "."),
      str_eq_iff part (codes ".."),
      str_eq_iff top (codes ".."),
    )

resolve_all-IsPlain :
    (stack parts : List Bytes)
    → All IsPlain stack
    → All LacksSlash parts
    → All IsPlain (resolve_all true stack parts)
unfolding resolve_all
resolve_all-IsPlain stack [] h k = h
resolve_all-IsPlain stack (part ∷ parts) h (p, k) =
    resolve_all-IsPlain (resolve true stack part) parts (resolve-IsPlain stack part h p) k

-- A slash before plain elements that are joined by slashes, and perhaps a slash behind them.
pub record IsNormal (s : Bytes) : Type 0 where
  pub parts : List Bytes
  pub plain : All IsPlain parts
  pub shape :
      (s ≡ b'/' ∷ join parts (codes "/"))
      ⊎ ((s ≡ (b'/' ∷ join parts (codes "/")) ++ codes "/") × (parts ≢ []))

clean-rooted :
    (s : Bytes)
    → clean (b'/' ∷ s)
      ≡ b'/' ∷ join (reverse (resolve_all true [] (split (b'/' ∷ s) b'/'))) (codes "/")
unfolding clean
clean-rooted s = refl

slash_first : (out : Bytes) → has_prefix (b'/' ∷ out) (codes "/") ≡ true
unfolding has_prefix
slash_first out = refl

with_slashes-shape :
    (p out : Bytes)
    → (with_slashes p (b'/' ∷ out) ≡ b'/' ∷ out)
      ⊎ ((with_slashes p (b'/' ∷ out) ≡ (b'/' ∷ out) ++ codes "/") × (out ≢ []))
unfolding with_slashes
with_slashes-shape p [] = ground (arith, slash_first [], str_eq_iff (b'/' ∷ []) (codes "/"))
with_slashes-shape p (c ∷ out) =
    ground (arith, slash_first (c ∷ out), str_eq_iff (b'/' ∷ c ∷ out) (codes "/"))

-- The elements of a rooted path after cleaning.
abbrev elements : Bytes → List Bytes
elements s = reverse (resolve_all true [] (split (b'/' ∷ s) b'/'))

elements-IsPlain : (s : Bytes) → All IsPlain (elements s)
elements-IsPlain s =
    All-reverse IsPlain (resolve_all true [] (split (b'/' ∷ s) b'/'))
      (resolve_all-IsPlain [] (split (b'/' ∷ s) b'/') tt (split-Lacks b'/' (b'/' ∷ s)))

shape-IsNormal :
    (s r : Bytes)
    → (s ≡ b'/' ∷ join (elements r) (codes "/"))
      ⊎ ((s ≡ (b'/' ∷ join (elements r) (codes "/")) ++ codes "/")
          × (join (elements r) (codes "/") ≢ []))
    → IsNormal s
unfolding join
shape-IsNormal s r (inl e) = record {
  parts = elements r;
  plain = elements-IsPlain r;
  shape = inl e;
}
shape-IsNormal s r (inr (e, ne)) = record {
  parts = elements r;
  plain = elements-IsPlain r;
  shape = inr (e, λ none_left. ne (ap (λ ps. join ps (codes "/")) none_left));
}

path_of_nonempty :
    (p : Bytes) → is_empty p ≡ false → path p ≡ with_slashes p (clean (decode_path p))
unfolding path
path_of_nonempty p h = rw h

decode_path-nil : decode_path [] ≡ []
unfolding decode_path
decode_path-nil = refl

-- A path whose decoded form begins with a slash is normalized to a slash before plain elements that
-- are joined by slashes, and perhaps one slash behind them. A plain element is not empty, no dot
-- element and holds no slash, so the normal form has no way up.
pub path-IsNormal : (p r : Bytes) → decode_path p ≡ b'/' ∷ r → IsNormal (path p)
path-IsNormal [] r h = absurd (ground (arith, decode_path-nil))
path-IsNormal (c ∷ p) r h =
    let whole : path (c ∷ p) ≡ with_slashes (c ∷ p) (b'/' ∷ join (elements r) (codes "/")) =
      path_of_nonempty (c ∷ p) refl
      ∙ ap (λ d. with_slashes (c ∷ p) (clean d)) h
      ∙ ap (with_slashes (c ∷ p)) (clean-rooted r) in
    rw whole (shape-IsNormal _ r (with_slashes-shape (c ∷ p) (join (elements r) (codes "/"))))

abbrev IsRooted : Bytes → Type 0
IsRooted s = (r : Bytes) × (s ≡ b'/' ∷ r)

with_slashes-cases :
    (p s x : Bytes)
    → (if has_prefix s (codes "/") then s else b'/' ∷ s) ≡ x
    → (with_slashes p s ≡ x) ⊎ (with_slashes p s ≡ x ++ codes "/")
unfolding with_slashes
with_slashes-cases p s x e = ground arith

IsRooted-of_cases : (s x r : Bytes) → x ≡ b'/' ∷ r → (s ≡ x) ⊎ (s ≡ x ++ codes "/") → IsRooted s
IsRooted-of_cases s x r e (inl h) = (r, h ∙ e)
IsRooted-of_cases s x r e (inr h) = (r ++ codes "/", h ∙ ap (λ y. y ++ codes "/") e)

with_slashes-IsRooted : (p s : Bytes) → IsRooted (with_slashes p s)
with_slashes-IsRooted p s = elim (Bool-cases (has_prefix s (codes "/"))) [
  | inl h ↦
      let (r, e) = (has_prefix_iff s (codes "/")).0 h in
      IsRooted-of_cases _ s r e (with_slashes-cases p s s (rw h))
  | inr h ↦ IsRooted-of_cases _ (b'/' ∷ s) s refl (with_slashes-cases p s (b'/' ∷ s) (rw h))
]

-- Every normalized path begins with a slash, whatever the input.
path-IsRooted : (p : Bytes) → (r : Bytes) × (path p ≡ b'/' ∷ r)
unfolding path
path-IsRooted [] = ([], refl)
path-IsRooted (c ∷ p) = with_slashes-IsRooted (c ∷ p) (clean (decode_path (c ∷ p)))
