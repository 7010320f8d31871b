-- ===== src/Normalize/RoundTrips.antt =====
-- internal/normalize/normalize.go, Query: the text that is written for settings is read back to them.
use mathlib.Core.List.{append_assoc}
use open_flare.Prelude.{
  ◌≡◌, ◌≢◌, refl, ap, ◌∙◌, true, false, List, [], ◌∷◌, ◌++◌, map, Option, Bool, ℕ, none, some, any,
  arith, ◌==◌, if◌then◌else◌, All, All-append, All-map, Option-cases, inl, inr, length, ◌+◌, subst,
  All-take, All-drop, if-split,
}
use open_flare.Text.{Bytes, codes, split, is_empty, index_where}
use open_flare.Text.Parts.{
  split-join, join-All, split-All, index_where-append, take-length-append, drop-length-append,
  Lacks,
}
use open_flare.Url.{query_escape, cut_pair}
use open_flare.Url.Escapes.{
  AreBytes, IsInert, unescape-query_escape, query_escape-IsInert, unescape-AreBytes,
}
use open_flare.Normalize.{trim_question}
use open_flare.Normalize.Settings.{
  Setting, settings, settings_of, decode_setting, cons_setting, both,
}
use open_flare.Normalize.Queries.{encode, written}

abbrev pub IsByteSetting : Setting → Type 0
IsByteSetting x = AreBytes x.0 × AreBytes x.1

-- A byte that can stand in a setting as it is written.
abbrev IsMild : ℕ → Type 0
IsMild c = (c ≢ b'&') × (c ≢ b';') × (c ≢ b'?') × (c ≢ b'|')

IsMild-of_IsInert : (c : ℕ) → IsInert c → IsMild c
IsMild-of_IsInert c (a, e, s, q, b) = (a, s, q, b)

encode-split : (x : Setting) → encode x ≡ query_escape x.0 ++ b'=' ∷ query_escape x.1
unfolding encode
encode-split x = append_assoc (query_escape x.0) (codes "=") (query_escape x.1)

module _ (x : Setting) (h : IsByteSetting x) where
  encode-IsMild : All IsMild (encode x)
  encode-IsMild = rw (encode-split x) (
      All-append IsMild (query_escape x.0) (b'=' ∷ query_escape x.1)
        (All-map IsMild-of_IsInert (query_escape x.0) (query_escape-IsInert x.0 h.0))
        (ground arith, All-map IsMild-of_IsInert (query_escape x.1) (query_escape-IsInert x.1 h.1)))

  cut_pair-encode : cut_pair (encode x) ≡ (query_escape x.0, query_escape x.1)
  unfolding cut_pair
  cut_pair-encode =
      let test : ℕ → Bool = λ c. c == b'=' in
      let k = query_escape x.0 in
      let at : index_where test (k ++ b'=' ∷ query_escape x.1) ≡ some (length k) =
        index_where-append test k b'=' (query_escape x.1)
          (All-map (λ c n. ground (arith, n)) k (query_escape-IsInert x.0 h.0)) refl in
      rw
        (
          encode-split x,
          cut_pair,
          at,
          encode-split x,
          take-length-append k (b'=' ∷ query_escape x.1),
          drop-length-append k b'=' (query_escape x.1),
        )
        refl

  decode_setting-encode : decode_setting (encode x) ≡ some x
  unfolding decode_setting
  decode_setting-encode =
      rw (cut_pair-encode, unescape-query_escape x.0 h.0, unescape-query_escape x.1 h.1) refl

any-false : (p : ℕ → Bool) (s : Bytes) → All (λ c. p c ≡ false) s → any p s ≡ false
unfolding any
any-false p [] h = refl
any-false p (c ∷ s) (e, h) = rw e (any-false p s h)

encode-nonempty : (x : Setting) → is_empty (encode x) ≡ false
encode-nonempty x = rw (encode-split x) (behind (query_escape x.0))
  where
    behind : (k : Bytes) → is_empty (k ++ b'=' ∷ query_escape x.1) ≡ false
    behind [] = refl
    behind (c ∷ k) = refl

settings-encode : (l : List Setting) → All IsByteSetting l → settings (map encode l) ≡ some l
unfolding settings
settings-encode [] h = refl
settings-encode (x ∷ l) (b, h) =
    let mild =
      any-false (λ c. c == b';') (encode x)
        (All-map (λ c n. ground (arith, n)) (encode x) (encode-IsMild x b)) in
    rw (mild, encode-nonempty x, decode_setting-encode x b, settings-encode l h) refl

encode-All : (l : List Setting) → All IsByteSetting l → All (All IsMild) (map encode l)
encode-All [] h = tt
encode-All (x ∷ l) (b, h) = (encode-IsMild x b, encode-All l h)

trim_question-mild : (s : Bytes) → All (λ c. c ≢ b'?') s → trim_question s ≡ s
unfolding trim_question
trim_question-mild [] h = refl
trim_question-mild (c ∷ s) (n, h) = ground (arith, n)

written-LacksQuestion : (l : List Setting) → All IsByteSetting l → All (λ c. c ≢ b'?') (written l)
unfolding written
written-LacksQuestion l h =
    join-All (λ c. c ≢ b'?') b'&' (map encode l) (ground arith)
      (All-map (λ s. All-map (λ c n. n.2) s) (map encode l) (encode-All l h))

-- The settings of a written text are those it was written for.
pub settings_of-written :
    (l : List Setting) → All IsByteSetting l → settings_of (written l) ≡ some l
unfolding settings_of written
settings_of-written l h =
    ap (λ t. settings (split t b'&')) (trim_question-mild (written l) (written-LacksQuestion l h))
    ∙ parts l h
  where
    parts :
        (xs : List Setting) → All IsByteSetting xs → settings (split (written xs) b'&') ≡ some xs
    parts [] hs = refl
    parts (x ∷ xs) (b, hs) =
        let alls =
          All-map (λ s. All-map (λ c n. n.0) s) (map encode (x ∷ xs))
            (encode-All (x ∷ xs) (b, hs)) in
        ap settings (split-join b'&' (encode x) (map encode xs) alls.0 alls.1)
        ∙ settings-encode (x ∷ xs) (b, hs)

abbrev GivesSetting : Option Setting → Type 0
GivesSetting none = Unit
GivesSetting (some x) = IsByteSetting x

abbrev GivesSettings : Option (List Setting) → Type 0
GivesSettings none = Unit
GivesSettings (some l) = All IsByteSetting l

cut_pair-AreBytes : (s : Bytes) → AreBytes s → IsByteSetting (cut_pair s)
unfolding cut_pair
cut_pair-AreBytes s h = elim (Option-cases (index_where (λ c. c == b'=') s)) [
  | inl e ↦ rw (cut_pair, e) (h, tt)
  | inr (i, e) ↦ rw (cut_pair, e) (All-take _ i s h, All-drop _ (i + 1) s h)
]

both-GivesSetting :
    (k v : Option Bytes)
    → ((d : Bytes) → k ≡ some d → AreBytes d)
    → ((d : Bytes) → v ≡ some d → AreBytes d)
    → GivesSetting (both k v)
both-GivesSetting none v h j = tt
both-GivesSetting (some k) none h j = tt
both-GivesSetting (some k) (some v) h j = (h k refl, j v refl)

cons_setting-GivesSettings :
    (x : Option Setting) (l : Option (List Setting))
    → GivesSetting x
    → GivesSettings l
    → GivesSettings (cons_setting x l)
cons_setting-GivesSettings none l h k = tt
cons_setting-GivesSettings (some x) none h k = tt
cons_setting-GivesSettings (some x) (some l) h k = (h, k)

settings-GivesSettings : (ps : List Bytes) → All AreBytes ps → GivesSettings (settings ps)
unfolding settings decode_setting
settings-GivesSettings [] h = tt
settings-GivesSettings (p ∷ ps) (b, h) =
    let rest = settings-GivesSettings ps h in
    let pair = cut_pair-AreBytes p b in
    if-split GivesSettings (any (λ c. c == b';') p) none
      (if is_empty p then settings ps else cons_setting (decode_setting p) (settings ps)) (λ _. tt)
      (λ _.
        if-split GivesSettings (is_empty p) (settings ps)
          (cons_setting (decode_setting p) (settings ps)) (λ _. rest)
          (λ _.
            cons_setting-GivesSettings (decode_setting p) (settings ps)
              (both-GivesSetting _ _ (λ d. unescape-AreBytes true (cut_pair p).0 d pair.0)
                (λ d. unescape-AreBytes true (cut_pair p).1 d pair.1))
              rest))

trim_question-AreBytes : (q : Bytes) → AreBytes q → AreBytes (trim_question q)
unfolding trim_question
trim_question-AreBytes [] h = tt
trim_question-AreBytes (c ∷ q) (p, h) =
    if-split AreBytes (c == b'?') q (c ∷ q) (λ _. h) (λ _. (p, h))

-- The settings of a string of bytes are strings of bytes.
pub settings_of-AreBytes :
    (q : Bytes) (l : List Setting) → AreBytes q → settings_of q ≡ some l → All IsByteSetting l
unfolding settings_of
settings_of-AreBytes q l h e = subst GivesSettings e (
    settings-GivesSettings (split (trim_question q) b'&')
      (split-All _ b'&' (trim_question q) (trim_question-AreBytes q h)))

pub written-LacksBar : (l : List Setting) → All IsByteSetting l → Lacks b'|' (written l)
unfolding written
written-LacksBar l h =
    join-All (λ c. c ≢ b'|') b'&' (map encode l) (ground arith)
      (All-map (λ s. All-map (λ c n. n.3) s) (map encode l) (encode-All l h))
