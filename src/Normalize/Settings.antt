-- ===== src/Normalize/Settings.antt =====
-- internal/normalize/normalize.go, Query: the settings of a query in their order, and the map that
-- url.ParseQuery makes of them.
use mathlib.Core.List.{filter_map}
use open_flare.Prelude.{
  ◌≡◌, inl, inr, refl, sym, ◌∙◌, false, List, [], ◌∷◌, ◌++◌, Option, none, some, any, arith, ◌==◌,
  if◌then◌else◌, Bool-cases,
}
use open_flare.Text.{Bytes, split, is_empty, str_eq}
use open_flare.Text.Laws.{str_eq_iff}
use open_flare.Url.{
  unescape, query_unescape, cut_pair, add_value, add_pair, parse_setting, parse_settings,
  parse_query, Values,
}
use open_flare.Normalize.{trim_question, values_of}

abbrev pub Setting : Type 0
Setting = Bytes × Bytes

-- Both parts of a setting; `none` where one cannot be unescaped.
abbrev pub both : Option Bytes → Option Bytes → Option Setting
both none v = none
both (some k) none = none
both (some k) (some v) = some (k, v)

unfoldable pub decode_setting : Bytes → Option Setting
unfolding cut_pair unescape
decode_setting s = both (query_unescape (cut_pair s).0) (query_unescape (cut_pair s).1)

abbrev pub cons_setting : Option Setting → Option (List Setting) → Option (List Setting)
cons_setting none l = none
cons_setting (some x) none = none
cons_setting (some x) (some l) = some (x ∷ l)

-- The settings of the parts of a query; `none` where one of them is an error.
unfoldable pub settings : List Bytes → Option (List Setting)
unfolding any decode_setting
settings [] = some []
settings (s ∷ ss) =
    let rest = settings ss in
    if any (λ c. c == b';') s
    then none
    else if is_empty s
    then rest
    else cons_setting (decode_setting s) rest

-- The settings of a query, without the question mark that may be before it.
unfoldable pub settings_of : Bytes → Option (List Setting)
unfolding settings split trim_question
settings_of q = settings (split (trim_question q) b'&')

unfoldable pub add_all : List Setting → Values → Values
unfolding add_value
add_all [] m = m
add_all ((k, v) ∷ l) m = add_all l (add_value k v m)

-- `parse_settings` adds the settings to the map one by one, as far as all can be read.
abbrev pub added : Option (List Setting) → Values → Option Values
added none m = none
added (some l) m = some (add_all l m)

added-cons :
    (x : Setting) (o : Option (List Setting)) (m : Values)
    → added (cons_setting (some x) o) m ≡ added o (add_value x.0 x.1 m)
unfolding add_all
added-cons x none m = refl
added-cons x (some l) m = refl

-- One setting, and the rest of the parts.
parse-pair :
    (k v : Option Bytes) (o : Option (List Setting)) (m : Values) (rest : Values → Option Values)
    → ((m' : Values) → rest m' ≡ added o m')
    → elim (add_pair k v m) [ none ↦ none | some m' ↦ rest m' ]
      ≡ added (cons_setting (both k v) o) m
parse-pair none v o m rest h = refl
parse-pair (some k) none o m rest h = refl
parse-pair (some k) (some v) o m rest h = h (add_value k v m) ∙ sym (added-cons (k, v) o m)

parse_settings-added : (ss : List Bytes) (m : Values) → parse_settings ss m ≡ added (settings ss) m
unfolding parse_settings parse_setting settings decode_setting add_all
parse_settings-added [] m = refl
parse_settings-added (s ∷ ss) m = elim (Bool-cases (any (λ c. c == b';') s)) [
  | inl bad ↦ rw (parse_settings, bad) refl
  | inr good ↦ elim (Bool-cases (is_empty s)) [
    | inl e ↦ rw (parse_settings, good, e) (parse_settings-added ss m)
    | inr e ↦
        rw (parse_settings, good, e)
          (parse-pair (query_unescape (cut_pair s).0) (query_unescape (cut_pair s).1) (settings ss)
            m (parse_settings ss) (parse_settings-added ss))
  ]
]

pub parse_query-added : (q : Bytes) → parse_query q ≡ added (settings (split q b'&')) []
unfolding parse_query
parse_query-added q = parse_settings-added (split q b'&') []

-- What a map holds under a key.
unfoldable pub holding : Bytes → Setting → Option Bytes
unfolding str_eq
holding k x = if str_eq x.0 k then some x.1 else none

-- The values of a key, in their order.
unfoldable pub values : Bytes → List Setting → List Bytes
unfolding filter_map holding
values k l = filter_map (holding k) l

pub values-cons :
    (k : Bytes) (x : Setting) (l : List Setting)
    → values k (x ∷ l) ≡ (if str_eq x.0 k then x.1 ∷ values k l else values k l)
unfolding values holding
values-cons k x l = elim (Bool-cases (str_eq x.0 k)) [ inl h ↦ rw h refl | inr h ↦ rw h refl ]

pub values_of-add_value :
    (k j v : Bytes) (m : Values)
    → values_of k (add_value j v m)
      ≡ (if str_eq j k then values_of k m ++ v ∷ [] else values_of k m)
unfolding values_of add_value
values_of-add_value k j v [] = refl
values_of-add_value k j v ((i, vs) ∷ m) = elim (Bool-cases (str_eq i j)) [
  | inl h ↦
      let same : i ≡ j = (str_eq_iff i j).0 h in
      rw (h, sym same) (elim (Bool-cases (str_eq i k)) [ inl e ↦ rw e refl | inr e ↦ rw e refl ])
  | inr h ↦ rw h (elim (Bool-cases (str_eq i k)) [
    | inl e ↦
        let apart : str_eq j k ≡ false =
          ground (arith, str_eq_iff i j, str_eq_iff j k, str_eq_iff i k) in
        rw (e, apart) refl
    | inr e ↦ rw e (values_of-add_value k j v m)
  ])
]
