-- ===== src/Normalize/Queries.antt =====
-- internal/normalize/normalize.go, Query: the normal form of a query against its settings.
use mathlib.Core.List.{map-append}
use open_flare.Prelude.{
  ◌≡◌, refl, sym, ap, ◌∙◌, List, [], ◌∷◌, ◌++◌, map, Option, none, some, Option-cases, inl, inr,
}
use open_flare.Text.{Bytes, codes, join, sort}
use open_flare.Url.{query_escape, parse_query, Values}
use open_flare.Normalize.{query, trim_question, all_pairs, pairs_of, values_of}
use open_flare.Normalize.Settings.{Setting, settings_of, add_all, values, parse_query-added, added}
use open_flare.Normalize.Gather.{keys, gathered, canonical, values_of-add_all}

-- One setting as `Query` writes it, and all of them.
unfoldable pub encode : Setting → Bytes
unfolding query_escape
encode x = query_escape x.0 ++ codes "=" ++ query_escape x.1

unfoldable pub written : List Setting → Bytes
unfolding join encode
written l = join (map encode l) (codes "&")

pairs_of-encode : (k : Bytes) (vs : List Bytes) → pairs_of k vs ≡ map encode (map (λ v. (k, v)) vs)
unfolding pairs_of encode
pairs_of-encode k [] = refl
pairs_of-encode k (v ∷ vs) = ap (◌∷◌ (encode (k, v))) (pairs_of-encode k vs)

all_pairs-gathered :
    (ks : List Bytes) (l : List Setting) (m : Values)
    → ((k : Bytes) → values_of k m ≡ values k l)
    → all_pairs ks m ≡ map encode (gathered ks l)
unfolding all_pairs gathered
all_pairs-gathered [] l m h = refl
all_pairs-gathered (k ∷ ks) l m h =
    rw (h k, pairs_of-encode k (sort (values k l)), all_pairs-gathered ks l m h)
      (sym (map-append encode (map (λ v. (k, v)) (sort (values k l))) (gathered ks l)))

-- What `Query` makes of the parsed text.
text_of : Bytes → Option Values → Bytes
unfolding sort join all_pairs
text_of t none = t
text_of t (some m) = join (all_pairs (sort (keys m)) m) (codes "&")

query-text_of : (q : Bytes) → query q ≡ text_of (trim_question q) (parse_query (trim_question q))
unfolding query text_of
query-text_of [] = refl
query-text_of (c ∷ q) = elim (Option-cases (parse_query (trim_question (c ∷ q)))) [
  | inl e ↦ rw e refl
  | inr (m, e) ↦ rw e refl
]

query-settings_of : (q : Bytes) → query q ≡ text_of (trim_question q) (added (settings_of q) [])
unfolding settings_of
query-settings_of q =
    query-text_of q ∙ ap (text_of (trim_question q)) (parse_query-added (trim_question q))

pub query_of_settings :
    (q : Bytes) (l : List Setting) → settings_of q ≡ some l → query q ≡ written (canonical l)
unfolding text_of canonical written values_of
query_of_settings q l h =
    query-settings_of q
    ∙ rw h (
        ap (λ ps. join ps (codes "&"))
          (all_pairs-gathered (sort (keys (add_all l []))) l (add_all l [])
            (λ k. values_of-add_all k l [])))

pub query_of_error : (q : Bytes) → settings_of q ≡ none → query q ≡ trim_question q
unfolding text_of
query_of_error q h = query-settings_of q ∙ rw h refl
