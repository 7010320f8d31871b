-- ===== src/Http/Laws.antt =====
-- Header maps: reading what was set or added.
use open_flare.Prelude.{◌≡◌, ◌≢◌, refl, sym, ◌∙◌, List, [], ◌∷◌, arith, if◌then◌else◌}
use open_flare.Text.{Bytes, equal_fold, to_lower}
use open_flare.Text.Laws.{str_eq_iff}
use open_flare.Http.{Headers, header_get, header_set, header_add_all, add_values}

pub header_get-header_set :
    (h : Headers) (name other v : Bytes)
    → header_get (header_set h name v) other
      ≡ (if equal_fold name other then v else header_get h other)
unfolding header_get header_set equal_fold
header_get-header_set [] name other v = refl
header_get-header_set ((n, []) ∷ h) name other v = ground (
  arith,
  header_get-header_set h name other v,
  str_eq_iff (to_lower n) (to_lower name),
  str_eq_iff (to_lower name) (to_lower other),
  str_eq_iff (to_lower n) (to_lower other),
)
header_get-header_set ((n, x ∷ xs) ∷ h) name other v = ground (
  arith,
  header_get-header_set h name other v,
  str_eq_iff (to_lower n) (to_lower name),
  str_eq_iff (to_lower name) (to_lower other),
  str_eq_iff (to_lower n) (to_lower other),
)

header_get-add_values :
    (h : Headers) (name n : Bytes) (vs : List Bytes)
    → header_get h name ≢ []
    → header_get (add_values h n vs) name ≡ header_get h name
unfolding header_get equal_fold
header_get-add_values [] name n vs held = absurd (held refl)
header_get-add_values ((m, []) ∷ h) name n vs held = ground (
  arith,
  header_get-add_values h name n vs,
  str_eq_iff (to_lower m) (to_lower n),
  str_eq_iff (to_lower m) (to_lower name),
  str_eq_iff (to_lower n) (to_lower name),
)
header_get-add_values ((m, x ∷ xs) ∷ h) name n vs held = ground (
  arith,
  header_get-add_values h name n vs,
  str_eq_iff (to_lower m) (to_lower n),
  str_eq_iff (to_lower m) (to_lower name),
  str_eq_iff (to_lower n) (to_lower name),
)

-- What is added stands behind what is there.
pub header_get-header_add_all :
    (h more : Headers) (name : Bytes)
    → header_get h name ≢ []
    → header_get (header_add_all h more) name ≡ header_get h name
unfolding header_add_all
header_get-header_add_all h [] name held = refl
header_get-header_add_all h ((n, vs) ∷ more) name held =
    let first = header_get-add_values h name n vs held in
    header_get-header_add_all (add_values h n vs) more name (λ e. held (sym first ∙ e)) ∙ first
