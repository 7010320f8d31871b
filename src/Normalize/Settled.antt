-- ===== src/Normalize/Settled.antt =====
-- internal/normalize/normalize.go, Query: which queries have one normal form, and what it is read
-- back to.
use mathlib.Core.List.{Perm}
use mathlib.Core.List.Perm
use mathlib.Core.HLevel.{×_prop}
use native.Mathlib.Bridge.{le_prop}
use open_flare.Prelude.{◌≡◌, ◌↔◌, sym, ap, ◌∙◌, List, some, ◌<◌, All, All_prop, All_of_perm}
use open_flare.Text.{Bytes}
use open_flare.Url.Escapes.{AreBytes}
use open_flare.Normalize.{query}
use open_flare.Normalize.Settings.{Setting, settings_of}
use open_flare.Normalize.Gather.{canonical, canonical-perm, canonical_of_perm}
use open_flare.Normalize.Queries.{written, query_of_settings}
use open_flare.Normalize.RoundTrips.{
  IsByteSetting, settings_of-written, settings_of-AreBytes, written-LacksBar,
}
use open_flare.Text.Parts.{Lacks}

IsByteSetting-prop : (x : Setting) → IsProp (IsByteSetting x)
IsByteSetting-prop x =
    ×_prop (All_prop (λ c. c < 256) (λ c. le_prop) x.0) (All_prop (λ c. c < 256) (λ c. le_prop) x.1)

-- A query of bytes and its settings.
module _ (q : Bytes) (l : List Setting) (bytes : AreBytes q) (e : settings_of q ≡ some l) where
  canonical-ByteSettings : All IsByteSetting (canonical l)
  canonical-ByteSettings =
      All_of_perm IsByteSetting IsByteSetting-prop l (canonical l) (Perm.symm (canonical-perm l))
        (settings_of-AreBytes q l bytes e)

  -- The normal form of such a query holds no bar.
  pub query-LacksBar : Lacks b'|' (query q)
  query-LacksBar =
      rw (query_of_settings q l e) (written-LacksBar (canonical l) canonical-ByteSettings)

  settings_of-query : settings_of (query q) ≡ some (canonical l)
  settings_of-query =
      ap settings_of (query_of_settings q l e)
      ∙ settings_of-written (canonical l) canonical-ByteSettings

module _ (q r : Bytes) (l k : List Setting) (q_bytes : AreBytes q) (r_bytes : AreBytes r)
    (q_read : settings_of q ≡ some l) (r_read : settings_of r ≡ some k) where
  perm_of_query : query q ≡ query r → Perm l k
  perm_of_query e =
      let same : some (canonical l) ≡ some (canonical k) =
        sym (settings_of-query q l q_bytes q_read)
        ∙ ap settings_of e
        ∙ settings_of-query r k r_bytes r_read in
      let forms : canonical l ≡ canonical k = cc same in
      Perm.trans (Perm.symm (canonical-perm l)) (rw forms (canonical-perm k))

  -- Two queries of bytes that can be read have one normal form exactly if their settings are
  -- rearrangements of each other.
  pub query_iff : (query q ≡ query r) ↔ Perm l k
  query_iff = (
    perm_of_query,
    λ p.
        query_of_settings q l q_read
        ∙ ap written (canonical_of_perm l k p)
        ∙ sym (query_of_settings r k r_read),
  )
