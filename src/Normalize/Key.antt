-- ===== src/Normalize/Key.antt =====
-- internal/normalize/normalize.go: the parts of a cache key, as internal/cache/cache.go reads them.
use open_flare.Prelude.{◌≡◌, sym, ◌∙◌, ap, ◌∷◌}
use open_flare.Text.{Bytes, codes, join, to_lower, has_prefix, str_eq}
use open_flare.Text.Parts.{Lacks, split-append, join-split}
use open_flare.Cache.Backend.{split_cache_key, contains_prefix, has_path}
use open_flare.Normalize.{cache_key, key_method, path, query, accept_encoding}

abbrev pub LacksBar : Bytes → Type 0
LacksBar = Lacks b'|'

-- The first four parts of a key hold no bar.
pub record AreBarFree (method host req_path q : Bytes) : Type 0 where
  pub method_part : LacksBar (key_method method)
  pub host_part : LacksBar (to_lower host)
  pub path_part : LacksBar (path req_path)
  pub query_part : LacksBar (query q)

module _ (method host req_path q ae : Bytes) (free : AreBarFree method host req_path q) where
  split_front :
      split_cache_key (cache_key method host req_path q ae)
      ≡ key_method method
        ∷ to_lower host
        ∷ path req_path
        ∷ query q
        ∷ split_cache_key (accept_encoding ae)
  unfolding split_cache_key cache_key
  split_front =
      split-append b'|' (key_method method) _ free.method_part
      ∙ ap (◌∷◌ (key_method method)) (
          split-append b'|' (to_lower host) _ free.host_part
          ∙ ap (◌∷◌ (to_lower host)) (
              split-append b'|' (path req_path) _ free.path_part
              ∙ ap (◌∷◌ (path req_path)) (split-append b'|' (query q) _ free.query_part)))

  -- Where the first four parts of a key hold no bar, the parts of the key read back are the
  -- normalized method, host, path and query, followed by those of the Accept-Encoding; the bulk
  -- deletions of the cache test exactly the normalized path.
  pub cache_key-parts :
      (text : Bytes)
      → (split_cache_key (cache_key method host req_path q ae)
          ≡ key_method method
            ∷ to_lower host
            ∷ path req_path
            ∷ query q
            ∷ split_cache_key (accept_encoding ae))
        × (contains_prefix (cache_key method host req_path q ae) text
            ≡ has_prefix (path req_path) text)
        × (has_path (cache_key method host req_path q ae) text ≡ str_eq (path req_path) text)
  unfolding contains_prefix has_path
  cache_key-parts text =
      (split_front, rw (split_front, contains_prefix), rw (split_front, has_path))

module _ (m h p q ae m' h' p' q' ae' : Bytes) (free : AreBarFree m h p q)
    (free' : AreBarFree m' h' p' q') where
  -- Two keys whose first four parts hold no bar are equal only if these parts are, and the
  -- normalized Accept-Encoding.
  pub cache_key-injective :
      cache_key m h p q ae ≡ cache_key m' h' p' q' ae'
      → (key_method m ≡ key_method m')
        × (to_lower h ≡ to_lower h')
        × (path p ≡ path p')
        × (query q ≡ query q')
        × (accept_encoding ae ≡ accept_encoding ae')
  unfolding split_cache_key
  cache_key-injective e =
      let same =
        sym (split_front m h p q ae free)
        ∙ ap split_cache_key e
        ∙ split_front m' h' p' q' ae' free' in
      let last : split_cache_key (accept_encoding ae) ≡ split_cache_key (accept_encoding ae') =
        cc same in
      let joined =
        sym (join-split b'|' (accept_encoding ae))
        ∙ ap (λ parts. join parts (codes "|")) last
        ∙ join-split b'|' (accept_encoding ae') in
      (cc same, cc same, cc same, cc same, joined)
