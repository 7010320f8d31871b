-- ===== src/Normalize/Agreement.antt =====
-- internal/normalize/normalize.go, CacheKey: which requests share a cache key.
use open_flare.Prelude.{◌≡◌, List, some}
use open_flare.Text.{Bytes, to_lower}
use open_flare.Url.Escapes.{AreBytes}
use open_flare.Normalize.{key_method, path}
use open_flare.Normalize.Key.{LacksBar}
use open_flare.Normalize.Settings.{Setting, settings_of}

-- The query is a string of bytes that can be read, and the parts before it in the key hold no bar.
pub record IsReadable (method host req_path q : Bytes) (l : List Setting) : Type 0 where
  pub method_part : LacksBar (key_method method)
  pub host_part : LacksBar (to_lower host)
  pub path_part : LacksBar (path req_path)
  pub bytes : AreBytes q
  pub read : settings_of q ≡ some l
