-- ===== src/Tests/Normalize.antt =====
-- Runs of the normalization, and instances of its theorems.
use open_flare.Prelude.{◌≡◌, refl, [], ◌∷◌, arith, ◌==◌, Bool, true, not, ◌&&◌}
use open_flare.Text.{Bytes, codes, str_eq, to_lower, has_prefix, has_suffix}
use open_flare.Url.{clean}
use open_flare.Cache.Backend.{split_cache_key, contains_prefix, has_path}
use open_flare.Normalize.{
  path, query, accept_encoding, cache_key, key_method, decode_path, with_slashes,
}
use open_flare.Normalize.Key.{LacksBar, AreBarFree, cache_key-parts}
use open_flare.Normalize.Paths.{IsNormal, path-IsNormal}

normalized :
    (path (codes "/foo/%2e%2e/bar") ≡ codes "/bar")
    × (path (codes "/static/app%2Ev1.js") ≡ codes "/static/app.v1.js")
    × (path (codes "/foo/bar/") ≡ codes "/foo/bar/")
    × (path (codes "foo//bar/.") ≡ codes "/foo/bar")
    × (path (codes "../x") ≡ codes "/../x")
    × (query (codes "?c=3&a=2&a=1") ≡ codes "a=1&a=2&c=3")
    × (accept_encoding (codes "gzip;q=1, br") ≡ codes "br,gzip")
    × (cache_key (codes "HEAD") (codes "Ex.com") (codes "/a") (codes "b") []
        ≡ codes "GET|ex.com|/a|b=|identity")
unfolding cache_key key_method to_lower path query accept_encoding decode_path clean with_slashes
    has_prefix has_suffix str_eq
normalized = (refl, refl, refl, refl, refl, refl, refl, refl)

-- The path is decoded each time that it is normalized: one that net/http has decoded to `/%2541` is
-- `/%41` for the firewall and the origin, and has the key of `/A`.
decoded_again :
    (path (codes "/%2541") ≡ codes "/%41")
    × (cache_key (codes "GET") (codes "h") (path (codes "/%2541")) [] []
        ≡ cache_key (codes "GET") (codes "h") (codes "/A") [] [])
unfolding cache_key key_method to_lower path query accept_encoding decode_path clean with_slashes
    has_prefix has_suffix str_eq
decoded_again = (refl, refl)

-- A bar in a path can move the parts: these two requests have one key.
pub bar_collision :
    cache_key (codes "GET") (codes "h") (codes "/a%7Cb%3D") [] (codes "gzip")
    ≡ cache_key (codes "GET") (codes "h") (codes "/a") (codes "b") (codes "|gzip")
unfolding cache_key key_method to_lower path query accept_encoding decode_path clean with_slashes
    has_prefix has_suffix str_eq
bar_collision = refl

path-IsNormal_example : IsNormal (path (codes "/a/%2e%2e/b"))
unfolding decode_path
path-IsNormal_example = path-IsNormal (codes "/a/%2e%2e/b") (codes "a/../b") refl

unfoldable pub lacks_bar : Bytes → Bool
lacks_bar [] = true
lacks_bar (c ∷ s) = not (c == b'|') && lacks_bar s

pub lacks_bar-LacksBar : (s : Bytes) → lacks_bar s ≡ true → LacksBar s
unfolding lacks_bar
lacks_bar-LacksBar [] h = tt
lacks_bar-LacksBar (c ∷ s) h = (ground arith, lacks_bar-LacksBar s (ground arith))

free : AreBarFree (codes "head") (codes "Ex.com") (codes "/a/%2e/b") (codes "c=1")
unfolding lacks_bar key_method to_lower path query decode_path clean with_slashes has_prefix
    has_suffix str_eq
free = record {
  method_part = lacks_bar-LacksBar (key_method (codes "head")) refl;
  host_part = lacks_bar-LacksBar (to_lower (codes "Ex.com")) refl;
  path_part = lacks_bar-LacksBar (path (codes "/a/%2e/b")) refl;
  query_part = lacks_bar-LacksBar (query (codes "c=1")) refl;
}

cache_key-parts_example :
    (split_cache_key
        (cache_key (codes "head") (codes "Ex.com") (codes "/a/%2e/b") (codes "c=1") (codes "br"))
      ≡ key_method (codes "head")
        ∷ to_lower (codes "Ex.com")
        ∷ path (codes "/a/%2e/b")
        ∷ query (codes "c=1")
        ∷ split_cache_key (accept_encoding (codes "br")))
    × (contains_prefix
          (cache_key (codes "head") (codes "Ex.com") (codes "/a/%2e/b") (codes "c=1") (codes "br"))
          (codes "/a")
        ≡ has_prefix (path (codes "/a/%2e/b")) (codes "/a"))
    × (has_path
          (cache_key (codes "head") (codes "Ex.com") (codes "/a/%2e/b") (codes "c=1") (codes "br"))
          (codes "/a")
        ≡ str_eq (path (codes "/a/%2e/b")) (codes "/a"))
cache_key-parts_example =
    cache_key-parts (codes "head") (codes "Ex.com") (codes "/a/%2e/b") (codes "c=1") (codes "br")
      free (codes "/a")
