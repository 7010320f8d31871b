-- ===== src/Tests/Admin.antt =====
-- Instances of the theorems on the admin API.
use open_flare.Prelude.{◌≡◌, true, false, some, [], ◌∷◌}
use open_flare.Text.{codes, str_eq, has_prefix}
use open_flare.Http.{Request}
use open_flare.Cache.Backend.{delete}
use open_flare.Admin.{Decoder, purge_key, handle_cache_purge_prefix}
use open_flare.Admin.Purges.{IsPurged, purges-ArePurged}
use open_flare.Tests.Samples.{get_request, two_entries, two_entries-IsValid}

-- Every body is read as a purge of the path /a.
abbrev pub decoder : Decoder
decoder = record {
  decode_purge = λ body. some (codes "/a", []);
  decode_prefix = λ body. some (codes "/a");
}

abbrev purge_request : Request
purge_request =
    record (get_request (codes "/admin/cache/purge")
      ((codes "Authorization", codes "bearer s3" ∷ []) ∷ [])) { method = codes "POST" }

purges-ArePurged_example :
    ((delete (codes "/a") two_entries).1 ≡ false
      → has_prefix (codes "/a") (codes "/") ≡ true
      → IsPurged
          (λ path. str_eq path (codes "/a"))
          two_entries
          (purge_key (codes "/a") two_entries).1)
    × (decoder.decode_prefix purge_request.body ≡ some (codes "/a")
        → IsPurged
            (λ path. has_prefix path (codes "/a"))
            two_entries
            (handle_cache_purge_prefix decoder purge_request two_entries).1)
purges-ArePurged_example =
    purges-ArePurged decoder purge_request two_entries (codes "/a") two_entries-IsValid
