-- ===== src/Tests/Queries.antt =====
-- Runs of the normal form of queries and of the cache key, and instances of their theorems.
use open_flare.Prelude.{◌≡◌, refl, Bool, true, List, [], ◌∷◌, none, ltb, ◌&&◌}
use open_flare.Text.{Bytes, codes}
use open_flare.Normalize.{query}
use open_flare.Normalize.Settings.{Setting, settings_of}

abbrev are_bytes : Bytes → Bool
are_bytes [] = true
are_bytes (c ∷ s) = ltb c 256 && are_bytes s

abbrev one : Bytes
one = codes "?b=%32&a=1+1"

abbrev two : Bytes
two = codes "a=1%201&&b=2"

abbrev settings_one : List Setting
settings_one = (codes "b", codes "2") ∷ (codes "a", codes "1 1") ∷ []

abbrev settings_two : List Setting
settings_two = (codes "a", codes "1 1") ∷ (codes "b", codes "2") ∷ []

-- An error in one setting; the normal form of a text that cannot be read may be read differently.
unreadable :
    (settings_of (codes "a=%zz") ≡ none)
    × (query (codes "??%") ≡ codes "?%")
    × (query (query (codes "??%")) ≡ codes "%")
unfolding settings_of query
unreadable = (refl, refl, refl)
