-- ===== src/Http.antt =====
-- What the proxy reads of `net/http`: header maps, requests and the status codes it answers with.
pub mod Laws
use open_flare.Prelude.{Bool, List, [], ◌∷◌, ◌++◌, Option, if◌then◌else◌}
use open_flare.Prelude.Int.{ℤ}
use open_flare.Text.{Bytes, equal_fold}

-- A header map has one pair for each canonical name, with its values in order.
abbrev pub Headers : Type 0
Headers = List (Bytes × List Bytes)

-- `Header.Get`: the first value of the name, "" where there is none. Names are canonical in the
-- map and in the call, that is, they are compared without case.
unfoldable pub header_get : Headers → Bytes → Bytes
header_get [] name = []
header_get ((n, []) ∷ h) name = if equal_fold n name then [] else header_get h name
header_get ((n, v ∷ vs) ∷ h) name = if equal_fold n name then v else header_get h name

-- `Header.Set`: the one value of the name.
unfoldable pub header_set : Headers → Bytes → Bytes → Headers
header_set [] name v = (name, v ∷ []) ∷ []
header_set ((n, vs) ∷ h) name v =
    if equal_fold n name then (n, v ∷ []) ∷ h else (n, vs) ∷ header_set h name v

-- `http.Request`; `body` is the unread rest of the stream, `none` for a nil body.
pub record Request : Type 0 where
  pub method : Bytes
  pub path : Bytes
  pub raw_path : Bytes
  pub raw_query : Bytes
  pub host : Bytes
  pub remote_addr : Bytes
  pub headers : Headers
  pub body : Option Bytes
  pub content_length : ℤ
  pub tls : Bool

-- `Header.Add` for each value of a name, behind the values that are there.
abbrev pub add_values : Headers → Bytes → List Bytes → Headers
add_values [] name vs = (name, vs) ∷ []
add_values ((n, ws) ∷ h) name vs =
    if equal_fold n name then (n, ws ++ vs) ∷ h else (n, ws) ∷ add_values h name vs

-- `Header.Add` for all values of another header map.
unfoldable pub header_add_all : Headers → Headers → Headers
header_add_all h [] = h
header_add_all h ((name, vs) ∷ more) = header_add_all (add_values h name vs) more
