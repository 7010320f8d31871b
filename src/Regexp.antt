-- ===== src/Regexp.antt =====
-- What the proxy takes of the package `regexp`: an engine compiles an expression, which may fail,
-- and tests a text. The engine is a parameter of every part that uses it, and no law of it is needed.
use open_flare.Prelude.{Bool, Option}
use open_flare.Text.{Bytes}

pub record RegexpEngine : Type 1 where
  pub Regex : Type 0
  pub compile : Bytes → Option Regex
  pub match_string : Regex → Bytes → Bool
