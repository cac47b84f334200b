-- ===== src/Prelude/Strings.antt =====
-- What the code asks of a string beside equality.
use Prim.Native.Char.{code}
use Prim.Native.Nat.{ℕ}
use Prim.Native.String.{String}
use mathlib.Core.Bool.{Bool, true, false, ◌&&◌}
use koprs.Prelude.Tests.{◌==◌, if◌then◌else◌, is_empty}

-- `starts_with`.
unfoldable pub starts_with : String → String → Bool
starts_with s String.[] = true
starts_with String.[] (String.◌∷◌ c p) = false
starts_with (String.◌∷◌ d s) (String.◌∷◌ c p) = code d == code c && starts_with s p

-- `trim`, for a test of white space.
module _ (is_space : ℕ → Bool) where
  abbrev pub trim_start : String → String
  trim_start String.[] = String.[]
  trim_start (String.◌∷◌ c s) =
      let rest = trim_start s in if is_space (code c) then rest else String.◌∷◌ c s

  abbrev pub trim_end : String → String
  trim_end String.[] = String.[]
  trim_end (String.◌∷◌ c s) =
      let rest = trim_end s in
      if is_space (code c) && is_empty rest then String.[] else String.◌∷◌ c rest

  abbrev pub trim : String → String
  trim s = trim_end (trim_start s)
