-- ===== src/Prelude/Text.antt =====
-- The text functions of JavaScript that the code uses, by the characters of a text. `to_lower` maps
-- A to Z; the other characters that JavaScript lowers give no ASCII letter but U+212A and U+0130
-- ("k", and "i" with a combining dot), which occur in none of the texts that are looked for here.
use Prim.Native.Nat.{ℕ, ◌+◌}
use Prim.Native.Char.{code}
use Prim.Native.String.{String}
use mathlib.Core.Bool.{Bool, true, false, ◌&&◌, ◌||◌}
use mathlib.Core.List.{List, [], ◌∷◌}
use repomap_core.Prelude.Tests.{leb, ◌==◌, if◌then◌else◌}

abbrev pub codes : String → List ℕ
codes String.[] = []
codes (String.◌∷◌ c s) = code c ∷ codes s

unfoldable pub to_lower : List ℕ → List ℕ
to_lower [] = []
to_lower (c ∷ cs) = (if leb 65 c && leb c 90 then c + 32 else c) ∷ to_lower cs

unfoldable pub starts_with : List ℕ → List ℕ → Bool
starts_with text [] = true
starts_with [] (p ∷ ps) = false
starts_with (c ∷ cs) (p ∷ ps) = let rest = starts_with cs ps in c == p && rest

unfoldable pub includes : List ℕ → List ℕ → Bool
unfolding starts_with
includes [] part = starts_with [] part
includes (c ∷ cs) part = let rest = includes cs part in starts_with (c ∷ cs) part || rest
