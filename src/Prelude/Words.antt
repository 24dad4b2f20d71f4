-- ===== src/Prelude/Words.antt =====
-- Text functions of JavaScript on native strings, character by character.
use Prim.Native.Nat.{ℕ, zero, suc, ◌-◌}
use Prim.Native.Char.{Char, code}
use Prim.Native.String
use Prim.Native.String.{String}
use mathlib.Core.Bool.{Bool, ◌||◌, ◌&&◌}
use mathlib.Core.Option.{Option, none, some}
use mathlib.Core.List.{List, [], ◌∷◌}
use repomap_core.Prelude.Tests.{leb, ◌==◌, if◌then◌else◌, is_some}

-- the rest of the text after the prefix, where it starts with it
abbrev pub strip_prefix : String → String → Option String
strip_prefix text String.[] = some text
strip_prefix String.[] (String.◌∷◌ p ps) = none
strip_prefix (String.◌∷◌ c cs) (String.◌∷◌ p ps) =
    let rest = strip_prefix cs ps in if code c == code p then rest else none

-- `text.startsWith(prefix)`
abbrev pub has_prefix : String → String → Bool
has_prefix text p = is_some (strip_prefix text p)

-- `text.includes(part)`
unfoldable pub has_part : String → String → Bool
has_part String.[] part = has_prefix String.[] part
has_part (String.◌∷◌ c cs) part =
    let rest = has_part cs part in has_prefix (String.◌∷◌ c cs) part || rest

-- white space and line ends, as `trim` and `\s` take them
unfoldable pub is_blank : Char → Bool
is_blank c =
    leb 9 (code c) && leb (code c) 13
    || code c == 32
    || code c == 160
    || code c == 5760
    || leb 8192 (code c) && leb (code c) 8202
    || code c == 8232
    || code c == 8233
    || code c == 8239
    || code c == 8287
    || code c == 12288
    || code c == 65279

abbrev pub strip_start : String → String
strip_start String.[] = String.[]
strip_start (String.◌∷◌ c cs) =
    let rest = strip_start cs in if is_blank c then rest else String.◌∷◌ c cs

-- a character before a text without trailing blanks
abbrev pub strip_step : Char → String → String
strip_step c String.[] = if is_blank c then String.[] else String.◌∷◌ c String.[]
strip_step c (String.◌∷◌ d ds) = String.◌∷◌ c (String.◌∷◌ d ds)

abbrev pub strip_end : String → String
strip_end String.[] = String.[]
strip_end (String.◌∷◌ c cs) = strip_step c (strip_end cs)

-- `text.trim()`
unfoldable pub strip : String → String
unfolding is_blank
strip text = strip_start (strip_end text)

-- the characters of a text
abbrev pub size : String → ℕ
size String.[] = 0
size (String.◌∷◌ c cs) = suc (size cs)

-- what remains of a match is passed over
unfoldable pub replace_from : ℕ → String → String → String → String
replace_from skip String.[] part value = String.[]
replace_from (suc skip) (String.◌∷◌ c cs) part value = replace_from skip cs part value
replace_from zero (String.◌∷◌ c cs) part value =
    let replaced = String.◌++◌ value (replace_from (size part - 1) cs part value) in
    let kept = String.◌∷◌ c (replace_from zero cs part value) in
    if has_prefix (String.◌∷◌ c cs) part then replaced else kept

-- `text.replaceAll(part, value)` for a part that is not empty and a value without `$`
unfoldable pub replace_all : String → String → String → String
unfolding replace_from
replace_all text part value = replace_from 0 text part value

-- the rest of a text from the first place where the part stands
unfoldable pub starting_at : String → String → Option String
starting_at String.[] part = if has_prefix String.[] part then some String.[] else none
starting_at (String.◌∷◌ c cs) part =
    let rest = starting_at cs part in
    if has_prefix (String.◌∷◌ c cs) part then some (String.◌∷◌ c cs) else rest

-- a text up to the first place where the part stands, or all of it
unfoldable pub up_to : String → String → String
up_to String.[] part = String.[]
up_to (String.◌∷◌ c cs) part =
    let rest = String.◌∷◌ c (up_to cs part) in
    if has_prefix (String.◌∷◌ c cs) part then String.[] else rest

abbrev pub onto_first : Char → List String → List String
onto_first c [] = String.◌∷◌ c String.[] ∷ []
onto_first c (line ∷ ls) = String.◌∷◌ c line ∷ ls

-- `text.split("\n")` and `lines.join("\n")`
unfoldable pub lines : String → List String
lines String.[] = String.[] ∷ []
lines (String.◌∷◌ c cs) =
    let rest = lines cs in if code c == 10 then String.[] ∷ rest else onto_first c rest

unfoldable pub unlines : List String → String
unlines [] = String.[]
unlines (line ∷ []) = line
unlines (line ∷ l ∷ ls) = String.◌++◌ line (String.◌++◌ "\n" (unlines (l ∷ ls)))
