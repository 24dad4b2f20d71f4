-- ===== src/Governor/Classifier/Commands.antt =====
-- The quality gate that a shell command runs, `classifyGateFromCommand` of
-- daemon/src/classifier/index.ts. Each piece of its regular expressions is a function on the text at a
-- place: a word and its end, one or more blanks, and the flag later on the line.
use Prim.Native.Char.{Char, code}
use repomap_core.Prelude.{
  String, Bool, true, false, not, ◌&&◌, ◌||◌, Option, none, some, str_eq, ◌==◌, if◌then◌else◌,
}
use repomap_core.Prelude.Words.{strip, strip_prefix, is_blank}

-- `(\s|$)`
unfoldable pub ends_word : String → Bool
unfolding is_blank
ends_word String.[] = true
ends_word (String.◌∷◌ c cs) = is_blank c

abbrev pub word_end : Option String → Bool
word_end none = false
word_end (some rest) = ends_word rest

-- the word and its end
abbrev pub is_word_at : String → String → Bool
is_word_at word text = word_end (strip_prefix text word)

-- `\s+` and then what is wanted
unfoldable pub after_blanks : (String → Bool) → String → Bool
unfolding is_blank
after_blanks wanted String.[] = false
after_blanks wanted (String.◌∷◌ c cs) =
    let later = after_blanks wanted cs in is_blank c && (wanted cs || later)

-- the characters that `.` does not match
abbrev pub is_line_end : Char → Bool
is_line_end c = code c == 10 || code c == 13 || code c == 8232 || code c == 8233

-- `.*--check(\s|$)`
unfoldable pub has_check_flag : String → Bool
unfolding ends_word
has_check_flag String.[] = is_word_at "--check" String.[]
has_check_flag (String.◌∷◌ c cs) =
    let later = has_check_flag cs in
    is_word_at "--check" (String.◌∷◌ c cs) || (not (is_line_end c) && later)

-- what is wanted, behind a blank
unfoldable pub behind_blank : (String → Bool) → String → Bool
unfolding is_blank
behind_blank wanted String.[] = false
behind_blank wanted (String.◌∷◌ c cs) =
    let later = behind_blank wanted cs in (is_blank c && wanted cs) || later

-- `(^|\s)` and then what is wanted
unfoldable pub at_word_start : (String → Bool) → String → Bool
unfolding behind_blank
at_word_start wanted text = wanted text || behind_blank wanted text

abbrev pub then_wanted : (String → Bool) → Option String → Bool
then_wanted wanted none = false
then_wanted wanted (some rest) = wanted rest

-- `ruff\s+` and then what is wanted
abbrev pub ruff_then : (String → Bool) → String → Bool
ruff_then wanted text = then_wanted (after_blanks wanted) (strip_prefix text "ruff")

unfoldable pub is_ruff_format : String → Bool
unfolding at_word_start after_blanks has_check_flag
is_ruff_format command =
    at_word_start (ruff_then (is_word_at "format")) command
    || at_word_start (ruff_then has_check_flag) command

unfoldable pub is_ruff_check : String → Bool
unfolding at_word_start after_blanks ends_word
is_ruff_check command = at_word_start (ruff_then (is_word_at "check")) command

unfoldable pub has_word : String → String → Bool
unfolding at_word_start ends_word
has_word word command = at_word_start (is_word_at word) command

-- the first of the matchers that fits
unfoldable pub gate_of : String → Option String
unfolding is_ruff_format is_ruff_check has_word
gate_of command =
    if is_ruff_format command
    then some "ruff-format"
    else if is_ruff_check command
    then some "ruff-check"
    else if has_word "mypy" command
    then some "mypy"
    else if has_word "pytest" command
    then some "pytest"
    else none

pub record GateClassification : Type 0 where
  pub punch_type : String
  pub punch_key : String

abbrev pub gate_punch : String → Option String → Option GateClassification
gate_punch status none = none
gate_punch status (some key) = some (record {
  punch_type = if str_eq status "error" then "gate_fail" else "gate_pass";
  punch_key = key;
})

unfoldable pub classify_gate_from_command : String → String → Option GateClassification
unfolding strip gate_of
classify_gate_from_command command status =
    if str_eq (strip command) "" then none else gate_punch status (gate_of (strip command))
