-- ===== src/Governor/Classifier/Names.antt =====
-- The names of tools in punches: `toSnakeCase`, `isMcpToolName` and `canonicalMcpPunchKey` of
-- daemon/src/classifier/index.ts.
use Prim.Native.Char.{Char, code}
use Prim.Native.String
use repomap_core.Prelude.{
  String, Bool, false, ◌&&◌, ◌||◌, Option, none, some, ◌==◌, leb, if◌then◌else◌,
}
use repomap_core.Prelude.Words.{has_prefix, has_part, starting_at, replace_all}

abbrev pub is_capital : Char → Bool
is_capital c = leb 65 (code c) && leb (code c) 90

abbrev pub is_small : Char → Bool
is_small c = leb 97 (code c) && leb (code c) 122

abbrev pub is_digit : Char → Bool
is_digit c = leb 48 (code c) && leb (code c) 57

-- an underscore before the rest
abbrev pub underscored : String → String
underscored text = String.◌++◌ "_" text

-- `replaceAll(/([a-z0-9])([A-Z])/g, "$1_$2")`: the character before, and the rest
unfoldable pub split_words : Char → String → String
split_words c String.[] = String.◌∷◌ c String.[]
split_words c (String.◌∷◌ d ds) =
    let rest = split_words d ds in
    String.◌∷◌ c (if (is_small c || is_digit c) && is_capital d then underscored rest else rest)

abbrev pub starts_small : String → Bool
starts_small String.[] = false
starts_small (String.◌∷◌ c cs) = is_small c

-- `replaceAll(/([A-Z])([A-Z][a-z])/g, "$1_$2")`
unfoldable pub split_acronyms : Char → String → String
split_acronyms c String.[] = String.◌∷◌ c String.[]
split_acronyms c (String.◌∷◌ d ds) =
    let rest = split_acronyms d ds in
    String.◌∷◌ c
      (if is_capital c && (is_capital d && starts_small ds) then underscored rest else rest)

-- the character that stands in the second alphabet where it stands in the first
unfoldable pub translate : String → String → Char → Char
translate String.[] bs c = c
translate (String.◌∷◌ a as') String.[] c = c
translate (String.◌∷◌ a as') (String.◌∷◌ b bs) c =
    let rest = translate as' bs c in if code a == code c then b else rest

unfoldable pub lower_char : Char → Char
unfolding translate
lower_char = translate "ABCDEFGHIJKLMNOPQRSTUVWXYZ" "abcdefghijklmnopqrstuvwxyz"

-- `toLowerCase`
unfoldable pub lower : String → String
unfolding lower_char
lower String.[] = String.[]
lower (String.◌∷◌ c cs) = String.◌∷◌ (lower_char c) (lower cs)

-- a pass over a text that is not empty
abbrev pub passed : (Char → String → String) → String → String
passed f String.[] = String.[]
passed f (String.◌∷◌ c cs) = f c cs

unfoldable pub to_snake_case : String → String
unfolding split_words split_acronyms lower
to_snake_case name = lower (passed split_acronyms (passed split_words name))

unfoldable pub is_mcp_tool_name : String → Bool
is_mcp_tool_name tool_name =
    has_prefix tool_name "augment-context-engine_"
    || has_prefix tool_name "sequentialthinking_"
    || has_prefix tool_name "context7_"
    || has_prefix tool_name "sonarqube_"

-- `split("_").slice(1).join("_")`: what follows the first underscore, or all where there is none
abbrev pub after_underscore : String → Option String → String
after_underscore tool_name none = tool_name
after_underscore tool_name (some String.[]) = tool_name
after_underscore tool_name (some (String.◌∷◌ c cs)) = cs

unfoldable pub canonical_mcp_punch_key : String → String
unfolding has_part starting_at replace_all
canonical_mcp_punch_key tool_name =
    if has_part tool_name "codebase-retrieval" || has_part tool_name "codebase_retrieval"
    then "codebase___retrieval"
    else if has_part tool_name "process_thought"
    then "process_thought"
    else if has_part tool_name "generate_summary"
    then "generate_summary"
    else if has_part tool_name "export_session"
    then "export_session"
    else replace_all (after_underscore tool_name (starting_at tool_name "_")) "-" "_"
