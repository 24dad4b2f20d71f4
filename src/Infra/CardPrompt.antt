-- ===== src/Infra/CardPrompt.antt =====
-- daemon/src/optimization/prompt-injection.ts: which exit prompt a punch card has, and its place before
-- the prompt. The compiled prompts of daemon/src/optimization/prompt-reader.ts and the mode map of
-- daemon/src/infra/mode-card-map.ts are parameters, as is the content of the modes file.
mod Tests
use Prim.Native.String
use mathlib.Core.Option
use repomap_core.Prelude.{
  ℕ, zero, suc, ◌+◌, ◌-◌, String, Bool, true, false, not, ◌&&◌, ◌||◌, List, [], ◌∷◌, ◌++◌, Option,
  none, some, any, is_some, str_eq, if◌then◌else◌, or_else, first_some,
}
use repomap_core.Prelude.Words.{
  strip, strip_start, strip_prefix, has_prefix, has_part, is_blank, starting_at, up_to, lines,
  unlines,
}

-- `text + text`
infixr 65 ◌<>◌
abbrev pub ◌<>◌ : String → String → String
a <> b = String.◌++◌ a b

abbrev pub filled : String → Option String
filled text = if str_eq text "" then none else some text

-- the text between a start and the next end after it, the start included
abbrev pub section_of : String → String → Option String → Option String
section_of start stop none = none
section_of start stop (some rest) =
    Option.map (λ body. start <> up_to body stop) (strip_prefix rest start)

abbrev pub section_in : String → String → String → Option String
section_in text start stop = section_of start stop (starting_at text start)

-- `line.replace(/^\s{6}/, "")`
unfoldable pub drop_blanks : ℕ → String → Option String
drop_blanks zero text = some text
drop_blanks (suc n) String.[] = none
drop_blanks (suc n) (String.◌∷◌ c cs) =
    let rest = drop_blanks n cs in if is_blank c then rest else none

unfoldable pub unindent : List String → List String
unfolding drop_blanks
unindent [] = []
unindent (line ∷ ls) = or_else (drop_blanks 6 line) line ∷ unindent ls

abbrev pub yaml_meta_keys : List String
yaml_meta_keys =
    "source" ∷ "whenToUse" ∷ "groups" ∷ "fileRegex" ∷ "slug" ∷ "name" ∷ "roleDefinition"
    ∷ "customInstructions" ∷ []

abbrev pub colon_follows : Option String → Bool
colon_follows none = false
colon_follows (some rest) = has_prefix (strip_start rest) ":"

unfoldable pub is_yaml_meta : String → Bool
is_yaml_meta line = any (λ key. colon_follows (strip_prefix line key)) yaml_meta_keys

abbrev pub is_trailing : String → Bool
is_trailing line = is_yaml_meta (strip line) || str_eq (strip line) ""

-- the lines without those at the end that are empty or metadata
abbrev pub kept_line : String → List String → List String
kept_line line [] = if is_trailing line then [] else line ∷ []
kept_line line (l ∷ ls) = line ∷ l ∷ ls

unfoldable pub drop_trailing : List String → List String
unfolding is_yaml_meta
drop_trailing [] = []
drop_trailing (line ∷ ls) = kept_line line (drop_trailing ls)

abbrev pub tidied : Option String → Option String
tidied none = none
tidied (some normalized) = filled (strip (unlines (drop_trailing (lines normalized))))

abbrev pub normalized_section : Option String → Option String
normalized_section none = none
normalized_section (some section) = filled (strip (unlines (unindent (lines section))))

abbrev pub mode_block : String → String → Option String
mode_block mode modes_content = section_in modes_content ("- slug: " <> mode) "\n  - slug:"

abbrev pub exit_section : Option String → Option String
exit_section none = none
exit_section (some block) = section_in block "## Punch Card Exit Conditions" "\n      ## "

unfoldable pub extract_static_card_exit_section : String → String → Option String
unfolding strip unindent drop_trailing starting_at up_to lines unlines
extract_static_card_exit_section mode modes_content =
    tidied (normalized_section (exit_section (mode_block mode modes_content)))

pub data PromptSource : Type 0 where
  compiled static none_found : PromptSource

pub data Specificity : Type 0 where
  by_formula_and_depth by_formula by_depth generic by_mode unspecified : Specificity

pub record CardExitPromptResolution : Type 0 where
  pub card_id : Option String
  pub prompt : Option String
  pub source : PromptSource
  pub specificity : Specificity

unfoldable pub resolve_specificity : String → Specificity
unfolding has_part
resolve_specificity prompt_id =
    let has_formula = has_part prompt_id ":formula-" in
    let has_depth = has_part prompt_id ":depth-" in
    if has_formula && has_depth
    then Specificity.by_formula_and_depth
    else if has_formula
    then Specificity.by_formula
    else if has_depth
    then Specificity.by_depth
    else Specificity.generic

pub record CardExitPromptMatch : Type 0 where
  pub compiled_prompt : String
  pub prompt_id : String

-- what the code reads: none of a compiled prompt also where the query fails, and the decimal numerals
pub record Prompts : Type 0 where
  pub card_of_mode : String → Option String
  pub read_card_exit_prompt : List String → Option CardExitPromptMatch
  pub modes_content : String
  pub numeral : ℕ → String

abbrev pub base_id : String → String
base_id card_id = "card-exit:" <> card_id

abbrev pub one_of : Option String → List String
one_of none = []
one_of (some id) = id ∷ []

abbrev pub with_formula : String → Option String → Option String
with_formula id = Option.map (λ formula. id <> (":formula-" <> formula))

abbrev pub with_depth : Prompts → Option ℕ → Option String → Option String
with_depth prompts none id = none
with_depth prompts (some depth) id = Option.map (λ i. i <> (":depth-" <> prompts.numeral depth)) id

-- `hasFormula`: an empty formula is none
abbrev pub given : Option String → Option String
given none = none
given (some text) = filled text

-- the candidates, from the most specific to the generic one
unfoldable pub candidates_for : Prompts → String → Option ℕ → Option String → List String
candidates_for prompts card_id depth formula_id =
    let id = base_id card_id in
    one_of (with_depth prompts depth (with_formula id (given formula_id)))
    ++ (one_of (with_formula id (given formula_id))
        ++ (one_of (with_depth prompts depth (some id)) ++ id ∷ []))

abbrev pub static_or_none : Option String → Option String → CardExitPromptResolution
static_or_none card_id none = record {
  card_id = card_id;
  prompt = none;
  source = PromptSource.none_found;
  specificity = Specificity.unspecified;
}
static_or_none card_id (some prompt) = record {
  card_id = card_id;
  prompt = some prompt;
  source = PromptSource.static;
  specificity = Specificity.by_mode;
}

abbrev pub compiled_or :
    String → Option CardExitPromptMatch → CardExitPromptResolution → CardExitPromptResolution
compiled_or card_id none other = other
compiled_or card_id (some found) other = record {
  card_id = some card_id;
  prompt = some found.compiled_prompt;
  source = PromptSource.compiled;
  specificity = resolve_specificity found.prompt_id;
}

unfoldable pub resolve_with_card :
    Prompts → String → Option String → Option ℕ → Option String → CardExitPromptResolution
unfolding extract_static_card_exit_section candidates_for resolve_specificity
resolve_with_card prompts mode none depth formula_id =
    static_or_none none (extract_static_card_exit_section mode prompts.modes_content)
resolve_with_card prompts mode (some card_id) depth formula_id =
    compiled_or card_id
      (prompts.read_card_exit_prompt (candidates_for prompts card_id depth formula_id))
      (static_or_none (some card_id) (extract_static_card_exit_section mode prompts.modes_content))

-- `cardIdOverride || (modeMap[mode] ?? null)`; an empty id counts as none, as all that read it test it
unfoldable pub resolve_card_exit_prompt :
    Prompts → String → Option String → Option ℕ → Option String → CardExitPromptResolution
unfolding resolve_with_card
resolve_card_exit_prompt prompts mode override depth formula_id =
    if str_eq mode ""
    then static_or_none none none
    else resolve_with_card prompts mode
        (given (first_some (given override) (prompts.card_of_mode mode))) depth formula_id

-- an empty exit prompt is none
unfoldable pub inject_card_exit_prompt : String → Option String → String
inject_card_exit_prompt base_prompt none = base_prompt
inject_card_exit_prompt base_prompt (some exit_prompt) =
    if str_eq exit_prompt "" then base_prompt else exit_prompt <> ("\n\n" <> base_prompt)
