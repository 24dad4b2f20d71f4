-- ===== src/Infra/CardPrompt/Tests.antt =====
-- Exit prompts on small inputs.
use repomap_core.Prelude.{◌≡◌, refl, String, [], ◌∷◌, none, some}
use repomap_core.Infra.CardPrompt.{
  Prompts, Specificity, extract_static_card_exit_section, candidates_for, resolve_card_exit_prompt,
  resolve_specificity, inject_card_exit_prompt,
}

abbrev modes : String
modes =
    "  - slug: ask\n    x\n  - slug: code\n    y: |\n      ## Punch Card Exit Conditions\n      Run it.\n\n    groups: [a]\n  - slug: z\n"

static_section :
    extract_static_card_exit_section "code" modes ≡ some "## Punch Card Exit Conditions\nRun it."
unfolding extract_static_card_exit_section
static_section = refl

no_section : extract_static_card_exit_section "ask" modes ≡ none
unfolding extract_static_card_exit_section
no_section = refl

abbrev prompts : Prompts
prompts = record {
  card_of_mode = λ mode. some "execute-subtask";
  read_card_exit_prompt = λ ids. none;
  modes_content = modes;
  numeral = λ n. "2";
}

all_candidates :
    candidates_for prompts "c" (some 2) (some "f")
    ≡ "card-exit:c:formula-f:depth-2" ∷ "card-exit:c:formula-f" ∷ "card-exit:c:depth-2"
      ∷ "card-exit:c" ∷ []
unfolding candidates_for
all_candidates = refl

generic_only : candidates_for prompts "c" none (some "") ≡ "card-exit:c" ∷ []
unfolding candidates_for
generic_only = refl

fallback_card :
    (resolve_card_exit_prompt prompts "code" none none none).card_id ≡ some "execute-subtask"
unfolding resolve_card_exit_prompt
fallback_card = refl

specific : resolve_specificity "card-exit:c:depth-2" ≡ Specificity.by_depth
unfolding resolve_specificity
specific = refl

put_before : inject_card_exit_prompt "b" (some "e") ≡ "e\n\nb"
unfolding inject_card_exit_prompt
put_before = refl
