-- ===== src/Governor/Validator/Tests.antt =====
-- A punch card of daemon/src/governor/kilo-verified-validator.ts with one required and one forbidden
-- punch.
use repomap_core.Prelude.{
  ◌<◌, length, ◌≡◌, ◌↔◌, refl, String, Bool, true, false, none, List, [], ◌∷◌, All,
}
use repomap_core.Prelude.Text.{codes}
use repomap_core.Governor.Validator.{
  PunchCardRequirement, DerivedPunch, like, passes, punch_type_aliases, matches_requirement,
  evaluate_requirements, no_requirements, evaluated, validate,
}
use repomap_core.Governor.Validator.Like.{Matches, like-Matches}
use repomap_core.Governor.Validator.Verdict.{IsPassed, is_met, validate_iff}

abbrev requirement : String → String → Bool → Bool → PunchCardRequirement
requirement type pattern required forbidden = record {
  punch_type = type;
  punch_key_pattern = pattern;
  required = required;
  forbidden = forbidden;
  enforced = true;
  description = none;
}

abbrev card : List PunchCardRequirement
card = requirement "4" "pyt_st" true false ∷ requirement "tool_call" "edit%" false true ∷ []

abbrev punches : List DerivedPunch
punches =
    record { punch_type = "gate_pass"; punch_key = "pytest" }
    ∷ record { punch_type = "tool_call"; punch_key = "read" }
    ∷ []

card_passed : validate card punches ≡ evaluated passes [] []
unfolding validate evaluate_requirements matches_requirement punch_type_aliases like
card_passed = refl

-- as the repository's test of a card that does not exist
no_card : validate [] punches ≡ no_requirements
unfolding validate
no_card = refl

like-Matches_example :
    (like (codes "ed_t%") (codes "edit:a") ≡ true) ↔ Matches (codes "ed_t%") (codes "edit:a")
like-Matches_example = like-Matches (codes "ed_t%") (codes "edit:a")

validate_iff_example :
    ((validate card punches ≡ no_requirements) ↔ (card ≡ []))
    × (IsPassed (validate card punches)
        ↔ ((0 < length card) × All (λ r. is_met punches r ≡ true) card))
validate_iff_example = validate_iff card punches
