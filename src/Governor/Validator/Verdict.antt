-- ===== src/Governor/Validator/Verdict.antt =====
-- What a punch card verdict of daemon/src/governor/kilo-verified-validator.ts means.
use repomap_core.Prelude.{
  ◌<◌, ◌≡◌, ◌↔◌, refl, arith, Bool, true, not, ◌&&◌, List, [], ◌∷◌, ◌==◌, any, keep, length, All,
  if◌then◌else◌,
}
use repomap_core.Governor.Validator.{
  PunchCardRequirement, DerivedPunch, Missing, Violation, passes, matches_requirement,
  evaluate_requirements, status_of_evaluation, KiloVerifiedValidation, no_requirements, evaluated,
  validate,
}

-- Whether the punches meet a requirement: a forbidden punch is not there, a required one is.
abbrev pub is_met : List DerivedPunch → PunchCardRequirement → Bool
is_met punches r =
    let there = any (λ p. matches_requirement p r) punches in
    if r.forbidden then not there else if r.required then there else true

count-any :
    (f : DerivedPunch → Bool) (ps : List DerivedPunch) → (length (keep f ps) == 0) ≡ not (any f ps)
count-any f [] = ground arith
count-any f (p ∷ ps) = ground (arith, count-any f ps)

all_met : List PunchCardRequirement → List DerivedPunch → Bool
all_met [] punches = true
all_met (r ∷ rs) punches = let rest = all_met rs punches in is_met punches r && rest

abbrev is_pass : List Missing × List Violation → Bool
is_pass e = (length e.0 == 0) && (length e.1 == 0)

pass-all_met :
    (rs : List PunchCardRequirement) (punches : List DerivedPunch)
    → is_pass (evaluate_requirements rs punches) ≡ all_met rs punches
unfolding evaluate_requirements all_met
pass-all_met [] punches = ground arith
pass-all_met (r ∷ rs) punches =
    ground (arith, pass-all_met rs punches, count-any (λ p. matches_requirement p r) punches)

all_met_iff :
    (rs : List PunchCardRequirement) (punches : List DerivedPunch)
    → (all_met rs punches ≡ true) ↔ All (λ r. is_met punches r ≡ true) rs
unfolding all_met
all_met_iff [] punches = (λ h. tt, λ h. refl)
all_met_iff (r ∷ rs) punches =
    let (there, back) = all_met_iff rs punches in
    (λ h. (ground arith, there (ground arith)), λ h. ground (arith, h.0, back h.1))

passes_iff :
    (rs : List PunchCardRequirement) (punches : List DerivedPunch)
    → (status_of_evaluation (evaluate_requirements rs punches) ≡ passes)
      ↔ All (λ r. is_met punches r ≡ true) rs
passes_iff rs punches =
    let (there, back) = all_met_iff rs punches in
    (
      λ h. there (ground (arith, pass-all_met rs punches)),
      λ h. ground (arith, pass-all_met rs punches, back h),
    )

abbrev pub IsPassed : KiloVerifiedValidation → Type 0
IsPassed no_requirements = ⊥
IsPassed (evaluated status missing violations) = status ≡ passes

-- The validation of a session is an error exactly where the card has no requirements. It passes exactly
-- where the card has some and the session meets each of them: where a forbidden punch is not among its
-- punches, and where a required one that is not forbidden is.
pub validate_iff :
    (rs : List PunchCardRequirement) (punches : List DerivedPunch)
    → ((validate rs punches ≡ no_requirements) ↔ (rs ≡ []))
      × (IsPassed (validate rs punches) ↔ ((0 < length rs) × All (λ r. is_met punches r ≡ true) rs))
unfolding validate
validate_iff [] punches =
    ((λ h. refl, λ h. refl), (λ h. absurd h, λ h. absurd (omega (arith, h.0))))
validate_iff (r ∷ rs) punches =
    let (there, back) = passes_iff (r ∷ rs) punches in
    ((λ h. cc, λ h. cc), (λ h. (omega arith, there h), λ h. back h.1))
