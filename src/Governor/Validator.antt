-- ===== src/Governor/Validator.antt =====
-- The evaluation of punch card requirements of daemon/src/governor/kilo-verified-validator.ts, on the
-- punches that were derived and the requirements that were read. Text is the list of its codes; the
-- regular expression that `sqlLikeToRegex` builds holds literals, `.` for `_` and `.*` for `%`, so a test
-- of it is `like`, where neither wildcard passes a line terminator. A code is a character, which is
-- what `.` matches in the basic plane.
pub mod Like
pub mod Verdict
mod Tests
use repomap_core.Prelude.{
  ℕ, ◌+◌, String, Bool, true, false, not, ◌&&◌, ◌||◌, Option, List, [], ◌∷◌, ◌++◌, ◌==◌, str_eq,
  if◌then◌else◌, keep, length, contains,
}
use repomap_core.Prelude.Text.{codes}

-- a row of punch_cards
pub record PunchCardRequirement : Type 0 where
  pub punch_type : String
  pub punch_key_pattern : String
  pub required : Bool
  pub forbidden : Bool
  pub enforced : Bool
  pub description : Option String

pub record DerivedPunch : Type 0 where
  pub punch_type : String
  pub punch_key : String

-- an entry of `missing`, and one of `violations`, which has the count
pub record Missing : Type 0 where
  pub punch_type : String
  pub punch_key_pattern : String
  pub description : Option String

pub record Violation : Type 0 where
  pub punch_type : String
  pub punch_key_pattern : String
  pub count : ℕ
  pub description : Option String

pub data Status : Type 0 where
  passes fails : Status

abbrev pub percent : ℕ
percent = 37

abbrev pub underscore : ℕ
underscore = 95

-- line feed, carriage return, line separator and paragraph separator, which `.` does not match
abbrev pub ends_line : ℕ → Bool
ends_line c = (c == 10) || ((c == 13) || ((c == 8232) || (c == 8233)))

-- `.*` before the rest of a pattern
abbrev pub from_some_suffix : (List ℕ → Bool) → List ℕ → Bool
from_some_suffix rest [] = rest []
from_some_suffix rest (c ∷ text) =
    let later = from_some_suffix rest text in rest (c ∷ text) || (not (ends_line c) && later)

-- `.` before the rest of a pattern
abbrev pub from_next : (List ℕ → Bool) → List ℕ → Bool
from_next rest [] = false
from_next rest (c ∷ text) = not (ends_line c) && rest text

-- a literal before the rest of a pattern
abbrev pub from_literal : ℕ → (List ℕ → Bool) → List ℕ → Bool
from_literal p rest [] = false
from_literal p rest (c ∷ text) = (p == c) && rest text

abbrev pub is_empty : List ℕ → Bool
is_empty [] = true
is_empty (c ∷ text) = false

unfoldable pub like : List ℕ → List ℕ → Bool
like [] text = is_empty text
like (p ∷ pattern) text =
    let rest = like pattern in
    if p == percent
    then from_some_suffix rest text
    else if p == underscore
    then from_next rest text
    else from_literal p rest text

unfoldable pub punch_type_aliases : String → List String
punch_type_aliases t =
    t
    ∷ ((if str_eq t "mcp_call" then "3" ∷ [] else [])
        ++ ((if str_eq t "gate_pass" then "4" ∷ [] else [])
            ++ ((if str_eq t "child_spawn" then "6" ∷ [] else [])
                ++ ((if str_eq t "child_complete" then "7" ∷ [] else [])
                    ++ (if str_eq t "step_complete" then "9" ∷ [] else [])))))

unfoldable pub matches_requirement : DerivedPunch → PunchCardRequirement → Bool
unfolding like punch_type_aliases
matches_requirement punch r =
    if contains (punch_type_aliases punch.punch_type) r.punch_type
    then like (codes r.punch_key_pattern) (codes punch.punch_key)
    else false

abbrev pub violation_of : PunchCardRequirement → ℕ → Violation
violation_of r count = record {
  punch_type = r.punch_type;
  punch_key_pattern = r.punch_key_pattern;
  count = count;
  description = r.description;
}

abbrev pub missing_of : PunchCardRequirement → Missing
missing_of r = record {
  punch_type = r.punch_type;
  punch_key_pattern = r.punch_key_pattern;
  description = r.description;
}

-- the loop over the requirements
unfoldable pub evaluate_requirements :
    List PunchCardRequirement → List DerivedPunch → List Missing × List Violation
unfolding matches_requirement
evaluate_requirements [] punches = ([], [])
evaluate_requirements (r ∷ requirements) punches =
    let rest = evaluate_requirements requirements punches in
    let count = length (keep (λ p. matches_requirement p r) punches) in
    if not r.required && not r.forbidden
    then rest
    else if r.forbidden
    then (rest.0, if count == 0 then rest.1 else violation_of r count ∷ rest.1)
    else if r.required && (count == 0)
    then (missing_of r ∷ rest.0, rest.1)
    else rest

-- what a call comes to: the error "no requirements found", or the verdict with what is missing and
-- what is violated
pub data KiloVerifiedValidation : Type 0 where
  no_requirements : KiloVerifiedValidation
  evaluated : Status → List Missing → List Violation → KiloVerifiedValidation

-- `missing.length === 0 && violations.length === 0 ? "pass" : "fail"`
abbrev pub status_of_evaluation : List Missing × List Violation → Status
status_of_evaluation e = if (length e.0 == 0) && (length e.1 == 0) then passes else fails

-- from the requirements and the punches on: the guard, the evaluation and the status
unfoldable pub validate : List PunchCardRequirement → List DerivedPunch → KiloVerifiedValidation
validate [] punches = no_requirements
validate (r ∷ requirements) punches =
    let e = evaluate_requirements (r ∷ requirements) punches in
    evaluated (status_of_evaluation e) e.0 e.1
