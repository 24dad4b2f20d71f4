-- ===== src/Governor/Audit/Pattern.antt =====
-- `findRepeatingPattern` of daemon/src/governor/session-audit.ts. The fuel stands for the rounds of
-- the innermost loop, which the source does not bound where the pattern is empty.
use repomap_core.Prelude.{
  ℕ, zero, suc, ◌+◌, ◌-◌, ◌*◌, String, Bool, true, false, ◌&&◌, Option, none, some, List, [], ◌∷◌,
  length, take, drop, leb, if◌then◌else◌, str_eq,
}

pub record Repeating : Type 0 where
  pub pattern : List String
  pub repetitions : ℕ

-- `xs.slice(start, end)` for `start <= end`
abbrev pub slice {ℓ} : {A : Type ℓ} → ℕ → ℕ → List A → List A
slice from to xs = take (to - from) (drop from xs)

-- `candidate.every((v, i) => v === pattern[i])`
unfoldable pub every_same : List String → List String → Bool
every_same [] pattern = true
every_same (v ∷ candidate) [] = false
every_same (v ∷ candidate) (p ∷ pattern) =
    let rest = every_same candidate pattern in str_eq v p && rest

-- the loop over `offset`
unfoldable pub count_repetitions : List String → List String → ℕ → ℕ → ℕ → ℕ → Option ℕ
unfolding every_same
count_repetitions sequence pattern pat_len zero offset reps = none
count_repetitions sequence pattern pat_len (suc fuel) offset reps =
    let rest = count_repetitions sequence pattern pat_len fuel (offset + pat_len) (reps + 1) in
    if leb (offset + pat_len) (length sequence)
    then (if every_same (slice offset (offset + pat_len) sequence) pattern then rest else some reps)
    else some reps

abbrev pub enough_or :
    ℕ → List String → Option ℕ → Option (Option Repeating) → Option (Option Repeating)
enough_or min_reps pattern none later = none
enough_or min_reps pattern (some reps) later =
    if leb min_reps reps
    then some (some (record { pattern = pattern; repetitions = reps }))
    else later

-- the loop over `start`, with the rounds that are left
unfoldable pub try_starts : List String → ℕ → ℕ → ℕ → ℕ → ℕ → Option (Option Repeating)
unfolding count_repetitions
try_starts sequence pat_len min_reps fuel zero start = some none
try_starts sequence pat_len min_reps fuel (suc rounds) start =
    let rest = try_starts sequence pat_len min_reps fuel rounds (start + 1) in
    enough_or min_reps (slice start (start + pat_len) sequence)
      (count_repetitions sequence (slice start (start + pat_len) sequence) pat_len fuel
        (start + pat_len) 1)
      rest

-- what the loop over the lengths goes on with
abbrev pub found_or :
    Option (Option Repeating) → Option (Option Repeating) → Option (Option Repeating)
found_or none later = none
found_or (some none) later = later
found_or (some (some found)) later = some (some found)

-- the loop over `patLen`, with the rounds that are left
unfoldable pub try_lengths : List String → ℕ → ℕ → ℕ → ℕ → Option (Option Repeating)
unfolding try_starts
try_lengths sequence min_reps fuel zero pat_len = some none
try_lengths sequence min_reps fuel (suc rounds) pat_len =
    let rest = try_lengths sequence min_reps fuel rounds (pat_len + 1) in
    found_or
      (try_starts sequence pat_len min_reps fuel (suc (length sequence) - pat_len * min_reps) 0)
      rest

unfoldable pub find_repeating_pattern : List String → ℕ → ℕ → ℕ → ℕ → Option (Option Repeating)
unfolding try_lengths
find_repeating_pattern sequence min_len max_len min_reps fuel =
    try_lengths sequence min_reps fuel (suc max_len - min_len) min_len
