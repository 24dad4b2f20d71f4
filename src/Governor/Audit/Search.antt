-- ===== src/Governor/Audit/Search.antt =====
-- The loops over starts and lengths of `findRepeatingPattern` of
-- daemon/src/governor/session-audit.ts.
use mathlib.Core.List.{append_assoc}
use repomap_core.Prelude.{
  ℕ, zero, suc, ◌+◌, ◌-◌, ◌*◌, ◌≤◌, ◌<◌, ◌≡◌, ◌≢◌, ◌⊎◌, inl, inr, refl, sym, ap, ◌∙◌, subst, arith,
  String, Option, none, some, List, ◌++◌, length, take, drop, leb, Bool-cases, repeat,
  length-append, length-repeat, take-append-drop, append-eq-append, drop-append,
}
use repomap_core.Governor.Audit.Pattern.{
  Repeating, slice, count_repetitions, try_starts, try_lengths, find_repeating_pattern,
}
use repomap_core.Governor.Audit.Repeats.{
  Stops, repeat_more, length-slice, slice-split, count_repetitions_lem,
}

-- somewhere in the sequence the pattern stands so many times in a row, and then no more
abbrev pub Occurs : List String → Repeating → Type 0
Occurs sequence r =
    (pre : List String) × (post : List String) × (sequence
      ≡ pre ++ (repeat r.repetitions r.pattern ++ post))
    × Stops r.pattern post

abbrev Absent : List String → ℕ → ℕ → ℕ → Type 0
Absent sequence n reps start =
    (p post : List String) → length p ≡ n → drop start sequence ≢ repeat reps p ++ post

abbrev found_at : List String → ℕ → ℕ → ℕ → Repeating
found_at sequence n start k = record {
  pattern = slice start (start + n) sequence;
  repetitions = 1 + k;
}

module _ (seq : List String) (n start : ℕ) (fits : start + n ≤ length seq) (k : ℕ)
    (post : List String)
    (counted : drop (start + n) seq ≡ repeat k (slice start (start + n) seq) ++ post)
    (stops : Stops (slice start (start + n) seq) post) where
  found_at-Occurs : Occurs seq (found_at seq n start k)
  found_at-Occurs =
      let p = slice start (start + n) seq in
      let tail : drop start seq ≡ repeat (1 + k) p ++ post =
        slice-split start n seq
        ∙ ap (λ (l : List String). p ++ l) counted
        ∙ sym (append_assoc p (repeat k p) post)
        ∙ ap (λ (i : ℕ). repeat i p ++ post) {x = suc k} {y = 1 + k} (omega arith) in
      (
        take start seq,
        post,
        sym (take-append-drop start seq) ∙ ap (λ (l : List String). take start seq ++ l) tail,
        stops,
      )

  found_at-Absent : (reps : ℕ) → 1 + k < reps → Absent seq n reps start
  found_at-Absent zero few p rest len e = absurd (omega arith)
  found_at-Absent (suc m) few p rest len e =
      let pattern = slice start (start + n) seq in
      let parts =
        append-eq-append pattern (drop (start + n) seq) p (repeat m p ++ rest)
          (length-slice start n seq fits ∙ sym len)
          (sym (slice-split start n seq) ∙ e ∙ append_assoc p (repeat m p) rest) in
      let longer =
        repeat_more k m pattern rest post (omega arith)
          (ap (λ (l : List String). repeat m l ++ rest) parts.0 ∙ sym parts.1 ∙ counted) in
      stops longer.0 longer.1

IsGood : List String → ℕ → ℕ → Repeating → Type 0
IsGood sequence n reps r = (length r.pattern ≡ n) × (reps ≤ r.repetitions) × Occurs sequence r

abbrev Hit : List String → ℕ → ℕ → Option (Option Repeating) → Type 0
Hit sequence n reps o = (r : Repeating) × (o ≡ some (some r)) × IsGood sequence n reps r

abbrev Miss : List String → ℕ → ℕ → ℕ → ℕ → Option (Option Repeating) → Type 0
Miss sequence n reps start rounds o =
    (o ≡ some none) × ((s : ℕ) → start ≤ s → s < start + rounds → Absent sequence n reps s)

Miss-suc :
    (seq : List String) (n reps start rounds : ℕ) (o : Option (Option Repeating))
    → Absent seq n reps start
    → Miss seq n reps (start + 1) rounds o
    → Miss seq n reps start (suc rounds) o
Miss-suc seq n reps start rounds o here (e, later) = (
  e,
  λ s from to. elim (Bool-cases (leb (start + 1) s)) [
    | inl more ↦ later s (ground arith) (omega arith)
    | inr equal ↦ subst (λ (i : ℕ). Absent seq n reps i) {x = start} (ground arith) here
  ],
)

-- Either the starts that are left hold a repetition and the first is returned, or none does.
try_starts_lem :
    (seq : List String) (n reps fuel rounds start : ℕ)
    → 0 < n
    → length seq < fuel
    → start + rounds ≤ suc (length seq) - n
    → Hit seq n reps (try_starts seq n reps fuel rounds start)
      ⊎ Miss seq n reps start rounds (try_starts seq n reps fuel rounds start)
unfolding try_starts IsGood
try_starts_lem seq n reps fuel zero start pos enough fits =
    inr (refl, λ s from to. absurd (omega arith))
try_starts_lem seq n reps fuel (suc rounds) start pos enough fits =
    let p = slice start (start + n) seq in
    let here : start + n ≤ length seq = omega arith in
    let len : length p ≡ n = length-slice start n seq here in
    let (k, post, e, counted, stops) =
      count_repetitions_lem seq p fuel (start + n) 1 (omega arith) (omega arith) in
    let runs : count_repetitions seq p n fuel (start + n) 1 ≡ some (1 + k) =
      ap (λ (i : ℕ). count_repetitions seq p i fuel (start + n) 1) (sym len) ∙ e in
    elim (Bool-cases (leb reps (1 + k))) [
      | inl good ↦ inl (
        found_at seq n start k,
        rw (runs, good) refl,
        (len, ground arith, found_at-Occurs seq n start here k post counted stops),
      )
      | inr bad ↦
          elim (try_starts_lem seq n reps fuel rounds (start + 1) pos enough (omega arith)) [
            | inl (r, hit, is_good) ↦ inl (r, rw (runs, bad) hit, is_good)
            | inr (miss, absent) ↦ inr (
                Miss-suc seq n reps start rounds _
                  (found_at-Absent seq n start here k post counted stops reps (ground arith))
                  (rw (runs, bad) miss, absent))
          ]
    ]

-- some pattern of that length stands so many times in a row
abbrev pub Holds : List String → ℕ → List String → Type 0
Holds sequence reps p =
    (pre : List String) × (post : List String) × (sequence ≡ pre ++ (repeat reps p ++ post))

starts_none :
    (seq : List String) (n reps : ℕ)
    → ((s : ℕ) → 0 ≤ s → s < 0 + (suc (length seq) - n * reps) → Absent seq n reps s)
    → (p : List String) → length p ≡ n
    → ¬ Holds seq reps p
starts_none seq n reps absent p len (pre, post, e) =
    let size : length seq ≡ length pre + (reps * n + length post) =
      ap length e
      ∙ length-append pre (repeat reps p ++ post)
      ∙ ap (λ (i : ℕ). length pre + i)
          (length-append (repeat reps p) post
            ∙ ap (λ (i : ℕ). i + length post)
                (length-repeat reps p ∙ ap (λ (i : ℕ). reps * i) len)) in
    absent (length pre) (omega arith) (grind arith) p post len
      (ap (drop (length pre)) e ∙ drop-append pre (repeat reps p ++ post))

le-mul : (n k : ℕ) → 0 < k → n ≤ n * k
le-mul n k h = grind arith

abbrev pub Found : List String → ℕ → ℕ → ℕ → Repeating → Type 0
Found sequence min_len max_len reps r =
    (min_len ≤ length r.pattern)
    × (length r.pattern ≤ max_len)
    × (reps ≤ r.repetitions)
    × Occurs sequence r

abbrev pub NoneThere : List String → ℕ → ℕ → ℕ → Type 0
NoneThere sequence min_len max_len reps =
    (p : List String) → min_len ≤ length p → length p ≤ max_len → ¬ Holds sequence reps p

module _ (seq : List String) (reps : ℕ) (some_reps : 0 < reps) (fuel : ℕ)
    (enough : length seq < fuel) where
  try_lengths_lem :
      (rounds n max_len : ℕ)
      → 0 < n
      → n + rounds ≡ suc max_len
      → ((r : Repeating) × (try_lengths seq reps fuel rounds n ≡ some (some r))
          × Found seq n max_len reps r)
        ⊎ ((try_lengths seq reps fuel rounds n ≡ some none) × NoneThere seq n max_len reps)
  unfolding try_lengths IsGood
  try_lengths_lem zero n max_len pos e = inr (refl, λ p least most. absurd (omega arith))
  try_lengths_lem (suc rounds) n max_len pos e =
      elim (try_starts_lem seq n reps fuel (suc (length seq) - n * reps) 0 pos enough
        (omega (arith, le-mul n reps some_reps))) [
          | inl (r, hit, (len, many, occurs)) ↦
              inl (r, rw hit refl, (omega arith, omega arith, many, occurs))
          | inr (miss, absent) ↦
              elim (try_lengths_lem rounds (n + 1) max_len (omega arith) (omega arith)) [
                | inl (r, hit, (least, most, good, occurs)) ↦
                    inl (r, rw miss hit, (omega arith, most, good, occurs))
                | inr (none_later, later) ↦ inr (
                  rw miss none_later,
                  λ p least most. elim (Bool-cases (leb (n + 1) (length p))) [
                    | inl more ↦ later p (ground arith) most
                    | inr equal ↦ starts_none seq n reps absent p (ground arith)
                  ],
                )
              ]
        ]

-- Where the least length and the number of repetitions are positive, the search ends and decides:
-- it returns a pattern of a length in the range that stands at least so often in a row somewhere
-- in the sequence, with the full number of its repetitions there, or null where no such pattern is
-- there.
pub find_repeating_pattern_decides :
    (seq : List String) (min_len max_len reps fuel : ℕ)
    → 0 < min_len
    → 0 < reps
    → length seq < fuel
    → ((r : Repeating) × (find_repeating_pattern seq min_len max_len reps fuel ≡ some (some r))
        × Found seq min_len max_len reps r)
      ⊎ ((find_repeating_pattern seq min_len max_len reps fuel ≡ some none)
          × NoneThere seq min_len max_len reps)
unfolding find_repeating_pattern try_lengths
find_repeating_pattern_decides seq min_len max_len reps fuel pos many enough =
    elim (Bool-cases (leb min_len (suc max_len))) [
      | inl range ↦
          try_lengths_lem seq reps many fuel enough (suc max_len - min_len) min_len max_len pos
            (ground arith)
      | inr empty ↦ inr (
        ap (λ (i : ℕ). try_lengths seq reps fuel i min_len) {y = 0} (ground arith),
        λ p least most. absurd (ground arith),
      )
    ]
