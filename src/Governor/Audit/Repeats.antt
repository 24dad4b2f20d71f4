-- ===== src/Governor/Audit/Repeats.antt =====
-- What `findRepeatingPattern` of daemon/src/governor/session-audit.ts finds.
use mathlib.Core.List.{append_assoc}
use repomap_core.Prelude.{
  ℕ, zero, suc, ◌+◌, ◌-◌, ◌≤◌, ◌<◌, ◌≡◌, ◌≢◌, inl, inr, refl, sym, ap, ◌∙◌, arith, String, true,
  false, some, List, [], ◌∷◌, ◌++◌, length, take, drop, leb, eq_iff, Bool-cases, repeat,
  length-append, length-drop, length-take, take-append-drop, append-eq-append, drop-drop,
  take-append,
}
use repomap_core.Governor.Audit.Pattern.{slice, every_same, count_repetitions}

every_same_self : (xs : List String) → every_same xs xs ≡ true
unfolding every_same
every_same_self [] = refl
every_same_self (x ∷ xs) = ground (arith, eq_iff x x, every_same_self xs)

every_same-eq : (xs ys : List String) → length xs ≡ length ys → every_same xs ys ≡ true → xs ≡ ys
unfolding every_same
every_same-eq [] [] l h = refl
every_same-eq [] (y ∷ ys) l h = absurd (omega arith)
every_same-eq (x ∷ xs) [] l h = absurd (omega arith)
every_same-eq (x ∷ xs) (y ∷ ys) l h = ground (arith, eq_iff x y, every_same-eq xs ys (omega arith))

-- a list that repeats a pattern more often than another reading of it goes on with the pattern
pub repeat_more :
    (k m : ℕ) (p x post : List String)
    → k < m
    → repeat m p ++ x ≡ repeat k p ++ post
    → (q : List String) × (post ≡ p ++ q)
repeat_more k zero p x post h e = absurd (omega arith)
repeat_more zero (suc m) p x post h e = (repeat m p ++ x, sym e ∙ append_assoc p (repeat m p) x)
repeat_more (suc k) (suc m) p x post h e =
    let same =
      append-eq-append p (repeat m p ++ x) p (repeat k p ++ post) refl
        (sym (append_assoc p (repeat m p) x) ∙ e ∙ append_assoc p (repeat k p) post) in
    repeat_more k m p x post (omega arith) same.1

-- `post` does not go on with the pattern
abbrev pub Stops : List String → List String → Type 0
Stops pattern post = (q : List String) → post ≢ pattern ++ q

pub slice-eq-take :
    (from n : ℕ) (xs : List String) → slice from (from + n) xs ≡ take n (drop from xs)
slice-eq-take from n xs = ap (λ (k : ℕ). take k (drop from xs)) (omega arith)

pub length-slice :
    (from n : ℕ) (xs : List String) → from + n ≤ length xs → length (slice from (from + n) xs) ≡ n
length-slice from n xs h =
    omega (arith, length-take (from + n - from) (drop from xs), length-drop from xs)

pub slice-split :
    (from n : ℕ) (xs : List String) → drop from xs ≡ slice from (from + n) xs ++ drop (from + n) xs
slice-split from n xs =
    sym (take-append-drop n (drop from xs))
    ∙ ap (λ (l : List String). l ++ drop n (drop from xs)) (sym (slice-eq-take from n xs))
    ∙ ap (λ (l : List String). slice from (from + n) xs ++ l) (drop-drop from n xs)

Stops-short :
    (offset : ℕ) (sequence pattern : List String)
    → 0 < length pattern
    → length sequence < offset + length pattern
    → Stops pattern (drop offset sequence)
Stops-short offset seq p pos out q e =
    absurd (omega (arith, ap length e, length-append p q, length-drop offset seq))

Stops-at_other :
    (offset : ℕ) (sequence pattern : List String)
    → every_same (slice offset (offset + length pattern) sequence) pattern ≡ false
    → Stops pattern (drop offset sequence)
Stops-at_other offset seq p other q e =
    let head : slice offset (offset + length p) seq ≡ p =
      slice-eq-take offset (length p) seq ∙ ap (take (length p)) e ∙ take-append p q in
    let same : every_same (slice offset (offset + length p) seq) p ≡ true =
      ap (λ (l : List String). every_same l p) head ∙ every_same_self p in
    cc

-- The loop over the offsets counts the repetitions that follow, as many as there are.
pub count_repetitions_lem :
    (sequence pattern : List String) (fuel offset reps : ℕ)
    → 0 < length pattern
    → length sequence - offset < fuel
    → (k : ℕ) × (post : List String) × (count_repetitions sequence pattern
          (length pattern)
          fuel
          offset
          reps
        ≡ some (reps + k))
      × (drop offset sequence ≡ repeat k pattern ++ post)
      × Stops pattern post
unfolding count_repetitions
count_repetitions_lem seq p zero offset reps pos enough = absurd (omega arith)
count_repetitions_lem seq p (suc fuel) offset reps pos enough =
    let n = length p in
    elim (Bool-cases (leb (offset + n) (length seq))) [
      | inl fits ↦ elim (Bool-cases (every_same (slice offset (offset + n) seq) p)) [
        | inl same ↦
            let ih = count_repetitions_lem seq p fuel (offset + n) (reps + 1) pos (ground arith) in
            (
              suc ih.0,
              ih.1,
              rw (fits, same) (ih.2 ∙ ap some (omega arith)),
              slice-split offset n seq
                  ∙ ap (λ (l : List String). l ++ drop (offset + n) seq)
                      (every_same-eq (slice offset (offset + n) seq) p
                        (length-slice offset n seq (ground arith)) same)
                  ∙ ap (λ (l : List String). p ++ l) ih.3
                  ∙ sym (append_assoc p (repeat ih.0 p) ih.1),
              ih.4,
            )
        | inr other ↦ (
          0,
          drop offset seq,
          rw (fits, other) (ap some (omega arith)),
          refl,
          Stops-at_other offset seq p other,
        )
      ]
      | inr out ↦ (
        0,
        drop offset seq,
        rw out (ap some (omega arith)),
        refl,
        Stops-short offset seq p pos (ground arith),
      )
    ]
