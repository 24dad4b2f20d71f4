-- ===== src/Governor/LoopDetector/Cycle.antt =====
-- The tool cycle search of daemon/src/governor/loop-detector.ts against what a cycle is: a history
-- that ends in some pattern, repeated so many times.
use repomap_core.Prelude.{
  ℕ, zero, suc, ◌+◌, ◌-◌, ◌*◌, ◌≤◌, ◌<◌, ◌≡◌, ◌≢◌, refl, sym, ap, ap₂, subst, ◌∙◌, ◌↔◌, inl, inr,
  String, Bool, true, false, Option, none, some, List, [], ◌∷◌, ◌++◌, arith, str_eq, eq_iff,
  if◌then◌else◌, Bool-cases, Option-cases, length, take, drop, get_elem?, slice_last, repeat,
  length-append, length-take, length-drop, length-repeat, take-append-drop, drop-append, take-add,
  take_of-le, drop-drop, take-drop-step, take-drop-none, take-append, put_first, if-then-false_iff,
}
use native.Mathlib.Nat.{add-suc, add-zero, zero-mul}
use repomap_core.Governor.LoopDetector.{
  same_tool, row_repeats, rows_repeat, cycle_of_length, find_cycle,
}

same_tool_iff : (a b : Option String) → (same_tool a b ≡ true) ↔ (a ≡ b)
same_tool_iff none none = (λ _. refl, λ _. refl)
same_tool_iff none (some b) = (λ h. cc, λ h. cc)
same_tool_iff (some a) none = (λ h. cc, λ h. cc)
same_tool_iff (some a) (some b) = (λ h. ap some ((eq_iff a b).0 h), λ h. (eq_iff a b).1 (cc))

window_step :
    (a b : Option String) (rest : Bool) (us vs : List String)
    → (a ≡ none → us ≡ [])
    → (b ≡ none → vs ≡ [])
    → ((rest ≡ true) ↔ (us ≡ vs))
    → ((if same_tool a b then rest else false) ≡ true) ↔ (put_first a us ≡ put_first b vs)
window_step none none rest us vs ea eb h = (λ _. refl, λ _. h.1 (ea refl ∙ sym (eb refl)))
window_step none (some b) rest us vs ea eb h = (λ e. cc, λ e. cc)
window_step (some a) none rest us vs ea eb h = (λ e. cc, λ e. cc)
window_step (some a) (some b) rest us vs ea eb h = elim (Bool-cases (str_eq a b)) [
  | inl e ↦ rw e (λ r. ap₂ ◌∷◌ ((eq_iff a b).0 e) (h.0 r), λ q. h.1 (cc))
  | inr e ↦ rw e (λ r. cc, λ q. cc ((eq_iff a b).1 (cc)))
]

mul_suc_left : (n k : ℕ) → suc n * k ≡ k + n * k
mul_suc_left n k = grind arith

next_row : (rep k : ℕ) → rep * k + k ≡ suc rep * k
next_row rep k = grind arith

-- One row agrees with the pattern exactly when its window of the tail does.
row_repeats_iff :
    (t p : List String) (base i n : ℕ)
    → (row_repeats t p base i n ≡ true) ↔ (take n (drop (base + i) t) ≡ take n (drop i p))
unfolding row_repeats
row_repeats_iff t p base i zero = (λ _. refl, λ _. refl)
row_repeats_iff t p base i (suc n) =
    rw (take-drop-step n (base + i) t, take-drop-step n i p)
      (window_step (get_elem? t (base + i)) (get_elem? p i) (row_repeats t p base (suc i) n)
        (take n (drop (suc (base + i)) t)) (take n (drop (suc i) p)) (take-drop-none n (base + i) t)
        (take-drop-none n i p) (rw (← add-suc) (row_repeats_iff t p base (suc i) n)))

-- The same, for the row that stands at `base`.
row_iff :
    (t p : List String) (base : ℕ)
    → (row_repeats t p base 0 (length p) ≡ true) ↔ (take (length p) (drop base t) ≡ p)
row_iff t p base =
    subst
      (λ (q : List String).
        (row_repeats t p base 0 (length p) ≡ true) ↔ (take (length p) (drop base t) ≡ q))
      (take_of-le (length p) p (omega arith))
      (subst
        (λ (k : ℕ).
          (row_repeats t p base 0 (length p) ≡ true)
          ↔ (take (length p) (drop k t) ≡ take (length p) p))
        (add-zero base) (row_repeats_iff t p base 0 (length p)))

-- The rows from `rep` on agree with the pattern exactly when they are repetitions of it.
rows_repeat_sound :
    (t p : List String) (rep n : ℕ)
    → rows_repeat t p (length p) rep n ≡ true
    → take (n * length p) (drop (rep * length p) t) ≡ repeat n p
unfolding rows_repeat
rows_repeat_sound t p rep zero h = rw zero-mul refl
rows_repeat_sound t p rep (suc n) h =
    let (row, rows) = (if-then-false_iff _ _).0 h in
    ap (λ (k : ℕ). take k (drop (rep * length p) t)) (mul_suc_left n (length p))
    ∙ take-add (length p) (n * length p) (drop (rep * length p) t)
    ∙ ap₂ ◌++◌ ((row_iff t p (rep * length p)).0 row) (
        rw (drop-drop (rep * length p) (length p) t, next_row rep (length p))
          (rows_repeat_sound t p (suc rep) n rows))

rows_repeat_complete :
    (t p : List String) (rep n : ℕ)
    → drop (rep * length p) t ≡ repeat n p
    → rows_repeat t p (length p) rep n ≡ true
unfolding rows_repeat
rows_repeat_complete t p rep zero h = refl
rows_repeat_complete t p rep (suc n) h = (if-then-false_iff _ _).1 (
  (row_iff t p (rep * length p)).1 (ap (take (length p)) h ∙ take-append p (repeat n p)),
  rows_repeat_complete t p (suc rep) n (
      rw (← next_row rep (length p), ← drop-drop (rep * length p) (length p) t)
        (ap (drop (length p)) h ∙ drop-append p (repeat n p))),
)

-- A tail of the right length whose rows agree is its own beginning, repeated.
tail_sound :
    (t : List String) (r len : ℕ)
    → length t ≡ suc r * len
    → rows_repeat t (take len t) len 1 r ≡ true
    → (length (take len t) ≡ len) × (t ≡ repeat (suc r) (take len t))
tail_sound t r len size rows = (first, whole)
  where
    first : length (take len t) ≡ len
    first = grind (arith, length-take len t)

    others : take (r * len) (drop (1 * len) t) ≡ repeat r (take len t)
    others =
        subst (λ (k : ℕ). take (r * k) (drop (1 * k) t) ≡ repeat r (take len t)) first
          (rows_repeat_sound t (take len t) 1 r
            (subst (λ (k : ℕ). rows_repeat t (take len t) k 1 r ≡ true) (sym first) rows))

    rest : drop len t ≡ repeat r (take len t)
    rest =
        sym (take_of-le (r * len) (drop len t) (grind (arith, length-drop len t)))
        ∙ ap (λ (k : ℕ). take (r * len) (drop k t)) {y = 1 * len} (omega arith)
        ∙ others

    whole : t ≡ repeat (suc r) (take len t)
    whole = sym (take-append-drop len t) ∙ ap (◌++◌ (take len t)) rest

-- `history` ends in `pattern`, so many times over.
abbrev pub EndsInCycle : List String → ℕ → List String → Type 0
EndsInCycle history repetitions pattern =
    (before : List String) × (history ≡ before ++ repeat repetitions pattern)

slice_last_pos : (n : ℕ) (xs : List String) → 0 < n → slice_last n xs ≡ drop (length xs - n) xs
slice_last_pos n xs h = ground arith

swapped : (len r : ℕ) → len * suc r ≡ suc r * len
swapped len r = grind arith

needed_pos : (len r : ℕ) → 0 < len → 0 < len * suc r
needed_pos len r h = grind arith

-- What a pattern found at one length says of the last `len * suc r` entries.
module _ (history : List String) (r len : ℕ) (pl : 0 < len) where
  abbrev cycle_tail : List String
  cycle_tail = drop (length history - len * suc r) history

  cycle_of_length-inv :
      (pattern : List String)
      → cycle_of_length history (suc r) len ≡ some pattern
      → (len * suc r ≤ length history)
        × (rows_repeat cycle_tail (take len cycle_tail) len 1 r ≡ true)
        × (take len cycle_tail ≡ pattern)
  unfolding cycle_of_length
  cycle_of_length-inv pattern h =
      ground (arith, needed_pos len r pl, slice_last_pos (len * suc r) history)

pub cycle_of_length_sound :
    (history : List String) (repetitions len : ℕ) (pattern : List String)
    → 0 < repetitions
    → 0 < len
    → cycle_of_length history repetitions len ≡ some pattern
    → (length pattern ≡ len) × EndsInCycle history repetitions pattern
cycle_of_length_sound history zero len pattern pr pl h = absurd (omega arith)
cycle_of_length_sound history (suc r) len pattern pr pl h =
    let t = cycle_tail history r len pl in
    let (fits, rows, e) = cycle_of_length-inv history r len pl pattern h in
    let (size, whole) =
      tail_sound t r len (grind (arith, length-drop (length history - len * suc r) history)) rows in
    subst (λ (p : List String). (length p ≡ len) × EndsInCycle history (suc r) p) e
      (
        size,
        (
          take (length history - len * suc r) history,
          sym (take-append-drop _ history)
              ∙ ap (◌++◌ (take (length history - len * suc r) history)) whole,
        ),
      )

-- The last entries of a history that ends in a cycle are the cycle.
slice_last-cycle :
    (before pattern : List String) (r : ℕ)
    → 0 < length pattern
    → slice_last (length pattern * suc r) (before ++ repeat (suc r) pattern)
      ≡ repeat (suc r) pattern
slice_last-cycle before pattern r pl =
    slice_last_pos (length pattern * suc r) (before ++ repeat (suc r) pattern)
      (needed_pos (length pattern) r pl)
    ∙ ap (λ (k : ℕ). drop k (before ++ repeat (suc r) pattern)) {y = length before}
        (grind
          (arith, length-append before (repeat (suc r) pattern), length-repeat (suc r) pattern))
    ∙ drop-append before (repeat (suc r) pattern)

rows_repeat-cycle :
    (pattern : List String) (r : ℕ)
    → rows_repeat (repeat (suc r) pattern) pattern (length pattern) 1 r ≡ true
rows_repeat-cycle pattern r = rows_repeat_complete (repeat (suc r) pattern) pattern 1 r (
    ap (λ (k : ℕ). drop k (repeat (suc r) pattern)) {y = length pattern} (omega arith)
    ∙ drop-append pattern (repeat r pattern))

pub cycle_of_length_complete :
    (before pattern : List String) (repetitions : ℕ)
    → 0 < repetitions
    → 0 < length pattern
    → cycle_of_length (before ++ repeat repetitions pattern) repetitions (length pattern)
      ≡ some pattern
unfolding cycle_of_length
cycle_of_length_complete before pattern zero pr pl = absurd (omega arith)
cycle_of_length_complete before pattern (suc r) pr pl = ground (
  arith,
  slice_last-cycle before pattern r pl,
  rows_repeat-cycle pattern r,
  take-append pattern (repeat r pattern),
  length-append before (repeat (suc r) pattern),
  length-repeat (suc r) pattern,
  swapped (length pattern) r,
)

module _ (history : List String) (repetitions : ℕ) (pr : 0 < repetitions) where
  pub find_cycle_sound :
      (len rounds l : ℕ) (pattern : List String)
      → 0 < len
      → find_cycle history repetitions len rounds ≡ some (l, pattern)
      → (len ≤ l)
        × (l < len + rounds)
        × (length pattern ≡ l)
        × EndsInCycle history repetitions pattern
  unfolding find_cycle
  find_cycle_sound len zero l pattern pl h = cc
  find_cycle_sound len (suc rounds) l pattern pl h =
      elim (Option-cases (cycle_of_length history repetitions len)) [
        | inl e ↦
            let (low, high, size, ends) =
              find_cycle_sound (suc len) rounds l pattern (omega arith) (rw (e, find_cycle) at h) in
            (omega arith, omega arith, size, ends)
        | inr (p, e) ↦
            let found : ◌≡◌ {A = Option (ℕ × List String)} (some (len, p)) (some (l, pattern)) =
              rw (e, find_cycle) at h in
            let (size, ends) =
              cycle_of_length_sound history repetitions len pattern pr pl (e ∙ cc) in
            (ground arith, ground arith, ground arith, ends)
      ]

  -- The first length that is found is at most that of any pattern in the range.
  pub find_cycle_complete :
      (before pattern : List String) (len rounds : ℕ)
      → history ≡ before ++ repeat repetitions pattern
      → 0 < len
      → len ≤ length pattern
      → length pattern < len + rounds
      → (l : ℕ) × (p : List String) × (find_cycle history repetitions len rounds ≡ some (l, p))
        × (l ≤ length pattern)
  unfolding find_cycle
  find_cycle_complete before pattern len zero e pl low high = absurd (omega arith)
  find_cycle_complete before pattern len (suc rounds) e pl low high =
      elim (Option-cases (cycle_of_length history repetitions len)) [
        | inr (p, found) ↦ (len, p, rw (found, find_cycle) refl, low)
        | inl missing ↦
            let longer : len ≢ length pattern = λ same. cc (
              cycle_of_length_complete before pattern repetitions pr (omega arith),
              ap (λ (h : List String). cycle_of_length h repetitions (length pattern)) e,
              ap (cycle_of_length history repetitions) same,
            ) in
            let (l, p, found, short) =
              find_cycle_complete before pattern (suc len) rounds e (omega arith) (omega arith)
                (omega arith) in
            (l, p, rw (missing, find_cycle) found, short)
      ]
