-- ===== src/Foreman/Selection/Best.antt =====
-- What `selectNextBead` of daemon/src/temporal/foreman.activities.ts selects, against a description of
-- the eligible beads that uses no sets.
use repomap_core.Prelude.{
  ℕ, ◌+◌, ◌≤◌, arith, String, Bool, not, ◌&&◌, ◌||◌, Option, none, some, List, [], ◌∷◌, inl, inr,
  ◌≡◌, refl, sym, ap, subst, ◌∙◌, str_eq, ltb, if◌then◌else◌, is_some, any, keep, All, contains,
  contains-add_new, contains-add_all, add_new, set_of, List-cases,
}
use repomap_core.Foreman.Types.{BeadCandidate, RetryLedgerEntry}
use repomap_core.Foreman.Ledger.{find_entry}
use repomap_core.Foreman.Selection.{
  BdReadyItem, to_bead_candidate, fill_sets, build_retry_selection_sets,
  classify_eligible_candidates, classify_one, sort, head?, pool_of, choose_bead,
}
use repomap_core.Foreman.Selection.Kept.{All-split, All-keep, All-every, IsIn-keep}
use repomap_core.Foreman.Selection.Order.{IsIn, IsLeast, sort_nil, sort-IsLeast, order}

abbrev prepend : Option BeadCandidate → List BeadCandidate → List BeadCandidate
prepend none cs = cs
prepend (some c) cs = c ∷ cs

-- the items that are beads
abbrev pub candidates : List BdReadyItem → List BeadCandidate
candidates [] = []
candidates (raw ∷ items) = prepend (to_bead_candidate raw) (candidates items)

-- an entry that holds a bead back: it is exhausted, or its time has not come
abbrev pub blocks : ℕ → String → RetryLedgerEntry → Bool
blocks now b e = str_eq e.bead_id b && (e.exhausted || ltb now e.next_retry_after)

-- `retryByBeadId.has(candidate.beadId)`
abbrev pub tried : List RetryLedgerEntry → BeadCandidate → Bool
tried ledger c = is_some (find_entry ledger c.bead_id)

module _ (ledger : List RetryLedgerEntry) (skip_list : List String) (now : ℕ) where
  abbrev pub is_eligible : BeadCandidate → Bool
  is_eligible c = not (contains skip_list c.bead_id) && not (any (blocks now c.bead_id) ledger)

  -- the eligible beads that were tried before, and those that were not
  abbrev pub retries : List BeadCandidate → List BeadCandidate
  retries cs = keep (tried ledger) (keep is_eligible cs)

  abbrev pub fresh : List BeadCandidate → List BeadCandidate
  fresh cs = keep (λ c. not (tried ledger c)) (keep is_eligible cs)

fill_sets-blocks :
    (ledger : List RetryLedgerEntry) (now : ℕ) (skip_set pending : List String) (b : String)
    → let sets = fill_sets ledger now skip_set pending in
      (contains sets.0 b || contains sets.1 b)
      ≡ ((contains skip_set b || contains pending b) || any (blocks now b) ledger)
unfolding fill_sets
fill_sets-blocks [] now skip_set pending b = ground arith
fill_sets-blocks (e ∷ ledger) now skip_set pending b = ground (
  arith,
  fill_sets-blocks ledger now (add_new skip_set e.bead_id) pending b,
  fill_sets-blocks ledger now skip_set (add_new pending e.bead_id) b,
  fill_sets-blocks ledger now skip_set pending b,
  contains-add_new skip_set e.bead_id b,
  contains-add_new pending e.bead_id b,
)

sets-block :
    (ledger : List RetryLedgerEntry) (skip_list : List String) (now : ℕ) (b : String)
    → let sets = build_retry_selection_sets ledger skip_list now in
      (contains sets.0 b || contains sets.1 b) ≡ (contains skip_list b || any (blocks now b) ledger)
unfolding build_retry_selection_sets
sets-block ledger skip_list now b =
    ground
      (arith, fill_sets-blocks ledger now (set_of skip_list) [] b, contains-add_all [] skip_list b)

module _ (ledger : List RetryLedgerEntry) (skip_list : List String) (now : ℕ)
    (skip_set pending : List String)
    (blocked : (b : String)
      → (contains skip_set b || contains pending b)
        ≡ (contains skip_list b || any (blocks now b) ledger)) where
  abbrev kept : List BeadCandidate → List BeadCandidate × List BeadCandidate
  kept cs = (retries ledger skip_list now cs, fresh ledger skip_list now cs)

  classify_one-keep :
      (o : Option BeadCandidate) (cs : List BeadCandidate)
      → classify_one ledger skip_set pending o (kept cs) ≡ kept (prepend o cs)
  classify_one-keep none cs = refl
  classify_one-keep (some c) cs = ground (arith, blocked c.bead_id)

  classify-keep :
      (items : List BdReadyItem)
      → classify_eligible_candidates ledger skip_set pending items ≡ kept (candidates items)
  unfolding classify_eligible_candidates
  classify-keep [] = refl
  classify-keep (raw ∷ items) =
      ap (classify_one ledger skip_set pending (to_bead_candidate raw)) (classify-keep items)
      ∙ classify_one-keep (to_bead_candidate raw) (candidates items)

-- the order of the selection: beads tried before come first, then those of a higher priority
abbrev pub rank : List RetryLedgerEntry → BeadCandidate → ℕ
rank ledger c = if is_some (find_entry ledger c.bead_id) then order c else order c + 4

order_le : (c : BeadCandidate) → order c ≤ 3
order_le c = ground arith

nothing : (es : List BeadCandidate) → All (λ d. ⊥) es → es ≡ []
nothing [] h = refl
nothing (x ∷ es) h = absurd h.0

module _ (ledger : List RetryLedgerEntry) (es : List BeadCandidate) where
  -- the least of the tried beads comes before all
  least_tried :
      (c : BeadCandidate)
      → IsLeast c (keep (tried ledger) es)
      → IsIn c es × All (λ d. rank ledger c ≤ rank ledger d) es
  least_tried c (inside, least) =
      let (here, e) = IsIn-keep (tried ledger) c es inside in
      (
        here,
        All-split _ (tried ledger) es
            (All-keep _ (λ d. order c ≤ order d) (tried ledger) es (λ d e' h. ground arith) least)
            (All-every _ (λ d. not (tried ledger d)) es (λ d h. ground (arith, order_le c))),
      )

  -- without a tried bead, the least of the others comes before all
  least_fresh :
      (c : BeadCandidate)
      → keep (tried ledger) es ≡ []
      → IsLeast c (keep (λ d. not (tried ledger d)) es)
      → IsIn c es × All (λ d. rank ledger c ≤ rank ledger d) es
  least_fresh c no_tried (inside, least) =
      let (here, e) = IsIn-keep (λ d. not (tried ledger d)) c es inside in
      (
        here,
        All-split _ (tried ledger) es
            (subst (All (λ d. rank ledger c ≤ rank ledger d)) (sym no_tried) tt)
            (All-keep _ (λ d. order c ≤ order d) (λ d. not (tried ledger d)) es
              (λ d e' h. ground arith) least),
      )

  pool-IsLeast :
      (c : BeadCandidate)
      → head? (sort (pool_of (keep (tried ledger) es) (keep (λ d. not (tried ledger d)) es)))
        ≡ some c
      → IsIn c es × All (λ d. rank ledger c ≤ rank ledger d) es
  pool-IsLeast c h = elim (List-cases (keep (tried ledger) es)) [
    | inl e ↦ least_fresh c e (
        sort-IsLeast (keep (λ d. not (tried ledger d)) es) c
          (ap (λ l. head? (sort (pool_of l (keep (λ d. not (tried ledger d)) es)))) (sym e) ∙ h))
    | inr (x, xs, e) ↦ least_tried c (
        sort-IsLeast (keep (tried ledger) es) c (
          ap (λ l. head? (sort l)) e
          ∙ ap (λ l. head? (sort (pool_of l (keep (λ d. not (tried ledger d)) es)))) (sym e)
          ∙ h))
  ]

  head-none : (cs : List BeadCandidate) → head? (sort cs) ≡ none → cs ≡ []
  head-none cs h = elim (List-cases (sort cs)) [
    | inl e ↦ sort_nil cs e
    | inr (x, xs, e) ↦ cc (h, e)
  ]

  pool-none :
      head? (sort (pool_of (keep (tried ledger) es) (keep (λ d. not (tried ledger d)) es))) ≡ none
      → es ≡ []
  pool-none h = elim (List-cases (keep (tried ledger) es)) [
    | inl e ↦
        let others =
          head-none (keep (λ d. not (tried ledger d)) es) (
            ap (λ l. head? (sort (pool_of l (keep (λ d. not (tried ledger d)) es)))) (sym e) ∙ h) in
        nothing es (
          All-split _ (tried ledger) es (subst (All (λ d. ⊥)) (sym e) tt)
            (subst (All (λ d. ⊥)) (sym others) tt))
    | inr (x, xs, e) ↦
        let none_left =
          head-none (x ∷ xs) (
            ap (λ l. head? (sort (pool_of l (keep (λ d. not (tried ledger d)) es)))) (sym e) ∙ h) in
        cc
  ]

module _ (ledger : List RetryLedgerEntry) (skip_list : List String) (now : ℕ)
    (items : List BdReadyItem) where
  -- the beads among the items that may be dispatched
  abbrev pub eligible : List BeadCandidate
  eligible = keep (is_eligible ledger skip_list now) (candidates items)

  choose_bead-pool :
      choose_bead ledger skip_list now items
      ≡ head? (
          sort (pool_of (keep (tried ledger) eligible) (keep (λ d. not (tried ledger d)) eligible)))
  unfolding choose_bead
  choose_bead-pool =
      let sets = build_retry_selection_sets ledger skip_list now in
      ap (λ found. head? (sort (pool_of found.0 found.1)))
        (classify-keep ledger skip_list now sets.0 sets.1 (sets-block ledger skip_list now) items)

  -- The bead that is selected is eligible: the items have it, it is not on the skip list, and no entry of
  -- the ledger holds it back, being exhausted or not yet due. No eligible bead comes before it, where
  -- beads with an entry come first, and then those of a higher priority: the order of the code, where the
  -- architecture document has the priority first.
  pub choose_bead_best :
      (c : BeadCandidate)
      → choose_bead ledger skip_list now items ≡ some c
      → IsIn c eligible × All (λ d. rank ledger c ≤ rank ledger d) eligible
  choose_bead_best c h = pool-IsLeast ledger eligible c (sym choose_bead-pool ∙ h)

  -- No bead is selected only where none is eligible.
  pub choose_bead-none : choose_bead ledger skip_list now items ≡ none → eligible ≡ []
  choose_bead-none h = pool-none ledger eligible (sym choose_bead-pool ∙ h)
