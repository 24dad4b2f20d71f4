-- ===== src/Foreman/Selection/Order.antt =====
-- The order of the pool in daemon/src/temporal/foreman.activities.ts: the first of the sorted pool has
-- the least priority order.
use repomap_core.Prelude.{
  ℕ, ◌≤◌, arith, some, List, [], ◌∷◌, ◌⊎◌, inl, inr, ◌≡◌, ◌≢◌, refl, sym, ap, subst, ◌∙◌, leb,
  leb→le, Bool-cases, All, List-cases,
}
use repomap_core.Foreman.Types.{BeadCandidate}
use repomap_core.Foreman.Selection.{insert, sort, head?, priority_order}

abbrev pub order : BeadCandidate → ℕ
order c = priority_order c.priority

abbrev pub IsIn : BeadCandidate → List BeadCandidate → Type 0
IsIn c [] = ⊥
IsIn c (d ∷ ds) = (c ≡ d) ⊎ IsIn c ds

-- `c` is in the list, and no member comes before it
abbrev pub IsLeast : BeadCandidate → List BeadCandidate → Type 0
IsLeast c cs = IsIn c cs × All (λ d. order c ≤ order d) cs

All-le :
    (n m : ℕ) (cs : List BeadCandidate)
    → n ≤ m
    → All (λ d. m ≤ order d) cs
    → All (λ d. n ≤ order d) cs
All-le n m [] h all = tt
All-le n m (c ∷ cs) h (first, all) = (omega arith, All-le n m cs h all)

-- what `insert` puts first
insert-cases :
    (c d : BeadCandidate) (ds : List BeadCandidate)
    → ((head? (insert c (d ∷ ds)) ≡ some c) × (order c ≤ order d))
      ⊎ ((head? (insert c (d ∷ ds)) ≡ some d) × (order d ≤ order c))
unfolding insert
insert-cases c d ds = elim (Bool-cases (leb (order c) (order d))) [
  | inl e ↦ inl (rw e refl, leb→le (order c) (order d) e)
  | inr e ↦ inr (rw e refl, ground arith)
]

insert_nonempty : (c : BeadCandidate) (ds : List BeadCandidate) → insert c ds ≢ []
unfolding insert
insert_nonempty c [] h = cc
insert_nonempty c (d ∷ ds) h = elim (Bool-cases (leb (order c) (order d))) [
  | inl e ↦ cc (rw (e, insert) at h)
  | inr e ↦ cc (rw (e, insert) at h)
]

pub sort_nil : (cs : List BeadCandidate) → sort cs ≡ [] → cs ≡ []
unfolding sort
sort_nil [] h = refl
sort_nil (c ∷ cs) h = absurd (insert_nonempty c (sort cs) h)

same_head : (c d : BeadCandidate) → some c ≡ some d → c ≡ d
same_head c d h = cc

pub sort-IsLeast :
    (cs : List BeadCandidate) (c : BeadCandidate) → head? (sort cs) ≡ some c → IsLeast c cs
unfolding sort insert
sort-IsLeast [] c h = cc
sort-IsLeast (x ∷ cs) c h = elim (List-cases (sort cs)) [
  | inl e ↦
      let same = same_head x c (ap (λ s. head? (insert x s)) (sym e) ∙ h) in
      subst (λ k. IsLeast k (x ∷ cs)) same
        (subst (λ l. IsLeast x (x ∷ l)) (sym (sort_nil cs e)) (inl refl, (omega arith, tt)))
  | inr (y, ys, e) ↦
      let least = sort-IsLeast cs y (ap head? e) in
      let found : head? (insert x (y ∷ ys)) ≡ some c = ap (λ s. head? (insert x s)) (sym e) ∙ h in
      elim (insert-cases x y ys) [
        | inl (first, le) ↦
            subst (λ k. IsLeast k (x ∷ cs)) (same_head x c (sym first ∙ found))
              (inl refl, (omega arith, All-le (order x) (order y) cs le least.1))
        | inr (first, le) ↦
            subst (λ k. IsLeast k (x ∷ cs)) (same_head y c (sym first ∙ found))
              (inr least.0, (le, least.1))
      ]
]
