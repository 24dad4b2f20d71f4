-- ===== src/Foreman/Selection/Kept.antt =====
-- Members of filtered lists of beads.
use repomap_core.Prelude.{
  Bool, true, false, not, List, [], ◌∷◌, ◌⊎◌, inl, inr, ◌≡◌, refl, ap, ◌∙◌, if◌then◌else◌, keep,
  All,
}
use repomap_core.Foreman.Types.{BeadCandidate}
use repomap_core.Foreman.Selection.Order.{IsIn}

module _ {κ} (P : BeadCandidate → Type κ) where
  -- what holds of a list with `x` and of a list without it
  All-if :
      (b : Bool) (x : BeadCandidate) (ys zs : List BeadCandidate)
      → All P (if b then x ∷ ys else ys)
      → All P (if not b then x ∷ zs else zs)
      → P x × (All P ys × All P zs)
  All-if true x ys zs h k = (h.0, (h.1, k))
  All-if false x ys zs h k = (k.0, (h, k.1))

  -- what holds of those that pass a test and of those that do not holds of all
  pub All-split :
      (p : BeadCandidate → Bool) (xs : List BeadCandidate)
      → All P (keep p xs)
      → All P (keep (λ x. not (p x)) xs)
      → All P xs
  All-split p [] h k = tt
  All-split p (x ∷ xs) h k =
      let (here, (ys, zs)) = All-if (p x) x (keep p xs) (keep (λ y. not (p y)) xs) h k in
      (here, All-split p xs ys zs)

  All-if_every :
      (b : Bool) (x : BeadCandidate) (ys : List BeadCandidate)
      → (b ≡ true → P x)
      → All P ys
      → All P (if b then x ∷ ys else ys)
  All-if_every true x ys f all = (f refl, all)
  All-if_every false x ys f all = all

  pub All-every :
      (p : BeadCandidate → Bool) (xs : List BeadCandidate)
      → ((x : BeadCandidate) → p x ≡ true → P x)
      → All P (keep p xs)
  All-every p [] f = tt
  All-every p (x ∷ xs) f = All-if_every (p x) x (keep p xs) (f x) (All-every p xs f)

  module _ (Q : BeadCandidate → Type κ) where
    All-if_map :
        (b : Bool) (x : BeadCandidate) (ys : List BeadCandidate)
        → (b ≡ true → Q x → P x)
        → (All Q ys → All P ys)
        → All Q (if b then x ∷ ys else ys)
        → All P (if b then x ∷ ys else ys)
    All-if_map true x ys f g h = (f refl h.0, g h.1)
    All-if_map false x ys f g h = g h

    pub All-keep :
        (p : BeadCandidate → Bool) (xs : List BeadCandidate)
        → ((x : BeadCandidate) → p x ≡ true → Q x → P x)
        → All Q (keep p xs)
        → All P (keep p xs)
    All-keep p [] f h = tt
    All-keep p (x ∷ xs) f h = All-if_map (p x) x (keep p xs) (f x) (All-keep p xs f) h

IsIn-if :
    (b : Bool) (c x : BeadCandidate) (ys : List BeadCandidate)
    → IsIn c (if b then x ∷ ys else ys)
    → ((c ≡ x) × (b ≡ true)) ⊎ IsIn c ys
IsIn-if true c x ys (inl h) = inl (h, refl)
IsIn-if true c x ys (inr h) = inr h
IsIn-if false c x ys h = inr h

pub IsIn-keep :
    (p : BeadCandidate → Bool) (c : BeadCandidate) (xs : List BeadCandidate)
    → IsIn c (keep p xs)
    → IsIn c xs × (p c ≡ true)
IsIn-keep p c [] h = absurd h
IsIn-keep p c (x ∷ xs) h = elim (IsIn-if (p x) c x (keep p xs) h) [
  | inl (same, e) ↦ (inl same, ap p same ∙ e)
  | inr below ↦ let (inside, e) = IsIn-keep p c xs below in (inr inside, e)
]
