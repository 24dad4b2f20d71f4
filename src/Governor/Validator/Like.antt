-- ===== src/Governor/Validator/Like.antt =====
-- The pattern test of daemon/src/governor/kilo-verified-validator.ts against what a LIKE pattern means.
use repomap_core.Prelude.{
  ℕ, ◌≡◌, ◌≢◌, ◌↔◌, refl, sym, subst, arith, Bool, true, false, not, List, [], ◌∷◌, ◌==◌, ==_iff,
  inl, inr, ||-true, &&-true, Bool-cases,
}
use repomap_core.Governor.Validator.{
  like, percent, underscore, ends_line, from_some_suffix, from_next, from_literal,
}

-- `text` matches `pattern`
pub data Matches : List ℕ → List ℕ → Type 0 where
  nothing : Matches [] []
  literal :
      {p : ℕ} {pattern text : List ℕ}
      → p ≢ percent
      → p ≢ underscore
      → Matches pattern text
      → Matches (p ∷ pattern) (p ∷ text)
  one :
      {c : ℕ} {pattern text : List ℕ}
      → ends_line c ≡ false
      → Matches pattern text
      → Matches (underscore ∷ pattern) (c ∷ text)
  none_more : {pattern text : List ℕ} → Matches pattern text → Matches (percent ∷ pattern) text
  one_more :
      {c : ℕ} {pattern text : List ℕ}
      → ends_line c ≡ false
      → Matches (percent ∷ pattern) text
      → Matches (percent ∷ pattern) (c ∷ text)

not-true : (b : Bool) → not b ≡ true → b ≡ false
not-true true h = cc
not-true false h = refl

like_complete : {pattern text : List ℕ} → Matches pattern text → like pattern text ≡ true
unfolding like
like_complete nothing = refl
like_complete (literal a b m) = ground (arith, like_complete m)
like_complete (one e m) = ground (arith, like_complete m, e)
like_complete (none_more {text = []} m) = like_complete m
like_complete (none_more {text = c ∷ text} m) = ground (arith, like_complete m)
like_complete (one_more e m) = ground (arith, like_complete m, e)

module _ (pattern : List ℕ) (sound : (t : List ℕ) → like pattern t ≡ true → Matches pattern t) where
  suffix-Matches :
      (text : List ℕ)
      → from_some_suffix (like pattern) text ≡ true
      → Matches (percent ∷ pattern) text
  suffix-Matches [] h = none_more (sound [] h)
  suffix-Matches (c ∷ text) h = elim (||-true (like pattern (c ∷ text)) _ h) [
    | inl now ↦ none_more (sound (c ∷ text) now)
    | inr later ↦
        let (inside, rest) = &&-true (not (ends_line c)) _ later in
        one_more (not-true (ends_line c) inside) (suffix-Matches text rest)
  ]

  next-Matches :
      (text : List ℕ) → from_next (like pattern) text ≡ true → Matches (underscore ∷ pattern) text
  next-Matches [] h = cc
  next-Matches (c ∷ text) h =
      let (inside, rest) = &&-true (not (ends_line c)) _ h in
      one (not-true (ends_line c) inside) (sound text rest)

  literal-Matches :
      (p : ℕ) (text : List ℕ)
      → p ≢ percent
      → p ≢ underscore
      → from_literal p (like pattern) text ≡ true
      → Matches (p ∷ pattern) text
  literal-Matches p [] a b h = cc
  literal-Matches p (c ∷ text) a b h =
      let (same, rest) = &&-true (p == c) _ h in
      subst (λ (k : ℕ). Matches (p ∷ pattern) (k ∷ text)) ((==_iff p c).0 same)
        (literal a b (sound text rest))

like_sound : (pattern text : List ℕ) → like pattern text ≡ true → Matches pattern text
unfolding like
like_sound [] [] h = nothing
like_sound [] (c ∷ text) h = cc
like_sound (p ∷ pattern) text h = elim (Bool-cases (p == percent)) [
  | inl e ↦
      subst (λ (k : ℕ). Matches (k ∷ pattern) text) (sym ((==_iff p percent).0 e))
        (suffix-Matches pattern (like_sound pattern) text (rw (e, like) at h))
  | inr e ↦ elim (Bool-cases (p == underscore)) [
    | inl u ↦
        subst (λ (k : ℕ). Matches (k ∷ pattern) text) (sym ((==_iff p underscore).0 u))
          (next-Matches pattern (like_sound pattern) text (rw (e, u, like) at h))
    | inr u ↦
        literal-Matches pattern (like_sound pattern) p text (λ same. ground (arith, e, same))
          (λ same. ground (arith, u, same)) (rw (e, u, like) at h)
  ]
]

-- The test of a pattern holds exactly of the texts that match it: `%` stands for any text and `_` for
-- any character, both without line terminators, and every other character for itself.
pub like-Matches : (pattern text : List ℕ) → (like pattern text ≡ true) ↔ Matches pattern text
like-Matches pattern text = (like_sound pattern text, λ m. like_complete m)
