-- ===== src/Prelude/Slices.antt =====
-- `Array.prototype.slice` from the end.
use Prim.Native.Nat.{ℕ, zero, suc, ◌+◌, ◌-◌, ◌*◌, ◌≤◌}
use mathlib.Core.Path.{◌≡◌, refl, ap, sym, ◌∙◌}
use mathlib.Core.Option.{Option, none, some}
use mathlib.Core.List.{List, [], ◌∷◌, ◌++◌, append_assoc}
use native.Mathlib.Nat.{suc-add}
use native.Mathlib.Omega.{arith}
use repomap_core.Prelude.Tests.{◌==◌, if◌then◌else◌}
use repomap_core.Prelude.Lists.{length, take, drop, get_elem?, length-append, length-drop}

module _ {ℓ} {A : Type ℓ} where
  -- `xs.slice(-n)`: the last n elements, and the whole array at n = 0, since -0 is 0
  abbrev pub slice_last : ℕ → List A → List A
  slice_last n xs = if n == 0 then xs else drop (length xs - n) xs

  pub drop-append : (pre xs : List A) → drop (length pre) (pre ++ xs) ≡ xs
  drop-append [] xs = refl
  drop-append (x ∷ pre) xs = drop-append pre xs

  pub take-append : (pre xs : List A) → take (length pre) (pre ++ xs) ≡ pre
  take-append [] xs = refl
  take-append (x ∷ pre) xs = ap (◌∷◌ x) (take-append pre xs)

  pub drop-append_le :
      (n : ℕ) (xs ys : List A) → n ≤ length xs → drop n (xs ++ ys) ≡ drop n xs ++ ys
  drop-append_le zero xs ys h = refl
  drop-append_le (suc n) [] ys h = absurd (omega arith)
  drop-append_le (suc n) (x ∷ xs) ys h = drop-append_le n xs ys (omega arith)

  pub drop-excess_short : (n : ℕ) (xs : List A) → length xs ≤ n → drop (length xs - n) xs ≡ xs
  drop-excess_short n xs h = ap (λ (k : ℕ). drop k xs) {y = 0} (omega arith)

  pub append-eq-append :
      (xs ys us vs : List A) → length xs ≡ length us → xs ++ ys ≡ us ++ vs → (xs ≡ us) × (ys ≡ vs)
  append-eq-append [] ys [] vs h e = (refl, e)
  append-eq-append [] ys (u ∷ us) vs h e = absurd (omega arith)
  append-eq-append (x ∷ xs) ys [] vs h e = absurd (omega arith)
  append-eq-append (x ∷ xs) ys (u ∷ us) vs h e =
      let rest = append-eq-append xs ys us vs (omega arith) (cc) in (cc, rest.1)

  take-nil : (n : ℕ) → take {A = A} n [] ≡ []
  take-nil zero = refl
  take-nil (suc n) = refl

  drop-nil : (n : ℕ) → drop {A = A} n [] ≡ []
  drop-nil zero = refl
  drop-nil (suc n) = refl

  pub take-add : (m n : ℕ) (xs : List A) → take (m + n) xs ≡ take m xs ++ take n (drop m xs)
  take-add zero n xs = ap (λ (k : ℕ). take k xs) (omega arith)
  take-add (suc m) n [] = rw suc-add (sym (take-nil n))
  take-add (suc m) n (x ∷ xs) = rw suc-add (ap (◌∷◌ x) (take-add m n xs))

  pub take_of-le : (n : ℕ) (xs : List A) → length xs ≤ n → take n xs ≡ xs
  take_of-le zero [] h = refl
  take_of-le zero (x ∷ xs) h = absurd (omega arith)
  take_of-le (suc n) [] h = refl
  take_of-le (suc n) (x ∷ xs) h = ap (◌∷◌ x) (take_of-le n xs (omega arith))

  pub drop-drop : (m n : ℕ) (xs : List A) → drop n (drop m xs) ≡ drop (m + n) xs
  drop-drop zero n xs = ap (λ (k : ℕ). drop k xs) (omega arith)
  drop-drop (suc m) n [] = rw suc-add (drop-nil n)
  drop-drop (suc m) n (x ∷ xs) = rw suc-add (drop-drop m n xs)

  abbrev pub put_first : Option A → List A → List A
  put_first none xs = []
  put_first (some x) xs = x ∷ xs

  -- the next element of a window, and the window after it
  pub take-drop-step :
      (n i : ℕ) (xs : List A)
      → take (suc n) (drop i xs) ≡ put_first (get_elem? xs i) (take n (drop (suc i) xs))
  take-drop-step n zero [] = refl
  take-drop-step n zero (x ∷ xs) = refl
  take-drop-step n (suc i) [] = refl
  take-drop-step n (suc i) (x ∷ xs) = take-drop-step n i xs

  pub take-drop-none :
      (n i : ℕ) (xs : List A) → get_elem? xs i ≡ none → take n (drop (suc i) xs) ≡ []
  take-drop-none n zero [] h = take-nil n
  take-drop-none n zero (x ∷ xs) h = cc
  take-drop-none n (suc i) [] h = take-nil n
  take-drop-none n (suc i) (x ∷ xs) h = take-drop-none n i xs h

  -- a list, so many times over
  abbrev pub repeat : ℕ → List A → List A
  repeat zero xs = []
  repeat (suc n) xs = xs ++ repeat n xs

  pub length-repeat : (n : ℕ) (xs : List A) → length (repeat n xs) ≡ n * length xs
  length-repeat zero xs = omega arith
  length-repeat (suc n) xs = omega (arith, length-append xs (repeat n xs), length-repeat n xs)

  pub repeat-add : (m n : ℕ) (xs : List A) → repeat (m + n) xs ≡ repeat m xs ++ repeat n xs
  repeat-add zero n xs = ap (λ (k : ℕ). repeat k xs) (omega arith)
  repeat-add (suc m) n xs = rw suc-add (
      ap (λ (l : List A). xs ++ l) (repeat-add m n xs)
      ∙ sym (append_assoc xs (repeat m xs) (repeat n xs)))

  -- Trimming to the last n before more entries come changes nothing of the last n after them.
  pub drop-excess-append :
      (n : ℕ) (xs ys : List A)
      → drop (length (drop (length xs - n) xs ++ ys) - n) (drop (length xs - n) xs ++ ys)
        ≡ drop (length (xs ++ ys) - n) (xs ++ ys)
  drop-excess-append n xs ys =
      let k = length xs - n in
      ap (λ (l : List A). drop (length l - n) l) (sym (drop-append_le k xs ys (omega arith)))
      ∙ drop-drop k _ (xs ++ ys)
      ∙ ap (λ (i : ℕ). drop i (xs ++ ys))
          (omega (arith, length-drop k (xs ++ ys), length-append xs ys))
