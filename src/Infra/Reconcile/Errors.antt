-- ===== src/Infra/Reconcile/Errors.antt =====
-- `sanitizeError` of daemon/src/infra/pr-reconcile.ts.
use repomap_core.Prelude.{
  ℕ, zero, suc, ◌+◌, ◌≤◌, ◌≡◌, refl, if-either, if-cases, arith, Bool, true, false, ◌&&◌, ◌==◌,
  List, [], ◌∷◌, ◌++◌, length, take, length-append, length-take, ltb, if◌then◌else◌, All,
}
use repomap_core.Infra.LandPlane.{is_space, trim, trim_start, trim_end}
use repomap_core.Infra.Reconcile.{collapse, sanitize_error, ellipsis}

-- the only white space is the space
abbrev pub IsOneLine : List ℕ → Type 0
IsOneLine text = All (λ c. is_space c ≡ true → c ≡ 32) text

collapse-IsOneLine : (b : Bool) (text : List ℕ) → IsOneLine (collapse b text)
unfolding collapse
collapse-IsOneLine b [] = tt
collapse-IsOneLine b (c ∷ cs) =
    let ih = collapse-IsOneLine (is_space c) cs in
    let rest = collapse (is_space c) cs in
    let this : is_space c ≡ false → is_space c ≡ true → c ≡ 32 = λ f t. cc in
    let both : IsOneLine (if b then rest else 32 ∷ rest) =
      if-either IsOneLine b rest (32 ∷ rest) ih (λ h. refl, ih) in
    if-cases IsOneLine (is_space c) _ _ (λ t. both) (λ f. (this f, ih))

trim_start-IsOneLine : (text : List ℕ) → IsOneLine text → IsOneLine (trim_start text)
trim_start-IsOneLine [] h = tt
trim_start-IsOneLine (c ∷ cs) h =
    if-either IsOneLine (is_space c) _ _ (trim_start-IsOneLine cs h.1) h

trim_end-IsOneLine : (text : List ℕ) → IsOneLine text → IsOneLine (trim_end text)
trim_end-IsOneLine [] h = tt
trim_end-IsOneLine (c ∷ cs) h =
    if-either IsOneLine (is_space c && length (trim_end cs) == 0) _ _ tt
      (h.0, trim_end-IsOneLine cs h.1)

cut-IsOneLine : (n : ℕ) (text : List ℕ) → IsOneLine text → IsOneLine (take n text ++ ellipsis ∷ [])
cut-IsOneLine zero text h = (λ e. cc, tt)
cut-IsOneLine (suc n) [] h = (λ e. cc, tt)
cut-IsOneLine (suc n) (c ∷ cs) h = (h.0, cut-IsOneLine n cs h.1)

-- A cleaned error has at most one unit more than the limit, and of all white space it holds only
-- spaces, whatever the message was.
pub sanitize_error-IsOneLine :
    (msg : List ℕ) (max_len : ℕ)
    → (length (sanitize_error msg max_len) ≤ max_len + 1) × IsOneLine (sanitize_error msg max_len)
unfolding sanitize_error trim
sanitize_error-IsOneLine msg max_len =
    let collapsed = trim (collapse false msg) in
    let clean : IsOneLine collapsed =
      trim_end-IsOneLine (trim_start (collapse false msg))
        (trim_start-IsOneLine (collapse false msg) (collapse-IsOneLine false msg)) in
    (
      ground (
        arith,
        length-append (take max_len collapsed) (ellipsis ∷ []),
        length-take max_len collapsed,
      ),
      if-either IsOneLine (ltb max_len (length collapsed)) _ _
          (cut-IsOneLine max_len collapsed clean) clean,
    )
