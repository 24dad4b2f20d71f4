-- ===== src/Governor/Audit/Tells.antt =====
-- What a list of findings of daemon/src/governor/session-audit.ts tells, and how the parts of the list
-- add up.
use repomap_core.Prelude.{
  ◌≡◌, ◌⊎◌, ◌↔◌, inl, inr, refl, sym, ◌∙◌, subst, arith, Bool, true, false, ◌||◌, ||-true, Option,
  some, List, [], ◌∷◌, ◌++◌, any, if◌then◌else◌,
}
use repomap_core.Prelude.Number.{Number}
use repomap_core.Governor.CostBudget.{Answer, done, rejected, out_of_fuel}
use repomap_core.Governor.Audit.{AuditFinding}
use repomap_core.Governor.Audit.Report.{is_critical}

-- what holds of the value where there is one; a search that does not end is ruled out
abbrev pub Ensures : {A : Type 0} → Answer A → (A → Type 0) → Type 0
Ensures (done a) P = P a
Ensures rejected P = Unit
Ensures out_of_fuel P = ⊥

-- the query is answered, and so
abbrev pub Given : {A : Type 0} → Option A → (A → Type 0) → Type 0
Given {A} o P = (a : A) × (o ≡ some a) × P a

pub Given-some : {A : Type 0} (a : A) (P : A → Type 0) → P a ↔ Given (some a) P
Given-some a P = (λ h. (a, refl, h), λ h. subst P (cc) h.2)

module _ (N : Number) where
  -- The findings are none exactly where `Clean`, and have a critical one exactly where `Bad`.
  pub record Tells (fs : List (AuditFinding N)) (Clean Bad : Type 0) : Type 0 where
    pub empty_iff : (fs ≡ []) ↔ Clean
    pub critical_iff : (any (is_critical N) fs ≡ true) ↔ Bad

  pub Tells-nil : Tells [] Unit ⊥
  Tells-nil = record { empty_iff = (λ e. tt, λ e. refl); critical_iff = (λ e. cc, λ e. elim e [ ]) }

  pub Tells-cast :
      (fs gs : List (AuditFinding N)) (C B : Type 0) → fs ≡ gs → Tells fs C B → Tells gs C B
  Tells-cast fs gs C B e t = subst (λ hs. Tells hs C B) e t

  pub Tells-iff :
      (fs : List (AuditFinding N)) (C D B E : Type 0)
      → Tells fs C B
      → (C ↔ D)
      → (B ↔ E)
      → Tells fs D E
  Tells-iff fs C D B E f c b = record {
    empty_iff = (λ h. c.0 (f.empty_iff.0 h), λ h. f.empty_iff.1 (c.1 h));
    critical_iff = (λ h. b.0 (f.critical_iff.0 h), λ h. f.critical_iff.1 (b.1 h));
  }

  any-append :
      (fs gs : List (AuditFinding N))
      → any (is_critical N) (fs ++ gs) ≡ (any (is_critical N) fs || any (is_critical N) gs)
  any-append [] gs = refl
  any-append (f ∷ fs) gs = ground (arith, any-append fs gs)

  append-empty : (fs gs : List (AuditFinding N)) → ((fs ++ gs) ≡ []) ↔ ((fs ≡ []) × (gs ≡ []))
  append-empty [] gs = (λ h. (refl, h), λ h. h.1)
  append-empty (f ∷ fs) gs = (λ h. cc, λ h. cc)

  pub Tells-append :
      (fs gs : List (AuditFinding N)) (C D B E : Type 0)
      → Tells fs C B
      → Tells gs D E
      → Tells (fs ++ gs) (C × D) (B ⊎ E)
  Tells-append fs gs C D B E f g = record {
    empty_iff = (
      λ h. let e = (append-empty fs gs).0 h in (f.empty_iff.0 e.0, g.empty_iff.0 e.1),
      λ h. (append-empty fs gs).1 (f.empty_iff.1 h.0, g.empty_iff.1 h.1),
    );
    critical_iff = (
      λ h. elim (||-true _ _ (sym (any-append fs gs) ∙ h)) [
        | inl b ↦ inl (f.critical_iff.0 b)
        | inr e ↦ inr (g.critical_iff.0 e)
      ],
      λ h. elim h [
        | inl b ↦ ground (arith, any-append fs gs, f.critical_iff.1 b)
        | inr e ↦ ground (arith, any-append fs gs, g.critical_iff.1 e)
      ],
    );
  }

  -- with findings before, or after, of which none is critical
  pub Tells-after :
      (fs gs : List (AuditFinding N)) (C D E : Type 0)
      → Tells fs C ⊥
      → Tells gs D E
      → Tells (fs ++ gs) (C × D) E
  Tells-after fs gs C D E f g =
      Tells-iff (fs ++ gs) (C × D) (C × D) (⊥ ⊎ E) E (Tells-append fs gs C D ⊥ E f g)
        ((λ h. h), (λ h. h)) ((λ h. elim h [ inl b ↦ absurd b | inr e ↦ e ]), (λ e. inr e))

  pub Tells-before :
      (fs gs : List (AuditFinding N)) (C D B : Type 0)
      → Tells fs C B
      → Tells gs D ⊥
      → Tells (fs ++ gs) (C × D) B
  Tells-before fs gs C D B f g =
      Tells-iff (fs ++ gs) (C × D) (C × D) (B ⊎ ⊥) B (Tells-append fs gs C D B ⊥ f g)
        ((λ h. h), (λ h. h)) ((λ h. elim h [ inl b ↦ b | inr e ↦ absurd e ]), (λ b. inl b))

  -- one finding under a test
  pub Tells-critical :
      (b : Bool) (f : AuditFinding N)
      → is_critical N f ≡ true
      → Tells (if b then f ∷ [] else []) (b ≡ false) (b ≡ true)
  Tells-critical true f c = record {
    empty_iff = (λ e. cc, λ e. cc);
    critical_iff = (λ e. refl, λ e. ground arith);
  }
  Tells-critical false f c = record {
    empty_iff = (λ e. refl, λ e. refl);
    critical_iff = (λ e. e, λ e. e);
  }

  pub Tells-warning :
      (b : Bool) (f : AuditFinding N)
      → is_critical N f ≡ false
      → Tells (if b then f ∷ [] else []) (b ≡ false) ⊥
  Tells-warning true f c = record {
    empty_iff = (λ e. cc, λ e. cc);
    critical_iff = (λ e. ground arith, λ e. elim e [ ]);
  }
  Tells-warning false f c = record {
    empty_iff = (λ e. refl, λ e. refl);
    critical_iff = (λ e. cc, λ e. elim e [ ]);
  }

  -- a critical finding, or else a warning
  pub Tells-else :
      (a b : Bool) (f g : AuditFinding N)
      → is_critical N f ≡ true
      → is_critical N g ≡ false
      → Tells
          (if a then f ∷ [] else if b then g ∷ [] else [])
          ((a ≡ false) × (b ≡ false))
          (a ≡ true)
  Tells-else true b f g cf cg = record {
    empty_iff = (λ e. cc, λ e. cc);
    critical_iff = (λ e. refl, λ e. ground arith);
  }
  Tells-else false b f g cf cg =
      Tells-iff _ _ _ _ _ (Tells-warning b g cg) ((λ e. (refl, e)), (λ e. e.1))
        ((λ e. elim e [ ]), (λ e. cc))

  -- a warning, or else another
  pub Tells-either :
      (a b : Bool) (f g : AuditFinding N)
      → is_critical N f ≡ false
      → is_critical N g ≡ false
      → Tells (if a then f ∷ [] else if b then g ∷ [] else []) ((a ≡ false) × (b ≡ false)) ⊥
  Tells-either true b f g cf cg = record {
    empty_iff = (λ e. cc, λ e. cc);
    critical_iff = (λ e. ground arith, λ e. elim e [ ]);
  }
  Tells-either false b f g cf cg =
      Tells-iff _ _ _ _ _ (Tells-warning b g cg) ((λ e. (refl, e)), (λ e. e.1)) ((λ e. e), (λ e. e))
