-- ===== src/Governor/Audit/Clean.antt =====
-- When each detector of daemon/src/governor/session-audit.ts finds nothing, and when something
-- critical.
use repomap_core.Prelude.{
  ℕ, ◌<◌, ◌≡◌, ◌⊎◌, ◌↔◌, inl, inr, refl, arith, String, true, false, Option, none, some, List, [],
  ◌∷◌, ◌++◌, All, Some, ◌==◌, if◌then◌else◌,
}
use repomap_core.Prelude.Number.{Number}
use repomap_core.Governor.CostBudget.{Answer, done, rejected, out_of_fuel, ◌>>=◌, query}
use repomap_core.Governor.Audit.{
  warning, critical, AuditFinding, Dolt, child_without_punches, child_without_gate,
}
use repomap_core.Governor.Audit.Detectors.{
  finding, key_pattern, detect_missing_quality_gates, missing_gate, check_children, child_finding,
}
use repomap_core.Governor.Audit.Tells.{
  Ensures, Given, Given-some, Tells, Tells-nil, Tells-cast, Tells-iff, Tells-append, Tells-critical,
  Tells-else,
}

abbrev pub both_iff : (A B C D : Type 0) → (A ↔ B) → (C ↔ D) → (A × C) ↔ (B × D)
both_iff A B C D f g = (λ h. (f.0 h.0, g.0 h.1), λ h. (f.1 h.0, g.1 h.1))

abbrev pub either_iff : (A B C D : Type 0) → (A ↔ B) → (C ↔ D) → (A ⊎ C) ↔ (B ⊎ D)
either_iff A B C D f g = (
  λ h. elim h [ inl a ↦ inl (f.0 a) | inr c ↦ inr (g.0 c) ],
  λ h. elim h [ inl a ↦ inl (f.1 a) | inr c ↦ inr (g.1 c) ],
)

abbrev same : (A : Type 0) → A ↔ A
same A = (λ a. a, λ a. a)

abbrev pub IsPositive : ℕ → Type 0
IsPositive n = 0 < n

abbrev pub IsZero : ℕ → Type 0
IsZero n = n ≡ 0

IsPositive-iff : (n : ℕ) → ((n == 0) ≡ false) ↔ Given (some n) IsPositive
IsPositive-iff n = (λ h. (n, refl, ground arith), λ h. ground arith)

IsZero-iff : (n : ℕ) → ((n == 0) ≡ true) ↔ Given (some n) IsZero
IsZero-iff n = (λ h. (n, refl, ground arith), λ h. ground arith)

module _ (N : Number) (db : Dolt N) (sid : String) where
  -- the quality gate has a record
  abbrev pub HasGate : List ℕ → Type 0
  HasGate gate = Given (db.gate_count sid (key_pattern gate)) IsPositive

  abbrev pub LacksGate : List ℕ → Type 0
  LacksGate gate = Given (db.gate_count sid (key_pattern gate)) IsZero

  gates_step :
      (gate : List ℕ) (o : Option ℕ) (rest : Answer (List (AuditFinding N))) (C B : Type 0)
      → Ensures rest (λ fs. Tells N fs C B)
      → Ensures
          (do
            count ← query o
            findings ← rest
            done (if count == 0 then missing_gate N gate ∷ findings else findings))
          (λ fs. Tells N fs (Given o IsPositive × C) (Given o IsZero ⊎ B))
  gates_step gate none rest C B h = tt
  gates_step gate (some n) rejected C B h = tt
  gates_step gate (some n) out_of_fuel C B h = h
  gates_step gate (some n) (done fs) C B h =
      Tells-cast N ((if n == 0 then missing_gate N gate ∷ [] else []) ++ fs) _ _ _ (ground arith) (
        Tells-iff N _ _ _ _ _
          (Tells-append N _ fs _ C _ B (Tells-critical N (n == 0) (missing_gate N gate) refl) h)
          (both_iff _ _ _ _ (IsPositive-iff n) (same C))
          (either_iff _ _ _ _ (IsZero-iff n) (same B)))

  pub gates_lem :
      (gates : List (List ℕ))
      → Ensures
          (detect_missing_quality_gates N db gates sid)
          (λ fs. Tells N fs (All HasGate gates) (Some LacksGate gates))
  unfolding detect_missing_quality_gates
  gates_lem [] = Tells-nil N
  gates_lem (gate ∷ gates) =
      gates_step gate (db.gate_count sid (key_pattern gate))
        (detect_missing_quality_gates N db gates sid) _ _ (gates_lem gates)

  -- The child has punches, and among them one of a quality gate.
  abbrev pub IsComplete : String → Type 0
  IsComplete child_id = Given (db.child_status child_id) (λ s. (0 < s.0) × (0 < s.1))

  abbrev pub IsIdle : String → Type 0
  IsIdle child_id = Given (db.child_status child_id) (λ s. s.0 ≡ 0)

  complete_iff :
      (p g : ℕ)
      → (((p == 0) ≡ false) × ((g == 0) ≡ false))
        ↔ Given {A = ℕ × ℕ} (some (p, g)) (λ s. (0 < s.0) × (0 < s.1))
  complete_iff p g = (
    λ h. ((p, g), refl, (ground arith, ground arith)),
    λ h.
        let k = (Given-some {A = ℕ × ℕ} (p, g) (λ s. (0 < s.0) × (0 < s.1))).1 h in
        (ground arith, ground arith),
  )

  idle_iff : (p g : ℕ) → ((p == 0) ≡ true) ↔ Given {A = ℕ × ℕ} (some (p, g)) (λ s. s.0 ≡ 0)
  idle_iff p g = (
    λ h. ((p, g), refl, ground arith),
    λ h. let k = (Given-some {A = ℕ × ℕ} (p, g) (λ s. s.0 ≡ 0)).1 h in ground arith,
  )

  child_step :
      (child_id : String) (o : Option (ℕ × ℕ)) (rest : Answer (List (AuditFinding N)))
      (C B : Type 0)
      → Ensures rest (λ fs. Tells N fs C B)
      → Ensures
          (do
            status ← query o
            findings ← rest
            done (child_finding N sid child_id status findings))
          (λ fs. Tells N fs (Given o (λ s. (0 < s.0) × (0 < s.1)) × C) (Given o (λ s. s.0 ≡ 0) ⊎ B))
  child_step id none rest C B h = tt
  child_step id (some (p, g)) rejected C B h = tt
  child_step id (some (p, g)) out_of_fuel C B h = h
  child_step id (some (p, g)) (done fs) C B h =
      let worst = finding N critical (child_without_punches sid id) in
      let bad = finding N warning (child_without_gate sid id p) in
      Tells-cast N ((if p == 0 then worst ∷ [] else if g == 0 then bad ∷ [] else []) ++ fs) _ _ _
        (ground arith)
        (Tells-iff N _ _ _ _ _
          (Tells-append N _ fs _ C _ B (Tells-else N (p == 0) (g == 0) worst bad refl refl) h)
          (both_iff _ _ _ _ (complete_iff p g) (same C))
          (either_iff _ _ _ _ (idle_iff p g) (same B)))

  pub children_lem :
      (ids : List String)
      → Ensures
          (check_children N db sid ids)
          (λ fs. Tells N fs (All IsComplete ids) (Some IsIdle ids))
  unfolding check_children
  children_lem [] = Tells-nil N
  children_lem (id ∷ ids) =
      child_step id (db.child_status id) (check_children N db sid ids) _ _ (children_lem ids)
