-- ===== src/Governor/Diagnosis/Chosen.antt =====
-- The choice among the classifiers of daemon/src/governor/diagnosis-engine.ts.
use repomap_core.Prelude.{
  ℕ, ◌≤◌, ◌<◌, ◌≡◌, refl, ◌⊎◌, inl, inr, arith, String, List, [], ◌∷◌, ◌++◌, Option, none, some,
  All, Bool-cases, ltb, ltb→lt, ap,
}
use repomap_core.Governor.Types.{LoopClassification}
use repomap_core.Governor.Diagnosis.{
  DiagnosisCandidate, Reply, fetch_session_parts, build_tool_patterns,
}
use repomap_core.Governor.Diagnosis.Detectors.{
  answers, take_best, fallback, report_of, diagnose_session,
}

abbrev pub IsNone : Option DiagnosisCandidate → Type 0
IsNone o = o ≡ none

-- an answer whose confidence, if it is one, is below the bound
abbrev pub IsBelow : ℕ → Option DiagnosisCandidate → Type 0
IsBelow n none = Unit
IsBelow n (some c) = c.confidence < n

abbrev pub IsAtMost : ℕ → Option DiagnosisCandidate → Type 0
IsAtMost n none = Unit
IsAtMost n (some c) = c.confidence ≤ n

-- the first of the answers with the highest confidence
pub record IsFirstBest (os : List (Option DiagnosisCandidate)) (c : DiagnosisCandidate)
    : Type 0 where
  pub before : List (Option DiagnosisCandidate)
  pub after : List (Option DiagnosisCandidate)
  pub parts : os ≡ before ++ some c ∷ after
  pub above : All (IsBelow c.confidence) before
  pub highest : All (IsAtMost c.confidence) after

-- what the fold has when it holds a candidate: the held one stays, or a better one of the list is taken
abbrev Stays :
    DiagnosisCandidate → List (Option DiagnosisCandidate) → Option DiagnosisCandidate → Type 0
Stays best os o = (o ≡ some best) × All (IsAtMost best.confidence) os

abbrev Taken :
    DiagnosisCandidate → List (Option DiagnosisCandidate) → Option DiagnosisCandidate → Type 0
Taken best os o =
    (c : DiagnosisCandidate) × (o ≡ some c) × (best.confidence < c.confidence) × IsFirstBest os c

prepend :
    (o : Option DiagnosisCandidate) (os : List (Option DiagnosisCandidate)) (c : DiagnosisCandidate)
    → IsBelow c.confidence o
    → IsFirstBest os c
    → IsFirstBest (o ∷ os) c
prepend o os c h f = record {
  before = o ∷ f.before;
  after = f.after;
  parts = ap (◌∷◌ o) f.parts;
  above = (h, f.above);
  highest = f.highest;
}

at_head :
    (c : DiagnosisCandidate) (os : List (Option DiagnosisCandidate))
    → All (IsAtMost c.confidence) os
    → IsFirstBest (some c ∷ os) c
at_head c os h = record { before = []; after = os; parts = refl; above = tt; highest = h }

-- the held candidate gives way to the next answer, or is kept
give_way :
    (best c : DiagnosisCandidate) (os : List (Option DiagnosisCandidate))
    (o : Option DiagnosisCandidate)
    → best.confidence < c.confidence
    → Stays c os o ⊎ Taken c os o
    → Taken best (some c ∷ os) o
give_way best c os o h (inl (e, low)) = (c, e, h, at_head c os low)
give_way best c os o h (inr (c', e, up, first)) =
    (c', e, omega arith, prepend (some c) os c' up first)

hold :
    (best c : DiagnosisCandidate) (os : List (Option DiagnosisCandidate))
    (o : Option DiagnosisCandidate)
    → c.confidence ≤ best.confidence
    → Stays best os o ⊎ Taken best os o
    → Stays best (some c ∷ os) o ⊎ Taken best (some c ∷ os) o
hold best c os o h (inl (e, low)) = inl (e, (h, low))
hold best c os o h (inr (c', e, up, first)) =
    inr (c', e, up, prepend (some c) os c' (omega arith) first)

pass_none :
    (best : DiagnosisCandidate) (os : List (Option DiagnosisCandidate))
    (o : Option DiagnosisCandidate)
    → Stays best os o ⊎ Taken best os o
    → Stays best (none ∷ os) o ⊎ Taken best (none ∷ os) o
pass_none best os o (inl (e, low)) = inl (e, (tt, low))
pass_none best os o (inr (c, e, up, first)) = inr (c, e, up, prepend none os c tt first)

take_best-some :
    (best : DiagnosisCandidate) (os : List (Option DiagnosisCandidate))
    → Stays best os (take_best (some best) os) ⊎ Taken best os (take_best (some best) os)
unfolding take_best
take_best-some best [] = inl (refl, tt)
take_best-some best (none ∷ os) = pass_none best os _ (take_best-some best os)
take_best-some best (some c ∷ os) = elim (Bool-cases (ltb best.confidence c.confidence)) [
  | inl up ↦ rw up (inr (give_way best c os _ (ltb→lt _ _ up) (take_best-some c os)))
  | inr down ↦ rw down (hold best c os _ (ground arith) (take_best-some best os))
]

-- either no classifier answers, or the first of the best answers is taken
abbrev pub Chooses : List (Option DiagnosisCandidate) → Option DiagnosisCandidate → Type 0
Chooses os o =
    (All IsNone os × (o ≡ none)) ⊎ ((c : DiagnosisCandidate) × (o ≡ some c) × IsFirstBest os c)

keep_first :
    (c : DiagnosisCandidate) (os : List (Option DiagnosisCandidate)) (o : Option DiagnosisCandidate)
    → Stays c os o ⊎ Taken c os o
    → Chooses (some c ∷ os) o
keep_first c os o (inl (e, low)) = inr (c, e, at_head c os low)
keep_first c os o (inr (c', e, up, first)) = inr (c', e, prepend (some c) os c' up first)

pass_first :
    (os : List (Option DiagnosisCandidate)) (o : Option DiagnosisCandidate)
    → Chooses os o
    → Chooses (none ∷ os) o
pass_first os o (inl (h, e)) = inl ((refl, h), e)
pass_first os o (inr (c, e, first)) = inr (c, e, prepend none os c tt first)

take_best-Chooses : (os : List (Option DiagnosisCandidate)) → Chooses os (take_best none os)
unfolding take_best
take_best-Chooses [] = inl (tt, refl)
take_best-Chooses (none ∷ os) = pass_first os _ (take_best-Chooses os)
take_best-Chooses (some c ∷ os) = keep_first c os _ (take_best-some c os)

-- Either every classifier is silent and the diagnosis is the fallback, or it is that of a classifier
-- whose confidence no other one exceeds and no earlier one reaches. The report is of the session that
-- was asked for, at the time given, and its tool patterns are those of the session's parts.
pub diagnose_session-IsBest :
    (reply : Reply) (session_id : String) (trigger : LoopClassification) (now : ℕ)
    → let parts = fetch_session_parts reply in
      let report = report_of session_id now (build_tool_patterns parts) in
      (All IsNone (answers parts trigger)
        × (diagnose_session reply session_id trigger now ≡ report fallback))
      ⊎ ((c : DiagnosisCandidate) × (diagnose_session reply session_id trigger now ≡ report c)
          × IsFirstBest (answers parts trigger) c)
unfolding diagnose_session
diagnose_session-IsBest reply session_id trigger now =
    let parts = fetch_session_parts reply in
    elim (take_best-Chooses (answers parts trigger)) [
      | inl (h, e) ↦ inl (h, rw e)
      | inr (c, e, first) ↦ inr (c, rw e, first)
    ]
