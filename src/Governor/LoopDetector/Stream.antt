-- ===== src/Governor/LoopDetector/Stream.antt =====
-- What `ingest` of daemon/src/governor/loop-detector.ts has counted after a stream of punches.
use mathlib.Core.List.{append-nil, append_assoc}
use repomap_core.Prelude.{
  ◌+◌, ◌≡◌, refl, sym, ap, ◌∙◌, String, Bool, none, some, List, [], ◌∷◌, ◌++◌, arith, str_eq,
  or_else, Bool-cases, inl, inr, length, keep, map,
}
use repomap_core.Prelude.Number.{Number}
use repomap_core.Governor.Types.{Punch}
use repomap_core.Governor.LoopDetector.{LoopDetector, ingest, ingest_all}

map-keep-cons {ℓ} :
    {A : Type ℓ} (f : A → String) (test : A → Bool) (x : A) (xs : List A)
    → map f (keep test (x ∷ xs)) ≡ map f (keep test (x ∷ [])) ++ map f (keep test xs)
map-keep-cons f test x xs = elim (Bool-cases (test x)) [ inl e ↦ rw e refl | inr e ↦ rw e refl ]

module _ (N : Number) where
  -- What a detector knows after a stream of punches.
  abbrev pub is_tool : Punch N → Bool
  is_tool p = str_eq p.punch_type "tool_call"

  abbrev pub is_step : Punch N → Bool
  is_step p = str_eq p.punch_type "step_complete"

  abbrev pub hash_of : Punch N → String
  hash_of p = or_else p.content_hash p.source_hash

  abbrev pub cost_after : N.Carrier → List (Punch N) → N.Carrier
  cost_after c [] = c
  cost_after c (p ∷ ps) = cost_after (elim p.cost [ none ↦ c | some k ↦ N.plus c k ]) ps

  pub record Totals (before after : LoopDetector N) (ps : List (Punch N)) : Type 0 where
    pub steps : after.step_count ≡ before.step_count + length (keep is_step ps)
    pub tools : after.tool_call_count ≡ before.tool_call_count + length (keep is_tool ps)
    pub history :
        after.tool_history ≡ before.tool_history ++ map (λ p. p.punch_key) (keep is_tool ps)
    pub hashes : after.source_hashes ≡ before.source_hashes ++ map hash_of ps
    pub cost : after.total_cost ≡ cost_after before.total_cost ps
    pub same_thresholds : after.thresholds ≡ before.thresholds

  ingest_one : (d : LoopDetector N) (p : Punch N) → Totals d (ingest N d p) (p ∷ [])
  unfolding ingest
  ingest_one d p = record {
    steps = ground arith;
    tools = ground arith;
    history = ground (arith, append-nil d.tool_history);
    hashes = ground arith;
    cost = ground arith;
    same_thresholds = ground arith;
  }

  -- The counters, the two histories and the cost of a detector after a stream of punches are those
  -- before it and those of the stream, in its order; the thresholds do not change.
  pub ingest_all-Totals :
      (d : LoopDetector N) (ps : List (Punch N)) → Totals d (ingest_all N d ps) ps
  unfolding ingest_all
  ingest_all-Totals d [] = record {
    steps = omega arith;
    tools = omega arith;
    history = sym (append-nil d.tool_history);
    hashes = sym (append-nil d.source_hashes);
    cost = refl;
    same_thresholds = refl;
  }
  ingest_all-Totals d (p ∷ ps) =
      let one = ingest_one d p in
      let rest = ingest_all-Totals (ingest N d p) ps in
      record {
        steps = ground (arith, one.steps, rest.steps);
        tools = ground (arith, one.tools, rest.tools);
        history =
            rest.history
            ∙ ap (λ h. h ++ map (λ q. q.punch_key) (keep is_tool ps)) one.history
            ∙ append_assoc d.tool_history _ _
            ∙ ap (◌++◌ d.tool_history) (sym (map-keep-cons (λ q. q.punch_key) is_tool p ps));
        hashes = ground (
          arith,
          one.hashes,
          rest.hashes,
          append_assoc d.source_hashes (hash_of p ∷ []) (map hash_of ps),
        );
        cost = rest.cost ∙ ap (λ c. cost_after c ps) one.cost;
        same_thresholds = rest.same_thresholds ∙ one.same_thresholds;
      }
