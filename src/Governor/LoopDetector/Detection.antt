-- ===== src/Governor/LoopDetector/Detection.antt =====
-- The four heuristics of daemon/src/governor/loop-detector.ts, their order, and what `ingest` counts.
use repomap_core.Prelude.{
  ℕ, ◌+◌, ◌-◌, ◌≤◌, ◌<◌, ◌≡◌, refl, inl, inr, String, false, Option, none, some, List, arith,
  Option-cases, length, slice_last, set_of,
}
use repomap_core.Prelude.Number.{Number}
use repomap_core.Governor.Types.{
  LoopClassification, step_overflow, cost_overflow, tool_cycle, cache_plateau, LoopDetection,
  cycle_detected,
}
use repomap_core.Governor.LoopDetector.{
  LoopDetector, detect_step_overflow, detect_cost_overflow, detect_tool_cycle, detect_cache_plateau,
  detect, find_cycle, make_detection,
}
use repomap_core.Governor.LoopDetector.Cycle.{EndsInCycle, find_cycle_sound, find_cycle_complete}

module _ (N : Number) where
  -- the configured lengths
  abbrev pub InRange : LoopDetector N → List String → Type 0
  InRange d pattern =
      (d.thresholds.min_cycle_length ≤ length pattern)
      × (length pattern ≤ d.thresholds.max_cycle_length)

  -- the search that `detect_tool_cycle` makes
  abbrev searched : LoopDetector N → Option (ℕ × List String)
  searched d =
      let t = d.thresholds in
      find_cycle d.tool_history t.cycle_repetitions t.min_cycle_length
        (t.max_cycle_length + 1 - t.min_cycle_length)

  abbrev cycle_found : LoopDetector N → ℕ → ℕ → List String → LoopDetection N
  cycle_found d now l p =
      make_detection N d now tool_cycle (cycle_detected p d.thresholds.cycle_repetitions l)

  -- A reported tool cycle is real: the tool history ends in the reported pattern, repeated the
  -- configured number of times, and the length of the pattern lies in the configured range, where
  -- the least length and the number of repetitions are at least 1.
  pub detect_tool_cycle_sound :
      (d : LoopDetector N) (now : ℕ) (found : LoopDetection N)
      → 0 < d.thresholds.cycle_repetitions
      → 0 < d.thresholds.min_cycle_length
      → detect_tool_cycle N d now ≡ some found
      → (pattern : List String) × (found.reason
          ≡ cycle_detected pattern d.thresholds.cycle_repetitions (length pattern))
        × InRange d pattern
        × EndsInCycle d.tool_history d.thresholds.cycle_repetitions pattern
  unfolding detect_tool_cycle
  detect_tool_cycle_sound d now found pr pl h = elim (Option-cases (searched d)) [
    | inl e ↦ cc (rw (e, detect_tool_cycle) at h)
    | inr ((l, p), e) ↦
        let (low, high, size, ends) =
          find_cycle_sound d.tool_history d.thresholds.cycle_repetitions pr
            d.thresholds.min_cycle_length _ l p pl e in
        let same : some (cycle_found d now l p) ≡ some found = rw (e, detect_tool_cycle) at h in
        (p, ground arith, (omega arith, omega arith), ends)
  ]

  -- No tool cycle is missed: where the tool history ends in a pattern of a length in the configured
  -- range, repeated the configured number of times, a cycle is reported, with a pattern that is at
  -- most as long. The least length and the number of repetitions are at least 1.
  pub detect_tool_cycle_complete :
      (d : LoopDetector N) (now : ℕ) (pattern : List String)
      → 0 < d.thresholds.cycle_repetitions
      → 0 < d.thresholds.min_cycle_length
      → InRange d pattern
      → EndsInCycle d.tool_history d.thresholds.cycle_repetitions pattern
      → (found : LoopDetection N) × (shortest : List String) × (l : ℕ) × (detect_tool_cycle N d now
          ≡ some found)
        × (found.reason ≡ cycle_detected shortest d.thresholds.cycle_repetitions l)
        × (l ≤ length pattern)
  unfolding detect_tool_cycle
  detect_tool_cycle_complete d now pattern pr pl range (before, e) =
      let t = d.thresholds in
      let (l, p, found, short) =
        find_cycle_complete d.tool_history t.cycle_repetitions pr before pattern t.min_cycle_length
          (t.max_cycle_length + 1 - t.min_cycle_length) e pl range.0 (omega arith) in
      (cycle_found d now l p, p, l, rw (found, detect_tool_cycle) refl, refl, short)

  -- What each heuristic looks for.
  abbrev pub Over : LoopDetector N → LoopClassification → Type 0
  Over d cost_overflow = N.le d.total_cost d.thresholds.max_cost_usd ≡ false
  Over d step_overflow = d.thresholds.max_steps < d.step_count
  Over d tool_cycle =
      (pattern : List String) × InRange d pattern
      × EndsInCycle d.tool_history d.thresholds.cycle_repetitions pattern
  Over d cache_plateau =
      let t = d.thresholds in
      (t.cache_window_size ≤ length d.source_hashes)
      × (N.le t.cache_plateau_ratio (
            N.over (N.of_ℕ (length (set_of (slice_last t.cache_window_size d.source_hashes))))
              (N.of_ℕ t.cache_window_size))
          ≡ false)

  abbrev pub rank : LoopClassification → ℕ
  rank cost_overflow = 0
  rank step_overflow = 1
  rank tool_cycle = 2
  rank cache_plateau = 3

  -- `r` reports the anomaly `c` exactly when it is there
  record Decides (d : LoopDetector N) (c : LoopClassification) (r : Option (LoopDetection N))
      : Type 0 where
    missing : r ≡ none → ¬ Over d c
    present : (found : LoopDetection N) → r ≡ some found → Over d c × (found.classification ≡ c)

  module _ (d : LoopDetector N) (now : ℕ) where
    cost-Decides : Decides d cost_overflow (detect_cost_overflow N d now)
    unfolding detect_cost_overflow
    cost-Decides = record { missing = λ h o. ground arith; present = λ f h. ground arith }

    step-Decides : Decides d step_overflow (detect_step_overflow N d now)
    unfolding detect_step_overflow
    step-Decides = record { missing = λ h o. ground arith; present = λ f h. ground arith }

    plateau-Decides : Decides d cache_plateau (detect_cache_plateau N d now)
    unfolding detect_cache_plateau
    plateau-Decides = record { missing = λ h o. ground arith; present = λ f h. ground arith }

  cycle_classification :
      (d : LoopDetector N) (now : ℕ) (found : LoopDetection N)
      → detect_tool_cycle N d now ≡ some found
      → found.classification ≡ tool_cycle
  unfolding detect_tool_cycle
  cycle_classification d now found h = ground arith

  module _ (d : LoopDetector N) (now : ℕ) (pr : 0 < d.thresholds.cycle_repetitions)
      (pl : 0 < d.thresholds.min_cycle_length) where
    cycle-Decides : Decides d tool_cycle (detect_tool_cycle N d now)
    cycle-Decides = record {
      missing = λ h (p, range, ends). cc (detect_tool_cycle_complete d now p pr pl range ends).3;
      present = λ f h.
          let (p, _, range, ends) = detect_tool_cycle_sound d now f pr pl h in
          ((p, range, ends), cycle_classification d now f h);
    }

  abbrev pub IsFirst : LoopDetector N → LoopClassification → Type 0
  IsFirst d c = Over d c × ((other : LoopClassification) → rank other < rank c → ¬ Over d other)

  earlier :
      (d : LoopDetector N) (k : ℕ)
      → k ≤ 3
      → (0 < k → ¬ Over d cost_overflow)
      → (1 < k → ¬ Over d step_overflow)
      → (2 < k → ¬ Over d tool_cycle)
      → (other : LoopClassification) → rank other < k
      → ¬ Over d other
  earlier d k top cost step cycle cost_overflow h = cost h
  earlier d k top cost step cycle step_overflow h = step h
  earlier d k top cost step cycle tool_cycle h = cycle h
  earlier d k top cost step cycle cache_plateau h = absurd (omega arith)

  report-IsFirst :
      (d : LoopDetector N) (c : LoopClassification) (r : Option (LoopDetection N))
      (found : LoopDetection N)
      → Decides d c r
      → r ≡ some found
      → ((other : LoopClassification) → rank other < rank c → ¬ Over d other)
      → IsFirst d found.classification
  report-IsFirst d c r found dec e before =
      let (over, same) = dec.present found e in rw same (over, before)

  -- `detect` reports an anomaly that is there, and none that comes before it in the order
  -- cost, steps, tool cycle, cache plateau is there. The least cycle length and the number of
  -- repetitions are at least 1.
  pub detect-IsFirst :
      (d : LoopDetector N) (now : ℕ) (found : LoopDetection N)
      → 0 < d.thresholds.cycle_repetitions
      → 0 < d.thresholds.min_cycle_length
      → detect N d now ≡ some found
      → IsFirst d found.classification
  unfolding detect
  detect-IsFirst d now found pr pl h = elim (Option-cases (detect_cost_overflow N d now)) [
    | inr (f, e) ↦ report-IsFirst d cost_overflow _ found (cost-Decides d now) (ground arith) (
        earlier d 0 (omega arith) (λ l. absurd (omega arith)) (λ l. absurd (omega arith))
          (λ l. absurd (omega arith)))
    | inl no_cost ↦
        let cost = (cost-Decides d now).missing no_cost in
        elim (Option-cases (detect_step_overflow N d now)) [
          | inr (f, e) ↦
              report-IsFirst d step_overflow _ found (step-Decides d now) (ground arith) (
                earlier d 1 (omega arith) (λ l. cost) (λ l. absurd (omega arith))
                  (λ l. absurd (omega arith)))
          | inl no_step ↦
              let step = (step-Decides d now).missing no_step in
              elim (Option-cases (detect_tool_cycle N d now)) [
                | inr (f, e) ↦
                    report-IsFirst d tool_cycle _ found (cycle-Decides d now pr pl) (ground arith) (
                      earlier d 2 (omega arith) (λ l. cost) (λ l. step) (λ l. absurd (omega arith)))
                | inl no_cycle ↦
                    report-IsFirst d cache_plateau (detect_cache_plateau N d now) found
                      (plateau-Decides d now) (ground arith)
                      (earlier d 3 (omega arith) (λ l. cost) (λ l. step)
                        (λ l. (cycle-Decides d now pr pl).missing no_cycle))
              ]
        ]
  ]

  -- `detect` reports nothing only where no anomaly is there. The least cycle length and the number
  -- of repetitions are at least 1.
  pub detect-none :
      (d : LoopDetector N) (now : ℕ)
      → 0 < d.thresholds.cycle_repetitions
      → 0 < d.thresholds.min_cycle_length
      → detect N d now ≡ none
      → (c : LoopClassification) → ¬ Over d c
  unfolding detect
  detect-none d now pr pl h cost_overflow = (cost-Decides d now).missing (ground arith)
  detect-none d now pr pl h step_overflow = (step-Decides d now).missing (ground arith)
  detect-none d now pr pl h tool_cycle = (cycle-Decides d now pr pl).missing (ground arith)
  detect-none d now pr pl h cache_plateau = (plateau-Decides d now).missing (ground arith)
