-- ===== src/Infra/LandPlane/Landing.antt =====
-- When `landPlane` of daemon/src/infra/land-plane.ts lands, and which commands it has run then.
use mathlib.Core.List.{append_assoc, append-nil}
use repomap_core.Prelude.{
  ℕ, suc, ◌<◌, ◌≡◌, ◌↔◌, ◌⊎◌, inl, inr, refl, sym, ◌∙◌, ap, subst, arith, Bool, true, false, Option,
  none, some, List, [], ◌∷◌, ◌++◌, map, take, if◌then◌else◌, or_else, last?, Bool-cases,
}
use repomap_core.Infra.LandPlane.{
  GateDefinition, LandPlaneConfig, GateStatus, pass, fail, fault, GateResult, LandPlaneOptions,
  LandPlaneResult, Command, Machine, status_of_exit, is_pass,
}
use repomap_core.Infra.LandPlane.Exec.{
  World, run_gates, gate_result, stopped, stopped_by, is_zero_status, preflight_command,
  preflight_script, run_preflight, verify_and_land, run_gates_and_land, land_plane,
}
use repomap_core.Infra.LandPlane.Proving.{
  Zero, Succeeds, after_gates, after, gate, Pass, IsProven, Lands, Landing, verify_and_land_lem,
}

stopped_pass : (l : GateResult) (s : GateStatus) → is_pass s ≡ true → stopped l s ≡ none
stopped_pass l pass h = refl
stopped_pass l fail h = cc
stopped_pass l fault h = cc

stopped_other :
    (l : GateResult) (s : GateStatus)
    → is_pass s ≡ false
    → (r : LandPlaneResult) × (stopped l s ≡ some r) × (0 < r.exit_code)
stopped_other l pass h = cc
stopped_other l fail h = (_, refl, omega arith)
stopped_other l fault h = (_, refl, omega arith)

stopped_by-cons :
    (r : GateResult) (rs : List GateResult)
    → is_pass r.status ≡ true
    → stopped_by (last? (r ∷ rs)) ≡ stopped_by (last? rs)
stopped_by-cons r [] h = stopped_pass r r.status h
stopped_by-cons r (x ∷ rs) h = refl

is_pass-status_of_exit :
    (status : Option ℕ) → is_pass (status_of_exit (or_else status 1)) ≡ is_zero_status status
is_pass-status_of_exit none = refl
is_pass-status_of_exit (some n) = ground arith

module _ (T : Machine) (o : LandPlaneOptions) (c : LandPlaneConfig) where
  -- the gates passed and all ran, or one of them failed and is the last that ran
  record GatesEnd (gates : List GateDefinition) (w : World T) (out : List GateResult × World T)
      : Type 0 where
    count : ℕ
    ran_eq : out.1.ran ≡ w.ran ++ map (gate T o c) (take count gates)
    ends :
        ((stopped_by (last? out.0) ≡ none)
          × Pass T o c gates w.machine
          × (out.1.machine ≡ after_gates T o c gates w.machine))
        ⊎ ((¬ Pass T o c gates w.machine)
            × (r : LandPlaneResult) × (stopped_by (last? out.0) ≡ some r)
            × (0 < r.exit_code))

  run_gates_lem :
      (gates : List GateDefinition) (w : World T)
      → GatesEnd gates w (run_gates T c o.bead_id o.run_timestamp gates w)
  unfolding run_gates
  run_gates_lem [] w = record {
    count = 0;
    ran_eq = sym (append-nil w.ran);
    ends = inl (refl, tt, refl);
  }
  run_gates_lem (g ∷ gates) w =
      let w1 : World T = record {
        machine = after T o c w.machine (gate T o c g);
        ran = w.ran ++ gate T o c g ∷ [];
      } in
      let ih = run_gates_lem gates w1 in
      let later = (run_gates T c o.bead_id o.run_timestamp gates w1).0 in
      let status = (T.spawn w.machine (gate T o c g)).0 in
      let first = gate_result g (or_else status 1) in
      elim (Bool-cases (is_zero_status status)) [
        | inl passes ↦
            let e : is_pass (status_of_exit (or_else status 1)) ≡ true =
              is_pass-status_of_exit status ∙ passes in
            rw e (record {
              count = suc ih.count;
              ran_eq =
                  ih.ran_eq
                  ∙ append_assoc w.ran (gate T o c g ∷ []) (map (gate T o c) (take ih.count gates));
              ends = elim ih.ends [
                | inl (none_left, all, m) ↦
                    inl (stopped_by-cons first later e ∙ none_left, (passes, all), m)
                | inr (not_all, r, stop, code) ↦
                    inr (λ h. not_all h.1, r, stopped_by-cons first later e ∙ stop, code)
              ];
            })
        | inr fails ↦
            let e : is_pass (status_of_exit (or_else status 1)) ≡ false =
              is_pass-status_of_exit status ∙ fails in
            let (r, stop, code) = stopped_other first (status_of_exit (or_else status 1)) e in
            rw e (record { count = 1; ran_eq = refl; ends = inr (λ h. cc, r, stop, code) })
      ]

  -- the way to the audit proof is free
  abbrev pub IsCleared : (T.State → Type 0) → T.State → Type 0
  IsCleared P s =
      ((o.skip_gates ≡ true) × P s)
      ⊎ ((o.skip_gates ≡ false) × Pass T o c c.gates s × P (after_gates T o c c.gates s))

  record Goes (w : World T) (out : Option LandPlaneResult × World T) : Type 0 where
    zero_iff : Zero out.0 ↔ IsCleared (Lands T o c) w.machine
    count : ℕ
    tail : List Command
    ran_eq : out.1.ran ≡ w.ran ++ (map (gate T o c) (take count c.gates) ++ tail)
    tail_case : (tail ≡ []) ⊎ (IsCleared (IsProven T o c) w.machine × Landing T o c tail)

  skipping_lem : (w : World T) → o.skip_gates ≡ true → Goes w (verify_and_land T o c w)
  skipping_lem w skip =
      let p = verify_and_land_lem T o c w in
      record {
        zero_iff = (
          λ h. inl (skip, p.zero_iff.0 h),
          λ h. elim h [ inl (a, lands) ↦ p.zero_iff.1 lands | inr (a, all, lands) ↦ cc ],
        );
        count = 0;
        tail = p.tail;
        ran_eq = p.ran_eq;
        tail_case = elim p.tail_case [ inl e ↦ inl e | inr (a, e) ↦ inr (inl (skip, a), e) ];
      }

  gates_lem : (w : World T) → o.skip_gates ≡ false → Goes w (run_gates_and_land T o c w)
  unfolding run_gates_and_land
  gates_lem w skip =
      let g = run_gates_lem c.gates w in
      let w1 = (run_gates T c o.bead_id o.run_timestamp c.gates w).1 in
      elim g.ends [
        | inl (go_on, all, m) ↦
            let p = verify_and_land_lem T o c w1 in
            rw go_on (record {
              zero_iff = (
                λ h. inr (skip, all, subst (Lands T o c) m (p.zero_iff.0 h)),
                λ h. elim h [
                  | inl (a, lands) ↦ cc
                  | inr (a, b, lands) ↦ p.zero_iff.1 (subst (Lands T o c) (sym m) lands)
                ],
              );
              count = g.count;
              tail = p.tail;
              ran_eq =
                  p.ran_eq
                  ∙ ap (λ (l : List Command). l ++ p.tail) g.ran_eq
                  ∙ append_assoc w.ran (map (gate T o c) (take g.count c.gates)) p.tail;
              tail_case = elim p.tail_case [
                | inl e ↦ inl e
                | inr (a, e) ↦ inr (inr (skip, all, subst (IsProven T o c) m a), e)
              ];
            })
        | inr (not_all, r, stop, code) ↦ rw stop (record {
          zero_iff = (
            λ h. absurd (omega arith),
            λ h. elim h [ inl (a, lands) ↦ cc | inr (a, b, lands) ↦ absurd (not_all b) ],
          );
          count = g.count;
          tail = [];
          ran_eq =
              g.ran_eq
              ∙ ap (λ (l : List Command). w.ran ++ l)
                  (sym (append-nil (map (gate T o c) (take g.count c.gates))));
          tail_case = inl refl;
        })
      ]

  phase_lem :
      (w : World T)
      → Goes w ((if o.skip_gates then verify_and_land T o c else run_gates_and_land T o c) w)
  phase_lem w =
      let phase =
        λ (b : Bool). Goes w ((if b then verify_and_land T o c else run_gates_and_land T o c) w) in
      elim (Bool-cases o.skip_gates) [
        | inl skip ↦ subst phase (sym skip) (skipping_lem w skip)
        | inr no_skip ↦ subst phase (sym no_skip) (gates_lem w no_skip)
      ]

  -- the world after the preflight check
  abbrev ready : World T → World T
  ready w = record {
    machine = after T o c w.machine (preflight_command T c);
    ran = w.ran ++ preflight_command T c ∷ [];
  }

  -- The preflight check succeeds, the gates pass or are skipped, and then the landing goes through.
  abbrev pub IsLandable : T.State → Type 0
  IsLandable s =
      (T.exists s (preflight_script T c) ≡ true)
      × Succeeds T o c s (preflight_command T c)
      × IsCleared (Lands T o c) (after T o c s (preflight_command T c))

  -- `landPlane` returns the exit code 0 exactly where the preflight script is there and succeeds, each
  -- gate passes in order or the gates are skipped, the audit log then has a line with a pass record
  -- for this bead and this run for every required gate and no line that is null, and the sync is
  -- switched off or succeeds after the bead is closed. The state of the machine is followed through
  -- the processes that run.
  pub land_plane-Zero : (w : World T) → Zero (land_plane T o c w).0 ↔ IsLandable w.machine
  unfolding land_plane run_preflight
  land_plane-Zero w = elim (Bool-cases (T.exists w.machine (preflight_script T c))) [
    | inr missing ↦ rw missing (λ h. absurd (omega arith), λ h. cc)
    | inl there ↦ elim (Bool-cases (is_zero_status (T.spawn w.machine (preflight_command T c)).0)) [
      | inr fails ↦ rw (there, fails) (λ h. absurd (omega arith), λ h. cc)
      | inl passes ↦
          let p = phase_lem (ready w) in
          rw (there, passes) (λ h. (refl, refl, p.zero_iff.0 h), λ h. p.zero_iff.1 h.2)
    ]
  ]

  -- Whatever `landPlane` returns, and also where it throws: the commands that it ran are the preflight
  -- script at most, then a first part of the gates in order, and then nothing or the landing: closing
  -- the bead, with or without a sync after it. The landing is there only if the preflight script
  -- succeeded, the gates all passed or were skipped, and the audit log held the proof at that point.
  pub land_plane-closes :
      (w : World T)
      → (started : List Command) × (tail : List Command) × (count : ℕ) × ((land_plane T o c w).1.ran
          ≡ w.ran ++ (started ++ (map (gate T o c) (take count c.gates) ++ tail)))
        × ((started ≡ []) ⊎ (started ≡ preflight_command T c ∷ []))
        × ((tail ≡ [])
            ⊎ (Succeeds T o c w.machine (preflight_command T c)
                × IsCleared (IsProven T o c) (after T o c w.machine (preflight_command T c))
                × Landing T o c tail))
  unfolding land_plane run_preflight
  land_plane-closes w = elim (Bool-cases (T.exists w.machine (preflight_script T c))) [
    | inr missing ↦ rw missing ([], [], 0, sym (append-nil w.ran), inl refl, inl refl)
    | inl there ↦ elim (Bool-cases (is_zero_status (T.spawn w.machine (preflight_command T c)).0)) [
      | inr fails ↦ rw (there, fails) (preflight_command T c ∷ [], [], 0, refl, inr refl, inl refl)
      | inl passes ↦
          let p = phase_lem (ready w) in
          rw (there, passes)
            (
              preflight_command T c ∷ [],
              p.tail,
              p.count,
              p.ran_eq
                  ∙ append_assoc w.ran (preflight_command T c ∷ [])
                      (map (gate T o c) (take p.count c.gates) ++ p.tail),
              inr refl,
              elim p.tail_case [ inl e ↦ inl e | inr (a, e) ↦ inr (refl, a, e) ],
            )
    ]
  ]
