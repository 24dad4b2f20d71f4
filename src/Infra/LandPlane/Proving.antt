-- ===== src/Infra/LandPlane/Proving.antt =====
-- What `landPlane` of daemon/src/infra/land-plane.ts does from the audit proof on.
use mathlib.Core.List.{append_assoc, append-nil}
use repomap_core.Prelude.{
  ℕ, ◌≡◌, ◌↔◌, ◌⊎◌, inl, inr, refl, sym, subst, arith, true, Option, none, some, List, [], ◌∷◌,
  ◌++◌, Bool-cases, Option-cases,
}
use repomap_core.Infra.LandPlane.{
  GateDefinition, LandPlaneConfig, AuditProofResult, LandPlaneOptions, LandPlaneResult, Command,
  Machine,
}
use repomap_core.Infra.LandPlane.Exec.{
  World, is_zero_status, gate_command, close_command, sync_command, verify_audit_proof, close_bead,
  sync_beads, land_proven, verify_and_land,
}
use repomap_core.Infra.LandPlane.Proof.{IsOk, Accepts, proof_in_iff}

-- the exit code is 0
abbrev pub Zero : Option LandPlaneResult → Type 0
Zero none = ⊥
Zero (some r) = r.exit_code ≡ 0

module _ (T : Machine) (o : LandPlaneOptions) (c : LandPlaneConfig) where
  -- the process ends with status 0
  abbrev pub Succeeds : T.State → Command → Type 0
  Succeeds s command = is_zero_status (T.spawn s command).0 ≡ true

  abbrev pub after : T.State → Command → T.State
  after s command = (T.spawn s command).1

  abbrev pub gate : GateDefinition → Command
  gate g = gate_command c o.bead_id o.run_timestamp g

  abbrev pub close : Command
  close = close_command c o.bead_id

  -- each of the gates passes, in order
  abbrev pub Pass : List GateDefinition → T.State → Type 0
  Pass [] s = Unit
  Pass (g ∷ gates) s = Succeeds s (gate g) × Pass gates (after s (gate g))

  abbrev pub after_gates : List GateDefinition → T.State → T.State
  after_gates [] s = s
  after_gates (g ∷ gates) s = after_gates gates (after s (gate g))

  -- the audit log holds the proof
  abbrev pub IsProven : T.State → Type 0
  IsProven s =
      (T.exists s c.audit_log_path ≡ true)
      × (content : List ℕ) × (T.read s c.audit_log_path ≡ some content)
      × Accepts T o.bead_id o.run_timestamp c content

  -- a proof, and a sync that is switched off or succeeds after the bead is closed
  abbrev pub Lands : T.State → Type 0
  Lands s = IsProven s × ((o.no_sync ≡ true) ⊎ Succeeds (after s close) (sync_command c))

  verify_iff :
      (w : World T)
      → IsOk (verify_audit_proof T c o.bead_id o.run_timestamp w).0 ↔ IsProven w.machine
  unfolding verify_audit_proof
  verify_iff w = elim (Bool-cases (T.exists w.machine c.audit_log_path)) [
    | inl there ↦ elim (Option-cases (T.read w.machine c.audit_log_path)) [
      | inl fails ↦ rw (there, fails) (λ h. absurd h, λ h. cc)
      | inr (content, reads) ↦
          let both = proof_in_iff T o.bead_id o.run_timestamp c content in
          rw (there, reads)
            (
              λ h. (refl, content, refl, both.0 h),
              λ h. both.1 (subst (Accepts T o.bead_id o.run_timestamp c) {x = h.1} (cc) h.3),
            )
    ]
    | inr missing ↦ rw missing (λ h. cc, λ h. cc)
  ]

  abbrev pub Synced : T.State → Type 0
  Synced s = (o.no_sync ≡ true) ⊎ Succeeds (after s close) (sync_command c)

  -- the commands of a landing
  abbrev pub Landing : List Command → Type 0
  Landing tail = (tail ≡ close ∷ []) ⊎ (tail ≡ close ∷ sync_command c ∷ [])

  pub record Proceeds (proven : Type 0) (w : World T) (out : Option LandPlaneResult × World T)
      : Type 0 where
    pub zero_iff : Zero out.0 ↔ (proven × Synced w.machine)
    pub tail : List Command
    pub ran_eq : out.1.ran ≡ w.ran ++ tail
    pub tail_case : (tail ≡ []) ⊎ (proven × Landing tail)

  land_proven_lem :
      (proof : Option AuditProofResult) (w : World T)
      → Proceeds (IsOk proof) w (land_proven T o c proof w)
  unfolding land_proven close_bead sync_beads
  land_proven_lem none w = record {
    zero_iff = (λ h. absurd h, λ h. absurd h.0);
    tail = [];
    ran_eq = sym (append-nil w.ran);
    tail_case = inl refl;
  }
  land_proven_lem (some proof) w = elim (Bool-cases proof.ok) [
    | inr bad ↦ rw bad (record {
      zero_iff = (λ h. absurd (omega arith), λ h. cc);
      tail = [];
      ran_eq = sym (append-nil w.ran);
      tail_case = inl refl;
    })
    | inl good ↦ elim (Bool-cases o.no_sync) [
      | inl off ↦
          rw (good, off)
            (record {
              zero_iff = (λ h. (refl, inl refl), λ h. refl);
              tail = close ∷ [];
              ran_eq = refl;
              tail_case = inr (refl, inl refl);
            })
      | inr on ↦
          elim (Bool-cases (is_zero_status (T.spawn (after w.machine close) (sync_command c)).0)) [
            | inl synced ↦
                rw (good, on, synced)
                  (record {
                    zero_iff = (λ h. (refl, inr synced), λ h. refl);
                    tail = close ∷ sync_command c ∷ [];
                    ran_eq = append_assoc w.ran (close ∷ []) (sync_command c ∷ []);
                    tail_case = inr (refl, inr refl);
                  })
            | inr unsynced ↦
                rw (good, on, unsynced)
                  (record {
                    zero_iff =
                        (λ h. absurd (omega arith), λ h. elim h.1 [ inl a ↦ cc | inr b ↦ cc ]);
                    tail = close ∷ sync_command c ∷ [];
                    ran_eq = append_assoc w.ran (close ∷ []) (sync_command c ∷ []);
                    tail_case = inr (refl, inr refl);
                  })
          ]
    ]
  ]

  Proceeds-iff :
      (P Q : Type 0) (w : World T) (out : Option LandPlaneResult × World T)
      → (P ↔ Q)
      → Proceeds P w out
      → Proceeds Q w out
  Proceeds-iff P Q w out f p = record {
    zero_iff = (λ h. let (a, b) = p.zero_iff.0 h in (f.0 a, b), λ h. p.zero_iff.1 (f.1 h.0, h.1));
    tail = p.tail;
    ran_eq = p.ran_eq;
    tail_case = elim p.tail_case [ inl e ↦ inl e | inr (a, e) ↦ inr (f.0 a, e) ];
  }

  pub verify_and_land_lem :
      (w : World T) → Proceeds (IsProven w.machine) w (verify_and_land T o c w)
  unfolding verify_and_land verify_audit_proof
  verify_and_land_lem w =
      Proceeds-iff _ _ _ _ (verify_iff w)
        (land_proven_lem (verify_audit_proof T c o.bead_id o.run_timestamp w).0 w)
