-- ===== src/Infra/LandPlane/Exec.antt =====
-- The operations of daemon/src/infra/land-plane.ts.
use mathlib.Core.Option
use repomap_core.Prelude.{
  ℕ, ◌+◌, ◌*◌, String, Bool, true, false, not, Option, none, some, List, [], ◌∷◌, ◌++◌, map, ◌==◌,
  if◌then◌else◌, or_else, contains, keep, last?, length,
}
use repomap_core.Prelude.Text.{codes}
use repomap_core.Infra.LandPlane.{
  GateDefinition, LandPlaneConfig, Parsed, malformed, null_value, value, GateStatus, pass, fail,
  fault, GateResult, AuditProofResult, LandPlaneOptions, Summary, preflight_failed, sync_failed,
  gate_faulted, gate_failed, audit_proof_missing, landed, LandPlaneResult, text, number, part,
  Command, Machine, split_spaces, split_lines, trim, is_pass_of, add_gate, status_of_exit, is_pass,
}

abbrev pub gate_command : LandPlaneConfig → String → String → GateDefinition → Command
gate_command config bead_id run_timestamp gate = record {
  program = config.python_bin;
  arguments =
      text config.bounded_gate_py
      ∷ text "--gate-id"
      ∷ text gate.gate_id
      ∷ text "--bead-id"
      ∷ text bead_id
      ∷ text "--run-timestamp"
      ∷ text run_timestamp
      ∷ text "--timeout-seconds"
      ∷ number gate.timeout_seconds
      ∷ text "--stall-seconds"
      ∷ number gate.stall_seconds
      ∷ text "--pass-through"
      ∷ text "--cwd"
      ∷ text config.root_dir
      ∷ text "--"
      ∷ map part (split_spaces false (codes gate.command));
  cwd = config.root_dir;
  timeout_ms = (gate.timeout_seconds + 30) * 1000;
}

-- `closeBeadSync`
abbrev pub close_command : LandPlaneConfig → String → Command
close_command config bead_id = record {
  program = config.bd_bin;
  arguments = text "close" ∷ text bead_id ∷ [];
  cwd = config.root_dir;
  timeout_ms = 30000;
}

abbrev pub sync_command : LandPlaneConfig → Command
sync_command config = record {
  program = config.bd_bin;
  arguments = text "sync" ∷ [];
  cwd = config.root_dir;
  timeout_ms = 60000;
}

abbrev pub gate_result : GateDefinition → ℕ → GateResult
gate_result gate exit_code = record {
  gate_id = gate.gate_id;
  exit_code = exit_code;
  status = status_of_exit exit_code;
}

abbrev pub result : ℕ → Summary → LandPlaneResult
result code s = record { exit_code = code; summary = s }

-- the early returns after the gates
abbrev pub stopped : GateResult → GateStatus → Option LandPlaneResult
stopped last pass = none
stopped last fault = some (result 2 (gate_faulted last.gate_id))
stopped last fail = some (result 1 (gate_failed last.gate_id))

abbrev pub stopped_by : Option GateResult → Option LandPlaneResult
stopped_by none = none
stopped_by (some last) = stopped last last.status

abbrev pub is_zero_status : Option ℕ → Bool
is_zero_status none = false
is_zero_status (some code) = code == 0

module _ (T : Machine) where
  pub record World : Type 0 where
    pub machine : T.State
    pub ran : List Command

  abbrev pub M : Type 0 → Type 0
  M A = World → A × World

  infixl 5 ◌>>=◌
  abbrev pub ◌>>=◌ : {A B : Type 0} → M A → (A → M B) → M B
  ◌>>=◌ m f w = f (m w).0 (m w).1

  abbrev pub pure : {A : Type 0} → A → M A
  pure a w = (a, w)

  -- `spawnSync(...).status`
  abbrev pub spawn : Command → M (Option ℕ)
  spawn command w = (
    (T.spawn w.machine command).0,
    record { machine = (T.spawn w.machine command).1; ran = w.ran ++ command ∷ [] },
  )

  abbrev pub run_gate : LandPlaneConfig → String → String → GateDefinition → M GateResult
  run_gate config bead_id run_timestamp gate = do
    status ← spawn (gate_command config bead_id run_timestamp gate)
    pure (gate_result gate (or_else status 1))

  -- the results up to the first that is no pass
  unfoldable pub run_gates :
      LandPlaneConfig → String → String → List GateDefinition → M (List GateResult)
  run_gates config bead_id run_timestamp [] = pure []
  run_gates config bead_id run_timestamp (gate ∷ gates) =
      let rest = run_gates config bead_id run_timestamp gates in
      do
        result ← run_gate config bead_id run_timestamp gate
        if is_pass result.status
            then (do results ← rest; pure (result ∷ results))
            else pure (result ∷ [])

  -- one parsed line; `none` where reading a field of it throws
  abbrev pub add_record : String → String → Parsed → List String → Option (List String)
  add_record bead_id run_timestamp malformed found = some found
  add_record bead_id run_timestamp null_value found = none
  add_record bead_id run_timestamp (value r) found =
      some (if is_pass_of bead_id run_timestamp r then add_gate r.gate_id found else found)

  abbrev pub add_line : String → String → List ℕ → List String → Option (List String)
  add_line bead_id run_timestamp trimmed found =
      if length trimmed == 0
      then some found
      else add_record bead_id run_timestamp (T.parse trimmed) found

  abbrev pub and_next : {A B : Type 0} → Option A → (A → Option B) → Option B
  and_next none f = none
  and_next (some a) f = f a

  -- the loop over the lines
  unfoldable pub found_gates : String → String → List (List ℕ) → List String → Option (List String)
  found_gates bead_id run_timestamp [] found = some found
  found_gates bead_id run_timestamp (line ∷ lines) found =
      and_next (add_line bead_id run_timestamp (trim line) found)
        λ found'. found_gates bead_id run_timestamp lines found'

  abbrev pub proof_of : LandPlaneConfig → List String → AuditProofResult
  proof_of config found =
      let missing = keep (λ id. not (contains found id)) config.required_gate_ids in
      if length missing == 0
      then record { ok = true; missing_gates = [] }
      else record { ok = false; missing_gates = missing }

  abbrev pub proof_in :
      LandPlaneConfig → String → String → Option (List ℕ) → Option AuditProofResult
  proof_in config bead_id run_timestamp none = none
  proof_in config bead_id run_timestamp (some content) =
      Option.map (proof_of config) (found_gates bead_id run_timestamp (split_lines content) [])

  -- `none` where it throws
  unfoldable pub verify_audit_proof :
      LandPlaneConfig → String → String → M (Option AuditProofResult)
  unfolding found_gates
  verify_audit_proof config bead_id run_timestamp w =
      pure
        (if T.exists w.machine config.audit_log_path
          then proof_in config bead_id run_timestamp (T.read w.machine config.audit_log_path)
          else some (record { ok = false; missing_gates = config.required_gate_ids }))
        w

  -- a failure is ignored
  unfoldable pub close_bead : String → LandPlaneConfig → M Bool
  close_bead bead_id config = do status ← spawn (close_command config bead_id); pure true

  unfoldable pub sync_beads : LandPlaneConfig → M Bool
  sync_beads config = do status ← spawn (sync_command config); pure (is_zero_status status)

  abbrev pub preflight_script : LandPlaneConfig → String
  preflight_script config = T.join config.root_dir ".kilocode/tools/beads_preflight.sh"

  abbrev pub preflight_command : LandPlaneConfig → Command
  preflight_command config = record {
    program = "bash";
    arguments = text (preflight_script config) ∷ [];
    cwd = config.root_dir;
    timeout_ms = 10000;
  }

  unfoldable pub run_preflight : LandPlaneConfig → M Bool
  run_preflight config w =
      if T.exists w.machine (preflight_script config)
      then (do status ← spawn (preflight_command config); pure (is_zero_status status)) w
      else pure false w

  abbrev pub if_synced : Bool → LandPlaneResult → M (Option LandPlaneResult)
  if_synced true r = pure (some r)
  if_synced false r = pure (some (result 4 sync_failed))

  -- from the audit proof on; `none` where it throws
  unfoldable pub land_proven :
      LandPlaneOptions → LandPlaneConfig → Option AuditProofResult → M (Option LandPlaneResult)
  unfolding close_bead sync_beads
  land_proven options config none = pure none
  land_proven options config (some proof) =
      let success = result 0 (landed options.bead_id options.run_timestamp (not options.no_sync)) in
      if not proof.ok then pure (some (result 3 (audit_proof_missing proof.missing_gates))) else (do
        closed ← close_bead options.bead_id config
        if options.no_sync
            then pure (some success)
            else (do synced ← sync_beads config; if_synced synced success))

  unfoldable pub verify_and_land : LandPlaneOptions → LandPlaneConfig → M (Option LandPlaneResult)
  unfolding verify_audit_proof land_proven
  verify_and_land options config = do
    proof ← verify_audit_proof config options.bead_id options.run_timestamp
    land_proven options config proof

  abbrev pub or_return :
      Option LandPlaneResult → M (Option LandPlaneResult) → M (Option LandPlaneResult)
  or_return none go_on = go_on
  or_return (some r) go_on = pure (some r)

  unfoldable pub run_gates_and_land :
      LandPlaneOptions → LandPlaneConfig → M (Option LandPlaneResult)
  unfolding run_gates verify_and_land
  run_gates_and_land options config = do
    results ← run_gates config options.bead_id options.run_timestamp config.gates
    or_return (stopped_by (last? results)) (verify_and_land options config)

  unfoldable pub land_plane : LandPlaneOptions → LandPlaneConfig → M (Option LandPlaneResult)
  unfolding run_preflight run_gates_and_land
  land_plane options config = do
    ready ← run_preflight config
    if not ready
        then pure (some (result 2 preflight_failed))
        else if options.skip_gates
        then verify_and_land options config
        else run_gates_and_land options config
