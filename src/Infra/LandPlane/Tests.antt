-- ===== src/Infra/LandPlane/Tests.antt =====
-- Runs of `landPlane` of daemon/src/infra/land-plane.ts on a machine that counts its processes, where
-- the audit log gets its record from the gate.
use repomap_core.Prelude.{
  ℕ, suc, ◌≡◌, ◌↔◌, ◌⊎◌, refl, true, false, some, List, [], ◌∷◌, ◌&&◌, ◌++◌, map, take,
  if◌then◌else◌, ltb,
}
use repomap_core.Prelude.Text.{codes}
use repomap_core.Infra.LandPlane.{
  GateDefinition, LandPlaneConfig, Parsed, malformed, value, LandPlaneOptions, landed, gate_failed,
  Command, Machine, split_spaces, split_lines, trim,
}
use repomap_core.Infra.LandPlane.Exec.{
  World, land_plane, result, preflight_command, found_gates, run_gates, run_gates_and_land,
  verify_and_land, verify_audit_proof, land_proven, close_bead, sync_beads, run_preflight,
}
use repomap_core.Infra.LandPlane.Proving.{Zero, Succeeds, IsProven, Landing, after, gate}
use repomap_core.Infra.LandPlane.Landing.{IsLandable, IsCleared, land_plane-Zero, land_plane-closes}

abbrev lint : GateDefinition
lint = record {
  gate_id = "lint";
  timeout_seconds = 60;
  stall_seconds = 30;
  command = "ruff  check .";
}

abbrev config : LandPlaneConfig
config = record {
  root_dir = "/repo";
  bd_bin = "bd";
  bounded_gate_py = "gate.py";
  python_bin = "python";
  audit_log_path = "gate_runs.jsonl";
  gates = lint ∷ [];
  required_gate_ids = "lint" ∷ [];
}

abbrev options : LandPlaneOptions
options = record { bead_id = "b-1"; skip_gates = false; run_timestamp = "t"; no_sync = false }

abbrev first_line : List ℕ → Parsed
first_line [] = malformed
first_line (c ∷ cs) = value (record {
  bead_id = some "b-1";
  run_timestamp = some "t";
  gate_id = some "lint";
  status = some "pass";
})

-- the exit code of the second process is given
abbrev machine : ℕ → Machine
machine code = record {
  State = ℕ;
  exists = λ s path. true;
  read = λ s path. some (if ltb 1 s then codes " {} \n" else []);
  spawn = λ s command. (some (if ltb 0 s && ltb s 2 then code else 0), suc s);
  join = λ a b. b;
  parse = first_line;
}

abbrev start : (code : ℕ) → World (machine code)
start code = record { machine = 0; ran = [] }

lands :
    (land_plane (machine 0) options config (start 0)).0 ≡ some (result 0 (landed "b-1" "t" true))
unfolding land_plane run_preflight run_gates_and_land run_gates verify_and_land verify_audit_proof
    found_gates land_proven close_bead sync_beads trim split_lines
lands = refl

fails : (land_plane (machine 7) options config (start 7)).0 ≡ some (result 1 (gate_failed "lint"))
unfolding land_plane run_preflight run_gates_and_land run_gates
fails = refl

words :
    split_spaces false (codes "ruff  check . ") ≡ codes "ruff" ∷ codes "check" ∷ codes "." ∷ [] ∷ []
unfolding split_spaces
words = refl

trimmed : trim (codes "  a b ") ≡ codes "a b"
unfolding trim
trimmed = refl

land_plane-Zero_example :
    Zero (land_plane (machine 0) options config (start 0)).0
    ↔ IsLandable (machine 0) options config 0
land_plane-Zero_example = land_plane-Zero (machine 0) options config (start 0)

land_plane-closes_example :
    (started : List Command) × (tail : List Command) × (count : ℕ) × ((land_plane
        (machine 7)
        options
        config
        (start 7)).1.ran
      ≡ []
        ++ (started ++ (map (gate (machine 7) options config) (take count config.gates) ++ tail)))
    × ((started ≡ []) ⊎ (started ≡ preflight_command (machine 7) config ∷ []))
    × ((tail ≡ [])
        ⊎ (Succeeds (machine 7) options config 0 (preflight_command (machine 7) config)
            × IsCleared
                (machine 7)
                options
                config
                (IsProven (machine 7) options config)
                (after (machine 7) options config 0 (preflight_command (machine 7) config))
            × Landing (machine 7) options config tail))
land_plane-closes_example = land_plane-closes (machine 7) options config (start 7)
