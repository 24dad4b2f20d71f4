-- ===== src/Infra/LandPlane.antt =====
-- daemon/src/infra/land-plane.ts, with `closeBeadSync` of daemon/src/infra/bead-ops.ts. The file system
-- and the processes are the parameter `Machine`, with a state that each process may change, and
-- `JSON.parse` and `path.join` with it. A run keeps the commands that it started, in order. The log
-- messages are left out, and a summary keeps the values of its text.
pub mod Exec
pub mod Proof
pub mod Proving
pub mod Landing
mod Tests
use repomap_core.Prelude.{
  ℕ, ◌+◌, ◌*◌, String, Bool, true, false, not, ◌&&◌, ◌||◌, Option, none, some, List, [], ◌∷◌, ◌++◌,
  map, ltb, leb, ◌==◌, if◌then◌else◌, str_eq, or_else, contains, add_new, keep, last?, length,
}
use repomap_core.Prelude.Text.{codes}

pub record GateDefinition : Type 0 where
  pub gate_id : String
  pub timeout_seconds : ℕ
  pub stall_seconds : ℕ
  pub command : String

pub record LandPlaneConfig : Type 0 where
  pub root_dir : String
  pub bd_bin : String
  pub bounded_gate_py : String
  pub python_bin : String
  pub audit_log_path : String
  pub gates : List GateDefinition
  pub required_gate_ids : List String

-- the fields that are read of a parsed line; each may be missing or hold another kind of value
pub record GateRunRecord : Type 0 where
  pub bead_id : Option String
  pub run_timestamp : Option String
  pub gate_id : Option String
  pub status : Option String

-- What `JSON.parse` makes of a line. Reading a field of `null` throws.
pub data Parsed : Type 0 where
  malformed null_value : Parsed
  value : GateRunRecord → Parsed

pub data GateStatus : Type 0 where
  pass fail fault : GateStatus

pub record GateResult : Type 0 where
  pub gate_id : String
  pub exit_code : ℕ
  pub status : GateStatus

pub record AuditProofResult : Type 0 where
  pub ok : Bool
  pub missing_gates : List String

pub record LandPlaneOptions : Type 0 where
  pub bead_id : String
  pub skip_gates : Bool
  pub run_timestamp : String
  pub no_sync : Bool

pub data Summary : Type 0 where
  preflight_failed sync_failed : Summary
  gate_faulted gate_failed : String → Summary
  audit_proof_missing : List String → Summary
  landed : (bead_id run_timestamp : String) → (synced : Bool) → Summary

pub record LandPlaneResult : Type 0 where
  pub exit_code : ℕ
  pub summary : Summary

-- an argument of a command: a text, a number as `String(n)` prints it, or a part of a command line
pub data Argument : Type 0 where
  text : String → Argument
  number : ℕ → Argument
  part : List ℕ → Argument

pub record Command : Type 0 where
  pub program : String
  pub arguments : List Argument
  pub cwd : String
  pub timeout_ms : ℕ

pub record Machine : Type 1 where
  pub State : Type 0
  pub exists : State → String → Bool
  -- `readFileSync`, which may throw
  pub read : State → String → Option (List ℕ)
  -- the exit status of a process, `none` for null, and what it leaves behind
  pub spawn : State → Command → Option ℕ × State
  pub join : String → String → String
  pub parse : List ℕ → Parsed

-- `\s` of a regular expression, which is what `trim` takes off too
abbrev pub is_space : ℕ → Bool
is_space c =
    (leb 9 c && leb c 13)
    || c == 32
    || c == 160
    || c == 5760
    || (leb 8192 c && leb c 8202)
    || c == 8232
    || c == 8233
    || c == 8239
    || c == 8287
    || c == 12288
    || c == 65279

abbrev pub cons_first : ℕ → List (List ℕ) → List (List ℕ)
cons_first c [] = (c ∷ []) ∷ []
cons_first c (word ∷ words) = (c ∷ word) ∷ words

-- `text.split(/\s+/)`; the flag says that the character before was a space
unfoldable pub split_spaces : Bool → List ℕ → List (List ℕ)
split_spaces b [] = [] ∷ []
split_spaces true (c ∷ cs) =
    if is_space c then split_spaces true cs else cons_first c (split_spaces false cs)
split_spaces false (c ∷ cs) =
    if is_space c then [] ∷ split_spaces true cs else cons_first c (split_spaces false cs)

-- `content.split("\n")`
unfoldable pub split_lines : List ℕ → List (List ℕ)
split_lines [] = [] ∷ []
split_lines (c ∷ cs) = let rest = split_lines cs in if c == 10 then [] ∷ rest else cons_first c rest

abbrev pub trim_start : List ℕ → List ℕ
trim_start [] = []
trim_start (c ∷ cs) = let rest = trim_start cs in if is_space c then rest else c ∷ cs

abbrev pub trim_end : List ℕ → List ℕ
trim_end [] = []
trim_end (c ∷ cs) =
    let rest = trim_end cs in if is_space c && length rest == 0 then [] else c ∷ rest

unfoldable pub trim : List ℕ → List ℕ
trim cs = trim_end (trim_start cs)

abbrev pub is_text : Option String → String → Bool
is_text none s = false
is_text (some t) s = str_eq t s

-- `rec.bead_id === beadId && rec.run_timestamp === runTimestamp && rec.status === "pass"`
abbrev pub is_pass_of : String → String → GateRunRecord → Bool
is_pass_of bead_id run_timestamp r =
    is_text r.bead_id bead_id && is_text r.run_timestamp run_timestamp && is_text r.status "pass"

-- `found.add(rec.gate_id)`; an undefined id is no required one
abbrev pub add_gate : Option String → List String → List String
add_gate none found = found
add_gate (some id) found = add_new found id

-- `exitCode === 0`, `exitCode === 2`
abbrev pub status_of_exit : ℕ → GateStatus
status_of_exit exit_code = if exit_code == 0 then pass else if exit_code == 2 then fault else fail

abbrev pub is_pass : GateStatus → Bool
is_pass pass = true
is_pass fail = false
is_pass fault = false
