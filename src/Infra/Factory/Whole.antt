-- ===== src/Infra/Factory/Whole.antt =====
-- The preflight checks and `runDispatch` of daemon/src/infra/factory-dispatch.ts. The answers of the
-- five components are the record `Probes`; the details of a component, which are only printed, are left out.
use repomap_core.Prelude.{
  ℕ, String, Bool, true, false, ◌&&◌, List, [], ◌∷◌, Option, none, some, str_eq, if◌then◌else◌,
  ◌==◌,
}
use repomap_core.Prelude.Json.{Json}
use repomap_core.Infra.Factory.{FactoryDispatchConfig, ExitCode}
use repomap_core.Infra.Factory.Molecule.{
  Dependencies, SingleReply, exit, outcome, threw, run_molecule_dispatch, MoleculeDispatchResult,
}
use repomap_core.Infra.Factory.Single.{Host, run_single_dispatch}

-- the answer to the request for the sessions
pub data KiloAnswer : Type 0 where
  unreachable : KiloAnswer
  status : ℕ → KiloAnswer
  sessions : ℕ → KiloAnswer
  unreadable_body : KiloAnswer

pub record Probes : Type 0 where
  pub kilo : KiloAnswer
  pub dolt_port : Bool
  pub daemon_online : Bool
  pub temporal_port : Bool
  pub worker_online : Bool

pub record PreflightComponent : Type 0 where
  pub name : String
  pub ok : Bool

pub record PreflightResult : Type 0 where
  pub ok : Bool
  pub components : List PreflightComponent

abbrev is_401 : ℕ → Bool
is_401 code = code == 401

-- 401 means that Kilo is alive; a status other than a success or 401 does not
abbrev pub kilo_ok : KiloAnswer → Bool
kilo_ok unreachable = false
kilo_ok (status code) = is_401 code
kilo_ok (sessions count) = true
kilo_ok unreadable_body = false

abbrev pub component : String → Bool → PreflightComponent
component name ok = record { name = name; ok = ok }

abbrev pub components_of : Probes → List PreflightComponent
components_of p =
    component "kilo serve" (kilo_ok p.kilo)
    ∷ component "Dolt server" p.dolt_port
    ∷ component "oc-daemon" p.daemon_online
    ∷ component "Temporal server" p.temporal_port
    ∷ component "Temporal worker" p.worker_online
    ∷ []

-- `components.every((c) => c.ok)`
abbrev pub every_ok : List PreflightComponent → Bool
every_ok [] = true
every_ok (c ∷ cs) = let rest = every_ok cs in c.ok && rest

unfoldable pub preflight : Probes → PreflightResult
preflight p = record { ok = every_ok (components_of p); components = components_of p }

-- the dispatches of a run, in their order
pub data Dispatch : Type 0 where
  molecule : ExitCode → Option MoleculeDispatchResult → Dispatch
  single : SingleReply → Dispatch

-- how `runDispatch` ends: blocked, or with what the dispatch gave
pub data RunResult : Type 0 where
  blocked : List PreflightComponent → RunResult
  ran : Dispatch → RunResult

abbrev pub missing_of : List PreflightComponent → List PreflightComponent
missing_of [] = []
missing_of (c ∷ cs) = let rest = missing_of cs in if c.ok then rest else c ∷ rest

module _ {Num : Type 0} where
  unfoldable pub dispatch_run : Dependencies Num → FactoryDispatchConfig → Dispatch
  unfolding run_molecule_dispatch
  dispatch_run deps config =
      if str_eq config.formula ""
      then single (deps.run_single_dispatch 0 config false)
      else (let (code, result) = run_molecule_dispatch deps config 0 in molecule code result)

  unfoldable pub run_dispatch : Dependencies Num → Probes → FactoryDispatchConfig → RunResult
  unfolding preflight dispatch_run
  run_dispatch deps probes config =
      let pf = preflight probes in
      if pf.ok then ran (dispatch_run deps config) else blocked (missing_of pf.components)

  -- the dependencies of a run that is not under test
  abbrev pub default_dispatch_dependencies :
      (ℕ → List String → Option (Json Num)) → (ℕ → Host) → Dependencies Num
  default_dispatch_dependencies exec_bd hosts = record {
    exec_bd = exec_bd;
    run_single_dispatch = λ n. run_single_dispatch (hosts n);
  }

-- the exit code, none where an exception leaves the function
abbrev pub code_of_reply : SingleReply → Option ExitCode
code_of_reply (exit code) = some code
code_of_reply (outcome o) = some o.code
code_of_reply (threw message) = none

abbrev pub code_of_dispatch : Dispatch → Option ExitCode
code_of_dispatch (molecule code result) = some code
code_of_dispatch (single reply) = code_of_reply reply

abbrev pub code_of_run : RunResult → Option ExitCode
code_of_run (blocked missing) = some ExitCode.health_check_failed
code_of_run (ran dispatch) = code_of_dispatch dispatch
