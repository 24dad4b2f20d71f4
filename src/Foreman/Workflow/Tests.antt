-- ===== src/Foreman/Workflow/Tests.antt =====
-- A run of `foremanWorkflow` of daemon/src/temporal/foreman.workflows.ts that dispatches one bead.
use repomap_core.Prelude.{
  ℕ, String, List, ◌∷◌, Distinct, ◌≡◌, refl, true, false, none, some, [], arith, length,
}
use repomap_core.Foreman.Types.{
  ForemanInput, pass, up, SubsystemHealth, BeadCandidate, p1, small, agent_completed, crashed,
  DispatchResult, timeout, aborted, completed, RetryLedgerEntry,
}
use repomap_core.Foreman.State.{initialize_state, should_continue_as_new, make_result}
use repomap_core.Foreman.Workflow.{Run, Env, World, value, Fault, returns}
use repomap_core.Foreman.Workflow.Loop.{foreman_workflow, loop, recover, hand_over}
use repomap_core.Foreman.Workflow.Totals.{foreman_workflow-IsCounted}
use repomap_core.Foreman.Workflow.Counts.{IsCounted}
use repomap_core.Foreman.Workflow.Orders.{IsOrderly, foreman_workflow-IsOrderly}
use repomap_core.Foreman.Ledger.{find_entry, attempts_of}
use repomap_core.Foreman.Ledger.Retries.{beads_of}
use repomap_core.Foreman.Workflow.Halts.{Halts, foreman_workflow-Halts}
use repomap_core.Foreman.Workflow.Retried.{Handled, handle_outcomes, handle_outcomes-counts}
use repomap_core.Foreman.Workflow.Ends.{loop-crashes_at_limit}

abbrev input : ForemanInput
input = record {
  workflow_id = "foreman";
  repo_path = "/repo";
  task_queue = "agent";
  kilo_host = "localhost";
  kilo_port = 4096;
  dolt_host = "localhost";
  dolt_port = 3307;
  dolt_database = "punches";
  poll_interval_ms = 1000;
  health_check_interval_ms = 1000;
  max_iterations = 1;
  max_wall_clock_ms = 100000;
  max_concurrent_dispatches = 1;
  default_timeout_ms = 5000;
  default_cost_budget_usd = 1000000;
  max_retries_per_bead = 2;
  retry_backoff_ms = 1000;
  health_failure_threshold = none;
  carried_state = none;
}

abbrev well : SubsystemHealth
well = record { status = up; message = none; latency_ms = none }

abbrev bead : BeadCandidate
bead = record {
  bead_id = "bd-1";
  title = "fix";
  priority = p1;
  labels = [];
  depends_on = [];
  estimated_complexity = small;
  description = none;
}

abbrev ended : Fault
ended = record { message = "Workflow continued as new"; is_cancellation = false }

-- every request takes a millisecond and is answered well
abbrev env : Env
env = record {
  now = λ t. length t;
  shown = λ n. "0";
  signals = λ t. [];
  health = λ t. value (record {
    overall = pass;
    checked_at = 0;
    subsystems = record {
      kilo_serve = well;
      dolt = well;
      git = well;
      temporal = well;
      beads = well;
    };
  });
  selected = λ t. value (some bead);
  detail = λ t. value bead;
  done = λ t. value tt;
  agent = λ t. value (record {
    status = agent_completed;
    session_id = none;
    total_cost = 0;
    tokens_input = 0;
    tokens_output = 0;
    error = none;
    audit = none;
  });
  end_of_run = λ t. ended;
}

IsCounted-start : IsCounted (initialize_state input 0)
unfolding initialize_state
IsCounted-start = (omega arith, refl)

foreman_workflow-IsCounted_example : IsCounted (foreman_workflow env input 3).1.state
foreman_workflow-IsCounted_example = foreman_workflow-IsCounted env input 3 IsCounted-start

foreman_workflow-IsOrderly_example : IsOrderly (foreman_workflow env input 3).1.trace
foreman_workflow-IsOrderly_example = foreman_workflow-IsOrderly env input 3

-- the world at the limit of one iteration
abbrev at_limit : World
at_limit = record {
  state = record (initialize_state input 0) { iteration_count = 1 };
  config = input;
  trace = [];
}

limit_reached :
    should_continue_as_new at_limit.state at_limit.config (env.now at_limit.trace) ≡ true
unfolding should_continue_as_new
limit_reached = refl

loop-crashes_at_limit_example :
    (recover (loop env 3 at_limit)).0
    ≡ returns (
        make_result crashed
          (hand_over env at_limit).1.state
          none
          (some "Workflow continued as new"))
loop-crashes_at_limit_example = loop-crashes_at_limit env 2 at_limit limit_reached (λ t. refl)

-- what came of a dispatch of a bead, at some time
abbrev handled : String → DispatchResult → ℕ → Handled
handled id result now = record {
  candidate = record bead { bead_id = id };
  result = result;
  outcome = record {
    bead_id = id;
    workflow_id = "w";
    session_id = none;
    started_at = 0;
    completed_at = now;
    duration_ms = now;
    total_cost = 0;
    tokens_input = 0;
    tokens_output = 0;
    result = result;
    audit = none;
    attempt = 1;
  };
  at = now;
}

-- three timeouts of one bead, with an abort of it and a completion of another between them
abbrev outcomes : List Handled
outcomes =
    handled "bd-1" (timeout 1 1) 10
    ∷ handled "bd-2" (timeout 1 1) 20
    ∷ handled "bd-1" (aborted "stop") 25
    ∷ handled "bd-2" completed 28
    ∷ handled "bd-1" (timeout 1 1) 30
    ∷ handled "bd-1" (timeout 1 1) 40
    ∷ []

abbrev ran : Run (Unit {0}) × World
ran = handle_outcomes env input outcomes at_limit

handle_outcomes-counts_example :
    (ran.0 ≡ returns tt)
    × (attempts_of (find_entry ran.1.state.retry_ledger "bd-1") ≡ 3)
    × Distinct (beads_of ran.1.state.retry_ledger)
    × ((e : RetryLedgerEntry)
        → find_entry ran.1.state.retry_ledger "bd-1" ≡ some e
        → e.exhausted ≡ true)
unfolding initialize_state
handle_outcomes-counts_example =
    handle_outcomes-counts env (λ t. refl) input outcomes at_limit "bd-1" refl

foreman_workflow-Halts_example : Halts (foreman_workflow env input 3).0
foreman_workflow-Halts_example =
    foreman_workflow-Halts 1 env (λ t. tt) input 3 (omega arith) (omega arith)
