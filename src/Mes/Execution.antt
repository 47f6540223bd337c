-- ===== src/Mes/Execution.antt =====
-- The execution steps of the MES backend (src/execution-steps/execution-steps.service.ts). `id` is
-- the uuid that the database gives to a new row.
use mes_copy.Base.{
  ℕ, ◌-◌, String, Bool, true, false, ◌&&◌, Option, none, some, List, find, if◌then◌else◌, ◌==◌,
}
use mes_copy.Mes.{
  ExecutionStep, ExecutionStepState, ExecutionStepSource, StepResult, running, finished, failed,
}
use mes_copy.Mes.Tables.{save, is_at}

-- `StartExecutionStep`.
pub record StartExecutionStep : Type 0 where
  pub order_id : ℕ
  pub carrier_id : ℕ
  pub carrier_number : ℕ
  pub resource_id : ℕ
  pub operation_no : ℕ
  pub operation : String
  pub step_no : ℕ
  pub source : ExecutionStepSource
  pub started_at : ℕ

-- `where: { order_id, carrier_id, step_no }`, the key of the unique index.
abbrev pub is_step_of : ℕ → ℕ → ℕ → ExecutionStep → Bool
is_step_of order_id carrier_id step_no step =
    (step.order_id == order_id) && is_at carrier_id step.carrier_id && (step.step_no == step_no)

abbrev pub is_finished : ExecutionStepState → Bool
is_finished finished = true
is_finished _ = false

abbrev pub is_running : ExecutionStepState → Bool
is_running running = true
is_running _ = false

abbrev pub or_else : Option ℕ → ℕ → ℕ
or_else none n = n
or_else (some m) n = m

-- The row that `create` makes of an input; what `create` does not set is set by `Object.assign`.
unfoldable pub created_step : ℕ → StartExecutionStep → Option ℕ → ExecutionStep
created_step id input started_at = record {
  id = id;
  order_id = input.order_id;
  carrier_id = some input.carrier_id;
  carrier_number = some input.carrier_number;
  resource_id = input.resource_id;
  operation_no = input.operation_no;
  operation = input.operation;
  step_no = input.step_no;
  state = running;
  source = input.source;
  started_at = started_at;
  ended_at = none;
  result = none;
}

unfoldable pub started_step : StartExecutionStep → ExecutionStep → ExecutionStep
started_step input step = record step {
  resource_id = input.resource_id;
  operation_no = input.operation_no;
  operation = input.operation;
  state = running;
  source = input.source;
  started_at = some (or_else step.started_at input.started_at);
  ended_at = none;
  result = none;
}

abbrev pub save_step : ExecutionStep → List ExecutionStep → List ExecutionStep
save_step step steps = save (λ s. s.id) step steps

-- `start`, with what `findOne` gave.
unfoldable pub start_with :
    ℕ → StartExecutionStep → Option ExecutionStep → List ExecutionStep → List ExecutionStep
unfolding started_step created_step
start_with id input none steps = save_step (started_step input (created_step id input none)) steps
start_with id input (some existing) steps =
    if is_finished existing.state then steps else save_step (started_step input existing) steps

unfoldable pub start : ℕ → StartExecutionStep → List ExecutionStep → List ExecutionStep
unfolding start_with
start id input steps =
    start_with id input (find (is_step_of input.order_id input.carrier_id input.step_no) steps)
      steps

unfoldable pub completed_step : StartExecutionStep → ℕ → StepResult → ExecutionStep → ExecutionStep
completed_step input completed_at result step = record step {
  state = finished;
  source = input.source;
  ended_at = some completed_at;
  result = some result;
}

-- `existing ?? create(…)`.
unfoldable pub step_or_created : ℕ → StartExecutionStep → Option ExecutionStep → ExecutionStep
unfolding created_step
step_or_created id input none = created_step id input (some input.started_at)
step_or_created id input (some existing) = existing

unfoldable pub complete :
    ℕ → StartExecutionStep → ℕ → StepResult → List ExecutionStep → List ExecutionStep
unfolding completed_step step_or_created
complete id input completed_at result steps =
    save_step
      (completed_step input completed_at result (
        step_or_created id input
          (find (is_step_of input.order_id input.carrier_id input.step_no) steps)))
      steps

abbrev pub is_running_step_of : ℕ → ℕ → ℕ → ExecutionStep → Bool
is_running_step_of order_id carrier_id step_no step =
    is_step_of order_id carrier_id step_no step && is_running step.state

unfoldable pub failed_step : ℕ → StepResult → ExecutionStep → ExecutionStep
failed_step failed_at result step = record step {
  state = failed;
  ended_at = some failed_at;
  result = some result;
}

unfoldable pub fail_with :
    ℕ → StepResult → Option ExecutionStep → List ExecutionStep → List ExecutionStep
unfolding failed_step
fail_with failed_at result none steps = steps
fail_with failed_at result (some step) steps = save_step (failed_step failed_at result step) steps

-- `fail`; whether it returns a row is whether there is a running one.
unfoldable pub fail : ℕ → ℕ → ℕ → ℕ → StepResult → List ExecutionStep → List ExecutionStep
unfolding fail_with
fail order_id carrier_id step_no failed_at result steps =
    fail_with failed_at result (find (is_running_step_of order_id carrier_id step_no) steps) steps

-- `elapsed_ms` of a view: the end, or the present, less the start, not below 0.
unfoldable pub elapsed_ms : ℕ → ExecutionStep → Option ℕ
elapsed_ms now step = elim step.started_at [
  | none ↦ none
  | some started ↦ some (or_else step.ended_at now - started)
]
