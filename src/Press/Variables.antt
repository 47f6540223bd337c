-- ===== src/Press/Variables.antt =====
-- `addAddressSpace` of the single-station server: the variables under which clients see the state.
use mes_copy.Base.{String, Option, none, some, List, [], ◌∷◌, ◌++◌}
use mes_copy.Base.Int.{pos}
use mes_copy.OpcUa.{DataType, Access, bool_at, uint_at, int_at, real_at, str_at, Variable}
use mes_copy.Press.{Press, Job, Recipe, Control}

abbrev var : String → String → DataType → Access Press → Variable Press
var name id type access = record {
  browse_name = name;
  node_id = id;
  data_type = type;
  access = access;
}

-- `source[key] = value` for a `source` that is a part of the state.
abbrev in_job : {A : Type 0} → (A → Job → Job) → Option (A → Press → Press)
in_job put = some (λ a s. record s { job = put a s.job })

abbrev in_recipe : {A : Type 0} → (A → Recipe → Recipe) → Option (A → Press → Press)
in_recipe put = some (λ a s. record s { recipe = put a s.recipe })

abbrev in_control : {A : Type 0} → (A → Control → Control) → Option (A → Press → Press)
in_control put = some (λ a s. record s { control = put a s.control })

abbrev pub status_variables : List (Variable Press)
status_variables =
    var "Running" "s=NX9000.Status.Run" DataType.boolean (bool_at (λ s. s.running) none)
    ∷ var "FaultActive" "s=NX9000.Status.Fault" DataType.boolean
        (bool_at (λ s. s.fault_active) none)
    ∷ var "IdealCycleTime" "s=NX9000.Production.IdealCycleMs" DataType.uint32
        (uint_at (λ s. s.ideal_cycle_time_ms) none)
    ∷ var "AcceptedParts" "s=NX9000.Production.Accepted" DataType.uint32
        (uint_at (λ s. s.good_count) none)
    ∷ var "RejectedParts" "s=NX9000.Production.Rejected" DataType.uint32
        (uint_at (λ s. s.reject_count) none)
    ∷ var "HydraulicPressure" "s=NX9000.Process.PressureBar" DataType.double
        (real_at (λ s. pos s.pressure) none)
    ∷ var "Active" "s=NX9000.Process.Active" DataType.boolean (bool_at (λ s. s.process.active) none)
    ∷ var "CompletedCarrierNumber" "s=NX9000.Process.CompletedCarrierNumber" DataType.uint32
        (uint_at (λ s. s.process.completed_carrier_number) none)
    ∷ var "Completed" "s=NX9000.Process.Completed" DataType.boolean
        (bool_at (λ s. s.process.completed) none)
    ∷ []

-- `jobVariables`.
abbrev pub job_variables : List (Variable Press)
job_variables =
    var "CarrierNumber" "s=NX9000.Job.CarrierNumber" DataType.uint32
      (uint_at (λ s. s.job.carrier_number) none)
    ∷ var "ResourceNumber" "s=NX9000.Job.ResourceNumber" DataType.uint16
        (uint_at (λ s. s.job.resource_number) none)
    ∷ var "Request" "s=NX9000.Job.Request" DataType.boolean (bool_at (λ s. s.job.request) none)
    ∷ var "Busy" "s=NX9000.Job.Busy" DataType.boolean
        (bool_at (λ s. s.job.busy) (in_job (λ a p. record p { busy = a })))
    ∷ var "Accepted" "s=NX9000.Job.Accepted" DataType.boolean
        (bool_at (λ s. s.job.accepted) (in_job (λ a p. record p { accepted = a })))
    ∷ var "Rejected" "s=NX9000.Job.Rejected" DataType.boolean
        (bool_at (λ s. s.job.rejected) (in_job (λ a p. record p { rejected = a })))
    ∷ var "OrderNumber" "s=NX9000.Job.OrderNumber" DataType.text
        (str_at (λ s. s.job.order_number) (in_job (λ a p. record p { order_number = a })))
    ∷ var "PartNumber" "s=NX9000.Job.PartNumber" DataType.text
        (str_at (λ s. s.job.part_number) (in_job (λ a p. record p { part_number = a })))
    ∷ var "OperationNumber" "s=NX9000.Job.OperationNumber" DataType.uint16
        (uint_at (λ s. s.job.operation_number) (in_job (λ a p. record p { operation_number = a })))
    ∷ var "StepNumber" "s=NX9000.Job.StepNumber" DataType.int16
        (int_at (λ s. s.job.step_number) (in_job (λ a p. record p { step_number = a })))
    ∷ var "NextResourceNumber" "s=NX9000.Job.NextResourceNumber" DataType.uint16 (
        uint_at (λ s. s.job.next_resource_number)
          (in_job (λ a p. record p { next_resource_number = a })))
    ∷ var "ResultCode" "s=NX9000.Job.ResultCode" DataType.uint16
        (uint_at (λ s. s.job.result_code) (in_job (λ a p. record p { result_code = a })))
    ∷ []

abbrev pub command_variables : List (Variable Press)
command_variables =
    var "TargetForceKn" "s=NX9000.Recipe.TargetForceKn" DataType.double
      (real_at (λ s. s.recipe.press_force_kn) (in_recipe (λ a p. record p { press_force_kn = a })))
    ∷ var "DwellTimeMs" "s=NX9000.Recipe.DwellTimeMs" DataType.uint32
        (uint_at (λ s. s.recipe.dwell_time_ms) (in_recipe (λ a p. record p { dwell_time_ms = a })))
    ∷ var "Start" "s=NX9000.Control.Start" DataType.boolean
        (bool_at (λ s. s.control.start) (in_control (λ a p. record p { start = a })))
    ∷ var "Stop" "s=NX9000.Control.Stop" DataType.boolean
        (bool_at (λ s. s.control.stop) (in_control (λ a p. record p { stop = a })))
    ∷ var "Reset" "s=NX9000.Control.Reset" DataType.boolean
        (bool_at (λ s. s.control.reset) (in_control (λ a p. record p { reset = a })))
    ∷ var "Pause" "s=NX9000.Control.Pause" DataType.boolean
        (bool_at (λ s. s.control.pause) (in_control (λ a p. record p { pause = a })))
    ∷ []

unfoldable pub variables : List (Variable Press)
variables = status_variables ++ job_variables ++ command_variables
