-- ===== src/Cell/Variables.antt =====
-- `addStationAddressSpace` of the multi-station server: the variables of one station, under the
-- prefix of its definition.
use mes_copy.Base.{String, Option, none, some, List, [], ◌∷◌, ◌++◌, ◌<>◌, if◌then◌else◌}
use mes_copy.Base.Int.{pos}
use mes_copy.OpcUa.{DataType, Access, bool_at, uint_at, int_at, real_at, str_at, Variable}
use mes_copy.Press.{Job, Recipe, Control}
use mes_copy.Cell.{Definition, Station}

-- `source[key] = value` for a `source` that is a part of the state.
abbrev in_job : {A : Type 0} → (A → Job → Job) → Option (A → Station → Station)
in_job put = some (λ a s. record s { job = put a s.job })

abbrev in_recipe : {A : Type 0} → (A → Recipe → Recipe) → Option (A → Station → Station)
in_recipe put = some (λ a s. record s { recipe = put a s.recipe })

abbrev in_control : {A : Type 0} → (A → Control → Control) → Option (A → Station → Station)
in_control put = some (λ a s. record s { control = put a s.control })

module _ (d : Definition) where
  abbrev var : String → String → DataType → Access Station → Variable Station
  var name path type access = record {
    browse_name = name;
    node_id = "s=" <> d.prefix <> path;
    data_type = type;
    access = access;
  }

  abbrev pub status_variables : List (Variable Station)
  status_variables =
      var "Running" ".Status.Run" DataType.boolean (bool_at (λ s. s.running) none) ∷ []

  -- With `machineControl` only.
  abbrev pub fault_variables : List (Variable Station)
  fault_variables =
      var "FaultActive" ".Status.Fault" DataType.boolean (bool_at (λ s. s.fault_active) none) ∷ []

  abbrev pub production_variables : List (Variable Station)
  production_variables =
      var "IdealCycleTime" ".Production.IdealCycleMs" DataType.uint32
        (uint_at (λ s. s.ideal_cycle_time_ms) none)
      ∷ var "AcceptedParts" ".Production.Accepted" DataType.uint32
          (uint_at (λ s. s.good_count) none)
      ∷ var "RejectedParts" ".Production.Rejected" DataType.uint32
          (uint_at (λ s. s.reject_count) none)
      ∷ []

  -- With `pressure` only.
  abbrev pub pressure_variables : List (Variable Station)
  pressure_variables =
      var "PressureBar" ".Process.PressureBar" DataType.double
        (real_at (λ s. pos s.pressure_bar) none)
      ∷ []

  abbrev pub process_variables : List (Variable Station)
  process_variables =
      var "Active" ".Process.Active" DataType.boolean (bool_at (λ s. s.process.active) none)
      ∷ var "CompletedCarrierNumber" ".Process.CompletedCarrierNumber" DataType.uint32
          (uint_at (λ s. s.process.completed_carrier_number) none)
      ∷ var "Completed" ".Process.Completed" DataType.boolean
          (bool_at (λ s. s.process.completed) none)
      ∷ []

  -- `jobVariables`.
  abbrev pub job_variables : List (Variable Station)
  job_variables =
      var "CarrierNumber" ".Job.CarrierNumber" DataType.uint32
        (uint_at (λ s. s.job.carrier_number) none)
      ∷ var "ResourceNumber" ".Job.ResourceNumber" DataType.uint16
          (uint_at (λ s. s.job.resource_number) none)
      ∷ var "Request" ".Job.Request" DataType.boolean (bool_at (λ s. s.job.request) none)
      ∷ var "Busy" ".Job.Busy" DataType.boolean
          (bool_at (λ s. s.job.busy) (in_job (λ a p. record p { busy = a })))
      ∷ var "Accepted" ".Job.Accepted" DataType.boolean
          (bool_at (λ s. s.job.accepted) (in_job (λ a p. record p { accepted = a })))
      ∷ var "Rejected" ".Job.Rejected" DataType.boolean
          (bool_at (λ s. s.job.rejected) (in_job (λ a p. record p { rejected = a })))
      ∷ var "OrderNumber" ".Job.OrderNumber" DataType.text
          (str_at (λ s. s.job.order_number) (in_job (λ a p. record p { order_number = a })))
      ∷ var "PartNumber" ".Job.PartNumber" DataType.text
          (str_at (λ s. s.job.part_number) (in_job (λ a p. record p { part_number = a })))
      ∷ var "OperationNumber" ".Job.OperationNumber" DataType.uint16 (
          uint_at (λ s. s.job.operation_number) (in_job (λ a p. record p { operation_number = a })))
      ∷ var "StepNumber" ".Job.StepNumber" DataType.int16
          (int_at (λ s. s.job.step_number) (in_job (λ a p. record p { step_number = a })))
      ∷ var "NextResourceNumber" ".Job.NextResourceNumber" DataType.uint16 (
          uint_at (λ s. s.job.next_resource_number)
            (in_job (λ a p. record p { next_resource_number = a })))
      ∷ var "ResultCode" ".Job.ResultCode" DataType.uint16
          (uint_at (λ s. s.job.result_code) (in_job (λ a p. record p { result_code = a })))
      ∷ []

  -- With `recipe` only.
  abbrev pub recipe_variables : List (Variable Station)
  recipe_variables =
      var "TargetForceKn" ".Recipe.TargetForceKn" DataType.double (
        real_at (λ s. s.recipe.press_force_kn) (in_recipe (λ a p. record p { press_force_kn = a })))
      ∷ var "DwellTimeMs" ".Recipe.DwellTimeMs" DataType.uint32 (
          uint_at (λ s. s.recipe.dwell_time_ms) (in_recipe (λ a p. record p { dwell_time_ms = a })))
      ∷ []

  -- With `machineControl` only.
  abbrev pub control_variables : List (Variable Station)
  control_variables =
      var "Start" ".Control.Start" DataType.boolean
        (bool_at (λ s. s.control.start) (in_control (λ a p. record p { start = a })))
      ∷ var "Stop" ".Control.Stop" DataType.boolean
          (bool_at (λ s. s.control.stop) (in_control (λ a p. record p { stop = a })))
      ∷ var "Reset" ".Control.Reset" DataType.boolean
          (bool_at (λ s. s.control.reset) (in_control (λ a p. record p { reset = a })))
      ∷ var "Pause" ".Control.Pause" DataType.boolean
          (bool_at (λ s. s.control.pause) (in_control (λ a p. record p { pause = a })))
      ∷ []

  unfoldable pub variables : List (Variable Station)
  variables =
      status_variables
      ++ (if d.machine_control then fault_variables else [])
      ++ production_variables
      ++ (if d.pressure then pressure_variables else [])
      ++ process_variables
      ++ job_variables
      ++ (if d.recipe then recipe_variables else [])
      ++ (if d.machine_control then control_variables else [])
