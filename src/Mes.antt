-- ===== src/Mes.antt =====
-- The data model of the MES backend: the rows of its database tables
-- (src/carriers/carrier.entity.ts, src/orders/*.entity.ts,
-- src/execution-steps/execution-step.entity.ts, src/products, src/machines) and the tables.
-- A uuid is a number, an instant is its milliseconds, `none` is `null` or `undefined`, and the
-- value of a parameter, which nothing computes with, is its JSON text.
use mes_copy.Base.{ℕ, String, Bool, true, false, ◌&&◌, Option, none, some, List, if◌then◌else◌}
use mes_copy.Base.Int.{ℤ}
pub mod Tables
pub mod Execution
pub mod Stations
pub mod Completion
pub mod Recovery
pub mod Routes
pub mod Orders
pub mod Changes
pub mod Rows
pub mod Sorting
pub mod Next
pub mod Left
pub mod Underway
pub mod Release
pub mod Journey
pub mod Refinement
pub mod Sound
pub mod Calls
pub mod Each
pub mod Settled
pub mod Finished
pub mod Active
pub mod Added
pub mod Created
pub mod External
pub mod Reconnect
mod Tests

pub data CarrierStatus : Type 0 where
  available : CarrierStatus
  assigned : CarrierStatus
  in_process : CarrierStatus
  completed : CarrierStatus
  error : CarrierStatus

pub data PhysicalState : Type 0 where
  unknown : PhysicalState
  stored : PhysicalState
  dispensed : PhysicalState
  in_transit : PhysicalState
  at_station : PhysicalState
  returned : PhysicalState
  missing : PhysicalState
  rfid_error : PhysicalState

pub record Carrier : Type 0 where
  pub id : ℕ
  pub carrier_number : ℕ
  pub order_id : Option ℕ
  pub current_step_no : Option ℕ
  pub current_resource_id : Option ℕ
  pub status : CarrierStatus
  pub inventory_managed : Bool
  pub physical_state : PhysicalState
  pub rfid_uid : Option String
  pub storage_slot : Option String
  pub rfid_read_valid : Option Bool
  pub last_reader_id : Option String
  pub last_seen_at : Option ℕ
  pub inventory_source : Option String
  pub inventory_revision : Option String
  pub inventory_stale : Bool

-- `done` is 'completed'.
pub data OrderStatus : Type 0 where
  pending : OrderStatus
  in_progress : OrderStatus
  done : OrderStatus
  cancelled : OrderStatus
  on_hold : OrderStatus

pub record Order : Type 0 where
  pub id : ℕ
  pub name : String
  pub priority : ℕ
  pub machine_id : ℕ
  pub product_id : Option ℕ
  pub operation : String
  pub status : OrderStatus
  pub quantity : ℕ
  pub completed_quantity : ℕ
  pub start_time : Option ℕ
  pub end_time : Option ℕ
  pub target_complete_time : Option ℕ
  pub error_message : Option String

-- An entry of a `Record<string, number>`.
pub record Parameter : Type 0 where
  pub key : String
  pub value : String

pub record RouteStep : Type 0 where
  pub id : ℕ
  pub order_id : ℕ
  pub step_no : ℕ
  pub resource_id : ℕ
  pub operation_no : ℕ
  pub operation : String
  pub parameters : List Parameter

-- `finished` is 'completed'.
pub data ExecutionStepState : Type 0 where
  waiting : ExecutionStepState
  ready : ExecutionStepState
  running : ExecutionStepState
  paused : ExecutionStepState
  finished : ExecutionStepState
  failed : ExecutionStepState

pub data ExecutionStepSource : Type 0 where
  mes_routing : ExecutionStepSource
  machine : ExecutionStepSource

-- `result`: the outcome and the reason.
pub record StepResult : Type 0 where
  pub outcome : String
  pub reason : Option String

pub record ExecutionStep : Type 0 where
  pub id : ℕ
  pub order_id : ℕ
  pub carrier_id : Option ℕ
  pub carrier_number : Option ℕ
  pub resource_id : ℕ
  pub operation_no : ℕ
  pub operation : String
  pub step_no : ℕ
  pub state : ExecutionStepState
  pub source : ExecutionStepSource
  pub started_at : Option ℕ
  pub ended_at : Option ℕ
  pub result : Option StepResult

pub record Machine : Type 0 where
  pub id : ℕ
  pub name : String
  pub resource_id : Option ℕ
  pub parent_resource_id : Option ℕ

pub record Product : Type 0 where
  pub id : ℕ
  pub part_no : String
  pub name : String
  pub is_active : Bool

pub record ProductRouteStep : Type 0 where
  pub id : ℕ
  pub product_id : ℕ
  pub step_no : ℕ
  pub resource_id : ℕ
  pub operation_no : ℕ
  pub operation : String
  pub parameters : List Parameter

-- The tables.
pub record Database : Type 0 where
  pub carriers : List Carrier
  pub orders : List Order
  pub route_steps : List RouteStep
  pub execution_steps : List ExecutionStep
  pub machines : List Machine
  pub products : List Product
  pub product_route_steps : List ProductRouteStep

-- `MachineStationRoutingProfile`, `MachineStationProfile` and `MachineProfile`, as far as routing
-- reads them; `terminal_resource_id` is `none` if the value is not there or no integer.
pub record StationRouting : Type 0 where
  pub enabled : Option Bool
  pub sequence : ℕ
  pub operation_no : ℕ
  pub operation : String

pub record Station : Type 0 where
  pub resource_id : ℕ
  pub enabled : Bool
  pub routing : Option StationRouting

pub record Profile : Type 0 where
  pub stations : List Station
  pub terminal_resource_id : Option ℤ

-- `isCarrierPhysicallyAvailable`.
abbrev pub is_stored : PhysicalState → Bool
is_stored stored = true
is_stored _ = false

abbrev pub is_true : Option Bool → Bool
is_true (some true) = true
is_true _ = false

abbrev pub is_false : Bool → Bool
is_false false = true
is_false true = false

unfoldable pub is_carrier_physically_available : Carrier → Bool
is_carrier_physically_available c =
    if c.inventory_managed
    then is_stored c.physical_state && is_true c.rfid_read_valid && is_false c.inventory_stale
    else true

-- What a carrier is when no order has it.
unfoldable pub release : Carrier → Carrier
release c = record c {
  status = available;
  order_id = none;
  current_step_no = none;
  current_resource_id = none;
}
