-- ===== src/Line.antt =====
-- The demo production line of test-machines/opcua-simulator/server.js: its state. The children
-- hold its operations and their proofs. Times are in milliseconds, rates in millionths. The part
-- number of a carrier is one constant that is only printed, and is left out.
pub mod Start
pub mod Inventory
pub mod Handling
pub mod Queue
pub mod Plc
pub mod Plans
pub mod Fetch
pub mod Nodes
pub mod Run
pub mod Served
pub mod Waiting
pub mod Timing
pub mod Requesting
pub mod Attended
pub mod Controlled
pub mod Service
pub mod Stock
pub mod Watching
pub mod Revision
pub mod Lookup
pub mod Routing
pub mod Stranded
mod Tests
use mes_copy.Base.{
  ℕ, zero, suc, ◌+◌, ◌*◌, String, Bool, true, false, not, ◌&&◌, Option, none, some, List, [], ◌∷◌,
  map, ltb, leb, if◌then◌else◌, select, take, show, zeros, ◌<>◌, ◌==◌,
}
use mes_copy.Base.Int.{ℤ, pos, int_eq}

-- What the environment variables ask for. A number is `none` if its text is no whole number from 0
-- up; a list is that of its parts.
pub record Settings : Type 0 where
  pub requested_inventory_capacity : Option ℕ
  pub inventory_valid : Bool
  pub inventory_reader_id : String
  pub inventory_carrier_ids : List (Option ℕ)
  pub invalid_slots : List (Option ℕ)
  pub carrier_ids : Option (List ℕ)  -- DEMO_CARRIER_IDS; `none` if it is not there or empty
  pub scrap_rate_s01 : ℕ
  pub scrap_rate_s02 : ℕ
  pub scrap_rate_q01 : ℕ

pub data PhysicalState : Type 0 where
  stored rfid_error empty in_transit at_station : PhysicalState

pub record Slot : Type 0 where
  pub slot_number : ℕ
  pub slot_id : String
  pub occupied : Bool
  pub carrier_id : ℤ
  pub rfid_uid : String
  pub rfid_read_valid : Bool
  pub physical_state : PhysicalState
  pub reader_id : String
  pub last_seen : ℕ

-- A carrier object, which the stations, the queues, the timers and the plans share. A resource id
-- that is undefined is 0, which is as false and names no station either.
pub record Carrier : Type 0 where
  pub carrier_id : ℤ
  pub target_resource_id : ℕ
  pub route_resource_id : ℕ
  pub release_delay : ℕ

-- The `state`, `control`, `query` and `processData` of a station.
pub record Status : Type 0 where
  pub x_auto : Bool
  pub x_manual : Bool
  pub x_busy : Bool
  pub x_reset : Bool
  pub x_err_l0 : Bool
  pub x_err_l1 : Bool
  pub x_err_l2 : Bool

pub record Control : Type 0 where
  pub x_cmd_start : Bool
  pub x_cmd_stop : Bool
  pub x_cmd_pause : Bool
  pub x_cmd_reset : Bool

pub record Query : Type 0 where
  pub x_start : Bool
  pub x_qry_busy : Bool
  pub x_done : Bool
  pub x_error : Bool
  pub carrier_id : ℤ
  pub resource_id : ℕ
  pub order_no : String
  pub part_no : String
  pub operation_no : ℕ
  pub step_no : ℤ
  pub next_resource_id : ℕ
  pub par1 : ℤ
  pub par2 : ℤ
  pub par3 : ℤ
  pub par4 : ℤ
  pub result_code : ℕ

pub record ProcessData : Type 0 where
  pub carrier_id : ℤ
  pub step_no : ℤ
  pub resource_id : ℤ
  pub par1 : ℤ
  pub par2 : ℤ
  pub par3 : ℤ
  pub par4 : ℤ
  pub x_completed : Bool
  pub time_stamp : ℕ

-- An entry of `stationConfigs`.
pub record Config : Type 0 where
  pub resource_id : ℕ
  pub name : String
  pub station_type : String
  pub operation_no : ℕ
  pub operation : String
  pub cycle_time_ms : ℕ
  pub scrap_rate : ℕ

-- The result of `createStationState`. A carrier is the number of its object; `request_timeout`
-- tells whether that timer runs; `reject_counts` is 0 where the object has no such key.
pub record Station : Type 0 where
  pub config : Config
  pub state : Status
  pub control : Control
  pub query : Query
  pub process_data : ProcessData
  pub current_carrier : Option ℕ
  pub waiting_queue : List ℕ
  pub pending_completion : Bool
  pub produced_count : ℕ
  pub failed_count : ℕ
  pub response_seen : Bool
  pub x_start_blocked_until : ℕ
  pub request_timeout : Bool
  pub reject_counts : ℤ → ℕ

-- The timers that nothing cancels. They name a station by its resource id and a carrier by its
-- object's number, but for `storing`, which only needs the carrier's id.
pub data Timer : Type 0 where
  queue_check : ℕ → Timer  -- processNextInQueue(station)
  request : ℕ → ℕ → Timer  -- requestMesData(station, carrier)
  completion : ℕ → Timer  -- completeStationCycle(station)
  pulse_end : ℕ → Timer  -- xCompleted = false
  storing : ℤ → Timer  -- observeCarrier(carrierId, 'stored', …)
  release : ℕ → Timer  -- releaseCarrier(carrier)
  first_release : ℕ → Timer  -- the timer of scheduleCarrierReleases

-- An entry of `knownCarrierPlans`, whose keys are those of `knownCarrierIds`.
pub record Known : Type 0 where
  pub carrier_id : ℤ
  pub plan : ℕ

-- `carrierInventory`, `stations`, the carrier objects, the timers, the carriers that an interval
-- releases, `knownCarrierPlans` and `deactivatedCarrierIds`.
pub record Line : Type 0 where
  pub revision : ℕ
  pub slots : List Slot
  pub stations : List Station
  pub carriers : List Carrier
  pub timers : List Timer
  pub releasing : List ℕ
  pub known : List Known
  pub deactivated : List ℤ
