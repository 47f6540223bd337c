-- ===== src/Cell.antt =====
-- The multi-station machine of test-machines/alternate-opcua-machine/server-multistation.js: its
-- stations and its state. The children hold its operations and their proofs.
-- Pressures are in thousandths of a bar, doubles in thousandths, times in milliseconds.
pub mod Cycle
pub mod Mes
pub mod Commands
pub mod Variables
pub mod Run
pub mod Frame
pub mod Soundness
pub mod Invariant
pub mod Polling
pub mod Safety
pub mod Lost
pub mod Past
pub mod Resetting
mod Tests
use Prim.Native.Nat.{max}
use mes_copy.Base.{
  ℕ, ◌+◌, ◌*◌, ◌/◌, String, Bool, true, false, Option, none, some, List, [], ◌∷◌, map, leb,
  if◌then◌else◌,
}
use mes_copy.Base.Int.{pos}
use mes_copy.Press.{Job, Recipe, Process, Control}
use mes_copy.Press.Mes.{Carrier, Candidate}

-- What the environment variables ask for; `none` is a text that is no whole number from 0 up.
pub record Settings : Type 0 where
  pub requested_cycle_ms : Option ℕ
  pub requested_reject_every : Option ℕ

abbrev at_least : ℕ → ℕ → Option ℕ → ℕ
at_least least fallback none = fallback
at_least least fallback (some n) = if leb least n then n else fallback

unfoldable pub base_cycle_ms : Settings → ℕ
base_cycle_ms c = at_least 100 1200 c.requested_cycle_ms

unfoldable pub reject_every : Settings → ℕ
reject_every c = at_least 2 7 c.requested_reject_every

-- An entry of `stationDefinitions`; the flags that an entry leaves out are false.
pub record Definition : Type 0 where
  pub resource_id : ℕ
  pub prefix : String
  pub cycle_ms : ℕ
  pub initial_good_count : ℕ
  pub initial_reject_count : ℕ
  pub recipe : Bool
  pub pressure : Bool
  pub machine_control : Bool

-- `Math.round(n * 0.5)` and `Math.round(n * 0.75)` round halves up.
unfoldable pub station_definitions : Settings → List Definition
unfolding base_cycle_ms
station_definitions c =
    record {
      resource_id = 71;
      prefix = "NX9000.Infeed";
      cycle_ms = max 250 ((base_cycle_ms c * 2 + 2) / 4);
      initial_good_count = 42;
      initial_reject_count = 0;
      recipe = false;
      pressure = false;
      machine_control = false;
    }
    ∷ record {
      resource_id = 72;
      prefix = "NX9000";
      cycle_ms = base_cycle_ms c;
      initial_good_count = 40;
      initial_reject_count = 3;
      recipe = true;
      pressure = true;
      machine_control = true;
    }
    ∷ record {
      resource_id = 73;
      prefix = "NX9000.Quality";
      cycle_ms = max 300 ((base_cycle_ms c * 3 + 2) / 4);
      initial_good_count = 40;
      initial_reject_count = 3;
      recipe = false;
      pressure = false;
      machine_control = false;
    }
    ∷ []

pub record Assignment : Type 0 where
  pub signature : String
  pub order_id : String
  pub carrier_number : ℕ
  pub step_number : ℕ
  pub resource_id : ℕ

-- The result of `createStationState`. `completion_timer` holds the delay of the timer that is set;
-- `retry_timers` and `clear_timers` count the timers that nothing cancels: those that call
-- `finishCycle` again and those that end the completion pulse.
pub record Station : Type 0 where
  pub definition : Definition
  pub running : Bool
  pub paused : Bool
  pub fault_active : Bool
  pub ideal_cycle_time_ms : ℕ
  pub good_count : ℕ
  pub reject_count : ℕ
  pub cycle_number : ℕ
  pub pressure_bar : ℕ
  pub job : Job
  pub recipe : Recipe
  pub process : Process
  pub control : Control
  pub current_assignment : Option Assignment
  pub response_handled : Bool
  pub completion_pending : Bool
  pub completion_timer : Option ℕ
  pub retry_timers : ℕ
  pub clear_timers : ℕ

unfoldable pub create_station_state : Definition → Station
create_station_state d = record {
  definition = d;
  running = true;
  paused = false;
  fault_active = false;
  ideal_cycle_time_ms = d.cycle_ms;
  good_count = d.initial_good_count;
  reject_count = d.initial_reject_count;
  cycle_number = 0;
  pressure_bar = 112500;
  job = record {
    carrier_number = 0;
    resource_number = d.resource_id;
    request = false;
    busy = false;
    accepted = false;
    rejected = false;
    order_number = "";
    part_number = "";
    operation_number = 0;
    step_number = pos 0;
    next_resource_number = 0;
    result_code = 0;
  };
  recipe = record { press_force_kn = pos 75000; dwell_time_ms = 500 };
  process = record { active = false; completed_carrier_number = 0; completed = false };
  control = record { start = false; stop = false; reset = false; pause = false };
  current_assignment = none;
  response_handled = false;
  completion_pending = false;
  completion_timer = none;
  retry_timers = 0;
  clear_timers = 0;
}

-- Where `pollMesAssignments` waits: nowhere, for the carriers, or for the route of a carrier's
-- order, with the carriers left and the assignments found so far.
pub data Poll : Type 0 where
  idle : Poll
  fetching : Poll
  routing : Candidate → List Carrier → List Assignment → Poll

-- `stationStates`, `requestedAssignments` and the poll; `apiPollRunning` is a poll that waits.
pub record Cell : Type 0 where
  pub stations : List Station
  pub requested_assignments : List String
  pub poll : Poll

unfoldable pub initial : Settings → Cell
unfolding create_station_state station_definitions
initial c = record {
  stations = map create_station_state (station_definitions c);
  requested_assignments = [];
  poll = idle;
}
