-- ===== src/Press.antt =====
-- The single-station machine of test-machines/alternate-opcua-machine/server.js: its settings and
-- its state. The children hold its operations and their proofs.
-- Pressures are in thousandths of a bar, doubles in thousandths, times in milliseconds.
pub mod Variables
pub mod Cycle
pub mod Mes
pub mod Run
pub mod Frame
pub mod Induction
pub mod Consistency
pub mod Counting
pub mod Requests
pub mod Search
pub mod Progress
mod Tests
use mes_copy.Base.{
  ℕ, String, Bool, true, false, Option, none, some, List, [], ℤ, leb, if◌then◌else◌,
}
use mes_copy.Base.Int.{pos}

-- What the environment variables ask for; `none` is a text that is no whole number from 0 up.
pub record Settings : Type 0 where
  pub requested_cycle_ms : Option ℕ
  pub requested_reject_every : Option ℕ
  pub autonomous_telemetry : Bool

abbrev at_least : ℕ → ℕ → Option ℕ → ℕ
at_least least fallback none = fallback
at_least least fallback (some n) = if leb least n then n else fallback

unfoldable pub cycle_ms : Settings → ℕ
cycle_ms c = at_least 100 1200 c.requested_cycle_ms

unfoldable pub reject_every : Settings → ℕ
reject_every c = at_least 2 7 c.requested_reject_every

abbrev pub own_resource : ℕ
own_resource = 71

pub record Assignment : Type 0 where
  pub signature : String
  pub order_id : String
  pub carrier_number : ℕ
  pub step_number : ℕ

pub record Job : Type 0 where
  pub carrier_number : ℕ
  pub resource_number : ℕ
  pub request : Bool
  pub busy : Bool
  pub accepted : Bool
  pub rejected : Bool
  pub order_number : String
  pub part_number : String
  pub operation_number : ℕ
  pub step_number : ℤ
  pub next_resource_number : ℕ
  pub result_code : ℕ

pub record Recipe : Type 0 where
  pub press_force_kn : ℤ
  pub dwell_time_ms : ℕ

pub record Process : Type 0 where
  pub active : Bool
  pub completed_carrier_number : ℕ
  pub completed : Bool

pub record Control : Type 0 where
  pub start : Bool
  pub stop : Bool
  pub reset : Bool
  pub pause : Bool

-- `state`, with the variables beside it. `completion_timer` holds the delay of the timer that is
-- set; `retry_timers` and `clear_timers` count the timers that nothing cancels: those that call
-- `finishCycle` again and those that end the completion pulse.
pub record Press : Type 0 where
  pub running : Bool
  pub paused : Bool
  pub fault_active : Bool
  pub ideal_cycle_time_ms : ℕ
  pub good_count : ℕ
  pub reject_count : ℕ
  pub pressure : ℕ
  pub cycle_number : ℕ
  pub job : Job
  pub recipe : Recipe
  pub process : Process
  pub control : Control
  pub current_assignment : Option Assignment
  pub response_handled : Bool
  pub completion_pending : Bool
  pub completion_timer : Option ℕ
  pub retry_timers : ℕ
  pub clear_timers : ℕ
  pub requested_assignments : List String
  pub api_poll_running : Bool

unfoldable pub initial : Settings → Press
unfolding cycle_ms
initial c = record {
  running = true;
  paused = false;
  fault_active = false;
  ideal_cycle_time_ms = cycle_ms c;
  good_count = 40;
  reject_count = 3;
  pressure = 112500;
  cycle_number = 0;
  job = record {
    carrier_number = 0;
    resource_number = own_resource;
    request = false;
    busy = false;
    accepted = false;
    rejected = false;
    order_number = "";
    part_number = "";
    operation_number = 0;
    step_number = pos 0;
    next_resource_number = 0;
    result_code = 0;
  };
  recipe = record { press_force_kn = pos 75000; dwell_time_ms = 500 };
  process = record { active = false; completed_carrier_number = 0; completed = false };
  control = record { start = false; stop = false; reset = false; pause = false };
  current_assignment = none;
  response_handled = false;
  completion_pending = false;
  completion_timer = none;
  retry_timers = 0;
  clear_timers = 0;
  requested_assignments = [];
  api_poll_running = false;
}
