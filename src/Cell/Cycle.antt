-- ===== src/Cell/Cycle.antt =====
-- The job cycle of one station of the multi-station server.
use mes_copy.Base.{
  ℕ, ◌+◌, ◌*◌, ◌%◌, true, false, not, ◌&&◌, ◌||◌, Option, none, some, Bool, ◌==◌, if◌then◌else◌,
}
use mes_copy.Base.Int.{pos}
use mes_copy.Cell.{Settings, reject_every, Station, Assignment}

-- `finishCycle` for a current assignment, once the machine runs. Only station 73 rejects parts.
complete_cycle : Settings → Assignment → Station → Station
complete_cycle c a s =
    let n = s.cycle_number + 1 in
    let rejected = s.definition.resource_id == 73 && n % reject_every c == 0 in
    record s {
      completion_pending = false;
      cycle_number = n;
      reject_count = if rejected then s.reject_count + 1 else s.reject_count;
      good_count = if rejected then s.good_count else s.good_count + 1;
      pressure_bar = if s.definition.pressure then 111500 + n * 17 % 25 * 100 else s.pressure_bar;
      process = record s.process {
        active = false;
        completed_carrier_number = a.carrier_number;
        completed = true;
      };
      job = record s.job { request = false };
      current_assignment = none;
      clear_timers = s.clear_timers + 1;
    }

finish_of : Settings → Option Assignment → Station → Station
finish_of c none s = s
finish_of c (some a) s =
    if not s.running || s.paused || s.fault_active
    then record s { completion_pending = true }
    else complete_cycle c a s

unfoldable pub finish_cycle : Settings → Station → Station
unfolding finish_of complete_cycle
finish_cycle c s = finish_of c s.current_assignment s

-- A timer that is still set is replaced; only a station with a recipe waits for its dwell time.
unfoldable pub start_accepted_cycle : Station → Station
start_accepted_cycle s = record s {
  job = record s.job { request = false };
  process = record s.process { active = true };
  completion_pending = false;
  completion_timer =
      some (s.definition.cycle_ms + (if s.definition.recipe then s.recipe.dwell_time_ms else 0));
}

unfoldable pub reject_assignment : Station → Station
reject_assignment s = record s {
  job = record s.job { request = false };
  process = record s.process { active = false };
  current_assignment = none;
}

-- `resetStation`, but for `requestedAssignments`.
unfoldable pub reset_station : Station → Station
reset_station s = record s {
  completion_timer = none;
  running = true;
  paused = false;
  fault_active = false;
  job = record s.job { request = false; busy = false; accepted = false; rejected = false };
  process = record s.process { active = false; completed = false };
  current_assignment = none;
  response_handled = false;
  completion_pending = false;
}

-- The branches of `applyMachineControl` for one station.
unfoldable pub stop_station : Station → Station
stop_station s = record s { running = false; paused = false }

unfoldable pub pause_station : Station → Station
pause_station s = record s { running = false; paused = true }

unfoldable pub start_station : Station → Station
start_station s = record s {
  running = true;
  paused = false;
  fault_active = false;
  retry_timers = if s.completion_pending then s.retry_timers + 1 else s.retry_timers;
}

-- The second loop of the interval in `simulateControlAndJobs`.
unfoldable pub take_response : Station → Station
unfolding start_accepted_cycle reject_assignment
take_response s =
    if s.job.request && not s.response_handled && (s.job.accepted || s.job.rejected)
    then (let t = record s { response_handled = true } in
        if t.job.accepted then start_accepted_cycle t else reject_assignment t)
    else s

-- `requestAssignment`, but for `requestedAssignments`.
unfoldable pub take_assignment : Assignment → Station → Station
take_assignment a s = record s {
  current_assignment = some a;
  response_handled = false;
  job = record {
    carrier_number = a.carrier_number;
    resource_number = a.resource_id;
    request = true;
    busy = false;
    accepted = false;
    rejected = false;
    order_number = "";
    part_number = "";
    operation_number = 0;
    step_number = pos 0;
    next_resource_number = 0;
    result_code = 0;
  };
  process = record s.process { completed = false };
}

-- What the search for assignments asks of a station.
abbrev pub is_occupied : Option Assignment → Bool
is_occupied none = false
is_occupied (some _) = true

unfoldable pub is_free : Station → Bool
is_free s = not (is_occupied s.current_assignment || s.job.request || s.process.active)

-- The interval of `simulateTelemetry`, which is for the press alone.
unfoldable pub measure : ℕ → Station → Station
measure now s =
    if s.running && not s.fault_active then record s { pressure_bar = 111500 + now % 2500 } else s
