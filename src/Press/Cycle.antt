-- ===== src/Press/Cycle.antt =====
-- The job cycle of the single-station server: the answer to a request, the running cycle, its end,
-- and the machine's commands. A `setTimeout` is a count of timers, or the delay of the one timer
-- that can be cancelled.
use mes_copy.Base.{
  ℕ, ◌+◌, ◌*◌, ◌%◌, true, false, not, ◌&&◌, ◌||◌, Option, none, some, ◌==◌, if◌then◌else◌,
}
use mes_copy.Press.{Settings, cycle_ms, reject_every, Press, Assignment}

-- `finishCycle` for a current assignment, once the machine runs.
complete_cycle : Settings → Assignment → Press → Press
complete_cycle c a s =
    let n = s.cycle_number + 1 in
    let rejected = n % reject_every c == 0 in
    record s {
      completion_pending = false;
      cycle_number = n;
      reject_count = if rejected then s.reject_count + 1 else s.reject_count;
      good_count = if rejected then s.good_count else s.good_count + 1;
      pressure = 111500 + n * 17 % 25 * 100;
      process = record s.process {
        active = false;
        completed_carrier_number = a.carrier_number;
        completed = true;
      };
      job = record s.job { request = false };
      current_assignment = none;
      clear_timers = s.clear_timers + 1;
    }

finish_of : Settings → Option Assignment → Press → Press
finish_of c none s = s
finish_of c (some a) s =
    if not s.running || s.paused || s.fault_active
    then record s { completion_pending = true }
    else complete_cycle c a s

unfoldable pub finish_cycle : Settings → Press → Press
unfolding finish_of complete_cycle
finish_cycle c s = finish_of c s.current_assignment s

-- A timer that is still set is replaced.
unfoldable pub start_accepted_cycle : Settings → Press → Press
start_accepted_cycle c s = record s {
  job = record s.job { request = false };
  process = record s.process { active = true };
  completion_pending = false;
  completion_timer = some (cycle_ms c + s.recipe.dwell_time_ms);
}

unfoldable pub reject_assignment : Press → Press
reject_assignment s = record s {
  job = record s.job { request = false };
  process = record s.process { active = false };
  current_assignment = none;
}

unfoldable pub reset_machine : Press → Press
reset_machine s = record s {
  completion_timer = none;
  running = true;
  paused = false;
  fault_active = false;
  job = record s.job { request = false; busy = false; accepted = false; rejected = false };
  process = record s.process { active = false; completed = false };
  current_assignment = none;
  response_handled = false;
  completion_pending = false;
}

-- The blocks of the interval in `simulateMachineControl`, in its order.
unfoldable pub take_reset : Press → Press
unfolding reset_machine
take_reset s =
    if s.control.reset
    then reset_machine (record s { control = record s.control { reset = false } })
    else s

unfoldable pub take_stop : Press → Press
take_stop s =
    if s.control.stop
    then record s { control = record s.control { stop = false }; running = false; paused = false }
    else s

unfoldable pub take_pause : Press → Press
take_pause s =
    if s.control.pause
    then record s { control = record s.control { pause = false }; paused = true; running = false }
    else s

unfoldable pub take_start : Press → Press
take_start s =
    if s.control.start
    then record s {
      control = record s.control { start = false };
      running = true;
      paused = false;
      fault_active = false;
      retry_timers = if s.completion_pending then s.retry_timers + 1 else s.retry_timers;
    }
    else s

unfoldable pub take_response : Settings → Press → Press
unfolding start_accepted_cycle reject_assignment
take_response c s =
    if s.job.request && not s.response_handled && (s.job.accepted || s.job.rejected)
    then (let t = record s { response_handled = true } in
        if t.job.accepted then start_accepted_cycle c t else reject_assignment t)
    else s

unfoldable pub control_tick : Settings → Press → Press
control_tick c s = take_response c (take_start (take_pause (take_stop (take_reset s))))

-- The interval in `simulateTelemetry` at the time `now`.
count_autonomous : Settings → Press → Press
count_autonomous c s =
    let n = s.cycle_number + 1 in
    let rejected = n % reject_every c == 0 in
    record s {
      cycle_number = n;
      reject_count = if rejected then s.reject_count + 1 else s.reject_count;
      good_count = if rejected then s.good_count else s.good_count + 1;
    }

unfoldable pub telemetry_tick : Settings → ℕ → Press → Press
unfolding count_autonomous
telemetry_tick c now s =
    if not s.running || s.fault_active
    then s
    else (let t = record s { pressure = 111500 + now % 2500 } in
        if not c.autonomous_telemetry || t.process.active then t else count_autonomous c t)
