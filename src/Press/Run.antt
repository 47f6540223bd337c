-- ===== src/Press/Run.antt =====
-- The single-station server as a machine of events: whatever the event loop can call next. The
-- order of the events is free, so every interleaving of intervals, timers, answers of the MES and
-- writes of OPC UA clients is a list of events. An event that is not there to be called, such as
-- a timer that is not set, changes nothing.
use mes_copy.Base.{ℕ, zero, suc, String, false, Option, none, some, List, [], ◌∷◌, if◌then◌else◌}
use mes_copy.OpcUa.{Value, fits, Variable, set_value, lookup_node}
use mes_copy.Press.{Settings, Press, initial}
use mes_copy.Press.Variables.{variables}
use mes_copy.Press.Cycle.{finish_cycle, control_tick, telemetry_tick}
use mes_copy.Press.Mes.{Answers, begin_poll, end_poll}

pub data Event : Type 0 where
  control : Event  -- the 50 ms interval
  telemetry : ℕ → Event  -- the interval of the cycle time, at a time
  completion : Event  -- `completionTimer` runs out
  retry : Event  -- a `setTimeout(finishCycle, 100)` runs out
  clear : Event  -- the timer that ends the completion pulse runs out
  poll : Event  -- the carrier interval
  answer : Answers → Event  -- the requests of the running poll have returned
  write : String → Value → Event  -- a client writes the variable with this node id

unfoldable pub complete_with : Settings → Option ℕ → Press → Press
complete_with c none s = s
complete_with c (some _) s = finish_cycle c (record s { completion_timer = none })

unfoldable pub retry_with : Settings → ℕ → Press → Press
retry_with c zero s = s
retry_with c (suc n) s = finish_cycle c (record s { retry_timers = n })

unfoldable pub clear_with : ℕ → Press → Press
clear_with zero s = s
clear_with (suc n) s = record s {
  clear_timers = n;
  process = record s.process { completed = false };
}

abbrev pub written : Press → Option Press → Press
written s none = s
written s (some s') = s'

-- The server refuses a value that the variable's data type does not hold, and calls the setter of
-- a variable that has one.
unfoldable pub write_to : Option (Variable Press) → Value → Press → Press
write_to none v s = s
write_to (some var) v s = if fits var.data_type v then written s (set_value var v s) else s

unfoldable pub client_write : String → Value → Press → Press
unfolding write_to lookup_node variables
client_write id v s = write_to (lookup_node id variables) v s

unfoldable pub step : Settings → Press → Event → Press
unfolding complete_with retry_with clear_with
step c s control = control_tick c s
step c s (telemetry now) = telemetry_tick c now s
step c s completion = complete_with c s.completion_timer s
step c s retry = retry_with c s.retry_timers s
step c s clear = clear_with s.clear_timers s
step c s poll = begin_poll s
step c s (answer ans) = if s.api_poll_running then end_poll ans s else s
step c s (write id v) = client_write id v s

unfoldable pub run_from : Settings → Press → List Event → Press
run_from c s [] = s
run_from c s (e ∷ es) = run_from c (step c s e) es

unfoldable pub run : Settings → List Event → Press
unfolding run_from
run c es = run_from c (initial c) es
