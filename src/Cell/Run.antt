-- ===== src/Cell/Run.antt =====
-- The multi-station server as a machine of events: whatever the event loop can call next, in any
-- order. An event that is not there to be called, such as a timer that is not set, changes
-- nothing.
use mes_copy.Base.{
  ℕ, zero, suc, String, false, Option, none, some, List, [], ◌∷◌, map, if◌then◌else◌,
}
use mes_copy.OpcUa.{Value, fits, Variable, set_value, lookup_node}
use mes_copy.Press.Mes.{Carrier, RouteStep}
use mes_copy.Cell.{Settings, Station, Cell, initial}
use mes_copy.Cell.Variables.{variables}
use mes_copy.Cell.Cycle.{finish_cycle, measure}
use mes_copy.Cell.Mes.{at_resource, begin_poll, hear_carriers, hear_route}
use mes_copy.Cell.Commands.{control_tick}

pub data Event : Type 0 where
  control : Event  -- the 50 ms interval
  telemetry : ℕ → Event  -- the 250 ms interval, at a time
  completion : ℕ → Event  -- the `completionTimer` of a station runs out
  retry : ℕ → Event  -- a `setTimeout(() => finishCycle(state), 100)` runs out
  clear : ℕ → Event  -- a timer that ends a completion pulse runs out
  poll : Event  -- the carrier interval
  carriers : Option (List Carrier) → Event  -- the running poll gets the carriers
  route : Option (List RouteStep) → Event  -- the running poll gets a route
  write : String → Value → Event  -- a client writes the variable with this node id

unfoldable pub complete_with : Settings → Option ℕ → Station → Station
complete_with c none s = s
complete_with c (some _) s = finish_cycle c (record s { completion_timer = none })

unfoldable pub retry_with : Settings → ℕ → Station → Station
retry_with c zero s = s
retry_with c (suc n) s = finish_cycle c (record s { retry_timers = n })

unfoldable pub clear_with : ℕ → Station → Station
clear_with zero s = s
clear_with (suc n) s = record s {
  clear_timers = n;
  process = record s.process { completed = false };
}

unfoldable pub complete : Settings → Station → Station
unfolding complete_with
complete c s = complete_with c s.completion_timer s

unfoldable pub retry_station : Settings → Station → Station
unfolding retry_with
retry_station c s = retry_with c s.retry_timers s

unfoldable pub clear_station : Station → Station
unfolding clear_with
clear_station s = clear_with s.clear_timers s

abbrev pub written : Station → Option Station → Station
written s none = s
written s (some s') = s'

-- The server refuses a value that the variable's data type does not hold, and calls the setter of
-- a variable that has one.
unfoldable pub write_to : Option (Variable Station) → Value → Station → Station
write_to none v s = s
write_to (some var) v s = if fits var.data_type v then written s (set_value var v s) else s

-- A node id names a variable of one station at most.
unfoldable pub write_station : String → Value → Station → Station
unfolding write_to lookup_node variables
write_station id v s = write_to (lookup_node id (variables s.definition)) v s

abbrev on_stations : (List Station → List Station) → Cell → Cell
on_stations f cell = record cell { stations = f cell.stations }

unfoldable pub step : Settings → Cell → Event → Cell
step c cell control = control_tick cell
step c cell (telemetry now) = on_stations (at_resource 72 (measure now)) cell
step c cell (completion r) = on_stations (at_resource r (complete c)) cell
step c cell (retry r) = on_stations (at_resource r (retry_station c)) cell
step c cell (clear r) = on_stations (at_resource r clear_station) cell
step c cell poll = begin_poll cell
step c cell (carriers answer) = hear_carriers answer cell
step c cell (route answer) = hear_route answer cell
step c cell (write id v) = on_stations (map (write_station id v)) cell

unfoldable pub run_from : Settings → Cell → List Event → Cell
run_from c cell [] = cell
run_from c cell (e ∷ es) = run_from c (step c cell e) es

unfoldable pub run : Settings → List Event → Cell
unfolding run_from
run c es = run_from c (initial c) es
