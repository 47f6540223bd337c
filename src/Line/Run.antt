-- ===== src/Line/Run.antt =====
-- The production line as a machine of events: whatever the event loop can call next, in any order.
-- An event that is not there to be called, such as a timer that is not set, changes nothing.
use mes_copy.Base.{
  ℕ, String, true, Option, none, some, List, [], ◌∷◌, map, if◌then◌else◌, get_elem?, remove_at,
}
use mes_copy.OpcUa.{Value, fits, Variable, set_value, lookup_node}
use mes_copy.Line.{
  Settings, Station, Line, Timer, queue_check, request, completion, pulse_end, storing, release,
  first_release, stored,
}
use mes_copy.Line.Start.{initial}
use mes_copy.Line.Inventory.{observe_carrier, Overrides}
use mes_copy.Line.Handling.{end_pulse}
use mes_copy.Line.Queue.{at_station_of, request_mes_data, process_next_in_queue, time_out}
use mes_copy.Line.Plc.{complete_station_cycle, simulate_plc}
use mes_copy.Line.Plans.{release_carrier, start_releases, refresh_carriers}
use mes_copy.Line.Fetch.{fetch_carriers_from_mes, Answers}
use mes_copy.Line.Nodes.{station_variables}

-- What `Date.now()` and `Math.random()`, in millionths, return in an event.
pub record Moment : Type 0 where
  pub now : ℕ
  pub random : ℕ

pub data Event : Type 0 where
  plc : ℕ → Event  -- the 100 ms interval of a station
  timer : ℕ → Event  -- a timer, by its place among those that are set, runs out
  timeout : ℕ → Event  -- the `requestTimeout` of a station runs out
  interval : ℕ → Event  -- an interval of `scheduleCarrierReleases`, by its place
  refresh : Answers → Event  -- the MES has given its answers to `refreshCarriers`
  write : String → Value → Event  -- a client writes the variable with this node id

abbrev pub back_in_store : Settings → Overrides
back_in_store c = record { occupied = some true; reader_id = some c.inventory_reader_id }

unfoldable pub fire : Settings → Moment → Timer → Line → Line
unfolding end_pulse
fire c t (queue_check r) line = process_next_in_queue c t.now r line
fire c t (request r ref) line = request_mes_data c t.now r ref line
fire c t (completion r) line = complete_station_cycle c t.now t.random r line
fire c t (pulse_end r) line = at_station_of r end_pulse line
fire c t (storing id) line = observe_carrier c t.now id stored (back_in_store c) line
fire c t (release ref) line = release_carrier c t.now ref line
fire c t (first_release ref) line = start_releases c t.now ref line

unfoldable pub fire_at : Settings → Moment → ℕ → Option Timer → Line → Line
unfolding fire
fire_at c t n none line = line
fire_at c t n (some due) line = fire c t due (record line { timers = remove_at n line.timers })

unfoldable pub release_at : Settings → Moment → Option ℕ → Line → Line
release_at c t none line = line
release_at c t (some ref) line = release_carrier c t.now ref line

abbrev pub written : Station → Option Station → Station
written s none = s
written s (some s') = s'

-- The server refuses a value that the variable's data type does not hold, and calls the setter of
-- a variable that has one.
unfoldable pub write_to : Option (Variable Station) → Value → Station → Station
write_to none v s = s
write_to (some var) v s = if fits var.data_type v then written s (set_value var v s) else s

-- A node id names a variable of one station at most.
unfoldable pub write_station : String → Value → Station → Station
unfolding write_to lookup_node station_variables
write_station id v s = write_to (lookup_node id (station_variables s.config.resource_id)) v s

unfoldable pub step : Settings → Moment → Event → Line → Line
unfolding fire_at release_at write_station
step c t (plc r) line = simulate_plc r line
step c t (timer n) line = fire_at c t n (get_elem? line.timers n) line
step c t (timeout r) line = time_out r line
step c t (interval n) line = release_at c t (get_elem? line.releasing n) line
step c t (refresh answers) line = refresh_carriers c t.now (fetch_carriers_from_mes c answers) line
step c t (write id v) line = record line { stations = map (write_station id v) line.stations }

pub record Happening : Type 0 where
  pub moment : Moment
  pub event : Event

unfoldable pub run_from : Settings → Line → List Happening → Line
unfolding step
run_from c line [] = line
run_from c line (h ∷ hs) = run_from c (step c h.moment h.event line) hs

unfoldable pub run : Settings → ℕ → List Happening → Line
unfolding run_from initial
run c now hs = run_from c (initial c now) hs
