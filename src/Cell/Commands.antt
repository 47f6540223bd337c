-- ===== src/Cell/Commands.antt =====
-- The machine's commands at the multi-station server: those of station 72 are for all stations.
use mes_copy.Base.{
  String, Bool, false, not, Option, none, some, List, [], ◌∷◌, map, str_eq, if◌then◌else◌, select,
}
use mes_copy.Press.{Control}
use mes_copy.Cell.{Station, Assignment, Cell}
use mes_copy.Cell.Cycle.{reset_station, stop_station, pause_station, start_station, take_response}
use mes_copy.Cell.Mes.{station_of, at_resource}

-- `Set.prototype.delete`.
unfoldable pub delete_signature : String → List String → List String
delete_signature g gs = select (λ x. not (str_eq x g)) gs

-- What `resetStation` takes out of `requestedAssignments`.
unfoldable pub drop_current : Option Assignment → List String → List String
drop_current none gs = gs
drop_current (some a) gs = delete_signature a.signature gs

unfoldable pub drop_all : List Station → List String → List String
drop_all [] gs = gs
drop_all (s ∷ ss) gs = drop_all ss (drop_current s.current_assignment gs)

pub data Command : Type 0 where
  reset stop pause start : Command

-- `applyMachineControl`.
unfoldable pub apply_machine_control : Command → Cell → Cell
unfolding reset_station stop_station pause_station start_station drop_all
apply_machine_control reset cell = record cell {
  requested_assignments = drop_all cell.stations cell.requested_assignments;
  stations = map reset_station cell.stations;
}
apply_machine_control stop cell = record cell { stations = map stop_station cell.stations }
apply_machine_control pause cell = record cell { stations = map pause_station cell.stations }
apply_machine_control start cell = record cell { stations = map start_station cell.stations }

-- `controlState.control[key]`, and its reset.
abbrev given : Command → Control → Bool
given reset control = control.reset
given stop control = control.stop
given pause control = control.pause
given start control = control.start

abbrev taken : Command → Control → Control
taken reset control = record control { reset = false }
taken stop control = record control { stop = false }
taken pause control = record control { pause = false }
taken start control = record control { start = false }

unfoldable pub is_given : Command → Option Station → Bool
is_given k none = false
is_given k (some s) = given k s.control

unfoldable pub withdraw : Command → Station → Station
withdraw k s = record s { control = taken k s.control }

unfoldable pub take_command : Command → Cell → Cell
take_command k cell =
    if is_given k (station_of 72 cell.stations)
    then apply_machine_control k
        (record cell { stations = at_resource 72 (withdraw k) cell.stations })
    else cell

-- The interval of `simulateControlAndJobs`.
unfoldable pub control_tick : Cell → Cell
unfolding take_response
control_tick cell =
    let commanded =
      take_command start (take_command pause (take_command stop (take_command reset cell))) in
    record commanded { stations = map take_response commanded.stations }
