-- ===== src/Cell/Tests.antt =====
-- Runs of the multi-station server, and the theorems at inputs that meet their hypotheses.
use mes_copy.Base.{
  ℕ, ◌≡◌, refl, true, false, none, some, List, [], ◌∷◌, ◌&&◌, not, All, includes, map,
}
use mes_copy.OpcUa.{bool, set_value}
use mes_copy.Press.Mes.{Carrier, RouteStep, Candidate, signature_of}
use mes_copy.Cell.{
  Settings, base_cycle_ms, reject_every, station_definitions, create_station_state, Station,
  fetching, initial,
}
use mes_copy.Cell.Cycle.{finish_cycle, is_free, take_assignment}
use mes_copy.Cell.Mes.{
  request_all, add_signature, begin_poll, hear_carriers, hear_route, scan, assign, station_of,
  at_resource, due_candidate,
}
use mes_copy.Cell.Commands.{
  is_given, reset, delete_signature, drop_current, withdraw, take_command, control_tick,
  apply_machine_control,
}
use mes_copy.Cell.Run.{
  Event, control, completion, clear, poll, carriers, route, write, complete, clear_station,
  write_station, step, run_from, run,
}
use mes_copy.Cell.Invariant.{IsCellSound}
use mes_copy.Cell.Safety.{run-IsCellSound}
use mes_copy.Cell.Lost.{IsOverwritten, two_carriers_overwrite}
use mes_copy.Cell.Past.{IsPast}
use mes_copy.Cell.Past.Runs.{run_from-IsPast}
use mes_copy.Cell.Resetting.{IsReady, kept_of, is_worked_on, reset_frees}

server : Unit {0}
unfolding run control_tick take_command withdraw delete_signature drop_current reject_every
    base_cycle_ms station_definitions create_station_state finish_cycle is_free take_assignment
    request_all add_signature begin_poll hear_carriers hear_route scan assign station_of at_resource
    due_candidate complete clear_station write_station step set_value initial apply_machine_control
    signature_of is_given
server = tt

abbrev settings : Settings
settings = record { requested_cycle_ms = none; requested_reject_every = none }

abbrev carrier : ℕ → ℕ → Carrier
carrier number step_no = record {
  order_id = some "o1";
  carrier_number = number;
  status = "assigned";
  current_step_no = some step_no;
}

-- Step 2 is for station 71 and step 3 for station 72.
abbrev steps : List RouteStep
steps =
    record { step_no = 2; resource_id = some 71 }
    ∷ record { step_no = 3; resource_id = some 72 }
    ∷ []

-- A poll that finds an assignment for station 71 and one for station 72.
abbrev requested : List Event
requested =
    poll
    ∷ carriers (some (carrier 8 2 ∷ carrier 9 3 ∷ []))
    ∷ route (some steps)
    ∷ route (some steps)
    ∷ []

abbrev one_cycle : List Event
one_cycle =
    poll
    ∷ carriers (some (carrier 9 3 ∷ []))
    ∷ route (some steps)
    ∷ write "s=NX9000.Job.Accepted" (bool true)
    ∷ control
    ∷ completion 72
    ∷ clear 72
    ∷ []

requested_test : (run settings requested).requested_assignments ≡ "o1:9:3" ∷ "o1:8:2" ∷ []
unfolding server
requested_test = refl

run-IsCellSound_example : IsCellSound settings (run settings one_cycle)
run-IsCellSound_example = run-IsCellSound settings one_cycle

run_from-IsPast_example : IsPast "o1:9:3" (run_from settings (run settings one_cycle) requested)
unfolding server
run_from-IsPast_example =
    run_from-IsPast "o1:9:3" settings requested (run settings one_cycle)
      (record { taken = refl; stations = (tt, (tt, (tt, tt))); polling = tt })

abbrev first : Candidate
first = record { order = "o1"; number = 8; step = 2 }

abbrev second : Candidate
second = record { order = "o1"; number = 9; step = 2 }

abbrev infeed : Station
infeed = create_station_state (record {
  resource_id = 71;
  prefix = "NX9000.Infeed";
  cycle_ms = 600;
  initial_good_count = 42;
  initial_reject_count = 0;
  recipe = false;
  pressure = false;
  machine_control = false;
})

-- Two carriers for station 71 in one poll.
two_carriers_overwrite_example : IsOverwritten first second 71 (
    run_from settings
      (record (initial settings) { poll = fetching })
      (carriers (some (carrier 8 2 ∷ carrier 9 2 ∷ []))
        ∷ route (some steps)
        ∷ route (some steps)
        ∷ []))
unfolding server
two_carriers_overwrite_example =
    two_carriers_overwrite settings (initial settings) (carrier 8 2) (carrier 9 2) first second
      steps steps 71 infeed refl refl refl refl refl refl refl

reset_frees_example :
    All IsReady (apply_machine_control reset (run settings requested)).stations
    × (map kept_of (apply_machine_control reset (run settings requested)).stations
        ≡ map kept_of (run settings requested).stations)
    × (includes "o1:9:3"
          (apply_machine_control reset (run settings requested)).requested_assignments
        ≡ includes "o1:9:3" (run settings requested).requested_assignments
          && not (is_worked_on "o1:9:3" (run settings requested).stations))
reset_frees_example = reset_frees "o1:9:3" (run settings requested)
