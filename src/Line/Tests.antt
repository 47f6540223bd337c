-- ===== src/Line/Tests.antt =====
-- Runs of the production line, and the theorems at inputs that meet their hypotheses.
use mes_copy.Base.{ℕ, ◌≡◌, refl, true, none, some, List, [], ◌∷◌}
use mes_copy.Base.Int.{pos}
use mes_copy.OpcUa.{bool, uint, set_value}
use mes_copy.Line.{Settings, Station, Carrier, Line, Known}
use mes_copy.Line.Start.{
  initial, inventory_capacity, configured_inventory_carrier_ids, create_slots, create_station_state,
  station_configs,
}
use mes_copy.Line.Queue.{station_of, carrier_at, time_out}
use mes_copy.Line.Plc.{complete_station_cycle, simulate_plc}
use mes_copy.Line.Plans.{release_carrier, start_releases, refresh_carriers, target_of}
use mes_copy.Line.Fetch.{fetch_carriers_from_mes, Answers, current_target_resource_id}
use mes_copy.Line.Run.{
  Moment, Event, plc, timer, refresh, write, step, write_station, Happening, run_from, run,
}
use mes_copy.Line.Served.{IsServedLine}
use mes_copy.Line.Service.{run-IsServedLine}
use mes_copy.Line.Stock.{IsWatched, IsStocked}
use mes_copy.Line.Revision.{run_from-IsWatched, run-IsStocked}
use mes_copy.Line.Routing.{IsSentOn, sent, working, accepted_travels, refresh_reroutes}
use mes_copy.Line.Stranded.{IsStranded, reset_strands}

server : Unit {0}
unfolding run step initial inventory_capacity configured_inventory_carrier_ids create_slots
    station_configs create_station_state refresh_carriers fetch_carriers_from_mes start_releases
    release_carrier complete_station_cycle simulate_plc write_station set_value time_out station_of
    carrier_at target_of current_target_resource_id
server = tt

abbrev settings : Settings
settings = record {
  requested_inventory_capacity = some 2;
  inventory_valid = true;
  inventory_reader_id = "R";
  inventory_carrier_ids = some 128 ∷ none ∷ some 0 ∷ some 129 ∷ some 130 ∷ [];
  invalid_slots = some 2 ∷ [];
  carrier_ids = none;
  scrap_rate_s01 = 0;
  scrap_rate_s02 = 0;
  scrap_rate_q01 = 0;
}

abbrev at : ℕ → Event → Happening
at now event = record { moment = record { now = now; random = 0 }; event = event }

-- The carrier 128 is at the step of a resource.
abbrev answers : ℕ → Answers
answers r = record {
  carriers = some (
      record {
        order_id = some "o1";
        carrier_number = 128;
        status = "assigned";
        current_step_no = some 1;
        current_resource_id = none;
      }
      ∷ []);
  route = λ _. some (record { step_no = 1; resource_id = some r } ∷ []);
}

-- The carrier is planned, released and requested at station 1.
abbrev requested : List Happening
requested = at 1000 (refresh (answers 1)) ∷ at 3000 (timer 0) ∷ []

abbrev requested_line : Line
requested_line = run settings 0 requested

requested_test :
    (requested_line.revision ≡ 3)
    × (requested_line.timers ≡ [])
    × (requested_line.releasing ≡ 0 ∷ [])
unfolding server
requested_test = (refl, refl, refl)

abbrev accepted : List Happening
accepted =
    at 1000 (refresh (answers 1))
    ∷ at 3000 (timer 0)
    ∷ at 3100 (write "ns=1;s=Station1.stMES.Query.uiNextResourceId" (uint 2))
    ∷ at 3200 (write "ns=1;s=Station1.stMES.Query.xDone" (bool true))
    ∷ []

abbrev accepted_line : Line
accepted_line = run settings 0 accepted

run-IsServedLine_example : IsServedLine [] accepted_line
run-IsServedLine_example = run-IsServedLine settings 0 accepted

run-IsStocked_example : IsStocked settings accepted_line
run-IsStocked_example = run-IsStocked settings 0 accepted

run_from-IsWatched_example :
    IsWatched requested_line (run_from settings requested_line (at 4000 (plc 1) ∷ []))
run_from-IsWatched_example = run_from-IsWatched settings (at 4000 (plc 1) ∷ []) requested_line

abbrev first_or : Station → List Station → Station
first_or s [] = s
first_or s (t ∷ ts) = t

abbrev any_station : Station
any_station = create_station_state (record {
  resource_id = 1;
  name = "";
  station_type = "";
  operation_no = 0;
  operation = "";
  cycle_time_ms = 0;
  scrap_rate = 0;
})

abbrev station1 : Station
station1 = first_or any_station accepted_line.stations

abbrev carrier : Carrier
carrier = record {
  carrier_id = pos 128;
  target_resource_id = 1;
  route_resource_id = 1;
  release_delay = 2000;
}

abbrev tick : Moment
tick = record { now = 3300; random = 5 }

abbrev done : Moment
done = record { now = 8300; random = 7 }

-- Station 1 has the MES's consent for carrier 128, which is to go to station 2.
accepted_travels_example : IsSentOn 1 0 8300 station1 carrier accepted_line (
    run_from settings accepted_line
      (record { moment = tick; event = plc 1 } ∷ record { moment = done; event = timer 0 } ∷ []))
unfolding server
accepted_travels_example =
    accepted_travels 1 0 station1 carrier accepted_line refl
      (record {
        current = refl;
        asks = refl;
        done = refl;
        unseen = refl;
        reset = refl;
        stop = refl;
        pause = refl;
        start = refl;
        auto = refl;
        error = refl;
      })
      refl settings tick done refl refl refl

abbrev plan : Carrier
plan = record {
  carrier_id = pos 128;
  target_resource_id = 1;
  route_resource_id = 1;
  release_delay = 2000;
}

abbrev known : Known
known = record { carrier_id = pos 128; plan = 0 }

-- A refresh during the cycle, when the MES still has the carrier at station 1, sends it there again.
refresh_reroutes_example :
    run_from settings accepted_line (
      record { moment = tick; event = plc 1 }
      ∷ record { moment = tick; event = refresh (answers 1) }
      ∷ record { moment = done; event = timer 0 }
      ∷ [])
    ≡ sent settings 8300 1 0 plan
        (refresh_carriers settings 3300 (plan ∷ []) (working 1 0 station1 accepted_line))
unfolding server
refresh_reroutes_example =
    refresh_reroutes 1 0 station1 carrier accepted_line refl
      (record {
        current = refl;
        asks = refl;
        done = refl;
        unseen = refl;
        reset = refl;
        stop = refl;
        pause = refl;
        start = refl;
        auto = refl;
        error = refl;
      })
      refl settings tick tick done (answers 1) plan known refl refl refl refl refl refl

abbrev given_reset : Line
given_reset =
    run_from settings requested_line
      (at 3100 (write "ns=1;s=Station1.stMES.Control.xCmdReset" (bool true)) ∷ [])

-- A reset while station 1 waits for the MES: carrier 128 is lost to the line.
reset_strands_example : IsStranded 1 given_reset (
    run_from settings given_reset
      (record { moment = tick; event = plc 1 } ∷ record { moment = done; event = timer 0 } ∷ []))
unfolding server
reset_strands_example =
    reset_strands 1 0 (first_or any_station given_reset.stations) given_reset refl refl refl refl
      refl refl settings tick done refl refl
