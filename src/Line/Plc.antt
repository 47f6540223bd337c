-- ===== src/Line/Plc.antt =====
-- The controller of a station of the production line: the end of a cycle and the interval of
-- `simulatePlc`.
use mes_copy.Base.{
  ℕ, Bool, true, false, not, ◌&&◌, ◌||◌, Option, none, some, [], ◌∷◌, ◌++◌, ltb, if◌then◌else◌,
  ◌==◌, modify, show, ◌<>◌, length, is_some,
}
use mes_copy.Line.{
  Settings, Station, Carrier, Line, Timer, queue_check, request, completion, pulse_end, storing,
  release, in_transit,
}
use mes_copy.Line.Inventory.{observe_carrier, Overrides}
use mes_copy.Line.Handling.{
  finish, reset_station, stop_station, pause_station, start_station, resumes, is_answered,
  see_response, forget_rejects, give_up,
}
use mes_copy.Line.Queue.{station_of, at_station_of, set_timer, carrier_at}

abbrev pub at_exit : ℕ → Overrides
at_exit r = record {
  occupied = some false;
  reader_id = some ("DEMO-STATION-" <> show r <> "-EXIT");
}

-- Where a carrier that was not failed goes: to the station on its route, or to the store if its
-- route is 0; a route to no station leaves it where it is.
unfoldable pub send_on : Settings → ℕ → ℕ → ℕ → Carrier → Line → Line
unfolding observe_carrier set_timer
send_on c now r ref carrier line =
    if carrier.route_resource_id == 0
    then set_timer (storing carrier.carrier_id) line
    else if is_some (station_of carrier.route_resource_id line.stations)
    then set_timer (request carrier.route_resource_id ref)
        (observe_carrier c now carrier.carrier_id in_transit (at_exit r) line)
    else line

-- `completeStationCycle` for a station that may go on.
unfoldable pub complete_cycle : Settings → ℕ → ℕ → ℕ → Bool → Line → Line
unfolding finish send_on carrier_at at_station_of set_timer
complete_cycle c now r ref failed line =
    let finished = set_timer (pulse_end r) (at_station_of r (finish now failed) line) in
    set_timer (queue_check r)
      (if failed then finished else send_on c now r ref (carrier_at ref line) finished)

unfoldable pub postpone : Station → Station
postpone s = record s { pending_completion = true }

-- `station.scrapRate > 0 && Math.random() < station.scrapRate`.
abbrev pub fails : ℕ → Station → Bool
fails random s = ltb 0 s.config.scrap_rate && ltb random s.config.scrap_rate

unfoldable pub complete_with : Settings → ℕ → ℕ → ℕ → Option ℕ → Station → Line → Line
unfolding complete_cycle postpone at_station_of
complete_with c now random r none s line = line
complete_with c now random r (some ref) s line =
    if not s.state.x_auto || s.state.x_err_l0
    then at_station_of r postpone line
    else complete_cycle c now r ref (fails random s) line

unfoldable pub complete_at : Settings → ℕ → ℕ → ℕ → Option Station → Line → Line
unfolding complete_with
complete_at c now random r none line = line
complete_at c now random r (some s) line = complete_with c now random r s.current_carrier s line

-- `completeStationCycle`.
unfoldable pub complete_station_cycle : Settings → ℕ → ℕ → ℕ → Line → Line
unfolding complete_at station_of
complete_station_cycle c now random r line =
    complete_at c now random r (station_of r line.stations) line

-- The object that stands for a carrier that is not there; it has no target.
abbrev pub lost_carrier : Station → Carrier
lost_carrier s = record {
  carrier_id = s.process_data.carrier_id;
  target_resource_id = 0;
  route_resource_id = s.config.resource_id;
  release_delay = 0;
}

abbrev pub resend : ℕ → ℕ → Timer
resend r ref = if r == 3 then request r ref else release ref

unfoldable pub reset_with : ℕ → Option ℕ → Station → Line → Line
unfolding reset_station carrier_at at_station_of set_timer
reset_with r (some ref) s line =
    set_timer (resend r ref) (at_station_of r (reset_station (carrier_at ref line).carrier_id) line)
reset_with r none s line = set_timer (resend r (length line.carriers)) (
    at_station_of r (reset_station s.process_data.carrier_id)
      (record line { carriers = line.carriers ++ lost_carrier s ∷ [] }))

-- The five parts of the interval, each for the station as the part before left it.
unfoldable pub take_reset : ℕ → Station → Line → Line
unfolding reset_with
take_reset r s line = if s.control.x_cmd_reset then reset_with r s.current_carrier s line else line

unfoldable pub take_stop : ℕ → Station → Line → Line
unfolding stop_station at_station_of
take_stop r s line = if s.control.x_cmd_stop then at_station_of r stop_station line else line

unfoldable pub take_pause : ℕ → Station → Line → Line
unfolding pause_station at_station_of
take_pause r s line = if s.control.x_cmd_pause then at_station_of r pause_station line else line

unfoldable pub take_start : ℕ → Station → Line → Line
unfolding start_station at_station_of set_timer
take_start r s line =
    if s.control.x_cmd_start
    then (let started = at_station_of r start_station line in
        if resumes s then set_timer (completion r) started else started)
    else line

-- The PLC writes the routing answer onto the carrier; without a carrier the source would throw.
unfoldable pub route_carrier : ℕ → Option ℕ → Line → Line
route_carrier next none line = line
route_carrier next (some ref) line = record line {
  carriers = modify ref (λ x. record x { route_resource_id = next }) line.carriers;
}

unfoldable pub take_response : ℕ → Station → Line → Line
unfolding see_response forget_rejects give_up route_carrier at_station_of set_timer
take_response r s line =
    if is_answered s
    then (if s.query.x_done
        then set_timer (completion r) (
            route_carrier s.query.next_resource_id s.current_carrier
              (at_station_of r (λ t. forget_rejects (see_response t)) line))
        else set_timer (queue_check r) (at_station_of r (λ t. give_up (see_response t)) line))
    else line

unfoldable pub part_at : (Station → Line → Line) → Option Station → Line → Line
part_at f none line = line
part_at f (some s) line = f s line

abbrev pub part : ℕ → (ℕ → Station → Line → Line) → Line → Line
part r f line = part_at (f r) (station_of r line.stations) line

-- The interval of `simulatePlc` for one station.
unfoldable pub simulate_plc : ℕ → Line → Line
unfolding part_at take_reset take_stop take_pause take_start take_response station_of
simulate_plc r line =
    part r take_response
      (part r take_start (part r take_pause (part r take_stop (part r take_reset line))))
