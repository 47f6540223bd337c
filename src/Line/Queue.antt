-- ===== src/Line/Queue.antt =====
-- How carriers come to a station of the production line, wait for it and are requested from the
-- MES.
use mes_copy.Base.{
  ℕ, ◌+◌, String, Bool, true, false, not, ◌&&◌, ◌||◌, Option, none, some, List, [], ◌∷◌, ◌++◌, map,
  find, ltb, if◌then◌else◌, ◌==◌, get_elem?, show, ◌<>◌,
}
use mes_copy.Line.{Settings, Station, Carrier, Line, Timer, queue_check, at_station}
use mes_copy.Line.Inventory.{observe_carrier, Overrides}
use mes_copy.Line.Handling.{is_taken, enqueue, start_request, give_up}

unfoldable pub station_of : ℕ → List Station → Option Station
station_of r stations = find (λ s. s.config.resource_id == r) stations

unfoldable pub at_station_of : ℕ → (Station → Station) → Line → Line
at_station_of r f line = record line {
  stations = map (λ s. if s.config.resource_id == r then f s else s) line.stations;
}

unfoldable pub set_timer : Timer → Line → Line
set_timer t line = record line { timers = t ∷ line.timers }

-- A carrier object; every number in use names one.
abbrev no_carrier : Carrier
no_carrier = record {
  carrier_id = mes_copy.Base.Int.pos 0;
  target_resource_id = 0;
  route_resource_id = 0;
  release_delay = 0;
}

abbrev or_no_carrier : Option Carrier → Carrier
or_no_carrier none = no_carrier
or_no_carrier (some carrier) = carrier

unfoldable pub carrier_at : ℕ → Line → Carrier
carrier_at ref line = or_no_carrier (get_elem? line.carriers ref)

abbrev pub at_reader : ℕ → Overrides
at_reader r = record {
  occupied = some false;
  reader_id = some ("DEMO-STATION-" <> show r <> "-RFID");
}

-- `requestMesData` for a station that is neither taken nor blocked.
unfoldable pub begin_request : Settings → ℕ → ℕ → ℕ → Line → Line
unfolding observe_carrier carrier_at start_request at_station_of
begin_request c now r ref line =
    at_station_of r (start_request ref (carrier_at ref line))
      (observe_carrier c now (carrier_at ref line).carrier_id at_station (at_reader r) line)

unfoldable pub request_at : Settings → ℕ → ℕ → ℕ → Option Station → Line → Line
unfolding enqueue set_timer begin_request
request_at c now r ref none line = line
request_at c now r ref (some s) line =
    if is_taken s
    then at_station_of r (enqueue ref) line
    else if ltb now s.x_start_blocked_until
    then set_timer (queue_check r) (at_station_of r (enqueue ref) line)
    else begin_request c now r ref line

-- `requestMesData`.
unfoldable pub request_mes_data : Settings → ℕ → ℕ → ℕ → Line → Line
unfolding request_at station_of
request_mes_data c now r ref line = request_at c now r ref (station_of r line.stations) line

unfoldable pub shift_queue : List ℕ → Station → Station
shift_queue rest s = record s { waiting_queue = rest }

-- `processNextInQueue` by the queue of the station.
unfoldable pub process_queue : Settings → ℕ → ℕ → List ℕ → Station → Line → Line
unfolding shift_queue at_station_of set_timer request_mes_data
process_queue c now r [] s line = line
process_queue c now r (next ∷ rest) s line =
    if is_taken s
    then line
    else if ltb now s.x_start_blocked_until
    then set_timer (queue_check r) line
    else request_mes_data c now r next (at_station_of r (shift_queue rest) line)

unfoldable pub process_at : Settings → ℕ → ℕ → Option Station → Line → Line
unfolding process_queue
process_at c now r none line = line
process_at c now r (some s) line = process_queue c now r s.waiting_queue s line

-- `processNextInQueue`.
unfoldable pub process_next_in_queue : Settings → ℕ → ℕ → Line → Line
unfolding process_at station_of
process_next_in_queue c now r line = process_at c now r (station_of r line.stations) line

-- The timer that `requestMesData` sets runs out.
unfoldable pub clear_timeout : Station → Station
clear_timeout s = record s { request_timeout = false }

unfoldable pub time_out_with : ℕ → Station → Line → Line
unfolding give_up clear_timeout at_station_of set_timer
time_out_with r s line =
    if s.request_timeout
    then (if s.query.x_start
        then set_timer (queue_check r) (at_station_of r (λ t. give_up (clear_timeout t)) line)
        else at_station_of r clear_timeout line)
    else line

unfoldable pub time_out_at : ℕ → Option Station → Line → Line
unfolding time_out_with
time_out_at r none line = line
time_out_at r (some s) line = time_out_with r s line

unfoldable pub time_out : ℕ → Line → Line
unfolding time_out_at station_of
time_out r line = time_out_at r (station_of r line.stations) line
