-- ===== src/Line/Service.antt =====
-- The plans and the events of the production line keep every station served.
use mes_copy.Base.{
  ℕ, String, ◌≡◌, refl, Option, none, some, List, [], ◌∷◌, map, arith, find, is_some, length,
  get_elem?,
}
use mes_copy.Base.Int.{ℤ, pos}
use mes_copy.OpcUa.{Value}
use mes_copy.Line.{
  Settings, Carrier, Line, Timer, queue_check, request, completion, pulse_end, storing, release,
  first_release, in_transit, stored, Known,
}
use mes_copy.Line.Start.{initial, create_station_state, station_configs}
use mes_copy.Line.Inventory.{observe_carrier, register_carrier_in_inventory, has_carrier}
use mes_copy.Line.Handling.{end_pulse}
use mes_copy.Line.Queue.{station_of, carrier_at, time_out}
use mes_copy.Line.Plans.{
  send_out, release_carrier, start_releases, schedule_at, schedule_new_carrier, schedule_all,
  refresh_carriers, includes_id, can_leave, leaving, set_route, is_known, target_of,
}
use mes_copy.Line.Fetch.{fetch_carriers_from_mes}
use mes_copy.Line.Run.{
  Moment, Event, plc, timer, timeout, interval, refresh, write, fire, fire_at, release_at, step,
  write_station, Happening, run_from, run, back_in_store,
}
use mes_copy.Line.Served.{
  IsServedLine, IsServedAfter-of_same, map-HasDistinctIds, map-AllServed, write_station-same,
}
use mes_copy.Line.Waiting.{kept-IsServedLine, observe-IsServedLine}
use mes_copy.Line.Timing.{timed-IsServedLine, fired-IsServedLine, other-IsServedLine}
use mes_copy.Line.Requesting.{
  weaken-IsServedLine, request_mes_data-IsServedLine, process_next_in_queue-IsServedLine,
}
use mes_copy.Line.Attended.{end_pulse-IsServedAfter, time_out_at-IsServedLine}
use mes_copy.Line.Controlled.{
  either-IsServedLine, complete_station_cycle-IsServedLine, simulate_plc-IsServedLine,
}

send_out-IsServedLine :
    (c : Settings) (now ref : ℕ) (line : Line)
    → IsServedLine [] line
    → IsServedLine [] (send_out c now ref line)
unfolding send_out
send_out-IsServedLine c now ref line ok =
    let target = target_of (carrier_at ref line).target_resource_id line.stations in
    let observed = observe_carrier c now (carrier_at ref line).carrier_id in_transit leaving line in
    let seen : IsServedLine [] observed =
      observe-IsServedLine [] c now (carrier_at ref line).carrier_id in_transit leaving line ok in
    request_mes_data-IsServedLine c now target ref (set_route ref target observed) (
      weaken-IsServedLine (queue_check target) (set_route ref target observed)
        (record { distinct = seen.distinct; stations = seen.stations }))

release_carrier-IsServedLine :
    (c : Settings) (now ref : ℕ) (line : Line)
    → IsServedLine [] line
    → IsServedLine [] (release_carrier c now ref line)
unfolding release_carrier
release_carrier-IsServedLine c now ref line ok =
    either-IsServedLine [] (includes_id (carrier_at ref line).carrier_id line.deactivated) _ _ ok (
      either-IsServedLine []
        (can_leave (find (has_carrier (carrier_at ref line).carrier_id) line.slots)) _ _
        (send_out-IsServedLine c now ref line ok) ok)

start_releases-IsServedLine :
    (c : Settings) (now ref : ℕ) (line : Line)
    → IsServedLine [] line
    → IsServedLine [] (start_releases c now ref line)
unfolding start_releases
start_releases-IsServedLine c now ref line ok =
    let released = release_carrier-IsServedLine c now ref line ok in
    record { distinct = released.distinct; stations = released.stations }

register-IsServedLine :
    (c : Settings) (now : ℕ) (id : ℤ) (line : Line)
    → IsServedLine [] line
    → IsServedLine [] (register_carrier_in_inventory c now id line)
unfolding register_carrier_in_inventory
register-IsServedLine c now id line ok =
    either-IsServedLine [] (is_some (find (has_carrier id) line.slots)) _ _ ok (
      either-IsServedLine [] (is_some (find (has_carrier (pos 0)) line.slots)) _ _
        (record { distinct = ok.distinct; stations = ok.stations }) ok)

schedule_at-IsServedLine :
    (c : Settings) (now : ℕ) (plan : Carrier) (found : Option Known) (line : Line)
    → IsServedLine [] line
    → IsServedLine [] (schedule_at c now plan found line)
unfolding schedule_at
schedule_at-IsServedLine c now plan (some k) line ok = record {
  distinct = ok.distinct;
  stations = ok.stations;
}
schedule_at-IsServedLine c now plan none line ok =
    timed-IsServedLine [] (first_release (length line.carriers)) _ (
      register-IsServedLine c now plan.carrier_id _
        (record { distinct = ok.distinct; stations = ok.stations }))

schedule_all-IsServedLine :
    (c : Settings) (now : ℕ) (plans : List Carrier) (line : Line)
    → IsServedLine [] line
    → IsServedLine [] (schedule_all c now plans line)
unfolding schedule_all schedule_new_carrier
schedule_all-IsServedLine c now [] line ok = ok
schedule_all-IsServedLine c now (plan ∷ plans) line ok =
    schedule_all-IsServedLine c now plans _
      (schedule_at-IsServedLine c now plan (find (is_known plan.carrier_id) line.known) line ok)

refresh_carriers-IsServedLine :
    (c : Settings) (now : ℕ) (plans : List Carrier) (line : Line)
    → IsServedLine [] line
    → IsServedLine [] (refresh_carriers c now plans line)
unfolding refresh_carriers
refresh_carriers-IsServedLine c now plans line ok =
    schedule_all-IsServedLine c now plans _
      (record { distinct = ok.distinct; stations = ok.stations })

fire-IsServedLine :
    (c : Settings) (m : Moment) (t : Timer) (line : Line)
    → IsServedLine (t ∷ []) line
    → IsServedLine [] (fire c m t line)
unfolding fire
fire-IsServedLine c m (queue_check r) line ok = process_next_in_queue-IsServedLine c m.now r line ok
fire-IsServedLine c m (request r ref) line ok = request_mes_data-IsServedLine c m.now r ref line (
    weaken-IsServedLine (queue_check r) line
      (other-IsServedLine (request r ref) line (λ _. refl) ok))
fire-IsServedLine c m (completion r) line ok =
    complete_station_cycle-IsServedLine c m.now m.random r line
      (other-IsServedLine (completion r) line (λ _. refl) ok)
fire-IsServedLine c m (pulse_end r) line ok =
    kept-IsServedLine [] r end_pulse line end_pulse-IsServedAfter
      (other-IsServedLine (pulse_end r) line (λ _. refl) ok)
fire-IsServedLine c m (storing id) line ok =
    observe-IsServedLine [] c m.now id stored (back_in_store c) line
      (other-IsServedLine (storing id) line (λ _. refl) ok)
fire-IsServedLine c m (release ref) line ok =
    release_carrier-IsServedLine c m.now ref line
      (other-IsServedLine (release ref) line (λ _. refl) ok)
fire-IsServedLine c m (first_release ref) line ok =
    start_releases-IsServedLine c m.now ref line
      (other-IsServedLine (first_release ref) line (λ _. refl) ok)

fire_at-IsServedLine :
    (c : Settings) (m : Moment) (n : ℕ) (t : Option Timer) (line : Line)
    → get_elem? line.timers n ≡ t
    → IsServedLine [] line
    → IsServedLine [] (fire_at c m n t line)
unfolding fire_at
fire_at-IsServedLine c m n none line e ok = ok
fire_at-IsServedLine c m n (some t) line e ok =
    fire-IsServedLine c m t _ (fired-IsServedLine n t line e ok)

release_at-IsServedLine :
    (c : Settings) (m : Moment) (ref : Option ℕ) (line : Line)
    → IsServedLine [] line
    → IsServedLine [] (release_at c m ref line)
unfolding release_at
release_at-IsServedLine c m none line ok = ok
release_at-IsServedLine c m (some ref) line ok = release_carrier-IsServedLine c m.now ref line ok

written-IsServedLine :
    (id : String) (v : Value) (line : Line)
    → IsServedLine [] line
    → IsServedLine [] (record line { stations = map (write_station id v) line.stations })
written-IsServedLine id v line ok = record {
  distinct =
      map-HasDistinctIds (write_station id v) (λ s. (write_station-same id v s).config)
        line.stations ok.distinct;
  stations =
      map-AllServed line.timers (write_station id v) line.stations
        (λ s. IsServedAfter-of_same s (write_station id v s) (write_station-same id v s))
        ok.stations;
}

step-IsServedLine :
    (c : Settings) (m : Moment) (e : Event) (line : Line)
    → IsServedLine [] line
    → IsServedLine [] (step c m e line)
unfolding step time_out
step-IsServedLine c m (plc r) line ok = simulate_plc-IsServedLine r line ok
step-IsServedLine c m (timer n) line ok =
    fire_at-IsServedLine c m n (get_elem? line.timers n) line refl ok
step-IsServedLine c m (timeout r) line ok =
    time_out_at-IsServedLine r (station_of r line.stations) line ok
step-IsServedLine c m (interval n) line ok =
    release_at-IsServedLine c m (get_elem? line.releasing n) line ok
step-IsServedLine c m (refresh answers) line ok =
    refresh_carriers-IsServedLine c m.now (fetch_carriers_from_mes c answers) line ok
step-IsServedLine c m (write id v) line ok = written-IsServedLine id v line ok

run_from-IsServedLine :
    (c : Settings) (line : Line) (hs : List Happening)
    → IsServedLine [] line
    → IsServedLine [] (run_from c line hs)
unfolding run_from
run_from-IsServedLine c line [] ok = ok
run_from-IsServedLine c line (h ∷ hs) ok =
    run_from-IsServedLine c (step c h.moment h.event line) hs
      (step-IsServedLine c h.moment h.event line ok)

initial-IsServedLine : (c : Settings) (now : ℕ) → IsServedLine [] (initial c now)
unfolding initial create_station_state station_configs
initial-IsServedLine c now = record {
  distinct = (
    ((λ e. ground (arith, e)), ((λ e. ground (arith, e)), tt)),
    (((λ e. ground (arith, e)), tt), (tt, tt)),
  );
  stations = (
    record { busy = refl; held = refl; served = refl },
    (
      record { busy = refl; held = refl; served = refl },
      (record { busy = refl; held = refl; served = refl }, tt),
    ),
  );
}

-- After any events in any order, from the start, every station of the production line asks the MES
-- exactly while it is busy and exactly while it has a carrier, so that the MES's answer always finds
-- the carrier whose route it sets; and if carriers wait at a station, it is asking the MES for
-- another or a timer is set that will look after its queue. The stations' ids are distinct.
pub run-IsServedLine :
    (c : Settings) (now : ℕ) (hs : List Happening) → IsServedLine [] (run c now hs)
unfolding run
run-IsServedLine c now hs = run_from-IsServedLine c (initial c now) hs (initial-IsServedLine c now)
