-- ===== src/Line/Watching.antt =====
-- Every change of the production line's inventory shows in its revision.
pub mod Controller
use mes_copy.Base.{
  ℕ, String, ◌≡◌, ◌≢◌, refl, sym, Bool, true, false, not, ◌||◌, ◌&&◌, Option, none, some, List, [],
  ◌∷◌, ◌++◌, map, arith, ◌==◌, ==_iff, if◌then◌else◌, All, inl, inr, Bool-cases, Option-cases, find,
  is_some, ltb, modify, length, get_elem?, remove_at,
}
use mathlib.Core.Path.{subst, ◌∙◌}
use mes_copy.Base.Int.{ℤ, pos, int_eq}
use mes_copy.OpcUa.{Value}
use mes_copy.Line.{
  Settings, Station, Carrier, Line, Timer, queue_check, request, completion, pulse_end, storing,
  release, first_release, PhysicalState, in_transit, at_station, stored, Known,
}
use mes_copy.Line.Start.{initial, create_station_state, station_configs}
use mes_copy.Line.Inventory.{observe_carrier, register_carrier_in_inventory, has_carrier, Overrides}
use mes_copy.Line.Handling.{
  is_taken, enqueue, start_request, give_up, finish, end_pulse, reset_station, stop_station,
  pause_station, start_station, see_response, forget_rejects, resumes, is_answered,
}
use mes_copy.Line.Queue.{
  begin_request, request_at, process_queue, process_at, process_next_in_queue, at_reader,
  shift_queue, station_of, at_station_of, set_timer, request_mes_data, carrier_at, clear_timeout,
  time_out_with, time_out_at, time_out,
}
use mes_copy.Line.Plc.{
  send_on, complete_cycle, postpone, complete_with, complete_at, complete_station_cycle, reset_with,
  take_reset, take_stop, take_pause, take_start, route_carrier, take_response, part_at,
  simulate_plc, at_exit, resend, lost_carrier, fails,
}
use mes_copy.Line.Plans.{
  send_out, release_carrier, start_releases, schedule_at, schedule_new_carrier, schedule_all,
  refresh_carriers, includes_id, can_leave, leaving, set_route, is_known, deactivate, target_of,
}
use mes_copy.Line.Fetch.{fetch_carriers_from_mes, Answers}
use mes_copy.Line.Run.{
  Moment, Event, plc, timer, timeout, interval, refresh, write, fire, fire_at, release_at, step,
  write_station, Happening, run_from, run, back_in_store,
}
use mes_copy.Line.Stock.{
  IsWatched, IsWatched-of_same, IsWatched-refl, IsWatched-trans, either-IsWatched,
  observe-IsWatched, register-IsWatched, IsStocked, watched-IsStocked,
}

pub at_station-IsWatched :
    (r : ℕ) (f : Station → Station) (l : Line) → IsWatched l (at_station_of r f l)
unfolding at_station_of
at_station-IsWatched r f l = IsWatched-of_same l _ refl refl

-- Timers and stations are changed without a change of the inventory.
pub timed-IsWatched : (t : Timer) (l m : Line) → IsWatched l m → IsWatched l (set_timer t m)
unfolding set_timer
timed-IsWatched t l m w = IsWatched-trans l m _ w (IsWatched-of_same m _ refl refl)

then_at-IsWatched :
    (r : ℕ) (f : Station → Station) (l m : Line) → IsWatched l m → IsWatched l (at_station_of r f m)
then_at-IsWatched r f l m w = IsWatched-trans l m _ w (at_station-IsWatched r f m)

request_at-IsWatched :
    (c : Settings) (now r ref : ℕ) (found : Option Station) (l : Line)
    → IsWatched l (request_at c now r ref found l)
unfolding request_at begin_request
request_at-IsWatched c now r ref none l = IsWatched-refl l
request_at-IsWatched c now r ref (some s) l =
    either-IsWatched (is_taken s) l _ _ (at_station-IsWatched r (enqueue ref) l) (
      either-IsWatched (ltb now s.x_start_blocked_until) l _ _
        (timed-IsWatched (queue_check r) l _ (at_station-IsWatched r (enqueue ref) l))
        (then_at-IsWatched r (start_request ref (carrier_at ref l)) l _
          (observe-IsWatched c now (carrier_at ref l).carrier_id at_station (at_reader r) l refl)))

pub request-IsWatched :
    (c : Settings) (now r ref : ℕ) (l : Line) → IsWatched l (request_mes_data c now r ref l)
unfolding request_mes_data
request-IsWatched c now r ref l = request_at-IsWatched c now r ref (station_of r l.stations) l

process_queue-IsWatched :
    (c : Settings) (now r : ℕ) (queue : List ℕ) (s : Station) (l : Line)
    → IsWatched l (process_queue c now r queue s l)
unfolding process_queue
process_queue-IsWatched c now r [] s l = IsWatched-refl l
process_queue-IsWatched c now r (next ∷ rest) s l =
    either-IsWatched (is_taken s) l _ _ (IsWatched-refl l) (
      either-IsWatched (ltb now s.x_start_blocked_until) l _ _
        (timed-IsWatched (queue_check r) l l (IsWatched-refl l))
        (IsWatched-trans l _ _ (at_station-IsWatched r (shift_queue rest) l)
          (request-IsWatched c now r next _)))

pub process_at-IsWatched :
    (c : Settings) (now r : ℕ) (found : Option Station) (l : Line)
    → IsWatched l (process_at c now r found l)
unfolding process_at
process_at-IsWatched c now r none l = IsWatched-refl l
process_at-IsWatched c now r (some s) l = process_queue-IsWatched c now r s.waiting_queue s l

pub time_out_at-IsWatched :
    (r : ℕ) (found : Option Station) (l : Line) → IsWatched l (time_out_at r found l)
unfolding time_out_at time_out_with
time_out_at-IsWatched r none l = IsWatched-refl l
time_out_at-IsWatched r (some s) l =
    either-IsWatched s.request_timeout l _ _
      (either-IsWatched s.query.x_start l _ _
        (timed-IsWatched (queue_check r) l _
          (at_station-IsWatched r (λ t. give_up (clear_timeout t)) l))
        (at_station-IsWatched r clear_timeout l))
      (IsWatched-refl l)

send_on-IsWatched :
    (c : Settings) (now r ref : ℕ) (carrier : Carrier) (l : Line)
    → IsWatched l (send_on c now r ref carrier l)
unfolding send_on
send_on-IsWatched c now r ref carrier l =
    either-IsWatched (carrier.route_resource_id == 0) l _ _
      (timed-IsWatched (storing carrier.carrier_id) l l (IsWatched-refl l))
      (either-IsWatched (is_some (station_of carrier.route_resource_id l.stations)) l _ _
        (timed-IsWatched (request carrier.route_resource_id ref) l _
          (observe-IsWatched c now carrier.carrier_id in_transit (at_exit r) l refl))
        (IsWatched-refl l))

complete_cycle-IsWatched :
    (c : Settings) (now r ref : ℕ) (failed : Bool) (l : Line)
    → IsWatched l (complete_cycle c now r ref failed l)
unfolding complete_cycle
complete_cycle-IsWatched c now r ref failed l =
    let finished : IsWatched l (set_timer (pulse_end r) (at_station_of r (finish now failed) l)) =
      timed-IsWatched (pulse_end r) l _ (at_station-IsWatched r (finish now failed) l) in
    timed-IsWatched (queue_check r) l _ (
      either-IsWatched failed l _ _ finished
        (IsWatched-trans l _ _ finished (send_on-IsWatched c now r ref (carrier_at ref l) _)))

complete_with-IsWatched :
    (c : Settings) (now random r : ℕ) (current : Option ℕ) (s : Station) (l : Line)
    → IsWatched l (complete_with c now random r current s l)
unfolding complete_with
complete_with-IsWatched c now random r none s l = IsWatched-refl l
complete_with-IsWatched c now random r (some ref) s l =
    either-IsWatched (not s.state.x_auto || s.state.x_err_l0) l _ _
      (at_station-IsWatched r postpone l) (complete_cycle-IsWatched c now r ref (fails random s) l)

pub complete_at-IsWatched :
    (c : Settings) (now random r : ℕ) (found : Option Station) (l : Line)
    → IsWatched l (complete_at c now random r found l)
unfolding complete_at
complete_at-IsWatched c now random r none l = IsWatched-refl l
complete_at-IsWatched c now random r (some s) l =
    complete_with-IsWatched c now random r s.current_carrier s l
