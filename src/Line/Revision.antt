-- ===== src/Line/Revision.antt =====
-- Every change of the production line's inventory shows in its revision: the events.
use mes_copy.Base.{ℕ, refl, Option, none, some, List, [], ◌∷◌, find, length, get_elem?, remove_at}
use mes_copy.Line.{
  Settings, Carrier, Line, Timer, queue_check, request, completion, pulse_end, storing, release,
  first_release, in_transit, stored, Known,
}
use mes_copy.Line.Start.{initial}
use mes_copy.Line.Inventory.{observe_carrier, has_carrier}
use mes_copy.Line.Handling.{end_pulse}
use mes_copy.Line.Queue.{process_next_in_queue, station_of, carrier_at, time_out}
use mes_copy.Line.Plc.{complete_station_cycle}
use mes_copy.Line.Plans.{
  send_out, release_carrier, start_releases, schedule_at, schedule_new_carrier, schedule_all,
  refresh_carriers, includes_id, can_leave, leaving, set_route, is_known, deactivate, target_of,
}
use mes_copy.Line.Fetch.{fetch_carriers_from_mes}
use mes_copy.Line.Run.{
  Moment, Event, plc, timer, timeout, interval, refresh, write, fire, fire_at, release_at, step,
  Happening, run_from, run, back_in_store,
}
use mes_copy.Line.Stock.{
  IsWatched, IsWatched-of_same, IsWatched-refl, IsWatched-trans, either-IsWatched,
  observe-IsWatched, register-IsWatched, IsStocked, watched-IsStocked,
}
use mes_copy.Line.Watching.{
  at_station-IsWatched, timed-IsWatched, request-IsWatched, process_at-IsWatched,
  time_out_at-IsWatched, complete_at-IsWatched,
}
use mes_copy.Line.Watching.Controller.{simulate_plc-IsWatched}

release-IsWatched :
    (c : Settings) (now ref : ℕ) (l : Line) → IsWatched l (release_carrier c now ref l)
unfolding release_carrier send_out
release-IsWatched c now ref l =
    let target = target_of (carrier_at ref l).target_resource_id l.stations in
    let observed = observe_carrier c now (carrier_at ref l).carrier_id in_transit leaving l in
    either-IsWatched (includes_id (carrier_at ref l).carrier_id l.deactivated) l _ _
      (IsWatched-refl l)
      (either-IsWatched (can_leave (find (has_carrier (carrier_at ref l).carrier_id) l.slots)) l _ _
        (IsWatched-trans l observed _
          (observe-IsWatched c now (carrier_at ref l).carrier_id in_transit leaving l refl)
          (IsWatched-trans observed (set_route ref target observed) _
            (IsWatched-of_same observed (set_route ref target observed) refl refl)
            (request-IsWatched c now target ref (set_route ref target observed))))
        (IsWatched-refl l))

start_releases-IsWatched :
    (c : Settings) (now ref : ℕ) (l : Line) → IsWatched l (start_releases c now ref l)
unfolding start_releases
start_releases-IsWatched c now ref l =
    IsWatched-trans l (release_carrier c now ref l) _ (release-IsWatched c now ref l)
      (IsWatched-of_same (release_carrier c now ref l) _ refl refl)

schedule_at-IsWatched :
    (c : Settings) (now : ℕ) (plan : Carrier) (found : Option Known) (l : Line)
    → IsWatched l (schedule_at c now plan found l)
unfolding schedule_at
schedule_at-IsWatched c now plan (some k) l = IsWatched-of_same l _ refl refl
schedule_at-IsWatched c now plan none l = timed-IsWatched (first_release (length l.carriers)) l _ (
    IsWatched-trans l _ _ (IsWatched-of_same l _ refl refl)
      (register-IsWatched c now plan.carrier_id _))

schedule_all-IsWatched :
    (c : Settings) (now : ℕ) (plans : List Carrier) (l : Line)
    → IsWatched l (schedule_all c now plans l)
unfolding schedule_all schedule_new_carrier
schedule_all-IsWatched c now [] l = IsWatched-refl l
schedule_all-IsWatched c now (plan ∷ plans) l =
    IsWatched-trans l (schedule_new_carrier c now plan l) _
      (schedule_at-IsWatched c now plan (find (is_known plan.carrier_id) l.known) l)
      (schedule_all-IsWatched c now plans (schedule_new_carrier c now plan l))

refresh-IsWatched :
    (c : Settings) (now : ℕ) (plans : List Carrier) (l : Line)
    → IsWatched l (refresh_carriers c now plans l)
unfolding refresh_carriers
refresh-IsWatched c now plans l =
    IsWatched-trans l (record l { deactivated = deactivate plans l.known l.deactivated }) _
      (IsWatched-of_same l _ refl refl) (schedule_all-IsWatched c now plans _)

fire-IsWatched : (c : Settings) (m : Moment) (t : Timer) (l : Line) → IsWatched l (fire c m t l)
unfolding fire process_next_in_queue complete_station_cycle
fire-IsWatched c m (queue_check r) l = process_at-IsWatched c m.now r (station_of r l.stations) l
fire-IsWatched c m (request r ref) l = request-IsWatched c m.now r ref l
fire-IsWatched c m (completion r) l =
    complete_at-IsWatched c m.now m.random r (station_of r l.stations) l
fire-IsWatched c m (pulse_end r) l = at_station-IsWatched r end_pulse l
fire-IsWatched c m (storing id) l = observe-IsWatched c m.now id stored (back_in_store c) l refl
fire-IsWatched c m (release ref) l = release-IsWatched c m.now ref l
fire-IsWatched c m (first_release ref) l = start_releases-IsWatched c m.now ref l

fire_at-IsWatched :
    (c : Settings) (m : Moment) (n : ℕ) (t : Option Timer) (l : Line)
    → IsWatched l (fire_at c m n t l)
unfolding fire_at
fire_at-IsWatched c m n none l = IsWatched-refl l
fire_at-IsWatched c m n (some t) l =
    IsWatched-trans l (record l { timers = remove_at n l.timers }) _
      (IsWatched-of_same l _ refl refl) (fire-IsWatched c m t _)

release_at-IsWatched :
    (c : Settings) (m : Moment) (ref : Option ℕ) (l : Line) → IsWatched l (release_at c m ref l)
unfolding release_at
release_at-IsWatched c m none l = IsWatched-refl l
release_at-IsWatched c m (some ref) l = release-IsWatched c m.now ref l

step-IsWatched : (c : Settings) (m : Moment) (e : Event) (l : Line) → IsWatched l (step c m e l)
unfolding step time_out
step-IsWatched c m (plc r) l = simulate_plc-IsWatched r l
step-IsWatched c m (timer n) l = fire_at-IsWatched c m n (get_elem? l.timers n) l
step-IsWatched c m (timeout r) l = time_out_at-IsWatched r (station_of r l.stations) l
step-IsWatched c m (interval n) l = release_at-IsWatched c m (get_elem? l.releasing n) l
step-IsWatched c m (refresh answers) l =
    refresh-IsWatched c m.now (fetch_carriers_from_mes c answers) l
step-IsWatched c m (write id v) l = IsWatched-of_same l _ refl refl

-- Whatever events come from any state of the production line, the revision of the inventory only
-- grows; where it is the same as before, so is every slot; no slot comes or goes; and slots that
-- are occupied exactly if their carrier was last seen in the store stay so.
pub run_from-IsWatched :
    (c : Settings) (hs : List Happening) (l : Line) → IsWatched l (run_from c l hs)
unfolding run_from
run_from-IsWatched c [] l = IsWatched-refl l
run_from-IsWatched c (h ∷ hs) l =
    IsWatched-trans l (step c h.moment h.event l) _ (step-IsWatched c h.moment h.event l)
      (run_from-IsWatched c hs (step c h.moment h.event l))

-- After any events in any order, from the start, the inventory has as many slots as its capacity,
-- a slot is occupied exactly if its carrier was last seen in the store, the carriers available are
-- at most those counted in total, which are at most the capacity, and the revision is positive.
pub run-IsStocked : (c : Settings) (now : ℕ) (hs : List Happening) → IsStocked c (run c now hs)
unfolding run
run-IsStocked c now hs =
    watched-IsStocked c now (run c now hs) (run_from-IsWatched c hs (initial c now))
