-- ===== src/Line/Watching/Controller.antt =====
-- Every change of the production line's inventory shows in its revision: the controller.
use mes_copy.Base.{ℕ, refl, Option, none, some}
use mes_copy.Line.{Station, Line, queue_check, completion}
use mes_copy.Line.Handling.{
  give_up, stop_station, pause_station, start_station, see_response, forget_rejects, resumes,
  is_answered,
}
use mes_copy.Line.Queue.{station_of, at_station_of, set_timer}
use mes_copy.Line.Plc.{
  reset_with, take_reset, take_stop, take_pause, take_start, route_carrier, take_response, part_at,
  simulate_plc,
}
use mes_copy.Line.Stock.{
  IsWatched, IsWatched-of_same, IsWatched-refl, IsWatched-trans, either-IsWatched,
}
use mes_copy.Line.Watching.{at_station-IsWatched, timed-IsWatched}

-- The controller's interval leaves the inventory alone.
abbrev IsApart : (Station → Line → Line) → Type 0
IsApart f = (s : Station) (l : Line) → IsWatched l (f s l)

reset_with-IsWatched :
    (r : ℕ) (current : Option ℕ) (s : Station) (l : Line) → IsWatched l (reset_with r current s l)
unfolding reset_with at_station_of set_timer
reset_with-IsWatched r none s l = IsWatched-of_same l _ refl refl
reset_with-IsWatched r (some ref) s l = IsWatched-of_same l _ refl refl

take_reset-IsApart : (r : ℕ) → IsApart (take_reset r)
unfolding take_reset
take_reset-IsApart r s l =
    either-IsWatched s.control.x_cmd_reset l _ _ (reset_with-IsWatched r s.current_carrier s l)
      (IsWatched-refl l)

take_stop-IsApart : (r : ℕ) → IsApart (take_stop r)
unfolding take_stop
take_stop-IsApart r s l =
    either-IsWatched s.control.x_cmd_stop l _ _ (at_station-IsWatched r stop_station l)
      (IsWatched-refl l)

take_pause-IsApart : (r : ℕ) → IsApart (take_pause r)
unfolding take_pause
take_pause-IsApart r s l =
    either-IsWatched s.control.x_cmd_pause l _ _ (at_station-IsWatched r pause_station l)
      (IsWatched-refl l)

take_start-IsApart : (r : ℕ) → IsApart (take_start r)
unfolding take_start
take_start-IsApart r s l =
    either-IsWatched s.control.x_cmd_start l _ _
      (either-IsWatched (resumes s) l _ _
        (timed-IsWatched (completion r) l _ (at_station-IsWatched r start_station l))
        (at_station-IsWatched r start_station l))
      (IsWatched-refl l)

route_carrier-IsWatched :
    (next : ℕ) (current : Option ℕ) (l : Line) → IsWatched l (route_carrier next current l)
unfolding route_carrier
route_carrier-IsWatched next none l = IsWatched-refl l
route_carrier-IsWatched next (some ref) l = IsWatched-of_same l _ refl refl

take_response-IsApart : (r : ℕ) → IsApart (take_response r)
unfolding take_response
take_response-IsApart r s l =
    either-IsWatched (is_answered s) l _ _
      (either-IsWatched s.query.x_done l _ _
        (timed-IsWatched (completion r) l _ (
          IsWatched-trans l _ _ (at_station-IsWatched r (λ t. forget_rejects (see_response t)) l)
            (route_carrier-IsWatched s.query.next_resource_id s.current_carrier _)))
        (timed-IsWatched (queue_check r) l _
          (at_station-IsWatched r (λ t. give_up (see_response t)) l)))
      (IsWatched-refl l)

part_at-IsWatched :
    (f : Station → Line → Line) (found : Option Station) (l : Line)
    → IsApart f
    → IsWatched l (part_at f found l)
unfolding part_at
part_at-IsWatched f none l k = IsWatched-refl l
part_at-IsWatched f (some s) l k = k s l

then_part-IsWatched :
    (r : ℕ) (f : Station → Line → Line) (l m : Line)
    → IsApart f
    → IsWatched l m
    → IsWatched l (part_at f (station_of r m.stations) m)
then_part-IsWatched r f l m k w =
    IsWatched-trans l m _ w (part_at-IsWatched f (station_of r m.stations) m k)

pub simulate_plc-IsWatched : (r : ℕ) (l : Line) → IsWatched l (simulate_plc r l)
unfolding simulate_plc
simulate_plc-IsWatched r l = then_part-IsWatched r (take_response r) l _ (take_response-IsApart r) (
    then_part-IsWatched r (take_start r) l _ (take_start-IsApart r) (
      then_part-IsWatched r (take_pause r) l _ (take_pause-IsApart r) (
        then_part-IsWatched r (take_stop r) l _ (take_stop-IsApart r)
          (then_part-IsWatched r (take_reset r) l l (take_reset-IsApart r) (IsWatched-refl l)))))
