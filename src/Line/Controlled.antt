-- ===== src/Line/Controlled.antt =====
-- The end of a cycle and the controller's interval keep every station of the line served.
use mes_copy.Base.{
  ℕ, Bool, true, false, not, ◌||◌, Option, none, some, List, [], ◌∷◌, ◌++◌, ◌==◌, if◌then◌else◌,
  inl, inr, Bool-cases, is_some, length,
}
use mes_copy.Line.{
  Settings, Station, Carrier, Line, Timer, queue_check, request, completion, pulse_end, storing,
  in_transit,
}
use mes_copy.Line.Handling.{
  give_up, finish, reset_station, stop_station, pause_station, start_station, see_response,
  forget_rejects, resumes, is_answered,
}
use mes_copy.Line.Queue.{station_of, at_station_of, set_timer, carrier_at}
use mes_copy.Line.Plc.{
  send_on, complete_cycle, postpone, complete_with, complete_at, complete_station_cycle, reset_with,
  take_reset, take_stop, take_pause, take_start, route_carrier, take_response, part_at,
  simulate_plc, at_exit, resend, lost_carrier, fails,
}
use mes_copy.Line.Served.{IsServedLine}
use mes_copy.Line.Waiting.{kept-IsServedLine, observe-IsServedLine, freed-IsServedLine}
use mes_copy.Line.Timing.{timed-IsServedLine}
use mes_copy.Line.Requesting.{weaken-IsServedLine, set_timer-IsServedLine}
use mes_copy.Line.Attended.{
  postpone-IsServedAfter, stop_station-IsServedAfter, pause_station-IsServedAfter,
  start_station-IsServedAfter, accept-IsServedAfter, reset_station-IsServedAfter,
  finish-IsFreedAfter, give_up-IsFreedAfter, after-IsFreedAfter, see_response-IsServedAfter,
}

pub either-IsServedLine :
    (xs : List Timer) (b : Bool) (line line' : Line)
    → IsServedLine xs line
    → IsServedLine xs line'
    → IsServedLine xs (if b then line else line')
either-IsServedLine xs true line line' ok ok' = ok
either-IsServedLine xs false line line' ok ok' = ok'

send_on-IsServedLine :
    (xs : List Timer) (c : Settings) (now r ref : ℕ) (carrier : Carrier) (line : Line)
    → IsServedLine xs line
    → IsServedLine xs (send_on c now r ref carrier line)
unfolding send_on
send_on-IsServedLine xs c now r ref carrier line ok =
    elim (Bool-cases (carrier.route_resource_id == 0)) [
      | inl home ↦ simp home (timed-IsServedLine xs (storing carrier.carrier_id) line ok)
      | inr away ↦
          elim (Bool-cases (is_some (station_of carrier.route_resource_id line.stations))) [
            | inl known ↦
                simp (away, known)
                  (timed-IsServedLine xs (request carrier.route_resource_id ref) _ (
                    observe-IsServedLine xs c now carrier.carrier_id in_transit (at_exit r) line
                      ok))
            | inr unknown ↦ simp (away, unknown) ok
          ]
    ]

complete_cycle-IsServedLine :
    (c : Settings) (now r ref : ℕ) (failed : Bool) (line : Line)
    → IsServedLine [] line
    → IsServedLine [] (complete_cycle c now r ref failed line)
unfolding complete_cycle
complete_cycle-IsServedLine c now r ref failed line ok =
    let check : List Timer = queue_check r ∷ [] in
    let finished : IsServedLine check
        (set_timer (pulse_end r) (at_station_of r (finish now failed) line)) =
      timed-IsServedLine check (pulse_end r) _ (
        freed-IsServedLine r (finish now failed) line (finish-IsFreedAfter now failed)
          (weaken-IsServedLine (queue_check r) line ok)) in
    set_timer-IsServedLine (queue_check r) _ (
      either-IsServedLine check failed _ _ finished
        (send_on-IsServedLine check c now r ref (carrier_at ref line) _ finished))

complete_with-IsServedLine :
    (c : Settings) (now random r : ℕ) (current : Option ℕ) (s : Station) (line : Line)
    → IsServedLine [] line
    → IsServedLine [] (complete_with c now random r current s line)
unfolding complete_with
complete_with-IsServedLine c now random r none s line ok = ok
complete_with-IsServedLine c now random r (some ref) s line ok =
    elim (Bool-cases (not s.state.x_auto || s.state.x_err_l0)) [
      | inl waits ↦ simp waits (kept-IsServedLine [] r postpone line postpone-IsServedAfter ok)
      | inr goes ↦ simp goes (complete_cycle-IsServedLine c now r ref (fails random s) line ok)
    ]

complete_at-IsServedLine :
    (c : Settings) (now random r : ℕ) (found : Option Station) (line : Line)
    → IsServedLine [] line
    → IsServedLine [] (complete_at c now random r found line)
unfolding complete_at
complete_at-IsServedLine c now random r none line ok = ok
complete_at-IsServedLine c now random r (some s) line ok =
    complete_with-IsServedLine c now random r s.current_carrier s line ok

pub complete_station_cycle-IsServedLine :
    (c : Settings) (now random r : ℕ) (line : Line)
    → IsServedLine [] line
    → IsServedLine [] (complete_station_cycle c now random r line)
unfolding complete_station_cycle
complete_station_cycle-IsServedLine c now random r line ok =
    complete_at-IsServedLine c now random r (station_of r line.stations) line ok

reset_with-IsServedLine :
    (r : ℕ) (current : Option ℕ) (s : Station) (line : Line)
    → IsServedLine [] line
    → IsServedLine [] (reset_with r current s line)
unfolding reset_with
reset_with-IsServedLine r (some ref) s line ok = timed-IsServedLine [] (resend r ref) _ (
    kept-IsServedLine [] r (reset_station (carrier_at ref line).carrier_id) line
      (reset_station-IsServedAfter (carrier_at ref line).carrier_id) ok)
reset_with-IsServedLine r none s line ok =
    timed-IsServedLine [] (resend r (length line.carriers)) _ (
      kept-IsServedLine [] r (reset_station s.process_data.carrier_id)
        (record line { carriers = line.carriers ++ lost_carrier s ∷ [] })
        (reset_station-IsServedAfter s.process_data.carrier_id)
        (record { distinct = ok.distinct; stations = ok.stations }))

-- Each part of the controller's interval.
abbrev IsAttending : (Station → Line → Line) → Type 0
IsAttending f = (s : Station) (line : Line) → IsServedLine [] line → IsServedLine [] (f s line)

take_reset-IsAttending : (r : ℕ) → IsAttending (take_reset r)
unfolding take_reset
take_reset-IsAttending r s line ok =
    either-IsServedLine [] s.control.x_cmd_reset _ _
      (reset_with-IsServedLine r s.current_carrier s line ok) ok

take_stop-IsAttending : (r : ℕ) → IsAttending (take_stop r)
unfolding take_stop
take_stop-IsAttending r s line ok =
    either-IsServedLine [] s.control.x_cmd_stop _ _
      (kept-IsServedLine [] r stop_station line stop_station-IsServedAfter ok) ok

take_pause-IsAttending : (r : ℕ) → IsAttending (take_pause r)
unfolding take_pause
take_pause-IsAttending r s line ok =
    either-IsServedLine [] s.control.x_cmd_pause _ _
      (kept-IsServedLine [] r pause_station line pause_station-IsServedAfter ok) ok

take_start-IsAttending : (r : ℕ) → IsAttending (take_start r)
unfolding take_start
take_start-IsAttending r s line ok =
    let started : IsServedLine [] (at_station_of r start_station line) =
      kept-IsServedLine [] r start_station line start_station-IsServedAfter ok in
    either-IsServedLine [] s.control.x_cmd_start _ _
      (either-IsServedLine [] (resumes s) _ _ (timed-IsServedLine [] (completion r) _ started)
        started)
      ok

route_carrier-IsServedLine :
    (next : ℕ) (current : Option ℕ) (line : Line)
    → IsServedLine [] line
    → IsServedLine [] (route_carrier next current line)
unfolding route_carrier
route_carrier-IsServedLine next none line ok = ok
route_carrier-IsServedLine next (some ref) line ok = record {
  distinct = ok.distinct;
  stations = ok.stations;
}

take_response-IsAttending : (r : ℕ) → IsAttending (take_response r)
unfolding take_response
take_response-IsAttending r s line ok =
    either-IsServedLine [] (is_answered s) _ _
      (either-IsServedLine [] s.query.x_done _ _
        (timed-IsServedLine [] (completion r) _ (
          route_carrier-IsServedLine s.query.next_resource_id s.current_carrier _ (
            kept-IsServedLine [] r (λ t. forget_rejects (see_response t)) line accept-IsServedAfter
              ok)))
        (set_timer-IsServedLine (queue_check r) _ (
          freed-IsServedLine r (λ t. give_up (see_response t)) line
            (after-IsFreedAfter see_response give_up give_up-IsFreedAfter
              see_response-IsServedAfter)
            (weaken-IsServedLine (queue_check r) line ok))))
      ok

part_at-IsServedLine :
    (f : Station → Line → Line) (found : Option Station) (line : Line)
    → IsAttending f
    → IsServedLine [] line
    → IsServedLine [] (part_at f found line)
unfolding part_at
part_at-IsServedLine f none line k ok = ok
part_at-IsServedLine f (some s) line k ok = k s line ok

part-IsServedLine :
    (r : ℕ) (f : Station → Line → Line) (line : Line)
    → IsAttending f
    → IsServedLine [] line
    → IsServedLine [] (part_at f (station_of r line.stations) line)
part-IsServedLine r f line k ok = part_at-IsServedLine f (station_of r line.stations) line k ok

pub simulate_plc-IsServedLine :
    (r : ℕ) (line : Line) → IsServedLine [] line → IsServedLine [] (simulate_plc r line)
unfolding simulate_plc
simulate_plc-IsServedLine r line ok =
    part-IsServedLine r (take_response r) _ (take_response-IsAttending r) (
      part-IsServedLine r (take_start r) _ (take_start-IsAttending r) (
        part-IsServedLine r (take_pause r) _ (take_pause-IsAttending r) (
          part-IsServedLine r (take_stop r) _ (take_stop-IsAttending r)
            (part-IsServedLine r (take_reset r) line (take_reset-IsAttending r) ok))))
