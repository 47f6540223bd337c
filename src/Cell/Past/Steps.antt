-- ===== src/Cell/Past/Steps.antt =====
-- At the multi-station server an assignment that was requested and is no longer current is never
-- taken up again: the commands and the poll's loops.
use mes_copy.Base.{
  ℕ, String, ◌≡◌, ◌≢◌, true, false, Option, none, some, List, [], ◌∷◌, arith, ◌==◌, All, inl, inr,
  Bool-cases, includes,
}
use mes_copy.Press.Mes.{Carrier, Candidate, signature_of}
use mes_copy.Cell.{Settings, Station, Assignment, Cell, Poll, idle, routing}
use mes_copy.Cell.Cycle.{
  reset_station, stop_station, pause_station, start_station, take_response, take_assignment,
}
use mes_copy.Cell.Mes.{
  station_of, at_resource, add_signature, request_of, request_all, scan, scan_with, due_candidate,
}
use mes_copy.Cell.Commands.{
  Command, reset, stop, pause, start, apply_machine_control, is_given, withdraw, take_command,
  control_tick,
}
use mes_copy.Cell.Run.{complete, retry_station, clear_station}
use mes_copy.Cell.Past.{
  IsSettling, AllDiffer, WaitsElsewhere, IsPast, map-AllDiffer, mapped-IsPast, at_resource-IsPast,
  includes-drop_all, reset_station-IsSettling, stop_station-IsSettling, pause_station-IsSettling,
  start_station-IsSettling, take_response-IsSettling, withdraw-IsSettling, complete_with-IsSettling,
  retry_with-IsSettling, clear_with-IsSettling,
}

pub complete-IsSettling : (c : Settings) → IsSettling (complete c)
unfolding complete
complete-IsSettling c s = complete_with-IsSettling c s.completion_timer s

pub retry_station-IsSettling : (c : Settings) → IsSettling (retry_station c)
unfolding retry_station
retry_station-IsSettling c s = retry_with-IsSettling c s.retry_timers s

pub clear_station-IsSettling : IsSettling clear_station
unfolding clear_station
clear_station-IsSettling s = clear_with-IsSettling s.clear_timers s

module _ (g : String) where
  reset-IsPast : (cell : Cell) → IsPast g cell → IsPast g (apply_machine_control reset cell)
  unfolding apply_machine_control
  reset-IsPast cell ok = record {
    taken = includes-drop_all g cell.stations cell.requested_assignments ok.stations ok.taken;
    stations = map-AllDiffer g reset_station reset_station-IsSettling cell.stations ok.stations;
    polling = ok.polling;
  }

  apply_machine_control-IsPast :
      (k : Command) (cell : Cell) → IsPast g cell → IsPast g (apply_machine_control k cell)
  unfolding apply_machine_control
  apply_machine_control-IsPast reset cell ok = reset-IsPast cell ok
  apply_machine_control-IsPast stop cell ok =
      mapped-IsPast g stop_station stop_station-IsSettling cell ok
  apply_machine_control-IsPast pause cell ok =
      mapped-IsPast g pause_station pause_station-IsSettling cell ok
  apply_machine_control-IsPast start cell ok =
      mapped-IsPast g start_station start_station-IsSettling cell ok

  take_command-IsPast : (k : Command) (cell : Cell) → IsPast g cell → IsPast g (take_command k cell)
  unfolding take_command
  take_command-IsPast k cell ok = elim (Bool-cases (is_given k (station_of 72 cell.stations))) [
    | inl given ↦ rw given (
        apply_machine_control-IsPast k _
          (at_resource-IsPast g 72 (withdraw k) (withdraw-IsSettling k) cell ok))
    | inr none_given ↦ rw none_given ok
  ]

  pub control_tick-IsPast : (cell : Cell) → IsPast g cell → IsPast g (control_tick cell)
  unfolding control_tick
  control_tick-IsPast cell ok = mapped-IsPast g take_response take_response-IsSettling _ (
      take_command-IsPast start _ (
        take_command-IsPast pause _
          (take_command-IsPast stop _ (take_command-IsPast reset cell ok))))

  -- A station that takes up another assignment.
  take_assignment-AllDiffer :
      (a : Assignment) (r : ℕ) (ss : List Station)
      → a.signature ≢ g
      → AllDiffer g ss
      → AllDiffer g (at_resource r (take_assignment a) ss)
  unfolding at_resource take_assignment
  take_assignment-AllDiffer a r [] ne h = tt
  take_assignment-AllDiffer a r (s ∷ ss) ne (h, hs) =
      elim (Bool-cases (s.definition.resource_id == r)) [
        | inl here ↦ rw here (ne, take_assignment-AllDiffer a r ss ne hs)
        | inr there ↦ rw there (h, take_assignment-AllDiffer a r ss ne hs)
      ]

  includes-add :
      (h : String) (gs : List String)
      → includes g gs ≡ true
      → includes g (add_signature h gs) ≡ true
  unfolding add_signature
  includes-add h gs e = ground arith

  request_of-IsPast :
      (a : Assignment) (found : Option Station) (cell : Cell)
      → a.signature ≢ g
      → IsPast g cell
      → IsPast g (request_of a found cell)
  unfolding request_of
  request_of-IsPast a none cell ne ok = ok
  request_of-IsPast a (some _) cell ne ok = record {
    taken = includes-add a.signature cell.requested_assignments ok.taken;
    stations = take_assignment-AllDiffer a a.resource_id cell.stations ne ok.stations;
    polling = ok.polling;
  }

  request_all-IsPast :
      (found : List Assignment) (cell : Cell)
      → All (λ a. a.signature ≢ g) found
      → IsPast g cell
      → IsPast g (request_all found cell)
  unfolding request_all
  request_all-IsPast [] cell h ok = ok
  request_all-IsPast (a ∷ found) cell (h, hs) ok =
      request_all-IsPast found _ hs
        (request_of-IsPast a (station_of a.resource_id cell.stations) cell h ok)

  pub polled-IsPast :
      (p : Poll) (cell : Cell)
      → WaitsElsewhere g p
      → IsPast g cell
      → IsPast g (record cell { poll = p })
  polled-IsPast p cell w ok = record { taken = ok.taken; stations = ok.stations; polling = w }

  scan_with-IsPast :
      (x : Option Candidate) (rest : List Carrier) (found : List Assignment) (go : Cell → Cell)
      (cell : Cell)
      → All (λ a. a.signature ≢ g) found
      → IsPast g cell
      → IsPast g (go cell)
      → IsPast g (scan_with x rest found go cell)
  unfolding scan_with
  scan_with-IsPast none rest found go cell h ok gone = gone
  scan_with-IsPast (some x) rest found go cell h ok gone =
      elim (Bool-cases (includes (signature_of x) cell.requested_assignments)) [
        | inl requested ↦ rw requested gone
        | inr fresh ↦ rw fresh (polled-IsPast (routing x rest found) cell (other fresh, h) ok)
      ]
    where
      other : includes (signature_of x) cell.requested_assignments ≡ false → signature_of x ≢ g
      other fresh same = ground (arith, ok.taken)

  pub scan-IsPast :
      (cs : List Carrier) (found : List Assignment) (cell : Cell)
      → All (λ a. a.signature ≢ g) found
      → IsPast g cell
      → IsPast g (scan cs found cell)
  unfolding scan
  scan-IsPast [] found cell h ok = request_all-IsPast found _ h (polled-IsPast idle cell tt ok)
  scan-IsPast (c ∷ cs) found cell h ok =
      scan_with-IsPast (due_candidate c c.order_id c.current_step_no) cs found (scan cs found) cell
        h ok (scan-IsPast cs found cell h ok)
