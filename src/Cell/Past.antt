-- ===== src/Cell/Past.antt =====
-- At the multi-station server an assignment that was requested and is no longer current is never
-- taken up again, but for a reset while it is current, which makes it requestable.
pub mod Steps
pub mod Runs
use mes_copy.Base.{
  ℕ, zero, suc, String, ◌≡◌, ◌≢◌, ◌⊎◌, refl, sym, Bool, true, false, not, ◌||◌, ◌&&◌, Option, none,
  some, List, [], ◌∷◌, ◌++◌, map, arith, ◌==◌, if◌then◌else◌, All, All-append, inl, inr, Bool-cases,
  find, includes, select, str_eq, eq_iff, IsFresh, IsFresh-of_includes,
}
use mes_copy.OpcUa.{Value}
use mes_copy.Press.Mes.{Carrier, RouteStep, Candidate, signature_of}
use mes_copy.Cell.{Settings, Station, Assignment, Cell, Poll, idle, fetching, routing}
use mes_copy.Cell.Cycle.{
  finish_cycle, reset_station, stop_station, pause_station, start_station, take_response,
  take_assignment, is_free, measure,
}
use mes_copy.Cell.Mes.{
  station_of, at_resource, add_signature, request_of, request_assignment, request_all, scan,
  scan_with, due_candidate, assign, assignment_to, found_by, found_on, found_at, begin_poll,
  begin_at, hear_carriers, carriers_at, hear_route, route_at,
}
use mes_copy.Cell.Commands.{
  Command, reset, stop, pause, start, delete_signature, drop_current, drop_all,
  apply_machine_control, is_given, withdraw, take_command, control_tick,
}
use mes_copy.Cell.Run.{
  Event, control, telemetry, completion, retry, clear, poll, carriers, route, write, complete,
  complete_with, retry_station, retry_with, clear_station, clear_with, write_station, step,
  run_from,
}
use mes_copy.Cell.Frame.{write_station-same}

abbrev Differs : String → Option Assignment → Type 0
Differs g none = Unit
Differs g (some a) = a.signature ≢ g

-- An operation that takes no assignment keeps the current one or drops it.
abbrev IsSettling : (Station → Station) → Type 0
IsSettling f =
    (s : Station)
    → ((f s).current_assignment ≡ s.current_assignment) ⊎ ((f s).current_assignment ≡ none)

finish_cycle-IsSettling : (c : Settings) → IsSettling (finish_cycle c)
unfolding finish_cycle
finish_cycle-IsSettling c s = ground arith

reset_station-IsSettling : IsSettling reset_station
unfolding reset_station
reset_station-IsSettling s = inr refl

stop_station-IsSettling : IsSettling stop_station
unfolding stop_station
stop_station-IsSettling s = inl refl

pause_station-IsSettling : IsSettling pause_station
unfolding pause_station
pause_station-IsSettling s = inl refl

start_station-IsSettling : IsSettling start_station
unfolding start_station
start_station-IsSettling s = inl refl

take_response-IsSettling : IsSettling take_response
unfolding take_response
take_response-IsSettling s = ground arith

measure-IsSettling : (now : ℕ) → IsSettling (measure now)
unfolding measure
measure-IsSettling now s = ground arith

withdraw-IsSettling : (k : Command) → IsSettling (withdraw k)
unfolding withdraw
withdraw-IsSettling k s = inl refl

complete_with-IsSettling : (c : Settings) (timer : Option ℕ) → IsSettling (complete_with c timer)
unfolding complete_with
complete_with-IsSettling c none s = inl refl
complete_with-IsSettling c (some _) s =
    finish_cycle-IsSettling c (record s { completion_timer = none })

retry_with-IsSettling : (c : Settings) (n : ℕ) → IsSettling (retry_with c n)
unfolding retry_with
retry_with-IsSettling c zero s = inl refl
retry_with-IsSettling c (suc n) s = finish_cycle-IsSettling c (record s { retry_timers = n })

clear_with-IsSettling : (n : ℕ) → IsSettling (clear_with n)
unfolding clear_with
clear_with-IsSettling zero s = inl refl
clear_with-IsSettling (suc n) s = inl refl

write_station-IsSettling : (id : String) (v : Value) → IsSettling (write_station id v)
write_station-IsSettling id v s = inl (write_station-same id v s).current_assignment

at-IsSettling :
    (r : ℕ) (f : Station → Station)
    → IsSettling f
    → IsSettling (λ s. if s.definition.resource_id == r then f s else s)
at-IsSettling r f k s = elim (Bool-cases (s.definition.resource_id == r)) [
  | inl here ↦ rw here (k s)
  | inr there ↦ rw there (inl refl)
]

module _ (g : String) where
  abbrev AllDiffer : List Station → Type 0
  AllDiffer ss = All (λ s. Differs g s.current_assignment) ss

  abbrev WaitsElsewhere : Poll → Type 0
  WaitsElsewhere idle = Unit
  WaitsElsewhere fetching = Unit
  WaitsElsewhere (routing x rest found) = (signature_of x ≢ g) × All (λ a. a.signature ≢ g) found

  -- The signature is taken, and neither a station nor the running poll has it.
  pub record IsPast (cell : Cell) : Type 0 where
    pub taken : includes g cell.requested_assignments ≡ true
    pub stations : AllDiffer cell.stations
    pub polling : WaitsElsewhere cell.poll

  map-AllDiffer :
      (f : Station → Station)
      → IsSettling f
      → (ss : List Station) → AllDiffer ss
      → AllDiffer (map f ss)
  map-AllDiffer f k [] h = tt
  map-AllDiffer f k (s ∷ ss) (h, hs) = elim (k s) [
    | inl kept ↦ (rw kept h, map-AllDiffer f k ss hs)
    | inr dropped ↦ (rw dropped tt, map-AllDiffer f k ss hs)
  ]

  mapped-IsPast :
      (f : Station → Station)
      → IsSettling f
      → (cell : Cell) → IsPast cell
      → IsPast (record cell { stations = map f cell.stations })
  mapped-IsPast f k cell ok = record {
    taken = ok.taken;
    stations = map-AllDiffer f k cell.stations ok.stations;
    polling = ok.polling;
  }

  at_resource-IsPast :
      (r : ℕ) (f : Station → Station)
      → IsSettling f
      → (cell : Cell) → IsPast cell
      → IsPast (record cell { stations = at_resource r f cell.stations })
  unfolding at_resource
  at_resource-IsPast r f k cell ok = mapped-IsPast _ (at-IsSettling r f k) cell ok

  -- Deleting another signature leaves this one.
  includes-delete :
      (h : String) (gs : List String)
      → h ≢ g
      → includes g gs ≡ true
      → includes g (delete_signature h gs) ≡ true
  unfolding delete_signature
  includes-delete h [] ne e = e
  includes-delete h (x ∷ gs) ne e = ground (arith, eq_iff x h, eq_iff x g, includes-delete h gs ne)

  includes-drop :
      (current : Option Assignment) (gs : List String)
      → Differs g current
      → includes g gs ≡ true
      → includes g (drop_current current gs) ≡ true
  unfolding drop_current
  includes-drop none gs d e = e
  includes-drop (some a) gs d e = includes-delete a.signature gs d e

  includes-drop_all :
      (ss : List Station) (gs : List String)
      → AllDiffer ss
      → includes g gs ≡ true
      → includes g (drop_all ss gs) ≡ true
  unfolding drop_all
  includes-drop_all [] gs h e = e
  includes-drop_all (s ∷ ss) gs (h, hs) e =
      includes-drop_all ss _ hs (includes-drop s.current_assignment gs h e)
