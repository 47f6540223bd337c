-- ===== src/Cell/Mes.antt =====
-- How the multi-station server polls the MES. A poll stops at each of its requests and goes on
-- with the answer, and other events may come between; `none` is a request that throws, which ends
-- the poll.
use mes_copy.Base.{
  ℕ, String, not, ◌&&◌, Option, none, some, List, [], ◌∷◌, ◌++◌, map, ◌==◌, str_eq, if◌then◌else◌,
  find, includes,
}
use mes_copy.Press.Mes.{Carrier, RouteStep, Candidate, is_due, signature_of}
use mes_copy.Cell.{Station, Assignment, Poll, idle, fetching, routing, Cell}
use mes_copy.Cell.Cycle.{is_free, take_assignment}

-- `stationStates.get`.
unfoldable pub station_of : ℕ → List Station → Option Station
station_of r stations = find (λ s. s.definition.resource_id == r) stations

-- An operation on the station of one resource.
unfoldable pub at_resource : ℕ → (Station → Station) → List Station → List Station
at_resource r f stations = map (λ s. if s.definition.resource_id == r then f s else s) stations

-- `Set.prototype.add`.
unfoldable pub add_signature : String → List String → List String
add_signature g gs = if includes g gs then gs else g ∷ gs

unfoldable pub due_candidate : Carrier → Option String → Option ℕ → Option Candidate
due_candidate c (some order) (some step) =
    if not (str_eq order "") && is_due c.status
    then some (record { order = order; number = c.carrier_number; step = step })
    else none
due_candidate c _ _ = none

unfoldable pub request_of : Assignment → Option Station → Cell → Cell
request_of a none cell = cell
request_of a (some _) cell = record cell {
  requested_assignments = add_signature a.signature cell.requested_assignments;
  stations = at_resource a.resource_id (take_assignment a) cell.stations;
}

unfoldable pub request_assignment : Assignment → Cell → Cell
unfolding request_of
request_assignment a cell = request_of a (station_of a.resource_id cell.stations) cell

-- The loop of `pollMesAssignments` over the assignments found.
unfoldable pub request_all : List Assignment → Cell → Cell
unfolding request_assignment
request_all [] cell = cell
request_all (a ∷ found) cell = request_all found (request_assignment a cell)

-- The loop of `findAssignments` up to the next request for a route, or to its end.
unfoldable pub scan_with :
    Option Candidate → List Carrier → List Assignment → (Cell → Cell) → Cell → Cell
scan_with none rest found go cell = go cell
scan_with (some x) rest found go cell =
    if includes (signature_of x) cell.requested_assignments
    then go cell
    else record cell { poll = routing x rest found }

unfoldable pub scan : List Carrier → List Assignment → Cell → Cell
unfolding scan_with due_candidate
scan [] found cell = request_all found (record cell { poll = idle })
scan (c ∷ cs) found cell =
    scan_with (due_candidate c c.order_id c.current_step_no) cs found (scan cs found) cell

abbrev pub assignment_to : Candidate → ℕ → Assignment
assignment_to x r = record {
  signature = signature_of x;
  order_id = x.order;
  carrier_number = x.number;
  step_number = x.step;
  resource_id = r;
}

-- The assignment for a candidate whose station is there and free.
unfoldable pub found_at : Candidate → Option Station → ℕ → List Assignment
found_at x none r = []
found_at x (some s) r = if is_free s then assignment_to x r ∷ [] else []

unfoldable pub found_on : Candidate → Option ℕ → List Station → List Assignment
found_on x none stations = []
found_on x (some r) stations = found_at x (station_of r stations) r

unfoldable pub found_by : Candidate → Option RouteStep → List Station → List Assignment
found_by x none stations = []
found_by x (some entry) stations = found_on x entry.resource_id stations

unfoldable pub assign : Candidate → List RouteStep → List Station → List Assignment
unfolding found_by found_on found_at
assign x route stations = found_by x (find (λ entry. entry.step_no == x.step) route) stations

-- `pollMesAssignments` up to its first request.
unfoldable pub begin_at : Poll → Cell → Cell
begin_at idle cell = record cell { poll = fetching }
begin_at _ cell = cell

unfoldable pub begin_poll : Cell → Cell
unfolding begin_at
begin_poll cell = begin_at cell.poll cell

-- The answer to the request for the carriers; only a poll that waits for it hears it.
unfoldable pub carriers_at : Poll → Option (List Carrier) → Cell → Cell
carriers_at fetching none cell = record cell { poll = idle }
carriers_at fetching (some cs) cell = scan cs [] cell
carriers_at _ answer cell = cell

unfoldable pub hear_carriers : Option (List Carrier) → Cell → Cell
unfolding carriers_at
hear_carriers answer cell = carriers_at cell.poll answer cell

-- The answer to the request for a route.
unfoldable pub route_at : Poll → Option (List RouteStep) → Cell → Cell
route_at (routing x rest found) none cell = record cell { poll = idle }
route_at (routing x rest found) (some route) cell =
    scan rest (found ++ assign x route cell.stations) cell
route_at _ answer cell = cell

unfoldable pub hear_route : Option (List RouteStep) → Cell → Cell
unfolding route_at
hear_route answer cell = route_at cell.poll answer cell
