-- ===== src/Cell/Past/Runs.antt =====
-- At the multi-station server an assignment that was requested and is no longer current is never
-- taken up again: the answers of the MES, the events and the runs.
use mes_copy.Base.{
  ℕ, String, ◌≢◌, Option, none, some, List, [], ◌∷◌, ◌++◌, All, All-append, Bool-cases, inl, inr,
}
use mes_copy.Press.Mes.{Carrier, RouteStep, Candidate, signature_of}
use mes_copy.Cell.{Settings, Station, Cell, Poll, idle, fetching, routing}
use mes_copy.Cell.Cycle.{is_free, measure}
use mes_copy.Cell.Mes.{
  station_of, assign, found_by, found_on, found_at, begin_poll, begin_at, hear_carriers,
  carriers_at, hear_route, route_at,
}
use mes_copy.Cell.Run.{
  Event, control, telemetry, completion, retry, clear, poll, carriers, route, write, complete,
  retry_station, clear_station, write_station, step, run_from,
}
use mes_copy.Cell.Past.{
  WaitsElsewhere, IsPast, mapped-IsPast, at_resource-IsPast, measure-IsSettling,
  write_station-IsSettling,
}
use mes_copy.Cell.Past.Steps.{
  complete-IsSettling, retry_station-IsSettling, clear_station-IsSettling, control_tick-IsPast,
  polled-IsPast, scan-IsPast,
}

module _ (g : String) where
  found_at-others :
      (x : Candidate) (s : Option Station) (r : ℕ)
      → signature_of x ≢ g
      → All (λ a. a.signature ≢ g) (found_at x s r)
  unfolding found_at
  found_at-others x none r ne = tt
  found_at-others x (some s) r ne = elim (Bool-cases (is_free s)) [
    | inl free ↦ rw free (ne, tt)
    | inr busy ↦ rw busy tt
  ]

  found_on-others :
      (x : Candidate) (r : Option ℕ) (ss : List Station)
      → signature_of x ≢ g
      → All (λ a. a.signature ≢ g) (found_on x r ss)
  unfolding found_on
  found_on-others x none ss ne = tt
  found_on-others x (some r) ss ne = found_at-others x (station_of r ss) r ne

  found_by-others :
      (x : Candidate) (entry : Option RouteStep) (ss : List Station)
      → signature_of x ≢ g
      → All (λ a. a.signature ≢ g) (found_by x entry ss)
  unfolding found_by
  found_by-others x none ss ne = tt
  found_by-others x (some entry) ss ne = found_on-others x entry.resource_id ss ne

  assign-others :
      (x : Candidate) (steps : List RouteStep) (ss : List Station)
      → signature_of x ≢ g
      → All (λ a. a.signature ≢ g) (assign x steps ss)
  unfolding assign
  assign-others x steps ss ne = found_by-others x _ ss ne

  carriers_at-IsPast :
      (p : Poll) (answer : Option (List Carrier)) (cell : Cell)
      → IsPast g cell
      → IsPast g (carriers_at p answer cell)
  unfolding carriers_at
  carriers_at-IsPast idle answer cell ok = ok
  carriers_at-IsPast fetching none cell ok = polled-IsPast g idle cell tt ok
  carriers_at-IsPast fetching (some cs) cell ok = scan-IsPast g cs [] cell tt ok
  carriers_at-IsPast (routing x rest found) answer cell ok = ok

  route_at-IsPast :
      (p : Poll) (answer : Option (List RouteStep)) (cell : Cell)
      → WaitsElsewhere g p
      → IsPast g cell
      → IsPast g (route_at p answer cell)
  unfolding route_at
  route_at-IsPast idle answer cell w ok = ok
  route_at-IsPast fetching answer cell w ok = ok
  route_at-IsPast (routing x rest found) none cell w ok = polled-IsPast g idle cell tt ok
  route_at-IsPast (routing x rest found) (some steps) cell (ne, h) ok =
      scan-IsPast g rest (found ++ assign x steps cell.stations) cell
        (All-append (λ a. a.signature ≢ g) found (assign x steps cell.stations) h
          (assign-others x steps cell.stations ne))
        ok

  begin_at-IsPast : (p : Poll) (cell : Cell) → IsPast g cell → IsPast g (begin_at p cell)
  unfolding begin_at
  begin_at-IsPast idle cell ok = polled-IsPast g fetching cell tt ok
  begin_at-IsPast fetching cell ok = ok
  begin_at-IsPast (routing _ _ _) cell ok = ok

  step-IsPast : (c : Settings) (cell : Cell) (e : Event) → IsPast g cell → IsPast g (step c cell e)
  unfolding step begin_poll hear_carriers hear_route
  step-IsPast c cell control ok = control_tick-IsPast g cell ok
  step-IsPast c cell (telemetry now) ok =
      at_resource-IsPast g 72 (measure now) (measure-IsSettling now) cell ok
  step-IsPast c cell (completion r) ok =
      at_resource-IsPast g r (complete c) (complete-IsSettling c) cell ok
  step-IsPast c cell (retry r) ok =
      at_resource-IsPast g r (retry_station c) (retry_station-IsSettling c) cell ok
  step-IsPast c cell (clear r) ok =
      at_resource-IsPast g r clear_station clear_station-IsSettling cell ok
  step-IsPast c cell poll ok = begin_at-IsPast cell.poll cell ok
  step-IsPast c cell (carriers answer) ok = carriers_at-IsPast cell.poll answer cell ok
  step-IsPast c cell (route answer) ok = route_at-IsPast cell.poll answer cell ok.polling ok
  step-IsPast c cell (write id v) ok =
      mapped-IsPast g (write_station id v) (write_station-IsSettling id v) cell ok

  -- If a signature is among those requested, no station works on an assignment with it and the
  -- running poll, if any, has neither found nor asked for a route of one, then so it is after
  -- whatever events of the multi-station server: no station takes that assignment up again.
  pub run_from-IsPast :
      (c : Settings) (es : List Event) (cell : Cell) → IsPast g cell → IsPast g (run_from c cell es)
  unfolding run_from
  run_from-IsPast c [] cell ok = ok
  run_from-IsPast c (e ∷ es) cell ok =
      run_from-IsPast c es (step c cell e) (step-IsPast c cell e ok)
