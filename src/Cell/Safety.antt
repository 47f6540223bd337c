-- ===== src/Cell/Safety.antt =====
-- The multi-station server is sound after any events in any order.
use mes_copy.Base.{
  ℕ, ◌≡◌, ◌≢◌, refl, sym, ◌∙◌, true, Option, none, some, List, [], ◌∷◌, arith, ◌==◌, All,
  All-append, inl, inr, Bool-cases, find,
}
use mathlib.Core.Path.{subst}
use mes_copy.Press.Mes.{Carrier, RouteStep, Candidate}
use mes_copy.Cell.{
  Settings, Definition, Station, Assignment, Cell, Poll, idle, fetching, routing, initial,
  station_definitions,
}
use mes_copy.Cell.Cycle.{is_free, measure}
use mes_copy.Cell.Mes.{
  station_of, assign, assignment_to, found_by, found_on, found_at, begin_poll, begin_at,
  hear_carriers, carriers_at, hear_route, route_at,
}
use mes_copy.Cell.Run.{
  Event, control, telemetry, completion, retry, clear, poll, carriers, route, write, step,
  write_station, run_from, run,
}
use mes_copy.Cell.Soundness.{
  measure-Holds, write_station-Holds, complete-IsSteady, retry_station-IsSteady,
  clear_station-IsSteady, create-IsSound,
}
use mes_copy.Cell.Invariant.{
  IsReady, AllReady, definitions_of, found_of, IsCellSound, mapped-IsCellSound,
  at_resource-IsCellSound, control_tick-IsCellSound,
}
use mes_copy.Cell.Polling.{scan-IsCellSound}

-- No two definitions are of one resource.
abbrev IsApart : List Definition → Type 0
IsApart [] = Unit
IsApart (d ∷ ds) = All (λ e. d.resource_id ≢ e.resource_id) ds × IsApart ds

station_definitions-IsApart : (c : Settings) → IsApart (station_definitions c)
unfolding station_definitions
station_definitions-IsApart c = ground arith

others-IsReady :
    (a : Assignment) (d : Definition) (ss : List Station)
    → a.resource_id ≡ d.resource_id
    → All (λ e. d.resource_id ≢ e.resource_id) (definitions_of ss)
    → All (IsReady a) ss
others-IsReady a d [] e h = tt
others-IsReady a d (s ∷ ss) e (h, hs) = (λ e'. absurd (h (sym e ∙ e')), others-IsReady a d ss e hs)

station_of-IsReady :
    (a : Assignment) (s : Station) (ss : List Station)
    → IsApart (definitions_of ss)
    → station_of a.resource_id ss ≡ some s
    → is_free s ≡ true
    → All (IsReady a) ss
unfolding station_of
station_of-IsReady a s [] apart e free = tt
station_of-IsReady a s (t ∷ ts) (apart, aparts) e free =
    elim (Bool-cases (t.definition.resource_id == a.resource_id)) [
      | inl here ↦
          let same : t ≡ s = ground arith in
          let same_id : a.resource_id ≡ t.definition.resource_id = ground arith in
          (λ _. rw same free, others-IsReady a t.definition ts same_id apart)
      | inr there ↦
          (λ e'. absurd (ground arith), station_of-IsReady a s ts aparts (ground arith) free)
    ]

module _ (ss : List Station) (apart : IsApart (definitions_of ss)) (x : Candidate) where
  found_at-ready :
      (r : ℕ) (known : Option Station) → station_of r ss ≡ known → AllReady ss (found_at x known r)
  unfolding found_at
  found_at-ready r none e = tt
  found_at-ready r (some s) e = elim (Bool-cases (is_free s)) [
    | inl free ↦ rw free (station_of-IsReady (assignment_to x r) s ss apart e free, tt)
    | inr taken ↦ rw taken tt
  ]

  found_on-ready : (r : Option ℕ) → AllReady ss (found_on x r ss)
  unfolding found_on
  found_on-ready none = tt
  found_on-ready (some r) = found_at-ready r (station_of r ss) refl

  found_by-ready : (entry : Option RouteStep) → AllReady ss (found_by x entry ss)
  unfolding found_by
  found_by-ready none = tt
  found_by-ready (some entry) = found_on-ready entry.resource_id

module _ (c : Settings) where
  hear_route-IsCellSound :
      (p : Poll) (answer : Option (List RouteStep)) (cell : Cell)
      → cell.poll ≡ p
      → IsCellSound c cell
      → IsCellSound c (route_at p answer cell)
  unfolding route_at assign
  hear_route-IsCellSound (routing x rest found) none cell e ok = record {
    definitions = ok.definitions;
    stations = ok.stations;
    ready = tt;
  }
  hear_route-IsCellSound (routing x rest found) (some steps) cell e ok =
      let apart : IsApart (definitions_of cell.stations) =
        rw ok.definitions (station_definitions-IsApart c) in
      let before : AllReady cell.stations found =
        subst (λ q. AllReady cell.stations (found_of q)) e ok.ready in
      scan-IsCellSound c rest _ cell (
        ok.definitions,
        ok.stations,
        All-append (λ a. All (IsReady a) cell.stations) found _ before
            (found_by-ready cell.stations apart x (find (λ entry. entry.step_no == x.step) steps)),
      )
  hear_route-IsCellSound idle answer cell e ok = ok
  hear_route-IsCellSound fetching answer cell e ok = ok

  hear_carriers-IsCellSound :
      (p : Poll) (answer : Option (List Carrier)) (cell : Cell)
      → IsCellSound c cell
      → IsCellSound c (carriers_at p answer cell)
  unfolding carriers_at
  hear_carriers-IsCellSound fetching none cell ok = record {
    definitions = ok.definitions;
    stations = ok.stations;
    ready = tt;
  }
  hear_carriers-IsCellSound fetching (some cs) cell ok =
      scan-IsCellSound c cs [] cell (ok.definitions, ok.stations, tt)
  hear_carriers-IsCellSound idle answer cell ok = ok
  hear_carriers-IsCellSound (routing x rest found) answer cell ok = ok

  begin_at-IsCellSound :
      (p : Poll) (cell : Cell) → IsCellSound c cell → IsCellSound c (begin_at p cell)
  unfolding begin_at
  begin_at-IsCellSound idle cell ok = record {
    definitions = ok.definitions;
    stations = ok.stations;
    ready = tt;
  }
  begin_at-IsCellSound fetching cell ok = ok
  begin_at-IsCellSound (routing x rest found) cell ok = ok

  step-IsCellSound : (cell : Cell) (e : Event) → IsCellSound c cell → IsCellSound c (step c cell e)
  unfolding step begin_poll hear_carriers hear_route
  step-IsCellSound cell control ok = control_tick-IsCellSound c cell ok
  step-IsCellSound cell (telemetry now) ok =
      at_resource-IsCellSound c 72 (measure now) (λ s sound. measure-Holds c s sound now) cell ok
  step-IsCellSound cell (completion r) ok =
      at_resource-IsCellSound c r _ (complete-IsSteady c) cell ok
  step-IsCellSound cell (retry r) ok =
      at_resource-IsCellSound c r _ (retry_station-IsSteady c) cell ok
  step-IsCellSound cell (clear r) ok =
      at_resource-IsCellSound c r _ (clear_station-IsSteady c) cell ok
  step-IsCellSound cell poll ok = begin_at-IsCellSound cell.poll cell ok
  step-IsCellSound cell (carriers answer) ok = hear_carriers-IsCellSound cell.poll answer cell ok
  step-IsCellSound cell (route answer) ok = hear_route-IsCellSound cell.poll answer cell refl ok
  step-IsCellSound cell (write id v) ok =
      mapped-IsCellSound c (write_station id v) (λ s sound. write_station-Holds c s sound id v) cell
        cell.requested_assignments ok

  run_from-IsCellSound :
      (cell : Cell) (es : List Event) → IsCellSound c cell → IsCellSound c (run_from c cell es)
  unfolding run_from
  run_from-IsCellSound cell [] ok = ok
  run_from-IsCellSound cell (e ∷ es) ok =
      run_from-IsCellSound (step c cell e) es (step-IsCellSound cell e ok)

initial-IsCellSound : (c : Settings) → IsCellSound c (initial c)
unfolding initial
initial-IsCellSound c = record {
  definitions = refl;
  stations = (create-IsSound c _, (create-IsSound c _, (create-IsSound c _, tt)));
  ready = tt;
}

-- After any events in any order, from the start, the stations are those of the definitions, each of
-- them is sound, and while a poll is under way the station of every assignment that it has found
-- is free. A sound station has a current assignment exactly while it requests it or works on it,
-- not both, names its carrier, ends its completion pulse, is stopped when paused, and has counted
-- one part for each cycle; station 73 has rejected every `rejectEvery`-th, the others none.
pub run-IsCellSound : (c : Settings) (es : List Event) → IsCellSound c (run c es)
unfolding run
run-IsCellSound c es = run_from-IsCellSound c (initial c) es (initial-IsCellSound c)
