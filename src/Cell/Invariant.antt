-- ===== src/Cell/Invariant.antt =====
-- The multi-station server is sound after any events in any order.
use mes_copy.Base.{
  ℕ, String, ◌≡◌, refl, ◌∙◌, ap, true, List, [], ◌∷◌, map, ◌==◌, if◌then◌else◌, All, inl, inr,
  Bool-cases,
}
use mes_copy.Cell.{
  Settings, Definition, Station, Assignment, Cell, Poll, idle, fetching, routing,
  station_definitions,
}
use mes_copy.Cell.Cycle.{is_free, take_response}
use mes_copy.Cell.Mes.{station_of, at_resource}
use mes_copy.Cell.Commands.{
  Command, reset, stop, pause, start, apply_machine_control, is_given, take_command, withdraw,
  control_tick,
}
use mes_copy.Cell.Soundness.{
  IsSound, IsSteady, reset_station-Holds, stop_station-Holds, pause_station-Holds,
  start_station-Holds, take_response-Holds, withdraw-Holds, Holds-refl,
}

-- The station of an assignment that a poll has found is free.
abbrev pub IsReady : Assignment → Station → Type 0
IsReady a s = a.resource_id ≡ s.definition.resource_id → is_free s ≡ true

abbrev pub AllReady : List Station → List Assignment → Type 0
AllReady ss found = All (λ a. All (IsReady a) ss) found

abbrev pub found_of : Poll → List Assignment
found_of idle = []
found_of fetching = []
found_of (routing _ _ found) = found

abbrev pub definitions_of : List Station → List Definition
definitions_of ss = map (λ s. s.definition) ss

pub record IsCellSound (c : Settings) (cell : Cell) : Type 0 where
  pub definitions : definitions_of cell.stations ≡ station_definitions c
  pub stations : All (IsSound c) cell.stations
  pub ready : AllReady cell.stations (found_of cell.poll)

module _ (c : Settings) where
  map-IsSound :
      (f : Station → Station)
      → IsSteady c f
      → (ss : List Station) → All (IsSound c) ss
      → All (IsSound c) (map f ss)
  map-IsSound f k [] ok = tt
  map-IsSound f k (s ∷ ss) (ok, oks) = ((k s ok).sound, map-IsSound f k ss oks)

  map-IsReady :
      (f : Station → Station)
      → IsSteady c f
      → (ss : List Station) (a : Assignment) → All (IsSound c) ss
      → All (IsReady a) ss
      → All (IsReady a) (map f ss)
  map-IsReady f k [] a ok h = tt
  map-IsReady f k (s ∷ ss) a (ok, oks) (h, hs) = (
    λ e. (k s ok).free (h (e ∙ ap (λ d. d.resource_id) (k s ok).definition)),
    map-IsReady f k ss a oks hs,
  )

  map-AllReady :
      (f : Station → Station)
      → IsSteady c f
      → (ss : List Station) (found : List Assignment) → All (IsSound c) ss
      → AllReady ss found
      → AllReady (map f ss) found
  map-AllReady f k ss [] ok h = tt
  map-AllReady f k ss (a ∷ found) ok (h, hs) =
      (map-IsReady f k ss a ok h, map-AllReady f k ss found ok hs)

  map-definitions :
      (f : Station → Station)
      → IsSteady c f
      → (ss : List Station) → All (IsSound c) ss
      → definitions_of (map f ss) ≡ definitions_of ss
  map-definitions f k [] ok = refl
  map-definitions f k (s ∷ ss) (ok, oks) = cc ((k s ok).definition, map-definitions f k ss oks)

  -- An operation on every station keeps a sound cell sound, whatever becomes of the requests.
  pub mapped-IsCellSound :
      (f : Station → Station)
      → IsSteady c f
      → (cell : Cell) (gs : List String) → IsCellSound c cell
      → IsCellSound c (record cell { stations = map f cell.stations; requested_assignments = gs })
  mapped-IsCellSound f k cell gs ok = record {
    definitions = map-definitions f k cell.stations ok.stations ∙ ok.definitions;
    stations = map-IsSound f k cell.stations ok.stations;
    ready = map-AllReady f k cell.stations (found_of cell.poll) ok.stations ok.ready;
  }

  at-IsSteady :
      (r : ℕ) (f : Station → Station)
      → IsSteady c f
      → IsSteady c (λ s. if s.definition.resource_id == r then f s else s)
  at-IsSteady r f k s ok = elim (Bool-cases (s.definition.resource_id == r)) [
    | inl here ↦ rw here (k s ok)
    | inr there ↦ rw there (Holds-refl ok)
  ]

  pub at_resource-IsCellSound :
      (r : ℕ) (f : Station → Station)
      → IsSteady c f
      → (cell : Cell) → IsCellSound c cell
      → IsCellSound c (record cell { stations = at_resource r f cell.stations })
  unfolding at_resource
  at_resource-IsCellSound r f k cell ok =
      mapped-IsCellSound _ (at-IsSteady r f k) cell cell.requested_assignments ok

  apply-IsCellSound :
      (k : Command) (cell : Cell)
      → IsCellSound c cell
      → IsCellSound c (apply_machine_control k cell)
  unfolding apply_machine_control
  apply-IsCellSound reset cell ok = mapped-IsCellSound _ (reset_station-Holds c) cell _ ok
  apply-IsCellSound stop cell ok = mapped-IsCellSound _ (stop_station-Holds c) cell _ ok
  apply-IsCellSound pause cell ok = mapped-IsCellSound _ (pause_station-Holds c) cell _ ok
  apply-IsCellSound start cell ok = mapped-IsCellSound _ (start_station-Holds c) cell _ ok

  take_command-IsCellSound :
      (k : Command) (cell : Cell) → IsCellSound c cell → IsCellSound c (take_command k cell)
  unfolding take_command
  take_command-IsCellSound k cell ok =
      elim (Bool-cases (is_given k (station_of 72 cell.stations))) [
        | inl on ↦ simp on (
            apply-IsCellSound k _ (
              at_resource-IsCellSound 72 (withdraw k) (λ s sound. withdraw-Holds c s sound k) cell
                ok))
        | inr off ↦ simp off ok
      ]

  pub control_tick-IsCellSound :
      (cell : Cell) → IsCellSound c cell → IsCellSound c (control_tick cell)
  unfolding control_tick
  control_tick-IsCellSound cell ok = mapped-IsCellSound take_response (take_response-Holds c) _ _ (
      take_command-IsCellSound start _ (
        take_command-IsCellSound pause _
          (take_command-IsCellSound stop _ (take_command-IsCellSound reset cell ok))))
