-- ===== src/Cell/Polling.antt =====
-- A poll of the MES keeps the multi-station server sound, and so does every event.
use mes_copy.Base.{
  ◌≡◌, refl, ◌∙◌, false, Option, none, some, List, [], ◌∷◌, arith, ◌==◌, All, inl, inr, Bool-cases,
  includes,
}
use mes_copy.Press.Mes.{Carrier, Candidate, signature_of}
use mes_copy.Cell.{Settings, Station, Assignment, Cell, idle, station_definitions}
use mes_copy.Cell.Cycle.{is_free, take_assignment}
use mes_copy.Cell.Mes.{
  station_of, at_resource, request_of, request_all, scan, scan_with, due_candidate,
}
use mes_copy.Cell.Soundness.{IsSound, take_assignment-IsSound}
use mes_copy.Cell.Invariant.{IsReady, AllReady, definitions_of, IsCellSound}

-- No process is active at the station of an assignment.
abbrev IsQuiet : Assignment → Station → Type 0
IsQuiet a s = a.resource_id ≡ s.definition.resource_id → s.process.active ≡ false

abbrev AllQuiet : List Station → List Assignment → Type 0
AllQuiet ss found = All (λ a. All (IsQuiet a) ss) found

ready-IsQuiet : (a : Assignment) (ss : List Station) → All (IsReady a) ss → All (IsQuiet a) ss
ready-IsQuiet a [] h = tt
ready-IsQuiet a (s ∷ ss) (h, hs) =
    (λ e. unfold is_free in ground (arith, h e), ready-IsQuiet a ss hs)

AllReady-AllQuiet :
    (ss : List Station) (found : List Assignment) → AllReady ss found → AllQuiet ss found
AllReady-AllQuiet ss [] h = tt
AllReady-AllQuiet ss (a ∷ found) (h, hs) = (ready-IsQuiet a ss h, AllReady-AllQuiet ss found hs)

-- Taking an assignment changes neither what is active nor which station it is.
module _ (a : Assignment) where
  taken-IsQuiet :
      (b : Assignment) (ss : List Station)
      → All (IsQuiet b) ss
      → All (IsQuiet b) (at_resource a.resource_id (take_assignment a) ss)
  unfolding at_resource take_assignment
  taken-IsQuiet b [] h = tt
  taken-IsQuiet b (s ∷ ss) (h, hs) = (λ e. ground (arith, h), taken-IsQuiet b ss hs)

  taken-AllQuiet :
      (found : List Assignment) (ss : List Station)
      → AllQuiet ss found
      → AllQuiet (at_resource a.resource_id (take_assignment a) ss) found
  taken-AllQuiet [] ss h = tt
  taken-AllQuiet (b ∷ found) ss (h, hs) = (taken-IsQuiet b ss h, taken-AllQuiet found ss hs)

  taken-IsSound :
      (c : Settings) (ss : List Station)
      → All (IsSound c) ss
      → All (IsQuiet a) ss
      → All (IsSound c) (at_resource a.resource_id (take_assignment a) ss)
  unfolding at_resource
  taken-IsSound c [] ok h = tt
  taken-IsSound c (s ∷ ss) (ok, oks) (h, hs) =
      elim (Bool-cases (s.definition.resource_id == a.resource_id)) [
        | inl here ↦
            let same : a.resource_id ≡ s.definition.resource_id = ground arith in
            (rw here (take_assignment-IsSound c a s ok (h same)), taken-IsSound c ss oks hs)
        | inr there ↦ (rw there ok, taken-IsSound c ss oks hs)
      ]

taken-definitions :
    (a : Assignment) (ss : List Station)
    → definitions_of (at_resource a.resource_id (take_assignment a) ss) ≡ definitions_of ss
unfolding at_resource take_assignment
taken-definitions a [] = refl
taken-definitions a (s ∷ ss) = elim (Bool-cases (s.definition.resource_id == a.resource_id)) [
  | inl here ↦ rw here (cc (taken-definitions a ss))
  | inr there ↦ rw there (cc (taken-definitions a ss))
]

request_of-definitions :
    (a : Assignment) (known : Option Station) (cell : Cell)
    → definitions_of (request_of a known cell).stations ≡ definitions_of cell.stations
unfolding request_of
request_of-definitions a none cell = refl
request_of-definitions a (some _) cell = taken-definitions a cell.stations

request_all-definitions :
    (found : List Assignment) (cell : Cell)
    → definitions_of (request_all found cell).stations ≡ definitions_of cell.stations
unfolding request_all
request_all-definitions [] cell = refl
request_all-definitions (a ∷ found) cell =
    request_all-definitions found _
    ∙ request_of-definitions a (station_of a.resource_id cell.stations) cell

module _ (c : Settings) where
  abbrev IsServable : Cell → List Assignment → Type 0
  IsServable cell found = All (IsSound c) cell.stations × AllQuiet cell.stations found

  request_of-kept :
      (a : Assignment) (known : Option Station) (cell : Cell) (found : List Assignment)
      → IsServable cell (a ∷ found)
      → IsServable (request_of a known cell) found
  unfolding request_of
  request_of-kept a none cell found (ok, (h, hs)) = (ok, hs)
  request_of-kept a (some _) cell found (ok, (h, hs)) =
      (taken-IsSound a c cell.stations ok h, taken-AllQuiet a found cell.stations hs)

  request_all-IsSound :
      (found : List Assignment) (cell : Cell)
      → IsServable cell found
      → All (IsSound c) (request_all found cell).stations
  unfolding request_all
  request_all-IsSound [] cell (ok, h) = ok
  request_all-IsSound (a ∷ found) cell ok =
      request_all-IsSound found _
        (request_of-kept a (station_of a.resource_id cell.stations) cell found ok)

  request_of-poll :
      (a : Assignment) (known : Option Station) (cell : Cell)
      → (request_of a known cell).poll ≡ cell.poll
  unfolding request_of
  request_of-poll a none cell = refl
  request_of-poll a (some _) cell = refl

  request_all-poll :
      (found : List Assignment) (cell : Cell) → (request_all found cell).poll ≡ cell.poll
  unfolding request_all
  request_all-poll [] cell = refl
  request_all-poll (a ∷ found) cell =
      request_all-poll found _ ∙ request_of-poll a (station_of a.resource_id cell.stations) cell

  -- A sound cell whose poll has found these assignments so far.
  abbrev pub IsFound : Cell → List Assignment → Type 0
  IsFound cell found =
      (definitions_of cell.stations ≡ station_definitions c)
      × All (IsSound c) cell.stations
      × AllReady cell.stations found

  request_all-IsCellSound :
      (found : List Assignment) (cell : Cell)
      → IsFound cell found
      → IsCellSound c (request_all found (record cell { poll = idle }))
  request_all-IsCellSound found cell (defs, ok, ready) = record {
    definitions = request_all-definitions found _ ∙ defs;
    stations = request_all-IsSound found _ (ok, AllReady-AllQuiet cell.stations found ready);
    ready = rw (request_all-poll found (record cell { poll = idle })) tt;
  }

  scan_with-IsCellSound :
      (x : Option Candidate) (rest : List Carrier) (found : List Assignment) (go : Cell → Cell)
      (cell : Cell)
      → IsFound cell found
      → IsCellSound c (go cell)
      → IsCellSound c (scan_with x rest found go cell)
  unfolding scan_with
  scan_with-IsCellSound none rest found go cell ok ih = ih
  scan_with-IsCellSound (some x) rest found go cell ok ih =
      elim (Bool-cases (includes (signature_of x) cell.requested_assignments)) [
        | inl old ↦ rw old ih
        | inr new ↦ rw new (record { definitions = ok.0; stations = ok.1; ready = ok.2 })
      ]

  pub scan-IsCellSound :
      (cs : List Carrier) (found : List Assignment) (cell : Cell)
      → IsFound cell found
      → IsCellSound c (scan cs found cell)
  unfolding scan
  scan-IsCellSound [] found cell ok = request_all-IsCellSound found cell ok
  scan-IsCellSound (x ∷ cs) found cell ok =
      scan_with-IsCellSound (due_candidate x x.order_id x.current_step_no) cs found (scan cs found)
        cell ok (scan-IsCellSound cs found cell ok)
