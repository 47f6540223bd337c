-- ===== src/Cell/Lost.antt =====
-- What the multi-station server does when one poll finds two assignments for one station.
use mes_copy.Base.{
  ℕ, String, ◌≡◌, refl, true, false, some, List, [], ◌∷◌, arith, ◌==◌, inl, inr, Bool-cases,
  includes, eq_iff,
}
use mes_copy.Press.Mes.{Carrier, RouteStep, Candidate, signature_of}
use mes_copy.Cell.{Settings, Station, Assignment, Cell, idle, fetching}
use mes_copy.Cell.Cycle.{take_assignment}
use mes_copy.Cell.Mes.{
  station_of, at_resource, add_signature, request_of, request_all, scan, scan_with, due_candidate,
  assign, assignment_to, hear_carriers, carriers_at, hear_route, route_at,
}
use mes_copy.Cell.Run.{carriers, route, step, run_from}

includes-add_self : (g : String) (gs : List String) → includes g (add_signature g gs) ≡ true
unfolding add_signature
includes-add_self g gs = ground (arith, eq_iff g g)

includes-add :
    (g h : String) (gs : List String)
    → includes g gs ≡ true
    → includes g (add_signature h gs) ≡ true
unfolding add_signature
includes-add g h gs e = ground arith

station_of-take :
    (a : Assignment) (s : Station) (ss : List Station)
    → station_of a.resource_id ss ≡ some s
    → station_of a.resource_id (at_resource a.resource_id (take_assignment a) ss)
      ≡ some (take_assignment a s)
unfolding station_of at_resource take_assignment
station_of-take a s [] e = cc
station_of-take a s (t ∷ ts) e = elim (Bool-cases (t.definition.resource_id == a.resource_id)) [
  | inl here ↦ let same : t ≡ s = ground arith in rw (here, same) (rw (← same) (rw here))
  | inr there ↦ rw there (rw there (station_of-take a s ts (ground arith)))
]

-- Both assignments are requested, and the station works on the second.
abbrev pub IsOverwritten : Candidate → Candidate → ℕ → Cell → Type 0
IsOverwritten x y r after =
    ((t : Station) × (station_of r after.stations ≡ some t)
      × (t.current_assignment ≡ some (assignment_to y r)))
    × (includes (signature_of x) after.requested_assignments ≡ true)
    × (includes (signature_of y) after.requested_assignments ≡ true)

module _ (x y : Candidate) (r : ℕ) (s : Station) (cell : Cell)
    (known : station_of r cell.stations ≡ some s) where
  abbrev first : Assignment
  first = assignment_to x r

  abbrev second : Assignment
  second = assignment_to y r

  once :
      station_of r (at_resource r (take_assignment first) cell.stations)
      ≡ some (take_assignment first s)
  once = station_of-take first s cell.stations known

  request_both : request_all (first ∷ second ∷ []) cell ≡ record cell {
    requested_assignments =
        add_signature (signature_of y) (add_signature (signature_of x) cell.requested_assignments);
    stations =
        at_resource r
          (take_assignment second)
          (at_resource r (take_assignment first) cell.stations);
  }
  unfolding request_all request_of
  request_both = simp (known, once)

  request_both-overwrites : IsOverwritten x y r (request_all (first ∷ second ∷ []) cell)
  request_both-overwrites = rw request_both (
    (
      take_assignment second (take_assignment first s),
      station_of-take second (take_assignment first s) _ once,
      unfold take_assignment in refl,
    ),
    includes-add (signature_of x) (signature_of y) _ (includes-add_self (signature_of x) _),
    includes-add_self (signature_of y) _,
  )

-- A poll takes the stations as it finds them, and does not look at what it has found itself. So if
-- the MES names two due carriers that were not requested, and the routes of both have their
-- current step at one free station, the poll ends with both requested and the station at the
-- second.
pub two_carriers_overwrite :
    (c : Settings) (cell : Cell) (x y : Carrier) (m n : Candidate)
    (route_x route_y : List RouteStep) (r : ℕ) (s : Station)
    → due_candidate x x.order_id x.current_step_no ≡ some m
    → due_candidate y y.order_id y.current_step_no ≡ some n
    → includes (signature_of m) cell.requested_assignments ≡ false
    → includes (signature_of n) cell.requested_assignments ≡ false
    → station_of r cell.stations ≡ some s
    → assign m route_x cell.stations ≡ assignment_to m r ∷ []
    → assign n route_y cell.stations ≡ assignment_to n r ∷ []
    → IsOverwritten m n r (
        run_from c
          (record cell { poll = fetching })
          (carriers (some (x ∷ y ∷ [])) ∷ route (some route_x) ∷ route (some route_y) ∷ []))
unfolding run_from step hear_carriers hear_route carriers_at route_at scan scan_with
two_carriers_overwrite c cell x y m n route_x route_y r s dx dy fx fy known ax ay =
    simp (dx, dy, fx, fy, ax, ay)
      (request_both-overwrites m n r s (record cell { poll = idle }) known)
