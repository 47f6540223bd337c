-- ===== src/Mes/Refinement.antt =====
-- The routing service against what it promises: an order's carrier has a list of steps before it,
-- a station's request is granted to the station of the first, and its completion takes that off.
use mes_copy.Base.{
  ℕ, ◌≡◌, ◌≢◌, refl, sym, ap, true, false, not, ◌&&◌, Option, none, some, List, [], ◌∷◌, arith,
  ◌==◌, leb, if◌then◌else◌, find, All, inl, inr, Bool-cases, Option-cases, ==_iff,
}
use mathlib.Core.Path.{◌∙◌}
use mes_copy.Mes.{Carrier, Order, RouteStep, Database, Profile}
use mes_copy.Mes.Tables.{is_at, All-find}
use mes_copy.Mes.Next.{steps_from, head, tail}
use mes_copy.Mes.Underway.{
  IsUnderway, next_resource_id-known, resolve-elsewhere, resolve-here, complete-found, started-kept,
  occupy-kept,
}
use mes_copy.Mes.Underway.Steps.{
  resolve-IsUnderway, send_on-IsUnderway, send_on-kept, carrier-saved,
}
use mes_copy.Mes.Release.{release_carriers-released}
use mes_copy.Mes.Stations.{
  Transaction, thrown, returned, Decision, RoutingOutcome, accepted, wrong_resource, committed,
  has_carrier_number, is_completed, get_route, resolve_station_request, accept_with,
  accepted_database, terminal_resource_id,
}
use mes_copy.Mes.Completion.{
  complete_station_step, advance, finish_route, finish_counted, count_finished, finish_order,
  finish_carrier, record_completion,
}

-- The steps before a carrier, with its order and the number of its step.
abbrev pub left_at : Database → ℕ → Carrier → Option ℕ → List RouteStep
left_at db order_id c none = []
left_at db order_id c (some n) =
    if is_at order_id c.order_id && not (is_completed c.status)
    then steps_from n (get_route db order_id)
    else []

abbrev pub left_of : Database → ℕ → Option Carrier → List RouteStep
left_of db order_id none = []
left_of db order_id (some c) = left_at db order_id c c.current_step_no

-- The steps of the order that are before the carrier of this number.
abbrev pub steps_left : Database → ℕ → ℕ → List RouteStep
steps_left db order_id number = left_of db order_id (find (has_carrier_number number) db.carriers)

-- How a request ends by what is before the carrier.
abbrev pub granted : List RouteStep → ℕ → RoutingOutcome
granted [] r = wrong_resource
granted (s ∷ ss) r = if s.resource_id == r then accepted else wrong_resource

abbrev pub outcome_of : Transaction Decision → Option RoutingOutcome
outcome_of (thrown e) = none
outcome_of (returned db d) = some d.outcome

pub IsUnderway-steps_left :
    (db : Database) (number : ℕ) (c : Carrier) (o : Order) (s : RouteStep) (rest : List RouteStep)
    → IsUnderway db number c o s rest
    → is_completed c.status ≡ false
    → steps_left db o.id number ≡ s ∷ rest
IsUnderway-steps_left db number c o s rest u fresh =
    let hit : (o.id == o.id) ≡ true = ground (arith, ==_iff o.id o.id) in
    simp (u.carrier, u.step_no, u.in_order, hit, fresh, u.left)

left_at-other :
    (db : Database) (order_id : ℕ) (c : Carrier) (n : Option ℕ)
    → is_at order_id c.order_id && not (is_completed c.status) ≡ false
    → left_at db order_id c n ≡ []
left_at-other db order_id c none other = refl
left_at-other db order_id c (some n) other = rw other refl

-- Nothing is before a carrier of no order.
steps_left-free :
    (db : Database) (order_id number : ℕ)
    → All (λ c. is_at order_id c.order_id ≡ false) db.carriers
    → steps_left db order_id number ≡ []
steps_left-free db order_id number free =
    elim (Option-cases (find (has_carrier_number number) db.carriers)) [
      | inl gone ↦ rw gone refl
      | inr (c, found) ↦
          let other : is_at order_id c.order_id ≡ false =
            All-find (λ r. is_at order_id r.order_id ≡ false) (has_carrier_number number)
              db.carriers free found in
          rw found (left_at-other db order_id c c.current_step_no (rw other refl))
    ]

module _ (db : Database) (number : ℕ) (c : Carrier) (o : Order) (s : RouteStep)
    (rest : List RouteStep) (u : IsUnderway db number c o s rest)
    (fresh : is_completed c.status ≡ false) (now id r : ℕ) where
  -- A request of a station for a carrier on its route, and not through with it, is accepted if the
  -- station is that of the first step before the carrier, and else rejected as of the wrong
  -- resource; the steps before the carrier stay. The profile needs a terminal resource.
  pub resolve-refines :
      (profile : Profile) (last : ℕ)
      → terminal_resource_id profile ≡ some last
      → (outcome_of (resolve_station_request profile now id r number db)
          ≡ some (granted (steps_left db o.id number) r))
        × (steps_left
              (committed db (resolve_station_request profile now id r number db))
              o.id
              number
            ≡ steps_left db o.id number)
  unfolding accept_with
  resolve-refines profile last terminal = elim (Bool-cases (s.resource_id == r)) [
    | inl hit ↦
        let here : s.resource_id ≡ r = ground (arith, ==_iff s.resource_id r) in
        let (next, known) = next_resource_id-known profile last terminal rest in
        let taken = resolve-here db number c o s rest u profile now id r here fresh in
        let there = resolve-IsUnderway db number c o s rest u profile now id r in
        let kept = started-kept db number c o s rest u now r in
        let placed = occupy-kept db number c o s rest u now r in
        let before = IsUnderway-steps_left db number c o s rest u fresh in
        rw taken (
          rw known (
            rw before (
              rw hit refl,
              ap (λ n. steps_left (accepted_database profile now id r c o s db) n number)
                    (sym kept.0)
                  ∙ IsUnderway-steps_left _ number _ _ s rest there placed.5,
            )))
    | inr miss ↦
        let apart : s.resource_id ≢ r = ground (arith, ==_iff s.resource_id r) in
        let before = IsUnderway-steps_left db number c o s rest u fresh in
        rw (resolve-elsewhere db number c o s rest u profile now id r apart)
          (rw before (rw miss refl, refl))
  ]

  -- The completion of the last step, when it is counted.
  finish_counted-left :
      (new : Database)
      → new.carriers ≡ db.carriers
      → steps_left (finish_counted now id r c new (count_finished o)).database o.id number ≡ []
  unfolding finish_counted count_finished finish_order finish_carrier
  finish_counted-left new same =
      let counted = count_finished o in
      elim (Bool-cases (leb counted.quantity counted.completed_quantity)) [
        | inl all ↦
            rw all (
              steps_left-free _ o.id number (release_carriers-released o.id new (rw same u.unique)))
        | inr more ↦ rw more (
            rw same (
              rw (carrier-saved db number c o s rest u (finish_carrier c) refl refl)
                (rw u.step_no (ground arith))))
      ]

  complete-refines-by :
      (left : List RouteStep)
      → left ≡ rest
      → steps_left
          (advance now id r c
            (record_completion now id r c o.id (some o) s db)
            (some o)
            (head left)).database
          o.id
          number
        ≡ left
  unfolding advance finish_route record_completion
  complete-refines-by [] e = finish_counted-left _ refl
  complete-refines-by (t ∷ after) e =
      let there = send_on-IsUnderway db number c o s rest u now id r t after (sym e) in
      let sent = send_on-kept db number c o s rest u now id r t.step_no in
      IsUnderway-steps_left _ number _ o t after there sent.4

  -- The completion of a step takes it off the steps before the carrier, if the carrier is on its
  -- route, not through with it, and at the station that reports the completion.
  pub complete-refines :
      c.current_resource_id ≡ some r
      → steps_left (complete_station_step now id r number db).database o.id number
        ≡ tail (steps_left db o.id number)
  complete-refines here =
      rw (complete-found db number c o s rest u now id r here)
        (rw (IsUnderway-steps_left db number c o s rest u fresh) (complete-refines-by rest refl))
