-- ===== src/Mes/Underway.antt =====
-- A carrier on the route of an open order, and what its stations' requests do to it
-- (src/orders/routing.service.ts).
pub mod Steps
use mes_copy.Base.{
  ℕ, ◌≡◌, ◌≢◌, refl, sym, ap, Bool, true, false, Option, none, some, List, [], ◌∷◌, arith, ◌==◌,
  if◌then◌else◌, find, find_sound, inl, inr, Bool-cases, ==_iff,
}
use mathlib.Core.Path.{◌∙◌}
use mes_copy.Mes.{Carrier, Order, in_progress, RouteStep, Database, Profile}
use mes_copy.Mes.Tables.{save, IsUnique}
use mes_copy.Mes.Rows.{row-save, row-save_other, find-save, IsUnique-save}
use mes_copy.Mes.Next.{steps_from, head, tail, IsIndexed, next_step-steps_from}
use mes_copy.Mes.Left.{left-next}
use mes_copy.Mes.Stations.{
  Transaction, returned, Decision, rejected, wrong_resource, has_carrier_number, is_done,
  is_pending, is_completed, find_order, find_route_step, get_route, next_step, next_resource_id,
  terminal_resource_id, start_order, occupy, accept_with, accepted_database, accept, resolve_found,
  resolve_assigned, resolve_carrier, resolve_station_request, save_carrier, see_at_station,
}
use mes_copy.Mes.Completion.{
  Completion, send_on, record_completion, advance, finish_route, complete_at_step,
  complete_in_order, complete_assigned, complete_carrier, complete_station_step,
}

-- The carrier of this number is at the step `s` of an order that is not completed, and `rest` is
-- what comes after it.
pub record IsUnderway (db : Database) (number : ℕ) (c : Carrier) (o : Order) (s : RouteStep)
    (rest : List RouteStep) : Type 0 where
  pub unique : IsUnique (λ r. r.id) db.carriers
  pub indexed : IsIndexed db.route_steps
  pub carrier : find (has_carrier_number number) db.carriers ≡ some c
  pub in_order : c.order_id ≡ some o.id
  pub step_no : c.current_step_no ≡ some s.step_no
  pub order : find_order db o.id ≡ some o
  pub running : is_done o.status ≡ false
  pub step : find_route_step db o.id s.step_no ≡ some s
  pub left : steps_from s.step_no (get_route db o.id) ≡ s ∷ rest

-- With a terminal resource there is a resource to go to from every step.
pub next_resource_id-known :
    (profile : Profile) (last : ℕ)
    → terminal_resource_id profile ≡ some last
    → (rest : List RouteStep) → (next : ℕ) × (next_resource_id profile (head rest) ≡ some next)
unfolding next_resource_id
next_resource_id-known profile last terminal [] = (last, terminal)
next_resource_id-known profile last terminal (t ∷ ts) = (t.resource_id, refl)

module _ (db : Database) (number : ℕ) (c : Carrier) (o : Order) (s : RouteStep)
    (rest : List RouteStep) (u : IsUnderway db number c o s rest) where
  resolve-found :
      (profile : Profile) (now id r : ℕ)
      → resolve_station_request profile now id r number db
        ≡ resolve_found profile now id r c db (some o) (some s)
  unfolding resolve_station_request resolve_carrier resolve_assigned
  resolve-found profile now id r = simp (u.carrier, u.in_order, u.step_no, u.order, u.step)

  -- The next step is the first of the rest.
  next-rest : next_step db s o.id ≡ head rest
  next-rest = rw (next_step-steps_from db u.indexed o.id s.step_no s u.step) (rw u.left refl)

  pub resolve-elsewhere :
      (profile : Profile) (now id r : ℕ)
      → s.resource_id ≢ r
      → resolve_station_request profile now id r number db ≡ returned db (rejected wrong_resource)
  unfolding resolve_found
  resolve-elsewhere profile now id r apart =
      let miss : (s.resource_id == r) ≡ false = ground (arith, ==_iff s.resource_id r) in
      resolve-found profile now id r ∙ simp (u.running, miss)

  pub complete-found :
      (now id r : ℕ)
      → c.current_resource_id ≡ some r
      → complete_station_step now id r number db
        ≡ advance now id r c (record_completion now id r c o.id (some o) s db) (some o) (head rest)
  unfolding complete_station_step complete_carrier complete_assigned complete_in_order
      complete_at_step
  complete-found now id r here =
      let hit : (r == r) ≡ true = ground (arith, ==_iff r r) in
      simp (u.carrier, u.in_order, u.step_no, u.order, u.running, here, hit, u.step, next-rest)

  pub resolve-here :
      (profile : Profile) (now id r : ℕ)
      → s.resource_id ≡ r
      → is_completed c.status ≡ false
      → resolve_station_request profile now id r number db
        ≡ accept_with profile now id r c o s db
            (accepted_database profile now id r c o s db)
            (next_resource_id profile (head rest))
  unfolding resolve_found accept
  resolve-here profile now id r here fresh =
      let hit : (s.resource_id == r) ≡ true = ground (arith, ==_iff s.resource_id r) in
      resolve-found profile now id r ∙ simp (u.running, hit, fresh, next-rest)

  -- The order as the request leaves it.
  abbrev pub started : ℕ → Order
  started now =
      if is_pending o.status then record o { status = in_progress; start_time = some now } else o

  started-find : (now : ℕ) → find_order (start_order now o db) o.id ≡ some (started now)
  unfolding start_order
  started-find now = elim (Bool-cases (is_pending o.status)) [
    | inl pending ↦
        rw pending (
          row-save (λ x. x.id) (record o { status = in_progress; start_time = some now }) db.orders)
    | inr other ↦ rw other u.order
  ]

  number_of : c.carrier_number ≡ number
  number_of =
      let (_, holds) = find_sound (has_carrier_number number) db.carriers u.carrier in
      ground (arith, holds, ==_iff c.carrier_number number)

  module _ (now r : ℕ) where
    pub occupy-kept :
        ((occupy now r c).id ≡ c.id)
        × ((occupy now r c).carrier_number ≡ c.carrier_number)
        × ((occupy now r c).order_id ≡ c.order_id)
        × ((occupy now r c).current_step_no ≡ c.current_step_no)
        × ((occupy now r c).current_resource_id ≡ some r)
        × (is_completed (occupy now r c).status ≡ false)
    unfolding occupy see_at_station
    occupy-kept = ground arith

    pub started-kept :
        ((started now).id ≡ o.id)
        × (is_done (started now).status ≡ false)
        × ((started now).quantity ≡ o.quantity)
        × ((started now).completed_quantity ≡ o.completed_quantity)
    started-kept = ground (arith, u.running)

    start_order-kept :
        (new : Database)
        → ((start_order now o new).carriers ≡ new.carriers)
          × ((start_order now o new).route_steps ≡ new.route_steps)
    unfolding start_order
    start_order-kept new = ground arith
