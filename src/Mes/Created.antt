-- ===== src/Mes/Created.antt =====
-- An order that is new to the database, and the carrier that is assigned to it
-- (src/orders/routing.service.ts, `createExternalProductionOrder`).
use mes_copy.Base.{
  ℕ, ◌≡◌, ◌≢◌, refl, ap, true, false, some, List, [], ◌∷◌, ◌++◌, arith, ◌==◌, find, select, All,
  Memᴰ, inl, inr, Bool-cases, ==_iff,
}
use mathlib.Core.Path.{◌∙◌}
use mathlib.Core.List.{append-nil}
use mes_copy.Mes.{Carrier, Order, RouteStep, Database}
use mes_copy.Mes.Tables.{IsUnique, sort_by}
use mes_copy.Mes.Rows.{row-save, row-of_Mem, find-save, IsUnique-save, IsUnique-save_all}
use mes_copy.Mes.Sorting.{IsAscending}
use mes_copy.Mes.Next.{IsIndexed}
use mes_copy.Mes.Left.{find_route_step-get_route}
use mes_copy.Mes.Underway.{IsUnderway}
use mes_copy.Mes.Added.{
  AreNew, save_all-new, select-append, select-none, select-all, sort_by-ascending,
  IsAscending-IsUnique,
}
use mes_copy.Mes.Stations.{get_route, has_carrier_number, is_done, save_carrier, save_order}
use mes_copy.Mes.Routes.{is_of_order, save_route, assign_carrier}

-- The rows are a route of an order that the table does not know.
pub record IsNewRoute (db : Database) (order_id : ℕ) (rows : List RouteStep) : Type 0 where
  pub indexed : IsIndexed db.route_steps
  pub unknown : All (λ s. is_of_order order_id s ≡ false) db.route_steps
  pub new : AreNew (λ s. s.id) rows db.route_steps
  pub ids : IsUnique (λ s. s.id) rows
  pub mine : All (λ s. s.order_id ≡ order_id) rows
  pub ascending : IsAscending (λ s. s.step_no) rows

All-of_order :
    (n m : ℕ) (rows : List RouteStep)
    → All (λ s. s.order_id ≡ n) rows
    → All (λ s. is_of_order m s ≡ (n == m)) rows
All-of_order n m [] h = tt
All-of_order n m (s ∷ ss) h = (ap (λ k. k == m) h.0, All-of_order n m ss h.1)

module _ (db : Database) (order_id : ℕ) (rows : List RouteStep)
    (route : IsNewRoute db order_id rows) where
  abbrev placed : Database
  placed = save_route rows db

  placed-rows : placed.route_steps ≡ db.route_steps ++ rows
  placed-rows = save_all-new (λ s. s.id) rows db.route_steps route.new route.ids

  -- The route of the new order is what was added, and that of another is as it was.
  rows-of_order : select (is_of_order order_id) placed.route_steps ≡ rows
  rows-of_order =
      let self : (order_id == order_id) ≡ true = ground (arith, ==_iff order_id order_id) in
      let mine : All (λ s. is_of_order order_id s ≡ true) rows =
        rw self at (All-of_order order_id order_id rows route.mine) in
      rw placed-rows (
        select-append (is_of_order order_id) db.route_steps rows
        ∙ rw (select-none (is_of_order order_id) db.route_steps route.unknown)
            (select-all (is_of_order order_id) rows mine))

  rows-of_other :
      (o : ℕ)
      → order_id ≢ o
      → select (is_of_order o) placed.route_steps ≡ select (is_of_order o) db.route_steps
  rows-of_other o apart =
      let other : (order_id == o) ≡ false = ground (arith, ==_iff order_id o) in
      let none : All (λ s. is_of_order o s ≡ false) rows =
        rw other at (All-of_order order_id o rows route.mine) in
      rw placed-rows (
        select-append (is_of_order o) db.route_steps rows
        ∙ rw (select-none (is_of_order o) rows none)
            (append-nil (select (is_of_order o) db.route_steps)))

  placed-IsIndexed : IsIndexed placed.route_steps
  placed-IsIndexed = record {
    ids = IsUnique-save_all (λ s. s.id) rows db.route_steps route.indexed.ids;
    numbers = λ o. elim (Bool-cases (order_id == o)) [
      | inl same ↦
          let equal : order_id ≡ o = ground (arith, ==_iff order_id o) in
          rw (← equal)
            (rw rows-of_order (IsAscending-IsUnique (λ s. s.step_no) rows route.ascending))
      | inr other ↦
          let apart : order_id ≢ o = ground (arith, ==_iff order_id o) in
          rw (rows-of_other o apart) (route.indexed.numbers o)
    ];
  }

  pub placed-route : get_route placed order_id ≡ rows
  unfolding get_route
  placed-route =
      ap (sort_by (λ s. s.step_no)) rows-of_order
      ∙ sort_by-ascending (λ s. s.step_no) rows route.ascending

-- The carrier that is assigned is underway in the new order.
module _ (db : Database) (o : Order) (s : RouteStep) (rest : List RouteStep) (c : Carrier)
    (route : IsNewRoute db o.id (s ∷ rest)) (unique : IsUnique (λ r. r.id) db.carriers)
    (numbers : IsUnique (λ r. r.carrier_number) db.carriers) (known : Memᴰ c db.carriers)
    (not_done : is_done o.status ≡ false) where
  pub assigned-IsUnderway :
      IsUnderway
        (save_carrier (assign_carrier o.id s.step_no c) (save_route (s ∷ rest) (save_order o db)))
        c.carrier_number
        (assign_carrier o.id s.step_no c)
        o
        s
        rest
  unfolding assign_carrier get_route
  assigned-IsUnderway =
      let here = placed-route db o.id (s ∷ rest) route in
      let index = placed-IsIndexed db o.id (s ∷ rest) route in
      let self : (s.step_no == s.step_no) ≡ true = ground (arith, ==_iff s.step_no s.step_no) in
      let found : find (has_carrier_number c.carrier_number) db.carriers ≡ some c =
        row-of_Mem (λ r. r.carrier_number) c db.carriers numbers known in
      let number : has_carrier_number c.carrier_number (assign_carrier o.id s.step_no c) ≡ true =
        ground (arith, ==_iff c.carrier_number c.carrier_number) in
      record {
        unique = IsUnique-save (λ r. r.id) (assign_carrier o.id s.step_no c) db.carriers unique;
        indexed = index;
        carrier =
            find-save (λ r. r.id) (has_carrier_number c.carrier_number)
              (assign_carrier o.id s.step_no c) c db.carriers unique refl number found;
        in_order = refl;
        step_no = refl;
        order = row-save (λ x. x.id) o db.orders;
        running = not_done;
        step =
            find_route_step-get_route (save_route (s ∷ rest) db) index o.id s
              (rw here (Memᴰ.head refl));
        left = rw here (rw self refl);
      }
