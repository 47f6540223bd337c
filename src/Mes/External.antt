-- ===== src/Mes/External.antt =====
-- An order that is created from outside is produced when its carrier passes the stations of its
-- route (src/orders/routing.service.ts, `createExternalProductionOrder`).
use mes_copy.Base.{
  ℕ, suc, ◌+◌, ◌≤◌, ◌≡◌, ◌≢◌, refl, ap, false, ◌||◌, Option, none, some, List, [], ◌∷◌, arith,
  is_some, All, Memᴰ, inl, inr, Bool-cases,
}
use mes_copy.Mes.{
  Carrier, Order, done, RouteStep, Machine, Product, ProductRouteStep, Parameter, Database, Profile,
  is_carrier_physically_available,
}
use mes_copy.Mes.Tables.{IsUnique, is_at, All-select, All-sort_by}
use mes_copy.Mes.Release.{All-of_each}
use mes_copy.Mes.Next.{IsIndexed}
use mes_copy.Mes.Underway.{IsUnderway}
use mes_copy.Mes.Journey.{Visit, travel, travel-IsProduced}
use mes_copy.Mes.Added.{
  IsNumbered, route_rows-order, route_rows-IsAscending, route_rows-IsUnique, route_rows-AreNew,
}
use mes_copy.Mes.Stations.{
  Transaction, thrown, returned, committed, get_route, find_order, terminal_resource_id,
  is_completed, save_carrier, save_order, not_found,
}
use mes_copy.Mes.Recovery.{is_available}
use mes_copy.Mes.Routes.{
  StepDefinition, RoutedStation, route_rows, is_of_order, save_route, profile_route, station_steps,
  product_steps, get_product_route, route_definition, or_default, route_of_product, ExternalOrder,
  external_order, find_external_product, assign_carrier, free_carriers,
}
use mes_copy.Mes.Orders.{
  assign_first, create_external_at, machine_of, create_external_with, create_external_product,
  create_external_production_order,
}
use mes_copy.Mes.Created.{IsNewRoute, placed-route, assigned-IsUnderway}

-- The uuids are new to the table of route steps and differ, and the tables have their indices.
pub record IsFresh (db : Database) (new_id : ℕ → ℕ) : Type 0 where
  pub distinct : (j k : ℕ) → new_id j ≡ new_id k → j ≡ k
  pub ids : (k : ℕ) → All (λ s. s.id ≢ new_id k) db.route_steps
  pub order : All (λ s. is_of_order (new_id 0) s ≡ false) db.route_steps
  pub indexed : IsIndexed db.route_steps
  pub carriers : IsUnique (λ c. c.id) db.carriers
  pub numbers : IsUnique (λ c. c.carrier_number) db.carriers

station_steps-IsNumbered :
    (parameters : List Parameter) (k : ℕ) (stations : List RoutedStation)
    → IsNumbered k (station_steps parameters k stations)
unfolding station_steps
station_steps-IsNumbered parameters k [] = tt
station_steps-IsNumbered parameters k (s ∷ ss) =
    (refl, station_steps-IsNumbered parameters (suc k) ss)

product_steps-IsNumbered :
    (parameters : List Parameter) (k : ℕ) (steps : List ProductRouteStep)
    → IsNumbered k (product_steps parameters k steps)
unfolding product_steps
product_steps-IsNumbered parameters k [] = tt
product_steps-IsNumbered parameters k (s ∷ ss) =
    (refl, product_steps-IsNumbered parameters (suc k) ss)

or_default-IsNumbered :
    (steps other : List StepDefinition)
    → IsNumbered 0 steps
    → IsNumbered 0 other
    → IsNumbered 0 (or_default steps other)
or_default-IsNumbered [] other h k = k
or_default-IsNumbered (d ∷ ds) other h k = h

route_definition-IsNumbered :
    (profile : Profile) (db : Database) (parameters : List Parameter) (product : Option Product)
    → IsNumbered 0 (route_definition profile db parameters product)
unfolding route_definition route_of_product
route_definition-IsNumbered profile db parameters none =
    station_steps-IsNumbered parameters 0 (profile_route profile)
route_definition-IsNumbered profile db parameters (some p) =
    or_default-IsNumbered (product_steps parameters 0 (get_product_route db p.id)) _
      (product_steps-IsNumbered parameters 0 (get_product_route db p.id))
      (station_steps-IsNumbered parameters 0 (profile_route profile))

free_carriers-Mem : (db : Database) → All (λ c. Memᴰ c db.carriers) (free_carriers db)
unfolding free_carriers
free_carriers-Mem db =
    All-select (λ c. Memᴰ c db.carriers) is_carrier_physically_available _
      (All-sort_by (λ c. Memᴰ c db.carriers) (λ c. c.carrier_number) _
        (All-select (λ c. Memᴰ c db.carriers) (λ c. is_available c.status) db.carriers
          (All-of_each (λ c. Memᴰ c db.carriers) db.carriers (λ c m. m))))

abbrev value_of : Transaction ℕ → ℕ
value_of (thrown e) = 0
value_of (returned db n) = n

-- A carrier is at the first step of the order, which has one piece.
pub record IsBegun (new : Database) (id : ℕ) : Type 0 where
  pub carrier : Carrier
  pub order : Order
  pub first : RouteStep
  pub rest : List RouteStep
  pub underway : IsUnderway new carrier.carrier_number carrier order first rest
  pub fresh : is_completed carrier.status ≡ false
  pub quantity : order.quantity ≡ 1
  pub completed_quantity : order.completed_quantity ≡ 0
  pub order_id : order.id ≡ id
  pub route : get_route new id ≡ first ∷ rest

module _ (profile : Profile) (new_id : ℕ → ℕ) (payload : ExternalOrder) (db new : Database) (id : ℕ)
    (fresh : IsFresh db new_id) where
  abbrev row_of : StepDefinition → RouteStep
  row_of d = record {
    id = new_id 1;
    order_id = new_id 0;
    step_no = d.step_no;
    resource_id = d.resource_id;
    operation_no = d.operation_no;
    operation = d.operation;
    parameters = d.parameters;
  }

  assign_first-IsBegun :
      (product : Option Product) (m : Machine) (first : StepDefinition) (rest : List StepDefinition)
      (free : List Carrier)
      → IsNumbered 0 (first ∷ rest)
      → All (λ c. Memᴰ c db.carriers) free
      → assign_first profile new_id payload
          (external_order (new_id 0) payload product first m)
          first
          (save_route
            (route_rows new_id (new_id 0) 1 (first ∷ rest))
            (save_order (external_order (new_id 0) payload product first m) db))
          free
        ≡ returned new id
      → IsBegun new id
  unfolding assign_first route_rows external_order get_route assign_carrier
  assign_first-IsBegun product m first rest [] numbered known e = cc
  assign_first-IsBegun product m first rest (c ∷ cs) numbered known e =
      let o = external_order (new_id 0) payload product first m in
      let rows = route_rows new_id (new_id 0) 1 (first ∷ rest) in
      let route : IsNewRoute db (new_id 0) rows = record {
        indexed = fresh.indexed;
        unknown = fresh.order;
        new =
            route_rows-AreNew new_id fresh.distinct (new_id 0) 1 (first ∷ rest) db.route_steps
              fresh.ids;
        ids = route_rows-IsUnique new_id fresh.distinct (new_id 0) 1 (first ∷ rest);
        mine = route_rows-order new_id fresh.distinct (new_id 0) 1 (first ∷ rest);
        ascending =
            route_rows-IsAscending new_id fresh.distinct (new_id 0) 0 1 (first ∷ rest) numbered;
      } in
      let s : RouteStep = row_of first in
      let tail = route_rows new_id (new_id 0) 2 rest in
      let begun : IsBegun
          (save_carrier (assign_carrier o.id s.step_no c) (save_route (s ∷ tail) (save_order o db)))
          o.id =
        record {
          carrier = assign_carrier o.id s.step_no c;
          order = o;
          first = s;
          rest = tail;
          underway =
              assigned-IsUnderway db o s tail c route fresh.carriers fresh.numbers known.0 refl;
          fresh = refl;
          quantity = refl;
          completed_quantity = refl;
          order_id = refl;
          route = placed-route db o.id (s ∷ tail) route;
        } in
      rw (← ap (committed db) e) (rw (← ap value_of e) begun)

  create_external_at-IsBegun :
      (product : Option Product) (steps : List StepDefinition) (machine : Option Machine)
      → IsNumbered 0 steps
      → create_external_at profile new_id payload db product steps machine ≡ returned new id
      → IsBegun new id
  unfolding create_external_at external_order
  create_external_at-IsBegun product [] machine numbered e = cc
  create_external_at-IsBegun product (first ∷ rest) none numbered e = cc
  create_external_at-IsBegun product (first ∷ rest) (some m) numbered e =
      assign_first-IsBegun product m first rest (free_carriers db) numbered (free_carriers-Mem db) e

  create_external_with-IsBegun :
      (product : Option Product)
      → create_external_with profile new_id payload db product ≡ returned new id
      → IsBegun new id
  unfolding create_external_with
  create_external_with-IsBegun product e =
      let steps = route_definition profile db payload.parameters product in
      create_external_at-IsBegun product steps (machine_of profile new_id payload db steps)
        (route_definition-IsNumbered profile db payload.parameters product) e

  create_external_product-IsBegun :
      (route : List RoutedStation) (product : Option Product)
      → create_external_product profile new_id payload db route product ≡ returned new id
      → IsBegun new id
  unfolding create_external_product
  create_external_product-IsBegun [] product e = cc
  create_external_product-IsBegun (s ∷ ss) none e =
      elim (Bool-cases (is_some payload.product_id || is_some payload.part_no)) [
        | inl named ↦ let thrown_first : thrown not_found ≡ returned new id = rw named at e in cc
        | inr unnamed ↦ create_external_with-IsBegun none (rw unnamed at e)
      ]
  create_external_product-IsBegun (s ∷ ss) (some p) e = create_external_with-IsBegun (some p) e

  pub create_external-IsBegun :
      create_external_production_order profile new_id payload db ≡ returned new id → IsBegun new id
  unfolding create_external_production_order
  create_external-IsBegun e =
      create_external_product-IsBegun (profile_route profile)
        (find_external_product db payload.product_id payload.part_no) e

-- The order is completed, and no carrier is left to it.
pub record IsFulfilled (db : Database) (id : ℕ) : Type 0 where
  pub after : Order
  pub found : find_order db id ≡ some after
  pub finished : after.status ≡ done
  pub released : All (λ c. is_at id c.order_id ≡ false) db.carriers

-- When an order from outside is created, there is a carrier such that, whenever the stations of the
-- order's route ask for it and report their process completed, one after the other, the order is
-- completed and no carrier is left to it. The uuids of the new rows are new, the tables have their
-- unique indices, and the profile has a terminal resource.
pub create_external-IsFulfilled :
    (profile : Profile) (new_id : ℕ → ℕ) (payload : ExternalOrder) (db new : Database) (id last : ℕ)
    → IsFresh db new_id
    → terminal_resource_id profile ≡ some last
    → create_external_production_order profile new_id payload db ≡ returned new id
    → (number : ℕ) × ((at : ℕ → Visit)
        → IsFulfilled (travel profile at 0 (get_route new id) number new) id)
create_external-IsFulfilled profile new_id payload db new id last fresh terminal e =
    let begun = create_external-IsBegun profile new_id payload db new id fresh e in
    let o = begun.order in
    let one : o.quantity ≤ o.completed_quantity + 1 =
      omega (arith, begun.quantity, begun.completed_quantity) in
    (
      begun.carrier.carrier_number,
      λ at.
          let produced =
            travel-IsProduced profile last at begun.carrier.carrier_number terminal begun.rest 0 new
              begun.carrier o begun.first begun.underway begun.fresh in
          rw begun.route (
            rw (← begun.order_id) (record {
              after = produced.after;
              found = produced.order;
              finished = produced.finished one;
              released = produced.released one;
            })),
    )
