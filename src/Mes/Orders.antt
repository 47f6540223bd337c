-- ===== src/Mes/Orders.antt =====
-- The orders of the MES (src/orders/orders.service.ts, and `createExternalProductionOrder` of
-- src/orders/routing.service.ts). `new_id k` is the uuid of the k-th row that a call adds.
use mes_copy.Base.{
  ℕ, String, Bool, ◌&&◌, ◌||◌, Option, none, some, List, [], ◌∷◌, find, is_some, map, take, length,
  if◌then◌else◌, ◌==◌, ltb,
}
use mes_copy.Mes.{Carrier, Order, pending, Machine, Product, Parameter, Database, Profile}
use mes_copy.Mes.Tables.{save_all, is_at}
use mes_copy.Mes.Stations.{
  Transaction, thrown, returned, bad_request, not_found, save_carrier, save_order,
}
use mes_copy.Mes.Routes.{
  StepDefinition, RoutedStation, route_rows, save_route, profile_route, station_steps,
  product_steps, get_product_route, merge, ExternalOrder, external_order, find_external_product,
  route_definition, assign_carrier, free_carriers,
}

-- `createExternalProductionOrder`: the first check that fails throws, and nothing is written.
module _ (profile : Profile) (new_id : ℕ → ℕ) (payload : ExternalOrder) where
  unfoldable pub assign_first : Order → StepDefinition → Database → List Carrier → Transaction ℕ
  unfolding assign_carrier
  assign_first order first db [] = thrown bad_request
  assign_first order first db (c ∷ _) =
      returned (save_carrier (assign_carrier order.id first.step_no c) db) order.id

  unfoldable pub create_external_at :
      Database → Option Product → List StepDefinition → Option Machine → Transaction ℕ
  unfolding external_order route_rows assign_first free_carriers
  create_external_at db product [] machine = thrown not_found
  create_external_at db product (first ∷ rest) none = thrown not_found
  create_external_at db product (first ∷ rest) (some machine) =
      let order = external_order (new_id 0) payload product first machine in
      let rows = route_rows new_id order.id 1 (first ∷ rest) in
      assign_first order first (save_route rows (save_order order db)) (free_carriers db)

  abbrev pub machine_of : Database → List StepDefinition → Option Machine
  machine_of db [] = none
  machine_of db (first ∷ rest) = find (λ m. is_at first.resource_id m.resource_id) db.machines

  unfoldable pub create_external_with : Database → Option Product → Transaction ℕ
  unfolding create_external_at route_definition
  create_external_with db product =
      let steps = route_definition profile db payload.parameters product in
      create_external_at db product steps (machine_of db steps)

  unfoldable pub create_external_product :
      Database → List RoutedStation → Option Product → Transaction ℕ
  unfolding create_external_with
  create_external_product db [] product = thrown not_found
  create_external_product db (station ∷ _) none =
      if is_some payload.product_id || is_some payload.part_no
      then thrown not_found
      else create_external_with db none
  create_external_product db (station ∷ _) (some product) = create_external_with db (some product)

  unfoldable pub create_external_production_order : Database → Transaction ℕ
  unfolding create_external_product profile_route find_external_product
  create_external_production_order db =
      create_external_product db (profile_route profile)
        (find_external_product db payload.product_id payload.part_no)

-- `CreateOrderDto`.
pub record NewOrder : Type 0 where
  pub name : String
  pub priority : ℕ
  pub machine_id : ℕ
  pub product_id : Option ℕ
  pub operation : String
  pub quantity : ℕ
  pub target_complete_time : Option ℕ
  pub route_steps : List StepDefinition
  pub production_parameters : List Parameter

-- `route.slice(route.findIndex(test))`; `[]` if nothing passes.
abbrev pub from_first : {A : Type 0} → (A → Bool) → List A → List A
from_first test [] = []
from_first test (x ∷ xs) = let rest = from_first test xs in if test x then x ∷ xs else rest

module _ (profile : Profile) (new_id : ℕ → ℕ) (dto : NewOrder) where
  unfoldable pub product_route_steps : Database → ℕ → Option Product → List StepDefinition
  unfolding product_steps get_product_route
  product_route_steps db start none = []
  product_route_steps db start (some product) =
      product_steps dto.production_parameters 0
        (from_first (λ s. s.resource_id == start) (get_product_route db product.id))

  unfoldable pub default_route_from : Database → Option ℕ → Option ℕ → List StepDefinition
  unfolding product_route_steps station_steps profile_route
  default_route_from db none product_id = []
  default_route_from db (some start) none =
      station_steps dto.production_parameters 0
        (from_first (λ s. s.resource_id == start) (profile_route profile))
  default_route_from db (some start) (some product_id) =
      product_route_steps db start (find (λ p. (p.id == product_id) && p.is_active) db.products)

  -- `startMachine?.resource_id`, where 0 counts as none.
  abbrev pub resource_of : Option Machine → Option ℕ
  resource_of none = none
  resource_of (some m) = elim m.resource_id [
    | none ↦ none
    | some n ↦ if n == 0 then none else some n
  ]

  -- `defaultRouteSteps`; `[]` where it throws a `BadRequestException`.
  unfoldable pub default_route_steps : Database → List StepDefinition
  unfolding default_route_from
  default_route_steps db =
      default_route_from db (resource_of (find (λ m. m.id == dto.machine_id) db.machines))
        dto.product_id

  unfoldable pub new_order : Order
  new_order = record {
    id = new_id 0;
    name = dto.name;
    priority = dto.priority;
    machine_id = dto.machine_id;
    product_id = dto.product_id;
    operation = dto.operation;
    status = pending;
    quantity = dto.quantity;
    completed_quantity = 0;
    start_time = none;
    end_time = none;
    target_complete_time = dto.target_complete_time;
    error_message = none;
  }

  abbrev pub with_production_parameters : StepDefinition → StepDefinition
  with_production_parameters d = record d {
    parameters = merge d.parameters dto.production_parameters;
  }

  unfoldable pub create_with : Database → List StepDefinition → List Carrier → Transaction ℕ
  unfolding new_order route_rows assign_carrier
  create_with db [] free = thrown bad_request
  create_with db (first ∷ rest) free =
      if ltb (length free) dto.quantity
      then thrown bad_request
      else (let rows =
            route_rows new_id (new_id 0) 1 (map with_production_parameters (first ∷ rest)) in
          let placed = save_route rows (save_order new_order db) in
          returned
            (record placed {
              carriers =
                  save_all (λ c. c.id)
                    (map (assign_carrier (new_id 0) first.step_no) (take dto.quantity free))
                    placed.carriers;
            })
            (new_id 0))

  abbrev pub chosen_steps : List StepDefinition → List StepDefinition → List StepDefinition
  chosen_steps [] default = default
  chosen_steps (d ∷ ds) default = d ∷ ds

  -- `create`.
  unfoldable pub create_order : Database → Transaction ℕ
  unfolding create_with default_route_steps free_carriers
  create_order db =
      create_with db (chosen_steps dto.route_steps (default_route_steps db)) (free_carriers db)
