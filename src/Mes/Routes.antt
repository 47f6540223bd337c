-- ===== src/Mes/Routes.antt =====
-- Routes and the orders that come with one (src/orders/routing.service.ts, `replaceRoute` and
-- `createExternalProductionOrder`; the default route of src/orders/orders.service.ts).
-- `new_id k` is the uuid of the k-th row that a call adds.
use mes_copy.Base.{
  ℕ, suc, String, Bool, true, false, ◌&&◌, Option, none, some, List, [], ◌∷◌, ◌++◌, find, select,
  if◌then◌else◌, ◌==◌, str_eq,
}
use mes_copy.Mes.{
  Carrier, assigned, Order, pending, RouteStep, Machine, Product, ProductRouteStep, Parameter,
  Database, Station, StationRouting, Profile, is_carrier_physically_available,
}
use mes_copy.Mes.Tables.{save_all, delete, sort_by}
use mes_copy.Mes.Stations.{Transaction, thrown, returned, bad_request, not_found, find_order}
use mes_copy.Mes.Recovery.{is_available}

-- `RouteStepDto` and `CreateOrderRouteStepDto`; parameters that are not there are `{}`.
pub record StepDefinition : Type 0 where
  pub step_no : ℕ
  pub resource_id : ℕ
  pub operation_no : ℕ
  pub operation : String
  pub parameters : List Parameter

-- `{ ...parameters, [key]: value }` and `{ ...old, ...new }`.
abbrev pub set_parameter : Parameter → List Parameter → List Parameter
set_parameter p [] = p ∷ []
set_parameter p (q ∷ qs) =
    let rest = set_parameter p qs in if str_eq q.key p.key then p ∷ qs else q ∷ rest

abbrev pub merge : List Parameter → List Parameter → List Parameter
merge old [] = old
merge old (p ∷ ps) = merge (set_parameter p old) ps

unfoldable pub route_rows : (ℕ → ℕ) → ℕ → ℕ → List StepDefinition → List RouteStep
route_rows new_id order_id k [] = []
route_rows new_id order_id k (d ∷ ds) =
    record {
      id = new_id k;
      order_id = order_id;
      step_no = d.step_no;
      resource_id = d.resource_id;
      operation_no = d.operation_no;
      operation = d.operation;
      parameters = d.parameters;
    }
    ∷ route_rows new_id order_id (suc k) ds

abbrev pub save_route : List RouteStep → Database → Database
save_route rows db = record db { route_steps = save_all (λ s. s.id) rows db.route_steps }

-- `new Set(numbers).size === numbers.length`.
abbrev pub has_step_no : ℕ → List StepDefinition → Bool
has_step_no n [] = false
has_step_no n (d ∷ ds) = let rest = has_step_no n ds in if d.step_no == n then true else rest

unfoldable pub step_numbers_differ : List StepDefinition → Bool
step_numbers_differ [] = true
step_numbers_differ (d ∷ ds) =
    let rest = step_numbers_differ ds in if has_step_no d.step_no ds then false else rest

abbrev pub is_of_order : ℕ → RouteStep → Bool
is_of_order order_id s = s.order_id == order_id

unfoldable pub replace_with :
    (ℕ → ℕ) → ℕ → List StepDefinition → Database → Option Order → Transaction (List RouteStep)
unfolding route_rows
replace_with new_id order_id steps db none = thrown not_found
replace_with new_id order_id steps db (some order) =
    let rows = route_rows new_id order_id 0 steps in
    returned
      (save_route rows
        (record db { route_steps = delete (λ s. s.id) (is_of_order order_id) db.route_steps }))
      rows

unfoldable pub replace_route :
    (ℕ → ℕ) → ℕ → List StepDefinition → Database → Transaction (List RouteStep)
unfolding step_numbers_differ replace_with
replace_route new_id order_id [] db = thrown bad_request
replace_route new_id order_id (d ∷ ds) db =
    if step_numbers_differ (d ∷ ds)
    then replace_with new_id order_id (d ∷ ds) db (find_order db order_id)
    else thrown bad_request

-- A station of the profile with its routing.
pub record RoutedStation : Type 0 where
  pub resource_id : ℕ
  pub routing : StationRouting

abbrev pub is_enabled : Option Bool → Bool
is_enabled (some false) = false
is_enabled _ = true

abbrev pub routed : ℕ → Bool → Option StationRouting → List RoutedStation
routed resource_id enabled none = []
routed resource_id enabled (some routing) =
    if enabled && is_enabled routing.enabled
    then record { resource_id = resource_id; routing = routing } ∷ []
    else []

abbrev pub routed_stations : List Station → List RoutedStation
routed_stations [] = []
routed_stations (s ∷ ss) = routed s.resource_id s.enabled s.routing ++ routed_stations ss

-- The stations that take part in the default route, in its order.
unfoldable pub profile_route : Profile → List RoutedStation
profile_route profile = sort_by (λ s. s.routing.sequence) (routed_stations profile.stations)

-- The steps are numbered from 1.
unfoldable pub station_steps : List Parameter → ℕ → List RoutedStation → List StepDefinition
station_steps parameters k [] = []
station_steps parameters k (s ∷ ss) =
    record {
      step_no = suc k;
      resource_id = s.resource_id;
      operation_no = s.routing.operation_no;
      operation = s.routing.operation;
      parameters = parameters;
    }
    ∷ station_steps parameters (suc k) ss

unfoldable pub product_steps : List Parameter → ℕ → List ProductRouteStep → List StepDefinition
product_steps parameters k [] = []
product_steps parameters k (s ∷ ss) =
    record {
      step_no = suc k;
      resource_id = s.resource_id;
      operation_no = s.operation_no;
      operation = s.operation;
      parameters = merge s.parameters parameters;
    }
    ∷ product_steps parameters (suc k) ss

unfoldable pub get_product_route : Database → ℕ → List ProductRouteStep
get_product_route db product_id =
    sort_by (λ s. s.step_no) (select (λ s. s.product_id == product_id) db.product_route_steps)

-- `ExternalProductionOrderPayload`; an empty text counts as none, and `name` is the order's name,
-- the payload's or the one made of the instant.
pub record ExternalOrder : Type 0 where
  pub name : String
  pub product_id : Option ℕ
  pub part_no : Option String
  pub parameters : List Parameter

unfoldable pub find_external_product : Database → Option ℕ → Option String → Option Product
find_external_product db (some product_id) part_no =
    find (λ p. (p.id == product_id) && p.is_active) db.products
find_external_product db none none = none
find_external_product db none (some part_no) =
    find (λ p. str_eq p.part_no part_no && p.is_active) db.products

abbrev pub or_default : List StepDefinition → List StepDefinition → List StepDefinition
or_default [] other = other
or_default (d ∷ ds) other = d ∷ ds

unfoldable pub route_of_product : Database → List Parameter → Option Product → List StepDefinition
unfolding get_product_route product_steps
route_of_product db parameters none = []
route_of_product db parameters (some p) = product_steps parameters 0 (get_product_route db p.id)

-- The route of the product, or the profile's when the product has none.
unfoldable pub route_definition :
    Profile → Database → List Parameter → Option Product → List StepDefinition
unfolding station_steps profile_route route_of_product
route_definition profile db parameters product =
    or_default (route_of_product db parameters product)
      (station_steps parameters 0 (profile_route profile))

abbrev pub product_id_of : Option Product → Option ℕ
product_id_of none = none
product_id_of (some p) = some p.id

abbrev pub operation_of : Option Product → StepDefinition → String
operation_of none first = first.operation
operation_of (some p) first = if str_eq p.name "" then first.operation else p.name

unfoldable pub external_order :
    ℕ → ExternalOrder → Option Product → StepDefinition → Machine → Order
external_order id payload product first machine = record {
  id = id;
  name = payload.name;
  priority = 1;
  machine_id = machine.id;
  product_id = product_id_of product;
  operation = operation_of product first;
  status = pending;
  quantity = 1;
  completed_quantity = 0;
  start_time = none;
  end_time = none;
  target_complete_time = none;
  error_message = none;
}

unfoldable pub assign_carrier : ℕ → ℕ → Carrier → Carrier
assign_carrier order_id step_no c = record c {
  order_id = some order_id;
  current_step_no = some step_no;
  current_resource_id = none;
  status = assigned;
}

-- The carriers that are free, by their number.
unfoldable pub free_carriers : Database → List Carrier
unfolding is_carrier_physically_available
free_carriers db =
    select is_carrier_physically_available
      (sort_by (λ c. c.carrier_number) (select (λ c. is_available c.status) db.carriers))
