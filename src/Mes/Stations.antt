-- ===== src/Mes/Stations.antt =====
-- What a station asks of the routing service (src/orders/routing.service.ts,
-- `resolveStationRequest`, `completeStationStep` and `failStationStep`), each a transaction on the
-- database. `now` is the instant, `id` the uuid of a new row.
use mes_copy.Base.{
  ℕ, suc, String, Bool, true, false, ◌&&◌, Option, none, some, List, [], ◌∷◌, find, select,
  get_elem?, if◌then◌else◌, ◌==◌, str_eq,
}
use mes_copy.Base.Int.{pos, negsuc}
use mes_copy.Mes.{
  Carrier, CarrierStatus, in_process, completed, at_station, Order, OrderStatus, pending,
  in_progress, done, RouteStep, Parameter, Database, Profile, machine, release,
}
use mes_copy.Mes.Tables.{save, sort_by}
use mes_copy.Mes.Execution.{StartExecutionStep, start}

-- `RoutingOutcome`.
pub data RoutingOutcome : Type 0 where
  accepted : RoutingOutcome
  carrier_unknown : RoutingOutcome
  order_missing : RoutingOutcome
  wrong_resource : RoutingOutcome
  already_completed : RoutingOutcome
  internal_error : RoutingOutcome

-- What a request that is accepted returns with its outcome.
pub record Assignment : Type 0 where
  pub order_no : String
  pub part_no : String
  pub operation_no : ℕ
  pub step_no : ℕ
  pub next_resource_id : ℕ
  pub parameters : List Parameter
  pub carrier_id : ℕ
  pub order_id : ℕ

pub record Decision : Type 0 where
  pub outcome : RoutingOutcome
  pub assignment : Option Assignment

-- The exceptions, by their class.
pub data Exception : Type 0 where
  bad_request : Exception
  not_found : Exception
  service_unavailable : Exception

-- How a transaction ends: it throws, and the database is as it was, or it returns a value and the
-- database that it has written.
pub data Transaction (A : Type 0) : Type 0 where
  thrown : Exception → Transaction A
  returned : Database → A → Transaction A

abbrev pub committed : {A : Type 0} → Database → Transaction A → Database
committed db (thrown _) = db
committed db (returned new _) = new

abbrev pub save_carrier : Carrier → Database → Database
save_carrier c db = record db { carriers = save (λ r. r.id) c db.carriers }

abbrev pub save_order : Order → Database → Database
save_order o db = record db { orders = save (λ r. r.id) o db.orders }

abbrev pub has_carrier_number : ℕ → Carrier → Bool
has_carrier_number n c = c.carrier_number == n

abbrev pub is_done : OrderStatus → Bool
is_done done = true
is_done _ = false

abbrev pub is_pending : OrderStatus → Bool
is_pending pending = true
is_pending _ = false

abbrev pub is_completed : CarrierStatus → Bool
is_completed completed = true
is_completed _ = false

abbrev pub find_order : Database → ℕ → Option Order
find_order db order_id = find (λ o. o.id == order_id) db.orders

abbrev pub is_route_step : ℕ → ℕ → RouteStep → Bool
is_route_step order_id step_no s = (s.order_id == order_id) && (s.step_no == step_no)

abbrev pub find_route_step : Database → ℕ → ℕ → Option RouteStep
find_route_step db order_id step_no = find (is_route_step order_id step_no) db.route_steps

-- `getRoute`.
unfoldable pub get_route : Database → ℕ → List RouteStep
get_route db order_id =
    sort_by (λ s. s.step_no) (select (λ s. s.order_id == order_id) db.route_steps)

-- `route[route.findIndex(test) + 1]`, undefined if nothing passes the test.
unfoldable pub find_index : (RouteStep → Bool) → List RouteStep → Option ℕ
find_index test [] = none
find_index test (s ∷ ss) =
    let rest = find_index test ss in
    if test s then some 0 else (elim rest [ none ↦ none | some i ↦ some (suc i) ])

unfoldable pub step_after : List RouteStep → Option ℕ → Option RouteStep
step_after route none = none
step_after route (some i) = get_elem? route (suc i)

unfoldable pub next_step : Database → RouteStep → ℕ → Option RouteStep
unfolding get_route find_index step_after
next_step db step order_id =
    let route = get_route db order_id in step_after route (find_index (λ s. s.id == step.id) route)

-- `terminalResourceId`.
unfoldable pub terminal_resource_id : Profile → Option ℕ
terminal_resource_id profile = elim profile.terminal_resource_id [
  | none ↦ none
  | some (pos n) ↦ some n
  | some (negsuc _) ↦ none
]

unfoldable pub next_resource_id : Profile → Option RouteStep → Option ℕ
unfolding terminal_resource_id
next_resource_id profile none = terminal_resource_id profile
next_resource_id profile (some next) = some next.resource_id

-- `transitionOrderToInProgress`, saved if it changed the order.
unfoldable pub start_order : ℕ → Order → Database → Database
start_order now order db =
    if is_pending order.status
    then save_order (record order { status = in_progress; start_time = some now }) db
    else db

unfoldable pub part_no : Database → Order → String
part_no db order = elim order.product_id [
  | none ↦ order.name
  | some product_id ↦ elim (find (λ p. p.id == product_id) db.products) [
    | none ↦ order.name
    | some product ↦ if str_eq product.part_no "" then order.name else product.part_no
  ]
]

unfoldable pub see_at_station : ℕ → Carrier → Carrier
see_at_station now c =
    if c.inventory_managed
    then record c { physical_state = at_station; last_seen_at = some now; inventory_stale = false }
    else c

unfoldable pub occupy : ℕ → ℕ → Carrier → Carrier
unfolding see_at_station
occupy now resource_id c =
    see_at_station now (record c { current_resource_id = some resource_id; status = in_process })

-- What `start` and `complete` of the execution steps are called with.
unfoldable pub execution_of : ℕ → ℕ → Carrier → ℕ → RouteStep → StartExecutionStep
execution_of started_at resource_id c order_id step = record {
  order_id = order_id;
  carrier_id = c.id;
  carrier_number = c.carrier_number;
  resource_id = resource_id;
  operation_no = step.operation_no;
  operation = step.operation;
  step_no = step.step_no;
  source = machine;
  started_at = started_at;
}

abbrev pub rejected : RoutingOutcome → Decision
rejected outcome = record { outcome = outcome; assignment = none }

module _ (profile : Profile) (now id resource_id : ℕ) where
  unfoldable pub accept_with :
      Carrier → Order → RouteStep → Database → Database → Option ℕ → Transaction Decision
  unfolding part_no
  accept_with c order step db new none = thrown service_unavailable
  accept_with c order step db new (some next) = returned new (record {
    outcome = accepted;
    assignment = some (record {
      order_no = order.name;
      part_no = part_no db order;
      operation_no = step.operation_no;
      step_no = step.step_no;
      next_resource_id = next;
      parameters = step.parameters;
      carrier_id = c.id;
      order_id = order.id;
    });
  })

  unfoldable pub accepted_database : Carrier → Order → RouteStep → Database → Database
  unfolding occupy start_order start execution_of
  accepted_database c order step db =
      let db = start_order now order (save_carrier (occupy now resource_id c) db) in
      record db {
        execution_steps =
            start id (execution_of now resource_id c order.id step) db.execution_steps;
      }

  unfoldable pub accept : Carrier → Order → RouteStep → Database → Transaction Decision
  unfolding accept_with next_resource_id next_step accepted_database
  accept c order step db =
      accept_with c order step db (accepted_database c order step db)
        (next_resource_id profile (next_step db step order.id))

  unfoldable pub resolve_found :
      Carrier → Database → Option Order → Option RouteStep → Transaction Decision
  unfolding accept release
  resolve_found c db none step = returned db (rejected order_missing)
  resolve_found c db (some order) none = returned db (rejected order_missing)
  resolve_found c db (some order) (some step) =
      if is_done order.status
      then returned (save_carrier (release c) db) (rejected already_completed)
      else if step.resource_id == resource_id
      then (if is_completed c.status
          then returned db (rejected already_completed)
          else accept c order step db)
      else returned db (rejected wrong_resource)

  unfoldable pub resolve_assigned : Carrier → Database → Option ℕ → Option ℕ → Transaction Decision
  unfolding resolve_found
  resolve_assigned c db none step_no = returned db (rejected order_missing)
  resolve_assigned c db (some order_id) none = returned db (rejected order_missing)
  resolve_assigned c db (some order_id) (some step_no) =
      resolve_found c db (find_order db order_id) (find_route_step db order_id step_no)

  unfoldable pub resolve_carrier : Database → Option Carrier → Transaction Decision
  unfolding resolve_assigned
  resolve_carrier db none = returned db (rejected carrier_unknown)
  resolve_carrier db (some c) = resolve_assigned c db c.order_id c.current_step_no

  unfoldable pub resolve_station_request : ℕ → Database → Transaction Decision
  unfolding resolve_carrier
  resolve_station_request carrier_number db =
      resolve_carrier db (find (has_carrier_number carrier_number) db.carriers)
