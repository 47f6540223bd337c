-- ===== src/Mes/Changes.antt =====
-- What is changed of an order and of a carrier by hand (src/orders/orders.service.ts, `update`,
-- `remove` and `updateProgress`; src/carriers/carriers.service.ts).
use mes_copy.Base.{
  ℕ, String, Bool, true, false, ◌&&◌, Option, none, some, find, count, is_some, if◌then◌else◌, ◌==◌,
  leb, ltb,
}
use mes_copy.Mes.{
  Carrier, CarrierStatus, available, unknown, Order, OrderStatus, done, cancelled, Database,
  is_carrier_physically_available,
}
use mes_copy.Mes.Tables.{delete, is_at}
use mes_copy.Mes.Execution.{or_else}
use mes_copy.Mes.Stations.{
  Transaction, Exception, thrown, returned, bad_request, not_found, save_carrier, save_order,
  find_order, is_done, has_carrier_number,
}
use mes_copy.Mes.Recovery.{is_available}
use mes_copy.Mes.Completion.{release_carriers, min}
use mes_copy.Mes.Routes.{is_of_order, assign_carrier}

-- `UpdateOrderDto`; `none` is a field that is not there.
pub record OrderChange : Type 0 where
  pub name : Option String
  pub priority : Option ℕ
  pub machine_id : Option ℕ
  pub product_id : Option ℕ
  pub operation : Option String
  pub quantity : Option ℕ
  pub status : Option OrderStatus
  pub completed_quantity : Option ℕ
  pub error_message : Option String
  pub start_time : Option ℕ
  pub target_complete_time : Option ℕ

-- A field as `Object.assign` leaves it.
abbrev pub changed : {A : Type 0} → Option A → A → A
changed none a = a
changed (some b) a = b

abbrev pub changed_option : {A : Type 0} → Option A → Option A → Option A
changed_option none a = a
changed_option (some b) a = some b

abbrev pub ends : Option OrderStatus → Bool
ends (some done) = true
ends (some cancelled) = true
ends _ = false

unfoldable pub changed_order : ℕ → OrderChange → Order → Order
changed_order now dto o = record {
  id = o.id;
  name = changed dto.name o.name;
  priority = changed dto.priority o.priority;
  machine_id = changed dto.machine_id o.machine_id;
  product_id = changed_option dto.product_id o.product_id;
  operation = changed dto.operation o.operation;
  status = changed dto.status o.status;
  quantity = changed dto.quantity o.quantity;
  completed_quantity = changed dto.completed_quantity o.completed_quantity;
  start_time = changed_option dto.start_time o.start_time;
  end_time = if ends dto.status then some now else o.end_time;
  target_complete_time = changed_option dto.target_complete_time o.target_complete_time;
  error_message = changed_option dto.error_message o.error_message;
}

-- `quantity !== undefined && quantity < …`, and the like for the completed quantity.
abbrev pub is_below : Option ℕ → ℕ → Bool
is_below none n = false
is_below (some m) n = ltb m n

abbrev pub is_above : Option ℕ → ℕ → Bool
is_above none n = false
is_above (some m) n = ltb n m

-- What a call on an order returns: the order whose production log is to be written, if any.
abbrev pub to_finalize : Order → Option ℕ
to_finalize o = if is_done o.status then some o.id else none

unfoldable pub update_found : ℕ → OrderChange → Database → Option Order → Transaction (Option ℕ)
unfolding changed_order
update_found now dto db none = thrown not_found
update_found now dto db (some o) =
    if is_below dto.quantity (or_else dto.completed_quantity o.completed_quantity)
    then thrown bad_request
    else if is_above dto.completed_quantity (or_else dto.quantity o.quantity)
    then thrown bad_request
    else (let changed = changed_order now dto o in
        returned (save_order changed db) (to_finalize changed))

unfoldable pub update_order : ℕ → ℕ → OrderChange → Database → Transaction (Option ℕ)
unfolding update_found
update_order now id dto db = update_found now dto db (find_order db id)

-- How `remove` ends: it is no transaction, so what it has deleted before it throws is gone.
pub record Removal : Type 0 where
  pub database : Database
  pub exception : Option Exception

-- `remove`; that there is no such order shows after its route is deleted.
unfoldable pub remove_order : ℕ → Database → Removal
remove_order id db =
    if ltb 0 (count (λ c. is_at id c.order_id) db.carriers)
    then record { database = db; exception = some bad_request }
    else record {
      database = record db {
        route_steps = delete (λ s. s.id) (is_of_order id) db.route_steps;
        orders = delete (λ o. o.id) (λ o. o.id == id) db.orders;
      };
      exception = if is_some (find_order db id) then none else some not_found;
    }

unfoldable pub progressed : ℕ → ℕ → Order → Order
progressed now completed_qty o =
    let counted : Order = record o { completed_quantity = min completed_qty o.quantity } in
    if leb counted.quantity counted.completed_quantity
    then record counted { status = done; end_time = some now }
    else counted

unfoldable pub progress_found : ℕ → ℕ → Database → Option Order → Transaction (Option ℕ)
unfolding progressed release_carriers
progress_found now completed_qty db none = thrown not_found
progress_found now completed_qty db (some o) =
    let new = progressed now completed_qty o in
    returned
      (save_order new
        (if leb new.quantity new.completed_quantity then release_carriers o.id db else db))
      (to_finalize new)

-- `updateProgress`.
unfoldable pub update_progress : ℕ → ℕ → ℕ → Database → Transaction (Option ℕ)
unfolding progress_found
update_progress now id completed_qty db = progress_found now completed_qty db (find_order db id)

-- The carriers service: `create`, `assign`, `update` and `remove`.
unfoldable pub new_carrier : ℕ → ℕ → Carrier
new_carrier id carrier_number = record {
  id = id;
  carrier_number = carrier_number;
  order_id = none;
  current_step_no = none;
  current_resource_id = none;
  status = available;
  inventory_managed = false;
  physical_state = unknown;
  rfid_uid = none;
  storage_slot = none;
  rfid_read_valid = none;
  last_reader_id = none;
  last_seen_at = none;
  inventory_source = none;
  inventory_revision = none;
  inventory_stale = false;
}

unfoldable pub create_carrier : ℕ → ℕ → Database → Transaction ℕ
unfolding new_carrier
create_carrier id carrier_number db =
    if is_some (find (has_carrier_number carrier_number) db.carriers)
    then thrown bad_request
    else returned (save_carrier (new_carrier id carrier_number) db) id

abbrev pub find_carrier : Database → ℕ → Option Carrier
find_carrier db id = find (λ c. c.id == id) db.carriers

unfoldable pub assign_found : ℕ → ℕ → Database → Option Carrier → Transaction ℕ
unfolding is_carrier_physically_available assign_carrier
assign_found order_id step_no db none = thrown not_found
assign_found order_id step_no db (some c) =
    if is_available c.status && is_carrier_physically_available c
    then returned (save_carrier (assign_carrier order_id step_no c) db) c.id
    else thrown bad_request

unfoldable pub assign : ℕ → ℕ → ℕ → Database → Transaction ℕ
unfolding assign_found
assign id order_id step_no db = assign_found order_id step_no db (find_carrier db id)

-- `UpdateCarrierDto`; a `null` for a field that takes one is `some none`.
pub record CarrierChange : Type 0 where
  pub status : Option CarrierStatus
  pub order_id : Option (Option ℕ)
  pub current_step_no : Option ℕ
  pub current_resource_id : Option (Option ℕ)

unfoldable pub changed_carrier : CarrierChange → Carrier → Carrier
changed_carrier dto c = record c {
  status = changed dto.status c.status;
  order_id = changed dto.order_id c.order_id;
  current_step_no = changed_option dto.current_step_no c.current_step_no;
  current_resource_id = changed dto.current_resource_id c.current_resource_id;
}

unfoldable pub update_carrier_found : CarrierChange → Database → Option Carrier → Transaction ℕ
unfolding changed_carrier
update_carrier_found dto db none = thrown not_found
update_carrier_found dto db (some c) = returned (save_carrier (changed_carrier dto c) db) c.id

unfoldable pub update_carrier : ℕ → CarrierChange → Database → Transaction ℕ
unfolding update_carrier_found
update_carrier id dto db = update_carrier_found dto db (find_carrier db id)

unfoldable pub remove_carrier_found : Database → Option Carrier → Transaction ℕ
remove_carrier_found db none = thrown not_found
remove_carrier_found db (some c) =
    if is_some c.order_id
    then thrown bad_request
    else returned (record db { carriers = delete (λ r. r.id) (λ r. r.id == c.id) db.carriers }) c.id

unfoldable pub remove_carrier : ℕ → Database → Transaction ℕ
unfolding remove_carrier_found
remove_carrier id db = remove_carrier_found db (find_carrier db id)
