-- ===== src/Mes/Recovery.antt =====
-- What the MES does when it starts and when the machine is lost and found
-- (src/opcua/connection-recovery.service.ts). What the machine adapter answers is an argument:
-- `read resource_id` is the snapshot of a station, `none` if it cannot be read.
use mes_copy.Base.{
  ℕ, Bool, true, false, not, ◌&&◌, ◌||◌, Option, none, some, List, [], ◌∷◌, ◌++◌, find, select,
  is_some, if◌then◌else◌, ◌==◌, leb, ltb,
}
use mes_copy.Mes.{
  Carrier, CarrierStatus, available, assigned, in_process, completed, Order, OrderStatus,
  in_progress, RouteStep, Database, release,
}
use mes_copy.Mes.Tables.{is_at}
use mes_copy.Mes.Execution.{or_else}
use mes_copy.Mes.Stations.{save_carrier, get_route}

abbrev pub is_available : CarrierStatus → Bool
is_available available = true
is_available _ = false

-- `where: [{ status: IN_PROCESS }, { status: ASSIGNED }, { status: COMPLETED }]`.
abbrev pub is_in_use : CarrierStatus → Bool
is_in_use in_process = true
is_in_use assigned = true
is_in_use completed = true
is_in_use _ = false

-- `where: [{ status: IN_PROCESS }, { status: ASSIGNED }]`.
abbrev pub is_stuck : CarrierStatus → Bool
is_stuck in_process = true
is_stuck assigned = true
is_stuck _ = false

abbrev pub is_in_progress : OrderStatus → Bool
is_in_progress in_progress = true
is_in_progress _ = false

abbrev pub is_active : ℕ → Order → Bool
is_active order_id o = (o.id == order_id) && is_in_progress o.status

-- `findOne({ where: { id, status: 'in_progress' } })`.
abbrev pub find_active_order : Database → Option ℕ → Option Order
find_active_order db none = none
find_active_order db (some order_id) = find (is_active order_id) db.orders

abbrev pub is_unassigned : Carrier → Bool
is_unassigned c =
    not (is_some c.order_id)
    && not (is_some c.current_step_no)
    && not (is_some c.current_resource_id)

abbrev pub clear : Carrier → Carrier
clear c = record c { order_id = none; current_step_no = none; current_resource_id = none }

unfoldable pub clear_available : List Carrier → Database → Database
clear_available [] db = db
clear_available (c ∷ cs) db =
    clear_available cs (if is_unassigned c then db else save_carrier (clear c) db)

unfoldable pub release_inactive : List Carrier → Database → Database
unfolding release
release_inactive [] db = db
release_inactive (c ∷ cs) db = release_inactive cs (
    if is_some c.order_id && not (is_some (find_active_order db c.order_id))
    then save_carrier (release c) db
    else db)

-- `releaseCarriersWithoutActiveOrder`.
unfoldable pub release_carriers_without_active_order : Database → Database
unfolding clear_available release_inactive
release_carriers_without_active_order db =
    let db = clear_available (select (λ c. is_available c.status) db.carriers) db in
    release_inactive (select (λ c. is_in_use c.status) db.carriers) db

-- `MachineStationDescriptor`, as far as the recovery reads it, and `MachineRecoverySnapshot`.
pub record StationDescriptor : Type 0 where
  pub resource_id : ℕ
  pub enabled : Bool

pub record Snapshot : Type 0 where
  pub carrier_number : ℕ
  pub request_active : Bool
  pub process_busy : Bool

-- An entry of `stationCarriers`.
pub record StationCarrier : Type 0 where
  pub resource_id : ℕ
  pub carrier_number : ℕ

unfoldable pub station_carrier : ℕ → Option Snapshot → List StationCarrier
station_carrier resource_id none = []
station_carrier resource_id (some s) =
    if ltb 0 s.carrier_number && (s.request_active || s.process_busy)
    then record { resource_id = resource_id; carrier_number = s.carrier_number } ∷ []
    else []

unfoldable pub station_carriers :
    (ℕ → Option Snapshot) → List StationDescriptor → List StationCarrier
unfolding station_carrier
station_carriers read [] = []
station_carriers read (s ∷ ss) =
    let rest = station_carriers read ss in
    if s.enabled then station_carrier s.resource_id (read s.resource_id) ++ rest else rest

abbrev pub or_find : Option RouteStep → Option RouteStep → Option RouteStep
or_find none other = other
or_find (some s) other = some s

abbrev pub is_current : Carrier → ℕ → RouteStep → Bool
is_current c resource_id s = is_at s.step_no c.current_step_no && (s.resource_id == resource_id)

abbrev pub is_ahead : Carrier → ℕ → RouteStep → Bool
is_ahead c resource_id s =
    leb (or_else c.current_step_no 0) s.step_no && (s.resource_id == resource_id)

abbrev pub route_of : Database → Option ℕ → List RouteStep
route_of db none = []
route_of db (some order_id) = get_route db order_id

-- `stepForStation`.
unfoldable pub step_for_station : Database → Carrier → ℕ → Option RouteStep
unfolding get_route
step_for_station db c resource_id =
    let route = route_of db c.order_id in
    or_find (find (is_current c resource_id) route) (find (is_ahead c resource_id) route)

unfoldable pub correct_step : Carrier → Database → ℕ → Option RouteStep → Database
correct_step c db resource_id none = db
correct_step c db resource_id (some step) =
    if is_at step.step_no c.current_step_no
    then db
    else save_carrier
        (record c {
          current_step_no = some step.step_no;
          current_resource_id = some resource_id;
          status = in_process;
        })
        db

unfoldable pub restart : Carrier → Database → List RouteStep → Database
restart c db [] = db
restart c db (first ∷ _) =
    save_carrier
      (record c {
        status = assigned;
        current_step_no = some first.step_no;
        current_resource_id = none;
      })
      db

unfoldable pub recover_absent : Carrier → Database → Option Order → Database
unfolding restart get_route release
recover_absent c db none = save_carrier (release c) db
recover_absent c db (some order) = restart c db (get_route db order.id)

unfoldable pub recover_carrier : Carrier → Database → Option StationCarrier → Database
unfolding recover_absent correct_step step_for_station
recover_carrier c db none = recover_absent c db (find_active_order db c.order_id)
recover_carrier c db (some found) =
    correct_step c db found.resource_id (step_for_station db c found.resource_id)

unfoldable pub recover_carriers : List StationCarrier → List Carrier → Database → Database
unfolding recover_carrier
recover_carriers stations [] db = db
recover_carriers stations (c ∷ cs) db =
    recover_carriers stations cs
      (recover_carrier c db (find (λ s. s.carrier_number == c.carrier_number) stations))

-- `recoverStations`, but for the alarm.
unfoldable pub recover_database :
    (ℕ → Option Snapshot) → List StationDescriptor → Database → Database
unfolding recover_carriers station_carriers release_carriers_without_active_order
recover_database read stations db =
    let db = release_carriers_without_active_order db in
    recover_carriers (station_carriers read stations) (select (λ c. is_stuck c.status) db.carriers)
      db
