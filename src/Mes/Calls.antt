-- ===== src/Mes/Calls.antt =====
-- The calls of the backend's services in any order, and what they all keep.
use mes_copy.Base.{ℕ, Option, List}
use mes_copy.Mes.{Database, Profile}
use mes_copy.Mes.Stations.{committed, resolve_station_request}
use mes_copy.Mes.Completion.{complete_station_step, fail_station_step}
use mes_copy.Mes.Recovery.{
  StationDescriptor, Snapshot, recover_database, release_carriers_without_active_order,
}
use mes_copy.Mes.Routes.{StepDefinition, replace_route, ExternalOrder}
use mes_copy.Mes.Orders.{create_external_production_order, NewOrder, create_order}
use mes_copy.Mes.Changes.{
  OrderChange, update_order, remove_order, update_progress, create_carrier, assign, CarrierChange,
  update_carrier, remove_carrier,
}
use mes_copy.Mes.Sound.{IsSound}
use mes_copy.Mes.Sound.Stations.{resolve-IsSound}
use mes_copy.Mes.Sound.Completion.{complete-IsSound, fail-IsSound}
use mes_copy.Mes.Sound.Orders.{replace_route-IsSound, create_external-IsSound, create_order-IsSound}
use mes_copy.Mes.Sound.Changes.{update_order-IsSound, remove_order-IsSound, update_progress-IsSound}
use mes_copy.Mes.Sound.Recovery.{
  create_carrier-IsSound, assign-IsSound, update_carrier-IsSound, remove_carrier-IsSound,
  release_without_active_order-IsSound, recover_database-IsSound,
}

pub data Call (db : Database) : Database → Type 0 where
  resolves :
      (profile : Profile) (now id r number : ℕ)
      → Call db (committed db (resolve_station_request profile now id r number db))
  completes : (now id r number : ℕ) → Call db (complete_station_step now id r number db).database
  fails : (now r number : ℕ) → Call db (fail_station_step now r number db).database
  replaces_route :
      (new_id : ℕ → ℕ) (order_id : ℕ) (steps : List StepDefinition)
      → Call db (committed db (replace_route new_id order_id steps db))
  creates_external :
      (profile : Profile) (new_id : ℕ → ℕ) (payload : ExternalOrder)
      → Call db (committed db (create_external_production_order profile new_id payload db))
  creates_order :
      (profile : Profile) (new_id : ℕ → ℕ) (dto : NewOrder)
      → Call db (committed db (create_order profile new_id dto db))
  updates_order :
      (now id : ℕ) (dto : OrderChange) → Call db (committed db (update_order now id dto db))
  removes_order : (id : ℕ) → Call db (remove_order id db).database
  updates_progress :
      (now id completed_qty : ℕ) → Call db (committed db (update_progress now id completed_qty db))
  creates_carrier : (id number : ℕ) → Call db (committed db (create_carrier id number db))
  assigns : (id order_id step_no : ℕ) → Call db (committed db (assign id order_id step_no db))
  updates_carrier :
      (id : ℕ) (dto : CarrierChange) → Call db (committed db (update_carrier id dto db))
  removes_carrier : (id : ℕ) → Call db (committed db (remove_carrier id db))
  releases : Call db (release_carriers_without_active_order db)
  recovers :
      (read : ℕ → Option Snapshot) (stations : List StationDescriptor)
      → Call db (recover_database read stations db)

pub data Calls (db : Database) : Database → Type 0 where
  no_call : Calls db db
  then_call : {new newer : Database} → Calls db new → Call new newer → Calls db newer

Call-IsSound : (db new : Database) → Call db new → IsSound db → IsSound new
Call-IsSound db new (Call.resolves profile now id r number) sound =
    resolve-IsSound profile now id r db sound number
Call-IsSound db new (Call.completes now id r number) sound =
    complete-IsSound now id r number db sound
Call-IsSound db new (Call.fails now r number) sound = fail-IsSound now r db sound number
Call-IsSound db new (Call.replaces_route new_id order_id steps) sound =
    replace_route-IsSound db sound new_id order_id steps
Call-IsSound db new (Call.creates_external profile new_id payload) sound =
    create_external-IsSound db sound profile new_id payload
Call-IsSound db new (Call.creates_order profile new_id dto) sound =
    create_order-IsSound db sound profile new_id dto
Call-IsSound db new (Call.updates_order now id dto) sound = update_order-IsSound db sound now id dto
Call-IsSound db new (Call.removes_order id) sound = remove_order-IsSound db sound id
Call-IsSound db new (Call.updates_progress now id completed_qty) sound =
    update_progress-IsSound db sound now id completed_qty
Call-IsSound db new (Call.creates_carrier id number) sound =
    create_carrier-IsSound db sound id number
Call-IsSound db new (Call.assigns id order_id step_no) sound =
    assign-IsSound db sound id order_id step_no
Call-IsSound db new (Call.updates_carrier id dto) sound = update_carrier-IsSound db sound id dto
Call-IsSound db new (Call.removes_carrier id) sound = remove_carrier-IsSound db sound id
Call-IsSound db new Call.releases sound = release_without_active_order-IsSound db sound
Call-IsSound db new (Call.recovers read stations) sound =
    recover_database-IsSound read stations db sound

-- Whatever the calls, their arguments and their order, no order has more completed than its
-- quantity, and the carriers, the orders and the execution steps have their ids to themselves, if
-- that was so at first.
pub Calls-IsSound : (db new : Database) → Calls db new → IsSound db → IsSound new
Calls-IsSound db new Calls.no_call sound = sound
Calls-IsSound db new (Calls.then_call {new = middle} before call) sound =
    Call-IsSound middle new call (Calls-IsSound db middle before sound)
