-- ===== src/Mes/Completion.antt =====
-- How a station's process ends (src/orders/routing.service.ts, `completeStationStep` and
-- `failStationStep`).
use mes_copy.Base.{
  ℕ, ◌+◌, Bool, true, false, Option, none, some, find, select, is_some, map, if◌then◌else◌, leb,
}
use mes_copy.Mes.{
  Carrier, assigned, completed, in_transit, Order, done, RouteStep, Database, release,
}
use mes_copy.Mes.Tables.{save_all, is_at}
use mes_copy.Mes.Execution.{complete, fail, is_running_step_of, or_else}
use mes_copy.Mes.Stations.{
  save_carrier, save_order, has_carrier_number, is_done, find_order, find_route_step, next_step,
  execution_of,
}

-- What the transaction leaves: the database, what it returns, and the order to write the log of.
pub record Completion : Type 0 where
  pub database : Database
  pub completed : Bool
  pub finalized : Option ℕ

abbrev pub unfinished : Database → Completion
unfinished db = record { database = db; completed = false; finalized = none }

abbrev pub min : ℕ → ℕ → ℕ
min a b = if leb a b then a else b

unfoldable pub send_on : ℕ → ℕ → Carrier → Carrier
send_on now step_no c =
    let sent : Carrier = record c {
      current_step_no = some step_no;
      current_resource_id = none;
      status = assigned;
    } in
    if c.inventory_managed
    then record sent {
      physical_state = in_transit;
      last_seen_at = some now;
      inventory_stale = false;
    }
    else sent

unfoldable pub finish_carrier : Carrier → Carrier
finish_carrier c = record c { current_resource_id = none; status = completed }

unfoldable pub count_finished : Order → Order
count_finished o = record o { completed_quantity = min o.quantity (o.completed_quantity + 1) }

unfoldable pub finish_order : ℕ → Order → Order
finish_order now o = record o { status = done; end_time = some now }

-- Every carrier of the order is released.
unfoldable pub release_carriers : ℕ → Database → Database
unfolding release
release_carriers order_id db = record db {
  carriers =
      save_all (λ c. c.id) (map release (select (λ c. is_at order_id c.order_id) db.carriers))
        db.carriers;
}

module _ (now id resource_id : ℕ) where
  -- The order has one more; `counted` is the order with the new number.
  unfoldable pub finish_counted : Carrier → Database → Order → Completion
  unfolding finish_order release_carriers finish_carrier
  finish_counted c db counted =
      if leb counted.quantity counted.completed_quantity
      then record {
        database = save_order (finish_order now counted) (release_carriers counted.id db);
        completed = true;
        finalized = some counted.id;
      }
      else record {
        database = save_order counted (save_carrier (finish_carrier c) db);
        completed = true;
        finalized = none;
      }

  unfoldable pub finish_route : Carrier → Database → Option Order → Completion
  unfolding finish_counted count_finished finish_carrier
  finish_route c db none = record {
    database = save_carrier (finish_carrier c) db;
    completed = true;
    finalized = none;
  }
  finish_route c db (some order) = finish_counted c db (count_finished order)

  unfoldable pub advance : Carrier → Database → Option Order → Option RouteStep → Completion
  unfolding finish_route send_on
  advance c db order none = finish_route c db order
  advance c db order (some next) = record {
    database = save_carrier (send_on now next.step_no c) db;
    completed = true;
    finalized = none;
  }

  abbrev pub start_time_of : Option Order → Option ℕ
  start_time_of none = none
  start_time_of (some order) = order.start_time

  unfoldable pub record_completion : Carrier → ℕ → Option Order → RouteStep → Database → Database
  unfolding complete execution_of
  record_completion c order_id order step db = record db {
    execution_steps =
        complete id (execution_of (or_else (start_time_of order) now) resource_id c order_id step)
          now (record { outcome = "completed"; reason = none }) db.execution_steps;
  }

  unfoldable pub complete_at_step :
      Carrier → ℕ → Database → Option Order → Option RouteStep → Completion
  unfolding advance record_completion next_step
  complete_at_step c order_id db order none = unfinished db
  complete_at_step c order_id db order (some step) =
      advance c (record_completion c order_id order step db) order (next_step db step order_id)

  abbrev pub is_done_order : Option Order → Bool
  is_done_order none = false
  is_done_order (some order) = is_done order.status

  unfoldable pub complete_in_order : Carrier → ℕ → ℕ → Database → Option Order → Completion
  unfolding complete_at_step release
  complete_in_order c order_id step_no db order =
      if is_done_order order
      then unfinished (save_carrier (release c) db)
      else if is_at resource_id c.current_resource_id
      then complete_at_step c order_id db order (find_route_step db order_id step_no)
      else unfinished db

  unfoldable pub complete_assigned : Carrier → Database → Option ℕ → Option ℕ → Completion
  unfolding complete_in_order
  complete_assigned c db none step_no = unfinished db
  complete_assigned c db (some order_id) none = unfinished db
  complete_assigned c db (some order_id) (some step_no) =
      complete_in_order c order_id step_no db (find_order db order_id)

  unfoldable pub complete_carrier : Database → Option Carrier → Completion
  unfolding complete_assigned
  complete_carrier db none = unfinished db
  complete_carrier db (some c) = complete_assigned c db c.order_id c.current_step_no

  unfoldable pub complete_station_step : ℕ → Database → Completion
  unfolding complete_carrier
  complete_station_step carrier_number db =
      complete_carrier db (find (has_carrier_number carrier_number) db.carriers)

-- `failStationStep`: the database, and whether a running step failed.
pub record Failure : Type 0 where
  pub database : Database
  pub failed : Bool

module _ (now resource_id : ℕ) where
  unfoldable pub fail_assigned : Carrier → Database → Option ℕ → Option ℕ → Failure
  unfolding fail
  fail_assigned c db none step_no = record { database = db; failed = false }
  fail_assigned c db (some order_id) none = record { database = db; failed = false }
  fail_assigned c db (some order_id) (some step_no) =
      if is_at resource_id c.current_resource_id
      then record {
        database = record db {
          execution_steps =
              fail order_id c.id step_no now
                (record { outcome = "failed"; reason = some "job_dispatch_failed" })
                db.execution_steps;
        };
        failed = is_some (find (is_running_step_of order_id c.id step_no) db.execution_steps);
      }
      else record { database = db; failed = false }

  unfoldable pub fail_carrier : Database → Option Carrier → Failure
  unfolding fail_assigned
  fail_carrier db none = record { database = db; failed = false }
  fail_carrier db (some c) = fail_assigned c db c.order_id c.current_step_no

  unfoldable pub fail_station_step : ℕ → Database → Failure
  unfolding fail_carrier
  fail_station_step carrier_number db =
      fail_carrier db (find (has_carrier_number carrier_number) db.carriers)
