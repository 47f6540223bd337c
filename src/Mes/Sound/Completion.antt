-- ===== src/Mes/Sound/Completion.antt =====
-- The completion and the failure of a step keep the database sound
-- (src/orders/routing.service.ts).
use mes_copy.Base.{ℕ, Option, none, some, arith, leb, find, inl, inr, Bool-cases}
use mes_copy.Mes.{Carrier, Order, RouteStep, Database, release}
use mes_copy.Mes.Sound.{
  IsSound, IsCounted, save_carrier-IsSound, save_order-IsSound, steps-IsSound, complete-IsUnique,
  fail-IsUnique,
}
use mes_copy.Mes.Tables.{is_at}
use mes_copy.Mes.Stations.{save_carrier, has_carrier_number, find_order, find_route_step, next_step}
use mes_copy.Mes.Completion.{
  release_carriers, finish_counted, finish_route, count_finished, finish_order, finish_carrier,
  advance, send_on, record_completion, complete_at_step, complete_in_order, complete_assigned,
  complete_carrier, complete_station_step, is_done_order, fail_assigned, fail_carrier,
  fail_station_step,
}
use mes_copy.Mes.Sound.Stations.{release_carriers-IsSound}

module _ (now id r : ℕ) where
  min-IsCounted : (o : Order) → IsCounted (count_finished o)
  unfolding count_finished
  min-IsCounted o = ground arith

  finish_counted-IsSound :
      (c : Carrier) (db : Database) (o : Order)
      → IsSound db
      → IsCounted o
      → IsSound (finish_counted now id r c db o).database
  unfolding finish_counted finish_order
  finish_counted-IsSound c db o sound counted =
      elim (Bool-cases (leb o.quantity o.completed_quantity)) [
        | inl all ↦ rw all (
            save_order-IsSound (release_carriers o.id db) (release_carriers-IsSound o.id db sound)
              (finish_order now o) counted)
        | inr more ↦ rw more (
            save_order-IsSound (save_carrier (finish_carrier c) db)
              (save_carrier-IsSound db sound (finish_carrier c)) o counted)
      ]

  advance-IsSound :
      (c : Carrier) (db : Database) (order : Option Order) (next : Option RouteStep)
      → IsSound db
      → IsSound (advance now id r c db order next).database
  unfolding advance finish_route
  advance-IsSound c db none none sound = save_carrier-IsSound db sound (finish_carrier c)
  advance-IsSound c db (some o) none sound =
      finish_counted-IsSound c db (count_finished o) sound (min-IsCounted o)
  advance-IsSound c db order (some next) sound =
      save_carrier-IsSound db sound (send_on now next.step_no c)

  module _ (db : Database) (sound : IsSound db) (c : Carrier) where
    complete_at_step-IsSound :
        (order_id : ℕ) (order : Option Order) (step : Option RouteStep)
        → IsSound (complete_at_step now id r c order_id db order step).database
    unfolding complete_at_step record_completion
    complete_at_step-IsSound order_id order none = sound
    complete_at_step-IsSound order_id order (some s) =
        advance-IsSound c (record_completion now id r c order_id order s db) order
          (next_step db s order_id)
          (steps-IsSound db sound _ (complete-IsUnique id _ db.execution_steps now _ sound.steps))

    complete_in_order-IsSound :
        (order_id step_no : ℕ) (order : Option Order)
        → IsSound (complete_in_order now id r c order_id step_no db order).database
    unfolding complete_in_order
    complete_in_order-IsSound order_id step_no order =
        elim (Bool-cases (is_done_order now id r order)) [
          | inl over ↦ rw over (save_carrier-IsSound db sound (release c))
          | inr more ↦ rw more (elim (Bool-cases (is_at r c.current_resource_id)) [
            | inl here ↦
                rw here
                  (complete_at_step-IsSound order_id order (find_route_step db order_id step_no))
            | inr away ↦ rw away sound
          ])
        ]

    complete_assigned-IsSound :
        (order_id step_no : Option ℕ)
        → IsSound (complete_assigned now id r c db order_id step_no).database
    unfolding complete_assigned
    complete_assigned-IsSound none step_no = sound
    complete_assigned-IsSound (some order_id) none = sound
    complete_assigned-IsSound (some order_id) (some step_no) =
        complete_in_order-IsSound order_id step_no (find_order db order_id)

  complete_carrier-IsSound :
      (db : Database) (c : Option Carrier)
      → IsSound db
      → IsSound (complete_carrier now id r db c).database
  unfolding complete_carrier
  complete_carrier-IsSound db none sound = sound
  complete_carrier-IsSound db (some c) sound =
      complete_assigned-IsSound db sound c c.order_id c.current_step_no

  pub complete-IsSound :
      (number : ℕ) (db : Database)
      → IsSound db
      → IsSound (complete_station_step now id r number db).database
  unfolding complete_station_step
  complete-IsSound number db sound =
      complete_carrier-IsSound db (find (has_carrier_number number) db.carriers) sound

module _ (now r : ℕ) (db : Database) (sound : IsSound db) where
  fail_assigned-IsSound :
      (c : Carrier) (order_id step_no : Option ℕ)
      → IsSound (fail_assigned now r c db order_id step_no).database
  unfolding fail_assigned
  fail_assigned-IsSound c none step_no = sound
  fail_assigned-IsSound c (some order_id) none = sound
  fail_assigned-IsSound c (some order_id) (some step_no) =
      elim (Bool-cases (is_at r c.current_resource_id)) [
        | inl here ↦ rw here (
            steps-IsSound db sound _
              (fail-IsUnique now _ db.execution_steps order_id c.id step_no sound.steps))
        | inr away ↦ rw away sound
      ]

  fail_carrier-IsSound : (c : Option Carrier) → IsSound (fail_carrier now r db c).database
  unfolding fail_carrier
  fail_carrier-IsSound none = sound
  fail_carrier-IsSound (some c) = fail_assigned-IsSound c c.order_id c.current_step_no

  pub fail-IsSound : (number : ℕ) → IsSound (fail_station_step now r number db).database
  unfolding fail_station_step
  fail-IsSound number = fail_carrier-IsSound (find (has_carrier_number number) db.carriers)
