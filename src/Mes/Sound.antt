-- ===== src/Mes/Sound.antt =====
-- What every call keeps of the database: an order has not more completed than it has, and the
-- primary keys are keys.
pub mod Stations
pub mod Orders
pub mod Completion
pub mod Changes
pub mod Recovery
use mes_copy.Base.{
  ℕ, ◌+◌, ◌≤◌, ◌≡◌, refl, Bool, true, false, Option, none, some, List, [], ◌∷◌, arith, ◌==◌, leb,
  ltb, if◌then◌else◌, find, All, inl, inr, Bool-cases,
}
use mes_copy.Mes.{Carrier, Order, ExecutionStep, StepResult, Database}
use mes_copy.Mes.Tables.{save, save_all, IsUnique, All-save, All-find, All-select}
use mes_copy.Mes.Rows.{IsUnique-save, IsUnique-save_all, IsUnique-select}
use mes_copy.Mes.Execution.{
  StartExecutionStep, start, start_with, started_step, created_step, complete, fail, fail_with,
  failed_step, is_step_of, is_running_step_of, is_finished,
}
use mes_copy.Mes.Stations.{save_carrier, save_order, find_order}
use mes_copy.Mes.Completion.{release_carriers}

abbrev pub IsCounted : Order → Type 0
IsCounted o = o.completed_quantity ≤ o.quantity

pub record IsSound (db : Database) : Type 0 where
  pub counted : All IsCounted db.orders
  pub carriers : IsUnique (λ c. c.id) db.carriers
  pub orders : IsUnique (λ o. o.id) db.orders
  pub steps : IsUnique (λ s. s.id) db.execution_steps

module _ (db : Database) (sound : IsSound db) where
  pub save_carrier-IsSound : (c : Carrier) → IsSound (save_carrier c db)
  save_carrier-IsSound c = record {
    counted = sound.counted;
    carriers = IsUnique-save (λ x. x.id) c db.carriers sound.carriers;
    orders = sound.orders;
    steps = sound.steps;
  }

  pub save_order-IsSound : (o : Order) → IsCounted o → IsSound (save_order o db)
  save_order-IsSound o counted = record {
    counted = All-save IsCounted (λ x. x.id) o db.orders counted sound.counted;
    carriers = sound.carriers;
    orders = IsUnique-save (λ x. x.id) o db.orders sound.orders;
    steps = sound.steps;
  }

  pub save_carriers-IsSound :
      (cs : List Carrier) → IsSound (record db { carriers = save_all (λ c. c.id) cs db.carriers })
  save_carriers-IsSound cs = record {
    counted = sound.counted;
    carriers = IsUnique-save_all (λ x. x.id) cs db.carriers sound.carriers;
    orders = sound.orders;
    steps = sound.steps;
  }

  pub steps-IsSound :
      (steps : List ExecutionStep)
      → IsUnique (λ s. s.id) steps
      → IsSound (record db { execution_steps = steps })
  steps-IsSound steps h = record {
    counted = sound.counted;
    carriers = sound.carriers;
    orders = sound.orders;
    steps = h;
  }

  pub find_order-IsCounted : (id : ℕ) (o : Order) → find_order db id ≡ some o → IsCounted o
  find_order-IsCounted id o found =
      All-find IsCounted (λ x. x.id == id) db.orders sound.counted found

module _ (id : ℕ) (input : StartExecutionStep) (steps : List ExecutionStep) where
  start_with-IsUnique :
      (existing : Option ExecutionStep)
      → IsUnique (λ s. s.id) steps
      → IsUnique (λ s. s.id) (start_with id input existing steps)
  unfolding start_with
  start_with-IsUnique none h =
      IsUnique-save (λ s. s.id) (started_step input (created_step id input none)) steps h
  start_with-IsUnique (some existing) h = elim (Bool-cases (is_finished existing.state)) [
    | inl over ↦ rw over h
    | inr more ↦ rw more (IsUnique-save (λ s. s.id) (started_step input existing) steps h)
  ]

  pub start-IsUnique : IsUnique (λ s. s.id) steps → IsUnique (λ s. s.id) (start id input steps)
  unfolding start
  start-IsUnique h =
      start_with-IsUnique (find (is_step_of input.order_id input.carrier_id input.step_no) steps) h

  pub complete-IsUnique :
      (now : ℕ) (result : StepResult)
      → IsUnique (λ s. s.id) steps
      → IsUnique (λ s. s.id) (complete id input now result steps)
  unfolding complete
  complete-IsUnique now result h = IsUnique-save (λ s. s.id) _ steps h

module _ (now : ℕ) (result : StepResult) (steps : List ExecutionStep) where
  fail_with-IsUnique :
      (existing : Option ExecutionStep)
      → IsUnique (λ s. s.id) steps
      → IsUnique (λ s. s.id) (fail_with now result existing steps)
  unfolding fail_with
  fail_with-IsUnique none h = h
  fail_with-IsUnique (some step) h = IsUnique-save (λ s. s.id) (failed_step now result step) steps h

  pub fail-IsUnique :
      (order_id carrier_id step_no : ℕ)
      → IsUnique (λ s. s.id) steps
      → IsUnique (λ s. s.id) (fail order_id carrier_id step_no now result steps)
  unfolding fail
  fail-IsUnique order_id carrier_id step_no h =
      fail_with-IsUnique (find (is_running_step_of order_id carrier_id step_no) steps) h
