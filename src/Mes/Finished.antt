-- ===== src/Mes/Finished.antt =====
-- A step of a carrier that is completed stays completed (src/execution-steps/execution-steps.service.ts).
use mes_copy.Base.{
  ℕ, ◌≡◌, ◌≢◌, refl, sym, ap, Bool, true, false, Option, none, some, List, arith, ◌==◌, find,
  find_sound, inl, inr, Bool-cases, ==_iff,
}
use mathlib.Core.Path.{◌∙◌}
use mes_copy.Mes.{
  ExecutionStep, ExecutionStepState, waiting, ready, running, paused, finished, failed, StepResult,
}
use mes_copy.Mes.Tables.{IsUnique}
use mes_copy.Mes.Rows.{row, row-save, row-save_other, row-of_Mem}
use mes_copy.Mes.Execution.{
  StartExecutionStep, is_step_of, is_running_step_of, is_finished, is_running, created_step,
  started_step, start_with, start, completed_step, step_or_created, complete, failed_step,
  fail_with, fail, save_step,
}

abbrev pub step_row : ℕ → List ExecutionStep → Option ExecutionStep
step_row n steps = row (λ s. s.id) n steps

running-open : (state : ExecutionStepState) → is_running state ≡ true → is_finished state ≡ false
running-open waiting h = refl
running-open ready h = refl
running-open running h = refl
running-open paused h = refl
running-open finished h = cc
running-open failed h = refl

module _ (steps : List ExecutionStep) (unique : IsUnique (λ s. s.id) steps) (n : ℕ)
    (s : ExecutionStep) (found : step_row n steps ≡ some s)
    (over_now : is_finished s.state ≡ true) where
  -- A row that is found and not completed has another id.
  other-id :
      (test : ExecutionStep → Bool) (t : ExecutionStep)
      → find test steps ≡ some t
      → is_finished t.state ≡ false
      → n ≢ t.id
  other-id test t hit going same =
      let (mem, _) = find_sound test steps hit in
      let there : step_row t.id steps ≡ some t = row-of_Mem (λ x. x.id) t steps unique mem in
      let equal : some s ≡ some t = sym found ∙ (ap (λ m. step_row m steps) same ∙ there) in
      let step : s ≡ t = ground arith in
      let over : is_finished t.state ≡ true = rw (← step) over_now in cc

  module _ (id : ℕ) (fresh : step_row id steps ≡ none) where
    fresh-id : n ≢ id
    fresh-id same =
        let equal : some s ≡ none = sym found ∙ (ap (λ m. step_row m steps) same ∙ fresh) in cc

    start_with-finished :
        (input : StartExecutionStep) (test : ExecutionStep → Bool) (existing : Option ExecutionStep)
        → find test steps ≡ existing
        → step_row n (start_with id input existing steps) ≡ some s
    unfolding start_with started_step created_step
    start_with-finished input test none hit =
        row-save_other (λ x. x.id) (started_step input (created_step id input none)) n steps
          fresh-id
        ∙ found
    start_with-finished input test (some t) hit = elim (Bool-cases (is_finished t.state)) [
      | inl over ↦ rw over found
      | inr going ↦ rw going (
          row-save_other (λ x. x.id) (started_step input t) n steps (other-id test t hit going)
          ∙ found)
    ]

    completed_row :
        (input : StartExecutionStep) (now : ℕ) (result : StepResult) (t : ExecutionStep)
        → (after : ExecutionStep) × (step_row n
              (save_step (completed_step input now result t) steps)
            ≡ some after)
          × (is_finished after.state ≡ true)
    unfolding completed_step
    completed_row input now result t = elim (Bool-cases (n == t.id)) [
      | inl same ↦
          let equal : n ≡ t.id = ground (arith, ==_iff n t.id) in
          (
            completed_step input now result t,
            rw equal (row-save (λ x. x.id) (completed_step input now result t) steps),
            refl,
          )
      | inr other ↦
          let apart : n ≢ t.id = ground (arith, ==_iff n t.id) in
          (
            s,
            row-save_other (λ x. x.id) (completed_step input now result t) n steps apart ∙ found,
            over_now,
          )
    ]

  fail_with-finished :
      (now : ℕ) (result : StepResult) (order_id carrier_id step_no : ℕ)
      (going : Option ExecutionStep)
      → find (is_running_step_of order_id carrier_id step_no) steps ≡ going
      → step_row n (fail_with now result going steps) ≡ some s
  unfolding fail_with failed_step
  fail_with-finished now result order_id carrier_id step_no none hit = found
  fail_with-finished now result order_id carrier_id step_no (some t) hit =
      let test = is_running_step_of order_id carrier_id step_no in
      let (_, holds) = find_sound test steps hit in
      let open_step : is_finished t.state ≡ false = running-open t.state (ground (arith, holds)) in
      row-save_other (λ x. x.id) (failed_step now result t) n steps (other-id test t hit open_step)
      ∙ found

-- A completed execution step is not started or failed again: the row of its id stays as it is, and
-- a completion leaves it completed. The steps have their ids to themselves, and the uuid of a row
-- that may be added is new.
pub finished-stays :
    (steps : List ExecutionStep) (n id : ℕ) (s : ExecutionStep) (input : StartExecutionStep)
    (order_id carrier_id step_no now : ℕ) (result : StepResult)
    → IsUnique (λ x. x.id) steps
    → step_row id steps ≡ none
    → step_row n steps ≡ some s
    → is_finished s.state ≡ true
    → (step_row n (start id input steps) ≡ some s)
      × (step_row n (fail order_id carrier_id step_no now result steps) ≡ some s)
      × ((after : ExecutionStep) × (step_row n (complete id input now result steps) ≡ some after)
          × (is_finished after.state ≡ true))
unfolding start fail complete
finished-stays steps n id s input order_id carrier_id step_no now result unique fresh found
      over_now =
    let test = is_step_of input.order_id input.carrier_id input.step_no in
    (
      start_with-finished steps unique n s found over_now id fresh input test (find test steps)
          refl,
      fail_with-finished steps unique n s found over_now now result order_id carrier_id step_no
          (find (is_running_step_of order_id carrier_id step_no) steps) refl,
      completed_row steps unique n s found over_now id fresh input now result
          (step_or_created id input (find test steps)),
    )
