-- ===== src/Handshake/Traces.antt =====
-- The calls of the handshake side by side, in any order: every request is answered, and once
-- (src/opcua/stmes-handshake.service.ts, `onModuleInit`).
use mes_copy.Base.{
  ℕ, ◌+◌, ◌≤◌, ◌≡◌, ◌≢◌, refl, Bool, true, false, some, List, [], ◌∷◌, ◌++◌, arith, ◌==◌, inl, inr,
  Bool-cases, Option-cases, ==_iff, count, modify, get_elem?,
}
use mes_copy.Mes.{Profile}
use mes_copy.Handshake.{Service, Task, Reply, Stage, Outcome, reading, acknowledging, counting, has}
use mes_copy.Handshake.Dispatch.{dispatch}
use mes_copy.Handshake.Calls.{
  advance, begin, move, resume_task, resume, Action, asks, acknowledges, completes, resumes, act,
  run,
}
use mes_copy.Handshake.Answers.{weight, is_owing, is_locking, is_late, is_unreported, is_for}
use mes_copy.Handshake.Steps.{IsStep}
use mes_copy.Handshake.Advance.{advance-IsStep}
use mes_copy.Handshake.Counts.{
  answers, own, owing, locking, locked, late, unreported, taken_up, tally, total,
  is_acknowledgement, count-snoc, is_for-other, has-without, total-snoc, total-move,
}

-- What an action changes of the answers and of what is owed, and what it costs to unlock.
record IsPaid (profile : Profile) (r : ℕ) (a : Action) (st new : Service) : Type 0 where
  answers :
      answers r new + owing r new + unreported profile r a st
      ≡ answers r st + owing r st + taken_up r a st + late r a st
  locks :
      taken_up r a st + locked r st + locking r new
      ≤ locked r new + locking r st + weight (is_acknowledgement r a)

-- A call of `dispatch` is begun.
taken-IsPaid :
    (profile : Profile) (x r : ℕ) (st : Service)
    → has x st.processing ≡ false
    → IsPaid profile r (asks x) st (record st {
      processing = x ∷ st.processing;
      tasks = st.tasks ++ record { resource_id = x; stage = reading } ∷ [];
    })
taken-IsPaid profile x r st free =
    let task : Task = record { resource_id = x; stage = reading } in
    let owed = total-snoc is_owing r st.tasks task in
    let locks = total-snoc is_locking r st.tasks task in
    elim (Bool-cases (x == r)) [
      | inl same ↦
          let equal : x ≡ r = ground (arith, ==_iff x r) in
          let unlocked : has r st.processing ≡ false = rw (← equal) free in
          record {
            answers = ground (arith, owed, same, unlocked);
            locks = ground (arith, locks, same, unlocked);
          }
      | inr other ↦ record {
        answers = ground (arith, owed, other);
        locks = ground (arith, locks, other);
      }
    ]

asks-IsPaid :
    (profile : Profile) (x r : ℕ) (st : Service) → IsPaid profile r (asks x) st (dispatch x st)
unfolding dispatch
asks-IsPaid profile x r st = elim (Bool-cases (has x st.processing)) [
  | inl busy ↦ elim (Bool-cases (x == r)) [
    | inl same ↦
        let equal : x ≡ r = ground (arith, ==_iff x r) in
        let held : has r st.processing ≡ true = rw (← equal) busy in
        simp busy (record { answers = ground (arith, held); locks = ground (arith, held) })
    | inr other ↦
        simp busy (record { answers = ground (arith, other); locks = ground (arith, other) })
  ]
  | inr free ↦ simp free (taken-IsPaid profile x r st free)
]

-- A call that owes no answer is begun.
begin-IsPaid :
    (profile : Profile) (a : Action) (stage : Stage) (x r : ℕ) (st : Service)
    → is_owing stage ≡ false
    → taken_up r a st ≡ 0
    → late r a st ≡ 0
    → unreported profile r a st ≡ 0
    → own is_locking r (record { resource_id = x; stage = stage }) ≡ weight (is_acknowledgement r a)
    → IsPaid profile r a st (begin x stage st)
begin-IsPaid profile a stage x r st none_ up early reported locks =
    let task : Task = record { resource_id = x; stage = stage } in
    record {
      answers = ground (arith, total-snoc is_owing r st.tasks task, none_, up, early, reported);
      locks = ground (arith, total-snoc is_locking r st.tasks task, up, locks);
    }

-- The answers after a step of a call for the resource `x`.
module _ (profile : Profile) (reply : Reply) (r k : ℕ) (t : Task) (st : Service) (o : Outcome)
    (at : get_elem? st.tasks k ≡ some t) (step : IsStep reply t.resource_id t.stage st o) where
  abbrev new : Service
  new = record o.service { tasks = modify k (move o.stage) st.tasks }

  owed :
      total is_owing r new.tasks + own is_owing r t
      ≡ total is_owing r st.tasks + own is_owing r (move o.stage t)
  owed = total-move is_owing r k o.stage t st.tasks at

  held :
      total is_locking r new.tasks + own is_locking r t
      ≡ total is_locking r st.tasks + own is_locking r (move o.stage t)
  held = total-move is_locking r k o.stage t st.tasks at

  moved_answers :
      answers r new + owing r new + own (λ stage. is_unreported reply stage o.stage) r t
      ≡ answers r st + owing r st + own (is_late reply) r t
  moved_answers = elim (Bool-cases (t.resource_id == r)) [
    | inl same ↦ elim step.answers [
      | inl (quiet, pays) ↦ rw quiet (ground (arith, owed, same, pays))
      | inr (w, told, mine, pays) ↦
          let equal : t.resource_id ≡ r = ground (arith, ==_iff t.resource_id r) in
          let for_it : is_for r w ≡ true = rw (← equal) mine in
          rw told (ground (arith, owed, same, pays, count-snoc r st.written w, for_it))
    ]
    | inr other ↦ elim step.answers [
      | inl (quiet, pays) ↦ rw quiet (ground (arith, owed, other))
      | inr (w, told, mine, pays) ↦
          let apart : t.resource_id ≢ r = ground (arith, ==_iff t.resource_id r) in
          let against = is_for-other r t.resource_id w mine apart in
          rw told (ground (arith, owed, other, count-snoc r st.written w, against))
    ]
  ]

  moved_locks : locked r st + locking r new ≤ locked r new + locking r st
  moved_locks = elim step.unlocks [
    | inl (kept, same) ↦ rw kept (ground (arith, held, same))
    | inr (freed, after, before) ↦ elim (Bool-cases (t.resource_id == r)) [
      | inl same ↦ ground (arith, held, same, after, before)
      | inr other ↦
          let apart : t.resource_id ≢ r = ground (arith, ==_iff t.resource_id r) in
          rw freed
            (rw (has-without r t.resource_id st.processing apart) (ground (arith, held, other)))
    ]
  ]

resume-IsPaid :
    (profile : Profile) (reply : Reply) (r k : ℕ) (st : Service)
    → IsPaid profile r (resumes reply k) st (resume profile reply k st)
unfolding resume resume_task
resume-IsPaid profile reply r k st = elim (Option-cases (get_elem? st.tasks k)) [
  | inl gone ↦ simp gone (record { answers = simp gone (omega arith); locks = omega arith })
  | inr (t, at) ↦
      let next = advance profile reply t.resource_id t.stage st in
      let step = advance-IsStep profile reply t.resource_id t.stage st in
      simp at (record {
        answers = simp at (ground (arith, moved_answers profile reply r k t st next at step));
        locks = omega (arith, moved_locks profile reply r k t st next at step);
      })
]

act-IsPaid :
    (profile : Profile) (r : ℕ) (a : Action) (st : Service)
    → IsPaid profile r a st (act profile a st)
unfolding act
act-IsPaid profile r (asks x) st = asks-IsPaid profile x r st
act-IsPaid profile r (acknowledges x) st =
    begin-IsPaid profile (acknowledges x) acknowledging x r st refl refl refl refl refl
act-IsPaid profile r (completes x timestamp) st =
    begin-IsPaid profile (completes x timestamp) (counting timestamp) x r st refl refl refl refl
      (ground arith)
act-IsPaid profile r (resumes reply k) st = resume-IsPaid profile reply r k st

-- However the calls go on, and whichever of them fail, the answers written to a station, the calls
-- that still owe it one and the requests that stay without an answer add up to the requests taken
-- up and the failures after a response was written. A request stays without an answer only where the
-- report of its failure fails, or where it fails and an internal error has no code; and a call owes
-- an answer again, an internal error after the response, only where the journal or the event fails
-- once the response is written and an internal error has a code.
pub run-IsAnswered :
    (profile : Profile) (r : ℕ) (actions : List Action) (st : Service)
    → answers r (run profile actions st)
        + owing r (run profile actions st)
        + tally (unreported profile r) profile actions st
      ≡ answers r st
        + owing r st
        + tally (taken_up r) profile actions st
        + tally (late r) profile actions st
run-IsAnswered profile r [] st = omega arith
run-IsAnswered profile r (a ∷ actions) st =
    let paid = act-IsPaid profile r a st in
    omega (arith, paid.answers, run-IsAnswered profile r actions (act profile a st))

run_locks :
    (profile : Profile) (r : ℕ) (actions : List Action) (st : Service)
    → tally (taken_up r) profile actions st + locked r st + locking r (run profile actions st)
      ≤ locked r (run profile actions st) + locking r st + count (is_acknowledgement r) actions
run_locks profile r [] st = omega arith
run_locks profile r (a ∷ actions) st =
    let paid = act-IsPaid profile r a st in
    ground (arith, paid.locks, run_locks profile r actions (act profile a st))

weight-max : (b : Bool) → weight b ≤ 1
weight-max b = ground arith

-- Whatever the stations do, in whatever order the calls go on and whichever fail, a station gets at
-- most one answer more than its acknowledgements and the failures after a response was written; one
-- more for each `dispatch` that has not answered and for each `acknowledge` that has not ended when
-- the run begins.
pub run-answers :
    (profile : Profile) (r : ℕ) (actions : List Action) (st : Service)
    → answers r (run profile actions st)
      ≤ answers r st
        + owing r st
        + locking r st
        + 1
        + count (is_acknowledgement r) actions
        + tally (late r) profile actions st
run-answers profile r actions st = omega (
  arith,
  run-IsAnswered profile r actions st,
  run_locks profile r actions st,
  weight-max (has r (run profile actions st).processing),
)
