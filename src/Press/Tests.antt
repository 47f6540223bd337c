-- ===== src/Press/Tests.antt =====
-- Runs of the single-station server, and the theorems at inputs that meet their hypotheses.
use mes_copy.Base.{ℕ, ◌+◌, ◌≡◌, refl, true, false, none, some, List, [], ◌∷◌, IsDistinct}
use mes_copy.OpcUa.{bool, uint, set_value}
use mes_copy.Press.{Settings, cycle_ms, reject_every, Press, Assignment, initial}
use mes_copy.Press.Cycle.{
  finish_cycle, control_tick, take_reset, take_stop, take_pause, take_start, take_response,
  telemetry_tick,
}
use mes_copy.Press.Mes.{
  Answers, Carrier, begin_poll, end_poll, find_next_assignment, candidates, runs,
}
use mes_copy.Press.Run.{
  Event, control, completion, retry, clear, poll, answer, write, client_write, step, run_from, run,
}
use mes_copy.Press.Frame.{IsSameProduction, client_write-same}
use mes_copy.Press.Consistency.{IsConsistent, run-IsConsistent}
use mes_copy.Press.Counting.{IsCounted, run-IsCounted}
use mes_copy.Press.Requests.{run-IsDistinct, IsSpent, run_from-IsSpent}
use mes_copy.Press.Search.{Explains, find_next_assignment_lem}
use mes_copy.Press.Progress.{
  IsWorkedOff, accepted_completes, stopped_resumes, leftover_retry_completes,
}

server : Unit {0}
unfolding run control_tick take_reset take_stop take_pause take_start take_response telemetry_tick
    reject_every finish_cycle begin_poll end_poll runs step client_write set_value cycle_ms initial
server = tt

abbrev settings : Settings
settings = record {
  requested_cycle_ms = none;
  requested_reject_every = none;
  autonomous_telemetry = false;
}

abbrev carrier : ℕ → ℕ → Carrier
carrier number step_no = record {
  order_id = some "o1";
  carrier_number = number;
  status = "assigned";
  current_step_no = some step_no;
}

abbrev only : List Carrier → Answers
only cs = record {
  carriers = some cs;
  route = λ _. some (record { step_no = 2; resource_id = some 71 } ∷ []);
}

abbrev accept : Event
accept = write "s=NX9000.Job.Accepted" (bool true)

abbrev press_start : Event
press_start = write "s=NX9000.Control.Start" (bool true)

abbrev press_stop : Event
press_stop = write "s=NX9000.Control.Stop" (bool true)

abbrev press_reset : Event
press_reset = write "s=NX9000.Control.Reset" (bool true)

abbrev requested : List Event
requested = poll ∷ answer (only (carrier 8 1 ∷ carrier 9 2 ∷ [])) ∷ []

abbrev one_cycle : List Event
one_cycle = poll ∷ answer (only (carrier 9 2 ∷ [])) ∷ accept ∷ control ∷ completion ∷ clear ∷ []

one_cycle_test :
    ((run settings one_cycle).cycle_number ≡ 1)
    × ((run settings one_cycle).good_count ≡ 41)
    × ((run settings one_cycle).pressure ≡ 113200)
    × ((run settings one_cycle).process.completed_carrier_number ≡ 9)
    × ((run settings one_cycle).requested_assignments ≡ "o1:9:2" ∷ [])
unfolding server
one_cycle_test = (refl, refl, refl, refl, refl)

-- The start command is given twice while a completion waits, which leaves a second timer over.
abbrev twice_started : List Event
twice_started =
    poll
    ∷ answer (only (carrier 9 2 ∷ []))
    ∷ accept
    ∷ control
    ∷ press_stop
    ∷ control
    ∷ completion
    ∷ press_start
    ∷ control
    ∷ press_start
    ∷ control
    ∷ retry
    ∷ poll
    ∷ answer (only (carrier 10 2 ∷ []))
    ∷ []

abbrev second : Assignment
second = record { signature = "o1:10:2"; order_id = "o1"; carrier_number = 10; step_number = 2 }

abbrev first : Assignment
first = record { signature = "o1:9:2"; order_id = "o1"; carrier_number = 9; step_number = 2 }

leftover_retry_completes_example :
    IsWorkedOff second
      (run settings twice_started)
      (step settings (run settings twice_started) retry)
unfolding server
leftover_retry_completes_example =
    leftover_retry_completes settings (run settings twice_started) second 0
      (record { running = refl; paused = refl; fault_active = refl })
      (record { current = refl; request = refl; unhandled = refl }) refl refl refl

run-IsConsistent_example : IsConsistent (run settings twice_started)
run-IsConsistent_example = run-IsConsistent settings twice_started

run-IsCounted_example : IsCounted settings (run settings twice_started)
run-IsCounted_example = run-IsCounted settings twice_started

run-IsDistinct_example : IsDistinct (run settings twice_started).requested_assignments
run-IsDistinct_example = run-IsDistinct settings twice_started

client_write-same_example :
    IsSameProduction
      (run settings one_cycle)
      (client_write "s=NX9000.Recipe.DwellTimeMs" (uint 900) (run settings one_cycle))
client_write-same_example =
    client_write-same "s=NX9000.Recipe.DwellTimeMs" (uint 900) (run settings one_cycle)

find_next_assignment_lem_example :
    Explains
      (only (carrier 8 1 ∷ carrier 9 2 ∷ []))
      []
      (candidates (carrier 8 1 ∷ carrier 9 2 ∷ []))
      (find_next_assignment (only (carrier 8 1 ∷ carrier 9 2 ∷ [])) (initial settings))
unfolding initial
find_next_assignment_lem_example =
    find_next_assignment_lem (only (carrier 8 1 ∷ carrier 9 2 ∷ [])) (initial settings)
      (carrier 8 1 ∷ carrier 9 2 ∷ []) refl

abbrev answered : Event → List Event
answered e = poll ∷ answer (only (carrier 9 2 ∷ [])) ∷ e ∷ []

abbrev accepted : Press
accepted = run settings (answered accept)

accepted_completes_example :
    ((step settings accepted control).process.active ≡ true)
    × ((step settings accepted control).job.request ≡ false)
    × ((step settings accepted control).current_assignment ≡ some first)
    × ((step settings accepted control).completion_timer
        ≡ some (cycle_ms settings + accepted.recipe.dwell_time_ms))
    × IsWorkedOff first accepted (run_from settings accepted (control ∷ completion ∷ []))
unfolding server
accepted_completes_example =
    accepted_completes settings accepted first
      (record { start = refl; stop = refl; reset = refl; pause = refl })
      (record { running = refl; paused = refl; fault_active = refl })
      (record { current = refl; request = refl; unhandled = refl }) refl

abbrev stopped : Press
stopped =
    run settings
      (poll ∷ answer (only (carrier 9 2 ∷ [])) ∷ accept ∷ control ∷ press_stop ∷ control ∷ [])

stopped_resumes_example :
    ((step settings stopped completion).cycle_number ≡ stopped.cycle_number)
    × ((step settings stopped completion).current_assignment ≡ some first)
    × IsWorkedOff first stopped (
        run_from settings stopped
          (completion ∷ write "s=NX9000.Control.Start" (bool true) ∷ control ∷ retry ∷ []))
unfolding server
stopped_resumes_example =
    stopped_resumes settings stopped first 1700
      (record { start = refl; stop = refl; reset = refl; pause = refl }) refl refl refl refl refl

-- A reset in the middle of a cycle: the assignment is given up and never requested again.
abbrev reset_in_cycle : List Event
reset_in_cycle =
    poll ∷ answer (only (carrier 9 2 ∷ [])) ∷ accept ∷ control ∷ press_reset ∷ control ∷ []

run_from-IsSpent_example :
    IsSpent "o1:9:2" (
      run_from settings
        (run settings reset_in_cycle)
        (poll ∷ answer (only (carrier 9 2 ∷ [])) ∷ []))
unfolding server
run_from-IsSpent_example =
    run_from-IsSpent settings "o1:9:2" (run settings reset_in_cycle)
      (poll ∷ answer (only (carrier 9 2 ∷ [])) ∷ []) (refl, tt)
