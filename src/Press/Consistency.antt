-- ===== src/Press/Consistency.antt =====
-- The assignment, the request and the running process of the single-station server agree, whatever
-- the order of the events.
use mes_copy.Base.{
  ℕ, zero, suc, ◌<◌, ◌≡◌, ◌⊎◌, true, false, Option, none, some, List, arith, is_some,
}
use mes_copy.Press.{Settings, Press, Assignment, initial}
use mes_copy.Press.Cycle.{
  finish_cycle, take_reset, take_stop, take_pause, take_start, take_response, telemetry_tick,
}
use mes_copy.Press.Mes.{Outcome, done, thrown, begin_poll, end_poll, end_with, find_next_assignment}
use mes_copy.Press.Run.{Event, run, clear_with}
use mes_copy.Press.Induction.{IsKept, run-kept}

abbrev number_or : Option Assignment → ℕ → ℕ
number_or none n = n
number_or (some a) n = a.carrier_number

pub record IsConsistent (s : Press) : Type 0 where
  pub request_owned : s.job.request ≡ true → is_some s.current_assignment ≡ true
  pub active_owned : s.process.active ≡ true → is_some s.current_assignment ≡ true
  pub exclusive : s.process.active ≡ true → s.job.request ≡ false
  pub busy :
      is_some s.current_assignment ≡ true → (s.job.request ≡ true) ⊎ (s.process.active ≡ true)
  pub poll_idle : s.api_poll_running ≡ true → s.current_assignment ≡ none
  pub carrier_named : number_or s.current_assignment s.job.carrier_number ≡ s.job.carrier_number
  pub pulse_ends : s.process.completed ≡ true → 0 < s.clear_timers
  pub pause_stops : s.paused ≡ true → s.running ≡ false
  pub faultless : s.fault_active ≡ false

initial-IsConsistent : (c : Settings) → IsConsistent (initial c)
unfolding initial
initial-IsConsistent c = ground arith

module _ (c : Settings) (s : Press) (ok : IsConsistent s) where
  finish_cycle-IsConsistent : IsConsistent (finish_cycle c s)
  unfolding finish_cycle
  finish_cycle-IsConsistent = ground arith

  take_reset-IsConsistent : IsConsistent (take_reset s)
  unfolding take_reset
  take_reset-IsConsistent = ground arith

  take_stop-IsConsistent : IsConsistent (take_stop s)
  unfolding take_stop
  take_stop-IsConsistent = ground arith

  take_pause-IsConsistent : IsConsistent (take_pause s)
  unfolding take_pause
  take_pause-IsConsistent = ground arith

  take_start-IsConsistent : IsConsistent (take_start s)
  unfolding take_start
  take_start-IsConsistent = ground arith

  take_response-IsConsistent : IsConsistent (take_response c s)
  unfolding take_response
  take_response-IsConsistent = ground arith

  telemetry_tick-IsConsistent : (now : ℕ) → IsConsistent (telemetry_tick c now s)
  unfolding telemetry_tick
  telemetry_tick-IsConsistent now = ground arith

  begin_poll-IsConsistent : IsConsistent (begin_poll s)
  unfolding begin_poll
  begin_poll-IsConsistent = ground arith

  end_with-IsConsistent :
      (found : Outcome (Option Assignment))
      → s.api_poll_running ≡ true
      → IsConsistent (end_with found s)
  unfolding end_with
  end_with-IsConsistent thrown h = ground arith
  end_with-IsConsistent (done none) h = ground arith
  end_with-IsConsistent (done (some a)) h = ground arith

clear_with-IsConsistent : (n : ℕ) (s : Press) → IsConsistent s → IsConsistent (clear_with n s)
unfolding clear_with
clear_with-IsConsistent zero s ok = ok
clear_with-IsConsistent (suc n) s ok = ground arith

kept : (c : Settings) → IsKept c IsConsistent
unfolding end_poll
kept c = record {
  finish = finish_cycle-IsConsistent c;
  reset = take_reset-IsConsistent c;
  stop = take_stop-IsConsistent c;
  pause = take_pause-IsConsistent c;
  start = take_start-IsConsistent c;
  response = take_response-IsConsistent c;
  telemetry = λ now s ok. telemetry_tick-IsConsistent c s ok now;
  begin = begin_poll-IsConsistent c;
  answered = λ ans s on ok. end_with-IsConsistent c s ok (find_next_assignment ans s) on;
  written = λ s t same ok. ground arith;
  completion_off = λ s ok. ground arith;
  retry_off = λ n s ok. ground arith;
  cleared = clear_with-IsConsistent;
}

-- After any events in any order, from the start: a job request or a running process has a current
-- assignment and excludes the other, an assignment is requested or in process, a poll of the MES
-- is under way only while there is none, the job names the assignment's carrier, a completion
-- pulse has a timer that ends it, and a paused machine is stopped; no fault is ever shown.
pub run-IsConsistent : (c : Settings) (es : List Event) → IsConsistent (run c es)
run-IsConsistent c es = run-kept c IsConsistent (kept c) es (initial-IsConsistent c)
