-- ===== src/Press/Progress.antt =====
-- How a requested assignment ends at the single-station server.
use mes_copy.Base.{ℕ, suc, ◌+◌, ◌≡◌, true, false, none, some, [], ◌∷◌, arith}
use mes_copy.OpcUa.{bool, set_value}
use mes_copy.Press.{Settings, cycle_ms, Press, Assignment}
use mes_copy.Press.Cycle.{
  finish_cycle, take_reset, take_stop, take_pause, take_start, take_response, control_tick,
}
use mes_copy.Press.Run.{
  control, completion, retry, write, client_write, step, run_from, complete_with, retry_with,
}

-- No command of a client is waiting.
pub record IsQuiet (s : Press) : Type 0 where
  pub start : s.control.start ≡ false
  pub stop : s.control.stop ≡ false
  pub reset : s.control.reset ≡ false
  pub pause : s.control.pause ≡ false

pub record IsRunning (s : Press) : Type 0 where
  pub running : s.running ≡ true
  pub paused : s.paused ≡ false
  pub fault_active : s.fault_active ≡ false

-- The server waits for the MES's answer to the assignment `a`.
pub record IsWaiting (a : Assignment) (s : Press) : Type 0 where
  pub current : s.current_assignment ≡ some a
  pub request : s.job.request ≡ true
  pub unhandled : s.response_handled ≡ false

-- The assignment `a` of the state `s` has been worked off: one cycle more, one part more, its
-- carrier reported, and the server free for the next.
pub record IsWorkedOff (a : Assignment) (s t : Press) : Type 0 where
  pub current : t.current_assignment ≡ none
  pub request : t.job.request ≡ false
  pub active : t.process.active ≡ false
  pub completed : t.process.completed ≡ true
  pub carrier : t.process.completed_carrier_number ≡ a.carrier_number
  pub cycle : t.cycle_number ≡ s.cycle_number + 1
  pub parts : t.good_count + t.reject_count ≡ s.good_count + s.reject_count + 1

control_tick-quiet : (c : Settings) (s : Press) → IsQuiet s → control_tick c s ≡ take_response c s
unfolding control_tick take_reset take_stop take_pause take_start
control_tick-quiet c s q = simp (q.reset, q.stop, q.pause, q.start)

-- An answer that accepts starts the cycle: at the next interval the request is taken back, the
-- process is active for the same assignment, and its timer runs for the cycle time and the dwell
-- time of the recipe. When the timer runs out, the assignment has been worked off.
pub accepted_completes :
    (c : Settings) (s : Press) (a : Assignment)
    → IsQuiet s
    → IsRunning s
    → IsWaiting a s
    → s.job.accepted ≡ true
    → ((step c s control).process.active ≡ true)
      × ((step c s control).job.request ≡ false)
      × ((step c s control).current_assignment ≡ some a)
      × ((step c s control).completion_timer ≡ some (cycle_ms c + s.recipe.dwell_time_ms))
      × IsWorkedOff a s (run_from c s (control ∷ completion ∷ []))
unfolding step run_from complete_with finish_cycle take_response
accepted_completes c s a quiet runs waits yes_ = rw (control_tick-quiet c s quiet) (ground arith)

-- A cycle whose time runs out while the machine is stopped or paused waits, and a client that
-- then starts the machine has it worked off: by the write of the start command, the interval that
-- takes the command, and the timer that the interval sets.
pub stopped_resumes :
    (c : Settings) (s : Press) (a : Assignment) (delay : ℕ)
    → IsQuiet s
    → s.running ≡ false
    → s.current_assignment ≡ some a
    → s.job.request ≡ false
    → s.completion_timer ≡ some delay
    → s.retry_timers ≡ 0
    → ((step c s completion).cycle_number ≡ s.cycle_number)
      × ((step c s completion).current_assignment ≡ some a)
      × IsWorkedOff a s (
          run_from c s
            (completion ∷ write "s=NX9000.Control.Start" (bool true) ∷ control ∷ retry ∷ []))
unfolding step run_from complete_with retry_with finish_cycle control_tick take_reset take_stop
    take_pause take_start take_response client_write set_value
stopped_resumes c s a delay quiet stopped current free timer none_ = ground arith

-- A timer that calls `finishCycle` again does not look at what it was set for. If one is left over
-- while the server waits for the MES's answer to another assignment, that assignment is reported
-- as worked off although the MES has not accepted it.
pub leftover_retry_completes :
    (c : Settings) (s : Press) (a : Assignment) (left : ℕ)
    → IsRunning s
    → IsWaiting a s
    → s.job.accepted ≡ false
    → s.job.rejected ≡ false
    → s.retry_timers ≡ suc left
    → IsWorkedOff a s (step c s retry)
unfolding step retry_with finish_cycle
leftover_retry_completes c s a left runs waits no_ no' timers = ground arith
