-- ===== src/Press/Induction.antt =====
-- What every operation of the single-station server keeps holds after every list of events.
use mes_copy.Base.{ℕ, zero, suc, ◌≡◌, true, none, some, Option, List, [], ◌∷◌, inl, inr, Bool-cases}
use mes_copy.Press.{Settings, Press, initial}
use mes_copy.Press.Cycle.{
  finish_cycle, take_reset, take_stop, take_pause, take_start, take_response, control_tick,
  telemetry_tick,
}
use mes_copy.Press.Mes.{Answers, begin_poll, end_poll}
use mes_copy.Press.Run.{
  Event, control, telemetry, completion, retry, clear, poll, answer, write, step, run_from, run,
  complete_with, retry_with, clear_with,
}
use mes_copy.Press.Frame.{IsSameProduction, client_write-same}

pub record IsKept (c : Settings) (P : Press → Type 0) : Type 0 where
  pub finish : (s : Press) → P s → P (finish_cycle c s)
  pub reset : (s : Press) → P s → P (take_reset s)
  pub stop : (s : Press) → P s → P (take_stop s)
  pub pause : (s : Press) → P s → P (take_pause s)
  pub start : (s : Press) → P s → P (take_start s)
  pub response : (s : Press) → P s → P (take_response c s)
  pub telemetry : (now : ℕ) (s : Press) → P s → P (telemetry_tick c now s)
  pub begin : (s : Press) → P s → P (begin_poll s)
  pub answered : (ans : Answers) (s : Press) → s.api_poll_running ≡ true → P s → P (end_poll ans s)
  pub written : (s t : Press) → IsSameProduction s t → P s → P t
  pub completion_off : (s : Press) → P s → P (record s { completion_timer = none })
  pub retry_off : (n : ℕ) (s : Press) → P s → P (record s { retry_timers = n })
  pub cleared : (n : ℕ) (s : Press) → P s → P (clear_with n s)

module _ (c : Settings) (P : Press → Type 0) (k : IsKept c P) where
  control_tick-kept : (s : Press) → P s → P (control_tick c s)
  unfolding control_tick
  control_tick-kept s p = k.response _ (k.start _ (k.pause _ (k.stop _ (k.reset s p))))

  complete_with-kept : (timer : Option ℕ) (s : Press) → P s → P (complete_with c timer s)
  unfolding complete_with
  complete_with-kept none s p = p
  complete_with-kept (some _) s p = k.finish _ (k.completion_off s p)

  retry_with-kept : (n : ℕ) (s : Press) → P s → P (retry_with c n s)
  unfolding retry_with
  retry_with-kept zero s p = p
  retry_with-kept (suc n) s p = k.finish _ (k.retry_off n s p)

  pub step-kept : (s : Press) (e : Event) → P s → P (step c s e)
  unfolding step
  step-kept s control p = control_tick-kept s p
  step-kept s (telemetry now) p = k.telemetry now s p
  step-kept s completion p = complete_with-kept s.completion_timer s p
  step-kept s retry p = retry_with-kept s.retry_timers s p
  step-kept s clear p = k.cleared s.clear_timers s p
  step-kept s poll p = k.begin s p
  step-kept s (answer ans) p = elim (Bool-cases s.api_poll_running) [
    | inl on ↦ simp on (k.answered ans s on p)
    | inr off ↦ simp off p
  ]
  step-kept s (write id v) p = k.written s _ (client_write-same id v s) p

  pub run_from-kept : (s : Press) (es : List Event) → P s → P (run_from c s es)
  unfolding run_from
  run_from-kept s [] p = p
  run_from-kept s (e ∷ es) p = run_from-kept (step c s e) es (step-kept s e p)

  pub run-kept : (es : List Event) → P (initial c) → P (run c es)
  unfolding run
  run-kept es p = run_from-kept (initial c) es p
