-- ===== src/Press/Counting.antt =====
-- The counters and the pressure of the single-station server.
use Prim.Native.Nat.{◌/◌}
use native.Mathlib.Nat.{div-eq_of_lt}
use mes_copy.Base.{ℕ, zero, suc, ◌+◌, ◌≤◌, ◌<◌, ◌≡◌, Option, none, some, List, arith}
use mes_copy.Base.Division.{div-add_one}
use mes_copy.Press.{Settings, Press, Assignment, initial, reject_every}
use mes_copy.Press.Cycle.{
  finish_cycle, take_reset, take_stop, take_pause, take_start, take_response, telemetry_tick,
}
use mes_copy.Press.Mes.{begin_poll, end_poll, end_with, Outcome, done, thrown, find_next_assignment}
use mes_copy.Press.Run.{Event, run, clear_with}
use mes_copy.Press.Induction.{IsKept, run-kept}

reject_every-ge-two : (c : Settings) → 2 ≤ reject_every c
unfolding reject_every
reject_every-ge-two c = ground arith

pub record IsCounted (c : Settings) (s : Press) : Type 0 where
  pub rejects : s.reject_count ≡ 3 + s.cycle_number / reject_every c
  pub parts : s.good_count + s.reject_count ≡ 43 + s.cycle_number
  pub pressure_low : 111500 ≤ s.pressure
  pub pressure_high : s.pressure < 114000

module _ (c : Settings) (s : Press) (ok : IsCounted c s) where
  finish_cycle-IsCounted : IsCounted c (finish_cycle c s)
  unfolding finish_cycle
  finish_cycle-IsCounted =
      ground (arith, div-add_one s.cycle_number (reject_every c) (reject_every-ge-two c))

  telemetry_tick-IsCounted : (now : ℕ) → IsCounted c (telemetry_tick c now s)
  unfolding telemetry_tick
  telemetry_tick-IsCounted now =
      ground (arith, div-add_one s.cycle_number (reject_every c) (reject_every-ge-two c))

  take_reset-IsCounted : IsCounted c (take_reset s)
  unfolding take_reset
  take_reset-IsCounted = ground arith

  take_stop-IsCounted : IsCounted c (take_stop s)
  unfolding take_stop
  take_stop-IsCounted = ground arith

  take_pause-IsCounted : IsCounted c (take_pause s)
  unfolding take_pause
  take_pause-IsCounted = ground arith

  take_start-IsCounted : IsCounted c (take_start s)
  unfolding take_start
  take_start-IsCounted = ground arith

  take_response-IsCounted : IsCounted c (take_response c s)
  unfolding take_response
  take_response-IsCounted = ground arith

  begin_poll-IsCounted : IsCounted c (begin_poll s)
  unfolding begin_poll
  begin_poll-IsCounted = ground arith

  end_with-IsCounted : (found : Outcome (Option Assignment)) → IsCounted c (end_with found s)
  unfolding end_with
  end_with-IsCounted thrown = ground arith
  end_with-IsCounted (done none) = ground arith
  end_with-IsCounted (done (some a)) = ground arith

clear_with-IsCounted :
    (c : Settings) (n : ℕ) (s : Press) → IsCounted c s → IsCounted c (clear_with n s)
unfolding clear_with
clear_with-IsCounted c zero s ok = ok
clear_with-IsCounted c (suc n) s ok = ground arith

kept : (c : Settings) → IsKept c (IsCounted c)
unfolding end_poll
kept c = record {
  finish = finish_cycle-IsCounted c;
  reset = take_reset-IsCounted c;
  stop = take_stop-IsCounted c;
  pause = take_pause-IsCounted c;
  start = take_start-IsCounted c;
  response = take_response-IsCounted c;
  telemetry = λ now s ok. telemetry_tick-IsCounted c s ok now;
  begin = begin_poll-IsCounted c;
  answered = λ ans s on ok. end_with-IsCounted c s ok (find_next_assignment ans s);
  written = λ s t same ok. ground arith;
  completion_off = λ s ok. ground arith;
  retry_off = λ n s ok. ground arith;
  cleared = clear_with-IsCounted c;
}

initial-IsCounted : (c : Settings) → IsCounted c (initial c)
unfolding initial
initial-IsCounted c =
    let pos : 0 < reject_every c = omega (arith, reject_every-ge-two c) in
    ground (arith, div-eq_of_lt pos)

-- After any events in any order, from the start: three parts and every `rejectEvery`-th cycle are
-- rejected, each cycle adds one part to the 43 of the start, and the pressure is at least 111.5 bar
-- and below 114 bar.
pub run-IsCounted : (c : Settings) (es : List Event) → IsCounted c (run c es)
run-IsCounted c es = run-kept c (IsCounted c) (kept c) es (initial-IsCounted c)
