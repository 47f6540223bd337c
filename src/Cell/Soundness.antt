-- ===== src/Cell/Soundness.antt =====
-- Each station of the multi-station server is sound, and stays so under its own operations.
use Prim.Native.Nat.{◌/◌}
use mes_copy.Base.{
  ℕ, zero, suc, ◌+◌, ◌≤◌, ◌<◌, ◌≡◌, refl, ◌∙◌, ◌⊎◌, true, false, Option, none, some, arith, ◌==◌,
  if◌then◌else◌, String,
}
use native.Mathlib.Nat.{div-eq_of_lt}
use mes_copy.Base.Division.{div-add_one}
use mes_copy.OpcUa.{Value}
use mes_copy.Cell.{Settings, Definition, Station, Assignment, reject_every, create_station_state}
use mes_copy.Cell.Cycle.{
  finish_cycle, reset_station, stop_station, pause_station, start_station, take_response,
  take_assignment, is_occupied, is_free, measure,
}
use mes_copy.Cell.Commands.{Command, withdraw}
use mes_copy.Cell.Run.{
  complete, complete_with, retry_station, retry_with, clear_station, clear_with, write_station,
}
use mes_copy.Cell.Frame.{write_station-same}

abbrev number_or : Option Assignment → ℕ → ℕ
number_or none n = n
number_or (some a) n = a.carrier_number

-- Station 73 alone rejects, every `rejectEvery`-th part.
abbrev rejects_of : Settings → Definition → ℕ → ℕ
rejects_of c d n = if d.resource_id == 73 then n / reject_every c else 0

pub record IsSound (c : Settings) (s : Station) : Type 0 where
  pub request_owned : s.job.request ≡ true → is_occupied s.current_assignment ≡ true
  pub active_owned : s.process.active ≡ true → is_occupied s.current_assignment ≡ true
  pub exclusive : s.process.active ≡ true → s.job.request ≡ false
  pub busy :
      is_occupied s.current_assignment ≡ true → (s.job.request ≡ true) ⊎ (s.process.active ≡ true)
  pub carrier_named : number_or s.current_assignment s.job.carrier_number ≡ s.job.carrier_number
  pub pulse_ends : s.process.completed ≡ true → 0 < s.clear_timers
  pub pause_stops : s.paused ≡ true → s.running ≡ false
  pub faultless : s.fault_active ≡ false
  pub rejects :
      s.reject_count ≡ s.definition.initial_reject_count + rejects_of c s.definition s.cycle_number
  pub parts :
      s.good_count + s.reject_count
      ≡ s.definition.initial_good_count + s.definition.initial_reject_count + s.cycle_number

-- What the operations of a station do to it, but for taking an assignment: they keep it sound and
-- the station that it is, and a free station stays free.
pub record Holds (c : Settings) (s t : Station) : Type 0 where
  pub sound : IsSound c t
  pub definition : t.definition ≡ s.definition
  pub free : is_free s ≡ true → is_free t ≡ true

abbrev pub IsSteady : Settings → (Station → Station) → Type 0
IsSteady c f = (s : Station) → IsSound c s → Holds c s (f s)

pub reject_every-ge-two : (c : Settings) → 2 ≤ reject_every c
unfolding reject_every
reject_every-ge-two c = ground arith

module _ (c : Settings) (s : Station) (ok : IsSound c s) where
  finish_cycle-Holds : Holds c s (finish_cycle c s)
  unfolding finish_cycle is_free
  finish_cycle-Holds =
      ground (arith, div-add_one s.cycle_number (reject_every c) (reject_every-ge-two c))

  pub reset_station-Holds : Holds c s (reset_station s)
  unfolding reset_station is_free
  reset_station-Holds = ground arith

  pub stop_station-Holds : Holds c s (stop_station s)
  unfolding stop_station is_free
  stop_station-Holds = ground arith

  pub pause_station-Holds : Holds c s (pause_station s)
  unfolding pause_station is_free
  pause_station-Holds = ground arith

  pub start_station-Holds : Holds c s (start_station s)
  unfolding start_station is_free
  start_station-Holds = ground arith

  pub take_response-Holds : Holds c s (take_response s)
  unfolding take_response is_free
  take_response-Holds = ground arith

  pub measure-Holds : (now : ℕ) → Holds c s (measure now s)
  unfolding measure is_free
  measure-Holds now = ground arith

  pub withdraw-Holds : (k : Command) → Holds c s (withdraw k s)
  unfolding withdraw is_free
  withdraw-Holds k = ground arith

  completion_off-Holds : Holds c s (record s { completion_timer = none })
  unfolding is_free
  completion_off-Holds = ground arith

  retry_off-Holds : (n : ℕ) → Holds c s (record s { retry_timers = n })
  unfolding is_free
  retry_off-Holds n = ground arith

  pub write_station-Holds : (id : String) (v : Value) → Holds c s (write_station id v s)
  unfolding is_free
  write_station-Holds id v = ground (arith, write_station-same id v s)

  clear_with-Holds : (n : ℕ) → Holds c s (clear_with n s)
  unfolding clear_with is_free
  clear_with-Holds zero = ground arith
  clear_with-Holds (suc n) = ground arith

Holds-trans : {c : Settings} {s t u : Station} → Holds c s t → Holds c t u → Holds c s u
Holds-trans h k = record {
  sound = k.sound;
  definition = k.definition ∙ h.definition;
  free = λ e. k.free (h.free e);
}

pub Holds-refl : {c : Settings} {s : Station} → IsSound c s → Holds c s s
Holds-refl ok = record { sound = ok; definition = refl; free = λ e. e }

complete_with-Holds :
    (c : Settings) (timer : Option ℕ) (s : Station)
    → IsSound c s
    → Holds c s (complete_with c timer s)
unfolding complete_with
complete_with-Holds c none s ok = Holds-refl ok
complete_with-Holds c (some _) s ok =
    let off : Holds c s (record s { completion_timer = none }) = completion_off-Holds c s ok in
    Holds-trans off (finish_cycle-Holds c _ off.sound)

retry_with-Holds : (c : Settings) (n : ℕ) (s : Station) → IsSound c s → Holds c s (retry_with c n s)
unfolding retry_with
retry_with-Holds c zero s ok = Holds-refl ok
retry_with-Holds c (suc n) s ok =
    let off : Holds c s (record s { retry_timers = n }) = retry_off-Holds c s ok n in
    Holds-trans off (finish_cycle-Holds c _ off.sound)

pub complete-IsSteady : (c : Settings) → IsSteady c (complete c)
unfolding complete
complete-IsSteady c s ok = complete_with-Holds c s.completion_timer s ok

pub retry_station-IsSteady : (c : Settings) → IsSteady c (retry_station c)
unfolding retry_station
retry_station-IsSteady c s ok = retry_with-Holds c s.retry_timers s ok

pub clear_station-IsSteady : (c : Settings) → IsSteady c clear_station
unfolding clear_station
clear_station-IsSteady c s ok = clear_with-Holds c s ok s.clear_timers

pub create-IsSound : (c : Settings) (d : Definition) → IsSound c (create_station_state d)
unfolding create_station_state
create-IsSound c d =
    let pos : 0 < reject_every c = omega (arith, reject_every-ge-two c) in
    ground (arith, div-eq_of_lt pos)

-- A station whose process is not active takes an assignment soundly, a second one too.
pub take_assignment-IsSound :
    (c : Settings) (a : Assignment) (s : Station)
    → IsSound c s
    → s.process.active ≡ false
    → IsSound c (take_assignment a s)
unfolding take_assignment
take_assignment-IsSound c a s ok quiet = ground arith
