-- ===== src/Cell/Resetting.antt =====
-- What the reset command of the multi-station server does to the stations and to the requests.
use mes_copy.Base.{
  ℕ, String, ◌≡◌, refl, Bool, true, false, not, ◌||◌, ◌&&◌, Option, none, some, List, [], ◌∷◌, map,
  arith, All, includes, str_eq, eq_iff, ◌∙◌, ap,
}
use mes_copy.Cell.{Station, Assignment, Cell}
use mes_copy.Cell.Cycle.{reset_station, is_free}
use mes_copy.Cell.Commands.{reset, delete_signature, drop_current, drop_all, apply_machine_control}

-- Some station works on an assignment with this signature.
abbrev works_on : String → Option Assignment → Bool
works_on g none = false
works_on g (some a) = str_eq a.signature g

abbrev pub is_worked_on : String → List Station → Bool
is_worked_on g [] = false
is_worked_on g (s ∷ ss) = works_on g s.current_assignment || is_worked_on g ss

-- A station that is free and runs, for which no cycle's timer, postponed completion or completion
-- pulse is left. `retry_timers` and `clear_timers` are not among this: nothing cancels them.
pub record IsReady (s : Station) : Type 0 where
  pub free : is_free s ≡ true
  pub running : s.running ≡ true
  pub paused : s.paused ≡ false
  pub fault_active : s.fault_active ≡ false
  pub timer : s.completion_timer ≡ none
  pub pending : s.completion_pending ≡ false
  pub pulse : s.process.completed ≡ false

reset_station-IsReady : (s : Station) → IsReady (reset_station s)
unfolding reset_station is_free
reset_station-IsReady s = ground arith

resets-IsReady : (ss : List Station) → All IsReady (map reset_station ss)
resets-IsReady [] = tt
resets-IsReady (s ∷ ss) = (reset_station-IsReady s, resets-IsReady ss)

-- What a reset leaves alone.
pub record Kept : Type 0 where
  pub resource_id : ℕ
  pub retry_timers : ℕ
  pub clear_timers : ℕ
  pub good_count : ℕ
  pub reject_count : ℕ
  pub cycle_number : ℕ

abbrev pub kept_of : Station → Kept
kept_of s = record {
  resource_id = s.definition.resource_id;
  retry_timers = s.retry_timers;
  clear_timers = s.clear_timers;
  good_count = s.good_count;
  reject_count = s.reject_count;
  cycle_number = s.cycle_number;
}

resets-kept : (ss : List Station) → map kept_of (map reset_station ss) ≡ map kept_of ss
unfolding reset_station
resets-kept [] = refl
resets-kept (s ∷ ss) = ap (λ ks. kept_of s ∷ ks) (resets-kept ss)

includes-delete_signature :
    (g h : String) (gs : List String)
    → includes g (delete_signature h gs) ≡ includes g gs && not (str_eq h g)
unfolding delete_signature
includes-delete_signature g h [] = refl
includes-delete_signature g h (x ∷ gs) =
    ground (arith, eq_iff x h, eq_iff x g, eq_iff h g, includes-delete_signature g h gs)

includes-drop_current :
    (g : String) (a : Option Assignment) (gs : List String)
    → includes g (drop_current a gs) ≡ includes g gs && not (works_on g a)
unfolding drop_current
includes-drop_current g none gs = ground arith
includes-drop_current g (some a) gs = includes-delete_signature g a.signature gs

and_nor : (p q r : Bool) → (p && not q) && not r ≡ p && not (q || r)
and_nor p q r = ground arith

includes-drop_all :
    (g : String) (ss : List Station) (gs : List String)
    → includes g (drop_all ss gs) ≡ includes g gs && not (is_worked_on g ss)
unfolding drop_all
includes-drop_all g [] gs = ground arith
includes-drop_all g (s ∷ ss) gs =
    includes-drop_all g ss (drop_current s.current_assignment gs)
    ∙ ap (λ p. p && not (is_worked_on g ss)) (includes-drop_current g s.current_assignment gs)
    ∙ and_nor (includes g gs) (works_on g s.current_assignment) (is_worked_on g ss)

-- The reset command makes every station free and running, cancels its cycle's timer and clears a
-- postponed completion and a completion pulse. The timers that are to call `finishCycle` again or
-- to end a pulse go on: each station has as many of them as before, as it has its counters. And a
-- signature is among those requested afterwards exactly if it was before and no station worked on
-- it, so what is given up can be requested again.
pub reset_frees :
    (g : String) (cell : Cell)
    → All IsReady (apply_machine_control reset cell).stations
      × (map kept_of (apply_machine_control reset cell).stations ≡ map kept_of cell.stations)
      × (includes g (apply_machine_control reset cell).requested_assignments
          ≡ includes g cell.requested_assignments && not (is_worked_on g cell.stations))
unfolding apply_machine_control
reset_frees g cell = (
  resets-IsReady cell.stations,
  resets-kept cell.stations,
  includes-drop_all g cell.stations cell.requested_assignments,
)
