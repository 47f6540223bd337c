-- ===== src/Line/Stranded.antt =====
-- What the reset command does to a carrier at a station of the production line.
use mes_copy.Base.{ℕ, ◌≡◌, refl, true, false, none, some, [], ◌∷◌, ◌==◌, inl, inr, Bool-cases, find}
use mes_copy.Base.Int.{ℤ}
use mes_copy.Line.{Settings, Station, Line}
use mes_copy.Line.Inventory.{has_carrier}
use mes_copy.Line.Handling.{reset_station}
use mes_copy.Line.Queue.{station_of, at_station_of, set_timer, carrier_at}
use mes_copy.Line.Plc.{
  reset_with, take_reset, take_stop, take_pause, take_start, take_response, part_at, simulate_plc,
  resend,
}
use mes_copy.Line.Plans.{release_carrier, includes_id, can_leave}
use mes_copy.Line.Run.{Moment, plc, timer, fire, fire_at, step, run_from}
use mes_copy.Line.Lookup.{station_of-at_station_of, station_of-elsewhere}

-- A carrier whose slot does not hold it ready in the store is not released.
release_refused :
    (c : Settings) (now ref : ℕ) (line : Line)
    → can_leave (find (has_carrier (carrier_at ref line).carrier_id) line.slots) ≡ false
    → release_carrier c now ref line ≡ line
unfolding release_carrier
release_refused c now ref line away =
    elim (Bool-cases (includes_id (carrier_at ref line).carrier_id line.deactivated)) [
      | inl off ↦ simp off refl
      | inr on ↦ simp (on, away) refl
    ]

reset_station-config : (id : ℤ) (s : Station) → (reset_station id s).config ≡ s.config
unfolding reset_station
reset_station-config id s = refl

-- The station has no carrier and awaits none, and all else is as it was.
pub record IsStranded (r : ℕ) (line new : Line) : Type 0 where
  pub left : Station
  pub station : station_of r new.stations ≡ some left
  pub freed : left.current_carrier ≡ none
  pub queue : left.waiting_queue ≡ []
  pub start : left.query.x_start ≡ false
  pub busy : left.state.x_busy ≡ false
  pub auto : left.state.x_auto ≡ true
  pub others : (q : ℕ) → (q == r) ≡ false → station_of q new.stations ≡ station_of q line.stations
  pub timers : new.timers ≡ line.timers
  pub slots : new.slots ≡ line.slots
  pub carriers : new.carriers ≡ line.carriers

module _ (r ref : ℕ) (s : Station) (line : Line) (known : station_of r line.stations ≡ some s)
    (current : s.current_carrier ≡ some ref) (given : s.control.x_cmd_reset ≡ true)
    (stop : s.control.x_cmd_stop ≡ false) (pause : s.control.x_cmd_pause ≡ false)
    (start : s.control.x_cmd_start ≡ false) where
  abbrev id : ℤ
  id = (carrier_at ref line).carrier_id

  abbrev was_reset : Line
  was_reset = at_station_of r (reset_station id) line

  found : station_of r was_reset.stations ≡ some (reset_station id s)
  found = station_of-at_station_of r (reset_station id) s line (reset_station-config id) known

  -- The interval that sees the command.
  reset_interval : simulate_plc r line ≡ set_timer (resend r ref) was_reset
  unfolding simulate_plc part_at take_reset take_stop take_pause take_start take_response reset_with
      reset_station set_timer
  reset_interval = simp (known, given, current, found, stop, pause, start) refl

  reset_releases :
      (c : Settings) (tick fired : Moment)
      → (r == 3) ≡ false
      → can_leave (find (has_carrier id) line.slots) ≡ false
      → run_from c line (
          record { moment = tick; event = plc r } ∷ record { moment = fired; event = timer 0 } ∷ [])
        ≡ was_reset
  unfolding run_from step fire_at fire set_timer at_station_of carrier_at
  reset_releases c tick fired other away =
      simp (reset_interval, other) (release_refused c fired.now ref was_reset away)

  -- The reset command at a station other than 3 sets a timer that is to release its carrier from
  -- the store. If the inventory does not have that carrier ready in the store, as it does not
  -- since the carrier was released, nothing is left of the carrier when the timer has run out: the
  -- station is free and in automatic mode, its queue is empty, and no other station, timer, slot
  -- or carrier object has changed.
  pub reset_strands :
      (c : Settings) (tick fired : Moment)
      → (r == 3) ≡ false
      → can_leave (find (has_carrier id) line.slots) ≡ false
      → IsStranded r line (
          run_from c line (
            record { moment = tick; event = plc r }
            ∷ record { moment = fired; event = timer 0 }
            ∷ []))
  unfolding reset_station at_station_of
  reset_strands c tick fired other away = rw (reset_releases c tick fired other away) (record {
    left = reset_station id s;
    station = found;
    freed = refl;
    queue = refl;
    start = refl;
    busy = refl;
    auto = refl;
    others =
        λ q apart. station_of-elsewhere r q (reset_station id) line (reset_station-config id) apart;
    timers = refl;
    slots = refl;
    carriers = refl;
  })
