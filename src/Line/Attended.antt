-- ===== src/Line/Attended.antt =====
-- What happens to one station of the production line keeps it served or frees it.
use mes_copy.Base.{ℕ, refl, Bool, Option, none, some, [], ◌∷◌, arith, ==_iff, inl, inr, Bool-cases}
use mathlib.Core.Path.{subst, ◌∙◌}
use mes_copy.Base.Int.{ℤ}
use mes_copy.Line.{Station, Line, queue_check}
use mes_copy.Line.Handling.{
  give_up, finish, end_pulse, reset_station, stop_station, pause_station, start_station,
  see_response, forget_rejects,
}
use mes_copy.Line.Queue.{at_station_of, set_timer, clear_timeout, time_out_with, time_out_at}
use mes_copy.Line.Plc.{postpone}
use mes_copy.Line.Served.{IsServed, IsServedLine, IsServedAfter, IsServedAfter-of_same}
use mes_copy.Line.Waiting.{IsFreedAfter, kept-IsServedLine, freed-IsServedLine}
use mes_copy.Line.Requesting.{weaken-IsServedLine, set_timer-IsServedLine}

pub end_pulse-IsServedAfter : (s : Station) → IsServedAfter s (end_pulse s)
unfolding end_pulse
end_pulse-IsServedAfter s = IsServedAfter-of_same s _ (ground arith)

pub clear_timeout-IsServedAfter : (s : Station) → IsServedAfter s (clear_timeout s)
unfolding clear_timeout
clear_timeout-IsServedAfter s = IsServedAfter-of_same s _ (ground arith)

pub postpone-IsServedAfter : (s : Station) → IsServedAfter s (postpone s)
unfolding postpone
postpone-IsServedAfter s = IsServedAfter-of_same s _ (ground arith)

pub stop_station-IsServedAfter : (s : Station) → IsServedAfter s (stop_station s)
unfolding stop_station
stop_station-IsServedAfter s = IsServedAfter-of_same s _ (ground arith)

pub pause_station-IsServedAfter : (s : Station) → IsServedAfter s (pause_station s)
unfolding pause_station
pause_station-IsServedAfter s = IsServedAfter-of_same s _ (ground arith)

pub start_station-IsServedAfter : (s : Station) → IsServedAfter s (start_station s)
unfolding start_station
start_station-IsServedAfter s = IsServedAfter-of_same s _ (ground arith)

pub accept-IsServedAfter : (s : Station) → IsServedAfter s (forget_rejects (see_response s))
unfolding forget_rejects see_response
accept-IsServedAfter s = IsServedAfter-of_same s _ (ground arith)

pub reset_station-IsServedAfter : (id : ℤ) (s : Station) → IsServedAfter s (reset_station id s)
unfolding reset_station
reset_station-IsServedAfter id s = record {
  config = refl;
  kept = λ ts ok. record { busy = refl; held = refl; served = refl };
}

pub finish-IsFreedAfter :
    (now : ℕ) (failed : Bool) (s : Station) → IsFreedAfter s (finish now failed s)
unfolding finish
finish-IsFreedAfter now failed s = record {
  config = refl;
  kept = λ ts us ok. record {
    busy = refl;
    held = refl;
    served = ground (arith, ==_iff s.config.resource_id s.config.resource_id);
  };
}

pub give_up-IsFreedAfter : (s : Station) → IsFreedAfter s (give_up s)
unfolding give_up
give_up-IsFreedAfter s = record {
  config = refl;
  kept = λ ts us ok. record {
    busy = refl;
    held = refl;
    served = ground (arith, ==_iff s.config.resource_id s.config.resource_id);
  };
}

-- What comes before a station is freed.
pub after-IsFreedAfter :
    (f g : Station → Station)
    → ((s : Station) → IsFreedAfter s (g s))
    → ((s : Station) → IsServedAfter s (f s))
    → (s : Station) → IsFreedAfter s (g (f s))
after-IsFreedAfter f g k h s =
    let before = h s in
    let after = k (f s) in
    record {
      config = after.config ∙ before.config;
      kept = λ ts us ok.
          subst (λ x. IsServed (queue_check x.resource_id ∷ us) (g (f s))) before.config
            (after.kept ts us (before.kept ts ok));
    }

pub see_response-IsServedAfter : (s : Station) → IsServedAfter s (see_response s)
unfolding see_response
see_response-IsServedAfter s = IsServedAfter-of_same s _ (ground arith)

pub timed_out-IsServedLine :
    (r : ℕ) (s : Station) (line : Line)
    → IsServedLine [] line
    → IsServedLine [] (time_out_with r s line)
unfolding time_out_with
timed_out-IsServedLine r s line ok = elim (Bool-cases s.request_timeout) [
  | inl set ↦ elim (Bool-cases s.query.x_start) [
    | inl asks ↦ simp (set, asks) (freed r line ok)
    | inr done ↦
        simp (set, done) (kept-IsServedLine [] r clear_timeout line clear_timeout-IsServedAfter ok)
  ]
  | inr unset ↦ simp unset ok
]
  where
    freed :
        (r : ℕ) (line : Line)
        → IsServedLine [] line
        → IsServedLine []
            (set_timer (queue_check r) (at_station_of r (λ t. give_up (clear_timeout t)) line))
    freed r line ok = set_timer-IsServedLine (queue_check r) _ (
        freed-IsServedLine r _ line
          (after-IsFreedAfter clear_timeout give_up give_up-IsFreedAfter
            clear_timeout-IsServedAfter)
          (weaken-IsServedLine (queue_check r) line ok))

pub time_out_at-IsServedLine :
    (r : ℕ) (found : Option Station) (line : Line)
    → IsServedLine [] line
    → IsServedLine [] (time_out_at r found line)
unfolding time_out_at
time_out_at-IsServedLine r none line ok = ok
time_out_at-IsServedLine r (some s) line ok = timed_out-IsServedLine r s line ok
