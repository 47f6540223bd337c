-- ===== src/Line/Timing.antt =====
-- The timers of the production line as far as the service of the queues depends on them.
use mes_copy.Base.{
  ℕ, zero, suc, ◌≡◌, true, false, some, List, [], ◌∷◌, ◌++◌, arith, get_elem?, remove_at,
}
use mes_copy.Line.{Station, Line, Timer}
use mes_copy.Line.Queue.{set_timer}
use mes_copy.Line.Served.{IsServedLine, AllServed, is_check, is_checked}

-- Every check of `ts` is in `us` too.
abbrev Covers : List Timer → List Timer → Type 0
Covers ts us = (r : ℕ) → is_checked r ts ≡ true → is_checked r us ≡ true

AllServed-of_Covers :
    (ts us : List Timer) (ss : List Station) → Covers ts us → AllServed ts ss → AllServed us ss
AllServed-of_Covers ts us [] k h = tt
AllServed-of_Covers ts us (s ∷ ss) k (h, hs) = (
  record {
    busy = h.busy;
    held = h.held;
    served = ground (arith, h.served, k s.config.resource_id);
  },
  AllServed-of_Covers ts us ss k hs,
)

Covers-insert : (xs : List Timer) (t : Timer) (ts : List Timer) → Covers (xs ++ ts) (xs ++ t ∷ ts)
Covers-insert [] t ts r e = ground arith
Covers-insert (x ∷ xs) t ts r e = ground (arith, Covers-insert xs t ts r)

-- Timers are only added: what is served stays so.
pub timed-IsServedLine :
    (xs : List Timer) (t : Timer) (line : Line)
    → IsServedLine xs line
    → IsServedLine xs (set_timer t line)
unfolding set_timer
timed-IsServedLine xs t line ok = record {
  distinct = ok.distinct;
  stations =
      AllServed-of_Covers (xs ++ line.timers) (xs ++ t ∷ line.timers) line.stations
        (Covers-insert xs t line.timers) ok.stations;
}

Covers-remove :
    (n : ℕ) (t : Timer) (ts : List Timer) → get_elem? ts n ≡ some t → Covers ts (t ∷ remove_at n ts)
Covers-remove n t [] e r c = cc
Covers-remove zero t (x ∷ ts) e r c = let same : x ≡ t = ground arith in rw (← same) c
Covers-remove (suc n) t (x ∷ ts) e r c = ground (arith, Covers-remove n t ts e r)

-- The timer that runs out is taken off.
pub fired-IsServedLine :
    (n : ℕ) (t : Timer) (line : Line)
    → get_elem? line.timers n ≡ some t
    → IsServedLine [] line
    → IsServedLine (t ∷ []) (record line { timers = remove_at n line.timers })
fired-IsServedLine n t line e ok = record {
  distinct = ok.distinct;
  stations =
      AllServed-of_Covers line.timers (t ∷ remove_at n line.timers) line.stations
        (Covers-remove n t line.timers e) ok.stations;
}

-- A timer that checks no queue is not needed.
pub other-IsServedLine :
    (t : Timer) (line : Line)
    → ((r : ℕ) → is_check r t ≡ false)
    → IsServedLine (t ∷ []) line
    → IsServedLine [] line
other-IsServedLine t line k ok = record {
  distinct = ok.distinct;
  stations =
      AllServed-of_Covers (t ∷ line.timers) line.timers line.stations
        (λ r e. ground (arith, k r, e)) ok.stations;
}
