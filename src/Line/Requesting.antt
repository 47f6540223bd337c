-- ===== src/Line/Requesting.antt =====
-- Requests and the queue of the production line keep every station served.
use mes_copy.Base.{
  ℕ, ◌≡◌, refl, true, Option, none, some, List, [], ◌∷◌, arith, ==_iff, inl, inr, Bool-cases, ltb,
}
use mes_copy.Base.Int.{ℤ}
use mes_copy.Line.{Settings, Station, Carrier, Line, Timer, queue_check, PhysicalState, at_station}
use mes_copy.Line.Inventory.{observe_carrier, Overrides}
use mes_copy.Line.Handling.{is_taken, enqueue, start_request}
use mes_copy.Line.Queue.{
  station_of, set_timer, begin_request, request_at, request_mes_data, carrier_at, at_reader,
  shift_queue, process_queue, process_at, process_next_in_queue,
}
use mes_copy.Line.Served.{IsServed, IsServedLine, AllServed-add}
use mes_copy.Line.Waiting.{
  IsFreedAfter, observe-IsServedLine, freed-IsServedLine, settle-IsServedLine, missing-IsServedLine,
  IsServed-found, settle_same,
}

pub weaken-IsServedLine :
    (t : Timer) (line : Line) → IsServedLine [] line → IsServedLine (t ∷ []) line
weaken-IsServedLine t line ok = record {
  distinct = ok.distinct;
  stations = AllServed-add t line.timers line.stations ok.stations;
}

pub set_timer-IsServedLine :
    (t : Timer) (line : Line) → IsServedLine (t ∷ []) line → IsServedLine [] (set_timer t line)
unfolding set_timer
set_timer-IsServedLine t line ok = record { distinct = ok.distinct; stations = ok.stations }

observe-stations :
    (c : Settings) (now : ℕ) (id : ℤ) (p : PhysicalState) (o : Overrides) (line : Line)
    → (observe_carrier c now id p o line).stations ≡ line.stations
unfolding observe_carrier
observe-stations c now id p o line = ground arith

start_request-IsServed :
    (ref : ℕ) (carrier : Carrier) (ts : List Timer) (s : Station)
    → IsServed ts (start_request ref carrier s)
unfolding start_request
start_request-IsServed ref carrier ts s = ground arith

start_request-config :
    (ref : ℕ) (carrier : Carrier) (s : Station) → (start_request ref carrier s).config ≡ s.config
unfolding start_request
start_request-config ref carrier s = refl

begin_request-IsServedLine :
    (c : Settings) (now r ref : ℕ) (s : Station) (line : Line)
    → station_of r line.stations ≡ some s
    → IsServedLine (queue_check r ∷ []) line
    → IsServedLine [] (begin_request c now r ref line)
unfolding begin_request
begin_request-IsServedLine c now r ref s line e ok =
    settle-IsServedLine r (start_request ref (carrier_at ref line)) s _
      (start_request-config ref (carrier_at ref line))
      (rw (observe-stations c now (carrier_at ref line).carrier_id at_station (at_reader r) line) e)
      (start_request-IsServed ref (carrier_at ref line) _ s)
      (observe-IsServedLine (queue_check r ∷ []) c now (carrier_at ref line).carrier_id at_station
        (at_reader r) line ok)

enqueue-config : (ref : ℕ) (s : Station) → (enqueue ref s).config ≡ s.config
unfolding enqueue
enqueue-config ref s = refl

enqueue-taken :
    (ref : ℕ) (ts xs : List Timer) (s : Station)
    → is_taken s ≡ true
    → IsServed xs s
    → IsServed ts (enqueue ref s)
unfolding enqueue
enqueue-taken ref ts xs s e ok = record {
  busy = ok.busy;
  held = ok.held;
  served = ground (arith, ok.busy, e);
}

enqueue-IsFreedAfter : (ref : ℕ) (s : Station) → IsFreedAfter s (enqueue ref s)
unfolding enqueue
enqueue-IsFreedAfter ref s = record {
  config = refl;
  kept = λ ts us ok. record {
    busy = ok.busy;
    held = ok.held;
    served = ground (arith, ==_iff s.config.resource_id s.config.resource_id);
  };
}

-- A request serves its station, whatever it does with the carrier.
request_at-IsServedLine :
    (c : Settings) (now r ref : ℕ) (found : Option Station) (line : Line)
    → station_of r line.stations ≡ found
    → IsServedLine (queue_check r ∷ []) line
    → IsServedLine [] (request_at c now r ref found line)
unfolding request_at
request_at-IsServedLine c now r ref none line e ok = missing-IsServedLine r line e ok
request_at-IsServedLine c now r ref (some s) line e ok = elim (Bool-cases (is_taken s)) [
  | inl taken ↦ rw taken (
      settle-IsServedLine r (enqueue ref) s line (enqueue-config ref) e
        (enqueue-taken ref line.timers (queue_check r ∷ line.timers) s taken
          (IsServed-found r _ s line.stations e ok.stations).0)
        ok)
  | inr free ↦ elim (Bool-cases (ltb now s.x_start_blocked_until)) [
    | inl blocked ↦
        rw (free, blocked)
          (set_timer-IsServedLine (queue_check r) _
            (freed-IsServedLine r (enqueue ref) line (enqueue-IsFreedAfter ref) ok))
    | inr unblocked ↦ rw (free, unblocked) (begin_request-IsServedLine c now r ref s line e ok)
  ]
]

pub request_mes_data-IsServedLine :
    (c : Settings) (now r ref : ℕ) (line : Line)
    → IsServedLine (queue_check r ∷ []) line
    → IsServedLine [] (request_mes_data c now r ref line)
unfolding request_mes_data
request_mes_data-IsServedLine c now r ref line ok =
    request_at-IsServedLine c now r ref (station_of r line.stations) line refl ok

shift_queue-IsFreedAfter : (rest : List ℕ) (s : Station) → IsFreedAfter s (shift_queue rest s)
unfolding shift_queue
shift_queue-IsFreedAfter rest s = record {
  config = refl;
  kept = λ ts us ok. record {
    busy = ok.busy;
    held = ok.held;
    served = ground (arith, ==_iff s.config.resource_id s.config.resource_id);
  };
}

-- A station that is found and served by the timers that are set needs no check of its queue.
settled-IsServedLine :
    (r : ℕ) (s : Station) (line : Line)
    → station_of r line.stations ≡ some s
    → IsServed line.timers s
    → IsServedLine (queue_check r ∷ []) line
    → IsServedLine [] line
settled-IsServedLine r s line e done ok = record {
  distinct = ok.distinct;
  stations = settle_same r line.timers s line.stations ok.distinct e done ok.stations;
}

process_queue-IsServedLine :
    (c : Settings) (now r : ℕ) (queue : List ℕ) (s : Station) (line : Line)
    → station_of r line.stations ≡ some s
    → s.waiting_queue ≡ queue
    → IsServedLine (queue_check r ∷ []) line
    → IsServedLine [] (process_queue c now r queue s line)
unfolding process_queue
process_queue-IsServedLine c now r [] s line e q ok =
    let (served, id) =
      IsServed-found r (queue_check r ∷ line.timers) s line.stations e ok.stations in
    settled-IsServedLine r s line e
      (record { busy = served.busy; held = served.held; served = ground (arith, q) }) ok
process_queue-IsServedLine c now r (next ∷ rest) s line e q ok = elim (Bool-cases (is_taken s)) [
  | inl taken ↦
      let (served, id) =
        IsServed-found r (queue_check r ∷ line.timers) s line.stations e ok.stations in
      rw taken (
        settled-IsServedLine r s line e
          (record {
            busy = served.busy;
            held = served.held;
            served = ground (arith, taken, served.busy);
          })
          ok)
  | inr free ↦ elim (Bool-cases (ltb now s.x_start_blocked_until)) [
    | inl blocked ↦ rw (free, blocked) (set_timer-IsServedLine (queue_check r) line ok)
    | inr unblocked ↦
        rw (free, unblocked)
          (request_mes_data-IsServedLine c now r next _
            (freed-IsServedLine r (shift_queue rest) line (shift_queue-IsFreedAfter rest) ok))
  ]
]

process_at-IsServedLine :
    (c : Settings) (now r : ℕ) (found : Option Station) (line : Line)
    → station_of r line.stations ≡ found
    → IsServedLine (queue_check r ∷ []) line
    → IsServedLine [] (process_at c now r found line)
unfolding process_at
process_at-IsServedLine c now r none line e ok = missing-IsServedLine r line e ok
process_at-IsServedLine c now r (some s) line e ok =
    process_queue-IsServedLine c now r s.waiting_queue s line e refl ok

-- A check of a queue may be taken off the timers.
pub process_next_in_queue-IsServedLine :
    (c : Settings) (now r : ℕ) (line : Line)
    → IsServedLine (queue_check r ∷ []) line
    → IsServedLine [] (process_next_in_queue c now r line)
unfolding process_next_in_queue
process_next_in_queue-IsServedLine c now r line ok =
    process_at-IsServedLine c now r (station_of r line.stations) line refl ok
