-- ===== src/Line/Served.antt =====
-- The handshake of a station of the production line and the service of its queue: what it means
-- for one station and for the line, and what keeps it.
use mes_copy.Base.{
  ℕ, String, ◌≡◌, ◌≢◌, refl, Bool, true, false, ◌||◌, Option, none, some, List, [], ◌∷◌, ◌++◌, map,
  arith, ◌==◌, ==_iff, if◌then◌else◌, All, inl, inr, Bool-cases, Option-cases,
}
use mes_copy.OpcUa.{Value, fits, Variable, set_value, lookup_node}
use mes_copy.OpcUa.Laws.{lookup_node-All, Keeps, set_value-keeps}
use mes_copy.Line.{
  Station, Line, Timer, queue_check, request, completion, pulse_end, storing, release,
  first_release,
}
use mes_copy.Line.Handling.{is_held}
use mes_copy.Line.Nodes.{station_variables}
use mes_copy.Line.Run.{write_to, write_station}

-- A timer of `processNextInQueue` for the station is set.
abbrev pub is_check : ℕ → Timer → Bool
is_check r (queue_check x) = x == r
is_check r (request _ _) = false
is_check r (completion _) = false
is_check r (pulse_end _) = false
is_check r (storing _) = false
is_check r (release _) = false
is_check r (first_release _) = false

abbrev pub is_checked : ℕ → List Timer → Bool
is_checked r [] = false
is_checked r (t ∷ ts) = is_check r t || is_checked r ts

abbrev pub is_idle : List ℕ → Bool
is_idle [] = true
is_idle (_ ∷ _) = false

-- A station asks the MES exactly while it is busy and has a carrier; and if carriers wait, it asks
-- or a timer will look after the queue.
pub record IsServed (ts : List Timer) (s : Station) : Type 0 where
  pub busy : s.state.x_busy ≡ s.query.x_start
  pub held : is_held s.current_carrier ≡ s.query.x_start
  pub served :
      (is_idle s.waiting_queue || s.query.x_start || is_checked s.config.resource_id ts) ≡ true

abbrev pub AllServed : List Timer → List Station → Type 0
AllServed ts ss = All (IsServed ts) ss

abbrev pub IsOther : ℕ → Station → Type 0
IsOther r s = s.config.resource_id ≢ r

abbrev pub HasDistinctIds : List Station → Type 0
HasDistinctIds [] = Unit
HasDistinctIds (s ∷ ss) = All (IsOther s.config.resource_id) ss × HasDistinctIds ss

-- The line is served if the timers `xs` are set as well.
pub record IsServedLine (xs : List Timer) (line : Line) : Type 0 where
  pub distinct : HasDistinctIds line.stations
  pub stations : AllServed (xs ++ line.timers) line.stations

pub record IsSameHandshake (s t : Station) : Type 0 where
  pub config : t.config ≡ s.config
  pub busy : t.state.x_busy ≡ s.state.x_busy
  pub start : t.query.x_start ≡ s.query.x_start
  pub carrier : t.current_carrier ≡ s.current_carrier
  pub queue : t.waiting_queue ≡ s.waiting_queue

IsSameHandshake-refl : (s : Station) → IsSameHandshake s s
IsSameHandshake-refl s = ground arith

variables_keep : (r : ℕ) → All (Keeps IsSameHandshake) (station_variables r)
unfolding station_variables
variables_keep r = ground arith

write_to-same :
    (found : Option (Variable Station)) (v : Value) (s : Station)
    → ((var : Variable Station) → found ≡ some var → Keeps IsSameHandshake var)
    → IsSameHandshake s (write_to found v s)
unfolding write_to
write_to-same none v s k = IsSameHandshake-refl s
write_to-same (some var) v s k = elim (Bool-cases (fits var.data_type v)) [
  | inl ok ↦ elim (Option-cases (set_value var v s)) [
    | inl refused ↦ rw (ok, refused) (IsSameHandshake-refl s)
    | inr (t, set) ↦ rw (ok, set) (set_value-keeps IsSameHandshake var v s t (k var refl) set)
  ]
  | inr bad ↦ rw bad (IsSameHandshake-refl s)
]

-- A client's write leaves the handshake and the queue of every station as they are.
pub write_station-same :
    (id : String) (v : Value) (s : Station) → IsSameHandshake s (write_station id v s)
unfolding write_station
write_station-same id v s =
    write_to-same (lookup_node id (station_variables s.config.resource_id)) v s (λ var e.
      lookup_node-All (Keeps IsSameHandshake) id (station_variables s.config.resource_id)
        {var = var} (variables_keep s.config.resource_id) e)

-- What an operation does that leaves a station served by the timers that are set.
pub record IsServedAfter (s t : Station) : Type 0 where
  pub config : t.config ≡ s.config
  pub kept : (ts : List Timer) → IsServed ts s → IsServed ts t

pub IsServedAfter-of_same : (s t : Station) → IsSameHandshake s t → IsServedAfter s t
IsServedAfter-of_same s t same = record {
  config = same.config;
  kept = λ ts ok. record {
    busy = simp (same.busy, same.start) ok.busy;
    held = simp (same.carrier, same.start) ok.held;
    served = simp (same.queue, same.start, same.config) ok.served;
  };
}

module _ (f : Station → Station) (k : (s : Station) → (f s).config ≡ s.config) where
  map-IsOther : (r : ℕ) (ss : List Station) → All (IsOther r) ss → All (IsOther r) (map f ss)
  map-IsOther r [] h = tt
  map-IsOther r (s ∷ ss) (h, hs) = (simp (k s) h, map-IsOther r ss hs)

  pub map-HasDistinctIds : (ss : List Station) → HasDistinctIds ss → HasDistinctIds (map f ss)
  map-HasDistinctIds [] h = tt
  map-HasDistinctIds (s ∷ ss) (h, hs) =
      (simp (k s) (map-IsOther s.config.resource_id ss h), map-HasDistinctIds ss hs)

pub map-AllServed :
    (ts : List Timer) (f : Station → Station) (ss : List Station)
    → ((s : Station) → IsServedAfter s (f s))
    → AllServed ts ss
    → AllServed ts (map f ss)
map-AllServed ts f [] k h = tt
map-AllServed ts f (s ∷ ss) k (h, hs) = ((k s).kept ts h, map-AllServed ts f ss k hs)

abbrev pub at_id : ℕ → (Station → Station) → Station → Station
at_id r f s = if s.config.resource_id == r then f s else s

pub at_id-config :
    (r : ℕ) (f : Station → Station)
    → ((s : Station) → (f s).config ≡ s.config)
    → (s : Station) → (at_id r f s).config ≡ s.config
at_id-config r f k s = elim (Bool-cases (s.config.resource_id == r)) [
  | inl here ↦ rw here (k s)
  | inr there ↦ rw there refl
]

-- A station with another id needs no check of this one.
pub IsServed-drop :
    (r : ℕ) (ts : List Timer) (s : Station)
    → IsOther r s
    → IsServed (queue_check r ∷ ts) s
    → IsServed ts s
IsServed-drop r ts s other ok = elim (Bool-cases (r == s.config.resource_id)) [
  | inl same ↦
      let equal : s.config.resource_id ≡ r = ground (arith, ==_iff r s.config.resource_id) in
      elim (other equal) [ ]
  | inr miss ↦ record { busy = ok.busy; held = ok.held; served = ground (arith, ok.served, miss) }
]

pub IsServed-add : (t : Timer) (ts : List Timer) (s : Station) → IsServed ts s → IsServed (t ∷ ts) s
IsServed-add t ts s ok = record {
  busy = ok.busy;
  held = ok.held;
  served = ground (arith, ok.served);
}

pub AllServed-drop :
    (r : ℕ) (ts : List Timer) (ss : List Station)
    → All (IsOther r) ss
    → AllServed (queue_check r ∷ ts) ss
    → AllServed ts ss
AllServed-drop r ts [] others h = tt
AllServed-drop r ts (s ∷ ss) (o, os) (h, hs) =
    (IsServed-drop r ts s o h, AllServed-drop r ts ss os hs)

pub AllServed-add :
    (t : Timer) (ts : List Timer) (ss : List Station) → AllServed ts ss → AllServed (t ∷ ts) ss
AllServed-add t ts [] h = tt
AllServed-add t ts (s ∷ ss) (h, hs) = (IsServed-add t ts s h, AllServed-add t ts ss hs)
