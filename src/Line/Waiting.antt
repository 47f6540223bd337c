-- ===== src/Line/Waiting.antt =====
-- A station of the production line that is looked up, and the operations at it: what they do to
-- the service of the queues.
use mes_copy.Base.{
  ℕ, ◌≡◌, refl, none, some, List, [], ◌∷◌, ◌++◌, map, arith, ◌==◌, ==_iff, All, inl, inr,
  Bool-cases, find, is_some,
}
use mes_copy.Base.Int.{ℤ}
use mes_copy.Line.{Settings, Station, Line, Timer, queue_check, PhysicalState}
use mes_copy.Line.Inventory.{observe_carrier, has_carrier, Overrides}
use mes_copy.Line.Queue.{station_of, at_station_of}
use mes_copy.Line.Served.{
  AllServed, IsServed, IsServedLine, IsServedAfter, IsOther, HasDistinctIds, map-HasDistinctIds,
  map-AllServed, at_id, at_id-config, IsServed-drop, AllServed-drop,
}

-- A station that an operation frees is served by a check of its queue.
pub record IsFreedAfter (s t : Station) : Type 0 where
  pub config : t.config ≡ s.config
  pub kept :
      (ts us : List Timer) → IsServed ts s → IsServed (queue_check s.config.resource_id ∷ us) t

at-IsServedAfter :
    (r : ℕ) (f : Station → Station)
    → ((s : Station) → IsServedAfter s (f s))
    → (s : Station) → IsServedAfter s (at_id r f s)
at-IsServedAfter r f k s = elim (Bool-cases (s.config.resource_id == r)) [
  | inl here ↦ rw here (k s)
  | inr there ↦ rw there (record { config = refl; kept = λ ts ok. ok })
]

module _ (xs : List Timer) where
  pub kept-IsServedLine :
      (r : ℕ) (f : Station → Station) (line : Line)
      → ((s : Station) → IsServedAfter s (f s))
      → IsServedLine xs line
      → IsServedLine xs (at_station_of r f line)
  unfolding at_station_of
  kept-IsServedLine r f line k ok = record {
    distinct =
        map-HasDistinctIds (at_id r f) (at_id-config r f (λ s. (k s).config)) line.stations
          ok.distinct;
    stations =
        map-AllServed (xs ++ line.timers) (at_id r f) line.stations (at-IsServedAfter r f k)
          ok.stations;
  }

  pub observe-IsServedLine :
      (c : Settings) (now : ℕ) (id : ℤ) (p : PhysicalState) (o : Overrides) (line : Line)
      → IsServedLine xs line
      → IsServedLine xs (observe_carrier c now id p o line)
  unfolding observe_carrier
  observe-IsServedLine c now id p o line ok =
      elim (Bool-cases (is_some (find (has_carrier id) line.slots))) [
        | inl there ↦ rw there (record { distinct = ok.distinct; stations = ok.stations })
        | inr missing ↦ rw missing ok
      ]

freed_one :
    (r : ℕ) (ts : List Timer) (f : Station → Station) (s : Station)
    → ((s : Station) → IsFreedAfter s (f s))
    → IsServed (queue_check r ∷ ts) s
    → IsServed (queue_check r ∷ ts) (at_id r f s)
freed_one r ts f s k ok = elim (Bool-cases (s.config.resource_id == r)) [
  | inl here ↦
      let same : s.config.resource_id ≡ r = ground (arith, ==_iff s.config.resource_id r) in
      rw here (rw (← same) ((k s).kept (queue_check r ∷ ts) ts ok))
  | inr there ↦ rw there ok
]

freed_all :
    (r : ℕ) (ts : List Timer) (f : Station → Station) (ss : List Station)
    → ((s : Station) → IsFreedAfter s (f s))
    → AllServed (queue_check r ∷ ts) ss
    → AllServed (queue_check r ∷ ts) (map (at_id r f) ss)
freed_all r ts f [] k h = tt
freed_all r ts f (s ∷ ss) k (h, hs) = (freed_one r ts f s k h, freed_all r ts f ss k hs)

pub freed-IsServedLine :
    (r : ℕ) (f : Station → Station) (line : Line)
    → ((s : Station) → IsFreedAfter s (f s))
    → IsServedLine (queue_check r ∷ []) line
    → IsServedLine (queue_check r ∷ []) (at_station_of r f line)
unfolding at_station_of
freed-IsServedLine r f line k ok = record {
  distinct =
      map-HasDistinctIds (at_id r f) (at_id-config r f (λ s. (k s).config)) line.stations
        ok.distinct;
  stations = freed_all r line.timers f line.stations k ok.stations;
}

-- The first station with an id is the only one, so serving it serves the line.
settle_all :
    (r : ℕ) (ts : List Timer) (f : Station → Station) (s : Station) (ss : List Station)
    → ((t : Station) → (f t).config ≡ t.config)
    → HasDistinctIds ss
    → station_of r ss ≡ some s
    → IsServed ts (f s)
    → AllServed (queue_check r ∷ ts) ss
    → AllServed ts (map (at_id r f) ss)
unfolding station_of
settle_all r ts f s [] k d e done h = tt
settle_all r ts f s (t ∷ ss) k (o, d) e done (h, hs) =
    elim (Bool-cases (t.config.resource_id == r)) [
      | inl here ↦
          let same : t ≡ s = ground arith in
          let id : t.config.resource_id ≡ r = ground (arith, ==_iff t.config.resource_id r) in
          (rw (here, same) done, others_stay r ts f ss (rw (← id) o) hs)
      | inr there ↦ (
        rw there (
            IsServed-drop r ts t (λ equal. ground (arith, equal, ==_iff t.config.resource_id r)) h),
        settle_all r ts f s ss k d (ground arith) done hs,
      )
    ]
  where
    others_stay :
        (r : ℕ) (ts : List Timer) (f : Station → Station) (ss : List Station)
        → All (IsOther r) ss
        → AllServed (queue_check r ∷ ts) ss
        → AllServed ts (map (at_id r f) ss)
    others_stay r ts f [] o h = tt
    others_stay r ts f (t ∷ ss) (o, os) (h, hs) = elim (Bool-cases (t.config.resource_id == r)) [
      | inl here ↦ elim (o (ground (arith, ==_iff t.config.resource_id r))) [ ]
      | inr there ↦ (rw there (IsServed-drop r ts t o h), others_stay r ts f ss os hs)
    ]

pub settle-IsServedLine :
    (r : ℕ) (f : Station → Station) (s : Station) (line : Line)
    → ((t : Station) → (f t).config ≡ t.config)
    → station_of r line.stations ≡ some s
    → IsServed line.timers (f s)
    → IsServedLine (queue_check r ∷ []) line
    → IsServedLine [] (at_station_of r f line)
unfolding at_station_of
settle-IsServedLine r f s line k e done ok = record {
  distinct = map-HasDistinctIds (at_id r f) (at_id-config r f k) line.stations ok.distinct;
  stations = settle_all r line.timers f s line.stations k ok.distinct e done ok.stations;
}

-- Without a station of that id a check of it serves none.
others_of : (r : ℕ) (ss : List Station) → station_of r ss ≡ none → All (IsOther r) ss
unfolding station_of
others_of r [] e = tt
others_of r (s ∷ ss) e =
    (ground (arith, ==_iff s.config.resource_id r), others_of r ss (ground arith))

pub missing-IsServedLine :
    (r : ℕ) (line : Line)
    → station_of r line.stations ≡ none
    → IsServedLine (queue_check r ∷ []) line
    → IsServedLine [] line
missing-IsServedLine r line e ok = record {
  distinct = ok.distinct;
  stations = AllServed-drop r line.timers line.stations (others_of r line.stations e) ok.stations;
}

pub IsServed-found :
    (r : ℕ) (ts : List Timer) (s : Station) (ss : List Station)
    → station_of r ss ≡ some s
    → AllServed ts ss
    → IsServed ts s × (s.config.resource_id ≡ r)
unfolding station_of
IsServed-found r ts s [] e h = cc
IsServed-found r ts s (t ∷ ss) e (h, hs) = elim (Bool-cases (t.config.resource_id == r)) [
  | inl here ↦
      let same : t ≡ s = ground arith in
      (rw (← same) h, rw (← same) (ground (arith, ==_iff t.config.resource_id r)))
  | inr there ↦ IsServed-found r ts s ss (ground arith) hs
]

pub settle_same :
    (r : ℕ) (ts : List Timer) (s : Station) (ss : List Station)
    → HasDistinctIds ss
    → station_of r ss ≡ some s
    → IsServed ts s
    → AllServed (queue_check r ∷ ts) ss
    → AllServed ts ss
unfolding station_of
settle_same r ts s [] d e done h = tt
settle_same r ts s (t ∷ ss) (o, d) e done (h, hs) = elim (Bool-cases (t.config.resource_id == r)) [
  | inl here ↦
      let same : t ≡ s = ground arith in
      let id : t.config.resource_id ≡ r = ground (arith, ==_iff t.config.resource_id r) in
      (rw same done, AllServed-drop r ts ss (rw (← id) o) hs)
  | inr there ↦ (
    IsServed-drop r ts t (λ equal. ground (arith, equal, ==_iff t.config.resource_id r)) h,
    settle_same r ts s ss d (ground arith) done hs,
  )
]
