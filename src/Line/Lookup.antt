-- ===== src/Line/Lookup.antt =====
-- A station of the production line and a carrier object, after they were changed.
use mes_copy.Base.{
  ℕ, zero, suc, ◌≡◌, refl, ap, false, ==_iff, some, List, [], ◌∷◌, map, arith, ◌==◌, inl, inr,
  Bool-cases, is_some, get_elem?, modify, if◌then◌else◌,
}
use mes_copy.Line.{Station, Carrier, Line}
use mes_copy.Line.Queue.{station_of, at_station_of, carrier_at}

find-at :
    (r : ℕ) (f : Station → Station) (s : Station) (ss : List Station)
    → ((t : Station) → (f t).config ≡ t.config)
    → station_of r ss ≡ some s
    → station_of r (map (λ t. if t.config.resource_id == r then f t else t) ss) ≡ some (f s)
unfolding station_of
find-at r f s [] k e = cc
find-at r f s (t ∷ ss) k e = elim (Bool-cases (t.config.resource_id == r)) [
  | inl here ↦
      let same : t ≡ s = ground arith in
      let id : (f t).config.resource_id ≡ t.config.resource_id = ap (λ x. x.resource_id) (k t) in
      simp (here, id) (ap (λ x. some (f x)) same)
  | inr there ↦ rw there (rw there (find-at r f s ss k (ground arith)))
]

-- The station found is the one that was changed.
pub station_of-at_station_of :
    (r : ℕ) (f : Station → Station) (s : Station) (line : Line)
    → ((t : Station) → (f t).config ≡ t.config)
    → station_of r line.stations ≡ some s
    → station_of r (at_station_of r f line).stations ≡ some (f s)
unfolding at_station_of
station_of-at_station_of r f s line k e = find-at r f s line.stations k e

elsewhere :
    (r q : ℕ) (f : Station → Station) (ss : List Station)
    → ((t : Station) → (f t).config ≡ t.config)
    → (q == r) ≡ false
    → station_of q (map (λ t. if t.config.resource_id == r then f t else t) ss) ≡ station_of q ss
unfolding station_of
elsewhere r q f [] k other = refl
elsewhere r q f (t ∷ ss) k other = elim (Bool-cases (t.config.resource_id == r)) [
  | inl here ↦
      let id : (f t).config.resource_id ≡ t.config.resource_id = ap (λ x. x.resource_id) (k t) in
      let miss : (t.config.resource_id == q) ≡ false =
        ground (arith, ==_iff t.config.resource_id r, ==_iff t.config.resource_id q, ==_iff q r) in
      simp (here, id, miss) (elsewhere r q f ss k other)
  | inr there ↦ elim (Bool-cases (t.config.resource_id == q)) [
    | inl hit ↦ simp (there, hit) refl
    | inr miss ↦ simp (there, miss) (elsewhere r q f ss k other)
  ]
]

-- No other station was changed.
pub station_of-elsewhere :
    (r q : ℕ) (f : Station → Station) (line : Line)
    → ((t : Station) → (f t).config ≡ t.config)
    → (q == r) ≡ false
    → station_of q (at_station_of r f line).stations ≡ station_of q line.stations
unfolding at_station_of
station_of-elsewhere r q f line k other = elsewhere r q f line.stations k other

pub get-modify :
    (n : ℕ) (f : Carrier → Carrier) (x : Carrier) (xs : List Carrier)
    → get_elem? xs n ≡ some x
    → get_elem? (modify n f xs) n ≡ some (f x)
get-modify n f x [] e = cc
get-modify zero f x (y ∷ ys) e = let same : y ≡ x = ground arith in rw same refl
get-modify (suc n) f x (y ∷ ys) e = get-modify n f x ys e

pub carrier_at-modify :
    (ref : ℕ) (f : Carrier → Carrier) (x : Carrier) (line : Line)
    → get_elem? line.carriers ref ≡ some x
    → carrier_at ref (record line { carriers = modify ref f line.carriers }) ≡ f x
unfolding carrier_at
carrier_at-modify ref f x line e = simp (get-modify ref f x line.carriers e) refl

pub is_some-at :
    (r q : ℕ) (f : Station → Station) (ss : List Station)
    → ((t : Station) → (f t).config ≡ t.config)
    → is_some (station_of q (map (λ t. if t.config.resource_id == r then f t else t) ss))
      ≡ is_some (station_of q ss)
unfolding station_of
is_some-at r q f [] k = refl
is_some-at r q f (t ∷ ss) k = elim (Bool-cases (t.config.resource_id == r)) [
  | inl here ↦
      let id : (f t).config.resource_id ≡ t.config.resource_id = ap (λ x. x.resource_id) (k t) in
      elim (Bool-cases (t.config.resource_id == q)) [
        | inl hit ↦ simp (here, id, hit) refl
        | inr miss ↦ simp (here, id, miss) (is_some-at r q f ss k)
      ]
  | inr there ↦ elim (Bool-cases (t.config.resource_id == q)) [
    | inl hit ↦ simp (there, hit) refl
    | inr miss ↦ simp (there, miss) (is_some-at r q f ss k)
  ]
]
