-- ===== src/Profile/Hierarchy.antt =====
-- The walk up the hierarchy of a profile ends, and what its result says of the parents.
use mes_copy.Base.{
  ℕ, zero, suc, ◌≤◌, ◌<◌, ◌≡◌, refl, Bool, true, false, not, Option, none, some, List, [], ◌∷◌,
  arith, ==_iff, length, count, count-le-length, is_some, inl, inr, Bool-cases, Option-cases,
}
use mes_copy.Profile.{Station}
use mes_copy.Profile.Validation.{
  includes_number, by_resource, parent_at, parent_of, number, climb, finds_cycle,
}

-- The stations that were not visited yet.
abbrev is_new : List ℕ → Station → Bool
is_new visited s = not (includes_number (number s.resource_id) visited)

abbrev left : List ℕ → List Station → ℕ
left visited ss = count (is_new visited) ss

left-le : (n : ℕ) (visited : List ℕ) (ss : List Station) → left (n ∷ visited) ss ≤ left visited ss
left-le n visited [] = omega arith
left-le n visited (s ∷ ss) = ground (arith, left-le n visited ss)

-- Visiting a station of the list that is new leaves fewer.
left-lt :
    (r : ℕ) (p : Station) (visited : List ℕ) (ss : List Station)
    → by_resource r ss ≡ some p
    → includes_number (number p.resource_id) visited ≡ false
    → left (number p.resource_id ∷ visited) ss < left visited ss
unfolding by_resource
left-lt r p visited [] e new = cc
left-lt r p visited (s ∷ ss) e new = elim (Option-cases (by_resource r ss)) [
  | inl missing ↦
      let same : s ≡ p = ground (arith, missing) in
      rw same (
        ground (
          arith,
          new,
          left-le (number p.resource_id) visited ss,
          ==_iff (number p.resource_id) (number p.resource_id),
        ))
  | inr (q, found) ↦
      let same : q ≡ p = ground (arith, found) in
      ground (arith, left-lt r p visited ss (rw (← same) found) new)
]

climb-ends :
    (fuel : ℕ) (ss : List Station) (visited : List ℕ) (q : Option ℕ)
    → left visited ss < fuel
    → is_some (climb fuel ss visited (parent_at q ss)) ≡ true
unfolding climb parent_at parent_of
climb-ends zero ss visited q lt = ground (arith, lt)
climb-ends (suc fuel) ss visited none lt = refl
climb-ends (suc fuel) ss visited (some r) lt = elim (Option-cases (by_resource r ss)) [
  | inl missing ↦ rw missing refl
  | inr (p, found) ↦ elim (Bool-cases (includes_number (number p.resource_id) visited)) [
    | inl again ↦ simp (found, again) refl
    | inr new ↦
        simp (found, new)
          (climb-ends fuel ss (number p.resource_id ∷ visited) p.parent_resource_id
            (omega (arith, lt, left-lt r p visited ss found new)))
  ]
]

-- The walk up from a station always ends with the fuel that the number of the stations gives: it
-- finds a cycle or it does not.
pub finds_cycle-ends :
    (ss : List Station) (r : ℕ) (s : Station) → is_some (finds_cycle ss r s) ≡ true
unfolding finds_cycle parent_of
finds_cycle-ends ss r s =
    climb-ends (suc (length ss)) ss (r ∷ []) s.parent_resource_id
      (omega (arith, count-le-length (is_new (r ∷ [])) ss))

-- The station a number of steps above.
unfoldable pub ancestor : ℕ → List Station → Option Station → Option Station
ancestor zero ss p = p
ancestor (suc k) ss none = none
ancestor (suc k) ss (some p) = ancestor k ss (parent_of p ss)

-- The parents come to an end.
abbrev pub HasRoot : List Station → Option Station → Type 0
HasRoot ss p = (k : ℕ) × (ancestor k ss p ≡ none)

pub climb-HasRoot :
    (fuel : ℕ) (ss : List Station) (visited : List ℕ) (p : Option Station)
    → climb fuel ss visited p ≡ some false
    → HasRoot ss p
unfolding climb ancestor
climb-HasRoot zero ss visited p e = cc
climb-HasRoot (suc fuel) ss visited none e = (0, refl)
climb-HasRoot (suc fuel) ss visited (some p) e =
    elim (Bool-cases (includes_number (number p.resource_id) visited)) [
      | inl again ↦ elim (impossible again e) [ ]
      | inr new ↦
          let (k, end) =
            climb-HasRoot fuel ss (number p.resource_id ∷ visited) (parent_of p ss)
              (continued new e) in
          (suc k, end)
    ]
  where
    impossible :
        includes_number (number p.resource_id) visited ≡ true
        → climb (suc fuel) ss visited (some p) ≡ some false
        → ⊥
    impossible again e = ground (arith, again, e)

    continued :
        includes_number (number p.resource_id) visited ≡ false
        → climb (suc fuel) ss visited (some p) ≡ some false
        → climb fuel ss (number p.resource_id ∷ visited) (parent_of p ss) ≡ some false
    continued new e = ground (arith, new, e)
