-- ===== src/Press/Search.antt =====
-- Which assignment the single-station server finds among the carriers of the MES.
use mes_copy.Base.{
  String, ◌≡◌, refl, ◌⊎◌, true, false, Option, none, some, List, [], ◌∷◌, ◌++◌, inl, inr,
  Bool-cases, Option-cases, includes, All,
}
use mes_copy.Press.{Press, Assignment}
use mes_copy.Press.Mes.{
  Answers, Carrier, RouteStep, Candidate, Outcome, done, thrown, candidates, signature_of,
  route_leads_here, assignment_of, search_candidates, search_carriers, find_next_assignment,
}

-- The candidate was requested before, or its order's route has its current step elsewhere.
abbrev pub IsSkipped : Answers → List String → Candidate → Type 0
IsSkipped ans seen x =
    (includes (signature_of x) seen ≡ true)
    ⊎ ((route : List RouteStep) × (ans.route x.order ≡ some route)
        × (route_leads_here x route ≡ false))

-- The candidate that the search stops at: the first that is not skipped.
pub record IsFirst (ans : Answers) (seen : List String) (xs : List Candidate) (x : Candidate)
    : Type 0 where
  pub before : List Candidate
  pub after : List Candidate
  pub split : xs ≡ before ++ x ∷ after
  pub skipped : All (IsSkipped ans seen) before
  pub fresh : includes (signature_of x) seen ≡ false

-- What each result of the search says of the candidates.
abbrev pub Explains : Answers → List String → List Candidate → Outcome (Option Assignment) → Type 0
Explains ans seen xs (done none) = All (IsSkipped ans seen) xs
Explains ans seen xs (done (some a)) =
    (x : Candidate) × (route : List RouteStep) × IsFirst ans seen xs x
    × (ans.route x.order ≡ some route)
    × (route_leads_here x route ≡ true)
    × (a ≡ assignment_of x)
Explains ans seen xs thrown = (x : Candidate) × IsFirst ans seen xs x × (ans.route x.order ≡ none)

module _ (ans : Answers) (seen : List String) where
  IsFirst-cons :
      {x y : Candidate} {xs : List Candidate}
      → IsSkipped ans seen x
      → IsFirst ans seen xs y
      → IsFirst ans seen (x ∷ xs) y
  IsFirst-cons {x} skip f = record {
    before = x ∷ f.before;
    after = f.after;
    split = cc f.split;
    skipped = (skip, f.skipped);
    fresh = f.fresh;
  }

  IsFirst-head :
      (x : Candidate) (xs : List Candidate)
      → includes (signature_of x) seen ≡ false
      → IsFirst ans seen (x ∷ xs) x
  IsFirst-head x xs new = record {
    before = [];
    after = xs;
    split = refl;
    skipped = tt;
    fresh = new;
  }

  Explains-cons :
      (x : Candidate) (xs : List Candidate) (r : Outcome (Option Assignment))
      → IsSkipped ans seen x
      → Explains ans seen xs r
      → Explains ans seen (x ∷ xs) r
  Explains-cons x xs (done none) skip h = (skip, h)
  Explains-cons x xs (done (some a)) skip (y, route, first, found, here, same) =
      (y, route, IsFirst-cons skip first, found, here, same)
  Explains-cons x xs thrown skip (y, first, lost) = (y, IsFirst-cons skip first, lost)

  pub search_explained :
      (xs : List Candidate) → Explains ans seen xs (search_candidates ans seen xs)
  unfolding search_candidates
  search_explained [] = tt
  search_explained (x ∷ xs) = elim (Bool-cases (includes (signature_of x) seen)) [
    | inl old ↦ rw old (Explains-cons x xs _ (inl old) (search_explained xs))
    | inr new ↦ elim (Option-cases (ans.route x.order)) [
      | inl lost ↦ rw (new, search_candidates, lost) (x, IsFirst-head x xs new, lost)
      | inr (route, found) ↦ elim (Bool-cases (route_leads_here x route)) [
        | inl here ↦
            rw (new, search_candidates, found, here)
              (x, route, IsFirst-head x xs new, found, here, refl)
        | inr other ↦
            rw (new, search_candidates, found, other)
              (Explains-cons x xs _ (inr (route, found, other)) (search_explained xs))
      ]
    ]
  ]

-- With the carriers that the MES returned, the search skips the candidates that were requested
-- before or whose current step is not here. Its result is the assignment of the first candidate
-- left, if the route of its order leads here; an error, if that route cannot be read; and none,
-- if every candidate is skipped.
pub find_next_assignment_lem :
    (ans : Answers) (s : Press) (carriers : List Carrier)
    → ans.carriers ≡ some carriers
    → Explains ans s.requested_assignments (candidates carriers) (find_next_assignment ans s)
unfolding find_next_assignment
find_next_assignment_lem ans s carriers e =
    simp (e, search_carriers) (search_explained ans s.requested_assignments (candidates carriers))
