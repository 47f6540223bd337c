-- ===== src/Press/Mes.antt =====
-- How the single-station server finds its next assignment at the MES and requests it.
-- The MES is outside the server: a poll is given what the requests return, `none` for a request
-- that throws. The reads of `requestedAssignments` between the requests see one value, because
-- only `requestAssignment` adds to it and `apiPollRunning` admits one poll at a time.
use mes_copy.Base.{
  ℕ, String, Bool, true, false, not, ◌&&◌, ◌||◌, Option, none, some, List, [], ◌∷◌, ◌==◌, str_eq,
  if◌then◌else◌, is_some, find, includes, show, ◌<>◌,
}
use mes_copy.Base.Int.{pos}
use mes_copy.Press.{Press, Assignment, own_resource}

pub record Carrier : Type 0 where
  pub order_id : Option String
  pub carrier_number : ℕ
  pub status : String
  pub current_step_no : Option ℕ

pub record RouteStep : Type 0 where
  pub step_no : ℕ
  pub resource_id : Option ℕ

-- What `mesGet` returns for the paths /carriers and /orders/<id>/route.
pub record Answers : Type 0 where
  pub carriers : Option (List Carrier)
  pub route : String → Option (List RouteStep)

-- The result of code that may throw.
pub data Outcome (A : Type 0) : Type 0 where
  done : A → Outcome A
  thrown : Outcome A

-- A carrier that passes the filter, with its order and step.
pub record Candidate : Type 0 where
  pub order : String
  pub number : ℕ
  pub step : ℕ

abbrev pub is_due : String → Bool
is_due status = str_eq status "assigned" || str_eq status "in_process"

-- `carrier.order_id && … && carrier.current_step_no != null`; an empty order id is false.
candidate_of : Carrier → Option String → Option ℕ → Option Candidate
candidate_of c (some order) (some step) =
    if not (str_eq order "") && is_due c.status
    then some (record { order = order; number = c.carrier_number; step = step })
    else none
candidate_of c _ _ = none

prepend : Option Candidate → List Candidate → List Candidate
prepend none rest = rest
prepend (some x) rest = x ∷ rest

unfoldable pub candidates : List Carrier → List Candidate
unfolding candidate_of prepend
candidates [] = []
candidates (c ∷ cs) = prepend (candidate_of c c.order_id c.current_step_no) (candidates cs)

unfoldable pub signature_of : Candidate → String
unfolding show
signature_of x = x.order <> ":" <> show x.number <> ":" <> show x.step

-- `step?.resource_id === resourceId` for the route's entry of the current step.
abbrev resource_is : Option ℕ → ℕ → Bool
resource_is none r = false
resource_is (some n) r = n == r

abbrev step_is_here : Option RouteStep → Bool
step_is_here none = false
step_is_here (some entry) = resource_is entry.resource_id own_resource

abbrev pub assignment_of : Candidate → Assignment
assignment_of x = record {
  signature = signature_of x;
  order_id = x.order;
  carrier_number = x.number;
  step_number = x.step;
}

unfoldable pub route_leads_here : Candidate → List RouteStep → Bool
route_leads_here x route = step_is_here (find (λ entry. entry.step_no == x.step) route)

-- The loop over the candidates.
unfoldable pub search_candidates :
    Answers → List String → List Candidate → Outcome (Option Assignment)
search_candidates ans seen [] = done none
search_candidates ans seen (x ∷ xs) =
    let rest = search_candidates ans seen xs in
    if includes (signature_of x) seen then rest else elim (ans.route x.order) [
      | none ↦ thrown
      | some route ↦ if route_leads_here x route then done (some (assignment_of x)) else rest
    ]

unfoldable pub search_carriers :
    Answers → List String → Option (List Carrier) → Outcome (Option Assignment)
search_carriers ans seen none = thrown
search_carriers ans seen (some carriers) = search_candidates ans seen (candidates carriers)

unfoldable pub find_next_assignment : Answers → Press → Outcome (Option Assignment)
unfolding search_carriers
find_next_assignment ans s = search_carriers ans s.requested_assignments ans.carriers

unfoldable pub request_assignment : Assignment → Press → Press
request_assignment a s = record s {
  requested_assignments = a.signature ∷ s.requested_assignments;
  current_assignment = some a;
  response_handled = false;
  job = record {
    carrier_number = a.carrier_number;
    resource_number = own_resource;
    request = true;
    busy = false;
    accepted = false;
    rejected = false;
    order_number = "";
    part_number = "";
    operation_number = 0;
    step_number = pos 0;
    next_resource_number = 0;
    result_code = 0;
  };
  process = record s.process { completed = false };
}

-- `pollMesAssignments` up to its first request, and from the last answer on. What it throws is
-- caught and logged.
unfoldable pub begin_poll : Press → Press
begin_poll s =
    if s.api_poll_running || is_some s.current_assignment || s.job.request || s.process.active
    then s
    else record s { api_poll_running = true }

unfoldable pub end_with : Outcome (Option Assignment) → Press → Press
unfolding request_assignment
end_with thrown s = record s { api_poll_running = false }
end_with (done none) s = record s { api_poll_running = false }
end_with (done (some a)) s = record (request_assignment a s) { api_poll_running = false }

-- What a run of the server computes with.
unfoldable pub runs : Unit {0}
unfolding find_next_assignment search_candidates candidates route_leads_here signature_of
runs = tt

unfoldable pub end_poll : Answers → Press → Press
unfolding end_with
end_poll ans s = end_with (find_next_assignment ans s) s
