-- ===== src/Line/Fetch.antt =====
-- The plans that the production line makes of the answers of the MES: `fetchCarriersFromMes`.
use mes_copy.Base.{
  ℕ, ◌+◌, ◌*◌, String, Bool, false, not, ◌&&◌, Option, none, some, List, [], ◌∷◌, find,
  if◌then◌else◌, ◌==◌, str_eq,
}
use mes_copy.Base.Int.{pos}
use mes_copy.Press.Mes.{RouteStep, is_due}
use mes_copy.Line.{Settings, Carrier}

-- What the MES returns for the paths /carriers and /orders/<id>/route.
pub record ApiCarrier : Type 0 where
  pub order_id : Option String
  pub carrier_number : ℕ
  pub status : String
  pub current_step_no : Option ℕ
  pub current_resource_id : Option ℕ

pub record Answers : Type 0 where
  pub carriers : Option (List ApiCarrier)
  pub route : String → Option (List RouteStep)

abbrev is_step : Option ℕ → RouteStep → Bool
is_step none entry = false
is_step (some n) entry = entry.step_no == n

-- `value || fallback` for a number that may be absent.
abbrev number_or : ℕ → Option ℕ → ℕ
number_or fallback none = fallback
number_or fallback (some n) = if n == 0 then fallback else n

abbrev step_resource : Option RouteStep → ℕ
step_resource none = 1
step_resource (some entry) = number_or 1 entry.resource_id

unfoldable pub current_target_resource_id : ApiCarrier → List RouteStep → ℕ
current_target_resource_id carrier route =
    number_or (step_resource (find (is_step carrier.current_step_no) route))
      carrier.current_resource_id

-- An element of `activeCarriers`, with its order.
pub record Active : Type 0 where
  pub carrier : ApiCarrier
  pub order : String

unfoldable pub add_active : ApiCarrier → Option String → List Active → List Active
add_active carrier none rest = rest
add_active carrier (some order) rest =
    if not (str_eq order "") && is_due carrier.status
    then record { carrier = carrier; order = order } ∷ rest
    else rest

unfoldable pub active_carriers : List ApiCarrier → List Active
unfolding add_active
active_carriers [] = []
active_carriers (carrier ∷ rest) = add_active carrier carrier.order_id (active_carriers rest)

unfoldable pub plan_of : ApiCarrier → List RouteStep → ℕ → Carrier
unfolding current_target_resource_id
plan_of carrier route i = record {
  carrier_id = pos carrier.carrier_number;
  target_resource_id = current_target_resource_id carrier route;
  route_resource_id = current_target_resource_id carrier route;
  release_delay = (i + 1) * 2000;
}

unfoldable pub add_plan :
    ApiCarrier → ℕ → Option (List RouteStep) → Option (List Carrier) → Option (List Carrier)
unfolding plan_of
add_plan carrier i (some route) (some plans) = some (plan_of carrier route i ∷ plans)
add_plan carrier i _ _ = none

-- The plans from the `i`-th active carrier on; `none` if a request for a route throws.
unfoldable pub plans_from :
    (String → Option (List RouteStep)) → ℕ → List Active → Option (List Carrier)
unfolding add_plan
plans_from route i [] = some []
plans_from route i (a ∷ rest) = add_plan a.carrier i (route a.order) (plans_from route (i + 1) rest)

-- The plans of the `catch` branch, for the ids of DEMO_CARRIER_IDS.
unfoldable pub fallback_from : ℕ → List ℕ → List Carrier
fallback_from i [] = []
fallback_from i (id ∷ ids) =
    record {
      carrier_id = pos id;
      target_resource_id = 1;
      route_resource_id = 1;
      release_delay = (i + 1) * 2000;
    }
    ∷ fallback_from (i + 1) ids

unfoldable pub fallback_plans : Option (List ℕ) → List Carrier
unfolding fallback_from
fallback_plans none = []
fallback_plans (some ids) = fallback_from 0 ids

unfoldable pub plans_or_fallback : Settings → Option (List Carrier) → List Carrier
unfolding fallback_plans
plans_or_fallback c (some plans) = plans
plans_or_fallback c none = fallback_plans c.carrier_ids

unfoldable pub plans_with :
    Settings → (String → Option (List RouteStep)) → Option (List ApiCarrier) → List Carrier
unfolding plans_or_fallback plans_from active_carriers
plans_with c route none = plans_or_fallback c none
plans_with c route (some carriers) =
    plans_or_fallback c (plans_from route 0 (active_carriers carriers))

-- `fetchCarriersFromMes`.
unfoldable pub fetch_carriers_from_mes : Settings → Answers → List Carrier
unfolding plans_with
fetch_carriers_from_mes c answers = plans_with c answers.route answers.carriers
