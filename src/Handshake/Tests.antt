-- ===== src/Handshake/Tests.antt =====
-- The properties of the handshake at concrete runs.
use mes_copy.Base.{
  ℕ, ◌+◌, ◌≤◌, ◌≡◌, refl, Bool, true, false, none, some, List, [], ◌∷◌, ◌++◌, count,
}
use mes_copy.Mes.{Profile}
use mes_copy.Mes.Completion.{fail_station_step, complete_station_step}
use mes_copy.Mes.Stations.{resolve_station_request}
use mes_copy.Handshake.{Service, Reply}
use mes_copy.Handshake.Calls.{Action, asks, acknowledges, resumes, act, run}
use mes_copy.Handshake.Counts.{
  answers, owing, locking, late, unreported, taken_up, tally, is_acknowledgement,
}
use mes_copy.Handshake.Traces.{run-IsAnswered, run-answers}

abbrev profile : Profile
profile = record { stations = []; terminal_resource_id = none }

-- The station asks for carrier 7.
abbrev reply : Bool → Reply
reply works = record {
  works = works;
  publishes = true;
  result_code = λ outcome. some 4;
  request = record { carrier_number = 7; requested_resource_id = 3 };
  carrier_number = 7;
  now = 100;
  id = 1;
}

abbrev service : Service
service = record {
  processing = [];
  handshakes = [];
  database = record {
    carriers = [];
    orders = [];
    route_steps = [];
    execution_steps = [];
    machines = [];
    products = [];
    product_route_steps = [];
  };
  written = [];
  events = [];
  tasks = [];
}

-- Call `k` goes on, because what it awaited has come back or has failed.
abbrev on : ℕ → Action
on k = resumes (reply true) k

abbrev fails : ℕ → Action
fails k = resumes (reply false) k

-- A request gets its response, and then the journal cannot be saved.
abbrev closed_late : List Action
closed_late = asks 3 ∷ on 0 ∷ on 0 ∷ on 0 ∷ on 0 ∷ on 0 ∷ fails 0 ∷ on 0 ∷ on 0 ∷ on 0 ∷ []

-- A second request before the acknowledgement, and a third one after it that cannot be answered.
abbrev actions : List Action
actions =
    closed_late ++ (asks 3 ∷ acknowledges 3 ∷ on 1 ∷ on 1 ∷ on 1 ∷ asks 3 ∷ fails 2 ∷ fails 2 ∷ [])

run-IsAnswered_example :
    answers 3 (run profile actions service)
      + owing 3 (run profile actions service)
      + tally (unreported profile 3) profile actions service
    ≡ answers 3 service
      + owing 3 service
      + tally (taken_up 3) profile actions service
      + tally (late 3) profile actions service
run-IsAnswered_example = run-IsAnswered profile 3 actions service

run-answers_example :
    answers 3 (run profile actions service)
    ≤ answers 3 service
      + owing 3 service
      + locking 3 service
      + 1
      + count (is_acknowledgement 3) actions
      + tally (late 3) profile actions service
run-answers_example = run-answers profile 3 actions service

-- The request has got a response and an internal error.
late_test : answers 3 (run profile closed_late service) ≡ 2
unfolding act fail_station_step complete_station_step resolve_station_request
late_test = refl

tally_test :
    (tally (late 3) profile actions service ≡ 1)
    × (tally (taken_up 3) profile actions service ≡ 2)
    × (tally (unreported profile 3) profile actions service ≡ 1)
unfolding act fail_station_step complete_station_step resolve_station_request
tally_test = (refl, refl, refl)
