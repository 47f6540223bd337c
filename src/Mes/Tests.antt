-- ===== src/Mes/Tests.antt =====
-- Runs of the backend's services and their properties on a small database: an order of one piece
-- with two steps, and a carrier that is assigned to it.
use mes_copy.Base.{ℕ, ◌+◌, ◌≡◌, refl, true, false, none, some, [], ◌∷◌, map, All, arith}
use mes_copy.Base.Int.{pos}
use mes_copy.Mes.{
  Carrier, available, assigned, unknown, Order, pending, RouteStep, ExecutionStep, machine,
  finished, StepResult, Database, Profile, Station,
}
use mes_copy.Mes.Rows.{IsUnique-select}
use mes_copy.Mes.Routes.{is_of_order}
use mes_copy.Mes.Execution.{StartExecutionStep, start, complete, fail, is_finished}
use mes_copy.Mes.Stations.{
  resolve_station_request, committed, next_step, get_route, terminal_resource_id,
}
use mes_copy.Mes.Completion.{complete_station_step}
use mes_copy.Mes.Next.{IsIndexed, IsLeastAbove, next_step-IsLeastAbove, tail}
use mes_copy.Mes.Underway.{IsUnderway}
use mes_copy.Mes.Journey.{Visit, travel, IsProduced, travel-IsProduced}
use mes_copy.Mes.Refinement.{steps_left, granted, outcome_of, resolve-refines, complete-refines}
use mes_copy.Mes.Sound.{IsSound}
use mes_copy.Mes.Calls.{Call, Calls, Calls-IsSound}
use mes_copy.Mes.Recovery.{release_carriers_without_active_order}
use mes_copy.Mes.Settled.{settle, release-settle}
use mes_copy.Mes.Active.{IsActive, release-IsActive}
use mes_copy.Mes.Routes.{ExternalOrder}
use mes_copy.Mes.Orders.{create_external_production_order}
use mes_copy.Mes.External.{IsFresh, IsFulfilled, create_external-IsFulfilled}
use mes_copy.Mes.Finished.{step_row, finished-stays}

abbrev carrier : Carrier
carrier = record {
  id = 1;
  carrier_number = 7;
  order_id = some 10;
  current_step_no = some 1;
  current_resource_id = none;
  status = assigned;
  inventory_managed = false;
  physical_state = unknown;
  rfid_uid = none;
  storage_slot = none;
  rfid_read_valid = none;
  last_reader_id = none;
  last_seen_at = none;
  inventory_source = none;
  inventory_revision = none;
  inventory_stale = false;
}

abbrev order : Order
order = record {
  id = 10;
  name = "A-1";
  priority = 1;
  machine_id = 1;
  product_id = none;
  operation = "assemble";
  status = pending;
  quantity = 1;
  completed_quantity = 0;
  start_time = none;
  end_time = none;
  target_complete_time = none;
  error_message = none;
}

abbrev step_at : ℕ → ℕ → ℕ → RouteStep
step_at id n r = record {
  id = id;
  order_id = 10;
  step_no = n;
  resource_id = r;
  operation_no = n;
  operation = "assemble";
  parameters = [];
}

abbrev done_step : ExecutionStep
done_step = record {
  id = 5;
  order_id = 9;
  carrier_id = some 1;
  carrier_number = some 7;
  resource_id = 3;
  operation_no = 1;
  operation = "assemble";
  step_no = 1;
  state = finished;
  source = machine;
  started_at = some 1;
  ended_at = some 2;
  result = none;
}

abbrev db : Database
db = record {
  carriers = carrier ∷ [];
  orders = order ∷ [];
  route_steps = step_at 21 2 4 ∷ step_at 20 1 3 ∷ [];
  execution_steps = done_step ∷ [];
  machines = [];
  products = [];
  product_route_steps = [];
}

abbrev profile : Profile
profile = record { stations = []; terminal_resource_id = some (pos 99) }

indexed : IsIndexed db.route_steps
indexed = record {
  ids = (((λ e. omega (arith, e)), tt), (tt, tt));
  numbers = λ order_id.
      IsUnique-select (λ s. s.step_no) (is_of_order order_id) db.route_steps
        (((λ e. omega (arith, e)), tt), (tt, tt));
}

underway : IsUnderway db 7 carrier order (step_at 20 1 3) (step_at 21 2 4 ∷ [])
unfolding get_route
underway = record {
  unique = (tt, tt);
  indexed = indexed;
  carrier = refl;
  in_order = refl;
  step_no = refl;
  order = refl;
  running = refl;
  step = refl;
  left = refl;
}

sound : IsSound db
sound = record {
  counted = (omega arith, tt);
  carriers = (tt, tt);
  orders = (tt, tt);
  steps = (tt, tt);
}

abbrev visits : ℕ → Visit
visits k = record { asked_at = 100; asked_id = 30; ended_at = 200; ended_id = 31 }

travel-IsProduced_example :
    IsProduced order (travel profile visits 0 (step_at 20 1 3 ∷ step_at 21 2 4 ∷ []) 7 db)
unfolding terminal_resource_id
travel-IsProduced_example =
    travel-IsProduced profile 99 visits 7 refl (step_at 21 2 4 ∷ []) 0 db carrier order
      (step_at 20 1 3) underway refl

next_step-IsLeastAbove_example : IsLeastAbove 1 (get_route db 10) (next_step db (step_at 20 1 3) 10)
next_step-IsLeastAbove_example = next_step-IsLeastAbove db indexed 10 1 (step_at 20 1 3) refl

resolve-refines_example :
    (outcome_of (resolve_station_request profile 100 30 3 7 db)
      ≡ some (granted (steps_left db 10 7) 3))
    × (steps_left (committed db (resolve_station_request profile 100 30 3 7 db)) 10 7
        ≡ steps_left db 10 7)
unfolding terminal_resource_id
resolve-refines_example =
    resolve-refines db 7 carrier order (step_at 20 1 3) (step_at 21 2 4 ∷ []) underway refl 100 30 3
      profile 99 refl

abbrev placed_carrier : Carrier
placed_carrier = record carrier { current_resource_id = some 3 }

abbrev placed : Database
placed = record db { carriers = placed_carrier ∷ [] }

placed-IsUnderway : IsUnderway placed 7 placed_carrier order (step_at 20 1 3) (step_at 21 2 4 ∷ [])
unfolding get_route
placed-IsUnderway = record {
  unique = (tt, tt);
  indexed = indexed;
  carrier = refl;
  in_order = refl;
  step_no = refl;
  order = refl;
  running = refl;
  step = refl;
  left = refl;
}

complete-refines_example :
    steps_left (complete_station_step 200 31 3 7 placed).database 10 7
    ≡ tail (steps_left placed 10 7)
complete-refines_example =
    complete-refines placed 7 placed_carrier order (step_at 20 1 3) (step_at 21 2 4 ∷ [])
      placed-IsUnderway refl 200 31 3 refl

Calls-IsSound_example :
    IsSound
      (complete_station_step 200 31 3 7
        (committed db (resolve_station_request profile 100 30 3 7 db))).database
Calls-IsSound_example =
    Calls-IsSound db _
      (Calls.then_call (Calls.then_call Calls.no_call (Call.resolves profile 100 30 3 7))
        (Call.completes 200 31 3 7))
      sound

release-settle_example :
    release_carriers_without_active_order db ≡ record db { carriers = map (settle db) db.carriers }
release-settle_example = release-settle db (tt, tt)

-- The carrier of the order, which is pending, is released.
release-IsActive_example : All (IsActive db) (release_carriers_without_active_order db).carriers
release-IsActive_example = release-IsActive db (tt, tt)

released_test : steps_left (release_carriers_without_active_order db) 10 7 ≡ []
unfolding release_carriers_without_active_order
released_test = refl

abbrev input : StartExecutionStep
input = record {
  order_id = 9;
  carrier_id = 1;
  carrier_number = 7;
  resource_id = 3;
  operation_no = 1;
  operation = "assemble";
  step_no = 1;
  source = machine;
  started_at = 300;
}

abbrev gone_wrong : StepResult
gone_wrong = record { outcome = "failed"; reason = none }

finished-stays_example :
    (step_row 5 (start 6 input db.execution_steps) ≡ some done_step)
    × (step_row 5 (fail 9 1 1 400 gone_wrong db.execution_steps) ≡ some done_step)
    × ((after : ExecutionStep) × (step_row 5 (complete 6 input 400 gone_wrong db.execution_steps)
          ≡ some after)
        × (is_finished after.state ≡ true))
finished-stays_example =
    finished-stays db.execution_steps 5 6 done_step input 9 1 1 400 gone_wrong (tt, tt) refl refl
      refl

-- A profile with two stations, a free carrier and an order from outside.
abbrev station : ℕ → ℕ → Station
station r n = record {
  resource_id = r;
  enabled = true;
  routing =
      some (record { enabled = none; sequence = n; operation_no = n; operation = "assemble" });
}

abbrev line : Profile
line = record { stations = station 4 2 ∷ station 3 1 ∷ []; terminal_resource_id = some (pos 99) }

abbrev idle : Database
idle = record db {
  carriers = record carrier { order_id = none; current_step_no = none; status = available } ∷ [];
  orders = [];
  machines = record { id = 1; name = "S"; resource_id = some 3; parent_resource_id = none } ∷ [];
}

abbrev payload : ExternalOrder
payload = record { name = "EXTERNAL-1"; product_id = none; part_no = none; parameters = [] }

abbrev new_id : ℕ → ℕ
new_id k = 40 + k

abbrev created : Database
created = committed idle (create_external_production_order line new_id payload idle)

idle-IsFresh : IsFresh idle new_id
idle-IsFresh = record {
  distinct = λ j k e. omega (arith, e);
  ids = λ k. ((λ e. omega (arith, e)), ((λ e. omega (arith, e)), tt));
  order = (refl, (refl, tt));
  indexed = indexed;
  carriers = (tt, tt);
  numbers = (tt, tt);
}

create_external-IsFulfilled_example :
    (number : ℕ) × ((at : ℕ → Visit)
      → IsFulfilled (travel line at 0 (get_route created 40) number created) 40)
unfolding create_external_production_order terminal_resource_id
create_external-IsFulfilled_example =
    create_external-IsFulfilled line new_id payload idle created 40 99 idle-IsFresh refl refl

created_test : map (λ s. s.resource_id) (get_route created 40) ≡ 3 ∷ 4 ∷ []
unfolding create_external_production_order get_route
created_test = refl
