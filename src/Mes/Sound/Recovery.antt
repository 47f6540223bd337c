-- ===== src/Mes/Sound/Recovery.antt =====
-- The carriers' calls and the recovery keep the database sound
-- (src/carriers/carriers.service.ts, src/opcua/connection-recovery.service.ts).
use mes_copy.Base.{
  ℕ, not, ◌&&◌, Option, none, some, List, [], ◌∷◌, ◌==◌, find, select, is_some, inl, inr,
  Bool-cases,
}
use mes_copy.Mes.{Carrier, Order, RouteStep, Database, release, is_carrier_physically_available}
use mes_copy.Mes.Tables.{is_at}
use mes_copy.Mes.Rows.{IsUnique-select}
use mes_copy.Mes.Sound.{IsSound, save_carrier-IsSound}
use mes_copy.Mes.Stations.{committed, has_carrier_number, save_carrier, get_route}
use mes_copy.Mes.Routes.{assign_carrier}
use mes_copy.Mes.Changes.{
  new_carrier, create_carrier, find_carrier, assign_found, assign, CarrierChange, changed_carrier,
  update_carrier_found, update_carrier, remove_carrier_found, remove_carrier,
}
use mes_copy.Mes.Recovery.{
  is_available, is_in_use, is_stuck, is_unassigned, clear, clear_available, release_inactive,
  find_active_order, release_carriers_without_active_order, StationCarrier, correct_step, restart,
  recover_absent, recover_carrier, recover_carriers, step_for_station, recover_database, Snapshot,
  StationDescriptor, station_carriers,
}

module _ (db : Database) (sound : IsSound db) where
  pub create_carrier-IsSound :
      (id number : ℕ) → IsSound (committed db (create_carrier id number db))
  unfolding create_carrier
  create_carrier-IsSound id number =
      elim (Bool-cases (is_some (find (has_carrier_number number) db.carriers))) [
        | inl known ↦ rw known sound
        | inr new ↦ rw new (save_carrier-IsSound db sound (new_carrier id number))
      ]

  assign_found-IsSound :
      (order_id step_no : ℕ) (c : Option Carrier)
      → IsSound (committed db (assign_found order_id step_no db c))
  unfolding assign_found
  assign_found-IsSound order_id step_no none = sound
  assign_found-IsSound order_id step_no (some c) =
      elim (Bool-cases (is_available c.status && is_carrier_physically_available c)) [
        | inl free ↦ rw free (save_carrier-IsSound db sound (assign_carrier order_id step_no c))
        | inr taken ↦ rw taken sound
      ]

  pub assign-IsSound :
      (id order_id step_no : ℕ) → IsSound (committed db (assign id order_id step_no db))
  unfolding assign
  assign-IsSound id order_id step_no = assign_found-IsSound order_id step_no (find_carrier db id)

  update_carrier_found-IsSound :
      (dto : CarrierChange) (c : Option Carrier)
      → IsSound (committed db (update_carrier_found dto db c))
  unfolding update_carrier_found
  update_carrier_found-IsSound dto none = sound
  update_carrier_found-IsSound dto (some c) = save_carrier-IsSound db sound (changed_carrier dto c)

  pub update_carrier-IsSound :
      (id : ℕ) (dto : CarrierChange) → IsSound (committed db (update_carrier id dto db))
  unfolding update_carrier
  update_carrier-IsSound id dto = update_carrier_found-IsSound dto (find_carrier db id)

  remove_carrier_found-IsSound :
      (c : Option Carrier) → IsSound (committed db (remove_carrier_found db c))
  unfolding remove_carrier_found
  remove_carrier_found-IsSound none = sound
  remove_carrier_found-IsSound (some c) = elim (Bool-cases (is_some c.order_id)) [
    | inl used ↦ rw used sound
    | inr unused ↦ rw unused (record {
      counted = sound.counted;
      carriers = IsUnique-select (λ r. r.id) (λ r. not (r.id == c.id)) db.carriers sound.carriers;
      orders = sound.orders;
      steps = sound.steps;
    })
  ]

  pub remove_carrier-IsSound : (id : ℕ) → IsSound (committed db (remove_carrier id db))
  unfolding remove_carrier
  remove_carrier-IsSound id = remove_carrier_found-IsSound (find_carrier db id)

clear_available-IsSound :
    (cs : List Carrier) (db : Database) → IsSound db → IsSound (clear_available cs db)
unfolding clear_available
clear_available-IsSound [] db sound = sound
clear_available-IsSound (c ∷ cs) db sound = elim (Bool-cases (is_unassigned c)) [
  | inl idle ↦ rw idle (clear_available-IsSound cs db sound)
  | inr busy ↦ rw busy (
      clear_available-IsSound cs (save_carrier (clear c) db)
        (save_carrier-IsSound db sound (clear c)))
]

release_inactive-IsSound :
    (cs : List Carrier) (db : Database) → IsSound db → IsSound (release_inactive cs db)
unfolding release_inactive
release_inactive-IsSound [] db sound = sound
release_inactive-IsSound (c ∷ cs) db sound =
    elim (Bool-cases (is_some c.order_id && not (is_some (find_active_order db c.order_id)))) [
      | inl idle ↦ rw idle (
          release_inactive-IsSound cs (save_carrier (release c) db)
            (save_carrier-IsSound db sound (release c)))
      | inr busy ↦ rw busy (release_inactive-IsSound cs db sound)
    ]

pub release_without_active_order-IsSound :
    (db : Database) → IsSound db → IsSound (release_carriers_without_active_order db)
unfolding release_carriers_without_active_order
release_without_active_order-IsSound db sound =
    let idle = select (λ c. is_available c.status) db.carriers in
    let new = clear_available idle db in
    release_inactive-IsSound (select (λ c. is_in_use c.status) new.carriers) new
      (clear_available-IsSound idle db sound)

module _ (c : Carrier) (db : Database) (sound : IsSound db) where
  correct_step-IsSound : (r : ℕ) (step : Option RouteStep) → IsSound (correct_step c db r step)
  unfolding correct_step
  correct_step-IsSound r none = sound
  correct_step-IsSound r (some step) = elim (Bool-cases (is_at step.step_no c.current_step_no)) [
    | inl right ↦ rw right sound
    | inr wrong ↦ rw wrong (save_carrier-IsSound db sound _)
  ]

  restart-IsSound : (route : List RouteStep) → IsSound (restart c db route)
  unfolding restart
  restart-IsSound [] = sound
  restart-IsSound (first ∷ rest) = save_carrier-IsSound db sound _

  recover_absent-IsSound : (order : Option Order) → IsSound (recover_absent c db order)
  unfolding recover_absent
  recover_absent-IsSound none = save_carrier-IsSound db sound (release c)
  recover_absent-IsSound (some o) = restart-IsSound (get_route db o.id)

  recover_carrier-IsSound : (found : Option StationCarrier) → IsSound (recover_carrier c db found)
  unfolding recover_carrier
  recover_carrier-IsSound none = recover_absent-IsSound (find_active_order db c.order_id)
  recover_carrier-IsSound (some found) =
      correct_step-IsSound found.resource_id (step_for_station db c found.resource_id)

recover_carriers-IsSound :
    (stations : List StationCarrier) (cs : List Carrier) (db : Database)
    → IsSound db
    → IsSound (recover_carriers stations cs db)
unfolding recover_carriers
recover_carriers-IsSound stations [] db sound = sound
recover_carriers-IsSound stations (c ∷ cs) db sound =
    let found = find (λ s. s.carrier_number == c.carrier_number) stations in
    recover_carriers-IsSound stations cs (recover_carrier c db found)
      (recover_carrier-IsSound c db sound found)

pub recover_database-IsSound :
    (read : ℕ → Option Snapshot) (stations : List StationDescriptor) (db : Database)
    → IsSound db
    → IsSound (recover_database read stations db)
unfolding recover_database
recover_database-IsSound read stations db sound =
    let released = release_without_active_order-IsSound db sound in
    let new = release_carriers_without_active_order db in
    recover_carriers-IsSound (station_carriers read stations)
      (select (λ c. is_stuck c.status) new.carriers) new released
