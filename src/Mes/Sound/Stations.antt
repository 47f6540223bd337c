-- ===== src/Mes/Sound/Stations.antt =====
-- The stations' calls keep the database sound (src/orders/routing.service.ts).
use mes_copy.Base.{
  ℕ, Option, none, some, ◌==◌, find, select, map, inl, inr, Bool-cases, Option-cases,
}
use mes_copy.Mes.{Carrier, Order, RouteStep, Database, Profile, release}
use mes_copy.Mes.Sound.{
  IsSound, IsCounted, save_carrier-IsSound, save_order-IsSound, save_carriers-IsSound,
  steps-IsSound, find_order-IsCounted, start-IsUnique,
}
use mes_copy.Mes.Tables.{is_at}
use mes_copy.Mes.Stations.{
  committed, save_carrier, has_carrier_number, is_done, is_pending, is_completed, find_order,
  find_route_step, next_step, next_resource_id, start_order, occupy, execution_of, accept_with,
  accepted_database, accept, resolve_found, resolve_assigned, resolve_carrier,
  resolve_station_request,
}
use mes_copy.Mes.Completion.{release_carriers}

pub release_carriers-IsSound :
    (order_id : ℕ) (db : Database) → IsSound db → IsSound (release_carriers order_id db)
unfolding release_carriers
release_carriers-IsSound order_id db sound =
    save_carriers-IsSound db sound
      (map release (select (λ c. is_at order_id c.order_id) db.carriers))

abbrev pub AreCounted : Option Order → Type 0
AreCounted none = Unit
AreCounted (some o) = IsCounted o

pub AreCounted-find : (db : Database) (sound : IsSound db) (id : ℕ) → AreCounted (find_order db id)
AreCounted-find db sound id = elim (Option-cases (find_order db id)) [
  | inl gone ↦ rw gone tt
  | inr (o, found) ↦ rw found (find_order-IsCounted db sound id o found)
]

module _ (profile : Profile) (now id r : ℕ) (db : Database) (sound : IsSound db) where
  start_order-IsSound :
      (o : Order) (new : Database) → IsCounted o → IsSound new → IsSound (start_order now o new)
  unfolding start_order
  start_order-IsSound o new counted h = elim (Bool-cases (is_pending o.status)) [
    | inl pending ↦ rw pending (save_order-IsSound new h _ counted)
    | inr other ↦ rw other h
  ]

  accepted_database-IsSound :
      (c : Carrier) (o : Order) (s : RouteStep)
      → IsCounted o
      → IsSound (accepted_database profile now id r c o s db)
  unfolding accepted_database
  accepted_database-IsSound c o s counted =
      let begun =
        start_order-IsSound o (save_carrier (occupy now r c) db) counted
          (save_carrier-IsSound db sound (occupy now r c)) in
      steps-IsSound _ begun _ (start-IsUnique id (execution_of now r c o.id s) _ begun.steps)

  accept_with-IsSound :
      (c : Carrier) (o : Order) (s : RouteStep) (new : Database) (next : Option ℕ)
      → IsSound new
      → IsSound (committed db (accept_with profile now id r c o s db new next))
  unfolding accept_with
  accept_with-IsSound c o s new none h = sound
  accept_with-IsSound c o s new (some next) h = h

  resolve_found-IsSound :
      (c : Carrier) (order : Option Order) (step : Option RouteStep)
      → AreCounted order
      → IsSound (committed db (resolve_found profile now id r c db order step))
  unfolding resolve_found accept
  resolve_found-IsSound c none step counted = sound
  resolve_found-IsSound c (some o) none counted = sound
  resolve_found-IsSound c (some o) (some s) counted =
      let taken =
        accept_with-IsSound c o s (accepted_database profile now id r c o s db)
          (next_resource_id profile (next_step db s o.id))
          (accepted_database-IsSound c o s counted) in
      elim (Bool-cases (is_done o.status)) [
        | inl over ↦ rw over (save_carrier-IsSound db sound (release c))
        | inr more ↦ rw more (elim (Bool-cases (s.resource_id == r)) [
          | inl hit ↦ rw hit (elim (Bool-cases (is_completed c.status)) [
            | inl finished ↦ rw finished sound
            | inr fresh ↦ rw fresh taken
          ])
          | inr miss ↦ rw miss sound
        ])
      ]

  resolve_assigned-IsSound :
      (c : Carrier) (order_id step_no : Option ℕ)
      → IsSound (committed db (resolve_assigned profile now id r c db order_id step_no))
  unfolding resolve_assigned
  resolve_assigned-IsSound c none step_no = sound
  resolve_assigned-IsSound c (some order_id) none = sound
  resolve_assigned-IsSound c (some order_id) (some step_no) =
      resolve_found-IsSound c (find_order db order_id) (find_route_step db order_id step_no)
        (AreCounted-find db sound order_id)

  resolve_carrier-IsSound :
      (c : Option Carrier) → IsSound (committed db (resolve_carrier profile now id r db c))
  unfolding resolve_carrier
  resolve_carrier-IsSound none = sound
  resolve_carrier-IsSound (some c) = resolve_assigned-IsSound c c.order_id c.current_step_no

  pub resolve-IsSound :
      (number : ℕ) → IsSound (committed db (resolve_station_request profile now id r number db))
  unfolding resolve_station_request
  resolve-IsSound number = resolve_carrier-IsSound (find (has_carrier_number number) db.carriers)
