-- ===== src/Mes/Sound/Orders.antt =====
-- The orders', the carriers' and the recovery's calls keep the database sound
-- (src/orders/orders.service.ts, src/carriers/carriers.service.ts,
-- src/opcua/connection-recovery.service.ts).
use mes_copy.Base.{
  ℕ, ◌||◌, Option, none, some, List, [], ◌∷◌, arith, ltb, map, take, length, is_some, inl, inr,
  Bool-cases,
}
use mes_copy.Mes.{Carrier, Order, RouteStep, Machine, Product, Database, Profile}
use mes_copy.Mes.Sound.{IsSound, save_carrier-IsSound, save_order-IsSound, save_carriers-IsSound}
use mes_copy.Mes.Stations.{committed, save_order, find_order}
use mes_copy.Mes.Routes.{
  StepDefinition, RoutedStation, route_rows, save_route, replace_route, replace_with,
  step_numbers_differ, profile_route, ExternalOrder, external_order, find_external_product,
  route_definition, assign_carrier, free_carriers,
}
use mes_copy.Mes.Orders.{
  assign_first, create_external_at, create_external_with, create_external_product, machine_of,
  create_external_production_order, NewOrder, new_order, create_with, create_order,
  with_production_parameters,
}

save_route-IsSound :
    (rows : List RouteStep) (db : Database) → IsSound db → IsSound (save_route rows db)
save_route-IsSound rows db sound = record {
  counted = sound.counted;
  carriers = sound.carriers;
  orders = sound.orders;
  steps = sound.steps;
}

module _ (db : Database) (sound : IsSound db) where
  replace_with-IsSound :
      (new_id : ℕ → ℕ) (order_id : ℕ) (steps : List StepDefinition) (order : Option Order)
      → IsSound (committed db (replace_with new_id order_id steps db order))
  unfolding replace_with
  replace_with-IsSound new_id order_id steps none = sound
  replace_with-IsSound new_id order_id steps (some o) = record {
    counted = sound.counted;
    carriers = sound.carriers;
    orders = sound.orders;
    steps = sound.steps;
  }

  pub replace_route-IsSound :
      (new_id : ℕ → ℕ) (order_id : ℕ) (steps : List StepDefinition)
      → IsSound (committed db (replace_route new_id order_id steps db))
  unfolding replace_route
  replace_route-IsSound new_id order_id [] = sound
  replace_route-IsSound new_id order_id (d ∷ ds) =
      elim (Bool-cases (step_numbers_differ (d ∷ ds))) [
        | inl differ ↦
            rw differ (replace_with-IsSound new_id order_id (d ∷ ds) (find_order db order_id))
        | inr twice ↦ rw twice sound
      ]

  module _ (profile : Profile) (new_id : ℕ → ℕ) (payload : ExternalOrder) where
    assign_first-IsSound :
        (o : Order) (first : StepDefinition) (new : Database) (free : List Carrier)
        → IsSound new
        → IsSound (committed db (assign_first profile new_id payload o first new free))
    unfolding assign_first
    assign_first-IsSound o first new [] h = sound
    assign_first-IsSound o first new (c ∷ cs) h =
        save_carrier-IsSound new h (assign_carrier o.id first.step_no c)

    create_external_at-IsSound :
        (product : Option Product) (steps : List StepDefinition) (machine : Option Machine)
        → IsSound
            (committed db (create_external_at profile new_id payload db product steps machine))
    unfolding create_external_at external_order
    create_external_at-IsSound product [] machine = sound
    create_external_at-IsSound product (first ∷ rest) none = sound
    create_external_at-IsSound product (first ∷ rest) (some m) =
        let o = external_order (new_id 0) payload product first m in
        let rows = route_rows new_id (new_id 0) 1 (first ∷ rest) in
        assign_first-IsSound o first (save_route rows (save_order o db)) (free_carriers db)
          (save_route-IsSound rows (save_order o db) (save_order-IsSound db sound o (omega arith)))

    create_external_product-IsSound :
        (route : List RoutedStation) (product : Option Product)
        → IsSound (committed db (create_external_product profile new_id payload db route product))
    unfolding create_external_product create_external_with
    create_external_product-IsSound [] product = sound
    create_external_product-IsSound (s ∷ ss) none =
        let steps = route_definition profile db payload.parameters none in
        elim (Bool-cases (is_some payload.product_id || is_some payload.part_no)) [
          | inl named ↦ rw named sound
          | inr unnamed ↦
              rw unnamed
                (create_external_at-IsSound none steps (machine_of profile new_id payload db steps))
        ]
    create_external_product-IsSound (s ∷ ss) (some p) =
        let steps = route_definition profile db payload.parameters (some p) in
        create_external_at-IsSound (some p) steps (machine_of profile new_id payload db steps)

    pub create_external-IsSound :
        IsSound (committed db (create_external_production_order profile new_id payload db))
    unfolding create_external_production_order
    create_external-IsSound =
        create_external_product-IsSound (profile_route profile)
          (find_external_product db payload.product_id payload.part_no)

  module _ (profile : Profile) (new_id : ℕ → ℕ) (dto : NewOrder) where
    create_with-IsSound :
        (steps : List StepDefinition) (free : List Carrier)
        → IsSound (committed db (create_with profile new_id dto db steps free))
    unfolding create_with new_order
    create_with-IsSound [] free = sound
    create_with-IsSound (first ∷ rest) free = elim (Bool-cases (ltb (length free) dto.quantity)) [
      | inl few ↦ rw few sound
      | inr enough ↦
          let o = new_order profile new_id dto in
          let rows =
            route_rows new_id (new_id 0) 1
              (map (with_production_parameters profile new_id dto) (first ∷ rest)) in
          rw enough (
            save_carriers-IsSound (save_route rows (save_order o db))
              (save_route-IsSound rows (save_order o db)
                (save_order-IsSound db sound o (omega arith)))
              (map (assign_carrier (new_id 0) first.step_no) (take dto.quantity free)))
    ]

    pub create_order-IsSound : IsSound (committed db (create_order profile new_id dto db))
    unfolding create_order
    create_order-IsSound = create_with-IsSound _ (free_carriers db)
