-- ===== src/Mes/Settled.antt =====
-- What the release of the carriers without an active order comes to
-- (src/opcua/connection-recovery.service.ts, `releaseCarriersWithoutActiveOrder`): each carrier is
-- settled for itself.
use mes_copy.Base.{
  ℕ, ◌≡◌, ◌⊎◌, refl, sym, ap, Bool, true, false, not, ◌&&◌, Option, none, some, List, [], ◌∷◌,
  arith, map, if◌then◌else◌, select, is_some, inl, inr, Bool-cases,
}
use mathlib.Core.Path.{◌∙◌}
use mes_copy.Mes.{
  Carrier, CarrierStatus, available, assigned, in_process, completed, error, Database, release,
}
use mes_copy.Mes.Tables.{IsUnique}
use mes_copy.Mes.Each.{save_each, change_if, or_same, save_each-map, IsUnique-change_if}
use mes_copy.Mes.Recovery.{
  is_available, is_in_use, is_unassigned, clear, clear_available, release_inactive,
  find_active_order, release_carriers_without_active_order,
}

-- A carrier that is available is of no order, and one in use whose order is not in progress is
-- released; another is left as it is.
abbrev pub settle : Database → Carrier → Carrier
settle db c =
    if is_available c.status
    then clear c
    else if is_in_use c.status
        && (is_some c.order_id && not (is_some (find_active_order db c.order_id)))
    then release c
    else c

abbrev cleared : Carrier → Option Carrier
cleared c = if is_unassigned c then none else some (clear c)

abbrev is_inactive : Database → Carrier → Bool
is_inactive db c = is_some c.order_id && not (is_some (find_active_order db c.order_id))

abbrev freed : Database → Carrier → Option Carrier
freed db c = if is_inactive db c then some (release c) else none

clear_available-each :
    (cs : List Carrier) (db : Database)
    → clear_available cs db ≡ record db { carriers = save_each (λ c. c.id) cleared cs db.carriers }
unfolding clear_available
clear_available-each [] db = refl
clear_available-each (c ∷ cs) db = elim (Bool-cases (is_unassigned c)) [
  | inl idle ↦ rw idle (clear_available-each cs db)
  | inr busy ↦ rw busy (clear_available-each cs _)
]

release_inactive-each :
    (cs : List Carrier) (db : Database)
    → release_inactive cs db
      ≡ record db { carriers = save_each (λ c. c.id) (freed db) cs db.carriers }
unfolding release_inactive
release_inactive-each [] db = refl
release_inactive-each (c ∷ cs) db = elim (Bool-cases (is_inactive db c)) [
  | inl idle ↦ rw idle (release_inactive-each cs _)
  | inr busy ↦ rw busy (release_inactive-each cs db)
]

cleared-id : (x y : Carrier) → cleared x ≡ some y → y.id ≡ x.id
cleared-id x y e = ground arith

freed-id : (db : Database) (x y : Carrier) → freed db x ≡ some y → y.id ≡ x.id
unfolding release
freed-id db x y e = ground arith

none-of_empty : {o : Option ℕ} → is_some o ≡ false → o ≡ none
none-of_empty {o = none} e = refl
none-of_empty {o = some n} e = cc

-- Nothing is to be cleared of a carrier that is of no order.
clear-same : (c : Carrier) → is_unassigned c ≡ true → clear c ≡ c
clear-same c idle =
    let order : c.order_id ≡ none = none-of_empty (ground (arith, idle)) in
    let step : c.current_step_no ≡ none = none-of_empty (ground (arith, idle)) in
    let resource : c.current_resource_id ≡ none = none-of_empty (ground (arith, idle)) in
    ap (λ o. record c { order_id = o; current_step_no = none; current_resource_id = none })
      (sym order)
    ∙ (ap (λ n. record c { current_step_no = n; current_resource_id = none }) (sym step)
        ∙ ap (λ n. record c { current_resource_id = n }) (sym resource))

or_same-cleared : (c : Carrier) → or_same (λ x. x.id) cleared (cleared c) c ≡ clear c
or_same-cleared c = elim (Bool-cases (is_unassigned c)) [
  | inl idle ↦ rw idle (sym (clear-same c idle))
  | inr busy ↦ rw busy refl
]

CarrierStatus-cases :
    (s : CarrierStatus)
    → ((is_available s ≡ true) × (is_in_use s ≡ false)) ⊎ (is_available s ≡ false)
CarrierStatus-cases available = inl (refl, refl)
CarrierStatus-cases assigned = inr refl
CarrierStatus-cases in_process = inr refl
CarrierStatus-cases completed = inr refl
CarrierStatus-cases error = inr refl

module _ (db : Database) where
  abbrev first : Carrier → Carrier
  first = change_if (λ c. c.id) cleared (λ c. is_available c.status)

  abbrev second : Carrier → Carrier
  second = change_if (λ c. c.id) (freed db) (λ c. is_in_use c.status)

  second-first : (c : Carrier) → second (first c) ≡ settle db c
  second-first c = elim (CarrierStatus-cases c.status) [
    | inl (free, unused) ↦ rw free (rw (or_same-cleared c) (rw unused refl))
    | inr taken ↦ rw taken (elim (Bool-cases (is_in_use c.status)) [
      | inl used ↦ rw used (elim (Bool-cases (is_inactive db c)) [
        | inl idle ↦ rw idle refl
        | inr busy ↦ rw busy refl
      ])
      | inr unused ↦ rw unused refl
    ])
  ]

  map-second-first : (cs : List Carrier) → map second (map first cs) ≡ map (settle db) cs
  map-second-first [] = refl
  map-second-first (c ∷ cs) =
      ap (λ x. x ∷ map second (map first cs)) (second-first c)
      ∙ ap (λ xs. settle db c ∷ xs) (map-second-first cs)

  -- The two loops, which save the carriers that they have read one after the other, settle each
  -- carrier for itself and write nothing else, if the carriers have their ids to themselves.
  pub release-settle :
      IsUnique (λ c. c.id) db.carriers
      → release_carriers_without_active_order db
        ≡ record db { carriers = map (settle db) db.carriers }
  unfolding release_carriers_without_active_order
  release-settle unique =
      let new : Database = record db { carriers = map first db.carriers } in
      let cleared_all : clear_available (select (λ c. is_available c.status) db.carriers) db ≡ new =
        clear_available-each (select (λ c. is_available c.status) db.carriers) db
        ∙ ap (λ cs. record db { carriers = cs })
            (save_each-map (λ c. c.id) cleared cleared-id (λ c. is_available c.status) db.carriers
              unique) in
      rw cleared_all (
        release_inactive-each (select (λ c. is_in_use c.status) new.carriers) new
        ∙ ap (λ cs. record db { carriers = cs })
            (save_each-map (λ c. c.id) (freed db) (freed-id db) (λ c. is_in_use c.status)
                new.carriers
                (IsUnique-change_if (λ c. c.id) cleared cleared-id (λ c. is_available c.status)
                  db.carriers unique)
              ∙ map-second-first db.carriers))
