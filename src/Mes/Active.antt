-- ===== src/Mes/Active.antt =====
-- After a start of the backend only orders in progress have carriers
-- (src/opcua/connection-recovery.service.ts, `releaseCarriersWithoutActiveOrder`).
use mes_copy.Base.{
  ◌≡◌, refl, true, not, ◌&&◌, none, List, [], ◌∷◌, arith, map, is_some, All, inl, inr, Bool-cases,
}
use mes_copy.Mes.{Carrier, Database, release}
use mes_copy.Mes.Tables.{IsUnique}
use mes_copy.Mes.Settled.{settle, release-settle}
use mes_copy.Mes.Recovery.{
  is_available, is_in_use, find_active_order, release_carriers_without_active_order,
}

-- An order that a carrier has is in progress, if the carrier is in use; one that is available is
-- of no order.
abbrev pub IsActive : Database → Carrier → Type 0
IsActive db c =
    (is_in_use c.status ≡ true
      → is_some c.order_id ≡ true
      → is_some (find_active_order db c.order_id) ≡ true)
    × (is_available c.status ≡ true → c.order_id ≡ none)

settle-IsActive : (db : Database) (c : Carrier) → IsActive db (settle db c)
unfolding release
settle-IsActive db c = elim (Bool-cases (is_available c.status)) [
  | inl free ↦ rw free ((λ _ order. cc), (λ _. refl))
  | inr taken ↦
      rw taken
        (elim (Bool-cases (
          is_in_use c.status
          && (is_some c.order_id && not (is_some (find_active_order db c.order_id))))) [
            | inl idle ↦ rw idle ((λ _ order. cc), (λ _. refl))
            | inr busy ↦ rw busy ((λ used order. ground (arith, busy, used, order)), (λ free. cc))
          ])
]

settled-IsActive : (db : Database) (cs : List Carrier) → All (IsActive db) (map (settle db) cs)
settled-IsActive db [] = tt
settled-IsActive db (c ∷ cs) = (settle-IsActive db c, settled-IsActive db cs)

-- After the release every carrier that is in use and of an order is of one that is in progress, and
-- every carrier that is available is of no order, if the carriers had their ids to themselves.
pub release-IsActive :
    (db : Database)
    → IsUnique (λ c. c.id) db.carriers
    → All (IsActive db) (release_carriers_without_active_order db).carriers
release-IsActive db unique = rw (release-settle db unique) (settled-IsActive db db.carriers)
