-- ===== src/Mes/Sound/Changes.antt =====
-- The changes of an order keep the database sound (src/orders/orders.service.ts).
use mes_copy.Base.{ℕ, ◌≡◌, false, Option, none, some, arith, leb, ltb, count, inl, inr, Bool-cases}
use mes_copy.Mes.{Order, Database}
use mes_copy.Mes.Tables.{All-select, is_at}
use mes_copy.Mes.Rows.{IsUnique-select}
use mes_copy.Mes.Sound.{IsSound, IsCounted, save_order-IsSound}
use mes_copy.Mes.Sound.Stations.{release_carriers-IsSound, AreCounted, AreCounted-find}
use mes_copy.Mes.Stations.{committed, find_order}
use mes_copy.Mes.Completion.{release_carriers}
use mes_copy.Mes.Execution.{or_else}
use mes_copy.Mes.Changes.{
  OrderChange, changed_order, is_below, is_above, update_found, update_order, remove_order,
  progressed, progress_found, update_progress,
}

module _ (db : Database) (sound : IsSound db) where
  changed_order-IsCounted :
      (now : ℕ) (dto : OrderChange) (o : Order)
      → is_below dto.quantity (or_else dto.completed_quantity o.completed_quantity) ≡ false
      → is_above dto.completed_quantity (or_else dto.quantity o.quantity) ≡ false
      → IsCounted o
      → IsCounted (changed_order now dto o)
  unfolding changed_order
  changed_order-IsCounted now dto o below above counted = ground arith

  update_found-IsSound :
      (now : ℕ) (dto : OrderChange) (order : Option Order)
      → AreCounted order
      → IsSound (committed db (update_found now dto db order))
  unfolding update_found
  update_found-IsSound now dto none counted = sound
  update_found-IsSound now dto (some o) counted =
      elim (Bool-cases
        (is_below dto.quantity (or_else dto.completed_quantity o.completed_quantity))) [
          | inl few ↦ rw few sound
          | inr enough ↦
              rw enough
                (elim (Bool-cases
                  (is_above dto.completed_quantity (or_else dto.quantity o.quantity))) [
                    | inl more ↦ rw more sound
                    | inr within ↦ rw within (
                        save_order-IsSound db sound (changed_order now dto o)
                          (changed_order-IsCounted now dto o enough within counted))
                  ])
        ]

  pub update_order-IsSound :
      (now id : ℕ) (dto : OrderChange) → IsSound (committed db (update_order now id dto db))
  unfolding update_order
  update_order-IsSound now id dto =
      update_found-IsSound now dto (find_order db id) (AreCounted-find db sound id)

  pub remove_order-IsSound : (id : ℕ) → IsSound (remove_order id db).database
  unfolding remove_order
  remove_order-IsSound id =
      elim (Bool-cases (ltb 0 (count (λ c. is_at id c.order_id) db.carriers))) [
        | inl used ↦ rw used sound
        | inr unused ↦ rw unused (record {
          counted = All-select IsCounted _ db.orders sound.counted;
          carriers = sound.carriers;
          orders = IsUnique-select (λ o. o.id) _ db.orders sound.orders;
          steps = sound.steps;
        })
      ]

  progressed-IsCounted :
      (now completed_qty : ℕ) (o : Order) → IsCounted (progressed now completed_qty o)
  unfolding progressed
  progressed-IsCounted now completed_qty o = ground arith

  progress_found-IsSound :
      (now completed_qty : ℕ) (order : Option Order)
      → IsSound (committed db (progress_found now completed_qty db order))
  unfolding progress_found
  progress_found-IsSound now completed_qty none = sound
  progress_found-IsSound now completed_qty (some o) =
      let new = progressed now completed_qty o in
      elim (Bool-cases (leb new.quantity new.completed_quantity)) [
        | inl all ↦ rw all (
            save_order-IsSound (release_carriers o.id db) (release_carriers-IsSound o.id db sound)
              new (progressed-IsCounted now completed_qty o))
        | inr more ↦
            rw more (save_order-IsSound db sound new (progressed-IsCounted now completed_qty o))
      ]

  pub update_progress-IsSound :
      (now id completed_qty : ℕ) → IsSound (committed db (update_progress now id completed_qty db))
  unfolding update_progress
  update_progress-IsSound now id completed_qty =
      progress_found-IsSound now completed_qty (find_order db id)
