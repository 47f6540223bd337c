-- ===== src/Mes/Journey.antt =====
-- A carrier's whole way through the stations of its route: at each step the station's request and
-- the completion of its process (src/orders/routing.service.ts).
use mes_copy.Base.{
  ℕ, suc, ◌+◌, ◌≤◌, ◌≡◌, refl, ap, false, some, List, [], ◌∷◌, arith, leb, All, inl, inr,
  Bool-cases,
}
use mathlib.Core.Path.{◌∙◌}
use mes_copy.Mes.{Carrier, Order, done, RouteStep, Database, Profile}
use mes_copy.Mes.Tables.{IsUnique, is_at}
use mes_copy.Mes.Rows.{row-save}
use mes_copy.Mes.Next.{head}
use mes_copy.Mes.Underway.{
  IsUnderway, next_resource_id-known, resolve-here, complete-found, started, occupy-kept,
  started-kept,
}
use mes_copy.Mes.Underway.Steps.{resolve-IsUnderway, send_on-IsUnderway, send_on-kept}
use mes_copy.Mes.Release.{release_carriers-released}
use mes_copy.Mes.Stations.{
  committed, is_completed, find_order, occupy, accepted_database, accept_with,
  resolve_station_request, terminal_resource_id,
}
use mes_copy.Mes.Completion.{
  complete_station_step, record_completion, advance, finish_route, finish_counted, count_finished,
  finish_order, min, send_on,
}

-- When a station asks and when its process ends, and the uuids of the rows that may be added.
pub record Visit : Type 0 where
  pub asked_at : ℕ
  pub asked_id : ℕ
  pub ended_at : ℕ
  pub ended_id : ℕ

abbrev pub visit : Profile → Visit → ℕ → ℕ → Database → Database
visit profile v resource_id number db =
    let new =
      committed db (resolve_station_request profile v.asked_at v.asked_id resource_id number db) in
    (complete_station_step v.ended_at v.ended_id resource_id number new).database

abbrev pub travel : Profile → (ℕ → Visit) → ℕ → List RouteStep → ℕ → Database → Database
travel profile at k [] number db = db
travel profile at k (s ∷ ss) number db =
    travel profile at (suc k) ss number (visit profile (at k) s.resource_id number db)

-- The order has one more, and if that is all of them, it is completed and has no carrier left.
pub record IsProduced (before : Order) (db : Database) : Type 0 where
  pub after : Order
  pub order : find_order db before.id ≡ some after
  pub counted : after.completed_quantity ≡ min before.quantity (before.completed_quantity + 1)
  pub finished : before.quantity ≤ before.completed_quantity + 1 → after.status ≡ done
  pub released :
      before.quantity ≤ before.completed_quantity + 1
      → All (λ c. is_at before.id c.order_id ≡ false) db.carriers

module _ (now id r : ℕ) (c : Carrier) (o : Order) (db : Database) where
  finish_counted-IsProduced :
      IsUnique (λ x. x.id) db.carriers
      → IsProduced o (finish_counted now id r c db (count_finished o)).database
  unfolding finish_counted count_finished finish_order
  finish_counted-IsProduced unique =
      let counted = count_finished o in
      elim (Bool-cases (leb counted.quantity counted.completed_quantity)) [
        | inl all ↦ rw all (record {
          after = finish_order now counted;
          order = row-save (λ x. x.id) (finish_order now counted) db.orders;
          counted = refl;
          finished = λ _. refl;
          released = λ _. release_carriers-released o.id db unique;
        })
        | inr more ↦ rw more (record {
          after = counted;
          order = row-save (λ x. x.id) counted db.orders;
          counted = refl;
          finished = λ enough. ground (arith, more, enough);
          released = λ enough. ground (arith, more, enough);
        })
      ]

module _ (db : Database) (number : ℕ) (c : Carrier) (o : Order) (s : RouteStep)
    (rest : List RouteStep) (u : IsUnderway db number c o s rest) (profile : Profile) (last : ℕ)
    (terminal : terminal_resource_id profile ≡ some last) (fresh : is_completed c.status ≡ false)
    (v : Visit) where
  pub asked : Database
  asked = accepted_database profile v.asked_at v.asked_id s.resource_id c o s db

  ask-accepted :
      committed db (resolve_station_request profile v.asked_at v.asked_id s.resource_id number db)
      ≡ asked
  unfolding accept_with asked
  ask-accepted =
      rw
        (resolve-here db number c o s rest u profile v.asked_at v.asked_id s.resource_id refl fresh)
        (rw ((next_resource_id-known profile last terminal rest).1) refl)

  pub begun : Order
  begun = started db number c o s rest u v.asked_at

  pub placed : Carrier
  placed = occupy v.asked_at s.resource_id c

  -- What the visit of the step's station comes to.
  pub visit-advance :
      visit profile v s.resource_id number db
      ≡ (advance v.ended_at v.ended_id s.resource_id placed
          (record_completion v.ended_at v.ended_id s.resource_id placed begun.id
            (some begun)
            s
            asked)
          (some begun)
          (head rest)).database
  unfolding asked begun placed
  visit-advance =
      let there =
        resolve-IsUnderway db number c o s rest u profile v.asked_at v.asked_id s.resource_id in
      let kept = occupy-kept db number c o s rest u v.asked_at s.resource_id in
      ap (λ x. (complete_station_step v.ended_at v.ended_id s.resource_id number x).database)
        ask-accepted
      ∙ (ap (λ x. x.database)
          (complete-found asked number placed begun s rest there v.ended_at v.ended_id s.resource_id
            kept.4))

IsProduced-of_same :
    (b o : Order) (db : Database)
    → b.id ≡ o.id
    → b.quantity ≡ o.quantity
    → b.completed_quantity ≡ o.completed_quantity
    → IsProduced b db
    → IsProduced o db
IsProduced-of_same b o db id quantity completed p = record {
  after = p.after;
  order = rw (← id) p.order;
  counted = rw (← quantity) (rw (← completed) p.counted);
  finished = λ enough. p.finished (omega (arith, enough, quantity, completed));
  released = λ enough. rw (← id) (p.released (omega (arith, enough, quantity, completed)));
}

module _ (profile : Profile) (last : ℕ) (terminal : terminal_resource_id profile ≡ some last)
    (number : ℕ) (v : Visit) (db : Database) (c : Carrier) (o : Order) (s : RouteStep)
    (fresh : is_completed c.status ≡ false) where
  -- The visit of the last station.
  visit-IsProduced :
      IsUnderway db number c o s [] → IsProduced o (visit profile v s.resource_id number db)
  unfolding advance finish_route record_completion begun placed asked
  visit-IsProduced u =
      let new = begun db number c o s [] u profile last terminal fresh v in
      let kept = started-kept db number c o s [] u v.asked_at s.resource_id in
      let there =
        resolve-IsUnderway db number c o s [] u profile v.asked_at v.asked_id s.resource_id in
      rw (visit-advance db number c o s [] u profile last terminal fresh v) (
        IsProduced-of_same new o _ kept.0 kept.2 kept.3 (
          finish_counted-IsProduced v.ended_at v.ended_id s.resource_id
            (placed db number c o s [] u profile last terminal fresh v) new _ there.unique))

  -- The visit of a station that another follows.
  visit-IsUnderway :
      (t : RouteStep) (after : List RouteStep) (u : IsUnderway db number c o s (t ∷ after))
      → IsUnderway
          (visit profile v s.resource_id number db)
          number
          (send_on v.ended_at t.step_no
            (placed db number c o s (t ∷ after) u profile last terminal fresh v))
          (begun db number c o s (t ∷ after) u profile last terminal fresh v)
          t
          after
  unfolding advance begun placed asked
  visit-IsUnderway t after u =
      let there =
        resolve-IsUnderway db number c o s (t ∷ after) u profile v.asked_at v.asked_id
          s.resource_id in
      rw (visit-advance db number c o s (t ∷ after) u profile last terminal fresh v) (
        send_on-IsUnderway _ number _ _ s (t ∷ after) there v.ended_at v.ended_id s.resource_id t
          after refl)

-- A carrier that goes through the stations of the rest of its route, each of which asks for it and
-- then reports its process completed, counts one more for its order; when these are all, the order
-- is completed and no carrier is left to it. The profile needs a terminal resource.
pub travel-IsProduced :
    (profile : Profile) (last : ℕ) (at : ℕ → Visit) (number : ℕ)
    → terminal_resource_id profile ≡ some last
    → (rest : List RouteStep) (k : ℕ) (db : Database) (c : Carrier) (o : Order) (s : RouteStep)
    → IsUnderway db number c o s rest
    → is_completed c.status ≡ false
    → IsProduced o (travel profile at k (s ∷ rest) number db)
unfolding begun placed asked
travel-IsProduced profile last at number terminal [] k db c o s u fresh =
    visit-IsProduced profile last terminal number (at k) db c o s fresh u
travel-IsProduced profile last at number terminal (t ∷ after) k db c o s u fresh =
    let v = at k in
    let new = begun db number c o s (t ∷ after) u profile last terminal fresh v in
    let here = placed db number c o s (t ∷ after) u profile last terminal fresh v in
    let kept = started-kept db number c o s (t ∷ after) u v.asked_at s.resource_id in
    let there =
      resolve-IsUnderway db number c o s (t ∷ after) u profile v.asked_at v.asked_id
        s.resource_id in
    let sent =
      send_on-kept (asked db number c o s (t ∷ after) u profile last terminal fresh v) number here
        new s (t ∷ after) there v.ended_at v.ended_id s.resource_id t.step_no in
    let next = visit-IsUnderway profile last terminal number v db c o s fresh t after u in
    IsProduced-of_same new o _ kept.0 kept.2 kept.3 (
      travel-IsProduced profile last at number terminal after (suc k)
        (visit profile v s.resource_id number db) (send_on v.ended_at t.step_no here) new t next
        sent.4)
