-- ===== src/Mes/Underway/Steps.antt =====
-- What the request and the completion of a station leave of a carrier on its route
-- (src/orders/routing.service.ts).
use mes_copy.Base.{ℕ, ◌≡◌, ap, false, some, List, ◌∷◌, arith, find}
use mathlib.Core.Path.{◌∙◌}
use mes_copy.Mes.{Carrier, Order, RouteStep, Database, Profile}
use mes_copy.Mes.Tables.{save}
use mes_copy.Mes.Rows.{find-save, IsUnique-save}
use mes_copy.Mes.Left.{left-next}
use mes_copy.Mes.Stations.{
  has_carrier_number, is_completed, get_route, occupy, accepted_database, save_carrier, start_order,
}
use mes_copy.Mes.Completion.{send_on, record_completion}
use mes_copy.Mes.Underway.{
  IsUnderway, started, started-find, started-kept, start_order-kept, occupy-kept, number_of,
}

module _ (db : Database) (number : ℕ) (c : Carrier) (o : Order) (s : RouteStep)
    (rest : List RouteStep) (u : IsUnderway db number c o s rest) where
  -- A carrier that is saved is found by its number.
  pub carrier-saved :
      (c' : Carrier)
      → c'.id ≡ c.id
      → c'.carrier_number ≡ c.carrier_number
      → find (has_carrier_number number) (save (λ r. r.id) c' db.carriers) ≡ some c'
  carrier-saved c' id same =
      find-save (λ r. r.id) (has_carrier_number number) c' c db.carriers u.unique id
        (ground (arith, number_of db number c o s rest u, same)) u.carrier

  module _ (profile : Profile) (now id r : ℕ) where
    accepted-carriers :
        (accepted_database profile now id r c o s db).carriers
        ≡ save (λ x. x.id) (occupy now r c) db.carriers
    unfolding accepted_database
    accepted-carriers =
        (start_order-kept db number c o s rest u now r (save_carrier (occupy now r c) db)).0

    accepted-route_steps :
        (accepted_database profile now id r c o s db).route_steps ≡ db.route_steps
    unfolding accepted_database
    accepted-route_steps =
        (start_order-kept db number c o s rest u now r (save_carrier (occupy now r c) db)).1

    accepted-orders :
        (accepted_database profile now id r c o s db).orders ≡ (start_order now o db).orders
    unfolding accepted_database start_order
    accepted-orders = ground arith

    pub resolve-IsUnderway :
        IsUnderway
          (accepted_database profile now id r c o s db)
          number
          (occupy now r c)
          (started db number c o s rest u now)
          s
          rest
    unfolding get_route
    resolve-IsUnderway =
        let occupied = occupy-kept db number c o s rest u now r in
        let begun = started-kept db number c o s rest u now r in
        record {
          unique =
              rw accepted-carriers
                (IsUnique-save (λ x. x.id) (occupy now r c) db.carriers u.unique);
          indexed = rw accepted-route_steps u.indexed;
          carrier = rw accepted-carriers (carrier-saved (occupy now r c) occupied.0 occupied.1);
          in_order = rw begun.0 (occupied.2 ∙ u.in_order);
          step_no = occupied.3 ∙ u.step_no;
          order = rw begun.0 (rw accepted-orders (started-find db number c o s rest u now));
          running = begun.1;
          step = rw begun.0 (rw accepted-route_steps u.step);
          left = rw begun.0 (rw accepted-route_steps u.left);
        }

  module _ (now id r : ℕ) where
    pub send_on-kept :
        (n : ℕ)
        → ((send_on now n c).id ≡ c.id)
          × ((send_on now n c).carrier_number ≡ c.carrier_number)
          × ((send_on now n c).order_id ≡ c.order_id)
          × ((send_on now n c).current_step_no ≡ some n)
          × (is_completed (send_on now n c).status ≡ false)
    unfolding send_on
    send_on-kept n = ground arith

    -- What the completion of the step leaves when a step follows.
    pub send_on-IsUnderway :
        (t : RouteStep) (after : List RouteStep)
        → rest ≡ t ∷ after
        → IsUnderway
            (save_carrier
              (send_on now t.step_no c)
              (record_completion now id r c o.id (some o) s db))
            number
            (send_on now t.step_no c)
            o
            t
            after
    unfolding get_route record_completion
    send_on-IsUnderway t after e =
        let sent = send_on-kept t.step_no in
        let (left, step) =
          left-next db u.indexed o.id s.step_no s t after (u.left ∙ ap (λ ss. s ∷ ss) e) in
        record {
          unique = IsUnique-save (λ x. x.id) (send_on now t.step_no c) db.carriers u.unique;
          indexed = u.indexed;
          carrier = carrier-saved (send_on now t.step_no c) sent.0 sent.1;
          in_order = sent.2 ∙ u.in_order;
          step_no = sent.3;
          order = u.order;
          running = u.running;
          step = step;
          left = left;
        }
