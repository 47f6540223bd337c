-- ===== src/Mes/Left.antt =====
-- What is left of a route when a carrier goes on to its next step, and that the step is found by
-- its number.
use mes_copy.Base.{
  ℕ, ◌≡◌, ◌≢◌, refl, sym, ap, true, false, some, List, [], ◌∷◌, arith, ◌==◌, find, select, Memᴰ,
  inl, inr, Bool-cases, ==_iff,
}
use mes_copy.Mes.{RouteStep, Database}
use mes_copy.Mes.Tables.{IsUnique, All-of_mem}
use mes_copy.Mes.Routes.{is_of_order}
use mes_copy.Mes.Sorting.{Mem-of_sort_by}
use mes_copy.Mes.Next.{steps_from, IsIndexed, get_route-numbers}
use mes_copy.Mes.Stations.{get_route, find_route_step, is_route_step}

steps_from-Mem :
    (n : ℕ) (t : RouteStep) (route : List RouteStep) → Memᴰ t (steps_from n route) → Memᴰ t route
steps_from-Mem n t [] m = m
steps_from-Mem n t (u ∷ us) m = elim (Bool-cases (u.step_no == n)) [
  | inl here ↦ rw here at m
  | inr later ↦
      Memᴰ.tail
        (let below : Memᴰ t (steps_from n us) = rw later at m in steps_from-Mem n t us below)
]

-- From the number of the second step on, the route is what was left but for the first.
pub steps_from-next :
    (n : ℕ) (s t : RouteStep) (rest route : List RouteStep)
    → IsUnique (λ u. u.step_no) route
    → steps_from n route ≡ s ∷ t ∷ rest
    → steps_from t.step_no route ≡ t ∷ rest
steps_from-next n s t rest [] unique e = cc
steps_from-next n s t rest (u ∷ us) unique e = elim (Bool-cases (u.step_no == n)) [
  | inl here ↦
      let tail : us ≡ t ∷ rest = ground (arith, here, e) in
      let mem : Memᴰ t us = rw tail (Memᴰ.head refl) in
      let apart : t.step_no ≢ u.step_no = All-of_mem (λ w. w.step_no ≢ u.step_no) us unique.0 mem in
      let miss : (u.step_no == t.step_no) ≡ false = ground (arith, ==_iff u.step_no t.step_no) in
      let hit : (t.step_no == t.step_no) ≡ true = ground (arith, ==_iff t.step_no t.step_no) in
      rw miss (rw tail (rw hit refl))
  | inr later ↦
      let below : steps_from n us ≡ s ∷ t ∷ rest = ground (arith, later, e) in
      let mem : Memᴰ t us = steps_from-Mem n t us (rw below (Memᴰ.tail (Memᴰ.head refl))) in
      let apart : t.step_no ≢ u.step_no = All-of_mem (λ w. w.step_no ≢ u.step_no) us unique.0 mem in
      let miss : (u.step_no == t.step_no) ≡ false = ground (arith, ==_iff u.step_no t.step_no) in
      rw miss (steps_from-next n s t rest us unique.1 below)
]

find-of_Mem :
    (order_id : ℕ) (t : RouteStep) (steps : List RouteStep)
    → IsUnique (λ u. u.step_no) (select (is_of_order order_id) steps)
    → Memᴰ t (select (is_of_order order_id) steps)
    → find (is_route_step order_id t.step_no) steps ≡ some t
find-of_Mem order_id t [] unique m = elim m [ ]
find-of_Mem order_id t (u ∷ us) unique m = elim (Bool-cases (u.order_id == order_id)) [
  | inl mine ↦
      let here : Memᴰ t (u ∷ select (is_of_order order_id) us) = rw mine at m in
      let apart : IsUnique (λ w. w.step_no) (u ∷ select (is_of_order order_id) us) =
        rw mine at unique in
      elim here [
        | Memᴰ.head e ↦
            let hit : (u.step_no == t.step_no) ≡ true =
              rw e (ground (arith, ==_iff u.step_no u.step_no)) in
            rw mine (rw hit (ap some (sym e)))
        | Memᴰ.tail later ↦
            let differ : t.step_no ≢ u.step_no =
              All-of_mem (λ w. w.step_no ≢ u.step_no) (select (is_of_order order_id) us) apart.0
                later in
            let miss : (u.step_no == t.step_no) ≡ false =
              ground (arith, ==_iff u.step_no t.step_no) in
            rw mine (rw miss (find-of_Mem order_id t us apart.1 later))
      ]
  | inr other ↦
      let below : Memᴰ t (select (is_of_order order_id) us) = rw other at m in
      let apart : IsUnique (λ w. w.step_no) (select (is_of_order order_id) us) =
        rw other at unique in
      rw other (find-of_Mem order_id t us apart below)
]

module _ (db : Database) (indexed : IsIndexed db.route_steps) (order_id : ℕ) where
  -- A step of a route is found by its number.
  pub find_route_step-get_route :
      (t : RouteStep)
      → Memᴰ t (get_route db order_id)
      → find_route_step db order_id t.step_no ≡ some t
  unfolding get_route
  find_route_step-get_route t m =
      find-of_Mem order_id t db.route_steps (indexed.numbers order_id)
        (Mem-of_sort_by (λ u. u.step_no) t (select (is_of_order order_id) db.route_steps) m)

  pub left-next :
      (n : ℕ) (s t : RouteStep) (rest : List RouteStep)
      → steps_from n (get_route db order_id) ≡ s ∷ t ∷ rest
      → (steps_from t.step_no (get_route db order_id) ≡ t ∷ rest)
        × (find_route_step db order_id t.step_no ≡ some t)
  left-next n s t rest e =
      let mem : Memᴰ t (get_route db order_id) =
        steps_from-Mem n t (get_route db order_id) (rw e (Memᴰ.tail (Memᴰ.head refl))) in
      (
        steps_from-next n s t rest (get_route db order_id) (get_route-numbers db indexed order_id)
            e,
        find_route_step-get_route t mem,
      )
