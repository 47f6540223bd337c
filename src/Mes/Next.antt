-- ===== src/Mes/Next.antt =====
-- The step that the routing service takes as the next one (src/orders/routing.service.ts): the one
-- with the least greater number of the order.
use mes_copy.Base.{
  ℕ, suc, ◌≤◌, ◌<◌, ◌≡◌, ◌≢◌, refl, true, false, Option, none, some, List, [], ◌∷◌, arith, ◌==◌,
  if◌then◌else◌, find_sound, select, get_elem?, All, Memᴰ, ==_iff,
}
use mathlib.Core.Path.{◌∙◌}
use mes_copy.Mes.{RouteStep, Database}
use mes_copy.Mes.Tables.{IsUnique, All-of_mem}
use mes_copy.Mes.Rows.{IsUnique-select, Mem-select}
use mes_copy.Mes.Routes.{is_of_order}
use mes_copy.Mes.Sorting.{IsAscending, IsAscending-sort_by, IsUnique-sort_by, Mem-sort_by}
use mes_copy.Mes.Stations.{
  find_index, step_after, get_route, next_step, find_route_step, is_route_step,
}

-- The step after the one with this id in a route.
abbrev pub after_id : ℕ → List RouteStep → Option RouteStep
unfolding step_after find_index
after_id id route = step_after route (find_index (λ s. s.id == id) route)

-- The steps of a route from the one with this number.
abbrev pub steps_from : ℕ → List RouteStep → List RouteStep
steps_from n [] = []
steps_from n (s ∷ ss) = let rest = steps_from n ss in if s.step_no == n then s ∷ ss else rest

abbrev pub head : List RouteStep → Option RouteStep
head [] = none
head (s ∷ ss) = some s

abbrev pub tail : List RouteStep → List RouteStep
tail [] = []
tail (s ∷ ss) = ss

step_after-suc :
    (s : RouteStep) (ss : List RouteStep) (i : Option ℕ)
    → step_after (s ∷ ss) (elim i [ none ↦ none | some j ↦ some (suc j) ]) ≡ step_after ss i
unfolding step_after
step_after-suc s ss none = refl
step_after-suc s ss (some j) = refl

get_elem?-zero : (ss : List RouteStep) → get_elem? ss 0 ≡ head ss
get_elem?-zero [] = refl
get_elem?-zero (s ∷ ss) = refl

-- In a route in which ids and numbers stand once, the next step heads what is left of the route.
pub after_id-steps_from :
    (s : RouteStep) (route : List RouteStep)
    → IsUnique (λ t. t.id) route
    → IsUnique (λ t. t.step_no) route
    → Memᴰ s route
    → after_id s.id route ≡ head (tail (steps_from s.step_no route))
unfolding find_index step_after
after_id-steps_from s [] ids numbers m = elim m [ ]
after_id-steps_from s (t ∷ ts) ids numbers m = elim m [
  | Memᴰ.head e ↦
      let id : (t.id == s.id) ≡ true = rw e (ground (arith, ==_iff t.id t.id)) in
      let number : (t.step_no == s.step_no) ≡ true =
        rw e (ground (arith, ==_iff t.step_no t.step_no)) in
      rw id (rw number (get_elem?-zero ts))
  | Memᴰ.tail later ↦
      let id_apart : s.id ≢ t.id = All-of_mem (λ u. u.id ≢ t.id) ts ids.0 later in
      let number_apart : s.step_no ≢ t.step_no =
        All-of_mem (λ u. u.step_no ≢ t.step_no) ts numbers.0 later in
      let id : (t.id == s.id) ≡ false = ground (arith, ==_iff t.id s.id, id_apart) in
      let number : (t.step_no == s.step_no) ≡ false =
        ground (arith, ==_iff t.step_no s.step_no, number_apart) in
      rw id (
        rw number (
          step_after-suc t ts (find_index (λ u. u.id == s.id) ts)
          ∙ after_id-steps_from s ts ids.1 numbers.1 later))
]

-- No step of the route lies between the number and the step, and if there is no step, none lies
-- above it.
abbrev pub IsLeastAbove : ℕ → List RouteStep → Option RouteStep → Type 0
IsLeastAbove n route none = All (λ u. u.step_no ≤ n) route
IsLeastAbove n route (some t) =
    Memᴰ t route × (n < t.step_no) × All (λ u. n < u.step_no → t.step_no ≤ u.step_no) route

All-from_below :
    (t : RouteStep) (n : ℕ) (ts : List RouteStep)
    → All (λ u. t.step_no < u.step_no) ts
    → All (λ u. n < u.step_no → t.step_no ≤ u.step_no) ts
All-from_below t n [] h = tt
All-from_below t n (u ∷ us) h = ((λ _. omega (arith, h.0)), All-from_below t n us h.1)

IsLeastAbove-cons :
    (n : ℕ) (t : RouteStep) (ts : List RouteStep) (next : Option RouteStep)
    → t.step_no ≤ n
    → IsLeastAbove n ts next
    → IsLeastAbove n (t ∷ ts) next
IsLeastAbove-cons n t ts none low h = (low, h)
IsLeastAbove-cons n t ts (some u) low (mem, above, least) =
    (Memᴰ.tail mem, above, ((λ high. omega (arith, low, high)), least))

IsLeastAbove-head :
    (t : RouteStep) (ts : List RouteStep)
    → IsAscending (λ u. u.step_no) (t ∷ ts)
    → IsLeastAbove t.step_no (t ∷ ts) (head ts)
IsLeastAbove-head t [] h = (omega arith, tt)
IsLeastAbove-head t (u ∷ us) h = (
  Memᴰ.tail (Memᴰ.head refl),
  h.0.0,
  ((λ high. omega (arith, high)), ((λ _. omega arith), All-from_below u t.step_no us h.1.0)),
)

pub steps_from-IsLeastAbove :
    (s : RouteStep) (route : List RouteStep)
    → IsAscending (λ t. t.step_no) route
    → Memᴰ s route
    → IsLeastAbove s.step_no route (head (tail (steps_from s.step_no route)))
steps_from-IsLeastAbove s [] h m = elim m [ ]
steps_from-IsLeastAbove s (t ∷ ts) h m = elim m [
  | Memᴰ.head e ↦
      let number : (t.step_no == s.step_no) ≡ true =
        rw e (ground (arith, ==_iff t.step_no t.step_no)) in
      rw number (rw e (IsLeastAbove-head t ts h))
  | Memᴰ.tail later ↦
      let low : t.step_no < s.step_no = All-of_mem (λ u. t.step_no < u.step_no) ts h.0 later in
      let number : (t.step_no == s.step_no) ≡ false = ground (arith, ==_iff t.step_no s.step_no) in
      rw number (
        IsLeastAbove-cons s.step_no t ts (head (tail (steps_from s.step_no ts)))
          (omega (arith, low)) (steps_from-IsLeastAbove s ts h.1 later))
]

-- The unique indices of the table of route steps: the primary key, and the number in each order.
pub record IsIndexed (steps : List RouteStep) : Type 0 where
  pub ids : IsUnique (λ s. s.id) steps
  pub numbers : (order_id : ℕ) → IsUnique (λ s. s.step_no) (select (is_of_order order_id) steps)

module _ (db : Database) (indexed : IsIndexed db.route_steps) (order_id : ℕ) where
  pub get_route-ids : IsUnique (λ s. s.id) (get_route db order_id)
  unfolding get_route
  get_route-ids =
      let route = select (is_of_order order_id) db.route_steps in
      IsUnique-sort_by (λ s. s.id) (λ s. s.step_no) route
        (IsUnique-select (λ s. s.id) (is_of_order order_id) db.route_steps indexed.ids)

  pub get_route-numbers : IsUnique (λ s. s.step_no) (get_route db order_id)
  unfolding get_route
  get_route-numbers =
      IsUnique-sort_by (λ s. s.step_no) (λ s. s.step_no)
        (select (is_of_order order_id) db.route_steps) (indexed.numbers order_id)

  pub get_route-IsAscending : IsAscending (λ s. s.step_no) (get_route db order_id)
  unfolding get_route
  get_route-IsAscending =
      IsAscending-sort_by (λ s. s.step_no) (select (is_of_order order_id) db.route_steps)
        (indexed.numbers order_id)

  pub get_route-Mem :
      (n : ℕ) (s : RouteStep)
      → find_route_step db order_id n ≡ some s
      → Memᴰ s (get_route db order_id) × (s.step_no ≡ n)
  unfolding get_route
  get_route-Mem n s found =
      let (mem, holds) = find_sound (is_route_step order_id n) db.route_steps found in
      let mine : (s.order_id == order_id) ≡ true = ground (arith, holds) in
      let number : s.step_no ≡ n = ground (arith, holds, ==_iff s.step_no n) in
      (
        Mem-sort_by (λ t. t.step_no) s (select (is_of_order order_id) db.route_steps)
            (Mem-select (is_of_order order_id) s db.route_steps mem mine),
        number,
      )

  -- The next step heads what is left of the route.
  pub next_step-steps_from :
      (n : ℕ) (s : RouteStep)
      → find_route_step db order_id n ≡ some s
      → next_step db s order_id ≡ head (tail (steps_from n (get_route db order_id)))
  unfolding next_step
  next_step-steps_from n s found =
      let (mem, number) = get_route-Mem n s found in
      rw (← number)
        (after_id-steps_from s (get_route db order_id) get_route-ids get_route-numbers mem)

  -- The next step of an order is the one with the least number above that of the current step, and
  -- there is none exactly if no step of the order has a greater number. The steps have their ids,
  -- and their numbers in each order, to themselves.
  pub next_step-IsLeastAbove :
      (n : ℕ) (s : RouteStep)
      → find_route_step db order_id n ≡ some s
      → IsLeastAbove n (get_route db order_id) (next_step db s order_id)
  next_step-IsLeastAbove n s found =
      let (mem, number) = get_route-Mem n s found in
      let left = steps_from-IsLeastAbove s (get_route db order_id) get_route-IsAscending mem in
      rw (next_step-steps_from n s found) (rw (← number) left)
