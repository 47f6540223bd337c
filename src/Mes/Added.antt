-- ===== src/Mes/Added.antt =====
-- Rows that are added to a table, and the route of an order that is new to it.
use mes_copy.Base.{
  ℕ, suc, ◌≤◌, ◌<◌, ◌≡◌, ◌≢◌, refl, sym, ap, Bool, true, false, List, [], ◌∷◌, ◌++◌, arith, ◌==◌,
  leb, select, All, inl, inr, Bool-cases, ==_iff,
}
use mathlib.Core.Path.{◌∙◌}
use mathlib.Core.List.{append_assoc, append-nil}
use mes_copy.Mes.{RouteStep}
use mes_copy.Mes.Tables.{save, save_all, sort_by, insert_sorted, IsUnique}
use mes_copy.Mes.Sorting.{IsAscending}
use mes_copy.Mes.Routes.{StepDefinition, route_rows}

module _ {A : Type 0} (id : A → ℕ) where
  save-new : (x : A) (xs : List A) → All (λ y. id y ≢ id x) xs → save id x xs ≡ xs ++ x ∷ []
  save-new x [] new = refl
  save-new x (y ∷ ys) new =
      let other : (id y == id x) ≡ false = ground (arith, ==_iff (id y) (id x), new.0) in
      rw other (ap (λ zs. y ∷ zs) (save-new x ys new.1))

  All-snoc : (P : A → Type 0) (xs : List A) (x : A) → All P xs → P x → All P (xs ++ x ∷ [])
  All-snoc P [] x h p = (p, tt)
  All-snoc P (y ∷ ys) x h p = (h.0, All-snoc P ys x h.1 p)

  -- Each row is new to the table.
  abbrev pub AreNew : List A → List A → Type 0
  AreNew rows table = All (λ x. All (λ y. id y ≢ id x) table) rows

  AreNew-snoc :
      (rows table : List A) (x : A)
      → AreNew rows table
      → All (λ y. id y ≢ id x) rows
      → AreNew rows (table ++ x ∷ [])
  AreNew-snoc [] table x new apart = tt
  AreNew-snoc (r ∷ rs) table x new apart =
      let differ : id x ≢ id r = λ e. apart.0 (sym e) in
      (All-snoc (λ y. id y ≢ id r) table x new.0 differ, AreNew-snoc rs table x new.1 apart.1)

  pub save_all-new :
      (rows table : List A)
      → AreNew rows table
      → IsUnique id rows
      → save_all id rows table ≡ table ++ rows
  save_all-new [] table new unique = sym (append-nil table)
  save_all-new (r ∷ rs) table new unique =
      ap (save_all id rs) (save-new r table new.0)
      ∙ (save_all-new rs (table ++ r ∷ []) (AreNew-snoc rs table r new.1 unique.0) unique.1
          ∙ append_assoc table (r ∷ []) rs)

module _ {A : Type 0} (test : A → Bool) where
  pub select-append : (xs ys : List A) → select test (xs ++ ys) ≡ select test xs ++ select test ys
  select-append [] ys = refl
  select-append (x ∷ xs) ys = elim (Bool-cases (test x)) [
    | inl hit ↦ rw hit (ap (λ zs. x ∷ zs) (select-append xs ys))
    | inr miss ↦ rw miss (select-append xs ys)
  ]

  pub select-none : (xs : List A) → All (λ x. test x ≡ false) xs → select test xs ≡ []
  select-none [] h = refl
  select-none (x ∷ xs) h = rw h.0 (select-none xs h.1)

  pub select-all : (xs : List A) → All (λ x. test x ≡ true) xs → select test xs ≡ xs
  select-all [] h = refl
  select-all (x ∷ xs) h = rw h.0 (ap (λ zs. x ∷ zs) (select-all xs h.1))

module _ {A : Type 0} (key : A → ℕ) where
  insert_sorted-first :
      (x : A) (xs : List A) → All (λ y. key x < key y) xs → insert_sorted key x xs ≡ x ∷ xs
  insert_sorted-first x [] below = refl
  insert_sorted-first x (y ∷ ys) below =
      let before : leb (key x) (key y) ≡ true = ground (arith, below.0) in rw before refl

  pub sort_by-ascending : (xs : List A) → IsAscending key xs → sort_by key xs ≡ xs
  sort_by-ascending [] h = refl
  sort_by-ascending (x ∷ xs) h =
      ap (insert_sorted key x) (sort_by-ascending xs h.1) ∙ insert_sorted-first x xs h.0

  All-differ : (n : ℕ) (xs : List A) → All (λ y. n < key y) xs → All (λ y. key y ≢ n) xs
  All-differ n [] h = tt
  All-differ n (x ∷ xs) h = ((λ e. omega (arith, e, h.0)), All-differ n xs h.1)

  pub IsAscending-IsUnique : (xs : List A) → IsAscending key xs → IsUnique key xs
  IsAscending-IsUnique [] h = tt
  IsAscending-IsUnique (x ∷ xs) h = (All-differ (key x) xs h.0, IsAscending-IsUnique xs h.1)

-- The steps are numbered from `k + 1`.
abbrev pub IsNumbered : ℕ → List StepDefinition → Type 0
IsNumbered k [] = Unit
IsNumbered k (d ∷ ds) = (d.step_no ≡ suc k) × IsNumbered (suc k) ds

module _ (new_id : ℕ → ℕ) (distinct : (j k : ℕ) → new_id j ≡ new_id k → j ≡ k) (order_id : ℕ) where
  pub route_rows-order :
      (k : ℕ) (steps : List StepDefinition)
      → All (λ s. s.order_id ≡ order_id) (route_rows new_id order_id k steps)
  unfolding route_rows
  route_rows-order k [] = tt
  route_rows-order k (d ∷ ds) = (refl, route_rows-order (suc k) ds)

  route_rows-above :
      (j n k : ℕ) (steps : List StepDefinition)
      → IsNumbered n steps
      → j ≤ n
      → All (λ s. j < s.step_no) (route_rows new_id order_id k steps)
  unfolding route_rows
  route_rows-above j n k [] numbered low = tt
  route_rows-above j n k (d ∷ ds) numbered low = (
    omega (arith, numbered.0, low),
    route_rows-above j (suc n) (suc k) ds numbered.1 (omega (arith, low)),
  )

  pub route_rows-IsAscending :
      (n k : ℕ) (steps : List StepDefinition)
      → IsNumbered n steps
      → IsAscending (λ s. s.step_no) (route_rows new_id order_id k steps)
  unfolding route_rows
  route_rows-IsAscending n k [] numbered = tt
  route_rows-IsAscending n k (d ∷ ds) numbered = (
    route_rows-above d.step_no (suc n) (suc k) ds numbered.1 (omega (arith, numbered.0)),
    route_rows-IsAscending (suc n) (suc k) ds numbered.1,
  )

  route_rows-apart :
      (j k : ℕ) (steps : List StepDefinition)
      → j < k
      → All (λ s. s.id ≢ new_id j) (route_rows new_id order_id k steps)
  unfolding route_rows
  route_rows-apart j k [] low = tt
  route_rows-apart j k (d ∷ ds) low = (
    (λ e. omega (arith, low, distinct k j e)),
    route_rows-apart j (suc k) ds (omega (arith, low)),
  )

  pub route_rows-IsUnique :
      (k : ℕ) (steps : List StepDefinition)
      → IsUnique (λ s. s.id) (route_rows new_id order_id k steps)
  unfolding route_rows
  route_rows-IsUnique k [] = tt
  route_rows-IsUnique k (d ∷ ds) =
      (route_rows-apart k (suc k) ds (omega arith), route_rows-IsUnique (suc k) ds)

  pub route_rows-AreNew :
      (k : ℕ) (steps : List StepDefinition) (table : List RouteStep)
      → ((j : ℕ) → All (λ s. s.id ≢ new_id j) table)
      → AreNew (λ s. s.id) (route_rows new_id order_id k steps) table
  unfolding route_rows
  route_rows-AreNew k [] table new = tt
  route_rows-AreNew k (d ∷ ds) table new = (new k, route_rows-AreNew (suc k) ds table new)
