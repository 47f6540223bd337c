-- ===== src/Mes/Sorting.antt =====
-- A table in the order of a column with distinct values: a step of a route and the one after it.
use mes_copy.Base.{
  ℕ, ◌<◌, ◌≡◌, ◌≢◌, ◌⊎◌, refl, sym, List, [], ◌∷◌, arith, leb, All, Memᴰ, inl, inr, Bool-cases,
}
use mes_copy.Mes.Tables.{insert_sorted, sort_by, IsUnique, All-insert_sorted, All-sort_by}

module _ {A : Type 0} where
  pub Mem-insert_sorted : (key : A → ℕ) (x : A) (xs : List A) → Memᴰ x (insert_sorted key x xs)
  Mem-insert_sorted key x [] = Memᴰ.head refl
  Mem-insert_sorted key x (y ∷ ys) = elim (Bool-cases (leb (key x) (key y))) [
    | inl before ↦ rw before (Memᴰ.head refl)
    | inr after ↦ rw after (Memᴰ.tail (Mem-insert_sorted key x ys))
  ]

  pub Mem-insert_sorted_other :
      (key : A → ℕ) (x z : A) (xs : List A) → Memᴰ z xs → Memᴰ z (insert_sorted key x xs)
  Mem-insert_sorted_other key x z [] m = elim m [ ]
  Mem-insert_sorted_other key x z (y ∷ ys) m = elim (Bool-cases (leb (key x) (key y))) [
    | inl before ↦ rw before (Memᴰ.tail m)
    | inr after ↦ rw after (elim m [
      | Memᴰ.head e ↦ Memᴰ.head e
      | Memᴰ.tail later ↦ Memᴰ.tail (Mem-insert_sorted_other key x z ys later)
    ])
  ]

  pub Mem-sort_by : (key : A → ℕ) (z : A) (xs : List A) → Memᴰ z xs → Memᴰ z (sort_by key xs)
  Mem-sort_by key z [] m = elim m [ ]
  Mem-sort_by key z (x ∷ xs) m = elim m [
    | Memᴰ.head e ↦ rw e (Mem-insert_sorted key x (sort_by key xs))
    | Memᴰ.tail later ↦
        Mem-insert_sorted_other key x z (sort_by key xs) (Mem-sort_by key z xs later)
  ]

  Mem-of_insert_sorted :
      (key : A → ℕ) (x z : A) (xs : List A) → Memᴰ z (insert_sorted key x xs) → (z ≡ x) ⊎ Memᴰ z xs
  Mem-of_insert_sorted key x z [] m = elim m [ Memᴰ.head e ↦ inl e | Memᴰ.tail later ↦ inr later ]
  Mem-of_insert_sorted key x z (y ∷ ys) m = elim (Bool-cases (leb (key x) (key y))) [
    | inl before ↦
        let here : Memᴰ z (x ∷ y ∷ ys) = rw before at m in
        elim here [ Memᴰ.head e ↦ inl e | Memᴰ.tail later ↦ inr later ]
    | inr after ↦
        let here : Memᴰ z (y ∷ insert_sorted key x ys) = rw after at m in
        elim here [
          | Memᴰ.head e ↦ inr (Memᴰ.head e)
          | Memᴰ.tail later ↦ elim (Mem-of_insert_sorted key x z ys later) [
            | inl e ↦ inl e
            | inr old ↦ inr (Memᴰ.tail old)
          ]
        ]
  ]

  pub Mem-of_sort_by : (key : A → ℕ) (z : A) (xs : List A) → Memᴰ z (sort_by key xs) → Memᴰ z xs
  Mem-of_sort_by key z [] m = m
  Mem-of_sort_by key z (x ∷ xs) m = elim (Mem-of_insert_sorted key x z (sort_by key xs) m) [
    | inl e ↦ Memᴰ.head e
    | inr old ↦ Memᴰ.tail (Mem-of_sort_by key z xs old)
  ]

  module _ (id key : A → ℕ) where
    pub IsUnique-insert_sorted :
        (x : A) (xs : List A)
        → All (λ y. id y ≢ id x) xs
        → IsUnique id xs
        → IsUnique id (insert_sorted key x xs)
    IsUnique-insert_sorted x [] apart h = (tt, tt)
    IsUnique-insert_sorted x (y ∷ ys) apart h = elim (Bool-cases (leb (key x) (key y))) [
      | inl before ↦ rw before (apart, h)
      | inr after ↦
          let differ : id x ≢ id y = λ e. apart.0 (sym e) in
          rw after (
            All-insert_sorted (λ z. id z ≢ id y) key x ys differ h.0,
            IsUnique-insert_sorted x ys apart.1 h.1,
          )
    ]

    pub IsUnique-sort_by : (xs : List A) → IsUnique id xs → IsUnique id (sort_by key xs)
    IsUnique-sort_by [] h = tt
    IsUnique-sort_by (x ∷ xs) h =
        IsUnique-insert_sorted x (sort_by key xs) (All-sort_by (λ y. id y ≢ id x) key xs h.0)
          (IsUnique-sort_by xs h.1)

  module _ (key : A → ℕ) where
    -- Every row comes before those with a greater value.
    abbrev pub IsAscending : List A → Type 0
    IsAscending [] = Unit
    IsAscending (x ∷ xs) = All (λ y. key x < key y) xs × IsAscending xs

    All-below :
        (x y : A) (ys : List A)
        → key x < key y
        → All (λ z. key y < key z) ys
        → All (λ z. key x < key z) ys
    All-below x y [] less h = tt
    All-below x y (z ∷ zs) less h = (omega (arith, less, h.0), All-below x y zs less h.1)

    pub IsAscending-insert_sorted :
        (x : A) (xs : List A)
        → All (λ y. key y ≢ key x) xs
        → IsAscending xs
        → IsAscending (insert_sorted key x xs)
    IsAscending-insert_sorted x [] apart h = (tt, tt)
    IsAscending-insert_sorted x (y ∷ ys) apart h = elim (Bool-cases (leb (key x) (key y))) [
      | inl before ↦
          let less : key x < key y = ground (arith, before, apart.0) in
          rw before ((less, All-below x y ys less h.0), h)
      | inr after ↦
          let less : key y < key x = ground (arith, after) in
          rw after (
            All-insert_sorted (λ z. key y < key z) key x ys less h.0,
            IsAscending-insert_sorted x ys apart.1 h.1,
          )
    ]

    pub IsAscending-sort_by : (xs : List A) → IsUnique key xs → IsAscending (sort_by key xs)
    IsAscending-sort_by [] h = tt
    IsAscending-sort_by (x ∷ xs) h =
        IsAscending-insert_sorted x (sort_by key xs) (All-sort_by (λ y. key y ≢ key x) key xs h.0)
          (IsAscending-sort_by xs h.1)
