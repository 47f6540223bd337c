-- ===== src/Mes/Tables.antt =====
-- The tables of the database and what the repositories do on them (`find`, `findOne`, `save`,
-- `delete` of TypeORM as the services call them), and what a call leaves of a property of the rows.
use mes_copy.Base.{
  ℕ, ◌≡◌, ◌≢◌, Bool, false, Option, none, some, List, [], ◌∷◌, arith, ◌==◌, leb, if◌then◌else◌,
  find, select, All, Memᴰ, inl, inr, Bool-cases, not,
}

-- `where: { column: value }` on a column that may be null.
abbrev pub is_at : ℕ → Option ℕ → Bool
is_at n none = false
is_at n (some m) = m == n

module _ {A : Type 0} (id : A → ℕ) where
  -- `save` of one entity: its row is replaced, or added when there is none.
  abbrev pub save : A → List A → List A
  save x [] = x ∷ []
  save x (y ∷ ys) = let rest = save x ys in if id y == id x then x ∷ ys else y ∷ rest

  -- `save` of an array.
  abbrev pub save_all : List A → List A → List A
  save_all [] table = table
  save_all (x ∷ xs) table = save_all xs (save x table)

  -- `delete`.
  abbrev pub delete : (A → Bool) → List A → List A
  delete test table = select (λ y. not (test y)) table

  -- `order: { column: 'ASC' }`.
  abbrev pub insert_sorted : A → List A → List A
  insert_sorted x [] = x ∷ []
  insert_sorted x (y ∷ ys) =
      let rest = insert_sorted x ys in if leb (id x) (id y) then x ∷ y ∷ ys else y ∷ rest

  abbrev pub sort_by : List A → List A
  sort_by [] = []
  sort_by (x ∷ xs) = insert_sorted x (sort_by xs)

  -- No two rows have the value of the column in common.
  abbrev pub IsUnique : List A → Type 0
  IsUnique [] = Unit
  IsUnique (x ∷ xs) = All (λ y. id y ≢ id x) xs × IsUnique xs

module _ {A : Type 0} (P : A → Type 0) where
  pub All-of_mem : (xs : List A) {x : A} → All P xs → Memᴰ x xs → P x
  All-of_mem [] h m = elim m [ ]
  All-of_mem (y ∷ ys) {x} h (Memᴰ.head e) = rw e h.0
  All-of_mem (y ∷ ys) {x} h (Memᴰ.tail m) = All-of_mem ys h.1 m

  pub All-find : (test : A → Bool) (xs : List A) {x : A} → All P xs → find test xs ≡ some x → P x
  All-find test [] h e = cc
  All-find test (y ∷ ys) {x} h e = elim (Bool-cases (test y)) [
    | inl hit ↦ let same : y ≡ x = ground arith in rw (← same) h.0
    | inr miss ↦ All-find test ys h.1 (ground arith)
  ]

  pub All-select : (test : A → Bool) (xs : List A) → All P xs → All P (select test xs)
  All-select test [] h = tt
  All-select test (x ∷ xs) h = elim (Bool-cases (test x)) [
    | inl hit ↦ rw hit (h.0, All-select test xs h.1)
    | inr miss ↦ rw miss (All-select test xs h.1)
  ]

  pub All-insert_sorted :
      (key : A → ℕ) (x : A) (xs : List A) → P x → All P xs → All P (insert_sorted key x xs)
  All-insert_sorted key x [] p h = (p, tt)
  All-insert_sorted key x (y ∷ ys) p h = elim (Bool-cases (leb (key x) (key y))) [
    | inl before ↦ rw before (p, h)
    | inr after ↦ rw after (h.0, All-insert_sorted key x ys p h.1)
  ]

  pub All-sort_by : (key : A → ℕ) (xs : List A) → All P xs → All P (sort_by key xs)
  All-sort_by key [] h = tt
  All-sort_by key (x ∷ xs) h = All-insert_sorted key x (sort_by key xs) h.0 (All-sort_by key xs h.1)

  module _ (id : A → ℕ) where
    pub All-save : (x : A) (xs : List A) → P x → All P xs → All P (save id x xs)
    All-save x [] p h = (p, tt)
    All-save x (y ∷ ys) p h = elim (Bool-cases (id y == id x)) [
      | inl same ↦ rw same (p, h.1)
      | inr other ↦ rw other (h.0, All-save x ys p h.1)
    ]

    pub All-save_all : (xs table : List A) → All P xs → All P table → All P (save_all id xs table)
    All-save_all [] table new old = old
    All-save_all (x ∷ xs) table new old =
        All-save_all xs (save id x table) new.1 (All-save x table new.0 old)
