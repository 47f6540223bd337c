-- ===== src/Mes/Rows.antt =====
-- What `find` gives of a table after `save`, and the tables whose rows have their ids to themselves.
use mes_copy.Base.{
  ℕ, ◌≡◌, ◌≢◌, refl, sym, ap, Bool, true, false, Option, some, List, [], ◌∷◌, arith, ◌==◌, find,
  find_sound, select, Memᴰ, inl, inr, Bool-cases, ==_iff,
}
use mes_copy.Mes.Tables.{save, save_all, All-select, IsUnique, All-save, All-of_mem}

module _ {A : Type 0} (id : A → ℕ) where
  -- The row of an id.
  abbrev pub row : ℕ → List A → Option A
  row n table = find (λ x. id x == n) table

  pub row-save : (x : A) (xs : List A) → row (id x) (save id x xs) ≡ some x
  row-save x [] = ground (arith, ==_iff (id x) (id x))
  row-save x (y ∷ ys) = elim (Bool-cases (id y == id x)) [
    | inl same ↦ rw same (ground (arith, ==_iff (id x) (id x)))
    | inr other ↦ ground (arith, other, row-save x ys)
  ]

  pub row-save_other : (x : A) (n : ℕ) (xs : List A) → n ≢ id x → row n (save id x xs) ≡ row n xs
  row-save_other x n [] apart = ground (arith, ==_iff (id x) n)
  row-save_other x n (y ∷ ys) apart = elim (Bool-cases (id y == id x)) [
    | inl same ↦ ground (arith, ==_iff (id x) n, ==_iff (id y) (id x), ==_iff (id y) n, same)
    | inr other ↦ ground (arith, other, row-save_other x n ys apart)
  ]

  pub IsUnique-save : (x : A) (xs : List A) → IsUnique id xs → IsUnique id (save id x xs)
  IsUnique-save x [] h = (tt, tt)
  IsUnique-save x (y ∷ ys) h = elim (Bool-cases (id y == id x)) [
    | inl same ↦
        let equal : id y ≡ id x = ground (arith, ==_iff (id y) (id x)) in
        rw same ((rw (← equal) h.0), h.1)
    | inr other ↦
        let apart : id x ≢ id y = ground (arith, ==_iff (id y) (id x)) in
        rw other (All-save (λ z. id z ≢ id y) id x ys apart h.0, IsUnique-save x ys h.1)
  ]

  -- A row of the table is that of its id.
  pub row-of_Mem : (x : A) (xs : List A) → IsUnique id xs → Memᴰ x xs → row (id x) xs ≡ some x
  row-of_Mem x [] unique m = elim m [ ]
  row-of_Mem x (y ∷ ys) unique m = elim m [
    | Memᴰ.head e ↦
        let hit : (id y == id x) ≡ true = rw e (ground (arith, ==_iff (id y) (id y))) in
        rw hit (ap some (sym e))
    | Memᴰ.tail later ↦
        let apart : id x ≢ id y = All-of_mem (λ z. id z ≢ id y) ys unique.0 later in
        let miss : (id y == id x) ≡ false = ground (arith, ==_iff (id y) (id x)) in
        rw miss (row-of_Mem x ys unique.1 later)
  ]

  -- A row that is found by another column is replaced where it was found.
  pub find-save :
      (test : A → Bool) (x y : A) (xs : List A)
      → IsUnique id xs
      → id x ≡ id y
      → test x ≡ true
      → find test xs ≡ some y
      → find test (save id x xs) ≡ some x
  find-save test x y [] unique same hit e = cc
  find-save test x y (z ∷ zs) unique same hit e = elim (Bool-cases (test z)) [
    | inl here ↦
        let equal : z ≡ y = ground arith in
        let found : (id z == id x) ≡ true = ground (arith, ==_iff (id z) (id x), equal, same) in
        rw found (rw hit refl)
    | inr later ↦
        let below : find test zs ≡ some y = ground (arith, later, e) in
        let (mem, _) = find_sound test zs below in
        let apart : id y ≢ id z = All-of_mem (λ w. id w ≢ id z) zs unique.0 mem in
        let other : (id z == id x) ≡ false = ground (arith, ==_iff (id z) (id x), same, apart) in
        rw other (rw later (find-save test x y zs unique.1 same hit below))
  ]

module _ {A : Type 0} where
  pub Mem-select :
      (test : A → Bool) (x : A) (xs : List A) → Memᴰ x xs → test x ≡ true → Memᴰ x (select test xs)
  Mem-select test x [] m hit = elim m [ ]
  Mem-select test x (y ∷ ys) m hit = elim m [
    | Memᴰ.head e ↦ let here : test y ≡ true = rw (← e) hit in rw here (Memᴰ.head e)
    | Memᴰ.tail later ↦ elim (Bool-cases (test y)) [
      | inl here ↦ rw here (Memᴰ.tail (Mem-select test x ys later hit))
      | inr miss ↦ rw miss (Mem-select test x ys later hit)
    ]
  ]

  pub IsUnique-select :
      (key : A → ℕ) (test : A → Bool) (xs : List A)
      → IsUnique key xs
      → IsUnique key (select test xs)
  IsUnique-select key test [] h = tt
  IsUnique-select key test (x ∷ xs) h = elim (Bool-cases (test x)) [
    | inl hit ↦
        rw hit (All-select (λ y. key y ≢ key x) test xs h.0, IsUnique-select key test xs h.1)
    | inr miss ↦ rw miss (IsUnique-select key test xs h.1)
  ]

  pub IsUnique-save_all :
      (key : A → ℕ) (xs table : List A) → IsUnique key table → IsUnique key (save_all key xs table)
  IsUnique-save_all key [] table h = h
  IsUnique-save_all key (x ∷ xs) table h =
      IsUnique-save_all key xs (save key x table) (IsUnique-save key x table h)
