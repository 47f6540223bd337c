-- ===== src/Mes/Each.antt =====
-- A loop that saves the rows it has read, one after the other, against the table in which each row
-- is changed where it stands.
use mes_copy.Base.{
  ℕ, ◌≡◌, ◌≢◌, refl, ap, Bool, true, false, Option, none, some, List, [], ◌∷◌, arith, ◌==◌, map,
  if◌then◌else◌, select, All, inl, inr, Bool-cases, Option-cases, ==_iff,
}
use mathlib.Core.Path.{◌∙◌}
use mes_copy.Mes.Tables.{save, IsUnique, All-select}

module _ {A : Type 0} (id : A → ℕ) (change : A → Option A) where
  abbrev pub save_option : Option A → List A → List A
  save_option none table = table
  save_option (some x) table = save id x table

  -- `for (const row of rows) { … save(changed row) }`.
  abbrev pub save_each : List A → List A → List A
  save_each [] table = table
  save_each (x ∷ xs) table = save_each xs (save_option (change x) table)

  abbrev pub or_same : Option A → A → A
  or_same none x = x
  or_same (some y) x = y

  abbrev pub change_if : (A → Bool) → A → A
  change_if test x = if test x then or_same (change x) x else x

  module _ (kept : (x y : A) → change x ≡ some y → id y ≡ id x) where
    save_option-cons :
        (x z : A) (zs : List A)
        → id x ≢ id z
        → save_option (change x) (z ∷ zs) ≡ z ∷ save_option (change x) zs
    save_option-cons x z zs apart = elim (Option-cases (change x)) [
      | inl skip ↦ rw skip refl
      | inr (y, e) ↦
          let same : id y ≡ id x = kept x y e in
          let other : (id z == id y) ≡ false = ground (arith, ==_iff (id z) (id y), same, apart) in
          rw e (rw other refl)
    ]

    save_each-cons :
        (xs zs : List A) (z : A)
        → All (λ x. id x ≢ id z) xs
        → save_each xs (z ∷ zs) ≡ z ∷ save_each xs zs
    save_each-cons [] zs z apart = refl
    save_each-cons (x ∷ xs) zs z apart =
        ap (save_each xs) (save_option-cons x z zs apart.0)
        ∙ save_each-cons xs (save_option (change x) zs) z apart.1

    save_option-head :
        (x : A) (xs : List A) → save_option (change x) (x ∷ xs) ≡ or_same (change x) x ∷ xs
    save_option-head x xs = elim (Option-cases (change x)) [
      | inl skip ↦ rw skip refl
      | inr (y, e) ↦
          let same : (id x == id y) ≡ true = ground (arith, ==_iff (id x) (id y), kept x y e) in
          rw e (rw same refl)
    ]

    or_same-id : (x : A) → id (or_same (change x) x) ≡ id x
    or_same-id x = elim (Option-cases (change x)) [
      | inl skip ↦ rw skip refl
      | inr (y, e) ↦ rw e (kept x y e)
    ]

    pub save_each-map :
        (test : A → Bool) (table : List A)
        → IsUnique id table
        → save_each (select test table) table ≡ map (change_if test) table
    save_each-map test [] unique = refl
    save_each-map test (x ∷ xs) unique =
        let apart = All-select (λ y. id y ≢ id x) test xs unique.0 in
        elim (Bool-cases (test x)) [
          | inl hit ↦
              let same : id (or_same (change x) x) ≡ id x = or_same-id x in
              rw hit (
                ap (save_each (select test xs)) (save_option-head x xs)
                ∙ save_each-cons (select test xs) xs (or_same (change x) x) (rw same apart)
                ∙ ap (λ ys. or_same (change x) x ∷ ys) (save_each-map test xs unique.1))
          | inr miss ↦ rw miss (
              save_each-cons (select test xs) xs x apart
              ∙ ap (λ ys. x ∷ ys) (save_each-map test xs unique.1))
        ]

    change_if-id : (test : A → Bool) (x : A) → id (change_if test x) ≡ id x
    change_if-id test x = elim (Bool-cases (test x)) [
      | inl hit ↦ rw hit (or_same-id x)
      | inr miss ↦ rw miss refl
    ]

    change_if-apart :
        (test : A → Bool) (n : ℕ) (xs : List A)
        → All (λ y. id y ≢ n) xs
        → All (λ y. id y ≢ n) (map (change_if test) xs)
    change_if-apart test n [] h = tt
    change_if-apart test n (x ∷ xs) h =
        (rw (change_if-id test x) h.0, change_if-apart test n xs h.1)

    pub IsUnique-change_if :
        (test : A → Bool) (table : List A)
        → IsUnique id table
        → IsUnique id (map (change_if test) table)
    IsUnique-change_if test [] unique = tt
    IsUnique-change_if test (x ∷ xs) unique = (
      rw (change_if-id test x) (change_if-apart test (id x) xs unique.0),
      IsUnique-change_if test xs unique.1,
    )
