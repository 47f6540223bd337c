-- ===== src/Profile/Preview.antt =====
-- What the preview of the routing shows.
use mes_copy.Base.{
  ℕ, ◌≤◌, ◌≡◌, refl, ap, ◌∙◌, Bool, false, ◌&&◌, List, [], ◌∷◌, arith, leb, if◌then◌else◌, count,
  select, All, inl, inr, Bool-cases,
}
use mes_copy.Profile.{Station, is_previewed, sequence, insert, sort, sorted_routing_preview}

-- Every station comes at or after those before it.
abbrev pub IsSorted : List Station → Type 0
IsSorted [] = Unit
IsSorted (s ∷ ss) = All (λ t. sequence s ≤ sequence t) ss × IsSorted ss

abbrev Below : ℕ → List Station → Type 0
Below n ss = All (λ t. n ≤ sequence t) ss

Below-mono : (m n : ℕ) (ss : List Station) → m ≤ n → Below n ss → Below m ss
Below-mono m n [] le h = tt
Below-mono m n (s ∷ ss) le (h, hs) = (omega (arith, le, h), Below-mono m n ss le hs)

insert-Below :
    (n : ℕ) (s : Station) (ss : List Station) → n ≤ sequence s → Below n ss → Below n (insert s ss)
unfolding insert
insert-Below n s [] le h = (le, tt)
insert-Below n s (t ∷ ts) le (h, hs) = elim (Bool-cases (leb (sequence s) (sequence t))) [
  | inl first ↦ rw first (le, (h, hs))
  | inr later ↦ rw later (h, insert-Below n s ts le hs)
]

insert-IsSorted : (s : Station) (ss : List Station) → IsSorted ss → IsSorted (insert s ss)
unfolding insert
insert-IsSorted s [] h = (tt, tt)
insert-IsSorted s (t ∷ ts) (h, hs) = elim (Bool-cases (leb (sequence s) (sequence t))) [
  | inl first ↦
      let le : sequence s ≤ sequence t = ground arith in
      rw first ((le, Below-mono (sequence s) (sequence t) ts le h), (h, hs))
  | inr later ↦
      let le : sequence t ≤ sequence s = ground arith in
      rw later (insert-Below (sequence t) s ts le h, insert-IsSorted s ts hs)
]

sort-IsSorted : (ss : List Station) → IsSorted (sort ss)
unfolding sort
sort-IsSorted [] = tt
sort-IsSorted (s ∷ ss) = insert-IsSorted s (sort ss) (sort-IsSorted ss)

count-insert :
    (p : Station → Bool) (s : Station) (ss : List Station)
    → count p (insert s ss) ≡ count p (s ∷ ss)
unfolding insert
count-insert p s [] = refl
count-insert p s (t ∷ ts) = ground (arith, count-insert p s ts)

count-sort : (p : Station → Bool) (ss : List Station) → count p (sort ss) ≡ count p ss
unfolding sort
count-sort p [] = refl
count-sort p (s ∷ ss) = ground (arith, count-insert p s (sort ss), count-sort p ss)

count-select :
    (p q : Station → Bool) (ss : List Station) → count p (select q ss) ≡ count (λ s. q s && p s) ss
count-select p q [] = refl
count-select p q (s ∷ ss) = ground (arith, count-select p q ss)

-- Stations of equal sequence keep their order.
abbrev pub same_sequence : ℕ → Station → Bool
same_sequence n s = if leb (sequence s) n then leb n (sequence s) else false

select-insert :
    (n : ℕ) (s : Station) (ss : List Station)
    → select (same_sequence n) (insert s ss) ≡ select (same_sequence n) (s ∷ ss)
unfolding insert
select-insert n s [] = refl
select-insert n s (t ∷ ts) = elim (Bool-cases (leb (sequence s) (sequence t))) [
  | inl first ↦ rw first refl
  | inr later ↦ elim (Bool-cases (same_sequence n s)) [
    | inl this ↦
        let other : same_sequence n t ≡ false = ground (arith, this, later) in
        rw later (rw (this, other) (select-insert n s ts ∙ (rw this refl)))
    | inr not_this ↦ elim (Bool-cases (same_sequence n t)) [
      | inl that ↦
          rw later
            (rw (not_this, that) (ap (λ rest. t ∷ rest) (select-insert n s ts ∙ rw not_this refl)))
      | inr not_that ↦ rw later (rw (not_this, not_that) (select-insert n s ts ∙ rw not_this refl))
    ]
  ]
]

select-sort :
    (n : ℕ) (ss : List Station) → select (same_sequence n) (sort ss) ≡ select (same_sequence n) ss
unfolding sort
select-sort n [] = refl
select-sort n (s ∷ ss) = elim (Bool-cases (same_sequence n s)) [
  | inl this ↦ select-insert n s (sort ss) ∙ rw this (ap (λ rest. s ∷ rest) (select-sort n ss))
  | inr not_this ↦ select-insert n s (sort ss) ∙ rw not_this (select-sort n ss)
]

-- The preview is sorted by sequence; a property holds of as many of its stations as of those that
-- are enabled, can be routed and have a sequence that is not switched off; and those with one
-- sequence stand in the order in which the profile has them.
pub sorted_routing_preview_lem :
    (ss : List Station)
    → IsSorted (sorted_routing_preview ss)
      × ((p : Station → Bool)
          → count p (sorted_routing_preview ss) ≡ count (λ s. is_previewed s && p s) ss)
      × ((n : ℕ)
          → select (same_sequence n) (sorted_routing_preview ss)
            ≡ select (same_sequence n) (select is_previewed ss))
unfolding sorted_routing_preview
sorted_routing_preview_lem ss = (
  sort-IsSorted (select is_previewed ss),
  (λ p. count-sort p (select is_previewed ss) ∙ count-select p is_previewed ss),
  (λ n. select-sort n (select is_previewed ss)),
)
