-- ===== src/Mes/Release.antt =====
-- When an order is completed, its carriers are released (src/orders/routing.service.ts,
-- `completeStationStep`; src/orders/orders.service.ts, `updateProgress`).
use mes_copy.Base.{
  ℕ, ◌≡◌, ◌≢◌, refl, ap, true, false, List, [], ◌∷◌, arith, ◌==◌, map, select, All, Memᴰ, inl, inr,
  Bool-cases, ==_iff,
}
use mes_copy.Mes.{Carrier, Database, release}
use mes_copy.Mes.Tables.{save, save_all, is_at, IsUnique}
use mes_copy.Mes.Rows.{IsUnique-save, Mem-select}
use mes_copy.Mes.Completion.{release_carriers}

module _ {A : Type 0} where
  pub All-of_each : (P : A → Type 0) (xs : List A) → ((x : A) → Memᴰ x xs → P x) → All P xs
  All-of_each P [] h = tt
  All-of_each P (x ∷ xs) h = (h x (Memᴰ.head refl), All-of_each P xs (λ y m. h y (Memᴰ.tail m)))

  All-zip :
      (P Q R : A → Type 0) (xs : List A)
      → ((x : A) → P x → Q x → R x)
      → All P xs
      → All Q xs
      → All R xs
  All-zip P Q R [] f p q = tt
  All-zip P Q R (x ∷ xs) f p q = (f x p.0 q.0, All-zip P Q R xs f p.1 q.1)

  -- Where the ids stand once, every row of the new table is the saved one or another's.
  pub All-save_apart :
      (id : A → ℕ) (P Q : A → Type 0) (x : A) (xs : List A)
      → IsUnique id xs
      → Q x
      → ((y : A) → id y ≢ id x → P y → Q y)
      → All P xs
      → All Q (save id x xs)
  All-save_apart id P Q x [] unique q f p = (q, tt)
  All-save_apart id P Q x (y ∷ ys) unique q f p = elim (Bool-cases (id y == id x)) [
    | inl same ↦
        let equal : id y ≡ id x = ground (arith, ==_iff (id y) (id x)) in
        let apart : All (λ z. id z ≢ id x) ys = rw (← equal) unique.0 in
        rw same (q, All-zip (λ z. id z ≢ id x) P Q ys f apart p.1)
    | inr other ↦
        let apart : id y ≢ id x = ground (arith, ==_iff (id y) (id x)) in
        rw other (f y apart p.0, All-save_apart id P Q x ys unique.1 q f p.1)
  ]

  pub Mem-map : {B : Type 0} (f : A → B) (x : A) (xs : List A) → Memᴰ x xs → Memᴰ (f x) (map f xs)
  Mem-map f x [] m = elim m [ ]
  Mem-map f x (y ∷ ys) m = elim m [
    | Memᴰ.head e ↦ Memᴰ.head (ap f e)
    | Memᴰ.tail later ↦ Memᴰ.tail (Mem-map f x ys later)
  ]

abbrev IsListed : ℕ → List Carrier → Carrier → Type 0
IsListed order_id xs c = is_at order_id c.order_id ≡ true → Memᴰ c.id (map (λ r. r.id) xs)

-- If every carrier of the order is among those to be saved, and these have no order, then none is
-- left when they are saved.
save_all-released :
    (order_id : ℕ) (xs table : List Carrier)
    → IsUnique (λ r. r.id) table
    → All (λ c. is_at order_id c.order_id ≡ false) xs
    → All (IsListed order_id xs) table
    → All (λ c. is_at order_id c.order_id ≡ false) (save_all (λ r. r.id) xs table)
save_all-released order_id [] table unique free listed =
    All-zip (IsListed order_id []) (IsListed order_id []) (λ c. is_at order_id c.order_id ≡ false)
      table
      (λ c h _. elim (Bool-cases (is_at order_id c.order_id)) [
        | inl hit ↦ elim (h hit) [ ]
        | inr miss ↦ miss
      ])
      listed listed
save_all-released order_id (x ∷ xs) table unique free listed =
    save_all-released order_id xs (save (λ r. r.id) x table)
      (IsUnique-save (λ r. r.id) x table unique) free.1
      (All-save_apart (λ r. r.id) (IsListed order_id (x ∷ xs)) (IsListed order_id xs) x table unique
        (λ hit. let miss : is_at order_id x.order_id ≡ false = free.0 in cc)
        (λ y apart h hit. elim (h hit) [
          | Memᴰ.head e ↦ elim (apart e) [ ]
          | Memᴰ.tail later ↦ later
        ])
        listed)

released-free :
    (order_id : ℕ) (xs : List Carrier)
    → All (λ c. is_at order_id c.order_id ≡ false) (map release xs)
unfolding release
released-free order_id [] = tt
released-free order_id (x ∷ xs) = (refl, released-free order_id xs)

map-release : (xs : List Carrier) → map (λ r. r.id) (map release xs) ≡ map (λ r. r.id) xs
unfolding release
map-release [] = refl
map-release (x ∷ xs) = ap (λ ys. x.id ∷ ys) (map-release xs)

-- No carrier is left to the order.
pub release_carriers-released :
    (order_id : ℕ) (db : Database)
    → IsUnique (λ r. r.id) db.carriers
    → All (λ c. is_at order_id c.order_id ≡ false) (release_carriers order_id db).carriers
unfolding release_carriers
release_carriers-released order_id db unique =
    let mine = select (λ c. is_at order_id c.order_id) db.carriers in
    save_all-released order_id (map release mine) db.carriers unique (released-free order_id mine) (
      All-of_each (IsListed order_id (map release mine)) db.carriers (λ c m hit.
        rw (map-release mine) (
          Mem-map (λ r. r.id) c mine
            (Mem-select (λ r. is_at order_id r.order_id) c db.carriers m hit))))
