-- ===== src/Line/Stock.antt =====
-- The carrier inventory of the production line and its revision: what a change of the line keeps,
-- and that the operations on the inventory keep it.
use mes_copy.Base.{
  ℕ, zero, suc, ◌+◌, ◌≤◌, ◌≡◌, refl, ap, Bool, true, false, some, List, [], ◌∷◌, arith,
  if◌then◌else◌, All, inl, inr, Bool-cases, find, is_some, length, count-le-length, update_first,
}
use mathlib.Core.Path.{◌∙◌}
use mes_copy.Base.Int.{ℤ, pos}
use mes_copy.Line.{Settings, Slot, Line, PhysicalState}
use mes_copy.Line.Start.{create_slots, create_slot, inventory_capacity, initial, head_or_zero}
use mes_copy.Line.Inventory.{
  observe_carrier, observe_slot, register_carrier_in_inventory, fill_slot, has_carrier, Overrides,
  is_in_store, inventory_available_count, inventory_total_count,
}

-- A slot is occupied exactly if its carrier was last seen in the store.
abbrev pub IsSound : Slot → Type 0
IsSound slot = slot.occupied ≡ is_in_store slot.physical_state

abbrev pub AllSound : List Slot → Type 0
AllSound slots = All IsSound slots

-- The revision only grows, and the slots are as they were while it is the same; no slot comes or
-- goes; and the slots stay sound.
pub record IsWatched (l l' : Line) : Type 0 where
  pub grows : l.revision ≤ l'.revision
  pub seen : l'.revision ≡ l.revision → l'.slots ≡ l.slots
  pub capacity : length l'.slots ≡ length l.slots
  pub sound : AllSound l.slots → AllSound l'.slots

-- A change elsewhere.
pub IsWatched-of_same :
    (l l' : Line) → l'.slots ≡ l.slots → l'.revision ≡ l.revision → IsWatched l l'
IsWatched-of_same l l' slots revision = record {
  grows = ground (arith, revision);
  seen = λ _. slots;
  capacity = ap length slots;
  sound = λ h. rw slots h;
}

pub IsWatched-refl : (l : Line) → IsWatched l l
IsWatched-refl l = IsWatched-of_same l l refl refl

pub IsWatched-trans : (l m n : Line) → IsWatched l m → IsWatched m n → IsWatched l n
IsWatched-trans l m n a b = record {
  grows = ground (arith, a.grows, b.grows);
  seen = λ same.
      let late : n.revision ≡ m.revision = ground (arith, a.grows, b.grows, same) in
      let early : m.revision ≡ l.revision = ground (arith, a.grows, b.grows, same) in
      b.seen late ∙ a.seen early;
  capacity = b.capacity ∙ a.capacity;
  sound = λ h. b.sound (a.sound h);
}

length-update_first :
    (p : Slot → Bool) (f : Slot → Slot) (slots : List Slot)
    → length (update_first p f slots) ≡ length slots
length-update_first p f [] = refl
length-update_first p f (s ∷ ss) = ground (arith, length-update_first p f ss)

update_first-AllSound :
    (p : Slot → Bool) (f : Slot → Slot) (slots : List Slot)
    → ((s : Slot) → IsSound (f s))
    → AllSound slots
    → AllSound (update_first p f slots)
update_first-AllSound p f [] k h = tt
update_first-AllSound p f (s ∷ ss) k (h, hs) = elim (Bool-cases (p s)) [
  | inl hit ↦ rw hit (k s, hs)
  | inr miss ↦ rw miss (h, update_first-AllSound p f ss k hs)
]

-- A slot is changed and the revision counts it.
touched-IsWatched :
    (p : Slot → Bool) (f : Slot → Slot) (line : Line)
    → ((s : Slot) → IsSound (f s))
    → IsWatched line
        (record line { slots = update_first p f line.slots; revision = line.revision + 1 })
touched-IsWatched p f line k = record {
  grows = omega arith;
  seen = λ same. elim (impossible same) [ ];
  capacity = length-update_first p f line.slots;
  sound = update_first-AllSound p f line.slots k;
}
  where
    impossible : line.revision + 1 ≡ line.revision → ⊥
    impossible e = omega (arith, e)

pub either-IsWatched :
    (b : Bool) (l m n : Line) → IsWatched l m → IsWatched l n → IsWatched l (if b then m else n)
either-IsWatched true l m n a b = a
either-IsWatched false l m n a b = b

-- The overrides agree with the state that is observed.
abbrev pub IsFitting : PhysicalState → Overrides → Type 0
IsFitting p o = o.occupied ≡ some (is_in_store p)

observe_slot-IsSound :
    (c : Settings) (now : ℕ) (p : PhysicalState) (o : Overrides) (slot : Slot)
    → IsFitting p o
    → IsSound (observe_slot c now p o slot)
unfolding observe_slot
observe_slot-IsSound c now p o slot fits = simp fits refl

pub observe-IsWatched :
    (c : Settings) (now : ℕ) (id : ℤ) (p : PhysicalState) (o : Overrides) (line : Line)
    → IsFitting p o
    → IsWatched line (observe_carrier c now id p o line)
unfolding observe_carrier
observe-IsWatched c now id p o line fits =
    either-IsWatched (is_some (find (has_carrier id) line.slots)) line _ _
      (touched-IsWatched (has_carrier id) (observe_slot c now p o) line
        (λ s. observe_slot-IsSound c now p o s fits))
      (IsWatched-refl line)

fill_slot-IsSound :
    (c : Settings) (now : ℕ) (id : ℤ) (slot : Slot) → IsSound (fill_slot c now id slot)
unfolding fill_slot
fill_slot-IsSound c now id slot = refl

pub register-IsWatched :
    (c : Settings) (now : ℕ) (id : ℤ) (line : Line)
    → IsWatched line (register_carrier_in_inventory c now id line)
unfolding register_carrier_in_inventory
register-IsWatched c now id line =
    either-IsWatched (is_some (find (has_carrier id) line.slots)) line _ _ (IsWatched-refl line) (
      either-IsWatched (is_some (find (has_carrier (pos 0)) line.slots)) line _ _
        (touched-IsWatched (has_carrier (pos 0)) (fill_slot c now id) line
          (fill_slot-IsSound c now id))
        (IsWatched-refl line))

available-le-total :
    (slots : List Slot) → inventory_available_count slots ≤ inventory_total_count slots
unfolding inventory_available_count inventory_total_count
available-le-total [] = omega arith
available-le-total (s ∷ ss) = ground (arith, available-le-total ss)

total-le-length : (slots : List Slot) → inventory_total_count slots ≤ length slots
unfolding inventory_total_count
total-le-length slots = count-le-length (λ slot. slot.occupied) slots

create_slot-IsSound : (c : Settings) (now n id : ℕ) → IsSound (create_slot c now n id)
unfolding create_slot
create_slot-IsSound c now n id = ground arith

create_slots-AllSound :
    (c : Settings) (now n k : ℕ) (ids : List ℕ) → AllSound (create_slots c now n k ids)
unfolding create_slots
create_slots-AllSound c now n zero ids = tt
create_slots-AllSound c now n (suc k) ids =
    (create_slot-IsSound c now n (head_or_zero ids), create_slots-AllSound c now (n + 1) k _)

length-create_slots :
    (c : Settings) (now n k : ℕ) (ids : List ℕ) → length (create_slots c now n k ids) ≡ k
unfolding create_slots
length-create_slots c now n zero ids = refl
length-create_slots c now n (suc k) ids = omega (arith, length-create_slots c now (n + 1) k _)

-- The inventory as clients see it.
pub record IsStocked (c : Settings) (line : Line) : Type 0 where
  pub sound : AllSound line.slots
  pub capacity : length line.slots ≡ inventory_capacity c
  pub available : inventory_available_count line.slots ≤ inventory_total_count line.slots
  pub total : inventory_total_count line.slots ≤ inventory_capacity c
  pub revised : 1 ≤ line.revision

pub watched-IsStocked :
    (c : Settings) (now : ℕ) (line : Line) → IsWatched (initial c now) line → IsStocked c line
unfolding initial
watched-IsStocked c now line w =
    let size : length line.slots ≡ inventory_capacity c =
      w.capacity ∙ length-create_slots c now 1 (inventory_capacity c) _ in
    record {
      sound = w.sound (create_slots-AllSound c now 1 (inventory_capacity c) _);
      capacity = size;
      available = available-le-total line.slots;
      total = rw (← size) (total-le-length line.slots);
      revised = w.grows;
    }
