-- ===== src/Line/Inventory.antt =====
-- The carrier inventory of the production line.
use mes_copy.Base.{
  ℕ, ◌+◌, String, Bool, true, false, ◌&&◌, Option, none, some, List, find, count, is_some,
  update_first, if◌then◌else◌, show, zeros, ◌<>◌,
}
use mes_copy.Base.Int.{ℤ, pos, negsuc, int_eq}
use mes_copy.Line.{Settings, PhysicalState, stored, rfid_error, Slot, Line}
use mes_copy.Line.Start.{rfid_uid_of}

abbrev pub is_stored : PhysicalState → Bool
is_stored stored = true
is_stored _ = false

abbrev pub is_in_store : PhysicalState → Bool
is_in_store stored = true
is_in_store rfid_error = true
is_in_store _ = false

unfoldable pub inventory_total_count : List Slot → ℕ
inventory_total_count slots = count (λ slot. slot.occupied) slots

abbrev pub is_available : Slot → Bool
is_available slot = slot.occupied && slot.rfid_read_valid && is_stored slot.physical_state

unfoldable pub inventory_available_count : List Slot → ℕ
inventory_available_count slots = count is_available slots

-- The overrides that the program passes; `none` is a key that is not there.
pub record Overrides : Type 0 where
  pub occupied : Option Bool
  pub reader_id : Option String

abbrev or_else : {A : Type 0} → Option A → A → A
or_else none a = a
or_else (some b) a = b

abbrev pub has_carrier : ℤ → Slot → Bool
has_carrier id slot = int_eq slot.carrier_id id

unfoldable pub observe_slot : Settings → ℕ → PhysicalState → Overrides → Slot → Slot
observe_slot c now physical_state overrides slot = record slot {
  occupied = or_else overrides.occupied (is_in_store physical_state);
  physical_state = physical_state;
  reader_id =
      or_else overrides.reader_id
        (if is_stored physical_state then c.inventory_reader_id else "DEMO-LINE-RFID");
  last_seen = now;
}

-- `observeCarrier`, but for its result, which nothing uses.
unfoldable pub observe_carrier : Settings → ℕ → ℤ → PhysicalState → Overrides → Line → Line
unfolding observe_slot
observe_carrier c now id physical_state overrides line =
    if is_some (find (has_carrier id) line.slots)
    then record line {
      slots =
          update_first (has_carrier id) (observe_slot c now physical_state overrides) line.slots;
      revision = line.revision + 1;
    }
    else line

unfoldable pub uid_of : ℤ → String
unfolding rfid_uid_of show zeros
uid_of (pos n) = rfid_uid_of n
uid_of (negsuc n) = "DEMO-RFID-" <> zeros 6 (n + 1) <> "-" <> show (n + 1)

unfoldable pub fill_slot : Settings → ℕ → ℤ → Slot → Slot
fill_slot c now id slot = record slot {
  occupied = true;
  carrier_id = id;
  rfid_uid = uid_of id;
  rfid_read_valid = true;
  physical_state = stored;
  reader_id = c.inventory_reader_id;
  last_seen = now;
}

-- `registerCarrierInInventory`, but for its result, which nothing uses.
unfoldable pub register_carrier_in_inventory : Settings → ℕ → ℤ → Line → Line
unfolding fill_slot uid_of
register_carrier_in_inventory c now id line =
    if is_some (find (has_carrier id) line.slots)
    then line
    else if is_some (find (has_carrier (pos 0)) line.slots)
    then record line {
      slots = update_first (has_carrier (pos 0)) (fill_slot c now id) line.slots;
      revision = line.revision + 1;
    }
    else line
