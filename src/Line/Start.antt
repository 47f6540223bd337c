-- ===== src/Line/Start.antt =====
-- The production line when its process starts: what the environment variables configure, the
-- stations and the slots.
use mes_copy.Base.{
  ℕ, zero, suc, ◌+◌, String, Bool, true, false, not, ◌&&◌, Option, none, some, List, [], ◌∷◌, map,
  ltb, if◌then◌else◌, take, show, zeros, ◌<>◌, ◌==◌,
}
use mes_copy.Base.Int.{pos}
use mes_copy.Line.{Settings, stored, rfid_error, empty, Slot, Config, Station, Line}

abbrev at_least_one : Option ℕ → ℕ
at_least_one none = 4
at_least_one (some n) = if ltb 0 n then n else 4

unfoldable pub inventory_capacity : Settings → ℕ
inventory_capacity c = at_least_one c.requested_inventory_capacity

-- `filter((value) => Number.isInteger(value) && value > 0)`.
unfoldable pub positives : List (Option ℕ) → List ℕ
positives [] = []
positives (none ∷ ns) = positives ns
positives (some n ∷ ns) = let rest = positives ns in if ltb 0 n then n ∷ rest else rest

unfoldable pub configured_inventory_carrier_ids : Settings → List ℕ
unfolding positives inventory_capacity
configured_inventory_carrier_ids c = take (inventory_capacity c) (positives c.inventory_carrier_ids)

-- `simulatedRate`.
abbrev rate : ℕ → ℕ
rate n = if ltb n 1000000 then n else 1000000

unfoldable pub station_configs : Settings → List Config
station_configs c =
    record {
      resource_id = 1;
      name = "S01 Deckelzufuehrung";
      station_type = "lid_feeder";
      operation_no = 10;
      operation = "Deckelfarbe bereitstellen";
      cycle_time_ms = 5000;
      scrap_rate = rate c.scrap_rate_s01;
    }
    ∷ record {
      resource_id = 2;
      name = "S02 Kugeldosierung";
      station_type = "ball_dispenser";
      operation_no = 20;
      operation = "Kugeln dosieren";
      cycle_time_ms = 6000;
      scrap_rate = rate c.scrap_rate_s02;
    }
    ∷ record {
      resource_id = 3;
      name = "Q01 Endkontrolle";
      station_type = "quality_gate";
      operation_no = 30;
      operation = "Deckel und Kugeln pruefen";
      cycle_time_ms = 4000;
      scrap_rate = rate c.scrap_rate_q01;
    }
    ∷ []

unfoldable pub create_station_state : Config → Station
create_station_state config = record {
  config = config;
  state = record {
    x_auto = true;
    x_manual = false;
    x_busy = false;
    x_reset = false;
    x_err_l0 = false;
    x_err_l1 = false;
    x_err_l2 = false;
  };
  control = record {
    x_cmd_start = false;
    x_cmd_stop = false;
    x_cmd_pause = false;
    x_cmd_reset = false;
  };
  query = record {
    x_start = false;
    x_qry_busy = false;
    x_done = false;
    x_error = false;
    carrier_id = pos 0;
    resource_id = config.resource_id;
    order_no = "";
    part_no = "";
    operation_no = 0;
    step_no = pos 0;
    next_resource_id = 0;
    par1 = pos 0;
    par2 = pos 0;
    par3 = pos 0;
    par4 = pos 0;
    result_code = 0;
  };
  process_data = record {
    carrier_id = pos 0;
    step_no = pos 0;
    resource_id = pos config.resource_id;
    par1 = pos 0;
    par2 = pos 0;
    par3 = pos 0;
    par4 = pos 0;
    x_completed = false;
    time_stamp = 0;
  };
  current_carrier = none;
  waiting_queue = [];
  pending_completion = false;
  produced_count = 0;
  failed_count = 0;
  response_seen = false;
  x_start_blocked_until = 0;
  request_timeout = false;
  reject_counts = λ _. 0;
}

-- `configuredInventoryCarrierIds[index] || 0`.
abbrev pub head_or_zero : List ℕ → ℕ
head_or_zero [] = 0
head_or_zero (n ∷ ns) = n

abbrev tail : List ℕ → List ℕ
tail [] = []
tail (n ∷ ns) = ns

abbrev includes_number : ℕ → List ℕ → Bool
includes_number n [] = false
includes_number n (x ∷ xs) = if x == n then true else includes_number n xs

unfoldable pub rfid_uid_of : ℕ → String
unfolding show zeros
rfid_uid_of n = "DEMO-RFID-" <> zeros 7 n <> show n

unfoldable pub create_slot : Settings → ℕ → ℕ → ℕ → Slot
unfolding show zeros rfid_uid_of positives
create_slot c now slot_number carrier_id =
    let occupied = ltb 0 carrier_id in
    let rfid_read_valid =
      occupied && not (includes_number slot_number (positives c.invalid_slots)) in
    record {
      slot_number = slot_number;
      slot_id = "PALLET-" <> zeros 1 slot_number <> show slot_number;
      occupied = occupied;
      carrier_id = pos carrier_id;
      rfid_uid = if occupied then rfid_uid_of carrier_id else "";
      rfid_read_valid = rfid_read_valid;
      physical_state = if occupied then (if rfid_read_valid then stored else rfid_error) else empty;
      reader_id = if occupied then c.inventory_reader_id else "";
      last_seen = if occupied then now else 0;
    }

-- The slots from a number on, for the carriers left.
unfoldable pub create_slots : Settings → ℕ → ℕ → ℕ → List ℕ → List Slot
unfolding create_slot
create_slots c now slot_number zero ids = []
create_slots c now slot_number (suc n) ids =
    create_slot c now slot_number (head_or_zero ids)
    ∷ create_slots c now (slot_number + 1) n (tail ids)

unfoldable pub initial : Settings → ℕ → Line
unfolding create_slots create_station_state station_configs inventory_capacity
    configured_inventory_carrier_ids
initial c now = record {
  revision = 1;
  slots = create_slots c now 1 (inventory_capacity c) (configured_inventory_carrier_ids c);
  stations = map create_station_state (station_configs c);
  carriers = [];
  timers = [];
  releasing = [];
  known = [];
  deactivated = [];
}
