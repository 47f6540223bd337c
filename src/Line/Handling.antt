-- ===== src/Line/Handling.antt =====
-- What happens to one station of the production line, apart from the timers that are set, the
-- inventory and the carriers.
use mes_copy.Base.{
  ℕ, ◌+◌, Bool, true, false, not, ◌&&◌, ◌||◌, Option, none, some, [], ◌∷◌, ◌++◌, leb, if◌then◌else◌,
}
use mes_copy.Base.Int.{ℤ, pos, int_eq}
use mes_copy.Line.{Station, Carrier}

-- `station.query.xStart || station.state.xBusy`.
abbrev pub is_taken : Station → Bool
is_taken s = s.query.x_start || s.state.x_busy

unfoldable pub enqueue : ℕ → Station → Station
enqueue carrier s = record s { waiting_queue = s.waiting_queue ++ carrier ∷ [] }

-- The part of `requestMesData` that asks the MES.
unfoldable pub start_request : ℕ → Carrier → Station → Station
start_request ref carrier s = record s {
  response_seen = false;
  current_carrier = some ref;
  query = record s.query {
    x_start = true;
    x_done = false;
    x_error = false;
    carrier_id = carrier.carrier_id;
    resource_id = carrier.route_resource_id;
    order_no = "";
    part_no = "";
    operation_no = 0;
    step_no = pos 0;
    next_resource_id = 0;
    result_code = 0;
  };
  process_data = record s.process_data { x_completed = false };
  state = record s.state { x_busy = true };
  request_timeout = true;
}

-- `rejectCounts[id] = (rejectCounts[id] || 0) + 1`, and `delete rejectCounts[id]`.
abbrev pub count_reject : ℤ → (ℤ → ℕ) → ℤ → ℕ
count_reject id counts x = if int_eq x id then counts x + 1 else counts x

abbrev pub delete_rejects : ℤ → (ℤ → ℕ) → ℤ → ℕ
delete_rejects id counts x = if int_eq x id then 0 else counts x

-- A reject or a timeout: the third one for a carrier stops a station in automatic mode.
unfoldable pub give_up : Station → Station
give_up s =
    let counts = count_reject s.query.carrier_id s.reject_counts in
    let stops = leb 3 (counts s.query.carrier_id) && s.state.x_auto in
    record s {
      reject_counts = counts;
      state = record s.state {
        x_auto = if stops then false else s.state.x_auto;
        x_err_l0 = if stops then true else s.state.x_err_l0;
        x_busy = false;
      };
      query = record s.query { x_start = false };
      current_carrier = none;
    }

-- The part of `completeStationCycle` once the station may go on.
unfoldable pub finish : ℕ → Bool → Station → Station
finish now failed s = record s {
  failed_count = if failed then s.failed_count + 1 else s.failed_count;
  produced_count = if failed then s.produced_count else s.produced_count + 1;
  process_data = record {
    carrier_id = s.query.carrier_id;
    step_no = s.query.step_no;
    resource_id = pos s.config.resource_id;
    par1 = s.query.par1;
    par2 = s.query.par2;
    par3 = s.query.par3;
    par4 = s.query.par4;
    x_completed = true;
    time_stamp = now;
  };
  query = record s.query { x_start = false };
  state = record s.state { x_busy = false };
  current_carrier = none;
  pending_completion = false;
  x_start_blocked_until = now + 600;
}

unfoldable pub end_pulse : Station → Station
end_pulse s = record s { process_data = record s.process_data { x_completed = false } }

-- The commands of the interval in `simulatePlc`; the id is that of the stuck carrier.
unfoldable pub reset_station : ℤ → Station → Station
reset_station id s = record s {
  query = record s.query { x_start = false; x_qry_busy = false; x_done = false; x_error = false };
  state = record s.state { x_busy = false; x_reset = true; x_err_l0 = false; x_auto = true };
  current_carrier = none;
  waiting_queue = [];
  response_seen = false;
  control = record s.control { x_cmd_reset = false };
  reject_counts = delete_rejects id s.reject_counts;
}

unfoldable pub stop_station : Station → Station
stop_station s = record s {
  state = record s.state { x_auto = false; x_err_l0 = true };
  control = record s.control { x_cmd_stop = false };
}

unfoldable pub pause_station : Station → Station
pause_station s = record s {
  state = record s.state { x_auto = false };
  control = record s.control { x_cmd_pause = false };
}

abbrev pub is_held : Option ℕ → Bool
is_held none = false
is_held (some _) = true

-- `station.pendingCompletion && station.currentCarrier`.
abbrev pub resumes : Station → Bool
resumes s = s.pending_completion && is_held s.current_carrier

unfoldable pub start_station : Station → Station
start_station s = record s {
  state = record s.state { x_auto = true; x_reset = false; x_err_l0 = false };
  control = record s.control { x_cmd_start = false };
  pending_completion = if resumes s then false else s.pending_completion;
}

-- The test of the interval for an answer of the MES.
abbrev pub is_answered : Station → Bool
is_answered s = s.query.x_start && (s.query.x_done || s.query.x_error) && not s.response_seen

unfoldable pub see_response : Station → Station
see_response s = record s { response_seen = true; request_timeout = false }

unfoldable pub forget_rejects : Station → Station
forget_rejects s = record s { reject_counts = delete_rejects s.query.carrier_id s.reject_counts }
