-- ===== src/Line/Nodes.antt =====
-- The address space of the production line: `addStation` and `addCarrierInventory`.
use mes_copy.Base.{ℕ, String, Option, none, some, List, [], ◌∷◌, ◌++◌, ◌<>◌, show, length, Bool}
use mes_copy.OpcUa.{DataType, Access, bool_at, uint_at, int_at, str_at, date_at, Variable}
use mes_copy.Line.{
  Station, Control, Query, ProcessData, Slot, Line, PhysicalState, stored, rfid_error, empty,
  in_transit, at_station,
}
use mes_copy.Line.Inventory.{inventory_available_count, inventory_total_count}

-- The setters of the parts of a station.
abbrev in_control : {A : Type 0} → (A → Control → Control) → Option (A → Station → Station)
in_control put = some (λ a s. record s { control = put a s.control })

abbrev in_query : {A : Type 0} → (A → Query → Query) → Option (A → Station → Station)
in_query put = some (λ a s. record s { query = put a s.query })

abbrev in_data : {A : Type 0} → (A → ProcessData → ProcessData) → Option (A → Station → Station)
in_data put = some (λ a s. record s { process_data = put a s.process_data })

-- The variable of `addVariable` with a browse name, below a node.
abbrev var : {S : Type 0} → String → String → DataType → Access S → Variable S
var prefix name type access = record {
  browse_name = name;
  node_id = prefix <> "." <> name;
  data_type = type;
  access = access;
}

unfoldable pub station_node : ℕ → String
unfolding show
station_node r = "ns=1;s=Station" <> show r

module _ (r : ℕ) where
  abbrev pub line_variables : List (Variable Station)
  line_variables =
      var (station_node r <> ".LineInfo") "sStationName" DataType.text
        (str_at (λ s. s.config.name) none)
      ∷ var (station_node r <> ".LineInfo") "sStationType" DataType.text
          (str_at (λ s. s.config.station_type) none)
      ∷ var (station_node r <> ".LineInfo") "sOperation" DataType.text
          (str_at (λ s. s.config.operation) none)
      ∷ var (station_node r <> ".LineInfo") "uiCycleTimeMs" DataType.uint32
          (uint_at (λ s. s.config.cycle_time_ms) none)
      ∷ var (station_node r <> ".LineInfo") "uiProducedCount" DataType.uint32
          (uint_at (λ s. s.produced_count) none)
      ∷ var (station_node r <> ".LineInfo") "uiFailedCount" DataType.uint32
          (uint_at (λ s. s.failed_count) none)
      ∷ []

  -- The two groups of `addBooleanGroup`.
  abbrev pub state_variables : List (Variable Station)
  state_variables =
      var (station_node r <> ".stMES.State") "xAuto" DataType.boolean
        (bool_at (λ s. s.state.x_auto) none)
      ∷ var (station_node r <> ".stMES.State") "xManual" DataType.boolean
          (bool_at (λ s. s.state.x_manual) none)
      ∷ var (station_node r <> ".stMES.State") "xBusy" DataType.boolean
          (bool_at (λ s. s.state.x_busy) none)
      ∷ var (station_node r <> ".stMES.State") "xReset" DataType.boolean
          (bool_at (λ s. s.state.x_reset) none)
      ∷ var (station_node r <> ".stMES.State") "xErrL0" DataType.boolean
          (bool_at (λ s. s.state.x_err_l0) none)
      ∷ var (station_node r <> ".stMES.State") "xErrL1" DataType.boolean
          (bool_at (λ s. s.state.x_err_l1) none)
      ∷ var (station_node r <> ".stMES.State") "xErrL2" DataType.boolean
          (bool_at (λ s. s.state.x_err_l2) none)
      ∷ []

  abbrev pub control_variables : List (Variable Station)
  control_variables =
      var (station_node r <> ".stMES.Control") "xCmdStart" DataType.boolean
        (bool_at (λ s. s.control.x_cmd_start) (in_control (λ a p. record p { x_cmd_start = a })))
      ∷ var (station_node r <> ".stMES.Control") "xCmdStop" DataType.boolean
          (bool_at (λ s. s.control.x_cmd_stop) (in_control (λ a p. record p { x_cmd_stop = a })))
      ∷ var (station_node r <> ".stMES.Control") "xCmdPause" DataType.boolean
          (bool_at (λ s. s.control.x_cmd_pause) (in_control (λ a p. record p { x_cmd_pause = a })))
      ∷ var (station_node r <> ".stMES.Control") "xCmdReset" DataType.boolean
          (bool_at (λ s. s.control.x_cmd_reset) (in_control (λ a p. record p { x_cmd_reset = a })))
      ∷ []

  abbrev pub query_variables : List (Variable Station)
  query_variables =
      var (station_node r <> ".stMES.Query") "xStart" DataType.boolean
        (bool_at (λ s. s.query.x_start) none)
      ∷ var (station_node r <> ".stMES.Query") "xQryBusy" DataType.boolean
          (bool_at (λ s. s.query.x_qry_busy) (in_query (λ a p. record p { x_qry_busy = a })))
      ∷ var (station_node r <> ".stMES.Query") "xDone" DataType.boolean
          (bool_at (λ s. s.query.x_done) (in_query (λ a p. record p { x_done = a })))
      ∷ var (station_node r <> ".stMES.Query") "xError" DataType.boolean
          (bool_at (λ s. s.query.x_error) (in_query (λ a p. record p { x_error = a })))
      ∷ var (station_node r <> ".stMES.Query") "uiCarrierId" DataType.uint32
          (int_at (λ s. s.query.carrier_id) none)
      ∷ var (station_node r <> ".stMES.Query") "uiResourceId" DataType.uint16
          (uint_at (λ s. s.query.resource_id) none)
      ∷ var (station_node r <> ".stMES.Query") "sOrderNo" DataType.text
          (str_at (λ s. s.query.order_no) (in_query (λ a p. record p { order_no = a })))
      ∷ var (station_node r <> ".stMES.Query") "sPartNo" DataType.text
          (str_at (λ s. s.query.part_no) (in_query (λ a p. record p { part_no = a })))
      ∷ var (station_node r <> ".stMES.Query") "uiOperationNo" DataType.uint16
          (uint_at (λ s. s.query.operation_no) (in_query (λ a p. record p { operation_no = a })))
      ∷ var (station_node r <> ".stMES.Query") "iStepNo" DataType.int16
          (int_at (λ s. s.query.step_no) (in_query (λ a p. record p { step_no = a })))
      ∷ var (station_node r <> ".stMES.Query") "uiNextResourceId" DataType.uint16 (
          uint_at (λ s. s.query.next_resource_id)
            (in_query (λ a p. record p { next_resource_id = a })))
      ∷ var (station_node r <> ".stMES.Query") "iPar1" DataType.int16
          (int_at (λ s. s.query.par1) (in_query (λ a p. record p { par1 = a })))
      ∷ var (station_node r <> ".stMES.Query") "iPar2" DataType.int16
          (int_at (λ s. s.query.par2) (in_query (λ a p. record p { par2 = a })))
      ∷ var (station_node r <> ".stMES.Query") "iPar3" DataType.int16
          (int_at (λ s. s.query.par3) (in_query (λ a p. record p { par3 = a })))
      ∷ var (station_node r <> ".stMES.Query") "iPar4" DataType.int16
          (int_at (λ s. s.query.par4) (in_query (λ a p. record p { par4 = a })))
      ∷ var (station_node r <> ".stMES.Query") "uiResultCode" DataType.uint16
          (uint_at (λ s. s.query.result_code) (in_query (λ a p. record p { result_code = a })))
      ∷ []

  abbrev pub process_variables : List (Variable Station)
  process_variables =
      var (station_node r <> ".dbProcessData") "iCarrierID" DataType.int16
        (int_at (λ s. s.process_data.carrier_id) (in_data (λ a p. record p { carrier_id = a })))
      ∷ var (station_node r <> ".dbProcessData") "iStepNo" DataType.int16
          (int_at (λ s. s.process_data.step_no) (in_data (λ a p. record p { step_no = a })))
      ∷ var (station_node r <> ".dbProcessData") "iResourceID" DataType.int16
          (int_at (λ s. s.process_data.resource_id) (in_data (λ a p. record p { resource_id = a })))
      ∷ var (station_node r <> ".dbProcessData") "iPar1" DataType.int16
          (int_at (λ s. s.process_data.par1) (in_data (λ a p. record p { par1 = a })))
      ∷ var (station_node r <> ".dbProcessData") "iPar2" DataType.int16
          (int_at (λ s. s.process_data.par2) (in_data (λ a p. record p { par2 = a })))
      ∷ var (station_node r <> ".dbProcessData") "iPar3" DataType.int16
          (int_at (λ s. s.process_data.par3) (in_data (λ a p. record p { par3 = a })))
      ∷ var (station_node r <> ".dbProcessData") "iPar4" DataType.int16
          (int_at (λ s. s.process_data.par4) (in_data (λ a p. record p { par4 = a })))
      ∷ var (station_node r <> ".dbProcessData") "xCompleted" DataType.boolean
          (bool_at (λ s. s.process_data.x_completed) none)
      ∷ var (station_node r <> ".dbProcessData") "ldtTimeStamp" DataType.date_time
          (date_at (λ s. s.process_data.time_stamp) (in_data (λ a p. record p { time_stamp = a })))
      ∷ []

  -- `addStation`.
  unfoldable pub station_variables : List (Variable Station)
  unfolding station_node
  station_variables =
      line_variables ++ state_variables ++ control_variables ++ query_variables ++ process_variables

-- `capacity` is the number of the slots.
unfoldable pub summary_variables : Bool → List (Variable Line)
unfolding inventory_available_count inventory_total_count
summary_variables valid =
    var "ns=1;s=CarrierInventory.Summary" "xValid" DataType.boolean (bool_at (λ _. valid) none)
    ∷ var "ns=1;s=CarrierInventory.Summary" "udRevision" DataType.uint32
        (uint_at (λ l. l.revision) none)
    ∷ var "ns=1;s=CarrierInventory.Summary" "uiCapacity" DataType.uint16
        (uint_at (λ l. length l.slots) none)
    ∷ var "ns=1;s=CarrierInventory.Summary" "uiAvailableCount" DataType.uint16
        (uint_at (λ l. inventory_available_count l.slots) none)
    ∷ var "ns=1;s=CarrierInventory.Summary" "uiTotalCount" DataType.uint16
        (uint_at (λ l. inventory_total_count l.slots) none)
    ∷ []

abbrev state_name : PhysicalState → String
state_name stored = "stored"
state_name rfid_error = "rfid_error"
state_name empty = "empty"
state_name in_transit = "in_transit"
state_name at_station = "at_station"

unfoldable pub slot_node : ℕ → String
unfolding show
slot_node n = "ns=1;s=CarrierInventory.Slots." <> show n

-- The variables of the slot with a number.
unfoldable pub slot_variables : ℕ → List (Variable Slot)
unfolding slot_node
slot_variables n =
    var (slot_node n) "xOccupied" DataType.boolean (bool_at (λ s. s.occupied) none)
    ∷ var (slot_node n) "sSlotId" DataType.text (str_at (λ s. s.slot_id) none)
    ∷ var (slot_node n) "uiCarrierId" DataType.uint32 (int_at (λ s. s.carrier_id) none)
    ∷ var (slot_node n) "sRfidUid" DataType.text (str_at (λ s. s.rfid_uid) none)
    ∷ var (slot_node n) "xRfidReadValid" DataType.boolean (bool_at (λ s. s.rfid_read_valid) none)
    ∷ var (slot_node n) "sPhysicalState" DataType.text
        (str_at (λ s. state_name s.physical_state) none)
    ∷ var (slot_node n) "sReaderId" DataType.text (str_at (λ s. s.reader_id) none)
    ∷ var (slot_node n) "ldtLastSeen" DataType.date_time (date_at (λ s. s.last_seen) none)
    ∷ []
