-- ===== src/OpcUa.antt =====
-- The OPC UA variables that the machine servers under test-machines/ register (`addVariable` and
-- `addStateVariable`): a data type, a getter and, where the variable is writable, a setter, all
-- over the server's state `S`. A double is kept in
-- thousandths, a time in milliseconds.
pub mod Laws
use mes_copy.Base.{
  ℕ, ◌<◌, String, Bool, true, false, Option, none, some, List, ℤ, ltb, leb, find, str_eq,
}
use mes_copy.Base.Int.{pos, negsuc}

pub data DataType : Type 0 where
  boolean uint16 uint32 int16 double text date_time : DataType

pub data Value : Type 0 where
  bool : Bool → Value
  uint : ℕ → Value
  int : ℤ → Value
  real : ℤ → Value
  str : String → Value
  date : ℕ → Value

-- Which values a client can send for a variable of each data type.
abbrev pub fits : DataType → Value → Bool
fits DataType.boolean (bool _) = true
fits DataType.uint16 (uint n) = ltb n 65536
fits DataType.uint32 (uint n) = ltb n 4294967296
fits DataType.int16 (int (pos n)) = ltb n 32768
fits DataType.int16 (int (negsuc n)) = ltb n 32768
fits DataType.double (real _) = true
fits DataType.text (str _) = true
fits DataType.date_time (date _) = true
fits _ _ = false

-- `readValue` and `writeValue`; a variable with no `writeValue` has no setter.
pub data Access (S : Type 0) : Type 0 where
  bool_at : (S → Bool) → Option (Bool → S → S) → Access S
  uint_at : (S → ℕ) → Option (ℕ → S → S) → Access S
  int_at : (S → ℤ) → Option (ℤ → S → S) → Access S
  real_at : (S → ℤ) → Option (ℤ → S → S) → Access S
  str_at : (S → String) → Option (String → S → S) → Access S
  date_at : (S → ℕ) → Option (ℕ → S → S) → Access S

pub record Variable (S : Type 0) : Type 0 where
  pub browse_name : String
  pub node_id : String
  pub data_type : DataType
  pub access : Access S

module _ {S : Type 0} where
  abbrev get_at : Access S → S → Value
  get_at (bool_at get _) s = bool (get s)
  get_at (uint_at get _) s = uint (get s)
  get_at (int_at get _) s = int (get s)
  get_at (real_at get _) s = real (get s)
  get_at (str_at get _) s = str (get s)
  get_at (date_at get _) s = date (get s)

  abbrev pub set_at : Access S → Value → S → Option S
  set_at (bool_at _ (some set)) (bool b) s = some (set b s)
  set_at (uint_at _ (some set)) (uint n) s = some (set n s)
  set_at (int_at _ (some set)) (int z) s = some (set z s)
  set_at (real_at _ (some set)) (real z) s = some (set z s)
  set_at (str_at _ (some set)) (str t) s = some (set t s)
  set_at (date_at _ (some set)) (date t) s = some (set t s)
  set_at _ _ s = none

  -- `value.get`.
  pub get_value : Variable S → S → Value
  get_value var s = get_at var.access s

  -- `value.set`, which is there only for a writable variable.
  unfoldable pub set_value : Variable S → Value → S → Option S
  set_value var v s = set_at var.access v s

  -- The variable registered under a node id.
  unfoldable pub lookup_node : String → List (Variable S) → Option (Variable S)
  lookup_node id vars = find (λ var. str_eq var.node_id id) vars
