-- ===== src/Scan.antt =====
-- The scan of an OPC UA address space by the commissioning tool: `scanAddressSpace` of
-- tools/opcua-commissioning.js. `allReferences` and `variableMetadata` only gather the answers of the
-- OPC UA library, and what they return for a node is an argument.
pub mod Bounds
mod Tests
use mes_copy.Base.{
  ℕ, zero, suc, ◌+◌, String, Bool, true, false, not, ◌&&◌, ◌||◌, Option, none, some, List, [], ◌∷◌,
  ◌++◌, ◌<>◌, length, includes, str_eq, ltb, leb, if◌then◌else◌,
}
use mes_copy.Base.Int.{ℤ}

pub record Reference : Type 0 where
  pub node_id : String
  pub browse_name : Option String
  pub display_name : Option String
  pub node_class : String

pub record Metadata : Type 0 where
  pub data_type : Option String
  pub access_level : Option String
  pub user_access_level : Option String
  pub value_rank : Option ℤ

pub record Session : Type 0 where
  pub references : String → List Reference
  pub metadata : String → Metadata

pub record Entry : Type 0 where
  pub node_id : String
  pub browse_name : Option String
  pub display_name : Option String
  pub node_class : String
  pub path : String
  pub metadata : Option Metadata

-- An element of the queue.
pub record Pending : Type 0 where
  pub node_id : String
  pub depth : ℕ
  pub path : String

pub record Scan : Type 0 where
  pub queue : List Pending
  pub visited : List String
  pub nodes : List Entry
  pub truncated : Bool

-- `browseName || displayName || id`; an empty name is false.
abbrev name_or : Option String → String → String
name_or none other = other
name_or (some name) other = if str_eq name "" then other else name

-- After one turn of the `while` loop.
pub data Turn : Type 0 where
  ended : Scan → Turn
  more : Scan → Turn

module _ (session : Session) (max_depth max_nodes : ℕ) where
  unfoldable pub entry_of : Pending → Reference → Entry
  entry_of current r = record {
    node_id = r.node_id;
    browse_name = r.browse_name;
    display_name = r.display_name;
    node_class = r.node_class;
    path = current.path <> "/" <> name_or r.browse_name (name_or r.display_name r.node_id);
    metadata = if str_eq r.node_class "Variable" then some (session.metadata r.node_id) else none;
  }

  unfoldable pub is_followed : Pending → Reference → List String → Bool
  is_followed current r visited =
      ltb current.depth max_depth
      && not (includes r.node_id visited)
      && (str_eq r.node_class "Object" || str_eq r.node_class "View")

  -- The body of the `for` loop, for a reference that the limit admits.
  unfoldable pub add_reference : Pending → Reference → Scan → Scan
  unfolding entry_of is_followed
  add_reference current r scan = record scan {
    nodes = scan.nodes ++ entry_of current r ∷ [];
    queue =
        if is_followed current r scan.visited
        then scan.queue
          ++ record {
            node_id = r.node_id;
            depth = current.depth + 1;
            path = (entry_of current r).path;
          }
            ∷ []
        else scan.queue;
  }

  unfoldable pub add_references : Pending → List Reference → Scan → Scan
  unfolding add_reference
  add_references current [] scan = scan
  add_references current (r ∷ rs) scan =
      let rest = add_references current rs (add_reference current r scan) in
      if leb max_nodes (length scan.nodes) then record scan { truncated = true } else rest

  unfoldable pub visit : Pending → Scan → Turn
  unfolding add_references
  visit current scan =
      if leb max_nodes (length scan.nodes)
      then ended (record scan { truncated = true })
      else more (add_references current (session.references current.node_id) scan)

  unfoldable pub turn_at : List Pending → Scan → Turn
  unfolding visit
  turn_at [] scan = ended scan
  turn_at (current ∷ queue) scan =
      if includes current.node_id scan.visited
      then more (record scan { queue = queue })
      else visit current (record scan { queue = queue; visited = current.node_id ∷ scan.visited })

  unfoldable pub go_on : Turn → (Scan → Option Scan) → Option Scan
  go_on (ended scan) loop = some scan
  go_on (more scan) loop = loop scan

  -- The `while` loop; `none` without enough fuel.
  unfoldable pub scan_with : ℕ → Scan → Option Scan
  unfolding go_on turn_at
  scan_with zero scan = none
  scan_with (suc fuel) scan = go_on (turn_at scan.queue scan) (scan_with fuel)

  -- `scanAddressSpace`; the loop turns once for the root and once for each node that is added.
  unfoldable pub scan_address_space : String → Option Scan
  unfolding scan_with
  scan_address_space root = scan_with (max_nodes + 2) (record {
    queue = record { node_id = root; depth = 0; path = root } ∷ [];
    visited = [];
    nodes = [];
    truncated = false;
  })
