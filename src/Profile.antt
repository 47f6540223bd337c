-- ===== src/Profile.antt =====
-- The draft of a machine profile in the frontend, frontend/src/utils/machineProfileConfig.js.
-- A text is what `String(…).trim()` makes of it. A number is `none` where `Number` gives NaN;
-- negative and fractional numbers are left out.
pub mod Validation
pub mod Setup
pub mod Hierarchy
pub mod Accepted
pub mod Preview
mod Tests
use mes_copy.Base.{
  ℕ, String, Bool, true, false, ◌&&◌, Option, none, some, List, includes, ltb, leb, if◌then◌else◌,
  [], ◌∷◌, select, is_some,
}

pub record Routing : Type 0 where
  pub enabled : Option Bool
  pub sequence : Option ℕ

pub record Station : Type 0 where
  pub station_id : String
  pub resource_id : Option ℕ
  pub parent_resource_id : Option ℕ
  pub enabled : Bool
  pub capabilities : List String
  pub routing : Option Routing
  pub endpoint_url : String
  pub signals : ℕ

-- `isPositiveInteger`, with the number.
abbrev pub positive : Option ℕ → Option ℕ
positive none = none
positive (some n) = if ltb 0 n then some n else none

-- `routing?.enabled !== false`.
abbrev pub is_not_off : Option Bool → Bool
is_not_off (some false) = false
is_not_off _ = true

-- The sequence of a station that the preview shows.
abbrev pub sequence_of : Option Routing → Option ℕ
sequence_of none = none
sequence_of (some r) = if is_not_off r.enabled then r.sequence else none

abbrev pub is_previewed : Station → Bool
is_previewed s = s.enabled && includes "routing" s.capabilities && is_some (sequence_of s.routing)

abbrev sequence_or_zero : Option ℕ → ℕ
sequence_or_zero none = 0
sequence_or_zero (some n) = n

abbrev pub sequence : Station → ℕ
sequence s = sequence_or_zero (sequence_of s.routing)

-- `sort` is stable: an element goes before the first that has a greater sequence.
unfoldable pub insert : Station → List Station → List Station
insert s [] = s ∷ []
insert s (t ∷ ts) =
    let rest = insert s ts in if leb (sequence s) (sequence t) then s ∷ t ∷ ts else t ∷ rest

unfoldable pub sort : List Station → List Station
unfolding insert
sort [] = []
sort (s ∷ ss) = insert s (sort ss)

-- `sortedRoutingPreview`.
unfoldable pub sorted_routing_preview : List Station → List Station
unfolding sort
sorted_routing_preview stations = sort (select is_previewed stations)
