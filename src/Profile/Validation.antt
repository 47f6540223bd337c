-- ===== src/Profile/Validation.antt =====
-- `validateProfileDraft`: the two loops over the stations, and the walk up the hierarchy.
use mes_copy.Base.{
  ℕ, zero, suc, String, Bool, true, false, not, ◌&&◌, ◌||◌, Option, none, some, List, [], ◌∷◌, ◌++◌,
  includes, str_eq, ltb, ◌==◌, if◌then◌else◌, length,
}
use mes_copy.Profile.{Routing, Station, positive, is_not_off}

-- The messages, by what they are about.
pub data Issue : Type 0 where
  duplicate_station_id : String → Issue
  duplicate_resource_id : ℕ → Issue
  bad_sequence : String → Issue
  duplicate_sequence : Option ℕ → Issue
  not_routable : String → Issue
  hierarchy_cycle : String → Issue

abbrev pub includes_number : ℕ → List ℕ → Bool
includes_number n [] = false
includes_number n (x ∷ xs) = x == n || includes_number n xs

-- A Set of numbers has NaN at most once.
abbrev pub same_number : Option ℕ → Option ℕ → Bool
same_number none none = true
same_number (some m) (some n) = m == n
same_number _ _ = false

abbrev pub includes_sequence : Option ℕ → List (Option ℕ) → Bool
includes_sequence n [] = false
includes_sequence n (x ∷ xs) = same_number x n || includes_sequence n xs

-- What the first loop has seen.
pub record Seen : Type 0 where
  pub station_ids : List String
  pub resource_ids : List ℕ
  pub sequences : List (Option ℕ)

abbrev issue_if : Bool → Issue → List Issue
issue_if b issue = if b then issue ∷ [] else []

unfoldable pub id_issues : String → Seen → List Issue
id_issues id seen =
    issue_if (not (str_eq id "") && includes id seen.station_ids) (duplicate_station_id id)

unfoldable pub resource_issues : Option ℕ → Seen → List Issue
resource_issues none seen = []
resource_issues (some r) seen =
    issue_if (includes_number r seen.resource_ids) (duplicate_resource_id r)

abbrev pub is_positive : Option ℕ → Bool
is_positive none = false
is_positive (some n) = ltb 0 n

unfoldable pub routing_issues : Station → Option Routing → Seen → List Issue
routing_issues s none seen = []
routing_issues s (some r) seen =
    if is_not_off r.enabled
    then issue_if (not (is_positive r.sequence)) (bad_sequence s.station_id)
      ++ issue_if (includes_sequence r.sequence seen.sequences) (duplicate_sequence r.sequence)
      ++ issue_if (not s.enabled || not (includes "routing" s.capabilities))
          (not_routable s.station_id)
    else []

abbrev add_resource : Option ℕ → List ℕ → List ℕ
add_resource none rs = rs
add_resource (some r) rs = r ∷ rs

abbrev pub add_sequence : Option Routing → List (Option ℕ) → List (Option ℕ)
add_sequence none ns = ns
add_sequence (some r) ns = if is_not_off r.enabled then r.sequence ∷ ns else ns

unfoldable pub see : Station → Seen → Seen
see s seen = record {
  station_ids =
      if str_eq s.station_id "" then seen.station_ids else s.station_id ∷ seen.station_ids;
  resource_ids = add_resource (positive s.resource_id) seen.resource_ids;
  sequences = add_sequence s.routing seen.sequences;
}

unfoldable pub station_issues : Station → Seen → List Issue
unfolding id_issues resource_issues routing_issues
station_issues s seen =
    id_issues s.station_id seen
    ++ resource_issues (positive s.resource_id) seen
    ++ routing_issues s s.routing seen

unfoldable pub all_issues : List Station → Seen → List Issue
unfolding station_issues see
all_issues [] seen = []
all_issues (s ∷ ss) seen = station_issues s seen ++ all_issues ss (see s seen)

abbrev pub has_resource : ℕ → Option ℕ → Bool
has_resource r none = false
has_resource r (some n) = n == r

abbrev pub or_this : Option Station → Bool → Station → Option Station
or_this (some t) b s = some t
or_this none b s = if b then some s else none

-- `byResource.get`: the last station with the id.
unfoldable pub by_resource : ℕ → List Station → Option Station
by_resource r [] = none
by_resource r (s ∷ ss) = or_this (by_resource r ss) (has_resource r (positive s.resource_id)) s

unfoldable pub parent_at : Option ℕ → List Station → Option Station
unfolding by_resource
parent_at none stations = none
parent_at (some r) stations = by_resource r stations

unfoldable pub parent_of : Station → List Station → Option Station
unfolding parent_at
parent_of s stations = parent_at s.parent_resource_id stations

abbrev pub number : Option ℕ → ℕ
number none = 0
number (some n) = n

-- The `while` loop: whether it finds a cycle, or `none` without enough fuel.
unfoldable pub climb : ℕ → List Station → List ℕ → Option Station → Option Bool
unfolding parent_of
climb zero stations visited parent = none
climb (suc fuel) stations visited none = some false
climb (suc fuel) stations visited (some p) =
    let rest = climb fuel stations (number p.resource_id ∷ visited) (parent_of p stations) in
    if includes_number (number p.resource_id) visited then some true else rest

unfoldable pub finds_cycle : List Station → ℕ → Station → Option Bool
unfolding climb
finds_cycle stations r s = climb (suc (length stations)) stations (r ∷ []) (parent_of s stations)

abbrev cycle_issue : Option Bool → String → List Issue
cycle_issue (some true) id = hierarchy_cycle id ∷ []
cycle_issue _ id = []

unfoldable pub hierarchy_issue : List Station → Option ℕ → Station → List Issue
unfolding finds_cycle
hierarchy_issue stations none s = []
hierarchy_issue stations (some r) s = cycle_issue (finds_cycle stations r s) s.station_id

unfoldable pub hierarchy_issues : List Station → List Station → List Issue
unfolding hierarchy_issue
hierarchy_issues stations [] = []
hierarchy_issues stations (s ∷ ss) =
    hierarchy_issue stations (positive s.resource_id) s ++ hierarchy_issues stations ss

-- `validateProfileDraft`.
unfoldable pub validate_profile_draft : List Station → List Issue
unfolding all_issues hierarchy_issues
validate_profile_draft stations =
    all_issues stations (record { station_ids = []; resource_ids = []; sequences = [] })
    ++ hierarchy_issues stations stations
