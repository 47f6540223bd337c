-- ===== src/Profile/Setup.antt =====
-- `stationSetupState` and `profileSetupSummary`, and that the summary counts every station once.
use mes_copy.Base.{
  ℕ, ◌+◌, ◌≤◌, ◌≡◌, Bool, not, ◌&&◌, List, [], ◌∷◌, str_eq, ◌==◌, if◌then◌else◌, length, count,
  is_some, arith,
}
use mes_copy.Profile.{Station, positive}

pub data SetupState : Type 0 where
  planned connection_configured discoverable mapped : SetupState

abbrev pub has_endpoint : Station → Bool
has_endpoint s = not (str_eq s.endpoint_url "")

unfoldable pub station_setup_state : Station → SetupState
station_setup_state s =
    if not (has_endpoint s)
    then planned
    else if not (not (str_eq s.station_id "") && is_some (positive s.resource_id))
    then connection_configured
    else if s.signals == 0
    then discoverable
    else mapped

pub record Counts : Type 0 where
  pub planned : ℕ
  pub connection_configured : ℕ
  pub discoverable : ℕ
  pub mapped : ℕ

unfoldable pub count_state : SetupState → Counts → Counts
count_state planned k = record k { planned = k.planned + 1 }
count_state connection_configured k = record k {
  connection_configured = k.connection_configured + 1;
}
count_state discoverable k = record k { discoverable = k.discoverable + 1 }
count_state mapped k = record k { mapped = k.mapped + 1 }

unfoldable pub count_all : List Station → Counts → Counts
unfolding count_state station_setup_state
count_all [] k = k
count_all (s ∷ ss) k = count_all ss (count_state (station_setup_state s) k)

pub record Summary : Type 0 where
  pub station_count : ℕ
  pub endpoint_count : ℕ
  pub mapped_count : ℕ
  pub counts : Counts

-- `profileSetupSummary`.
unfoldable pub profile_setup_summary : List Station → Summary
unfolding count_all
profile_setup_summary stations =
    let counts =
      count_all stations
        (record { planned = 0; connection_configured = 0; discoverable = 0; mapped = 0 }) in
    record {
      station_count = length stations;
      endpoint_count = count has_endpoint stations;
      mapped_count = counts.mapped;
      counts = counts;
    }

abbrev pub total : Counts → ℕ
total k = k.planned + k.connection_configured + k.discoverable + k.mapped

total-count_state : (t : SetupState) (k : Counts) → total (count_state t k) ≡ total k + 1
unfolding count_state
total-count_state planned k = omega arith
total-count_state connection_configured k = omega arith
total-count_state discoverable k = omega arith
total-count_state mapped k = omega arith

total-count_all : (ss : List Station) (k : Counts) → total (count_all ss k) ≡ length ss + total k
unfolding count_all
total-count_all [] k = omega arith
total-count_all (s ∷ ss) k = omega (
  arith,
  total-count_all ss (count_state (station_setup_state s) k),
  total-count_state (station_setup_state s) k,
)

-- A station is planned exactly if it has no endpoint.
planned-count_state :
    (s : Station) (k : Counts)
    → (count_state (station_setup_state s) k).planned + (if has_endpoint s then 1 else 0)
      ≡ k.planned + 1
unfolding count_state station_setup_state
planned-count_state s k = ground arith

planned-count_all :
    (ss : List Station) (k : Counts)
    → (count_all ss k).planned + count has_endpoint ss ≡ length ss + k.planned
unfolding count_all
planned-count_all [] k = omega arith
planned-count_all (s ∷ ss) k =
    ground
      (arith, planned-count_all ss (count_state (station_setup_state s) k), planned-count_state s k)

-- The summary counts every station in one of the four states, those that have an endpoint are all
-- but those planned, and at most these are mapped.
pub profile_setup_summary_lem :
    (ss : List Station)
    → let summary = profile_setup_summary ss in
      (total summary.counts ≡ summary.station_count)
      × (summary.counts.planned + summary.endpoint_count ≡ summary.station_count)
      × (summary.mapped_count ≤ summary.endpoint_count)
unfolding profile_setup_summary
profile_setup_summary_lem ss =
    let k : Counts = record {
      planned = 0;
      connection_configured = 0;
      discoverable = 0;
      mapped = 0;
    } in
    let all : total (count_all ss k) ≡ length ss + 0 = total-count_all ss k in
    let free : (count_all ss k).planned + count has_endpoint ss ≡ length ss + 0 =
      planned-count_all ss k in
    (omega (arith, all), omega (arith, free), omega (arith, all, free))
