-- ===== src/Line/Plans.antt =====
-- The plans for the carriers of the production line, and their release from the store.
use mes_copy.Base.{
  ℕ, Bool, false, not, ◌&&◌, ◌||◌, Option, none, some, List, [], ◌∷◌, ◌++◌, find, if◌then◌else◌,
  ◌==◌, modify, length, is_some, select,
}
use mes_copy.Base.Int.{ℤ, int_eq}
use mes_copy.Line.{Settings, Station, Slot, Carrier, Line, Known, first_release, in_transit}
use mes_copy.Line.Inventory.{
  observe_carrier, Overrides, register_carrier_in_inventory, has_carrier, is_stored,
}
use mes_copy.Line.Queue.{station_of, set_timer, carrier_at, request_mes_data}

abbrev pub includes_id : ℤ → List ℤ → Bool
includes_id id [] = false
includes_id id (x ∷ xs) = int_eq x id || includes_id id xs

-- `stations.find(…) || stations[0]`, as a resource id.
abbrev first_resource : List Station → ℕ
first_resource [] = 0
first_resource (s ∷ ss) = s.config.resource_id

unfoldable pub target_of : ℕ → List Station → ℕ
unfolding station_of
target_of r stations = if is_some (station_of r stations) then r else first_resource stations

-- `carrier.routeResourceId = carrier.targetResourceId || targetStation.resourceId`.
abbrev pub set_route : ℕ → ℕ → Line → Line
set_route ref target line = record line {
  carriers =
      modify ref
        (λ x. record x {
          route_resource_id = if x.target_resource_id == 0 then target else x.target_resource_id;
        })
        line.carriers;
}

abbrev pub leaving : Overrides
leaving = record { occupied = some false; reader_id = some "DEMO-PALLET-STORE-EXIT" }

-- `releaseCarrier` for a carrier that the store can give out.
unfoldable pub send_out : Settings → ℕ → ℕ → Line → Line
unfolding observe_carrier carrier_at target_of request_mes_data
send_out c now ref line =
    let carrier = carrier_at ref line in
    let target = target_of carrier.target_resource_id line.stations in
    let observed = observe_carrier c now carrier.carrier_id in_transit leaving line in
    request_mes_data c now target ref (set_route ref target observed)

abbrev pub can_leave : Option Slot → Bool
can_leave none = false
can_leave (some slot) = slot.occupied && is_stored slot.physical_state && slot.rfid_read_valid

-- `releaseCarrier`.
unfoldable pub release_carrier : Settings → ℕ → ℕ → Line → Line
unfolding send_out carrier_at
release_carrier c now ref line =
    let id = (carrier_at ref line).carrier_id in
    if includes_id id line.deactivated
    then line
    else if can_leave (find (has_carrier id) line.slots)
    then send_out c now ref line
    else line

-- The timer of `scheduleCarrierReleases`: a first release, and the interval.
unfoldable pub start_releases : Settings → ℕ → ℕ → Line → Line
unfolding release_carrier
start_releases c now ref line =
    let released = release_carrier c now ref line in
    record released { releasing = ref ∷ released.releasing }

abbrev pub is_known : ℤ → Known → Bool
is_known id k = int_eq k.carrier_id id

abbrev pub without_id : ℤ → List ℤ → List ℤ
without_id id ids = select (λ x. not (int_eq x id)) ids

-- `scheduleNewCarrier` by the plan known for the carrier.
unfoldable pub schedule_at : Settings → ℕ → Carrier → Option Known → Line → Line
unfolding register_carrier_in_inventory set_timer
schedule_at c now plan (some k) line = record line {
  carriers = modify k.plan (λ _. plan) line.carriers;
  deactivated = without_id plan.carrier_id line.deactivated;
}
schedule_at c now plan none line = set_timer (first_release (length line.carriers)) (
    register_carrier_in_inventory c now plan.carrier_id (record line {
      carriers = line.carriers ++ plan ∷ [];
      known =
          line.known ++ record { carrier_id = plan.carrier_id; plan = length line.carriers } ∷ [];
    }))

-- `scheduleNewCarrier`.
unfoldable pub schedule_new_carrier : Settings → ℕ → Carrier → Line → Line
unfolding schedule_at
schedule_new_carrier c now plan line =
    schedule_at c now plan (find (is_known plan.carrier_id) line.known) line

unfoldable pub schedule_all : Settings → ℕ → List Carrier → Line → Line
unfolding schedule_new_carrier
schedule_all c now [] line = line
schedule_all c now (plan ∷ plans) line =
    schedule_all c now plans (schedule_new_carrier c now plan line)

-- `deactivatedCarrierIds.add` for the known carriers that have no plan.
unfoldable pub deactivate : List Carrier → List Known → List ℤ → List ℤ
deactivate plans [] ids = ids
deactivate plans (k ∷ ks) ids =
    let planned = is_some (find (λ plan. int_eq plan.carrier_id k.carrier_id) plans) in
    deactivate plans ks
      (if planned || includes_id k.carrier_id ids then ids else k.carrier_id ∷ ids)

-- `refreshCarriers` with the plans that were fetched.
unfoldable pub refresh_carriers : Settings → ℕ → List Carrier → Line → Line
unfolding schedule_all deactivate
refresh_carriers c now plans line =
    schedule_all c now plans
      (record line { deactivated = deactivate plans line.known line.deactivated })
