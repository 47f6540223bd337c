-- ===== src/Mes/Reconnect.antt =====
-- When the recovery runs and what it reports (src/opcua/connection-recovery.service.ts,
-- `handleDisconnect`, `handleReconnect`, `recoverFromStartup` and the alarm of `recoverStations`).
use mes_copy.Base.{
  ℕ, String, Bool, false, List, [], ◌∷◌, ◌++◌, Option, select, count, length, ltb, ◌==◌,
  if◌then◌else◌, show, ◌<>◌,
}
use mes_copy.Mes.{Database}
use mes_copy.Mes.Recovery.{
  is_in_progress, is_stuck, StationDescriptor, Snapshot, station_carriers,
  release_carriers_without_active_order, recover_database,
}

pub data Severity : Type 0 where
  info : Severity
  warning : Severity
  critical : Severity

-- What `alarms.create` is called with, but for the source, which is always the service.
pub record Alarm : Type 0 where
  pub severity : Severity
  pub machine_id : String
  pub message : String

pub record Recovery : Type 0 where
  pub database : Database
  pub had_active_orders : Bool
  pub alarms : List Alarm

-- `count({ where: { status: 'in_progress' } })`.
abbrev pub active_orders : Database → ℕ
active_orders db = count (λ o. is_in_progress o.status) db.orders

abbrev pub raise : Severity → String → String → Recovery → Recovery
raise severity machine_id message st = record st {
  alarms =
      st.alarms ++ record { severity = severity; machine_id = machine_id; message = message } ∷ [];
}

-- What the adapter says of the machine, its stations and their state.
module _ (machine_id : String) (stations : List StationDescriptor)
    (read : ℕ → Option Snapshot) where
  unfoldable pub handle_disconnect : String → Recovery → Recovery
  unfolding show
  handle_disconnect reason st =
      let active = active_orders st.database in
      let seen : Recovery = record st { had_active_orders = ltb 0 active } in
      if ltb 0 active
      then raise critical machine_id
          ("OPC UA Verbindung verloren ("
            <> reason
            <> ") bei "
            <> show active
            <> " aktivem/n Auftrag/aufträgen")
          seen
      else seen

  -- `recoverStations`.
  unfoldable pub recover_stations : Recovery → Recovery
  unfolding show recover_database station_carriers release_carriers_without_active_order
  recover_stations st =
      let released = release_carriers_without_active_order st.database in
      let stuck = select (λ c. is_stuck c.status) released.carriers in
      raise info machine_id
        ("Recovery abgeschlossen: "
          <> show (length stuck)
          <> " Carrier geprüft, "
          <> show (length (station_carriers read stations))
          <> " aktiv an Stationen")
        (record st { database = recover_database read stations st.database })

  unfoldable pub handle_reconnect : Recovery → Recovery
  unfolding recover_stations
  handle_reconnect st =
      if st.had_active_orders
      then recover_stations (
          raise info machine_id "OPC UA Verbindung wiederhergestellt – Recovery läuft"
            (record st { had_active_orders = false }))
      else st

  unfoldable pub recover_from_startup : Recovery → Recovery
  unfolding show recover_stations release_carriers_without_active_order
  recover_from_startup st =
      let released : Recovery = record st {
        database = release_carriers_without_active_order st.database;
      } in
      let active = active_orders released.database in
      if active == 0
      then released
      else recover_stations (
          raise warning machine_id
            ("Backend-Neustart bei "
              <> show active
              <> " aktivem/n Auftrag/aufträgen – Recovery wird durchgeführt")
            released)
