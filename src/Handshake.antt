-- ===== src/Handshake.antt =====
-- The handshake of a station with the MES (src/opcua/stmes-handshake.service.ts and
-- stmes-handshake.entity.ts): a station's request is read, answered and written to the journal, and
-- a station that has been answered asks again only after it has acknowledged. A call of the service
-- runs from one awaited call to the next; between the two, other calls go on. What an awaited call
-- has done is the argument of the step that goes on from it. A call that fails is taken to have
-- written nothing. The texts of messages are left out.
use mes_copy.Base.{
  ℕ, suc, String, Bool, true, false, not, ◌&&◌, ◌||◌, Option, none, some, List, [], ◌∷◌, ◌++◌,
  select, if◌then◌else◌, ◌==◌, ltb, str_eq,
}
use mes_copy.Mes.{Database, Profile}
use mes_copy.Mes.Tables.{save}
use mes_copy.Mes.Stations.{
  RoutingOutcome, accepted, wrong_resource, internal_error, Assignment, Decision, rejected,
  Transaction, thrown, returned, resolve_station_request,
}
use mes_copy.Mes.Completion.{complete_station_step, fail_station_step}
pub mod Dispatch
pub mod Calls
pub mod Answers
pub mod Steps
pub mod Advance
pub mod Counts
pub mod Traces
pub mod Ahead
pub mod Ending
mod Tests

-- `StMesHandshakeStatusEnum`.
pub data HandshakeStatus : Type 0 where
  received : HandshakeStatus
  responded : HandshakeStatus
  failed : HandshakeStatus
  acknowledged : HandshakeStatus

-- `MachineRoutingResponse`.
pub record Response : Type 0 where
  pub result_code : ℕ
  pub assignment : Option Assignment

-- `StMesHandshakeEntity`; `failed` is 'error'.
pub record Handshake : Type 0 where
  pub id : ℕ
  pub resource_id : ℕ
  pub carrier_number : ℕ
  pub requested_resource_id : ℕ
  pub carrier_id : Option ℕ
  pub order_id : Option ℕ
  pub status : HandshakeStatus
  pub result_code : Option ℕ
  pub response : Option Response
  pub responded_at : Option ℕ
  pub acknowledged_at : Option ℕ
  pub has_error_message : Bool
  pub created_at : ℕ

-- `MachineStationRequest`.
pub record StationRequest : Type 0 where
  pub carrier_number : ℕ
  pub requested_resource_id : ℕ

pub data Phase : Type 0 where
  requested : Phase
  busy : Phase
  answered : Phase
  refused : Phase
  quit : Phase
  process_completed : Phase

-- What is published: the resource and the phase. `answered` is 'done', `refused` 'error' and `quit`
-- 'acknowledged'.
pub record Event : Type 0 where
  pub resource_id : ℕ
  pub phase : Phase

-- What has been written to a station: a response, or an internal error.
pub data Written : Type 0 where
  response : ℕ → Response → Written
  error : ℕ → ℕ → Written

-- The awaited call that a call of the service has not come back from.
pub data Stage : Type 0 where
  reading : Stage  -- readStationRequest
  journalling : StationRequest → ℕ → Stage  -- the save of a new entry
  marking : Handshake → Stage  -- markRequestBusy
  deciding : Handshake → Stage  -- resolveStationRequest
  responding : Handshake → RoutingOutcome → Option Assignment → ℕ → Stage  -- writeRoutingResponse
  closing : Handshake → Phase → Stage  -- the save of the entry with the response
  reporting : Option Handshake → ℕ → Stage  -- writeInternalError
  failing : Handshake → Option ℕ → Stage  -- failStationStep
  recording : Handshake → Stage  -- the save of the failed entry
  acknowledging : Stage  -- acknowledgeRequest
  looking : Stage  -- findOne
  quitting : Handshake → Stage  -- the save of the acknowledged entry
  counting : ℕ → Stage  -- readCompletedCarrierNumber
  completing : ℕ → ℕ → Stage  -- completeStationStep
  over : Stage

-- A call of `dispatch`, `acknowledge` or `completeProcess` for a resource.
pub record Task : Type 0 where
  pub resource_id : ℕ
  pub stage : Stage

pub record Service : Type 0 where
  pub processing : List ℕ
  pub handshakes : List Handshake
  pub database : Database
  pub written : List Written
  pub events : List Event
  pub tasks : List Task

-- What the machine adapter and the database do: `works` if the awaited call returns, `publishes` if
-- `publishHandshakeEvent` does after it, `result_code` what `routingResultCode` gives, `none` if it
-- throws; `request` and `carrier_number` are what the adapter has read, and `id` is that of a row
-- that is new.
pub record Reply : Type 0 where
  pub works : Bool
  pub publishes : Bool
  pub result_code : RoutingOutcome → Option ℕ
  pub request : StationRequest
  pub carrier_number : ℕ
  pub now : ℕ
  pub id : ℕ

-- Where a call goes on to, and what it has changed.
pub record Outcome : Type 0 where
  pub stage : Stage
  pub service : Service

abbrev pub has : ℕ → List ℕ → Bool
has r [] = false
has r (x ∷ xs) = let rest = has r xs in if x == r then true else rest

abbrev pub without : ℕ → List ℕ → List ℕ
without r xs = select (λ x. not (x == r)) xs

abbrev pub publish : ℕ → Phase → Service → Service
publish r phase st = record st {
  events = st.events ++ record { resource_id = r; phase = phase } ∷ [];
}

abbrev pub save_handshake : Handshake → Service → Service
save_handshake h st = record st { handshakes = save (λ x. x.id) h st.handshakes }

abbrev pub write : Written → Service → Service
write w st = record st { written = st.written ++ w ∷ [] }
