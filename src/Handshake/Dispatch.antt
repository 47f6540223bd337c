-- ===== src/Handshake/Dispatch.antt =====
-- How a request of a station is answered (src/opcua/stmes-handshake.service.ts, `dispatch`), from
-- each awaited call to the next.
use mes_copy.Base.{
  ℕ, Bool, true, false, not, ◌&&◌, Option, none, some, [], ◌∷◌, ◌++◌, if◌then◌else◌, ◌==◌, str_eq,
}
use mes_copy.Mes.{Profile}
use mes_copy.Mes.Stations.{
  RoutingOutcome, accepted, wrong_resource, internal_error, Assignment, Decision, rejected,
  Transaction, thrown, returned, resolve_station_request,
}
use mes_copy.Mes.Completion.{fail_station_step}
use mes_copy.Handshake.{
  Service, Reply, Outcome, Stage, reading, journalling, marking, deciding, responding, closing,
  reporting, failing, recording, over, Handshake, received, responded, failed, StationRequest,
  Phase, requested, busy, answered, refused, Written, has, publish, save_handshake, write,
}

-- What a decision that was accepted must say.
abbrev pub is_complete : Option Assignment → Bool
is_complete none = false
is_complete (some a) = not (str_eq a.order_no "") && not (str_eq a.part_no "")

abbrev pub is_accepted : RoutingOutcome → Bool
is_accepted accepted = true
is_accepted _ = false

abbrev pub carrier_of : Option Assignment → Option ℕ
carrier_of none = none
carrier_of (some a) = some a.carrier_id

abbrev pub order_of : Option Assignment → Option ℕ
order_of none = none
order_of (some a) = some a.order_id

-- The call goes on to an awaited call.
abbrev pub awaits : Stage → Service → Outcome
awaits stage st = record { stage = stage; service = st }

-- `dispatch` until its first awaited call.
unfoldable pub dispatch : ℕ → Service → Service
dispatch r st = if has r st.processing then st else record st {
  processing = r ∷ st.processing;
  tasks = st.tasks ++ record { resource_id = r; stage = reading } ∷ [];
}

module _ (profile : Profile) (reply : Reply) (r : ℕ) where
  -- The `catch` after its report: its step and its entry fail, if there is an entry.
  unfoldable pub fail_journal : Option ℕ → Option Handshake → Service → Outcome
  fail_journal code none st = awaits over (if reply.publishes then publish r refused st else st)
  fail_journal code (some h) st = awaits (failing h code) st

  unfoldable pub report_error : Option ℕ → Option Handshake → Service → Outcome
  unfolding fail_journal
  report_error none journal st = fail_journal none journal st
  report_error (some code) journal st = awaits (reporting journal code) st

  -- The `catch` of `dispatch`.
  unfoldable pub fail_dispatch : Option Handshake → Service → Outcome
  unfolding report_error
  fail_dispatch journal st = report_error (reply.result_code internal_error) journal st

  unfoldable pub after_request : Service → Outcome
  unfolding fail_dispatch
  after_request st =
      if reply.works then awaits (journalling reply.request reply.now) st else fail_dispatch none st

  unfoldable pub new_handshake : StationRequest → ℕ → Handshake
  new_handshake request requested_at = record {
    id = reply.id;
    resource_id = r;
    carrier_number = request.carrier_number;
    requested_resource_id = request.requested_resource_id;
    carrier_id = none;
    order_id = none;
    status = received;
    result_code = none;
    response = none;
    responded_at = none;
    acknowledged_at = none;
    has_error_message = false;
    created_at = requested_at;
  }

  unfoldable pub after_journal : Handshake → Service → Outcome
  unfolding fail_dispatch
  after_journal h st =
      if not reply.works
      then fail_dispatch none st
      else if reply.publishes
      then awaits (marking h) (publish r requested (save_handshake h st))
      else fail_dispatch (some h) (save_handshake h st)

  unfoldable pub respond_with : Handshake → Decision → Option ℕ → Service → Outcome
  unfolding fail_dispatch
  respond_with h d none st = fail_dispatch (some h) st
  respond_with h d (some code) st =
      if is_accepted d.outcome && not (is_complete d.assignment)
      then fail_dispatch (some h) st
      else awaits (responding h d.outcome d.assignment code) st

  unfoldable pub respond : Handshake → Decision → Service → Outcome
  unfolding respond_with
  respond h d st = respond_with h d (reply.result_code d.outcome) st

  -- The router is asked only for a request that names the resource it comes from.
  unfoldable pub after_mark : Handshake → Service → Outcome
  unfolding respond fail_dispatch
  after_mark h st =
      if not (reply.works && reply.publishes)
      then fail_dispatch (some h) st
      else if h.requested_resource_id == r
      then awaits (deciding h) (publish r busy st)
      else respond h (rejected wrong_resource) (publish r busy st)

  unfoldable pub decide : Handshake → Transaction Decision → Service → Outcome
  unfolding respond fail_dispatch
  decide h (thrown e) st = fail_dispatch (some h) st
  decide h (returned db d) st = respond h d (record st { database = db })

  unfoldable pub after_decision : Handshake → Service → Outcome
  unfolding decide fail_dispatch resolve_station_request
  after_decision h st =
      if reply.works
      then decide h
          (resolve_station_request profile reply.now reply.id r h.carrier_number st.database) st
      else fail_dispatch (some h) st

  -- The entry with the response.
  unfoldable pub answer : Handshake → RoutingOutcome → Option Assignment → ℕ → Handshake
  answer h outcome assignment code = record h {
    carrier_id = carrier_of assignment;
    order_id = order_of assignment;
    result_code = some code;
    response = some (record { result_code = code; assignment = assignment });
    responded_at = some reply.now;
    status = if is_accepted outcome then responded else failed;
  }

  unfoldable pub after_response :
      Handshake → RoutingOutcome → Option Assignment → ℕ → Service → Outcome
  unfolding answer fail_dispatch
  after_response h outcome assignment code st =
      if reply.works
      then awaits
          (closing (answer h outcome assignment code)
            (if is_accepted outcome then answered else refused))
          (write (Written.response r (record { result_code = code; assignment = assignment })) st)
      else fail_dispatch (some h) st

  -- A failure here is reported to the station like one before the response.
  unfoldable pub after_close : Handshake → Phase → Service → Outcome
  unfolding fail_dispatch
  after_close h phase st =
      if not reply.works
      then fail_dispatch (some h) st
      else if reply.publishes
      then awaits over (publish r phase (save_handshake h st))
      else fail_dispatch (some h) (save_handshake h st)

  unfoldable pub after_report : Option Handshake → ℕ → Service → Outcome
  unfolding fail_journal
  after_report journal code st =
      fail_journal (some code) journal (if reply.works then write (Written.error r code) st else st)

  unfoldable pub after_failure : Handshake → Option ℕ → Service → Outcome
  unfolding fail_station_step
  after_failure h code st =
      awaits
        (recording (record h { status = failed; result_code = code; has_error_message = true }))
        (if reply.works
          then record st {
            database = (fail_station_step reply.now r h.carrier_number st.database).database;
          }
          else st)

  unfoldable pub after_record : Handshake → Service → Outcome
  after_record h st =
      if not reply.works
      then awaits over st
      else awaits over
          (if reply.publishes then publish r refused (save_handshake h st) else save_handshake h st)
