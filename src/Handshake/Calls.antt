-- ===== src/Handshake/Calls.antt =====
-- How an answer is acknowledged and a process completed, and the calls of the service side by side
-- (src/opcua/stmes-handshake.service.ts, `acknowledge`, `completeProcess` and `onModuleInit`).
use mes_copy.Base.{
  ℕ, Bool, true, false, Option, none, some, List, [], ◌∷◌, ◌++◌, ◌&&◌, if◌then◌else◌, ◌==◌, ltb,
  modify, get_elem?,
}
use mes_copy.Mes.{Profile}
use mes_copy.Mes.Completion.{complete_station_step}
use mes_copy.Handshake.{
  Service, Task, Reply, Outcome, Stage, reading, journalling, marking, deciding, responding,
  closing, reporting, failing, recording, acknowledging, looking, quitting, counting, completing,
  over, Handshake, HandshakeStatus, acknowledged, quit, process_completed, without, publish,
  save_handshake,
}
use mes_copy.Handshake.Dispatch.{
  awaits, dispatch, after_request, new_handshake, after_journal, after_mark, after_decision,
  after_response, after_close, after_report, after_failure, after_record,
}

-- The newest entry of a resource.
abbrev pub newer : Option Handshake → Handshake → Option Handshake
newer none h = some h
newer (some g) h = if ltb g.created_at h.created_at then some h else some g

abbrev pub latest : ℕ → Option Handshake → List Handshake → Option Handshake
latest r found [] = found
latest r found (h ∷ hs) =
    let on = latest r (newer found h) hs in
    let rest = latest r found hs in if h.resource_id == r then on else rest

abbrev pub is_acknowledged : HandshakeStatus → Bool
is_acknowledged acknowledged = true
is_acknowledged _ = false

module _ (profile : Profile) (reply : Reply) (r : ℕ) where
  -- The `finally` of `acknowledge`: the station may ask again, whatever has failed.
  abbrev pub unlock : Service → Outcome
  unlock st = awaits over (record st { processing = without r st.processing })

  unfoldable pub acknowledge_latest : Option Handshake → Service → Outcome
  acknowledge_latest none st = unlock st
  acknowledge_latest (some h) st =
      if is_acknowledged h.status
      then unlock st
      else awaits (quitting (record h { status = acknowledged; acknowledged_at = some reply.now }))
          st

  unfoldable pub after_search : Service → Outcome
  unfolding acknowledge_latest
  after_search st =
      if reply.works then acknowledge_latest (latest r none st.handshakes) st else unlock st

  unfoldable pub after_quit : Handshake → Service → Outcome
  after_quit h st = unlock (
      if reply.works
      then (if reply.publishes then publish r quit (save_handshake h st) else save_handshake h st)
      else st)

  unfoldable pub after_completion : ℕ → ℕ → Service → Outcome
  unfolding complete_station_step
  after_completion timestamp number st =
      let done = complete_station_step timestamp reply.id r number st.database in
      let new : Service = record st { database = done.database } in
      awaits over (
        if reply.works
        then (if done.completed && reply.publishes then publish r process_completed new else new)
        else st)

  -- A call goes on when the awaited call has come back.
  unfoldable pub advance : Stage → Service → Outcome
  unfolding after_request new_handshake after_journal after_mark after_decision after_response
      after_close after_report after_failure after_record after_search after_quit after_completion
  advance reading st = after_request profile reply r st
  advance (journalling request requested_at) st =
      after_journal profile reply r (new_handshake profile reply r request requested_at) st
  advance (marking h) st = after_mark profile reply r h st
  advance (deciding h) st = after_decision profile reply r h st
  advance (responding h outcome assignment code) st =
      after_response profile reply r h outcome assignment code st
  advance (closing h phase) st = after_close profile reply r h phase st
  advance (reporting journal code) st = after_report profile reply r journal code st
  advance (failing h code) st = after_failure profile reply r h code st
  advance (recording h) st = after_record profile reply r h st
  advance acknowledging st = if reply.works then awaits looking st else unlock st
  advance looking st = after_search st
  advance (quitting h) st = after_quit h st
  advance (counting timestamp) st =
      awaits (if reply.works then completing timestamp reply.carrier_number else over) st
  advance (completing timestamp number) st = after_completion timestamp number st
  advance over st = awaits over st

-- A new call of `acknowledge` or `completeProcess`.
abbrev pub begin : ℕ → Stage → Service → Service
begin r stage st = record st { tasks = st.tasks ++ record { resource_id = r; stage = stage } ∷ [] }

abbrev pub move : Stage → Task → Task
move stage t = record t { stage = stage }

unfoldable pub resume_task : Profile → Reply → ℕ → Option Task → Service → Service
unfolding advance
resume_task profile reply k none st = st
resume_task profile reply k (some t) st =
    let next = advance profile reply t.resource_id t.stage st in
    record next.service { tasks = modify k (move next.stage) st.tasks }

unfoldable pub resume : Profile → Reply → ℕ → Service → Service
unfolding resume_task
resume profile reply k st = resume_task profile reply k (get_elem? st.tasks k) st

-- What a station tells the service, and the call number `k` that goes on.
pub data Action : Type 0 where
  asks : ℕ → Action
  acknowledges : ℕ → Action
  completes : ℕ → ℕ → Action
  resumes : Reply → ℕ → Action

unfoldable pub act : Profile → Action → Service → Service
unfolding dispatch resume
act profile (asks r) st = dispatch r st
act profile (acknowledges r) st = begin r acknowledging st
act profile (completes r timestamp) st = begin r (counting timestamp) st
act profile (resumes reply k) st = resume profile reply k st

abbrev pub run : Profile → List Action → Service → Service
run profile [] st = st
run profile (a ∷ actions) st = run profile actions (act profile a st)
