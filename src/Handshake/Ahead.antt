-- ===== src/Handshake/Ahead.antt =====
-- How many awaited calls are ahead of a call of the handshake
-- (src/opcua/stmes-handshake.service.ts).
use mes_copy.Base.{ℕ, if◌then◌else◌, ◌+◌, ◌≤◌, ◌≡◌, ◌⊎◌, refl, Option, none, some, arith, inl, inr}
use mes_copy.Mes.{Profile}
use mes_copy.Mes.Stations.{
  Transaction, thrown, returned, Decision, internal_error, resolve_station_request, rejected,
  wrong_resource,
}
use mes_copy.Handshake.{
  Service, Reply, Stage, reading, journalling, marking, deciding, responding, closing, reporting,
  failing, recording, acknowledging, looking, quitting, counting, completing, over, Handshake, busy,
  publish, save_handshake, write, Written,
}
use mes_copy.Handshake.Dispatch.{
  fail_journal, report_error, fail_dispatch, after_request, new_handshake, after_journal,
  respond_with, respond, after_mark, decide, after_decision, after_response, after_close,
  after_report, after_failure, after_record,
}
use mes_copy.Handshake.Calls.{
  acknowledge_latest, after_search, after_quit, after_completion, advance, latest,
}

-- The awaited calls that may be ahead of a call of the service.
abbrev pub ahead : Stage → ℕ
ahead reading = 9
ahead (journalling request at) = 8
ahead (marking h) = 7
ahead (deciding h) = 6
ahead (responding h outcome assignment code) = 5
ahead (closing h phase) = 4
ahead (reporting journal code) = 3
ahead (failing h code) = 2
ahead (recording h) = 1
ahead acknowledging = 3
ahead looking = 2
ahead (quitting h) = 1
ahead (counting timestamp) = 2
ahead (completing timestamp number) = 1
ahead over = 0

module _ (profile : Profile) (reply : Reply) (r : ℕ) where
  fail_journal-ahead :
      (code : Option ℕ) (journal : Option Handshake) (st : Service)
      → ahead (fail_journal profile reply r code journal st).stage ≤ 2
  unfolding fail_journal
  fail_journal-ahead code none st = omega arith
  fail_journal-ahead code (some h) st = omega arith

  report_error-ahead :
      (code : Option ℕ) (journal : Option Handshake) (st : Service)
      → ahead (report_error profile reply r code journal st).stage ≤ 3
  unfolding report_error
  report_error-ahead none journal st = omega (arith, fail_journal-ahead none journal st)
  report_error-ahead (some code) journal st = omega arith

  fail_dispatch-ahead :
      (journal : Option Handshake) (st : Service)
      → ahead (fail_dispatch profile reply r journal st).stage ≤ 3
  unfolding fail_dispatch
  fail_dispatch-ahead journal st = report_error-ahead (reply.result_code internal_error) journal st

  respond_with-ahead :
      (h : Handshake) (d : Decision) (code : Option ℕ) (st : Service)
      → ahead (respond_with profile reply r h d code st).stage ≤ 5
  unfolding respond_with
  respond_with-ahead h d none st = omega (arith, fail_dispatch-ahead (some h) st)
  respond_with-ahead h d (some code) st = ground (arith, fail_dispatch-ahead (some h) st)

  respond-ahead :
      (h : Handshake) (d : Decision) (st : Service)
      → ahead (respond profile reply r h d st).stage ≤ 5
  unfolding respond
  respond-ahead h d st = respond_with-ahead h d (reply.result_code d.outcome) st

  decide-ahead :
      (h : Handshake) (t : Transaction Decision) (st : Service)
      → ahead (decide profile reply r h t st).stage ≤ 5
  unfolding decide
  decide-ahead h (thrown e) st = omega (arith, fail_dispatch-ahead (some h) st)
  decide-ahead h (returned db d) st = respond-ahead h d (record st { database = db })

  acknowledge_latest-ahead :
      (found : Option Handshake) (st : Service)
      → ahead (acknowledge_latest profile reply r found st).stage ≤ 1
  unfolding acknowledge_latest
  acknowledge_latest-ahead none st = omega arith
  acknowledge_latest-ahead (some h) st = ground arith

  pub advance-ahead :
      (stage : Stage) (st : Service)
      → (ahead (advance profile reply r stage st).stage + 1 ≤ ahead stage)
        ⊎ ((ahead (advance profile reply r stage st).stage ≡ 0) × (ahead stage ≡ 0))
  unfolding advance after_request after_journal after_mark after_decision after_response after_close
      after_report after_failure after_record after_search after_quit after_completion
  advance-ahead reading st = inl (ground (arith, fail_dispatch-ahead none st))
  advance-ahead (journalling request at) st =
      let h = new_handshake profile reply r request at in
      inl (
        ground
          (arith, fail_dispatch-ahead none st, fail_dispatch-ahead (some h) (save_handshake h st)))
  advance-ahead (marking h) st = inl (
      ground (
        arith,
        fail_dispatch-ahead (some h) st,
        respond-ahead h (rejected wrong_resource) (publish r busy st),
      ))
  advance-ahead (deciding h) st = inl (
      ground (
        arith,
        fail_dispatch-ahead (some h) st,
        decide-ahead h
            (resolve_station_request profile reply.now reply.id r h.carrier_number st.database) st,
      ))
  advance-ahead (responding h outcome assignment code) st =
      inl (ground (arith, fail_dispatch-ahead (some h) st))
  advance-ahead (closing h phase) st = inl (
      ground (
        arith,
        fail_dispatch-ahead (some h) st,
        fail_dispatch-ahead (some h) (save_handshake h st),
      ))
  advance-ahead (reporting journal code) st = inl (
      omega (
        arith,
        fail_journal-ahead (some code) journal
            (if reply.works then write (Written.error r code) st else st),
      ))
  advance-ahead (failing h code) st = inl (ground arith)
  advance-ahead (recording h) st = inl (ground arith)
  advance-ahead acknowledging st = inl (ground arith)
  advance-ahead looking st =
      inl (ground (arith, acknowledge_latest-ahead (latest r none st.handshakes) st))
  advance-ahead (quitting h) st = inl (ground arith)
  advance-ahead (counting timestamp) st = inl (ground arith)
  advance-ahead (completing timestamp number) st = inl (ground arith)
  advance-ahead over st = inr (refl, refl)

pub ahead-zero : (stage : Stage) → ahead stage ≡ 0 → stage ≡ over
ahead-zero over e = refl
ahead-zero reading e = ground arith
ahead-zero (journalling request at) e = ground arith
ahead-zero (marking h) e = ground arith
ahead-zero (deciding h) e = ground arith
ahead-zero (responding h outcome assignment code) e = ground arith
ahead-zero (closing h phase) e = ground arith
ahead-zero (reporting journal code) e = ground arith
ahead-zero (failing h code) e = ground arith
ahead-zero (recording h) e = ground arith
ahead-zero acknowledging e = ground arith
ahead-zero looking e = ground arith
ahead-zero (quitting h) e = ground arith
ahead-zero (counting timestamp) e = ground arith
ahead-zero (completing timestamp number) e = ground arith

pub ahead-max : (stage : Stage) → ahead stage ≤ 9
ahead-max stage = ground arith
