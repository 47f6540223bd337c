-- ===== src/Handshake/Answers.antt =====
-- What one call of the handshake owes a station, and how a step of the call changes that
-- (src/opcua/stmes-handshake.service.ts).
use mes_copy.Base.{
  ℕ, ◌+◌, ◌≡◌, refl, Bool, true, false, not, ◌&&◌, Option, none, some, arith, ◌==◌, inl, inr,
  Bool-cases, ◌∙◌, is_some, if◌then◌else◌,
}
use mes_copy.Mes.{Profile}
use mes_copy.Mes.Stations.{
  Transaction, thrown, returned, Decision, internal_error, resolve_station_request, rejected,
  wrong_resource,
}
use mes_copy.Handshake.{
  Service, Reply, Outcome, Stage, reading, journalling, marking, deciding, responding, closing,
  reporting, failing, acknowledging, looking, quitting, over, Handshake, Written,
}
use mes_copy.Handshake.Dispatch.{
  fail_journal, report_error, fail_dispatch, after_request, after_journal, respond_with, respond,
  after_mark, decide, after_decision, answer, is_accepted, is_complete,
}

abbrev pub weight : Bool → ℕ
weight b = if b then 1 else 0

-- A call of `dispatch` that has not answered yet.
abbrev pub is_owing : Stage → Bool
is_owing reading = true
is_owing (journalling request at) = true
is_owing (marking h) = true
is_owing (deciding h) = true
is_owing (responding h outcome assignment code) = true
is_owing (reporting journal code) = true
is_owing _ = false

-- A call of `dispatch` that has failed and cannot report it, since an internal error has no code.
abbrev pub gives_up : Reply → Stage → Bool
gives_up reply (failing h code) = not (is_some (reply.result_code internal_error))
gives_up reply over = not (is_some (reply.result_code internal_error))
gives_up reply _ = false

-- A call of `acknowledge` before its `finally`.
abbrev pub is_locking : Stage → Bool
is_locking acknowledging = true
is_locking looking = true
is_locking (quitting h) = true
is_locking _ = false

-- The response is written, and then the journal or the event fails: an error will be reported.
abbrev pub is_late : Reply → Stage → Bool
is_late reply (closing h phase) =
    not (reply.works && reply.publishes) && is_some (reply.result_code internal_error)
is_late reply _ = false

-- A step after which a request stays without an answer: the report fails, or the call has failed
-- and an internal error has no code.
abbrev pub is_unreported : Reply → Stage → Stage → Bool
is_unreported reply (reporting journal code) next = not reply.works
is_unreported reply stage next = is_owing stage && gives_up reply next

abbrev pub is_for : ℕ → Written → Bool
is_for r (Written.response x answer) = x == r
is_for r (Written.error x code) = x == r

-- A step that writes nothing to a station, and after which the call owes an answer or has given up.
pub record IsQuiet (reply : Reply) (st : Service) (o : Outcome) : Type 0 where
  pub written : o.service.written ≡ st.written
  pub processing : o.service.processing ≡ st.processing
  pub owes : weight (is_owing o.stage) + weight (gives_up reply o.stage) ≡ 1
  pub unlocking : is_locking o.stage ≡ false

-- The state in which the call goes on may differ from the first in its other parts.
IsQuiet-from :
    (reply : Reply) (st new : Service) (o : Outcome)
    → new.written ≡ st.written
    → new.processing ≡ st.processing
    → IsQuiet reply new o
    → IsQuiet reply st o
IsQuiet-from reply st new o same kept q = record {
  written = q.written ∙ same;
  processing = q.processing ∙ kept;
  owes = q.owes;
  unlocking = q.unlocking;
}

module _ (profile : Profile) (reply : Reply) (r : ℕ) where
  pub report_error-IsQuiet :
      (code : Option ℕ) (journal : Option Handshake) (st : Service)
      → reply.result_code internal_error ≡ code
      → IsQuiet reply st (report_error profile reply r code journal st)
        × (is_owing (report_error profile reply r code journal st).stage ≡ is_some code)
  unfolding report_error fail_journal
  report_error-IsQuiet (some code) journal st e = (ground (arith, e), refl)
  report_error-IsQuiet none (some h) st e = (ground (arith, e), refl)
  report_error-IsQuiet none none st e = (ground (arith, e), refl)

  pub fail_dispatch-IsQuiet :
      (journal : Option Handshake) (st : Service)
      → IsQuiet reply st (fail_dispatch profile reply r journal st)
        × (is_owing (fail_dispatch profile reply r journal st).stage
            ≡ is_some (reply.result_code internal_error))
  unfolding fail_dispatch
  fail_dispatch-IsQuiet journal st =
      report_error-IsQuiet (reply.result_code internal_error) journal st refl

  respond_with-IsQuiet :
      (h : Handshake) (d : Decision) (code : Option ℕ) (st : Service)
      → IsQuiet reply st (respond_with profile reply r h d code st)
  unfolding respond_with
  respond_with-IsQuiet h d none st = (fail_dispatch-IsQuiet (some h) st).0
  respond_with-IsQuiet h d (some code) st =
      elim (Bool-cases (is_accepted d.outcome && not (is_complete d.assignment))) [
        | inl gap ↦ simp gap (fail_dispatch-IsQuiet (some h) st).0
        | inr whole ↦ simp whole (ground arith)
      ]

  respond-IsQuiet :
      (h : Handshake) (d : Decision) (st : Service)
      → IsQuiet reply st (respond profile reply r h d st)
  unfolding respond
  respond-IsQuiet h d st = respond_with-IsQuiet h d (reply.result_code d.outcome) st

  pub after_request-IsQuiet : (st : Service) → IsQuiet reply st (after_request profile reply r st)
  unfolding after_request
  after_request-IsQuiet st = elim (Bool-cases reply.works) [
    | inl works ↦ simp works (ground arith)
    | inr broken ↦ simp broken (fail_dispatch-IsQuiet none st).0
  ]

  pub after_journal-IsQuiet :
      (h : Handshake) (st : Service) → IsQuiet reply st (after_journal profile reply r h st)
  unfolding after_journal
  after_journal-IsQuiet h st = elim (Bool-cases reply.works) [
    | inr broken ↦ simp broken (fail_dispatch-IsQuiet none st).0
    | inl works ↦ elim (Bool-cases reply.publishes) [
      | inl told ↦ simp (works, told) (ground arith)
      | inr mute ↦
          simp (works, mute)
            (IsQuiet-from reply st _ _ refl refl (fail_dispatch-IsQuiet (some h) _).0)
    ]
  ]

  pub after_mark-IsQuiet :
      (h : Handshake) (st : Service) → IsQuiet reply st (after_mark profile reply r h st)
  unfolding after_mark
  after_mark-IsQuiet h st = elim (Bool-cases (reply.works && reply.publishes)) [
    | inr broken ↦ simp broken (fail_dispatch-IsQuiet (some h) st).0
    | inl works ↦ elim (Bool-cases (h.requested_resource_id == r)) [
      | inl here ↦ simp (works, here) (ground arith)
      | inr wrong ↦
          simp (works, wrong)
            (IsQuiet-from reply st _ _ refl refl (respond-IsQuiet h (rejected wrong_resource) _))
    ]
  ]

  decide-IsQuiet :
      (h : Handshake) (t : Transaction Decision) (st : Service)
      → IsQuiet reply st (decide profile reply r h t st)
  unfolding decide
  decide-IsQuiet h (thrown e) st = (fail_dispatch-IsQuiet (some h) st).0
  decide-IsQuiet h (returned db d) st =
      IsQuiet-from reply st _ _ refl refl (respond-IsQuiet h d (record st { database = db }))

  pub after_decision-IsQuiet :
      (h : Handshake) (st : Service) → IsQuiet reply st (after_decision profile reply r h st)
  unfolding after_decision
  after_decision-IsQuiet h st = elim (Bool-cases reply.works) [
    | inl works ↦ simp works (
        decide-IsQuiet h
          (resolve_station_request profile reply.now reply.id r h.carrier_number st.database) st)
    | inr broken ↦ simp broken (fail_dispatch-IsQuiet (some h) st).0
  ]
