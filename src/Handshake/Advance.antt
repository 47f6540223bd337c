-- ===== src/Handshake/Advance.antt =====
-- A step of any call of the handshake: the end of an acknowledgement, and all steps together
-- (src/opcua/stmes-handshake.service.ts).
use mes_copy.Base.{ℕ, ◌≡◌, refl, ap, true, false, Option, none, some, inl, inr, Bool-cases}
use mes_copy.Mes.{Profile}
use mes_copy.Handshake.{
  Service, Reply, Stage, reading, journalling, marking, deciding, responding, closing, reporting,
  failing, recording, acknowledging, looking, quitting, counting, completing, over, Handshake,
  without,
}
use mes_copy.Handshake.Dispatch.{new_handshake}
use mes_copy.Handshake.Calls.{
  unlock, acknowledge_latest, after_search, after_quit, advance, latest, is_acknowledged,
}
use mes_copy.Handshake.Answers.{
  is_owing, is_locking, is_late, is_unreported, after_request-IsQuiet, after_journal-IsQuiet,
  after_mark-IsQuiet, after_decision-IsQuiet,
}
use mes_copy.Handshake.Steps.{
  IsStep, owing-IsStep, idle-IsStep, after_response-IsStep, after_close-IsStep, after_report-IsStep,
  after_failure-IsSilent, after_record-IsSilent, after_completion-IsSilent, counting-IsSilent,
}

module _ (profile : Profile) (reply : Reply) (r : ℕ) where
  -- The `finally` of `acknowledge`.
  unlock-IsStep :
      (stage : Stage) (st new : Service)
      → is_owing stage ≡ false
      → is_late reply stage ≡ false
      → is_unreported reply stage over ≡ false
      → is_locking stage ≡ true
      → new.written ≡ st.written
      → new.processing ≡ st.processing
      → IsStep reply r stage st (unlock profile reply r new)
  unlock-IsStep stage st new none_ early reported locks same kept = record {
    answers = inl (same, simp (none_, early, reported) refl);
    unlocks = inr (ap (λ xs. without r xs) kept, refl, locks);
  }

  acknowledging-IsStep :
      (st : Service) → IsStep reply r acknowledging st (advance profile reply r acknowledging st)
  unfolding advance
  acknowledging-IsStep st = elim (Bool-cases reply.works) [
    | inl works ↦ simp works (record { answers = inl (refl, refl); unlocks = inl (refl, refl) })
    | inr broken ↦ simp broken (unlock-IsStep acknowledging st st refl refl refl refl refl refl)
  ]

  acknowledge_latest-IsStep :
      (found : Option Handshake) (st : Service)
      → IsStep reply r looking st (acknowledge_latest profile reply r found st)
  unfolding acknowledge_latest
  acknowledge_latest-IsStep none st = unlock-IsStep looking st st refl refl refl refl refl refl
  acknowledge_latest-IsStep (some h) st = elim (Bool-cases (is_acknowledged h.status)) [
    | inl done ↦ simp done (unlock-IsStep looking st st refl refl refl refl refl refl)
    | inr open_ ↦ simp open_ (record { answers = inl (refl, refl); unlocks = inl (refl, refl) })
  ]

  after_search-IsStep : (st : Service) → IsStep reply r looking st (after_search profile reply r st)
  unfolding after_search
  after_search-IsStep st = elim (Bool-cases reply.works) [
    | inl works ↦ simp works (acknowledge_latest-IsStep (latest r none st.handshakes) st)
    | inr broken ↦ simp broken (unlock-IsStep looking st st refl refl refl refl refl refl)
  ]

  after_quit-IsStep :
      (h k : Handshake) (st : Service)
      → IsStep reply r (quitting k) st (after_quit profile reply r h st)
  unfolding after_quit
  after_quit-IsStep h k st = elim (Bool-cases reply.works) [
    | inr broken ↦ simp broken (unlock-IsStep (quitting k) st st refl refl refl refl refl refl)
    | inl works ↦ elim (Bool-cases reply.publishes) [
      | inl told ↦
          simp (works, told) (unlock-IsStep (quitting k) st _ refl refl refl refl refl refl)
      | inr mute ↦
          simp (works, mute) (unlock-IsStep (quitting k) st _ refl refl refl refl refl refl)
    ]
  ]

  pub advance-IsStep :
      (stage : Stage) (st : Service) → IsStep reply r stage st (advance profile reply r stage st)
  unfolding advance
  advance-IsStep reading st =
      owing-IsStep profile reply r reading st _ refl refl refl refl
        (after_request-IsQuiet profile reply r st)
  advance-IsStep (journalling request at) st =
      owing-IsStep profile reply r (journalling request at) st _ refl refl refl refl
        (after_journal-IsQuiet profile reply r (new_handshake profile reply r request at) st)
  advance-IsStep (marking h) st =
      owing-IsStep profile reply r (marking h) st _ refl refl refl refl
        (after_mark-IsQuiet profile reply r h st)
  advance-IsStep (deciding h) st =
      owing-IsStep profile reply r (deciding h) st _ refl refl refl refl
        (after_decision-IsQuiet profile reply r h st)
  advance-IsStep (responding h outcome assignment code) st =
      after_response-IsStep profile reply r h outcome assignment code st
  advance-IsStep (closing h phase) st = after_close-IsStep profile reply r h phase st
  advance-IsStep (reporting journal code) st = after_report-IsStep profile reply r journal code st
  advance-IsStep (failing h code) st =
      idle-IsStep profile reply r (failing h code) st _ refl refl refl refl
        (after_failure-IsSilent profile reply r h code st)
  advance-IsStep (recording h) st =
      idle-IsStep profile reply r (recording h) st _ refl refl refl refl
        (after_record-IsSilent profile reply r h st)
  advance-IsStep acknowledging st = acknowledging-IsStep st
  advance-IsStep looking st = after_search-IsStep st
  advance-IsStep (quitting h) st = after_quit-IsStep h h st
  advance-IsStep (counting timestamp) st =
      idle-IsStep profile reply r (counting timestamp) st _ refl refl refl refl
        (counting-IsSilent profile reply r timestamp st)
  advance-IsStep (completing timestamp number) st =
      idle-IsStep profile reply r (completing timestamp number) st _ refl refl refl refl
        (after_completion-IsSilent profile reply r timestamp number st)
  advance-IsStep over st =
      idle-IsStep profile reply r over st _ refl refl refl refl
        (record { written = refl; processing = refl; free = refl; unlocking = refl })
