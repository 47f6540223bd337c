-- ===== src/Handshake/Steps.antt =====
-- What one step of a call of the handshake writes, and what it unlocks
-- (src/opcua/stmes-handshake.service.ts).
use mes_copy.Base.{
  ℕ, ◌+◌, ◌≡◌, ◌⊎◌, refl, sym, ◌∙◌, true, false, ◌&&◌, Option, none, some, [], ◌∷◌, ◌++◌, arith,
  ◌==◌, inl, inr, Bool-cases, ==_iff, is_some,
}
use mes_copy.Mes.{Profile}
use mes_copy.Mes.Stations.{RoutingOutcome, internal_error, Assignment}
use mes_copy.Mes.Completion.{complete_station_step}
use mes_copy.Handshake.{
  Service, Reply, Outcome, Stage, responding, closing, reporting, counting, Handshake, Phase,
  Written, without, save_handshake, write,
}
use mes_copy.Handshake.Dispatch.{
  fail_journal, after_response, after_close, after_report, after_failure, after_record,
}
use mes_copy.Handshake.Calls.{after_completion, advance}
use mes_copy.Handshake.Answers.{
  weight, is_owing, gives_up, is_locking, is_late, is_unreported, is_for, IsQuiet,
  fail_dispatch-IsQuiet,
}

-- A step of a call for the resource `r`. It writes an answer to that resource or to none, and what
-- the call owes pays for it; and only the end of an `acknowledge` takes the resource off the set.
pub record IsStep (reply : Reply) (r : ℕ) (stage : Stage) (st : Service) (o : Outcome)
    : Type 0 where
  pub answers :
      ((o.service.written ≡ st.written)
        × (weight (is_owing o.stage) + weight (is_unreported reply stage o.stage)
            ≡ weight (is_owing stage) + weight (is_late reply stage)))
      ⊎ ((w : Written) × (o.service.written ≡ st.written ++ w ∷ [])
          × (is_for r w ≡ true)
          × (weight (is_owing o.stage) + 1 + weight (is_unreported reply stage o.stage)
              ≡ weight (is_owing stage) + weight (is_late reply stage)))
  pub unlocks :
      ((o.service.processing ≡ st.processing) × (is_locking o.stage ≡ is_locking stage))
      ⊎ ((o.service.processing ≡ without r st.processing)
          × (is_locking o.stage ≡ false)
          × (is_locking stage ≡ true))

-- A step that writes nothing to a station, and after which the call owes nothing.
pub record IsSilent (st : Service) (o : Outcome) : Type 0 where
  pub written : o.service.written ≡ st.written
  pub processing : o.service.processing ≡ st.processing
  pub free : is_owing o.stage ≡ false
  pub unlocking : is_locking o.stage ≡ false

module _ (profile : Profile) (reply : Reply) (r : ℕ) where
  self : (r == r) ≡ true
  self = ground (arith, ==_iff r r)

  -- A step of a call that owes an answer and goes on owing it, or fails.
  pub owing-IsStep :
      (stage : Stage) (st : Service) (o : Outcome)
      → is_owing stage ≡ true
      → is_locking stage ≡ false
      → is_late reply stage ≡ false
      → is_unreported reply stage o.stage ≡ gives_up reply o.stage
      → IsQuiet reply st o
      → IsStep reply r stage st o
  owing-IsStep stage st o owes free early failing_ q = record {
    answers = inl (q.written, rw (owes, early, failing_) q.owes);
    unlocks = inl (q.processing, q.unlocking ∙ sym free);
  }

  pub after_response-IsStep :
      (h : Handshake) (outcome : RoutingOutcome) (assignment : Option Assignment) (code : ℕ)
      (st : Service)
      → IsStep reply r
          (responding h outcome assignment code)
          st
          (after_response profile reply r h outcome assignment code st)
  unfolding after_response
  after_response-IsStep h outcome assignment code st = elim (Bool-cases reply.works) [
    | inl works ↦
        simp works (record { answers = inr (_, refl, self, refl); unlocks = inl (refl, refl) })
    | inr broken ↦ simp broken (
        owing-IsStep (responding h outcome assignment code) st _ refl refl refl refl
          (fail_dispatch-IsQuiet profile reply r (some h) st).0)
  ]

  -- A failure once the response is written.
  late-IsStep :
      (h : Handshake) (phase : Phase) (st : Service) (o : Outcome)
      → (reply.works && reply.publishes) ≡ false
      → IsQuiet reply st o
      → is_owing o.stage ≡ is_some (reply.result_code internal_error)
      → IsStep reply r (closing h phase) st o
  late-IsStep h phase st o fails q owes = record {
    answers = inl (q.written, rw (fails, owes) (omega arith));
    unlocks = inl (q.processing, q.unlocking);
  }

  pub after_close-IsStep :
      (h : Handshake) (phase : Phase) (st : Service)
      → IsStep reply r (closing h phase) st (after_close profile reply r h phase st)
  unfolding after_close
  after_close-IsStep h phase st =
      let failure = fail_dispatch-IsQuiet profile reply r (some h) in
      elim (Bool-cases reply.works) [
        | inr broken ↦
            simp broken (late-IsStep h phase st _ (simp broken refl) (failure st).0 (failure st).1)
        | inl works ↦ elim (Bool-cases reply.publishes) [
          | inl told ↦
              simp (works, told)
                (record {
                  answers = inl (refl, simp (works, told) refl);
                  unlocks = inl (refl, refl);
                })
          | inr mute ↦
              let late = failure (save_handshake h st) in
              simp (works, mute)
                (late-IsStep h phase st _ (simp (works, mute) refl)
                  (record {
                    written = late.0.written;
                    processing = late.0.processing;
                    owes = late.0.owes;
                    unlocking = late.0.unlocking;
                  })
                  late.1)
        ]
      ]

  fail_journal-IsSilent :
      (code : Option ℕ) (journal : Option Handshake) (st : Service)
      → IsSilent st (fail_journal profile reply r code journal st)
  unfolding fail_journal
  fail_journal-IsSilent code (some h) st = record {
    written = refl;
    processing = refl;
    free = refl;
    unlocking = refl;
  }
  fail_journal-IsSilent code none st = elim (Bool-cases reply.publishes) [
    | inl told ↦
        simp told (record { written = refl; processing = refl; free = refl; unlocking = refl })
    | inr mute ↦
        simp mute (record { written = refl; processing = refl; free = refl; unlocking = refl })
  ]

  pub after_report-IsStep :
      (journal : Option Handshake) (code : ℕ) (st : Service)
      → IsStep reply r (reporting journal code) st (after_report profile reply r journal code st)
  unfolding after_report
  after_report-IsStep journal code st =
      let kept = fail_journal-IsSilent (some code) journal in
      elim (Bool-cases reply.works) [
        | inl works ↦
            let end = kept (write (Written.error r code) st) in
            simp works (record {
              answers = inr (Written.error r code, end.written, self, simp (works, end.free) refl);
              unlocks = inl (end.processing, end.unlocking);
            })
        | inr broken ↦
            let end = kept st in
            simp broken (record {
              answers = inl (end.written, simp (broken, end.free) refl);
              unlocks = inl (end.processing, end.unlocking);
            })
      ]

  -- A step of a call that owes nothing and does not unlock.
  pub idle-IsStep :
      (stage : Stage) (st : Service) (o : Outcome)
      → is_owing stage ≡ false
      → is_locking stage ≡ false
      → is_late reply stage ≡ false
      → is_unreported reply stage o.stage ≡ false
      → IsSilent st o
      → IsStep reply r stage st o
  idle-IsStep stage st o none_ free early reported end = record {
    answers = inl (end.written, simp (none_, early, reported, end.free) refl);
    unlocks = inl (end.processing, end.unlocking ∙ sym free);
  }

  pub after_failure-IsSilent :
      (h : Handshake) (code : Option ℕ) (st : Service)
      → IsSilent st (after_failure profile reply r h code st)
  unfolding after_failure
  after_failure-IsSilent h code st = elim (Bool-cases reply.works) [
    | inl works ↦
        simp works (record { written = refl; processing = refl; free = refl; unlocking = refl })
    | inr broken ↦
        simp broken (record { written = refl; processing = refl; free = refl; unlocking = refl })
  ]

  pub after_record-IsSilent :
      (h : Handshake) (st : Service) → IsSilent st (after_record profile reply r h st)
  unfolding after_record
  after_record-IsSilent h st = elim (Bool-cases reply.works) [
    | inr broken ↦
        simp broken (record { written = refl; processing = refl; free = refl; unlocking = refl })
    | inl works ↦ elim (Bool-cases reply.publishes) [
      | inl told ↦
          simp (works, told)
            (record { written = refl; processing = refl; free = refl; unlocking = refl })
      | inr mute ↦
          simp (works, mute)
            (record { written = refl; processing = refl; free = refl; unlocking = refl })
    ]
  ]

  pub after_completion-IsSilent :
      (timestamp number : ℕ) (st : Service)
      → IsSilent st (after_completion profile reply r timestamp number st)
  unfolding after_completion
  after_completion-IsSilent timestamp number st = elim (Bool-cases reply.works) [
    | inr broken ↦
        simp broken (record { written = refl; processing = refl; free = refl; unlocking = refl })
    | inl works ↦
        elim (Bool-cases (
          (complete_station_step timestamp reply.id r number st.database).completed
          && reply.publishes)) [
            | inl told ↦
                simp (works, told)
                  (record { written = refl; processing = refl; free = refl; unlocking = refl })
            | inr mute ↦
                simp (works, mute)
                  (record { written = refl; processing = refl; free = refl; unlocking = refl })
          ]
  ]

  pub counting-IsSilent :
      (timestamp : ℕ) (st : Service) → IsSilent st (advance profile reply r (counting timestamp) st)
  unfolding advance
  counting-IsSilent timestamp st = elim (Bool-cases reply.works) [
    | inl works ↦
        simp works (record { written = refl; processing = refl; free = refl; unlocking = refl })
    | inr broken ↦
        simp broken (record { written = refl; processing = refl; free = refl; unlocking = refl })
  ]
