-- ===== src/Press/Requests.antt =====
-- The single-station server asks the MES for each assignment once, and never again.
use mes_copy.Base.{
  ℕ, zero, suc, String, ◌≡◌, ◌≢◌, ◌⊎◌, refl, true, false, Option, none, some, List, arith, inl, inr,
  includes, IsDistinct, IsFresh-of_includes,
}
use mes_copy.Press.{Settings, Press, Assignment, initial}
use mes_copy.Press.Cycle.{
  finish_cycle, take_reset, take_stop, take_pause, take_start, take_response, telemetry_tick,
}
use mes_copy.Press.Mes.{
  Answers, Carrier, Outcome, done, thrown, begin_poll, end_poll, end_with, search_carriers,
  find_next_assignment, candidates,
}
use mes_copy.Press.Run.{Event, run_from, run, clear_with}
use mes_copy.Press.Search.{search_explained}
use mes_copy.Press.Induction.{IsKept, run_from-kept, run-kept}

found_fresh :
    (ans : Answers) (seen : List String) (cs : Option (List Carrier)) (a : Assignment)
    → search_carriers ans seen cs ≡ done (some a)
    → includes a.signature seen ≡ false
unfolding search_carriers
found_fresh ans seen none a e = cc
found_fresh ans seen (some cs) a e =
    let (x, route, first, _, _, same) = rw e at (search_explained ans seen (candidates cs)) in
    rw same first.fresh

abbrev IsRequestedOnce : Press → Type 0
IsRequestedOnce s = IsDistinct s.requested_assignments

end_with-once :
    (found : Outcome (Option Assignment)) (s : Press)
    → ((a : Assignment)
        → found ≡ done (some a)
        → includes a.signature s.requested_assignments ≡ false)
    → IsRequestedOnce s
    → IsRequestedOnce (end_with found s)
unfolding end_with
end_with-once thrown s fresh ok = ok
end_with-once (done none) s fresh ok = ok
end_with-once (done (some a)) s fresh ok =
    (IsFresh-of_includes a.signature s.requested_assignments (fresh a refl), ok)

-- The operations that find no assignment leave the requests as they are, and keep the current
-- assignment or drop it.
record Settles (s t : Press) : Type 0 where
  requests : t.requested_assignments ≡ s.requested_assignments
  current : (t.current_assignment ≡ s.current_assignment) ⊎ (t.current_assignment ≡ none)

module _ (c : Settings) (s : Press) where
  finish_cycle-Settles : Settles s (finish_cycle c s)
  unfolding finish_cycle
  finish_cycle-Settles = ground arith

  take_reset-Settles : Settles s (take_reset s)
  unfolding take_reset
  take_reset-Settles = ground arith

  take_stop-Settles : Settles s (take_stop s)
  unfolding take_stop
  take_stop-Settles = ground arith

  take_pause-Settles : Settles s (take_pause s)
  unfolding take_pause
  take_pause-Settles = ground arith

  take_start-Settles : Settles s (take_start s)
  unfolding take_start
  take_start-Settles = ground arith

  take_response-Settles : Settles s (take_response c s)
  unfolding take_response
  take_response-Settles = ground arith

  begin_poll-Settles : Settles s (begin_poll s)
  unfolding begin_poll
  begin_poll-Settles = ground arith

  telemetry_tick-Settles : (now : ℕ) → Settles s (telemetry_tick c now s)
  unfolding telemetry_tick
  telemetry_tick-Settles now = ground arith

clear_with-Settles : (n : ℕ) (s : Press) → Settles s (clear_with n s)
unfolding clear_with
clear_with-Settles zero s = ground arith
clear_with-Settles (suc n) s = ground arith

-- What such operations keep, and the end of a poll, is kept by all.
module _ (c : Settings) (P : Press → Type 0)
    (settled : (s t : Press) → Settles s t → P s → P t) where
  settles_kept : ((ans : Answers) (s : Press) → P s → P (end_poll ans s)) → IsKept c P
  settles_kept polled = record {
    finish = λ s. settled s _ (finish_cycle-Settles c s);
    reset = λ s. settled s _ (take_reset-Settles c s);
    stop = λ s. settled s _ (take_stop-Settles c s);
    pause = λ s. settled s _ (take_pause-Settles c s);
    start = λ s. settled s _ (take_start-Settles c s);
    response = λ s. settled s _ (take_response-Settles c s);
    telemetry = λ now s. settled s _ (telemetry_tick-Settles c s now);
    begin = λ s. settled s _ (begin_poll-Settles c s);
    answered = λ ans s on. polled ans s;
    written = λ s t same. settled s t (ground arith);
    completion_off = λ s. settled s _ (ground arith);
    retry_off = λ n s. settled s _ (ground arith);
    cleared = λ n s. settled s _ (clear_with-Settles n s);
  }

end_poll-once : (ans : Answers) (s : Press) → IsRequestedOnce s → IsRequestedOnce (end_poll ans s)
unfolding end_poll find_next_assignment
end_poll-once ans s ok =
    end_with-once _ s (λ a e. found_fresh ans s.requested_assignments ans.carriers a e) ok

-- After any events in any order, from the start, no assignment has been requested twice.
pub run-IsDistinct : (c : Settings) (es : List Event) → IsDistinct (run c es).requested_assignments
run-IsDistinct c es =
    run-kept c IsRequestedOnce
      (settles_kept c IsRequestedOnce (λ s t same ok. rw same.requests ok) end_poll-once) es
      (unfold initial in tt)

abbrev Differs : String → Option Assignment → Type 0
Differs g none = Unit
Differs g (some a) = a.signature ≢ g

-- A taken signature that the current assignment does not have.
abbrev pub IsSpent : String → Press → Type 0
IsSpent g s = (includes g s.requested_assignments ≡ true) × Differs g s.current_assignment

Settles-IsSpent : (g : String) (s t : Press) → Settles s t → IsSpent g s → IsSpent g t
Settles-IsSpent g s t same (taken, other) = elim same.current [
  | inl kept ↦ (rw same.requests taken, rw kept other)
  | inr dropped ↦ (rw same.requests taken, rw dropped tt)
]

end_with-IsSpent :
    (g : String) (found : Outcome (Option Assignment)) (s : Press)
    → ((a : Assignment)
        → found ≡ done (some a)
        → includes a.signature s.requested_assignments ≡ false)
    → IsSpent g s
    → IsSpent g (end_with found s)
unfolding end_with
end_with-IsSpent g thrown s fresh ok = ok
end_with-IsSpent g (done none) s fresh ok = ok
end_with-IsSpent g (done (some a)) s fresh (taken, other) =
    let new : includes a.signature s.requested_assignments ≡ false = fresh a refl in
    (ground arith, λ e. cc (taken, rw e at new))

end_poll-IsSpent :
    (g : String) (ans : Answers) (s : Press) → IsSpent g s → IsSpent g (end_poll ans s)
unfolding end_poll find_next_assignment
end_poll-IsSpent g ans s ok =
    end_with-IsSpent g _ s (λ a e. found_fresh ans s.requested_assignments ans.carriers a e) ok

-- An assignment that was requested, and is not the current one, is never taken up again, whatever
-- the events: neither the machine's reset nor the MES's rejection makes it requestable.
pub run_from-IsSpent :
    (c : Settings) (g : String) (s : Press) (es : List Event)
    → IsSpent g s
    → IsSpent g (run_from c s es)
run_from-IsSpent c g s es ok =
    run_from-kept c (IsSpent g)
      (settles_kept c (IsSpent g) (Settles-IsSpent g) (end_poll-IsSpent g)) s es ok
