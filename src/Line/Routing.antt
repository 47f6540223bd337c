-- ===== src/Line/Routing.antt =====
-- How an answer of the MES takes a carrier of the production line through its cycle to the next
-- station, and what a refresh of the plans does to that.
use mes_copy.Base.{
  ℕ, ◌+◌, ◌≡◌, refl, ap, ◌∙◌, inl, inr, Bool-cases, none, Bool, true, false, some, [], ◌∷◌, ◌==◌,
  find, is_some, modify, get_elem?,
}
use mes_copy.Base.Int.{ℤ}
use mes_copy.Line.{
  Settings, Station, Carrier, Line, queue_check, request, completion, pulse_end, in_transit, Known,
  PhysicalState,
}
use mes_copy.Line.Inventory.{Overrides, observe_carrier, has_carrier}
use mes_copy.Line.Handling.{finish, see_response, forget_rejects}
use mes_copy.Line.Queue.{station_of, at_station_of, set_timer, carrier_at}
use mes_copy.Line.Plc.{
  send_on, complete_cycle, complete_with, complete_at, complete_station_cycle, take_reset,
  take_stop, take_pause, take_start, route_carrier, take_response, part_at, simulate_plc, at_exit,
  fails,
}
use mes_copy.Line.Plans.{
  schedule_at, schedule_new_carrier, schedule_all, refresh_carriers, without_id, is_known,
  deactivate,
}
use mes_copy.Line.Fetch.{fetch_carriers_from_mes, Answers}
use mes_copy.Line.Run.{Moment, plc, timer, refresh, fire, fire_at, step, run_from}
use mes_copy.Line.Lookup.{station_of-at_station_of, carrier_at-modify, get-modify, is_some-at}

finish-config : (now : ℕ) (failed : Bool) (s : Station) → (finish now failed s).config ≡ s.config
unfolding finish
finish-config now failed s = refl

-- The line after a cycle that did not fail: the carrier is in transit to a station.
abbrev pub sent : Settings → ℕ → ℕ → ℕ → Carrier → Line → Line
sent c now r ref carrier line =
    let finished = set_timer (pulse_end r) (at_station_of r (finish now false) line) in
    set_timer (queue_check r) (
      set_timer (request carrier.route_resource_id ref)
        (observe_carrier c now carrier.carrier_id in_transit (at_exit r) finished))

-- What has become of a carrier at the station `s` and of the station.
pub record IsSentOn (r ref now : ℕ) (s : Station) (carrier : Carrier) (line new : Line)
    : Type 0 where
  pub left : Station
  pub station : station_of r new.stations ≡ some left
  pub produced : left.produced_count ≡ s.produced_count + 1
  pub failed : left.failed_count ≡ s.failed_count
  pub shown : left.process_data.x_completed ≡ true
  pub shown_carrier : left.process_data.carrier_id ≡ s.query.carrier_id
  pub shown_at : left.process_data.time_stamp ≡ now
  pub freed : left.current_carrier ≡ none
  pub start : left.query.x_start ≡ false
  pub busy : left.state.x_busy ≡ false
  pub timers :
      new.timers ≡ queue_check r ∷ request s.query.next_resource_id ref ∷ pulse_end r ∷ line.timers
  pub object :
      get_elem? new.carriers ref
      ≡ some (record carrier { route_resource_id = s.query.next_resource_id })

observe_carrier-kept :
    (c : Settings) (now : ℕ) (id : ℤ) (state : PhysicalState) (o : Overrides) (line : Line)
    → ((observe_carrier c now id state o line).stations ≡ line.stations)
      × ((observe_carrier c now id state o line).timers ≡ line.timers)
      × ((observe_carrier c now id state o line).carriers ≡ line.carriers)
unfolding observe_carrier
observe_carrier-kept c now id state o line =
    elim (Bool-cases (is_some (find (has_carrier id) line.slots))) [
      | inl on ↦ rw on (refl, refl, refl)
      | inr off ↦ rw off (refl, refl, refl)
    ]

sent_kept :
    (c : Settings) (now r ref : ℕ) (carrier : Carrier) (line : Line)
    → ((sent c now r ref carrier line).stations
        ≡ (at_station_of r (finish now false) line).stations)
      × ((sent c now r ref carrier line).timers
          ≡ queue_check r ∷ request carrier.route_resource_id ref ∷ pulse_end r ∷ line.timers)
      × ((sent c now r ref carrier line).carriers ≡ line.carriers)
unfolding set_timer at_station_of
sent_kept c now r ref carrier line =
    let kept =
      observe_carrier-kept c now carrier.carrier_id in_transit (at_exit r)
        (set_timer (pulse_end r) (at_station_of r (finish now false) line)) in
    (kept.0, ap (λ ts. queue_check r ∷ request carrier.route_resource_id ref ∷ ts) kept.1, kept.2)

-- The end of a cycle that does not fail sends the carrier to the station on its route as that is
-- then.
completion_sends :
    (c : Settings) (now random r ref : ℕ) (s : Station) (carrier : Carrier) (line : Line)
    → station_of r line.stations ≡ some s
    → s.current_carrier ≡ some ref
    → s.state.x_auto ≡ true
    → s.state.x_err_l0 ≡ false
    → fails random s ≡ false
    → carrier_at ref line ≡ carrier
    → (carrier.route_resource_id == 0) ≡ false
    → is_some (station_of carrier.route_resource_id line.stations) ≡ true
    → complete_station_cycle c now random r line ≡ sent c now r ref carrier line
unfolding complete_station_cycle complete_at complete_with complete_cycle send_on set_timer
    at_station_of
completion_sends c now random r ref s carrier line known current auto error good at away there =
    simp
      (
        known,
        current,
        auto,
        error,
        good,
        at,
        away,
        is_some-at r carrier.route_resource_id (finish now false) line.stations
            (finish-config now false),
        there,
      )
      refl

-- A refresh with one plan for a known carrier.
refresh_known :
    (c : Settings) (now : ℕ) (plan : Carrier) (k : Known) (line : Line)
    → find (is_known plan.carrier_id) line.known ≡ some k
    → refresh_carriers c now (plan ∷ []) line ≡ record line {
      carriers = modify k.plan (λ _. plan) line.carriers;
      deactivated = without_id plan.carrier_id (deactivate (plan ∷ []) line.known line.deactivated);
    }
unfolding refresh_carriers schedule_all schedule_new_carrier schedule_at
refresh_known c now plan k line e = simp e refl

accept-config : (s : Station) → (forget_rejects (see_response s)).config ≡ s.config
unfolding forget_rejects see_response
accept-config s = refl

-- A station that has the MES's consent for its carrier, and no command.
pub record IsAccepted (s : Station) (ref : ℕ) : Type 0 where
  pub current : s.current_carrier ≡ some ref
  pub asks : s.query.x_start ≡ true
  pub done : s.query.x_done ≡ true
  pub unseen : s.response_seen ≡ false
  pub reset : s.control.x_cmd_reset ≡ false
  pub stop : s.control.x_cmd_stop ≡ false
  pub pause : s.control.x_cmd_pause ≡ false
  pub start : s.control.x_cmd_start ≡ false
  pub auto : s.state.x_auto ≡ true
  pub error : s.state.x_err_l0 ≡ false

-- The carrier with the answer of the MES on it.
abbrev pub routed : Station → Carrier → Carrier
routed s carrier = record carrier { route_resource_id = s.query.next_resource_id }

-- The line while the station works on the carrier.
abbrev pub working : ℕ → ℕ → Station → Line → Line
working r ref s line =
    let seen = at_station_of r (λ t. forget_rejects (see_response t)) line in
    record seen {
      carriers =
          modify ref (λ x. record x { route_resource_id = s.query.next_resource_id }) line.carriers;
    }

module _ (r ref : ℕ) (s : Station) (carrier : Carrier) (line : Line)
    (known : station_of r line.stations ≡ some s) (ok : IsAccepted s ref)
    (object : get_elem? line.carriers ref ≡ some carrier) where
  answer_interval : simulate_plc r line ≡ set_timer (completion r) (working r ref s line)
  unfolding simulate_plc part_at take_reset take_stop take_pause take_start take_response
      route_carrier set_timer at_station_of
  answer_interval =
      simp (known, ok.current, ok.asks, ok.done, ok.unseen, ok.reset, ok.stop, ok.pause, ok.start)
        refl

  accepted :
      station_of r (at_station_of r (λ t. forget_rejects (see_response t)) line).stations
      ≡ some (forget_rejects (see_response s))
  accepted =
      station_of-at_station_of r (λ t. forget_rejects (see_response t)) s line accept-config known

  still_there :
      (q : ℕ)
      → is_some (station_of q line.stations) ≡ true
      → is_some
          (station_of q (at_station_of r (λ t. forget_rejects (see_response t)) line).stations)
        ≡ true
  unfolding at_station_of
  still_there q there =
      simp
        (is_some-at r q (λ t. forget_rejects (see_response t)) line.stations accept-config, there)
        refl

  accepted_sent :
      (c : Settings) (tick fired : Moment)
      → fails fired.random s ≡ false
      → (s.query.next_resource_id == 0) ≡ false
      → is_some (station_of s.query.next_resource_id line.stations) ≡ true
      → run_from c line (
          record { moment = tick; event = plc r } ∷ record { moment = fired; event = timer 0 } ∷ [])
        ≡ sent c fired.now r ref (routed s carrier) (working r ref s line)
  unfolding run_from step fire_at fire set_timer see_response forget_rejects
  accepted_sent c tick fired good away there = rw answer_interval (
      completion_sends c fired.now fired.random r ref _ (routed s carrier) (working r ref s line)
        accepted ok.current ok.auto ok.error good (carrier_at-modify ref _ carrier _ object) away
        (still_there s.query.next_resource_id there))

  -- When the MES has accepted the request of a station that is in automatic mode, has no error and
  -- no command, its interval starts the cycle; and when the cycle's timer runs out and the part
  -- does not fail, the carrier is sent on to the resource that the MES has named, if that is a
  -- station of the line: a timer is set that has the carrier ask at that resource, and the carrier
  -- object has it as its route. The station has counted the part, shows the completion of its
  -- carrier, is free and will look into its queue.
  pub accepted_travels :
      (c : Settings) (tick fired : Moment)
      → fails fired.random s ≡ false
      → (s.query.next_resource_id == 0) ≡ false
      → is_some (station_of s.query.next_resource_id line.stations) ≡ true
      → IsSentOn r ref fired.now s carrier line (
          run_from c line (
            record { moment = tick; event = plc r }
            ∷ record { moment = fired; event = timer 0 }
            ∷ []))
  unfolding finish see_response forget_rejects at_station_of
  accepted_travels c tick fired good away there =
      let now = fired.now in
      let begun = working r ref s line in
      let kept = sent_kept c now r ref (routed s carrier) begun in
      rw (accepted_sent c tick fired good away there) (record {
        left = finish now false (forget_rejects (see_response s));
        station =
            ap (λ ss. station_of r ss) kept.0
            ∙ station_of-at_station_of r (finish now false) _ begun (finish-config now false)
                accepted;
        produced = refl;
        failed = refl;
        shown = refl;
        shown_carrier = refl;
        shown_at = refl;
        freed = refl;
        start = refl;
        busy = refl;
        timers = kept.1;
        object = ap (λ cs. get_elem? cs ref) kept.2 ∙ get-modify ref _ carrier line.carriers object;
      })

  -- When a station in automatic mode without an error or a command has the MES's consent, its
  -- interval starts the cycle, and the part does not fail, but the plans are refreshed while the
  -- cycle runs, and the MES has a plan for the carrier, whose object is the one known for its id:
  -- then the carrier is sent on to the resource of the plan, if that is a station of the line,
  -- whatever resource the answer has named.
  pub refresh_reroutes :
      (c : Settings) (tick refreshed fired : Moment) (answers : Answers) (plan : Carrier)
      (k : Known)
      → fetch_carriers_from_mes c answers ≡ plan ∷ []
      → find (is_known plan.carrier_id) line.known ≡ some k
      → k.plan ≡ ref
      → fails fired.random s ≡ false
      → (plan.route_resource_id == 0) ≡ false
      → is_some (station_of plan.route_resource_id line.stations) ≡ true
      → run_from c line (
          record { moment = tick; event = plc r }
          ∷ record { moment = refreshed; event = refresh answers }
          ∷ record { moment = fired; event = timer 0 }
          ∷ [])
        ≡ sent c fired.now r ref plan
            (refresh_carriers c refreshed.now (plan ∷ []) (working r ref s line))
  unfolding run_from step fire_at fire set_timer see_response forget_rejects at_station_of
  refresh_reroutes c tick refreshed fired answers plan k plans is_plan same good away there =
      simp
        (
          answer_interval,
          plans,
          refresh_known c refreshed.now plan k (set_timer (completion r) (working r ref s line))
              is_plan,
          refresh_known c refreshed.now plan k (working r ref s line) is_plan,
          same,
        )
        (completion_sends c fired.now fired.random r ref _ plan _ accepted ok.current ok.auto
          ok.error good
          (carrier_at-modify ref (λ _. plan) (routed s carrier) _
            (get-modify ref _ carrier line.carriers object))
          away (still_there plan.route_resource_id there))
