-- ===== src/Press/Frame.antt =====
-- What a client's write leaves alone.
use mes_copy.Base.{
  String, ◌≡◌, refl, Option, none, some, All, arith, inl, inr, Option-cases, Bool-cases,
}
use mes_copy.OpcUa.{Value, fits, Variable, set_value, lookup_node}
use mes_copy.OpcUa.Laws.{lookup_node-All, Keeps, set_value-keeps}
use mes_copy.Press.{Press}
use mes_copy.Press.Variables.{variables}
use mes_copy.Press.Run.{client_write, write_to}

-- Everything but the recipe, the control commands and the answer of the MES in the job: `busy`,
-- `accepted`, `rejected`, the order, part, operation, step and next resource, and the result code.
pub record IsSameProduction (s t : Press) : Type 0 where
  pub running : t.running ≡ s.running
  pub paused : t.paused ≡ s.paused
  pub fault_active : t.fault_active ≡ s.fault_active
  pub good_count : t.good_count ≡ s.good_count
  pub reject_count : t.reject_count ≡ s.reject_count
  pub cycle_number : t.cycle_number ≡ s.cycle_number
  pub request : t.job.request ≡ s.job.request
  pub carrier_number : t.job.carrier_number ≡ s.job.carrier_number
  pub process : t.process ≡ s.process
  pub current_assignment : t.current_assignment ≡ s.current_assignment
  pub requested_assignments : t.requested_assignments ≡ s.requested_assignments
  pub pressure : t.pressure ≡ s.pressure
  pub clear_timers : t.clear_timers ≡ s.clear_timers
  pub api_poll_running : t.api_poll_running ≡ s.api_poll_running
  pub ideal_cycle_time_ms : t.ideal_cycle_time_ms ≡ s.ideal_cycle_time_ms
  pub resource_number : t.job.resource_number ≡ s.job.resource_number
  pub response_handled : t.response_handled ≡ s.response_handled
  pub completion_pending : t.completion_pending ≡ s.completion_pending
  pub completion_timer : t.completion_timer ≡ s.completion_timer
  pub retry_timers : t.retry_timers ≡ s.retry_timers

variables_keep : All (Keeps IsSameProduction) variables
unfolding variables
variables_keep = ground arith

IsSameProduction-refl : (s : Press) → IsSameProduction s s
IsSameProduction-refl s = ground arith

write_to-same :
    (found : Option (Variable Press)) (v : Value) (s : Press)
    → ((var : Variable Press) → found ≡ some var → Keeps IsSameProduction var)
    → IsSameProduction s (write_to found v s)
unfolding write_to
write_to-same none v s k = IsSameProduction-refl s
write_to-same (some var) v s k = elim (Bool-cases (fits var.data_type v)) [
  | inl ok ↦ elim (Option-cases (set_value var v s)) [
    | inl refused ↦ rw (ok, refused) (IsSameProduction-refl s)
    | inr (t, set) ↦ rw (ok, set) (set_value-keeps IsSameProduction var v s t (k var refl) set)
  ]
  | inr bad ↦ rw bad (IsSameProduction-refl s)
]

-- A client's write, to whatever node and of whatever value, leaves the machine's state, its counters,
-- its request, its assignments and its timers as they are: it can change the recipe, the control
-- commands and the answer of the MES in the job, and nothing else.
pub client_write-same :
    (id : String) (v : Value) (s : Press) → IsSameProduction s (client_write id v s)
unfolding client_write
client_write-same id v s =
    write_to-same (lookup_node id variables) v s
      (λ var e. lookup_node-All (Keeps IsSameProduction) id variables {var = var} variables_keep e)
