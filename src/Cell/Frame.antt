-- ===== src/Cell/Frame.antt =====
-- What a client's write leaves alone at a station of the multi-station server.
use mes_copy.Base.{
  String, ◌≡◌, refl, Option, none, some, List, All, arith, inl, inr, Bool, true, false,
  Option-cases, Bool-cases,
}
use mes_copy.OpcUa.{Value, fits, Variable, set_value, lookup_node}
use mes_copy.OpcUa.Laws.{lookup_node-All, Keeps, set_value-keeps}
use mes_copy.Cell.{Station, Definition}
use mes_copy.Cell.Variables.{variables}
use mes_copy.Cell.Run.{write_to, write_station}

-- The production state: all but the job's answer fields, the recipe and the control commands.
pub record IsSameProduction (s t : Station) : Type 0 where
  pub definition : t.definition ≡ s.definition
  pub running : t.running ≡ s.running
  pub paused : t.paused ≡ s.paused
  pub fault_active : t.fault_active ≡ s.fault_active
  pub good_count : t.good_count ≡ s.good_count
  pub reject_count : t.reject_count ≡ s.reject_count
  pub cycle_number : t.cycle_number ≡ s.cycle_number
  pub request : t.job.request ≡ s.job.request
  pub carrier_number : t.job.carrier_number ≡ s.job.carrier_number
  pub process : t.process ≡ s.process
  pub current_assignment : t.current_assignment ≡ s.current_assignment
  pub clear_timers : t.clear_timers ≡ s.clear_timers

IsSameProduction-refl : (s : Station) → IsSameProduction s s
IsSameProduction-refl s = ground arith

abbrev Kept : List (Variable Station) → Type 0
Kept vars = All (Keeps IsSameProduction) vars

-- For each choice of the flags, every setter of the table keeps the production state.
table_keeps :
    (d : Definition) (m p r : Bool)
    → Kept (variables (record d { machine_control = m; pressure = p; recipe = r }))
unfolding variables
table_keeps d true true true = ground arith
table_keeps d true true false = ground arith
table_keeps d true false true = ground arith
table_keeps d true false false = ground arith
table_keeps d false true true = ground arith
table_keeps d false true false = ground arith
table_keeps d false false true = ground arith
table_keeps d false false false = ground arith

variables_keep : (d : Definition) → Kept (variables d)
variables_keep d = table_keeps d d.machine_control d.pressure d.recipe

write_to-same :
    (found : Option (Variable Station)) (v : Value) (s : Station)
    → ((var : Variable Station) → found ≡ some var → Keeps IsSameProduction var)
    → IsSameProduction s (write_to found v s)
unfolding write_to
write_to-same none v s k = IsSameProduction-refl s
write_to-same (some var) v s k = elim (Bool-cases (fits var.data_type v)) [
  | inl ok ↦ elim (Option-cases (set_value var v s)) [
    | inl refused ↦ rw (ok, refused) (IsSameProduction-refl s)
    | inr (t, set) ↦ rw (ok, set) (set_value-keeps IsSameProduction var v s t (k var refl) set)
  ]
  | inr bad ↦ rw bad (IsSameProduction-refl s)
]

-- A client's write leaves the production state of every station as it is.
pub write_station-same :
    (id : String) (v : Value) (s : Station) → IsSameProduction s (write_station id v s)
unfolding write_station
write_station-same id v s = write_to-same (lookup_node id (variables s.definition)) v s (λ var e.
    lookup_node-All (Keeps IsSameProduction) id (variables s.definition) {var = var}
      (variables_keep s.definition) e)
