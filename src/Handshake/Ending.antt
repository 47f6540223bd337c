-- ===== src/Handshake/Ending.antt =====
-- A call of the handshake comes to its end (src/opcua/stmes-handshake.service.ts).
use mes_copy.Base.{ℕ, ◌+◌, ◌≤◌, ◌≡◌, ◌⊎◌, Bool, false, some, ◌==◌, get_elem?}
use mes_copy.Handshake.{Service, Task}
use mes_copy.Handshake.Calls.{Action, resumes}
use mes_copy.Handshake.Ahead.{ahead}

-- The action that has the call number `k` go on.
abbrev pub is_resumption : ℕ → Action → Bool
is_resumption k (resumes reply j) = j == k
is_resumption k _ = false

-- The call number `k` is still that of `t`, and has come on by `n` awaited calls or to its end.
record HasComeOn (k n : ℕ) (t : Task) (new : Service) : Type 0 where
  now : Task
  there : get_elem? new.tasks k ≡ some now
  resource_id : now.resource_id ≡ t.resource_id
  on : (ahead now.stage + n ≤ ahead t.stage) ⊎ (ahead now.stage ≡ 0)
