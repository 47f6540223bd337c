-- ===== src/Api/Tests.antt =====
-- An MES whose tokens expire, one that refuses all of them, and the theorems at these.
use mes_copy.Base.{
  ℕ, suc, String, ◌≡◌, ap, arith, refl, true, none, some, is_some, str_eq, if◌then◌else◌,
}
use mes_copy.Press.Mes.{done}
use mes_copy.Api.{Reply, ok, unauthorized, Server, Client, mes_get}
use mes_copy.Api.Retry.{AcceptsFresh, mes_get-ends, mes_get-loops}

-- It accepts the token "new" alone, which it gives out; its state is the number of logins.
abbrev expiring : Server ℕ String
expiring = record {
  login = λ n. (some "new", suc n);
  get = λ t n. (if str_eq t "new" then ok "carriers" else unauthorized, n);
}

abbrev stale : Client ℕ
stale = record { token = some "old"; server = 0 }

retry_test :
    mes_get expiring 2 stale ≡ some (done "carriers", record { token = some "new"; server = 1 })
unfolding mes_get
retry_test = refl

accepts_fresh : AcceptsFresh expiring
accepts_fresh s s' t e =
    let same : some "new" ≡ some t = ap (λ p. p.0) e in
    let given : "new" ≡ t = ground (arith, same) in rw (← given) (λ refused. differ refused)
  where
    carriers : Reply String
    carriers = ok "carriers"

    differ : carriers ≡ unauthorized → ⊥
    differ e = cc

mes_get-ends_example : is_some (mes_get expiring 2 stale) ≡ true
mes_get-ends_example = mes_get-ends expiring stale 0 accepts_fresh

abbrev refusing : Server ℕ String
refusing = record { login = λ n. (some "new", suc n); get = λ t n. (unauthorized, n) }

mes_get-loops_example : mes_get refusing 50 stale ≡ none
mes_get-loops_example = mes_get-loops refusing (λ _. ("new", refl)) (λ _ _. refl) 50 stale
