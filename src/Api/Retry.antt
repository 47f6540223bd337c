-- ===== src/Api/Retry.antt =====
-- When the requests of the machine servers to the MES end.
use mes_copy.Base.{
  ℕ, zero, suc, String, ◌≡◌, ◌≢◌, refl, true, Option, none, some, str_eq, is_some, inl, inr,
  Bool-cases,
}
use mes_copy.Press.Mes.{Outcome}
use mes_copy.Api.{
  Reply, ok, unauthorized, failed, Server, Client, logged_in, token_with, get_mes_api_token,
  answered, get_with, mes_get,
}

module _ {S A : Type 0} (server : Server S A) where
  -- The answer to a request with a token that was just given out.
  abbrev pub AcceptsFresh : Type 0
  AcceptsFresh =
      (s s' : S) (t : String) → server.login s ≡ (some t, s') → (server.get t s').0 ≢ unauthorized

  answered-settles :
      (reply : Reply A × S) (token : Option String)
      (again : Client S → Option (Outcome A × Client S))
      → reply.0 ≢ unauthorized
      → is_some (answered server reply token again) ≡ true
  unfolding answered
  answered-settles (ok a, s) token again ne = refl
  answered-settles (failed, s) token again ne = refl
  answered-settles (unauthorized, s) token again ne = elim (ne refl) [ ]

  login-settles :
      (login : Option String × S) (s : S) (again : Client S → Option (Outcome A × Client S))
      → AcceptsFresh
      → server.login s ≡ login
      → is_some (get_with server (logged_in server login) again) ≡ true
  unfolding get_with
  login-settles (none, s') s again fresh e = refl
  login-settles (some t, s') s again fresh e =
      answered-settles (server.get t s') (some t) again (fresh s s' t e)

  -- Without a token one round is enough.
  renewed :
      (fuel : ℕ) (s : S)
      → AcceptsFresh
      → is_some (mes_get server (suc fuel) (record { token = none; server = s })) ≡ true
  unfolding mes_get get_mes_api_token token_with
  renewed fuel s fresh = login-settles (server.login s) s (mes_get server fuel) fresh refl

  retried :
      (reply : Reply A × S) (token : Option String) (fuel : ℕ)
      → AcceptsFresh
      → is_some (answered server reply token (mes_get server (suc fuel))) ≡ true
  unfolding answered
  retried (ok a, s) token fuel fresh = refl
  retried (failed, s) token fuel fresh = refl
  retried (unauthorized, s) token fuel fresh = renewed fuel s fresh

  kept-settles :
      (token : Option String) (s : S) (fuel : ℕ)
      → AcceptsFresh
      → is_some (get_with server (token_with server token s) (mes_get server (suc fuel))) ≡ true
  unfolding get_with token_with
  kept-settles none s fuel fresh =
      login-settles (server.login s) s (mes_get server (suc fuel)) fresh refl
  kept-settles (some t) s fuel fresh = elim (Bool-cases (str_eq t "")) [
    | inl blank ↦ rw blank (login-settles (server.login s) s (mes_get server (suc fuel)) fresh refl)
    | inr kept ↦ rw kept (retried (server.get t s) (some t) fuel fresh)
  ]

  -- If the MES never refuses a token that it has just given out, a request ends after one retry at
  -- most, whatever token is kept and in whatever state the MES is.
  pub mes_get-ends :
      (c : Client S) (fuel : ℕ) → AcceptsFresh → is_some (mes_get server (suc (suc fuel)) c) ≡ true
  unfolding mes_get get_mes_api_token
  mes_get-ends c fuel fresh = kept-settles c.token c.server fuel fresh

  answered-again :
      (reply : Reply A × S) (token : Option String)
      (again : Client S → Option (Outcome A × Client S))
      → reply.0 ≡ unauthorized
      → ((c : Client S) → again c ≡ none)
      → answered server reply token again ≡ none
  unfolding answered
  answered-again (unauthorized, s) token again e h = h (record { token = none; server = s })
  answered-again (ok a, s) token again e h = cc
  answered-again (failed, s) token again e h = cc

  module _ (logins : (s : S) → (t : String) × ((server.login s).0 ≡ some t))
      (refuses : (t : String) (s : S) → (server.get t s).0 ≡ unauthorized) where
    login-again :
        (login : Option String × S) (again : Client S → Option (Outcome A × Client S))
        → ((t : String) × (login.0 ≡ some t))
        → ((c : Client S) → again c ≡ none)
        → get_with server (logged_in server login) again ≡ none
    unfolding get_with
    login-again (none, s) again (t, e) h = cc
    login-again (some t, s) again given h =
        answered-again (server.get t s) (some t) again (refuses t s) h

    kept-again :
        (token : Option String) (s : S) (again : Client S → Option (Outcome A × Client S))
        → ((c : Client S) → again c ≡ none)
        → get_with server (token_with server token s) again ≡ none
    unfolding get_with token_with
    kept-again none s again h = login-again (server.login s) again (logins s) h
    kept-again (some t) s again h = elim (Bool-cases (str_eq t "")) [
      | inl blank ↦ rw blank (login-again (server.login s) again (logins s) h)
      | inr kept ↦ rw kept (answered-again (server.get t s) (some t) again (refuses t s) h)
    ]

    -- If the MES lets the client log in and answers every request with 401, a request does not end,
    -- however often it is repeated.
    pub mes_get-loops : (fuel : ℕ) (c : Client S) → mes_get server fuel c ≡ none
    unfolding mes_get get_mes_api_token
    mes_get-loops zero c = refl
    mes_get-loops (suc fuel) c =
        kept-again c.token c.server (mes_get server fuel) (mes_get-loops fuel)
