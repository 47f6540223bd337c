-- ===== src/Api.antt =====
-- How the machine servers ask the MES: `getMesApiToken` and `mesGet`, which
-- test-machines/alternate-opcua-machine/server.js and server-multistation.js have alike. The MES
-- is an argument: what it answers may depend on a state of its own.
pub mod Retry
mod Tests
use mes_copy.Base.{
  ℕ, zero, suc, String, Bool, true, false, Option, none, some, str_eq, if◌then◌else◌,
}
use mes_copy.Press.Mes.{Outcome, done, thrown}

pub data Reply (A : Type 0) : Type 0 where
  ok : A → Reply A
  unauthorized : Reply A
  failed : Reply A

-- A login gives a token, or fails; a request is made with a token.
pub record Server (S A : Type 0) : Type 0 where
  pub login : S → Option String × S
  pub get : String → S → Reply A × S

-- `mesApiToken`, and the state of the MES.
pub record Client (S : Type 0) : Type 0 where
  pub token : Option String
  pub server : S

module _ {S A : Type 0} (server : Server S A) where
  abbrev pub logged_in : Option String × S → Outcome String × Client S
  logged_in (none, s) = (thrown, record { token = none; server = s })
  logged_in (some t, s) = (done t, record { token = some t; server = s })

  -- An empty token is false.
  unfoldable pub token_with : Option String → S → Outcome String × Client S
  token_with none s = logged_in (server.login s)
  token_with (some t) s =
      if str_eq t ""
      then logged_in (server.login s)
      else (done t, record { token = some t; server = s })

  unfoldable pub get_mes_api_token : Client S → Outcome String × Client S
  unfolding token_with
  get_mes_api_token c = token_with c.token c.server

  unfoldable pub answered :
      Reply A × S
      → Option String
      → (Client S → Option (Outcome A × Client S))
      → Option (Outcome A × Client S)
  answered (ok a, s) token again = some (done a, record { token = token; server = s })
  answered (unauthorized, s) token again = again (record { token = none; server = s })
  answered (failed, s) token again = some (thrown, record { token = token; server = s })

  unfoldable pub get_with :
      Outcome String × Client S
      → (Client S → Option (Outcome A × Client S))
      → Option (Outcome A × Client S)
  unfolding answered
  get_with (thrown, c) again = some (thrown, c)
  get_with (done t, c) again = answered (server.get t c.server) c.token again

  -- `mesGet`, which calls itself again; `none` without enough fuel.
  unfoldable pub mes_get : ℕ → Client S → Option (Outcome A × Client S)
  unfolding get_with get_mes_api_token
  mes_get zero c = none
  mes_get (suc fuel) c = get_with (get_mes_api_token c) (mes_get fuel)
