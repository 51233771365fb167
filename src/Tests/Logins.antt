-- ===== src/Tests/Logins.antt =====
-- A LOGIN of a client that has logged in before.
use computer_systems_assignm.Prelude.{◌≡◌, refl, true, false, [], ◌∷◌, none}
use computer_systems_assignm.Exceptions.{ok}
use computer_systems_assignm.Text.{codes}
use computer_systems_assignm.Message.{MessageType, message, ◌is◌, enum_value}
use computer_systems_assignm.Server
use computer_systems_assignm.Connection.State.{State, new_connection}
use computer_systems_assignm.Connection.Chat.{Locals, handle_decoded}
use computer_systems_assignm.Connection.Arithmetic.{answered_ok}
use computer_systems_assignm.Connection.Login.{handle_decoded-login}

abbrev connected : State
connected = record {
  server = Server.new_server;
  tables = λ p. none;
  next = 0;
  conn = new_connection 0;
}

abbrev second_login : Locals
second_login = record {
  first_valid_message = false;
  client_msg = message MessageType.login (codes "alice" ∷ []);
}

types : (MessageType.login is MessageType.login) ≡ true
unfolding ◌is◌ enum_value
types = refl

handle_decoded-login_example :
    handle_decoded second_login connected
    ≡ (ok (record second_login { first_valid_message = false }), answered_ok connected)
handle_decoded-login_example = handle_decoded-login second_login connected types
