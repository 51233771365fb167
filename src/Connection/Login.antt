-- ===== src/Connection/Login.antt =====
-- The branch of chat_with_client on LOGIN.
use computer_systems_assignm.Prelude.{◌≡◌, refl, true, false}
use computer_systems_assignm.Exceptions.{ok}
use computer_systems_assignm.Message.{MessageType, ◌is◌}
use computer_systems_assignm.Connection.State.{State, ◌>>=◌, lift, catch}
use computer_systems_assignm.Connection.Chat.{Locals, handle_login, handle_decoded}
use computer_systems_assignm.Connection.Arithmetic.{answered_ok, write_ok-answered}

-- LOGIN is answered with OK whether or not the client has logged in before, and afterwards the client
-- counts as logged in.
pub handle_decoded-login :
    (l : Locals) (s : State)
    → (l.client_msg.message_type is MessageType.login) ≡ true
    → handle_decoded l s ≡ (ok (record l { first_valid_message = false }), answered_ok s)
unfolding handle_decoded handle_login ◌>>=◌ lift catch
handle_decoded-login l s h = rw (h, write_ok-answered s) refl
