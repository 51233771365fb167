-- ===== src/SetValue/Session.antt =====
-- What set_value has sent and read when it ends with the exit status 0.
use computer_systems_assignm.Prelude.{◌≡◌, ◌↔◌, List, [], ◌∷◌}
use computer_systems_assignm.Exceptions.{ok}
use computer_systems_assignm.Text.{Bytes}
use computer_systems_assignm.Message.{MessageType, Message, message, push_arg}
use computer_systems_assignm.Client.{Socket}
use computer_systems_assignm.Client.Conversation.{Conversation, run_to_end}
use computer_systems_assignm.SetValue.{
  login_operation, push_operation, set_operation, bye_operation, set_value,
}

abbrev pub session : Bytes → Bytes → Bytes → Bytes → List Message
session username table key value =
    message MessageType.login (username ∷ [])
    ∷ message MessageType.push (value ∷ [])
    ∷ message MessageType.set (table ∷ key ∷ [])
    ∷ message MessageType.bye []
    ∷ []

-- set_value ends with the exit status 0 exactly if it sends LOGIN, PUSH, SET and BYE in this order, with
-- the arguments of its command line, and reads after each of them a line that is decoded to OK.
pub set_value-Session :
    (username table key value : Bytes) (k k' : Socket)
    → (set_value username table key value k ≡ (ok 0, k'))
      ↔ Conversation (session username table key value) k k'
unfolding set_value login_operation push_operation set_operation bye_operation push_arg
set_value-Session username table key value k k' = run_to_end (session username table key value) k k'
