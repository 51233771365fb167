-- ===== src/Connection/Replies/Chat.antt =====
-- The rounds of chat_with_client: one answer for each line that was read.
use computer_systems_assignm.Prelude.{
  ◌≢◌, arith, Bool, true, false, Option, none, some, ltb, length,
}
use computer_systems_assignm.Exceptions.{
  Outcome, ok, throw, blocked, undefined, Exception, invalid_message, operation_exception,
}
use computer_systems_assignm.Text.{Bytes}
use computer_systems_assignm.Message.{MessageType, Message, ◌is◌}
use computer_systems_assignm.Serialization.{max_encoded_len}
use computer_systems_assignm.Connection.State.{State, ◌>>=◌, ◌>>◌, lift, modify_conn, pure}
use computer_systems_assignm.Connection.Calls.{end_loop}
use computer_systems_assignm.Connection.Chat.{
  line, Locals, handle_login, recover_login, handle_decoded, handle_text, chat_round,
}
use computer_systems_assignm.Connection.Replies.{
  Answered, Answers, Silent-bind, Silent-lift, Answers-map, Answers-then, Answers-catch,
  Answers-raise, Answers-if,
}
use computer_systems_assignm.Connection.Replies.Calls.{
  send-Answers, write_ok-Answers, end_loop-Silent,
}
use computer_systems_assignm.Connection.Replies.Handlers.{
  manage_exception-Answers, call_response_function-Answers,
}

handle_login-Answers : (first : Option Bool) → Answers (handle_login first)
unfolding handle_login
handle_login-Answers none = Answers-raise _
handle_login-Answers (some b) = Answers-map _ write_ok-Answers

recover_login-Answers : (first : Bool) (e : Exception) → Answers (recover_login first e)
unfolding recover_login
recover_login-Answers first (operation_exception what) =
    Answers-map _ (manage_exception-Answers what true)
recover_login-Answers first _ = Answers-raise _

end_loop-returns : (l : Locals) (s : State) (x : Exception) → ((end_loop >> pure l) s).0 ≢ throw x
unfolding end_loop modify_conn lift ◌>>=◌
end_loop-returns l s x e = ground arith

handle_decoded-Answers : (l : Locals) → Answers (handle_decoded l)
unfolding handle_decoded
handle_decoded-Answers l =
    Answers-if (l.client_msg.message_type is MessageType.login)
      (Answers-map _ (
        Answers-catch (handle_login-Answers (some l.first_valid_message))
          (recover_login-Answers l.first_valid_message)))
      (Answers-if l.first_valid_message
        (Answers-then (send-Answers _) (Silent-bind end_loop-Silent (λ _. Silent-lift _))
          (end_loop-returns l))
        (Answers-map _ (call_response_function-Answers l.client_msg)))

handle_text-Answers : (l : Locals) (o : Outcome Message) → Answers (handle_text l o)
unfolding handle_text lift
handle_text-Answers l (ok msg) = handle_decoded-Answers _
handle_text-Answers l (throw (invalid_message what)) =
    Answers-map _ (manage_exception-Answers what false)
handle_text-Answers l (throw e) = Answers-raise e
handle_text-Answers l blocked = record { at = λ s. tt }
handle_text-Answers l undefined = record { at = λ s. tt }

round-Answers : (text : Bytes) (l : Locals) → Answers (chat_round (line text) l)
unfolding chat_round lift
round-Answers text l =
    Answers-if (ltb (length text) max_encoded_len) (handle_text-Answers l _)
      (record { at = λ s. tt })

-- A round of chat_with_client on any line, valid or not: if it returns, exactly one line has been written to the
-- client, which ends with a newline and has at most 1024 bytes with it; if it throws, nothing has been written.
pub chat_round-Answered :
    (text : Bytes) (l : Locals) (s : State) → Answered s (chat_round (line text) l s)
chat_round-Answered text l s = (round-Answers text l).at s
