-- ===== src/IncrValue/Session.antt =====
-- What incr_value has sent and read when it ends with the exit status 0.
use mathlib.Core.Path.{fun_ext}
use computer_systems_assignm.Prelude.{◌≡◌, refl, ap, ◌↔◌, Bool, true, false, List, [], ◌∷◌}
use computer_systems_assignm.Exceptions.{Outcome, ok, throw, blocked, undefined, ◌>>=◌}
use computer_systems_assignm.Text.{Bytes, codes}
use computer_systems_assignm.Message.{MessageType, Message, empty_message, message, push_arg}
use computer_systems_assignm.Serialization.{decode}
use computer_systems_assignm.Client.{
  Socket, handle_possible_ok_response, handle_response, request_with, request,
}
use computer_systems_assignm.Client.Conversation.{Conversation, run_to_end}
use computer_systems_assignm.IncrValue.{
  login_operation, begin_operation, get_operation, push_operation, add_operation, set_operation,
  commit_operation, handle_bye_response, bye_operation, if_transaction, incr_value,
}

-- The requests, by the option `-t`.
abbrev pub session : Bool → Bytes → Bytes → Bytes → List Message
session false username table key =
    message MessageType.login (username ∷ [])
    ∷ message MessageType.get (table ∷ key ∷ [])
    ∷ message MessageType.push (codes "1" ∷ [])
    ∷ message MessageType.add []
    ∷ message MessageType.set (table ∷ key ∷ [])
    ∷ message MessageType.bye []
    ∷ []
session true username table key =
    message MessageType.login (username ∷ [])
    ∷ message MessageType.begin []
    ∷ message MessageType.get (table ∷ key ∷ [])
    ∷ message MessageType.push (codes "1" ∷ [])
    ∷ message MessageType.add []
    ∷ message MessageType.set (table ∷ key ∷ [])
    ∷ message MessageType.commit []
    ∷ message MessageType.bye []
    ∷ []

-- To decode the response to BYE a second time makes no difference.
decode_twice :
    (o : Outcome Message) → (o >>= λ bye_response. o >>= handle_response) ≡ (o >>= handle_response)
decode_twice (ok r) = refl
decode_twice (throw e) = refl
decode_twice blocked = refl
decode_twice undefined = refl

bye_operation-request : (k : Socket) → bye_operation k ≡ request (message MessageType.bye []) k
unfolding bye_operation request
bye_operation-request k =
    ap (λ (h : Bytes → Outcome Bool). request_with h false (message MessageType.bye []) k)
      (fun_ext λ buf.
        unfold handle_bye_response in
        unfold handle_possible_ok_response in decode_twice (decode buf empty_message))

-- incr_value ends with the exit status 0 exactly if it sends LOGIN, GET, PUSH of 1, ADD, SET and BYE in
-- this order, with BEGIN before the GET and COMMIT after the SET if it was called with `-t`, and reads
-- after each of them a line that is decoded to OK.
pub incr_value-Session :
    (use_transaction : Bool) (username table key : Bytes) (k k' : Socket)
    → (incr_value use_transaction username table key k ≡ (ok 0, k'))
      ↔ Conversation (session use_transaction username table key) k k'
unfolding incr_value if_transaction login_operation begin_operation get_operation push_operation
    add_operation set_operation commit_operation push_arg
incr_value-Session false username table key k k' =
    rw (fun_ext bye_operation-request) (run_to_end (session false username table key) k k')
incr_value-Session true username table key k k' =
    rw (fun_ext bye_operation-request) (run_to_end (session true username table key) k k')
