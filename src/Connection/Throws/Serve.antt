-- ===== src/Connection/Throws/Serve.antt =====
-- The dispatch: the only exception that leaves call_response_function is std::out_of_range.
use computer_systems_assignm.Prelude.{List, [], ◌∷◌, arith}
use computer_systems_assignm.Text.{Bytes}
use computer_systems_assignm.Message.{MessageType, Message, message}
use computer_systems_assignm.Message.Validity.{Fits, shape, IsAccepted}
use computer_systems_assignm.Connection.Handlers.{respond, call_response_function}
use computer_systems_assignm.Connection.Serve.{MayFault}
use computer_systems_assignm.Connection.Throws.{IsThrown, IsOutOfRange, Throws, Throws-catch}
use computer_systems_assignm.Connection.Throws.Handlers.{
  short-Throws, handle_create-Throws, handle_pop-Throws, handle_top-Throws, handle_bye-Throws,
  handle_push-Throws, handle_set-Throws, handle_get-Throws,
}
use computer_systems_assignm.Connection.Throws.Arithmetic.{
  handle_add-Throws, handle_sub-Throws, handle_mul-Throws, handle_div-Throws,
}
use computer_systems_assignm.Connection.Throws.Transactions.{
  handle_begin-Throws, handle_commit-Throws, on_exception-Throws,
}

respond-Throws :
    (t : MessageType) (args : List Bytes)
    → Fits (shape t) args
    → Throws (IsThrown ⊥ (MayFault t)) (respond t (message t args))
unfolding respond
respond-Throws MessageType.create (name ∷ []) h = handle_create-Throws MessageType.create name
respond-Throws MessageType.create args h = absurd h
respond-Throws MessageType.set (name ∷ key ∷ []) h = handle_set-Throws MessageType.set name key
respond-Throws MessageType.set args h = absurd h
respond-Throws MessageType.get (name ∷ key ∷ []) h = handle_get-Throws MessageType.get name key
respond-Throws MessageType.get args h = absurd h
respond-Throws MessageType.push (value ∷ []) h = handle_push-Throws MessageType.push value
respond-Throws MessageType.push args h = absurd h
respond-Throws MessageType.begin args h = handle_begin-Throws
respond-Throws MessageType.commit args h = handle_commit-Throws
respond-Throws MessageType.pop args h = handle_pop-Throws
respond-Throws MessageType.top args h = handle_top-Throws
respond-Throws MessageType.add args h = handle_add-Throws
respond-Throws MessageType.sub args h = handle_sub-Throws
respond-Throws MessageType.mul args h = handle_mul-Throws
respond-Throws MessageType.div args h = handle_div-Throws
respond-Throws MessageType.bye args h = handle_bye-Throws
respond-Throws t args h = short-Throws _ (omega arith)

pub call_response_function-Throws :
    (m : Message)
    → IsAccepted m
    → Throws (IsOutOfRange (MayFault m.message_type)) (call_response_function m)
unfolding call_response_function
call_response_function-Throws m h =
    Throws-catch (IsThrown ⊥ (MayFault m.message_type)) (respond-Throws m.message_type m.args h)
      on_exception-Throws
