-- ===== src/Connection/Serve.antt =====
-- call_response_function: what a whole request does to the locks.
use computer_systems_assignm.Prelude.{true, false, List, [], ◌∷◌}
use computer_systems_assignm.Exceptions.{
  Exception, invalid_message, comm_exception, operation_exception, failed_transaction,
  invalid_argument, out_of_range,
}
use computer_systems_assignm.Text.{Bytes}
use computer_systems_assignm.Message.{MessageType, Message, message}
use computer_systems_assignm.Message.Validity.{Fits, shape, IsAccepted}
use computer_systems_assignm.Connection.State.{State, Exec}
use computer_systems_assignm.Connection.Transactions.{on_exception}
use computer_systems_assignm.Connection.Handlers.{respond, call_response_function}
use computer_systems_assignm.Connection.Triple.{Meets, Triple, Triple-pre, Triple-catch}
use computer_systems_assignm.Connection.Owns.{Ready, Waits}
use computer_systems_assignm.Connection.Steady.{
  Steady, safe, Steady-bind, Steady-raise, Steady-end_loop,
}
use computer_systems_assignm.Connection.Operands.{
  handle_pop-Steady, handle_top-Steady, handle_bye-Steady, handle_push-Steady, handle_add-Steady,
  handle_sub-Steady, handle_mul-Steady, handle_div-Steady, handle_begin-Steady,
}
use computer_systems_assignm.Connection.Requests.{manage_exception-Steady, handle_commit-Steady}
use computer_systems_assignm.Connection.Sets.{handle_set-Waiting}
use computer_systems_assignm.Connection.Gets.{HasKey, handle_get-Waiting}
use computer_systems_assignm.Connection.Creates.{handle_create-Waiting}

-- The requests that can be undefined: an overflow, or a division by zero.
abbrev pub MayFault : MessageType → Type 0
MayFault MessageType.add = Unit
MayFault MessageType.sub = Unit
MayFault MessageType.mul = Unit
MayFault MessageType.div = Unit
MayFault _ = ⊥

-- A GET asks for a key that the table has, if the table exists.
abbrev pub KeyFound : MessageType → List Bytes → State → Type 0
KeyFound MessageType.get (name ∷ key ∷ []) s = HasKey name key s
KeyFound _ _ s = Unit

pub on_exception-Steady : {g : Type 0} (e : Exception) → Steady g (on_exception e)
unfolding on_exception
on_exception-Steady (invalid_message what) =
    Steady-bind Steady-end_loop (λ _. manage_exception-Steady what false)
on_exception-Steady (comm_exception what) = manage_exception-Steady what true
on_exception-Steady (operation_exception what) = manage_exception-Steady what true
on_exception-Steady (failed_transaction what) = manage_exception-Steady what true
on_exception-Steady invalid_argument = Steady-raise _
on_exception-Steady out_of_range = Steady-raise _

abbrev Serves : MessageType → List Bytes → Exec (Unit {0}) → Type 0
Serves t args m = Triple (λ s. Ready s × KeyFound t args s) m (safe (Unit {0}) Waits (MayFault t))

known_key :
    (t : MessageType) (args : List Bytes) (m : Exec (Unit {0}))
    → Triple Ready m (safe (Unit {0}) Waits (MayFault t))
    → Serves t args m
known_key t args m h = Triple-pre Ready (λ s r. r.0) h

respond-Serves :
    (t : MessageType) (args : List Bytes)
    → Fits (shape t) args
    → Serves t args (respond t (message t args))
unfolding respond
respond-Serves MessageType.create (name ∷ []) h =
    known_key MessageType.create (name ∷ []) _ (handle_create-Waiting MessageType.create name)
respond-Serves MessageType.create args h = absurd h
respond-Serves MessageType.set (name ∷ key ∷ []) h =
    known_key MessageType.set (name ∷ key ∷ []) _ (handle_set-Waiting MessageType.set name key)
respond-Serves MessageType.set args h = absurd h
respond-Serves MessageType.get (name ∷ key ∷ []) h = handle_get-Waiting MessageType.get name key
respond-Serves MessageType.get args h = absurd h
respond-Serves MessageType.begin args h =
    known_key MessageType.begin args _ (handle_begin-Steady Waits)
respond-Serves MessageType.commit args h =
    known_key MessageType.commit args _ (handle_commit-Steady Waits)
respond-Serves MessageType.pop args h = known_key MessageType.pop args _ (handle_pop-Steady Waits)
respond-Serves MessageType.top args h = known_key MessageType.top args _ (handle_top-Steady Waits)
respond-Serves MessageType.add args h = known_key MessageType.add args _ (handle_add-Steady Waits)
respond-Serves MessageType.sub args h = known_key MessageType.sub args _ (handle_sub-Steady Waits)
respond-Serves MessageType.mul args h = known_key MessageType.mul args _ (handle_mul-Steady Waits)
respond-Serves MessageType.div args h = known_key MessageType.div args _ (handle_div-Steady Waits)
respond-Serves MessageType.bye args h = known_key MessageType.bye args _ (handle_bye-Steady Waits)
respond-Serves MessageType.push args h =
    known_key MessageType.push args _ (handle_push-Steady _ Waits)
respond-Serves t args h = known_key t args _ (Steady-raise {g = MayFault t} _ Waits)

call_response_function-Serves :
    (m : Message) → IsAccepted m → Serves m.message_type m.args (call_response_function m)
unfolding call_response_function
call_response_function-Serves m h =
    Triple-catch (λ e. Ready) (respond-Serves m.message_type m.args h)
      (λ e. on_exception-Steady e (λ s. ⊥))

-- For a valid message, a ready client and a GET of a key that is there: the client is ready again
-- when the request returns or throws, the tables that others have locked are untouched, a request
-- that has to wait comes from a client that is in no transaction, and only arithmetic is undefined.
pub call_response_function-Meets :
    (m : Message) (s : State)
    → IsAccepted m
    → Ready s
    → KeyFound m.message_type m.args s
    → Meets (safe (Unit {0}) Waits (MayFault m.message_type)) s (call_response_function m s)
call_response_function-Meets m s h r k = (call_response_function-Serves m h).at s (r, k)
