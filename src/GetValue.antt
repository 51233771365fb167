-- ===== src/GetValue.antt =====
-- get_value.cpp: the client that logs in, gets a value from a table onto its stack, and prints it.
pub mod Session
pub mod CommandLine
pub mod OnServer
pub mod AfterSet
use computer_systems_assignm.Prelude.{
  ℕ, Bool, true, false, ◌||◌, [], ◌∷◌, ◌++◌, Option, none, some, List, ltb, if◌then◌else◌,
}
use computer_systems_assignm.Prelude.Int.{ℤ}
use computer_systems_assignm.Exceptions.{Outcome, ok, throw, blocked, undefined, ◌>>=◌, ◌>>◌}
use computer_systems_assignm.Text.{Bytes}
use computer_systems_assignm.Message.{
  MessageType, Message, empty_message, message, push_arg, get_arg, get_num_args, ◌is◌,
}
use computer_systems_assignm.Serialization.{decode}
use computer_systems_assignm.Client.{Socket, request_with, request, or_return, if_connected}

-- What handle_top_response does with the decoded response: `some data` where it prints the data and
-- returns 0, `none` where it returns -1.
unfoldable pub handle_top : Message → Outcome (Option Bytes)
handle_top top_response =
    if top_response.message_type is MessageType.data_msg
    then (if ltb (get_num_args top_response) 1
        then ok none
        else get_arg top_response 0 >>= λ value. ok (some value))
    else if top_response.message_type is MessageType.error
        || top_response.message_type is MessageType.failed
    then get_arg top_response 0 >> ok none
    else ok none

unfoldable pub handle_top_response : Bytes → Outcome (Option Bytes)
handle_top_response buf = decode buf empty_message >>= handle_top

-- std::cout << data << std::endl
unfoldable pub print_value : Outcome (Option Bytes) × Socket → Outcome Bool × Socket
print_value (ok (some value), k) = (ok true, record k { printed = k.printed ++ value ∷ [] })
print_value (ok none, k) = (ok false, k)
print_value (throw e, k) = (throw e, k)
print_value (blocked, k) = (blocked, k)
print_value (undefined, k) = (undefined, k)

unfoldable pub login_operation : Bytes → Socket → Outcome Bool × Socket
login_operation username = request (push_arg (message MessageType.login []) username)

unfoldable pub get_operation : Bytes → Bytes → Socket → Outcome Bool × Socket
get_operation table key = request (push_arg (push_arg (message MessageType.get []) table) key)

unfoldable pub top_operation : Socket → Outcome Bool × Socket
top_operation k = print_value (request_with handle_top_response none (message MessageType.top []) k)

unfoldable pub bye_operation : Socket → Outcome Bool × Socket
bye_operation = request (message MessageType.bye [])

-- main behind open_clientfd; the result is the exit status.
unfoldable pub get_value : Bytes → Bytes → Bytes → Socket → Outcome ℕ × Socket
get_value username table key k = or_return (login_operation username k) λ k.
    or_return (get_operation table key k)
      λ k. or_return (top_operation k) λ k. or_return (bye_operation k) λ k. (ok 0, k)

-- main, for the arguments, the program's name first, and the function open_clientfd; the socket is the
-- one that it opens.
unfoldable pub main : List Bytes → (Bytes → Bytes → ℤ) → Socket → Outcome ℕ × Socket
main (program ∷ hostname ∷ port ∷ username ∷ table ∷ key ∷ []) open_clientfd k =
    if_connected (open_clientfd hostname port) (get_value username table key) k
main argv open_clientfd k = (ok 1, k)
