-- ===== src/IncrValue.antt =====
-- incr_value.cpp: the client that adds one to a value of a table, in a transaction if `-t` is given.
pub mod Session
pub mod CommandLine
pub mod OnServer
pub mod InTransaction
pub mod Together
use computer_systems_assignm.Prelude.{ℕ, Bool, true, false, List, [], ◌∷◌, if◌then◌else◌}
use computer_systems_assignm.Prelude.Int.{ℤ}
use computer_systems_assignm.Exceptions.{Outcome, ok, ◌>>=◌}
use computer_systems_assignm.Text.{Bytes, codes, bytes_eq}
use computer_systems_assignm.Message.{MessageType, empty_message, message, push_arg}
use computer_systems_assignm.Serialization.{decode}
use computer_systems_assignm.Client.{
  Socket, handle_possible_ok_response, request_with, request, or_return, if_connected,
}

unfoldable pub login_operation : Bytes → Socket → Outcome Bool × Socket
login_operation username = request (push_arg (message MessageType.login []) username)

unfoldable pub begin_operation : Socket → Outcome Bool × Socket
begin_operation = request (message MessageType.begin [])

unfoldable pub get_operation : Bytes → Bytes → Socket → Outcome Bool × Socket
get_operation table key = request (push_arg (push_arg (message MessageType.get []) table) key)

unfoldable pub push_operation : Socket → Outcome Bool × Socket
push_operation = request (push_arg (message MessageType.push []) (codes "1"))

unfoldable pub add_operation : Socket → Outcome Bool × Socket
add_operation = request (message MessageType.add [])

unfoldable pub set_operation : Bytes → Bytes → Socket → Outcome Bool × Socket
set_operation table key = request (push_arg (push_arg (message MessageType.set []) table) key)

unfoldable pub commit_operation : Socket → Outcome Bool × Socket
commit_operation = request (message MessageType.commit [])

-- The response is decoded twice.
unfoldable pub handle_bye_response : Bytes → Outcome Bool
handle_bye_response buf =
    decode buf empty_message >>= λ bye_response. handle_possible_ok_response buf

unfoldable pub bye_operation : Socket → Outcome Bool × Socket
bye_operation = request_with handle_bye_response false (message MessageType.bye [])

-- if (use_transaction) { … if (result != 0) { return 1; } }
unfoldable pub if_transaction :
    Bool
    → (Socket → Outcome Bool × Socket)
    → (Socket → Outcome ℕ × Socket)
    → Socket
    → Outcome ℕ × Socket
if_transaction use_transaction operation rest k =
    if use_transaction then or_return (operation k) rest else rest k

-- main behind open_clientfd; the result is the exit status.
unfoldable pub incr_value : Bool → Bytes → Bytes → Bytes → Socket → Outcome ℕ × Socket
incr_value use_transaction username table key k = or_return (login_operation username k) (
    if_transaction use_transaction begin_operation λ k. or_return (get_operation table key k) λ k.
      or_return (push_operation k) λ k. or_return (add_operation k) λ k.
        or_return (set_operation table key k) (
          if_transaction use_transaction commit_operation
            λ k. or_return (bye_operation k) λ k. (ok 0, k)))

-- main, for the arguments, the program's name first, and the function open_clientfd; the socket is the
-- one that it opens.
unfoldable pub main : List Bytes → (Bytes → Bytes → ℤ) → Socket → Outcome ℕ × Socket
main (program ∷ hostname ∷ port ∷ username ∷ table ∷ key ∷ []) open_clientfd k =
    if_connected (open_clientfd hostname port) (incr_value false username table key) k
main (program ∷ option ∷ hostname ∷ port ∷ username ∷ table ∷ key ∷ []) open_clientfd k =
    if bytes_eq option (codes "-t")
    then if_connected (open_clientfd hostname port) (incr_value true username table key) k
    else (ok 1, k)
main argv open_clientfd k = (ok 1, k)
