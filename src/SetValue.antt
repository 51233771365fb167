-- ===== src/SetValue.antt =====
-- set_value.cpp: the client that logs in, pushes a value and sets it in a table.
pub mod Session
pub mod CommandLine
pub mod OnServer
use computer_systems_assignm.Prelude.{ℕ, Bool, List, [], ◌∷◌}
use computer_systems_assignm.Prelude.Int.{ℤ}
use computer_systems_assignm.Exceptions.{Outcome, ok}
use computer_systems_assignm.Text.{Bytes}
use computer_systems_assignm.Message.{MessageType, message, push_arg}
use computer_systems_assignm.Client.{Socket, request, or_return, if_connected}

unfoldable pub login_operation : Bytes → Socket → Outcome Bool × Socket
login_operation username = request (push_arg (message MessageType.login []) username)

unfoldable pub push_operation : Bytes → Socket → Outcome Bool × Socket
push_operation value = request (push_arg (message MessageType.push []) value)

unfoldable pub set_operation : Bytes → Bytes → Socket → Outcome Bool × Socket
set_operation table key = request (push_arg (push_arg (message MessageType.set []) table) key)

unfoldable pub bye_operation : Socket → Outcome Bool × Socket
bye_operation = request (message MessageType.bye [])

-- main behind open_clientfd; the result is the exit status.
unfoldable pub set_value : Bytes → Bytes → Bytes → Bytes → Socket → Outcome ℕ × Socket
set_value username table key value k = or_return (login_operation username k) λ k.
    or_return (push_operation value k)
      λ k. or_return (set_operation table key k) λ k. or_return (bye_operation k) λ k. (ok 0, k)

-- main, for the arguments, the program's name first, and the function open_clientfd; the socket is the
-- one that it opens.
unfoldable pub main : List Bytes → (Bytes → Bytes → ℤ) → Socket → Outcome ℕ × Socket
main (program ∷ hostname ∷ port ∷ username ∷ table ∷ key ∷ value ∷ []) open_clientfd k =
    if_connected (open_clientfd hostname port) (set_value username table key value) k
main argv open_clientfd k = (ok 1, k)
