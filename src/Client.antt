-- ===== src/Client.antt =====
-- What set_value.cpp, get_value.cpp and incr_value.cpp share: the socket, the body of an operation, and
-- handle_possible_ok_response, of which each of the three files has a copy.
-- The socket gives what rio_readlineb reads, at most as much as fits into the buffer, and records what
-- is written to it and to std::cout; what goes to std::cerr is not recorded.
pub mod Conversation
pub mod Answers
use computer_systems_assignm.Prelude.{
  ℕ, Bool, true, false, ◌||◌, List, [], ◌∷◌, ◌++◌, if◌then◌else◌,
}
use computer_systems_assignm.Prelude.Int.{ℤ, is_negative}
use computer_systems_assignm.Exceptions.{Outcome, ok, throw, blocked, undefined, ◌>>=◌, ◌>>◌}
use computer_systems_assignm.Text.{Bytes}
use computer_systems_assignm.Message.{MessageType, Message, empty_message, message, get_arg, ◌is◌}
use computer_systems_assignm.Serialization.{encode, decode}
use computer_systems_assignm.Connection.Chat.{Read, nothing, line, c_string}

pub record Socket : Type 0 where
  pub replies : List Read
  pub sent : List Bytes
  pub printed : List Bytes

-- What handle_possible_ok_response does with the decoded response; 0 is `true` here, and -1 is `false`.
unfoldable pub handle_response : Message → Outcome Bool
handle_response response =
    if response.message_type is MessageType.ok
    then ok true
    else if response.message_type is MessageType.failed
        || response.message_type is MessageType.error
    then get_arg response 0 >> ok false
    else ok false

unfoldable pub handle_possible_ok_response : Bytes → Outcome Bool
handle_possible_ok_response buf = decode buf empty_message >>= handle_response

module _ {A : Type 0} (handle : Bytes → Outcome A) (failure : A) where
  -- The second half of an operation: rio_readlineb, and what is done with the line.
  unfoldable pub read_response : List Read → Socket → Outcome A × Socket
  read_response [] k = (blocked, k)
  read_response (nothing ∷ replies) k = (ok failure, record k { replies = replies })
  read_response (line buf ∷ replies) k = (handle (c_string buf), record k { replies = replies })

  -- rio_writen of the encoded message, and the response to it.
  unfoldable pub send_encoded : Outcome Bytes → Socket → Outcome A × Socket
  send_encoded (ok text) k = read_response k.replies (record k { sent = k.sent ++ text ∷ [] })
  send_encoded (throw e) k = (throw e, k)
  send_encoded blocked k = (blocked, k)
  send_encoded undefined k = (undefined, k)

  -- The body that the operations share, for a message and a treatment of the response.
  unfoldable pub request_with : Message → Socket → Outcome A × Socket
  request_with msg k = send_encoded (encode msg) k

-- An operation that expects OK.
unfoldable pub request : Message → Socket → Outcome Bool × Socket
request = request_with handle_possible_ok_response false

-- if (result != 0) { return 1; }
unfoldable pub or_return :
    Outcome Bool × Socket → (Socket → Outcome ℕ × Socket) → Outcome ℕ × Socket
or_return (ok true, k) rest = rest k
or_return (ok false, k) rest = (ok 1, k)
or_return (throw e, k) rest = (throw e, k)
or_return (blocked, k) rest = (blocked, k)
or_return (undefined, k) rest = (undefined, k)

-- if (fd < 0) { … return 1; }, for the result of open_clientfd.
unfoldable pub if_connected : ℤ → (Socket → Outcome ℕ × Socket) → Socket → Outcome ℕ × Socket
if_connected fd rest k = if is_negative fd then (ok 1, k) else rest k
