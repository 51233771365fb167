-- ===== src/Connection/Chat.antt =====
-- chat_with_client, handle_login, and the thread's function client_worker.
-- rio_readlineb is the environment's: the loop is given what each of its calls returned.
use computer_systems_assignm.Prelude.{
  Bool, true, false, List, [], ◌∷◌, Option, none, some, ltb, ◌==◌, if◌then◌else◌, length,
}
use computer_systems_assignm.Exceptions.{
  Outcome, blocked, undefined, Exception, invalid_message, operation_exception,
}
use computer_systems_assignm.Text.{Bytes, codes}
use computer_systems_assignm.Message.{MessageType, Message, message, empty_message, ◌is◌}
use computer_systems_assignm.Serialization.{max_encoded_len, decode}
use computer_systems_assignm.Connection.State.{
  Exec, ◌>>=◌, ◌>>◌, lift, catch, gets, modify_conn, pure, raise,
}
use computer_systems_assignm.Connection.Calls.{send, write_ok, end_loop}
use computer_systems_assignm.Connection.Transactions.{fail_if, manage_exception}
use computer_systems_assignm.Connection.Handlers.{call_response_function}

-- What rio_readlineb returned: nothing (n <= 0), or a line of n bytes with a NUL behind it.
pub data Read : Type 0 where
  nothing : Read
  line : Bytes → Read

-- The text of the buffer up to the first NUL, as std::string takes it.
unfoldable pub c_string : Bytes → Bytes
c_string [] = []
c_string (c ∷ s) = if c == 0 then [] else c ∷ c_string s

-- The local variables of the loop.
pub record Locals : Type 0 where
  pub first_valid_message : Bool
  pub client_msg : Message

abbrev pub new_locals : Locals
new_locals = record { first_valid_message = true; client_msg = empty_message }

abbrev pub already_logged_in : Exception
already_logged_in = operation_exception (codes "You are already logged in.")

-- The test is of the pointer to first_valid_message, not of the variable: `none` is the null pointer.
-- Returns the variable's new value.
unfoldable pub handle_login : Option Bool → Exec Bool
handle_login none = raise already_logged_in
handle_login (some first_valid_message) = do write_ok; pure false

unfoldable pub recover_login : Bool → Exception → Exec Bool
recover_login first (operation_exception what) = do manage_exception what true; pure first
recover_login first e = raise e

unfoldable pub handle_decoded : Locals → Exec Locals
handle_decoded l =
    if l.client_msg.message_type is MessageType.login
    then (do
      first ←
          catch (handle_login (some l.first_valid_message)) (recover_login l.first_valid_message)
      pure (record l { first_valid_message = first }))
    else if l.first_valid_message
    then (do send (message MessageType.error (codes "Please log in first." ∷ [])); end_loop; pure l)
    else (do call_response_function l.client_msg; pure l)

-- An InvalidMessage is answered and the loop goes on; no other exception is caught.
unfoldable pub handle_text : Locals → Outcome Message → Exec Locals
handle_text l (Outcome.ok msg) = handle_decoded (record l { client_msg = msg })
handle_text l (Outcome.throw (invalid_message what)) = do manage_exception what false; pure l
handle_text l (Outcome.throw e) = raise e
handle_text l blocked = lift blocked
handle_text l undefined = lift undefined

-- One round of the loop. The line and its NUL have to fit into `buf`, of 1024 bytes: the length that
-- rio_readlineb is given is that of m_fdbuf, and what it writes past `buf` is undefined.
unfoldable pub chat_round : Read → Locals → Exec Locals
chat_round nothing l = do end_loop; pure l
chat_round (line text) l =
    if ltb (length text) max_encoded_len
    then handle_text l (decode (c_string text) l.client_msg)
    else lift undefined

unfoldable pub close_fd : Exec (Unit {0})
close_fd = modify_conn λ c. record c { closed = true }

-- With no read left the loop waits for input.
unfoldable pub chat_loop : List Read → Locals → Exec (Unit {0})
chat_loop [] l = do
  running ← gets λ s. s.conn.loop_in_progress
  if running then lift blocked else close_fd
chat_loop (r ∷ reads) l = do
  running ← gets λ s. s.conn.loop_in_progress
  if running then (chat_round r l >>= λ l'. chat_loop reads l') else close_fd

unfoldable pub chat_with_client : List Read → Exec (Unit {0})
chat_with_client reads = chat_loop reads new_locals

-- ~ClientConnection
unfoldable pub delete_connection : Exec (Unit {0})
delete_connection = do ongoing ← gets λ s. s.conn.in_transaction; fail_if ongoing

-- client_worker: the conversation, and the destructor behind it.
unfoldable pub client_worker : List Read → Exec (Unit {0})
client_worker reads = do chat_with_client reads; delete_connection
