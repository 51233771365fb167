-- ===== src/Connection/Sizes/Chat.antt =====
-- The rounds of chat_with_client, on any line, keep the values short.
use computer_systems_assignm.Prelude.{
  ℕ, ◌+◌, ◌≤◌, ◌≡◌, refl, Bool, Bool-cases, inl, inr, true, false, All, List, [], ◌∷◌, Option, none,
  some, arith, length, ltb, if◌then◌else◌, ◌==◌,
}
use computer_systems_assignm.Exceptions.{
  Outcome, ok, throw, blocked, undefined, Exception, invalid_message, comm_exception,
  operation_exception, failed_transaction, invalid_argument, out_of_range,
}
use computer_systems_assignm.Text.{Bytes}
use computer_systems_assignm.Message.{MessageType, Message, ◌is◌}
use computer_systems_assignm.Serialization.{max_encoded_len, decode}
use computer_systems_assignm.Serialization.Sizes.{IsSized, decode-IsSized}
use computer_systems_assignm.Connection.State.{Exec}
use computer_systems_assignm.Connection.Transactions.{fail_if}
use computer_systems_assignm.Connection.Chat.{
  Read, nothing, line, c_string, Locals, handle_login, recover_login, handle_decoded, handle_text,
  chat_round, close_fd, delete_connection,
}
use computer_systems_assignm.Connection.Sizes.{
  IsShortValue, Yields, Any, Yields-then, Yields-raise, Yields-done, Yields-if, Yields-catch,
  Yields-Any,
}
use computer_systems_assignm.Connection.Sizes.Calls.{
  size_rules, Yields-modify_conn, end_loop-Yields, write_ok-Yields, send-Yields,
}
use computer_systems_assignm.Connection.Sizes.Serve.{
  call_response_function-Yields, manage_exception-Yields, fail_transaction-Yields,
}

login-Yields : (first : Option Bool) → Yields Any (handle_login first)
unfolding handle_login
login-Yields none = Yields-raise _
login-Yields (some b) = Yields-then write_ok-Yields (λ _. Yields-done _)

recover_login-Yields : (first : Bool) (e : Exception) → Yields Any (recover_login first e)
unfolding recover_login
recover_login-Yields first (operation_exception what) =
    Yields-then (manage_exception-Yields what true) (λ _. Yields-done _)
recover_login-Yields first (invalid_message what) = Yields-raise _
recover_login-Yields first (comm_exception what) = Yields-raise _
recover_login-Yields first (failed_transaction what) = Yields-raise _
recover_login-Yields first invalid_argument = Yields-raise _
recover_login-Yields first out_of_range = Yields-raise _

handle_decoded-Yields :
    (l : Locals)
    → (l.client_msg.message_type ≡ MessageType.push → All IsShortValue l.client_msg.args)
    → Yields Any (handle_decoded l)
unfolding handle_decoded
handle_decoded-Yields l h =
    Yields-if (l.client_msg.message_type is MessageType.login)
      (Yields-then
        (Yields-catch (login-Yields (some l.first_valid_message))
          (recover_login-Yields l.first_valid_message))
        (λ first. Yields-done _))
      (Yields-if l.first_valid_message
        (Yields-then (send-Yields _) (λ _. Yields-then end_loop-Yields (λ _. Yields-done _)))
        (Yields-then (call_response_function-Yields l.client_msg h) (λ _. Yields-done _)))

short_args :
    (n : ℕ) (args : List Bytes)
    → n ≤ 1023
    → All (λ a. length a + 5 ≤ n) args
    → All IsShortValue args
short_args n [] b h = tt
short_args n (a ∷ args) b h = (record { bound = omega (arith, h.0, b) }, short_args n args b h.1)

handle_text-Yields :
    (n : ℕ) (l : Locals) (o : Outcome Message)
    → n ≤ 1023
    → IsSized n o
    → Yields Any (handle_text l o)
unfolding handle_text
handle_text-Yields n l (ok m) b h =
    handle_decoded-Yields (record l { client_msg = m }) (λ e. short_args n m.args b (h e))
handle_text-Yields n l (throw (invalid_message what)) b h =
    Yields-then (manage_exception-Yields what false) (λ _. Yields-done _)
handle_text-Yields n l (throw (comm_exception what)) b h = Yields-raise _
handle_text-Yields n l (throw (operation_exception what)) b h = Yields-raise _
handle_text-Yields n l (throw (failed_transaction what)) b h = Yields-raise _
handle_text-Yields n l (throw invalid_argument) b h = Yields-raise _
handle_text-Yields n l (throw out_of_range) b h = Yields-raise _
handle_text-Yields n l blocked b h = Yields-Any _
handle_text-Yields n l undefined b h = Yields-Any _

length-c_string : (s : Bytes) → length (c_string s) ≤ length s
unfolding c_string
length-c_string [] = omega arith
length-c_string (c ∷ s) = elim (Bool-cases (c == 0)) [
  | inl e ↦ rw e (omega arith)
  | inr e ↦ rw e (omega (arith, length-c_string s))
]

if_fits :
    {A : Type 0} (b : Bool) {m n : Exec A}
    → (b ≡ true → Yields Any m)
    → Yields Any n
    → Yields Any (if b then m else n)
if_fits true h k = h refl
if_fits false h k = k

pub chat_round-Yields : (r : Read) (l : Locals) → Yields Any (chat_round r l)
unfolding chat_round
chat_round-Yields nothing l = Yields-then end_loop-Yields (λ _. Yields-done _)
chat_round-Yields (line text) l =
    if_fits (ltb (length text) max_encoded_len)
      (λ e.
        handle_text-Yields (length (c_string text)) l (decode (c_string text) l.client_msg)
          (omega (arith, length-c_string text, fits e))
          (decode-IsSized (c_string text) l.client_msg))
      (Yields-Any _)
  where
    fits : ltb (length text) max_encoded_len ≡ true → length text ≤ 1023
    fits e = ground arith

pub close_fd-Yields : Yields Any close_fd
unfolding close_fd
close_fd-Yields = Yields-modify_conn _ (λ c. refl)

pub delete_connection-Yields : Yields Any delete_connection
unfolding delete_connection fail_if
delete_connection-Yields = search (size_rules, fail_transaction-Yields)
