-- ===== src/Connection/Throws/Chat.antt =====
-- The rounds of chat_with_client: what leaves them is std::out_of_range.
use computer_systems_assignm.Prelude.{◌≡◌, refl, Bool, false, [], ◌∷◌, some, arith, ltb, length}
use computer_systems_assignm.Exceptions.{
  Outcome, ok, throw, blocked, undefined, Exception, invalid_message, comm_exception,
  operation_exception, failed_transaction, invalid_argument, out_of_range,
}
use computer_systems_assignm.Text.{Bytes}
use computer_systems_assignm.Message.{MessageType, Message, message, ◌is◌}
use computer_systems_assignm.Message.Validity.{IsAccepted}
use computer_systems_assignm.Serialization.{
  max_encoded_len, decode, encode, encode_as, type_word, append_args, check_message_size,
}
use computer_systems_assignm.Serialization.Total.{Decoded, decode-Decoded}
use computer_systems_assignm.Connection.State.{State}
use computer_systems_assignm.Connection.Calls.{send, write_ok}
use computer_systems_assignm.Connection.Chat.{
  Read, nothing, line, c_string, Locals, handle_login, handle_decoded, handle_text, chat_round,
}
use computer_systems_assignm.Connection.Lines.{decode-nil}
use computer_systems_assignm.Connection.Serve.{MayFault}
use computer_systems_assignm.Connection.Throws.{
  IsOutOfRange, Throwing, Throws, Throws-bind, Throws-catch, Throws-lift, Throws-if,
  Throws-modify_conn, Throws-weaken,
}
use computer_systems_assignm.Connection.Throws.Calls.{end_loop-Throws}
use computer_systems_assignm.Connection.Throws.Transactions.{
  short_send-Throws, type_word_run, manage_exception-Throws,
}
use computer_systems_assignm.Connection.Throws.Serve.{call_response_function-Throws}

-- The line is decoded to an arithmetic request.
abbrev pub IsArithmetic : Read → Locals → Type 0
IsArithmetic nothing l = ⊥
IsArithmetic (line text) l =
    (m : Message) × (decode (c_string text) l.client_msg ≡ ok m) × MayFault m.message_type

encoded_ok : Throwing (λ e. ⊥) (encode (message MessageType.ok []))
unfolding encode encode_as type_word append_args check_message_size
encoded_ok = tt

module _ {E : Exception → Type 0} where
  write_ok-Never : Throws E write_ok
  unfolding write_ok send
  write_ok-Never =
      Throws-weaken (λ e. ⊥) E (λ e h. absurd h)
        (Throws-bind (Throws-lift _ encoded_ok) (λ text. Throws-modify_conn _))

  login-Throws : (first : Bool) → Throws E (handle_login (some first))
  unfolding handle_login
  login-Throws first = Throws-bind write_ok-Never (λ _. Throws-lift _ tt)

module _ (r : Type 0) where
  handle_decoded-Throws :
      (l : Locals)
      → IsAccepted l.client_msg
      → (MayFault l.client_msg.message_type → r)
      → Throws (IsOutOfRange r) (handle_decoded l)
  unfolding handle_decoded
  handle_decoded-Throws l valid k =
      Throws-if (l.client_msg.message_type is MessageType.login)
        (Throws-bind (Throws-catch (λ e. ⊥) (login-Throws l.first_valid_message) (λ e h. absurd h))
          (λ first. Throws-lift _ tt))
        (Throws-if l.first_valid_message
          (Throws-bind
            (short_send-Throws MessageType.error _ _ type_word_run.1 (omega arith)
              (record { bound = omega arith }))
            (λ _. Throws-bind end_loop-Throws (λ _. Throws-lift _ tt)))
          (Throws-bind
            (Throws-weaken _ (IsOutOfRange r) (in_range k)
              (call_response_function-Throws l.client_msg valid))
            (λ _. Throws-lift _ tt)))
    where
      in_range : {x : Type 0} → (x → r) → (e : Exception) → IsOutOfRange x e → IsOutOfRange r e
      in_range f out_of_range h = f h
      in_range f (invalid_message what) h = absurd h
      in_range f (comm_exception what) h = absurd h
      in_range f (operation_exception what) h = absurd h
      in_range f (failed_transaction what) h = absurd h
      in_range f invalid_argument h = absurd h

  handle_text-Throws :
      (l : Locals) (o : Outcome Message) (f : Type 0)
      → Decoded f o
      → ((m : Message) → o ≡ ok m → MayFault m.message_type → r)
      → Throws (IsOutOfRange r) (handle_text l o)
  unfolding handle_text
  handle_text-Throws l (ok m) f d k =
      handle_decoded-Throws (record l { client_msg = m }) d.0 (k m refl)
  handle_text-Throws l (throw (invalid_message what)) f d k =
      Throws-bind (manage_exception-Throws what false (record { bound = d }))
        (λ _. Throws-lift _ tt)
  handle_text-Throws l (throw e) f d k = absurd d
  handle_text-Throws l blocked f d k = absurd d
  handle_text-Throws l undefined f d k = Throws-lift _ tt

  decoded-Throws :
      (text : Bytes) (l : Locals)
      → ((m : Message) → decode text l.client_msg ≡ ok m → MayFault m.message_type → r)
      → Throws (IsOutOfRange r) (handle_text l (decode text l.client_msg))
  unfolding handle_text
  decoded-Throws [] l k = rw (decode-nil l.client_msg) (Throws-lift _ tt)
  decoded-Throws (c ∷ text) l k =
      handle_text-Throws l _ _ (decode-Decoded (c ∷ text) l.client_msg (λ e. ground arith)) k

round-Throws :
    (read : Read) (l : Locals) → Throws (IsOutOfRange (IsArithmetic read l)) (chat_round read l)
unfolding chat_round
round-Throws nothing l = Throws-bind end_loop-Throws (λ _. Throws-lift _ tt)
round-Throws (line text) l =
    Throws-if (ltb (length text) max_encoded_len)
      (decoded-Throws (IsArithmetic (line text) l) (c_string text) l (λ m e f. (m, e, f)))
      (Throws-lift _ tt)

thrown :
    {A : Type 0} (r : Type 0) (o : Outcome A) (e : Exception)
    → Throwing (IsOutOfRange r) o
    → o ≡ throw e
    → (e ≡ out_of_range) × r
thrown r (ok a) e h x = ground arith
thrown r (throw out_of_range) e h x = (ground arith, h)
thrown r (throw (invalid_message what)) e h x = absurd h
thrown r (throw (comm_exception what)) e h x = absurd h
thrown r (throw (operation_exception what)) e h x = absurd h
thrown r (throw (failed_transaction what)) e h x = absurd h
thrown r (throw invalid_argument) e h x = absurd h
thrown r blocked e h x = ground arith
thrown r undefined e h x = ground arith

-- If an exception leaves a round of the loop, whatever the line and the state, then it is std::out_of_range, and
-- the line is decoded to ADD, SUB, MUL or DIV. All other exceptions are answered.
pub chat_round-throws :
    (read : Read) (l : Locals) (s : State) (e : Exception)
    → (chat_round read l s).0 ≡ throw e
    → (e ≡ out_of_range) × IsArithmetic read l
chat_round-throws read l s e h = thrown (IsArithmetic read l) _ e ((round-Throws read l).at s) h
