-- ===== src/Connection/Throws/Transactions.antt =====
-- The transactions and the answer to an exception.
use computer_systems_assignm.Prelude.{
  ℕ, ◌≤◌, ◌≡◌, refl, Bool, true, false, List, [], ◌∷◌, ltb, arith, some, ◌++◌, length-append,
  length,
}
use computer_systems_assignm.Exceptions.{
  Exception, invalid_message, comm_exception, operation_exception, failed_transaction,
  invalid_argument, out_of_range,
}
use computer_systems_assignm.Text.{Bytes, codes, space, newline}
use computer_systems_assignm.Message.{MessageType, message}
use computer_systems_assignm.Connection.Calls.{send}
use computer_systems_assignm.Serialization.{
  encode, encode_as, type_word, append_args, check_message_size, max_encoded_len,
}
use computer_systems_assignm.Connection.Transactions.{
  leave_transaction, begin_if_idle, handle_begin, commit_all, commit_if_ongoing, handle_commit,
  roll_back_all, fail_transaction, fail_if, manage_exception, on_exception,
}
use computer_systems_assignm.Connection.Throws.{
  IsShort, IsThrown, IsOutOfRange, Throwing, Throws, Throws-bind, Throws-lift, Throws-gets,
  Throws-if, Throws-modify_conn,
}
use computer_systems_assignm.Connection.Throws.Calls.{call_rules, end_loop-Throws}
use computer_systems_assignm.Connection.Throws.Handlers.{failed-Throws}

module _ {a r : Type 0} where
  begin_if_idle-Throws : (b : Bool) → Throws (IsThrown a r) (begin_if_idle b)
  unfolding begin_if_idle
  begin_if_idle-Throws true = failed-Throws _ (omega arith)
  begin_if_idle-Throws false = search call_rules

  pub handle_begin-Throws : Throws (IsThrown a r) handle_begin
  unfolding handle_begin
  handle_begin-Throws = search (call_rules, begin_if_idle-Throws)

module _ {E : Exception → Type 0} where
  commit_all-Throws : (pointers : List ℕ) → Throws E (commit_all pointers)
  unfolding commit_all
  commit_all-Throws [] = Throws-lift _ tt
  commit_all-Throws (p ∷ pointers) =
      let rest : Throws E (commit_all pointers) = commit_all-Throws pointers in search call_rules

  roll_back_all-Throws : (pointers : List ℕ) → Throws E (roll_back_all pointers)
  unfolding roll_back_all
  roll_back_all-Throws [] = Throws-lift _ tt
  roll_back_all-Throws (p ∷ pointers) =
      let rest : Throws E (roll_back_all pointers) = roll_back_all-Throws pointers in
      search call_rules

  leave_transaction-Throws : Throws E leave_transaction
  unfolding leave_transaction
  leave_transaction-Throws = Throws-modify_conn _

  pub fail_transaction-Throws : Throws E fail_transaction
  unfolding fail_transaction
  fail_transaction-Throws = search (call_rules, roll_back_all-Throws, leave_transaction-Throws)

module _ {a r : Type 0} where
  commit_if_ongoing-Throws : (b : Bool) → Throws (IsThrown a r) (commit_if_ongoing b)
  unfolding commit_if_ongoing
  commit_if_ongoing-Throws false = failed-Throws _ (omega arith)
  commit_if_ongoing-Throws true = search (call_rules, commit_all-Throws, leave_transaction-Throws)

  pub handle_commit-Throws : Throws (IsThrown a r) handle_commit
  unfolding handle_commit
  handle_commit-Throws = search (call_rules, commit_if_ongoing-Throws)

not_longer : (m n : ℕ) → n ≤ m → ltb m n ≡ false
not_longer m n h = ground arith

pub type_word_run :
    (type_word MessageType.failed ≡ some (codes "FAILED"))
    × (type_word MessageType.error ≡ some (codes "ERROR"))
unfolding type_word
type_word_run = (refl, refl)

module _ (E : Exception → Type 0) where
  fitting-Throwing :
      (word what : Bytes)
      → length word ≤ 6
      → IsShort what
      → Throwing E (encode_as (some word) (what ∷ []))
  unfolding encode_as append_args check_message_size
  fitting-Throwing word what h short =
      let n : length (((word ++ space ∷ []) ++ what) ++ newline ∷ []) ≤ max_encoded_len = omega (
        arith,
        length-append ((word ++ space ∷ []) ++ what) (newline ∷ []),
        length-append (word ++ space ∷ []) what,
        length-append word (space ∷ []),
        short.bound,
        h,
      ) in
      rw (not_longer _ _ n) tt

module _ {E : Exception → Type 0} where
  -- The answer to an exception with a short text fits into a line.
  pub short_send-Throws :
      (t : MessageType) (word what : Bytes)
      → type_word t ≡ some word
      → length word ≤ 6
      → IsShort what
      → Throws E (send (message t (what ∷ [])))
  unfolding send encode
  short_send-Throws t word what e h short = rw e (
      Throws-bind (Throws-lift _ (fitting-Throwing E word what h short))
        (λ text. Throws-modify_conn _))

  pub manage_exception-Throws :
      (what : Bytes) (recoverable : Bool)
      → IsShort what
      → Throws E (manage_exception what recoverable)
  unfolding manage_exception fail_if
  manage_exception-Throws what true short = Throws-bind (Throws-gets _) (λ ongoing.
      Throws-bind (Throws-if ongoing fail_transaction-Throws (Throws-lift _ tt))
        (λ _. short_send-Throws MessageType.failed _ what type_word_run.0 (omega arith) short))
  manage_exception-Throws what false short = Throws-bind (Throws-gets _) (λ ongoing.
      Throws-bind (Throws-if ongoing fail_transaction-Throws (Throws-lift _ tt))
        (λ _. short_send-Throws MessageType.error _ what type_word_run.1 (omega arith) short))

module _ {r : Type 0} where
  pub on_exception-Throws :
      (e : Exception) → IsThrown ⊥ r e → Throws (IsOutOfRange r) (on_exception e)
  unfolding on_exception
  on_exception-Throws (invalid_message what) h =
      Throws-bind end_loop-Throws (λ _. manage_exception-Throws what false h)
  on_exception-Throws (comm_exception what) h = manage_exception-Throws what true h
  on_exception-Throws (operation_exception what) h = manage_exception-Throws what true h
  on_exception-Throws (failed_transaction what) h = manage_exception-Throws what true h
  on_exception-Throws invalid_argument h = absurd h
  on_exception-Throws out_of_range h = Throws-lift _ h
