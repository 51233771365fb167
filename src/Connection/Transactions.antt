-- ===== src/Connection/Transactions.antt =====
-- How a transaction begins, commits and fails; and what becomes of an exception.
use computer_systems_assignm.Prelude.{ℕ, Bool, true, false, List, [], ◌∷◌, if◌then◌else◌}
use computer_systems_assignm.Exceptions.{
  Exception, invalid_message, comm_exception, operation_exception, failed_transaction,
  invalid_argument, out_of_range,
}
use computer_systems_assignm.Text.{Bytes, codes}
use computer_systems_assignm.Message.{MessageType, message}
use computer_systems_assignm.Connection.State.{Exec, ◌>>=◌, ◌>>◌, gets, modify_conn, pure, raise}
use computer_systems_assignm.Connection.Calls.{
  unlock_table, commit_table, rollback_table, send, write_ok, end_loop,
}

-- The loops over locked_tables.
unfoldable pub roll_back_all : List ℕ → Exec (Unit {0})
roll_back_all [] = pure tt
roll_back_all (p ∷ pointers) = do rollback_table p; unlock_table p; roll_back_all pointers

unfoldable pub commit_all : List ℕ → Exec (Unit {0})
commit_all [] = pure tt
commit_all (p ∷ pointers) = do commit_table p; unlock_table p; commit_all pointers

-- locked_tables.clear(); in_transaction = false
unfoldable pub leave_transaction : Exec (Unit {0})
leave_transaction = modify_conn λ c. record c { locked_tables = []; in_transaction = false }

unfoldable pub fail_transaction : Exec (Unit {0})
fail_transaction = do
  pointers ← gets λ s. s.conn.locked_tables
  roll_back_all pointers
  leave_transaction

unfoldable pub fail_if : Bool → Exec (Unit {0})
fail_if in_transaction = if in_transaction then fail_transaction else pure tt

unfoldable pub manage_exception : Bytes → Bool → Exec (Unit {0})
manage_exception what recoverable = do
  ongoing ← gets λ s. s.conn.in_transaction
  fail_if ongoing
  send (message (if recoverable then MessageType.failed else MessageType.error) (what ∷ []))

-- The handlers at the end of call_response_function; std::logic_error is not caught.
unfoldable pub on_exception : Exception → Exec (Unit {0})
on_exception (invalid_message what) = do end_loop; manage_exception what false
on_exception (comm_exception what) = manage_exception what true
on_exception (operation_exception what) = manage_exception what true
on_exception (failed_transaction what) = manage_exception what true
on_exception invalid_argument = raise invalid_argument
on_exception out_of_range = raise out_of_range

abbrev pub nested : Exception
nested = failed_transaction (codes "Nested transactions are not supported.")

abbrev pub not_ongoing : Exception
not_ongoing = failed_transaction (codes "Transaction is not ongoing.")

unfoldable pub begin_if_idle : Bool → Exec (Unit {0})
begin_if_idle true = raise nested
begin_if_idle false = do modify_conn λ c. record c { in_transaction = true }; write_ok

unfoldable pub handle_begin : Exec (Unit {0})
handle_begin = do ongoing ← gets λ s. s.conn.in_transaction; begin_if_idle ongoing

unfoldable pub commit_if_ongoing : Bool → Exec (Unit {0})
commit_if_ongoing false = raise not_ongoing
commit_if_ongoing true = do
  pointers ← gets λ s. s.conn.locked_tables
  commit_all pointers
  leave_transaction
  write_ok

unfoldable pub handle_commit : Exec (Unit {0})
handle_commit = do ongoing ← gets λ s. s.conn.in_transaction; commit_if_ongoing ongoing
