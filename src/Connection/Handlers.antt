-- ===== src/Connection/Handlers.antt =====
-- The requests: handle_create to handle_get, and call_response_function.
use computer_systems_assignm.Prelude.{
  ℕ, Bool, true, false, ◌||◌, List, [], ◌∷◌, Option, none, some, ltb, ◌==◌, if◌then◌else◌,
}
use computer_systems_assignm.Prelude.Int.{ℤ}
use computer_systems_assignm.Exceptions.{
  Outcome, Exception, operation_exception, failed_transaction, invalid_argument,
}
use computer_systems_assignm.Text.{Bytes, codes}
use computer_systems_assignm.Text.Decimal.{stoi, to_string, int_add, int_sub, int_mul, int_div}
use computer_systems_assignm.Message.{MessageType, Message, message, push_arg, get_arg}
use computer_systems_assignm.Connection.State.{
  Exec, ◌>>=◌, ◌>>◌, lift, catch, gets, modify_conn, pure, raise,
}
use computer_systems_assignm.Connection.Calls.{
  push_value, top_value, pop_value, stack_size, lock_table, unlock_table, trylock_table, set_entry,
  has_entry, get_entry, commit_table, lock_server, unlock_server, find_table, create_table, send,
  write_ok, end_loop,
}
use computer_systems_assignm.Connection.Transactions.{handle_begin, handle_commit, on_exception}

abbrev pub table_exists : Exception
table_exists = operation_exception (codes "A table with this name already exists.")

abbrev pub no_table : Exception
no_table = operation_exception (codes "Could not find table.")

abbrev pub no_access : Exception
no_access = failed_transaction (codes "Could not gain access to table.")

abbrev pub no_key : Exception
no_key = operation_exception (codes "Could not find key in specified table.")

abbrev pub no_value : Exception
no_value = operation_exception (codes "No value on stack.")

abbrev pub not_an_integer : Exception
not_an_integer = operation_exception (codes "Value on stack could not be converted to an integer.")

-- catch (OperationException const& ex) { throw OperationException(ex.what()); }
abbrev pub throw_again {ℓ} : {A : Type ℓ} → Exception → Exec A
throw_again (operation_exception what) = raise (operation_exception what)
throw_again e = raise e

unfoldable pub create_unless : Bytes → Option ℕ → Exec (Unit {0})
create_unless name (some p) = do unlock_server; raise table_exists
create_unless name none = do create_table name; write_ok; unlock_server

unfoldable pub handle_create : Message → Exec (Unit {0})
handle_create msg = do
  lock_server
  name ← lift (get_arg msg 0)
  found ← find_table name
  create_unless name found

unfoldable pub handle_pop : Exec (Unit {0})
handle_pop = do catch pop_value throw_again; write_ok

unfoldable pub handle_top : Exec (Unit {0})
handle_top = do
  value ← catch top_value throw_again
  send (push_arg (message MessageType.data_msg []) value)

-- std::stoi(stack.get_top()); stack.pop()
unfoldable pub read_operand : Exec ℤ
read_operand = do value ← top_value; z ← lift (stoi value); pop_value; pure z

-- catch (std::invalid_argument const& ex), with what is done before OperationException is thrown
abbrev pub on_invalid_argument {ℓ} : {A : Type ℓ} → Exec (Unit {0}) → Exception → Exec A
on_invalid_argument restore invalid_argument = do restore; raise not_an_integer
on_invalid_argument restore e = raise e

-- The try block that handle_add, handle_sub, handle_mul and handle_div share: the left operand and the
-- right one. If only the left one is no number, the right one goes back as std::to_string prints it.
unfoldable pub pop_operands : Exec (ℤ × ℤ)
pop_operands = do
  right ← catch read_operand (on_invalid_argument (pure tt))
  left ← catch read_operand (on_invalid_argument (push_value (to_string right)))
  pure (left, right)

unfoldable pub compute : (ℤ → ℤ → Outcome ℤ) → Exec (Unit {0})
compute op = do
  operands ← pop_operands
  z ← lift (op operands.0 operands.1)
  push_value (to_string z)
  write_ok

unfoldable pub require_two : Bytes → ℕ → Exec (Unit {0})
require_two what size = if ltb size 2 then raise (operation_exception what) else pure tt

unfoldable pub handle_add : Exec (Unit {0})
handle_add = do
  size ← stack_size
  require_two (codes "There are not enough operands to add with.") size
  compute int_add

unfoldable pub handle_sub : Exec (Unit {0})
handle_sub = do
  size ← stack_size
  require_two (codes "There are not enough operands to subtract with.") size
  compute int_sub

unfoldable pub handle_mul : Exec (Unit {0})
handle_mul = do
  size ← stack_size
  require_two (codes "There are not enough operands to multiply with.") size
  compute int_mul

unfoldable pub handle_div : Exec (Unit {0})
handle_div = do
  size ← stack_size
  require_two (codes "There are not enough operands to divide with.") size
  compute int_div

unfoldable pub handle_bye : Exec (Unit {0})
handle_bye = do end_loop; write_ok

unfoldable pub handle_push : Message → Exec (Unit {0})
handle_push msg = do value ← lift (get_arg msg 0); push_value value; write_ok

-- locked_tables.find(p) != locked_tables.end()
unfoldable pub is_locked : ℕ → List ℕ → Bool
is_locked p [] = false
is_locked p (q ∷ pointers) = q == p || is_locked p pointers

unfoldable pub set_table_value : Message → ℕ → Exec (Unit {0})
set_table_value msg p = do
  key ← lift (get_arg msg 1)
  value ← top_value
  set_entry p key value
  pop_value

-- A key that is not there unlocks the table, whoever locked it.
unfoldable pub push_entry : ℕ → Bytes → Bool → Exec (Unit {0})
push_entry p key true = do value ← get_entry p key; push_value value
push_entry p key false = do unlock_table p; raise no_key

unfoldable pub get_table_value : Message → ℕ → Exec (Unit {0})
get_table_value msg p = do
  key ← lift (get_arg msg 1)
  found ← has_entry p key
  push_entry p key found

unfoldable pub remember_lock : ℕ → Bool → Exec (Unit {0})
remember_lock p true = modify_conn λ c. record c { locked_tables = p ∷ c.locked_tables }
remember_lock p false = raise no_access

-- In a transaction: try to take the table's lock, unless this client holds it already.
unfoldable pub acquire : ℕ → Exec (Unit {0})
acquire p = do
  pointers ← gets λ s. s.conn.locked_tables
  if is_locked p pointers then pure tt else trylock_table p >>= remember_lock p

unfoldable pub set_in : Message → ℕ → Bool → Exec (Unit {0})
set_in msg p false = do lock_table p; set_table_value msg p; commit_table p; unlock_table p
set_in msg p true = do acquire p; set_table_value msg p

unfoldable pub set_found : Message → Option ℕ → Exec (Unit {0})
set_found msg none = raise no_table
set_found msg (some p) = do
  ongoing ← gets λ s. s.conn.in_transaction
  set_in msg p ongoing
  write_ok

unfoldable pub require_one : ℕ → Exec (Unit {0})
require_one size = if ltb size 1 then raise no_value else pure tt

unfoldable pub handle_set : Message → Exec (Unit {0})
handle_set msg = do
  size ← stack_size
  require_one size
  name ← lift (get_arg msg 0)
  found ← find_table name
  set_found msg found

-- catch (OperationException const& ex) { table_obj->unlock(); throw OperationException(ex.what()); }
unfoldable pub unlock_and_throw : ℕ → Exception → Exec (Unit {0})
unlock_and_throw p (operation_exception what) = do unlock_table p; raise (operation_exception what)
unlock_and_throw p e = raise e

unfoldable pub get_in : Message → ℕ → Bool → Exec (Unit {0})
get_in msg p false = do
  lock_table p
  catch (get_table_value msg p) (unlock_and_throw p)
  unlock_table p
get_in msg p true = do acquire p; catch (get_table_value msg p) throw_again

unfoldable pub get_found : Message → Option ℕ → Exec (Unit {0})
get_found msg none = raise no_table
get_found msg (some p) = do
  ongoing ← gets λ s. s.conn.in_transaction
  get_in msg p ongoing
  write_ok

unfoldable pub handle_get : Message → Exec (Unit {0})
handle_get msg = do name ← lift (get_arg msg 0); found ← find_table name; get_found msg found

-- The switch of call_response_function.
unfoldable pub respond : MessageType → Message → Exec (Unit {0})
respond MessageType.create msg = handle_create msg
respond MessageType.begin msg = handle_begin
respond MessageType.commit msg = handle_commit
respond MessageType.pop msg = handle_pop
respond MessageType.top msg = handle_top
respond MessageType.add msg = handle_add
respond MessageType.sub msg = handle_sub
respond MessageType.mul msg = handle_mul
respond MessageType.div msg = handle_div
respond MessageType.bye msg = handle_bye
respond MessageType.push msg = handle_push msg
respond MessageType.set msg = handle_set msg
respond MessageType.get msg = handle_get msg
respond t msg = raise (operation_exception (codes "Please only enter standardized requests."))

unfoldable pub call_response_function : Message → Exec (Unit {0})
call_response_function msg = catch (respond msg.message_type msg) on_exception
