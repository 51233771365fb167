-- ===== src/Connection/Replies/Handlers.antt =====
-- call_response_function and chat_with_client: one answer for each line.
use computer_systems_assignm.Prelude.{
  ℕ, arith, ◌≢◌, refl, Bool, true, false, List, [], ◌∷◌, Option, none, some, ltb,
}
use computer_systems_assignm.Prelude.Int.{ℤ}
use computer_systems_assignm.Exceptions.{
  Outcome, throw, Exception, invalid_message, comm_exception, operation_exception,
  failed_transaction, invalid_argument, out_of_range,
}
use computer_systems_assignm.Text.{Bytes}
use computer_systems_assignm.Message.{MessageType, Message}
use computer_systems_assignm.Connection.State.{State, Exec, ◌>>=◌, gets, lift}
use computer_systems_assignm.Connection.Transactions.{
  roll_back_all, commit_all, leave_transaction, fail_transaction, fail_if, manage_exception,
  on_exception, begin_if_idle, handle_begin, commit_if_ongoing, handle_commit,
}
use computer_systems_assignm.Connection.Handlers.{
  create_unless, handle_create, handle_pop, handle_top, read_operand, pop_operands, compute,
  require_two, handle_add, handle_sub, handle_mul, handle_div, handle_bye, handle_push,
  set_table_value, push_entry, get_table_value, remember_lock, acquire, is_locked, set_in,
  set_found, require_one, handle_set, get_in, get_found, handle_get, throw_again,
  on_invalid_argument, unlock_and_throw, respond, call_response_function,
}
use computer_systems_assignm.Table.{mutex_unlock}
use computer_systems_assignm.Server
use computer_systems_assignm.Connection.Calls.{unlock_server, this_client, store_server}
use computer_systems_assignm.Connection.Replies.{
  Answers-then, Silent, Answers, Silent-bind, Answers-bind, Answers-catch, Answers-raise,
  Silent-lift, Silent-gets, Silent-if, Silent-modify_conn,
}
use computer_systems_assignm.Connection.Replies.Calls.{
  create_table-Silent, unlock_server-Silent, write_ok-Answers, reply_rules,
}

throw_again-Silent : {A : Type 0} (e : Exception) → Silent (throw_again {A = A} e)
throw_again-Silent (operation_exception what) = Silent-lift _
throw_again-Silent _ = Silent-lift _

unlock_and_throw-Silent : (p : ℕ) (e : Exception) → Silent (unlock_and_throw p e)
unfolding unlock_and_throw
unlock_and_throw-Silent p (operation_exception what) = search reply_rules
unlock_and_throw-Silent p _ = Silent-lift _

on_invalid_argument-Silent :
    {A : Type 0} {restore : Exec (Unit {0})} (e : Exception)
    → Silent restore
    → Silent (on_invalid_argument {A = A} restore e)
on_invalid_argument-Silent invalid_argument h = search reply_rules
on_invalid_argument-Silent _ h = Silent-lift _

unlock_server-returns : (s : State) (x : Exception) → (unlock_server s).0 ≢ throw x
unfolding unlock_server this_client store_server gets lift ◌>>=◌ Server.unlock mutex_unlock
unlock_server-returns s x e = ground arith

create_unless-Answers : (name : Bytes) (found : Option ℕ) → Answers (create_unless name found)
unfolding create_unless
create_unless-Answers name (some p) = search reply_rules
create_unless-Answers name none =
    Answers-bind (create_table-Silent name)
      (λ _. Answers-then write_ok-Answers unlock_server-Silent unlock_server-returns)

handle_create-Answers : (msg : Message) → Answers (handle_create msg)
unfolding handle_create
handle_create-Answers msg = search (reply_rules, create_unless-Answers)

handle_pop-Answers : Answers handle_pop
unfolding handle_pop
handle_pop-Answers = search (reply_rules, throw_again-Silent)

handle_top-Answers : Answers handle_top
unfolding handle_top
handle_top-Answers = search (reply_rules, throw_again-Silent)

read_operand-Silent : Silent read_operand
unfolding read_operand
read_operand-Silent = search reply_rules

pop_operands-Silent : Silent pop_operands
unfolding pop_operands
pop_operands-Silent = search (reply_rules, read_operand-Silent, on_invalid_argument-Silent)

compute-Answers : (op : ℤ → ℤ → Outcome ℤ) → Answers (compute op)
unfolding compute
compute-Answers op = search (reply_rules, pop_operands-Silent)

require_two-Silent : (what : Bytes) (size : ℕ) → Silent (require_two what size)
unfolding require_two
require_two-Silent what size = Silent-if (ltb size 2) (Silent-lift _) (Silent-lift _)

handle_add-Answers : Answers handle_add
unfolding handle_add
handle_add-Answers = search (reply_rules, require_two-Silent, compute-Answers)

handle_sub-Answers : Answers handle_sub
unfolding handle_sub
handle_sub-Answers = search (reply_rules, require_two-Silent, compute-Answers)

handle_mul-Answers : Answers handle_mul
unfolding handle_mul
handle_mul-Answers = search (reply_rules, require_two-Silent, compute-Answers)

handle_div-Answers : Answers handle_div
unfolding handle_div
handle_div-Answers = search (reply_rules, require_two-Silent, compute-Answers)

handle_bye-Answers : Answers handle_bye
unfolding handle_bye
handle_bye-Answers = search reply_rules

handle_push-Answers : (msg : Message) → Answers (handle_push msg)
unfolding handle_push
handle_push-Answers msg = search reply_rules

set_table_value-Silent : (msg : Message) (p : ℕ) → Silent (set_table_value msg p)
unfolding set_table_value
set_table_value-Silent msg p = search reply_rules

push_entry-Silent : (p : ℕ) (key : Bytes) (found : Bool) → Silent (push_entry p key found)
unfolding push_entry
push_entry-Silent p key true = search reply_rules
push_entry-Silent p key false = search reply_rules

get_table_value-Silent : (msg : Message) (p : ℕ) → Silent (get_table_value msg p)
unfolding get_table_value
get_table_value-Silent msg p = search (reply_rules, push_entry-Silent)

remember_lock-Silent : (p : ℕ) (b : Bool) → Silent (remember_lock p b)
unfolding remember_lock
remember_lock-Silent p true = Silent-modify_conn _ (λ c. refl)
remember_lock-Silent p false = Silent-lift _

acquire-Silent : (p : ℕ) → Silent (acquire p)
unfolding acquire
acquire-Silent p = Silent-bind (Silent-gets _) (λ pointers.
    Silent-if (is_locked p pointers) (Silent-lift _) (search (reply_rules, remember_lock-Silent)))

require_one-Silent : (size : ℕ) → Silent (require_one size)
unfolding require_one
require_one-Silent size = Silent-if (ltb size 1) (Silent-lift _) (Silent-lift _)

set_in-Silent : (msg : Message) (p : ℕ) (b : Bool) → Silent (set_in msg p b)
unfolding set_in
set_in-Silent msg p true = search (reply_rules, acquire-Silent, set_table_value-Silent)
set_in-Silent msg p false = search (reply_rules, set_table_value-Silent)

set_found-Answers : (msg : Message) (found : Option ℕ) → Answers (set_found msg found)
unfolding set_found
set_found-Answers msg none = Answers-raise _
set_found-Answers msg (some p) = search (reply_rules, set_in-Silent)

handle_set-Answers : (msg : Message) → Answers (handle_set msg)
unfolding handle_set
handle_set-Answers msg = search (reply_rules, require_one-Silent, set_found-Answers)

get_in-Silent : (msg : Message) (p : ℕ) (b : Bool) → Silent (get_in msg p b)
unfolding get_in
get_in-Silent msg p true =
    search (reply_rules, acquire-Silent, get_table_value-Silent, throw_again-Silent)
get_in-Silent msg p false = search (reply_rules, get_table_value-Silent, unlock_and_throw-Silent)

get_found-Answers : (msg : Message) (found : Option ℕ) → Answers (get_found msg found)
unfolding get_found
get_found-Answers msg none = Answers-raise _
get_found-Answers msg (some p) = search (reply_rules, get_in-Silent)

handle_get-Answers : (msg : Message) → Answers (handle_get msg)
unfolding handle_get
handle_get-Answers msg = search (reply_rules, get_found-Answers)

roll_back_all-Silent : (pointers : List ℕ) → Silent (roll_back_all pointers)
unfolding roll_back_all
roll_back_all-Silent [] = Silent-lift _
roll_back_all-Silent (p ∷ pointers) =
    let rest : Silent (roll_back_all pointers) = roll_back_all-Silent pointers in search reply_rules

commit_all-Silent : (pointers : List ℕ) → Silent (commit_all pointers)
unfolding commit_all
commit_all-Silent [] = Silent-lift _
commit_all-Silent (p ∷ pointers) =
    let rest : Silent (commit_all pointers) = commit_all-Silent pointers in search reply_rules

leave_transaction-Silent : Silent leave_transaction
unfolding leave_transaction
leave_transaction-Silent = Silent-modify_conn _ (λ c. refl)

fail_transaction-Silent : Silent fail_transaction
unfolding fail_transaction
fail_transaction-Silent = search (reply_rules, roll_back_all-Silent, leave_transaction-Silent)

pub manage_exception-Answers :
    (what : Bytes) (recoverable : Bool) → Answers (manage_exception what recoverable)
unfolding manage_exception fail_if
manage_exception-Answers what recoverable = search (reply_rules, fail_transaction-Silent)

on_exception-Answers : (e : Exception) → Answers (on_exception e)
unfolding on_exception
on_exception-Answers (invalid_message what) = search (reply_rules, manage_exception-Answers)
on_exception-Answers (comm_exception what) = manage_exception-Answers what true
on_exception-Answers (operation_exception what) = manage_exception-Answers what true
on_exception-Answers (failed_transaction what) = manage_exception-Answers what true
on_exception-Answers invalid_argument = Answers-raise _
on_exception-Answers out_of_range = Answers-raise _

begin_if_idle-Answers : (b : Bool) → Answers (begin_if_idle b)
unfolding begin_if_idle
begin_if_idle-Answers true = Answers-raise _
begin_if_idle-Answers false =
    Answers-bind (Silent-modify_conn _ (λ c. refl)) (λ _. search reply_rules)

handle_begin-Answers : Answers handle_begin
unfolding handle_begin
handle_begin-Answers = search (reply_rules, begin_if_idle-Answers)

commit_if_ongoing-Answers : (b : Bool) → Answers (commit_if_ongoing b)
unfolding commit_if_ongoing
commit_if_ongoing-Answers false = Answers-raise _
commit_if_ongoing-Answers true = search (reply_rules, commit_all-Silent, leave_transaction-Silent)

handle_commit-Answers : Answers handle_commit
unfolding handle_commit
handle_commit-Answers = search (reply_rules, commit_if_ongoing-Answers)

respond-Answers : (t : MessageType) (msg : Message) → Answers (respond t msg)
unfolding respond
respond-Answers MessageType.create msg = handle_create-Answers msg
respond-Answers MessageType.begin msg = handle_begin-Answers
respond-Answers MessageType.commit msg = handle_commit-Answers
respond-Answers MessageType.pop msg = handle_pop-Answers
respond-Answers MessageType.top msg = handle_top-Answers
respond-Answers MessageType.add msg = handle_add-Answers
respond-Answers MessageType.sub msg = handle_sub-Answers
respond-Answers MessageType.mul msg = handle_mul-Answers
respond-Answers MessageType.div msg = handle_div-Answers
respond-Answers MessageType.bye msg = handle_bye-Answers
respond-Answers MessageType.push msg = handle_push-Answers msg
respond-Answers MessageType.set msg = handle_set-Answers msg
respond-Answers MessageType.get msg = handle_get-Answers msg
respond-Answers t msg = Answers-raise _

pub call_response_function-Answers : (msg : Message) → Answers (call_response_function msg)
unfolding call_response_function
call_response_function-Answers msg =
    Answers-catch (respond-Answers msg.message_type msg) on_exception-Answers
