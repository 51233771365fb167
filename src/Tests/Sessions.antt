-- ===== src/Tests/Sessions.antt =====
-- Two clients of a running server: client 0 opens a transaction and sets a key in its new table, so that
-- client 1 has to wait for the table.
mod Isolation
mod Contention
mod Workers
mod Overflow
mod Values
use computer_systems_assignm.Prelude.{◌≡◌, refl, [], ◌∷◌, ℕ, true, false, some, arith, ◌++◌, ◌≢◌}
use computer_systems_assignm.Exceptions.{Outcome, ok, blocked}
use computer_systems_assignm.Text.{
  Bytes, newline, codes, bytes_eq, skip_space, take_word, drop_word, getline, find_first_of,
  find_last_of,
}
use computer_systems_assignm.Dict.{lookup, insert}
use computer_systems_assignm.Message.{
  MessageType, Message, message, get_arg, push_arg, is_letter, is_identifier_char, get_num_args,
  enum_value, ◌is◌, set_message_type, clear_args, is_valid_identifier, takes_no_argument,
  takes_one_argument, takes_two_arguments, takes_identifier, identifiers_valid, is_valid,
}
use computer_systems_assignm.Message.Validity.{IsAccepted}
use computer_systems_assignm.Text.{is_space}
use computer_systems_assignm.Serialization.{
  check_message_size, type_word, append_args, encode_as, encode, word_type, substr, push_quoted,
  extract_quoted_text_arg, extract_words, extract_single_word_args, extract_args, require_valid,
  decode_args, decode_typed, decode_text, check_newline, decode,
}
use computer_systems_assignm.Table
use computer_systems_assignm.Table.{Table}
use computer_systems_assignm.Server
use computer_systems_assignm.ValueStack
use computer_systems_assignm.Connection.Calls.{
  push_value, top_value, pop_value, stack_size, deref, store_table, this_client, lock_table,
  unlock_table, trylock_table, set_entry, has_entry, get_entry, commit_table, rollback_table,
  store_server, lock_server, unlock_server, find_table, create_table, send, write_ok, end_loop,
}
use computer_systems_assignm.Connection.Transactions.{
  roll_back_all, commit_all, leave_transaction, fail_transaction, fail_if, manage_exception,
  on_exception, begin_if_idle, handle_begin, commit_if_ongoing, handle_commit,
}
use computer_systems_assignm.Connection.Handlers.{
  create_unless, handle_create, handle_pop, handle_top, read_operand, pop_operands, compute,
  require_two, handle_add, handle_sub, handle_mul, handle_div, handle_bye, handle_push, is_locked,
  set_table_value, push_entry, get_table_value, remember_lock, acquire, set_in, set_found,
  require_one, handle_set, unlock_and_throw, get_in, get_found, handle_get, respond,
  call_response_function,
}
use computer_systems_assignm.Connection.Chat.{
  delete_connection, Read, line, Locals, c_string, handle_login, recover_login, handle_decoded,
  handle_text, chat_round, close_fd, chat_loop, chat_with_client, client_worker,
}
use computer_systems_assignm.Connection.State.{State, lift, catch, gets, modify_conn, ◌>>=◌}
use computer_systems_assignm.Connection.Triple.{Meets}
use computer_systems_assignm.Connection.Owns.{Waits}
use computer_systems_assignm.Connection.Steady.{safe}
use computer_systems_assignm.Connection.Faults.{IsServed, call_response_function-IsServed}
use computer_systems_assignm.Connection.Lines.{RoundFaults, IsSafe, chat_round-IsSafe}
use computer_systems_assignm.System.{
  System, view, after, Reachable, stay, step, round, new_system, new_system-Good, Reachable-Good,
}
use computer_systems_assignm.System.Locks.{
  IsReleased, locked_tables-exclusive, chat_round-keeps, delete_connection-IsReleased,
}

-- The line of a request.
abbrev says : Bytes → Read
says body = line (body ++ newline ∷ [])

-- The local variables of the loop when `m` has been decoded.
abbrev heard : Message → Locals
heard m = record { first_valid_message = false; client_msg = m }

abbrev login_a : Message
login_a = message MessageType.login (codes "a" ∷ [])

abbrev create_t : Message
create_t = message MessageType.create (codes "t" ∷ [])

abbrev begin_msg : Message
begin_msg = message MessageType.begin []

abbrev push_1 : Message
push_1 = message MessageType.push (codes "1" ∷ [])

abbrev set_t_k : Message
set_t_k = message MessageType.set (codes "t" ∷ codes "k" ∷ [])

-- The round of client `i` on a line.
abbrev answer : ℕ → Bytes → System → Outcome Locals × State
answer i body sys = chat_round (says body) (sys.locals i) (view i sys)

-- The system behind it, when the line has been decoded to `m`.
abbrev served : ℕ → Bytes → Message → System → System
served i body m sys = after i (heard m) (answer i body sys).1 sys

abbrev sys0 : System
sys0 = served 0 (codes "LOGIN a") login_a new_system

abbrev sys1 : System
sys1 = served 0 (codes "CREATE t") create_t sys0

abbrev sys2 : System
sys2 = served 0 (codes "BEGIN") begin_msg sys1

abbrev sys3 : System
sys3 = served 0 (codes "PUSH 1") push_1 sys2

abbrev sys4 : System
sys4 = served 0 (codes "SET t k") set_t_k sys3

abbrev sys5 : System
sys5 = served 1 (codes "LOGIN a") login_a sys4

abbrev sys6 : System
sys6 = served 1 (codes "PUSH 1") push_1 sys5

abbrev table_t : Table
table_t = record {
  name = codes "t";
  key_value_pairs = [];
  proposed_pairs = (codes "k", codes "1") ∷ [];
  mutex = some 0;
}

-- The client is in its loop, and the line is answered.
abbrev IsAnswered : ℕ → Bytes → Message → System → Type 0
IsAnswered i body m sys =
    ((sys.conns i).loop_in_progress ≡ true) × ((answer i body sys).0 ≡ ok (heard m))

rounds_run :
    IsAnswered 0 (codes "LOGIN a") login_a new_system
    × IsAnswered 0 (codes "CREATE t") create_t sys0
    × IsAnswered 0 (codes "BEGIN") begin_msg sys1
    × IsAnswered 0 (codes "PUSH 1") push_1 sys2
    × IsAnswered 0 (codes "SET t k") set_t_k sys3
    × IsAnswered 1 (codes "LOGIN a") login_a sys4
    × IsAnswered 1 (codes "PUSH 1") push_1 sys5
unfolding get_num_args set_message_type clear_args is_letter is_identifier_char is_valid_identifier
    takes_no_argument takes_one_argument takes_two_arguments takes_identifier identifiers_valid
    is_valid word_type substr push_quoted extract_quoted_text_arg extract_words
    extract_single_word_args extract_args require_valid decode_args decode_typed decode_text
    check_newline decode is_space skip_space take_word drop_word getline find_first_of find_last_of
    c_string enum_value ◌is◌ handle_login recover_login handle_decoded handle_text chat_round
    close_fd chat_loop chat_with_client client_worker push_value top_value pop_value stack_size
    deref store_table this_client lock_table unlock_table trylock_table set_entry has_entry
    get_entry commit_table rollback_table store_server lock_server unlock_server find_table
    create_table send write_ok end_loop roll_back_all commit_all leave_transaction fail_transaction
    fail_if manage_exception on_exception begin_if_idle handle_begin commit_if_ongoing handle_commit
    create_unless handle_create handle_pop handle_top read_operand pop_operands compute require_two
    handle_add handle_sub handle_mul handle_div handle_bye handle_push is_locked set_table_value
    push_entry get_table_value remember_lock acquire set_in set_found require_one handle_set
    unlock_and_throw get_in get_found handle_get respond call_response_function delete_connection
    lift catch gets modify_conn ◌>>=◌ check_message_size type_word append_args encode_as encode
    get_arg push_arg bytes_eq lookup insert Table.mutex_lock Table.mutex_unlock Table.new_table
    Table.lock Table.unlock Table.trylock Table.set Table.get Table.has_key Table.commit_pairs
    Table.commit_changes Table.rollback_changes Server.lock Server.unlock Server.add_table
    Server.find_table ValueStack.is_empty ValueStack.push ValueStack.get_top ValueStack.pop
    ValueStack.get_size
rounds_run = (
  (refl, refl),
  (refl, refl),
  (refl, refl),
  (refl, refl),
  (refl, refl),
  (refl, refl),
  (refl, refl),
)

answered :
    {s t : System} (i : ℕ) (body : Bytes) (m : Message)
    → Reachable s t
    → IsAnswered i body m t
    → Reachable s (served i body m t)
answered i body m r a = step r (round i (says body) (heard m) a.0 a.1)

sys3-Reachable : Reachable new_system sys3
sys3-Reachable =
    answered 0 (codes "PUSH 1") push_1
      (answered 0 (codes "BEGIN") begin_msg
        (answered 0 (codes "CREATE t") create_t
          (answered 0 (codes "LOGIN a") login_a stay rounds_run.0) rounds_run.1)
        rounds_run.2)
      rounds_run.3

sys4-Reachable : Reachable new_system sys4
sys4-Reachable = answered 0 (codes "SET t k") set_t_k sys3-Reachable rounds_run.4

sys6-Reachable : Reachable new_system sys6
sys6-Reachable =
    answered 1 (codes "PUSH 1") push_1
      (answered 1 (codes "LOGIN a") login_a sys4-Reachable rounds_run.5) rounds_run.6

sys4_run : sys4.tables 0 ≡ some table_t
unfolding get_num_args set_message_type clear_args is_letter is_identifier_char is_valid_identifier
    takes_no_argument takes_one_argument takes_two_arguments takes_identifier identifiers_valid
    is_valid word_type substr push_quoted extract_quoted_text_arg extract_words
    extract_single_word_args extract_args require_valid decode_args decode_typed decode_text
    check_newline decode is_space skip_space take_word drop_word getline find_first_of find_last_of
    c_string enum_value ◌is◌ handle_login recover_login handle_decoded handle_text chat_round
    close_fd chat_loop chat_with_client client_worker push_value top_value pop_value stack_size
    deref store_table this_client lock_table unlock_table trylock_table set_entry has_entry
    get_entry commit_table rollback_table store_server lock_server unlock_server find_table
    create_table send write_ok end_loop roll_back_all commit_all leave_transaction fail_transaction
    fail_if manage_exception on_exception begin_if_idle handle_begin commit_if_ongoing handle_commit
    create_unless handle_create handle_pop handle_top read_operand pop_operands compute require_two
    handle_add handle_sub handle_mul handle_div handle_bye handle_push is_locked set_table_value
    push_entry get_table_value remember_lock acquire set_in set_found require_one handle_set
    unlock_and_throw get_in get_found handle_get respond call_response_function delete_connection
    lift catch gets modify_conn ◌>>=◌ check_message_size type_word append_args encode_as encode
    get_arg push_arg bytes_eq lookup insert Table.mutex_lock Table.mutex_unlock Table.new_table
    Table.lock Table.unlock Table.trylock Table.set Table.get Table.has_key Table.commit_pairs
    Table.commit_changes Table.rollback_changes Server.lock Server.unlock Server.add_table
    Server.find_table ValueStack.is_empty ValueStack.push ValueStack.get_top ValueStack.pop
    ValueStack.get_size
sys4_run = refl

sys6_run :
    (sys5.tables 0 ≡ some table_t)
    × (is_locked 0 (sys6.conns 0).locked_tables ≡ true)
    × ((answer 1 (codes "SET t k") sys6).0 ≡ blocked)
unfolding get_num_args set_message_type clear_args is_letter is_identifier_char is_valid_identifier
    takes_no_argument takes_one_argument takes_two_arguments takes_identifier identifiers_valid
    is_valid word_type substr push_quoted extract_quoted_text_arg extract_words
    extract_single_word_args extract_args require_valid decode_args decode_typed decode_text
    check_newline decode is_space skip_space take_word drop_word getline find_first_of find_last_of
    c_string enum_value ◌is◌ handle_login recover_login handle_decoded handle_text chat_round
    close_fd chat_loop chat_with_client client_worker push_value top_value pop_value stack_size
    deref store_table this_client lock_table unlock_table trylock_table set_entry has_entry
    get_entry commit_table rollback_table store_server lock_server unlock_server find_table
    create_table send write_ok end_loop roll_back_all commit_all leave_transaction fail_transaction
    fail_if manage_exception on_exception begin_if_idle handle_begin commit_if_ongoing handle_commit
    create_unless handle_create handle_pop handle_top read_operand pop_operands compute require_two
    handle_add handle_sub handle_mul handle_div handle_bye handle_push is_locked set_table_value
    push_entry get_table_value remember_lock acquire set_in set_found require_one handle_set
    unlock_and_throw get_in get_found handle_get respond call_response_function delete_connection
    lift catch gets modify_conn ◌>>=◌ check_message_size type_word append_args encode_as encode
    get_arg push_arg bytes_eq lookup insert Table.mutex_lock Table.mutex_unlock Table.new_table
    Table.lock Table.unlock Table.trylock Table.set Table.get Table.has_key Table.commit_pairs
    Table.commit_changes Table.rollback_changes Server.lock Server.unlock Server.add_table
    Server.find_table ValueStack.is_empty ValueStack.push ValueStack.get_top ValueStack.pop
    ValueStack.get_size
sys6_run = (refl, refl, refl)

set_t_k-IsAccepted : IsAccepted set_t_k
unfolding is_letter is_identifier_char is_space
set_t_k-IsAccepted = ((refl, tt), (refl, tt))

call_response_function-IsServed_example : IsServed set_t_k (view 1 sys6)
call_response_function-IsServed_example =
    call_response_function-IsServed set_t_k (view 1 sys6) set_t_k-IsAccepted
      ((Reachable-Good new_system-Good sys6-Reachable).ready 1)

chat_round-IsSafe_example :
    IsSafe
      (RoundFaults (says (codes "SET t k")) (sys6.locals 1) (view 1 sys6))
      (view 1 sys6)
      (answer 1 (codes "SET t k") sys6)
chat_round-IsSafe_example =
    chat_round-IsSafe (says (codes "SET t k")) (sys6.locals 1) (view 1 sys6)
      ((Reachable-Good new_system-Good sys6-Reachable).ready 1)

locked_tables-exclusive_example : is_locked 0 (sys6.conns 1).locked_tables ≡ false
locked_tables-exclusive_example =
    locked_tables-exclusive sys6 0 1 0 sys6-Reachable (λ e. ground arith) sys6_run.1

chat_round-keeps_example : (answer 1 (codes "PUSH 1") sys5).1.tables 0 ≡ some table_t
chat_round-keeps_example =
    chat_round-keeps sys5 1 0 (says (codes "PUSH 1")) (heard push_1) 0 table_t
      (answered 1 (codes "LOGIN a") login_a sys4-Reachable rounds_run.5) rounds_run.6.1
      (λ e. ground arith) sys6_run.0 refl

delete_connection-IsReleased_example : IsReleased (delete_connection (view 0 sys6))
delete_connection-IsReleased_example =
    delete_connection-IsReleased (view 0 sys6)
      ((Reachable-Good new_system-Good sys6-Reachable).ready 0)
