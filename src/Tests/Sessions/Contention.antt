-- ===== src/Tests/Sessions/Contention.antt =====
-- A SET in a transaction, while another client has the table locked for an own SET outside a transaction.
use computer_systems_assignm.Prelude.{◌≡◌, refl, [], true, false, some, arith}
use computer_systems_assignm.Exceptions.{ok}
use computer_systems_assignm.Text.{
  codes, bytes_eq, skip_space, take_word, drop_word, getline, find_first_of, find_last_of,
}
use computer_systems_assignm.Dict.{lookup, insert}
use computer_systems_assignm.Message.{
  get_arg, push_arg, is_letter, is_identifier_char, get_num_args, enum_value, ◌is◌,
  set_message_type, clear_args, is_valid_identifier, takes_no_argument, takes_one_argument,
  takes_two_arguments, takes_identifier, identifiers_valid, is_valid,
}
use computer_systems_assignm.Text.{is_space}
use computer_systems_assignm.Serialization.{
  check_message_size, type_word, append_args, encode_as, encode, word_type, substr, push_quoted,
  extract_quoted_text_arg, extract_words, extract_single_word_args, extract_args, require_valid,
  decode_args, decode_typed, decode_text, check_newline, decode,
}
use computer_systems_assignm.Table
use computer_systems_assignm.Table.{Table}
use computer_systems_assignm.Server
use computer_systems_assignm.ValueStack
use computer_systems_assignm.Connection.Calls.{
  push_value, top_value, pop_value, stack_size, deref, store_table, this_client, lock_table,
  unlock_table, trylock_table, set_entry, has_entry, get_entry, commit_table, rollback_table,
  store_server, lock_server, unlock_server, find_table, create_table, send, write_ok, end_loop,
}
use computer_systems_assignm.Connection.Transactions.{
  roll_back_all, commit_all, leave_transaction, fail_transaction, fail_if, manage_exception,
  on_exception, begin_if_idle, handle_begin, commit_if_ongoing, handle_commit,
}
use computer_systems_assignm.Connection.Handlers.{
  create_unless, handle_create, handle_pop, handle_top, read_operand, pop_operands, compute,
  require_two, handle_add, handle_sub, handle_mul, handle_div, handle_bye, handle_push, is_locked,
  set_table_value, push_entry, get_table_value, remember_lock, acquire, set_in, set_found,
  require_one, handle_set, unlock_and_throw, get_in, get_found, handle_get, respond,
  call_response_function,
}
use computer_systems_assignm.Connection.Chat.{
  delete_connection, c_string, handle_login, recover_login, handle_decoded, handle_text, chat_round,
  close_fd, chat_loop, chat_with_client, client_worker,
}
use computer_systems_assignm.Connection.State.{lift, catch, gets, modify_conn, ◌>>=◌}
use computer_systems_assignm.System.{view}
use computer_systems_assignm.Tests.Sessions.{set_t_k, says, heard}
use computer_systems_assignm.Connection.Lends.{lent}
use computer_systems_assignm.Connection.Owns.{with_table}
use computer_systems_assignm.Connection.State.{State}
use computer_systems_assignm.Connection.Chat.{Locals}
use computer_systems_assignm.Exceptions.{Outcome, ok}
use computer_systems_assignm.System.{Step, contended, after}
use computer_systems_assignm.Tests.Sessions.{sys3}
use computer_systems_assignm.Prelude.{some, none, false, arith}

abbrev unlocked_t : Table
unlocked_t = record { name = codes "t"; key_value_pairs = []; proposed_pairs = []; mutex = none }

abbrev contended_set : Outcome Locals × State
contended_set =
    chat_round (says (codes "SET t k")) (sys3.locals 0) (lent (view 0 sys3) 0 unlocked_t 1)

contended_run :
    ((sys3.conns 0).loop_in_progress ≡ true)
    × ((sys3.conns 1).in_transaction ≡ false)
    × (sys3.tables 0 ≡ some unlocked_t)
    × ((sys3.conns 0).in_transaction ≡ true)
    × (contended_set.0 ≡ ok (heard set_t_k))
    × (contended_set.1.conn.in_transaction ≡ false)
unfolding get_num_args set_message_type clear_args is_letter is_identifier_char is_valid_identifier
    takes_no_argument takes_one_argument takes_two_arguments takes_identifier identifiers_valid
    is_valid word_type substr push_quoted extract_quoted_text_arg extract_words
    extract_single_word_args extract_args require_valid decode_args decode_typed decode_text
    check_newline decode is_space skip_space take_word drop_word getline find_first_of find_last_of
    c_string enum_value ◌is◌ handle_login recover_login handle_decoded handle_text chat_round
    close_fd chat_loop chat_with_client client_worker push_value top_value pop_value stack_size
    deref store_table this_client lock_table unlock_table trylock_table set_entry has_entry
    get_entry commit_table rollback_table store_server lock_server unlock_server find_table
    create_table send write_ok end_loop roll_back_all commit_all leave_transaction fail_transaction
    fail_if manage_exception on_exception begin_if_idle handle_begin commit_if_ongoing handle_commit
    create_unless handle_create handle_pop handle_top read_operand pop_operands compute require_two
    handle_add handle_sub handle_mul handle_div handle_bye handle_push is_locked set_table_value
    push_entry get_table_value remember_lock acquire set_in set_found require_one handle_set
    unlock_and_throw get_in get_found handle_get respond call_response_function delete_connection
    lift catch gets modify_conn ◌>>=◌ check_message_size type_word append_args encode_as encode
    get_arg push_arg bytes_eq lookup insert Table.mutex_lock Table.mutex_unlock Table.new_table
    Table.lock Table.unlock Table.trylock Table.set Table.get Table.has_key Table.commit_pairs
    Table.commit_changes Table.rollback_changes Server.lock Server.unlock Server.add_table
    Server.find_table ValueStack.is_empty ValueStack.push ValueStack.get_top ValueStack.pop
    ValueStack.get_size
contended_run = (refl, refl, refl, refl, refl, refl)

-- The round is a step of the system, and the transaction has failed.
contended_set-Step :
    Step sys3 (after 0 (heard set_t_k) (with_table contended_set.1 0 unlocked_t) sys3)
contended_set-Step =
    contended 0 1 0 unlocked_t (says (codes "SET t k")) (heard set_t_k) contended_run.0
      (λ e. ground arith) contended_run.1 contended_run.2 refl contended_run.4
