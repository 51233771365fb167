-- ===== src/Tests/Sessions/Isolation.antt =====
-- Client 0, whose transaction has set a key, sends SET again with nothing on its stack; or it asks for a key
-- that is not there.
use computer_systems_assignm.Prelude.{◌≡◌, refl, [], ◌∷◌, true, false, some, arith, ◌++◌}
use computer_systems_assignm.Exceptions.{ok}
use computer_systems_assignm.Text.{
  newline, codes, bytes_eq, skip_space, take_word, drop_word, getline, find_first_of, find_last_of,
}
use computer_systems_assignm.Dict.{lookup, insert}
use computer_systems_assignm.Message.{
  MessageType, message, get_arg, push_arg, is_letter, is_identifier_char, get_num_args, enum_value,
  ◌is◌, set_message_type, clear_args, is_valid_identifier, takes_no_argument, takes_one_argument,
  takes_two_arguments, takes_identifier, identifiers_valid, is_valid,
}
use computer_systems_assignm.Text.{is_space}
use computer_systems_assignm.Serialization.{
  check_message_size, type_word, append_args, encode_as, encode, word_type, substr, push_quoted,
  extract_quoted_text_arg, extract_words, extract_single_word_args, extract_args, require_valid,
  decode_args, decode_typed, decode_text, check_newline, decode,
}
use computer_systems_assignm.Table
use computer_systems_assignm.Table.{Table}
use computer_systems_assignm.Server
use computer_systems_assignm.ValueStack
use computer_systems_assignm.Connection.Calls.{
  push_value, top_value, pop_value, stack_size, deref, store_table, this_client, lock_table,
  unlock_table, trylock_table, set_entry, has_entry, get_entry, commit_table, rollback_table,
  store_server, lock_server, unlock_server, find_table, create_table, send, write_ok, end_loop,
}
use computer_systems_assignm.Connection.Transactions.{
  roll_back_all, commit_all, leave_transaction, fail_transaction, fail_if, manage_exception,
  on_exception, begin_if_idle, handle_begin, commit_if_ongoing, handle_commit,
}
use computer_systems_assignm.Connection.Handlers.{
  create_unless, handle_create, handle_pop, handle_top, read_operand, pop_operands, compute,
  require_two, handle_add, handle_sub, handle_mul, handle_div, handle_bye, handle_push, is_locked,
  set_table_value, push_entry, get_table_value, remember_lock, acquire, set_in, set_found,
  require_one, handle_set, unlock_and_throw, get_in, get_found, handle_get, respond,
  call_response_function,
}
use computer_systems_assignm.Connection.Chat.{
  delete_connection, c_string, handle_login, recover_login, handle_decoded, handle_text, chat_round,
  close_fd, chat_loop, chat_with_client, client_worker,
}
use computer_systems_assignm.Connection.State.{lift, catch, gets, modify_conn, ◌>>=◌}
use computer_systems_assignm.System.{view, round, new_system-Good, Reachable-Good}
use computer_systems_assignm.Connection.Preserves.Isolation.{SameCommitted}
use computer_systems_assignm.Connection.Preserves.Rounds.{IsCommit, chat_round-SameCommitted}
use computer_systems_assignm.Connection.Values.Missing.{call_response_function-missing}
use computer_systems_assignm.Exceptions.{undefined}
use computer_systems_assignm.System.Isolation.{HasCommitted, locked-HasCommitted}
use computer_systems_assignm.Tests.Sessions.{
  sys4, sys4_run, sys4-Reachable, set_t_k, table_t, says, heard, answer, served, IsAnswered,
}

failed_set :
    IsAnswered 0 (codes "SET t k") set_t_k sys4
    × ((sys4.conns 0).in_transaction ≡ true)
    × (decode (c_string (codes "SET t k" ++ newline ∷ [])) (sys4.locals 0).client_msg ≡ ok set_t_k)
unfolding get_num_args set_message_type clear_args is_letter is_identifier_char is_valid_identifier
    takes_no_argument takes_one_argument takes_two_arguments takes_identifier identifiers_valid
    is_valid word_type substr push_quoted extract_quoted_text_arg extract_words
    extract_single_word_args extract_args require_valid decode_args decode_typed decode_text
    check_newline decode is_space skip_space take_word drop_word getline find_first_of find_last_of
    c_string enum_value ◌is◌ handle_login recover_login handle_decoded handle_text chat_round
    close_fd chat_loop chat_with_client client_worker push_value top_value pop_value stack_size
    deref store_table this_client lock_table unlock_table trylock_table set_entry has_entry
    get_entry commit_table rollback_table store_server lock_server unlock_server find_table
    create_table send write_ok end_loop roll_back_all commit_all leave_transaction fail_transaction
    fail_if manage_exception on_exception begin_if_idle handle_begin commit_if_ongoing handle_commit
    create_unless handle_create handle_pop handle_top read_operand pop_operands compute require_two
    handle_add handle_sub handle_mul handle_div handle_bye handle_push is_locked set_table_value
    push_entry get_table_value remember_lock acquire set_in set_found require_one handle_set
    unlock_and_throw get_in get_found handle_get respond call_response_function delete_connection
    lift catch gets modify_conn ◌>>=◌ check_message_size type_word append_args encode_as encode
    get_arg push_arg bytes_eq lookup insert Table.mutex_lock Table.mutex_unlock Table.new_table
    Table.lock Table.unlock Table.trylock Table.set Table.get Table.has_key Table.commit_pairs
    Table.commit_changes Table.rollback_changes Server.lock Server.unlock Server.add_table
    Server.find_table ValueStack.is_empty ValueStack.push ValueStack.get_top ValueStack.pop
    ValueStack.get_size
failed_set = ((refl, refl), refl, refl)

is_no_commit : IsCommit (says (codes "SET t k")) (sys4.locals 0) → ⊥
is_no_commit c = ground (arith, failed_set.2, c.1, c.2)

locked-HasCommitted_example :
    HasCommitted (served 0 (codes "SET t k") set_t_k sys4).tables 0 table_t
locked-HasCommitted_example =
    locked-HasCommitted sys4 sys4-Reachable 0 0 table_t sys4_run refl
      (round 0 (says (codes "SET t k")) (heard set_t_k) failed_set.0.0 failed_set.0.1)
      (λ c. is_no_commit c.1)

chat_round-SameCommitted_example : SameCommitted (view 0 sys4) (answer 0 (codes "SET t k") sys4).1
chat_round-SameCommitted_example =
    chat_round-SameCommitted (view 0 sys4)
      ((Reachable-Good new_system-Good sys4-Reachable).ready 0).owns.fresh failed_set.1
      (says (codes "SET t k")) (sys4.locals 0) is_no_commit

missing_x :
    (Server.find_table (codes "t") sys4.server ≡ some 0)
    × ((sys4.conns 0).client ≡ 0)
    × (Table.has_key (codes "x") table_t ≡ false)
unfolding get_num_args set_message_type clear_args is_letter is_identifier_char is_valid_identifier
    takes_no_argument takes_one_argument takes_two_arguments takes_identifier identifiers_valid
    is_valid word_type substr push_quoted extract_quoted_text_arg extract_words
    extract_single_word_args extract_args require_valid decode_args decode_typed decode_text
    check_newline decode is_space skip_space take_word drop_word getline find_first_of find_last_of
    c_string enum_value ◌is◌ handle_login recover_login handle_decoded handle_text chat_round
    close_fd chat_loop chat_with_client client_worker push_value top_value pop_value stack_size
    deref store_table this_client lock_table unlock_table trylock_table set_entry has_entry
    get_entry commit_table rollback_table store_server lock_server unlock_server find_table
    create_table send write_ok end_loop roll_back_all commit_all leave_transaction fail_transaction
    fail_if manage_exception on_exception begin_if_idle handle_begin commit_if_ongoing handle_commit
    create_unless handle_create handle_pop handle_top read_operand pop_operands compute require_two
    handle_add handle_sub handle_mul handle_div handle_bye handle_push is_locked set_table_value
    push_entry get_table_value remember_lock acquire set_in set_found require_one handle_set
    unlock_and_throw get_in get_found handle_get respond call_response_function delete_connection
    lift catch gets modify_conn ◌>>=◌ check_message_size type_word append_args encode_as encode
    get_arg push_arg bytes_eq lookup insert Table.mutex_lock Table.mutex_unlock Table.new_table
    Table.lock Table.unlock Table.trylock Table.set Table.get Table.has_key Table.commit_pairs
    Table.commit_changes Table.rollback_changes Server.lock Server.unlock Server.add_table
    Server.find_table ValueStack.is_empty ValueStack.push ValueStack.get_top ValueStack.pop
    ValueStack.get_size
missing_x = (refl, refl, refl)

call_response_function-missing_example :
    (call_response_function (message MessageType.get (codes "t" ∷ codes "x" ∷ [])) (view 0 sys4)).0
    ≡ undefined
call_response_function-missing_example =
    call_response_function-missing (view 0 sys4) 0 table_t (codes "t") (codes "x") missing_x.0
      sys4_run ((Reachable-Good new_system-Good sys4-Reachable).ready 0) missing_x.2
      (λ j e. ground (arith, missing_x.1))
