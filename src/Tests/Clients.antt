-- ===== src/Tests/Clients.antt =====
-- Sessions of the three clients with a server that accepts every request.
use computer_systems_assignm.Prelude.{List, ◌≡◌, refl, [], ◌∷◌, ◌++◌, true}
use computer_systems_assignm.Prelude.Int.{ℤ, pos}
use computer_systems_assignm.Exceptions.{ok}
use computer_systems_assignm.Text.{
  Bytes, codes, newline, bytes_eq, is_space, skip_space, take_word, drop_word, getline,
  find_first_of, find_last_of,
}
use computer_systems_assignm.Message.{
  get_num_args, enum_value, ◌is◌, set_message_type, push_arg, clear_args, get_arg, is_letter,
  is_identifier_char, is_valid_identifier, takes_no_argument, takes_one_argument,
  takes_two_arguments, takes_identifier, identifiers_valid, is_valid,
}
use computer_systems_assignm.Serialization.{
  check_message_size, type_word, append_args, encode_as, encode, word_type, substr, push_quoted,
  extract_quoted_text_arg, extract_words, extract_single_word_args, extract_args, require_valid,
  decode_args, decode_typed, decode_text, check_newline, decode,
}
use computer_systems_assignm.Connection.Chat.{Read, line, c_string}
use computer_systems_assignm.Client.{
  Socket, handle_response, handle_possible_ok_response, read_response, send_encoded, request_with,
  request, or_return, if_connected,
}
use computer_systems_assignm.SetValue
use computer_systems_assignm.SetValue.CommandLine.{StoresValue, main-StoresValue}
use computer_systems_assignm.GetValue
use computer_systems_assignm.GetValue.CommandLine.{PrintsValue, main-PrintsValue}
use computer_systems_assignm.IncrValue
use computer_systems_assignm.IncrValue.CommandLine.{IncrementsValue, main-IncrementsValue}

abbrev ok_line : Read
ok_line = line (codes "OK" ++ newline ∷ [])

abbrev text_of : Bytes → Bytes
text_of body = body ++ newline ∷ []

-- The descriptor of every connection.
abbrev local_server : Bytes → Bytes → ℤ
local_server hostname port = pos 3

abbrev before_set_value : Socket
before_set_value = record {
  replies = ok_line ∷ ok_line ∷ ok_line ∷ ok_line ∷ [];
  sent = [];
  printed = [];
}

abbrev after_set_value : Socket
after_set_value = record {
  replies = [];
  sent =
      text_of (codes "LOGIN alice")
      ∷ text_of (codes "PUSH 42")
      ∷ text_of (codes "SET t k")
      ∷ text_of (codes "BYE")
      ∷ [];
  printed = [];
}

set_value_run :
    SetValue.set_value (codes "alice") (codes "t") (codes "k") (codes "42") before_set_value
    ≡ (ok 0, after_set_value)
unfolding enum_value ◌is◌ set_message_type push_arg clear_args get_arg is_letter is_identifier_char
    is_valid_identifier takes_no_argument takes_one_argument takes_two_arguments takes_identifier
    identifiers_valid is_valid check_message_size type_word append_args encode_as encode word_type
    substr push_quoted extract_quoted_text_arg extract_words extract_single_word_args extract_args
    require_valid decode_args decode_typed decode_text check_newline decode bytes_eq is_space
    skip_space take_word drop_word getline find_first_of find_last_of c_string get_num_args
    handle_response handle_possible_ok_response read_response send_encoded request_with request
    or_return SetValue.login_operation SetValue.push_operation SetValue.set_operation
    SetValue.bye_operation SetValue.set_value
set_value_run = refl

abbrev set_value_argv : List Bytes
set_value_argv =
    codes "./set_value"
    ∷ codes "localhost"
    ∷ codes "5000"
    ∷ codes "alice"
    ∷ codes "t"
    ∷ codes "k"
    ∷ codes "42"
    ∷ []

set_value_main :
    SetValue.main set_value_argv local_server before_set_value ≡ (ok 0, after_set_value)
unfolding SetValue.main if_connected
set_value_main = set_value_run

main-StoresValue_example : StoresValue set_value_argv local_server before_set_value after_set_value
main-StoresValue_example =
    (main-StoresValue set_value_argv local_server before_set_value after_set_value).0 set_value_main

abbrev before_get_value : Socket
before_get_value = record {
  replies = ok_line ∷ ok_line ∷ line (text_of (codes "DATA 42")) ∷ ok_line ∷ [];
  sent = [];
  printed = [];
}

abbrev after_get_value : Socket
after_get_value = record {
  replies = [];
  sent =
      text_of (codes "LOGIN alice")
      ∷ text_of (codes "GET t k")
      ∷ text_of (codes "TOP")
      ∷ text_of (codes "BYE")
      ∷ [];
  printed = codes "42" ∷ [];
}

get_value_run :
    GetValue.get_value (codes "alice") (codes "t") (codes "k") before_get_value
    ≡ (ok 0, after_get_value)
unfolding enum_value ◌is◌ set_message_type push_arg clear_args get_arg is_letter is_identifier_char
    is_valid_identifier takes_no_argument takes_one_argument takes_two_arguments takes_identifier
    identifiers_valid is_valid check_message_size type_word append_args encode_as encode word_type
    substr push_quoted extract_quoted_text_arg extract_words extract_single_word_args extract_args
    require_valid decode_args decode_typed decode_text check_newline decode bytes_eq is_space
    skip_space take_word drop_word getline find_first_of find_last_of c_string get_num_args
    handle_response handle_possible_ok_response read_response send_encoded request_with request
    or_return GetValue.handle_top GetValue.handle_top_response GetValue.print_value
    GetValue.login_operation GetValue.get_operation GetValue.top_operation GetValue.bye_operation
    GetValue.get_value
get_value_run = refl

abbrev get_value_argv : List Bytes
get_value_argv =
    codes "./get_value"
    ∷ codes "localhost"
    ∷ codes "5000"
    ∷ codes "alice"
    ∷ codes "t"
    ∷ codes "k"
    ∷ []

get_value_main :
    GetValue.main get_value_argv local_server before_get_value ≡ (ok 0, after_get_value)
unfolding GetValue.main if_connected
get_value_main = get_value_run

main-PrintsValue_example : PrintsValue get_value_argv local_server before_get_value after_get_value
main-PrintsValue_example =
    (main-PrintsValue get_value_argv local_server before_get_value after_get_value).0 get_value_main

abbrev before_incr_value : Socket
before_incr_value = record {
  replies = ok_line ∷ ok_line ∷ ok_line ∷ ok_line ∷ ok_line ∷ ok_line ∷ ok_line ∷ ok_line ∷ [];
  sent = [];
  printed = [];
}

abbrev after_incr_value : Socket
after_incr_value = record {
  replies = [];
  sent =
      text_of (codes "LOGIN alice")
      ∷ text_of (codes "BEGIN")
      ∷ text_of (codes "GET t k")
      ∷ text_of (codes "PUSH 1")
      ∷ text_of (codes "ADD")
      ∷ text_of (codes "SET t k")
      ∷ text_of (codes "COMMIT")
      ∷ text_of (codes "BYE")
      ∷ [];
  printed = [];
}

incr_value_run :
    IncrValue.incr_value true (codes "alice") (codes "t") (codes "k") before_incr_value
    ≡ (ok 0, after_incr_value)
unfolding enum_value ◌is◌ set_message_type push_arg clear_args get_arg is_letter is_identifier_char
    is_valid_identifier takes_no_argument takes_one_argument takes_two_arguments takes_identifier
    identifiers_valid is_valid check_message_size type_word append_args encode_as encode word_type
    substr push_quoted extract_quoted_text_arg extract_words extract_single_word_args extract_args
    require_valid decode_args decode_typed decode_text check_newline decode bytes_eq is_space
    skip_space take_word drop_word getline find_first_of find_last_of c_string get_num_args
    handle_response handle_possible_ok_response read_response send_encoded request_with request
    or_return IncrValue.login_operation IncrValue.begin_operation IncrValue.get_operation
    IncrValue.push_operation IncrValue.add_operation IncrValue.set_operation
    IncrValue.commit_operation IncrValue.handle_bye_response IncrValue.bye_operation
    IncrValue.if_transaction IncrValue.incr_value
incr_value_run = refl

abbrev incr_value_argv : List Bytes
incr_value_argv =
    codes "./incr_value"
    ∷ codes "-t"
    ∷ codes "localhost"
    ∷ codes "5000"
    ∷ codes "alice"
    ∷ codes "t"
    ∷ codes "k"
    ∷ []

incr_value_main :
    IncrValue.main incr_value_argv local_server before_incr_value ≡ (ok 0, after_incr_value)
unfolding IncrValue.main if_connected bytes_eq
incr_value_main = incr_value_run

main-IncrementsValue_example :
    IncrementsValue incr_value_argv local_server before_incr_value after_incr_value
main-IncrementsValue_example =
    (main-IncrementsValue incr_value_argv local_server before_incr_value after_incr_value).0
      incr_value_main
