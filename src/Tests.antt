-- ===== src/Tests.antt =====
-- Runs of the codec on inputs of unit_tests.cpp, and instances of the theorems on the codec, the numbers
-- and the tables.
mod Sessions
mod Clients
mod Operands
mod Logins
mod Values
mod Rounds
mod Increments
mod Sharing
mod Orders
use computer_systems_assignm.Prelude.{
  ◌≡◌, ◌≢◌, refl, ◌↔◌, [], ◌∷◌, ◌++◌, List, Bool, true, false, Option, some, none, arith, All, ℕ,
  length, ◌≤◌, ◌⊎◌,
}
use computer_systems_assignm.Prelude.Int.{negsuc}
use computer_systems_assignm.Exceptions.{
  Outcome, ok, throw, undefined, out_of_range, invalid_argument,
}
use computer_systems_assignm.Text.{
  Bytes, codes, newline, bytes_eq, is_space, skip_space, take_word, drop_word, getline,
  find_first_of, find_last_of,
}
use computer_systems_assignm.Text.Words.{IsWord, HasNoNewline}
use computer_systems_assignm.Text.Decimal.{
  stoi, to_string, in_int, stoi-to_string, stoi-IsIntResult, IsIntResult,
}
use computer_systems_assignm.Message.{
  MessageType, Message, message, empty_message, enum_value, ◌is◌, set_message_type, push_arg,
  clear_args, get_arg, is_letter, is_identifier_char, is_valid_identifier, takes_no_argument,
  takes_one_argument, takes_two_arguments, takes_identifier, identifiers_valid, is_valid, is_blank,
}
use computer_systems_assignm.Message.{assign}
use computer_systems_assignm.Message.Copy.{assign_lem}
use computer_systems_assignm.Message.Validity.{IsAccepted, IsHighPush, is_valid_total}
use computer_systems_assignm.Serialization.{
  max_encoded_len, no_newline, no_quotation, check_message_size, type_word, append_args, encode_as,
  encode, word_type, substr, push_quoted, extract_quoted_text_arg, extract_words,
  extract_single_word_args, extract_args, require_valid, decode_args, decode_typed, decode_text,
  check_newline, decode,
}
use computer_systems_assignm.Serialization.RoundTrip.{is_quoted, decode-encode}
use computer_systems_assignm.Serialization.Quoted.{
  quoted, HasNoQuote, decode-encode_quoted, decode-quoted,
}
use computer_systems_assignm.Serialization.Total.{Decoded, IsHighText, decode-Decoded}
use computer_systems_assignm.Table
use computer_systems_assignm.Table.{Table}
use computer_systems_assignm.Table.Entries.{
  committed, proposed, set_all, last_write, ◌or_else◌, IsSettled, commit-set_all, rollback-set_all,
  get-set, get-has_key,
}

decode_runs :
    (decode (codes "GET lineitems foobar" ++ newline ∷ []) empty_message
      ≡ ok (message MessageType.get (codes "lineitems" ∷ codes "foobar" ∷ [])))
    × (decode (codes "     CREATE   invoices  " ++ newline ∷ []) empty_message
        ≡ ok (message MessageType.create (codes "invoices" ∷ [])))
    × (decode (codes "FAILED \"Something went wrong, shucks!\"" ++ newline ∷ []) empty_message
        ≡ ok (message MessageType.failed (codes "Something went wrong, shucks!" ∷ [])))
    × (decode (codes "PUSH 91025") empty_message ≡ throw no_newline)
unfolding enum_value ◌is◌ set_message_type push_arg clear_args get_arg is_letter is_identifier_char
    is_valid_identifier takes_no_argument takes_one_argument takes_two_arguments takes_identifier
    identifiers_valid is_valid check_message_size type_word append_args encode_as encode word_type
    substr push_quoted extract_quoted_text_arg extract_words extract_single_word_args extract_args
    require_valid decode_args decode_typed decode_text check_newline decode bytes_eq is_space
    skip_space take_word drop_word getline find_first_of find_last_of
decode_runs = (refl, refl, refl, refl)

abbrev set_msg : Message
set_msg = message MessageType.set (codes "t" ∷ codes "k" ∷ [])

encode_run : encode set_msg ≡ ok (codes "SET t k" ++ newline ∷ [])
unfolding enum_value ◌is◌ set_message_type push_arg clear_args get_arg is_letter is_identifier_char
    is_valid_identifier takes_no_argument takes_one_argument takes_two_arguments takes_identifier
    identifiers_valid is_valid check_message_size type_word append_args encode_as encode word_type
    substr push_quoted extract_quoted_text_arg extract_words extract_single_word_args extract_args
    require_valid decode_args decode_typed decode_text check_newline decode bytes_eq is_space
    skip_space take_word drop_word getline find_first_of find_last_of
encode_run = refl

stoi_runs :
    (stoi (codes " -12x") ≡ ok (negsuc 11))
    × (stoi (codes "2147483648") ≡ throw out_of_range)
    × (stoi (codes "x1") ≡ throw invalid_argument)
    × (to_string (negsuc 99) ≡ codes "-100")
unfolding stoi to_string skip_space is_space
stoi_runs = (refl, refl, refl, refl)

set_msg_words : All IsWord set_msg.args
unfolding is_space
set_msg_words = (((λ e. ground arith), (refl, tt)), (((λ e. ground arith), (refl, tt)), tt))

set_msg-IsAccepted : IsAccepted set_msg
unfolding is_letter is_identifier_char
set_msg-IsAccepted = ((refl, tt), (refl, tt))

in_int_run : in_int (negsuc 99) ≡ true
in_int_run = refl

quoted_types : (is_quoted set_msg.message_type ≡ false) × (is_quoted MessageType.error ≡ true)
unfolding enum_value ◌is◌
quoted_types = (refl, refl)

decode-encode_example : decode (codes "SET t k" ++ newline ∷ []) empty_message ≡ ok set_msg
decode-encode_example =
    decode-encode set_msg empty_message (codes "SET t k" ++ newline ∷ []) set_msg_words
      quoted_types.0 set_msg-IsAccepted encode_run

decode-Decoded_example :
    Decoded (IsHighText (codes "SET 1t")) (decode (codes "SET 1t") empty_message)
decode-Decoded_example = decode-Decoded (codes "SET 1t") empty_message (λ e. ground arith)

abbrev failed_msg : Message
failed_msg = message MessageType.failed (codes "No" ∷ [])

abbrev failed_text : Bytes
failed_text = codes "FAILED No" ++ newline ∷ []

failed_run :
    (is_quoted failed_msg.message_type ≡ true)
    × All HasNoQuote failed_msg.args
    × (encode failed_msg ≡ ok failed_text)
unfolding enum_value ◌is◌ set_message_type push_arg clear_args get_arg is_letter is_identifier_char
    is_valid_identifier takes_no_argument takes_one_argument takes_two_arguments takes_identifier
    identifiers_valid is_valid check_message_size type_word append_args encode_as encode word_type
    substr push_quoted extract_quoted_text_arg extract_words extract_single_word_args extract_args
    require_valid decode_args decode_typed decode_text check_newline decode bytes_eq is_space
    skip_space take_word drop_word getline find_first_of find_last_of
failed_run = (refl, (((λ e. ground arith), ((λ e. ground arith), tt)), tt), refl)

decode-encode_quoted_example : decode failed_text empty_message ≡ throw no_quotation
decode-encode_quoted_example =
    decode-encode_quoted failed_msg empty_message failed_text failed_run.0 failed_run.1 failed_run.2

quoted_run :
    IsWord (codes "ERROR")
    × (word_type (codes "ERROR") ≡ some MessageType.error)
    × HasNoNewline (codes "a b")
    × (length (codes "ERROR" ++ (quoted (codes "a b") ++ newline ∷ [])) ≤ max_encoded_len)
unfolding enum_value ◌is◌ set_message_type push_arg clear_args get_arg is_letter is_identifier_char
    is_valid_identifier takes_no_argument takes_one_argument takes_two_arguments takes_identifier
    identifiers_valid is_valid check_message_size type_word append_args encode_as encode word_type
    substr push_quoted extract_quoted_text_arg extract_words extract_single_word_args extract_args
    require_valid decode_args decode_typed decode_text check_newline decode bytes_eq is_space
    skip_space take_word drop_word getline find_first_of find_last_of
quoted_run = (
  ((λ e. ground arith), (refl, (refl, (refl, (refl, (refl, tt)))))),
  refl,
  ((λ e. ground arith), ((λ e. ground arith), ((λ e. ground arith), tt))),
  ground arith,
)

decode-quoted_example :
    decode (codes "ERROR" ++ (quoted (codes "a b") ++ newline ∷ [])) empty_message
    ≡ ok (message MessageType.error (codes "a b" ∷ []))
decode-quoted_example =
    decode-quoted MessageType.error (codes "ERROR") (codes "a b") empty_message quoted_types.1
      quoted_run.0 quoted_run.1 quoted_run.2 quoted_run.3

-- A value in UTF-8 that begins with a letter outside ASCII.
high_run : decode (codes "PUSH " ++ 195 ∷ 169 ∷ newline ∷ []) empty_message ≡ undefined
unfolding enum_value ◌is◌ set_message_type push_arg clear_args takes_no_argument takes_one_argument
    takes_two_arguments takes_identifier identifiers_valid is_blank is_valid check_message_size
    word_type extract_words extract_single_word_args extract_args require_valid decode_args
    decode_typed decode_text check_newline decode bytes_eq is_space skip_space take_word drop_word
    getline
high_run = refl

is_valid_total_example :
    ((b : Bool) × (is_valid set_msg ≡ ok b)) ⊎ ((is_valid set_msg ≡ undefined) × IsHighPush set_msg)
is_valid_total_example = is_valid_total set_msg ((λ e. ground arith), ((λ e. ground arith), tt))

stoi-to_string_example : stoi (to_string (negsuc 99)) ≡ ok (negsuc 99)
stoi-to_string_example = stoi-to_string (negsuc 99) in_int_run

stoi-IsIntResult_example : IsIntResult (stoi (codes "12a"))
stoi-IsIntResult_example = stoi-IsIntResult (codes "12a")

abbrev a_table : Table
a_table = record {
  name = codes "t";
  key_value_pairs = (codes "k", codes "1") ∷ [];
  proposed_pairs = (codes "k", codes "1") ∷ [];
  mutex = none;
}

abbrev two_writes : List (Bytes × Bytes)
two_writes = (codes "k", codes "2") ∷ (codes "j", codes "3") ∷ []

get-set_example :
    Table.get (codes "k") (Table.set (codes "k") (codes "2") a_table)
    ≡ ok (elim (committed a_table (codes "k")) [ none ↦ codes "2" | some old ↦ old ])
get-set_example = get-set (codes "k") (codes "2") a_table

get-has_key_example :
    (Table.has_key (codes "k") a_table ≡ true)
    ↔ ((value : Bytes) × (Table.get (codes "k") a_table ≡ ok value))
get-has_key_example = get-has_key (codes "k") a_table

a_table-IsSettled : IsSettled a_table
a_table-IsSettled = λ key value e. e

commit-set_all_example :
    let t' = Table.commit_changes (set_all two_writes a_table) in
    ((key : Bytes) → committed t' key ≡ (last_write two_writes key or_else committed a_table key))
    × IsSettled t'
commit-set_all_example = commit-set_all two_writes a_table a_table-IsSettled

rollback-set_all_example :
    let t' = Table.rollback_changes (set_all two_writes a_table) in
    ((key : Bytes) → committed t' key ≡ committed a_table key)
    × ((key : Bytes) → proposed t' key ≡ none)
    × IsSettled t'
rollback-set_all_example = rollback-set_all two_writes a_table

assign_lem_example : assign empty_message set_msg ≡ ok set_msg
assign_lem_example = assign_lem empty_message set_msg
