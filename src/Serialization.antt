-- ===== src/Serialization.antt =====
-- message_serialization.h and message_serialization.cpp: encoding and decoding of messages.
pub mod RoundTrip
pub mod Total
pub mod Quoted
pub mod Sizes
use computer_systems_assignm.Prelude.{
  ℕ, zero, suc, ◌+◌, ◌-◌, ◌%◌, ◌^◌, ◌||◌, List, [], ◌∷◌, ◌++◌, Option, none, some, ltb, ◌==◌,
  if◌then◌else◌, length, take, drop, is_nil, last?,
}
use computer_systems_assignm.Exceptions.{
  Outcome, ok, throw, undefined, Exception, invalid_message, out_of_range, ◌>>=◌, ◌>>◌,
}
use computer_systems_assignm.Text.{
  Bytes, codes, bytes_eq, newline, space, skip_space, take_word, drop_word, getline, find_first_of,
  find_last_of,
}
use computer_systems_assignm.Message.{
  MessageType, ◌is◌, Message, set_message_type, push_arg, clear_args, is_valid,
}

-- Message::MAX_ENCODED_LEN
abbrev pub max_encoded_len : ℕ
max_encoded_len = 1024

abbrev pub too_long : Exception
too_long = invalid_message (codes "Message is too long.")

abbrev pub no_type : Exception
no_type = invalid_message (codes "Message must have a type.")

abbrev pub no_newline : Exception
no_newline = invalid_message (codes "Encoded message is missing a newline.")

abbrev pub not_valid : Exception
not_valid = invalid_message (codes "Message is not valid.")

abbrev pub no_quotation : Exception
no_quotation =
    invalid_message
      (codes "Message whose type requires a quoted text argument does not contain a quotation.")

unfoldable pub check_message_size : Bytes → Outcome (Unit {0})
check_message_size msg = if ltb max_encoded_len (length msg) then throw too_long else ok tt

-- The switch of `encode`.
unfoldable pub type_word : MessageType → Option Bytes
type_word MessageType.none = none
type_word MessageType.login = some (codes "LOGIN")
type_word MessageType.create = some (codes "CREATE")
type_word MessageType.push = some (codes "PUSH")
type_word MessageType.pop = some (codes "POP")
type_word MessageType.top = some (codes "TOP")
type_word MessageType.set = some (codes "SET")
type_word MessageType.get = some (codes "GET")
type_word MessageType.add = some (codes "ADD")
type_word MessageType.sub = some (codes "SUB")
type_word MessageType.mul = some (codes "MUL")
type_word MessageType.div = some (codes "DIV")
type_word MessageType.begin = some (codes "BEGIN")
type_word MessageType.commit = some (codes "COMMIT")
type_word MessageType.bye = some (codes "BYE")
type_word MessageType.ok = some (codes "OK")
type_word MessageType.failed = some (codes "FAILED")
type_word MessageType.error = some (codes "ERROR")
type_word MessageType.data_msg = some (codes "DATA")

-- The loop that appends a blank and an argument.
unfoldable pub append_args : Bytes → List Bytes → Bytes
append_args encoded [] = encoded
append_args encoded (arg ∷ args) = append_args ((encoded ++ space ∷ []) ++ arg) args

unfoldable pub encode_as : Option Bytes → List Bytes → Outcome Bytes
encode_as none args = throw no_type
encode_as (some word) args =
    let encoded = append_args word args ++ newline ∷ [] in check_message_size encoded >> ok encoded

-- The encoded text; what the out parameter holds after a throw is never read.
unfoldable pub encode : Message → Outcome Bytes
encode msg = encode_as (type_word msg.message_type) msg.args

-- The chain of tests of `decode` on the first word.
unfoldable pub word_type : Bytes → Option MessageType
word_type w =
    if bytes_eq w (codes "BEGIN")
    then some MessageType.begin
    else if bytes_eq w (codes "COMMIT")
    then some MessageType.commit
    else if bytes_eq w (codes "POP")
    then some MessageType.pop
    else if bytes_eq w (codes "TOP")
    then some MessageType.top
    else if bytes_eq w (codes "ADD")
    then some MessageType.add
    else if bytes_eq w (codes "SUB")
    then some MessageType.sub
    else if bytes_eq w (codes "MUL")
    then some MessageType.mul
    else if bytes_eq w (codes "DIV")
    then some MessageType.div
    else if bytes_eq w (codes "BYE")
    then some MessageType.bye
    else if bytes_eq w (codes "OK")
    then some MessageType.ok
    else if bytes_eq w (codes "FAILED")
    then some MessageType.failed
    else if bytes_eq w (codes "ERROR")
    then some MessageType.error
    else if bytes_eq w (codes "LOGIN")
    then some MessageType.login
    else if bytes_eq w (codes "CREATE")
    then some MessageType.create
    else if bytes_eq w (codes "PUSH")
    then some MessageType.push
    else if bytes_eq w (codes "SET")
    then some MessageType.set
    else if bytes_eq w (codes "GET")
    then some MessageType.get
    else if bytes_eq w (codes "DATA")
    then some MessageType.data_msg
    else none

-- std::string::substr, which throws on a start past the end
unfoldable pub substr : Bytes → ℕ → ℕ → Outcome Bytes
substr s start count =
    if ltb (length s) start then throw out_of_range else ok (take count (drop start s))

abbrev pub quote : ℕ
quote = b'"'

-- `close - open - 1` is a 64-bit size_t: with a single quotation mark it wraps around to npos.
abbrev pub quoted_length : ℕ → ℕ → ℕ
quoted_length open_ind close_ind = (close_ind + 2 ^ 64 - open_ind - 1) % 2 ^ 64

-- Both marks have to be there; `none` is npos.
unfoldable pub push_quoted : Message → Bytes → Option ℕ → Option ℕ → Outcome Message
push_quoted msg text (some open_ind) (some close_ind) = do
  quoted ← substr text (suc open_ind) (quoted_length open_ind close_ind)
  ok (push_arg msg quoted)
push_quoted msg text open_ind close_ind = throw no_quotation

unfoldable pub extract_quoted_text_arg : Message → Bytes → Outcome Message
extract_quoted_text_arg msg text =
    push_quoted msg text (find_first_of quote text) (find_last_of quote text)

-- while (ss >> arg) push_arg(arg); the fuel bounds the number of words.
unfoldable pub extract_words : ℕ → Message → Bytes → Message
extract_words zero msg s = msg
extract_words (suc fuel) msg s =
    let rest = skip_space s in
    let more = extract_words fuel (push_arg msg (take_word rest)) (drop_word rest) in
    if is_nil rest then msg else more

-- A text of n characters has at most n words.
unfoldable pub extract_single_word_args : Message → Bytes → Message
extract_single_word_args msg args_list = extract_words (length args_list) msg args_list

unfoldable pub extract_args : Message → Bytes → Outcome Message
extract_args msg remaining_text =
    if msg.message_type is MessageType.failed || msg.message_type is MessageType.error
    then extract_quoted_text_arg msg remaining_text
    else ok (extract_single_word_args msg remaining_text)

unfoldable pub require_valid : Message → Outcome Message
require_valid msg = do valid ← is_valid msg; if valid then ok msg else throw not_valid

-- What `decode` does once the type is known: `remaining_text` is the rest of the first line.
unfoldable pub decode_args : Message → MessageType → Bytes → Outcome Message
decode_args msg t remaining_text =
    extract_args (clear_args (set_message_type msg t)) remaining_text >>= require_valid

unfoldable pub decode_typed : Option MessageType → Message → Bytes → Outcome Message
decode_typed none msg remaining_text = throw no_type
decode_typed (some t) msg remaining_text = decode_args msg t remaining_text

-- ss >> m_type, the tests on it, and the rest of the line
unfoldable pub decode_text : Bytes → Message → Outcome Message
decode_text encoded msg =
    let text = skip_space encoded in
    decode_typed (word_type (take_word text)) msg (getline (drop_word text))

-- `back()` of an empty string is undefined.
unfoldable pub check_newline : Bytes → Outcome (Unit {0})
check_newline encoded = elim (last? encoded) [
  | none ↦ undefined
  | some c ↦ if c == newline then ok tt else throw no_newline
]

-- `decode` overwrites the type and the arguments of `msg`; after a throw its callers do not read it.
unfoldable pub decode : Bytes → Message → Outcome Message
decode encoded msg = do check_message_size encoded; check_newline encoded; decode_text encoded msg
