-- ===== src/Message.antt =====
-- message.h and message.cpp: the message types and the class Message.
-- A constructor of MessageType is written behind the type, as `MessageType.login`; DATA is `data_msg`
-- here. Reading `m_args[i]` past the end is undefined, reading by `at` throws.
pub mod Validity
pub mod Protocol
pub mod Copy
use computer_systems_assignm.Prelude.{
  ℕ, zero, suc, Bool, true, false, not, ◌&&◌, ◌||◌, List, [], ◌∷◌, ◌++◌, Option, leb, ltb, ◌==◌,
  if◌then◌else◌, length, get_elem?, all_of,
}
use computer_systems_assignm.Exceptions.{Outcome, out_of_range, ◌>>=◌}
use computer_systems_assignm.Text.{Bytes, is_space}

pub data MessageType : Type 0 where
  none : MessageType
  login create push pop top set get add sub mul div begin commit bye : MessageType
  ok failed error data_msg : MessageType

-- The value of the enumerator.
unfoldable pub enum_value : MessageType → ℕ
enum_value MessageType.none = 0
enum_value MessageType.login = 1
enum_value MessageType.create = 2
enum_value MessageType.push = 3
enum_value MessageType.pop = 4
enum_value MessageType.top = 5
enum_value MessageType.set = 6
enum_value MessageType.get = 7
enum_value MessageType.add = 8
enum_value MessageType.sub = 9
enum_value MessageType.mul = 10
enum_value MessageType.div = 11
enum_value MessageType.begin = 12
enum_value MessageType.commit = 13
enum_value MessageType.bye = 14
enum_value MessageType.ok = 15
enum_value MessageType.failed = 16
enum_value MessageType.error = 17
enum_value MessageType.data_msg = 18

infix 50 ◌is◌
unfoldable pub ◌is◌ : MessageType → MessageType → Bool
unfolding enum_value
a is b = enum_value a == enum_value b

pub record Message : Type 0 where
  pub message_type : MessageType
  pub args : List Bytes

-- Message()
abbrev pub empty_message : Message
empty_message = record { message_type = MessageType.none; args = [] }

-- Message(message_type, args)
abbrev pub message : MessageType → List Bytes → Message
message t args = record { message_type = t; args = args }

unfoldable pub set_message_type : Message → MessageType → Message
set_message_type m t = record m { message_type = t }

unfoldable pub push_arg : Message → Bytes → Message
push_arg m arg = record m { args = m.args ++ arg ∷ [] }

unfoldable pub clear_args : Message → Message
clear_args m = record m { args = [] }

unfoldable pub get_num_args : Message → ℕ
get_num_args m = length m.args

-- m_args.at(i)
unfoldable pub get_arg : Message → ℕ → Outcome Bytes
get_arg m i = elim (get_elem? m.args i) [
  | Option.none ↦ Outcome.throw out_of_range
  | Option.some a ↦ Outcome.ok a
]

-- m_args[i]
unfoldable pub arg_at : List Bytes → ℕ → Outcome Bytes
arg_at args i = elim (get_elem? args i) [
  | Option.none ↦ Outcome.undefined
  | Option.some a ↦ Outcome.ok a
]

unfoldable pub get_username : Message → Outcome Bytes
unfolding arg_at
get_username m = arg_at m.args 0

unfoldable pub get_table : Message → Outcome Bytes
unfolding arg_at
get_table m = arg_at m.args 0

unfoldable pub get_key : Message → Outcome Bytes
unfolding arg_at
get_key m = arg_at m.args 1

unfoldable pub get_value : Message → Outcome Bytes
unfolding arg_at
get_value m = arg_at m.args 0

unfoldable pub get_quoted_text : Message → Outcome Bytes
unfolding arg_at
get_quoted_text m = arg_at m.args 0

-- The loop of operator= from index `i`, with `n` arguments left to copy.
unfoldable pub copy_args : Message → ℕ → ℕ → Outcome (List Bytes)
copy_args rhs i zero = Outcome.ok []
copy_args rhs i (suc n) = do
  arg ← get_arg rhs i
  rest ← copy_args rhs (suc i) n
  Outcome.ok (arg ∷ rest)

-- operator=
unfoldable pub assign : Message → Message → Outcome Message
assign m rhs = do
  args ← copy_args rhs 0 (get_num_args rhs)
  Outcome.ok (record m { message_type = rhs.message_type; args = args })

unfoldable pub is_letter : ℕ → Bool
is_letter c = (leb b'A' c && leb c b'Z') || (leb b'a' c && leb c b'z')

unfoldable pub is_identifier_char : ℕ → Bool
unfolding is_letter
is_identifier_char c = is_letter c || (leb b'0' c && leb c b'9') || c == b'_'

-- arg.at(0) throws on an empty text.
unfoldable pub is_valid_identifier : Bytes → Outcome Bool
unfolding is_identifier_char
is_valid_identifier [] = Outcome.throw out_of_range
is_valid_identifier (c ∷ rest) = Outcome.ok (is_letter c && all_of is_identifier_char rest)

unfoldable pub takes_no_argument : MessageType → Bool
unfolding ◌is◌
takes_no_argument t =
    t is MessageType.pop
    || t is MessageType.top
    || t is MessageType.add
    || t is MessageType.mul
    || t is MessageType.sub
    || t is MessageType.div
    || t is MessageType.begin
    || t is MessageType.commit
    || t is MessageType.bye

unfoldable pub takes_one_argument : MessageType → Bool
unfolding ◌is◌
takes_one_argument t =
    t is MessageType.login
    || t is MessageType.create
    || t is MessageType.push
    || t is MessageType.data_msg

unfoldable pub takes_two_arguments : MessageType → Bool
unfolding ◌is◌
takes_two_arguments t = t is MessageType.set || t is MessageType.get

unfoldable pub takes_identifier : MessageType → Bool
unfolding ◌is◌
takes_identifier t =
    t is MessageType.login
    || t is MessageType.create
    || t is MessageType.set
    || t is MessageType.get

-- What `is_valid` asks of the second argument, given its answer on the first.
second_valid : MessageType → List Bytes → Bool → Outcome Bool
unfolding is_valid_identifier takes_two_arguments arg_at
second_valid t args first_valid =
    if not first_valid
    then Outcome.ok false
    else if takes_two_arguments t
    then arg_at args 1 >>= is_valid_identifier
    else Outcome.ok true

-- The branch of `is_valid` for the requests whose first argument is an identifier.
unfoldable pub identifiers_valid : MessageType → List Bytes → Outcome Bool
unfolding second_valid
identifiers_valid t args = do
  first_valid ← is_valid_identifier (← arg_at args 0)
  second_valid t args first_valid

-- std::all_of with isspace, which is undefined for a negative char: for a byte of 128 or more.
unfoldable pub is_blank : Bytes → Outcome Bool
is_blank [] = Outcome.ok true
is_blank (c ∷ s) =
    let rest = is_blank s in
    if ltb c 128 then (if is_space c then rest else Outcome.ok false) else Outcome.undefined

unfoldable pub is_valid : Message → Outcome Bool
unfolding takes_no_argument takes_one_argument takes_two_arguments takes_identifier
    identifiers_valid arg_at is_blank
is_valid m =
    let t = m.message_type in
    if takes_no_argument t && not (length m.args == 0)
    then Outcome.ok false
    else if takes_one_argument t && not (length m.args == 1)
    then Outcome.ok false
    else if takes_two_arguments t && not (length m.args == 2)
    then Outcome.ok false
    else if takes_identifier t
    then identifiers_valid t m.args
    else if t is MessageType.push
    then (do value ← arg_at m.args 0; blank ← is_blank value; Outcome.ok (not blank))
    else Outcome.ok true
