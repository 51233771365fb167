-- ===== src/Tests/Sharing.antt =====
-- set_value and get_value for the key k of the table t.
use computer_systems_assignm.Prelude.{ℕ, ◌≡◌, refl, List, [], ◌∷◌, ◌++◌, Option, none, some, arith}
use computer_systems_assignm.Exceptions.{ok}
use computer_systems_assignm.Text.{Bytes, codes, newline, is_space, bytes_eq}
use computer_systems_assignm.Dict.{lookup}
use computer_systems_assignm.Message.{◌is◌, enum_value, is_blank, is_letter, is_identifier_char}
use computer_systems_assignm.Serialization.{
  encode, encode_as, type_word, append_args, check_message_size,
}
use computer_systems_assignm.Table.{Table}
use computer_systems_assignm.Table.Entries.{IsSettled}
use computer_systems_assignm.Server
use computer_systems_assignm.Server.{Server}
use computer_systems_assignm.Connection.State.{connected, State}
use computer_systems_assignm.Connection.Chat.{chat_with_client}
use computer_systems_assignm.Client.Answers.{lines, Requests, texts}
use computer_systems_assignm.SetValue.{set_value}
use computer_systems_assignm.SetValue.Session.{session}
use computer_systems_assignm.GetValue.{get_value}
use computer_systems_assignm.GetValue.OnServer.{get_session}
use computer_systems_assignm.GetValue.AfterSet.{get_value-set_value}

abbrev old_t : Table
old_t = record {
  name = codes "t";
  mutex = none;
  key_value_pairs = (codes "k", codes "x") ∷ [];
  proposed_pairs = [];
}

abbrev one_table : Server
one_table = record Server.new_server { table_names = (codes "t", 0) ∷ [] }

abbrev tables : ℕ → Option Table
tables p = some old_t

old_t-found : Server.find_table (codes "t") one_table ≡ some 0
unfolding Server.find_table lookup bytes_eq
old_t-found = refl

old_t-IsSettled : IsSettled old_t
unfolding lookup
old_t-IsSettled key value e = ground arith

set_requests : Requests (session (codes "a") (codes "t") (codes "k") (codes "5"))
unfolding encode encode_as type_word append_args check_message_size is_space is_blank is_letter
    is_identifier_char ◌is◌ enum_value
set_requests = (
  codes "LOGIN a" ++ newline ∷ [],
  record {
    encoded = refl;
    words = ((λ e. ground arith, (refl, tt)), tt);
    conforms = (refl, tt);
    no_text = refl;
    no_nul = refl;
    short = omega arith;
  },
  (
    codes "PUSH 5" ++ newline ∷ [],
    record {
      encoded = refl;
      words = ((λ e. ground arith, (refl, tt)), tt);
      conforms = refl;
      no_text = refl;
      no_nul = refl;
      short = omega arith;
    },
    (
      codes "SET t k" ++ newline ∷ [],
      record {
        encoded = refl;
        words = ((λ e. ground arith, (refl, tt)), ((λ e. ground arith, (refl, tt)), tt));
        conforms = ((refl, tt), (refl, tt));
        no_text = refl;
        no_nul = refl;
        short = omega arith;
      },
      (
        codes "BYE" ++ newline ∷ [],
        record {
          encoded = refl;
          words = tt;
          conforms = tt;
          no_text = refl;
          no_nul = refl;
          short = omega arith;
        },
        tt,
      ),
    ),
  ),
)

get_requests : Requests (get_session (codes "t") (codes "k") (codes "b"))
unfolding encode encode_as type_word append_args check_message_size is_space is_blank is_letter
    is_identifier_char ◌is◌ enum_value
get_requests = (
  codes "LOGIN b" ++ newline ∷ [],
  record {
    encoded = refl;
    words = ((λ e. ground arith, (refl, tt)), tt);
    conforms = (refl, tt);
    no_text = refl;
    no_nul = refl;
    short = omega arith;
  },
  (
    codes "GET t k" ++ newline ∷ [],
    record {
      encoded = refl;
      words = ((λ e. ground arith, (refl, tt)), ((λ e. ground arith, (refl, tt)), tt));
      conforms = ((refl, tt), (refl, tt));
      no_text = refl;
      no_nul = refl;
      short = omega arith;
    },
    (
      codes "TOP" ++ newline ∷ [],
      record {
        encoded = refl;
        words = tt;
        conforms = tt;
        no_text = refl;
        no_nul = refl;
        short = omega arith;
      },
      (
        codes "BYE" ++ newline ∷ [],
        record {
          encoded = refl;
          words = tt;
          conforms = tt;
          no_text = refl;
          no_nul = refl;
          short = omega arith;
        },
        tt,
      ),
    ),
  ),
)

abbrev set_texts : List Bytes
set_texts = texts (session (codes "a") (codes "t") (codes "k") (codes "5")) set_requests

abbrev get_texts : List Bytes
get_texts = texts (get_session (codes "t") (codes "k") (codes "b")) get_requests

get_value-set_value_example :
    (s : State) × (s' : State) × (chat_with_client
        (lines set_texts)
        (connected one_table tables 1 0)
      ≡ (ok tt, s))
    × (chat_with_client (lines get_texts) (connected s.server s.tables s.next 1) ≡ (ok tt, s'))
    × (set_value
          (codes "a")
          (codes "t")
          (codes "k")
          (codes "5")
          (record { replies = lines s.conn.sent; sent = []; printed = [] })
        ≡ (ok 0, record { replies = []; sent = set_texts; printed = [] }))
    × (get_value
          (codes "b")
          (codes "t")
          (codes "k")
          (record { replies = lines s'.conn.sent; sent = []; printed = [] })
        ≡ (ok 0, record { replies = []; sent = get_texts; printed = codes "5" ∷ [] }))
get_value-set_value_example =
    get_value-set_value one_table tables 1 0 old_t (codes "t") (codes "k") (codes "5") old_t-found
      refl refl old_t-IsSettled 0 1 (codes "a") (codes "b") set_requests get_requests
