-- ===== src/Tests/Increments.antt =====
-- incr_value for the key k of the table t, which has the value 41.
use computer_systems_assignm.Prelude.{
  ℕ, ◌≡◌, ◌≢◌, refl, true, List, [], ◌∷◌, ◌++◌, Option, none, some, arith, if◌then◌else◌,
}
use computer_systems_assignm.Prelude.Int.{pos, ◌+ℤ◌}
use computer_systems_assignm.Exceptions.{ok}
use computer_systems_assignm.Text.{Bytes, codes, newline, bytes_eq, is_space, skip_space}
use computer_systems_assignm.Text.Decimal.{stoi, to_string}
use computer_systems_assignm.Dict.{lookup}
use computer_systems_assignm.Message.{◌is◌, enum_value, is_blank, is_letter, is_identifier_char}
use computer_systems_assignm.Serialization.{
  encode, encode_as, type_word, append_args, check_message_size,
}
use computer_systems_assignm.Table
use computer_systems_assignm.Table.{Table}
use computer_systems_assignm.Table.Entries.{committed, IsSettled}
use computer_systems_assignm.Server
use computer_systems_assignm.Server.{Server}
use computer_systems_assignm.Connection.State.{connected, State}
use computer_systems_assignm.Connection.Chat.{chat_with_client}
use computer_systems_assignm.Client.Answers.{lines, Requests, texts}
use computer_systems_assignm.IncrValue.{incr_value}
use computer_systems_assignm.IncrValue.Session.{session}
use computer_systems_assignm.IncrValue.OnServer.{HasInt}
use computer_systems_assignm.IncrValue.Together.{incr_value-chat_with_client}

abbrev t41 : Table
t41 = record {
  name = codes "t";
  mutex = none;
  key_value_pairs = (codes "k", codes "41") ∷ [];
  proposed_pairs = [];
}

abbrev one_table : Server
one_table = record Server.new_server { table_names = (codes "t", 0) ∷ [] }

abbrev tables : ℕ → Option Table
tables p = some t41

t41-HasInt : HasInt one_table tables (codes "t") (codes "k") (pos 41)
unfolding Server.find_table lookup bytes_eq Table.has_key Table.get stoi skip_space is_space ◌+ℤ◌
t41-HasInt = record {
  pointer = 0;
  table = t41;
  value = codes "41";
  found = refl;
  there = refl;
  free = refl;
  settled = λ key value e. ground arith;
  has = refl;
  got = refl;
  number = refl;
  fits = refl;
}

requests : Requests (session true (codes "a") (codes "t") (codes "k"))
unfolding encode encode_as type_word append_args check_message_size is_space is_blank is_letter
    is_identifier_char ◌is◌ enum_value
requests = (
  codes "LOGIN a" ++ newline ∷ [],
  record {
    encoded = refl;
    words = ((λ e. ground arith, (refl, tt)), tt);
    conforms = (refl, tt);
    no_text = refl;
    no_nul = refl;
    short = omega arith;
  },
  (
    codes "BEGIN" ++ newline ∷ [],
    record {
      encoded = refl;
      words = tt;
      conforms = tt;
      no_text = refl;
      no_nul = refl;
      short = omega arith;
    },
    (
      codes "GET t k" ++ newline ∷ [],
      record {
        encoded = refl;
        words = ((λ e. ground arith, (refl, tt)), ((λ e. ground arith, (refl, tt)), tt));
        conforms = ((refl, tt), (refl, tt));
        no_text = refl;
        no_nul = refl;
        short = omega arith;
      },
      (
        codes "PUSH 1" ++ newline ∷ [],
        record {
          encoded = refl;
          words = ((λ e. ground arith, (refl, tt)), tt);
          conforms = refl;
          no_text = refl;
          no_nul = refl;
          short = omega arith;
        },
        (
          codes "ADD" ++ newline ∷ [],
          record {
            encoded = refl;
            words = tt;
            conforms = tt;
            no_text = refl;
            no_nul = refl;
            short = omega arith;
          },
          (
            codes "SET t k" ++ newline ∷ [],
            record {
              encoded = refl;
              words = ((λ e. ground arith, (refl, tt)), ((λ e. ground arith, (refl, tt)), tt));
              conforms = ((refl, tt), (refl, tt));
              no_text = refl;
              no_nul = refl;
              short = omega arith;
            },
            (
              codes "COMMIT" ++ newline ∷ [],
              record {
                encoded = refl;
                words = tt;
                conforms = tt;
                no_text = refl;
                no_nul = refl;
                short = omega arith;
              },
              (
                codes "BYE" ++ newline ∷ [],
                record {
                  encoded = refl;
                  words = tt;
                  conforms = tt;
                  no_text = refl;
                  no_nul = refl;
                  short = omega arith;
                },
                tt,
              ),
            ),
          ),
        ),
      ),
    ),
  ),
)

abbrev ms_texts : List Bytes
ms_texts = texts (session true (codes "a") (codes "t") (codes "k")) requests

incr_value-chat_with_client_example :
    (s' : State) × (chat_with_client (lines ms_texts) (connected one_table tables 1 7)
      ≡ (ok tt, s'))
    × (incr_value true
          (codes "a")
          (codes "t")
          (codes "k")
          (record { replies = lines s'.conn.sent; sent = []; printed = [] })
        ≡ (ok 0, record { replies = []; sent = ms_texts; printed = [] }))
    × ((t' : Table) × (s'.tables t41-HasInt.pointer ≡ some t')
        × ((other : Bytes)
            → committed t' other ≡ (
                if bytes_eq (codes "k") other
                then some (to_string (pos 41 +ℤ pos 1))
                else committed t41-HasInt.table other))
        × (t'.mutex ≡ none)
        × IsSettled t')
    × ((q : ℕ) → q ≢ t41-HasInt.pointer → s'.tables q ≡ tables q)
incr_value-chat_with_client_example =
    incr_value-chat_with_client one_table tables 1 7 (codes "a") (codes "t") (codes "k") (pos 41)
      t41-HasInt true requests
