-- ===== src/Tests/Values.antt =====
-- GET and SET on a table with one entry.
use computer_systems_assignm.Prelude.{ℕ, ◌≡◌, refl, true, false, List, [], ◌∷◌, none, some, Option}
use computer_systems_assignm.Exceptions.{ok, throw}
use computer_systems_assignm.Text.{codes, bytes_eq}
use computer_systems_assignm.Dict.{lookup}
use computer_systems_assignm.Message.{MessageType, Message, message}
use computer_systems_assignm.Table
use computer_systems_assignm.Table.{Table}
use computer_systems_assignm.Server
use computer_systems_assignm.Server.{Server}
use computer_systems_assignm.Connection.State.{State, new_connection}
use computer_systems_assignm.Connection.Chat.{line, new_locals, chat_round}
use computer_systems_assignm.Connection.Handlers.{handle_get, handle_set, no_access, is_locked}
use computer_systems_assignm.Connection.Owns.{with_table}
use computer_systems_assignm.Connection.Keeps.{taken_by}
use computer_systems_assignm.Connection.Arithmetic.{with_stack, answered_ok}
use computer_systems_assignm.Connection.Values.Alone.{handle_get-alone, handle_set-alone}
use computer_systems_assignm.Connection.Values.InTransaction.{
  remembering, handle_get-free, handle_set-held, handlers-taken,
}
use computer_systems_assignm.Connection.Replies.{Answered}
use computer_systems_assignm.Connection.Replies.Chat.{chat_round-Answered}

abbrev t41 : Option ℕ → Table
t41 holder = record {
  name = codes "t";
  mutex = holder;
  key_value_pairs = (codes "k", codes "41") ∷ [];
  proposed_pairs = [];
}

abbrev one_table : Server
one_table = record Server.new_server { table_names = (codes "t", 0) ∷ [] }

-- Client 0 alone, or in a transaction that has locked `pointers`; `holder` holds the table.
abbrev alone : State
alone = record {
  server = one_table;
  tables = λ p. some (t41 none);
  next = 1;
  conn = record (new_connection 0) { stack = codes "5" ∷ [] };
}

abbrev ongoing : List ℕ → Option ℕ → State
ongoing pointers holder = record alone {
  tables = λ p. some (t41 holder);
  conn = record (alone.conn) { in_transaction = true; locked_tables = pointers };
}

abbrev get_k : Message
get_k = message MessageType.get (codes "t" ∷ codes "k" ∷ [])

abbrev set_k : Message
set_k = message MessageType.set (codes "t" ∷ codes "k" ∷ [])

lookups :
    (Server.find_table (codes "t") one_table ≡ some 0)
    × (Table.has_key (codes "k") (t41 none) ≡ true)
    × (Table.get (codes "k") (t41 none) ≡ ok (codes "41"))
    × (Table.has_key (codes "x") (t41 none) ≡ false)
    × (is_locked 0 [] ≡ false)
    × (is_locked 0 (0 ∷ []) ≡ true)
unfolding Server.find_table lookup bytes_eq Table.has_key Table.get is_locked
lookups = (refl, refl, refl, refl, refl, refl)

handle_get-alone_example :
    handle_get get_k alone ≡ (ok tt, answered_ok (with_stack alone (codes "41" ∷ codes "5" ∷ [])))
handle_get-alone_example =
    handle_get-alone alone 0 (t41 none) (codes "t") (codes "k") lookups.0 refl (codes "41") refl
      refl lookups.1 lookups.2

handle_set-alone_example : handle_set set_k alone ≡ (
  ok tt,
  answered_ok (
      with_stack
        (with_table alone 0 (Table.commit_changes (Table.set (codes "k") (codes "5") (t41 none))))
        []),
)
handle_set-alone_example =
    handle_set-alone alone 0 (t41 none) (codes "t") (codes "k") lookups.0 refl (codes "5") [] refl
      refl refl

handle_get-free_example : handle_get get_k (ongoing [] none) ≡ (
  ok tt,
  answered_ok (
      with_stack
        (remembering 0 (with_table (ongoing [] none) 0 (taken_by 0 (t41 none))))
        (codes "41" ∷ codes "5" ∷ [])),
)
handle_get-free_example =
    handle_get-free (ongoing [] none) 0 (t41 none) (codes "t") (codes "k") lookups.0 refl
      (codes "41") refl lookups.4 refl lookups.1 lookups.2

handle_set-held_example : handle_set set_k (ongoing (0 ∷ []) (some 0)) ≡ (
  ok tt,
  answered_ok (
      with_stack
        (with_table
          (ongoing (0 ∷ []) (some 0))
          0
          (Table.set (codes "k") (codes "5") (t41 (some 0))))
        []),
)
handle_set-held_example =
    handle_set-held (ongoing (0 ∷ []) (some 0)) 0 (t41 (some 0)) (codes "t") (codes "k") lookups.0
      refl (codes "5") [] refl lookups.5 refl

handlers-taken_example :
    (handle_get get_k (ongoing [] (some 1)) ≡ (throw no_access, ongoing [] (some 1)))
    × (handle_set set_k (ongoing [] (some 1)) ≡ (throw no_access, ongoing [] (some 1)))
handlers-taken_example =
    handlers-taken (ongoing [] (some 1)) 0 (t41 (some 1)) (codes "t") (codes "k") lookups.0 refl 1
      (codes "5") [] refl lookups.4 refl refl

chat_round-Answered_example : Answered alone (chat_round (line (codes "nonsense")) new_locals alone)
chat_round-Answered_example = chat_round-Answered (codes "nonsense") new_locals alone
