-- ===== src/Connection/Replies/Calls.antt =====
-- The calls of the methods: only `send` writes to the client.
use computer_systems_assignm.Prelude.{
  ℕ, ◌≤◌, ◌≡◌, refl, List, [], ◌∷◌, ◌++◌, Option, none, some, arith, length,
}
use computer_systems_assignm.Exceptions.{Outcome, ok, throw, blocked, undefined, ◌>>◌}
use computer_systems_assignm.Text.{Bytes, newline}
use computer_systems_assignm.Message.{Message}
use computer_systems_assignm.Serialization.{
  encode, encode_as, type_word, append_args, check_message_size, max_encoded_len,
}
use computer_systems_assignm.Table.{Table}
use computer_systems_assignm.Server.{Server}
use computer_systems_assignm.Connection.State.{State, ◌>>=◌, lift, modify_conn}
use computer_systems_assignm.Connection.Calls.{
  deref, store_table, this_client, push_value, top_value, pop_value, stack_size, lock_table,
  unlock_table, trylock_table, set_entry, has_entry, get_entry, commit_table, rollback_table,
  store_server, lock_server, unlock_server, find_table, create_table, send, write_ok, end_loop,
}
use computer_systems_assignm.Connection.Replies.{
  Answered, Answers, Answers-bind, Answers-catch, Answers-if, Answers-map, Answers-raise,
  Answers-then, IsReply, Silent, Silent-bind, Silent-catch, Silent-gets, Silent-if, Silent-lift,
  Silent-modify_conn,
}

pub deref-Silent : (p : ℕ) → Silent (deref p)
unfolding deref
deref-Silent p = record { at = λ s. found (s.tables p) s }
  where
    found :
        (x : Option Table) (s : State)
        → (elim x as (λ y. Outcome Table × State) [
          | none ↦ (undefined, s)
          | some t ↦ (ok t, s)
        ]).1.conn.sent
          ≡ s.conn.sent
    found none s = refl
    found (some t) s = refl

pub store_table-Silent : (p : ℕ) (t : Table) → Silent (store_table p t)
unfolding store_table
store_table-Silent p t = record { at = λ s. refl }

pub store_server-Silent : (server : Server) → Silent (store_server server)
unfolding store_server
store_server-Silent server = record { at = λ s. refl }

ruleset basic_rules = (
  Silent-bind, Silent-lift, Silent-gets, Silent-if, Silent-catch, deref-Silent, store_table-Silent,
  store_server-Silent,
)

pub lock_table-Silent : (p : ℕ) → Silent (lock_table p)
unfolding lock_table this_client
lock_table-Silent p = search basic_rules

pub unlock_table-Silent : (p : ℕ) → Silent (unlock_table p)
unfolding unlock_table this_client
unlock_table-Silent p = search basic_rules

pub trylock_table-Silent : (p : ℕ) → Silent (trylock_table p)
unfolding trylock_table this_client
trylock_table-Silent p = search basic_rules

pub set_entry-Silent : (p : ℕ) (key value : Bytes) → Silent (set_entry p key value)
unfolding set_entry
set_entry-Silent p key value = search basic_rules

pub has_entry-Silent : (p : ℕ) (key : Bytes) → Silent (has_entry p key)
unfolding has_entry
has_entry-Silent p key = search basic_rules

pub get_entry-Silent : (p : ℕ) (key : Bytes) → Silent (get_entry p key)
unfolding get_entry
get_entry-Silent p key = search basic_rules

pub commit_table-Silent : (p : ℕ) → Silent (commit_table p)
unfolding commit_table
commit_table-Silent p = search basic_rules

pub rollback_table-Silent : (p : ℕ) → Silent (rollback_table p)
unfolding rollback_table
rollback_table-Silent p = search basic_rules

pub create_table-Silent : (name : Bytes) → Silent (create_table name)
unfolding create_table
create_table-Silent name = record { at = λ s. refl }

pub lock_server-Silent : Silent lock_server
unfolding lock_server this_client
lock_server-Silent = search basic_rules

pub unlock_server-Silent : Silent unlock_server
unfolding unlock_server this_client
unlock_server-Silent = search basic_rules

pub find_table-Silent : (name : Bytes) → Silent (find_table name)
unfolding find_table
find_table-Silent name = Silent-gets _

pub push_value-Silent : (value : Bytes) → Silent (push_value value)
unfolding push_value
push_value-Silent value = Silent-modify_conn _ (λ c. refl)

pub top_value-Silent : Silent top_value
unfolding top_value
top_value-Silent = search basic_rules

pub pop_value-Silent : Silent pop_value
unfolding pop_value
pop_value-Silent = Silent-bind (search basic_rules) (λ rest. Silent-modify_conn _ (λ c. refl))

pub stack_size-Silent : Silent stack_size
unfolding stack_size
stack_size-Silent = Silent-gets _

pub end_loop-Silent : Silent end_loop
unfolding end_loop
end_loop-Silent = Silent-modify_conn _ (λ c. refl)

pub sized :
    (encoded text : Bytes)
    → (check_message_size encoded >> ok encoded) ≡ ok text
    → (length encoded ≤ max_encoded_len) × (text ≡ encoded)
unfolding check_message_size
sized encoded text e = (ground arith, ground arith)

encoded-IsReply :
    (o : Option Bytes) (args : List Bytes) (text : Bytes)
    → encode_as o args ≡ ok text
    → IsReply text
unfolding encode_as
encoded-IsReply none args text e = ground arith
encoded-IsReply (some word) args text e =
    let (fits, same) = sized (append_args word args ++ newline ∷ []) text e in
    record { fits = rw same fits; body = append_args word args; ends = same }

sent-Answered :
    (m : Message) (s : State) (o : Outcome Bytes)
    → encode m ≡ o
    → Answered s ((lift o >>= λ text. modify_conn λ c. record c { sent = c.sent ++ text ∷ [] }) s)
unfolding ◌>>=◌ lift modify_conn encode
sent-Answered m s (ok text) e =
    (text, encoded-IsReply (type_word m.message_type) m.args text e, refl)
sent-Answered m s (throw x) e = refl
sent-Answered m s blocked e = tt
sent-Answered m s undefined e = tt

pub send-Answers : (m : Message) → Answers (send m)
unfolding send
send-Answers m = record { at = λ s. sent-Answered m s (encode m) refl }

pub write_ok-Answers : Answers write_ok
unfolding write_ok
write_ok-Answers = send-Answers _

pub ruleset reply_rules = (
  Silent-bind, Silent-lift, Silent-gets, Silent-if, Silent-catch, Answers-bind, Answers-catch,
  Answers-raise, Answers-if, lock_table-Silent, unlock_table-Silent, trylock_table-Silent,
  set_entry-Silent, has_entry-Silent, get_entry-Silent, commit_table-Silent, rollback_table-Silent,
  create_table-Silent, lock_server-Silent, unlock_server-Silent, find_table-Silent,
  push_value-Silent, top_value-Silent, pop_value-Silent, stack_size-Silent, end_loop-Silent,
  send-Answers, write_ok-Answers,
)
