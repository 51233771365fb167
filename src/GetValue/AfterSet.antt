-- ===== src/GetValue/AfterSet.antt =====
-- set_value, the server, and get_value together: a value that one client has set is the value that the next
-- one prints.
use computer_systems_assignm.Prelude.{ℕ, ◌≡◌, refl, ◌∙◌, [], ◌∷◌, Option, none, some, arith}
use computer_systems_assignm.Exceptions.{ok}
use computer_systems_assignm.Text.{Bytes, bytes_eq_iff}
use computer_systems_assignm.Message.{MessageType, message}
use computer_systems_assignm.Table
use computer_systems_assignm.Table.{Table}
use computer_systems_assignm.Table.Entries.{committed, IsSettled, commit-set_all, get-has_key}
use computer_systems_assignm.Server
use computer_systems_assignm.Server.{Server}
use computer_systems_assignm.Connection.State.{connected, State}
use computer_systems_assignm.Connection.Chat.{chat_with_client}
use computer_systems_assignm.Connection.Owns.{with_table}
use computer_systems_assignm.Connection.Arithmetic.{with_stack}
use computer_systems_assignm.Connection.Values.{with_table-there}
use computer_systems_assignm.Connection.Rounds.{IsRequest}
use computer_systems_assignm.Client.Answers.{
  lines, Requests, texts, ok_texts, Conversation-ok_texts,
}
use computer_systems_assignm.SetValue.{set_value}
use computer_systems_assignm.SetValue.Session.{session, set_value-Session}
use computer_systems_assignm.GetValue.{get_value}
use computer_systems_assignm.SetValue.OnServer.{left, updated, set_served}
use computer_systems_assignm.GetValue.OnServer.{
  data_line, data_line-IsRequest, answers, get_session, get_served, get_value-run,
}

updated-free : (key value : Bytes) (t : Table) → t.mutex ≡ none → (updated key value t).mutex ≡ none
unfolding Table.commit_changes Table.set
updated-free key value t free = free

committed_value :
    (key value : Bytes) (t : Table) → committed t key ≡ some value → Table.get key t ≡ ok value
unfolding Table.get
committed_value key value t e = rw e refl

module _ (server : Server) (tables : ℕ → Option Table) (next p : ℕ) (t : Table)
    (name key value : Bytes) (found : Server.find_table name server ≡ some p)
    (there : tables p ≡ some t) (free : t.mutex ≡ none) (settled : IsSettled t) where
  new_value : Table.get key (updated key value t) ≡ ok value
  new_value =
      committed_value key value (updated key value t) (
        (commit-set_all ((key, value) ∷ []) t settled).0 key ∙ ground (arith, bytes_eq_iff key key))

  -- Let the server have a table that is settled and that nobody has locked. A client runs set_value with a key
  -- and a value, and then another client runs get_value with the key; their requests fit into lines. Then the
  -- server answers all of them and returns from both conversations; both programs end with the exit status 0,
  -- and get_value prints the value.
  pub get_value-set_value :
      (first second : ℕ) (setter getter : Bytes) (r : Requests (session setter name key value))
      (q : Requests (get_session name key getter))
      → (s : State) × (s' : State) × (chat_with_client
            (lines (texts (session setter name key value) r))
            (connected server tables next first)
          ≡ (ok tt, s))
        × (chat_with_client
              (lines (texts (get_session name key getter) q))
              (connected s.server s.tables s.next second)
            ≡ (ok tt, s'))
        × (set_value setter name key value
              (record { replies = lines s.conn.sent; sent = []; printed = [] })
            ≡ (
              ok 0,
              record { replies = []; sent = texts (session setter name key value) r; printed = [] },
            ))
        × (get_value getter name key
              (record { replies = lines s'.conn.sent; sent = []; printed = [] })
            ≡ (
              ok 0,
              record {
                replies = [];
                sent = texts (get_session name key getter) q;
                printed = value ∷ [];
              },
            ))
  get_value-set_value first second setter getter (login, rl, (push, rp, rest)) q =
      let r : Requests (session setter name key value) = (login, rl, (push, rp, rest)) in
      let reply : IsRequest (message MessageType.data_msg (value ∷ [])) (data_line value) =
        data_line-IsRequest value push rp in
      let start : State = connected server tables next first in
      let new_tables = (with_table start p (updated key value t)).tables in
      let there' : new_tables p ≡ some (updated key value t) =
        with_table-there start p (updated key value t) in
      let free' : (updated key value t).mutex ≡ none = updated-free key value t free in
      (
        left (with_table start p (updated key value t)) (ok_texts (session setter name key value)),
        left (with_stack (connected server new_tables next second) (value ∷ []))
            (answers (data_line value)),
        set_served server tables next p t name key value found there free first setter r,
        get_served server new_tables next p (updated key value t) name key value found there' free'
            second getter (data_line value) q
            ((get-has_key key (updated key value t)).1 (value, new_value)) new_value reply,
        (set_value-Session setter name key value _ _).1
            (Conversation-ok_texts (session setter name key value) r [] []),
        get_value-run server new_tables next p (updated key value t) name key value found there'
            free' getter (data_line value) q reply,
      )
