-- ===== src/IncrValue/OnServer.antt =====
-- What the server does for the client incr_value: each request is answered with OK, and the table has the
-- next number.
use computer_systems_assignm.Prelude.{
  ℕ, ◌≡◌, refl, ◌∙◌, Bool, true, false, [], ◌∷◌, Option, none, some,
}
use computer_systems_assignm.Prelude.Int.{ℤ, pos, ◌+ℤ◌}
use computer_systems_assignm.Exceptions.{ok}
use computer_systems_assignm.Text.{Bytes, codes, skip_space, is_space}
use computer_systems_assignm.Text.Decimal.{stoi, to_string, in_int}
use computer_systems_assignm.Message.{◌is◌, enum_value}
use computer_systems_assignm.Table
use computer_systems_assignm.Table.{Table}
use computer_systems_assignm.Table.Entries.{IsSettled}
use computer_systems_assignm.Server
use computer_systems_assignm.Server.{Server}
use computer_systems_assignm.Connection.State.{connected, State, new_connection}
use computer_systems_assignm.Connection.Chat.{chat_with_client}
use computer_systems_assignm.Connection.Handlers.{respond}
use computer_systems_assignm.Connection.Owns.{with_table}
use computer_systems_assignm.Connection.Arithmetic.{with_stack, answered_ok, handle_add-ok}
use computer_systems_assignm.Connection.Values.Alone.{handle_get-alone, handle_set-alone}
use computer_systems_assignm.Connection.Rounds.{chat_loop-login, chat_loop-request, chat_loop-end}
use computer_systems_assignm.Connection.Single.{handle_push-run, handle_bye-run}
use computer_systems_assignm.Client.Answers.{lines, Requests, texts, ok_texts}
use computer_systems_assignm.IncrValue.Session.{session}

pub stoi-one : stoi (codes "1") ≡ ok (pos 1)
unfolding stoi skip_space is_space
stoi-one = refl

-- The server has the table `name`, nobody has locked it, and Table::get of `key` gives an int to which 1 can
-- be added.
pub record HasInt (server : Server) (tables : ℕ → Option Table) (name key : Bytes) (n : ℤ)
    : Type 0 where
  pub pointer : ℕ
  pub table : Table
  pub value : Bytes
  pub found : Server.find_table name server ≡ some pointer
  pub there : tables pointer ≡ some table
  pub free : table.mutex ≡ none
  pub settled : IsSettled table
  pub has : Table.has_key key table ≡ true
  pub got : Table.get key table ≡ ok value
  pub number : stoi value ≡ ok n
  pub fits : in_int (n +ℤ pos 1) ≡ true

-- A client that is connected, to a server with the tables `tables`.
module _ (server : Server) (tables : ℕ → Option Table) (next client : ℕ) where
  module _ (username name key : Bytes) (n : ℤ) (h : HasInt server tables name key n) where
    abbrev pub next_value : Bytes
    next_value = to_string (n +ℤ pos 1)

    abbrev pub new_content : Table
    new_content = Table.commit_changes (Table.set key next_value h.table)

    -- The server when incr_value has left it.
    abbrev pub incremented : Bool → State
    incremented use_transaction =
        with_table
          (record (connected server tables next client) {
            conn = record (new_connection client) {
              loop_in_progress = false;
              sent = ok_texts (session use_transaction username name key);
              closed = true;
            };
          })
          h.pointer new_content

    pub chat_with_client-alone :
        (r : Requests (session false username name key))
        → chat_with_client
            (lines (texts (session false username name key) r))
            (connected server tables next client)
          ≡ (ok tt, incremented false)
    unfolding chat_with_client respond ◌is◌ enum_value
    chat_with_client-alone (login, rl, (get, rg, (push, rp, (add, ra, (set, rs, (bye, rb, _)))))) =
        let s1 : State = answered_ok (connected server tables next client) in
        let s2 : State = answered_ok (with_stack s1 (h.value ∷ [])) in
        let s3 : State = answered_ok (with_stack s2 (codes "1" ∷ h.value ∷ [])) in
        let s4 : State = answered_ok (with_stack s3 (next_value ∷ [])) in
        chat_loop-login _ login rl _ (connected server tables next client) _ refl refl
        ∙ chat_loop-request _ get rg _ s1 _ s2 refl refl refl (
            handle_get-alone s1 h.pointer h.table name key h.found h.there h.value refl h.free h.has
              h.got)
        ∙ chat_loop-request _ push rp _ s2 _ s3 refl refl refl (handle_push-run s2 (codes "1"))
        ∙ chat_loop-request _ add ra _ s3 _ s4 refl refl refl
            (handle_add-ok s3 (codes "1") h.value [] (pos 1) n stoi-one h.number h.fits)
        ∙ chat_loop-request _ set rs _ s4 _ _ refl refl refl (
            handle_set-alone s4 h.pointer h.table name key h.found h.there next_value [] refl h.free
              refl)
        ∙ chat_loop-request _ bye rb _ _ _ _ refl refl refl (handle_bye-run _)
        ∙ chat_loop-end [] _ _ refl
