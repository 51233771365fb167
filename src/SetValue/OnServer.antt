-- ===== src/SetValue/OnServer.antt =====
-- What the server does for the client set_value.
use computer_systems_assignm.Prelude.{
  ℕ, ◌≡◌, refl, ◌∙◌, true, false, List, [], ◌∷◌, Option, none, some,
}
use computer_systems_assignm.Exceptions.{ok}
use computer_systems_assignm.Text.{Bytes}
use computer_systems_assignm.Message.{◌is◌, enum_value}
use computer_systems_assignm.Table
use computer_systems_assignm.Table.{Table}
use computer_systems_assignm.Server
use computer_systems_assignm.Server.{Server}
use computer_systems_assignm.Connection.State.{connected, State}
use computer_systems_assignm.Connection.Chat.{chat_with_client}
use computer_systems_assignm.Connection.Handlers.{respond}
use computer_systems_assignm.Connection.Owns.{with_table}
use computer_systems_assignm.Connection.Arithmetic.{with_stack, answered_ok}
use computer_systems_assignm.Connection.Single.{handle_push-run, handle_bye-run}
use computer_systems_assignm.Connection.Values.Alone.{handle_set-alone}
use computer_systems_assignm.Connection.Rounds.{chat_loop-login, chat_loop-request, chat_loop-end}
use computer_systems_assignm.Client.Answers.{lines, Requests, texts, ok_texts}
use computer_systems_assignm.SetValue.Session.{session}

-- The client has been served, and its answers were `sent`.
abbrev pub left : State → List Bytes → State
left s sent = record s {
  conn = record (s.conn) { loop_in_progress = false; sent = sent; closed = true };
}

-- The table when the value has been written and committed.
abbrev pub updated : Bytes → Bytes → Table → Table
updated key value t = Table.commit_changes (Table.set key value t)

module _ (server : Server) (tables : ℕ → Option Table) (next p : ℕ) (t : Table)
    (name key value : Bytes) (found : Server.find_table name server ≡ some p)
    (there : tables p ≡ some t) (free : t.mutex ≡ none) where
  pub set_served :
      (client : ℕ) (username : Bytes) (r : Requests (session username name key value))
      → let s = connected server tables next client in
        chat_with_client (lines (texts (session username name key value) r)) s ≡ (
          ok tt,
          left (with_table s p (updated key value t)) (ok_texts (session username name key value)),
        )
  unfolding chat_with_client respond ◌is◌ enum_value
  set_served client username (login, rl, (push, rp, (set, rs, (bye, rb, _)))) =
      let s : State = connected server tables next client in
      let s1 : State = answered_ok s in
      let s2 : State = answered_ok (with_stack s1 (value ∷ [])) in
      chat_loop-login _ login rl _ s _ refl refl
      ∙ chat_loop-request _ push rp _ s1 _ s2 refl refl refl (handle_push-run s1 value)
      ∙ chat_loop-request _ set rs _ s2 _ _ refl refl refl
          (handle_set-alone s2 p t name key found there value [] refl free refl)
      ∙ chat_loop-request _ bye rb _ _ _ _ refl refl refl (handle_bye-run _)
      ∙ chat_loop-end [] _ _ refl
