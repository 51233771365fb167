-- ===== src/IncrValue/InTransaction.antt =====
-- What the server does for the client incr_value that was called with `-t`.
use computer_systems_assignm.Prelude.{ℕ, ◌≡◌, refl, sym, ap, ◌∙◌, true, [], ◌∷◌, Option, some}
use computer_systems_assignm.Prelude.Int.{ℤ, pos}
use computer_systems_assignm.Exceptions.{ok}
use computer_systems_assignm.Text.{Bytes, codes}
use computer_systems_assignm.Message.{◌is◌, enum_value}
use computer_systems_assignm.Table
use computer_systems_assignm.Table.{Table}
use computer_systems_assignm.Server.{Server}
use computer_systems_assignm.Connection.State.{connected, State}
use computer_systems_assignm.Connection.Chat.{chat_with_client}
use computer_systems_assignm.Connection.Handlers.{respond, is_locked}
use computer_systems_assignm.Connection.Owns.{with_table}
use computer_systems_assignm.Connection.Keeps.{taken_by, freed, is_locked-head}
use computer_systems_assignm.Connection.Calls.{put_table}
use computer_systems_assignm.Connection.Arithmetic.{with_stack, answered_ok, handle_add-ok}
use computer_systems_assignm.Connection.Values.{with_table-there, put_table-twice}
use computer_systems_assignm.Connection.Values.InTransaction.{
  remembering, handle_get-free, handle_set-held,
}
use computer_systems_assignm.Connection.Commits.{
  in_transaction, out_of_transaction, handle_begin-idle, handle_commit-one,
}
use computer_systems_assignm.Connection.Rounds.{chat_loop-login, chat_loop-request, chat_loop-end}
use computer_systems_assignm.Connection.Single.{handle_push-run, handle_bye-run}
use computer_systems_assignm.Client.Answers.{lines, Requests, texts}
use computer_systems_assignm.IncrValue.Session.{session}
use computer_systems_assignm.IncrValue.OnServer.{stoi-one, HasInt, next_value, incremented}

module _ (server : Server) (tables : ℕ → Option Table) (next client : ℕ) (username name key : Bytes)
    (n : ℤ) (h : HasInt server tables name key n) where
  abbrev start : State
  start = connected server tables next client

  -- After GET: the table is locked.
  abbrev got : State
  got =
      let s = answered_ok (in_transaction (answered_ok start)) in
      answered_ok (
        with_stack (remembering h.pointer (with_table s h.pointer (taken_by client h.table)))
          (h.value ∷ []))

  abbrev sum : Bytes
  sum = next_value server tables next client username name key n h

  abbrev written : Table
  written = Table.set key sum (taken_by client h.table)

  -- After ADD and SET.
  abbrev added : State
  added =
      answered_ok (with_stack (answered_ok (with_stack got (codes "1" ∷ h.value ∷ []))) (sum ∷ []))

  abbrev proposed : State
  proposed = answered_ok (with_stack (with_table added h.pointer written) [])

  abbrev committed : State
  committed =
      answered_ok
        (out_of_transaction (with_table proposed h.pointer (freed (Table.commit_changes written))))

  committed-content :
      committed.tables ≡ (incremented server tables next client username name key n h true).tables
  unfolding Table.commit_changes Table.set
  committed-content =
      put_table-twice added.tables h.pointer written (freed (Table.commit_changes written))
      ∙ put_table-twice tables h.pointer (taken_by client h.table)
          (freed (Table.commit_changes written))
      ∙ ap
          (λ (m : Option ℕ).
            put_table tables h.pointer (record (Table.commit_changes written) { mutex = m }))
          (sym h.free)

  pub chat_with_client-transaction :
      (r : Requests (session true username name key))
      → chat_with_client (lines (texts (session true username name key) r)) start
        ≡ (ok tt, incremented server tables next client username name key n h true)
  unfolding chat_with_client respond ◌is◌ enum_value is_locked Table.set
  chat_with_client-transaction
        (
          login,
          rl,
          (begin, rt, (get, rg, (push, rp, (add, ra, (set, rs, (commit, rc, (bye, rb, _))))))),
        ) =
      let s1 : State = answered_ok start in
      let s2 : State = answered_ok (in_transaction s1) in
      let s4 : State = answered_ok (with_stack got (codes "1" ∷ h.value ∷ [])) in
      let locked : is_locked h.pointer (h.pointer ∷ []) ≡ true = is_locked-head h.pointer [] in
      let there : got.tables h.pointer ≡ some (taken_by client h.table) =
        with_table-there s2 h.pointer (taken_by client h.table) in
      chat_loop-login _ login rl _ start _ refl refl
      ∙ chat_loop-request _ begin rt _ s1 _ s2 refl refl refl (handle_begin-idle s1 refl)
      ∙ chat_loop-request _ get rg _ s2 _ got refl refl refl (
          handle_get-free s2 h.pointer h.table name key h.found h.there h.value refl refl h.free
            h.has h.got)
      ∙ chat_loop-request _ push rp _ got _ s4 refl refl refl (handle_push-run got (codes "1"))
      ∙ chat_loop-request _ add ra _ s4 _ added refl refl refl
          (handle_add-ok s4 (codes "1") h.value [] (pos 1) n stoi-one h.number h.fits)
      ∙ chat_loop-request _ set rs _ added _ proposed refl refl refl (
          handle_set-held added h.pointer (taken_by client h.table) name key h.found there sum []
            refl locked refl)
      ∙ chat_loop-request _ commit rc _ proposed _ committed refl refl refl (
          handle_commit-one proposed h.pointer written (with_table-there added h.pointer written)
            refl refl refl)
      ∙ chat_loop-request _ bye rb _ committed _ _ refl refl refl (handle_bye-run committed)
      ∙ chat_loop-end [] _ _ refl
      ∙ ap
          (λ (x : ℕ → Option Table). (
            ok tt,
            record (incremented server tables next client username name key n h true) {
              tables = x;
            },
          ))
          committed-content
