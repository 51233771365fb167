-- ===== src/Connection/Commits.antt =====
-- How a transaction begins, and how one that has locked a single table commits.
pub mod Order
use computer_systems_assignm.Prelude.{ℕ, ◌≡◌, refl, ap, ◌∙◌, true, false, [], ◌∷◌, some}
use computer_systems_assignm.Exceptions.{ok}
use computer_systems_assignm.Table
use computer_systems_assignm.Table.{Table}
use computer_systems_assignm.Connection.State.{State, lift, modify_conn}
use computer_systems_assignm.Connection.Transactions.{
  handle_begin, begin_if_idle, handle_commit, commit_if_ongoing, commit_all, leave_transaction,
}
use computer_systems_assignm.Connection.Owns.{with_table}
use computer_systems_assignm.Connection.Keeps.{freed, unlock_table-held}
use computer_systems_assignm.Connection.Runs.{bind-ok, gets-ok}
use computer_systems_assignm.Connection.Values.{
  with_table-there, with_table-twice, commit_table-run,
}
use computer_systems_assignm.Connection.Arithmetic.{answered_ok, write_ok-answered}

abbrev pub in_transaction : State → State
in_transaction s = record s { conn = record (s.conn) { in_transaction = true } }

-- The state when a transaction has been left.
abbrev pub out_of_transaction : State → State
out_of_transaction s = record s {
  conn = record (s.conn) { locked_tables = []; in_transaction = false };
}

module _ (s : State) where
  -- BEGIN, from a client that is in no transaction.
  pub handle_begin-idle :
      s.conn.in_transaction ≡ false → handle_begin s ≡ (ok tt, answered_ok (in_transaction s))
  unfolding handle_begin begin_if_idle modify_conn
  handle_begin-idle idle =
      gets-ok (λ r. r.conn.in_transaction) _ idle
      ∙ bind-ok _ _ refl
      ∙ write_ok-answered (in_transaction s)

  module _ (p : ℕ) (t : Table) (there : s.tables p ≡ some t)
      (held : t.mutex ≡ some s.conn.client) where
    commit_all-one :
        commit_all (p ∷ []) s ≡ (ok tt, with_table s p (freed (Table.commit_changes t)))
    unfolding commit_all lift Table.commit_changes
    commit_all-one =
        let t1 : Table = Table.commit_changes t in
        bind-ok _ _ (commit_table-run s p t there)
        ∙ bind-ok _ _ (unlock_table-held (with_table s p t1) p t1 (with_table-there s p t1) held)
        ∙ ap (λ (r : State). (ok tt, r)) (with_table-twice s p t1 (freed t1))

    -- COMMIT, when the transaction has locked one table: the proposed entries of the table are committed, it is
    -- unlocked, and the client is in no transaction any more.
    pub handle_commit-one :
        s.conn.in_transaction ≡ true
        → s.conn.locked_tables ≡ p ∷ []
        → handle_commit s ≡ (
          ok tt,
          answered_ok (out_of_transaction (with_table s p (freed (Table.commit_changes t)))),
        )
    unfolding handle_commit commit_if_ongoing leave_transaction modify_conn
    handle_commit-one ongoing locked =
        gets-ok (λ r. r.conn.in_transaction) _ ongoing
        ∙ gets-ok (λ r. r.conn.locked_tables) _ locked
        ∙ bind-ok _ _ commit_all-one
        ∙ bind-ok _ _ refl
        ∙ write_ok-answered (out_of_transaction (with_table s p (freed (Table.commit_changes t))))
