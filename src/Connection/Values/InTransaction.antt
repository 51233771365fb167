-- ===== src/Connection/Values/InTransaction.antt =====
-- GET and SET in a transaction.
use computer_systems_assignm.Prelude.{ℕ, ◌≡◌, refl, ◌∙◌, true, false, [], ◌∷◌, none, some}
use computer_systems_assignm.Exceptions.{ok, throw}
use computer_systems_assignm.Text.{Bytes}
use computer_systems_assignm.Message.{MessageType, message}
use computer_systems_assignm.ValueStack.{ValueStack}
use computer_systems_assignm.Table
use computer_systems_assignm.Table.{Table}
use computer_systems_assignm.Server
use computer_systems_assignm.Connection.State.{State, lift, modify_conn}
use computer_systems_assignm.Connection.Calls.{find_table, trylock_table}
use computer_systems_assignm.Connection.Handlers.{
  handle_get, get_found, get_in, handle_set, set_in, throw_again, no_access, acquire, remember_lock,
  is_locked,
}
use computer_systems_assignm.Connection.Owns.{with_table}
use computer_systems_assignm.Connection.Keeps.{taken_by, trylock_table-free, trylock_table-taken}
use computer_systems_assignm.Connection.Runs.{bind-ok, bind-throw, catch-ok, gets-ok, lift-ok}
use computer_systems_assignm.Connection.Acquire.{first_arg}
use computer_systems_assignm.Connection.Arithmetic.{with_stack, answered_ok, write_ok-answered}
use computer_systems_assignm.Connection.Values.{
  with_table-there, get_table_value-found, set_table_value-found, handle_set-run,
}

-- The table is among those that the transaction remembers.
abbrev pub remembering : ℕ → State → State
remembering p s = record s { conn = record (s.conn) { locked_tables = p ∷ s.conn.locked_tables } }

module _ (s : State) (p : ℕ) (t : Table) (name key : Bytes)
    (found : Server.find_table name s.server ≡ some p) (there : s.tables p ≡ some t) where
  -- In a transaction that holds the table's lock.
  pub acquire-held : is_locked p s.conn.locked_tables ≡ true → acquire p s ≡ (ok tt, s)
  unfolding acquire lift
  acquire-held locked = gets-ok (λ r. r.conn.locked_tables) _ refl ∙ rw locked refl

  -- GET in a transaction that holds the table's lock pushes the value that Table::get gives and answers OK.
  pub handle_get-held :
      (v : Bytes)
      → s.conn.in_transaction ≡ true
      → is_locked p s.conn.locked_tables ≡ true
      → Table.has_key key t ≡ true
      → Table.get key t ≡ ok v
      → handle_get (message MessageType.get (name ∷ key ∷ [])) s
        ≡ (ok tt, answered_ok (with_stack s (v ∷ s.conn.stack)))
  unfolding handle_get find_table get_found get_in
  handle_get-held v ongoing locked h g =
      lift-ok _ _ (first_arg MessageType.get name (key ∷ []))
      ∙ gets-ok (λ r. Server.find_table name r.server) _ found
      ∙ gets-ok (λ r. r.conn.in_transaction) _ ongoing
      ∙ bind-ok _ _ (
          bind-ok _ _ (acquire-held locked)
          ∙ catch-ok _ throw_again
              (get_table_value-found s p t name key found there t s v there h g))
      ∙ write_ok-answered (with_stack s (v ∷ s.conn.stack))

  -- SET in a transaction that holds the table's lock pops the top of the stack, proposes it under the key, and
  -- answers OK.
  pub handle_set-held :
      (v : Bytes) (rest : ValueStack)
      → s.conn.in_transaction ≡ true
      → is_locked p s.conn.locked_tables ≡ true
      → s.conn.stack ≡ v ∷ rest
      → handle_set (message MessageType.set (name ∷ key ∷ [])) s
        ≡ (ok tt, answered_ok (with_stack (with_table s p (Table.set key v t)) rest))
  unfolding set_in
  handle_set-held v rest ongoing locked stacked =
      handle_set-run s p t name key found there v rest true stacked ongoing
      ∙ bind-ok _ _ (
          bind-ok _ _ (acquire-held locked)
          ∙ set_table_value-found s p t name key found there t s v rest there stacked)
      ∙ write_ok-answered (with_stack (with_table s p (Table.set key v t)) rest)

  -- In a transaction that finds the lock free.
  pub acquire-free :
      is_locked p s.conn.locked_tables ≡ false
      → t.mutex ≡ none
      → acquire p s ≡ (ok tt, remembering p (with_table s p (taken_by s.conn.client t)))
  unfolding acquire remember_lock modify_conn
  acquire-free unlocked free =
      gets-ok (λ r. r.conn.locked_tables) _ refl
      ∙ rw unlocked (bind-ok (trylock_table p) _ (trylock_table-free s p t there free))

  -- GET in a transaction of a key of a table that nobody has locked: the table is locked, and the transaction
  -- remembers it; the value that Table::get gives is pushed, and the answer is OK.
  pub handle_get-free :
      (v : Bytes)
      → s.conn.in_transaction ≡ true
      → is_locked p s.conn.locked_tables ≡ false
      → t.mutex ≡ none
      → Table.has_key key t ≡ true
      → Table.get key t ≡ ok v
      → handle_get (message MessageType.get (name ∷ key ∷ [])) s ≡ (
        ok tt,
        answered_ok (
            with_stack
              (remembering p (with_table s p (taken_by s.conn.client t)))
              (v ∷ s.conn.stack)),
      )
  unfolding handle_get find_table get_found get_in Table.has_key Table.get
  handle_get-free v ongoing unlocked free h g =
      let s1 : State = remembering p (with_table s p (taken_by s.conn.client t)) in
      lift-ok _ _ (first_arg MessageType.get name (key ∷ []))
      ∙ gets-ok (λ r. Server.find_table name r.server) _ found
      ∙ gets-ok (λ r. r.conn.in_transaction) _ ongoing
      ∙ bind-ok _ _ (
          bind-ok _ _ (acquire-free unlocked free)
          ∙ catch-ok _ throw_again (
              get_table_value-found s p t name key found there (taken_by s.conn.client t) s1 v
                (with_table-there s p (taken_by s.conn.client t)) h g))
      ∙ write_ok-answered (with_stack s1 (v ∷ s.conn.stack))

  pub acquire-taken :
      (j : ℕ)
      → is_locked p s.conn.locked_tables ≡ false
      → t.mutex ≡ some j
      → acquire p s ≡ (throw no_access, s)
  unfolding acquire remember_lock lift
  acquire-taken j unlocked taken =
      gets-ok (λ r. r.conn.locked_tables) _ refl
      ∙ rw unlocked (bind-ok (trylock_table p) _ (trylock_table-taken s p j t there taken))

  -- GET and SET in a transaction, of a table whose lock is taken and not remembered, throw FailedTransaction
  -- and change nothing.
  pub handlers-taken :
      (j : ℕ) (v : Bytes) (rest : ValueStack)
      → s.conn.in_transaction ≡ true
      → is_locked p s.conn.locked_tables ≡ false
      → t.mutex ≡ some j
      → s.conn.stack ≡ v ∷ rest
      → (handle_get (message MessageType.get (name ∷ key ∷ [])) s ≡ (throw no_access, s))
        × (handle_set (message MessageType.set (name ∷ key ∷ [])) s ≡ (throw no_access, s))
  unfolding handle_get find_table get_found get_in set_in
  handlers-taken j v rest ongoing unlocked taken stacked = (
    lift-ok _ _ (first_arg MessageType.get name (key ∷ []))
        ∙ gets-ok (λ r. Server.find_table name r.server) _ found
        ∙ gets-ok (λ r. r.conn.in_transaction) _ ongoing
        ∙ bind-throw _ _ (bind-throw _ _ (acquire-taken j unlocked taken)),
    handle_set-run s p t name key found there v rest true stacked ongoing
        ∙ bind-throw _ _ (bind-throw _ _ (acquire-taken j unlocked taken)),
  )
