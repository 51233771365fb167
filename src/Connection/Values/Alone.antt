-- ===== src/Connection/Values/Alone.antt =====
-- GET and SET outside a transaction.
use computer_systems_assignm.Prelude.{
  ℕ, ◌≡◌, refl, sym, ◌∙◌, ap, true, false, [], ◌∷◌, Option, none, some,
}
use computer_systems_assignm.Exceptions.{Outcome, ok, throw, undefined}
use computer_systems_assignm.Text.{Bytes}
use computer_systems_assignm.Message.{MessageType, message}
use computer_systems_assignm.ValueStack.{ValueStack}
use computer_systems_assignm.Table
use computer_systems_assignm.Table.{Table}
use computer_systems_assignm.Server
use computer_systems_assignm.Connection.State.{State, lift}
use computer_systems_assignm.Connection.Calls.{find_table, lock_table}
use computer_systems_assignm.Connection.Handlers.{
  handle_get, get_found, get_in, get_table_value, push_entry, unlock_and_throw, handle_set, set_in,
  no_key,
}
use computer_systems_assignm.Connection.Owns.{with_table}
use computer_systems_assignm.Connection.Keeps.{
  taken_by, freed, lock_table-free, unlock_table-held, with_table-same,
}
use computer_systems_assignm.Connection.Gets.{has_entry-run}
use computer_systems_assignm.Connection.Runs.{
  bind-ok, bind-undefined, catch-ok, catch-throw, gets-ok, lift-ok,
}
use computer_systems_assignm.Connection.Acquire.{first_arg, second_arg}
use computer_systems_assignm.Connection.Arithmetic.{with_stack, answered_ok, write_ok-answered}
use computer_systems_assignm.Connection.Values.{
  with_table-there, with_table-twice, freed-taken_by, commit_table-run, unlock_table-free,
  get_table_value-found, set_table_value-found, handle_set-run,
}

module _ (s : State) (p : ℕ) (t : Table) (name key : Bytes)
    (found : Server.find_table name s.server ≡ some p) (there : s.tables p ≡ some t) where
  get_in-alone :
      (v : Bytes)
      → t.mutex ≡ none
      → Table.has_key key t ≡ true
      → Table.get key t ≡ ok v
      → get_in (message MessageType.get (name ∷ key ∷ [])) p false s
        ≡ (ok tt, with_stack s (v ∷ s.conn.stack))
  unfolding get_in Table.has_key Table.get
  get_in-alone v free h g =
      let locked : Table = taken_by s.conn.client t in
      let s1 : State = with_table s p locked in
      let s2 : State = with_stack s1 (v ∷ s.conn.stack) in
      bind-ok (lock_table p) _ (lock_table-free s p t there free)
      ∙ bind-ok _ _ (
          catch-ok _ (unlock_and_throw p) (
            get_table_value-found s p t name key found there locked s1 v
              (with_table-there s p locked) h g))
      ∙ unlock_table-held s2 p locked (with_table-there s p locked) refl
      ∙ ap (λ (r : State). (ok tt, r))
          (with_table-twice (with_stack s (v ∷ s.conn.stack)) p locked (freed locked)
            ∙ with_table-same (with_stack s (v ∷ s.conn.stack)) p (freed locked)
                (there ∙ ap some (sym (freed-taken_by s.conn.client t free))))

  -- GET outside a transaction, of a key of a table that nobody has locked, pushes the value that Table::get
  -- gives, answers OK, and leaves the tables as they are.
  pub handle_get-alone :
      (v : Bytes)
      → s.conn.in_transaction ≡ false
      → t.mutex ≡ none
      → Table.has_key key t ≡ true
      → Table.get key t ≡ ok v
      → handle_get (message MessageType.get (name ∷ key ∷ [])) s
        ≡ (ok tt, answered_ok (with_stack s (v ∷ s.conn.stack)))
  unfolding handle_get find_table get_found
  handle_get-alone v alone free h g =
      lift-ok _ _ (first_arg MessageType.get name (key ∷ []))
      ∙ gets-ok (λ r. Server.find_table name r.server) _ found
      ∙ gets-ok (λ r. r.conn.in_transaction) _ alone
      ∙ bind-ok _ _ (get_in-alone v free h g)
      ∙ write_ok-answered (with_stack s (v ∷ s.conn.stack))

  set_in-alone :
      (v : Bytes) (rest : ValueStack)
      → t.mutex ≡ none
      → s.conn.stack ≡ v ∷ rest
      → set_in (message MessageType.set (name ∷ key ∷ [])) p false s
        ≡ (ok tt, with_stack (with_table s p (Table.commit_changes (Table.set key v t))) rest)
  unfolding set_in Table.commit_changes Table.set
  set_in-alone v rest free stacked =
      let t1 : Table = taken_by s.conn.client t in
      let t2 : Table = Table.set key v t1 in
      let t3 : Table = Table.commit_changes t2 in
      let s1 : State = with_table s p t1 in
      let s2 : State = with_stack (with_table s1 p t2) rest in
      let s3 : State = with_table s2 p t3 in
      bind-ok (lock_table p) _ (lock_table-free s p t there free)
      ∙ bind-ok _ _ (
          set_table_value-found s p t name key found there t1 s1 v rest (with_table-there s p t1)
            stacked)
      ∙ bind-ok _ _ (commit_table-run s2 p t2 (with_table-there s1 p t2))
      ∙ unlock_table-held s3 p t3 (with_table-there s2 p t3) refl
      ∙ ap (λ (r : State). (ok tt, r))
          (with_table-twice s2 p t3 (freed t3)
            ∙ with_table-twice (with_stack s1 rest) p t2 (freed t3)
            ∙ with_table-twice (with_stack s rest) p t1 (freed t3)
            ∙ ap (λ (m : Option ℕ). with_table (with_stack s rest) p (record t3 { mutex = m }))
                (sym free))

  -- SET outside a transaction, in a table that nobody has locked: the top of the stack is popped, written and
  -- committed under the key, and the answer is OK.
  pub handle_set-alone :
      (v : Bytes) (rest : ValueStack)
      → s.conn.in_transaction ≡ false
      → t.mutex ≡ none
      → s.conn.stack ≡ v ∷ rest
      → handle_set (message MessageType.set (name ∷ key ∷ [])) s ≡ (
        ok tt,
        answered_ok (with_stack (with_table s p (Table.commit_changes (Table.set key v t))) rest),
      )
  handle_set-alone v rest alone free stacked =
      handle_set-run s p t name key found there v rest false stacked alone
      ∙ bind-ok _ _ (set_in-alone v rest free stacked)
      ∙ write_ok-answered
          (with_stack (with_table s p (Table.commit_changes (Table.set key v t))) rest)

  pub get_table_value-missing :
      (u : Table) (r : State)
      → r.tables p ≡ some u
      → Table.has_key key u ≡ false
      → u.mutex ≡ some r.conn.client
      → get_table_value (message MessageType.get (name ∷ key ∷ [])) p r
        ≡ (throw no_key, with_table r p (freed u))
  unfolding get_table_value push_entry lift
  get_table_value-missing u r e h m =
      lift-ok _ _ (second_arg MessageType.get name key [])
      ∙ bind-ok _ _ (has_entry-run r p key u e)
      ∙ rw h (bind-ok _ _ (unlock_table-held r p u e m))

  -- GET outside a transaction, of a key that is not in the table, is undefined: the table is unlocked a second
  -- time.
  pub handle_get-missing :
      s.conn.in_transaction ≡ false
      → t.mutex ≡ none
      → Table.has_key key t ≡ false
      → (handle_get (message MessageType.get (name ∷ key ∷ [])) s).0 ≡ undefined
  unfolding handle_get find_table get_found get_in Table.has_key unlock_and_throw
  handle_get-missing alone free h =
      let t1 : Table = taken_by s.conn.client t in
      let s1 : State = with_table s p t1 in
      let s2 : State = with_table s1 p (freed t1) in
      ap (λ (x : Outcome (Unit {0}) × State). x.0)
        (lift-ok _ _ (first_arg MessageType.get name (key ∷ []))
          ∙ gets-ok (λ r. Server.find_table name r.server) _ found
          ∙ gets-ok (λ r. r.conn.in_transaction) _ alone
          ∙ bind-undefined _ _ (
              bind-ok _ _ (lock_table-free s p t there free)
              ∙ bind-undefined _ _ (
                  catch-throw _ (unlock_and_throw p)
                    (get_table_value-missing t1 s1 (with_table-there s p t1) h refl)
                  ∙ bind-undefined _ _
                      (unlock_table-free s2 p (freed t1) (with_table-there s1 p (freed t1)) refl))))
