-- ===== src/Connection/Values/Missing.antt =====
-- GET of a key that is not in the table.
use computer_systems_assignm.Prelude.{
  ℕ, ◌≡◌, refl, ◌∙◌, ap, Bool, true, false, List, [], ◌∷◌, none, some, arith, sym, ◌≢◌, Bool-cases,
  Option-cases, inl, inr,
}
use mathlib.Core.Path.{subst}
use computer_systems_assignm.Exceptions.{Outcome, throw, undefined}
use computer_systems_assignm.Text.{Bytes}
use computer_systems_assignm.Message.{MessageType, message}
use computer_systems_assignm.Table
use computer_systems_assignm.Table.{Table}
use computer_systems_assignm.Server
use computer_systems_assignm.Connection.State.{State, Exec, lift}
use computer_systems_assignm.Connection.Calls.{find_table}
use computer_systems_assignm.Connection.Transactions.{
  roll_back_all, fail_transaction, fail_if, manage_exception, on_exception,
}
use computer_systems_assignm.Connection.Handlers.{
  handle_get, get_found, get_in, throw_again, no_key, is_locked, respond, call_response_function,
}
use computer_systems_assignm.Connection.Owns.{with_table, Ready, IsHeldBy}
use computer_systems_assignm.Connection.Keeps.{taken_by, freed}
use computer_systems_assignm.Connection.Acquire.{first_arg}
use computer_systems_assignm.Connection.Runs.{
  bind-ok, bind-throw, bind-undefined, catch-throw, catch-undefined, gets-ok, lift-ok,
}
use computer_systems_assignm.Connection.Values.{
  with_table-there, unlock_table-free, rollback_table-run,
}
use computer_systems_assignm.Connection.Values.Alone.{handle_get-missing, get_table_value-missing}
use computer_systems_assignm.Connection.Values.InTransaction.{
  remembering, acquire-free, acquire-held,
}
use computer_systems_assignm.Connection.Values.Unlocked.{
  unlocked_nothing, HeldBut, roll_back_all-unlocked,
}

-- A transaction that remembers a table first that nobody has locked cannot fail.
fail_transaction-free :
    (s : State) (p : ℕ) (t : Table) (pointers : List ℕ)
    → s.tables p ≡ some t
    → t.mutex ≡ none
    → s.conn.locked_tables ≡ p ∷ pointers
    → fail_transaction s ≡ (undefined, with_table s p (Table.rollback_changes t))
unfolding fail_transaction roll_back_all Table.rollback_changes
fail_transaction-free s p t pointers there free locked =
    let t' : Table = Table.rollback_changes t in
    let s' : State = with_table s p t' in
    gets-ok (λ r. r.conn.locked_tables) _ locked
    ∙ bind-undefined _ _ (
        bind-ok _ _ (rollback_table-run s p t there)
        ∙ bind-undefined _ _ (unlock_table-free s' p t' (with_table-there s p t') free))

module _ (s : State) (p : ℕ) (t : Table) (name key : Bytes)
    (found : Server.find_table name s.server ≡ some p) (there : s.tables p ≡ some t)
    (unlocked : is_locked p s.conn.locked_tables ≡ false) (free : t.mutex ≡ none)
    (missing : Table.has_key key t ≡ false) where
  abbrev ended : State
  ended =
      with_table (remembering p (with_table s p (taken_by s.conn.client t))) p
        (freed (taken_by s.conn.client t))

  handle_get-transaction :
      s.conn.in_transaction ≡ true
      → handle_get (message MessageType.get (name ∷ key ∷ [])) s ≡ (throw no_key, ended)
  unfolding handle_get find_table get_found get_in Table.has_key lift
  handle_get-transaction ongoing =
      let t1 : Table = taken_by s.conn.client t in
      let s1 : State = remembering p (with_table s p t1) in
      lift-ok _ _ (first_arg MessageType.get name (key ∷ []))
      ∙ gets-ok (λ r. Server.find_table name r.server) _ found
      ∙ gets-ok (λ r. r.conn.in_transaction) _ ongoing
      ∙ bind-throw _ _ (
          bind-ok _ _ (acquire-free s p t name key found there unlocked free)
          ∙ catch-throw _ throw_again (
              get_table_value-missing s p t name key found there t1 s1 (with_table-there s p t1)
                missing refl))

  manage_exception-ended :
      (what : Bytes)
      → s.conn.in_transaction ≡ true
      → (manage_exception what true ended).0 ≡ undefined
  unfolding manage_exception fail_if
  manage_exception-ended what ongoing =
      ap (λ (x : Outcome (Unit {0}) × State). x.0)
        (gets-ok (λ r. r.conn.in_transaction) _ ongoing
          ∙ bind-undefined _ _ (
              fail_transaction-free ended p (freed (taken_by s.conn.client t)) s.conn.locked_tables
                (with_table-there (remembering p (with_table s p (taken_by s.conn.client t))) p
                  (freed (taken_by s.conn.client t)))
                refl refl))

  by_mode :
      (ongoing : Bool)
      → s.conn.in_transaction ≡ ongoing
      → (call_response_function (message MessageType.get (name ∷ key ∷ [])) s).0 ≡ undefined
  unfolding call_response_function respond on_exception
  by_mode true e =
      ap (λ (x : Outcome (Unit {0}) × State). x.0)
        (catch-throw _ on_exception (handle_get-transaction e))
      ∙ manage_exception-ended _ e
  by_mode false e =
      let msg = message MessageType.get (name ∷ key ∷ []) in
      ap (λ (x : Outcome (Unit {0}) × State). x.0)
        (catch-undefined (handle_get msg) on_exception (
          ap (λ (o : Outcome (Unit {0})). (o, (handle_get msg s).1))
            (handle_get-missing s p t name key found there e free missing)))

  missing_unlocked :
      (call_response_function (message MessageType.get (name ∷ key ∷ [])) s).0 ≡ undefined
  missing_unlocked = by_mode s.conn.in_transaction refl

false-ne-true : false ≢ true
false-ne-true e = ground arith

undefined-run : (m : Exec (Unit {0})) (s : State) → (m s).0 ≡ undefined → m s ≡ (undefined, (m s).1)
undefined-run m s e = ap (λ (o : Outcome (Unit {0})). (o, (m s).1)) e

module _ (s : State) (p : ℕ) (t : Table) (name key : Bytes)
    (found : Server.find_table name s.server ≡ some p) (there : s.tables p ≡ some t)
    (ready : Ready s) (missing : Table.has_key key t ≡ false) where
  -- The table has been unlocked, and the transaction still remembers it.
  abbrev forgotten : State
  forgotten = with_table s p (freed t)

  forgotten-HeldBut : HeldBut p s.conn.locked_tables forgotten
  forgotten-HeldBut q l e = ground (arith, ready.owns.held q l)

  fail_forgotten :
      is_locked p s.conn.locked_tables ≡ true → (fail_transaction forgotten).0 ≡ undefined
  unfolding fail_transaction
  fail_forgotten locked =
      ap (λ (x : Outcome (Unit {0}) × State). x.0)
        (gets-ok (λ r. r.conn.locked_tables) _ refl
          ∙ bind-undefined _ _ (
              undefined-run (roll_back_all s.conn.locked_tables) forgotten (
                roll_back_all-unlocked s.conn.locked_tables forgotten p (freed t) locked
                  ready.owns.distinct (with_table-there s p (freed t)) refl forgotten-HeldBut)))

  missing_locked :
      is_locked p s.conn.locked_tables ≡ true
      → s.conn.in_transaction ≡ true
      → t.mutex ≡ some s.conn.client
      → (call_response_function (message MessageType.get (name ∷ key ∷ [])) s).0 ≡ undefined
  unfolding call_response_function respond on_exception handle_get find_table get_found get_in
      manage_exception fail_if lift
  missing_locked locked ongoing mine =
      ap (λ (x : Outcome (Unit {0}) × State). x.0)
        (catch-throw _ on_exception (
            lift-ok _ _ (first_arg MessageType.get name (key ∷ []))
            ∙ gets-ok (λ r. Server.find_table name r.server) _ found
            ∙ gets-ok (λ r. r.conn.in_transaction) _ ongoing
            ∙ bind-throw _ _ (
                bind-ok _ _ (acquire-held s p t name key found there locked)
                ∙ catch-throw _ throw_again
                    (get_table_value-missing s p t name key found there t s there missing mine)))
          ∙ gets-ok (λ r. r.conn.in_transaction) _ ongoing
          ∙ bind-undefined _ _ (undefined-run fail_transaction forgotten (fail_forgotten locked)))

  remembered :
      is_locked p s.conn.locked_tables ≡ true
      → (call_response_function (message MessageType.get (name ∷ key ∷ [])) s).0 ≡ undefined
  remembered locked =
      let mine : t.mutex ≡ some s.conn.client =
        subst (IsHeldBy s.conn.client) there (ready.owns.held p locked) in
      elim (Bool-cases s.conn.in_transaction) [
        | inl ongoing ↦ missing_locked locked ongoing mine
        | inr idle ↦
            absurd
              (unlocked_nothing p (subst (λ ps. is_locked p ps ≡ true) (ready.idle idle) locked))
      ]

  not_remembered :
      is_locked p s.conn.locked_tables ≡ false
      → ((j : ℕ) → t.mutex ≡ some j → j ≡ s.conn.client)
      → (call_response_function (message MessageType.get (name ∷ key ∷ [])) s).0 ≡ undefined
  not_remembered unlocked own = elim (Option-cases t.mutex) [
    | inl free ↦ missing_unlocked s p t name key found there unlocked free missing
    | inr (j, held) ↦
        absurd
          (false-ne-true (sym unlocked ∙ ready.owns.only p t there (held ∙ ap some (own j held))))
  ]

  -- GET by a ready client of a key that is not in the table is undefined, in a transaction and outside one, if
  -- no other client has locked the table: the table is unlocked twice.
  pub call_response_function-missing :
      ((j : ℕ) → t.mutex ≡ some j → j ≡ s.conn.client)
      → (call_response_function (message MessageType.get (name ∷ key ∷ [])) s).0 ≡ undefined
  call_response_function-missing own = elim (Bool-cases (is_locked p s.conn.locked_tables)) [
    | inl locked ↦ remembered locked
    | inr unlocked ↦ not_remembered unlocked own
  ]
