-- ===== src/Connection/Throws/Calls.antt =====
-- The calls of the methods: most of them throw nothing.
use computer_systems_assignm.Prelude.{
  ℕ, List, [], ◌∷◌, Option, none, some, arith, length, ◌==◌, ltb,
}
use computer_systems_assignm.Exceptions.{Outcome, ok, throw, blocked, undefined, Exception}
use computer_systems_assignm.Text.{Bytes}
use computer_systems_assignm.Message.{Message}
use computer_systems_assignm.Serialization.{
  encode, encode_as, type_word, check_message_size, max_encoded_len, too_long,
}
use computer_systems_assignm.ValueStack
use computer_systems_assignm.ValueStack.{ValueStack}
use computer_systems_assignm.Table
use computer_systems_assignm.Table.{Table, Mutex, mutex_lock, mutex_unlock, with_mutex, first_found}
use computer_systems_assignm.Server
use computer_systems_assignm.Server.{Server}
use computer_systems_assignm.Connection.State.{State, lift}
use computer_systems_assignm.Connection.Calls.{
  deref, store_table, this_client, push_value, top_value, pop_value, stack_size, lock_table,
  unlock_table, trylock_table, set_entry, has_entry, get_entry, commit_table, rollback_table,
  store_server, lock_server, unlock_server, find_table, create_table, send, write_ok, end_loop,
}
use computer_systems_assignm.Connection.Throws.{
  IsShort, IsThrown, Throwing, Throws, Throws-bind, Throws-lift, Throws-gets, Throws-read,
  Throws-modify_conn, throws_rules, if-Throwing, then-Throwing,
}

module _ (E : Exception → Type 0) where
  mutex_lock-Throwing : (me : ℕ) (m : Mutex) → Throwing E (mutex_lock me m)
  unfolding mutex_lock
  mutex_lock-Throwing me none = tt
  mutex_lock-Throwing me (some j) = tt

  mutex_unlock-Throwing : (me : ℕ) (m : Mutex) → Throwing E (mutex_unlock me m)
  unfolding mutex_unlock
  mutex_unlock-Throwing me none = tt
  mutex_unlock-Throwing me (some j) = if-Throwing E (j == me) _ _ tt tt

  with_mutex-Throwing : (t : Table) (o : Outcome Mutex) → Throwing E o → Throwing E (with_mutex t o)
  with_mutex-Throwing t (ok m) h = tt
  with_mutex-Throwing t (throw e) h = h
  with_mutex-Throwing t blocked h = tt
  with_mutex-Throwing t undefined h = tt

  found-Throwing :
      (x : Option Table) (s : State)
      → Throwing E
          (elim x as (λ y. Outcome Table × State) [ none ↦ (undefined, s) | some t ↦ (ok t, s) ]).0
  found-Throwing none s = tt
  found-Throwing (some t) s = tt

module _ {E : Exception → Type 0} where
  table_lock-Throws : (me : ℕ) (t : Table) → Throws E (lift (Table.lock me t))
  unfolding Table.lock
  table_lock-Throws me t =
      Throws-lift _ (with_mutex-Throwing E t _ (mutex_lock-Throwing E me t.mutex))

  table_unlock-Throws : (me : ℕ) (t : Table) → Throws E (lift (Table.unlock me t))
  unfolding Table.unlock
  table_unlock-Throws me t =
      Throws-lift _ (with_mutex-Throwing E t _ (mutex_unlock-Throwing E me t.mutex))

  deref-Throws : (p : ℕ) → Throws E (deref p)
  unfolding deref
  deref-Throws p = record { at = λ s. found-Throwing E (s.tables p) s }

  store_table-Throws : (p : ℕ) (t : Table) → Throws E (store_table p t)
  unfolding store_table
  store_table-Throws p t = record { at = λ s. tt }

  store_server-Throws : (server : Server) → Throws E (store_server server)
  unfolding store_server
  store_server-Throws server = record { at = λ s. tt }

  pub create_table-Throws : (name : Bytes) → Throws E (create_table name)
  unfolding create_table
  create_table-Throws name = record { at = λ s. tt }

ruleset basic_rules = (
  throws_rules, table_lock-Throws, table_unlock-Throws, deref-Throws, store_table-Throws,
  store_server-Throws,
)

module _ {E : Exception → Type 0} where
  pub lock_table-Throws : (p : ℕ) → Throws E (lock_table p)
  unfolding lock_table this_client
  lock_table-Throws p = search basic_rules

  pub unlock_table-Throws : (p : ℕ) → Throws E (unlock_table p)
  unfolding unlock_table this_client
  unlock_table-Throws p = search basic_rules

  pub trylock_table-Throws : (p : ℕ) → Throws E (trylock_table p)
  unfolding trylock_table this_client
  trylock_table-Throws p = search basic_rules

  pub set_entry-Throws : (p : ℕ) (key value : Bytes) → Throws E (set_entry p key value)
  unfolding set_entry
  set_entry-Throws p key value = search basic_rules

  pub has_entry-Throws : (p : ℕ) (key : Bytes) → Throws E (has_entry p key)
  unfolding has_entry
  has_entry-Throws p key = search basic_rules

  pub commit_table-Throws : (p : ℕ) → Throws E (commit_table p)
  unfolding commit_table
  commit_table-Throws p = search basic_rules

  pub rollback_table-Throws : (p : ℕ) → Throws E (rollback_table p)
  unfolding rollback_table
  rollback_table-Throws p = search basic_rules

  pub lock_server-Throws : Throws E lock_server
  unfolding lock_server this_client Server.lock
  lock_server-Throws = Throws-bind (Throws-gets _) (λ me.
      Throws-bind
        (Throws-read _
          (λ s. then-Throwing E _ _ (mutex_lock-Throwing E me s.server.mutex) (λ m. tt)))
        (λ server. store_server-Throws server))

  pub unlock_server-Throws : Throws E unlock_server
  unfolding unlock_server this_client Server.unlock
  unlock_server-Throws = Throws-bind (Throws-gets _) (λ me.
      Throws-bind
        (Throws-read _
          (λ s. then-Throwing E _ _ (mutex_unlock-Throwing E me s.server.mutex) (λ m. tt)))
        (λ server. store_server-Throws server))

  pub find_table-Throws : (name : Bytes) → Throws E (find_table name)
  unfolding find_table
  find_table-Throws name = Throws-gets _

  pub push_value-Throws : (value : Bytes) → Throws E (push_value value)
  unfolding push_value
  push_value-Throws value = Throws-modify_conn _

  pub stack_size-Throws : Throws E stack_size
  unfolding stack_size
  stack_size-Throws = Throws-gets _

  pub end_loop-Throws : Throws E end_loop
  unfolding end_loop
  end_loop-Throws = Throws-modify_conn _

module _ (a r : Type 0) where
  get_top-Throwing : (stack : ValueStack) → Throwing (IsThrown a r) (ValueStack.get_top stack)
  unfolding ValueStack.get_top
  get_top-Throwing [] = record { bound = omega arith }
  get_top-Throwing (v ∷ stack) = tt

  pop-Throwing : (stack : ValueStack) → Throwing (IsThrown a r) (ValueStack.pop stack)
  unfolding ValueStack.pop
  pop-Throwing [] = record { bound = omega arith }
  pop-Throwing (v ∷ stack) = tt

  first_found-Throwing : (x y : Option Bytes) → Throwing (IsThrown a r) (first_found x y)
  first_found-Throwing (some v) y = tt
  first_found-Throwing none (some v) = tt
  first_found-Throwing none none = record { bound = omega arith }

  check_message_size-Throwing : (s : Bytes) → Throwing (IsThrown a r) (check_message_size s)
  unfolding check_message_size
  check_message_size-Throwing s =
      if-Throwing (IsThrown a r) (ltb max_encoded_len (length s)) (throw too_long) (ok tt)
        (record { bound = omega arith }) tt

  encode_as-Throwing :
      (o : Option Bytes) (args : List Bytes) → Throwing (IsThrown a r) (encode_as o args)
  unfolding encode_as
  encode_as-Throwing none args = record { bound = omega arith }
  encode_as-Throwing (some word) args =
      then-Throwing (IsThrown a r) _ _ (check_message_size-Throwing _) (λ u. tt)

module _ {a r : Type 0} where
  pub top_value-Throws : Throws (IsThrown a r) top_value
  unfolding top_value
  top_value-Throws = Throws-read _ (λ s. get_top-Throwing a r s.conn.stack)

  pub pop_value-Throws : Throws (IsThrown a r) pop_value
  unfolding pop_value
  pop_value-Throws =
      Throws-bind (Throws-read _ (λ s. pop-Throwing a r s.conn.stack))
        (λ rest. Throws-modify_conn _)

  pub get_entry-Throws : (p : ℕ) (key : Bytes) → Throws (IsThrown a r) (get_entry p key)
  unfolding get_entry Table.get
  get_entry-Throws p key =
      Throws-bind (deref-Throws p) (λ t. Throws-lift _ (first_found-Throwing a r _ _))

  pub send-Throws : (m : Message) → Throws (IsThrown a r) (send m)
  unfolding send encode
  send-Throws m =
      Throws-bind (Throws-lift _ (encode_as-Throwing a r (type_word m.message_type) m.args))
        (λ text. Throws-modify_conn _)

  pub write_ok-Throws : Throws (IsThrown a r) write_ok
  unfolding write_ok
  write_ok-Throws = send-Throws _

pub ruleset call_rules = (
  throws_rules, lock_table-Throws, unlock_table-Throws, trylock_table-Throws, set_entry-Throws,
  has_entry-Throws, commit_table-Throws, rollback_table-Throws, lock_server-Throws,
  unlock_server-Throws, find_table-Throws, push_value-Throws, stack_size-Throws, end_loop-Throws,
  create_table-Throws, top_value-Throws, pop_value-Throws, get_entry-Throws, send-Throws,
  write_ok-Throws,
)
