-- ===== src/Connection/Throws/Handlers.antt =====
-- The requests: what they throw has a short text, but for std::out_of_range in arithmetic.
use computer_systems_assignm.Prelude.{
  ℕ, ◌≤◌, Bool, true, false, List, [], ◌∷◌, Option, none, some, ltb, arith, length,
}
use computer_systems_assignm.Exceptions.{
  ok, throw, Exception, invalid_message, comm_exception, operation_exception, failed_transaction,
  invalid_argument, out_of_range,
}
use computer_systems_assignm.Text.{Bytes}
use computer_systems_assignm.Message.{MessageType, message, get_arg}
use computer_systems_assignm.Connection.State.{lift}
use computer_systems_assignm.Connection.Handlers.{
  create_unless, handle_create, handle_pop, handle_top, handle_bye, handle_push, set_table_value,
  push_entry, get_table_value, remember_lock, acquire, set_in, set_found, require_one, handle_set,
  get_in, get_found, handle_get, throw_again, unlock_and_throw,
}
use computer_systems_assignm.Connection.Acquire.{first_arg, second_arg}
use computer_systems_assignm.Connection.Throws.{
  IsThrown, Throws, Throws-bind, Throws-catch, Throws-lift, Throws-if, Throws-modify_conn,
}
use computer_systems_assignm.Connection.Throws.Calls.{
  call_rules, write_ok-Throws, unlock_table-Throws, top_value-Throws, pop_value-Throws,
}

module _ {E : Exception → Type 0} (t : MessageType) (x : Bytes) where
  pub first-Throws : (rest : List Bytes) → Throws E (lift (get_arg (message t (x ∷ rest)) 0))
  first-Throws rest = rw (first_arg t x rest) (Throws-lift (ok x) tt)

  pub second-Throws :
      (y : Bytes) (rest : List Bytes) → Throws E (lift (get_arg (message t (x ∷ y ∷ rest)) 1))
  second-Throws y rest = rw (second_arg t x y rest) (Throws-lift (ok y) tt)

module _ {a r : Type 0} where
  -- A short text, as the constants are.
  pub short-Throws :
      {A : Type 0} (what : Bytes)
      → length what ≤ 1016
      → Throws {A = A} (IsThrown a r) (lift (throw (operation_exception what)))
  short-Throws what h = Throws-lift _ (record { bound = h })

  pub failed-Throws :
      {A : Type 0} (what : Bytes)
      → length what ≤ 1016
      → Throws {A = A} (IsThrown a r) (lift (throw (failed_transaction what)))
  failed-Throws what h = Throws-lift _ (record { bound = h })

  pub throw_again-Throws :
      {A : Type 0} (e : Exception) → IsThrown a r e → Throws (IsThrown a r) (throw_again {A = A} e)
  throw_again-Throws (operation_exception what) h = Throws-lift _ h
  throw_again-Throws (invalid_message what) h = Throws-lift _ h
  throw_again-Throws (comm_exception what) h = Throws-lift _ h
  throw_again-Throws (failed_transaction what) h = Throws-lift _ h
  throw_again-Throws invalid_argument h = Throws-lift _ h
  throw_again-Throws out_of_range h = Throws-lift _ h

  pub unlock_and_throw-Throws :
      (p : ℕ) (e : Exception) → IsThrown a r e → Throws (IsThrown a r) (unlock_and_throw p e)
  unfolding unlock_and_throw
  unlock_and_throw-Throws p (operation_exception what) h =
      Throws-bind (unlock_table-Throws p) (λ _. Throws-lift _ h)
  unlock_and_throw-Throws p (invalid_message what) h = Throws-lift _ h
  unlock_and_throw-Throws p (comm_exception what) h = Throws-lift _ h
  unlock_and_throw-Throws p (failed_transaction what) h = Throws-lift _ h
  unlock_and_throw-Throws p invalid_argument h = Throws-lift _ h
  unlock_and_throw-Throws p out_of_range h = Throws-lift _ h

  pub create_unless-Throws :
      (name : Bytes) (found : Option ℕ) → Throws (IsThrown a r) (create_unless name found)
  unfolding create_unless
  create_unless-Throws name none = search call_rules
  create_unless-Throws name (some p) =
      Throws-bind (search call_rules) (λ _. short-Throws _ (omega arith))

  pub handle_create-Throws :
      (t : MessageType) (name : Bytes)
      → Throws (IsThrown a r) (handle_create (message t (name ∷ [])))
  unfolding handle_create
  handle_create-Throws t name = search (call_rules, first-Throws, create_unless-Throws)

  pub handle_pop-Throws : Throws (IsThrown a r) handle_pop
  unfolding handle_pop
  handle_pop-Throws =
      Throws-bind (Throws-catch (IsThrown a r) pop_value-Throws throw_again-Throws)
        (λ _. write_ok-Throws)

  pub handle_top-Throws : Throws (IsThrown a r) handle_top
  unfolding handle_top
  handle_top-Throws =
      Throws-bind (Throws-catch (IsThrown a r) top_value-Throws throw_again-Throws)
        (λ value. search call_rules)

  pub handle_bye-Throws : Throws (IsThrown a r) handle_bye
  unfolding handle_bye
  handle_bye-Throws = search call_rules

  pub handle_push-Throws :
      (t : MessageType) (value : Bytes)
      → Throws (IsThrown a r) (handle_push (message t (value ∷ [])))
  unfolding handle_push
  handle_push-Throws t value = search (call_rules, first-Throws)

  pub set_table_value-Throws :
      (t : MessageType) (name key : Bytes) (p : ℕ)
      → Throws (IsThrown a r) (set_table_value (message t (name ∷ key ∷ [])) p)
  unfolding set_table_value
  set_table_value-Throws t name key p = search (call_rules, second-Throws)

  pub push_entry-Throws :
      (p : ℕ) (key : Bytes) (found : Bool) → Throws (IsThrown a r) (push_entry p key found)
  unfolding push_entry
  push_entry-Throws p key true = search call_rules
  push_entry-Throws p key false =
      Throws-bind (unlock_table-Throws p) (λ _. short-Throws _ (omega arith))

  pub get_table_value-Throws :
      (t : MessageType) (name key : Bytes) (p : ℕ)
      → Throws (IsThrown a r) (get_table_value (message t (name ∷ key ∷ [])) p)
  unfolding get_table_value
  get_table_value-Throws t name key p = search (call_rules, second-Throws, push_entry-Throws)

  pub remember_lock-Throws : (p : ℕ) (b : Bool) → Throws (IsThrown a r) (remember_lock p b)
  unfolding remember_lock
  remember_lock-Throws p true = Throws-modify_conn _
  remember_lock-Throws p false = failed-Throws _ (omega arith)

  pub acquire-Throws : (p : ℕ) → Throws (IsThrown a r) (acquire p)
  unfolding acquire
  acquire-Throws p = search (call_rules, remember_lock-Throws)

  pub set_in-Throws :
      (t : MessageType) (name key : Bytes) (p : ℕ) (b : Bool)
      → Throws (IsThrown a r) (set_in (message t (name ∷ key ∷ [])) p b)
  unfolding set_in
  set_in-Throws t name key p true = search (call_rules, acquire-Throws, set_table_value-Throws)
  set_in-Throws t name key p false = search (call_rules, set_table_value-Throws)

  pub set_found-Throws :
      (t : MessageType) (name key : Bytes) (found : Option ℕ)
      → Throws (IsThrown a r) (set_found (message t (name ∷ key ∷ [])) found)
  unfolding set_found
  set_found-Throws t name key none = short-Throws _ (omega arith)
  set_found-Throws t name key (some p) = search (call_rules, set_in-Throws)

  pub require_one-Throws : (size : ℕ) → Throws (IsThrown a r) (require_one size)
  unfolding require_one
  require_one-Throws size = Throws-if (ltb size 1) (short-Throws _ (omega arith)) (Throws-lift _ tt)

  pub handle_set-Throws :
      (t : MessageType) (name key : Bytes)
      → Throws (IsThrown a r) (handle_set (message t (name ∷ key ∷ [])))
  unfolding handle_set
  handle_set-Throws t name key =
      search (call_rules, first-Throws, require_one-Throws, set_found-Throws)

  pub get_in-Throws :
      (t : MessageType) (name key : Bytes) (p : ℕ) (b : Bool)
      → Throws (IsThrown a r) (get_in (message t (name ∷ key ∷ [])) p b)
  unfolding get_in
  get_in-Throws t name key p true =
      Throws-bind (acquire-Throws p)
        (λ _. Throws-catch (IsThrown a r) (get_table_value-Throws t name key p) throw_again-Throws)
  get_in-Throws t name key p false = Throws-bind (search call_rules) (λ _.
      Throws-bind
        (Throws-catch (IsThrown a r) (get_table_value-Throws t name key p)
          (unlock_and_throw-Throws p))
        (λ _. unlock_table-Throws p))

  pub get_found-Throws :
      (t : MessageType) (name key : Bytes) (found : Option ℕ)
      → Throws (IsThrown a r) (get_found (message t (name ∷ key ∷ [])) found)
  unfolding get_found
  get_found-Throws t name key none = short-Throws _ (omega arith)
  get_found-Throws t name key (some p) = search (call_rules, get_in-Throws)

  pub handle_get-Throws :
      (t : MessageType) (name key : Bytes)
      → Throws (IsThrown a r) (handle_get (message t (name ∷ key ∷ [])))
  unfolding handle_get
  handle_get-Throws t name key = search (call_rules, first-Throws, get_found-Throws)
