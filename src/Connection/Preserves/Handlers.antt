-- ===== src/Connection/Preserves/Handlers.antt =====
-- The handlers that commit nothing, whatever their outcome.
use computer_systems_assignm.Prelude.{
  ℕ, refl, Bool, true, false, List, [], ◌∷◌, Option, none, some, ltb,
}
use computer_systems_assignm.Prelude.Int.{ℤ}
use computer_systems_assignm.Exceptions.{Outcome, Exception, operation_exception, invalid_argument}
use computer_systems_assignm.Text.{Bytes}
use computer_systems_assignm.Message.{Message}
use computer_systems_assignm.Connection.State.{State, Exec}
use computer_systems_assignm.Connection.Transactions.{roll_back_all}
use computer_systems_assignm.Connection.Handlers.{
  create_unless, handle_create, handle_pop, handle_top, read_operand, pop_operands, compute,
  require_two, handle_add, handle_sub, handle_mul, handle_div, handle_bye, handle_push,
  set_table_value, push_entry, get_table_value, remember_lock, acquire, is_locked, require_one,
  get_in, get_found, handle_get, throw_again, on_invalid_argument, unlock_and_throw,
}
use computer_systems_assignm.Connection.Preserves.{
  Preserves, IsClosed, Preserves-bind, Preserves-lift, Preserves-gets, Preserves-if,
}
use computer_systems_assignm.Connection.Preserves.Calls.{
  calls_rules, Preserves-modify_conn, Preserves-unlock_table, Preserves-rollback_table,
}

module _ {I : State → Type 0} (closed : IsClosed I) where
  throw_again-Preserves : {A : Type 0} (e : Exception) → Preserves I (throw_again {A = A} e)
  throw_again-Preserves (operation_exception what) = Preserves-lift _
  throw_again-Preserves _ = Preserves-lift _

  unlock_and_throw-Preserves : (p : ℕ) (e : Exception) → Preserves I (unlock_and_throw p e)
  unfolding unlock_and_throw
  unlock_and_throw-Preserves p (operation_exception what) = search calls_rules
  unlock_and_throw-Preserves p _ = Preserves-lift _

  on_invalid_argument-Preserves :
      {A : Type 0} {restore : Exec (Unit {0})} (e : Exception)
      → Preserves I restore
      → Preserves I (on_invalid_argument {A = A} restore e)
  on_invalid_argument-Preserves invalid_argument h = search calls_rules
  on_invalid_argument-Preserves _ h = Preserves-lift _

  create_unless-Preserves :
      (name : Bytes) (found : Option ℕ) → Preserves I (create_unless name found)
  unfolding create_unless
  create_unless-Preserves name (some p) = search calls_rules
  create_unless-Preserves name none = Preserves-bind (closed.made name) (search calls_rules)

  pub handle_create-Preserves : (msg : Message) → Preserves I (handle_create msg)
  unfolding handle_create
  handle_create-Preserves msg = search (calls_rules, create_unless-Preserves)

  pub handle_pop-Preserves : Preserves I handle_pop
  unfolding handle_pop
  handle_pop-Preserves = search (calls_rules, throw_again-Preserves)

  pub handle_top-Preserves : Preserves I handle_top
  unfolding handle_top
  handle_top-Preserves = search (calls_rules, throw_again-Preserves)

  read_operand-Preserves : Preserves I read_operand
  unfolding read_operand
  read_operand-Preserves = search calls_rules

  pop_operands-Preserves : Preserves I pop_operands
  unfolding pop_operands
  pop_operands-Preserves =
      search (calls_rules, read_operand-Preserves, on_invalid_argument-Preserves)

  compute-Preserves : (op : ℤ → ℤ → Outcome ℤ) → Preserves I (compute op)
  unfolding compute
  compute-Preserves op = search (calls_rules, pop_operands-Preserves)

  require_two-Preserves : (what : Bytes) (size : ℕ) → Preserves I (require_two what size)
  unfolding require_two
  require_two-Preserves what size = Preserves-if (ltb size 2) (Preserves-lift _) (Preserves-lift _)

  pub handle_add-Preserves : Preserves I handle_add
  unfolding handle_add
  handle_add-Preserves = search (calls_rules, require_two-Preserves, compute-Preserves)

  pub handle_sub-Preserves : Preserves I handle_sub
  unfolding handle_sub
  handle_sub-Preserves = search (calls_rules, require_two-Preserves, compute-Preserves)

  pub handle_mul-Preserves : Preserves I handle_mul
  unfolding handle_mul
  handle_mul-Preserves = search (calls_rules, require_two-Preserves, compute-Preserves)

  pub handle_div-Preserves : Preserves I handle_div
  unfolding handle_div
  handle_div-Preserves = search (calls_rules, require_two-Preserves, compute-Preserves)

  pub handle_bye-Preserves : Preserves I handle_bye
  unfolding handle_bye
  handle_bye-Preserves = search calls_rules

  pub handle_push-Preserves : (msg : Message) → Preserves I (handle_push msg)
  unfolding handle_push
  handle_push-Preserves msg = search calls_rules

  pub set_table_value-Preserves : (msg : Message) (p : ℕ) → Preserves I (set_table_value msg p)
  unfolding set_table_value
  set_table_value-Preserves msg p = search calls_rules

  push_entry-Preserves : (p : ℕ) (key : Bytes) (found : Bool) → Preserves I (push_entry p key found)
  unfolding push_entry
  push_entry-Preserves p key true = search calls_rules
  push_entry-Preserves p key false = search calls_rules

  get_table_value-Preserves : (msg : Message) (p : ℕ) → Preserves I (get_table_value msg p)
  unfolding get_table_value
  get_table_value-Preserves msg p = search (calls_rules, push_entry-Preserves)

  remember_lock-Preserves : (p : ℕ) (b : Bool) → Preserves I (remember_lock p b)
  unfolding remember_lock
  remember_lock-Preserves p true = Preserves-modify_conn closed _ (λ c. refl)
  remember_lock-Preserves p false = Preserves-lift _

  pub acquire-Preserves : (p : ℕ) → Preserves I (acquire p)
  unfolding acquire
  acquire-Preserves p = Preserves-bind (Preserves-gets _) (λ pointers.
      Preserves-if (is_locked p pointers) (Preserves-lift _)
        (search (calls_rules, remember_lock-Preserves)))

  pub require_one-Preserves : (size : ℕ) → Preserves I (require_one size)
  unfolding require_one
  require_one-Preserves size = Preserves-if (ltb size 1) (Preserves-lift _) (Preserves-lift _)

  get_in-Preserves : (msg : Message) (p : ℕ) (b : Bool) → Preserves I (get_in msg p b)
  unfolding get_in
  get_in-Preserves msg p true =
      search (calls_rules, acquire-Preserves, get_table_value-Preserves, throw_again-Preserves)
  get_in-Preserves msg p false =
      search (calls_rules, get_table_value-Preserves, unlock_and_throw-Preserves)

  get_found-Preserves : (msg : Message) (found : Option ℕ) → Preserves I (get_found msg found)
  unfolding get_found
  get_found-Preserves msg none = Preserves-lift _
  get_found-Preserves msg (some p) = search (calls_rules, get_in-Preserves)

  pub handle_get-Preserves : (msg : Message) → Preserves I (handle_get msg)
  unfolding handle_get
  handle_get-Preserves msg = search (calls_rules, get_found-Preserves)

  pub roll_back_all-Preserves : (pointers : List ℕ) → Preserves I (roll_back_all pointers)
  unfolding roll_back_all
  roll_back_all-Preserves [] = Preserves-lift _
  roll_back_all-Preserves (p ∷ pointers) = Preserves-bind (Preserves-rollback_table closed p) (λ _.
      Preserves-bind (Preserves-unlock_table closed p) (λ _. roll_back_all-Preserves pointers))
