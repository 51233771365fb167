-- ===== src/Connection/Preserves/Isolation.antt =====
-- What a transaction has not committed is in no table's committed entries.
use computer_systems_assignm.Prelude.{
  ℕ, ◌≤◌, ◌≡◌, ◌≢◌, refl, ◌∙◌, Bool, true, false, Option, none, some, arith, ◌==◌, Bool-cases, inl,
  inr,
}
use computer_systems_assignm.Exceptions.{
  Exception, invalid_message, comm_exception, operation_exception, failed_transaction,
  invalid_argument, out_of_range,
}
use computer_systems_assignm.Text.{Bytes}
use computer_systems_assignm.Message.{MessageType, Message}
use computer_systems_assignm.Table.{Table}
use computer_systems_assignm.Connection.State.{State, catch, modify_conn}
use computer_systems_assignm.Connection.Calls.{put_table, create_table}
use computer_systems_assignm.Connection.Transactions.{
  handle_begin, begin_if_idle, fail_transaction, fail_if, leave_transaction, manage_exception,
  on_exception,
}
use computer_systems_assignm.Connection.Handlers.{
  set_in, set_found, handle_set, respond, call_response_function,
}
use computer_systems_assignm.Connection.Chat.{delete_connection}
use computer_systems_assignm.Connection.Preserves.{
  handled, Preserves, IsClosed, Preserves-bind, Preserves-known, Preserves-lift, Preserves-gets,
  Preserves-if,
}
use computer_systems_assignm.Connection.Preserves.Calls.{
  calls_rules, Preserves-send, Preserves-end_loop,
}
use computer_systems_assignm.Connection.Preserves.Handlers.{
  handle_create-Preserves, handle_pop-Preserves, handle_top-Preserves, handle_add-Preserves,
  handle_sub-Preserves, handle_mul-Preserves, handle_div-Preserves, handle_bye-Preserves,
  handle_push-Preserves, set_table_value-Preserves, acquire-Preserves, require_one-Preserves,
  handle_get-Preserves, roll_back_all-Preserves,
}

module _ (s₀ : State) where
  -- Every table of `s₀` is still there, with the committed entries that it had.
  pub record SameCommitted (s : State) : Type 0 where
    pub same :
        (p : ℕ) (t : Table)
        → s₀.tables p ≡ some t
        → (t' : Table) × (s.tables p ≡ some t') × (t'.key_value_pairs ≡ t.key_value_pairs)
    pub later : s₀.next ≤ s.next

  -- The same, and the transaction goes on.
  pub record Ongoing (s : State) : Type 0 where
    pub kept : SameCommitted s
    pub ongoing : s.conn.in_transaction ≡ true

same_pairs :
    (tables : ℕ → Option Table) (p q : ℕ) (t u : Table)
    → tables p ≡ some t
    → tables q ≡ some u
    → (p == q) ≡ true
    → t.key_value_pairs ≡ u.key_value_pairs
same_pairs tables p q t u e e' h = ground arith

module _ (s₀ : State) (fresh : (p : ℕ) → s₀.next ≤ p → s₀.tables p ≡ none) where
  stored-same :
      (s : State) (p : ℕ) (t t' : Table)
      → s.tables p ≡ some t
      → t'.key_value_pairs ≡ t.key_value_pairs
      → SameCommitted s₀ s
      → SameCommitted s₀ (record s { tables = put_table s.tables p t' })
  stored-same s p t t' e pairs i = record {
    same = λ q t₀ e₀.
        let (u, eu, old) = i.same q t₀ e₀ in
        elim (Bool-cases (p == q)) [
          | inl h ↦ (t', rw h refl, pairs ∙ same_pairs s.tables p q t u e eu h ∙ old)
          | inr h ↦ (u, rw h eu, old)
        ];
    later = i.later;
  }

  not_new :
      (s : State) (q : ℕ) (t : Table)
      → SameCommitted s₀ s
      → s₀.tables q ≡ some t
      → (s.next == q) ≢ true
  not_new s q t i e h = ground (arith, fresh q, i.later)

  created-same :
      (name : Bytes) (s : State) → SameCommitted s₀ s → SameCommitted s₀ (create_table name s).1
  unfolding create_table
  created-same name s i = record {
    same = λ q t₀ e₀.
        let (u, eu, old) = i.same q t₀ e₀ in
        elim (Bool-cases (s.next == q)) [
          | inl h ↦ absurd (not_new s q t₀ i e₀ h)
          | inr h ↦ (u, rw h eu, old)
        ];
    later = omega (arith, i.later);
  }

  pub SameCommitted-closed : IsClosed (SameCommitted s₀)
  SameCommitted-closed = record {
    conn = λ s c e i. record { same = i.same; later = i.later };
    table = stored-same;
    server = λ s server i. record { same = i.same; later = i.later };
    made = λ name. record { at = created-same name };
  }

  Ongoing-closed : IsClosed (Ongoing s₀)
  unfolding create_table
  Ongoing-closed = record {
    conn = λ s c e i. record {
      kept = SameCommitted-closed.conn s c e i.kept;
      ongoing = e ∙ i.ongoing;
    };
    table = λ s p t t' e pairs i. record {
      kept = stored-same s p t t' e pairs i.kept;
      ongoing = i.ongoing;
    };
    server = λ s server i. record {
      kept = SameCommitted-closed.server s server i.kept;
      ongoing = i.ongoing;
    };
    made = λ name. record {
      at = λ s i. record { kept = created-same name s i.kept; ongoing = i.ongoing };
    };
  }

  -- SET in a transaction.
  set_found-Preserves :
      (msg : Message) (found : Option ℕ) → Preserves (Ongoing s₀) (set_found msg found)
  unfolding set_found set_in
  set_found-Preserves msg none = Preserves-lift _
  set_found-Preserves msg (some p) =
      let closed : IsClosed (Ongoing s₀) = Ongoing-closed in
      Preserves-known (λ s. s.conn.in_transaction) true _ (λ s i. i.ongoing)
        (search (calls_rules, acquire-Preserves, set_table_value-Preserves))

  handle_set-Preserves : (msg : Message) → Preserves (Ongoing s₀) (handle_set msg)
  unfolding handle_set
  handle_set-Preserves msg =
      let closed : IsClosed (Ongoing s₀) = Ongoing-closed in
      search (calls_rules, require_one-Preserves, set_found-Preserves)

  handle_begin-Preserves : Preserves (Ongoing s₀) handle_begin
  unfolding handle_begin begin_if_idle
  handle_begin-Preserves =
      Preserves-known (λ s. s.conn.in_transaction) true _ (λ s i. i.ongoing) (Preserves-lift _)

  respond-Preserves :
      (t : MessageType) (msg : Message)
      → t ≢ MessageType.commit
      → Preserves (Ongoing s₀) (respond t msg)
  unfolding respond
  respond-Preserves MessageType.commit msg n = absurd (n refl)
  respond-Preserves MessageType.create msg n = handle_create-Preserves Ongoing-closed msg
  respond-Preserves MessageType.begin msg n = handle_begin-Preserves
  respond-Preserves MessageType.pop msg n = handle_pop-Preserves Ongoing-closed
  respond-Preserves MessageType.top msg n = handle_top-Preserves Ongoing-closed
  respond-Preserves MessageType.add msg n = handle_add-Preserves Ongoing-closed
  respond-Preserves MessageType.sub msg n = handle_sub-Preserves Ongoing-closed
  respond-Preserves MessageType.mul msg n = handle_mul-Preserves Ongoing-closed
  respond-Preserves MessageType.div msg n = handle_div-Preserves Ongoing-closed
  respond-Preserves MessageType.bye msg n = handle_bye-Preserves Ongoing-closed
  respond-Preserves MessageType.push msg n = handle_push-Preserves Ongoing-closed msg
  respond-Preserves MessageType.set msg n = handle_set-Preserves msg
  respond-Preserves MessageType.get msg n = handle_get-Preserves Ongoing-closed msg
  respond-Preserves t msg n = Preserves-lift _

  leave_transaction-Preserves : Preserves (SameCommitted s₀) leave_transaction
  unfolding leave_transaction modify_conn
  leave_transaction-Preserves = record { at = λ s i. record { same = i.same; later = i.later } }

  pub fail_transaction-Preserves : Preserves (SameCommitted s₀) fail_transaction
  unfolding fail_transaction
  fail_transaction-Preserves = Preserves-bind (Preserves-gets _) (λ pointers.
      Preserves-bind (roll_back_all-Preserves SameCommitted-closed pointers)
        (λ _. leave_transaction-Preserves))

  pub manage_exception-Preserves :
      (what : Bytes) (recoverable : Bool)
      → Preserves (SameCommitted s₀) (manage_exception what recoverable)
  unfolding manage_exception fail_if
  manage_exception-Preserves what recoverable = Preserves-bind (Preserves-gets _) (λ ongoing.
      Preserves-bind (Preserves-if ongoing fail_transaction-Preserves (Preserves-lift _))
        (λ _. Preserves-send SameCommitted-closed _))

  on_exception-Preserves : (e : Exception) → Preserves (SameCommitted s₀) (on_exception e)
  unfolding on_exception
  on_exception-Preserves (invalid_message what) =
      Preserves-bind (Preserves-end_loop SameCommitted-closed)
        (λ _. manage_exception-Preserves what false)
  on_exception-Preserves (comm_exception what) = manage_exception-Preserves what true
  on_exception-Preserves (operation_exception what) = manage_exception-Preserves what true
  on_exception-Preserves (failed_transaction what) = manage_exception-Preserves what true
  on_exception-Preserves invalid_argument = Preserves-lift _
  on_exception-Preserves out_of_range = Preserves-lift _

  pub SameCommitted-refl : SameCommitted s₀ s₀
  SameCommitted-refl = record { same = λ p t e. (t, e, refl); later = omega arith }

  -- In a transaction, a request other than COMMIT leaves the committed entries of every table as they are,
  -- whether it returns, throws, waits or is undefined. The request may fail the transaction.
  pub call_response_function-SameCommitted :
      (m : Message)
      → s₀.conn.in_transaction ≡ true
      → m.message_type ≢ MessageType.commit
      → SameCommitted s₀ (call_response_function m s₀).1
  unfolding call_response_function catch
  call_response_function-SameCommitted m ongoing n =
      let start : Ongoing s₀ s₀ = record { kept = SameCommitted-refl; ongoing = ongoing } in
      handled on_exception (respond m.message_type m s₀) on_exception-Preserves
        ((respond-Preserves m.message_type m n).at s₀ start).kept

  -- The destructor of a connection commits nothing.
  pub delete_connection-Preserves : Preserves (SameCommitted s₀) delete_connection
  unfolding delete_connection fail_if
  delete_connection-Preserves =
      Preserves-bind (Preserves-gets _)
        (λ ongoing. Preserves-if ongoing fail_transaction-Preserves (Preserves-lift _))
