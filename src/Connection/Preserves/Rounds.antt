-- ===== src/Connection/Preserves/Rounds.antt =====
-- The rounds of chat_with_client in a transaction: they commit nothing but on COMMIT.
use computer_systems_assignm.Prelude.{
  ℕ, ◌≤◌, ◌≡◌, ◌≢◌, refl, Bool, true, false, Option, none, some, ltb, length, if◌then◌else◌,
}
use computer_systems_assignm.Exceptions.{
  Outcome, ok, throw, blocked, undefined, Exception, invalid_message, comm_exception,
  operation_exception, failed_transaction, invalid_argument, out_of_range,
}
use computer_systems_assignm.Message.{MessageType, Message, ◌is◌}
use computer_systems_assignm.Serialization.{max_encoded_len, decode}
use computer_systems_assignm.Connection.State.{State, Exec, ◌>>=◌, lift}
use computer_systems_assignm.Connection.Handlers.{call_response_function}
use computer_systems_assignm.Connection.Chat.{
  Read, nothing, line, c_string, Locals, handle_login, recover_login, handle_decoded, handle_text,
  chat_round,
}
use computer_systems_assignm.Connection.Preserves.{
  continued, Preserves, Preserves-bind, Preserves-lift, Preserves-catch,
}
use computer_systems_assignm.Connection.Preserves.Calls.{
  Preserves-send, Preserves-write_ok, Preserves-end_loop,
}
use computer_systems_assignm.Connection.Preserves.Isolation.{
  SameCommitted, SameCommitted-closed, SameCommitted-refl, manage_exception-Preserves,
  call_response_function-SameCommitted,
}

-- The line is decoded to COMMIT.
abbrev pub IsCommit : Read → Locals → Type 0
IsCommit nothing l = ⊥
IsCommit (line text) l =
    (m : Message) × (decode (c_string text) l.client_msg ≡ ok m)
    × (m.message_type ≡ MessageType.commit)

module _ (s₀ : State) (fresh : (p : ℕ) → s₀.next ≤ p → s₀.tables p ≡ none) where
  handle_login-Preserves : (first : Option Bool) → Preserves (SameCommitted s₀) (handle_login first)
  unfolding handle_login
  handle_login-Preserves none = Preserves-lift _
  handle_login-Preserves (some b) =
      Preserves-bind (Preserves-write_ok (SameCommitted-closed s₀ fresh)) (λ _. Preserves-lift _)

  recover_login-Preserves :
      (first : Bool) (e : Exception) → Preserves (SameCommitted s₀) (recover_login first e)
  unfolding recover_login
  recover_login-Preserves first (operation_exception what) =
      Preserves-bind (manage_exception-Preserves s₀ fresh what true) (λ _. Preserves-lift _)
  recover_login-Preserves first (invalid_message what) = Preserves-lift _
  recover_login-Preserves first (comm_exception what) = Preserves-lift _
  recover_login-Preserves first (failed_transaction what) = Preserves-lift _
  recover_login-Preserves first invalid_argument = Preserves-lift _
  recover_login-Preserves first out_of_range = Preserves-lift _

  module _ (ongoing : s₀.conn.in_transaction ≡ true) where
    start : SameCommitted s₀ s₀
    start = SameCommitted-refl s₀ fresh

    if_same :
        {A : Type 0} (b : Bool) (m n : Exec A)
        → SameCommitted s₀ (m s₀).1
        → SameCommitted s₀ (n s₀).1
        → SameCommitted s₀ ((if b then m else n) s₀).1
    if_same true m n h k = h
    if_same false m n h k = k

    handle_decoded-same :
        (l : Locals)
        → l.client_msg.message_type ≢ MessageType.commit
        → SameCommitted s₀ (handle_decoded l s₀).1
    unfolding handle_decoded ◌>>=◌
    handle_decoded-same l n =
        if_same (l.client_msg.message_type is MessageType.login) _ _
          ((Preserves-bind
              (Preserves-catch (handle_login-Preserves (some l.first_valid_message))
                (recover_login-Preserves l.first_valid_message))
              (λ first. Preserves-lift _)).at
            s₀ start)
          (if_same l.first_valid_message _ _
            ((Preserves-bind (Preserves-send (SameCommitted-closed s₀ fresh) _) (λ _.
                Preserves-bind (Preserves-end_loop (SameCommitted-closed s₀ fresh))
                  (λ _. Preserves-lift _))).at
              s₀ start)
            (continued {I = SameCommitted s₀} (λ _. lift (ok l))
              (call_response_function l.client_msg s₀) (λ _. Preserves-lift _)
              (call_response_function-SameCommitted s₀ fresh l.client_msg ongoing n)))

    handle_text-same :
        (l : Locals) (o : Outcome Message)
        → ((m : Message) → o ≡ ok m → m.message_type ≢ MessageType.commit)
        → SameCommitted s₀ (handle_text l o s₀).1
    unfolding handle_text lift
    handle_text-same l (ok m) n = handle_decoded-same (record l { client_msg = m }) (n m refl)
    handle_text-same l (throw (invalid_message what)) n =
        (Preserves-bind (manage_exception-Preserves s₀ fresh what false) (λ _. Preserves-lift _)).at
          s₀ start
    handle_text-same l (throw e) n = start
    handle_text-same l blocked n = start
    handle_text-same l undefined n = start

    -- In a transaction, a round of the loop on a line that is not decoded to COMMIT leaves the committed
    -- entries of every table as they are, whether it returns, throws, waits or is undefined.
    pub chat_round-SameCommitted :
        (r : Read) (l : Locals) → (IsCommit r l → ⊥) → SameCommitted s₀ (chat_round r l s₀).1
    unfolding chat_round lift
    chat_round-SameCommitted nothing l n =
        (Preserves-bind (Preserves-end_loop (SameCommitted-closed s₀ fresh))
            (λ _. Preserves-lift _)).at
          s₀ start
    chat_round-SameCommitted (line text) l n =
        if_same (ltb (length text) max_encoded_len) _ _
          (handle_text-same l (decode (c_string text) l.client_msg) (λ m d c. n (m, d, c))) start
