-- ===== src/Connection/Requests.antt =====
-- COMMIT, the end of a failed transaction, and the destructor: what they do to the locks.
use mathlib.Core.Path.{subst}
use computer_systems_assignm.Prelude.{ℕ, ◌≡◌, refl, ◌∙◌, Bool, true, false, List, [], ◌∷◌}
use computer_systems_assignm.Text.{Bytes}
use computer_systems_assignm.Connection.State.{ClientConnection, State, Exec, modify_conn}
use computer_systems_assignm.Connection.Transactions.{
  roll_back_all, commit_all, leave_transaction, fail_transaction, fail_if, manage_exception,
  commit_if_ongoing, handle_commit,
}
use computer_systems_assignm.Connection.Chat.{delete_connection}
use computer_systems_assignm.Connection.Triple.{
  Spec, Triple, Triple-bind, Triple-gets, Triple-pure, Triple-if, Triple-pre,
}
use computer_systems_assignm.Connection.Owns.{Owns, Ready, At, Owns-conn, Frame-conn}
use computer_systems_assignm.Connection.Keeps.{
  Triple-rollback_table, Triple-commit_table, Triple-unlock_table, is_locked-head,
}
use computer_systems_assignm.Connection.Steady.{
  Steady, Steady-bind, Steady-pure, Steady-raise, Steady-gets, Steady-if, Steady-send,
  Steady-write_ok,
}

-- The loops unlock every table of the list.
roll_back_all-At :
    (pointers : List ℕ) (c : ClientConnection) {q : Spec (Unit {0})}
    → ((s : State) → At [] c s → q.returns tt s)
    → Triple (At pointers c) (roll_back_all pointers) q
unfolding roll_back_all
roll_back_all-At [] c k = Triple-pure tt k
roll_back_all-At (p ∷ pointers) c k =
    Triple-bind (λ _. At (p ∷ pointers) c)
      (Triple-rollback_table p (p ∷ pointers) c (is_locked-head p pointers) (λ s h. h))
      (λ _.
        Triple-bind (λ _. At pointers c) (Triple-unlock_table p pointers c (λ s h. h))
          (λ _. roll_back_all-At pointers c k))

commit_all-At :
    (pointers : List ℕ) (c : ClientConnection) {q : Spec (Unit {0})}
    → ((s : State) → At [] c s → q.returns tt s)
    → Triple (At pointers c) (commit_all pointers) q
unfolding commit_all
commit_all-At [] c k = Triple-pure tt k
commit_all-At (p ∷ pointers) c k =
    Triple-bind (λ _. At (p ∷ pointers) c)
      (Triple-commit_table p (p ∷ pointers) c (is_locked-head p pointers) (λ s h. h))
      (λ _.
        Triple-bind (λ _. At pointers c) (Triple-unlock_table p pointers c (λ s h. h))
          (λ _. commit_all-At pointers c k))

-- Ready, with no transaction going on.
pub record Out (s : State) : Type 0 where
  pub ready : Ready s
  pub out : s.conn.in_transaction ≡ false

leave_transaction-Out :
    (c : ClientConnection) {q : Spec (Unit {0})}
    → ((s : State) → Out s → q.returns tt s)
    → Triple (At [] c) leave_transaction q
unfolding leave_transaction modify_conn
leave_transaction-Out c k = record {
  at = λ s (o, e).
      let c' : ClientConnection = record (s.conn) { locked_tables = []; in_transaction = false } in
      (
        Frame-conn s c' refl,
        k _ (record {
          ready = record { owns = Owns-conn s c' refl o; idle = λ h. refl };
          out = refl;
        }),
      );
}

-- A triple about a state whose connection is known.
pub by_conn :
    {A : Type 0} {m : Exec A} {q : Spec A} {P : State → Type 0}
    → ((c : ClientConnection) → Triple (λ s. P s × (s.conn ≡ c)) m q)
    → Triple P m q
by_conn k = record { at = λ s h. (k s.conn).at s (h, refl) }

-- The locks at the start of a request, and what is known of the connection.
pub start_of_request :
    (c : ClientConnection) (pointers : List ℕ) (s : State)
    → (Ready s × (s.conn ≡ c)) × (s.conn.locked_tables ≡ pointers)
    → At pointers c s
start_of_request c pointers s h = (subst (λ ps. Owns ps s) h.1 h.0.0.owns, h.0.1)

pub fail_transaction-Out :
    {q : Spec (Unit {0})} → ((s : State) → Out s → q.returns tt s) → Triple Ready fail_transaction q
unfolding fail_transaction
fail_transaction-Out k = by_conn λ c.
    Triple-gets (λ s. s.conn.locked_tables)
      λ pointers. Triple-pre (At pointers c) (start_of_request c pointers) (
        Triple-bind (λ _. At [] c) (roll_back_all-At pointers c (λ s h. h))
          (λ _. leave_transaction-Out c k))

fail_if-Steady : {g : Type 0} (ongoing : Bool) → Steady g (fail_if ongoing)
unfolding fail_if
fail_if-Steady ongoing =
    Steady-if ongoing (λ w. fail_transaction-Out (λ s o. o.ready)) (Steady-pure tt)

pub manage_exception-Steady :
    {g : Type 0} (what : Bytes) (recoverable : Bool) → Steady g (manage_exception what recoverable)
unfolding manage_exception
manage_exception-Steady {g} what recoverable =
    Steady-bind (Steady-gets _)
      (λ ongoing. Steady-bind (fail_if-Steady ongoing) (λ _. Steady-send _))

-- The destructor rolls back and unlocks what the client still holds.
pub delete_connection-Out :
    {q : Spec (Unit {0})}
    → ((s : State) → Out s → q.returns tt s)
    → Triple Ready delete_connection q
unfolding delete_connection fail_if
delete_connection-Out k =
    Triple-gets (λ s. s.conn.in_transaction)
      λ ongoing.
        Triple-if ongoing (λ e. Triple-pre Ready (λ s h. h.0) (fail_transaction-Out k))
          (λ e. Triple-pure tt (λ s h. k s (record { ready = h.0; out = h.1 ∙ e })))

commit_if_ongoing-Steady : {g : Type 0} (ongoing : Bool) → Steady g (commit_if_ongoing ongoing)
unfolding commit_if_ongoing
commit_if_ongoing-Steady false = Steady-raise _
commit_if_ongoing-Steady {g} true = λ w. by_conn λ c.
    Triple-gets (λ s. s.conn.locked_tables)
      λ pointers. Triple-pre (At pointers c) (start_of_request c pointers) (
        Triple-bind (λ _. At [] c) (commit_all-At pointers c (λ s h. h))
          (λ _.
            Triple-bind (λ _. Ready) (leave_transaction-Out c (λ s o. o.ready))
              (λ _. Steady-write_ok (λ s. ⊥))))

pub handle_commit-Steady : {g : Type 0} → Steady g handle_commit
unfolding handle_commit
handle_commit-Steady = Steady-bind (Steady-gets _) commit_if_ongoing-Steady
