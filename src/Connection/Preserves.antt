-- ===== src/Connection/Preserves.antt =====
-- Invariants of the methods of ClientConnection, whatever their outcome; those that do not speak of what
-- is committed.
pub mod Calls
pub mod Handlers
pub mod Isolation
pub mod Rounds
use computer_systems_assignm.Prelude.{
  ℕ, ◌≡◌, refl, Bool, true, false, List, [], ◌∷◌, Option, none, some, arith, if◌then◌else◌,
}
use computer_systems_assignm.Exceptions.{Outcome, ok, throw, blocked, undefined, Exception}
use computer_systems_assignm.Text.{Bytes}
use computer_systems_assignm.Message.{Message}
use computer_systems_assignm.Table
use computer_systems_assignm.Table.{Table, Mutex, with_mutex}
use computer_systems_assignm.Server.{Server}
use computer_systems_assignm.Connection.State.{
  ClientConnection, State, Exec, ◌>>=◌, ◌>>◌, lift, catch, gets, modify_conn, pure, raise, continue,
  handle,
}
use computer_systems_assignm.Connection.Calls.{
  put_table, deref, store_table, this_client, push_value, top_value, pop_value, stack_size,
  lock_table, unlock_table, trylock_table, set_entry, has_entry, get_entry, rollback_table,
  store_server, lock_server, unlock_server, find_table, create_table, send, write_ok, end_loop,
}

pub record Preserves {A : Type 0} (I : State → Type 0) (m : Exec A) : Type 0 where
  pub at : (s : State) → I s → I (m s).1

-- The invariant admits every change that keeps the connection's `in_transaction`, and the committed entries of
-- each table.
pub record IsClosed (I : State → Type 0) : Type 0 where
  pub conn :
      (s : State) (c : ClientConnection)
      → c.in_transaction ≡ s.conn.in_transaction
      → I s
      → I (record s { conn = c })
  pub table :
      (s : State) (p : ℕ) (t t' : Table)
      → s.tables p ≡ some t
      → t'.key_value_pairs ≡ t.key_value_pairs
      → I s
      → I (record s { tables = put_table s.tables p t' })
  pub server : (s : State) (server : Server) → I s → I (record s { server = server })
  pub made : (name : Bytes) → Preserves I (create_table name)

module _ {I : State → Type 0} where
  module _ {A B : Type 0} where
    pub continued :
        (f : A → Exec B) (o : Outcome A × State)
        → ((a : A) → Preserves I (f a))
        → I o.1
        → I (continue o.0 f o.1).1
    continued f (ok a, s) h i = (h a).at s i
    continued f (throw e, s) h i = i
    continued f (blocked, s) h i = i
    continued f (undefined, s) h i = i

    pub Preserves-bind :
        {m : Exec A} {f : A → Exec B}
        → Preserves I m
        → ((a : A) → Preserves I (f a))
        → Preserves I (m >>= f)
    unfolding ◌>>=◌
    Preserves-bind {m} {f} h k = record { at = λ s i. continued f (m s) k (h.at s i) }

    -- A read of what the invariant determines.
    pub Preserves-known :
        (g : State → A) (a : A) (f : A → Exec B)
        → ((s : State) → I s → g s ≡ a)
        → Preserves I (f a)
        → Preserves I (gets g >>= f)
    unfolding ◌>>=◌ gets
    Preserves-known g a f h k = record { at = λ s i. rw (h s i) (k.at s i) }

  module _ {A : Type 0} where
    handled :
        (c : Exception → Exec A) (o : Outcome A × State)
        → ((e : Exception) → Preserves I (c e))
        → I o.1
        → I (handle o.0 c o.1).1
    handled c (ok a, s) h i = i
    handled c (throw e, s) h i = (h e).at s i
    handled c (blocked, s) h i = i
    handled c (undefined, s) h i = i

    pub Preserves-catch :
        {m : Exec A} {c : Exception → Exec A}
        → Preserves I m
        → ((e : Exception) → Preserves I (c e))
        → Preserves I (catch m c)
    unfolding catch
    Preserves-catch {m} {c} h k = record { at = λ s i. handled c (m s) k (h.at s i) }

    pub Preserves-lift : (r : Outcome A) → Preserves I (lift r)
    unfolding lift
    Preserves-lift r = record { at = λ s i. i }

    pub Preserves-gets : (g : State → A) → Preserves I (gets g)
    unfolding gets
    Preserves-gets g = record { at = λ s i. i }

    pub Preserves-if :
        (b : Bool) {m n : Exec A} → Preserves I m → Preserves I n → Preserves I (if b then m else n)
    Preserves-if true h k = h
    Preserves-if false h k = k

pub ruleset preserves_rules =
    (Preserves-bind, Preserves-lift, Preserves-gets, Preserves-if, Preserves-catch)
