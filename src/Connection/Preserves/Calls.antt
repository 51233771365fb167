-- ===== src/Connection/Preserves/Calls.antt =====
-- The calls of the methods that commit nothing.
use computer_systems_assignm.Prelude.{ℕ, ◌≡◌, refl, Option, none, some, arith}
use computer_systems_assignm.Exceptions.{Outcome, ok, throw, blocked, undefined}
use computer_systems_assignm.Text.{Bytes}
use computer_systems_assignm.Message.{Message}
use computer_systems_assignm.Table
use computer_systems_assignm.Table.{Table, Mutex, with_mutex}
use computer_systems_assignm.Server.{Server}
use computer_systems_assignm.Connection.State.{
  ClientConnection, State, Exec, ◌>>=◌, lift, modify_conn,
}
use computer_systems_assignm.Connection.Calls.{
  deref, store_table, this_client, push_value, top_value, pop_value, stack_size, lock_table,
  unlock_table, trylock_table, set_entry, has_entry, get_entry, rollback_table, store_server,
  lock_server, unlock_server, find_table, send, write_ok, end_loop,
}
use computer_systems_assignm.Connection.Preserves.{
  Preserves, IsClosed, Preserves-bind, Preserves-known, Preserves-catch, Preserves-lift,
  Preserves-gets, Preserves-if, preserves_rules,
}

-- A result with the committed entries of `t`.
abbrev SamePairs : Table → Outcome Table → Type 0
SamePairs t (ok t') = t'.key_value_pairs ≡ t.key_value_pairs
SamePairs t (throw e) = Unit
SamePairs t blocked = Unit
SamePairs t undefined = Unit

with_mutex-SamePairs : (t : Table) (m : Outcome Mutex) → SamePairs t (with_mutex t m)
with_mutex-SamePairs t (ok m) = refl
with_mutex-SamePairs t (throw e) = tt
with_mutex-SamePairs t blocked = tt
with_mutex-SamePairs t undefined = tt

lock-SamePairs : (me : ℕ) (t : Table) → SamePairs t (Table.lock me t)
unfolding Table.lock
lock-SamePairs me t = with_mutex-SamePairs t _

unlock-SamePairs : (me : ℕ) (t : Table) → SamePairs t (Table.unlock me t)
unfolding Table.unlock
unlock-SamePairs me t = with_mutex-SamePairs t _

trylock_pairs : (me : ℕ) (t : Table) → (Table.trylock me t).0.key_value_pairs ≡ t.key_value_pairs
unfolding Table.trylock
trylock_pairs me t = ground arith

module _ {I : State → Type 0} (closed : IsClosed I) where
  module _ {A : Type 0} where
    deref_outcome :
        (p : ℕ) (k : Table → Exec A) (s : State) (x : Option Table)
        → s.tables p ≡ x
        → I s
        → ((t : Table) → s.tables p ≡ some t → I (k t s).1)
        → I ((deref p >>= k) s).1
    unfolding ◌>>=◌ deref
    deref_outcome p k s none e i h = rw (e, deref) i
    deref_outcome p k s (some t) e i h = rw (e, deref) (h t e)

    Preserves-deref :
        (p : ℕ) (k : Table → Exec A)
        → ((s : State) (t : Table) → s.tables p ≡ some t → I s → I (k t s).1)
        → Preserves I (deref p >>= k)
    Preserves-deref p k h = record {
      at = λ s i. deref_outcome p k s (s.tables p) refl i (λ t e. h s t e i);
    }

  stored :
      (p : ℕ) (s : State) (t : Table) (o : Outcome Table)
      → s.tables p ≡ some t
      → SamePairs t o
      → I s
      → I ((lift o >>= store_table p) s).1
  unfolding ◌>>=◌ lift store_table
  stored p s t (ok t') e same i = closed.table s p t t' e same i
  stored p s t (throw x) e same i = i
  stored p s t blocked e same i = i
  stored p s t undefined e same i = i

  pub Preserves-lock_table : (p : ℕ) → Preserves I (lock_table p)
  unfolding lock_table this_client
  Preserves-lock_table p = Preserves-bind (Preserves-gets _) (λ me.
      Preserves-deref p _ (λ s t e i. stored p s t (Table.lock me t) e (lock-SamePairs me t) i))

  pub Preserves-unlock_table : (p : ℕ) → Preserves I (unlock_table p)
  unfolding unlock_table this_client
  Preserves-unlock_table p = Preserves-bind (Preserves-gets _) (λ me.
      Preserves-deref p _ (λ s t e i. stored p s t (Table.unlock me t) e (unlock-SamePairs me t) i))

  pub Preserves-trylock_table : (p : ℕ) → Preserves I (trylock_table p)
  unfolding trylock_table this_client ◌>>=◌ store_table lift
  Preserves-trylock_table p = Preserves-bind (Preserves-gets _) (λ me.
      Preserves-deref p _
        (λ s t e i. closed.table s p t (Table.trylock me t).0 e (trylock_pairs me t) i))

  pub Preserves-set_entry : (p : ℕ) (key value : Bytes) → Preserves I (set_entry p key value)
  unfolding set_entry store_table
  Preserves-set_entry p key value =
      Preserves-deref p _
        (λ s t e i. closed.table s p t (Table.set key value t) e (unfold Table.set in refl) i)

  pub Preserves-rollback_table : (p : ℕ) → Preserves I (rollback_table p)
  unfolding rollback_table store_table
  Preserves-rollback_table p = Preserves-deref p _ (λ s t e i.
      closed.table s p t (Table.rollback_changes t) e (unfold Table.rollback_changes in refl) i)

  pub Preserves-has_entry : (p : ℕ) (key : Bytes) → Preserves I (has_entry p key)
  unfolding has_entry lift
  Preserves-has_entry p key = Preserves-deref p _ (λ s t e i. i)

  pub Preserves-get_entry : (p : ℕ) (key : Bytes) → Preserves I (get_entry p key)
  unfolding get_entry lift
  Preserves-get_entry p key = Preserves-deref p _ (λ s t e i. i)

  pub Preserves-modify_conn :
      (f : ClientConnection → ClientConnection)
      → ((c : ClientConnection) → (f c).in_transaction ≡ c.in_transaction)
      → Preserves I (modify_conn f)
  unfolding modify_conn
  Preserves-modify_conn f same = record { at = λ s i. closed.conn s (f s.conn) (same s.conn) i }

  pub Preserves-push_value : (value : Bytes) → Preserves I (push_value value)
  unfolding push_value
  Preserves-push_value value = Preserves-modify_conn _ (λ c. refl)

  pub Preserves-top_value : Preserves I top_value
  unfolding top_value
  Preserves-top_value = search preserves_rules

  pub Preserves-pop_value : Preserves I pop_value
  unfolding pop_value
  Preserves-pop_value =
      Preserves-bind (search preserves_rules) (λ rest. Preserves-modify_conn _ (λ c. refl))

  pub Preserves-stack_size : Preserves I stack_size
  unfolding stack_size
  Preserves-stack_size = Preserves-gets _

  pub Preserves-send : (m : Message) → Preserves I (send m)
  unfolding send
  Preserves-send m = Preserves-bind (Preserves-lift _) (λ text. Preserves-modify_conn _ (λ c. refl))

  pub Preserves-write_ok : Preserves I write_ok
  unfolding write_ok
  Preserves-write_ok = Preserves-send _

  pub Preserves-end_loop : Preserves I end_loop
  unfolding end_loop
  Preserves-end_loop = Preserves-modify_conn _ (λ c. refl)

  pub Preserves-find_table : (name : Bytes) → Preserves I (find_table name)
  unfolding find_table
  Preserves-find_table name = Preserves-gets _

  store_server-kept : (server : Server) → Preserves I (store_server server)
  unfolding store_server
  store_server-kept server = record { at = λ s i. closed.server s server i }

  pub Preserves-lock_server : Preserves I lock_server
  unfolding lock_server this_client
  Preserves-lock_server =
      Preserves-bind (Preserves-gets _)
        (λ me. Preserves-bind (search preserves_rules) (λ server. store_server-kept server))

  pub Preserves-unlock_server : Preserves I unlock_server
  unfolding unlock_server this_client
  Preserves-unlock_server =
      Preserves-bind (Preserves-gets _)
        (λ me. Preserves-bind (search preserves_rules) (λ server. store_server-kept server))

pub ruleset calls_rules = (
  preserves_rules, Preserves-lock_table, Preserves-unlock_table, Preserves-trylock_table,
  Preserves-set_entry, Preserves-rollback_table, Preserves-has_entry, Preserves-get_entry,
  Preserves-push_value, Preserves-top_value, Preserves-pop_value, Preserves-stack_size,
  Preserves-send, Preserves-write_ok, Preserves-end_loop, Preserves-find_table,
  Preserves-lock_server, Preserves-unlock_server,
)
