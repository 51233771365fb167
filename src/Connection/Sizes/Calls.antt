-- ===== src/Connection/Sizes/Calls.antt =====
-- The calls of the methods.
use computer_systems_assignm.Prelude.{
  ℕ, ◌≡◌, refl, Bool-cases, inl, inr, All, [], ◌∷◌, Option, none, some, arith, ◌==◌,
}
use mathlib.Core.Path.{subst}
use computer_systems_assignm.Exceptions.{Outcome, ok, undefined}
use computer_systems_assignm.Text.{Bytes}
use computer_systems_assignm.ValueStack
use computer_systems_assignm.ValueStack.{ValueStack}
use computer_systems_assignm.Table
use computer_systems_assignm.Table.{Table, Mutex, with_mutex, commit_pairs}
use computer_systems_assignm.Server.{Server}
use computer_systems_assignm.Message.{Message}
use computer_systems_assignm.Serialization.{encode}
use computer_systems_assignm.Connection.State.{ClientConnection, State, modify_conn}
use computer_systems_assignm.Connection.Calls.{
  put_table, deref, store_table, this_client, push_value, top_value, pop_value, stack_size,
  lock_table, unlock_table, trylock_table, set_entry, has_entry, get_entry, commit_table,
  rollback_table, store_server, lock_server, unlock_server, find_table, create_table, send,
  write_ok, end_loop,
}
use computer_systems_assignm.Connection.Sizes.{
  IsShortValue, HasShortValues, IsShortTable, IsSmall, Left, Yields, Any, Yields-bind, Yields-lift,
  Yields-read, Yields-gets, Yields-Any, Yields-done, yields_rules,
}
use computer_systems_assignm.Connection.Sizes.Tables.{
  set-IsShortTable, commit_changes-IsShortTable, rollback_changes-IsShortTable,
  trylock-IsShortTable, get-short, table_lock-Yields, table_unlock-Yields,
}

pub stored_short :
    (s : State) (p : ℕ) (t : Table)
    → IsSmall s
    → IsShortTable t
    → (q : ℕ) (u : Table) → put_table s.tables p t q ≡ some u
    → IsShortTable u
stored_short s p t i h q u e = elim (Bool-cases (p == q)) [
  | inl b ↦ let same : t ≡ u = ground arith in subst IsShortTable same h
  | inr b ↦ i.tables q u (ground arith)
]

store_table-Yields : (p : ℕ) (t : Table) → IsShortTable t → Yields Any (store_table p t)
unfolding store_table
store_table-Yields p t h = record {
  at = λ s i. (record { stack = i.stack; tables = stored_short s p t i h }, tt);
}

pub create_table-Yields : (name : Bytes) → Yields Any (create_table name)
unfolding create_table Table.new_table
create_table-Yields name = record {
  at = λ s i. (
    record {
      stack = i.stack;
      tables = stored_short s s.next _ i (record { committed = tt; proposed = tt });
    },
    tt,
  );
}

store_server-Yields : (server : Server) → Yields Any (store_server server)
unfolding store_server
store_server-Yields server = record {
  at = λ s i. (record { stack = i.stack; tables = i.tables }, tt);
}

found-Left :
    (s : State) (i : IsSmall s) (x : Option Table)
    → ((t : Table) → x ≡ some t → IsShortTable t)
    → Left IsShortTable
        (elim x as (λ y. Outcome Table × State) [ none ↦ (undefined, s) | some t ↦ (ok t, s) ])
found-Left s i none h = i
found-Left s i (some t) h = (i, h t refl)

deref-Yields : (p : ℕ) → Yields IsShortTable (deref p)
unfolding deref
deref-Yields p = record { at = λ s i. found-Left s i (s.tables p) (i.tables p) }

-- A change of the connection that keeps the stack.
pub Yields-modify_conn :
    (f : ClientConnection → ClientConnection)
    → ((c : ClientConnection) → (f c).stack ≡ c.stack)
    → Yields Any (modify_conn f)
unfolding modify_conn
Yields-modify_conn f same = record {
  at = λ s i. (record { stack = rw (same s.conn) i.stack; tables = i.tables }, tt);
}

ruleset table_rules = (
  yields_rules, deref-Yields, store_table-Yields, table_lock-Yields, table_unlock-Yields,
  set-IsShortTable, commit_changes-IsShortTable, rollback_changes-IsShortTable,
  trylock-IsShortTable,
)

pub lock_table-Yields : (p : ℕ) → Yields Any (lock_table p)
unfolding lock_table this_client
lock_table-Yields p = search table_rules

pub unlock_table-Yields : (p : ℕ) → Yields Any (unlock_table p)
unfolding unlock_table this_client
unlock_table-Yields p = search table_rules

pub trylock_table-Yields : (p : ℕ) → Yields Any (trylock_table p)
unfolding trylock_table this_client
trylock_table-Yields p = search table_rules

pub set_entry-Yields :
    (p : ℕ) (key value : Bytes) → IsShortValue value → Yields Any (set_entry p key value)
unfolding set_entry
set_entry-Yields p key value v = search table_rules

pub has_entry-Yields : (p : ℕ) (key : Bytes) → Yields Any (has_entry p key)
unfolding has_entry
has_entry-Yields p key = search table_rules

pub get_entry-Yields : (p : ℕ) (key : Bytes) → Yields IsShortValue (get_entry p key)
unfolding get_entry
get_entry-Yields p key =
    Yields-bind (deref-Yields p) (λ t h. Yields-lift _ (λ v e. get-short t h key v e))

pub commit_table-Yields : (p : ℕ) → Yields Any (commit_table p)
unfolding commit_table
commit_table-Yields p = search table_rules

pub rollback_table-Yields : (p : ℕ) → Yields Any (rollback_table p)
unfolding rollback_table
rollback_table-Yields p = search table_rules

pub lock_server-Yields : Yields Any lock_server
unfolding lock_server this_client
lock_server-Yields =
    Yields-bind (Yields-gets _)
      (λ me _. Yields-bind (Yields-read _ (λ s x i e. tt)) (λ server _. store_server-Yields server))

pub unlock_server-Yields : Yields Any unlock_server
unfolding unlock_server this_client
unlock_server-Yields =
    Yields-bind (Yields-gets _)
      (λ me _. Yields-bind (Yields-read _ (λ s x i e. tt)) (λ server _. store_server-Yields server))

pub find_table-Yields : (name : Bytes) → Yields Any (find_table name)
unfolding find_table
find_table-Yields name = Yields-gets _

pub push_value-Yields : (value : Bytes) → IsShortValue value → Yields Any (push_value value)
unfolding push_value modify_conn ValueStack.push
push_value-Yields value v = record {
  at = λ s i. (record { stack = (v, i.stack); tables = i.tables }, tt);
}

get_top-short :
    (stack : ValueStack) (v : Bytes)
    → All IsShortValue stack
    → ValueStack.get_top stack ≡ ok v
    → IsShortValue v
unfolding ValueStack.get_top
get_top-short [] v h e = ground arith
get_top-short (w ∷ stack) v h e = let same : w ≡ v = ground arith in subst IsShortValue same h.0

pop-short :
    (stack rest : ValueStack)
    → All IsShortValue stack
    → ValueStack.pop stack ≡ ok rest
    → All IsShortValue rest
unfolding ValueStack.pop
pop-short [] rest h e = ground arith
pop-short (w ∷ stack) rest h e =
    let same : stack ≡ rest = ground arith in subst (All IsShortValue) same h.1

pub top_value-Yields : Yields IsShortValue top_value
unfolding top_value
top_value-Yields = Yields-read _ (λ s v i e. get_top-short s.conn.stack v i.stack e)

pub pop_value-Yields : Yields Any pop_value
unfolding pop_value modify_conn
pop_value-Yields =
    Yields-bind (Yields-read _ (λ s rest i e. pop-short s.conn.stack rest i.stack e))
      (λ rest h. record { at = λ s i. (record { stack = h; tables = i.tables }, tt) })

pub stack_size-Yields : Yields Any stack_size
unfolding stack_size
stack_size-Yields = Yields-gets _

pub end_loop-Yields : Yields Any end_loop
unfolding end_loop
end_loop-Yields = Yields-modify_conn _ (λ c. refl)

pub send-Yields : (m : Message) → Yields Any (send m)
unfolding send
send-Yields m = Yields-bind (Yields-Any (encode m)) (λ text _. Yields-modify_conn _ (λ c. refl))

pub write_ok-Yields : Yields Any write_ok
unfolding write_ok
write_ok-Yields = send-Yields _

pub ruleset size_rules = (
  yields_rules, lock_table-Yields, unlock_table-Yields, trylock_table-Yields, set_entry-Yields,
  has_entry-Yields, get_entry-Yields, commit_table-Yields, rollback_table-Yields,
  create_table-Yields, lock_server-Yields, unlock_server-Yields, find_table-Yields,
  push_value-Yields, top_value-Yields, pop_value-Yields, stack_size-Yields, end_loop-Yields,
  send-Yields, write_ok-Yields,
)
