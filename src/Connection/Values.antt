-- ===== src/Connection/Values.antt =====
-- GET and SET: what both modes share, in and outside a transaction.
pub mod Alone
pub mod InTransaction
pub mod Unlocked
pub mod Missing
use computer_systems_assignm.Prelude.{
  ℕ, ◌≡◌, ◌≢◌, refl, sym, ◌∙◌, ap, Bool, true, false, List, [], ◌∷◌, Option, none, some, arith,
  ◌==◌, ==_iff, ltb, length, if◌then◌else◌, Bool-cases, inl, inr,
}
use mathlib.Core.Path.{fun_ext}
use computer_systems_assignm.Exceptions.{Outcome, ok, throw, blocked, undefined}
use computer_systems_assignm.Text.{Bytes}
use computer_systems_assignm.Message.{MessageType, message, get_arg}
use computer_systems_assignm.ValueStack
use computer_systems_assignm.ValueStack.{ValueStack}
use computer_systems_assignm.Table
use computer_systems_assignm.Table.{Table}
use computer_systems_assignm.Server
use computer_systems_assignm.Connection.State.{
  State, ◌>>=◌, lift, catch, gets, modify_conn, ClientConnection, ◌>>◌,
}
use computer_systems_assignm.Connection.Calls.{
  put_table, push_value, top_value, pop_value, stack_size, find_table, deref, store_table, write_ok,
  trylock_table, this_client, lock_table, unlock_table, set_entry, commit_table, rollback_table,
}
use computer_systems_assignm.Connection.Handlers.{
  handle_get, get_found, get_in, get_table_value, push_entry, unlock_and_throw, handle_set,
  set_found, set_in, set_table_value, require_one, throw_again, no_access, no_key, acquire,
  remember_lock, is_locked,
}
use computer_systems_assignm.Connection.Owns.{with_table}
use computer_systems_assignm.Connection.Keeps.{
  taken_by, freed, lock_table-free, unlock_table-held, trylock_table-free, trylock_table-taken,
  with_table-same,
}
use computer_systems_assignm.Connection.Gets.{has_entry-run, get_entry-run}
use computer_systems_assignm.Connection.Sets.{top_value-cons, pop_value-cons}
use computer_systems_assignm.Connection.Runs.{
  bind-ok, bind-throw, bind-undefined, catch-ok, catch-throw, gets-ok, lift-ok,
}
use computer_systems_assignm.Connection.Acquire.{first_arg, second_arg}
use computer_systems_assignm.Connection.Arithmetic.{with_stack, answered_ok, write_ok-answered}

pub with_table-there : (s : State) (p : ℕ) (t : Table) → (with_table s p t).tables p ≡ some t
with_table-there s p t = ground arith

pub put_table-twice :
    (tables : ℕ → Option Table) (p : ℕ) (t u : Table)
    → put_table (put_table tables p t) p u ≡ put_table tables p u
put_table-twice tables p t u = fun_ext λ q. ground arith

pub with_table-twice :
    (s : State) (p : ℕ) (t u : Table) → with_table (with_table s p t) p u ≡ with_table s p u
with_table-twice s p t u =
    ap (λ (x : ℕ → Option Table). record s { tables = x }) (put_table-twice s.tables p t u)

pub freed-taken_by : (me : ℕ) (t : Table) → t.mutex ≡ none → freed (taken_by me t) ≡ t
freed-taken_by me t free = ap (λ (m : Option ℕ). record t { mutex = m }) (sym free)

pub set_entry-run :
    (s : State) (p : ℕ) (key value : Bytes) (t : Table)
    → s.tables p ≡ some t
    → set_entry p key value s ≡ (ok tt, with_table s p (Table.set key value t))
unfolding set_entry ◌>>=◌ deref store_table
set_entry-run s p key value t e = rw (e, deref) refl

pub commit_table-run :
    (s : State) (p : ℕ) (t : Table)
    → s.tables p ≡ some t
    → commit_table p s ≡ (ok tt, with_table s p (Table.commit_changes t))
unfolding commit_table ◌>>=◌ deref store_table
commit_table-run s p t e = rw (e, deref) refl

pub rollback_table-run :
    (s : State) (p : ℕ) (t : Table)
    → s.tables p ≡ some t
    → rollback_table p s ≡ (ok tt, with_table s p (Table.rollback_changes t))
unfolding rollback_table ◌>>=◌ deref store_table
rollback_table-run s p t e = rw (e, deref) refl

pub unlock_table-free :
    (s : State) (p : ℕ) (t : Table)
    → s.tables p ≡ some t
    → t.mutex ≡ none
    → unlock_table p s ≡ (undefined, s)
unfolding ◌>>=◌ unlock_table deref this_client gets lift Table.unlock Table.mutex_unlock
unlock_table-free s p t there m = rw (there, deref, m, Table.mutex_unlock) refl

module _ (s : State) (p : ℕ) (t : Table) (name key : Bytes)
    (found : Server.find_table name s.server ≡ some p) (there : s.tables p ≡ some t) where
  pub get_table_value-found :
      (u : Table) (r : State) (v : Bytes)
      → r.tables p ≡ some u
      → Table.has_key key u ≡ true
      → Table.get key u ≡ ok v
      → get_table_value (message MessageType.get (name ∷ key ∷ [])) p r
        ≡ (ok tt, with_stack r (v ∷ r.conn.stack))
  unfolding get_table_value push_entry push_value modify_conn lift ◌>>=◌ get_arg ValueStack.push
  get_table_value-found u r v e h g =
      rw (has_entry-run r p key u e, h, get_entry-run r p key u e, g) refl

  pub set_table_value-found :
      (u : Table) (r : State) (v : Bytes) (rest : ValueStack)
      → r.tables p ≡ some u
      → r.conn.stack ≡ v ∷ rest
      → set_table_value (message MessageType.set (name ∷ key ∷ [])) p r
        ≡ (ok tt, with_stack (with_table r p (Table.set key v u)) rest)
  unfolding set_table_value
  set_table_value-found u r v rest e stacked =
      lift-ok _ _ (second_arg MessageType.set name key [])
      ∙ bind-ok top_value _ (top_value-cons r v rest stacked)
      ∙ bind-ok _ _ (set_entry-run r p key v u e)
      ∙ pop_value-cons (with_table r p (Table.set key v u)) v rest stacked

  enough_values :
      (v : Bytes) (rest : ValueStack)
      → s.conn.stack ≡ v ∷ rest
      → ltb (ValueStack.get_size s.conn.stack) 1 ≡ false
  unfolding ValueStack.get_size
  enough_values v rest e = ground (arith, ap length e)

  require_one-enough : (n : ℕ) → ltb n 1 ≡ false → require_one n s ≡ (ok tt, s)
  unfolding require_one lift
  require_one-enough n h = rw h refl

  pub handle_set-run :
      (v : Bytes) (rest : ValueStack) (ongoing : Bool)
      → s.conn.stack ≡ v ∷ rest
      → s.conn.in_transaction ≡ ongoing
      → handle_set (message MessageType.set (name ∷ key ∷ [])) s
        ≡ (set_in (message MessageType.set (name ∷ key ∷ [])) p ongoing >> write_ok) s
  unfolding handle_set stack_size find_table set_found
  handle_set-run v rest ongoing stacked e =
      gets-ok (λ r. ValueStack.get_size r.conn.stack) _ refl
      ∙ bind-ok (require_one (ValueStack.get_size s.conn.stack)) _
          (require_one-enough (ValueStack.get_size s.conn.stack) (enough_values v rest stacked))
      ∙ lift-ok _ _ (first_arg MessageType.set name (key ∷ []))
      ∙ gets-ok (λ r. Server.find_table name r.server) _ found
      ∙ gets-ok (λ r. r.conn.in_transaction) _ e
