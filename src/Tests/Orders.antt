-- ===== src/Tests/Orders.antt =====
-- A transaction that has locked two tables, and the other order of them.
use computer_systems_assignm.Prelude.{
  ℕ, zero, suc, ◌≡◌, refl, true, [], ◌∷◌, Option, none, some, arith,
}
use computer_systems_assignm.Text.{codes}
use computer_systems_assignm.Exceptions.{ok}
use computer_systems_assignm.Table
use computer_systems_assignm.Table.{Table}
use computer_systems_assignm.Server
use computer_systems_assignm.Connection.State.{State, new_connection}
use computer_systems_assignm.Connection.Handlers.{is_locked}
use computer_systems_assignm.Connection.Owns.{AreDistinct}
use computer_systems_assignm.Connection.Transactions.{handle_commit, fail_transaction}
use computer_systems_assignm.Connection.Arithmetic.{answered_ok}
use computer_systems_assignm.Connection.Commits.{out_of_transaction}
use computer_systems_assignm.Connection.Commits.Order.{
  with_ended, AreHeld, in_order, handle_commit-any_order,
}

abbrev first_table : Table
first_table = record {
  name = codes "a";
  mutex = some 0;
  key_value_pairs = (codes "k", codes "1") ∷ [];
  proposed_pairs = (codes "k", codes "2") ∷ [];
}

abbrev second_table : Table
second_table = record {
  name = codes "b";
  mutex = some 0;
  key_value_pairs = [];
  proposed_pairs = (codes "m", codes "3") ∷ [];
}

abbrev two_tables : ℕ → Option Table
two_tables zero = some first_table
two_tables (suc zero) = some second_table
two_tables (suc (suc p)) = none

abbrev two_locked : State
two_locked = record {
  server = record (Server.new_server) { table_names = (codes "a", 0) ∷ (codes "b", 1) ∷ [] };
  tables = two_tables;
  next = 2;
  conn = record (new_connection 0) { locked_tables = 0 ∷ 1 ∷ []; in_transaction = true };
}

two_same : (q : ℕ) → is_locked q (1 ∷ 0 ∷ []) ≡ is_locked q (0 ∷ 1 ∷ [])
unfolding is_locked
two_same q = ground arith

two_distinct : AreDistinct (1 ∷ 0 ∷ [])
unfolding is_locked
two_distinct = (refl, (refl, tt))

two_held : AreHeld (0 ∷ 1 ∷ []) two_locked
unfolding is_locked
two_held zero l = refl
two_held (suc zero) l = refl
two_held (suc (suc q)) l = ground arith

handle_commit-any_order_example :
    (handle_commit (in_order (1 ∷ 0 ∷ []) two_locked) ≡ (
      ok tt,
      answered_ok (out_of_transaction (with_ended Table.commit_changes (0 ∷ 1 ∷ []) two_locked)),
    ))
    × (fail_transaction (in_order (1 ∷ 0 ∷ []) two_locked)
        ≡ (ok tt, out_of_transaction (with_ended Table.rollback_changes (0 ∷ 1 ∷ []) two_locked)))
handle_commit-any_order_example =
    handle_commit-any_order two_locked (1 ∷ 0 ∷ []) two_same two_distinct two_held refl
