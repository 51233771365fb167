-- ===== src/Connection/Commits/Order.antt =====
-- COMMIT and a failure go through locked_tables, a std::unordered_set, whose order is not specified: what the tables
-- are at the end, in whichever order the loops meet them.
use computer_systems_assignm.Prelude.{
  ℕ, ◌≡◌, refl, sym, ap, ◌∙◌, true, false, List, [], ◌∷◌, Option, none, some, arith, if◌then◌else◌,
}
use mathlib.Core.Path.{fun_ext}
use computer_systems_assignm.Exceptions.{ok}
use computer_systems_assignm.Table
use computer_systems_assignm.Table.{Table}
use computer_systems_assignm.Connection.State.{State, Exec, ◌>>=◌, lift, modify_conn}
use computer_systems_assignm.Connection.Calls.{
  put_table, unlock_table, commit_table, rollback_table,
}
use computer_systems_assignm.Connection.Handlers.{is_locked}
use computer_systems_assignm.Connection.Transactions.{
  handle_commit, commit_if_ongoing, commit_all, roll_back_all, leave_transaction, fail_transaction,
}
use computer_systems_assignm.Connection.Owns.{with_table, IsHeldBy, AreDistinct}
use computer_systems_assignm.Connection.Keeps.{freed, unlock_table-held, is_locked-head}
use computer_systems_assignm.Connection.Runs.{bind-ok, gets-ok}
use computer_systems_assignm.Connection.Values.{
  with_table-there, with_table-twice, commit_table-run, rollback_table-run,
}
use computer_systems_assignm.Connection.Arithmetic.{answered_ok, write_ok-answered}
use computer_systems_assignm.Connection.Commits.{out_of_transaction}

abbrev pub ended : (Table → Table) → Option Table → Option Table
ended change none = none
ended change (some t) = some (freed (change t))

-- The tables behind `pointers` are changed and unlocked, all others are as they were.
abbrev pub ended_tables : (Table → Table) → List ℕ → (ℕ → Option Table) → ℕ → Option Table
ended_tables change pointers tables q =
    if is_locked q pointers then ended change (tables q) else tables q

abbrev pub with_ended : (Table → Table) → List ℕ → State → State
with_ended change pointers s = record s { tables = ended_tables change pointers s.tables }

-- The client has locked each table behind `pointers`.
abbrev pub AreHeld : List ℕ → State → Type 0
AreHeld pointers s = (q : ℕ) → is_locked q pointers ≡ true → IsHeldBy s.conn.client (s.tables q)

held_table :
    (me : ℕ) (x : Option Table) → IsHeldBy me x → (t : Table) × (x ≡ some t) × (t.mutex ≡ some me)
held_table me none h = absurd h
held_table me (some t) h = (t, refl, h)

module _ (change : Table → Table) (same_mutex : (t : Table) → (change t).mutex ≡ t.mutex) where
  ended_tables-cons :
      (tables : ℕ → Option Table) (p : ℕ) (pointers : List ℕ) (t : Table)
      → tables p ≡ some t
      → is_locked p pointers ≡ false
      → ended_tables change pointers (put_table tables p (freed (change t)))
        ≡ ended_tables change (p ∷ pointers) tables
  unfolding is_locked
  ended_tables-cons tables p pointers t there new = fun_ext λ q. ground (arith, there, new)

  AreHeld-tail :
      (s : State) (p : ℕ) (pointers : List ℕ) (t : Table)
      → is_locked p pointers ≡ false
      → AreHeld (p ∷ pointers) s
      → AreHeld pointers (with_table s p t)
  unfolding is_locked
  AreHeld-tail s p pointers t new h q l = ground (arith, h q)

  module _ (step : ℕ → Exec (Unit {0}))
      (run : (s : State) (p : ℕ) (t : Table)
        → s.tables p ≡ some t
        → step p s ≡ (ok tt, with_table s p (change t))) where
    step-unlock :
        (rest : Exec (Unit {0})) (s : State) (p : ℕ) (t : Table)
        → s.tables p ≡ some t
        → t.mutex ≡ some s.conn.client
        → (step p >>= λ _. unlock_table p >>= λ _. rest) s
          ≡ rest (with_table s p (freed (change t)))
    step-unlock rest s p t there m =
        let s1 : State = with_table s p (change t) in
        bind-ok _ _ (run s p t there)
        ∙ bind-ok _ _
            (unlock_table-held s1 p (change t) (with_table-there s p (change t)) (same_mutex t ∙ m))
        ∙ ap rest (with_table-twice s p (change t) (freed (change t)))

    -- The loop over `pointers`, in any order without repetition.
    loop-ended :
        (loop : List ℕ → Exec (Unit {0}))
        → ((s : State) → loop [] s ≡ (ok tt, s))
        → ((p : ℕ) (pointers : List ℕ) (s : State)
            → loop (p ∷ pointers) s ≡ (step p >>= λ _. unlock_table p >>= λ _. loop pointers) s)
        → (pointers : List ℕ) (s : State) → AreDistinct pointers
        → AreHeld pointers s
        → loop pointers s ≡ (ok tt, with_ended change pointers s)
    unfolding is_locked
    loop-ended loop base more [] s d h = base s
    loop-ended loop base more (p ∷ pointers) s d h =
        let (t, there, m) =
          held_table s.conn.client (s.tables p) (h p (is_locked-head p pointers)) in
        more p pointers s
        ∙ step-unlock (loop pointers) s p t there m
        ∙ loop-ended loop base more pointers (with_table s p (freed (change t))) d.1
            (AreHeld-tail s p pointers (freed (change t)) d.0 h)
        ∙ ap (λ (x : ℕ → Option Table). (ok tt, record s { tables = x }))
            (ended_tables-cons s.tables p pointers t there d.0)

commit_all-ended :
    (pointers : List ℕ) (s : State)
    → AreDistinct pointers
    → AreHeld pointers s
    → commit_all pointers s ≡ (ok tt, with_ended Table.commit_changes pointers s)
unfolding commit_all lift
commit_all-ended =
    loop-ended Table.commit_changes (λ t. unfold Table.commit_changes in refl) commit_table
      commit_table-run commit_all (λ s. refl) (λ p pointers s. refl)

roll_back_all-ended :
    (pointers : List ℕ) (s : State)
    → AreDistinct pointers
    → AreHeld pointers s
    → roll_back_all pointers s ≡ (ok tt, with_ended Table.rollback_changes pointers s)
unfolding roll_back_all lift
roll_back_all-ended =
    loop-ended Table.rollback_changes (λ t. unfold Table.rollback_changes in refl) rollback_table
      rollback_table-run roll_back_all (λ s. refl) (λ p pointers s. refl)

-- The same state, where locked_tables lists its elements in another order.
abbrev pub in_order : List ℕ → State → State
in_order pointers s = record s { conn = record (s.conn) { locked_tables = pointers } }

module _ (s : State) (pointers : List ℕ)
    (same : (q : ℕ) → is_locked q pointers ≡ is_locked q s.conn.locked_tables) where
  same_tables :
      (change : Table → Table)
      → ended_tables change pointers s.tables ≡ ended_tables change s.conn.locked_tables s.tables
  same_tables change = fun_ext λ q. rw (same q) refl

  -- In a transaction that has locked the tables of locked_tables, COMMIT answers OK, commits the proposed entries of
  -- each of these tables, unlocks it and leaves the transaction; a failure does the same, but drops the entries
  -- and writes nothing. All other tables are as they were. Neither depends on the order in which
  -- locked_tables is gone through.
  pub handle_commit-any_order :
      AreDistinct pointers
      → AreHeld s.conn.locked_tables s
      → s.conn.in_transaction ≡ true
      → (handle_commit (in_order pointers s) ≡ (
        ok tt,
        answered_ok (out_of_transaction (with_ended Table.commit_changes s.conn.locked_tables s)),
      ))
        × (fail_transaction (in_order pointers s) ≡ (
          ok tt,
          out_of_transaction (with_ended Table.rollback_changes s.conn.locked_tables s),
        ))
  unfolding handle_commit commit_if_ongoing leave_transaction modify_conn fail_transaction
  handle_commit-any_order d h ongoing = (
    gets-ok (λ r. r.conn.in_transaction) _ ongoing
        ∙ gets-ok (λ r. r.conn.locked_tables) _ refl
        ∙ bind-ok _ _ (commit_all-ended pointers (in_order pointers s) d held)
        ∙ bind-ok _ _ refl
        ∙ write_ok-answered (out_of_transaction (with_ended Table.commit_changes pointers s))
        ∙ ap
            (λ (x : ℕ → Option Table).
              (ok tt, answered_ok (out_of_transaction (record s { tables = x }))))
            (same_tables Table.commit_changes),
    gets-ok (λ r. r.conn.locked_tables) _ refl
        ∙ bind-ok _ _ (roll_back_all-ended pointers (in_order pointers s) d held)
        ∙ ap (λ (x : ℕ → Option Table). (ok tt, out_of_transaction (record s { tables = x })))
            (same_tables Table.rollback_changes),
  )
    where
      held : AreHeld pointers s
      held q l = h q (sym (same q) ∙ l)
