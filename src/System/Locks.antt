-- ===== src/System/Locks.antt =====
-- What the clients of the running server can rely on: the locks of the rounds of chat_with_client and of
-- the destructor ~ClientConnection.
use computer_systems_assignm.Prelude.{
  ℕ, ◌≡◌, ◌≢◌, sym, ◌∙◌, ap, true, false, List, [], ◌∷◌, Option, some, arith, Bool-cases, inl, inr,
}
use computer_systems_assignm.Exceptions.{Outcome, ok, throw, blocked, undefined}
use computer_systems_assignm.Table.{Table}
use computer_systems_assignm.Connection.State.{State}
use computer_systems_assignm.Connection.Handlers.{is_locked}
use computer_systems_assignm.Connection.Chat.{Read, Locals, chat_round, delete_connection}
use computer_systems_assignm.Connection.Triple.{Meets}
use computer_systems_assignm.Connection.Owns.{Ready, Waits}
use computer_systems_assignm.Connection.Keeps.{held_table}
use computer_systems_assignm.Connection.Lines.{RoundFaults, chat_round-IsSafe}
use computer_systems_assignm.Connection.Steady.{safe}
use computer_systems_assignm.Connection.Requests.{Out, delete_connection-Out}
use computer_systems_assignm.System.{
  System, view, leave, leave-Out, Good, Reachable, new_system, new_system-Good, Reachable-Good,
}

same_holder :
    (tables : ℕ → Option Table) (p a b : ℕ) (t t' : Table)
    → tables p ≡ some t
    → tables p ≡ some t'
    → t.mutex ≡ some a
    → t'.mutex ≡ some b
    → a ≡ b
same_holder tables p a b t t' there there' m m' = ground arith

locked_nothing : (p : ℕ) (pointers : List ℕ) → is_locked p pointers ≡ true → pointers ≢ []
unfolding is_locked
locked_nothing p [] h e = ground arith
locked_nothing p (q ∷ pointers) h e = ground arith

Good-exclusive :
    (sys : System) (i j p : ℕ)
    → Good sys
    → i ≢ j
    → is_locked p (sys.conns i).locked_tables ≡ true
    → is_locked p (sys.conns j).locked_tables ≢ true
Good-exclusive sys i j p g n h e =
    let (t, there, m) = held_table (view i sys) p (g.ready i).owns h in
    let (t', there', m') = held_table (view j sys) p (g.ready j).owns e in
    n (
      sym (g.number i)
      ∙ same_holder sys.tables p (sys.conns i).client (sys.conns j).client t t' there there' m m'
      ∙ g.number j)

-- In every state that the clients of a new server can reach: a table that one client remembers to
-- have locked is not remembered by another one.
pub locked_tables-exclusive :
    (sys : System) (i j p : ℕ)
    → Reachable new_system sys
    → i ≢ j
    → is_locked p (sys.conns i).locked_tables ≡ true
    → is_locked p (sys.conns j).locked_tables ≡ false
locked_tables-exclusive sys i j p r n h =
    elim (Bool-cases (is_locked p (sys.conns j).locked_tables)) [
      | inr e ↦ e
      | inl e ↦ absurd (Good-exclusive sys i j p (Reachable-Good new_system-Good r) n h e)
    ]

-- Whoever holds a table is in a transaction.
pub holder-in_transaction :
    (sys : System) (j p : ℕ) (t : Table)
    → Good sys
    → sys.tables p ≡ some t
    → t.mutex ≡ some j
    → (sys.conns j).in_transaction ≡ true
holder-in_transaction sys j p t g there m = elim (Bool-cases (sys.conns j).in_transaction) [
  | inl e ↦ e
  | inr e ↦ absurd (
      locked_nothing p (sys.conns j).locked_tables
        ((g.ready j).owns.only p t there (m ∙ ap some (sym (g.number j)))) ((g.ready j).idle e))
]

pub ended-keeps :
    {A : Type 0} (f : Type 0) (a : A) (s : State) (o : Outcome A × State) (p j : ℕ) (t : Table)
    → Meets (safe A Waits f) s o
    → o.0 ≡ ok a
    → j ≢ s.conn.client
    → s.tables p ≡ some t
    → t.mutex ≡ some j
    → o.1.tables p ≡ some t
ended-keeps f a s (ok b, s') p j t h d n e m = h.0.kept p t j n e m
ended-keeps f a s (throw x, s') p j t h d n e m = h.0.kept p t j n e m
ended-keeps f a s (blocked, s') p j t h d n e m = ground arith
ended-keeps f a s (undefined, s') p j t h d n e m = ground arith

-- In every state that the clients of a new server can reach: a round that returns, on any line, leaves a table
-- that another client has locked as it is, with its committed and proposed entries.
pub chat_round-keeps :
    (sys : System) (i j : ℕ) (r : Read) (l : Locals) (p : ℕ) (t : Table)
    → Reachable new_system sys
    → (chat_round r (sys.locals i) (view i sys)).0 ≡ ok l
    → j ≢ i
    → sys.tables p ≡ some t
    → t.mutex ≡ some j
    → (chat_round r (sys.locals i) (view i sys)).1.tables p ≡ some t
chat_round-keeps sys i j r l p t reached returned n e h =
    let g : Good sys = Reachable-Good new_system-Good reached in
    ended-keeps (RoundFaults r (sys.locals i) (view i sys)) l (view i sys)
      (chat_round r (sys.locals i) (view i sys)) p j t
      (chat_round-IsSafe r (sys.locals i) (view i sys) (g.ready i)) returned
      (λ x. n (x ∙ g.number i)) e h

-- The state in which a method has returned.
abbrev pub IsReleased : Outcome (Unit {0}) × State → Type 0
IsReleased (ok a, s) =
    (s.conn.in_transaction ≡ false)
    × ((p : ℕ) (t : Table) → s.tables p ≡ some t → t.mutex ≢ some s.conn.client)
IsReleased (o, s) = ⊥

Out-free :
    (s : State) → Out s → (p : ℕ) (t : Table) → s.tables p ≡ some t → t.mutex ≢ some s.conn.client
Out-free s o p t e m =
    locked_nothing p s.conn.locked_tables (o.ready.owns.only p t e m) (o.ready.idle o.out)

returned-IsReleased :
    (s : State) (o : Outcome (Unit {0}) × State)
    → Meets (record { returns = λ a. Out; throws = λ e x. ⊥; waits = λ x. ⊥; faults = ⊥ }) s o
    → IsReleased o
returned-IsReleased s (ok a, s') h = (h.1.out, Out-free s' h.1)
returned-IsReleased s (throw e, s') h = absurd h.1
returned-IsReleased s (blocked, s') h = absurd h
returned-IsReleased s (undefined, s') h = absurd h

-- The destructor of a ready client's connection returns (it does not throw, wait or become
-- undefined), and then the client is in no transaction and holds no table's lock.
pub delete_connection-IsReleased : (s : State) → Ready s → IsReleased (delete_connection s)
delete_connection-IsReleased s r = returned-IsReleased s (delete_connection s) (
    (delete_connection-Out
        {q = record { returns = λ a. Out; throws = λ e x. ⊥; waits = λ x. ⊥; faults = ⊥ }}
        (λ s o. o)).at
      s r)

-- So does the end of the thread, which closes the descriptor before.
pub leave-IsReleased : (s : State) → Ready s → IsReleased (leave s)
leave-IsReleased s r = returned-IsReleased s (leave s) (
    (leave-Out {q = record { returns = λ a. Out; throws = λ e x. ⊥; waits = λ x. ⊥; faults = ⊥ }}
        (λ s o. o)).at
      s r)
