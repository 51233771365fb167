-- ===== src/System/Isolation.antt =====
-- What the clients of the running server can rely on: nobody sees what a transaction has not committed.
use computer_systems_assignm.Prelude.{
  ℕ, ◌≤◌, ◌≡◌, ◌≢◌, ◌∙◌, refl, Option, none, some, arith, ◌==◌, ==_iff, Bool-cases, inl, inr,
}
use computer_systems_assignm.Exceptions.{ok}
use computer_systems_assignm.Connection.State.{State, modify_conn}
use computer_systems_assignm.Connection.Chat.{close_fd, Read, Locals, chat_round}
use computer_systems_assignm.Connection.Preserves.{Preserves, Preserves-bind}
use computer_systems_assignm.Table.{Table}
use computer_systems_assignm.Connection.Preserves.Isolation.{
  SameCommitted, SameCommitted-closed, SameCommitted-refl, delete_connection-Preserves,
}
use computer_systems_assignm.Connection.Preserves.Rounds.{IsCommit, chat_round-SameCommitted}
use computer_systems_assignm.System.{
  System, view, leave, Step, round, contended, hang_up, Reachable, Good, new_system,
  new_system-Good, Reachable-Good,
}
use computer_systems_assignm.System.Locks.{holder-in_transaction, chat_round-keeps, ended-keeps}
use computer_systems_assignm.Connection.Lends.{lent, lent-Ready}
use computer_systems_assignm.Connection.Owns.{with_table}
use computer_systems_assignm.Connection.Lines.{RoundFaults, chat_round-IsSafe}

-- The step is a round in which client `j` sends COMMIT.
abbrev pub CommitsAs : (j : ℕ) {s t : System} → Step s t → Type 0
CommitsAs j {s} (round i r l running returned) = (i ≡ j) × IsCommit r (s.locals i)
CommitsAs j {s} (contended i k p t r l running n single there free returned) =
    (i ≡ j) × IsCommit r (s.locals i)
CommitsAs j (hang_up i stopped returned) = ⊥

-- The table behind `p` has the committed entries of `t`.
abbrev pub HasCommitted : (ℕ → Option Table) → ℕ → Table → Type 0
HasCommitted tables p t =
    (t' : Table) × (tables p ≡ some t') × (t'.key_value_pairs ≡ t.key_value_pairs)

leave-Preserves :
    (s₀ : State) → ((p : ℕ) → s₀.next ≤ p → s₀.tables p ≡ none) → Preserves (SameCommitted s₀) leave
unfolding close_fd modify_conn
leave-Preserves s₀ fresh =
    Preserves-bind (record { at = λ s i. (SameCommitted-closed s₀ fresh).conn s _ refl i })
      (λ _. delete_connection-Preserves s₀ fresh)

module _ (sys : System) (reached : Reachable new_system sys) (j p : ℕ) (t : Table)
    (there : sys.tables p ≡ some t) (held : t.mutex ≡ some j) where
  good : Good sys
  good = Reachable-Good new_system-Good reached

  fresh : (i q : ℕ) → sys.next ≤ q → sys.tables q ≡ none
  fresh i = (good.ready i).owns.fresh

  -- The table is another one than the one that is locked for a while.
  put_back :
      (q : ℕ) (u : Table) (s : State)
      → sys.tables q ≡ some u
      → u.mutex ≡ none
      → HasCommitted s.tables p t
      → HasCommitted (with_table s q u).tables p t
  put_back q u s here free (t', e, same) = (t', ground arith, same)

  contended-HasCommitted :
      (i k q : ℕ) (u : Table) (r : Read) (l : Locals)
      → k ≢ i
      → sys.tables q ≡ some u
      → u.mutex ≡ none
      → (chat_round r (sys.locals i) (lent (view i sys) q u k)).0 ≡ ok l
      → ((i ≡ j) × IsCommit r (sys.locals i) → ⊥)
      → HasCommitted
          (with_table (chat_round r (sys.locals i) (lent (view i sys) q u k)).1 q u).tables
          p
          t
  contended-HasCommitted i k q u r l m here free returned n =
      let s' : State = lent (view i sys) q u k in
      let there' : s'.tables p ≡ some t = ground arith in
      let other : k ≢ (sys.conns i).client = λ x. m (x ∙ good.number i) in
      put_back q u (chat_round r (sys.locals i) s').1 here free (elim (Bool-cases (i == j)) [
        | inl e ↦
            (chat_round-SameCommitted s' (λ x b. ground (arith, fresh i x b))
                (rw ((==_iff i j).0 e) (holder-in_transaction sys j p t good there held)) r
                (sys.locals i) (λ c. n ((==_iff i j).0 e, c))).same
              p t there'
        | inr e ↦ (
          t,
          ended-keeps (RoundFaults r (sys.locals i) s') l s' (chat_round r (sys.locals i) s') p j t
              (chat_round-IsSafe r (sys.locals i) s'
                (lent-Ready (view i sys) q k u here free other (good.ready i)))
              returned (λ x. ground (arith, x, good.number i)) there' held,
          refl,
        )
      ])

  -- In every state that the clients of a new server can reach: as long as a client has locked a table, a step
  -- of any client that is not this client's COMMIT leaves the committed entries of the table as they are.
  pub locked-HasCommitted :
      {sys' : System} (step : Step sys sys') → (CommitsAs j step → ⊥) → HasCommitted sys'.tables p t
  locked-HasCommitted (round i r l running returned) n = elim (Bool-cases (i == j)) [
    | inl e ↦
        (chat_round-SameCommitted (view i sys) (fresh i)
            (rw ((==_iff i j).0 e) (holder-in_transaction sys j p t good there held)) r
            (sys.locals i) (λ c. n ((==_iff i j).0 e, c))).same
          p t there
    | inr e ↦
        (t, chat_round-keeps sys i j r l p t reached returned (λ h. ground arith) there held, refl)
  ]
  locked-HasCommitted (contended i k q u r l running m single here free returned) n =
      contended-HasCommitted i k q u r l m here free returned n
  locked-HasCommitted (hang_up i stopped returned) n =
      ((leave-Preserves (view i sys) (fresh i)).at (view i sys)
          (SameCommitted-refl (view i sys) (fresh i))).same
        p t there
