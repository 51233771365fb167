-- ===== src/Connection/Lends.antt =====
-- A table that is free before and after a round, and that another client has locked while the round runs: in a SET or
-- GET outside a transaction. The round finds it locked.
use computer_systems_assignm.Prelude.{ℕ, ◌≡◌, ◌≢◌, refl, List, none, some, arith}
use computer_systems_assignm.Table.{Table}
use computer_systems_assignm.Connection.State.{State}
use computer_systems_assignm.Connection.Triple.{Frame}
use computer_systems_assignm.Connection.Owns.{Owns, Ready, with_table}
use computer_systems_assignm.Connection.Keeps.{taken_by}

-- What the round starts with, and what is left when the table is unlocked again.
abbrev pub lent : State → ℕ → Table → ℕ → State
lent s p t j = with_table s p (taken_by j t)

module _ (s : State) (p : ℕ) (u u' : Table) (there : s.tables p ≡ some u)
    (not_mine : u.mutex ≢ some s.conn.client) (still_not : u'.mutex ≢ some s.conn.client) where
  -- A change of a table that the client has not locked.
  pub Owns-other : {pointers : List ℕ} → Owns pointers s → Owns pointers (with_table s p u')
  Owns-other {pointers} o = record {
    fresh = λ q b. ground (arith, o.fresh q b);
    named = λ name q e. ground (arith, o.named name q e);
    server_free = o.server_free;
    held = λ q e. ground (arith, o.held q e, not_mine);
    only = λ q x e m. ground (arith, o.only q x, still_not);
    distinct = o.distinct;
  }

  pub Ready-other : Ready s → Ready (with_table s p u')
  Ready-other r = record { owns = Owns-other r.owns; idle = r.idle }

module _ (s : State) (p j : ℕ) (t : Table) (there : s.tables p ≡ some t) (free : t.mutex ≡ none)
    (other : j ≢ s.conn.client) where
  pub lent-Ready : Ready s → Ready (lent s p t j)
  lent-Ready = Ready-other s p t (taken_by j t) there (λ e. ground arith) (λ e. ground arith)

  module _ (s1 : State) (f : Frame (lent s p t j) s1) where
    pub lent_still : s1.tables p ≡ some (taken_by j t)
    lent_still = f.kept p (taken_by j t) j other (ground arith) refl

    pub back-Ready : Ready s1 → Ready (with_table s1 p t)
    back-Ready =
        Ready-other s1 p (taken_by j t) t lent_still (λ e. ground (arith, f.client))
          (λ e. ground arith)

    pub back-Frame : Frame s (with_table s1 p t)
    back-Frame = record {
      client = f.client;
      kept = λ q x k n e m. ground (arith, f.kept q x k n);
      made = λ q x k n e m. ground (arith, f.made q x k n);
    }
