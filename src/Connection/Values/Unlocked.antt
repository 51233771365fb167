-- ===== src/Connection/Values/Unlocked.antt =====
-- A transaction that remembers a table which is unlocked already.
use computer_systems_assignm.Prelude.{
  ℕ, ◌≡◌, ◌≢◌, refl, ◌∙◌, ap, true, false, List, [], ◌∷◌, Option, none, some, arith, ◌==◌, ==_iff,
  Bool-cases, inl, inr,
}
use computer_systems_assignm.Exceptions.{Outcome, undefined}
use computer_systems_assignm.Table
use computer_systems_assignm.Table.{Table}
use computer_systems_assignm.Connection.State.{State}
use computer_systems_assignm.Connection.Transactions.{roll_back_all}
use computer_systems_assignm.Connection.Handlers.{is_locked}
use computer_systems_assignm.Connection.Owns.{with_table, IsHeldBy, AreDistinct}
use computer_systems_assignm.Connection.Keeps.{freed, unlock_table-held, is_locked-head}
use computer_systems_assignm.Connection.Runs.{bind-ok, bind-undefined}
use computer_systems_assignm.Connection.Values.{
  with_table-there, unlock_table-free, rollback_table-run,
}

-- All of the tables but `p` are held by the client.
abbrev pub HeldBut : ℕ → List ℕ → State → Type 0
HeldBut p pointers s =
    (q : ℕ) → is_locked q pointers ≡ true → (q == p) ≡ false → IsHeldBy s.conn.client (s.tables q)

held_there :
    (s : State) (q : ℕ)
    → IsHeldBy s.conn.client (s.tables q)
    → (t : Table) × (s.tables q ≡ some t) × (t.mutex ≡ some s.conn.client)
held_there s q h = found (s.tables q) refl h
  where
    found :
        (x : Option Table)
        → s.tables q ≡ x
        → IsHeldBy s.conn.client x
        → (t : Table) × (s.tables q ≡ some t) × (t.mutex ≡ some s.conn.client)
    found (some t) e m = (t, e, m)
    found none e m = absurd m

pub unlocked_nothing : (p : ℕ) → is_locked p [] ≢ true
unfolding is_locked
unlocked_nothing p e = ground arith

locked_behind :
    (p q : ℕ) (pointers : List ℕ)
    → is_locked p (q ∷ pointers) ≡ true
    → (q == p) ≡ false
    → is_locked p pointers ≡ true
unfolding is_locked
locked_behind p q pointers l e = ground arith

locked_longer :
    (p q : ℕ) (pointers : List ℕ) → is_locked p pointers ≡ true → is_locked p (q ∷ pointers) ≡ true
unfolding is_locked
locked_longer p q pointers l = ground arith

not_twice :
    (q r : ℕ) (pointers : List ℕ)
    → is_locked q pointers ≡ false
    → is_locked r pointers ≡ true
    → (q == r) ≢ true
not_twice q r pointers n l e = ground (arith, ap (λ x. is_locked x pointers) ((==_iff q r).0 e))

-- The first table of the list has been rolled back and unlocked.
abbrev behind : State → ℕ → Table → State
behind s q u =
    with_table (with_table s q (Table.rollback_changes u)) q (freed (Table.rollback_changes u))

HeldBut-behind :
    (s : State) (p q : ℕ) (u : Table) (pointers : List ℕ)
    → is_locked q pointers ≡ false
    → HeldBut p (q ∷ pointers) s
    → HeldBut p pointers (behind s q u)
HeldBut-behind s p q u pointers n h r l e = elim (Bool-cases (q == r)) [
  | inl same ↦ absurd (not_twice q r pointers n l same)
  | inr other ↦ rw other (h r (locked_longer r q pointers l) e)
]

pub roll_back_all-unlocked :
    (pointers : List ℕ) (s : State) (p : ℕ) (t : Table)
    → is_locked p pointers ≡ true
    → AreDistinct pointers
    → s.tables p ≡ some t
    → t.mutex ≡ none
    → HeldBut p pointers s
    → (roll_back_all pointers s).0 ≡ undefined
unfolding roll_back_all Table.rollback_changes
roll_back_all-unlocked [] s p t l d there free h = absurd (unlocked_nothing p l)
roll_back_all-unlocked (q ∷ pointers) s p t l d there free h = elim (Bool-cases (q == p)) [
  | inl e ↦
      let t' : Table = Table.rollback_changes t in
      let s1 : State = with_table s q t' in
      ap (λ (x : Outcome (Unit {0}) × State). x.0)
        (bind-ok _ _ (rollback_table-run s q t (ap s.tables ((==_iff q p).0 e) ∙ there))
          ∙ bind-undefined _ _ (unlock_table-free s1 q t' (with_table-there s q t') free))
  | inr e ↦
      let (u, there_u, m) = held_there s q (h q (is_locked-head q pointers) e) in
      let u' : Table = Table.rollback_changes u in
      let s1 : State = with_table s q u' in
      ap (λ (x : Outcome (Unit {0}) × State). x.0)
        (bind-ok _ _ (rollback_table-run s q u there_u)
          ∙ bind-ok _ _ (unlock_table-held s1 q u' (with_table-there s q u') m))
      ∙ roll_back_all-unlocked pointers (behind s q u) p t (locked_behind p q pointers l e) d.1
          (rw e there) free (HeldBut-behind s p q u pointers d.0 h)
]
