-- ===== src/Connection/Acquire.antt =====
-- How a transaction acquires a table (the loop-free part that handle_set and handle_get share), and the
-- rules of the program logic for it.
use mathlib.Core.Path.{subst}
use computer_systems_assignm.Prelude.{
  ℕ, ◌≡◌, refl, sym, ◌∙◌, ap, Bool, true, false, List, [], ◌∷◌, Option, some, arith,
}
use computer_systems_assignm.Exceptions.{ok, Exception}
use computer_systems_assignm.Text.{Bytes}
use computer_systems_assignm.Message.{MessageType, message, get_arg}
use computer_systems_assignm.Table.{Table}
use computer_systems_assignm.Server
use computer_systems_assignm.Connection.State.{ClientConnection, State, Exec, modify_conn}
use computer_systems_assignm.Connection.Handlers.{is_locked, remember_lock, acquire, no_access}
use computer_systems_assignm.Connection.Triple.{
  Spec, Triple, Triple-bind, Triple-gets, Triple-pure, Triple-raise, Triple-if, Triple-pre,
}
use computer_systems_assignm.Connection.Owns.{
  Owns, Ready, At, Waits, Owns-conn, Frame-conn, Ready-At, with_table,
}
use computer_systems_assignm.Connection.Keeps.{
  Leads, taken_by, Triple-trylock_table, is_locked-head,
}
use computer_systems_assignm.Connection.Steady.{safe}

-- A request that may wait for a table, and leaves the client ready.
abbrev pub Waiting : Type 0 → Exec (Unit {0}) → Type 0
Waiting f m = Triple Ready m (safe (Unit {0}) Waits f)

-- A fact on the state that what a client does to take the lock of `p` leaves alone.
pub record Stable (p : ℕ) (F : State → Type 0) : Type 0 where
  pub taken :
      (s : State) (t : Table)
      → F s
      → s.tables p ≡ some t
      → F (with_table s p (taken_by s.conn.client t))
  pub conn : (s : State) (c : ClientConnection) → F s → F (record s { conn = c })

-- The locks once a transaction has acquired `p`.
abbrev pub Acquired : ℕ → ClientConnection → (State → Type 0) → List ℕ → State → Type 0
Acquired p c F pointers s =
    (is_locked p pointers ≡ true) × (At pointers (record c { locked_tables = pointers }) s × F s)

abbrev Tried : ℕ → ClientConnection → (State → Type 0) → Bool → State → Type 0
Tried p c F true s = At (p ∷ c.locked_tables) c s × F s
Tried p c F false s = At c.locked_tables c s × F s

module _ (p : ℕ) (c : ClientConnection) (ongoing : c.in_transaction ≡ true) (F : State → Type 0)
    (stable : Stable p F) where
  remember_lock-Tried :
      (b : Bool) {q : Spec (Unit {0})}
      → ((e : Exception) (s : State) → Ready s → q.throws e s)
      → ((pointers : List ℕ) (s : State) → Acquired p c F pointers s → q.returns tt s)
      → Triple (Tried p c F b) (remember_lock p b) q
  unfolding remember_lock modify_conn
  remember_lock-Tried true thrown k = record {
    at = λ s h.
        let c' : ClientConnection = record (s.conn) { locked_tables = p ∷ s.conn.locked_tables } in
        (
          Frame-conn s c' refl,
          k (p ∷ c.locked_tables) _ (
            is_locked-head p c.locked_tables,
            (
              (
                Owns-conn s c' refl h.0.0,
                ap (λ (d : ClientConnection). record d { locked_tables = p ∷ d.locked_tables })
                    h.0.1,
              ),
              stable.conn s c' h.1,
            ),
          ),
        );
  }
  remember_lock-Tried false thrown k =
      Triple-raise no_access
        λ s h. thrown no_access s (Ready-At c.locked_tables c s h.0 refl (λ n. ground arith))

  pub acquire-Acquired :
      {q : Spec (Unit {0})}
      → ((e : Exception) (s : State) → Ready s → q.throws e s)
      → ((pointers : List ℕ) (s : State) → Acquired p c F pointers s → q.returns tt s)
      → Triple (λ s. At c.locked_tables c s × Leads p s × F s) (acquire p) q
  unfolding acquire
  acquire-Acquired thrown k =
      Triple-gets (λ s. s.conn.locked_tables)
        λ pointers.
          Triple-if (is_locked p pointers)
            (λ l. Triple-pure tt λ s h. k c.locked_tables s (
              ap (is_locked p) (sym (ap (λ (d : ClientConnection). d.locked_tables) h.0.0.1) ∙ h.1)
                  ∙ l,
              (h.0.0, h.0.2),
            ))
            (λ l.
              Triple-bind (Tried p c F)
                (Triple-pre (λ s. At c.locked_tables c s × Leads p s × F s) (λ s h. h.0)
                  (Triple-trylock_table p c.locked_tables c F
                    (λ s t x e m h. (h, stable.taken s t x e)) (λ s h x. (h, x))))
                (λ b. remember_lock-Tried b thrown k))

pub first_arg :
    (t : MessageType) (a : Bytes) (rest : List Bytes) → get_arg (message t (a ∷ rest)) 0 ≡ ok a
unfolding get_arg
first_arg t a rest = refl

pub second_arg :
    (t : MessageType) (a b : Bytes) (rest : List Bytes)
    → get_arg (message t (a ∷ b ∷ rest)) 1 ≡ ok b
unfolding get_arg
second_arg t a b rest = refl

pub Triple-some :
    {A X : Type 0} {m : Exec A} {q : Spec A} (P : X → State → Type 0)
    → ((x : X) → Triple (P x) m q)
    → Triple (λ s. (x : X) × P x s) m q
Triple-some P k = record { at = λ s h. (k h.0).at s h.1 }

pub Triple-known :
    {A X : Type 0} {P : State → Type 0} {m : Exec A} {q : Spec A}
    → (X → Triple P m q)
    → Triple (λ s. X × P s) m q
Triple-known k = record { at = λ s h. (k h.0).at s h.1 }

-- What follows from the precondition.
pub Triple-from :
    {A X : Type 0} {P : State → Type 0} {m : Exec A} {q : Spec A}
    → ((s : State) → P s → X)
    → (X → Triple P m q)
    → Triple P m q
Triple-from x k = record { at = λ s h. (k (x s h)).at s h }

abbrev pub Members : ClientConnection → Bool → Type 0
Members c ongoing = (c.in_transaction ≡ ongoing) × (c.in_transaction ≡ false → c.locked_tables ≡ [])

-- What is known when the table has been found and the members of the connection have been read.
abbrev pub Found : ClientConnection → ℕ → Bool → State → Type 0
Found c p ongoing s = Members c ongoing × (At c.locked_tables c s × Leads p s)

abbrev pub Searched : ClientConnection → Bytes → Option ℕ → State → Type 0
Searched c name found s = (Ready s × (s.conn ≡ c)) × (Server.find_table name s.server ≡ found)

pub Found-Searched :
    (c : ClientConnection) (name : Bytes) (p : ℕ) (ongoing : Bool) (s : State)
    → Searched c name (some p) s × (s.conn.in_transaction ≡ ongoing)
    → Found c p ongoing s
unfolding Server.find_table
Found-Searched c name p ongoing s h = (
  (
    sym (ap (λ (d : ClientConnection). d.in_transaction) h.0.0.1) ∙ h.1,
    subst (λ (d : ClientConnection). d.in_transaction ≡ false → d.locked_tables ≡ []) h.0.0.1
        h.0.0.0.idle,
  ),
  ((
    (subst (λ (d : ClientConnection). Owns d.locked_tables s) h.0.0.1 h.0.0.0.owns, h.0.0.1),
    h.0.0.0.owns.named name p h.0.1,
  )),
)
