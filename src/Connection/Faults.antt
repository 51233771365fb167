-- ===== src/Connection/Faults.antt =====
-- Any valid request: what it does to the locks, and when it can be undefined.
use computer_systems_assignm.Prelude.{
  ℕ, ◌≡◌, ◌≢◌, refl, sym, ◌∙◌, true, false, List, [], ◌∷◌, Option, some, arith, ◌⊎◌, inl, inr,
  Bool-cases, Option-cases, ◌==◌, ==_iff,
}
use mathlib.Core.Path.{subst}
use computer_systems_assignm.Exceptions.{Outcome, ok, throw, blocked, undefined}
use computer_systems_assignm.Text.{Bytes}
use computer_systems_assignm.Message.{MessageType, Message, message}
use computer_systems_assignm.Message.Validity.{IsAccepted}
use computer_systems_assignm.Table
use computer_systems_assignm.Table.{Table}
use computer_systems_assignm.Server
use computer_systems_assignm.Connection.State.{State, ◌>>=◌, lift, gets}
use computer_systems_assignm.Connection.Calls.{deref, this_client, lock_table, find_table}
use computer_systems_assignm.Connection.Transactions.{on_exception}
use computer_systems_assignm.Connection.Handlers.{
  no_access, is_locked, get_in, get_found, handle_get, respond, call_response_function,
}
use computer_systems_assignm.Connection.Triple.{Meets}
use computer_systems_assignm.Connection.Owns.{Ready, Waits, IsHeldBy}
use computer_systems_assignm.Connection.Acquire.{first_arg}
use computer_systems_assignm.Connection.Steady.{safe}
use computer_systems_assignm.Connection.Runs.{
  bind-throw, bind-blocked, catch-throw, catch-blocked, gets-ok, lift-ok,
}
use computer_systems_assignm.Connection.Values.InTransaction.{acquire-taken}
use computer_systems_assignm.Connection.Values.Missing.{call_response_function-missing}
use computer_systems_assignm.Connection.Gets.{HasKey}
use computer_systems_assignm.Connection.Serve.{
  MayFault, KeyFound, call_response_function-Meets, on_exception-Steady,
}

-- Arithmetic, or a GET of a key that the table does not have.
abbrev pub CanFault : Message → State → Type 0
CanFault m s = MayFault m.message_type ⊎ (KeyFound m.message_type m.args s → ⊥)

pub Meets-faults :
    {A : Type 0} (w : State → Type 0) (f g : Type 0) (s : State) (o : Outcome A × State)
    → (f → g)
    → Meets (safe A w f) s o
    → Meets (safe A w g) s o
Meets-faults w f g s (ok a, s') k h = h
Meets-faults w f g s (throw e, s') k h = h
Meets-faults w f g s (blocked, s') k h = h
Meets-faults w f g s (undefined, s') k h = k h

Meets-undefined :
    {A : Type 0} (w : State → Type 0) (f : Type 0) (s : State) (o : Outcome A × State)
    → f
    → o.0 ≡ undefined
    → Meets (safe A w f) s o
Meets-undefined w f s (ok a, s') x e = ground arith
Meets-undefined w f s (throw y, s') x e = ground arith
Meets-undefined w f s (blocked, s') x e = ground arith
Meets-undefined w f s (undefined, s') x e = x

lock_table-taken :
    (s : State) (p j : ℕ) (t : Table)
    → s.tables p ≡ some t
    → t.mutex ≡ some j
    → lock_table p s ≡ (blocked, s)
unfolding ◌>>=◌ lock_table deref this_client gets lift Table.lock Table.mutex_lock
lock_table-taken s p j t there m = rw (there, deref, m, Table.mutex_lock) refl

module _ (s : State) (p j : ℕ) (t : Table) (name key : Bytes)
    (found : Server.find_table name s.server ≡ some p) (there : s.tables p ≡ some t)
    (ready : Ready s) (taken : t.mutex ≡ some j) where
  abbrev get : Message
  get = message MessageType.get (name ∷ key ∷ [])

  get-blocked : s.conn.in_transaction ≡ false → call_response_function get s ≡ (blocked, s)
  unfolding call_response_function respond handle_get find_table get_found get_in
  get-blocked alone = catch-blocked _ on_exception (
      lift-ok _ _ (first_arg MessageType.get name (key ∷ []))
      ∙ gets-ok (λ r. Server.find_table name r.server) _ found
      ∙ gets-ok (λ r. r.conn.in_transaction) _ alone
      ∙ bind-blocked _ _ (bind-blocked _ _ (lock_table-taken s p j t there taken)))

  get-refused :
      s.conn.in_transaction ≡ true
      → is_locked p s.conn.locked_tables ≡ false
      → call_response_function get s ≡ on_exception no_access s
  unfolding call_response_function respond handle_get find_table get_found get_in
  get-refused ongoing unlocked = catch-throw _ on_exception (
      lift-ok _ _ (first_arg MessageType.get name (key ∷ []))
      ∙ gets-ok (λ r. Server.find_table name r.server) _ found
      ∙ gets-ok (λ r. r.conn.in_transaction) _ ongoing
      ∙ bind-throw _ _ (bind-throw _ _ (acquire-taken s p t name key found there j unlocked taken)))

  not_mine : j ≢ s.conn.client → is_locked p s.conn.locked_tables ≡ false
  not_mine n = elim (Bool-cases (is_locked p s.conn.locked_tables)) [
    | inr e ↦ e
    | inl e ↦
        let mine : t.mutex ≡ some s.conn.client =
          subst (IsHeldBy s.conn.client) there (ready.owns.held p e) in
        absurd (n (ground arith))
  ]

  -- GET of a table that another client has locked.
  get_taken-Meets :
      (f : Type 0)
      → j ≢ s.conn.client
      → Meets (safe (Unit {0}) Waits f) s (call_response_function get s)
  get_taken-Meets f n = elim (Bool-cases s.conn.in_transaction) [
    | inl ongoing ↦
        subst (Meets (safe (Unit {0}) Waits f) s) (sym (get-refused ongoing (not_mine n)))
          ((on_exception-Steady {g = f} no_access Waits).at s ready)
    | inr alone ↦
        subst (Meets (safe (Unit {0}) Waits f) s) (sym (get-blocked alone)) (record {
          alone = alone;
          table = p;
          holder = j;
          content = t;
          there = there;
          taken = taken;
        })
  ]

module _ (s : State) (p : ℕ) (t : Table) (name key : Bytes)
    (found : Server.find_table name s.server ≡ some p) (there : s.tables p ≡ some t)
    (ready : Ready s) (missing : Table.has_key key t ≡ false) where
  get_missing-Meets :
      (f : Type 0)
      → f
      → Meets
          (safe (Unit {0}) Waits f)
          s
          (call_response_function (message MessageType.get (name ∷ key ∷ [])) s)
  get_missing-Meets f x = elim (Option-cases t.mutex) [
    | inl free ↦ Meets-undefined Waits f s _ x (
        call_response_function-missing s p t name key found there ready missing
          (λ j e. ground arith))
    | inr (j, taken) ↦ elim (Bool-cases (j == s.conn.client)) [
      | inl mine ↦ Meets-undefined Waits f s _ x (
          call_response_function-missing s p t name key found there ready missing
            (λ i e. ground (arith, (==_iff j s.conn.client).0 mine)))
      | inr other ↦
          get_taken-Meets s p j t name key found there ready taken f
            (λ e. ground (arith, (==_iff j s.conn.client).1 e))
    ]
  ]

same_key :
    (o : Option ℕ) (tables : ℕ → Option Table) (p q : ℕ) (key : Bytes) (t x : Table)
    → o ≡ some p
    → tables p ≡ some t
    → o ≡ some q
    → tables q ≡ some x
    → Table.has_key key t ≡ true
    → Table.has_key key x ≡ true
same_key o tables p q key t x found there h e has =
    let same : t ≡ x = ground arith in subst (λ u. Table.has_key key u ≡ true) same has

-- Whether the request asks for a key that is there, and what it does if it does not.
get_key-Meets :
    (s : State) (name key : Bytes) (f : Type 0)
    → Ready s
    → (HasKey name key s
        → Meets
            (safe (Unit {0}) Waits f)
            s
            (call_response_function (message MessageType.get (name ∷ key ∷ [])) s))
    → ((HasKey name key s → ⊥) → f)
    → Meets
        (safe (Unit {0}) Waits f)
        s
        (call_response_function (message MessageType.get (name ∷ key ∷ [])) s)
unfolding Server.find_table
get_key-Meets s name key f ready known fault =
    elim (Option-cases (Server.find_table name s.server)) [
      | inl e ↦ known (λ p h. ground arith)
      | inr (p, found) ↦ elim (Option-cases (s.tables p)) [
        | inl gone ↦ absurd (ready.owns.named name p found gone)
        | inr (t, there) ↦ elim (Bool-cases (Table.has_key key t)) [
          | inl has ↦ known (λ q h x e.
              same_key (Server.find_table name s.server) s.tables p q key t x found there h e has)
          | inr missing ↦
              get_missing-Meets s p t name key found there ready missing f
                (fault (λ h. ground (arith, h p found t there)))
        ]
      ]
    ]

abbrev pub IsServed : Message → State → Type 0
IsServed m s = Meets (safe (Unit {0}) Waits (CanFault m s)) s (call_response_function m s)

other_IsServed :
    (m : Message) (s : State)
    → IsAccepted m
    → Ready s
    → KeyFound m.message_type m.args s
    → IsServed m s
other_IsServed m s valid ready k =
    Meets-faults Waits (MayFault m.message_type) (CanFault m s) s (call_response_function m s) inl
      (call_response_function-Meets m s valid ready k)

by_shape :
    (t : MessageType) (args : List Bytes) (s : State)
    → IsAccepted (message t args)
    → Ready s
    → IsServed (message t args) s
by_shape MessageType.get (name ∷ key ∷ []) s valid ready =
    get_key-Meets s name key (CanFault (message MessageType.get (name ∷ key ∷ [])) s) ready
      (λ k. other_IsServed (message MessageType.get (name ∷ key ∷ [])) s valid ready k) inr
by_shape MessageType.get [] s valid ready =
    other_IsServed (message MessageType.get []) s valid ready tt
by_shape MessageType.get (name ∷ []) s valid ready =
    other_IsServed (message MessageType.get (name ∷ [])) s valid ready tt
by_shape MessageType.get (name ∷ key ∷ a ∷ args) s valid ready =
    other_IsServed (message MessageType.get (name ∷ key ∷ a ∷ args)) s valid ready tt
by_shape t args s valid ready = other_IsServed (message t args) s valid ready tt

-- For a valid message and a ready client: the client is ready again when the request returns or throws, the
-- tables that others have locked are untouched, a request that has to wait comes from a client that is in no
-- transaction, and what is undefined is arithmetic, or a GET of a key that its table does not have.
pub call_response_function-IsServed :
    (m : Message) (s : State) → IsAccepted m → Ready s → IsServed m s
call_response_function-IsServed m s valid ready = by_shape m.message_type m.args s valid ready
