-- ===== src/Connection/Gets.antt =====
-- GET of a key that is there: what it does to the locks.
use mathlib.Core.Path.{subst}
use computer_systems_assignm.Prelude.{
  ℕ, ◌≡◌, refl, ap, Bool, true, false, List, [], ◌∷◌, Option, none, some, arith,
}
use computer_systems_assignm.Exceptions.{ok}
use computer_systems_assignm.Text.{Bytes}
use computer_systems_assignm.Message.{MessageType, message}
use computer_systems_assignm.ValueStack
use computer_systems_assignm.ValueStack.{ValueStack}
use computer_systems_assignm.Table
use computer_systems_assignm.Table.{Table}
use computer_systems_assignm.Table.Entries.{get-has_key}
use computer_systems_assignm.Server
use computer_systems_assignm.Connection.State.{ClientConnection, State, ◌>>=◌, lift, modify_conn}
use computer_systems_assignm.Connection.Calls.{deref, push_value, has_entry, get_entry, find_table}
use computer_systems_assignm.Connection.Handlers.{
  is_locked, get_table_value, push_entry, get_in, get_found, handle_get,
}
use computer_systems_assignm.Connection.Triple.{
  Spec, Triple, Triple-bind, Triple-gets, Triple-raise, Triple-catch, Triple-pre, Triple-ok,
}
use computer_systems_assignm.Connection.Owns.{Ready, At, Waits, Owns-conn, Frame-conn, Ready-At}
use computer_systems_assignm.Connection.Acquire.{
  Stable, Acquired, acquire-Acquired, first_arg, second_arg, Triple-some, Triple-known, Triple-from,
  Found, Found-Searched,
}
use computer_systems_assignm.Connection.Keeps.{
  Leads, held_table, Triple-unlock_table, Triple-lock_table, is_locked-head,
}
use computer_systems_assignm.Connection.Steady.{safe, Steady-write_ok}
use computer_systems_assignm.Connection.Requests.{by_conn}

-- The table behind `p`, if any, has the key.
abbrev pub KeyAt : ℕ → Bytes → State → Type 0
KeyAt p key s = (t : Table) → s.tables p ≡ some t → Table.has_key key t ≡ true

KeyAt-Stable : (p : ℕ) (key : Bytes) → Stable p (KeyAt p key)
unfolding Table.has_key
KeyAt-Stable p key = record { taken = λ s t h e x m. ground (arith, h t e); conn = λ s c h. h }

pub has_entry-run :
    (s : State) (p : ℕ) (key : Bytes) (t : Table)
    → s.tables p ≡ some t
    → has_entry p key s ≡ (ok (Table.has_key key t), s)
unfolding has_entry ◌>>=◌ deref lift
has_entry-run s p key t e = rw (e, deref) refl

pub get_entry-run :
    (s : State) (p : ℕ) (key : Bytes) (t : Table)
    → s.tables p ≡ some t
    → get_entry p key s ≡ (Table.get key t, s)
unfolding get_entry ◌>>=◌ deref lift
get_entry-run s p key t e = rw (e, deref) refl

-- The body of GET on a locked table.
get_table_value-At :
    (t : MessageType) (name key : Bytes) (p : ℕ) (pointers : List ℕ) (c : ClientConnection)
    → is_locked p pointers ≡ true
    → {q : Spec (Unit {0})}
    → ((stack : ValueStack) (s : State)
        → At pointers (record c { stack = stack }) s
        → q.returns tt s)
    → Triple
        (λ s. At pointers c s × KeyAt p key s)
        (get_table_value (message t (name ∷ key ∷ [])) p)
        q
unfolding get_table_value push_entry ◌>>=◌ push_value modify_conn lift
get_table_value-At t name key p pointers c locked k = record {
  at = λ s h.
      let (x, there, m) = held_table s p h.0.0 locked in
      let (v, e) = (get-has_key key x).0 (h.1 x there) in
      rw
        (
          second_arg t name key [],
          has_entry-run s p key x there,
          h.1 x there,
          get_entry-run s p key x there,
          e,
        )
        (
          Frame-conn s _ refl,
          k _ _ (
            Owns-conn s _ refl h.0.0,
            ap (λ (d : ClientConnection). record d { stack = ValueStack.push v s.conn.stack })
                h.0.1,
          ),
        );
}

module _ (t : MessageType) (name key : Bytes) (c : ClientConnection) {f : Type 0} where
  get_in-alone :
      (p : ℕ)
      → c.in_transaction ≡ false
      → c.locked_tables ≡ []
      → Triple
          (λ s. (At [] c s × Leads p s) × KeyAt p key s)
          (get_in (message t (name ∷ key ∷ [])) p false)
          (safe (Unit {0}) Waits f)
  unfolding get_in
  get_in-alone p alone none_locked =
      Triple-bind (λ _ s. At (p ∷ []) c s × KeyAt p key s)
        (Triple-pre (λ s. At [] c s × Leads p s × KeyAt p key s) (λ s h. (h.0.0, h.0.1, h.1))
          (Triple-lock_table p [] c (KeyAt p key) alone
            (λ s x h e m a. (a, (KeyAt-Stable p key).taken s x h e)) (λ s w. w)))
        (λ _.
          Triple-bind (λ _ s. (stack : ValueStack) × At (p ∷ []) (record c { stack = stack }) s)
            (Triple-catch (λ e s. ⊥)
              (get_table_value-At t name key p (p ∷ []) c (is_locked-head p [])
                (λ stack s h. (stack, h)))
              (λ e. Triple-from (λ s h. h) absurd))
            (λ _.
              Triple-some (λ stack. At (p ∷ []) (record c { stack = stack }))
                λ stack.
                  Triple-unlock_table p [] (record c { stack = stack })
                    (λ s h. Ready-At [] (record c { stack = stack }) s h none_locked (λ n. refl))))

  get_in-transaction :
      (p : ℕ)
      → c.in_transaction ≡ true
      → Triple
          (λ s. (At c.locked_tables c s × Leads p s) × KeyAt p key s)
          (get_in (message t (name ∷ key ∷ [])) p true)
          (safe (Unit {0}) Waits f)
  unfolding get_in
  get_in-transaction p ongoing =
      Triple-bind (λ _ s. (pointers : List ℕ) × Acquired p c (KeyAt p key) pointers s)
        (Triple-pre (λ s. At c.locked_tables c s × Leads p s × KeyAt p key s)
          (λ s h. (h.0.0, h.0.1, h.1))
          (acquire-Acquired p c ongoing (KeyAt p key) (KeyAt-Stable p key) (λ e s r. r)
            (λ pointers s h. (pointers, h))))
        (λ _.
          Triple-some (λ pointers. Acquired p c (KeyAt p key) pointers)
            λ pointers. Triple-known λ locked.
              Triple-catch (λ e s. ⊥)
                (get_table_value-At t name key p pointers (record c { locked_tables = pointers })
                  locked
                  (λ stack s h.
                    Ready-At pointers (record c { locked_tables = pointers; stack = stack }) s h
                      refl (λ n. ground arith)))
                (λ e. Triple-from (λ s h. h) absurd))

  get_in-Waiting :
      (p : ℕ) (ongoing : Bool)
      → Triple
          (λ s. Found c p ongoing s × KeyAt p key s)
          (get_in (message t (name ∷ key ∷ [])) p ongoing)
          (safe (Unit {0}) Waits f)
  get_in-Waiting p true =
      Triple-from (λ s h. h.0.0)
        λ (e, i).
          Triple-pre (λ s. (At c.locked_tables c s × Leads p s) × KeyAt p key s)
            (λ s h. (h.0.1, h.1)) (get_in-transaction p e)
  get_in-Waiting p false =
      Triple-from (λ s h. h.0.0)
        λ (e, i).
          Triple-pre (λ s. (At [] c s × Leads p s) × KeyAt p key s)
            (λ s h. ((subst (λ ps. At ps c s) (i e) h.0.1.0, h.0.1.1), h.1))
            (get_in-alone p e (i e))

-- If there is a table of this name, it has the key.
abbrev pub HasKey : Bytes → Bytes → State → Type 0
HasKey name key s = (p : ℕ) → Server.find_table name s.server ≡ some p → KeyAt p key s

module _ (t : MessageType) (name key : Bytes) (c : ClientConnection) {f : Type 0} where
  get_found-Waiting :
      (found : Option ℕ)
      → Triple
          (λ s.
            ((Ready s × HasKey name key s) × (s.conn ≡ c))
            × (Server.find_table name s.server ≡ found))
          (get_found (message t (name ∷ key ∷ [])) found)
          (safe (Unit {0}) Waits f)
  unfolding get_found
  get_found-Waiting none = Triple-raise _ (λ s h. h.0.0.0)
  get_found-Waiting (some p) =
      Triple-gets (λ s. s.conn.in_transaction)
        λ ongoing.
          Triple-bind (λ _. Ready)
            (Triple-pre (λ s. Found c p ongoing s × KeyAt p key s)
              (λ s h. (
                Found-Searched c name p ongoing s (((h.0.0.0.0, h.0.0.1), h.0.1), h.1),
                h.0.0.0.1 p h.0.1,
              ))
              (get_in-Waiting t name key c p ongoing))
            (λ _. Steady-write_ok (λ s. ⊥))

pub handle_get-Waiting :
    {f : Type 0} (t : MessageType) (name key : Bytes)
    → Triple
        (λ s. Ready s × HasKey name key s)
        (handle_get (message t (name ∷ key ∷ [])))
        (safe (Unit {0}) Waits f)
unfolding handle_get find_table
handle_get-Waiting t name key = by_conn λ c.
    Triple-ok _ name _ (first_arg t name (key ∷ []))
      (Triple-gets (λ s. Server.find_table name s.server) (get_found-Waiting t name key c))
