-- ===== src/Connection/Sets.antt =====
-- SET: what it does to the locks.
use mathlib.Core.Path.{subst}
use computer_systems_assignm.Prelude.{
  ℕ, length, ◌≡◌, ◌≢◌, refl, ◌∙◌, ap, Bool, true, false, List, [], ◌∷◌, Option, none, some, arith,
  ltb,
}
use computer_systems_assignm.Exceptions.{ok}
use computer_systems_assignm.Text.{Bytes}
use computer_systems_assignm.Message.{MessageType, message, get_arg}
use computer_systems_assignm.ValueStack
use computer_systems_assignm.ValueStack.{ValueStack}
use computer_systems_assignm.Server
use computer_systems_assignm.Connection.State.{
  ClientConnection, State, ◌>>=◌, lift, gets, modify_conn,
}
use computer_systems_assignm.Connection.Calls.{top_value, pop_value, stack_size, find_table}
use computer_systems_assignm.Connection.Handlers.{
  is_locked, set_table_value, set_in, set_found, require_one, handle_set, no_value,
}
use computer_systems_assignm.Connection.Triple.{
  Frame-refl, Spec, Triple, Triple-bind, Triple-gets, Triple-raise, Triple-pre, Triple-guard,
  Triple-ok,
}
use computer_systems_assignm.Connection.Owns.{Ready, At, Waits, Owns-conn, Frame-conn, Ready-At}
use computer_systems_assignm.Connection.Acquire.{
  Waiting, Acquired, acquire-Acquired, first_arg, second_arg, Triple-some, Triple-known,
  Triple-from, Found, Searched, Found-Searched,
}
use computer_systems_assignm.Connection.Keeps.{
  Leads, Triple-set_entry, Triple-commit_table, Triple-unlock_table, Triple-lock_table,
  is_locked-head,
}
use computer_systems_assignm.Connection.Steady.{safe, Steady-write_ok}
use computer_systems_assignm.Connection.Requests.{by_conn}

get_top-cons : (v : Bytes) (rest : ValueStack) → ValueStack.get_top (v ∷ rest) ≡ ok v
unfolding ValueStack.get_top
get_top-cons v rest = refl

pop-cons : (v : Bytes) (rest : ValueStack) → ValueStack.pop (v ∷ rest) ≡ ok rest
unfolding ValueStack.pop
pop-cons v rest = refl

pub top_value-cons :
    (s : State) (v : Bytes) (rest : ValueStack) → s.conn.stack ≡ v ∷ rest → top_value s ≡ (ok v, s)
unfolding top_value ◌>>=◌ gets lift
top_value-cons s v rest e = rw (e, get_top-cons v rest)

abbrev pub popped : ValueStack → ClientConnection → ClientConnection
popped rest c = record c { stack = rest }

pub pop_value-cons :
    (s : State) (v : Bytes) (rest : ValueStack)
    → s.conn.stack ≡ v ∷ rest
    → pop_value s ≡ (ok tt, record s { conn = popped rest s.conn })
unfolding pop_value ◌>>=◌ gets lift modify_conn
pop_value-cons s v rest e = rw (e, pop-cons v rest)

stack_of : (s : State) {c : ClientConnection} → s.conn ≡ c → s.conn.stack ≡ c.stack
stack_of s e = ap (λ (d : ClientConnection). d.stack) e

module _ (pointers : List ℕ) (c : ClientConnection) (v : Bytes) (rest : ValueStack)
    (stacked : c.stack ≡ v ∷ rest) where
  top_value-At :
      {q : Spec Bytes}
      → ((s : State) → At pointers c s → q.returns v s)
      → Triple (At pointers c) top_value q
  top_value-At k = record {
    at = λ s h. rw (top_value-cons s v rest (stack_of s h.1 ∙ stacked)) (Frame-refl s, k s h);
  }

  pop_value-At :
      {q : Spec (Unit {0})}
      → ((s : State) → At pointers (popped rest c) s → q.returns tt s)
      → Triple (At pointers c) pop_value q
  pop_value-At k = record {
    at = λ s h. rw (pop_value-cons s v rest (stack_of s h.1 ∙ stacked)) (
      Frame-conn s (popped rest s.conn) refl,
      k _ (Owns-conn s (popped rest s.conn) refl h.0, ap (popped rest) h.1),
    );
  }

  -- The body of SET on a locked table.
  set_table_value-At :
      (t : MessageType) (name key : Bytes) (p : ℕ)
      → is_locked p pointers ≡ true
      → {q : Spec (Unit {0})} → ((s : State) → At pointers (popped rest c) s → q.returns tt s)
      → Triple (At pointers c) (set_table_value (message t (name ∷ key ∷ [])) p) q
  unfolding set_table_value
  set_table_value-At t name key p locked k = Triple-ok _ key _ (second_arg t name key []) (
      Triple-bind (λ a s. At pointers c s × (a ≡ v)) (top_value-At (λ s h. (h, refl)))
        (λ value.
          Triple-pre (At pointers c) (λ s h. h.0)
            (Triple-bind (λ _. At pointers c)
              (Triple-set_entry p pointers c locked (λ s h. h) key value) (λ _. pop_value-At k))))

module _ (t : MessageType) (name key : Bytes) (v : Bytes) (rest : ValueStack) (c : ClientConnection)
    (stacked : c.stack ≡ v ∷ rest) {f : Type 0} where
  set_in-alone :
      (p : ℕ)
      → c.in_transaction ≡ false
      → c.locked_tables ≡ []
      → Triple
          (λ s. At [] c s × Leads p s)
          (set_in (message t (name ∷ key ∷ [])) p false)
          (safe (Unit {0}) Waits f)
  unfolding set_in
  set_in-alone p alone none_locked =
      Triple-bind (λ _. At (p ∷ []) c)
        (Triple-pre (λ s. At [] c s × Leads p s × Unit {0}) (λ s h. (h.0, h.1, tt))
          (Triple-lock_table p [] c (λ s. Unit {0}) alone (λ s t x e m h. h) (λ s w. w)))
        (λ _.
          Triple-bind (λ _. At (p ∷ []) (popped rest c))
            (set_table_value-At (p ∷ []) c v rest stacked t name key p (is_locked-head p [])
              (λ s h. h))
            (λ _.
              Triple-bind (λ _. At (p ∷ []) (popped rest c))
                (Triple-commit_table p (p ∷ []) (popped rest c) (is_locked-head p []) (λ s h. h))
                (λ _.
                  Triple-unlock_table p [] (popped rest c)
                    (λ s h. Ready-At [] (popped rest c) s h none_locked (λ n. refl)))))

  set_in-transaction :
      (p : ℕ)
      → c.in_transaction ≡ true
      → Triple
          (λ s. At c.locked_tables c s × Leads p s)
          (set_in (message t (name ∷ key ∷ [])) p true)
          (safe (Unit {0}) Waits f)
  unfolding set_in
  set_in-transaction p ongoing =
      Triple-bind (λ _ s. (pointers : List ℕ) × Acquired p c (λ r. Unit {0}) pointers s)
        (Triple-pre (λ s. At c.locked_tables c s × Leads p s × Unit {0}) (λ s h. (h.0, h.1, tt))
          (acquire-Acquired p c ongoing (λ r. Unit {0})
            (record { taken = λ s t x e. x; conn = λ s c x. x }) (λ e s r. r)
            (λ pointers s h. (pointers, h))))
        (λ _.
          Triple-some (λ (pointers : List ℕ). Acquired p c (λ r. Unit {0}) pointers)
            λ pointers. Triple-known λ locked.
              Triple-pre (At pointers (record c { locked_tables = pointers })) (λ s h. h.0)
                (set_table_value-At pointers (record c { locked_tables = pointers }) v rest stacked
                  t name key p locked
                  (λ s h.
                    Ready-At pointers (popped rest (record c { locked_tables = pointers })) s h refl
                      (λ n. ground arith))))

  set_in-Waiting :
      (p : ℕ) (ongoing : Bool)
      → Triple
          (Found c p ongoing)
          (set_in (message t (name ∷ key ∷ [])) p ongoing)
          (safe (Unit {0}) Waits f)
  set_in-Waiting p true = Triple-known λ (e, i). set_in-transaction p e
  set_in-Waiting p false = Triple-known λ (e, i).
      Triple-pre (λ s. At [] c s × Leads p s) (λ s h. (subst (λ ps. At ps c s) (i e) h.0, h.1))
        (set_in-alone p e (i e))

  set_found-Waiting :
      (found : Option ℕ)
      → Triple
          (Searched c name found)
          (set_found (message t (name ∷ key ∷ [])) found)
          (safe (Unit {0}) Waits f)
  unfolding set_found
  set_found-Waiting none = Triple-raise _ (λ s h. h.0.0)
  set_found-Waiting (some p) =
      Triple-gets (λ s. s.conn.in_transaction)
        λ ongoing.
          Triple-bind (λ _. Ready)
            (Triple-pre (Found c p ongoing) (Found-Searched c name p ongoing)
              (set_in-Waiting p ongoing))
            (λ _. Steady-write_ok (λ s. ⊥))

stack_not_empty :
    (c : ClientConnection) (size : ℕ) (s : State)
    → ltb size 1 ≡ false
    → s.conn ≡ c
    → ValueStack.get_size s.conn.stack ≡ size
    → c.stack ≢ []
unfolding ValueStack.get_size
stack_not_empty c size s enough e n empty = ground (arith, ap length (stack_of s e ∙ empty))

pub handle_set-Waiting :
    {f : Type 0} (t : MessageType) (name key : Bytes)
    → Waiting f (handle_set (message t (name ∷ key ∷ [])))
unfolding handle_set stack_size require_one
handle_set-Waiting {f} t name key = by_conn λ c.
    Triple-gets (λ s. ValueStack.get_size s.conn.stack)
      λ size.
        Triple-guard (ltb size 1) no_value (λ e s h. h.0.0)
          (λ enough.
            Triple-from (λ s h. stack_not_empty c size s enough h.0.1 h.1)
              λ some_value.
                Triple-pre (λ s. Ready s × (s.conn ≡ c)) (λ s h. h.0)
                  (by_stack c c.stack refl some_value))
  where
    by_stack :
        (c : ClientConnection) (stack : ValueStack)
        → c.stack ≡ stack
        → stack ≢ []
        → Triple
            (λ s. Ready s × (s.conn ≡ c))
            (lift (get_arg (message t (name ∷ key ∷ [])) 0) >>= λ table.
              find_table table >>= set_found (message t (name ∷ key ∷ [])))
            (safe (Unit {0}) Waits f)
    by_stack c [] e n = absurd (n refl)
    by_stack c (v ∷ rest) e n =
        unfold find_table in
        Triple-ok _ name _ (first_arg t name (key ∷ [])) (
          Triple-gets (λ s. Server.find_table name s.server)
            λ found. set_found-Waiting t name key v rest c e found)
