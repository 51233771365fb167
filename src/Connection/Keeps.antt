-- ===== src/Connection/Keeps.antt =====
-- What each call of `Calls` does to the locks, as rules of the program logic.
use computer_systems_assignm.Prelude.{
  ℕ, ◌≡◌, ◌≢◌, refl, ap, Bool, true, false, List, ◌∷◌, Option, none, some, arith,
}
use mathlib.Core.Path.{fun_ext}
use computer_systems_assignm.Exceptions.{ok, blocked}
use computer_systems_assignm.Text.{Bytes}
use computer_systems_assignm.Table
use computer_systems_assignm.Table.{Table, mutex_lock, mutex_unlock}
use computer_systems_assignm.Connection.State.{ClientConnection, State, ◌>>=◌, lift, gets}
use computer_systems_assignm.Connection.Calls.{
  deref, store_table, this_client, lock_table, unlock_table, trylock_table, set_entry, commit_table,
  rollback_table,
}
use computer_systems_assignm.Connection.Handlers.{is_locked}
use computer_systems_assignm.Connection.Triple.{Frame-refl, Spec, Meets, Triple}
use computer_systems_assignm.Connection.Owns.{
  IsHeldBy, Owns, At, Waits, with_table, Frame-with_table, Owns-update, Owns-lock, Owns-unlock,
}

pub is_locked-head : (p : ℕ) (pointers : List ℕ) → is_locked p (p ∷ pointers) ≡ true
unfolding is_locked
is_locked-head p pointers = ground arith

pub held_table :
    (s : State) (p : ℕ) {pointers : List ℕ}
    → Owns pointers s
    → is_locked p pointers ≡ true
    → (t : Table) × (s.tables p ≡ some t) × (t.mutex ≡ some s.conn.client)
held_table s p o h = from (s.tables p) refl (o.held p h)
  where
    from :
        (x : Option Table)
        → s.tables p ≡ x
        → IsHeldBy s.conn.client x
        → (t : Table) × (s.tables p ≡ some t) × (t.mutex ≡ some s.conn.client)
    from (some t) e m = (t, e, m)
    from none e m = absurd m

-- A method that changes a table's entries, called on a locked table.
change_table :
    (p : ℕ) (pointers : List ℕ) (c : ClientConnection) (f : Table → Table)
    → ((t : Table) → (f t).mutex ≡ t.mutex)
    → is_locked p pointers ≡ true
    → {q : Spec (Unit {0})} → ((s : State) → At pointers c s → q.returns tt s)
    → Triple (At pointers c) (deref p >>= λ t. store_table p (f t)) q
unfolding ◌>>=◌ deref store_table
change_table p pointers c f same locked k = record {
  at = λ s (o, e).
      let (t, there, m) = held_table s p o locked in
      rw (there, deref)
        (
          Frame-with_table s p t (f t) there (λ j n r. ground arith)
              (λ j n r. ground (arith, same t)),
          k (with_table s p (f t)) (Owns-update s p t (f t) there o locked (same t), e),
        );
}

module _ (p : ℕ) (pointers : List ℕ) (c : ClientConnection) (locked : is_locked p pointers ≡ true)
    {q : Spec (Unit {0})} (k : (s : State) → At pointers c s → q.returns tt s) where
  pub Triple-set_entry : (key value : Bytes) → Triple (At pointers c) (set_entry p key value) q
  unfolding set_entry
  Triple-set_entry key value =
      change_table p pointers c (Table.set key value) (λ t. unfold Table.set in refl) locked k

  pub Triple-commit_table : Triple (At pointers c) (commit_table p) q
  unfolding commit_table
  Triple-commit_table =
      change_table p pointers c Table.commit_changes (λ t. unfold Table.commit_changes in refl)
        locked k

  pub Triple-rollback_table : Triple (At pointers c) (rollback_table p) q
  unfolding rollback_table
  Triple-rollback_table =
      change_table p pointers c Table.rollback_changes (λ t. unfold Table.rollback_changes in refl)
        locked k

abbrev pub freed : Table → Table
freed t = record t { mutex = none }

abbrev pub taken_by : ℕ → Table → Table
taken_by me t = record t { mutex = some me }

unlock-held : (me : ℕ) (t : Table) → t.mutex ≡ some me → Table.unlock me t ≡ ok (freed t)
unfolding Table.unlock mutex_unlock
unlock-held me t m = ground arith

lock-free : (me : ℕ) (t : Table) → t.mutex ≡ none → Table.lock me t ≡ ok (taken_by me t)
unfolding Table.lock mutex_lock
lock-free me t m = rw (m, mutex_lock)

lock-taken : (me j : ℕ) (t : Table) → t.mutex ≡ some j → Table.lock me t ≡ blocked
unfolding Table.lock mutex_lock
lock-taken me j t m = rw (m, mutex_lock)

trylock-free : (me : ℕ) (t : Table) → t.mutex ≡ none → Table.trylock me t ≡ (taken_by me t, true)
unfolding Table.trylock
trylock-free me t m = rw (m, Table.trylock)

trylock-taken : (me j : ℕ) (t : Table) → t.mutex ≡ some j → Table.trylock me t ≡ (t, false)
unfolding Table.trylock
trylock-taken me j t m = ground arith

pub unlock_table-held :
    (s : State) (p : ℕ) (t : Table)
    → s.tables p ≡ some t
    → t.mutex ≡ some s.conn.client
    → unlock_table p s ≡ (ok tt, with_table s p (freed t))
unfolding ◌>>=◌ unlock_table deref store_table this_client gets lift
unlock_table-held s p t there m = rw (there, deref, unlock-held s.conn.client t m)

-- Unlocking a table that the client has locked.
pub Triple-unlock_table :
    (p : ℕ) (pointers : List ℕ) (c : ClientConnection) {q : Spec (Unit {0})}
    → ((s : State) → At pointers c s → q.returns tt s)
    → Triple (At (p ∷ pointers) c) (unlock_table p) q
Triple-unlock_table p pointers c k = record {
  at = λ s (o, e).
      let (t, there, m) = held_table s p o (is_locked-head p pointers) in
      rw (unlock_table-held s p t there m) (
        Frame-with_table s p t (freed t) there (λ j n r. ground arith) (λ j n r. cc),
        k (with_table s p (freed t)) (Owns-unlock s p t (freed t) there o refl, e),
      );
}

-- A pointer that leads to a table.
abbrev pub Leads : ℕ → State → Type 0
Leads p s = s.tables p ≢ none

pub lock_table-free :
    (s : State) (p : ℕ) (t : Table)
    → s.tables p ≡ some t
    → t.mutex ≡ none
    → lock_table p s ≡ (ok tt, with_table s p (taken_by s.conn.client t))
unfolding ◌>>=◌ lock_table deref store_table this_client gets lift
lock_table-free s p t there m = rw (there, deref, lock-free s.conn.client t m)

pub lock_table-taken :
    (s : State) (p j : ℕ) (t : Table)
    → s.tables p ≡ some t
    → t.mutex ≡ some j
    → lock_table p s ≡ (blocked, s)
unfolding ◌>>=◌ lock_table deref store_table this_client gets lift
lock_table-taken s p j t there m = rw (there, deref, lock-taken s.conn.client j t m)

-- Locking from a state of which `F` is known: the lock is taken, or the client waits.
pub Triple-lock_table :
    (p : ℕ) (pointers : List ℕ) (c : ClientConnection) (F : State → Type 0) {q : Spec (Unit {0})}
    → c.in_transaction ≡ false
    → ((s : State) (t : Table)
        → F s
        → s.tables p ≡ some t
        → t.mutex ≡ none
        → At (p ∷ pointers) c (with_table s p (taken_by s.conn.client t))
        → q.returns tt (with_table s p (taken_by s.conn.client t)))
    → ((s : State) → Waits s → q.waits s)
    → Triple (λ s. At pointers c s × Leads p s × F s) (lock_table p) q
Triple-lock_table p pointers c F {q} alone k w = record {
  at = λ s h. by_table s h (s.tables p) refl;
}
  where
    by_mutex :
        (s : State)
        → At pointers c s
        → F s
        → (t : Table) → s.tables p ≡ some t
        → (m : Option ℕ) → t.mutex ≡ m
        → Meets q s (lock_table p s)
    by_mutex s (o, e) x t there none m =
        let t' : Table = taken_by s.conn.client t in
        rw (lock_table-free s p t there m) (
          Frame-with_table s p t t' there (λ j n r. cc (m, r)) (λ j n r. ground arith),
          k s t x there m (Owns-lock s p t t' there o m refl, e),
        )
    by_mutex s (o, e) x t there (some j) m = rw (lock_table-taken s p j t there m) (
        w s (record {
          alone = rw e alone;
          table = p;
          holder = j;
          content = t;
          there = there;
          taken = m;
        }))

    by_table :
        (s : State)
        → (At pointers c s × Leads p s × F s)
        → (x : Option Table) → s.tables p ≡ x
        → Meets q s (lock_table p s)
    by_table s h none there = absurd (h.1 there)
    by_table s h (some t) there = by_mutex s h.0 h.2 t there t.mutex refl

pub with_table-same : (s : State) (p : ℕ) (t : Table) → s.tables p ≡ some t → with_table s p t ≡ s
with_table-same s p t e =
    ap (λ (x : ℕ → Option Table). record s { tables = x }) (fun_ext λ q. ground arith)

pub trylock_table-free :
    (s : State) (p : ℕ) (t : Table)
    → s.tables p ≡ some t
    → t.mutex ≡ none
    → trylock_table p s ≡ (ok true, with_table s p (taken_by s.conn.client t))
unfolding ◌>>=◌ trylock_table deref store_table this_client gets lift
trylock_table-free s p t there m = rw (there, deref, trylock-free s.conn.client t m)

pub trylock_table-taken :
    (s : State) (p j : ℕ) (t : Table)
    → s.tables p ≡ some t
    → t.mutex ≡ some j
    → trylock_table p s ≡ (ok false, s)
unfolding ◌>>=◌ trylock_table deref store_table this_client gets lift
trylock_table-taken s p j t there m =
    rw (there, deref, trylock-taken s.conn.client j t m)
      (ap (λ (x : State). (ok false, x)) (with_table-same s p t there))

-- trylock never waits: it takes a free table, and leaves a taken one alone.
pub Triple-trylock_table :
    (p : ℕ) (pointers : List ℕ) (c : ClientConnection) (F : State → Type 0) {q : Spec Bool}
    → ((s : State) (t : Table)
        → F s
        → s.tables p ≡ some t
        → t.mutex ≡ none
        → At (p ∷ pointers) c (with_table s p (taken_by s.conn.client t))
        → q.returns true (with_table s p (taken_by s.conn.client t)))
    → ((s : State) → At pointers c s → F s → q.returns false s)
    → Triple (λ s. At pointers c s × Leads p s × F s) (trylock_table p) q
Triple-trylock_table p pointers c F {q} k w = record { at = λ s h. by_table s h (s.tables p) refl }
  where
    by_mutex :
        (s : State)
        → At pointers c s
        → F s
        → (t : Table) → s.tables p ≡ some t
        → (m : Option ℕ) → t.mutex ≡ m
        → Meets q s (trylock_table p s)
    by_mutex s (o, e) x t there none m =
        let t' : Table = taken_by s.conn.client t in
        rw (trylock_table-free s p t there m) (
          Frame-with_table s p t t' there (λ j n r. cc (m, r)) (λ j n r. ground arith),
          k s t x there m (Owns-lock s p t t' there o m refl, e),
        )
    by_mutex s h x t there (some j) m =
        rw (trylock_table-taken s p j t there m) (Frame-refl s, w s h x)

    by_table :
        (s : State)
        → (At pointers c s × Leads p s × F s)
        → (x : Option Table) → s.tables p ≡ x
        → Meets q s (trylock_table p s)
    by_table s h none there = absurd (h.1 there)
    by_table s h (some t) there = by_mutex s h.0 h.2 t there t.mutex refl
