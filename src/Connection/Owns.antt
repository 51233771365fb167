-- ===== src/Connection/Owns.antt =====
-- Which tables the running client has locked, and how the stores of table.cpp change that.
use computer_systems_assignm.Prelude.{
  ℕ, ◌≤◌, ◌≡◌, ◌≢◌, refl, sym, ◌∙◌, ap, Bool-cases, true, false, List, [], ◌∷◌, Option, none, some,
  arith,
}
use mathlib.Core.Path.{subst}
use computer_systems_assignm.Text.{Bytes}
use computer_systems_assignm.Dict.{lookup}
use computer_systems_assignm.Table.{Table}
use computer_systems_assignm.Connection.State.{ClientConnection, State}
use computer_systems_assignm.Connection.Calls.{put_table}
use computer_systems_assignm.Connection.Handlers.{is_locked}
use computer_systems_assignm.Connection.Triple.{Frame}

abbrev pub IsHeldBy : ℕ → Option Table → Type 0
IsHeldBy me none = ⊥
IsHeldBy me (some t) = t.mutex ≡ some me

abbrev pub AreDistinct : List ℕ → Type 0
AreDistinct [] = Unit
AreDistinct (p ∷ pointers) = (is_locked p pointers ≡ false) × AreDistinct pointers

-- The client has locked exactly the tables behind `pointers`, each once; the names lead to tables;
-- and nobody is in create_table.
pub record Owns (pointers : List ℕ) (s : State) : Type 0 where
  pub fresh : (p : ℕ) → s.next ≤ p → s.tables p ≡ none
  pub named : (name : Bytes) (p : ℕ) → lookup name s.server.table_names ≡ some p → s.tables p ≢ none
  pub server_free : s.server.mutex ≡ none
  pub held : (p : ℕ) → is_locked p pointers ≡ true → IsHeldBy s.conn.client (s.tables p)
  pub only :
      (p : ℕ) (t : Table)
      → s.tables p ≡ some t
      → t.mutex ≡ some s.conn.client
      → is_locked p pointers ≡ true
  pub distinct : AreDistinct pointers

-- Between two requests: what is locked is remembered in locked_tables, and only in a transaction.
pub record Ready (s : State) : Type 0 where
  pub owns : Owns s.conn.locked_tables s
  pub idle : s.conn.in_transaction ≡ false → s.conn.locked_tables ≡ []

-- The heap with another table behind one pointer.
abbrev pub with_table : State → ℕ → Table → State
with_table s p t = record s { tables = put_table s.tables p t }

module _ (s : State) (p : ℕ) (t t' : Table) (there : s.tables p ≡ some t) where
  -- The stored table was free or ours, and still is.
  pub Frame-with_table :
      ((j : ℕ) → j ≢ s.conn.client → t.mutex ≢ some j)
      → ((j : ℕ) → j ≢ s.conn.client → t'.mutex ≢ some j)
      → Frame s (with_table s p t')
  Frame-with_table ours still = record {
    client = refl;
    kept = λ q x j n e m. ground (arith, ours j n);
    made = λ q x j n e m. ground (arith, still j n);
  }

  -- A change of a table that the client has locked, which keeps the mutex.
  pub Owns-update :
      {pointers : List ℕ}
      → Owns pointers s
      → is_locked p pointers ≡ true
      → t'.mutex ≡ t.mutex
      → Owns pointers (with_table s p t')
  Owns-update {pointers} o locked same = record {
    fresh = λ q b. ground (arith, o.fresh q b);
    named = λ name q e. ground (arith, o.named name q e);
    server_free = o.server_free;
    held = λ q e. ground (arith, o.held q e, o.held p locked);
    only = λ q x e m. ground (arith, o.only q x);
    distinct = o.distinct;
  }

  -- A free table that the client locks.
  pub Owns-lock :
      {pointers : List ℕ}
      → Owns pointers s
      → t.mutex ≡ none
      → t'.mutex ≡ some s.conn.client
      → Owns (p ∷ pointers) (with_table s p t')
  unfolding is_locked
  Owns-lock {pointers} o free taken = record {
    fresh = λ q b. ground (arith, o.fresh q b);
    named = λ name q e. ground (arith, o.named name q e);
    server_free = o.server_free;
    held = λ q e. ground (arith, o.held q);
    only = λ q x e m. ground (arith, o.only q x);
    distinct = (ground (arith, Bool-cases (is_locked p pointers), o.held p), o.distinct);
  }

  -- A locked table that the client unlocks.
  pub Owns-unlock :
      {pointers : List ℕ}
      → Owns (p ∷ pointers) s
      → t'.mutex ≡ none
      → Owns pointers (with_table s p t')
  unfolding is_locked
  Owns-unlock {pointers} o free = record {
    fresh = λ q b. ground (arith, o.fresh q b);
    named = λ name q e. ground (arith, o.named name q e);
    server_free = o.server_free;
    held = λ q e. ground (arith, o.held q, o.distinct);
    only = λ q x e m. ground (arith, o.only q x);
    distinct = o.distinct.1;
  }

-- What does not touch the heap, the map or the client's number keeps the locks.
pub Owns-conn :
    {pointers : List ℕ} (s : State) (c : ClientConnection)
    → c.client ≡ s.conn.client
    → Owns pointers s
    → Owns pointers (record s { conn = c })
Owns-conn s c e o = record {
  fresh = o.fresh;
  named = o.named;
  server_free = o.server_free;
  held = λ q h. rw e (o.held q h);
  only = λ q x h m. o.only q x h (m ∙ ap some e);
  distinct = o.distinct;
}

pub Frame-conn :
    (s : State) (c : ClientConnection) → c.client ≡ s.conn.client → Frame s (record s { conn = c })
Frame-conn s c e = record { client = e; kept = λ p t j n h m. h; made = λ p t j n h m. h }

-- The locks of the running client and the members of its connection.
abbrev pub At : List ℕ → ClientConnection → State → Type 0
At pointers c s = Owns pointers s × (s.conn ≡ c)

-- Another client holds a table, and this one, not in a transaction, waits for it.
pub record Waits (s : State) : Type 0 where
  pub alone : s.conn.in_transaction ≡ false
  pub table : ℕ
  pub holder : ℕ
  pub content : Table
  pub there : s.tables table ≡ some content
  pub taken : content.mutex ≡ some holder

-- A client that remembers its locks is ready for the next request.
pub Ready-At :
    (pointers : List ℕ) (c : ClientConnection) (s : State)
    → At pointers c s
    → c.locked_tables ≡ pointers
    → (c.in_transaction ≡ false → pointers ≡ [])
    → Ready s
Ready-At pointers c s h l i = record {
  owns = subst (λ ps. Owns ps s) (sym (ap (λ (d : ClientConnection). d.locked_tables) h.1 ∙ l)) h.0;
  idle = λ n.
      (ap (λ (d : ClientConnection). d.locked_tables) h.1 ∙ l)
      ∙ i (sym (ap (λ (d : ClientConnection). d.in_transaction) h.1) ∙ n);
}
