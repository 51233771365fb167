-- ===== src/Connection/Sizes.antt =====
-- How long the values on the stack and in the tables are: a logic of what the methods of ClientConnection leave
-- and return.
pub mod Tables
pub mod Calls
pub mod Handlers
pub mod Serve
pub mod Chat
use computer_systems_assignm.Prelude.{
  ℕ, ◌≤◌, ◌≡◌, refl, Bool, true, false, All, length, some, if◌then◌else◌,
}
use computer_systems_assignm.Exceptions.{Outcome, ok, throw, blocked, undefined, Exception}
use computer_systems_assignm.Text.{Bytes}
use computer_systems_assignm.Dict.{Dict}
use computer_systems_assignm.Table.{Table}
use computer_systems_assignm.Connection.State.{
  State, Exec, ◌>>=◌, lift, catch, gets, continue, handle,
}

-- A value that fits into a line behind DATA.
abbrev pub max_value : ℕ
max_value = 1018

pub record IsShortValue (value : Bytes) : Type 0 where
  pub bound : length value ≤ max_value

abbrev pub HasShortValues : Dict Bytes → Type 0
HasShortValues = All (λ entry. IsShortValue entry.1)

pub record IsShortTable (t : Table) : Type 0 where
  pub committed : HasShortValues t.key_value_pairs
  pub proposed : HasShortValues t.proposed_pairs

-- Every value on the stack and in the tables is short.
pub record IsSmall (s : State) : Type 0 where
  pub stack : All IsShortValue s.conn.stack
  pub tables : (p : ℕ) (t : Table) → s.tables p ≡ some t → IsShortTable t

abbrev pub Left : {A : Type 0} → (A → Type 0) → Outcome A × State → Type 0
Left Q (ok a, s) = IsSmall s × Q a
Left Q (throw e, s) = IsSmall s
Left Q (blocked, s) = IsSmall s
Left Q (undefined, s) = IsSmall s

-- From short values come short values, and a result with `Q`.
pub record Yields {A : Type 0} (Q : A → Type 0) (m : Exec A) : Type 0 where
  pub at : (s : State) → IsSmall s → Left Q (m s)

abbrev pub Any : {A : Type 0} → A → Type 0
Any a = Unit

module _ {A B : Type 0} (R : A → Type 0) (Q : B → Type 0) where
  continued-Left :
      (f : A → Exec B) (o : Outcome A × State)
      → Left R o
      → ((a : A) → R a → Yields Q (f a))
      → Left Q (continue o.0 f o.1)
  continued-Left f (ok a, s) h k = (k a h.1).at s h.0
  continued-Left f (throw e, s) h k = h
  continued-Left f (blocked, s) h k = h
  continued-Left f (undefined, s) h k = h

pub Yields-bind :
    {A B : Type 0} {R : A → Type 0} {Q : B → Type 0} {m : Exec A} {f : A → Exec B}
    → Yields R m
    → ((a : A) → R a → Yields Q (f a))
    → Yields Q (m >>= f)
unfolding ◌>>=◌
Yields-bind {R} {Q} {m} {f} h k = record { at = λ s i. continued-Left R Q f (m s) (h.at s i) k }

module _ {A : Type 0} {Q : A → Type 0} where
  handled-Left :
      (c : Exception → Exec A) (o : Outcome A × State)
      → Left Q o
      → ((e : Exception) → Yields Q (c e))
      → Left Q (handle o.0 c o.1)
  handled-Left c (ok a, s) h k = h
  handled-Left c (throw e, s) h k = (k e).at s h
  handled-Left c (blocked, s) h k = h
  handled-Left c (undefined, s) h k = h

  pub Yields-catch :
      {m : Exec A} {c : Exception → Exec A}
      → Yields Q m
      → ((e : Exception) → Yields Q (c e))
      → Yields Q (catch m c)
  unfolding catch
  Yields-catch {m} {c} h k = record { at = λ s i. handled-Left c (m s) (h.at s i) k }

  pub Yields-if :
      (b : Bool) {m n : Exec A} → Yields Q m → Yields Q n → Yields Q (if b then m else n)
  Yields-if true h k = h
  Yields-if false h k = k

  pub Yields-pure : (a : A) → Q a → Yields Q (lift (ok a))
  unfolding lift
  Yields-pure a h = record { at = λ s i. (i, h) }

  pub Yields-raise : (e : Exception) → Yields Q (lift (throw e))
  unfolding lift
  Yields-raise e = record { at = λ s i. i }

  -- A pure part, whose result is known.
  pub Yields-lift : (o : Outcome A) → ((a : A) → o ≡ ok a → Q a) → Yields Q (lift o)
  unfolding lift
  Yields-lift (ok a) h = record { at = λ s i. (i, h a refl) }
  Yields-lift (throw e) h = record { at = λ s i. i }
  Yields-lift blocked h = record { at = λ s i. i }
  Yields-lift undefined h = record { at = λ s i. i }

  -- A pure part of what the state holds.
  pub Yields-read :
      (f : State → Outcome A)
      → ((s : State) (a : A) → IsSmall s → f s ≡ ok a → Q a)
      → Yields Q (gets f >>= lift)
  unfolding ◌>>=◌ gets
  Yields-read f h = record { at = λ s i. (Yields-lift (f s) (λ a e. h s a i e)).at s i }

module _ {A : Type 0} where
  pub Yields-gets : (g : State → A) → Yields Any (gets g)
  unfolding gets
  Yields-gets g = record { at = λ s i. (i, tt) }

  pub Yields-done : (a : A) → Yields Any (lift (ok a))
  Yields-done a = Yields-pure a tt

  pub Yields-Any : (o : Outcome A) → Yields Any (lift o)
  Yields-Any o = Yields-lift o (λ a e. tt)

-- A sequence, by what its first part yields.
module _ {B : Type 0} {Q : B → Type 0} where
  pub Yields-then :
      {A : Type 0} {m : Exec A} {f : A → Exec B}
      → Yields Any m
      → ((a : A) → Yields Q (f a))
      → Yields Q (m >>= f)
  Yields-then h k = Yields-bind h (λ a u. k a)

  pub Yields-value :
      {m : Exec Bytes} {f : Bytes → Exec B}
      → Yields IsShortValue m
      → ((v : Bytes) → IsShortValue v → Yields Q (f v))
      → Yields Q (m >>= f)
  Yields-value h k = Yields-bind h k

  pub Yields-table :
      {m : Exec Table} {f : Table → Exec B}
      → Yields IsShortTable m
      → ((t : Table) → IsShortTable t → Yields Q (f t))
      → Yields Q (m >>= f)
  Yields-table h k = Yields-bind h k

pub ruleset yields_rules = (
  Yields-then, Yields-value, Yields-table, Yields-done, Yields-raise, Yields-gets, Yields-if,
  Yields-catch,
)
