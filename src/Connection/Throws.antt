-- ===== src/Connection/Throws.antt =====
-- Which exceptions the methods of ClientConnection throw: a logic of predicates on exceptions.
pub mod Calls
pub mod Handlers
pub mod Arithmetic
pub mod Transactions
pub mod Serve
pub mod Chat
use computer_systems_assignm.Prelude.{ℕ, ◌≤◌, Bool, true, false, length, if◌then◌else◌}
use computer_systems_assignm.Exceptions.{
  Outcome, ok, throw, blocked, undefined, Exception, invalid_message, comm_exception,
  operation_exception, failed_transaction, invalid_argument, out_of_range,
}
use computer_systems_assignm.Exceptions.{◌>>=◌ as bind}
use computer_systems_assignm.Text.{Bytes}
use computer_systems_assignm.Serialization.Total.{max_what}
use computer_systems_assignm.Connection.State.{
  State, Exec, ◌>>=◌, lift, catch, gets, modify_conn, ClientConnection, continue, handle,
}

-- A text that fits into a line behind FAILED.
pub record IsShort (what : Bytes) : Type 0 where
  pub bound : length what ≤ max_what

-- An exception of exceptions.h with a short text, or one of std::stoi as `a` and `r` allow.
abbrev pub IsThrown : (a r : Type 0) → Exception → Type 0
IsThrown a r (invalid_message what) = IsShort what
IsThrown a r (comm_exception what) = IsShort what
IsThrown a r (operation_exception what) = IsShort what
IsThrown a r (failed_transaction what) = IsShort what
IsThrown a r invalid_argument = a
IsThrown a r out_of_range = r

-- std::out_of_range, as `r` allows.
abbrev pub IsOutOfRange : (r : Type 0) → Exception → Type 0
IsOutOfRange r out_of_range = r
IsOutOfRange r e = ⊥

abbrev pub Throwing : {A : Type 0} → (Exception → Type 0) → Outcome A → Type 0
Throwing E (throw e) = E e
Throwing E o = Unit

module _ {A : Type 0} (E : Exception → Type 0) where
  pub if-Throwing :
      (b : Bool) (x y : Outcome A) → Throwing E x → Throwing E y → Throwing E (if b then x else y)
  if-Throwing true x y h k = h
  if-Throwing false x y h k = k

  pub then-Throwing :
      {B : Type 0} (o : Outcome B) (f : B → Outcome A)
      → Throwing E o
      → ((b : B) → Throwing E (f b))
      → Throwing E (bind o f)
  then-Throwing (ok b) f h k = k b
  then-Throwing (throw e) f h k = h
  then-Throwing blocked f h k = tt
  then-Throwing undefined f h k = tt

pub record Throws {A : Type 0} (E : Exception → Type 0) (m : Exec A) : Type 0 where
  pub at : (s : State) → Throwing E (m s).0

module _ {E : Exception → Type 0} where
  module _ {A B : Type 0} where
    continued-Throwing :
        (f : A → Exec B) (o : Outcome A × State)
        → Throwing E o.0
        → ((a : A) → Throws E (f a))
        → Throwing E (continue o.0 f o.1).0
    continued-Throwing f (ok a, s) h k = (k a).at s
    continued-Throwing f (throw e, s) h k = h
    continued-Throwing f (blocked, s) h k = tt
    continued-Throwing f (undefined, s) h k = tt

    pub Throws-bind :
        {m : Exec A} {f : A → Exec B} → Throws E m → ((a : A) → Throws E (f a)) → Throws E (m >>= f)
    unfolding ◌>>=◌
    Throws-bind {m} {f} h k = record { at = λ s. continued-Throwing f (m s) (h.at s) k }

  module _ {A : Type 0} where
    handled-Throwing :
        (F : Exception → Type 0) (c : Exception → Exec A) (o : Outcome A × State)
        → Throwing F o.0
        → ((e : Exception) → F e → Throws E (c e))
        → Throwing E (handle o.0 c o.1).0
    handled-Throwing F c (ok a, s) h k = tt
    handled-Throwing F c (throw e, s) h k = (k e h).at s
    handled-Throwing F c (blocked, s) h k = tt
    handled-Throwing F c (undefined, s) h k = tt

    pub Throws-catch :
        (F : Exception → Type 0) {m : Exec A} {c : Exception → Exec A}
        → Throws F m
        → ((e : Exception) → F e → Throws E (c e))
        → Throws E (catch m c)
    unfolding catch
    Throws-catch F {m} {c} h k = record { at = λ s. handled-Throwing F c (m s) (h.at s) k }

    pub Throws-lift : (o : Outcome A) → Throwing E o → Throws E (lift o)
    unfolding lift
    Throws-lift o h = record { at = λ s. h }

    pub Throws-pure : (a : A) → Throws E (lift (ok a))
    Throws-pure a = Throws-lift (ok a) tt

    pub Throws-gets : (g : State → A) → Throws E (gets g)
    unfolding gets
    Throws-gets g = record { at = λ s. tt }

    pub Throws-if :
        (b : Bool) {m n : Exec A} → Throws E m → Throws E n → Throws E (if b then m else n)
    Throws-if true h k = h
    Throws-if false h k = k

    -- A pure part of what the state holds.
    pub Throws-read :
        (f : State → Outcome A) → ((s : State) → Throwing E (f s)) → Throws E (gets f >>= lift)
    unfolding ◌>>=◌ gets lift
    Throws-read f h = record { at = λ s. h s }

  pub Throws-modify_conn : (f : ClientConnection → ClientConnection) → Throws E (modify_conn f)
  unfolding modify_conn
  Throws-modify_conn f = record { at = λ s. tt }

-- Throwing fewer exceptions.
pub Throws-weaken :
    {A : Type 0} (E F : Exception → Type 0) {m : Exec A}
    → ((e : Exception) → E e → F e)
    → Throws E m
    → Throws F m
Throws-weaken {A = A} E F {m} h k = record { at = λ s. weaker (m s).0 (k.at s) }
  where
    weaker : (o : Outcome A) → Throwing E o → Throwing F o
    weaker (ok a) t = tt
    weaker (throw e) t = h e t
    weaker blocked t = tt
    weaker undefined t = tt

pub ruleset throws_rules = (Throws-bind, Throws-pure, Throws-gets, Throws-if, Throws-modify_conn)
