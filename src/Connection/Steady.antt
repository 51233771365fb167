-- ===== src/Connection/Steady.antt =====
-- The requests that only work on the client's own members: POP, TOP, PUSH, ADD, SUB, MUL, DIV, BYE and
-- BEGIN.
use computer_systems_assignm.Prelude.{
  ℕ, ◌≡◌, refl, sym, ◌∙◌, if◌then◌else◌, Bool, true, false, List, [], ◌∷◌, Option, none, some,
  Option-cases, inl, inr, ◌++◌, get_elem?,
}
use mathlib.Core.Path.{subst}
use computer_systems_assignm.ValueStack
use computer_systems_assignm.ValueStack.{ValueStack}
use computer_systems_assignm.Text.Decimal.{stoi, IsIntResult, stoi-IsIntResult}
use computer_systems_assignm.Exceptions.{Outcome, ok, throw, blocked, undefined, Exception}
use computer_systems_assignm.Text.{Bytes, newline}
use computer_systems_assignm.Message.{Message, get_arg}
use computer_systems_assignm.Prelude.Int.{ℤ}
use computer_systems_assignm.Serialization.{type_word, append_args, encode, encode_as}
use computer_systems_assignm.Serialization.Total.{check_message_size-cases}
use computer_systems_assignm.Connection.State.{
  ClientConnection, State, Exec, ◌>>=◌, lift, gets, modify_conn, pure, raise, catch,
}
use computer_systems_assignm.Connection.Calls.{
  push_value, top_value, pop_value, stack_size, send, write_ok, end_loop,
}
use computer_systems_assignm.Connection.Triple.{
  Frame-refl, Spec, Triple, Triple-bind, Triple-pure, Triple-raise, Triple-catch,
}
use computer_systems_assignm.Connection.Owns.{Owns, Ready, Owns-conn, Frame-conn}

-- A call that may be stopped only where `faults` says so, and leaves the client ready for the next
-- request, whether it returns or throws.
abbrev pub safe : (A : Type 0) → (State → Type 0) → Type 0 → Spec A
safe A w f = record { returns = λ a. Ready; throws = λ e. Ready; waits = w; faults = f }

abbrev pub Steady : {A : Type 0} → Type 0 → Exec A → Type 1
Steady {A} f m = (w : State → Type 0) → Triple Ready m (safe A w f)

pub Ready-conn :
    (s : State) (c : ClientConnection)
    → c.client ≡ s.conn.client
    → c.locked_tables ≡ s.conn.locked_tables
    → (c.in_transaction ≡ false → s.conn.in_transaction ≡ false)
    → Ready s
    → Ready (record s { conn = c })
Ready-conn s c e l t r = record {
  owns = subst (λ ps. Owns ps (record s { conn = c })) (sym l) (Owns-conn s c e r.owns);
  idle = λ h. l ∙ r.idle (t h);
}

pub Steady-modify :
    {g : Type 0} (f : ClientConnection → ClientConnection)
    → ((c : ClientConnection) → (f c).client ≡ c.client)
    → ((c : ClientConnection) → (f c).locked_tables ≡ c.locked_tables)
    → ((c : ClientConnection) → (f c).in_transaction ≡ false → c.in_transaction ≡ false)
    → Steady g (modify_conn f)
unfolding modify_conn
Steady-modify f e l t w = record {
  at = λ s r. (
    Frame-conn s (f s.conn) (e s.conn),
    Ready-conn s (f s.conn) (e s.conn) (l s.conn) (t s.conn) r,
  );
}

pub Steady-bind :
    {A B : Type 0} {g : Type 0} {m : Exec A} {f : A → Exec B}
    → Steady g m
    → ((a : A) → Steady g (f a))
    → Steady g (m >>= f)
Steady-bind h k w = Triple-bind (λ a. Ready) (h w) (λ a. k a (λ s. ⊥))

pub Steady-pure : {A : Type 0} {g : Type 0} (a : A) → Steady g (pure a)
Steady-pure a w = Triple-pure a (λ s r. r)

pub Steady-raise : {A : Type 0} {g : Type 0} (e : Exception) → Steady g (raise {A = A} e)
Steady-raise e w = Triple-raise e (λ s r. r)

pub Steady-gets : {A : Type 0} {g : Type 0} (f : State → A) → Steady g (gets f)
unfolding gets
Steady-gets f w = record { at = λ s r. (Frame-refl s, r) }

pub Steady-if :
    {A : Type 0} {g : Type 0} (b : Bool) {m n : Exec A}
    → Steady g m
    → Steady g n
    → Steady g (if b then m else n)
Steady-if true h k = h
Steady-if false h k = k

pub Steady-catch :
    {A : Type 0} {g : Type 0} {m : Exec A} {c : Exception → Exec A}
    → Steady g m
    → ((e : Exception) → Steady g (c e))
    → Steady g (catch m c)
Steady-catch h k w = Triple-catch (λ e. Ready) (h w) (λ e. k e (λ s. ⊥))

-- A pure part that returns or throws, or is undefined where `g` allows it.
abbrev pub IsDefined : {A : Type 0} → Type 0 → Outcome A → Type 0
IsDefined g (ok a) = Unit
IsDefined g (throw e) = Unit
IsDefined g blocked = ⊥
IsDefined g undefined = g

pub Steady-lift : {A : Type 0} {g : Type 0} (r : Outcome A) → IsDefined g r → Steady g (lift r)
unfolding lift
Steady-lift (ok a) d w = record { at = λ s r. (Frame-refl s, r) }
Steady-lift (throw e) d w = record { at = λ s r. (Frame-refl s, r) }
Steady-lift blocked d w = absurd d
Steady-lift undefined d w = record { at = λ s r. d }

pub ruleset steady_rules =
    (Steady-bind, Steady-pure, Steady-raise, Steady-gets, Steady-if, Steady-catch)

get_top-IsDefined : (g : Type 0) (stack : ValueStack) → IsDefined g (ValueStack.get_top stack)
unfolding ValueStack.get_top
get_top-IsDefined g [] = tt
get_top-IsDefined g (v ∷ stack) = tt

pop-IsDefined : (g : Type 0) (stack : ValueStack) → IsDefined g (ValueStack.pop stack)
unfolding ValueStack.pop
pop-IsDefined g [] = tt
pop-IsDefined g (v ∷ stack) = tt

encode_as-IsDefined :
    (g : Type 0) (o : Option Bytes) (args : List Bytes) → IsDefined g (encode_as o args)
unfolding encode_as
encode_as-IsDefined g none args = tt
encode_as-IsDefined g (some word) args =
    elim (check_message_size-cases (append_args word args ++ newline ∷ [])) [
      | inl e ↦ rw e tt
      | inr e ↦ rw e tt
    ]

encode-IsDefined : (g : Type 0) (m : Message) → IsDefined g (encode m)
unfolding encode
encode-IsDefined g m = encode_as-IsDefined g (type_word m.message_type) m.args

get_arg-IsDefined : (g : Type 0) (m : Message) (i : ℕ) → IsDefined g (get_arg m i)
unfolding get_arg
get_arg-IsDefined g m i = elim (Option-cases (get_elem? m.args i)) [
  | inl e ↦ rw (e, get_arg) tt
  | inr (a, e) ↦ rw (e, get_arg) tt
]

IsIntResult-IsDefined : (g : Type 0) (r : Outcome ℤ) → IsIntResult r → IsDefined g r
IsIntResult-IsDefined g (ok z) h = tt
IsIntResult-IsDefined g (throw e) h = tt
IsIntResult-IsDefined g blocked h = h
IsIntResult-IsDefined g undefined h = absurd h

module _ {g : Type 0} where
  pub Steady-push_value : (value : Bytes) → Steady g (push_value value)
  unfolding push_value
  Steady-push_value value = Steady-modify _ (λ c. refl) (λ c. refl) (λ c h. h)

  -- A pure part of what the state holds.
  pub Steady-read :
      {A : Type 0} (f : State → Outcome A)
      → ((s : State) → IsDefined g (f s))
      → Steady g (gets f >>= lift)
  unfolding ◌>>=◌ gets
  Steady-read f d w = record { at = λ s r. (Steady-lift (f s) (d s) w).at s r }

  pub Steady-top_value : Steady g top_value
  unfolding top_value
  Steady-top_value = Steady-read _ (λ s. get_top-IsDefined g s.conn.stack)

  pub Steady-pop_value : Steady g pop_value
  unfolding pop_value
  Steady-pop_value =
      Steady-bind (Steady-read _ (λ s. pop-IsDefined g s.conn.stack))
        (λ rest. Steady-modify _ (λ c. refl) (λ c. refl) (λ c h. h))

  pub Steady-stack_size : Steady g stack_size
  unfolding stack_size
  Steady-stack_size = Steady-gets _

  pub Steady-send : (m : Message) → Steady g (send m)
  unfolding send
  Steady-send m =
      Steady-bind (Steady-lift (encode m) (encode-IsDefined g m))
        (λ text. Steady-modify _ (λ c. refl) (λ c. refl) (λ c h. h))

  pub Steady-write_ok : Steady g write_ok
  unfolding write_ok
  Steady-write_ok = Steady-send _

  pub Steady-end_loop : Steady g end_loop
  unfolding end_loop
  Steady-end_loop = Steady-modify _ (λ c. refl) (λ c. refl) (λ c h. h)

  pub Steady-get_arg : (m : Message) (i : ℕ) → Steady g (lift (get_arg m i))
  Steady-get_arg m i = Steady-lift _ (get_arg-IsDefined g m i)

  pub Steady-stoi : (s : Bytes) → Steady g (lift (stoi s))
  Steady-stoi s = Steady-lift _ (IsIntResult-IsDefined g _ (stoi-IsIntResult s))
