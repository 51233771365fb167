-- ===== src/Connection/Sizes/Handlers.antt =====
-- The requests keep the values short.
use computer_systems_assignm.Prelude.{ℕ, ◌≡◌, true, All, List, [], ◌∷◌, Option, none, some, arith}
use mathlib.Core.Path.{subst}
use computer_systems_assignm.Prelude.Int.{ℤ}
use computer_systems_assignm.Exceptions.{
  Outcome, ok, Exception, invalid_message, comm_exception, operation_exception, failed_transaction,
  invalid_argument, out_of_range,
}
use computer_systems_assignm.Text.{Bytes}
use computer_systems_assignm.Text.Decimal.{stoi, to_string, in_int, IsIntResult, stoi-IsIntResult}
use computer_systems_assignm.Text.Decimal.Sizes.{length-to_string}
use computer_systems_assignm.Message.{MessageType, Message, message, get_arg}
use computer_systems_assignm.Connection.State.{Exec, lift}
use computer_systems_assignm.Connection.Handlers.{
  create_unless, handle_create, handle_pop, handle_top, read_operand, pop_operands, compute,
  require_two, handle_bye, handle_push, throw_again, on_invalid_argument, unlock_and_throw,
}
use computer_systems_assignm.Connection.Sizes.{
  IsShortValue, Yields, Any, Yields-bind, Yields-then, Yields-value, Yields-lift, Yields-raise,
  Yields-pure, Yields-done, Yields-Any, Yields-catch,
}
use computer_systems_assignm.Connection.Sizes.Calls.{
  size_rules, Yields-modify_conn, push_value-Yields, write_ok-Yields, unlock_table-Yields,
  top_value-Yields, pop_value-Yields, stack_size-Yields,
}

pub get_arg-Yields : (msg : Message) (i : ℕ) → Yields Any (lift (get_arg msg i))
get_arg-Yields msg i = Yields-Any _

module _ {A : Type 0} {Q : A → Type 0} where
  pub throw_again-Yields : (e : Exception) → Yields Q (throw_again {A = A} e)
  throw_again-Yields (operation_exception what) = Yields-raise _
  throw_again-Yields (invalid_message what) = Yields-raise _
  throw_again-Yields (comm_exception what) = Yields-raise _
  throw_again-Yields (failed_transaction what) = Yields-raise _
  throw_again-Yields invalid_argument = Yields-raise _
  throw_again-Yields out_of_range = Yields-raise _

  on_invalid_argument-Yields :
      {restore : Exec (Unit {0})} (e : Exception)
      → Yields Any restore
      → Yields Q (on_invalid_argument {A = A} restore e)
  on_invalid_argument-Yields invalid_argument h = Yields-then h (λ _. Yields-raise _)
  on_invalid_argument-Yields (operation_exception what) h = Yields-raise _
  on_invalid_argument-Yields (invalid_message what) h = Yields-raise _
  on_invalid_argument-Yields (comm_exception what) h = Yields-raise _
  on_invalid_argument-Yields (failed_transaction what) h = Yields-raise _
  on_invalid_argument-Yields out_of_range h = Yields-raise _

pub unlock_and_throw-Yields : (p : ℕ) (e : Exception) → Yields Any (unlock_and_throw p e)
unfolding unlock_and_throw
unlock_and_throw-Yields p (operation_exception what) = search size_rules
unlock_and_throw-Yields p (invalid_message what) = Yields-raise _
unlock_and_throw-Yields p (comm_exception what) = Yields-raise _
unlock_and_throw-Yields p (failed_transaction what) = Yields-raise _
unlock_and_throw-Yields p invalid_argument = Yields-raise _
unlock_and_throw-Yields p out_of_range = Yields-raise _

pub ruleset request_rules =
    (size_rules, get_arg-Yields, throw_again-Yields, unlock_and_throw-Yields)

create_unless-Yields : (name : Bytes) (found : Option ℕ) → Yields Any (create_unless name found)
unfolding create_unless
create_unless-Yields name none = search request_rules
create_unless-Yields name (some p) = search request_rules

pub handle_create-Yields : (msg : Message) → Yields Any (handle_create msg)
unfolding handle_create
handle_create-Yields msg = search (request_rules, create_unless-Yields)

pub handle_pop-Yields : Yields Any handle_pop
unfolding handle_pop
handle_pop-Yields = search request_rules

pub handle_top-Yields : Yields Any handle_top
unfolding handle_top
handle_top-Yields = search request_rules

pub handle_bye-Yields : Yields Any handle_bye
unfolding handle_bye
handle_bye-Yields = search request_rules

first_of :
    (args : List Bytes) (v : Bytes)
    → All IsShortValue args
    → get_arg (message MessageType.push args) 0 ≡ ok v
    → IsShortValue v
unfolding get_arg
first_of [] v h e = ground arith
first_of (a ∷ args) v h e = let same : a ≡ v = ground arith in subst IsShortValue same h.0

pub handle_push-Yields :
    (args : List Bytes)
    → All IsShortValue args
    → Yields Any (handle_push (message MessageType.push args))
unfolding handle_push
handle_push-Yields args h =
    Yields-value (Yields-lift _ (λ v e. first_of args v h e))
      (λ v short. Yields-then (push_value-Yields v short) (λ _. write_ok-Yields))

-- An int.
record IsInt (z : ℤ) : Type 0 where
  int : in_int z ≡ true

to_string-short : (z : ℤ) → IsInt z → IsShortValue (to_string z)
to_string-short z h = record { bound = omega (arith, length-to_string z h.int) }

stoi-IsInt : (s : Bytes) (z : ℤ) → stoi s ≡ ok z → IsInt z
stoi-IsInt s z e = record { int = subst IsIntResult e (stoi-IsIntResult s) }

read_operand-Yields : Yields IsInt read_operand
unfolding read_operand
read_operand-Yields = Yields-value top_value-Yields (λ v short.
    Yields-bind (Yields-lift _ (λ z e. stoi-IsInt v z e))
      (λ z h. Yields-then pop_value-Yields (λ _. Yields-pure z h)))

pop_operands-Yields : Yields Any pop_operands
unfolding pop_operands
pop_operands-Yields =
    Yields-bind
      (Yields-catch read_operand-Yields (λ e. on_invalid_argument-Yields e (Yields-done tt)))
      (λ right h.
        Yields-bind
          (Yields-catch read_operand-Yields
            (λ e. on_invalid_argument-Yields e (push_value-Yields _ (to_string-short right h))))
          (λ left k. Yields-done (left, right)))

pub compute-Yields :
    (op : ℤ → ℤ → Outcome ℤ)
    → ((a b z : ℤ) → op a b ≡ ok z → in_int z ≡ true)
    → Yields Any (compute op)
unfolding compute
compute-Yields op h = Yields-then pop_operands-Yields (λ operands.
    Yields-bind (Yields-lift {Q = IsInt} _ (λ z e. record { int = h operands.0 operands.1 z e }))
      (λ z k. Yields-then (push_value-Yields _ (to_string-short z k)) (λ _. write_ok-Yields)))

pub require_two-Yields : (what : Bytes) (size : ℕ) → Yields Any (require_two what size)
unfolding require_two
require_two-Yields what size = search request_rules
