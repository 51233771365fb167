-- ===== src/Connection/Throws/Arithmetic.antt =====
-- The handlers of arithmetic: std::invalid_argument is caught, std::out_of_range is not.
use computer_systems_assignm.Prelude.{ℕ, zero, suc, ◌≤◌, ltb, arith, length}
use computer_systems_assignm.Prelude.Int.{ℤ, pos, negsuc, ◌+ℤ◌, ◌-ℤ◌, ◌*ℤ◌, quot}
use computer_systems_assignm.Exceptions.{
  Outcome, ok, throw, blocked, undefined, Exception, invalid_message, comm_exception,
  operation_exception, failed_transaction, invalid_argument, out_of_range,
}
use computer_systems_assignm.Text.{Bytes}
use computer_systems_assignm.Text.Decimal.{
  stoi, to_string, IsIntResult, stoi-IsIntResult, int_add, int_sub, int_mul, int_div, int_result,
  in_int,
}
use computer_systems_assignm.Connection.State.{Exec, lift, pure}
use computer_systems_assignm.Connection.Calls.{push_value}
use computer_systems_assignm.Connection.Handlers.{
  read_operand, pop_operands, compute, require_two, handle_add, handle_sub, handle_mul, handle_div,
  on_invalid_argument,
}
use computer_systems_assignm.Connection.Throws.{
  IsThrown, Throwing, Throws, Throws-bind, Throws-catch, Throws-lift, Throws-if, if-Throwing,
}
use computer_systems_assignm.Connection.Throws.Calls.{call_rules, push_value-Throws}
use computer_systems_assignm.Connection.Throws.Handlers.{short-Throws}

IsIntResult-Throwing : (o : Outcome ℤ) → IsIntResult o → Throwing (IsThrown Unit Unit) o
IsIntResult-Throwing (ok z) h = tt
IsIntResult-Throwing (throw invalid_argument) h = tt
IsIntResult-Throwing (throw out_of_range) h = tt
IsIntResult-Throwing (throw e) h = absurd h
IsIntResult-Throwing blocked h = tt
IsIntResult-Throwing undefined h = tt

stoi-Throws : (s : Bytes) → Throws (IsThrown Unit Unit) (lift (stoi s))
stoi-Throws s = Throws-lift _ (IsIntResult-Throwing (stoi s) (stoi-IsIntResult s))

read_operand-Throws : Throws (IsThrown Unit Unit) read_operand
unfolding read_operand
read_operand-Throws = search (call_rules, stoi-Throws)

on_invalid_argument-Throws :
    {A : Type 0} (restore : Exec (Unit {0})) (e : Exception)
    → Throws (IsThrown ⊥ Unit) restore
    → IsThrown Unit Unit e
    → Throws (IsThrown ⊥ Unit) (on_invalid_argument {A = A} restore e)
on_invalid_argument-Throws restore invalid_argument k h =
    Throws-bind k (λ _. short-Throws _ (omega arith))
on_invalid_argument-Throws restore (operation_exception what) k h = Throws-lift _ h
on_invalid_argument-Throws restore (invalid_message what) k h = Throws-lift _ h
on_invalid_argument-Throws restore (comm_exception what) k h = Throws-lift _ h
on_invalid_argument-Throws restore (failed_transaction what) k h = Throws-lift _ h
on_invalid_argument-Throws restore out_of_range k h = Throws-lift _ h

pop_operands-Throws : Throws (IsThrown ⊥ Unit) pop_operands
unfolding pop_operands
pop_operands-Throws =
    Throws-bind
      (Throws-catch (IsThrown Unit Unit) read_operand-Throws
        (λ e. on_invalid_argument-Throws (pure tt) e (Throws-lift _ tt)))
      (λ right.
        Throws-bind
          (Throws-catch (IsThrown Unit Unit) read_operand-Throws (λ e.
            on_invalid_argument-Throws (push_value (to_string right)) e (push_value-Throws _)))
          (λ left. Throws-lift _ tt))

module _ {E : Exception → Type 0} where
  int_result-Throws : (z : ℤ) → Throws E (lift (int_result z))
  int_result-Throws z = Throws-lift _ (if-Throwing E (in_int z) (ok z) undefined tt tt)

  int_add-Throws : (x y : ℤ) → Throws E (lift (int_add x y))
  unfolding int_add
  int_add-Throws x y = int_result-Throws (x +ℤ y)

  int_sub-Throws : (x y : ℤ) → Throws E (lift (int_sub x y))
  unfolding int_sub
  int_sub-Throws x y = int_result-Throws (x -ℤ y)

  int_mul-Throws : (x y : ℤ) → Throws E (lift (int_mul x y))
  unfolding int_mul
  int_mul-Throws x y = int_result-Throws (x *ℤ y)

  int_div-Throws : (x y : ℤ) → Throws E (lift (int_div x y))
  unfolding int_div
  int_div-Throws x (pos zero) = Throws-lift _ tt
  int_div-Throws x (pos (suc b)) = int_result-Throws (quot x (pos (suc b)))
  int_div-Throws x (negsuc b) = int_result-Throws (quot x (negsuc b))

compute-Throws :
    (op : ℤ → ℤ → Outcome ℤ)
    → ((x y : ℤ) → Throws (IsThrown ⊥ Unit) (lift (op x y)))
    → Throws (IsThrown ⊥ Unit) (compute op)
unfolding compute
compute-Throws op h = search (call_rules, pop_operands-Throws, h)

require_two-Throws :
    (what : Bytes) (size : ℕ)
    → length what ≤ 1016
    → Throws (IsThrown ⊥ Unit) (require_two what size)
unfolding require_two
require_two-Throws what size h = Throws-if (ltb size 2) (short-Throws what h) (Throws-lift _ tt)

pub handle_add-Throws : Throws (IsThrown ⊥ Unit) handle_add
unfolding handle_add
handle_add-Throws = Throws-bind (search call_rules) (λ size.
    Throws-bind (require_two-Throws _ size (omega arith))
      (λ _. compute-Throws int_add int_add-Throws))

pub handle_sub-Throws : Throws (IsThrown ⊥ Unit) handle_sub
unfolding handle_sub
handle_sub-Throws = Throws-bind (search call_rules) (λ size.
    Throws-bind (require_two-Throws _ size (omega arith))
      (λ _. compute-Throws int_sub int_sub-Throws))

pub handle_mul-Throws : Throws (IsThrown ⊥ Unit) handle_mul
unfolding handle_mul
handle_mul-Throws = Throws-bind (search call_rules) (λ size.
    Throws-bind (require_two-Throws _ size (omega arith))
      (λ _. compute-Throws int_mul int_mul-Throws))

pub handle_div-Throws : Throws (IsThrown ⊥ Unit) handle_div
unfolding handle_div
handle_div-Throws = Throws-bind (search call_rules) (λ size.
    Throws-bind (require_two-Throws _ size (omega arith))
      (λ _. compute-Throws int_div int_div-Throws))
