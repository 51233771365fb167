-- ===== src/Tests/Operands.antt =====
-- Arithmetic on a stack with two values, and with a value that is no number.
use computer_systems_assignm.Prelude.{◌↔◌, ◌≡◌, refl, true, [], ◌∷◌, none}
use computer_systems_assignm.Prelude.Int.{pos, negsuc, ◌+ℤ◌, ◌-ℤ◌, ◌*ℤ◌, quot}
use computer_systems_assignm.Exceptions.{Outcome, ok, throw, invalid_argument}
use computer_systems_assignm.Text.{codes, is_space, skip_space}
use computer_systems_assignm.Text.Decimal.{
  stoi, to_string, in_int, int_add, int_sub, int_mul, int_div,
}
use computer_systems_assignm.ValueStack.{ValueStack}
use computer_systems_assignm.Server
use computer_systems_assignm.Connection.State.{State, new_connection}
use computer_systems_assignm.Connection.Handlers.{
  handle_add, handle_sub, handle_mul, handle_div, not_an_integer,
}
use computer_systems_assignm.Connection.Arithmetic.{
  with_stack, answered_ok, handle_add-ok, handle_sub-ok, handle_mul-ok, handle_div-ok,
  handlers-left, handlers-right,
}
use computer_systems_assignm.Connection.Arithmetic.Branches.{HasResult, handlers-HasResult}

abbrev start : State
start = record { server = Server.new_server; tables = λ p. none; next = 0; conn = new_connection 0 }

abbrev below : ValueStack
below = codes "y" ∷ []

numbers :
    (stoi (codes "3") ≡ ok (pos 3))
    × (stoi (codes "-10") ≡ ok (negsuc 9))
    × (stoi (codes "x") ≡ throw invalid_argument)
    × (in_int (negsuc 9 +ℤ pos 3) ≡ true)
    × (in_int (negsuc 9 -ℤ pos 3) ≡ true)
    × (in_int (negsuc 9 *ℤ pos 3) ≡ true)
    × (int_div (negsuc 9) (pos 3) ≡ ok (negsuc 2))
unfolding stoi is_space skip_space ◌+ℤ◌ ◌-ℤ◌ ◌*ℤ◌ int_div quot
numbers = (refl, refl, refl, refl, refl, refl, refl)

handle_add-ok_example :
    handle_add (with_stack start (codes "3" ∷ codes "-10" ∷ below))
    ≡ (ok tt, answered_ok (with_stack start (to_string (negsuc 9 +ℤ pos 3) ∷ below)))
handle_add-ok_example =
    handle_add-ok start (codes "3") (codes "-10") below (pos 3) (negsuc 9) numbers.0 numbers.1
      numbers.3

handle_sub-ok_example :
    handle_sub (with_stack start (codes "3" ∷ codes "-10" ∷ below))
    ≡ (ok tt, answered_ok (with_stack start (to_string (negsuc 9 -ℤ pos 3) ∷ below)))
handle_sub-ok_example =
    handle_sub-ok start (codes "3") (codes "-10") below (pos 3) (negsuc 9) numbers.0 numbers.1
      numbers.4

handle_mul-ok_example :
    handle_mul (with_stack start (codes "3" ∷ codes "-10" ∷ below))
    ≡ (ok tt, answered_ok (with_stack start (to_string (negsuc 9 *ℤ pos 3) ∷ below)))
handle_mul-ok_example =
    handle_mul-ok start (codes "3") (codes "-10") below (pos 3) (negsuc 9) numbers.0 numbers.1
      numbers.5

handle_div-ok_example :
    handle_div (with_stack start (codes "3" ∷ codes "-10" ∷ below))
    ≡ (ok tt, answered_ok (with_stack start (to_string (negsuc 2) ∷ below)))
handle_div-ok_example =
    handle_div-ok start (codes "3") (codes "-10") below (pos 3) (negsuc 9) (negsuc 2) numbers.0
      numbers.1 numbers.6

handlers-left_example :
    let s' = with_stack start (codes "3" ∷ codes "x" ∷ below) in
    let thrown : Outcome (Unit {0}) × State =
      (throw not_an_integer, with_stack start (to_string (pos 3) ∷ codes "x" ∷ below)) in
    (handle_add s' ≡ thrown)
    × (handle_sub s' ≡ thrown)
    × (handle_mul s' ≡ thrown)
    × (handle_div s' ≡ thrown)
handlers-left_example =
    handlers-left start (codes "3") (codes "x") below (pos 3) numbers.0 numbers.2

handlers-right_example :
    let s' = with_stack start (codes "x" ∷ codes "3" ∷ below) in
    let thrown : Outcome (Unit {0}) × State = (throw not_an_integer, s') in
    (handle_add s' ≡ thrown)
    × (handle_sub s' ≡ thrown)
    × (handle_mul s' ≡ thrown)
    × (handle_div s' ≡ thrown)
handlers-right_example = handlers-right start (codes "x") (codes "3") below numbers.2

handlers-HasResult_example :
    let s' = with_stack start (codes "3" ∷ codes "-10" ∷ below) in
    (((handle_add s').0 ≡ ok tt)
      ↔ HasResult start (codes "3") (codes "-10") below int_add (handle_add s').1)
    × (((handle_sub s').0 ≡ ok tt)
        ↔ HasResult start (codes "3") (codes "-10") below int_sub (handle_sub s').1)
    × (((handle_mul s').0 ≡ ok tt)
        ↔ HasResult start (codes "3") (codes "-10") below int_mul (handle_mul s').1)
    × (((handle_div s').0 ≡ ok tt)
        ↔ HasResult start (codes "3") (codes "-10") below int_div (handle_div s').1)
handlers-HasResult_example = handlers-HasResult start (codes "3") (codes "-10") below
