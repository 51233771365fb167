-- ===== src/Connection/Arithmetic.antt =====
-- handle_add, handle_sub, handle_mul and handle_div: what they do to the stack, and what they answer.
pub mod Branches
use computer_systems_assignm.Prelude.{◌≡◌, refl, true, false, [], ◌∷◌, ◌++◌, arith, ltb, length}
use computer_systems_assignm.Prelude.Int.{ℤ, ◌+ℤ◌, ◌-ℤ◌, ◌*ℤ◌}
use computer_systems_assignm.Exceptions.{Outcome, ok, throw, invalid_argument}
use computer_systems_assignm.Text.{Bytes, codes, newline}
use computer_systems_assignm.Text.Decimal.{
  stoi, to_string, in_int, int_add, int_sub, int_mul, int_div,
}
use computer_systems_assignm.ValueStack
use computer_systems_assignm.ValueStack.{ValueStack}
use computer_systems_assignm.Serialization.{
  encode, encode_as, type_word, append_args, check_message_size,
}
use computer_systems_assignm.Connection.State.{State, ◌>>=◌, lift, catch, gets, modify_conn}
use computer_systems_assignm.Connection.Calls.{
  push_value, top_value, pop_value, stack_size, send, write_ok,
}
use computer_systems_assignm.Connection.Handlers.{
  read_operand, pop_operands, compute, require_two, handle_add, handle_sub, handle_mul, handle_div,
  not_an_integer,
}

-- The state with another stack.
abbrev pub with_stack : State → ValueStack → State
with_stack s stack = record s { conn = record (s.conn) { stack = stack } }

-- The state after the answer OK.
abbrev pub answered_ok : State → State
answered_ok s = record s {
  conn = record (s.conn) { sent = s.conn.sent ++ (codes "OK" ++ newline ∷ []) ∷ [] };
}

pub write_ok-answered : (s : State) → write_ok s ≡ (ok tt, answered_ok s)
unfolding write_ok send ◌>>=◌ lift modify_conn encode encode_as type_word append_args
    check_message_size
write_ok-answered s = refl

module _ (s : State) (right left : Bytes) (rest : ValueStack) where
  compute-ok :
      (op : ℤ → ℤ → Outcome ℤ) (x y z : ℤ)
      → stoi right ≡ ok x
      → stoi left ≡ ok y
      → op y x ≡ ok z
      → compute op (with_stack s (right ∷ left ∷ rest))
        ≡ (ok tt, answered_ok (with_stack s (to_string z ∷ rest)))
  unfolding compute pop_operands read_operand top_value pop_value push_value gets lift catch
      modify_conn ◌>>=◌ ValueStack.get_top ValueStack.pop ValueStack.push
  compute-ok op x y z hx hy hz =
      rw (hx, hy, hz) (write_ok-answered (with_stack s (to_string z ∷ rest)))

  compute-left :
      (op : ℤ → ℤ → Outcome ℤ) (x : ℤ)
      → stoi right ≡ ok x
      → stoi left ≡ throw invalid_argument
      → compute op (with_stack s (right ∷ left ∷ rest))
        ≡ (throw not_an_integer, with_stack s (to_string x ∷ left ∷ rest))
  unfolding compute pop_operands read_operand top_value pop_value push_value gets lift catch
      modify_conn ◌>>=◌ ValueStack.get_top ValueStack.pop ValueStack.push
  compute-left op x hx hy = rw (hx, hy) refl

  compute-right :
      (op : ℤ → ℤ → Outcome ℤ)
      → stoi right ≡ throw invalid_argument
      → compute op (with_stack s (right ∷ left ∷ rest))
        ≡ (throw not_an_integer, with_stack s (right ∷ left ∷ rest))
  unfolding compute pop_operands read_operand top_value pop_value push_value gets lift catch
      modify_conn ◌>>=◌ ValueStack.get_top ValueStack.pop ValueStack.push
  compute-right op hx = rw hx refl

  two_values : ltb (length (right ∷ left ∷ rest)) 2 ≡ false
  two_values = ground arith

  -- With two values on the stack the handlers go on to their try block.
  pub handlers-compute :
      let s' = with_stack s (right ∷ left ∷ rest) in
      (handle_add s' ≡ compute int_add s')
      × (handle_sub s' ≡ compute int_sub s')
      × (handle_mul s' ≡ compute int_mul s')
      × (handle_div s' ≡ compute int_div s')
  unfolding handle_add handle_sub handle_mul handle_div stack_size require_two gets lift ◌>>=◌
      ValueStack.get_size
  handlers-compute =
      (rw two_values refl, rw two_values refl, rw two_values refl, rw two_values refl)

  -- ADD of two values that std::stoi reads as ints, whose sum is an int: the two are replaced by the sum,
  -- as std::to_string prints it, and the answer is OK.
  pub handle_add-ok :
      (x y : ℤ)
      → stoi right ≡ ok x
      → stoi left ≡ ok y
      → in_int (y +ℤ x) ≡ true
      → handle_add (with_stack s (right ∷ left ∷ rest))
        ≡ (ok tt, answered_ok (with_stack s (to_string (y +ℤ x) ∷ rest)))
  handle_add-ok x y hx hy h =
      rw handlers-compute.0 (compute-ok int_add x y (y +ℤ x) hx hy (unfold int_add in rw h refl))

  -- SUB of two values that std::stoi reads as ints, whose difference is an int: the two are replaced by
  -- the lower one less the upper one, and the answer is OK.
  pub handle_sub-ok :
      (x y : ℤ)
      → stoi right ≡ ok x
      → stoi left ≡ ok y
      → in_int (y -ℤ x) ≡ true
      → handle_sub (with_stack s (right ∷ left ∷ rest))
        ≡ (ok tt, answered_ok (with_stack s (to_string (y -ℤ x) ∷ rest)))
  handle_sub-ok x y hx hy h =
      rw handlers-compute.1 (compute-ok int_sub x y (y -ℤ x) hx hy (unfold int_sub in rw h refl))

  -- MUL of two values that std::stoi reads as ints, whose product is an int: the two are replaced by the
  -- product, and the answer is OK.
  pub handle_mul-ok :
      (x y : ℤ)
      → stoi right ≡ ok x
      → stoi left ≡ ok y
      → in_int (y *ℤ x) ≡ true
      → handle_mul (with_stack s (right ∷ left ∷ rest))
        ≡ (ok tt, answered_ok (with_stack s (to_string (y *ℤ x) ∷ rest)))
  handle_mul-ok x y hx hy h =
      rw handlers-compute.2 (compute-ok int_mul x y (y *ℤ x) hx hy (unfold int_mul in rw h refl))

  -- DIV of two values that std::stoi reads as ints, where the division is defined: the two are replaced
  -- by the lower one divided by the upper one, and the answer is OK.
  pub handle_div-ok :
      (x y z : ℤ)
      → stoi right ≡ ok x
      → stoi left ≡ ok y
      → int_div y x ≡ ok z
      → handle_div (with_stack s (right ∷ left ∷ rest))
        ≡ (ok tt, answered_ok (with_stack s (to_string z ∷ rest)))
  handle_div-ok x y z hx hy h = rw handlers-compute.3 (compute-ok int_div x y z hx hy h)

  -- If the lower value is no number, each of the four throws OperationException, and the upper value is
  -- on the stack again, as std::to_string prints the int that was read.
  pub handlers-left :
      (x : ℤ)
      → stoi right ≡ ok x
      → stoi left ≡ throw invalid_argument
      → let s' = with_stack s (right ∷ left ∷ rest) in
        let thrown : Outcome (Unit {0}) × State =
          (throw not_an_integer, with_stack s (to_string x ∷ left ∷ rest)) in
        (handle_add s' ≡ thrown)
        × (handle_sub s' ≡ thrown)
        × (handle_mul s' ≡ thrown)
        × (handle_div s' ≡ thrown)
  handlers-left x hx hy = (
    rw handlers-compute.0 (compute-left int_add x hx hy),
    rw handlers-compute.1 (compute-left int_sub x hx hy),
    rw handlers-compute.2 (compute-left int_mul x hx hy),
    rw handlers-compute.3 (compute-left int_div x hx hy),
  )

  -- If the upper value is no number, each of the four throws OperationException and leaves the stack as
  -- it is.
  pub handlers-right :
      stoi right ≡ throw invalid_argument
      → let s' = with_stack s (right ∷ left ∷ rest) in
        let thrown : Outcome (Unit {0}) × State = (throw not_an_integer, s') in
        (handle_add s' ≡ thrown)
        × (handle_sub s' ≡ thrown)
        × (handle_mul s' ≡ thrown)
        × (handle_div s' ≡ thrown)
  handlers-right hx = (
    rw handlers-compute.0 (compute-right int_add hx),
    rw handlers-compute.1 (compute-right int_sub hx),
    rw handlers-compute.2 (compute-right int_mul hx),
    rw handlers-compute.3 (compute-right int_div hx),
  )
