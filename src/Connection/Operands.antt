-- ===== src/Connection/Operands.antt =====
-- The requests that only work on the client's own members: POP, TOP, PUSH, ADD, SUB, MUL, DIV, BYE
-- and BEGIN leave the client ready, and nothing else changes.
use computer_systems_assignm.Prelude.{
  ℕ, zero, suc, refl, Bool, true, false, Bool-cases, inl, inr, ltb,
}
use computer_systems_assignm.Prelude.Int.{ℤ, pos, negsuc, ◌+ℤ◌, ◌-ℤ◌, ◌*ℤ◌, quot}
use computer_systems_assignm.Exceptions.{Outcome, Exception, operation_exception, invalid_argument}
use computer_systems_assignm.Text.{Bytes}
use computer_systems_assignm.Text.Decimal.{
  to_string, in_int, int_result, int_add, int_sub, int_mul, int_div,
}
use computer_systems_assignm.Message.{Message}
use computer_systems_assignm.Connection.State.{Exec, ◌>>◌}
use computer_systems_assignm.Connection.Handlers.{
  throw_again, handle_pop, handle_top, read_operand, on_invalid_argument, pop_operands, compute,
  require_two, handle_add, handle_sub, handle_mul, handle_div, handle_bye, handle_push,
}
use computer_systems_assignm.Connection.Transactions.{begin_if_idle, handle_begin}
use computer_systems_assignm.Connection.Steady.{
  Steady, IsDefined, Steady-bind, Steady-pure, Steady-raise, Steady-gets, Steady-if, Steady-catch,
  Steady-lift, Steady-push_value, Steady-top_value, Steady-pop_value, Steady-stack_size,
  Steady-send, Steady-write_ok, Steady-end_loop, Steady-get_arg, Steady-stoi, Steady-modify,
}

int_result-IsDefined : (z : ℤ) → IsDefined Unit (int_result z)
int_result-IsDefined z = elim (Bool-cases (in_int z)) [ inl e ↦ rw e tt | inr e ↦ rw e tt ]

module _ {g : Type 0} where
  throw_again-Steady : {A : Type 0} (e : Exception) → Steady g (throw_again {A = A} e)
  throw_again-Steady (operation_exception what) = Steady-raise _
  throw_again-Steady _ = Steady-raise _

  pub handle_pop-Steady : Steady g handle_pop
  unfolding handle_pop
  handle_pop-Steady =
      Steady-bind (Steady-catch Steady-pop_value throw_again-Steady) (λ _. Steady-write_ok)

  pub handle_top-Steady : Steady g handle_top
  unfolding handle_top
  handle_top-Steady =
      Steady-bind (Steady-catch Steady-top_value throw_again-Steady) (λ value. Steady-send _)

  read_operand-Steady : Steady g read_operand
  unfolding read_operand
  read_operand-Steady = Steady-bind Steady-top_value (λ value.
      Steady-bind (Steady-stoi value) (λ z. Steady-bind Steady-pop_value (λ _. Steady-pure z)))

  on_invalid_argument-Steady :
      {A : Type 0} {restore : Exec (Unit {0})} (e : Exception)
      → Steady g restore
      → Steady g (on_invalid_argument {A = A} restore e)
  on_invalid_argument-Steady invalid_argument h = Steady-bind h (λ _. Steady-raise _)
  on_invalid_argument-Steady _ h = Steady-raise _

  pop_operands-Steady : Steady g pop_operands
  unfolding pop_operands
  pop_operands-Steady =
      Steady-bind
        (Steady-catch read_operand-Steady (λ e. on_invalid_argument-Steady e (Steady-pure tt)))
        (λ right.
          Steady-bind
            (Steady-catch read_operand-Steady
              (λ e. on_invalid_argument-Steady e (Steady-push_value (to_string right))))
            (λ left. Steady-pure (left, right)))

  require_two-Steady : (what : Bytes) (size : ℕ) → Steady g (require_two what size)
  unfolding require_two
  require_two-Steady what size = Steady-if (ltb size 2) (Steady-raise _) (Steady-pure tt)

  pub handle_bye-Steady : Steady g handle_bye
  unfolding handle_bye
  handle_bye-Steady = Steady-bind Steady-end_loop (λ _. Steady-write_ok)

  pub handle_push-Steady : (msg : Message) → Steady g (handle_push msg)
  unfolding handle_push
  handle_push-Steady msg =
      Steady-bind (Steady-get_arg msg 0)
        (λ value. Steady-bind (Steady-push_value value) (λ _. Steady-write_ok))

-- Arithmetic may be undefined: a division by zero, or an overflow.
compute-Steady :
    (op : ℤ → ℤ → Outcome ℤ) → ((a b : ℤ) → IsDefined Unit (op a b)) → Steady Unit (compute op)
unfolding compute
compute-Steady op d = Steady-bind pop_operands-Steady (λ operands.
    Steady-bind (Steady-lift _ (d operands.0 operands.1))
      (λ z. Steady-bind (Steady-push_value (to_string z)) (λ _. Steady-write_ok)))

arithmetic-Steady :
    (what : Bytes) (op : ℤ → ℤ → Outcome ℤ)
    → ((a b : ℤ) → IsDefined Unit (op a b))
    → (size : ℕ) → Steady Unit (require_two what size >> compute op)
arithmetic-Steady what op d size =
    Steady-bind (require_two-Steady what size) (λ _. compute-Steady op d)

int_add-IsDefined : (a b : ℤ) → IsDefined Unit (int_add a b)
unfolding int_add
int_add-IsDefined a b = int_result-IsDefined (a +ℤ b)

pub handle_add-Steady : Steady Unit handle_add
unfolding handle_add
handle_add-Steady = Steady-bind Steady-stack_size (arithmetic-Steady _ int_add int_add-IsDefined)

int_sub-IsDefined : (a b : ℤ) → IsDefined Unit (int_sub a b)
unfolding int_sub
int_sub-IsDefined a b = int_result-IsDefined (a -ℤ b)

pub handle_sub-Steady : Steady Unit handle_sub
unfolding handle_sub
handle_sub-Steady = Steady-bind Steady-stack_size (arithmetic-Steady _ int_sub int_sub-IsDefined)

int_mul-IsDefined : (a b : ℤ) → IsDefined Unit (int_mul a b)
unfolding int_mul
int_mul-IsDefined a b = int_result-IsDefined (a *ℤ b)

pub handle_mul-Steady : Steady Unit handle_mul
unfolding handle_mul
handle_mul-Steady = Steady-bind Steady-stack_size (arithmetic-Steady _ int_mul int_mul-IsDefined)

int_div-IsDefined : (a b : ℤ) → IsDefined Unit (int_div a b)
unfolding int_div
int_div-IsDefined a (pos zero) = tt
int_div-IsDefined a (pos (suc b)) = int_result-IsDefined (quot a (pos (suc b)))
int_div-IsDefined a (negsuc b) = int_result-IsDefined (quot a (negsuc b))

pub handle_div-Steady : Steady Unit handle_div
unfolding handle_div
handle_div-Steady = Steady-bind Steady-stack_size (arithmetic-Steady _ int_div int_div-IsDefined)

begin_if_idle-Steady : (g : Type 0) (ongoing : Bool) → Steady g (begin_if_idle ongoing)
unfolding begin_if_idle
begin_if_idle-Steady g true = Steady-raise _
begin_if_idle-Steady g false =
    Steady-bind (Steady-modify _ (λ c. refl) (λ c. refl) (λ c h. cc)) (λ _. Steady-write_ok)

pub handle_begin-Steady : {g : Type 0} → Steady g handle_begin
unfolding handle_begin
handle_begin-Steady {g} = Steady-bind (Steady-gets _) (begin_if_idle-Steady g)
