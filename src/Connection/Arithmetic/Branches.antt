-- ===== src/Connection/Arithmetic/Branches.antt =====
-- ADD, SUB, MUL and DIV of any two values, on every branch.
use computer_systems_assignm.Prelude.{◌∙◌, ◌≡◌, refl, sym, ap, ◌↔◌, ◌∷◌, arith}
use computer_systems_assignm.Prelude.Int.{ℤ}
use computer_systems_assignm.Exceptions.{Outcome, ok, throw, invalid_argument}
use computer_systems_assignm.Text.{Bytes}
use computer_systems_assignm.Text.Decimal.{stoi, to_string, int_add, int_sub, int_mul, int_div}
use computer_systems_assignm.ValueStack
use computer_systems_assignm.ValueStack.{ValueStack}
use computer_systems_assignm.Connection.State.{State, ◌>>=◌, lift, catch, gets, modify_conn}
use computer_systems_assignm.Connection.Calls.{push_value, top_value, pop_value}
use computer_systems_assignm.Connection.Handlers.{
  read_operand, pop_operands, compute, handle_add, handle_sub, handle_mul, handle_div,
  not_an_integer,
}
use computer_systems_assignm.Exceptions.{
  blocked, undefined, invalid_message, comm_exception, operation_exception, failed_transaction,
  out_of_range,
}
use computer_systems_assignm.Connection.Arithmetic.{
  with_stack, answered_ok, write_ok-answered, handlers-compute,
}

module _ (s : State) (right left : Bytes) (rest : ValueStack) where
  -- Once both operands have been popped: the result of the operation.
  abbrev pub settled : Outcome ℤ → Outcome (Unit {0}) × State
  settled (ok z) = (ok tt, answered_ok (with_stack s (to_string z ∷ rest)))
  settled (throw e) = (throw e, with_stack s rest)
  settled blocked = (blocked, with_stack s rest)
  settled undefined = (undefined, with_stack s rest)

  -- Once the right operand has been read as `x`: what std::stoi makes of the left one.
  abbrev pub with_left : (ℤ → ℤ → Outcome ℤ) → ℤ → Outcome ℤ → Outcome (Unit {0}) × State
  with_left op x (ok y) = settled (op y x)
  with_left op x (throw invalid_argument) =
      (throw not_an_integer, with_stack s (to_string x ∷ left ∷ rest))
  with_left op x (throw e) = (throw e, with_stack s (left ∷ rest))
  with_left op x blocked = (blocked, with_stack s (left ∷ rest))
  with_left op x undefined = (undefined, with_stack s (left ∷ rest))

  -- What std::stoi makes of the right operand, the top of the stack, and of the left one.
  abbrev pub computed : (ℤ → ℤ → Outcome ℤ) → Outcome ℤ → Outcome ℤ → Outcome (Unit {0}) × State
  computed op (ok x) l = with_left op x l
  computed op (throw invalid_argument) l =
      (throw not_an_integer, with_stack s (right ∷ left ∷ rest))
  computed op (throw e) l = (throw e, with_stack s (right ∷ left ∷ rest))
  computed op blocked l = (blocked, with_stack s (right ∷ left ∷ rest))
  computed op undefined l = (undefined, with_stack s (right ∷ left ∷ rest))

  settled-run :
      (op : ℤ → ℤ → Outcome ℤ) (x y : ℤ) (o : Outcome ℤ)
      → stoi right ≡ ok x
      → stoi left ≡ ok y
      → op y x ≡ o
      → compute op (with_stack s (right ∷ left ∷ rest)) ≡ settled o
  unfolding compute pop_operands read_operand top_value pop_value push_value gets lift catch
      modify_conn ◌>>=◌ ValueStack.get_top ValueStack.pop ValueStack.push
  settled-run op x y (ok z) hx hy hz =
      rw (hx, hy, hz) (write_ok-answered (with_stack s (to_string z ∷ rest)))
  settled-run op x y (throw e) hx hy hz = rw (hx, hy, hz) refl
  settled-run op x y blocked hx hy hz = rw (hx, hy, hz) refl
  settled-run op x y undefined hx hy hz = rw (hx, hy, hz) refl

  left-run :
      (op : ℤ → ℤ → Outcome ℤ) (x : ℤ) (l : Outcome ℤ)
      → stoi right ≡ ok x
      → stoi left ≡ l
      → compute op (with_stack s (right ∷ left ∷ rest)) ≡ with_left op x l
  unfolding compute pop_operands read_operand top_value pop_value push_value gets lift catch
      modify_conn ◌>>=◌ ValueStack.get_top ValueStack.pop ValueStack.push
  left-run op x (ok y) hx hy = settled-run op x y (op y x) hx hy refl
  left-run op x (throw invalid_argument) hx hy = rw (hx, hy) refl
  left-run op x (throw (invalid_message what)) hx hy = rw (hx, hy) refl
  left-run op x (throw (comm_exception what)) hx hy = rw (hx, hy) refl
  left-run op x (throw (operation_exception what)) hx hy = rw (hx, hy) refl
  left-run op x (throw (failed_transaction what)) hx hy = rw (hx, hy) refl
  left-run op x (throw out_of_range) hx hy = rw (hx, hy) refl
  left-run op x blocked hx hy = rw (hx, hy) refl
  left-run op x undefined hx hy = rw (hx, hy) refl

  right-run :
      (op : ℤ → ℤ → Outcome ℤ) (r : Outcome ℤ)
      → stoi right ≡ r
      → compute op (with_stack s (right ∷ left ∷ rest)) ≡ computed op r (stoi left)
  unfolding compute pop_operands read_operand top_value pop_value push_value gets lift catch
      modify_conn ◌>>=◌ ValueStack.get_top ValueStack.pop ValueStack.push
  right-run op (ok x) hx = left-run op x (stoi left) hx refl
  right-run op (throw invalid_argument) hx = rw hx refl
  right-run op (throw (invalid_message what)) hx = rw hx refl
  right-run op (throw (comm_exception what)) hx = rw hx refl
  right-run op (throw (operation_exception what)) hx = rw hx refl
  right-run op (throw (failed_transaction what)) hx = rw hx refl
  right-run op (throw out_of_range) hx = rw hx refl
  right-run op blocked hx = rw hx refl
  right-run op undefined hx = rw hx refl

  -- The four handlers go through these cases: a value that is no number leaves the stack as it is if it is the
  -- right one, and the int of the right one, printed, on the stack if it is the left one; behind a value out of
  -- range the values that have been read are gone.
  handlers-computed :
      let s' = with_stack s (right ∷ left ∷ rest) in
      (handle_add s' ≡ computed int_add (stoi right) (stoi left))
      × (handle_sub s' ≡ computed int_sub (stoi right) (stoi left))
      × (handle_mul s' ≡ computed int_mul (stoi right) (stoi left))
      × (handle_div s' ≡ computed int_div (stoi right) (stoi left))
  handlers-computed =
      let (add, sub, mul, div) = handlers-compute s right left rest in
      (
        add ∙ right-run int_add (stoi right) refl,
        sub ∙ right-run int_sub (stoi right) refl,
        mul ∙ right-run int_mul (stoi right) refl,
        div ∙ right-run int_div (stoi right) refl,
      )

  -- Both values are ints for std::stoi, and `op` has a result for them, which replaces them.
  abbrev pub HasResult : (ℤ → ℤ → Outcome ℤ) → State → Type 0
  HasResult op s' =
      (x : ℤ) × (y : ℤ) × (z : ℤ) × (stoi right ≡ ok x)
      × (stoi left ≡ ok y)
      × (op y x ≡ ok z)
      × (s' ≡ answered_ok (with_stack s (to_string z ∷ rest)))

  settled-HasResult :
      (op : ℤ → ℤ → Outcome ℤ) (x y : ℤ) (o : Outcome ℤ)
      → stoi right ≡ ok x
      → stoi left ≡ ok y
      → op y x ≡ o
      → (settled o).0 ≡ ok tt
      → HasResult op (settled o).1
  settled-HasResult op x y (ok z) hx hy hz r = (x, y, z, hx, hy, hz, refl)
  settled-HasResult op x y (throw e) hx hy hz r = absurd (ground arith)
  settled-HasResult op x y blocked hx hy hz r = absurd (ground arith)
  settled-HasResult op x y undefined hx hy hz r = absurd (ground arith)

  left-HasResult :
      (op : ℤ → ℤ → Outcome ℤ) (x : ℤ) (l : Outcome ℤ)
      → stoi right ≡ ok x
      → stoi left ≡ l
      → (with_left op x l).0 ≡ ok tt
      → HasResult op (with_left op x l).1
  left-HasResult op x (ok y) hx hy r = settled-HasResult op x y (op y x) hx hy refl r
  left-HasResult op x (throw invalid_argument) hx hy r = absurd (ground arith)
  left-HasResult op x (throw e) hx hy r = absurd (ground arith)
  left-HasResult op x blocked hx hy r = absurd (ground arith)
  left-HasResult op x undefined hx hy r = absurd (ground arith)

  right-HasResult :
      (op : ℤ → ℤ → Outcome ℤ) (r : Outcome ℤ)
      → stoi right ≡ r
      → (computed op r (stoi left)).0 ≡ ok tt
      → HasResult op (computed op r (stoi left)).1
  right-HasResult op (ok x) hx h = left-HasResult op x (stoi left) hx refl h
  right-HasResult op (throw invalid_argument) hx h = absurd (ground arith)
  right-HasResult op (throw e) hx h = absurd (ground arith)
  right-HasResult op blocked hx h = absurd (ground arith)
  right-HasResult op undefined hx h = absurd (ground arith)

  returned_iff :
      (op : ℤ → ℤ → Outcome ℤ) (o : Outcome (Unit {0}) × State)
      → o ≡ computed op (stoi right) (stoi left)
      → (o.0 ≡ ok tt) ↔ HasResult op o.1
  returned_iff op o e = (
    λ h. rw e (right-HasResult op (stoi right) refl (rw e at h)),
    λ (x, y, z, hx, hy, hz, same).
        ap (λ (p : Outcome (Unit {0}) × State). p.0)
          (e ∙ sym (right-run op (stoi right) refl) ∙ settled-run op x y (ok z) hx hy hz),
  )

  -- ADD, SUB, MUL and DIV on a stack with two values, whatever they are, return exactly if std::stoi reads both as
  -- ints and the operation, with the lower one as its left operand, has a result, which is an int; then the two
  -- are replaced by the result, as std::to_string prints it, and the answer is OK.
  pub handlers-HasResult :
      let s' = with_stack s (right ∷ left ∷ rest) in
      (((handle_add s').0 ≡ ok tt) ↔ HasResult int_add (handle_add s').1)
      × (((handle_sub s').0 ≡ ok tt) ↔ HasResult int_sub (handle_sub s').1)
      × (((handle_mul s').0 ≡ ok tt) ↔ HasResult int_mul (handle_mul s').1)
      × (((handle_div s').0 ≡ ok tt) ↔ HasResult int_div (handle_div s').1)
  handlers-HasResult =
      let (add, sub, mul, div) = handlers-computed in
      (
        returned_iff int_add _ add,
        returned_iff int_sub _ sub,
        returned_iff int_mul _ mul,
        returned_iff int_div _ div,
      )
