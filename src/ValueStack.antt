-- ===== src/ValueStack.antt =====
-- value_stack.h and value_stack.cpp: the operand stack of a client, its top first. Its size is
-- converted to an int; stacks stay below 2 ^ 31 values here.
use computer_systems_assignm.Prelude.{ℕ, Bool, List, [], ◌∷◌, length, is_nil}
use computer_systems_assignm.Exceptions.{Outcome, ok, throw, Exception, operation_exception}
use computer_systems_assignm.Text.{Bytes, codes}

abbrev pub ValueStack : Type 0
ValueStack = List Bytes

abbrev pub empty_top : Exception
empty_top = operation_exception (codes "Tried to call TOP on an empty operations stack.")

abbrev pub empty_pop : Exception
empty_pop = operation_exception (codes "Tried to call POP on an empty operations stack.")

unfoldable pub is_empty : ValueStack → Bool
is_empty stack = is_nil stack

unfoldable pub push : Bytes → ValueStack → ValueStack
push value stack = value ∷ stack

unfoldable pub get_top : ValueStack → Outcome Bytes
get_top [] = throw empty_top
get_top (value ∷ stack) = ok value

unfoldable pub pop : ValueStack → Outcome ValueStack
pop [] = throw empty_pop
pop (value ∷ stack) = ok stack

unfoldable pub get_size : ValueStack → ℕ
get_size stack = length stack
