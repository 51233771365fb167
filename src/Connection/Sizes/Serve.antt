-- ===== src/Connection/Sizes/Serve.antt =====
-- The dispatch and the rounds of chat_with_client keep the values short.
use computer_systems_assignm.Prelude.{
  ℕ, zero, suc, ◌≡◌, refl, Bool, true, false, All, List, [], ◌∷◌, Option, none, some, inl, inr,
  Bool-cases, arith,
}
use computer_systems_assignm.Prelude.Int.{ℤ, pos, negsuc, ◌+ℤ◌, ◌-ℤ◌, ◌*ℤ◌, quot}
use computer_systems_assignm.Exceptions.{
  ok, Exception, invalid_message, comm_exception, operation_exception, failed_transaction,
  invalid_argument, out_of_range,
}
use computer_systems_assignm.Text.{Bytes}
use computer_systems_assignm.Text.Decimal.{in_int, int_add, int_sub, int_mul, int_div, int_result}
use computer_systems_assignm.Message.{MessageType, Message, message}
use computer_systems_assignm.Connection.Transactions.{
  roll_back_all, commit_all, leave_transaction, fail_transaction, fail_if, manage_exception,
  on_exception, begin_if_idle, handle_begin, commit_if_ongoing, handle_commit,
}
use mathlib.Core.Path.{subst}
use computer_systems_assignm.Connection.Handlers.{
  compute, handle_add, handle_sub, handle_mul, handle_div, set_table_value, push_entry,
  get_table_value, remember_lock, acquire, set_in, set_found, require_one, handle_set, get_in,
  get_found, handle_get, respond, call_response_function,
}
use computer_systems_assignm.Connection.Sizes.{
  IsShortValue, Yields, Any, Yields-then, Yields-raise, Yields-done, Yields-catch,
}
use computer_systems_assignm.Connection.Sizes.Calls.{Yields-modify_conn, end_loop-Yields}
use computer_systems_assignm.Connection.Sizes.Handlers.{
  request_rules, compute-Yields, require_two-Yields, handle_create-Yields, handle_pop-Yields,
  handle_top-Yields, handle_bye-Yields, handle_push-Yields,
}

result_in_int : (z v : ℤ) → int_result z ≡ ok v → in_int v ≡ true
result_in_int z v e = elim (Bool-cases (in_int z)) [
  | inl h ↦ let same : z ≡ v = ground arith in subst (λ x. in_int x ≡ true) same h
  | inr h ↦ ground arith
]

handle_add-Yields : Yields Any handle_add
unfolding handle_add int_add
handle_add-Yields =
    let whole : Yields Any (compute int_add) =
      compute-Yields int_add (λ a b z e. result_in_int (a +ℤ b) z e) in
    search (request_rules, require_two-Yields)

handle_sub-Yields : Yields Any handle_sub
unfolding handle_sub int_sub
handle_sub-Yields =
    let whole : Yields Any (compute int_sub) =
      compute-Yields int_sub (λ a b z e. result_in_int (a -ℤ b) z e) in
    search (request_rules, require_two-Yields)

handle_mul-Yields : Yields Any handle_mul
unfolding handle_mul int_mul
handle_mul-Yields =
    let whole : Yields Any (compute int_mul) =
      compute-Yields int_mul (λ a b z e. result_in_int (a *ℤ b) z e) in
    search (request_rules, require_two-Yields)

quotient_in_int : (a b z : ℤ) → int_div a b ≡ ok z → in_int z ≡ true
unfolding int_div
quotient_in_int a (pos zero) z e = ground arith
quotient_in_int a (pos (suc b)) z e = result_in_int (quot a (pos (suc b))) z e
quotient_in_int a (negsuc b) z e = result_in_int (quot a (negsuc b)) z e

handle_div-Yields : Yields Any handle_div
unfolding handle_div
handle_div-Yields =
    let whole : Yields Any (compute int_div) = compute-Yields int_div quotient_in_int in
    search (request_rules, require_two-Yields)

set_table_value-Yields : (msg : Message) (p : ℕ) → Yields Any (set_table_value msg p)
unfolding set_table_value
set_table_value-Yields msg p = search request_rules

push_entry-Yields : (p : ℕ) (key : Bytes) (found : Bool) → Yields Any (push_entry p key found)
unfolding push_entry
push_entry-Yields p key true = search request_rules
push_entry-Yields p key false = search request_rules

get_table_value-Yields : (msg : Message) (p : ℕ) → Yields Any (get_table_value msg p)
unfolding get_table_value
get_table_value-Yields msg p = search (request_rules, push_entry-Yields)

remember_lock-Yields : (p : ℕ) (b : Bool) → Yields Any (remember_lock p b)
unfolding remember_lock
remember_lock-Yields p true = Yields-modify_conn _ (λ c. refl)
remember_lock-Yields p false = Yields-raise _

acquire-Yields : (p : ℕ) → Yields Any (acquire p)
unfolding acquire
acquire-Yields p = search (request_rules, remember_lock-Yields)

set_in-Yields : (msg : Message) (p : ℕ) (b : Bool) → Yields Any (set_in msg p b)
unfolding set_in
set_in-Yields msg p true = search (request_rules, acquire-Yields, set_table_value-Yields)
set_in-Yields msg p false = search (request_rules, set_table_value-Yields)

set_found-Yields : (msg : Message) (found : Option ℕ) → Yields Any (set_found msg found)
unfolding set_found
set_found-Yields msg none = Yields-raise _
set_found-Yields msg (some p) = search (request_rules, set_in-Yields)

handle_set-Yields : (msg : Message) → Yields Any (handle_set msg)
unfolding handle_set require_one
handle_set-Yields msg = search (request_rules, set_found-Yields)

get_in-Yields : (msg : Message) (p : ℕ) (b : Bool) → Yields Any (get_in msg p b)
unfolding get_in
get_in-Yields msg p true = search (request_rules, acquire-Yields, get_table_value-Yields)
get_in-Yields msg p false = search (request_rules, get_table_value-Yields)

get_found-Yields : (msg : Message) (found : Option ℕ) → Yields Any (get_found msg found)
unfolding get_found
get_found-Yields msg none = Yields-raise _
get_found-Yields msg (some p) = search (request_rules, get_in-Yields)

handle_get-Yields : (msg : Message) → Yields Any (handle_get msg)
unfolding handle_get
handle_get-Yields msg = search (request_rules, get_found-Yields)

begin_if_idle-Yields : (b : Bool) → Yields Any (begin_if_idle b)
unfolding begin_if_idle
begin_if_idle-Yields true = Yields-raise _
begin_if_idle-Yields false =
    Yields-then (Yields-modify_conn _ (λ c. refl)) (λ _. search request_rules)

handle_begin-Yields : Yields Any handle_begin
unfolding handle_begin
handle_begin-Yields = search (request_rules, begin_if_idle-Yields)

commit_all-Yields : (pointers : List ℕ) → Yields Any (commit_all pointers)
unfolding commit_all
commit_all-Yields [] = Yields-done tt
commit_all-Yields (p ∷ pointers) =
    let rest : Yields Any (commit_all pointers) = commit_all-Yields pointers in search request_rules

roll_back_all-Yields : (pointers : List ℕ) → Yields Any (roll_back_all pointers)
unfolding roll_back_all
roll_back_all-Yields [] = Yields-done tt
roll_back_all-Yields (p ∷ pointers) =
    let rest : Yields Any (roll_back_all pointers) = roll_back_all-Yields pointers in
    search request_rules

leave_transaction-Yields : Yields Any leave_transaction
unfolding leave_transaction
leave_transaction-Yields = Yields-modify_conn _ (λ c. refl)

commit_if_ongoing-Yields : (b : Bool) → Yields Any (commit_if_ongoing b)
unfolding commit_if_ongoing
commit_if_ongoing-Yields false = Yields-raise _
commit_if_ongoing-Yields true = search (request_rules, commit_all-Yields, leave_transaction-Yields)

handle_commit-Yields : Yields Any handle_commit
unfolding handle_commit
handle_commit-Yields = search (request_rules, commit_if_ongoing-Yields)

pub fail_transaction-Yields : Yields Any fail_transaction
unfolding fail_transaction
fail_transaction-Yields = search (request_rules, roll_back_all-Yields, leave_transaction-Yields)

pub manage_exception-Yields :
    (what : Bytes) (recoverable : Bool) → Yields Any (manage_exception what recoverable)
unfolding manage_exception fail_if
manage_exception-Yields what recoverable = search (request_rules, fail_transaction-Yields)

on_exception-Yields : (e : Exception) → Yields Any (on_exception e)
unfolding on_exception
on_exception-Yields (invalid_message what) =
    Yields-then end_loop-Yields (λ _. manage_exception-Yields what false)
on_exception-Yields (comm_exception what) = manage_exception-Yields what true
on_exception-Yields (operation_exception what) = manage_exception-Yields what true
on_exception-Yields (failed_transaction what) = manage_exception-Yields what true
on_exception-Yields invalid_argument = Yields-raise _
on_exception-Yields out_of_range = Yields-raise _

respond-Yields :
    (t : MessageType) (args : List Bytes)
    → (t ≡ MessageType.push → All IsShortValue args)
    → Yields Any (respond t (message t args))
unfolding respond
respond-Yields MessageType.create args h = handle_create-Yields _
respond-Yields MessageType.begin args h = handle_begin-Yields
respond-Yields MessageType.commit args h = handle_commit-Yields
respond-Yields MessageType.pop args h = handle_pop-Yields
respond-Yields MessageType.top args h = handle_top-Yields
respond-Yields MessageType.add args h = handle_add-Yields
respond-Yields MessageType.sub args h = handle_sub-Yields
respond-Yields MessageType.mul args h = handle_mul-Yields
respond-Yields MessageType.div args h = handle_div-Yields
respond-Yields MessageType.bye args h = handle_bye-Yields
respond-Yields MessageType.push args h = handle_push-Yields args (h refl)
respond-Yields MessageType.set args h = handle_set-Yields _
respond-Yields MessageType.get args h = handle_get-Yields _
respond-Yields t args h = Yields-raise _

pub call_response_function-Yields :
    (m : Message)
    → (m.message_type ≡ MessageType.push → All IsShortValue m.args)
    → Yields Any (call_response_function m)
unfolding call_response_function
call_response_function-Yields m h =
    Yields-catch (respond-Yields m.message_type m.args h) on_exception-Yields
