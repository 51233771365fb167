-- ===== src/System/Values.antt =====
-- The values on the stacks and in the tables of the running server, and the answer to TOP.
use computer_systems_assignm.Prelude.{
  ℕ, ◌≤◌, ◌≡◌, refl, Bool, true, false, All, [], ◌∷◌, ◌++◌, arith, length, ltb, if◌then◌else◌, ◌==◌,
  length-append,
}
use mathlib.Core.Path.{subst}
use computer_systems_assignm.Exceptions.{Outcome, ok, throw, blocked, undefined}
use computer_systems_assignm.Text.{Bytes, codes, space, newline}
use computer_systems_assignm.Message.{MessageType, message}
use computer_systems_assignm.Serialization.{
  max_encoded_len, encode, encode_as, type_word, append_args, check_message_size,
}
use computer_systems_assignm.ValueStack.{ValueStack}
use computer_systems_assignm.Connection.State.{State}
use computer_systems_assignm.Connection.Transactions.{on_exception}
use computer_systems_assignm.Connection.Handlers.{respond, call_response_function}
use computer_systems_assignm.Connection.Chat.{Locals, chat_round}
use computer_systems_assignm.Connection.Runs.{catch-ok}
use computer_systems_assignm.Connection.Single.{answered, handle_top-run}
use computer_systems_assignm.Connection.Sizes.{
  IsShortValue, IsShortTable, IsSmall, Left, Yields, Any, Yields-then,
}
use computer_systems_assignm.Connection.Sizes.Calls.{stored_short}
use computer_systems_assignm.Table.{Table}
use computer_systems_assignm.Connection.Owns.{with_table}
use computer_systems_assignm.Connection.Keeps.{taken_by}
use computer_systems_assignm.Connection.Lends.{lent}
use computer_systems_assignm.Connection.Sizes.Chat.{
  chat_round-Yields, close_fd-Yields, delete_connection-Yields,
}
use computer_systems_assignm.System.{
  System, view, after, leave, Step, round, contended, hang_up, Reachable, stay, step, new_system,
}

-- What every client has on its stack, and every table.
abbrev pub AreSmall : System → Type 0
AreSmall sys = (i : ℕ) → IsSmall (view i sys)

Left-IsSmall : {A : Type 0} (Q : A → Type 0) (o : Outcome A × State) → Left Q o → IsSmall o.1
Left-IsSmall Q (ok a, s) h = h.0
Left-IsSmall Q (throw e, s) h = h
Left-IsSmall Q (blocked, s) h = h
Left-IsSmall Q (undefined, s) h = h

module _ (sys : System) (i : ℕ) (l : Locals) (s : State) (h : AreSmall sys) (k : IsSmall s) where
  picked-IsSmall :
      (j : ℕ) (b : Bool) → IsSmall (record s { conn = if b then s.conn else sys.conns j })
  picked-IsSmall j true = k
  picked-IsSmall j false = record { stack = (h j).stack; tables = k.tables }

  after-AreSmall : AreSmall (after i l s sys)
  after-AreSmall j =
      let p : IsSmall (record s { conn = if i == j then s.conn else sys.conns j }) =
        picked-IsSmall j (i == j) in
      record { stack = p.stack; tables = p.tables }

stored-IsSmall :
    (s : State) (p : ℕ) (t : Table) → IsSmall s → IsShortTable t → IsSmall (with_table s p t)
stored-IsSmall s p t i h = record { stack = i.stack; tables = stored_short s p t i h }

leave-Yields : Yields Any leave
leave-Yields = Yields-then close_fd-Yields (λ _. delete_connection-Yields)

Step-AreSmall : {s t : System} → AreSmall s → Step s t → AreSmall t
Step-AreSmall {s} h (round i r l running returned) =
    let o : Outcome Locals × State = chat_round r (s.locals i) (view i s) in
    after-AreSmall s i l o.1 h
      (Left-IsSmall Any o ((chat_round-Yields r (s.locals i)).at (view i s) (h i)))
Step-AreSmall {s} h (contended i j p t r l running n single there free returned) =
    let short : IsShortTable t = (h i).tables p t there in
    let s' : State = lent (view i s) p t j in
    let o : Outcome Locals × State = chat_round r (s.locals i) s' in
    let small : IsSmall s' =
      stored-IsSmall (view i s) p (taken_by j t) (h i)
        (record { committed = short.committed; proposed = short.proposed }) in
    after-AreSmall s i l (with_table o.1 p t) h (
      stored-IsSmall o.1 p t (Left-IsSmall Any o ((chat_round-Yields r (s.locals i)).at s' small))
        short)
Step-AreSmall {s} h (hang_up i stopped returned) =
    let o : Outcome (Unit {0}) × State = leave (view i s) in
    after-AreSmall s i (s.locals i) o.1 h (Left-IsSmall Any o (leave-Yields.at (view i s) (h i)))

run-AreSmall : {s t : System} → AreSmall s → Reachable s t → AreSmall t
run-AreSmall h stay = h
run-AreSmall h (step r x) = Step-AreSmall (run-AreSmall h r) x

-- In every state that the clients of a new server can reach, every value on a client's stack, and every
-- committed or proposed value of a table, has at most 1018 bytes.
pub Reachable-AreSmall : (sys : System) → Reachable new_system sys → AreSmall sys
Reachable-AreSmall sys r =
    run-AreSmall (λ i. record { stack = tt; tables = λ p t e. ground arith }) r

data_line : Bytes → Bytes
data_line v = ((codes "DATA" ++ space ∷ []) ++ v) ++ newline ∷ []

fits_not_longer : (m n : ℕ) → n ≤ m → ltb m n ≡ false
fits_not_longer m n h = ground arith

encode-data_line :
    (v : Bytes) → IsShortValue v → encode (message MessageType.data_msg (v ∷ [])) ≡ ok (data_line v)
unfolding encode encode_as type_word append_args check_message_size data_line
encode-data_line v short =
    let n : length (((codes "DATA" ++ space ∷ []) ++ v) ++ newline ∷ []) ≤ max_encoded_len = omega (
      arith,
      length-append ((codes "DATA" ++ space ∷ []) ++ v) (newline ∷ []),
      length-append (codes "DATA" ++ space ∷ []) v,
      short.bound,
    ) in
    rw (fits_not_longer _ _ n) refl

-- In every such state, TOP of a client with a value on its stack is answered with this value: the line fits.
pub call_response_function-answered :
    (sys : System) (i : ℕ) (v : Bytes) (rest : ValueStack)
    → Reachable new_system sys
    → (sys.conns i).stack ≡ v ∷ rest
    → call_response_function (message MessageType.top []) (view i sys)
      ≡ (ok tt, answered (view i sys) (((codes "DATA" ++ space ∷ []) ++ v) ++ newline ∷ []))
unfolding call_response_function respond data_line
call_response_function-answered sys i v rest r stacked =
    let small : IsSmall (view i sys) = Reachable-AreSmall sys r i in
    let short : All IsShortValue (v ∷ rest) = subst (All IsShortValue) stacked small.stack in
    catch-ok _ on_exception
      (handle_top-run (view i sys) v (data_line v) rest stacked (encode-data_line v short.0))
