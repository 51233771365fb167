-- ===== src/Message/Copy.antt =====
-- Message::operator=: the loop that copies the arguments.
use computer_systems_assignm.Prelude.{
  ℕ, suc, ◌≡◌, refl, ◌∙◌, sym, List, [], ◌∷◌, ◌++◌, arith, some, length, get_elem?, length-append,
  append_assoc,
}
use computer_systems_assignm.Exceptions.{ok}
use computer_systems_assignm.Text.{Bytes}
use computer_systems_assignm.Message.{
  MessageType, Message, message, get_arg, get_num_args, copy_args, assign,
}

get_elem?-append :
    (done : List Bytes) (a : Bytes) (rest : List Bytes)
    → get_elem? (done ++ a ∷ rest) (length done) ≡ some a
get_elem?-append [] a rest = refl
get_elem?-append (d ∷ done) a rest = ground (arith, get_elem?-append done a rest)

get_arg-append :
    (t : MessageType) (done : List Bytes) (a : Bytes) (rest : List Bytes)
    → get_arg (message t (done ++ a ∷ rest)) (length done) ≡ ok a
unfolding get_arg
get_arg-append t done a rest = rw (get_elem?-append done a rest, get_arg)

-- The loop copies what is behind the arguments that it has done.
copy_args-append :
    (t : MessageType) (args : List Bytes) (i : ℕ) (done rest : List Bytes)
    → args ≡ done ++ rest
    → i ≡ length done
    → copy_args (message t args) i (length rest) ≡ ok rest
unfolding copy_args
copy_args-append t args i done [] e l = refl
copy_args-append t args i done (a ∷ rest) e l =
    let here : get_arg (message t args) i ≡ ok a = rw (e, l) (get_arg-append t done a rest) in
    let next : suc i ≡ length (done ++ a ∷ []) =
      rw (l, length-append done (a ∷ [])) (omega arith) in
    rw (
      here,
      copy_args-append t args (suc i) (done ++ a ∷ []) rest
          (e ∙ sym (append_assoc done (a ∷ []) rest)) next,
    )

-- An assignment gives a copy of the right-hand side, and never throws.
pub assign_lem : (m rhs : Message) → assign m rhs ≡ ok rhs
unfolding assign get_num_args
assign_lem m rhs = rw (copy_args-append rhs.message_type rhs.args 0 [] rhs.args refl refl)
