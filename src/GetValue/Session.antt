-- ===== src/GetValue/Session.antt =====
-- What get_value has sent, read and printed when it ends with the exit status 0.
use computer_systems_assignm.Prelude.{
  ◌≡◌, refl, ap, sym, ◌↔◌, Bool, true, false, List, [], ◌∷◌, ◌++◌, Option, none, some, arith,
  if◌then◌else◌, ltb,
}
use computer_systems_assignm.Exceptions.{Outcome, ok, throw, blocked, undefined, ◌>>=◌, ◌>>◌}
use computer_systems_assignm.Text.{Bytes}
use computer_systems_assignm.Message.{
  MessageType, Message, empty_message, message, push_arg, get_arg, get_num_args, ◌is◌, enum_value,
}
use computer_systems_assignm.Serialization.{decode}
use computer_systems_assignm.Connection.Chat.{c_string}
use computer_systems_assignm.Client.{Socket, request_with, or_return}
use computer_systems_assignm.Client.Conversation.{
  Exchanged, Conversation, request_with-ok, request_with-Exchanged, or_return-ok, run_requests_iff,
  run_requests, run_to_end,
}
use computer_systems_assignm.GetValue.{
  handle_top, handle_top_response, print_value, login_operation, get_operation, top_operation,
  bye_operation, get_value,
}

-- TOP has been answered with a value, which has been printed.
pub record Printed (k k' : Socket) : Type 0 where
  pub buf : Bytes
  pub read : Socket
  pub exchanged : Exchanged (message MessageType.top []) buf k read
  pub response : Message
  pub decoded : decode (c_string buf) empty_message ≡ ok response
  pub is_value : response.message_type ≡ MessageType.data_msg
  pub value : Bytes
  pub argument : get_arg response 0 ≡ ok value
  pub result : k' ≡ record read { printed = read.printed ++ value ∷ [] }

is_data_type : (t : MessageType) → (t is MessageType.data_msg) ≡ true → t ≡ MessageType.data_msg
unfolding ◌is◌ enum_value
is_data_type MessageType.data_msg h = refl
is_data_type _ h = ground arith

-- The value of `handle_top` comes from the first branch.
value_branch :
    (b few c : Bool) (x : Outcome Bytes) (v : Bytes)
    → (if b
        then (if few then ok none else x >>= λ value. ok (some value))
        else if c
        then x >> ok none
        else ok none)
      ≡ ok (some v)
    → (b ≡ true) × (x ≡ ok v)
value_branch true false c (ok a) v h = (refl, ground arith)
value_branch true false c (throw e) v h = ground arith
value_branch true false c blocked v h = ground arith
value_branch true false c undefined v h = ground arith
value_branch true true c x v h = ground arith
value_branch false few false x v h = ground arith
value_branch false few true (ok a) v h = ground arith
value_branch false few true (throw e) v h = ground arith
value_branch false few true blocked v h = ground arith
value_branch false few true undefined v h = ground arith

has_argument :
    (t : MessageType) (args : List Bytes) (v : Bytes)
    → get_arg (message t args) 0 ≡ ok v
    → ltb (get_num_args (message t args)) 1 ≡ false
unfolding get_arg get_num_args
has_argument t [] v h = ground arith
has_argument t (a ∷ args) v h = ground arith

handle_top_iff :
    (r : Message) (v : Bytes)
    → (handle_top r ≡ ok (some v))
      ↔ ((r.message_type ≡ MessageType.data_msg) × (get_arg r 0 ≡ ok v))
unfolding handle_top ◌is◌ enum_value get_num_args get_arg
handle_top_iff r v = (
  λ h. let (t, a) = value_branch _ _ _ (get_arg r 0) v h in (is_data_type r.message_type t, a),
  λ (t, a). rw (t, has_argument r.message_type r.args v a, a) refl,
)

module _ (v : Bytes) where
  decoded_value :
      (o : Outcome Message)
      → (o >>= handle_top) ≡ ok (some v)
      → (r : Message) × (o ≡ ok r) × (r.message_type ≡ MessageType.data_msg) × (get_arg r 0 ≡ ok v)
  decoded_value (ok r) h = let (t, a) = (handle_top_iff r v).0 h in (r, refl, t, a)
  decoded_value (throw e) h = ground arith
  decoded_value blocked h = ground arith
  decoded_value undefined h = ground arith

  value_decoded :
      (o : Outcome Message) (r : Message)
      → o ≡ ok r
      → r.message_type ≡ MessageType.data_msg
      → get_arg r 0 ≡ ok v
      → (o >>= handle_top) ≡ ok (some v)
  value_decoded o r e t a = rw e ((handle_top_iff r v).1 (t, a))

print_value-ok :
    (x : Outcome (Option Bytes) × Socket) (k' : Socket)
    → print_value x ≡ (ok true, k')
    → (value : Bytes) × (k : Socket) × (x ≡ (ok (some value), k))
      × (k' ≡ record k { printed = k.printed ++ value ∷ [] })
unfolding print_value
print_value-ok (ok (some value), k) k' h =
    (value, k, refl, ap (λ (x : Outcome Bool × Socket). x.1) (sym h))
print_value-ok (ok none, k) k' h = ground arith
print_value-ok (throw e, k) k' h = ground arith
print_value-ok (blocked, k) k' h = ground arith
print_value-ok (undefined, k) k' h = ground arith

top_operation_iff : (k k' : Socket) → (top_operation k ≡ (ok true, k')) ↔ Printed k k'
unfolding top_operation handle_top_response print_value
top_operation_iff k k' = (
  λ h.
      let (value, read, e, result) =
        print_value-ok (request_with handle_top_response none (message MessageType.top []) k) k'
          h in
      let (buf, exchanged, okay) =
        request_with-ok handle_top_response none (some value) (message MessageType.top []) k read
          (λ x. ground arith) e in
      let (r, decoded, t, a) = decoded_value value (decode (c_string buf) empty_message) okay in
      record {
        buf = buf;
        read = read;
        exchanged = exchanged;
        response = r;
        decoded = decoded;
        is_value = t;
        value = value;
        argument = a;
        result = result;
      },
  λ p.
      rw
        (
          request_with-Exchanged handle_top_response none none (message MessageType.top []) k p.read
              p.buf p.exchanged,
          value_decoded p.value (decode (c_string p.buf) empty_message) p.response p.decoded
              p.is_value p.argument,
        )
        (ap (λ (s : Socket). (ok true, s)) (sym p.result)),
)

abbrev pub before_top : Bytes → Bytes → Bytes → List Message
before_top username table key =
    message MessageType.login (username ∷ []) ∷ message MessageType.get (table ∷ key ∷ []) ∷ []

abbrev pub after_top : List Message
after_top = message MessageType.bye [] ∷ []

-- get_value ends with the exit status 0 exactly if it sends LOGIN, GET, TOP and BYE in this order, with the
-- arguments of its command line, reads lines that are decoded to OK after LOGIN, GET and BYE, and
-- one that is decoded to DATA with a value after TOP, which it prints.
pub get_value-Session :
    (username table key : Bytes) (k k' : Socket)
    → (get_value username table key k ≡ (ok 0, k')) ↔ (
        (asked : Socket) × (printed : Socket) × Conversation (before_top username table key) k asked
        × Printed asked printed
        × Conversation after_top printed k')
unfolding get_value login_operation get_operation bye_operation push_arg or_return
get_value-Session username table key k k' =
    let rest = λ (asked : Socket).
      or_return (top_operation asked) (run_requests after_top (λ last. (ok 0, last))) in
    let both = run_requests_iff (before_top username table key) rest k k' in
    (
      λ h.
          let (asked, conversation, h') = both.0 h in
          let (printed, p, h'') =
            or_return-ok (top_operation asked) (run_requests after_top (λ last. (ok 0, last))) k'
              h' in
          (
            asked,
            printed,
            conversation,
            (top_operation_iff asked printed).0 p,
            (run_to_end after_top printed k').0 h'',
          ),
      λ (asked, printed, conversation, p, bye). both.1 (
        asked,
        conversation,
        rw ((top_operation_iff asked printed).1 p) ((run_to_end after_top printed k').1 bye),
      ),
    )
