-- ===== src/Client/Conversation.antt =====
-- Operations that succeed: what has been sent and read.
use mathlib.Core.Path.{subst}
use computer_systems_assignm.Prelude.{
  ℕ, ◌≡◌, refl, sym, ◌∙◌, ap, ◌↔◌, Bool, true, false, List, [], ◌∷◌, ◌++◌, arith, if◌then◌else◌,
}
use computer_systems_assignm.Prelude.Int.{ℤ, pos, negsuc, is_negative}
use computer_systems_assignm.Exceptions.{Outcome, ok, throw, blocked, undefined, ◌>>=◌, ◌>>◌}
use computer_systems_assignm.Text.{Bytes}
use computer_systems_assignm.Message.{
  MessageType, Message, empty_message, get_arg, ◌is◌, enum_value,
}
use computer_systems_assignm.Serialization.{encode, decode}
use computer_systems_assignm.Connection.Chat.{Read, nothing, line, c_string}
use computer_systems_assignm.Client.{
  Socket, handle_response, handle_possible_ok_response, read_response, send_encoded, request_with,
  request, or_return, if_connected,
}

-- The message `m` has been sent, and the next line that was read is `buf`; nothing was printed.
pub record Exchanged (m : Message) (buf : Bytes) (k k' : Socket) : Type 0 where
  pub text : Bytes
  pub encoded : encode m ≡ ok text
  pub written : k'.sent ≡ k.sent ++ text ∷ []
  pub taken : k.replies ≡ line buf ∷ k'.replies
  pub same : k'.printed ≡ k.printed

-- The same, and the line is decoded to OK.
pub record Accepted (m : Message) (k k' : Socket) : Type 0 where
  pub buf : Bytes
  pub exchanged : Exchanged m buf k k'
  pub response : Message
  pub decoded : decode (c_string buf) empty_message ≡ ok response
  pub is_ok : response.message_type ≡ MessageType.ok

-- The requests `ms` have been accepted, one after the other.
abbrev pub Conversation : List Message → Socket → Socket → Type 0
Conversation [] k k' = k ≡ k'
Conversation (m ∷ ms) k k' = (next : Socket) × Accepted m k next × Conversation ms next k'

is_ok_type : (t : MessageType) → (t is MessageType.ok) ≡ true → t ≡ MessageType.ok
unfolding ◌is◌ enum_value
is_ok_type MessageType.ok h = refl
is_ok_type _ h = ground arith

only_ok :
    (b c : Bool) (x : Outcome Bytes)
    → (if b then ok true else if c then x >> ok false else ok false) ≡ ok true
    → b ≡ true
only_ok true c x h = refl
only_ok false false x h = ground arith
only_ok false true (ok a) h = ground arith
only_ok false true (throw e) h = ground arith
only_ok false true blocked h = ground arith
only_ok false true undefined h = ground arith

handle_response_iff :
    (r : Message) → (handle_response r ≡ ok true) ↔ (r.message_type ≡ MessageType.ok)
unfolding handle_response ◌is◌ enum_value
handle_response_iff r =
    (λ h. is_ok_type r.message_type (only_ok _ _ (get_arg r 0) h), λ h. rw h refl)

decoded_ok :
    (o : Outcome Message)
    → (o >>= handle_response) ≡ ok true
    → (r : Message) × (o ≡ ok r) × (r.message_type ≡ MessageType.ok)
decoded_ok (ok r) h = (r, refl, (handle_response_iff r).0 h)
decoded_ok (throw e) h = ground arith
decoded_ok blocked h = ground arith
decoded_ok undefined h = ground arith

ok_decoded :
    (o : Outcome Message) (r : Message)
    → o ≡ ok r
    → r.message_type ≡ MessageType.ok
    → (o >>= handle_response) ≡ ok true
ok_decoded o r e t = rw e ((handle_response_iff r).1 t)

module _ {A : Type 0} (handle : Bytes → Outcome A) (failure a : A) (m : Message) where
  read_response-ok :
      (text : Bytes) (replies : List Read) (k k' : Socket)
      → encode m ≡ ok text
      → k.replies ≡ replies
      → (failure ≡ a → ⊥)
      → read_response handle failure replies (record k { sent = k.sent ++ text ∷ [] }) ≡ (ok a, k')
      → (buf : Bytes) × Exchanged m buf k k' × (handle (c_string buf) ≡ ok a)
  unfolding read_response
  read_response-ok text [] k k' e r n h = ground arith
  read_response-ok text (nothing ∷ replies) k k' e r n h =
      let same : ok failure ≡ ok a = ap (λ (x : Outcome A × Socket). x.0) h in absurd (n (cc same))
  read_response-ok text (line buf ∷ replies) k k' e r n h = (
    buf,
    record {
      text = text;
      encoded = e;
      written = ap (λ (x : Outcome A × Socket). x.1.sent) (sym h);
      taken = r ∙ ap (λ (x : Outcome A × Socket). line buf ∷ x.1.replies) h;
      same = ap (λ (x : Outcome A × Socket). x.1.printed) (sym h);
    },
    ap (λ (x : Outcome A × Socket). x.0) h,
  )

  send_encoded-ok :
      (o : Outcome Bytes) (k k' : Socket)
      → encode m ≡ o
      → (failure ≡ a → ⊥)
      → send_encoded handle failure o k ≡ (ok a, k')
      → (buf : Bytes) × Exchanged m buf k k' × (handle (c_string buf) ≡ ok a)
  unfolding send_encoded
  send_encoded-ok (ok text) k k' e n h = read_response-ok text k.replies k k' e refl n h
  send_encoded-ok (throw x) k k' e n h = ground arith
  send_encoded-ok blocked k k' e n h = ground arith
  send_encoded-ok undefined k k' e n h = ground arith

  -- An operation whose result is not that of a failed read has sent its message and read a line.
  pub request_with-ok :
      (k k' : Socket)
      → (failure ≡ a → ⊥)
      → request_with handle failure m k ≡ (ok a, k')
      → (buf : Bytes) × Exchanged m buf k k' × (handle (c_string buf) ≡ ok a)
  unfolding request_with
  request_with-ok k k' n h = send_encoded-ok (encode m) k k' refl n h

  -- What an operation does where the message is encoded and a line can be read.
  pub request_with-Exchanged :
      (k k' : Socket) (buf : Bytes)
      → Exchanged m buf k k'
      → request_with handle failure m k ≡ (handle (c_string buf), k')
  unfolding request_with send_encoded read_response
  request_with-Exchanged k k' buf x = rw (x.encoded, x.taken, x.written, x.same) refl

module _ (m : Message) (k k' : Socket) where
  pub request-Accepted : request m k ≡ (ok true, k') → Accepted m k k'
  unfolding request handle_possible_ok_response
  request-Accepted h =
      let (buf, x, okay) =
        request_with-ok handle_possible_ok_response false true m k k' (λ e. ground arith) h in
      let (r, decoded, is_ok) = decoded_ok (decode (c_string buf) empty_message) okay in
      record { buf = buf; exchanged = x; response = r; decoded = decoded; is_ok = is_ok }

  pub Accepted-request : Accepted m k k' → request m k ≡ (ok true, k')
  unfolding request handle_possible_ok_response
  Accepted-request a =
      request_with-Exchanged handle_possible_ok_response false true m k k' a.buf a.exchanged
      ∙ ap (λ (o : Outcome Bool). (o, k'))
          (ok_decoded (decode (c_string a.buf) empty_message) a.response a.decoded a.is_ok)

pub or_return-ok :
    (x : Outcome Bool × Socket) (rest : Socket → Outcome ℕ × Socket) (k' : Socket)
    → or_return x rest ≡ (ok 0, k')
    → (k : Socket) × (x ≡ (ok true, k)) × (rest k ≡ (ok 0, k'))
unfolding or_return
or_return-ok (ok true, k) rest k' h = (k, refl, h)
or_return-ok (ok false, k) rest k' h = ground arith
or_return-ok (throw e, k) rest k' h = ground arith
or_return-ok (blocked, k) rest k' h = ground arith
or_return-ok (undefined, k) rest k' h = ground arith

-- A program that sends the requests `ms` in this order, and goes on as `rest`.
abbrev pub run_requests : List Message → (Socket → Outcome ℕ × Socket) → Socket → Outcome ℕ × Socket
run_requests [] rest k = rest k
run_requests (m ∷ ms) rest k = or_return (request m k) (run_requests ms rest)

-- It ends with 0 exactly if the requests are accepted and the rest ends with 0.
pub run_requests_iff :
    (ms : List Message) (rest : Socket → Outcome ℕ × Socket) (k k' : Socket)
    → (run_requests ms rest k ≡ (ok 0, k'))
      ↔ ((last : Socket) × Conversation ms k last × (rest last ≡ (ok 0, k')))
unfolding or_return
run_requests_iff [] rest k k' = (λ h. (k, refl, h), λ (last, e, h). rw e h)
run_requests_iff (m ∷ ms) rest k k' = (
  λ h.
      let (next, accepted, h') = or_return-ok (request m k) (run_requests ms rest) k' h in
      let (last, conversation, end) = (run_requests_iff ms rest next k').0 h' in
      (last, (next, request-Accepted m k next accepted, conversation), end),
  λ (last, (next, accepted, conversation), end).
      rw (Accepted-request m k next accepted)
        ((run_requests_iff ms rest next k').1 (last, conversation, end)),
)

-- The same for a program that ends behind its requests.
pub run_to_end :
    (ms : List Message) (k k' : Socket)
    → (run_requests ms (λ last. (ok 0, last)) k ≡ (ok 0, k')) ↔ Conversation ms k k'
run_to_end ms k k' =
    let both = run_requests_iff ms (λ last. (ok 0, last)) k k' in
    (
      λ h.
          let (last, conversation, e) = both.0 h in
          subst (λ s. Conversation ms k s) (ap (λ (x : Outcome ℕ × Socket). x.1) e) conversation,
      λ conversation. both.1 (k', conversation, refl),
    )

-- The exit status 1 is not 0.
pub no_exit : (k k' : Socket) {X : Type 0} → ◌≡◌ {A = Outcome ℕ × Socket} (ok 1, k) (ok 0, k') → X
no_exit k k' h = ground arith

-- A program that needs its connection.
pub if_connected_iff :
    (fd : ℤ) (rest : Socket → Outcome ℕ × Socket) (k k' : Socket) {X : Type 0}
    → (rest k ≡ (ok 0, k')) ↔ X
    → (if_connected fd rest k ≡ (ok 0, k')) ↔ ((is_negative fd ≡ false) × X)
unfolding if_connected
if_connected_iff (pos n) rest k k' h = (λ e. (refl, h.0 e), λ x. h.1 x.1)
if_connected_iff (negsuc n) rest k k' h = (λ e. no_exit k k' e, λ x. ground arith)

-- A call with other arguments.
pub refused : (k k' : Socket) → ◌≡◌ {A = Outcome ℕ × Socket} (ok 1, k) (ok 0, k') ↔ ⊥
refused k k' = (no_exit k k', absurd)
