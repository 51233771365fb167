-- ===== src/Connection/Lines.antt =====
-- A round of chat_with_client on any line: what it does to the locks, and when it can be undefined.
use computer_systems_assignm.Prelude.{
  ◌≤◌, ◌≡◌, refl, sym, Bool, true, false, [], ◌∷◌, Option, none, some, arith, ◌⊎◌, inl, inr, ltb,
  length,
}
use mathlib.Core.Path.{subst}
use computer_systems_assignm.Exceptions.{
  Outcome, ok, throw, blocked, undefined, Exception, invalid_message, comm_exception,
  operation_exception, failed_transaction, invalid_argument, out_of_range,
}
use computer_systems_assignm.Text.{Bytes}
use computer_systems_assignm.Message.{MessageType, Message, ◌is◌}
use computer_systems_assignm.Message.Validity.{IsAccepted}
use computer_systems_assignm.Serialization.{
  max_encoded_len, decode, check_newline, check_message_size,
}
use computer_systems_assignm.Serialization.Total.{Decoded, IsHighText, decode-Decoded}
use computer_systems_assignm.Connection.State.{State, lift}
use computer_systems_assignm.Connection.Handlers.{call_response_function}
use computer_systems_assignm.Connection.Chat.{
  Read, nothing, line, c_string, Locals, handle_login, recover_login, handle_decoded, handle_text,
  chat_round,
}
use computer_systems_assignm.Connection.Triple.{Meets, Triple, Triple-bind, Triple-if, Triple-pre}
use computer_systems_assignm.Connection.Owns.{Ready, Waits}
use computer_systems_assignm.Connection.Steady.{
  safe, Steady, Steady-bind, Steady-pure, Steady-raise, Steady-catch, Steady-send, Steady-write_ok,
  Steady-end_loop,
}
use computer_systems_assignm.Connection.Requests.{manage_exception-Steady}
use computer_systems_assignm.Connection.Faults.{
  CanFault, Meets-faults, call_response_function-IsServed,
}

-- The line and its NUL do not fit into the buffer, the line begins with a NUL, it is PUSH of a value
-- whose first byte is 128 or more, or it is decoded to a request that can be undefined.
abbrev pub RoundFaults : Read → Locals → State → Type 0
RoundFaults nothing l s = ⊥
RoundFaults (line text) l s =
    (max_encoded_len ≤ length text)
    ⊎ ((c_string text ≡ [])
        ⊎ (IsHighText (c_string text)
            ⊎ ((m : Message) × (decode (c_string text) l.client_msg ≡ ok m) × CanFault m s)))

pub decode-nil : (m₀ : Message) → decode [] m₀ ≡ undefined
unfolding decode check_newline check_message_size
decode-nil m₀ = refl

module _ {g : Type 0} where
  handle_login-Steady : (first : Option Bool) → Steady g (handle_login first)
  unfolding handle_login
  handle_login-Steady none = Steady-raise _
  handle_login-Steady (some b) = Steady-bind Steady-write_ok (λ _. Steady-pure false)

  recover_login-Steady : (first : Bool) (e : Exception) → Steady g (recover_login first e)
  unfolding recover_login
  recover_login-Steady first (operation_exception what) =
      Steady-bind (manage_exception-Steady what true) (λ _. Steady-pure first)
  recover_login-Steady first (invalid_message what) = Steady-raise _
  recover_login-Steady first (comm_exception what) = Steady-raise _
  recover_login-Steady first (failed_transaction what) = Steady-raise _
  recover_login-Steady first invalid_argument = Steady-raise _
  recover_login-Steady first out_of_range = Steady-raise _

-- A call in a state that is known.
abbrev pub IsSafe : {A : Type 0} → Type 0 → State → Outcome A × State → Type 0
IsSafe {A} f s = Meets (safe A Waits f) s

module _ (s : State) (ready : Ready s) (f : Type 0) where
  abbrev Here : State → Type 0
  Here x = Ready x × (x ≡ s)

  Steady-Here :
      {A : Type 0} {m : State → Outcome A × State} → Steady f m → Triple Here m (safe A Waits f)
  Steady-Here h = Triple-pre Ready (λ x p. p.0) (h Waits)

  served-Here :
      (m : Message)
      → IsAccepted m
      → (CanFault m s → f)
      → Triple Here (call_response_function m) (safe (Unit {0}) Waits f)
  served-Here m valid fault = record {
    at = λ x p.
        subst (λ y. IsSafe f y (call_response_function m y)) (sym p.1)
          (Meets-faults Waits (CanFault m s) f s (call_response_function m s) fault
            (call_response_function-IsServed m s valid ready));
  }

  handle_decoded-Here :
      (l : Locals)
      → IsAccepted l.client_msg
      → (CanFault l.client_msg s → f)
      → Triple Here (handle_decoded l) (safe Locals Waits f)
  unfolding handle_decoded
  handle_decoded-Here l valid fault =
      Triple-if (l.client_msg.message_type is MessageType.login)
        (λ _. Steady-Here (
          Steady-bind
            (Steady-catch (handle_login-Steady (some l.first_valid_message))
              (recover_login-Steady l.first_valid_message))
            (λ first. Steady-pure _)))
        (λ _.
          Triple-if l.first_valid_message
            (λ _.
              Steady-Here (
                Steady-bind (Steady-send _)
                  (λ _. Steady-bind Steady-end_loop (λ _. Steady-pure l))))
            (λ _.
              Triple-bind (λ _. Ready) (served-Here l.client_msg valid fault)
                (λ _. Steady-pure l (λ x. ⊥))))

  handle_text-Here :
      (l : Locals) (o : Outcome Message) (h : Type 0)
      → Decoded h o
      → (h → f)
      → ((m : Message) → o ≡ ok m → CanFault m s → f)
      → Triple Here (handle_text l o) (safe Locals Waits f)
  unfolding handle_text lift
  handle_text-Here l (ok m) h d high fault =
      handle_decoded-Here (record l { client_msg = m }) d.0 (fault m refl)
  handle_text-Here l (throw (invalid_message what)) h d high fault =
      Steady-Here (Steady-bind (manage_exception-Steady what false) (λ _. Steady-pure l))
  handle_text-Here l (throw e) h d high fault = absurd d
  handle_text-Here l blocked h d high fault = absurd d
  handle_text-Here l undefined h d high fault = record { at = λ x p. high d }

  decoded-Here :
      (text : Bytes) (l : Locals)
      → (text ≡ [] → f)
      → (IsHighText text → f)
      → ((m : Message) → decode text l.client_msg ≡ ok m → CanFault m s → f)
      → Triple Here (handle_text l (decode text l.client_msg)) (safe Locals Waits f)
  unfolding handle_text lift
  decoded-Here [] l empty high fault =
      rw (decode-nil l.client_msg) (record { at = λ x p. empty refl })
  decoded-Here (c ∷ text) l empty high fault =
      handle_text-Here l _ _ (decode-Decoded (c ∷ text) l.client_msg (λ e. ground arith)) high fault

  line-Here :
      (text : Bytes) (l : Locals)
      → (RoundFaults (line text) l s → f)
      → Triple Here (chat_round (line text) l) (safe Locals Waits f)
  unfolding chat_round lift
  line-Here text l fault =
      Triple-if (ltb (length text) max_encoded_len)
        (λ e.
          decoded-Here (c_string text) l (λ h. fault (inr (inl h))) (λ h. fault (inr (inr (inl h))))
            (λ m d c. fault (inr (inr (inr (m, d, c))))))
        (λ e. record { at = λ x p. fault (inl (ground arith)) })

-- A round of the loop on any line, and at the end of the input: when it returns or throws, the client is ready
-- again, and the tables that others have locked are untouched; if it has to wait, the client is in no
-- transaction; what is undefined is a line that does not fit into the buffer, one that begins with a NUL,
-- PUSH of a value whose first byte is 128 or more, arithmetic, and a GET of a key that its table does not have.
pub chat_round-IsSafe :
    (r : Read) (l : Locals) (s : State) → Ready s → IsSafe (RoundFaults r l s) s (chat_round r l s)
unfolding chat_round
chat_round-IsSafe nothing l s ready =
    (Steady-bind (Steady-end_loop {g = ⊥}) (λ _. Steady-pure l) Waits).at s ready
chat_round-IsSafe (line text) l s ready =
    (line-Here s ready (RoundFaults (line text) l s) text l (λ h. h)).at s (ready, refl)
