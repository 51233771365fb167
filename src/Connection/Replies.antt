-- ===== src/Connection/Replies.antt =====
-- What the methods of ClientConnection write to the client: nothing, or one answer.
pub mod Calls
pub mod Handlers
pub mod Chat
use computer_systems_assignm.Prelude.{
  ℕ, ◌≤◌, ◌≡◌, ◌≢◌, refl, sym, ◌∙◌, ap, Bool, true, false, List, [], ◌∷◌, ◌++◌, Option, none, some,
  arith, length, ltb, if◌then◌else◌, Bool-cases, inl, inr,
}
use computer_systems_assignm.Exceptions.{Outcome, ok, throw, blocked, undefined, Exception, ◌>>◌}
use computer_systems_assignm.Text.{Bytes, newline}
use computer_systems_assignm.Message.{MessageType, Message}
use computer_systems_assignm.Serialization.{
  encode, encode_as, type_word, append_args, check_message_size, max_encoded_len, too_long,
}
use computer_systems_assignm.Serialization.Total.{check_message_size-cases}
use computer_systems_assignm.Table.{Table}
use computer_systems_assignm.Server.{Server}
use computer_systems_assignm.Connection.State.{
  ClientConnection, State, Exec, ◌>>=◌, lift, catch, gets, modify_conn, pure, raise, continue,
  handle,
}
use computer_systems_assignm.Connection.Calls.{
  deref, store_table, this_client, push_value, top_value, pop_value, stack_size, lock_table,
  unlock_table, trylock_table, set_entry, has_entry, get_entry, commit_table, rollback_table,
  store_server, lock_server, unlock_server, find_table, create_table, send, write_ok, end_loop,
}

-- Nothing is written, whatever the outcome.
pub record Silent {A : Type 0} (m : Exec A) : Type 0 where
  pub at : (s : State) → (m s).1.conn.sent ≡ s.conn.sent

-- A line that fits into the 1024 bytes of a buffer.
pub record IsReply (text : Bytes) : Type 0 where
  pub fits : length text ≤ max_encoded_len
  pub body : Bytes
  pub ends : text ≡ body ++ newline ∷ []

-- One line has been written on a return, and nothing on an exception.
abbrev pub Answered : {A : Type 0} → State → Outcome A × State → Type 0
Answered s (ok a, s') = (text : Bytes) × IsReply text × (s'.conn.sent ≡ s.conn.sent ++ text ∷ [])
Answered s (throw e, s') = s'.conn.sent ≡ s.conn.sent
Answered s (blocked, s') = Unit
Answered s (undefined, s') = Unit

pub record Answers {A : Type 0} (m : Exec A) : Type 0 where
  pub at : (s : State) → Answered s (m s)

Answered-from :
    {A : Type 0} (r s : State) (o : Outcome A × State)
    → s.conn.sent ≡ r.conn.sent
    → Answered s o
    → Answered r o
Answered-from r s (ok a, s') e (text, reply, h) = (text, reply, rw (sym e) h)
Answered-from r s (throw x, s') e h = h ∙ e
Answered-from r s (blocked, s') e h = tt
Answered-from r s (undefined, s') e h = tt

module _ {A B : Type 0} where
  continued-Silent :
      (f : A → Exec B) (o : Outcome A × State)
      → ((a : A) → Silent (f a))
      → (continue o.0 f o.1).1.conn.sent ≡ o.1.conn.sent
  continued-Silent f (ok a, s) h = (h a).at s
  continued-Silent f (throw e, s) h = refl
  continued-Silent f (blocked, s) h = refl
  continued-Silent f (undefined, s) h = refl

  pub Silent-bind :
      {m : Exec A} {f : A → Exec B} → Silent m → ((a : A) → Silent (f a)) → Silent (m >>= f)
  unfolding ◌>>=◌
  Silent-bind {m} {f} h k = record { at = λ s. continued-Silent f (m s) k ∙ h.at s }

  continued-Answered :
      (f : A → Exec B) (r : State) (o : Outcome A × State)
      → o.1.conn.sent ≡ r.conn.sent
      → ((a : A) → Answers (f a))
      → Answered r (continue o.0 f o.1)
  continued-Answered f r (ok a, s) e h = Answered-from r s (f a s) e ((h a).at s)
  continued-Answered f r (throw x, s) e h = e
  continued-Answered f r (blocked, s) e h = tt
  continued-Answered f r (undefined, s) e h = tt

  -- The answer comes last.
  pub Answers-bind :
      {m : Exec A} {f : A → Exec B} → Silent m → ((a : A) → Answers (f a)) → Answers (m >>= f)
  unfolding ◌>>=◌
  Answers-bind {m} {f} h k = record { at = λ s. continued-Answered f s (m s) (h.at s) k }

  returned :
      (f : A → B) (r : State) (o : Outcome A × State)
      → Answered r o
      → Answered r (continue o.0 (λ a. pure (f a)) o.1)
  unfolding lift
  returned f r (ok a, s) h = h
  returned f r (throw x, s) h = h
  returned f r (blocked, s) h = tt
  returned f r (undefined, s) h = tt

  -- The result is changed behind the answer.
  pub Answers-map : {m : Exec A} (f : A → B) → Answers m → Answers (m >>= λ a. pure (f a))
  unfolding ◌>>=◌
  Answers-map {m} f h = record { at = λ s. returned f s (m s) (h.at s) }

then-Silent :
    {A B : Type 0} (n : Exec B) (r : State) (o : Outcome A × State)
    → Silent n
    → ((s : State) (x : Exception) → (n s).0 ≢ throw x)
    → Answered r o
    → Answered r (continue o.0 (λ _. n) o.1)
then-Silent {B = B} n r (ok a, s) q h (text, reply, sent) = kept (n s) (q.at s) (h s)
  where
    kept :
        (o : Outcome B × State)
        → o.1.conn.sent ≡ s.conn.sent
        → ((x : Exception) → o.0 ≢ throw x)
        → Answered r o
    kept (ok b, s') e f = (text, reply, e ∙ sent)
    kept (throw x, s') e f = absurd (f x refl)
    kept (blocked, s') e f = tt
    kept (undefined, s') e f = tt
then-Silent n r (throw x, s) q h a = a
then-Silent n r (blocked, s) q h a = tt
then-Silent n r (undefined, s) q h a = tt

-- Behind the answer comes a part that throws nothing.
pub Answers-then :
    {A B : Type 0} {m : Exec A} {n : Exec B}
    → Answers m
    → Silent n
    → ((s : State) (x : Exception) → (n s).0 ≢ throw x)
    → Answers (m >>= λ _. n)
unfolding ◌>>=◌
Answers-then {m} {n} h q f = record { at = λ s. then-Silent n s (m s) q f (h.at s) }

module _ {A : Type 0} where
  handled-Silent :
      (c : Exception → Exec A) (o : Outcome A × State)
      → ((e : Exception) → Silent (c e))
      → (handle o.0 c o.1).1.conn.sent ≡ o.1.conn.sent
  handled-Silent c (ok a, s) h = refl
  handled-Silent c (throw e, s) h = (h e).at s
  handled-Silent c (blocked, s) h = refl
  handled-Silent c (undefined, s) h = refl

  pub Silent-catch :
      {m : Exec A} {c : Exception → Exec A}
      → Silent m
      → ((e : Exception) → Silent (c e))
      → Silent (catch m c)
  unfolding catch
  Silent-catch {m} {c} h k = record { at = λ s. handled-Silent c (m s) k ∙ h.at s }

  handled-Answered :
      (c : Exception → Exec A) (r : State) (o : Outcome A × State)
      → Answered r o
      → ((e : Exception) → Answers (c e))
      → Answered r (handle o.0 c o.1)
  handled-Answered c r (ok a, s) h k = h
  handled-Answered c r (throw e, s) h k = Answered-from r s (c e s) h ((k e).at s)
  handled-Answered c r (blocked, s) h k = tt
  handled-Answered c r (undefined, s) h k = tt

  -- The handler answers instead, since nothing has been written before.
  pub Answers-catch :
      {m : Exec A} {c : Exception → Exec A}
      → Answers m
      → ((e : Exception) → Answers (c e))
      → Answers (catch m c)
  unfolding catch
  Answers-catch {m} {c} h k = record { at = λ s. handled-Answered c s (m s) (h.at s) k }

  pub Silent-lift : (r : Outcome A) → Silent (lift r)
  unfolding lift
  Silent-lift r = record { at = λ s. refl }

  pub Answers-raise : (e : Exception) → Answers (raise {A = A} e)
  unfolding lift
  Answers-raise e = record { at = λ s. refl }

  pub Silent-gets : (g : State → A) → Silent (gets g)
  unfolding gets
  Silent-gets g = record { at = λ s. refl }

  pub Silent-if : (b : Bool) {m n : Exec A} → Silent m → Silent n → Silent (if b then m else n)
  Silent-if true h k = h
  Silent-if false h k = k

  pub Answers-if : (b : Bool) {m n : Exec A} → Answers m → Answers n → Answers (if b then m else n)
  Answers-if true h k = h
  Answers-if false h k = k

pub Silent-modify_conn :
    (f : ClientConnection → ClientConnection)
    → ((c : ClientConnection) → (f c).sent ≡ c.sent)
    → Silent (modify_conn f)
unfolding modify_conn
Silent-modify_conn f same = record { at = λ s. same s.conn }
