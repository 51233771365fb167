-- ===== src/Connection/Single.antt =====
-- PUSH, TOP and BYE: what they do to the stack, and what they answer.
use computer_systems_assignm.Prelude.{◌≡◌, ◌∙◌, false, [], ◌∷◌, ◌++◌}
use computer_systems_assignm.Exceptions.{ok}
use computer_systems_assignm.Text.{Bytes}
use computer_systems_assignm.Message.{MessageType, Message, message, push_arg, get_arg}
use computer_systems_assignm.Serialization.{encode}
use computer_systems_assignm.ValueStack
use computer_systems_assignm.ValueStack.{ValueStack}
use computer_systems_assignm.Connection.State.{State, ◌>>=◌, lift, modify_conn}
use computer_systems_assignm.Connection.Calls.{push_value, end_loop, send}
use computer_systems_assignm.Connection.Handlers.{handle_push, handle_top, handle_bye, throw_again}
use computer_systems_assignm.Connection.Arithmetic.{with_stack, answered_ok, write_ok-answered}
use computer_systems_assignm.Connection.Runs.{bind-ok, catch-ok, lift-ok}
use computer_systems_assignm.Connection.Sets.{top_value-cons}

module _ (s : State) where
  -- PUSH of any value.
  pub handle_push-run :
      (value : Bytes)
      → handle_push (message MessageType.push (value ∷ [])) s
        ≡ (ok tt, answered_ok (with_stack s (value ∷ s.conn.stack)))
  unfolding handle_push push_value modify_conn ◌>>=◌ lift get_arg ValueStack.push
  handle_push-run value = write_ok-answered (with_stack s (value ∷ s.conn.stack))

  -- The state when the loop is to end.
  abbrev pub leaving : State
  leaving = record s { conn = record (s.conn) { loop_in_progress = false } }

  pub handle_bye-run : handle_bye s ≡ (ok tt, answered_ok leaving)
  unfolding handle_bye end_loop modify_conn ◌>>=◌
  handle_bye-run = write_ok-answered leaving

  -- The state after the answer `text`.
  abbrev pub answered : Bytes → State
  answered text = record s { conn = record (s.conn) { sent = s.conn.sent ++ text ∷ [] } }

  send-run : (m : Message) (text : Bytes) → encode m ≡ ok text → send m s ≡ (ok tt, answered text)
  unfolding send modify_conn
  send-run m text e = lift-ok _ _ e

  -- TOP of a value that fits into a line.
  pub handle_top-run :
      (value text : Bytes) (rest : ValueStack)
      → s.conn.stack ≡ value ∷ rest
      → encode (message MessageType.data_msg (value ∷ [])) ≡ ok text
      → handle_top s ≡ (ok tt, answered text)
  unfolding handle_top push_arg
  handle_top-run value text rest stacked e =
      bind-ok _ _ (catch-ok _ throw_again (top_value-cons s value rest stacked))
      ∙ send-run (message MessageType.data_msg (value ∷ [])) text e
