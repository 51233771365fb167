-- ===== src/Connection/Rounds.antt =====
-- The loop of chat_with_client on lines that are encoded requests.
use computer_systems_assignm.Prelude.{
  ◌≡◌, ◌<◌, refl, ◌∙◌, Bool, true, false, not, List, [], ◌∷◌, arith, ◌==◌, lt→ltb, length, all_of,
  All,
}
use computer_systems_assignm.Exceptions.{ok}
use computer_systems_assignm.Text.{Bytes}
use computer_systems_assignm.Text.Words.{IsWord}
use computer_systems_assignm.Message.{MessageType, Message, ◌is◌}
use computer_systems_assignm.Message.Validity.{IsAccepted}
use computer_systems_assignm.Serialization.{encode, max_encoded_len}
use computer_systems_assignm.Serialization.RoundTrip.{is_quoted, decode-encode}
use computer_systems_assignm.Connection.State.{State, lift, modify_conn}
use computer_systems_assignm.Connection.Transactions.{on_exception}
use computer_systems_assignm.Connection.Handlers.{respond, call_response_function}
use computer_systems_assignm.Connection.Chat.{
  Read, line, c_string, Locals, handle_decoded, handle_text, chat_round, chat_loop, close_fd,
}
use computer_systems_assignm.Connection.Runs.{bind-ok, catch-ok, gets-ok}
use computer_systems_assignm.Connection.Login.{handle_decoded-login}
use computer_systems_assignm.Connection.Arithmetic.{answered_ok}

abbrev pub has_no_nul : Bytes → Bool
has_no_nul = all_of (λ c. not (c == 0))

pub c_string-has_no_nul : (text : Bytes) → has_no_nul text ≡ true → c_string text ≡ text
unfolding c_string
c_string-has_no_nul [] h = refl
c_string-has_no_nul (c ∷ text) h = ground (arith, c_string-has_no_nul text)

handle_decoded-request :
    (l : Locals) (s : State) {s' : State}
    → l.first_valid_message ≡ false
    → (l.client_msg.message_type is MessageType.login) ≡ false
    → respond l.client_msg.message_type l.client_msg s ≡ (ok tt, s')
    → handle_decoded l s ≡ (ok (record l { first_valid_message = false }), s')
unfolding handle_decoded call_response_function lift
handle_decoded-request l s first login e =
    rw (login, first) (bind-ok _ _ (catch-ok _ on_exception e))

-- A request that a client may send: its arguments are words, and it fits into a line.
pub record IsRequest (m : Message) (text : Bytes) : Type 0 where
  pub encoded : encode m ≡ ok text
  pub words : All IsWord m.args
  pub conforms : IsAccepted m
  pub no_text : is_quoted m.message_type ≡ false
  pub no_nul : has_no_nul text ≡ true
  pub short : length text < max_encoded_len

module _ (m : Message) (text : Bytes) (r : IsRequest m text) (l : Locals) (s : State) where
  chat_round-IsRequest : chat_round (line text) l s ≡ handle_decoded (record l { client_msg = m }) s
  unfolding chat_round handle_text
  chat_round-IsRequest =
      rw
        (
          lt→ltb (length text) max_encoded_len r.short,
          c_string-has_no_nul text r.no_nul,
          decode-encode m l.client_msg text r.words r.no_text r.conforms r.encoded,
        )
        refl

  chat_loop-running :
      (reads : List Read) {l' : Locals} {s' : State}
      → s.conn.loop_in_progress ≡ true
      → handle_decoded (record l { client_msg = m }) s ≡ (ok l', s')
      → chat_loop (line text ∷ reads) l s ≡ chat_loop reads l' s'
  unfolding chat_loop
  chat_loop-running reads running e =
      gets-ok (λ r. r.conn.loop_in_progress) _ running ∙ bind-ok _ _ (chat_round-IsRequest ∙ e)

  -- A line with LOGIN.
  pub chat_loop-login :
      (reads : List Read)
      → s.conn.loop_in_progress ≡ true
      → (m.message_type is MessageType.login) ≡ true
      → chat_loop (line text ∷ reads) l s
        ≡ chat_loop reads (record { first_valid_message = false; client_msg = m }) (answered_ok s)
  chat_loop-login reads running login =
      chat_loop-running reads running (handle_decoded-login (record l { client_msg = m }) s login)

  -- A line with another request, which is answered.
  pub chat_loop-request :
      (reads : List Read) (s' : State)
      → s.conn.loop_in_progress ≡ true
      → l.first_valid_message ≡ false
      → (m.message_type is MessageType.login) ≡ false
      → respond m.message_type m s ≡ (ok tt, s')
      → chat_loop (line text ∷ reads) l s
        ≡ chat_loop reads (record { first_valid_message = false; client_msg = m }) s'
  chat_loop-request reads s' running first login e =
      chat_loop-running reads running
        (handle_decoded-request (record l { client_msg = m }) s first login e)

-- The loop has been left.
pub chat_loop-end :
    (reads : List Read) (l : Locals) (s : State)
    → s.conn.loop_in_progress ≡ false
    → chat_loop reads l s ≡ (ok tt, record s { conn = record (s.conn) { closed = true } })
unfolding chat_loop close_fd modify_conn
chat_loop-end [] l s left = gets-ok (λ r. r.conn.loop_in_progress) _ left
chat_loop-end (r ∷ reads) l s left = gets-ok (λ r. r.conn.loop_in_progress) _ left
