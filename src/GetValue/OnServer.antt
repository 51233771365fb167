-- ===== src/GetValue/OnServer.antt =====
-- What the server does for the client get_value, and what get_value makes of the answers.
use computer_systems_assignm.Prelude.{
  ap, length, ◌<◌, ℕ, ◌≡◌, refl, ◌∙◌, true, List, [], ◌∷◌, ◌++◌, Option, none, some, arith,
}
use computer_systems_assignm.Exceptions.{ok}
use computer_systems_assignm.Text.{Bytes, codes, newline}
use computer_systems_assignm.Message.{
  MessageType, Message, empty_message, message, ◌is◌, enum_value, get_arg,
}
use computer_systems_assignm.Serialization.{
  decode, encode, encode_as, type_word, append_args, check_message_size, max_encoded_len,
}
use computer_systems_assignm.Connection.Replies.Calls.{sized}
use computer_systems_assignm.Serialization.RoundTrip.{decode-encode}
use computer_systems_assignm.Table
use computer_systems_assignm.Table.{Table}
use computer_systems_assignm.Server
use computer_systems_assignm.Server.{Server}
use computer_systems_assignm.Connection.State.{connected, State}
use computer_systems_assignm.Connection.Chat.{line, c_string, chat_with_client}
use computer_systems_assignm.Connection.Handlers.{respond}
use computer_systems_assignm.Connection.Arithmetic.{with_stack, answered_ok}
use computer_systems_assignm.Connection.Single.{handle_top-run, handle_bye-run, answered}
use computer_systems_assignm.Connection.Values.Alone.{handle_get-alone}
use computer_systems_assignm.Connection.Rounds.{
  has_no_nul, IsRequest, c_string-has_no_nul, chat_loop-login, chat_loop-request, chat_loop-end,
}
use computer_systems_assignm.Client.{Socket}
use computer_systems_assignm.Client.Answers.{lines, Requests, texts, Conversation-ok_replies}
use computer_systems_assignm.GetValue.{get_value}
use computer_systems_assignm.GetValue.Session.{before_top, after_top, get_value-Session}
use computer_systems_assignm.SetValue.OnServer.{left}

-- The line with which TOP is answered.
abbrev pub data_line : Bytes → Bytes
data_line value = codes "DATA " ++ value ++ newline ∷ []

-- The line that PUSH of the value was sent in.
push_line :
    (value text : Bytes)
    → encode (message MessageType.push (value ∷ [])) ≡ ok text
    → text ≡ codes "PUSH " ++ value ++ newline ∷ []
unfolding encode encode_as type_word append_args
push_line value text e = (sized (codes "PUSH " ++ value ++ newline ∷ []) text e).1

short_line : (text : Bytes) → length text < max_encoded_len → check_message_size text ≡ ok tt
unfolding check_message_size
short_line text h = ground arith

-- A value that fits into a line with PUSH fits into one with DATA.
pub data_line-IsRequest :
    (value text : Bytes)
    → IsRequest (message MessageType.push (value ∷ [])) text
    → IsRequest (message MessageType.data_msg (value ∷ [])) (data_line value)
unfolding encode encode_as type_word append_args ◌is◌ enum_value
data_line-IsRequest value text r =
    let same : text ≡ codes "PUSH " ++ value ++ newline ∷ [] = push_line value text r.encoded in
    let short : length (data_line value) < max_encoded_len =
      omega (arith, r.short, ap length same) in
    record {
      encoded = rw (short_line (data_line value) short) refl;
      words = r.words;
      conforms = tt;
      no_text = refl;
      no_nul = ground (arith, r.no_nul, ap has_no_nul same);
      short = short;
    }

-- What get_value is answered.
abbrev pub answers : Bytes → List Bytes
answers data_text =
    (codes "OK" ++ newline ∷ [])
    ∷ (codes "OK" ++ newline ∷ [])
    ∷ data_text
    ∷ (codes "OK" ++ newline ∷ [])
    ∷ []

-- What get_value requests.
abbrev pub get_session : Bytes → Bytes → Bytes → List Message
get_session name key username =
    message MessageType.login (username ∷ [])
    ∷ message MessageType.get (name ∷ key ∷ [])
    ∷ message MessageType.top []
    ∷ message MessageType.bye []
    ∷ []

module _ (server : Server) (tables : ℕ → Option Table) (next p : ℕ) (t : Table)
    (name key value : Bytes) (found : Server.find_table name server ≡ some p)
    (there : tables p ≡ some t) (free : t.mutex ≡ none) where
  pub get_served :
      (client : ℕ) (username data_text : Bytes) (r : Requests (get_session name key username))
      → Table.has_key key t ≡ true
      → Table.get key t ≡ ok value
      → IsRequest (message MessageType.data_msg (value ∷ [])) data_text
      → let s = connected server tables next client in
        chat_with_client (lines (texts (get_session name key username) r)) s
        ≡ (ok tt, left (with_stack s (value ∷ [])) (answers data_text))
  unfolding chat_with_client respond ◌is◌ enum_value
  get_served client username data_text (login, rl, (get, rg, (top, rt, (bye, rb, _)))) has got
        reply =
      let s : State = connected server tables next client in
      let s1 : State = answered_ok s in
      let s2 : State = answered_ok (with_stack s1 (value ∷ [])) in
      chat_loop-login _ login rl _ s _ refl refl
      ∙ chat_loop-request _ get rg _ s1 _ s2 refl refl refl
          (handle_get-alone s1 p t name key found there value refl free has got)
      ∙ chat_loop-request _ top rt _ s2 _ (answered s2 data_text) refl refl refl
          (handle_top-run s2 value data_text [] refl reply.encoded)
      ∙ chat_loop-request _ bye rb _ _ _ _ refl refl refl (handle_bye-run _)
      ∙ chat_loop-end [] _ _ refl

  decoded_reply :
      (data_text : Bytes)
      → IsRequest (message MessageType.data_msg (value ∷ [])) data_text
      → decode (c_string data_text) empty_message ≡ ok (message MessageType.data_msg (value ∷ []))
  decoded_reply data_text reply = rw (c_string-has_no_nul data_text reply.no_nul) (
      decode-encode (message MessageType.data_msg (value ∷ [])) empty_message data_text reply.words
        reply.no_text reply.conforms reply.encoded)

  pub get_value-run :
      (username data_text : Bytes) (r : Requests (get_session name key username))
      → IsRequest (message MessageType.data_msg (value ∷ [])) data_text
      → get_value username name key
          (record { replies = lines (answers data_text); sent = []; printed = [] })
        ≡ (
          ok 0,
          record {
            replies = [];
            sent = texts (get_session name key username) r;
            printed = value ∷ [];
          },
        )
  get_value-run username data_text (login, rl, (get, rg, (top, rt, (bye, rb, none_left)))) reply =
      let asked : Socket = record {
        replies = line data_text ∷ line (codes "OK" ++ newline ∷ []) ∷ [];
        sent = login ∷ get ∷ [];
        printed = [];
      } in
      let read : Socket = record {
        replies = line (codes "OK" ++ newline ∷ []) ∷ [];
        sent = login ∷ get ∷ top ∷ [];
        printed = [];
      } in
      let printed : Socket = record read { printed = value ∷ [] } in
      (get_value-Session username name key _ _).1 (
        asked,
        printed,
        Conversation-ok_replies (before_top username name key) (login, rl, (get, rg, none_left))
            asked.replies [] [],
        record {
          buf = data_text;
          read = read;
          exchanged = record {
            text = top;
            encoded = rt.encoded;
            written = refl;
            taken = refl;
            same = refl;
          };
          response = message MessageType.data_msg (value ∷ []);
          decoded = decoded_reply data_text reply;
          is_value = refl;
          value = value;
          argument = unfold get_arg in refl;
          result = refl;
        },
        Conversation-ok_replies after_top (bye, rb, none_left) [] (login ∷ get ∷ top ∷ [])
            (value ∷ []),
      )
