-- ===== src/Client/Answers.antt =====
-- Clients whose requests are all accepted: the texts of the requests, and the answers.
use mathlib.Core.Path.{subst}
use computer_systems_assignm.Prelude.{
  ◌≡◌, refl, sym, ap, List, [], ◌∷◌, ◌++◌, append_assoc, append-nil,
}
use computer_systems_assignm.Exceptions.{ok}
use computer_systems_assignm.Text.{Bytes, codes, newline}
use computer_systems_assignm.Message.{
  MessageType, Message, empty_message, message, ◌is◌, enum_value,
}
use computer_systems_assignm.Serialization.{
  encode, encode_as, type_word, append_args, check_message_size, decode,
}
use computer_systems_assignm.Serialization.RoundTrip.{decode-encode}
use computer_systems_assignm.Connection.Chat.{Read, line, c_string}
use computer_systems_assignm.Connection.Rounds.{IsRequest}
use computer_systems_assignm.Client.Conversation.{Conversation}

-- The lines that carry the texts.
abbrev pub lines : List Bytes → List Read
lines [] = []
lines (text ∷ texts) = line text ∷ lines texts

-- Messages that can be sent, each with its text.
abbrev pub Requests : List Message → Type 0
Requests [] = Unit
Requests (m ∷ ms) = (text : Bytes) × IsRequest m text × Requests ms

abbrev pub texts : (ms : List Message) → Requests ms → List Bytes
texts [] r = []
texts (m ∷ ms) (text, sent, r) = text ∷ texts ms r

-- The answer OK to each of the messages.
abbrev pub ok_texts : List Message → List Bytes
ok_texts [] = []
ok_texts (m ∷ ms) = (codes "OK" ++ newline ∷ []) ∷ ok_texts ms

ok_encoded : encode (message MessageType.ok []) ≡ ok (codes "OK" ++ newline ∷ [])
unfolding encode encode_as type_word append_args check_message_size
ok_encoded = refl

ok_decoded :
    decode (c_string (codes "OK" ++ newline ∷ [])) empty_message ≡ ok (message MessageType.ok [])
unfolding c_string ◌is◌ enum_value
ok_decoded = decode-encode (message MessageType.ok []) empty_message _ tt refl tt ok_encoded

-- The same lines, and what is read behind them.
abbrev pub ok_replies : List Message → List Read → List Read
ok_replies [] rest = rest
ok_replies (m ∷ ms) rest = line (codes "OK" ++ newline ∷ []) ∷ ok_replies ms rest

lines-ok_texts : (ms : List Message) → lines (ok_texts ms) ≡ ok_replies ms []
lines-ok_texts [] = refl
lines-ok_texts (m ∷ ms) =
    ap (λ (x : List Read). line (codes "OK" ++ newline ∷ []) ∷ x) (lines-ok_texts ms)

-- A client that reads OK after each of its requests.
pub Conversation-ok_replies :
    (ms : List Message) (r : Requests ms) (rest : List Read) (sent printed : List Bytes)
    → Conversation ms
        (record { replies = ok_replies ms rest; sent = sent; printed = printed })
        (record { replies = rest; sent = sent ++ texts ms r; printed = printed })
Conversation-ok_replies [] r rest sent printed =
    ap (λ (x : List Bytes). record { replies = rest; sent = x; printed = printed })
      (sym (append-nil sent))
Conversation-ok_replies (m ∷ ms) (text, request, r) rest sent printed = (
  record { replies = ok_replies ms rest; sent = sent ++ text ∷ []; printed = printed },
  record {
    buf = codes "OK" ++ newline ∷ [];
    exchanged = record {
      text = text;
      encoded = request.encoded;
      written = refl;
      taken = refl;
      same = refl;
    };
    response = message MessageType.ok [];
    decoded = ok_decoded;
    is_ok = refl;
  },
  subst
      (λ (x : List Bytes).
        Conversation ms
          (record { replies = ok_replies ms rest; sent = sent ++ text ∷ []; printed = printed })
          (record { replies = rest; sent = x; printed = printed }))
      (append_assoc sent (text ∷ []) (texts ms r))
      (Conversation-ok_replies ms r rest (sent ++ text ∷ []) printed),
)

pub Conversation-ok_texts :
    (ms : List Message) (r : Requests ms) (sent printed : List Bytes)
    → Conversation ms
        (record { replies = lines (ok_texts ms); sent = sent; printed = printed })
        (record { replies = []; sent = sent ++ texts ms r; printed = printed })
Conversation-ok_texts ms r sent printed =
    rw (lines-ok_texts ms) (Conversation-ok_replies ms r [] sent printed)
