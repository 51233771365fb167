-- ===== src/Serialization/Quoted.antt =====
-- The text of FAILED and ERROR: `decode` wants quotation marks, `encode` writes none.
use computer_systems_assignm.Prelude.{
  ℕ, suc, ◌<◌, ◌≤◌, ◌≡◌, ◌≢◌, refl, ap, sym, ◌∙◌, true, List, [], ◌∷◌, ◌++◌, append_assoc, none,
  some, arith, length, take, length-append, All,
}
use computer_systems_assignm.Exceptions.{ok, throw}
use computer_systems_assignm.Text.{Bytes, newline, space, getline, find_first_of, find_last_of}
use computer_systems_assignm.Text.Words.{
  spaced, IsWord, IsBreak-spaced-newline, HasNoNewline, getline-append, is_space-space,
}
use computer_systems_assignm.Message.{
  MessageType, Message, message, push_arg, clear_args, set_message_type,
}
use computer_systems_assignm.Message.Validity.{is_valid-iff-IsAccepted}
use computer_systems_assignm.Serialization.{
  push_quoted, check_message_size, encode, decode, decode_args, extract_args,
  extract_quoted_text_arg, require_valid, quote, quoted_length, substr, no_quotation, word_type,
  max_encoded_len,
}
use computer_systems_assignm.Serialization.RoundTrip.{
  encode_lem, is_quoted, is_quoted-IsAccepted, decode-text, decode_text-append,
}

abbrev pub HasNoQuote : Bytes → Type 0
HasNoQuote = All (λ c. c ≢ quote)

getline-HasNoQuote : (s : Bytes) → HasNoQuote s → HasNoQuote (getline s)
unfolding getline
getline-HasNoQuote [] h = tt
getline-HasNoQuote (c ∷ s) h = ground (arith, getline-HasNoQuote s h.1)

HasNoQuote-append : (s t : Bytes) → HasNoQuote s → HasNoQuote t → HasNoQuote (s ++ t)
HasNoQuote-append [] t h k = k
HasNoQuote-append (c ∷ s) t h k = (h.0, HasNoQuote-append s t h.1 k)

HasNoQuote-spaced : (args : List Bytes) → All HasNoQuote args → HasNoQuote (spaced args)
HasNoQuote-spaced [] h = tt
HasNoQuote-spaced (a ∷ args) h =
    (omega arith, HasNoQuote-append a (spaced args) h.0 (HasNoQuote-spaced args h.1))

find_first_of-HasNoQuote : (s : Bytes) → HasNoQuote s → find_first_of quote s ≡ none
unfolding find_first_of
find_first_of-HasNoQuote [] h = refl
find_first_of-HasNoQuote (c ∷ s) h = ground (arith, find_first_of-HasNoQuote s h.1)

extract-HasNoQuote :
    (m : Message) (s : Bytes) → HasNoQuote s → extract_quoted_text_arg m s ≡ throw no_quotation
unfolding extract_quoted_text_arg push_quoted
extract-HasNoQuote m s h = rw (find_first_of-HasNoQuote s h)

decode_args-HasNoQuote :
    (t : MessageType) (m₀ : Message) (s : Bytes)
    → is_quoted t ≡ true
    → HasNoQuote s
    → decode_args m₀ t s ≡ throw no_quotation
unfolding decode_args extract_args clear_args set_message_type
decode_args-HasNoQuote t m₀ s q h = rw (q, extract-HasNoQuote _ s h)

-- A FAILED or ERROR message that `encode` accepts, with no quotation mark in its text, is refused by
-- `decode`: `encode` does not write the quotation marks that `decode` looks for.
pub decode-encode_quoted :
    (m m₀ : Message) (s : Bytes)
    → is_quoted m.message_type ≡ true
    → All HasNoQuote m.args
    → encode m ≡ ok s
    → decode s m₀ ≡ throw no_quotation
decode-encode_quoted m m₀ s q h e =
    let (w, hw, named, text, fits) = encode_lem m e in
    let rest = spaced m.args ++ newline ∷ [] in
    decode-text s (w ++ spaced m.args) m₀ fits
      (text ∙ sym (append_assoc w (spaced m.args) (newline ∷ [])))
    ∙ rw
        (text, decode_text-append w rest m.message_type m₀ hw (IsBreak-spaced-newline m.args) named)
        (decode_args-HasNoQuote m.message_type m₀ (getline rest) q (
          getline-HasNoQuote rest (
            HasNoQuote-append (spaced m.args) (newline ∷ []) (HasNoQuote-spaced m.args h)
              (omega arith))))

check_fits : (s : Bytes) → length s ≤ max_encoded_len → check_message_size s ≡ ok tt
unfolding check_message_size
check_fits s h = ground arith

-- What the protocol asks for: a blank, and the text between quotation marks.
abbrev pub quoted : Bytes → Bytes
quoted text = space ∷ quote ∷ (text ++ quote ∷ [])

find_last_of-append : (s : Bytes) → find_last_of quote (s ++ quote ∷ []) ≡ some (length s)
unfolding find_last_of
find_last_of-append [] = refl
find_last_of-append (c ∷ s) = ground (arith, find_last_of-append s)

find_last_of-quoted :
    (text : Bytes) → find_last_of quote (quoted text) ≡ some (suc (suc (length text)))
unfolding find_last_of
find_last_of-quoted text = ground (arith, find_last_of-append text)

find_first_of-quoted : (text : Bytes) → find_first_of quote (quoted text) ≡ some 1
unfolding find_first_of
find_first_of-quoted text = refl

take-length_append : (s t : Bytes) → take (length s) (s ++ t) ≡ s
take-length_append [] t = refl
take-length_append (c ∷ s) t = ap (◌∷◌ c) (take-length_append s t)

quoted_length-quoted : (n : ℕ) → n < 1024 → quoted_length 1 (suc (suc n)) ≡ n
quoted_length-quoted n h = omega arith

substr-quoted : (text : Bytes) → substr (quoted text) 2 (length text) ≡ ok text
unfolding substr
substr-quoted text = rw (take-length_append text (quote ∷ [])) (ground arith)

extract-quoted :
    (m : Message) (text : Bytes)
    → length text < 1024
    → extract_quoted_text_arg m (quoted text) ≡ ok (push_arg m text)
unfolding extract_quoted_text_arg push_quoted
extract-quoted m text fits = rw (
  find_first_of-quoted text,
  find_last_of-quoted text,
  quoted_length-quoted (length text) fits,
  substr-quoted text,
)

decode_args-quoted :
    (t : MessageType) (m₀ : Message) (text : Bytes)
    → is_quoted t ≡ true
    → length text < 1024
    → decode_args m₀ t (quoted text) ≡ ok (message t (text ∷ []))
unfolding decode_args extract_args require_valid clear_args set_message_type push_arg
decode_args-quoted t m₀ text q fits = rw (
  q,
  extract-quoted (message t []) text fits,
  (is_valid-iff-IsAccepted (message t (text ∷ []))).1 (is_quoted-IsAccepted t (text ∷ []) q),
)

HasNoNewline-quoted : (text : Bytes) → HasNoNewline text → HasNoNewline (quoted text)
HasNoNewline-quoted text h = (omega arith, (omega arith, behind text h))
  where
    behind : (s : Bytes) → HasNoNewline s → HasNoNewline (s ++ quote ∷ [])
    behind [] k = (omega arith, tt)
    behind (c ∷ s) k = (k.0, behind s k.1)

-- A quoted text in one line is decoded to a FAILED or ERROR message with the text as its argument,
-- quotation marks inside the text included.
pub decode-quoted :
    (t : MessageType) (w text : Bytes) (m₀ : Message)
    → is_quoted t ≡ true
    → IsWord w
    → word_type w ≡ some t
    → HasNoNewline text
    → length (w ++ (quoted text ++ newline ∷ [])) ≤ max_encoded_len
    → decode (w ++ (quoted text ++ newline ∷ [])) m₀ ≡ ok (message t (text ∷ []))
decode-quoted t w text m₀ q hw named line fits =
    let s = w ++ (quoted text ++ newline ∷ []) in
    decode-text s (w ++ quoted text) m₀ (check_fits s fits)
      (sym (append_assoc w (quoted text) (newline ∷ [])))
    ∙ decode_text-append w (quoted text ++ newline ∷ []) t m₀ hw is_space-space named
    ∙ ap (decode_args m₀ t) (getline-append (quoted text) [] (HasNoNewline-quoted text line))
    ∙ decode_args-quoted t m₀ text q (
        omega (
          arith,
          length-append w (quoted text ++ newline ∷ []),
          length-append text (quote ∷ []),
          length-append (text ++ quote ∷ []) (newline ∷ []),
        ))
