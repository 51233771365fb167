-- ===== src/Serialization/RoundTrip.antt =====
-- decode after encode, encode_as, for the messages whose arguments travel as words.
use computer_systems_assignm.Prelude.{
  ℕ, zero, suc, ◌≤◌, ◌≡◌, ◌≢◌, refl, Bool, ap, sym, ◌∙◌, false, true, not, all_of, ◌||◌, List, [],
  ◌∷◌, ◌++◌, append_assoc, append-nil, Option, none, some, arith, length, length-append, All,
  last?-append_one,
}
use computer_systems_assignm.Exceptions.{ok}
use computer_systems_assignm.Text.{Bytes, newline, space, is_space, bytes_eq, getline}
use computer_systems_assignm.Text.Words.{
  IsWord, IsBreak, HasNoSpace, spaced, skip_space-word, skip_space-blank, skip_space-nil,
  take_word-append, drop_word-append, is_nil-word, IsBreak-spaced, IsBreak-spaced-newline,
  getline-append, HasNoNewline-spaced,
}
use computer_systems_assignm.Message.{
  MessageType, ◌is◌, Message, message, push_arg, clear_args, set_message_type,
}
use computer_systems_assignm.Message.Validity.{IsAccepted, is_valid-iff-IsAccepted}
use computer_systems_assignm.Serialization.{
  check_message_size, check_newline, type_word, word_type, append_args, encode, encode_as,
  extract_words, extract_single_word_args, extract_args, require_valid, decode_args, decode_typed,
  decode_text, decode,
}

pub append_args-spaced : (e : Bytes) (args : List Bytes) → append_args e args ≡ e ++ spaced args
unfolding append_args
append_args-spaced e [] = sym (append-nil e)
append_args-spaced e (a ∷ args) =
    append_args-spaced ((e ++ space ∷ []) ++ a) args ∙ simp append_assoc

extract_words-spaced :
    (fuel : ℕ) (msg : Message) (args : List Bytes)
    → All IsWord args
    → length (spaced args) ≤ fuel
    → extract_words fuel msg (spaced args) ≡ record msg { args = msg.args ++ args }
unfolding extract_words push_arg
extract_words-spaced zero msg [] h b = ap (message msg.message_type) (sym (append-nil msg.args))
extract_words-spaced (suc f) msg [] h b =
    rw skip_space-nil (ap (message msg.message_type) (sym (append-nil msg.args)))
extract_words-spaced zero msg (a ∷ args) h b = absurd (omega arith)
extract_words-spaced (suc f) msg (a ∷ args) h b =
    rw
      (
        skip_space-blank,
        skip_space-word a (spaced args) h.0,
        is_nil-word a (spaced args) h.0,
        take_word-append a (spaced args) h.0.1 (IsBreak-spaced args),
        drop_word-append a (spaced args) h.0.1 (IsBreak-spaced args),
        extract_words-spaced f (push_arg msg a) args h.1
            (omega (arith, length-append a (spaced args))),
      )
      (ap (message msg.message_type) (append_assoc msg.args (a ∷ []) args))

no_space : (w : Bytes) → all_of (λ c. not (is_space c)) w ≡ true → HasNoSpace w
no_space [] h = tt
no_space (c ∷ w) h = ground (arith, no_space w)

-- `w` is one word, and the tests of `decode` find the type `t` in it.
abbrev Names : MessageType → Option Bytes → Type 0
Names t none = Unit
Names t (some w) = (w ≢ []) × (all_of (λ c. not (is_space c)) w ≡ true) × (word_type w ≡ some t)

type_word-Names : (t : MessageType) → Names t (type_word t)
unfolding type_word word_type bytes_eq is_space
type_word-Names MessageType.none = tt
type_word-Names MessageType.ok = (cc, refl, refl)
type_word-Names _ = (cc, refl, refl)

-- The text of a message: its first word, the arguments behind blanks, and a newline.
pub encode_lem :
    (m : Message) {s : Bytes}
    → encode m ≡ ok s
    → (w : Bytes) × IsWord w
      × (word_type w ≡ some m.message_type)
      × (s ≡ w ++ (spaced m.args ++ newline ∷ []))
      × (check_message_size s ≡ ok tt)
unfolding encode encode_as
encode_lem m {s} h = go (type_word m.message_type) refl (type_word-Names m.message_type)
  where
    go :
        (o : Option Bytes)
        → type_word m.message_type ≡ o
        → Names m.message_type o
        → (w : Bytes) × IsWord w
          × (word_type w ≡ some m.message_type)
          × (s ≡ w ++ (spaced m.args ++ newline ∷ []))
          × (check_message_size s ≡ ok tt)
    go none e n = absurd (ground arith)
    go (some w) e n = (
      w,
      (n.0, no_space w n.1),
      n.2,
      ground (arith, append_args-spaced w m.args, append_assoc w (spaced m.args) (newline ∷ [])),
      ground arith,
    )

check_newline-append : (s : Bytes) → check_newline (s ++ newline ∷ []) ≡ ok tt
unfolding check_newline
check_newline-append s = rw (last?-append_one s newline, check_newline)

-- The first word and the rest of the line, as `decode` splits the text.
pub decode_text-append :
    (w rest : Bytes) (t : MessageType) (m₀ : Message)
    → IsWord w
    → IsBreak rest
    → word_type w ≡ some t
    → decode_text (w ++ rest) m₀ ≡ decode_args m₀ t (getline rest)
unfolding decode_text decode_typed
decode_text-append w rest t m₀ hw b e =
    rw
      (skip_space-word w rest hw, take_word-append w rest hw.1 b, drop_word-append w rest hw.1 b, e)

-- The types whose argument travels between quotation marks.
abbrev pub is_quoted : MessageType → Bool
is_quoted t = t is MessageType.failed || t is MessageType.error

pub is_quoted-IsAccepted :
    (t : MessageType) (args : List Bytes) → is_quoted t ≡ true → IsAccepted (message t args)
unfolding ◌is◌
is_quoted-IsAccepted MessageType.failed args q = tt
is_quoted-IsAccepted MessageType.error args q = tt
is_quoted-IsAccepted _ args q = cc

extract_args-spaced :
    (m : Message)
    → All IsWord m.args
    → is_quoted m.message_type ≡ false
    → extract_args (message m.message_type []) (spaced m.args) ≡ ok m
unfolding extract_args extract_single_word_args
extract_args-spaced m h q = rw (
  q,
  extract_words-spaced (length (spaced m.args)) (message m.message_type []) m.args h (omega arith),
)

decode_args-spaced :
    (m m₀ : Message)
    → All IsWord m.args
    → is_quoted m.message_type ≡ false
    → IsAccepted m
    → decode_args m₀ m.message_type (spaced m.args) ≡ ok m
unfolding decode_args require_valid clear_args set_message_type
decode_args-spaced m m₀ h q v = rw (extract_args-spaced m h q, (is_valid-iff-IsAccepted m).1 v)

-- Decoding starts with two checks that a text made by `encode` passes.
pub decode-text :
    (s m : Bytes) (m₀ : Message)
    → check_message_size s ≡ ok tt
    → s ≡ m ++ newline ∷ []
    → decode s m₀ ≡ decode_text s m₀
unfolding decode
decode-text s m m₀ fits e = rw (fits, e, check_newline-append m)

-- A message that is_valid accepts and that carries words is decoded to itself, whatever message the
-- result is written over.
pub decode-encode :
    (m m₀ : Message) (s : Bytes)
    → All IsWord m.args
    → is_quoted m.message_type ≡ false
    → IsAccepted m
    → encode m ≡ ok s
    → decode s m₀ ≡ ok m
decode-encode m m₀ s h q v e =
    let (w, hw, named, text, fits) = encode_lem m e in
    let rest = spaced m.args ++ newline ∷ [] in
    decode-text s (w ++ spaced m.args) m₀ fits
      (text ∙ sym (append_assoc w (spaced m.args) (newline ∷ [])))
    ∙ rw
        (
          text,
          decode_text-append w rest m.message_type m₀ hw (IsBreak-spaced-newline m.args) named,
          getline-append (spaced m.args) [] (HasNoNewline-spaced m.args h),
        )
        (decode_args-spaced m m₀ h q v)
