-- ===== src/Serialization/Total.antt =====
-- What `decode` can come to, on any text.
use computer_systems_assignm.Prelude.{
  ◌≤◌, ℕ, zero, suc, ◌<◌, ◌≡◌, ◌≢◌, ◌⊎◌, inl, inr, refl, Bool, false, true, List, [], ◌∷◌, ◌++◌,
  Option, none, some, arith, length, All, is_nil, Bool-cases, Option-cases, sym, ap, ◌∙◌, ltb, take,
  drop,
}
use computer_systems_assignm.Exceptions.{Outcome, ok, throw, undefined, invalid_message, ◌>>=◌}
use mathlib.Core.Path.{subst}
use computer_systems_assignm.Text.{
  Bytes, is_space, skip_space, take_word, drop_word, find_first_of, getline,
}
use computer_systems_assignm.Text.Words.{IsWord, HasNoSpace}
use computer_systems_assignm.Message.{
  MessageType, Message, message, push_arg, clear_args, set_message_type, is_valid,
}
use computer_systems_assignm.Message.Validity.{
  IsAccepted, IsHigh, IsHighPush, is_valid-iff-IsAccepted, is_valid_total,
}
use computer_systems_assignm.Serialization.{
  check_message_size, check_newline, decode, decode_text, decode_typed, decode_args, extract_args,
  extract_words, extract_single_word_args, extract_quoted_text_arg, push_quoted, require_valid,
  quote, quoted_length, substr, word_type, too_long, no_newline,
}
use computer_systems_assignm.Serialization.RoundTrip.{is_quoted, is_quoted-IsAccepted}

-- A text of this length fits into a line behind FAILED.
abbrev pub max_what : ℕ
max_what = 1016

-- The text is PUSH and one word whose first byte is 128 or more: is_valid calls isspace on it.
abbrev pub IsHighText : Bytes → Type 0
IsHighText s =
    let text = skip_space s in
    (word_type (take_word text) ≡ some MessageType.push)
    × ((a : Bytes) × (extract_args (message MessageType.push []) (getline (drop_word text))
          ≡ ok (message MessageType.push (a ∷ [])))
        × IsHigh a)

-- A message that is_valid accepts, with one argument if its type is quoted and words for arguments if not; or the
-- exception InvalidMessage, whose text fits into an answer; or undefined behaviour, if `f`.
abbrev pub Decoded : Type 0 → Outcome Message → Type 0
Decoded f (Outcome.ok m) =
    IsAccepted m
    × (m.message_type ≢ MessageType.none)
    × (is_quoted m.message_type ≡ false → All IsWord m.args)
    × (is_quoted m.message_type ≡ true → (text : Bytes) × (m.args ≡ text ∷ []))
Decoded f (Outcome.throw (invalid_message what)) = length what ≤ max_what
Decoded f Outcome.undefined = f
Decoded f _ = ⊥

-- One argument for a quoted type, words for the others.
abbrev HasItsArgs : Message → Type 0
HasItsArgs m =
    ((is_quoted m.message_type ≡ true) × ((text : Bytes) × (m.args ≡ text ∷ [])))
    ⊎ ((is_quoted m.message_type ≡ false) × All IsWord m.args)

take_word-HasNoSpace : (s : Bytes) → HasNoSpace (take_word s)
unfolding take_word
take_word-HasNoSpace [] = tt
take_word-HasNoSpace (c ∷ s) = ground (arith, take_word-HasNoSpace s)

take_word-ne-nil : (c : ℕ) (s : Bytes) → is_space c ≡ false → take_word (c ∷ s) ≢ []
unfolding take_word
take_word-ne-nil c s e k = ground arith

take_word-IsWord : (s : Bytes) → is_nil (skip_space s) ≡ false → IsWord (take_word (skip_space s))
unfolding skip_space
take_word-IsWord [] h = cc
take_word-IsWord (c ∷ s) h = elim (Bool-cases (is_space c)) [
  | inl e ↦ rw e (take_word-IsWord s (rw e at h))
  | inr e ↦ rw e (take_word-ne-nil c s e, take_word-HasNoSpace (c ∷ s))
]

All-append_one :
    (args : List Bytes) (a : Bytes) → All IsWord args → IsWord a → All IsWord (args ++ a ∷ [])
All-append_one [] a h w = (w, tt)
All-append_one (b ∷ args) a h w = (h.0, All-append_one args a h.1 w)

extract_words-IsWord :
    (fuel : ℕ) (m : Message) (s : Bytes)
    → All IsWord m.args
    → All IsWord (extract_words fuel m s).args
unfolding extract_words push_arg
extract_words-IsWord zero m s h = h
extract_words-IsWord (suc f) m s h = elim (Bool-cases (is_nil (skip_space s))) [
  | inl e ↦ rw e h
  | inr e ↦ rw e (extract_words-IsWord f _ _ (All-append_one m.args _ h (take_word-IsWord s e)))
]

message_type-extract_words :
    (fuel : ℕ) (m : Message) (s : Bytes) → (extract_words fuel m s).message_type ≡ m.message_type
unfolding extract_words push_arg
message_type-extract_words zero m s = refl
message_type-extract_words (suc f) m s = ground (
  arith,
  message_type-extract_words f (push_arg m (take_word (skip_space s))) (drop_word (skip_space s)),
)

-- What the arguments may be before they are checked.
abbrev pub Extracted : MessageType → Outcome Message → Type 0
Extracted t (Outcome.ok m) = (m.message_type ≡ t) × HasItsArgs m
Extracted t (Outcome.throw (invalid_message what)) = length what ≤ max_what
Extracted t _ = ⊥

find_first_of-lt-length : (c : ℕ) (s : Bytes) (i : ℕ) → find_first_of c s ≡ some i → i < length s
unfolding find_first_of
find_first_of-lt-length c [] i h = cc
find_first_of-lt-length c (x ∷ s) i h = elim (Option-cases (find_first_of c s)) [
  | inl e ↦ ground arith
  | inr (j, e) ↦ ground (arith, find_first_of-lt-length c s j e)
]

push_quoted-Extracted :
    (m : Message) (s : Bytes) (i j : Option ℕ)
    → m.args ≡ []
    → is_quoted m.message_type ≡ true
    → ((k : ℕ) → i ≡ some k → k < length s)
    → Extracted m.message_type (push_quoted m s i j)
unfolding push_quoted substr push_arg
push_quoted-Extracted m s (some i) (some j) e q b =
    let start : ltb (length s) (suc i) ≡ false = ground (arith, b i refl) in
    let quoted : Bytes = take (quoted_length i j) (drop (suc i) s) in
    rw start (refl, inl (q, (quoted, ap (λ args. args ++ quoted ∷ []) e)))
push_quoted-Extracted m s (some i) none e q b = omega arith
push_quoted-Extracted m s none j e q b = omega arith

pub extract_args-Extracted :
    (t : MessageType) (s : Bytes) → Extracted t (extract_args (message t []) s)
unfolding extract_args extract_quoted_text_arg extract_single_word_args
extract_args-Extracted t s = elim (Bool-cases (is_quoted t)) [
  | inl q ↦
      rw q (push_quoted-Extracted (message t []) s _ _ refl q (find_first_of-lt-length quote s))
  | inr q ↦
      let same = message_type-extract_words (length s) (message t []) s in
      rw q (same, inr (ap is_quoted same ∙ q, extract_words-IsWord (length s) (message t []) s tt))
]

word_type-ne-none : (w : Bytes) (t : MessageType) → word_type w ≡ some t → t ≢ MessageType.none
unfolding word_type
word_type-ne-none w t h e = ground arith

words-ne-nil : (args : List Bytes) → All IsWord args → All (λ a. a ≢ []) args
words-ne-nil [] h = tt
words-ne-nil (a ∷ args) h = (h.0.0, words-ne-nil args h.1)

answer :
    (m : Message)
    → HasItsArgs m
    → ((b : Bool) × (is_valid m ≡ ok b)) ⊎ ((is_valid m ≡ undefined) × IsHighPush m)
answer m (inl (q, h)) =
    inl (true, (is_valid-iff-IsAccepted m).1 (is_quoted-IsAccepted m.message_type m.args q))
answer m (inr (q, h)) = is_valid_total m (words-ne-nil m.args h)

words_unless_quoted :
    (m : Message) → HasItsArgs m → is_quoted m.message_type ≡ false → All IsWord m.args
words_unless_quoted m (inl (q, h)) r = cc
words_unless_quoted m (inr (q, h)) r = h

text_if_quoted :
    (m : Message)
    → HasItsArgs m
    → is_quoted m.message_type ≡ true
    → (text : Bytes) × (m.args ≡ text ∷ [])
text_if_quoted m (inl (q, h)) r = h
text_if_quoted m (inr (q, h)) r = cc

module _ (f : Type 0) where
  require_valid-Decoded :
      (m : Message)
      → m.message_type ≢ MessageType.none
      → HasItsArgs m
      → (IsHighPush m → f)
      → Decoded f (require_valid m)
  unfolding require_valid
  require_valid-Decoded m typed h high = elim (answer m h) [
    | inl (true, e) ↦
        rw e ((is_valid-iff-IsAccepted m).0 e, typed, words_unless_quoted m h, text_if_quoted m h)
    | inl (false, e) ↦ rw e (omega arith)
    | inr (e, p) ↦ rw e (high p)
  ]

  bind-Decoded :
      (t : MessageType) (r : Outcome Message)
      → t ≢ MessageType.none
      → Extracted t r
      → ((m : Message) → r ≡ ok m → IsHighPush m → f)
      → Decoded f (r >>= require_valid)
  bind-Decoded t (Outcome.ok m) typed (e, h) high =
      require_valid-Decoded m (rw e typed) h (high m refl)
  bind-Decoded t (Outcome.throw (invalid_message w)) typed h high = h
  bind-Decoded t r typed h high = absurd h

pushed_text :
    (t : MessageType) (s : Bytes) (m : Message)
    → Extracted t (extract_args (message t []) s)
    → extract_args (message t []) s ≡ ok m
    → IsHighPush m
    → (t ≡ MessageType.push)
      × ((a : Bytes) × (extract_args (message MessageType.push []) s
            ≡ ok (message MessageType.push (a ∷ [])))
          × IsHigh a)
pushed_text t s m x e (typed, (a, args, high)) =
    let same : m.message_type ≡ t = (subst (Extracted t) e x).0 in
    let push : t ≡ MessageType.push = sym same ∙ typed in
    (
      push,
      (
        a,
        ap (λ u. extract_args (message u []) s) (sym push)
            ∙ e
            ∙ ap ok (ap (λ u. message u m.args) typed ∙ ap (message MessageType.push) args),
        high,
      ),
    )

decode_typed-Decoded :
    (f : Type 0) (o : Option MessageType) (m₀ : Message) (s : Bytes)
    → ((t : MessageType) → o ≡ some t → t ≢ MessageType.none)
    → ((o ≡ some MessageType.push)
          × ((a : Bytes) × (extract_args (message MessageType.push []) s
                ≡ ok (message MessageType.push (a ∷ [])))
              × IsHigh a)
        → f)
    → Decoded f (decode_typed o m₀ s)
unfolding decode_typed decode_args set_message_type clear_args
decode_typed-Decoded f none m₀ s typed high = omega arith
decode_typed-Decoded f (some t) m₀ s typed high =
    let x = extract_args-Extracted t s in
    bind-Decoded f t _ (typed t refl) x
      (λ m g p. let (push, rest) = pushed_text t s m x g p in high (ap some push, rest))

decode_text-Decoded : (s : Bytes) (m₀ : Message) → Decoded (IsHighText s) (decode_text s m₀)
unfolding decode_text
decode_text-Decoded s m₀ = decode_typed-Decoded (IsHighText s) _ m₀ _ (word_type-ne-none _) (λ h. h)

check_newline-cases :
    (s : Bytes) → s ≢ [] → (check_newline s ≡ ok tt) ⊎ (check_newline s ≡ throw no_newline)
unfolding check_newline
check_newline-cases [] h = absurd (h refl)
check_newline-cases (c ∷ []) h = ground arith
check_newline-cases (c ∷ d ∷ s) h = check_newline-cases (d ∷ s) cc

pub check_message_size-cases :
    (s : Bytes) → (check_message_size s ≡ ok tt) ⊎ (check_message_size s ≡ throw too_long)
unfolding check_message_size
check_message_size-cases s = ground arith

-- On any text but the empty one, `decode` gives a message that is_valid accepts and whose type is not NONE, with a
-- single argument if it is FAILED or ERROR and with words for arguments if not; or it throws InvalidMessage with a
-- text of at most 1016 bytes; or it is undefined, and this only if the text is PUSH with one word whose first byte
-- is 128 or more. It has no other exception.
pub decode-Decoded : (s : Bytes) (m₀ : Message) → s ≢ [] → Decoded (IsHighText s) (decode s m₀)
unfolding decode
decode-Decoded s m₀ h = elim (check_message_size-cases s) [
  | inl fits ↦ elim (check_newline-cases s h) [
    | inl ends ↦ rw (fits, ends) (decode_text-Decoded s m₀)
    | inr open_end ↦ rw (fits, open_end) (omega arith)
  ]
  | inr long ↦ rw long (omega arith)
]
