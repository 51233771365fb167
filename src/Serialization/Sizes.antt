-- ===== src/Serialization/Sizes.antt =====
-- How long the value of a PUSH is, by the length of its line.
use computer_systems_assignm.Prelude.{
  ℕ, zero, suc, ◌+◌, ◌≤◌, ◌≡◌, ◌≢◌, refl, sym, ◌∙◌, ap, Bool, Bool-cases, inl, inr, true, false,
  List, [], ◌∷◌, ◌++◌, Option, none, some, arith, length, All, is_nil, if◌then◌else◌, ◌==◌,
}
use computer_systems_assignm.Exceptions.{Outcome, ok, throw, blocked, undefined, ◌>>=◌}
use computer_systems_assignm.Text.{
  Bytes, codes, bytes_eq, bytes_eq_iff, newline, is_space, skip_space, take_word, drop_word,
  getline,
}
use computer_systems_assignm.Message.{
  MessageType, Message, message, ◌is◌, enum_value, push_arg, clear_args, set_message_type, is_valid,
}
use computer_systems_assignm.Serialization.Total.{Extracted, extract_args-Extracted}
use computer_systems_assignm.Serialization.{
  decode, decode_text, decode_typed, decode_args, check_message_size, check_newline, extract_args,
  extract_words, extract_single_word_args, require_valid, word_type, not_valid,
}

length-word : (s : Bytes) → length (take_word s) + length (drop_word s) ≡ length s
unfolding take_word drop_word
length-word [] = refl
length-word (c ∷ s) = elim (Bool-cases (is_space c)) [
  | inl e ↦ rw e (omega arith)
  | inr e ↦ rw e (omega (arith, length-word s))
]

length-skip_space : (s : Bytes) → length (skip_space s) ≤ length s
unfolding skip_space
length-skip_space [] = omega arith
length-skip_space (c ∷ s) = elim (Bool-cases (is_space c)) [
  | inl e ↦ rw e (omega (arith, length-skip_space s))
  | inr e ↦ rw e (omega arith)
]

-- What follows a word: nothing, or a blank and more.
abbrev IsSpaced : Bytes → Type 0
IsSpaced [] = Unit
IsSpaced (c ∷ s) = is_space c ≡ true

drop_word-IsSpaced : (s : Bytes) → IsSpaced (drop_word s)
unfolding drop_word
drop_word-IsSpaced [] = tt
drop_word-IsSpaced (c ∷ s) = elim (Bool-cases (is_space c)) [
  | inl e ↦ rw e e
  | inr e ↦ rw e (drop_word-IsSpaced s)
]

getline-IsSpaced : (s : Bytes) → IsSpaced s → IsSpaced (getline s)
unfolding getline
getline-IsSpaced [] h = tt
getline-IsSpaced (c ∷ s) h = elim (Bool-cases (c == newline)) [ inl e ↦ rw e tt | inr e ↦ rw e h ]

length-getline : (s : Bytes) → length (getline s) ≤ length s
unfolding getline
length-getline [] = omega arith
length-getline (c ∷ s) = elim (Bool-cases (c == newline)) [
  | inl e ↦ rw e (omega arith)
  | inr e ↦ rw e (omega (arith, length-getline s))
]

-- The blank in front of the next word.
length-next :
    (s : Bytes) → IsSpaced s → is_nil (skip_space s) ≡ false → length (skip_space s) + 1 ≤ length s
unfolding skip_space
length-next [] h e = ground arith
length-next (c ∷ s) h e = rw h (omega (arith, length-skip_space s))

-- Arguments with a blank each, of at most `n` bytes.
abbrev HasRoom : ℕ → Message → Type 0
HasRoom n m = All (λ a. length a + 1 ≤ n) m.args

HasRoom-push_arg :
    (n : ℕ) (args : List Bytes) (a : Bytes)
    → All (λ b. length b + 1 ≤ n) args
    → length a + 1 ≤ n
    → All (λ b. length b + 1 ≤ n) (args ++ a ∷ [])
HasRoom-push_arg n [] a h k = (k, tt)
HasRoom-push_arg n (b ∷ args) a h k = (h.0, HasRoom-push_arg n args a h.1 k)

extract_words-HasRoom :
    (n fuel : ℕ) (m : Message) (s : Bytes)
    → HasRoom n m
    → IsSpaced s
    → length s ≤ n
    → HasRoom n (extract_words fuel m s)
unfolding extract_words push_arg
extract_words-HasRoom n zero m s h sp l = h
extract_words-HasRoom n (suc f) m s h sp l = elim (Bool-cases (is_nil (skip_space s))) [
  | inl e ↦ rw e h
  | inr e ↦ rw e (
      extract_words-HasRoom n f _ (drop_word (skip_space s))
        (HasRoom-push_arg n m.args _ h
          (omega (arith, length-next s sp e, length-word (skip_space s), l)))
        (drop_word-IsSpaced (skip_space s))
        (omega (arith, length-next s sp e, length-word (skip_space s), l)))
]

-- The value of a PUSH, behind the word and a blank.
abbrev pub IsSized : ℕ → Outcome Message → Type 0
IsSized n (ok m) = m.message_type ≡ MessageType.push → All (λ a. length a + 5 ≤ n) m.args
IsSized n o = Unit

require_valid-IsSized : (n : ℕ) (m : Message) → IsSized n (ok m) → IsSized n (require_valid m)
unfolding require_valid
require_valid-IsSized n m h = by_answer (is_valid m)
  where
    by_answer :
        (o : Outcome Bool) → IsSized n (o >>= λ valid. if valid then ok m else throw not_valid)
    by_answer (ok true) = h
    by_answer (ok false) = tt
    by_answer (throw e) = tt
    by_answer blocked = tt
    by_answer undefined = tt

other_IsSized :
    (n : ℕ) (t : MessageType) (o : Outcome Message)
    → t ≢ MessageType.push
    → Extracted t o
    → IsSized n (o >>= require_valid)
other_IsSized n t (ok m) other h = require_valid-IsSized n m (λ e. absurd (other (sym h.0 ∙ e)))
other_IsSized n t (throw e) other h = tt
other_IsSized n t blocked other h = tt
other_IsSized n t undefined other h = tt

HasRoom-IsSized :
    (k n : ℕ) (args : List Bytes)
    → k + 4 ≤ n
    → All (λ a. length a + 1 ≤ k) args
    → All (λ a. length a + 5 ≤ n) args
HasRoom-IsSized k n [] h r = tt
HasRoom-IsSized k n (a ∷ args) h r = (omega (arith, h, r.0), HasRoom-IsSized k n args h r.1)

args-IsSized :
    (n : ℕ) (t : MessageType) (m₀ : Message) (s : Bytes)
    → (t ≡ MessageType.push → length s + 4 ≤ n)
    → IsSpaced s
    → IsSized n (decode_args m₀ t s)
unfolding decode_args set_message_type clear_args extract_args extract_single_word_args ◌is◌
    enum_value
args-IsSized n MessageType.push m₀ s l sp = require_valid-IsSized n _ (λ e.
    HasRoom-IsSized (length s) n _ (l refl) (
      extract_words-HasRoom (length s) (length s) (message MessageType.push []) s tt sp
        (omega arith)))
args-IsSized n t m₀ s l sp =
    other_IsSized n t (extract_args (message t []) s) (λ e. ground arith)
      (extract_args-Extracted t s)

push_word : (w : Bytes) → word_type w ≡ some MessageType.push → length w ≡ 4
unfolding word_type
push_word w h =
    let same : bytes_eq w (codes "PUSH") ≡ true = ground arith in
    ap length ((bytes_eq_iff w (codes "PUSH")).0 same)

typed_IsSized :
    (n : ℕ) (o : Option MessageType) (m₀ : Message) (s : Bytes)
    → (o ≡ some MessageType.push → length s + 4 ≤ n)
    → IsSpaced s
    → IsSized n (decode_typed o m₀ s)
unfolding decode_typed
typed_IsSized n none m₀ s l sp = tt
typed_IsSized n (some t) m₀ s l sp = args-IsSized n t m₀ s (λ e. l (ap some e)) sp

decode_text-IsSized : (s : Bytes) (m₀ : Message) → IsSized (length s) (decode_text s m₀)
unfolding decode_text
decode_text-IsSized s m₀ =
    let text = skip_space s in
    typed_IsSized (length s) (word_type (take_word text)) m₀ (getline (drop_word text))
      (λ e. omega (
        arith,
        push_word (take_word text) e,
        length-word text,
        length-skip_space s,
        length-getline (drop_word text),
      ))
      (getline-IsSpaced (drop_word text) (drop_word-IsSpaced text))

then_IsSized :
    (n : ℕ) (o : Outcome (Unit {0})) (r : Outcome Message) → IsSized n r → IsSized n (o >>= λ _. r)
then_IsSized n (ok a) r h = h
then_IsSized n (throw e) r h = tt
then_IsSized n blocked r h = tt
then_IsSized n undefined r h = tt

-- The value of a PUSH that decode gives is at least five bytes shorter than the text.
pub decode-IsSized : (s : Bytes) (m₀ : Message) → IsSized (length s) (decode s m₀)
unfolding decode
decode-IsSized s m₀ =
    then_IsSized _ (check_message_size s) _
      (then_IsSized _ (check_newline s) _ (decode_text-IsSized s m₀))
