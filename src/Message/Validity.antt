-- ===== src/Message/Validity.antt =====
-- What Message::is_valid accepts, and when it throws or is undefined.
use computer_systems_assignm.Prelude.{
  ℕ, ◌≤◌, ◌≡◌, refl, ◌↔◌, ◌≢◌, Bool, true, false, ◌&&◌, not, List, [], ◌∷◌, arith, All, all_of, ltb,
  ◌⊎◌, inl, inr, Bool-cases,
}
use computer_systems_assignm.Exceptions.{ok, undefined}
use computer_systems_assignm.Text.{Bytes, is_space, skip_space}
use computer_systems_assignm.Message.{
  MessageType, Message, message, is_letter, is_identifier_char, is_valid_identifier, is_valid,
  is_blank,
}

-- A letter, then letters, digits and underscores.
abbrev pub IsIdentifier : Bytes → Type 0
IsIdentifier [] = ⊥
IsIdentifier (c ∷ rest) = (is_letter c ≡ true) × All (λ d. is_identifier_char d ≡ true) rest

-- The shapes of argument lists that is_valid tells apart; `unchecked` are those it lets pass.
pub data Shape : Type 0 where
  unchecked no_argument one_argument one_identifier one_value two_identifiers : Shape

abbrev pub shape : MessageType → Shape
shape MessageType.none = unchecked
shape MessageType.login = one_identifier
shape MessageType.create = one_identifier
shape MessageType.push = one_value
shape MessageType.pop = no_argument
shape MessageType.top = no_argument
shape MessageType.set = two_identifiers
shape MessageType.get = two_identifiers
shape MessageType.add = no_argument
shape MessageType.sub = no_argument
shape MessageType.mul = no_argument
shape MessageType.div = no_argument
shape MessageType.begin = no_argument
shape MessageType.commit = no_argument
shape MessageType.bye = no_argument
shape MessageType.ok = unchecked
shape MessageType.failed = unchecked
shape MessageType.error = unchecked
shape MessageType.data_msg = one_argument

abbrev pub Fits : Shape → List Bytes → Type 0
Fits unchecked args = Unit
Fits no_argument [] = Unit
Fits one_argument (a ∷ []) = Unit
Fits one_identifier (a ∷ []) = IsIdentifier a
Fits one_value (a ∷ []) = is_blank a ≡ ok false
Fits two_identifiers (a ∷ b ∷ []) = IsIdentifier a × IsIdentifier b
Fits _ _ = ⊥

-- The arguments that is_valid lets pass for each type.
abbrev pub IsAccepted : Message → Type 0
IsAccepted m = Fits (shape m.message_type) m.args

identifier_chars :
    (s : Bytes) → all_of is_identifier_char s ≡ true → All (λ d. is_identifier_char d ≡ true) s
identifier_chars [] h = tt
identifier_chars (c ∷ s) h = ground (arith, identifier_chars s)

All→all_of :
    (s : Bytes) → All (λ d. is_identifier_char d ≡ true) s → all_of is_identifier_char s ≡ true
All→all_of [] h = refl
All→all_of (c ∷ s) h = ground (arith, All→all_of s)

pub is_valid_identifier→IsIdentifier :
    (a : Bytes) → is_valid_identifier a ≡ ok true → IsIdentifier a
is_valid_identifier→IsIdentifier [] h = unfold is_valid_identifier in cc
is_valid_identifier→IsIdentifier (c ∷ s) h =
    unfold is_valid_identifier in ground (arith, identifier_chars s)

pub IsIdentifier→is_valid_identifier :
    (a : Bytes) → IsIdentifier a → is_valid_identifier a ≡ ok true
IsIdentifier→is_valid_identifier [] h = absurd h
IsIdentifier→is_valid_identifier (c ∷ s) h =
    unfold is_valid_identifier in ground (arith, All→all_of s)

-- A type of each shape.
representative : Shape → MessageType
representative unchecked = MessageType.ok
representative no_argument = MessageType.pop
representative one_argument = MessageType.data_msg
representative one_identifier = MessageType.login
representative one_value = MessageType.push
representative two_identifiers = MessageType.set

-- `is_valid` depends on the shape only.
is_valid-shape :
    (t : MessageType) (args : List Bytes)
    → is_valid (message t args) ≡ is_valid (message (representative (shape t)) args)
unfolding is_valid representative
is_valid-shape MessageType.none args = refl
is_valid-shape _ args = refl

valid→Fits :
    (k : Shape) (args : List Bytes)
    → is_valid (message (representative k) args) ≡ ok true
    → Fits k args
unfolding is_valid representative
valid→Fits unchecked args h = tt
valid→Fits no_argument [] h = tt
valid→Fits one_argument (a ∷ []) h = tt
valid→Fits one_identifier (a ∷ []) h = is_valid_identifier→IsIdentifier a (ground arith)
valid→Fits one_value (a ∷ []) h = ground arith
valid→Fits two_identifiers (a ∷ b ∷ []) h = (
  is_valid_identifier→IsIdentifier a (ground arith),
  is_valid_identifier→IsIdentifier b (ground arith),
)
valid→Fits k args h = ground arith

Fits→valid :
    (k : Shape) (args : List Bytes)
    → Fits k args
    → is_valid (message (representative k) args) ≡ ok true
unfolding is_valid representative
Fits→valid unchecked args h = refl
Fits→valid no_argument [] h = refl
Fits→valid one_argument (a ∷ []) h = refl
Fits→valid one_identifier (a ∷ []) h = ground (arith, IsIdentifier→is_valid_identifier a h)
Fits→valid one_value (a ∷ []) h = ground arith
Fits→valid two_identifiers (a ∷ b ∷ []) h =
    ground (arith, IsIdentifier→is_valid_identifier a h.0, IsIdentifier→is_valid_identifier b h.1)
Fits→valid k args h = absurd h

pub is_valid-iff-IsAccepted : (m : Message) → (is_valid m ≡ ok true) ↔ IsAccepted m
is_valid-iff-IsAccepted m = (
  λ h. valid→Fits (shape m.message_type) m.args (rw (is_valid-shape m.message_type m.args) at h),
  λ h. rw (is_valid-shape m.message_type m.args) (Fits→valid (shape m.message_type) m.args h),
)

is_valid_identifier_total : (a : Bytes) → a ≢ [] → (b : Bool) × (is_valid_identifier a ≡ ok b)
unfolding is_valid_identifier
is_valid_identifier_total [] h = absurd (h refl)
is_valid_identifier_total (c ∷ s) h = (_, refl)

shape_total :
    (k : Shape) (args : List Bytes)
    → k ≢ one_value
    → All (λ a. a ≢ []) args
    → (b : Bool) × (is_valid (message (representative k) args) ≡ ok b)
unfolding is_valid representative
shape_total unchecked args n h = (true, refl)
shape_total one_identifier (a ∷ []) n h =
    let (v, e) = is_valid_identifier_total a h.0 in (v, ground arith)
shape_total two_identifiers (a ∷ b ∷ []) n h =
    let (v, e) = is_valid_identifier_total a h.0 in
    let (w, f) = is_valid_identifier_total b h.1.0 in (v && w, ground arith)
shape_total one_argument (a ∷ []) n h = (true, refl)
shape_total no_argument [] n h = (true, refl)
shape_total one_value args n h = absurd (n refl)
shape_total k args n h = (false, ground arith)

-- The first byte that is not white space is 128 or more.
abbrev pub IsHigh : Bytes → Type 0
IsHigh s = (c : ℕ) × (rest : Bytes) × (skip_space s ≡ c ∷ rest) × (128 ≤ c)

is_blank-cases :
    (s : Bytes) → ((b : Bool) × (is_blank s ≡ ok b)) ⊎ ((is_blank s ≡ undefined) × IsHigh s)
unfolding is_blank skip_space
is_blank-cases [] = inl (true, refl)
is_blank-cases (c ∷ s) = elim (Bool-cases (is_space c)) [
  | inl e ↦ rw (low c e, e) (is_blank-cases s)
  | inr e ↦ elim (Bool-cases (ltb c 128)) [
    | inl l ↦ rw (l, e) (inl (false, refl))
    | inr l ↦ rw (l, e) (inr (refl, (c, s, refl, ground arith)))
  ]
]
  where
    low : (c : ℕ) → is_space c ≡ true → ltb c 128 ≡ true
    low c e = unfold is_space in ground arith

-- A PUSH of a value whose first byte that is not white space is 128 or more.
abbrev pub IsHighPush : Message → Type 0
IsHighPush m = (m.message_type ≡ MessageType.push) × ((a : Bytes) × (m.args ≡ a ∷ []) × IsHigh a)

abbrev Answers : Message → Type 0
Answers m = ((b : Bool) × (is_valid m ≡ ok b)) ⊎ ((is_valid m ≡ undefined) × IsHighPush m)

other_Answers :
    (m : Message) → shape m.message_type ≢ one_value → All (λ a. a ≢ []) m.args → Answers m
other_Answers m n h =
    let (b, e) = shape_total (shape m.message_type) m.args n h in
    inl (b, rw (is_valid-shape m.message_type m.args) e)

push-Answers : (args : List Bytes) → Answers (message MessageType.push args)
unfolding is_valid
push-Answers [] = inl (false, refl)
push-Answers (a ∷ b ∷ args) = inl (false, ground arith)
push-Answers (a ∷ []) = elim (is_blank-cases a) [
  | inl (b, e) ↦ rw e (inl (not b, refl))
  | inr (e, high) ↦ rw e (inr (refl, (refl, (a, refl, high))))
]

typed_Answers :
    (t : MessageType) (args : List Bytes) → All (λ a. a ≢ []) args → Answers (message t args)
typed_Answers MessageType.push args h = push-Answers args
typed_Answers MessageType.none args h = other_Answers (message MessageType.none args) (cc) h
typed_Answers t args h = other_Answers (message t args) (cc) h

-- With no empty argument `is_valid` gives an answer, or is undefined, and this only for PUSH of a value whose first
-- byte that is not white space is 128 or more: it neither throws nor reads past the end.
pub is_valid_total :
    (m : Message)
    → All (λ a. a ≢ []) m.args
    → ((b : Bool) × (is_valid m ≡ ok b)) ⊎ ((is_valid m ≡ undefined) × IsHighPush m)
is_valid_total m h = typed_Answers m.message_type m.args h
