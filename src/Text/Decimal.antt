-- ===== src/Text/Decimal.antt =====
-- std::stoi and std::to_string, and `int` arithmetic (32 bits, overflow undefined).
pub mod Sizes
use computer_systems_assignm.Prelude.{
  ℕ, zero, suc, ◌+◌, ◌-◌, ◌*◌, ◌/◌, ◌%◌, ◌^◌, ◌<◌, ◌≡◌, refl, ap, ◌∙◌, inl, inr, Bool-cases, Bool,
  true, false, ◌&&◌, [], ◌∷◌, arith, ltb, leb, ◌==◌, if◌then◌else◌,
}
use computer_systems_assignm.Prelude.Int.{ℤ, pos, negsuc, sub_ℕ, ◌+ℤ◌, ◌-ℤ◌, ◌*ℤ◌, quot}
use computer_systems_assignm.Exceptions.{
  Outcome, ok, throw, undefined, invalid_argument, out_of_range,
}
use computer_systems_assignm.Text.{Bytes, is_space, skip_space}

is_digit : ℕ → Bool
is_digit c = leb b'0' c && leb c b'9'

-- The number that the leading digits spell behind `n`.
read_digits : ℕ → Bytes → ℕ
unfolding is_digit
read_digits n [] = n
read_digits n (c ∷ s) =
    let rest = read_digits (n * 10 + (c - b'0')) s in if is_digit c then rest else n

starts_with_digit : Bytes → Bool
unfolding is_digit
starts_with_digit [] = false
starts_with_digit (c ∷ s) = is_digit c

-- INT_MIN ≤ z ≤ INT_MAX
abbrev pub in_int : ℤ → Bool
in_int (pos n) = ltb n (2 ^ 31)
in_int (negsuc n) = ltb n (2 ^ 31)

read_number : (ℕ → ℤ) → Bytes → Outcome ℤ
unfolding read_digits starts_with_digit
read_number sign s =
    if starts_with_digit s
    then (let z = sign (read_digits 0 s) in if in_int z then ok z else throw out_of_range)
    else throw invalid_argument

abbrev negate : ℕ → ℤ
negate n = sub_ℕ 0 n

read_signed : Bytes → Outcome ℤ
unfolding read_number
read_signed [] = throw invalid_argument
read_signed (c ∷ s) =
    if c == b'-'
    then read_number negate s
    else if c == b'+'
    then read_number pos s
    else read_number pos (c ∷ s)

-- std::stoi(s): blanks, a sign, digits; what follows the digits is ignored.
unfoldable pub stoi : Bytes → Outcome ℤ
unfolding read_signed
stoi s = read_signed (skip_space s)

-- The digits of `n` in front of `out`; the fuel is the number of divisions by ten.
digits : ℕ → ℕ → Bytes → Bytes
digits zero n out = out
digits (suc f) n out =
    let rest = digits f (n / 10) ((b'0' + n % 10) ∷ out) in
    if ltb n 10 then (b'0' + n) ∷ out else rest

decimal : ℕ → Bytes
unfolding digits
decimal n = digits (suc n) n []

-- std::to_string(z)
unfoldable pub to_string : ℤ → Bytes
unfolding decimal
to_string (pos n) = decimal n
to_string (negsuc n) = b'-' ∷ decimal (suc n)

-- The result of an `int` operation whose value is `z`.
abbrev pub int_result : ℤ → Outcome ℤ
int_result z = if in_int z then ok z else undefined

unfoldable pub int_add : ℤ → ℤ → Outcome ℤ
int_add a b = int_result (a +ℤ b)

unfoldable pub int_sub : ℤ → ℤ → Outcome ℤ
int_sub a b = int_result (a -ℤ b)

unfoldable pub int_mul : ℤ → ℤ → Outcome ℤ
int_mul a b = int_result (a *ℤ b)

-- A division by zero is undefined too, and INT_MIN / -1 overflows.
unfoldable pub int_div : ℤ → ℤ → Outcome ℤ
int_div a (pos zero) = undefined
int_div a (pos (suc b)) = int_result (quot a (pos (suc b)))
int_div a (negsuc b) = int_result (quot a (negsuc b))

read_digits_one :
    (n d : ℕ) (s : Bytes) → d < 10 → read_digits n ((b'0' + d) ∷ s) ≡ read_digits (n * 10 + d) s
unfolding read_digits
read_digits_one n d s h = ground arith

-- Reading the digits that `digits` wrote is going on from `n` with what stood behind them.
read_digits-digits :
    (f n : ℕ) (out : Bytes) → n < f → read_digits 0 (digits f n out) ≡ read_digits n out
unfolding digits
read_digits-digits zero n out h = absurd (omega arith)
read_digits-digits (suc f) n out h = ground (
  arith,
  read_digits_one 0 n out,
  read_digits_one (n / 10) (n % 10) out,
  read_digits-digits f (n / 10) ((b'0' + n % 10) ∷ out),
)

digits_head : (f n : ℕ) (out : Bytes) → n < f → starts_with_digit (digits f n out) ≡ true
unfolding digits starts_with_digit
digits_head zero n out h = absurd (omega arith)
digits_head (suc f) n out h = ground (arith, digits_head f (n / 10) ((b'0' + n % 10) ∷ out))

skip_space-digit : (s : Bytes) → starts_with_digit s ≡ true → skip_space s ≡ s
unfolding starts_with_digit skip_space is_space
skip_space-digit [] h = refl
skip_space-digit (c ∷ s) h = ground arith

read_signed-digit : (s : Bytes) → starts_with_digit s ≡ true → read_signed s ≡ read_number pos s
unfolding starts_with_digit
read_signed-digit [] h = cc
read_signed-digit (c ∷ s) h = unfold read_signed in ground arith

skip_space-minus : (s : Bytes) → skip_space (b'-' ∷ s) ≡ b'-' ∷ s
unfolding skip_space is_space
skip_space-minus s = refl

read_signed-minus : (s : Bytes) → read_signed (b'-' ∷ s) ≡ read_number negate s
unfolding read_signed
read_signed-minus s = refl

negate-suc : (n : ℕ) → negate (suc n) ≡ negsuc n
negate-suc n = ground arith

decimal_head : (n : ℕ) → starts_with_digit (decimal n) ≡ true
unfolding decimal
decimal_head n = digits_head (suc n) n [] (omega arith)

read_digits-decimal : (n : ℕ) → read_digits 0 (decimal n) ≡ n
read_digits-decimal n =
    unfold decimal in read_digits-digits (suc n) n [] (omega arith) ∙ unfold read_digits in refl

read_number-decimal :
    (sign : ℕ → ℤ) (n : ℕ) → in_int (sign n) ≡ true → read_number sign (decimal n) ≡ ok (sign n)
read_number-decimal sign n h = unfold read_number in rw (decimal_head n, read_digits-decimal n, h)

-- Every int that is printed is read back as itself.
pub stoi-to_string : (z : ℤ) → in_int z ≡ true → stoi (to_string z) ≡ ok z
unfolding stoi to_string
stoi-to_string (pos n) h =
    rw (skip_space-digit _ (decimal_head n), read_signed-digit _ (decimal_head n))
      (read_number-decimal pos n h)
stoi-to_string (negsuc n) h =
    rw (skip_space-minus, read_signed-minus)
      (read_number-decimal negate (suc n) (rw negate-suc h) ∙ ap ok (negate-suc n))

-- An int, or one of the two exceptions of std::stoi.
abbrev pub IsIntResult : Outcome ℤ → Type 0
IsIntResult (ok z) = in_int z ≡ true
IsIntResult (throw invalid_argument) = Unit
IsIntResult (throw out_of_range) = Unit
IsIntResult _ = ⊥

if-IsIntResult :
    (b : Bool) (x y : Outcome ℤ) → IsIntResult x → IsIntResult y → IsIntResult (if b then x else y)
if-IsIntResult true x y h k = h
if-IsIntResult false x y h k = k

checked-IsIntResult : (z : ℤ) → IsIntResult (if in_int z then ok z else throw out_of_range)
checked-IsIntResult z = elim (Bool-cases (in_int z)) [ inl e ↦ rw (e) e | inr e ↦ rw e tt ]

read_number-IsIntResult : (sign : ℕ → ℤ) (s : Bytes) → IsIntResult (read_number sign s)
unfolding read_number
read_number-IsIntResult sign s =
    if-IsIntResult (starts_with_digit s) _ _ (checked-IsIntResult (sign (read_digits 0 s))) tt

read_signed-IsIntResult : (s : Bytes) → IsIntResult (read_signed s)
read_signed-IsIntResult [] = unfold read_signed in tt
read_signed-IsIntResult (c ∷ s) =
    unfold read_signed in
    if-IsIntResult (c == b'-') _ _ (read_number-IsIntResult negate s) (
      if-IsIntResult (c == b'+') _ _ (read_number-IsIntResult pos s)
        (read_number-IsIntResult pos (c ∷ s)))

-- std::stoi gives an int or throws one of its two exceptions.
pub stoi-IsIntResult : (s : Bytes) → IsIntResult (stoi s)
unfolding stoi
stoi-IsIntResult s = read_signed-IsIntResult (skip_space s)
