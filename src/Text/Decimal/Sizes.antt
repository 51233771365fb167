-- ===== src/Text/Decimal/Sizes.antt =====
-- How long std::to_string makes an int.
use computer_systems_assignm.Prelude.{
  ℕ, zero, suc, ◌+◌, ◌/◌, ◌%◌, ◌^◌, ◌<◌, ◌≤◌, ◌≡◌, Bool-cases, inl, inr, true, [], ◌∷◌, arith, ltb,
  length,
}
use computer_systems_assignm.Prelude.Int.{ℤ, pos, negsuc}
use computer_systems_assignm.Text.{Bytes}
use computer_systems_assignm.Text.Decimal.{digits, decimal, to_string, in_int}

-- Fewer than 10 ^ (k + 1) has at most k + 1 digits.
length-digits :
    (k f n : ℕ) (out : Bytes) → n < 10 ^ suc k → length (digits f n out) ≤ suc k + length out
unfolding digits
length-digits k zero n out h = omega arith
length-digits zero (suc f) n out h = elim (Bool-cases (ltb n 10)) [
  | inl e ↦ rw e (omega arith)
  | inr e ↦ ground (arith, h)
]
length-digits (suc k) (suc f) n out h = elim (Bool-cases (ltb n 10)) [
  | inl e ↦ rw e (omega arith)
  | inr e ↦
      let small : n / 10 < 10 ^ suc k = omega (arith, h) in
      rw e (omega (arith, length-digits k f (n / 10) ((b'0' + n % 10) ∷ out) small))
]

length-decimal : (n : ℕ) → n ≤ 2 ^ 31 → length (decimal n) ≤ 10
unfolding decimal
length-decimal n h = omega (arith, length-digits 9 (suc n) n [] (omega (arith, h)))

-- An int has at most ten digits and a sign.
pub length-to_string : (z : ℤ) → in_int z ≡ true → length (to_string z) ≤ 11
unfolding to_string
length-to_string (pos n) h = omega (arith, length-decimal n (ground arith))
length-to_string (negsuc n) h = omega (arith, length-decimal (suc n) (ground arith))
