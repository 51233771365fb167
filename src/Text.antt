-- ===== src/Text.antt =====
-- Strings as lists of bytes, and what the repository uses of <string>, <sstream> and <cctype>.
pub mod Decimal
pub mod Words
use Prim.Native.Char.{code}
use Prim.Native.String.{String}
use computer_systems_assignm.Prelude.{
  ℕ, suc, ◌+◌, ◌≡◌, refl, ◌↔◌, ap, Bool, true, false, ◌&&◌, ◌||◌, List, [], ◌∷◌, Option, none, some,
  arith, leb, ◌==◌, ==_iff, if◌then◌else◌, take, drop,
}

abbrev pub Bytes : Type 0
Bytes = List ℕ

-- The bytes of an ASCII literal.
abbrev pub codes : String → Bytes
codes String.[] = []
codes (String.◌∷◌ c s) = code c ∷ codes s

unfoldable pub bytes_eq : Bytes → Bytes → Bool
bytes_eq [] [] = true
bytes_eq [] (b ∷ t) = false
bytes_eq (a ∷ s) [] = false
bytes_eq (a ∷ s) (b ∷ t) = a == b && bytes_eq s t

pub bytes_eq_iff : (s t : Bytes) → (bytes_eq s t ≡ true) ↔ (s ≡ t)
unfolding bytes_eq
bytes_eq_iff [] [] = ground arith
bytes_eq_iff [] (b ∷ t) = ground arith
bytes_eq_iff (a ∷ s) [] = ground arith
bytes_eq_iff (a ∷ s) (b ∷ t) = ground (arith, bytes_eq_iff s t)

abbrev pub newline : ℕ
newline = 10

abbrev pub space : ℕ
space = 32

-- isspace in the "C" locale: \t \n \v \f \r and the blank.
unfoldable pub is_space : ℕ → Bool
is_space c = (leb 9 c && leb c 13) || c == space

unfoldable pub skip_space : Bytes → Bytes
skip_space [] = []
skip_space (c ∷ s) = if is_space c then skip_space s else c ∷ s

-- What `ss >> word` reads from a stream that stands at the word, and what it leaves.
unfoldable pub take_word : Bytes → Bytes
take_word [] = []
take_word (c ∷ s) = if is_space c then [] else c ∷ take_word s

unfoldable pub drop_word : Bytes → Bytes
drop_word [] = []
drop_word (c ∷ s) = if is_space c then c ∷ s else drop_word s

-- std::getline
unfoldable pub getline : Bytes → Bytes
getline [] = []
getline (c ∷ s) = if c == newline then [] else c ∷ getline s

-- find_first_of and find_last_of for one character; `none` is npos
unfoldable pub find_first_of : ℕ → Bytes → Option ℕ
find_first_of c [] = none
find_first_of c (x ∷ s) =
    if x == c then some 0 else elim (find_first_of c s) [ none ↦ none | some i ↦ some (suc i) ]

unfoldable pub find_last_of : ℕ → Bytes → Option ℕ
find_last_of c [] = none
find_last_of c (x ∷ s) = elim (find_last_of c s) [
  | none ↦ if x == c then some 0 else none
  | some i ↦ some (suc i)
]
