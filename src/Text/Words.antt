-- ===== src/Text/Words.antt =====
-- Words and breaks: how `>>` and getline split a text that is written with blanks between words.
use computer_systems_assignm.Prelude.{
  ◌≡◌, ◌≢◌, refl, ap, true, false, List, [], ◌∷◌, ◌++◌, arith, All, is_nil,
}
use computer_systems_assignm.Text.{
  Bytes, is_space, space, newline, skip_space, take_word, drop_word, getline,
}

abbrev pub HasNoSpace : Bytes → Type 0
HasNoSpace = All (λ c. is_space c ≡ false)

abbrev pub IsWord : Bytes → Type 0
IsWord w = (w ≢ []) × HasNoSpace w

-- The end of the text, or a blank.
abbrev pub IsBreak : Bytes → Type 0
IsBreak [] = Unit
IsBreak (c ∷ s) = is_space c ≡ true

-- Each word behind a blank.
abbrev pub spaced : List Bytes → Bytes
spaced [] = []
spaced (a ∷ args) = space ∷ (a ++ spaced args)

pub is_space-space : is_space space ≡ true
unfolding is_space
is_space-space = refl

pub is_space-newline : is_space newline ≡ true
unfolding is_space
is_space-newline = refl

pub skip_space-word : (w s : Bytes) → IsWord w → skip_space (w ++ s) ≡ w ++ s
unfolding skip_space
skip_space-word [] s h = absurd (h.0 refl)
skip_space-word (c ∷ w) s h = rw h.1.0

pub skip_space-nil : skip_space [] ≡ []
unfolding skip_space
skip_space-nil = refl

pub skip_space-blank : (s : Bytes) → skip_space (space ∷ s) ≡ skip_space s
unfolding skip_space
skip_space-blank s = rw is_space-space

pub take_word-append : (w s : Bytes) → HasNoSpace w → IsBreak s → take_word (w ++ s) ≡ w
unfolding take_word
take_word-append [] [] h b = refl
take_word-append [] (c ∷ s) h b = rw b
take_word-append (c ∷ w) s h b = rw (h.0, take_word-append w s h.1 b)

pub drop_word-append : (w s : Bytes) → HasNoSpace w → IsBreak s → drop_word (w ++ s) ≡ s
unfolding drop_word
drop_word-append [] [] h b = refl
drop_word-append [] (c ∷ s) h b = rw b
drop_word-append (c ∷ w) s h b = rw h.0 (drop_word-append w s h.1 b)

pub is_nil-word : (w s : Bytes) → IsWord w → is_nil (w ++ s) ≡ false
is_nil-word [] s h = absurd (h.0 refl)
is_nil-word (c ∷ w) s h = refl

pub IsBreak-spaced : (args : List Bytes) → IsBreak (spaced args)
IsBreak-spaced [] = tt
IsBreak-spaced (a ∷ args) = is_space-space

pub IsBreak-spaced-newline : (args : List Bytes) → IsBreak (spaced args ++ newline ∷ [])
IsBreak-spaced-newline [] = is_space-newline
IsBreak-spaced-newline (a ∷ args) = is_space-space

-- No newline, so that `getline` goes on to the one behind the text.
abbrev pub HasNoNewline : Bytes → Type 0
HasNoNewline = All (λ c. c ≢ newline)

pub getline-append : (s rest : Bytes) → HasNoNewline s → getline (s ++ newline ∷ rest) ≡ s
unfolding getline
getline-append [] rest h = refl
getline-append (c ∷ s) rest h = ground (arith, getline-append s rest h.1)

HasNoNewline-append : (s t : Bytes) → HasNoNewline s → HasNoNewline t → HasNoNewline (s ++ t)
HasNoNewline-append [] t h k = k
HasNoNewline-append (c ∷ s) t h k = (h.0, HasNoNewline-append s t h.1 k)

pub HasNoSpace-HasNoNewline : (s : Bytes) → HasNoSpace s → HasNoNewline s
HasNoSpace-HasNoNewline [] h = tt
HasNoSpace-HasNoNewline (c ∷ s) h =
    (λ e. ground (arith, is_space-newline, ap is_space e), HasNoSpace-HasNoNewline s h.1)

pub HasNoNewline-spaced : (args : List Bytes) → All IsWord args → HasNoNewline (spaced args)
HasNoNewline-spaced [] h = tt
HasNoNewline-spaced (a ∷ args) h = (
  cc,
  HasNoNewline-append a (spaced args) (HasNoSpace-HasNoNewline a h.0.1)
      (HasNoNewline-spaced args h.1),
)
