-- ===== src/Dict.antt =====
-- What the repository uses of std::unordered_map with string keys: a list of entries. The order in
-- which a map is iterated is unspecified; the model takes one.
use computer_systems_assignm.Prelude.{
  ◌≡◌, refl, List, [], ◌∷◌, Option, none, some, arith, if◌then◌else◌,
}
use computer_systems_assignm.Text.{Bytes, bytes_eq, bytes_eq_iff}

abbrev pub Dict {ℓ} : Type ℓ → Type ℓ
Dict V = List (Bytes × V)

module _ {ℓ} {V : Type ℓ} where
  -- find, and at or [] on the entry found
  unfoldable pub lookup : Bytes → Dict V → Option V
  lookup k [] = none
  lookup k ((j, v) ∷ m) = if bytes_eq j k then some v else lookup k m

  -- m[k] = v
  unfoldable pub insert : Bytes → V → Dict V → Dict V
  insert k v [] = (k, v) ∷ []
  insert k v ((j, w) ∷ m) = if bytes_eq j k then (k, v) ∷ m else (j, w) ∷ insert k v m

  pub lookup-nil : (k : Bytes) → lookup k [] ≡ none
  unfolding lookup
  lookup-nil k = refl

  pub lookup-cons :
      (k j : Bytes) (v : V) (m : Dict V)
      → lookup k ((j, v) ∷ m) ≡ (if bytes_eq j k then some v else lookup k m)
  unfolding lookup
  lookup-cons k j v m = refl

  pub lookup-insert :
      (k j : Bytes) (v : V) (m : Dict V)
      → lookup j (insert k v m) ≡ (if bytes_eq k j then some v else lookup j m)
  unfolding lookup insert
  lookup-insert k j v [] = refl
  lookup-insert k j v ((i, w) ∷ m) =
      ground (arith, bytes_eq_iff k j, bytes_eq_iff i k, bytes_eq_iff i j, lookup-insert k j v m)
