-- ===== src/Table/Entries.antt =====
-- The entries of a table: commits, rollbacks and reads against maps from keys to values.
use computer_systems_assignm.Prelude.{
  ◌≡◌, refl, ap, inl, inr, Option-cases, ◌∙◌, ◌↔◌, true, ◌||◌, List, [], ◌∷◌, Option, none, some,
  arith, if◌then◌else◌,
}
use computer_systems_assignm.Exceptions.{ok}
use computer_systems_assignm.Text.{Bytes, bytes_eq, bytes_eq_iff}
use computer_systems_assignm.Dict.{Dict, lookup, lookup-insert, lookup-nil, lookup-cons}
use computer_systems_assignm.Table.{
  Table, set, get, has_key, commit_pairs, commit_changes, rollback_changes, first_found, is_some,
}

-- The first of two answers.
infixr 30 ◌or_else◌
abbrev pub ◌or_else◌ : Option Bytes → Option Bytes → Option Bytes
some v or_else o = some v
none or_else o = o

abbrev pub committed : Table → Bytes → Option Bytes
committed t key = lookup key t.key_value_pairs

abbrev pub proposed : Table → Bytes → Option Bytes
proposed t key = lookup key t.proposed_pairs

pub lookup-commit_pairs :
    (new old : Dict Bytes) (key : Bytes)
    → lookup key (commit_pairs new old) ≡ (lookup key new or_else lookup key old)
unfolding commit_pairs
lookup-commit_pairs [] old key = rw lookup-nil
lookup-commit_pairs ((j, v) ∷ new) old key = ground (
  arith,
  lookup-insert j key v (commit_pairs new old),
  lookup-cons key j v new,
  lookup-commit_pairs new old key,
)

-- The writes of a transaction, one after another.
abbrev pub set_all : List (Bytes × Bytes) → Table → Table
set_all [] t = t
set_all ((k, v) ∷ writes) t = set_all writes (set k v t)

-- The value that the last write to a key wrote.
abbrev pub last_write : List (Bytes × Bytes) → Bytes → Option Bytes
last_write [] key = none
last_write ((k, v) ∷ writes) key =
    last_write writes key or_else (if bytes_eq k key then some v else none)

or_else_assoc : (a b c : Option Bytes) → ((a or_else b) or_else c) ≡ (a or_else (b or_else c))
or_else_assoc (some v) b c = refl
or_else_assoc none b c = refl

proposed-set_all :
    (writes : List (Bytes × Bytes)) (t : Table) (key : Bytes)
    → proposed (set_all writes t) key ≡ (last_write writes key or_else proposed t key)
unfolding set
proposed-set_all [] t key = refl
proposed-set_all ((k, v) ∷ writes) t key =
    ground (arith, proposed-set_all writes (set k v t) key, lookup-insert k key v t.proposed_pairs)

committed-set_all :
    (writes : List (Bytes × Bytes)) (t : Table)
    → (set_all writes t).key_value_pairs ≡ t.key_value_pairs
unfolding set
committed-set_all [] t = refl
committed-set_all ((k, v) ∷ writes) t = committed-set_all writes (set k v t)

-- What is still proposed has been committed: so it is between transactions.
abbrev pub IsSettled : Table → Type 0
IsSettled t = (key value : Bytes) → proposed t key ≡ some value → committed t key ≡ some value

settled_lem :
    (t : Table) (key : Bytes)
    → IsSettled t
    → (proposed t key or_else committed t key) ≡ committed t key
settled_lem t key h = elim (Option-cases (proposed t key)) [
  | inl e ↦ rw e
  | inr (v, e) ↦ rw (e, h key v e)
]

-- From a settled table, the writes of a transaction and its commit leave under each key the value
-- written last, or the value that was committed before if the transaction did not write to it; and
-- the table is settled again.
pub commit-set_all :
    (writes : List (Bytes × Bytes)) (t : Table)
    → IsSettled t
    → let t' = commit_changes (set_all writes t) in
      ((key : Bytes) → committed t' key ≡ (last_write writes key or_else committed t key))
      × IsSettled t'
unfolding commit_changes
commit-set_all writes t h = (
  λ key.
      lookup-commit_pairs (set_all writes t).proposed_pairs (set_all writes t).key_value_pairs key
      ∙ ground (
        arith,
        proposed-set_all writes t key,
        ap (lookup key) (committed-set_all writes t),
        settled_lem t key h,
      ),
  λ key value e.
      lookup-commit_pairs (set_all writes t).proposed_pairs (set_all writes t).key_value_pairs key
      ∙ ground arith,
)

-- The writes of a transaction and its rollback leave the committed entries as they were, and no
-- proposed entry; so the table is settled.
pub rollback-set_all :
    (writes : List (Bytes × Bytes)) (t : Table)
    → let t' = rollback_changes (set_all writes t) in
      ((key : Bytes) → committed t' key ≡ committed t key)
      × ((key : Bytes) → proposed t' key ≡ none)
      × IsSettled t'
unfolding rollback_changes
rollback-set_all writes t = (
  λ key. ap (lookup key) (committed-set_all writes t),
  lookup-nil,
  λ key value e. cc (lookup-nil {V = Bytes} key),
)

-- A read after a write of the same key gives the value that was committed before, if there is one,
-- and the value just written only if there is none.
pub get-set :
    (key value : Bytes) (t : Table)
    → get key (set key value t) ≡ ok (elim (committed t key) [ none ↦ value | some old ↦ old ])
unfolding get set
get-set key value t =
    ground (arith, lookup-insert key key value t.proposed_pairs, bytes_eq_iff key key)

-- A read succeeds exactly on the keys that `has_key` reports.
pub get-has_key :
    (key : Bytes) (t : Table) → (has_key key t ≡ true) ↔ ((value : Bytes) × (get key t ≡ ok value))
unfolding get has_key
get-has_key key t =
    (readable (lookup key t.key_value_pairs) (lookup key t.proposed_pairs), λ (v, e). ground arith)
  where
    readable :
        (a b : Option Bytes)
        → (is_some a || is_some b) ≡ true
        → (value : Bytes) × (first_found a b ≡ ok value)
    readable (some v) b h = (v, refl)
    readable none (some v) h = (v, refl)
    readable none none h = cc
