-- ===== src/Connection/Sizes/Tables.antt =====
-- The methods of Table, as far as the lengths of the values go.
use computer_systems_assignm.Prelude.{
  ℕ, ◌≡◌, Bool, Bool-cases, true, false, inl, inr, [], ◌∷◌, none, some, Option-cases, arith,
}
use mathlib.Core.Path.{subst}
use computer_systems_assignm.Exceptions.{Outcome, ok, throw, blocked, undefined}
use computer_systems_assignm.Text.{Bytes, bytes_eq}
use computer_systems_assignm.Dict.{Dict, lookup, insert}
use computer_systems_assignm.Table
use computer_systems_assignm.Table.{Table, Mutex, with_mutex, commit_pairs}
use computer_systems_assignm.Connection.State.{lift}
use computer_systems_assignm.Connection.Sizes.{
  IsShortValue, HasShortValues, IsShortTable, Yields, Yields-lift,
}

insert-short :
    (key value : Bytes) (d : Dict Bytes)
    → IsShortValue value
    → HasShortValues d
    → HasShortValues (insert key value d)
unfolding insert
insert-short key value [] v h = (v, tt)
insert-short key value ((j, w) ∷ d) v h = elim (Bool-cases (bytes_eq j key)) [
  | inl e ↦ rw e (v, h.1)
  | inr e ↦ rw e (h.0, insert-short key value d v h.1)
]

lookup-short :
    (key : Bytes) (d : Dict Bytes) (v : Bytes)
    → HasShortValues d
    → lookup key d ≡ some v
    → IsShortValue v
unfolding lookup
lookup-short key [] v h e = ground arith
lookup-short key ((j, w) ∷ d) v h e = elim (Bool-cases (bytes_eq j key)) [
  | inl b ↦ let same : w ≡ v = ground arith in subst IsShortValue same h.0
  | inr b ↦ lookup-short key d v h.1 (ground arith)
]

commit_pairs-short :
    (proposed pairs : Dict Bytes)
    → HasShortValues proposed
    → HasShortValues pairs
    → HasShortValues (commit_pairs proposed pairs)
unfolding commit_pairs
commit_pairs-short [] pairs h k = k
commit_pairs-short ((key, value) ∷ proposed) pairs h k =
    insert-short key value _ h.0 (commit_pairs-short proposed pairs h.1 k)

module _ (t : Table) (h : IsShortTable t) where
  pub set-IsShortTable :
      (key value : Bytes) → IsShortValue value → IsShortTable (Table.set key value t)
  unfolding Table.set
  set-IsShortTable key value v = record {
    committed = h.committed;
    proposed = insert-short key value _ v h.proposed;
  }

  pub commit_changes-IsShortTable : IsShortTable (Table.commit_changes t)
  unfolding Table.commit_changes
  commit_changes-IsShortTable = record {
    committed = commit_pairs-short _ _ h.proposed h.committed;
    proposed = h.proposed;
  }

  pub rollback_changes-IsShortTable : IsShortTable (Table.rollback_changes t)
  unfolding Table.rollback_changes
  rollback_changes-IsShortTable = record { committed = h.committed; proposed = tt }

  pub trylock-IsShortTable : (me : ℕ) → IsShortTable (Table.trylock me t).0
  unfolding Table.trylock
  trylock-IsShortTable me =
      elim (t.mutex)
        as (λ m.
          IsShortTable
            (elim m as (λ x. Table × Bool) [
              | none ↦ (record t { mutex = some me }, true)
              | some j ↦ (t, false)
            ]).0) [ none ↦ record { committed = h.committed; proposed = h.proposed } | some j ↦ h ]

  pub get-short : (key v : Bytes) → Table.get key t ≡ ok v → IsShortValue v
  unfolding Table.get
  get-short key v e = elim (Option-cases (lookup key t.key_value_pairs)) [
    | inr (w, f) ↦
        let same : w ≡ v = ground arith in
        subst IsShortValue same (lookup-short key _ w h.committed f)
    | inl f ↦ elim (Option-cases (lookup key t.proposed_pairs)) [
      | inr (w, g) ↦
          let same : w ≡ v = ground arith in
          subst IsShortValue same (lookup-short key _ w h.proposed g)
      | inl g ↦ ground arith
    ]
  ]

  with_mutex-Yields : (o : Outcome Mutex) → Yields IsShortTable (lift (with_mutex t o))
  with_mutex-Yields (ok m) = Yields-lift _ (λ x e.
      subst IsShortTable (ok_inverse e) (record { committed = h.committed; proposed = h.proposed }))
    where
      ok_inverse : {x y : Table} → ok x ≡ ok y → x ≡ y
      ok_inverse e = cc
  with_mutex-Yields (throw e) = Yields-lift _ (λ x e. ground arith)
  with_mutex-Yields blocked = Yields-lift _ (λ x e. ground arith)
  with_mutex-Yields undefined = Yields-lift _ (λ x e. ground arith)

  pub table_lock-Yields : (me : ℕ) → Yields IsShortTable (lift (Table.lock me t))
  unfolding Table.lock
  table_lock-Yields me = with_mutex-Yields _

  pub table_unlock-Yields : (me : ℕ) → Yields IsShortTable (lift (Table.unlock me t))
  unfolding Table.unlock
  table_unlock-Yields me = with_mutex-Yields _
