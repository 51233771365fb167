-- ===== src/Table.antt =====
-- table.h and table.cpp: a table with its mutex, its committed entries and the proposed ones.
-- A pthread mutex is the number of the thread that holds it. Locking a mutex that is held blocks;
-- unlocking one that the thread does not hold is undefined, as POSIX has it for a default mutex.
pub mod Entries
use computer_systems_assignm.Prelude.{
  ℕ, Bool, true, false, ◌||◌, List, [], ◌∷◌, Option, none, some, ◌==◌, if◌then◌else◌,
}
use computer_systems_assignm.Exceptions.{
  Outcome, ok, throw, blocked, undefined, Exception, operation_exception,
}
use computer_systems_assignm.Text.{Bytes, codes}
use computer_systems_assignm.Dict.{Dict, lookup, insert}

abbrev pub Mutex : Type 0
Mutex = Option ℕ

-- pthread_mutex_lock by the thread `me`
unfoldable pub mutex_lock : ℕ → Mutex → Outcome Mutex
mutex_lock me none = ok (some me)
mutex_lock me (some j) = blocked

-- pthread_mutex_unlock
unfoldable pub mutex_unlock : ℕ → Mutex → Outcome Mutex
mutex_unlock me none = undefined
mutex_unlock me (some j) = if j == me then ok none else undefined

pub record Table : Type 0 where
  pub name : Bytes
  pub mutex : Mutex
  pub key_value_pairs : Dict Bytes
  pub proposed_pairs : Dict Bytes

-- Table(name)
unfoldable pub new_table : Bytes → Table
new_table name = record { name = name; mutex = none; key_value_pairs = []; proposed_pairs = [] }

abbrev pub with_mutex : Table → Outcome Mutex → Outcome Table
with_mutex t (ok m) = ok (record t { mutex = m })
with_mutex t (throw e) = throw e
with_mutex t blocked = blocked
with_mutex t undefined = undefined

unfoldable pub lock : ℕ → Table → Outcome Table
unfolding mutex_lock
lock me t = with_mutex t (mutex_lock me t.mutex)

unfoldable pub unlock : ℕ → Table → Outcome Table
unfolding mutex_unlock
unlock me t = with_mutex t (mutex_unlock me t.mutex)

-- pthread_mutex_trylock(&mutex) == 0: whether the mutex was free and is now held.
unfoldable pub trylock : ℕ → Table → Table × Bool
trylock me t = elim t.mutex [ none ↦ (record t { mutex = some me }, true) | some j ↦ (t, false) ]

unfoldable pub set : Bytes → Bytes → Table → Table
set key value t = record t { proposed_pairs = insert key value t.proposed_pairs }

abbrev pub no_such_key : Exception
no_such_key = operation_exception (codes "Key that does not exist requested")

-- The committed entry if there is one, else the proposed one.
abbrev pub first_found : Option Bytes → Option Bytes → Outcome Bytes
first_found (some v) o = ok v
first_found none (some v) = ok v
first_found none none = throw no_such_key

unfoldable pub get : Bytes → Table → Outcome Bytes
get key t = first_found (lookup key t.key_value_pairs) (lookup key t.proposed_pairs)

abbrev is_some : Option Bytes → Bool
is_some none = false
is_some (some v) = true

unfoldable pub has_key : Bytes → Table → Bool
has_key key t = is_some (lookup key t.key_value_pairs) || is_some (lookup key t.proposed_pairs)

-- The loop of commit_changes over the proposed entries.
unfoldable pub commit_pairs : Dict Bytes → Dict Bytes → Dict Bytes
commit_pairs [] pairs = pairs
commit_pairs ((key, value) ∷ proposed) pairs = insert key value (commit_pairs proposed pairs)

-- The proposed entries stay.
unfoldable pub commit_changes : Table → Table
commit_changes t = record t { key_value_pairs = commit_pairs t.proposed_pairs t.key_value_pairs }

unfoldable pub rollback_changes : Table → Table
rollback_changes t = record t { proposed_pairs = [] }
