-- ===== src/Server.antt =====
-- server.h and server.cpp: the map from names to tables, and the server's mutex. A `Table*` is the
-- number of the table on the heap. Sockets, threads and the log are the environment's.
use computer_systems_assignm.Prelude.{ℕ, Bool, true, false, [], Option, none}
use computer_systems_assignm.Exceptions.{Outcome, ok, ◌>>=◌}
use computer_systems_assignm.Text.{Bytes}
use computer_systems_assignm.Dict.{Dict, lookup, insert}
use computer_systems_assignm.Table.{Mutex, mutex_lock, mutex_unlock}

pub record Server : Type 0 where
  pub table_names : Dict ℕ
  pub mutex : Mutex
  pub mutex_is_locked : Bool

-- Server(), which leaves mutex_is_locked unset; nothing reads it.
abbrev pub new_server : Server
new_server = record { table_names = []; mutex = none; mutex_is_locked = false }

unfoldable pub lock : ℕ → Server → Outcome Server
lock me s = mutex_lock me s.mutex >>= λ m. ok (record s { mutex = m; mutex_is_locked = true })

unfoldable pub unlock : ℕ → Server → Outcome Server
unlock me s = mutex_unlock me s.mutex >>= λ m. ok (record s { mutex = m; mutex_is_locked = false })

-- The part of create_table that writes the map, for the new table at `pointer`.
unfoldable pub add_table : Bytes → ℕ → Server → Server
add_table name pointer s = record s { table_names = insert name pointer s.table_names }

-- The null pointer is `none`.
unfoldable pub find_table : Bytes → Server → Option ℕ
find_table name s = lookup name s.table_names
