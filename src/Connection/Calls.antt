-- ===== src/Connection/Calls.antt =====
-- What the methods of ClientConnection call: the stack, the tables behind their pointers, the server,
-- and the messages written to the client.
use computer_systems_assignm.Prelude.{
  ℕ, suc, Bool, false, [], ◌∷◌, ◌++◌, Option, none, some, ◌==◌, if◌then◌else◌,
}
use computer_systems_assignm.Exceptions.{ok, undefined}
use computer_systems_assignm.Text.{Bytes}
use computer_systems_assignm.Message.{MessageType, Message, message}
use computer_systems_assignm.Serialization.{encode}
use computer_systems_assignm.ValueStack
use computer_systems_assignm.Table
use computer_systems_assignm.Table.{Table}
use computer_systems_assignm.Server
use computer_systems_assignm.Server.{Server}
use computer_systems_assignm.Connection.State.{Exec, ◌>>=◌, ◌>>◌, lift, gets, modify_conn, pure}

-- `stack.push(value)` and the other calls of the operand stack.
unfoldable pub push_value : Bytes → Exec (Unit {0})
push_value value = modify_conn λ c. record c { stack = ValueStack.push value c.stack }

unfoldable pub top_value : Exec Bytes
top_value = gets (λ s. ValueStack.get_top s.conn.stack) >>= lift

unfoldable pub pop_value : Exec (Unit {0})
pop_value = do
  rest ← gets (λ s. ValueStack.pop s.conn.stack) >>= lift
  modify_conn λ c. record c { stack = rest }

unfoldable pub stack_size : Exec ℕ
stack_size = gets λ s. ValueStack.get_size s.conn.stack

abbrev pub put_table : (ℕ → Option Table) → ℕ → Table → ℕ → Option Table
put_table tables p t q = if p == q then some t else tables q

-- A call through a pointer; a dangling one would be undefined.
unfoldable pub deref : ℕ → Exec Table
deref p s = elim (s.tables p) [ none ↦ (undefined, s) | some t ↦ (ok t, s) ]

unfoldable pub store_table : ℕ → Table → Exec (Unit {0})
store_table p t s = (ok tt, record s { tables = put_table s.tables p t })

unfoldable pub this_client : Exec ℕ
this_client = gets λ s. s.conn.client

-- table_obj->lock(), and the other methods through a pointer
unfoldable pub lock_table : ℕ → Exec (Unit {0})
lock_table p = do me ← this_client; t ← deref p; t' ← lift (Table.lock me t); store_table p t'

unfoldable pub unlock_table : ℕ → Exec (Unit {0})
unlock_table p = do me ← this_client; t ← deref p; t' ← lift (Table.unlock me t); store_table p t'

unfoldable pub trylock_table : ℕ → Exec Bool
trylock_table p = do
  me ← this_client
  t ← deref p
  store_table p (Table.trylock me t).0
  pure (Table.trylock me t).1

unfoldable pub set_entry : ℕ → Bytes → Bytes → Exec (Unit {0})
set_entry p key value = do t ← deref p; store_table p (Table.set key value t)

unfoldable pub has_entry : ℕ → Bytes → Exec Bool
has_entry p key = do t ← deref p; pure (Table.has_key key t)

unfoldable pub get_entry : ℕ → Bytes → Exec Bytes
get_entry p key = do t ← deref p; lift (Table.get key t)

unfoldable pub commit_table : ℕ → Exec (Unit {0})
commit_table p = do t ← deref p; store_table p (Table.commit_changes t)

unfoldable pub rollback_table : ℕ → Exec (Unit {0})
rollback_table p = do t ← deref p; store_table p (Table.rollback_changes t)

unfoldable pub store_server : Server → Exec (Unit {0})
store_server server s = (ok tt, record s { server = server })

unfoldable pub lock_server : Exec (Unit {0})
lock_server = do
  me ← this_client
  server ← gets (λ s. Server.lock me s.server) >>= lift
  store_server server

unfoldable pub unlock_server : Exec (Unit {0})
unlock_server = do
  me ← this_client
  server ← gets (λ s. Server.unlock me s.server) >>= lift
  store_server server

unfoldable pub find_table : Bytes → Exec (Option ℕ)
find_table name = gets λ s. Server.find_table name s.server

-- Server::create_table: a new table on the heap, under its name in the map.
unfoldable pub create_table : Bytes → Exec (Unit {0})
create_table name s = (
  ok tt,
  record s {
    server = Server.add_table name s.next s.server;
    tables = put_table s.tables s.next (Table.new_table name);
    next = suc s.next;
  },
)

-- encode(msg, text); rio_writen(m_client_fd, text)
unfoldable pub send : Message → Exec (Unit {0})
send msg = do text ← lift (encode msg); modify_conn λ c. record c { sent = c.sent ++ text ∷ [] }

unfoldable pub write_ok : Exec (Unit {0})
write_ok = send (message MessageType.ok [])

unfoldable pub end_loop : Exec (Unit {0})
end_loop = modify_conn λ c. record c { loop_in_progress = false }
