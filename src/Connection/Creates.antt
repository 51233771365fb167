-- ===== src/Connection/Creates.antt =====
-- CREATE: what it does to the locks.
use computer_systems_assignm.Prelude.{
  ℕ, suc, ◌++◌, ◌≡◌, refl, sym, ◌∙◌, ap, true, false, [], ◌∷◌, Option, none, some, arith,
}
use computer_systems_assignm.Exceptions.{ok}
use computer_systems_assignm.Text.{Bytes, codes, newline}
use computer_systems_assignm.Serialization.{
  encode, encode_as, type_word, append_args, check_message_size,
}
use computer_systems_assignm.Dict.{lookup, lookup-insert}
use computer_systems_assignm.Message.{MessageType, message}
use computer_systems_assignm.Table
use computer_systems_assignm.Table.{Table}
use computer_systems_assignm.Server
use computer_systems_assignm.Connection.State.{
  ClientConnection, State, ◌>>=◌, lift, gets, modify_conn,
}
use computer_systems_assignm.Connection.Calls.{
  find_table, write_ok, send, lock_server, unlock_server, create_table, put_table, store_server,
  this_client,
}
use computer_systems_assignm.Connection.Handlers.{handle_create, create_unless, table_exists}
use computer_systems_assignm.Connection.Triple.{
  Frame, Spec, Triple, no_wait, Triple-bind, Triple-gets, Triple-raise, Triple-pre, Triple-ok,
}
use computer_systems_assignm.Connection.Owns.{Owns, Ready, Waits, Owns-conn, Frame-conn}
use computer_systems_assignm.Connection.Acquire.{Waiting, first_arg}
use computer_systems_assignm.Connection.Steady.{safe}

abbrev locked_by : ℕ → Server.Server → Server.Server
locked_by me server = record server { mutex = some me; mutex_is_locked = true }

abbrev with_server : State → Server.Server → State
with_server s server = record s { server = server }

-- Inside create_table's critical section: ready, but for the lock of the server.
record Inside (s : State) : Type 0 where
  pub owner : s.server.mutex ≡ some s.conn.client
  pub ready : Ready (with_server s (record (s.server) { mutex = none }))

Frame-server : (s : State) (server : Server.Server) → Frame s (with_server s server)
Frame-server s server = record { client = refl; kept = λ p t j n h m. h; made = λ p t j n h m. h }

Ready-server :
    (s : State) (server : Server.Server)
    → server.mutex ≡ none
    → server.table_names ≡ s.server.table_names
    → Ready s
    → Ready (with_server s server)
Ready-server s server free same r = record {
  owns = record {
    fresh = r.owns.fresh;
    named = λ name p e. r.owns.named name p (ap (lookup name) (sym same) ∙ e);
    server_free = free;
    held = r.owns.held;
    only = r.owns.only;
    distinct = r.owns.distinct;
  };
  idle = r.idle;
}

lock_server-run :
    (s : State)
    → s.server.mutex ≡ none
    → lock_server s ≡ (ok tt, with_server s (locked_by s.conn.client s.server))
unfolding lock_server this_client store_server ◌>>=◌ gets lift Server.lock Table.mutex_lock
lock_server-run s free = rw free refl

server_unlock-held :
    (me : ℕ) (server : Server.Server)
    → server.mutex ≡ some me
    → Server.unlock me server ≡ ok (record server { mutex = none; mutex_is_locked = false })
unfolding Server.unlock Table.mutex_unlock
server_unlock-held me server m = ground arith

unlock_server-run :
    (s : State)
    → s.server.mutex ≡ some s.conn.client
    → unlock_server s
      ≡ (ok tt, with_server s (record (s.server) { mutex = none; mutex_is_locked = false }))
unfolding unlock_server this_client store_server ◌>>=◌ gets lift
unlock_server-run s owner = rw (server_unlock-held s.conn.client s.server owner) refl

lock_server-Inside :
    {q : Spec (Unit {0})} → ((s : State) → Inside s → q.returns tt s) → Triple Ready lock_server q
lock_server-Inside k = record {
  at = λ s r.
      rw (lock_server-run s r.owns.server_free)
        (Frame-server s _, k _ (record { owner = refl; ready = Ready-server s _ refl refl r }));
}

unlock_server-Inside :
    {q : Spec (Unit {0})} → ((s : State) → Ready s → q.returns tt s) → Triple Inside unlock_server q
unlock_server-Inside k = record {
  at = λ s r. rw (unlock_server-run s r.owner) (
    Frame-server s _,
    k _ (Ready-server (with_server s (record (s.server) { mutex = none })) _ refl refl r.ready),
  );
}

-- The new table is free, and nobody has its pointer yet.
module _ (name : Bytes) (t : Table) (free : t.mutex ≡ none) (s : State) (r : Inside s) where
  abbrev created : State
  created = record s {
    server = Server.add_table name s.next s.server;
    tables = put_table s.tables s.next t;
    next = suc s.next;
  }

  create_table-Owns :
      Owns s.conn.locked_tables (with_server created (record (created.server) { mutex = none }))
  unfolding Server.add_table
  create_table-Owns = record {
    fresh = λ q b. ground (arith, r.ready.owns.fresh q);
    named = λ other q e.
        ground
          (arith, r.ready.owns.named other q, lookup-insert name other s.next s.server.table_names);
    server_free = refl;
    held = λ q e. ground (arith, r.ready.owns.held q e, r.ready.owns.fresh s.next);
    only = λ q x e m. ground (arith, r.ready.owns.only q x);
    distinct = r.ready.owns.distinct;
  }

  Frame-create : Frame s created
  Frame-create = record {
    client = refl;
    kept = λ q x j n e m. ground (arith, r.ready.owns.fresh s.next);
    made = λ q x j n e m. ground arith;
  }

  create_table-Inside : Inside created
  unfolding Server.add_table
  create_table-Inside = record {
    owner = r.owner;
    ready = record { owns = unfold Server.add_table in create_table-Owns; idle = r.ready.idle };
  }

create_table-lem :
    (name : Bytes) {q : Spec (Unit {0})}
    → ((s : State) → Inside s → q.returns tt s)
    → Triple Inside (create_table name) q
unfolding create_table Table.new_table
create_table-lem name k = record {
  at = λ s r. (
    Frame-create name (Table.new_table name) refl s r,
    k _ (create_table-Inside name (Table.new_table name) refl s r),
  );
}

abbrev told_ok : ClientConnection → ClientConnection
told_ok c = record c { sent = c.sent ++ (codes "OK" ++ newline ∷ []) ∷ [] }

-- The answer OK is always encoded, so that the server is not left locked.
write_ok-run : (s : State) → write_ok s ≡ (ok tt, record s { conn = told_ok s.conn })
unfolding write_ok send ◌>>=◌ lift modify_conn encode encode_as type_word append_args
    check_message_size
write_ok-run s = refl

Ready-told : (s : State) → Ready s → Ready (record s { conn = told_ok s.conn })
Ready-told s r = record { owns = Owns-conn s (told_ok s.conn) refl r.owns; idle = r.idle }

write_ok-Inside :
    {q : Spec (Unit {0})} → ((s : State) → Inside s → q.returns tt s) → Triple Inside write_ok q
write_ok-Inside k = record {
  at = λ s r. rw (write_ok-run s) (
    Frame-conn s (told_ok s.conn) refl,
    k _ (record { owner = r.owner; ready = Ready-told _ r.ready }),
  );
}

create_unless-Inside :
    {f : Type 0} (name : Bytes) (found : Option ℕ)
    → Triple Inside (create_unless name found) (no_wait (safe (Unit {0}) Waits f))
unfolding create_unless
create_unless-Inside name (some p) =
    Triple-bind (λ _. Ready) (unlock_server-Inside (λ s r. r))
      (λ _. Triple-raise table_exists (λ s r. r))
create_unless-Inside name none =
    Triple-bind (λ _. Inside) (create_table-lem name (λ s r. r))
      (λ _.
        Triple-bind (λ _. Inside) (write_ok-Inside (λ s r. r))
          (λ _. unlock_server-Inside (λ s r. r)))

pub handle_create-Waiting :
    {f : Type 0} (t : MessageType) (name : Bytes)
    → Waiting f (handle_create (message t (name ∷ [])))
unfolding handle_create find_table
handle_create-Waiting t name =
    Triple-bind (λ _. Inside) (lock_server-Inside (λ s r. r))
      (λ _. Triple-ok _ name _ (first_arg t name []) (
        Triple-gets (λ s. Server.find_table name s.server)
          λ found. Triple-pre Inside (λ s h. h.0) (create_unless-Inside name found)))
