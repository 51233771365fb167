-- ===== src/Connection/State.antt =====
-- The state that a method of ClientConnection works on: the members of the connection, the server
-- and the heap of tables. A method changes the state also when it throws.
use computer_systems_assignm.Prelude.{ℕ, Bool, true, false, List, [], Option}
use computer_systems_assignm.Exceptions.{Outcome, ok, throw, blocked, undefined, Exception}
use computer_systems_assignm.Text.{Bytes}
use computer_systems_assignm.ValueStack.{ValueStack}
use computer_systems_assignm.Table.{Table}
use computer_systems_assignm.Server.{Server}

-- `client` names the thread that serves the connection, `sent` has the texts passed to rio_writen,
-- oldest first, and `closed` tells whether the descriptor is closed.
pub record ClientConnection : Type 0 where
  pub client : ℕ
  pub stack : ValueStack
  pub locked_tables : List ℕ
  pub in_transaction : Bool
  pub loop_in_progress : Bool
  pub sent : List Bytes
  pub closed : Bool

-- ClientConnection(server, client_fd)
abbrev pub new_connection : ℕ → ClientConnection
new_connection client = record {
  client = client;
  stack = [];
  locked_tables = [];
  in_transaction = false;
  loop_in_progress = true;
  sent = [];
  closed = false;
}

-- Table pointers below `next` have been allocated; no table is ever freed.
pub record State : Type 0 where
  pub server : Server
  pub tables : ℕ → Option Table
  pub next : ℕ
  pub conn : ClientConnection

-- A client has just connected to the server.
abbrev pub connected : Server → (ℕ → Option Table) → ℕ → ℕ → State
connected server tables next client = record {
  server = server;
  tables = tables;
  next = next;
  conn = new_connection client;
}

abbrev pub Exec {ℓ} : Type ℓ → Type ℓ
Exec A = State → Outcome A × State

abbrev pub continue {ℓ κ} : {A : Type ℓ} {B : Type κ} → Outcome A → (A → Exec B) → Exec B
continue (ok a) f s = f a s
continue (throw e) f s = (throw e, s)
continue blocked f s = (blocked, s)
continue undefined f s = (undefined, s)

infixl 5 ◌>>=◌ ◌>>◌
unfoldable pub ◌>>=◌ {ℓ κ} : {A : Type ℓ} {B : Type κ} → Exec A → (A → Exec B) → Exec B
◌>>=◌ m f s = continue (m s).0 f (m s).1

abbrev pub ◌>>◌ {ℓ κ} : {A : Type ℓ} {B : Type κ} → Exec A → Exec B → Exec B
m >> n = m >>= λ _. n

module _ {ℓ} {A : Type ℓ} where
  unfoldable pub lift : Outcome A → Exec A
  lift r s = (r, s)

  abbrev pub handle : Outcome A → (Exception → Exec A) → Exec A
  handle (ok a) h s = (ok a, s)
  handle (throw e) h s = h e s
  handle blocked h s = (blocked, s)
  handle undefined h s = (undefined, s)

  -- try m catch h; what `h` does not catch it throws again.
  unfoldable pub catch : Exec A → (Exception → Exec A) → Exec A
  catch m h s = handle (m s).0 h (m s).1

  unfoldable pub gets : (State → A) → Exec A
  gets f s = (ok (f s), s)

abbrev pub pure {ℓ} : {A : Type ℓ} → A → Exec A
pure a = lift (ok a)

abbrev pub raise {ℓ} : {A : Type ℓ} → Exception → Exec A
raise e = lift (throw e)

-- A change of the connection's own members.
unfoldable pub modify_conn : (ClientConnection → ClientConnection) → Exec (Unit {0})
modify_conn f s = (ok tt, record s { conn = f s.conn })
