-- ===== src/System.antt =====
-- The server as its clients share it (server.cpp starts a thread of client_worker for each): the
-- interleavings of their rounds of chat_with_client. A round is one step; a round that has to wait is no
-- step, and is tried again later. A table that a SET or GET outside a transaction has locked for its duration can
-- make the trylock of a round in between fail; this is a step too. An exception that leaves the loop would end the process, and is no step.
pub mod Locks
pub mod Isolation
pub mod Workers
pub mod Values
use computer_systems_assignm.Prelude.{
  ℕ, ◌≤◌, ◌<◌, ◌≡◌, ◌≢◌, refl, sym, ◌∙◌, ap, Bool, true, false, List, [], ◌∷◌, Option, none, some,
  arith, ◌==◌, ==_iff, Bool-cases, inl, inr, if◌then◌else◌,
}
use mathlib.Core.Path.{subst}
use computer_systems_assignm.Exceptions.{Outcome, ok, throw, blocked, undefined}
use computer_systems_assignm.Text.{Bytes}
use computer_systems_assignm.Dict.{lookup}
use computer_systems_assignm.Message.{Message}
use computer_systems_assignm.Message.Validity.{IsAccepted}
use computer_systems_assignm.Table.{Table}
use computer_systems_assignm.Server
use computer_systems_assignm.Connection.State.{
  ClientConnection, new_connection, State, Exec, ◌>>=◌, ◌>>◌, modify_conn,
}
use computer_systems_assignm.Connection.Handlers.{is_locked, call_response_function}
use computer_systems_assignm.Connection.Chat.{
  Read, Locals, new_locals, chat_round, close_fd, delete_connection,
}
use computer_systems_assignm.Connection.Lines.{RoundFaults, chat_round-IsSafe}
use computer_systems_assignm.Connection.Triple.{Frame, Meets, Spec, Triple, Triple-bind}
use computer_systems_assignm.Connection.Owns.{Owns, Ready, Waits, IsHeldBy, Frame-conn, with_table}
use computer_systems_assignm.Connection.Lends.{lent, lent-Ready, back-Ready, back-Frame}
use computer_systems_assignm.Connection.Keeps.{held_table}
use computer_systems_assignm.Connection.Serve.{KeyFound, MayFault, call_response_function-Meets}
use computer_systems_assignm.Connection.Steady.{safe, Ready-conn}
use computer_systems_assignm.Connection.Requests.{Out, delete_connection-Out}

pub record System : Type 0 where
  pub server : Server.Server
  pub tables : ℕ → Option Table
  pub next : ℕ
  pub conns : ℕ → ClientConnection
  pub locals : ℕ → Locals

-- What client `i` sees.
abbrev pub view : ℕ → System → State
view i sys = record {
  conn = sys.conns i;
  server = sys.server;
  tables = sys.tables;
  next = sys.next;
}

abbrev pub put_at : {A : Type 0} → (ℕ → A) → ℕ → A → ℕ → A
put_at f i a j = if i == j then a else f j

-- The system when client `i` has come to the state `s`, with the local variables `l` of its loop.
abbrev pub after : ℕ → Locals → State → System → System
after i l s sys = record {
  server = s.server;
  tables = s.tables;
  next = s.next;
  conns = put_at sys.conns i s.conn;
  locals = put_at sys.locals i l;
}

-- What follows the loop.
abbrev pub leave : Exec (Unit {0})
leave = do close_fd; delete_connection

-- A round of a client's loop; one during which another client, outside a transaction, has locked a table that is
-- free before and after; or the end of a client's thread.
pub data Step (sys : System) : System → Type 0 where
  round :
      (i : ℕ) (r : Read) (l : Locals)
      → (sys.conns i).loop_in_progress ≡ true
      → (chat_round r (sys.locals i) (view i sys)).0 ≡ ok l
      → Step sys (after i l (chat_round r (sys.locals i) (view i sys)).1 sys)
  contended :
      (i j p : ℕ) (t : Table) (r : Read) (l : Locals)
      → (sys.conns i).loop_in_progress ≡ true
      → j ≢ i
      → (sys.conns j).in_transaction ≡ false
      → sys.tables p ≡ some t
      → t.mutex ≡ none
      → (chat_round r (sys.locals i) (lent (view i sys) p t j)).0 ≡ ok l
      → Step sys
          (after i l (with_table (chat_round r (sys.locals i) (lent (view i sys) p t j)).1 p t) sys)
  hang_up :
      (i : ℕ)
      → (sys.conns i).loop_in_progress ≡ false
      → (leave (view i sys)).0 ≡ ok tt
      → Step sys (after i (sys.locals i) (leave (view i sys)).1 sys)

pub data Reachable (sys : System) : System → Type 0 where
  stay : Reachable sys sys
  step : {s t : System} → Reachable sys s → Step s t → Reachable sys t

abbrev pub new_system : System
new_system = record {
  server = Server.new_server;
  tables = λ p. none;
  next = 0;
  conns = new_connection;
  locals = λ i. new_locals;
}

-- Every client is ready for a request, and has its own number.
pub record Good (sys : System) : Type 0 where
  pub ready : (i : ℕ) → Ready (view i sys)
  pub number : (i : ℕ) → (sys.conns i).client ≡ i

pub new_system-Good : Good new_system
unfolding lookup is_locked
new_system-Good = record {
  ready = λ i. record {
    owns = record {
      fresh = λ p h. refl;
      named = λ name p e. ground arith;
      server_free = refl;
      held = λ p h. absurd (ground arith);
      only = λ p t e m. ground arith;
      distinct = tt;
    };
    idle = λ h. refl;
  };
  number = λ i. refl;
}

module _ (sys : System) (i : ℕ) (l : Locals) (s : State) (g : Good sys) (f : Frame (view i sys) s)
    (r : Ready s) where
  other_client : (j : ℕ) → i ≢ j → (sys.conns j).client ≢ (sys.conns i).client
  other_client j n e = n (sym (g.number i) ∙ sym e ∙ g.number j)

  -- The other clients still own what they owned.
  others-Ready : (j : ℕ) → i ≢ j → Ready (record s { conn = sys.conns j })
  others-Ready j n = record {
    owns = record {
      fresh = r.owns.fresh;
      named = r.owns.named;
      server_free = r.owns.server_free;
      held = λ p h.
          let (t, there, m) = held_table (view j sys) p (g.ready j).owns h in
          rw (f.kept p t (sys.conns j).client (other_client j n) there m) m;
      only = λ p t e m.
          (g.ready j).owns.only p t (f.made p t (sys.conns j).client (other_client j n) e m) m;
      distinct = (g.ready j).owns.distinct;
    };
    idle = (g.ready j).idle;
  }

  picked-Ready :
      (j : ℕ) (b : Bool)
      → (i == j) ≡ b
      → Ready (record s { conn = if b then s.conn else sys.conns j })
  picked-Ready j true e = r
  picked-Ready j false e = others-Ready j (λ h. ground arith)

  picked_number : (j : ℕ) (b : Bool) → (i == j) ≡ b → (if b then s.conn else sys.conns j).client ≡ j
  picked_number j true e = f.client ∙ g.number i ∙ (==_iff i j).0 e
  picked_number j false e = g.number j

  after-Good : Good (after i l s sys)
  after-Good = record {
    ready = λ j. picked-Ready j (i == j) refl;
    number = λ j. picked_number j (i == j) refl;
  }

ended-Good :
    {A : Type 0} (sys : System) (i : ℕ) (l : Locals) (a : A) (w : State → Type 0) (fault : Type 0)
    (o : Outcome A × State)
    → Good sys
    → Meets (safe A w fault) (view i sys) o
    → o.0 ≡ ok a
    → Good (after i l o.1 sys)
ended-Good sys i l a w fault (ok b, s) g h e = after-Good sys i l s g h.0 h.1
ended-Good sys i l a w fault (throw x, s) g h e = ground arith
ended-Good sys i l a w fault (blocked, s) g h e = ground arith
ended-Good sys i l a w fault (undefined, s) g h e = ground arith

contended-Good :
    (sys : System) (i j p : ℕ) (t : Table) (l : Locals) (fault : Type 0)
    (o : Outcome Locals × State)
    → Good sys
    → j ≢ i
    → sys.tables p ≡ some t
    → t.mutex ≡ none
    → Meets (safe Locals Waits fault) (lent (view i sys) p t j) o
    → o.0 ≡ ok l
    → Good (after i l (with_table o.1 p t) sys)
contended-Good sys i j p t l fault (ok b, s) g n there free h e =
    let other : j ≢ (sys.conns i).client = λ x. n (x ∙ g.number i) in
    after-Good sys i l (with_table s p t) g (back-Frame (view i sys) p j t there free other s h.0)
      (back-Ready (view i sys) p j t there free other s h.0 h.1)
contended-Good sys i j p t l fault (throw x, s) g n there free h e = ground arith
contended-Good sys i j p t l fault (blocked, s) g n there free h e = ground arith
contended-Good sys i j p t l fault (undefined, s) g n there free h e = ground arith

-- The end of the thread returns, and the client holds no lock.
pub leave-Out :
    {q : Spec (Unit {0})} → ((s : State) → Out s → q.returns tt s) → Triple Ready leave q
unfolding close_fd modify_conn
leave-Out k =
    Triple-bind (λ _. Ready)
      (record {
        at = λ s r.
            let c : ClientConnection = record (s.conn) { closed = true } in
            (Frame-conn s c refl, Ready-conn s c refl refl (λ h. h) r);
      })
      (λ _. delete_connection-Out k)

-- Every step keeps every client ready: what is locked by a client is what it remembers.
pub Step-Good : {s t : System} → Good s → Step s t → Good t
Step-Good {s} g (round i r l running returned) =
    ended-Good s i l l Waits (RoundFaults r (s.locals i) (view i s))
      (chat_round r (s.locals i) (view i s)) g
      (chat_round-IsSafe r (s.locals i) (view i s) (g.ready i)) returned
Step-Good {s} g (contended i j p t r l running n single there free returned) =
    let other : j ≢ (s.conns i).client = λ x. n (x ∙ g.number i) in
    let s' : State = lent (view i s) p t j in
    contended-Good s i j p t l (RoundFaults r (s.locals i) s') (chat_round r (s.locals i) s') g n
      there free
      (chat_round-IsSafe r (s.locals i) s'
        (lent-Ready (view i s) p j t there free other (g.ready i)))
      returned
Step-Good {s} g (hang_up i stopped returned) =
    ended-Good s i (s.locals i) tt Waits ⊥ (leave (view i s)) g
      ((leave-Out {q = safe (Unit {0}) Waits ⊥} (λ s o. o.ready)).at (view i s) (g.ready i))
      returned

pub Reachable-Good : {s t : System} → Good s → Reachable s t → Good t
Reachable-Good g stay = g
Reachable-Good g (step r h) = Step-Good (Reachable-Good g r) h
