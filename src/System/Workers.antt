-- ===== src/System/Workers.antt =====
-- Server::client_worker as a sequence of steps of its client.
use computer_systems_assignm.Prelude.{
  ℕ, ◌≡◌, refl, sym, ap, ◌∙◌, true, false, List, [], ◌∷◌, arith, ==_iff, Bool-cases, inl, inr,
}
use mathlib.Core.Path.{subst}
use computer_systems_assignm.Exceptions.{Outcome, ok, throw, blocked, undefined}
use computer_systems_assignm.Connection.State.{State, Exec, ◌>>=◌, ◌>>◌, lift, continue}
use computer_systems_assignm.Connection.Chat.{
  Read, Locals, new_locals, chat_round, chat_loop, chat_with_client, close_fd, delete_connection,
  client_worker,
}
use computer_systems_assignm.Connection.Runs.{gets-ok}
use computer_systems_assignm.System.Locks.{IsReleased, leave-IsReleased}
use computer_systems_assignm.System.{
  System, view, after, leave, round, hang_up, Reachable, stay, step, new_system, Good,
  new_system-Good, Reachable-Good,
}

ok-inverse :
    {A B : Type 0} (f : A → Exec B) (o : Outcome A × State) (b : B) (s' : State)
    → continue o.0 f o.1 ≡ (ok b, s')
    → (a : A) × (o.0 ≡ ok a) × (f a o.1 ≡ (ok b, s'))
ok-inverse f (ok a, s) b s' h = (a, refl, h)
ok-inverse f (throw e, s) b s' h = ground arith
ok-inverse f (blocked, s) b s' h = ground arith
ok-inverse f (undefined, s) b s' h = ground arith

pub view-after : (i : ℕ) (l : Locals) (s : State) (sys : System) → view i (after i l s sys) ≡ s
view-after i l s sys = rw ((==_iff i i).1 refl) refl

pub locals-after : (i : ℕ) (l : Locals) (s : State) (sys : System) → (after i l s sys).locals i ≡ l
locals-after i l s sys = rw ((==_iff i i).1 refl) refl

-- Runs of steps, one after the other.
pub Reachable-trans : {r s t : System} → Reachable r s → Reachable s t → Reachable r t
Reachable-trans h stay = h
Reachable-trans h (step k x) = step (Reachable-trans h k) x

-- A run of steps behind which client `i` leaves its loop, and comes to the state `s`.
abbrev pub LeavesTo : ℕ → State → System → Type 0
LeavesTo i s sys =
    (sys' : System) × Reachable sys sys'
    × ((sys'.conns i).loop_in_progress ≡ false)
    × (leave (view i sys') ≡ (ok tt, s))

module _ (l : Locals) (s : State) where
  loop_stops :
      (reads : List Read) → s.conn.loop_in_progress ≡ false → chat_loop reads l s ≡ close_fd s
  unfolding chat_loop
  loop_stops [] e = gets-ok (λ r. r.conn.loop_in_progress) _ e
  loop_stops (r ∷ reads) e = gets-ok (λ r. r.conn.loop_in_progress) _ e

  loop_waits : s.conn.loop_in_progress ≡ true → chat_loop [] l s ≡ (blocked, s)
  unfolding chat_loop lift
  loop_waits e = gets-ok (λ r. r.conn.loop_in_progress) _ e

  loop_goes_on :
      (r : Read) (reads : List Read)
      → s.conn.loop_in_progress ≡ true
      → chat_loop (r ∷ reads) l s ≡ (chat_round r l >>= λ l'. chat_loop reads l') s
  unfolding chat_loop
  loop_goes_on r reads e = gets-ok (λ r. r.conn.loop_in_progress) _ e

abbrev and_leaves : Outcome (Unit {0}) × State → Outcome (Unit {0}) × State
and_leaves o = continue o.0 (λ _. delete_connection) o.1

and_leaves-continue :
    {A : Type 0} (f : A → Exec (Unit {0})) (o : Outcome A × State)
    → and_leaves (continue o.0 f o.1) ≡ continue o.0 (λ a. f a >> delete_connection) o.1
unfolding ◌>>=◌
and_leaves-continue f (ok a, s) = refl
and_leaves-continue f (throw e, s) = refl
and_leaves-continue f (blocked, s) = refl
and_leaves-continue f (undefined, s) = refl

chat_loop-LeavesTo :
    (reads : List Read) (i : ℕ) (sys : System) (s' : State)
    → (chat_loop reads (sys.locals i) >> delete_connection) (view i sys) ≡ (ok tt, s')
    → LeavesTo i s' sys
unfolding ◌>>=◌
chat_loop-LeavesTo [] i sys s' h = elim (Bool-cases (sys.conns i).loop_in_progress) [
  | inl e ↦
      let stuck : ◌≡◌ {A = Outcome (Unit {0}) × State} (blocked, view i sys) (ok tt, s') =
        sym (ap and_leaves (loop_waits (sys.locals i) (view i sys) e)) ∙ h in
      ground arith
  | inr e ↦ (sys, stay, e, sym (ap and_leaves (loop_stops (sys.locals i) (view i sys) [] e)) ∙ h)
]
chat_loop-LeavesTo (r ∷ reads) i sys s' h = elim (Bool-cases (sys.conns i).loop_in_progress) [
  | inl e ↦
      let o : Outcome Locals × State = chat_round r (sys.locals i) (view i sys) in
      let (l, returned, rest) =
        ok-inverse (λ a. chat_loop reads a >> delete_connection) o tt s'
          (sym (and_leaves-continue (chat_loop reads) o)
            ∙ sym (ap and_leaves (loop_goes_on (sys.locals i) (view i sys) r reads e))
            ∙ h) in
      let sys1 : System = after i l o.1 sys in
      let (sys2, run, stopped, same) =
        chat_loop-LeavesTo reads i sys1 s'
          (rw (locals-after i l o.1 sys, view-after i l o.1 sys) rest) in
      (sys2, Reachable-trans (step stay (round i r l e returned)) run, stopped, same)
  | inr e ↦
      (sys, stay, e, sym (ap and_leaves (loop_stops (sys.locals i) (view i sys) (r ∷ reads) e)) ∙ h)
]

-- In a state that the clients of a new server can reach, if client_worker returns for a client that has just
-- connected, whatever lines it reads, then what it does is a run of steps of the system: rounds of its loop
-- and the end of its thread. Behind it the client is in no transaction and holds no lock.
pub client_worker-IsReleased :
    (reads : List Read) (i : ℕ) (sys : System) (s' : State)
    → Reachable new_system sys
    → sys.locals i ≡ new_locals
    → client_worker reads (view i sys) ≡ (ok tt, s')
    → ((sys' : System) × Reachable sys sys' × (view i sys' ≡ s')) × IsReleased (ok tt, s')
unfolding client_worker chat_with_client
client_worker-IsReleased reads i sys s' reached new h =
    let (sys1, run, stopped, e) = chat_loop-LeavesTo reads i sys s' (rw new h) in
    let g : Good sys1 = Reachable-Good new_system-Good (Reachable-trans reached run) in
    (
      (
        after i (sys1.locals i) (leave (view i sys1)).1 sys1,
        step run (hang_up i stopped (ap (λ (x : Outcome (Unit {0}) × State). x.0) e)),
        view-after i (sys1.locals i) (leave (view i sys1)).1 sys1
            ∙ ap (λ (x : Outcome (Unit {0}) × State). x.1) e,
      ),
      subst IsReleased e (leave-IsReleased (view i sys1) (g.ready i)),
    )
