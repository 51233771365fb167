-- ===== src/Connection/Triple.antt =====
-- A program logic for the methods of ClientConnection: what a method does from a state in which `P`
-- holds, on each way in which it can come to an end, and what it leaves of the other clients' tables.
use computer_systems_assignm.Prelude.{
  ℕ, Bool, true, false, ◌≡◌, ◌≢◌, refl, ◌∙◌, some, if◌then◌else◌,
}
use computer_systems_assignm.Exceptions.{Outcome, ok, throw, blocked, undefined, Exception}
use computer_systems_assignm.Table.{Table}
use computer_systems_assignm.Connection.State.{
  State, Exec, ◌>>=◌, ◌>>◌, lift, catch, gets, pure, raise, continue, handle,
}

-- From `s` to `s'` the tables that other clients have locked are the same ones, unchanged.
pub record Frame (s s' : State) : Type 0 where
  pub client : s'.conn.client ≡ s.conn.client
  pub kept :
      (p : ℕ) (t : Table) (j : ℕ)
      → j ≢ s.conn.client
      → s.tables p ≡ some t
      → t.mutex ≡ some j
      → s'.tables p ≡ some t
  pub made :
      (p : ℕ) (t : Table) (j : ℕ)
      → j ≢ s.conn.client
      → s'.tables p ≡ some t
      → t.mutex ≡ some j
      → s.tables p ≡ some t

pub Frame-refl : (s : State) → Frame s s
Frame-refl s = record { client = refl; kept = λ p t j n e m. e; made = λ p t j n e m. e }

pub Frame-trans : {r s t : State} → Frame r s → Frame s t → Frame r t
Frame-trans {r} {s} {t} f g = record {
  client = g.client ∙ f.client;
  kept = λ p x j n e m. g.kept p x j (λ k. n (k ∙ f.client)) (f.kept p x j n e m) m;
  made = λ p x j n e m. f.made p x j n (g.made p x j (λ k. n (k ∙ f.client)) e m) m;
}

-- The postcondition on a return, on an exception, on a wait (of the state at the call) and on
-- undefined behaviour.
pub record Spec (A : Type 0) : Type 1 where
  pub returns : A → State → Type 0
  pub throws : Exception → State → Type 0
  pub waits : State → Type 0
  pub faults : Type 0

abbrev pub Meets : {A : Type 0} → Spec A → State → Outcome A × State → Type 0
Meets q s (ok a, s') = Frame s s' × q.returns a s'
Meets q s (throw e, s') = Frame s s' × q.throws e s'
Meets q s (blocked, s') = q.waits s
Meets q s (undefined, s') = q.faults

pub record Triple {A : Type 0} (P : State → Type 0) (m : Exec A) (q : Spec A) : Type 0 where
  pub at : (s : State) → P s → Meets q s (m s)

-- The specification of the first part of a sequence, whose second part meets `q`.
abbrev pub before : {A B : Type 0} → Spec B → (A → State → Type 0) → Spec A
before q R = record { returns = R; throws = q.throws; waits = q.waits; faults = q.faults }

-- The same, for a second part that never waits.
abbrev pub no_wait : {A : Type 0} → Spec A → Spec A
no_wait q = record { returns = q.returns; throws = q.throws; waits = λ s. ⊥; faults = q.faults }

-- The same, with another postcondition on an exception.
abbrev pub catching : {A : Type 0} → Spec A → (Exception → State → Type 0) → Spec A
catching q R = record { returns = q.returns; throws = R; waits = q.waits; faults = q.faults }

Meets-after :
    {B : Type 0} (q : Spec B) {r s : State} (o : Outcome B × State)
    → Frame r s
    → Meets (no_wait q) s o
    → Meets q r o
Meets-after q (ok b, s') f h = (Frame-trans f h.0, h.1)
Meets-after q (throw e, s') f h = (Frame-trans f h.0, h.1)
Meets-after q (blocked, s') f h = absurd h
Meets-after q (undefined, s') f h = h

module _ {A B : Type 0} where
  bind_outcome :
      (q : Spec B) (R : A → State → Type 0) (f : A → Exec B) (r : State) (o : Outcome A × State)
      → Meets (before q R) r o
      → ((a : A) → Triple (R a) (f a) (no_wait q))
      → Meets q r (continue o.0 f o.1)
  bind_outcome q R f r (ok a, s) h k = Meets-after q (f a s) h.0 ((k a).at s h.1)
  bind_outcome q R f r (throw e, s) h k = h
  bind_outcome q R f r (blocked, s) h k = h
  bind_outcome q R f r (undefined, s) h k = h

catch_outcome :
    {A : Type 0} (q : Spec A) (R : Exception → State → Type 0) (c : Exception → Exec A) (r : State)
    (o : Outcome A × State)
    → Meets (catching q R) r o
    → ((e : Exception) → Triple (R e) (c e) (no_wait q))
    → Meets q r (handle o.0 c o.1)
catch_outcome q R c r (ok a, s) h k = h
catch_outcome q R c r (throw e, s) h k = Meets-after q (c e s) h.0 ((k e).at s h.1)
catch_outcome q R c r (blocked, s) h k = h
catch_outcome q R c r (undefined, s) h k = h

module _ {A B : Type 0} {P : State → Type 0} where
  pub Triple-bind :
      (R : A → State → Type 0) {m : Exec A} {f : A → Exec B} {q : Spec B}
      → Triple P m (before q R)
      → ((a : A) → Triple (R a) (f a) (no_wait q))
      → Triple P (m >>= f) q
  unfolding ◌>>=◌
  Triple-bind R {m} {f} {q} h k = record { at = λ s p. bind_outcome q R f s (m s) (h.at s p) k }

  -- A part that only reads leaves the state to the rest, which may still wait.
  pub Triple-gets :
      (g : State → A) {f : A → Exec B} {q : Spec B}
      → ((a : A) → Triple (λ s. P s × (g s ≡ a)) (f a) q)
      → Triple P (gets g >>= f) q
  unfolding ◌>>=◌ gets
  Triple-gets g k = record { at = λ s p. (k (g s)).at s (p, refl) }

  -- A pure part, which returns or throws.
  pub Triple-lift :
      (r : Outcome A) {f : A → Exec B} {q : Spec B}
      → ((a : A) → r ≡ ok a → Triple P (f a) q)
      → ((e : Exception) → r ≡ throw e → (s : State) → P s → q.throws e s)
      → r ≢ blocked
      → (r ≡ undefined → q.faults)
      → Triple P (lift r >>= f) q
  unfolding ◌>>=◌ lift
  Triple-lift (ok a) k h b u = record { at = λ s p. (k a refl).at s p }
  Triple-lift (throw e) k h b u = record { at = λ s p. (Frame-refl s, h e refl s p) }
  Triple-lift blocked k h b u = absurd (b refl)
  Triple-lift undefined k h b u = record { at = λ s p. u refl }

module _ {B : Type 0} {P : State → Type 0} where
  -- A test that throws; the rest may still wait.
  pub Triple-guard :
      (b : Bool) (e : Exception) {m : Exec B} {q : Spec B}
      → (b ≡ true → (s : State) → P s → q.throws e s)
      → (b ≡ false → Triple P m q)
      → Triple P ((if b then raise {A = Unit {0}} e else pure tt) >> m) q
  unfolding ◌>>=◌ lift
  Triple-guard true e h k = record { at = λ s p. (Frame-refl s, h refl s p) }
  Triple-guard false e h k = record { at = λ s p. (k refl).at s p }

module _ {A : Type 0} {P : State → Type 0} where
  pub Triple-catch :
      (R : Exception → State → Type 0) {m : Exec A} {c : Exception → Exec A} {q : Spec A}
      → Triple P m (catching q R)
      → ((e : Exception) → Triple (R e) (c e) (no_wait q))
      → Triple P (catch m c) q
  unfolding catch
  Triple-catch R {m} {c} {q} h k = record { at = λ s p. catch_outcome q R c s (m s) (h.at s p) k }

  pub Triple-pure : (a : A) {q : Spec A} → ((s : State) → P s → q.returns a s) → Triple P (pure a) q
  unfolding lift
  Triple-pure a h = record { at = λ s p. (Frame-refl s, h s p) }

  pub Triple-raise :
      (e : Exception) {q : Spec A} → ((s : State) → P s → q.throws e s) → Triple P (raise e) q
  unfolding lift
  Triple-raise e h = record { at = λ s p. (Frame-refl s, h s p) }

  pub Triple-if :
      (b : Bool) {m n : Exec A} {q : Spec A}
      → (b ≡ true → Triple P m q)
      → (b ≡ false → Triple P n q)
      → Triple P (if b then m else n) q
  Triple-if true h k = h refl
  Triple-if false h k = k refl

  -- A stronger precondition.
  pub Triple-pre :
      (P' : State → Type 0) {m : Exec A} {q : Spec A}
      → ((s : State) → P s → P' s)
      → Triple P' m q
      → Triple P m q
  Triple-pre P' h k = record { at = λ s p. k.at s (h s p) }

-- A known value.
pub Triple-ok :
    {A B : Type 0} {P : State → Type 0} (r : Outcome A) (a : A) (f : A → Exec B) {q : Spec B}
    → r ≡ ok a
    → Triple P (f a) q
    → Triple P (lift r >>= f) q
unfolding ◌>>=◌ lift
Triple-ok r a f e k = rw e (record { at = λ s p. k.at s p })
