-- ===== src/Connection/Runs.antt =====
-- Single runs of the monad: what a sequence does when the result of its first part is known.
use computer_systems_assignm.Prelude.{◌≡◌, ap}
use computer_systems_assignm.Exceptions.{Outcome, ok, throw, blocked, undefined, Exception}
use computer_systems_assignm.Connection.State.{
  State, Exec, ◌>>=◌, catch, gets, lift, continue, handle,
}

module _ {A B : Type 0} (m : Exec A) (f : A → Exec B) {s s' : State} where
  pub bind-ok : {a : A} → m s ≡ (ok a, s') → (m >>= f) s ≡ f a s'
  unfolding ◌>>=◌
  bind-ok e = ap (λ (x : Outcome A × State). continue x.0 f x.1) e

  pub bind-throw : {x : Exception} → m s ≡ (throw x, s') → (m >>= f) s ≡ (throw x, s')
  unfolding ◌>>=◌
  bind-throw e = ap (λ (x : Outcome A × State). continue x.0 f x.1) e

  pub bind-blocked : m s ≡ (blocked, s') → (m >>= f) s ≡ (blocked, s')
  unfolding ◌>>=◌
  bind-blocked e = ap (λ (x : Outcome A × State). continue x.0 f x.1) e

  pub bind-undefined : m s ≡ (undefined, s') → (m >>= f) s ≡ (undefined, s')
  unfolding ◌>>=◌
  bind-undefined e = ap (λ (x : Outcome A × State). continue x.0 f x.1) e

module _ {A : Type 0} (m : Exec A) (h : Exception → Exec A) {s s' : State} where
  pub catch-ok : {a : A} → m s ≡ (ok a, s') → catch m h s ≡ (ok a, s')
  unfolding catch
  catch-ok e = ap (λ (x : Outcome A × State). handle x.0 h x.1) e

  pub catch-throw : {x : Exception} → m s ≡ (throw x, s') → catch m h s ≡ h x s'
  unfolding catch
  catch-throw e = ap (λ (x : Outcome A × State). handle x.0 h x.1) e

  pub catch-blocked : m s ≡ (blocked, s') → catch m h s ≡ (blocked, s')
  unfolding catch
  catch-blocked e = ap (λ (x : Outcome A × State). handle x.0 h x.1) e

  pub catch-undefined : m s ≡ (undefined, s') → catch m h s ≡ (undefined, s')
  unfolding catch
  catch-undefined e = ap (λ (x : Outcome A × State). handle x.0 h x.1) e

-- A read of the state, or a pure part, with a known value.
pub gets-ok :
    {A B : Type 0} (g : State → A) (f : A → Exec B) {s : State} {a : A}
    → g s ≡ a
    → (gets g >>= f) s ≡ f a s
unfolding ◌>>=◌ gets
gets-ok g f {s} e = ap (λ a. f a s) e

pub lift-ok :
    {A B : Type 0} (r : Outcome A) (f : A → Exec B) {s : State} {a : A}
    → r ≡ ok a
    → (lift r >>= f) s ≡ f a s
unfolding ◌>>=◌ lift
lift-ok {A = A} r f {s} e = ap (λ (x : Outcome A). continue x f s) e
