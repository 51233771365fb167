-- ===== src/IncrValue/CommandLine.antt =====
-- The command line of incr_value.
use computer_systems_assignm.Prelude.{
  ◌≡◌, ◌↔◌, Bool, true, false, List, [], ◌∷◌, refl, arith, ℕ, if◌then◌else◌,
}
use computer_systems_assignm.Prelude.Int.{ℤ, is_negative}
use computer_systems_assignm.Exceptions.{Outcome, ok}
use computer_systems_assignm.Text.{Bytes, codes, bytes_eq, bytes_eq_iff}
use computer_systems_assignm.Client.{Socket}
use computer_systems_assignm.Client.Conversation.{Conversation, if_connected_iff, refused, no_exit}
use computer_systems_assignm.IncrValue.{incr_value, main}
use computer_systems_assignm.IncrValue.Session.{session, incr_value-Session}

abbrev Increments :
    (use_transaction : Bool) (username table key : Bytes) → ℤ → Socket → Socket → Type 0
Increments use_transaction username table key fd k k' =
    (is_negative fd ≡ false) × Conversation (session use_transaction username table key) k k'

-- Five arguments, or -t and five, a connection, and a session in which the value is incremented.
abbrev pub IncrementsValue : List Bytes → (Bytes → Bytes → ℤ) → Socket → Socket → Type 0
IncrementsValue (program ∷ hostname ∷ port ∷ username ∷ table ∷ key ∷ []) open_clientfd k k' =
    Increments false username table key (open_clientfd hostname port) k k'
IncrementsValue (program ∷ option ∷ hostname ∷ port ∷ username ∷ table ∷ key ∷ []) open_clientfd k
      k' =
    (option ≡ codes "-t") × Increments true username table key (open_clientfd hostname port) k k'
IncrementsValue argv open_clientfd k k' = ⊥

if_option_iff :
    (b : Bool) {Y X : Type 0} (k k' : Socket) {x : Outcome ℕ × Socket}
    → (b ≡ true) ↔ Y
    → (x ≡ (ok 0, k')) ↔ X
    → ((if b then x else (ok 1, k)) ≡ (ok 0, k')) ↔ (Y × X)
if_option_iff true k k' y h = (λ p. (y.0 refl, h.0 p), λ z. h.1 z.1)
if_option_iff false k k' y h = (λ p. no_exit k k' p, λ z. ground (arith, y.1 z.0))

-- incr_value exits with 0 exactly if it has five arguments, or six of which the first one is -t,
-- open_clientfd gives a descriptor for the host and the port, and the session with the others is accepted,
-- that of a transaction exactly if -t is there.
pub main-IncrementsValue :
    (argv : List Bytes) (open_clientfd : Bytes → Bytes → ℤ) (k k' : Socket)
    → (main argv open_clientfd k ≡ (ok 0, k')) ↔ IncrementsValue argv open_clientfd k k'
unfolding main
main-IncrementsValue [] open_clientfd k k' = refused k k'
main-IncrementsValue (p ∷ []) open_clientfd k k' = refused k k'
main-IncrementsValue (p ∷ a ∷ []) open_clientfd k k' = refused k k'
main-IncrementsValue (p ∷ a ∷ b ∷ []) open_clientfd k k' = refused k k'
main-IncrementsValue (p ∷ a ∷ b ∷ c ∷ []) open_clientfd k k' = refused k k'
main-IncrementsValue (p ∷ a ∷ b ∷ c ∷ d ∷ []) open_clientfd k k' = refused k k'
main-IncrementsValue (program ∷ host ∷ port ∷ username ∷ table ∷ key ∷ []) open_clientfd k k' =
    if_connected_iff (open_clientfd host port) (incr_value false username table key) k k'
      (incr_value-Session false username table key k k')
main-IncrementsValue (p ∷ option ∷ host ∷ port ∷ username ∷ table ∷ key ∷ []) open_clientfd k k' =
    if_option_iff (bytes_eq option (codes "-t")) k k' (bytes_eq_iff option (codes "-t")) (
      if_connected_iff (open_clientfd host port) (incr_value true username table key) k k'
        (incr_value-Session true username table key k k'))
main-IncrementsValue (p ∷ a ∷ b ∷ c ∷ d ∷ e ∷ f ∷ g ∷ rest) open_clientfd k k' = refused k k'
