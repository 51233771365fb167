-- ===== src/SetValue/CommandLine.antt =====
-- The command line of set_value.
use computer_systems_assignm.Prelude.{◌≡◌, ◌↔◌, false, List, [], ◌∷◌}
use computer_systems_assignm.Prelude.Int.{ℤ, is_negative}
use computer_systems_assignm.Exceptions.{ok}
use computer_systems_assignm.Text.{Bytes}
use computer_systems_assignm.Client.{Socket}
use computer_systems_assignm.Client.Conversation.{Conversation, if_connected_iff, refused}
use computer_systems_assignm.SetValue.{set_value, main}
use computer_systems_assignm.SetValue.Session.{session, set_value-Session}

-- Six arguments, a connection, and a session in which the value is stored.
abbrev pub StoresValue : List Bytes → (Bytes → Bytes → ℤ) → Socket → Socket → Type 0
StoresValue (program ∷ hostname ∷ port ∷ username ∷ table ∷ key ∷ value ∷ []) open_clientfd k k' =
    (is_negative (open_clientfd hostname port) ≡ false)
    × Conversation (session username table key value) k k'
StoresValue argv open_clientfd k k' = ⊥

-- set_value exits with 0 exactly if it has six arguments, open_clientfd gives a descriptor for the first
-- two of them, and the session with the other four is accepted: the value is pushed and set.
pub main-StoresValue :
    (argv : List Bytes) (open_clientfd : Bytes → Bytes → ℤ) (k k' : Socket)
    → (main argv open_clientfd k ≡ (ok 0, k')) ↔ StoresValue argv open_clientfd k k'
unfolding main
main-StoresValue [] open_clientfd k k' = refused k k'
main-StoresValue (p ∷ []) open_clientfd k k' = refused k k'
main-StoresValue (p ∷ a ∷ []) open_clientfd k k' = refused k k'
main-StoresValue (p ∷ a ∷ b ∷ []) open_clientfd k k' = refused k k'
main-StoresValue (p ∷ a ∷ b ∷ c ∷ []) open_clientfd k k' = refused k k'
main-StoresValue (p ∷ a ∷ b ∷ c ∷ d ∷ []) open_clientfd k k' = refused k k'
main-StoresValue (p ∷ a ∷ b ∷ c ∷ d ∷ e ∷ []) open_clientfd k k' = refused k k'
main-StoresValue (program ∷ host ∷ port ∷ username ∷ table ∷ key ∷ value ∷ []) open_clientfd k k' =
    if_connected_iff (open_clientfd host port) (set_value username table key value) k k'
      (set_value-Session username table key value k k')
main-StoresValue (p ∷ a ∷ b ∷ c ∷ d ∷ e ∷ f ∷ g ∷ rest) open_clientfd k k' = refused k k'
