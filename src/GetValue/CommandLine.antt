-- ===== src/GetValue/CommandLine.antt =====
-- The command line of get_value.
use computer_systems_assignm.Prelude.{◌≡◌, ◌↔◌, false, List, [], ◌∷◌}
use computer_systems_assignm.Prelude.Int.{ℤ, is_negative}
use computer_systems_assignm.Exceptions.{ok}
use computer_systems_assignm.Text.{Bytes}
use computer_systems_assignm.Client.{Socket}
use computer_systems_assignm.Client.Conversation.{Conversation, if_connected_iff, refused}
use computer_systems_assignm.GetValue.{get_value, main}
use computer_systems_assignm.GetValue.Session.{Printed, before_top, after_top, get_value-Session}

-- Five arguments, a connection, and a session in which the value is printed.
abbrev pub PrintsValue : List Bytes → (Bytes → Bytes → ℤ) → Socket → Socket → Type 0
PrintsValue (program ∷ hostname ∷ port ∷ username ∷ table ∷ key ∷ []) open_clientfd k k' =
    (is_negative (open_clientfd hostname port) ≡ false)
    × ((asked : Socket) × (printed : Socket) × Conversation (before_top username table key) k asked
        × Printed asked printed
        × Conversation after_top printed k')
PrintsValue argv open_clientfd k k' = ⊥

-- get_value exits with 0 exactly if it has five arguments, open_clientfd gives a descriptor for the first
-- two of them, and the session with the other three is accepted: the value is got and printed.
pub main-PrintsValue :
    (argv : List Bytes) (open_clientfd : Bytes → Bytes → ℤ) (k k' : Socket)
    → (main argv open_clientfd k ≡ (ok 0, k')) ↔ PrintsValue argv open_clientfd k k'
unfolding main
main-PrintsValue [] open_clientfd k k' = refused k k'
main-PrintsValue (p ∷ []) open_clientfd k k' = refused k k'
main-PrintsValue (p ∷ a ∷ []) open_clientfd k k' = refused k k'
main-PrintsValue (p ∷ a ∷ b ∷ []) open_clientfd k k' = refused k k'
main-PrintsValue (p ∷ a ∷ b ∷ c ∷ []) open_clientfd k k' = refused k k'
main-PrintsValue (p ∷ a ∷ b ∷ c ∷ d ∷ []) open_clientfd k k' = refused k k'
main-PrintsValue (program ∷ host ∷ port ∷ username ∷ table ∷ key ∷ []) open_clientfd k k' =
    if_connected_iff (open_clientfd host port) (get_value username table key) k k'
      (get_value-Session username table key k k')
main-PrintsValue (p ∷ a ∷ b ∷ c ∷ d ∷ e ∷ g ∷ rest) open_clientfd k k' = refused k k'
