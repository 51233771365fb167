-- ===== src/Tests/Rounds.antt =====
-- Rounds of the server's loop: a client, a failed accept, and a client that gets no thread.
use computer_systems_assignm.Prelude.{◌≡◌, [], ◌∷◌, List}
use computer_systems_assignm.Prelude.Int.{pos, negsuc}
use computer_systems_assignm.Exceptions.{blocked}
use computer_systems_assignm.ServerMain.{new_process, Round, server_loop}
use computer_systems_assignm.ServerMain.Accepting.{logged, server_loop-extended}

abbrev three_rounds : List Round
three_rounds =
    record { client_fd = pos 4; created = pos 0 }
    ∷ record { client_fd = negsuc 0; created = pos 0 }
    ∷ record { client_fd = pos 5; created = pos 11 }
    ∷ []

server_loop-extended_example : server_loop three_rounds new_process ≡ (
  blocked,
  record new_process {
    connections = pos 4 ∷ negsuc 0 ∷ pos 5 ∷ [];
    threads = pos 4 ∷ negsuc 0 ∷ [];
    errors = logged three_rounds;
  },
)
server_loop-extended_example = server_loop-extended three_rounds new_process
