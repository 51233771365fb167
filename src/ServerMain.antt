-- ===== src/ServerMain.antt =====
-- server_main.cpp, and Server::listen, server_loop and log_error of server.cpp: how the server comes to
-- its clients. open_listenfd, accept and pthread_create are the environment's: the functions are given
-- what they returned. What the threads do is the subject of System.
pub mod Accepting
use computer_systems_assignm.Prelude.{
  ℕ, zero, Bool, true, false, List, [], ◌∷◌, ◌++◌, ◌==◌, if◌then◌else◌,
}
use computer_systems_assignm.Prelude.Int.{ℤ, pos, negsuc, is_negative}
use computer_systems_assignm.Exceptions.{
  Outcome, ok, throw, blocked, undefined, comm_exception, invalid_argument, out_of_range,
}
use computer_systems_assignm.Text.{Bytes, codes, newline}

-- `connections` has the descriptor of each ClientConnection that was made, `threads` of each that was
-- handed to a thread of client_worker, and `errors` what went to std::cerr, oldest first.
pub record Process : Type 0 where
  pub server_fd : ℤ
  pub connections : List ℤ
  pub threads : List ℤ
  pub errors : List Bytes

-- Server()
abbrev pub new_process : Process
new_process = record { server_fd = pos 0; connections = []; threads = []; errors = [] }

-- What accept and pthread_create returned in a round of the loop.
pub record Round : Type 0 where
  pub client_fd : ℤ
  pub created : ℤ

abbrev pub is_zero : ℤ → Bool
is_zero (pos zero) = true
is_zero _ = false

unfoldable pub log_error : Bytes → Process → Process
log_error what p = record p { errors = p.errors ++ (codes "Error: " ++ what ++ newline ∷ []) ∷ [] }

unfoldable pub listen : ℤ → Process → Outcome (Unit {0}) × Process
listen listenfd p =
    if is_negative listenfd
    then (
      throw (comm_exception (codes "Failed to create server socket")),
      record p { server_fd = listenfd },
    )
    else (ok tt, record p { server_fd = listenfd })

-- Behind a failed accept the round goes on.
unfoldable pub accept_client : ℤ → Process → Process
accept_client client_fd p =
    let p' = if is_negative client_fd then log_error (codes "Could not accept a client") p else p in
    record p' { connections = p'.connections ++ client_fd ∷ [] }

-- A connection that gets no thread is not deleted.
unfoldable pub start_client : ℤ → ℤ → Process → Process
start_client client_fd created p =
    if is_zero created
    then record p { threads = p.threads ++ client_fd ∷ [] }
    else log_error (codes "Could not create client thread") p

-- `rounds` has what accept and pthread_create have returned so far: `while (1)` has no other end, and behind them
-- the loop waits in accept.
unfoldable pub server_loop : List Round → Process → Outcome (Unit {0}) × Process
server_loop [] p = (blocked, p)
server_loop (r ∷ rounds) p =
    server_loop rounds (start_client r.client_fd r.created (accept_client r.client_fd p))

-- The handler of std::runtime_error in main, and the exit status; std::logic_error is not caught.
unfoldable pub finish : Outcome (Unit {0}) × Process → Outcome ℕ × Process
finish (ok a, p) = (ok 0, record p { errors = p.errors ++ (codes "Hit loop" ++ newline ∷ []) ∷ [] })
finish (throw invalid_argument, p) = (throw invalid_argument, p)
finish (throw out_of_range, p) = (throw out_of_range, p)
finish (throw e, p) = (ok 1, log_error (codes "Fatal error starting server") p)
finish (blocked, p) = (blocked, p)
finish (undefined, p) = (undefined, p)

unfoldable pub listen_and_loop :
    Outcome (Unit {0}) × Process → List Round → Outcome (Unit {0}) × Process
listen_and_loop (ok a, p) rounds = server_loop rounds p
listen_and_loop o rounds = o

unfoldable pub main : ℕ → ℤ → List Round → Outcome ℕ × Process
main argc listenfd rounds =
    if argc == 2 then finish (listen_and_loop (listen listenfd new_process) rounds) else (
      ok 1,
      record new_process { errors = (codes "Usage: ./server <port>" ++ newline ∷ []) ∷ [] },
    )
