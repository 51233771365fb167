-- ===== src/ServerMain/Accepting.antt =====
-- The rounds of server_loop: which connections are made, which get a thread, and what is logged.
use computer_systems_assignm.Prelude.{
  zero, suc, ◌≡◌, refl, sym, ap, ◌∙◌, List, [], ◌∷◌, ◌++◌, append_assoc, append-nil, if◌then◌else◌,
}
use computer_systems_assignm.Prelude.Int.{ℤ, pos, negsuc, is_negative}
use computer_systems_assignm.Exceptions.{blocked}
use computer_systems_assignm.Text.{Bytes, codes, newline}
use computer_systems_assignm.ServerMain.{
  Process, Round, is_zero, log_error, accept_client, start_client, server_loop,
}

-- A connection for each round.
abbrev pub accepted : List Round → List ℤ
accepted [] = []
accepted (r ∷ rounds) = r.client_fd ∷ accepted rounds

abbrev thread_of : ℤ → ℤ → List ℤ
thread_of fd created = if is_zero created then fd ∷ [] else []

abbrev error_of_accept : ℤ → List Bytes
error_of_accept fd =
    if is_negative fd then (codes "Error: Could not accept a client" ++ newline ∷ []) ∷ [] else []

abbrev error_of_thread : ℤ → List Bytes
error_of_thread created =
    if is_zero created
    then []
    else (codes "Error: Could not create client thread" ++ newline ∷ []) ∷ []

-- A thread for each round in which pthread_create returned 0.
abbrev pub started : List Round → List ℤ
started [] = []
started (r ∷ rounds) = thread_of r.client_fd r.created ++ started rounds

abbrev pub logged : List Round → List Bytes
logged [] = []
logged (r ∷ rounds) = error_of_accept r.client_fd ++ error_of_thread r.created ++ logged rounds

abbrev extended : Process → List ℤ → List ℤ → List Bytes → Process
extended p connections threads errors = record p {
  connections = p.connections ++ connections;
  threads = p.threads ++ threads;
  errors = p.errors ++ errors;
}

extended-nil : (p : Process) → extended p [] [] [] ≡ p
extended-nil p = rw (append-nil p.connections, append-nil p.threads, append-nil p.errors) refl

extended-round :
    (fd created : ℤ) (p : Process) (connections threads : List ℤ) (errors : List Bytes)
    → extended (start_client fd created (accept_client fd p)) connections threads errors
      ≡ extended p
          (fd ∷ connections)
          (thread_of fd created ++ threads)
          (error_of_accept fd ++ error_of_thread created ++ errors)
unfolding start_client accept_client log_error
extended-round (pos n) (pos zero) p connections threads errors = simp append_assoc
extended-round (pos n) (pos (suc m)) p connections threads errors = simp append_assoc
extended-round (pos n) (negsuc m) p connections threads errors = simp append_assoc
extended-round (negsuc n) (pos zero) p connections threads errors = simp append_assoc
extended-round (negsuc n) (pos (suc m)) p connections threads errors = simp append_assoc
extended-round (negsuc n) (negsuc m) p connections threads errors = simp append_assoc

-- The loop makes a connection for every return of accept, also for a failed one, and starts a thread for
-- it, if pthread_create can; it logs what fails, and waits for the next client.
pub server_loop-extended :
    (rounds : List Round) (p : Process)
    → server_loop rounds p ≡ (
      blocked,
      record p {
        connections = p.connections ++ accepted rounds;
        threads = p.threads ++ started rounds;
        errors = p.errors ++ logged rounds;
      },
    )
unfolding server_loop
server_loop-extended [] p = ap (λ (x : Process). (blocked, x)) (sym (extended-nil p))
server_loop-extended (r ∷ rounds) p =
    server_loop-extended rounds (start_client r.client_fd r.created (accept_client r.client_fd p))
    ∙ ap (λ (x : Process). (blocked, x))
        (extended-round r.client_fd r.created p (accepted rounds) (started rounds) (logged rounds))
