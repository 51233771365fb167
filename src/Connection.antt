-- ===== src/Connection.antt =====
-- client_connection.h and client_connection.cpp: one client's requests, answered on the shared
-- server. `State` has the state and the monad of the methods, `Calls` what they call, `Transactions`
-- the end of a transaction, `Handlers` the requests, and `Chat` the loop over the lines of a client.
pub mod State
pub mod Calls
pub mod Transactions
pub mod Handlers
pub mod Chat
pub mod Triple
pub mod Owns
pub mod Keeps
pub mod Lends
pub mod Steady
pub mod Operands
pub mod Requests
pub mod Acquire
pub mod Sets
pub mod Gets
pub mod Creates
pub mod Serve
pub mod Faults
pub mod Lines
pub mod Arithmetic
pub mod Login
pub mod Runs
pub mod Values
pub mod Commits
pub mod Single
pub mod Preserves
pub mod Replies
pub mod Throws
pub mod Sizes
pub mod Rounds
