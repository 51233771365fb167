-- ===== src/Lib.antt =====
-- A key-value server with transactions, csf_assign05.
--
-- Clients connect to the server and send one request per line: they log in, create tables, push
-- and pop values on a stack of their own, do arithmetic on it, and move values between the stack
-- and the shared tables, alone or in a transaction. A thread per client decodes each line, answers
-- it, and locks the tables that it touches. The parts, and the files that model them:
--
-- - csf_assign05/exceptions.h: Exceptions. A call gives an `Outcome`: a value, an exception, `blocked`
--   (a wait for a mutex or for input) or `undefined` (undefined behaviour of C++ or POSIX threads).
-- - std::string, std::stringstream, std::stoi and std::to_string as far as the code uses them: Text
--   (bytes, words and lines), Text/Words, and Text/Decimal (int as an integer in the range of 32 bits).
-- - std::unordered_map with strings as keys: Dict, an association list with one entry for each key.
-- - csf_assign05/message.h and message.cpp: Message, with is_valid in Message/Validity, its comparison with
--   the protocol in Message/Protocol, and operator= in Message/Copy. char is signed: isspace of a byte of 128 or
--   more is undefined.
-- - csf_assign05/message_serialization.cpp: Serialization. The loop `ss >> word` runs on fuel, the length
--   of the text, which is enough since each round takes a character. Serialization/RoundTrip,
--   Serialization/Quoted and Serialization/Total hold the theorems.
-- - csf_assign05/table.h and table.cpp: Table. A pthread mutex is the number of the client that holds it;
--   to unlock a mutex that one does not hold is undefined. Table/Entries has the theorems.
-- - csf_assign05/value_stack.cpp: ValueStack, a list with its top in front.
-- - csf_assign05/server.h and server.cpp: Server, the map from names to tables, and its mutex.
-- - csf_assign05/client_connection.h and client_connection.cpp: Connection. Connection/State has the state
--   (the server, the heap of tables, the connection) and the monad; Connection/Calls the calls of tables,
--   of the server and of the socket; Connection/Transactions the end of a transaction and
--   manage_exception; Connection/Handlers the requests and call_response_function;
--   Connection/Chat the loop chat_with_client, the destructor, and Server::client_worker.
-- - The threads: System, the interleavings of the clients' rounds of chat_with_client on the shared server,
--   one step for a round that returns, on any line, and one for the end of a thread. A round that waits is no
--   step; it is tried again. A step is also a round during which a SET or GET of another client, outside a
--   transaction, has locked a table, so that a trylock on it fails (Connection/Lends); else the model does not
--   interleave the statements of two rounds, and nothing is stated of how long a round waits for a mutex that
--   another round holds for its duration (the server's in CREATE, a table's in SET and GET outside a transaction).
--   System/Workers shows that a client_worker that returns is a run of such steps.
-- - csf_assign05/server_main.cpp, and listen, server_loop and log_error of server.cpp: ServerMain, for given
--   results of open_listenfd, accept and pthread_create, as far as accept has returned; what the threads do, also
--   that an exception in one ends the process, is no part of it; with its theorems in ServerMain/Accepting.
-- - csf_assign05/set_value.cpp, get_value.cpp and incr_value.cpp: SetValue, GetValue and IncrValue, for
--   given arguments and results of open_clientfd. What they share is in Client: a socket that gives the lines read and
--   records those sent and what is printed, and handle_possible_ok_response, of which each of the three files
--   has a copy. Client/Conversation says what it is that a sequence of requests has been accepted, and
--   SetValue/Session, GetValue/Session and IncrValue/Session state it of the programs once they are connected, and
--   the modules CommandLine of main. Client/Answers,
--   IncrValue/OnServer, InTransaction and Together run incr_value against the server;
--   SetValue/OnServer, GetValue/OnServer and GetValue/AfterSet run set_value and then get_value.
--
-- Connection/Triple is a program logic for the monad: a precondition, and a postcondition for a return,
-- an exception, a wait and undefined behaviour, with what is left of the tables that other clients have
-- locked (`Frame`). Connection/Owns says which locks a client holds, Connection/Keeps has the rules for
-- the calls on tables, Connection/Steady those for requests that lock nothing (Connection/Operands),
-- Connection/Requests the transaction code, Connection/Acquire, Sets, Gets and Creates the requests that
-- lock, and Connection/Serve the dispatch. Connection/Faults says when a valid request can be undefined,
-- and Connection/Lines does so for a round on any line. Connection/Arithmetic and its child Branches
-- have the results of ADD, SUB, MUL and DIV, and Connection/Login those of LOGIN.
-- Connection/Runs has the equations of single runs; with them, Connection/Values gives the results of
-- GET and SET, in Alone outside a transaction, in InTransaction in one, and in Missing for a key that is
-- not there; Connection/Single those of PUSH, TOP and BYE, Connection/Commits those of BEGIN and COMMIT,
-- its child Order those of the loops over locked_tables in any order, and Connection/Rounds those of the
-- loop on lines that are encoded requests. Connection/Preserves is a logic of invariants that hold
-- whatever the outcome, Connection/Replies one of what is written to the client, Connection/Throws one
-- of the exceptions that are thrown, and Connection/Sizes one of how long the values are, with
-- Serialization/Sizes and Text/Decimal/Sizes for those that come from a line or an int. System/Locks,
-- System/Isolation and System/Values have the theorems on all reachable states.
--
-- A read of the socket gives nothing, or a line (`Chat.Read`); what is written to it is recorded in the
-- field `sent`. A line that does not fit into the buffer of chat_with_client is undefined.
--
-- Not modelled: sockets, csf_assign05/csapp.c (a support library), how the clients connect, the
-- destructor of Server, guard.h (unused) and the tests.
mod Prelude
pub mod Exceptions
pub mod Text
pub mod Dict
pub mod Message
pub mod Serialization
pub mod ValueStack
pub mod Table
pub mod Server
pub mod ServerMain
pub mod Connection
pub mod System
pub mod Client
pub mod SetValue
pub mod GetValue
pub mod IncrValue
mod Tests
