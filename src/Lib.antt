-- ===== src/Lib.antt =====
-- Verification library of the networking projects under projects/: the proxy of project 4, the HTTP
-- console of project 3, the shell of project 1 with its core in project 2, and the two servers of
-- project 2 in which users talk and pipe to each other.
--
-- Socks models projects/04-socks-proxy/socks_server.cpp: Address and Reply the dotted addresses and
-- the reply packet (parse_ipv4, ip_to_string, write_socks_reply), Request the request that the
-- server reads and that SocksBatchSession in console_components.hpp builds, Firewall the rules of
-- socks.conf, Proxy the handlers of one client (handle_client, handle_connect, handle_bind), with
-- the child process's statements in Process, and Relay one thread of relay_bidirectional. The
-- answers of Boost.Asio and the clock are the record Net, and what the outside sees is a list of
-- events; an exception is the outcome `thrown`.
--
-- Console models projects/03-http-cgi-console and the parts of project 4 that do the same work: Url
-- and Query decode the query string, Escape writes remote output into scripts, Pages and Panel
-- render the two pages, Prompt finds the prompt in a stream, Session is the state machine of
-- RemoteBatchSession, Batch that of both session classes of project 4, Http parses requests and
-- decides what http_server.cpp executes, and Cgi is the write queue of cgi_server.cpp. A definition
-- whose name ends in `_inline` is that of console_components.hpp.
--
-- Shell models projects/01-npshell/shell_core.h: Parse is parseLine, Plan is buildWaitability and
-- buildLinePlan, and Session the loop over the lines with the built-in commands,
-- executeExternalCommands and, in Child, runChildProcess.
--
-- ShellCore models projects/02-rwg-server/shell_core.h: Os the descriptors that the process has
-- open, with closeFd and createPipeOrDie, State the numbered pipes and the environment of a shell
-- with executeShellBuiltin, Execute attachIncomingNumberedPipe and prepareIoPlan, Line the loop of
-- executeExternalCommands, Child runChildProcess, Reap graceReap, and Token the number pipes whose
-- count is a sum. The answers of pipe, open and waitpid are the argument `system` or `waitpid`; a
-- theorem that needs that pipe and open give descriptors which are not open says so (IsPosix), and
-- Fresh has a system that does. A helper that both projects have word for word is modelled once, in
-- ShellCore.
--
-- Rwg models projects/02-rwg-server/np_single_proc.cpp: Clients is the table of clients, Server the
-- state with acceptClient and cleanupClient, Parse is parseCommands, Pipes is resolveUserPipes,
-- Builtins is handleRwgBuiltin, Run puts these calls one after another, and Input is the loop over
-- the lines that a client sends. Writes and closed descriptors are events in order.
--
-- Multi models projects/02-rwg-server/np_multi_proc.cpp: Shared and Users are the shared memory and
-- what each locked section does to it, Process one process with the memory that it finds at each of
-- its sections, Messages, Builtins, Pipes and Line the functions from sendMessageToUser to
-- serveClient, Section the sections of all processes one after another, and Lock is lockShared and
-- unlockShared with the handler flushPendingMessages and signals that end a process as a step
-- relation; Directory sets it beside
-- Rwg. What the other processes do between two sections is the argument `others`.
--
-- Texts are lists of bytes, numbers are natural numbers with their reductions written out, and a
-- std::map is an association list. Loops are recursions on their input. Fuel is used in three
-- places: `to_string` takes one more round than the number, which falls at every step,
-- `build_waitability` takes the number of commands, of which each round uses one at least, and
-- `grace_reap` one round more than processes, since every round but the last ends one.
--
-- Not modelled: the calls of the operating system and of Boost.Asio, whose answers are arguments;
-- accepting connections, select and main; the file of start times per client address, which gives
-- the start time that handle_client takes as an argument; the retries of fork and of an interrupted
-- waitpid; the exit of np_single_proc where the system refuses a pipe between users; and
-- np_simple.cpp of projects 1 and 2, which only accepts connections and starts a shell.
pub mod Base
pub mod Multi
pub mod Socks
pub mod Console
pub mod Rwg
pub mod ShellCore
pub mod Shell
