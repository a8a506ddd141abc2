-- ===== src/Lib.antt =====
-- LanTalk, a messenger for local networks: a model of its core and the theorems about it.
--
-- The program and the files that model it. A function keeps its name, in small letters.
-- * Network.Protocol is src/network/protocol.hpp and protocol.cpp: Types has MessageType and the
--   constants, Header the frame header and the frame with their bytes, Reader the incremental
--   FrameReader. `feed` is one call of FrameReader::feed, `feed_all` one call after the other.
-- * Network.Connection is src/network/connection.cpp: the connection's state and operations; Receive
--   is recvLoop, Lifecycle what states it can be left in, and Carried what its list of sent frames
--   has to do with the bytes that sendAll writes; Reader.Accounting follows these bytes.
-- * Network.Socket is src/network/tcp_socket.cpp over what the calls of the system return: Writing is
--   sendAll's loop, Delivery its use by Connection::send with the reader of the other side, and
--   Ownership makes the life of the TcpSocket objects of a program a list of acts, with Balance for
--   their handles.
-- * Network.Client is src/network/tcp_client.cpp, and Outcomes the ways in which connect ends.
-- * Network.Server is src/network/tcp_server.cpp: start, stop, acceptLoop and the detached
--   threads as steps; Accepting is about what ::accept returns, and Handing about what those threads
--   get, before and after a stop.
-- * Chat.Message is src/chat/message.cpp: the JSON text of a message and the scanner for it.
-- * Chat.Queue is src/chat/message_queue.cpp; Waiting adds the threads that sleep in its waits, with
--   Wakeups for their notifications and Serial for the histories that they make.
-- * Chat.Session is src/chat/chat_session.cpp: Json has its own JSON helpers, Handlers the handlers of
--   frames from sendHello to onDisconnect, Commands what the program asks of a session. History makes
--   a session's life a list of steps, and Wiring restricts these to the ones that the callbacks set up
--   by src/main.cpp can make, with Handlers and Broadcast for what that does to the session.
--   Handshake is the exchange of HELLO, AUTH_REQUEST and AUTH_RESPONSE between two sessions;
--   Stopping is the meeting of stop and the receiver threads at the mutex, with Mutex and Deadlock.
--   Receiving is recvLoop with the callbacks of a session, its rate limit included.
--   Isolation is about several connections, whose frames are interleaved, and Keepalive about the
--   connections that fail.
-- * Security.Uuid has the three UUID generators, of src/chat/message.cpp, src/security/crypto.cpp and
--   src/config/config.cpp.
-- * Security.Authentication is src/security/authentication.cpp, over a parameter for OpenSSL; Exchange
--   joins the two sides of a challenge.
-- * Security.Digest and Security.Base64 are the wrappers of OpenSSL in src/security/crypto.cpp, with
--   Digest.Outcomes for the ways in which the hashes end.
-- * Security.Credentials is the TLS certificate of src/security/crypto.cpp, its files and what is freed.
-- * Discovery is src/discovery/lan_discovery.cpp: the announce packet, its parser, and the peers that
--   a scan collects; Announcing is the announce thread, in ticks of 100 milliseconds, and Latest the
--   results of a scan as a table.
-- * Config is src/config/config.cpp: the keys, in File the text that save writes and the loop of load,
--   and in Store the constructor, load and save over a disk, with Runs for several runs of the
--   program; Typed is about the types of the numbers.
-- * Cli is src/cli/command_parser.cpp.
-- * Logging is src/logging/logger.cpp.
-- * Terminal is src/cli/terminal_ui.cpp: the input loop and what is printed; Delivery follows a line
--   through the session to the connections, Conversation to the other side, Greeting is the start
--   of a connection, and Opening goes from there to the callbacks of the other side.
-- * App is src/main.cpp: the logging flags, config, status and scan; Target is the search for the host
--   that connect dials, Menu the choice of a command, Listening and Calling the listen and
--   connect commands as lists of steps, Lifecycle the objects that these make and the handler of
--   signals; Connecting, Settings and Finding are about a command line, several runs of the program and two devices.
-- * Common has byte strings, lists, ordered dictionaries (std::map), decimal and hexadecimal text and
--   the search for a JSON key; Examples has tests and the theorems at concrete inputs.
--
-- How the parts interact: a connection feeds the bytes that it receives to its reader and hands each
-- frame to a callback, which main.cpp sets to the session's onFrame; the session answers through the
-- connections in its map, and reports to the user through callbacks, which come out as events. Its
-- threads (one receiver for each connection, the keepalive and the user's) meet at its lock, so a
-- history is the sequence of what they do while they hold it.
--
-- State is passed explicitly; a handler is a function from the session it finds to the session it
-- leaves. A call that may throw yields a result with the exception as a case. Bytes and machine
-- integers are numbers: the conversions to 32 and 16 bits are written out. std::stoll, std::stoi and
-- std::map are modelled as the standard documents them.
--
-- Fuel: the printing of a number n in decimal takes n + 1 steps at most; and the reader's loop runs on
-- fuel, 2 * n + 2 rounds for n bytes in the buffer. A round takes
-- at least the twelve bytes of a header, or ends a payload and goes back to the header, so that twice
-- the buffer's length with one for a started payload falls in each round.
--
-- sendAll runs on fuel, one unit for each call of ::send, and what it does with too little fuel is a
-- result of its own. The accept loop, the input loop and the menu run on the list of what the system
-- returns to them.
--
-- Not modelled: the system behind the socket calls, the resolver, the disk, the environment and the
-- clock, which are parameters; OpenSSL (what its calls answer is a parameter); the text of the help;
-- and everything that is compiled for Windows or macOS only.
pub mod Common
pub mod Network
pub mod Chat
pub mod Security
pub mod Discovery
pub mod Cli
pub mod Config
pub mod Logging
pub mod Terminal
pub mod App
pub mod Examples
