-- ===== src/Lib.antt =====
-- acidblood is an IRC bot. It reads lines from its servers, takes them apart, keeps track of users and
-- channels, looks users up in a table of masks, and runs their commands. Each file here models one part:
--
-- Common: lists, tests and signed integers that the other files share.
-- Text: streq, strcaseeq, lowerstring and strip_char_from_end of src/parser.c. A C string is the list
--   of the bytes before its NUL, a pointer that may be NULL is an Option. strtok, tolower and snprintf
--   are those of the C library, in the C locale.
-- Parser: SplitInput, build_clientinfo, convert_clientinfo and parse_channels of src/parser.c. The
--   two buffers of 100 bytes of parse_channels are lists, and a write behind their end is `none`.
-- Match: match of src/match.c, with pointers that can move both ways in their string. The 512 rounds
--   of its loop are the fuel of the model; a move or a read outside a string is `none`.
-- DoublyLinked: the macros of include/list.h on nodes in memory, and the loops of src/list.c,
--   src/timer.c, src/events.c and src/numeric.c that delete items. A use of a freed node is `none`.
--   Fuel stands for the rounds of a walk, and one more than the number of nodes is enough.
-- Access: the user table of src/list.c and the access that SetAccess and SetChanAccess give. What
--   these send is a result, and so is a fault of match.
-- Commands: the tables of commands of src/list.c, and the dispatch of handle_command in
--   src/usrcommands.c, handle_ctcp in src/ctcp.c and handle_server_command in src/srvcommands.c. The
--   functions of the commands are addresses.
-- Timers: src/timer.c, on the list of timers in order. Times are numbers that do not wrap.
-- Sending: the cutting of messages into lines of src/sendmsg.c. What vsprintf puts together is given;
--   privmsg has its buffer of 4096 bytes, in the other functions the text is taken to fit the buffer.
-- Tracking: src/tracking.c with UpdateAccess of src/list.c: the users and channels of one server, at
--   addresses that both hold of each other, and in Tracking/Servers the list of servers. Reads of
--   freed memory are `none`. The rounds of QuitUser and DelChannel are on fuel; one more than the
--   user's channels, or the channel's users, is enough. Times are numbers that do not wrap. Topics
--   and modes, which this file only clears, are left out.
-- Triggers: src/events.c, and the table of numerics of src/numeric.c with handle_numeric, as lists in
--   memory. The functions that are called leave the lists alone.
-- Autojoin: conf_channels and its functions in src/list.c, and EnterChannel and ExitChannel of
--   src/tracking.c.
-- Config: src/readconf.c: the table of keywords and what the lines of the configuration call.
-- Settings: struct botstruct, the functions of src/conf.c for the keywords, the table that init_conf
--   builds, and the calls of read_main_config. atoi is that of the C library.
-- Network: src/network.c, with struct socket_info of include/acidblood.h and the flags of
--   include/network.h, which are Booleans. A socket of the pool is its index, a handler an address.
--   What the system calls and the handlers do is given by a record, where the calls of send on a
--   socket are numbered and each may fail or not; what recv gives is a list, behind whose end it
--   fails. Connections has connect_to_host and check_connections, Buffer has getline_server; a call of
--   a NULL handler and an access outside the buffer are `none`.
-- Servers: src/server.c: the servers of the configuration, the attempts to connect to them, and in
--   Action the handler of a server, which reads a line and hands it on. Settings that are numbers are
--   taken not to be negative there. The count of attempts and the delay are ints of 32 bits, which
--   wrap around; times do not. Rounds has the rounds of CheckConfServers for one server at the times
--   of a list.
-- Srvcommands: what the messages of servers do, in src/srvcommands.c; Messages has PRIVMSG, which ends
--   in a command or a CTCP message. Each function that is called there is an address.
-- Numeric: what the numerics 302, 366 and 433 do, in src/numeric.c; 001 is complete_connect.
-- Usrcommands: commands of users, in src/usrcommands.c.
-- Chanop, Seen, Dicemod: the modules dmodules/chanop/chanop.c, dmodules/seen/seen.c and
--   dmodules/dicemod/dicemod.c. The files of seen are a function, the rounds of its loops are on fuel,
--   and one more than the entries is enough; what rand returns is given.
-- Examples: runs, and the theorems at concrete inputs.
--
-- The parts meet in the dispatch: check_connections calls the handler of a socket, which reads a line
-- and has Parser take it apart; a numeric or a command of the server is looked up in Triggers or Commands,
-- what it says of users goes by Srvcommands to Tracking, which asks Access and tells the triggers of the
-- modules; and a user's own command goes through the access in Commands to Usrcommands or a module, and
-- answers with Sending.
--
-- Not modelled: NOTICE of servers, the numeric 353, the replies to CTCP, the commands of users on
-- modules, the time, the version and the process, the users file, the loading of modules, and files,
-- processes, signals and logging, which are calls of the system in a row.
pub mod Common
pub mod Text
pub mod Parser
pub mod DoublyLinked
pub mod Match
pub mod Access
pub mod Commands
pub mod Timers
pub mod Tracking
pub mod Triggers
pub mod Autojoin
pub mod Sending
pub mod Network
pub mod Servers
pub mod Chanop
pub mod Seen
pub mod Usrcommands
pub mod Srvcommands
pub mod Numeric
pub mod Dicemod
pub mod Config
pub mod Settings
mod Examples
